-- ===== src/Examples/Sessions.antt =====
-- The theorems about the extended protocol, iterators and logins at concrete inputs.
use pg2json.Common.{
  replicate, length, List, Option, ◌+◌, ◌-◌, ◌≡◌, refl, true, false, none, some, [], ◌∷◌, map,
  arith, Bytes, codes,
}
use pg2json.Common.Int.{pos}
use pg2json.GoStd.Decimal.{value}
use pg2json.Stream.{buf_writer}
use pg2json.Stream.Laws.{buf_contract}
use pg2json.Rows.{Plan}
use pg2json.Rows.Formatted.{IsResultRow, formatted}
use pg2json.Rows.Server.{data_row}
use pg2json.Query.{mode_array}
use pg2json.Query.Texts.{document}
use pg2json.Query.Document.{no_caps}
use pg2json.Query.Results.{plan_for}
use pg2json.Query.Extended.{rep_bind_complete, Outside, Session}
use pg2json.Query.Execute.{consume_rows, start_with}
use pg2json.Query.Run.{run_query}
use pg2json.Query.Bound.{replies, Finishes, consume_rows-document}
use pg2json.Query.Single.{IsSingle}
use pg2json.Query.Attempts.{run_query-IsSingle}
use pg2json.Iter.{Iterator, close, next_raw}
use pg2json.Iter.Yields.{Yields, finished, next_raw-Yields, close-drains}
use pg2json.Query.Extended.{drain_replies}
use pg2json.Auth.{Crypto}
use pg2json.Conn.{Login}
use pg2json.Examples.RowTexts.{fields, cells}

abbrev outside : Outside
outside = record {
  print = λ width bits. codes "0.5";
  format32 = λ bits. codes "0.5";
  format64 = λ bits. codes "0.5";
  base36 = λ n. codes "1";
  victim = λ n. 0;
  link = λ n. false;
  binary_oids = [];
}

-- The float 1.0 in binary, and NULL.
abbrev binary_cells : List (Option Bytes)
binary_cells = some (63 ∷ 240 ∷ 0 ∷ 0 ∷ 0 ∷ 0 ∷ 0 ∷ 0 ∷ []) ∷ none ∷ []

binary_cells-IsResultRow : IsResultRow fields binary_cells
binary_cells-IsResultRow = record { same = refl; few = omega arith; fit = (omega arith, (tt, tt)) }

abbrev mixed_plan : Plan
mixed_plan = formatted outside.print (1 ∷ 0 ∷ []) fields

consume_rows-document_example :
    Finishes buf_contract
      (consume_rows outside buf_writer no_caps mode_array
        (1 ∷ 0 ∷ [])
        (rep_bind_complete ∷ replies (binary_cells ∷ binary_cells ∷ []) [])
        mixed_plan
        (start_with mixed_plan)
        [])
      (document mode_array mixed_plan (binary_cells ∷ binary_cells ∷ []))
      []
unfolding buf_contract
consume_rows-document_example =
    consume_rows-document outside buf_writer buf_contract mode_array fields (1 ∷ 0 ∷ [])
      (binary_cells ∷ binary_cells ∷ []) [] []
      (binary_cells-IsResultRow, (binary_cells-IsResultRow, tt)) tt

-- A connection with the statement in its cache, on which the server answers Bind and Execute with a row.
abbrev warm_session : Session
warm_session = record {
  cache = record {
    max = 1;
    by_key =
        (codes "SELECT 1", record { name = codes "s_1"; plan = plan_for fields; result_fmts = [] })
        ∷ [];
    closed = [];
    seq = 1;
  };
  write_buf = [];
  sent = [];
  flushes = 0;
  inbox = rep_bind_complete ∷ replies (cells ∷ []) [];
  last_rows = 0;
}

run_query-IsSingle_example :
    let r =
      run_query outside buf_writer no_caps mode_array
        (λ n. false)
        true
        false
        true
        (codes "SELECT 1")
        []
        []
        warm_session in
    IsSingle outside buf_writer buf_contract no_caps mode_array
      (codes "SELECT 1")
      []
      warm_session
      r.out
      r.err
unfolding buf_contract
run_query-IsSingle_example =
    run_query-IsSingle outside buf_writer buf_contract no_caps mode_array (codes "SELECT 1") []
      warm_session (λ n. false) true false true [] (tt, refl)

abbrev iterator : Iterator
iterator = record {
  plan = plan_for fields;
  result_fmts = [];
  done = false;
  err = none;
  pg_err = none;
  row_count = 0;
  inbox = replies (cells ∷ cells ∷ []) [];
  watched = true;
  last_rows = 0;
}

next_raw-Yields_example :
    Yields outside iterator (data_row cells ∷ data_row cells ∷ []) (finished iterator 2 [])
next_raw-Yields_example =
    next_raw-Yields outside (cells ∷ cells ∷ []) [] iterator
      (record { going = refl; no_err = refl; no_pg_err = refl }) refl

close-drains_example :
    let it' = (close true iterator).1 in
    (it'.done ≡ true)
    × (it'.watched ≡ false)
    × (it'.inbox ≡ drain_replies iterator.inbox)
    × (close true it' ≡ (none, it'))
    × ((next_raw outside it').1 ≡ it')
close-drains_example = close-drains outside true iterator refl

-- A toy in place of the hash functions and of base64.
abbrev shifted : Bytes → Bytes
shifted = map (λ c. c + 45)

abbrev toy : Crypto
toy = record {
  sha256 = λ b. b;
  hmac = λ k m. (length k + length m) ∷ replicate 31 7;
  md5 = λ b. b;
  encode64 = shifted;
  decode64 = λ b. some (map (λ c. c - 45) b);
  atoi = λ s. some (pos (value 0 s));
}

abbrev login : Login
login = record {
  user = codes "u";
  password = codes "pw";
  database = codes "d";
  application_name = codes "a";
  runtime_params = [];
}
