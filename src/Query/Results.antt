-- ===== src/Query/Results.antt =====
-- What a caller of the simple-query path of pg2json/query.go gets.
use pg2json.Common.{
  ℕ, suc, ◌^◌, ◌<◌, ◌≡◌, inl, inr, refl, ap, Bool, true, false, Option, none, List, [], ◌∷◌, ◌++◌,
  map, append-nil, arith, Bytes, codes, All, length, ltb,
}
use pg2json.Json.{IsJson, IsElements, arr, empty_arr, element, elements}
use pg2json.Stream.{OutWriter, buf_writer, fresh, Sink, Clock, flushing_writer}
use pg2json.Stream.Laws.{
  IsWriter, buf_contract, flushing_contract, flush_now_takes, flush_when_due_takes,
}
use pg2json.Rows.{Plan, plan_of}
use pg2json.Rows.Describe.{
  Field, IsField, described, row_description, parse_row_description-row_description,
}
use pg2json.Rows.Output.{IsRow}
use pg2json.Rows.Valid.{IsTexts, texts-IsRow, object-IsJson, array-IsJson}
use pg2json.Query.{
  Mode, mode_array, mode_ndjson, mode_columnar, mode_toon, Message, msg_row_description, start,
  consume_text,
}
use pg2json.Query.Texts.{row_text, rows_text, document}
use pg2json.Query.Document.{no_caps, messages, Completes, consume_text-messages}

-- A result that the server sends in text format: its fields and its rows.
pub record IsResult (fs : List Field) (rows : List (List (Option Bytes))) : Type 0 where
  pub fields : All IsField fs
  pub few : length fs < 2 ^ 15
  pub texts : All (λ cells. IsTexts fs cells × (length cells < 2 ^ 15)) rows

abbrev pub plan_for : List Field → Plan
plan_for fs = plan_of (map described fs)

rows-IsRow :
    (fs : List Field) (rows : List (List (Option Bytes)))
    → All (λ cells. IsTexts fs cells × (length cells < 2 ^ 15)) rows
    → All (IsRow (map described fs)) rows
rows-IsRow fs [] ts = tt
rows-IsRow fs (cells ∷ rows) ((t, few), ts) = (texts-IsRow fs cells t few, rows-IsRow fs rows ts)

-- With no caps, on any output writer that keeps the contract, in every mode, `consumeText` emits the header, the
-- rows and the footer of a text-format result and reads nothing behind its ReadyForQuery, unless the
-- writer fails to flush, and then it returns that error.
pub consume_text-document :
    {S : Type 0} (w : OutWriter S) (laws : IsWriter w) (mode : Mode) (fs : List Field)
    (rows : List (List (Option Bytes))) (rest : List Message) (out : S)
    → IsResult fs rows
    → laws.Sound out
    → Completes laws
        (consume_text w no_caps mode
          (msg_row_description (row_description fs) ∷ messages rows rest)
          start
          out)
        (laws.emitted out ++ document mode (plan_for fs) rows)
        rest
unfolding consume_text start plan_of
consume_text-document w laws mode fs rows rest out r s =
    let plan = parse_row_description-row_description fs r.fields r.few in
    rw (plan, consume_text)
      (consume_text-messages w laws mode (plan_for fs) rows rest 0 false out
        (rows-IsRow fs rows r.texts) s)

later : (n : ℕ) → ltb 0 (suc n) ≡ true
later n = ground arith

-- The modes whose rows are the elements of an array.
abbrev IsArrayMode : Mode → Type 0
IsArrayMode mode_array = Unit
IsArrayMode mode_ndjson = ⊥
IsArrayMode mode_columnar = Unit
IsArrayMode mode_toon = ⊥

rows_text_next :
    (mode : Mode) (plan : Plan) (next : List (Option Bytes)) (rows : List (List (Option Bytes)))
    (n : ℕ)
    → IsArrayMode mode
    → rows_text mode plan (suc n) (next ∷ rows)
      ≡ b',' ∷ (row_text mode plan next ++ rows_text mode plan (suc (suc n)) rows)
rows_text_next mode_array plan next rows n h = rw (later n) refl
rows_text_next mode_ndjson plan next rows n h = elim h [ ]
rows_text_next mode_columnar plan next rows n h = rw (later n) refl
rows_text_next mode_toon plan next rows n h = elim h [ ]

rows-IsElements :
    (mode : Mode) (plan : Plan) (cells : List (Option Bytes)) (rows : List (List (Option Bytes)))
    (n : ℕ)
    → IsArrayMode mode
    → All (λ cs. IsJson (row_text mode plan cs)) (cells ∷ rows)
    → IsElements (row_text mode plan cells ++ rows_text mode plan (suc n) rows)
rows-IsElements mode plan cells [] n m (j, js) = rw append-nil (element j)
rows-IsElements mode plan cells (next ∷ rows) n m (j, js) =
    elements (row_text mode plan cells)
      (row_text mode plan next ++ rows_text mode plan (suc (suc n)) rows) j
      (rows-IsElements mode plan next rows (suc n) m js)
      (ap (λ (t : Bytes). row_text mode plan cells ++ t) (rows_text_next mode plan next rows n m))

rows_first :
    (mode : Mode) (plan : Plan) (cells : List (Option Bytes)) (rows : List (List (Option Bytes)))
    → IsArrayMode mode
    → rows_text mode plan 0 (cells ∷ rows) ≡ row_text mode plan cells ++ rows_text mode plan 1 rows
rows_first mode_array plan cells rows h = refl
rows_first mode_ndjson plan cells rows h = refl
rows_first mode_columnar plan cells rows h = refl
rows_first mode_toon plan cells rows h = refl

rows_array :
    (mode : Mode) (plan : Plan) (rows : List (List (Option Bytes)))
    → IsArrayMode mode
    → All (λ cs. IsJson (row_text mode plan cs)) rows
    → IsJson (b'[' ∷ (rows_text mode plan 0 rows ++ codes "]"))
rows_array mode plan [] m js = empty_arr [] tt refl
rows_array mode plan (cells ∷ rows) m js =
    arr _ (rows-IsElements mode plan cells rows 0 m js)
      (ap (λ (t : Bytes). b'[' ∷ (t ++ codes "]")) (rows_first mode plan cells rows m))

texts-IsJson :
    (mode : Mode) (fs : List Field) (rows : List (List (Option Bytes)))
    → IsArrayMode mode
    → All (λ cells. IsTexts fs cells × (length cells < 2 ^ 15)) rows
    → All (λ cs. IsJson (row_text mode (plan_for fs) cs)) rows
unfolding plan_of
texts-IsJson mode fs [] m ts = tt
texts-IsJson mode_array fs (cells ∷ rows) m ((t, few), ts) =
    (object-IsJson fs cells t, texts-IsJson mode_array fs rows m ts)
texts-IsJson mode_columnar fs (cells ∷ rows) m ((t, few), ts) =
    (array-IsJson fs cells t, texts-IsJson mode_columnar fs rows m ts)
texts-IsJson mode_ndjson fs (cells ∷ rows) m ts = elim m [ ]
texts-IsJson mode_toon fs (cells ∷ rows) m ts = elim m [ ]

-- QueryJSON on the simple-query path, with no caps: for a text-format result the
-- in-memory buffer ends with the JSON array of the rows' objects, there is no error, and the messages
-- behind the response are left.
pub consume_text-IsJson :
    (fs : List Field) (rows : List (List (Option Bytes))) (rest : List Message)
    → IsResult fs rows
    → let r =
        consume_text buf_writer no_caps mode_array
          (msg_row_description (row_description fs) ∷ messages rows rest)
          start
          [] in
      (r.result ≡ none)
      × (r.out ≡ document mode_array (plan_for fs) rows)
      × IsJson r.out
      × (r.rest ≡ rest)
unfolding buf_writer buf_contract
consume_text-IsJson fs rows rest r =
    elim (consume_text-document buf_writer buf_contract mode_array fs rows rest [] r tt) [
      | inl ((s, inl bad), e) ↦ absurd cc
      | inl ((s, inr bad), e) ↦ absurd cc
      | inr (ok, same, _, left) ↦ (
        ok,
        same,
        rw same (
            rows_array mode_array (plan_for fs) rows tt
              (texts-IsJson mode_array fs rows tt r.texts)),
        left,
      )
    ]

clash : {b : Bool} → b ≡ false → b ≡ true → ⊥
clash f t = cc

-- StreamJSON and its kin on the simple-query path, with no caps: if the sink takes every Write, a text-format result
-- reaches it whole, in every mode and however often the buffer was flushed on the way; nothing is left
-- in the buffer, there is no error, and the messages behind the response are left.
pub stream-document :
    (sink : Sink) (clock : Clock) (threshold interval : ℕ) (mode : Mode) (fs : List Field)
    (rows : List (List (Option Bytes))) (rest : List Message)
    → IsResult fs rows
    → ((n : ℕ) → sink n ≡ none)
    → let r =
        consume_text
          (flushing_writer sink clock threshold interval)
          no_caps
          mode
          (msg_row_description (row_description fs) ∷ messages rows rest)
          start
          (fresh clock) in
      (r.result ≡ none)
      × (r.out.received ≡ document mode (plan_for fs) rows)
      × (r.out.pending ≡ [])
      × (r.rest ≡ rest)
unfolding flushing_writer flushing_contract fresh
stream-document sink clock threshold interval mode fs rows rest r takes =
    elim (consume_text-document (flushing_writer sink clock threshold interval)
      (flushing_contract sink clock threshold interval) mode fs rows rest (fresh clock) r
      (record { untouched = λ h. refl; counted = refl })) [
        | inl ((f, inl bad), e) ↦
            absurd (clash (flush_when_due_takes sink clock threshold interval takes f) bad)
        | inl ((f, inr bad), e) ↦
            absurd (clash (flush_now_takes sink clock threshold interval takes f) bad)
        | inr (ok, same, gone, left) ↦
            (ok, let e = rw gone at same in rw append-nil at e, gone, left)
      ]
