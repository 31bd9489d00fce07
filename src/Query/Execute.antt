-- ===== src/Query/Execute.antt =====
-- bindExecute and runCached of pg2json/query.go.
use pg2json.Common.{
  ℕ, suc, Bool, true, false, not, ◌&&◌, Option, none, some, inl, inr, List, [], ◌∷◌, Bytes, length,
  if◌then◌else◌,
}
use pg2json.Common.Int.{pos, negsuc}
use pg2json.Wire.{begin, add_cstring, add_int16, add_int32, add_bytes, finish}
use pg2json.Rows.{Plan}
use pg2json.Rows.Formats.{parse_row_description_for_formats}
use pg2json.StmtCache.{PreparedStmt, get, put, invalidate, lookup, assign}
use pg2json.Stream.{OutWriter}
use pg2json.Args.{Arg, null_arg, text_arg, bad_arg, encode_arg}
use pg2json.Query.{
  Mode, msg_row_description, msg_data_row, msg_command_complete, msg_empty_query_response,
  msg_notice_response, msg_parameter_status, msg_error_response, msg_ready_for_query, msg_other,
  QueryError, read_failed, write_failed, bad_rows, unexpected, Caps, Progress, carry_on, stop,
  oversize, on_data_row, on_ready,
}
use pg2json.Query.Extended.{
  Reply, simple, rep_parse_complete, rep_parameter_description, rep_bind_complete,
  rep_close_complete, rep_no_data, rep_portal_suspended, Outside, Session, RunError, in_query,
  bad_parameter, drain_replies, bind_formats, add_formats, add_execute, add_sync,
  is_stale_stmt_error,
}
use pg2json.Query.Prepare.{statement, prepare_failed, send, prepare_and_describe}

-- What an execution leaves: the writer, the error, `lastRows` where the code sets it, the statement's
-- plan, and the messages that it has not read.
pub record Executed (S : Type 0) : Type 0 where
  pub out : S
  pub result : Option RunError
  pub last_rows : Option ℕ
  pub plan : Plan
  pub rest : List Reply

abbrev pub failing : {S : Type 0} → S → QueryError → Plan → List Reply → Executed S
failing out e plan rest = record {
  out = out;
  result = some (in_query e);
  last_rows = none;
  plan = plan;
  rest = rest;
}

abbrev pub run_error : Option QueryError → Option RunError
run_error none = none
run_error (some e) = some (in_query e)

-- A run with its writer, its error and the connection behind it.
pub record Ran (S : Type 0) : Type 0 where
  pub out : S
  pub err : Option RunError
  pub session : Session

-- The cached statement is shared: a new plan stays with it.
unfoldable pub settle : {S : Type 0} → Bytes → PreparedStmt → Session → Executed S → Ran S
settle sql st s r =
    let c = s.cache in
    let st' = record st { plan = r.plan } in
    let n : ℕ = elim r.last_rows [ some k ↦ k | none ↦ s.last_rows ] in
    record {
      out = r.out;
      err = r.result;
      session = record s {
        cache = elim (lookup sql c.by_key) [
          | some old ↦ record c { by_key = assign sql st' c.by_key }
          | none ↦ c
        ];
        inbox = r.rest;
        last_rows = n;
      };
    }

unfoldable pub start_with : Plan → Progress
start_with q = record { plan = some q; row_count = 0; header_written = false; pg_error = none }

module _ (env : Outside) where
  -- The parameters of Bind, up to one that has no encoding: whether there is none such.
  unfoldable pub add_args : List Arg → Bytes → Bool × Bytes
  add_args [] buf = (true, buf)
  add_args (a ∷ rest) buf = elim (encode_arg env.format32 env.format64 a) [
    | bad_arg ↦ (false, buf)
    | null_arg ↦ add_args rest (add_int32 (negsuc 0) buf)
    | text_arg s ↦ add_args rest (add_bytes s (add_int32 (pos (length s)) buf))
  ]

  -- Bind, Execute and Sync in the write buffer; or an unfinished Bind.
  unfoldable pub add_bind : PreparedStmt → List Arg → Bytes → Bool × Bytes
  add_bind st params buf =
      let (b, buf') = begin b'B' buf in
      let front = add_int16 (pos 0) (add_cstring st.name (add_cstring [] buf')) in
      let (encoded, filled) = add_args params (add_int16 (pos (length params)) front) in
      let fs = bind_formats st.result_fmts in
      let bound = finish b (add_formats fs (add_int16 (pos (length fs)) filled)) in
      if encoded then (true, add_sync (add_execute bound)) else (false, filled)

  module _ {S : Type 0} (w : OutWriter S) (caps : Caps) (mode : Mode) where
    -- The loop of `bindExecute`; the statement's plan is that of the loop's variables.
    unfoldable pub consume_rows : List ℕ → List Reply → Plan → Progress → S → Executed S
    consume_rows fmts [] q p out = failing out read_failed q []
    consume_rows fmts (simple (msg_row_description body) ∷ ms) q p out =
        elim (parse_row_description_for_formats env.print body fmts) [
          | inl e ↦ failing out (bad_rows e) q ms
          | inr q' ↦ consume_rows fmts ms q' (record p { plan = some q' }) out
        ]
    consume_rows fmts (simple (msg_data_row body) ∷ ms) q p out =
        elim (on_data_row w caps mode q p body out) [
          | stop out' e ↦ failing out' e q ms
          | oversize out' e ↦ record {
            out = out';
            result = some (in_query e);
            last_rows = some (suc p.row_count);
            plan = q;
            rest = drain_replies ms;
          }
          | carry_on out' ↦
              consume_rows fmts ms q
                (record p { row_count = suc p.row_count; header_written = true }) out'
        ]
    consume_rows fmts (simple msg_command_complete ∷ ms) q p out = consume_rows fmts ms q p out
    consume_rows fmts (simple msg_empty_query_response ∷ ms) q p out = consume_rows fmts ms q p out
    consume_rows fmts (simple msg_notice_response ∷ ms) q p out = consume_rows fmts ms q p out
    consume_rows fmts (simple msg_parameter_status ∷ ms) q p out = consume_rows fmts ms q p out
    consume_rows fmts (simple (msg_error_response body) ∷ ms) q p out =
        consume_rows fmts ms q (record p { pg_error = some body }) out
    consume_rows fmts (simple msg_ready_for_query ∷ ms) q p out =
        let end = on_ready w mode p out in
        record {
          out = end.0;
          result = run_error end.1;
          last_rows = some p.row_count;
          plan = q;
          rest = ms;
        }
    consume_rows fmts (simple msg_other ∷ ms) q p out = failing out unexpected q ms
    consume_rows fmts (rep_bind_complete ∷ ms) q p out = consume_rows fmts ms q p out
    consume_rows fmts (rep_close_complete ∷ ms) q p out = consume_rows fmts ms q p out
    consume_rows fmts (rep_portal_suspended ∷ ms) q p out = consume_rows fmts ms q p out
    consume_rows fmts (rep_parse_complete ∷ ms) q p out = failing out unexpected q ms
    consume_rows fmts (rep_parameter_description ∷ ms) q p out = failing out unexpected q ms
    consume_rows fmts (rep_no_data ∷ ms) q p out = failing out unexpected q ms

    -- `bindExecute`
    unfoldable pub bind_execute : Bytes → PreparedStmt → List Arg → S → Session → Ran S
    bind_execute sql st params out s =
        let (encoded, buf) = add_bind st params s.write_buf in
        let (fails, s') = send env (record s { write_buf = buf }) in
        let r = consume_rows st.result_fmts s'.inbox st.plan (start_with st.plan) out in
        if not encoded
        then record { out = out; err = some bad_parameter; session = record s { write_buf = buf } }
        else if fails
        then record { out = out; err = some (in_query write_failed); session = s' }
        else settle sql st s' r

    -- A round of `runCached`, with whether the statement came from the cache.
    unfoldable pub cached_round : Bytes → List Arg → S → Session → Bool × Ran S
    cached_round sql params out s = elim (get sql s.cache) [
      | some st ↦ (true, bind_execute sql st params out s)
      | none ↦
          let (p, s') = prepare_and_describe env sql s in
          (
            false,
            elim p [
              | prepare_failed e ↦ record {
                out = out;
                err = some e;
                session = record s' { cache = invalidate sql s'.cache };
              }
              | statement st ↦
                  let c = put (env.victim s'.cache.seq) sql st s'.cache in
                  bind_execute sql st params out (record s' { cache = c })
            ],
          )
    ]

    -- Whether `runCached` tries again.
    unfoldable pub is_stale : Bool → Ran S → Bool
    is_stale from_cache r = elim r.err [
      | none ↦ false
      | some e ↦ from_cache && (is_stale_stmt_error e && not (w.committed r.out))
    ]

    -- `runCached`
    unfoldable pub run_cached : Bytes → List Arg → S → Session → Ran S
    run_cached sql params out s =
        let (from_cache, r) = cached_round sql params out s in
        let s' = record r.session { cache = invalidate sql r.session.cache } in
        let again = cached_round sql params (w.reset r.out) s' in
        if is_stale from_cache r then again.1 else r
