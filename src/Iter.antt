-- ===== src/Iter.antt =====
-- Rows one at a time: the Iterator of pg2json/iter.go, with the connection's messages that it has still
-- to read. The context is outside: `watched` says whether a goroutine waits for its end. Sending a
-- CancelRequest changes no state here.
pub mod Yields
use pg2json.Common.{
  ℕ, zero, suc, Bool, true, false, not, ◌&&◌, Option, none, some, inl, inr, List, [], ◌∷◌, Bytes,
  codes, if◌then◌else◌,
}
use pg2json.Rows.{Plan}
use pg2json.Rows.Formats.{parse_row_description_for_formats}
use pg2json.StmtCache.{PreparedStmt, StmtCache, get, put, invalidate}
use pg2json.Args.{Arg}
use pg2json.Query.{
  Message, msg_row_description, msg_data_row, msg_command_complete, msg_empty_query_response,
  msg_notice_response, msg_parameter_status, msg_error_response, msg_ready_for_query, msg_other,
  QueryError, read_failed, write_failed, bad_rows, server_error, unexpected,
}
use pg2json.Query.Extended.{
  Reply, simple, rep_parse_complete, rep_parameter_description, rep_bind_complete,
  rep_close_complete, rep_no_data, rep_portal_suspended, Outside, Session, RunError, in_query,
  bad_parameter, not_a_select, context_done, has_code, is_stale_stmt_error,
}
use pg2json.Query.Prepare.{Prepared, statement, prepare_failed, send, prepare_and_describe}
use pg2json.Query.Execute.{add_bind}

-- `Iterator`, with what it changes of its client.
pub record Iterator : Type 0 where
  pub plan : Plan
  pub result_fmts : List ℕ
  pub done : Bool
  pub err : Option RunError
  pub pg_err : Option Bytes
  pub row_count : ℕ
  pub inbox : List Reply
  pub watched : Bool
  pub last_rows : ℕ

-- What `NextRaw` returns.
pub data Next : Type 0 where
  row : Bytes → Next
  eof : Next
  next_failed : RunError → Next

abbrev pub server_failed : Bytes → RunError
server_failed body = in_query (server_error body)

-- A sticky error.
abbrev pub sticking : RunError → List Reply → Iterator → Next × Iterator
sticking e rest it = (next_failed e, record it { err = some e; inbox = rest })

-- The case of ReadyForQuery in `NextRaw`: the end, with an error of the server.
unfoldable pub ready_result : Option Bytes → Iterator → Next × Iterator
ready_result none end = (eof, end)
ready_result (some body) end =
    (next_failed (server_failed body), record end { err = some (server_failed body) })

unfoldable pub next_ready : List Reply → Iterator → Next × Iterator
next_ready rest it =
    ready_result it.pg_err
      (record it { done = true; last_rows = it.row_count; watched = false; inbox = rest })

module _ (env : Outside) where
  -- The loop of `NextRaw`.
  unfoldable pub next_loop : List Reply → Iterator → Next × Iterator
  next_loop [] it = sticking (in_query read_failed) [] it
  next_loop (simple (msg_data_row body) ∷ ms) it =
      (row body, record it { row_count = suc it.row_count; inbox = ms })
  next_loop (simple msg_command_complete ∷ ms) it = next_loop ms it
  next_loop (simple msg_empty_query_response ∷ ms) it = next_loop ms it
  next_loop (rep_portal_suspended ∷ ms) it = next_loop ms it
  next_loop (rep_close_complete ∷ ms) it = next_loop ms it
  next_loop (simple (msg_row_description body) ∷ ms) it =
      elim (parse_row_description_for_formats env.print body it.result_fmts) [
        | inl e ↦ sticking (in_query (bad_rows e)) ms it
        | inr q ↦ next_loop ms (record it { plan = q })
      ]
  next_loop (simple msg_parameter_status ∷ ms) it = next_loop ms it
  next_loop (simple msg_notice_response ∷ ms) it = next_loop ms it
  next_loop (simple (msg_error_response body) ∷ ms) it =
      next_loop ms (record it { pg_err = some body })
  next_loop (simple msg_ready_for_query ∷ ms) it = next_ready ms it
  next_loop (simple msg_other ∷ ms) it = sticking (in_query unexpected) ms it
  next_loop (rep_parse_complete ∷ ms) it = sticking (in_query unexpected) ms it
  next_loop (rep_parameter_description ∷ ms) it = sticking (in_query unexpected) ms it
  next_loop (rep_bind_complete ∷ ms) it = sticking (in_query unexpected) ms it
  next_loop (rep_no_data ∷ ms) it = sticking (in_query unexpected) ms it

  -- `NextRaw`
  unfoldable pub next_raw : Iterator → Next × Iterator
  next_raw it =
      let fresh = next_loop it.inbox it in
      if it.done
      then (elim it.err [ some e ↦ next_failed e | none ↦ eof ], it)
      else elim it.err [ some e ↦ (next_failed e, it) | none ↦ fresh ]

-- The loop of `drainUntilReady`.
unfoldable pub drain_loop : List Reply → Iterator → Option RunError × Iterator
drain_loop [] it =
    let e = in_query read_failed in
    (some e, record it { err = some e; done = true; watched = false; inbox = [] })
drain_loop (simple msg_ready_for_query ∷ ms) it = (
  elim it.pg_err [ none ↦ none | some body ↦ some (server_failed body) ],
  record it { done = true; watched = false; inbox = ms },
)
drain_loop (simple (msg_error_response body) ∷ ms) it =
    drain_loop ms (record it { pg_err = some body })
drain_loop (simple (msg_row_description b) ∷ ms) it = drain_loop ms it
drain_loop (simple (msg_data_row b) ∷ ms) it = drain_loop ms it
drain_loop (simple msg_command_complete ∷ ms) it = drain_loop ms it
drain_loop (simple msg_empty_query_response ∷ ms) it = drain_loop ms it
drain_loop (simple msg_notice_response ∷ ms) it = drain_loop ms it
drain_loop (simple msg_parameter_status ∷ ms) it = drain_loop ms it
drain_loop (simple msg_other ∷ ms) it = drain_loop ms it
drain_loop (rep_parse_complete ∷ ms) it = drain_loop ms it
drain_loop (rep_parameter_description ∷ ms) it = drain_loop ms it
drain_loop (rep_bind_complete ∷ ms) it = drain_loop ms it
drain_loop (rep_close_complete ∷ ms) it = drain_loop ms it
drain_loop (rep_no_data ∷ ms) it = drain_loop ms it
drain_loop (rep_portal_suspended ∷ ms) it = drain_loop ms it

-- `drainUntilReady`
unfoldable pub drain_until_ready : Iterator → Option RunError × Iterator
drain_until_ready it = drain_loop it.inbox it

-- `Close`, where `cancels` says that the client has a process number to cancel by.
unfoldable pub close : Bool → Iterator → Option RunError × Iterator
close cancels it =
    let (e, it') = drain_until_ready it in
    if it.done then (none, it) else elim e [
      | none ↦ (none, it')
      | some x ↦ (if cancels && has_code (codes "57014") x then none else some x, it')
    ]

-- What the beginning of an iteration gives.
pub data Started : Type 0 where
  iterating : Iterator → Started
  not_started : RunError → List Reply → Bool → Started

-- The end of the drain behind a failing Bind.
abbrev start_failed : Bytes → Option RunError × Iterator → Started
start_failed body (e, it) =
    not_started (elim e [ none ↦ server_failed body | some x ↦ x ]) it.inbox it.watched

module _ (env : Outside) where
  -- The loop of `startRawExecute`, which ends with BindComplete.
  unfoldable pub pump : List Reply → Iterator → Started
  pump [] it = not_started (in_query read_failed) [] it.watched
  pump (rep_bind_complete ∷ ms) it = iterating (record it { inbox = ms })
  pump (simple (msg_row_description body) ∷ ms) it =
      elim (parse_row_description_for_formats env.print body it.result_fmts) [
        | inl e ↦ not_started (in_query (bad_rows e)) ms it.watched
        | inr q ↦ pump ms (record it { plan = q })
      ]
  pump (simple msg_parameter_status ∷ ms) it = pump ms it
  pump (simple msg_notice_response ∷ ms) it = pump ms it
  pump (simple (msg_error_response body) ∷ ms) it =
      start_failed body (drain_loop ms (record it { pg_err = some body }))
  pump (simple (msg_data_row b) ∷ ms) it = not_started (in_query unexpected) ms it.watched
  pump (simple msg_command_complete ∷ ms) it = not_started (in_query unexpected) ms it.watched
  pump (simple msg_empty_query_response ∷ ms) it = not_started (in_query unexpected) ms it.watched
  pump (simple msg_ready_for_query ∷ ms) it = not_started (in_query unexpected) ms it.watched
  pump (simple msg_other ∷ ms) it = not_started (in_query unexpected) ms it.watched
  pump (rep_parse_complete ∷ ms) it = not_started (in_query unexpected) ms it.watched
  pump (rep_parameter_description ∷ ms) it = not_started (in_query unexpected) ms it.watched
  pump (rep_close_complete ∷ ms) it = not_started (in_query unexpected) ms it.watched
  pump (rep_no_data ∷ ms) it = not_started (in_query unexpected) ms it.watched
  pump (rep_portal_suspended ∷ ms) it = not_started (in_query unexpected) ms it.watched

  -- `startRawExecute`
  unfoldable pub start_raw_execute : PreparedStmt → List Arg → Bool → Session → Started × Session
  start_raw_execute st params watched s =
      let (encoded, buf) = add_bind env st params s.write_buf in
      let (fails, s') = send env (record s { write_buf = buf }) in
      let it : Iterator = record {
        plan = st.plan;
        result_fmts = st.result_fmts;
        done = false;
        err = none;
        pg_err = none;
        row_count = 0;
        inbox = s'.inbox;
        watched = watched;
        last_rows = s.last_rows;
      } in
      if not encoded
      then (not_started bad_parameter s.inbox watched, record s { write_buf = buf })
      else if fails
      then (not_started (in_query write_failed) s'.inbox watched, s')
      else (pump s'.inbox it, s')

  -- A round of `RawQuery`, with whether the statement came from the cache.
  unfoldable pub raw_round : Bytes → List Arg → Bool → Session → Bool × (Started × Session)
  raw_round sql params watched s = elim (get sql s.cache) [
    | some st ↦ (true, start_raw_execute st params watched s)
    | none ↦
        let (p, s') = prepare_and_describe env sql s in
        (
          false,
          elim p [
            | prepare_failed e ↦
                (not_started e s'.inbox false, record s' { cache = invalidate sql s'.cache })
            | statement st ↦
                let c = put (env.victim s'.cache.seq) sql st s'.cache in
                start_raw_execute st params watched (record s' { cache = c })
          ],
        )
  ]

  -- What `RawQuery` returns: a failure stops the watching goroutine.
  unfoldable pub raw_end : Started × Session → Started × Session
  raw_end (iterating it, s) = (iterating it, s)
  raw_end (not_started e rest watched, s) = (not_started e rest false, record s { inbox = rest })

  unfoldable pub raw_retry : Bytes → List Arg → Bool × (Started × Session) → Started × Session
  raw_retry sql params (from_cache, (iterating it, s)) = (iterating it, s)
  raw_retry sql params (from_cache, (not_started e rest watched, s)) =
      let again =
        raw_round sql params watched (record s { cache = invalidate sql s.cache; inbox = rest }) in
      if from_cache && is_stale_stmt_error e
      then raw_end again.1
      else raw_end (not_started e rest watched, s)

  -- `RawQuery`; `shaped` is the verdict of rejectNonSelect, `late` that of the context.
  unfoldable pub raw_query : Bool → Bool → Bytes → List Arg → Session → Started × Session
  raw_query shaped late sql params s =
      let r = raw_retry sql params (raw_round sql params true s) in
      if not shaped
      then (not_started not_a_select s.inbox false, s)
      else if late
      then (not_started context_done s.inbox false, s)
      else r
