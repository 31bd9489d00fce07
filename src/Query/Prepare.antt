-- ===== src/Query/Prepare.antt =====
-- prepareAndDescribe of pg2json/query.go.
use pg2json.Common.{
  suc, Bool, Option, none, some, inl, inr, List, [], ◌∷◌, ◌++◌, Bytes, if◌then◌else◌,
}
use pg2json.Wire.{flush}
use pg2json.Rows.{Plan, parse_row_description}
use pg2json.Rows.Formats.{apply_formats, pick_result_formats}
use pg2json.StmtCache.{PreparedStmt, take_pending_close, next_name}
use pg2json.Query.{
  msg_row_description, msg_data_row, msg_command_complete, msg_empty_query_response,
  msg_notice_response, msg_parameter_status, msg_error_response, msg_ready_for_query, msg_other,
  read_failed, write_failed, bad_rows, server_error, unexpected,
}
use pg2json.Query.Extended.{
  Reply, simple, rep_parse_complete, rep_parameter_description, rep_bind_complete,
  rep_close_complete, rep_no_data, rep_portal_suspended, Outside, Session, RunError, in_query,
  no_row_description, add_named, add_closes, add_parse, add_sync, upgrade,
}

-- What a preparation gives, with the connection's messages that it leaves.
pub data Prepared : Type 0 where
  statement : PreparedStmt → Prepared
  prepare_failed : RunError → Prepared

module _ (env : Outside) where
  -- `Flush` of the connection: whether it fails.
  unfoldable pub send : Session → Bool × Session
  send s =
      let (buf, fails) = flush s.write_buf (env.link s.flushes) in
      (
        fails,
        record s {
          write_buf = buf;
          sent = if fails then s.sent else s.sent ++ s.write_buf;
          flushes = suc s.flushes;
        },
      )

  -- The end of `prepareAndDescribe`.
  unfoldable pub describe_end : Bytes → Option Plan → Option Bytes → Prepared
  describe_end name plan (some body) = prepare_failed (in_query (server_error body))
  describe_end name none none = prepare_failed no_row_description
  describe_end name (some plan) none =
      let fmts =
        upgrade env.binary_oids plan.columns (pick_result_formats env.print plan.columns) in
      statement record { name = name; plan = apply_formats env.print fmts plan; result_fmts = fmts }

  -- The loop of `prepareAndDescribe`.
  unfoldable pub describe : Bytes → List Reply → Option Plan → Option Bytes → Prepared × List Reply
  describe name [] plan err = (prepare_failed (in_query read_failed), [])
  describe name (simple (msg_row_description body) ∷ ms) plan err =
      elim (parse_row_description body) [
        | inl e ↦ (prepare_failed (in_query (bad_rows e)), ms)
        | inr q ↦ describe name ms (some q) err
      ]
  describe name (simple (msg_error_response body) ∷ ms) plan err = describe name ms plan (some body)
  describe name (simple msg_notice_response ∷ ms) plan err = describe name ms plan err
  describe name (simple msg_parameter_status ∷ ms) plan err = describe name ms plan err
  describe name (simple msg_ready_for_query ∷ ms) plan err = (describe_end name plan err, ms)
  describe name (simple (msg_data_row b) ∷ ms) plan err = (prepare_failed (in_query unexpected), ms)
  describe name (simple msg_command_complete ∷ ms) plan err =
      (prepare_failed (in_query unexpected), ms)
  describe name (simple msg_empty_query_response ∷ ms) plan err =
      (prepare_failed (in_query unexpected), ms)
  describe name (simple msg_other ∷ ms) plan err = (prepare_failed (in_query unexpected), ms)
  describe name (rep_parse_complete ∷ ms) plan err = describe name ms plan err
  describe name (rep_parameter_description ∷ ms) plan err = describe name ms plan err
  describe name (rep_close_complete ∷ ms) plan err = describe name ms plan err
  describe name (rep_no_data ∷ ms) plan err = describe name ms plan err
  describe name (rep_bind_complete ∷ ms) plan err = (prepare_failed (in_query unexpected), ms)
  describe name (rep_portal_suspended ∷ ms) plan err = (prepare_failed (in_query unexpected), ms)

  -- `prepareAndDescribe`
  unfoldable pub prepare_and_describe : Bytes → Session → Prepared × Session
  prepare_and_describe sql s =
      let (name, c₁) = next_name env.base36 s.cache in
      let (dead, c₂) = take_pending_close c₁ in
      let buf = add_sync (add_named b'D' name (add_parse name sql (add_closes dead s.write_buf))) in
      let (fails, s') = send (record s { cache = c₂; write_buf = buf }) in
      let (p, rest) = describe name s'.inbox none none in
      if fails
      then (prepare_failed (in_query write_failed), s')
      else (p, record s' { inbox = rest })
