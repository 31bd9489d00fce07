-- ===== src/Query/Run.antt =====
-- runSimple and runQuery of pg2json/query.go. The context and the observer are outside: `done` says
-- what the successive looks at the context give. The backoff between attempts only waits.
use pg2json.Common.{
  ℕ, zero, suc, Bool, false, not, ◌&&◌, ◌||◌, none, some, List, Bytes, length, ◌==◌, if◌then◌else◌,
  map, drop, ◌-◌,
}
use pg2json.Wire.{begin, add_cstring, finish}
use pg2json.Stream.{OutWriter}
use pg2json.Args.{Arg}
use pg2json.Query.{Mode, Message, msg_other, write_failed, Caps, consume_text, start}
use pg2json.Query.Extended.{
  Reply, simple, rep_parse_complete, rep_parameter_description, rep_bind_complete,
  rep_close_complete, rep_no_data, rep_portal_suspended, Outside, Session, in_query, not_a_select,
  context_done, is_retryable_serialization,
}
use pg2json.Query.Prepare.{send}
use pg2json.Query.Execute.{Ran, run_error, run_cached}

-- What the simple protocol makes of a message.
unfoldable pub as_message : Reply → Message
as_message (simple m) = m
as_message rep_parse_complete = msg_other
as_message rep_parameter_description = msg_other
as_message rep_bind_complete = msg_other
as_message rep_close_complete = msg_other
as_message rep_no_data = msg_other
as_message rep_portal_suspended = msg_other

module _ (env : Outside) {S : Type 0} (w : OutWriter S) (caps : Caps) (mode : Mode) where
  -- `runSimple`; the messages that are left are the last of those that there were.
  unfoldable pub run_simple : Bytes → S → Session → Ran S
  run_simple sql out s =
      let (b, buf) = begin b'Q' s.write_buf in
      let (fails, s') = send env (record s { write_buf = finish b (add_cstring sql buf) }) in
      let r = consume_text w caps mode (map as_message s'.inbox) start out in
      let n : ℕ = elim r.last_rows [ some k ↦ k | none ↦ s'.last_rows ] in
      if fails
      then record { out = out; err = some (in_query write_failed); session = s' }
      else record {
        out = r.out;
        err = run_error r.result;
        session = record s' {
          inbox = drop (length s'.inbox - length r.rest) s'.inbox;
          last_rows = n;
        };
      }

  -- An attempt of `runQuery`: StmtCacheSize below 0, without parameters, takes the simple protocol.
  unfoldable pub attempt : Bool → Bytes → List Arg → S → Session → Ran S
  attempt no_cache sql params out s =
      if no_cache && length params == 0
      then run_simple sql out s
      else run_cached env w caps mode sql params out s

  -- Whether `runQuery` tries again after an attempt, if it has one left.
  unfoldable pub is_retried : Bool → Ran S → Bool
  is_retried retry r = elim r.err [
    | none ↦ false
    | some e ↦ retry && (is_retryable_serialization e && not (w.committed r.out))
  ]

  -- The loop of `runQuery` with `left` attempts after this one. The looks at the context are
  -- numbered on from `i`: one before Reset and one during the backoff.
  unfoldable pub retry_loop :
      ℕ → ℕ → (ℕ → Bool) → Bool → Bool → Bytes → List Arg → S → Session → Ran S
  retry_loop zero i done no_cache retry sql params out s = attempt no_cache sql params out s
  retry_loop (suc left) i done no_cache retry sql params out s =
      let r = attempt no_cache sql params out s in
      let again =
        retry_loop left (suc (suc i)) done no_cache retry sql params (w.reset r.out) r.session in
      if not (is_retried retry r) || done i
      then r
      else if done (suc i)
      then record r { out = w.reset r.out }
      else again

  -- `runQuery`; `shaped` is the verdict of rejectNonSelect.
  unfoldable pub run_query :
      (ℕ → Bool) → Bool → Bool → Bool → Bytes → List Arg → S → Session → Ran S
  run_query done shaped no_cache retry sql params out s =
      if not shaped
      then record { out = out; err = some not_a_select; session = s }
      else if done 0
      then record { out = out; err = some context_done; session = s }
      else retry_loop 2 1 done no_cache retry sql params out s
