-- ===== src/Query/Sound.antt =====
-- What the loops of pg2json/query.go leave in the output writer, whatever the server sends.
use pg2json.Common.{
  ℕ, suc, ◌≡◌, ◌⊎◌, inl, inr, refl, Bool, true, false, Option, none, some, List, [], ◌∷◌, Bytes,
  Bool-cases, Option-cases, if◌then◌else◌,
}
use pg2json.Stream.{OutWriter}
use pg2json.Stream.Laws.{IsWriter, Keeps}
use pg2json.Rows.{Plan, RowError, Appended, wrote, failed, parse_row_description}
use pg2json.Rows.Formats.{parse_row_description_for_formats}
use pg2json.Query.{
  Mode, mode_array, mode_ndjson, mode_columnar, mode_toon, Message, msg_row_description,
  msg_data_row, msg_command_complete, msg_empty_query_response, msg_notice_response,
  msg_parameter_status, msg_error_response, msg_ready_for_query, msg_other, QueryError,
  write_failed, Caps, Progress, RowOutcome, carry_on, stop, oversize, append_row, check_caps,
  write_header, write_footer, write_error, write_row, on_data_row, on_ready, consume_text,
}
use pg2json.Query.Extended.{
  Reply, simple, rep_parse_complete, rep_parameter_description, rep_bind_complete,
  rep_close_complete, rep_no_data, rep_portal_suspended, Outside, RunError, in_query,
}
use pg2json.Query.Execute.{consume_rows, run_error}

sum-cases : {A B : Type 0} (x : A ⊎ B) → ((a : A) × (x ≡ inl a)) ⊎ ((b : B) × (x ≡ inr b))
sum-cases (inl a) = inl (a, refl)
sum-cases (inr b) = inr (b, refl)

module _ {S : Type 0} (w : OutWriter S) (laws : IsWriter w) (caps : Caps) (mode : Mode) where
  write_header-Sound :
      (m : Mode) (q : Plan) (out : S) → laws.Sound out → laws.Sound (write_header w m q out)
  unfolding write_header
  write_header-Sound mode_array q out s = (laws.write out _ s).0
  write_header-Sound mode_ndjson q out s = s
  write_header-Sound mode_columnar q out s = (laws.write out _ s).0
  write_header-Sound mode_toon q out s = (laws.write out _ s).0

  write_footer-Sound : (m : Mode) (out : S) → laws.Sound out → laws.Sound (write_footer w m out)
  unfolding write_footer
  write_footer-Sound mode_array out s = (laws.write out _ s).0
  write_footer-Sound mode_ndjson out s = s
  write_footer-Sound mode_columnar out s = (laws.write out _ s).0
  write_footer-Sound mode_toon out s = s

  opened-Sound :
      (h : Bool) (q : Plan) (out : S)
      → laws.Sound out
      → laws.Sound (if h then out else write_header w mode q out)
  opened-Sound true q out s = s
  opened-Sound false q out s = write_header-Sound mode q out s

  -- A step leaves a sound writer, or reports that a flush has failed.
  abbrev IsKept : S × Option QueryError → Type 0
  IsKept r = (r.1 ≡ some write_failed) ⊎ laws.Sound r.0

  flushed-IsKept :
      (step : S → S × Bool) (out : S)
      → Keeps laws.emitted laws.Sound step
      → laws.Sound out
      → IsKept (write_error w (step out))
  unfolding write_error
  flushed-IsKept step out keeps s = elim (Bool-cases ((step out).1)) [
    | inl bad ↦ inl (rw bad refl)
    | inr ok ↦ inr (keeps out s ok).0
  ]

  Appended-cases :
      (a : Appended)
      → ((b : Bytes) × (a ≡ wrote b)) ⊎ ((b : Bytes) × (e : RowError) × (a ≡ failed b e))
  Appended-cases (wrote b) = inl (b, refl)
  Appended-cases (failed b e) = inr (b, e, refl)

  write_row-IsKept :
      (q : Plan) (body : Bytes) (n : ℕ) (out : S)
      → laws.Sound out
      → IsKept (write_row w mode q body n out)
  unfolding write_row
  write_row-IsKept q body n out s = elim (Appended-cases (append_row mode q body n (w.buf out))) [
    | inl (b, good) ↦
        rw (good, write_row)
          (flushed-IsKept w.maybe_flush (w.set_buf out b) laws.maybe_flush (laws.set_any out b s))
    | inr (b, e, bad) ↦ rw (bad, write_row) (inr s)
  ]

  abbrev IsKeptRow : RowOutcome S → Type 0
  IsKeptRow (stop out e) = (e ≡ write_failed) ⊎ laws.Sound out
  IsKeptRow (oversize out e) = laws.Sound out
  IsKeptRow (carry_on out) = laws.Sound out

  quiet : (o : S) → IsKept (o, none) → laws.Sound o
  quiet o (inl bad) = absurd cc
  quiet o (inr s) = s

  loud : (o : S) (e : QueryError) → IsKept (o, some e) → (e ≡ write_failed) ⊎ laws.Sound o
  loud o e (inl bad) = inl cc
  loud o e (inr s) = inr s

  on_data_row-IsKeptRow :
      (q : Plan) (p : Progress) (body : Bytes) (out : S)
      → laws.Sound out
      → IsKeptRow (on_data_row w caps mode q p body out)
  unfolding on_data_row
  on_data_row-IsKeptRow q p body out s =
      let o = if p.header_written then out else write_header w mode q out in
      let r = write_row w mode q body p.row_count o in
      let kept : IsKept r =
        write_row-IsKept q body p.row_count o (opened-Sound p.header_written q out s) in
      elim (Option-cases (r.1)) [
        | inr (e, bad) ↦ rw (bad, on_data_row) (loud r.0 e (rw bad at kept))
        | inl ok ↦
            let sound = quiet r.0 (rw ok at kept) in
            elim (Option-cases (check_caps w caps r.0 (suc p.row_count))) [
              | inl free ↦ rw (ok, free, on_data_row) sound
              | inr (e, over) ↦ rw (ok, over, on_data_row) sound
            ]
      ]

  on_ready-IsKept : (p : Progress) (out : S) → laws.Sound out → IsKept (on_ready w mode p out)
  unfolding on_ready
  on_ready-IsKept p out s = elim (Option-cases p.pg_error) [
    | inr (e, bad) ↦ rw (bad, on_ready) (inr s)
    | inl ok ↦
        rw (ok, on_ready)
          (flushed-IsKept w.flush _ laws.flush
            (write_footer-Sound mode _ (opened-Sound p.header_written _ out s)))
  ]

  -- A whole run of a loop.
  abbrev pub IsKeptRun : S → Option RunError → Type 0
  IsKeptRun out e = (e ≡ some (in_query write_failed)) ⊎ laws.Sound out

  as_run : (r : S × Option QueryError) → IsKept r → IsKeptRun (r.0) (run_error (r.1))
  as_run (o, e) (inl bad) = inl (rw bad refl)
  as_run (o, e) (inr s) = inr s

  stopped :
      (out : S) (e : QueryError)
      → (e ≡ write_failed) ⊎ laws.Sound out
      → IsKeptRun out (some (in_query e))
  stopped out e (inl is) = inl (rw is refl)
  stopped out e (inr s) = inr s

  RowOutcome-cases :
      (o : RowOutcome S)
      → ((out : S) × (o ≡ carry_on out))
        ⊎ ((out : S) × (e : QueryError) × ((o ≡ stop out e) ⊎ (o ≡ oversize out e)))
  RowOutcome-cases (carry_on out) = inl (out, refl)
  RowOutcome-cases (stop out e) = inr (out, e, inl refl)
  RowOutcome-cases (oversize out e) = inr (out, e, inr refl)

  pub consume_rows-IsKeptRun :
      (env : Outside) (fmts : List ℕ) (ms : List Reply) (q : Plan) (p : Progress) (out : S)
      → laws.Sound out
      → let r = consume_rows env w caps mode fmts ms q p out in IsKeptRun r.out r.result
  unfolding consume_rows
  consume_rows-IsKeptRun env fmts [] q p out s = inr s
  consume_rows-IsKeptRun env fmts (simple (msg_row_description body) ∷ ms) q p out s =
      elim (sum-cases (parse_row_description_for_formats env.print body fmts)) [
        | inl (e, bad) ↦ rw (bad, consume_rows) (inr s)
        | inr (q', good) ↦ rw (good, consume_rows) (consume_rows-IsKeptRun env fmts ms q' _ out s)
      ]
  consume_rows-IsKeptRun env fmts (simple (msg_data_row body) ∷ ms) q p out s =
      let kept = on_data_row-IsKeptRow q p body out s in
      elim (RowOutcome-cases (on_data_row w caps mode q p body out)) [
        | inl (out', goes) ↦
            rw (goes, consume_rows) (consume_rows-IsKeptRun env fmts ms q _ out' (rw goes at kept))
        | inr (out', e, inl ends) ↦ rw (ends, consume_rows) (stopped out' e (rw ends at kept))
        | inr (out', e, inr ends) ↦ rw (ends, consume_rows) (inr (rw ends at kept))
      ]
  consume_rows-IsKeptRun env fmts (simple msg_command_complete ∷ ms) q p out s =
      consume_rows-IsKeptRun env fmts ms q p out s
  consume_rows-IsKeptRun env fmts (simple msg_empty_query_response ∷ ms) q p out s =
      consume_rows-IsKeptRun env fmts ms q p out s
  consume_rows-IsKeptRun env fmts (simple msg_notice_response ∷ ms) q p out s =
      consume_rows-IsKeptRun env fmts ms q p out s
  consume_rows-IsKeptRun env fmts (simple msg_parameter_status ∷ ms) q p out s =
      consume_rows-IsKeptRun env fmts ms q p out s
  consume_rows-IsKeptRun env fmts (simple (msg_error_response body) ∷ ms) q p out s =
      consume_rows-IsKeptRun env fmts ms q _ out s
  consume_rows-IsKeptRun env fmts (simple msg_ready_for_query ∷ ms) q p out s =
      as_run (on_ready w mode p out) (on_ready-IsKept p out s)
  consume_rows-IsKeptRun env fmts (simple msg_other ∷ ms) q p out s = inr s
  consume_rows-IsKeptRun env fmts (rep_bind_complete ∷ ms) q p out s =
      consume_rows-IsKeptRun env fmts ms q p out s
  consume_rows-IsKeptRun env fmts (rep_close_complete ∷ ms) q p out s =
      consume_rows-IsKeptRun env fmts ms q p out s
  consume_rows-IsKeptRun env fmts (rep_portal_suspended ∷ ms) q p out s =
      consume_rows-IsKeptRun env fmts ms q p out s
  consume_rows-IsKeptRun env fmts (rep_parse_complete ∷ ms) q p out s = inr s
  consume_rows-IsKeptRun env fmts (rep_parameter_description ∷ ms) q p out s = inr s
  consume_rows-IsKeptRun env fmts (rep_no_data ∷ ms) q p out s = inr s

  pub consume_text-IsKeptRun :
      (ms : List Message) (p : Progress) (out : S)
      → laws.Sound out
      → let r = consume_text w caps mode ms p out in IsKeptRun r.out (run_error r.result)
  unfolding consume_text
  consume_text-IsKeptRun [] p out s = inr s
  consume_text-IsKeptRun (msg_row_description body ∷ ms) p out s =
      elim (sum-cases (parse_row_description body)) [
        | inl (e, bad) ↦ rw (bad, consume_text) (inr s)
        | inr (q', good) ↦ rw (good, consume_text) (consume_text-IsKeptRun ms _ out s)
      ]
  consume_text-IsKeptRun (msg_data_row body ∷ ms) p out s = elim (Option-cases p.plan) [
    | inl early ↦ rw (early, consume_text) (inr s)
    | inr (q, known) ↦
        let kept = on_data_row-IsKeptRow q p body out s in
        elim (RowOutcome-cases (on_data_row w caps mode q p body out)) [
          | inl (out', goes) ↦
              rw (known, goes, consume_text) (consume_text-IsKeptRun ms _ out' (rw goes at kept))
          | inr (out', e, inl ends) ↦
              rw (known, ends, consume_text) (stopped out' e (rw ends at kept))
          | inr (out', e, inr ends) ↦ rw (known, ends, consume_text) (inr (rw ends at kept))
        ]
  ]
  consume_text-IsKeptRun (msg_command_complete ∷ ms) p out s = consume_text-IsKeptRun ms p out s
  consume_text-IsKeptRun (msg_empty_query_response ∷ ms) p out s = consume_text-IsKeptRun ms p out s
  consume_text-IsKeptRun (msg_notice_response ∷ ms) p out s = consume_text-IsKeptRun ms p out s
  consume_text-IsKeptRun (msg_parameter_status ∷ ms) p out s = consume_text-IsKeptRun ms p out s
  consume_text-IsKeptRun (msg_error_response body ∷ ms) p out s = consume_text-IsKeptRun ms _ out s
  consume_text-IsKeptRun (msg_ready_for_query ∷ ms) p out s =
      as_run (on_ready w mode p out) (on_ready-IsKept p out s)
  consume_text-IsKeptRun (msg_other ∷ ms) p out s = inr s
