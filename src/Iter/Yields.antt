-- ===== src/Iter/Yields.antt =====
-- What an Iterator of pg2json/iter.go gives out, and what it leaves on the connection.
use pg2json.Common.{
  ℕ, suc, ◌+◌, ◌≡◌, inl, inr, refl, ap, ◌∙◌, Bool, true, false, Option, none, some, List, [], ◌∷◌,
  Bytes, arith, Option-cases, length, map,
}
use pg2json.Rows.Server.{data_row}
use pg2json.Query.{
  msg_row_description, msg_data_row, msg_command_complete, msg_empty_query_response,
  msg_notice_response, msg_parameter_status, msg_error_response, msg_ready_for_query, msg_other,
}
use pg2json.Query.Extended.{
  Reply, simple, rep_parse_complete, rep_parameter_description, rep_bind_complete,
  rep_close_complete, rep_no_data, rep_portal_suspended, Outside, RunError, drain_replies,
}
use pg2json.Query.Bound.{replies}
use pg2json.Iter.{
  Iterator, row, eof, ready_result, next_ready, next_loop, next_raw, drain_loop, drain_until_ready,
  close,
}

-- Calls of NextRaw that give the rows `bodies` and then io.EOF.
pub data Yields (env : Outside) : Iterator → List Bytes → Iterator → Type 0 where
  at_end : {it end : Iterator} → next_raw env it ≡ (eof, end) → Yields env it [] end
  a_row :
      {it next end : Iterator} {body : Bytes} {bodies : List Bytes}
      → next_raw env it ≡ (row body, next)
      → Yields env next bodies end
      → Yields env it (body ∷ bodies) end

-- An iterator in the middle of its rows.
pub record IsOpen (it : Iterator) : Type 0 where
  pub going : it.done ≡ false
  pub no_err : it.err ≡ none
  pub no_pg_err : it.pg_err ≡ none

-- The iterator at the end of the rows.
abbrev pub finished : Iterator → ℕ → List Reply → Iterator
finished it n rest = record it {
  done = true;
  row_count = n;
  last_rows = n;
  watched = false;
  inbox = rest;
}

next_raw_open :
    (env : Outside) (it : Iterator) → IsOpen it → next_raw env it ≡ next_loop env it.inbox it
unfolding next_raw
next_raw_open env it o = simp (o.going, o.no_err)

next_ready_end :
    (it : Iterator) (rest : List Reply)
    → it.pg_err ≡ none
    → next_ready rest it
      ≡ (eof, record it { done = true; last_rows = it.row_count; watched = false; inbox = rest })
unfolding next_ready ready_result
next_ready_end it rest fine =
    ap
      (λ (o : Option Bytes).
        ready_result o
          (record it { done = true; last_rows = it.row_count; watched = false; inbox = rest }))
      fine

-- Over a whole response, NextRaw gives the DataRows one by one in their order and then io.EOF; it has
-- then read up to ReadyForQuery and nothing behind it, stopped watching the context, and `lastRows` is the
-- number of rows.
pub next_raw-Yields :
    (env : Outside) (rows : List (List (Option Bytes))) (rest : List Reply) (it : Iterator)
    → IsOpen it
    → it.inbox ≡ replies rows rest
    → Yields env it (map data_row rows) (finished it (it.row_count + length rows) rest)
unfolding next_loop
next_raw-Yields env [] rest it o has =
    let n : it.row_count + 0 ≡ it.row_count = omega arith in
    rw n (
      at_end (
        next_raw_open env it o
        ∙ ap (λ (ms : List Reply). next_loop env ms it) has
        ∙ next_ready_end it rest o.no_pg_err))
next_raw-Yields env (cells ∷ rows) rest it o has =
    let next = record it { row_count = suc it.row_count; inbox = replies rows rest } in
    let n : suc it.row_count + length rows ≡ it.row_count + suc (length rows) = omega arith in
    let o' : IsOpen next = record { going = o.going; no_err = o.no_err; no_pg_err = o.no_pg_err } in
    a_row (next_raw_open env it o ∙ ap (λ (ms : List Reply). next_loop env ms it) has)
      (rw (← n) (next_raw-Yields env rows rest next o' refl))

-- What a drain leaves.
abbrev Drained : Iterator → Option RunError × Iterator → List Reply → Type 0
Drained it r ms = (r.1.done ≡ true) × (r.1.watched ≡ false) × (r.1.inbox ≡ drain_replies ms)

drain_loop-Drained : (ms : List Reply) (it : Iterator) → Drained it (drain_loop ms it) ms
unfolding drain_loop drain_replies
drain_loop-Drained [] it = (refl, refl, refl)
drain_loop-Drained (simple msg_ready_for_query ∷ ms) it = (refl, refl, refl)
drain_loop-Drained (simple (msg_error_response body) ∷ ms) it =
    drain_loop-Drained ms (record it { pg_err = some body })
drain_loop-Drained (simple (msg_row_description b) ∷ ms) it = drain_loop-Drained ms it
drain_loop-Drained (simple (msg_data_row b) ∷ ms) it = drain_loop-Drained ms it
drain_loop-Drained (simple msg_command_complete ∷ ms) it = drain_loop-Drained ms it
drain_loop-Drained (simple msg_empty_query_response ∷ ms) it = drain_loop-Drained ms it
drain_loop-Drained (simple msg_notice_response ∷ ms) it = drain_loop-Drained ms it
drain_loop-Drained (simple msg_parameter_status ∷ ms) it = drain_loop-Drained ms it
drain_loop-Drained (simple msg_other ∷ ms) it = drain_loop-Drained ms it
drain_loop-Drained (rep_parse_complete ∷ ms) it = drain_loop-Drained ms it
drain_loop-Drained (rep_parameter_description ∷ ms) it = drain_loop-Drained ms it
drain_loop-Drained (rep_bind_complete ∷ ms) it = drain_loop-Drained ms it
drain_loop-Drained (rep_close_complete ∷ ms) it = drain_loop-Drained ms it
drain_loop-Drained (rep_no_data ∷ ms) it = drain_loop-Drained ms it
drain_loop-Drained (rep_portal_suspended ∷ ms) it = drain_loop-Drained ms it

-- Close of an iterator that is not done, wherever it is in its rows and whatever went wrong before: it
-- is done, the context is no longer watched, and the connection's messages are read up to and with the
-- next ReadyForQuery. Another Close then reports nothing and reads nothing, and NextRaw reads nothing.
pub close-drains :
    (env : Outside) (cancels : Bool) (it : Iterator)
    → it.done ≡ false
    → let it' = (close cancels it).1 in
      (it'.done ≡ true)
      × (it'.watched ≡ false)
      × (it'.inbox ≡ drain_replies it.inbox)
      × (close cancels it' ≡ (none, it'))
      × ((next_raw env it').1 ≡ it')
unfolding close drain_until_ready next_raw
close-drains env cancels it going =
    let (ended, free, left) = drain_loop-Drained it.inbox it in
    let same : (close cancels it).1 ≡ (drain_loop it.inbox it).1 =
      elim (Option-cases ((drain_loop it.inbox it).0)) [
        | inl fine ↦ simp (going, fine)
        | inr (e, bad) ↦ simp (going, bad)
      ] in
    rw same (ended, free, left, simp ended, simp ended)
