-- ===== src/Pool/Accounting.antt =====
-- The counters `open` and `inUse` of the pool of pg2json/pool/pool.go against the connections that they
-- count.
use pg2json.Common.{
  ℕ, suc, ◌+◌, ◌≤◌, ◌≡◌, refl, inl, inr, false, not, ◌&&◌, ◌||◌, none, List, [], ◌∷◌, ◌++◌, arith,
  Bool-cases, Option-cases, length,
}
use pg2json.Common.Int.{ℤ, pos, sub_ℕ, ◌+ℤ◌, int_below}
use pg2json.Pool.{
  Entry, Config, new_pool, acquire_once, received, give_up, end_use, open_failed, put, put_closed,
  discard, replace_failed, replace_opened, drain_start, drain_closed, await_drain, await_idle,
  broadcast, close, evict_idle, split_last,
}
use pg2json.Pool.System.{
  System, new_system, acquiring, putting, discarded, replacing_done, opened, shedding_more,
  closing_down, stock, wake, Step, step_acquire, step_opened, step_open_failed, step_receive,
  step_receive_nil, step_give_up, step_release, step_end_use, step_discard, step_replaced,
  step_missed, step_cancelled, step_put_closed, step_drain, step_drained, step_close, step_evict,
  step_await_drain, step_await_idle, step_broadcast, Reach, reach_new, reach_step,
}
use pg2json.Pool.Weights.{
  weight-append, postage-append, postage-wake, weight-split, postage-split, postage-split-nil,
}
use pg2json.Pool.Ownership.{
  waiters-cases, acquire_weight, put_weight, replaced_weight, evict_weight,
}
use pg2json.Pool.Ledger.{
  one, present, weight-length, shed-split, Ledger, shut, unchanged, opens, loses, replaces, misses,
  IsCounted, Ledger-IsCounted, sub_up,
}

acquire_Ledger :
    (max : ℤ) (ch : ℕ) (s : System) → Ledger max s (acquiring (acquire_once max ch s.pool) s)
unfolding acquire_once acquiring
acquire_Ledger max ch s =
    let w = acquire_weight one max ch s in
    elim (Bool-cases (s.pool.closed || s.pool.draining)) [
      | inl off ↦ rw (off, acquiring) (unchanged refl refl refl refl refl)
      | inr on ↦ elim (Option-cases (split_last s.pool.idle)) [
        | inr ((before, e), top) ↦
            let w' = rw (on, top, acquiring) at w in
            rw (on, top, acquiring) (unchanged refl refl (omega (arith, w')) refl refl)
        | inl empty ↦ elim (Bool-cases (int_below s.pool.open_count max)) [
          | inl room ↦
              rw (on, empty, room, acquiring) (opens refl refl room (omega arith) refl refl)
          | inr full ↦ rw (on, empty, full, acquiring) (unchanged refl refl refl refl refl)
        ]
      ]
    ]

discard-Ledger :
    (max : ℤ) (k : ℕ) (s : System)
    → s.discarding ≡ suc k
    → Ledger max s (discarded k (discard s.pool) s)
unfolding discard discarded
discard-Ledger max k s h = elim (waiters-cases s.pool) [
  | inl none_left ↦ rw (none_left, discarded) (loses 1 refl refl (omega (arith, h)) refl refl)
  | inr (w, ws, some_left) ↦
      rw (some_left, discarded) (loses 1 refl refl (omega (arith, h)) refl refl)
]

replace_Ledger :
    (max : ℤ) (s : System) (ch now : ℕ) (chs : List ℕ)
    → Ledger max s (replacing_done ch now chs (replace_opened s.pool) s)
unfolding replace_opened replacing_done
replace_Ledger max s ch now chs = elim (replaced_weight one s ch now chs) [
  | inl (off, same, n) ↦ rw (off, replacing_done) (shut refl)
  | inr (on, more, n) ↦
      let more' = rw (on, replacing_done) at more in
      rw (on, replacing_done) (replaces refl refl (omega (arith, more')) refl refl)
]

put-Ledger :
    (max : ℤ) (s : System) (before after : List Entry) (e : Entry) (now : ℕ)
    → s.held ≡ before ++ e ∷ after
    → Ledger max s (putting (before ++ after) (put now e s.pool) s)
unfolding put putting end_use
put-Ledger max s before after e now has =
    let w = put_weight one s before after e now has in
    elim (Bool-cases (s.pool.closed || s.pool.draining)) [
      | inl off ↦
          let w' = rw (off, putting) at w in
          rw (off, putting) (unchanged refl refl (grind (arith, w')) refl refl)
      | inr on ↦ elim (waiters-cases s.pool) [
        | inl none_left ↦
            let w' = rw (on, none_left, putting) at w in
            rw (on, none_left, putting) (unchanged refl refl (grind (arith, w')) refl refl)
        | inr (c, cs, some_left) ↦
            let w' = rw (on, some_left, putting) at w in
            rw (on, some_left, putting) (unchanged refl refl (grind (arith, w')) refl refl)
      ]
    ]

drain_Ledger : (max : ℤ) (s : System) → Ledger max s (shedding_more (drain_start s.pool) s)
unfolding drain_start shedding_more
drain_Ledger max s = elim (Bool-cases s.pool.closed) [
  | inl off ↦ rw (off, shedding_more) (shut refl)
  | inr on ↦
      rw (on, shedding_more)
        (unchanged refl refl (omega (arith, weight-length s.pool.idle)) refl refl)
]

close-Ledger : (max : ℤ) (s : System) → Ledger max s (closing_down (close s.pool) s)
unfolding close closing_down
close-Ledger max s = elim (Bool-cases s.pool.closed) [
  | inl off ↦ rw (off, closing_down) (shut refl)
  | inr on ↦ rw (on, closing_down) (shut refl)
]

evict_Ledger :
    (max : ℤ) (cfg : Config) (s : System) (now : ℕ)
    → Ledger max s (record s { pool = (evict_idle cfg now s.pool).1 })
unfolding evict_idle
evict_Ledger max cfg s now =
    let dropped = (evict_idle cfg now s.pool).0 in
    loses (length dropped) refl refl
      (omega (arith, evict_weight one cfg now s.pool, weight-length dropped)) refl refl

Step-Ledger : {max : ℤ} {cfg : Config} {s t : System} → Step max cfg s t → Ledger max s t
unfolding opened received give_up end_use open_failed put_closed drain_closed await_drain await_idle
    broadcast replace_failed
Step-Ledger {max = max} (step_acquire s ch) = acquire_Ledger max ch s
Step-Ledger (step_opened s k now h) = unchanged refl refl (omega (arith, h)) refl refl
Step-Ledger (step_open_failed s k h) = unchanged refl refl (omega (arith, h)) refl refl
Step-Ledger (step_receive s before after ch e h) =
    unchanged refl refl (omega (arith, postage-split one s.mail before after ch e h)) refl refl
Step-Ledger (step_receive_nil s before after ch h) =
    unchanged refl refl (omega (arith, postage-split-nil one s.mail before after ch h)) refl refl
Step-Ledger (step_give_up s ch) = unchanged refl refl refl refl refl
Step-Ledger {max = max} (step_release s before after e now h) =
    put-Ledger max s before after e now h
Step-Ledger (step_end_use s before after e h) =
    unchanged refl refl (omega (arith, weight-split one s.held before after e h)) refl refl
Step-Ledger {max = max} (step_discard s k h) = discard-Ledger max k s h
Step-Ledger {max = max} (step_replaced s before after ch now h) =
    replace_Ledger max s ch now (before ++ after)
Step-Ledger (step_missed s before after ch h) =
    unchanged refl refl (omega (arith, postage-append one s.mail ((ch, none) ∷ []))) refl refl
Step-Ledger {max = max} (step_cancelled s k h) = elim (Bool-cases s.pool.closed) [
  | inl off ↦ shut (rw (off, replace_failed) refl)
  | inr on ↦
      misses (rw (on, replace_failed) refl) (rw (on, replace_failed) refl)
        (rw (on, replace_failed) refl) refl refl
]
Step-Ledger (step_put_closed s k h) = loses 1 refl refl (omega (arith, h)) refl refl
Step-Ledger {max = max} (step_drain s) = drain_Ledger max s
Step-Ledger (step_drained s before after n ws h) =
    loses n refl refl
      (omega (
        arith,
        shed-split s.shedding before after n ws h,
        postage-append one s.mail (wake ws),
        postage-wake one ws,
      ))
      refl refl
Step-Ledger {max = max} (step_close s) = close-Ledger max s
Step-Ledger {max = max} {cfg = cfg} (step_evict s now) = evict_Ledger max cfg s now
Step-Ledger (step_await_drain s) = elim (Bool-cases (int_below (pos 0) s.pool.in_use)) [
  | inl busy ↦ rw busy (unchanged refl refl refl refl refl)
  | inr free ↦ rw free (unchanged refl refl refl refl refl)
]
Step-Ledger (step_await_idle s) =
    elim (Bool-cases (int_below (pos 0) s.pool.in_use && not s.pool.closed)) [
      | inl busy ↦ rw busy (unchanged refl refl refl refl refl)
      | inr free ↦ rw free (unchanged refl refl refl refl refl)
    ]
Step-Ledger (step_broadcast s) = unchanged refl refl refl refl refl

stock-IsCounted :
    (m : ℕ) (times : List ℕ) (s : System)
    → present s + length times ≤ m
    → (s.pool.open_count ≡ sub_ℕ (present s) s.missed)
    → IsCounted m (stock times s)
unfolding stock
stock-IsCounted m [] s few eq = λ on. (eq, omega (arith, few))
stock-IsCounted m (now ∷ times) s few eq =
    let e : Entry = record { client = s.next; last_used = now; born_at = now } in
    let p = s.pool in
    let t = record s {
      pool = record p { idle = p.idle ++ e ∷ []; open_count = p.open_count +ℤ pos 1 };
      next = suc s.next;
    } in
    let more : present t ≡ suc (present s) = omega (arith, weight-append one p.idle (e ∷ [])) in
    stock-IsCounted m times t (omega (arith, more, few))
      (rw (more, eq) (sub_up (present s) s.missed))

Reach-IsCounted :
    {m : ℕ} {cfg : Config} {times : List ℕ} {s : System}
    → length times ≤ m
    → Reach (pos m) cfg times s
    → IsCounted m s
unfolding new_pool
Reach-IsCounted {m = m} {times = times} few reach_new =
    stock-IsCounted m times new_system (omega (arith, few)) refl
Reach-IsCounted few (reach_step r st) = Ledger-IsCounted (Step-Ledger st) (Reach-IsCounted few r)

-- In every state that the goroutines around a pool reach, whatever their order, until the pool is
-- closed, if `New` opened no more than MaxConns connections: the counter `open` is the number of
-- connections less the number of replacements that have failed, and the connections are at most
-- MaxConns and one for each replacement so far, failed or not.
pub present-bound :
    {m : ℕ} {cfg : Config} {times : List ℕ} {s : System}
    → length times ≤ m
    → Reach (pos m) cfg times s
    → s.pool.closed ≡ false
    → (s.pool.open_count ≡ sub_ℕ (present s) s.missed) × (present s ≤ m + s.replaced + s.missed)
present-bound few r = Reach-IsCounted few r
