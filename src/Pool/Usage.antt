-- ===== src/Pool/Usage.antt =====
-- The counter `inUse` of the pool of pg2json/pool/pool.go and the goroutines that wait for it to reach 0.
use pg2json.Common.{
  ℕ, suc, ◌+◌, ◌≡◌, refl, sym, ◌∙◌, inl, inr, Bool, true, false, not, ◌&&◌, ◌||◌, List, [], ◌∷◌,
  ◌++◌, arith, if◌then◌else◌, Bool-cases, Option-cases,
}
use pg2json.Common.Int.{ℤ, pos, ◌+ℤ◌, ◌-ℤ◌, int_below, is_zero}
use pg2json.Pool.{
  Entry, Config, new_pool, acquire_once, received, give_up, end_use, open_failed, put, put_closed,
  discard, replace_failed, replace_opened, drain_start, drain_closed, await_drain, await_idle,
  broadcast, close, evict_idle, split_last,
}
use pg2json.Pool.System.{
  System, new_system, acquiring, putting, discarded, replacing_done, opened, shedding_more,
  closing_down, stock, Step, step_acquire, step_opened, step_open_failed, step_receive,
  step_receive_nil, step_give_up, step_release, step_end_use, step_discard, step_replaced,
  step_missed, step_cancelled, step_put_closed, step_drain, step_drained, step_close, step_evict,
  step_await_drain, step_await_idle, step_broadcast, Reach, reach_new, reach_step,
}
use pg2json.Pool.Weights.{weight, weight-split}
use pg2json.Pool.Ownership.{waiters-cases}
use pg2json.Pool.Ledger.{one}

-- The handles that are out and the connections that Acquire is opening.
abbrev pub load : System → ℕ
load s = weight one s.held + s.opening

-- What a step does to the use of the pool.
data Use (s t : System) : Type 0 where
  calm :
      t.pool.in_use ≡ s.pool.in_use
      → load t ≡ load s
      → t.pool.sleeping ≡ s.pool.sleeping
      → t.failures ≡ s.failures
      → Use s t
  starts : t.pool.in_use ≡ s.pool.in_use +ℤ pos 1 → load t ≡ suc (load s) → Use s t
  ends :
      t.pool.in_use ≡ s.pool.in_use -ℤ pos 1
      → load s ≡ suc (load t)
      → t.pool.sleeping ≡ (if is_zero (s.pool.in_use -ℤ pos 1) then 0 else s.pool.sleeping)
      → Use s t
  fails :
      t.pool.in_use ≡ s.pool.in_use -ℤ pos 1
      → load s ≡ suc (load t)
      → t.failures ≡ suc s.failures
      → Use s t
  sleeps :
      t.pool.in_use ≡ s.pool.in_use
      → load t ≡ load s
      → int_below (pos 0) s.pool.in_use ≡ true
      → Use s t
  wakes : t.pool.in_use ≡ s.pool.in_use → load t ≡ load s → t.pool.sleeping ≡ 0 → Use s t

-- `inUse` is the load, and nobody sleeps without one, unless an Open of Acquire has failed.
abbrev pub IsUsed : System → Type 0
IsUsed s = (s.pool.in_use ≡ pos (load s)) × (s.failures ≡ 0 → load s ≡ 0 → s.pool.sleeping ≡ 0)

Use-IsUsed : {s t : System} → Use s t → IsUsed s → IsUsed t
Use-IsUsed (calm u l z f) (eq, awake) =
    (rw (u, l) eq, λ none_yet idle. z ∙ awake (sym f ∙ none_yet) (sym l ∙ idle))
Use-IsUsed (starts u l) (eq, awake) =
    (rw (u, l, eq) (ground arith), λ none_yet idle. absurd (omega (arith, l, idle)))
Use-IsUsed {s = s} {t = t} (ends u l z) (eq, awake) =
    let used : t.pool.in_use ≡ pos (load t) = rw (u, eq, l) (ground arith) in
    (used, λ none_yet idle. z ∙ rw (← u, used, idle) refl)
Use-IsUsed (fails u l f) (eq, awake) =
    (rw (u, eq, l) (ground arith), λ none_yet idle. absurd (omega (arith, f, none_yet)))
Use-IsUsed (sleeps u l busy) (eq, awake) =
    (rw (u, l) eq, λ none_yet idle. absurd (let b = rw (eq, ← l, idle) at busy in cc))
Use-IsUsed (wakes u l z) (eq, awake) = (rw (u, l) eq, λ none_yet idle. z)

acquire_Use : (max : ℤ) (ch : ℕ) (s : System) → Use s (acquiring (acquire_once max ch s.pool) s)
unfolding acquire_once acquiring
acquire_Use max ch s = elim (Bool-cases (s.pool.closed || s.pool.draining)) [
  | inl off ↦ rw (off, acquiring) (calm refl refl refl refl)
  | inr on ↦ elim (Option-cases (split_last s.pool.idle)) [
    | inr ((before, e), top) ↦ rw (on, top, acquiring) (starts refl (omega arith))
    | inl empty ↦ elim (Bool-cases (int_below s.pool.open_count max)) [
      | inl room ↦ rw (on, empty, room, acquiring) (starts refl (omega arith))
      | inr full ↦ rw (on, empty, full, acquiring) (calm refl refl refl refl)
    ]
  ]
]

put-Use :
    (s : System) (before after : List Entry) (e : Entry) (now : ℕ)
    → s.held ≡ before ++ e ∷ after
    → Use s (putting (before ++ after) (put now e s.pool) s)
unfolding put putting end_use
put-Use s before after e now has =
    let w = weight-split one s.held before after e has in
    elim (Bool-cases (s.pool.closed || s.pool.draining)) [
      | inl off ↦ rw (off, putting) (ends refl (omega (arith, w)) refl)
      | inr on ↦ elim (waiters-cases s.pool) [
        | inl none_left ↦ rw (on, none_left, putting) (ends refl (omega (arith, w)) refl)
        | inr (c, cs, some_left) ↦ rw (on, some_left, putting) (ends refl (omega (arith, w)) refl)
      ]
    ]

discard-Use : (k : ℕ) (s : System) → Use s (discarded k (discard s.pool) s)
unfolding discard discarded
discard-Use k s = elim (waiters-cases s.pool) [
  | inl none_left ↦ rw (none_left, discarded) (calm refl refl refl refl)
  | inr (w, ws, some_left) ↦ rw (some_left, discarded) (calm refl refl refl refl)
]

replace_Use :
    (s : System) (ch now : ℕ) (chs : List ℕ)
    → Use s (replacing_done ch now chs (replace_opened s.pool) s)
unfolding replace_opened replacing_done
replace_Use s ch now chs = elim (Bool-cases s.pool.closed) [
  | inl off ↦ rw (off, replacing_done) (calm refl refl refl refl)
  | inr on ↦ rw (on, replacing_done) (calm refl refl refl refl)
]

drain_Use : (s : System) → Use s (shedding_more (drain_start s.pool) s)
unfolding drain_start shedding_more
drain_Use s = elim (Bool-cases s.pool.closed) [
  | inl off ↦ rw (off, shedding_more) (calm refl refl refl refl)
  | inr on ↦ rw (on, shedding_more) (calm refl refl refl refl)
]

close-Use : (s : System) → Use s (closing_down (close s.pool) s)
unfolding close closing_down
close-Use s = elim (Bool-cases s.pool.closed) [
  | inl off ↦ rw (off, closing_down) (calm refl refl refl refl)
  | inr on ↦ rw (on, closing_down) (wakes refl refl refl)
]

sleeps_or_not : (busy closed : Bool) → busy && not closed ≡ true → busy ≡ true
sleeps_or_not true closed h = refl
sleeps_or_not false closed h = absurd cc

Step-Use : {max : ℤ} {cfg : Config} {s t : System} → Step max cfg s t → Use s t
unfolding opened received give_up end_use open_failed put_closed drain_closed await_drain await_idle
    broadcast replace_failed evict_idle
Step-Use {max = max} (step_acquire s ch) = acquire_Use max ch s
Step-Use (step_opened s k now h) = calm refl (omega (arith, h)) refl refl
Step-Use (step_open_failed s k h) = fails refl (omega (arith, h)) refl
Step-Use (step_receive s before after ch e h) = starts refl (omega arith)
Step-Use (step_receive_nil s before after ch h) = calm refl refl refl refl
Step-Use (step_give_up s ch) = calm refl refl refl refl
Step-Use (step_release s before after e now h) = put-Use s before after e now h
Step-Use (step_end_use s before after e h) =
    ends refl (omega (arith, weight-split one s.held before after e h)) refl
Step-Use (step_discard s k h) = discard-Use k s
Step-Use (step_replaced s before after ch now h) = replace_Use s ch now (before ++ after)
Step-Use (step_missed s before after ch h) = calm refl refl refl refl
Step-Use (step_cancelled s k h) = elim (Bool-cases s.pool.closed) [
  | inl off ↦ rw (off, replace_failed) (calm refl refl refl refl)
  | inr on ↦ rw (on, replace_failed) (calm refl refl refl refl)
]
Step-Use (step_put_closed s k h) = calm refl refl refl refl
Step-Use (step_drain s) = drain_Use s
Step-Use (step_drained s before after n ws h) = calm refl refl refl refl
Step-Use (step_close s) = close-Use s
Step-Use (step_evict s now) = calm refl refl refl refl
Step-Use (step_await_drain s) = elim (Bool-cases (int_below (pos 0) s.pool.in_use)) [
  | inl busy ↦ rw busy (sleeps refl refl busy)
  | inr free ↦ rw free (calm refl refl refl refl)
]
Step-Use (step_await_idle s) =
    elim (Bool-cases (int_below (pos 0) s.pool.in_use && not s.pool.closed)) [
      | inl busy ↦ rw busy (sleeps refl refl (sleeps_or_not _ s.pool.closed busy))
      | inr free ↦ rw free (calm refl refl refl refl)
    ]
Step-Use (step_broadcast s) = wakes refl refl refl

stock-IsUsed : (times : List ℕ) (s : System) → IsUsed s → IsUsed (stock times s)
unfolding stock
stock-IsUsed [] s u = u
stock-IsUsed (now ∷ times) s u = stock-IsUsed times _ u

-- In every state that the goroutines around a pool reach, `inUse` is the number of handles that are
-- out and of connections that Acquire is opening; and where it is 0, no goroutine of Drain or WaitIdle
-- is asleep, unless an Open of Acquire has failed.
pub Reach-IsUsed :
    {max : ℤ} {cfg : Config} {times : List ℕ} {s : System} → Reach max cfg times s → IsUsed s
unfolding new_pool
Reach-IsUsed {times = times} reach_new = stock-IsUsed times new_system (refl, λ none_yet idle. refl)
Reach-IsUsed (reach_step r st) = Use-IsUsed (Step-Use st) (Reach-IsUsed r)
