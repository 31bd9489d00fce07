-- ===== src/Pool/Ownership.antt =====
-- Who has a connection of the pool of pg2json/pool/pool.go: the idle stack, a handle, or a message to a
-- waiter.
use pg2json.Common.{
  ℕ, suc, ◌+◌, ◌≤◌, ◌≡◌, refl, ◌⊎◌, inl, inr, true, false, not, ◌&&◌, ◌||◌, none, some, List, [],
  ◌∷◌, ◌++◌, arith, ◌==◌, if◌then◌else◌, ==_iff, Bool-cases, Option-cases,
}
use pg2json.Common.Int.{ℤ, pos, ◌+ℤ◌, ◌-ℤ◌, int_below}
use pg2json.Pool.{
  Entry, Config, Pool, new_pool, acquire_once, received, give_up, end_use, open_failed, put,
  put_closed, discard, replace_failed, replace_opened, drain_start, drain_closed, await_drain,
  await_idle, broadcast, close, evict_idle, split_last, replacement, Acquiring, refused, reuse,
  open_new, wait_on, Putting, close_it, hand_to, keep,
}
use pg2json.Pool.System.{
  System, new_system, acquiring, putting, discarded, replacing_done, opened, shedding_more,
  closing_down, stock, wake, Step, step_acquire, step_opened, step_open_failed, step_receive,
  step_receive_nil, step_give_up, step_release, step_end_use, step_discard, step_replaced,
  step_missed, step_cancelled, step_put_closed, step_drain, step_drained, step_close, step_evict,
  step_await_drain, step_await_idle, step_broadcast, Reach, reach_new, reach_step,
}
use pg2json.Pool.Weights.{
  weight, postage, weight-append, postage-append, postage-wake, weight-split, postage-split,
  postage-split-nil, weight-evict_loop, split_last-append,
}

pub waiters-cases : (p : Pool) → (p.waiters ≡ []) ⊎ ((w : ℕ) × (ws : List ℕ) × (p.waiters ≡ w ∷ ws))
waiters-cases p = elim (p.waiters) as (λ l. (l ≡ []) ⊎ ((w : ℕ) × (ws : List ℕ) × (l ≡ w ∷ ws))) [
  | [] ↦ inl refl
  | w ∷ ws ↦ inr (w, ws, refl)
]

acquiring_next : (r : Acquiring × Pool) (s : System) → (acquiring r s).next ≡ s.next
unfolding acquiring
acquiring_next (refused, p) s = refl
acquiring_next (reuse e, p) s = refl
acquiring_next (open_new, p) s = refl
acquiring_next (wait_on ch, p) s = refl

putting_next :
    (held : List Entry) (r : Putting × Pool) (s : System) → (putting held r s).next ≡ s.next
unfolding putting
putting_next held (close_it, p) s = refl
putting_next held (hand_to ch e, p) s = refl
putting_next held (keep, p) s = refl

-- What the pool, the handles and the messages weigh together.
abbrev pub carried : (ℕ → ℕ) → System → ℕ
carried f s = weight f s.pool.idle + weight f s.held + postage f s.mail

module _ (f : ℕ → ℕ) where
  pub acquire_weight :
      (max : ℤ) (ch : ℕ) (s : System)
      → carried f (acquiring (acquire_once max ch s.pool) s) ≡ carried f s
  unfolding acquire_once acquiring
  acquire_weight max ch s = elim (Bool-cases (s.pool.closed || s.pool.draining)) [
    | inl shut ↦ rw shut refl
    | inr on ↦ elim (Option-cases (split_last s.pool.idle)) [
      | inr ((before, e), top) ↦
          let whole = split_last-append s.pool.idle before e top in
          let all : weight f s.pool.idle ≡ weight f before + (f e.client + 0) =
            rw whole (weight-append f before (e ∷ [])) in
          rw (on, top, acquiring) (omega (arith, all))
      | inl empty ↦ elim (Bool-cases (int_below s.pool.open_count max)) [
        | inl room ↦ rw (on, empty, room, acquiring) refl
        | inr full ↦ rw (on, empty, full, acquiring) refl
      ]
    ]
  ]

  -- What a release closes is no longer there; else the entry is still in the pool or on its way.
  pub put_weight :
      (s : System) (before after : List Entry) (e : Entry) (now : ℕ)
      → s.held ≡ before ++ e ∷ after
      → let t = putting (before ++ after) (put now e s.pool) s in
        ((carried f t ≡ carried f s) × (t.closing ≡ s.closing))
        ⊎ ((carried f t + f e.client ≡ carried f s) × (t.closing ≡ suc s.closing))
  unfolding put putting end_use
  put_weight s before after e now has =
      let all = weight-split f s.held before after e has in
      let e' : Entry = record e { last_used = now } in
      elim (Bool-cases (s.pool.closed || s.pool.draining)) [
        | inl shut ↦ inr (rw (shut, putting) (omega (arith, all)), rw (shut, putting) refl)
        | inr on ↦ elim (waiters-cases s.pool) [
          | inl none_left ↦ inl (
            rw (on, none_left, putting) (omega (arith, all, weight-append f s.pool.idle (e' ∷ []))),
            rw (on, none_left, putting) refl,
          )
          | inr (w, ws, some_left) ↦ inl (
            rw (on, some_left, putting)
                (omega (arith, all, postage-append f s.mail ((w, some e') ∷ []))),
            rw (on, some_left, putting) refl,
          )
        ]
      ]

  pub replaced_weight :
      (s : System) (ch now : ℕ) (chs : List ℕ)
      → let t = replacing_done ch now chs (replace_opened s.pool) s in
        ((s.pool.closed ≡ true) × (carried f t ≡ carried f s) × (t.next ≡ s.next))
        ⊎ ((s.pool.closed ≡ false) × (carried f t ≡ carried f s + f s.next) × (t.next ≡ suc s.next))
  unfolding replacing_done replace_opened replacement
  replaced_weight s ch now chs = elim (Bool-cases s.pool.closed) [
    | inl shut ↦ inl (
      shut,
      rw (shut, replacing_done) (omega (arith, postage-append f s.mail ((ch, none) ∷ []))),
      rw (shut, replacing_done) refl,
    )
    | inr on ↦ inr (
      on,
      rw (on, replacing_done)
          (omega (arith, postage-append f s.mail ((ch, some (replacement s.next now)) ∷ []))),
      rw (on, replacing_done) refl,
    )
  ]

  -- A step takes nothing in, or one new client.
  abbrev Gains : System → System → Type 0
  Gains s t =
      ((carried f t ≤ carried f s) × (t.next ≡ s.next))
      ⊎ ((carried f t ≡ carried f s + f s.next) × (t.next ≡ suc s.next))

  abbrev Same : System → System → Type 0
  Same s t = (carried f t ≤ carried f s) × (t.next ≡ s.next)

  discard-Same : (k : ℕ) (s : System) → Same s (discarded k (discard s.pool) s)
  unfolding discard discarded
  discard-Same k s = elim (waiters-cases s.pool) [
    | inl none_left ↦ rw (none_left, discarded) (omega arith, refl)
    | inr (w, ws, some_left) ↦ rw (some_left, discarded) (omega arith, refl)
  ]

  drain-Same : (s : System) → Same s (shedding_more (drain_start s.pool) s)
  unfolding drain_start shedding_more
  drain-Same s = elim (Bool-cases s.pool.closed) [
    | inl shut ↦ rw (shut, shedding_more) (omega arith, refl)
    | inr on ↦ rw (on, shedding_more) (omega arith, refl)
  ]

  close-Same : (s : System) → Same s (closing_down (close s.pool) s)
  unfolding close closing_down
  close-Same s = elim (Bool-cases s.pool.closed) [
    | inl shut ↦ rw (shut, closing_down) (omega (arith, postage-append f s.mail []), refl)
    | inr on ↦
        rw (on, closing_down)
          (
            omega (
              arith,
              postage-append f s.mail (wake s.pool.waiters),
              postage-wake f s.pool.waiters,
            ),
            refl,
          )
  ]

  put-Same :
      (s : System) (before after : List Entry) (e : Entry) (now : ℕ)
      → s.held ≡ before ++ e ∷ after
      → Same s (putting (before ++ after) (put now e s.pool) s)
  put-Same s before after e now has =
      let next = putting_next (before ++ after) (put now e s.pool) s in
      elim (put_weight s before after e now has) [
        | inl (same, c) ↦ (omega (arith, same), next)
        | inr (less, c) ↦ (omega (arith, less), next)
      ]

  pub evict_weight :
      (cfg : Config) (now : ℕ) (p : Pool)
      → weight f p.idle ≡ weight f (evict_idle cfg now p).1.idle + weight f (evict_idle cfg now p).0
  unfolding evict_idle
  evict_weight cfg now p = weight-evict_loop f (pos now -ℤ cfg.idle_timeout) cfg.min_idle p.idle 0

  Step-Gains : {max : ℤ} {cfg : Config} {s t : System} → Step max cfg s t → Gains s t
  unfolding opened received give_up end_use open_failed put_closed drain_closed await_drain
      await_idle broadcast replace_failed
  Step-Gains {max = max} (step_acquire s ch) =
      inl (omega (arith, acquire_weight max ch s), acquiring_next _ s)
  Step-Gains (step_opened s k now h) = inr (omega arith, refl)
  Step-Gains (step_open_failed s k h) = inl (omega arith, refl)
  Step-Gains (step_receive s before after ch e h) =
      inl (omega (arith, postage-split f s.mail before after ch e h), refl)
  Step-Gains (step_receive_nil s before after ch h) =
      inl (omega (arith, postage-split-nil f s.mail before after ch h), refl)
  Step-Gains (step_give_up s ch) = inl (omega arith, refl)
  Step-Gains (step_release s before after e now h) = inl (put-Same s before after e now h)
  Step-Gains (step_end_use s before after e h) =
      inl (omega (arith, weight-split f s.held before after e h), refl)
  Step-Gains (step_discard s k h) = inl (discard-Same k s)
  Step-Gains (step_replaced s before after ch now h) =
      elim (replaced_weight s ch now (before ++ after)) [
        | inl (shut, same, next) ↦ inl (omega (arith, same), next)
        | inr (on, more, next) ↦ inr (more, next)
      ]
  Step-Gains (step_missed s before after ch h) =
      inl (omega (arith, postage-append f s.mail ((ch, none) ∷ [])), refl)
  Step-Gains (step_cancelled s k h) = elim (Bool-cases s.pool.closed) [
    | inl shut ↦ inl (rw shut (omega arith), refl)
    | inr on ↦ inl (rw on (omega arith), refl)
  ]
  Step-Gains (step_put_closed s k h) = inl (omega arith, refl)
  Step-Gains (step_drain s) = inl (drain-Same s)
  Step-Gains (step_drained s before after n ws h) =
      inl (omega (arith, postage-append f s.mail (wake ws), postage-wake f ws), refl)
  Step-Gains (step_close s) = inl (close-Same s)
  Step-Gains {cfg = cfg} (step_evict s now) = inl (omega (arith, evict_weight cfg now s.pool), refl)
  Step-Gains (step_await_drain s) = elim (Bool-cases (int_below (pos 0) s.pool.in_use)) [
    | inl busy ↦ inl (rw busy (omega arith), refl)
    | inr free ↦ inl (rw free (omega arith), refl)
  ]
  Step-Gains (step_await_idle s) =
      elim (Bool-cases (int_below (pos 0) s.pool.in_use && not s.pool.closed)) [
        | inl busy ↦ inl (rw busy (omega arith), refl)
        | inr free ↦ inl (rw free (omega arith), refl)
      ]
  Step-Gains (step_broadcast s) = inl (omega arith, refl)

-- The places in which a client is, of those that have had it.
abbrev pub owners : ℕ → System → ℕ
owners c = carried (λ d. if d == c then 1 else 0)

abbrev IsOwned : ℕ → System → Type 0
IsOwned c s = (owners c s ≤ 1) × (s.next ≤ c → owners c s ≡ 0)

Step-IsOwned :
    {max : ℤ} {cfg : Config} {s t : System} (c : ℕ) → Step max cfg s t → IsOwned c s → IsOwned c t
Step-IsOwned {s = s} c st (few, fresh) = elim (Step-Gains (λ d. if d == c then 1 else 0) st) [
  | inl (less, next) ↦
      (omega (arith, less, few), λ new. omega (arith, less, fresh (omega (arith, next, new))))
  | inr (more, next) ↦ elim (Bool-cases (s.next == c)) [
    | inl it ↦
        let grown = rw it at more in
        let is = (==_iff s.next c).0 it in
        (
          omega (arith, grown, fresh (omega (arith, is))),
          λ new. absurd (omega (arith, next, is, new)),
        )
    | inr other ↦
        let same = rw other at more in
        (omega (arith, same, few), λ new. omega (arith, same, fresh (omega (arith, next, new))))
  ]
]

stock-IsOwned : (c : ℕ) (times : List ℕ) (s : System) → IsOwned c s → IsOwned c (stock times s)
unfolding stock
stock-IsOwned c [] s o = o
stock-IsOwned c (now ∷ times) s (few, fresh) =
    let e : Entry = record { client = s.next; last_used = now; born_at = now } in
    let more = weight-append (λ d. if d == c then 1 else 0) s.pool.idle (e ∷ []) in
    let p = s.pool in
    let t = record s {
      pool = record p { idle = p.idle ++ e ∷ []; open_count = p.open_count +ℤ pos 1 };
      next = suc s.next;
    } in
    let o : IsOwned c t = elim (Bool-cases (s.next == c)) [
      | inl it ↦
          let grown = rw it at more in
          let is = (==_iff s.next c).0 it in
          (omega (arith, grown, fresh (omega (arith, is))), λ new. absurd (omega (arith, is, new)))
      | inr other ↦
          let same = rw other at more in
          (omega (arith, same, few), λ new. omega (arith, same, fresh (omega (arith, new))))
    ] in
    stock-IsOwned c times t o

Reach-IsOwned :
    {max : ℤ} {cfg : Config} {times : List ℕ} {s : System} (c : ℕ)
    → Reach max cfg times s
    → IsOwned c s
unfolding new_pool
Reach-IsOwned {times = times} c reach_new =
    stock-IsOwned c times new_system (omega arith, λ h. refl)
Reach-IsOwned c (reach_step r st) = Step-IsOwned c st (Reach-IsOwned c r)

-- In every state that the goroutines around the pool reach, whatever their order, a client is in one
-- place at most: idle, behind one handle, or in one message to a waiter.
pub owners-bound :
    {max : ℤ} {cfg : Config} {times : List ℕ} {s : System} (c : ℕ)
    → Reach max cfg times s
    → owners c s ≤ 1
owners-bound c r = (Reach-IsOwned c r).0
