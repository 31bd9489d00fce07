-- ===== src/Pool/Acquire.antt =====
-- Acquire of pg2json/pool/pool.go around `acquireOnce`: the checks of a connection and the retries.
use pg2json.Common.{
  ℕ, zero, suc, ◌+◌, ◌-◌, ◌^◌, ◌<◌, ◌≡◌, refl, subst, ◌⊎◌, inl, inr, Bool, true, false, ◌&&◌, List,
  [], ◌∷◌, arith, if◌then◌else◌, ltb, Bool-cases,
}
use pg2json.Common.Int.{ℤ, pos, negsuc, sub_ℕ, int_below}
use pg2json.Pool.{Entry, Config, replacement}

-- `Time.Sub`, which keeps to the range of a duration.
unfoldable pub elapsed : ℕ → ℕ → ℤ
elapsed now since =
    let most = 2 ^ 63 - 1 in
    if ltb most (now - since)
    then pos most
    else if ltb (suc most) (since - now)
    then negsuc most
    else sub_ℕ now since

-- The check of an entry at the time `now`: an old one fails, and one long unused where no answer to a
-- ping comes.
unfoldable pub is_healthy : Config → ℕ → Bool → Entry → Bool
is_healthy cfg now answers e =
    let life = cfg.max_conn_lifetime in
    let pause = cfg.ping_after_idle in
    if int_below (pos 0) life && int_below life (elapsed now e.born_at)
    then false
    else if int_below (pos 0) pause && int_below pause (elapsed now e.last_used)
    then answers
    else true

-- A round of the loop: `acquireOnce` fails, or gives an entry, which is checked.
pub data Attempt (E : Type 0) : Type 0 where
  no_entry : E → Attempt E
  got : (e : Entry) (now : ℕ) (answers : Bool) → Attempt E

-- What Acquire returns.
pub data Acquired (E : Type 0) : Type 0 where
  conn : Entry → Acquired E
  acquire_failed : E → Acquired E
  exhausted : Acquired E

-- The loop of `Acquire` for `n` rounds from the round `i`, with the entries that it discards.
unfoldable pub acquire_loop :
    {E : Type 0} → Config → (ℕ → Attempt E) → ℕ → ℕ → Acquired E × List Entry
acquire_loop cfg attempts i zero = (exhausted, [])
acquire_loop cfg attempts i (suc n) =
    let (r, dropped) = acquire_loop cfg attempts (suc i) n in
    elim (attempts i) [
      | no_entry e ↦ (acquire_failed e, [])
      | got e now answers ↦ if is_healthy cfg now answers e then (conn e, []) else (r, e ∷ dropped)
    ]

-- `Acquire`
unfoldable pub acquire : {E : Type 0} → Config → (ℕ → Attempt E) → Acquired E × List Entry
acquire cfg attempts = acquire_loop cfg attempts 0 3

-- Rounds, from the first number to the last, in which an entry came and failed its check.
pub data Rejected {E : Type 0} (cfg : Config) (attempts : ℕ → Attempt E)
    : ℕ → List Entry → ℕ → Type 0 where
  no_round : (i : ℕ) → Rejected cfg attempts i [] i
  a_round :
      (i j : ℕ) (e : Entry) (es : List Entry) (now : ℕ) (answers : Bool)
      → attempts i ≡ got e now answers
      → is_healthy cfg now answers e ≡ false
      → Rejected cfg attempts (suc i) es j
      → Rejected cfg attempts i (e ∷ es) j

-- What ends the loop at the round `j`, before the round `last`.
abbrev pub Ends : {E : Type 0} → Config → (ℕ → Attempt E) → Acquired E → ℕ → ℕ → Type 0
Ends cfg attempts (conn e) j last =
    (j < last)
    × (now : ℕ) × (answers : Bool) × (attempts j ≡ got e now answers)
    × (is_healthy cfg now answers e ≡ true)
Ends cfg attempts (acquire_failed x) j last = (j < last) × (attempts j ≡ no_entry x)
Ends cfg attempts exhausted j last = j ≡ last

Attempt-cases :
    {E : Type 0} (a : Attempt E)
    → ((x : E) × (a ≡ no_entry x))
      ⊎ ((e : Entry) × (now : ℕ) × (answers : Bool) × (a ≡ got e now answers))
Attempt-cases (no_entry x) = inl (x, refl)
Attempt-cases (got e now answers) = inr (e, now, answers, refl)

acquire_loop_lem :
    {E : Type 0} (cfg : Config) (attempts : ℕ → Attempt E) (i n : ℕ)
    → let r = acquire_loop cfg attempts i n in
      (j : ℕ) × Rejected cfg attempts i (r.1) j × Ends cfg attempts (r.0) j (i + n)
unfolding acquire_loop
acquire_loop_lem cfg attempts i zero = (i, no_round i, omega arith)
acquire_loop_lem cfg attempts i (suc n) = elim (Attempt-cases (attempts i)) [
  | inl (x, fails) ↦
      (i, rw (fails, acquire_loop) (no_round i), rw (fails, acquire_loop) (omega arith, fails))
  | inr (e, now, answers, gets) ↦ elim (Bool-cases (is_healthy cfg now answers e)) [
    | inl good ↦ (
      i,
      rw (gets, good, acquire_loop) (no_round i),
      rw (gets, good, acquire_loop) (omega arith, now, answers, gets, good),
    )
    | inr bad ↦
        let (j, more, end) = acquire_loop_lem cfg attempts (suc i) n in
        let last : suc i + n ≡ i + suc n = omega arith in
        (
          j,
          rw (gets, bad, acquire_loop) (a_round i j e _ now answers gets bad more),
          rw (gets, bad, acquire_loop)
              (subst (Ends cfg attempts ((acquire_loop cfg attempts (suc i) n).0) j) last end),
        )
  ]
]

-- Acquire ends in its third round at the latest. The entries that it discards are those of the rounds
-- before, each of which failed its check; a connection that it returns has passed its check, an error
-- is the error of `acquireOnce`, and the retries are exhausted only when three entries have failed.
pub acquire_lem :
    {E : Type 0} (cfg : Config) (attempts : ℕ → Attempt E)
    → let r = acquire cfg attempts in
      (j : ℕ) × Rejected cfg attempts 0 (r.1) j × Ends cfg attempts (r.0) j 3
unfolding acquire
acquire_lem cfg attempts = acquire_loop_lem cfg attempts 0 3

-- The connection that a replacement hands to a waiter fails its check at any time later than
-- MaxConnLifetime after Go's zero time, since its time of birth is not set.
pub is_healthy-replacement :
    (cfg : Config) (life client handed now : ℕ) (answers : Bool)
    → cfg.max_conn_lifetime ≡ pos life
    → 0 < life
    → life < 2 ^ 63 - 1
    → life < now
    → is_healthy cfg now answers (replacement client handed) ≡ false
unfolding is_healthy elapsed replacement
is_healthy-replacement cfg life client handed now answers is on small late = rw is (ground arith)
