-- ===== src/Pool/Ledger.antt =====
-- What the steps of the pool of pg2json/pool/pool.go may do to the counter `open`.
use pg2json.Common.{
  ℕ, suc, ◌+◌, ◌≤◌, ◌<◌, ◌≡◌, refl, sym, ◌∙◌, true, false, List, [], ◌∷◌, ◌++◌, arith, length,
}
use pg2json.Common.Int.{ℤ, pos, sub_ℕ, ◌+ℤ◌, ◌-ℤ◌, int_below}
use pg2json.Pool.{Entry}
use pg2json.Pool.System.{System}
use pg2json.Pool.Weights.{weight}
use pg2json.Pool.Ownership.{carried}

abbrev pub one : ℕ → ℕ
one c = 1

abbrev pub shed : List (ℕ × List ℕ) → ℕ
shed [] = 0
shed ((n, ws) ∷ more) = n + shed more

-- The connections that `open` has to count: those in the pool, behind a handle or in a message, and
-- those that a goroutine opens or has given up and not yet counted off.
abbrev pub present : System → ℕ
present s = carried one s + s.opening + s.discarding + s.closing + shed s.shedding

pub weight-length : (es : List Entry) → weight one es ≡ length es
weight-length [] = refl
weight-length (e ∷ es) = omega (arith, weight-length es)

pub shed-split :
    (all before after : List (ℕ × List ℕ)) (n : ℕ) (ws : List ℕ)
    → all ≡ before ++ (n, ws) ∷ after
    → shed all ≡ shed (before ++ after) + n
shed-split all [] after n ws h = rw h (omega arith)
shed-split all ((k, vs) ∷ before) after n ws h =
    rw h (omega (arith, shed-split (before ++ (n, ws) ∷ after) before after n ws refl))

pub sub_up : (a b : ℕ) → sub_ℕ a b +ℤ pos 1 ≡ sub_ℕ (suc a) b
sub_up a b = ground arith

sub_down : (a b n : ℕ) → sub_ℕ (a + n) b -ℤ pos n ≡ sub_ℕ a b
sub_down a b n = ground arith

sub_more : (a b : ℕ) → sub_ℕ a b -ℤ pos 1 ≡ sub_ℕ a (suc b)
sub_more a b = ground arith

sub_below : (a b m : ℕ) → int_below (sub_ℕ a b) (pos m) ≡ true → a < m + b
sub_below a b m h = ground arith

-- What a step does to the books.
pub data Ledger (max : ℤ) (s t : System) : Type 0 where
  shut : t.pool.closed ≡ true → Ledger max s t
  unchanged :
      t.pool.closed ≡ s.pool.closed
      → t.pool.open_count ≡ s.pool.open_count
      → present t ≡ present s
      → t.replaced ≡ s.replaced
      → t.missed ≡ s.missed
      → Ledger max s t
  opens :
      t.pool.closed ≡ s.pool.closed
      → t.pool.open_count ≡ s.pool.open_count +ℤ pos 1
      → int_below s.pool.open_count max ≡ true
      → present t ≡ suc (present s)
      → t.replaced ≡ s.replaced
      → t.missed ≡ s.missed
      → Ledger max s t
  loses :
      (n : ℕ)
      → t.pool.closed ≡ s.pool.closed
      → t.pool.open_count ≡ s.pool.open_count -ℤ pos n
      → present s ≡ present t + n
      → t.replaced ≡ s.replaced
      → t.missed ≡ s.missed
      → Ledger max s t
  replaces :
      t.pool.closed ≡ s.pool.closed
      → t.pool.open_count ≡ s.pool.open_count +ℤ pos 1
      → present t ≡ suc (present s)
      → t.replaced ≡ suc s.replaced
      → t.missed ≡ s.missed
      → Ledger max s t
  misses :
      t.pool.closed ≡ s.pool.closed
      → t.pool.open_count ≡ s.pool.open_count -ℤ pos 1
      → present t ≡ present s
      → t.replaced ≡ s.replaced
      → t.missed ≡ suc s.missed
      → Ledger max s t

-- Until the pool is closed, `open` counts the connections, less one for each replacement that has
-- failed, and there are no more than the limit and the replacements allow.
abbrev pub IsCounted : ℕ → System → Type 0
IsCounted m s =
    s.pool.closed ≡ false
    → (s.pool.open_count ≡ sub_ℕ (present s) s.missed) × (present s ≤ m + s.replaced + s.missed)

pub Ledger-IsCounted : {m : ℕ} {s t : System} → Ledger (pos m) s t → IsCounted m s → IsCounted m t
Ledger-IsCounted {s = s} (shut c) i on = absurd cc
Ledger-IsCounted {s = s} {t = t} (unchanged c o p r d) i on =
    let (eq, le) = i (sym c ∙ on) in (rw (o, p, d) eq, omega (arith, le, p, r, d))
Ledger-IsCounted {m = m} {s = s} (opens c o room p r d) i on =
    let (eq, le) = i (sym c ∙ on) in
    let low = rw eq at room in
    (
      rw (o, p, d, eq) (sub_up (present s) s.missed),
      omega (arith, p, r, d, sub_below (present s) s.missed m low),
    )
Ledger-IsCounted {s = s} {t = t} (loses n c o p r d) i on =
    let (eq, le) = i (sym c ∙ on) in
    (rw (o, d, eq, p) (sub_down (present t) s.missed n), omega (arith, le, p, r, d))
Ledger-IsCounted {s = s} (replaces c o p r d) i on =
    let (eq, le) = i (sym c ∙ on) in
    (rw (o, p, d, eq) (sub_up (present s) s.missed), omega (arith, le, p, r, d))
Ledger-IsCounted {s = s} (misses c o p r d) i on =
    let (eq, le) = i (sym c ∙ on) in
    (rw (o, p, d, eq) (sub_more (present s) s.missed), omega (arith, le, p, r, d))
