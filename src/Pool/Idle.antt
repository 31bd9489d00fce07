-- ===== src/Pool/Idle.antt =====
-- The idle stack of pg2json/pool/pool.go: what a release puts on it, and what the reaper takes away.
use pg2json.Common.{
  ℕ, zero, suc, ◌+◌, ◌≤◌, ◌≡◌, refl, ap, ◌⊎◌, ◌-◌, inl, inr, Bool, true, false, ◌&&◌, some, List,
  [], ◌∷◌, ◌++◌, arith, ltb, Bool-cases, All, length, drop,
}
use pg2json.Common.Int.{ℤ, pos, int_below}
use pg2json.Pool.{Entry, Pool, put, end_use, acquire_once, reuse, split_last, evict_loop}

append-split_last : (es : List Entry) (e : Entry) → split_last (es ++ e ∷ []) ≡ some (es, e)
unfolding split_last
append-split_last [] e = refl
append-split_last (x ∷ es) e = rw (append-split_last es e, split_last) refl

-- A connection that is released while nobody waits, to a pool that is neither closed nor draining, is
-- the next that Acquire hands out, marked with the time of its release, and the idle stack is as before.
pub put-acquire_once :
    (max : ℤ) (ch now : ℕ) (e : Entry) (p : Pool)
    → p.closed ≡ false
    → p.draining ≡ false
    → p.waiters ≡ []
    → let (r, p') = acquire_once max ch (put now e p).1 in
      (r ≡ reuse (record e { last_used = now })) × (p'.idle ≡ p.idle) × (p'.waiters ≡ [])
unfolding put end_use acquire_once
put-acquire_once max ch now e p on taking nobody =
    let e' : Entry = record e { last_used = now } in
    let top = append-split_last p.idle e' in
    (simp (on, taking, nobody, top), simp (on, taking, nobody, top), simp (on, taking, nobody, top))

-- An entry that the reaper does not find too old.
abbrev pub IsFresh : ℤ → Entry → Type 0
IsFresh cutoff e = int_below (pos e.last_used) cutoff ≡ false

abbrev pub IsStale : ℤ → Entry → Type 0
IsStale cutoff e = int_below (pos e.last_used) cutoff ≡ true

-- The entries `es` in their order, each of which is kept or dropped.
pub data Parts : (es kept dropped : List Entry) → Type 0 where
  parts_end : Parts [] [] []
  parts_keep :
      {es kept dropped : List Entry} (e : Entry)
      → Parts es kept dropped
      → Parts (e ∷ es) (e ∷ kept) dropped
  parts_drop :
      {es kept dropped : List Entry} (e : Entry)
      → Parts es kept dropped
      → Parts (e ∷ es) kept (e ∷ dropped)

-- From `k` entries kept on, the entries `es` are divided, in their order: only stale entries go, those
-- kept beyond the first `low` are fresh, and `low` are kept, or all that there are.
abbrev pub IsEvicted : ℤ → ℕ → ℕ → List Entry → List Entry × List Entry → Type 0
IsEvicted cutoff low k es (kept, dropped) =
    Parts es kept dropped
    × All (IsStale cutoff) dropped
    × All (IsFresh cutoff) (drop (low - k) kept)
    × ((low ≤ k + length kept) ⊎ (kept ≡ es))

both : (a b : Bool) → a && b ≡ true → (a ≡ true) × (b ≡ true)
both true true h = (refl, refl)
both true false h = absurd cc
both false b h = absurd cc

not_both : (a b : Bool) → a && b ≡ false → b ≡ true → a ≡ false
not_both true true h g = absurd cc
not_both true false h g = absurd cc
not_both false b h g = refl

next-IsFresh :
    (cutoff : ℤ) (n : ℕ) (e : Entry) (kept : List Entry)
    → (n ≡ 0 → IsFresh cutoff e)
    → All (IsFresh cutoff) (drop (n - 1) kept)
    → All (IsFresh cutoff) (drop n (e ∷ kept))
next-IsFresh cutoff zero e kept h rest = (h refl, rest)
next-IsFresh cutoff (suc n) e kept h rest =
    let one_less : suc n - 1 ≡ n = omega arith in rw one_less at rest

evict_loop_lem :
    (cutoff : ℤ) (low : ℕ) (es : List Entry) (k : ℕ)
    → IsEvicted cutoff low k es (evict_loop cutoff (pos low) es k)
unfolding evict_loop
evict_loop_lem cutoff low [] k = (
  parts_end,
  tt,
  elim (low - k) as (λ n. All (IsFresh cutoff) (drop n [])) [ zero ↦ tt | suc n ↦ tt ],
  inr refl,
)
evict_loop_lem cutoff low (e ∷ es) k =
    let stale = int_below (pos e.last_used) cutoff in
    elim (Bool-cases (stale && ltb low (suc k))) [
      | inl drops ↦
          let (old, enough) = both stale (ltb low (suc k)) drops in
          let (parts, all, rest, kept) = evict_loop_lem cutoff low es k in
          rw drops (parts_drop e parts, (old, all), rest, inl (ground arith))
      | inr keeps ↦
          let (parts, all, rest, kept) = evict_loop_lem cutoff low es (suc k) in
          let rest' : All (IsFresh cutoff)
              (drop (low - k - 1) (evict_loop cutoff (pos low) es (suc k)).0) =
            let one_more : low - k - 1 ≡ low - suc k = omega arith in rw one_more rest in
          let next =
            next-IsFresh cutoff (low - k) e (evict_loop cutoff (pos low) es (suc k)).0
              (λ h. not_both stale (ltb low (suc k)) keeps (ground arith)) rest' in
          rw keeps (
            parts_keep e parts,
            all,
            next,
            elim kept [
              | inl more ↦ inl (omega (arith, more))
              | inr whole ↦ inr (ap (λ (l : List Entry). e ∷ l) whole)
            ],
          )
    ]

-- evictIdle divides the idle entries, in their order, into those that it keeps and those that it
-- closes: it closes none but stale entries, keeps MinIdle entries, or all if there are fewer, and keeps
-- no stale entry beyond those.
pub evict_loop-IsEvicted :
    (cutoff : ℤ) (low : ℕ) (es : List Entry)
    → IsEvicted cutoff low 0 es (evict_loop cutoff (pos low) es 0)
evict_loop-IsEvicted cutoff low es = evict_loop_lem cutoff low es 0
