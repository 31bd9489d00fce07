-- ===== src/Pool/Weights.antt =====
-- The entries of the pool of pg2json/pool/pool.go, counted with a weight: of one client, or all.
use pg2json.Common.{
  ℕ, suc, ◌+◌, ◌≡◌, refl, inl, inr, ◌&&◌, Option, none, some, List, [], ◌∷◌, ◌++◌, arith,
  Bool-cases, Option-cases,
}
use pg2json.Common.Int.{ℤ, pos, int_below}
use pg2json.Pool.{Entry, split_last, evict_loop}
use pg2json.Pool.System.{wake}

module _ (f : ℕ → ℕ) where
  -- The weight of a list of entries, and of the messages that have one.
  abbrev pub weight : List Entry → ℕ
  weight [] = 0
  weight (e ∷ es) = f e.client + weight es

  abbrev pub postage : List (ℕ × Option Entry) → ℕ
  postage [] = 0
  postage ((ch, none) ∷ ms) = postage ms
  postage ((ch, some e) ∷ ms) = f e.client + postage ms

  pub weight-append : (xs ys : List Entry) → weight (xs ++ ys) ≡ weight xs + weight ys
  weight-append [] ys = omega arith
  weight-append (e ∷ xs) ys = omega (arith, weight-append xs ys)

  pub postage-append :
      (xs ys : List (ℕ × Option Entry)) → postage (xs ++ ys) ≡ postage xs + postage ys
  postage-append [] ys = omega arith
  postage-append ((ch, none) ∷ xs) ys = postage-append xs ys
  postage-append ((ch, some e) ∷ xs) ys = omega (arith, postage-append xs ys)

  pub postage-wake : (ws : List ℕ) → postage (wake ws) ≡ 0
  postage-wake [] = refl
  postage-wake (w ∷ ws) = postage-wake ws

  pub weight-split :
      (es before after : List Entry) (e : Entry)
      → es ≡ before ++ e ∷ after
      → weight es ≡ weight (before ++ after) + f e.client
  weight-split es before after e same =
      rw same (omega (arith, weight-append before (e ∷ after), weight-append before after))

  pub postage-split :
      (ms before after : List (ℕ × Option Entry)) (ch : ℕ) (e : Entry)
      → ms ≡ before ++ (ch, some e) ∷ after
      → postage ms ≡ postage (before ++ after) + f e.client
  postage-split ms before after ch e same =
      rw same
        (omega (arith, postage-append before ((ch, some e) ∷ after), postage-append before after))

  pub postage-split-nil :
      (ms before after : List (ℕ × Option Entry)) (ch : ℕ)
      → ms ≡ before ++ (ch, none) ∷ after
      → postage ms ≡ postage (before ++ after)
  postage-split-nil ms before after ch same =
      rw same
        (omega (arith, postage-append before ((ch, none) ∷ after), postage-append before after))

  -- What an eviction keeps and drops is what there was.
  pub weight-evict_loop :
      (cutoff low : ℤ) (es : List Entry) (kept : ℕ)
      → let r = evict_loop cutoff low es kept in weight es ≡ weight (r.0) + weight (r.1)
  unfolding evict_loop
  weight-evict_loop cutoff low [] kept = refl
  weight-evict_loop cutoff low (e ∷ es) kept =
      elim (Bool-cases (int_below (pos e.last_used) cutoff && int_below low (pos (suc kept)))) [
        | inl drops ↦ rw drops (omega (arith, weight-evict_loop cutoff low es kept))
        | inr keeps ↦ rw keeps (omega (arith, weight-evict_loop cutoff low es (suc kept)))
      ]

pub split_last-none : (es : List Entry) → split_last es ≡ none → es ≡ []
unfolding split_last
split_last-none [] h = refl
split_last-none (x ∷ es) h = elim (Option-cases (split_last es)) [
  | inl last ↦ absurd (let k = rw (last, split_last) at h in cc)
  | inr ((b, y), more) ↦ absurd (let k = rw (more, split_last) at h in cc)
]

-- The last element of a slice goes to its end again.
pub split_last-append :
    (es before : List Entry) (e : Entry) → split_last es ≡ some (before, e) → es ≡ before ++ e ∷ []
unfolding split_last
split_last-append [] before e h = absurd cc
split_last-append (x ∷ es) before e h = elim (Option-cases (split_last es)) [
  | inl last ↦
      let k = rw (last, split_last) at h in
      let empty = split_last-none es last in
      let (same, is) : (before ≡ []) × (e ≡ x) = (cc, cc) in rw (same, is, empty) refl
  | inr ((b, y), more) ↦
      let k = rw (more, split_last) at h in
      let ih = split_last-append es b y more in
      let (same, is) : (before ≡ x ∷ b) × (e ≡ y) = (cc, cc) in rw (same, is, ih) refl
]
