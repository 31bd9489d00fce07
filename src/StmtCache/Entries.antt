-- ===== src/StmtCache/Entries.antt =====
-- The map of pg2json/stmtcache.go: its keys, names and lookups.
use pg2json.Common.{
  ℕ, zero, suc, ◌+◌, ◌≤◌, ◌≡◌, ◌⊎◌, refl, subst, true, false, none, some, List, [], ◌∷◌, arith,
  Bytes, All, length, map, Bool-cases, inl, inr,
}
use pg2json.StmtCache.{PreparedStmt, same_text, lookup, assign, delete, entry_at}

-- A text of a list.
abbrev pub IsIn : Bytes → List Bytes → Type 0
IsIn x [] = ⊥
IsIn x (y ∷ ys) = (x ≡ y) ⊎ IsIn x ys

abbrev pub names : List (Bytes × PreparedStmt) → List Bytes
names = map (λ (e : Bytes × PreparedStmt). e.1.name)

-- A key stands once.
abbrev pub IsOther : Bytes → Bytes × PreparedStmt → Type 0
IsOther sql e = same_text e.0 sql ≡ false

abbrev pub IsMap : List (Bytes × PreparedStmt) → Type 0
IsMap [] = Unit
IsMap (e ∷ es) = All (IsOther e.0) es × IsMap es

pub same_text_refl : (s : Bytes) → same_text s s ≡ true
unfolding same_text
same_text_refl [] = refl
same_text_refl (c ∷ s) = ground (arith, same_text_refl s)

pub same_text-equal : (s t : Bytes) → same_text s t ≡ true → s ≡ t
unfolding same_text
same_text-equal [] [] h = refl
same_text-equal [] (d ∷ t) h = absurd cc
same_text-equal (c ∷ s) [] h = absurd cc
same_text-equal (c ∷ s) (d ∷ t) h =
    let first : c ≡ d = ground arith in
    let rest : same_text s t ≡ true = ground arith in let more = same_text-equal s t rest in cc

pub lookup-assign :
    (sql : Bytes) (st : PreparedStmt) (es : List (Bytes × PreparedStmt))
    → lookup sql (assign sql st es) ≡ some st
unfolding lookup assign
lookup-assign sql st [] = rw (same_text_refl sql) refl
lookup-assign sql st (e ∷ es) = elim (Bool-cases (same_text sql e.0)) [
  | inl hit ↦ rw (hit, same_text_refl sql) refl
  | inr miss ↦ rw (miss, miss) (lookup-assign sql st es)
]

pub length-assign :
    (sql : Bytes) (st : PreparedStmt) (es : List (Bytes × PreparedStmt))
    → (length (assign sql st es) ≤ length es + 1) × (length es ≤ length (assign sql st es))
unfolding assign
length-assign sql st [] = (omega arith, omega arith)
length-assign sql st (e ∷ es) = elim (Bool-cases (same_text sql e.0)) [
  | inl hit ↦ rw hit (omega arith, omega arith)
  | inr miss ↦ let (above, below) = length-assign sql st es in rw miss (omega arith, omega arith)
]

pub length-delete :
    (sql : Bytes) (es : List (Bytes × PreparedStmt)) (st : PreparedStmt)
    → lookup sql es ≡ some st
    → length (delete sql es) + 1 ≡ length es
unfolding delete lookup
length-delete sql [] st h = absurd cc
length-delete sql (e ∷ es) st h = elim (Bool-cases (same_text sql e.0)) [
  | inl hit ↦ rw hit (omega arith)
  | inr miss ↦ rw miss (omega (arith, length-delete sql es st (rw miss at h)))
]

pub some_entry : (n : ℕ) (es : List (Bytes × PreparedStmt)) → entry_at n es ≡ none → es ≡ []
unfolding entry_at
some_entry n [] h = refl
some_entry zero (e ∷ es) h = absurd cc
some_entry (suc n) (e ∷ []) h = absurd cc
some_entry (suc n) (e ∷ f ∷ es) h = absurd (cons_nil (some_entry n (f ∷ es) h))
  where
    cons_nil : f ∷ es ≡ [] → ⊥
    cons_nil p = cc

-- The entry that is found first is the one of its key, as a key stands once.
All-entry_at :
    (P : Bytes × PreparedStmt → Type 0) (n : ℕ) (es : List (Bytes × PreparedStmt))
    (e : Bytes × PreparedStmt)
    → All P es
    → entry_at n es ≡ some e
    → P e
unfolding entry_at
All-entry_at P n [] e ps h = absurd cc
All-entry_at P zero (d ∷ es) e (p, ps) h = let same : d ≡ e = cc in rw (← same) p
All-entry_at P (suc n) (d ∷ []) e (p, ps) h = let same : d ≡ e = cc in rw (← same) p
All-entry_at P (suc n) (d ∷ f ∷ es) e (p, ps) h = All-entry_at P n (f ∷ es) e ps h

lookup-head :
    (d e : Bytes × PreparedStmt) (es : List (Bytes × PreparedStmt))
    → some d ≡ some e
    → lookup e.0 (d ∷ es) ≡ some e.1
unfolding lookup
lookup-head d e es h =
    let p : d ≡ e = cc in
    subst (λ (z : Bytes × PreparedStmt). lookup z.0 (d ∷ es) ≡ some z.1) p
      (rw (same_text_refl d.0) refl)

pub entry_at-lookup :
    (n : ℕ) (es : List (Bytes × PreparedStmt)) (e : Bytes × PreparedStmt)
    → IsMap es
    → entry_at n es ≡ some e
    → lookup e.0 es ≡ some e.1
unfolding entry_at lookup
entry_at-lookup n [] e m h = absurd cc
entry_at-lookup zero (d ∷ es) e m h = lookup-head d e es h
entry_at-lookup (suc n) (d ∷ []) e m h = lookup-head d e [] h
entry_at-lookup (suc n) (d ∷ f ∷ es) e (other, m) h =
    rw (lookup, All-entry_at (IsOther d.0) n (f ∷ es) e other h) (entry_at-lookup n (f ∷ es) e m h)
