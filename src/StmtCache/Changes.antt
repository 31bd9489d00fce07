-- ===== src/StmtCache/Changes.antt =====
-- What the assignments and deletions of the map of pg2json/stmtcache.go leave of its entries.
use pg2json.Common.{
  ◌≡◌, ◌⊎◌, refl, sym, ap, false, none, some, List, [], ◌∷◌, Bytes, All, Bool-cases, inl, inr,
}
use pg2json.StmtCache.{PreparedStmt, same_text, lookup, assign, delete}
use pg2json.StmtCache.Entries.{IsIn, names, IsOther, IsMap, same_text_refl, same_text-equal}

lookup-other :
    (sql : Bytes) (es : List (Bytes × PreparedStmt)) → All (IsOther sql) es → lookup sql es ≡ none
unfolding lookup
lookup-other sql [] h = refl
lookup-other sql (e ∷ es) (other, h) = elim (Bool-cases (same_text sql e.0)) [
  | inr miss ↦ rw miss (lookup-other sql es h)
  | inl hit ↦
      let same = same_text-equal sql e.0 hit in
      absurd (
        let bad : same_text e.0 e.0 ≡ false = rw same at other in
        let good = same_text_refl e.0 in cc)
]

-- A deletion loses one name, and finds nothing that was not there.
pub delete-names :
    (sql : Bytes) (es : List (Bytes × PreparedStmt)) (st : PreparedStmt) (name : Bytes)
    → lookup sql es ≡ some st
    → IsIn name (names es)
    → IsIn name (names (delete sql es)) ⊎ (name ≡ st.name)
unfolding delete lookup
delete-names sql [] st name h held = absurd cc
delete-names sql (e ∷ es) st name h held = elim (Bool-cases (same_text sql e.0)) [
  | inl hit ↦
      let same : some e.1 ≡ some st = rw hit at h in
      let is : e.1 ≡ st = cc in
      rw hit (elim held [ inl it ↦ inr (rw (← is) it) | inr more ↦ inl more ])
  | inr miss ↦ rw miss (elim held [
    | inl it ↦ inl (inl it)
    | inr more ↦ elim (delete-names sql es st name (rw miss at h) more) [
      | inl stays ↦ inl (inr stays)
      | inr it ↦ inr it
    ]
  ])
]

pub lookup-names :
    (sql : Bytes) (es : List (Bytes × PreparedStmt)) (st : PreparedStmt)
    → lookup sql es ≡ some st
    → IsIn st.name (names es)
unfolding lookup
lookup-names sql [] st h = absurd cc
lookup-names sql (e ∷ es) st h = elim (Bool-cases (same_text sql e.0)) [
  | inl hit ↦
      let same : some e.1 ≡ some st = rw hit at h in
      let is : e.1 ≡ st = cc in inl (ap (λ (x : PreparedStmt). x.name) (sym is))
  | inr miss ↦ inr (lookup-names sql es st (rw miss at h))
]

pub delete-lookup :
    (key sql : Bytes) (es : List (Bytes × PreparedStmt)) (st : PreparedStmt)
    → IsMap es
    → lookup sql (delete key es) ≡ some st
    → lookup sql es ≡ some st
unfolding delete lookup
delete-lookup key sql [] st m h = h
delete-lookup key sql (e ∷ es) st (other, m) h = elim (Bool-cases (same_text key e.0)) [
  | inl hit ↦
      let h' : lookup sql es ≡ some st = rw hit at h in
      elim (Bool-cases (same_text sql e.0)) [
        | inr miss ↦ rw miss h'
        | inl same ↦
            let is = same_text-equal sql e.0 same in
            absurd (let gone : lookup sql es ≡ none = lookup-other sql es (rw is other) in cc)
      ]
  | inr miss ↦ elim (Bool-cases (same_text sql e.0)) [
    | inl same ↦ rw same (rw (miss, lookup, same) at h)
    | inr differs ↦ rw differs (delete-lookup key sql es st m (rw (miss, lookup, differs) at h))
  ]
]

-- An assignment loses the name of the entry that it overwrites at most.
pub assign-names :
    (sql : Bytes) (st : PreparedStmt) (es : List (Bytes × PreparedStmt)) (name : Bytes)
    → IsIn name (names es)
    → IsIn name (names (assign sql st es))
      ⊎ ((old : PreparedStmt) × (lookup sql es ≡ some old) × (name ≡ old.name))
unfolding assign lookup
assign-names sql st [] name held = absurd held
assign-names sql st (e ∷ es) name held = elim (Bool-cases (same_text sql e.0)) [
  | inl hit ↦ rw hit (elim held [ inl it ↦ inr (e.1, refl, it) | inr more ↦ inl (inr more) ])
  | inr miss ↦ rw miss (elim held [
    | inl it ↦ inl (inl it)
    | inr more ↦ elim (assign-names sql st es name more) [
      | inl stays ↦ inl (inr stays)
      | inr gone ↦ inr gone
    ]
  ])
]

All-delete :
    (P : Bytes × PreparedStmt → Type 0) (sql : Bytes) (es : List (Bytes × PreparedStmt))
    → All P es
    → All P (delete sql es)
unfolding delete
All-delete P sql [] ps = tt
All-delete P sql (e ∷ es) (p, ps) = elim (Bool-cases (same_text sql e.0)) [
  | inl hit ↦ rw hit ps
  | inr miss ↦ rw miss (p, All-delete P sql es ps)
]

pub delete-IsMap :
    (sql : Bytes) (es : List (Bytes × PreparedStmt)) → IsMap es → IsMap (delete sql es)
unfolding delete
delete-IsMap sql [] m = tt
delete-IsMap sql (e ∷ es) (other, m) = elim (Bool-cases (same_text sql e.0)) [
  | inl hit ↦ rw hit m
  | inr miss ↦ rw miss (All-delete (IsOther e.0) sql es other, delete-IsMap sql es m)
]

All-assign :
    (P : Bytes × PreparedStmt → Type 0) (sql : Bytes) (st : PreparedStmt)
    (es : List (Bytes × PreparedStmt))
    → P (sql, st)
    → All P es
    → All P (assign sql st es)
unfolding assign
All-assign P sql st [] p ps = (p, tt)
All-assign P sql st (e ∷ es) p (q, ps) = elim (Bool-cases (same_text sql e.0)) [
  | inl hit ↦ rw hit (p, ps)
  | inr miss ↦ rw miss (q, All-assign P sql st es p ps)
]

pub assign-IsMap :
    (sql : Bytes) (st : PreparedStmt) (es : List (Bytes × PreparedStmt))
    → IsMap es
    → IsMap (assign sql st es)
unfolding assign
assign-IsMap sql st [] m = (tt, tt)
assign-IsMap sql st (e ∷ es) (other, m) = elim (Bool-cases (same_text sql e.0)) [
  | inl hit ↦ let is = same_text-equal sql e.0 hit in rw hit (rw is other, m)
  | inr miss ↦ rw miss (All-assign (IsOther e.0) sql st es miss other, assign-IsMap sql st es m)
]
