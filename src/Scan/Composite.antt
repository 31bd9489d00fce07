-- ===== src/Scan/Composite.antt =====
-- The setter of composites: pickCompositeSetter of pg2json/scan.go. The setter of a field is chosen for the
-- OID in the cell; the source chooses it in the first row and keeps it, so that the rows of a column are
-- taken to have the same OIDs.
use pg2json.Common.{
  ℕ, zero, suc, ◌-◌, ◌^◌, ◌||◌, Option, none, some, ◌⊎◌, inl, inr, List, [], ◌∷◌, Bytes, length,
  take, drop, ltb, ◌==◌, if◌then◌else◌,
}
use pg2json.Common.Int.{abs, is_neg, signed32}
use pg2json.GoStd.{be32}
use pg2json.Scan.{
  GoValue, v_struct, Elements, no_elements, element, ScanError, short_composite, bad_columns,
  short_field, bad_field, no_field_setter, Setter,
}

-- A field's OID, its cell, and what is behind it.
unfoldable pub read_field : Bytes → ScanError ⊎ (ℕ × Option Bytes × Bytes)
read_field raw =
    let l = signed32 (be32 raw 4) in
    let rest = drop 8 raw in
    if ltb (length raw) 8
    then inl short_field
    else if be32 raw 4 == 2 ^ 32 - 1
    then inr (be32 raw 0, none, rest)
    else if is_neg l || ltb (length rest) (abs l)
    then inl bad_field
    else inr (be32 raw 0, some (take (abs l) rest), drop (abs l) rest)

-- The loop over the fields of the cell; those beyond the struct's are skipped.
unfoldable pub composite_loop :
    ℕ → List (ℕ → Option Setter) → Bytes → Elements → ScanError ⊎ Elements
composite_loop zero choices raw vs = inr vs
composite_loop (suc n) [] raw vs = elim (read_field raw) [
  | inl e ↦ inl e
  | inr (oid, cell, rest) ↦ composite_loop n [] rest vs
]
composite_loop (suc n) (choose ∷ choices) raw no_elements = elim (read_field raw) [
  | inl e ↦ inl e
  | inr (oid, cell, rest) ↦ composite_loop n choices rest no_elements
]
composite_loop (suc n) (choose ∷ choices) raw (element v vs) = elim (read_field raw) [
  | inl e ↦ inl e
  | inr (oid, cell, rest) ↦ elim (choose oid) [
    | none ↦ inl no_field_setter
    | some set ↦ elim (set v cell) [
      | inl e ↦ inl e
      | inr v' ↦ elim (composite_loop n choices rest vs) [
        | inl e ↦ inl e
        | inr vs' ↦ inr (element v' vs')
      ]
    ]
  ]
]

abbrev pub fields_of : GoValue → Elements → Elements
fields_of old blank = elim old [ v_struct vs ↦ vs | _ ↦ blank ]

-- `pickCompositeSetter`'s setter, for the choices of the fields' setters and the fields' zero values.
unfoldable pub composite_setter : List (ℕ → Option Setter) → Elements → Setter
composite_setter choices blank old none = inr (v_struct blank)
composite_setter choices blank old (some raw) =
    let n = signed32 (be32 raw 0) in
    if ltb (length raw) 4
    then inl short_composite
    else if is_neg n
    then inl (bad_columns n)
    else elim (composite_loop (abs n) choices (drop 4 raw) (fields_of old blank)) [
      | inl e ↦ inl e
      | inr vs ↦ inr (v_struct vs)
    ]
