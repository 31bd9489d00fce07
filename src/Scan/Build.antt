-- ===== src/Scan/Build.antt =====
-- The plan of a scan: buildStructPlan of pg2json/scan.go. The index of the fields that walkStructFields
-- makes by reflection, looked up by a name in lower case, is an argument: it gives the position and the
-- type of a field.
use pg2json.Common.{
  ℕ, IsByte, map, Bool, true, false, Option, none, some, List, [], ◌∷◌, Bytes, All, Option-cases,
  ◌≡◌, refl, inl, inr,
}
use pg2json.Common.Int.{ℤ, pos, is_zero, ◌-ℤ◌}
use pg2json.Rows.{Column}
use pg2json.Scan.{GoType, GoValue, string_setter}
use pg2json.Scan.Array.{ScanMethod, pick_setter}
use pg2json.Scan.Row.{FieldSetter, op_fallback, inline_op, fill_struct_row}
use pg2json.Scan.Fast.{is_scanner}
use pg2json.Scan.Equivalence.{without_op, IsBuilt, fill_struct_row-without_op}

-- A column that no field takes.
abbrev pub skipped : FieldSetter
skipped = record { field = 0; set = string_setter; op = op_fallback; skip = true }

-- Whether a format code is 1.
abbrev pub is_binary : ℤ → Bool
is_binary format = is_zero (format -ℤ pos 1)

-- The field of a column, if there is one, is no sql.Scanner.
abbrev pub IsUnscanned : Option (ℕ × GoType) → Type 0
IsUnscanned none = Unit
IsUnscanned (some (field, t)) = is_scanner t ≡ false

module _ (widen : ℕ → ℕ) (scan : ScanMethod) (index : Bytes → Option (ℕ × GoType)) where
  -- The entry of a column; none stands for the error of `pickSetter`.
  unfoldable pub build_setter : Column → Option FieldSetter
  build_setter c = elim (index c.name) [
    | none ↦ some skipped
    | some (field, t) ↦ elim (pick_setter widen scan c.type_oid (is_binary c.format) t) [
      | none ↦ none
      | some set ↦ some (record {
        field = field;
        set = set;
        op = inline_op c.type_oid (is_binary c.format) t;
        skip = false;
      })
    ]
  ]

  -- `buildStructPlan`
  unfoldable pub build_struct_plan : List Column → Option (List FieldSetter)
  build_struct_plan [] = some []
  build_struct_plan (c ∷ cs) = elim (build_setter c) [
    | none ↦ none
    | some s ↦ elim (build_struct_plan cs) [ none ↦ none | some ss ↦ some (s ∷ ss) ]
  ]

  abbrev IsBuiltIf : Option FieldSetter → Type 0
  IsBuiltIf none = Unit
  IsBuiltIf (some s) = IsBuilt widen scan s

  abbrev pub AreBuiltIf : Option (List FieldSetter) → Type 0
  AreBuiltIf none = Unit
  AreBuiltIf (some ss) = All (IsBuilt widen scan) ss

  build_setter-IsBuiltIf : (c : Column) → IsUnscanned (index c.name) → IsBuiltIf (build_setter c)
  unfolding build_setter
  build_setter-IsBuiltIf c plain = elim (Option-cases (index c.name)) [
    | inl absent ↦ rw (build_setter, absent) (inl refl)
    | inr ((field, t), there) ↦
        let plain' : is_scanner t ≡ false = rw there at plain in
        elim (Option-cases (pick_setter widen scan c.type_oid (is_binary c.format) t)) [
          | inl bad ↦ rw (build_setter, there, bad) tt
          | inr (set, good) ↦
              rw (build_setter, there, good)
                (inr (c.type_oid, is_binary c.format, t, plain', good, refl))
        ]
  ]

  build_struct_plan-AreBuiltIf :
      (cs : List Column)
      → All (λ c. IsUnscanned (index c.name)) cs
      → AreBuiltIf (build_struct_plan cs)
  unfolding build_struct_plan
  build_struct_plan-AreBuiltIf [] plain = tt
  build_struct_plan-AreBuiltIf (c ∷ cs) (plain, more) =
      let first = build_setter-IsBuiltIf c plain in
      let others = build_struct_plan-AreBuiltIf cs more in
      elim (Option-cases (build_setter c)) [
        | inl bad ↦ rw (build_struct_plan, bad) tt
        | inr (s, good) ↦ elim (Option-cases (build_struct_plan cs)) [
          | inl worse ↦ rw (build_struct_plan, good, worse) tt
          | inr (ss, fine) ↦
              rw (build_struct_plan, good, fine) (rw good at first, rw fine at others)
        ]
      ]

  -- For every plan that `buildStructPlan` makes for columns none of which goes to a field whose type is a
  -- sql.Scanner, and every row of bytes, also a malformed one: the inline dispatch of `fillStructRow`
  -- leaves the same fields, or the same error, as the setters alone.
  pub fill_struct_row-build_struct_plan :
      (cs : List Column) (ss : List FieldSetter) (body : Bytes) (fields : List GoValue)
      → All (λ c. IsUnscanned (index c.name)) cs
      → build_struct_plan cs ≡ some ss
      → All IsByte body
      → fill_struct_row widen ss body fields ≡ fill_struct_row widen (map without_op ss) body fields
  fill_struct_row-build_struct_plan cs ss body fields plain made bytes =
      fill_struct_row-without_op widen scan ss body fields
        (rw made at (build_struct_plan-AreBuiltIf cs plain)) bytes
