-- ===== src/Scan/Equivalence.antt =====
-- The rows of pg2json/scan.go with and without the inline dispatch.
use pg2json.Common.{
  ℕ, suc, ◌^◌, ◌≡◌, refl, ap, ◌⊎◌, inl, inr, Bool, true, false, ◌||◌, Option, none, some, List, [],
  ◌∷◌, Bytes, All, IsByte, All-take, All-drop, length, ◌-◌, drop, ltb, ◌==◌, Bool-cases, map,
}
use pg2json.Common.Int.{signed32, is_neg, abs}
use pg2json.GoStd.{be32}
use pg2json.Scan.{GoType, GoValue, ScanError}
use pg2json.Scan.Array.{ScanMethod, pick_setter}
use pg2json.Scan.Row.{
  op_fallback, inline_op, FieldSetter, run_op, write_cell, split_cell, field_at, store_at,
  fill_cells, fill_struct_row,
}
use pg2json.Scan.Fast.{is_scanner, inline_op-IsFast}

-- The same column without its opcode.
abbrev pub without_op : FieldSetter → FieldSetter
without_op s = record s { op = op_fallback }

module _ (widen : ℕ → ℕ) (scan : ScanMethod) where
  -- `buildStructPlan` gives a column that it does not skip the setter and the opcode of one OID, one format
  -- and one type
  -- that is no sql.Scanner.
  abbrev pub IsBuilt : FieldSetter → Type 0
  IsBuilt s =
      (s.skip ≡ true)
      ⊎ ((oid : ℕ) × (binary : Bool) × (t : GoType) × (is_scanner t ≡ false)
          × (pick_setter widen scan oid binary t ≡ some s.set)
          × (s.op ≡ inline_op oid binary t))

  -- What is cut off a row of bytes is bytes.
  abbrev IsCut : ScanError ⊎ (Option Bytes × Bytes) → Type 0
  IsCut (inl e) = Unit
  IsCut (inr (none, rest)) = All IsByte rest
  IsCut (inr (some raw, rest)) = All IsByte raw × All IsByte rest

  split_cell-IsCut : (body : Bytes) → All IsByte body → IsCut (split_cell body)
  unfolding split_cell
  split_cell-IsCut body bytes =
      let l = signed32 (be32 body 0) in
      let rest = drop 4 body in
      let whole = All-drop IsByte 4 body bytes in
      elim (Bool-cases (ltb (length body) 4)) [
        | inl short ↦ rw short tt
        | inr long ↦ elim (Bool-cases (be32 body 0 == 2 ^ 32 - 1)) [
          | inl absent ↦ rw (long, absent) whole
          | inr there ↦ elim (Bool-cases (is_neg l || ltb (length rest) (abs l))) [
            | inl bad ↦ rw (long, there, bad) tt
            | inr good ↦
                rw (long, there, good)
                  (All-take IsByte (abs l) rest whole, All-drop IsByte (abs l) rest whole)
          ]
        ]
      ]

  Cut-cases :
      (x : ScanError ⊎ (Option Bytes × Bytes))
      → ((e : ScanError) × (x ≡ inl e))
        ⊎ ((cell : Option Bytes) × (rest : Bytes) × (x ≡ inr (cell, rest)))
  Cut-cases (inl e) = inl (e, refl)
  Cut-cases (inr (cell, rest)) = inr (cell, rest, refl)

  write_cell-without_op :
      (s : FieldSetter) (old : GoValue) (cell : Option Bytes) (rest : Bytes)
      → IsBuilt s
      → s.skip ≡ false
      → IsCut (inr (cell, rest))
      → write_cell widen s.op s.set old cell ≡ write_cell widen op_fallback s.set old cell
  unfolding write_cell run_op
  write_cell-without_op s old none rest built live bytes = refl
  write_cell-without_op s old (some raw) rest (inl skipped) live bytes = absurd cc
  write_cell-without_op s old (some raw) rest (inr (oid, binary, t, plain, picks, is)) live
        (b, bs) =
      rw is (inline_op-IsFast widen scan oid binary t s.set plain picks old raw b)

  cut_rest : (cell : Option Bytes) (rest : Bytes) → IsCut (inr (cell, rest)) → All IsByte rest
  cut_rest none rest b = b
  cut_rest (some raw) rest (a, b) = b

  Written-cases :
      (x : ScanError ⊎ GoValue) → ((e : ScanError) × (x ≡ inl e)) ⊎ ((v : GoValue) × (x ≡ inr v))
  Written-cases (inl e) = inl (e, refl)
  Written-cases (inr v) = inr (v, refl)

  fill_cells-without_op :
      (ss : List FieldSetter) (body : Bytes) (fields : List GoValue)
      → All IsBuilt ss
      → All IsByte body
      → fill_cells widen ss body fields ≡ fill_cells widen (map without_op ss) body fields
  unfolding fill_cells
  fill_cells-without_op [] body fields built bytes = refl
  fill_cells-without_op (s ∷ ss) body fields (b, built) bytes =
      let cut = split_cell-IsCut body bytes in
      elim (Cut-cases (split_cell body)) [
        | inl (e, bad) ↦ rw (fill_cells, bad) refl
        | inr (cell, rest, good) ↦
            let cut' : IsCut (inr (cell, rest)) = rw good at cut in
            let more = cut_rest cell rest cut' in
            elim (Bool-cases s.skip) [
              | inl skipped ↦
                  rw (fill_cells, good, skipped) (fill_cells-without_op ss rest fields built more)
              | inr live ↦
                  let same =
                    write_cell-without_op s (field_at s.field fields) cell rest b live cut' in
                  elim (Written-cases
                    (write_cell widen op_fallback s.set (field_at s.field fields) cell)) [
                      | inl (e, bad) ↦ rw (fill_cells, good, live, same, bad) refl
                      | inr (v, fine) ↦
                          rw (fill_cells, good, live, same, fine)
                            (fill_cells-without_op ss rest (store_at s.field v fields) built more)
                    ]
            ]
      ]

  length-without_op : (ss : List FieldSetter) → length (map without_op ss) ≡ length ss
  length-without_op [] = refl
  length-without_op (s ∷ ss) = ap suc (length-without_op ss)

  pub fill_struct_row-without_op :
      (ss : List FieldSetter) (body : Bytes) (fields : List GoValue)
      → All IsBuilt ss
      → All IsByte body
      → fill_struct_row widen ss body fields ≡ fill_struct_row widen (map without_op ss) body fields
  unfolding fill_struct_row
  fill_struct_row-without_op ss body fields built bytes =
      rw
        (
          fill_cells-without_op ss (drop 2 body) fields built (All-drop IsByte 2 body bytes),
          length-without_op ss,
        )
        refl
