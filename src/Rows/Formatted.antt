-- ===== src/Rows/Formatted.antt =====
-- The plan that ParseRowDescriptionForFormats of internal/rows/plan.go makes of a server's RowDescription,
-- and the rows that go with it.
use pg2json.Common.{
  ℕ, suc, ◌≡◌, ◌^◌, ◌<◌, refl, ap, inl, inr, Option, List, [], ◌∷◌, Bytes, map, All, length, ◌==◌,
  Bool-cases, Option-cases,
}
use pg2json.Types.Text.Pick.{pick-Appends, encode_opaque_binary-Appends}
use pg2json.Types.Binary.{FloatPrinter}
use pg2json.Types.Array.{pick_binary}
use pg2json.Types.Appending.Choice.{MayAppend-some, pick_binary-MayAppend}
use pg2json.Rows.{Column, Plan, plan_of}
use pg2json.Rows.Server.{Fits}
use pg2json.Rows.Describe.{Field, described}
use pg2json.Rows.Output.{IsColumn, IsRow}
use pg2json.Rows.Formats.{format_for, apply_format, apply_loop, apply_formats}

-- A row of a cell for each field, small enough for its layout.
pub record IsResultRow (fs : List Field) (cells : List (Option Bytes)) : Type 0 where
  pub same : length cells ≡ length fs
  pub few : length cells < 2 ^ 15
  pub fit : All Fits cells

module _ (print : FloatPrinter) (formats : List ℕ) where
  -- The plan of a RowDescription with these formats.
  abbrev pub formatted : List Field → Plan
  formatted fs = apply_formats print formats (plan_of (map described fs))

  apply_format-IsColumn : (f : ℕ) (c : Column) → IsColumn c → IsColumn (apply_format print f c)
  unfolding apply_format
  apply_format-IsColumn f c (a, k) = elim (Bool-cases (f == 1)) [
    | inr text ↦ rw (apply_format, text) (pick-Appends c.type_oid, k)
    | inl binary ↦ elim (Option-cases (pick_binary print c.type_oid)) [
      | inl opaque ↦ rw (apply_format, binary, opaque) (encode_opaque_binary-Appends, k)
      | inr (be, found) ↦
          let may = pick_binary-MayAppend print c.type_oid in
          rw (apply_format, binary, found) (MayAppend-some (rw found at may), k)
    ]
  ]

  apply_loop-IsColumn :
      (n i : ℕ) (fs : List Field) → All IsColumn (apply_loop print formats n i (map described fs))
  unfolding apply_loop
  apply_loop-IsColumn n i [] = tt
  apply_loop-IsColumn n i (f ∷ fs) = (
    apply_format-IsColumn (format_for formats n i) (described f) (pick-Appends f.oid, refl),
    apply_loop-IsColumn n (suc i) fs,
  )

  length-apply_loop :
      (n i : ℕ) (fs : List Field)
      → length (apply_loop print formats n i (map described fs)) ≡ length fs
  unfolding apply_loop
  length-apply_loop n i [] = refl
  length-apply_loop n i (f ∷ fs) = ap suc (length-apply_loop n (suc i) fs)

  pub formatted-IsRow :
      (fs : List Field) (cells : List (Option Bytes))
      → IsResultRow fs cells
      → IsRow ((formatted fs).columns) cells
  unfolding apply_formats plan_of
  formatted-IsRow fs cells r =
      let n = length (map described fs) in
      record {
        columns = apply_loop-IsColumn n 0 fs;
        same = rw (length-apply_loop n 0 fs) r.same;
        few = r.few;
        fit = r.fit;
      }

  pub formatted-rows :
      (fs : List Field) (rows : List (List (Option Bytes)))
      → All (IsResultRow fs) rows
      → All (IsRow ((formatted fs).columns)) rows
  formatted-rows fs [] rs = tt
  formatted-rows fs (cells ∷ rows) (r, rs) = (formatted-IsRow fs cells r, formatted-rows fs rows rs)
