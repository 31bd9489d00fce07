-- ===== src/Rows/Formats.antt =====
-- The choice of result formats in internal/rows/plan.go: `PickResultFormats`, `ApplyFormats` and
-- `ParseRowDescriptionForFormats`.
use pg2json.Common.{
  ℕ, suc, ◌≡◌, ◌⊎◌, inl, inr, refl, ap, ap₂, ◌∙◌, none, some, List, [], ◌∷◌, ◌++◌, map,
  append_assoc, arith, Bytes, length, length-append, get_or, ◌==◌, if◌then◌else◌, Option-cases,
}
use pg2json.Common.Int.{pos}
use pg2json.Types.Text.{pick, encode_opaque_binary}
use pg2json.Types.Binary.{FloatPrinter}
use pg2json.Types.Array.{pick_binary, has_binary}
use pg2json.Rows.{Column, Plan, RowError, parse_row_description}

-- The format code of column `i` of `n`.
unfoldable pub format_for : List ℕ → ℕ → ℕ → ℕ
format_for formats n i =
    if length formats == 1
    then get_or formats 0 0
    else if length formats == n
    then get_or formats i 0
    else 0

module _ (print : FloatPrinter) where
  -- `ApplyFormats` on one column.
  unfoldable pub apply_format : ℕ → Column → Column
  apply_format f c =
      if f == 1
      then record c {
        format = pos f;
        encoder = elim (pick_binary print c.type_oid) [
          | some be ↦ be
          | none ↦ encode_opaque_binary
        ];
      }
      else record c { format = pos f; encoder = pick c.type_oid }

  unfoldable pub apply_loop : List ℕ → ℕ → ℕ → List Column → List Column
  apply_loop formats n i [] = []
  apply_loop formats n i (c ∷ cols) =
      apply_format (format_for formats n i) c ∷ apply_loop formats n (suc i) cols

  -- `ApplyFormats`
  unfoldable pub apply_formats : List ℕ → Plan → Plan
  apply_formats formats p = record p { columns = apply_loop formats (length p.columns) 0 p.columns }

  -- `ParseRowDescriptionForFormats`
  unfoldable pub parse_row_description_for_formats : Bytes → List ℕ → RowError ⊎ Plan
  parse_row_description_for_formats body formats = elim (parse_row_description body) [
    | inl e ↦ inl e
    | inr p ↦ inr (apply_formats formats p)
  ]

  unfoldable pub result_format : Column → ℕ
  result_format c = if has_binary print c.type_oid then 1 else 0

  -- `PickResultFormats`
  unfoldable pub pick_result_formats : List Column → List ℕ
  pick_result_formats cols = map result_format cols

  -- A column in the format that has an encoder of its own.
  unfoldable pub chosen : Column → Column
  chosen c = elim (pick_binary print c.type_oid) [
    | some be ↦ record c { format = pos 1; encoder = be }
    | none ↦ record c { format = pos 0; encoder = pick c.type_oid }
  ]

  apply_format-result_format : (c : Column) → apply_format (result_format c) c ≡ chosen c
  unfolding apply_format result_format has_binary chosen
  apply_format-result_format c = elim (Option-cases (pick_binary print c.type_oid)) [
    | inl no_encoder ↦
        let code : result_format c ≡ 0 = rw (no_encoder, has_binary, result_format) refl in
        rw (code, no_encoder, chosen) refl
    | inr (be, found) ↦
        let code : result_format c ≡ 1 = rw (found, has_binary, result_format) refl in
        rw (code, found, chosen) refl
  ]

  get_or_at : (pre : List ℕ) (f : ℕ) (rest : List ℕ) → get_or (pre ++ f ∷ rest) (length pre) 0 ≡ f
  get_or_at [] f rest = refl
  get_or_at (x ∷ pre) f rest = get_or_at pre f rest

  format_for_at :
      (pre : List ℕ) (f : ℕ) (rest : List ℕ) (n : ℕ)
      → length (pre ++ f ∷ rest) ≡ n
      → format_for (pre ++ f ∷ rest) n (length pre) ≡ f
  unfolding format_for
  format_for_at [] f rest n e = ground arith
  format_for_at (x ∷ pre) f rest n e =
      ground (arith, get_or_at pre f rest, length-append pre (f ∷ rest))

  apply_loop-pick_result_formats :
      (cols : List Column) (pre : List ℕ) (n : ℕ)
      → length (pre ++ pick_result_formats cols) ≡ n
      → apply_loop (pre ++ pick_result_formats cols) n (length pre) cols ≡ map chosen cols
  unfolding apply_loop pick_result_formats
  apply_loop-pick_result_formats [] pre n e = refl
  apply_loop-pick_result_formats (c ∷ cols) pre n e =
      let f = result_format c in
      let fs = map result_format cols in
      let moved : (pre ++ f ∷ []) ++ fs ≡ pre ++ f ∷ fs = append_assoc pre (f ∷ []) fs in
      let next : suc (length pre) ≡ length (pre ++ f ∷ []) =
        omega (arith, length-append pre (f ∷ [])) in
      let ih = apply_loop-pick_result_formats cols (pre ++ f ∷ []) n (ap length moved ∙ e) in
      let rest : apply_loop (pre ++ f ∷ fs) n (suc (length pre)) cols ≡ map chosen cols =
        rw (next, ← moved) ih in
      ap₂ (λ (x : Column) (xs : List Column). x ∷ xs)
        (ap (λ (k : ℕ). apply_format k c) (format_for_at pre f fs n e)
          ∙ apply_format-result_format c)
        rest

  length-result_formats : (cols : List Column) → length (map result_format cols) ≡ length cols
  length-result_formats [] = refl
  length-result_formats (c ∷ cols) = ap suc (length-result_formats cols)

  -- The formats that `PickResultFormats` asks for make `ApplyFormats` give each column the binary
  -- encoder of its type, where there is one, and its text encoder otherwise, each with the format code
  -- that goes with it; no column gets the opaque fallback.
  pub apply_formats-pick_result_formats :
      (p : Plan) → (apply_formats (pick_result_formats p.columns) p).columns ≡ map chosen p.columns
  unfolding apply_formats pick_result_formats
  apply_formats-pick_result_formats p =
      apply_loop-pick_result_formats p.columns [] (length p.columns)
        (length-result_formats p.columns)
