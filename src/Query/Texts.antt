-- ===== src/Query/Texts.antt =====
-- The texts that a response of pg2json/query.go consists of, in each mode.
use pg2json.Common.{
  ℕ, suc, ◌≡◌, inl, inr, refl, ap, ◌∙◌, Option, List, [], ◌∷◌, ◌++◌, append-nil, append_assoc,
  Bytes, codes, ltb, Bool-cases, if◌then◌else◌,
}
use pg2json.Rows.{Plan, wrote, closed}
use pg2json.Rows.Server.{data_row}
use pg2json.Rows.Output.{
  joined, values, entries, IsRow, append_object-data_row, append_array-data_row,
  append_toon_row-data_row,
}
use pg2json.Query.{Mode, mode_array, mode_ndjson, mode_columnar, mode_toon, separated, append_row}

abbrev pub row_text : Mode → Plan → List (Option Bytes) → Bytes
row_text mode_array plan cells = b'{' ∷ (joined (entries plan.columns cells) ++ codes "}")
row_text mode_ndjson plan cells = b'{' ∷ (joined (entries plan.columns cells) ++ codes "}\n")
row_text mode_columnar plan cells = b'[' ∷ (joined (values plan.columns cells) ++ codes "]")
row_text mode_toon plan cells = joined (values plan.columns cells) ++ codes "\n"

-- Row `n` with what separates it from the one before.
abbrev pub separator : Mode → ℕ → Bytes
separator mode_array n = if ltb 0 n then codes "," else []
separator mode_ndjson n = []
separator mode_columnar n = if ltb 0 n then codes "," else []
separator mode_toon n = []

abbrev pub rows_text : Mode → Plan → ℕ → List (List (Option Bytes)) → Bytes
rows_text mode plan n [] = []
rows_text mode plan n (cells ∷ rows) =
    (separator mode n ++ row_text mode plan cells) ++ rows_text mode plan (suc n) rows

abbrev pub header_text : Mode → Plan → Bytes
header_text mode_array plan = codes "["
header_text mode_ndjson plan = []
header_text mode_columnar plan = plan.columns_array_header
header_text mode_toon plan = plan.toon_header

abbrev pub footer_text : Mode → Bytes
footer_text mode_array = codes "]"
footer_text mode_ndjson = []
footer_text mode_columnar = codes "]}"
footer_text mode_toon = []

-- The whole response.
abbrev pub document : Mode → Plan → List (List (Option Bytes)) → Bytes
document mode plan rows = header_text mode plan ++ (rows_text mode plan 0 rows ++ footer_text mode)

separated_lem :
    (n : ℕ) (scratch out : Bytes)
    → (if ltb 0 n then scratch ++ codes "," else scratch) ++ out
      ≡ scratch ++ ((if ltb 0 n then codes "," else []) ++ out)
separated_lem n scratch out = elim (Bool-cases (ltb 0 n)) [
  | inl later ↦ rw later (append_assoc scratch (codes ",") out)
  | inr first ↦ rw first refl
]

pub append_row-data_row :
    (mode : Mode) (plan : Plan) (cells : List (Option Bytes)) (n : ℕ) (scratch : Bytes)
    → IsRow plan.columns cells
    → append_row mode plan (data_row cells) n scratch
      ≡ wrote (scratch ++ (separator mode n ++ row_text mode plan cells))
unfolding append_row closed
append_row-data_row mode_array plan cells n scratch r =
    let e = append_object-data_row plan cells (separated n scratch) [] r in
    rw append-nil at e ∙ ap wrote (separated_lem n scratch _)
append_row-data_row mode_ndjson plan cells n scratch r =
    let e = append_object-data_row plan cells scratch [] r in
    ap (closed (codes "\n")) (rw append-nil at e) ∙ simp (append_assoc)
append_row-data_row mode_columnar plan cells n scratch r =
    let e = append_array-data_row plan cells (separated n scratch) [] r in
    rw append-nil at e ∙ ap wrote (separated_lem n scratch _)
append_row-data_row mode_toon plan cells n scratch r =
    let e = append_toon_row-data_row plan cells scratch [] r in rw append-nil at e
