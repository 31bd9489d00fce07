-- ===== src/Examples/RowTexts.antt =====
-- Examples for internal/rows: a result with a column of floats and one of texts.
use pg2json.Common.{◌≡◌, inr, Option, none, some, List, [], ◌∷◌, ◌++◌, map, arith, Bytes, codes}
use pg2json.Rows.{
  Plan, wrote, plan_of, parse_row_description, append_object, append_array, append_toon_row,
}
use pg2json.Rows.Server.{data_row}
use pg2json.Rows.Describe.{
  Field, IsField, described, row_description, parse_row_description-row_description,
}
use pg2json.Rows.Output.{
  joined, values, entries, IsRow, append_object-data_row, append_array-data_row,
  append_toon_row-data_row,
}
use pg2json.Types.Binary.{FloatPrinter}
use pg2json.Rows.Formats.{
  apply_formats, pick_result_formats, chosen, apply_formats-pick_result_formats,
}
use pg2json.Rows.Valid.{IsTexts, WritesRow, append_row-IsJson, texts-IsRow}
use pg2json.Examples.Cells.{not_a_number}

abbrev pub float_field : Field
float_field = record {
  name = codes "v";
  table = 0;
  attr = 1;
  oid = 701;
  size = 8;
  modifier = 4294967295;
  code = 0;
}

abbrev pub text_field : Field
text_field = record {
  name = codes "t\"x";
  table = 16384;
  attr = 2;
  oid = 25;
  size = 65535;
  modifier = 4294967295;
  code = 0;
}

abbrev pub fields : List Field
fields = float_field ∷ text_field ∷ []

abbrev pub cells : List (Option Bytes)
cells = some (codes "NaN") ∷ none ∷ []

abbrev plan : Plan
plan = plan_of (map described fields)

pub texts : IsTexts fields cells
texts = ((not_a_number, omega arith), (tt, tt))

row : IsRow (map described fields) cells
row = texts-IsRow fields cells texts (omega arith)

pub float_field-IsField : IsField float_field
float_field-IsField = record {
  name = ground arith;
  table = omega arith;
  attr = omega arith;
  oid = omega arith;
  size = omega arith;
  modifier = omega arith;
  code = omega arith;
}

pub text_field-IsField : IsField text_field
text_field-IsField = record {
  name = ground arith;
  table = omega arith;
  attr = omega arith;
  oid = omega arith;
  size = omega arith;
  modifier = omega arith;
  code = omega arith;
}

parse_row_description-row_description_example :
    parse_row_description (row_description fields) ≡ inr (plan_of (map described fields))
parse_row_description-row_description_example =
    parse_row_description-row_description fields (float_field-IsField, (text_field-IsField, tt))
      (omega arith)

append_object-data_row_example :
    append_object (codes "[") (data_row cells ++ []) plan
    ≡ wrote (codes "[" ++ b'{' ∷ (joined (entries plan.columns cells) ++ codes "}"))
unfolding plan_of
append_object-data_row_example = append_object-data_row plan cells (codes "[") [] row

append_array-data_row_example :
    append_array (codes "[") (data_row cells ++ []) plan
    ≡ wrote (codes "[" ++ b'[' ∷ (joined (values plan.columns cells) ++ codes "]"))
unfolding plan_of
append_array-data_row_example = append_array-data_row plan cells (codes "[") [] row

append_toon_row-data_row_example :
    append_toon_row [] (data_row cells ++ []) plan
    ≡ wrote ([] ++ (joined (values plan.columns cells) ++ codes "\n"))
unfolding plan_of
append_toon_row-data_row_example = append_toon_row-data_row plan cells [] [] row

append_row-IsJson_example :
    WritesRow append_object fields (data_row cells ++ [])
    × WritesRow append_array fields (data_row cells ++ [])
append_row-IsJson_example = append_row-IsJson fields cells [] texts (omega arith)

-- No digits for any float.
abbrev no_digits : FloatPrinter
no_digits width bits = []

apply_formats-pick_result_formats_example :
    (apply_formats no_digits (pick_result_formats no_digits plan.columns) plan).columns
    ≡ map (chosen no_digits) plan.columns
apply_formats-pick_result_formats_example = apply_formats-pick_result_formats no_digits plan
