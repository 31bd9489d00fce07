-- ===== src/Examples/Scans.antt =====
-- The theorem about rows that are scanned into structs at a concrete input.
use pg2json.Common.{
  inl, ℕ, Bytes, ◌≡◌, refl, List, Option, none, some, All, IsByte, true, false, [], ◌∷◌, map, arith,
  ◌==◌, if◌then◌else◌, codes, length,
}
use pg2json.Common.Int.{pos, negsuc}
use pg2json.Rows.{Column}
use pg2json.Types.Text.{pick}
use pg2json.Scan.{
  GoType, kind_int32, four_bytes, go_int, v_int, v_string, scan_failed, int_setter, binary_setter,
  oid_class,
}
use pg2json.Scan.Array.{ScanMethod, plain_setter, pick_setter}
use pg2json.Scan.Row.{FieldSetter, inline_op, fill_struct_row}
use pg2json.Scan.Equivalence.{without_op}
use pg2json.Scan.Fast.{is_scanner}
use pg2json.Scan.Build.{
  skipped, IsUnscanned, build_setter, build_struct_plan, fill_struct_row-build_struct_plan,
}

-- Two columns of type int4 in binary; the struct has a field for the one whose name has one byte.
abbrev column : Bytes → Column
column name = record {
  name = name;
  table_oid = 0;
  attr_num = pos 0;
  type_oid = 23;
  type_mod = negsuc 0;
  type_len = pos 4;
  format = pos 1;
  encoder = pick 23;
  key_prefix = [];
  key_prefix_comma = [];
}

abbrev columns : List Column
columns = column (codes "n") ∷ column (codes "other") ∷ []

abbrev index : Bytes → Option (ℕ × GoType)
index name = if length name == 1 then some (0, go_int kind_int32) else none

abbrev setters : List FieldSetter
setters =
    record {
      field = 0;
      set = int_setter kind_int32 four_bytes;
      op = inline_op 23 true (go_int kind_int32);
      skip = false;
    }
    ∷ skipped
    ∷ []

abbrev no_scan : ScanMethod
no_scan t old v = inl scan_failed

columns-IsUnscanned : All (λ c. IsUnscanned (index c.name)) columns
unfolding is_scanner
columns-IsUnscanned = (refl, (tt, tt))

columns-setters : build_struct_plan (λ w. w) no_scan index columns ≡ some setters
unfolding build_struct_plan build_setter pick_setter plain_setter binary_setter oid_class
columns-setters = refl

-- The fields -2 and NULL.
abbrev row : Bytes
row = 0 ∷ 2 ∷ 0 ∷ 0 ∷ 0 ∷ 4 ∷ 255 ∷ 255 ∷ 255 ∷ 254 ∷ 255 ∷ 255 ∷ 255 ∷ 255 ∷ []

row-IsByte : All IsByte row
row-IsByte =
    let low : IsByte 0 = omega arith in
    let high : IsByte 255 = omega arith in
    (
      low,
      (
        omega arith,
        (
          low,
          (
            low,
            (
              low,
              (
                omega arith,
                (high, (high, (high, (omega arith, (high, (high, (high, (high, tt)))))))),
              ),
            ),
          ),
        ),
      ),
    )

fill_struct_row-build_struct_plan_example :
    fill_struct_row (λ w. w) setters row (v_int (pos 0) ∷ v_string [] ∷ [])
    ≡ fill_struct_row (λ w. w) (map without_op setters) row (v_int (pos 0) ∷ v_string [] ∷ [])
fill_struct_row-build_struct_plan_example =
    fill_struct_row-build_struct_plan (λ w. w) no_scan index columns setters row
      (v_int (pos 0) ∷ v_string [] ∷ []) columns-IsUnscanned columns-setters row-IsByte
