-- ===== src/Scan/Row.antt =====
-- Rows into structs: inlineOpFor and fillStructRow of pg2json/scan.go. The fields of a struct are a list,
-- and a column's offset is a position in it.
use pg2json.Common.{
  ℕ, zero, suc, ◌-◌, ◌^◌, Bool, true, false, not, ◌||◌, Option, none, some, ◌⊎◌, inl, inr, List, [],
  ◌∷◌, Bytes, length, take, drop, get_or, ltb, ◌==◌, if◌then◌else◌,
}
use pg2json.Common.Int.{abs, is_neg, signed16, signed32, signed64}
use pg2json.GoStd.{be16, be32, be64}
use pg2json.Scan.{
  IntKind, kind_int, kind_int16, kind_int32, kind_int64, IntWidth, two_bytes, four_bytes,
  eight_bytes, GoType, go_bool, go_int, go_float32, go_float64, go_string, go_bytes, go_scanner,
  GoValue, v_bool, v_int, v_float32, v_float64, v_string, v_bytes, v_nil, ScanError, short_row,
  column_mismatch, short_header, bad_length, Setter, OidClass, class_bool, class_int, class_float4,
  class_float8, class_text, class_bytea, class_json, oid_class,
}

-- The opcodes of the inline dispatch.
pub data Op : Type 0 where
  op_fallback : Op
  op_int2_int16 : Op
  op_int2_int32 : Op
  op_int2_int64 : Op
  op_int4_int32 : Op
  op_int4_int64 : Op
  op_int8_int64 : Op
  op_float4_f32 : Op
  op_float4_f64 : Op
  op_float8_f64 : Op
  op_bool_bin : Op
  op_string_pass : Op
  op_byte_copy : Op

unfoldable pub int_op : IntWidth → IntKind → Op
int_op two_bytes kind_int16 = op_int2_int16
int_op two_bytes kind_int32 = op_int2_int32
int_op two_bytes kind_int64 = op_int2_int64
int_op two_bytes kind_int = op_int2_int64
int_op four_bytes kind_int32 = op_int4_int32
int_op four_bytes kind_int64 = op_int4_int64
int_op four_bytes kind_int = op_int4_int64
int_op eight_bytes kind_int64 = op_int8_int64
int_op eight_bytes kind_int = op_int8_int64
int_op width kind = op_fallback

unfoldable pub class_op : OidClass → GoType → Op
class_op c go_bool = elim c [ class_bool ↦ op_bool_bin | _ ↦ op_fallback ]
class_op c (go_int kind) = elim c [ class_int w ↦ int_op w kind | _ ↦ op_fallback ]
class_op c go_float32 = elim c [ class_float4 ↦ op_float4_f32 | _ ↦ op_fallback ]
class_op c go_float64 = elim c [
  | class_float4 ↦ op_float4_f64
  | class_float8 ↦ op_float8_f64
  | _ ↦ op_fallback
]
class_op c go_string = elim c [ class_text ↦ op_string_pass | _ ↦ op_fallback ]
class_op c go_bytes = elim c [
  | class_text ↦ op_byte_copy
  | class_bytea ↦ op_byte_copy
  | class_json ↦ op_byte_copy
  | _ ↦ op_fallback
]
class_op c (go_scanner t) = class_op c t
class_op c t = op_fallback

-- `inlineOpFor`, which looks at the kind of a type and not at its methods.
unfoldable pub inline_op : ℕ → Bool → GoType → Op
inline_op oid binary t = if binary then class_op (oid_class oid) t else op_fallback

-- A cell of the length that the opcode asks for.
abbrev pub when_length : ℕ → Bytes → GoValue → Option GoValue
when_length n raw v = if length raw == n then some v else none

-- `fieldSetter`
pub record FieldSetter : Type 0 where
  pub field : ℕ
  pub set : Setter
  pub op : Op
  pub skip : Bool

-- The field at a position.
unfoldable pub field_at : ℕ → List GoValue → GoValue
field_at i [] = v_nil
field_at zero (v ∷ vs) = v
field_at (suc i) (v ∷ vs) = field_at i vs

unfoldable pub store_at : ℕ → GoValue → List GoValue → List GoValue
store_at i v [] = []
store_at zero v (w ∷ vs) = v ∷ vs
store_at (suc i) v (w ∷ vs) = w ∷ store_at i v vs

-- A column's cell with what follows it, or an error.
unfoldable pub split_cell : Bytes → ScanError ⊎ (Option Bytes × Bytes)
split_cell body =
    let l = signed32 (be32 body 0) in
    let rest = drop 4 body in
    if ltb (length body) 4
    then inl short_header
    else if be32 body 0 == 2 ^ 32 - 1
    then inr (none, rest)
    else if is_neg l || ltb (length rest) (abs l)
    then inl bad_length
    else inr (some (take (abs l) rest), drop (abs l) rest)

module _ (widen : ℕ → ℕ) where
  -- The inline dispatch of `fillStructRow`; none falls through to the setter.
  unfoldable pub run_op : Op → Bytes → Option GoValue
  run_op op_fallback raw = none
  run_op op_int2_int16 raw = when_length 2 raw (v_int (signed16 (be16 raw 0)))
  run_op op_int2_int32 raw = when_length 2 raw (v_int (signed16 (be16 raw 0)))
  run_op op_int2_int64 raw = when_length 2 raw (v_int (signed16 (be16 raw 0)))
  run_op op_int4_int32 raw = when_length 4 raw (v_int (signed32 (be32 raw 0)))
  run_op op_int4_int64 raw = when_length 4 raw (v_int (signed32 (be32 raw 0)))
  run_op op_int8_int64 raw = when_length 8 raw (v_int (signed64 (be64 raw 0)))
  run_op op_float4_f32 raw = when_length 4 raw (v_float32 (be32 raw 0))
  run_op op_float4_f64 raw = when_length 4 raw (v_float64 (widen (be32 raw 0)))
  run_op op_float8_f64 raw = when_length 8 raw (v_float64 (be64 raw 0))
  run_op op_bool_bin raw = when_length 1 raw (v_bool (not (get_or raw 0 0 == 0)))
  run_op op_string_pass raw = some (v_string raw)
  run_op op_byte_copy raw = some (v_bytes (some raw))

  -- A cell that is no NULL goes through the opcode, and else through the setter.
  unfoldable pub write_cell : Op → Setter → GoValue → Option Bytes → ScanError ⊎ GoValue
  write_cell op set old none = set old none
  write_cell op set old (some raw) = elim (run_op op raw) [
    | some v ↦ inr v
    | none ↦ set old (some raw)
  ]

  -- The loop of `fillStructRow`.
  unfoldable pub fill_cells : List FieldSetter → Bytes → List GoValue → ScanError ⊎ List GoValue
  fill_cells [] body fields = inr fields
  fill_cells (s ∷ ss) body fields = elim (split_cell body) [
    | inl e ↦ inl e
    | inr (cell, rest) ↦ elim s.skip [
      | true ↦ fill_cells ss rest fields
      | false ↦ elim (write_cell s.op s.set (field_at s.field fields) cell) [
        | inl e ↦ inl e
        | inr v ↦ fill_cells ss rest (store_at s.field v fields)
      ]
    ]
  ]

  -- `fillStructRow`
  unfoldable pub fill_struct_row :
      List FieldSetter → Bytes → List GoValue → ScanError ⊎ List GoValue
  fill_struct_row ss body fields =
      let n = signed16 (be16 body 0) in
      if ltb (length body) 2
      then inl short_row
      else if is_neg n || not (abs n == length ss)
      then inl column_mismatch
      else fill_cells ss (drop 2 body) fields
