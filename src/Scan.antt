-- ===== src/Scan.antt =====
-- Scanning a cell into a field of a struct: the setters of pg2json/scan.go. A field is a value that a
-- setter replaces, in place of memory behind an unsafe pointer. Floats are their bit patterns, and the
-- conversion of a float32 to a float64 is a parameter. Reflection is a data type of the fields' types;
-- slices of slices of slices are left out. A setter's error ends the scan, so what it has written by
-- then is lost.
pub mod Values
pub mod Composite
pub mod Scanner
pub mod Array
pub mod Row
pub mod Fast
pub mod Equivalence
pub mod Build
use pg2json.Common.{
  ℕ, zero, suc, ◌+◌, ◌-◌, ◌*◌, ◌/◌, ◌%◌, ◌^◌, Bool, true, false, not, ◌&&◌, ◌||◌, Option, none,
  some, ◌⊎◌, inl, inr, List, [], ◌∷◌, ◌++◌, Bytes, length, take, drop, get_or, ltb, ◌==◌,
  if◌then◌else◌,
}
use pg2json.Common.Int.{
  ℤ, pos, negsuc, ◌+ℤ◌, ◌-ℤ◌, scale, quot, rem, is_neg, signed16, signed32, signed64, to_word,
}
pub use pg2json.Scan.Values.{
  IntKind, kind_int, kind_int8, kind_int16, kind_int32, kind_int64, kind_uint, kind_uint8,
  kind_uint16, kind_uint32, kind_uint64, GoType, go_bool, go_int, go_float32, go_float64, go_string,
  go_bytes, go_array16, go_time, go_range, go_pointer, go_null, go_slice, go_struct, go_scanner,
  FieldTypes, no_fields, field_type, RangeBytes, GoValue, v_bool, v_int, v_float32, v_float64,
  v_string, v_bytes, v_array16, v_time, v_range, v_nil, v_pointer, v_null, v_nil_slice, v_slice,
  v_struct, Elements, no_elements, element, ScanError, bad_width, bad_uuid, empty_range,
  short_bound, bad_bound, short_array, bad_dimensions, short_element, bad_element, short_row,
  column_mismatch, short_header, bad_length, short_composite, bad_columns, short_field, bad_field,
  no_field_setter, panicked, scan_failed, Setter,
}
use pg2json.GoStd.{be16, be32, be64}
use pg2json.Args.{hex_text}
use pg2json.Protocol.{
  oid_bool, oid_int2, oid_int4, oid_oid, oid_int8, oid_float4, oid_float8, oid_text, oid_varchar,
  oid_bp_char, oid_name, oid_uuid, oid_bytea, oid_json, oid_jsonb, oid_date, oid_timestamp,
  oid_timestamp_tz,
}

-- The conversion of an int64 to a kind.
abbrev pub signed8 : ℕ → ℤ
signed8 w = if ltb w 128 then pos w else negsuc (256 - w - 1)

unfoldable pub convert : IntKind → ℤ → ℤ
convert kind_int v = v
convert kind_int8 v = signed8 (to_word (2 ^ 8) v)
convert kind_int16 v = signed16 (to_word (2 ^ 16) v)
convert kind_int32 v = signed32 (to_word (2 ^ 32) v)
convert kind_int64 v = v
convert kind_uint v = pos (to_word (2 ^ 64) v)
convert kind_uint8 v = pos (to_word (2 ^ 8) v)
convert kind_uint16 v = pos (to_word (2 ^ 16) v)
convert kind_uint32 v = pos (to_word (2 ^ 32) v)
convert kind_uint64 v = pos (to_word (2 ^ 64) v)

-- The widths that `intSetter` is called with.
pub data IntWidth : Type 0 where
  two_bytes : IntWidth
  four_bytes : IntWidth
  eight_bytes : IntWidth

abbrev pub width_bytes : IntWidth → ℕ
width_bytes two_bytes = 2
width_bytes four_bytes = 4
width_bytes eight_bytes = 8

unfoldable pub read_int : IntWidth → Bytes → ℤ
read_int two_bytes raw = signed16 (be16 raw 0)
read_int four_bytes raw = signed32 (be32 raw 0)
read_int eight_bytes raw = signed64 (be64 raw 0)

-- `intSetter`
unfoldable pub int_setter : IntKind → IntWidth → Setter
int_setter kind width old none = inr old
int_setter kind width old (some raw) =
    if length raw == width_bytes width
    then inr (v_int (convert kind (read_int width raw)))
    else inl (bad_width (width_bytes width) (length raw))

-- `stringSetter`
unfoldable pub string_setter : Setter
string_setter old none = inr (v_string [])
string_setter old (some raw) = inr (v_string raw)

-- The version byte of jsonb is dropped.
unfoldable pub strip_version : Bytes → Bytes
strip_version [] = []
strip_version (c ∷ raw) = if c == 1 then raw else c ∷ raw

-- `byteSliceSetter`
unfoldable pub byte_slice_setter : Bool → Setter
byte_slice_setter strip old none = inr (v_bytes none)
byte_slice_setter strip old (some raw) =
    inr (v_bytes (some (if strip then strip_version raw else raw)))

unfoldable pub jsonb_string_setter : Setter
jsonb_string_setter old none = inr (v_string [])
jsonb_string_setter old (some raw) = inr (v_string (strip_version raw))

-- `uuidStringSetter`
unfoldable pub uuid_string_setter : Setter
uuid_string_setter old none = inr (v_string [])
uuid_string_setter old (some raw) =
    let part : ℕ → ℕ → Bytes = λ from n. hex_text (take n (drop from raw)) in
    if length raw == 16
    then inr (
        v_string (
          part 0 4
          ++ b'-' ∷ (part 4 2 ++ b'-' ∷ (part 6 2 ++ b'-' ∷ (part 8 2 ++ b'-' ∷ part 10 6)))))
    else inl bad_uuid

-- `pgUsecToTime`; Go's division truncates.
unfoldable pub pg_usec_to_time : ℤ → GoValue
pg_usec_to_time usec =
    let sec = pos 946684800 +ℤ quot usec 1000000 in
    let nsec = scale (rem usec 1000000) 1000 in
    if is_neg nsec
    then v_time (sec -ℤ pos 1) (to_word (2 ^ 64) (nsec +ℤ pos 1000000000))
    else v_time sec (to_word (2 ^ 64) nsec)

unfoldable pub bool_setter : Setter
bool_setter old none = inr (v_bool false)
bool_setter old (some raw) = inr (v_bool (length raw == 1 && not (get_or raw 0 0 == 0)))

-- Cells of another length leave the field as it is.
unfoldable pub fixed_setter : ℕ → (Bytes → Option GoValue) → Setter
fixed_setter n read old none = inr old
fixed_setter n read old (some raw) =
    if length raw == n then (elim (read raw) [ none ↦ inr old | some v ↦ inr v ]) else inr old

-- A date in microseconds, which wraps at 64 bits; its two infinities are left out.
unfoldable pub read_date : Bytes → Option GoValue
read_date raw =
    let w = be32 raw 0 in
    let usec = signed64 (to_word (2 ^ 64) (scale (signed32 w) (86400 * 1000000))) in
    if w == 2 ^ 31 - 1 || w == 2 ^ 31 then none else some (pg_usec_to_time usec)

unfoldable pub read_timestamp : Bytes → Option GoValue
read_timestamp raw =
    let w = be64 raw 0 in
    if w == 2 ^ 63 - 1 || w == 2 ^ 63 then none else some (pg_usec_to_time (signed64 w))

-- The cases of the OID in `pickBinarySetter` and `inlineOpFor`.
pub data OidClass : Type 0 where
  class_bool : OidClass
  class_int : IntWidth → OidClass
  class_float4 : OidClass
  class_float8 : OidClass
  class_text : OidClass
  class_uuid : OidClass
  class_bytea : OidClass
  class_json : OidClass
  class_jsonb : OidClass
  class_date : OidClass
  class_timestamp : OidClass
  class_other : OidClass

unfoldable pub oid_class : ℕ → OidClass
oid_class o =
    if o == oid_bool
    then class_bool
    else if o == oid_int2
    then class_int two_bytes
    else if o == oid_int4 || o == oid_oid
    then class_int four_bytes
    else if o == oid_int8
    then class_int eight_bytes
    else if o == oid_float4
    then class_float4
    else if o == oid_float8
    then class_float8
    else if o == oid_text || (o == oid_varchar || (o == oid_bp_char || o == oid_name))
    then class_text
    else if o == oid_uuid
    then class_uuid
    else if o == oid_bytea
    then class_bytea
    else if o == oid_json
    then class_json
    else if o == oid_jsonb
    then class_jsonb
    else if o == oid_date
    then class_date
    else if o == oid_timestamp || o == oid_timestamp_tz
    then class_timestamp
    else class_other

module _ (widen : ℕ → ℕ) where
  -- `pickBinarySetter`; none stands for its error.
  unfoldable pub binary_setter : OidClass → GoType → Option Setter
  binary_setter c go_bool = elim c [ class_bool ↦ some bool_setter | _ ↦ none ]
  binary_setter c (go_int kind) = elim c [ class_int w ↦ some (int_setter kind w) | _ ↦ none ]
  binary_setter c go_float32 = elim c [
    | class_float4 ↦ some (fixed_setter 4 (λ raw. some (v_float32 (be32 raw 0))))
    | _ ↦ none
  ]
  binary_setter c go_float64 = elim c [
    | class_float4 ↦ some (fixed_setter 4 (λ raw. some (v_float64 (widen (be32 raw 0)))))
    | class_float8 ↦ some (fixed_setter 8 (λ raw. some (v_float64 (be64 raw 0))))
    | _ ↦ none
  ]
  binary_setter c go_string = elim c [
    | class_text ↦ some string_setter
    | class_uuid ↦ some uuid_string_setter
    | class_json ↦ some string_setter
    | class_jsonb ↦ some jsonb_string_setter
    | _ ↦ none
  ]
  binary_setter c go_bytes = elim c [
    | class_text ↦ some (byte_slice_setter false)
    | class_bytea ↦ some (byte_slice_setter false)
    | class_json ↦ some (byte_slice_setter false)
    | class_jsonb ↦ some (byte_slice_setter true)
    | _ ↦ none
  ]
  binary_setter c go_array16 = elim c [
    | class_uuid ↦ some (fixed_setter 16 (λ raw. some (v_array16 raw)))
    | _ ↦ none
  ]
  binary_setter c go_time = elim c [
    | class_date ↦ some (fixed_setter 4 read_date)
    | class_timestamp ↦ some (fixed_setter 8 read_timestamp)
    | _ ↦ none
  ]
  binary_setter c go_range = none
  binary_setter c (go_pointer t) = none
  binary_setter c (go_null t) = none
  binary_setter c (go_slice t) = none
  binary_setter c (go_struct ts) = none
  binary_setter c (go_scanner t) = none

-- `pickTextSetter`
unfoldable pub text_setter : GoType → Option Setter
text_setter go_string = some string_setter
text_setter go_bytes = some (byte_slice_setter false)
text_setter go_bool = none
text_setter (go_int kind) = none
text_setter go_float32 = none
text_setter go_float64 = none
text_setter go_array16 = none
text_setter go_time = none
text_setter go_range = none
text_setter (go_pointer t) = none
text_setter (go_null t) = none
text_setter (go_slice t) = none
text_setter (go_struct ts) = none
text_setter (go_scanner t) = none
