-- ===== src/Scan/Values.antt =====
-- The types of fields, what fields hold, and the errors of pg2json/scan.go.
use pg2json.Common.{ℕ, Bool, Option, ◌⊎◌, Bytes}
use pg2json.Common.Int.{ℤ}

-- The kinds of integers; `int` and `uint` have 64 bits.
pub data IntKind : Type 0 where
  kind_int : IntKind
  kind_int8 : IntKind
  kind_int16 : IntKind
  kind_int32 : IntKind
  kind_int64 : IntKind
  kind_uint : IntKind
  kind_uint8 : IntKind
  kind_uint16 : IntKind
  kind_uint32 : IntKind
  kind_uint64 : IntKind

-- The types of fields. `go_null` is the wrapper of database/sql for a type, `go_array16` a [16]byte; a slice
-- of bytes is `go_bytes` and never a `go_slice`. `go_struct` has the types of the exported fields that
-- are not tagged "-". `go_scanner` is a named type over another whose pointer implements sql.Scanner.
mutual
  pub data GoType : Type 0 where
    go_bool : GoType
    go_int : IntKind → GoType
    go_float32 : GoType
    go_float64 : GoType
    go_string : GoType
    go_bytes : GoType
    go_array16 : GoType
    go_time : GoType
    go_range : GoType
    go_pointer : GoType → GoType
    go_null : GoType → GoType
    go_slice : GoType → GoType
    go_struct : FieldTypes → GoType
    go_scanner : GoType → GoType

  pub data FieldTypes : Type 0 where
    no_fields : FieldTypes
    field_type : GoType → FieldTypes → FieldTypes

-- `RangeBytes`
pub record RangeBytes : Type 0 where
  pub flags : ℕ
  pub lower : Option Bytes
  pub upper : Option Bytes
  pub is_empty : Bool
  pub lower_inclusive : Bool
  pub upper_inclusive : Bool
  pub lower_infinite : Bool
  pub upper_infinite : Bool

-- What a field holds. A time is its seconds since 1970 and its nanoseconds; a nil slice is
-- `v_nil_slice`, any other has its elements.
mutual
  pub data GoValue : Type 0 where
    v_bool : Bool → GoValue
    v_int : ℤ → GoValue
    v_float32 : ℕ → GoValue
    v_float64 : ℕ → GoValue
    v_string : Bytes → GoValue
    v_bytes : Option Bytes → GoValue
    v_array16 : Bytes → GoValue
    v_time : (seconds : ℤ) (nanoseconds : ℕ) → GoValue
    v_range : RangeBytes → GoValue
    v_nil : GoValue
    v_pointer : GoValue → GoValue
    v_null : (valid : Bool) → GoValue → GoValue
    v_nil_slice : GoValue
    v_slice : Elements → GoValue
    v_struct : Elements → GoValue

  pub data Elements : Type 0 where
    no_elements : Elements
    element : GoValue → Elements → Elements

pub data ScanError : Type 0 where
  bad_width : (expected got : ℕ) → ScanError
  bad_uuid : ScanError
  empty_range : ScanError
  short_bound : ScanError
  bad_bound : ScanError
  short_array : ScanError
  bad_dimensions : ℤ → ScanError
  short_element : ScanError
  bad_element : ScanError
  short_row : ScanError
  column_mismatch : ScanError
  short_header : ScanError
  bad_length : ScanError
  short_composite : ScanError
  bad_columns : ℤ → ScanError
  short_field : ScanError
  bad_field : ScanError
  no_field_setter : ScanError
  panicked : ScanError
  scan_failed : ScanError

-- A setter takes what the field holds and a cell, which is none for NULL.
abbrev pub Setter : Type 0
Setter = GoValue → Option Bytes → ScanError ⊎ GoValue
