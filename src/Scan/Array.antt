-- ===== src/Scan/Array.antt =====
-- The setters of ranges and arrays of pg2json/scan.go, and the choice among all setters.
use pg2json.Common.{
  List, ℕ, zero, suc, ◌-◌, ◌/◌, ◌%◌, ◌^◌, Bool, true, false, not, ◌&&◌, ◌||◌, Option, none, some,
  ◌⊎◌, inl, inr, [], ◌∷◌, Bytes, length, take, drop, ltb, ◌==◌, if◌then◌else◌,
}
use pg2json.Common.Int.{pos, negsuc, abs, is_neg, is_zero, signed32}
use pg2json.GoStd.{be32}
use pg2json.Protocol.{is_range, array_elem}
use pg2json.Scan.Composite.{composite_setter}
use pg2json.Scan.Scanner.{DriverValue, scanner_setter}
use pg2json.Scan.{
  GoType, go_bool, go_int, go_float32, go_float64, go_string, go_bytes, go_array16, go_time,
  go_range, go_pointer, go_null, go_slice, RangeBytes, GoValue, v_bool, v_int, v_float32, v_float64,
  v_string, v_bytes, v_array16, v_time, v_range, v_nil, v_pointer, v_null, v_nil_slice, v_slice,
  v_struct, FieldTypes, no_fields, field_type, go_struct, go_scanner, Elements, no_elements,
  element, ScanError, empty_range, short_bound, bad_bound, short_array, bad_dimensions,
  short_element, bad_element, Setter, oid_class, binary_setter, text_setter,
}

-- A flag bit of a range.
abbrev flag : ℕ → ℕ → Bool
flag flags bit = not (flags / bit % 2 == 0)

-- A bound, if it is there, and what is behind it; one of no bytes is copied to a nil slice.
unfoldable pub read_bound : Bool → Bytes → ScanError ⊎ (Option Bytes × Bytes)
read_bound infinite body =
    let l = signed32 (be32 body 0) in
    let rest = drop 4 body in
    if infinite
    then inr (none, body)
    else if ltb (length body) 4
    then inl short_bound
    else if is_neg l || ltb (length rest) (abs l)
    then inl bad_bound
    else inr (if is_zero l then none else some (take (abs l) rest), drop (abs l) rest)

abbrev pub no_range : RangeBytes
no_range = record {
  flags = 0;
  lower = none;
  upper = none;
  is_empty = false;
  lower_inclusive = false;
  upper_inclusive = false;
  lower_infinite = false;
  upper_infinite = false;
}

-- `pickRangeSetter`'s setter.
unfoldable pub range_setter : Setter
range_setter old none = inr (v_range no_range)
range_setter old (some []) = inl empty_range
range_setter old (some (flags ∷ body)) =
    let rb : RangeBytes = record {
      flags = flags;
      lower = none;
      upper = none;
      is_empty = flag flags 1;
      lower_inclusive = flag flags 2;
      upper_inclusive = flag flags 4;
      lower_infinite = flag flags 8;
      upper_infinite = flag flags 16;
    } in
    if rb.is_empty then inr (v_range rb) else elim (read_bound rb.lower_infinite body) [
      | inl e ↦ inl e
      | inr (lower, rest) ↦ elim (read_bound rb.upper_infinite rest) [
        | inl e ↦ inl e
        | inr (upper, more) ↦ inr (v_range (record rb { lower = lower; upper = upper }))
      ]
    ]

-- `readArrayElem`
unfoldable pub read_array_elem : Bytes → ScanError ⊎ (Option Bytes × Bytes)
read_array_elem raw =
    let l = signed32 (be32 raw 0) in
    let rest = drop 4 raw in
    if ltb (length raw) 4
    then inl short_element
    else if be32 raw 0 == 2 ^ 32 - 1
    then inr (none, rest)
    else if is_neg l || ltb (length rest) (abs l)
    then inl bad_element
    else inr (some (take (abs l) rest), drop (abs l) rest)

-- `n` elements that begin as `blank`, and what is behind them.
unfoldable pub read_elements : Setter → GoValue → ℕ → Bytes → ScanError ⊎ (Elements × Bytes)
read_elements set blank zero raw = inr (no_elements, raw)
read_elements set blank (suc n) raw = elim (read_array_elem raw) [
  | inl e ↦ inl e
  | inr (cell, rest) ↦ elim (set blank cell) [
    | inl e ↦ inl e
    | inr v ↦ elim (read_elements set blank n rest) [
      | inl e ↦ inl e
      | inr (vs, more) ↦ inr (element v vs, more)
    ]
  ]
]

-- `n` rows of `m` elements.
unfoldable pub read_rows : Setter → GoValue → ℕ → ℕ → Bytes → ScanError ⊎ Elements
read_rows set blank zero m raw = inr no_elements
read_rows set blank (suc n) m raw = elim (read_elements set blank m raw) [
  | inl e ↦ inl e
  | inr (vs, rest) ↦ elim (read_rows set blank n m rest) [
    | inl e ↦ inl e
    | inr rows ↦ inr (element (v_slice vs) rows)
  ]
]

-- The setter of a slice in `pickArraySetter`.
unfoldable pub array_setter : Setter → GoValue → Setter
array_setter set blank old none = inr v_nil_slice
array_setter set blank old (some raw) =
    let ndim = signed32 (be32 raw 0) in
    let dims = drop 12 raw in
    let len = signed32 (be32 dims 0) in
    if ltb (length raw) 12
    then inl short_array
    else if is_zero ndim
    then inr (v_slice no_elements)
    else if not (be32 raw 0 == 1)
    then inl (bad_dimensions ndim)
    else if ltb (length dims) 8
    then inl short_array
    else if is_neg len
    then inl (bad_dimensions len)
    else elim (read_elements set blank (abs len) (drop 8 dims)) [
      | inl e ↦ inl e
      | inr (vs, rest) ↦ inr (v_slice vs)
    ]

-- The setter of a slice of slices.
unfoldable pub matrix_setter : Setter → GoValue → Setter
matrix_setter set blank old none = inr v_nil_slice
matrix_setter set blank old (some raw) =
    let ndim = signed32 (be32 raw 0) in
    let dims = drop 12 raw in
    let outer = signed32 (be32 dims 0) in
    let inner = signed32 (be32 dims 8) in
    if ltb (length raw) 12
    then inl short_array
    else if is_zero ndim
    then inr (v_slice no_elements)
    else if not (be32 raw 0 == 2)
    then inl (bad_dimensions ndim)
    else if ltb (length dims) 16
    then inl short_array
    else if is_neg outer || is_neg inner
    then inl (bad_dimensions outer)
    else elim (read_rows set blank (abs outer) (abs inner) (drop 16 dims)) [
      | inl e ↦ inl e
      | inr rows ↦ inr (v_slice rows)
    ]

-- The zero value of a type.
unfoldable mutual
  pub zero_value : GoType → GoValue
  zero_value go_bool = v_bool false
  zero_value (go_int kind) = v_int (pos 0)
  zero_value go_float32 = v_float32 0
  zero_value go_float64 = v_float64 0
  zero_value go_string = v_string []
  zero_value go_bytes = v_bytes none
  zero_value go_array16 =
      v_array16 (0 ∷ 0 ∷ 0 ∷ 0 ∷ 0 ∷ 0 ∷ 0 ∷ 0 ∷ 0 ∷ 0 ∷ 0 ∷ 0 ∷ 0 ∷ 0 ∷ 0 ∷ 0 ∷ [])
  zero_value go_time = v_time (negsuc 62135596799) 0
  zero_value go_range = v_range no_range
  zero_value (go_pointer t) = v_nil
  zero_value (go_null t) = v_null false (zero_value t)
  zero_value (go_slice t) = v_nil_slice
  zero_value (go_struct ts) = v_struct (zero_fields ts)
  zero_value (go_scanner t) = zero_value t

  pub zero_fields : FieldTypes → Elements
  zero_fields no_fields = no_elements
  zero_fields (field_type t ts) = element (zero_value t) (zero_fields ts)

-- The setter of a pointer: nil for NULL, else a new value.
unfoldable pub pointer_setter : Setter → GoValue → Setter
pointer_setter inner blank old none = inr v_nil
pointer_setter inner blank old (some raw) = elim (inner blank (some raw)) [
  | inl e ↦ inl e
  | inr v ↦ inr (v_pointer v)
]

-- `nullSetterWrap`, on the wrapped value that there is.
abbrev pub wrapped : GoValue → GoValue → GoValue
wrapped blank old = elim old [ v_null valid v ↦ v | _ ↦ blank ]

unfoldable pub null_setter : Setter → GoValue → Setter
null_setter inner blank old none = inr (v_null false (wrapped blank old))
null_setter inner blank old (some raw) = elim (inner (wrapped blank old) (some raw)) [
  | inl e ↦ inl e
  | inr v ↦ inr (v_null true v)
]

-- Scan of a type that implements sql.Scanner, given its underlying type.
abbrev pub ScanMethod : Type 0
ScanMethod = GoType → GoValue → Option DriverValue → ScanError ⊎ GoValue

module _ (widen : ℕ → ℕ) (scan : ScanMethod) where
  -- The setter of a value that is none of the others, in the format of the column.
  unfoldable pub plain_setter : ℕ → Bool → GoType → Option Setter
  plain_setter oid binary t =
      if binary then binary_setter widen (oid_class oid) t else text_setter t

  unfoldable mutual
    -- `pickSetter`; none stands for its error. `binary` says that the format code is 1.
    pub pick_setter : ℕ → Bool → GoType → Option Setter
    pick_setter oid binary (go_null t) = elim (pick_setter oid binary t) [
      | none ↦ none
      | some inner ↦ some (null_setter inner (zero_value t))
    ]
    pick_setter oid binary (go_scanner t) = some (scanner_setter widen (scan t) oid binary)
    pick_setter oid binary (go_pointer t) = elim (pick_setter oid binary t) [
      | none ↦ none
      | some inner ↦ some (pointer_setter inner (zero_value t))
    ]
    pick_setter oid binary go_range =
        if binary && is_range oid then some range_setter else plain_setter oid binary go_range
    pick_setter oid binary (go_struct no_fields) = none
    pick_setter oid binary (go_struct (field_type t ts)) =
        let choices = (λ (o : ℕ). pick_setter o true t) ∷ field_setters ts in
        if binary
        then some (composite_setter choices (element (zero_value t) (zero_fields ts)))
        else none
    pick_setter oid binary (go_slice (go_slice (go_slice t))) = none
    pick_setter oid binary (go_slice (go_slice t)) = elim (pick_setter (array_elem oid) true t) [
      | none ↦ none
      | some inner ↦
          if binary && not (array_elem oid == 0)
          then some (matrix_setter inner (zero_value t))
          else none
    ]
    pick_setter oid binary (go_slice t) = elim (pick_setter (array_elem oid) true t) [
      | none ↦ none
      | some inner ↦
          if binary && not (array_elem oid == 0)
          then some (array_setter inner (zero_value t))
          else none
    ]
    pick_setter oid binary t = plain_setter oid binary t

    -- The choice of a setter for each field of a composite.
    pub field_setters : FieldTypes → List (ℕ → Option Setter)
    field_setters no_fields = []
    field_setters (field_type t ts) = (λ (o : ℕ). pick_setter o true t) ∷ field_setters ts
