-- ===== src/Scan/Fast.antt =====
-- The inline dispatch of pg2json/scan.go does what the setters do.
use pg2json.Common.{
  ℕ, zero, suc, ◌+◌, ◌^◌, ◌<◌, ◌≡◌, refl, sym, inl, inr, Bool, true, false, not, none, some, [],
  ◌∷◌, Bytes, All, IsByte, length, get_or, ◌==◌, if◌then◌else◌, arith, Bool-cases,
}
use pg2json.Common.Int.{signed16, signed32, signed64, to_word}
use pg2json.GoStd.{be16, be32, be64}
use pg2json.Scan.{
  IntKind, kind_int, kind_int16, kind_int32, kind_int64, IntWidth, two_bytes, four_bytes,
  eight_bytes, GoType, go_bool, go_int, go_float32, go_float64, go_string, go_bytes, go_array16,
  go_time, go_range, go_pointer, go_null, go_slice, go_struct, go_scanner, GoValue, v_int, v_bool,
  v_float32, v_float64, Setter, OidClass, class_bool, class_int, class_float4, class_float8,
  class_text, class_bytea, class_json, oid_class, convert, read_int, int_setter, string_setter,
  byte_slice_setter, bool_setter, fixed_setter, binary_setter,
}
use pg2json.Scan.Array.{ScanMethod, plain_setter, pick_setter}
use pg2json.Scan.Row.{
  Op, op_fallback, op_float4_f32, op_float4_f64, op_float8_f64, op_bool_bin, op_string_pass,
  op_byte_copy, int_op, class_op, inline_op, run_op, write_cell,
}

byte_at : (raw : Bytes) (i : ℕ) → All IsByte raw → get_or raw i 0 < 256
byte_at [] i h = omega arith
byte_at (c ∷ raw) zero (b, h) = b
byte_at (c ∷ raw) (suc i) (b, h) = byte_at raw i h

be16-bound : (raw : Bytes) (i : ℕ) → All IsByte raw → be16 raw i < 2 ^ 16
be16-bound raw i h = omega (arith, byte_at raw i h, byte_at raw (i + 1) h)

be32-bound : (raw : Bytes) (i : ℕ) → All IsByte raw → be32 raw i < 2 ^ 32
be32-bound raw i h = omega (arith, be16-bound raw i h, be16-bound raw (i + 2) h)

-- An int2 or an int4 keeps its value in a field that is as wide.
keep_int16 : (w : ℕ) → w < 2 ^ 16 → signed16 (to_word (2 ^ 16) (signed16 w)) ≡ signed16 w
keep_int16 w h = ground arith

widen_int16 : (w : ℕ) → w < 2 ^ 16 → signed32 (to_word (2 ^ 32) (signed16 w)) ≡ signed16 w
widen_int16 w h = ground arith

keep_int32 : (w : ℕ) → w < 2 ^ 32 → signed32 (to_word (2 ^ 32) (signed32 w)) ≡ signed32 w
keep_int32 w h = ground arith

-- A type that implements sql.Scanner.
unfoldable pub is_scanner : GoType → Bool
is_scanner (go_scanner t) = true
is_scanner t = false

module _ (widen : ℕ → ℕ) where
  -- An opcode does what a setter does.
  abbrev pub IsFast : Op → Setter → Type 0
  IsFast op set =
      (old : GoValue) (raw : Bytes)
      → All IsByte raw
      → write_cell widen op set old (some raw) ≡ set old (some raw)

  IsFast-when :
      (op : Op) (set : Setter) (n : ℕ) (v : Bytes → GoValue)
      → ((raw : Bytes) → run_op widen op raw ≡ (if length raw == n then some (v raw) else none))
      → ((old : GoValue) (raw : Bytes)
          → All IsByte raw
          → (length raw == n) ≡ true
          → set old (some raw) ≡ inr (v raw))
      → IsFast op set
  unfolding write_cell
  IsFast-when op set n v runs sets old raw bytes = elim (Bool-cases (length raw == n)) [
    | inl fits ↦ rw (write_cell, runs raw, fits) (sym (sets old raw bytes fits))
    | inr other ↦ rw (write_cell, runs raw, other) refl
  ]

  fallback-IsFast : (set : Setter) → IsFast op_fallback set
  unfolding write_cell run_op
  fallback-IsFast set old raw bytes = refl

  int_op-IsFast :
      (width : IntWidth) (kind : IntKind) → IsFast (int_op width kind) (int_setter kind width)
  unfolding int_op int_setter read_int convert run_op
  int_op-IsFast two_bytes kind_int =
      IsFast-when (int_op two_bytes kind_int) (int_setter kind_int two_bytes) 2
        (λ raw. v_int (signed16 (be16 raw 0))) (λ raw. refl) (λ old raw b h. rw h refl)
  int_op-IsFast two_bytes kind_int16 =
      IsFast-when (int_op two_bytes kind_int16) (int_setter kind_int16 two_bytes) 2
        (λ raw. v_int (signed16 (be16 raw 0))) (λ raw. refl)
        (λ old raw b h. rw (h, keep_int16 (be16 raw 0) (be16-bound raw 0 b)) refl)
  int_op-IsFast two_bytes kind_int32 =
      IsFast-when (int_op two_bytes kind_int32) (int_setter kind_int32 two_bytes) 2
        (λ raw. v_int (signed16 (be16 raw 0))) (λ raw. refl)
        (λ old raw b h. rw (h, widen_int16 (be16 raw 0) (be16-bound raw 0 b)) refl)
  int_op-IsFast two_bytes kind_int64 =
      IsFast-when (int_op two_bytes kind_int64) (int_setter kind_int64 two_bytes) 2
        (λ raw. v_int (signed16 (be16 raw 0))) (λ raw. refl) (λ old raw b h. rw h refl)
  int_op-IsFast four_bytes kind_int =
      IsFast-when (int_op four_bytes kind_int) (int_setter kind_int four_bytes) 4
        (λ raw. v_int (signed32 (be32 raw 0))) (λ raw. refl) (λ old raw b h. rw h refl)
  int_op-IsFast four_bytes kind_int32 =
      IsFast-when (int_op four_bytes kind_int32) (int_setter kind_int32 four_bytes) 4
        (λ raw. v_int (signed32 (be32 raw 0))) (λ raw. refl)
        (λ old raw b h. rw (h, keep_int32 (be32 raw 0) (be32-bound raw 0 b)) refl)
  int_op-IsFast four_bytes kind_int64 =
      IsFast-when (int_op four_bytes kind_int64) (int_setter kind_int64 four_bytes) 4
        (λ raw. v_int (signed32 (be32 raw 0))) (λ raw. refl) (λ old raw b h. rw h refl)
  int_op-IsFast eight_bytes kind_int =
      IsFast-when (int_op eight_bytes kind_int) (int_setter kind_int eight_bytes) 8
        (λ raw. v_int (signed64 (be64 raw 0))) (λ raw. refl) (λ old raw b h. rw h refl)
  int_op-IsFast eight_bytes kind_int64 =
      IsFast-when (int_op eight_bytes kind_int64) (int_setter kind_int64 eight_bytes) 8
        (λ raw. v_int (signed64 (be64 raw 0))) (λ raw. refl) (λ old raw b h. rw h refl)
  int_op-IsFast width kind = fallback-IsFast (int_setter kind width)

  given : (op : Op) (made set : Setter) → IsFast op made → some made ≡ some set → IsFast op set
  given op made set fast h = let e : made ≡ set = cc in rw (← e) fast

  float32-IsFast : IsFast op_float4_f32 (fixed_setter 4 (λ raw. some (v_float32 (be32 raw 0))))
  unfolding fixed_setter run_op
  float32-IsFast =
      IsFast-when op_float4_f32 _ 4 (λ raw. v_float32 (be32 raw 0)) (λ raw. refl)
        (λ old raw b h. rw h refl)

  float4-IsFast :
      IsFast op_float4_f64 (fixed_setter 4 (λ raw. some (v_float64 (widen (be32 raw 0)))))
  unfolding fixed_setter run_op
  float4-IsFast =
      IsFast-when op_float4_f64 _ 4 (λ raw. v_float64 (widen (be32 raw 0))) (λ raw. refl)
        (λ old raw b h. rw h refl)

  float8-IsFast : IsFast op_float8_f64 (fixed_setter 8 (λ raw. some (v_float64 (be64 raw 0))))
  unfolding fixed_setter run_op
  float8-IsFast =
      IsFast-when op_float8_f64 _ 8 (λ raw. v_float64 (be64 raw 0)) (λ raw. refl)
        (λ old raw b h. rw h refl)

  bool-IsFast : IsFast op_bool_bin bool_setter
  unfolding bool_setter run_op
  bool-IsFast =
      IsFast-when op_bool_bin bool_setter 1 (λ raw. v_bool (not (get_or raw 0 0 == 0)))
        (λ raw. refl) (λ old raw b h. rw h refl)

  string-IsFast : IsFast op_string_pass string_setter
  unfolding string_setter run_op write_cell
  string-IsFast old raw b = refl

  bytes-IsFast : IsFast op_byte_copy (byte_slice_setter false)
  unfolding byte_slice_setter run_op write_cell
  bytes-IsFast old raw b = refl

  class_op-IsFast :
      (c : OidClass) (t : GoType) (set : Setter)
      → binary_setter widen c t ≡ some set
      → IsFast (class_op c t) set
  unfolding class_op binary_setter
  class_op-IsFast class_bool go_bool set h = given op_bool_bin bool_setter set bool-IsFast h
  class_op-IsFast (class_int w) (go_int kind) set h =
      given (int_op w kind) (int_setter kind w) set (int_op-IsFast w kind) h
  class_op-IsFast class_float4 go_float32 set h = given op_float4_f32 _ set float32-IsFast h
  class_op-IsFast class_float4 go_float64 set h = given op_float4_f64 _ set float4-IsFast h
  class_op-IsFast class_float8 go_float64 set h = given op_float8_f64 _ set float8-IsFast h
  class_op-IsFast class_text go_string set h =
      given op_string_pass string_setter set string-IsFast h
  class_op-IsFast class_text go_bytes set h =
      given op_byte_copy (byte_slice_setter false) set bytes-IsFast h
  class_op-IsFast class_bytea go_bytes set h =
      given op_byte_copy (byte_slice_setter false) set bytes-IsFast h
  class_op-IsFast class_json go_bytes set h =
      given op_byte_copy (byte_slice_setter false) set bytes-IsFast h
  class_op-IsFast c go_bool set h = fallback-IsFast set
  class_op-IsFast c (go_int kind) set h = fallback-IsFast set
  class_op-IsFast c go_float32 set h = fallback-IsFast set
  class_op-IsFast c go_float64 set h = fallback-IsFast set
  class_op-IsFast c go_string set h = fallback-IsFast set
  class_op-IsFast c go_bytes set h = fallback-IsFast set
  class_op-IsFast c go_array16 set h = fallback-IsFast set
  class_op-IsFast c go_time set h = fallback-IsFast set
  class_op-IsFast c go_range set h = fallback-IsFast set
  class_op-IsFast c (go_pointer t) set h = fallback-IsFast set
  class_op-IsFast c (go_null t) set h = fallback-IsFast set
  class_op-IsFast c (go_slice t) set h = fallback-IsFast set
  class_op-IsFast c (go_struct ts) set h = fallback-IsFast set
  class_op-IsFast c (go_scanner t) set h = absurd cc

  pub inline_op-IsFast :
      (scan : ScanMethod) (oid : ℕ) (binary : Bool) (t : GoType) (set : Setter)
      → is_scanner t ≡ false
      → pick_setter widen scan oid binary t ≡ some set
      → IsFast (inline_op oid binary t) set
  unfolding inline_op pick_setter plain_setter class_op is_scanner
  inline_op-IsFast scan oid false t set p h = fallback-IsFast set
  inline_op-IsFast scan oid true go_bool set p h = class_op-IsFast (oid_class oid) go_bool set h
  inline_op-IsFast scan oid true (go_int kind) set p h =
      class_op-IsFast (oid_class oid) (go_int kind) set h
  inline_op-IsFast scan oid true go_float32 set p h =
      class_op-IsFast (oid_class oid) go_float32 set h
  inline_op-IsFast scan oid true go_float64 set p h =
      class_op-IsFast (oid_class oid) go_float64 set h
  inline_op-IsFast scan oid true go_string set p h = class_op-IsFast (oid_class oid) go_string set h
  inline_op-IsFast scan oid true go_bytes set p h = class_op-IsFast (oid_class oid) go_bytes set h
  inline_op-IsFast scan oid true (go_scanner t) set p h = absurd cc
  inline_op-IsFast scan oid true t set p h = fallback-IsFast set
