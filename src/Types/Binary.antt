-- ===== src/Types/Binary.antt =====
-- The encoders of binary-format scalars: internal/types/binary.go without its dates.
use pg2json.Common.{
  ℕ, ◌+◌, ◌-◌, ◌/◌, ◌%◌, ◌^◌, true, false, not, ◌&&◌, ◌++◌, Bytes, codes, length, get_or, drop, ltb,
  ◌==◌, if◌then◌else◌,
}
use pg2json.Common.Int.{signed16, signed32, signed64}
use pg2json.GoStd.{be16, be32, be64}
use pg2json.GoStd.Decimal.{append_int}
use pg2json.JsonWriter.{append_bool, append_string, slice}
use pg2json.Types.Text.{Encoder, or_null, append_hex_bytes}

-- `if len(raw) != n { return AppendStringBytes(dst, raw) }`
abbrev pub with_length : ℕ → (Bytes → Bytes → Bytes) → Bytes → Bytes → Bytes
with_length n f dst raw = if not (length raw == n) then append_string dst raw else f dst raw

-- `encodeBoolBinary`
unfoldable pub encode_bool_binary : Encoder
encode_bool_binary = or_null λ dst raw.
    if length raw == 1 && not (get_or raw 0 0 == 0)
    then append_bool dst true
    else append_bool dst false

-- `encodeInt2Binary`, `encodeInt4Binary` and `encodeInt8Binary`
unfoldable pub encode_int2_binary : Encoder
encode_int2_binary = or_null (with_length 2 λ dst raw. append_int dst (signed16 (be16 raw 0)))

unfoldable pub encode_int4_binary : Encoder
encode_int4_binary = or_null (with_length 4 λ dst raw. append_int dst (signed32 (be32 raw 0)))

unfoldable pub encode_int8_binary : Encoder
encode_int8_binary = or_null (with_length 8 λ dst raw. append_int dst (signed64 (be64 raw 0)))

-- The classes of a floating-point pattern that `math.IsNaN` and `math.IsInf` tell apart, by its
-- exponent field and its fraction.
pub data FloatClass : Type 0 where
  nan inf neg_inf finite : FloatClass

-- The pattern has `frac` fraction bits below `expo` exponent bits below the sign bit.
unfoldable pub float_class : ℕ → ℕ → ℕ → FloatClass
float_class frac expo bits =
    if not (bits / 2 ^ frac % 2 ^ expo == 2 ^ expo - 1)
    then finite
    else if not (bits % 2 ^ frac == 0)
    then nan
    else if bits / 2 ^ (frac + expo) % 2 == 0
    then inf
    else neg_inf

-- `appendNonFiniteFloat`, and the finite values that the parameter prints.
unfoldable pub append_float_class : (Bytes → Bytes) → Bytes → FloatClass → Bytes
append_float_class print dst nan = dst ++ codes "\"NaN\""
append_float_class print dst inf = dst ++ codes "\"Infinity\""
append_float_class print dst neg_inf = dst ++ codes "\"-Infinity\""
append_float_class print dst finite = print dst

-- `strconv.AppendFloat(dst, v, 'g', -1, width)` on the value with the pattern `bits`, whose digits
-- are the shortest that read back as `v`: the arguments are `width` and `bits`.
abbrev pub FloatPrinter : Type 0
FloatPrinter = ℕ → ℕ → Bytes

module _ (print : FloatPrinter) where
  -- `encodeFloat4Binary` and `encodeFloat8Binary`
  unfoldable pub encode_float4_binary : Encoder
  encode_float4_binary = or_null (
      with_length 4 λ dst raw.
        let bits = be32 raw 0 in
        append_float_class (λ d. d ++ print 32 bits) dst (float_class 23 8 bits))

  unfoldable pub encode_float8_binary : Encoder
  encode_float8_binary = or_null (
      with_length 8 λ dst raw.
        let bits = be64 raw 0 in
        append_float_class (λ d. d ++ print 64 bits) dst (float_class 52 11 bits))

-- `encodeUUIDBinary`
unfoldable pub encode_uuid_binary : Encoder
encode_uuid_binary = or_null (
    with_length 16 λ dst raw.
      let d₁ = append_hex_bytes (dst ++ codes "\"") (slice raw 0 4) in
      let d₂ = append_hex_bytes (d₁ ++ codes "-") (slice raw 4 6) in
      let d₃ = append_hex_bytes (d₂ ++ codes "-") (slice raw 6 8) in
      let d₄ = append_hex_bytes (d₃ ++ codes "-") (slice raw 8 10) in
      let d₅ = append_hex_bytes (d₄ ++ codes "-") (slice raw 10 16) in d₅ ++ codes "\"")

-- `encodeByteaBinary`
unfoldable pub encode_bytea_binary : Encoder
encode_bytea_binary = or_null λ dst raw. append_hex_bytes (dst ++ codes "\"\\\\x") raw ++ codes "\""

-- `encodeJSONBBinary`
unfoldable pub encode_jsonb_binary : Encoder
encode_jsonb_binary = or_null λ dst raw.
    if ltb (length raw) 1
    then dst ++ codes "\"\""
    else if not (get_or raw 0 0 == 1)
    then append_string dst raw
    else dst ++ drop 1 raw
