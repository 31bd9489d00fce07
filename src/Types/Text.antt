-- ===== src/Types/Text.antt =====
-- The encoders of text-format cells: internal/types/numeric.go, uuid.go, bytea.go, jsonpass.go and
-- encoder.go. A cell is `none` where the source has a nil slice, which stands for SQL NULL.
pub mod Strings
pub mod Integers
pub mod Numbers
pub mod Pick
pub mod Validity
use pg2json.Common.{
  ℕ, ◌/◌, ◌%◌, ◌≡◌, refl, Bool, true, false, not, ◌&&◌, ◌||◌, Option, none, some, [], ◌∷◌, ◌++◌,
  arith, Bytes, codes, length, get_or, drop, ltb, leb, ◌==◌, if◌then◌else◌,
}
use pg2json.JsonWriter.{append_null, append_bool, append_string, hex_digit}
use pg2json.Protocol.{
  oid_bool, oid_int2, oid_int4, oid_int8, oid_oid, oid_float4, oid_float8, oid_numeric, oid_json,
  oid_jsonb, oid_bytea, oid_uuid, oid_date, oid_time, oid_time_tz, oid_timestamp, oid_timestamp_tz,
  oid_interval, oid_text, oid_varchar, oid_bp_char, oid_name,
}

-- `Encoder`
abbrev pub Encoder : Type 0
Encoder = Bytes → Option Bytes → Bytes

-- `if raw == nil { return AppendNull(dst) }`, with which every encoder begins.
abbrev pub or_null : (Bytes → Bytes → Bytes) → Encoder
or_null f dst none = append_null dst
or_null f dst (some raw) = f dst raw

-- `EncodeBool`
unfoldable pub encode_bool : Encoder
encode_bool = or_null λ dst raw.
    if length raw == 1 && get_or raw 0 0 == b't'
    then append_bool dst true
    else append_bool dst false

-- `c >= '0' && c <= '9'`
abbrev pub is_digit : ℕ → Bool
is_digit c = leb b'0' c && leb c b'9'

abbrev pub is_sign : ℕ → Bool
is_sign c = c == b'-' || c == b'+'

-- The digit loop of `validInt` and of the exponent in `validFloat`.
unfoldable pub all_digits : Bytes → Bool
all_digits [] = true
all_digits (c ∷ s) = is_digit c && all_digits s

-- `if i == len(b) { return false }`, and then the digit loop.
abbrev pub some_digits : Bytes → Bool
some_digits [] = false
some_digits (c ∷ s) = all_digits (c ∷ s)

-- `validInt`
unfoldable pub valid_int : Bytes → Bool
unfolding all_digits
valid_int [] = false
valid_int (c ∷ s) = if is_sign c then some_digits s else all_digits (c ∷ s)

-- `EncodeInt`
unfoldable pub encode_int : Encoder
encode_int = or_null λ dst raw. if valid_int raw then dst ++ raw else append_string dst raw

-- The part of `validFloat` behind the letter of an exponent, where at least a byte is left.
unfoldable pub valid_exponent : Bytes → Bool
unfolding all_digits
valid_exponent [] = false
valid_exponent (c ∷ s) = if is_sign c then some_digits s else all_digits (c ∷ s)

-- The main loop of `validFloat`; the flags are `sawDigit` and `sawDot`.
unfoldable pub float_loop : Bool → Bool → Bytes → Bool
unfolding valid_exponent
float_loop saw_digit saw_dot [] = saw_digit
float_loop saw_digit saw_dot (c ∷ s) = elim (is_digit c) [
  | true ↦ float_loop true saw_dot s
  | false ↦ elim (c == b'.' && not saw_dot) [
    | true ↦ float_loop saw_digit true s
    | false ↦
        if (c == b'e' || c == b'E') && saw_digit && not (length s == 0)
        then valid_exponent s
        else false
  ]
]

-- `validFloat`
unfoldable pub valid_float : Bytes → Bool
unfolding float_loop
valid_float [] = false
valid_float (c ∷ s) = if is_sign c then float_loop false false s else float_loop false false (c ∷ s)

-- `isNonFiniteFloat`
unfoldable pub is_non_finite_float : Bytes → Bool
is_non_finite_float b =
    let at = get_or b in
    if length b == 3
    then at 0 0 == b'N' && at 1 0 == b'a' && at 2 0 == b'N'
    else if length b == 8
    then at 0 0 == b'I' || (at 0 0 == b'-' && at 1 0 == b'I')
    else if length b == 9
    then at 0 0 == b'-' && at 1 0 == b'I'
    else false

-- `EncodeFloat`
unfoldable pub encode_float : Encoder
encode_float = or_null λ dst raw.
    if is_non_finite_float raw
    then append_string dst raw
    else if not (valid_float raw)
    then append_string dst raw
    else dst ++ raw

-- `EncodeNumeric`
unfoldable pub encode_numeric : Encoder
encode_numeric = or_null λ dst raw.
    let at = get_or raw in
    if length raw == 3 && at 0 0 == b'N' && at 1 0 == b'a' && at 2 0 == b'N'
    then append_string dst raw
    else if not (valid_float raw)
    then append_string dst raw
    else dst ++ raw

-- `EncodeUUID`
unfoldable pub encode_uuid : Encoder
encode_uuid = or_null λ dst raw.
    if not (length raw == 36) then append_string dst raw else dst ++ b'"' ∷ (raw ++ b'"' ∷ [])

-- `EncodeBytea`
unfoldable pub encode_bytea : Encoder
encode_bytea = or_null λ dst raw.
    if leb 2 (length raw) && get_or raw 0 0 == b'\\' && get_or raw 1 0 == b'x'
    then dst ++ (codes "\"\\\\x" ++ (drop 2 raw ++ b'"' ∷ []))
    else append_string dst raw

-- `EncodeJSONPassthrough`
unfoldable pub encode_json_passthrough : Encoder
encode_json_passthrough =
    or_null λ dst raw. if length raw == 0 then dst ++ codes "\"\"" else dst ++ raw

-- `EncodeString`
unfoldable pub encode_string : Encoder
encode_string = or_null append_string

-- `appendHexBytes` of binary.go, which is also the loop of `EncodeOpaqueBinary`.
unfoldable pub append_hex_bytes : Bytes → Bytes → Bytes
append_hex_bytes dst [] = dst
append_hex_bytes dst (b ∷ src) =
    append_hex_bytes (dst ++ hex_digit (b / 16) ∷ hex_digit (b % 16) ∷ []) src

-- `EncodeOpaqueBinary`
unfoldable pub encode_opaque_binary : Encoder
encode_opaque_binary = or_null λ dst raw. append_hex_bytes (dst ++ codes "\"\\\\x") raw ++ b'"' ∷ []

-- The validating loop of `EncodeQuotedASCII`: whether a byte needs the escaper.
unfoldable pub needs_escape : Bytes → Bool
needs_escape [] = false
needs_escape (c ∷ s) = ltb c 0x20 || c == b'"' || c == b'\\' || needs_escape s

-- `EncodeQuotedASCII`
unfoldable pub encode_quoted_ascii : Encoder
encode_quoted_ascii =
    or_null λ dst raw.
      if needs_escape raw then append_string dst raw else dst ++ b'"' ∷ (raw ++ b'"' ∷ [])

-- `Pick`: the text-format encoder of an OID.
unfoldable pub pick : ℕ → Encoder
pick oid =
    if oid == oid_bool
    then encode_bool
    else if oid == oid_int2 || oid == oid_int4 || oid == oid_int8 || oid == oid_oid
    then encode_int
    else if oid == oid_float4 || oid == oid_float8
    then encode_float
    else if oid == oid_numeric
    then encode_numeric
    else if oid == oid_json || oid == oid_jsonb
    then encode_json_passthrough
    else if oid == oid_bytea
    then encode_bytea
    else if oid == oid_uuid
    then encode_uuid
    else if oid == oid_date
        || oid == oid_time
        || oid == oid_time_tz
        || oid == oid_timestamp
        || oid == oid_timestamp_tz
        || oid == oid_interval
    then encode_quoted_ascii
    else if oid == oid_text || oid == oid_varchar || oid == oid_bp_char || oid == oid_name
    then encode_string
    else encode_string
