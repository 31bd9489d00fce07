-- ===== src/Types/Text/Pick.antt =====
-- `Pick` case by case: what it returns for which OIDs, and what holds of every encoder it returns.
use pg2json.Common.{
  ℕ, ◌≡◌, refl, Bool, true, false, ◌||◌, Option, none, some, [], ◌++◌, append_assoc, arith, Bytes,
  ◌==◌, ==_iff, if◌then◌else◌,
}
use pg2json.JsonWriter.{append_null, append_bool, append_string}
use pg2json.JsonWriter.Scalar.{append_string_body-escaped}
use pg2json.Protocol.{
  oid_int2, oid_int4, oid_int8, oid_oid, oid_float4, oid_float8, oid_numeric, oid_json, oid_jsonb,
  oid_bytea, oid_uuid,
}
use pg2json.Types.Text.{
  Encoder, encode_bool, encode_int, encode_float, encode_numeric, encode_json_passthrough,
  encode_bytea, encode_uuid, encode_quoted_ascii, encode_string, encode_opaque_binary, pick,
}
use pg2json.Types.Text.Strings.{encode_quoted_ascii-encode_string, append_hex_bytes-hex_text}

abbrev pub is_int_oid : ℕ → Bool
is_int_oid oid = oid == oid_int2 || oid == oid_int4 || oid == oid_int8 || oid == oid_oid

abbrev pub is_float_oid : ℕ → Bool
is_float_oid oid = oid == oid_float4 || oid == oid_float8

abbrev pub is_json_oid : ℕ → Bool
is_json_oid oid = oid == oid_json || oid == oid_jsonb

-- Why `Pick` returned an encoder.
pub data Picked (oid : ℕ) : Encoder → Type 0 where
  bool : Picked oid encode_bool
  int : is_int_oid oid ≡ true → Picked oid encode_int
  float : is_float_oid oid ≡ true → Picked oid encode_float
  numeric : oid ≡ oid_numeric → Picked oid encode_numeric
  json : is_json_oid oid ≡ true → Picked oid encode_json_passthrough
  bytea : oid ≡ oid_bytea → Picked oid encode_bytea
  uuid : oid ≡ oid_uuid → Picked oid encode_uuid
  ascii : Picked oid encode_quoted_ascii
  string : Picked oid encode_string

Picked-if :
    (oid : ℕ) (test : Bool) (a b : Encoder)
    → (test ≡ true → Picked oid a)
    → Picked oid b
    → Picked oid (if test then a else b)
Picked-if oid true a b f p = f refl
Picked-if oid false a b f p = p

Picked-either : (oid : ℕ) (test : Bool) → Picked oid (if test then encode_string else encode_string)
Picked-either oid true = string
Picked-either oid false = string

pub pick-Picked : (oid : ℕ) → Picked oid (pick oid)
unfolding pick
pick-Picked oid =
    Picked-if oid _ _ _ (λ e. bool)
      (Picked-if oid _ _ _ int (
        Picked-if oid _ _ _ float (
          Picked-if oid _ _ _ (λ e. numeric ((==_iff _ _).0 e))
            (Picked-if oid _ _ _ json (
              Picked-if oid _ _ _ (λ e. bytea ((==_iff _ _).0 e))
                (Picked-if oid _ _ _ (λ e. uuid ((==_iff _ _).0 e))
                  (Picked-if oid _ _ _ (λ e. ascii) (Picked-either oid _))))))))

-- An encoder writes behind what is there, and what it writes does not depend on it.
abbrev pub Appends : Encoder → Type 0
Appends enc = (dst : Bytes) (raw : Option Bytes) → enc dst raw ≡ dst ++ enc [] raw

pub append_string-append : (dst s : Bytes) → append_string dst s ≡ dst ++ append_string [] s
unfolding append_string
append_string-append dst s = simp (append_string_body-escaped, append_assoc)

pub append_null-append : (dst : Bytes) → append_null dst ≡ dst ++ append_null []
unfolding append_null
append_null-append dst = refl

encode_bool-Appends : Appends encode_bool
unfolding encode_bool append_bool
encode_bool-Appends dst none = append_null-append dst
encode_bool-Appends dst (some raw) = ground arith

encode_int-Appends : Appends encode_int
unfolding encode_int
encode_int-Appends dst none = append_null-append dst
encode_int-Appends dst (some raw) = ground (arith, append_string-append dst raw)

encode_float-Appends : Appends encode_float
unfolding encode_float
encode_float-Appends dst none = append_null-append dst
encode_float-Appends dst (some raw) = ground (arith, append_string-append dst raw)

encode_numeric-Appends : Appends encode_numeric
unfolding encode_numeric
encode_numeric-Appends dst none = append_null-append dst
encode_numeric-Appends dst (some raw) = ground (arith, append_string-append dst raw)

pub encode_json_passthrough-Appends : Appends encode_json_passthrough
unfolding encode_json_passthrough
encode_json_passthrough-Appends dst none = append_null-append dst
encode_json_passthrough-Appends dst (some raw) = ground arith

encode_bytea-Appends : Appends encode_bytea
unfolding encode_bytea
encode_bytea-Appends dst none = append_null-append dst
encode_bytea-Appends dst (some raw) = ground (arith, append_string-append dst raw)

encode_uuid-Appends : Appends encode_uuid
unfolding encode_uuid
encode_uuid-Appends dst none = append_null-append dst
encode_uuid-Appends dst (some raw) = ground (arith, append_string-append dst raw)

pub encode_string-Appends : Appends encode_string
unfolding encode_string
encode_string-Appends dst none = append_null-append dst
encode_string-Appends dst (some raw) = append_string-append dst raw

encode_quoted_ascii-Appends : Appends encode_quoted_ascii
encode_quoted_ascii-Appends dst raw =
    rw (encode_quoted_ascii-encode_string dst raw, encode_quoted_ascii-encode_string [] raw)
      (encode_string-Appends dst raw)

pub encode_opaque_binary-Appends : Appends encode_opaque_binary
unfolding encode_opaque_binary
encode_opaque_binary-Appends dst none = append_null-append dst
encode_opaque_binary-Appends dst (some raw) = simp (append_hex_bytes-hex_text, append_assoc)

Picked-Appends : (oid : ℕ) (enc : Encoder) → Picked oid enc → Appends enc
Picked-Appends oid _ bool = encode_bool-Appends
Picked-Appends oid _ (int h) = encode_int-Appends
Picked-Appends oid _ (float h) = encode_float-Appends
Picked-Appends oid _ (numeric h) = encode_numeric-Appends
Picked-Appends oid _ (json h) = encode_json_passthrough-Appends
Picked-Appends oid _ (bytea h) = encode_bytea-Appends
Picked-Appends oid _ (uuid h) = encode_uuid-Appends
Picked-Appends oid _ ascii = encode_quoted_ascii-Appends
Picked-Appends oid _ string = encode_string-Appends

-- Every encoder that `Pick` returns appends: it keeps what the buffer holds, and what it writes
-- depends on the cell alone.
pub pick-Appends : (oid : ℕ) → Appends (pick oid)
pick-Appends oid = Picked-Appends oid (pick oid) (pick-Picked oid)
