-- ===== src/Types/Text/Strings.antt =====
-- The fast paths for quoted values write what the generic escaper writes.
use pg2json.Common.{
  ℕ, ◌/◌, ◌%◌, ◌<◌, ◌≡◌, refl, sym, ◌∙◌, false, not, inl, inr, some, none, Option, [], ◌∷◌, ◌++◌,
  append-nil, append_assoc, arith, Bytes, codes, All, IsByte, ◌==◌, ◌&&◌, Bool-cases,
}
use pg2json.Common.Bits.{all_below, all_below_sound}
use pg2json.JsonWriter.{escape_flag, hex_digit, append_string, append_escape}
use pg2json.JsonWriter.Scalar.{
  IsSafe, escaped, escape_byte, escaped-append_safe, append_string_safe, append_string_body-escaped,
}
use pg2json.Types.Text.{
  needs_escape, encode_quoted_ascii, encode_string, encode_uuid, encode_bytea, append_hex_bytes,
  encode_opaque_binary,
}

needs_escape-IsSafe : (s : Bytes) → needs_escape s ≡ false → All IsSafe s
unfolding needs_escape escape_flag
needs_escape-IsSafe [] h = tt
needs_escape-IsSafe (c ∷ s) h = (ground arith, needs_escape-IsSafe s (ground arith))

-- For every cell, the ASCII fast path of dates and times is the generic string encoder.
pub encode_quoted_ascii-encode_string :
    (dst : Bytes) (raw : Option Bytes) → encode_quoted_ascii dst raw ≡ encode_string dst raw
unfolding encode_quoted_ascii encode_string
encode_quoted_ascii-encode_string dst none = refl
encode_quoted_ascii-encode_string dst (some raw) = elim (Bool-cases (needs_escape raw)) [
  | inl hit ↦ rw hit
  | inr miss ↦ rw miss (sym (append_string_safe dst raw (needs_escape-IsSafe raw miss)))
]

-- A UUID cell with no byte that needs an escape is quoted as the generic encoder quotes it.
pub encode_uuid-encode_string :
    (dst raw : Bytes) → All IsSafe raw → encode_uuid dst (some raw) ≡ encode_string dst (some raw)
unfolding encode_uuid encode_string
encode_uuid-encode_string dst raw h = ground (arith, append_string_safe dst raw h)

-- The text `\x` and what follows it, escaped.
append_string_hex :
    (dst s : Bytes)
    → All IsSafe s
    → append_string dst (b'\\' ∷ b'x' ∷ s) ≡ dst ++ (codes "\"\\\\x" ++ (s ++ b'"' ∷ []))
unfolding append_string escaped escape_byte escape_flag append_escape
append_string_hex dst s h =
    rw (append_string_body-escaped, ← append-nil s, escaped-append_safe s [] h)
      (simp (append_assoc, append-nil))

-- A `bytea` cell is written as the generic encoder writes it, provided that in the hex form no byte
-- behind `\x` needs an escape.
pub encode_bytea-encode_string :
    (dst raw : Bytes)
    → ((s : Bytes) → raw ≡ b'\\' ∷ b'x' ∷ s → All IsSafe s)
    → encode_bytea dst (some raw) ≡ encode_string dst (some raw)
unfolding encode_bytea encode_string
encode_bytea-encode_string dst [] h = refl
encode_bytea-encode_string dst (x ∷ []) h = refl
encode_bytea-encode_string dst (x ∷ y ∷ s) h = elim (Bool-cases (x == b'\\' && y == b'x')) [
  | inr other ↦ ground arith
  | inl hex ↦
      let ex : x ≡ b'\\' = ground arith in
      let ey : y ≡ b'x' = ground arith in ground (arith, append_string_hex dst s (h s (cc)))
]

hex_digit-IsSafe : (d : ℕ) → d < 16 → IsSafe (hex_digit d)
unfolding all_below escape_flag
hex_digit-IsSafe d h =
    ground (arith, all_below_sound 16 (λ x. not (escape_flag (hex_digit x))) d refl h)

-- Two lower-case hexadecimal digits a byte.
unfoldable pub hex_text : Bytes → Bytes
hex_text [] = []
hex_text (b ∷ s) = hex_digit (b / 16) ∷ hex_digit (b % 16) ∷ hex_text s

pub append_hex_bytes-hex_text : (dst s : Bytes) → append_hex_bytes dst s ≡ dst ++ hex_text s
unfolding append_hex_bytes hex_text
append_hex_bytes-hex_text dst [] = sym (append-nil dst)
append_hex_bytes-hex_text dst (b ∷ s) =
    let front : Bytes = hex_digit (b / 16) ∷ hex_digit (b % 16) ∷ [] in
    append_hex_bytes-hex_text (dst ++ front) s ∙ append_assoc dst front (hex_text s)

hex_text-IsSafe : (s : Bytes) → All IsByte s → All IsSafe (hex_text s)
unfolding hex_text
hex_text-IsSafe [] h = tt
hex_text-IsSafe (b ∷ s) (hb, hs) = (
  hex_digit-IsSafe (b / 16) (omega arith),
  (hex_digit-IsSafe (b % 16) (omega arith), hex_text-IsSafe s hs),
)

-- The opaque form of a binary cell is the JSON string of `\x` and its bytes in hexadecimal.
pub encode_opaque_binary-hex_text :
    (dst raw : Bytes)
    → All IsByte raw
    → encode_opaque_binary dst (some raw) ≡ append_string dst (b'\\' ∷ b'x' ∷ hex_text raw)
unfolding encode_opaque_binary
encode_opaque_binary-hex_text dst raw h =
    rw (append_hex_bytes-hex_text, append_string_hex dst (hex_text raw) (hex_text-IsSafe raw h))
      (simp append_assoc)
