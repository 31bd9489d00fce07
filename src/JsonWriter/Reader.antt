-- ===== src/JsonWriter/Reader.antt =====
-- An independent reader of JSON strings (RFC 8259, section 7), and the round trip of the writer
-- through it. Only the reader is new here: nothing of it is code of the repository.
use mathlib.Core.Bool.{◌&&◌, ◌||◌}
use pg2json.Common.{
  ℕ, ◌+◌, ◌-◌, ◌*◌, ◌/◌, ◌%◌, ◌<◌, ◌≡◌, refl, Bool, true, false, Option, none, some, [], ◌∷◌, ◌++◌,
  append_assoc, arith, Bytes, ltb, leb, ◌==◌, if◌then◌else◌,
}
use pg2json.Common.Bits.{all_below, all_below_sound}
use pg2json.JsonWriter.{escape_flag, append_escape, hex_digit, append_string}
use pg2json.JsonWriter.Scalar.{escape_byte, escaped, append_string_body-escaped}

-- The value of a hexadecimal digit, of either case.
hex_value : ℕ → Option ℕ
hex_value c =
    if leb b'0' c && leb c b'9'
    then some (c - b'0')
    else if leb b'a' c && leb c b'f'
    then some (c - b'a' + 10)
    else if leb b'A' c && leb c b'F'
    then some (c - b'A' + 10)
    else none

-- UTF-8 of a code point of the basic plane.
utf8 : ℕ → Bytes
utf8 p =
    if ltb p 0x80
    then p ∷ []
    else if ltb p 0x800
    then (0xc0 + p / 0x40) ∷ (0x80 + p % 0x40) ∷ []
    else (0xe0 + p / 0x1000) ∷ (0x80 + p / 0x40 % 0x40) ∷ (0x80 + p % 0x40) ∷ []

-- The character that a one-letter escape stands for.
short_escape : ℕ → Option ℕ
short_escape c =
    if c == b'"' || c == b'\\' || c == b'/'
    then some c
    else if c == b'b'
    then some 8
    else if c == b'f'
    then some 12
    else if c == b'n'
    then some 10
    else if c == b'r'
    then some 13
    else if c == b't'
    then some 9
    else none

-- Inside the string, behind a backslash, or inside `\uXXXX` with so many digits to come.
pub data Mode : Type 0 where
  plain escape : Mode
  hex : ℕ → ℕ → Mode

push : Bytes → Option (Bytes × Bytes) → Option (Bytes × Bytes)
push out none = none
push out (some (text, rest)) = some (out ++ text, rest)

-- The text up to the closing quote, and what follows it; `none` for what is no JSON string.
unfoldable pub read_body : Mode → Bytes → Option (Bytes × Bytes)
unfolding hex_value utf8 short_escape push
read_body m [] = none
read_body plain (c ∷ s) = elim (c == b'"') [
  | true ↦ some ([], s)
  | false ↦ elim (c == b'\\') [
    | true ↦ read_body escape s
    | false ↦ elim (ltb c 0x20) [ true ↦ none | false ↦ push (c ∷ []) (read_body plain s) ]
  ]
]
read_body escape (c ∷ s) = elim (c == b'u') [
  | true ↦ read_body (hex 3 0) s
  | false ↦ elim (short_escape c) [ none ↦ none | some d ↦ push (d ∷ []) (read_body plain s) ]
]
read_body (hex n p) (c ∷ s) = elim (hex_value c) [
  | none ↦ none
  | some d ↦ elim (n == 0) [
    | true ↦ push (utf8 (p * 16 + d)) (read_body plain s)
    | false ↦ read_body (hex (n - 1) (p * 16 + d)) s
  ]
]

-- A JSON string at the front of the input.
unfoldable pub read_string : Bytes → Option (Bytes × Bytes)
unfolding read_body
read_string [] = none
read_string (c ∷ s) = if c == b'"' then read_body plain s else none

same : ℕ → Option ℕ → Bool
same n none = false
same n (some m) = n == m

hex_table : all_below 16 (λ d. same d (hex_value (hex_digit d))) ≡ true
unfolding all_below same hex_value
hex_table = refl

same_sound : (n : ℕ) (o : Option ℕ) → same n o ≡ true → o ≡ some n
unfolding same
same_sound n none h = ground arith
same_sound n (some m) h = ground arith

hex_value-hex_digit : (d : ℕ) → d < 16 → hex_value (hex_digit d) ≡ some d
hex_value-hex_digit d h = same_sound d _ (all_below_sound 16 _ d hex_table h)

-- Each byte comes back from its escape.
read_body-escape_byte :
    (c : ℕ) (s : Bytes) → read_body plain (escape_byte c ++ s) ≡ push (c ∷ []) (read_body plain s)
unfolding escape_byte escape_flag append_escape read_body push
read_body-escape_byte c s =
    ground (arith, hex_value-hex_digit (c / 16), hex_value-hex_digit (c % 16))

read_body-escaped : (t s : Bytes) → read_body plain (escaped t ++ b'"' ∷ s) ≡ some (t, s)
unfolding escaped
read_body-escaped [] s = unfold read_body in refl
read_body-escaped (c ∷ t) s =
    rw (append_assoc, read_body-escape_byte c, read_body-escaped t s) (unfold push in refl)

-- A reader of JSON strings gets back from `AppendString` the bytes that went in, whatever bytes
-- these are, and leaves what follows the string; the string is written behind what `dst` held.
pub read_string-append_string :
    (dst t s : Bytes)
    → (out : Bytes) × (append_string dst t ≡ dst ++ out) × (read_string (out ++ s) ≡ some (t, s))
unfolding append_string
read_string-append_string dst t s = (
  b'"' ∷ (escaped t ++ b'"' ∷ []),
  simp (append_string_body-escaped, append_assoc),
  rw append_assoc (unfold read_string in read_body-escaped t s),
)
