-- ===== src/JsonWriter.antt =====
-- internal/jsonwriter/writer.go and escape_scalar.go.
pub mod Scalar
pub mod Reader
pub mod Swar
use pg2json.Common.{
  ℕ, suc, ◌+◌, ◌-◌, ◌/◌, ◌%◌, ◌<◌, ◌≡◌, refl, Bool, true, false, ◌||◌, [], ◌∷◌, ◌++◌, Bytes, codes,
  length, get_or, take, drop, ltb, ◌==◌, if◌then◌else◌,
}

-- `AppendNull`, `AppendBool`.
unfoldable pub append_null : Bytes → Bytes
append_null dst = dst ++ codes "null"

unfoldable pub append_bool : Bytes → Bool → Bytes
append_bool dst v = if v then dst ++ codes "true" else dst ++ codes "false"

-- The table `escapeFlag`, as a test of its index.
unfoldable pub escape_flag : ℕ → Bool
escape_flag c = ltb c 0x20 || c == b'"' || c == b'\\'

-- `"0123456789abcdef"[i]`
abbrev pub hex_digit : ℕ → ℕ
hex_digit i = get_or (codes "0123456789abcdef") i 0

-- `appendEscape`: the cases of the `switch` in the source's order.
unfoldable pub append_escape : Bytes → ℕ → Bytes
append_escape dst c =
    if c == b'"'
    then dst ++ codes "\\\""
    else if c == b'\\'
    then dst ++ codes "\\\\"
    else if c == 10
    then dst ++ codes "\\n"
    else if c == 13
    then dst ++ codes "\\r"
    else if c == 9
    then dst ++ codes "\\t"
    else if c == 8
    then dst ++ codes "\\b"
    else if c == 12
    then dst ++ codes "\\f"
    else dst ++ (codes "\\u00" ++ hex_digit (c / 16) ∷ hex_digit (c % 16) ∷ [])

-- The slice `s[from:to]`.
abbrev pub slice : Bytes → ℕ → ℕ → Bytes
slice s from to = take (to - from) (drop from s)

-- The loop of `AppendStringBody`: the last argument is `s[i:]`.
unfoldable pub body_loop : Bytes → Bytes → ℕ → ℕ → Bytes → Bytes
body_loop s dst start i [] = if ltb start (length s) then dst ++ drop start s else dst
body_loop s dst start i (c ∷ rest) = elim (escape_flag c) [
  | false ↦ body_loop s dst start (i + 1) rest
  | true ↦
      body_loop s (append_escape (if ltb start i then dst ++ slice s start i else dst) c) (i + 1)
        (i + 1) rest
]

-- `AppendStringBody` and `AppendStringBodyBytes`, which differ in the type of `s` alone.
unfoldable pub append_string_body : Bytes → Bytes → Bytes
append_string_body dst s = body_loop s dst 0 0 s

-- `AppendString` and `AppendStringBytes`.
unfoldable pub append_string : Bytes → Bytes → Bytes
append_string dst s = append_string_body (dst ++ b'"' ∷ []) s ++ b'"' ∷ []

-- `AppendKey`
unfoldable pub append_key : Bytes → Bytes → Bytes
append_key dst k = append_string dst k ++ b':' ∷ []

escapes_run : append_string [] (codes "a\"b\\" ++ 10 ∷ 1 ∷ []) ≡ codes "\"a\\\"b\\\\\\n\\u0001\""
unfolding append_string append_string_body body_loop escape_flag append_escape
escapes_run = refl
