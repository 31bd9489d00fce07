-- ===== src/JsonWriter/Scalar.antt =====
-- internal/jsonwriter/escape_scalar.go: the loop copies whole spans, and writes what a plain
-- byte-by-byte escaper writes.
use pg2json.Common.{
  All, ℕ, ◌+◌, ◌-◌, ◌≡◌, refl, ap, true, false, inl, inr, ◌∙◌, [], ◌∷◌, ◌++◌, append-nil,
  append_assoc, arith, Bytes, length, length-append, drop, take-length-append, drop-length-append,
  ltb, if◌then◌else◌, Bool-cases,
}
use pg2json.JsonWriter.{
  escape_flag, append_escape, append_string, slice, body_loop, append_string_body,
}

-- What one byte of the input becomes.
unfoldable pub escape_byte : ℕ → Bytes
escape_byte c = if escape_flag c then append_escape [] c else c ∷ []

-- The input escaped byte by byte, with no spans.
unfoldable pub escaped : Bytes → Bytes
escaped [] = []
escaped (c ∷ s) = escape_byte c ++ escaped s

pub append_escape-append : (dst : Bytes) (c : ℕ) → append_escape dst c ≡ dst ++ append_escape [] c
unfolding append_escape
append_escape-append dst c = ground arith

-- The pending span of the loop is what stands between `start` and `i`.
pub slice-append :
    (done span rest : Bytes)
    → slice (done ++ (span ++ rest)) (length done) (length done + length span) ≡ span
slice-append done span rest =
    let e : length done + length span - length done ≡ length span = omega arith in
    rw (e, drop-length-append done) (take-length-append span rest)

pub span_copied :
    (s dst done span rest : Bytes) (start i : ℕ)
    → s ≡ done ++ (span ++ rest)
    → start ≡ length done
    → i ≡ length done + length span
    → (if ltb start i then dst ++ slice s start i else dst) ≡ dst ++ span
span_copied s dst done [] rest start i es e₁ e₂ = ground (arith, append-nil dst)
span_copied s dst done (c ∷ span) rest start i es e₁ e₂ =
    rw (es, e₁, e₂, slice-append done (c ∷ span) rest) (ground arith)

pub escape_byte_hit : (c : ℕ) → escape_flag c ≡ true → escape_byte c ≡ append_escape [] c
unfolding escape_byte
escape_byte_hit c hit = rw hit

escape_byte_miss : (c : ℕ) → escape_flag c ≡ false → escape_byte c ≡ c ∷ []
unfolding escape_byte
escape_byte_miss c miss = rw miss

rest_copied :
    (s dst done span : Bytes) (start : ℕ)
    → s ≡ done ++ (span ++ [])
    → start ≡ length done
    → (if ltb start (length s) then dst ++ drop start s else dst) ≡ dst ++ (span ++ [])
rest_copied s dst done [] start es e₁ =
    rw (es, e₁, append-nil done) (ground (arith, append-nil dst))
rest_copied s dst done (c ∷ span) start es e₁ =
    rw (es, e₁, drop-length-append done) (ground (arith, length-append done ((c ∷ span) ++ [])))

body_loop_hit :
    (s dst : Bytes) (start i c : ℕ) (rest : Bytes)
    → escape_flag c ≡ true
    → body_loop s dst start i (c ∷ rest)
      ≡ body_loop s
          (append_escape (if ltb start i then dst ++ slice s start i else dst) c)
          (i + 1)
          (i + 1)
          rest
unfolding body_loop
body_loop_hit s dst start i c rest hit = rw (hit, body_loop)

body_loop_miss :
    (s dst : Bytes) (start i c : ℕ) (rest : Bytes)
    → escape_flag c ≡ false
    → body_loop s dst start i (c ∷ rest) ≡ body_loop s dst start (i + 1) rest
unfolding body_loop
body_loop_miss s dst start i c rest miss = rw (miss, body_loop)

-- Between two rounds `start` is the length of what is written and `i` that of what is read.
body_loop-escaped :
    (rest s dst done span : Bytes) (start i : ℕ)
    → s ≡ done ++ (span ++ rest)
    → start ≡ length done
    → i ≡ length done + length span
    → body_loop s dst start i rest ≡ dst ++ (span ++ escaped rest)
unfolding escaped
body_loop-escaped [] s dst done span start i es e₁ e₂ =
    unfold body_loop in rest_copied s dst done span start es e₁
body_loop-escaped (c ∷ rest) s dst done span start i es e₁ e₂ =
    let longer : length (span ++ c ∷ []) ≡ length span + 1 = length-append span (c ∷ []) in
    let read : i + 1 ≡ length (done ++ (span ++ c ∷ [])) =
      omega (arith, longer, length-append done (span ++ c ∷ [])) in
    elim (Bool-cases (escape_flag c)) [
      | inl hit ↦
          body_loop_hit s dst start i c rest hit
          ∙ ap (λ (d : Bytes). body_loop s (append_escape d c) (i + 1) (i + 1) rest)
              (span_copied s dst done span (c ∷ rest) start i es e₁ e₂)
          ∙ body_loop-escaped rest s (append_escape (dst ++ span) c) (done ++ (span ++ c ∷ [])) []
              (i + 1) (i + 1) (simp (es, append_assoc)) read (omega (arith, read))
          ∙ simp (append_escape-append (dst ++ span), escape_byte_hit c hit, append_assoc)
      | inr miss ↦
          body_loop_miss s dst start i c rest miss
          ∙ body_loop-escaped rest s dst done (span ++ c ∷ []) start (i + 1)
              (simp (es, append_assoc)) e₁ (omega (arith, longer))
          ∙ simp (escape_byte_miss c miss, append_assoc)
    ]

-- The scalar escaper appends the escaped input to what `dst` holds, which it leaves alone.
pub append_string_body-escaped : (dst s : Bytes) → append_string_body dst s ≡ dst ++ escaped s
unfolding append_string_body
append_string_body-escaped dst s = body_loop-escaped s s dst [] [] 0 0 refl refl (omega arith)

-- A byte that goes into a JSON string as it is.
abbrev pub IsSafe : ℕ → Type 0
IsSafe c = escape_flag c ≡ false

pub escaped-append_safe :
    (span rest : Bytes) → All IsSafe span → escaped (span ++ rest) ≡ span ++ escaped rest
unfolding escaped escape_byte
escaped-append_safe [] rest h = refl
escaped-append_safe (c ∷ span) rest (hc, hs) = rw (hc, escaped-append_safe span rest hs)

-- Where no byte needs an escape, the string is the bytes between quotes.
pub append_string_safe :
    (dst s : Bytes) → All IsSafe s → append_string dst s ≡ dst ++ b'"' ∷ (s ++ b'"' ∷ [])
unfolding append_string escaped
append_string_safe dst s h =
    rw (append_string_body-escaped, ← append-nil s, escaped-append_safe s [] h)
      (simp (append_assoc, append-nil))
