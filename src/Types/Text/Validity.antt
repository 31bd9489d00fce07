-- ===== src/Types/Text/Validity.antt =====
-- Text-format cells become JSON values.
use pg2json.Common.{
  ℕ, ◌≡◌, ◌⊎◌, inl, inr, refl, Bool, true, false, some, [], ◌∷◌, ◌++◌, Bytes, codes, All,
  Bool-cases, length, ◌==◌, get_or, if◌then◌else◌, not, ◌&&◌,
}
use pg2json.Json.{IsJson, IsNumber, literal, num, str, append_string-IsString}
use pg2json.JsonWriter.{append_bool, append_string}
use pg2json.JsonWriter.Reader.{read_string}
use pg2json.JsonWriter.Scalar.{IsSafe}
use pg2json.Protocol.{oid_numeric, oid_bytea, oid_uuid}
use pg2json.Types.Text.{
  Encoder, encode_bool, encode_int, encode_float, encode_numeric, encode_json_passthrough,
  encode_bytea, encode_uuid, encode_quoted_ascii, encode_string, pick, valid_int, valid_float,
  is_non_finite_float,
}
use pg2json.Types.Text.Strings.{
  encode_bytea-encode_string, encode_quoted_ascii-encode_string, encode_uuid-encode_string,
}
use pg2json.Types.Text.Pick.{Picked, is_int_oid, is_float_oid, is_json_oid, pick-Picked}
use pg2json.Types.Text.Pick.{bool, int, float, numeric, json, bytea, uuid, ascii, string}

-- The text `NaN`, `Infinity` or `-Infinity`.
abbrev pub IsSpecial : Bytes → Type 0
IsSpecial raw = (raw ≡ codes "NaN") ⊎ (raw ≡ codes "Infinity") ⊎ (raw ≡ codes "-Infinity")

-- What PostgreSQL's text output of the types is documented to be, as far as the encoders trust it:
-- numbers in decimal or scientific notation, valid JSON for `json` and `jsonb`, hexadecimal digits
-- behind the `\x` of a `bytea`, and no quote or backslash in a UUID.
pub record IsServerText (oid : ℕ) (raw : Bytes) : Type 0 where
  pub int : is_int_oid oid ≡ true → IsNumber raw
  pub float : is_float_oid oid ≡ true → IsNumber raw ⊎ IsSpecial raw
  pub numeric : oid ≡ oid_numeric → IsNumber raw ⊎ IsSpecial raw
  pub json : is_json_oid oid ≡ true → IsJson raw
  pub bytea : oid ≡ oid_bytea → (s : Bytes) → raw ≡ b'\\' ∷ b'x' ∷ s → All IsSafe s
  pub uuid : oid ≡ oid_uuid → All IsSafe raw

-- The encoder writes a JSON value behind what is there.
abbrev pub WritesJson : Encoder → Bytes → Type 0
WritesJson enc raw = (dst : Bytes) → (out : Bytes) × (enc dst (some raw) ≡ dst ++ out) × IsJson out

encode_string-WritesJson : (raw : Bytes) → WritesJson encode_string raw
unfolding encode_string
encode_string-WritesJson raw dst =
    let (out, written, text) = append_string-IsString dst raw in (out, written, str text)

-- In either branch of a validation a number stays a JSON value.
number_or_string :
    (test : Bool) (dst raw : Bytes)
    → IsNumber raw
    → (out : Bytes) × ((if test then append_string dst raw else dst ++ raw) ≡ dst ++ out)
      × IsJson out
number_or_string true dst raw h = unfold encode_string in encode_string-WritesJson raw dst
number_or_string false dst raw h = (raw, refl, num h)

encode_bool-WritesJson : (raw : Bytes) → WritesJson encode_bool raw
unfolding encode_bool append_bool
encode_bool-WritesJson raw dst = elim (Bool-cases (length raw == 1 && get_or raw 0 0 == b't')) [
  | inl t ↦ (codes "true", rw t, literal (inr (inl refl)))
  | inr f ↦ (codes "false", rw f, literal (inr (inr refl)))
]

encode_int-WritesJson : (raw : Bytes) → IsNumber raw → WritesJson encode_int raw
unfolding encode_int
encode_int-WritesJson raw h dst = elim (Bool-cases (valid_int raw)) [
  | inl ok ↦ (raw, rw ok, num h)
  | inr bad ↦ rw bad (unfold encode_string in encode_string-WritesJson raw dst)
]

-- The branches of `EncodeFloat` and `EncodeNumeric`.
float_branches :
    (special valid : Bool) (dst raw : Bytes)
    → IsNumber raw
    → (out : Bytes) × ((if special
          then append_string dst raw
          else if not valid
          then append_string dst raw
          else dst ++ raw)
        ≡ dst ++ out)
      × IsJson out
float_branches true valid dst raw h = number_or_string true dst raw h
float_branches false true dst raw h = number_or_string false dst raw h
float_branches false false dst raw h = number_or_string true dst raw h

quoted :
    (enc : Encoder) (raw : Bytes)
    → ((dst : Bytes) → enc dst (some raw) ≡ encode_string dst (some raw))
    → WritesJson enc raw
quoted enc raw e dst = rw (e dst) (encode_string-WritesJson raw dst)

special_quoted :
    (raw dst : Bytes)
    → IsSpecial raw
    → (encode_float dst (some raw) ≡ encode_string dst (some raw))
      × (encode_numeric dst (some raw) ≡ encode_string dst (some raw))
unfolding encode_float encode_numeric is_non_finite_float valid_float encode_string
special_quoted raw dst (inl e) = rw e (refl, refl)
special_quoted raw dst (inr (inl e)) = rw e (refl, refl)
special_quoted raw dst (inr (inr e)) = rw e (refl, refl)

encode_float-WritesJson : (raw : Bytes) → IsNumber raw ⊎ IsSpecial raw → WritesJson encode_float raw
encode_float-WritesJson raw (inl h) dst =
    unfold encode_float in float_branches (is_non_finite_float raw) (valid_float raw) dst raw h
encode_float-WritesJson raw (inr h) dst =
    quoted encode_float raw (λ d. (special_quoted raw d h).0) dst

encode_numeric-WritesJson :
    (raw : Bytes) → IsNumber raw ⊎ IsSpecial raw → WritesJson encode_numeric raw
encode_numeric-WritesJson raw (inl h) dst =
    unfold encode_numeric in float_branches _ (valid_float raw) dst raw h
encode_numeric-WritesJson raw (inr h) dst =
    quoted encode_numeric raw (λ d. (special_quoted raw d h).1) dst

encode_json_passthrough-WritesJson :
    (raw : Bytes) → IsJson raw → WritesJson encode_json_passthrough raw
unfolding encode_json_passthrough read_string
encode_json_passthrough-WritesJson raw h dst = elim (Bool-cases (length raw == 0)) [
  | inl empty ↦ (codes "\"\"", rw empty, str ([], refl))
  | inr full ↦ (raw, rw full, h)
]

Picked-WritesJson :
    (oid : ℕ) (enc : Encoder) (raw : Bytes)
    → Picked oid enc
    → IsServerText oid raw
    → WritesJson enc raw
Picked-WritesJson oid _ raw bool t = encode_bool-WritesJson raw
Picked-WritesJson oid _ raw (int h) t = encode_int-WritesJson raw (t.int h)
Picked-WritesJson oid _ raw (float h) t = encode_float-WritesJson raw (t.float h)
Picked-WritesJson oid _ raw (numeric h) t = encode_numeric-WritesJson raw (t.numeric h)
Picked-WritesJson oid _ raw (json h) t = encode_json_passthrough-WritesJson raw (t.json h)
Picked-WritesJson oid _ raw (bytea h) t =
    quoted encode_bytea raw (λ dst. encode_bytea-encode_string dst raw (t.bytea h))
Picked-WritesJson oid _ raw (uuid h) t =
    quoted encode_uuid raw (λ dst. encode_uuid-encode_string dst raw (t.uuid h))
Picked-WritesJson oid _ raw ascii t =
    quoted encode_quoted_ascii raw (λ dst. encode_quoted_ascii-encode_string dst (some raw))
Picked-WritesJson oid _ raw string t = encode_string-WritesJson raw

-- Whatever its type, a cell that is not NULL becomes one JSON value behind what the buffer holds,
-- if its text is what the server is documented to send for the type.
pub pick-WritesJson : (oid : ℕ) (raw : Bytes) → IsServerText oid raw → WritesJson (pick oid) raw
pick-WritesJson oid raw t = Picked-WritesJson oid (pick oid) raw (pick-Picked oid) t
