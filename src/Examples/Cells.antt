-- ===== src/Examples/Cells.antt =====
-- Examples for the encoders of text cells.
use pg2json.Common.{Bytes, All, ◌≡◌, ◌↔◌, refl, inl, inr, true, some, [], ◌∷◌, arith, codes}
use pg2json.JsonWriter.{append_string, escape_flag}
use pg2json.JsonWriter.Scalar.{IsSafe}
use pg2json.Protocol.{oid_numeric, oid_float8}
use pg2json.Types.Text.{
  encode_quoted_ascii, encode_string, encode_uuid, encode_bytea, encode_opaque_binary, pick,
  valid_int, valid_float,
}
use pg2json.Types.Text.Strings.{
  encode_quoted_ascii-encode_string, encode_uuid-encode_string, encode_bytea-encode_string,
  encode_opaque_binary-hex_text, hex_text,
}
use pg2json.Types.Text.Integers.{IsIntText, valid_int_iff}
use pg2json.Types.Text.Numbers.{IsFloatText, valid_float_iff}
use pg2json.Types.Text.Pick.{Appends, pick-Appends}
use pg2json.Types.Text.Validity.{IsServerText, WritesJson, pick-WritesJson}

encode_quoted_ascii-encode_string_example :
    encode_quoted_ascii [] (some (codes "2024-02-29"))
    ≡ encode_string [] (some (codes "2024-02-29"))
encode_quoted_ascii-encode_string_example =
    encode_quoted_ascii-encode_string [] (some (codes "2024-02-29"))

encode_uuid-encode_string_example :
    encode_uuid [] (some (codes "12ab-ff")) ≡ encode_string [] (some (codes "12ab-ff"))
unfolding escape_flag
encode_uuid-encode_string_example = encode_uuid-encode_string [] (codes "12ab-ff") (ground arith)

hex_only : (s : Bytes) → codes "\\x61ff" ≡ b'\\' ∷ b'x' ∷ s → All IsSafe s
unfolding escape_flag
hex_only s e = let rest : codes "61ff" ≡ s = cc in rw (← rest) (refl, (refl, (refl, (refl, tt))))

encode_bytea-encode_string_example :
    encode_bytea [] (some (codes "\\x61ff")) ≡ encode_string [] (some (codes "\\x61ff"))
encode_bytea-encode_string_example = encode_bytea-encode_string [] (codes "\\x61ff") hex_only

encode_opaque_binary-hex_text_example :
    encode_opaque_binary [] (some (0 ∷ 255 ∷ []))
    ≡ append_string [] (b'\\' ∷ b'x' ∷ hex_text (0 ∷ 255 ∷ []))
encode_opaque_binary-hex_text_example =
    encode_opaque_binary-hex_text [] (0 ∷ 255 ∷ []) (ground arith)

valid_int_iff_example : (valid_int (codes "-12") ≡ true) ↔ IsIntText (codes "-12")
valid_int_iff_example = valid_int_iff (codes "-12")

valid_float_iff_example : (valid_float (codes "-1.5e-3") ≡ true) ↔ IsFloatText (codes "-1.5e-3")
valid_float_iff_example = valid_float_iff (codes "-1.5e-3")

pick-Appends_example : Appends (pick oid_numeric)
pick-Appends_example = pick-Appends oid_numeric

-- What the server sends for a float that is no number.
pub not_a_number : IsServerText oid_float8 (codes "NaN")
not_a_number = record {
  int = λ h. ground arith;
  float = λ h. inr (inl refl);
  numeric = λ h. ground arith;
  json = λ h. ground arith;
  bytea = λ h. ground arith;
  uuid = λ h. ground arith;
}

pick-WritesJson_example : WritesJson (pick oid_float8) (codes "NaN")
pick-WritesJson_example = pick-WritesJson oid_float8 (codes "NaN") not_a_number
