-- ===== src/Args.antt =====
-- The encoding of parameters: encodeArg of pg2json/args.go. strconv.FormatFloat(x, 'g', -1, w) on the
-- bit pattern of a float is a parameter.
use pg2json.Common.{ℕ, ◌/◌, ◌%◌, Bool, true, false, [], ◌∷◌, ◌++◌, Bytes, codes}
use pg2json.Common.Int.{ℤ}
use pg2json.GoStd.Decimal.{decimal, append_int}
use pg2json.JsonWriter.{hex_digit}

-- The types of a parameter that encodeArg knows, and the others.
pub data Arg : Type 0 where
  arg_nil : Arg
  arg_string : Bytes → Arg
  arg_bytes : Bytes → Arg
  arg_bool : Bool → Arg
  arg_int : ℤ → Arg
  arg_uint : ℕ → Arg
  arg_float32 : ℕ → Arg
  arg_float64 : ℕ → Arg
  arg_other : Arg

-- What it returns: NULL, a text or an error.
pub data EncodedArg : Type 0 where
  null_arg : EncodedArg
  text_arg : Bytes → EncodedArg
  bad_arg : EncodedArg

unfoldable pub hex_text : Bytes → Bytes
hex_text [] = []
hex_text (b ∷ bs) = hex_digit (b / 16) ∷ hex_digit (b % 16) ∷ hex_text bs

unfoldable pub encode_arg : (ℕ → Bytes) → (ℕ → Bytes) → Arg → EncodedArg
encode_arg format32 format64 arg_nil = null_arg
encode_arg format32 format64 (arg_string s) = text_arg s
encode_arg format32 format64 (arg_bytes b) = text_arg (codes "\\x" ++ hex_text b)
encode_arg format32 format64 (arg_bool true) = text_arg (codes "t")
encode_arg format32 format64 (arg_bool false) = text_arg (codes "f")
encode_arg format32 format64 (arg_int n) = text_arg (append_int [] n)
encode_arg format32 format64 (arg_uint n) = text_arg (decimal n)
encode_arg format32 format64 (arg_float32 x) = text_arg (format32 x)
encode_arg format32 format64 (arg_float64 x) = text_arg (format64 x)
encode_arg format32 format64 arg_other = bad_arg
