-- ===== src/Types/Appending/Scalars.antt =====
-- What the binary encoders of scalars of internal/types/binary.go do to a buffer.
use pg2json.Common.{
  refl, Bool, true, false, not, ◌&&◌, ◌++◌, Bytes, codes, length, get_or, ltb, drop, ◌==◌,
}
use pg2json.Common.Int.{ℤ, signed16, signed32, signed64}
use pg2json.GoStd.{be16, be32, be64}
use pg2json.GoStd.Decimal.{append_int, append_int-append}
use pg2json.JsonWriter.{append_bool, slice}
use pg2json.Types.Text.{append_hex_bytes}
use pg2json.Types.Text.Pick.{Appends}
use pg2json.Types.Binary.{
  FloatPrinter, FloatClass, nan, inf, neg_inf, finite, float_class, append_float_class,
  encode_bool_binary, encode_int2_binary, encode_int4_binary, encode_int8_binary,
  encode_float4_binary, encode_float8_binary, encode_uuid_binary, encode_bytea_binary,
  encode_jsonb_binary,
}
use pg2json.Types.Appending.{
  IsAppending, add, chain, either, add_string, add_hex, sized, cell-Appends,
}

add_bool : (b : Bool) → IsAppending (λ dst. append_bool dst b)
unfolding append_bool
add_bool b = either b (add (codes "true")) (add (codes "false"))

pub encode_bool_binary-Appends : Appends encode_bool_binary
unfolding encode_bool_binary
encode_bool_binary-Appends =
    cell-Appends _ (λ raw.
      either (length raw == 1 && not (get_or raw 0 0 == 0)) (add_bool true) (add_bool false))

pub add_int : (v : ℤ) → IsAppending (λ dst. append_int dst v)
add_int v dst = append_int-append dst v

pub encode_int2_binary-Appends : Appends encode_int2_binary
unfolding encode_int2_binary
encode_int2_binary-Appends = cell-Appends _ (λ raw. sized 2 raw (add_int (signed16 (be16 raw 0))))

pub encode_int4_binary-Appends : Appends encode_int4_binary
unfolding encode_int4_binary
encode_int4_binary-Appends = cell-Appends _ (λ raw. sized 4 raw (add_int (signed32 (be32 raw 0))))

pub encode_int8_binary-Appends : Appends encode_int8_binary
unfolding encode_int8_binary
encode_int8_binary-Appends = cell-Appends _ (λ raw. sized 8 raw (add_int (signed64 (be64 raw 0))))

add_float :
    (text : Bytes) (c : FloatClass) → IsAppending (λ dst. append_float_class (λ d. d ++ text) dst c)
unfolding append_float_class
add_float text nan dst = refl
add_float text inf dst = refl
add_float text neg_inf dst = refl
add_float text finite dst = refl

pub encode_float4_binary-Appends : (print : FloatPrinter) → Appends (encode_float4_binary print)
unfolding encode_float4_binary
encode_float4_binary-Appends print =
    cell-Appends _
      (λ raw. sized 4 raw (add_float (print 32 (be32 raw 0)) (float_class 23 8 (be32 raw 0))))

pub encode_float8_binary-Appends : (print : FloatPrinter) → Appends (encode_float8_binary print)
unfolding encode_float8_binary
encode_float8_binary-Appends print =
    cell-Appends _
      (λ raw. sized 8 raw (add_float (print 64 (be64 raw 0)) (float_class 52 11 (be64 raw 0))))

-- A text and then bytes in hexadecimal.
add_part : (text s : Bytes) → IsAppending (λ dst. append_hex_bytes (dst ++ text) s)
add_part text s = chain (add text) (add_hex s)

pub encode_uuid_binary-Appends : Appends encode_uuid_binary
unfolding encode_uuid_binary
encode_uuid_binary-Appends = cell-Appends _ (λ raw. sized 16 raw (
    chain (add_part (codes "\"") (slice raw 0 4)) (
      chain (add_part (codes "-") (slice raw 4 6)) (
        chain (add_part (codes "-") (slice raw 6 8)) (
          chain (add_part (codes "-") (slice raw 8 10))
            (chain (add_part (codes "-") (slice raw 10 16)) (add (codes "\""))))))))

pub encode_bytea_binary-Appends : Appends encode_bytea_binary
unfolding encode_bytea_binary
encode_bytea_binary-Appends =
    cell-Appends _ (λ raw. chain (add_part (codes "\"\\\\x") raw) (add (codes "\"")))

pub encode_jsonb_binary-Appends : Appends encode_jsonb_binary
unfolding encode_jsonb_binary
encode_jsonb_binary-Appends = cell-Appends _ (λ raw.
    either (ltb (length raw) 1) (add (codes "\"\""))
      (either (not (get_or raw 0 0 == 1)) (add_string raw) (add (drop 1 raw))))
