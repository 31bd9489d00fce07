-- ===== src/Types/Appending/Choice.antt =====
-- What the encoders that `PickBinary` of internal/types/binary.go returns do to a buffer.
use pg2json.Common.{
  ℕ, Bool, true, false, ◌||◌, Option, none, some, ◌==◌, if◌then◌else◌, Option-cases, inl, inr,
}
use pg2json.Protocol.{
  oid_bool, oid_int2, oid_int4, oid_oid, oid_int8, oid_float4, oid_float8, oid_uuid, oid_timestamp,
  oid_timestamp_tz, oid_date, oid_jsonb, oid_json, oid_interval, oid_time, oid_time_tz, oid_text,
  oid_varchar, oid_bp_char, oid_name, oid_bytea, is_range, array_elem,
}
use pg2json.Types.Text.{Encoder}
use pg2json.Types.Text.Pick.{Appends, encode_json_passthrough-Appends, encode_string-Appends}
use pg2json.Types.Binary.{FloatPrinter}
use pg2json.Types.Array.{pick_scalar_binary, make_array_binary_encoder, pick_binary}
use pg2json.Types.Appending.Scalars.{
  encode_bool_binary-Appends, encode_int2_binary-Appends, encode_int4_binary-Appends,
  encode_int8_binary-Appends, encode_float4_binary-Appends, encode_float8_binary-Appends,
  encode_uuid_binary-Appends, encode_bytea_binary-Appends, encode_jsonb_binary-Appends,
}
use pg2json.Types.Appending.Times.{
  encode_timestamp_binary-Appends, encode_timestamp_tz_binary-Appends, encode_date_binary-Appends,
  encode_interval_binary-Appends, encode_time_binary-Appends, encode_time_tz_binary-Appends,
}
use pg2json.Types.Appending.Arrays.{array_encoder-Appends}

-- An encoder that there is appends.
pub data MayAppend : Option Encoder → Type 0 where
  no_encoder : MayAppend none
  appends : {enc : Encoder} → Appends enc → MayAppend (some enc)

pub MayAppend-some : {enc : Encoder} → MayAppend (some enc) → Appends enc
MayAppend-some (appends a) = a

may_either :
    (b : Bool) {x y : Option Encoder} → MayAppend x → MayAppend y → MayAppend (if b then x else y)
may_either true p q = p
may_either false p q = q

module _ (print : FloatPrinter) where
  pick_scalar_binary-MayAppend : (oid : ℕ) → MayAppend (pick_scalar_binary print oid)
  unfolding pick_scalar_binary
  pick_scalar_binary-MayAppend oid =
      may_either (oid == oid_bool) (appends encode_bool_binary-Appends) (
        may_either (oid == oid_int2) (appends encode_int2_binary-Appends) (
          may_either (oid == oid_int4 || oid == oid_oid) (appends encode_int4_binary-Appends) (
            may_either (oid == oid_int8) (appends encode_int8_binary-Appends) (
              may_either (oid == oid_float4) (appends (encode_float4_binary-Appends print)) (
                may_either (oid == oid_float8) (appends (encode_float8_binary-Appends print)) (
                  may_either (oid == oid_uuid) (appends encode_uuid_binary-Appends) (
                    may_either (oid == oid_timestamp) (appends encode_timestamp_binary-Appends) (
                      may_either (oid == oid_timestamp_tz)
                        (appends encode_timestamp_tz_binary-Appends)
                        (may_either (oid == oid_date) (appends encode_date_binary-Appends) (
                          may_either (oid == oid_jsonb) (appends encode_jsonb_binary-Appends) (
                            may_either (oid == oid_json) (appends encode_json_passthrough-Appends) (
                              may_either (oid == oid_interval)
                                (appends encode_interval_binary-Appends)
                                (may_either (oid == oid_time) (appends encode_time_binary-Appends) (
                                  may_either (oid == oid_time_tz)
                                    (appends encode_time_tz_binary-Appends)
                                    (may_either (is_range oid) (appends encode_string-Appends) (
                                      may_either (oid == oid_bytea)
                                        (appends encode_bytea_binary-Appends)
                                        (may_either
                                          (oid == oid_text
                                            || oid == oid_varchar
                                            || oid == oid_bp_char
                                            || oid == oid_name)
                                          (appends encode_string-Appends)
                                          no_encoder)))))))))))))))))

  pub pick_binary-MayAppend : (oid : ℕ) → MayAppend (pick_binary print oid)
  unfolding pick_binary make_array_binary_encoder
  pick_binary-MayAppend oid =
      let scalar = pick_scalar_binary-MayAppend oid in
      let elements = pick_scalar_binary-MayAppend (array_elem oid) in
      elim (Option-cases (pick_scalar_binary print oid)) [
        | inr (enc, is) ↦ rw (pick_binary, is) (rw is at scalar)
        | inl no_scalar ↦
            rw (pick_binary, no_scalar)
              (may_either (array_elem oid == 0) no_encoder
                (elim (Option-cases (pick_scalar_binary print (array_elem oid))) [
                  | inl nothing_there ↦ rw (make_array_binary_encoder, nothing_there) no_encoder
                  | inr (enc, is) ↦
                      rw (make_array_binary_encoder, is)
                        (appends (array_encoder-Appends enc (MayAppend-some (rw is at elements))))
                ]))
      ]
