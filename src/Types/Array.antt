-- ===== src/Types/Array.antt =====
-- Arrays in binary format and the choice of binary encoders: internal/types/array.go and `PickBinary` of
-- internal/types/binary.go. A nil encoder is `none`; what appendArrayDim counts as consumed is the body
-- that is left.
use pg2json.Common.{
  ℕ, zero, suc, ◌+◌, ◌*◌, Bool, true, false, not, ◌||◌, Option, none, some, List, [], ◌∷◌, ◌++◌,
  Bytes, codes, length, take, drop, ltb, ◌==◌, if◌then◌else◌,
}
use pg2json.Common.Int.{abs, is_neg, is_zero, signed32}
use pg2json.GoStd.{be32}
use pg2json.JsonWriter.{append_null, append_string}
use pg2json.Protocol.{
  oid_bool, oid_int2, oid_int4, oid_oid, oid_int8, oid_float4, oid_float8, oid_uuid, oid_timestamp,
  oid_timestamp_tz, oid_date, oid_jsonb, oid_json, oid_interval, oid_time, oid_time_tz, oid_text,
  oid_varchar, oid_bp_char, oid_name, oid_bytea, is_range, array_elem,
}
use pg2json.Types.Text.{Encoder, or_null, encode_string, encode_json_passthrough}
use pg2json.Types.Binary.{
  FloatPrinter, encode_bool_binary, encode_int2_binary, encode_int4_binary, encode_int8_binary,
  encode_float4_binary, encode_float8_binary, encode_uuid_binary, encode_bytea_binary,
  encode_jsonb_binary,
}
use pg2json.Types.DateTime.{encode_timestamp_binary, encode_timestamp_tz_binary, encode_date_binary}
use pg2json.Types.Interval.{encode_interval_binary, encode_time_binary, encode_time_tz_binary}

-- The result of `appendArrayDim`: the buffer with the body that is left, or the buffer as it was when
-- the body ran short.
pub data Filled : Type 0 where
  filled : Bytes → Bytes → Filled
  ran_short : Bytes → Filled

unfoldable pub close_dim : Filled → Filled
close_dim (filled dst rest) = filled (dst ++ codes "]") rest
close_dim (ran_short dst) = ran_short dst

unfoldable pub leaf_loop : Encoder → ℕ → ℕ → Bytes → Bytes → Filled
leaf_loop enc zero i dst body = filled dst body
leaf_loop enc (suc n) i dst body =
    let dst' = if not (i == 0) then dst ++ codes "," else dst in
    let l = signed32 (be32 body 0) in
    let rest = drop 4 body in
    elim (ltb (length body) 4) [
      | true ↦ ran_short dst'
      | false ↦ elim (is_neg l) [
        | true ↦ leaf_loop enc n (suc i) (append_null dst') rest
        | false ↦ elim (ltb (length rest) (abs l)) [
          | true ↦ ran_short dst'
          | false ↦
              leaf_loop enc n (suc i) (enc dst' (some (take (abs l) rest))) (drop (abs l) rest)
        ]
      ]
    ]

unfoldable pub nested_loop : (Bytes → Bytes → Filled) → ℕ → ℕ → Bytes → Bytes → Filled
nested_loop inner zero i dst body = filled dst body
nested_loop inner (suc n) i dst body =
    elim (inner (if not (i == 0) then dst ++ codes "," else dst) body) [
      | ran_short dst' ↦ ran_short dst'
      | filled dst' rest ↦ nested_loop inner n (suc i) dst' rest
    ]

-- `appendArrayDim` on a dimension and those below it.
unfoldable pub append_array_dim : Encoder → ℕ → List ℕ → Bytes → Bytes → Filled
append_array_dim enc size [] dst body = close_dim (leaf_loop enc size 0 (dst ++ codes "[") body)
append_array_dim enc size (d ∷ dims) dst body =
    close_dim (nested_loop (append_array_dim enc d dims) size 0 (dst ++ codes "[") body)

-- The sizes of `n` dimensions from offset `i` on, unless one is negative.
unfoldable pub read_dims : Bytes → ℕ → ℕ → Option (List ℕ)
read_dims raw i zero = some []
read_dims raw i (suc n) = elim (is_neg (signed32 (be32 raw i))) [
  | true ↦ none
  | false ↦ elim (read_dims raw (i + 8) n) [
    | none ↦ none
    | some dims ↦ some (abs (signed32 (be32 raw i)) ∷ dims)
  ]
]

-- The end of the encoder: the raw bytes go behind what a body that ran short has left in the buffer.
unfoldable pub array_or_string : Bytes → Filled → Bytes
array_or_string raw (filled dst rest) = dst
array_or_string raw (ran_short dst) = append_string dst raw

unfoldable pub append_array_dims : Encoder → Option (List ℕ) → Bytes → Bytes → Bytes → Bytes
append_array_dims enc none raw dst body = append_string dst raw
append_array_dims enc (some []) raw dst body = append_string dst raw
append_array_dims enc (some (d ∷ dims)) raw dst body =
    array_or_string raw (append_array_dim enc d dims dst body)

-- The encoder that `makeArrayBinaryEncoder` returns for the elements' encoder.
unfoldable pub array_encoder : Encoder → Encoder
array_encoder enc = or_null λ dst raw.
    let ndim = signed32 (be32 raw 0) in
    let hdr_end = 12 + abs ndim * 8 in
    if ltb (length raw) 12
    then append_string dst raw
    else if is_neg ndim || is_zero ndim
    then dst ++ codes "[]"
    else elim (ltb (length raw) hdr_end) [
      | true ↦ append_string dst raw
      | false ↦ append_array_dims enc (read_dims raw 12 (abs ndim)) raw dst (drop hdr_end raw)
    ]

module _ (print : FloatPrinter) where
  -- `PickBinary` on a type that is no array.
  unfoldable pub pick_scalar_binary : ℕ → Option Encoder
  pick_scalar_binary oid =
      if oid == oid_bool
      then some encode_bool_binary
      else if oid == oid_int2
      then some encode_int2_binary
      else if oid == oid_int4 || oid == oid_oid
      then some encode_int4_binary
      else if oid == oid_int8
      then some encode_int8_binary
      else if oid == oid_float4
      then some (encode_float4_binary print)
      else if oid == oid_float8
      then some (encode_float8_binary print)
      else if oid == oid_uuid
      then some encode_uuid_binary
      else if oid == oid_timestamp
      then some encode_timestamp_binary
      else if oid == oid_timestamp_tz
      then some encode_timestamp_tz_binary
      else if oid == oid_date
      then some encode_date_binary
      else if oid == oid_jsonb
      then some encode_jsonb_binary
      else if oid == oid_json
      then some encode_json_passthrough
      else if oid == oid_interval
      then some encode_interval_binary
      else if oid == oid_time
      then some encode_time_binary
      else if oid == oid_time_tz
      then some encode_time_tz_binary
      else if is_range oid
      then some encode_string
      else if oid == oid_bytea
      then some encode_bytea_binary
      else if oid == oid_text || oid == oid_varchar || oid == oid_bp_char || oid == oid_name
      then some encode_string
      else none

  -- `makeArrayBinaryEncoder`; the type of an element is never an array.
  unfoldable pub make_array_binary_encoder : ℕ → Option Encoder
  make_array_binary_encoder elem_oid = elim (pick_scalar_binary elem_oid) [
    | none ↦ none
    | some enc ↦ some (array_encoder enc)
  ]

  -- `PickBinary`
  unfoldable pub pick_binary : ℕ → Option Encoder
  pick_binary oid = elim (pick_scalar_binary oid) [
    | some enc ↦ some enc
    | none ↦ if array_elem oid == 0 then none else make_array_binary_encoder (array_elem oid)
  ]

  -- `HasBinary`
  unfoldable pub has_binary : ℕ → Bool
  has_binary oid = elim (pick_binary oid) [ none ↦ false | some enc ↦ true ]
