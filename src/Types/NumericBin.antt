-- ===== src/Types/NumericBin.antt =====
-- Numerics in binary format: internal/types/numeric_bin.go.
use pg2json.Common.{
  ℕ, zero, suc, ◌+◌, ◌*◌, ◌/◌, ◌%◌, ◌≡◌, refl, Bool, not, ◌||◌, some, [], ◌∷◌, ◌++◌, Bytes, codes,
  length, get_or, drop, replicate, ltb, leb, ◌==◌, if◌then◌else◌,
}
use pg2json.Common.Int.{ℤ, pos, negsuc, ◌+ℤ◌, is_neg, abs, signed16}
use pg2json.GoStd.{be16}
use pg2json.GoStd.Decimal.{append_int, decimal}
use pg2json.JsonWriter.{append_string}
use pg2json.Types.Text.{Encoder, or_null}
use pg2json.Types.DateTime.{append_pad4}

-- `digitAt`: zero outside the digits that were sent.
unfoldable pub digit_at : ℕ → Bytes → ℤ → ℕ
digit_at ndigits body (negsuc i) = 0
digit_at ndigits body (pos i) = if leb ndigits i then 0 else be16 body (i * 2)

-- `for i := 1; i <= weight; i++ { … }`, with the rounds left and `i`.
unfoldable pub integer_loop : ℕ → ℕ → Bytes → ℕ → Bytes → Bytes
integer_loop ndigits zero body i dst = dst
integer_loop ndigits (suc rounds) body i dst =
    integer_loop ndigits rounds body (i + 1) (append_pad4 dst (digit_at ndigits body (pos i)))

-- `[4]int{1000, 100, 10, 1}`
abbrev pub divisor : ℕ → ℕ
divisor i = get_or (1000 ∷ 100 ∷ 10 ∷ 1 ∷ []) i 0

-- `for p := 0; p < dscale; p++ { … }`, with the rounds left and `p`.
unfoldable pub fraction_loop : ℕ → ℤ → ℕ → Bytes → ℕ → Bytes → Bytes
fraction_loop ndigits weight zero body p dst = dst
fraction_loop ndigits weight (suc rounds) body p dst =
    let digit = digit_at ndigits body (weight +ℤ pos 1 +ℤ pos (p / 4)) / divisor (p % 4) % 10 in
    fraction_loop ndigits weight rounds body (p + 1) (dst ++ (b'0' + digit) ∷ [])

-- `encodeNumericBinary` for a finite value.
unfoldable pub append_finite : ℕ → ℤ → Bool → ℕ → Bytes → Bytes → Bytes
append_finite ndigits weight negative dscale body dst =
    if ndigits == 0
    then dst ++ (codes "0" ++ (if ltb 0 dscale then codes "." ++ replicate dscale b'0' else []))
    else (let d = if negative then dst ++ codes "-" else dst in
        let d' =
          if is_neg weight
          then d ++ codes "0"
          else integer_loop ndigits (abs weight) body 1
              (append_int d (pos (digit_at ndigits body (pos 0)))) in
        if dscale == 0 then d' else fraction_loop ndigits weight dscale body 0 (d' ++ codes "."))

-- `encodeNumericBinary`
unfoldable pub encode_numeric_binary : Encoder
encode_numeric_binary = or_null λ dst raw.
    let ndigits = signed16 (be16 raw 0) in
    let weight = signed16 (be16 raw 2) in
    let sign = be16 raw 4 in
    let dscale = signed16 (be16 raw 6) in
    let body = drop 8 raw in
    if ltb (length raw) 8
    then append_string dst raw
    else if is_neg ndigits || is_neg dscale || ltb (length body) (abs ndigits * 2)
    then append_string dst raw
    else if sign == 0xC000
    then dst ++ codes "\"NaN\""
    else if sign == 0xD000
    then dst ++ codes "\"Infinity\""
    else if sign == 0xF000
    then dst ++ codes "\"-Infinity\""
    else if not (sign == 0x0000 || sign == 0x4000)
    then append_string dst raw
    else append_finite (abs ndigits) weight (sign == 0x4000) (abs dscale) body dst

-- -12345.0607
numeric_runs :
    encode_numeric_binary []
      (some (0 ∷ 3 ∷ 0 ∷ 1 ∷ 0x40 ∷ 0 ∷ 0 ∷ 4 ∷ 0 ∷ 1 ∷ 9 ∷ 41 ∷ 2 ∷ 95 ∷ []))
    ≡ codes "-12345.0607"
unfolding encode_numeric_binary append_finite integer_loop fraction_loop digit_at append_pad4
    append_int decimal
numeric_runs = refl
