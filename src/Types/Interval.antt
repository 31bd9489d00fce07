-- ===== src/Types/Interval.antt =====
-- Intervals and times of day in binary format: internal/types/interval.go.
pub mod Sign
use pg2json.Common.{
  ℕ, zero, suc, ◌+◌, ◌-◌, ◌*◌, ◌/◌, ◌%◌, ◌^◌, ◌≡◌, refl, not, ◌&&◌, [], ◌∷◌, ◌++◌, Bytes, codes,
  get_or, take, ◌==◌, if◌then◌else◌,
}
use pg2json.Common.Int.{
  ℤ, pos, negsuc, ◌-ℤ◌, scale, quot, rem, is_neg, is_zero, neg, abs, signed32, signed64, to_word,
}
use pg2json.GoStd.{be32, be64}
use pg2json.GoStd.Decimal.{append_int, decimal}
use pg2json.Types.Text.{Encoder, or_null}
use pg2json.Types.Binary.{with_length}
use pg2json.Types.DateTime.{append2}

-- The loop of `appendFrac6`, from the given end down.
unfoldable pub trimmed_end : Bytes → ℕ → ℕ
trimmed_end buf zero = zero
trimmed_end buf (suc zero) = 1
trimmed_end buf (suc (suc n)) =
    let shorter = trimmed_end buf (suc n) in
    if get_or buf (suc n) 0 == b'0' then shorter else suc (suc n)

-- `appendFrac6`
unfoldable pub append_frac6 : Bytes → ℤ → Bytes
append_frac6 dst frac =
    let v = abs frac in
    let buf =
      (b'0' + v / 100000 % 10)
      ∷ (b'0' + v / 10000 % 10)
      ∷ (b'0' + v / 1000 % 10)
      ∷ (b'0' + v / 100 % 10)
      ∷ (b'0' + v / 10 % 10)
      ∷ (b'0' + v % 10)
      ∷ [] in
    dst ++ take (trimmed_end buf 6) buf

-- `if v != 0 { … }` of one unit: the number and its letter.
abbrev pub append_unit : Bytes → ℤ → ℕ → Bytes
append_unit dst v unit = if not (is_zero v) then append_int dst v ++ unit ∷ [] else dst

-- The part of `encodeIntervalBinary` behind the `T`.
unfoldable pub append_interval_time : Bytes → ℤ → Bytes
append_interval_time dst micros =
    let hours = quot micros 3600000000 in
    let m₁ = micros -ℤ scale hours 3600000000 in
    let mins = quot m₁ 60000000 in
    let m₂ = m₁ -ℤ scale mins 60000000 in
    let secs = quot m₂ 1000000 in
    let frac = m₂ -ℤ scale secs 1000000 in
    let d = append_unit (append_unit dst hours b'H') mins b'M' in
    if not (is_zero secs && is_zero frac)
    then (let d' = append_int d secs in
        (if not (is_zero frac) then append_frac6 (d' ++ codes ".") frac else d') ++ codes "S")
    else d

-- `encodeIntervalBinary` on the decoded microseconds, days and months.
unfoldable pub append_interval : Bytes → ℤ → ℤ → ℤ → Bytes
append_interval dst micros days total =
    let years = quot total 12 in
    let months = total -ℤ scale years 12 in
    if is_zero years && is_zero months && is_zero days && is_zero micros
    then dst ++ codes "\"PT0S\""
    else (let d =
          append_unit (append_unit (append_unit (dst ++ codes "\"P") years b'Y') months b'M') days
            b'D' in
        (if not (is_zero micros) then append_interval_time (d ++ codes "T") micros else d)
        ++ codes "\"")

-- `encodeIntervalBinary`
unfoldable pub encode_interval_binary : Encoder
unfolding append_interval
encode_interval_binary = or_null (
    with_length 16 λ dst raw.
      append_interval dst (signed64 (be64 raw 0)) (signed32 (be32 raw 8)) (signed32 (be32 raw 12)))

-- `appendTimeOfDay`
unfoldable pub append_time_of_day : Bytes → ℤ → Bytes
append_time_of_day dst usec =
    let u = if is_neg usec then 0 else abs usec in
    let hours = u / 3600000000 in
    let u₁ = u - hours * 3600000000 in
    let mins = u₁ / 60000000 in
    let u₂ = u₁ - mins * 60000000 in
    let secs = u₂ / 1000000 in
    let frac = u₂ - secs * 1000000 in
    let d₁ = append2 dst (pos hours) ++ codes ":" in
    let d₂ = append2 d₁ (pos mins) ++ codes ":" in
    let d₃ = append2 d₂ (pos secs) in
    if not (frac == 0) then append_frac6 (d₃ ++ codes ".") (pos frac) else d₃

-- `encodeTimeBinary`
unfoldable pub encode_time_binary : Encoder
encode_time_binary = or_null (
    with_length 8
      λ dst raw. append_time_of_day (dst ++ codes "\"") (signed64 (be64 raw 0)) ++ codes "\"")

-- `-zone` on int32.
abbrev pub neg32 : ℤ → ℤ
neg32 z = signed32 (to_word (2 ^ 32) (neg z))

-- `encodeTimeTZBinary`
unfoldable pub encode_time_tz_binary : Encoder
encode_time_tz_binary = or_null (
    with_length 12 λ dst raw.
      let d = append_time_of_day (dst ++ codes "\"") (signed64 (be64 raw 0)) in
      let east = neg32 (signed32 (be32 raw 8)) in
      let d' = if not (is_neg east) then d ++ codes "+" else d ++ codes "-" in
      let zone = if not (is_neg east) then east else neg32 east in
      append2 (append2 d' (quot zone 3600) ++ codes ":") (quot (rem zone 3600) 60) ++ codes "\"")

interval_runs :
    append_interval [] (pos 14706789012) (pos 3) (negsuc 13) ≡ codes "\"P-1Y-2M3DT4H5M6.789012S\""
unfolding append_interval append_interval_time append_int decimal append_frac6 trimmed_end
interval_runs = refl
