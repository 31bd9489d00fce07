-- ===== src/Types/DateTime.antt =====
-- Dates and timestamps in binary format: the second half of internal/types/binary.go. A signed
-- 64-bit value is an integer, reduced to 64 bits where the source's arithmetic may leave them.
pub mod Era
pub mod Calendar
pub mod Next
pub mod Time
use pg2json.Common.{
  ℕ, ◌+◌, ◌-◌, ◌*◌, ◌/◌, ◌%◌, ◌^◌, ◌≡◌, refl, Bool, true, false, not, ◌&&◌, Option, none, some, [],
  ◌∷◌, ◌++◌, append_assoc, Bytes, codes, length, get_or, ltb, leb, ◌==◌, if◌then◌else◌,
}
use pg2json.Common.Int.{
  ℤ, pos, negsuc, ◌+ℤ◌, ◌-ℤ◌, scale, quot, rem, is_neg, abs, signed32, signed64, to_word,
}
use pg2json.GoStd.{be32, be64}
use pg2json.GoStd.Decimal.{append_int}
use pg2json.JsonWriter.{append_string}
use pg2json.Types.Text.{Encoder, or_null}
use pg2json.Types.Binary.{with_length}

-- `append2`: conversions to a byte wrap around.
unfoldable pub append2 : Bytes → ℤ → Bytes
append2 dst v = dst ++ to_word 256 (pos b'0' +ℤ quot v 10) ∷ to_word 256 (pos b'0' +ℤ rem v 10) ∷ []

-- `append6`
unfoldable pub append6 : Bytes → ℕ → Bytes
append6 dst v =
    dst
    ++ (b'0' + v / 100000 % 10)
      ∷ (b'0' + v / 10000 % 10)
      ∷ (b'0' + v / 1000 % 10)
      ∷ (b'0' + v / 100 % 10)
      ∷ (b'0' + v / 10 % 10)
      ∷ (b'0' + v % 10)
      ∷ []

-- The four digits that `appendInt4` and `appendNumericPad4` write.
unfoldable pub append_pad4 : Bytes → ℕ → Bytes
append_pad4 dst v =
    dst
    ++ (b'0' + v / 1000 % 10) ∷ (b'0' + v / 100 % 10) ∷ (b'0' + v / 10 % 10) ∷ (b'0' + v % 10) ∷ []

-- `appendInt4`
unfoldable pub append_int4 : Bytes → ℤ → Bytes
append_int4 dst v =
    let dst' = if is_neg v then dst ++ b'-' ∷ [] else dst in
    let n = abs v in if leb 10000 n then append_int dst' (pos n) else append_pad4 dst' n

-- The results of `splitTime`.
pub record Civil : Type 0 where
  pub year : ℤ
  pub month : ℕ
  pub day : ℕ
  pub hour : ℕ
  pub min : ℕ
  pub second : ℕ

-- The day count of `splitTime` and what is left of the day.
unfoldable pub split_days : ℤ → ℤ × ℕ
split_days sec =
    let days = quot sec 86400 in
    let rest = sec -ℤ scale days 86400 in
    if is_neg rest then (days -ℤ pos 1, abs (rest +ℤ pos 86400)) else (days, abs rest)

-- The steps of `splitTime` from the day of the era, `doe`, on.
unfoldable pub year_of_era : ℕ → ℕ
year_of_era doe = (doe - doe / 1460 + doe / 36524 - doe / 146096) / 365

unfoldable pub day_of_year : ℕ → ℕ
day_of_year doe = let yoe = year_of_era doe in doe - (365 * yoe + yoe / 4 - yoe / 100)

abbrev pub month_of : ℕ → ℕ
month_of mp = if ltb mp 10 then mp + 3 else mp - 9

-- The era of a day, counted from 0000-03-01, by Go's truncating division.
unfoldable pub era_of : ℤ → ℤ
era_of z = quot (if is_neg z then z -ℤ pos 146096 else z) 146097

-- `splitTime`
unfoldable pub split_time : ℤ → Civil
split_time sec =
    let (days, rest) = split_days sec in
    let hour = rest / 3600 in
    let rest' = rest - hour * 3600 in
    let min = rest' / 60 in
    let z = days +ℤ pos 719468 in
    let era = era_of z in
    let doe = to_word (2 ^ 64) (z -ℤ scale era 146097) in
    let y = pos (year_of_era doe) +ℤ scale era 400 in
    let doy = day_of_year doe in
    let mp = (5 * doy + 2) / 153 in
    let m = month_of mp in
    record {
      year = if leb m 2 then y +ℤ pos 1 else y;
      month = m;
      day = doy - (153 * mp + 2) / 5 + 1;
      hour = hour;
      min = min;
      second = rest' - min * 60;
    }

-- `YYYY-MM-DD`, with which both printers begin.
unfoldable pub append_date : Bytes → Civil → Bytes
append_date dst t =
    append2 (append2 (append_int4 dst t.year ++ codes "-") (pos t.month) ++ codes "-") (pos t.day)

abbrev pub pg_epoch_unix : ℤ
pg_epoch_unix = pos 946684800

abbrev pub usec_per_day : ℕ
usec_per_day = 86400 * 1000000

-- The seconds and microseconds that `appendISOTimestamp` splits a count of microseconds into.
unfoldable pub split_usec : ℤ → ℤ × ℕ
split_usec usec =
    let sec = pg_epoch_unix +ℤ quot usec 1000000 in
    let frac = rem usec 1000000 in
    if is_neg frac then (sec -ℤ pos 1, abs (frac +ℤ pos 1000000)) else (sec, abs frac)

-- `appendISOTimestamp`
unfoldable pub append_iso_timestamp : Bytes → ℤ → Bytes → Bytes
append_iso_timestamp dst usec tz_suffix =
    let (sec, frac) = split_usec usec in
    let t = split_time sec in
    let d₁ = append2 (append_date dst t ++ codes "T") (pos t.hour) in
    let d₂ = append2 (d₁ ++ codes ":") (pos t.min) in
    let d₃ = append2 (d₂ ++ codes ":") (pos t.second) in
    let d₄ = if not (frac == 0) then append6 (d₃ ++ codes ".") frac else d₃ in d₄ ++ tz_suffix

-- `appendISODateOnly`
unfoldable pub append_iso_date_only : Bytes → ℤ → Bytes
append_iso_date_only dst usec = append_date dst (split_time (pg_epoch_unix +ℤ quot usec 1000000))

-- The body of `encodeTimestampBinary` and `encodeTimestampTZBinary`, which differ in the suffix.
abbrev pub encode_timestamp : Bytes → Encoder
encode_timestamp suffix = or_null (
    with_length 8 λ dst raw.
      let w = be64 raw 0 in
      if w == 2 ^ 63 - 1
      then dst ++ codes "\"infinity\""
      else if w == 2 ^ 63
      then dst ++ codes "\"-infinity\""
      else append_iso_timestamp (dst ++ codes "\"") (signed64 w) suffix ++ codes "\"")

unfoldable pub encode_timestamp_binary : Encoder
encode_timestamp_binary = encode_timestamp []

unfoldable pub encode_timestamp_tz_binary : Encoder
encode_timestamp_tz_binary = encode_timestamp (codes "Z")

-- The product of `encodeDateBinary`, on int64.
abbrev pub date_usec : ℤ → ℤ
date_usec days = signed64 (to_word (2 ^ 64) (scale days usec_per_day))

-- `encodeDateBinary`
unfoldable pub encode_date_binary : Encoder
encode_date_binary = or_null (
    with_length 4 λ dst raw.
      let w = be32 raw 0 in
      if w == 2 ^ 31 - 1
      then dst ++ codes "\"infinity\""
      else if w == 2 ^ 31
      then dst ++ codes "\"-infinity\""
      else append_iso_date_only (dst ++ codes "\"") (date_usec (signed32 w)) ++ codes "\"")

-- 2024-02-29 is day 8825 after 2000-01-01.
leap_day : encode_date_binary [] (some (0 ∷ 0 ∷ 34 ∷ 121 ∷ [])) ≡ codes "\"2024-02-29\""
unfolding encode_date_binary append_iso_date_only append_date append_int4 append2 split_time
    split_days era_of year_of_era day_of_year append_pad4
leap_day = refl

before_epoch :
    encode_timestamp_tz_binary [] (some (255 ∷ 255 ∷ 255 ∷ 255 ∷ 255 ∷ 255 ∷ 255 ∷ 255 ∷ []))
    ≡ codes "\"1999-12-31T23:59:59.999999Z\""
unfolding encode_timestamp_tz_binary append_iso_timestamp split_usec append_date append_int4 append2
    append6 split_time split_days era_of year_of_era day_of_year append_pad4
before_epoch = refl
