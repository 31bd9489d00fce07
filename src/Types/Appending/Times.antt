-- ===== src/Types/Appending/Times.antt =====
-- What the binary encoders of dates, times and intervals of internal/types do to a buffer.
use pg2json.Common.{
  ℕ, refl, ◌-◌, ◌*◌, ◌/◌, ◌^◌, not, ◌&&◌, [], ◌∷◌, ◌++◌, Bytes, codes, leb, ◌==◌, if◌then◌else◌,
}
use pg2json.Common.Int.{ℤ, pos, is_neg, is_zero, abs, quot, scale, ◌-ℤ◌, rem, signed32, signed64}
use pg2json.GoStd.{be32, be64}
use pg2json.Types.Text.Pick.{Appends}
use pg2json.Types.DateTime.{
  Civil, append2, append6, append_pad4, append_int4, append_date, split_usec, split_time,
  append_iso_timestamp, append_iso_date_only, date_usec, encode_timestamp, encode_timestamp_binary,
  encode_timestamp_tz_binary, encode_date_binary,
}
use pg2json.Types.Interval.{
  append_frac6, append_unit, append_interval_time, append_interval, encode_interval_binary,
  append_time_of_day, neg32, encode_time_binary, encode_time_tz_binary,
}
use pg2json.Types.Appending.{IsAppending, keep_it, add, chain, either, sized, cell-Appends}
use pg2json.Types.Appending.Scalars.{add_int}

add2 : (v : ℤ) → IsAppending (λ dst. append2 dst v)
unfolding append2
add2 v dst = refl

add6 : (v : ℕ) → IsAppending (λ dst. append6 dst v)
unfolding append6
add6 v dst = refl

add_pad4 : (v : ℕ) → IsAppending (λ dst. append_pad4 dst v)
unfolding append_pad4
add_pad4 v dst = refl

add_int4 : (v : ℤ) → IsAppending (λ dst. append_int4 dst v)
unfolding append_int4
add_int4 v =
    chain (either (is_neg v) (add (b'-' ∷ [])) keep_it)
      (either (leb 10000 (abs v)) (add_int (pos (abs v))) (add_pad4 (abs v)))

-- Two digits with a text behind or before them.
add2_then : (v : ℤ) (text : Bytes) → IsAppending (λ dst. append2 dst v ++ text)
add2_then v text = chain (add2 v) (add text)

then_add2 : (text : Bytes) (v : ℤ) → IsAppending (λ dst. append2 (dst ++ text) v)
then_add2 text v = chain (add text) (add2 v)

add_date : (t : Civil) → IsAppending (λ dst. append_date dst t)
unfolding append_date
add_date t =
    chain (add_int4 t.year)
      (chain (then_add2 (codes "-") (pos t.month)) (then_add2 (codes "-") (pos t.day)))

add_timestamp :
    (usec : ℤ) (suffix : Bytes) → IsAppending (λ dst. append_iso_timestamp dst usec suffix)
unfolding append_iso_timestamp
add_timestamp usec suffix =
    let (sec, frac) = split_usec usec in
    let t = split_time sec in
    chain (add_date t) (
      chain (then_add2 (codes "T") (pos t.hour)) (
        chain (then_add2 (codes ":") (pos t.min)) (
          chain (then_add2 (codes ":") (pos t.second)) (
            chain (either (not (frac == 0)) (chain (add (codes ".")) (add6 frac)) keep_it)
              (add suffix)))))

encode_timestamp-Appends : (suffix : Bytes) → Appends (encode_timestamp suffix)
encode_timestamp-Appends suffix = cell-Appends _ (λ raw. sized 8 raw (
    either (be64 raw 0 == 2 ^ 63 - 1) (add (codes "\"infinity\"")) (
      either (be64 raw 0 == 2 ^ 63) (add (codes "\"-infinity\"")) (
        chain (add (codes "\""))
          (chain (add_timestamp (signed64 (be64 raw 0)) suffix) (add (codes "\"")))))))

pub encode_timestamp_binary-Appends : Appends encode_timestamp_binary
unfolding encode_timestamp_binary
encode_timestamp_binary-Appends = encode_timestamp-Appends []

pub encode_timestamp_tz_binary-Appends : Appends encode_timestamp_tz_binary
unfolding encode_timestamp_tz_binary
encode_timestamp_tz_binary-Appends = encode_timestamp-Appends (codes "Z")

add_date_only : (usec : ℤ) → IsAppending (λ dst. append_iso_date_only dst usec)
unfolding append_iso_date_only
add_date_only usec = add_date _

pub encode_date_binary-Appends : Appends encode_date_binary
unfolding encode_date_binary
encode_date_binary-Appends = cell-Appends _ (λ raw. sized 4 raw (
    either (be32 raw 0 == 2 ^ 31 - 1) (add (codes "\"infinity\"")) (
      either (be32 raw 0 == 2 ^ 31) (add (codes "\"-infinity\"")) (
        chain (add (codes "\""))
          (chain (add_date_only (date_usec (signed32 (be32 raw 0)))) (add (codes "\"")))))))

add_frac6 : (v : ℤ) → IsAppending (λ dst. append_frac6 dst v)
unfolding append_frac6
add_frac6 v dst = refl

add_unit : (v : ℤ) (unit : ℕ) → IsAppending (λ dst. append_unit dst v unit)
add_unit v unit = either (not (is_zero v)) (chain (add_int v) (add (unit ∷ []))) keep_it

add_interval_time : (micros : ℤ) → IsAppending (λ dst. append_interval_time dst micros)
unfolding append_interval_time
add_interval_time micros =
    let hours = quot micros 3600000000 in
    let m₁ = micros -ℤ scale hours 3600000000 in
    let mins = quot m₁ 60000000 in
    let m₂ = m₁ -ℤ scale mins 60000000 in
    let secs = quot m₂ 1000000 in
    let frac = m₂ -ℤ scale secs 1000000 in
    chain (add_unit hours b'H') (
      chain (add_unit mins b'M') (
        either (not (is_zero secs && is_zero frac))
          (chain (add_int secs) (
            chain (either (not (is_zero frac)) (chain (add (codes ".")) (add_frac6 frac)) keep_it)
              (add (codes "S"))))
          keep_it))

add_interval : (micros days total : ℤ) → IsAppending (λ dst. append_interval dst micros days total)
unfolding append_interval
add_interval micros days total =
    let years = quot total 12 in
    let months = total -ℤ scale years 12 in
    either (is_zero years && is_zero months && is_zero days && is_zero micros)
      (add (codes "\"PT0S\""))
      (chain (add (codes "\"P")) (
        chain (add_unit years b'Y') (
          chain (add_unit months b'M') (
            chain (add_unit days b'D') (
              chain
                (either (not (is_zero micros)) (chain (add (codes "T")) (add_interval_time micros))
                  keep_it)
                (add (codes "\"")))))))

pub encode_interval_binary-Appends : Appends encode_interval_binary
unfolding encode_interval_binary
encode_interval_binary-Appends = cell-Appends _ (λ raw.
    sized 16 raw
      (add_interval (signed64 (be64 raw 0)) (signed32 (be32 raw 8)) (signed32 (be32 raw 12))))

add_time_of_day : (usec : ℤ) → IsAppending (λ dst. append_time_of_day dst usec)
unfolding append_time_of_day
add_time_of_day usec =
    let u = if is_neg usec then 0 else abs usec in
    let hours = u / 3600000000 in
    let u₁ = u - hours * 3600000000 in
    let mins = u₁ / 60000000 in
    let u₂ = u₁ - mins * 60000000 in
    let secs = u₂ / 1000000 in
    let frac = u₂ - secs * 1000000 in
    chain (add2_then (pos hours) (codes ":")) (
      chain (add2_then (pos mins) (codes ":")) (
        chain (add2 (pos secs))
          (either (not (frac == 0)) (chain (add (codes ".")) (add_frac6 (pos frac))) keep_it)))

pub encode_time_binary-Appends : Appends encode_time_binary
unfolding encode_time_binary
encode_time_binary-Appends = cell-Appends _ (λ raw.
    sized 8 raw (
      chain (add (codes "\""))
        (chain (add_time_of_day (signed64 (be64 raw 0))) (add (codes "\"")))))

pub encode_time_tz_binary-Appends : Appends encode_time_tz_binary
unfolding encode_time_tz_binary
encode_time_tz_binary-Appends = cell-Appends _ (λ raw.
    let east = neg32 (signed32 (be32 raw 8)) in
    let zone = if not (is_neg east) then east else neg32 east in
    sized 12 raw (
      chain (add (codes "\"")) (
        chain (add_time_of_day (signed64 (be64 raw 0))) (
          chain (either (not (is_neg east)) (add (codes "+")) (add (codes "-"))) (
            chain (add2_then (quot zone 3600) (codes ":"))
              (add2_then (quot (rem zone 3600) 60) (codes "\"")))))))
