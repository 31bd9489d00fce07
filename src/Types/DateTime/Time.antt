-- ===== src/Types/DateTime/Time.antt =====
-- What `splitTime` gives at every instant: the calendar's date and the time of day.
use pg2json.Common.{ℕ, ◌+◌, ◌*◌, ◌<◌, ◌≡◌, refl, sym, ap, ◌∙◌, arith}
use pg2json.Common.Int.{ℤ, pos, ◌+ℤ◌, scale}
use pg2json.Types.DateTime.{split_days, era_of, year_of_era, day_of_year, split_time}
use pg2json.Types.DateTime.Calendar.{split_days-floor, floor_unique}
use pg2json.Types.DateTime.Next.{
  date_of, next_date, date_at, split_time-date_at, date_next_day, add_comm_later,
}
use pg2json.Types.DateTime.Calendar.{day_of_era}

-- Second `r` of the day `d`, counted from 1970-01-01.
abbrev pub instant : ℤ → ℕ → ℤ
instant d r = scale d 86400 +ℤ pos r

split_days-instant :
    (d : ℤ) (r : ℕ)
    → r < 86400
    → ((split_days (instant d r)).0 ≡ d) × ((split_days (instant d r)).1 ≡ r)
split_days-instant d r h =
    let (here, bound) = split_days-floor (instant d r) in floor_unique _ _ _ _ bound h (sym here)

date-instant :
    (d : ℤ) (r : ℕ)
    → r < 86400
    → date_of (split_time (instant d r))
      ≡ date_at (era_of (d +ℤ pos 719468)) (day_of_era (d +ℤ pos 719468))
date-instant d r h =
    split_time-date_at (instant d r)
    ∙ ap (λ (z : ℤ). date_at (era_of (z +ℤ pos 719468)) (day_of_era (z +ℤ pos 719468)))
        (split_days-instant d r h).0

epoch_date : date_of (split_time (pos 0)) ≡ record { year = pos 1970; month = 1; day = 1 }
unfolding split_time split_days era_of year_of_era day_of_year
epoch_date = refl

time-instant :
    (sec : ℤ)
    → let t = split_time sec in
      (t.hour < 24)
      × (t.min < 60)
      × (t.second < 60)
      × (t.hour * 3600 + t.min * 60 + t.second ≡ (split_days sec).1)
unfolding split_time
time-instant sec = omega (arith, (split_days-floor sec).1)

-- The civil time of `splitTime` is the proleptic Gregorian calendar's: second 0 is of 1970-01-01,
-- any second of a day has the date that the calendar puts behind the date of any second of the day
-- before, and hour, minute and second are in range and spell the second of the day.
pub split_time_calendar :
    (d : ℤ) (r s : ℕ)
    → r < 86400
    → s < 86400
    → let t = split_time (instant d r) in
      (date_of (split_time (instant (d +ℤ pos 1) s)) ≡ next_date (date_of t))
      × (date_of (split_time (pos 0)) ≡ record { year = pos 1970; month = 1; day = 1 })
      × (t.hour < 24)
      × (t.min < 60)
      × (t.second < 60)
      × (t.hour * 3600 + t.min * 60 + t.second ≡ r)
split_time_calendar d r s hr hs =
    let (hour, min, second, sum) = time-instant (instant d r) in
    (
      date-instant (d +ℤ pos 1) s hs
          ∙ ap (λ (z : ℤ). date_at (era_of z) (day_of_era z)) (add_comm_later d)
          ∙ date_next_day (d +ℤ pos 719468)
          ∙ ap next_date (sym (date-instant d r hr)),
      epoch_date,
      hour,
      min,
      second,
      sum ∙ (split_days-instant d r hr).1,
    )
