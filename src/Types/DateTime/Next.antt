-- ===== src/Types/DateTime/Next.antt =====
-- The dates that `splitTime` gives to consecutive days.
use pg2json.Common.{
  ℕ, suc, ◌+◌, ◌≤◌, ◌<◌, ◌≡◌, refl, sym, ap, ap₂, ◌∙◌, Bool, true, false, arith, ltb, leb, ◌==◌,
  ==_iff, if◌then◌else◌, Bool-cases, inl, inr, ◌⊎◌,
}
use pg2json.Common.Int.{ℤ, pos, negsuc, ◌+ℤ◌, scale, abs}
use pg2json.Types.DateTime.{Civil, split_days, era_of, year_of_era, day_of_year, split_time}
use pg2json.Types.DateTime.Era.{
  year_start, month_at, day_at, is_leap, month_length, next_month_day, year_of_era_bounds,
  year_of_era_unique, month_day_next, month_day_bounds, year_start_next, day_of_year_start,
  february_ends, year_ends,
}
use pg2json.Types.DateTime.Calendar.{day_of_era, era_of-floor, era_of_next, era_of_last}

pub record Date : Type 0 where
  pub year : ℤ
  pub month : ℕ
  pub day : ℕ

abbrev pub date_of : Civil → Date
date_of t = record { year = t.year; month = t.month; day = t.day }

-- The Gregorian rule, on years before 1 too (the year 0 is 1 BC).
unfoldable pub is_leap_year : ℤ → Bool
is_leap_year y = is_leap (abs y)

-- The date behind a date.
abbrev pub next_date : Date → Date
next_date t =
    if ltb t.day (month_length (is_leap_year t.year) t.month)
    then record t { day = t.day + 1 }
    else if t.month == 12
    then record { year = t.year +ℤ pos 1; month = 1; day = 1 }
    else record t { month = t.month + 1; day = 1 }

abbrev pub date_from : ℤ → ℕ → Date
date_from y doy = record {
  year = if leb (month_at doy) 2 then y +ℤ pos 1 else y;
  month = month_at doy;
  day = day_at doy;
}

abbrev pub year_in : ℤ → ℕ → ℤ
year_in era yoe = pos yoe +ℤ scale era 400

-- The date of a day of an era.
abbrev pub date_at : ℤ → ℕ → Date
date_at era doe = date_from (year_in era (year_of_era doe)) (day_of_year doe)

is_leap_year_in : (era : ℤ) (y : ℕ) → is_leap_year (year_in era y +ℤ pos 1) ≡ is_leap (y + 1)
unfolding is_leap_year
is_leap_year_in (pos n) y = ground arith
is_leap_year_in (negsuc n) y = ground arith

-- The step within a year from March on, with the parts of both dates as variables.
date_carry :
    (y y' : ℤ) (leap : Bool) (m d m' d' : ℕ)
    → y' ≡ y +ℤ pos 1
    → is_leap_year y' ≡ leap
    → m' ≡ (next_month_day leap m d).0
    → d' ≡ (next_month_day leap m d).1
    → 1 ≤ m
    → m ≤ 12
    → (m ≡ 2 → d < month_length leap 2)
    → let year = if leb m 2 then y' else y in
      let t : Date = record { year = year; month = m; day = d } in
      let t' : Date = record { year = if leb m' 2 then y' else y; month = m'; day = d' } in
      t' ≡ next_date t
date_carry y y' leap m d m' d' ey el em ed lo hi feb = ground arith

date_from_next :
    (y : ℤ) (doy : ℕ) (leap : Bool)
    → is_leap_year (y +ℤ pos 1) ≡ leap
    → suc doy < (if leap then 366 else 365)
    → date_from y (suc doy) ≡ next_date (date_from y doy)
date_from_next y doy leap e h =
    let (em, ed) = month_day_next leap doy h in
    let (lo, hi, _, _) = month_day_bounds leap doy (omega arith) in
    date_carry y (y +ℤ pos 1) leap (month_at doy) (day_at doy) (month_at (suc doy))
      (day_at (suc doy)) refl e em ed lo hi (february_ends leap doy h)

date_from_year :
    (y : ℤ) (doy : ℕ) (leap : Bool)
    → is_leap_year (y +ℤ pos 1) ≡ leap
    → suc doy ≡ (if leap then 366 else 365)
    → date_from (y +ℤ pos 1) 0 ≡ next_date (date_from y doy)
unfolding month_at day_at
date_from_year y doy true e h = let (em, ed) = year_ends true doy h in rw (em, ed, e) refl
date_from_year y doy false e h = let (em, ed) = year_ends false doy h in rw (em, ed, e) refl

year_in_next : (era : ℤ) (y : ℕ) → year_in era (y + 1) ≡ year_in era y +ℤ pos 1
year_in_next (pos n) y = ground arith
year_in_next (negsuc n) y = ground arith

year_in_era : (era : ℤ) → year_in (era +ℤ pos 1) 0 ≡ year_in era 399 +ℤ pos 1
year_in_era (pos n) = ground arith
year_in_era (negsuc n) = ground arith

-- Where a day stands in its year, and what is true of the next one.
same_year :
    (d : ℕ)
    → suc d < 146097
    → suc (day_of_year d) < (if is_leap (year_of_era d + 1) then 366 else 365)
    → (year_of_era (suc d) ≡ year_of_era d) × (day_of_year (suc d) ≡ suc (day_of_year d))
same_year d h lt =
    let len = year_start_next (year_of_era d) in
    let at = day_of_year_start d (omega arith) in
    let same =
      year_of_era_unique (suc d) (year_of_era d) h (omega (arith, at)) (omega (arith, at, len)) in
    (same, omega (arith, at, day_of_year_start (suc d) h, ap year_start same))

new_year :
    (d : ℕ)
    → suc d < 146097
    → suc (day_of_year d) ≡ (if is_leap (year_of_era d + 1) then 366 else 365)
    → (year_of_era (suc d) ≡ year_of_era d + 1) × (day_of_year (suc d) ≡ 0)
new_year d h e =
    let len = year_start_next (year_of_era d) in
    let at = day_of_year_start d (omega arith) in
    let next =
      year_of_era_unique (suc d) (year_of_era d + 1) h (omega (arith, at, len))
        (omega (arith, at, len)) in
    (next, omega (arith, at, len, day_of_year_start (suc d) h, ap year_start next))

day_in_year :
    (d : ℕ)
    → d < 146097
    → (suc (day_of_year d) < (if is_leap (year_of_era d + 1) then 366 else 365))
      ⊎ (suc (day_of_year d) ≡ (if is_leap (year_of_era d + 1) then 366 else 365))
day_in_year d h =
    grind (arith, year_start_next (year_of_era d), day_of_year_start d h, year_of_era_bounds d h)

date_at_next : (era : ℤ) (d : ℕ) → suc d < 146097 → date_at era (suc d) ≡ next_date (date_at era d)
date_at_next era d h = elim (day_in_year d (omega arith)) [
  | inl lt ↦
      let (ey, ed) = same_year d h lt in
      rw (ey, ed)
        (date_from_next (year_in era (year_of_era d)) (day_of_year d) _
          (is_leap_year_in era (year_of_era d)) lt)
  | inr e ↦
      let (ey, ed) = new_year d h e in
      rw (ey, ed, year_in_next era (year_of_era d))
        (date_from_year (year_in era (year_of_era d)) (day_of_year d) _
          (is_leap_year_in era (year_of_era d)) e)
]

era_first : (year_of_era 0 ≡ 0) × (day_of_year 0 ≡ 0)
unfolding year_of_era day_of_year
era_first = (refl, refl)

era_end : (year_of_era 146096 ≡ 399) × (day_of_year 146096 ≡ 365)
unfolding year_of_era day_of_year
era_end = (refl, refl)

date_at_last : (era : ℤ) → date_at (era +ℤ pos 1) 0 ≡ next_date (date_at era 146096)
date_at_last era =
    rw (era_first.0, era_first.1, era_end.0, era_end.1, year_in_era era)
      (date_from_year (year_in era 399) 365 true (is_leap_year_in era 399) refl)

abbrev pub day_number : ℤ → ℤ
day_number sec = (split_days sec).0 +ℤ pos 719468

pub split_time-date_at :
    (sec : ℤ)
    → date_of (split_time sec) ≡ date_at (era_of (day_number sec)) (day_of_era (day_number sec))
unfolding split_time month_at day_at
split_time-date_at sec = refl

pub date_next_day :
    (z : ℤ)
    → date_at (era_of (z +ℤ pos 1)) (day_of_era (z +ℤ pos 1))
      ≡ next_date (date_at (era_of z) (day_of_era z))
date_next_day z = elim (Bool-cases (suc (day_of_era z) == 146097)) [
  | inl end ↦
      let last : suc (day_of_era z) ≡ 146097 = (==_iff _ _).0 end in
      let (ee, ed) = era_of_last z last in
      let here : day_of_era z ≡ 146096 = omega (arith, last) in
      ap₂ date_at ee ed
      ∙ date_at_last (era_of z)
      ∙ ap (λ (d : ℕ). next_date (date_at (era_of z) d)) (sym here)
  | inr inside ↦
      let lt : suc (day_of_era z) < 146097 = ground (arith, era_of-floor z) in
      let (ee, ed) = era_of_next z lt in
      ap₂ date_at ee ed ∙ date_at_next (era_of z) (day_of_era z) lt
]

pub add_comm_later : (a : ℤ) → a +ℤ pos 1 +ℤ pos 719468 ≡ a +ℤ pos 719468 +ℤ pos 1
add_comm_later (pos n) = ground arith
add_comm_later (negsuc n) = ground arith
