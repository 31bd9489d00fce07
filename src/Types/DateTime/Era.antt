-- ===== src/Types/DateTime/Era.antt =====
-- The date of a day in the era of 400 years, which `splitTime` computes by divisions, against the
-- leap-year rule and the lengths of the months.
use pg2json.Common.{
  ℕ, suc, ◌+◌, ◌-◌, ◌*◌, ◌/◌, ◌%◌, ◌≤◌, ◌<◌, ◌≡◌, Bool, true, false, ◌&&◌, ◌||◌, not, arith, ltb,
  ◌==◌, if◌then◌else◌,
}
use pg2json.Types.DateTime.{year_of_era, day_of_year, month_of}

-- The first day of a year that begins on March 1, counted from the start of the era.
abbrev pub year_start : ℕ → ℕ
year_start y = 365 * y + y / 4 - y / 100 + y / 400

-- The division finds the year whose days hold the given one.
pub year_of_era_bounds :
    (d : ℕ)
    → d < 146097
    → (year_of_era d < 400)
      × (year_start (year_of_era d) ≤ d)
      × (d < year_start (year_of_era d + 1))
unfolding year_of_era
year_of_era_bounds d h = (omega arith, omega arith, omega arith)

pub year_of_era_unique :
    (d y : ℕ) → d < 146097 → year_start y ≤ d → d < year_start (y + 1) → year_of_era d ≡ y
year_of_era_unique d y h lo hi = omega (arith, year_of_era_bounds d h)

-- The month and the day of a day of the year that begins on March 1.
abbrev month_index : ℕ → ℕ
month_index doy = (5 * doy + 2) / 153

unfoldable pub month_at : ℕ → ℕ
month_at doy = month_of (month_index doy)

unfoldable pub day_at : ℕ → ℕ
day_at doy = doy - (153 * month_index doy + 2) / 5 + 1

-- The Gregorian rule.
abbrev pub is_leap : ℕ → Bool
is_leap y = y % 4 == 0 && (not (y % 100 == 0) || y % 400 == 0)

abbrev pub month_length : Bool → ℕ → ℕ
month_length leap m =
    if m == 2
    then if leap then 29 else 28
    else if m == 4 || m == 6 || m == 9 || m == 11
    then 30
    else 31

-- The day behind a day of a month.
abbrev pub next_month_day : Bool → ℕ → ℕ → ℕ × ℕ
next_month_day leap m d =
    if ltb d (month_length leap m) then (m, d + 1) else if m == 12 then (1, 1) else (m + 1, 1)

-- Within a year from March on, day after day. `leap` says whether its February has 29 days.
pub month_day_next :
    (leap : Bool) (d : ℕ)
    → suc d < (if leap then 366 else 365)
    → (month_at (suc d) ≡ (next_month_day leap (month_at d) (day_at d)).0)
      × (day_at (suc d) ≡ (next_month_day leap (month_at d) (day_at d)).1)
unfolding month_at day_at
month_day_next true d h = (ground arith, ground arith)
month_day_next false d h = (ground arith, ground arith)

pub month_day_bounds :
    (leap : Bool) (d : ℕ)
    → d < (if leap then 366 else 365)
    → (1 ≤ month_at d)
      × (month_at d ≤ 12)
      × (1 ≤ day_at d)
      × (day_at d ≤ month_length leap (month_at d))
unfolding month_at day_at
month_day_bounds true d h = (ground arith, ground arith, ground arith, ground arith)
month_day_bounds false d h = (ground arith, ground arith, ground arith, ground arith)

-- The days of a year of the era, which ends with the February of the next one.
pub year_start_next :
    (y : ℕ) → year_start (y + 1) ≡ year_start y + (if is_leap (y + 1) then 366 else 365)
year_start_next y = ground arith

pub day_of_year_start : (d : ℕ) → d < 146097 → d ≡ year_start (year_of_era d) + day_of_year d
unfolding day_of_year
day_of_year_start d h = omega (arith, year_of_era_bounds d h)

-- The last day of February ends the year, and no other day does.
pub february_ends :
    (leap : Bool) (d : ℕ)
    → suc d < (if leap then 366 else 365)
    → month_at d ≡ 2
    → day_at d < month_length leap 2
unfolding month_at day_at
february_ends true d h e = ground arith
february_ends false d h e = ground arith

pub year_ends :
    (leap : Bool) (d : ℕ)
    → suc d ≡ (if leap then 366 else 365)
    → (month_at d ≡ 2) × (day_at d ≡ month_length leap 2)
unfolding month_at day_at
year_ends true d h = (ground arith, ground arith)
year_ends false d h = (ground arith, ground arith)
