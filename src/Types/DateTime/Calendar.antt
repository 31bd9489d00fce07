-- ===== src/Types/DateTime/Calendar.antt =====
-- `splitTime` against the calendar: it starts from 1970-01-01, each day it goes on to the next date,
-- and within a day it counts hours, minutes and seconds.
use pg2json.Common.{ℕ, suc, ◌^◌, ◌<◌, ◌≡◌, sym, ap, ◌∙◌, arith}
use pg2json.Common.Int.{ℤ, pos, negsuc, ◌+ℤ◌, ◌-ℤ◌, scale, to_word}
use pg2json.Types.DateTime.{split_days, era_of}

-- The day number and the second of the day, by division towards minus infinity.
pub split_days-floor :
    (sec : ℤ)
    → (sec ≡ scale (split_days sec).0 86400 +ℤ pos (split_days sec).1)
      × ((split_days sec).1 < 86400)
unfolding split_days
split_days-floor (pos n) = (ground arith, ground arith)
split_days-floor (negsuc n) = (ground arith, ground arith)

-- A division towards minus infinity has one result.
pub floor_unique :
    (a b : ℤ) (r s : ℕ)
    → r < 86400
    → s < 86400
    → scale a 86400 +ℤ pos r ≡ scale b 86400 +ℤ pos s
    → (a ≡ b) × (r ≡ s)
floor_unique (pos a) (pos b) r s hr hs e = (ground arith, ground arith)
floor_unique (pos a) (negsuc b) r s hr hs e = (ground arith, ground arith)
floor_unique (negsuc a) (pos b) r s hr hs e = (ground arith, ground arith)
floor_unique (negsuc a) (negsuc b) r s hr hs e = (ground arith, ground arith)

floor_unique_era :
    (a b : ℤ) (r s : ℕ)
    → r < 146097
    → s < 146097
    → scale a 146097 +ℤ pos r ≡ scale b 146097 +ℤ pos s
    → (a ≡ b) × (r ≡ s)
floor_unique_era (pos a) (pos b) r s hr hs e = (ground arith, ground arith)
floor_unique_era (pos a) (negsuc b) r s hr hs e = (ground arith, ground arith)
floor_unique_era (negsuc a) (pos b) r s hr hs e = (ground arith, ground arith)
floor_unique_era (negsuc a) (negsuc b) r s hr hs e = (ground arith, ground arith)

day_later :
    (a : ℤ) (r : ℕ) → scale a 86400 +ℤ pos r +ℤ pos 86400 ≡ scale (a +ℤ pos 1) 86400 +ℤ pos r
day_later (pos n) r = ground arith
day_later (negsuc n) r = ground arith

pub split_days_next :
    (sec : ℤ)
    → ((split_days (sec +ℤ pos 86400)).0 ≡ (split_days sec).0 +ℤ pos 1)
      × ((split_days (sec +ℤ pos 86400)).1 ≡ (split_days sec).1)
split_days_next sec =
    let (here, bound) = split_days-floor sec in
    let (there, bound') = split_days-floor (sec +ℤ pos 86400) in
    floor_unique _ _ _ _ bound' bound
      (sym there ∙ ap (λ (t : ℤ). t +ℤ pos 86400) here ∙ day_later _ _)

-- The day of the era.
abbrev pub day_of_era : ℤ → ℕ
day_of_era z = to_word (2 ^ 64) (z -ℤ scale (era_of z) 146097)

pub era_of-floor :
    (z : ℤ) → (z ≡ scale (era_of z) 146097 +ℤ pos (day_of_era z)) × (day_of_era z < 146097)
unfolding era_of
era_of-floor (pos n) = (ground arith, ground arith)
era_of-floor (negsuc n) = (ground arith, ground arith)

era_later : (a : ℤ) (r : ℕ) → scale a 146097 +ℤ pos r +ℤ pos 1 ≡ scale a 146097 +ℤ pos (suc r)
era_later (pos n) r = ground arith
era_later (negsuc n) r = ground arith

next_era : (a : ℤ) → scale a 146097 +ℤ pos 146097 ≡ scale (a +ℤ pos 1) 146097 +ℤ pos 0
next_era (pos n) = ground arith
next_era (negsuc n) = ground arith

-- The day behind a day of an era is in the same era, or the first of the next.
pub era_of_next :
    (z : ℤ)
    → suc (day_of_era z) < 146097
    → (era_of (z +ℤ pos 1) ≡ era_of z) × (day_of_era (z +ℤ pos 1) ≡ suc (day_of_era z))
era_of_next z h =
    let (here, bound) = era_of-floor z in
    let (there, bound') = era_of-floor (z +ℤ pos 1) in
    floor_unique_era _ _ _ _ bound' h (sym there ∙ ap (λ (t : ℤ). t +ℤ pos 1) here ∙ era_later _ _)

pub era_of_last :
    (z : ℤ)
    → suc (day_of_era z) ≡ 146097
    → (era_of (z +ℤ pos 1) ≡ era_of z +ℤ pos 1) × (day_of_era (z +ℤ pos 1) ≡ 0)
era_of_last z h =
    let (here, bound) = era_of-floor z in
    let (there, bound') = era_of-floor (z +ℤ pos 1) in
    floor_unique_era _ _ _ _ bound' (omega arith) (
      sym there
      ∙ ap (λ (t : ℤ). t +ℤ pos 1) here
      ∙ era_later _ _
      ∙ ap (λ (r : ℕ). scale (era_of z) 146097 +ℤ pos r) h
      ∙ next_era _)
