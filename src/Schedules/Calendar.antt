-- ===== src/Schedules/Calendar.antt =====
-- Date.UTC and the getUTC methods of JavaScript's Date, for instants from the epoch on, in
-- milliseconds: the proleptic Gregorian calendar of ECMAScript.
use open_instinct.Base.{
  ℕ, zero, suc, ◌+◌, ◌-◌, ◌*◌, ◌/◌, ◌%◌, Bool, not, ◌&&◌, ◌||◌, List, [], ◌∷◌, ltb, ◌==◌,
  if◌then◌else◌,
}

abbrev pub day_ms : ℕ
day_ms = 86400000

is_leap : ℕ → Bool
is_leap y = (y % 4 == 0 && not (y % 100 == 0)) || (y % 400 == 0)

unfoldable pub days_in_year : ℕ → ℕ
unfolding is_leap
days_in_year y = if is_leap y then 366 else 365

-- The lengths of the months of a year, January first.
month_lengths : ℕ → List ℕ
unfolding is_leap
month_lengths y =
    31 ∷ (if is_leap y then 29 else 28) ∷ 31 ∷ 30 ∷ 31 ∷ 30 ∷ 31 ∷ 31 ∷ 30 ∷ 31 ∷ 30 ∷ 31 ∷ []

-- The days before month `m`, 0 for January.
days_before : ℕ → List ℕ → ℕ
days_before m [] = 0
days_before zero (n ∷ ns) = 0
days_before (suc m) (n ∷ ns) = n + days_before m ns

-- The day of the first of January of a year from 1970 on, counted from the epoch.
day_from_year : ℕ → ℕ
day_from_year y = 365 * (y - 1970) + (y - 1969) / 4 + (y - 1601) / 400 - (y - 1901) / 100

-- ECMAScript's MakeDay: `m` counts from 0 and may pass 11.
make_day : ℕ → ℕ → ℕ → ℕ
unfolding day_from_year days_before month_lengths
make_day y m d =
    day_from_year (y + m / 12) + days_before (m % 12) (month_lengths (y + m / 12)) + d - 1

-- `Date.UTC(year, month, day, hour, minute, second)`
unfoldable pub date_utc : ℕ → ℕ → ℕ → ℕ → ℕ → ℕ → ℕ
unfolding make_day
date_utc y m d h mi s = make_day y m d * day_ms + h * 3600000 + mi * 60000 + s * 1000

pub record Civil : Type 0 where
  pub year : ℕ
  pub month : ℕ
  pub day : ℕ

-- The year of a day, and the days since its first of January.
year_loop : ℕ → ℕ → ℕ → ℕ × ℕ
year_loop zero y rest = (y, rest)
year_loop (suc fuel) y rest =
    let later = year_loop fuel (y + 1) (rest - days_in_year y) in
    if ltb rest (days_in_year y) then (y, rest) else later

month_loop : List ℕ → ℕ → ℕ → ℕ × ℕ
month_loop [] m rest = (m, rest)
month_loop (n ∷ ns) m rest =
    let later = month_loop ns (m + 1) (rest - n) in if ltb rest n then (m, rest) else later

-- getUTCFullYear, getUTCMonth (from 0) and getUTCDate of an instant. No year has fewer than 365
-- days, so the fuel is enough.
unfoldable pub utc_civil : ℕ → Civil
unfolding year_loop month_loop days_in_year month_lengths
utc_civil t =
    let days = t / day_ms in
    let (y, rest) = year_loop (days / 365 + 1) 1970 days in
    let (m, d) = month_loop (month_lengths y) 0 rest in record { year = y; month = m; day = d + 1 }
