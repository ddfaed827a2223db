-- ===== src/Schedules/Timing.antt =====
-- shared/schedules/timing.ts. An instant is a number of milliseconds from the epoch. The cache of
-- formatters is left out: it has no effect on the results.
pub mod Intervals
pub mod Days
use open_instinct.Base.{
  ℕ, zero, suc, ◌+◌, ◌-◌, ◌*◌, ◌/◌, ◌%◌, Bool, true, false, not, ◌&&◌, ◌||◌, Option, none, some,
  List, [], ◌∷◌, Text, text_eq, codes, ltb, leb, ◌==◌, if◌then◌else◌,
}
use open_instinct.Schedules.Platform.{
  Platform, PartType, day, hour, minute, month, second, weekday, year,
}
use open_instinct.Schedules.Calendar.{day_ms, date_utc, utc_civil}

pub data Frequency : Type 0 where
  daily weekdays weekly : Frequency

pub data ScheduleTiming : Type 0 where
  once : (at : Text) → ScheduleTiming
  interval : (anchored_at : Text) (every_minutes : ℕ) → ScheduleTiming
  calendar :
      (frequency : Frequency) (local_time : Text) (timezone : Text) (on_day : Option ℕ)
      → ScheduleTiming

-- /^(?:[01]\d|2[0-3]):[0-5]\d$/u
local_time_schema : Text → Bool
local_time_schema (a ∷ b ∷ c ∷ d ∷ e ∷ []) =
    (((a == b'0' || a == b'1') && leb b'0' b && leb b b'9')
      || (a == b'2' && leb b'0' b && leb b b'3'))
    && (c == b':')
    && leb b'0' d
    && leb d b'5'
    && leb b'0' e
    && leb e b'9'
local_time_schema _ = false

weekday_schema : Option ℕ → Bool
weekday_schema none = true
weekday_schema (some w) = leb w 6

-- The `superRefine`: weekly schedules require a weekday.
weekly_has_day : Frequency → Option ℕ → Bool
weekly_has_day weekly none = false
weekly_has_day _ _ = true

is_empty : Text → Bool
is_empty [] = true
is_empty (_ ∷ _) = false

-- `Number` of a text of decimal digits.
digits_from : ℕ → Text → ℕ
digits_from acc [] = acc
digits_from acc (c ∷ cs) = digits_from (acc * 10 + (c - b'0')) cs

unfoldable pub number : Text → ℕ
unfolding digits_from
number text = digits_from 0 text

-- `text.split(":")`
split_colon : Text → List Text
split_colon [] = [] ∷ []
split_colon (c ∷ cs) = elim (split_colon cs) [
  | [] ↦ (if c == b':' then [] else c ∷ []) ∷ []
  | p ∷ ps ↦ if c == b':' then [] ∷ p ∷ ps else (c ∷ p) ∷ ps
]

-- `const [hourText, minuteText] = timing.localTime.split(":")`, as numbers.
unfoldable pub local_clock : Text → ℕ × ℕ
unfolding split_colon number
local_clock text = elim (split_colon text) [
  | [] ↦ (0, 0)
  | h ∷ rest ↦ elim rest [ [] ↦ (number h, 0) | m ∷ _ ↦ (number h, number m) ]
]

pub record ZonedParts : Type 0 where
  pub day : ℕ
  pub hour : ℕ
  pub minute : ℕ
  pub month : ℕ
  pub second : ℕ
  pub weekday : ℕ
  pub year : ℕ

same_part : PartType → PartType → Bool
same_part day day = true
same_part hour hour = true
same_part minute minute = true
same_part month month = true
same_part second second = true
same_part weekday weekday = true
same_part year year = true
same_part _ _ = false

-- `parts.find((part) => part.type === type)?.value ?? "0"`
part_value : PartType → List (PartType × Text) → Text
part_value type [] = b'0' ∷ []
part_value type ((t, v) ∷ parts) = if same_part t type then v else part_value type parts

weekday_names : List Text
unfolding codes
weekday_names =
    codes "Sun"
    ∷ codes "Mon"
    ∷ codes "Tue"
    ∷ codes "Wed"
    ∷ codes "Thu"
    ∷ codes "Fri"
    ∷ codes "Sat"
    ∷ []

-- `Math.max(0, names.indexOf(name))`
index_of : Text → ℕ → List Text → ℕ
index_of name i [] = 0
index_of name i (n ∷ ns) = if text_eq n name then i else index_of name (i + 1) ns

-- One of the loops over `offset`, from `offset` on with `rounds` left: the first candidate that
-- neither `early` nor the day of the week rules out.
unfoldable pub first_candidate : (ℕ → ℕ) → (ℕ → Bool) → ℕ → ℕ → Option ℕ
first_candidate candidate ruled_out zero offset = none
first_candidate candidate ruled_out (suc rounds) offset =
    let later = first_candidate candidate ruled_out rounds (offset + 1) in
    if ruled_out (candidate offset) then later else some (candidate offset)

-- The two tests of a round that skip a candidate by its day of the week.
unfoldable pub off_day : Frequency → Option ℕ → ℕ → Bool
off_day daily on_day today = false
off_day weekdays on_day today = today == 0 || today == 6
off_day weekly none today = true
off_day weekly (some w) today = not (today == w)

module _ (p : Platform) where
  unfoldable pub schedule_timing_schema : ScheduleTiming → Bool
  unfolding local_time_schema weekday_schema weekly_has_day is_empty
  schedule_timing_schema (once at) = p.is_datetime at
  schedule_timing_schema (interval anchored_at every_minutes) =
      p.is_datetime anchored_at && leb 1 every_minutes && leb every_minutes 525600
  schedule_timing_schema (calendar frequency local_time timezone on_day) =
      local_time_schema local_time
      && (not (is_empty timezone) && p.is_timezone timezone)
      && weekday_schema on_day
      && weekly_has_day frequency on_day

  unfoldable pub zoned_parts : ℕ → Text → ZonedParts
  unfolding part_value same_part text_eq weekday_names index_of number
  zoned_parts at timezone =
      let parts = p.format_to_parts timezone at in
      record {
        day = number (part_value PartType.day parts);
        hour = number (part_value PartType.hour parts) % 24;
        minute = number (part_value PartType.minute parts);
        month = number (part_value PartType.month parts);
        second = number (part_value PartType.second parts);
        weekday = index_of (part_value PartType.weekday parts) 0 weekday_names;
        year = number (part_value PartType.year parts);
      }

  -- The wall clock of the zone at an instant, read as UTC: the instant plus `zoneOffset`, which
  -- may be negative. An instant minus `zoneOffset` is therefore twice the instant minus this.
  unfoldable pub wall_clock : ℕ → Text → ℕ
  unfolding zoned_parts date_utc
  wall_clock at timezone =
      let parts = zoned_parts at timezone in
      date_utc parts.year (parts.month - 1) parts.day parts.hour parts.minute parts.second

  -- `base - zoneOffset(at, timezone)`
  abbrev minus_zone_offset : ℕ → ℕ → Text → ℕ
  minus_zone_offset base at timezone = base + at - wall_clock at timezone

  unfoldable pub from_wall_clock : Text → ℕ → ℕ → ℕ → ℕ → ℕ → ℕ
  unfolding wall_clock
  from_wall_clock timezone y mo d h mi =
      let naive = date_utc y (mo - 1) d h mi 0 in
      let first_pass = minus_zone_offset naive naive timezone in
      let resolved = minus_zone_offset naive first_pass timezone in
      let read_back = zoned_parts resolved timezone in
      let shifted = date_utc y (mo - 1) d (h + 1) mi 0 in
      if (read_back.hour == h) && (read_back.minute == mi)
      then resolved
      else minus_zone_offset shifted (minus_zone_offset shifted shifted timezone) timezone

  -- The candidate of a round: the local time on the `UTC` day of the instant `at`.
  unfoldable pub candidate_at : Text → ℕ → ℕ → ℕ → ℕ
  unfolding from_wall_clock utc_civil
  candidate_at timezone h mi at =
      let date = utc_civil at in from_wall_clock timezone date.year (date.month + 1) date.day h mi

  unfoldable pub wrong_day : Frequency → Option ℕ → Text → ℕ → Bool
  wrong_day frequency on_day timezone candidate =
      off_day frequency on_day (zoned_parts candidate timezone).weekday

  -- `Date.UTC(start.year, start.month - 1, start.day)`, the day on which the loops start.
  unfoldable pub start_day : ℕ → Text → ℕ
  unfolding zoned_parts
  start_day at timezone =
      let start = zoned_parts at timezone in date_utc start.year (start.month - 1) start.day 0 0 0

  unfoldable pub next_calendar : Frequency → Text → Text → Option ℕ → ℕ → Option ℕ
  unfolding candidate_at wrong_day off_day first_candidate start_day local_clock zoned_parts
  next_calendar frequency local_time timezone on_day after =
      let (h, mi) = local_clock local_time in
      let start = start_day after timezone in
      first_candidate (λ offset. candidate_at timezone h mi (start + offset * day_ms))
        (λ candidate. leb candidate after || wrong_day frequency on_day timezone candidate) 15 0

  unfoldable pub latest_calendar : Frequency → Text → Text → Option ℕ → ℕ → Option ℕ
  unfolding candidate_at wrong_day off_day first_candidate start_day local_clock zoned_parts
  latest_calendar frequency local_time timezone on_day at =
      let (h, mi) = local_clock local_time in
      let start = start_day at timezone in
      first_candidate (λ offset. candidate_at timezone h mi (start - offset * day_ms))
        (λ candidate. ltb at candidate || wrong_day frequency on_day timezone candidate) 15 0

  unfoldable pub compute_next_run : ScheduleTiming → ℕ → Option ℕ
  compute_next_run (once at) after =
      if ltb after (p.date_parse at) then some (p.date_parse at) else none
  compute_next_run (interval anchored_at every_minutes) after =
      let anchor = p.date_parse anchored_at in
      let step = every_minutes * 60000 in
      if ltb after anchor then some anchor else some (anchor + ((after - anchor) / step + 1) * step)
  compute_next_run (calendar frequency local_time timezone on_day) after =
      next_calendar frequency local_time timezone on_day after

  unfoldable pub compute_latest_run : ScheduleTiming → ℕ → Option ℕ
  compute_latest_run (once at) now =
      if leb (p.date_parse at) now then some (p.date_parse at) else none
  compute_latest_run (interval anchored_at every_minutes) now =
      let anchor = p.date_parse anchored_at in
      let step = every_minutes * 60000 in
      if ltb now anchor then none else some (anchor + (now - anchor) / step * step)
  compute_latest_run (calendar frequency local_time timezone on_day) now =
      latest_calendar frequency local_time timezone on_day now
