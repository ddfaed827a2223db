-- ===== src/Schedules/Timing/Days.antt =====
-- The calendar schedules: the loops of computeNextRun and computeLatestRun return the first
-- candidate that passes, and it lies on a day that the schedule names.
use native.Mathlib.Nat.{zero-add}
use mathlib.Core.Path.{subst}
use open_instinct.Base.{
  ap, ℕ, zero, suc, ◌+◌, ◌-◌, ◌*◌, ◌≤◌, ◌<◌, ◌≡◌, ◌⊎◌, inl, inr, ◌||◌, Bool, true, false, Option,
  none, some, Text, arith, Bool-cases, ltb, leb,
}
use open_instinct.Schedules.Calendar.{day_ms}
use open_instinct.Schedules.Platform.{Platform, PartType}
use open_instinct.Schedules.Timing.{
  part_value, Frequency, daily, weekdays, weekly, calendar, compute_next_run, compute_latest_run,
  zoned_parts, index_of, weekday_names, first_candidate, wrong_day, off_day, next_calendar,
  latest_calendar, candidate_at, start_day, local_clock,
}

-- What one of the loops returns: the candidate of the first round that is not ruled out, or
-- nothing where each round is.
abbrev pub IsFirst : (ℕ → ℕ) → (ℕ → Bool) → ℕ → ℕ → Option ℕ → Type 0
IsFirst candidate ruled_out rounds offset none =
    (i : ℕ) → i < rounds → ruled_out (candidate (offset + i)) ≡ true
IsFirst candidate ruled_out rounds offset (some t) =
    (k : ℕ) × (k < rounds)
    × (t ≡ candidate (offset + k))
    × (ruled_out t ≡ false)
    × ((i : ℕ) → i < k → ruled_out (candidate (offset + i)) ≡ true)

module _ (candidate : ℕ → ℕ) (ruled_out : ℕ → Bool) where
  -- A round that is ruled out goes before the others.
  IsFirst-suc :
      (rounds offset : ℕ) (r : Option ℕ)
      → ruled_out (candidate offset) ≡ true
      → IsFirst candidate ruled_out rounds (offset + 1) r
      → IsFirst candidate ruled_out (suc rounds) offset r
  IsFirst-suc rounds offset none here h = λ i lt. later i lt
    where
      later : (i : ℕ) → i < suc rounds → ruled_out (candidate (offset + i)) ≡ true
      later zero lt = ground arith
      later (suc i) lt = ground (arith, h i)
  IsFirst-suc rounds offset (some t) here (k, lt, e, free, before) =
      (suc k, omega arith, ground arith, free, later)
    where
      later : (i : ℕ) → i < suc k → ruled_out (candidate (offset + i)) ≡ true
      later zero lt = ground arith
      later (suc i) lt = ground (arith, before i)

  first_candidate-IsFirst :
      (rounds offset : ℕ)
      → IsFirst candidate ruled_out rounds offset
          (first_candidate candidate ruled_out rounds offset)
  unfolding first_candidate
  first_candidate-IsFirst zero offset = λ i lt. absurd (omega arith)
  first_candidate-IsFirst (suc rounds) offset = elim (Bool-cases (ruled_out (candidate offset))) [
    | inl skip ↦
        rw skip (IsFirst-suc rounds offset _ skip (first_candidate-IsFirst rounds (offset + 1)))
    | inr free ↦ rw free (0, omega arith, ground arith, free, λ i lt. absurd (omega arith))
  ]

-- The days of the week that a frequency names, 0 for Sunday.
abbrev pub NamesDay : Frequency → Option ℕ → ℕ → Type 0
NamesDay daily on_day w = Unit
NamesDay weekdays on_day w = (1 ≤ w) × (w ≤ 5)
NamesDay weekly on_day w = on_day ≡ some w

-- What a loop with a test for each candidate finds: the first that fits, or nothing where none
-- of the candidates fits.
abbrev pub IsFirstFit : (ℕ → Type 0) → (ℕ → ℕ) → ℕ → Option ℕ → Type 0
IsFirstFit Fits candidate rounds none = (i : ℕ) → i < rounds → ¬ Fits (candidate i)
IsFirstFit Fits candidate rounds (some t) =
    (k : ℕ) × (k < rounds) × (t ≡ candidate k) × Fits t × ((i : ℕ) → i < k → ¬ Fits (candidate i))

off_day_sound :
    (f : Frequency) (on_day : Option ℕ) (w : ℕ)
    → w ≤ 6
    → off_day f on_day w ≡ false
    → NamesDay f on_day w
unfolding off_day
off_day_sound daily on_day w le h = tt
off_day_sound weekdays on_day w le h = ground arith
off_day_sound weekly none w le h = cc
off_day_sound weekly (some v) w le h = ground arith

off_day_complete :
    (f : Frequency) (on_day : Option ℕ) (w : ℕ) → off_day f on_day w ≡ true → ¬ NamesDay f on_day w
unfolding off_day
off_day_complete daily on_day w h = λ _. cc
off_day_complete weekdays on_day w h = λ n. ground arith
off_day_complete weekly none w h = λ n. cc
off_day_complete weekly (some v) w h = λ n. ground arith

module _ (f : Frequency) (on_day : Option ℕ) (t now w : ℕ) where
  after_test_sound :
      w ≤ 6 → (leb t now || off_day f on_day w) ≡ false → (now < t) × NamesDay f on_day w
  after_test_sound le h = (ground arith, off_day_sound f on_day w le (ground arith))

  after_test_complete :
      (leb t now || off_day f on_day w) ≡ true → ¬ ((now < t) × NamesDay f on_day w)
  after_test_complete h n = off_day_complete f on_day w (ground (arith, n.0)) n.1

  before_test_sound :
      w ≤ 6 → (ltb now t || off_day f on_day w) ≡ false → (t ≤ now) × NamesDay f on_day w
  before_test_sound le h = (ground arith, off_day_sound f on_day w le (ground arith))

  before_test_complete :
      (ltb now t || off_day f on_day w) ≡ true → ¬ ((t ≤ now) × NamesDay f on_day w)
  before_test_complete h n = off_day_complete f on_day w (ground (arith, n.0)) n.1

index_of_names : (name : Text) → index_of name 0 weekday_names ≤ 6
unfolding weekday_names index_of
index_of_names name = ground arith

-- A candidate that fits is the first one, or comes after it.
first_fit-le :
    (Fits : ℕ → Type 0) (candidate : ℕ → ℕ) (rounds i : ℕ) (r : Option ℕ)
    → IsFirstFit Fits candidate rounds r
    → i < rounds
    → Fits (candidate i)
    → (k : ℕ) × (r ≡ some (candidate k)) × Fits (candidate k) × (k ≤ i)
first_fit-le Fits candidate rounds i none h lt fits = absurd (h i lt fits)
first_fit-le Fits candidate rounds i (some t) (k, below, same, good, before) lt fits =
    (k, ap some same, subst Fits same good, least (Bool-cases (ltb i k)))
  where
    least : ((ltb i k) ≡ true) ⊎ ((ltb i k) ≡ false) → k ≤ i
    least (inl e) = absurd (before i (ground arith) fits)
    least (inr e) = ground arith

module _ (p : Platform) where
  weekday-le : (at : ℕ) (timezone : Text) → (zoned_parts p at timezone).weekday ≤ 6
  unfolding zoned_parts
  weekday-le at timezone =
      index_of_names (part_value PartType.weekday (p.format_to_parts timezone at))

  -- A first candidate by the code's test is a first one by the predicate.
  IsFirst-IsFirstFit :
      (Fits : ℕ → Type 0) (candidate : ℕ → ℕ) (ruled_out : ℕ → Bool) (rounds : ℕ) (r : Option ℕ)
      → ((t : ℕ) → ruled_out t ≡ false → Fits t)
      → ((t : ℕ) → ruled_out t ≡ true → ¬ Fits t)
      → IsFirst candidate ruled_out rounds 0 r
      → IsFirstFit Fits candidate rounds r
  IsFirst-IsFirstFit Fits candidate ruled_out rounds none sound complete h =
      λ i lt. complete (candidate i) (rw zero-add at (h i lt))
  IsFirst-IsFirstFit Fits candidate ruled_out rounds (some t) sound complete
        (k, lt, e, free, before) =
      (
        k,
        lt,
        rw zero-add at e,
        sound t free,
        λ i below. complete (candidate i) (rw zero-add at (before i below)),
      )

  module _ (f : Frequency) (local_time timezone : Text) (on_day : Option ℕ) (now : ℕ) where
    -- The local time on the day that lies `offset` days after the start of the search.
    abbrev pub day_after : ℕ → ℕ
    day_after offset =
        let (h, mi) = local_clock local_time in
        candidate_at p timezone h mi (start_day p now timezone + offset * day_ms)

    abbrev pub day_before : ℕ → ℕ
    day_before offset =
        let (h, mi) = local_clock local_time in
        candidate_at p timezone h mi (start_day p now timezone - offset * day_ms)

    abbrev pub FitsAfter : ℕ → Type 0
    FitsAfter t = (now < t) × NamesDay f on_day (zoned_parts p t timezone).weekday

    abbrev pub FitsBefore : ℕ → Type 0
    FitsBefore t = (t ≤ now) × NamesDay f on_day (zoned_parts p t timezone).weekday

    pub next_run-IsFirstFit :
        IsFirstFit FitsAfter day_after 15
          (compute_next_run p (calendar f local_time timezone on_day) now)
    unfolding compute_next_run next_calendar wrong_day
    next_run-IsFirstFit =
        IsFirst-IsFirstFit FitsAfter day_after
          (λ t. leb t now || off_day f on_day (zoned_parts p t timezone).weekday) 15 _
          (λ t h. after_test_sound f on_day t now _ (weekday-le t timezone) h)
          (λ t h. after_test_complete f on_day t now _ h)
          (first_candidate-IsFirst day_after
            (λ t. leb t now || off_day f on_day (zoned_parts p t timezone).weekday) 15 0)

    latest_run-IsFirstFit :
        IsFirstFit FitsBefore day_before 15
          (compute_latest_run p (calendar f local_time timezone on_day) now)
    unfolding compute_latest_run latest_calendar wrong_day
    latest_run-IsFirstFit =
        IsFirst-IsFirstFit FitsBefore day_before
          (λ t. ltb now t || off_day f on_day (zoned_parts p t timezone).weekday) 15 _
          (λ t h. before_test_sound f on_day t now _ (weekday-le t timezone) h)
          (λ t h. before_test_complete f on_day t now _ h)
          (first_candidate-IsFirst day_before
            (λ t. ltb now t || off_day f on_day (zoned_parts p t timezone).weekday) 15 0)

    -- Where the local time on one of the 15 days from the start of the search on lies after the
    -- instant and on a day of the week that the schedule names, computeNextRun returns the
    -- earliest such day's.
    pub next_run-earliest :
        (i : ℕ)
        → i < 15
        → FitsAfter (day_after i)
        → (k : ℕ) × (compute_next_run p (calendar f local_time timezone on_day) now
            ≡ some (day_after k))
          × FitsAfter (day_after k)
          × (k ≤ i)
    next_run-earliest i = first_fit-le FitsAfter day_after 15 i _ next_run-IsFirstFit

    -- Where the local time on one of the 15 days up to the start of the search has elapsed and
    -- lies on a day of the week that the schedule names, computeLatestRun returns the nearest
    -- such day's.
    pub latest_run-nearest :
        (i : ℕ)
        → i < 15
        → FitsBefore (day_before i)
        → (k : ℕ) × (compute_latest_run p (calendar f local_time timezone on_day) now
            ≡ some (day_before k))
          × FitsBefore (day_before k)
          × (k ≤ i)
    latest_run-nearest i = first_fit-le FitsBefore day_before 15 i _ latest_run-IsFirstFit
