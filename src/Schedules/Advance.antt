-- ===== src/Schedules/Advance.antt =====
-- What a round of materializeDueScheduledAgentRuns does for one due job.
use open_instinct.Base.{
  ℕ, ◌+◌, ◌*◌, ◌≤◌, ◌<◌, ◌≡◌, ◌≢◌, refl, inl, inr, Bool, true, false, Option, none, some, List, [],
  ◌∷◌, ◌++◌, Text, arith, All, All-at, Memᴰ, update_where, find_first, Option-cases, Bool-cases,
  null_le, ◌==◌,
}
use mathlib.Core.Option.{get_or}
use mathlib.Core.Path.{subst}
use open_instinct.Schedules.Platform.{Platform}
use open_instinct.Schedules.Timing.{
  ScheduleTiming, once, interval, calendar, Frequency, schedule_timing_schema, compute_next_run,
  compute_latest_run,
}
use open_instinct.Schedules.Timing.Intervals.{next_run-IsLeast, next_run-latest_run}
use open_instinct.Schedules.Timing.Days.{next_run-IsFirstFit, FitsAfter, day_after, IsFirstFit}
use open_instinct.Schedules.Rows.{Job, Db}
use open_instinct.Schedules.Jobs.{new_run}
use open_instinct.Schedules.Dispatch.{
  is_due, is_catch_up, same_occurrence, insert_run, advanced_job, chosen_occurrence,
  write_occurrence,
}

fits_after :
    (p : Platform) (f : Frequency) (lt tz : Text) (d : Option ℕ) (now t : ℕ) (r : Option ℕ)
    → IsFirstFit (FitsAfter p f lt tz d now) (day_after p f lt tz d now) 15 r
    → r ≡ some t
    → now < t
fits_after p f lt tz d now t none h e = cc
fits_after p f lt tz d now t (some u) (k, below, same, fits, before) e =
    let same' : u ≡ t = cc in subst (λ x. now < x) same' fits.0

module _ (p : Platform) where
  positive :
      (anchored_at : Text) (every : ℕ)
      → schedule_timing_schema p (interval anchored_at every) ≡ true
      → 1 ≤ every
  unfolding schedule_timing_schema
  positive anchored_at every h = ground arith

  interval-lt :
      (anchored_at : Text) (every after t : ℕ)
      → 1 ≤ every
      → compute_next_run p (interval anchored_at every) after ≡ some t
      → after < t
  interval-lt anchored_at every after t h e =
      let (k, found, later, least) = next_run-IsLeast p anchored_at every h after in
      let same : p.date_parse anchored_at + k * (every * 60000) ≡ t = cc in
      subst (λ x. after < x) same later

  -- The next run of a valid schedule of any kind lies strictly after the given instant.
  pub next_run-lt :
      (timing : ScheduleTiming) (after t : ℕ)
      → schedule_timing_schema p timing ≡ true
      → compute_next_run p timing after ≡ some t
      → after < t
  unfolding compute_next_run
  next_run-lt (once at) after t valid e = ground arith
  next_run-lt (interval anchored_at every) after t valid e =
      interval-lt anchored_at every after t (positive anchored_at every valid) e
  next_run-lt (calendar f lt tz d) after t valid e =
      fits_after p f lt tz d after t _ (next_run-IsFirstFit p f lt tz d after) e

  -- The kinds of schedule whose occurrences are given by arithmetic.
  abbrev pub IsArithmetic : ScheduleTiming → Type 0
  IsArithmetic (once at) = Unit
  IsArithmetic (interval anchored_at every) = Unit
  IsArithmetic (calendar f lt tz d) = ⊥

  none_due : (o : Option ℕ) (now : ℕ) → ((t : ℕ) → o ≡ some t → now < t) → null_le o now ≡ false
  none_due none now h = refl
  none_due (some t) now h = ground (arith, h t refl)

  once_ahead :
      (at : Text) (fallback now : ℕ)
      → null_le
          (compute_next_run p (once at) (get_or (compute_latest_run p (once at) now) fallback))
          now
        ≡ false
  unfolding compute_next_run compute_latest_run
  once_ahead at fallback now = ground arith

  -- Before the anchor, the next occurrence is in the future.
  unstarted_ahead :
      (anchored_at : Text) (every fallback now : ℕ)
      → compute_latest_run p (interval anchored_at every) now ≡ none
      → null_le (compute_next_run p (interval anchored_at every) fallback) now ≡ false
  unfolding compute_next_run compute_latest_run
  unstarted_ahead anchored_at every fallback now e = ground arith

  interval_ahead :
      (anchored_at : Text) (every fallback now : ℕ)
      → 1 ≤ every
      → null_le
          (compute_next_run p
            (interval anchored_at every)
            (get_or (compute_latest_run p (interval anchored_at every) now) fallback))
          now
        ≡ false
  interval_ahead anchored_at every fallback now h =
      elim (Option-cases (compute_latest_run p (interval anchored_at every) now)) [
        | inl e ↦ rw e (unstarted_ahead anchored_at every fallback now e)
        | inr (l, e) ↦
            rw (e, next_run-latest_run p anchored_at every h now l e)
              (none_due _ now (λ t. interval-lt anchored_at every now t h))
      ]

  chosen_ahead :
      (job : Job) (next_run_at now : ℕ)
      → IsArithmetic job.timing
      → schedule_timing_schema p job.timing ≡ true
      → is_catch_up job.missed_run_policy ≡ false
      → null_le (compute_next_run p job.timing (chosen_occurrence p job next_run_at now)) now
        ≡ false
  unfolding chosen_occurrence
  chosen_ahead job next_run_at now a valid late = rw late (ahead job.timing a valid)
    where
      ahead :
          (timing : ScheduleTiming)
          → IsArithmetic timing
          → schedule_timing_schema p timing ≡ true
          → null_le
              (compute_next_run p timing (get_or (compute_latest_run p timing now) next_run_at))
              now
            ≡ false
      ahead (once at) a valid = once_ahead at next_run_at now
      ahead (interval anchored_at every) a valid =
          interval_ahead anchored_at every next_run_at now (positive anchored_at every valid)
      ahead (calendar f lt tz d) a valid = absurd a

advanced-undue :
    (scheduled_for now : ℕ) (next : Option ℕ) (locked : ℕ → Bool) (j : Job)
    → null_le next now ≡ false
    → is_due locked now (advanced_job scheduled_for next now j) ≡ false
unfolding is_due advanced_job
advanced-undue scheduled_for now next locked j h = ground arith

updated-undue :
    (i scheduled_for now : ℕ) (next : Option ℕ) (locked : ℕ → Bool) (js : List Job)
    → null_le next now ≡ false
    → All
        (λ j. (j.id == i) ≡ true → is_due locked now j ≡ false)
        (update_where (λ j. j.id == i) (advanced_job scheduled_for next now) js)
updated-undue i scheduled_for now next locked [] h = tt
updated-undue i scheduled_for now next locked (j ∷ js) h = elim (Bool-cases (j.id == i)) [
  | inl e ↦ rw e (
    (λ _. advanced-undue scheduled_for now next locked j h),
    updated-undue i scheduled_for now next locked js h,
  )
  | inr e ↦ rw e ((λ e'. cc), updated-undue i scheduled_for now next locked js h)
]

-- A round brings a one-off or interval job whose policy is not catch_up up to date: however many
-- occurrences it has missed, it is not due again at the same instant.
pub write_occurrence-undue :
    (p : Platform) (locked : ℕ → Bool) (now : ℕ) (job : Job) (next_run_at : ℕ) (db : Db) (j : Job)
    → IsArithmetic p job.timing
    → schedule_timing_schema p job.timing ≡ true
    → is_catch_up job.missed_run_policy ≡ false
    → Memᴰ j (write_occurrence p now job next_run_at db).1.jobs
    → (j.id == job.id) ≡ true
    → is_due locked now j ≡ false
unfolding write_occurrence
write_occurrence-undue p locked now job next_run_at db j a valid late m =
    let chosen = chosen_occurrence p job next_run_at now in
    All-at (λ j. (j.id == job.id) ≡ true → is_due locked now j ≡ false) m
      (updated-undue job.id chosen now (compute_next_run p job.timing chosen) locked
        (insert_run job.id chosen now db).1.jobs (chosen_ahead p job next_run_at now a valid late))

find_first-last {ℓ} :
    {A : Type ℓ} (c : A → Bool) (rs : List A) (r : A)
    → c r ≡ true
    → find_first c (rs ++ r ∷ []) ≢ none
find_first-last c [] r h = ground arith
find_first-last c (s ∷ rs) r h = ground (arith, find_first-last c rs r h)

new_run-occurrence :
    (id job_id scheduled_for now : ℕ)
    → same_occurrence job_id scheduled_for (new_run id job_id scheduled_for now) ≡ true
unfolding same_occurrence new_run
new_run-occurrence id job_id scheduled_for now = ground arith

-- Inserting leaves a run for the occurrence, whether it was there or not.
insert_run-found :
    (job_id scheduled_for now : ℕ) (db : Db)
    → find_first
        (same_occurrence job_id scheduled_for)
        (insert_run job_id scheduled_for now db).1.runs
      ≢ none
unfolding insert_run
insert_run-found job_id scheduled_for now db =
    elim (Option-cases (find_first (same_occurrence job_id scheduled_for) db.runs)) [
      | inl e ↦
          rw (e, insert_run)
            (find_first-last _ db.runs _ (new_run-occurrence db.next_uuid job_id scheduled_for now))
      | inr (r, e) ↦ rw (e, insert_run) (λ n. cc)
    ]

-- After a round the tables hold a run for the occurrence that it chose.
pub write_occurrence-found :
    (p : Platform) (now : ℕ) (job : Job) (next_run_at : ℕ) (db : Db)
    → find_first
        (same_occurrence job.id (chosen_occurrence p job next_run_at now))
        (write_occurrence p now job next_run_at db).1.runs
      ≢ none
unfolding write_occurrence
write_occurrence-found p now job next_run_at db =
    insert_run-found job.id (chosen_occurrence p job next_run_at now) now db
