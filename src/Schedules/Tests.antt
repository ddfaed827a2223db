-- ===== src/Schedules/Tests.antt =====
-- A schedule from its creation to a run that is claimed, released and claimed again, on a platform
-- that knows UTC alone and reads an instant from its decimal digits.
use open_instinct.Base.{
  ℕ, zero, suc, ◌+◌, ◌/◌, ◌%◌, ◌<◌, ◌≤◌, ◌≡◌, ◌≢◌, refl, Bool, true, false, none, some, List, [],
  ◌∷◌, ◌++◌, Text, codes, text_eq, arith, All, Memᴰ, order_by, insert_by, null_eq, ◌==◌, ◌&&◌,
  find_first,
}
use open_instinct.Schedules.Platform.{Platform, PartType}
use open_instinct.Schedules.Calendar.{utc_civil, day_ms, date_utc, days_in_year}
use open_instinct.Schedules.Timing.{
  ScheduleTiming, interval, calendar, weekdays, number, schedule_timing_schema, compute_next_run,
  compute_latest_run, next_calendar, latest_calendar, candidate_at, wrong_day, first_candidate,
  start_day, local_clock, zoned_parts, off_day, from_wall_clock, wall_clock,
}
use open_instinct.Schedules.Timing.Intervals.{
  occurrence, next_run-least, latest_run-greatest, next_run-latest_run,
}
use open_instinct.Schedules.Timing.Days.{
  day_after, day_before, FitsAfter, FitsBefore, next_run-earliest, latest_run-nearest,
}
use open_instinct.Schedules.Outcome.{nothing_to_report}
use open_instinct.Schedules.Rows.{
  Job, Run, Db, Channel, JobStatus, is_active, ok, running, same_channel,
}
use open_instinct.Schedules.Records.{
  AccessScope, Conversation, CreateScheduledAgentJob, UpdateScheduledAgentJob, parse_job, parse_run,
  stored_requests_ok,
}
use open_instinct.Schedules.Jobs.{
  create_scheduled_agent_job, new_job, new_run, list_scheduled_agent_jobs,
  update_scheduled_agent_job, each_listed, listed, with_latest, latest_of, by_next_run, is_visible,
  ListedJob, apply_update,
}
use open_instinct.Schedules.Dispatch.{
  materialize_due_scheduled_agent_runs, claim_ready_scheduled_agent_runs, materialize_each,
  materialize_job, write_occurrence, chosen_occurrence, insert_run, same_occurrence, advanced_job,
  is_catch_up, is_due, due_jobs, is_ready, ready_runs, join_jobs, parse_claims, returned_run,
  claimed_db, write_claims, claimed_run, dead_run,
}
use open_instinct.Schedules.Worker.{
  release_scheduled_agent_run, write_release, lost, mark_scheduled_agent_run_started,
  set_scheduled_run_session, defer_scheduled_agent_run_completion, complete_scheduled_agent_run,
  released_run, has_token, still_holds,
}
use open_instinct.Schedules.Input.{
  wait_for_scheduled_agent_run_input, claim_scheduled_agent_run_input,
  restore_scheduled_agent_run_input, finish_scheduled_agent_run_input,
}
use open_instinct.Schedules.Steps.{creates, materializes, claims, releases, Step-Sound}
use open_instinct.Schedules.Steps.Overlap.{
  calls, reads_job, writes_job, reads_run, writes_run, here, next, Later, Reach-Later,
}
use open_instinct.Schedules.Invariant.{Regime, serial, DbOk, Sound}
use open_instinct.Schedules.Invariant.Materialize.{Grown, materialize-Grown}
use open_instinct.Schedules.Steps.Overtaken.{prompt_patch, overtaken_update-next_run}
use open_instinct.Schedules.Steps.Fencing.{IsLost, Reach-IsLost, lost_worker-changes_nothing}
use open_instinct.Schedules.Recovery.{
  claim_ready-Leased, claim_ready-exclusive, retried_run-unready,
}
use open_instinct.Schedules.Visibility.{IsOwn, list_jobs-IsOwn, update_job-foreign}
use open_instinct.Schedules.Advance.{next_run-lt, write_occurrence-undue, write_occurrence-found}

-- The two digits of a number below 100.
abbrev two_digits : ℕ → Text
two_digits n = (48 + n / 10) ∷ (48 + n % 10) ∷ []

abbrev nth_name : ℕ → List Text → Text
nth_name n [] = []
nth_name zero (name ∷ names) = name
nth_name (suc n) (name ∷ names) = nth_name n names

abbrev names : List Text
names =
    codes "Sun"
    ∷ codes "Mon"
    ∷ codes "Tue"
    ∷ codes "Wed"
    ∷ codes "Thu"
    ∷ codes "Fri"
    ∷ codes "Sat"
    ∷ []

abbrev utc_parts : Text → ℕ → List (PartType × Text)
utc_parts zone t =
    let date = utc_civil t in
    (PartType.weekday, nth_name ((t / day_ms + 4) % 7) names)
    ∷ (PartType.month, two_digits (date.month + 1))
    ∷ (PartType.day, two_digits date.day)
    ∷ (PartType.year, two_digits (date.year / 100) ++ two_digits (date.year % 100))
    ∷ (PartType.hour, two_digits (t / 3600000 % 24))
    ∷ (PartType.minute, two_digits (t / 60000 % 60))
    ∷ (PartType.second, two_digits (t / 1000 % 60))
    ∷ []

abbrev utc : Platform
utc = record {
  format_to_parts = utc_parts;
  is_timezone = λ zone. text_eq zone (codes "UTC");
  date_parse = number;
  is_datetime = λ text. true;
  is_uuid = λ text. true;
  is_input_request = λ request. true;
}

-- What the calendar arithmetic runs on.
calendar_store : Unit {0}
unfolding compute_next_run compute_latest_run next_calendar latest_calendar codes utc_civil
    candidate_at wrong_day first_candidate start_day local_clock zoned_parts off_day from_wall_clock
    wall_clock date_utc number text_eq days_in_year
calendar_store = tt

-- Weekdays at nine: from a Saturday, 1970-01-03, the next is Monday the 5th and the latest Friday
-- the 2nd.
abbrev office : ScheduleTiming
office = calendar weekdays (codes "09:00") (codes "UTC") none

next_office : compute_next_run utc office 200000000 ≡ some 378000000
unfolding calendar_store compute_next_run next_calendar codes utc_civil
next_office = refl

latest_office : compute_latest_run utc office 200000000 ≡ some 118800000
unfolding calendar_store compute_latest_run latest_calendar codes utc_civil
latest_office = refl

-- Where the next run of the office hours is: the local time on the third day of the search.
next_run-earliest_example :
    (k : ℕ) × (compute_next_run utc office 200000000
      ≡ some (day_after utc weekdays (codes "09:00") (codes "UTC") none 200000000 k))
    × FitsAfter utc weekdays
        (codes "09:00")
        (codes "UTC")
        none
        200000000
        (day_after utc weekdays (codes "09:00") (codes "UTC") none 200000000 k)
    × (k ≤ 3)
unfolding calendar_store codes utc_civil candidate_at local_clock start_day zoned_parts
next_run-earliest_example =
    next_run-earliest utc weekdays (codes "09:00") (codes "UTC") none 200000000 3 (omega arith)
      (omega arith, (omega arith, omega arith))

latest_run-nearest_example :
    (k : ℕ) × (compute_latest_run utc office 200000000
      ≡ some (day_before utc weekdays (codes "09:00") (codes "UTC") none 200000000 k))
    × FitsBefore utc weekdays
        (codes "09:00")
        (codes "UTC")
        none
        200000000
        (day_before utc weekdays (codes "09:00") (codes "UTC") none 200000000 k)
    × (k ≤ 2)
unfolding calendar_store codes utc_civil candidate_at local_clock start_day zoned_parts
latest_run-nearest_example =
    latest_run-nearest utc weekdays (codes "09:00") (codes "UTC") none 200000000 2 (omega arith)
      (omega arith, (omega arith, omega arith))

next_run-least_example :
    (k : ℕ) × (compute_next_run utc (interval (codes "0") 1) 90000
      ≡ some (occurrence utc (codes "0") 1 (omega arith) k))
    × (90000 < occurrence utc (codes "0") 1 (omega arith) k)
    × (k ≤ 3)
unfolding calendar_store codes number
next_run-least_example = next_run-least utc (codes "0") 1 (omega arith) 90000 3 (omega arith)

latest_run-greatest_example :
    (k : ℕ) × (compute_latest_run utc (interval (codes "0") 1) 90000
      ≡ some (occurrence utc (codes "0") 1 (omega arith) k))
    × (occurrence utc (codes "0") 1 (omega arith) k ≤ 90000)
    × (1 ≤ k)
unfolding calendar_store codes number
latest_run-greatest_example =
    latest_run-greatest utc (codes "0") 1 (omega arith) 90000 1 (omega arith)

next_run-latest_run_example :
    compute_next_run utc (interval (codes "0") 1) 60000
    ≡ compute_next_run utc (interval (codes "0") 1) 90000
unfolding calendar_store codes number compute_latest_run
next_run-latest_run_example = next_run-latest_run utc (codes "0") 1 (omega arith) 90000 60000 refl

next_run-lt_example : 200000000 < 378000000
unfolding calendar_store schedule_timing_schema compute_next_run next_calendar codes utc_civil
next_run-lt_example = next_run-lt utc office 200000000 378000000 refl refl

abbrev scope : AccessScope
scope = record { user_id = codes "u"; workspace_id = codes "w" }

abbrev conversation : Conversation
conversation = record { conversation_channel = Channel.linq; conversation_id = codes "c" }

abbrev every_minute : CreateScheduledAgentJob
every_minute = record {
  conversation = conversation;
  catch_up = false;
  prompt = codes "p";
  reply_anchor_message_id = none;
  timing = interval (codes "0") 1;
}

abbrev empty : Db
empty = record { jobs = []; runs = []; next_uuid = 0 }

abbrev created : Db
created = (create_scheduled_agent_job utc scope every_minute 90000 empty).1

abbrev nobody : ℕ → Bool
nobody row = false

-- Five minutes on, the dispatcher materializes the job's latest occurrence and claims the run.
abbrev materialized : Db
materialized = (materialize_due_scheduled_agent_runs utc nobody 10 300000 created).1

abbrev claimed : Db
claimed = (claim_ready_scheduled_agent_runs utc nobody 60000 10 300000 materialized).1

-- The worker gives up.
abbrev released : Db
released = (release_scheduled_agent_run 1 2 (codes "e") 310000 claimed).1

-- What the calls of the scenario run on.
store : Unit {0}
unfolding calendar_store create_scheduled_agent_job new_job new_run parse_job schedule_timing_schema
    materialize_due_scheduled_agent_runs materialize_each materialize_job write_occurrence
    chosen_occurrence insert_run same_occurrence advanced_job is_catch_up is_due due_jobs order_by
    insert_by claim_ready_scheduled_agent_runs is_ready ready_runs join_jobs parse_claims
    returned_run parse_run stored_requests_ok claimed_db write_claims claimed_run dead_run
    release_scheduled_agent_run write_release released_run has_token still_holds
store = tt

-- What the list of jobs runs on.
lists : Unit {0}
unfolding list_scheduled_agent_jobs each_listed listed with_latest latest_of by_next_run is_visible
    same_channel order_by insert_by
lists = tt

abbrev claimed_row : Run
claimed_row = claimed_run 2 360000 300000 (new_run 1 0 300000 300000)

claimed_runs : claimed.runs ≡ claimed_row ∷ []
unfolding store calendar_store codes compute_next_run compute_latest_run create_scheduled_agent_job
    materialize_due_scheduled_agent_runs claim_ready_scheduled_agent_runs number
claimed_runs = refl

empty_ok : {g : Regime} → DbOk g empty
empty_ok = record { runs_ok = tt; unique = tt; jobs_ok = tt; job_ids = tt }

created_ok : {g : Regime} → DbOk g created
created_ok = (Step-Sound utc empty_ok (creates scope every_minute 90000)).ok

Step-Sound_example : Sound serial created materialized
Step-Sound_example = Step-Sound utc created_ok (materializes nobody 10 300000)

materialized_ok : {g : Regime} → DbOk g materialized
materialized_ok = (Step-Sound utc created_ok (materializes nobody 10 300000)).ok

claimed_ok : {g : Regime} → DbOk g claimed
claimed_ok = (Step-Sound utc materialized_ok (claims nobody 60000 10 300000)).ok

released_ok : {g : Regime} → DbOk g released
released_ok = (Step-Sound utc claimed_ok (releases 1 2 (codes "e") 310000)).ok

-- Token 2 is lost once the run is released.
released-IsLost : IsLost 1 2 released
unfolding store calendar_store codes number
released-IsLost = (refl, tt)

released_uuid : released.next_uuid ≡ 3
unfolding store calendar_store codes number
released_uuid = refl

Reach-IsLost_example :
    IsLost 1 2 (claim_ready_scheduled_agent_runs utc nobody 60000 10 900000 released).1
Reach-IsLost_example =
    Reach-IsLost utc 1 2 {s = record { db = released; job_reads = []; run_reads = [] }}
      (record { ok = released_ok; reads_ok = tt }) (omega (arith, released_uuid)) released-IsLost
      (next here (calls (claims nobody 60000 10 900000)))

-- The job after the materializing, as an update reads it.
abbrev claimed_job : Job
claimed_job = advanced_job 300000 (some 360000) 300000 (new_job 0 scope every_minute 120000 90000)

job_read :
    find_first (λ (j : Job). j.id == 0 && is_visible scope conversation j) claimed.jobs
    ≡ some claimed_job
unfolding store calendar_store codes number is_visible same_channel
job_read = refl

run_read : find_first (has_token 1 2) claimed.runs ≡ some claimed_row
unfolding store calendar_store codes number
run_read = refl

-- An update and a release have read, and the dispatcher materializes before they write.
abbrev advanced : Db
advanced = (materialize_due_scheduled_agent_runs utc nobody 10 360000 claimed).1

abbrev updated : Db
updated = (apply_update utc claimed_job (prompt_patch (codes "q")) 361000 advanced).1

Reach-Later_example :
    Later
      (record { db = claimed; job_reads = []; run_reads = [] })
      (record {
        db = (write_release claimed_row 2 (codes "e") 362000 updated).1;
        job_reads = claimed_job ∷ [];
        run_reads = (claimed_row, 2) ∷ [];
      })
Reach-Later_example =
    Reach-Later utc (record { ok = claimed_ok; reads_ok = tt })
      (next
        (next
          (next
            (next (next here (reads_job scope conversation 0 claimed_job job_read))
              (reads_run 1 2 claimed_row run_read))
            (calls (materializes nobody 10 360000)))
          (writes_job claimed_job (prompt_patch (codes "q")) 361000 (Memᴰ.head refl)))
        (writes_run claimed_row 2 (codes "e") 362000 (Memᴰ.head refl)))

-- The dispatcher has completed the job between the read and the write of the update.
abbrev completed_job : Job
completed_job = record claimed_job { status = JobStatus.completed; next_run_at = none }

overtaken_update-next_run_example :
    (written : Job) × Memᴰ written
      (apply_update utc claimed_job
        (prompt_patch (codes "q"))
        361000
        (record claimed { jobs = completed_job ∷ [] })).1.jobs
    × (written.id ≡ completed_job.id)
    × (is_active written.status ≡ false)
    × (written.next_run_at ≡ some 360000)
unfolding schedule_timing_schema advanced_job new_job codes calendar_store number
overtaken_update-next_run_example =
    overtaken_update-next_run utc claimed_job completed_job (codes "q") 361000 360000
      (record claimed { jobs = completed_job ∷ [] }) refl refl refl (Memᴰ.head refl) refl refl

lost_worker-changes_nothing_example :
    (mark_scheduled_agent_run_started 1 2 (codes "s") 60000 320000 released ≡ (false, released))
    × ((set_scheduled_run_session 1 2 (codes "s") 320000 released).1 ≡ released)
    × (defer_scheduled_agent_run_completion 1 2 (codes "s") 320000 released ≡ (false, released))
    × (complete_scheduled_agent_run utc 1 2
          (codes "s")
          (nothing_to_report (codes "r"))
          320000
          released
        ≡ (ok lost, released))
    × (release_scheduled_agent_run 1 2 (codes "s") 320000 released ≡ (none, released))
    × ((wait_for_scheduled_agent_run_input utc 1 2 (7 ∷ []) 320000 released).1 ≡ released)
    × (claim_scheduled_agent_run_input utc 1 2 320000 released ≡ (ok none, released))
    × (restore_scheduled_agent_run_input 1 2 (codes "s") 320000 released ≡ released)
    × (finish_scheduled_agent_run_input 1 2 320000 released ≡ released)
lost_worker-changes_nothing_example =
    lost_worker-changes_nothing utc 1 2 released (codes "s") (nothing_to_report (codes "r"))
      (7 ∷ []) 60000 320000 released-IsLost

claimed_row-Memᴰ : Memᴰ claimed_row claimed.runs
claimed_row-Memᴰ = rw claimed_runs (Memᴰ.head refl)

materialized_uuid : materialized.next_uuid ≡ 2
unfolding store calendar_store codes number
materialized_uuid = refl

claimed_token : null_eq claimed_row.lease_token materialized.next_uuid ≡ true
unfolding store calendar_store codes number
claimed_token = refl

claim_ready-Leased_example :
    (claimed_row.status ≡ running) × (claimed_row.lease_expires_at ≡ some 360000)
claim_ready-Leased_example =
    claim_ready-Leased {g = serial} utc nobody 60000 10 300000 materialized claimed_row
      materialized_ok claimed_row-Memᴰ claimed_token

claim_ready-exclusive_example : is_ready nobody 350000 claimed_row ≡ false
claim_ready-exclusive_example =
    claim_ready-exclusive {g = serial} utc nobody nobody 60000 10 300000 350000 materialized
      claimed_row materialized_ok (omega arith) claimed_row-Memᴰ claimed_token

-- The second attempt's lease ends at 960000; it is not taken up a day later.
retried_run-unready_example :
    let retried = claimed_run 3 960000 900000 (
      released_run
        (record claimed_row { worker_session_id = some (codes "s") })
        (codes "e")
        310000
        (record claimed_row { worker_session_id = some (codes "s") })) in
    (retried.lease_token ≡ some 3)
    × (retried.lease_expires_at ≡ some 960000)
    × (is_ready nobody 90000000 retried ≡ false)
unfolding claimed_run
retried_run-unready_example =
    retried_run-unready (record claimed_row { worker_session_id = some (codes "s") })
      (record claimed_row { worker_session_id = some (codes "s") }) (codes "e") 310000 3 960000
      900000 90000000 nobody refl

abbrev first_job : Job
first_job = new_job 0 scope every_minute 120000 90000

created_jobs : created.jobs ≡ first_job ∷ []
unfolding store calendar_store codes number
created_jobs = refl

list_jobs-IsOwn_example :
    All
      (λ (l : ListedJob). IsOwn scope conversation l.job)
      (record { job = first_job; latest_run = none } ∷ [])
unfolding store lists calendar_store codes number list_scheduled_agent_jobs new_job
list_jobs-IsOwn_example =
    list_jobs-IsOwn utc scope conversation created
      (record { job = first_job; latest_run = none } ∷ []) refl

abbrev stranger : AccessScope
stranger = record { user_id = []; workspace_id = codes "w" }

abbrev no_patch : UpdateScheduledAgentJob
no_patch = record { prompt = some (codes "q"); status = none; timing = none }

not-IsOwn : All (λ (j : Job). (j.id == 0) ≡ true → ¬ IsOwn stranger conversation j) (first_job ∷ [])
unfolding new_job codes
not-IsOwn = ((λ e own. other own.user), tt)
  where
    other : codes "u" ≡ [] → ⊥
    other e = cc

update_job-foreign_example :
    update_scheduled_agent_job utc stranger conversation 0 no_patch 95000 created
    ≡ (ok none, created)
update_job-foreign_example =
    update_job-foreign utc stranger conversation 0 no_patch 95000 created
      (rw created_jobs not-IsOwn)

materialized_jobs : materialized.jobs ≡ advanced_job 300000 (some 360000) 300000 first_job ∷ []
unfolding store calendar_store codes number
materialized_jobs = refl

write_occurrence-undue_example :
    is_due nobody 300000 (advanced_job 300000 (some 360000) 300000 first_job) ≡ false
unfolding store calendar_store codes number
write_occurrence-undue_example =
    write_occurrence-undue utc nobody 300000 first_job 120000 created
      (advanced_job 300000 (some 360000) 300000 first_job) tt refl refl (Memᴰ.head refl) refl

write_occurrence-found_example :
    find_first
      (same_occurrence 0 (chosen_occurrence utc first_job 120000 300000))
      (write_occurrence utc 300000 first_job 120000 created).1.runs
    ≢ none
unfolding new_job
write_occurrence-found_example = write_occurrence-found utc 300000 first_job 120000 created

materialize-Grown_example : Grown serial created materialized
materialize-Grown_example = materialize-Grown utc nobody 10 300000 created created_ok
