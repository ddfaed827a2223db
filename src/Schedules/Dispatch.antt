-- ===== src/Schedules/Dispatch.antt =====
-- materializeDueScheduledAgentRuns and claimReadyScheduledAgentRuns of
-- db/services/scheduled-agent-jobs.ts. `locked` says which rows other transactions hold: SKIP
-- LOCKED leaves them out. A transaction that throws leaves the tables as they were.
use open_instinct.Base.{
  ℕ, ◌+◌, Bool, true, false, not, ◌&&◌, ◌||◌, Option, none, some, List, [], ◌∷◌, ◌++◌, map, codes,
  take, select, find_first, update_where, order_by, contains, is_null, null_le, leb, ltb, ◌==◌,
  if◌then◌else◌,
}
use mathlib.Core.Option.{get_or}
use open_instinct.Schedules.Platform.{Platform}
use open_instinct.Schedules.Timing.{schedule_timing_schema, compute_next_run, compute_latest_run}
use open_instinct.Schedules.Rows.{
  Job, Run, Db, JobStatus, MissedRunPolicy, catch_up, running, dead_letter, pending, Result, ok,
  err, ◌>>=◌, invalid_record, is_active, is_queued, is_running,
}
use open_instinct.Schedules.Records.{exhausted_run_outcome, parse_job, parse_run}
use open_instinct.Schedules.Jobs.{new_run}

-- The due jobs that a transaction selects for update.
unfoldable pub is_due : (ℕ → Bool) → ℕ → Job → Bool
is_due locked now job = is_active job.status && null_le job.next_run_at now && not (locked job.id)

unfoldable pub due_jobs : (ℕ → Bool) → ℕ → ℕ → Db → List Job
due_jobs locked limit now db =
    take limit (order_by (λ (j : Job). get_or j.next_run_at 0) (select (is_due locked now) db.jobs))

-- Whether the job has a run for the instant: the unique index on (job_id, scheduled_for).
unfoldable pub same_occurrence : ℕ → ℕ → Run → Bool
same_occurrence job_id scheduled_for run =
    run.job_id == job_id && run.scheduled_for == scheduled_for

-- INSERT ... ON CONFLICT DO NOTHING RETURNING id
unfoldable pub insert_run : ℕ → ℕ → ℕ → Db → Option ℕ × Db
insert_run job_id scheduled_for now db =
    elim (find_first (same_occurrence job_id scheduled_for) db.runs) [
      | some _ ↦ (none, db)
      | none ↦ (
        some db.next_uuid,
        record db {
          runs = db.runs ++ new_run db.next_uuid job_id scheduled_for now ∷ [];
          next_uuid = db.next_uuid + 1;
        },
      )
    ]

-- The job after one of its occurrences has been materialized.
unfoldable pub advanced_job : ℕ → Option ℕ → ℕ → Job → Job
advanced_job scheduled_for next now job = record job {
  last_run_at = some scheduled_for;
  next_run_at = next;
  status = if is_null next then JobStatus.completed else JobStatus.active;
  updated_at = now;
}

unfoldable pub is_catch_up : MissedRunPolicy → Bool
is_catch_up catch_up = true
is_catch_up _ = false

-- The rows that a claim selects, before the lock and the order.
unfoldable pub is_ready : (ℕ → Bool) → ℕ → Run → Bool
is_ready locked now run =
    (is_queued run.status
      || (is_running run.status
          && is_null run.worker_session_id
          && null_le run.lease_expires_at now))
    && (is_null run.retry_at || null_le run.retry_at now)
    && not (locked run.id)

unfoldable pub dead_run : ℕ → Run → Run
dead_run now run = record run {
  last_error = some (codes "Scheduled worker dispatch did not complete.");
  lease_expires_at = none;
  lease_token = none;
  outcome = some exhausted_run_outcome;
  report_sequence = run.report_sequence + 1;
  report_status = pending;
  retry_at = none;
  status = dead_letter;
  updated_at = now;
}

unfoldable pub claimed_run : ℕ → ℕ → ℕ → Run → Run
claimed_run token expires now run = record run {
  attempts = run.attempts + 1;
  deferred_completion_turn_id = none;
  lease_expires_at = some expires;
  lease_token = some token;
  retry_at = none;
  started_at = none;
  status = running;
  updated_at = now;
}

-- The run as the claim returns it: the row that was read, with what the update wrote.
unfoldable pub returned_run : ℕ → ℕ → Run → Run
returned_run token expires run = record run {
  attempts = run.attempts + 1;
  lease_expires_at = some expires;
  lease_token = some token;
  retry_at = none;
  started_at = none;
  status = running;
}

abbrev pub joined : Option Job → Run → List (Job × Run) → List (Job × Run)
joined none run rest = rest
joined (some job) run rest = (job, run) ∷ rest

-- `eq(runs.jobId, jobs.id)`: the runs with their jobs.
unfoldable pub join_jobs : List Job → List Run → List (Job × Run)
join_jobs jobs [] = []
join_jobs jobs (run ∷ runs) =
    joined (find_first (λ j. j.id == run.job_id) jobs) run (join_jobs jobs runs)

unfoldable pub ready_runs : (ℕ → Bool) → ℕ → ℕ → Db → List (Job × Run)
ready_runs locked limit now db = take limit (
    order_by (λ (r : Job × Run). r.1.scheduled_for)
      (select (λ (r : Job × Run). is_ready locked now r.1) (join_jobs db.jobs db.runs)))

abbrev pub run_ids : List (Job × Run) → List ℕ
run_ids = map (λ r. r.1.id)

abbrev pub is_exhausted : Job × Run → Bool
is_exhausted r = leb 3 r.1.attempts

abbrev pub is_claimable : Job × Run → Bool
is_claimable r = ltb r.1.attempts 3

-- UPDATE ... WHERE id IN (ids)
abbrev pub update_ids : List ℕ → (Run → Run) → List Run → List Run
update_ids ids f runs = update_where (λ (r : Run). contains r.id ids) f runs

-- The update of the claimable rows: with none of them the call returns before it, and no token is
-- drawn.
unfoldable pub write_claims : ℕ → ℕ → List (Job × Run) → List Run → Db → Db
write_claims expires now [] runs db = record db { runs = runs }
write_claims expires now (r ∷ rs) runs db = record db {
  runs = update_ids (run_ids (r ∷ rs)) (claimed_run db.next_uuid expires now) runs;
  next_uuid = db.next_uuid + 1;
}

-- The two updates of a claim, over the rows that it selected.
unfoldable pub claimed_db : ℕ → ℕ → List (Job × Run) → Db → Db
claimed_db expires now ready db =
    write_claims expires now (select is_claimable ready)
      (update_ids (run_ids (select is_exhausted ready)) (dead_run now) db.runs) db

module _ (p : Platform) where
  -- The occurrence of a due job that is run: the missed one, or the latest that has elapsed.
  unfoldable pub chosen_occurrence : Job → ℕ → ℕ → ℕ
  chosen_occurrence job next_run_at now =
      if is_catch_up job.missed_run_policy
      then next_run_at
      else get_or (compute_latest_run p job.timing now) next_run_at

  -- A round over a due job: the insertion, and the advance of the job.
  unfoldable pub write_occurrence : ℕ → Job → ℕ → Db → Option ℕ × Db
  write_occurrence now job next_run_at db =
      let scheduled_for = chosen_occurrence job next_run_at now in
      let next = compute_next_run p job.timing scheduled_for in
      let (created, inserted) = insert_run job.id scheduled_for now db in
      (
        created,
        record inserted {
          jobs =
              update_where (λ j. j.id == job.id) (advanced_job scheduled_for next now)
                inserted.jobs;
        },
      )

  -- A job without `nextRunAt` is passed over.
  unfoldable pub materialize_job : ℕ → Job → Db → Result (Option ℕ × Db)
  materialize_job now job db = elim job.next_run_at [
    | none ↦ ok (none, db)
    | some next_run_at ↦
        if schedule_timing_schema p job.timing
        then ok (write_occurrence now job next_run_at db)
        else err invalid_record
  ]

  unfoldable pub materialize_each : ℕ → List Job → Db → Result (List ℕ × Db)
  materialize_each now [] db = ok ([], db)
  materialize_each now (job ∷ jobs) db = do
    (created, db') ← materialize_job now job db
    (ids, db'') ← materialize_each now jobs db'
    ok (elim created [ none ↦ ids | some id ↦ id ∷ ids ], db'')

  unfoldable pub materialize_due_scheduled_agent_runs :
      (ℕ → Bool) → ℕ → ℕ → Db → Result (List ℕ) × Db
  materialize_due_scheduled_agent_runs locked limit now db =
      elim (materialize_each now (due_jobs locked limit now db) db) [
        | err e ↦ (err e, db)
        | ok (ids, db') ↦ (ok ids, db')
      ]

  unfoldable pub parse_claims : ℕ → ℕ → List (Job × Run) → Result (List (Job × Run))
  parse_claims token expires [] = ok []
  parse_claims token expires ((job, run) ∷ claims) = elim (parse_job p job) [
    | err e ↦ err e
    | ok job' ↦ elim (parse_run p (returned_run token expires run)) [
      | err e ↦ err e
      | ok run' ↦ elim (parse_claims token expires claims) [
        | err e ↦ err e
        | ok rest ↦ ok ((job', run') ∷ rest)
      ]
    ]
  ]

  unfoldable pub claim_ready_scheduled_agent_runs :
      (ℕ → Bool) → ℕ → ℕ → ℕ → Db → Result (List (Job × Run)) × Db
  claim_ready_scheduled_agent_runs locked lease_for_ms limit now db =
      let ready = ready_runs locked limit now db in
      let expires = now + lease_for_ms in
      elim (parse_claims db.next_uuid expires (select is_claimable ready)) [
        | err e ↦ (err e, db)
        | ok claims ↦ (ok claims, claimed_db expires now ready db)
      ]
