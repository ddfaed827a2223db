-- ===== src/Schedules/Jobs.antt =====
-- The operations of db/services/scheduled-agent-jobs.ts on the jobs. Each function takes the
-- tables and returns what the call returns or throws, with the tables that it leaves.
use open_instinct.Base.{
  ℕ, ◌+◌, Bool, false, not, ◌&&◌, ◌||◌, Option, none, some, List, [], ◌∷◌, ◌++◌, Text, text_eq,
  select, find_first, update_where, returning, order_by, is_null, ltb, ◌==◌, if◌then◌else◌,
}
use mathlib.Core.Option.{get_or}
use open_instinct.Schedules.Platform.{Platform}
use open_instinct.Schedules.Timing.{ScheduleTiming, schedule_timing_schema, compute_next_run}
use open_instinct.Schedules.Rows.{
  Job, Run, Db, JobStatus, run_latest, catch_up, Result, ok, err, ◌>>=◌, invalid_record,
  no_future_occurrence, same_channel, is_active, is_deleted, ReportStatus, RunStatus,
}
use open_instinct.Schedules.Records.{
  AccessScope, Conversation, CreateScheduledAgentJob, PatchStatus, UpdateScheduledAgentJob,
  parse_job, parse_run,
}

-- The conditions that scope a job to its owner and its conversation, deleted jobs left out.
unfoldable pub is_visible : AccessScope → Conversation → Job → Bool
is_visible scope conversation job =
    text_eq job.workspace_id scope.workspace_id
    && text_eq job.created_by_user_id scope.user_id
    && same_channel job.conversation_channel conversation.conversation_channel
    && text_eq job.conversation_id conversation.conversation_id
    && not (is_deleted job.status)

-- The row that `createScheduledAgentJob` inserts.
unfoldable pub new_job : ℕ → AccessScope → CreateScheduledAgentJob → ℕ → ℕ → Job
new_job id scope input next_run_at now = record {
  id = id;
  workspace_id = scope.workspace_id;
  created_by_user_id = scope.user_id;
  prompt = input.prompt;
  conversation_channel = input.conversation.conversation_channel;
  conversation_id = input.conversation.conversation_id;
  reply_anchor_message_id = input.reply_anchor_message_id;
  timing = input.timing;
  missed_run_policy = if input.catch_up then catch_up else run_latest;
  status = JobStatus.active;
  next_run_at = some next_run_at;
  last_run_at = none;
  last_error = none;
  revision = 0;
  created_at = now;
  updated_at = now;
}

-- The row of a new run, with the defaults of its columns.
unfoldable pub new_run : ℕ → ℕ → ℕ → ℕ → Run
new_run id job_id scheduled_for now = record {
  id = id;
  job_id = job_id;
  scheduled_for = scheduled_for;
  status = RunStatus.queued;
  worker_session_id = none;
  deferred_completion_turn_id = none;
  pending_input_requests = none;
  outcome = none;
  report_status = ReportStatus.not_ready;
  report_sequence = 0;
  attempts = 0;
  retry_at = none;
  lease_token = none;
  lease_expires_at = none;
  report_lease_token = none;
  report_lease_expires_at = none;
  last_error = none;
  started_at = none;
  completed_at = none;
  created_at = now;
  updated_at = now;
}

-- A job of the list, with its latest run.
pub record ListedJob : Type 0 where
  pub job : Job
  pub latest_run : Option Run

-- `limit: 1, orderBy: desc(scheduledFor)` over the runs of a job.
unfoldable pub latest_of : Option Run → List Run → Option Run
latest_of best [] = best
latest_of none (r ∷ rs) = latest_of (some r) rs
latest_of (some b) (r ∷ rs) =
    latest_of (some (if ltb b.scheduled_for r.scheduled_for then r else b)) rs

-- `ORDER BY next_run_at ASC`, where PostgreSQL puts NULL last.
unfoldable pub by_next_run : List Job → List Job
by_next_run jobs =
    order_by (λ (j : Job). get_or j.next_run_at 0) (select (λ j. not (is_null j.next_run_at)) jobs)
    ++ select (λ j. is_null j.next_run_at) jobs

-- `parsed.lastError = runs[0]?.lastError ?? parsed.lastError`
unfoldable pub newer_error : Option Text → Option Text → Option Text
newer_error none old = old
newer_error (some e) old = some e

unfoldable pub patched_status : Option PatchStatus → JobStatus → JobStatus
patched_status none status = status
patched_status (some PatchStatus.active) status = JobStatus.active
patched_status (some PatchStatus.deleted) status = JobStatus.deleted
patched_status (some PatchStatus.paused) status = JobStatus.paused

unfoldable pub is_resume : Option PatchStatus → JobStatus → Bool
is_resume (some PatchStatus.active) status = not (is_active status)
is_resume _ status = false

-- The SET clause of an update: `...patch` leaves out what is undefined.
unfoldable pub patched_job : UpdateScheduledAgentJob → ScheduleTiming → Option ℕ → ℕ → Job → Job
patched_job patch timing next_run_at now job = record job {
  prompt = get_or patch.prompt job.prompt;
  status = patched_status patch.status job.status;
  next_run_at = next_run_at;
  revision = job.revision + 1;
  timing = timing;
  updated_at = now;
}

module _ (p : Platform) where
  unfoldable pub create_scheduled_agent_job :
      AccessScope → CreateScheduledAgentJob → ℕ → Db → Result Job × Db
  create_scheduled_agent_job scope input now db = elim (compute_next_run p input.timing now) [
    | none ↦ (err no_future_occurrence, db)
    | some next_run_at ↦
        let job = new_job db.next_uuid scope input next_run_at now in
        (parse_job p job, record db { jobs = db.jobs ++ job ∷ []; next_uuid = db.next_uuid + 1 })
  ]

  -- The object of the list, from the parsed job and its latest run.
  unfoldable pub with_latest : Job → Option Run → Result ListedJob
  with_latest parsed none = ok (record { job = parsed; latest_run = none })
  with_latest parsed (some run) = do
    latest ← parse_run p run
    ok (record {
      job = record parsed { last_error = newer_error run.last_error parsed.last_error };
      latest_run = some latest;
    })

  unfoldable pub listed : List Run → Job → Result ListedJob
  listed runs job = do
    parsed ← parse_job p job
    with_latest parsed (latest_of none (select (λ r. r.job_id == job.id) runs))

  unfoldable pub each_listed : List Run → List Job → Result (List ListedJob)
  each_listed runs [] = ok []
  each_listed runs (job ∷ jobs) = do
    first ← listed runs job
    rest ← each_listed runs jobs
    ok (first ∷ rest)

  unfoldable pub list_scheduled_agent_jobs :
      AccessScope → Conversation → Db → Result (List ListedJob)
  list_scheduled_agent_jobs scope conversation db =
      each_listed db.runs (by_next_run (select (is_visible scope conversation) db.jobs))

  -- The instant that an update writes to `next_run_at`.
  unfoldable pub patched_next_run : Job → UpdateScheduledAgentJob → ScheduleTiming → ℕ → Option ℕ
  patched_next_run current patch timing now =
      if not (is_active (patched_status patch.status current.status))
      then none
      else if not (is_null patch.timing) || is_resume patch.status current.status
      then compute_next_run p timing now
      else current.next_run_at

  -- The part of `updateScheduledAgentJob` behind the read of the timing.
  unfoldable pub write_update :
      Job → UpdateScheduledAgentJob → ScheduleTiming → ℕ → Db → Result (Option Job) × Db
  write_update current patch timing now db =
      let next_run_at = patched_next_run current patch timing now in
      let change = patched_job patch timing next_run_at now in
      if is_active (patched_status patch.status current.status) && is_null next_run_at
      then (err no_future_occurrence, db)
      else (
        elim (returning (λ j. j.id == current.id) change db.jobs) [
          | none ↦ ok none
          | some job ↦ elim (parse_job p job) [ err e ↦ err e | ok parsed ↦ ok (some parsed) ]
        ],
        record db { jobs = update_where (λ j. j.id == current.id) change db.jobs },
      )

  -- `updateScheduledAgentJob` behind the read of the job.
  unfoldable pub apply_update : Job → UpdateScheduledAgentJob → ℕ → Db → Result (Option Job) × Db
  apply_update current patch now db = elim patch.timing [
    | some timing ↦ write_update current patch timing now db
    | none ↦
        if schedule_timing_schema p current.timing
        then write_update current patch current.timing now db
        else (err invalid_record, db)
  ]

  unfoldable pub update_scheduled_agent_job :
      AccessScope → Conversation → ℕ → UpdateScheduledAgentJob → ℕ → Db → Result (Option Job) × Db
  update_scheduled_agent_job scope conversation id patch now db =
      elim (find_first (λ j. j.id == id && is_visible scope conversation j) db.jobs) [
        | none ↦ (ok none, db)
        | some current ↦ apply_update current patch now db
      ]
