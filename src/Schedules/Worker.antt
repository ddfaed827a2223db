-- ===== src/Schedules/Worker.antt =====
-- The operations of db/services/scheduled-agent-jobs.ts by which a worker drives its run, and
-- isScheduledAgentRunLeaseActive. Each is an UPDATE under the lease token that the claim drew.
use open_instinct.Base.{
  ℕ, ◌+◌, ◌*◌, Bool, true, false, not, ◌&&◌, ◌||◌, Option, none, some, Text, take, null_text_eq,
  find_first, update_where, returning, is_null, null_eq, leb, ltb, ◌==◌, if◌then◌else◌,
}
use mathlib.Core.Option.{get_or}
use open_instinct.Schedules.Platform.{Platform}
use open_instinct.Schedules.Outcome.{ScheduledRunOutcome, nothing_to_report}
use open_instinct.Schedules.Rows.{
  Run, Db, RunStatus, dead_letter, not_needed, pending, Result, ok, err, is_running, find_run,
}
use open_instinct.Schedules.Records.{exhausted_run_outcome, parse_run}

-- `id = runId AND status = 'running' AND lease_token = leaseToken`
unfoldable pub holds_lease : ℕ → ℕ → Run → Bool
holds_lease run_id lease_token r =
    r.id == run_id && is_running r.status && null_eq r.lease_token lease_token

abbrev pub update_runs : (Run → Bool) → (Run → Run) → Db → Db
update_runs c f db = record db { runs = update_where c f db.runs }

-- `run !== undefined` of an UPDATE ... RETURNING id
abbrev pub updates_any : (Run → Bool) → Db → Bool
updates_any c db = not (is_null (find_first c db.runs))

unfoldable pub is_scheduled_agent_run_lease_active : ℕ → ℕ → ℕ → Db → Bool
is_scheduled_agent_run_lease_active run_id lease_token now db =
    updates_any
      (λ r.
        holds_lease run_id lease_token r
        && elim r.lease_expires_at [ none ↦ false | some e ↦ ltb now e ])
      db

unfoldable pub set_scheduled_run_session : ℕ → ℕ → Text → ℕ → Db → Bool × Db
set_scheduled_run_session run_id lease_token session now db =
    let db' =
      update_runs (holds_lease run_id lease_token)
        (λ r. record r { worker_session_id = some session; updated_at = now }) db in
    (
      if updates_any (holds_lease run_id lease_token) db then true else elim (find_run run_id db') [
        | none ↦ false
        | some r ↦ null_text_eq r.worker_session_id session
      ],
      db',
    )

unfoldable pub started_run : Text → ℕ → ℕ → Run → Run
started_run session expires now r = record r {
  lease_expires_at = some expires;
  started_at = some (get_or r.started_at now);
  updated_at = now;
  worker_session_id = some session;
}

unfoldable pub mark_scheduled_agent_run_started : ℕ → ℕ → Text → ℕ → ℕ → Db → Bool × Db
mark_scheduled_agent_run_started run_id lease_token session lease_for_ms now db = (
  updates_any (holds_lease run_id lease_token) db,
  update_runs (holds_lease run_id lease_token) (started_run session (now + lease_for_ms) now) db,
)

unfoldable pub defer_scheduled_agent_run_completion : ℕ → ℕ → Text → ℕ → Db → Bool × Db
defer_scheduled_agent_run_completion run_id lease_token turn_id now db = (
  updates_any (holds_lease run_id lease_token) db,
  update_runs (holds_lease run_id lease_token)
      (λ r. record r { deferred_completion_turn_id = some turn_id; updated_at = now }) db,
)

unfoldable pub is_nothing : ScheduledRunOutcome → Bool
is_nothing (nothing_to_report _) = true
is_nothing _ = false

unfoldable pub completed_run : ScheduledRunOutcome → ℕ → Run → Run
completed_run outcome completed_at r = record r {
  completed_at = some completed_at;
  deferred_completion_turn_id = none;
  pending_input_requests = none;
  last_error = none;
  lease_expires_at = none;
  lease_token = none;
  outcome = some outcome;
  report_sequence = if is_nothing outcome then r.report_sequence else r.report_sequence + 1;
  report_status = if is_nothing outcome then not_needed else pending;
  status = RunStatus.completed;
  updated_at = completed_at;
}

-- The `completionCondition`: nothing to report never overtakes a deferred completion, and no
-- completion overtakes the one that its own turn deferred.
unfoldable pub may_complete : ScheduledRunOutcome → Text → Run → Bool
may_complete outcome turn_id r =
    if is_nothing outcome
    then is_null r.deferred_completion_turn_id
    else is_null r.deferred_completion_turn_id
      || not (null_text_eq r.deferred_completion_turn_id turn_id)

-- The condition of the read that tells a deferred completion from a lost lease.
unfoldable pub is_deferred : ScheduledRunOutcome → Text → Run → Bool
is_deferred outcome turn_id r =
    if is_nothing outcome
    then not (is_null r.deferred_completion_turn_id)
    else null_text_eq r.deferred_completion_turn_id turn_id

pub data Completion : Type 0 where
  completed : Run → Completion
  deferred : Completion
  lost : Completion

abbrev pub retry_delay_ms : ℕ
retry_delay_ms = 5 * 60000

unfoldable pub released_run : Run → Text → ℕ → Run → Run
released_run found error_message now r =
    let dead = leb 3 found.attempts in
    record r {
      deferred_completion_turn_id = none;
      last_error = some (take 2000 error_message);
      lease_expires_at = none;
      lease_token = none;
      outcome = if dead then some exhausted_run_outcome else found.outcome;
      report_sequence = if dead then r.report_sequence + 1 else r.report_sequence;
      report_status = if dead then pending else found.report_status;
      retry_at = if dead then none else some (now + retry_delay_ms);
      status = if dead then dead_letter else RunStatus.queued;
      updated_at = now;
    }

unfoldable pub has_token : ℕ → ℕ → Run → Bool
has_token run_id lease_token r = r.id == run_id && null_eq r.lease_token lease_token

-- `id = run.id AND lease_token = leaseToken`
unfoldable pub still_holds : Run → ℕ → Run → Bool
still_holds found lease_token r = r.id == found.id && null_eq r.lease_token lease_token

-- The update of a release, on the strength of the row that was read.
unfoldable pub write_release : Run → ℕ → Text → ℕ → Db → Option RunStatus × Db
write_release found lease_token error_message now db = (
  elim (returning (still_holds found lease_token) (released_run found error_message now) db.runs) [
    | none ↦ none
    | some r ↦ some r.status
  ],
  update_runs (still_holds found lease_token) (released_run found error_message now) db,
)

unfoldable pub release_scheduled_agent_run : ℕ → ℕ → Text → ℕ → Db → Option RunStatus × Db
release_scheduled_agent_run run_id lease_token error_message now db =
    elim (find_first (has_token run_id lease_token) db.runs) [
      | none ↦ (none, db)
      | some found ↦ write_release found lease_token error_message now db
    ]

module _ (p : Platform) where
  unfoldable pub complete_scheduled_agent_run :
      ℕ → ℕ → Text → ScheduledRunOutcome → ℕ → Db → Result Completion × Db
  complete_scheduled_agent_run run_id lease_token turn_id outcome completed_at db =
      let c = λ (r : Run). holds_lease run_id lease_token r && may_complete outcome turn_id r in
      let runs' = update_where c (completed_run outcome completed_at) db.runs in
      (
        elim (returning c (completed_run outcome completed_at) db.runs) [
          | some r ↦ elim (parse_run p r) [ err e ↦ err e | ok parsed ↦ ok (completed parsed) ]
          | none ↦
              elim (find_first
                (λ (r : Run). holds_lease run_id lease_token r && is_deferred outcome turn_id r)
                runs') [ none ↦ ok lost | some _ ↦ ok deferred ]
        ],
        record db { runs = runs' },
      )
