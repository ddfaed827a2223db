-- ===== src/Schedules/Input.antt =====
-- The operations of db/services/scheduled-agent-jobs.ts by which a run waits for the user's input
-- and is resumed.
use open_instinct.Base.{
  ℕ, ◌+◌, ◌*◌, Bool, ◌&&◌, ◌||◌, Option, none, some, List, Text, text_eq, take, find_first,
  returning, is_null, null_eq, ◌==◌, if◌then◌else◌,
}
use open_instinct.Schedules.Platform.{Platform}
use open_instinct.Schedules.Rows.{
  Job, Run, Db, running, waiting_for_input, not_ready, pending, Result, ok, err, invalid_record,
  is_waiting, report_is_delivered, report_is_queued, same_channel, find_run, find_job,
}
use open_instinct.Schedules.Records.{
  AccessScope, Conversation, parse_job, parse_run, input_requests_schema,
}
use open_instinct.Schedules.Worker.{holds_lease, update_runs}

unfoldable pub waiting_run : List ℕ → ℕ → Run → Run
waiting_run requests now r = record r {
  pending_input_requests = some requests;
  lease_expires_at = none;
  report_sequence = r.report_sequence + 1;
  report_status = pending;
  status = waiting_for_input;
  updated_at = now;
}

-- What is needed to answer a waiting run: its lease token, with requests and a session present.
unfoldable pub resumable : Run → Option (ℕ × ℕ)
resumable r = elim r.lease_token [
  | none ↦ none
  | some token ↦
      if is_null r.pending_input_requests || is_null r.worker_session_id
      then none
      else some (token, r.id)
]

unfoldable pub get_scheduled_agent_run_input : AccessScope → Conversation → ℕ → Db → Option (ℕ × ℕ)
get_scheduled_agent_run_input scope conversation run_id db =
    elim (find_first
      (λ r. r.id == run_id && is_waiting r.status && report_is_delivered r.report_status) db.runs) [
        | none ↦ none
        | some r ↦ elim (find_job r.job_id db) [
          | none ↦ none
          | some job ↦
              if text_eq job.workspace_id scope.workspace_id
                && text_eq job.created_by_user_id scope.user_id
                && same_channel job.conversation_channel conversation.conversation_channel
                && text_eq job.conversation_id conversation.conversation_id
              then resumable r
              else none
        ]
      ]

unfoldable pub get_scheduled_agent_run_input_for_report : ℕ → ℕ → Db → Option (ℕ × ℕ)
get_scheduled_agent_run_input_for_report run_id report_lease_token db =
    elim (find_first
      (λ r.
        r.id == run_id
        && is_waiting r.status
        && report_is_queued r.report_status
        && null_eq r.report_lease_token report_lease_token)
      db.runs) [ none ↦ none | some r ↦ resumable r ]

-- `id = runId AND status = 'waiting_for_input' AND lease_token = leaseToken`
unfoldable pub awaits_input : ℕ → ℕ → Run → Bool
awaits_input run_id lease_token r =
    r.id == run_id && is_waiting r.status && null_eq r.lease_token lease_token

abbrev pub six_hours_ms : ℕ
six_hours_ms = 6 * 60 * 60000

unfoldable pub resumed_run : ℕ → Run → Run
resumed_run now r = record r {
  lease_expires_at = some (now + six_hours_ms);
  status = running;
  updated_at = now;
}

unfoldable pub restored_run : Text → ℕ → Run → Run
restored_run error_message now r = record r {
  deferred_completion_turn_id = none;
  last_error = some (take 2000 error_message);
  lease_expires_at = none;
  status = waiting_for_input;
  updated_at = now;
}

unfoldable pub restore_scheduled_agent_run_input : ℕ → ℕ → Text → ℕ → Db → Db
restore_scheduled_agent_run_input run_id lease_token error_message now db =
    update_runs (holds_lease run_id lease_token) (restored_run error_message now) db

unfoldable pub answered_run : ℕ → Run → Run
answered_run now r = record r {
  deferred_completion_turn_id = none;
  pending_input_requests = none;
  last_error = none;
  report_lease_expires_at = none;
  report_lease_token = none;
  report_status = not_ready;
  updated_at = now;
}

unfoldable pub finish_scheduled_agent_run_input : ℕ → ℕ → ℕ → Db → Db
finish_scheduled_agent_run_input run_id lease_token now db =
    update_runs (holds_lease run_id lease_token) (answered_run now) db

module _ (p : Platform) where
  unfoldable pub wait_for_scheduled_agent_run_input :
      ℕ → ℕ → List ℕ → ℕ → Db → Result (Option Run) × Db
  wait_for_scheduled_agent_run_input run_id lease_token requests now db =
      if input_requests_schema p requests
      then (
        elim (returning (holds_lease run_id lease_token) (waiting_run requests now) db.runs) [
          | none ↦ ok none
          | some r ↦ elim (parse_run p r) [ err e ↦ err e | ok parsed ↦ ok (some parsed) ]
        ],
        update_runs (holds_lease run_id lease_token) (waiting_run requests now) db,
      )
      else (err invalid_record, db)

  -- `const { job, ...run } = claimedWithJob; return { job: parseJob(job), run: parseRun(run) }`
  unfoldable pub with_job : ℕ → Db → Result (Option (Job × Run))
  with_job run_id db = elim (find_run run_id db) [
    | none ↦ ok none
    | some run ↦ elim (find_job run.job_id db) [
      | none ↦ ok none
      | some job ↦ elim (parse_job p job) [
        | err e ↦ err e
        | ok job' ↦ elim (parse_run p run) [ err e ↦ err e | ok run' ↦ ok (some (job', run')) ]
      ]
    ]
  ]

  unfoldable pub claim_scheduled_agent_run_input : ℕ → ℕ → ℕ → Db → Result (Option (Job × Run)) × Db
  claim_scheduled_agent_run_input run_id lease_token now db =
      let db' = update_runs (awaits_input run_id lease_token) (resumed_run now) db in
      (
        elim (returning (awaits_input run_id lease_token) (resumed_run now) db.runs) [
          | none ↦ ok none
          | some claimed ↦
              if is_null claimed.pending_input_requests || is_null claimed.worker_session_id
              then ok none
              else with_job claimed.id db'
        ],
        db',
      )
