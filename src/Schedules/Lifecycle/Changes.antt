-- ===== src/Schedules/Lifecycle/Changes.antt =====
-- Each change that the store makes to a row keeps the row's invariant and is an edge of the state
-- machine.
use open_instinct.Base.{ℕ, ◌+◌, ◌≤◌, ◌≡◌, refl, Bool, true, some, List, Text, arith, ltb, leb}
use open_instinct.Schedules.Outcome.{ScheduledRunOutcome}
use open_instinct.Schedules.Rows.{Run}
use open_instinct.Schedules.Dispatch.{dead_run, claimed_run, is_ready}
use open_instinct.Schedules.Worker.{
  holds_lease, still_holds, started_run, completed_run, released_run,
}
use open_instinct.Schedules.Input.{
  waiting_run, awaits_input, resumed_run, restored_run, answered_run,
}
use open_instinct.Schedules.Report.{
  reporting_run, unclaimed_report, failed_report, finalized_run, Finalized,
}
use open_instinct.Schedules.Lifecycle.{RunOk, Keeps}

module _ (b : ℕ) (r : Run) (h : RunOk b r) where
  pub started_run-Keeps :
      (run_id token : ℕ) (session : Text) (expires now : ℕ)
      → holds_lease run_id token r ≡ true
      → Keeps b b r (started_run session expires now r)
  unfolding holds_lease started_run
  started_run-Keeps run_id token session expires now e = ground arith

  pub session_run-Keeps :
      (run_id token : ℕ) (session : Text) (now : ℕ)
      → holds_lease run_id token r ≡ true
      → Keeps b b r (record r { worker_session_id = some session; updated_at = now })
  unfolding holds_lease
  session_run-Keeps run_id token session now e = ground arith

  pub deferred_run-Keeps :
      (run_id token : ℕ) (turn_id : Text) (now : ℕ)
      → holds_lease run_id token r ≡ true
      → Keeps b b r (record r { deferred_completion_turn_id = some turn_id; updated_at = now })
  unfolding holds_lease
  deferred_run-Keeps run_id token turn_id now e = ground arith

  pub waiting_run-Keeps :
      (run_id token : ℕ) (requests : List ℕ) (now : ℕ)
      → holds_lease run_id token r ≡ true
      → Keeps b b r (waiting_run requests now r)
  unfolding holds_lease waiting_run
  waiting_run-Keeps run_id token requests now e = ground arith

  pub restored_run-Keeps :
      (run_id token : ℕ) (message : Text) (now : ℕ)
      → holds_lease run_id token r ≡ true
      → Keeps b b r (restored_run message now r)
  unfolding holds_lease restored_run
  restored_run-Keeps run_id token message now e = ground arith

  pub answered_run-Keeps :
      (run_id token : ℕ) (now : ℕ)
      → holds_lease run_id token r ≡ true
      → Keeps b b r (answered_run now r)
  unfolding holds_lease answered_run
  answered_run-Keeps run_id token now e = ground arith

  pub resumed_run-Keeps :
      (run_id token : ℕ) (now : ℕ)
      → awaits_input run_id token r ≡ true
      → Keeps b b r (resumed_run now r)
  unfolding awaits_input resumed_run
  resumed_run-Keeps run_id token now e = ground arith

  pub completed_run-Keeps :
      (run_id token : ℕ) (outcome : ScheduledRunOutcome) (now : ℕ)
      → holds_lease run_id token r ≡ true
      → Keeps b b r (completed_run outcome now r)
  unfolding holds_lease completed_run
  completed_run-Keeps run_id token outcome now e = ground arith

  pub released_run-Keeps :
      (found : Run) (token : ℕ) (message : Text) (now : ℕ)
      → found.attempts ≡ r.attempts
      → still_holds found token r ≡ true
      → Keeps b b r (released_run found message now r)
  unfolding still_holds released_run
  released_run-Keeps found token message now same e = ground arith

  pub claimed_run-Keeps :
      (locked : ℕ → Bool) (expires now : ℕ)
      → is_ready locked now r ≡ true
      → ltb r.attempts 3 ≡ true
      → Keeps b (b + 1) r (claimed_run b expires now r)
  unfolding is_ready claimed_run
  claimed_run-Keeps locked expires now e left = ground arith

  pub dead_run-Keeps :
      (locked : ℕ → Bool) (now : ℕ)
      → is_ready locked now r ≡ true
      → leb 3 r.attempts ≡ true
      → Keeps b b r (dead_run now r)
  unfolding is_ready dead_run
  dead_run-Keeps locked now e spent = ground arith

  -- A change of the columns of the report alone.
  report_only-Keeps :
      (b' : ℕ) (s : Run)
      → b ≤ b'
      → s.id ≡ r.id
      → s.job_id ≡ r.job_id
      → s.scheduled_for ≡ r.scheduled_for
      → s.status ≡ r.status
      → s.attempts ≡ r.attempts
      → s.lease_token ≡ r.lease_token
      → s.lease_expires_at ≡ r.lease_expires_at
      → s.outcome ≡ r.outcome
      → s.completed_at ≡ r.completed_at
      → s.report_sequence ≡ r.report_sequence
      → s.worker_session_id ≡ r.worker_session_id
      → Keeps b b' r s
  report_only-Keeps b' s le e₁ e₂ e₃ e₄ e₅ e₆ e₇ e₈ e₉ e₁₀ e₁₁ = ground arith

  pub reporting_run-Keeps : (token now : ℕ) → Keeps b (b + 1) r (reporting_run token now r)
  unfolding reporting_run
  reporting_run-Keeps token now =
      report_only-Keeps (b + 1) (reporting_run token now r) (omega arith) refl refl refl refl refl
        refl refl refl refl refl refl

  pub unclaimed_report-Keeps : (now : ℕ) → Keeps b b r (unclaimed_report now r)
  unfolding unclaimed_report
  unclaimed_report-Keeps now =
      report_only-Keeps b (unclaimed_report now r) (omega arith) refl refl refl refl refl refl refl
        refl refl refl refl

  pub failed_report-Keeps : (message : Text) (now : ℕ) → Keeps b b r (failed_report message now r)
  unfolding failed_report
  failed_report-Keeps message now =
      report_only-Keeps b (failed_report message now r) (omega arith) refl refl refl refl refl refl
        refl refl refl refl refl

  pub finalized_run-Keeps :
      (status : Finalized) (now : ℕ) → Keeps b b r (finalized_run status now r)
  unfolding finalized_run
  finalized_run-Keeps status now =
      report_only-Keeps b (finalized_run status now r) (omega arith) refl refl refl refl refl refl
        refl refl refl refl refl
