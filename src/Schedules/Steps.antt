-- ===== src/Schedules/Steps.antt =====
-- The calls of the store, by any dispatcher, worker or conversation: their arguments and the clock
-- are arbitrary. A call runs alone here; Steps/Overlap.antt is about calls that overlap.
pub mod Overlap
pub mod Fencing
pub mod Overtaken
use open_instinct.Base.{
  Extends, Extends-refl, Extends-trans, ℕ, ◌≤◌, ◌<◌, ◌≡◌, refl, Bool, List, Text, arith, All,
  All-mono,
}
use open_instinct.Schedules.Platform.{Platform}
use open_instinct.Schedules.Outcome.{ScheduledRunOutcome}
use open_instinct.Schedules.Rows.{Run, Db}
use open_instinct.Schedules.Records.{
  AccessScope, Conversation, CreateScheduledAgentJob, UpdateScheduledAgentJob,
}
use open_instinct.Schedules.Jobs.{create_scheduled_agent_job, update_scheduled_agent_job}
use open_instinct.Schedules.Dispatch.{
  materialize_due_scheduled_agent_runs, claim_ready_scheduled_agent_runs,
}
use open_instinct.Schedules.Worker.{
  set_scheduled_run_session, mark_scheduled_agent_run_started, defer_scheduled_agent_run_completion,
  complete_scheduled_agent_run, release_scheduled_agent_run,
}
use open_instinct.Schedules.Input.{
  wait_for_scheduled_agent_run_input, claim_scheduled_agent_run_input,
  restore_scheduled_agent_run_input, finish_scheduled_agent_run_input,
}
use open_instinct.Schedules.Report.{
  claim_scheduled_report, list_recoverable_scheduled_reports, release_scheduled_report, Finalized,
  finalize_scheduled_report,
}
use open_instinct.Schedules.Lifecycle.{Evolves, Evolves-refl, Evolves-trans, Moves, IsNew}
use open_instinct.Schedules.Invariant.{Regime, DbOk, Sound}
use open_instinct.Schedules.Invariant.Calls
use open_instinct.Schedules.Invariant.Claims
use open_instinct.Schedules.Invariant.Materialize
use open_instinct.Schedules.Invariant.Edits

pub data Step (p : Platform) (db : Db) : Db → Type 0 where
  creates :
      (scope : AccessScope) (input : CreateScheduledAgentJob) (now : ℕ)
      → Step p db (create_scheduled_agent_job p scope input now db).1
  updates :
      (scope : AccessScope) (conversation : Conversation) (id : ℕ) (patch : UpdateScheduledAgentJob)
      (now : ℕ)
      → Step p db (update_scheduled_agent_job p scope conversation id patch now db).1
  materializes :
      (locked : ℕ → Bool) (limit now : ℕ)
      → Step p db (materialize_due_scheduled_agent_runs p locked limit now db).1
  claims :
      (locked : ℕ → Bool) (lease_for limit now : ℕ)
      → Step p db (claim_ready_scheduled_agent_runs p locked lease_for limit now db).1
  sets_session :
      (run_id token : ℕ) (session : Text) (now : ℕ)
      → Step p db (set_scheduled_run_session run_id token session now db).1
  starts :
      (run_id token : ℕ) (session : Text) (lease_for now : ℕ)
      → Step p db (mark_scheduled_agent_run_started run_id token session lease_for now db).1
  waits :
      (run_id token : ℕ) (requests : List ℕ) (now : ℕ)
      → Step p db (wait_for_scheduled_agent_run_input p run_id token requests now db).1
  defers :
      (run_id token : ℕ) (turn_id : Text) (now : ℕ)
      → Step p db (defer_scheduled_agent_run_completion run_id token turn_id now db).1
  claims_input :
      (run_id token now : ℕ) → Step p db (claim_scheduled_agent_run_input p run_id token now db).1
  restores :
      (run_id token : ℕ) (message : Text) (now : ℕ)
      → Step p db (restore_scheduled_agent_run_input run_id token message now db)
  finishes :
      (run_id token now : ℕ) → Step p db (finish_scheduled_agent_run_input run_id token now db)
  completes :
      (run_id token : ℕ) (turn_id : Text) (outcome : ScheduledRunOutcome) (now : ℕ)
      → Step p db (complete_scheduled_agent_run p run_id token turn_id outcome now db).1
  releases :
      (run_id token : ℕ) (message : Text) (now : ℕ)
      → Step p db (release_scheduled_agent_run run_id token message now db).1
  claims_report : (run_id now : ℕ) → Step p db (claim_scheduled_report p run_id now db).1
  recovers :
      (locked : ℕ → Bool) (now limit : ℕ)
      → Step p db (list_recoverable_scheduled_reports locked now limit db).1
  releases_report :
      (run_id token : ℕ) (message : Text) (now : ℕ)
      → Step p db (release_scheduled_report run_id token message now db).1
  finalizes :
      (run_id token : ℕ) (status : Finalized) (now : ℕ)
      → Step p db (finalize_scheduled_report run_id token status now db).1

-- Every call of the store that runs alone, also one that throws, keeps the tables sound: the
-- invariant holds after it, each run has made at most one move of its state machine and none is
-- lost. That the active jobs are those with a next occurrence is kept where it is part of the
-- invariant (`serial`).
pub Step-Sound :
    (p : Platform) {g : Regime} {db db' : Db} → DbOk g db → Step p db db' → Sound g db db'
Step-Sound p {db} h (creates scope input now) = Edits.create_job-Sound p scope input now db h
Step-Sound p {db} h (updates scope conversation id patch now) =
    Edits.update_job-Sound p scope conversation id patch now db h
Step-Sound p {db} h (materializes locked limit now) =
    Materialize.materialize-Sound p locked limit now db h
Step-Sound p {db} h (claims locked lease_for limit now) =
    Claims.claim_ready-Sound p locked lease_for limit now db h
Step-Sound p {db} h (sets_session i t session now) = Calls.set_session-Sound db h i t session now
Step-Sound p {db} h (starts i t session lease_for now) =
    Calls.mark_started-Sound db h i t session lease_for now
Step-Sound p {db} h (waits i t requests now) = Calls.wait_for_input-Sound db h i t p requests now
Step-Sound p {db} h (defers i t turn_id now) = Calls.defer_completion-Sound db h i t turn_id now
Step-Sound p {db} h (claims_input i t now) = Calls.claim_input-Sound db h i t p now
Step-Sound p {db} h (restores i t message now) = Calls.restore_input-Sound db h i t message now
Step-Sound p {db} h (finishes i t now) = Calls.finish_input-Sound db h i t now
Step-Sound p {db} h (completes i t turn_id outcome now) =
    Calls.complete-Sound db h i t p turn_id outcome now
Step-Sound p {db} h (releases i t message now) = Calls.release-Sound db h i t message now
Step-Sound p {db} h (claims_report i now) = Calls.claim_report-Sound db h p i now
Step-Sound p {db} h (recovers locked now limit) = Calls.list_recoverable-Sound db h locked now limit
Step-Sound p {db} h (releases_report i t message now) =
    Calls.release_report-Sound db h i t message now
Step-Sound p {db} h (finalizes i t status now) = Calls.finalize_report-Sound db h i t status now
