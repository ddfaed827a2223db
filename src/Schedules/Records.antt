-- ===== src/Schedules/Records.antt =====
-- parseJob and parseRun of db/services/scheduled-agent-jobs.ts, and the types of its inputs.
use open_instinct.Base.{
  ℕ, Bool, true, false, ◌&&◌, Option, none, some, List, [], ◌∷◌, Text, codes, if◌then◌else◌,
}
use open_instinct.Schedules.Platform.{Platform}
use open_instinct.Schedules.Timing.{ScheduleTiming, schedule_timing_schema}
use open_instinct.Schedules.Outcome.{ScheduledRunOutcome, blocked, scheduled_run_outcome_schema}
use open_instinct.Schedules.Rows.{Job, Run, Channel, Result, ok, err, invalid_record}

unfoldable pub exhausted_run_outcome : ScheduledRunOutcome
exhausted_run_outcome =
    blocked (codes "The scheduled task could not complete after three attempts.")
      (codes "Try the task again or update the schedule.")

pub record AccessScope : Type 0 where
  pub user_id : Text
  pub workspace_id : Text

pub record Conversation : Type 0 where
  pub conversation_channel : Channel
  pub conversation_id : Text

-- The conversation's fields are in `conversation`; the type has no policy `skip`.
pub record CreateScheduledAgentJob : Type 0 where
  pub conversation : Conversation
  pub catch_up : Bool
  pub prompt : Text
  pub reply_anchor_message_id : Option Text
  pub timing : ScheduleTiming

pub data PatchStatus : Type 0 where
  active deleted paused : PatchStatus

pub record UpdateScheduledAgentJob : Type 0 where
  pub prompt : Option Text
  pub status : Option PatchStatus
  pub timing : Option ScheduleTiming

module _ (p : Platform) where
  unfoldable pub parse_job : Job → Result Job
  parse_job job = if schedule_timing_schema p job.timing then ok job else err invalid_record

  -- `inputRequestSchema.array()`
  unfoldable pub all_input_requests : List ℕ → Bool
  all_input_requests [] = true
  all_input_requests (r ∷ rs) = p.is_input_request r && all_input_requests rs

  -- `inputRequestSchema.array().min(1)`
  unfoldable pub input_requests_schema : List ℕ → Bool
  unfolding all_input_requests
  input_requests_schema [] = false
  input_requests_schema (r ∷ rs) = all_input_requests (r ∷ rs)

  unfoldable pub stored_requests_ok : Option (List ℕ) → Bool
  unfolding input_requests_schema
  stored_requests_ok none = true
  stored_requests_ok (some requests) = input_requests_schema requests

  unfoldable pub parse_run : Run → Result Run
  unfolding stored_requests_ok scheduled_run_outcome_schema
  parse_run run =
      if stored_requests_ok run.pending_input_requests
      then elim run.outcome [
        | none ↦ ok run
        | some outcome ↦ elim (scheduled_run_outcome_schema p outcome) [
          | none ↦ err invalid_record
          | some parsed ↦ ok (record run { outcome = some parsed })
        ]
      ]
      else err invalid_record
