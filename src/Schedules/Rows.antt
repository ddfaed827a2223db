-- ===== src/Schedules/Rows.antt =====
-- The tables of db/schema/schedules.ts and the records that the store returns. Identifiers and
-- lease tokens (UUIDs) and instants are numbers; `next_uuid` is a number that no row holds yet and
-- stands for what `randomUUID` and `defaultRandom` draw.
use open_instinct.Base.{ℕ, ◌≡◌, refl, Bool, true, false, Option, List, Text, ◌==◌, find_first}
use open_instinct.Schedules.Timing.{ScheduleTiming}
use open_instinct.Schedules.Outcome.{ScheduledRunOutcome}

pub data Channel : Type 0 where
  eve linq telegram kapso : Channel

pub data MissedRunPolicy : Type 0 where
  skip run_latest catch_up : MissedRunPolicy

pub data JobStatus : Type 0 where
  active paused completed deleted : JobStatus

pub data RunStatus : Type 0 where
  queued running waiting_for_input completed dead_letter : RunStatus

pub data ReportStatus : Type 0 where
  not_ready not_needed pending queued delivered suppressed failed cancelled uncertain : ReportStatus

pub record Job : Type 0 where
  pub id : ℕ
  pub workspace_id : Text
  pub created_by_user_id : Text
  pub prompt : Text
  pub conversation_channel : Channel
  pub conversation_id : Text
  pub reply_anchor_message_id : Option Text
  pub timing : ScheduleTiming
  pub missed_run_policy : MissedRunPolicy
  pub status : JobStatus
  pub next_run_at : Option ℕ
  pub last_run_at : Option ℕ
  pub last_error : Option Text
  pub revision : ℕ
  pub created_at : ℕ
  pub updated_at : ℕ

pub record Run : Type 0 where
  pub id : ℕ
  pub job_id : ℕ
  pub scheduled_for : ℕ
  pub status : RunStatus
  pub worker_session_id : Option Text
  pub deferred_completion_turn_id : Option Text
  pub pending_input_requests : Option (List ℕ)
  pub outcome : Option ScheduledRunOutcome
  pub report_status : ReportStatus
  pub report_sequence : ℕ
  pub attempts : ℕ
  pub retry_at : Option ℕ
  pub lease_token : Option ℕ
  pub lease_expires_at : Option ℕ
  pub report_lease_token : Option ℕ
  pub report_lease_expires_at : Option ℕ
  pub last_error : Option Text
  pub started_at : Option ℕ
  pub completed_at : Option ℕ
  pub created_at : ℕ
  pub updated_at : ℕ

pub record Db : Type 0 where
  pub jobs : List Job
  pub runs : List Run
  pub next_uuid : ℕ

-- The exceptions that the store throws.
pub data Error : Type 0 where
  no_future_occurrence : Error
  invalid_record : Error

pub data Result {ℓ} (A : Type ℓ) : Type ℓ where
  ok : A → Result A
  err : Error → Result A

infixl 5 ◌>>=◌
abbrev pub ◌>>=◌ {ℓ κ} : {A : Type ℓ} {B : Type κ} → Result A → (A → Result B) → Result B
err e >>= next = err e
ok a >>= next = next a

-- What a chain that returns has returned on the way.
pub >>=-ok {ℓ κ} :
    {B : Type κ} {b : B} {A : Type ℓ} (step : Result A) (rest : A → Result B)
    → (step >>= rest) ≡ ok b
    → (found : A) × (step ≡ ok found) × (rest found ≡ ok b)
>>=-ok (err thrown) rest e = cc
>>=-ok (ok found) rest e = (found, refl, e)

pub ok-injective {ℓ} : {A : Type ℓ} (a b : A) → ok a ≡ ok b → a ≡ b
ok-injective a b e = cc

unfoldable pub same_channel : Channel → Channel → Bool
same_channel eve eve = true
same_channel linq linq = true
same_channel telegram telegram = true
same_channel kapso kapso = true
same_channel _ _ = false

abbrev pub is_active : JobStatus → Bool
is_active active = true
is_active _ = false

abbrev pub is_deleted : JobStatus → Bool
is_deleted deleted = true
is_deleted _ = false

abbrev pub is_queued : RunStatus → Bool
is_queued RunStatus.queued = true
is_queued _ = false

abbrev pub is_running : RunStatus → Bool
is_running running = true
is_running _ = false

abbrev pub is_waiting : RunStatus → Bool
is_waiting waiting_for_input = true
is_waiting _ = false

-- `status IN ('completed', 'dead_letter')`
abbrev pub is_finished : RunStatus → Bool
is_finished RunStatus.completed = true
is_finished dead_letter = true
is_finished _ = false

-- `status IN ('completed', 'dead_letter', 'waiting_for_input')`
abbrev pub is_reportable : RunStatus → Bool
is_reportable RunStatus.completed = true
is_reportable dead_letter = true
is_reportable waiting_for_input = true
is_reportable _ = false

abbrev pub report_is_pending : ReportStatus → Bool
report_is_pending pending = true
report_is_pending _ = false

abbrev pub report_is_queued : ReportStatus → Bool
report_is_queued ReportStatus.queued = true
report_is_queued _ = false

abbrev pub report_is_delivered : ReportStatus → Bool
report_is_delivered delivered = true
report_is_delivered _ = false

-- `findFirst({ where: eq(id, ...) })`
abbrev pub find_run : ℕ → Db → Option Run
find_run run_id db = find_first (λ r. r.id == run_id) db.runs

abbrev pub find_job : ℕ → Db → Option Job
find_job job_id db = find_first (λ j. j.id == job_id) db.jobs
