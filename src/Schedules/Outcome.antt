-- ===== src/Schedules/Outcome.antt =====
-- shared/schedules/outcome.ts: the outcome of a scheduled run, and the schema that reads it back.
use open_instinct.Base.{
  trim, ℕ, Bool, ◌&&◌, Option, none, some, List, [], ◌∷◌, Text, length, leb, if◌then◌else◌,
}
use open_instinct.Schedules.Platform.{Platform}

pub data Urgency : Type 0 where
  normal time_sensitive : Urgency

pub record Artifact : Type 0 where
  pub id : Text
  pub label : Option Text

pub data ScheduledRunOutcome : Type 0 where
  nothing_to_report : (reason : Text) → ScheduledRunOutcome
  result :
      (artifacts : Option (List Artifact)) (details : Option Text) (expires_at : Option Text)
      (summary : Text) (urgency : Urgency)
      → ScheduledRunOutcome
  blocked : (summary user_action_needed : Text) → ScheduledRunOutcome

infixl 5 ◌>>=◌
abbrev ◌>>=◌ {ℓ κ} : {A : Type ℓ} {B : Type κ} → Option A → (A → Option B) → Option B
none >>= k = none
some a >>= k = k a

-- `z.string().trim().min(1).max(n)`: the trimmed text, if its length is in range.
bounded : ℕ → Text → Option Text
unfolding trim
bounded n text =
    if leb 1 (length (trim text)) && leb (length (trim text)) n then some (trim text) else none

-- `.optional()`
optional {ℓ} : {A : Type ℓ} → (A → Option A) → Option A → Option (Option A)
optional parse none = some none
optional parse (some a) = do some (some (← parse a))

accept : (Text → Bool) → Text → Option Text
accept test text = if test text then some text else none

module _ (p : Platform) where
  artifact_schema : Artifact → Option Artifact
  unfolding accept optional bounded
  artifact_schema a = do
    id ← accept p.is_uuid a.id
    label ← optional (bounded 200) a.label
    some (record { id = id; label = label })

  each_artifact : List Artifact → Option (List Artifact)
  each_artifact [] = some []
  each_artifact (a ∷ rest) = do b ← artifact_schema a; bs ← each_artifact rest; some (b ∷ bs)

  -- `z.array(artifactSchema).max(4)`
  artifacts_schema : List Artifact → Option (List Artifact)
  artifacts_schema artifacts = if leb (length artifacts) 4 then each_artifact artifacts else none

  unfoldable pub scheduled_run_outcome_schema : ScheduledRunOutcome → Option ScheduledRunOutcome
  unfolding artifacts_schema each_artifact artifact_schema accept optional bounded
  scheduled_run_outcome_schema (nothing_to_report reason) = do
    some (nothing_to_report (← bounded 2000 reason))
  scheduled_run_outcome_schema (result artifacts details expires_at summary urgency) = do
    artifacts' ← optional artifacts_schema artifacts
    details' ← optional (bounded 8000) details
    expires_at' ← optional (accept p.is_datetime) expires_at
    summary' ← bounded 4000 summary
    some (result artifacts' details' expires_at' summary' urgency)
  scheduled_run_outcome_schema (blocked summary user_action_needed) = do
    summary' ← bounded 4000 summary
    needed ← bounded 2000 user_action_needed
    some (blocked summary' needed)
