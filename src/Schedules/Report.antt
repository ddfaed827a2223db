-- ===== src/Schedules/Report.antt =====
-- The operations of db/services/scheduled-agent-jobs.ts that deliver the report of a run.
use open_instinct.Base.{
  ℕ, ◌+◌, ◌*◌, Bool, true, false, not, ◌&&◌, ◌||◌, Option, none, some, List, [], ◌∷◌, map, Text,
  take, select, find_first, update_where, order_by, contains, null_eq, null_le, ◌==◌,
}
use open_instinct.Schedules.Platform.{Platform}
use open_instinct.Schedules.Rows.{
  Job, Run, Db, Channel, eve, linq, ReportStatus, pending, Result, ok, is_finished, is_reportable,
  report_is_pending, report_is_queued, find_run, find_job,
}
use open_instinct.Schedules.Worker.{update_runs, updates_any}
use open_instinct.Schedules.Input.{with_job}

unfoldable pub get_scheduled_report_channel : ℕ → Db → Option Channel
get_scheduled_report_channel run_id db = elim (find_run run_id db) [
  | none ↦ none
  | some run ↦ elim (find_job run.job_id db) [
    | none ↦ none
    | some job ↦ some job.conversation_channel
  ]
]

-- `conversation_channel IN ('eve', 'linq')`: the reports that take a lease.
unfoldable pub is_leased_channel : Channel → Bool
is_leased_channel eve = true
is_leased_channel linq = true
is_leased_channel _ = false

-- Whether the job of a run is on such a channel.
unfoldable pub on_leased_channel : List Job → Run → Bool
on_leased_channel jobs run =
    contains run.job_id
      (map (λ (j : Job). j.id) (select (λ j. is_leased_channel j.conversation_channel) jobs))

abbrev pub report_lease_ms : ℕ
report_lease_ms = 5 * 60000

unfoldable pub is_claimable_report : ℕ → List Job → Run → Bool
is_claimable_report run_id jobs r =
    r.id == run_id
    && on_leased_channel jobs r
    && is_reportable r.status
    && report_is_pending r.report_status

unfoldable pub reporting_run : ℕ → ℕ → Run → Run
reporting_run token now r = record r {
  report_lease_expires_at = some (now + report_lease_ms);
  report_lease_token = some token;
  report_status = ReportStatus.queued;
  updated_at = now;
}

-- A report that may have to be sent again.
unfoldable pub is_recoverable : ℕ → Channel → Run → Bool
is_recoverable now channel r =
    is_reportable r.status
    && (report_is_pending r.report_status
        || (report_is_queued r.report_status
            && (not (is_leased_channel channel) || null_le r.report_lease_expires_at now)))

unfoldable pub join_channel : List Job → List Run → List (Channel × Run)
join_channel jobs [] = []
join_channel jobs (run ∷ runs) = elim (find_first (λ j. j.id == run.job_id) jobs) [
  | none ↦ join_channel jobs runs
  | some job ↦ (job.conversation_channel, run) ∷ join_channel jobs runs
]

unfoldable pub recoverable_reports : (ℕ → Bool) → ℕ → ℕ → Db → List (Channel × Run)
recoverable_reports locked now limit db = take limit (
    order_by (λ (r : Channel × Run). r.1.updated_at)
      (select (λ (r : Channel × Run). is_recoverable now r.0 r.1 && not (locked r.1.id))
        (join_channel db.jobs db.runs)))

unfoldable pub unclaimed_report : ℕ → Run → Run
unclaimed_report now r = record r {
  report_lease_expires_at = none;
  report_lease_token = none;
  report_status = pending;
  updated_at = now;
}

-- The rows whose report lease a recovery takes away.
unfoldable pub is_stale_report : List ℕ → ℕ → Run → Bool
is_stale_report ids now r =
    contains r.id ids && report_is_queued r.report_status && null_le r.report_lease_expires_at now

unfoldable pub list_recoverable_scheduled_reports :
    (ℕ → Bool) → ℕ → ℕ → Db → List (Channel × ℕ) × Db
list_recoverable_scheduled_reports locked now limit db =
    let reports = recoverable_reports locked now limit db in
    let stale =
      select (λ (r : Run). report_is_queued r.report_status)
        (map (λ (r : Channel × Run). r.1)
          (select (λ (r : Channel × Run). is_leased_channel r.0) reports)) in
    (
      map (λ r. (r.0, r.1.id)) reports,
      update_runs (is_stale_report (map (λ (r : Run). r.id) stale) now) (unclaimed_report now) db,
    )

unfoldable pub holds_report : ℕ → ℕ → Run → Bool
holds_report run_id lease_token r = r.id == run_id && null_eq r.report_lease_token lease_token

unfoldable pub failed_report : Text → ℕ → Run → Run
failed_report error_message now r = record r {
  last_error = some (take 2000 error_message);
  report_lease_expires_at = none;
  report_lease_token = none;
  report_status = pending;
  updated_at = now;
}

unfoldable pub release_scheduled_report : ℕ → ℕ → Text → ℕ → Db → Bool × Db
release_scheduled_report run_id lease_token error_message now db = (
  updates_any (holds_report run_id lease_token) db,
  update_runs (holds_report run_id lease_token) (failed_report error_message now) db,
)

-- The statuses with which a report ends.
pub data Finalized : Type 0 where
  delivered suppressed : Finalized

unfoldable pub final_status : Finalized → ReportStatus
final_status Finalized.delivered = ReportStatus.delivered
final_status Finalized.suppressed = ReportStatus.suppressed

unfoldable pub is_finalizable : ℕ → ℕ → Finalized → Run → Bool
is_finalizable run_id lease_token status r =
    holds_report run_id lease_token r && report_is_queued r.report_status && elim status [
      | Finalized.suppressed ↦ is_finished r.status
      | Finalized.delivered ↦ is_reportable r.status
    ]

unfoldable pub finalized_run : Finalized → ℕ → Run → Run
finalized_run status now r = record r {
  report_lease_expires_at = none;
  report_lease_token = none;
  report_status = final_status status;
  updated_at = now;
}

unfoldable pub finalize_scheduled_report : ℕ → ℕ → Finalized → ℕ → Db → Bool × Db
finalize_scheduled_report run_id lease_token status now db = (
  updates_any (is_finalizable run_id lease_token status) db,
  update_runs (is_finalizable run_id lease_token status) (finalized_run status now) db,
)

module _ (p : Platform) where
  -- The token is drawn before the update, so it is spent whether or not a row is claimed.
  unfoldable pub claim_scheduled_report : ℕ → ℕ → Db → Result (Option (Job × Run)) × Db
  claim_scheduled_report run_id now db =
      let c = is_claimable_report run_id db.jobs in
      let db' = record db {
        runs = update_where c (reporting_run db.next_uuid now) db.runs;
        next_uuid = db.next_uuid + 1;
      } in
      (
        elim (find_first c db.runs) [ none ↦ ok none | some claimed ↦ with_job p claimed.id db' ],
        db',
      )
