-- ===== src/Schedules/Invariant/Calls.antt =====
-- The calls of the workers and of the reports keep the tables sound.
use open_instinct.Base.{
  Extends-refl, ℕ, ◌+◌, ◌≤◌, ◌≡◌, refl, Bool, true, List, Text, sym, ap, ◌==◌, null_eq, arith,
  Bool-cases, All, All-of, All-mono, update_where, map-update_where, find_first, find_first_sound,
  Option-cases, inl, inr, &&-left,
}
use open_instinct.Schedules.Platform.{Platform}
use open_instinct.Schedules.Outcome.{ScheduledRunOutcome}
use open_instinct.Schedules.Rows.{Job, Run, Db}
use open_instinct.Schedules.Worker.{
  holds_lease, has_token, update_runs, set_scheduled_run_session, mark_scheduled_agent_run_started,
  started_run, defer_scheduled_agent_run_completion, may_complete, completed_run,
  complete_scheduled_agent_run, released_run, still_holds, write_release,
  release_scheduled_agent_run,
}
use open_instinct.Schedules.Records.{input_requests_schema}
use open_instinct.Schedules.Input.{
  waiting_run, wait_for_scheduled_agent_run_input, resumed_run, claim_scheduled_agent_run_input,
  restored_run, restore_scheduled_agent_run_input, answered_run, finish_scheduled_agent_run_input,
}
use open_instinct.Schedules.Report.{
  reporting_run, claim_scheduled_report, unclaimed_report, list_recoverable_scheduled_reports,
  failed_report, release_scheduled_report, Finalized, finalized_run, finalize_scheduled_report,
}
use open_instinct.Schedules.Lifecycle.{RunOk, Moves, Moves-refl, IsNew, Keeps, update_where-Keeps}
use open_instinct.Schedules.Lifecycle.Changes
use open_instinct.Schedules.Invariant.Unique.{IsOnly, Unique-IsOnly}
use open_instinct.Schedules.Invariant.{key_of, Regime, DbOk, Sound, JobOk}

pub JobOk-grow : (g : Regime) (b b' : ℕ) → b ≤ b' → (j : Job) → JobOk g b j → JobOk g b' j
JobOk-grow g b b' le j h = (h.0, omega arith)

still_holds-id :
    (found : Run) (token : ℕ) (r : Run)
    → still_holds found token r ≡ true
    → (r.id == found.id) ≡ true
unfolding still_holds
still_holds-id found token r e = &&-left (r.id == found.id) (null_eq r.lease_token token) e

pub only_row-attempts :
    (found : Run) (token : ℕ) (rs : List Run)
    → IsOnly rs found
    → All (λ r. still_holds found token r ≡ true → found.attempts ≡ r.attempts) rs
only_row-attempts found token rs only =
    All-mono (λ r. (r.id == found.id) ≡ true → r ≡ found) _
      (λ r same t. ap (λ (x : Run). x.attempts) (sym (same (still_holds-id found token r t)))) rs
      only

module _ {g : Regime} (db : Db) (h : DbOk g db) where
  pub Sound-refl : Sound g db db
  Sound-refl = record {
    ok = h;
    extends =
        Extends-refl (Moves db.next_uuid) (IsNew db.next_uuid) (Moves-refl db.next_uuid) db.runs;
    drawn_le = omega arith;
  }

  -- An UPDATE of the runs that draws up to `b'` and leaves what identifies a run.
  pub update_runs-Sound :
      (b' : ℕ) (c : Run → Bool) (f : Run → Run)
      → db.next_uuid ≤ b'
      → ((r : Run) → key_of (f r) ≡ key_of r)
      → All (λ r. c r ≡ true → RunOk db.next_uuid r → Keeps db.next_uuid b' r (f r)) db.runs
      → Sound g db (record db { runs = update_where c f db.runs; next_uuid = b' })
  update_runs-Sound b' c f le same keep =
      let (oks, moves) = update_where-Keeps db.next_uuid b' c f le db.runs keep h.runs_ok in
      record {
        ok = record {
          runs_ok = oks;
          unique = rw (map-update_where key_of c f same db.runs) h.unique;
          jobs_ok =
              All-mono (JobOk g db.next_uuid) (JobOk g b') (JobOk-grow g db.next_uuid b' le) db.jobs
                h.jobs_ok;
          job_ids = h.job_ids;
        };
        extends = moves;
        drawn_le = le;
      }

  -- The same, where the change keeps every row that the condition selects.
  pub update-Sound :
      (c : Run → Bool) (f : Run → Run)
      → ((r : Run) → key_of (f r) ≡ key_of r)
      → ((r : Run) → c r ≡ true → RunOk db.next_uuid r → Keeps db.next_uuid db.next_uuid r (f r))
      → Sound g db (update_runs c f db)
  update-Sound c f same keep =
      update_runs-Sound db.next_uuid c f (omega arith) same (All-of _ keep db.runs)

  module _ (run_id token : ℕ) where
    pub set_session-Sound :
        (session : Text) (now : ℕ)
        → Sound g db (set_scheduled_run_session run_id token session now db).1
    unfolding set_scheduled_run_session
    set_session-Sound session now =
        update-Sound _ _ (λ r. refl)
          (λ r e ok. Changes.session_run-Keeps db.next_uuid r ok run_id token session now e)

    pub mark_started-Sound :
        (session : Text) (lease_for now : ℕ)
        → Sound g db (mark_scheduled_agent_run_started run_id token session lease_for now db).1
    unfolding mark_scheduled_agent_run_started started_run
    mark_started-Sound session lease_for now =
        update-Sound _ _ (λ r. refl)
          (λ r e ok.
            Changes.started_run-Keeps db.next_uuid r ok run_id token session (now + lease_for) now
              e)

    pub defer_completion-Sound :
        (turn_id : Text) (now : ℕ)
        → Sound g db (defer_scheduled_agent_run_completion run_id token turn_id now db).1
    unfolding defer_scheduled_agent_run_completion
    defer_completion-Sound turn_id now =
        update-Sound _ _ (λ r. refl)
          (λ r e ok. Changes.deferred_run-Keeps db.next_uuid r ok run_id token turn_id now e)

    pub complete-Sound :
        (p : Platform) (turn_id : Text) (outcome : ScheduledRunOutcome) (now : ℕ)
        → Sound g db (complete_scheduled_agent_run p run_id token turn_id outcome now db).1
    unfolding complete_scheduled_agent_run completed_run
    complete-Sound p turn_id outcome now =
        update-Sound _ _ (λ r. refl)
          (λ r e ok.
            Changes.completed_run-Keeps db.next_uuid r ok run_id token outcome now
              (&&-left (holds_lease run_id token r) (may_complete outcome turn_id r) e))

    pub wait_for_input-Sound :
        (p : Platform) (requests : List ℕ) (now : ℕ)
        → Sound g db (wait_for_scheduled_agent_run_input p run_id token requests now db).1
    unfolding wait_for_scheduled_agent_run_input waiting_run
    wait_for_input-Sound p requests now = elim (Bool-cases (input_requests_schema p requests)) [
      | inl fits ↦ rw fits (
          update-Sound _ _ (λ r. refl)
            (λ r e ok. Changes.waiting_run-Keeps db.next_uuid r ok run_id token requests now e))
      | inr unfit ↦ rw unfit Sound-refl
    ]

    pub claim_input-Sound :
        (p : Platform) (now : ℕ)
        → Sound g db (claim_scheduled_agent_run_input p run_id token now db).1
    unfolding claim_scheduled_agent_run_input resumed_run
    claim_input-Sound p now =
        update-Sound _ _ (λ r. refl)
          (λ r e ok. Changes.resumed_run-Keeps db.next_uuid r ok run_id token now e)

    pub restore_input-Sound :
        (message : Text) (now : ℕ)
        → Sound g db (restore_scheduled_agent_run_input run_id token message now db)
    unfolding restore_scheduled_agent_run_input restored_run
    restore_input-Sound message now =
        update-Sound _ _ (λ r. refl)
          (λ r e ok. Changes.restored_run-Keeps db.next_uuid r ok run_id token message now e)

    pub finish_input-Sound :
        (now : ℕ) → Sound g db (finish_scheduled_agent_run_input run_id token now db)
    unfolding finish_scheduled_agent_run_input answered_run
    finish_input-Sound now =
        update-Sound _ _ (λ r. refl)
          (λ r e ok. Changes.answered_run-Keeps db.next_uuid r ok run_id token now e)

    pub release_report-Sound :
        (message : Text) (now : ℕ)
        → Sound g db (release_scheduled_report run_id token message now db).1
    unfolding release_scheduled_report failed_report
    release_report-Sound message now =
        update-Sound _ _ (λ r. refl)
          (λ r e ok. Changes.failed_report-Keeps db.next_uuid r ok message now)

    pub finalize_report-Sound :
        (status : Finalized) (now : ℕ)
        → Sound g db (finalize_scheduled_report run_id token status now db).1
    unfolding finalize_scheduled_report finalized_run
    finalize_report-Sound status now =
        update-Sound _ _ (λ r. refl)
          (λ r e ok. Changes.finalized_run-Keeps db.next_uuid r ok status now)

  pub claim_report-Sound :
      (p : Platform) (run_id now : ℕ) → Sound g db (claim_scheduled_report p run_id now db).1
  unfolding claim_scheduled_report reporting_run
  claim_report-Sound p run_id now =
      update_runs-Sound (db.next_uuid + 1) _ _ (omega arith) (λ r. refl)
        (All-of _ (λ r e ok. Changes.reporting_run-Keeps db.next_uuid r ok db.next_uuid now)
          db.runs)

  pub list_recoverable-Sound :
      (locked : ℕ → Bool) (now limit : ℕ)
      → Sound g db (list_recoverable_scheduled_reports locked now limit db).1
  unfolding list_recoverable_scheduled_reports unclaimed_report
  list_recoverable-Sound locked now limit =
      update-Sound _ _ (λ r. refl) (λ r e ok. Changes.unclaimed_report-Keeps db.next_uuid r ok now)

  -- The write of a release, on the strength of a row with the attempts of the one that it updates.
  pub write_release-Sound :
      (found : Run) (token : ℕ) (message : Text) (now : ℕ)
      → All (λ r. still_holds found token r ≡ true → found.attempts ≡ r.attempts) db.runs
      → Sound g db (write_release found token message now db).1
  unfolding write_release released_run
  write_release-Sound found token message now same =
      update_runs-Sound db.next_uuid _ _ (omega arith) (λ r. refl)
        (All-mono _ _
          (λ r attempts t ok.
            Changes.released_run-Keeps db.next_uuid r ok found token message now (attempts t) t)
          db.runs same)

  -- The row that `releaseScheduledAgentRun` updates is the one that it has read.
  pub release-Sound :
      (run_id token : ℕ) (message : Text) (now : ℕ)
      → Sound g db (release_scheduled_agent_run run_id token message now db).1
  unfolding release_scheduled_agent_run
  release-Sound run_id token message now =
      elim (Option-cases (find_first (has_token run_id token) db.runs)) [
        | inl missing ↦ rw (missing, release_scheduled_agent_run) Sound-refl
        | inr (found, e) ↦
            rw (e, release_scheduled_agent_run)
              (write_release-Sound found token message now (
                only_row-attempts found token db.runs
                  (find_first_sound (IsOnly db.runs) (has_token run_id token) db.runs found
                    (Unique-IsOnly db.runs h.unique) e).0))
      ]
