-- ===== src/Schedules/Steps/Fencing.antt =====
-- Lease tokens fence: a call with a token that a run no longer holds does nothing, and no later
-- call gives the token back.
use open_instinct.Base.{
  All-Extends, ℕ, ◌<◌, ◌≡◌, ◌&&◌, inl, inr, Bool, false, none, List, Text, arith, Bool-cases, All,
  All-mono, update_where-none, find_first-none, find_first, update_where,
}
use open_instinct.Schedules.Platform.{Platform}
use open_instinct.Schedules.Outcome.{ScheduledRunOutcome}
use open_instinct.Schedules.Rows.{Run, Db, ok}
use open_instinct.Schedules.Worker.{
  has_token, holds_lease, may_complete, is_deferred, mark_scheduled_agent_run_started,
  set_scheduled_run_session, defer_scheduled_agent_run_completion, complete_scheduled_agent_run,
  completed_run, lost, release_scheduled_agent_run,
}
use open_instinct.Schedules.Input.{
  wait_for_scheduled_agent_run_input, resumed_run, awaits_input, claim_scheduled_agent_run_input,
  restore_scheduled_agent_run_input, finish_scheduled_agent_run_input,
}
use open_instinct.Schedules.Records.{input_requests_schema}
use open_instinct.Schedules.Lifecycle.{Evolves, Moves, IsNew}
use open_instinct.Schedules.Steps.Overlap.{
  System, SystemOk, Reach, here, next, Turn-Turned, Reach-Later,
}

-- No run with this id holds the token.
abbrev pub IsLost : ℕ → ℕ → Db → Type 0
IsLost run_id token db = All (λ r. has_token run_id token r ≡ false) db.runs

moved-lost :
    (b run_id token : ℕ) (r s : Run)
    → token < b
    → Evolves b r s
    → has_token run_id token r ≡ false
    → has_token run_id token s ≡ false
unfolding has_token
moved-lost b run_id token r s drawn e lost' = ground arith

new-lost : (b run_id token : ℕ) (r : Run) → IsNew b r → has_token run_id token r ≡ false
unfolding has_token
new-lost b run_id token r n = ground arith

-- A token that has been drawn and that the run does not hold is never held by it again, over any
-- sequence of calls, overlapping ones among them.
pub Reach-IsLost :
    (p : Platform) (run_id token : ℕ) {s s' : System}
    → SystemOk s
    → token < s.db.next_uuid
    → IsLost run_id token s.db
    → Reach p s s'
    → IsLost run_id token s'.db
Reach-IsLost p i t h drawn l here = l
Reach-IsLost p i t {s} h drawn l (next {t = u} {u = v} r turn) =
    let later = Reach-Later p h r in
    let b = u.db.next_uuid in
    All-Extends (Moves b) (IsNew b) _ _
      (λ q w m. moved-lost b i t q w (omega (arith, later.drawn_le)) m.1) (new-lost b i t) u.db.runs
      v.db.runs (Turn-Turned p later.ok turn).extends (Reach-IsLost p i t h drawn l r)

holds_lease-lost : (i t : ℕ) (r : Run) → has_token i t r ≡ false → holds_lease i t r ≡ false
unfolding has_token holds_lease
holds_lease-lost i t r h = ground arith

awaits_input-lost : (i t : ℕ) (r : Run) → has_token i t r ≡ false → awaits_input i t r ≡ false
unfolding has_token awaits_input
awaits_input-lost i t r h = ground arith

guarded-lost :
    (i t : ℕ) (c : Run → Bool) (r : Run)
    → has_token i t r ≡ false
    → (holds_lease i t r && c r) ≡ false
guarded-lost i t c r h = ground (arith, holds_lease-lost i t r h)

module _ (run_id token : ℕ) (db : Db) (h : IsLost run_id token db) where
  lost_runs : (f : Run → Run) → update_where (holds_lease run_id token) f db.runs ≡ db.runs
  lost_runs f =
      update_where-none _ f db.runs (All-mono _ _ (holds_lease-lost run_id token) db.runs h)

  nothing_held : find_first (holds_lease run_id token) db.runs ≡ none
  nothing_held = find_first-none _ db.runs (All-mono _ _ (holds_lease-lost run_id token) db.runs h)

  guarded_runs :
      (c : Run → Bool) (f : Run → Run)
      → update_where (λ r. holds_lease run_id token r && c r) f db.runs ≡ db.runs
  guarded_runs c f =
      update_where-none _ f db.runs (All-mono _ _ (guarded-lost run_id token c) db.runs h)

  nothing_guarded :
      (c : Run → Bool) → find_first (λ r. holds_lease run_id token r && c r) db.runs ≡ none
  nothing_guarded c =
      find_first-none _ db.runs (All-mono _ _ (guarded-lost run_id token c) db.runs h)

  start-lost :
      (session : Text) (lease_for now : ℕ)
      → mark_scheduled_agent_run_started run_id token session lease_for now db ≡ (false, db)
  unfolding mark_scheduled_agent_run_started
  start-lost session lease_for now = rw (lost_runs, nothing_held)

  session-lost :
      (session : Text) (now : ℕ) → (set_scheduled_run_session run_id token session now db).1 ≡ db
  unfolding set_scheduled_run_session
  session-lost session now = rw lost_runs

  defer-lost :
      (turn_id : Text) (now : ℕ)
      → defer_scheduled_agent_run_completion run_id token turn_id now db ≡ (false, db)
  unfolding defer_scheduled_agent_run_completion
  defer-lost turn_id now = rw (lost_runs, nothing_held)

  restore-lost :
      (message : Text) (now : ℕ)
      → restore_scheduled_agent_run_input run_id token message now db ≡ db
  unfolding restore_scheduled_agent_run_input
  restore-lost message now = rw lost_runs

  finish-lost : (now : ℕ) → finish_scheduled_agent_run_input run_id token now db ≡ db
  unfolding finish_scheduled_agent_run_input
  finish-lost now = rw lost_runs

  wait-lost :
      (p : Platform) (requests : List ℕ) (now : ℕ)
      → (wait_for_scheduled_agent_run_input p run_id token requests now db).1 ≡ db
  unfolding wait_for_scheduled_agent_run_input
  wait-lost p requests now = elim (Bool-cases (input_requests_schema p requests)) [
    | inl e ↦ rw (e, lost_runs)
    | inr e ↦ rw e
  ]

  complete-lost :
      (p : Platform) (turn_id : Text) (outcome : ScheduledRunOutcome) (now : ℕ)
      → complete_scheduled_agent_run p run_id token turn_id outcome now db ≡ (ok lost, db)
  unfolding complete_scheduled_agent_run
  complete-lost p turn_id outcome now =
      let same = guarded_runs (may_complete outcome turn_id) (completed_run outcome now) in
      rw (same, nothing_guarded (may_complete outcome turn_id))
        (rw (same, nothing_guarded (is_deferred outcome turn_id)))

  release-lost :
      (message : Text) (now : ℕ)
      → release_scheduled_agent_run run_id token message now db ≡ (none, db)
  unfolding release_scheduled_agent_run
  release-lost message now =
      rw (find_first-none (has_token run_id token) db.runs h, release_scheduled_agent_run)

  claim_input-lost :
      (p : Platform) (now : ℕ)
      → claim_scheduled_agent_run_input p run_id token now db ≡ (ok none, db)
  unfolding claim_scheduled_agent_run_input
  claim_input-lost p now =
      let none_awaits = All-mono _ _ (awaits_input-lost run_id token) db.runs h in
      rw (
        update_where-none (awaits_input run_id token) (resumed_run now) db.runs none_awaits,
        find_first-none (awaits_input run_id token) db.runs none_awaits,
      )

-- A worker whose run does not hold the token changes nothing: none of its calls alters the tables,
-- and start, deferral, completion, release and resumption report the loss.
pub lost_worker-changes_nothing :
    (p : Platform) (run_id token : ℕ) (db : Db) (text : Text) (outcome : ScheduledRunOutcome)
    (requests : List ℕ) (lease_for now : ℕ)
    → IsLost run_id token db
    → (mark_scheduled_agent_run_started run_id token text lease_for now db ≡ (false, db))
      × ((set_scheduled_run_session run_id token text now db).1 ≡ db)
      × (defer_scheduled_agent_run_completion run_id token text now db ≡ (false, db))
      × (complete_scheduled_agent_run p run_id token text outcome now db ≡ (ok lost, db))
      × (release_scheduled_agent_run run_id token text now db ≡ (none, db))
      × ((wait_for_scheduled_agent_run_input p run_id token requests now db).1 ≡ db)
      × (claim_scheduled_agent_run_input p run_id token now db ≡ (ok none, db))
      × (restore_scheduled_agent_run_input run_id token text now db ≡ db)
      × (finish_scheduled_agent_run_input run_id token now db ≡ db)
lost_worker-changes_nothing p i t db text outcome requests lease_for now h = (
  start-lost i t db h text lease_for now,
  session-lost i t db h text now,
  defer-lost i t db h text now,
  complete-lost i t db h p text outcome now,
  release-lost i t db h text now,
  wait-lost i t db h p requests now,
  claim_input-lost i t db h p now,
  restore-lost i t db h text now,
  finish-lost i t db h now,
)
