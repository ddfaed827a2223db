-- ===== src/Schedules/Recovery.antt =====
-- Which runs a later claim takes up: none whose lease is in force, and none that has kept the
-- session of an earlier attempt.
use open_instinct.Base.{
  ℕ, ◌+◌, ◌<◌, ◌≡◌, refl, inl, inr, Bool, true, false, Option, none, some, List, [], ◌∷◌, Text,
  arith, All, All-mono, All-at, Memᴰ, select, update_where, contains, Bool-cases, is_null, null_eq,
}
use open_instinct.Schedules.Platform.{Platform}
use open_instinct.Schedules.Rows.{Job, Run, Db, running, ok, err, Result}
use open_instinct.Schedules.Dispatch.{
  is_ready, dead_run, claimed_run, ready_runs, run_ids, is_exhausted, is_claimable, update_ids,
  parse_claims, write_claims, claimed_db, claim_ready_scheduled_agent_runs,
}
use open_instinct.Schedules.Worker.{released_run}
use open_instinct.Schedules.Lifecycle.{RunOk}
use open_instinct.Schedules.Invariant.{Regime, DbOk}

-- A run under the token `b` is running, with a lease up to `expires`.
abbrev pub Leased : ℕ → ℕ → Run → Type 0
Leased b expires r =
    null_eq r.lease_token b ≡ true → (r.status ≡ running) × (r.lease_expires_at ≡ some expires)

RunOk-Leased : (b expires : ℕ) (r : Run) → RunOk b r → Leased b expires r
RunOk-Leased b expires r h = λ e. absurd (undrawn r.lease_token h.drawn e)
  where
    undrawn :
        (t : Option ℕ)
        → (elim t as (λ _. Type 0) [ none ↦ Unit {0} | some v ↦ v < b ])
        → null_eq t b ≡ true
        → ⊥
    undrawn none d e = cc
    undrawn (some v) d e = ground arith

module _ (b expires now : ℕ) where
  claimed_run-Leased : (r : Run) → Leased b expires (claimed_run b expires now r)
  unfolding claimed_run
  claimed_run-Leased r = λ _. (refl, refl)

  dead_run-Leased : (r : Run) → Leased b expires (dead_run now r)
  unfolding dead_run
  dead_run-Leased r = λ e. cc

  update-Leased :
      (c : Run → Bool) (f : Run → Run)
      → ((r : Run) → Leased b expires (f r))
      → (rs : List Run) → All (Leased b expires) rs
      → All (Leased b expires) (update_where c f rs)
  update-Leased c f fits [] h = tt
  update-Leased c f fits (r ∷ rs) h = elim (Bool-cases (c r)) [
    | inl e ↦ rw e (fits r, update-Leased c f fits rs h.1)
    | inr e ↦ rw e (h.0, update-Leased c f fits rs h.1)
  ]

write_claims-Leased :
    (expires now : ℕ) (live : List (Job × Run)) (runs : List Run) (db : Db)
    → All (Leased db.next_uuid expires) runs
    → All (Leased db.next_uuid expires) (write_claims expires now live runs db).runs
unfolding write_claims
write_claims-Leased expires now [] runs db h = h
write_claims-Leased expires now (x ∷ live) runs db h =
    update-Leased db.next_uuid expires now (λ r. contains r.id (run_ids (x ∷ live)))
      (claimed_run db.next_uuid expires now) (claimed_run-Leased db.next_uuid expires now) runs h

claim-Leased :
    {A : Type 0} (m : Result A) (b expires : ℕ) (db db' : Db)
    → All (Leased b expires) db.runs
    → All (Leased b expires) db'.runs
    → All
        (Leased b expires)
        (elim m as (λ _. Result A × Db) [ err e ↦ (err e, db) | ok a ↦ (ok a, db') ]).1.runs
claim-Leased (err e) b expires db db' h k = h
claim-Leased (ok a) b expires db db' h k = k

claim_ready-All :
    {g : Regime} (p : Platform) (locked : ℕ → Bool) (lease_for limit now : ℕ) (db : Db)
    → DbOk g db
    → All
        (Leased db.next_uuid (now + lease_for))
        (claim_ready_scheduled_agent_runs p locked lease_for limit now db).1.runs
unfolding claim_ready_scheduled_agent_runs claimed_db
claim_ready-All p locked lease_for limit now db h =
    let b = db.next_uuid in
    let expires = now + lease_for in
    let ready = ready_runs locked limit now db in
    let before = All-mono (RunOk b) (Leased b expires) (RunOk-Leased b expires) db.runs h.runs_ok in
    claim-Leased (parse_claims p b expires (select is_claimable ready)) b expires db _ before (
      write_claims-Leased expires now (select is_claimable ready)
        (update_ids (run_ids (select is_exhausted ready)) (dead_run now) db.runs) db
        (update-Leased b expires now (λ r. contains r.id (run_ids (select is_exhausted ready)))
          (dead_run now) (dead_run-Leased b expires now) db.runs before))

-- After a claim, every run under the token that it drew is running, under the lease that it set.
pub claim_ready-Leased :
    {g : Regime} (p : Platform) (locked : ℕ → Bool) (lease_for limit now : ℕ) (db : Db) (r : Run)
    → DbOk g db
    → Memᴰ r (claim_ready_scheduled_agent_runs p locked lease_for limit now db).1.runs
    → null_eq r.lease_token db.next_uuid ≡ true
    → (r.status ≡ running) × (r.lease_expires_at ≡ some (now + lease_for))
claim_ready-Leased p locked lease_for limit now db r h m =
    All-at (Leased db.next_uuid (now + lease_for)) m
      (claim_ready-All p locked lease_for limit now db h)

Leased-unready :
    (b expires later : ℕ) (locked : ℕ → Bool) (r : Run)
    → later < expires
    → Leased b expires r
    → null_eq r.lease_token b ≡ true
    → is_ready locked later r ≡ false
unfolding is_ready
Leased-unready b expires later locked r lt leased t = ground (arith, leased t)

-- No dispatcher takes up a run that a claim has taken, while the lease of the claim is in force.
pub claim_ready-exclusive :
    {g : Regime} (p : Platform) (locked locked' : ℕ → Bool) (lease_for limit now later : ℕ)
    (db : Db) (r : Run)
    → DbOk g db
    → later < now + lease_for
    → Memᴰ r (claim_ready_scheduled_agent_runs p locked lease_for limit now db).1.runs
    → null_eq r.lease_token db.next_uuid ≡ true
    → is_ready locked' later r ≡ false
claim_ready-exclusive p locked locked' lease_for limit now later db r h lt m =
    Leased-unready db.next_uuid (now + lease_for) later locked' r lt (
      All-at (Leased db.next_uuid (now + lease_for)) m
        (claim_ready-All p locked lease_for limit now db h))

-- A run that an earlier attempt gave a session keeps it when it is released and claimed again, so
-- the new lease, once expired, is never taken up by a claim, whatever the time.
pub retried_run-unready :
    (r found : Run) (message : Text) (released token expires claimed later : ℕ) (locked : ℕ → Bool)
    → is_null r.worker_session_id ≡ false
    → let retried = claimed_run token expires claimed (released_run found message released r) in
      (retried.lease_token ≡ some token)
      × (retried.lease_expires_at ≡ some expires)
      × (is_ready locked later retried ≡ false)
unfolding claimed_run released_run is_ready
retried_run-unready r found message released token expires claimed later locked kept =
    (refl, refl, ground arith)
