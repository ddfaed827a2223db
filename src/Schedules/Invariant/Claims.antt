-- ===== src/Schedules/Invariant/Claims.antt =====
-- claimReadyScheduledAgentRuns keeps the tables sound: it touches only rows that were ready, and
-- the two updates touch different rows.
use open_instinct.Base.{
  Extends, Option, none, some, if◌then◌else◌, ℕ, ◌+◌, ◌≡◌, refl, inl, inr, Bool, true, List, [],
  ◌∷◌, arith, All, All-mono, All-take, All-select, All-order_by, select, update_where,
  map-update_where, contains, find_first, Bool-cases, leb, ltb, ◌==◌,
}
use open_instinct.Schedules.Platform.{Platform}
use open_instinct.Schedules.Rows.{Job, Run, Db, ok, err, Result}
use open_instinct.Schedules.Dispatch.{
  is_ready, dead_run, claimed_run, joined, join_jobs, ready_runs, run_ids, is_exhausted,
  is_claimable, update_ids, parse_claims, write_claims, claimed_db,
  claim_ready_scheduled_agent_runs,
}
use open_instinct.Schedules.Lifecycle.{RunOk, RunOk-grow, Moves, Moves-refl, IsNew, Keeps}
use open_instinct.Schedules.Lifecycle.Changes
use open_instinct.Schedules.Invariant.{key_of, Regime, DbOk, Sound, JobOk}
use open_instinct.Schedules.Invariant.Unique.{IsOnly, Unique-IsOnly, selected_rows}
use open_instinct.Schedules.Invariant.Calls.{JobOk-grow, Sound-refl, update_runs-Sound}

All-joined :
    (P : Run → Type 0) (o : Option Job) (r : Run) (rest : List (Job × Run))
    → P r
    → All (λ (x : Job × Run). P x.1) rest
    → All (λ (x : Job × Run). P x.1) (joined o r rest)
All-joined P none r rest p h = h
All-joined P (some job) r rest p h = (p, h)

All-join_jobs :
    (P : Run → Type 0) (jobs : List Job) (rs : List Run)
    → All P rs
    → All (λ (x : Job × Run). P x.1) (join_jobs jobs rs)
unfolding join_jobs
All-join_jobs P jobs [] h = tt
All-join_jobs P jobs (r ∷ rs) h =
    All-joined P (find_first (λ j. j.id == r.job_id) jobs) r (join_jobs jobs rs) h.0
      (All-join_jobs P jobs rs h.1)

module _ {g : Regime} (locked : ℕ → Bool) (limit now : ℕ) (db : Db) (h : DbOk g db) where
  -- What holds of a row that the claim selects.
  abbrev Selected : Job × Run → Type 0
  Selected x = IsOnly db.runs x.1 × (is_ready locked now x.1 ≡ true)

  ready_runs-Selected : All Selected (ready_runs locked limit now db)
  unfolding ready_runs
  ready_runs-Selected = All-take Selected limit _ (
      All-order_by Selected (λ (x : Job × Run). x.1.scheduled_for) _
        (All-select (λ (x : Job × Run). IsOnly db.runs x.1)
          (λ (x : Job × Run). is_ready locked now x.1) _
          (All-join_jobs (IsOnly db.runs) db.jobs db.runs (Unique-IsOnly db.runs h.unique))))

  -- The rows that an UPDATE by the ids of some of them reaches.
  reached :
      (c : Job × Run → Bool) (Q : Run → Type 0)
      → ((x : Job × Run) → c x ≡ true → Q x.1)
      → All
          (λ r.
            contains r.id (run_ids (select c (ready_runs locked limit now db))) ≡ true
            → (is_ready locked now r ≡ true) × Q r)
          db.runs
  reached c Q sound =
      selected_rows (λ r. (is_ready locked now r ≡ true) × Q r) db.runs _
        (All-mono (λ x. Selected x × (c x ≡ true)) _ (λ x s. (s.0.0, (s.0.1, sound x s.1))) _
          (All-select Selected c (ready_runs locked limit now db) ready_runs-Selected))

-- The two updates of a claim, row by row: `dies` and `lives` look at the id alone.
module _ (b expires now : ℕ) (locked : ℕ → Bool) (dies lives : Run → Bool)
    (same : (r : Run) → lives (dead_run now r) ≡ lives r) where
  claim_row :
      (r : Run)
      → RunOk b r
      → (dies r ≡ true → (is_ready locked now r ≡ true) × (leb 3 r.attempts ≡ true))
      → (lives r ≡ true → (is_ready locked now r ≡ true) × (ltb r.attempts 3 ≡ true))
      → Keeps b (b + 1) r (
          let s = if dies r then dead_run now r else r in
          if lives s then claimed_run b expires now s else s)
  claim_row r sound d l = elim (Bool-cases (dies r)) [
    | inl dead ↦ elim (Bool-cases (lives r)) [
      | inl live ↦ absurd (ground (arith, d dead, l live))
      | inr stay ↦
          rw (dead, same r, stay)
            (let (ok', move) = Changes.dead_run-Keeps b r sound locked now (d dead).0 (d dead).1 in
              (RunOk-grow b (b + 1) (omega arith) (dead_run now r) ok', move))
    ]
    | inr alive ↦ elim (Bool-cases (lives r)) [
      | inl live ↦
          rw (alive, live)
            (Changes.claimed_run-Keeps b r sound locked expires now (l live).0 (l live).1)
      | inr stay ↦ rw (alive, stay) (RunOk-grow b (b + 1) (omega arith) r sound, Moves-refl b r)
    ]
  ]

  claim_rows :
      (rs : List Run)
      → All (RunOk b) rs
      → All (λ r. dies r ≡ true → (is_ready locked now r ≡ true) × (leb 3 r.attempts ≡ true)) rs
      → All (λ r. lives r ≡ true → (is_ready locked now r ≡ true) × (ltb r.attempts 3 ≡ true)) rs
      → let rs' =
          update_where lives (claimed_run b expires now) (update_where dies (dead_run now) rs) in
        All (RunOk (b + 1)) rs' × Extends (Moves b) (IsNew b) rs rs'
  claim_rows [] sound d l = (tt, tt)
  claim_rows (r ∷ rs) sound d l =
      let (row_ok, move) = claim_row r sound.0 d.0 l.0 in
      let (oks, moves) = claim_rows rs sound.1 d.1 l.1 in ((row_ok, oks), (move, moves))

module _ {g : Regime} (locked : ℕ → Bool) (limit expires now : ℕ) (db : Db) (h : DbOk g db) where
  write_claims-Sound :
      (dead live : List (Job × Run))
      → All
          (λ r.
            contains r.id (run_ids dead) ≡ true
            → (is_ready locked now r ≡ true) × (leb 3 r.attempts ≡ true))
          db.runs
      → All
          (λ r.
            contains r.id (run_ids live) ≡ true
            → (is_ready locked now r ≡ true) × (ltb r.attempts 3 ≡ true))
          db.runs
      → Sound g db
          (write_claims expires now live (update_ids (run_ids dead) (dead_run now) db.runs) db)
  unfolding write_claims dead_run claimed_run
  write_claims-Sound dead [] d l =
      update_runs-Sound db h db.next_uuid _ _ (omega arith) (λ r. refl)
        (All-mono _ _
          (λ r k e sound. Changes.dead_run-Keeps db.next_uuid r sound locked now (k e).0 (k e).1)
          db.runs d)
  write_claims-Sound dead (x ∷ live) d l =
      let dies = λ (r : Run). contains r.id (run_ids dead) in
      let lives = λ (r : Run). contains r.id (run_ids (x ∷ live)) in
      let (oks, moves) =
        claim_rows db.next_uuid expires now locked dies lives (λ r. refl) db.runs h.runs_ok d l in
      record {
        ok = record {
          runs_ok = oks;
          unique =
              rw
                (
                  map-update_where key_of lives (claimed_run db.next_uuid expires now) (λ r. refl)
                      (update_where dies (dead_run now) db.runs),
                  map-update_where key_of dies (dead_run now) (λ r. refl) db.runs,
                )
                h.unique;
          jobs_ok =
              All-mono (JobOk g db.next_uuid) (JobOk g (db.next_uuid + 1))
                (JobOk-grow g db.next_uuid (db.next_uuid + 1) (omega arith)) db.jobs h.jobs_ok;
          job_ids = h.job_ids;
        };
        extends = moves;
        drawn_le = omega arith;
      }

  claimed_db-Sound : Sound g db (claimed_db expires now (ready_runs locked limit now db) db)
  unfolding claimed_db
  claimed_db-Sound =
      write_claims-Sound (select is_exhausted (ready_runs locked limit now db))
        (select is_claimable (ready_runs locked limit now db))
        (reached locked limit now db h is_exhausted (λ r. leb 3 r.attempts ≡ true) (λ x e. e))
        (reached locked limit now db h is_claimable (λ r. ltb r.attempts 3 ≡ true) (λ x e. e))

after_parse :
    {g : Regime} {A : Type 0} (r : Result A) (db db' : Db)
    → Sound g db db
    → Sound g db db'
    → Sound g db (elim r as (λ _. Result A × Db) [ err e ↦ (err e, db) | ok a ↦ (ok a, db') ]).1
after_parse (err e) db db' same changed = same
after_parse (ok a) db db' same changed = changed

-- A claim keeps the tables sound, also where it throws.
pub claim_ready-Sound :
    {g : Regime} (p : Platform) (locked : ℕ → Bool) (lease_for limit now : ℕ) (db : Db)
    → DbOk g db
    → Sound g db (claim_ready_scheduled_agent_runs p locked lease_for limit now db).1
unfolding claim_ready_scheduled_agent_runs
claim_ready-Sound p locked lease_for limit now db h =
    after_parse
      (parse_claims p db.next_uuid (now + lease_for)
        (select is_claimable (ready_runs locked limit now db)))
      db _ (Sound-refl db h) (claimed_db-Sound locked limit (now + lease_for) now db h)
