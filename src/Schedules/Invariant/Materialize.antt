-- ===== src/Schedules/Invariant/Materialize.antt =====
-- The calls that insert rows keep the tables sound: createScheduledAgentJob and
-- materializeDueScheduledAgentRuns; and updateScheduledAgentJob, which changes a job.
use open_instinct.Base.{
  Extends, Extends-refl, Extends-append, Extends-trans, ℕ, ◌+◌, ◌≤◌, ◌<◌, ◌≡◌, refl, ◌∙◌, inl, inr,
  Bool, true, false, ◌&&◌, Option, none, some, List, [], ◌∷◌, ◌++◌, map, arith, All, All-mono,
  All-append, All-of, update_where, map-update_where, find_first, Option-cases, Bool-cases, ◌==◌,
}
use mathlib.Core.Path.{subst}
use mathlib.Core.List.{map-append}
use open_instinct.Schedules.Platform.{Platform}
use open_instinct.Schedules.Timing.{schedule_timing_schema, compute_next_run}
use open_instinct.Schedules.Rows.{Job, Run, Db, ok, err, ◌>>=◌, Result}
use open_instinct.Schedules.Jobs.{new_run}
use open_instinct.Schedules.Dispatch.{
  same_occurrence, insert_run, advanced_job, chosen_occurrence, write_occurrence, materialize_job,
  materialize_each, due_jobs, materialize_due_scheduled_agent_runs,
}
use open_instinct.Schedules.Lifecycle.{RunOk, RunOk-grow, Moves, Moves-refl, IsNew}
use open_instinct.Schedules.Invariant.{
  Key, key_of, Apart, Unique, Regime, serial-IsScheduled, JobOk, DbOk, Sound,
}
use open_instinct.Schedules.Invariant.Calls.{JobOk-grow}

-- A call that changes no run: it only inserts.
pub record Grown (g : Regime) (db db' : Db) : Type 0 where
  pub ok : DbOk g db'
  pub extends : Extends ◌≡◌ (IsNew db.next_uuid) db.runs db'.runs
  pub drawn_le : db.next_uuid ≤ db'.next_uuid

Grown-refl : {g : Regime} (db : Db) → DbOk g db → Grown g db db
Grown-refl db h = record {
  ok = h;
  extends = Extends-refl ◌≡◌ (IsNew db.next_uuid) (λ r. refl) db.runs;
  drawn_le = omega arith;
}

IsNew-weaken : (b c : ℕ) → b ≤ c → (r : Run) → IsNew c r → IsNew b r
IsNew-weaken b c le r h = (h.0, h.1, omega arith)

Grown-trans : {g : Regime} (a b c : Db) → Grown g a b → Grown g b c → Grown g a c
Grown-trans a b c l k = record {
  ok = k.ok;
  extends =
      Extends-trans ◌≡◌ ◌≡◌ ◌≡◌ (IsNew a.next_uuid) (IsNew b.next_uuid) (λ q r s p t. p ∙ t)
        (λ r s n e. subst (IsNew a.next_uuid) e n) (IsNew-weaken a.next_uuid b.next_uuid l.drawn_le)
        a.runs b.runs c.runs l.extends k.extends;
  drawn_le = omega (arith, l.drawn_le, k.drawn_le);
}

Extends-Moves :
    (b : ℕ) (rs ss : List Run) → Extends ◌≡◌ (IsNew b) rs ss → Extends (Moves b) (IsNew b) rs ss
Extends-Moves b [] ss h = h
Extends-Moves b (r ∷ rs) [] h = absurd h
Extends-Moves b (r ∷ rs) (s ∷ ss) h =
    (subst (Moves b r) h.0 (Moves-refl b r), Extends-Moves b rs ss h.1)

pub Grown-Sound : {g : Regime} (db db' : Db) → Grown g db db' → Sound g db db'
Grown-Sound db db' k = record {
  ok = k.ok;
  extends = Extends-Moves db.next_uuid db.runs db'.runs k.extends;
  drawn_le = k.drawn_le;
}

Unique-append :
    (ks : List Key) (l : Key) → Unique ks → All (λ k. Apart k l) ks → Unique (ks ++ l ∷ [])
Unique-append [] l u a = (tt, tt)
Unique-append (k ∷ ks) l u a =
    (All-append (Apart k) ks (l ∷ []) u.0 (a.0, tt), Unique-append ks l u.1 a.1)

-- A new row is apart from the rows of the table, if none of them has its occurrence.
new-Apart :
    (b job_id at now : ℕ) (rs : List Run)
    → All (RunOk b) rs
    → find_first (same_occurrence job_id at) rs ≡ none
    → All (λ k. Apart k (key_of (new_run b job_id at now))) (map key_of rs)
unfolding same_occurrence new_run
new-Apart b job_id at now [] oks free = tt
new-Apart b job_id at now (r ∷ rs) oks free =
    elim (Bool-cases (r.job_id == job_id && r.scheduled_for == at)) [
      | inl e ↦ absurd (ground arith)
      | inr e ↦
          ((id_apart r.id b (oks.0).id_drawn, e), new-Apart b job_id at now rs oks.1 (rw e at free))
    ]
  where
    id_apart : (i j : ℕ) → i < j → (i == j) ≡ false
    id_apart i j lt = ground arith

new_run-RunOk : (b job_id at now : ℕ) → RunOk (b + 1) (new_run b job_id at now)
unfolding new_run
new_run-RunOk b job_id at now = ground arith

new_run-IsNew : (b job_id at now : ℕ) → IsNew b (new_run b job_id at now)
unfolding new_run
new_run-IsNew b job_id at now = (refl, refl, omega arith)

-- An UPDATE that keeps a property of the rows that it selects.
All-update :
    (c : Job → Bool) (f : Job → Job) (P : Job → Type 0) (js : List Job)
    → All (λ j. c j ≡ true → P j → P (f j)) js
    → All P js
    → All P (update_where c f js)
All-update c f P [] keep h = tt
All-update c f P (j ∷ js) keep h = elim (Bool-cases (c j)) [
  | inl e ↦ rw e (keep.0 e h.0, All-update c f P js keep.1 h.1)
  | inr e ↦ rw e (h.0, All-update c f P js keep.1 h.1)
]

inserted-Grown :
    {g : Regime} (job_id at now : ℕ) (db : Db)
    → DbOk g db
    → find_first (same_occurrence job_id at) db.runs ≡ none
    → Grown g db (record db {
      runs = db.runs ++ new_run db.next_uuid job_id at now ∷ [];
      next_uuid = db.next_uuid + 1;
    })
inserted-Grown {g} job_id at now db h free =
    let b = db.next_uuid in
    let run = new_run b job_id at now in
    record {
      ok = record {
        runs_ok =
            All-append (RunOk (b + 1)) db.runs (run ∷ [])
              (All-mono (RunOk b) (RunOk (b + 1)) (RunOk-grow b (b + 1) (omega arith)) db.runs
                h.runs_ok)
              (new_run-RunOk b job_id at now, tt);
        unique = rw map-append (
            Unique-append (map key_of db.runs) (key_of run) h.unique
              (new-Apart b job_id at now db.runs h.runs_ok free));
        jobs_ok =
            All-mono (JobOk g b) (JobOk g (b + 1)) (JobOk-grow g b (b + 1) (omega arith)) db.jobs
              h.jobs_ok;
        job_ids = h.job_ids;
      };
      extends =
          Extends-append ◌≡◌ (IsNew b) (λ r. refl) db.runs (run ∷ [])
            (new_run-IsNew b job_id at now, tt);
      drawn_le = omega arith;
    }

insert_run-Grown :
    {g : Regime} (job_id at now : ℕ) (db : Db)
    → DbOk g db
    → Grown g db (insert_run job_id at now db).1
unfolding insert_run
insert_run-Grown job_id at now db h =
    elim (Option-cases (find_first (same_occurrence job_id at) db.runs)) [
      | inl free ↦ rw (free, insert_run) (inserted-Grown job_id at now db h free)
      | inr (r, e) ↦ rw (e, insert_run) (Grown-refl db h)
    ]

-- An UPDATE of the jobs.
pub update_jobs-Grown :
    {g : Regime} (c : Job → Bool) (f : Job → Job) (db : Db)
    → DbOk g db
    → ((j : Job) → (f j).id ≡ j.id)
    → All (λ j. c j ≡ true → JobOk g db.next_uuid j → JobOk g db.next_uuid (f j)) db.jobs
    → Grown g db (record db { jobs = update_where c f db.jobs })
update_jobs-Grown {g} c f db h same keep = record {
  ok = record {
    runs_ok = h.runs_ok;
    unique = h.unique;
    jobs_ok = All-update c f (JobOk g db.next_uuid) db.jobs keep h.jobs_ok;
    job_ids = rw (map-update_where (λ (j : Job). j.id) c f same db.jobs) h.job_ids;
  };
  extends = Extends-refl ◌≡◌ (IsNew db.next_uuid) (λ r. refl) db.runs;
  drawn_le = omega arith;
}

advanced_job-JobOk :
    (g : Regime) (b at now : ℕ) (next : Option ℕ) (j : Job)
    → JobOk g b j
    → JobOk g b (advanced_job at next now j)
unfolding advanced_job
advanced_job-JobOk g b at now none j h = (serial-IsScheduled g _ none refl, h.1)
advanced_job-JobOk g b at now (some t) j h = (serial-IsScheduled g _ (some t) refl, h.1)

advanced_job-id :
    (at : ℕ) (next : Option ℕ) (now : ℕ) (j : Job) → (advanced_job at next now j).id ≡ j.id
unfolding advanced_job
advanced_job-id at next now j = refl

-- What a call that may throw leaves.
abbrev Grows : {A : Type 0} → Regime → Db → Result (A × Db) → Type 0
Grows g db (err e) = Unit
Grows g db (ok (a, db')) = Grown g db db'

Grows-trans :
    {A : Type 0} (g : Regime) (a b : Db) (r : Result (A × Db))
    → Grown g a b
    → Grows g b r
    → Grows g a r
Grows-trans g a b (err e) k h = tt
Grows-trans g a b (ok (x, c)) k h = Grown-trans a b c k h

Grows-bind :
    {A B : Type 0} (g : Regime) (db : Db) (m : Result (A × Db)) (f : A × Db → Result (B × Db))
    → Grows g db m
    → ((x : A × Db) → Grown g db x.1 → Grows g x.1 (f x))
    → Grows g db (m >>= f)
Grows-bind g db (err e) f h k = tt
Grows-bind g db (ok x) f h k = Grows-trans g db x.1 (f x) h (k x h)

module _ {g : Regime} (p : Platform) (now : ℕ) where
  write_occurrence-Grown :
      (job : Job) (at : ℕ) (db : Db) → DbOk g db → Grown g db (write_occurrence p now job at db).1
  unfolding write_occurrence
  write_occurrence-Grown job at db h =
      let t = chosen_occurrence p job at now in
      let next = compute_next_run p job.timing t in
      let inserted = insert_run-Grown job.id t now db h in
      let db' = (insert_run job.id t now db).1 in
      Grown-trans db db' _ inserted (
        update_jobs-Grown (λ j. j.id == job.id) (advanced_job t next now) db' inserted.ok
          (advanced_job-id t next now)
          (All-of _ (λ j e ok'. advanced_job-JobOk g db'.next_uuid t now next j ok') db'.jobs))

  materialize_job-Grows :
      (job : Job) (db : Db) → DbOk g db → Grows g db (materialize_job p now job db)
  unfolding materialize_job
  materialize_job-Grows job db h = elim (Option-cases job.next_run_at) [
    | inl e ↦ rw (e, materialize_job) (Grown-refl db h)
    | inr (t, e) ↦ elim (Bool-cases (schedule_timing_schema p job.timing)) [
      | inl fits ↦ rw (e, fits, materialize_job) (write_occurrence-Grown job t db h)
      | inr unfit ↦ rw (e, unfit, materialize_job) tt
    ]
  ]

  materialize_each-Grows :
      (jobs : List Job) (db : Db) → DbOk g db → Grows g db (materialize_each p now jobs db)
  unfolding materialize_each
  materialize_each-Grows [] db h = Grown-refl db h
  materialize_each-Grows (job ∷ jobs) db h =
      Grows-bind g db (materialize_job p now job db) _ (materialize_job-Grows job db h) (λ x k.
        Grows-bind g x.1 (materialize_each p now jobs x.1) _ (materialize_each-Grows jobs x.1 k.ok)
          (λ y l. Grown-refl y.1 l.ok))

after_rounds :
    {A : Type 0} (g : Regime) (r : Result (A × Db)) (db : Db)
    → DbOk g db
    → Grows g db r
    → Grown g db
        (elim r as (λ _. Result A × Db) [ err e ↦ (err e, db) | ok (a, db') ↦ (ok a, db') ]).1
after_rounds g (err e) db h k = Grown-refl db h
after_rounds g (ok (a, db')) db h k = k

-- Materializing the due jobs inserts runs and changes none, also where it throws.
pub materialize-Grown :
    {g : Regime} (p : Platform) (locked : ℕ → Bool) (limit now : ℕ) (db : Db)
    → DbOk g db
    → Grown g db (materialize_due_scheduled_agent_runs p locked limit now db).1
unfolding materialize_due_scheduled_agent_runs
materialize-Grown {g} p locked limit now db h =
    after_rounds g (materialize_each p now (due_jobs locked limit now db) db) db h
      (materialize_each-Grows p now (due_jobs locked limit now db) db h)

pub materialize-Sound :
    {g : Regime} (p : Platform) (locked : ℕ → Bool) (limit now : ℕ) (db : Db)
    → DbOk g db
    → Sound g db (materialize_due_scheduled_agent_runs p locked limit now db).1
materialize-Sound p locked limit now db h =
    Grown-Sound db _ (materialize-Grown p locked limit now db h)
