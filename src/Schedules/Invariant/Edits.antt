-- ===== src/Schedules/Invariant/Edits.antt =====
-- createScheduledAgentJob and updateScheduledAgentJob keep the tables sound.
use open_instinct.Base.{
  DistinctIds-append, DistinctIds-IsOnlyRow, IsOnlyRow, Extends-refl, ℕ, ◌+◌, ◌≡◌, refl, ap, inl,
  inr, true, false, ◌&&◌, Option, none, some, List, [], ◌∷◌, ◌++◌, map, arith, All, All-mono,
  All-of, All-append, find_first, Option-cases, Bool-cases, ◌==◌, find_first_sound, is_null,
}
use mathlib.Core.List.{map-append}
use open_instinct.Schedules.Platform.{Platform}
use open_instinct.Schedules.Timing.{schedule_timing_schema, compute_next_run, ScheduleTiming}
use open_instinct.Schedules.Rows.{Job, Db, is_active}
use open_instinct.Schedules.Records.{
  AccessScope, Conversation, CreateScheduledAgentJob, UpdateScheduledAgentJob,
}
use open_instinct.Schedules.Jobs.{
  new_job, create_scheduled_agent_job, is_visible, patched_status, patched_next_run, patched_job,
  write_update, apply_update, update_scheduled_agent_job,
}
use open_instinct.Schedules.Lifecycle.{RunOk, RunOk-grow, Moves, Moves-refl, IsNew}
use open_instinct.Schedules.Invariant.{
  Regime, IsScheduled, serial, overlapping, serial-IsScheduled, JobOk, DbOk, Sound,
}
use open_instinct.Schedules.Invariant.Calls.{JobOk-grow, Sound-refl}
use open_instinct.Schedules.Invariant.Materialize.{Grown-Sound, update_jobs-Grown}

ids_below :
    (g : Regime) (b : ℕ) (js : List Job)
    → All (JobOk g b) js
    → All (λ i. (i == b) ≡ false) (map (λ (j : Job). j.id) js)
ids_below g b [] h = tt
ids_below g b (j ∷ js) h = (ground (arith, (h.0).1), ids_below g b js h.1)

new_job-JobOk :
    (g : Regime) (b : ℕ) (scope : AccessScope) (input : CreateScheduledAgentJob) (at now : ℕ)
    → JobOk g (b + 1) (new_job b scope input at now)
unfolding new_job
new_job-JobOk g b scope input at now = (serial-IsScheduled g _ _ refl, omega arith)

new_job-id :
    (b : ℕ) (scope : AccessScope) (input : CreateScheduledAgentJob) (at now : ℕ)
    → (new_job b scope input at now).id ≡ b
unfolding new_job
new_job-id b scope input at now = refl

inserted_job-Sound :
    {g : Regime} (scope : AccessScope) (input : CreateScheduledAgentJob) (at now : ℕ) (db : Db)
    → DbOk g db
    → Sound g db (record db {
      jobs = db.jobs ++ new_job db.next_uuid scope input at now ∷ [];
      next_uuid = db.next_uuid + 1;
    })
inserted_job-Sound {g} scope input at now db h =
    let b = db.next_uuid in
    record {
      ok = record {
        runs_ok =
            All-mono (RunOk b) (RunOk (b + 1)) (RunOk-grow b (b + 1) (omega arith)) db.runs
              h.runs_ok;
        unique = h.unique;
        jobs_ok =
            All-append (JobOk g (b + 1)) db.jobs _
              (All-mono (JobOk g b) (JobOk g (b + 1)) (JobOk-grow g b (b + 1) (omega arith)) db.jobs
                h.jobs_ok)
              (new_job-JobOk g b scope input at now, tt);
        job_ids =
            rw (map-append, new_job-id)
              (DistinctIds-append _ b h.job_ids (ids_below g b db.jobs h.jobs_ok));
      };
      extends = Extends-refl (Moves b) (IsNew b) (Moves-refl b) db.runs;
      drawn_le = omega arith;
    }

pub create_job-Sound :
    {g : Regime} (p : Platform) (scope : AccessScope) (input : CreateScheduledAgentJob) (now : ℕ)
    (db : Db)
    → DbOk g db
    → Sound g db (create_scheduled_agent_job p scope input now db).1
unfolding create_scheduled_agent_job
create_job-Sound p scope input now db h =
    elim (Option-cases (compute_next_run p input.timing now)) [
      | inl e ↦ rw (e, create_scheduled_agent_job) (Sound-refl db h)
      | inr (at, e) ↦
          rw (e, create_scheduled_agent_job) (inserted_job-Sound scope input at now db h)
    ]

-- `k` is the only job with its id.
abbrev IsOnlyJob : List Job → Job → Type 0
IsOnlyJob js k = IsOnlyRow (λ (j : Job). j.id) js k

-- The job that an update has read: a row of the table, or of what the table once was.
abbrev IsRead : Regime → List Job → Job → Type 0
IsRead serial js k = IsOnlyJob js k
IsRead overlapping js k = Unit

IsOnlyJob-IsRead : (g : Regime) (js : List Job) (k : Job) → IsOnlyJob js k → IsRead g js k
IsOnlyJob-IsRead serial js k only = only
IsOnlyJob-IsRead overlapping js k only = tt

module _ (g : Regime) (p : Platform) (patch : UpdateScheduledAgentJob) (timing : ScheduleTiming)
    (now : ℕ) where
  -- The guard that throws is what keeps an active job with a next occurrence.
  patched_next_run-guarded :
      (current : Job)
      → (is_active (patched_status patch.status current.status)
          && is_null (patched_next_run p current patch timing now))
        ≡ false
      → is_active (patched_status patch.status current.status)
        ≡ (elim (patched_next_run p current patch timing now) [ none ↦ false | some _ ↦ true ])
  unfolding patched_next_run
  patched_next_run-guarded current e = ground arith

  patched-IsScheduled :
      (current : Job) (next : Option ℕ) (js : List Job)
      → IsRead g js current
      → IsScheduled serial (patched_status patch.status current.status) next
      → All
          (λ j.
            (j.id == current.id) ≡ true → IsScheduled g (patched_status patch.status j.status) next)
          js
  patched-IsScheduled current next js read e = reads g read
    where
      reads :
          (r : Regime)
          → IsRead r js current
          → All
              (λ j.
                (j.id == current.id) ≡ true
                → IsScheduled r (patched_status patch.status j.status) next)
              js
      reads serial only =
          All-mono (λ j. (j.id == current.id) ≡ true → j ≡ current) _
            (λ j o t. rw (ap (λ (x : Job). x.status) (o t)) e) js only
      reads overlapping only = All-of _ (λ j t. tt) js

  patched_job-JobOk :
      (b : ℕ) (next : Option ℕ) (j : Job)
      → JobOk g b j
      → IsScheduled g (patched_status patch.status j.status) next
      → JobOk g b (patched_job patch timing next now j)
  unfolding patched_job
  patched_job-JobOk b next j h e = (e, h.1)

  patched_job-id : (next : Option ℕ) (j : Job) → (patched_job patch timing next now j).id ≡ j.id
  unfolding patched_job
  patched_job-id next j = refl

  write_update-Sound :
      (current : Job) (db : Db)
      → DbOk g db
      → IsRead g db.jobs current
      → Sound g db (write_update p current patch timing now db).1
  unfolding write_update
  write_update-Sound current db h read =
      let next = patched_next_run p current patch timing now in
      elim (Bool-cases (is_active (patched_status patch.status current.status) && is_null next)) [
        | inl throws ↦ rw (throws, write_update) (Sound-refl db h)
        | inr goes ↦
            rw (goes, write_update)
              (Grown-Sound db _ (
                update_jobs-Grown (λ j. j.id == current.id) (patched_job patch timing next now) db h
                  (patched_job-id next)
                  (All-mono _ _ (λ j fits t ok'. patched_job-JobOk db.next_uuid next j ok' (fits t))
                    db.jobs
                    (patched-IsScheduled current next db.jobs read
                      (patched_next_run-guarded current goes)))))
      ]

-- The write of an update, whatever its read has found where the calls overlap.
pub apply_update-Sound :
    {g : Regime} (p : Platform) (patch : UpdateScheduledAgentJob) (now : ℕ) (db : Db)
    (current : Job)
    → DbOk g db
    → IsRead g db.jobs current
    → Sound g db (apply_update p current patch now db).1
unfolding apply_update
apply_update-Sound {g} p patch now db current h read = elim (Option-cases patch.timing) [
  | inr (timing, e) ↦
      rw (e, apply_update) (write_update-Sound g p patch timing now current db h read)
  | inl e ↦ elim (Bool-cases (schedule_timing_schema p current.timing)) [
    | inl fits ↦
        rw (e, fits, apply_update)
          (write_update-Sound g p patch current.timing now current db h read)
    | inr unfit ↦ rw (e, unfit, apply_update) (Sound-refl db h)
  ]
]

module _ {g : Regime} (p : Platform) (scope : AccessScope) (conversation : Conversation) (id : ℕ)
    (patch : UpdateScheduledAgentJob) (now : ℕ) (db : Db) (h : DbOk g db) where
  pub update_job-Sound :
      Sound g db (update_scheduled_agent_job p scope conversation id patch now db).1
  unfolding update_scheduled_agent_job
  update_job-Sound =
      elim (Option-cases
        (find_first (λ j. j.id == id && is_visible scope conversation j) db.jobs)) [
          | inl e ↦ rw (e, update_scheduled_agent_job) (Sound-refl db h)
          | inr (current, e) ↦
              rw (e, update_scheduled_agent_job)
                (apply_update-Sound p patch now db current h (
                  IsOnlyJob-IsRead g db.jobs current
                    (find_first_sound (IsOnlyJob db.jobs)
                      (λ j. j.id == id && is_visible scope conversation j) db.jobs current
                      (DistinctIds-IsOnlyRow (λ (j : Job). j.id) db.jobs h.job_ids) e).0))
        ]
