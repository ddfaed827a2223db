-- ===== src/Schedules/Invariant.antt =====
-- The invariant of the tables, and what each call of the store may do to them.
pub mod Unique
pub mod Calls
pub mod Claims
pub mod Materialize
pub mod Edits
use open_instinct.Base.{
  DistinctIds, Extends, ℕ, ◌+◌, ◌≤◌, ◌<◌, ◌≡◌, refl, Bool, true, false, Option, none, some, List,
  [], ◌∷◌, map, arith, is_null, ◌==◌, ◌&&◌, All,
}
use open_instinct.Schedules.Rows.{Job, Run, Db, JobStatus, is_active}
use open_instinct.Schedules.Lifecycle.{RunOk, Moves, IsNew}

-- What identifies a run: its id, and its job with its instant.
pub record Key : Type 0 where
  pub id : ℕ
  pub job_id : ℕ
  pub scheduled_for : ℕ

abbrev pub key_of : Run → Key
key_of r = record { id = r.id; job_id = r.job_id; scheduled_for = r.scheduled_for }

-- The primary key and the unique index on (job_id, scheduled_for).
abbrev pub Apart : Key → Key → Type 0
Apart k l =
    ((k.id == l.id) ≡ false)
    × ((k.job_id == l.job_id && k.scheduled_for == l.scheduled_for) ≡ false)

abbrev pub Unique : List Key → Type 0
Unique [] = Unit
Unique (k ∷ ks) = All (Apart k) ks × Unique ks

-- Whether the calls run one after the other, or an update of a job may write what it has read
-- before other calls.
pub data Regime : Type 0 where
  serial : Regime
  overlapping : Regime

-- Exactly the active jobs have a next occurrence, where no call runs between the read and the write
-- of an update.
abbrev pub IsScheduled : Regime → JobStatus → Option ℕ → Type 0
IsScheduled serial status next_run_at =
    is_active status ≡ (elim next_run_at [ none ↦ false | some _ ↦ true ])
IsScheduled overlapping status next_run_at = Unit

pub serial-IsScheduled :
    (g : Regime) (status : JobStatus) (next_run_at : Option ℕ)
    → IsScheduled serial status next_run_at
    → IsScheduled g status next_run_at
serial-IsScheduled serial status next_run_at e = e
serial-IsScheduled overlapping status next_run_at e = tt

abbrev pub JobOk : Regime → ℕ → Job → Type 0
JobOk g bound j = IsScheduled g j.status j.next_run_at × (j.id < bound)

pub record DbOk (g : Regime) (db : Db) : Type 0 where
  pub runs_ok : All (RunOk db.next_uuid) db.runs
  pub unique : Unique (map key_of db.runs)
  pub jobs_ok : All (JobOk g db.next_uuid) db.jobs
  pub job_ids : DistinctIds (map (λ (j : Job). j.id) db.jobs)

-- A call: the tables stay sound, each run makes a move of its state machine and none is lost, and
-- what has been drawn stays drawn.
pub record Sound (g : Regime) (db db' : Db) : Type 0 where
  pub ok : DbOk g db'
  pub extends : Extends (Moves db.next_uuid) (IsNew db.next_uuid) db.runs db'.runs
  pub drawn_le : db.next_uuid ≤ db'.next_uuid
