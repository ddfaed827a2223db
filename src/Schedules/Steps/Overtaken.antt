-- ===== src/Schedules/Steps/Overtaken.antt =====
-- What an update of a job does that other calls overtake between its read and its write.
use open_instinct.Base.{
  ℕ, ◌≡◌, refl, sym, ap, inl, inr, Bool, true, false, some, none, List, [], ◌∷◌, Text, Memᴰ,
  update_where, Bool-cases, ◌==◌, ==_refl,
}
use open_instinct.Schedules.Platform.{Platform}
use open_instinct.Schedules.Timing.{schedule_timing_schema}
use open_instinct.Schedules.Rows.{Job, Db, is_active}
use open_instinct.Schedules.Records.{UpdateScheduledAgentJob}
use open_instinct.Schedules.Jobs.{
  patched_status, is_resume, patched_next_run, patched_job, write_update, apply_update,
}

Memᴰ-update_where :
    {A : Type 0} (c : A → Bool) (f : A → A) {x : A} {xs : List A}
    → Memᴰ x xs
    → c x ≡ true
    → Memᴰ (f x) (update_where c f xs)
Memᴰ-update_where c f {xs = []} m e = elim m [ ]
Memᴰ-update_where c f {xs = y ∷ ys} (Memᴰ.head same) e =
    rw (ap c (sym same), e) (Memᴰ.head (ap f same))
Memᴰ-update_where c f {xs = y ∷ ys} (Memᴰ.tail m) e = elim (Bool-cases (c y)) [
  | inl t ↦ rw t (Memᴰ.tail (Memᴰ-update_where c f m e))
  | inr t ↦ rw t (Memᴰ.tail (Memᴰ-update_where c f m e))
]

-- A patch of the prompt alone.
abbrev pub prompt_patch : Text → UpdateScheduledAgentJob
prompt_patch prompt = record { prompt = some prompt; status = none; timing = none }

-- An update of the prompt alone that has read a job, while it was active and due at `at` and with a
-- timing that the schema admits, writes `at` back as the next occurrence of the job: where the table
-- has the job by then under a status that is not active, it stays inactive with a next occurrence.
pub overtaken_update-next_run :
    (p : Platform) (current job : Job) (prompt : Text) (now at : ℕ) (db : Db)
    → is_active current.status ≡ true
    → current.next_run_at ≡ some at
    → schedule_timing_schema p current.timing ≡ true
    → Memᴰ job db.jobs
    → job.id ≡ current.id
    → is_active job.status ≡ false
    → (written : Job) × Memᴰ written (apply_update p current (prompt_patch prompt) now db).1.jobs
      × (written.id ≡ job.id)
      × (is_active written.status ≡ false)
      × (written.next_run_at ≡ some at)
unfolding apply_update write_update patched_status is_resume patched_next_run patched_job
overtaken_update-next_run p current job prompt now at db active due fits m same idle =
    let patch = prompt_patch prompt in
    rw (fits, active, due)
      (
        patched_job patch current.timing (some at) now job,
        Memᴰ-update_where (λ j. j.id == current.id) (patched_job patch current.timing (some at) now)
            m (rw (same, ==_refl current.id)),
        refl,
        idle,
        refl,
      )
