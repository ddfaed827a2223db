-- ===== src/Schedules/Steps/Overlap.antt =====
-- Calls of the store that overlap. Every call writes in one statement or one transaction, and so at
-- once; but updateScheduledAgentJob and releaseScheduledAgentRun first read a row in a statement of
-- its own, and write on the strength of it, whatever the other calls have done in between.
use open_instinct.Base.{
  All-Extends, Extends, Extends-refl, Extends-trans, ℕ, ◌≤◌, ◌<◌, ◌≡◌, true, some, List, ◌∷◌, Text,
  Memᴰ, arith, All, All-mono, All-at, find_first, find_first_sound, ◌==◌, ◌&&◌,
}
use open_instinct.Schedules.Platform.{Platform}
use open_instinct.Schedules.Rows.{Job, Run, Db}
use open_instinct.Schedules.Records.{AccessScope, Conversation, UpdateScheduledAgentJob}
use open_instinct.Schedules.Jobs.{is_visible, apply_update}
use open_instinct.Schedules.Worker.{has_token, still_holds, write_release}
use open_instinct.Schedules.Lifecycle.{RunOk, Evolves, Evolves-refl, Evolves-trans, Moves, IsNew}
use open_instinct.Schedules.Invariant.{overlapping, DbOk, Sound}
use open_instinct.Schedules.Invariant.Unique.{IsOnly, Unique-IsOnly}
use open_instinct.Schedules.Invariant.Calls.{only_row-attempts, write_release-Sound, Sound-refl}
use open_instinct.Schedules.Invariant.Edits.{apply_update-Sound}
use open_instinct.Schedules.Steps.{Step, Step-Sound}

-- The tables, and what the calls in flight have read: jobs that are to be updated, and runs that are
-- to be released with the token of the call.
pub record System : Type 0 where
  pub db : Db
  pub job_reads : List Job
  pub run_reads : List (Run × ℕ)

-- A whole call, or the read or the write of one that does both apart. What was read may be old by
-- the time of the write.
pub data Turn (p : Platform) (s : System) : System → Type 0 where
  calls : {db' : Db} → Step p s.db db' → Turn p s (record s { db = db' })
  reads_job :
      (scope : AccessScope) (conversation : Conversation) (id : ℕ) (current : Job)
      → find_first (λ j. j.id == id && is_visible scope conversation j) s.db.jobs ≡ some current
      → Turn p s (record s { job_reads = current ∷ s.job_reads })
  writes_job :
      (current : Job) (patch : UpdateScheduledAgentJob) (now : ℕ)
      → Memᴰ current s.job_reads
      → Turn p s (record s { db = (apply_update p current patch now s.db).1 })
  reads_run :
      (run_id token : ℕ) (found : Run)
      → find_first (has_token run_id token) s.db.runs ≡ some found
      → Turn p s (record s { run_reads = (found, token) ∷ s.run_reads })
  writes_run :
      (found : Run) (token : ℕ) (message : Text) (now : ℕ)
      → Memᴰ (found, token) s.run_reads
      → Turn p s (record s { db = (write_release found token message now s.db).1 })

pub data Reach (p : Platform) (s : System) : System → Type 0 where
  here : Reach p s s
  next : {t u : System} → Reach p s t → Turn p t u → Reach p s u

-- A run that was read under a token has the attempts that were read as long as it holds the token.
abbrev pub ReadOk : Db → Run × ℕ → Type 0
ReadOk db x =
    (x.1 < db.next_uuid)
    × All (λ r. still_holds x.0 x.1 r ≡ true → x.0.attempts ≡ r.attempts) db.runs

pub record SystemOk (s : System) : Type 0 where
  pub ok : DbOk overlapping s.db
  pub reads_ok : All (ReadOk s.db) s.run_reads

moved-attempts :
    (b token : ℕ) (found r s : Run)
    → token < b
    → Moves b r s
    → (still_holds found token r ≡ true → found.attempts ≡ r.attempts)
    → still_holds found token s ≡ true
    → found.attempts ≡ s.attempts
unfolding still_holds
moved-attempts b token found r s drawn m h = ground arith

new-attempts :
    (b token : ℕ) (found s : Run)
    → IsNew b s
    → still_holds found token s ≡ true
    → found.attempts ≡ s.attempts
unfolding still_holds
new-attempts b token found s n = ground arith

Sound-ReadOk : (db db' : Db) → Sound overlapping db db' → (x : Run × ℕ) → ReadOk db x → ReadOk db' x
Sound-ReadOk db db' sound (found, token) h = (
  omega (arith, h.0, sound.drawn_le),
  All-Extends (Moves db.next_uuid) (IsNew db.next_uuid) _ _
      (λ r s. moved-attempts db.next_uuid token found r s h.0)
      (new-attempts db.next_uuid token found) db.runs db'.runs sound.extends h.1,
)

token-drawn :
    (b run_id token : ℕ) (r : Run) → RunOk b r → has_token run_id token r ≡ true → token < b
unfolding has_token
token-drawn b run_id token r h e = ground arith

-- The tables after a turn, and after a sequence of turns.
pub record Turned (s s' : System) : Type 0 where
  pub ok : SystemOk s'
  pub extends : Extends (Moves s.db.next_uuid) (IsNew s.db.next_uuid) s.db.runs s'.db.runs
  pub drawn_le : s.db.next_uuid ≤ s'.db.next_uuid

Sound-Turned :
    (s : System) (db' : Db)
    → SystemOk s
    → Sound overlapping s.db db'
    → Turned s (record s { db = db' })
Sound-Turned s db' h sound = record {
  ok = record {
    ok = sound.ok;
    reads_ok = All-mono _ _ (Sound-ReadOk s.db db' sound) s.run_reads h.reads_ok;
  };
  extends = sound.extends;
  drawn_le = sound.drawn_le;
}

pub Turn-Turned : (p : Platform) {s s' : System} → SystemOk s → Turn p s s' → Turned s s'
Turn-Turned p {s} h (calls step) = Sound-Turned s _ h (Step-Sound p h.ok step)
Turn-Turned p {s} h (reads_job scope conversation id current e) = record {
  ok = record { ok = h.ok; reads_ok = h.reads_ok };
  extends = (Sound-refl s.db h.ok).extends;
  drawn_le = omega arith;
}
Turn-Turned p {s} h (writes_job current patch now m) =
    Sound-Turned s _ h (apply_update-Sound p patch now s.db current h.ok tt)
Turn-Turned p {s} h (reads_run run_id token found e) = record {
  ok = record {
    ok = h.ok;
    reads_ok = (
      (
        (let (sound, holds) =
              find_first_sound (RunOk s.db.next_uuid) (has_token run_id token) s.db.runs found
                h.ok.runs_ok e in
            token-drawn s.db.next_uuid run_id token found sound holds),
        only_row-attempts found token s.db.runs
            (find_first_sound (IsOnly s.db.runs) (has_token run_id token) s.db.runs found
              (Unique-IsOnly s.db.runs h.ok.unique) e).0,
      ),
      h.reads_ok,
    );
  };
  extends = (Sound-refl s.db h.ok).extends;
  drawn_le = omega arith;
}
Turn-Turned p {s} h (writes_run found token message now m) =
    Sound-Turned s _ h
      (write_release-Sound s.db h.ok found token message now (All-at (ReadOk s.db) m h.reads_ok).1)

pub record Later (s s' : System) : Type 0 where
  pub ok : SystemOk s'
  pub extends : Extends (Evolves s.db.next_uuid) (λ r. s.db.next_uuid ≤ r.id) s.db.runs s'.db.runs
  pub drawn_le : s.db.next_uuid ≤ s'.db.next_uuid

Later-Turned : (a b c : System) → Later a b → Turned b c → Later a c
Later-Turned a b c l t = record {
  ok = t.ok;
  extends =
      Extends-trans (Evolves first) (Moves second) (Evolves first) (λ r. first ≤ r.id)
        (IsNew second) (λ q r u e m. Evolves-trans first second q r u l.drawn_le e m.1)
        (λ r u le m. moved_id r u le m.1) (λ r n. new_id r n) a.db.runs b.db.runs c.db.runs
        l.extends t.extends;
  drawn_le = omega (arith, l.drawn_le, t.drawn_le);
}
  where
    first : ℕ
    first = a.db.next_uuid

    second : ℕ
    second = b.db.next_uuid

    moved_id :
        (r u : Run) → a.db.next_uuid ≤ r.id → Evolves b.db.next_uuid r u → a.db.next_uuid ≤ u.id
    moved_id r u le e = omega arith

    new_id : (r : Run) → IsNew b.db.next_uuid r → a.db.next_uuid ≤ r.id
    new_id r n = omega (arith, l.drawn_le, n.2)

-- After any sequence of calls on sound tables, with reads in flight that fit them, where an update
-- of a job and a release may write on the strength of a row that they read before other calls: the
-- invariant holds, but for the active jobs being those with a next occurrence; each run of before
-- stands at its place with its id, job and instant, with no fewer attempts and reports, with its
-- result if it was finished, and with no lease token that was drawn before and that it did not
-- hold; the rows behind them are new.
pub Reach-Later : (p : Platform) {s s' : System} → SystemOk s → Reach p s s' → Later s s'
Reach-Later p {s} h here = record {
  ok = h;
  extends =
      Extends-refl (Evolves s.db.next_uuid) (λ r. s.db.next_uuid ≤ r.id)
        (Evolves-refl s.db.next_uuid) s.db.runs;
  drawn_le = omega arith;
}
Reach-Later p {s} h (next {t} {u} r turn) =
    let l = Reach-Later p h r in Later-Turned s t u l (Turn-Turned p l.ok turn)
