-- ===== src/Schedules/Lifecycle.antt =====
-- The life of a run: what holds of each row of scheduled_agent_runs, and what one call of the
-- store may do to it.
pub mod Changes
use open_instinct.Base.{
  IsDrawn, IsDrawn-grow, TokenFollows, TokenFollows-refl, TokenFollows-trans, Extends, ℕ, ◌+◌, ◌≤◌,
  ◌<◌, ◌≡◌, refl, ap, ◌∙◌, ◌⊎◌, inl, inr, Bool, true, false, ◌||◌, Option, none, some, List, [],
  ◌∷◌, ◌++◌, arith, is_null, All, All-mono, update_where, if◌then◌else◌, Bool-cases,
}
use mathlib.Core.Path.{subst}
use open_instinct.Schedules.Outcome.{ScheduledRunOutcome}
use open_instinct.Schedules.Rows.{
  Run, RunStatus, running, waiting_for_input, dead_letter, is_finished,
}

-- A run has at most three attempts, an attempt is left to a queued run, and exactly the running
-- and the waiting runs have a lease token. A finished run has an outcome.
abbrev pub StatusOk : RunStatus → ℕ → Option ℕ → Option ℕ → Option ScheduledRunOutcome → Type 0
StatusOk RunStatus.queued attempts token expires outcome =
    (attempts ≤ 2) × (token ≡ none) × (expires ≡ none)
StatusOk running attempts token expires outcome =
    (1 ≤ attempts) × (attempts ≤ 3) × (is_null token ≡ false)
StatusOk waiting_for_input attempts token expires outcome =
    (1 ≤ attempts) × (attempts ≤ 3) × (is_null token ≡ false) × (expires ≡ none)
StatusOk RunStatus.completed attempts token expires outcome =
    (attempts ≤ 3) × (token ≡ none) × (expires ≡ none) × (is_null outcome ≡ false)
StatusOk dead_letter attempts token expires outcome =
    (attempts ≤ 3) × (token ≡ none) × (expires ≡ none) × (is_null outcome ≡ false)

pub record RunOk (bound : ℕ) (r : Run) : Type 0 where
  pub status_ok : StatusOk r.status r.attempts r.lease_token r.lease_expires_at r.outcome
  pub drawn : IsDrawn bound r.lease_token
  pub id_drawn : r.id < bound

pub RunOk-grow : (b b' : ℕ) → b ≤ b' → (r : Run) → RunOk b r → RunOk b' r
RunOk-grow b b' le r h = record {
  status_ok = h.status_ok;
  drawn = IsDrawn-grow b b' r.lease_token le h.drawn;
  id_drawn = omega arith;
}

-- The edges of the state machine.
abbrev pub may_follow : RunStatus → RunStatus → Bool
may_follow RunStatus.queued RunStatus.queued = true
may_follow RunStatus.queued running = true
may_follow running s = true
may_follow waiting_for_input waiting_for_input = true
may_follow waiting_for_input running = true
may_follow waiting_for_input RunStatus.queued = true
may_follow waiting_for_input dead_letter = true
may_follow RunStatus.completed RunStatus.completed = true
may_follow dead_letter dead_letter = true
may_follow _ _ = false

-- What no call changes of a finished run.
abbrev pub Settled : Bool → Run → Run → Type 0
Settled false r s = Unit
Settled true r s =
    (s.status ≡ r.status)
    × (s.outcome ≡ r.outcome)
    × (s.attempts ≡ r.attempts)
    × (s.completed_at ≡ r.completed_at)
    × (s.report_sequence ≡ r.report_sequence)
    × (s.worker_session_id ≡ r.worker_session_id)

pub record Evolves (bound : ℕ) (r s : Run) : Type 0 where
  pub same_id : s.id ≡ r.id
  pub same_job : s.job_id ≡ r.job_id
  pub same_instant : s.scheduled_for ≡ r.scheduled_for
  pub attempts_le : r.attempts ≤ s.attempts
  pub sequence_le : r.report_sequence ≤ s.report_sequence
  pub token : TokenFollows bound r.lease_token s.lease_token
  pub settled : Settled (is_finished r.status) r s

abbrev IsFresh : ℕ → Option ℕ → Type 0
IsFresh bound none = ⊥
IsFresh bound (some token) = bound ≤ token

-- Only a call that draws a lease token changes the attempts.
abbrev pub IsSteady : ℕ → Run → Run → Type 0
IsSteady bound r s = (s.attempts ≡ r.attempts) ⊎ IsFresh bound s.lease_token

-- What one call does to a row: an edge of the state machine, or nothing.
abbrev pub Moves : ℕ → Run → Run → Type 0
Moves bound r s = ((may_follow r.status s.status ≡ true) × IsSteady bound r s) × Evolves bound r s

may_follow_refl : (s : RunStatus) → may_follow s s ≡ true
may_follow_refl RunStatus.queued = refl
may_follow_refl _ = refl

Settled-refl : (b : Bool) (r : Run) → Settled b r r
Settled-refl false r = tt
Settled-refl true r = (refl, refl, refl, refl, refl, refl)

pub Evolves-refl : (bound : ℕ) (r : Run) → Evolves bound r r
Evolves-refl bound r = record {
  same_id = refl;
  same_job = refl;
  same_instant = refl;
  attempts_le = omega arith;
  sequence_le = omega arith;
  token = TokenFollows-refl bound r.lease_token;
  settled = Settled-refl (is_finished r.status) r;
}

pub Moves-refl : (bound : ℕ) (r : Run) → Moves bound r r
Moves-refl bound r = ((may_follow_refl r.status, inl refl), Evolves-refl bound r)

Settled-trans :
    (f : Bool) (q r s : Run)
    → is_finished q.status ≡ f
    → Settled f q r
    → Settled (is_finished r.status) r s
    → Settled f q s
Settled-trans false q r s e h k = tt
Settled-trans true q r s e h k =
    let (a, b, c, d, g, w) = h in
    let same : is_finished r.status ≡ true = ap is_finished a ∙ e in
    let (a', b', c', d', g', w') = subst (λ x. Settled x r s) same k in
    (a' ∙ a, b' ∙ b, c' ∙ c, d' ∙ d, g' ∙ g, w' ∙ w)

pub Evolves-trans : (b c : ℕ) (q r s : Run) → b ≤ c → Evolves b q r → Evolves c r s → Evolves b q s
Evolves-trans b c q r s le h k = record {
  same_id = k.same_id ∙ h.same_id;
  same_job = k.same_job ∙ h.same_job;
  same_instant = k.same_instant ∙ h.same_instant;
  attempts_le = omega arith;
  sequence_le = omega arith;
  token = TokenFollows-trans b c q.lease_token r.lease_token s.lease_token le h.token k.token;
  settled = Settled-trans (is_finished q.status) q r s refl h.settled k.settled;
}

-- A row that a call has inserted.
abbrev pub IsNew : ℕ → Run → Type 0
IsNew bound r = (r.status ≡ RunStatus.queued) × (r.lease_token ≡ none) × (bound ≤ r.id)

-- What a change has to keep of a row.
abbrev pub Keeps : ℕ → ℕ → Run → Run → Type 0
Keeps b b' r s = RunOk b' s × Moves b r s

-- An UPDATE that keeps each row that it selects.
pub update_where-Keeps :
    (b b' : ℕ) (c : Run → Bool) (f : Run → Run)
    → b ≤ b'
    → (rs : List Run) → All (λ r. c r ≡ true → RunOk b r → Keeps b b' r (f r)) rs
    → All (RunOk b) rs
    → All (RunOk b') (update_where c f rs) × Extends (Moves b) (IsNew b) rs (update_where c f rs)
update_where-Keeps b b' c f le [] keep h = (tt, tt)
update_where-Keeps b b' c f le (r ∷ rs) keep h =
    let (oks, moves) = update_where-Keeps b b' c f le rs keep.1 h.1 in
    elim (Bool-cases (c r)) [
      | inl e ↦ rw e (let (ok, move) = keep.0 e h.0 in ((ok, oks), (move, moves)))
      | inr e ↦ rw e ((RunOk-grow b b' le r h.0, oks), (Moves-refl b r, moves))
    ]
