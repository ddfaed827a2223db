-- ===== src/Schedules/Timing/Intervals.antt =====
-- The interval schedules: which occurrence computeNextRun and computeLatestRun find.
use native.Mathlib.Nat.{div-add-mod, mod-lt}
use open_instinct.Base.{
  ℕ, ◌+◌, ◌-◌, ◌*◌, ◌/◌, ◌≤◌, ◌<◌, ◌≡◌, ap, inl, inr, some, Text, arith, Bool-cases, ltb,
}
use open_instinct.Schedules.Platform.{Platform}
use open_instinct.Schedules.Timing.{interval, compute_next_run, compute_latest_run}

-- A number lies in the part of its quotient.
div_bounds : (x d : ℕ) → 1 ≤ d → (x / d * d ≤ x) × (x < (x / d + 1) * d)
div_bounds x d h =
    (grind (arith, div-add-mod x d), grind (arith, div-add-mod x d, mod-lt x {m = d} h))

-- No earlier part reaches above it.
div_least : (x d j : ℕ) → 1 ≤ d → x < j * d → x / d + 1 ≤ j
div_least x d j h lt = grind (arith, div_bounds x d)

-- The quotient is determined by its part.
div_unique : (x d q : ℕ) → 1 ≤ d → q * d ≤ x → x < (q + 1) * d → x / d ≡ q
div_unique x d q h lo hi = grind (arith, div_bounds x d)

div_greatest : (x d j : ℕ) → 1 ≤ d → j * d ≤ x → j ≤ x / d
div_greatest x d j h le = grind (arith, div_bounds x d)

module _ (p : Platform) (anchored_at : Text) (every_minutes : ℕ)
    (positive : 1 ≤ every_minutes) where
  -- The instant of an occurrence, the anchor being that of number 0.
  abbrev pub occurrence : ℕ → ℕ
  occurrence k = p.date_parse anchored_at + k * (every_minutes * 60000)

  pub next_run-IsLeast :
      (after : ℕ)
      → (k : ℕ) × (compute_next_run p (interval anchored_at every_minutes) after
          ≡ some (occurrence k))
        × (after < occurrence k)
        × ((j : ℕ) → after < occurrence j → k ≤ j)
  unfolding compute_next_run
  next_run-IsLeast after =
      let anchor = p.date_parse anchored_at in
      let step = every_minutes * 60000 in
      elim (Bool-cases (ltb after anchor)) [
        | inl early ↦ (0, rw early (ap some (omega arith)), ground arith, λ j h. omega arith)
        | inr late ↦ (
          (after - anchor) / step + 1,
          rw late,
          grind (arith, div_bounds (after - anchor) step (omega arith)),
          λ j h. div_least (after - anchor) step j (omega arith) (ground arith),
        )
      ]

  latest_run-IsGreatest :
      (now : ℕ)
      → p.date_parse anchored_at ≤ now
      → (k : ℕ) × (compute_latest_run p (interval anchored_at every_minutes) now
          ≡ some (occurrence k))
        × (occurrence k ≤ now)
        × ((j : ℕ) → occurrence j ≤ now → j ≤ k)
  unfolding compute_latest_run
  latest_run-IsGreatest now started =
      let anchor = p.date_parse anchored_at in
      let step = every_minutes * 60000 in
      (
        (now - anchor) / step,
        ground arith,
        grind (arith, div_bounds (now - anchor) step (omega arith)),
        λ j h. div_greatest (now - anchor) step j (omega arith) (omega arith),
      )

  -- For an interval schedule whose everyMinutes is at least 1, and where some occurrence of it lies
  -- after an instant, computeNextRun returns an occurrence after the instant, and none that does
  -- comes before it.
  pub next_run-least :
      (after j : ℕ)
      → after < occurrence j
      → (k : ℕ) × (compute_next_run p (interval anchored_at every_minutes) after
          ≡ some (occurrence k))
        × (after < occurrence k)
        × (k ≤ j)
  next_run-least after j lt =
      let (k, found, later, least) = next_run-IsLeast after in (k, found, later, least j lt)

  -- For an interval schedule whose everyMinutes is at least 1, and where some occurrence of it has
  -- elapsed, computeLatestRun returns one that has, and none that has comes after it.
  pub latest_run-greatest :
      (now j : ℕ)
      → occurrence j ≤ now
      → (k : ℕ) × (compute_latest_run p (interval anchored_at every_minutes) now
          ≡ some (occurrence k))
        × (occurrence k ≤ now)
        × (j ≤ k)
  latest_run-greatest now j le =
      let (k, found, elapsed, greatest) = latest_run-IsGreatest now (omega arith) in
      (k, found, elapsed, greatest j le)

  -- The latest occurrence that has elapsed has the same next occurrence as the present instant.
  pub next_run-latest_run :
      (now l : ℕ)
      → compute_latest_run p (interval anchored_at every_minutes) now ≡ some l
      → compute_next_run p (interval anchored_at every_minutes) l
        ≡ compute_next_run p (interval anchored_at every_minutes) now
  unfolding compute_latest_run compute_next_run
  next_run-latest_run now l h =
      let anchor = p.date_parse anchored_at in
      let step = every_minutes * 60000 in
      let q = (now - anchor) / step in
      let same : (q * step) / step ≡ q =
        div_unique (q * step) step q (omega arith) (omega arith) (omega arith) in
      ground (arith, same)
