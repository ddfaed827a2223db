-- ===== src/Quotas/Limits.antt =====
-- What reservations keep of the counters, and the order of the plans' limits.
use open_instinct.Base.{
  ℕ, ◌+◌, ◌-◌, ◌≤◌, ◌<◌, ◌≡◌, inl, inr, Option, none, some, List, [], ◌∷◌, arith, Memᴰ, Bool-cases,
  Option-cases, ltb,
}
use mathlib.Core.Path.{subst}
use mathlib.Core.Option.{get_or}
use open_instinct.Quotas.Plans.{
  PlanQuotaLimits, BillingPlanId, free, pro, org, quota_limits_for_plan, plan_quota_limits,
}
use open_instinct.Quotas.{
  QuotaUsage, QuotaDemand, JsNumber, Check, admitted, refused, exceeded, checks, first_exceeded,
  admit_decoded, admit_quota, decode_usage, decode_demand, reserve_quota, settle_concurrent_turns,
  one_if_active, admission_limits_for_plan,
}
use open_instinct.Quotas.Admission.{Fits, FitsUser, Within, admit_quota-Within, Within-admit_quota}

-- Every counter stands within its limit.
pub record IsBounded (limits : PlanQuotaLimits) (usage : QuotaUsage ℕ) : Type 0 where
  pub user_turns : usage.user.concurrent_turns ≤ limits.user.concurrent_turns
  pub turns : usage.installation.concurrent_turns ≤ limits.installation.concurrent_turns
  pub user_tokens : usage.user.daily_model_tokens ≤ limits.user.daily_model_tokens
  pub tokens : usage.installation.daily_model_tokens ≤ limits.installation.daily_model_tokens
  pub tool_calls : usage.user.daily_tool_calls ≤ limits.user.daily_tool_calls
  pub proactive : usage.user.daily_proactive_messages ≤ limits.user.daily_proactive_messages
  pub storage : usage.user.storage_bytes ≤ limits.user.storage_bytes
  pub sandbox :
      usage.user.sandbox_active_seconds_per_day ≤ limits.user.sandbox_active_seconds_per_day
  pub users : usage.installation.active_users_per_day ≤ limits.installation.active_users_per_day

Fits-le :
    (d : Option ℕ) (used limit : ℕ) → used ≤ limit → Fits d used limit → used + get_or d 0 ≤ limit
Fits-le none used limit le h = omega arith
Fits-le (some n) used limit le h = h

FitsUser-le :
    (d : Option ℕ) (used limit : ℕ)
    → used ≤ limit
    → FitsUser d used limit
    → used + one_if_active d ≤ limit
FitsUser-le d used limit le h = ground arith

Within-IsBounded :
    (limits : PlanQuotaLimits) (u : QuotaUsage ℕ) (d : QuotaDemand ℕ)
    → IsBounded limits u
    → Within limits u d
    → IsBounded limits (reserve_quota u d)
unfolding reserve_quota
Within-IsBounded limits u d b w = record {
  user_turns = Fits-le d.concurrent_turns _ _ b.user_turns w.user_turns;
  turns = Fits-le d.concurrent_turns _ _ b.turns w.turns;
  user_tokens = Fits-le d.model_tokens _ _ b.user_tokens w.user_tokens;
  tokens = Fits-le d.model_tokens _ _ b.tokens w.tokens;
  tool_calls = Fits-le d.tool_calls _ _ b.tool_calls w.tool_calls;
  proactive = Fits-le d.proactive_messages _ _ b.proactive w.proactive;
  storage = Fits-le d.storage_bytes _ _ b.storage w.storage;
  sandbox = Fits-le d.sandbox_seconds _ _ b.sandbox w.sandbox;
  users = FitsUser-le d.active_user _ _ b.users w.users;
}

-- Counters within the limits of a plan stay there when an admitted demand is reserved.
pub reserve_quota-IsBounded :
    (usage : QuotaUsage JsNumber) (demand : QuotaDemand JsNumber) (limits : PlanQuotaLimits)
    (u : QuotaUsage ℕ) (d : QuotaDemand ℕ)
    → decode_usage usage ≡ some u
    → admit_quota usage demand limits ≡ admitted d
    → IsBounded limits u
    → IsBounded limits (reserve_quota u d)
reserve_quota-IsBounded usage demand limits u d e h b =
    let (v, e', decoded, within) = admit_quota-Within usage demand limits d h in
    let same : v ≡ u = cc in
    Within-IsBounded limits u d b (subst (λ x. Within limits x d) same within)

first_exceeded_sound :
    (cs : List Check) (c : Check)
    → first_exceeded cs ≡ some c
    → Memᴰ c cs × (c.limit < c.used + c.requested)
unfolding first_exceeded
first_exceeded_sound [] c h = cc
first_exceeded_sound (b ∷ cs) c h = elim (Bool-cases (ltb b.limit (b.used + b.requested))) [
  | inl e ↦ let same : c ≡ b = ground arith in (Memᴰ.head same, rw same (ground arith))
  | inr e ↦ let (m, over) = first_exceeded_sound cs c (rw e at h) in (Memᴰ.tail m, over)
]

admit_decoded-exceeded :
    (limits : PlanQuotaLimits) (u : QuotaUsage ℕ) (d : QuotaDemand ℕ) (c : Check)
    → admit_decoded limits u d ≡ refused (exceeded c)
    → first_exceeded (checks limits u d) ≡ some c
unfolding admit_decoded
admit_decoded-exceeded limits u d c h = ground arith

-- A refusal for an exceeded limit names a check of the decoded demand, and the demand does exceed
-- the limit of that check.
pub admit_quota-exceeded :
    (usage : QuotaUsage JsNumber) (demand : QuotaDemand JsNumber) (limits : PlanQuotaLimits)
    (c : Check)
    → admit_quota usage demand limits ≡ refused (exceeded c)
    → (u : QuotaUsage ℕ) × (d : QuotaDemand ℕ) × (decode_usage usage ≡ some u)
      × (decode_demand demand ≡ some d)
      × Memᴰ c (checks limits u d)
      × (c.limit < c.used + c.requested)
unfolding admit_quota
admit_quota-exceeded usage demand limits c h = elim (Option-cases (decode_usage usage)) [
  | inl e ↦ cc
  | inr (u, e) ↦ elim (Option-cases (decode_demand demand)) [
    | inl e' ↦ cc
    | inr (d, e') ↦
        let (m, over) =
          first_exceeded_sound (checks limits u d) c
            (admit_decoded-exceeded limits u d c (rw (e, e', admit_quota) at h)) in
        (u, d, e, e', m, over)
  ]
]

-- Settling the turns that a demand reserved brings both counters of turns back to where they
-- stood, whatever else was demanded.
pub settle-reserve_quota :
    (u : QuotaUsage ℕ) (d : QuotaDemand ℕ) (turns : ℕ)
    → d.concurrent_turns ≡ some turns
    → settle_concurrent_turns (reserve_quota u d) turns
      ≡ reserve_quota u (record d { concurrent_turns = none })
unfolding settle_concurrent_turns reserve_quota
settle-reserve_quota u d turns e =
    rw (back u.user.concurrent_turns, back u.installation.concurrent_turns)
  where
    back : (n : ℕ) → n + get_or d.concurrent_turns 0 - turns ≡ n + 0
    back n = rw e (omega arith)

-- The limits of one plan are at most those of the other.
pub record LimitsLe (l m : PlanQuotaLimits) : Type 0 where
  pub user_turns : l.user.concurrent_turns ≤ m.user.concurrent_turns
  pub turns : l.installation.concurrent_turns ≤ m.installation.concurrent_turns
  pub user_tokens : l.user.daily_model_tokens ≤ m.user.daily_model_tokens
  pub tokens : l.installation.daily_model_tokens ≤ m.installation.daily_model_tokens
  pub tool_calls : l.user.daily_tool_calls ≤ m.user.daily_tool_calls
  pub proactive : l.user.daily_proactive_messages ≤ m.user.daily_proactive_messages
  pub storage : l.user.storage_bytes ≤ m.user.storage_bytes
  pub sandbox : l.user.sandbox_active_seconds_per_day ≤ m.user.sandbox_active_seconds_per_day
  pub users : l.installation.active_users_per_day ≤ m.installation.active_users_per_day

Fits-mono : (d : Option ℕ) (used l m : ℕ) → l ≤ m → Fits d used l → Fits d used m
Fits-mono d used l m le h = ground arith

FitsUser-mono : (d : Option ℕ) (used l m : ℕ) → l ≤ m → FitsUser d used l → FitsUser d used m
FitsUser-mono d used l m le h = ground arith

Within-mono :
    (l m : PlanQuotaLimits) (u : QuotaUsage ℕ) (d : QuotaDemand ℕ)
    → LimitsLe l m
    → Within l u d
    → Within m u d
Within-mono l m u d o w = record {
  user_turns = Fits-mono d.concurrent_turns _ _ _ o.user_turns w.user_turns;
  turns = Fits-mono d.concurrent_turns _ _ _ o.turns w.turns;
  user_tokens = Fits-mono d.model_tokens _ _ _ o.user_tokens w.user_tokens;
  tokens = Fits-mono d.model_tokens _ _ _ o.tokens w.tokens;
  tool_calls = Fits-mono d.tool_calls _ _ _ o.tool_calls w.tool_calls;
  proactive = Fits-mono d.proactive_messages _ _ _ o.proactive w.proactive;
  storage = Fits-mono d.storage_bytes _ _ _ o.storage w.storage;
  sandbox = Fits-mono d.sandbox_seconds _ _ _ o.sandbox w.sandbox;
  users = FitsUser-mono d.active_user _ _ _ o.users w.users;
}

-- The plans in the order in which they are offered.
abbrev pub rank : BillingPlanId → ℕ
rank free = 0
rank pro = 1
rank org = 2

plan-le :
    (a b : BillingPlanId) (s t : ℕ)
    → rank a ≤ rank b
    → s ≤ t
    → LimitsLe (admission_limits_for_plan a s) (admission_limits_for_plan b t)
unfolding admission_limits_for_plan quota_limits_for_plan plan_quota_limits
plan-le free free s t le seats = ground arith
plan-le free pro s t le seats = ground arith
plan-le free org s t le seats = ground arith
plan-le pro free s t le seats = absurd (omega arith)
plan-le pro pro s t le seats = ground arith
plan-le pro org s t le seats = ground arith
plan-le org free s t le seats = absurd (omega arith)
plan-le org pro s t le seats = absurd (omega arith)
plan-le org org s t le seats = ground arith

-- An upgrade of the plan, or more seats, never refuses what was admitted before.
pub admit_quota-upgrade :
    (a b : BillingPlanId) (s t : ℕ) (usage : QuotaUsage JsNumber) (demand : QuotaDemand JsNumber)
    (d : QuotaDemand ℕ)
    → rank a ≤ rank b
    → s ≤ t
    → admit_quota usage demand (admission_limits_for_plan a s) ≡ admitted d
    → admit_quota usage demand (admission_limits_for_plan b t) ≡ admitted d
admit_quota-upgrade a b s t usage demand d le seats h =
    let (u, e, e', within) = admit_quota-Within usage demand (admission_limits_for_plan a s) d h in
    Within-admit_quota usage demand (admission_limits_for_plan b t) u d e e' (
      Within-mono (admission_limits_for_plan a s) (admission_limits_for_plan b t) u d
        (plan-le a b s t le seats) within)
