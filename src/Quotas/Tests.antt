-- ===== src/Quotas/Tests.antt =====
-- Admissions on a free plan.
use open_instinct.Base.{ℕ, ◌+◌, ◌<◌, ◌≡◌, refl, none, some, Memᴰ, arith}
use open_instinct.Quotas.Plans.{
  PlanQuotaLimits, free, org, quota_limits_for_plan, plan_quota_limits,
}
use open_instinct.Quotas.{
  JsNumber, nat, other, QuotaUsage, QuotaDemand, QuotaScope, QuotaResource, Check, admitted,
  refused, exceeded, invalid_input, checks, first_exceeded, admit_decoded, admit_quota,
  decode_usage, decode_demand, reserve_quota, settle_concurrent_turns, admission_limits_for_plan,
}
use open_instinct.Quotas.Admission.{Within, admit_quota-Within, Within-admit_quota}
use open_instinct.Quotas.Limits.{
  IsBounded, reserve_quota-IsBounded, admit_quota-exceeded, settle-reserve_quota,
  admit_quota-upgrade,
}

abbrev usage_of : {A : Type 0} → A → A → A → QuotaUsage A
usage_of turns tokens rest = record {
  user = record {
    concurrent_turns = turns;
    daily_model_tokens = tokens;
    daily_tool_calls = rest;
    daily_proactive_messages = rest;
    storage_bytes = rest;
    sandbox_active_seconds_per_day = rest;
  };
  installation = record {
    concurrent_turns = turns;
    daily_model_tokens = tokens;
    active_users_per_day = rest;
  };
}

abbrev turn_and_tokens : {A : Type 0} → A → A → QuotaDemand A
turn_and_tokens turns tokens = record {
  concurrent_turns = some turns;
  model_tokens = some tokens;
  tool_calls = none;
  proactive_messages = none;
  storage_bytes = none;
  sandbox_seconds = none;
  active_user = none;
}

abbrev used : QuotaUsage ℕ
used = usage_of 1 400000 3

abbrev seen : QuotaUsage JsNumber
seen = usage_of (nat 1) (nat 400000) (nat 3)

abbrev free_limits : PlanQuotaLimits
free_limits = admission_limits_for_plan free 1

quotas : Unit {0}
unfolding admission_limits_for_plan quota_limits_for_plan plan_quota_limits checks first_exceeded
    admit_decoded admit_quota decode_usage decode_demand reserve_quota
quotas = tt

fits :
    admit_quota seen (turn_and_tokens (nat 1) (nat 100000)) free_limits
    ≡ admitted (turn_and_tokens 1 100000)
unfolding quotas admit_quota
fits = refl

abbrev over : Check
over = record {
  scope = QuotaScope.user;
  resource = QuotaResource.model_tokens;
  used = 400000;
  requested = 100001;
  limit = 500000;
}

too_many :
    admit_quota seen (turn_and_tokens (nat 1) (nat 100001)) free_limits ≡ refused (exceeded over)
unfolding quotas admit_quota
too_many = refl

negative : admit_quota seen (turn_and_tokens (nat 1) other) free_limits ≡ refused invalid_input
unfolding quotas admit_quota
negative = refl

decoded : decode_usage seen ≡ some used
unfolding decode_usage
decoded = refl

decoded_demand :
    decode_demand (turn_and_tokens (nat 1) (nat 100000)) ≡ some (turn_and_tokens 1 100000)
unfolding decode_demand
decoded_demand = refl

admit_quota-Within_example :
    (u : QuotaUsage ℕ) × (decode_usage seen ≡ some u)
    × (decode_demand (turn_and_tokens (nat 1) (nat 100000)) ≡ some (turn_and_tokens 1 100000))
    × Within free_limits u (turn_and_tokens 1 100000)
admit_quota-Within_example =
    admit_quota-Within seen (turn_and_tokens (nat 1) (nat 100000)) free_limits
      (turn_and_tokens 1 100000) fits

free_fits : Within free_limits used (turn_and_tokens 1 100000)
unfolding quotas quota_limits_for_plan plan_quota_limits admission_limits_for_plan
free_fits = record {
  user_turns = omega arith;
  turns = omega arith;
  user_tokens = omega arith;
  tokens = omega arith;
  tool_calls = tt;
  proactive = tt;
  storage = tt;
  sandbox = tt;
  users = tt;
}

Within-admit_quota_example :
    admit_quota seen (turn_and_tokens (nat 1) (nat 100000)) free_limits
    ≡ admitted (turn_and_tokens 1 100000)
Within-admit_quota_example =
    Within-admit_quota seen (turn_and_tokens (nat 1) (nat 100000)) free_limits used
      (turn_and_tokens 1 100000) decoded decoded_demand free_fits

used-IsBounded : IsBounded free_limits used
unfolding quotas quota_limits_for_plan plan_quota_limits admission_limits_for_plan
used-IsBounded = record {
  user_turns = omega arith;
  turns = omega arith;
  user_tokens = omega arith;
  tokens = omega arith;
  tool_calls = omega arith;
  proactive = omega arith;
  storage = omega arith;
  sandbox = omega arith;
  users = omega arith;
}

reserve_quota-IsBounded_example :
    IsBounded free_limits (reserve_quota used (turn_and_tokens 1 100000))
reserve_quota-IsBounded_example =
    reserve_quota-IsBounded seen (turn_and_tokens (nat 1) (nat 100000)) free_limits used
      (turn_and_tokens 1 100000) decoded fits used-IsBounded

admit_quota-exceeded_example :
    (u : QuotaUsage ℕ) × (d : QuotaDemand ℕ) × (decode_usage seen ≡ some u)
    × (decode_demand (turn_and_tokens (nat 1) (nat 100001)) ≡ some d)
    × Memᴰ over (checks free_limits u d)
    × (500000 < 400000 + 100001)
admit_quota-exceeded_example =
    admit_quota-exceeded seen (turn_and_tokens (nat 1) (nat 100001)) free_limits over too_many

settle-reserve_quota_example :
    settle_concurrent_turns (reserve_quota used (turn_and_tokens 1 100000)) 1
    ≡ reserve_quota used (record (turn_and_tokens 1 100000) { concurrent_turns = none })
settle-reserve_quota_example = settle-reserve_quota used (turn_and_tokens 1 100000) 1 refl

admit_quota-upgrade_example :
    admit_quota seen (turn_and_tokens (nat 1) (nat 100000)) (admission_limits_for_plan org 5)
    ≡ admitted (turn_and_tokens 1 100000)
admit_quota-upgrade_example =
    admit_quota-upgrade free org 1 5 seen (turn_and_tokens (nat 1) (nat 100000))
      (turn_and_tokens 1 100000) (omega arith) (omega arith) fits
