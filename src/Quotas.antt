-- ===== src/Quotas.antt =====
-- server/operations/quotas.ts and shared/billing/plans.ts: the admission of work against the
-- limits of a plan. Counts are natural numbers; a sum of two stays exact.
pub mod Plans
pub mod Admission
pub mod Limits
mod Tests
use open_instinct.Base.{
  ℕ, zero, suc, ◌+◌, ◌-◌, ◌≤◌, Bool, true, false, Option, none, some, List, [], ◌∷◌, ◌++◌, leb, ltb,
  max, if◌then◌else◌,
}
use mathlib.Core.Option.{get_or}
use open_instinct.Quotas.Plans.{PlanQuotaLimits, BillingPlanId, quota_limits_for_plan}

-- A number of the input: a natural number that is a safe integer, or any other number.
pub data JsNumber : Type 0 where
  nat : ℕ → JsNumber
  other : JsNumber

pub record UserUsage (A : Type 0) : Type 0 where
  pub concurrent_turns : A
  pub daily_model_tokens : A
  pub daily_tool_calls : A
  pub daily_proactive_messages : A
  pub storage_bytes : A
  pub sandbox_active_seconds_per_day : A

pub record InstallationUsage (A : Type 0) : Type 0 where
  pub concurrent_turns : A
  pub daily_model_tokens : A
  pub active_users_per_day : A

-- `QuotaUsage`, over the numbers of the input or the decoded ones.
pub record QuotaUsage (A : Type 0) : Type 0 where
  pub user : UserUsage A
  pub installation : InstallationUsage A

pub record QuotaDemand (A : Type 0) : Type 0 where
  pub concurrent_turns : Option A
  pub model_tokens : Option A
  pub tool_calls : Option A
  pub proactive_messages : Option A
  pub storage_bytes : Option A
  pub sandbox_seconds : Option A
  pub active_user : Option A

pub data QuotaResource : Type 0 where
  concurrent_turns model_tokens tool_calls proactive_messages storage_bytes sandbox_seconds
        active_users :
      QuotaResource

pub data QuotaScope : Type 0 where
  user installation : QuotaScope

pub record Check : Type 0 where
  pub scope : QuotaScope
  pub resource : QuotaResource
  pub used : ℕ
  pub requested : ℕ
  pub limit : ℕ

-- `QuotaAdmissionError`: the fields of an exceeded limit are those of its check.
pub data QuotaAdmissionError : Type 0 where
  exceeded : Check → QuotaAdmissionError
  invalid_input : QuotaAdmissionError

-- What `admitQuota` returns, or the error it fails with.
pub data Decision : Type 0 where
  admitted : QuotaDemand ℕ → Decision
  refused : QuotaAdmissionError → Decision

unfoldable pub admission_limits_for_plan : BillingPlanId → ℕ → PlanQuotaLimits
admission_limits_for_plan plan seat_count = quota_limits_for_plan plan seat_count

-- `if (demand.x !== undefined)`, the checks of a resource of the user.
abbrev pub user_checks : QuotaResource → ℕ → ℕ → Option ℕ → List Check
user_checks resource used limit none = []
user_checks resource used limit (some n) =
    record {
      scope = QuotaScope.user;
      resource = resource;
      used = used;
      requested = n;
      limit = limit;
    }
    ∷ []

-- The checks of a resource of the user and of the installation.
abbrev pub both_checks : QuotaResource → ℕ → ℕ → ℕ → ℕ → Option ℕ → List Check
both_checks resource user_used user_limit used limit none = []
both_checks resource user_used user_limit used limit (some n) =
    record {
      scope = QuotaScope.user;
      resource = resource;
      used = user_used;
      requested = n;
      limit = user_limit;
    }
    ∷ record {
      scope = QuotaScope.installation;
      resource = resource;
      used = used;
      requested = n;
      limit = limit;
    }
    ∷ []

-- `if (demand.activeUser === 1)`
abbrev pub active_checks : ℕ → ℕ → Option ℕ → List Check
active_checks used limit (some (suc zero)) =
    record {
      scope = QuotaScope.installation;
      resource = QuotaResource.active_users;
      used = used;
      requested = 1;
      limit = limit;
    }
    ∷ []
active_checks _ _ _ = []

unfoldable pub checks : PlanQuotaLimits → QuotaUsage ℕ → QuotaDemand ℕ → List Check
checks limits usage demand =
    both_checks QuotaResource.concurrent_turns usage.user.concurrent_turns
      limits.user.concurrent_turns usage.installation.concurrent_turns
      limits.installation.concurrent_turns demand.concurrent_turns
    ++ (both_checks QuotaResource.model_tokens usage.user.daily_model_tokens
          limits.user.daily_model_tokens usage.installation.daily_model_tokens
          limits.installation.daily_model_tokens demand.model_tokens
        ++ (user_checks QuotaResource.tool_calls usage.user.daily_tool_calls
              limits.user.daily_tool_calls demand.tool_calls
            ++ (user_checks QuotaResource.proactive_messages usage.user.daily_proactive_messages
                  limits.user.daily_proactive_messages demand.proactive_messages
                ++ (user_checks QuotaResource.storage_bytes usage.user.storage_bytes
                      limits.user.storage_bytes demand.storage_bytes
                    ++ (user_checks QuotaResource.sandbox_seconds
                          usage.user.sandbox_active_seconds_per_day
                          limits.user.sandbox_active_seconds_per_day demand.sandbox_seconds
                        ++ (active_checks usage.installation.active_users_per_day
                            limits.installation.active_users_per_day demand.active_user))))))

unfoldable pub empty_quota_usage : QuotaUsage ℕ
empty_quota_usage = record {
  user = record {
    concurrent_turns = 0;
    daily_model_tokens = 0;
    daily_tool_calls = 0;
    daily_proactive_messages = 0;
    storage_bytes = 0;
    sandbox_active_seconds_per_day = 0;
  };
  installation = record { concurrent_turns = 0; daily_model_tokens = 0; active_users_per_day = 0 };
}

infixl 5 ◌>>=◌
abbrev pub ◌>>=◌ {ℓ κ} : {A : Type ℓ} {B : Type κ} → Option A → (A → Option B) → Option B
none >>= k = none
some a >>= k = k a

abbrev pub non_negative_int : JsNumber → Option ℕ
non_negative_int (nat n) = some n
non_negative_int other = none

-- `Schema.optionalKey`
abbrev pub optional_key : (JsNumber → Option ℕ) → Option JsNumber → Option (Option ℕ)
optional_key parse none = some none
optional_key parse (some n) = do m ← parse n; some (some m)

-- `Schema.Literals([0, 1])`
abbrev pub zero_or_one : JsNumber → Option ℕ
zero_or_one (nat zero) = some 0
zero_or_one (nat (suc zero)) = some 1
zero_or_one _ = none

unfoldable pub decode_usage : QuotaUsage JsNumber → Option (QuotaUsage ℕ)
decode_usage usage = do
  a ← non_negative_int usage.user.concurrent_turns
  b ← non_negative_int usage.user.daily_model_tokens
  c ← non_negative_int usage.user.daily_tool_calls
  d ← non_negative_int usage.user.daily_proactive_messages
  e ← non_negative_int usage.user.storage_bytes
  f ← non_negative_int usage.user.sandbox_active_seconds_per_day
  g ← non_negative_int usage.installation.concurrent_turns
  h ← non_negative_int usage.installation.daily_model_tokens
  i ← non_negative_int usage.installation.active_users_per_day
  some (record {
    user = record {
      concurrent_turns = a;
      daily_model_tokens = b;
      daily_tool_calls = c;
      daily_proactive_messages = d;
      storage_bytes = e;
      sandbox_active_seconds_per_day = f;
    };
    installation = record {
      concurrent_turns = g;
      daily_model_tokens = h;
      active_users_per_day = i;
    };
  })

unfoldable pub decode_demand : QuotaDemand JsNumber → Option (QuotaDemand ℕ)
decode_demand demand = do
  a ← optional_key non_negative_int demand.concurrent_turns
  b ← optional_key non_negative_int demand.model_tokens
  c ← optional_key non_negative_int demand.tool_calls
  d ← optional_key non_negative_int demand.proactive_messages
  e ← optional_key non_negative_int demand.storage_bytes
  f ← optional_key non_negative_int demand.sandbox_seconds
  g ← optional_key zero_or_one demand.active_user
  some (record {
    concurrent_turns = a;
    model_tokens = b;
    tool_calls = c;
    proactive_messages = d;
    storage_bytes = e;
    sandbox_seconds = f;
    active_user = g;
  })

-- The loop of `admitQuota` over the checks: the first that exceeds its limit.
unfoldable pub first_exceeded : List Check → Option Check
first_exceeded [] = none
first_exceeded (c ∷ cs) =
    let rest = first_exceeded cs in if ltb c.limit (c.used + c.requested) then some c else rest

-- `admitQuota` behind the decoders.
unfoldable pub admit_decoded : PlanQuotaLimits → QuotaUsage ℕ → QuotaDemand ℕ → Decision
admit_decoded limits usage demand = elim (first_exceeded (checks limits usage demand)) [
  | none ↦ admitted demand
  | some c ↦ refused (exceeded c)
]

unfoldable pub admit_quota : QuotaUsage JsNumber → QuotaDemand JsNumber → PlanQuotaLimits → Decision
admit_quota usage demand limits = elim (decode_usage usage) [
  | none ↦ refused invalid_input
  | some u ↦ elim (decode_demand demand) [
    | none ↦ refused invalid_input
    | some d ↦ admit_decoded limits u d
  ]
]

-- `demand.activeUser === 1 ? 1 : 0`
abbrev pub one_if_active : Option ℕ → ℕ
one_if_active (some (suc zero)) = 1
one_if_active _ = 0

unfoldable pub reserve_quota : QuotaUsage ℕ → QuotaDemand ℕ → QuotaUsage ℕ
reserve_quota usage demand = record {
  user = record {
    concurrent_turns = usage.user.concurrent_turns + get_or demand.concurrent_turns 0;
    daily_model_tokens = usage.user.daily_model_tokens + get_or demand.model_tokens 0;
    daily_tool_calls = usage.user.daily_tool_calls + get_or demand.tool_calls 0;
    daily_proactive_messages =
        usage.user.daily_proactive_messages + get_or demand.proactive_messages 0;
    storage_bytes = usage.user.storage_bytes + get_or demand.storage_bytes 0;
    sandbox_active_seconds_per_day =
        usage.user.sandbox_active_seconds_per_day + get_or demand.sandbox_seconds 0;
  };
  installation = record {
    concurrent_turns = usage.installation.concurrent_turns + get_or demand.concurrent_turns 0;
    daily_model_tokens = usage.installation.daily_model_tokens + get_or demand.model_tokens 0;
    active_users_per_day =
        usage.installation.active_users_per_day + one_if_active demand.active_user;
  };
}

-- `Math.max(0, used - release)` is the subtraction of natural numbers; `turns` is not negative.
unfoldable pub settle_concurrent_turns : QuotaUsage ℕ → ℕ → QuotaUsage ℕ
settle_concurrent_turns usage turns = record {
  user = record usage.user { concurrent_turns = usage.user.concurrent_turns - turns };
  installation = record usage.installation {
    concurrent_turns = usage.installation.concurrent_turns - turns;
  };
}
