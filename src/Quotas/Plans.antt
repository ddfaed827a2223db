-- ===== src/Quotas/Plans.antt =====
-- shared/billing/plans.ts: the limits of the plans. The catalogue of names and prices is left out.
use open_instinct.Base.{ℕ, ◌*◌, max, Bool, true, false}

pub data BillingPlanId : Type 0 where
  free pro org : BillingPlanId

pub record UserLimits : Type 0 where
  pub concurrent_turns : ℕ
  pub daily_model_tokens : ℕ
  pub daily_tool_calls : ℕ
  pub daily_proactive_messages : ℕ
  pub storage_bytes : ℕ
  pub sandbox_active_seconds_per_day : ℕ

pub record InstallationLimits : Type 0 where
  pub concurrent_turns : ℕ
  pub daily_model_tokens : ℕ
  pub active_users_per_day : ℕ

pub record PlanQuotaLimits : Type 0 where
  pub user : UserLimits
  pub installation : InstallationLimits

unfoldable pub plan_quota_limits : BillingPlanId → PlanQuotaLimits
plan_quota_limits free = record {
  user = record {
    concurrent_turns = 2;
    daily_model_tokens = 500000;
    daily_tool_calls = 200;
    daily_proactive_messages = 24;
    storage_bytes = 100 * 1024 * 1024;
    sandbox_active_seconds_per_day = 900;
  };
  installation = record {
    concurrent_turns = 20;
    daily_model_tokens = 5000000;
    active_users_per_day = 100;
  };
}
plan_quota_limits pro = record {
  user = record {
    concurrent_turns = 4;
    daily_model_tokens = 2500000;
    daily_tool_calls = 1000;
    daily_proactive_messages = 96;
    storage_bytes = 2 * 1024 * 1024 * 1024;
    sandbox_active_seconds_per_day = 3600;
  };
  installation = record {
    concurrent_turns = 40;
    daily_model_tokens = 25000000;
    active_users_per_day = 100;
  };
}
plan_quota_limits org = record {
  user = record {
    concurrent_turns = 4;
    daily_model_tokens = 2500000;
    daily_tool_calls = 1000;
    daily_proactive_messages = 96;
    storage_bytes = 2 * 1024 * 1024 * 1024;
    sandbox_active_seconds_per_day = 3600;
  };
  installation = record {
    concurrent_turns = 80;
    daily_model_tokens = 50000000;
    active_users_per_day = 500;
  };
}

-- The seat count is a natural number, so that `Math.floor` keeps it.
unfoldable pub quota_limits_for_plan : BillingPlanId → ℕ → PlanQuotaLimits
unfolding plan_quota_limits
quota_limits_for_plan free seat_count = plan_quota_limits free
quota_limits_for_plan pro seat_count = plan_quota_limits pro
quota_limits_for_plan org seat_count =
    let base = plan_quota_limits org in
    let seats = max 1 seat_count in
    record {
      user = base.user;
      installation = record {
        concurrent_turns = base.installation.concurrent_turns * seats;
        daily_model_tokens = base.installation.daily_model_tokens * seats;
        active_users_per_day = max base.installation.active_users_per_day (seats * 25);
      };
    }

unfoldable pub is_paid_plan : BillingPlanId → Bool
is_paid_plan free = false
is_paid_plan pro = true
is_paid_plan org = true
