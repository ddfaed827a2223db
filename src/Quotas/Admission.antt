-- ===== src/Quotas/Admission.antt =====
-- What admitQuota admits, and that what it admits can be reserved.
use open_instinct.Base.{
  ℕ, zero, suc, ◌+◌, ◌≤◌, ◌≡◌, refl, ap, ◌∙◌, ◌↔◌, inl, inr, Option, none, some, List, [], ◌∷◌,
  ◌++◌, arith, All, All-append, Bool-cases, Option-cases, ltb,
}
use mathlib.Core.Path.{subst}
use open_instinct.Quotas.Plans.{PlanQuotaLimits}
use open_instinct.Quotas.{
  QuotaUsage, QuotaDemand, JsNumber, Check, admitted, QuotaResource, user_checks, both_checks,
  active_checks, checks, first_exceeded, admit_decoded, admit_quota, decode_usage, decode_demand,
}

-- A demanded amount leaves the counter within its limit.
abbrev pub Fits : Option ℕ → ℕ → ℕ → Type 0
Fits none used limit = Unit
Fits (some n) used limit = used + n ≤ limit

abbrev pub FitsUser : Option ℕ → ℕ → ℕ → Type 0
FitsUser (some (suc zero)) used limit = used + 1 ≤ limit
FitsUser _ used limit = Unit

-- Everything that is demanded fits, for the user and for the installation.
pub record Within (limits : PlanQuotaLimits) (usage : QuotaUsage ℕ) (demand : QuotaDemand ℕ)
    : Type 0 where
  pub user_turns :
      Fits demand.concurrent_turns usage.user.concurrent_turns limits.user.concurrent_turns
  pub turns :
      Fits demand.concurrent_turns usage.installation.concurrent_turns
        limits.installation.concurrent_turns
  pub user_tokens :
      Fits demand.model_tokens usage.user.daily_model_tokens limits.user.daily_model_tokens
  pub tokens :
      Fits demand.model_tokens usage.installation.daily_model_tokens
        limits.installation.daily_model_tokens
  pub tool_calls : Fits demand.tool_calls usage.user.daily_tool_calls limits.user.daily_tool_calls
  pub proactive :
      Fits demand.proactive_messages usage.user.daily_proactive_messages
        limits.user.daily_proactive_messages
  pub storage : Fits demand.storage_bytes usage.user.storage_bytes limits.user.storage_bytes
  pub sandbox :
      Fits demand.sandbox_seconds usage.user.sandbox_active_seconds_per_day
        limits.user.sandbox_active_seconds_per_day
  pub users :
      FitsUser demand.active_user usage.installation.active_users_per_day
        limits.installation.active_users_per_day

abbrev IsWithin : Check → Type 0
IsWithin c = c.used + c.requested ≤ c.limit

exceeded-All : (cs : List Check) → first_exceeded cs ≡ none → All IsWithin cs
unfolding first_exceeded
exceeded-All [] h = tt
exceeded-All (c ∷ cs) h = elim (Bool-cases (ltb c.limit (c.used + c.requested))) [
  | inl e ↦ absurd (ground arith)
  | inr e ↦ (ground arith, exceeded-All cs (rw e at h))
]

All-exceeded : (cs : List Check) → All IsWithin cs → first_exceeded cs ≡ none
unfolding first_exceeded
All-exceeded [] h = refl
All-exceeded (c ∷ cs) h = ground (arith, All-exceeded cs h.1)

All-split : (cs ds : List Check) → All IsWithin (cs ++ ds) → All IsWithin cs × All IsWithin ds
All-split [] ds h = (tt, h)
All-split (c ∷ cs) ds h = let (a, b) = All-split cs ds h.1 in ((h.0, a), b)

user_checks-Fits :
    (r : QuotaResource) (used limit : ℕ) (d : Option ℕ)
    → All IsWithin (user_checks r used limit d) ↔ Fits d used limit
user_checks-Fits r used limit none = (λ h. tt, λ h. tt)
user_checks-Fits r used limit (some n) = (λ h. h.0, λ h. (h, tt))

both_checks-Fits :
    (r : QuotaResource) (user_used user_limit used limit : ℕ) (d : Option ℕ)
    → All IsWithin (both_checks r user_used user_limit used limit d)
      ↔ (Fits d user_used user_limit × Fits d used limit)
both_checks-Fits r uu ul used limit none = (λ h. (tt, tt), λ h. tt)
both_checks-Fits r uu ul used limit (some n) = (λ h. (h.0, (h.1).0), λ h. (h.0, (h.1, tt)))

active_checks-Fits :
    (used limit : ℕ) (d : Option ℕ)
    → All IsWithin (active_checks used limit d) ↔ FitsUser d used limit
active_checks-Fits used limit none = (λ h. tt, λ h. tt)
active_checks-Fits used limit (some zero) = (λ h. tt, λ h. tt)
active_checks-Fits used limit (some (suc zero)) = (λ h. h.0, λ h. (h, tt))
active_checks-Fits used limit (some (suc (suc n))) = (λ h. tt, λ h. tt)

All-append_iff :
    (cs ds : List Check) → All IsWithin (cs ++ ds) ↔ (All IsWithin cs × All IsWithin ds)
All-append_iff cs ds = (All-split cs ds, λ h. All-append IsWithin cs ds h.0 h.1)

module _ (limits : PlanQuotaLimits) (usage : QuotaUsage ℕ) (demand : QuotaDemand ℕ) where
  abbrev turns_of : List Check
  turns_of =
      both_checks QuotaResource.concurrent_turns usage.user.concurrent_turns
        limits.user.concurrent_turns usage.installation.concurrent_turns
        limits.installation.concurrent_turns demand.concurrent_turns

  abbrev tokens_of : List Check
  tokens_of =
      both_checks QuotaResource.model_tokens usage.user.daily_model_tokens
        limits.user.daily_model_tokens usage.installation.daily_model_tokens
        limits.installation.daily_model_tokens demand.model_tokens

  abbrev tools_of : List Check
  tools_of =
      user_checks QuotaResource.tool_calls usage.user.daily_tool_calls limits.user.daily_tool_calls
        demand.tool_calls

  abbrev messages_of : List Check
  messages_of =
      user_checks QuotaResource.proactive_messages usage.user.daily_proactive_messages
        limits.user.daily_proactive_messages demand.proactive_messages

  abbrev storage_of : List Check
  storage_of =
      user_checks QuotaResource.storage_bytes usage.user.storage_bytes limits.user.storage_bytes
        demand.storage_bytes

  abbrev sandbox_of : List Check
  sandbox_of =
      user_checks QuotaResource.sandbox_seconds usage.user.sandbox_active_seconds_per_day
        limits.user.sandbox_active_seconds_per_day demand.sandbox_seconds

  abbrev users_of : List Check
  users_of =
      active_checks usage.installation.active_users_per_day limits.installation.active_users_per_day
        demand.active_user

  All-Within : All IsWithin (checks limits usage demand) → Within limits usage demand
  unfolding checks
  All-Within h =
      let (a, h1) =
        All-split turns_of
          (tokens_of ++ (tools_of ++ (messages_of ++ (storage_of ++ (sandbox_of ++ users_of)))))
          h in
      let (b, h2) =
        All-split tokens_of (tools_of ++ (messages_of ++ (storage_of ++ (sandbox_of ++ users_of))))
          h1 in
      let (c, h3) =
        All-split tools_of (messages_of ++ (storage_of ++ (sandbox_of ++ users_of))) h2 in
      let (d, h4) = All-split messages_of (storage_of ++ (sandbox_of ++ users_of)) h3 in
      let (e, h5) = All-split storage_of (sandbox_of ++ users_of) h4 in
      let (f, g) = All-split sandbox_of users_of h5 in
      let (ua, ia) =
        (both_checks-Fits QuotaResource.concurrent_turns _ _ _ _ demand.concurrent_turns).0 a in
      let (ub, ib) =
        (both_checks-Fits QuotaResource.model_tokens _ _ _ _ demand.model_tokens).0 b in
      record {
        user_turns = ua;
        turns = ia;
        user_tokens = ub;
        tokens = ib;
        tool_calls = (user_checks-Fits QuotaResource.tool_calls _ _ demand.tool_calls).0 c;
        proactive =
            (user_checks-Fits QuotaResource.proactive_messages _ _ demand.proactive_messages).0 d;
        storage = (user_checks-Fits QuotaResource.storage_bytes _ _ demand.storage_bytes).0 e;
        sandbox = (user_checks-Fits QuotaResource.sandbox_seconds _ _ demand.sandbox_seconds).0 f;
        users = (active_checks-Fits _ _ demand.active_user).0 g;
      }

  Within-All : Within limits usage demand → All IsWithin (checks limits usage demand)
  unfolding checks
  Within-All h =
      All-append IsWithin turns_of _
        ((both_checks-Fits QuotaResource.concurrent_turns _ _ _ _ demand.concurrent_turns).1
          (h.user_turns, h.turns))
        (All-append IsWithin tokens_of _
          ((both_checks-Fits QuotaResource.model_tokens _ _ _ _ demand.model_tokens).1
            (h.user_tokens, h.tokens))
          (All-append IsWithin tools_of _
            ((user_checks-Fits QuotaResource.tool_calls _ _ demand.tool_calls).1 h.tool_calls)
            (All-append IsWithin messages_of _
              ((user_checks-Fits QuotaResource.proactive_messages _ _ demand.proactive_messages).1
                h.proactive)
              (All-append IsWithin storage_of _
                ((user_checks-Fits QuotaResource.storage_bytes _ _ demand.storage_bytes).1
                  h.storage)
                (All-append IsWithin sandbox_of users_of
                  ((user_checks-Fits QuotaResource.sandbox_seconds _ _ demand.sandbox_seconds).1
                    h.sandbox)
                  ((active_checks-Fits _ _ demand.active_user).1 h.users))))))

  admit_decoded-Within :
      (e : QuotaDemand ℕ)
      → admit_decoded limits usage demand ≡ admitted e
      → (demand ≡ e) × Within limits usage demand
  unfolding admit_decoded
  admit_decoded-Within e h = elim (Option-cases (first_exceeded (checks limits usage demand))) [
    | inl none_over ↦ (cc, All-Within (exceeded-All (checks limits usage demand) none_over))
    | inr (c, over) ↦ cc
  ]

  Within-admit_decoded :
      Within limits usage demand → admit_decoded limits usage demand ≡ admitted demand
  unfolding admit_decoded
  Within-admit_decoded h =
      rw (All-exceeded (checks limits usage demand) (Within-All h), admit_decoded)

-- What admitQuota admits is the decoded demand, of a decoded usage, and everything demanded fits.
pub admit_quota-Within :
    (usage : QuotaUsage JsNumber) (demand : QuotaDemand JsNumber) (limits : PlanQuotaLimits)
    (d : QuotaDemand ℕ)
    → admit_quota usage demand limits ≡ admitted d
    → (u : QuotaUsage ℕ) × (decode_usage usage ≡ some u)
      × (decode_demand demand ≡ some d)
      × Within limits u d
unfolding admit_quota
admit_quota-Within usage demand limits d h = elim (Option-cases (decode_usage usage)) [
  | inl e ↦ cc
  | inr (u, e) ↦ elim (Option-cases (decode_demand demand)) [
    | inl e' ↦ cc
    | inr (d', e') ↦
        let (same, within) = admit_decoded-Within limits u d' d (rw (e, e', admit_quota) at h) in
        (u, e, e' ∙ ap some same, subst (Within limits u) same within)
  ]
]

-- A valid usage and a valid demand that fits are admitted.
pub Within-admit_quota :
    (usage : QuotaUsage JsNumber) (demand : QuotaDemand JsNumber) (limits : PlanQuotaLimits)
    (u : QuotaUsage ℕ) (d : QuotaDemand ℕ)
    → decode_usage usage ≡ some u
    → decode_demand demand ≡ some d
    → Within limits u d
    → admit_quota usage demand limits ≡ admitted d
unfolding admit_quota
Within-admit_quota usage demand limits u d e e' h =
    rw (e, e', admit_quota) (Within-admit_decoded limits u d h)
