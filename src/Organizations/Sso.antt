-- ===== src/Organizations/Sso.antt =====
-- shared/identity/org-sso.ts: who may accept an invitation.
use open_instinct.Base.{
  ℕ, Bool, true, false, ◌||◌, Option, none, some, List, [], ◌∷◌, map, Text, text_eq, trim, ltb,
  ◌==◌, if◌then◌else◌, select,
}
use open_instinct.Base.Results.{ensure, ◌>>◌}
use open_instinct.Organizations.Rows.{
  InviteStatus, pending, Invite, sso, email_mismatch, email_unverified, google_account_missing,
  invite_not_pending, invite_expired, domain_not_allowed, Answer,
}

-- `GoogleLinkedIdentity`
pub record GoogleLinkedIdentity : Type 0 where
  pub user_id : ℕ
  pub email : Text
  pub email_verified : Bool
  pub has_google_account : Bool

abbrev pub is_pending : InviteStatus → Bool
is_pending pending = true
is_pending _ = false

-- The parts of a text around its last `@`.
split_at_sign : Text → Option (Text × Text)
split_at_sign [] = none
split_at_sign (c ∷ cs) = elim (split_at_sign cs) [
  | some (before, after) ↦ some (c ∷ before, after)
  | none ↦ if c == 64 then some ([], cs) else none
]

abbrev domain_of : Option (Text × Text) → Option Text
domain_of none = none
domain_of (some ([], after)) = none
domain_of (some (c ∷ before, [])) = none
domain_of (some (c ∷ before, d ∷ after)) = some (d ∷ after)

abbrev any_text : Text → List Text → Bool
any_text t [] = false
any_text t (s ∷ ss) = text_eq s t || any_text t ss

abbrev nonempty : Text → Bool
nonempty [] = false
nonempty (_ ∷ _) = true

-- `String.prototype.toLowerCase` is the platform's.
module _ (to_lower_case : Text → Text) where
  unfoldable pub normalize_email : Text → Text
  unfolding trim
  normalize_email email = to_lower_case (trim email)

  unfoldable pub email_domain : Text → Option Text
  unfolding normalize_email split_at_sign
  email_domain email = domain_of (split_at_sign (normalize_email email))

  -- `!(domain === undefined || !allowed.has(domain))`, or no list.
  unfoldable pub is_domain_allowed : Text → Option (List Text) → Bool
  unfolding email_domain normalize_email
  is_domain_allowed email none = true
  is_domain_allowed email (some []) = true
  is_domain_allowed email (some (d ∷ ds)) = elim (email_domain email) [
    | none ↦ false
    | some domain ↦ any_text domain (select nonempty (map normalize_email (d ∷ ds)))
  ]

  unfoldable pub assert_email_domain_allowed : Text → Option (List Text) → Answer (Unit {0})
  unfolding is_domain_allowed
  assert_email_domain_allowed email allowed =
      ensure (is_domain_allowed email allowed) (sso domain_not_allowed)

  unfoldable pub assert_can_accept_org_invite :
      Invite → GoogleLinkedIdentity → ℕ → Option (List Text) → Answer (Unit {0})
  unfolding assert_email_domain_allowed normalize_email
  assert_can_accept_org_invite invite identity now allowed = do
    ensure (is_pending invite.status) (sso invite_not_pending)
    ensure (ltb now invite.expires_at) (sso invite_expired)
    assert_email_domain_allowed invite.email allowed
    ensure identity.email_verified (sso email_unverified)
    ensure (text_eq (normalize_email identity.email) (normalize_email invite.email))
        (sso email_mismatch)
    ensure identity.has_google_account (sso google_account_missing)
