-- ===== src/Organizations/Invites.antt =====
-- db/services/organization-invites.ts and the receipts of db/services/organization-audit.ts. A call
-- writes first and appends its receipt then, outside the transaction of the write: one whose receipt
-- is refused fails, and what it has written stays.
use open_instinct.Base.{
  ℕ, not, Option, none, some, List, [], ◌∷◌, ◌++◌, Text, find_first, update_where, select, is_null,
  ◌==◌,
}
use open_instinct.Base.Results.{fail, done, ensure, found_or, ◌>>=◌, ◌>>◌, with_transaction}
use open_instinct.Organizations.Rows.{
  CompanyRole, company, pending, accepted, revoked, Invite, AuditAction, invite_created,
  invite_accepted, invite_revoked, member_role_changed, member_removed, AuditReceipt, Db, rbac,
  invalid_role, invite_missing, audit_append_failed, Answer,
}
use open_instinct.Organizations.Rbac.{assert_can_manage_members, assert_can_assign_role}
use open_instinct.Organizations.Sso.{
  GoogleLinkedIdentity, normalize_email, assert_email_domain_allowed, assert_can_accept_org_invite,
}
use open_instinct.Organizations.Members.{
  is_membership_of, actor_role, upsert_membership, set_organization_member_role,
}

-- `appendOrganizationAuditReceipt`
unfoldable pub append_receipt : AuditReceipt → Db → Answer (Unit {0}) × Db
append_receipt receipt db = with_transaction db (do
  ensure (is_null (find_first (λ (r : AuditReceipt). r.id == receipt.id) db.receipts))
      audit_append_failed
  done (tt, record db { receipts = db.receipts ++ receipt ∷ [] }))

-- A write, and its receipt where the write succeeded.
unfoldable pub audited : {A : Type 0} → Answer (A × Db) → (A → AuditReceipt) → Db → Answer A × Db
unfolding append_receipt
audited (fail e) receipt db = (fail e, db)
audited (done (a, db')) receipt db =
    let (r, db'') = append_receipt (receipt a) db' in (r >>= λ _. done a, db'')

abbrev pub find_invite : ℕ → Db → Option Invite
find_invite id db = find_first (λ (i : Invite). i.id == id) db.invites

pub record CreateInvite : Type 0 where
  pub invite_id : ℕ
  pub organization_id : ℕ
  pub actor_user_id : ℕ
  pub email : Text
  pub role : CompanyRole
  pub expires_at : ℕ
  pub receipt_id : ℕ
  pub allowed_domains : Option (List Text)

unfoldable pub invite_receipt :
    AuditAction → ℕ → ℕ → ℕ → Option ℕ → Text → ℕ → Option CompanyRole → ℕ → AuditReceipt
invite_receipt action id organization_id actor_user_id target email invite_id role now = record {
  id = id;
  organization_id = organization_id;
  actor_user_id = actor_user_id;
  action = action;
  target_user_id = target;
  target_email = some email;
  invite_id = some invite_id;
  role = role;
  created_at = now;
}

unfoldable pub member_receipt : AuditAction → ℕ → ℕ → ℕ → ℕ → Option CompanyRole → ℕ → AuditReceipt
member_receipt action id organization_id actor_user_id target role now = record {
  id = id;
  organization_id = organization_id;
  actor_user_id = actor_user_id;
  action = action;
  target_user_id = some target;
  target_email = none;
  invite_id = none;
  role = role;
  created_at = now;
}

unfoldable pub accepted_invite : ℕ → Invite → Invite
accepted_invite user_id i = record i { status = accepted; accepted_user_id = some user_id }

-- The transaction of an acceptance, on the strength of the invitation that was read.
unfoldable pub write_acceptance : Invite → GoogleLinkedIdentity → ℕ → Db → Db
unfolding accepted_invite upsert_membership
write_acceptance invite identity now db = record db {
  invites =
      update_where (λ (i : Invite). i.id == invite.id) (accepted_invite identity.user_id)
        db.invites;
  memberships =
      upsert_membership
        (record {
          organization_id = invite.organization_id;
          user_id = identity.user_id;
          role = invite.role;
          created_at = now;
        })
        db.memberships;
}

module _ (to_lower_case : Text → Text) where
  unfoldable pub write_invite : CreateInvite → ℕ → Db → Answer (ℕ × Db)
  unfolding normalize_email
  write_invite input now db = do
    actor ← actor_role input.organization_id input.actor_user_id db
    assert_can_assign_role (company actor) (company input.role)
    assert_email_domain_allowed to_lower_case (normalize_email to_lower_case input.email)
        input.allowed_domains
    ensure (is_null (find_invite input.invite_id db)) (rbac invalid_role)
    done (
      input.invite_id,
      record db {
        invites =
            db.invites
            ++ record {
              id = input.invite_id;
              organization_id = input.organization_id;
              email = normalize_email to_lower_case input.email;
              role = input.role;
              invited_by_user_id = input.actor_user_id;
              status = pending;
              accepted_user_id = none;
              expires_at = input.expires_at;
              created_at = now;
            }
              ∷ [];
      },
    )

  unfoldable pub create_organization_invite : CreateInvite → ℕ → Db → Answer ℕ × Db
  unfolding audited
  create_organization_invite input now db =
      audited (write_invite input now db)
        (λ id.
          invite_receipt invite_created input.receipt_id input.organization_id input.actor_user_id
            none (normalize_email to_lower_case input.email) id (some input.role) now)
        db

  unfoldable pub accept_invite :
      ℕ → GoogleLinkedIdentity → ℕ → Option (List Text) → Db → Answer (Invite × Db)
  unfolding write_acceptance
  accept_invite invite_id identity now allowed db = do
    invite ← found_or invite_missing (find_invite invite_id db)
    assert_can_accept_org_invite to_lower_case invite identity now allowed
    done (invite, write_acceptance invite identity now db)

  -- The invitation that is returned stands for its organization and role.
  unfoldable pub accept_organization_invite :
      ℕ → GoogleLinkedIdentity → ℕ → ℕ → Option (List Text) → Db → Answer Invite × Db
  unfolding audited
  accept_organization_invite invite_id identity receipt_id now allowed db =
      audited (accept_invite invite_id identity now allowed db)
        (λ invite.
          invite_receipt invite_accepted receipt_id invite.organization_id identity.user_id
            (some identity.user_id) invite.email invite_id (some invite.role) now)
        db

unfoldable pub remove_member : ℕ → ℕ → ℕ → Db → Answer (Unit {0} × Db)
remove_member organization_id actor_user_id target_user_id db = do
  actor ← actor_role organization_id actor_user_id db
  assert_can_manage_members (company actor)
  done (
    tt,
    record db {
      memberships =
          select (λ m. not (is_membership_of organization_id target_user_id m)) db.memberships;
    },
  )

unfoldable pub remove_organization_member : ℕ → ℕ → ℕ → ℕ → ℕ → Db → Answer (Unit {0}) × Db
unfolding audited
remove_organization_member organization_id actor_user_id target_user_id receipt_id now db =
    audited (remove_member organization_id actor_user_id target_user_id db)
      (λ _.
        member_receipt member_removed receipt_id organization_id actor_user_id target_user_id none
          now)
      db

unfoldable pub set_organization_member_role_audited :
    ℕ → ℕ → ℕ → CompanyRole → ℕ → ℕ → Db → Answer (Unit {0}) × Db
unfolding audited
set_organization_member_role_audited organization_id actor_user_id target_user_id role receipt_id
      now db =
    let (r, db') =
      set_organization_member_role organization_id actor_user_id target_user_id role now db in
    audited (r >>= λ _. done (tt, db'))
      (λ _.
        member_receipt member_role_changed receipt_id organization_id actor_user_id target_user_id
          (some role) now)
      db

unfoldable pub revoke_invite : ℕ → ℕ → ℕ → Db → Answer (Invite × Db)
revoke_invite invite_id organization_id actor_user_id db = do
  actor ← actor_role organization_id actor_user_id db
  assert_can_manage_members (company actor)
  invite ← found_or invite_missing (find_invite invite_id db)
  ensure (invite.organization_id == organization_id) invite_missing
  done (
    invite,
    record db {
      invites =
          update_where (λ (i : Invite). i.id == invite_id)
            (λ (i : Invite). record i { status = revoked }) db.invites;
    },
  )

-- The answer, which the source leaves out, is the invitation that the receipt names.
unfoldable pub revoke_organization_invite : ℕ → ℕ → ℕ → ℕ → ℕ → Db → Answer Invite × Db
unfolding audited
revoke_organization_invite invite_id organization_id actor_user_id receipt_id now db =
    audited (revoke_invite invite_id organization_id actor_user_id db)
      (λ invite.
        invite_receipt invite_revoked receipt_id organization_id actor_user_id none invite.email
          invite_id none now)
      db
