-- ===== src/Organizations/Rows.antt =====
-- The tables of db/schema that the services on organizations write, and the errors of those
-- services. The ids are texts in the source, which it only compares: here they are numbers.
use open_instinct.Base.{ℕ, Option, List, Text}
use open_instinct.Base.Results.{Result}

-- `CompanyRole`
pub data CompanyRole : Type 0 where
  admin member : CompanyRole

-- `WorkspaceRole`, which `CompanyRole` is a part of.
pub data WorkspaceRole : Type 0 where
  owner : WorkspaceRole
  company : CompanyRole → WorkspaceRole

pub record Organization : Type 0 where
  pub id : ℕ
  pub name : Text
  pub created_at : ℕ

pub record Membership : Type 0 where
  pub organization_id : ℕ
  pub user_id : ℕ
  pub role : CompanyRole
  pub created_at : ℕ

pub record Workspace : Type 0 where
  pub id : ℕ
  pub organization_id : Option ℕ
  pub created_at : ℕ

pub record WorkspaceMembership : Type 0 where
  pub workspace_id : ℕ
  pub user_id : ℕ
  pub role : WorkspaceRole
  pub created_at : ℕ

pub data InviteStatus : Type 0 where
  pending accepted revoked expired : InviteStatus

pub record Invite : Type 0 where
  pub id : ℕ
  pub organization_id : ℕ
  pub email : Text
  pub role : CompanyRole
  pub invited_by_user_id : ℕ
  pub status : InviteStatus
  pub accepted_user_id : Option ℕ
  pub expires_at : ℕ
  pub created_at : ℕ

-- `OrganizationAuditAction`, less the two of the erasure of an organization, which these services do
-- not write.
pub data AuditAction : Type 0 where
  invite_created invite_accepted invite_revoked member_role_changed member_removed : AuditAction

pub record AuditReceipt : Type 0 where
  pub id : ℕ
  pub organization_id : ℕ
  pub actor_user_id : ℕ
  pub action : AuditAction
  pub target_user_id : Option ℕ
  pub target_email : Option Text
  pub invite_id : Option ℕ
  pub role : Option CompanyRole
  pub created_at : ℕ

pub record Db : Type 0 where
  pub organizations : List Organization
  pub memberships : List Membership
  pub workspaces : List Workspace
  pub workspace_memberships : List WorkspaceMembership
  pub invites : List Invite
  pub receipts : List AuditReceipt

-- The reasons of `RbacDenied` that the code gives.
pub data RbacReason : Type 0 where
  not_admin cannot_elevate personal_owner_only invalid_role : RbacReason

-- The reasons of `OrgSsoDenied`
pub data SsoReason : Type 0 where
  email_mismatch email_unverified google_account_missing : SsoReason
  invite_not_pending invite_expired domain_not_allowed : SsoReason

-- `storage_rejected` stands for a promise that a duplicate key rejects.
pub data Denied : Type 0 where
  rbac : RbacReason → Denied
  sso : SsoReason → Denied
  membership_missing workspace_membership_missing invite_missing : Denied
  audit_append_failed storage_rejected : Denied

abbrev pub Answer : Type 0 → Type 0
Answer A = Result Denied A
