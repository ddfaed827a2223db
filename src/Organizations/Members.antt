-- ===== src/Organizations/Members.antt =====
-- db/services/organizations.ts: organizations, their members and their workspaces. A read that a call
-- makes first and its write are one step here; Overlap.antt is about calls that overlap.
use open_instinct.Base.{
  ℕ, Bool, true, false, ◌&&◌, Option, none, some, List, [], ◌∷◌, ◌++◌, Text, trim, find_first,
  update_where, select, is_null, ◌==◌, length,
}
use mathlib.Core.Option
use open_instinct.Base.Results.{done, ensure, found_or, ◌>>=◌, ◌>>◌, with_transaction}
use open_instinct.Organizations.Rows.{
  CompanyRole, admin, member, WorkspaceRole, company, Organization, Membership, Workspace,
  WorkspaceMembership, Db, rbac, invalid_role, membership_missing, workspace_membership_missing,
  storage_rejected, Answer,
}
use open_instinct.Organizations.Rbac.{
  assert_can_manage_members, assert_can_assign_role, WorkspaceKind, personal, shared,
  assert_workspace_role_for_kind,
}

unfoldable pub is_membership_of : ℕ → ℕ → Membership → Bool
is_membership_of organization_id user_id m =
    m.organization_id == organization_id && m.user_id == user_id

-- `loadOrgMembership`
unfoldable pub load_org_membership : ℕ → ℕ → Db → Option CompanyRole
unfolding is_membership_of
load_org_membership organization_id user_id db =
    Option.map (λ (m : Membership). m.role)
      (find_first (is_membership_of organization_id user_id) db.memberships)

-- The role of the actor, whose absence is an error.
unfoldable pub actor_role : ℕ → ℕ → Db → Answer CompanyRole
actor_role organization_id user_id db =
    found_or membership_missing (load_org_membership organization_id user_id db)

-- INSERT ... ON CONFLICT (organization_id, user_id) DO UPDATE SET role
unfoldable pub upsert_membership : Membership → List Membership → List Membership
unfolding is_membership_of
upsert_membership new ms = elim (find_first (is_membership_of new.organization_id new.user_id) ms) [
  | none ↦ ms ++ new ∷ []
  | some _ ↦
      update_where (is_membership_of new.organization_id new.user_id)
        (λ (m : Membership). record m { role = new.role }) ms
]

unfoldable pub create_organization : ℕ → Text → ℕ → ℕ → Db → Answer (Unit {0}) × Db
create_organization organization_id name admin_user_id now db = with_transaction db (do
  ensure (is_null (find_first (λ (o : Organization). o.id == organization_id) db.organizations))
      storage_rejected
  ensure (is_null (load_org_membership organization_id admin_user_id db)) storage_rejected
  done (
    tt,
    record db {
      organizations =
          db.organizations
          ++ record { id = organization_id; name = trim name; created_at = now } ∷ [];
      memberships =
          db.memberships
          ++ record {
            organization_id = organization_id;
            user_id = admin_user_id;
            role = admin;
            created_at = now;
          }
            ∷ [];
    },
  ))

unfoldable pub is_workspace_membership_of : ℕ → ℕ → WorkspaceMembership → Bool
is_workspace_membership_of workspace_id user_id m =
    m.workspace_id == workspace_id && m.user_id == user_id

unfoldable pub create_company_workspace : ℕ → ℕ → ℕ → ℕ → Db → Answer (Unit {0}) × Db
create_company_workspace organization_id workspace_id actor_user_id now db = with_transaction db (do
  role ← actor_role organization_id actor_user_id db
  assert_can_manage_members (company role)
  assert_workspace_role_for_kind shared (company admin)
  ensure (is_null (find_first (λ (w : Workspace). w.id == workspace_id) db.workspaces))
      (rbac invalid_role)
  ensure
      (is_null (
        find_first (is_workspace_membership_of workspace_id actor_user_id)
          db.workspace_memberships))
      (rbac invalid_role)
  done (
    tt,
    record db {
      workspaces =
          db.workspaces
          ++ record { id = workspace_id; organization_id = some organization_id; created_at = now }
            ∷ [];
      workspace_memberships =
          db.workspace_memberships
          ++ record {
            workspace_id = workspace_id;
            user_id = actor_user_id;
            role = company admin;
            created_at = now;
          }
            ∷ [];
    },
  ))

unfoldable pub set_organization_member_role :
    ℕ → ℕ → ℕ → CompanyRole → ℕ → Db → Answer (Unit {0}) × Db
set_organization_member_role organization_id actor_user_id target_user_id role now db =
    with_transaction db (do
      actor ← actor_role organization_id actor_user_id db
      assert_can_assign_role (company actor) (company role)
      done (
        tt,
        record db {
          memberships =
              upsert_membership
                (record {
                  organization_id = organization_id;
                  user_id = target_user_id;
                  role = role;
                  created_at = now;
                })
                db.memberships;
        },
      ))

-- `loadWorkspaceMembership`, the join of a membership with its workspace.
unfoldable pub load_workspace_membership : ℕ → ℕ → Db → Option (WorkspaceRole × Option ℕ)
load_workspace_membership workspace_id user_id db =
    elim (find_first (is_workspace_membership_of workspace_id user_id) db.workspace_memberships) [
      | none ↦ none
      | some m ↦
          Option.map (λ (w : Workspace). (m.role, w.organization_id))
            (find_first (λ (w : Workspace). w.id == m.workspace_id) db.workspaces)
    ]

abbrev pub kind_of : Option ℕ → WorkspaceKind
kind_of none = personal
kind_of (some _) = shared

unfoldable pub upsert_workspace_membership :
    WorkspaceMembership → List WorkspaceMembership → List WorkspaceMembership
unfolding is_workspace_membership_of
upsert_workspace_membership new ms =
    elim (find_first (is_workspace_membership_of new.workspace_id new.user_id) ms) [
      | none ↦ ms ++ new ∷ []
      | some _ ↦
          update_where (is_workspace_membership_of new.workspace_id new.user_id)
            (λ (m : WorkspaceMembership). record m { role = new.role }) ms
    ]

unfoldable pub set_workspace_member_role :
    ℕ → ℕ → ℕ → WorkspaceRole → ℕ → Db → Answer (Unit {0}) × Db
set_workspace_member_role workspace_id actor_user_id target_user_id role now db =
    with_transaction db (do
      actor ←
          found_or workspace_membership_missing
            (load_workspace_membership workspace_id actor_user_id db)
      assert_workspace_role_for_kind (kind_of actor.1) role
      assert_can_assign_role actor.0 role
      done (
        tt,
        record db {
          workspace_memberships =
              upsert_workspace_membership
                (record {
                  workspace_id = workspace_id;
                  user_id = target_user_id;
                  role = role;
                  created_at = now;
                })
                db.workspace_memberships;
        },
      ))

abbrev is_admin : CompanyRole → Bool
is_admin admin = true
is_admin member = false

unfoldable pub count_organization_admins : ℕ → Db → ℕ
count_organization_admins organization_id db = length (
    select (λ (m : Membership). m.organization_id == organization_id && is_admin m.role)
      db.memberships)
