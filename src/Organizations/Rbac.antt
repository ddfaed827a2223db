-- ===== src/Organizations/Rbac.antt =====
-- shared/identity/org-rbac.ts: who may manage members, and which roles they may give.
use open_instinct.Base.{Bool, true, false, if◌then◌else◌}
use open_instinct.Base.Results.{fail, done, ensure, ◌>>◌}
use open_instinct.Organizations.Rows.{
  admin, member, WorkspaceRole, owner, company, rbac, not_admin, cannot_elevate,
  personal_owner_only, invalid_role, Answer,
}

unfoldable pub can_manage_members : WorkspaceRole → Bool
can_manage_members owner = true
can_manage_members (company admin) = true
can_manage_members (company member) = false

abbrev is_owner : WorkspaceRole → Bool
is_owner owner = true
is_owner (company _) = false

unfoldable pub can_assign_role : WorkspaceRole → WorkspaceRole → Bool
unfolding can_manage_members
can_assign_role actor target =
    if can_manage_members actor
    then (elim target [
      | owner ↦ is_owner actor
      | company admin ↦ can_manage_members actor
      | company member ↦ true
    ])
    else false

unfoldable pub assert_can_manage_members : WorkspaceRole → Answer (Unit {0})
assert_can_manage_members actor = ensure (can_manage_members actor) (rbac not_admin)

unfoldable pub assert_can_assign_role : WorkspaceRole → WorkspaceRole → Answer (Unit {0})
unfolding assert_can_manage_members can_assign_role
assert_can_assign_role actor target =
    assert_can_manage_members actor >> ensure (can_assign_role actor target) (rbac cannot_elevate)

pub data WorkspaceKind : Type 0 where
  personal shared : WorkspaceKind

unfoldable pub assert_workspace_role_for_kind : WorkspaceKind → WorkspaceRole → Answer (Unit {0})
assert_workspace_role_for_kind personal owner = done tt
assert_workspace_role_for_kind personal (company _) = fail (rbac personal_owner_only)
assert_workspace_role_for_kind shared owner = fail (rbac invalid_role)
assert_workspace_role_for_kind shared (company _) = done tt
