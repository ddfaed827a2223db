-- ===== src/Organizations/Access.antt =====
-- Who changes the members of an organization.
use open_instinct.Base.{ℕ, ◌≡◌, ◌≢◌, ◌⊎◌, refl, inl, inr, Option, none, some, Text}
use open_instinct.Base.Results.{fail, done, with_transaction}
use open_instinct.Organizations.Rows.{CompanyRole, admin, member, Db, Answer}
use open_instinct.Organizations.Rbac.{
  can_manage_members, assert_can_manage_members, assert_can_assign_role,
}
use open_instinct.Organizations.Members.{
  load_org_membership, actor_role, create_company_workspace, set_organization_member_role,
}
use open_instinct.Organizations.Invites.{
  audited, CreateInvite, write_invite, create_organization_invite, remove_member,
  remove_organization_member, set_organization_member_role_audited, revoke_invite,
  revoke_organization_invite,
}

-- A call that fails and writes nothing.
abbrev pub IsRefused : {A : Type 0} → Db → Answer A × Db → Type 0
IsRefused db (fail e, db') = db' ≡ db
IsRefused db (done a, db') = ⊥

-- The role of an actor who is no admin lets nothing pass.
no_manager : (role : Option CompanyRole) → role ≢ some admin → (role ≡ none) ⊎ (role ≡ some member)
no_manager none h = inl refl
no_manager (some admin) h = absurd (h refl)
no_manager (some member) h = inr refl

module _ (to_lower_case : Text → Text) (organization_id actor_user_id target_user_id : ℕ)
    (workspace_id invite_id receipt_id now : ℕ) (role : CompanyRole) (input : CreateInvite)
    (db : Db) where
  -- Who is no admin of an organization changes nothing in it: adding a workspace, changing a role,
  -- inviting, revoking an invitation and removing a member fail and write nothing, not even a
  -- receipt.
  pub not_admin-IsRefused :
      load_org_membership organization_id actor_user_id db ≢ some admin
      → input.organization_id ≡ organization_id
      → input.actor_user_id ≡ actor_user_id
      → IsRefused db (create_company_workspace organization_id workspace_id actor_user_id now db)
        × IsRefused db (
            set_organization_member_role_audited organization_id actor_user_id target_user_id role
              receipt_id now db)
        × IsRefused db (create_organization_invite to_lower_case input now db)
        × IsRefused db
            (revoke_organization_invite invite_id organization_id actor_user_id receipt_id now db)
        × IsRefused db (
            remove_organization_member organization_id actor_user_id target_user_id receipt_id now
              db)
  unfolding create_company_workspace set_organization_member_role_audited
      set_organization_member_role create_organization_invite write_invite
      revoke_organization_invite revoke_invite remove_organization_member remove_member actor_role
      assert_can_assign_role assert_can_manage_members can_manage_members audited with_transaction
  not_admin-IsRefused h same_organization same_actor =
      elim (no_manager (load_org_membership organization_id actor_user_id db) h) [
        | inl e ↦ rw (same_organization, same_actor) (rw e (refl, refl, refl, refl, refl))
        | inr e ↦ rw (same_organization, same_actor) (rw e (refl, refl, refl, refl, refl))
      ]
