-- ===== src/Organizations/Tests.antt =====
-- An organization of one admin, and an invitation that is accepted, with addresses in lower case.
use open_instinct.Base.{◌≡◌, ◌≢◌, refl, true, none, some, [], ◌∷◌, Text, text_eq, trim}
use open_instinct.Base.Results.{done, with_transaction}
use open_instinct.Organizations.Rows.{
  company, admin, member, Invite, pending, accepted, revoked, Db, invite_accepted,
}
use open_instinct.Organizations.Rbac.{assert_can_manage_members, can_manage_members}
use open_instinct.Organizations.Sso.{
  GoogleLinkedIdentity, normalize_email, assert_email_domain_allowed, assert_can_accept_org_invite,
}
use open_instinct.Organizations.Members.{
  load_org_membership, is_membership_of, upsert_membership, create_company_workspace,
  set_workspace_member_role, actor_role,
}
use open_instinct.Organizations.Invites.{
  CreateInvite, create_organization_invite, accept_organization_invite, accept_invite,
  write_acceptance, accepted_invite, audited, append_receipt, invite_receipt, find_invite,
  revoke_invite, remove_organization_member, set_organization_member_role_audited,
  revoke_organization_invite,
}
use open_instinct.Organizations.Steps.{Audited, Step-Audited, accepts}
use open_instinct.Organizations.Overlap.{
  writes_acceptance, here, next, late_acceptance-joins, Reach-accept-IsRefused,
}
use open_instinct.Organizations.Access.{IsRefused, not_admin-IsRefused}
use open_instinct.Organizations.Roles.{RolesFit, workspace_calls-RolesFit}
use open_instinct.Organizations.Acceptance.{Accepts, accept-Accepts}

abbrev lower : Text → Text
lower text = text

abbrev address : Text
address = 97 ∷ 64 ∷ 98 ∷ []

abbrev invitation : Invite
invitation = record {
  id = 7;
  organization_id = 1;
  email = address;
  role = member;
  invited_by_user_id = 2;
  status = pending;
  accepted_user_id = none;
  expires_at = 1000;
  created_at = 10;
}

abbrev invited : Db
invited = record {
  organizations = record { id = 1; name = 111 ∷ []; created_at = 0 } ∷ [];
  memberships = record { organization_id = 1; user_id = 2; role = admin; created_at = 0 } ∷ [];
  workspaces = [];
  workspace_memberships = [];
  invites = invitation ∷ [];
  receipts = [];
}

abbrev guest : GoogleLinkedIdentity
guest = record {
  user_id = 3;
  email = 32 ∷ address;
  email_verified = true;
  has_google_account = true;
}

abbrev joined : Db
joined = record invited {
  memberships =
      record { organization_id = 1; user_id = 2; role = admin; created_at = 0 }
      ∷ record { organization_id = 1; user_id = 3; role = member; created_at = 500 }
      ∷ [];
  invites = record invitation { status = accepted; accepted_user_id = some 3 } ∷ [];
  receipts =
      record {
        id = 9;
        organization_id = 1;
        actor_user_id = 3;
        action = invite_accepted;
        target_user_id = some 3;
        target_email = some address;
        invite_id = some 7;
        role = some member;
        created_at = 500;
      }
      ∷ [];
}

acceptance : accept_organization_invite lower 7 guest 9 500 none invited ≡ (done invitation, joined)
unfolding accept_organization_invite accept_invite assert_can_accept_org_invite
    assert_email_domain_allowed normalize_email trim text_eq write_acceptance accepted_invite
    upsert_membership is_membership_of audited append_receipt invite_receipt with_transaction
acceptance = refl

accept-Accepts_example : Accepts lower 7 guest 500 none invited joined invitation
accept-Accepts_example =
    accept-Accepts lower 7 guest 9 500 none invitation invited joined acceptance

Step-Audited_example :
    Audited invited (accept_organization_invite lower 7 guest 9 500 none invited).1
Step-Audited_example = Step-Audited lower (accepts 7 guest 9 500 none)

-- The admin revokes the invitation after the guest's acceptance has read it.
abbrev overtaken : Db
overtaken = (revoke_organization_invite 7 1 2 10 450 invited).1

overtaken_row : find_invite 7 overtaken ≡ some (record invitation { status = revoked })
unfolding revoke_organization_invite revoke_invite audited append_receipt with_transaction
    invite_receipt actor_role load_org_membership is_membership_of assert_can_manage_members
    can_manage_members
overtaken_row = refl

late_acceptance-joins_example :
    (find_invite 7 (write_acceptance invitation guest 500 overtaken)
      ≡ some (accepted_invite 3 (record invitation { status = revoked })))
    × (load_org_membership 1 3 (write_acceptance invitation guest 500 overtaken) ≡ some member)
late_acceptance-joins_example =
    late_acceptance-joins invitation (record invitation { status = revoked }) guest 500 overtaken
      overtaken_row

-- Of two acceptances that have read before either writes, both write.
Reach-accept-IsRefused_example :
    let twice =
      write_acceptance invitation
        (record guest { user_id = 4 })
        600
        (write_acceptance invitation guest 500 invited) in
    IsRefused twice (accept_organization_invite lower 7 guest 11 700 none twice)
Reach-accept-IsRefused_example =
    Reach-accept-IsRefused lower invitation invitation guest guest 500 11 700 none invited
      (write_acceptance invitation (record guest { user_id = 4 }) 600
        (write_acceptance invitation guest 500 invited))
      refl (next here (writes_acceptance invitation (record guest { user_id = 4 }) 600))

abbrev another : CreateInvite
another = record {
  invite_id = 8;
  organization_id = 1;
  actor_user_id = 3;
  email = address;
  role = admin;
  expires_at = 1000;
  receipt_id = 12;
  allowed_domains = none;
}

guest_no_admin : load_org_membership 1 3 joined ≢ some admin
unfolding load_org_membership is_membership_of
guest_no_admin e = cc

not_admin-IsRefused_example :
    IsRefused joined (create_company_workspace 1 5 3 800 joined)
    × IsRefused joined (set_organization_member_role_audited 1 3 2 admin 12 800 joined)
    × IsRefused joined (create_organization_invite lower another 800 joined)
    × IsRefused joined (revoke_organization_invite 7 1 3 12 800 joined)
    × IsRefused joined (remove_organization_member 1 3 2 12 800 joined)
not_admin-IsRefused_example =
    not_admin-IsRefused lower 1 3 2 5 7 12 800 admin another joined guest_no_admin refl refl

abbrev shared_workspace : Db
shared_workspace = record joined {
  workspaces = record { id = 5; organization_id = some 1; created_at = 600 } ∷ [];
  workspace_memberships =
      record { workspace_id = 5; user_id = 2; role = company admin; created_at = 600 } ∷ [];
}

workspace_calls-RolesFit_example :
    RolesFit (create_company_workspace 1 5 2 800 shared_workspace).1
    × RolesFit (set_workspace_member_role 5 2 3 (company member) 800 shared_workspace).1
workspace_calls-RolesFit_example =
    workspace_calls-RolesFit 1 5 2 3 (company member) 800 shared_workspace
      ((record { id = 5; organization_id = some 1; created_at = 600 }, refl, refl), tt)
