-- ===== src/Organizations/Steps.antt =====
-- The calls on organizations, each run alone; Overlap.antt is about calls that overlap.
use open_instinct.Base.{
  Extends, Extends-refl, Extends-append, Extends-update_where, ℕ, ◌≡◌, refl, inl, inr, true, false,
  Option, List, [], ◌∷◌, Text, arith, All-of, find_first, is_null, Bool-cases, ◌==◌,
}
use open_instinct.Base.Results.{
  fail, done, ensure, found_or, ◌>>=◌, Holds, Holds-bind, with_transaction, with_transaction-Holds,
}
use mathlib.Core.Path.{subst, sym}
use open_instinct.Organizations.Rows.{
  CompanyRole, admin, company, WorkspaceRole, Organization, Workspace, Invite, AuditReceipt, Db,
  Answer, revoked,
}
use open_instinct.Organizations.Rbac.{
  assert_can_manage_members, assert_can_assign_role, shared, assert_workspace_role_for_kind,
}
use open_instinct.Organizations.Sso.{
  is_pending, GoogleLinkedIdentity, assert_email_domain_allowed, assert_can_accept_org_invite,
}
use open_instinct.Organizations.Members.{
  load_org_membership, is_workspace_membership_of, actor_role, create_organization,
  create_company_workspace, set_organization_member_role, set_workspace_member_role,
  load_workspace_membership, kind_of,
}
use open_instinct.Organizations.Invites.{
  append_receipt, audited, find_invite, CreateInvite, write_invite, create_organization_invite,
  accepted_invite, write_acceptance, accept_invite, accept_organization_invite, remove_member,
  remove_organization_member, set_organization_member_role_audited, revoke_invite,
  revoke_organization_invite,
}

-- What a call may do to an invitation: it is never pending again.
pub record InviteMoves (i j : Invite) : Type 0 where
  pub same_id : j.id ≡ i.id
  pub same_organization : j.organization_id ≡ i.organization_id
  pub same_email : j.email ≡ i.email
  pub same_role : j.role ≡ i.role
  pub same_expiry : j.expires_at ≡ i.expires_at
  pub settled : is_pending i.status ≡ false → is_pending j.status ≡ false

pub record Audited (db db' : Db) : Type 0 where
  pub receipts : Extends ◌≡◌ (λ (r : AuditReceipt). Unit) db.receipts db'.receipts
  pub invites : Extends InviteMoves (λ i. is_pending i.status ≡ true) db.invites db'.invites

pub InviteMoves-refl : (i : Invite) → InviteMoves i i
InviteMoves-refl i = record {
  same_id = refl;
  same_organization = refl;
  same_email = refl;
  same_role = refl;
  same_expiry = refl;
  settled = λ e. e;
}

pub accepted-InviteMoves : (user_id : ℕ) (i : Invite) → InviteMoves i (accepted_invite user_id i)
unfolding accepted_invite
accepted-InviteMoves user_id i = ground arith

pub revoked-InviteMoves : (i : Invite) → InviteMoves i (record i { status = revoked })
revoked-InviteMoves i = ground arith

-- A call that writes neither table.
unwritten : (db : Db) → Audited db db
unwritten db = record {
  receipts = Extends-refl ◌≡◌ _ (λ r. refl) db.receipts;
  invites = Extends-refl InviteMoves _ InviteMoves-refl db.invites;
}

same_tables : (db db' : Db) → db'.receipts ≡ db.receipts → db'.invites ≡ db.invites → Audited db db'
same_tables db db' r i = record {
  receipts =
      subst (Extends ◌≡◌ (λ _. Unit) db.receipts) (sym r)
        (Extends-refl ◌≡◌ _ (λ x. refl) db.receipts);
  invites =
      subst (Extends InviteMoves (λ i. is_pending i.status ≡ true) db.invites) (sym i)
        (Extends-refl InviteMoves _ InviteMoves-refl db.invites);
}

-- A receipt after a write that leaves the receipts.
audited-Audited :
    {A : Type 0} (run : Answer (A × Db)) (receipt : A → AuditReceipt) (db : Db)
    → Holds (λ (x : A × Db). (x.1.receipts ≡ db.receipts) × Audited db x.1) run
    → Audited db (audited run receipt db).1
unfolding audited append_receipt with_transaction
audited-Audited (fail e) receipt db h = unwritten db
audited-Audited (done (a, db')) receipt db h =
    elim (Bool-cases
      (is_null (find_first (λ (r : AuditReceipt). r.id == (receipt a).id) db'.receipts))) [
        | inr e ↦ rw (e, with_transaction) (h.1)
        | inl e ↦
            rw (e, with_transaction)
              (record {
                receipts = rw h.0 (
                    Extends-append ◌≡◌ (λ _. Unit) (λ r. refl) db.receipts (receipt a ∷ [])
                      (tt, tt));
                invites = h.1.invites;
              })
      ]

module _ (to_lower_case : Text → Text) where
  pub data Step (db : Db) : Db → Type 0 where
    creates :
        (organization_id : ℕ) (name : Text) (admin_user_id now : ℕ)
        → Step db (create_organization organization_id name admin_user_id now db).1
    adds_workspace :
        (organization_id workspace_id actor_user_id now : ℕ)
        → Step db (create_company_workspace organization_id workspace_id actor_user_id now db).1
    sets_role :
        (organization_id actor_user_id target_user_id : ℕ) (role : CompanyRole) (receipt_id now : ℕ)
        → Step db
            (set_organization_member_role_audited organization_id actor_user_id target_user_id role
              receipt_id now db).1
    sets_workspace_role :
        (workspace_id actor_user_id target_user_id : ℕ) (role : WorkspaceRole) (now : ℕ)
        → Step db
            (set_workspace_member_role workspace_id actor_user_id target_user_id role now db).1
    invites :
        (input : CreateInvite) (now : ℕ)
        → Step db (create_organization_invite to_lower_case input now db).1
    accepts :
        (invite_id : ℕ) (identity : GoogleLinkedIdentity) (receipt_id now : ℕ)
        (allowed : Option (List Text))
        → Step db
            (accept_organization_invite to_lower_case invite_id identity receipt_id now allowed
              db).1
    revokes :
        (invite_id organization_id actor_user_id receipt_id now : ℕ)
        → Step db
            (revoke_organization_invite invite_id organization_id actor_user_id receipt_id now db).1
    removes :
        (organization_id actor_user_id target_user_id receipt_id now : ℕ)
        → Step db
            (remove_organization_member organization_id actor_user_id target_user_id receipt_id now
              db).1

  accept-Audited :
      (invite_id : ℕ) (identity : GoogleLinkedIdentity) (now : ℕ) (allowed : Option (List Text))
      (db : Db)
      → Holds
          (λ (x : Invite × Db). (x.1.receipts ≡ db.receipts) × Audited db x.1)
          (accept_invite to_lower_case invite_id identity now allowed db)
  unfolding accept_invite write_acceptance accepted_invite
  accept-Audited invite_id identity now allowed db =
      Holds-bind _ (found_or _ (find_invite invite_id db)) _ (λ invite _.
        Holds-bind _ (assert_can_accept_org_invite to_lower_case invite identity now allowed) _
          (λ _ _. (
            refl,
            record {
              receipts = Extends-refl ◌≡◌ _ (λ r. refl) db.receipts;
              invites =
                  Extends-update_where InviteMoves _ InviteMoves-refl _
                    (accepted_invite identity.user_id) db.invites
                    (All-of _ (λ i _. accepted-InviteMoves identity.user_id i) db.invites);
            },
          )))

  write_invite-Audited :
      (input : CreateInvite) (now : ℕ) (db : Db)
      → Holds
          (λ (x : ℕ × Db). (x.1.receipts ≡ db.receipts) × Audited db x.1)
          (write_invite to_lower_case input now db)
  unfolding write_invite
  write_invite-Audited input now db =
      Holds-bind _ (actor_role input.organization_id input.actor_user_id db) _ (λ actor _.
        Holds-bind _ (assert_can_assign_role (company actor) (company input.role)) _ (λ _ _.
          Holds-bind _ (assert_email_domain_allowed to_lower_case _ input.allowed_domains) _ (λ _ _.
            Holds-bind _ (ensure (is_null (find_invite input.invite_id db)) _) _ (λ _ _. (
              refl,
              record {
                receipts = Extends-refl ◌≡◌ _ (λ r. refl) db.receipts;
                invites = Extends-append InviteMoves _ InviteMoves-refl db.invites _ (refl, tt);
              },
            )))))

  revoke-Audited :
      (invite_id organization_id actor_user_id : ℕ) (db : Db)
      → Holds
          (λ (x : Invite × Db). (x.1.receipts ≡ db.receipts) × Audited db x.1)
          (revoke_invite invite_id organization_id actor_user_id db)
  unfolding revoke_invite
  revoke-Audited invite_id organization_id actor_user_id db =
      Holds-bind _ (actor_role organization_id actor_user_id db) _ (λ actor _.
        Holds-bind _ (assert_can_manage_members (company actor)) _ (λ _ _.
          Holds-bind _ (found_or _ (find_invite invite_id db)) _ (λ invite _.
            Holds-bind _ (ensure (invite.organization_id == organization_id) _) _ (λ _ _. (
              refl,
              record {
                receipts = Extends-refl ◌≡◌ _ (λ r. refl) db.receipts;
                invites =
                    Extends-update_where InviteMoves _ InviteMoves-refl _ _ db.invites
                      (All-of _ (λ i _. revoked-InviteMoves i) db.invites);
              },
            )))))

  -- The change of a role, as its receipt finds it.
  set_role-Audited :
      (organization_id actor_user_id target_user_id : ℕ) (role : CompanyRole) (now : ℕ) (db : Db)
      → let x =
          set_organization_member_role organization_id actor_user_id target_user_id role now db in
        Holds
          (λ (y : Unit {0} × Db). (y.1.receipts ≡ db.receipts) × Audited db y.1)
          (x.0 >>= λ _. done (tt, x.1))
  unfolding set_organization_member_role
  set_role-Audited organization_id actor_user_id target_user_id role now db =
      Holds-bind _
        (set_organization_member_role organization_id actor_user_id target_user_id role now db).0 _
        (λ _ _.
          with_transaction-Holds (λ y. (y.receipts ≡ db.receipts) × Audited db y) db _
            (refl, unwritten db)
            (Holds-bind _ (actor_role organization_id actor_user_id db) _ (λ actor _.
              Holds-bind _ (assert_can_assign_role (company actor) (company role)) _
                (λ _ _. (refl, same_tables db _ refl refl)))))

  -- Every call on organizations that runs alone, also one that fails, only appends to the receipts of the audit, and
  -- keeps each invitation at its place with its organization, address, role and expiry: one that is
  -- not pending is never pending again.
  pub Step-Audited : {db db' : Db} → Step db db' → Audited db db'
  unfolding create_organization create_company_workspace set_organization_member_role_audited
      set_organization_member_role set_workspace_member_role create_organization_invite
      accept_organization_invite revoke_organization_invite remove_organization_member remove_member
  Step-Audited {db} (creates organization_id name admin_user_id now) =
      with_transaction-Holds (Audited db) db _ (unwritten db) (
        Holds-bind _
          (ensure
            (is_null (find_first (λ (o : Organization). o.id == organization_id) db.organizations))
            _)
          _
          (λ _ _.
            Holds-bind _ (ensure (is_null (load_org_membership organization_id admin_user_id db)) _)
              _ (λ _ _. same_tables db _ refl refl)))
  Step-Audited {db} (adds_workspace organization_id workspace_id actor_user_id now) =
      with_transaction-Holds (Audited db) db _ (unwritten db) (
        Holds-bind _ (actor_role organization_id actor_user_id db) _ (λ role _.
          Holds-bind _ (assert_can_manage_members (company role)) _ (λ _ _.
            Holds-bind _ (assert_workspace_role_for_kind shared (company admin)) _ (λ _ _.
              Holds-bind _
                (ensure
                  (is_null (find_first (λ (w : Workspace). w.id == workspace_id) db.workspaces)) _)
                _
                (λ _ _.
                  Holds-bind _
                    (ensure
                      (is_null (
                        find_first (is_workspace_membership_of workspace_id actor_user_id)
                          db.workspace_memberships))
                      _)
                    _ (λ _ _. same_tables db _ refl refl))))))
  Step-Audited {db} (sets_role organization_id actor_user_id target_user_id role receipt_id now) =
      audited-Audited _ _ db
        (set_role-Audited organization_id actor_user_id target_user_id role now db)
  Step-Audited {db} (sets_workspace_role workspace_id actor_user_id target_user_id role now) =
      with_transaction-Holds (Audited db) db _ (unwritten db) (
        Holds-bind _ (found_or _ (load_workspace_membership workspace_id actor_user_id db)) _
          (λ actor _. Holds-bind _ (assert_workspace_role_for_kind (kind_of actor.1) role) _ (λ _ _.
            Holds-bind _ (assert_can_assign_role actor.0 role) _
              (λ _ _. same_tables db _ refl refl))))
  Step-Audited {db} (invites input now) =
      audited-Audited (write_invite to_lower_case input now db) _ db
        (write_invite-Audited input now db)
  Step-Audited {db} (accepts invite_id identity receipt_id now allowed) =
      audited-Audited (accept_invite to_lower_case invite_id identity now allowed db) _ db
        (accept-Audited invite_id identity now allowed db)
  Step-Audited {db} (revokes invite_id organization_id actor_user_id receipt_id now) =
      audited-Audited (revoke_invite invite_id organization_id actor_user_id db) _ db
        (revoke-Audited invite_id organization_id actor_user_id db)
  Step-Audited {db} (removes organization_id actor_user_id target_user_id receipt_id now) =
      audited-Audited (remove_member organization_id actor_user_id target_user_id db) _ db (
        Holds-bind _ (actor_role organization_id actor_user_id db) _ (λ actor _.
          Holds-bind _ (assert_can_manage_members (company actor)) _
            (λ _ _. (refl, same_tables db _ refl refl))))
