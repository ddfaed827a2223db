-- ===== src/Organizations/Acceptance.antt =====
-- How an invitation makes a member.
use open_instinct.Base.{
  find_first-update_where, find_first-append_last, ℕ, ◌<◌, ◌≡◌, refl, ◌∙◌, inl, inr, Bool, true,
  false, Option, some, List, Text, text_eq, arith, find_first, find_first_sound, All-of, is_null,
  ltb, ltb→lt, Bool-cases, Option-cases, ◌==◌,
}
use mathlib.Core.Path.{subst}
use mathlib.Core.Option
use open_instinct.Base.Results.{fail, done, ensure, Holds, Holds-bind, with_transaction}
use open_instinct.Organizations.Rows.{Membership, Invite, AuditReceipt, Db, Answer}
use open_instinct.Organizations.Sso.{
  is_pending, GoogleLinkedIdentity, normalize_email, is_domain_allowed, assert_email_domain_allowed,
  assert_can_accept_org_invite,
}
use open_instinct.Organizations.Members.{is_membership_of, load_org_membership, upsert_membership}
use open_instinct.Organizations.Invites.{
  append_receipt, audited, find_invite, write_acceptance, accept_invite, accept_organization_invite,
}

-- A call that succeeds has appended its receipt to what its write has left.
audited-done :
    {A : Type 0} (run : Answer (A × Db)) (receipt : A → AuditReceipt) (a : A) (db db' : Db)
    → audited run receipt db ≡ (done a, db')
    → (d : Db) × (run ≡ done (a, d)) × (db'.memberships ≡ d.memberships) × (db'.invites ≡ d.invites)
unfolding audited append_receipt with_transaction
audited-done (fail x) receipt a db db' e = cc
audited-done (done (b, d)) receipt a db db' e =
    elim (Bool-cases
      (is_null (find_first (λ (r : AuditReceipt). r.id == (receipt b).id) d.receipts))) [
        | inl t ↦
            let k = rw (t, with_transaction) at e in (d, cc, ground (arith, k), ground (arith, k))
        | inr t ↦ let k = rw (t, with_transaction) at e in cc
      ]

pub upsert-finds :
    (new : Membership) (ms : List Membership)
    → Option.map
        (λ (m : Membership). m.role)
        (find_first (is_membership_of new.organization_id new.user_id) (upsert_membership new ms))
      ≡ some new.role
unfolding upsert_membership is_membership_of
upsert-finds new ms =
    let c = is_membership_of new.organization_id new.user_id in
    elim (Option-cases (find_first c ms)) [
      | inl e ↦ rw (e, upsert_membership) (rw (find_first-append_last c ms new e (ground arith)))
      | inr (m, e) ↦
          let p = find_first_sound (λ _. Unit {0}) c ms m (All-of _ (λ _. tt) ms) e in
          rw (e, upsert_membership)
            (rw
              (find_first-update_where c c (λ (m : Membership). record m { role = new.role })
                (λ r. refl) ms m e)
              (rw p.1))
    ]

-- What an acceptance asked for, and what it has made: `invite` was there, pending and unexpired, the
-- identity is the one it names, and the user has its role now.
pub record Accepts (to_lower_case : Text → Text) (invite_id : ℕ) (identity : GoogleLinkedIdentity)
    (now : ℕ) (allowed : Option (List Text)) (db db' : Db) (invite : Invite) : Type 0 where
  pub found : find_invite invite_id db ≡ some invite
  pub unsettled : is_pending invite.status ≡ true
  pub unexpired : now < invite.expires_at
  pub domain : is_domain_allowed to_lower_case invite.email allowed ≡ true
  pub verified : identity.email_verified ≡ true
  pub same_email :
      text_eq
        (normalize_email to_lower_case identity.email)
        (normalize_email to_lower_case invite.email)
      ≡ true
  pub linked : identity.has_google_account ≡ true
  pub joined : load_org_membership invite.organization_id identity.user_id db' ≡ some invite.role

module _ (to_lower_case : Text → Text) (invite_id : ℕ) (identity : GoogleLinkedIdentity) where
  ensured : {E : Type 0} (b : Bool) (e : E) (u : Unit {0}) → ensure b e ≡ done u → b ≡ true
  ensured true e u h = refl
  ensured false e u h = cc

  -- What the checks of an acceptance have passed.
  accept_checks :
      (invite : Invite) (now : ℕ) (allowed : Option (List Text)) (u : Unit {0})
      → assert_can_accept_org_invite to_lower_case invite identity now allowed ≡ done u
      → (is_pending invite.status ≡ true)
        × (ltb now invite.expires_at ≡ true)
        × (is_domain_allowed to_lower_case invite.email allowed ≡ true)
        × (identity.email_verified ≡ true)
        × (text_eq
              (normalize_email to_lower_case identity.email)
              (normalize_email to_lower_case invite.email)
            ≡ true)
        × (identity.has_google_account ≡ true)
  unfolding assert_can_accept_org_invite assert_email_domain_allowed
  accept_checks invite now allowed u e = ground arith

  acceptance-Accepts :
      (invite : Invite) (now : ℕ) (allowed : Option (List Text)) (db : Db) (u : Unit {0})
      → find_invite invite_id db ≡ some invite
      → assert_can_accept_org_invite to_lower_case invite identity now allowed ≡ done u
      → Accepts to_lower_case invite_id identity now allowed db
          (write_acceptance invite identity now db)
          invite
  unfolding write_acceptance load_org_membership
  acceptance-Accepts invite now allowed db u e t =
      let (a, b, c, d, f, g) = accept_checks invite now allowed u t in
      record {
        found = e;
        unsettled = a;
        unexpired = ltb→lt now invite.expires_at b;
        domain = c;
        verified = d;
        same_email = f;
        linked = g;
        joined = upsert-finds _ db.memberships;
      }

  accept_invite-Accepts :
      (now : ℕ) (allowed : Option (List Text)) (db : Db)
      → Holds
          (λ (x : Invite × Db). Accepts to_lower_case invite_id identity now allowed db x.1 x.0)
          (accept_invite to_lower_case invite_id identity now allowed db)
  unfolding accept_invite
  accept_invite-Accepts now allowed db = elim (Option-cases (find_invite invite_id db)) [
    | inl e ↦ rw e tt
    | inr (invite, e) ↦ rw e (
        Holds-bind _ (assert_can_accept_org_invite to_lower_case invite identity now allowed) _
          (λ u t. acceptance-Accepts invite now allowed db u e t))
  ]

  accepted-Accepts :
      (receipt_id now : ℕ) (allowed : Option (List Text)) (invite : Invite) (db db' : Db)
      → accept_organization_invite to_lower_case invite_id identity receipt_id now allowed db
        ≡ (done invite, db')
      → Accepts to_lower_case invite_id identity now allowed db db' invite
  unfolding accept_organization_invite load_org_membership
  accepted-Accepts receipt_id now allowed invite db db' e =
      let (d, run, members, invites) =
        audited-done (accept_invite to_lower_case invite_id identity now allowed db) _ invite db db'
          e in
      let a =
        subst
          (Holds
            (λ (x : Invite × Db). Accepts to_lower_case invite_id identity now allowed db x.1 x.0))
          run (accept_invite-Accepts now allowed db) in
      record {
        found = a.found;
        unsettled = a.unsettled;
        unexpired = a.unexpired;
        domain = a.domain;
        verified = a.verified;
        same_email = a.same_email;
        linked = a.linked;
        joined =
            (λ i.
              Option.map (λ (m : Membership). m.role)
                (find_first (is_membership_of invite.organization_id identity.user_id) (members i)))
            ∙ a.joined;
      }

-- An acceptance that succeeds is of a pending invitation that has not expired, whose address is of an
-- allowed domain, by an identity with a Google account and a verified address, which is that of the
-- invitation once both are normalized; after it the user has the role of the invitation in its
-- organization.
pub accept-Accepts :
    (to_lower_case : Text → Text) (invite_id : ℕ) (identity : GoogleLinkedIdentity)
    (receipt_id now : ℕ) (allowed : Option (List Text)) (invite : Invite) (db db' : Db)
    → accept_organization_invite to_lower_case invite_id identity receipt_id now allowed db
      ≡ (done invite, db')
    → Accepts to_lower_case invite_id identity now allowed db db' invite
accept-Accepts to_lower_case invite_id identity receipt_id now allowed invite db db' e =
    accepted-Accepts to_lower_case invite_id identity receipt_id now allowed invite db db' e
