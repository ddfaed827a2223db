-- ===== src/Organizations/Overlap.antt =====
-- Calls on organizations that overlap. A call reads and checks first, and writes later without a
-- second look, whatever the other calls have done in between; its receipt comes last.
use open_instinct.Base.{
  find_first_sound, find_first-update_where, Extends, Extends-refl, Extends-append,
  Extends-update_where, ℕ, ◌≡◌, refl, ◌∙◌, inl, inr, true, false, Option, some, List, [], ◌∷◌, ◌++◌,
  Text, arith, find_first, update_where, All-of, Bool-cases, ◌==◌,
}
use mathlib.Core.Path.{subst, sym}
use open_instinct.Organizations.Rows.{Invite, Db, revoked}
use open_instinct.Organizations.Sso.{is_pending, GoogleLinkedIdentity, assert_can_accept_org_invite}
use open_instinct.Organizations.Members.{load_org_membership}
use open_instinct.Organizations.Invites.{
  audited, find_invite, accepted_invite, write_acceptance, accept_invite,
  accept_organization_invite,
}
use open_instinct.Organizations.Steps.{
  InviteMoves, InviteMoves-refl, accepted-InviteMoves, revoked-InviteMoves, Step, Step-Audited,
}
use open_instinct.Organizations.Access.{IsRefused}
use open_instinct.Organizations.Acceptance.{upsert-finds}

-- An invitation that is not pending.
abbrev IsSettled : ℕ → Db → Type 0
IsSettled invite_id db =
    (invite : Invite) × (find_invite invite_id db ≡ some invite)
    × (is_pending invite.status ≡ false)

extended_invite :
    (id : ℕ) (is js : List Invite) (i : Invite)
    → Extends InviteMoves (λ j. is_pending j.status ≡ true) is js
    → find_first (λ (j : Invite). j.id == id) is ≡ some i
    → (j : Invite) × (find_first (λ (x : Invite). x.id == id) js ≡ some j) × InviteMoves i j
extended_invite id [] js i e f = cc
extended_invite id (x ∷ is) [] i e f = absurd e
extended_invite id (x ∷ is) (y ∷ js) i e f =
    let same : y.id ≡ x.id = (e.0).same_id in
    elim (Bool-cases (x.id == id)) [
      | inl t ↦
          let here : x ≡ i = ground (arith, rw t at f) in
          (y, rw (same, t), subst (λ z. InviteMoves z y) here e.0)
      | inr t ↦ let (j, g, k) = extended_invite id is js i e.1 (rw t at f) in (j, rw (same, t) g, k)
    ]

-- A whole call, or the write alone of one that has read and checked before: of an acceptance, with
-- the invitation as it was read, of a revocation, of a new invitation, or of the tables other than
-- that of the invitations.
pub data Turn (to_lower_case : Text → Text) (db : Db) : Db → Type 0 where
  calls : {db' : Db} → Step to_lower_case db db' → Turn to_lower_case db db'
  writes_acceptance :
      (invite : Invite) (identity : GoogleLinkedIdentity) (now : ℕ)
      → Turn to_lower_case db (write_acceptance invite identity now db)
  writes_revocation :
      (invite_id : ℕ)
      → Turn to_lower_case db (record db {
        invites =
            update_where
              (λ (i : Invite). i.id == invite_id)
              (λ (i : Invite). record i { status = revoked })
              db.invites;
      })
  writes_invite :
      (invite : Invite)
      → is_pending invite.status ≡ true
      → Turn to_lower_case db (record db { invites = db.invites ++ invite ∷ [] })
  writes_elsewhere : {db' : Db} → db'.invites ≡ db.invites → Turn to_lower_case db db'

pub data Reach (to_lower_case : Text → Text) (db : Db) : Db → Type 0 where
  here : Reach to_lower_case db db
  next : {d e : Db} → Reach to_lower_case db d → Turn to_lower_case d e → Reach to_lower_case db e

Turn-Extends :
    (to_lower_case : Text → Text) {db db' : Db}
    → Turn to_lower_case db db'
    → Extends InviteMoves (λ i. is_pending i.status ≡ true) db.invites db'.invites
unfolding write_acceptance
Turn-Extends lower (calls step) = (Step-Audited lower step).invites
Turn-Extends lower {db} (writes_acceptance invite identity now) =
    Extends-update_where InviteMoves _ InviteMoves-refl _ (accepted_invite identity.user_id)
      db.invites (All-of _ (λ i _. accepted-InviteMoves identity.user_id i) db.invites)
Turn-Extends lower {db} (writes_revocation invite_id) =
    Extends-update_where InviteMoves _ InviteMoves-refl _ _ db.invites
      (All-of _ (λ i _. revoked-InviteMoves i) db.invites)
Turn-Extends lower {db} (writes_invite invite fresh) =
    Extends-append InviteMoves _ InviteMoves-refl db.invites _ (fresh, tt)
Turn-Extends lower {db} (writes_elsewhere same) =
    subst (Extends InviteMoves (λ i. is_pending i.status ≡ true) db.invites) (sym same)
      (Extends-refl InviteMoves _ InviteMoves-refl db.invites)

Reach-IsSettled :
    (to_lower_case : Text → Text) (invite_id : ℕ) {db db' : Db}
    → IsSettled invite_id db
    → Reach to_lower_case db db'
    → IsSettled invite_id db'
Reach-IsSettled lower invite_id s here = s
Reach-IsSettled lower invite_id s (next {d} {e} r t) =
    let (i, found, settled) = Reach-IsSettled lower invite_id s r in
    let (j, g, k) = extended_invite invite_id d.invites e.invites i (Turn-Extends lower t) found in
    (j, g, k.settled settled)

settled-IsRefused :
    (to_lower_case : Text → Text) (invite_id : ℕ) (identity : GoogleLinkedIdentity)
    (receipt_id now : ℕ) (allowed : Option (List Text)) (db : Db)
    → IsSettled invite_id db
    → IsRefused db
        (accept_organization_invite to_lower_case invite_id identity receipt_id now allowed db)
unfolding accept_organization_invite accept_invite assert_can_accept_org_invite audited
settled-IsRefused lower invite_id identity receipt_id now allowed db (i, found, settled) =
    rw found (rw settled refl)

module _ (invite row : Invite) (identity : GoogleLinkedIdentity) (now : ℕ) (db : Db)
    (found : find_invite invite.id db ≡ some row) where
  written_row :
      find_invite invite.id (write_acceptance invite identity now db)
      ≡ some (accepted_invite identity.user_id row)
  unfolding write_acceptance accepted_invite
  written_row =
      find_first-update_where (λ i. i.id == invite.id) (λ i. i.id == invite.id)
        (accepted_invite identity.user_id) (λ i. refl) db.invites row found
      ∙ rw
          (find_first_sound (λ _. Unit {0}) (λ (i : Invite). i.id == invite.id) db.invites row
            (All-of _ (λ _. tt) db.invites) found).1
          refl

-- The write of an acceptance does not ask for the status of its invitation: where the table has the
-- invitation, whatever its status is by then (it may have been revoked after it was read), it is
-- accepted by the user, who has the role that was read in the organization that was read.
pub late_acceptance-joins :
    (invite row : Invite) (identity : GoogleLinkedIdentity) (now : ℕ) (db : Db)
    → find_invite invite.id db ≡ some row
    → (find_invite invite.id (write_acceptance invite identity now db)
        ≡ some (accepted_invite identity.user_id row))
      × (load_org_membership invite.organization_id identity.user_id
            (write_acceptance invite identity now db)
          ≡ some invite.role)
unfolding write_acceptance load_org_membership
late_acceptance-joins invite row identity now db found =
    (written_row invite row identity now db found, upsert-finds _ db.memberships)

-- Once an acceptance of an invitation of the table has written, and after any sequence of calls, also
-- overlapping ones that write on the strength of what they read before, every acceptance that reads
-- the invitation from then on fails and writes nothing.
pub Reach-accept-IsRefused :
    (to_lower_case : Text → Text) (invite row : Invite) (identity again : GoogleLinkedIdentity)
    (now receipt_id later : ℕ) (allowed : Option (List Text)) (db db' : Db)
    → find_invite invite.id db ≡ some row
    → Reach to_lower_case (write_acceptance invite identity now db) db'
    → IsRefused db'
        (accept_organization_invite to_lower_case invite.id again receipt_id later allowed db')
unfolding accepted_invite
Reach-accept-IsRefused lower invite row identity again now receipt_id later allowed db db' found r =
    settled-IsRefused lower invite.id again receipt_id later allowed db' (
      Reach-IsSettled lower invite.id
        (accepted_invite identity.user_id row, written_row invite row identity now db found, refl)
        r)
