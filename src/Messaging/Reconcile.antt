-- ===== src/Messaging/Reconcile.antt =====
-- A decision of the operator on an uncertain message that is sent again: it answers the same, and is
-- written to the audit once.
use open_instinct.Base.{
  find_first-update_where, ℕ, ◌+◌, ◌≡◌, refl, ◌∙◌, ap, inl, inr, Bool, true, false, some, List, [],
  ◌∷◌, ◌++◌, text_eq_refl, arith, update_where, find_first, find_first_sound, Option-cases, ◌==◌,
  is_null, IsOnlyRow, DistinctIds-IsOnlyRow,
}
use mathlib.Core.Path.{subst}
use open_instinct.Base.Results.{
  done, Holds, Holds-bind, Holds-if, with_transaction, with_transaction-done,
}
use open_instinct.Messaging.Rows.{
  Message, Db, outbox, CancelReason, operator_cancelled, duplicate_confirmed, abandoned,
  decode_receipt, is_uncertain,
}
use open_instinct.Messaging.Queue.{lock_active, find_message}
use open_instinct.Messaging.Resolve.{
  Decision, mark_delivered, cancel, authorize_retry, ResolveInput, lock_for, same_reason,
  is_cancelled_by, is_authorized, is_resolved_by, resolution_of, resolved_message, is_unresolved,
  write_resolution, settled_answer, is_row_of, resolve_row, resolve_uncertain,
}
use open_instinct.Messaging.Invariant.{DbOk}
use open_instinct.Messaging.Replay.{finds}

same_reason_refl : (reason : CancelReason) → same_reason reason reason ≡ true
unfolding same_reason
same_reason_refl operator_cancelled = refl
same_reason_refl duplicate_confirmed = refl
same_reason_refl abandoned = refl

-- A row that a decision was written to shows the decision.
resolved-shows :
    (decision : Decision) (now : ℕ) (m : Message)
    → is_resolved_by decision
        (resolved_message decision now m).status
        (resolved_message decision now m)
      ≡ true
unfolding is_resolved_by resolved_message is_cancelled_by is_authorized
resolved-shows (mark_delivered id) now m = text_eq_refl id
resolved-shows (cancel reason) now m = same_reason_refl reason
resolved-shows authorize_retry now m = refl

resolved-certain :
    (decision : Decision) (now : ℕ) (m : Message)
    → is_uncertain (resolved_message decision now m).status ≡ false
unfolding resolved_message
resolved-certain (mark_delivered id) now m = refl
resolved-certain (cancel reason) now m = refl
resolved-certain authorize_retry now m = refl

-- The one row with its id is what a query finds that asks for the id.
only-found :
    (c c' : Message → Bool) (ms : List Message) (row : Message)
    → IsOnlyRow (λ (m : Message). m.id) ms row
    → find_first c ms ≡ some row
    → c' row ≡ true
    → ((m : Message) → c' m ≡ true → (m.id == row.id) ≡ true)
    → find_first c' ms ≡ some row
only-found c c' ms row only e t ids = elim (Option-cases (find_first c' ms)) [
  | inl f ↦
      let found : is_null (find_first c' ms) ≡ false = finds c c' ms row e t in
      absurd (ground (arith, rw f at found))
  | inr (n, f) ↦
      let p = find_first_sound (λ r. (r.id == row.id) ≡ true → r ≡ row) c' ms n only f in
      f ∙ ap some (p.0 (ids n p.1))
]

unresolved_row :
    (id identity_id : ℕ) (m : Message)
    → is_row_of id identity_id m ≡ true
    → is_uncertain m.status ≡ true
    → is_unresolved id m ≡ true
unfolding is_row_of is_unresolved
unresolved_row id identity_id m e u = ground arith

row_id :
    (id identity_id : ℕ) (m : Message) → is_row_of id identity_id m ≡ true → (m.id == id) ≡ true
unfolding is_row_of
row_id id identity_id m e = ground arith

unresolved_id :
    (id : ℕ) (m n : Message)
    → (n.id == id) ≡ true
    → is_unresolved id m ≡ true
    → (m.id == n.id) ≡ true
unfolding is_unresolved
unresolved_id id m n e t = ground arith

resolved-is_row_of :
    (decision : Decision) (now id identity_id : ℕ) (m : Message)
    → is_row_of id identity_id (resolved_message decision now m) ≡ is_row_of id identity_id m
unfolding resolved_message is_row_of
resolved-is_row_of (mark_delivered _) now id identity_id m = refl
resolved-is_row_of (cancel _) now id identity_id m = refl
resolved-is_row_of authorize_retry now id identity_id m = refl

resolved-same_id :
    (decision : Decision) (now id : ℕ) (m : Message)
    → ((resolved_message decision now m).id == id) ≡ (m.id == id)
unfolding resolved_message
resolved-same_id (mark_delivered _) now id m = refl
resolved-same_id (cancel _) now id m = refl
resolved-same_id authorize_retry now id m = refl

-- A decision that finds its row settled by it.
settled-again :
    (input : ResolveInput) (now : ℕ) (db : Db) (m m' : Message)
    → lock_for input db ≡ done tt
    → find_first (is_row_of input.id input.identity_id) db.outbox ≡ some m
    → is_uncertain m.status ≡ false
    → is_resolved_by input.decision m.status m ≡ true
    → find_message input.id db.outbox ≡ some m
    → decode_receipt m ≡ done m'
    → resolve_row input now db ≡ done (m', db)
unfolding resolve_row settled_answer
settled-again input now db m m' locked found certain shown listed decoded =
    rw (locked, found, certain, shown) (rw (listed, decoded))

module _ (input : ResolveInput) (now now' : ℕ) (db : Db) (h : DbOk db) where
  -- A decision locks no more than the identities.
  relocked :
      (row : Message)
      → lock_for input db ≡ done tt
      → lock_for input (record db {
        outbox =
            update_where (is_unresolved input.id) (resolved_message input.decision now) db.outbox;
        resolutions = db.resolutions ++ resolution_of db.next_uuid input row ∷ [];
        next_uuid = db.next_uuid + 1;
      })
        ≡ done tt
  unfolding lock_for lock_active
  relocked row e = e

  -- The same decision, after it was written to the row.
  written-again :
      (row : Message)
      → lock_for input db ≡ done tt
      → find_first (is_row_of input.id input.identity_id) db.outbox ≡ some row
      → is_uncertain row.status ≡ true
      → Holds
          (λ (x : Message × Db). resolve_row input now' x.1 ≡ done x)
          (write_resolution input row now db)
  unfolding write_resolution
  written-again row locked found open_row =
      let c = is_unresolved input.id in
      let f = resolved_message input.decision now in
      let c' = is_row_of input.id input.identity_id in
      let p =
        find_first_sound (IsOnlyRow (λ (m : Message). m.id) db.outbox) c' db.outbox row
          (DistinctIds-IsOnlyRow (λ (m : Message). m.id) db.outbox (h outbox).ids) found in
      let id = row_id input.id input.identity_id row p.1 in
      let selected = unresolved_row input.id input.identity_id row p.1 open_row in
      let written =
        only-found c' c db.outbox row p.0 found selected
          (λ m t. unresolved_id input.id m row id t) in
      let listed =
        only-found c' (λ m. m.id == input.id) db.outbox row p.0 found id (λ m t. ground arith) in
      rw written (
        Holds-bind _ (decode_receipt (f row)) _ (λ m' t.
          settled-again input now' _ (f row) m' (relocked row locked)
            (find_first-update_where c c' f
                (resolved-is_row_of input.decision now input.id input.identity_id) db.outbox row
                found
              ∙ (rw selected))
            (resolved-certain input.decision now row) (resolved-shows input.decision now row)
            (find_first-update_where c (λ m. m.id == input.id) f
                (resolved-same_id input.decision now input.id) db.outbox row listed
              ∙ (rw selected))
            t))

  resolve_row-again :
      Holds (λ (x : Message × Db). resolve_row input now' x.1 ≡ done x) (resolve_row input now db)
  unfolding resolve_row
  resolve_row-again = Holds-bind _ (lock_for input db) _ (λ _ locked.
      elim (Option-cases (find_first (is_row_of input.id input.identity_id) db.outbox)) [
        | inl e ↦ rw e tt
        | inr (row, e) ↦ rw e (
            Holds-if _ (is_uncertain row.status) (write_resolution input row now db) _
              (written-again row locked e)
              (λ certain.
                Holds-bind _ (settled_answer input row db) _
                  (λ m t. rw (locked, e, certain) (rw t))))
      ])

-- A decision on an uncertain message is idempotent: after one that succeeded, the same decision at any
-- later instant answers the same and changes nothing, so that it writes no second row to the audit.
pub resolve-idempotent :
    (input : ResolveInput) (now now' : ℕ) (m : Message) {db db' : Db}
    → DbOk db
    → resolve_uncertain outbox input now db ≡ (done m, db')
    → resolve_uncertain outbox input now' db' ≡ (done m, db')
unfolding resolve_uncertain with_transaction
resolve-idempotent input now now' m {db} {db'} h e =
    let again =
      subst (Holds (λ (x : Message × Db). resolve_row input now' x.1 ≡ done x))
        (with_transaction-done db db' _ m e) (resolve_row-again input now now' db h) in
    rw again
