-- ===== src/Messaging/Replay.antt =====
-- Calls that are sent again: an insert and a reconciliation answer the same and change nothing.
use open_instinct.Base.{
  find_first-append_last, ℕ, ◌≡◌, refl, sym, ◌∙◌, inl, inr, Bool, true, false, not, ◌&&◌, Option,
  none, some, List, [], ◌∷◌, ◌++◌, Text, text_eq, text_eq_refl, arith, All, find_first, All-of,
  find_first_sound, Bool-cases, Option-cases, ◌==◌, ==_refl, is_null,
}
use mathlib.Core.Path.{subst}
use open_instinct.Base.Results.{
  done, ensure, Holds, Holds-bind, with_transaction, with_transaction-done,
}
use open_instinct.Messaging.Payload.{Digest, MessagePayload, canonical_payload}
use open_instinct.Messaging.Rows.{
  Identity, Message, Db, Lane, inbox, outbox, table, decode_receipt, find_identity,
  inactive_identity,
}
use open_instinct.Messaging.Queue.{
  is_active_identity, lock_active, message_hash, same_sender, joins_sender, in_scope, has_key,
  queued_message, find_message, replayed, append_message, insert_message, insert,
}
use open_instinct.Messaging.Lifecycle.{MessageOk}
use open_instinct.Messaging.Invariant.{DbOk}
use open_instinct.Messaging.Invariant.Inserts.{decode_receipt-done}

-- A row that satisfies the condition is found, or an earlier one.
pub finds :
    {A : Type 0} (c c' : A → Bool) (rs : List A) (r : A)
    → find_first c rs ≡ some r
    → c' r ≡ true
    → is_null (find_first c' rs) ≡ false
finds c c' [] r e t = cc
finds c c' (s ∷ rs) r e t = elim (Bool-cases (c' s)) [
  | inl u ↦ rw u
  | inr u ↦ elim (Bool-cases (c s)) [
    | inl v ↦ absurd (ground (arith, rw v at e))
    | inr v ↦ rw u (finds c c' rs r (rw v at e) t)
  ]
]

same_sender_refl : (i : Identity) → same_sender i i ≡ true
unfolding same_sender
same_sender_refl i =
    ground (arith, text_eq_refl i.channel, text_eq_refl i.installation_id, text_eq_refl i.sender_id)

-- An identity joins itself, if it is there.
joins_itself :
    (id : ℕ) (db : Db) → lock_active id db ≡ done tt → joins_sender db.identities id id ≡ true
unfolding lock_active is_active_identity joins_sender
joins_itself id db e = elim (Option-cases (find_identity id db)) [
  | inl f ↦ absurd (ground (arith, rw (f, is_active_identity) at e))
  | inr (i, f) ↦
      let p =
        find_first_sound (λ _. Unit {0}) (λ (x : Identity). x.id == id) db.identities i
          (All-of _ (λ _. tt) db.identities) f in
      let here =
        finds (λ (x : Identity). x.id == id) (λ x. x.id == id && same_sender i x) db.identities i f
          (ground (arith, p.1, same_sender_refl i)) in
      let joined =
        finds (λ (x : Identity). x.id == id)
          (λ p.
            p.id == id
            && not (
                is_null
                  (find_first (λ (x : Identity). x.id == id && same_sender p x) db.identities)))
          db.identities i f (ground (arith, p.1, here)) in
      ground (arith, joined)
]

id_below :
    (lane : Lane) (b : ℕ) (ms : List Message) → All (MessageOk lane b) ms → find_message b ms ≡ none
id_below lane b [] h = refl
id_below lane b (m ∷ ms) h = ground (arith, (h.0).id_drawn, id_below lane b ms h.1)

module _ (identity_id : ℕ) (key hash : Text) (source : Option Text) (payload : MessagePayload) where
  -- A new row has its key.
  queued-has_key :
      (lane : Lane) (db : Db) (id sequence : ℕ)
      → lock_active identity_id db ≡ done tt
      → has_key lane db.identities identity_id key
          (queued_message lane id sequence identity_id key hash source payload)
        ≡ true
  unfolding has_key in_scope queued_message
  queued-has_key inbox db id sequence e =
      ground (arith, joins_itself identity_id db e, text_eq_refl key)
  queued-has_key outbox db id sequence e = ground (arith, text_eq_refl key)

  queued-hash :
      (lane : Lane) (id sequence : ℕ)
      → text_eq (queued_message lane id sequence identity_id key hash source payload).hash hash
        ≡ true
  unfolding queued_message
  queued-hash lane id sequence = text_eq_refl hash

  queued-found :
      (lane : Lane) (db : Db)
      → DbOk db
      → find_message
          (queued_message lane db.next_uuid db.next_sequence identity_id key hash source payload).id
          (table lane db
            ++ queued_message lane db.next_uuid db.next_sequence identity_id key hash source payload
              ∷ [])
        ≡ some
            (queued_message lane db.next_uuid db.next_sequence identity_id key hash source payload)
  unfolding queued_message
  queued-found lane db h =
      find_first-append_last (λ (m : Message). m.id == db.next_uuid) (table lane db) _
        (id_below lane db.next_uuid (table lane db) (h lane).rows_ok) (==_refl db.next_uuid)

module _ (d : Digest) (lane : Lane) (identity_id : ℕ) (key : Text) (source : Option Text)
    (payload : MessagePayload) where
  -- An insert whose row is there answers the row.
  found-again :
      (db : Db) (m : Message)
      → lock_active identity_id db ≡ done tt
      → find_first (has_key lane db.identities identity_id key) (table lane db) ≡ some m
      → find_message m.id (table lane db) ≡ some m
      → text_eq m.hash (message_hash d lane source (canonical_payload payload)) ≡ true
      → decode_receipt m ≡ done m
      → insert_message d lane identity_id key source payload db ≡ done (m, db)
  unfolding insert_message replayed
  found-again db m active found listed same decoded =
      rw (active, found) (rw (same, listed, decoded))

  append_message-identities :
      (l : Lane) (m : Message) (db : Db) → (append_message l m db).identities ≡ db.identities
  unfolding append_message
  append_message-identities inbox m db = refl
  append_message-identities outbox m db = refl

  table-append_message :
      (l : Lane) (m : Message) (db : Db) → table l (append_message l m db) ≡ table l db ++ m ∷ []
  unfolding append_message
  table-append_message inbox m db = refl
  table-append_message outbox m db = refl

  still_active :
      (db db' : Db)
      → db'.identities ≡ db.identities
      → lock_active identity_id db ≡ done tt
      → lock_active identity_id db' ≡ done tt
  unfolding lock_active
  still_active db db' same active =
      (λ i.
        ensure (is_active_identity (find_first (λ (x : Identity). x.id == identity_id) (same i)))
          (inactive_identity identity_id))
      ∙ active

  insert_message-again :
      (db : Db)
      → DbOk db
      → Holds
          (λ (x : Message × Db). insert_message d lane identity_id key source payload x.1 ≡ done x)
          (insert_message d lane identity_id key source payload db)
  unfolding insert_message
  insert_message-again db h =
      let canonical = canonical_payload payload in
      let hash = message_hash d lane source canonical in
      let m =
        queued_message lane db.next_uuid db.next_sequence identity_id key hash source canonical in
      Holds-bind _ (lock_active identity_id db) _ (λ _ active.
        elim (Option-cases
          (find_first (has_key lane db.identities identity_id key) (table lane db))) [
            | inr (previous, e) ↦ rw e (
                Holds-bind _ (replayed previous hash (table lane db)) _
                  (λ n t. rw (active, e) (rw t)))
            | inl e ↦ rw e (
                Holds-bind _ (decode_receipt m) _ (λ n t.
                  subst
                    (λ x.
                      insert_message d lane identity_id key source payload
                        (append_message lane x db)
                      ≡ done (x, append_message lane x db))
                    (sym (decode_receipt-done m n t))
                    (found-again (append_message lane m db) m
                      (still_active db (append_message lane m db)
                        (append_message-identities lane m db) active)
                      ((λ i.
                          find_first
                            (has_key lane (append_message-identities lane m db i) identity_id key)
                            (table-append_message lane m db i))
                        ∙ find_first-append_last _ (table lane db) m e (
                            queued-has_key identity_id key hash source canonical lane db
                              db.next_uuid db.next_sequence active))
                      ((λ i. find_message m.id (table-append_message lane m db i))
                        ∙ queued-found identity_id key hash source canonical lane db h)
                      (queued-hash identity_id key hash source canonical lane db.next_uuid
                        db.next_sequence)
                      (t ∙ (λ i. done (decode_receipt-done m n t i))))))
          ])

-- An insert is idempotent: after one that succeeded, the same insert answers the same row and changes
-- nothing, where the first has put in the row or has found it.
pub insert-idempotent :
    (d : Digest) (lane : Lane) (identity_id : ℕ) (key : Text) (source : Option Text)
    (payload : MessagePayload) (m : Message) {db db' : Db}
    → DbOk db
    → insert d lane identity_id key source payload db ≡ (done m, db')
    → insert d lane identity_id key source payload db' ≡ (done m, db')
unfolding insert with_transaction
insert-idempotent d lane i key source payload m {db} {db'} h e =
    let again =
      subst (Holds (λ (x : Message × Db). insert_message d lane i key source payload x.1 ≡ done x))
        (with_transaction-done db db' _ m e)
        (insert_message-again d lane i key source payload db h) in
    rw again
