-- ===== src/Messaging/Steps/Once.antt =====
-- What is done at most once: a delivery key is queued once, and a request of the agent is answered
-- once.
use open_instinct.Base.{
  Extends, ℕ, ◌≡◌, ◌≢◌, refl, inl, inr, Bool, true, false, ◌&&◌, Option, none, some, List, [], ◌∷◌,
  ◌++◌, Text, text_eq, text_eq_refl, arith, ◌==◌, Bool-cases, Option-cases, find_first,
  if◌then◌else◌, select, take,
}
use mathlib.Core.Path.{subst}
use open_instinct.Base.Results.{
  fail, done, ensure, ◌>>◌, Holds, Holds-bind, with_transaction, with_transaction-done,
  with_transaction-Holds,
}
use open_instinct.Messaging.Payload.{Digest, MessagePayload, canonical_payload}
use open_instinct.Messaging.Rows.{
  Message, InputResponse, Db, outbox, find_identity, inactive_identity, decode_receipt, Answer,
  invalid_message,
}
use open_instinct.Messaging.Queue.{
  is_active_identity, lock_active, message_hash, replayed, has_key, in_scope, insert,
  insert_message, queued_message, append_message,
}
use open_instinct.Messaging.Responses.{
  ClaimResponse, ClaimAnswer, acquired, duplicate, conflict, same_response, is_source, only_row,
  is_answered, record_response, attempted_response, claim_response, claim_channel_input_response,
}
use open_instinct.Messaging.Lifecycle.{Evolves}
use open_instinct.Messaging.Invariant.{DbOk, ResponseMoves}
use open_instinct.Messaging.Invariant.Inserts.{decode_receipt-done, insert-Sound}
use open_instinct.Messaging.Invariant.Calls.{claim_response-Sound}
use open_instinct.Messaging.Steps.{Reach, Reach-Kept}

module _ {A : Type 0} (R : A → A → Type 0) (N : A → Type 0) (c : A → Bool)
    (keeps : (r s : A) → R r s → c r ≡ true → c s ≡ true) where
  -- A row that a table has, it has later, where changes keep the condition.
  extended_finds :
      (rs ss : List A) → Extends R N rs ss → find_first c ss ≡ none → find_first c rs ≡ none
  extended_finds [] ss e f = refl
  extended_finds (r ∷ rs) [] e f = absurd e
  extended_finds (r ∷ rs) (s ∷ ss) e f = elim (Bool-cases (c r)) [
    | inl t ↦ absurd (ground (arith, rw (keeps r s e.0 t) at f))
    | inr u ↦ elim (Bool-cases (c s)) [
      | inl t ↦ absurd (ground (arith, rw t at f))
      | inr v ↦ rw u (extended_finds rs ss e.1 (rw v at f))
    ]
  ]

find_first-append :
    {A : Type 0} (c : A → Bool) (rs : List A) (s : A)
    → c s ≡ true
    → find_first c (rs ++ s ∷ []) ≢ none
find_first-append c [] s e f = ground (arith, rw e at f)
find_first-append c (r ∷ rs) s e f = elim (Bool-cases (c r)) [
  | inl t ↦ ground (arith, rw t at f)
  | inr u ↦ find_first-append c rs s e (rw u at f)
]

same_key_later :
    (i : ℕ) (key : Text) (b : ℕ) (m n : Message)
    → Evolves b m n
    → (m.identity_id == i && text_eq m.key key) ≡ true
    → (n.identity_id == i && text_eq n.key key) ≡ true
same_key_later i key b m n e t = rw (e.same_identity, e.same_key) t

module _ (d : Digest) (identity_id : ℕ) (key : Text) where
  abbrev has_delivery : Message → Bool
  has_delivery m = m.identity_id == identity_id && text_eq m.key key

  -- After an insert the outbox has the key.
  inserted-Holds :
      (source : Option Text) (payload : MessagePayload) (db : Db)
      → Holds
          (λ (x : Message × Db). find_first has_delivery x.1.outbox ≢ none)
          (insert_message d outbox identity_id key source payload db)
  unfolding insert_message has_key in_scope append_message queued_message
  inserted-Holds source payload db =
      let canonical = canonical_payload payload in
      let hash = message_hash d outbox source canonical in
      let m =
        queued_message outbox db.next_uuid db.next_sequence identity_id key hash source canonical in
      Holds-bind _ (lock_active identity_id db) _ (λ _ _.
        elim (Option-cases (find_first has_delivery db.outbox)) [
          | inr (previous, e) ↦ rw e (
              Holds-bind _ (replayed previous hash db.outbox) _
                (λ _ _ f. ground (arith, rw e at f)))
          | inl e ↦ rw e (
              Holds-bind _ (decode_receipt m) _ (λ n t.
                find_first-append has_delivery db.outbox n
                  (rw (decode_receipt-done m n t) (ground (arith, text_eq_refl key)))))
        ])

  -- Where the outbox has the key, an insert changes nothing.
  repeated-Holds :
      (source : Option Text) (payload : MessagePayload) (db : Db)
      → find_first has_delivery db.outbox ≢ none
      → Holds
          (λ (x : Message × Db). x.1 ≡ db)
          (insert_message d outbox identity_id key source payload db)
  unfolding insert_message has_key in_scope
  repeated-Holds source payload db has =
      let hash = message_hash d outbox source (canonical_payload payload) in
      Holds-bind _ (lock_active identity_id db) _ (λ _ _.
        elim (Option-cases (find_first has_delivery db.outbox)) [
          | inl e ↦ absurd (has e)
          | inr (previous, e) ↦
              rw e (Holds-bind _ (replayed previous hash db.outbox) _ (λ _ _. refl))
        ])

-- A delivery key is queued once: after an insert that succeeded, and after any sequence of calls that
-- follows, an insert with the same identity and key changes nothing, whatever its payload.
pub Reach-queued_once :
    (d : Digest) (identity_id : ℕ) (key : Text) (source : Option Text)
    (payload repeated : MessagePayload) (m : Message) {db db' db'' : Db}
    → DbOk db
    → insert d outbox identity_id key source payload db ≡ (done m, db')
    → Reach d db' db''
    → (insert d outbox identity_id key source repeated db'').1 ≡ db''
unfolding insert
Reach-queued_once d i key source payload repeated m {db} {db'} {db''} h e r =
    let first = with_transaction-done db db' _ m e in
    let has =
      subst (Holds (λ (x : Message × Db). find_first (has_delivery d i key) x.1.outbox ≢ none))
        first (inserted-Holds d i key source payload db) in
    let ok = subst (λ x. DbOk x.1) e (insert-Sound d outbox i key source payload db h).ok in
    let later = Reach-Kept d ok r in
    with_transaction-Holds (λ x. x ≡ db'') db'' _ refl
      (repeated-Holds d i key source repeated db'' (λ f. has (
        extended_finds _ _ (has_delivery d i key) (same_key_later i key db'.next_uuid) db'.outbox
          db''.outbox (later.extends outbox) f)))

abbrev pub is_acquired : Answer ClaimAnswer → Bool
is_acquired (fail e) = false
is_acquired (done a) = elim a.kind [ acquired ↦ true | _ ↦ false ]

same_request_later :
    (value : ClaimResponse) (r s : InputResponse)
    → ResponseMoves r s
    → is_answered value r ≡ true
    → is_answered value s ≡ true
unfolding is_answered
same_request_later value r s h e = rw (h.same_session, h.same_request) e

module _ (value : ClaimResponse) where
  -- After a claim of a response the table has the request.
  recorded-finds :
      (inbox_id : ℕ) (db : Db)
      → find_first (is_answered value) (record_response value inbox_id db).1.responses ≢ none
  unfolding record_response is_answered attempted_response
  recorded-finds inbox_id db = elim (Option-cases (find_first (is_answered value) db.responses)) [
    | inr (r, e) ↦ λ f. ground (arith, rw (e, record_response) at f, e)
    | inl e ↦
        rw (e, record_response)
          (find_first-append (is_answered value) db.responses
            (attempted_response db.next_uuid inbox_id value)
            (ground (arith, text_eq_refl value.session_id, text_eq_refl value.request_id)))
  ]

  -- Where the table has the request, nothing is recorded, and the response is not acquired.
  recorded-again :
      (inbox_id : ℕ) (db : Db)
      → find_first (is_answered value) db.responses ≢ none
      → ((record_response value inbox_id db).1 ≡ db)
        × (is_acquired (done (record_response value inbox_id db).0) ≡ false)
  unfolding record_response
  recorded-again inbox_id db has =
      elim (Option-cases (find_first (is_answered value) db.responses)) [
        | inl e ↦ absurd (has e)
        | inr (r, e) ↦ rw (e, record_response) (refl, not_acquired (same_response r value))
      ]
    where
      not_acquired :
          (b : Bool)
          → (elim (if b then duplicate else conflict) as (λ _. Bool) [
            | acquired ↦ true
            | _ ↦ false
          ])
            ≡ false
      not_acquired true = refl
      not_acquired false = refl

  claimed-Holds :
      (db : Db)
      → Holds
          (λ (x : ClaimAnswer × Db). find_first (is_answered value) x.1.responses ≢ none)
          (claim_response value db)
  unfolding claim_response
  claimed-Holds db = Holds-bind _ (lock_active value.identity_id db) _ (λ _ _.
      elim (only_row (take 2 (select (is_source value) db.inbox)))
        as (λ o.
          Holds (λ (x : ClaimAnswer × Db). find_first (is_answered value) x.1.responses ≢ none)
            (elim o [
              | none ↦ fail invalid_message
              | some source ↦ done (record_response value source.id db)
            ])) [ none ↦ tt | some source ↦ recorded-finds source.id db ])

  claimed-again :
      (db : Db)
      → find_first (is_answered value) db.responses ≢ none
      → ((claim_channel_input_response value db).1 ≡ db)
        × (is_acquired (claim_channel_input_response value db).0 ≡ false)
  unfolding claim_channel_input_response claim_response lock_active with_transaction
  claimed-again db has =
      elim (is_active_identity (find_identity value.identity_id db))
        as (λ b.
          let run = with_transaction db (
            ensure b (inactive_identity value.identity_id)
            >> (elim (only_row (take 2 (select (is_source value) db.inbox))) [
              | none ↦ fail invalid_message
              | some source ↦ done (record_response value source.id db)
            ])) in
          (run.1 ≡ db) × (is_acquired run.0 ≡ false)) [
            | false ↦ (refl, refl)
            | true ↦
                elim (only_row (take 2 (select (is_source value) db.inbox)))
                  as (λ o.
                    let run = with_transaction db (elim o [
                      | none ↦ fail invalid_message
                      | some source ↦ done (record_response value source.id db)
                    ]) in
                    (run.1 ≡ db) × (is_acquired run.0 ≡ false)) [
                      | none ↦ (refl, refl)
                      | some source ↦ recorded-again source.id db has
                    ]
          ]

same_answered :
    (v w : ClaimResponse)
    → v.session_id ≡ w.session_id
    → v.request_id ≡ w.request_id
    → is_answered v ≡ is_answered w
unfolding is_answered
same_answered v w e f = λ i r. text_eq r.session_id (e i) && text_eq r.request_id (f i)

-- A request of the agent is answered once: after a claim of a response that succeeded, and after any
-- sequence of calls that follows, a claim for the same session and request acquires nothing and
-- records nothing, whatever its decision.
pub Reach-answered_once :
    (d : Digest) (value again : ClaimResponse) (a : ClaimAnswer) {db db' db'' : Db}
    → DbOk db
    → claim_channel_input_response value db ≡ (done a, db')
    → again.session_id ≡ value.session_id
    → again.request_id ≡ value.request_id
    → Reach d db' db''
    → ((claim_channel_input_response again db'').1 ≡ db'')
      × (is_acquired (claim_channel_input_response again db'').0 ≡ false)
unfolding claim_channel_input_response
Reach-answered_once d value again a {db} {db'} {db''} h e same_session same_request r =
    let has =
      subst (Holds (λ (x : ClaimAnswer × Db). find_first (is_answered value) x.1.responses ≢ none))
        (with_transaction-done db db' (claim_response value db) a e) (claimed-Holds value db) in
    let ok = subst (λ x. DbOk x.1) e (claim_response-Sound db h value).ok in
    let later = Reach-Kept d ok r in
    claimed-again again db'' (λ f. has (
      extended_finds ResponseMoves _ (is_answered value) (same_request_later value) db'.responses
        db''.responses later.answers
        (subst (λ c. find_first c db''.responses ≡ none)
          (same_answered again value same_session same_request) f)))
