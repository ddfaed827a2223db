-- ===== src/Messaging/Tests.antt =====
-- A message of the outbox from its insert to its reconciliation, and a response of a user, with the
-- digests and the texts of UUIDs as short texts.
use open_instinct.Base.{
  ℕ, ◌+◌, ◌≡◌, refl, Bool, true, false, none, some, [], ◌∷◌, Text, text_eq, arith, All, order_by,
  insert_by,
}
use mathlib.Core.Path.{subst}
use open_instinct.Base.Results.{done, fail, with_transaction}
use open_instinct.Messaging.Payload.{
  Digest, MessagePayload, message_payload_schema, canonical_payload, reference,
}
use open_instinct.Messaging.Rows.{
  Identity, Status, queued, dispatching, Message, Db, inbox, outbox, decode_receipt,
  message_receipt_schema, Lease, Lane, lease_lost, adapter_rejected, failure, lease_expired, sent,
  DecisionKind, approve, attempted, ResponseDecision,
}
use open_instinct.Messaging.Queue.{
  ClaimClock, insert, insert_message, lock_active, is_active_identity, message_hash, has_key,
  in_scope, queued_message, source_of, append_message, claim, claim_message, expire_leases,
  is_expired, expired_message, claim_active, is_blocking, next_message, is_claimable, claim_row,
  is_chosen, claimed_message, snapshot, is_recoverable, is_queued_for, StopStatus, stop, complete,
  schedule_retry,
}
use open_instinct.Messaging.Invariant.{DbOk, TableOk, by_lane, Sound}
use open_instinct.Messaging.Invariant.Inserts.{insert-Sound}
use open_instinct.Messaging.Invariant.Expiry.{claim-Sound}
use open_instinct.Messaging.Replay.{insert-idempotent}
use open_instinct.Messaging.Reconcile.{resolve-idempotent}
use open_instinct.Messaging.Order.{Chosen, unlocked, claim-Chosen, revoked_claim-cancels}
use open_instinct.Messaging.Steps.{claims, here, next, Later, Step-Kept, Reach-Kept}
use open_instinct.Messaging.Steps.Fencing.{IsLost, Reach-lease-IsLost, lost_lease-refused}
use open_instinct.Messaging.Steps.Once.{is_acquired, Reach-queued_once, Reach-answered_once}
use open_instinct.Messaging.Service.{claim_lane}
use open_instinct.Messaging.Resolve.{
  ResolveInput, mark_delivered, resolve_uncertain, resolve_row, lock_for, is_row_of,
  write_resolution, is_unresolved, resolved_message, resolution_of, decision_kind, decision_detail,
}
use open_instinct.Messaging.Responses.{
  ClaimResponse, ClaimAnswer, acquired, claim_channel_input_response, claim_response, is_source,
  only_row, record_response, is_answered, attempted_response,
}

abbrev digest : Digest
digest = record {
  payload_digest = λ p. elim p.text [ none ↦ [] | some t ↦ t ];
  event_digest = λ _ t. t;
  uuid_text = λ n. (48 + n) ∷ [];
}

abbrev person : Identity
person = record {
  id = 1;
  channel = 116 ∷ [];
  installation_id = 1 ∷ [];
  sender_id = 2 ∷ [];
  user_id = 117 ∷ [];
  active = true;
}

abbrev empty : Db
empty = record {
  identities = person ∷ [];
  inbox = [];
  outbox = [];
  resolutions = [];
  responses = [];
  next_uuid = 10;
  next_sequence = 1;
}

empty_ok : DbOk empty
empty_ok = by_lane _ none_yet none_yet
  where
    none_yet : {lane : Lane} → TableOk lane 10 []
    none_yet = record { rows_ok = tt; ids = tt; single = λ i. omega arith }

abbrev key : Text
key = 107 ∷ []

abbrev hello : MessagePayload
hello = record {
  input_request = none;
  source_occurred_at_ms = none;
  text = some (104 ∷ 105 ∷ []);
  attachments = none;
  reply_to_message_id = none;
  delivery_target_id = none;
  conversation_scope = none;
}

abbrev first : Message
first = record {
  id = 10;
  identity_id = 1;
  key = key;
  hash = 104 ∷ 105 ∷ [];
  source_message_id = none;
  payload = record hello { attachments = some [] };
  native_input = none;
  sequence = 1;
  status = queued;
  attempts = 0;
  lease_token = none;
  lease_expires_at = none;
  result_id = none;
  completed_at = none;
  last_error = none;
}

abbrev queued_db : Db
queued_db = record empty { outbox = first ∷ []; next_uuid = 11; next_sequence = 2 }

inserted : insert digest outbox 1 key none hello empty ≡ (done first, queued_db)
unfolding insert insert_message lock_active is_active_identity message_hash has_key in_scope
    queued_message source_of append_message decode_receipt message_receipt_schema
    message_payload_schema canonical_payload reference with_transaction
inserted = refl

insert-idempotent_example :
    insert digest outbox 1 key none hello queued_db ≡ (done first, queued_db)
insert-idempotent_example = insert-idempotent digest outbox 1 key none hello first empty_ok inserted

queued_ok : DbOk queued_db
queued_ok =
    subst (λ x. DbOk x.1) inserted (insert-Sound digest outbox 1 key none hello empty empty_ok).ok

-- Three reads of the clock within one instant.
abbrev clock : ℕ → ClaimClock
clock now = record { expired_at = now; due_at = now; leased_at = now }

abbrev free : ℕ → Bool
free _ = false

abbrev sending : Message
sending = record first {
  status = dispatching;
  attempts = 1;
  lease_token = some 11;
  lease_expires_at = some 61000;
}

abbrev sending_db : Db
sending_db = record queued_db { outbox = sending ∷ []; next_uuid = 12 }

claimed :
    claim digest outbox free free 1 60 (clock 1000) queued_db ≡ (done (some sending), sending_db)
unfolding claim claim_message expire_leases is_expired claim_active is_blocking next_message
    is_claimable order_by insert_by claim_row is_chosen claimed_message snapshot is_recoverable
    message_receipt_schema message_payload_schema reference with_transaction
claimed = refl

claim-Chosen_example :
    (identity : Identity) × (unlocked free 1 queued_db ≡ some identity)
    × (identity.active ≡ true)
    × Chosen digest outbox free identity 60
        (clock 1000)
        (expire_leases outbox identity.id 1000 queued_db)
        sending
claim-Chosen_example =
    claim-Chosen digest outbox free free 1 60 (clock 1000) sending queued_ok claimed

sending_ok : DbOk sending_db
sending_ok =
    subst (λ x. DbOk x.1) claimed
      (claim-Sound digest outbox free free 1 60 (clock 1000) queued_db queued_ok).ok

Step-Kept_example :
    Sound queued_db (claim_lane digest outbox free free 1 60 (clock 1000) queued_db).1
Step-Kept_example = Step-Kept digest queued_ok (claims outbox free free 1 60 (clock 1000))

Reach-Kept_example :
    Later queued_db (claim_lane digest outbox free free 1 60 (clock 1000) queued_db).1
Reach-Kept_example =
    Reach-Kept digest queued_ok (next here (claims outbox free free 1 60 (clock 1000)))

Reach-queued_once_example :
    (insert digest outbox 1 key none
      (record hello { text = some (98 ∷ []) })
      (claim_lane digest outbox free free 1 60 (clock 1000) queued_db).1).1
    ≡ (claim_lane digest outbox free free 1 60 (clock 1000) queued_db).1
Reach-queued_once_example =
    Reach-queued_once digest 1 key none hello (record hello { text = some (98 ∷ []) }) first
      empty_ok inserted (next here (claims outbox free free 1 60 (clock 1000)))

-- A lease of the message that an earlier claim gave.
abbrev old_lease : Lease
old_lease = record { identity_id = 1; id = 10; lease_token = 9 }

old_lease-IsLost : IsLost outbox old_lease sending_db
old_lease-IsLost = (refl, tt)

Reach-lease-IsLost_example :
    IsLost outbox old_lease (claim_lane digest outbox free free 1 60 (clock 90000) sending_db).1
Reach-lease-IsLost_example =
    Reach-lease-IsLost digest outbox old_lease sending_ok (omega arith) old_lease-IsLost
      (next here (claims outbox free free 1 60 (clock 90000)))

lost_lease-refused_example :
    (complete outbox old_lease (112 ∷ []) 2000 2000 sending_db ≡ (fail (lease_lost 10), sending_db))
    × (stop outbox old_lease StopStatus.failed adapter_rejected 2000 2000 sending_db
        ≡ (fail (lease_lost 10), sending_db))
    × (schedule_retry outbox old_lease 30 2000 2000 sending_db ≡ (fail (lease_lost 10), sending_db))
unfolding is_active_identity
lost_lease-refused_example =
    lost_lease-refused outbox old_lease (112 ∷ []) StopStatus.failed adapter_rejected 30 2000 2000
      sending_db old_lease-IsLost refl

abbrev revoked_db : Db
revoked_db = record queued_db { identities = record person { active = false } ∷ [] }

revoked_claim-cancels_example :
    ((claim digest outbox free free 1 60 (clock 1000) revoked_db).0 ≡ done none)
    × All
        (λ m. is_queued_for 1 m ≡ false)
        (claim digest outbox free free 1 60 (clock 1000) revoked_db).1.outbox
revoked_claim-cancels_example =
    revoked_claim-cancels digest free free 1 60 (clock 1000) (record person { active = false })
      revoked_db refl refl

-- The lease of the message has expired without an answer.
abbrev unknown : Message
unknown = record first {
  status = Status.uncertain;
  attempts = 1;
  last_error = some (failure lease_expired);
}

abbrev unknown_db : Db
unknown_db = record sending_db { outbox = unknown ∷ [] }

expired : claim digest outbox free free 1 60 (clock 90000) sending_db ≡ (done none, unknown_db)
unfolding claim claim_message expire_leases is_expired expired_message claim_active is_blocking
    is_recoverable with_transaction
expired = refl

unknown_ok : DbOk unknown_db
unknown_ok =
    subst (λ x. DbOk x.1) expired
      (claim-Sound digest outbox free free 1 60 (clock 90000) sending_db sending_ok).ok

abbrev delivered : ResolveInput
delivered = record {
  identity_id = 1;
  id = 10;
  decision = mark_delivered (112 ∷ []);
  actor_principal_id = 111 ∷ [];
  note = none;
}

abbrev sent_message : Message
sent_message = record first {
  status = sent;
  attempts = 1;
  result_id = some (112 ∷ []);
  completed_at = some 95000;
}

abbrev sent_db : Db
sent_db = record unknown_db {
  outbox = sent_message ∷ [];
  resolutions =
      record {
        id = 12;
        outbox_id = 10;
        identity_id = 1;
        decision = DecisionKind.mark_delivered;
        detail = 112 ∷ [];
        prior_error = some (failure lease_expired);
        actor_principal_id = 111 ∷ [];
        note = none;
      }
      ∷ [];
  next_uuid = 13;
}

resolved : resolve_uncertain outbox delivered 95000 unknown_db ≡ (done sent_message, sent_db)
unfolding resolve_uncertain resolve_row lock_for lock_active is_active_identity is_row_of
    write_resolution is_unresolved resolved_message resolution_of decision_kind decision_detail
    decode_receipt message_receipt_schema message_payload_schema reference with_transaction
resolved = refl

resolve-idempotent_example :
    resolve_uncertain outbox delivered 99000 sent_db ≡ (done sent_message, sent_db)
resolve-idempotent_example =
    resolve-idempotent delivered 95000 99000 sent_message unknown_ok resolved

-- A message of the inbox that a session of the agent has accepted, and the answer that it carries.
abbrev accepted_message : Message
accepted_message = record first {
  id = 5;
  source_message_id = some (115 ∷ []);
  status = Status.accepted;
  attempts = 1;
  result_id = some (97 ∷ []);
  completed_at = some 500;
}

abbrev accepted_db : Db
accepted_db = record empty { inbox = accepted_message ∷ [] }

accepted_ok : DbOk accepted_db
accepted_ok = by_lane _ one_row (empty_ok outbox)
  where
    one_row : TableOk inbox 10 (accepted_message ∷ [])
    one_row = record {
      rows_ok = (
        record { status_ok = (refl, refl, refl); lane_ok = tt; drawn = tt; id_drawn = omega arith },
        tt,
      );
      ids = (tt, tt);
      single = λ i. ground arith;
    }

abbrev approval : ClaimResponse
approval = record {
  identity_id = 1;
  session_id = 97 ∷ [];
  request_id = 114 ∷ [];
  revision = 118 ∷ [];
  source_message_id = 115 ∷ [];
  turn_id = 116 ∷ [];
  decision = approve;
}

abbrev approved : ClaimAnswer
approved = record { kind = acquired; id = 10; status = attempted }

abbrev answered_db : Db
answered_db = record accepted_db {
  responses =
      record {
        id = 10;
        identity_id = 1;
        inbox_id = 5;
        session_id = 97 ∷ [];
        source_message_id = 115 ∷ [];
        request_id = 114 ∷ [];
        revision = 118 ∷ [];
        decision = approve;
        turn_id = 116 ∷ [];
        status = attempted;
        completed_at = none;
      }
      ∷ [];
  next_uuid = 11;
}

answered : claim_channel_input_response approval accepted_db ≡ (done approved, answered_db)
unfolding claim_channel_input_response claim_response lock_active is_active_identity is_source
    text_eq only_row record_response is_answered attempted_response with_transaction
answered = refl

abbrev refusal : ClaimResponse
refusal = record approval { decision = ResponseDecision.cancel }

Reach-answered_once_example :
    ((claim_channel_input_response refusal answered_db).1 ≡ answered_db)
    × (is_acquired (claim_channel_input_response refusal answered_db).0 ≡ false)
Reach-answered_once_example =
    Reach-answered_once digest approval refusal approved accepted_ok answered refl refl here
