-- ===== src/Messaging/Service.antt =====
-- makeMessaging of server/messaging/index.ts: the checks of the inputs in front of the queues, and
-- the handoff of an inbox message to the agent. Identifiers are numbers, so that the checks of
-- their form are left out, and so are excess properties of the inputs.
use open_instinct.Base.{
  ℕ, ◌+◌, Bool, true, false, not, ◌&&◌, Option, none, some, List, [], ◌∷◌, ◌++◌, Text, codes,
  trimmed_text, update_where, returning, is_null, null_eq, leb, ◌==◌, length,
}
use open_instinct.Base.Results.{fail, done, ensure, ◌>>=◌, ◌>>◌, with_transaction}
use open_instinct.Messaging.Payload.{
  MessagePayload, Handoff, Content, Digest, reference, every, optional, message_payload_schema,
  native_inbox_content_schema, native_inbox_handoff_schema, content_eq, input_reference_schema,
}
use open_instinct.Messaging.Rows.{
  DeliveryFailure, adapter_rejected, Message, Db, Lane, invalid_message, payload_conflict, Lease,
  Answer,
}
use open_instinct.Messaging.Queue.{
  ClaimClock, StopStatus, insert, insert_message, claim, complete, stop, schedule_retry,
  check_lease, null_gt,
}
use open_instinct.Messaging.Resolve.{ResolveInput, Decision, mark_delivered, resolve_uncertain}
use open_instinct.Messaging.Responses.{ClaimResponse, ClaimAnswer, claim_channel_input_response}

-- `decodeInput(schema)(input)` in front of a call: an invalid input changes nothing.
abbrev pub with_input : {A : Type 0} → Bool → Db → Answer A × Db → Answer A × Db
with_input true db call = call
with_input false db call = (fail invalid_message, db)

pub record AcceptInput : Type 0 where
  pub identity_id : ℕ
  pub event_id : Text
  pub source_message_id : Text
  pub payload : MessagePayload

pub record EnqueueInput : Type 0 where
  pub identity_id : ℕ
  pub delivery_key : Text
  pub payload : MessagePayload

unfoldable pub accept_input_schema : AcceptInput → Bool
accept_input_schema value =
    reference value.event_id
    && reference value.source_message_id
    && message_payload_schema value.payload

unfoldable pub enqueue_input_schema : EnqueueInput → Bool
enqueue_input_schema value = reference value.delivery_key && message_payload_schema value.payload

-- `leaseSeconds` of `ClaimInputSchema`
unfoldable pub lease_seconds_schema : ℕ → Bool
lease_seconds_schema n = leb 1 n && leb n 300

unfoldable pub accept : Digest → AcceptInput → Db → Answer Message × Db
accept d value db = with_input (accept_input_schema value) db (
    insert d Lane.inbox value.identity_id value.event_id (some value.source_message_id)
      value.payload db)

unfoldable pub enqueue : Digest → EnqueueInput → Db → Answer Message × Db
enqueue d value db =
    with_input (enqueue_input_schema value) db
      (insert d Lane.outbox value.identity_id value.delivery_key none value.payload db)

-- `claimInbox` and `claimOutbox`
unfoldable pub claim_lane :
    Digest → Lane → (ℕ → Bool) → (ℕ → Bool) → ℕ → ℕ → ClaimClock → Db → Answer (Option Message) × Db
claim_lane d lane locked_identity locked_row identity_id lease_seconds now db =
    with_input (lease_seconds_schema lease_seconds) db
      (claim d lane locked_identity locked_row identity_id lease_seconds now db)

-- `adapterId`
unfoldable pub adapter_id : Text → Bool
adapter_id text = trimmed_text 1 512 text

-- `markAccepted` and `markSent`
unfoldable pub mark_completed : Lane → Lease → Text → ℕ → ℕ → Db → Answer Message × Db
mark_completed lane lease result_id checked now db =
    with_input (adapter_id result_id) db (complete lane lease result_id checked now db)

-- `markInboxUncertain` and `markOutboxUncertain`
unfoldable pub mark_uncertain : Lane → Lease → DeliveryFailure → ℕ → ℕ → Db → Answer Message × Db
mark_uncertain lane lease reason checked now db =
    stop lane lease StopStatus.uncertain reason checked now db

-- `markInboxFailed` and `markOutboxFailed`: the one reason that the schema admits.
unfoldable pub mark_failed : Lane → Lease → ℕ → ℕ → Db → Answer Message × Db
mark_failed lane lease checked now db =
    stop lane lease StopStatus.failed adapter_rejected checked now db

unfoldable pub delivered_id_schema : Decision → Bool
delivered_id_schema (mark_delivered provider_message_id) = trimmed_text 1 512 provider_message_id
delivered_id_schema _ = true

-- `ResolveOutboxUncertainSchema`
unfoldable pub resolve_input_schema : ResolveInput → Bool
resolve_input_schema value =
    delivered_id_schema value.decision
    && trimmed_text 1 256 value.actor_principal_id
    && optional (trimmed_text 1 200) value.note

unfoldable pub resolve_outbox_uncertain : ResolveInput → ℕ → Db → Answer Message × Db
resolve_outbox_uncertain value now db =
    with_input (resolve_input_schema value) db (resolve_uncertain Lane.outbox value now db)

unfoldable pub schedule_outbox_retry : Lease → ℕ → ℕ → ℕ → Db → Answer Message × Db
schedule_outbox_retry lease retry_after_seconds checked now db =
    with_input (leb 1 retry_after_seconds && leb retry_after_seconds 3600) db
      (schedule_retry Lane.outbox lease retry_after_seconds checked now db)

-- `ClaimChannelInputResponseSchema`
unfoldable pub claim_response_schema : ClaimResponse → Bool
claim_response_schema value =
    input_reference_schema (record {
      session_id = value.session_id;
      request_id = value.request_id;
      revision = value.revision;
    })
    && reference value.source_message_id
    && reference value.turn_id

unfoldable pub claim_input_response : ClaimResponse → Db → Answer ClaimAnswer × Db
claim_input_response value db =
    with_input (claim_response_schema value) db (claim_channel_input_response value db)

-- `text.isWellFormed()`: each surrogate stands in a pair. `high` says that a high one precedes.
abbrev is_high : ℕ → Bool
is_high c = leb 0xd800 c && leb c 0xdbff

abbrev is_low : ℕ → Bool
is_low c = leb 0xdc00 c && leb c 0xdfff

well_formed_from : Bool → Text → Bool
well_formed_from high [] = not high
well_formed_from true (c ∷ cs) = is_low c && well_formed_from false cs
well_formed_from false (c ∷ cs) = not (is_low c) && well_formed_from (is_high c) cs

-- `ChannelTranscriptSchema`
transcript_schema : Text → Bool
unfolding well_formed_from
transcript_schema text = trimmed_text 1 3000 text && well_formed_from false text

-- `PrepareInboxHandoffSchema`
unfoldable pub prepare_schema : Content → List Text → Bool
unfolding transcript_schema
prepare_schema content transcripts =
    native_inbox_content_schema content
    && every transcript_schema transcripts
    && leb (length transcripts) 10

abbrev pub admits_content : Content → Option Handoff → Bool
admits_content content none = false
admits_content content (some h) = elim h.content [ none ↦ true | some old ↦ content_eq old content ]

unfoldable pub is_preparable : Lease → Content → ℕ → Message → Bool
is_preparable lease content now m =
    m.id == lease.id
    && m.identity_id == lease.identity_id
    && null_eq m.lease_token lease.lease_token
    && null_gt m.lease_expires_at now
    && admits_content content m.native_input

abbrev pub with_content : Content → Option Handoff → Option Handoff
with_content content none = none
with_content content (some h) = some (record h { content = some content })

unfoldable pub prepared_message : Content → Message → Message
prepared_message content m = record m { native_input = with_content content m.native_input }

-- `transcript:${lease.id}:${String(index)}:0`; an index is below 10.
unfoldable pub transcript_key : Digest → ℕ → ℕ → Text
transcript_key d id index =
    codes "transcript:" ++ (d.uuid_text id ++ (codes ":" ++ ((48 + index) ∷ codes ":0")))

unfoldable pub transcript_payload : Text → MessagePayload
transcript_payload transcript = record {
  input_request = none;
  source_occurred_at_ms = none;
  text = some (
      codes "I heard: " ++ (transcript ++ (10 ∷ codes "If this is incorrect, send a correction.")));
  attachments = none;
  reply_to_message_id = none;
  delivery_target_id = none;
  conversation_scope = none;
}

-- The loop over the transcripts, from an index on.
unfoldable pub insert_transcripts : Digest → Lease → ℕ → List Text → Db → Answer (Unit {0} × Db)
insert_transcripts d lease index [] db = done (tt, db)
insert_transcripts d lease index (t ∷ ts) db = do
  (m, db') ←
      insert_message d Lane.outbox lease.identity_id (transcript_key d lease.id index) none
        (transcript_payload t) db
  insert_transcripts d lease (index + 1) ts db'

-- `current.nativeInput?.content === null`
abbrev pub is_unprepared : Option Handoff → Bool
is_unprepared none = false
is_unprepared (some h) = is_null h.content

-- The schema of the answer asks for a content.
unfoldable pub decode_handoff : Option Handoff → Answer Handoff
decode_handoff none = fail invalid_message
decode_handoff (some h) = do
  ensure (native_inbox_handoff_schema h && not (is_null h.content)) invalid_message
  done h

unfoldable pub prepare :
    Digest → Lease → Content → List Text → ℕ → ℕ → ℕ → Db → Answer (Handoff × Db)
prepare d lease content transcripts checked now later db = do
  current ← check_lease Lane.inbox lease checked db
  let c = is_preparable lease content now
  let f = prepared_message content
  let db' = record db { inbox = update_where c f db.inbox }
  elim (returning c f db.inbox) [
    | none ↦ check_lease Lane.inbox lease later db >>= λ _. fail (payload_conflict lease.id)
    | some m ↦
        (elim (is_unprepared current.native_input) [
          | true ↦ insert_transcripts d lease 0 transcripts db'
          | false ↦ done (tt, db')
        ])
        >>= λ (_, db''). decode_handoff m.native_input >>= λ h. done (h, db'')
  ]

unfoldable pub prepare_inbox_handoff :
    Digest → Lease → Content → List Text → ℕ → ℕ → ℕ → Db → Answer Handoff × Db
prepare_inbox_handoff d lease content transcripts checked now later db =
    with_input (prepare_schema content transcripts) db
      (with_transaction db (prepare d lease content transcripts checked now later db))
