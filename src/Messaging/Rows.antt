-- ===== src/Messaging/Rows.antt =====
-- The tables channel_identity, channel_inbox, channel_outbox, channel_outbox_resolution and
-- channel_input_response of db/schema, and the receipts and errors of server/messaging/model.ts.
use open_instinct.Base.{ℕ, Bool, true, false, ◌&&◌, Option, List, Text, find_first, ◌==◌}
use open_instinct.Base.Results.{Result, done, ensure, ◌>>◌}
use open_instinct.Messaging.Payload.{
  MessagePayload, Handoff, reference, optional, message_payload_schema, native_inbox_handoff_schema,
}

-- A row of channel_identity; `active` is `revoked_at IS NULL`.
pub record Identity : Type 0 where
  pub id : ℕ
  pub channel : Text
  pub installation_id : Text
  pub sender_id : Text
  pub user_id : Text
  pub active : Bool

pub data Status : Type 0 where
  queued dispatching accepted sent uncertain failed cancelled : Status

-- `DeliveryFailureSchema`
pub data DeliveryFailure : Type 0 where
  adapter_rejected adapter_unavailable adapter_rate_limited : DeliveryFailure
  handoff_unknown lease_expired identity_revoked : DeliveryFailure

pub data CancelReason : Type 0 where
  operator_cancelled duplicate_confirmed abandoned : CancelReason

-- The texts that the store writes to `last_error`.
pub data LastError : Type 0 where
  failure : DeliveryFailure → LastError
  cancelled_by : CancelReason → LastError
  duplicate_retry_authorized : LastError

-- A row of channel_inbox or of channel_outbox. `result_id` is `session_id` or
-- `provider_message_id`, `completed_at` is `accepted_at` or `sent_at`; the outbox has no source
-- message and no native input.
pub record Message : Type 0 where
  pub id : ℕ
  pub identity_id : ℕ
  pub key : Text
  pub hash : Text
  pub source_message_id : Option Text
  pub payload : MessagePayload
  pub native_input : Option Handoff
  pub sequence : ℕ
  pub status : Status
  pub attempts : ℕ
  pub lease_token : Option ℕ
  pub lease_expires_at : Option ℕ
  pub result_id : Option Text
  pub completed_at : Option ℕ
  pub last_error : Option LastError

pub data DecisionKind : Type 0 where
  mark_delivered cancel authorize_retry : DecisionKind

-- A row of channel_outbox_resolution; its prior status is always `uncertain`.
pub record Resolution : Type 0 where
  pub id : ℕ
  pub outbox_id : ℕ
  pub identity_id : ℕ
  pub decision : DecisionKind
  pub detail : Text
  pub prior_error : Option LastError
  pub actor_principal_id : Text
  pub note : Option Text

pub data ResponseDecision : Type 0 where
  approve cancel : ResponseDecision

pub data ResponseStatus : Type 0 where
  attempted accepted uncertain : ResponseStatus

-- A row of channel_input_response.
pub record InputResponse : Type 0 where
  pub id : ℕ
  pub identity_id : ℕ
  pub inbox_id : ℕ
  pub session_id : Text
  pub source_message_id : Text
  pub request_id : Text
  pub revision : Text
  pub decision : ResponseDecision
  pub turn_id : Text
  pub status : ResponseStatus
  pub completed_at : Option ℕ

-- `next_uuid` stands for what `randomUUID` draws, `next_sequence` for the bigserial columns.
pub record Db : Type 0 where
  pub identities : List Identity
  pub inbox : List Message
  pub outbox : List Message
  pub resolutions : List Resolution
  pub responses : List InputResponse
  pub next_uuid : ℕ
  pub next_sequence : ℕ

pub data Lane : Type 0 where
  inbox outbox : Lane

abbrev pub table : Lane → Db → List Message
table Lane.inbox db = db.inbox
table Lane.outbox db = db.outbox

abbrev pub set_table : Lane → List Message → Db → Db
set_table Lane.inbox ms db = record db { inbox = ms }
set_table Lane.outbox ms db = record db { outbox = ms }

-- `queue.completed`
abbrev pub completed_status : Lane → Status
completed_status Lane.inbox = accepted
completed_status Lane.outbox = sent

pub data Rejection : Type 0 where
  not_uncertain conflict identity_inactive : Rejection

-- `MessagingError`, with the failures of the schemas as `invalid_message`.
pub data MessagingError : Type 0 where
  invalid_message : MessagingError
  inactive_identity : (identity_id : ℕ) → MessagingError
  payload_conflict : (id : ℕ) → MessagingError
  lease_lost : (id : ℕ) → MessagingError
  resolution_rejected : (id : ℕ) (reason : Rejection) → MessagingError
  invalid_record : MessagingError

pub record Lease : Type 0 where
  pub identity_id : ℕ
  pub id : ℕ
  pub lease_token : ℕ

abbrev pub Answer : Type 0 → Type 0
Answer A = Result MessagingError A

-- `MessageReceiptSchema`; the columns that are no text hold what it asks for.
unfoldable pub message_receipt_schema : Message → Bool
unfolding reference message_payload_schema native_inbox_handoff_schema
message_receipt_schema m =
    reference m.key
    && optional reference m.source_message_id
    && message_payload_schema m.payload
    && optional native_inbox_handoff_schema m.native_input

unfoldable pub decode_receipt : Message → Answer Message
decode_receipt m = do ensure (message_receipt_schema m) invalid_record; done m

abbrev pub is_queued : Status → Bool
is_queued queued = true
is_queued _ = false

abbrev pub is_dispatching : Status → Bool
is_dispatching dispatching = true
is_dispatching _ = false

abbrev pub is_uncertain : Status → Bool
is_uncertain Status.uncertain = true
is_uncertain _ = false

abbrev pub is_accepted : Status → Bool
is_accepted Status.accepted = true
is_accepted _ = false

-- `SELECT revoked_at IS NULL AS active FROM channel_identity WHERE id = ...`
abbrev pub find_identity : ℕ → Db → Option Identity
find_identity id db = find_first (λ (i : Identity). i.id == id) db.identities
