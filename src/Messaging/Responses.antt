-- ===== src/Messaging/Responses.antt =====
-- makeInputResponses of server/messaging/input-response.ts: the answer of a user to a request of the
-- agent is handed over at most once. The digest and length checks of the input stand in Service.
use open_instinct.Base.{
  ℕ, ◌+◌, Bool, true, false, ◌&&◌, Option, none, some, List, [], ◌∷◌, ◌++◌, Text, text_eq,
  null_text_eq, find_first, update_where, select, is_null, not, take, ◌==◌, if◌then◌else◌,
}
use open_instinct.Base.Results.{fail, done, ◌>>◌, with_transaction}
use open_instinct.Messaging.Rows.{
  Message, ResponseDecision, approve, ResponseStatus, attempted, InputResponse, Db, Answer,
  invalid_message, is_accepted,
}
use open_instinct.Messaging.Queue.{lock_active}

-- `ClaimChannelInputResponse`
pub record ClaimResponse : Type 0 where
  pub identity_id : ℕ
  pub session_id : Text
  pub request_id : Text
  pub revision : Text
  pub source_message_id : Text
  pub turn_id : Text
  pub decision : ResponseDecision

pub data ClaimKind : Type 0 where
  acquired duplicate conflict : ClaimKind

pub record ClaimAnswer : Type 0 where
  pub kind : ClaimKind
  pub id : ℕ
  pub status : ResponseStatus

unfoldable pub is_source : ClaimResponse → Message → Bool
is_source value m =
    m.identity_id == value.identity_id
    && null_text_eq m.result_id value.session_id
    && null_text_eq m.source_message_id value.source_message_id
    && is_accepted m.status

unfoldable pub is_answered : ClaimResponse → InputResponse → Bool
is_answered value r = text_eq r.session_id value.session_id && text_eq r.request_id value.request_id

unfoldable pub same_decision : ResponseDecision → ResponseDecision → Bool
same_decision approve approve = true
same_decision ResponseDecision.cancel ResponseDecision.cancel = true
same_decision _ _ = false

unfoldable pub same_response : InputResponse → ClaimResponse → Bool
unfolding same_decision
same_response previous value =
    previous.identity_id == value.identity_id
    && text_eq previous.source_message_id value.source_message_id
    && text_eq previous.revision value.revision
    && same_decision previous.decision value.decision
    && text_eq previous.turn_id value.turn_id

unfoldable pub attempted_response : ℕ → ℕ → ClaimResponse → InputResponse
attempted_response id inbox_id value = record {
  id = id;
  identity_id = value.identity_id;
  inbox_id = inbox_id;
  session_id = value.session_id;
  source_message_id = value.source_message_id;
  request_id = value.request_id;
  revision = value.revision;
  decision = value.decision;
  turn_id = value.turn_id;
  status = attempted;
  completed_at = none;
}

-- `LIMIT 2`, and the one row that is asked for.
unfoldable pub only_row : List Message → Option Message
only_row [] = none
only_row (m ∷ []) = some m
only_row (m ∷ _ ∷ _) = none

-- INSERT ... ON CONFLICT (session_id, request_id) DO NOTHING, and the read of the earlier row.
unfoldable pub record_response : ClaimResponse → ℕ → Db → ClaimAnswer × Db
record_response value inbox_id db = elim (find_first (is_answered value) db.responses) [
  | none ↦ (
    record { kind = acquired; id = db.next_uuid; status = attempted },
    record db {
      responses = db.responses ++ attempted_response db.next_uuid inbox_id value ∷ [];
      next_uuid = db.next_uuid + 1;
    },
  )
  | some previous ↦ (
    record {
      kind = if same_response previous value then duplicate else conflict;
      id = previous.id;
      status = previous.status;
    },
    db,
  )
]

unfoldable pub claim_response : ClaimResponse → Db → Answer (ClaimAnswer × Db)
claim_response value db = do
  lock_active value.identity_id db
  elim (only_row (take 2 (select (is_source value) db.inbox))) [
    | none ↦ fail invalid_message
    | some source ↦ done (record_response value source.id db)
  ]

unfoldable pub claim_channel_input_response : ClaimResponse → Db → Answer ClaimAnswer × Db
claim_channel_input_response value db = with_transaction db (claim_response value db)

pub data Mark : Type 0 where
  accepted uncertain : Mark

unfoldable pub marked_status : Mark → ResponseStatus
marked_status Mark.accepted = ResponseStatus.accepted
marked_status Mark.uncertain = ResponseStatus.uncertain

abbrev pub is_attempted : ResponseStatus → Bool
is_attempted attempted = true
is_attempted _ = false

unfoldable pub is_open_response : ℕ → InputResponse → Bool
is_open_response id r = r.id == id && is_attempted r.status

unfoldable pub marked_response : Mark → ℕ → InputResponse → InputResponse
marked_response mark now r = record r { status = marked_status mark; completed_at = some now }

-- `id` is the primary key, so that a row is updated or none is.
unfoldable pub mark_channel_input_response : ℕ → Mark → ℕ → Db → Bool × Db
mark_channel_input_response id mark now db = (
  not (is_null (find_first (is_open_response id) db.responses)),
  record db {
    responses = update_where (is_open_response id) (marked_response mark now) db.responses;
  },
)
