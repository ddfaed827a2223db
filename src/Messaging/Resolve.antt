-- ===== src/Messaging/Resolve.antt =====
-- resolveUncertain of server/messaging/store.ts: the audited reconciliation of a message of the
-- outbox of which nobody knows whether it was delivered.
use open_instinct.Base.{
  ℕ, ◌+◌, Bool, true, false, not, ◌&&◌, Option, none, some, [], ◌∷◌, ◌++◌, Text, codes,
  null_text_eq, find_first, update_where, returning, is_null, ◌==◌, if◌then◌else◌,
}
use open_instinct.Base.Results.{fail, done, ensure, found_or, ◌>>=◌, ◌>>◌, with_transaction}
use open_instinct.Messaging.Rows.{
  Status, queued, sent, cancelled, CancelReason, operator_cancelled, duplicate_confirmed, abandoned,
  LastError, cancelled_by, duplicate_retry_authorized, Message, DecisionKind, Resolution, Db, Lane,
  resolution_rejected, invalid_record, not_uncertain, conflict, identity_inactive, Answer,
  decode_receipt, is_uncertain, find_identity,
}
use open_instinct.Messaging.Queue.{lock_active, find_message}

-- `OutboxResolutionDecision`
pub data Decision : Type 0 where
  mark_delivered : (provider_message_id : Text) → Decision
  cancel : CancelReason → Decision
  authorize_retry : Decision

-- `ResolveOutboxUncertainInput`
pub record ResolveInput : Type 0 where
  pub identity_id : ℕ
  pub id : ℕ
  pub decision : Decision
  pub actor_principal_id : Text
  pub note : Option Text

reason_text : CancelReason → Text
unfolding codes
reason_text operator_cancelled = codes "operator_cancelled"
reason_text duplicate_confirmed = codes "duplicate_confirmed"
reason_text abandoned = codes "abandoned"

unfoldable pub decision_detail : Decision → Text
unfolding reason_text codes
decision_detail (mark_delivered provider_message_id) = provider_message_id
decision_detail (cancel reason) = reason_text reason
decision_detail authorize_retry = codes "duplicate_delivery_risk_accepted"

unfoldable pub decision_kind : Decision → DecisionKind
decision_kind (mark_delivered _) = DecisionKind.mark_delivered
decision_kind (cancel _) = DecisionKind.cancel
decision_kind authorize_retry = DecisionKind.authorize_retry

-- Only a cancellation may clear a row of a revoked identity.
unfoldable pub lock_for : ResolveInput → Db → Answer (Unit {0})
lock_for input db = elim input.decision [
  | cancel _ ↦
      ensure (not (is_null (find_identity input.identity_id db)))
        (resolution_rejected input.id identity_inactive)
  | mark_delivered _ ↦ lock_active input.identity_id db
  | authorize_retry ↦ lock_active input.identity_id db
]

unfoldable pub same_reason : CancelReason → CancelReason → Bool
same_reason operator_cancelled operator_cancelled = true
same_reason duplicate_confirmed duplicate_confirmed = true
same_reason abandoned abandoned = true
same_reason _ _ = false

unfoldable pub is_cancelled_by : CancelReason → Option LastError → Bool
unfolding same_reason
is_cancelled_by reason (some (cancelled_by r)) = same_reason r reason
is_cancelled_by reason _ = false

unfoldable pub is_authorized : Option LastError → Bool
is_authorized (some duplicate_retry_authorized) = true
is_authorized _ = false

-- Whether a row that is not uncertain shows that this decision was taken already.
unfoldable pub is_resolved_by : Decision → Status → Message → Bool
unfolding is_cancelled_by is_authorized
is_resolved_by (mark_delivered provider_message_id) sent m =
    null_text_eq m.result_id provider_message_id
is_resolved_by (cancel reason) cancelled m = is_cancelled_by reason m.last_error
is_resolved_by authorize_retry queued m = is_authorized m.last_error
is_resolved_by _ _ m = false

unfoldable pub resolution_of : ℕ → ResolveInput → Message → Resolution
resolution_of id input m = record {
  id = id;
  outbox_id = input.id;
  identity_id = input.identity_id;
  decision = decision_kind input.decision;
  detail = decision_detail input.decision;
  prior_error = m.last_error;
  actor_principal_id = input.actor_principal_id;
  note = input.note;
}

-- The three updates of an uncertain row.
unfoldable pub resolved_message : Decision → ℕ → Message → Message
resolved_message (mark_delivered provider_message_id) now m = record m {
  status = sent;
  lease_token = none;
  lease_expires_at = none;
  result_id = some provider_message_id;
  completed_at = some now;
  last_error = none;
}
resolved_message (cancel reason) now m = record m {
  status = cancelled;
  lease_token = none;
  lease_expires_at = none;
  last_error = some (cancelled_by reason);
}
resolved_message authorize_retry now m = record m {
  status = queued;
  lease_token = none;
  lease_expires_at = none;
  last_error = some duplicate_retry_authorized;
}

unfoldable pub is_unresolved : ℕ → Message → Bool
is_unresolved id m = m.id == id && is_uncertain m.status

-- The audit row and the update of an uncertain message.
unfoldable pub write_resolution : ResolveInput → Message → ℕ → Db → Answer (Message × Db)
write_resolution input row now db =
    let c = is_unresolved input.id in
    let f = resolved_message input.decision now in
    found_or (resolution_rejected input.id conflict) (returning c f db.outbox) >>= λ m.
    decode_receipt m >>= λ m'. done (
      m',
      record db {
        outbox = update_where c f db.outbox;
        resolutions = db.resolutions ++ resolution_of db.next_uuid input row ∷ [];
        next_uuid = db.next_uuid + 1;
      },
    )

-- The answer to a decision that finds the message settled.
unfoldable pub settled_answer : ResolveInput → Message → Db → Answer Message
settled_answer input row db =
    if is_resolved_by input.decision row.status row
    then (found_or invalid_record (find_message input.id db.outbox) >>= decode_receipt)
    else fail (resolution_rejected input.id not_uncertain)

unfoldable pub is_row_of : ℕ → ℕ → Message → Bool
is_row_of id identity_id m = m.id == id && m.identity_id == identity_id

unfoldable pub resolve_row : ResolveInput → ℕ → Db → Answer (Message × Db)
resolve_row input now db = do
  lock_for input db
  row ←
      found_or (resolution_rejected input.id not_uncertain)
        (find_first (is_row_of input.id input.identity_id) db.outbox)
  if is_uncertain row.status
      then write_resolution input row now db
      else (settled_answer input row db >>= λ m. done (m, db))

unfoldable pub resolve_uncertain : Lane → ResolveInput → ℕ → Db → Answer Message × Db
resolve_uncertain Lane.inbox input now db = (fail (resolution_rejected input.id not_uncertain), db)
resolve_uncertain Lane.outbox input now db = with_transaction db (resolve_row input now db)
