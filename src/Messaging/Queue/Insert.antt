-- ===== src/Messaging/Queue/Insert.antt =====
-- lockActive and insert of server/messaging/store.ts: an event or a delivery is put in once.
use open_instinct.Base.{
  ℕ, ◌+◌, Bool, false, not, ◌&&◌, Option, none, some, List, [], ◌∷◌, ◌++◌, Text, text_eq,
  find_first, is_null, ◌==◌, if◌then◌else◌,
}
use open_instinct.Base.Results.{fail, done, ensure, found_or, ◌>>=◌, ◌>>◌, with_transaction}
use open_instinct.Messaging.Payload.{MessagePayload, Digest, canonical_payload}
use open_instinct.Messaging.Rows.{
  Identity, queued, Message, Db, Lane, table, set_table, inactive_identity, payload_conflict,
  invalid_record, Answer, decode_receipt, find_identity,
}

unfoldable pub is_active_identity : Option Identity → Bool
is_active_identity none = false
is_active_identity (some i) = i.active

unfoldable pub lock_active : ℕ → Db → Answer (Unit {0})
unfolding is_active_identity
lock_active identity_id db =
    ensure (is_active_identity (find_identity identity_id db)) (inactive_identity identity_id)

-- The digest that the table keeps: that of the source message with the payload in the inbox.
unfoldable pub message_hash : Digest → Lane → Option Text → MessagePayload → Text
message_hash d Lane.inbox source payload = d.event_digest source (d.payload_digest payload)
message_hash d Lane.outbox source payload = d.payload_digest payload

unfoldable pub same_sender : Identity → Identity → Bool
same_sender previous current =
    text_eq current.channel previous.channel
    && text_eq current.installation_id previous.installation_id
    && text_eq current.sender_id previous.sender_id

-- Whether the table of identities joins the two ids: both are of one sender.
unfoldable pub joins_sender : List Identity → ℕ → ℕ → Bool
unfolding same_sender
joins_sender identities previous_id current_id = not (
    is_null (
      find_first
        (λ (p : Identity).
          p.id == previous_id
          && not (
              is_null
                (find_first (λ (i : Identity). i.id == current_id && same_sender p i) identities)))
        identities))

-- `identityScope`
unfoldable pub in_scope : Lane → List Identity → ℕ → Message → Bool
unfolding joins_sender
in_scope Lane.inbox identities identity_id m = joins_sender identities m.identity_id identity_id
in_scope Lane.outbox identities identity_id m = m.identity_id == identity_id

-- The row with the key, within the scope of the identity.
unfoldable pub has_key : Lane → List Identity → ℕ → Text → Message → Bool
unfolding in_scope
has_key lane identities identity_id key m =
    in_scope lane identities identity_id m && text_eq m.key key

-- The inbox alone keeps the source message.
unfoldable pub source_of : Lane → Option Text → Option Text
source_of Lane.inbox source = source
source_of Lane.outbox source = none

unfoldable pub queued_message :
    Lane → ℕ → ℕ → ℕ → Text → Text → Option Text → MessagePayload → Message
unfolding source_of
queued_message lane id sequence identity_id key hash source payload = record {
  id = id;
  identity_id = identity_id;
  key = key;
  hash = hash;
  source_message_id = source_of lane source;
  payload = payload;
  native_input = none;
  sequence = sequence;
  status = queued;
  attempts = 0;
  lease_token = none;
  lease_expires_at = none;
  result_id = none;
  completed_at = none;
  last_error = none;
}

abbrev pub find_message : ℕ → List Message → Option Message
find_message id ms = find_first (λ (m : Message). m.id == id) ms

-- The answer to an event that the table has already.
unfoldable pub replayed : Message → Text → List Message → Answer Message
replayed previous hash ms =
    if text_eq previous.hash hash
    then (found_or invalid_record (find_message previous.id ms) >>= decode_receipt)
    else fail (payload_conflict previous.id)

-- The table with a new row.
unfoldable pub append_message : Lane → Message → Db → Db
append_message lane m db = record (set_table lane (table lane db ++ m ∷ []) db) {
  next_uuid = db.next_uuid + 1;
  next_sequence = db.next_sequence + 1;
}

unfoldable pub insert_message :
    Digest → Lane → ℕ → Text → Option Text → MessagePayload → Db → Answer (Message × Db)
insert_message d lane identity_id key source payload db = do
  lock_active identity_id db
  let canonical = canonical_payload payload
  let hash = message_hash d lane source canonical
  elim (find_first (has_key lane db.identities identity_id key) (table lane db)) [
    | some previous ↦ replayed previous hash (table lane db) >>= λ m. done (m, db)
    | none ↦
        decode_receipt
          (queued_message lane db.next_uuid db.next_sequence identity_id key hash source canonical)
        >>= λ m. done (m, append_message lane m db)
  ]

unfoldable pub insert :
    Digest → Lane → ℕ → Text → Option Text → MessagePayload → Db → Answer Message × Db
insert d lane identity_id key source payload db =
    with_transaction db (insert_message d lane identity_id key source payload db)
