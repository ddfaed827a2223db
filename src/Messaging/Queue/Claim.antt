-- ===== src/Messaging/Queue/Claim.antt =====
-- claim of server/messaging/store.ts. `locked_identity` and `locked_row` say which rows other
-- transactions hold: SKIP LOCKED leaves them out.
use open_instinct.Base.{
  ℕ, ◌+◌, ◌*◌, Bool, false, not, ◌&&◌, ◌||◌, Option, none, some, List, [], ◌∷◌, ◌++◌, codes,
  find_first, update_where, select, order_by, returning, is_null, null_le, ◌==◌, if◌then◌else◌,
}
use open_instinct.Base.Results.{done, ensure, ◌>>◌, with_transaction}
use mathlib.Core.Option.{get_or}
use open_instinct.Messaging.Payload.{Handoff, Digest}
use open_instinct.Messaging.Rows.{
  Identity, Status, dispatching, cancelled, lease_expired, identity_revoked, failure, Message, Db,
  Lane, table, set_table, invalid_message, Answer, message_receipt_schema, is_queued,
  is_dispatching, is_uncertain,
}

-- What the three reads of clock_timestamp() of a claim give: in the expiry of old leases, in the
-- condition of the update, and in the lease that it writes.
pub record ClaimClock : Type 0 where
  pub expired_at : ℕ
  pub due_at : ℕ
  pub leased_at : ℕ

unfoldable pub is_expired : ℕ → ℕ → Message → Bool
is_expired identity_id now m =
    m.identity_id == identity_id && is_dispatching m.status && null_le m.lease_expires_at now

unfoldable pub expired_message : Message → Message
expired_message m = record m {
  status = Status.uncertain;
  last_error = some (failure lease_expired);
  lease_token = none;
  lease_expires_at = none;
}

unfoldable pub is_queued_for : ℕ → Message → Bool
is_queued_for identity_id m = m.identity_id == identity_id && is_queued m.status

unfoldable pub revoked_message : Message → Message
revoked_message m = record m { status = cancelled; last_error = some (failure identity_revoked) }

-- An uncertain message of the inbox with its handoff is sent again: the agent knows its input id.
unfoldable pub is_recoverable : Lane → Message → Bool
is_recoverable Lane.inbox m = not (is_null m.native_input)
is_recoverable Lane.outbox m = false

unfoldable pub is_blocking : Lane → ℕ → Message → Bool
unfolding is_recoverable
is_blocking lane identity_id m =
    m.identity_id == identity_id
    && (is_dispatching m.status || (is_uncertain m.status && not (is_recoverable lane m)))

unfoldable pub is_claimable : Lane → ℕ → Message → Bool
unfolding is_recoverable
is_claimable lane identity_id m =
    m.identity_id == identity_id
    && (is_queued m.status || (is_uncertain m.status && is_recoverable lane m))

abbrev pub first_row : List Message → Option Message
first_row [] = none
first_row (m ∷ ms) = some m

-- `ORDER BY sequence, id LIMIT 1 FOR UPDATE SKIP LOCKED`
unfoldable pub next_message : Lane → (ℕ → Bool) → ℕ → List Message → Option Message
next_message lane locked_row identity_id ms = first_row (
    order_by (λ (m : Message). m.sequence)
      (order_by (λ (m : Message). m.id)
        (select (λ m. is_claimable lane identity_id m && not (locked_row m.id)) ms)))

-- On a queued row the expiry is the instant before which it is not sent again.
unfoldable pub is_chosen : ℕ → ℕ → Message → Bool
is_chosen id now m = m.id == id && (is_null m.lease_expires_at || null_le m.lease_expires_at now)

-- `native_input = COALESCE(native_input, jsonb_build_object(...))`, in the inbox.
unfoldable pub snapshot : Digest → Lane → Identity → Message → Option Handoff
snapshot d Lane.outbox identity m = m.native_input
snapshot d Lane.inbox identity m = some (
    get_or m.native_input (record {
      input_id = m.id;
      channel = identity.channel;
      address = get_or m.payload.conversation_scope (d.uuid_text m.identity_id);
      principal_id = codes "better-auth:" ++ identity.user_id;
      content = none;
    }))

unfoldable pub claimed_message : Digest → Lane → Identity → ℕ → ℕ → Message → Message
unfolding snapshot
claimed_message d lane identity token expires m = record m {
  status = dispatching;
  native_input = snapshot d lane identity m;
  attempts = m.attempts + 1;
  lease_token = some token;
  lease_expires_at = some expires;
}

-- The update of a claim and the decoding of its row. The token is drawn with the statement.
unfoldable pub claim_row :
    Digest → Lane → Identity → ℕ → ℕ → ClaimClock → Db → Answer (Option Message × Db)
claim_row d lane identity id lease_seconds now db =
    let c = is_chosen id now.due_at in
    let f = claimed_message d lane identity db.next_uuid (now.leased_at + lease_seconds * 1000) in
    let db' = record (set_table lane (update_where c f (table lane db)) db) {
      next_uuid = db.next_uuid + 1;
    } in
    elim (returning c f (table lane db)) [
      | none ↦ done (none, db')
      | some m ↦ ensure (message_receipt_schema m) invalid_message >> done (some m, db')
    ]

-- The claim of an active identity, once its expired leases are taken away.
unfoldable pub claim_active :
    Digest → Lane → (ℕ → Bool) → Identity → ℕ → ClaimClock → Db → Answer (Option Message × Db)
claim_active d lane locked_row identity lease_seconds now db =
    elim (find_first (is_blocking lane identity.id) (table lane db)) [
      | some _ ↦ done (none, db)
      | none ↦ elim (next_message lane locked_row identity.id (table lane db)) [
        | none ↦ done (none, db)
        | some m ↦ claim_row d lane identity m.id lease_seconds now db
      ]
    ]

-- An identity that has been revoked: the outbox cancels what it has queued.
unfoldable pub cancel_revoked : Lane → ℕ → Db → Db
cancel_revoked Lane.inbox identity_id db = db
cancel_revoked Lane.outbox identity_id db = record db {
  outbox = update_where (is_queued_for identity_id) revoked_message db.outbox;
}

unfoldable pub expire_leases : Lane → ℕ → ℕ → Db → Db
expire_leases lane identity_id now db =
    set_table lane (update_where (is_expired identity_id now) expired_message (table lane db)) db

unfoldable pub claim_message :
    Digest → Lane → (ℕ → Bool) → (ℕ → Bool) → ℕ → ℕ → ClaimClock → Db → Answer (Option Message × Db)
claim_message d lane locked_identity locked_row identity_id lease_seconds now db =
    elim (find_first (λ (i : Identity). i.id == identity_id && not (locked_identity i.id))
      db.identities) [
        | none ↦ done (none, db)
        | some identity ↦
            let db' = expire_leases lane identity.id now.expired_at db in
            if identity.active
            then claim_active d lane locked_row identity lease_seconds now db'
            else done (none, cancel_revoked lane identity.id db')
      ]

unfoldable pub claim :
    Digest → Lane → (ℕ → Bool) → (ℕ → Bool) → ℕ → ℕ → ClaimClock → Db → Answer (Option Message) × Db
claim d lane locked_identity locked_row identity_id lease_seconds now db =
    with_transaction db
      (claim_message d lane locked_identity locked_row identity_id lease_seconds now db)
