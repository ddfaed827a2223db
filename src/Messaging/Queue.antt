-- ===== src/Messaging/Queue.antt =====
-- makeQueue of server/messaging/store.ts, but for the reconciliation of uncertain messages: the calls
-- that write, and inspect.
mod Insert
mod Claim
mod Leases
unfoldable pub use Insert.*
unfoldable pub use Claim.*
unfoldable pub use Leases.*
use open_instinct.Base.{
  ℕ, ◌+◌, ◌*◌, Bool, true, false, not, ◌&&◌, ◌||◌, Option, none, some, List, [], ◌∷◌, ◌++◌, Text,
  codes, text_eq, find_first, update_where, select, order_by, returning, is_null, null_eq, null_le,
  ltb, ◌==◌, take, length, min, max, if◌then◌else◌,
}
use open_instinct.Base.Results.{fail, done, ensure, found_or, ◌>>=◌, ◌>>◌, with_transaction}
use mathlib.Core.Option.{get_or}
use open_instinct.Messaging.Payload.{MessagePayload, Handoff, Digest, canonical_payload}
use open_instinct.Messaging.Rows.{
  Identity, Status, queued, dispatching, accepted, sent, cancelled, DeliveryFailure, lease_expired,
  identity_revoked, adapter_rate_limited, failure, Message, Db, Lane, table, set_table,
  completed_status, MessagingError, invalid_message, inactive_identity, payload_conflict,
  lease_lost, invalid_record, Lease, Answer, message_receipt_schema, decode_receipt, is_queued,
  is_dispatching, is_uncertain, find_identity,
}

-- The statuses in the order of their texts, and how many rows of an identity have each.
abbrev statuses : List Status
statuses =
    accepted ∷ cancelled ∷ dispatching ∷ Status.failed ∷ queued ∷ sent ∷ Status.uncertain ∷ []

same_status : Status → Status → Bool
same_status accepted accepted = true
same_status cancelled cancelled = true
same_status dispatching dispatching = true
same_status Status.failed Status.failed = true
same_status queued queued = true
same_status sent sent = true
same_status Status.uncertain Status.uncertain = true
same_status _ _ = false

group_counts : ℕ → List Message → List Status → List (Status × ℕ)
unfolding same_status
group_counts identity_id ms [] = []
group_counts identity_id ms (s ∷ ss) =
    let n =
      length
        (select (λ (m : Message). m.identity_id == identity_id && same_status m.status s) ms) in
    let rest = group_counts identity_id ms ss in if n == 0 then rest else (s, n) ∷ rest

unfoldable pub each_receipt : List Message → Answer (List Message)
each_receipt [] = done []
each_receipt (m ∷ ms) = do first ← decode_receipt m; rest ← each_receipt ms; done (first ∷ rest)

pub record Inspection : Type 0 where
  pub counts : List (Status × ℕ)
  pub uncertain : List Message

unfoldable pub inspect : Lane → ℕ → Db → Answer Inspection
unfolding group_counts each_receipt
inspect lane identity_id db = do
  let pending =
      select (λ (m : Message). m.identity_id == identity_id && is_uncertain m.status)
        (table lane db)
  found ←
      each_receipt (
        take 100
          (order_by (λ (m : Message). m.sequence) (order_by (λ (m : Message). m.id) pending)))
  done (record { counts = group_counts identity_id (table lane db) statuses; uncertain = found })
