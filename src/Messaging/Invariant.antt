-- ===== src/Messaging/Invariant.antt =====
-- The invariant of the tables of messages, and what one call of the service may do to them.
pub mod Updates
pub mod Calls
pub mod Claims
pub mod Expiry
pub mod Inserts
pub mod Handoffs
use open_instinct.Base.{
  Extends, ℕ, ◌+◌, ◌≤◌, ◌≡◌, Bool, true, false, List, [], ◌∷◌, map, All, ◌==◌, ◌&&◌, ◌⊎◌,
  if◌then◌else◌, DistinctIds,
}
use open_instinct.Messaging.Rows.{
  Message, InputResponse, Resolution, ResponseStatus, attempted, Db, Lane, inbox, outbox, table,
  is_dispatching,
}
use open_instinct.Messaging.Lifecycle.{MessageOk, Moves, IsNew}

abbrev pub is_in_flight : ℕ → Message → Bool
is_in_flight identity_id m = m.identity_id == identity_id && is_dispatching m.status

-- How many messages of an identity are being sent.
abbrev pub in_flight : ℕ → List Message → ℕ
in_flight identity_id [] = 0
in_flight identity_id (m ∷ ms) =
    (if is_in_flight identity_id m then 1 else 0) + in_flight identity_id ms

-- The rows are sound, their ids are distinct, and of each identity one message is in flight at most.
pub record TableOk (lane : Lane) (bound : ℕ) (ms : List Message) : Type 0 where
  pub rows_ok : All (MessageOk lane bound) ms
  pub ids : DistinctIds (map (λ (m : Message). m.id) ms)
  pub single : (identity_id : ℕ) → in_flight identity_id ms ≤ 1

pub by_lane : (P : Lane → Type 0) → P inbox → P outbox → (lane : Lane) → P lane
by_lane P i o inbox = i
by_lane P i o outbox = o

abbrev pub DbOk : Db → Type 0
DbOk db = (lane : Lane) → TableOk lane db.next_uuid (table lane db)

-- A response is written once, and is marked once.
pub record ResponseMoves (r s : InputResponse) : Type 0 where
  pub same_id : s.id ≡ r.id
  pub same_identity : s.identity_id ≡ r.identity_id
  pub same_session : s.session_id ≡ r.session_id
  pub same_request : s.request_id ≡ r.request_id
  pub same_revision : s.revision ≡ r.revision
  pub same_source : s.source_message_id ≡ r.source_message_id
  pub same_turn : s.turn_id ≡ r.turn_id
  pub same_decision : s.decision ≡ r.decision
  pub settled : (r.status ≡ attempted) ⊎ (s ≡ r)

-- A call: the tables stay sound, each message makes a move of its state machine and none is lost,
-- the audit of the resolutions only grows, and so do the responses but for their marks.
pub record Sound (db db' : Db) : Type 0 where
  pub ok : DbOk db'
  pub extends :
      (lane : Lane)
      → Extends (Moves lane db.next_uuid) (IsNew db.next_uuid) (table lane db) (table lane db')
  pub audit : Extends ◌≡◌ (λ (r : Resolution). Unit) db.resolutions db'.resolutions
  pub answers :
      Extends ResponseMoves (λ (r : InputResponse). db.next_uuid ≤ r.id) db.responses db'.responses
  pub drawn_le : db.next_uuid ≤ db'.next_uuid
