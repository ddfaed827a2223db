-- ===== src/Messaging/Lifecycle.antt =====
-- The life of a message: what holds of each row of channel_inbox and channel_outbox, and what one
-- call of the store may do to it.
pub mod Changes
use open_instinct.Base.{
  ℕ, ◌+◌, ◌≤◌, ◌<◌, ◌≡◌, refl, ap, ◌∙◌, inl, inr, Bool, true, false, Option, none, some, arith,
  is_null, Bool-cases, IsDrawn, IsDrawn-grow, TokenFollows, TokenFollows-refl, TokenFollows-trans,
}
use mathlib.Core.Path.{subst}
use open_instinct.Messaging.Payload.{Handoff}
use open_instinct.Messaging.Rows.{
  Status, queued, dispatching, accepted, sent, failed, cancelled, Message, Lane,
}

-- Exactly the dispatching messages have a lease token, and it has an expiry; exactly the delivered
-- ones have an id of what received them, with the instant.
abbrev pub StatusOk : Message → Type 0
StatusOk m = elim m.status [
  | dispatching ↦
      (is_null m.lease_token ≡ false)
      × (is_null m.lease_expires_at ≡ false)
      × (m.result_id ≡ none)
      × (m.completed_at ≡ none)
  | accepted ↦
      (m.lease_token ≡ none) × (is_null m.result_id ≡ false) × (is_null m.completed_at ≡ false)
  | sent ↦ (m.lease_token ≡ none) × (is_null m.result_id ≡ false) × (is_null m.completed_at ≡ false)
  | _ ↦ (m.lease_token ≡ none) × (m.result_id ≡ none) × (m.completed_at ≡ none)
]

-- The statuses of each table, and the columns that the outbox has not.
abbrev pub LaneOk : Lane → Message → Type 0
LaneOk Lane.inbox m = elim m.status [ sent ↦ ⊥ | cancelled ↦ ⊥ | _ ↦ Unit ]
LaneOk Lane.outbox m =
    (m.native_input ≡ none)
    × (m.source_message_id ≡ none)
    × (elim m.status [ accepted ↦ ⊥ | _ ↦ Unit ])

pub record MessageOk (lane : Lane) (bound : ℕ) (m : Message) : Type 0 where
  pub status_ok : StatusOk m
  pub lane_ok : LaneOk lane m
  pub drawn : IsDrawn bound m.lease_token
  pub id_drawn : m.id < bound

pub MessageOk-grow :
    (lane : Lane) (b b' : ℕ) → b ≤ b' → (m : Message) → MessageOk lane b m → MessageOk lane b' m
MessageOk-grow lane b b' le m h = record {
  status_ok = h.status_ok;
  lane_ok = h.lane_ok;
  drawn = IsDrawn-grow b b' m.lease_token le h.drawn;
  id_drawn = omega (arith, h.id_drawn);
}

abbrev pub is_final : Status → Bool
is_final accepted = true
is_final sent = true
is_final Status.failed = true
is_final cancelled = true
is_final _ = false

-- The edges of the state machine of each table: only a dispatching message becomes uncertain or
-- fails, and an uncertain one is sent again by itself in the inbox alone.
abbrev pub may_follow : Lane → Status → Status → Bool
may_follow lane queued queued = true
may_follow lane queued dispatching = true
may_follow Lane.outbox queued cancelled = true
may_follow lane dispatching s = true
may_follow lane Status.uncertain Status.uncertain = true
may_follow Lane.inbox Status.uncertain dispatching = true
may_follow Lane.outbox Status.uncertain sent = true
may_follow Lane.outbox Status.uncertain cancelled = true
may_follow Lane.outbox Status.uncertain queued = true
may_follow lane accepted accepted = true
may_follow lane sent sent = true
may_follow lane Status.failed Status.failed = true
may_follow lane cancelled cancelled = true
may_follow lane _ _ = false

-- A snapshot of where a message came from is taken once: only its content is added.
abbrev pub HandoffFollows : Option Handoff → Option Handoff → Type 0
HandoffFollows none new = Unit
HandoffFollows (some h) none = ⊥
HandoffFollows (some h) (some k) =
    (k.input_id ≡ h.input_id)
    × (k.channel ≡ h.channel)
    × (k.address ≡ h.address)
    × (k.principal_id ≡ h.principal_id)

pub record Evolves (bound : ℕ) (m n : Message) : Type 0 where
  pub same_id : n.id ≡ m.id
  pub same_identity : n.identity_id ≡ m.identity_id
  pub same_key : n.key ≡ m.key
  pub same_hash : n.hash ≡ m.hash
  pub same_payload : n.payload ≡ m.payload
  pub same_source : n.source_message_id ≡ m.source_message_id
  pub same_sequence : n.sequence ≡ m.sequence
  pub attempts_le : m.attempts ≤ n.attempts
  pub handoff : HandoffFollows m.native_input n.native_input
  pub token : TokenFollows bound m.lease_token n.lease_token
  pub settled : is_final m.status ≡ true → n ≡ m

-- What one call does to a row: an edge of the state machine, or nothing.
abbrev pub Moves : Lane → ℕ → Message → Message → Type 0
Moves lane bound m n = (may_follow lane m.status n.status ≡ true) × Evolves bound m n

pub may_follow_refl : (lane : Lane) (s : Status) → may_follow lane s s ≡ true
may_follow_refl lane queued = refl
may_follow_refl lane Status.uncertain = refl
may_follow_refl lane _ = refl

HandoffFollows-refl : (h : Option Handoff) → HandoffFollows h h
HandoffFollows-refl none = tt
HandoffFollows-refl (some h) = (refl, refl, refl, refl)

HandoffFollows-trans :
    (g h k : Option Handoff) → HandoffFollows g h → HandoffFollows h k → HandoffFollows g k
HandoffFollows-trans none h k a b = tt
HandoffFollows-trans (some g) none k a b = absurd a
HandoffFollows-trans (some g) (some h) none a b = absurd b
HandoffFollows-trans (some g) (some h) (some k) a b =
    let (a₁, a₂, a₃, a₄) = a in let (b₁, b₂, b₃, b₄) = b in (b₁ ∙ a₁, b₂ ∙ a₂, b₃ ∙ a₃, b₄ ∙ a₄)

pub Evolves-refl : (bound : ℕ) (m : Message) → Evolves bound m m
Evolves-refl bound m = record {
  same_id = refl;
  same_identity = refl;
  same_key = refl;
  same_hash = refl;
  same_payload = refl;
  same_source = refl;
  same_sequence = refl;
  attempts_le = omega arith;
  handoff = HandoffFollows-refl m.native_input;
  token = TokenFollows-refl bound m.lease_token;
  settled = λ _. refl;
}

pub Moves-refl : (lane : Lane) (bound : ℕ) (m : Message) → Moves lane bound m m
Moves-refl lane bound m = (may_follow_refl lane m.status, Evolves-refl bound m)

pub Evolves-trans :
    (b c : ℕ) (m n o : Message) → b ≤ c → Evolves b m n → Evolves c n o → Evolves b m o
Evolves-trans b c m n o le h k = record {
  same_id = k.same_id ∙ h.same_id;
  same_identity = k.same_identity ∙ h.same_identity;
  same_key = k.same_key ∙ h.same_key;
  same_hash = k.same_hash ∙ h.same_hash;
  same_payload = k.same_payload ∙ h.same_payload;
  same_source = k.same_source ∙ h.same_source;
  same_sequence = k.same_sequence ∙ h.same_sequence;
  attempts_le = omega (arith, h.attempts_le, k.attempts_le);
  handoff = HandoffFollows-trans m.native_input n.native_input o.native_input h.handoff k.handoff;
  token = TokenFollows-trans b c m.lease_token n.lease_token o.lease_token le h.token k.token;
  settled = λ e.
      let same : n ≡ m = h.settled e in
      k.settled (ap (λ (x : Message). is_final x.status) same ∙ e) ∙ same;
}

-- A row that a call has inserted.
abbrev pub IsNew : ℕ → Message → Type 0
IsNew bound m = (m.status ≡ queued) × (m.lease_token ≡ none) × (bound ≤ m.id)

-- What a change has to keep of a row.
abbrev pub Keeps : Lane → ℕ → ℕ → Message → Message → Type 0
Keeps lane b b' m n = MessageOk lane b' n × Moves lane b m n
