-- ===== src/Messaging/Lifecycle/Changes.antt =====
-- Each change that the store makes to a message keeps the row's invariant and is an edge of the
-- state machine of its table.
use open_instinct.Base.{ℕ, ◌+◌, ◌≡◌, true, Text, arith}
use open_instinct.Messaging.Payload.{Digest, Content}
use open_instinct.Messaging.Rows.{DeliveryFailure, Identity, Lane, Lease, Message}
use open_instinct.Messaging.Queue.{
  StopStatus, is_expired, expired_message, is_queued_for, revoked_message, is_claimable,
  is_recoverable, claimed_message, snapshot, still_leased, completed_message, stopped_message,
  retried_message,
}
use open_instinct.Messaging.Resolve.{Decision, is_unresolved, resolved_message}
use open_instinct.Messaging.Service.{is_preparable, prepared_message}
use open_instinct.Messaging.Lifecycle.{MessageOk, Keeps}

module _ (b : ℕ) (m : Message) where
  module _ (lane : Lane) (h : MessageOk lane b m) where
    pub expired_message-Keeps :
        (identity_id now : ℕ)
        → is_expired identity_id now m ≡ true
        → Keeps lane b b m (expired_message m)
    unfolding is_expired expired_message
    expired_message-Keeps identity_id now e = ground arith

    pub completed_message-Keeps :
        (lease : Lease) (result_id : Text) (now : ℕ)
        → still_leased lease now m ≡ true
        → Keeps lane b b m (completed_message lane result_id now m)
    unfolding still_leased completed_message
    completed_message-Keeps lease result_id now e = ground arith

    pub stopped_message-Keeps :
        (lease : Lease) (status : StopStatus) (reason : DeliveryFailure) (now : ℕ)
        → still_leased lease now m ≡ true
        → Keeps lane b b m (stopped_message status reason m)
    unfolding still_leased stopped_message
    stopped_message-Keeps lease status reason now e = ground arith

    pub retried_message-Keeps :
        (lease : Lease) (retry_after_seconds now : ℕ)
        → still_leased lease now m ≡ true
        → Keeps lane b b m (retried_message retry_after_seconds now m)
    unfolding still_leased retried_message
    retried_message-Keeps lease retry_after_seconds now e = ground arith

    pub claimed_message-Keeps :
        (d : Digest) (identity : Identity) (expires : ℕ)
        → is_claimable lane identity.id m ≡ true
        → Keeps lane b (b + 1) m (claimed_message d lane identity b expires m)
    unfolding is_claimable is_recoverable claimed_message snapshot
    claimed_message-Keeps d identity expires e = ground arith

  module _ (h : MessageOk Lane.outbox b m) where
    pub revoked_message-Keeps :
        (identity_id : ℕ)
        → is_queued_for identity_id m ≡ true
        → Keeps Lane.outbox b b m (revoked_message m)
    unfolding is_queued_for revoked_message
    revoked_message-Keeps identity_id e = ground arith

    pub resolved_message-Keeps :
        (id : ℕ) (decision : Decision) (now : ℕ)
        → is_unresolved id m ≡ true
        → Keeps Lane.outbox b b m (resolved_message decision now m)
    unfolding is_unresolved resolved_message
    resolved_message-Keeps id decision now e = ground arith

  module _ (h : MessageOk Lane.inbox b m) where
    pub prepared_message-Keeps :
        (lease : Lease) (content : Content) (now : ℕ)
        → is_preparable lease content now m ≡ true
        → Keeps Lane.inbox b b m (prepared_message content m)
    unfolding is_preparable prepared_message
    prepared_message-Keeps lease content now e = ground arith
