-- ===== src/Messaging/Steps/Fencing.antt =====
-- Lease tokens fence: whoever has lost the lease of a message changes nothing any more, and no later
-- call gives the lease back.
use open_instinct.Base.{
  Extends, ℕ, ◌<◌, ◌≡◌, ◌&&◌, true, false, List, [], ◌∷◌, Text, arith, ◌==◌, All, All-mono,
  find_first-none, null_eq,
}
use open_instinct.Base.Results.{fail, with_transaction}
use open_instinct.Messaging.Payload.{Digest}
use open_instinct.Messaging.Rows.{
  DeliveryFailure, Message, Db, Lane, table, Lease, lease_lost, find_identity,
}
use open_instinct.Messaging.Queue.{
  is_active_identity, lock_active, is_leased, require_lease, write_leased, complete, StopStatus,
  stop, schedule_retry,
}
use open_instinct.Messaging.Lifecycle.{Evolves, Moves, IsNew}
use open_instinct.Messaging.Invariant.{DbOk}
use open_instinct.Messaging.Steps.{Reach, here, next, Step-Kept, Reach-Kept}

-- No row with the id of the lease holds its token.
abbrev pub IsLost : Lane → Lease → Db → Type 0
IsLost lane lease db =
    All (λ m. (m.id == lease.id && null_eq m.lease_token lease.lease_token) ≡ false) (table lane db)

moved-lost :
    (b : ℕ) (lease : Lease) (m n : Message)
    → lease.lease_token < b
    → Evolves b m n
    → (m.id == lease.id && null_eq m.lease_token lease.lease_token) ≡ false
    → (n.id == lease.id && null_eq n.lease_token lease.lease_token) ≡ false
moved-lost b lease m n drawn e l = ground arith

extended-lost :
    (lane : Lane) (b : ℕ) (lease : Lease) (ms ns : List Message)
    → lease.lease_token < b
    → Extends (Moves lane b) (IsNew b) ms ns
    → All (λ m. (m.id == lease.id && null_eq m.lease_token lease.lease_token) ≡ false) ms
    → All (λ m. (m.id == lease.id && null_eq m.lease_token lease.lease_token) ≡ false) ns
extended-lost lane b lease [] ns drawn e l =
    All-mono (IsNew b) _ (λ n new. ground (arith, new)) ns e
extended-lost lane b lease (m ∷ ms) [] drawn e l = absurd e
extended-lost lane b lease (m ∷ ms) (n ∷ ns) drawn e l =
    (moved-lost b lease m n drawn (e.0).1 l.0, extended-lost lane b lease ms ns drawn e.1 l.1)

-- A lease whose token has been drawn and that the message does not hold is never held by it again,
-- whatever sequence of calls follows.
pub Reach-lease-IsLost :
    (d : Digest) (lane : Lane) (lease : Lease) {db db' : Db}
    → DbOk db
    → lease.lease_token < db.next_uuid
    → IsLost lane lease db
    → Reach d db db'
    → IsLost lane lease db'
Reach-lease-IsLost d lane lease h drawn l here = l
Reach-lease-IsLost d lane lease {db} h drawn l (next {e} {f} r s) =
    let later = Reach-Kept d h r in
    extended-lost lane e.next_uuid lease (table lane e) (table lane f)
      (omega (arith, later.drawn_le)) ((Step-Kept d later.ok s).extends lane)
      (Reach-lease-IsLost d lane lease h drawn l r)

is_leased-lost :
    (lease : Lease) (now : ℕ) (m : Message)
    → (m.id == lease.id && null_eq m.lease_token lease.lease_token) ≡ false
    → is_leased lease now m ≡ false
unfolding is_leased
is_leased-lost lease now m l = ground arith

write-lost :
    (lane : Lane) (lease : Lease) (f : Message → Message) (checked now : ℕ) (db : Db)
    → IsLost lane lease db
    → is_active_identity (find_identity lease.identity_id db) ≡ true
    → write_leased lane lease f checked now db ≡ (fail (lease_lost lease.id), db)
unfolding write_leased require_lease lock_active with_transaction
write-lost lane lease f checked now db l active = rw (
  active,
  find_first-none (is_leased lease checked) (table lane db)
      (All-mono _ _ (is_leased-lost lease checked) (table lane db) l),
)

-- The holder of a lost lease changes nothing: completing the message, stopping it and retrying it
-- fail with `lease_lost` and leave the tables, as long as the identity is active.
pub lost_lease-refused :
    (lane : Lane) (lease : Lease) (result_id : Text) (status : StopStatus)
    (reason : DeliveryFailure) (retry_after_seconds checked now : ℕ) (db : Db)
    → IsLost lane lease db
    → is_active_identity (find_identity lease.identity_id db) ≡ true
    → (complete lane lease result_id checked now db ≡ (fail (lease_lost lease.id), db))
      × (stop lane lease status reason checked now db ≡ (fail (lease_lost lease.id), db))
      × (schedule_retry lane lease retry_after_seconds checked now db
          ≡ (fail (lease_lost lease.id), db))
unfolding complete stop schedule_retry
lost_lease-refused lane lease result_id status reason seconds checked now db l active = (
  write-lost lane lease _ checked now db l active,
  write-lost lane lease _ checked now db l active,
  write-lost lane lease _ checked now db l active,
)
