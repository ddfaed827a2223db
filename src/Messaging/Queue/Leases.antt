-- ===== src/Messaging/Queue/Leases.antt =====
-- What the holder of a lease may call, of server/messaging/store.ts: requireLease, complete, stop and
-- scheduleRetry. A call takes an instant for each of its statements that reads
-- clock_timestamp().
use open_instinct.Base.{
  ℕ, ◌+◌, ◌*◌, Bool, false, ◌&&◌, Option, none, some, Text, find_first, update_where, returning,
  null_eq, ltb, ◌==◌, min, max,
}
use open_instinct.Base.Results.{done, found_or, ◌>>=◌, ◌>>◌, with_transaction}
use open_instinct.Messaging.Rows.{
  Status, queued, DeliveryFailure, adapter_rate_limited, failure, Message, Db, Lane, table,
  set_table, completed_status, MessagingError, lease_lost, Lease, Answer, decode_receipt,
  is_dispatching,
}
use open_instinct.Messaging.Queue.Insert.{lock_active}

-- `lease_expires_at > clock_timestamp()`
abbrev pub null_gt : Option ℕ → ℕ → Bool
null_gt none now = false
null_gt (some e) now = ltb now e

unfoldable pub is_leased : Lease → ℕ → Message → Bool
is_leased lease now m =
    m.id == lease.id
    && m.identity_id == lease.identity_id
    && is_dispatching m.status
    && null_eq m.lease_token lease.lease_token
    && null_gt m.lease_expires_at now

unfoldable pub require_lease : Lane → Lease → ℕ → Db → Answer Message
require_lease lane lease now db = do
  lock_active lease.identity_id db
  m ← found_or (lease_lost lease.id) (find_first (is_leased lease now) (table lane db))
  decode_receipt m

unfoldable pub check_lease : Lane → Lease → ℕ → Db → Answer Message
check_lease lane lease now db = require_lease lane lease now db

-- The condition of the updates of a lease's holder.
unfoldable pub still_leased : Lease → ℕ → Message → Bool
still_leased lease now m =
    m.id == lease.id && null_eq m.lease_token lease.lease_token && null_gt m.lease_expires_at now

-- `UPDATE ... RETURNING`, whose row is decoded, and whose absence is an error.
unfoldable pub update_returning :
    MessagingError → Lane → (Message → Bool) → (Message → Message) → Db → Answer (Message × Db)
update_returning e lane c f db = do
  m ← found_or e (returning c f (table lane db))
  m' ← decode_receipt m
  done (m', set_table lane (update_where c f (table lane db)) db)

-- The calls of a lease's holder: the lease is required, and the row is updated.
unfoldable pub write_leased : Lane → Lease → (Message → Message) → ℕ → ℕ → Db → Answer Message × Db
write_leased lane lease f checked now db = with_transaction db (do
  require_lease lane lease checked db >>= λ _. done tt
  update_returning (lease_lost lease.id) lane (still_leased lease now) f db)

unfoldable pub completed_message : Lane → Text → ℕ → Message → Message
completed_message lane result_id now m = record m {
  status = completed_status lane;
  lease_token = none;
  lease_expires_at = none;
  result_id = some result_id;
  completed_at = some now;
  last_error = none;
}

unfoldable pub complete : Lane → Lease → Text → ℕ → ℕ → Db → Answer Message × Db
unfolding write_leased
complete lane lease result_id checked now db =
    write_leased lane lease (completed_message lane result_id now) checked now db

pub data StopStatus : Type 0 where
  uncertain failed : StopStatus

abbrev pub stop_status : StopStatus → Status
stop_status StopStatus.uncertain = Status.uncertain
stop_status StopStatus.failed = Status.failed

unfoldable pub stopped_message : StopStatus → DeliveryFailure → Message → Message
stopped_message status reason m = record m {
  status = stop_status status;
  lease_token = none;
  lease_expires_at = none;
  last_error = some (failure reason);
}

unfoldable pub stop : Lane → Lease → StopStatus → DeliveryFailure → ℕ → ℕ → Db → Answer Message × Db
unfolding write_leased
stop lane lease status reason checked now db =
    write_leased lane lease (stopped_message status reason) checked now db

-- `Math.min(Math.max(Math.floor(retryAfterSeconds), 1), 3_600)`, of a natural number.
unfoldable pub retry_seconds : ℕ → ℕ
retry_seconds retry_after_seconds = min (max retry_after_seconds 1) 3600

unfoldable pub retried_message : ℕ → ℕ → Message → Message
unfolding retry_seconds
retried_message retry_after_seconds now m = record m {
  status = queued;
  lease_token = none;
  lease_expires_at = some (now + retry_seconds retry_after_seconds * 1000);
  last_error = some (failure adapter_rate_limited);
}

unfoldable pub schedule_retry : Lane → Lease → ℕ → ℕ → ℕ → Db → Answer Message × Db
unfolding write_leased
schedule_retry lane lease retry_after_seconds checked now db =
    write_leased lane lease (retried_message retry_after_seconds now) checked now db
