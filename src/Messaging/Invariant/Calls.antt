-- ===== src/Messaging/Invariant/Calls.antt =====
-- The calls of the holder of a lease, the reconciliation of an uncertain message and the marks of
-- the responses keep the tables sound.
use open_instinct.Base.{
  Extends, Extends-append, Extends-update_where, ℕ, ◌+◌, ◌≤◌, ◌≡◌, refl, inl, inr, Bool, true, none,
  some, List, [], ◌∷◌, ◌++◌, Text, arith, All-of, update_where, select, take, find_first, returning,
  Option-cases,
}
use open_instinct.Base.Results.{
  fail, done, found_or, ◌>>=◌, Holds, Holds-bind, Holds-if, with_transaction-Holds,
}
use open_instinct.Messaging.Rows.{
  DeliveryFailure, Message, InputResponse, Db, Lane, inbox, outbox, table, set_table,
  MessagingError, Lease, decode_receipt, is_uncertain, invalid_message,
}
use open_instinct.Messaging.Queue.{
  still_leased, update_returning, write_leased, require_lease, completed_message, complete,
  lock_active, StopStatus, stopped_message, stop, retried_message, schedule_retry,
}
use open_instinct.Messaging.Resolve.{
  Decision, mark_delivered, cancel, authorize_retry, ResolveInput, is_unresolved, resolved_message,
  write_resolution, settled_answer, resolve_row, resolve_uncertain, lock_for, is_row_of,
  resolution_of,
}
use open_instinct.Messaging.Responses.{
  ClaimResponse, ClaimAnswer, is_source, only_row, record_response, claim_response,
  claim_channel_input_response, Mark, is_open_response, marked_response,
  mark_channel_input_response, attempted_response, is_answered,
}
use open_instinct.Messaging.Lifecycle.{MessageOk, Keeps}
use open_instinct.Messaging.Lifecycle.Changes
use open_instinct.Messaging.Invariant.{by_lane, DbOk, ResponseMoves, Sound}
use open_instinct.Messaging.Invariant.Updates.{
  Sound-refl, write_table-Sound, update-Sound, unchanged, audit_refl, answers_refl, Calm,
  TableOk-grow, ResponseMoves-refl,
}

resolved-id :
    (decision : Decision) (now : ℕ) (m : Message)
    → ((resolved_message decision now m).id ≡ m.id)
      × ((resolved_message decision now m).identity_id ≡ m.identity_id)
unfolding resolved_message
resolved-id (mark_delivered _) now m = (refl, refl)
resolved-id (cancel _) now m = (refl, refl)
resolved-id authorize_retry now m = (refl, refl)

resolved-Calm :
    (decision : Decision) (now : ℕ) (m : Message) → Calm m (resolved_message decision now m)
unfolding resolved_message
resolved-Calm decision now m e = ground arith

marked-ResponseMoves :
    (id : ℕ) (mark : Mark) (now : ℕ) (r : InputResponse)
    → is_open_response id r ≡ true
    → ResponseMoves r (marked_response mark now r)
unfolding is_open_response marked_response
marked-ResponseMoves id mark now r e = ground arith

module _ (db : Db) (h : DbOk db) where
  pub updated-Sound :
      (lane : Lane) (c : Message → Bool) (f : Message → Message)
      → ((m : Message) → (f m).id ≡ m.id)
      → ((m : Message) → (f m).identity_id ≡ m.identity_id)
      → ((m : Message)
          → c m ≡ true
          → MessageOk lane db.next_uuid m
          → Keeps lane db.next_uuid db.next_uuid m (f m))
      → ((m : Message) → c m ≡ true → Calm m (f m))
      → Sound db (set_table lane (update_where c f (table lane db)) db)
  updated-Sound inbox c f same same_identity keep calm =
      write_table-Sound db h inbox db.next_uuid _ (omega arith)
        (update-Sound db h inbox c f same same_identity keep calm)
  updated-Sound outbox c f same same_identity keep calm =
      write_table-Sound db h outbox db.next_uuid _ (omega arith)
        (update-Sound db h outbox c f same same_identity keep calm)

  update_returning-Holds :
      (e : MessagingError) (lane : Lane) (c : Message → Bool) (f : Message → Message)
      → Sound db (set_table lane (update_where c f (table lane db)) db)
      → Holds (λ (x : Message × Db). Sound db x.1) (update_returning e lane c f db)
  unfolding update_returning
  update_returning-Holds e lane c f s =
      Holds-bind _ (found_or e (returning c f (table lane db))) _
        (λ m _. Holds-bind _ (decode_receipt m) _ (λ m' _. s))

  module _ (lane : Lane) (lease : Lease) (checked now : ℕ) where
    write_leased-Sound :
        (f : Message → Message)
        → ((m : Message) → (f m).id ≡ m.id)
        → ((m : Message) → (f m).identity_id ≡ m.identity_id)
        → ((m : Message)
            → still_leased lease now m ≡ true
            → MessageOk lane db.next_uuid m
            → Keeps lane db.next_uuid db.next_uuid m (f m))
        → ((m : Message) → Calm m (f m))
        → Sound db (write_leased lane lease f checked now db).1
    unfolding write_leased
    write_leased-Sound f same same_identity keep calm =
        with_transaction-Holds (Sound db) db _ (Sound-refl db h) (
          Holds-bind _ (require_lease lane lease checked db >>= λ _. done tt) _ (λ _ _.
            update_returning-Holds _ lane (still_leased lease now) f (
              updated-Sound lane (still_leased lease now) f same same_identity keep
                (λ m _. calm m))))

    pub complete-Sound :
        (result_id : Text) → Sound db (complete lane lease result_id checked now db).1
    unfolding complete completed_message
    complete-Sound result_id =
        write_leased-Sound (completed_message lane result_id now) (λ m. refl) (λ m. refl)
          (λ m e ok. Changes.completed_message-Keeps db.next_uuid m lane ok lease result_id now e)
          (λ m e. ground arith)

    pub stop-Sound :
        (status : StopStatus) (reason : DeliveryFailure)
        → Sound db (stop lane lease status reason checked now db).1
    unfolding stop stopped_message
    stop-Sound status reason =
        write_leased-Sound (stopped_message status reason) (λ m. refl) (λ m. refl)
          (λ m e ok. Changes.stopped_message-Keeps db.next_uuid m lane ok lease status reason now e)
          (λ m e. ground (arith))

    pub schedule_retry-Sound :
        (retry_after_seconds : ℕ)
        → Sound db (schedule_retry lane lease retry_after_seconds checked now db).1
    unfolding schedule_retry retried_message
    schedule_retry-Sound seconds =
        write_leased-Sound (retried_message seconds now) (λ m. refl) (λ m. refl)
          (λ m e ok. Changes.retried_message-Keeps db.next_uuid m lane ok lease seconds now e)
          (λ m e. ground (arith))

  module _ (input : ResolveInput) (now : ℕ) where
    resolved-Sound :
        (row : Message)
        → Sound db (record db {
          outbox =
              update_where (is_unresolved input.id) (resolved_message input.decision now) db.outbox;
          resolutions = db.resolutions ++ resolution_of db.next_uuid input row ∷ [];
          next_uuid = db.next_uuid + 1;
        })
    resolved-Sound row =
        let b = db.next_uuid in
        let c = is_unresolved input.id in
        let f = resolved_message input.decision now in
        let (ok, moves) =
          update-Sound db h outbox c f (λ m. (resolved-id input.decision now m).0)
            (λ m. (resolved-id input.decision now m).1)
            (λ m e o. Changes.resolved_message-Keeps b m o input.id input.decision now e)
            (λ m e. resolved-Calm input.decision now m) in
        record {
          ok =
              by_lane _ (TableOk-grow inbox b (b + 1) (omega arith) db.inbox (h inbox))
                (TableOk-grow outbox b (b + 1) (omega arith) _ ok);
          extends = by_lane _ (unchanged db h inbox) moves;
          audit = Extends-append ◌≡◌ _ (λ r. refl) db.resolutions _ (tt, tt);
          answers = answers_refl db h;
          drawn_le = omega arith;
        }

    write_resolution-Holds :
        (row : Message)
        → Holds (λ (x : Message × Db). Sound db x.1) (write_resolution input row now db)
    unfolding write_resolution
    write_resolution-Holds row =
        Holds-bind _ (found_or _ (returning (is_unresolved input.id) _ db.outbox)) _
          (λ m _. Holds-bind _ (decode_receipt m) _ (λ m' _. resolved-Sound row))

    resolve_row-Holds : Holds (λ (x : Message × Db). Sound db x.1) (resolve_row input now db)
    unfolding resolve_row
    resolve_row-Holds = Holds-bind _ (lock_for input db) _ (λ _ _.
        Holds-bind _ (found_or _ (find_first (is_row_of input.id input.identity_id) db.outbox)) _
          (λ row _.
            Holds-if _ (is_uncertain row.status) (write_resolution input row now db) _
              (λ _. write_resolution-Holds row)
              (λ _. Holds-bind _ (settled_answer input row db) _ (λ m _. Sound-refl db h))))

    pub resolve-Sound : (lane : Lane) → Sound db (resolve_uncertain lane input now db).1
    unfolding resolve_uncertain
    resolve-Sound inbox = Sound-refl db h
    resolve-Sound outbox =
        with_transaction-Holds (Sound db) db _ (Sound-refl db h) resolve_row-Holds

  -- A call that writes the responses alone.
  write_responses :
      (b' : ℕ) (rs : List InputResponse)
      → db.next_uuid ≤ b'
      → Extends ResponseMoves (λ (r : InputResponse). db.next_uuid ≤ r.id) db.responses rs
      → Sound db (record db { responses = rs; next_uuid = b' })
  write_responses b' rs le e = record {
    ok =
        by_lane _ (TableOk-grow inbox db.next_uuid b' le db.inbox (h inbox))
          (TableOk-grow outbox db.next_uuid b' le db.outbox (h outbox));
    extends = by_lane _ (unchanged db h inbox) (unchanged db h outbox);
    audit = audit_refl db h;
    answers = e;
    drawn_le = le;
  }

  record_response-Sound :
      (value : ClaimResponse) (inbox_id : ℕ) → Sound db (record_response value inbox_id db).1
  unfolding record_response attempted_response
  record_response-Sound value inbox_id =
      elim (Option-cases (find_first (is_answered value) db.responses)) [
        | inr (r, e) ↦ rw (e, record_response) (Sound-refl db h)
        | inl e ↦
            rw (e, record_response)
              (write_responses (db.next_uuid + 1) _ (omega arith) (
                Extends-append ResponseMoves _ ResponseMoves-refl db.responses
                  (attempted_response db.next_uuid inbox_id value ∷ []) (omega arith, tt)))
      ]

  pub claim_response-Sound :
      (value : ClaimResponse) → Sound db (claim_channel_input_response value db).1
  unfolding claim_channel_input_response claim_response
  claim_response-Sound value = with_transaction-Holds (Sound db) db _ (Sound-refl db h) (
      Holds-bind _ (lock_active value.identity_id db) _ (λ _ _.
        elim (only_row (take 2 (select (is_source value) db.inbox)))
          as (λ o.
            Holds (λ (x : ClaimAnswer × Db). Sound db x.1)
              (elim o [
                | none ↦ fail invalid_message
                | some source ↦ done (record_response value source.id db)
              ])) [ none ↦ tt | some source ↦ record_response-Sound value source.id ]))

  pub mark_response-Sound :
      (id : ℕ) (mark : Mark) (now : ℕ) → Sound db (mark_channel_input_response id mark now db).1
  unfolding mark_channel_input_response
  mark_response-Sound id mark now = write_responses db.next_uuid _ (omega arith) (
      Extends-update_where ResponseMoves _ ResponseMoves-refl (is_open_response id)
        (marked_response mark now) db.responses
        (All-of _ (marked-ResponseMoves id mark now) db.responses))
