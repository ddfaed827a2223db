-- ===== src/Messaging/Steps.antt =====
-- Any sequence of calls of the service, by any number of channels and workers: the calls are atomic,
-- their arguments and the clock are arbitrary, and the identities may change between them.
pub mod Fencing
pub mod Once
use open_instinct.Base.{
  Extends, Extends-refl, Extends-trans, ℕ, ◌≤◌, ◌≡◌, ◌⊎◌, refl, ◌∙◌, inl, inr, Bool, List, Text,
  arith,
}
use mathlib.Core.Path.{subst}
use open_instinct.Messaging.Payload.{Digest, Content}
use open_instinct.Messaging.Rows.{
  Identity, DeliveryFailure, Message, InputResponse, attempted, Db, Lane, inbox, outbox, table,
  Lease,
}
use open_instinct.Messaging.Queue.{ClaimClock, StopStatus}
use open_instinct.Messaging.Resolve.{ResolveInput}
use open_instinct.Messaging.Responses.{ClaimResponse, Mark, mark_channel_input_response}
use open_instinct.Messaging.Service.{
  with_input, accept_input_schema, enqueue_input_schema, lease_seconds_schema, adapter_id,
  resolve_input_schema, claim_response_schema, AcceptInput, EnqueueInput, accept, enqueue,
  claim_lane, mark_completed, mark_uncertain, mark_failed, resolve_outbox_uncertain,
  schedule_outbox_retry, claim_input_response, prepare_inbox_handoff,
}
use open_instinct.Messaging.Lifecycle.{Evolves, Evolves-refl, Evolves-trans, Moves, IsNew}
use open_instinct.Messaging.Invariant.{DbOk, by_lane, Sound, ResponseMoves}
use open_instinct.Messaging.Invariant.Updates.{Sound-refl, unchanged, audit_refl, answers_refl}
use open_instinct.Messaging.Invariant.Calls
use open_instinct.Messaging.Invariant.Expiry
use open_instinct.Messaging.Invariant.Inserts
use open_instinct.Messaging.Invariant.Handoffs

pub data Step (d : Digest) (db : Db) : Db → Type 0 where
  accepts : (value : AcceptInput) → Step d db (accept d value db).1
  enqueues : (value : EnqueueInput) → Step d db (enqueue d value db).1
  claims :
      (lane : Lane) (locked_identity locked_row : ℕ → Bool) (identity_id lease_seconds : ℕ)
      (now : ClaimClock)
      → Step d db (claim_lane d lane locked_identity locked_row identity_id lease_seconds now db).1
  completes :
      (lane : Lane) (lease : Lease) (result_id : Text) (checked now : ℕ)
      → Step d db (mark_completed lane lease result_id checked now db).1
  becomes_uncertain :
      (lane : Lane) (lease : Lease) (reason : DeliveryFailure) (checked now : ℕ)
      → Step d db (mark_uncertain lane lease reason checked now db).1
  fails :
      (lane : Lane) (lease : Lease) (checked now : ℕ)
      → Step d db (mark_failed lane lease checked now db).1
  resolves : (value : ResolveInput) (now : ℕ) → Step d db (resolve_outbox_uncertain value now db).1
  retries :
      (lease : Lease) (retry_after_seconds checked now : ℕ)
      → Step d db (schedule_outbox_retry lease retry_after_seconds checked now db).1
  prepares :
      (lease : Lease) (content : Content) (transcripts : List Text) (checked now later : ℕ)
      → Step d db (prepare_inbox_handoff d lease content transcripts checked now later db).1
  responds : (value : ClaimResponse) → Step d db (claim_input_response value db).1
  marks :
      (id : ℕ) (mark : Mark) (now : ℕ) → Step d db (mark_channel_input_response id mark now db).1
  links : (identities : List Identity) → Step d db (record db { identities = identities })

pub data Reach (d : Digest) (db : Db) : Db → Type 0 where
  here : Reach d db db
  next : {e f : Db} → Reach d db e → Step d e f → Reach d db f

links-Sound :
    (db : Db) (identities : List Identity)
    → DbOk db
    → Sound db (record db { identities = identities })
links-Sound db identities h = record {
  ok = by_lane _ (h inbox) (h outbox);
  extends = by_lane _ (unchanged db h inbox) (unchanged db h outbox);
  audit = audit_refl db h;
  answers = answers_refl db h;
  drawn_le = omega arith;
}

-- Every call of the service, also one that fails, keeps the tables of messages sound: the invariant
-- holds after it, so that of each identity one message of a table is in flight at most, each message
-- has made at most one move of its state machine and none is lost, the audit only grows and each
-- response keeps what was answered.
pub Step-Kept : (d : Digest) {db db' : Db} → DbOk db → Step d db db' → Sound db db'
unfolding accept enqueue claim_lane mark_completed mark_uncertain mark_failed
    resolve_outbox_uncertain schedule_outbox_retry claim_input_response
Step-Kept d {db} h (accepts v) =
    Handoffs.with_input-Sound (accept_input_schema v) db _ h
      (Inserts.insert-Sound d inbox _ _ _ _ db h)
Step-Kept d {db} h (enqueues v) =
    Handoffs.with_input-Sound (enqueue_input_schema v) db _ h
      (Inserts.insert-Sound d outbox _ _ _ _ db h)
Step-Kept d {db} h (claims lane li lr i lease_seconds now) =
    Handoffs.with_input-Sound (lease_seconds_schema lease_seconds) db _ h
      (Expiry.claim-Sound d lane li lr i lease_seconds now db h)
Step-Kept d {db} h (completes lane lease result_id checked now) =
    Handoffs.with_input-Sound (adapter_id result_id) db _ h
      (Calls.complete-Sound db h lane lease checked now result_id)
Step-Kept d {db} h (becomes_uncertain lane lease reason checked now) =
    Calls.stop-Sound db h lane lease checked now StopStatus.uncertain reason
Step-Kept d {db} h (fails lane lease checked now) =
    Calls.stop-Sound db h lane lease checked now StopStatus.failed _
Step-Kept d {db} h (resolves value now) =
    Handoffs.with_input-Sound (resolve_input_schema value) db _ h
      (Calls.resolve-Sound db h value now outbox)
Step-Kept d {db} h (retries lease seconds checked now) =
    Handoffs.with_input-Sound _ db _ h
      (Calls.schedule_retry-Sound db h outbox lease checked now seconds)
Step-Kept d {db} h (prepares lease content transcripts checked now later) =
    Handoffs.prepare-Sound d lease content transcripts checked now later db h
Step-Kept d {db} h (responds value) =
    Handoffs.with_input-Sound (claim_response_schema value) db _ h
      (Calls.claim_response-Sound db h value)
Step-Kept d {db} h (marks id mark now) = Calls.mark_response-Sound db h id mark now
Step-Kept d {db} h (links identities) = links-Sound db identities h

-- What any sequence of calls leaves.
pub record Later (db db' : Db) : Type 0 where
  pub ok : DbOk db'
  pub extends :
      (lane : Lane)
      → Extends (Evolves db.next_uuid) (λ m. db.next_uuid ≤ m.id) (table lane db) (table lane db')
  pub audit : Extends ◌≡◌ (λ _. Unit) db.resolutions db'.resolutions
  pub answers : Extends ResponseMoves (λ r. db.next_uuid ≤ r.id) db.responses db'.responses
  pub drawn_le : db.next_uuid ≤ db'.next_uuid

ResponseMoves-trans :
    (q r s : InputResponse) → ResponseMoves q r → ResponseMoves r s → ResponseMoves q s
ResponseMoves-trans q r s h k = record {
  same_id = k.same_id ∙ h.same_id;
  same_identity = k.same_identity ∙ h.same_identity;
  same_session = k.same_session ∙ h.same_session;
  same_request = k.same_request ∙ h.same_request;
  same_revision = k.same_revision ∙ h.same_revision;
  same_source = k.same_source ∙ h.same_source;
  same_turn = k.same_turn ∙ h.same_turn;
  same_decision = k.same_decision ∙ h.same_decision;
  settled = elim h.settled [
    | inl unmarked ↦ inl unmarked
    | inr same ↦ subst (λ x. (x.status ≡ attempted) ⊎ (s ≡ x)) same k.settled
  ];
}

Later-Sound : (a b c : Db) → Later a b → Sound b c → Later a c
Later-Sound a b c l s = record {
  ok = s.ok;
  extends = λ lane.
      Extends-trans (Evolves a.next_uuid) (Moves lane b.next_uuid) (Evolves a.next_uuid)
        (λ m. a.next_uuid ≤ m.id) (IsNew b.next_uuid)
        (λ m n o e k. Evolves-trans a.next_uuid b.next_uuid m n o l.drawn_le e k.1)
        (λ m n le k. omega (arith, le, k.1.same_id)) (λ m n. omega (arith, l.drawn_le, n.2))
        (table lane a) (table lane b) (table lane c) (l.extends lane) (s.extends lane);
  audit =
      Extends-trans ◌≡◌ ◌≡◌ ◌≡◌ (λ _. Unit) (λ _. Unit) (λ q r t e k. e ∙ k) (λ _ _ _ _. tt)
        (λ _ _. tt) a.resolutions b.resolutions c.resolutions l.audit s.audit;
  answers =
      Extends-trans ResponseMoves ResponseMoves ResponseMoves (λ r. a.next_uuid ≤ r.id)
        (λ r. b.next_uuid ≤ r.id) ResponseMoves-trans (λ r t le k. omega (arith, le, k.same_id))
        (λ r le. omega (arith, l.drawn_le, le)) a.responses b.responses c.responses l.answers
        s.answers;
  drawn_le = omega (arith, l.drawn_le, s.drawn_le);
}

-- After any sequence of calls on sound tables, the tables are sound, each message of before stands at
-- its place with its id, identity, key, payload and sequence, with no fewer attempts, unchanged if it
-- was accepted, sent, failed or cancelled, and with no lease token that was drawn before and that it
-- did not hold; no row of the audit has changed, and each response says what it said.
pub Reach-Kept : (d : Digest) {db db' : Db} → DbOk db → Reach d db db' → Later db db'
Reach-Kept d {db} h here = record {
  ok = h;
  extends =
      λ lane. Extends-refl (Evolves db.next_uuid) _ (Evolves-refl db.next_uuid) (table lane db);
  audit = audit_refl db h;
  answers = answers_refl db h;
  drawn_le = omega arith;
}
Reach-Kept d {db} h (next {e} {f} r s) =
    let l = Reach-Kept d h r in Later-Sound db e f l (Step-Kept d l.ok s)
