-- ===== src/Messaging/Invariant/Inserts.antt =====
-- Inserts and the handoff of an inbox message, which inserts its transcripts, keep the tables sound.
use open_instinct.Base.{
  Extends, Extends-refl, Extends-append, Extends-trans, ℕ, ◌+◌, ◌≤◌, ◌≡◌, refl, sym, ◌∙◌, inl, inr,
  false, Option, none, List, [], ◌∷◌, ◌++◌, map, Text, arith, All, All-mono, All-append, find_first,
  Bool-cases, Option-cases, ◌==◌, DistinctIds-append,
}
use mathlib.Core.Path.{subst}
use mathlib.Core.List.{map-append}
use open_instinct.Base.Results.{done, Holds, Holds-bind, Holds-mono, with_transaction-Holds}
use open_instinct.Messaging.Payload.{Digest, MessagePayload, canonical_payload}
use open_instinct.Messaging.Rows.{
  Message, Db, Lane, inbox, outbox, table, set_table, message_receipt_schema, decode_receipt, Lease,
}
use open_instinct.Messaging.Queue.{
  lock_active, message_hash, has_key, queued_message, replayed, append_message, insert_message,
  insert,
}
use open_instinct.Messaging.Service.{transcript_key, transcript_payload, insert_transcripts}
use open_instinct.Messaging.Lifecycle.{MessageOk, MessageOk-grow, Moves, IsNew}
use open_instinct.Messaging.Invariant.{in_flight, is_in_flight, TableOk, by_lane, DbOk, Sound}
use open_instinct.Messaging.Invariant.Updates.{Sound-refl, TableOk-grow}

-- A call that only inserts messages.
pub record Inserted (db db' : Db) : Type 0 where
  pub ok : DbOk db'
  pub extends : (lane : Lane) → Extends ◌≡◌ (IsNew db.next_uuid) (table lane db) (table lane db')
  pub same_audit : db'.resolutions ≡ db.resolutions
  pub same_answers : db'.responses ≡ db.responses
  pub drawn_le : db.next_uuid ≤ db'.next_uuid

Inserted-refl : (db : Db) → DbOk db → Inserted db db
Inserted-refl db h = record {
  ok = h;
  extends = λ lane. Extends-refl ◌≡◌ _ (λ m. refl) (table lane db);
  same_audit = refl;
  same_answers = refl;
  drawn_le = omega arith;
}

IsNew-weaken : (b c : ℕ) → b ≤ c → (m : Message) → IsNew c m → IsNew b m
IsNew-weaken b c le m n = (n.0, n.1, omega (arith, n.2))

Inserted-trans : (a b c : Db) → Inserted a b → Inserted b c → Inserted a c
Inserted-trans a b c g k = record {
  ok = k.ok;
  extends = λ lane.
      Extends-trans ◌≡◌ ◌≡◌ ◌≡◌ (IsNew a.next_uuid) (IsNew b.next_uuid) (λ q r s p t. p ∙ t)
        (λ r s n e. subst (IsNew a.next_uuid) e n) (IsNew-weaken a.next_uuid b.next_uuid g.drawn_le)
        (table lane a) (table lane b) (table lane c) (g.extends lane) (k.extends lane);
  same_audit = k.same_audit ∙ g.same_audit;
  same_answers = k.same_answers ∙ g.same_answers;
  drawn_le = omega (arith, g.drawn_le, k.drawn_le);
}

-- Inserts after a call that changes messages.
pub Sound-Inserted : (a b c : Db) → Sound a b → Inserted b c → Sound a c
Sound-Inserted a b c s k = record {
  ok = k.ok;
  extends = λ lane.
      Extends-trans (Moves lane a.next_uuid) ◌≡◌ (Moves lane a.next_uuid) (IsNew a.next_uuid)
        (IsNew b.next_uuid) (λ q r t p e. subst (Moves lane a.next_uuid q) e p)
        (λ r t n e. subst (IsNew a.next_uuid) e n) (IsNew-weaken a.next_uuid b.next_uuid s.drawn_le)
        (table lane a) (table lane b) (table lane c) (s.extends lane) (k.extends lane);
  audit = rw k.same_audit s.audit;
  answers = rw k.same_answers s.answers;
  drawn_le = omega (arith, s.drawn_le, k.drawn_le);
}

ids_below :
    (lane : Lane) (b : ℕ) (ms : List Message)
    → All (MessageOk lane b) ms
    → All (λ i. (i == b) ≡ false) (map (λ (m : Message). m.id) ms)
ids_below lane b [] h = tt
ids_below lane b (m ∷ ms) h = (ground (arith, (h.0).id_drawn), ids_below lane b ms h.1)

in_flight-append :
    (i : ℕ) (ms : List Message) (m : Message)
    → is_in_flight i m ≡ false
    → in_flight i (ms ++ m ∷ []) ≡ in_flight i ms
in_flight-append i [] m e = rw e
in_flight-append i (n ∷ ms) m e = rw (in_flight-append i ms m e)

pub decode_receipt-done : (m n : Message) → decode_receipt m ≡ done n → n ≡ m
unfolding decode_receipt
decode_receipt-done m n e = elim (Bool-cases (message_receipt_schema m)) [
  | inl t ↦ ground (arith, rw t at e)
  | inr u ↦ absurd (ground (arith, rw u at e))
]

module _ (lane : Lane) (db : Db) (h : DbOk db) where
  appended_table :
      (m : Message)
      → MessageOk lane (db.next_uuid + 1) m
      → m.id ≡ db.next_uuid
      → ((i : ℕ) → is_in_flight i m ≡ false)
      → TableOk lane (db.next_uuid + 1) (table lane db ++ m ∷ [])
  appended_table m ok new idle =
      let b = db.next_uuid in
      let t = h lane in
      record {
        rows_ok =
            All-append (MessageOk lane (b + 1)) (table lane db) (m ∷ [])
              (All-mono (MessageOk lane b) _ (MessageOk-grow lane b (b + 1) (omega arith))
                (table lane db) t.rows_ok)
              (ok, tt);
        ids =
            rw (map-append, new)
              (DistinctIds-append _ b t.ids (ids_below lane b (table lane db) t.rows_ok));
        single = λ i. rw (in_flight-append i (table lane db) m (idle i)) (t.single i);
      }

module _ (identity_id : ℕ) (key hash : Text) (source : Option Text) (payload : MessagePayload) where
  queued_message-MessageOk :
      (lane : Lane) (b sequence : ℕ)
      → MessageOk lane (b + 1) (queued_message lane b sequence identity_id key hash source payload)
  unfolding queued_message
  queued_message-MessageOk inbox b sequence = ground arith
  queued_message-MessageOk outbox b sequence = ground arith

  queued_message-IsNew :
      (lane : Lane) (b sequence : ℕ)
      → IsNew b (queued_message lane b sequence identity_id key hash source payload)
  unfolding queued_message
  queued_message-IsNew lane b sequence = (refl, refl, omega arith)

  queued_message-idle :
      (lane : Lane) (b sequence i : ℕ)
      → is_in_flight i (queued_message lane b sequence identity_id key hash source payload) ≡ false
  unfolding queued_message
  queued_message-idle lane b sequence i = ground arith

  queued_message-id :
      (lane : Lane) (b sequence : ℕ)
      → (queued_message lane b sequence identity_id key hash source payload).id ≡ b
  unfolding queued_message
  queued_message-id lane b sequence = refl

  appended-Inserted :
      (lane : Lane) (db : Db)
      → DbOk db
      → Inserted db (
          append_message lane
            (queued_message lane db.next_uuid db.next_sequence identity_id key hash source payload)
            db)
  unfolding append_message
  appended-Inserted lane db h =
      let b = db.next_uuid in
      let n = db.next_sequence in
      let m = λ (l : Lane). queued_message l b n identity_id key hash source payload in
      let ok = λ (l : Lane).
        appended_table l db h (m l) (queued_message-MessageOk l b n) (queued_message-id l b n)
          (queued_message-idle l b n) in
      let rows = λ (l : Lane).
        Extends-append ◌≡◌ (IsNew b) (λ r. refl) (table l db) (m l ∷ [])
          (queued_message-IsNew l b n, tt) in
      let kept = λ (l : Lane). TableOk-grow l b (b + 1) (omega arith) (table l db) (h l) in
      let same = λ (l : Lane). Extends-refl ◌≡◌ (IsNew b) (λ m. refl) (table l db) in
      elim lane
        as (λ l. Inserted db (record (set_table l (table l db ++ m l ∷ []) db) {
          next_uuid = b + 1;
          next_sequence = n + 1;
        })) [
          | inbox ↦ record {
            ok = by_lane _ (ok inbox) (kept outbox);
            extends = by_lane _ (rows inbox) (same outbox);
            same_audit = refl;
            same_answers = refl;
            drawn_le = omega arith;
          }
          | outbox ↦ record {
            ok = by_lane _ (kept inbox) (ok outbox);
            extends = by_lane _ (same inbox) (rows outbox);
            same_audit = refl;
            same_answers = refl;
            drawn_le = omega arith;
          }
        ]

module _ (d : Digest) where
  insert_message-Holds :
      (lane : Lane) (identity_id : ℕ) (key : Text) (source : Option Text) (payload : MessagePayload)
      (db : Db)
      → DbOk db
      → Holds
          (λ (x : Message × Db). Inserted db x.1)
          (insert_message d lane identity_id key source payload db)
  unfolding insert_message
  insert_message-Holds lane i key source payload db h =
      let canonical = canonical_payload payload in
      let hash = message_hash d lane source canonical in
      let m = queued_message lane db.next_uuid db.next_sequence i key hash source canonical in
      Holds-bind _ (lock_active i db) _ (λ _ _.
        elim (Option-cases (find_first (has_key lane db.identities i key) (table lane db))) [
          | inr (previous, e) ↦
              rw e (
                Holds-bind _ (replayed previous hash (table lane db)) _ (λ _ _. Inserted-refl db h))
          | inl e ↦ rw e (
              Holds-bind _ (decode_receipt m) _ (λ n t.
                subst (λ x. Inserted db (append_message lane x db))
                  (sym (decode_receipt-done m n t))
                  (appended-Inserted i key hash source canonical lane db h)))
        ])

  pub insert-Sound :
      (lane : Lane) (identity_id : ℕ) (key : Text) (source : Option Text) (payload : MessagePayload)
      (db : Db)
      → DbOk db
      → Sound db (insert d lane identity_id key source payload db).1
  unfolding insert
  insert-Sound lane i key source payload db h =
      with_transaction-Holds (Sound db) db _ (Sound-refl db h) (
        Holds-mono _ _ (insert_message d lane i key source payload db)
          (λ x g. Sound-Inserted db db x.1 (Sound-refl db h) g)
          (insert_message-Holds lane i key source payload db h))

  pub insert_transcripts-Holds :
      (lease : Lease) (index : ℕ) (transcripts : List Text) (db : Db)
      → DbOk db
      → Holds
          (λ (x : Unit {0} × Db). Inserted db x.1)
          (insert_transcripts d lease index transcripts db)
  unfolding insert_transcripts
  insert_transcripts-Holds lease index [] db h = Inserted-refl db h
  insert_transcripts-Holds lease index (t ∷ ts) db h =
      Holds-bind _
        (insert_message d outbox lease.identity_id (transcript_key d lease.id index) none
          (transcript_payload t) db)
        _
        (λ x e.
          let g = subst (Holds (λ (x : Message × Db). Inserted db x.1)) e (
            insert_message-Holds outbox lease.identity_id (transcript_key d lease.id index) none
              (transcript_payload t) db h) in
          Holds-mono _ _ (insert_transcripts d lease (index + 1) ts x.1)
            (λ y k. Inserted-trans db x.1 y.1 g k)
            (insert_transcripts-Holds lease (index + 1) ts x.1 g.ok))
