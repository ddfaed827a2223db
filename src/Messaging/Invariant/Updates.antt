-- ===== src/Messaging/Invariant/Updates.antt =====
-- UPDATEs of the messages keep the tables sound.
use open_instinct.Base.{
  Extends, Extends-refl, ℕ, ◌+◌, ◌≤◌, ◌≡◌, refl, inl, inr, Bool, true, List, [], ◌∷◌, arith, All,
  All-of, All-mono, update_where, map-update_where, Bool-cases, if◌then◌else◌,
}
use open_instinct.Messaging.Rows.{
  Message, InputResponse, Resolution, Db, Lane, inbox, outbox, table, set_table, is_dispatching,
}
use open_instinct.Messaging.Lifecycle.{MessageOk, MessageOk-grow, Moves, Moves-refl, IsNew, Keeps}
use open_instinct.Messaging.Invariant.{
  in_flight, is_in_flight, TableOk, by_lane, DbOk, ResponseMoves, Sound,
}

-- A change after which a message is in flight only if it was before.
abbrev pub Calm : Message → Message → Type 0
Calm m n = is_dispatching n.status ≡ true → is_dispatching m.status ≡ true

in_flight_le :
    (i : ℕ) (m n : Message) (x y : ℕ)
    → n.identity_id ≡ m.identity_id
    → Calm m n
    → x ≤ y
    → ((if is_in_flight i n then 1 else 0) + x) ≤ ((if is_in_flight i m then 1 else 0) + y)
in_flight_le i m n x y same calm le = ground arith

-- An UPDATE whose changes are calm sets nothing in flight.
pub in_flight-update_where :
    (i : ℕ) (c : Message → Bool) (f : Message → Message)
    → ((m : Message) → (f m).identity_id ≡ m.identity_id)
    → (ms : List Message) → All (λ m. c m ≡ true → Calm m (f m)) ms
    → in_flight i (update_where c f ms) ≤ in_flight i ms
in_flight-update_where i c f same [] calm = omega arith
in_flight-update_where i c f same (m ∷ ms) calm =
    let rest = in_flight-update_where i c f same ms calm.1 in
    elim (Bool-cases (c m)) [
      | inl e ↦ rw e (in_flight_le i m (f m) _ _ (same m) (calm.0 e) rest)
      | inr e ↦ rw e (in_flight_le i m m _ _ refl (λ x. x) rest)
    ]

module _ (lane : Lane) (b b' : ℕ) (le : b ≤ b') where
  pub TableOk-grow : (ms : List Message) → TableOk lane b ms → TableOk lane b' ms
  TableOk-grow ms h = record {
    rows_ok = All-mono (MessageOk lane b) _ (MessageOk-grow lane b b' le) ms h.rows_ok;
    ids = h.ids;
    single = h.single;
  }

  updated_rows :
      (c : Message → Bool) (f : Message → Message) (ms : List Message)
      → All (λ m. c m ≡ true → MessageOk lane b m → Keeps lane b b' m (f m)) ms
      → All (MessageOk lane b) ms
      → All (MessageOk lane b') (update_where c f ms)
        × Extends (Moves lane b) (IsNew b) ms (update_where c f ms)
  updated_rows c f [] keep h = (tt, tt)
  updated_rows c f (m ∷ ms) keep h =
      let (oks, moves) = updated_rows c f ms keep.1 h.1 in
      elim (Bool-cases (c m)) [
        | inl e ↦ rw e (let (ok, move) = keep.0 e h.0 in ((ok, oks), (move, moves)))
        | inr e ↦ rw e ((MessageOk-grow lane b b' le m h.0, oks), (Moves-refl lane b m, moves))
      ]

  -- An UPDATE that keeps each row that it selects, and leaves one message of an identity in flight.
  pub update_table :
      (c : Message → Bool) (f : Message → Message)
      → ((m : Message) → (f m).id ≡ m.id)
      → (ms : List Message) → TableOk lane b ms
      → All (λ m. c m ≡ true → MessageOk lane b m → Keeps lane b b' m (f m)) ms
      → ((i : ℕ) → in_flight i (update_where c f ms) ≤ 1)
      → TableOk lane b' (update_where c f ms)
        × Extends (Moves lane b) (IsNew b) ms (update_where c f ms)
  update_table c f same ms h keep single =
      let (oks, moves) = updated_rows c f ms keep h.rows_ok in
      (
        record {
          rows_ok = oks;
          ids = rw (map-update_where (λ (m : Message). m.id) c f same ms) h.ids;
          single = single;
        },
        moves,
      )

pub ResponseMoves-refl : (r : InputResponse) → ResponseMoves r r
ResponseMoves-refl r = record {
  same_id = refl;
  same_identity = refl;
  same_session = refl;
  same_request = refl;
  same_revision = refl;
  same_source = refl;
  same_turn = refl;
  same_decision = refl;
  settled = inr refl;
}

module _ (db : Db) (h : DbOk db) where
  pub answers_refl :
      Extends ResponseMoves (λ (r : InputResponse). db.next_uuid ≤ r.id) db.responses db.responses
  answers_refl = Extends-refl ResponseMoves _ ResponseMoves-refl db.responses

  pub audit_refl : Extends ◌≡◌ (λ (r : Resolution). Unit) db.resolutions db.resolutions
  audit_refl = Extends-refl ◌≡◌ _ (λ r. refl) db.resolutions

  pub unchanged :
      (lane : Lane)
      → Extends (Moves lane db.next_uuid) (IsNew db.next_uuid) (table lane db) (table lane db)
  unchanged lane =
      Extends-refl (Moves lane db.next_uuid) _ (Moves-refl lane db.next_uuid) (table lane db)

  -- A call that writes one table of messages alone.
  pub write_table-Sound :
      (lane : Lane) (b' : ℕ) (ms : List Message)
      → db.next_uuid ≤ b'
      → TableOk lane b' ms
        × Extends (Moves lane db.next_uuid) (IsNew db.next_uuid) (table lane db) ms
      → Sound db (record (set_table lane ms db) { next_uuid = b' })
  write_table-Sound inbox b' ms le w = record {
    ok = by_lane _ w.0 (TableOk-grow outbox db.next_uuid b' le db.outbox (h outbox));
    extends = by_lane _ w.1 (unchanged outbox);
    audit = audit_refl;
    answers = answers_refl;
    drawn_le = le;
  }
  write_table-Sound outbox b' ms le w = record {
    ok = by_lane _ (TableOk-grow inbox db.next_uuid b' le db.inbox (h inbox)) w.0;
    extends = by_lane _ (unchanged inbox) w.1;
    audit = audit_refl;
    answers = answers_refl;
    drawn_le = le;
  }

  pub Sound-refl : Sound db db
  Sound-refl = record {
    ok = h;
    extends = unchanged;
    audit = audit_refl;
    answers = answers_refl;
    drawn_le = omega arith;
  }

  -- An UPDATE whose changes are calm.
  pub update-Sound :
      (lane : Lane) (c : Message → Bool) (f : Message → Message)
      → ((m : Message) → (f m).id ≡ m.id)
      → ((m : Message) → (f m).identity_id ≡ m.identity_id)
      → ((m : Message)
          → c m ≡ true
          → MessageOk lane db.next_uuid m
          → Keeps lane db.next_uuid db.next_uuid m (f m))
      → ((m : Message) → c m ≡ true → Calm m (f m))
      → TableOk lane db.next_uuid (update_where c f (table lane db))
        × Extends
            (Moves lane db.next_uuid)
            (IsNew db.next_uuid)
            (table lane db)
            (update_where c f (table lane db))
  update-Sound lane c f same same_identity keep calm =
      update_table lane db.next_uuid db.next_uuid (omega arith) c f same (table lane db) (h lane)
        (All-of _ keep (table lane db))
        (λ i.
          let le =
            in_flight-update_where i c f same_identity (table lane db)
              (All-of _ calm (table lane db)) in
          omega (arith, le, (h lane).single i))
