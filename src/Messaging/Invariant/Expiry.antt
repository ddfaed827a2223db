-- ===== src/Messaging/Invariant/Expiry.antt =====
-- A claim first takes away the leases that have expired: what follows is one move of each message
-- still.
use open_instinct.Base.{
  Extends, ◌≡◌, refl, inl, inr, Bool, true, ◌⊎◌, Option, List, [], ◌∷◌, All, ℕ, All-mono, arith,
  Bool-cases, Option-cases, find_first, update_where, ◌==◌, not, ◌&&◌,
}
use mathlib.Core.Path.{subst}
use open_instinct.Base.Results.{Holds, Holds-mono, Holds-if, with_transaction-Holds}
use open_instinct.Messaging.Payload.{Digest}
use open_instinct.Messaging.Rows.{Identity, Message, Db, Lane, inbox, outbox, table, dispatching}
use open_instinct.Messaging.Queue.{
  ClaimClock, is_expired, expired_message, expire_leases, is_queued_for, revoked_message,
  cancel_revoked, claim_active, claim_message, claim,
}
use open_instinct.Messaging.Lifecycle.{
  MessageOk, Evolves, Evolves-refl, Evolves-trans, Moves, IsNew,
}
use open_instinct.Messaging.Lifecycle.Changes
use open_instinct.Messaging.Invariant.{TableOk, by_lane, DbOk, Sound}
use open_instinct.Messaging.Invariant.Updates.{Sound-refl}
use open_instinct.Messaging.Invariant.Calls.{updated-Sound}
use open_instinct.Messaging.Invariant.Claims.{claim_active-Holds}

-- The row is as before, or was in flight.
abbrev Expiry : ℕ → Message → Message → Type 0
Expiry b m n = ((n ≡ m) ⊎ (m.status ≡ dispatching)) × Evolves b m n

Expiry-refl : (b : ℕ) (m : Message) → Expiry b m m
Expiry-refl b m = (inl refl, Evolves-refl b m)

expired-Expiry :
    (lane : Lane) (b identity_id now : ℕ) (m : Message)
    → MessageOk lane b m
    → is_expired identity_id now m ≡ true
    → Expiry b m (expired_message m)
unfolding is_expired
expired-Expiry lane b i now m ok e =
    (inr (was_in_flight m e), (Changes.expired_message-Keeps b m lane ok i now e).1.1)
  where
    was_in_flight : (m : Message) → is_expired i now m ≡ true → m.status ≡ dispatching
    was_in_flight m e = ground arith

Expiry-Moves :
    (lane : Lane) (b : ℕ) (m n o : Message) → Expiry b m n → Moves lane b n o → Moves lane b m o
Expiry-Moves lane b m n o (inl same, e) k = subst (λ x. Moves lane b x o) same k
Expiry-Moves lane b m n o (inr flying, e) k =
    (ground (arith, flying), Evolves-trans b b m n o (omega arith) e k.1)

after-Expiry :
    (lane : Lane) (b : ℕ) (c : Message → Bool) (f : Message → Message) (ms ns : List Message)
    → All (λ m. c m ≡ true → Expiry b m (f m)) ms
    → Extends (Moves lane b) (IsNew b) (update_where c f ms) ns
    → Extends (Moves lane b) (IsNew b) ms ns
after-Expiry lane b c f [] ns a e = e
after-Expiry lane b c f (m ∷ ms) [] a e = absurd e
after-Expiry lane b c f (m ∷ ms) (n ∷ ns) a e = (
  elim (Bool-cases (c m)) [
    | inl t ↦ Expiry-Moves lane b m (f m) n (a.0 t) (rw t at e.0)
    | inr t ↦ rw t at e.0
  ],
  after-Expiry lane b c f ms ns a.1 e.1,
)

module _ (lane : Lane) (identity_id now : ℕ) (db : Db) (h : DbOk db) where
  pub expire-Sound : Sound db (expire_leases lane identity_id now db)
  unfolding expire_leases expired_message
  expire-Sound =
      updated-Sound db h lane (is_expired identity_id now) expired_message (λ m. refl) (λ m. refl)
        (λ m e ok. Changes.expired_message-Keeps db.next_uuid m lane ok identity_id now e)
        (λ m _ e. ground arith)

  -- What a call does after it has taken the expired leases is one move of each message.
  pub expired_then : (db' : Db) → Sound (expire_leases lane identity_id now db) db' → Sound db db'
  unfolding expire_leases
  expired_then db' s =
      elim lane
          as (λ l.
            (TableOk l db.next_uuid (table l db))
            → Sound (expire_leases l identity_id now db) db'
            → Sound db db') [
              | inbox ↦ λ ok s. record {
                ok = s.ok;
                extends =
                    by_lane _ (then_moves inbox db'.inbox ok (s.extends inbox)) (s.extends outbox);
                audit = s.audit;
                answers = s.answers;
                drawn_le = s.drawn_le;
              }
              | outbox ↦ λ ok s. record {
                ok = s.ok;
                extends =
                    by_lane _ (s.extends inbox)
                      (then_moves outbox db'.outbox ok (s.extends outbox));
                audit = s.audit;
                answers = s.answers;
                drawn_le = s.drawn_le;
              }
            ]
        (h lane) s
    where
      then_moves :
          (l : Lane) (ns : List Message)
          → TableOk l db.next_uuid (table l db)
          → Extends
              (Moves l db.next_uuid)
              (IsNew db.next_uuid)
              (update_where (is_expired identity_id now) expired_message (table l db))
              ns
          → Extends (Moves l db.next_uuid) (IsNew db.next_uuid) (table l db) ns
      then_moves l ns ok =
          after-Expiry l db.next_uuid (is_expired identity_id now) expired_message (table l db) ns (
            All-mono _ _ (λ m o e. expired-Expiry l db.next_uuid identity_id now m o e) (table l db)
              ok.rows_ok)

  cancel_revoked-Sound : Sound db (cancel_revoked lane identity_id db)
  unfolding cancel_revoked revoked_message
  cancel_revoked-Sound = elim lane as (λ l. Sound db (cancel_revoked l identity_id db)) [
    | inbox ↦ Sound-refl db h
    | outbox ↦
        updated-Sound db h outbox (is_queued_for identity_id) revoked_message (λ m. refl)
          (λ m. refl) (λ m e ok. Changes.revoked_message-Keeps db.next_uuid m ok identity_id e)
          (λ m _ e. ground arith)
  ]

module _ (d : Digest) (lane : Lane) (locked_identity locked_row : ℕ → Bool)
    (identity_id lease_seconds : ℕ) (now : ClaimClock) (db : Db) (h : DbOk db) where
  claim_message-Holds :
      Holds
        (λ (x : Option Message × Db). Sound db x.1)
        (claim_message d lane locked_identity locked_row identity_id lease_seconds now db)
  unfolding claim_message
  claim_message-Holds =
      elim (Option-cases (
        find_first (λ (i : Identity). i.id == identity_id && not (locked_identity i.id))
          db.identities)) [
            | inl e ↦ rw (e, claim_message) (Sound-refl db h)
            | inr (identity, e) ↦
                let s = expire-Sound lane identity.id now.expired_at db h in
                let db' = expire_leases lane identity.id now.expired_at db in
                let after = expired_then lane identity.id now.expired_at db h in
                rw (e, claim_message)
                  (Holds-if _ identity.active _ _
                    (λ _.
                      Holds-mono _ _ (claim_active d lane locked_row identity lease_seconds now db')
                        (λ x. after x.1)
                        (claim_active-Holds d lane locked_row identity lease_seconds now db' s.ok))
                    (λ _. after _ (cancel_revoked-Sound lane identity.id now.expired_at db' s.ok)))
          ]

  pub claim-Sound :
      Sound db (claim d lane locked_identity locked_row identity_id lease_seconds now db).1
  unfolding claim
  claim-Sound = with_transaction-Holds (Sound db) db _ (Sound-refl db h) claim_message-Holds
