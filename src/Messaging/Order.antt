-- ===== src/Messaging/Order.antt =====
-- Which message a claim takes.
use open_instinct.Base.{
  ℕ, ◌+◌, ◌*◌, ◌≤◌, ◌≡◌, refl, inl, inr, Bool, true, false, not, ◌&&◌, ◌||◌, All-pair, Option, none,
  some, List, [], ◌∷◌, Memᴰ, arith, All, All-mono, All-order_by_inv, All-select_inv, order_by-least,
  update_where, find_first, find_first_sound, select, order_by, Bool-cases, Option-cases, ◌==◌,
  IsOnlyRow, DistinctIds-IsOnlyRow, is_null, null_le, if◌then◌else◌,
}
use mathlib.Core.Path.{subst}
use open_instinct.Base.Results.{
  done, ensure, Holds, Holds-bind, Holds-if, Holds-mono, with_transaction, with_transaction-done,
}
use open_instinct.Messaging.Payload.{Digest}
use open_instinct.Messaging.Rows.{
  Identity, Message, Db, Lane, outbox, table, Answer, is_queued, invalid_message,
  message_receipt_schema,
}
use open_instinct.Messaging.Queue.{
  expire_leases, is_queued_for, revoked_message, cancel_revoked, is_blocking, is_claimable,
  first_row, next_message, is_chosen, ClaimClock, claimed_message, claim_row, claim_active,
  claim_message, claim,
}
use open_instinct.Messaging.Invariant.{DbOk}
use open_instinct.Messaging.Invariant.Claims.{next_message_sound, chosen_id}
use open_instinct.Messaging.Invariant.Expiry.{expire-Sound}

-- `m` is what a claim for `identity` makes of a row of `db`: a claimable row that was put in before
-- the others, and whose instant of retry has come, where no message of the identity blocks it.
pub record Chosen (d : Digest) (lane : Lane) (locked_row : ℕ → Bool) (identity : Identity)
    (lease_seconds : ℕ) (now : ClaimClock) (db : Db) (m : Message) : Type 0 where
  pub row : Message
  pub in_table : Memᴰ row (table lane db)
  pub written :
      m ≡ claimed_message d lane identity db.next_uuid (now.leased_at + lease_seconds * 1000) row
  pub claimable : is_claimable lane identity.id row ≡ true
  pub ready : (is_null row.lease_expires_at || null_le row.lease_expires_at now.due_at) ≡ true
  pub oldest :
      All
        (λ n.
          (is_claimable lane identity.id n && not (locked_row n.id)) ≡ true
          → row.sequence ≤ n.sequence)
        (table lane db)
  pub unblocked : All (λ n. is_blocking lane identity.id n ≡ false) (table lane db)

All-Memᴰ : (ms : List Message) → All (λ m. Memᴰ m ms) ms
All-Memᴰ [] = tt
All-Memᴰ (m ∷ ms) =
    (Memᴰ.head refl, All-mono (λ n. Memᴰ n ms) _ (λ n e. Memᴰ.tail e) ms (All-Memᴰ ms))

find_first-All :
    (c : Message → Bool) (ms : List Message) → find_first c ms ≡ none → All (λ m. c m ≡ false) ms
find_first-All c [] e = tt
find_first-All c (m ∷ ms) e = elim (Bool-cases (c m)) [
  | inl t ↦ absurd (ground (arith, rw t at e))
  | inr u ↦ (u, find_first-All c ms (rw u at e))
]

chosen_ready :
    (id now : ℕ) (m : Message)
    → is_chosen id now m ≡ true
    → (is_null m.lease_expires_at || null_le m.lease_expires_at now) ≡ true
unfolding is_chosen
chosen_ready id now m e = ground arith

next_message-oldest :
    (lane : Lane) (locked_row : ℕ → Bool) (i : ℕ) (ms : List Message) (m : Message)
    → next_message lane locked_row i ms ≡ some m
    → All
        (λ n. (is_claimable lane i n && not (locked_row n.id)) ≡ true → m.sequence ≤ n.sequence)
        ms
unfolding next_message
next_message-oldest lane locked_row i ms m e =
    let c = λ (n : Message). is_claimable lane i n && not (locked_row n.id) in
    let by_id = λ (n : Message). n.id in
    let by_sequence = λ (n : Message). n.sequence in
    let (xs, f) = first_of (order_by by_sequence (order_by by_id (select c ms))) e in
    All-select_inv _ c ms (
      All-order_by_inv by_id _ (select c ms)
        (order_by-least by_sequence (order_by by_id (select c ms)) m xs f))
  where
    first_of : (ns : List Message) → first_row ns ≡ some m → (xs : List Message) × (ns ≡ m ∷ xs)
    first_of [] e = cc
    first_of (n ∷ ns) e = (ns, cc)

module _ (d : Digest) (lane : Lane) (locked_row : ℕ → Bool) (identity : Identity)
    (lease_seconds : ℕ) (now : ClaimClock) (db : Db) (h : DbOk db) where
  abbrev Takes : Option Message × Db → Type 0
  Takes x = elim x.0 [
    | none ↦ Unit
    | some m ↦ Chosen d lane locked_row identity lease_seconds now db m
  ]

  claim_row-Takes :
      (row : Message)
      → next_message lane locked_row identity.id (table lane db) ≡ some row
      → find_first (is_blocking lane identity.id) (table lane db) ≡ none
      → Holds Takes (claim_row d lane identity row.id lease_seconds now db)
  unfolding claim_row
  claim_row-Takes row e free =
      let ms = table lane db in
      let c = is_chosen row.id now.due_at in
      let f = claimed_message d lane identity db.next_uuid (now.leased_at + lease_seconds * 1000) in
      let found =
        next_message_sound (λ n. IsOnlyRow (λ (x : Message). x.id) ms n × Memᴰ n ms) lane locked_row
          identity.id ms row
          (All-pair _ (λ n. Memᴰ n ms) ms
            (DistinctIds-IsOnlyRow (λ (x : Message). x.id) ms (h lane).ids) (All-Memᴰ ms))
          e in
      elim (Option-cases (find_first c ms)) [
        | inl none' ↦ rw (none', claim_row) tt
        | inr (n, g) ↦
            let p = find_first_sound (λ r. (r.id == row.id) ≡ true → r ≡ row) c ms n found.0.0 g in
            let same : n ≡ row = p.0 (chosen_id row.id now.due_at n p.1) in
            rw (g, claim_row)
              (Holds-bind Takes (ensure (message_receipt_schema (f n)) invalid_message) _ (λ _ _.
                record {
                  row = row;
                  in_table = found.0.1;
                  written = rw same;
                  claimable = found.1;
                  ready = chosen_ready row.id now.due_at row (subst (λ x. c x ≡ true) same p.1);
                  oldest = next_message-oldest lane locked_row identity.id ms row e;
                  unblocked = find_first-All (is_blocking lane identity.id) ms free;
                }))
      ]

  claim_active-Takes : Holds Takes (claim_active d lane locked_row identity lease_seconds now db)
  unfolding claim_active
  claim_active-Takes =
      elim (Option-cases (find_first (is_blocking lane identity.id) (table lane db))) [
        | inr (m, e) ↦ rw (e, claim_active) tt
        | inl free ↦
            elim (Option-cases (next_message lane locked_row identity.id (table lane db))) [
              | inl e ↦ rw (free, e, claim_active) tt
              | inr (row, e) ↦ rw (free, e, claim_active) (claim_row-Takes row e free)
            ]
      ]

-- The row of the identity of a claim, if no other transaction holds it.
abbrev pub unlocked : (ℕ → Bool) → ℕ → Db → Option Identity
unlocked locked_identity identity_id db =
    find_first (λ (i : Identity). i.id == identity_id && not (locked_identity i.id)) db.identities

module _ (d : Digest) (lane : Lane) (locked_identity locked_row : ℕ → Bool)
    (identity_id lease_seconds : ℕ) (now : ClaimClock) (db : Db) (h : DbOk db) where
  abbrev Claims : Option Message × Db → Type 0
  Claims x = elim x.0 [
    | none ↦ Unit
    | some m ↦
        (identity : Identity) × (unlocked locked_identity identity_id db ≡ some identity)
        × (identity.active ≡ true)
        × Chosen d lane locked_row identity lease_seconds now
            (expire_leases lane identity.id now.expired_at db) m
  ]

  claim_message-Claims :
      Holds Claims
        (claim_message d lane locked_identity locked_row identity_id lease_seconds now db)
  unfolding claim_message
  claim_message-Claims = elim (Option-cases (unlocked locked_identity identity_id db)) [
    | inl e ↦ rw (e, claim_message) tt
    | inr (identity, e) ↦
        let db' = expire_leases lane identity.id now.expired_at db in
        let ok = (expire-Sound lane identity.id now.expired_at db h).ok in
        rw (e, claim_message)
          (Holds-if Claims identity.active _ _
            (λ active.
              Holds-mono (Takes d lane locked_row identity lease_seconds now db' ok) Claims
                (claim_active d lane locked_row identity lease_seconds now db')
                (λ x.
                  elim x.0
                    as (λ o.
                      Takes d lane locked_row identity lease_seconds now db' ok (o, x.1)
                      → Claims (o, x.1)) [
                        | none ↦ λ _. tt
                        | some m ↦ λ t. (identity, e, active, t)
                      ])
                (claim_active-Takes d lane locked_row identity lease_seconds now db' ok))
            (λ _. tt))
  ]

-- A claim that takes a message takes it for an active identity, and, once the expired leases are taken
-- away, from a row that is queued, or is uncertain in the inbox with its handoff, and that comes before
-- every other claimable row of the identity that is not locked, by the sequence in which they were put
-- in, in both lanes; its instant of retry, if it has one, has come,
-- and no message of the identity is in flight, or uncertain and not to be claimed. What the claim
-- returns is the row with one more attempt and a new lease.
pub claim-Chosen :
    (d : Digest) (lane : Lane) (locked_identity locked_row : ℕ → Bool)
    (identity_id lease_seconds : ℕ) (now : ClaimClock) (m : Message) {db db' : Db}
    → DbOk db
    → claim d lane locked_identity locked_row identity_id lease_seconds now db
      ≡ (done (some m), db')
    → (identity : Identity) × (unlocked locked_identity identity_id db ≡ some identity)
      × (identity.active ≡ true)
      × Chosen d lane locked_row identity lease_seconds now
          (expire_leases lane identity.id now.expired_at db)
          m
unfolding claim
claim-Chosen d lane li lr i seconds now m {db} {db'} h e =
    subst (Holds (Claims d lane li lr i seconds now db h))
      (with_transaction-done db db' _ (some m) e)
      (claim_message-Claims d lane li lr i seconds now db h)

none_queued :
    (i : ℕ) (ms : List Message)
    → All (λ m. is_queued_for i m ≡ false) (update_where (is_queued_for i) revoked_message ms)
unfolding is_queued_for revoked_message
none_queued i [] = tt
none_queued i (m ∷ ms) = elim (Bool-cases (m.identity_id == i && is_queued m.status)) [
  | inl e ↦ rw e (ground arith, none_queued i ms)
  | inr e ↦ rw e (e, none_queued i ms)
]

-- A claim of a message of the outbox for an identity that has been revoked, and whose row no other
-- transaction holds, takes none, and leaves no message of the identity queued.
pub revoked_claim-cancels :
    (d : Digest) (locked_identity locked_row : ℕ → Bool) (identity_id lease_seconds : ℕ)
    (now : ClaimClock) (identity : Identity) (db : Db)
    → unlocked locked_identity identity_id db ≡ some identity
    → identity.active ≡ false
    → ((claim d outbox locked_identity locked_row identity_id lease_seconds now db).0 ≡ done none)
      × All
          (λ m. is_queued_for identity.id m ≡ false)
          (claim d outbox locked_identity locked_row identity_id lease_seconds now db).1.outbox
unfolding claim claim_message cancel_revoked with_transaction
revoked_claim-cancels d li lr i seconds now identity db found revoked =
    rw (found, claim_message)
      (revoked_run identity.active (claim_active d outbox lr identity seconds now _) _ revoked
        (none_queued identity.id _))
  where
    revoked_run :
        (b : Bool) (run : Answer (Option Message × Db)) (db' : Db)
        → b ≡ false
        → All (λ m. is_queued_for identity.id m ≡ false) db'.outbox
        → let r = with_transaction db (if b then run else done (none, db')) in
          (r.0 ≡ done none) × All (λ m. is_queued_for identity.id m ≡ false) r.1.outbox
    revoked_run true run db' e h = cc
    revoked_run false run db' e h = (refl, h)
