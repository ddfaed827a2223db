-- ===== src/Messaging/Invariant/Claims.antt =====
-- Claims keep the tables sound: of an identity that has a message in flight none is claimed.
use open_instinct.Base.{
  Extends, ℕ, ◌+◌, ◌*◌, ◌≤◌, ◌≡◌, refl, sym, inl, inr, Bool, true, false, not, ◌&&◌, Option, none,
  some, List, [], ◌∷◌, map, arith, All, All-mono, All-select, All-order_by, update_where,
  update_where-none, find_first, returning, Bool-cases, Option-cases, ◌==◌, if◌then◌else◌,
  DistinctIds, IsOnlyRow, DistinctIds-IsOnlyRow,
}
use mathlib.Core.Path.{subst}
use open_instinct.Base.Results.{ensure, Holds, Holds-bind}
use open_instinct.Messaging.Payload.{Digest}
use open_instinct.Messaging.Rows.{
  Identity, Message, Db, Lane, table, invalid_message, message_receipt_schema,
}
use open_instinct.Messaging.Queue.{
  ClaimClock, is_blocking, is_claimable, first_row, next_message, is_chosen, claimed_message,
  claim_row, claim_active,
}
use open_instinct.Messaging.Lifecycle.{Moves, IsNew}
use open_instinct.Messaging.Lifecycle.Changes
use open_instinct.Messaging.Invariant.{in_flight, is_in_flight, TableOk, DbOk, Sound}
use open_instinct.Messaging.Invariant.Updates.{Sound-refl, write_table-Sound, update_table}

-- What holds of every row holds of the row that a claim chooses, and that row is claimable.
pub next_message_sound :
    (P : Message → Type 0) (lane : Lane) (locked_row : ℕ → Bool) (identity_id : ℕ)
    (ms : List Message) (m : Message)
    → All P ms
    → next_message lane locked_row identity_id ms ≡ some m
    → P m × (is_claimable lane identity_id m ≡ true)
unfolding next_message
next_message_sound P lane locked_row i ms m h e =
    let Q = λ (n : Message). P n × ((is_claimable lane i n && not (locked_row n.id)) ≡ true) in
    let p =
      first_row_sound Q _ m
        (All-order_by Q (λ (n : Message). n.sequence) _
          (All-order_by Q (λ (n : Message). n.id) _
            (All-select P (λ n. is_claimable lane i n && not (locked_row n.id)) ms h)))
        e in
    (p.0, ground (arith, p.1))
  where
    first_row_sound :
        (Q : Message → Type 0) (ns : List Message) (n : Message)
        → All Q ns
        → first_row ns ≡ some n
        → Q n
    first_row_sound Q [] n h e = cc
    first_row_sound Q (x ∷ ns) n h e = subst Q (ground (arith, e)) h.0

-- Where nothing blocks an identity, none of its messages is in flight.
pub in_flight-unblocked :
    (lane : Lane) (i : ℕ) (ms : List Message)
    → find_first (is_blocking lane i) ms ≡ none
    → in_flight i ms ≡ 0
unfolding is_blocking
in_flight-unblocked lane i [] e = refl
in_flight-unblocked lane i (m ∷ ms) e = elim (Bool-cases (is_blocking lane i m)) [
  | inl blocks ↦ absurd (ground arith)
  | inr free ↦ ground (arith, in_flight-unblocked lane i ms (ground arith), free)
]

-- An UPDATE of one row, which is of the identity `j`, sets at most that row in flight.
pub in_flight-update_one :
    (i j k : ℕ) (c : Message → Bool) (f : Message → Message)
    → ((m : Message) → (f m).identity_id ≡ m.identity_id)
    → (ms : List Message) → DistinctIds (map (λ (m : Message). m.id) ms)
    → All (λ m. c m ≡ true → ((m.id == k) ≡ true) × ((m.identity_id == j) ≡ true)) ms
    → in_flight i (update_where c f ms) ≤ in_flight i ms + (if i == j then 1 else 0)
in_flight-update_one i j k c f same [] d h = omega arith
in_flight-update_one i j k c f same (m ∷ ms) d h = elim (Bool-cases (c m)) [
  | inr e ↦ let rest = in_flight-update_one i j k c f same ms d.1 h.1 in rw e (omega (arith, rest))
  | inl e ↦
      rw (e, update_where-none c f ms (others m ms d.0 (h.0 e).0 h.1))
        (head_le m (f m) (same m) (h.0 e).1)
]
  where
    others :
        (m : Message) (ns : List Message)
        → All (λ x. (m.id == x) ≡ false) (map (λ (m : Message). m.id) ns)
        → (m.id == k) ≡ true
        → All (λ n. c n ≡ true → ((n.id == k) ≡ true) × ((n.identity_id == j) ≡ true)) ns
        → All (λ n. c n ≡ false) ns
    others m [] a e h = tt
    others m (n ∷ ns) a e h = (
      elim (Bool-cases (c n)) [ inr u ↦ u | inl t ↦ absurd (ground (arith, a.0, e, (h.0 t).0)) ],
      others m ns a.1 e h.1,
    )

    head_le :
        (m n : Message)
        → n.identity_id ≡ m.identity_id
        → (m.identity_id == j) ≡ true
        → ((if is_in_flight i n then 1 else 0) + in_flight i ms)
          ≤ ((if is_in_flight i m then 1 else 0) + in_flight i ms) + (if i == j then 1 else 0)
    head_le m n e e' = ground arith

pub chosen_id : (id now : ℕ) (m : Message) → is_chosen id now m ≡ true → (m.id == id) ≡ true
unfolding is_chosen
chosen_id id now m e = ground arith

claimed_message-same :
    (d : Digest) (lane : Lane) (identity : Identity) (token expires : ℕ) (m : Message)
    → ((claimed_message d lane identity token expires m).id ≡ m.id)
      × ((claimed_message d lane identity token expires m).identity_id ≡ m.identity_id)
unfolding claimed_message
claimed_message-same d lane identity token expires m = (refl, refl)

claimable_identity :
    (lane : Lane) (i : ℕ) (m : Message) → is_claimable lane i m ≡ true → (m.identity_id == i) ≡ true
unfolding is_claimable
claimable_identity lane i m e = ground arith

single_claim : (i j x y : ℕ) → x ≤ y + (if i == j then 1 else 0) → y ≤ 1 → (i ≡ j → y ≡ 0) → x ≤ 1
single_claim i j x y le one zero = ground arith

module _ (d : Digest) (lane : Lane) (locked_row : ℕ → Bool) (identity : Identity)
    (lease_seconds : ℕ) (now : ClaimClock) (db : Db) (h : DbOk db) where
  -- The UPDATE of a claim, of the one claimable row `m` of an identity with none in flight.
  claimed_table :
      (m : Message)
      → IsOnlyRow (λ (n : Message). n.id) (table lane db) m
      → is_claimable lane identity.id m ≡ true
      → in_flight identity.id (table lane db) ≡ 0
      → let ms' =
          update_where
            (is_chosen m.id now.due_at)
            (claimed_message d lane identity db.next_uuid (now.leased_at + lease_seconds * 1000))
            (table lane db) in
        TableOk lane (db.next_uuid + 1) ms'
        × Extends (Moves lane db.next_uuid) (IsNew db.next_uuid) (table lane db) ms'
  claimed_table m only e idle =
      let b = db.next_uuid in
      let expires = now.leased_at + lease_seconds * 1000 in
      let c = is_chosen m.id now.due_at in
      let f = claimed_message d lane identity b expires in
      let same = claimed_message-same d lane identity b expires in
      let claimable : (n : Message)
          → ((n.id == m.id) ≡ true → n ≡ m)
          → c n ≡ true
          → is_claimable lane identity.id n ≡ true =
        λ n o t.
          subst (λ x. is_claimable lane identity.id x ≡ true)
            (sym (o (chosen_id m.id now.due_at n t))) e in
      update_table lane b (b + 1) (omega arith) c f (λ n. (same n).0) (table lane db) (h lane)
        (All-mono _ _
          (λ n o t ok.
            Changes.claimed_message-Keeps b n lane ok d identity expires (claimable n o t))
          (table lane db) only)
        (λ i.
          single_claim i identity.id _ (in_flight i (table lane db))
            (in_flight-update_one i identity.id m.id c f (λ n. (same n).1) (table lane db)
              (h lane).ids
              (All-mono _ _
                (λ n o t. (
                  chosen_id m.id now.due_at n t,
                  claimable_identity lane identity.id n (claimable n o t),
                ))
                (table lane db) only))
            ((h lane).single i)
            (λ same'. subst (λ x. in_flight x (table lane db) ≡ 0) (sym same') idle))

  claim_row-Holds :
      (m : Message)
      → IsOnlyRow (λ (n : Message). n.id) (table lane db) m
      → is_claimable lane identity.id m ≡ true
      → in_flight identity.id (table lane db) ≡ 0
      → Holds
          (λ (x : Option Message × Db). Sound db x.1)
          (claim_row d lane identity m.id lease_seconds now db)
  unfolding claim_row
  claim_row-Holds m only e idle =
      let b = db.next_uuid in
      let c = is_chosen m.id now.due_at in
      let f = claimed_message d lane identity b (now.leased_at + lease_seconds * 1000) in
      let s = write_table-Sound db h lane (b + 1) _ (omega arith) (claimed_table m only e idle) in
      elim (Option-cases (returning c f (table lane db))) [
        | inl e ↦ rw (e, claim_row) s
        | inr (n, e) ↦
            rw (e, claim_row)
              (Holds-bind _ (ensure (message_receipt_schema n) invalid_message) _ (λ _ _. s))
      ]

  pub claim_active-Holds :
      Holds
        (λ (x : Option Message × Db). Sound db x.1)
        (claim_active d lane locked_row identity lease_seconds now db)
  unfolding claim_active
  claim_active-Holds =
      elim (Option-cases (find_first (is_blocking lane identity.id) (table lane db))) [
        | inr (m, e) ↦ rw (e, claim_active) (Sound-refl db h)
        | inl free ↦
            elim (Option-cases (next_message lane locked_row identity.id (table lane db))) [
              | inl e ↦ rw (free, e, claim_active) (Sound-refl db h)
              | inr (m, e) ↦
                  let p =
                    next_message_sound (IsOnlyRow (λ (n : Message). n.id) (table lane db)) lane
                      locked_row identity.id (table lane db) m
                      (DistinctIds-IsOnlyRow (λ (n : Message). n.id) (table lane db) (h lane).ids)
                      e in
                  rw (free, e, claim_active)
                    (claim_row-Holds m p.0 p.1
                      (in_flight-unblocked lane identity.id (table lane db) free))
            ]
      ]
