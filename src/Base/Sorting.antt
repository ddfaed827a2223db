-- ===== src/Base/Sorting.antt =====
-- What ORDER BY puts first is least, and it loses no row.
use Prim.Native.Nat.{ℕ, ◌≤◌}
use mathlib.Core.Path.{◌≡◌, refl, subst}
use mathlib.Core.Bool.{Bool, true}
use mathlib.Core.Logic.{◌⊎◌, ◌≢◌, inl, inr}
use mathlib.Core.List.{List, [], ◌∷◌}
use native.Mathlib.Omega.{arith}
use open_instinct.Base.Tests.{leb, leb→le, Bool-cases}
use open_instinct.Base.Lists.{All, All-mono}
use open_instinct.Base.Tables.{select, insert_by, order_by}

List-cases : {A : Type 0} (xs : List A) → (xs ≡ []) ⊎ ((x : A) × (ys : List A) × (xs ≡ x ∷ ys))
List-cases [] = inl refl
List-cases (x ∷ xs) = inr (x, xs, refl)

module _ {A : Type 0} (key : A → ℕ) where
  All-insert_by_inv :
      (P : A → Type 0) (r : A) (rs : List A) → All P (insert_by key r rs) → P r × All P rs
  unfolding insert_by
  All-insert_by_inv P r [] h = h
  All-insert_by_inv P r (s ∷ rs) h = elim (Bool-cases (leb (key r) (key s))) [
    | inl e ↦ rw e at h
    | inr e ↦
        let k = rw e at h in let rest = All-insert_by_inv P r rs k.1 in (rest.0, (k.0, rest.1))
  ]

  -- What holds of the ordered rows holds of the rows.
  pub All-order_by_inv : (P : A → Type 0) (rs : List A) → All P (order_by key rs) → All P rs
  unfolding order_by
  All-order_by_inv P [] h = tt
  All-order_by_inv P (r ∷ rs) h =
      let k = All-insert_by_inv P r (order_by key rs) h in (k.0, All-order_by_inv P rs k.1)

  insert_by-cons : (r : A) (rs : List A) → insert_by key r rs ≢ []
  unfolding insert_by
  insert_by-cons r [] e = cc
  insert_by-cons r (s ∷ rs) e = elim (Bool-cases (leb (key r) (key s))) [
    | inl t ↦ let k = rw t at e in cc
    | inr t ↦ let k = rw t at e in cc
  ]

  order_by-empty : (rs : List A) → order_by key rs ≡ [] → rs ≡ []
  unfolding order_by
  order_by-empty [] e = refl
  order_by-empty (r ∷ rs) e = absurd (insert_by-cons r (order_by key rs) e)

  pub order_by-least :
      (rs : List A) (x : A) (xs : List A) → order_by key rs ≡ x ∷ xs → All (λ s. key x ≤ key s) rs
  unfolding order_by insert_by
  order_by-least [] x xs e = tt
  order_by-least (r ∷ rs) x xs e = elim (List-cases (order_by key rs)) [
    | inl none ↦
        let first : r ≡ x = ground (arith, rw none at e) in
        rw (order_by-empty rs none, first) (omega arith, tt)
    | inr (y, ys, f) ↦
        let least = order_by-least rs y ys f in
        elim (Bool-cases (leb (key r) (key y))) [
          | inl t ↦
              let first : r ≡ x = ground (arith, rw (f, t) at e) in
              subst (λ z. All (λ s. key z ≤ key s) (r ∷ rs)) first
                (omega arith, All-mono _ _ (λ s le. omega (arith, le, leb→le _ _ t)) rs least)
          | inr t ↦
              let first : y ≡ x = ground (arith, rw (f, t) at e) in
              subst (λ z. All (λ s. key z ≤ key s) (r ∷ rs)) first (ground (arith, t), least)
        ]
  ]

-- What holds of the selected rows holds of the rows that the condition admits.
pub All-select_inv :
    {A : Type 0} (P : A → Type 0) (c : A → Bool) (rs : List A)
    → All P (select c rs)
    → All (λ r. c r ≡ true → P r) rs
All-select_inv P c [] h = tt
All-select_inv P c (r ∷ rs) h = elim (Bool-cases (c r)) [
  | inl e ↦ let k = rw e at h in ((λ _. k.0), All-select_inv P c rs k.1)
  | inr e ↦ let k = rw e at h in ((λ t. absurd (ground arith)), All-select_inv P c rs k)
]
