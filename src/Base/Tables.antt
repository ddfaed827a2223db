-- ===== src/Base/Tables.antt =====
-- Queries on a table that is kept as a list of rows.
use Prim.Native.Nat.{ℕ}
use mathlib.Core.Path.{◌≡◌, refl, subst}
use mathlib.Core.Bool.{Bool, true, false}
use mathlib.Core.Option.{Option, none, some}
use mathlib.Core.Option
use mathlib.Core.List.{List, [], ◌∷◌, ◌++◌, map}
use native.Mathlib.Omega.{arith}
use open_instinct.Base.Tests.{leb, if◌then◌else◌, Bool-cases}
use open_instinct.Base.Lists.{All, All-mono}
use mathlib.Core.Logic.{inl, inr}

module _ {ℓ} {A : Type ℓ} where
  -- SELECT ... WHERE c
  abbrev pub select : (A → Bool) → List A → List A
  select c [] = []
  select c (r ∷ rs) = if c r then r ∷ select c rs else select c rs

  -- SELECT ... WHERE c LIMIT 1
  abbrev pub find_first : (A → Bool) → List A → Option A
  find_first c [] = none
  find_first c (r ∷ rs) = if c r then some r else find_first c rs

  -- UPDATE ... SET f WHERE c
  abbrev pub update_where : (A → Bool) → (A → A) → List A → List A
  update_where c f [] = []
  update_where c f (r ∷ rs) = (if c r then f r else r) ∷ update_where c f rs

  -- The first row that such an UPDATE returns.
  abbrev pub returning : (A → Bool) → (A → A) → List A → Option A
  returning c f rs = Option.map f (find_first c rs)

  -- ORDER BY key ASC: an insertion sort, so that rows with one key keep the table's order.
  unfoldable pub insert_by : (A → ℕ) → A → List A → List A
  insert_by key r [] = r ∷ []
  insert_by key r (s ∷ rs) = if leb (key r) (key s) then r ∷ s ∷ rs else s ∷ insert_by key r rs

  unfoldable pub order_by : (A → ℕ) → List A → List A
  unfolding insert_by
  order_by key [] = []
  order_by key (r ∷ rs) = insert_by key r (order_by key rs)

module _ {ℓ κ} {A : Type ℓ} (P : A → Type κ) where
  -- The rows that a query selects satisfy its condition.
  pub All-select :
      (c : A → Bool) (rs : List A) → All P rs → All (λ r. P r × (c r ≡ true)) (select c rs)
  All-select c [] h = tt
  All-select c (r ∷ rs) h = elim (Bool-cases (c r)) [
    | inl e ↦ rw e ((h.0, e), All-select c rs h.1)
    | inr e ↦ rw e (All-select c rs h.1)
  ]

  All-insert_by : (key : A → ℕ) (r : A) (rs : List A) → P r → All P rs → All P (insert_by key r rs)
  unfolding insert_by
  All-insert_by key r [] p h = (p, tt)
  All-insert_by key r (s ∷ rs) p h = elim (Bool-cases (leb (key r) (key s))) [
    | inl e ↦ rw e (p, h)
    | inr e ↦ rw e (h.0, All-insert_by key r rs p h.1)
  ]

  pub All-order_by : (key : A → ℕ) (rs : List A) → All P rs → All P (order_by key rs)
  unfolding order_by
  All-order_by key [] h = tt
  All-order_by key (r ∷ rs) h = All-insert_by key r (order_by key rs) h.0 (All-order_by key rs h.1)

-- An UPDATE that selects no row changes nothing.
pub update_where-none {ℓ} :
    {A : Type ℓ} (c : A → Bool) (f : A → A) (rs : List A)
    → All (λ r. c r ≡ false) rs
    → update_where c f rs ≡ rs
update_where-none c f [] h = refl
update_where-none c f (r ∷ rs) h = ground (arith, update_where-none c f rs h.1)

pub find_first-none {ℓ} :
    {A : Type ℓ} (c : A → Bool) (rs : List A) → All (λ r. c r ≡ false) rs → find_first c rs ≡ none
find_first-none c [] h = refl
find_first-none c (r ∷ rs) h = ground (arith, find_first-none c rs h.1)

-- What an UPDATE leaves alone in each row, it leaves alone in the table.
pub map-update_where {ℓ κ} :
    {A : Type ℓ} {B : Type κ} (key : A → B) (c : A → Bool) (f : A → A)
    → ((r : A) → key (f r) ≡ key r)
    → (rs : List A) → map key (update_where c f rs) ≡ map key rs
map-update_where key c f same [] = refl
map-update_where key c f same (r ∷ rs) = elim (Bool-cases (c r)) [
  | inl e ↦ rw (e, same r, map-update_where key c f same rs)
  | inr e ↦ rw (e, map-update_where key c f same rs)
]

-- The same relation, read row by row and column by column.
pub All-transpose {ℓ κ ι} :
    {A : Type ℓ} {B : Type κ} (R : A → B → Type ι) (xs : List A) (ys : List B)
    → All (λ x. All (λ y. R x y) ys) xs
    → All (λ y. All (λ x. R x y) xs) ys
All-transpose R xs [] h = tt
All-transpose R xs (y ∷ ys) h = (
  All-mono (λ x. R x y × All (λ z. R x z) ys) (λ x. R x y) (λ x p. p.0) xs h,
  All-transpose R xs ys
      (All-mono (λ x. R x y × All (λ z. R x z) ys) (λ x. All (λ z. R x z) ys) (λ x p. p.1) xs h),
)

-- A row that a query finds satisfies its condition, and what holds of every row.
pub find_first_sound {ℓ κ} :
    {A : Type ℓ} (P : A → Type κ) (c : A → Bool) (rs : List A) (r : A)
    → All P rs
    → find_first c rs ≡ some r
    → P r × (c r ≡ true)
find_first_sound P c [] r h e = cc
find_first_sound P c (s ∷ rs) r h e = elim (Bool-cases (c s)) [
  | inl t ↦ let same : s ≡ r = ground (arith) in (subst P same h.0, rw (← same) t)
  | inr t ↦ find_first_sound P c rs r h.1 (rw t at e)
]

-- A row that is appended is found, where no row of before is.
pub find_first-append_last :
    {A : Type 0} (c : A → Bool) (rs : List A) (s : A)
    → find_first c rs ≡ none
    → c s ≡ true
    → find_first c (rs ++ s ∷ []) ≡ some s
find_first-append_last c [] s e t = rw t
find_first-append_last c (r ∷ rs) s e t = elim (Bool-cases (c r)) [
  | inl u ↦ absurd (ground (arith, rw u at e))
  | inr u ↦ rw u (find_first-append_last c rs s (rw u at e) t)
]

-- An UPDATE that keeps what a query reads changes the row that the query finds.
pub find_first-update_where :
    {A : Type 0} (c c' : A → Bool) (f : A → A)
    → ((r : A) → c' (f r) ≡ c' r)
    → (rs : List A) (r : A) → find_first c' rs ≡ some r
    → find_first c' (update_where c f rs) ≡ some (if c r then f r else r)
find_first-update_where c c' f same [] r e = cc
find_first-update_where c c' f same (s ∷ rs) r e = elim (Bool-cases (c' s)) [
  | inl t ↦
      let here : s ≡ r = ground (arith, rw t at e) in
      subst (λ x. find_first c' (update_where c f (s ∷ rs)) ≡ some (if c x then f x else x)) here
        (elim (Bool-cases (c s)) [ inl u ↦ rw (u, same s, t) | inr u ↦ rw (u, t) ])
  | inr t ↦
      let rest = find_first-update_where c c' f same rs r (rw t at e) in
      elim (Bool-cases (c s)) [ inl u ↦ rw (u, same s, t) rest | inr u ↦ rw (u, t) rest ]
]
