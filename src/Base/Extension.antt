-- ===== src/Base/Extension.antt =====
-- What a call does to a table, row by row: each row of before stands at its place, changed by a
-- relation, and the rows behind them are new.
use mathlib.Core.Path.{◌≡◌}
use mathlib.Core.Bool.{Bool, true}
use mathlib.Core.Logic.{inl, inr}
use mathlib.Core.List.{List, [], ◌∷◌, ◌++◌}
use open_instinct.Base.Tests.{Bool-cases}
use open_instinct.Base.Lists.{All, All-mono}
use open_instinct.Base.Tables.{update_where}

abbrev pub Extends : {A : Type 0} → (A → A → Type 0) → (A → Type 0) → List A → List A → Type 0
Extends R N [] ss = All N ss
Extends R N (r ∷ rs) [] = ⊥
Extends R N (r ∷ rs) (s ∷ ss) = R r s × Extends R N rs ss

module _ {A : Type 0} (R : A → A → Type 0) (N : A → Type 0) (reflexive : (r : A) → R r r) where
  pub Extends-refl : (rs : List A) → Extends R N rs rs
  Extends-refl [] = tt
  Extends-refl (r ∷ rs) = (reflexive r, Extends-refl rs)

  pub Extends-append : (rs ss : List A) → All N ss → Extends R N rs (rs ++ ss)
  Extends-append [] ss h = h
  Extends-append (r ∷ rs) ss h = (reflexive r, Extends-append rs ss h)

  -- An UPDATE relates each row to itself, or to the changed row where it selects it.
  pub Extends-update_where :
      (c : A → Bool) (f : A → A) (rs : List A)
      → All (λ r. c r ≡ true → R r (f r)) rs
      → Extends R N rs (update_where c f rs)
  Extends-update_where c f [] h = tt
  Extends-update_where c f (r ∷ rs) h = elim (Bool-cases (c r)) [
    | inl e ↦ rw e (h.0 e, Extends-update_where c f rs h.1)
    | inr e ↦ rw e (reflexive r, Extends-update_where c f rs h.1)
  ]

module _ {A : Type 0} (P Q R : A → A → Type 0) (M N : A → Type 0)
    (compose : (q r s : A) → P q r → Q r s → R q s) (carry : (r s : A) → M r → Q r s → M s)
    (weaken : (r : A) → N r → M r) where
  Extends-new : (rs ss : List A) → All M rs → Extends Q N rs ss → All M ss
  Extends-new [] ss a b = All-mono N M weaken ss b
  Extends-new (r ∷ rs) [] a b = absurd b
  Extends-new (r ∷ rs) (s ∷ ss) a b = (carry r s a.0 b.0, Extends-new rs ss a.1 b.1)

  pub Extends-trans :
      (qs rs ss : List A) → Extends P M qs rs → Extends Q N rs ss → Extends R M qs ss
  Extends-trans [] rs ss a b = Extends-new rs ss a b
  Extends-trans (q ∷ qs) [] ss a b = absurd a
  Extends-trans (q ∷ qs) (r ∷ rs) [] a b = absurd b
  Extends-trans (q ∷ qs) (r ∷ rs) (s ∷ ss) a b =
      (compose q r s a.0 b.0, Extends-trans qs rs ss a.1 b.1)

-- What holds of every old row, and of every row at its place or behind, holds after.
pub All-Extends :
    {A : Type 0} (R : A → A → Type 0) (N P Q : A → Type 0)
    → ((r s : A) → R r s → P r → Q s)
    → ((s : A) → N s → Q s)
    → (rs ss : List A) → Extends R N rs ss
    → All P rs
    → All Q ss
All-Extends R N P Q carry new [] ss e h = All-mono N Q new ss e
All-Extends R N P Q carry new (r ∷ rs) [] e h = absurd e
All-Extends R N P Q carry new (r ∷ rs) (s ∷ ss) e h =
    (carry r s e.0 h.0, All-Extends R N P Q carry new rs ss e.1 h.1)
