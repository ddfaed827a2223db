-- ===== src/Base/Keys.antt =====
-- Keys of the rows of a table: ids that name one row each, and lease tokens, which are drawn once.
use Prim.Native.Nat.{ℕ, ◌≤◌, ◌<◌}
use mathlib.Core.Path.{◌≡◌, refl}
use mathlib.Core.Bool.{true, false}
use mathlib.Core.Logic.{◌⊎◌, inl}
use mathlib.Core.Option.{Option, none, some}
use mathlib.Core.List.{List, [], ◌∷◌, ◌++◌, map}
use native.Mathlib.Omega.{arith}
use open_instinct.Base.Tests.{◌==◌}
use open_instinct.Base.Lists.{All, All-append}

abbrev pub DistinctIds : List ℕ → Type 0
DistinctIds [] = Unit
DistinctIds (i ∷ is) = All (λ j. (i == j) ≡ false) is × DistinctIds is

pub DistinctIds-append :
    (is : List ℕ) (b : ℕ)
    → DistinctIds is
    → All (λ i. (i == b) ≡ false) is
    → DistinctIds (is ++ b ∷ [])
DistinctIds-append [] b d h = (tt, tt)
DistinctIds-append (i ∷ is) b d h =
    (All-append (λ j. (i == j) ≡ false) is (b ∷ []) d.0 (h.0, tt), DistinctIds-append is b d.1 h.1)

module _ {A : Type 0} (id : A → ℕ) where
  -- `k` is the only row with its id.
  abbrev pub IsOnlyRow : List A → A → Type 0
  IsOnlyRow rs k = All (λ r. (id r == id k) ≡ true → r ≡ k) rs

  only_head : (k : A) (rs : List A) → All (λ i. (id k == i) ≡ false) (map id rs) → IsOnlyRow rs k
  only_head k [] h = tt
  only_head k (r ∷ rs) h = (λ e. absurd (ground arith), only_head k rs h.1)

  only_tail :
      (k : A) (rs ks : List A)
      → All (λ i. (id k == i) ≡ false) (map id ks)
      → All (IsOnlyRow rs) ks
      → All (IsOnlyRow (k ∷ rs)) ks
  only_tail k rs [] h o = tt
  only_tail k rs (r ∷ ks) h o = ((λ e. absurd (ground arith), o.0), only_tail k rs ks h.1 o.1)

  pub DistinctIds-IsOnlyRow : (rs : List A) → DistinctIds (map id rs) → All (IsOnlyRow rs) rs
  DistinctIds-IsOnlyRow [] d = tt
  DistinctIds-IsOnlyRow (k ∷ rs) d =
      ((λ _. refl, only_head k rs d.0), only_tail k rs rs d.0 (DistinctIds-IsOnlyRow rs d.1))

-- A token that has been drawn: the tokens from `bound` on have not.
abbrev pub IsDrawn : ℕ → Option ℕ → Type 0
IsDrawn bound none = Unit
IsDrawn bound (some v) = v < bound

pub IsDrawn-grow : (b b' : ℕ) (t : Option ℕ) → b ≤ b' → IsDrawn b t → IsDrawn b' t
IsDrawn-grow b b' none le h = tt
IsDrawn-grow b b' (some v) le h = omega arith

-- A token that a row has now, but had not, has been drawn since `bound`.
abbrev pub TokenFollows : ℕ → Option ℕ → Option ℕ → Type 0
TokenFollows bound old none = Unit
TokenFollows bound old (some v) = (old ≡ some v) ⊎ (bound ≤ v)

pub TokenFollows-refl : (bound : ℕ) (t : Option ℕ) → TokenFollows bound t t
TokenFollows-refl bound none = tt
TokenFollows-refl bound (some v) = inl refl

pub TokenFollows-trans :
    (b c : ℕ) (t u v : Option ℕ)
    → b ≤ c
    → TokenFollows b t u
    → TokenFollows c u v
    → TokenFollows b t v
TokenFollows-trans b c t u none le h k = tt
TokenFollows-trans b c t none (some w) le h k = ground arith
TokenFollows-trans b c t (some x) (some w) le h k = ground arith
