-- ===== src/Base/Results.antt =====
-- Calls that return or fail with an error, and transactions: a call inside one takes the tables and
-- returns its result with the tables that it leaves, and one that fails leaves them as they were.
use mathlib.Core.Path.{◌≡◌, refl}
use mathlib.Core.Bool.{Bool, true, false}
use open_instinct.Base.Tests.{if◌then◌else◌}
use mathlib.Core.Logic.{◌⊎◌, inl, inr}
use mathlib.Core.Option.{Option, none, some}

pub data Result (E A : Type 0) : Type 0 where
  fail : E → Result E A
  done : A → Result E A

infixl 5 ◌>>=◌ ◌>>◌
abbrev pub ◌>>=◌ : {E A B : Type 0} → Result E A → (A → Result E B) → Result E B
fail e >>= next = fail e
done a >>= next = next a

abbrev pub ◌>>◌ : {E B : Type 0} → Result E (Unit {0}) → Result E B → Result E B
check >> next = check >>= λ _. next

abbrev pub ensure : {E : Type 0} → Bool → E → Result E (Unit {0})
ensure true e = done tt
ensure false e = fail e

-- `rows[0]`, where its absence is an error.
abbrev pub found_or : {E A : Type 0} → E → Option A → Result E A
found_or e none = fail e
found_or e (some a) = done a

pub Result-cases :
    {E A : Type 0} (r : Result E A) → ((e : E) × (r ≡ fail e)) ⊎ ((a : A) × (r ≡ done a))
Result-cases (fail e) = inl (e, refl)
Result-cases (done a) = inr (a, refl)

-- A transaction is rolled back where what runs in it fails.
unfoldable pub with_transaction : {E A D : Type 0} → D → Result E (A × D) → Result E A × D
with_transaction db (fail e) = (fail e, db)
with_transaction db (done (a, db')) = (done a, db')

-- What holds of the value that a call returns, if it does not fail.
abbrev pub Holds : {E A : Type 0} → (A → Type 0) → Result E A → Type 0
Holds P (fail e) = Unit
Holds P (done a) = P a

pub Holds-bind :
    {E A B : Type 0} (P : B → Type 0) (r : Result E A) (next : A → Result E B)
    → ((a : A) → r ≡ done a → Holds P (next a))
    → Holds P (r >>= next)
Holds-bind P (fail e) next h = tt
Holds-bind P (done a) next h = h a refl

-- What holds of the tables before, and of those of a run that does not fail, holds after it.
pub with_transaction-Holds :
    {E A D : Type 0} (P : D → Type 0) (db : D) (run : Result E (A × D))
    → P db
    → Holds (λ x. P x.1) run
    → P (with_transaction db run).1
unfolding with_transaction
with_transaction-Holds P db (fail e) before after = before
with_transaction-Holds P db (done (a, db')) before after = after

pub Holds-mono :
    {E A : Type 0} (P Q : A → Type 0) (r : Result E A)
    → ((a : A) → P a → Q a)
    → Holds P r
    → Holds Q r
Holds-mono P Q (fail e) f h = tt
Holds-mono P Q (done a) f h = f a h

pub Holds-if :
    {E A : Type 0} (P : A → Type 0) (b : Bool) (x y : Result E A)
    → (b ≡ true → Holds P x)
    → (b ≡ false → Holds P y)
    → Holds P (if b then x else y)
Holds-if P true x y h k = h refl
Holds-if P false x y h k = k refl

pub with_transaction-done :
    {E A D : Type 0} (db db' : D) (run : Result E (A × D)) (a : A)
    → with_transaction db run ≡ (done a, db')
    → run ≡ done (a, db')
unfolding with_transaction
with_transaction-done db db' (fail e) a h = cc
with_transaction-done db db' (done (b, d)) a h = cc
