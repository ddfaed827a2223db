-- ===== src/Schedules/Invariant/Unique.antt =====
-- In a table whose keys are apart, an id names one row: what holds of the rows that a query
-- selects holds of every row that an UPDATE ... WHERE id IN (...) reaches.
use open_instinct.Base.{
  ◌≡◌, refl, sym, inl, inr, true, List, [], ◌∷◌, map, arith, All, All-mono, All-transpose, contains,
  ◌==◌, Bool-cases,
}
use mathlib.Core.Path.{subst}
use open_instinct.Schedules.Rows.{Job, Run}
use open_instinct.Schedules.Dispatch.{run_ids}
use open_instinct.Schedules.Invariant.{key_of, Apart, Unique}

-- `s` is the only row with its id.
abbrev pub IsOnly : List Run → Run → Type 0
IsOnly rs s = All (λ r. (r.id == s.id) ≡ true → r ≡ s) rs

only_head :
    (r : Run) (rs : List Run)
    → All (Apart (key_of r)) (map key_of rs)
    → All (λ x. (x.id == r.id) ≡ true → x ≡ r) rs
only_head r [] h = tt
only_head r (x ∷ rs) h = (λ e. absurd (ground arith), only_head r rs h.1)

IsOnly-tail :
    (r : Run) (rs ss : List Run)
    → All (Apart (key_of r)) (map key_of ss)
    → All (IsOnly rs) ss
    → All (IsOnly (r ∷ rs)) ss
IsOnly-tail r rs [] h k = tt
IsOnly-tail r rs (s ∷ ss) h k = ((λ e. absurd (ground arith), k.0), IsOnly-tail r rs ss h.1 k.1)

pub Unique-IsOnly : (rs : List Run) → Unique (map key_of rs) → All (IsOnly rs) rs
Unique-IsOnly [] u = tt
Unique-IsOnly (r ∷ rs) u =
    ((λ _. refl, only_head r rs u.0), IsOnly-tail r rs rs u.0 (Unique-IsOnly rs u.1))

-- A row that a list of selected rows names by its id is one of them.
named-in :
    (Q : Run → Type 0) (r : Run) (sel : List (Job × Run))
    → All (λ x. Q x.1) sel
    → All (λ x. (r.id == x.1.id) ≡ true → r ≡ x.1) sel
    → contains r.id (run_ids sel) ≡ true
    → Q r
named-in Q r [] q only e = cc
named-in Q r (x ∷ sel) q only e = elim (Bool-cases (r.id == x.1.id)) [
  | inl here ↦ subst Q (sym (only.0 here)) q.0
  | inr there ↦ named-in Q r sel q.1 only.1 (ground arith)
]

named_rows :
    (Q : Run → Type 0) (rs : List Run) (sel : List (Job × Run))
    → All (λ x. Q x.1) sel
    → All (λ r. All (λ (x : Job × Run). (r.id == x.1.id) ≡ true → r ≡ x.1) sel) rs
    → All (λ r. contains r.id (run_ids sel) ≡ true → Q r) rs
named_rows Q rs sel q only =
    All-mono (λ r. All (λ (x : Job × Run). (r.id == x.1.id) ≡ true → r ≡ x.1) sel) _
      (λ r o e. named-in Q r sel q o e) rs only

pub selected_rows :
    (Q : Run → Type 0) (rs : List Run) (sel : List (Job × Run))
    → All (λ x. IsOnly rs x.1 × Q x.1) sel
    → All (λ r. contains r.id (run_ids sel) ≡ true → Q r) rs
selected_rows Q rs sel h = named_rows Q rs sel (All-mono _ (λ x. Q x.1) (λ x p. p.1) sel h) (
    All-transpose (λ (x : Job × Run) (r : Run). (r.id == x.1.id) ≡ true → r ≡ x.1) sel rs
      (All-mono _ (λ x. IsOnly rs x.1) (λ x p. p.0) sel h))
