-- ===== src/Base/Strings.antt =====
-- What the source uses of JavaScript's strings: `trim`, and the checks on lengths.
use Prim.Native.Nat.{ℕ}
use mathlib.Core.Bool.{Bool, ◌&&◌, ◌||◌}
use mathlib.Core.List.{[], ◌∷◌}
use open_instinct.Base.Tests.{leb, ◌==◌, if◌then◌else◌}
use open_instinct.Base.Lists.{Text, text_eq, length}

-- The white space and line terminators of JavaScript's `trim`.
is_space : ℕ → Bool
is_space c =
    (leb 9 c && leb c 13)
    || c == 32
    || c == 160
    || c == 0x1680
    || (leb 0x2000 c && leb c 0x200a)
    || c == 0x2028
    || c == 0x2029
    || c == 0x202f
    || c == 0x205f
    || c == 0x3000
    || c == 0xfeff

trim_start : Text → Text
trim_start [] = []
trim_start (c ∷ cs) = if is_space c then trim_start cs else c ∷ cs

-- `cs` without the white space at its end.
trim_end : Text → Text
trim_end [] = []
trim_end (c ∷ cs) = elim (trim_end cs) [
  | [] ↦ if is_space c then [] else c ∷ []
  | d ∷ ds ↦ c ∷ d ∷ ds
]

unfoldable pub trim : Text → Text
unfolding trim_start trim_end is_space
trim cs = trim_end (trim_start cs)

-- A length in a range.
unfoldable pub has_length : ℕ → ℕ → Text → Bool
has_length least most text = leb least (length text) && leb (length text) most

-- `Schema.isMinLength(least)`, `isMaxLength(most)` and `isTrimmed()`
unfoldable pub trimmed_text : ℕ → ℕ → Text → Bool
unfolding has_length trim text_eq
trimmed_text least most text = has_length least most text && text_eq (trim text) text
