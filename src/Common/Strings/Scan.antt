-- ===== src/Common/Strings/Scan.antt =====
-- Runs of characters, and `finditer` for a pattern given as a function that matches at one place.
pub mod Laws
use Prim.Native.Nat.{ℕ, zero, suc, ◌+◌, ◌-◌, pred}
use mathlib.Core.Bool.{Bool, true, false}
use mathlib.Core.List.{List, [], ◌∷◌, ◌++◌}
use mathlib.Core.Option.{Option, none, some}
use etheorem.Common.Tests.{if◌then◌else◌}
use etheorem.Common.Strings.{Text, starts_with}
use etheorem.Common.Lists.{length, drop}

unfoldable pub take_while : (ℕ → Bool) → Text → Text
take_while p [] = []
take_while p (c ∷ s) = let rest = take_while p s in if p c then c ∷ rest else []

unfoldable pub drop_while : (ℕ → Bool) → Text → Text
drop_while p [] = []
drop_while p (c ∷ s) = let rest = drop_while p s in if p c then rest else c ∷ s

-- The text behind a literal that it begins with.
unfoldable pub behind : Text → Text → Option Text
unfolding starts_with
behind literal s = if starts_with s literal then some (drop (length literal) s) else none

-- The matches with their places, from the left, none overlapping another. A pattern returns what it
-- found and how many characters that took, at least one. The first argument counts the characters
-- that belong to the last match.
unfoldable pub find_iter {ℓ} : {A : Type ℓ} → (Text → Option (A × ℕ)) → ℕ → ℕ → Text → List (ℕ × A)
find_iter match skip pos [] = []
find_iter match (suc skip) pos (c ∷ s) = find_iter match skip (suc pos) s
find_iter match zero pos (c ∷ s) =
    let none_here = find_iter match zero (suc pos) s in
    elim (match (c ∷ s)) [
      | none ↦ none_here
      | some (a, n) ↦ (pos, a) ∷ find_iter match (pred n) (suc pos) s
    ]

-- `s.replace(old, new, 1)` for a nonempty `old`.
unfoldable pub replace_first : Text → Text → Text → Text
unfolding behind
replace_first old new [] = []
replace_first old new (c ∷ s) =
    let later = replace_first old new s in
    elim (behind old (c ∷ s)) [ some rest ↦ new ++ rest | none ↦ c ∷ later ]
