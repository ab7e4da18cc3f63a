-- ===== src/Tiers/Ours.antt =====
-- The repository's side of scripts/check_constant_tiers.py: the names and the tiers of the
-- `forkabbrev` entries of a fork's Constants.lean.
use etheorem.Common.{
  ℕ, zero, suc, ◌-◌, Bool, true, false, not, ◌&&◌, ◌||◌, Option, none, some, List, [], ◌∷◌, Text,
  codes, starts_with, ends_with, split_once, is_empty, length, take, ◌==◌, if◌then◌else◌,
}
use etheorem.Common.Monad.{◌>>=◌}
use etheorem.Common.Outcome.{Outcome, raised, passed}
use etheorem.Common.Unicode.{Unicode, is_upper_ascii, is_alpha_ascii, is_digit_ascii, to_upper}
use etheorem.Common.Assoc.{has, assign}
use etheorem.Common.Strings.Lines.{lstrip}
use etheorem.Common.Strings.Scan.{take_while, drop_while, behind}
use etheorem.Tiers.{Truth}

-- `re.sub(r"(?<!^)(?=[A-Z])", "_", name)`
unfoldable pub underscores : Bool → Text → Text
underscores first [] = []
underscores first (c ∷ s) =
    let rest = underscores false s in
    if not first && is_upper_ascii c then b'_' ∷ c ∷ rest else c ∷ rest

unfoldable pub snake : Unicode → Text → Text
unfolding underscores to_upper
snake u name = to_upper u (underscores true name)

-- The spellings that are tried after one another; the last one stays if none is known.
unfoldable pub upstream_key : Unicode → Text → Truth → Text
unfolding snake ends_with
upstream_key u name truth =
    let plain = snake u name in
    let short = snake u (take (length name - 1) name) in
    if ends_with name (codes "G") then if has short truth then short else plain else plain

abbrev pub is_entry_char : ℕ → Bool
is_entry_char c = is_alpha_ascii c || (is_digit_ascii c || (c == b'_'))

-- `.*?:=`: the text behind the first `:=` of the line.
unfoldable pub behind_assign : Text → Option Text
unfolding behind
behind_assign [] = none
behind_assign (c ∷ s) =
    let later = behind_assign s in
    elim (behind (codes ":=") (c ∷ s)) [
      | some rest ↦ some rest
      | none ↦ if c == 10 then none else later
    ]

-- `forkabbrev ([A-Za-z0-9_]+)\s*:.*?:=\s*(.*)$` at the start of a text: the name, the right-hand
-- side, and the length of the match.
unfoldable pub entry_at : Text → Option ((Text × Text) × ℕ)
unfolding behind take_while drop_while lstrip behind_assign
entry_at s = do
  a ← behind (codes "forkabbrev ") s
  let name = take_while is_entry_char a
  b ← behind (codes ":") (lstrip (drop_while is_entry_char a))
  c ← behind_assign b
  let rhs = take_while (λ x. not (x == 10)) (lstrip c)
  let rest = drop_while (λ x. not (x == 10)) (lstrip c)
  if is_empty name then none else some ((name, rhs), length s - length rest)

-- `re.finditer` from the line starts; the first argument counts the characters of the last match.
unfoldable pub entries : ℕ → Bool → Text → List (Text × Text)
unfolding entry_at
entries skip at_start [] = []
entries (suc skip) at_start (c ∷ s) = entries skip (c == 10) s
entries zero at_start (c ∷ s) =
    let later = entries zero (c == 10) s in
    if at_start
    then elim (entry_at (c ∷ s)) [
      | none ↦ later
      | some (found, n) ↦ found ∷ entries (n - 1) (c == 10) s
    ]
    else later

abbrev pub tier_of : Text → Text
tier_of rhs =
    if starts_with rhs (codes "Preset.")
    then codes "Preset"
    else if starts_with rhs (codes "Config.")
    then codes "Config"
    else codes "flat"

unfoldable pub classify : List (Text × Text) → List (Text × Text) → List (Text × Text)
unfolding ends_with starts_with assign
classify [] out = out
classify ((name, rhs) ∷ rest) out = classify rest (
    if ends_with name (codes "Pos") || ends_with name (codes "Lt")
    then out
    else assign name (tier_of rhs) out)

-- `our_constants`, from the text of the fork's file; without `namespace Const` the index is out of
-- range.
unfoldable pub our_constants : Text → Outcome (List (Text × Text))
unfolding split_once entries classify
our_constants src = elim (split_once (codes "namespace Const") src) [
  | none ↦ raised
  | some (front, back) ↦
      let body : Text = elim (split_once (codes "\nend Const") back) [
        | none ↦ back
        | some p ↦ p.0
      ] in
      passed (classify (entries 0 true body) [])
]
