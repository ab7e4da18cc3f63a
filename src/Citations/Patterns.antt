-- ===== src/Citations/Patterns.antt =====
-- The patterns of scripts/check_citations.py: `DECL_LINE`, `is_boundary`, `decl_pattern`, and the
-- scanners of `CITATION` and `IDENTIFIER`. Each pattern's parts have disjoint first characters, so
-- a match is found without trying a shorter run again.
pub mod Names
use etheorem.Common.{
  ℕ, zero, suc, ◌+◌, ◌-◌, ◌*◌, Bool, true, false, not, ◌&&◌, ◌||◌, Option, none, some, List, [],
  ◌∷◌, ◌++◌, map, Text, codes, starts_with_any, is_empty, length, take, get_or, ◌==◌, if◌then◌else◌,
}
use mathlib.Core.Option
use etheorem.Common.Monad.{◌>>=◌}
use etheorem.Common.Unicode.{Unicode, is_word, digit_value, is_alpha_ascii, is_digit_ascii}
use etheorem.Common.Strings.Lines.{is_space, lstrip}
use etheorem.Common.Strings.Scan.{take_while, drop_while, behind, find_iter}

abbrev pub decl_keywords : List Text
decl_keywords =
    codes "forkdef"
    ∷ codes "forkstruct"
    ∷ codes "forkcontainer"
    ∷ codes "def"
    ∷ codes "abbrev"
    ∷ codes "structure"
    ∷ codes "instance"
    ∷ codes "theorem"
    ∷ codes "inherit"
    ∷ codes "class"
    ∷ codes "example"
    ∷ codes "namespace"
    ∷ codes "end"
    ∷ codes "section"
    ∷ codes "open"
    ∷ codes "variable"
    ∷ codes "import"
    ∷ codes "deriving"
    ∷ codes "macro"
    ∷ codes "syntax"
    ∷ codes "inductive"
    ∷ codes "axiom"
    ∷ []

abbrev pub modifiers : List Text
modifiers =
    codes "private"
    ∷ codes "protected"
    ∷ codes "partial"
    ∷ codes "unsafe"
    ∷ codes "noncomputable"
    ∷ codes "scoped"
    ∷ []

-- Whether a text begins with a space, as `\s`.
unfoldable pub space_first : Text → Bool
unfolding is_space
space_first [] = false
space_first (c ∷ s) = is_space c

-- The text behind the first word of the list that it begins with and that a space follows.
unfoldable pub behind_word : List Text → Text → Option Text
unfolding behind space_first
behind_word [] s = none
behind_word (w ∷ ws) s =
    let later = behind_word ws s in
    elim (behind w s) [ none ↦ later | some rest ↦ if space_first rest then some rest else later ]

-- `(?:(?:private|…)\s+)*`, with fuel: each round takes a word and a space off the text.
unfoldable pub skip_modifiers : ℕ → Text → Text
unfolding behind_word lstrip
skip_modifiers zero s = s
skip_modifiers (suc fuel) s = elim (behind_word modifiers s) [
  | none ↦ s
  | some rest ↦ skip_modifiers fuel (lstrip rest)
]

module _ (u : Unicode) where
  -- `\b` behind a word character.
  unfoldable pub word_ends : Text → Bool
  unfolding is_word
  word_ends [] = true
  word_ends (c ∷ s) = not (is_word u c)

  -- One of the words stands at the start and ends there.
  unfoldable pub opens_with : List Text → Text → Bool
  unfolding behind word_ends
  opens_with [] s = false
  opens_with (w ∷ ws) s =
      let later = opens_with ws s in
      elim (behind w s) [ none ↦ later | some rest ↦ word_ends rest || later ]

  -- `DECL_LINE.match(line)`
  unfoldable pub decl_line : Text → Bool
  unfolding skip_modifiers opens_with
  decl_line line = opens_with decl_keywords (skip_modifiers (length line) line)

  unfoldable pub is_boundary : Text → Bool
  unfolding starts_with_any decl_line
  is_boundary line =
      if starts_with_any line (codes "/--" ∷ codes "/-!" ∷ codes "@[" ∷ codes "-- " ∷ [])
      then true
      else decl_line line

  -- The name stands at the start and ends there.
  unfoldable pub names_here : Text → Text → Bool
  unfolding behind word_ends
  names_here name s = elim (behind name s) [ none ↦ false | some rest ↦ word_ends rest ]

  -- The name stands behind some dot of the text.
  unfoldable pub names_behind_dot : Text → Text → Bool
  unfolding names_here
  names_behind_dot name [] = false
  names_behind_dot name (c ∷ s) = ((c == b'.') && names_here name s) || names_behind_dot name s

  -- `decl_pattern(name).match(line)`, for a name that begins and ends with a word character.
  unfoldable pub decl_matches : Text → Text → Bool
  unfolding behind_word lstrip skip_modifiers names_here names_behind_dot
  decl_matches name line = elim (behind_word decl_keywords (skip_modifiers (length line) line)) [
    | none ↦ false
    | some rest ↦ let s = lstrip rest in names_here name s || names_behind_dot name s
  ]

  -- A run of decimal digits as a number, and the text behind it; at least one digit.
  unfoldable pub digits_run : Option ℕ → Text → Option (ℕ × Text)
  unfolding digit_value
  digits_run none [] = none
  digits_run (some n) [] = some (n, [])
  digits_run none (c ∷ s) = elim (digit_value u c) [ none ↦ none | some d ↦ digits_run (some d) s ]
  digits_run (some n) (c ∷ s) = elim (digit_value u c) [
    | none ↦ some (n, c ∷ s)
    | some d ↦ digits_run (some (n * 10 + d)) s
  ]

abbrev pub is_path_char : ℕ → Bool
is_path_char c = is_alpha_ascii c || (is_digit_ascii c || ((c == b'_') || (c == b'/')))

abbrev pub is_name_start : ℕ → Bool
is_name_start c = is_alpha_ascii c || (c == b'_')

abbrev pub is_name_char : ℕ → Bool
is_name_char c = is_alpha_ascii c || (is_digit_ascii c || ((c == b'_') || (c == b'.')))

-- What one match of `CITATION` holds.
pub record Found : Type 0 where
  pub path : Text
  pub start : ℕ
  pub finish : Option ℕ
  pub text : Text

module _ (u : Unicode) where
  -- `(?:-(?P<end>\d+))?` and the closing backtick.
  unfoldable pub span_end : Text → Option (Option ℕ × Text)
  unfolding behind digits_run
  span_end s = elim (behind (codes "-") s) [
    | none ↦ Option.map (λ rest. (none, rest)) (behind (codes "`") s)
    | some t ↦ do
      (n, rest) ← digits_run u none t
      done ← behind (codes "`") rest
      some (some n, done)
  ]

  -- `CITATION` at the start of a text, with the length of the match.
  unfoldable pub citation_at : Text → Option (Found × ℕ)
  unfolding behind take_while drop_while digits_run span_end
  citation_at s = do
    inner ← behind (codes "`") s
    let stem = take_while is_path_char inner
    tail ← behind (codes ".lean:") (drop_while is_path_char inner)
    (start, more) ← digits_run u none tail
    (finish, rest) ← span_end more
    let size = length s - length rest
    let found : Found = record {
      path = stem ++ codes ".lean";
      start = start;
      finish = finish;
      text = take size s;
    }
    if is_empty stem then none else some (found, size)

  -- `CITATION.finditer(line)`, with the place of each match.
  unfoldable pub citations_in : Text → List (ℕ × Found)
  unfolding find_iter citation_at
  citations_in = find_iter citation_at 0 0

-- `IDENTIFIER` at the start of a text: the name, and the length of the match.
unfoldable pub identifier_at : Text → Option (Text × ℕ)
unfolding behind take_while drop_while
identifier_at s = do
  inner ← behind (codes "`") s
  let name = take_while is_name_char inner
  rest ← behind (codes "`") (drop_while is_name_char inner)
  if is_name_start (get_or name 0 0) then some (name, length name + 2) else none

-- `IDENTIFIER.findall(text)`
unfoldable pub identifiers : Text → List Text
unfolding find_iter identifier_at
identifiers s = map (λ m. m.1) (find_iter identifier_at 0 0 s)
