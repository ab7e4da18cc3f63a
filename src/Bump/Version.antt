-- ===== src/Bump/Version.antt =====
-- `VERSION_RE` of packages/LeanSha256/scripts/bump_patch.py: `^(version\s*=\s*")(\d+)\.(\d+)\.(\d+)(")$`
-- in multi-line mode. The white space stands apart from what may follow it, and so do the digits, so
-- that matching takes as many as there are.
use etheorem.Common.{
  ℕ, ◌+◌, ◌*◌, Bool, Option, none, some, [], ◌∷◌, ◌++◌, Text, codes, ◌==◌, if◌then◌else◌,
}
use etheorem.Common.Monad.{◌>>=◌}
use etheorem.Common.Unicode.{Unicode, digit_value}
use etheorem.Common.Strings.Digits.{decimal}
use etheorem.Common.Strings.Lines.{is_space}
use etheorem.Common.Strings.Scan.{take_while, drop_while, behind}

-- The groups of a match, and the text behind it.
pub record Found : Type 0 where
  pub opening : Text
  pub major : ℕ
  pub minor : ℕ
  pub patch : ℕ
  pub rest : Text

-- The value of the digits in front, behind a number read so far, and the text behind them.
unfoldable pub digits : Unicode → ℕ → Text → ℕ × Text
digits u n [] = (n, [])
digits u n (c ∷ s) = elim (digit_value u c) [ none ↦ (n, c ∷ s) | some d ↦ digits u (n * 10 + d) s ]

-- `(\d+)`
unfoldable pub numeral : Unicode → Text → Option (ℕ × Text)
unfolding digits
numeral u [] = none
numeral u (c ∷ s) = elim (digit_value u c) [ none ↦ none | some d ↦ some (digits u d s) ]

-- `$`: at the end, or in front of a line's end.
unfoldable pub ends_line : Text → Option Text
ends_line [] = some []
ends_line (c ∷ s) = if c == 10 then some (c ∷ s) else none

-- The match at one place.
unfoldable pub at_place : Unicode → Text → Option Found
at_place u s = do
  a ← behind (codes "version") s
  b ← behind (codes "=") (drop_while is_space a)
  c ← behind (codes "\"") (drop_while is_space b)
  (major, d) ← numeral u c
  e ← behind (codes ".") d
  (minor, f) ← numeral u e
  h ← behind (codes ".") f
  (patch, i) ← numeral u h
  j ← behind (codes "\"") i
  rest ← ends_line j
  some (record {
    opening =
        codes "version"
        ++ (take_while is_space a ++ (codes "=" ++ (take_while is_space b ++ codes "\"")));
    major = major;
    minor = minor;
    patch = patch;
    rest = rest;
  })

-- `VERSION_RE.search(text)`: the first match, with the text in front of it. The flag tells whether
-- the place is a line's beginning.
unfoldable pub search : Unicode → Bool → Text → Option (Text × Found)
unfolding at_place
search u start [] = none
search u start (c ∷ s) =
    let later = search u (c == 10) s in
    elim (if start then at_place u (c ∷ s) else none) [
      | some found ↦ some ([], found)
      | none ↦ elim later [ none ↦ none | some (before, found) ↦ some (c ∷ before, found) ]
    ]

-- `f"{major}.{minor}.{patch}"`
unfoldable pub version_text : ℕ → ℕ → ℕ → Text
unfolding decimal
version_text major minor patch =
    decimal major ++ (codes "." ++ (decimal minor ++ (codes "." ++ decimal patch)))

-- The text that `VERSION_RE.sub` makes of a match, the first one only.
unfoldable pub bump_text : Text → Found → Text
unfolding version_text
bump_text before f =
    before ++ (f.opening ++ (version_text f.major f.minor (f.patch + 1) ++ (codes "\"" ++ f.rest)))
