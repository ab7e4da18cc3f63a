-- ===== src/Common/Unicode.antt =====
-- The part of Python's Unicode database that the patterns and `str` methods of the scripts read.
-- ASCII is written out; the code points from 128 up are the interpreter's, a parameter.
use etheorem.Common.{
  ℕ, ◌+◌, ◌-◌, Bool, false, ◌&&◌, ◌||◌, Option, none, some, [], ◌∷◌, ◌++◌, Text, ltb, leb, ◌==◌,
  if◌then◌else◌,
}

pub record Unicode : Type 0 where
  -- a word character, `\w`
  pub alnum : ℕ → Bool
  -- the value of a decimal digit, `\d`
  pub digit : ℕ → Option ℕ
  -- `str.lower` and `str.upper` of one character
  pub lower : ℕ → Text
  pub upper : ℕ → Text
  -- the title case of one character, as `str.capitalize` begins with
  pub title : ℕ → Text

abbrev pub is_upper_ascii : ℕ → Bool
is_upper_ascii c = leb b'A' c && leb c b'Z'

abbrev pub is_lower_ascii : ℕ → Bool
is_lower_ascii c = leb b'a' c && leb c b'z'

abbrev pub is_alpha_ascii : ℕ → Bool
is_alpha_ascii c = is_upper_ascii c || is_lower_ascii c

abbrev pub is_digit_ascii : ℕ → Bool
is_digit_ascii c = leb b'0' c && leb c b'9'

module _ (u : Unicode) where
  -- `\w`
  unfoldable pub is_word : ℕ → Bool
  is_word c = if ltb c 128 then is_alpha_ascii c || (is_digit_ascii c || (c == b'_')) else u.alnum c

  -- `\d`, with the value that `int` gives it.
  unfoldable pub digit_value : ℕ → Option ℕ
  digit_value c =
      if ltb c 128 then if is_digit_ascii c then some (c - b'0') else none else u.digit c

  unfoldable pub to_lower : Text → Text
  to_lower [] = []
  to_lower (c ∷ s) =
      (if ltb c 128 then (if is_upper_ascii c then c + 32 else c) ∷ [] else u.lower c) ++ to_lower s

  -- `str.capitalize`
  unfoldable pub capitalize : Text → Text
  unfolding to_lower
  capitalize [] = []
  capitalize (c ∷ s) =
      (if ltb c 128 then (if is_lower_ascii c then c - 32 else c) ∷ [] else u.title c) ++ to_lower s

  unfoldable pub to_upper : Text → Text
  to_upper [] = []
  to_upper (c ∷ s) =
      (if ltb c 128 then (if is_lower_ascii c then c - 32 else c) ∷ [] else u.upper c) ++ to_upper s

-- An interpreter that knows no letter or digit past ASCII.
abbrev pub ascii_only : Unicode
ascii_only = record {
  alnum = λ c. false;
  digit = λ c. none;
  lower = λ c. c ∷ [];
  upper = λ c. c ∷ [];
  title = λ c. c ∷ [];
}
