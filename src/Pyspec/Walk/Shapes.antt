-- ===== src/Pyspec/Walk/Shapes.antt =====
-- `_SHAPE_PATTERNS` and `shape_spec_for_generic` of packages/SizzLean/PySpecTests/harness.py.
use etheorem.Common.{
  ℕ, Bool, true, false, ◌&&◌, Option, none, some, List, [], ◌∷◌, ◌++◌, Text, codes, text_eq,
  starts_with, is_empty, if◌then◌else◌,
}
use etheorem.Common.Monad.{◌>>=◌}
use etheorem.Common.Unicode.{Unicode, digit_value}
use etheorem.Common.Strings.Scan.{take_while, behind}

abbrev pub structs : List Text
structs =
    codes "SingleFieldTestStruct"
    ∷ codes "SmallTestStruct"
    ∷ codes "FixedTestStruct"
    ∷ codes "VarTestStruct"
    ∷ codes "ComplexTestStruct"
    ∷ codes "BitsStruct"
    ∷ codes "ProgressiveSingleFieldContainerTestStruct"
    ∷ codes "ProgressiveSingleListContainerTestStruct"
    ∷ codes "ProgressiveVarTestStruct"
    ∷ codes "ProgressiveComplexTestStruct"
    ∷ codes "ProgressiveTestStruct"
    ∷ codes "ProgressiveBitsStruct"
    ∷ []

-- `a or b` on matches.
abbrev pub or_else : Option Text → Option Text → Option Text
or_else none later = later
or_else (some a) later = some a

-- One of the words, as it stands at the start.
unfoldable pub word_of : List Text → Text → Option Text
unfolding starts_with
word_of [] s = none
word_of (w ∷ ws) s = let later = word_of ws s in if starts_with s w then some w else later

module _ (u : Unicode) where
  abbrev pub is_digit_char : ℕ → Bool
  is_digit_char c = elim (digit_value u c) [ none ↦ false | some d ↦ true ]

  -- A word and `\d+` behind it.
  unfoldable pub with_number : Text → Text → Option Text
  unfolding behind take_while digit_value
  with_number word s = do
    rest ← behind word s
    let digits = take_while is_digit_char rest
    if is_empty digits then none else some (word ++ digits)

  -- `(?:bool|uint\d+)` behind a word.
  unfoldable pub element : Text → Text → Option Text
  unfolding behind with_number
  element word s = do
    rest ← behind word s
    item ← or_else (word_of (codes "bool" ∷ []) rest) (with_number (codes "uint") rest)
    some (word ++ item)

  -- `vec_(?:bool|uint\d+)_\d+`
  unfoldable pub vector : Text → Option Text
  unfolding element with_number
  vector s = do front ← element (codes "vec_") s; with_number (front ++ codes "_") s

  -- The first of the patterns that matches.
  unfoldable pub pattern_match : Text → Option Text
  unfolding with_number vector element word_of
  pattern_match s = or_else (with_number (codes "uint_") s) (
      or_else (with_number (codes "bitvec_") s) (
        or_else (with_number (codes "bitlist_") s) (
          or_else (vector s) (
            or_else (element (codes "proglist_") s)
              (or_else (word_of (codes "progbitlist" ∷ []) s) (word_of structs s))))))

  unfoldable pub shape_spec_for_generic : Text → Text → Option Text
  unfolding text_eq starts_with pattern_match
  shape_spec_for_generic handler case_name =
      if text_eq handler (codes "boolean")
      then some (codes "bool")
      else if text_eq handler (codes "bitlist")
          && starts_with case_name (codes "bitlist_no_delimiter")
      then some (codes "bitlist_256")
      else pattern_match case_name
