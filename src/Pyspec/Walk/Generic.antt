-- ===== src/Pyspec/Walk/Generic.antt =====
-- `walk_cases` of packages/SizzLean/PySpecTests/harness.py: the generic cases, each once over all forks.
use mathlib.Core.List.{flat_map}
use etheorem.Common.{
  ℕ, Bool, false, ◌&&◌, ◌||◌, Option, List, [], ◌∷◌, ◌++◌, map, Text, codes, text_eq, mem_text,
  if◌then◌else◌,
}
use etheorem.Common.Unicode.{Unicode}
use etheorem.Pyspec.Walk.{Dirs, subdirs, below, Key, count_of, bump, over}
use etheorem.Pyspec.Walk.Shapes.{shape_spec_for_generic}

abbrev pub supported_handlers : List Text
supported_handlers =
    codes "uints"
    ∷ codes "basic_vector"
    ∷ codes "bitvector"
    ∷ codes "bitlist"
    ∷ codes "boolean"
    ∷ codes "containers"
    ∷ codes "basic_progressive_list"
    ∷ codes "progressive_bitlist"
    ∷ codes "progressive_containers"
    ∷ []

pub record GenericCase : Type 0 where
  pub fork : Text
  pub handler : Text
  pub kind : Text
  pub case_name : Text
  pub shape : Option Text
  pub path : Text

-- `(handler, kind, case_dir.name)`
abbrev pub Triple : Type 0
Triple = Text × Text × Text

abbrev pub triple_of : GenericCase → Triple
triple_of c = (c.handler, c.kind, c.case_name)

abbrev pub triple_eq : Triple → Triple → Bool
triple_eq a b = text_eq a.0 b.0 && (text_eq a.1 b.1 && text_eq a.2 b.2)

-- `dedup in seen`
unfoldable pub mem_triple : Triple → List Triple → Bool
unfolding text_eq
mem_triple t [] = false
mem_triple t (s ∷ seen) = triple_eq s t || mem_triple t seen

abbrev pub kind_key : GenericCase → Key
kind_key c = (c.handler, c.kind)

-- The body of the innermost loop: a case that was seen is passed over, and so is one over the limit,
-- which counts as seen from then on.
unfoldable pub emit : Option ℕ → List Triple → List (Key × ℕ) → List GenericCase → List GenericCase
unfolding mem_triple count_of bump
emit limit seen counts [] = []
emit limit seen counts (c ∷ rest) =
    let known = emit limit seen counts rest in
    let skip = emit limit (triple_of c ∷ seen) counts rest in
    let take = emit limit (triple_of c ∷ seen) (bump (kind_key c) counts) rest in
    if mem_triple (triple_of c) seen
    then known
    else if over limit (count_of (kind_key c) counts)
    then skip
    else c ∷ take

module _ (u : Unicode) (dirs : Dirs) where
  unfoldable pub kind_cases : Text → Text → Text → Text → List GenericCase
  unfolding subdirs shape_spec_for_generic
  kind_cases fork handler path kind =
      map
        (λ name. record {
          fork = fork;
          handler = handler;
          kind = kind;
          case_name = name;
          shape = shape_spec_for_generic u handler name;
          path = below path name;
        })
        (subdirs dirs path)

  unfoldable pub handler_cases : Text → Text → Text → List GenericCase
  unfolding mem_text kind_cases
  handler_cases fork handler path =
      if mem_text handler supported_handlers
      then kind_cases fork handler (below path (codes "valid")) (codes "valid")
        ++ kind_cases fork handler (below path (codes "invalid")) (codes "invalid")
      else []

  unfoldable pub fork_cases : Text → Text → List GenericCase
  unfolding subdirs handler_cases flat_map
  fork_cases fork path =
      flat_map (λ handler. handler_cases fork handler (below path handler)) (subdirs dirs path)

  unfoldable pub generic_candidates : Text → List GenericCase
  unfolding subdirs fork_cases flat_map
  generic_candidates root =
      let general = below (below root (codes "tests")) (codes "general") in
      flat_map (λ fork. fork_cases fork (below (below general fork) (codes "ssz_generic")))
        (subdirs dirs general)

  unfoldable pub walk_generic : Text → Option ℕ → List GenericCase
  unfolding generic_candidates emit
  walk_generic root limit = emit limit [] [] (generic_candidates root)
