-- ===== src/Pyspec/Walk.antt =====
-- `walk_cases` of both harnesses, and the shapes of the generic cases. The directories are a
-- parameter: the names of the subdirectories of a path, in any order, or nothing where the path is no
-- directory. A generator is the list of what it yields.
pub mod Shapes
pub mod Generic
pub mod Laws
use mathlib.Core.Option
use mathlib.Core.List.{flat_map}
use etheorem.Common.{
  ℕ, zero, suc, ◌+◌, Bool, true, false, not, ◌||◌, ◌&&◌, Option, none, some, List, [], ◌∷◌, ◌++◌,
  map, Text, codes, text_eq, mem_text, ltb, leb, if◌then◌else◌,
}
use etheorem.Common.Strings.Order.{sort, text_leb}

abbrev pub Dirs : Type 0
Dirs = Text → Option (List Text)

-- `sorted(p for p in d.iterdir() if p.is_dir())`, by name.
unfoldable pub subdirs : Dirs → Text → List Text
unfolding sort text_leb
subdirs dirs d = elim (dirs d) [ none ↦ [] | some names ↦ sort text_leb names ]

abbrev pub is_dir : Dirs → Text → Bool
is_dir dirs d = elim (dirs d) [ none ↦ false | some names ↦ true ]

abbrev pub below : Text → Text → Text
below d name = d ++ (codes "/" ++ name)

abbrev pub Key : Type 0
Key = Text × Text

abbrev pub key_eq : Key → Key → Bool
key_eq j k = text_eq j.0 k.0 && text_eq j.1 k.1

-- `counts.get(key, 0)`
unfoldable pub count_of : Key → List (Key × ℕ) → ℕ
unfolding text_eq
count_of key [] = 0
count_of key ((k, n) ∷ counts) = let rest = count_of key counts in if key_eq k key then n else rest

-- `counts[key] = counts.get(key, 0) + 1`
unfoldable pub bump : Key → List (Key × ℕ) → List (Key × ℕ)
unfolding text_eq
bump key [] = (key, 1) ∷ []
bump key ((k, n) ∷ counts) =
    let rest = bump key counts in if key_eq k key then (k, suc n) ∷ counts else (k, n) ∷ rest

-- `limit is not None and counts.get(key, 0) >= limit`
abbrev pub over : Option ℕ → ℕ → Bool
over none n = false
over (some limit) n = leb limit n

-- The loops' bodies for the cases found so far: those over the limit of their key are passed over.
unfoldable pub capped {ℓ} : {A : Type ℓ} → (A → Key) → Option ℕ → List (Key × ℕ) → List A → List A
unfolding count_of bump
capped key_of limit counts [] = []
capped key_of limit counts (a ∷ rest) =
    let skip = capped key_of limit counts rest in
    let take = capped key_of limit (bump (key_of a) counts) rest in
    if over limit (count_of (key_of a) counts) then skip else a ∷ take

abbrev pub in_scope_runners : List Text
in_scope_runners =
    codes "sanity"
    ∷ codes "finality"
    ∷ codes "random"
    ∷ codes "epoch_processing"
    ∷ codes "operations"
    ∷ codes "rewards"
    ∷ codes "genesis"
    ∷ codes "fork"
    ∷ codes "transition"
    ∷ codes "fork_choice"
    ∷ codes "ssz_static"
    ∷ []

-- `Case` of packages/EthCLSpecs/PySpecTests/harness.py.
pub record Case : Type 0 where
  pub preset : Text
  pub fork : Text
  pub runner : Text
  pub handler : Text
  pub suite : Text
  pub name : Text
  pub path : Text

-- Whether the walk goes into a runner's directory.
unfoldable pub enters : Text → Text → Bool
unfolding text_eq mem_text
enters fork runner =
    mem_text runner in_scope_runners
    && not (
        text_eq fork (codes "fulu")
        && (text_eq runner (codes "fork") || text_eq runner (codes "transition")))

abbrev pub runner_key : Case → Key
runner_key c = (c.runner, c.handler)

module _ (dirs : Dirs) (preset fork : Text) where
  unfoldable pub suite_cases : Text → Text → Text → Text → List Case
  unfolding subdirs
  suite_cases runner handler suite path =
      map
        (λ name. record {
          preset = preset;
          fork = fork;
          runner = runner;
          handler = handler;
          suite = suite;
          name = name;
          path = below path name;
        })
        (subdirs dirs path)

  unfoldable pub handler_cases : Text → Text → Text → List Case
  unfolding subdirs suite_cases flat_map
  handler_cases runner handler path =
      flat_map (λ suite. suite_cases runner handler suite (below path suite)) (subdirs dirs path)

  unfoldable pub runner_cases : Text → Text → List Case
  unfolding subdirs handler_cases enters flat_map
  runner_cases runner path =
      if enters fork runner
      then flat_map (λ handler. handler_cases runner handler (below path handler))
          (subdirs dirs path)
      else []

  -- The cases of `tests/<preset>/<fork>` without a limit.
  unfoldable pub candidates : Text → List Case
  unfolding subdirs runner_cases flat_map
  candidates root =
      let fork_dir = below (below (below root (codes "tests")) preset) fork in
      flat_map (λ runner. runner_cases runner (below fork_dir runner)) (subdirs dirs fork_dir)

  unfoldable pub walk_cases : Text → Option ℕ → List Case
  unfolding candidates capped
  walk_cases root limit = capped runner_key limit [] (candidates root)
