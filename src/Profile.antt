-- ===== src/Profile.antt =====
-- scripts/prepare_profile_vector.py: the snappy files of one case, decompressed. The case's directory
-- gives a name its bytes, where it is a file; the directory written to, and `cramjam`, are
-- parameters. The names written end in `.ssz`, so no write changes a file that is read. The loop has
-- fuel, and says so when that is used up.
pub mod Laws
mod Tests
use mathlib.Core.Option
use etheorem.Common.{
  ℕ, zero, suc, ◌+◌, ◌-◌, Bool, true, false, not, Option, none, some, List, [], ◌∷◌, ◌++◌, Text,
  codes, starts_with, join, length, get_elem?, ◌==◌, if◌then◌else◌,
}
use etheorem.Common.Action.{Action, Step, pure, gets, or_raise, modify, ◌>>=◌, ◌>>◌}
use etheorem.Common.Strings.Digits.{decimal}

pub record Files (D : Type 0) : Type 0 where
  -- a file of the case's directory, by its name
  pub case_file : Text → Option (List ℕ)
  -- `cramjam.snappy.decompress_raw`
  pub decompress_raw : List ℕ → Option (List ℕ)
  -- `mkdir` and `write_bytes` in the output directory
  pub mkdir : D → Option D
  pub write_bytes : Text → List ℕ → D → Option D

-- The output directory, and what was printed on standard output and standard error.
pub record World (D : Type 0) : Type 0 where
  pub disk : D
  pub out : List Text
  pub err : List Text

-- `s.replace(old, new)`; the number counts the characters that belong to the last match.
unfoldable pub replace : Text → Text → ℕ → Text → Text
unfolding starts_with
replace old new skip [] = []
replace old new (suc skip) (c ∷ s) = replace old new skip s
replace old new zero (c ∷ s) =
    let inside = replace old new (length old - 1) s in
    let later = replace old new zero s in
    if starts_with (c ∷ s) old then new ++ inside else c ∷ later

abbrev pub pre_name : Text
pre_name = codes "pre.ssz_snappy"

unfoldable pub block_name : ℕ → Text
unfolding decimal
block_name index = codes "blocks_" ++ (decimal index ++ codes ".ssz_snappy")

abbrev pub is_some {ℓ} : {A : Type ℓ} → Option A → Bool
is_some none = false
is_some (some a) = true

abbrev pub add : Text → Option (List Text) → Option (List Text)
add path none = none
add path (some paths) = some (path ∷ paths)

module _ {D : Type 0} (f : Files D) where
  -- A change of the output directory, which may raise.
  unfoldable pub on_disk : (D → Option D) → Step (World D)
  on_disk change w = elim (change w.disk) [
    | none ↦ or_raise none w
    | some disk ↦ pure tt (record { disk = disk; out = w.out; err = w.err })
  ]

  unfoldable pub print_err : Text → Step (World D)
  print_err line = modify (λ w. record { disk = w.disk; out = w.out; err = w.err ++ line ∷ [] })

  unfoldable pub print : Text → Step (World D)
  print line = modify (λ w. record { disk = w.disk; out = w.out ++ line ∷ []; err = w.err })

  -- The path of a file written.
  unfoldable pub target : Text → Text → Text
  target out_dir name =
      out_dir ++ (codes "/" ++ replace (codes ".ssz_snappy") (codes ".ssz") 0 name)

  unfoldable pub decompress : Text → Text → Action (World D) Text
  decompress out_dir name = do
    src ← or_raise (f.case_file name)
    raw ← or_raise (f.decompress_raw src)
    on_disk (f.write_bytes (target out_dir name) raw)
    pure (target out_dir name)

  -- `while blk.is_file()`, from an index; nothing is returned when the fuel is used up.
  unfoldable pub blocks : ℕ → ℕ → Text → Action (World D) (Option (List Text))
  blocks zero index out_dir = pure none
  blocks (suc fuel) index out_dir =
      let later = blocks fuel (suc index) out_dir in
      if is_some (f.case_file (block_name index))
      then (do path ← decompress out_dir (block_name index); rest ← later; pure (add path rest))
      else pure (some [])

  -- The paths in one line.
  unfoldable pub finish : Text → Option (List Text) → Action (World D) (Option ℕ)
  finish first none = pure none
  finish first (some paths) = print (join (codes " ") (first ∷ paths)) >> pure (some 0)

  -- The pre-state and the blocks.
  unfoldable pub prepare : ℕ → Text → Action (World D) (Option ℕ)
  prepare fuel out_dir = do
    first ← decompress out_dir pre_name
    rest ← blocks fuel 0 out_dir
    finish first rest

  -- `if not pre.is_file()`, and what follows it.
  unfoldable pub run_case : ℕ → Text → Text → Action (World D) (Option ℕ)
  run_case fuel case_dir out_dir =
      if is_some (f.case_file pre_name)
      then prepare fuel out_dir
      else (print_err (codes "no pre.ssz_snappy in " ++ case_dir) >> pure (some 1))

  -- `main(argv)`: the exit status, or nothing without fuel. The first text is the doc string.
  unfoldable pub main : ℕ → Text → List Text → Action (World D) (Option ℕ)
  main fuel doc (script ∷ case_dir ∷ out_dir ∷ []) = do
    on_disk f.mkdir
    run_case fuel case_dir out_dir
  main fuel doc argv = print_err doc >> pure (some 2)
