-- ===== src/Profile/Tests.antt =====
-- A case of a pre-state and two blocks.
use etheorem.Common.{
  ℕ, ◌≡◌, ◌≢◌, refl, true, false, Option, none, some, List, [], ◌∷◌, ◌++◌, map, Text, codes,
  text_eq, join, range_from, All, if◌then◌else◌, arith,
}
use etheorem.Common.Action.{◌>>=◌}
use etheorem.Common.Outcome.{passed}
use etheorem.Profile.{
  Files, World, pre_name, block_name, main, run_case, prepare, finish, blocks, decompress, target,
  replace, on_disk, print,
}
use etheorem.Profile.Laws.{main_ends, main_prints, has_block}

abbrev toy : Files (List Text)
toy = record {
  case_file = file;
  decompress_raw = λ raw. some raw;
  mkdir = λ d. some d;
  write_bytes = λ name raw d. some (name ∷ d);
}
  where
    file : Text → Option (List ℕ)
    file name =
        if text_eq name (codes "pre.ssz_snappy")
        then some (1 ∷ [])
        else if text_eq name (codes "blocks_0.ssz_snappy")
        then some (2 ∷ [])
        else if text_eq name (codes "blocks_1.ssz_snappy")
        then some (3 ∷ [])
        else none

abbrev start : World (List Text)
start = record { disk = []; out = []; err = [] }

abbrev arguments : List Text
arguments = codes "prepare" ∷ codes "case" ∷ codes "out" ∷ []

two_blocks : has_block toy 2 ≡ false
unfolding block_name text_eq
two_blocks = refl

run : main toy 3 [] arguments start ≡ (passed (some 0), (main toy 3 [] arguments start).1)
unfolding main ◌>>=◌ on_disk run_case text_eq prepare decompress blocks block_name finish print
run = refl

printed :
    (main toy 3 [] arguments start).1.out
    ≡ codes "out/pre.ssz out/blocks_0.ssz out/blocks_1.ssz" ∷ []
unfolding main ◌>>=◌ on_disk run_case text_eq prepare decompress blocks block_name finish print join
    target replace
printed = refl

main_ends_example : main toy 3 [] arguments start ≢ (passed none, (main toy 3 [] arguments start).1)
main_ends_example =
    main_ends toy 3 2 [] arguments start (main toy 3 [] arguments start).1 (omega arith) two_blocks

main_prints_example :
    (k : ℕ) × (has_block toy k ≡ false)
    × All (λ i. has_block toy i ≡ true) (range_from 0 k)
    × ((main toy 3 [] arguments start).1.out
        ≡ start.out
          ++ join (codes " ") (
              target toy (codes "out") pre_name
              ∷ map (λ i. target toy (codes "out") (block_name i)) (range_from 0 k))
            ∷ [])
main_prints_example =
    main_prints toy 3 [] (codes "prepare") (codes "case") (codes "out") start
      (main toy 3 [] arguments start).1 run
