-- ===== src/Bench/Tests.antt =====
-- scripts/comparative_benchmark.py on a few rows.
use mathlib.Core.List.{flat_map}
use etheorem.Common.{
  ◌≡◌, ◌⊎◌, ◌↔◌, refl, true, some, List, [], ◌∷◌, map, Text, codes, text_eq, All, is_empty, length,
  if◌then◌else◌,
}
use etheorem.Bench.{
  Row, okay, error, disagree, impls, scenarios, parse_lines, fixture_root, is_of, rows_of, pairs,
  check_complete, check_point, compare_roots, Roots, check_roots,
}
use etheorem.Common.Strings.Digits.{decimal}
use etheorem.Bench.Render.{commas, checkout_description}
use etheorem.Bench.Laws.{HaveRoot, check_complete_iff, check_roots_sound}

abbrev row : Text → Text → Row
row impl scenario = record {
  impl = impl;
  scenario = scenario;
  root1 = codes "aa";
  root2 = if text_eq scenario (codes "update1") then codes "bb" else codes "cc";
  deser_ns = 1;
  wrap_ns = 2;
  root1_ns = 3;
  update_ns = 4;
  root2_ns = 5;
}

abbrev all_rows : List Row
all_rows = flat_map (λ impl. map (λ scenario. row impl scenario) scenarios) impls

abbrev found_roots : Roots
found_roots = record {
  update1_root1 = codes "aa";
  update1_root2 = codes "bb";
  update1000_root1 = codes "aa";
  update1000_root2 = codes "cc";
}

checks :
    (check_complete all_rows 1 ≡ okay tt)
    × (check_roots all_rows (codes "aa") ≡ okay found_roots)
    × (check_roots [] (codes "aa") ≡ error (disagree (codes "update1") (codes "root1")))
unfolding check_complete check_roots check_point compare_roots flat_map
checks = (refl, refl, refl)

outputs :
    (parse_lines (λ s. some (row (codes "libssz") (codes "update1"))) (codes "noise\n {\"x\": 1}\n")
      ≡ okay (row (codes "libssz") (codes "update1") ∷ []))
    × (fixture_root [] (codes "x" ∷ codes "fixture root: ab " ∷ []) ≡ codes "ab")
unfolding parse_lines fixture_root
outputs = (refl, refl)

check_complete_iff_example :
    check_complete all_rows 1 ≡ okay tt
    ↔ All (λ p. length (rows_of (is_of p.0 p.1) all_rows) ≡ 1) pairs
check_complete_iff_example = check_complete_iff all_rows 1

check_roots_sound_example :
    HaveRoot all_rows (codes "update1") (λ r. r.root1) (codes "aa")
    × HaveRoot all_rows (codes "update1") (λ r. r.root2) (codes "bb")
    × HaveRoot all_rows (codes "update1000") (λ r. r.root1) (codes "aa")
    × HaveRoot all_rows (codes "update1000") (λ r. r.root2) (codes "cc")
    × (codes "aa" ≡ codes "aa")
    × ((is_empty (codes "aa") ≡ true) ⊎ (codes "aa" ≡ codes "aa"))
unfolding check_roots check_point compare_roots flat_map
check_roots_sound_example = check_roots_sound all_rows (codes "aa") found_roots refl

commas_run : commas 2736633 ≡ codes "2,736,633"
unfolding commas decimal
commas_run = refl

checkout_run :
    checkout_description (codes "abc1234") (codes "M packages/a\n M scripts/b")
    ≡ codes "`abc1234` plus 2 uncommitted files"
unfolding checkout_description decimal
checkout_run = refl
