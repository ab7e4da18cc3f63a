-- ===== src/Bench.antt =====
-- scripts/comparative_benchmark.py: the rows that the harnesses print, and the checks that a report
-- has to pass. JSON and the mean are parameters: `json.loads` of a line that begins with a brace, as
-- the row's fields, and `statistics.fmean`. A `BenchmarkError` is kept as what its message is made from.
pub mod Host
pub mod Build
pub mod Driver
pub mod Table
pub mod Render
pub mod Laws
pub mod Tests
use mathlib.Core.Option
use mathlib.Core.List.{flat_map}
use etheorem.Common.{
  ℕ, zero, suc, ◌+◌, Bool, true, false, not, ◌&&◌, ◌||◌, Option, none, some, List, [], ◌∷◌, ◌++◌,
  map, Text, codes, text_eq, starts_with, split_on, join, drop, is_empty, length, get_or, all, ◌==◌,
  if◌then◌else◌,
}
use etheorem.Common.Strings.Lines.{strip, splitlines}

abbrev pub impls : List Text
impls = codes "sizzlean-fast" ∷ codes "sizzlean-pure" ∷ codes "libssz" ∷ codes "ssz-specs" ∷ []

abbrev pub scenarios : List Text
scenarios = codes "update1" ∷ codes "update1000" ∷ []

-- One JSON line of a harness; the ones that the harnesses print have all of these fields.
pub record Row : Type 0 where
  pub impl : Text
  pub scenario : Text
  pub root1 : Text
  pub root2 : Text
  pub deser_ns : ℕ
  pub wrap_ns : ℕ
  pub root1_ns : ℕ
  pub update_ns : ℕ
  pub root2_ns : ℕ

-- The phases by name.
abbrev pub all_phases : List (Text × (Row → ℕ))
all_phases =
    (codes "deser_ns", λ r. r.deser_ns)
    ∷ (codes "wrap_ns", λ r. r.wrap_ns)
    ∷ (codes "root1_ns", λ r. r.root1_ns)
    ∷ (codes "update_ns", λ r. r.update_ns)
    ∷ (codes "root2_ns", λ r. r.root2_ns)
    ∷ []

pub data BenchmarkError : Type 0 where
  malformed : Text → BenchmarkError
  incomplete : List ((Text × Text) × ℕ) → BenchmarkError
  disagree : Text → Text → BenchmarkError
  first_roots_differ : Text → Text → BenchmarkError
  fixture_differs : Text → Text → BenchmarkError

pub data Checked {ℓ} (A : Type ℓ) : Type ℓ where
  okay : A → Checked A
  error : BenchmarkError → Checked A

infixl 5 ◌>>=◌
abbrev pub ◌>>=◌ {ℓ κ} : {A : Type ℓ} {B : Type κ} → Checked A → (A → Checked B) → Checked B
okay a >>= f = f a
error e >>= f = error e

-- The lines of a harness's output, stripped; anything but an object is ignored.
unfoldable pub parse_rows : (Text → Option Row) → List Text → Checked (List Row)
unfolding strip starts_with
parse_rows loads [] = okay []
parse_rows loads (raw ∷ lines) =
    let line = strip raw in
    let rest = parse_rows loads lines in
    if starts_with line (codes "{")
    then elim (loads line) [
      | none ↦ error (malformed line)
      | some row ↦ rest >>= λ rows. okay (row ∷ rows)
    ]
    else rest

unfoldable pub parse_lines : (Text → Option Row) → Text → Checked (List Row)
unfolding parse_rows splitlines
parse_lines loads stdout = parse_rows loads (splitlines stdout)

-- The root that the Lean harness names on its error stream: the last such line's.
unfoldable pub fixture_root : Text → List Text → Text
unfolding starts_with strip
fixture_root root [] = root
fixture_root root (line ∷ lines) =
    fixture_root (if starts_with line (codes "fixture root:") then strip (drop 13 line) else root)
      lines

-- The rows of an implementation in a scenario.
abbrev pub is_of : Text → Text → Row → Bool
is_of impl scenario r = text_eq r.impl impl && text_eq r.scenario scenario

unfoldable pub rows_of : (Row → Bool) → List Row → List Row
rows_of test [] = []
rows_of test (r ∷ rows) = let rest = rows_of test rows in if test r then r ∷ rest else rest

abbrev pub pairs : List (Text × Text)
pairs = flat_map (λ impl. map (λ scenario. (impl, scenario)) scenarios) impls

-- The means of every pair of an implementation and a scenario that has rows.
unfoldable pub averages {ℓ} :
    {F : Type ℓ}
    → (List ℕ → F)
    → List Row
    → List (Text × Text)
    → List ((Text × Text) × List (Text × F))
unfolding rows_of text_eq
averages fmean rows [] = []
averages fmean rows ((impl, scenario) ∷ rest) =
    let samples = rows_of (is_of impl scenario) rows in
    let others = averages fmean rows rest in
    if is_empty samples
    then others
    else ((impl, scenario), map (λ p. (p.0, fmean (map p.1 samples))) all_phases) ∷ others

-- The pairs whose number of rows is not `reps`, with that number.
unfoldable pub missing_of : List Row → ℕ → List (Text × Text) → List ((Text × Text) × ℕ)
unfolding rows_of text_eq
missing_of rows reps [] = []
missing_of rows reps ((impl, scenario) ∷ rest) =
    let got = length (rows_of (is_of impl scenario) rows) in
    let others = missing_of rows reps rest in
    if got == reps then others else ((impl, scenario), got) ∷ others

unfoldable pub check_complete : List Row → ℕ → Checked (Unit {0})
unfolding missing_of
check_complete rows reps =
    let missing = missing_of rows reps pairs in
    if is_empty missing then okay tt else error (incomplete missing)

-- The one value of a list: there is one, and all are equal to it.
unfoldable pub only_one : List Text → Option Text
unfolding text_eq
only_one [] = none
only_one (a ∷ rest) = if all (λ b. text_eq b a) rest then some a else none

abbrev pub root_of : Text → Row → Text
root_of key r = if text_eq key (codes "root1") then r.root1 else r.root2

-- One point of the inner loop: the roots of a scenario's rows are one value.
unfoldable pub check_point : List Row → Text → Text → Checked Text
unfolding rows_of text_eq only_one
check_point rows scenario key =
    elim (only_one (map (root_of key) (rows_of (λ r. text_eq r.scenario scenario) rows))) [
      | none ↦ error (disagree scenario key)
      | some root ↦ okay root
    ]

pub record Roots : Type 0 where
  pub update1_root1 : Text
  pub update1_root2 : Text
  pub update1000_root1 : Text
  pub update1000_root2 : Text

-- The checks behind the loops: the scenarios' first roots, and the root of the fixture.
unfoldable pub compare_roots : Text → Text → Text → Text → Text → Checked Roots
unfolding text_eq
compare_roots fixture a1 a2 b1 b2 =
    if not (text_eq a1 b1)
    then error (first_roots_differ a1 b1)
    else if not (is_empty fixture) && not (text_eq fixture a1)
    then error (fixture_differs fixture a1)
    else okay (record {
      update1_root1 = a1;
      update1_root2 = a2;
      update1000_root1 = b1;
      update1000_root2 = b2;
    })

unfoldable pub check_roots : List Row → Text → Checked Roots
check_roots rows fixture = check_point rows (codes "update1") (codes "root1") >>= λ a1.
    check_point rows (codes "update1") (codes "root2") >>= λ a2.
    check_point rows (codes "update1000") (codes "root1") >>= λ b1.
    check_point rows (codes "update1000") (codes "root2") >>= λ b2.
    compare_roots fixture a1 a2 b1 b2

-- What `main` renders from: the rows, after both checks.
unfoldable pub checked_run {ℓ} :
    {F : Type ℓ}
    → (List ℕ → F)
    → List Row
    → Text
    → ℕ
    → Checked (List ((Text × Text) × List (Text × F)) × Roots)
unfolding check_complete check_roots averages
checked_run fmean rows fixture reps = check_complete rows reps >>= λ x.
    check_roots rows fixture >>= λ roots. okay (averages fmean rows pairs, roots)
