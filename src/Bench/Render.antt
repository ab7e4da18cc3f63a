-- ===== src/Bench/Render.antt =====
-- The report of scripts/comparative_benchmark.py: `render` and what it says of the machine. The outputs
-- of git and of the compilers, the clock and the processor's description are data; one that could not
-- be had is none. A missing key or part raises, which is `none` too.
pub mod Words
pub mod Laws
use etheorem.Common.{
  ℕ, zero, suc, ◌+◌, Bool, true, false, not, ◌&&◌, Option, none, some, List, [], ◌∷◌, ◌++◌, map,
  Text, codes, text_eq, is_empty, starts_with, take, join, split_once, ◌==◌, if◌then◌else◌,
}
use mathlib.Core.List.{reverse}
use etheorem.Common.Monad.{◌>>=◌}
use etheorem.Common.Strings.Digits.{decimal}
use etheorem.Common.Strings.Lines.{strip, splitlines}
use etheorem.Bench.{Roots, impls}
use etheorem.Bench.Host.{libssz_rev, ssz_specs_rev, ssz_specs_repo}
use etheorem.Bench.Table.{Floats, Means, row_of, render_scenario_table}
use etheorem.Bench.Render.Words.{
  update1_title, update1000_title, update1_blurb, update1000_blurb, libssz_repo, build_lines,
  split_lines, reading_lines,
}

-- What the report is made from, beside the means.
pub record Facts (F : Type 0) : Type 0 where
  pub generated : Text
  pub reps : ℕ
  pub size : ℕ
  pub roots : Roots
  pub load_before : F
  pub load_after : F
  -- `os.cpu_count()`, 0 for None
  pub cpu_count : ℕ
  -- `git rev-parse` and `git status`, stripped; empty where git failed
  pub revision : Text
  pub changes : Text
  pub cpu : Text
  pub cpuinfo : Option Text
  pub system : Text
  pub versions : List (Text × Text)

-- The lines of a text that are not blank.
unfoldable pub count_filled : List Text → ℕ
unfolding strip
count_filled [] = 0
count_filled (line ∷ lines) =
    let rest = count_filled lines in if is_empty (strip line) then rest else suc rest

-- `checkout_description`, behind the two git commands.
unfoldable pub checkout_description : Text → Text → Text
unfolding splitlines count_filled
checkout_description revision changes =
    let name =
      codes "`" ++ ((if is_empty revision then codes "unknown" else revision) ++ codes "`") in
    let changed = count_filled (splitlines changes) in
    if is_empty changes
    then name
    else name
      ++ (codes " plus "
          ++ (decimal changed
              ++ (codes " uncommitted " ++ (if changed == 1 then codes "file" else codes "files"))))

-- The loop over the lines of /proc/cpuinfo.
unfoldable pub model_name : Text → List Text → Option Text
unfolding starts_with
model_name cpu [] = some cpu
model_name cpu (line ∷ lines) =
    let later = model_name cpu lines in
    if starts_with line (codes "model name")
    then elim (split_once (codes ":") line) [ none ↦ none | some parts ↦ some (strip parts.1) ]
    else later

unfoldable pub machine_description : Text → Option Text → ℕ → Text → Option Text
machine_description cpu cpuinfo cores system = do
  name ← elim cpuinfo [ none ↦ some cpu | some text ↦ model_name cpu (splitlines text) ]
  some (name ++ (codes ", " ++ (decimal cores ++ (codes " threads, " ++ system))))

-- `first_line` of what a command printed.
unfoldable pub first_line : Option Text → Text
first_line none = codes "unknown"
first_line (some out) = elim (splitlines (strip out)) [ [] ↦ codes "unknown" | line ∷ lines ↦ line ]

unfoldable pub toolchain_versions : Text → Option Text → Option Text → List (Text × Text)
toolchain_versions lean_toolchain rust python =
    (codes "Lean", strip lean_toolchain)
    ∷ (codes "Rust", first_line rust)
    ∷ (codes "Python", first_line python)
    ∷ []

-- `f"{n:,}"`: a comma in front of every three digits from the end, on the reversed digits.
unfoldable pub grouped : ℕ → Text → Text
grouped k [] = []
grouped k (c ∷ s) =
    let same = grouped (suc k) s in
    let next = grouped 1 s in if k == 3 then b',' ∷ c ∷ next else c ∷ same

unfoldable pub commas : ℕ → Text
unfolding grouped
commas n = reverse (grouped 0 (reverse (decimal n)))

unfoldable pub version_lines : List (Text × Text) → List Text
version_lines [] = []
version_lines ((name, version) ∷ rest) =
    (codes "| " ++ (name ++ (codes " | `" ++ (version ++ codes "` |")))) ∷ version_lines rest

unfoldable pub fixture_lines : ℕ → List Text
unfolding commas
fixture_lines size =
    codes "## The fixture"
    ∷ []
    ∷ (codes "A Fulu `BeaconState` at the mainnet preset, 38 fields, 1024 validators, **"
        ++ (commas size
            ++ codes
                " bytes** on the wire. Every collection carries distinct values, so no implementation gains from a repeated subtree. The Lean harness emits the bytes; the other two decode them."))
    ∷ []
    ∷ codes "Each run has five phases:"
    ∷ []
    ∷ codes "1. **Deserialize**: wire bytes to a plain value."
    ∷ codes
        "2. **Wrap**: that value to whatever the library roots. Only SizzLean has this step; the other two root the decoded value directly."
    ∷ codes "3. **First root**: merkleize, from cold."
    ∷ codes "4. **Writes**: the scenario's field writes."
    ∷ codes "5. **Second root**: merkleize again."
    ∷ []
    ∷ codes
        "Every repetition decodes the buffer again, so no cache survives from one repetition into the next."
    ∷ []
    ∷ codes
        "Each harness runs each scenario in a loop, and every number below is the mean over those runs. The two scenarios differ only in the writes. Every other phase is the same work, so the two tables report it twice and the numbers should agree to within the run's noise."
    ∷ []
    ∷ []

unfoldable pub control_lines : Roots → List Text
control_lines roots =
    codes "## The control: the roots agree"
    ∷ []
    ∷ codes
        "All three harnesses, across all four rows, produced the same root at every point of every repetition. That is the evidence they rooted the same value, so the timings compare like with like."
    ∷ []
    ∷ codes "| Point | Root |"
    ∷ codes "|---|---|"
    ∷ (codes "| The fixture, before any write | `" ++ (roots.update1_root1 ++ codes "` |"))
    ∷ (codes "| After the one write | `" ++ (roots.update1_root2 ++ codes "` |"))
    ∷ (codes "| After the thousand writes | `" ++ (roots.update1000_root2 ++ codes "` |"))
    ∷ []
    ∷ []

module _ {F : Type 0} (floats : Floats F) where
  unfoldable pub load_description : F → F → ℕ → Text
  load_description before after cpu_count =
      let cores = if cpu_count == 0 then 1 else cpu_count in
      let peak = if floats.lt before after then after else before in
      let busy =
        codes "load average "
        ++ (floats.fixed 1 before
            ++ (codes " at the start, "
                ++ (floats.fixed 1 after
                    ++ (codes " at the end, on " ++ (decimal cores ++ codes " cores"))))) in
      -- `cores * 0.25` is exact, as is this quotient
      if floats.lt peak (floats.div (floats.of_nat cores) (floats.of_nat 4))
      then codes "The machine was otherwise idle (" ++ (busy ++ codes ").")
      else codes "**The machine was busy: "
        ++ (busy
            ++ codes
                ".** Rows compare fairly against each other, since every harness met the same load, and do not compare against a run taken on an idle machine.")

  unfoldable pub opening_lines : Facts F → Text → List Text
  opening_lines facts machine =
      codes "# SizzLean comparative benchmark"
      ∷ []
      ∷ (codes "*Generated "
          ++ (facts.generated
              ++ (codes " on "
                  ++ (machine
                      ++ (codes ". Every number is the mean of "
                          ++ (decimal facts.reps ++ codes " repetitions.*"))))))
      ∷ []
      ∷ load_description facts.load_before facts.load_after facts.cpu_count
      ∷ []
      ∷ []

  unfoldable pub ran_lines : Facts F → List Text
  ran_lines facts =
      codes "## What ran"
      ∷ []
      ∷ codes "| Library | Revision | Role |"
      ∷ codes "|---|---|---|"
      ∷ (codes "| `packages/SizzLean` | "
          ++ (checkout_description facts.revision facts.changes
              ++ codes " | the library under test, in two configurations |"))
      ∷ (codes "| [`lambdaclass/libssz`]("
          ++ (libssz_repo
              ++ (codes ") | `" ++ (take 12 libssz_rev ++ codes "` | Rust, no Merkle cache |"))))
      ∷ (codes "| [`ethereum/ssz-specs`]("
          ++ (ssz_specs_repo
              ++ (codes ") | `"
                  ++ (take 12 ssz_specs_rev
                      ++ codes "` | the Python reference implementation, root memo on |"))))
      ∷ []
      ∷ codes "| Toolchain | Version |"
      ∷ codes "|---|---|"
      ∷ (version_lines facts.versions ++ [] ∷ [])

  -- `any((impl, scenario) in data for impl in IMPLS)`
  unfoldable pub any_row : Text → Means F → List Text → Bool
  any_row scenario means [] = false
  any_row scenario means (impl ∷ rest) =
      let others = any_row scenario means rest in
      elim (row_of impl scenario means) [ none ↦ others | some row ↦ true ]

  -- One scenario's part: nothing without a row.
  unfoldable pub scenario_lines : Means F → Text → Text → Text → Option (List Text)
  scenario_lines means scenario title blurb =
      if any_row scenario means impls
      then (render_scenario_table floats scenario means >>= λ table.
          some ((codes "## " ++ title) ∷ [] ∷ blurb ∷ [] ∷ (table ++ [] ∷ [])))
      else some []

  unfoldable pub render_lines : Means F → Facts F → Option (List Text)
  render_lines means facts = do
    machine ← machine_description facts.cpu facts.cpuinfo facts.cpu_count facts.system
    one ← scenario_lines means (codes "update1") update1_title update1_blurb
    thousand ← scenario_lines means (codes "update1000") update1000_title update1000_blurb
    some (
        opening_lines facts machine
        ++ (ran_lines facts
            ++ (build_lines
                ++ (fixture_lines facts.size
                    ++ (control_lines facts.roots
                        ++ (one ++ (thousand ++ (split_lines ++ reading_lines))))))))

  -- `"\n".join(lines)`
  unfoldable pub render : Means F → Facts F → Option Text
  render means facts = do lines ← render_lines means facts; some (join (codes "\n") lines)
