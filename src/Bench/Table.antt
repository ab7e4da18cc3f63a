-- ===== src/Bench/Table.antt =====
-- The tables of the report: `show_ns`, `show_ratio` and `render_scenario_table` of
-- scripts/comparative_benchmark.py. Python's floating-point numbers are a parameter. A missing key raises,
-- which is `none`.
pub mod Laws
use etheorem.Common.{
  ℕ, Bool, true, false, Option, none, some, List, [], ◌∷◌, ◌++◌, Text, codes, text_eq, ◌&&◌, map,
  if◌then◌else◌,
}
use etheorem.Common.Monad.{◌>>=◌}
use etheorem.Common.Assoc.{lookup}
use etheorem.Bench.{impls}

pub record Floats (F : Type 0) : Type 0 where
  pub of_nat : ℕ → F
  pub add : F → F → F
  pub div : F → F → F
  -- `sum(…)`
  pub sum : List F → F
  -- `a < b`, `a <= b` and `bool(a)`
  pub lt : F → F → Bool
  pub le : F → F → Bool
  pub truthy : F → Bool
  -- `f"{a:.nf}"`
  pub fixed : ℕ → F → Text

-- The means: of each pair of an implementation and a scenario, the phases by name.
abbrev pub Means : Type 0 → Type 0
Means F = List ((Text × Text) × List (Text × F))

-- `IMPL_LABELS`: how a row is labelled.
abbrev pub impl_labels : List (Text × (Text × Text))
impl_labels =
    (codes "sizzlean-fast", (codes "SizzLean, Fast", codes "cached, FFI SHA-256"))
    ∷ (codes "sizzlean-pure", (codes "SizzLean, Pure", codes "no cache, FFI SHA-256"))
    ∷ (codes "libssz", (codes "libssz", codes "no cache"))
    ∷ (codes "ssz-specs", (codes "ssz-specs", codes "root memo, CPython"))
    ∷ []

-- `data.get((impl, scenario))`
unfoldable pub row_of : {F : Type 0} → Text → Text → Means F → Option (List (Text × F))
row_of impl scenario [] = none
row_of impl scenario (((i, s), row) ∷ means) =
    let later = row_of impl scenario means in
    if text_eq i impl && text_eq s scenario then some row else later

abbrev pub head_lines : List Text
head_lines =
    codes
      "| Implementation | Configuration | Deserialize | Wrap | First root | Bytes to first root | Writes | Second root | Writes + second root | vs SizzLean Fast |"
    ∷ codes "|---|---|---:|---:|---:|---:|---:|---:|---:|---:|"
    ∷ []

module _ {F : Type 0} (floats : Floats F) where
  unfoldable pub show_ns : Option F → Text
  show_ns none = codes "n/a"
  show_ns (some value) =
      if floats.lt value (floats.of_nat 1000)
      then floats.fixed 0 value ++ codes " ns"
      else if floats.lt value (floats.of_nat 1000000)
      then floats.fixed 1 (floats.div value (floats.of_nat 1000)) ++ codes " µs"
      else if floats.lt value (floats.of_nat 1000000000)
      then floats.fixed 1 (floats.div value (floats.of_nat 1000000)) ++ codes " ms"
      else floats.fixed 2 (floats.div value (floats.of_nat 1000000000)) ++ codes " s"

  unfoldable pub show_ratio : F → F → Text
  show_ratio value baseline =
      let ratio = floats.div value baseline in
      if floats.le baseline (floats.of_nat 0)
      then codes "n/a"
      else if floats.le (floats.of_nat 100) ratio
      then floats.fixed 0 ratio ++ codes "×"
      else if floats.le (floats.of_nat 10) ratio
      then floats.fixed 1 ratio ++ codes "×"
      else floats.fixed 2 ratio ++ codes "×"

  -- The cached path's warm total, where there is such a row.
  unfoldable pub baseline_of : Option (List (Text × F)) → Option (Option F)
  baseline_of none = some none
  baseline_of (some row) = do
    update ← lookup (codes "update_ns") row
    root2 ← lookup (codes "root2_ns") row
    some (some (floats.add update root2))

  -- The ratio column: nothing to compare with without a baseline, or with one of zero.
  unfoldable pub ratio_text : F → Option F → Text
  ratio_text warm none = codes "n/a"
  ratio_text warm (some baseline) =
      if floats.truthy baseline then show_ratio warm baseline else codes "n/a"

  -- A wrap of zero is no wrapping step at all.
  unfoldable pub wrap_text : F → Text
  wrap_text wrap = if floats.lt (floats.of_nat 0) wrap then show_ns (some wrap) else codes "—"

  unfoldable pub table_row : Text → Option F → List (Text × F) → Option Text
  table_row impl baseline row = do
    (label, configuration) ← lookup impl impl_labels
    deser ← lookup (codes "deser_ns") row
    wrap ← lookup (codes "wrap_ns") row
    root1 ← lookup (codes "root1_ns") row
    update ← lookup (codes "update_ns") row
    root2 ← lookup (codes "root2_ns") row
    let warm = floats.add update root2
    some (
        codes "| "
        ++ (label
            ++ (codes " | "
                ++ (configuration
                    ++ (codes " | "
                        ++ (show_ns (some deser)
                            ++ (codes " | "
                                ++ (wrap_text wrap
                                    ++ (codes " | "
                                        ++ (show_ns (some root1)
                                            ++ (codes " | **"
                                                ++ (show_ns (
                                                      some (floats.sum (deser ∷ wrap ∷ root1 ∷ [])))
                                                    ++ (codes "** | "
                                                        ++ (show_ns (some update)
                                                            ++ (codes " | "
                                                            ++ (show_ns (some root2)
                                                            ++ (codes " | **"
                                                            ++ (show_ns (some warm)
                                                            ++ (codes "** | "
                                                            ++ (ratio_text warm baseline
                                                            ++ codes " |"))))))))))))))))))))

  -- The loop over the implementations: one without a row is left out.
  unfoldable pub table_rows : Text → Means F → Option F → List Text → Option (List Text)
  table_rows scenario means baseline [] = some []
  table_rows scenario means baseline (impl ∷ rest) =
      let others = table_rows scenario means baseline rest in
      elim (row_of impl scenario means) [
        | none ↦ others
        | some row ↦ table_row impl baseline row >>= λ line. others >>= λ lines. some (line ∷ lines)
      ]

  unfoldable pub render_scenario_table : Text → Means F → Option (List Text)
  render_scenario_table scenario means = do
    baseline ← baseline_of (row_of (codes "sizzlean-fast") scenario means)
    lines ← table_rows scenario means baseline impls
    some (head_lines ++ lines)
