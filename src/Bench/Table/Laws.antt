-- ===== src/Bench/Table/Laws.antt =====
-- What the tables of the benchmark's report need of the means.
use mathlib.Core.Path.{subst}
use etheorem.Common.{
  ℕ, ◌≡◌, refl, inl, inr, Option, none, some, List, [], ◌∷◌, ◌++◌, Text, codes, text_eq, ◌&&◌, All,
  Bool-cases, Option-cases, is_empty,
}
use etheorem.Common.Assoc.{lookup}
use etheorem.Bench.{impls, Row, averages, rows_of, is_of, pairs}
use etheorem.Bench.Table.{
  Floats, Means, row_of, table_row, table_rows, baseline_of, render_scenario_table, head_lines,
  impl_labels,
}

-- A row of means with all of the phases.
data Filled {F : Type 0} : List (Text × F) → Type 0 where
  filled :
      (deser wrap root1 update root2 : F)
      → Filled (
          (codes "deser_ns", deser)
          ∷ (codes "wrap_ns", wrap)
          ∷ (codes "root1_ns", root1)
          ∷ (codes "update_ns", update)
          ∷ (codes "root2_ns", root2)
          ∷ [])

averages-Filled :
    {F : Type 0} (fmean : List ℕ → F) (rows : List Row) (ps : List (Text × Text))
    → All (λ e. Filled e.1) (averages fmean rows ps)
unfolding averages
averages-Filled fmean rows [] = tt
averages-Filled fmean rows ((impl, scenario) ∷ ps) =
    elim (Bool-cases (is_empty (rows_of (is_of impl scenario) rows))) [
      | inl e ↦ rw e (averages-Filled fmean rows ps)
      | inr e ↦ rw e (filled _ _ _ _ _, averages-Filled fmean rows ps)
    ]

some-inj : {A : Type 0} (a b : A) → some a ≡ some b → a ≡ b
some-inj a b e = cc

row_of-Filled :
    {F : Type 0} (impl scenario : Text) (means : Means F) (row : List (Text × F))
    → All (λ e. Filled e.1) means
    → row_of impl scenario means ≡ some row
    → Filled row
unfolding row_of
row_of-Filled impl scenario [] row h e = absurd (cc)
row_of-Filled impl scenario (((i, s), r) ∷ means) row (f, h) e =
    elim (Bool-cases (text_eq i impl && text_eq s scenario)) [
      | inl q ↦ subst Filled (some-inj r row (rw q at e)) f
      | inr q ↦ row_of-Filled impl scenario means row h (rw q at e)
    ]

-- A computation that does not raise.
abbrev pub Succeeds : {A : Type 0} → Option A → Type 0
Succeeds {A} m = (a : A) × (m ≡ some a)

module _ {F : Type 0} (floats : Floats F) where
  baseline_of-Succeeds :
      (row : Option (List (Text × F)))
      → ((r : List (Text × F)) → row ≡ some r → Filled r)
      → Succeeds (baseline_of floats row)
  unfolding baseline_of lookup text_eq
  baseline_of-Succeeds none h = (none, refl)
  baseline_of-Succeeds (some r) h = of_filled r (h r refl)
    where
      of_filled : (r : List (Text × F)) → Filled r → Succeeds (baseline_of floats (some r))
      of_filled _ (filled deser wrap root1 update root2) = (some (floats.add update root2), refl)

  table_row-Succeeds :
      (impl : Text) (baseline : Option F) (row : List (Text × F))
      → Succeeds (lookup impl impl_labels)
      → Filled row
      → Succeeds (table_row floats impl baseline row)
  unfolding table_row lookup text_eq
  table_row-Succeeds impl baseline _ ((label, configuration), e) (filled a b c d f) = rw e (_, refl)

  table_rows-Succeeds :
      (scenario : Text) (means : Means F) (baseline : Option F) (names : List Text)
      → All (λ e. Filled e.1) means
      → All (λ impl. Succeeds (lookup impl impl_labels)) names
      → Succeeds (table_rows floats scenario means baseline names)
  unfolding table_rows
  table_rows-Succeeds scenario means baseline [] h k = ([], refl)
  table_rows-Succeeds scenario means baseline (impl ∷ names) h (l, k) =
      let (lines, more) = table_rows-Succeeds scenario means baseline names h k in
      elim (Option-cases (row_of impl scenario means)) [
        | inl e ↦ (lines, rw (e, table_rows) more)
        | inr (row, e) ↦
            let (line, one) =
              table_row-Succeeds impl baseline row l (row_of-Filled impl scenario means row h e) in
            (line ∷ lines, rw (e, table_rows, one, more) refl)
      ]

  impls_labelled : All (λ impl. Succeeds (lookup impl impl_labels)) impls
  unfolding lookup text_eq
  impls_labelled = ((_, refl), ((_, refl), ((_, refl), ((_, refl), tt))))

  -- The table of a scenario is made without an exception from the means of any rows.
  pub render_scenario_table-averages :
      (fmean : List ℕ → F) (rows : List Row) (scenario : Text)
      → Succeeds (render_scenario_table floats scenario (averages fmean rows pairs))
  unfolding render_scenario_table
  render_scenario_table-averages fmean rows scenario =
      let means = averages fmean rows pairs in
      let full = averages-Filled fmean rows pairs in
      let (baseline, one) =
        baseline_of-Succeeds (row_of (codes "sizzlean-fast") scenario means)
          (λ r e. row_of-Filled (codes "sizzlean-fast") scenario means r full e) in
      let (lines, two) = table_rows-Succeeds scenario means baseline impls full impls_labelled in
      (head_lines ++ lines, rw (one, two) refl)
