-- ===== src/Bench/Render/Laws.antt =====
-- When the report of the benchmark is made.
use mathlib.Core.Path.{subst}
use etheorem.Common.{ℕ, refl, sym, inl, inr, Option, List, [], Text, codes, Bool-cases}
use etheorem.Common.Monad.{◌>>=◌}
use etheorem.Bench.{impls, Row, averages, pairs}
use etheorem.Bench.Table.{Floats, render_scenario_table}
use etheorem.Bench.Table.Laws.{Succeeds, render_scenario_table-averages}
use etheorem.Bench.Render.{
  Facts, machine_description, any_row, scenario_lines, render_lines, render,
}
use etheorem.Bench.Render.Words.{update1_title, update1000_title, update1_blurb, update1000_blurb}

Succeeds->>= :
    {A B : Type 0} (m : Option A) (f : A → Option B)
    → Succeeds m
    → ((a : A) → Succeeds (f a))
    → Succeeds (m >>= f)
Succeeds->>= m f (a, e) h = subst (λ o. Succeeds (o >>= f)) (sym e) (h a)

module _ {F : Type 0} (floats : Floats F) (fmean : List ℕ → F) (rows : List Row) where
  scenario_lines-Succeeds :
      (scenario title blurb : Text)
      → Succeeds (scenario_lines floats (averages fmean rows pairs) scenario title blurb)
  unfolding scenario_lines
  scenario_lines-Succeeds scenario title blurb =
      elim (Bool-cases (any_row floats scenario (averages fmean rows pairs) impls)) [
        | inl e ↦
            rw (e, scenario_lines)
              (Succeeds->>= (render_scenario_table floats scenario (averages fmean rows pairs)) _
                (render_scenario_table-averages floats fmean rows scenario) (λ table. (_, refl)))
        | inr e ↦ ([], rw (e, scenario_lines) refl)
      ]

  -- The report is made without an exception from the means of any rows, if the machine's description is.
  render-averages :
      (facts : Facts F)
      → Succeeds (machine_description facts.cpu facts.cpuinfo facts.cpu_count facts.system)
      → Succeeds (render floats (averages fmean rows pairs) facts)
  unfolding render render_lines
  render-averages facts described =
      let means = averages fmean rows pairs in
      Succeeds->>= (render_lines floats means facts) _
        (Succeeds->>= (machine_description facts.cpu facts.cpuinfo facts.cpu_count facts.system) _
          described
          (λ machine.
            Succeeds->>= (scenario_lines floats means (codes "update1") update1_title update1_blurb)
              _ (scenario_lines-Succeeds (codes "update1") update1_title update1_blurb)
              (λ one.
                Succeeds->>=
                  (scenario_lines floats means (codes "update1000") update1000_title
                    update1000_blurb)
                  _ (scenario_lines-Succeeds (codes "update1000") update1000_title update1000_blurb)
                  (λ thousand. (_, refl)))))
        (λ lines. (_, refl))
