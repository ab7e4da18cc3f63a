-- ===== src/Bench/Driver/Report.antt =====
-- When the benchmark's driver writes a report, and what it is a report of.
use etheorem.Common.{
  ℕ, ◌≡◌, ◌≢◌, ◌⊎◌, refl, ap, sym, inl, inr, Option, none, some, List, [], ◌∷◌, ◌++◌, Text, ltb,
  Bool-cases, arith,
}
use mathlib.Core.Path.{subst}
use etheorem.Common.Outcome.{Outcome, passed, exits, raised}
use etheorem.Common.Action.{
  Action, Keeps, Keeps->>=, Keeps-pure, Keeps-gets, pure, modify, ◌>>=◌, >>=-eq-passed, state_of,
}
use etheorem.Bench.{Row, Checked, okay, error, check_complete, check_roots, averages, pairs}
use etheorem.Bench.Host.{Host, World}
use etheorem.Bench.Build.{announce, echo}
use etheorem.Bench.Driver.{
  Args, Fixture, Measured, checked, prepare, emit_fixture, measure, accept, measured, on_host, save,
  output_path, publish, catch, main,
}
use etheorem.Bench.Driver.Laws.{Wrote, measured-Wrote, on_host-Wrote, announce-Wrote, echo-Wrote}

module _ {H F : Type 0} (h : Host H) (loads : Text → Option Row) (fmean : List ℕ → F) where
  passed-inj :
      {A : Type 0} (a b : A) (w v : World H) → pure {W = World H} a w ≡ (passed b, v) → a ≡ b
  passed-inj a b w v e =
      ap (λ (p : Outcome _ × World H). elim p.0 [ passed c ↦ c | exits t ↦ a | raised ↦ a ]) e

  checked-passed :
      {A : Type 0} (c : Checked A) (w v : World H) {a : A}
      → checked h loads fmean c w ≡ (passed a, v)
      → c ≡ okay a
  unfolding checked
  checked-passed (okay a) w v e = ap (λ b. okay b) (passed-inj a _ w v e)
  checked-passed (error x) w v e = cc

  -- What the report is made from has passed both checks.
  pub record Sound (args : Args) (m : Measured F) : Type 0 where
    rows : List Row
    complete : check_complete rows args.reps ≡ okay tt
    agreeing : check_roots rows m.fixture.root ≡ okay m.roots
    averaged : m.means ≡ averages fmean rows pairs
    counted : m.reps ≡ args.reps

  accept-Sound :
      (args : Args) (interpreter : Text) (fixture : Fixture) (rows : List Row) (w v : World H)
      (m : Measured F)
      → accept h loads fmean args interpreter fixture rows w ≡ (passed m, v)
      → Sound args m
  unfolding accept
  accept-Sound args interpreter fixture rows w v m e =
      let (_, x, a, k) =
        >>=-eq-passed (checked h loads fmean (check_complete rows args.reps)) _ w e in
      let (roots, y, b, l) =
        >>=-eq-passed (checked h loads fmean (check_roots rows fixture.root)) _ x k in
      subst (λ m. Sound args m) (passed-inj _ m y v l)
        (record {
          rows = rows;
          complete = checked-passed _ w x a;
          agreeing = checked-passed _ x y b;
          averaged = refl;
          counted = refl;
        })

  measured-Sound :
      (args : Args) (w v : World H) (m : Measured F)
      → measured h loads fmean args w ≡ (passed m, v)
      → Sound args m
  unfolding measured
  measured-Sound args w v m e =
      let (interpreter, x, a, k) = >>=-eq-passed (prepare h loads fmean args) _ w e in
      let (_, y, b, l) = >>=-eq-passed (announce h _) _ x k in
      let (fixture, z, c, n) = >>=-eq-passed (emit_fixture h loads fmean args.work_dir) _ y l in
      let (rows, u, d, o) =
        >>=-eq-passed (measure h loads fmean fixture args.reps interpreter) _ z n in
      accept-Sound args interpreter fixture rows u v m o

  kept :
      {A : Type 0} (m : Action (World H) A) {a : A} (w v : World H) (rs : List (Text × Text))
      → m w ≡ (passed a, v)
      → Keeps (Wrote h rs) m
      → w.reports ≡ rs
      → v.reports ≡ rs
  unfolding Keeps Wrote
  kept m w v rs e k r = state_of (λ x. x.reports ≡ rs) e (k w r)

  output_path-Wrote :
      (rs : List (Text × Text)) (o : Option Text) → Keeps (Wrote h rs) (output_path h loads fmean o)
  unfolding output_path
  output_path-Wrote rs (some path) = Keeps-pure (Wrote h rs) path
  output_path-Wrote rs none =
      Keeps->>= (Wrote h rs) _ _ (on_host-Wrote h loads fmean rs _) (λ _. Keeps-gets (Wrote h rs) _)

  save-reports :
      (path report : Text) (rs : List (Text × Text)) (w v : World H) {a : Unit {0}}
      → save h loads fmean path report w ≡ (passed a, v)
      → w.reports ≡ rs
      → v.reports ≡ rs ++ (path, report) ∷ []
  unfolding save
  save-reports path report rs w v e r =
      let (_, x, a, k) = >>=-eq-passed (on_host h loads fmean (h.write_text path report)) _ w e in
      let same = kept _ w x rs a (on_host-Wrote h loads fmean rs _) r in
      state_of (λ y. y.reports ≡ rs ++ (path, report) ∷ []) k (rw same refl)

  publish-reports :
      (args : Args) (report : Text) (rs : List (Text × Text)) (w v : World H) {code : ℕ}
      → publish h loads fmean args report w ≡ (passed code, v)
      → w.reports ≡ rs
      → (0 ≡ code) × ((path : Text) × (v.reports ≡ rs ++ (path, report) ∷ []))
  unfolding publish
  publish-reports args report rs w v {code = code} e r =
      let (path, x, a, k) = >>=-eq-passed (output_path h loads fmean args.output) _ w e in
      let (_, y, b, l) = >>=-eq-passed (save h loads fmean path report) _ x k in
      let (_, z, c, n) = >>=-eq-passed (announce h _) _ y l in
      let saved = save-reports path report rs x y b (kept _ w x rs a (output_path-Wrote rs _) r) in
      let told = kept _ y z _ c (announce-Wrote h _ _) saved in
      let (_, u, d, o) = >>=-eq-passed (modify _) _ z n in
      (
        passed-inj 0 code u v o,
        (
          path,
          state_of (λ y. y.reports ≡ rs ++ (path, report) ∷ []) o
              (state_of (λ y. y.reports ≡ rs ++ (path, report) ∷ []) d told),
        ),
      )

  -- A report that the run has written, sound for what was measured.
  pub record Reported (render : Measured F → Action (World H) Text) (args : Args) (w v : World H)
      : Type 0 where
    path : Text
    report : Text
    written : v.reports ≡ w.reports ++ (path, report) ∷ []
    from : Measured F
    sound : Sound args from
    rendered : (x y : World H) × (render from x ≡ (passed report, y))

  made-Sound :
      (render : Measured F → Action (World H) Text) (args : Args) (w v : World H) (report : Text)
      → (measured h loads fmean args >>= render) w ≡ (passed report, v)
      → (m : Measured F) × Sound args m × ((x y : World H) × (render m x ≡ (passed report, y)))
  made-Sound render args w v report e =
      let (m, x, a, k) = >>=-eq-passed (measured h loads fmean args) render w e in
      (m, measured-Sound args w x m a, (x, v, k))

  one_ne : (code : ℕ) → 1 ≡ code → code ≢ 0
  one_ne code e k = omega arith

  two_ne : (code : ℕ) → 2 ≡ code → code ≢ 0
  two_ne code e k = omega arith

  still :
      {A : Type 0} (m : Action (World H) A) (w : World H) (rs : List (Text × Text))
      → Keeps (Wrote h rs) m
      → w.reports ≡ rs
      → (m w).1.reports ≡ rs
  unfolding Keeps Wrote
  still m w rs k r = k w r

  caught :
      (render : Measured F → Action (World H) Text) (args : Args) (w x v : World H) (code : ℕ)
      (p : Outcome Text × World H)
      → (measured h loads fmean args >>= render) x ≡ p
      → p.1.reports ≡ w.reports
      → catch h loads fmean args p ≡ (passed code, v)
      → ((code ≡ 0) × Reported render args w v) ⊎ ((code ≢ 0) × (v.reports ≡ w.reports))
  unfolding catch
  caught render args w x v code (passed report, y) e r c =
      let (zero, (path, written)) = publish-reports args report w.reports y v c r in
      let (m, sound, rendered) = made-Sound render args x y report e in
      inl (
        sym zero,
        record {
          path = path;
          report = report;
          written = written;
          from = m;
          sound = sound;
          rendered = rendered;
        },
      )
  caught render args w x v code (exits message, y) e r c =
      let (_, z, a, k) = >>=-eq-passed (echo h _) _ y c in
      inr (
        one_ne code (passed-inj 1 code z v k),
        state_of (λ u. u.reports ≡ w.reports) k
            (kept _ y z w.reports a (echo-Wrote h w.reports _) r),
      )
  caught render args w x v code (raised, y) e r c = cc

  -- Where rendering writes no report, a run that ends with status 0 has written one report, rendered
  -- from the means and the roots of rows that are complete for the repetitions asked for and agree with
  -- each other and with the fixture; a run with any other status has written none.
  pub main-Reported :
      (render : Measured F → Action (World H) Text) (args : Args) (w v : World H) (code : ℕ)
      → ((rs : List (Text × Text)) (m : Measured F) → Keeps (Wrote h rs) (render m))
      → main h loads fmean render args w ≡ (passed code, v)
      → ((code ≡ 0) × Reported render args w v) ⊎ ((code ≢ 0) × (v.reports ≡ w.reports))
  unfolding main
  main-Reported render args w v code quiet e = elim (Bool-cases (ltb args.reps 1)) [
    | inl few ↦
        let k = rw few at e in
        inr (two_ne code (passed-inj 2 code w v k), state_of (λ u. u.reports ≡ w.reports) k refl)
    | inr many ↦
        let k = rw many at e in
        let (_, x, a, l) = >>=-eq-passed (on_host h loads fmean _) _ w k in
        let same = kept _ w x w.reports a (on_host-Wrote h loads fmean w.reports _) refl in
        let whole =
          Keeps->>= (Wrote h w.reports) _ _ (measured-Wrote h loads fmean w.reports args)
            (λ m. quiet w.reports m) in
        caught render args w x v code _ refl (still _ x w.reports whole same) l
  ]
