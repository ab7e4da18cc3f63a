-- ===== src/Bench/Driver/Laws.antt =====
-- The steps before the report write none.
use etheorem.Common.{
  ℕ, ◌≡◌, inl, inr, Bool, true, false, Option, none, some, List, Text, Option-cases,
}
use etheorem.Common.Action.{
  exit_with, Keeps, Keeps->>=, Keeps-pure, Keeps-gets, Keeps-or_raise, Keeps-if, Keeps-exit_if,
}
use etheorem.Bench.{Row, Checked, okay, error}
use etheorem.Bench.Driver.{
  Fixture, Args, checked, emitted_by, emit_fixture, run_and_parse, measure, prepare, accept,
  measured, on_host,
}
use etheorem.Bench.Host.{Ended, Host, World}
use etheorem.Bench.Build.{
  announce, echo, process, output_of, run, found_or_exit, require_tool, check_cargo_pin,
  check_isal_vendored, build_sizzlean, build_libssz, installed_ssz_specs_commit, install, confirm,
  install_and_confirm, installed_if, build_ssz_specs,
}

module _ {H : Type 0} (h : Host H) (rs : List (Text × Text)) where
  -- The reports written are these.
  unfoldable pub Wrote : World H → Type 0
  Wrote w = w.reports ≡ rs

  pub announce-Wrote : (message : Text) → Keeps Wrote (announce h message)
  unfolding announce Keeps Wrote
  announce-Wrote message w k = k

  pub echo-Wrote : (text : Text) → Keeps Wrote (echo h text)
  unfolding echo Keeps Wrote
  echo-Wrote text w k = k

  process-Wrote : (cmd : List Text) (cwd env : Option Text) → Keeps Wrote (process h cmd cwd env)
  unfolding process Keeps Wrote
  process-Wrote cmd cwd env w k = k

  exit_with-Wrote :
      (A : Type 0) (message : Text) → Keeps Wrote (exit_with {W = World H} {A = A} message)
  unfolding Keeps
  exit_with-Wrote A message w k = k

  output_of-Wrote : (name : Text) (o : Option Ended) → Keeps Wrote (output_of h name o)
  unfolding output_of
  output_of-Wrote name none = exit_with-Wrote Text _
  output_of-Wrote name (some ended) =
      Keeps->>= Wrote _ _ (Keeps-if Wrote _ _ _ (Keeps-pure Wrote tt) (echo-Wrote _))
        (λ _. Keeps->>= Wrote _ _ (Keeps-exit_if Wrote _ _) (λ _. Keeps-pure Wrote _))

  run-Wrote : (cmd : List Text) (cwd env : Option Text) → Keeps Wrote (run h cmd cwd env)
  unfolding run
  run-Wrote cmd cwd env =
      Keeps->>= Wrote _ _ (announce-Wrote _)
        (λ _. Keeps->>= Wrote _ _ (process-Wrote cmd cwd env) (λ ended. output_of-Wrote _ ended))

  found_or_exit-Wrote : (message : Text) (o : Option Text) → Keeps Wrote (found_or_exit h message o)
  unfolding found_or_exit Keeps
  found_or_exit-Wrote message none w k = k
  found_or_exit-Wrote message (some path) w k = k

  require_tool-Wrote : (name hint : Text) → Keeps Wrote (require_tool h name hint)
  unfolding require_tool
  require_tool-Wrote name hint =
      Keeps->>= Wrote _ _ (Keeps-gets Wrote _) (λ path. found_or_exit-Wrote _ path)

  check_cargo_pin-Wrote : Keeps Wrote (check_cargo_pin h)
  unfolding check_cargo_pin
  check_cargo_pin-Wrote = Keeps->>= Wrote _ _ (Keeps-gets Wrote _) (λ file.
      Keeps->>= Wrote _ _ (Keeps-or_raise Wrote file) (λ manifest. Keeps-exit_if Wrote _ _))

  check_isal_vendored-Wrote : Keeps Wrote (check_isal_vendored h)
  unfolding check_isal_vendored
  check_isal_vendored-Wrote =
      Keeps->>= Wrote _ _ (Keeps-gets Wrote _) (λ vendored. Keeps-exit_if Wrote _ _)

  build_sizzlean-Wrote : Keeps Wrote (build_sizzlean h)
  unfolding build_sizzlean
  build_sizzlean-Wrote = Keeps->>= Wrote _ _ (require_tool-Wrote _ _) (λ _.
      Keeps->>= Wrote _ _ check_isal_vendored-Wrote (λ _.
        Keeps->>= Wrote _ _ (run-Wrote _ _ _)
          (λ _. Keeps->>= Wrote _ _ (Keeps-gets Wrote _) (λ built. Keeps-exit_if Wrote _ _))))

  build_libssz-Wrote : Keeps Wrote (build_libssz h)
  unfolding build_libssz
  build_libssz-Wrote = Keeps->>= Wrote _ _ (require_tool-Wrote _ _) (λ _.
      Keeps->>= Wrote _ _ check_cargo_pin-Wrote
        (λ _. Keeps->>= Wrote _ _ (run-Wrote _ _ _) (λ _. Keeps-pure Wrote tt)))

  installed-Wrote : (interpreter : Text) → Keeps Wrote (installed_ssz_specs_commit h interpreter)
  unfolding installed_ssz_specs_commit
  installed-Wrote interpreter =
      Keeps->>= Wrote _ _ (process-Wrote _ _ _)
        (λ result. Keeps->>= Wrote _ _ (Keeps-or_raise Wrote result) (λ ended. Keeps-pure Wrote _))

  install-Wrote :
      (venv interpreter : Text) (uv : Option Text) → Keeps Wrote (install h venv interpreter uv)
  unfolding install
  install-Wrote venv interpreter (some uv) =
      Keeps->>= Wrote _ _ (run-Wrote _ _ _)
        (λ _. Keeps->>= Wrote _ _ (run-Wrote _ _ _) (λ _. Keeps-pure Wrote tt))
  install-Wrote venv interpreter none = Keeps->>= Wrote _ _ (Keeps-exit_if Wrote _ _) (λ _.
      Keeps->>= Wrote _ _ (run-Wrote _ _ _) (λ _.
        Keeps->>= Wrote _ _ (run-Wrote _ _ _)
          (λ _. Keeps->>= Wrote _ _ (run-Wrote _ _ _) (λ _. Keeps-pure Wrote tt))))

  confirm-Wrote : (interpreter : Text) → Keeps Wrote (confirm h interpreter)
  unfolding confirm
  confirm-Wrote interpreter = Keeps->>= Wrote _ _ (Keeps-gets Wrote _) (λ there.
      Keeps->>= Wrote _ _ (Keeps-exit_if Wrote _ _) (λ _.
        Keeps->>= Wrote _ _ (installed-Wrote interpreter) (λ installed.
          Keeps->>= Wrote _ _ (Keeps-exit_if Wrote _ _) (λ _. Keeps-pure Wrote interpreter))))

  install_and_confirm-Wrote :
      (venv interpreter : Text) → Keeps Wrote (install_and_confirm h venv interpreter)
  unfolding install_and_confirm
  install_and_confirm-Wrote venv interpreter = Keeps->>= Wrote _ _ (require_tool-Wrote _ _) (λ _.
      Keeps->>= Wrote _ _ (Keeps-gets Wrote _) (λ uv.
        Keeps->>= Wrote _ _ (install-Wrote venv interpreter uv) (λ _. confirm-Wrote interpreter)))

  installed_if-Wrote :
      (there : Bool) (interpreter : Text) → Keeps Wrote (installed_if h there interpreter)
  unfolding installed_if
  installed_if-Wrote false interpreter = Keeps-pure Wrote _
  installed_if-Wrote true interpreter = installed-Wrote interpreter

  pub build_ssz_specs-Wrote : (work_dir : Text) → Keeps Wrote (build_ssz_specs h work_dir)
  unfolding build_ssz_specs
  build_ssz_specs-Wrote work_dir = Keeps->>= Wrote _ _ (Keeps-gets Wrote _) (λ there.
      Keeps->>= Wrote _ _ (installed_if-Wrote there _) (λ commit.
        Keeps-if Wrote _ _ _ (Keeps->>= Wrote _ _ (announce-Wrote _) (λ _. Keeps-pure Wrote _))
          (install_and_confirm-Wrote _ _)))

module _ {H F : Type 0} (h : Host H) (loads : Text → Option Row) (fmean : List ℕ → F)
    (rs : List (Text × Text)) where
  checked-Wrote : {A : Type 0} (c : Checked A) → Keeps (Wrote h rs) (checked h loads fmean c)
  unfolding checked Keeps
  checked-Wrote (okay a) w k = k
  checked-Wrote (error e) w k = k

  emitted_by-Wrote :
      (path : Text) (o : Option Ended) → Keeps (Wrote h rs) (emitted_by h loads fmean path o)
  unfolding emitted_by
  emitted_by-Wrote path none = exit_with-Wrote h rs Fixture _
  emitted_by-Wrote path (some ended) = Keeps->>= (Wrote h rs) _ _ (echo-Wrote h rs _) (λ _.
      Keeps->>= (Wrote h rs) _ _ (Keeps-exit_if (Wrote h rs) _ _) (λ _.
        Keeps->>= (Wrote h rs) _ _ (Keeps-gets (Wrote h rs) _) (λ stat.
          Keeps->>= (Wrote h rs) _ _ (Keeps-or_raise (Wrote h rs) stat)
            (λ size. Keeps-pure (Wrote h rs) _))))

  emit_fixture-Wrote : (work_dir : Text) → Keeps (Wrote h rs) (emit_fixture h loads fmean work_dir)
  unfolding emit_fixture
  emit_fixture-Wrote work_dir =
      Keeps->>= (Wrote h rs) _ _ (process-Wrote h rs _ _ _) (λ result. emitted_by-Wrote _ result)

  run_and_parse-Wrote :
      (name : Text) (reps : ℕ) (cmd : List Text)
      → Keeps (Wrote h rs) (run_and_parse h loads fmean name reps cmd)
  unfolding run_and_parse
  run_and_parse-Wrote name reps cmd =
      Keeps->>= (Wrote h rs) _ _ (announce-Wrote h rs _)
        (λ _. Keeps->>= (Wrote h rs) _ _ (run-Wrote h rs _ _ _) (λ stdout. checked-Wrote _))

  measure-Wrote :
      (fixture : Fixture) (reps : ℕ) (interpreter : Text)
      → Keeps (Wrote h rs) (measure h loads fmean fixture reps interpreter)
  unfolding measure
  measure-Wrote fixture reps interpreter =
      Keeps->>= (Wrote h rs) _ _ (run_and_parse-Wrote _ _ _) (λ a.
        Keeps->>= (Wrote h rs) _ _ (run_and_parse-Wrote _ _ _) (λ b.
          Keeps->>= (Wrote h rs) _ _ (run_and_parse-Wrote _ _ _) (λ c. Keeps-pure (Wrote h rs) _)))

  prepare-Wrote : (args : Args) → Keeps (Wrote h rs) (prepare h loads fmean args)
  unfolding prepare
  prepare-Wrote args =
      Keeps-if (Wrote h rs) _ _ _
        (Keeps->>= (Wrote h rs) _ _ (announce-Wrote h rs _) (λ _.
          Keeps->>= (Wrote h rs) _ _ (Keeps-gets (Wrote h rs) _) (λ there.
            Keeps->>= (Wrote h rs) _ _ (Keeps-exit_if (Wrote h rs) _ _) (λ _.
              Keeps->>= (Wrote h rs) _ _ (Keeps-gets (Wrote h rs) _) (λ built.
                Keeps->>= (Wrote h rs) _ _ (Keeps-exit_if (Wrote h rs) _ _)
                  (λ _. Keeps-pure (Wrote h rs) _))))))
        (Keeps->>= (Wrote h rs) _ _ (announce-Wrote h rs _) (λ _.
          Keeps->>= (Wrote h rs) _ _ (build_sizzlean-Wrote h rs) (λ _.
            Keeps->>= (Wrote h rs) _ _ (announce-Wrote h rs _) (λ _.
              Keeps->>= (Wrote h rs) _ _ (build_libssz-Wrote h rs) (λ _.
                Keeps->>= (Wrote h rs) _ _ (announce-Wrote h rs _)
                  (λ _. build_ssz_specs-Wrote h rs args.work_dir))))))

  accept-Wrote :
      (args : Args) (interpreter : Text) (fixture : Fixture) (rows : List Row)
      → Keeps (Wrote h rs) (accept h loads fmean args interpreter fixture rows)
  unfolding accept
  accept-Wrote args interpreter fixture rows =
      Keeps->>= (Wrote h rs) _ _ (checked-Wrote _)
        (λ _. Keeps->>= (Wrote h rs) _ _ (checked-Wrote _) (λ roots. Keeps-pure (Wrote h rs) _))

  pub measured-Wrote : (args : Args) → Keeps (Wrote h rs) (measured h loads fmean args)
  unfolding measured
  measured-Wrote args = Keeps->>= (Wrote h rs) _ _ (prepare-Wrote args) (λ interpreter.
      Keeps->>= (Wrote h rs) _ _ (announce-Wrote h rs _) (λ _.
        Keeps->>= (Wrote h rs) _ _ (emit_fixture-Wrote _) (λ fixture.
          Keeps->>= (Wrote h rs) _ _ (measure-Wrote fixture _ interpreter)
            (λ rows. accept-Wrote args interpreter fixture rows))))

  pub on_host-Wrote : (change : H → Option H) → Keeps (Wrote h rs) (on_host h loads fmean change)
  unfolding on_host Keeps Wrote
  on_host-Wrote change w k = elim (Option-cases (change w.host)) [
    | inl e ↦ rw (on_host, e) k
    | inr (host, e) ↦ rw (on_host, e) k
  ]
