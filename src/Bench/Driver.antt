-- ===== src/Bench/Driver.antt =====
-- The fixture, the measurement and `main` of scripts/comparative_benchmark.py. The arguments are parsed,
-- and `render` is an argument: it may run commands, and returns the report.
pub mod Laws
pub mod Report
mod Tests
use etheorem.Common.{
  ℕ, Bool, true, false, not, Option, none, some, List, [], ◌∷◌, ◌++◌, Text, codes, is_empty, ltb,
  take, ◌==◌, if◌then◌else◌,
}
use etheorem.Common.Outcome.{Outcome, passed, exits, raised}
use etheorem.Common.Action.{
  Action, Step, pure, gets, or_raise, exit_with, modify, exit_if, ◌>>=◌, ◌>>◌,
}
use etheorem.Common.Strings.Digits.{decimal}
use etheorem.Common.Strings.Lines.{splitlines}
use etheorem.Bench.{
  Row, Roots, Checked, okay, error, parse_lines, fixture_root, check_complete, check_roots,
  averages, pairs,
}
use etheorem.Bench.Host.{Ended, Host, World, libssz_rev, ssz_specs_rev}
use etheorem.Bench.Build.{
  announce, echo, process, run, exists, lean_exe, rust_harness_dir, build_sizzlean, build_libssz,
  build_ssz_specs, interpreter_of,
}

pub record Fixture : Type 0 where
  pub path : Text
  pub size : ℕ
  pub root : Text

pub record Args : Type 0 where
  pub reps : ℕ
  pub work_dir : Text
  pub output : Option Text
  pub skip_build : Bool

-- What the report is made from.
pub record Measured (F : Type 0) : Type 0 where
  pub means : List ((Text × Text) × List (Text × F))
  pub roots : Roots
  pub fixture : Fixture
  pub reps : ℕ
  pub interpreter : Text

module _ {H F : Type 0} (h : Host H) (loads : Text → Option Row) (fmean : List ℕ → F) where
  -- A check of the rows; its error is a `BenchmarkError` too.
  unfoldable pub checked : {A : Type 0} → Checked A → Action (World H) A
  checked (okay a) = pure a
  checked (error e) = exit_with (h.describe e)

  -- What follows `emit`.
  unfoldable pub emitted_by : Text → Option Ended → Action (World H) Fixture
  emitted_by path none = exit_with (codes "could not start " ++ lean_exe h)
  emitted_by path (some ended) = do
    echo h ended.stderr
    exit_if (not (ended.returncode == 0)) (codes "the Lean harness could not emit the fixture")
    stat ← gets (λ w. h.size_of path w.host)
    size ← or_raise stat
    pure (record { path = path; size = size; root = fixture_root [] (splitlines ended.stderr) })

  unfoldable pub emit_fixture : Text → Action (World H) Fixture
  emit_fixture work_dir = do
    let path = work_dir ++ codes "/beacon_state.ssz"
    result ← process h (lean_exe h ∷ codes "emit" ∷ path ∷ []) none none
    emitted_by path result

  unfoldable pub run_and_parse : Text → ℕ → List Text → Action (World H) (List Row)
  run_and_parse name reps cmd = do
    announce h (
        codes "running the "
        ++ (name ++ (codes " harness, " ++ (decimal reps ++ codes " repetitions"))))
    stdout ← run h cmd none none
    checked (parse_lines loads stdout)

  unfoldable pub measure : Fixture → ℕ → Text → Action (World H) (List Row)
  measure fixture reps interpreter = do
    a ←
        run_and_parse (codes "SizzLean") reps
          (lean_exe h ∷ codes "run" ∷ fixture.path ∷ decimal reps ∷ [])
    b ← run_and_parse (codes "libssz") reps (
        (rust_harness_dir h ++ codes "/target/release/libssz-compbench")
        ∷ fixture.path
        ∷ decimal reps
        ∷ [])
    c ← run_and_parse (codes "ssz-specs") reps (
        interpreter
        ∷ (h.repo_root ++ codes "/scripts/compbench/ssz_specs_harness.py")
        ∷ fixture.path
        ∷ decimal reps
        ∷ [])
    pure (a ++ (b ++ c))

  -- The interpreter, built or there already.
  unfoldable pub prepare : Args → Action (World H) Text
  prepare args =
      if args.skip_build
      then (do
        announce h (codes "skipping the build steps")
        there ← exists h (interpreter_of h args.work_dir)
        exit_if (not there)
            (codes "--skip-build needs an existing venv at " ++ interpreter_of h args.work_dir)
        built ← exists h (lean_exe h)
        exit_if (not built) (codes "--skip-build needs an existing " ++ lean_exe h)
        pure (interpreter_of h args.work_dir))
      else (do
        announce h (codes "building the SizzLean harness")
        build_sizzlean h
        announce h (codes "building libssz at " ++ take 12 libssz_rev)
        build_libssz h
        announce h (codes "installing ssz-specs at " ++ take 12 ssz_specs_rev)
        build_ssz_specs h args.work_dir)

  -- Both checks, and what the report is made from.
  unfoldable pub accept : Args → Text → Fixture → List Row → Action (World H) (Measured F)
  accept args interpreter fixture rows = do
    checked (check_complete rows args.reps)
    roots ← checked (check_roots rows fixture.root)
    pure (record {
      means = averages fmean rows pairs;
      roots = roots;
      fixture = fixture;
      reps = args.reps;
      interpreter = interpreter;
    })

  unfoldable pub measured : Args → Action (World H) (Measured F)
  measured args = do
    interpreter ← prepare args
    announce h (codes "emitting the fixture")
    fixture ← emit_fixture args.work_dir
    rows ← measure fixture args.reps interpreter
    accept args interpreter fixture rows

  -- A change of the files, which may raise.
  unfoldable pub on_host : (H → Option H) → Step (World H)
  on_host change w = elim (change w.host) [
    | none ↦ or_raise none w
    | some host ↦ pure tt (record { host = host; err = w.err; out = w.out; reports = w.reports })
  ]

  unfoldable pub save : Text → Text → Step (World H)
  save path report = do
    on_host (h.write_text path report)
    modify (λ w. record {
      host = w.host;
      err = w.err;
      out = w.out;
      reports = w.reports ++ (path, report) ∷ [];
    })

  abbrev pub output_dir : Text
  output_dir = h.repo_root ++ codes "/packages/SizzLean/bench"

  -- Where the report goes.
  unfoldable pub output_path : Option Text → Action (World H) Text
  output_path (some path) = pure path
  output_path none = do on_host (h.mkdir output_dir); gets (λ w. h.default_output w.host)

  -- Behind the `try`.
  unfoldable pub publish : Args → Text → Action (World H) ℕ
  publish args report = do
    output ← output_path args.output
    save output report
    announce h (codes "wrote " ++ output)
    modify (λ w. record {
      host = w.host;
      err = w.err;
      out = w.out ++ report ∷ [];
      reports = w.reports;
    })
    pure 0

  -- `except BenchmarkError`
  unfoldable pub catch : Args → Outcome Text × World H → Outcome ℕ × World H
  catch args (passed report, w) = publish args report w
  catch args (exits message, w) = (echo h (codes "comparative_benchmark: " ++ message) >> pure 1) w
  catch args (raised, w) = (raised, w)

  -- `main`; fewer than one repetition is an error of the command line, status 2.
  unfoldable pub main : (Measured F → Action (World H) Text) → Args → Action (World H) ℕ
  main render args =
      if ltb args.reps 1
      then pure 2
      else (on_host (h.mkdir args.work_dir) >> λ w. catch args ((measured args >>= render) w))
