-- ===== src/Bench/Driver/Tests.antt =====
-- A run of the benchmark's driver with one repetition, nothing to build and four commands.
use etheorem.Common.{
  ℕ, suc, ◌-◌, ◌≡◌, ◌≢◌, ◌⊎◌, refl, true, Option, none, some, List, [], ◌∷◌, Text, codes, text_eq,
  get_or, get_elem?,
}
use mathlib.Core.List.{flat_map}
use etheorem.Common.Action.{Action, pure, Keeps-pure, ◌>>=◌}
use etheorem.Common.Outcome.{passed}
use etheorem.Bench.{
  Row, parse_lines, fixture_root, check_complete, check_roots, check_point, compare_roots,
}
use etheorem.Bench.Host.{Host, World}
use etheorem.Bench.Build.{announce, echo, process, run, output_of}
use etheorem.Bench.Driver.{
  Args, Measured, on_host, catch, measured, prepare, emit_fixture, emitted_by, measure,
  run_and_parse, checked, accept, publish, save, output_path, main,
}
use etheorem.Bench.Driver.Report.{main-Reported, Reported}

abbrev outputs : List Text
outputs = [] ∷ codes "{0\n{1\n{2\n{3\n" ∷ codes "noise\n{4\n{5\n" ∷ codes "{6\n{7\n" ∷ []

abbrev row : Text → Text → Row
row impl scenario = record {
  impl = impl;
  scenario = scenario;
  root1 = codes "r";
  root2 = codes "s";
  deser_ns = 1;
  wrap_ns = 2;
  root1_ns = 3;
  update_ns = 4;
  root2_ns = 5;
}

abbrev table : List Row
table =
    row (codes "sizzlean-fast") (codes "update1")
    ∷ row (codes "sizzlean-fast") (codes "update1000")
    ∷ row (codes "sizzlean-pure") (codes "update1")
    ∷ row (codes "sizzlean-pure") (codes "update1000")
    ∷ row (codes "libssz") (codes "update1")
    ∷ row (codes "libssz") (codes "update1000")
    ∷ row (codes "ssz-specs") (codes "update1")
    ∷ row (codes "ssz-specs") (codes "update1000")
    ∷ []

abbrev loads : Text → Option Row
loads line = get_elem? table (get_or line 1 b'0' - b'0')

abbrev toy : Host ℕ
toy = record {
  execute = λ cmd cwd env n. (
    some (record {
      returncode = 0;
      stdout = get_or outputs n [];
      stderr = codes "fixture root: r\n";
    }),
    suc n,
  );
  which = λ name n. none;
  exists = λ path n. true;
  read_text = λ path n. none;
  size_of = λ path n. some 8;
  mkdir = λ path n. some n;
  write_text = λ path text n. some n;
  is_linux_x86_64 = true;
  python = codes "python3";
  python_version = codes "3.12.0";
  python_is_new = true;
  repo_root = codes "repo";
  default_output = λ n. codes "report.md";
  describe = λ e. [];
}

abbrev arguments : Args
arguments = record { reps = 1; work_dir = codes "work"; output = none; skip_build = true }

abbrev start : World ℕ
start = record { host = 0; err = []; out = []; reports = [] }

abbrev render : Measured ℕ → Action (World ℕ) Text
render m = pure (codes "the report")

abbrev status : ℕ
status = 0

abbrev ended : World ℕ
ended = (main toy loads (λ ns. 0) render arguments start).1

passing_run : main toy loads (λ ns. 0) render arguments start ≡ (passed status, ended)
unfolding main ◌>>=◌ on_host catch measured prepare announce emit_fixture process emitted_by echo
    measure run_and_parse run output_of checked parse_lines accept publish save output_path
    check_complete check_roots check_point compare_roots flat_map text_eq fixture_root
passing_run = refl

main-Reported_example :
    ((status ≡ 0) × Reported toy loads (λ ns. 0) render arguments start ended)
    ⊎ ((status ≢ 0) × (ended.reports ≡ start.reports))
main-Reported_example =
    main-Reported toy loads (λ ns. 0) render arguments start ended status
      (λ rs m. Keeps-pure _ (codes "the report")) passing_run
