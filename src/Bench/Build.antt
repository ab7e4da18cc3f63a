-- ===== src/Bench/Build.antt =====
-- The build steps of scripts/comparative_benchmark.py, from `run` to `build_ssz_specs`.
use etheorem.Common.{
  Bool, true, false, not, ◌&&◌, ◌||◌, Option, none, some, List, [], ◌∷◌, ◌++◌, map, Text, codes,
  text_eq, mem_text, join, is_empty, take, all, ◌==◌, if◌then◌else◌,
}
use etheorem.Common.Action.{
  Action, Step, pure, gets, or_raise, exit_with, modify, exit_if, ◌>>=◌, ◌>>◌,
}
use etheorem.Common.Strings.Digits.{decimal}
use etheorem.Common.Strings.Lines.{strip}
use etheorem.Common.Strings.Order.{sort, text_leb}
use etheorem.Common.Strings.Scan.{find_iter}
use etheorem.Bench.Host.{Ended, Host, World, libssz_rev, ssz_specs_rev, ssz_specs_repo, rev_at}

-- `set(texts)`, in the order of first occurrence from the end.
unfoldable pub distinct : List Text → List Text
unfolding mem_text
distinct [] = []
distinct (t ∷ ts) = let rest = distinct ts in if mem_text t rest then rest else t ∷ rest

module _ {H : Type 0} (h : Host H) where
  unfoldable pub announce : Text → Step (World H)
  announce message = modify (λ w. record {
    host = w.host;
    err = w.err ++ (codes "[compbench] " ++ message) ∷ [];
    out = w.out;
    reports = w.reports;
  })

  -- A text on standard error.
  unfoldable pub echo : Text → Step (World H)
  echo text =
      modify
        (λ w. record { host = w.host; err = w.err ++ text ∷ []; out = w.out; reports = w.reports })

  -- `subprocess.run`: nothing where the command could not be started.
  unfoldable pub process : List Text → Option Text → Option Text → Action (World H) (Option Ended)
  process cmd cwd env w =
      let (ended, host) = h.execute cmd cwd env w.host in
      pure ended (record { host = host; err = w.err; out = w.out; reports = w.reports })

  abbrev pub program : List Text → Text
  program [] = []
  program (name ∷ args) = name

  -- What follows a command: its output, or a `BenchmarkError`, without the system's words for it.
  unfoldable pub output_of : Text → Option Ended → Action (World H) Text
  output_of name none = exit_with (codes "could not start " ++ name)
  output_of name (some ended) = do
    if is_empty ended.stderr then pure tt else echo ended.stderr
    exit_if (not (ended.returncode == 0))
        (codes "command failed with code " ++ (decimal ended.returncode ++ (codes ": " ++ name)))
    pure ended.stdout

  unfoldable pub run : List Text → Option Text → Option Text → Action (World H) Text
  run cmd cwd env = do
    announce (codes "$ " ++ join (codes " ") cmd)
    ended ← process cmd cwd env
    output_of (program cmd) ended

  unfoldable pub found_or_exit : Text → Option Text → Action (World H) Text
  found_or_exit message none = exit_with message
  found_or_exit message (some path) = pure path

  unfoldable pub require_tool : Text → Text → Action (World H) Text
  require_tool name hint = do
    path ← gets (λ w. h.which name w.host)
    found_or_exit (name ++ (codes " is not on PATH. " ++ hint)) path

  abbrev pub exists : Text → Action (World H) Bool
  exists path = gets (λ w. h.exists path w.host)

  abbrev pub rust_harness_dir : Text
  rust_harness_dir = h.repo_root ++ codes "/scripts/compbench/libssz-harness"

  abbrev pub lean_exe : Text
  lean_exe = h.repo_root ++ codes "/packages/SizzLean/.lake/build/bin/ssz_compbench"

  -- `revs != {LIBSSZ_REV}`
  unfoldable pub revs_differ : List Text → Bool
  revs_differ revs = is_empty revs || not (all (λ rev. text_eq rev libssz_rev) revs)

  unfoldable pub check_cargo_pin : Step (World H)
  check_cargo_pin = do
    file ← gets (λ w. h.read_text (rust_harness_dir ++ codes "/Cargo.toml") w.host)
    manifest ← or_raise file
    let revs = map (λ p. p.1) (find_iter rev_at 0 0 manifest)
    let found = join (codes ", ") (sort text_leb (distinct (map (take 12) revs)))
    exit_if (revs_differ revs) (
        codes "LIBSSZ_REV ("
        ++ (take 12 libssz_rev
            ++ (codes ") and the `rev` pins in "
                ++ (rust_harness_dir
                    ++ (codes "/Cargo.toml ("
                        ++ ((if is_empty found then codes "none" else found)
                            ++ codes ") disagree. Bump them together."))))))

  unfoldable pub check_isal_vendored : Step (World H)
  check_isal_vendored = do
    vendored ←
        exists (
          h.repo_root ++ codes "/packages/hazmat/LeanHazmatSha256/vendor/isa-l_crypto/Makefile.unx")
    exit_if (h.is_linux_x86_64 && not vendored) (
        codes
          "ISA-L crypto is not vendored. Run `just hazmat-sha256-vendor` (needs `nasm` on PATH), or use `just sizzlean-comp-benchmark`, which runs it first.")

  unfoldable pub build_sizzlean : Step (World H)
  build_sizzlean = do
    require_tool (codes "lake") (codes "Install the Lean toolchain with elan.")
    check_isal_vendored
    run (codes "lake" ∷ codes "build" ∷ codes "ssz_compbench" ∷ []) (some h.repo_root) none
    built ← exists lean_exe
    exit_if (not built) (codes "lake reported success but " ++ (lean_exe ++ codes " is missing"))

  unfoldable pub build_libssz : Step (World H)
  build_libssz = do
    require_tool (codes "cargo") (codes "Install Rust with rustup.")
    check_cargo_pin
    run (codes "cargo" ∷ codes "build" ∷ codes "--release" ∷ codes "--locked" ∷ [])
        (some rust_harness_dir) none
    pure tt

  unfoldable pub ssz_specs_venv : Text → Text
  ssz_specs_venv work_dir = work_dir ++ (codes "/ssz-specs-venv-" ++ take 12 ssz_specs_rev)

  abbrev pub probe : Text
  probe =
      codes
        "import importlib.metadata as m, json\nd = m.distribution('eth-ssz-specs')\nu = d.read_text('direct_url.json')\nprint(json.loads(u).get('vcs_info', {}).get('commit_id', '') if u else '')\n"

  abbrev pub commit_of : Ended → Text
  commit_of ended = if ended.returncode == 0 then strip ended.stdout else []

  -- A command that cannot be started is an `OSError`, which nothing catches.
  unfoldable pub installed_ssz_specs_commit : Text → Action (World H) Text
  installed_ssz_specs_commit interpreter = do
    result ← process (interpreter ∷ codes "-c" ∷ probe ∷ []) none none
    ended ← or_raise result
    pure (commit_of ended)

  abbrev pub requirement : Text
  requirement = codes "eth-ssz-specs @ git+" ++ (ssz_specs_repo ++ (codes "@" ++ ssz_specs_rev))

  -- With `uv`, and without it.
  unfoldable pub install : Text → Text → Option Text → Step (World H)
  install venv interpreter (some uv) = do
    run (uv ∷ codes "venv" ∷ codes "--clear" ∷ codes "--python" ∷ codes ">=3.12" ∷ venv ∷ []) none
        none
    run (uv ∷ codes "pip" ∷ codes "install" ∷ requirement ∷ []) none (some venv)
    pure tt
  install venv interpreter none = do
    exit_if (not h.python_is_new) (
        codes "ssz-specs needs Python 3.12 or later; this driver runs under "
        ++ (h.python_version
            ++ codes ". Rerun it with a newer interpreter, or install `uv` and let it pick one."))
    run (h.python ∷ codes "-m" ∷ codes "venv" ∷ codes "--clear" ∷ venv ∷ []) none none
    run
        (interpreter
          ∷ codes "-m"
          ∷ codes "pip"
          ∷ codes "install"
          ∷ codes "--quiet"
          ∷ codes "--upgrade"
          ∷ codes "pip"
          ∷ [])
        none none
    run
        (interpreter
          ∷ codes "-m"
          ∷ codes "pip"
          ∷ codes "install"
          ∷ codes "--quiet"
          ∷ requirement
          ∷ [])
        none none
    pure tt

  -- The interpreter has to be there and the pin to be what is installed.
  unfoldable pub confirm : Text → Action (World H) Text
  confirm interpreter = do
    there ← exists interpreter
    exit_if (not there) (codes "the venv build produced no interpreter at " ++ interpreter)
    installed ← installed_ssz_specs_commit interpreter
    exit_if (not (text_eq installed ssz_specs_rev)) (
        codes "the venv holds ssz-specs at "
        ++ ((if is_empty installed then codes "an unknown revision" else take 12 installed)
            ++ (codes ", the pin is " ++ take 12 ssz_specs_rev)))
    pure interpreter

  unfoldable pub install_and_confirm : Text → Text → Action (World H) Text
  install_and_confirm venv interpreter = do
    require_tool (codes "git") (codes "pip and uv clone ssz-specs with it.")
    uv ← gets (λ w. h.which (codes "uv") w.host)
    install venv interpreter uv
    confirm interpreter

  -- An interpreter that is not there is not probed.
  unfoldable pub installed_if : Bool → Text → Action (World H) Text
  installed_if false interpreter = pure []
  installed_if true interpreter = installed_ssz_specs_commit interpreter

  unfoldable pub interpreter_of : Text → Text
  interpreter_of work_dir = ssz_specs_venv work_dir ++ codes "/bin/python"

  unfoldable pub build_ssz_specs : Text → Action (World H) Text
  build_ssz_specs work_dir = do
    let venv = ssz_specs_venv work_dir
    let interpreter = interpreter_of work_dir
    there ← exists interpreter
    commit ← installed_if there interpreter
    if text_eq commit ssz_specs_rev
        then announce (
            codes "ssz-specs "
            ++ (take 12 ssz_specs_rev ++ (codes " is already installed in " ++ venv)))
          >> pure interpreter
        else install_and_confirm venv interpreter
