-- ===== src/Bench/Host.antt =====
-- What scripts/comparative_benchmark.py does to the machine that it runs on: commands, files and
-- progress lines. The machine is a parameter. `exits` is a `BenchmarkError` with its message, which only
-- `main` catches; `raised` is any other exception. Reports written stand in a list.
use etheorem.Common.{
  ℕ, ◌-◌, Bool, ◌||◌, Option, none, some, List, Text, codes, is_empty, length, leb, ◌&&◌,
  if◌then◌else◌,
}
use etheorem.Common.Monad.{◌>>=◌}
use etheorem.Common.Strings.Lines.{is_space}
use etheorem.Common.Strings.Scan.{take_while, drop_while, behind}
use etheorem.Bench.{BenchmarkError}

-- A process that has ended.
pub record Ended : Type 0 where
  pub returncode : ℕ
  pub stdout : Text
  pub stderr : Text

pub record Host (H : Type 0) : Type 0 where
  -- `subprocess.run` of a command, in a directory, with a `VIRTUAL_ENV` of its own; nothing where the
  -- command could not be started
  pub execute : List Text → Option Text → Option Text → H → Option Ended × H
  pub which : Text → H → Option Text
  pub exists : Text → H → Bool
  pub read_text : Text → H → Option Text
  pub size_of : Text → H → Option ℕ
  pub mkdir : Text → H → Option H
  pub write_text : Text → Text → H → Option H
  -- the platform and the interpreter that runs the driver
  pub is_linux_x86_64 : Bool
  pub python : Text
  pub python_version : Text
  pub python_is_new : Bool
  pub repo_root : Text
  pub default_output : H → Text
  -- the wording of the checks' errors
  pub describe : BenchmarkError → Text

pub record World (H : Type 0) : Type 0 where
  pub host : H
  -- progress and messages, on standard error
  pub err : List Text
  pub out : List Text
  -- the reports written, with their paths
  pub reports : List (Text × Text)

abbrev pub libssz_rev : Text
libssz_rev = codes "36802dd1d3e3a83d95d2ac552647539cbe3f7fd7"

abbrev pub ssz_specs_rev : Text
ssz_specs_rev = codes "2600c0e75a3f296ef2fa4d2d60ea3a69ddc0923e"

abbrev pub ssz_specs_repo : Text
ssz_specs_repo = codes "https://github.com/ethereum/ssz-specs"

-- A hexadecimal digit of either case.
abbrev pub is_hex : ℕ → Bool
is_hex c = (leb b'0' c && leb c b'9') || ((leb b'a' c && leb c b'f') || (leb b'A' c && leb c b'F'))

-- `rev\s*=\s*"([0-9a-fA-F]+)"` at one place: the group, and the length of the match.
unfoldable pub rev_at : Text → Option (Text × ℕ)
unfolding take_while drop_while is_space behind
rev_at s = do
  a ← behind (codes "rev") s
  b ← behind (codes "=") (drop_while is_space a)
  c ← behind (codes "\"") (drop_while is_space b)
  let group = take_while is_hex c
  rest ← behind (codes "\"") (drop_while is_hex c)
  if is_empty group then none else some (group, length s - length rest)
