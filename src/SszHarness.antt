-- ===== src/SszHarness.antt =====
-- scripts/compbench/ssz_specs_harness.py: one repetition of a scenario, and the run. The clock gives a
-- time for each reading, never an earlier one, and an exception is caught by nothing.
pub mod Writes
pub mod Laws
pub mod Rows
pub mod Checks
mod Tests
use etheorem.Common.{ℕ, zero, suc, ◌+◌, ◌-◌, Option, List, [], ◌∷◌, ◌++◌, Text, codes}
use etheorem.Common.Outcome.{passed}
use etheorem.Common.Action.{Action, Step, pure, or_raise, modify, ◌>>=◌, ◌>>◌}
use etheorem.Common.Strings.Digits.{hex}
use etheorem.Bench.{Row}
use etheorem.SszHarness.Writes.{Ssz, BeaconState, write_one, write_thousand}

-- What was printed, each line with its repetition, and how often the clock was read.
pub record Run : Type 0 where
  pub lines : List (ℕ × Row)
  pub readings : ℕ

abbrev pub ssz_specs : Text
ssz_specs = codes "ssz-specs"

-- `time.monotonic_ns()`
unfoldable pub tick : (ℕ → ℕ) → Action Run ℕ
tick clock r = (passed (clock r.readings), record { lines = r.lines; readings = suc r.readings })

-- One phase, with the time at its end.
unfoldable pub timed : {A : Type 0} → (ℕ → ℕ) → Option A → Action Run (A × ℕ)
timed clock phase = do a ← or_raise phase; t ← tick clock; pure (a, t)

unfoldable pub emit : ℕ → Row → Step Run
emit rep row = modify (λ r. record { lines = r.lines ++ (rep, row) ∷ []; readings = r.readings })

module _ {U B R S : Type 0} (l : Ssz U B R S) (clock : ℕ → ℕ) where
  -- One repetition of a scenario.
  unfoldable pub run_once :
      List ℕ → Text → ℕ → (BeaconState U B R S → Option (BeaconState U B R S)) → Step Run
  run_once data_ scenario rep write = do
    t0 ← tick clock
    (state, t1) ← timed clock (l.deserialize data_)
    (root1, t2) ← timed clock (l.hash_tree_root state)
    (written, t3) ← timed clock (write state)
    (root2, t4) ← timed clock (l.hash_tree_root written)
    emit rep (record {
      impl = ssz_specs;
      scenario = scenario;
      deser_ns = t1 - t0;
      wrap_ns = 0;
      root1_ns = t2 - t1;
      update_ns = t3 - t2;
      root2_ns = t4 - t3;
      root1 = codes "0x" ++ hex root1;
      root2 = codes "0x" ++ hex root2;
    })

  -- `for rep in range(rep, rep + count)`
  unfoldable pub repeat :
      ℕ → ℕ → List ℕ → Text → (BeaconState U B R S → Option (BeaconState U B R S)) → Step Run
  repeat rep zero data_ scenario write = pure tt
  repeat rep (suc count) data_ scenario write =
      run_once data_ scenario rep write >> repeat (suc rep) count data_ scenario write

  unfoldable pub scenarios_run : ℕ → List ℕ → Action Run ℕ
  scenarios_run reps data_ = do
    repeat 0 reps data_ (codes "update1") (write_one l)
    repeat 0 reps data_ (codes "update1000") (write_thousand l)
    pure 0

  -- `main`: the arguments behind the script's name. Reading a file is a parameter, and so is the number
  -- of rounds of `range(int(s))`.
  unfoldable pub main : (Text → Option (List ℕ)) → (Text → Option ℕ) → List Text → Action Run ℕ
  main read_file rounds (path ∷ reps ∷ []) = do
    data_ ← or_raise (read_file path)
    n ← or_raise (rounds reps)
    scenarios_run n data_
  main read_file rounds argv = pure 1
