-- ===== src/SszHarness/Tests.antt =====
-- A state of five hundred zeros in every list, rooted to the bytes of its slot.
use etheorem.Common.{
  ℕ, zero, suc, ◌≡◌, refl, Option, none, some, List, [], ◌∷◌, codes, length, arith,
}
use etheorem.Common.Action.{◌>>=◌}
use etheorem.Common.Outcome.{passed}
use etheorem.SszHarness.{Run, main, scenarios_run, repeat, run_once, timed, tick, emit}
use etheorem.SszHarness.Writes.{
  Ssz, BeaconState, Validator, write_one, write_thousand, update_range, update_at, raise_by,
  raise_validator, mk_root,
}
use etheorem.SszHarness.Laws.{mk_root_total, write_thousand-Written, Written}
use etheorem.SszHarness.Checks.{main-Accepted, Accepted}

abbrev zeros : ℕ → List ℕ
zeros zero = []
zeros (suc n) = 0 ∷ zeros n

abbrev validators : ℕ → List (Validator ℕ Unit)
validators zero = []
validators (suc n) = record { effective_balance = 7; others = tt } ∷ validators n

abbrev state : BeaconState ℕ ℕ Unit Unit
state = record {
  slot = 41;
  validators = validators 250;
  balances = zeros 250;
  block_roots = zeros 250;
  randao_mixes = zeros 250;
  others = tt;
}

abbrev toy : Ssz ℕ ℕ Unit Unit
toy = record {
  uint64 = λ n. some n;
  value = λ n. n;
  bytes32 = λ bs. some (length bs);
  deserialize = λ bs. some state;
  hash_tree_root = λ s. some (s.slot ∷ []);
}

mk_root_total_example : (r : ℕ) × (mk_root toy 90000 ≡ some r)
mk_root_total_example = mk_root_total toy (λ bs size small. (length bs, refl)) 90000

-- The state behind the writes.
abbrev later : Option (BeaconState ℕ ℕ Unit Unit) → BeaconState ℕ ℕ Unit Unit
later none = state
later (some s) = s

thousand_run : write_thousand toy state ≡ some (later (write_thousand toy state))
unfolding write_thousand update_range update_at raise_by raise_validator mk_root
thousand_run = refl

write_thousand-Written_example : Written toy state (later (write_thousand toy state))
write_thousand-Written_example =
    write_thousand-Written toy state (later (write_thousand toy state)) thousand_run

abbrev ended : Run
ended =
    (main toy (λ n. n) (λ path. some []) (λ reps. some 1) (codes "s" ∷ codes "1" ∷ [])
      (record { lines = []; readings = 0 })).1

passing_run :
    main toy
      (λ n. n)
      (λ path. some [])
      (λ reps. some 1)
      (codes "s" ∷ codes "1" ∷ [])
      (record { lines = []; readings = 0 })
    ≡ (passed 0, ended)
unfolding main ◌>>=◌ scenarios_run repeat run_once timed tick emit write_one write_thousand
    update_range update_at raise_by raise_validator mk_root
passing_run = refl

main-Accepted_example : Accepted toy (λ n. n) 1 ended.lines
main-Accepted_example =
    main-Accepted toy (λ n. n) (λ path. some []) (λ reps. some 1) (codes "s") (codes "1") 1
      (record { lines = []; readings = 0 }) ended (omega arith) refl refl passing_run
