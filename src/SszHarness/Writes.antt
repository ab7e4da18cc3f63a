-- ===== src/SszHarness/Writes.antt =====
-- The writes of scripts/compbench/ssz_specs_harness.py. The `ssz` library is a parameter: its checked
-- constructors, `deserialize` and `hash_tree_root`. Of a state the fields are kept that the writes
-- touch; what is left of it is the library's. `none` is an exception.
use etheorem.Common.{
  ℕ, zero, suc, ◌+◌, ◌*◌, ◌%◌, Option, some, List, map, get_elem?, set, range_from,
}
use etheorem.Common.Monad.{◌>>=◌}

abbrev pub writes_per_shape : ℕ
writes_per_shape = 250

-- A validator, and a state: the fields that the scenarios write, and the others.
pub record Validator (U R : Type 0) : Type 0 where
  pub effective_balance : U
  pub others : R

pub record BeaconState (U B R S : Type 0) : Type 0 where
  pub slot : U
  pub validators : List (Validator U R)
  pub balances : List U
  pub block_roots : List B
  pub randao_mixes : List B
  pub others : S

pub record Ssz (U B R S : Type 0) : Type 0 where
  -- `Uint64(n)`, which raises on an overflow, and the number that it stands for
  pub uint64 : ℕ → Option U
  pub value : U → ℕ
  -- `Bytes32(bytes(…))`, which raises on a wrong length
  pub bytes32 : List ℕ → Option B
  -- `BeaconState.deserialize` and `hash_tree_root`
  pub deserialize : List ℕ → Option (BeaconState U B R S)
  pub hash_tree_root : BeaconState U B R S → Option (List ℕ)

unfoldable pub byte32 : ℕ → ℕ → ℕ
byte32 seed pos = (seed * 31 + pos * 7 + 11) % 256

unfoldable pub root_bytes : ℕ → List ℕ
unfolding byte32
root_bytes seed = map (byte32 seed) (range_from 0 32)

-- `xs[i] = v` where `v` is computed from `xs[i]`; both raise out of range.
unfoldable pub update_at {ℓ} : {A : Type ℓ} → ℕ → (A → Option A) → List A → Option (List A)
update_at i change xs = do x ← get_elem? xs i; y ← change x; some (set xs i y)

-- `for i in range(start, start + count): xs[i] = change(i, xs[i])`
unfoldable pub update_range {ℓ} :
    {A : Type ℓ} → ℕ → ℕ → (ℕ → A → Option A) → List A → Option (List A)
unfolding update_at
update_range start zero change xs = some xs
update_range start (suc count) change xs = do
  ys ← update_at start (change start) xs
  update_range (suc start) count change ys

module _ {U B R S : Type 0} (l : Ssz U B R S) where
  unfoldable pub mk_root : ℕ → Option B
  unfolding root_bytes
  mk_root seed = l.bytes32 (root_bytes seed)

  -- The number raised by an amount.
  unfoldable pub raise_by : ℕ → U → Option U
  raise_by amount u = l.uint64 (l.value u + amount)

  unfoldable pub write_one : BeaconState U B R S → Option (BeaconState U B R S)
  write_one s = do
    slot ← raise_by 1 s.slot
    some (record {
      slot = slot;
      validators = s.validators;
      balances = s.balances;
      block_roots = s.block_roots;
      randao_mixes = s.randao_mixes;
      others = s.others;
    })

  -- The body of the first loop, which writes through the list's own entry.
  unfoldable pub raise_validator : ℕ → Validator U R → Option (Validator U R)
  raise_validator i v = do
    balance ← raise_by 1000000 v.effective_balance
    some (record { effective_balance = balance; others = v.others })

  -- The four loops, one after the other.
  unfoldable pub write_thousand : BeaconState U B R S → Option (BeaconState U B R S)
  write_thousand s = do
    validators ← update_range 0 writes_per_shape raise_validator s.validators
    balances ← update_range 0 writes_per_shape (λ i. raise_by 12345) s.balances
    block_roots ← update_range 0 writes_per_shape (λ i old. mk_root (i + 90000)) s.block_roots
    randao_mixes ← update_range 0 writes_per_shape (λ i old. mk_root (i + 95000)) s.randao_mixes
    some (record {
      slot = s.slot;
      validators = validators;
      balances = balances;
      block_roots = block_roots;
      randao_mixes = randao_mixes;
      others = s.others;
    })
