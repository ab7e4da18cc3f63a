-- ===== src/Poseidon/Tests.antt =====
-- packages/LeanPoseidon/scripts/gen_poseidon_params.py on a small instance.
use etheorem.Common.{◌≡◌, refl, true, none, some, List, [], ◌∷◌, ◌++◌, Text, codes}
use etheorem.Poseidon.{PoseidonData, flatten_round_constants, canonical_hex, visited, shape_holds}
use etheorem.Poseidon.Laws.{visited-flatten}

abbrev small_data : PoseidonData
small_data = record {
  modulus = 31;
  t = 2;
  rounds_f = 2;
  rounds_p = 1;
  sbox_degree = 5;
  rc =
      (codes "0x1" ∷ codes "0x2" ∷ [])
      ∷ (codes "0x3" ∷ codes "0x0" ∷ [])
      ∷ (codes "0x4" ∷ codes "0x5" ∷ [])
      ∷ [];
  diag_m1 = codes "0x1" ∷ codes "0x2" ∷ [];
}

abbrev small_flat : List Text
small_flat = codes "0x1" ∷ codes "0x2" ∷ codes "0x3" ∷ codes "0x4" ∷ codes "0x5" ∷ []

small_run :
    (flatten_round_constants small_data.rc 1 1 2 ≡ some small_flat)
    × (shape_holds small_data small_flat ≡ true)
    × (canonical_hex 31 (codes "0x1f") ≡ none)
    × (canonical_hex 31 (codes "0x1e")
        ≡ some (codes "0x000000000000000000000000000000000000000000000000000000000000001e"))
unfolding flatten_round_constants shape_holds canonical_hex
small_run = (refl, refl, refl, refl)

visited-flatten_example :
    (a : List Text) × (b : List Text) × (c : List Text) × (visited small_data ≡ some (a, b, c))
    × (a ++ (b ++ c) ≡ small_flat)
unfolding flatten_round_constants shape_holds
visited-flatten_example = visited-flatten small_data small_flat refl refl
