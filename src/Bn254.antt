-- ===== src/Bn254.antt =====
-- packages/hazmat/LeanHazmatBn254/scripts/gen_vectors.py: the anchors of the BN254 tests, checked
-- against py_ecc. That library is a parameter: its points and field elements, and the functions that
-- the script takes from it. The printed lines are the names of the anchors found right.
pub mod Laws
mod Tests
use etheorem.Common.{
  ℕ, zero, suc, ◌+◌, ◌-◌, Bool, true, false, not, ◌&&◌, Option, none, some, List, [], ◌∷◌, ◌++◌,
  Text, codes, text_eq, take, drop, if◌then◌else◌,
}
use etheorem.Common.Outcome.{Outcome, passed, exits, raised, ◌>>=◌, ◌>>◌, of_option}
use etheorem.Common.Strings.Digits.{hex_fixed}
use etheorem.Common.Bytes.{from_hex, from_big}

-- An element `c0 + c1 * i` of F_p2 by its coefficients, and a pair of coordinates.
pub record PyEcc (G1 Fq2 Fq12 : Type 0) : Type 0 where
  -- a point of G1, without the one at infinity, which is `None`
  pub g1 : G1
  pub g1_xy : G1 → ℕ × ℕ
  pub multiply_g1 : Option G1 → ℕ → Option G1
  pub add_g1 : Option G1 → Option G1 → Option G1
  -- a point of G2 is a pair of coordinates
  pub g2 : Fq2 × Fq2
  pub multiply_g2 : Option (Fq2 × Fq2) → ℕ → Option (Fq2 × Fq2)
  pub add_g2 : Option (Fq2 × Fq2) → Option (Fq2 × Fq2) → Option (Fq2 × Fq2)
  -- `FQ2([c0, c1])`, `coeffs`, and the field's operations
  pub fq2 : ℕ → ℕ → Fq2
  pub coeffs : Fq2 → ℕ × ℕ
  pub fq2_add : Fq2 → Fq2 → Fq2
  pub fq2_mul : Fq2 → Fq2 → Fq2
  pub fq2_div : Fq2 → Fq2 → Fq2
  pub fq2_eq : Fq2 → Fq2 → Bool
  pub is_on_curve : Fq2 × Fq2 → Fq2 → Bool
  -- the pairing and its target
  pub pairing : Option (Fq2 × Fq2) → Option G1 → Fq12
  pub fq12_mul : Fq12 → Fq12 → Fq12
  pub final_exponentiate : Fq12 → Fq12
  pub is_one : Fq12 → Bool
  pub curve_order : ℕ

-- `COMMITTED`, and the two generators that `main` spells out.
pub record Committed : Type 0 where
  pub g1_p1 : Text
  pub g2_p2 : Text
  pub g1_2p1 : Text
  pub g1_3p1 : Text
  pub g1_5p1 : Text
  pub g1_neg : Text
  pub g2_2p2 : Text
  pub g2_3p2 : Text
  pub g2_5p2 : Text
  pub g2_qminus2 : Text
  pub g2_4p2 : Text
  pub g2_nonsubgroup : Text

abbrev pub committed : Committed
committed = record {
  g1_p1 =
      codes "0000000000000000000000000000000000000000000000000000000000000001"
      ++ codes "0000000000000000000000000000000000000000000000000000000000000002";
  g2_p2 =
      codes "198e9393920d483a7260bfb731fb5d25f1aa493335a9e71297e485b7aef312c2"
      ++ (codes "1800deef121f1e76426a00665e5c4479674322d4f75edadd46debd5cd992f6ed"
          ++ (codes "090689d0585ff075ec9e99ad690c3395bc4b313370b38ef355acdadcd122975b"
              ++ codes "12c85ea5db8c6deb4aab71808dcb408fe3d1e7690c43d37b4ce6cc0166fa7daa"));
  g1_2p1 =
      codes "030644e72e131a029b85045b68181585d97816a916871ca8d3c208c16d87cfd3"
      ++ codes "15ed738c0e0a7c92e7845f96b2ae9c0a68a6a449e3538fc7ff3ebf7a5a18a2c4";
  g1_3p1 =
      codes "0769bf9ac56bea3ff40232bcb1b6bd159315d84715b8e679f2d355961915abf0"
      ++ codes "2ab799bee0489429554fdb7c8d086475319e63b40b9c5b57cdf1ff3dd9fe2261";
  g1_5p1 =
      codes "17c139df0efee0f766bc0204762b774362e4ded88953a39ce849a8a7fa163fa9"
      ++ codes "01e0559bacb160664764a357af8a9fe70baa9258e0b959273ffc5718c6d4cc7c";
  g1_neg =
      codes "0000000000000000000000000000000000000000000000000000000000000001"
      ++ codes "30644e72e131a029b85045b68181585d97816a916871ca8d3c208c16d87cfd45";
  g2_2p2 =
      codes "203e205db4f19b37b60121b83a7333706db86431c6d835849957ed8c3928ad79"
      ++ (codes "27dc7234fd11d3e8c36c59277c3e6f149d5cd3cfa9a62aee49f8130962b4b3b9"
          ++ (codes "195e8aa5b7827463722b8c153931579d3505566b4edf48d498e185f0509de152"
              ++ codes "04bb53b8977e5f92a0bc372742c4830944a59b4fe6b1c0466e2a6dad122b5d2e"));
  g2_3p2 =
      codes "1014772f57bb9742735191cd5dcfe4ebbc04156b6878a0a7c9824f32ffb66e85"
      ++ (codes "06064e784db10e9051e52826e192715e8d7e478cb09a5e0012defa0694fbc7f5"
          ++ (codes "021e2335f3354bb7922ffcc2f38d3323dd9453ac49b55441452aeaca147711b2"
              ++ codes "058e1d5681b5b9e0074b0f9c8d2c68a069b920d74521e79765036d57666c5597"));
  g2_5p2 =
      codes "0a09ccf561b55fd99d1c1208dee1162457b57ac5af3759d50671e510e428b2a1"
      ++ (codes "2e539c423b302d13f4e5773c603948eaf5db5df8ae8a9a9113708390a06410d8"
          ++ (codes "19b763513924a736e4eebd0d78c91c1bc1d657fee4214057d21414011cfcc763"
              ++ codes "2f8d9f9ab83727c77a2fec063cb7b6e5eb23044ccf535ad49d46d394fb6f6bf6"));
  g2_qminus2 =
      codes "203e205db4f19b37b60121b83a7333706db86431c6d835849957ed8c3928ad79"
      ++ (codes "27dc7234fd11d3e8c36c59277c3e6f149d5cd3cfa9a62aee49f8130962b4b3b9"
          ++ (codes "1705c3cd29af2bc64624b9a1485000c0627c1426199281b8a33f062687df1bf5"
              ++ codes "2ba8faba49b3409717940e8f3ebcd55452dbcf4181c00a46cdf61e69c651a019"));
  g2_4p2 =
      codes "290668479e567ad5a2485a93f976d784206f66f690a18c3f5a6d85c29571236f"
      ++ (codes "29dddbf86f6a2f47c38063a850ccc442131570e5084c45fd7709b4ddb436e22c"
          ++ (codes "1e74a4bf519c267a5b16431b2413b00402d4d3b670c9414b8efff5bee661a8f6"
              ++ codes "299f0af7f72b3a93ca7c3cc32443c83b05d041bd14276e5adca2546728bc37f7"));
  g2_nonsubgroup =
      codes "0000000000000000000000000000000000000000000000000000000000000003"
      ++ (codes "0000000000000000000000000000000000000000000000000000000000000002"
          ++ (codes "1b3983aba87e776f3bce1885442ec3e9c6ad7f6f05321c57eebe5dcf0c2e7f32"
              ++ codes "0239d6264efb1d130c43464ef93b83508adf1cf49b9571dc36dbbaa2a17dc655"));
}

-- `check`
unfoldable pub check : Text → Text → Text → Outcome (Unit {0})
unfolding text_eq
check name got want =
    if text_eq got want
    then passed tt
    else exits (name ++ (codes ": got " ++ (got ++ (codes ", want " ++ want))))

-- The checks of `main` that follow one another; a value that could not be computed raised.
unfoldable pub check_all : List (Text × Option Text × Text) → Outcome (Unit {0})
unfolding check
check_all [] = passed tt
check_all ((name, got, want) ∷ anchors) = do
  text ← of_option got
  check name text want
  check_all anchors

-- `if test: sys.exit(message)`
unfoldable pub exit_if : Bool → Text → Outcome (Unit {0})
exit_if test message = if test then exits message else passed tt

abbrev pub is_none {ℓ} : {A : Type ℓ} → Option A → Bool
is_none none = true
is_none (some a) = false

-- `int.from_bytes(raw[i:i + 32], "big")`
unfoldable pub word_at : List ℕ → ℕ → ℕ
unfolding from_big
word_at raw i = from_big 0 (take 32 (drop i raw))

module _ {G1 Fq2 Fq12 : Type 0} (l : PyEcc G1 Fq2 Fq12) where
  -- The point at infinity has no coordinates: unpacking it raises.
  unfoldable pub g1_hex : Option G1 → Option Text
  g1_hex none = none
  g1_hex (some p) = some (hex_fixed 64 (l.g1_xy p).0 ++ hex_fixed 64 (l.g1_xy p).1)

  -- The imaginary half first.
  unfoldable pub fq2_eip : Fq2 → Text
  fq2_eip c = hex_fixed 64 (l.coeffs c).1 ++ hex_fixed 64 (l.coeffs c).0

  unfoldable pub g2_hex : Option (Fq2 × Fq2) → Option Text
  unfolding fq2_eip
  g2_hex none = none
  g2_hex (some (x, y)) = some (fq2_eip x ++ fq2_eip y)

  abbrev pub p1_times : ℕ → Option G1
  p1_times n = l.multiply_g1 (some l.g1) n

  abbrev pub p2_times : ℕ → Option (Fq2 × Fq2)
  p2_times n = l.multiply_g2 (some l.g2) n

  -- The generators' encodings, and the anchors of both groups' arithmetic.
  unfoldable pub anchors : Committed → List (Text × Option Text × Text)
  unfolding g1_hex g2_hex
  anchors c =
      (codes "g1_P1", g1_hex (some l.g1), c.g1_p1)
      ∷ (codes "g2_P2", g2_hex (some l.g2), c.g2_p2)
      ∷ (codes "g1_2P1", g1_hex (p1_times 2), c.g1_2p1)
      ∷ (codes "g1_3P1", g1_hex (l.add_g1 (p1_times 2) (some l.g1)), c.g1_3p1)
      ∷ (codes "g1_5P1", g1_hex (p1_times 5), c.g1_5p1)
      ∷ (codes "g1_neg", g1_hex (p1_times (l.curve_order - 1)), c.g1_neg)
      ∷ (codes "g2_2P2", g2_hex (p2_times 2), c.g2_2p2)
      ∷ (codes "g2_3P2", g2_hex (l.add_g2 (p2_times 2) (some l.g2)), c.g2_3p2)
      ∷ (codes "g2_5P2", g2_hex (p2_times 5), c.g2_5p2)
      ∷ (codes "g2_qminus2", g2_hex (p2_times (l.curve_order - 2)), c.g2_qminus2)
      ∷ (codes "g2_4P2", g2_hex (p2_times 4), c.g2_4p2)
      ∷ []

  -- The products of two pairings with 2 * 3 + 3 * (q - 2) and 2 * 3 + 3 * 4 in the exponent.
  unfoldable pub true_prod : Fq12
  true_prod =
      l.fq12_mul (l.pairing (p2_times 3) (p1_times 2))
        (l.pairing (p2_times (l.curve_order - 2)) (p1_times 3))

  unfoldable pub false_prod : Fq12
  false_prod =
      l.fq12_mul (l.pairing (p2_times 3) (p1_times 2)) (l.pairing (p2_times 4) (p1_times 3))

  unfoldable pub check_pairings : Outcome (Unit {0})
  unfolding exit_if
  check_pairings = do
    exit_if (not (l.is_one (l.final_exponentiate true_prod)))
        (codes "true pairing check: product did not reduce to one")
    exit_if (l.is_one (l.final_exponentiate false_prod))
        (codes "false pairing check: product unexpectedly one")

  unfoldable pub check_infinity : Outcome (Unit {0})
  unfolding exit_if
  check_infinity =
      exit_if (not (is_none (p1_times l.curve_order))) (codes "q * P1 is not the infinity point")

  -- The point that the bytes stand for, the imaginary halves first.
  unfoldable pub point_of : List ℕ → Fq2 × Fq2
  unfolding word_at
  point_of raw = (l.fq2 (word_at raw 32) (word_at raw 0), l.fq2 (word_at raw 96) (word_at raw 64))

  unfoldable pub b2 : Fq2
  b2 = l.fq2_div (l.fq2 3 0) (l.fq2 9 1)

  -- The point on the curve but outside the subgroup of order `q`.
  unfoldable pub check_point : Fq2 × Fq2 → Outcome (Unit {0})
  unfolding exit_if b2
  check_point (x, y) = do
    exit_if (not (l.fq2_eq (l.fq2_mul y y) (l.fq2_add (l.fq2_mul (l.fq2_mul x x) x) b2)))
        (codes "non-subgroup anchor: committed (x, y) is not on the curve")
    exit_if (not (l.is_on_curve (x, y) b2))
        (codes "non-subgroup anchor: py_ecc rejects the point as off-curve")
    exit_if (is_none (l.multiply_g2 (some (x, y)) l.curve_order))
        (codes "non-subgroup anchor: the point IS in the order-q subgroup")

  unfoldable pub check_nonsubgroup : Committed → Outcome (Unit {0})
  unfolding from_hex point_of check_point
  check_nonsubgroup c = do raw ← of_option (from_hex c.g2_nonsubgroup); check_point (point_of raw)

  unfoldable pub main : Committed → Outcome (Unit {0})
  main c = do check_all (anchors c); check_pairings; check_infinity; check_nonsubgroup c
