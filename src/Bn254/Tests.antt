-- ===== src/Bn254/Tests.antt =====
-- A small group of order seven in the place of py_ecc, and runs of the check with it.
use etheorem.Common.{
  ℕ, ◌+◌, ◌*◌, ◌%◌, ◌<◌, ◌^◌, ◌≡◌, ◌≢◌, ◌↔◌, refl, ap, length, length-append, Bool, true, false,
  Option, none, some, List, [], ◌∷◌, ◌++◌, Text, codes, ◌==◌, if◌then◌else◌, arith,
}
use etheorem.Common.Outcome.{passed, exits}
use etheorem.Common.Bytes.{from_hex}
use etheorem.Common.Strings.Digits.{hex_fixed, length-hex_fixed}
use etheorem.Bn254.{PyEcc, Committed, anchors, main, g1_hex, g2_hex, fq2_eip, point_of}
use etheorem.Bn254.Laws.{main_iff, main_stops, Reproduced}
use etheorem.Bn254.Laws.Encoding.{four_words, from_hex_four, g2_hex-decoded}

abbrev toy : PyEcc ℕ (ℕ × ℕ) ℕ
toy = record {
  g1 = 1;
  g1_xy = λ k. (k, k);
  multiply_g1 = times_g1;
  add_g1 = λ p q. some 3;
  g2 = ((1, 0), (0, 0));
  multiply_g2 = times_g2;
  add_g2 = λ p q. some ((3, 0), (0, 0));
  fq2 = λ a b. (a % 2 ^ 256, b % 2 ^ 256);
  coeffs = λ c. (c.0, c.1);
  fq2_add = λ a b. a;
  fq2_mul = λ a b. a;
  fq2_div = λ a b. a;
  fq2_eq = λ a b. true;
  is_on_curve = λ p b. true;
  pairing = pair;
  fq12_mul = λ a b. a + b;
  final_exponentiate = λ a. a;
  is_one = λ a. a % 7 == 0;
  curve_order = 7;
}
  where
    times_g1 : Option ℕ → ℕ → Option ℕ
    times_g1 none n = none
    times_g1 (some k) n = if (k * n) % 7 == 0 then none else some ((k * n) % 7)

    times_g2 : Option ((ℕ × ℕ) × (ℕ × ℕ)) → ℕ → Option ((ℕ × ℕ) × (ℕ × ℕ))
    times_g2 none n = none
    times_g2 (some p) n = some ((p.0.0 * n, p.0.1), p.1)

    pair : Option ((ℕ × ℕ) × (ℕ × ℕ)) → Option ℕ → ℕ
    pair none k = 0
    pair (some p) none = 0
    pair (some p) (some k) = p.0.0 * k

abbrev g1_text : ℕ → Text
g1_text k = hex_fixed 64 k ++ hex_fixed 64 k

abbrev g2_text : ℕ → Text
g2_text k = (hex_fixed 64 0 ++ hex_fixed 64 k) ++ (hex_fixed 64 0 ++ hex_fixed 64 0)

abbrev texts : Text → Committed
texts five = record {
  g1_p1 = g1_text 1;
  g2_p2 = g2_text 1;
  g1_2p1 = g1_text 2;
  g1_3p1 = g1_text 3;
  g1_5p1 = five;
  g1_neg = g1_text 6;
  g2_2p2 = g2_text 2;
  g2_3p2 = g2_text 3;
  g2_5p2 = g2_text 5;
  g2_qminus2 = g2_text 5;
  g2_4p2 = g2_text 4;
  g2_nonsubgroup = g2_text 1;
}

different : g1_text 5 ≢ codes "00"
different h = omega (
  arith,
  ap (λ (t : Text). length t) h,
  length-append (hex_fixed 64 5) (hex_fixed 64 5),
  length-hex_fixed 64 5,
)

reproduced : Reproduced toy (texts (g1_text 5))
unfolding g1_hex g2_hex fq2_eip
reproduced = record {
  right = record {
    g1_p1 = refl;
    g2_p2 = refl;
    g1_2p1 = refl;
    g1_3p1 = refl;
    g1_5p1 = refl;
    g1_neg = refl;
    g2_2p2 = refl;
    g2_3p2 = refl;
    g2_5p2 = refl;
    g2_qminus2 = refl;
    g2_4p2 = refl;
  };
  vanishes = refl;
  stays = refl;
  infinite = refl;
  point = (
    four_words 0 1 0 0,
    record { decoded = from_hex_four 0 1 0 0; equation = refl; on_curve = refl; outside = refl },
  );
}

passing_run : main toy (texts (g1_text 5)) ≡ passed tt
passing_run = (main_iff toy (texts (g1_text 5))).1 reproduced

main_iff_example : (main toy (texts (g1_text 5)) ≡ passed tt) ↔ Reproduced toy (texts (g1_text 5))
main_iff_example = main_iff toy (texts (g1_text 5))

stopped_run :
    main toy (texts (codes "00"))
    ≡ exits (codes "g1_5P1" ++ (codes ": got " ++ (g1_text 5 ++ (codes ", want " ++ codes "00"))))
unfolding anchors g1_hex g2_hex fq2_eip
stopped_run =
    main_stops toy (texts (codes "00"))
      ((codes "g1_P1", some (g1_text 1), g1_text 1)
        ∷ (codes "g2_P2", some (g2_text 1), g2_text 1)
        ∷ (codes "g1_2P1", some (g1_text 2), g1_text 2)
        ∷ (codes "g1_3P1", some (g1_text 3), g1_text 3)
        ∷ [])
      ((codes "g1_neg", some (g1_text 6), g1_text 6)
        ∷ (codes "g2_2P2", some (g2_text 2), g2_text 2)
        ∷ (codes "g2_3P2", some (g2_text 3), g2_text 3)
        ∷ (codes "g2_5P2", some (g2_text 5), g2_text 5)
        ∷ (codes "g2_qminus2", some (g2_text 5), g2_text 5)
        ∷ (codes "g2_4P2", some (g2_text 4), g2_text 4)
        ∷ [])
      (codes "g1_5P1") (g1_text 5) (codes "00") refl (refl, (refl, (refl, (refl, tt)))) different

-- Elements with small coefficients.
abbrev small_toy : PyEcc ℕ (Bool × Bool) ℕ
small_toy = record {
  g1 = 1;
  g1_xy = λ k. (k, k);
  multiply_g1 = λ p n. p;
  add_g1 = λ p q. p;
  g2 = ((true, false), (false, true));
  multiply_g2 = λ p n. p;
  add_g2 = λ p q. p;
  fq2 = λ a b. (a == 1, b == 1);
  coeffs = λ c. (if c.0 then 1 else 0, if c.1 then 1 else 0);
  fq2_add = λ a b. a;
  fq2_mul = λ a b. a;
  fq2_div = λ a b. a;
  fq2_eq = λ a b. true;
  is_on_curve = λ p b. true;
  pairing = λ p q. 0;
  fq12_mul = λ a b. a;
  final_exponentiate = λ a. a;
  is_one = λ a. true;
  curve_order = 7;
}

bits_rebuilt : (z : Bool × Bool) → small_toy.fq2 (small_toy.coeffs z).0 (small_toy.coeffs z).1 ≡ z
bits_rebuilt (true, true) = refl
bits_rebuilt (true, false) = refl
bits_rebuilt (false, true) = refl
bits_rebuilt (false, false) = refl

bit_small : (b : Bool) → (if b then 1 else 0) < 256 ^ 32
bit_small true = omega arith
bit_small false = omega arith

g2_hex-decoded_example :
    (text : Text) × (raw : List ℕ) × (g2_hex small_toy (some small_toy.g2) ≡ some text)
    × (from_hex text ≡ some raw)
    × (point_of small_toy raw ≡ small_toy.g2)
g2_hex-decoded_example =
    g2_hex-decoded small_toy (true, false) (false, true) bits_rebuilt
      (λ z. (bit_small z.0, bit_small z.1))
