-- ===== src/Bn254/Laws.antt =====
-- What the run of gen_vectors.py of LeanHazmatBn254 shows when it passes, and where it stops.

pub mod Encoding
use etheorem.Common.{
  ℕ, ◌-◌, ◌≡◌, ◌≢◌, ◌↔◌, refl, ap, inl, inr, Bool, true, false, not, Option, none, some, List, [],
  ◌∷◌, ◌++◌, Text, codes, text_eq, text_eq_sound, text_eq_refl, text_eq_ne, All, Bool-cases,
  Option-cases, arith,
}
use etheorem.Common.Outcome.{Outcome, passed, exits, raised, ◌>>=◌, ◌>>◌, >>=-eq-passed}
use etheorem.Common.Bytes.{from_hex}
use etheorem.Bn254.{
  PyEcc, Committed, g1_hex, g2_hex, check, check_all, exit_if, is_none, anchors, p1_times,
  true_prod, false_prod, check_pairings, check_infinity, point_of, b2, check_point,
  check_nonsubgroup, main,
}

-- An anchor that could be computed and has the committed text.
abbrev pub IsRight : Text × Option Text × Text → Type 0
IsRight a = a.1 ≡ some a.2

check-passed : (name got want : Text) → check name got want ≡ passed tt → got ≡ want
unfolding check
check-passed name got want h = elim (Bool-cases (text_eq got want)) [
  | inl e ↦ text_eq_sound got want e
  | inr e ↦ let k = rw e at h in cc
]

check_self : (name got : Text) → check name got got ≡ passed tt
unfolding check
check_self name got = rw (text_eq_refl got) refl

exit_if-passed : (test : Bool) (message : Text) → exit_if test message ≡ passed tt → test ≡ false
unfolding exit_if
exit_if-passed true message h = cc
exit_if-passed false message h = refl

check_all-passed :
    (cs : List (Text × Option Text × Text)) → check_all cs ≡ passed tt → All IsRight cs
unfolding check_all
check_all-passed [] h = tt
check_all-passed ((name, none, want) ∷ cs) h = cc
check_all-passed ((name, some got, want) ∷ cs) h =
    let (_, e, k) = >>=-eq-passed (check name got want) (λ _. check_all cs) h in
    (ap (λ t. some t) (check-passed name got want e), check_all-passed cs k)

check_all_complete :
    (cs : List (Text × Option Text × Text)) → All IsRight cs → check_all cs ≡ passed tt
unfolding check_all
check_all_complete [] h = refl
check_all_complete ((name, got, want) ∷ cs) h =
    rw (h.0, check_self name want, check_all_complete cs h.1) refl

-- The first anchor that differs.
check_all-stops :
    (before : List (Text × Option Text × Text)) (name got want : Text)
    (later : List (Text × Option Text × Text))
    → All IsRight before
    → got ≢ want
    → check_all (before ++ (name, some got, want) ∷ later)
      ≡ exits (name ++ (codes ": got " ++ (got ++ (codes ", want " ++ want))))
unfolding check_all check
check_all-stops [] name got want later h d = rw (text_eq_ne got want d) refl
check_all-stops ((n, g, w) ∷ before) name got want later h d =
    rw (h.0, text_eq_refl w) (check_all-stops before name got want later h.1 d)

module _ {G1 Fq2 Fq12 : Type 0} (l : PyEcc G1 Fq2 Fq12) (c : Committed) where
  -- The point decoded from the committed bytes lies on the curve and outside the subgroup.
  pub record Outside (raw : List ℕ) : Type 0 where
    pub decoded : from_hex c.g2_nonsubgroup ≡ some raw
    pub equation :
        (let (x, y) = point_of l raw in
          l.fq2_eq (l.fq2_mul y y) (l.fq2_add (l.fq2_mul (l.fq2_mul x x) x) (b2 l)))
        ≡ true
    pub on_curve : l.is_on_curve (point_of l raw) (b2 l) ≡ true
    pub outside : is_none (l.multiply_g2 (some (point_of l raw)) l.curve_order) ≡ false

  abbrev p1 : Option G1
  p1 = some l.g1

  abbrev p2 : Option (Fq2 × Fq2)
  p2 = some l.g2

  -- Each committed text, and what it is the encoding of.
  pub record Anchored : Type 0 where
    pub g1_p1 : g1_hex l p1 ≡ some c.g1_p1
    pub g2_p2 : g2_hex l p2 ≡ some c.g2_p2
    pub g1_2p1 : g1_hex l (l.multiply_g1 p1 2) ≡ some c.g1_2p1
    pub g1_3p1 : g1_hex l (l.add_g1 (l.multiply_g1 p1 2) p1) ≡ some c.g1_3p1
    pub g1_5p1 : g1_hex l (l.multiply_g1 p1 5) ≡ some c.g1_5p1
    pub g1_neg : g1_hex l (l.multiply_g1 p1 (l.curve_order - 1)) ≡ some c.g1_neg
    pub g2_2p2 : g2_hex l (l.multiply_g2 p2 2) ≡ some c.g2_2p2
    pub g2_3p2 : g2_hex l (l.add_g2 (l.multiply_g2 p2 2) p2) ≡ some c.g2_3p2
    pub g2_5p2 : g2_hex l (l.multiply_g2 p2 5) ≡ some c.g2_5p2
    pub g2_qminus2 : g2_hex l (l.multiply_g2 p2 (l.curve_order - 2)) ≡ some c.g2_qminus2
    pub g2_4p2 : g2_hex l (l.multiply_g2 p2 4) ≡ some c.g2_4p2

  -- The product of the pairings of `3 P2` with `2 P1` and of a multiple of `P2` with `3 P1`.
  abbrev pub product : ℕ → Fq12
  product n = l.final_exponentiate (
      l.fq12_mul (l.pairing (l.multiply_g2 p2 3) (l.multiply_g1 p1 2))
        (l.pairing (l.multiply_g2 p2 n) (l.multiply_g1 p1 3)))

  pub record Reproduced : Type 0 where
    pub right : Anchored
    pub vanishes : l.is_one (product (l.curve_order - 2)) ≡ true
    pub stays : l.is_one (product 4) ≡ false
    pub infinite : l.multiply_g1 p1 l.curve_order ≡ none
    pub point : (raw : List ℕ) × Outside raw

  anchors-Anchored : All IsRight (anchors l c) → Anchored
  unfolding anchors
  anchors-Anchored (a1, (a2, (a3, (a4, (a5, (a6, (a7, (a8, (a9, (a10, (a11, _))))))))))) = record {
    g1_p1 = a1;
    g2_p2 = a2;
    g1_2p1 = a3;
    g1_3p1 = a4;
    g1_5p1 = a5;
    g1_neg = a6;
    g2_2p2 = a7;
    g2_3p2 = a8;
    g2_5p2 = a9;
    g2_qminus2 = a10;
    g2_4p2 = a11;
  }

  anchors-IsRight : Anchored → All IsRight (anchors l c)
  unfolding anchors
  anchors-IsRight h = (
    h.g1_p1,
    (
      h.g2_p2,
      (
        h.g1_2p1,
        (
          h.g1_3p1,
          (
            h.g1_5p1,
            (h.g1_neg, (h.g2_2p2, (h.g2_3p2, (h.g2_5p2, (h.g2_qminus2, (h.g2_4p2, tt)))))),
          ),
        ),
      ),
    ),
  )

  not-false : (a : Bool) → not a ≡ false → a ≡ true
  not-false true h = refl
  not-false false h = cc

  is_none_sound : {A : Type 0} (o : Option A) → is_none o ≡ true → o ≡ none
  is_none_sound none h = refl
  is_none_sound (some a) h = cc

  pairings-passed :
      check_pairings l ≡ passed tt
      → (l.is_one (product (l.curve_order - 2)) ≡ true) × (l.is_one (product 4) ≡ false)
  unfolding check_pairings true_prod false_prod
  pairings-passed h =
      let (_, e, k) = >>=-eq-passed (exit_if _ _) (λ _. exit_if _ _) h in
      (not-false _ (exit_if-passed _ _ e), exit_if-passed _ _ k)

  infinity-passed : check_infinity l ≡ passed tt → p1_times l l.curve_order ≡ none
  unfolding check_infinity
  infinity-passed h = is_none_sound _ (not-false _ (exit_if-passed _ _ h))

  point-passed :
      (raw : List ℕ)
      → from_hex c.g2_nonsubgroup ≡ some raw
      → check_point l (point_of l raw) ≡ passed tt
      → Outside raw
  unfolding check_point
  point-passed raw e h =
      let (_, e1, k1) = >>=-eq-passed (exit_if _ _) (λ _. exit_if _ _ >> exit_if _ _) h in
      let (_, e2, k2) = >>=-eq-passed (exit_if _ _) (λ _. exit_if _ _) k1 in
      record {
        decoded = e;
        equation = not-false _ (exit_if-passed _ _ e1);
        on_curve = not-false _ (exit_if-passed _ _ e2);
        outside = exit_if-passed _ _ k2;
      }

  nonsubgroup-passed : check_nonsubgroup l c ≡ passed tt → (raw : List ℕ) × Outside raw
  unfolding check_nonsubgroup
  nonsubgroup-passed h = elim (Option-cases (from_hex c.g2_nonsubgroup)) [
    | inl e ↦ let k = rw e at h in cc
    | inr (raw, e) ↦ (raw, point-passed raw e (rw e at h))
  ]

  main-passed : main l c ≡ passed tt → Reproduced
  unfolding main
  main-passed h =
      let (_, e1, k1) =
        >>=-eq-passed (check_all (anchors l c))
          (λ _. check_pairings l >> (check_infinity l >> check_nonsubgroup l c)) h in
      let (_, e2, k2) =
        >>=-eq-passed (check_pairings l) (λ _. check_infinity l >> check_nonsubgroup l c) k1 in
      let (_, e3, k3) = >>=-eq-passed (check_infinity l) (λ _. check_nonsubgroup l c) k2 in
      record {
        right = anchors-Anchored (check_all-passed (anchors l c) e1);
        vanishes = (pairings-passed e2).0;
        stays = (pairings-passed e2).1;
        infinite = infinity-passed e3;
        point = nonsubgroup-passed k3;
      }

  main_complete : Reproduced → main l c ≡ passed tt
  unfolding main check_pairings true_prod false_prod check_infinity check_nonsubgroup check_point
      exit_if
  main_complete h =
      let (raw, o) = h.point in
      rw
        (
          check_all_complete (anchors l c) (anchors-IsRight h.right),
          h.vanishes,
          h.stays,
          h.infinite,
          o.decoded,
          o.equation,
          o.on_curve,
          o.outside,
        )
        refl

  -- The run passes exactly when each of the eleven committed texts is the encoding of its multiple or
  -- sum of the generators, the product of the pairings of `3 P2` with `2 P1` and of `(q - 2) P2` with
  -- `3 P1` reduces to one and that with `4 P2` instead does not, `q` times the generator is the point at
  -- infinity, and the last anchor decodes to a point that satisfies the curve's equation and that `q`
  -- does not send to infinity.
  pub main_iff : (main l c ≡ passed tt) ↔ Reproduced
  main_iff = (main-passed, main_complete)

  -- Where the first anchors of the list are right and the next one differs, the run ends there with
  -- a message that holds both texts.
  pub main_stops :
      (before later : List (Text × Option Text × Text)) (name got want : Text)
      → anchors l c ≡ before ++ (name, some got, want) ∷ later
      → All IsRight before
      → got ≢ want
      → main l c ≡ exits (name ++ (codes ": got " ++ (got ++ (codes ", want " ++ want))))
  unfolding main
  main_stops before later name got want e h d =
      rw (e, check_all-stops before name got want later h d) refl
