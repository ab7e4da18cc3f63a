-- ===== src/Bench/Laws.antt =====
-- What a report of scripts/comparative_benchmark.py rests on.
use etheorem.Common.{
  ℕ, ◌≡◌, ◌⊎◌, ◌↔◌, inl, inr, refl, ap, true, false, some, List, [], ◌∷◌, map, Text, codes, text_eq,
  text_eq_sound, text_eq_refl, all, All, is_empty, length, ◌==◌, ==_self, eq_of_==, Bool-cases,
  Option-cases, arith,
}
use etheorem.Bench.{
  Row, Checked, okay, error, ◌>>=◌, is_of, rows_of, pairs, missing_of, check_complete, only_one,
  root_of, check_point, Roots, compare_roots, check_roots,
}

missing_none :
    (rows : List Row) (reps : ℕ) (ps : List (Text × Text))
    → is_empty (missing_of rows reps ps) ≡ true
      ↔ All (λ p. length (rows_of (is_of p.0 p.1) rows) ≡ reps) ps
unfolding missing_of
missing_none rows reps [] = (λ h. tt, λ h. refl)
missing_none rows reps ((impl, scenario) ∷ ps) =
    let got = length (rows_of (is_of impl scenario) rows) in
    let (there, back) = missing_none rows reps ps in
    elim (Bool-cases (got == reps)) [
      | inl e ↦ (λ h. (eq_of_== got reps e, there (rw e at h)), λ (p, h). rw e (back h))
      | inr e ↦
          (λ h. absurd (let g = rw e at h in cc), λ (p, h). absurd (ground (arith, ==_self got)))
    ]

-- The rows are accepted as complete exactly when every implementation has `reps` rows of every
-- scenario.
pub check_complete_iff :
    (rows : List Row) (reps : ℕ)
    → check_complete rows reps ≡ okay tt
      ↔ All (λ p. length (rows_of (is_of p.0 p.1) rows) ≡ reps) pairs
unfolding check_complete
check_complete_iff rows reps =
    let (there, back) = missing_none rows reps pairs in
    elim (Bool-cases (is_empty (missing_of rows reps pairs))) [
      | inl e ↦ (λ h. there e, λ h. rw e refl)
      | inr e ↦ (λ h. absurd (let g = rw e at h in cc), λ h. absurd (ground (arith, back h)))
    ]

all_equal : (a : Text) (xs : List Text) → all (λ b. text_eq b a) xs ≡ true → All (λ b. b ≡ a) xs
all_equal a [] h = tt
all_equal a (x ∷ xs) h =
    let one : text_eq x a ≡ true = ground arith in
    let rest : all (λ b. text_eq b a) xs ≡ true = ground arith in
    (text_eq_sound x a one, all_equal a xs rest)

only_one_sound : (xs : List Text) (a : Text) → only_one xs ≡ some a → All (λ b. b ≡ a) xs
unfolding only_one
only_one_sound [] a h = cc
only_one_sound (x ∷ xs) a h = elim (Bool-cases (all (λ b. text_eq b x) xs)) [
  | inl e ↦ let g = rw e at h in let same : x ≡ a = cc in (same, all_equal a xs (rw same at e))
  | inr e ↦ absurd (let g = rw e at h in cc)
]

-- The rows of a scenario have this root.
abbrev pub HaveRoot : List Row → Text → (Row → Text) → Text → Type 0
HaveRoot rows scenario root a = All (λ r. r.scenario ≡ scenario → root r ≡ a) rows

rows_HaveRoot :
    (rows : List Row) (scenario : Text) (root : Row → Text) (a : Text)
    → All (λ b. b ≡ a) (map root (rows_of (λ r. text_eq r.scenario scenario) rows))
    → HaveRoot rows scenario root a
unfolding rows_of
rows_HaveRoot [] scenario root a h = tt
rows_HaveRoot (r ∷ rows) scenario root a h = elim (Bool-cases (text_eq r.scenario scenario)) [
  | inl e ↦ let (one, rest) = rw e at h in (λ same. one, rows_HaveRoot rows scenario root a rest)
  | inr e ↦ (λ same. absurd (by_refl same e), rows_HaveRoot rows scenario root a (rw e at h))
]
  where
    by_refl : r.scenario ≡ scenario → text_eq r.scenario scenario ≡ false → ⊥
    by_refl same e = let g = rw same at e in let t = text_eq_refl scenario in cc

check_point_sound :
    (rows : List Row) (scenario key : Text) (a : Text)
    → check_point rows scenario key ≡ okay a
    → HaveRoot rows scenario (root_of key) a
unfolding check_point
check_point_sound rows scenario key a h =
    let xs = map (root_of key) (rows_of (λ r. text_eq r.scenario scenario) rows) in
    elim (Option-cases (only_one xs)) [
      | inl e ↦ absurd (let g = rw (check_point, e) at h in cc)
      | inr (b, e) ↦
          let g = rw (check_point, e) at h in
          let same : b ≡ a = cc in
          rows_HaveRoot rows scenario (root_of key) a (only_one_sound xs a (rw e (ap some same)))
    ]

-- Inversion of a bind that is okay.
>>=-eq-okay {ℓ κ} :
    {A : Type ℓ} {B : Type κ} (m : Checked A) (f : A → Checked B) {b : B}
    → (m >>= f) ≡ okay b
    → (a : A) × (m ≡ okay a) × (f a ≡ okay b)
>>=-eq-okay (okay a) f h = (a, refl, h)
>>=-eq-okay (error e) f h = cc

compare_roots_sound :
    (fixture a1 a2 b1 b2 : Text) (R : Roots)
    → compare_roots fixture a1 a2 b1 b2 ≡ okay R
    → (record {
      update1_root1 = a1;
      update1_root2 = a2;
      update1000_root1 = b1;
      update1000_root2 = b2;
    }
        ≡ R)
      × (a1 ≡ b1)
      × ((is_empty fixture ≡ true) ⊎ (fixture ≡ a1))
unfolding compare_roots
compare_roots_sound fixture a1 a2 b1 b2 R h = elim (Bool-cases (text_eq a1 b1)) [
  | inr e ↦ absurd (let g = rw e at h in cc)
  | inl e ↦ elim (Bool-cases (is_empty fixture)) [
    | inl f ↦ let g = rw (e, f) at h in (cc, text_eq_sound a1 b1 e, inl f)
    | inr f ↦ elim (Bool-cases (text_eq fixture a1)) [
      | inl t ↦
          let g = rw (e, f, t) at h in (cc, text_eq_sound a1 b1 e, inr (text_eq_sound fixture a1 t))
      | inr t ↦ absurd (let g = rw (e, f, t) at h in cc)
    ]
  ]
]

-- If the roots are accepted, then every row of a scenario has the two roots that are returned for
-- the scenario, the first roots of the scenarios are the same, and the fixture's root, where the
-- Lean harness named one, is that root too.
pub check_roots_sound :
    (rows : List Row) (fixture : Text) (R : Roots)
    → check_roots rows fixture ≡ okay R
    → HaveRoot rows (codes "update1") (λ r. r.root1) R.update1_root1
      × HaveRoot rows (codes "update1") (λ r. r.root2) R.update1_root2
      × HaveRoot rows (codes "update1000") (λ r. r.root1) R.update1000_root1
      × HaveRoot rows (codes "update1000") (λ r. r.root2) R.update1000_root2
      × (R.update1_root1 ≡ R.update1000_root1)
      × ((is_empty fixture ≡ true) ⊎ (fixture ≡ R.update1_root1))
unfolding check_roots text_eq
check_roots_sound rows fixture R h =
    let (a1, p1, h1) = >>=-eq-okay (check_point rows (codes "update1") (codes "root1")) _ h in
    let (a2, p2, h2) = >>=-eq-okay (check_point rows (codes "update1") (codes "root2")) _ h1 in
    let (b1, p3, h3) = >>=-eq-okay (check_point rows (codes "update1000") (codes "root1")) _ h2 in
    let (b2, p4, h4) = >>=-eq-okay (check_point rows (codes "update1000") (codes "root2")) _ h3 in
    let (same, first, given) = compare_roots_sound fixture a1 a2 b1 b2 R h4 in
    rw (← same) (
      check_point_sound rows (codes "update1") (codes "root1") a1 p1,
      check_point_sound rows (codes "update1") (codes "root2") a2 p2,
      check_point_sound rows (codes "update1000") (codes "root1") b1 p3,
      check_point_sound rows (codes "update1000") (codes "root2") b2 p4,
      first,
      given,
    )
