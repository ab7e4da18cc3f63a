-- ===== src/SszHarness/Checks.antt =====
-- The checks of the benchmark's driver on the rows that a run of the harness printed.
use etheorem.Common.{
  ℕ, ◌<◌, ◌≡◌, refl, ap, sym, ◌∙◌, Bool, true, false, Option, some, List, [], ◌∷◌, ◌++◌, map,
  append-nil, Text, codes, text_eq, text_eq_refl, length, length-map, length-range_from, all,
  range_from, All, arith,
}
use etheorem.Common.Action.{>>=-eq-passed, or_raise-passed, state_of}
use etheorem.Common.Outcome.{passed}
use etheorem.Common.Strings.Digits.{hex}
use etheorem.Bench.{
  Row, Roots, okay, rows_of, is_of, check_point, check_roots, compare_roots, only_one, root_of,
}
use etheorem.SszHarness.{Run, ssz_specs, repeat, scenarios_run, main}
use etheorem.SszHarness.Writes.{Ssz, BeaconState, write_one, write_thousand}
use etheorem.SszHarness.Rows.{IsRow, repeat-rows, repeat-IsRun}

abbrev rows_in : List (ℕ × Row) → List Row
rows_in ls = map (λ p. p.1) ls

rows_of-yes :
    (test : Row → Bool) (ls ms : List (ℕ × Row))
    → All (λ p. test p.1 ≡ true) ls
    → rows_of test (rows_in (ls ++ ms)) ≡ rows_in ls ++ rows_of test (rows_in ms)
unfolding rows_of
rows_of-yes test [] ms h = refl
rows_of-yes test (p ∷ ls) ms h =
    rw h.0 (ap (λ (rs : List Row). p.1 ∷ rs) (rows_of-yes test ls ms h.1))

rows_of-no :
    (test : Row → Bool) (ls ms : List (ℕ × Row))
    → All (λ p. test p.1 ≡ false) ls
    → rows_of test (rows_in (ls ++ ms)) ≡ rows_of test (rows_in ms)
unfolding rows_of
rows_of-no test [] ms h = refl
rows_of-no test (p ∷ ls) ms h = rw h.0 (rows_of-no test ls ms h.1)

rows_of-kept :
    (test : Row → Bool) (ls : List (ℕ × Row))
    → All (λ p. test p.1 ≡ true) ls
    → rows_of test (rows_in ls) ≡ rows_in ls
unfolding rows_of
rows_of-kept test [] h = refl
rows_of-kept test (p ∷ ls) h = rw h.0 (ap (λ (rs : List Row). p.1 ∷ rs) (rows_of-kept test ls h.1))

All-weaken :
    {P Q : ℕ × Row → Type 0} (ls : List (ℕ × Row))
    → ((p : ℕ × Row) → P p → Q p)
    → All P ls
    → All Q ls
All-weaken [] f h = tt
All-weaken (p ∷ ls) f h = (f p h.0, All-weaken ls f h.1)

only_one_same :
    (a : Text) (key : Text) (p : ℕ × Row) (ls : List (ℕ × Row))
    → All (λ q. root_of key q.1 ≡ a) (p ∷ ls)
    → only_one (map (root_of key) (rows_in (p ∷ ls))) ≡ some a
unfolding only_one
only_one_same a key p ls h = rw (h.0, same ls h.1) refl
  where
    same :
        (ms : List (ℕ × Row))
        → All (λ q. root_of key q.1 ≡ a) ms
        → all (λ b. text_eq b a) (map (root_of key) (rows_in ms)) ≡ true
    same [] g = refl
    same (q ∷ ms) g = rw (g.0, text_eq_refl a) (same ms g.1)

rows_of-nothing :
    (test : Row → Bool) (ls : List (ℕ × Row))
    → All (λ p. test p.1 ≡ false) ls
    → rows_of test (rows_in ls) ≡ []
unfolding rows_of
rows_of-nothing test [] h = refl
rows_of-nothing test (p ∷ ls) h = rw h.0 (rows_of-nothing test ls h.1)

check_point-okay :
    (rows : List Row) (scenario key a : Text) (ls : List (ℕ × Row))
    → 0 < length ls
    → rows_of (λ r. text_eq r.scenario scenario) rows ≡ rows_in ls
    → All (λ q. root_of key q.1 ≡ a) ls
    → check_point rows scenario key ≡ okay a
unfolding check_point
check_point-okay rows scenario key a [] p e h = absurd (empty p)
  where
    empty : ¬ (0 < 0)
    empty p = omega arith
check_point-okay rows scenario key a (l ∷ ls) p e h =
    rw (check_point, e, only_one_same a key l ls h) refl

first_part :
    (test : Row → Bool) (ls ms : List (ℕ × Row))
    → All (λ p. test p.1 ≡ true) ls
    → All (λ p. test p.1 ≡ false) ms
    → rows_of test (rows_in (ls ++ ms)) ≡ rows_in ls
first_part test ls ms h k =
    rows_of-yes test ls ms h
    ∙ (ap (λ (rs : List Row). rows_in ls ++ rs) (rows_of-nothing test ms k)
        ∙ append-nil (rows_in ls))

second_part :
    (test : Row → Bool) (ls ms : List (ℕ × Row))
    → All (λ p. test p.1 ≡ false) ls
    → All (λ p. test p.1 ≡ true) ms
    → rows_of test (rows_in (ls ++ ms)) ≡ rows_in ms
second_part test ls ms h k = rows_of-no test ls ms h ∙ rows_of-kept test ms k

-- The tests of the driver on a row of either scenario.
module _ (x y : Text) (row : Row) where
  one_is_one :
      IsRow (codes "update1") x y row
      → (text_eq row.scenario (codes "update1") ≡ true)
        × (text_eq row.scenario (codes "update1000") ≡ false)
        × (is_of ssz_specs (codes "update1") row ≡ true)
        × (is_of ssz_specs (codes "update1000") row ≡ false)
  unfolding text_eq
  one_is_one h = rw (h.of_scenario, h.of_impl) (refl, refl, refl, refl)

  two_is_two :
      IsRow (codes "update1000") x y row
      → (text_eq row.scenario (codes "update1") ≡ false)
        × (text_eq row.scenario (codes "update1000") ≡ true)
        × (is_of ssz_specs (codes "update1") row ≡ false)
        × (is_of ssz_specs (codes "update1000") row ≡ true)
  unfolding text_eq
  two_is_two h = rw (h.of_scenario, h.of_impl) (refl, refl, refl, refl)

  roots_are :
      (scenario : Text)
      → IsRow scenario x y row
      → (root_of (codes "root1") row ≡ x) × (root_of (codes "root2") row ≡ y)
  unfolding text_eq
  roots_are scenario h = (h.of_root1, h.of_root2)

-- The rows of the two scenarios, one behind the other.
module _ (x y z : Text) (ls ms : List (ℕ × Row)) where
  abbrev One : Type 0
  One = All (λ p. IsRow (codes "update1") x y p.1) ls

  abbrev Two : Type 0
  Two = All (λ p. IsRow (codes "update1000") x z p.1) ms

  counted_rows :
      One
      → Two
      → (rows_of (is_of ssz_specs (codes "update1")) (rows_in (ls ++ ms)) ≡ rows_in ls)
        × (rows_of (is_of ssz_specs (codes "update1000")) (rows_in (ls ++ ms)) ≡ rows_in ms)
  counted_rows h k = (
    first_part _ ls ms (All-weaken ls (λ p q. (one_is_one x y p.1 q).2) h)
        (All-weaken ms (λ p q. (two_is_two x z p.1 q).2) k),
    second_part _ ls ms (All-weaken ls (λ p q. (one_is_one x y p.1 q).3) h)
        (All-weaken ms (λ p q. (two_is_two x z p.1 q).3) k),
  )

  abbrev agreed : Roots
  agreed = record {
    update1_root1 = x;
    update1_root2 = y;
    update1000_root1 = x;
    update1000_root2 = z;
  }

  agreeing_rows :
      One → Two → 0 < length ls → 0 < length ms → check_roots (rows_in (ls ++ ms)) [] ≡ okay agreed
  unfolding check_roots compare_roots
  agreeing_rows h k p q =
      let one =
        first_part (λ r. text_eq r.scenario (codes "update1")) ls ms
          (All-weaken ls (λ p q. (one_is_one x y p.1 q).0) h)
          (All-weaken ms (λ p q. (two_is_two x z p.1 q).0) k) in
      let two =
        second_part (λ r. text_eq r.scenario (codes "update1000")) ls ms
          (All-weaken ls (λ p q. (one_is_one x y p.1 q).1) h)
          (All-weaken ms (λ p q. (two_is_two x z p.1 q).1) k) in
      let a1 =
        check_point-okay _ _ (codes "root1") x ls p one
          (All-weaken ls (λ p q. (roots_are x y p.1 _ q).0) h) in
      let a2 =
        check_point-okay _ _ (codes "root2") y ls p one
          (All-weaken ls (λ p q. (roots_are x y p.1 _ q).1) h) in
      let b1 =
        check_point-okay _ _ (codes "root1") x ms q two
          (All-weaken ms (λ p q. (roots_are x z p.1 _ q).0) k) in
      let b2 =
        check_point-okay _ _ (codes "root2") z ms q two
          (All-weaken ms (λ p q. (roots_are x z p.1 _ q).1) k) in
      rw (a1, a2, b1, b2, text_eq_refl x) refl

module _ {U B R S : Type 0} (l : Ssz U B R S) (clock : ℕ → ℕ) where
  same_first :
      (data_ : List ℕ) (s t : BeaconState U B R S) {x y : List ℕ}
      → l.deserialize data_ ≡ some s
      → l.deserialize data_ ≡ some t
      → l.hash_tree_root s ≡ some x
      → l.hash_tree_root t ≡ some y
      → y ≡ x
  same_first data_ s t a b c d = cc

  count_of : (n : ℕ) (ls : List (ℕ × Row)) → map (λ p. p.0) ls ≡ range_from 0 n → length ls ≡ n
  count_of n ls h =
      sym (length-map (λ p. p.0) ls) ∙ (ap (λ (ns : List ℕ). length ns) h ∙ length-range_from 0 n)

  -- What the driver makes of the lines of one run with `n` repetitions of each scenario.
  abbrev pub Accepted : ℕ → List (ℕ × Row) → Type 0
  Accepted n lines =
      (length (rows_of (is_of ssz_specs (codes "update1")) (rows_in lines)) ≡ n)
      × (length (rows_of (is_of ssz_specs (codes "update1000")) (rows_in lines)) ≡ n)
      × ((roots : Roots) × (check_roots (rows_in lines) [] ≡ okay roots))

  accept :
      (n : ℕ) (x x' y z : List ℕ) (ls ms lines : List (ℕ × Row))
      → lines ≡ ls ++ ms
      → 0 < n
      → map (λ p. p.0) ls ≡ range_from 0 n
      → map (λ p. p.0) ms ≡ range_from 0 n
      → All (λ p. IsRow (codes "update1") (codes "0x" ++ hex x) (codes "0x" ++ hex y) p.1) ls
      → All (λ p. IsRow (codes "update1000") (codes "0x" ++ hex x') (codes "0x" ++ hex z) p.1) ms
      → x' ≡ x
      → Accepted n lines
  accept n x x' y z ls ms lines e p nums nums' one two same =
      let two' = rw same at two in
      let (a, b) = counted_rows _ _ (codes "0x" ++ hex z) ls ms one two' in
      let n_ls = count_of n ls nums in
      let n_ms = count_of n ms nums' in
      rw e (
        rw a (length-map (λ p. p.1) ls ∙ n_ls),
        rw b (length-map (λ p. p.1) ms ∙ n_ms),
        (
          agreed _ _ (codes "0x" ++ hex z) ls ms,
          agreeing_rows _ _ (codes "0x" ++ hex z) ls ms one two' (omega arith) (omega arith),
        ),
      )

  some-inj : (m n : ℕ) → some m ≡ some n → m ≡ n
  some-inj m n h = cc

  scenarios_run-Accepted :
      (n : ℕ) (data_ : List ℕ) (r v : Run) {code : ℕ}
      → 0 < n
      → r.lines ≡ []
      → scenarios_run l clock n data_ r ≡ (passed code, v)
      → Accepted n v.lines
  unfolding scenarios_run
  scenarios_run-Accepted n data_ r v p start h =
      let (_, w, e, k) =
        >>=-eq-passed (repeat l clock 0 n data_ (codes "update1") (write_one l)) _ r h in
      let (_, u, e', k') =
        >>=-eq-passed (repeat l clock 0 n data_ (codes "update1000") (write_thousand l)) _ w k in
      let (x, y, g) = repeat-IsRun l clock 0 n data_ (codes "update1") (write_one l) r w p e in
      let (x', z, g') =
        repeat-IsRun l clock 0 n data_ (codes "update1000") (write_thousand l) w u p e' in
      let (ls, more, nums, one) =
        repeat-rows l clock 0 n data_ (codes "update1") (write_one l) r w x y g e in
      let (ms, more', nums', two) =
        repeat-rows l clock 0 n data_ (codes "update1000") (write_thousand l) w u x' z g' e' in
      let first =
        same_first data_ g.decoded g'.decoded g.of_data g'.of_data g.of_root1 g'.of_root1 in
      accept n x x' y z ls ms v.lines
        (sym (state_of (λ t. u.lines ≡ t.lines) k' refl)
          ∙ (more'
              ∙ ap (λ (t : List (ℕ × Row)). t ++ ms)
                  (more ∙ ap (λ (t : List (ℕ × Row)). t ++ ls) start)))
        p nums nums' one two first

  -- A run that passes with `n` repetitions, one at least, prints rows that the benchmark's driver
  -- accepts: it counts `n` rows of ssz-specs in each of the two scenarios, and finds one value for
  -- each root, the same first root in both.
  pub main-Accepted :
      (read_file : Text → Option (List ℕ)) (rounds : Text → Option ℕ) (path reps : Text) (n : ℕ)
      (r v : Run)
      → 0 < n
      → rounds reps ≡ some n
      → r.lines ≡ []
      → main l clock read_file rounds (path ∷ reps ∷ []) r ≡ (passed 0, v)
      → Accepted n v.lines
  unfolding main
  main-Accepted read_file rounds path reps n r v p e start h =
      let (data_, o1, k1) = or_raise-passed (read_file path) _ r v h in
      let (m, o2, k2) = or_raise-passed (rounds reps) _ r v k1 in
      let m_n : m ≡ n = some-inj m n (sym o2 ∙ e) in
      scenarios_run-Accepted n data_ r v p start (rw m_n at k2)
