-- ===== src/SszHarness/Rows.antt =====
-- The rows that one run of the harness prints, read by the checks of the benchmark's driver.
use etheorem.Common.{
  ℕ, zero, suc, ◌<◌, ◌≡◌, refl, ap, sym, ◌∙◌, true, Option, none, some, List, [], ◌∷◌, ◌++◌, map,
  append_assoc, append-nil, Text, codes, text_eq, text_eq_refl, all, range_from, All, arith,
}
use etheorem.Common.Action.{Action, ◌>>=◌, >>=-eq-passed, state_of}
use etheorem.Common.Outcome.{passed}
use etheorem.Common.Strings.Digits.{hex}
use etheorem.Bench.{Row}
use etheorem.SszHarness.{Run, ssz_specs, tick, timed, emit, run_once, repeat}
use etheorem.SszHarness.Writes.{Ssz, BeaconState}

-- What is the same in all rows of a scenario.
pub record IsRow (scenario root1 root2 : Text) (row : Row) : Type 0 where
  pub of_impl : row.impl ≡ ssz_specs
  pub of_scenario : row.scenario ≡ scenario
  pub of_root1 : row.root1 ≡ root1
  pub of_root2 : row.root2 ≡ root2

only_one_same : (a : Text) (xs : List Text) → All (λ x. x ≡ a) xs → all (λ b. text_eq b a) xs ≡ true
only_one_same a [] h = refl
only_one_same a (x ∷ xs) h = rw (h.0, text_eq_refl a) (only_one_same a xs h.1)

module _ {U B R S : Type 0} (l : Ssz U B R S) (clock : ℕ → ℕ) where
  -- The lines are those of before and these.
  Added : Run → List (ℕ × Row) → Run → Type 0
  Added r ls v = v.lines ≡ r.lines ++ ls

  -- A phase that passes, and what follows it.
  timed-then :
      {A C : Type 0} {P : Type 0} (o : Option A) (k : A × ℕ → Action Run C) (r v : Run) {c : C}
      → (timed clock o >>= k) r ≡ (passed c, v)
      → ((a : A) (t : ℕ) (w : Run)
          → o ≡ some a
          → w.lines ≡ r.lines
          → k (a, t) w ≡ (passed c, v)
          → P)
      → P
  unfolding timed tick ◌>>=◌
  timed-then none k r v h f = cc
  timed-then (some a) k r v h f = f a (clock r.readings) _ refl refl h

  tick-then :
      {C : Type 0} {P : Type 0} (k : ℕ → Action Run C) (r v : Run) {c : C}
      → (tick clock >>= k) r ≡ (passed c, v)
      → ((t : ℕ) (w : Run) → w.lines ≡ r.lines → k t w ≡ (passed c, v) → P)
      → P
  unfolding tick ◌>>=◌
  tick-then k r v h f = f (clock r.readings) _ refl h

  emit-line :
      (rep : ℕ) (row : Row) (r v : Run) (ls : List (ℕ × Row)) {a : Unit {0}}
      → emit rep row r ≡ (passed a, v)
      → r.lines ≡ ls
      → v.lines ≡ ls ++ (rep, row) ∷ []
  unfolding emit
  emit-line rep row r v ls h e = state_of (λ w. w.lines ≡ ls ++ (rep, row) ∷ []) h (rw e refl)

  -- The options of one repetition, the same for all repetitions of a scenario.
  pub record IsRun (data_ : List ℕ) (write : BeaconState U B R S → Option (BeaconState U B R S))
      (x y : List ℕ) : Type 0 where
    pub decoded : BeaconState U B R S
    pub written : BeaconState U B R S
    pub of_data : l.deserialize data_ ≡ some decoded
    pub of_root1 : l.hash_tree_root decoded ≡ some x
    pub of_write : write decoded ≡ some written
    pub of_root2 : l.hash_tree_root written ≡ some y

  same_roots :
      (data_ : List ℕ) (write : BeaconState U B R S → Option (BeaconState U B R S))
      {x y x' y' : List ℕ} (s s' t t' : BeaconState U B R S)
      → l.deserialize data_ ≡ some s
      → l.deserialize data_ ≡ some s'
      → l.hash_tree_root s ≡ some x
      → l.hash_tree_root s' ≡ some x'
      → write s ≡ some t
      → write s' ≡ some t'
      → l.hash_tree_root t ≡ some y
      → l.hash_tree_root t' ≡ some y'
      → (x ≡ x') × (y ≡ y')
  same_roots data_ write s s' t t' a b c d e f g h = (cc, cc)

  IsRun-unique :
      (data_ : List ℕ) (write : BeaconState U B R S → Option (BeaconState U B R S))
      {x y x' y' : List ℕ}
      → IsRun data_ write x y
      → IsRun data_ write x' y'
      → (x ≡ x') × (y ≡ y')
  IsRun-unique data_ write g h =
      same_roots data_ write g.decoded h.decoded g.written h.written g.of_data h.of_data g.of_root1
        h.of_root1 g.of_write h.of_write g.of_root2 h.of_root2

  IsRow-same :
      (scenario : Text) {x y x' y' : List ℕ} (row : Row)
      → (x ≡ x') × (y ≡ y')
      → IsRow scenario (codes "0x" ++ hex x) (codes "0x" ++ hex y) row
      → IsRow scenario (codes "0x" ++ hex x') (codes "0x" ++ hex y') row
  IsRow-same scenario row (e, f) h = record {
    of_impl = h.of_impl;
    of_scenario = h.of_scenario;
    of_root1 = rw (sym e) h.of_root1;
    of_root2 = rw (sym f) h.of_root2;
  }

  run_once-row :
      (data_ : List ℕ) (scenario : Text) (rep : ℕ)
      (write : BeaconState U B R S → Option (BeaconState U B R S)) (r v : Run) {a : Unit {0}}
      → run_once l clock data_ scenario rep write r ≡ (passed a, v)
      → (x y : List ℕ) × (row : Row) × IsRun data_ write x y
        × (v.lines ≡ r.lines ++ (rep, row) ∷ [])
        × IsRow scenario (codes "0x" ++ hex x) (codes "0x" ++ hex y) row
  unfolding run_once
  run_once-row data_ scenario rep write r v h = tick-then _ r v h (λ t0 r1 l1 h1.
      timed-then (l.deserialize data_) _ r1 v h1 (λ s t1 r2 e2 l2 h2.
        timed-then (l.hash_tree_root s) _ r2 v h2 (λ x t2 r3 e3 l3 h3.
          timed-then (write s) _ r3 v h3 (λ w t3 r4 e4 l4 h4.
            timed-then (l.hash_tree_root w) _ r4 v h4 (λ y t4 r5 e5 l5 h5. (
              x,
              y,
              _,
              record {
                decoded = s;
                written = w;
                of_data = e2;
                of_root1 = e3;
                of_write = e4;
                of_root2 = e5;
              },
              emit-line rep _ r5 v r.lines h5 (l5 ∙ (l4 ∙ (l3 ∙ (l2 ∙ l1)))),
              record { of_impl = refl; of_scenario = refl; of_root1 = refl; of_root2 = refl },
            ))))))

  -- The rows of a scenario's repetitions, where there are any.
  pub repeat-rows :
      (rep count : ℕ) (data_ : List ℕ) (scenario : Text)
      (write : BeaconState U B R S → Option (BeaconState U B R S)) (r v : Run) {a : Unit {0}}
      (x y : List ℕ)
      → IsRun data_ write x y
      → repeat l clock rep count data_ scenario write r ≡ (passed a, v)
      → (ls : List (ℕ × Row)) × (v.lines ≡ r.lines ++ ls)
        × (map (λ p. p.0) ls ≡ range_from rep count)
        × All (λ p. IsRow scenario (codes "0x" ++ hex x) (codes "0x" ++ hex y) p.1) ls
  unfolding repeat
  repeat-rows rep zero data_ scenario write r v x y g h =
      ([], state_of (λ w. w.lines ≡ r.lines ++ []) h (sym (append-nil r.lines)), refl, tt)
  repeat-rows rep (suc count) data_ scenario write r v x y g h =
      let (_, w, e, k) = >>=-eq-passed (run_once l clock data_ scenario rep write) _ r h in
      let (x', y', row, g', line, is) = run_once-row data_ scenario rep write r w e in
      let (ls, more, nums, rows) = repeat-rows (suc rep) count data_ scenario write w v x y g k in
      (
        (rep, row) ∷ ls,
        more
            ∙ (ap (λ (t : List (ℕ × Row)). t ++ ls) line
                ∙ append_assoc r.lines ((rep, row) ∷ []) ls),
        ap (λ (ns : List ℕ). rep ∷ ns) nums,
        (IsRow-same scenario row (IsRun-unique data_ write g' g) is, rows),
      )

  not_positive : ¬ (0 < 0)
  not_positive h = omega arith

  pub repeat-IsRun :
      (rep count : ℕ) (data_ : List ℕ) (scenario : Text)
      (write : BeaconState U B R S → Option (BeaconState U B R S)) (r v : Run) {a : Unit {0}}
      → 0 < count
      → repeat l clock rep count data_ scenario write r ≡ (passed a, v)
      → (x y : List ℕ) × IsRun data_ write x y
  unfolding repeat
  repeat-IsRun rep zero data_ scenario write r v p h = absurd (not_positive p)
  repeat-IsRun rep (suc count) data_ scenario write r v p h =
      let (_, w, e, k) = >>=-eq-passed (run_once l clock data_ scenario rep write) _ r h in
      let (x, y, row, g, line, is) = run_once-row data_ scenario rep write r w e in (x, y, g)
