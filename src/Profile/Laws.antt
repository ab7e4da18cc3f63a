-- ===== src/Profile/Laws.antt =====
-- The end of prepare_profile_vector.py's loop, and the order of the paths that it prints.
use etheorem.Common.{
  ℕ, zero, suc, ◌+◌, ◌<◌, ◌≡◌, ◌≢◌, refl, ap, sym, inl, inr, Bool, true, false, Option, none, some,
  List, [], ◌∷◌, ◌++◌, map, Text, codes, join, range_from, All, Bool-cases, Option-cases, arith,
}
use etheorem.Common.Action.{
  Action, Keeps, Keeps->>=, pure, or_raise, ◌>>=◌, >>=-eq-passed, state_of,
}
use etheorem.Common.Outcome.{Outcome, passed, exits, raised}
use etheorem.Profile.{
  Files, World, block_name, pre_name, is_some, add, on_disk, target, decompress, blocks, finish,
  print, print_err, prepare, run_case, main,
}

module _ {D : Type 0} (f : Files D) where
  abbrev pub has_block : ℕ → Bool
  has_block index = is_some (f.case_file (block_name index))

  pure-passes :
      {A : Type 0} {a b : A} {w v : World D} → pure {W = World D} a w ≡ (passed b, v) → a ≡ b
  pure-passes {a = a} h =
      ap (λ (p : Outcome _ × World D). elim p.0 [ passed c ↦ c | exits t ↦ a | raised ↦ a ]) h

  add-none : (path : Text) (o : Option (List Text)) → add path o ≡ none → o ≡ none
  add-none path none h = refl
  add-none path (some paths) h = cc

  add-some :
      (path : Text) (o : Option (List Text)) (ps : List Text)
      → add path o ≡ some ps
      → (qs : List Text) × (o ≡ some qs) × (ps ≡ path ∷ qs)
  add-some path none ps h = cc
  add-some path (some qs) ps h = (qs, refl, cc)

  -- One more round of the loop that returned.
  blocks_more :
      (fuel index : ℕ) (out_dir : Text) (w v : World D) {o : Option (List Text)}
      → has_block index ≡ true
      → blocks f (suc fuel) index out_dir w ≡ (passed o, v)
      → (path : Text) × (rest : Option (List Text)) × (x : World D) × (y : World D) × (z : World D)
        × (decompress f out_dir (block_name index) x ≡ (passed path, y))
        × (blocks f fuel (suc index) out_dir y ≡ (passed rest, z))
        × (add path rest ≡ o)
  unfolding blocks
  blocks_more fuel index out_dir w v e h =
      let g = rw e at h in
      let (path, y, k, l) = >>=-eq-passed (decompress f out_dir (block_name index)) _ w g in
      let (rest, z, m, n) = >>=-eq-passed (blocks f fuel (suc index) out_dir) _ y l in
      (path, rest, w, y, z, k, m, pure-passes n)

  -- The last round.
  blocks_stop :
      (fuel index : ℕ) (out_dir : Text) (w v : World D) {o : Option (List Text)}
      → has_block index ≡ false
      → blocks f (suc fuel) index out_dir w ≡ (passed o, v)
      → some [] ≡ o
  unfolding blocks
  blocks_stop fuel index out_dir w v e h = let g = rw e at h in pure-passes {w = w} {v = v} g

  some_ne : (ps : List Text) → some ps ≢ none
  some_ne ps h = cc

  blocks_end :
      (fuel index k : ℕ) (out_dir : Text) (w v : World D)
      → k < fuel
      → has_block (index + k) ≡ false
      → blocks f fuel index out_dir w ≢ (passed none, v)
  blocks_end zero index k out_dir w v h m e = omega arith
  blocks_end (suc fuel) index zero out_dir w v h m e =
      let here : index + 0 ≡ index = omega arith in
      some_ne [] (blocks_stop fuel index out_dir w v (rw here at m) e)
  blocks_end (suc fuel) index (suc k) out_dir w v h m e = elim (Bool-cases (has_block index)) [
    | inr g ↦ some_ne [] (blocks_stop fuel index out_dir w v g e)
    | inl g ↦
        let (path, rest, x, y, z, d, b, n) = blocks_more fuel index out_dir w v g e in
        let next : index + suc k ≡ suc index + k = omega arith in
        blocks_end fuel (suc index) k out_dir y z (omega arith) (rw next at m)
          (rw (add-none path rest n) at b)
  ]

  none_ne : (ps : List Text) → none ≢ some ps
  none_ne ps h = cc

  some_eq : (ps qs : List Text) → some ps ≡ some qs → ps ≡ qs
  some_eq ps qs h = cc

  decompress-path :
      (out_dir name : Text) (w v : World D) {path : Text}
      → decompress f out_dir name w ≡ (passed path, v)
      → path ≡ target f out_dir name
  unfolding decompress
  decompress-path out_dir name w v h =
      let (src, x, e, k) = >>=-eq-passed (or_raise (f.case_file name)) _ w h in
      let (raw, y, e', k') = >>=-eq-passed (or_raise (f.decompress_raw src)) _ x k in
      let (_, z, e'', k'') = >>=-eq-passed (on_disk f _) _ y k' in
      sym (pure-passes {w = z} {v = v} k'')

  -- The paths are the targets of the blocks in index order, up to the first that is missing.
  blocks_paths :
      (fuel index : ℕ) (out_dir : Text) (w v : World D) (ps : List Text)
      → blocks f fuel index out_dir w ≡ (passed (some ps), v)
      → (k : ℕ) × (ps ≡ map (λ i. target f out_dir (block_name i)) (range_from index k))
        × (has_block (index + k) ≡ false)
        × All (λ i. has_block i ≡ true) (range_from index k)
  unfolding blocks
  blocks_paths zero index out_dir w v ps h = absurd (none_ne ps (pure-passes {w = w} {v = v} h))
  blocks_paths (suc fuel) index out_dir w v ps h = elim (Bool-cases (has_block index)) [
    | inr g ↦
        let none_left = some_eq [] ps (blocks_stop fuel index out_dir w v g h) in
        let here : index + 0 ≡ index = omega arith in (0, sym none_left, rw here g, tt)
    | inl g ↦
        let (path, rest, x, y, z, d, b, n) = blocks_more fuel index out_dir w v g h in
        let (qs, r, p) = add-some path rest ps n in
        let (k, l, m, a) = blocks_paths fuel (suc index) out_dir y z qs (rw r at b) in
        let next : index + suc k ≡ suc index + k = omega arith in
        (suc k, rw (p, decompress-path out_dir _ x y d, l) refl, rw next m, (g, a))
  ]

  abbrev Prints : List Text → World D → Type 0
  Prints lines w = w.out ≡ lines

  on_disk-Keeps :
      (lines : List Text) (change : D → Option D) → Keeps (Prints lines) (on_disk f change)
  unfolding on_disk Keeps
  on_disk-Keeps lines change w h = elim (Option-cases (change w.disk)) [
    | inl e ↦ rw (on_disk, e) h
    | inr (d, e) ↦ rw (on_disk, e) h
  ]

  or_raise-Keeps :
      {A : Type 0} (lines : List Text) (o : Option A) → Keeps (Prints lines) (or_raise o)
  unfolding Keeps
  or_raise-Keeps lines none w h = h
  or_raise-Keeps lines (some a) w h = h

  pure-Keeps : {A : Type 0} (lines : List Text) (a : A) → Keeps (Prints lines) (pure a)
  unfolding Keeps
  pure-Keeps lines a w h = h

  decompress-Keeps :
      (lines : List Text) (out_dir name : Text) → Keeps (Prints lines) (decompress f out_dir name)
  unfolding decompress
  decompress-Keeps lines out_dir name =
      Keeps->>= (Prints lines) _ _ (or_raise-Keeps lines _) (λ src.
        Keeps->>= (Prints lines) _ _ (or_raise-Keeps lines _)
          (λ raw. Keeps->>= (Prints lines) _ _ (on_disk-Keeps lines _) (λ _. pure-Keeps lines _)))

  blocks-Keeps :
      (fuel index : ℕ) (lines : List Text) (out_dir : Text)
      → Keeps (Prints lines) (blocks f fuel index out_dir)
  unfolding blocks
  blocks-Keeps zero index lines out_dir = pure-Keeps lines none
  blocks-Keeps (suc fuel) index lines out_dir = elim (Bool-cases (has_block index)) [
    | inl e ↦ rw e (
        Keeps->>= (Prints lines) _ _ (decompress-Keeps lines out_dir _) (λ path.
          Keeps->>= (Prints lines) _ _ (blocks-Keeps fuel (suc index) lines out_dir)
            (λ rest. pure-Keeps lines (add path rest))))
    | inr e ↦ rw e (pure-Keeps lines (some []))
  ]

  finish-printed :
      (first : Text) (o : Option (List Text)) (w v : World D)
      → finish f first o w ≡ (passed (some 0), v)
      → (ps : List Text) × (o ≡ some ps) × (v.out ≡ w.out ++ join (codes " ") (first ∷ ps) ∷ [])
  unfolding finish print ◌>>=◌
  finish-printed first none w v h = cc
  finish-printed first (some ps) w v h =
      (ps, refl, state_of (Prints (w.out ++ join (codes " ") (first ∷ ps) ∷ [])) h refl)

  kept :
      {A : Type 0} (m : Action (World D) A) {a : A} (w v : World D)
      → m w ≡ (passed a, v)
      → Keeps (Prints w.out) m
      → v.out ≡ w.out
  unfolding Keeps
  kept m w v e h = state_of (Prints w.out) e (h w refl)

  -- What is returned behind a step.
  returned :
      {A : Type 0} (m : Action (World D) (Unit {0})) (a b : A) (w v : World D)
      → (m >>= λ _. pure a) w ≡ (passed b, v)
      → a ≡ b
  returned m a b w v h = let (_, x, e, k) = >>=-eq-passed m _ w h in pure-passes {w = x} {v = v} k

  status_ne : (n : ℕ) → n ≢ 0 → (b : Option ℕ) → b ≡ some 0 → some n ≢ b
  status_ne n h b e k = h (cc)

  no_status : (n : ℕ) (b : Option ℕ) → b ≡ none → some n ≢ b
  no_status n b e k = cc

  line_eq :
      {a b c d : List Text} {first t : Text} {ps qs : List Text}
      → a ≡ b ++ join (codes " ") (first ∷ ps) ∷ []
      → b ≡ c
      → c ≡ d
      → first ≡ t
      → ps ≡ qs
      → a ≡ d ++ join (codes " ") (t ∷ qs) ∷ []
  line_eq h e f g k = rw (h, e, f, g, k) refl

  prepare-printed :
      (fuel : ℕ) (out_dir : Text) (w v : World D)
      → prepare f fuel out_dir w ≡ (passed (some 0), v)
      → (k : ℕ) × (has_block k ≡ false)
        × All (λ i. has_block i ≡ true) (range_from 0 k)
        × (v.out
            ≡ w.out
              ++ join (codes " ") (
                  target f out_dir pre_name
                  ∷ map (λ i. target f out_dir (block_name i)) (range_from 0 k))
                ∷ [])
  unfolding prepare
  prepare-printed fuel out_dir w v h =
      let (first, x, e, k) = >>=-eq-passed (decompress f out_dir pre_name) _ w h in
      let (rest, y, e', k') = >>=-eq-passed (blocks f fuel 0 out_dir) _ x k in
      let (ps, o, printed) = finish-printed first rest y v k' in
      let (n, l, m, a) = blocks_paths fuel 0 out_dir x y ps (rw o at e') in
      let name = decompress-path out_dir pre_name w x e in
      let same = kept _ w x e (decompress-Keeps w.out out_dir pre_name) in
      let same' = kept _ x y e' (blocks-Keeps fuel 0 x.out out_dir) in
      let zero_n : 0 + n ≡ n = omega arith in
      (n, rw zero_n at m, a, line_eq printed same' same name l)

  finish_ends :
      (first : Text) (o : Option (List Text)) (w v : World D)
      → finish f first o w ≡ (passed none, v)
      → o ≡ none
  unfolding finish
  finish_ends first none w v h = refl
  finish_ends first (some ps) w v h =
      absurd (no_status 0 none refl (returned (print f _) (some 0) none w v h))

  prepare_ends :
      (fuel k : ℕ) (out_dir : Text) (w v : World D)
      → k < fuel
      → has_block k ≡ false
      → prepare f fuel out_dir w ≢ (passed none, v)
  unfolding prepare
  prepare_ends fuel k out_dir w v h m e =
      let (first, x, e1, k1) = >>=-eq-passed (decompress f out_dir pre_name) _ w e in
      let (rest, y, e2, k2) = >>=-eq-passed (blocks f fuel 0 out_dir) _ x k1 in
      let zero_k : 0 + k ≡ k = omega arith in
      blocks_end fuel 0 k out_dir x y h (rw zero_k m) (rw (finish_ends first rest y v k2) at e2)

  -- With fuel for one round more than there are blocks without a gap, the loop ends: no run is left
  -- without an exit status, a printed line or an exception.
  pub main_ends :
      (fuel k : ℕ) (doc : Text) (argv : List Text) (w v : World D)
      → k < fuel
      → has_block k ≡ false
      → main f fuel doc argv w ≢ (passed none, v)
  unfolding main run_case
  main_ends fuel k doc [] w v h m e =
      no_status 2 none refl (returned (print_err f doc) (some 2) none w v e)
  main_ends fuel k doc (a ∷ []) w v h m e =
      no_status 2 none refl (returned (print_err f doc) (some 2) none w v e)
  main_ends fuel k doc (a ∷ b ∷ []) w v h m e =
      no_status 2 none refl (returned (print_err f doc) (some 2) none w v e)
  main_ends fuel k doc (a ∷ b ∷ c ∷ d ∷ argv) w v h m e =
      no_status 2 none refl (returned (print_err f doc) (some 2) none w v e)
  main_ends fuel k doc (script ∷ case_dir ∷ out_dir ∷ []) w v h m e =
      let (_, x, e', k') = >>=-eq-passed (on_disk f f.mkdir) _ w e in
      elim (Bool-cases (is_some (f.case_file pre_name))) [
        | inl g ↦ prepare_ends fuel k out_dir x v h m (rw g at k')
        | inr g ↦ no_status 1 none refl (returned (print_err f _) (some 1) none x v (rw g at k'))
      ]

  -- A run with status 0 printed one line: the path of the pre-state, then the paths of the blocks
  -- `0, …, k - 1` in index order, where these are files and block `k` is not.
  pub main_prints :
      (fuel : ℕ) (doc script case_dir out_dir : Text) (w v : World D)
      → main f fuel doc (script ∷ case_dir ∷ out_dir ∷ []) w ≡ (passed (some 0), v)
      → (k : ℕ) × (has_block k ≡ false)
        × All (λ i. has_block i ≡ true) (range_from 0 k)
        × (v.out
            ≡ w.out
              ++ join (codes " ") (
                  target f out_dir pre_name
                  ∷ map (λ i. target f out_dir (block_name i)) (range_from 0 k))
                ∷ [])
  unfolding main run_case
  main_prints fuel doc script case_dir out_dir w v h =
      let (_, x, e, k) = >>=-eq-passed (on_disk f f.mkdir) _ w h in
      let same = kept _ w x e (on_disk-Keeps w.out f.mkdir) in
      elim (Bool-cases (is_some (f.case_file pre_name))) [
        | inl g ↦ rw (sym same) (prepare-printed fuel out_dir x v (rw g at k))
        | inr g ↦ absurd (
            status_ne 1 (λ q. omega arith) (some 0) refl
              (returned (print_err f _) (some 1) (some 0) x v (rw g at k)))
      ]
