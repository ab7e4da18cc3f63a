-- ===== src/Blake/Bounds.antt =====
-- The state of gen_vectors.py keeps its shape: sixteen words below 2 ^ 64 in every round.
use Prim.Native.Nat.{bit_xor}
use etheorem.Common.{
  ℕ, zero, suc, ◌+◌, ◌%◌, ◌≡◌, refl, ◌∙◌, Bool, true, false, List, [], ◌++◌, map, All, All-set,
  All-get_or, All-append, get_or, set, length, length-set, length-append, range_from, if◌then◌else◌,
  arith,
}
use etheorem.Common.Bits.{bit_xor-lt}
use etheorem.Blake.{iv, mask, sigma, at, add_word, add, xor_rotr, g, round, rounds_loop, start, f}
use etheorem.Blake.Words.{IsWord, rotr-IsWord}

abbrev pub Words : List ℕ → Type 0
Words = All IsWord

-- A state of the compression: sixteen words.
pub record IsState (v : List ℕ) : Type 0 where
  pub sixteen : length v ≡ 16
  pub words : Words v

pub at-IsWord : (v : List ℕ) (i : ℕ) → Words v → IsWord (at v i)
at-IsWord v i h = All-get_or IsWord v i 0 h (omega arith)

pub xor-IsWord : (a b : ℕ) → IsWord a → IsWord b → IsWord (bit_xor a b)
xor-IsWord a b p q = bit_xor-lt 64 a b p q

pub set-IsState : (v : List ℕ) (i w : ℕ) → IsState v → IsWord w → IsState (set v i w)
set-IsState v i w s h = record {
  sixteen = length-set v i w ∙ s.sixteen;
  words = All-set IsWord v i w s.words h;
}

pub add_word-IsState : (v : List ℕ) (i j x : ℕ) → IsState v → IsState (add_word v i j x)
unfolding add_word
add_word-IsState v i j x s = set-IsState v i _ s (omega arith)

pub add-IsState : (v : List ℕ) (i j : ℕ) → IsState v → IsState (add v i j)
unfolding add
add-IsState v i j s = set-IsState v i _ s (omega arith)

pub xor_rotr-IsState : (v : List ℕ) (i j n : ℕ) → IsState v → IsState (xor_rotr v i j n)
unfolding xor_rotr
xor_rotr-IsState v i j n s = set-IsState v i _ s (rotr-IsWord _ n)

pub g-IsState : (v : List ℕ) (a b c d x y : ℕ) → IsState v → IsState (g v a b c d x y)
unfolding g
g-IsState v a b c d x y s =
    let s1 = add_word-IsState v a b x s in
    let s2 = xor_rotr-IsState _ d a 32 s1 in
    let s3 = add-IsState _ c d s2 in
    let s4 = xor_rotr-IsState _ b c 24 s3 in
    let s5 = add_word-IsState _ a b y s4 in
    let s6 = xor_rotr-IsState _ d a 16 s5 in xor_rotr-IsState _ b c 63 (add-IsState _ c d s6)

pub round-IsState : (m s v : List ℕ) → IsState v → IsState (round m s v)
unfolding round
round-IsState m s v h =
    let h4 =
      g-IsState _ 3 7 11 15 _ _
        (g-IsState _ 2 6 10 14 _ _ (g-IsState _ 1 5 9 13 _ _ (g-IsState v 0 4 8 12 _ _ h))) in
    g-IsState _ 3 4 9 14 _ _
      (g-IsState _ 2 7 8 13 _ _ (g-IsState _ 1 6 11 12 _ _ (g-IsState _ 0 5 10 15 _ _ h4)))

pub rounds_loop-IsState :
    (m : List ℕ) (left r : ℕ) (v : List ℕ) → IsState v → IsState (rounds_loop m left r v)
unfolding rounds_loop
rounds_loop-IsState m zero r v h = h
rounds_loop-IsState m (suc left) r v h =
    rounds_loop-IsState m left (suc r) _ (round-IsState m (get_or sigma (r % 10) []) v h)

-- The state before the first round, of a chaining value and two counter words.
pub start-IsState :
    (h : List ℕ) (t0 t1 : ℕ) (last : Bool)
    → length h ≡ 8
    → Words h
    → IsWord t0
    → IsWord t1
    → IsState (start h t0 t1 last)
unfolding start
start-IsState h t0 t1 last eight wh w0 w1 =
    let v0 : IsState (h ++ iv) = record {
      sixteen = omega (arith, length-append h iv);
      words = All-append IsWord h iv wh (omega arith);
    } in
    let v1 = set-IsState _ 12 _ v0 (xor-IsWord _ t0 (at-IsWord _ 12 v0.words) w0) in
    let v2 = set-IsState _ 13 _ v1 (xor-IsWord _ t1 (at-IsWord _ 13 v1.words) w1) in
    let v3 = set-IsState _ 14 _ v2 (xor-IsWord _ mask (at-IsWord _ 14 v2.words) (omega arith)) in
    by_flag last _ _ v3 v2
  where
    by_flag : (b : Bool) (x y : List ℕ) → IsState x → IsState y → IsState (if b then x else y)
    by_flag true x y p q = p
    by_flag false x y p q = q

module _ (h v : List ℕ) (wh : Words h) (wv : Words v) where
  output-Words :
      (i n : ℕ)
      → Words (map (λ k. bit_xor (bit_xor (at h k) (at v k)) (at v (8 + k))) (range_from i n))
  output-Words i zero = tt
  output-Words i (suc n) = (
    xor-IsWord _ _ (xor-IsWord _ _ (at-IsWord h i wh) (at-IsWord v i wv)) (at-IsWord v (8 + i) wv),
    output-Words (suc i) n,
  )

-- The compression of eight words with counters below 2 ^ 64 gives eight words below 2 ^ 64,
-- whatever the block, the flag and the number of rounds.
pub f_bounds :
    (h m : List ℕ) (t0 t1 : ℕ) (last : Bool) (rounds : ℕ)
    → length h ≡ 8
    → Words h
    → IsWord t0
    → IsWord t1
    → (length (f h m t0 t1 last rounds) ≡ 8) × Words (f h m t0 t1 last rounds)
unfolding f
f_bounds h m t0 t1 last rounds eight wh w0 w1 =
    let v = rounds_loop-IsState m rounds 0 _ (start-IsState h t0 t1 last eight wh w0 w1) in
    (refl, output-Words h _ wh v.words 0 8)
