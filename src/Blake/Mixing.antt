-- ===== src/Blake/Mixing.antt =====
-- The rounds of `f` in gen_vectors.py can be undone: `g` mixes four words of the state without
-- losing any of it. Each assignment of `g` is undone by one of the two below.
use Prim.Native.Nat.{bit_xor}
use etheorem.Common.{
  ℕ, zero, suc, ◌+◌, ◌-◌, ◌%◌, ◌^◌, ◌<◌, ◌≡◌, ◌≢◌, sym, ap, ◌∙◌, List, [], get_or, set,
  get_or-set_self, get_or-set_ne, set-set, set-get_or, arith,
}
use etheorem.Common.Bits.{bit_xor_twice}
use etheorem.Blake.{at, sigma, rotr, add_word, add, xor_rotr, g, round, rounds_loop}
use etheorem.Blake.Words.{IsWord, rotr_inverse}
use etheorem.Blake.Bounds.{
  Words, IsState, at-IsWord, xor-IsWord, add_word-IsState, add-IsState, xor_rotr-IsState, g-IsState,
  round-IsState,
}

-- `v[i] = (v[i] - v[j] - x) mod 2 ^ 64`, with a multiple of the modulus added first.
unfoldable pub sub_word : List ℕ → ℕ → ℕ → ℕ → List ℕ
sub_word v i j x = set v i ((at v i + (2 ^ 65 - (at v j + x))) % 2 ^ 64)

unfoldable pub unrotr_xor : List ℕ → ℕ → ℕ → ℕ → List ℕ
unrotr_xor v i j n = set v i (bit_xor (rotr (at v i) (64 - n)) (at v j))

-- A write at `i` that is undone by a write of the old value.
restore : (v : List ℕ) (i w u : ℕ) → u ≡ at v i → set (set v i w) i u ≡ v
restore v i w u e = rw (set-set v i w u, e) (set-get_or v i 0)

sub_mod :
    (a b x : ℕ)
    → IsWord a
    → IsWord b
    → IsWord x
    → ((a + b + x) % 2 ^ 64 + (2 ^ 65 - (b + x))) % 2 ^ 64 ≡ a
sub_mod a b x p q r = omega arith

module _ (v : List ℕ) (i j : ℕ) (s : IsState v) (inside : i < 16) (apart : i ≢ j) where
  at_self : (w : ℕ) → at (set v i w) i ≡ w
  at_self w = get_or-set_self v i w 0 (rw s.sixteen inside)

  at_other : (w : ℕ) → at (set v i w) j ≡ at v j
  at_other w = get_or-set_ne v i j w 0 apart

  sub_word-add_word : (x : ℕ) → IsWord x → sub_word (add_word v i j x) i j x ≡ v
  unfolding sub_word add_word
  sub_word-add_word x h = restore v i _ _ (
      rw (at_self ((at v i + at v j + x) % 2 ^ 64), at_other ((at v i + at v j + x) % 2 ^ 64))
        (sub_mod (at v i) (at v j) x (at-IsWord v i s.words) (at-IsWord v j s.words) h))

  sub_word-add : sub_word (add v i j) i j 0 ≡ v
  unfolding sub_word add
  sub_word-add = restore v i _ _ (
      rw (at_self ((at v i + at v j) % 2 ^ 64), at_other ((at v i + at v j) % 2 ^ 64))
        (omega (arith, at-IsWord v i s.words, at-IsWord v j s.words)))

  unrotr_xor-xor_rotr : (n : ℕ) → n + (64 - n) ≡ 64 → unrotr_xor (xor_rotr v i j n) i j n ≡ v
  unfolding unrotr_xor xor_rotr
  unrotr_xor-xor_rotr n sum =
      let wi = at-IsWord v i s.words in
      let wj = at-IsWord v j s.words in
      let mixed = bit_xor (at v i) (at v j) in
      restore v i _ _ (
        rw
          (
            at_self (rotr mixed n),
            at_other (rotr mixed n),
            rotr_inverse n (64 - n) mixed sum (xor-IsWord _ _ wi wj),
          )
          (bit_xor_twice 64 (at v i) (at v j) wi wj))

-- `g`, run backwards.
unfoldable pub ung : List ℕ → ℕ → ℕ → ℕ → ℕ → ℕ → ℕ → List ℕ
ung v a b c d x y =
    let v7 = unrotr_xor v b c 63 in
    let v6 = sub_word v7 c d 0 in
    let v5 = unrotr_xor v6 d a 16 in
    let v4 = sub_word v5 a b y in
    let v3 = unrotr_xor v4 b c 24 in
    let v2 = sub_word v3 c d 0 in let v1 = unrotr_xor v2 d a 32 in sub_word v1 a b x

-- The four positions of a call of `g` lie in the state and are apart where `g` reads another.
pub record IsQuad (a b c d : ℕ) : Type 0 where
  pub in_a : a < 16
  pub in_b : b < 16
  pub in_c : c < 16
  pub in_d : d < 16
  pub a_b : a ≢ b
  pub d_a : d ≢ a
  pub c_d : c ≢ d
  pub b_c : b ≢ c

-- `g` with two message words, on a state of sixteen words and at four positions that lie in it
-- and are apart, is undone by `ung`.
pub ung-g :
    (v : List ℕ) (a b c d x y : ℕ)
    → IsState v
    → IsQuad a b c d
    → IsWord x
    → IsWord y
    → ung (g v a b c d x y) a b c d x y ≡ v
unfolding ung g
ung-g v a b c d x y s q hx hy =
    let s1 = add_word-IsState v a b x s in
    let s2 = xor_rotr-IsState _ d a 32 s1 in
    let s3 = add-IsState _ c d s2 in
    let s4 = xor_rotr-IsState _ b c 24 s3 in
    let s5 = add_word-IsState _ a b y s4 in
    let s6 = xor_rotr-IsState _ d a 16 s5 in
    let s7 = add-IsState _ c d s6 in
    rw
      (
        unrotr_xor-xor_rotr _ b c s7 q.in_b q.b_c 63 (omega arith),
        sub_word-add _ c d s6 q.in_c q.c_d,
        unrotr_xor-xor_rotr _ d a s5 q.in_d q.d_a 16 (omega arith),
        sub_word-add_word _ a b s4 q.in_a q.a_b y hy,
        unrotr_xor-xor_rotr _ b c s3 q.in_b q.b_c 24 (omega arith),
        sub_word-add _ c d s2 q.in_c q.c_d,
        unrotr_xor-xor_rotr _ d a s1 q.in_d q.d_a 32 (omega arith),
      )
      (sub_word-add_word v a b s q.in_a q.a_b x hx)

-- Two states that a call of `g` takes to one state are equal.
g_injective :
    (v w : List ℕ) (a b c d x y : ℕ)
    → IsState v
    → IsState w
    → IsQuad a b c d
    → IsWord x
    → IsWord y
    → g v a b c d x y ≡ g w a b c d x y
    → v ≡ w
g_injective v w a b c d x y sv sw q hx hy e =
    sym (ung-g v a b c d x y sv q hx hy)
    ∙ ap (λ (t : List ℕ). ung t a b c d x y) e
    ∙ ung-g w a b c d x y sw q hx hy

module _ (m s : List ℕ) (wm : Words m) where
  -- The message word that the schedule names.
  word : (i : ℕ) → IsWord (at m (at s i))
  word i = at-IsWord m (at s i) wm

  round_injective : (v w : List ℕ) → IsState v → IsState w → round m s v ≡ round m s w → v ≡ w
  unfolding round
  round_injective v w sv sw e =
      let v1 = g-IsState v 0 4 8 12 _ _ sv in
      let w1 = g-IsState w 0 4 8 12 _ _ sw in
      let v2 = g-IsState _ 1 5 9 13 _ _ v1 in
      let w2 = g-IsState _ 1 5 9 13 _ _ w1 in
      let v3 = g-IsState _ 2 6 10 14 _ _ v2 in
      let w3 = g-IsState _ 2 6 10 14 _ _ w2 in
      let v4 = g-IsState _ 3 7 11 15 _ _ v3 in
      let w4 = g-IsState _ 3 7 11 15 _ _ w3 in
      let v5 = g-IsState _ 0 5 10 15 _ _ v4 in
      let w5 = g-IsState _ 0 5 10 15 _ _ w4 in
      let v6 = g-IsState _ 1 6 11 12 _ _ v5 in
      let w6 = g-IsState _ 1 6 11 12 _ _ w5 in
      let v7 = g-IsState _ 2 7 8 13 _ _ v6 in
      let w7 = g-IsState _ 2 7 8 13 _ _ w6 in
      g_injective v w 0 4 8 12 _ _ sv sw (omega arith) (word 0) (word 1) (
        g_injective _ _ 1 5 9 13 _ _ v1 w1 (omega arith) (word 2) (word 3) (
          g_injective _ _ 2 6 10 14 _ _ v2 w2 (omega arith) (word 4) (word 5) (
            g_injective _ _ 3 7 11 15 _ _ v3 w3 (omega arith) (word 6) (word 7) (
              g_injective _ _ 0 5 10 15 _ _ v4 w4 (omega arith) (word 8) (word 9) (
                g_injective _ _ 1 6 11 12 _ _ v5 w5 (omega arith) (word 10) (word 11) (
                  g_injective _ _ 2 7 8 13 _ _ v6 w6 (omega arith) (word 12) (word 13)
                    (g_injective _ _ 3 4 9 14 _ _ v7 w7 (omega arith) (word 14) (word 15) e)))))))

-- With one block of words, two states of sixteen words that a number of rounds takes to the
-- same state are the same.
pub rounds_loop_injective :
    (m : List ℕ) (left r : ℕ) (v w : List ℕ)
    → Words m
    → IsState v
    → IsState w
    → rounds_loop m left r v ≡ rounds_loop m left r w
    → v ≡ w
unfolding rounds_loop
rounds_loop_injective m zero r v w wm sv sw e = e
rounds_loop_injective m (suc left) r v w wm sv sw e =
    let s = get_or sigma (r % 10) [] in
    round_injective m s wm v w sv sw (
      rounds_loop_injective m left (suc r) _ _ wm (round-IsState m s v sv) (round-IsState m s w sw)
        e)
