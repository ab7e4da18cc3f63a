-- ===== src/Blake/Words.antt =====
-- `rotr` of gen_vectors.py as arithmetic: it moves the low bits to the top, and is undone by the
-- rotation by the other 64 - n places.
use native.Mathlib.Nat.{
  div-add-mod', mul_comm, add-mul-mod_self_left, mod-eq_of_lt, one-le-pow, div-lt_iff_lt-mul,
  mod-lt, add-mul-div_right, add-mul-mod_self_right, div-eq_of_lt,
}
use etheorem.Common.{ℕ, ◌+◌, ◌-◌, ◌*◌, ◌/◌, ◌%◌, ◌^◌, ◌<◌, ◌≡◌, ap, sym, ◌∙◌, arith}
use etheorem.Common.Bits.{bit_or_disjoint, pow_add}
use etheorem.Blake.{rotr}

-- The sum of the two shifted halves, below the modulus.
halves_lt : (p q x : ℕ) → 0 < p → 0 < q → x < p * q → x / p + (x % p) * q < p * q
halves_lt p q x hp hq h =
    let high : x / p < q = (div-lt_iff_lt-mul hp).1 (rw (mul_comm q p) h) in
    let low : x % p < p = mod-lt x hp in grind arith

halves_mod :
    (p q x : ℕ) → 0 < p → 0 < q → x < p * q → (x / p + x * q) % (p * q) ≡ x / p + (x % p) * q
halves_mod p q x hp hq h =
    let split : x / p + x * q ≡ x / p + (x % p) * q + p * q * (x / p) =
      omega (arith, ap (λ (t : ℕ). t * q) (div-add-mod' x p)) in
    rw split (
      add-mul-mod_self_left (x / p + (x % p) * q) (p * q) (x / p)
      ∙ mod-eq_of_lt (halves_lt p q x hp hq h))

-- Dividing the rotated number again splits it into the two halves.
halves_div : (p q x : ℕ) → 0 < q → x / p < q → (x / p + (x % p) * q) / q ≡ x % p
halves_div p q x hq h = rw (add-mul-div_right (x / p) (x % p) hq, div-eq_of_lt h) (omega arith)

halves_rest : (p q x : ℕ) → x / p < q → (x / p + (x % p) * q) % q ≡ x / p
halves_rest p q x h = add-mul-mod_self_right (x / p) (x % p) q ∙ mod-eq_of_lt h

abbrev pub IsWord : ℕ → Type 0
IsWord x = x < 2 ^ 64

-- A rotated word is a word.
pub rotr-IsWord : (x n : ℕ) → IsWord (rotr x n)
unfolding rotr
rotr-IsWord x n = mod-lt _ (omega arith)

module _ (n m : ℕ) (sum : n + m ≡ 64) where
  full : 2 ^ n * 2 ^ m ≡ 2 ^ 64
  full = sym (pow_add n m) ∙ ap (λ (k : ℕ). 2 ^ k) sum

  word_lt : (x : ℕ) → IsWord x → x < 2 ^ n * 2 ^ m
  word_lt x h = rw full h

  quotient_lt : (x : ℕ) → IsWord x → x / 2 ^ n < 2 ^ m
  quotient_lt x h =
      (div-lt_iff_lt-mul (one-le-pow n 2 (omega arith))).1
        (rw (mul_comm (2 ^ m) (2 ^ n)) (word_lt x h))

  -- The low `n` bits of a word move above its other bits.
  pub rotr_lem : (x : ℕ) → IsWord x → rotr x n ≡ x / 2 ^ n + (x % 2 ^ n) * 2 ^ m
  unfolding rotr
  rotr_lem x h =
      let e : 64 - n ≡ m = omega arith in
      rw (e, bit_or_disjoint m x (x / 2 ^ n) (quotient_lt x h), ← full)
        (halves_mod (2 ^ n) (2 ^ m) x (one-le-pow n 2 (omega arith)) (one-le-pow m 2 (omega arith))
          (word_lt x h))

-- Rotating a word by `n` places and then by the `m` places that are left of 64 gives the word
-- back.
pub rotr_inverse : (n m x : ℕ) → n + m ≡ 64 → IsWord x → rotr (rotr x n) m ≡ x
rotr_inverse n m x sum h =
    let other : m + n ≡ 64 = omega arith in
    let small = quotient_lt n m sum x h in
    rw (rotr_lem m n other (rotr x n) (rotr-IsWord x n), rotr_lem n m sum x h)
      (rw
        (
          halves_div (2 ^ n) (2 ^ m) x (one-le-pow m 2 (omega arith)) small,
          halves_rest (2 ^ n) (2 ^ m) x small,
        )
        (omega (arith, div-add-mod' x (2 ^ n))))
