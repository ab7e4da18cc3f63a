-- ===== src/Common/Bits.antt =====
-- Facts about `|` and `^` at every width, from the recursion on binary digits.
use Prim.Native.Nat.{
  zero, suc, max, bitwise, digits, differ, bit_or, bit_xor, bit_or-bitwise, bit_xor-bitwise,
}
use mathlib.Core.WellFounded.{Acc, WellFounded}
use native.Mathlib.Nat.{pow-suc, zero-add, suc-add}
use etheorem.Common.{ℕ, ◌+◌, ◌*◌, ◌/◌, ◌%◌, ◌^◌, ◌≤◌, ◌<◌, ◌≡◌, refl, ap, ◌∙◌, ◌-◌, arith}

acc_below : (k n : ℕ) → n < k → Acc ◌<◌ n
acc_below zero n h = elim h [ ]
acc_below (suc k) n h = Acc.intro n (λ m hm. acc_below k m (omega arith))

pub lt_wf : WellFounded ◌<◌
lt_wf = record { apply = λ n. acc_below (suc n) n (omega arith) }

-- One more unit of fuel changes nothing where the fuel covers the first operand; so no number of
-- further units does.
module _ (alone : ℕ → ℕ) (pair : ℕ → ℕ → ℕ) where
  one_more :
      (fuel x y : ℕ) → x ≤ fuel → digits alone pair (suc fuel) x y ≡ digits alone pair fuel x y
  one_more fuel zero y h = by_fuel fuel
    where
      by_fuel : (k : ℕ) → digits alone pair (suc k) 0 y ≡ digits alone pair k 0 y
      by_fuel zero = refl
      by_fuel (suc k) = refl
  one_more zero (suc x) y h = absurd (omega arith)
  one_more (suc fuel) (suc x) y h = rw (one_more fuel (suc x / 2) (y / 2) (omega arith))

  settled :
      (gap fuel x y : ℕ)
      → x ≤ fuel
      → digits alone pair (gap + fuel) x y ≡ digits alone pair fuel x y
  settled zero fuel x y h = rw (zero-add fuel) refl
  settled (suc gap) fuel x y h =
      rw (suc-add gap fuel) (one_more (gap + fuel) x y (omega arith) ∙ settled gap fuel x y h)

  lowest_digit :
      (x y : ℕ)
      → bitwise alone pair (suc x) y
        ≡ bitwise alone pair (suc x / 2) (y / 2) * 2 + pair (suc x % 2) (y % 2)
  lowest_digit x y =
      let gap = x - suc x / 2 in
      let split : gap + suc x / 2 ≡ x = omega arith in
      let same : digits alone pair x (suc x / 2) (y / 2) ≡ bitwise alone pair (suc x / 2) (y / 2) =
        rw split at (settled gap (suc x / 2) (suc x / 2) (y / 2) (omega arith)) in
      omega (arith, same)

-- `|` and `^` by halves.
pub bit_or_step : (x y : ℕ) → bit_or x y ≡ bit_or (x / 2) (y / 2) * 2 + max (x % 2) (y % 2)
bit_or_step zero y = simp bit_or-bitwise (omega arith)
bit_or_step (suc x) y =
    rw (bit_or-bitwise (suc x) y, bit_or-bitwise (suc x / 2) (y / 2))
      (lowest_digit (λ v. v) max x y)

pub differ_bits : (b : ℕ) → b < 2 → differ 0 b ≡ b
differ_bits zero h = refl
differ_bits (suc zero) h = refl
differ_bits (suc (suc b)) h = absurd (omega arith)

pub bit_xor_step : (x y : ℕ) → bit_xor x y ≡ bit_xor (x / 2) (y / 2) * 2 + differ (x % 2) (y % 2)
bit_xor_step zero y = simp bit_xor-bitwise (omega (arith, differ_bits (y % 2) (omega arith)))
bit_xor_step (suc x) y =
    rw (bit_xor-bitwise (suc x) y, bit_xor-bitwise (suc x / 2) (y / 2))
      (lowest_digit (λ v. v) differ x y)

pub pow_add : (n m : ℕ) → 2 ^ (n + m) ≡ 2 ^ n * 2 ^ m
pow_add zero m = rw zero-add (omega arith)
pow_add (suc n) m = rw (suc-add, pow-suc, pow-suc 2 n) (grind (arith, pow_add n m))

zero-bit_xor : (b : ℕ) → bit_xor 0 b ≡ b
zero-bit_xor b = bit_xor-bitwise 0 b

differ_lt : (a b : ℕ) → a < 2 → b < 2 → differ a b < 2
differ_lt zero zero p q = omega arith
differ_lt zero (suc zero) p q = omega arith
differ_lt (suc zero) zero p q = omega arith
differ_lt (suc zero) (suc zero) p q = omega arith
differ_lt (suc (suc a)) b p q = absurd (omega arith)
differ_lt zero (suc (suc b)) p q = absurd (omega arith)
differ_lt (suc zero) (suc (suc b)) p q = absurd (omega arith)

differ_twice : (a b : ℕ) → a < 2 → b < 2 → differ (differ a b) b ≡ a
differ_twice zero zero p q = refl
differ_twice zero (suc zero) p q = refl
differ_twice (suc zero) zero p q = refl
differ_twice (suc zero) (suc zero) p q = refl
differ_twice (suc (suc a)) b p q = absurd (omega arith)
differ_twice zero (suc (suc b)) p q = absurd (omega arith)
differ_twice (suc zero) (suc (suc b)) p q = absurd (omega arith)

-- `^` of two numbers of `k` bits has `k` bits.
pub bit_xor-lt : (k a b : ℕ) → a < 2 ^ k → b < 2 ^ k → bit_xor a b < 2 ^ k
bit_xor-lt zero zero b p q = rw zero-bit_xor q
bit_xor-lt zero (suc a) b p q = absurd (omega arith)
bit_xor-lt (suc k) a b p q = omega (
  arith,
  bit_xor_step a b,
  pow-suc 2 k,
  differ_lt (a % 2) (b % 2) (omega arith) (omega arith),
  bit_xor-lt k (a / 2) (b / 2) (omega (arith, pow-suc 2 k)) (omega (arith, pow-suc 2 k)),
)

-- `^` by the same number twice changes nothing.
pub bit_xor_twice : (k a b : ℕ) → a < 2 ^ k → b < 2 ^ k → bit_xor (bit_xor a b) b ≡ a
bit_xor_twice zero zero zero p q = refl
bit_xor_twice zero zero (suc b) p q = absurd (omega arith)
bit_xor_twice zero (suc a) b p q = absurd (omega arith)
bit_xor_twice (suc k) a b p q =
    let step = bit_xor_step a b in
    let low = differ_lt (a % 2) (b % 2) (omega arith) (omega arith) in
    let half : bit_xor a b / 2 ≡ bit_xor (a / 2) (b / 2) = omega arith in
    let last : bit_xor a b % 2 ≡ differ (a % 2) (b % 2) = omega arith in
    rw (bit_xor_step (bit_xor a b) b, half, last)
      (omega (
        arith,
        differ_twice (a % 2) (b % 2) (omega arith) (omega arith),
        bit_xor_twice k (a / 2) (b / 2) (omega (arith, pow-suc 2 k)) (omega (arith, pow-suc 2 k)),
      ))

-- `r | (q << k)` is a sum when `r` fits `k` bits.
pub bit_or_disjoint : (k q r : ℕ) → r < 2 ^ k → bit_or r (q * 2 ^ k) ≡ r + q * 2 ^ k
bit_or_disjoint zero q zero h = omega (arith, bit_or-bitwise 0 (q * 2 ^ 0))
bit_or_disjoint zero q (suc r) h = absurd (omega arith)
bit_or_disjoint (suc k) q r h =
    let e : q * 2 ^ suc k ≡ q * 2 ^ k * 2 = omega (arith, ap (λ (t : ℕ). q * t) (pow-suc 2 k)) in
    let fits : r / 2 < 2 ^ k = omega (arith, pow-suc 2 k) in
    let low : (q * 2 ^ k * 2) % 2 ≡ 0 = omega arith in
    let high : (q * 2 ^ k * 2) / 2 ≡ q * 2 ^ k = omega arith in
    rw (e, bit_or_step r (q * 2 ^ k * 2), low, high)
      (omega (arith, bit_or_disjoint k q (r / 2) fits))
