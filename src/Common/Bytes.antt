-- ===== src/Common/Bytes.antt =====
-- Bytes as Python packs them: `int.to_bytes`, `int.from_bytes` and `bytes.fromhex`.
use native.Mathlib.Nat.{pow-suc}
use etheorem.Common.{
  ℕ, zero, suc, ◌+◌, ◌*◌, ◌/◌, ◌%◌, ◌^◌, ◌<◌, ◌≡◌, refl, Option, none, some, List, [], ◌∷◌, ◌++◌,
  Text, ltb, if◌then◌else◌, length, length-append, All, arith,
}
use etheorem.Common.Strings.Digits.{unhex_digit}

-- The `k` low bytes of `n`, the least significant first.
unfoldable pub le_bytes : ℕ → ℕ → List ℕ
le_bytes zero n = []
le_bytes (suc k) n = (n % 256) ∷ le_bytes k (n / 256)

-- The `k` low bytes of `n`, the most significant first.
unfoldable pub be_bytes : ℕ → ℕ → List ℕ
be_bytes zero n = []
be_bytes (suc k) n = be_bytes k (n / 256) ++ ((n % 256) ∷ [])

-- `n.to_bytes(k, "little")`; `none` is its `OverflowError`.
unfoldable pub to_bytes_little : ℕ → ℕ → Option (List ℕ)
unfolding le_bytes
to_bytes_little k n = if ltb n (256 ^ k) then some (le_bytes k n) else none

-- `n.to_bytes(k, "big")`
unfoldable pub to_bytes_big : ℕ → ℕ → Option (List ℕ)
unfolding be_bytes
to_bytes_big k n = if ltb n (256 ^ k) then some (be_bytes k n) else none

-- `int.from_bytes(bs, "little")`
unfoldable pub from_little : List ℕ → ℕ
from_little [] = 0
from_little (b ∷ bs) = b + 256 * from_little bs

-- `int.from_bytes(bs, "big")`, behind the bytes read so far.
unfoldable pub from_big : ℕ → List ℕ → ℕ
from_big n [] = n
from_big n (b ∷ bs) = from_big (n * 256 + b) bs

-- `bytes.fromhex(s)` of a text with no white space; `none` is its `ValueError`.
unfoldable pub from_hex : Text → Option (List ℕ)
unfolding unhex_digit
from_hex [] = some []
from_hex (c ∷ []) = none
from_hex (c ∷ d ∷ s) =
    let rest = from_hex s in
    elim (unhex_digit c) [
      | none ↦ none
      | some hi ↦ elim (unhex_digit d) [
        | none ↦ none
        | some lo ↦ elim rest [ none ↦ none | some bs ↦ some ((16 * hi + lo) ∷ bs) ]
      ]
    ]

pub length-le_bytes : (k n : ℕ) → length (le_bytes k n) ≡ k
unfolding le_bytes
length-le_bytes zero n = refl
length-le_bytes (suc k) n = omega (arith, length-le_bytes k (n / 256))

pub length-be_bytes : (k n : ℕ) → length (be_bytes k n) ≡ k
unfolding be_bytes
length-be_bytes zero n = refl
length-be_bytes (suc k) n =
    omega
      (arith, length-append (be_bytes k (n / 256)) ((n % 256) ∷ []), length-be_bytes k (n / 256))

pub from_little-le_bytes : (k n : ℕ) → n < 256 ^ k → from_little (le_bytes k n) ≡ n
unfolding from_little le_bytes
from_little-le_bytes zero n h = omega arith
from_little-le_bytes (suc k) n h =
    omega (arith, from_little-le_bytes k (n / 256) (omega (arith, pow-suc 256 k)))

from_big-append :
    (n : ℕ) (bs : List ℕ) (b : ℕ) → from_big n (bs ++ (b ∷ [])) ≡ from_big n bs * 256 + b
unfolding from_big
from_big-append n [] b = refl
from_big-append n (c ∷ bs) b = from_big-append (n * 256 + c) bs b

pub from_big-be_bytes : (k n : ℕ) → n < 256 ^ k → from_big 0 (be_bytes k n) ≡ n
unfolding from_big be_bytes
from_big-be_bytes zero n h = omega arith
from_big-be_bytes (suc k) n h = omega (
  arith,
  from_big-append 0 (be_bytes k (n / 256)) (n % 256),
  from_big-be_bytes k (n / 256) (omega (arith, pow-suc 256 k)),
)

abbrev pub IsByte : ℕ → Type 0
IsByte b = b < 256

pub le_bytes-IsByte : (k n : ℕ) → All IsByte (le_bytes k n)
unfolding le_bytes
le_bytes-IsByte zero n = tt
le_bytes-IsByte (suc k) n = (omega arith, le_bytes-IsByte k (n / 256))

pub to_bytes_little-some : (k n : ℕ) → n < 256 ^ k → to_bytes_little k n ≡ some (le_bytes k n)
unfolding to_bytes_little
to_bytes_little-some k n h = ground arith

pub to_bytes_big-some : (k n : ℕ) → n < 256 ^ k → to_bytes_big k n ≡ some (be_bytes k n)
unfolding to_bytes_big
to_bytes_big-some k n h = ground arith
