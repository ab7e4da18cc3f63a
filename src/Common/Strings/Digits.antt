-- ===== src/Common/Strings/Digits.antt =====
-- `str(n)`, `int(s)` on decimal digits, and lower-case hexadecimal.
use Prim.Native.Nat.{ℕ, zero, suc, ◌+◌, ◌-◌, ◌*◌, ◌/◌, ◌%◌, ◌≤◌, ◌<◌}
use mathlib.Core.Path.{◌≡◌, refl}
use mathlib.Core.Bool.{Bool, ◌&&◌}
use mathlib.Core.List.{List, [], ◌∷◌, ◌++◌}
use mathlib.Core.Option.{Option, none, some}
use native.Mathlib.Omega.{arith}
use etheorem.Common.Tests.{◌==◌, ltb, leb, if◌then◌else◌}
use etheorem.Common.Lists.{All, length, length-append}
use etheorem.Common.Strings.{Text}

unfoldable pub is_digit : ℕ → Bool
is_digit c = leb b'0' c && leb c b'9'

-- The digits of `n` in front of `out`; fuel `n` is enough, since each round divides by ten.
unfoldable pub decimal_loop : ℕ → ℕ → Text → Text
decimal_loop zero n out = out
decimal_loop (suc f) n out =
    let rest = decimal_loop f (n / 10) ((b'0' + n % 10) ∷ out) in if n == 0 then out else rest

-- `str(n)` for a number that is not negative.
unfoldable pub decimal : ℕ → Text
unfolding decimal_loop
decimal n = if n == 0 then b'0' ∷ [] else decimal_loop n n []

-- `int(s)` behind the digits read so far, on ASCII digits.
unfoldable pub read_digits : ℕ → Text → Option ℕ
unfolding is_digit
read_digits n [] = some n
read_digits n (c ∷ s) =
    let rest = read_digits (n * 10 + (c - b'0')) s in if is_digit c then rest else none

read_digits_last :
    (n : ℕ) (out : Text) → read_digits (n / 10) ((b'0' + n % 10) ∷ out) ≡ read_digits n out
unfolding read_digits
read_digits_last n out = ground arith

read_digits-decimal_loop :
    (f n : ℕ) (out : Text) → n ≤ f → read_digits 0 (decimal_loop f n out) ≡ read_digits n out
unfolding decimal_loop
read_digits-decimal_loop zero n out h = ground arith
read_digits-decimal_loop (suc f) n out h =
    ground
      (arith, read_digits-decimal_loop f (n / 10) ((b'0' + n % 10) ∷ out), read_digits_last n out)

-- A printed number is read back.
pub read_digits-decimal : (n : ℕ) → read_digits 0 (decimal n) ≡ some n
unfolding decimal read_digits
read_digits-decimal n = ground (arith, read_digits-decimal_loop n n [])

abbrev pub IsDigit : ℕ → Type 0
IsDigit c = (b'0' ≤ c) × (c ≤ b'9')

decimal_loop-IsDigit : (f n : ℕ) (out : Text) → All IsDigit out → All IsDigit (decimal_loop f n out)
unfolding decimal_loop
decimal_loop-IsDigit zero n out h = h
decimal_loop-IsDigit (suc f) n out h =
    ground (arith, decimal_loop-IsDigit f (n / 10) ((b'0' + n % 10) ∷ out) ((omega arith), h))

pub decimal-IsDigit : (n : ℕ) → All IsDigit (decimal n)
unfolding decimal
decimal-IsDigit n = ground (arith, decimal_loop-IsDigit n n [] tt)

-- One hexadecimal digit, and the two of a byte.
unfoldable pub hex_digit : ℕ → ℕ
hex_digit n = if ltb n 10 then b'0' + n else b'a' + (n - 10)

unfoldable pub hex_byte : ℕ → Text
unfolding hex_digit
hex_byte b = hex_digit (b / 16) ∷ hex_digit (b % 16) ∷ []

-- `bytes.hex()`
unfoldable pub hex : List ℕ → Text
unfolding hex_byte
hex [] = []
hex (b ∷ bs) = hex_byte b ++ hex bs

-- `f"{n:0wx}"` for a number below `16 ^ w`: the `w` digits, the most significant first.
unfoldable pub hex_fixed : ℕ → ℕ → Text
unfolding hex_digit
hex_fixed zero n = []
hex_fixed (suc w) n = hex_fixed w (n / 16) ++ (hex_digit (n % 16) ∷ [])

-- The value of one hexadecimal digit, of either case.
unfoldable pub unhex_digit : ℕ → Option ℕ
unhex_digit c =
    if leb b'0' c && leb c b'9'
    then some (c - b'0')
    else if leb b'a' c && leb c b'f'
    then some (c - b'a' + 10)
    else if leb b'A' c && leb c b'F'
    then some (c - b'A' + 10)
    else none

unfoldable pub read_hex : ℕ → Text → Option ℕ
unfolding unhex_digit
read_hex n [] = some n
read_hex n (c ∷ s) = elim (unhex_digit c) [ none ↦ none | some d ↦ read_hex (n * 16 + d) s ]

pub unhex_digit-hex_digit : (d : ℕ) → d < 16 → unhex_digit (hex_digit d) ≡ some d
unfolding unhex_digit hex_digit
unhex_digit-hex_digit d h = ground arith

pub length-hex : (bs : List ℕ) → length (hex bs) ≡ 2 * length bs
unfolding hex
length-hex [] = refl
length-hex (b ∷ bs) = omega (arith, length-hex bs)

pub length-hex_fixed : (w n : ℕ) → length (hex_fixed w n) ≡ w
unfolding hex_fixed
length-hex_fixed zero n = refl
length-hex_fixed (suc w) n = omega (
  arith,
  length-append (hex_fixed w (n / 16)) (hex_digit (n % 16) ∷ []),
  length-hex_fixed w (n / 16),
)
