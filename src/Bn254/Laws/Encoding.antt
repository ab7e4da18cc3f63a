-- ===== src/Bn254/Laws/Encoding.antt =====
-- The texts of points, decoded again the way the script decodes its last anchor.
use etheorem.Common.{
  ℕ, zero, suc, ◌+◌, ◌*◌, ◌/◌, ◌%◌, ◌^◌, ◌<◌, ◌≡◌, refl, ap, sym, ◌∙◌, some, List, [], ◌∷◌, ◌++◌,
  append_assoc, append-nil, Text, take, drop, length, arith,
}
use mathlib.Core.Path.{subst}
use etheorem.Common.Strings.Scan.Laws.{take-append}
use etheorem.Common.Bytes.{from_hex, from_big, be_bytes, length-be_bytes, from_big-be_bytes}
use etheorem.Common.Strings.Digits.{hex_digit, hex_fixed, unhex_digit-hex_digit}
use etheorem.Bn254.{PyEcc, fq2_eip, g2_hex, word_at, point_of}

-- The last two digits of a wider text.
hex_fixed_two :
    (m n : ℕ) (s : Text)
    → hex_fixed (suc (suc m)) n ++ s
      ≡ hex_fixed m (n / 16 / 16) ++ (hex_digit (n / 16 % 16) ∷ hex_digit (n % 16) ∷ s)
unfolding hex_fixed
hex_fixed_two m n s =
    ap (λ (t : Text). t ++ s)
      (append_assoc (hex_fixed m (n / 16 / 16)) (hex_digit (n / 16 % 16) ∷ [])
        (hex_digit (n % 16) ∷ []))
    ∙ append_assoc (hex_fixed m (n / 16 / 16)) (hex_digit (n / 16 % 16) ∷ hex_digit (n % 16) ∷ []) s

from_hex_two :
    (a b : ℕ) (s : Text) (bs : List ℕ)
    → a < 16
    → b < 16
    → from_hex s ≡ some bs
    → from_hex (hex_digit a ∷ hex_digit b ∷ s) ≡ some ((16 * a + b) ∷ bs)
unfolding from_hex
from_hex_two a b s bs h k e =
    rw (from_hex, unhex_digit-hex_digit a h, unhex_digit-hex_digit b k, e) refl

-- The bytes of hexadecimal digits in front of others.
from_hex-hex_fixed :
    (k n : ℕ) (s : Text) (bs : List ℕ)
    → from_hex s ≡ some bs
    → from_hex (hex_fixed (2 * k) n ++ s) ≡ some (be_bytes k n ++ bs)
unfolding hex_fixed be_bytes
from_hex-hex_fixed zero n s bs e = e
from_hex-hex_fixed (suc k) n s bs e =
    let width : 2 * suc k ≡ suc (suc (2 * k)) = omega arith in
    let shorter : n / 16 / 16 ≡ n / 256 = omega arith in
    let byte : 16 * (n / 16 % 16) + n % 16 ≡ n % 256 = omega arith in
    let tail = from_hex_two (n / 16 % 16) (n % 16) s bs (omega arith) (omega arith) e in
    let both =
      from_hex-hex_fixed k (n / 256) (hex_digit (n / 16 % 16) ∷ hex_digit (n % 16) ∷ s)
        (n % 256 ∷ bs) (rw byte at tail) in
    rw (width, hex_fixed_two (2 * k) n s, shorter, both)
      (ap (λ (t : List ℕ). some t) (sym (append_assoc (be_bytes k (n / 256)) (n % 256 ∷ []) bs)))

take_bytes : (k n : ℕ) (bs : List ℕ) → take k (be_bytes k n ++ bs) ≡ be_bytes k n
take_bytes k n bs =
    subst (λ j. take j (be_bytes k n ++ bs) ≡ be_bytes k n) (length-be_bytes k n)
      (take-append (be_bytes k n) bs)

drop_past : (i : ℕ) (a b : List ℕ) → drop (length a + i) (a ++ b) ≡ drop i b
drop_past i [] b = let e : 0 + i ≡ i = omega arith in rw e refl
drop_past i (x ∷ a) b =
    let e : suc (length a) + i ≡ suc (length a + i) = omega arith in rw e (drop_past i a b)

drop_bytes : (k n i : ℕ) (bs : List ℕ) → drop (k + i) (be_bytes k n ++ bs) ≡ drop i bs
drop_bytes k n i bs =
    subst (λ j. drop (j + i) (be_bytes k n ++ bs) ≡ drop i bs) (length-be_bytes k n)
      (drop_past i (be_bytes k n) bs)

-- The word that stands in front of others, and the words behind the first one.
word_here : (n : ℕ) (bs : List ℕ) → n < 256 ^ 32 → word_at (be_bytes 32 n ++ bs) 0 ≡ n
unfolding word_at
word_here n bs h = rw (take_bytes 32 n bs) (from_big-be_bytes 32 n h)

word_later : (n i : ℕ) (bs : List ℕ) → word_at (be_bytes 32 n ++ bs) (32 + i) ≡ word_at bs i
unfolding word_at
word_later n i bs = ap (λ (t : List ℕ). from_big 0 (take 32 t)) (drop_bytes 32 n i bs)

unfoldable pub four_words : ℕ → ℕ → ℕ → ℕ → List ℕ
four_words a b c d = be_bytes 32 a ++ (be_bytes 32 b ++ (be_bytes 32 c ++ (be_bytes 32 d ++ [])))

pub from_hex_four :
    (a b c d : ℕ)
    → from_hex ((hex_fixed 64 a ++ hex_fixed 64 b) ++ (hex_fixed 64 c ++ hex_fixed 64 d))
      ≡ some (four_words a b c d)
unfolding four_words from_hex
from_hex_four a b c d =
    let last = from_hex-hex_fixed 32 d [] [] refl in
    let third = from_hex-hex_fixed 32 c _ _ last in
    let second = from_hex-hex_fixed 32 b _ _ third in
    let all = from_hex-hex_fixed 32 a _ _ second in
    rw
      (
        append_assoc (hex_fixed 64 a) (hex_fixed 64 b) (hex_fixed 64 c ++ hex_fixed 64 d),
        sym (append-nil (hex_fixed 64 d)),
      )
      all

word_four :
    (a b c d : ℕ)
    → a < 256 ^ 32
    → b < 256 ^ 32
    → c < 256 ^ 32
    → d < 256 ^ 32
    → (word_at (four_words a b c d) 0 ≡ a)
      × (word_at (four_words a b c d) 32 ≡ b)
      × (word_at (four_words a b c d) 64 ≡ c)
      × (word_at (four_words a b c d) 96 ≡ d)
unfolding four_words
word_four a b c d ha hb hc hd = (
  word_here a _ ha,
  word_later a 0 _ ∙ word_here b _ hb,
  word_later a 32 _ ∙ (word_later b 0 _ ∙ word_here c _ hc),
  word_later a 64 _ ∙ (word_later b 32 _ ∙ (word_later c 0 _ ∙ word_here d _ hd)),
)

module _ {G1 Fq2 Fq12 : Type 0} (l : PyEcc G1 Fq2 Fq12) where
  -- A point's text decodes to that point, where its coefficients are below 2 ^ 256 and an element is
  -- rebuilt from its coefficients: the halves are swapped twice.
  pub g2_hex-decoded :
      (x y : Fq2)
      → ((z : Fq2) → l.fq2 (l.coeffs z).0 (l.coeffs z).1 ≡ z)
      → ((z : Fq2) → ((l.coeffs z).0 < 256 ^ 32) × ((l.coeffs z).1 < 256 ^ 32))
      → (text : Text) × (raw : List ℕ) × (g2_hex l (some (x, y)) ≡ some text)
        × (from_hex text ≡ some raw)
        × (point_of l raw ≡ (x, y))
  unfolding g2_hex fq2_eip point_of
  g2_hex-decoded x y rebuilt small =
      let (x_im, x_re, y_im, y_re) =
        word_four (l.coeffs x).1 (l.coeffs x).0 (l.coeffs y).1 (l.coeffs y).0 (small x).1
          (small x).0 (small y).1 (small y).0 in
      (
        _,
        four_words (l.coeffs x).1 (l.coeffs x).0 (l.coeffs y).1 (l.coeffs y).0,
        refl,
        from_hex_four (l.coeffs x).1 (l.coeffs x).0 (l.coeffs y).1 (l.coeffs y).0,
        rw (x_im, x_re, y_im, y_re, rebuilt x, rebuilt y) refl,
      )
