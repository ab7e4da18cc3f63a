-- ===== src/Blake/Encoding/Layout.antt =====
-- The byte layouts of gen_vectors.py: the 213 bytes of the precompile's input, and the digest.
use etheorem.Common.{
  ℕ, ◌*◌, ◌^◌, ◌<◌, ◌≡◌, refl, ◌∙◌, Bool, some, List, [], ◌∷◌, ◌++◌, Text, length, length-append,
  take, drop, if◌then◌else◌, arith,
}
use etheorem.Common.Bytes.{
  to_bytes_big-some, to_bytes_little-some, be_bytes, le_bytes, from_big, from_little,
  from_big-be_bytes, from_little-le_bytes, length-le_bytes,
}
use etheorem.Common.Strings.Digits.{hex, length-hex}
use etheorem.Blake.Bounds.{Words}
use etheorem.Blake.Encoding.{
  h_block, m_block, zero_bytes, words_in, h_words, eip152_input, words_out, le_words, hex_le_words,
}

-- The input in full, for counters and rounds in range.
eip152_input_lem :
    (rounds t0 t1 : ℕ) (last : Bool)
    → rounds < 2 ^ 32
    → t0 < 2 ^ 64
    → t1 < 2 ^ 64
    → eip152_input rounds t0 t1 last
      ≡ some (
          be_bytes 4 rounds
          ++ (h_block
              ++ (m_block ++ (le_bytes 8 t0 ++ (le_bytes 8 t1 ++ ((if last then 1 else 0) ∷ []))))))
unfolding eip152_input
eip152_input_lem rounds t0 t1 last r c0 c1 =
    rw (to_bytes_big-some 4 rounds r, to_bytes_little-some 8 t0 c0, to_bytes_little-some 8 t1 c1)

-- What the precompile reads back from its input, field by field.
pub record Reads (bs : List ℕ) (rounds t0 t1 : ℕ) (last : Bool) : Type 0 where
  pub size : length bs ≡ 213
  pub rounds_at_0 : from_big 0 (take 4 bs) ≡ rounds
  pub h_at_4 : take 64 (drop 4 bs) ≡ h_block
  pub m_at_68 : take 128 (drop 68 bs) ≡ m_block
  pub t0_at_196 : from_little (take 8 (drop 196 bs)) ≡ t0
  pub t1_at_204 : from_little (take 8 (drop 204 bs)) ≡ t1
  pub flag_at_212 : drop 212 bs ≡ (if last then 1 else 0) ∷ []

-- For rounds below 2 ^ 32 and counters below 2 ^ 64 the input is built, has 213 bytes, and holds
-- every field at the place that EIP-152 gives it.
pub eip152_input-Reads :
    (rounds t0 t1 : ℕ) (last : Bool)
    → rounds < 2 ^ 32
    → t0 < 2 ^ 64
    → t1 < 2 ^ 64
    → (bs : List ℕ) × (eip152_input rounds t0 t1 last ≡ some bs) × Reads bs rounds t0 t1 last
unfolding h_block m_block zero_bytes be_bytes le_bytes
eip152_input-Reads rounds t0 t1 last r c0 c1 = (
  be_bytes 4 rounds
      ++ (h_block
          ++ (m_block ++ (le_bytes 8 t0 ++ (le_bytes 8 t1 ++ ((if last then 1 else 0) ∷ []))))),
  eip152_input_lem rounds t0 t1 last r c0 c1,
  record {
    size = refl;
    rounds_at_0 = from_big-be_bytes 4 rounds (omega arith);
    h_at_4 = refl;
    m_at_68 = refl;
    t0_at_196 = from_little-le_bytes 8 t0 (omega arith);
    t1_at_204 = from_little-le_bytes 8 t1 (omega arith);
    flag_at_212 = refl;
  },
)

-- The bytes of words in range, one after the other.
abbrev packed : List ℕ → List ℕ
packed [] = []
packed (w ∷ ws) = le_bytes 8 w ++ packed ws

le_words-packed : (ws : List ℕ) → Words ws → le_words ws ≡ some (packed ws)
unfolding le_words
le_words-packed [] h = refl
le_words-packed (w ∷ ws) (p, q) = rw (to_bytes_little-some 8 w (omega arith), le_words-packed ws q)

length-packed : (ws : List ℕ) → length (packed ws) ≡ 8 * length ws
length-packed [] = refl
length-packed (w ∷ ws) =
    omega (arith, length-append (le_bytes 8 w) (packed ws), length-le_bytes 8 w, length-packed ws)

-- Words in range are printed, with sixteen characters for each.
pub hex_le_words_total :
    (ws : List ℕ)
    → Words ws
    → (text : Text) × (hex_le_words ws ≡ some text) × (length text ≡ 16 * length ws)
unfolding hex_le_words
hex_le_words_total ws h = (
  hex (packed ws),
  rw (le_words-packed ws h),
  length-hex (packed ws) ∙ omega (arith, length-packed ws),
)

pub h_words-Words : (length h_words ≡ 8) × Words h_words
unfolding h_words
h_words-Words = (refl, omega arith)

-- Eight words below 2 ^ 64 have a little-endian encoding, and `words_out` reads them back from
-- it.
pub words_out-le_words :
    (a b c d e i j k : ℕ)
    → Words (a ∷ b ∷ c ∷ d ∷ e ∷ i ∷ j ∷ k ∷ [])
    → (bs : List ℕ) × (le_words (a ∷ b ∷ c ∷ d ∷ e ∷ i ∷ j ∷ k ∷ []) ≡ some bs)
      × (words_out bs ≡ a ∷ b ∷ c ∷ d ∷ e ∷ i ∷ j ∷ k ∷ [])
unfolding words_out words_in le_bytes
words_out-le_words a b c d e i j k h =
    let ws : List ℕ = a ∷ b ∷ c ∷ d ∷ e ∷ i ∷ j ∷ k ∷ [] in
    (
      packed ws,
      le_words-packed ws h,
      eight (from_little-le_bytes 8 a (omega arith)) (from_little-le_bytes 8 b (omega arith))
          (from_little-le_bytes 8 c (omega arith)) (from_little-le_bytes 8 d (omega arith))
          (from_little-le_bytes 8 e (omega arith)) (from_little-le_bytes 8 i (omega arith))
          (from_little-le_bytes 8 j (omega arith)) (from_little-le_bytes 8 k (omega arith)),
    )
  where
    eight :
        {a' b' c' d' e' i' j' k' : ℕ}
        → a' ≡ a
        → b' ≡ b
        → c' ≡ c
        → d' ≡ d
        → e' ≡ e
        → i' ≡ i
        → j' ≡ j
        → k' ≡ k
        → ◌≡◌ {A = List ℕ}
            (a' ∷ b' ∷ c' ∷ d' ∷ e' ∷ i' ∷ j' ∷ k' ∷ [])
            (a ∷ b ∷ c ∷ d ∷ e ∷ i ∷ j ∷ k ∷ [])
    eight p q r s t u v w = λ x. p x ∷ q x ∷ r x ∷ s x ∷ t x ∷ u x ∷ v x ∷ w x ∷ []
