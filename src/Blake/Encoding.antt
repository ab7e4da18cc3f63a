-- ===== src/Blake/Encoding.antt =====
-- The byte layouts of packages/hazmat/LeanHazmatBlake2f/scripts/gen_vectors.py: the test block, the
-- input of the precompile and the digest's print. `none` is a raised `OverflowError`.
pub mod Layout
use mathlib.Core.Option
use etheorem.Common.{
  ℕ, zero, suc, ◌*◌, Bool, Option, none, some, List, [], ◌∷◌, ◌++◌, map, Text, codes, range_from,
  take, drop, if◌then◌else◌,
}
use etheorem.Common.Monad.{◌>>=◌}
use etheorem.Common.Bytes.{to_bytes_little, to_bytes_big, from_little, from_hex}
use etheorem.Common.Strings.Digits.{hex}

pub h_block : List ℕ
unfolding from_hex
h_block =
    Option.get_or
      (from_hex (
        codes "48c9bdf267e6096a3ba7ca8485ae67bb2bf894fe72f36e3cf1361d5f3af54fa5"
        ++ codes "d182e6ad7f520e511f6c3e2b8c68059b6bbd41fbabd9831f79217e1319cde05b"))
      []

zero_bytes : ℕ → List ℕ
zero_bytes zero = []
zero_bytes (suc n) = 0 ∷ zero_bytes n

pub m_block : List ℕ
unfolding zero_bytes
m_block = 0x61 ∷ 0x62 ∷ 0x63 ∷ zero_bytes 125

-- The first `n` little-endian words of eight bytes.
unfoldable pub words_in : ℕ → List ℕ → List ℕ
unfolding from_little
words_in n bs = map (λ i. from_little (take 8 (drop (8 * i) bs))) (range_from 0 n)

unfoldable pub h_words : List ℕ
unfolding words_in h_block
h_words = words_in 8 h_block

unfoldable pub m_words : List ℕ
unfolding words_in m_block
m_words = words_in 16 m_block

-- rounds(4 BE), h(64), m(128), t0(8 LE), t1(8 LE), f(1)
unfoldable pub eip152_input : ℕ → ℕ → ℕ → Bool → Option (List ℕ)
unfolding to_bytes_big to_bytes_little h_block m_block
eip152_input rounds t0 t1 last = do
  r ← to_bytes_big 4 rounds
  c0 ← to_bytes_little 8 t0
  c1 ← to_bytes_little 8 t1
  some (r ++ (h_block ++ (m_block ++ (c0 ++ (c1 ++ ((if last then 1 else 0) ∷ []))))))

unfoldable pub words_out : List ℕ → List ℕ
unfolding words_in
words_out out_bytes = words_in 8 out_bytes

unfoldable pub le_words : List ℕ → Option (List ℕ)
unfolding to_bytes_little
le_words [] = some []
le_words (w ∷ ws) = do b ← to_bytes_little 8 w; bs ← le_words ws; some (b ++ bs)

unfoldable pub hex_le_words : List ℕ → Option Text
unfolding le_words hex
hex_le_words words = Option.map hex (le_words words)
