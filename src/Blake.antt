-- ===== src/Blake.antt =====
-- The BLAKE2b compression of packages/hazmat/LeanHazmatBlake2f/scripts/gen_vectors.py:
-- `rotr`, `g` and `f`. A word is a number, and a state is a list of sixteen words.
-- Python's integers do not wrap, so `& MASK` stands as `% 2 ^ 64`, and `x << k` as `x * 2 ^ k`.
-- Every index of the source is a constant below the length; a read out of range is 0 here.
pub mod Words
pub mod Mixing
pub mod Bounds
pub mod Encoding
pub mod Vectors
pub mod Tests
use Prim.Native.Nat.{bit_or, bit_xor}
use etheorem.Common.{
  ℕ, zero, suc, ◌+◌, ◌-◌, ◌*◌, ◌/◌, ◌%◌, ◌^◌, Bool, List, [], ◌∷◌, ◌++◌, map, get_or, set,
  range_from, if◌then◌else◌,
}

abbrev pub mask : ℕ
mask = 0xFFFFFFFFFFFFFFFF

-- RFC 7693 section 2.6: the BLAKE2b IV.
abbrev pub iv : List ℕ
iv =
    0x6A09E667F3BCC908 ∷ 0xBB67AE8584CAA73B ∷ 0x3C6EF372FE94F82B ∷ 0xA54FF53A5F1D36F1
    ∷ 0x510E527FADE682D1 ∷ 0x9B05688C2B3E6C1F ∷ 0x1F83D9ABFB41BD6B ∷ 0x5BE0CD19137E2179 ∷ []

-- RFC 7693 section 2.7: the ten-round permutation schedule.
abbrev pub sigma : List (List ℕ)
sigma =
    (0 ∷ 1 ∷ 2 ∷ 3 ∷ 4 ∷ 5 ∷ 6 ∷ 7 ∷ 8 ∷ 9 ∷ 10 ∷ 11 ∷ 12 ∷ 13 ∷ 14 ∷ 15 ∷ [])
    ∷ (14 ∷ 10 ∷ 4 ∷ 8 ∷ 9 ∷ 15 ∷ 13 ∷ 6 ∷ 1 ∷ 12 ∷ 0 ∷ 2 ∷ 11 ∷ 7 ∷ 5 ∷ 3 ∷ [])
    ∷ (11 ∷ 8 ∷ 12 ∷ 0 ∷ 5 ∷ 2 ∷ 15 ∷ 13 ∷ 10 ∷ 14 ∷ 3 ∷ 6 ∷ 7 ∷ 1 ∷ 9 ∷ 4 ∷ [])
    ∷ (7 ∷ 9 ∷ 3 ∷ 1 ∷ 13 ∷ 12 ∷ 11 ∷ 14 ∷ 2 ∷ 6 ∷ 5 ∷ 10 ∷ 4 ∷ 0 ∷ 15 ∷ 8 ∷ [])
    ∷ (9 ∷ 0 ∷ 5 ∷ 7 ∷ 2 ∷ 4 ∷ 10 ∷ 15 ∷ 14 ∷ 1 ∷ 11 ∷ 12 ∷ 6 ∷ 8 ∷ 3 ∷ 13 ∷ [])
    ∷ (2 ∷ 12 ∷ 6 ∷ 10 ∷ 0 ∷ 11 ∷ 8 ∷ 3 ∷ 4 ∷ 13 ∷ 7 ∷ 5 ∷ 15 ∷ 14 ∷ 1 ∷ 9 ∷ [])
    ∷ (12 ∷ 5 ∷ 1 ∷ 15 ∷ 14 ∷ 13 ∷ 4 ∷ 10 ∷ 0 ∷ 7 ∷ 6 ∷ 3 ∷ 9 ∷ 2 ∷ 8 ∷ 11 ∷ [])
    ∷ (13 ∷ 11 ∷ 7 ∷ 14 ∷ 12 ∷ 1 ∷ 3 ∷ 9 ∷ 5 ∷ 0 ∷ 15 ∷ 4 ∷ 8 ∷ 6 ∷ 2 ∷ 10 ∷ [])
    ∷ (6 ∷ 15 ∷ 14 ∷ 9 ∷ 11 ∷ 3 ∷ 0 ∷ 8 ∷ 12 ∷ 2 ∷ 13 ∷ 7 ∷ 1 ∷ 4 ∷ 10 ∷ 5 ∷ [])
    ∷ (10 ∷ 2 ∷ 8 ∷ 4 ∷ 7 ∷ 6 ∷ 1 ∷ 5 ∷ 15 ∷ 11 ∷ 9 ∷ 14 ∷ 3 ∷ 12 ∷ 13 ∷ 0 ∷ [])
    ∷ []

unfoldable pub rotr : ℕ → ℕ → ℕ
rotr x n = bit_or (x / 2 ^ n) (x * 2 ^ (64 - n)) % 2 ^ 64

-- `v[i]`. A read out of range is 0, where Python raises; the script reads states and blocks of sixteen
-- words and a chaining value of eight, at places below those lengths, so that there is none.
abbrev pub at : List ℕ → ℕ → ℕ
at v i = get_or v i 0

-- `v[i] = (v[i] + v[j] + x) & MASK`
unfoldable pub add_word : List ℕ → ℕ → ℕ → ℕ → List ℕ
add_word v i j x = set v i ((at v i + at v j + x) % 2 ^ 64)

-- `v[i] = (v[i] + v[j]) & MASK`
unfoldable pub add : List ℕ → ℕ → ℕ → List ℕ
add v i j = set v i ((at v i + at v j) % 2 ^ 64)

-- `v[i] = rotr(v[i] ^ v[j], n)`
unfoldable pub xor_rotr : List ℕ → ℕ → ℕ → ℕ → List ℕ
unfolding rotr
xor_rotr v i j n = set v i (rotr (bit_xor (at v i) (at v j)) n)

unfoldable pub g : List ℕ → ℕ → ℕ → ℕ → ℕ → ℕ → ℕ → List ℕ
unfolding add_word add xor_rotr
g v a b c d x y =
    let v1 = add_word v a b x in
    let v2 = xor_rotr v1 d a 32 in
    let v3 = add v2 c d in
    let v4 = xor_rotr v3 b c 24 in
    let v5 = add_word v4 a b y in
    let v6 = xor_rotr v5 d a 16 in let v7 = add v6 c d in xor_rotr v7 b c 63

-- One pass of the body of the loop in `f`, with the schedule `s` of the round.
unfoldable pub round : List ℕ → List ℕ → List ℕ → List ℕ
unfolding g
round m s v =
    let v1 = g v 0 4 8 12 (at m (at s 0)) (at m (at s 1)) in
    let v2 = g v1 1 5 9 13 (at m (at s 2)) (at m (at s 3)) in
    let v3 = g v2 2 6 10 14 (at m (at s 4)) (at m (at s 5)) in
    let v4 = g v3 3 7 11 15 (at m (at s 6)) (at m (at s 7)) in
    let v5 = g v4 0 5 10 15 (at m (at s 8)) (at m (at s 9)) in
    let v6 = g v5 1 6 11 12 (at m (at s 10)) (at m (at s 11)) in
    let v7 = g v6 2 7 8 13 (at m (at s 12)) (at m (at s 13)) in
    g v7 3 4 9 14 (at m (at s 14)) (at m (at s 15))

-- `for r in range(rounds)`: the rounds left, and the round that comes next.
unfoldable pub rounds_loop : List ℕ → ℕ → ℕ → List ℕ → List ℕ
unfolding round
rounds_loop m zero r v = v
rounds_loop m (suc left) r v = rounds_loop m left (suc r) (round m (get_or sigma (r % 10) []) v)

-- The state before the first round.
unfoldable pub start : List ℕ → ℕ → ℕ → Bool → List ℕ
start h t0 t1 last =
    let v = h ++ iv in
    let v1 = set v 12 (bit_xor (at v 12) t0) in
    let v2 = set v1 13 (bit_xor (at v1 13) t1) in
    if last then set v2 14 (bit_xor (at v2 14) mask) else v2

unfoldable pub f : List ℕ → List ℕ → ℕ → ℕ → Bool → ℕ → List ℕ
unfolding rounds_loop start
f h m t0 t1 last rounds =
    let v = rounds_loop m rounds 0 (start h t0 t1 last) in
    map (λ i. bit_xor (bit_xor (at h i) (at v i)) (at v (8 + i))) (range_from 0 8)
