-- ===== src/SszHarness/Laws.antt =====
-- The loops of the harness's writes, entry by entry.
use etheorem.Common.{
  ℕ, zero, suc, ◌+◌, ◌≤◌, ◌<◌, ◌≡◌, ◌≢◌, refl, ap, sym, ◌∙◌, inl, inr, Bool, true, false, ◌&&◌,
  Option, none, some, List, [], ◌∷◌, map, get_elem?, set, length, length-set, length-map,
  range_from, All, ltb, leb, if◌then◌else◌, Bool-cases, Option-cases, ◌==◌, eq_of_==, arith,
}
use mathlib.Core.Path.{subst}
use etheorem.Common.Monad.{◌>>=◌}
use etheorem.SszHarness.Writes.{
  Ssz, BeaconState, writes_per_shape, byte32, root_bytes, update_at, update_range, mk_root,
  raise_by, raise_validator, write_thousand,
}

-- A root's bytes are 32, each of them a byte.
bytes-IsByte : (seed : ℕ) (xs : List ℕ) → All (λ b. b < 256) (map (byte32 seed) xs)
unfolding byte32
bytes-IsByte seed [] = tt
bytes-IsByte seed (x ∷ xs) = (omega arith, bytes-IsByte seed xs)

root_bytes_lem : (seed : ℕ) → (length (root_bytes seed) ≡ 32) × All (λ b. b < 256) (root_bytes seed)
unfolding root_bytes
root_bytes_lem seed =
    (length-map (byte32 seed) (range_from 0 32), bytes-IsByte seed (range_from 0 32))

abbrev pub inside : ℕ → ℕ → ℕ → Bool
inside start count j = leb start j && ltb j (start + count)

inside_none : (start j : ℕ) → inside start 0 j ≡ false
inside_none start j = ground arith

inside_first : (start count : ℕ) → inside start (suc count) start ≡ true
inside_first start count = ground arith

inside_past : (start count : ℕ) → inside (suc start) count start ≡ false
inside_past start count = ground arith

inside_next :
    (start count j : ℕ) → start ≢ j → inside (suc start) count j ≡ inside start (suc count) j
inside_next start count j h = ground arith

module _ {ℓ} {A : Type ℓ} where
  get-set_self :
      (xs : List A) (i : ℕ) (v x : A) → get_elem? xs i ≡ some x → get_elem? (set xs i v) i ≡ some v
  get-set_self [] i v x h = cc
  get-set_self (y ∷ xs) zero v x h = refl
  get-set_self (y ∷ xs) (suc i) v x h = get-set_self xs i v x h

  get-set_ne : (xs : List A) (i j : ℕ) (v : A) → i ≢ j → get_elem? (set xs i v) j ≡ get_elem? xs j
  get-set_ne [] i j v h = refl
  get-set_ne (x ∷ xs) zero zero v h = absurd (h refl)
  get-set_ne (x ∷ xs) zero (suc j) v h = refl
  get-set_ne (x ∷ xs) (suc i) zero v h = refl
  get-set_ne (x ∷ xs) (suc i) (suc j) v h = get-set_ne xs i j v (λ e. h (ap suc e))

  -- What the loop makes of one entry.
  abbrev pub entry_after : ℕ → ℕ → (ℕ → A → Option A) → List A → ℕ → Option A
  entry_after start count change xs j =
      if inside start count j then get_elem? xs j >>= change j else get_elem? xs j

  update_at-get :
      (i : ℕ) (change : A → Option A) (xs ys : List A)
      → update_at i change xs ≡ some ys
      → (x : A) × (y : A) × (get_elem? xs i ≡ some x) × (change x ≡ some y) × (ys ≡ set xs i y)
  unfolding update_at
  update_at-get i change xs ys h = elim (Option-cases (get_elem? xs i)) [
    | inl e ↦ let k = rw e at h in cc
    | inr (x, e) ↦ elim (Option-cases (change x)) [
      | inl c ↦ let k = rw (e, c) at h in cc
      | inr (y, c) ↦ let k = rw (e, c) at h in (x, y, e, c, cc)
    ]
  ]

  -- The entry written first, which the later rounds leave as it is.
  entry_first :
      (start count j : ℕ) (change : ℕ → A → Option A) (xs : List A) (x y : A)
      → start ≡ j
      → get_elem? xs start ≡ some x
      → change start x ≡ some y
      → entry_after (suc start) count change (set xs start y) j
        ≡ entry_after start (suc count) change xs j
  entry_first start count j change xs x y e g c =
      rw (sym e, inside_past start count, inside_first start count, g, c)
        (get-set_self xs start y x g)

  entry_other :
      (start count j : ℕ) (change : ℕ → A → Option A) (xs : List A) (y : A)
      → start ≢ j
      → entry_after (suc start) count change (set xs start y) j
        ≡ entry_after start (suc count) change xs j
  entry_other start count j change xs y h =
      rw (inside_next start count j h, get-set_ne xs start j y h) refl

  pub update_range-get :
      (start count : ℕ) (change : ℕ → A → Option A) (xs ys : List A)
      → update_range start count change xs ≡ some ys
      → (j : ℕ) → get_elem? ys j ≡ entry_after start count change xs j
  unfolding update_range
  update_range-get start zero change xs ys h j =
      let same : xs ≡ ys = cc in
      rw (inside_none start j) (ap (λ (t : List A). get_elem? t j) (sym same))
  update_range-get start (suc count) change xs ys h j =
      elim (Option-cases (update_at start (change start) xs)) [
        | inl e ↦ let k = rw e at h in cc
        | inr (zs, e) ↦
            let k = rw e at h in
            let ih = update_range-get (suc start) count change zs ys k j in
            let (x, y, g, c, s) = update_at-get start (change start) xs zs e in
            let written = rw s at ih in
            written ∙ elim (Bool-cases (start == j)) [
              | inl q ↦ entry_first start count j change xs x y (eq_of_== start j q) g c
              | inr q ↦ entry_other start count j change xs y (λ r. ground arith)
            ]
      ]

  get-lt : (xs : List A) (i : ℕ) (x : A) → get_elem? xs i ≡ some x → i < length xs
  get-lt [] i x h = cc
  get-lt (y ∷ xs) zero x h = omega arith
  get-lt (y ∷ xs) (suc i) x h = omega (arith, get-lt xs i x h)

  pub update_range-length :
      (start count : ℕ) (change : ℕ → A → Option A) (xs ys : List A)
      → start ≤ length xs
      → update_range start count change xs ≡ some ys
      → (start + count ≤ length xs) × (length ys ≡ length xs)
  unfolding update_range
  update_range-length start zero change xs ys b h =
      let same : xs ≡ ys = cc in (omega arith, ap (λ (t : List A). length t) (sym same))
  update_range-length start (suc count) change xs ys b h =
      elim (Option-cases (update_at start (change start) xs)) [
        | inl e ↦ let k = rw e at h in cc
        | inr (zs, e) ↦
            let k = rw e at h in
            let (x, y, g, c, s) = update_at-get start (change start) xs zs e in
            let whole : length zs ≡ length xs = rw s (length-set xs start y) in
            let here = get-lt xs start x g in
            let (fits, same) = update_range-length (suc start) count change zs ys (omega arith) k in
            (omega arith, omega arith)
      ]

bind-some :
    {A B : Type 0} (o : Option A) (f : A → Option B) {b : B}
    → (o >>= f) ≡ some b
    → (a : A) × (o ≡ some a) × (f a ≡ some b)
bind-some none f h = cc
bind-some (some a) f h = (a, refl, h)

module _ {U B R S : Type 0} (l : Ssz U B R S) where
  -- The root that the writes make from a seed is always of the type that `Bytes32` asks for, 32 entries
  -- below 256, so that no seed makes `mk_root` raise.
  pub mk_root_total :
      ((bs : List ℕ) → length bs ≡ 32 → All (λ b. b < 256) bs → (r : B) × (l.bytes32 bs ≡ some r))
      → (seed : ℕ) → (r : B) × (mk_root l seed ≡ some r)
  unfolding mk_root
  mk_root_total accepts seed =
      let (size, small) = root_bytes_lem seed in accepts (root_bytes seed) size small

  -- Of two states: each entry of the four lists, the lists' lengths, and the other fields.
  pub record Written (s t : BeaconState U B R S) : Type 0 where
    validators :
        (j : ℕ)
        → get_elem? t.validators j
          ≡ entry_after 0 writes_per_shape (raise_validator l) s.validators j
    balances :
        (j : ℕ)
        → get_elem? t.balances j
          ≡ entry_after 0 writes_per_shape (λ i. raise_by l 12345) s.balances j
    block_roots :
        (j : ℕ)
        → get_elem? t.block_roots j
          ≡ entry_after 0 writes_per_shape (λ i old. mk_root l (i + 90000)) s.block_roots j
    randao_mixes :
        (j : ℕ)
        → get_elem? t.randao_mixes j
          ≡ entry_after 0 writes_per_shape (λ i old. mk_root l (i + 95000)) s.randao_mixes j
    many_validators :
        (0 + writes_per_shape ≤ length s.validators) × (length t.validators ≡ length s.validators)
    many_balances :
        (0 + writes_per_shape ≤ length s.balances) × (length t.balances ≡ length s.balances)
    many_roots :
        (0 + writes_per_shape ≤ length s.block_roots)
        × (length t.block_roots ≡ length s.block_roots)
    many_mixes :
        (0 + writes_per_shape ≤ length s.randao_mixes)
        × (length t.randao_mixes ≡ length s.randao_mixes)
    same_slot : t.slot ≡ s.slot
    same_others : t.others ≡ s.others

  some-inj : {A : Type 0} (a b : A) → some a ≡ some b → a ≡ b
  some-inj a b h = cc

  -- The thousand writes, where none of them raises, change entry `j` of each of the four lists once,
  -- by its own rule, for every `j` below 250, and no entry from 250 on; each list had 250 entries at
  -- least and keeps its length, and the slot and the other fields keep their values.
  pub write_thousand-Written :
      (s t : BeaconState U B R S) → write_thousand l s ≡ some t → Written s t
  unfolding write_thousand
  write_thousand-Written s t h =
      let (validators, a, h1) =
        bind-some (update_range 0 writes_per_shape (raise_validator l) s.validators) _ h in
      let (balances, b, h2) =
        bind-some (update_range 0 writes_per_shape (λ i. raise_by l 12345) s.balances) _ h1 in
      let (roots, c, h3) =
        bind-some (update_range 0 writes_per_shape (λ i old. mk_root l (i + 90000)) s.block_roots) _
          h2 in
      let (mixes, d, h4) =
        bind-some (update_range 0 writes_per_shape (λ i old. mk_root l (i + 95000)) s.randao_mixes)
          _ h3 in
      subst (λ t. Written s t) (some-inj _ t h4)
        (record {
          validators = update_range-get 0 writes_per_shape _ s.validators validators a;
          balances = update_range-get 0 writes_per_shape _ s.balances balances b;
          block_roots = update_range-get 0 writes_per_shape _ s.block_roots roots c;
          randao_mixes = update_range-get 0 writes_per_shape _ s.randao_mixes mixes d;
          many_validators =
              update_range-length 0 writes_per_shape _ s.validators validators (omega arith) a;
          many_balances =
              update_range-length 0 writes_per_shape _ s.balances balances (omega arith) b;
          many_roots = update_range-length 0 writes_per_shape _ s.block_roots roots (omega arith) c;
          many_mixes =
              update_range-length 0 writes_per_shape _ s.randao_mixes mixes (omega arith) d;
          same_slot = refl;
          same_others = refl;
        })
