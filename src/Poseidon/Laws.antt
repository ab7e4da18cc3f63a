-- ===== src/Poseidon/Laws.antt =====
-- The constants that packages/LeanPoseidon/scripts/gen_poseidon_params.py emits are the flattened
-- ones, whose number it asserts.
use etheorem.Common.{
  ℕ, zero, suc, ◌+◌, ◌*◌, ◌/◌, ◌%◌, ◌≤◌, ◌≡◌, inl, inr, refl, ap, true, some, List, [], ◌∷◌, ◌++◌,
  Text, length, length-append, get_elem?, take, Option-cases, arith,
}
use etheorem.Poseidon.{
  PoseidonData, full_rounds, partial_rounds, flatten_round_constants, cells, visit_full, visited,
  shape_holds,
}

take_short : (t : ℕ) (row : List Text) → length (take t row) ≤ t
take_short zero row = omega arith
take_short (suc t) [] = omega arith
take_short (suc t) (h ∷ row) = omega (arith, take_short t row)

-- A row with `t` entries or more has the cells that are taken from it.
cells-take : (t : ℕ) (row : List Text) → length (take t row) ≡ t → cells t row ≡ some (take t row)
unfolding cells
cells-take zero row h = refl
cells-take (suc t) [] h = absurd (omega arith)
cells-take (suc t) (h' ∷ row) h = rw (cells-take t row (omega arith)) refl

full_rounds-length :
    (rc : List (List Text)) (start n t : ℕ) (flat : List Text)
    → full_rounds rc start n t ≡ some flat
    → (length flat ≤ n * t) × (length flat ≡ n * t → visit_full rc start n t ≡ some flat)
unfolding full_rounds visit_full
full_rounds-length rc start zero t flat h =
    let same : [] ≡ flat = cc in rw (← same) (omega arith, λ k. refl)
full_rounds-length rc start (suc n) t flat h = elim (Option-cases (get_elem? rc start)) [
  | inl e ↦ absurd (let g = rw e at h in cc)
  | inr (row, e) ↦ elim (Option-cases (full_rounds rc (suc start) n t)) [
    | inl f ↦ absurd (let g = rw (e, f) at h in cc)
    | inr (rest, f) ↦
        let g = rw (e, f) at h in
        let same : take t row ++ rest ≡ flat = cc in
        let (short, exact) = full_rounds-length rc (suc start) n t rest f in
        let size : length flat ≡ length (take t row) + length rest =
          rw (← same) (length-append (take t row) rest) in
        let little = take_short t row in
        let more : suc n * t ≡ n * t + t = omega arith in
        (
          omega arith,
          λ k.
              let here = cells-take t row (omega arith) in
              let there = exact (omega arith) in rw (e, here, there) (ap some same),
        )
  ]
]

partial_rounds-length :
    (rc : List (List Text)) (start n : ℕ) (flat : List Text)
    → partial_rounds rc start n ≡ some flat
    → length flat ≡ n
unfolding partial_rounds
partial_rounds-length rc start zero flat h = let same : [] ≡ flat = cc in rw (← same) refl
partial_rounds-length rc start (suc n) flat h = elim (Option-cases (get_elem? rc start)) [
  | inl e ↦ absurd (let g = rw e at h in cc)
  | inr (row, e) ↦ elim (Option-cases (get_elem? row 0)) [
    | inl f ↦ absurd (let g = rw (e, f) at h in cc)
    | inr (entry, f) ↦ elim (Option-cases (partial_rounds rc (suc start) n)) [
      | inl r ↦ absurd (let g = rw (e, f, r) at h in cc)
      | inr (rest, r) ↦
          let g = rw (e, f, r) at h in
          let same : entry ∷ rest ≡ flat = cc in
          rw (← same) (ap suc (partial_rounds-length rc (suc start) n rest r))
    ]
  ]
]

halves : (h m n t : ℕ) → n ≡ h + h + m → h * t + h * t ≤ n * t
halves h m n t e = rw e (omega arith)

-- The asserted length leaves no short row.
both_full :
    (rounds_f rounds_p t : ℕ) (a b c : List Text)
    → length a ≤ rounds_f / 2 * t
    → length b ≡ rounds_p
    → length c ≤ rounds_f / 2 * t
    → length (a ++ (b ++ c)) ≡ rounds_f * t + rounds_p
    → (length a ≡ rounds_f / 2 * t) × (length c ≡ rounds_f / 2 * t)
both_full rounds_f rounds_p t a b c la lb lc whole =
    let s1 = length-append a (b ++ c) in
    let s2 = length-append b c in
    let twice : rounds_f / 2 * t + rounds_f / 2 * t ≤ rounds_f * t =
      halves (rounds_f / 2) (rounds_f % 2) rounds_f t (omega arith) in
    (omega arith, omega arith)

shape_length :
    (data_ : PoseidonData) (flat : List Text)
    → shape_holds data_ flat ≡ true
    → length flat ≡ data_.rounds_f * data_.t + data_.rounds_p
unfolding shape_holds
shape_length data_ flat h = ground arith

-- If the flattening works and its length is the one that is asserted, then the loops that emit the
-- constants visit exactly the flattened ones, in their order.
pub visited-flatten :
    (data_ : PoseidonData) (flat : List Text)
    → flatten_round_constants data_.rc (data_.rounds_f / 2) data_.rounds_p data_.t ≡ some flat
    → shape_holds data_ flat ≡ true
    → (a : List Text) × (b : List Text) × (c : List Text) × (visited data_ ≡ some (a, b, c))
      × (a ++ (b ++ c) ≡ flat)
unfolding flatten_round_constants visited shape_holds
visited-flatten data_ flat h shape =
    let half = data_.rounds_f / 2 in
    elim (Option-cases (full_rounds data_.rc 0 half data_.t)) [
      | inl e ↦ absurd (let g = rw e at h in cc)
      | inr (a, e) ↦ elim (Option-cases (partial_rounds data_.rc half data_.rounds_p)) [
        | inl f ↦ absurd (let g = rw (e, f) at h in cc)
        | inr (b, f) ↦
            elim (Option-cases (full_rounds data_.rc (half + data_.rounds_p) half data_.t)) [
              | inl r ↦ absurd (let g = rw (e, f, r) at h in cc)
              | inr (c, r) ↦
                  let g = rw (e, f, r) at h in
                  let same : a ++ (b ++ c) ≡ flat = cc in
                  let (la, va) = full_rounds-length data_.rc 0 half data_.t a e in
                  let (lc, vc) =
                    full_rounds-length data_.rc (half + data_.rounds_p) half data_.t c r in
                  let (full_a, full_c) =
                    both_full data_.rounds_f data_.rounds_p data_.t a b c la
                      (partial_rounds-length data_.rc half data_.rounds_p b f) lc
                      (rw (← same) at (shape_length data_ flat shape)) in
                  (a, b, c, rw (va full_a, f, vc full_c) refl, same)
            ]
      ]
    ]
