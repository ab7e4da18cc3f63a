-- ===== src/Pyspec/Walk/Laws.antt =====
-- What the walks over the cases yield.
use etheorem.Common.{
  ℕ, zero, suc, ◌-◌, ◌≡◌, inl, inr, refl, ap, sym, ◌∙◌, true, false, Option, none, some, List, [],
  ◌∷◌, Text, text_eq, text_eq_sound, text_eq_refl, take, leb, if◌then◌else◌, Bool-cases, arith,
}
use etheorem.Pyspec.Walk.{
  Dirs, Key, key_eq, count_of, bump, over, capped, runner_key, candidates, walk_cases,
}
use etheorem.Pyspec.Walk.Generic.{GenericCase, Triple, triple_of, mem_triple, kind_key, emit}

key_eq_sound : (j k : Key) → key_eq j k ≡ true → j ≡ k
key_eq_sound (a, b) (c, d) h =
    let p : text_eq a c ≡ true = ground arith in
    let q : text_eq b d ≡ true = ground arith in rw (text_eq_sound a c p, text_eq_sound b d q) refl

key_eq_refl : (k : Key) → key_eq k k ≡ true
key_eq_refl (a, b) = rw (text_eq_refl a, text_eq_refl b) refl

count_of-bump_same :
    (k : Key) (counts : List (Key × ℕ)) → count_of k (bump k counts) ≡ suc (count_of k counts)
unfolding count_of bump
count_of-bump_same k [] = rw (key_eq_refl k) refl
count_of-bump_same k ((j, n) ∷ counts) = elim (Bool-cases (key_eq j k)) [
  | inl e ↦ rw (e, e) refl
  | inr e ↦ rw (e, e) (count_of-bump_same k counts)
]

count_of-bump_other :
    (j k : Key) (counts : List (Key × ℕ))
    → key_eq j k ≡ false
    → count_of k (bump j counts) ≡ count_of k counts
unfolding count_of bump
count_of-bump_other j k [] h = rw h refl
count_of-bump_other j k ((i, n) ∷ counts) h = elim (Bool-cases (key_eq i j)) [
  | inl e ↦
      let same = key_eq_sound i j e in
      let apart : key_eq i k ≡ false = rw same h in rw (e, apart) refl
  | inr e ↦ elim (Bool-cases (key_eq i k)) [
    | inl f ↦ rw (e, f) refl
    | inr f ↦ rw (e, f) (count_of-bump_other j k counts h)
  ]
]

none_left : (limit n : ℕ) → leb limit n ≡ true → limit - n ≡ 0
none_left limit n h = ground arith

one_left : (limit n : ℕ) → leb limit n ≡ false → limit - n ≡ suc (limit - suc n)
one_left limit n h = ground arith

module _ {ℓ} {A : Type ℓ} (key_of : A → Key) where
  -- The entries with a key, in order.
  unfoldable pub having : Key → List A → List A
  having k [] = []
  having k (a ∷ rest) =
      let others = having k rest in if key_eq (key_of a) k then a ∷ others else others

  take_nothing : (n : ℕ) (xs : List A) → xs ≡ [] → take n xs ≡ []
  take_nothing zero xs h = refl
  take_nothing (suc n) xs h = rw h refl

  -- With a limit, what is yielded for each key is its first entries, as many as the limit leaves.
  having-capped :
      (limit : ℕ) (k : Key) (counts : List (Key × ℕ)) (xs : List A)
      → having k (capped key_of (some limit) counts xs)
        ≡ take (limit - count_of k counts) (having k xs)
  unfolding having capped
  having-capped limit k counts [] = sym (take_nothing (limit - count_of k counts) [] refl)
  having-capped limit k counts (a ∷ xs) =
      elim (Bool-cases (leb limit (count_of (key_of a) counts))) [
        | inl e ↦ elim (Bool-cases (key_eq (key_of a) k)) [
          | inl f ↦
              let full : limit - count_of k counts ≡ 0 =
                none_left limit _ (rw (key_eq_sound (key_of a) k f) at e) in
              rw (e, f, full) (having-capped limit k counts xs ∙ rw full refl)
          | inr f ↦ rw (e, f) (having-capped limit k counts xs)
        ]
        | inr e ↦ elim (Bool-cases (key_eq (key_of a) k)) [
          | inl f ↦
              let same = key_eq_sound (key_of a) k f in
              let more : count_of k (bump (key_of a) counts) ≡ suc (count_of k counts) =
                rw same (count_of-bump_same k counts) in
              rw (e, f, one_left limit _ (rw same at e))
                (ap (λ r. a ∷ r)
                  (having-capped limit k (bump (key_of a) counts) xs
                    ∙ ap (λ n. take (limit - n) (having k xs)) more))
          | inr f ↦
              rw (e, f)
                (having-capped limit k (bump (key_of a) counts) xs
                  ∙ ap (λ n. take (limit - n) (having k xs))
                      (count_of-bump_other (key_of a) k counts f))
        ]
      ]

  capped_all : (counts : List (Key × ℕ)) (xs : List A) → capped key_of none counts xs ≡ xs
  unfolding capped
  capped_all counts [] = refl
  capped_all counts (a ∷ xs) = ap (λ r. a ∷ r) (capped_all (bump (key_of a) counts) xs)

nothing_yet : (limit : ℕ) (k : Key) → limit - count_of k [] ≡ limit
unfolding count_of
nothing_yet limit k = omega arith

-- Without a limit the walk yields every case that it finds. With a limit it yields, for each pair
-- of a runner and a handler, the first of those that it finds, up to the limit.
pub walk_cases-having :
    (dirs : Dirs) (preset fork root : Text) (limit : ℕ) (k : Key)
    → (walk_cases dirs preset fork root none ≡ candidates dirs preset fork root)
      × (having runner_key k (walk_cases dirs preset fork root (some limit))
          ≡ take limit (having runner_key k (candidates dirs preset fork root)))
unfolding walk_cases
walk_cases-having dirs preset fork root limit k = (
  capped_all runner_key [] (candidates dirs preset fork root),
  having-capped runner_key limit k [] (candidates dirs preset fork root)
      ∙ ap (λ n. take n (having runner_key k (candidates dirs preset fork root)))
          (nothing_yet limit k),
)

-- The first case of every triple that was not seen before.
unfoldable pub dedup : List Triple → List GenericCase → List GenericCase
dedup seen [] = []
dedup seen (c ∷ rest) =
    let known = dedup seen rest in
    let fresh = dedup (triple_of c ∷ seen) rest in
    if mem_triple (triple_of c) seen then known else c ∷ fresh

-- The loop that looks after both the triples seen and the counts is the removal of what was seen
-- before, and then the cap.
pub emit-dedup :
    (limit : Option ℕ) (seen : List Triple) (counts : List (Key × ℕ)) (cs : List GenericCase)
    → emit limit seen counts cs ≡ capped kind_key limit counts (dedup seen cs)
unfolding emit dedup capped
emit-dedup limit seen counts [] = refl
emit-dedup limit seen counts (c ∷ rest) = elim (Bool-cases (mem_triple (triple_of c) seen)) [
  | inl e ↦ rw e (emit-dedup limit seen counts rest)
  | inr e ↦ elim (Bool-cases (over limit (count_of (kind_key c) counts))) [
    | inl f ↦ rw (e, f) (emit-dedup limit (triple_of c ∷ seen) counts rest)
    | inr f ↦
        rw (e, f)
          (ap (λ r. c ∷ r) (emit-dedup limit (triple_of c ∷ seen) (bump (kind_key c) counts) rest))
  ]
]
