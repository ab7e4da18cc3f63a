-- ===== src/Pyspec/ForkChoice/Members.antt =====
-- Which texts stand in the lists that the fork-choice script's unknown keys are made from.
use mathlib.Core.List.{flat_map}
use mathlib.Core.Path.{subst}
use etheorem.Common.{
  ℕ, zero, suc, ◌≡◌, ◌⊎◌, inl, inr, refl, ap, sym, Bool, true, false, ◌||◌, Option, none, some,
  List, [], ◌∷◌, ◌++◌, map, Text, codes, text_eq, text_eq_sound, text_eq_refl, mem_text, get_elem?,
  Bool-cases, arith,
}
use etheorem.Common.Strings.Order.{sort, insert_sorted}
use etheorem.Pyspec.ForkChoice.{
  Leaf, once, filtered, unknown_below, unknown_leaves, unknown_in, unknown_viable,
}

-- The text is one of the list's.
abbrev pub In : Text → List Text → Type 0
In k ks = mem_text k ks ≡ true

or_last : (a b : Bool) → b ≡ true → (a || b) ≡ true
or_last true b h = refl
or_last false b h = h

pub append-In : (k : Text) (xs ys : List Text) → In k (xs ++ ys) → In k xs ⊎ In k ys
unfolding mem_text
append-In k [] ys h = inr h
append-In k (x ∷ xs) ys h = elim (Bool-cases (text_eq k x)) [
  | inl e ↦ inl (rw e refl)
  | inr e ↦ elim (append-In k xs ys (rw e at h)) [ inl a ↦ inl (rw e a) | inr b ↦ inr b ]
]

pub In-left : (k : Text) (xs ys : List Text) → In k xs → In k (xs ++ ys)
unfolding mem_text
In-left k [] ys h = cc
In-left k (x ∷ xs) ys h = ground (arith, In-left k xs ys)

pub In-right : (k : Text) (xs ys : List Text) → In k ys → In k (xs ++ ys)
unfolding mem_text
In-right k [] ys h = h
In-right k (x ∷ xs) ys h = ground (arith, In-right k xs ys h)

pub filtered-In :
    (known : List Text) (k : Text) (keys : List Text)
    → In k (filtered known keys)
    → In k keys × (mem_text k known ≡ false)
unfolding filtered mem_text
filtered-In known k [] h = cc
filtered-In known k (x ∷ keys) h = elim (Bool-cases (mem_text x known)) [
  | inl e ↦ let (a, b) = filtered-In known k keys (rw e at h) in (or_last (text_eq k x) _ a, b)
  | inr e ↦ elim (Bool-cases (text_eq k x)) [
    | inl q ↦ (rw q refl, subst (λ t. mem_text t known ≡ false) (sym (text_eq_sound k x q)) e)
    | inr q ↦
        let g = rw e at h in
        let (a, b) = filtered-In known k keys (rw q at g) in (or_last (text_eq k x) _ a, b)
  ]
]

pub In-filtered :
    (known : List Text) (k : Text) (keys : List Text)
    → In k keys
    → mem_text k known ≡ false
    → In k (filtered known keys)
unfolding filtered mem_text
In-filtered known k [] h e = cc
In-filtered known k (x ∷ keys) h e = elim (Bool-cases (text_eq k x)) [
  | inl q ↦ let d = subst (λ t. mem_text t known ≡ false) (text_eq_sound k x q) e in rw (d, q) refl
  | inr q ↦
      let later = In-filtered known k keys (rw q at h) e in
      elim (Bool-cases (mem_text x known)) [
        | inl d ↦ rw d later
        | inr d ↦ rw d (or_last (text_eq k x) _ later)
      ]
]

pub map-In :
    (f : Text → Text) (k : Text) (ks : List Text)
    → In k (map f ks)
    → (a : Text) × (k ≡ f a) × In a ks
unfolding mem_text
map-In f k [] h = cc
map-In f k (x ∷ ks) h = elim (Bool-cases (text_eq k (f x))) [
  | inl e ↦ (x, text_eq_sound k (f x) e, rw (text_eq_refl x) refl)
  | inr e ↦ let (a, same, there) = map-In f k ks (rw e at h) in (a, same, or_last _ _ there)
]

pub In-map : (f : Text → Text) (a : Text) (ks : List Text) → In a ks → In (f a) (map f ks)
unfolding mem_text
In-map f a [] h = cc
In-map f a (x ∷ ks) h = elim (Bool-cases (text_eq a x)) [
  | inl e ↦ let same = text_eq_sound a x e in rw same (rw (text_eq_refl (f x)) refl)
  | inr e ↦ or_last _ _ (In-map f a ks (rw e at h))
]

once-mem_text : (k : Text) (ks : List Text) → mem_text k (once ks) ≡ mem_text k ks
unfolding once mem_text
once-mem_text k [] = refl
once-mem_text k (x ∷ ks) = elim (Bool-cases (mem_text x (once ks))) [
  | inl e ↦ elim (Bool-cases (text_eq k x)) [
    | inl q ↦
        let there = subst (λ t. mem_text t (once ks) ≡ true) (sym (text_eq_sound k x q)) e in
        rw (e, q) there
    | inr q ↦ rw (e, q) (once-mem_text k ks)
  ]
  | inr e ↦ rw e (ap (λ b. text_eq k x || b) (once-mem_text k ks))
]

insert_sorted-mem_text :
    (leq : Text → Text → Bool) (k x : Text) (ks : List Text)
    → mem_text k (insert_sorted leq x ks) ≡ mem_text k (x ∷ ks)
unfolding insert_sorted mem_text
insert_sorted-mem_text leq k x [] = refl
insert_sorted-mem_text leq k x (y ∷ ks) = ground (arith, insert_sorted-mem_text leq k x ks)

pub sort-mem_text :
    (leq : Text → Text → Bool) (k : Text) (ks : List Text)
    → mem_text k (sort leq ks) ≡ mem_text k ks
unfolding sort mem_text
sort-mem_text leq k [] = refl
sort-mem_text leq k (x ∷ ks) =
    rw (insert_sorted-mem_text leq k x (sort leq ks), sort-mem_text leq k ks) refl

pub set-mem_text :
    (leq : Text → Text → Bool) (k : Text) (ks : List Text)
    → mem_text k (sort leq (once ks)) ≡ mem_text k ks
set-mem_text leq k ks = rw (sort-mem_text leq k (once ks), once-mem_text k ks) refl

some-inj : {A : Type 0} (a b : A) → some a ≡ some b → a ≡ b
some-inj a b e = cc

pub flat_map-In :
    {A : Type 0} (f : A → List Text) (k : Text) (xs : List A)
    → In k (flat_map f xs)
    → (i : ℕ) × (a : A) × (get_elem? xs i ≡ some a) × In k (f a)
unfolding flat_map mem_text
flat_map-In f k [] h = cc
flat_map-In f k (x ∷ xs) h = elim (append-In k (f x) (flat_map f xs) h) [
  | inl e ↦ (0, x, refl, e)
  | inr e ↦ let (i, a, at, there) = flat_map-In f k xs e in (suc i, a, at, there)
]

pub In-flat_map :
    {A : Type 0} (f : A → List Text) (k : Text) (xs : List A) (i : ℕ) (a : A)
    → get_elem? xs i ≡ some a
    → In k (f a)
    → In k (flat_map f xs)
unfolding flat_map mem_text
In-flat_map f k [] i a at h = cc
In-flat_map f k (x ∷ xs) zero a at h =
    In-left k (f x) (flat_map f xs) (subst (λ y. In k (f y)) (sym (some-inj x a at)) h)
In-flat_map f k (x ∷ xs) (suc i) a at h =
    In-right k (f x) (flat_map f xs) (In-flat_map f k xs i a at h)

-- The unknown subkeys below a parent.
pub unknown_below-In :
    (parent : Text) (known : List Text) (key : Text) (keys : List Text)
    → In key (unknown_below parent known keys)
    → (k : Text) × (key ≡ parent ++ (codes "." ++ k)) × In k keys × (mem_text k known ≡ false)
unfolding unknown_below
unknown_below-In parent known key keys h =
    let (k, same, there) = map-In (λ k. parent ++ (codes "." ++ k)) key (filtered known keys) h in
    let (a, b) = filtered-In known k keys there in (k, same, a, b)

pub In-unknown_below :
    (parent : Text) (known : List Text) (k : Text) (keys : List Text)
    → In k keys
    → mem_text k known ≡ false
    → In (parent ++ (codes "." ++ k)) (unknown_below parent known keys)
unfolding unknown_below
In-unknown_below parent known k keys h e =
    In-map (λ k. parent ++ (codes "." ++ k)) k (filtered known keys) (In-filtered known k keys h e)

pub unknown_in-In :
    {A : Type 0} (keys_of : A → List Text) (parent : Text) (known : List Text) (key : Text)
    (o : Option A)
    → In key (unknown_in keys_of parent known o)
    → (a : A) × (o ≡ some a) × In key (unknown_below parent known (keys_of a))
unfolding unknown_in mem_text
unknown_in-In keys_of parent known key none h = cc
unknown_in-In keys_of parent known key (some a) h = (a, refl, h)

pub In-unknown_in :
    {A : Type 0} (keys_of : A → List Text) (parent : Text) (known : List Text) (key : Text)
    (o : Option A) (a : A)
    → o ≡ some a
    → In key (unknown_below parent known (keys_of a))
    → In key (unknown_in keys_of parent known o)
unfolding unknown_in
In-unknown_in keys_of parent known key o a e h = rw e h

pub unknown_viable-In :
    (key : Text) (o : Option (List Leaf))
    → In key (unknown_viable o)
    → (es : List Leaf) × (o ≡ some es) × In key (unknown_leaves es)
unfolding unknown_viable mem_text
unknown_viable-In key none h = cc
unknown_viable-In key (some es) h = (es, refl, h)

pub In-unknown_viable :
    (key : Text) (o : Option (List Leaf)) (es : List Leaf)
    → o ≡ some es
    → In key (unknown_leaves es)
    → In key (unknown_viable o)
unfolding unknown_viable
In-unknown_viable key o es e h = rw e h
