-- ===== src/Common/Assoc.antt =====
-- A `dict` with text keys: its items in the order in which they came.
use etheorem.Common.{
  ◌≡◌, refl, inl, inr, Bool, true, false, Option, none, some, List, [], ◌∷◌, ◌++◌, Text, text_eq,
  text_eq_refl, if◌then◌else◌, Bool-cases, arith,
}

pub Assoc {ℓ} : Type ℓ → Type ℓ
Assoc A = List (Text × A)

module _ {ℓ} {A : Type ℓ} where
  -- `d.get(key)`
  unfoldable pub lookup : Text → List (Text × A) → Option A
  unfolding text_eq
  lookup key [] = none
  lookup key ((k, v) ∷ d) = let rest = lookup key d in if text_eq k key then some v else rest

  -- `key in d`
  abbrev pub has : Text → List (Text × A) → Bool
  has key d = elim (lookup key d) [ none ↦ false | some v ↦ true ]

  -- `d.setdefault(key, value)`
  unfoldable pub set_default : Text → A → List (Text × A) → List (Text × A)
  unfolding lookup
  set_default key value d = if has key d then d else d ++ (key, value) ∷ []

  -- `d[key] = value`
  unfoldable pub assign : Text → A → List (Text × A) → List (Text × A)
  unfolding text_eq
  assign key value [] = (key, value) ∷ []
  assign key value ((k, v) ∷ d) =
      let rest = assign key value d in if text_eq k key then (k, value) ∷ d else (k, v) ∷ rest

  lookup-append_some :
      (key : Text) (d e : List (Text × A)) (v : A)
      → lookup key d ≡ some v
      → lookup key (d ++ e) ≡ some v
  unfolding lookup
  lookup-append_some key [] e v h = cc
  lookup-append_some key ((k, w) ∷ d) e v h = elim (Bool-cases (text_eq k key)) [
    | inl q ↦ let g = rw q at h in rw q g
    | inr q ↦ let g = rw q at h in rw q (lookup-append_some key d e v g)
  ]

  lookup-append_none :
      (key : Text) (d e : List (Text × A))
      → lookup key d ≡ none
      → lookup key (d ++ e) ≡ lookup key e
  unfolding lookup
  lookup-append_none key [] e h = refl
  lookup-append_none key ((k, w) ∷ d) e h = elim (Bool-cases (text_eq k key)) [
    | inl q ↦ absurd (let g = rw q at h in cc)
    | inr q ↦ let g = rw q at h in rw q (lookup-append_none key d e g)
  ]

  -- A key keeps the value that it had first.
  pub set_default-keeps :
      (key other : Text) (v w : A) (d : List (Text × A))
      → lookup key d ≡ some v
      → lookup key (set_default other w d) ≡ some v
  unfolding set_default
  set_default-keeps key other v w d h =
      ground (arith, lookup-append_some key d ((other, w) ∷ []) v h)

  pub set_default-new :
      (key : Text) (w : A) (d : List (Text × A))
      → lookup key d ≡ none
      → lookup key (set_default key w d) ≡ some w
  unfolding set_default lookup
  set_default-new key w d h =
      ground (arith, lookup-append_none key d ((key, w) ∷ []) h, text_eq_refl key)
