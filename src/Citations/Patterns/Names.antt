-- ===== src/Citations/Patterns/Names.antt =====
-- What `decl_pattern` of scripts/check_citations.py says of a line.
use etheorem.Common.{
  ℕ, ◌≡◌, ◌↔◌, ◌⊎◌, inl, inr, refl, ap, Bool, true, false, ◌&&◌, ◌||◌, some, [], ◌∷◌, ◌++◌, Text,
  drop, length, starts_with, ◌==◌, Bool-cases, Option-cases, arith,
}
use mathlib.Core.Path.{subst}
use etheorem.Common.Unicode.{Unicode}
use etheorem.Common.Strings.Lines.{lstrip}
use etheorem.Common.Strings.Scan.{behind}
use etheorem.Common.Strings.Scan.Laws.{behind-append}
use etheorem.Citations.Patterns.{
  decl_keywords, skip_modifiers, behind_word, word_ends, names_here, names_behind_dot, decl_matches,
}

starts_with_sound : (s p : Text) → starts_with s p ≡ true → s ≡ p ++ drop (length p) s
unfolding starts_with
starts_with_sound s [] h = refl
starts_with_sound [] (b ∷ p) h = cc
starts_with_sound (a ∷ s) (b ∷ p) h = ground (arith, starts_with_sound s p)

behind_sound : (p s rest : Text) → behind p s ≡ some rest → s ≡ p ++ rest
unfolding behind
behind_sound p s rest h = elim (Bool-cases (starts_with s p)) [
  | inl e ↦
      let g = rw e at h in
      let same : drop (length p) s ≡ rest = cc in
      subst (λ t. s ≡ p ++ t) same (starts_with_sound s p e)
  | inr e ↦ let g = rw e at h in cc
]

module _ (u : Unicode) (name : Text) where
  -- The name stands at the start of the text, and no word character follows it.
  abbrev pub Begins : Text → Type 0
  Begins s = (rest : Text) × (s ≡ name ++ rest) × (word_ends u rest ≡ true)

  -- The name stands so behind some dot of the text.
  abbrev pub BehindDot : Text → Type 0
  BehindDot s = (front : Text) × (back : Text) × (s ≡ front ++ b'.' ∷ back) × Begins back

  -- A declaration line in the sense of the pattern: behind modifiers and a keyword that a space
  -- follows, the name comes at once or behind some dot of what is left of the line. That need not be
  -- the name that is declared: a projection in the declaration's type will do.
  abbrev pub Mentions : Text → Type 0
  Mentions line =
      (tail : Text) × (behind_word decl_keywords (skip_modifiers (length line) line) ≡ some tail)
      × (Begins (lstrip tail) ⊎ BehindDot (lstrip tail))

  names_here-Begins : (s : Text) → names_here u name s ≡ true → Begins s
  unfolding names_here
  names_here-Begins s h = elim (Option-cases (behind name s)) [
    | inl e ↦ let g = rw (e, names_here) at h in cc
    | inr (rest, e) ↦ (rest, behind_sound name s rest e, rw (e, names_here) at h)
  ]

  names_here_complete : (s : Text) → Begins s → names_here u name s ≡ true
  unfolding names_here
  names_here_complete s (rest, e, ends) = rw (e, names_here, behind-append name rest) ends

  names_behind_dot-BehindDot : (s : Text) → names_behind_dot u name s ≡ true → BehindDot s
  unfolding names_behind_dot
  names_behind_dot-BehindDot [] h = cc
  names_behind_dot-BehindDot (c ∷ s) h = elim (Bool-cases ((c == b'.') && names_here u name s)) [
    | inl e ↦
        let dot : c ≡ b'.' = ground arith in
        ([], s, ap (λ (x : ℕ). x ∷ s) dot, names_here-Begins s (ground arith))
    | inr e ↦
        let (front, back, same, begins) = names_behind_dot-BehindDot s (rw e at h) in
        (c ∷ front, back, ap (λ (t : Text). c ∷ t) same, begins)
  ]

  names_behind_dot_complete :
      (front back : Text) → Begins back → names_behind_dot u name (front ++ b'.' ∷ back) ≡ true
  unfolding names_behind_dot
  names_behind_dot_complete [] back b = rw (names_here_complete back b) refl
  names_behind_dot_complete (c ∷ front) back b =
      let later = names_behind_dot_complete front back b in
      or_true ((c == b'.') && names_here u name (front ++ b'.' ∷ back)) _ later
    where
      or_true : (a b : Bool) → b ≡ true → (a || b) ≡ true
      or_true true b h = refl
      or_true false b h = h

  either-Mentioned :
      (s : Text)
      → ((names_here u name s || names_behind_dot u name s) ≡ true) ↔ (Begins s ⊎ BehindDot s)
  either-Mentioned s = (
    λ h. elim (Bool-cases (names_here u name s)) [
      | inl e ↦ inl (names_here-Begins s e)
      | inr e ↦ inr (names_behind_dot-BehindDot s (rw e at h))
    ],
    λ m. elim m [
      | inl b ↦ rw (names_here_complete s b) refl
      | inr (front, back, e, b) ↦
          let there : names_behind_dot u name s ≡ true =
            rw e (names_behind_dot_complete front back b) in
          or_last (names_here u name s) _ there
    ],
  )
    where
      or_last : (a b : Bool) → b ≡ true → (a || b) ≡ true
      or_last true b h = refl
      or_last false b h = h

  -- The pattern for a name matches the lines that mention it.
  pub decl_matches_iff : (line : Text) → (decl_matches u name line ≡ true) ↔ Mentions line
  unfolding decl_matches
  decl_matches_iff line =
      elim (Option-cases (behind_word decl_keywords (skip_modifiers (length line) line))) [
        | inl e ↦ (
          λ h. absurd (let g = rw (e, decl_matches) at h in cc),
          λ (tail, e', b). absurd (let g = rw e at e' in cc),
        )
        | inr (tail, e) ↦ (
          λ h. (tail, e, (either-Mentioned (lstrip tail)).0 (rw (e, decl_matches) at h)),
          λ (tail', e', b). rw (e', decl_matches) ((either-Mentioned (lstrip tail')).1 b),
        )
      ]
