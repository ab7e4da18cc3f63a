-- ===== src/Citations/Span/Places.antt =====
-- Where `actual_span` can find a declaration.
use etheorem.Common.{
  ℕ, ◌-◌, ◌≤◌, ◌<◌, ◌≡◌, refl, inl, inr, true, false, ◌&&◌, Option, none, some, List, Text, length,
  leb, Bool-cases, Option-cases, arith,
}
use etheorem.Common.Unicode.{Unicode}
use etheorem.Citations.Patterns.{decl_line}
use etheorem.Citations.Patterns.Names.{Mentions, decl_matches_iff}
use etheorem.Citations.Span.{line_at, lookup_name, opening, actual_span}
use etheorem.Citations.Span.Lookup.{actual_span_sound, actual_span_missing}

module _ (u : Unicode) where
  -- Some line mentions the name; where there is none, the start line opens a declaration.
  abbrev pub Somewhere : Option Text → List Text → ℕ → Type 0
  Somewhere none lines start = decl_line u (line_at lines (start - 1)) ≡ true
  Somewhere (some name) lines start =
      (j : ℕ) × (j < length lines) × Mentions u name (line_at lines j)

  unnamed_none :
      (lines : List Text) (start : ℕ) (name : Option Text)
      → lookup_name name ≡ none
      → decl_line u (line_at lines (start - 1)) ≡ false
      → actual_span u lines start name ≡ none
  unfolding actual_span opening
  unnamed_none lines start name e d = elim (Bool-cases (leb 1 start && leb start (length lines))) [
    | inl r ↦ rw (r, e, d) refl
    | inr r ↦ rw r refl
  ]

  in_range :
      (lines : List Text) (start s e : ℕ) (name : Option Text)
      → actual_span u lines start name ≡ some (s, e)
      → (leb 1 start && leb start (length lines)) ≡ true
  unfolding actual_span
  in_range lines start s e name h = elim (Bool-cases (leb 1 start && leb start (length lines))) [
    | inl r ↦ r
    | inr r ↦ let g = rw r at h in cc
  ]

  -- A lookup that succeeds has such a place.
  pub span-Somewhere :
      (lines : List Text) (start s e : ℕ) (name : Option Text)
      → actual_span u lines start name ≡ some (s, e)
      → (1 ≤ start) × (start ≤ length lines) × Somewhere (lookup_name name) lines start
  span-Somewhere lines start s e name h =
      let r = in_range lines start s e name h in (ground arith, ground arith, place)
    where
      place : Somewhere (lookup_name name) lines start
      place = elim (Option-cases (lookup_name name)) [
        | inl none_there ↦ elim (Bool-cases (decl_line u (line_at lines (start - 1)))) [
          | inl d ↦ rw none_there d
          | inr d ↦ let g = unnamed_none lines start name none_there d in absurd (cc)
        ]
        | inr (word, named) ↦
            let (low, mid, high, opens, _) = actual_span_sound u lines start name s e h in
            let hit = rw named at opens in
            rw named (s - 1, omega arith, (decl_matches_iff u word (line_at lines (s - 1))).0 hit)
      ]

  -- A lookup with such a place succeeds.
  pub Somewhere-span :
      (lines : List Text) (start : ℕ) (name : Option Text)
      → 1 ≤ start
      → start ≤ length lines
      → Somewhere (lookup_name name) lines start
      → actual_span u lines start name ≡ none
      → ⊥
  unfolding actual_span opening
  Somewhere-span lines start none low high w h =
      let range : (leb 1 start && leb start (length lines)) ≡ true = ground arith in
      let g = rw (range, w) at h in cc
  Somewhere-span lines start (some name) low high w h =
      elim (Option-cases (lookup_name (some name))) [
        | inl none_there ↦
            let range : (leb 1 start && leb start (length lines)) ≡ true = ground arith in
            let d = rw none_there at w in let g = rw (range, none_there, d) at h in cc
        | inr (word, named) ↦
            let (j, inside, m) = rw named at w in
            (actual_span_missing u lines start name word named low high).0 h j inside m
      ]
