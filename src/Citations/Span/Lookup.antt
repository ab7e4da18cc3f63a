-- ===== src/Citations/Span/Lookup.antt =====
-- What `actual_span` returns, and when it returns nothing.
use etheorem.Common.{
  ℕ, zero, suc, ◌+◌, ◌-◌, ◌≤◌, ◌<◌, ◌≡◌, ◌↔◌, refl, inl, inr, Bool, true, false, ◌&&◌, Option, none,
  some, List, [], ◌∷◌, Text, length, leb, Bool-cases, Option-cases, arith,
}
use etheorem.Common.Unicode.{Unicode}
use etheorem.Citations.Patterns.{decl_line, decl_matches}
use etheorem.Citations.Patterns.Names.{Mentions, decl_matches_iff}
use etheorem.Citations.Span.{line_at, span_end, first_hit, lookup_name, opening, actual_span}
use etheorem.Citations.Span.Laws.{Opens, IsEnd, IsEnd-unique, span_end-IsEnd}

module _ (u : Unicode) (name : Text) where
  first_hit-some :
      (i k : ℕ) (lines : List Text)
      → first_hit u name i lines ≡ some k
      → (j : ℕ) × (k ≡ i + j) × (j < length lines) × (decl_matches u name (line_at lines j) ≡ true)
  unfolding first_hit
  first_hit-some i k [] h = cc
  first_hit-some i k (line ∷ lines) h = elim (Bool-cases (decl_matches u name line)) [
    | inl e ↦ (0, ground arith, omega arith, e)
    | inr e ↦
        let (j, at, inside, hit) = first_hit-some (suc i) k lines (rw e at h) in
        (suc j, omega arith, omega arith, hit)
  ]

  first_hit-none :
      (i : ℕ) (lines : List Text)
      → first_hit u name i lines ≡ none
      → (j : ℕ) → j < length lines
      → decl_matches u name (line_at lines j) ≡ false
  unfolding first_hit
  first_hit-none i [] h j p = absurd (omega arith)
  first_hit-none i (line ∷ lines) h j p = elim (Bool-cases (decl_matches u name line)) [
    | inl e ↦ absurd (ground arith)
    | inr e ↦ by_place j p e (first_hit-none (suc i) lines (rw e at h))
  ]
    where
      by_place :
          (j : ℕ)
          → j < suc (length lines)
          → decl_matches u name line ≡ false
          → ((m : ℕ) → m < length lines → decl_matches u name (line_at lines m) ≡ false)
          → decl_matches u name (line_at (line ∷ lines) j) ≡ false
      by_place zero p e f = e
      by_place (suc j) p e f = f j (omega arith)

module _ (u : Unicode) (lines : List Text) (start : ℕ) (low : 1 ≤ start)
    (high : start ≤ length lines) where
  -- The opening line is in the file, and opens what the lookup is about.
  opening_sound :
      (name : Option Text) (i : ℕ)
      → opening u lines start name ≡ some i
      → (i < length lines) × Opens u lines name i
  unfolding opening
  opening_sound none i h = elim (Bool-cases (decl_line u (line_at lines (start - 1)))) [
    | inl e ↦ let same : start - 1 ≡ i = ground arith in (omega arith, rw (← same) e)
    | inr e ↦ absurd (ground arith)
  ]
  opening_sound (some name) i h =
      elim (Bool-cases (decl_matches u name (line_at lines (start - 1)))) [
        | inl e ↦ let same : start - 1 ≡ i = ground arith in (omega arith, rw (← same) e)
        | inr e ↦
            let (j, at, inside, hit) = first_hit-some u name 0 i lines (rw e at h) in
            let same : j ≡ i = omega arith in (omega arith, rw (← same) hit)
      ]

  -- A line that opens it at the start that is asked for is taken.
  opening_in_place :
      (name : Option Text)
      → Opens u lines name (start - 1)
      → opening u lines start name ≡ some (start - 1)
  unfolding opening
  opening_in_place none h = rw h
  opening_in_place (some name) h = rw h

module _ (u : Unicode) (lines : List Text) (start : ℕ) (name : Option Text) where
  -- A span that is found lies in the file, with its start at most its end; its start line matches what
  -- is looked up, and its end is the last line before the next construct that is not blank.
  pub actual_span_sound :
      (s e : ℕ)
      → actual_span u lines start name ≡ some (s, e)
      → (1 ≤ s)
        × (s ≤ e)
        × (e ≤ length lines)
        × Opens u lines (lookup_name name) (s - 1)
        × IsEnd u lines (s - 1) (e - 1)
  unfolding actual_span
  actual_span_sound s e h = elim (Bool-cases (leb 1 start && leb start (length lines))) [
    | inr out ↦ absurd (let g = rw out at h in cc)
    | inl range ↦ elim (Option-cases (opening u lines start (lookup_name name))) [
      | inl missing ↦ absurd (let g = rw (range, missing) at h in cc)
      | inr (i, found) ↦
          let g = rw (range, found) at h in
          let first : i + 1 ≡ s = ground arith in
          let last : span_end u lines i + 1 ≡ e = ground arith in
          let (inside, opens) =
            opening_sound u lines start (ground arith) (ground arith) (lookup_name name) i found in
          let end = span_end-IsEnd u lines i inside in
          let i_is : i ≡ s - 1 = omega arith in
          let e_is : span_end u lines i ≡ e - 1 = omega arith in
          (
            omega arith,
            omega (arith, end.inside.0),
            omega (arith, end.inside.1),
            rw (← i_is) opens,
            rw (← e_is, ← i_is) end,
          )
    ]
  ]

  -- The lookup returns the cited start with an end exactly when the start is a line of the file that
  -- matches what is looked up, and the end is the last line before the next construct that is not blank.
  pub actual_span_in_place :
      (e : ℕ)
      → (actual_span u lines start name ≡ some (start, e)) ↔ (
          (1 ≤ start)
          × (start ≤ length lines)
          × Opens u lines (lookup_name name) (start - 1)
          × (1 ≤ e)
          × IsEnd u lines (start - 1) (e - 1))
  unfolding actual_span
  actual_span_in_place e = (
    λ h.
        let (low, mid, high, opens, end) = actual_span_sound start e h in
        (low, omega arith, opens, omega arith, end),
    λ (low, high, opens, positive, end).
        let found = opening_in_place u lines start low high (lookup_name name) opens in
        let inside : start - 1 < length lines = omega arith in
        let last =
          IsEnd-unique u lines (start - 1) _ _ (span_end-IsEnd u lines (start - 1) inside) end in
        let range : (leb 1 start && leb start (length lines)) ≡ true = ground arith in
        let first : start - 1 + 1 ≡ start = omega arith in
        let final : span_end u lines (start - 1) + 1 ≡ e = omega arith in
        rw (range, found, first, final),
  )

-- A span that was found is found again from its own start.
pub actual_span_again :
    (u : Unicode) (lines : List Text) (start : ℕ) (name : Option Text) (s e : ℕ)
    → actual_span u lines start name ≡ some (s, e)
    → actual_span u lines s name ≡ some (s, e)
actual_span_again u lines start name s e h =
    let (low, mid, high, opens, end) = actual_span_sound u lines start name s e h in
    (actual_span_in_place u lines s name e).1 (low, omega arith, opens, omega arith, end)

-- A named lookup with the start in the file fails exactly when no line matches the name's pattern.
actual_span_unmatched :
    (u : Unicode) (lines : List Text) (start : ℕ) (name word : Text)
    → lookup_name (some name) ≡ some word
    → 1 ≤ start
    → start ≤ length lines
    → (actual_span u lines start (some name) ≡ none)
      ↔ ((j : ℕ) → j < length lines → decl_matches u word (line_at lines j) ≡ false)
unfolding actual_span opening
actual_span_unmatched u lines start name word named low high =
    let range : (leb 1 start && leb start (length lines)) ≡ true = ground arith in
    let here = decl_matches u word (line_at lines (start - 1)) in
    elim (Bool-cases here) [
      | inl e ↦ (
        λ h. absurd (let g = rw (range, named, e) at h in cc),
        λ f. absurd (let g = f (start - 1) (omega arith) in cc),
      )
      | inr e ↦ elim (Option-cases (first_hit u word 0 lines)) [
        | inl nowhere ↦
            (λ h. first_hit-none u word 0 lines nowhere, λ f. rw (range, named, e, nowhere))
        | inr (k, hit) ↦
            let (j, at, inside, match) = first_hit-some u word 0 k lines hit in
            (
              λ h. absurd (let g = rw (range, named, e, hit) at h in cc),
              λ f. absurd (let g = f j inside in cc),
            )
      ]
    ]

-- A named lookup with the start in the file fails exactly when no line of the file mentions the name as
-- the pattern has it: behind modifiers and a keyword, at once or behind some dot of the rest of the line.
pub actual_span_missing :
    (u : Unicode) (lines : List Text) (start : ℕ) (name word : Text)
    → lookup_name (some name) ≡ some word
    → 1 ≤ start
    → start ≤ length lines
    → (actual_span u lines start (some name) ≡ none)
      ↔ ((j : ℕ) → j < length lines → Mentions u word (line_at lines j) → ⊥)
actual_span_missing u lines start name word named low high =
    let unmatched = actual_span_unmatched u lines start name word named low high in
    (
      λ h j inside m.
          let no = unmatched.0 h j inside in
          let yes = (decl_matches_iff u word (line_at lines j)).1 m in cc,
      λ f. unmatched.1 (λ j inside.
          not_true _ (λ e. f j inside ((decl_matches_iff u word (line_at lines j)).0 e))),
    )
  where
    not_true : (b : Bool) → (b ≡ true → ⊥) → b ≡ false
    not_true true f = absurd (f refl)
    not_true false f = refl
