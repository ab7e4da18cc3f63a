-- ===== src/Citations/Span.antt =====
-- `actual_span` of scripts/check_citations.py, over the lines of the cited file. Lines are counted
-- from 0 inside and from 1 in the arguments and the result, as in the source.
pub mod Laws
pub mod Lookup
pub mod Places
use etheorem.Common.{
  ℕ, zero, suc, ◌+◌, ◌-◌, Bool, true, false, not, ◌&&◌, Option, none, some, List, [], ◌∷◌, Text,
  codes, text_eq, is_empty, length, get_or, ltb, leb, if◌then◌else◌,
}
use etheorem.Common.Unicode.{Unicode}
use etheorem.Common.Strings.Lines.{strip}
use etheorem.Citations.Patterns.{is_boundary, decl_line, decl_matches}

-- `lines[i]`
abbrev pub line_at : List Text → ℕ → Text
line_at lines i = get_or lines i []

-- `not line.strip()`
abbrev pub blank : Text → Bool
blank line = is_empty (strip line)

-- `while end > i0 and not lines[end].strip(): end -= 1`
unfoldable pub trim_loop : List Text → ℕ → ℕ → ℕ
trim_loop lines i0 zero = zero
trim_loop lines i0 (suc e) =
    let rest = trim_loop lines i0 e in
    if ltb i0 (suc e) && blank (line_at lines (suc e)) then rest else suc e

-- `if not name or name == "?"`: the name that drives the lookup, if there is one.
abbrev pub lookup_name : Option Text → Option Text
lookup_name none = none
lookup_name (some name) =
    if is_empty name then none else if text_eq name (codes "?") then none else some name

module _ (u : Unicode) where
  -- `for i in range(i0 + 1, len(lines))`: the next line and how many are left.
  unfoldable pub boundary_loop : List Text → ℕ → ℕ → ℕ
  boundary_loop lines i zero = length lines - 1
  boundary_loop lines i (suc left) =
      let rest = boundary_loop lines (suc i) left in
      if is_boundary u (line_at lines i) then i - 1 else rest

  -- The last line of the declaration that opens at line `i0`.
  unfoldable pub span_end : List Text → ℕ → ℕ
  unfolding boundary_loop trim_loop
  span_end lines i0 = trim_loop lines i0 (boundary_loop lines (suc i0) (length lines - suc i0))

  -- The first line, from `i` on, that declares the name.
  unfoldable pub first_hit : Text → ℕ → List Text → Option ℕ
  first_hit name i [] = none
  first_hit name i (line ∷ lines) =
      let later = first_hit name (suc i) lines in if decl_matches u name line then some i else later

  -- The line, from 0, at which the declaration opens.
  unfoldable pub opening : List Text → ℕ → Option Text → Option ℕ
  unfolding first_hit
  opening lines start none =
      if decl_line u (line_at lines (start - 1)) then some (start - 1) else none
  opening lines start (some name) =
      if decl_matches u name (line_at lines (start - 1))
      then some (start - 1)
      else first_hit name 0 lines

  unfoldable pub actual_span : List Text → ℕ → Option Text → Option (ℕ × ℕ)
  unfolding span_end opening
  actual_span lines start name =
      if leb 1 start && leb start (length lines)
      then elim (opening lines start (lookup_name name)) [
        | none ↦ none
        | some i0 ↦ some (i0 + 1, span_end lines i0 + 1)
      ]
      else none
