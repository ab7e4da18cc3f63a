-- ===== src/Citations/Main/Fix.antt =====
-- What `--fix` of scripts/check_citations.py does to a citation and to a line.
use etheorem.Common.{
  ℕ, ◌-◌, ◌≡◌, ◌≢◌, inl, inr, refl, false, Option, none, some, List, [], ◌∷◌, Text, length, get_or,
  set, get_or-set_ne, length-set, ==_self, Option-cases, All, ◌∙◌, arith,
}
use etheorem.Common.Unicode.{Unicode}
use etheorem.Common.Strings.Lines.{splitlines}
use etheorem.Common.Strings.Scan.{replace_first}
use etheorem.Citations.Span.{actual_span}
use etheorem.Citations.Span.Lookup.{actual_span_again}
use etheorem.Citations.Collect.{Citation, Files, target}
use etheorem.Citations.Main.{fine, stale, end_differs, verdict, Item, replacement, fix_lines}

-- The citation with the span that the report gives, its end only where the citation has one.
abbrev pub moved : Citation → ℕ → ℕ → Citation
moved c s e = record c { start = s; finish = elim c.finish [ none ↦ none | some d ↦ some e ] }

module _ (u : Unicode) (files : Files) where
  -- The span that is reported for a stale citation is right: while the cited file stays the same, the
  -- same citation with that span, and with its name, gets the verdict fine.
  pub stale_moved :
      (c : Citation) (s e : ℕ)
      → verdict u files c ≡ stale s e
      → verdict u files (moved c s e) ≡ fine
  unfolding verdict
  stale_moved c s e h = elim (Option-cases (files.text (target c))) [
    | inl gone ↦ absurd (let g = rw (gone, verdict) at h in cc)
    | inr (text, there) ↦ elim (Option-cases (actual_span u (splitlines text) c.start c.name)) [
      | inl lost ↦ absurd (let g = rw (there, verdict, lost) at h in cc)
      | inr ((s', e'), found) ↦
          let g = rw (there, verdict, found) at h in
          let same : (s' ≡ s) × (e' ≡ e) = ground arith in
          let again =
            actual_span_again u (splitlines text) c.start c.name s e
              (rw (same.0, same.1) at found) in
          rw (there, verdict, again) (ground (arith, kept c.finish e))
    ]
  ]
    where
      kept :
          (d : Option ℕ) (e : ℕ) → end_differs (elim d [ none ↦ none | some x ↦ some e ]) e ≡ false
      kept none e = refl
      kept (some d) e = ground (arith, ==_self e)

-- The lines that the rewriting may touch: those that a citation of the list stands on.
abbrev pub Untouched : List Item → ℕ → Type 0
Untouched items i = All (λ item. item.0.line_no - 1 ≢ i) items

-- The rewriting of a file keeps the number of its lines, and keeps every line that no stale
-- citation stands on.
pub fix_lines-Untouched :
    (items : List Item) (lines : List Text)
    → (length (fix_lines items lines) ≡ length lines)
      × ((i : ℕ) → Untouched items i → get_or (fix_lines items lines) i [] ≡ get_or lines i [])
unfolding fix_lines
fix_lines-Untouched [] lines = (refl, λ i h. refl)
fix_lines-Untouched ((c, (s, e)) ∷ items) lines =
    let idx = c.line_no - 1 in
    let v = replace_first c.text (replacement c s e) (get_or lines idx []) in
    let (size, kept) = fix_lines-Untouched items (set lines idx v) in
    (size ∙ length-set lines idx v, λ i (p, h). kept i h ∙ get_or-set_ne lines idx i v [] p)
