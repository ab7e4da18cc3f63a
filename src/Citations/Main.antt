-- ===== src/Citations/Main.antt =====
-- `main` of scripts/check_citations.py: the verdict on each citation, the exit status, and `--fix`.
-- What is printed is kept as the lists that the messages are made from.
pub mod Laws
pub mod Fix
pub mod Spelling
use mathlib.Core.List.{flatten}
use etheorem.Common.{
  ℕ, zero, suc, ◌+◌, ◌-◌, Bool, true, false, not, ◌&&◌, ◌||◌, Option, none, some, List, [], ◌∷◌,
  ◌++◌, map, Text, codes, text_eq, mem_text, is_empty, length, get_or, set, ◌==◌, if◌then◌else◌,
}
use etheorem.Common.Unicode.{Unicode}
use etheorem.Common.Strings.Lines.{splitlines, splitlines_keepends}
use etheorem.Common.Strings.Digits.{decimal}
use etheorem.Common.Strings.Scan.{replace_first}
use etheorem.Citations.Span.{actual_span}
use etheorem.Citations.Collect.{Citation, Files, target, collect_all}

pub data Verdict : Type 0 where
  fine : Verdict
  stale : ℕ → ℕ → Verdict
  unresolved : Verdict

-- `c.end is not None and c.end != end`
abbrev pub end_differs : Option ℕ → ℕ → Bool
end_differs none e = false
end_differs (some d) e = not (d == e)

-- The body of the loop over the citations.
unfoldable pub verdict : Unicode → Files → Citation → Verdict
unfolding actual_span splitlines
verdict u files c = elim (files.text (target c)) [
  | none ↦ unresolved
  | some text ↦ elim (actual_span u (splitlines text) c.start c.name) [
    | none ↦ unresolved
    | some (s, e) ↦ if not (s == c.start) || end_differs c.finish e then stale s e else fine
  ]
]

abbrev pub Item : Type 0
Item = Citation × (ℕ × ℕ)

-- The list `stale`.
unfoldable pub stale_of : Unicode → Files → List Citation → List Item
stale_of u files [] = []
stale_of u files (c ∷ cs) =
    let rest = stale_of u files cs in
    elim (verdict u files c) [ stale s e ↦ (c, (s, e)) ∷ rest | _ ↦ rest ]

-- The list `unresolved`.
unfoldable pub unresolved_of : Unicode → Files → List Citation → List Citation
unresolved_of u files [] = []
unresolved_of u files (c ∷ cs) =
    let rest = unresolved_of u files cs in
    elim (verdict u files c) [ unresolved ↦ c ∷ rest | _ ↦ rest ]

-- `Citation.replacement`
unfoldable pub replacement : Citation → ℕ → ℕ → Text
unfolding decimal
replacement c s e =
    codes "`"
    ++ (c.path
        ++ (codes ":"
            ++ ((elim c.finish [
              | none ↦ decimal s
              | some d ↦ decimal s ++ (codes "-" ++ decimal e)
            ])
                ++ codes "`")))

-- The rewriting of one file's lines, one citation after the other.
unfoldable pub fix_lines : List Item → List Text → List Text
unfolding replacement replace_first
fix_lines [] lines = lines
fix_lines ((c, (s, e)) ∷ items) lines =
    let idx = c.line_no - 1 in
    fix_lines items (set lines idx (replace_first c.text (replacement c s e) (get_or lines idx [])))

-- `by_source.setdefault(c.source, []).append(…)`
unfoldable pub add_item : Item → List (Text × List Item) → List (Text × List Item)
unfolding text_eq
add_item item [] = (item.0.source, item ∷ []) ∷ []
add_item item ((source, items) ∷ groups) =
    let rest = add_item item groups in
    if text_eq source item.0.source
    then (source, items ++ item ∷ []) ∷ groups
    else (source, items) ∷ rest

unfoldable pub group : List (Text × List Item) → List Item → List (Text × List Item)
unfolding add_item
group groups [] = groups
group groups (item ∷ items) = group (add_item item groups) items

-- The files that `--fix` writes, with their new texts.
unfoldable pub fix_files : Files → List (Text × List Item) → List (Text × Text)
unfolding fix_lines splitlines_keepends flatten
fix_files files [] = []
fix_files files ((source, items) ∷ groups) =
    let rest = fix_files files groups in
    elim (files.text source) [
      | none ↦ rest
      | some text ↦ (source, flatten (fix_lines items (splitlines_keepends text))) ∷ rest
    ]

pub record Run : Type 0 where
  pub checked : ℕ
  pub unresolved_list : List Citation
  pub stale_list : List Item
  pub written : List (Text × Text)
  pub status : ℕ

unfoldable pub main : Unicode → Files → Bool → Run
main u files fix =
    let citations = collect_all u files in
    let olds = stale_of u files citations in
    let lost = unresolved_of u files citations in
    if fix && not (is_empty olds)
    then record {
      checked = length citations;
      unresolved_list = lost;
      stale_list = olds;
      written = fix_files files (group [] olds);
      status = if is_empty lost then 0 else 1;
    }
    else record {
      checked = length citations;
      unresolved_list = lost;
      stale_list = olds;
      written = [];
      status = if not (is_empty olds) || not (is_empty lost) then 1 else 0;
    }
