-- ===== src/Citations/Collect.antt =====
-- How scripts/check_citations.py collects the citations of a ledger and of the proofs' docstrings.
-- Paths are relative to the repository; a file is its text, as `read_text` gives it.
use etheorem.Common.{
  ℕ, suc, Bool, true, false, not, ◌&&◌, Option, none, some, List, [], ◌∷◌, ◌++◌, map, Text, codes,
  text_eq, starts_with, split_on, is_empty, take, last?, get_elem?, ◌==◌, if◌then◌else◌,
}
use etheorem.Common.Unicode.{Unicode}
use etheorem.Common.Strings.Lines.{lstrip, splitlines}
use etheorem.Common.Strings.Order.{sort, text_leb}
use etheorem.Citations.Patterns.{Found, citations_in, identifiers}
use mathlib.Core.List.{flat_map}

pub record Citation : Type 0 where
  pub source : Text
  pub root : Text
  pub line_no : ℕ
  pub name : Option Text
  pub hint : Text
  pub path : Text
  pub start : ℕ
  pub finish : Option ℕ
  pub text : Text

abbrev pub question : Text
question = codes "?"

-- `name or hint`, for a name that may be missing.
abbrev pub or_hint : Option Text → Text → Text
or_hint none hint = hint
or_hint (some name) hint = if is_empty name then hint else name

-- `Citation.__init__`: the identifier, or the hint; an empty one and `"?"` count as none.
unfoldable pub make_citation : Text → Text → ℕ → Option Text → Text → Found → Citation
unfolding text_eq
make_citation source root line_no name hint m =
    let word = or_hint name hint in
    record {
      source = source;
      root = root;
      line_no = line_no;
      name = if not (is_empty word) && not (text_eq word question) then some word else none;
      hint = hint;
      path = m.path;
      start = m.start;
      finish = m.finish;
      text = m.text;
    }

-- `Citation.target`
abbrev pub target : Citation → Text
target c = c.root ++ (codes "/" ++ c.path)

-- `names[-1].split(".")[-1]`, if there is a name.
unfoldable pub last_name : List Text → Option Text
unfolding split_on
last_name names = elim (last? names) [ none ↦ none | some n ↦ last? (split_on b'.' n) ]

-- `name_before`
unfoldable pub name_before : Text → ℕ → Option Text → Option Text
unfolding identifiers last_name
name_before text pos fallback = elim (last_name (identifiers (take pos text))) [
  | some n ↦ some n
  | none ↦ fallback
]

-- `name if name else other`
abbrev pub name_or : Option Text → Text → Text
name_or none other = other
name_or (some n) other = if is_empty n then other else n

-- The names before a citation on its line, or else those of the line above.
unfoldable pub names_near : Text → Option Text → Text → List Text
unfolding identifiers
names_near before above line = elim (identifiers before) [
  | [] ↦ elim above [ none ↦ [] | some prev ↦ identifiers prev ]
  | n ∷ ns ↦ n ∷ ns
]

-- The text of a row from its last bar on; the row begins with a bar.
unfoldable pub from_last_bar : Text → Text
from_last_bar [] = []
from_last_bar (c ∷ s) = elim (from_last_bar s) [
  | [] ↦ if c == b'|' then c ∷ s else []
  | d ∷ t ↦ d ∷ t
]

-- The row's own name, from its first cell.
unfoldable pub row_name : Text → Option Text
unfolding split_on identifiers
row_name line = elim (get_elem? (split_on b'|' line) 1) [
  | none ↦ none
  | some cell ↦ elim (identifiers cell) [ [] ↦ none | n ∷ ns ↦ last? (split_on b'.' n) ]
]

module _ (u : Unicode) (source root : Text) where
  -- The citations of a line of prose; `above` is the line above it.
  unfoldable pub prose_citations : ℕ → Option Text → Text → List Citation
  unfolding citations_in names_near last_name make_citation
  prose_citations n above line =
      map
        (λ m.
          let name = last_name (names_near (take m.0 line) above line) in
          make_citation source root n name (name_or name question) m.1)
        (citations_in u line)

  -- The citations of a table row.
  unfoldable pub row_citations : ℕ → Text → List Citation
  unfolding citations_in identifiers last_name row_name from_last_bar make_citation
  row_citations n line =
      let own = name_or (row_name line) question in
      map
        (λ m.
          let name = last_name (identifiers (from_last_bar (take m.0 line))) in
          make_citation source root n name (name_or name own) m.1)
        (citations_in u line)

  -- `enumerate(all_lines, start=1)`, with the line above.
  unfoldable pub ledger_lines : ℕ → Option Text → List Text → List Citation
  unfolding lstrip starts_with prose_citations row_citations
  ledger_lines n above [] = []
  ledger_lines n above (line ∷ lines) =
      (if starts_with (lstrip line) (codes "|")
        then row_citations n line
        else prose_citations n above line)
      ++ ledger_lines (suc n) (some line) lines

  unfoldable pub proof_lines : ℕ → Option Text → List Text → List Citation
  unfolding prose_citations
  proof_lines n above [] = []
  proof_lines n above (line ∷ lines) =
      prose_citations n above line ++ proof_lines (suc n) (some line) lines

-- The repository as the script reads it: a file's text, and the `*.lean` files below a directory.
pub record Files : Type 0 where
  pub text : Text → Option Text
  pub lean_files : Text → List Text

pub record Target : Type 0 where
  pub root : Text
  pub ledger : Text
  pub proofs_dir : Text

abbrev pub targets : List Target
targets =
    record {
      root = codes "packages/EthCLSpecs/EthCLSpecs";
      ledger = codes "packages/EthCLSpecs/docs/PROOF_LEDGER.md";
      proofs_dir = codes "packages/EthCLSpecs/EthCLSpecs/Proofs";
    }
    ∷ record {
      root = codes "packages/SizzLean/SizzLean";
      ledger = codes "packages/SizzLean/docs/PROOF_LEDGER.md";
      proofs_dir = codes "packages/SizzLean/SizzLean/Proofs";
    }
    ∷ []

-- The order of paths: by their parts.
unfoldable pub parts_leb : List Text → List Text → Bool
unfolding text_eq text_leb
parts_leb [] qs = true
parts_leb (p ∷ ps) [] = false
parts_leb (p ∷ ps) (q ∷ qs) =
    let rest = parts_leb ps qs in if text_eq p q then rest else text_leb p q

unfoldable pub path_leb : Text → Text → Bool
unfolding parts_leb split_on
path_leb p q = parts_leb (split_on b'/' p) (split_on b'/' q)

module _ (u : Unicode) (files : Files) where
  unfoldable pub collect_from_ledger : Text → Text → List Citation
  unfolding splitlines ledger_lines
  collect_from_ledger ledger root = elim (files.text ledger) [
    | none ↦ []
    | some text ↦ ledger_lines u ledger root 1 none (splitlines text)
  ]

  -- A listed file has a text; `rglob` of a missing directory lists nothing.
  unfoldable pub collect_from_proofs : Text → Text → List Citation
  unfolding flat_map sort path_leb splitlines proof_lines
  collect_from_proofs proofs_dir root =
      flat_map
        (λ path. elim (files.text path) [
          | none ↦ []
          | some text ↦ proof_lines u path root 1 none (splitlines text)
        ])
        (sort path_leb (files.lean_files proofs_dir))

  unfoldable pub collect_all : List Citation
  unfolding flat_map collect_from_ledger collect_from_proofs
  collect_all =
      flat_map (λ t. collect_from_ledger t.ledger t.root ++ collect_from_proofs t.proofs_dir t.root)
        targets
