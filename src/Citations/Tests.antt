-- ===== src/Citations/Tests.antt =====
-- scripts/check_citations.py on small files.
use etheorem.Common.{
  ℕ, ◌-◌, ◌≤◌, ◌<◌, ◌≢◌, arith, ◌≡◌, ◌↔◌, refl, Bool, true, false, Option, none, some, List, [],
  ◌∷◌, ◌++◌, Text, codes, text_eq, length, if◌then◌else◌, get_or, All, is_empty,
}
use etheorem.Common.Unicode.{ascii_only}
use etheorem.Common.Strings.{join}
use etheorem.Common.Strings.Lines.{splitlines}
use etheorem.Citations.Patterns.{
  decl_line, is_boundary, decl_matches, citation_at, citations_in, identifiers,
}
use etheorem.Citations.Patterns.Names.{Mentions}
use etheorem.Citations.Span.{actual_span, lookup_name, line_at}
use etheorem.Citations.Span.Laws.{Opens, IsEnd}
use etheorem.Citations.Span.Lookup.{actual_span_in_place, actual_span_missing, actual_span_sound}
use etheorem.Citations.Collect.{Citation, Files, collect_all}
use etheorem.Citations.Main.{
  Verdict, fine, stale, unresolved, verdict, fix_lines, replacement, main,
}
use etheorem.Citations.Main.Laws.{Resolves, Located, main_status, main_fix}
use etheorem.Citations.Main.Fix.{moved, stale_moved, Untouched, fix_lines-Untouched}
use etheorem.Citations.Main.Spelling.{citation_at-replacement}

abbrev lean_file : Text
lean_file =
    codes
      "import A\n\ntheorem foo : 1 = 1 := by\n  rfl\n\n/-- doc -/\nprivate def Ns.bar : Nat :=\n  2\n"

abbrev lean_lines : List Text
lean_lines = splitlines lean_file

boundaries :
    (decl_line ascii_only (codes "private unsafe  def x") ≡ true)
    × (decl_line ascii_only (codes "define x") ≡ false)
    × (is_boundary ascii_only (codes "@[simp] x") ≡ true)
    × (decl_matches ascii_only (codes "bar") (codes "private def Ns.bar : Nat") ≡ true)
    × (decl_matches ascii_only (codes "ba") (codes "def bar") ≡ false)
unfolding decl_line is_boundary decl_matches
boundaries = (refl, refl, refl, refl, refl)

spans :
    (actual_span ascii_only lean_lines 3 (some (codes "foo")) ≡ some (3, 4))
    × (actual_span ascii_only lean_lines 1 (some (codes "bar")) ≡ some (7, 8))
    × (actual_span ascii_only lean_lines 1 (some (codes "baz")) ≡ none)
    × (actual_span ascii_only lean_lines 3 none ≡ some (3, 4))
    × (actual_span ascii_only lean_lines 9 none ≡ none)
unfolding actual_span splitlines text_eq decl_matches is_boundary
    etheorem.Common.Strings.Lines.strip
spans = (refl, refl, refl, refl, refl)

patterns :
    (citations_in ascii_only (codes "x `A/b.lean:12-13` y `c.lean:4`")
      ≡ (
        2,
        record {
          path = codes "A/b.lean";
          start = 12;
          finish = some 13;
          text = codes "`A/b.lean:12-13`";
        },
      )
        ∷ (
          21,
          record { path = codes "c.lean"; start = 4; finish = none; text = codes "`c.lean:4`" },
        )
        ∷ [])
    × (identifiers (codes "see `a.b` and `9x` or `c`") ≡ codes "a.b" ∷ codes "c" ∷ [])
unfolding citations_in identifiers
patterns = (refl, refl)

-- A repository with one ledger and one cited file; the row names its theorem in its first cell.
abbrev ledger_path : Text
ledger_path = codes "packages/SizzLean/docs/PROOF_LEDGER.md"

abbrev cited_path : Text
cited_path = codes "packages/SizzLean/SizzLean/A.lean"

abbrev repo : Text → Files
repo ledger = record {
  text = λ p.
      if text_eq p ledger_path
      then some ledger
      else if text_eq p cited_path
      then some lean_file
      else none;
  lean_files = λ d. [];
}

abbrev good_ledger : Text
good_ledger = codes "| `foo` | proved, `A.lean:3-4` |\n"

abbrev stale_ledger : Text
stale_ledger = codes "| `foo` | proved, `A.lean:1` |\n"

abbrev lost_ledger : Text
lost_ledger = codes "| `foo` | proved, `B.lean:1` |\n"

runs :
    ((main ascii_only (repo good_ledger) false).status ≡ 0)
    × ((main ascii_only (repo good_ledger) false).checked ≡ 1)
    × ((main ascii_only (repo stale_ledger) false).status ≡ 1)
    × ((main ascii_only (repo stale_ledger) true).written
        ≡ (ledger_path, codes "| `foo` | proved, `A.lean:3` |\n") ∷ [])
    × ((main ascii_only (repo stale_ledger) true).status ≡ 0)
    × ((main ascii_only (repo lost_ledger) true).status ≡ 1)
unfolding main etheorem.Citations.Main.stale_of collect_all verdict decl_matches is_boundary
    etheorem.Common.Strings.Lines.strip etheorem.Citations.Main.unresolved_of
    etheorem.Citations.Main.fix_files etheorem.Citations.Main.group
runs = (refl, refl, refl, refl, refl, refl)

-- Two citations on one line, the first of which moves to where the second one was: the second
-- replacement meets the first one's text, and the citation of `foo` ends up with the line of `bar`.
abbrev crossing_ledger : Text
crossing_ledger = codes "`foo` at `A.lean:1`, `bar` at `A.lean:3`\n"

crossing :
    (main ascii_only (repo crossing_ledger) true).written
    ≡ (ledger_path, codes "`foo` at `A.lean:7`, `bar` at `A.lean:3`\n") ∷ []
unfolding main etheorem.Citations.Main.stale_of collect_all verdict decl_matches is_boundary
    etheorem.Common.Strings.Lines.strip etheorem.Citations.Main.unresolved_of
    etheorem.Citations.Main.fix_files etheorem.Citations.Main.group
crossing = refl

main_status_example :
    (main ascii_only (repo good_ledger) false).status ≡ 0
    ↔ All (Resolves ascii_only (repo good_ledger)) (collect_all ascii_only (repo good_ledger))
main_status_example = main_status ascii_only (repo good_ledger)

main_fix_example :
    (main ascii_only (repo lost_ledger) true).status ≡ 0
    ↔ All (Located ascii_only (repo lost_ledger)) (collect_all ascii_only (repo lost_ledger))
main_fix_example = main_fix ascii_only (repo lost_ledger)

-- A line that declares `Bitlist` and has `.size` in its type: a citation of `size` at it passes.
abbrev bitlist_line : Text
bitlist_line = codes "abbrev Bitlist (cap : Nat) : Type := { bs : Array Bool // bs.size ≤ cap }\n"

abbrev bitlist_repo : Files
bitlist_repo = record {
  text = λ p.
      if text_eq p ledger_path
      then some (codes "| `size` | proved, `A.lean:1` |\n")
      else if text_eq p cited_path
      then some bitlist_line
      else none;
  lean_files = λ d. [];
}

mentioned :
    ((main ascii_only bitlist_repo false).status ≡ 0)
    × ((main ascii_only bitlist_repo false).checked ≡ 1)
    × (actual_span ascii_only (splitlines bitlist_line) 1 (some (codes "size")) ≡ some (1, 1))
unfolding main etheorem.Citations.Main.stale_of collect_all verdict decl_matches is_boundary
    etheorem.Common.Strings.Lines.strip etheorem.Citations.Main.unresolved_of actual_span splitlines
    text_eq
mentioned = (refl, refl, refl)

abbrev old_citation : Citation
old_citation = record {
  source = ledger_path;
  root = codes "packages/SizzLean/SizzLean";
  line_no = 1;
  name = some (codes "bar");
  hint = codes "bar";
  path = codes "A.lean";
  start = 3;
  finish = some 4;
  text = codes "`A.lean:3-4`";
}

stale_moved_example : verdict ascii_only (repo good_ledger) (moved old_citation 7 8) ≡ fine
unfolding verdict splitlines text_eq decl_matches is_boundary etheorem.Common.Strings.Lines.strip
stale_moved_example = stale_moved ascii_only (repo good_ledger) old_citation 7 8 refl

fix_lines-Untouched_example :
    (length (fix_lines ((old_citation, (7, 8)) ∷ []) lean_lines) ≡ length lean_lines)
    × ((i : ℕ)
        → Untouched ((old_citation, (7, 8)) ∷ []) i
        → get_or (fix_lines ((old_citation, (7, 8)) ∷ []) lean_lines) i [] ≡ get_or lean_lines i [])
fix_lines-Untouched_example = fix_lines-Untouched ((old_citation, (7, 8)) ∷ []) lean_lines

citation_at-replacement_example :
    citation_at ascii_only (replacement old_citation 7 8 ++ codes ", and")
    ≡ some (
      record {
        path = codes "A.lean";
        start = 7;
        finish = some 8;
        text = replacement old_citation 7 8;
      },
      length (replacement old_citation 7 8),
    )
citation_at-replacement_example =
    citation_at-replacement ascii_only (codes "A") ((refl, tt), refl) old_citation 7 8
      (codes ", and") refl

actual_span_in_place_example :
    (actual_span ascii_only lean_lines 3 (some (codes "foo")) ≡ some (3, 4)) ↔ (
      (1 ≤ 3)
      × (3 ≤ length lean_lines)
      × Opens ascii_only lean_lines (lookup_name (some (codes "foo"))) 2
      × (1 ≤ 4)
      × IsEnd ascii_only lean_lines 2 3)
actual_span_in_place_example = actual_span_in_place ascii_only lean_lines 3 (some (codes "foo")) 4

actual_span_sound_example :
    (1 ≤ 7)
    × (7 ≤ 8)
    × (8 ≤ length lean_lines)
    × Opens ascii_only lean_lines (lookup_name (some (codes "bar"))) 6
    × IsEnd ascii_only lean_lines 6 7
unfolding actual_span splitlines text_eq decl_matches is_boundary
    etheorem.Common.Strings.Lines.strip
actual_span_sound_example = actual_span_sound ascii_only lean_lines 1 (some (codes "bar")) 7 8 refl

actual_span_missing_example : (actual_span ascii_only lean_lines 1 (some (codes "baz")) ≡ none) ↔ (
    (j : ℕ) → j < length lean_lines → Mentions ascii_only (codes "baz") (line_at lean_lines j) → ⊥)
unfolding splitlines text_eq
actual_span_missing_example =
    actual_span_missing ascii_only lean_lines 1 (codes "baz") (codes "baz") refl (omega arith)
      (omega arith)
