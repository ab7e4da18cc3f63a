-- ===== src/Bump/Tests.antt =====
-- Runs of bump_patch.py on a small lakefile, refused and passed.
use etheorem.Common.{
  ◌≡◌, refl, true, false, Option, none, some, List, [], ◌∷◌, Text, codes, text_eq, All,
  if◌then◌else◌,
}
use etheorem.Common.Action.{◌>>=◌}
use etheorem.Common.Outcome.{exits}
use etheorem.Common.Unicode.{ascii_only, digit_value}
use etheorem.Common.Strings.Lines.{is_space}
use etheorem.Common.Strings.Scan.{behind, drop_while, take_while}
use etheorem.Bump.{
  Git, Repo, main, git, die_if, tree_guards, die_on_output, read_version, match_or_die, tag_guards,
  guards, release, write_lakefile, print, commit_and_tag, explain,
}
use etheorem.Bump.Version.{Found, search, bump_text, numeral, ends_line, at_place}
use etheorem.Bump.Reread.{at_place-bump_text, next}
use etheorem.Bump.Laws.{main-refused, is_query}

-- A git that prints one text for `status`, `main` for `rev-parse`, and nothing else.
abbrev toy : Text → Git Unit
toy dirt = record {
  run = λ args file store. (answer args, store);
  lakefile_path = codes "lakefile.toml";
}
  where
    answer : List Text → Option Text
    answer [] = none
    answer (c ∷ args) = some (
        if text_eq c (codes "status")
        then dirt
        else if text_eq c (codes "rev-parse")
        then codes "main\n"
        else [])

abbrev start : Repo Unit
start = record {
  store = tt;
  lakefile = some (codes "name = \"LeanSha256\"\nversion = \"0.1.9\"\n");
  commands = [];
  printed = [];
}

abbrev refusal : Text
refusal =
    codes
      "bump_patch: working tree has uncommitted changes — commit or stash before bumping. `git status` output:\nM x"

refused_run :
    main (toy (codes "M x\n")) ascii_only false start
    ≡ (exits refusal, (main (toy (codes "M x\n")) ascii_only false start).1)
unfolding main ◌>>=◌ guards tree_guards die_on_output git die_if text_eq
refused_run = refl

main-refused_example :
    ((main (toy (codes "M x\n")) ascii_only false start).1.lakefile ≡ start.lakefile)
    × All
        (λ args. is_query args ≡ true)
        (main (toy (codes "M x\n")) ascii_only false start).1.commands
main-refused_example =
    main-refused (toy (codes "M x\n")) ascii_only false start
      (main (toy (codes "M x\n")) ascii_only false start).1 refusal refl refused_run

new_lakefile :
    (main (toy []) ascii_only false start).1.lakefile
    ≡ some (codes "name = \"LeanSha256\"\nversion = \"0.1.10\"\n")
unfolding main ◌>>=◌ guards tree_guards die_on_output git die_if text_eq read_version match_or_die
    search tag_guards release write_lakefile print commit_and_tag explain bump_text behind
    drop_while numeral digit_value ends_line take_while
new_lakefile = refl

abbrev line : Text
line = codes "version =  \"0.1.9\"\n"

abbrev line_found : Found
line_found = record {
  opening = codes "version =  \"";
  major = 0;
  minor = 1;
  patch = 9;
  rest = codes "\n";
}

line_run : at_place ascii_only line ≡ some line_found
unfolding at_place behind drop_while take_while numeral digit_value ends_line is_space
line_run = refl

at_place-bump_text_example : at_place ascii_only (bump_text [] line_found) ≡ some (next line_found)
at_place-bump_text_example = at_place-bump_text ascii_only line line_found line_run
