-- ===== src/Tiers/Scan.antt =====
-- The line patterns of scripts/check_constant_tiers.py, and its scans of a spec's documents.
use etheorem.Common.{
  ℕ, Bool, not, ◌&&◌, ◌||◌, Option, none, some, List, [], ◌∷◌, ◌++◌, Text, codes, mem_text,
  starts_with, split_on, is_empty, length, all, get_or, leb, ◌==◌, if◌then◌else◌,
}
use etheorem.Common.Monad.{◌>>=◌}
use etheorem.Common.Unicode.{Unicode, is_upper_ascii, is_digit_ascii, to_lower}
use etheorem.Common.Assoc.{lookup, set_default}
use etheorem.Common.Strings.Lines.{is_space, lstrip, strip, splitlines}
use etheorem.Common.Strings.Scan.{take_while, drop_while, behind}
use etheorem.Tiers.{forks, tiers, Truth}

abbrev pub is_key_char : ℕ → Bool
is_key_char c = is_upper_ascii c || (is_digit_ascii c || (c == b'_'))

-- `^(#+)\s+(.+?)\s*$` on one line: the number of `#` and the title's text. Behind the `#` stands a
-- space and at least one more character.
unfoldable pub heading : Text → Option (ℕ × Text)
unfolding take_while drop_while is_space strip
heading line =
    let level = length (take_while (λ c. c == b'#') line) in
    let rest = drop_while (λ c. c == b'#') line in
    if leb 1 level && (is_space (get_or rest 0 0) && leb 2 (length rest))
    then some (level, strip rest)
    else none

-- The name of a row, as in ``^\|\s*`([A-Z][A-Z0-9_]*)`\s*\|``.
unfoldable pub row_key : Text → Option Text
unfolding behind lstrip take_while drop_while starts_with
row_key line = do
  cell ← behind (codes "|") line
  inner ← behind (codes "`") (lstrip cell)
  let name = take_while is_key_char inner
  rest ← behind (codes "`") (drop_while is_key_char inner)
  if is_upper_ascii (get_or name 0 0) && starts_with (lstrip rest) (codes "|")
      then some name
      else none

-- `^([A-Z0-9_]+):`
unfoldable pub yaml_key : Text → Option Text
unfolding behind take_while drop_while
yaml_key line = do
  let name = take_while is_key_char line
  rest ← behind (codes ":") (drop_while is_key_char line)
  if is_empty name then none else some name

-- A preset file: a comment is cut off, and the key stands at the start.
unfoldable pub scan_preset : Text → List Text → Truth → Truth
unfolding split_on strip yaml_key set_default
scan_preset fork [] truth = truth
scan_preset fork (line ∷ lines) truth = elim (yaml_key (strip (get_or (split_on b'#' line) 0 []))) [
  | none ↦ scan_preset fork lines truth
  | some key ↦ scan_preset fork lines (
      set_default key
        (record {
          fork = fork;
          tier = codes "Preset";
          source = codes "presets/" ++ (fork ++ codes ".yaml");
        })
        truth)
]

module _ (u : Unicode) where
  -- The state of the scan behind a heading: the tier of the section, and its depth.
  unfoldable pub enter : ℕ → Text → Option Text → ℕ → Option Text × ℕ
  unfolding lookup to_lower strip
  enter level title tier depth = elim (lookup (to_lower u (strip title)) tiers) [
    | some t ↦ (some t, level)
    | none ↦ elim tier [
      | none ↦ (none, depth)
      | some t ↦ if leb level depth then (none, depth) else (some t, depth)
    ]
  ]

  -- The lines of a document, with the tier and the depth of the section they stand in.
  unfoldable pub scan_lines : Text → Text → Option Text → ℕ → List Text → Truth → Truth
  unfolding heading enter row_key set_default
  scan_lines fork source tier depth [] out = out
  scan_lines fork source tier depth (line ∷ lines) out = elim (heading line) [
    | some (level, title) ↦
        let next = enter level title tier depth in scan_lines fork source next.0 next.1 lines out
    | none ↦ elim tier [
      | none ↦ scan_lines fork source none depth lines out
      | some t ↦ elim (row_key line) [
        | none ↦ scan_lines fork source (some t) depth lines out
        | some key ↦
            scan_lines fork source (some t) depth lines
              (set_default key (record { fork = fork; tier = t; source = source }) out)
      ]
    ]
  ]

  unfoldable pub scan_markdown : Text → Text → Text → Truth → Truth
  unfolding scan_lines splitlines
  scan_markdown text fork source out = scan_lines fork source none 0 (splitlines text) out

  -- What a comment line does to the current fork of the config file.
  unfoldable pub annotate : Text → Option Text → Option Text
  unfolding mem_text to_lower drop_while strip
  annotate s cur =
      let body = strip (drop_while (λ c. c == b'#') s) in
      if mem_text (to_lower u body) forks
      then some (to_lower u body)
      else if not (is_empty body) && all (λ c. c == b'-') body
      then none
      else cur

  abbrev pub fork_or_unknown : Option Text → Text
  fork_or_unknown none = codes "?"
  fork_or_unknown (some f) = f

  unfoldable pub scan_config : Option Text → List Text → Truth → Truth
  unfolding strip starts_with annotate yaml_key set_default
  scan_config cur [] truth = truth
  scan_config cur (line ∷ lines) truth =
      let s = strip line in
      if starts_with s (codes "#")
      then scan_config (annotate s cur) lines truth
      else elim (yaml_key s) [
        | none ↦ scan_config cur lines truth
        | some key ↦ scan_config cur lines (
            set_default key
              (record {
                fork = fork_or_unknown cur;
                tier = codes "Config";
                source = codes "configs/mainnet.yaml";
              })
              truth)
      ]
