-- ===== src/Tiers/Refresh.antt =====
-- `pinned_version` and `refresh` of scripts/check_constant_tiers.py. The download is a parameter:
-- the text of a path under the pinned tag, if there is one. The JSON file is kept as its items.
pub mod Laws
use mathlib.Core.Option
use etheorem.Common.{
  ℕ, zero, suc, Bool, true, false, not, ◌&&◌, Option, none, some, List, [], ◌∷◌, ◌++◌, Text, codes,
  is_empty, ◌==◌, if◌then◌else◌,
}
use etheorem.Common.Monad.{◌>>=◌}
use etheorem.Common.Outcome.{Outcome, passed, exits}
use etheorem.Common.Unicode.{Unicode}
use etheorem.Common.Strings.Lines.{lstrip, splitlines}
use etheorem.Common.Strings.Order.{sort, text_leb}
use etheorem.Common.Strings.Scan.{take_while, drop_while, behind}
use etheorem.Tiers.{forks, docs, Place, Truth}
use etheorem.Tiers.Scan.{scan_markdown, scan_preset, scan_config}

-- `PINNED_VERSION\s*=\s*"([^"]+)"` at the start of a text.
unfoldable pub version_at : Text → Option Text
unfolding behind lstrip take_while drop_while
version_at s = do
  a ← behind (codes "PINNED_VERSION") s
  b ← behind (codes "=") (lstrip a)
  c ← behind (codes "\"") (lstrip b)
  let tag = take_while (λ x. not (x == b'"')) c
  rest ← behind (codes "\"") (drop_while (λ x. not (x == b'"')) c)
  if is_empty tag then none else some tag

-- The first line start at which the pattern matches.
unfoldable pub find_version : Bool → Text → Option Text
unfolding version_at
find_version at_start [] = none
find_version at_start (c ∷ s) =
    let later = find_version (c == 10) s in
    if at_start then elim (version_at (c ∷ s)) [ none ↦ later | some tag ↦ some tag ] else later

unfoldable pub pinned_version : Text → Text → Outcome Text
unfolding find_version
pinned_version path harness = elim (find_version true harness) [
  | none ↦ exits (codes "could not read PINNED_VERSION from " ++ path)
  | some tag ↦ passed tag
]

module _ (u : Unicode) (fetch : Text → Option Text) where
  -- The documents of one fork.
  unfoldable pub read_docs : Text → List Text → Truth → Truth
  unfolding scan_markdown
  read_docs fork [] truth = truth
  read_docs fork (doc ∷ rest) truth =
      elim (fetch (codes "specs/" ++ (fork ++ (codes "/" ++ (doc ++ codes ".md"))))) [
        | none ↦ read_docs fork rest truth
        | some text ↦
            read_docs fork rest
              (scan_markdown u text fork (fork ++ (codes "/" ++ (doc ++ codes ".md"))) truth)
      ]

  unfoldable pub read_specs : List Text → Truth → Truth
  unfolding read_docs
  read_specs [] truth = truth
  read_specs (fork ∷ rest) truth = read_specs rest (read_docs fork docs truth)

  unfoldable pub read_presets : List Text → Truth → Truth
  unfolding scan_preset splitlines
  read_presets [] truth = truth
  read_presets (fork ∷ rest) truth =
      elim (fetch (codes "presets/minimal/" ++ (fork ++ codes ".yaml"))) [
        | none ↦ read_presets rest truth
        | some text ↦ read_presets rest (scan_preset fork (splitlines text) truth)
      ]

  unfoldable pub read_config : Truth → Truth
  unfolding scan_config splitlines
  read_config truth = elim (fetch (codes "configs/mainnet.yaml")) [
    | none ↦ truth
    | some text ↦ scan_config u none (splitlines text) truth
  ]

  -- The items in the order in which they were found.
  unfoldable pub gather : Truth
  unfolding read_specs read_presets read_config
  gather = read_config (read_presets forks (read_specs forks []))

  -- `dict(sorted(truth.items()))`, which is written to the JSON file.
  unfoldable pub refresh : Truth
  unfolding gather sort text_leb
  refresh = sort (λ p q. text_leb p.0 q.0) gather
