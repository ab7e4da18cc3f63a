-- ===== src/Tiers/Refresh/Laws.antt =====
-- Which source of scripts/check_constant_tiers.py's ground truth wins.
use etheorem.Common.{
  ℕ, ◌≡◌, inl, inr, refl, Option, none, some, List, [], ◌∷◌, ◌++◌, Text, codes, starts_with,
  split_on, get_or, Bool-cases, Option-cases,
}
use etheorem.Common.Unicode.{Unicode}
use etheorem.Common.Strings.Lines.{splitlines, strip}
use etheorem.Common.Assoc.{lookup, set_default, set_default-keeps}
use etheorem.Tiers.{forks, docs, Place, Truth}
use etheorem.Tiers.Scan.{
  heading, fork_or_unknown, enter, row_key, yaml_key, scan_lines, scan_markdown, scan_preset,
  annotate, scan_config,
}
use etheorem.Tiers.Refresh.{read_docs, read_specs, read_presets, read_config, gather}

-- Whatever was found before stays as it was found.
abbrev Keeps : Truth → Truth → Type 0
Keeps before after =
    (key : Text) (p : Place) → lookup key before ≡ some p → lookup key after ≡ some p

set_default-Keeps : (key : Text) (p : Place) (t : Truth) → Keeps t (set_default key p t)
set_default-Keeps key p t k q h = set_default-keeps k key q p t h

scan_preset-Keeps :
    (fork : Text) (lines : List Text) (t : Truth) → Keeps t (scan_preset fork lines t)
unfolding scan_preset
scan_preset-Keeps fork [] t k q h = h
scan_preset-Keeps fork (line ∷ lines) t k q h =
    elim (Option-cases (yaml_key (strip (get_or (split_on b'#' line) 0 [])))) [
      | inl e ↦ rw (scan_preset, e) (scan_preset-Keeps fork lines t k q h)
      | inr (key, e) ↦
          let place : Place = record {
            fork = fork;
            tier = codes "Preset";
            source = codes "presets/" ++ (fork ++ codes ".yaml");
          } in
          rw (scan_preset, e)
            (scan_preset-Keeps fork lines (set_default key place t) k q
              (set_default-Keeps key place t k q h))
    ]

module _ (u : Unicode) where
  scan_lines-Keeps :
      (fork source : Text) (tier : Option Text) (depth : ℕ) (lines : List Text) (t : Truth)
      → Keeps t (scan_lines u fork source tier depth lines t)
  unfolding scan_lines
  scan_lines-Keeps fork source tier depth [] t k q h = h
  scan_lines-Keeps fork source none depth (line ∷ lines) t k q h =
      elim (Option-cases (heading line)) [
        | inr ((level, title), e) ↦
            let next = enter u level title none depth in
            rw (scan_lines, e) (scan_lines-Keeps fork source next.0 next.1 lines t k q h)
        | inl e ↦ rw (scan_lines, e) (scan_lines-Keeps fork source none depth lines t k q h)
      ]
  scan_lines-Keeps fork source (some tier) depth (line ∷ lines) t k q h =
      elim (Option-cases (heading line)) [
        | inr ((level, title), e) ↦
            let next = enter u level title (some tier) depth in
            rw (scan_lines, e) (scan_lines-Keeps fork source next.0 next.1 lines t k q h)
        | inl e ↦ elim (Option-cases (row_key line)) [
          | inl off ↦
              rw (scan_lines, e, off) (scan_lines-Keeps fork source (some tier) depth lines t k q h)
          | inr (key, on) ↦
              rw (scan_lines, e, on)
                (scan_lines-Keeps fork source (some tier) depth lines
                  (set_default key (record { fork = fork; tier = tier; source = source }) t) k q
                  (set_default-Keeps key (record { fork = fork; tier = tier; source = source }) t k
                    q h))
        ]
      ]

  scan_config-Keeps :
      (cur : Option Text) (lines : List Text) (t : Truth) → Keeps t (scan_config u cur lines t)
  unfolding scan_config
  scan_config-Keeps cur [] t k q h = h
  scan_config-Keeps cur (line ∷ lines) t k q h =
      let s = strip line in
      elim (Bool-cases (starts_with s (codes "#"))) [
        | inl e ↦ rw (scan_config, e) (scan_config-Keeps (annotate u s cur) lines t k q h)
        | inr e ↦ elim (Option-cases (yaml_key s)) [
          | inl off ↦ rw (scan_config, e, off) (scan_config-Keeps cur lines t k q h)
          | inr (key, on) ↦
              let place : Place = record {
                fork = fork_or_unknown u cur;
                tier = codes "Config";
                source = codes "configs/mainnet.yaml";
              } in
              rw (scan_config, e, on)
                (scan_config-Keeps cur lines (set_default key place t) k q
                  (set_default-Keeps key place t k q h))
        ]
      ]

module _ (u : Unicode) (fetch : Text → Option Text) where
  read_docs-Keeps :
      (fork : Text) (ds : List Text) (t : Truth) → Keeps t (read_docs u fetch fork ds t)
  unfolding read_docs scan_markdown
  read_docs-Keeps fork [] t k q h = h
  read_docs-Keeps fork (doc ∷ ds) t k q h =
      elim (Option-cases
        (fetch (codes "specs/" ++ (fork ++ (codes "/" ++ (doc ++ codes ".md")))))) [
          | inl e ↦ rw (read_docs, e) (read_docs-Keeps fork ds t k q h)
          | inr (text, e) ↦
              let source = fork ++ (codes "/" ++ (doc ++ codes ".md")) in
              rw (read_docs, e)
                (read_docs-Keeps fork ds (scan_markdown u text fork source t) k q
                  (scan_lines-Keeps u fork source none 0 (splitlines text) t k q h))
        ]

  read_specs-Keeps : (fs : List Text) (t : Truth) → Keeps t (read_specs u fetch fs t)
  unfolding read_specs
  read_specs-Keeps [] t k q h = h
  read_specs-Keeps (f ∷ fs) t k q h =
      read_specs-Keeps fs (read_docs u fetch f docs t) k q (read_docs-Keeps f docs t k q h)

  read_presets-Keeps : (fs : List Text) (t : Truth) → Keeps t (read_presets u fetch fs t)
  unfolding read_presets
  read_presets-Keeps [] t k q h = h
  read_presets-Keeps (f ∷ fs) t k q h =
      elim (Option-cases (fetch (codes "presets/minimal/" ++ (f ++ codes ".yaml")))) [
        | inl e ↦ rw (read_presets, e) (read_presets-Keeps fs t k q h)
        | inr (text, e) ↦
            rw (read_presets, e)
              (read_presets-Keeps fs (scan_preset f (splitlines text) t) k q
                (scan_preset-Keeps f (splitlines text) t k q h))
      ]

  read_config-Keeps : (t : Truth) → Keeps t (read_config u fetch t)
  unfolding read_config
  read_config-Keeps t k q h = elim (Option-cases (fetch (codes "configs/mainnet.yaml"))) [
    | inl e ↦ rw (read_config, e) h
    | inr (text, e) ↦ rw (read_config, e) (scan_config-Keeps u none (splitlines text) t k q h)
  ]

  read_specs-append :
      (early late : List Text) (t : Truth)
      → read_specs u fetch (early ++ late) t ≡ read_specs u fetch late (read_specs u fetch early t)
  unfolding read_specs
  read_specs-append [] late t = refl
  read_specs-append (f ∷ early) late t = read_specs-append early late (read_docs u fetch f docs t)

  read_presets-append :
      (early late : List Text) (t : Truth)
      → read_presets u fetch (early ++ late) t
        ≡ read_presets u fetch late (read_presets u fetch early t)
  unfolding read_presets
  read_presets-append [] late t = refl
  read_presets-append (f ∷ early) late t =
      elim (Option-cases (fetch (codes "presets/minimal/" ++ (f ++ codes ".yaml")))) [
        | inl e ↦ rw (read_presets, e) (read_presets-append early late t)
        | inr (text, e) ↦
            rw (read_presets, e)
              (read_presets-append early late (scan_preset f (splitlines text) t))
      ]

  read_specs-prefix :
      (fs early late : List Text) (t : Truth)
      → fs ≡ early ++ late
      → Keeps (read_specs u fetch early t) (read_specs u fetch fs t)
  read_specs-prefix fs early late t split k q h =
      rw (split, read_specs-append early late t)
        (read_specs-Keeps late (read_specs u fetch early t) k q h)

  read_presets-prefix :
      (fs early late : List Text) (t : Truth)
      → fs ≡ early ++ late
      → Keeps (read_presets u fetch early t) (read_presets u fetch fs t)
  read_presets-prefix fs early late t split k q h =
      rw (split, read_presets-append early late t)
        (read_presets-Keeps late (read_presets u fetch early t) k q h)

  -- What a document's table of some fork says of a name wins over later forks' documents, over
  -- the preset files and over the config file; what a preset file says wins over later ones and
  -- over the config file.
  pub gather-Keeps :
      (key : Text) (p : Place) (early late : List Text)
      → forks ≡ early ++ late
      → (lookup key (read_specs u fetch early []) ≡ some p → lookup key (gather u fetch) ≡ some p)
        × (lookup key (read_presets u fetch early (read_specs u fetch forks [])) ≡ some p
            → lookup key (gather u fetch) ≡ some p)
  unfolding gather
  gather-Keeps key p early late split =
      let specs = read_specs u fetch forks [] in
      (
        λ h. read_config-Keeps (read_presets u fetch forks specs) key p (
            read_presets-Keeps forks specs key p
              (read_specs-prefix forks early late [] split key p h)),
        λ h.
            read_config-Keeps (read_presets u fetch forks specs) key p
              (read_presets-prefix forks early late specs split key p h),
      )
