-- ===== src/Citations/Main/Laws.antt =====
-- What the exit status of scripts/check_citations.py says of the citations.
use etheorem.Common.{
  ℕ, ◌-◌, ◌≤◌, ◌≡◌, ◌↔◌, inl, inr, refl, true, false, Option, none, some, List, [], ◌∷◌, Text,
  is_empty, length, All, Option-cases, Bool-cases, arith,
}
use etheorem.Common.Unicode.{Unicode}
use etheorem.Common.Strings.Lines.{splitlines}
use etheorem.Citations.Patterns.{decl_line}
use etheorem.Citations.Patterns.Names.{Mentions, decl_matches_iff}
use etheorem.Citations.Span.{actual_span, lookup_name, line_at}
use etheorem.Citations.Span.Places.{Somewhere, span-Somewhere, Somewhere-span}
use etheorem.Citations.Span.Laws.{Opens, IsEnd}
use etheorem.Citations.Span.Lookup.{actual_span_in_place}
use etheorem.Citations.Collect.{Citation, Files, target, collect_all}
use etheorem.Citations.Main.{
  Verdict, fine, stale, unresolved, end_differs, verdict, stale_of, unresolved_of, main,
}

module _ (u : Unicode) (files : Files) where
  -- What the pattern asks of a line: that it mentions the name, or opens any declaration where the
  -- lookup has no name.
  abbrev pub Opened : Option Text → Text → Type 0
  Opened none line = decl_line u line ≡ true
  Opened (some name) line = Mentions u name line

  Opens-iff :
      (name : Option Text) (lines : List Text) (i : ℕ)
      → Opens u lines name i ↔ Opened name (line_at lines i)
  Opens-iff none lines i = (λ h. h, λ h. h)
  Opens-iff (some name) lines i = decl_matches_iff u name (line_at lines i)

  -- A citation that is right: the cited file exists, the start line is a declaration line that mentions
  -- the citation's name, and a cited end is the last line of the declaration that begins there.
  abbrev pub Resolves : Citation → Type 0
  Resolves c =
      (text : Text) × (e : ℕ) × (files.text (target c) ≡ some text)
      × (1 ≤ c.start)
      × (c.start ≤ length (splitlines text))
      × Opened (lookup_name c.name) (line_at (splitlines text) (c.start - 1))
      × (1 ≤ e)
      × IsEnd u (splitlines text) (c.start - 1) (e - 1)
      × (end_differs c.finish e ≡ false)

  fine_sound : (c : Citation) → verdict u files c ≡ fine → Resolves c
  unfolding verdict
  fine_sound c h = elim (Option-cases (files.text (target c))) [
    | inl gone ↦ absurd (let g = rw (gone, verdict) at h in cc)
    | inr (text, there) ↦ elim (Option-cases (actual_span u (splitlines text) c.start c.name)) [
      | inl lost ↦ absurd (let g = rw (there, verdict, lost) at h in cc)
      | inr ((s, e), found) ↦
          let g = rw (there, verdict, found) at h in
          let same : s ≡ c.start = ground arith in
          let kept : end_differs c.finish e ≡ false = ground arith in
          let (low, high, opens, positive, end) =
            (actual_span_in_place u (splitlines text) c.start c.name e).0 (rw same at found) in
          let mentioned =
            (Opens-iff (lookup_name c.name) (splitlines text) (c.start - 1)).0 opens in
          (text, e, there, low, high, mentioned, positive, end, kept)
    ]
  ]

  fine_complete : (c : Citation) → Resolves c → verdict u files c ≡ fine
  unfolding verdict
  fine_complete c (text, e, there, low, high, opens, positive, end, kept) =
      let found = (actual_span_in_place u (splitlines text) c.start c.name e).1 (
        low,
        high,
        (Opens-iff (lookup_name c.name) (splitlines text) (c.start - 1)).1 opens,
        positive,
        end,
      ) in
      rw (there, verdict, found) (ground arith)

  nothing_wrong :
      (cs : List Citation)
      → is_empty (stale_of u files cs) ≡ true
      → is_empty (unresolved_of u files cs) ≡ true
      → All Resolves cs
  unfolding stale_of unresolved_of
  nothing_wrong [] h k = tt
  nothing_wrong (c ∷ cs) h k = by_verdict (verdict u files c) refl h k (nothing_wrong cs)
    where
      by_verdict :
          (v : Verdict)
          → verdict u files c ≡ v
          → is_empty (stale_of u files (c ∷ cs)) ≡ true
          → is_empty (unresolved_of u files (c ∷ cs)) ≡ true
          → (is_empty (stale_of u files cs) ≡ true
              → is_empty (unresolved_of u files cs) ≡ true
              → All Resolves cs)
          → All Resolves (c ∷ cs)
      by_verdict fine e h k rest = (fine_sound c e, rest (ground arith) (ground arith))
      by_verdict (stale s t) e h k rest = absurd (ground arith)
      by_verdict unresolved e h k rest = absurd (ground arith)

  All-right :
      (cs : List Citation)
      → All Resolves cs
      → (is_empty (stale_of u files cs) ≡ true) × (is_empty (unresolved_of u files cs) ≡ true)
  unfolding stale_of unresolved_of
  All-right [] h = (refl, refl)
  All-right (c ∷ cs) (p, q) = ground (arith, fine_complete c p, All-right cs q)

  -- A run without `--fix` exits with status 0 exactly when every collected citation is right in the
  -- sense of the patterns: its file exists, its start line has a declaration's keyword and then its
  -- name, at once or behind some dot of the line (any declaration's keyword will do for a citation
  -- without a name), and a cited end is the last line before the next construct that is not blank.
  pub main_status : (main u files false).status ≡ 0 ↔ All Resolves (collect_all u files)
  unfolding main
  main_status = (
    λ h. elim (Bool-cases (is_empty (stale_of u files (collect_all u files)))) [
      | inl e ↦ elim (Bool-cases (is_empty (unresolved_of u files (collect_all u files)))) [
        | inl k ↦ nothing_wrong (collect_all u files) e k
        | inr k ↦ absurd (let g = rw (e, k) at h in cc)
      ]
      | inr e ↦ absurd (let g = rw e at h in cc)
    ],
    λ h. let (e, k) = All-right (collect_all u files) h in rw (e, k) refl,
  )

  -- A citation that is not lost: the cited file exists, the start is one of its lines, and some line
  -- of it mentions the name, or the start line opens a declaration where there is no name.
  abbrev pub Located : Citation → Type 0
  Located c =
      (text : Text) × (files.text (target c) ≡ some text)
      × (1 ≤ c.start)
      × (c.start ≤ length (splitlines text))
      × Somewhere u (lookup_name c.name) (splitlines text) c.start

  found-Located : (c : Citation) → (verdict u files c ≡ unresolved → ⊥) → Located c
  unfolding verdict
  found-Located c h = elim (Option-cases (files.text (target c))) [
    | inl gone ↦ absurd (h (rw (gone, verdict) refl))
    | inr (text, there) ↦ elim (Option-cases (actual_span u (splitlines text) c.start c.name)) [
      | inl lost ↦ absurd (h (rw (there, verdict, lost) refl))
      | inr ((s, e), found) ↦
          let (low, high, place) = span-Somewhere u (splitlines text) c.start s e c.name found in
          (text, there, low, high, place)
    ]
  ]

  Located-found : (c : Citation) → Located c → verdict u files c ≡ unresolved → ⊥
  unfolding verdict
  Located-found c (text, there, low, high, place) h =
      elim (Option-cases (actual_span u (splitlines text) c.start c.name)) [
        | inl lost ↦ Somewhere-span u (splitlines text) c.start c.name low high place lost
        | inr ((s, e), found) ↦ let g = rw (there, verdict, found) at h in ground arith
      ]

  unresolved_of-Located :
      (cs : List Citation) → is_empty (unresolved_of u files cs) ≡ true → All Located cs
  unfolding unresolved_of
  unresolved_of-Located [] h = tt
  unresolved_of-Located (c ∷ cs) h =
      by_verdict (verdict u files c) refl h (unresolved_of-Located cs)
    where
      by_verdict :
          (v : Verdict)
          → verdict u files c ≡ v
          → is_empty (unresolved_of u files (c ∷ cs)) ≡ true
          → (is_empty (unresolved_of u files cs) ≡ true → All Located cs)
          → All Located (c ∷ cs)
      by_verdict fine e h rest = (found-Located c (λ e'. cc), rest (ground arith))
      by_verdict (stale s t) e h rest = (found-Located c (λ e'. cc), rest (ground arith))
      by_verdict unresolved e h rest = absurd (ground arith)

  Located-unresolved_of :
      (cs : List Citation) → All Located cs → is_empty (unresolved_of u files cs) ≡ true
  unfolding unresolved_of
  Located-unresolved_of [] h = refl
  Located-unresolved_of (c ∷ cs) (p, q) =
      by_verdict (verdict u files c) refl (Located-unresolved_of cs q)
    where
      by_verdict :
          (v : Verdict)
          → verdict u files c ≡ v
          → is_empty (unresolved_of u files cs) ≡ true
          → is_empty (unresolved_of u files (c ∷ cs)) ≡ true
      by_verdict fine e h = ground arith
      by_verdict (stale s t) e h = ground arith
      by_verdict unresolved e h = absurd (Located-found c p e)

  -- A run with `--fix` exits with status 0 exactly when no collected citation is lost: of each, the cited
  -- file exists, the start is one of its lines, and some line of the file has a declaration's keyword
  -- and then the name, at once or behind some dot of the line (for a citation without a name: the start
  -- line opens a declaration).
  pub main_fix : (main u files true).status ≡ 0 ↔ All Located (collect_all u files)
  unfolding main
  main_fix = (
    λ h. unresolved_of-Located (collect_all u files) (status_lost h),
    λ h.
        let e = Located-unresolved_of (collect_all u files) h in
        elim (Bool-cases (is_empty (stale_of u files (collect_all u files)))) [
          | inl k ↦ ground arith
          | inr k ↦ ground arith
        ],
  )
    where
      status_lost :
          (main u files true).status ≡ 0
          → is_empty (unresolved_of u files (collect_all u files)) ≡ true
      status_lost h = elim (Bool-cases (is_empty (stale_of u files (collect_all u files)))) [
        | inl e ↦ ground arith
        | inr e ↦ ground arith
      ]
