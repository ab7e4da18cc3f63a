-- ===== src/Pyspec/Archive.antt =====
-- `archive_url` and `ensure_archive` of both harnesses. The cache directory is a parameter: which names
-- are there, and what a download or an extraction makes of it; one that fails has left something or
-- nothing, but raises. The downloads made stand in a list.
use etheorem.Common.{
  ◌≡◌, refl, ap, ◌∙◌, sym, inl, inr, Bool, true, false, Option, none, some, List, [], ◌∷◌, ◌++◌,
  Text, codes, Option-cases,
}
use mathlib.Core.Path.{subst}
use etheorem.Common.Outcome.{Outcome, passed, exits, raised}
use etheorem.Common.Action.{
  Action, Step, pure, gets, or_raise, modify, ◌>>=◌, ◌>>◌, >>=-eq-passed, >>=-passed, >>=-gets,
  state_of,
}

pub record Cache (C : Type 0) : Type 0 where
  pub root : Text
  pub is_dir : Text → C → Bool
  pub exists : Text → C → Bool
  pub mkdir : Text → C → Option C
  -- the bytes behind the URL written to a file, and an archive unpacked in a directory
  pub download : Text → Text → C → Option C
  pub extract : Text → Text → C → Option C

pub record State (C : Type 0) : Type 0 where
  pub cache : C
  pub downloads : List Text

-- The URL of an archive; the generic harness has only the archive `general`.
unfoldable pub archive_url : Text → Text → Text
archive_url tag archive =
    codes "https://github.com/ethereum/consensus-specs/releases/download/"
    ++ (tag ++ (codes "/" ++ (archive ++ codes ".tar.gz")))

module _ {C : Type 0} (c : Cache C) where
  unfoldable pub on_cache : (C → Option C) → Step (State C)
  on_cache change s = elim (change s.cache) [
    | none ↦ or_raise none s
    | some cache ↦ pure tt (record { cache = cache; downloads = s.downloads })
  ]

  -- The download, which is printed first.
  unfoldable pub fetch : Text → Text → Step (State C)
  fetch url tarball = do
    modify (λ s. record { cache = s.cache; downloads = s.downloads ++ url ∷ [] })
    on_cache (c.download url tarball)

  unfoldable pub extract_dir : Text → Text → Text
  extract_dir tag preset = c.root ++ (codes "/" ++ (tag ++ (codes "-" ++ preset)))

  unfoldable pub tarball_of : Text → Text → Text
  tarball_of tag preset = extract_dir tag preset ++ codes ".tar.gz"

  -- `if not tarball.exists()`
  unfoldable pub fetch_if_missing : Text → Text → Bool → Step (State C)
  fetch_if_missing tag preset true = pure tt
  fetch_if_missing tag preset false = fetch (archive_url tag preset) (tarball_of tag preset)

  -- What follows the test for the extracted directory.
  unfoldable pub fill : Text → Text → Bool → Action (State C) Text
  fill tag preset true = pure (extract_dir tag preset)
  fill tag preset false = do
    there ← gets (λ s. c.exists (tarball_of tag preset) s.cache)
    fetch_if_missing tag preset there
    on_cache (c.mkdir (extract_dir tag preset))
    on_cache (c.extract (tarball_of tag preset) (extract_dir tag preset))
    pure (extract_dir tag preset)

  unfoldable pub ensure_archive : Text → Text → Action (State C) Text
  ensure_archive tag preset = do
    on_cache (c.mkdir c.root)
    there ← gets (λ s. c.is_dir (extract_dir tag preset ++ codes "/tests") s.cache)
    fill tag preset there

  -- The generic harness's.
  unfoldable pub ensure_general : Text → Action (State C) Text
  ensure_general tag = ensure_archive tag (codes "general")

  abbrev HasTests : Text → Text → State C → Type 0
  HasTests tag preset s = c.is_dir (extract_dir tag preset ++ codes "/tests") s.cache ≡ true

  passed-inj : {A : Type 0} (a b : A) (s t : State C) → pure a s ≡ (passed b, t) → (a ≡ b) × (s ≡ t)
  passed-inj a b s t e = (
    ap (λ (p : Outcome _ × State C). elim p.0 [ passed x ↦ x | exits m ↦ a | raised ↦ a ]) e,
    ap (λ (p : Outcome _ × State C). p.1) e,
  )

  on_cache-passed :
      (change : C → Option C) (s t : State C) {a : Unit {0}}
      → on_cache change s ≡ (passed a, t)
      → (change s.cache ≡ some t.cache) × (t.downloads ≡ s.downloads)
  unfolding on_cache
  on_cache-passed change s t e = elim (Option-cases (change s.cache)) [
    | inl n ↦ let k = rw (on_cache, n) at e in cc
    | inr (cache, n) ↦
        let k = rw (on_cache, n) at e in
        (
          n ∙ state_of (λ u. some cache ≡ some u.cache) k refl,
          state_of (λ u. u.downloads ≡ s.downloads) k refl,
        )
  ]

  fill-tests :
      (tag preset : Text) (there : Bool) (s t : State C) (dir : Text)
      → ((x y : C)
          → c.extract (tarball_of tag preset) (extract_dir tag preset) x ≡ some y
          → c.is_dir (extract_dir tag preset ++ codes "/tests") y ≡ true)
      → c.is_dir (extract_dir tag preset ++ codes "/tests") s.cache ≡ there
      → fill tag preset there s ≡ (passed dir, t)
      → HasTests tag preset t × (extract_dir tag preset ≡ dir)
  unfolding fill
  fill-tests tag preset true s t dir unpacks there e =
      let (same, still) = passed-inj (extract_dir tag preset) dir s t e in
      (subst (λ u. HasTests tag preset u) still there, same)
  fill-tests tag preset false s t dir unpacks there e =
      let (b, s1, e1, k1) =
        >>=-eq-passed (gets (λ s. c.exists (tarball_of tag preset) s.cache)) _ s e in
      let (_, s2, e2, k2) = >>=-eq-passed (fetch_if_missing tag preset b) _ s1 k1 in
      let (_, s3, e3, k3) = >>=-eq-passed (on_cache _) _ s2 k2 in
      let (_, s4, e4, k4) = >>=-eq-passed (on_cache _) _ s3 k3 in
      let (same, still) = passed-inj (extract_dir tag preset) dir s4 t k4 in
      let (unpacked, _) = on_cache-passed _ s3 s4 e4 in
      (subst (λ u. HasTests tag preset u) still (unpacks s3.cache s4.cache unpacked), same)

  on_cache-some :
      (change : C → Option C) (s : State C) (cache : C)
      → change s.cache ≡ some cache
      → on_cache change s ≡ (passed tt, record { cache = cache; downloads = s.downloads })
  unfolding on_cache
  on_cache-some change s cache e = rw (on_cache, e) refl

  fill_there :
      (tag preset : Text) (there : Bool) (dir : Text) (s : State C)
      → there ≡ true
      → extract_dir tag preset ≡ dir
      → fill tag preset there s ≡ (passed dir, s)
  unfolding fill
  fill_there tag preset true dir s e same = ap (λ d. (passed d, s)) same
  fill_there tag preset false dir s e same = cc

  -- After a call that passed, a second one returns the same directory and downloads nothing, where an
  -- archive that is unpacked has a directory `tests`, and making the cache directory again succeeds and
  -- leaves that directory in place.
  pub ensure_archive_again :
      (tag preset : Text) (s t : State C) (dir : Text) (cache : C)
      → ((x y : C)
          → c.extract (tarball_of tag preset) (extract_dir tag preset) x ≡ some y
          → c.is_dir (extract_dir tag preset ++ codes "/tests") y ≡ true)
      → c.mkdir c.root t.cache ≡ some cache
      → (c.is_dir (extract_dir tag preset ++ codes "/tests") t.cache ≡ true
          → c.is_dir (extract_dir tag preset ++ codes "/tests") cache ≡ true)
      → ensure_archive tag preset s ≡ (passed dir, t)
      → ensure_archive tag preset t
        ≡ (passed dir, record { cache = cache; downloads = t.downloads })
  unfolding ensure_archive
  ensure_archive_again tag preset s t dir cache unpacks made keeps e =
      let (_, s1, e1, k1) = >>=-eq-passed (on_cache _) _ s e in
      let k2 = sym (>>=-gets _ _ s1) ∙ k1 in
      let (tests, same) = fill-tests tag preset _ s1 t dir unpacks refl k2 in
      >>=-passed _ _ t _ tt (on_cache-some (c.mkdir c.root) t cache made)
      ∙ (>>=-gets _ _ _
          ∙ fill_there tag preset _ dir (record { cache = cache; downloads = t.downloads })
              (keeps tests) same)
