-- ===== src/Bump.antt =====
-- packages/LeanSha256/scripts/bump_patch.py: the patch number of a lakefile's version is raised, the
-- change committed and the commit tagged. Git is a parameter: what a command prints, from its
-- arguments, the lakefile and git's own store, and the store behind it. The commands given stand in
-- a log, and the printed lines in a list.
pub mod Version
pub mod Laws
pub mod Release
pub mod Reread
mod Tests
use etheorem.Common.{
  ℕ, ◌+◌, Bool, true, false, not, ◌&&◌, Option, none, some, List, [], ◌∷◌, ◌++◌, Text, codes,
  text_eq, is_empty, if◌then◌else◌,
}
use etheorem.Common.Action.{
  Action, Step, pure, exit_with, gets, or_raise, modify, exit_if, ◌>>=◌, ◌>>◌,
}
use etheorem.Common.Unicode.{Unicode}
use etheorem.Common.Strings.Digits.{decimal}
use etheorem.Common.Strings.Lines.{strip}
use etheorem.Bump.Version.{Found, search, version_text, bump_text}

pub record Repo (G : Type 0) : Type 0 where
  pub store : G
  -- the file's text, where it can be read
  pub lakefile : Option Text
  pub commands : List (List Text)
  pub printed : List Text

-- A command that fails returns nothing: `check=True` raises.
pub record Git (G : Type 0) : Type 0 where
  pub run : List Text → Option Text → G → Option Text × G
  -- `str(LAKEFILE)`
  pub lakefile_path : Text

abbrev pub status_args : List Text
status_args = codes "status" ∷ codes "--porcelain" ∷ []

abbrev pub branch_args : List Text
branch_args = codes "rev-parse" ∷ codes "--abbrev-ref" ∷ codes "HEAD" ∷ []

abbrev pub fetch_args : List Text
fetch_args = codes "fetch" ∷ codes "--tags" ∷ codes "--quiet" ∷ []

abbrev pub local_args : Text → List Text
local_args tag = codes "tag" ∷ codes "--list" ∷ tag ∷ []

abbrev pub remote_args : Text → List Text
remote_args tag = codes "ls-remote" ∷ codes "--tags" ∷ codes "origin" ∷ tag ∷ []

abbrev pub commit_args : Text → List Text
commit_args version =
    codes "commit" ∷ codes "-m" ∷ (codes "LeanSha256: bump patch version to " ++ version) ∷ []

abbrev pub tag_args : Text → List Text
tag_args version =
    codes "tag"
    ∷ codes "-a"
    ∷ (codes "leansha256-v" ++ version)
    ∷ codes "-m"
    ∷ (codes "LeanSha256 v" ++ version)
    ∷ []

abbrev pub tag_of : Text → Text
tag_of version = codes "leansha256-v" ++ version

module _ {G : Type 0} (g : Git G) where
  -- `git(*args, capture=capture)`
  unfoldable pub git : List Text → Bool → Action (Repo G) Text
  unfolding strip
  git args capture r =
      let (answer, store) = g.run args r.lakefile r.store in
      or_raise (elim answer [ none ↦ none | some out ↦ some (if capture then strip out else []) ])
        (record {
          store = store;
          lakefile = r.lakefile;
          commands = r.commands ++ args ∷ [];
          printed = r.printed;
        })

  unfoldable pub print : Text → Step (Repo G)
  print line = modify (λ r. record {
    store = r.store;
    lakefile = r.lakefile;
    commands = r.commands;
    printed = r.printed ++ line ∷ [];
  })

  unfoldable pub write_lakefile : Text → Step (Repo G)
  write_lakefile text = modify (λ r. record {
    store = r.store;
    lakefile = some text;
    commands = r.commands;
    printed = r.printed;
  })

  -- `die`: the message on standard error and status 1.
  unfoldable pub die_if : Bool → Text → Step (Repo G)
  die_if test message = exit_if test (codes "bump_patch: " ++ message)

  -- `if git(…): die(…)`: the message from what git printed.
  unfoldable pub die_on_output : List Text → (Text → Text) → Step (Repo G)
  die_on_output args message = do out ← git args true; die_if (not (is_empty out)) (message out)

  -- `git add` of the lakefile.
  abbrev pub add_args : List Text
  add_args = codes "add" ∷ g.lakefile_path ∷ []

  -- The guards on the working tree and the branch.
  unfoldable pub tree_guards : Bool → Action (Repo G) Text
  tree_guards allow_branch = do
    die_on_output status_args (λ status.
        codes
          "working tree has uncommitted changes — commit or stash before bumping. `git status` output:\n"
        ++ status)
    branch ← git branch_args true
    die_if (not (text_eq branch (codes "main")) && not allow_branch) (
        codes "current branch is `"
        ++ (branch ++ codes "`, not `main`. Use --allow-branch to override (e.g. for testing)."))
    pure branch

  -- `if not match: die(…)`
  unfoldable pub match_or_die : Option (Text × Found) → Action (Repo G) (Text × Found)
  match_or_die none =
      exit_with (codes "bump_patch: could not find `version = \"X.Y.Z\"` in " ++ g.lakefile_path)
  match_or_die (some found) = pure found

  -- `LAKEFILE.read_text()` and the search in it.
  unfoldable pub read_version : Unicode → Action (Repo G) (Text × Found)
  read_version u = do
    file ← gets (λ r. r.lakefile)
    text ← or_raise file
    match_or_die (search u true text)

  -- The guard on the tag, here and on the remote.
  unfoldable pub tag_guards : Text → Step (Repo G)
  tag_guards tag = do
    git fetch_args false
    die_on_output (local_args tag)
        (λ _. codes "tag `" ++ (tag ++ codes "` already exists locally — aborting."))
    die_on_output (remote_args tag)
        (λ _. codes "tag `" ++ (tag ++ codes "` already exists on origin — aborting."))

  unfoldable pub commit_and_tag : Text → Step (Repo G)
  commit_and_tag version = do
    git add_args false
    git (commit_args version) false
    git (tag_args version) false
    pure tt

  -- The lines that say how to publish.
  unfoldable pub explain : Text → Text → Step (Repo G)
  explain branch version = do
    print []
    print (codes "Local commit + tag created. To publish:")
    print (codes "  git push origin " ++ branch)
    print (codes "  git push origin " ++ tag_of version)
    print []
    print (
        codes "The mirror workflow will translate the tag to `v"
        ++ (version ++ codes "` on github.com/etheorem/LeanSha256."))

  -- The file written, the commit, the tag.
  unfoldable pub release : Text → Text → Found → Step (Repo G)
  release branch before found = do
    let version = version_text found.major found.minor (found.patch + 1)
    write_lakefile (bump_text before found)
    print (
        codes "bumped lakefile.toml: "
        ++ (version_text found.major found.minor found.patch ++ (codes " → " ++ version)))
    commit_and_tag version
    explain branch version

  -- Everything before the first write.
  unfoldable pub guards : Unicode → Bool → Action (Repo G) (Text × Text × Found)
  guards u allow_branch = do
    branch ← tree_guards allow_branch
    (before, found) ← read_version u
    tag_guards (tag_of (version_text found.major found.minor (found.patch + 1)))
    pure (branch, before, found)

  unfoldable pub main : Unicode → Bool → Step (Repo G)
  main u allow_branch = do
    (branch, before, found) ← guards u allow_branch
    release branch before found
