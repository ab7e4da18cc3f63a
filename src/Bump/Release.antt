-- ===== src/Bump/Release.antt =====
-- What a run of bump_patch.py that passes has done.
pub mod Passes
use etheorem.Common.{
  ◌+◌, ◌≡◌, ap, ◌⊎◌, inl, inr, Bool, true, false, not, ◌&&◌, Option, none, some, List, [], ◌∷◌,
  ◌++◌, append_assoc, append-nil, Text, codes, text_eq, text_eq_sound, is_empty, Bool-cases,
  Option-cases,
}
use etheorem.Common.Action.{pure, or_raise, ◌>>=◌, state_of}
use etheorem.Common.Outcome.{Outcome, passed, exits, raised}
use etheorem.Common.Unicode.{Unicode}
use etheorem.Bump.{
  Git, Repo, git, print, write_lakefile, die_if, die_on_output, match_or_die, commit_and_tag,
  explain, release, status_args, branch_args, fetch_args, local_args, remote_args, add_args,
  commit_args, tag_args, tag_of,
}
use etheorem.Bump.Version.{Found, search, version_text}
use etheorem.Bump.Release.Passes.{new_version, Gave, answer, after}

module _ {G : Type 0} (g : Git G) where
  -- The eight commands of a run that passes, in order.
  unfoldable pub all_commands : Text → List (List Text)
  all_commands version =
      status_args
      ∷ branch_args
      ∷ fetch_args
      ∷ local_args (tag_of version)
      ∷ remote_args (tag_of version)
      ∷ add_args g
      ∷ commit_args version
      ∷ tag_args version
      ∷ []

  -- What the guards have seen to, each of them in the repository that the commands before it left: a
  -- clean tree, the branch that git named, which is allowed, a version that was found, and no such tag,
  -- here or on the remote.
  pub record Cleared (u : Unicode) (allow : Bool) (r v : Repo G) (q : Text × Text × Found)
      : Type 0 where
    clean : answer g status_args r ≡ passed []
    named : answer g branch_args (after g (status_args ∷ []) r) ≡ passed q.0
    known : (q.0 ≡ codes "main") ⊎ (allow ≡ true)
    found : (text : Text) × (r.lakefile ≡ some text) × (search u true text ≡ some (q.1, q.2))
    here :
        answer g
          (local_args (tag_of (new_version q.2)))
          (after g (status_args ∷ branch_args ∷ fetch_args ∷ []) r)
        ≡ passed []
    there :
        answer g (remote_args (tag_of (new_version q.2))) (
          after g
            (status_args ∷ branch_args ∷ fetch_args ∷ local_args (tag_of (new_version q.2)) ∷ [])
            r)
        ≡ passed []
    asked :
        Gave g
          (status_args
            ∷ branch_args
            ∷ fetch_args
            ∷ local_args (tag_of (new_version q.2))
            ∷ remote_args (tag_of (new_version q.2))
            ∷ [])
          r
          v
