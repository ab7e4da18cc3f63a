-- ===== src/Bump/Laws.antt =====
-- What a run of bump_patch.py does to the repository, refused or not.
use etheorem.Common.{
  ◌≡◌, refl, inl, inr, Bool, true, false, ◌&&◌, ◌||◌, Option, none, some, List, [], ◌∷◌, Text,
  codes, text_eq, mem_text, All, All-append, Option-cases,
}
use etheorem.Common.Action.{
  pure, gets, or_raise, Keeps, NeverExits, Keeps->>=, NeverExits->>=, ◌>>=◌, >>=-eq-exits, state_of,
}
use etheorem.Common.Outcome.{exits}
use etheorem.Common.Unicode.{Unicode}
use etheorem.Bump.{
  Git, Repo, git, print, write_lakefile, die_if, die_on_output, match_or_die, tree_guards,
  read_version, tag_guards, commit_and_tag, explain, release, guards, main,
}
use etheorem.Bump.Version.{Found, search}

-- A command that leaves the branch and the tags made here as they are.
unfoldable pub is_query : List Text → Bool
unfolding mem_text text_eq
is_query [] = false
is_query (c ∷ []) = false
is_query (c ∷ d ∷ args) =
    text_eq c (codes "status")
    || (text_eq c (codes "rev-parse")
        || (text_eq c (codes "fetch")
            || (text_eq c (codes "ls-remote")
                || (text_eq c (codes "tag") && text_eq d (codes "--list")))))

module _ {G : Type 0} (g : Git G) where
  -- The file is as it was, and git was only asked.
  unfoldable pub Untouched : Option Text → Repo G → Type 0
  Untouched file r = (r.lakefile ≡ file) × All (λ args. is_query args ≡ true) r.commands

  git-Untouched :
      (file : Option Text) (args : List Text) (capture : Bool)
      → is_query args ≡ true
      → Keeps (Untouched file) (git g args capture)
  unfolding git Keeps Untouched NeverExits
  git-Untouched file args capture q r h =
      let both = All-append (λ args. is_query args ≡ true) r.commands (args ∷ []) h.1 (q, tt) in
      elim (Option-cases (g.run args r.lakefile r.store).0) [
        | inl e ↦ rw e (h.0, both)
        | inr (t, e) ↦ rw e (h.0, both)
      ]

  die_if-Untouched :
      (file : Option Text) (test : Bool) (message : Text)
      → Keeps (Untouched file) (die_if g test message)
  unfolding die_if Keeps
  die_if-Untouched file true message r h = h
  die_if-Untouched file false message r h = h

  die_on_output-Untouched :
      (file : Option Text) (args : List Text) (message : Text → Text)
      → is_query args ≡ true
      → Keeps (Untouched file) (die_on_output g args message)
  unfolding die_on_output
  die_on_output-Untouched file args message q =
      Keeps->>= (Untouched file) _ _ (git-Untouched file args true q)
        (λ out. die_if-Untouched file _ _)

  pure-Untouched : (file : Option Text) {A : Type 0} (a : A) → Keeps (Untouched file) (pure a)
  unfolding Keeps
  pure-Untouched file a r h = h

  or_raise-Untouched :
      (file : Option Text) {A : Type 0} (o : Option A) → Keeps (Untouched file) (or_raise o)
  unfolding Keeps
  or_raise-Untouched file none r h = h
  or_raise-Untouched file (some a) r h = h

  gets-Untouched :
      (file : Option Text) {A : Type 0} (f : Repo G → A) → Keeps (Untouched file) (gets f)
  unfolding Keeps
  gets-Untouched file f r h = h

  match_or_die-Untouched :
      (file : Option Text) (o : Option (Text × Found)) → Keeps (Untouched file) (match_or_die g o)
  unfolding Keeps match_or_die
  match_or_die-Untouched file none r h = h
  match_or_die-Untouched file (some found) r h = h

  tree_guards-Untouched :
      (file : Option Text) (allow : Bool) → Keeps (Untouched file) (tree_guards g allow)
  unfolding tree_guards is_query text_eq
  tree_guards-Untouched file allow =
      Keeps->>= (Untouched file) _ _ (die_on_output-Untouched file _ _ refl) (λ _.
        Keeps->>= (Untouched file) _ _ (git-Untouched file _ true refl) (λ branch.
          Keeps->>= (Untouched file) _ _ (die_if-Untouched file _ _) (λ _. pure-Untouched file _)))

  read_version-Untouched :
      (file : Option Text) (u : Unicode) → Keeps (Untouched file) (read_version g u)
  unfolding read_version
  read_version-Untouched file u =
      Keeps->>= (Untouched file) _ _ (gets-Untouched file (λ r. r.lakefile)) (λ o.
        Keeps->>= (Untouched file) _ _ (or_raise-Untouched file o)
          (λ text. match_or_die-Untouched file (search u true text)))

  tag_guards-Untouched :
      (file : Option Text) (tag : Text) → Keeps (Untouched file) (tag_guards g tag)
  unfolding tag_guards is_query text_eq
  tag_guards-Untouched file tag =
      Keeps->>= (Untouched file) _ _ (git-Untouched file _ false refl) (λ _.
        Keeps->>= (Untouched file) _ _ (die_on_output-Untouched file _ _ refl)
          (λ _. die_on_output-Untouched file _ _ refl))

  guards-Untouched :
      (file : Option Text) (u : Unicode) (allow : Bool) → Keeps (Untouched file) (guards g u allow)
  unfolding guards
  guards-Untouched file u allow =
      Keeps->>= (Untouched file) _ _ (tree_guards-Untouched file allow) (λ branch.
        Keeps->>= (Untouched file) _ _ (read_version-Untouched file u) (λ (before, found).
          Keeps->>= (Untouched file) _ _ (tag_guards-Untouched file _)
            (λ _. pure-Untouched file _)))

  git-NeverExits : (args : List Text) (capture : Bool) → NeverExits (git g args capture)
  unfolding git Keeps Untouched NeverExits
  git-NeverExits args capture r message = elim (Option-cases (g.run args r.lakefile r.store).0) [
    | inl e ↦ rw e (λ h. cc)
    | inr (t, e) ↦ rw e (λ h. cc)
  ]

  print-NeverExits : (line : Text) → NeverExits (print g line)
  unfolding print NeverExits
  print-NeverExits line r message h = cc

  write-NeverExits : (text : Text) → NeverExits (write_lakefile g text)
  unfolding write_lakefile NeverExits
  write-NeverExits text r message h = cc

  pure-NeverExits : {A : Type 0} (a : A) → NeverExits {W = Repo G} (pure a)
  unfolding NeverExits
  pure-NeverExits a r message h = cc

  commit_and_tag-NeverExits : (version : Text) → NeverExits (commit_and_tag g version)
  unfolding commit_and_tag
  commit_and_tag-NeverExits version = NeverExits->>= _ _ (git-NeverExits _ false) (λ _.
      NeverExits->>= _ _ (git-NeverExits _ false)
        (λ _. NeverExits->>= _ _ (git-NeverExits _ false) (λ _. pure-NeverExits tt)))

  explain-NeverExits : (branch version : Text) → NeverExits (explain g branch version)
  unfolding explain print ◌>>=◌ NeverExits
  explain-NeverExits branch version r message h = cc

  release-NeverExits :
      (branch before : Text) (found : Found) → NeverExits (release g branch before found)
  unfolding release
  release-NeverExits branch before found = NeverExits->>= _ _ (write-NeverExits _) (λ _.
      NeverExits->>= _ _ (print-NeverExits _)
        (λ _. NeverExits->>= _ _ (commit_and_tag-NeverExits _) (λ _. explain-NeverExits branch _)))

  Untouched-start : (r : Repo G) → r.commands ≡ [] → Untouched r.lakefile r
  unfolding Untouched
  Untouched-start r h = (refl, rw h tt)

  Untouched-end :
      (r : Repo G) (u : Unicode) (allow : Bool)
      → r.commands ≡ []
      → Untouched r.lakefile (guards g u allow r).1
  unfolding Keeps
  Untouched-end r u allow h = guards-Untouched r.lakefile u allow r (Untouched-start r h)

  -- Whoever is refused, with whichever message, has changed nothing: the lakefile is as it was, and
  -- git was given queries and a fetch only, provided that none was logged before.
  pub main-refused :
      (u : Unicode) (allow_branch : Bool) (r v : Repo G) (message : Text)
      → r.commands ≡ []
      → main g u allow_branch r ≡ (exits message, v)
      → (v.lakefile ≡ r.lakefile) × All (λ args. is_query args ≡ true) v.commands
  unfolding main Untouched
  main-refused u allow_branch r v message h e =
      let stops =
        >>=-eq-exits (guards g u allow_branch) (λ p. release g p.0 p.1 p.2) r v message
          (λ p. release-NeverExits p.0 p.1 p.2) e in
      state_of (Untouched r.lakefile) stops (Untouched-end r u allow_branch h)
