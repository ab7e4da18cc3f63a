-- ===== src/Bump/Release/Passes.antt =====
-- The steps of bump_patch.py turned round: what each of them has done where it passed.
use etheorem.Common.{
  ◌+◌, ◌≡◌, refl, ap, ◌⊎◌, inl, inr, Bool, true, false, not, ◌&&◌, Option, none, some, List, [],
  ◌∷◌, ◌++◌, append_assoc, append-nil, sym, ◌∙◌, Text, codes, text_eq, text_eq_sound, is_empty,
  Bool-cases, Option-cases,
}
use mathlib.Core.Path.{subst}
use etheorem.Common.Action.{pure, or_raise, ◌>>=◌, >>=-eq-passed, state_of}
use etheorem.Common.Outcome.{Outcome, passed, exits, raised}
use etheorem.Common.Unicode.{Unicode}
use etheorem.Bump.{
  Git, Repo, git, print, write_lakefile, die_if, die_on_output, match_or_die, tree_guards,
  read_version, tag_guards, commit_and_tag, explain, release, status_args, branch_args, fetch_args,
  local_args, remote_args, add_args, commit_args, tag_args,
}
use etheorem.Bump.Version.{Found, search, bump_text, version_text}

abbrev pub new_version : Found → Text
new_version f = version_text f.major f.minor (f.patch + 1)

module _ {G : Type 0} (g : Git G) where
  -- The lakefile is the same, and the commands have been given.
  pub record Gave (cs : List (List Text)) (r v : Repo G) : Type 0 where
    pub same : v.lakefile ≡ r.lakefile
    pub given : v.commands ≡ r.commands ++ cs

  Gave-none : (r : Repo G) → Gave [] r r
  Gave-none r = record { same = refl; given = sym (append-nil r.commands) }

  pub Gave-trans :
      {cs ds : List (List Text)} {r v w : Repo G} → Gave cs r v → Gave ds v w → Gave (cs ++ ds) r w
  Gave-trans {cs = cs} {ds = ds} {r = r} h k = record {
    same = rw (k.same, h.same) refl;
    given = rw (k.given, h.given) (append_assoc r.commands cs ds);
  }

  pub Gave-from : {cs : List (List Text)} {r x v : Repo G} → r ≡ x → Gave cs x v → Gave cs r v
  Gave-from {cs = cs} {v = v} e h = subst (λ x. Gave cs x v) (sym e) h

  git-Gave :
      (args : List Text) (capture : Bool) (r : Repo G) → Gave (args ∷ []) r (git g args capture r).1
  unfolding git
  git-Gave args capture r = elim (Option-cases (g.run args r.lakefile r.store).0) [
    | inl e ↦ rw e (record { same = refl; given = refl })
    | inr (t, e) ↦ rw e (record { same = refl; given = refl })
  ]

  -- What git answers, and the repository that it leaves.
  abbrev pub answer : List Text → Repo G → Outcome Text
  answer args r = (git g args true r).0

  abbrev pub after : List (List Text) → Repo G → Repo G
  after [] r = r
  after (args ∷ rest) r = after rest (git g args true r).1

  git-left :
      (args : List Text) (capture : Bool) (r v : Repo G) {out : Text}
      → git g args capture r ≡ (passed out, v)
      → after (args ∷ []) r ≡ v
  unfolding git
  git-left args capture r v h =
      same_state args capture r ∙ ap (λ (p : Outcome Text × Repo G). p.1) h
    where
      same_state :
          (args : List Text) (capture : Bool) (r : Repo G)
          → (git g args true r).1 ≡ (git g args capture r).1
      same_state args capture r = elim (Option-cases (g.run args r.lakefile r.store).0) [
        | inl e ↦ rw e refl
        | inr (t, e) ↦ rw e refl
      ]

  git-passes :
      (args : List Text) (capture : Bool) (r v : Repo G) {out : Text}
      → git g args capture r ≡ (passed out, v)
      → Gave (args ∷ []) r v
  git-passes args capture r v h = state_of (Gave (args ∷ []) r) h (git-Gave args capture r)

  die_if-passes :
      (test : Bool) (message : Text) (r v : Repo G) {a : Unit {0}}
      → die_if g test message r ≡ (passed a, v)
      → (test ≡ false) × (r ≡ v)
  unfolding die_if
  die_if-passes true message r v h = cc
  die_if-passes false message r v h = (refl, ap (λ (p : Outcome (Unit {0}) × Repo G). p.1) h)

  print-passes :
      (line : Text) (r v : Repo G) {a : Unit {0}} → print g line r ≡ (passed a, v) → Gave [] r v
  unfolding print
  print-passes line r v h =
      state_of (Gave [] r) h (record { same = refl; given = sym (append-nil r.commands) })

  is_empty_sound : (s : Text) → not (is_empty s) ≡ false → s ≡ []
  is_empty_sound [] h = refl
  is_empty_sound (c ∷ s) h = cc

  -- A query and the guard on its answer, which has to be empty.
  die_on_output-passes :
      (args : List Text) (message : Text → Text) (r v : Repo G) {a : Unit {0}}
      → die_on_output g args message r ≡ (passed a, v)
      → Gave (args ∷ []) r v × (answer args r ≡ passed []) × (after (args ∷ []) r ≡ v)
  unfolding die_on_output
  die_on_output-passes args message r v h =
      let (out, x, e, k) = >>=-eq-passed (git g args true) _ r h in
      let (empty, same) = die_if-passes (not (is_empty out)) (message out) x v k in
      (
        subst (Gave (args ∷ []) r) same (git-passes args true r x e),
        ap (λ (p : Outcome Text × Repo G). p.0) e
            ∙ ap (λ (t : Text). passed t) (is_empty_sound out empty),
        git-left args true r x e ∙ same,
      )

  pub tag_guards-passes :
      (tag : Text) (r v : Repo G) {a : Unit {0}}
      → tag_guards g tag r ≡ (passed a, v)
      → Gave (fetch_args ∷ local_args tag ∷ remote_args tag ∷ []) r v
        × (answer (local_args tag) (after (fetch_args ∷ []) r) ≡ passed [])
        × (answer (remote_args tag) (after (fetch_args ∷ local_args tag ∷ []) r) ≡ passed [])
        × (after (fetch_args ∷ local_args tag ∷ remote_args tag ∷ []) r ≡ v)
  unfolding tag_guards
  tag_guards-passes tag r v h =
      let (_, x, e, k) = >>=-eq-passed (git g fetch_args false) _ r h in
      let (_, y, e', k') = >>=-eq-passed (die_on_output g (local_args tag) _) _ x k in
      let (gave, here, left) = die_on_output-passes (local_args tag) _ x y e' in
      let (gave', there, left') = die_on_output-passes (remote_args tag) _ y v k' in
      let fetched = git-passes fetch_args false r x e in
      let at = git-left fetch_args false r x e in
      let at' = ap (after (local_args tag ∷ [])) at ∙ left in
      (
        Gave-trans (Gave-trans fetched gave) gave',
        subst (λ w. answer (local_args tag) w ≡ passed []) (sym at) here,
        subst (λ w. answer (remote_args tag) w ≡ passed []) (sym at') there,
        ap (after (remote_args tag ∷ [])) at' ∙ left',
      )

  pub pure-passes :
      {A : Type 0} (a : A) (r v : Repo G) {b : A} → pure a r ≡ (passed b, v) → (a ≡ b) × (r ≡ v)
  pure-passes a r v h = (
    ap (λ (p : Outcome _ × Repo G). elim p.0 [ passed c ↦ c | exits t ↦ a | raised ↦ a ]) h,
    ap (λ (p : Outcome _ × Repo G). p.1) h,
  )

  branch_known :
      (allow : Bool) (b : Text)
      → (not (text_eq b (codes "main")) && not allow) ≡ false
      → (b ≡ codes "main") ⊎ (allow ≡ true)
  branch_known allow b h = elim (Bool-cases (text_eq b (codes "main"))) [
    | inl e ↦ inl (text_eq_sound b (codes "main") e)
    | inr e ↦ let k = rw e at h in inr (not_false allow k)
  ]
    where
      not_false : (a : Bool) → not a ≡ false → a ≡ true
      not_false true h = refl
      not_false false h = cc

  -- The guard on the branch, with what is returned behind it.
  branch-passes :
      (allow : Bool) (b message : Text) (r v : Repo G) {c : Text}
      → (die_if g (not (text_eq b (codes "main")) && not allow) message >>= λ _. pure b) r
        ≡ (passed c, v)
      → ((b ≡ codes "main") ⊎ (allow ≡ true)) × (b ≡ c) × (r ≡ v)
  branch-passes allow b message r v h =
      let (_, x, e, k) = >>=-eq-passed (die_if g _ message) _ r h in
      let (test, same) = die_if-passes _ message r x e in
      let (named, same') = pure-passes b x v k in (branch_known allow b test, named, same ∙ same')

  pub tree_guards-passes :
      (allow : Bool) (r v : Repo G) {branch : Text}
      → tree_guards g allow r ≡ (passed branch, v)
      → Gave (status_args ∷ branch_args ∷ []) r v
        × (answer status_args r ≡ passed [])
        × (answer branch_args (after (status_args ∷ []) r) ≡ passed branch)
        × ((branch ≡ codes "main") ⊎ (allow ≡ true))
        × (after (status_args ∷ branch_args ∷ []) r ≡ v)
  unfolding tree_guards
  tree_guards-passes allow r v {branch = branch} h =
      let (_, x, e, k) = >>=-eq-passed (die_on_output g status_args _) _ r h in
      let (gave, clean, left) = die_on_output-passes status_args _ r x e in
      let (b, y, e', k') = >>=-eq-passed (git g branch_args true) _ x k in
      let (on_main, named, same) = branch-passes allow b _ y v k' in
      let said = ap (λ (p : Outcome Text × Repo G). p.0) e' in
      (
        Gave-trans gave
            (subst (Gave (branch_args ∷ []) x) same (git-passes branch_args true x y e')),
        clean,
        subst (λ w. answer branch_args w ≡ passed branch) (sym left)
            (said ∙ ap (λ t. passed t) named),
        subst (λ t. (t ≡ codes "main") ⊎ (allow ≡ true)) named on_main,
        ap (after (branch_args ∷ [])) left ∙ (git-left branch_args true x y e' ∙ same),
      )

  match-passes :
      (o : Option (Text × Found)) (r v : Repo G) {p : Text × Found}
      → match_or_die g o r ≡ (passed p, v)
      → (o ≡ some p) × (r ≡ v)
  unfolding match_or_die
  match-passes none r v h = cc
  match-passes (some p) r v h = let (same, k) = pure-passes p r v h in (ap (λ q. some q) same, k)

  text-passes :
      (u : Unicode) (file : Option Text) (r v : Repo G) {p : Text × Found}
      → (or_raise file >>= λ text. match_or_die g (search u true text)) r ≡ (passed p, v)
      → (r ≡ v) × ((text : Text) × (file ≡ some text) × (search u true text ≡ some p))
  unfolding ◌>>=◌
  text-passes u none r v h = cc
  text-passes u (some text) r v h =
      let (found, same) = match-passes (search u true text) r v h in (same, (text, refl, found))

  pub read_version-passes :
      (u : Unicode) (r v : Repo G) {p : Text × Found}
      → read_version g u r ≡ (passed p, v)
      → (r ≡ v) × ((text : Text) × (r.lakefile ≡ some text) × (search u true text ≡ some p))
  unfolding read_version ◌>>=◌
  read_version-passes u r v h = text-passes u r.lakefile r v h

  explain-Gave : (branch version : Text) (r : Repo G) → Gave [] r (explain g branch version r).1
  unfolding explain print ◌>>=◌
  explain-Gave branch version r = record { same = refl; given = sym (append-nil r.commands) }

  commit_and_tag-passes :
      (version : Text) (r v : Repo G) {a : Unit {0}}
      → commit_and_tag g version r ≡ (passed a, v)
      → Gave (add_args g ∷ commit_args version ∷ tag_args version ∷ []) r v
  unfolding commit_and_tag
  commit_and_tag-passes version r v h =
      let (_, x, e, k) = >>=-eq-passed (git g (add_args g) false) _ r h in
      let (_, y, e', k') = >>=-eq-passed (git g (commit_args version) false) _ x k in
      let (_, z, e'', k'') = >>=-eq-passed (git g (tag_args version) false) _ y k' in
      let (_, same) = pure-passes tt z v k'' in
      let tagged = subst (Gave _ y) same (git-passes _ false y z e'') in
      Gave-trans (git-passes _ false r x e) (Gave-trans (git-passes _ false x y e') tagged)

  written :
      (text : Text) (r v : Repo G) {a : Unit {0}}
      → write_lakefile g text r ≡ (passed a, v)
      → (v.lakefile ≡ some text) × (v.commands ≡ r.commands)
  unfolding write_lakefile
  written text r v h =
      state_of (λ w. (w.lakefile ≡ some text) × (w.commands ≡ r.commands)) h (refl, refl)

  -- The text written, and the last three commands.
  pub release-passes :
      (branch before : Text) (f : Found) (r v : Repo G) {a : Unit {0}}
      → release g branch before f r ≡ (passed a, v)
      → (v.lakefile ≡ some (bump_text before f))
        × ((x : Repo G) × (x.commands ≡ r.commands)
            × Gave (add_args g ∷ commit_args (new_version f) ∷ tag_args (new_version f) ∷ []) x v)
  unfolding release
  release-passes branch before f r v h =
      let (_, x, e, k) = >>=-eq-passed (write_lakefile g _) _ r h in
      let (_, y, e', k') = >>=-eq-passed (print g _) _ x k in
      let (_, z, e'', k'') = >>=-eq-passed (commit_and_tag g _) _ y k' in
      let (text, same) = written _ r x e in
      let explained = state_of (Gave [] z) k'' (explain-Gave branch _ z) in
      let all =
        Gave-trans (print-passes _ x y e')
          (Gave-trans (commit_and_tag-passes _ y z e'') explained) in
      (all.same ∙ text, (x, same, all))
