-- ===== src/Tiers/Check/Laws.antt =====
-- What status 0 of scripts/check_constant_tiers.py says of the constants.
use etheorem.Common.{
  ◌≡◌, ◌⊎◌, ◌↔◌, inl, inr, refl, Bool, true, false, not, ◌&&◌, none, some, List, [], ◌∷◌, codes,
  text_eq, mem_text, text_eq_sound, text_eq_refl, All, is_empty, Bool-cases, Option-cases, arith,
}
use etheorem.Common.Unicode.{Unicode}
use etheorem.Common.Assoc.{lookup}
use etheorem.Tiers.{untabled, Place, Truth}
use etheorem.Tiers.Ours.{upstream_key}
use etheorem.Tiers.Check.{Ours, Finding, owner, finding, tier_drifts, fork_drifts, those, report}

module _ (kind : Finding → Bool) (find : Ours → Finding) where
  those_none :
      (cs : List Ours) → is_empty (those kind find cs) ≡ true ↔ All (λ c. kind (find c) ≡ false) cs
  unfolding those
  those_none [] = (λ h. tt, λ h. refl)
  those_none (c ∷ cs) = elim (Bool-cases (kind (find c))) [
    | inl e ↦ (λ h. absurd (ground arith), λ (p, h). absurd (ground arith))
    | inr e ↦
        let (there, back) = those_none cs in (λ h. (e, there (rw e at h)), λ (p, h). rw e (back h))
  ]

module _ (u : Unicode) (truth : Truth) where
  -- A constant of ours that agrees with the ground truth: its upstream name is one that no table
  -- lists, or it has a place upstream with the same tier, and the fork that owns the place, when it
  -- is known, is the one that declares the constant.
  abbrev pub Agrees : Ours → Type 0
  Agrees c =
      let key = upstream_key u c.name truth in
      (mem_text key untabled ≡ true)
      ⊎ ((p : Place) × (lookup key truth ≡ some p)
          × (p.tier ≡ c.tier)
          × ((p.fork ≡ codes "?") ⊎ (owner u p.fork ≡ c.fork)))

  Agrees-iff :
      (c : Ours)
      → (tier_drifts (finding u truth c) ≡ false) × (fork_drifts (finding u truth c) ≡ false)
        ↔ Agrees c
  unfolding finding
  Agrees-iff c = elim (Bool-cases (mem_text (upstream_key u c.name truth) untabled)) [
    | inl e ↦ (λ h. inl e, λ h. rw e (refl, refl))
    | inr e ↦ elim (Option-cases (lookup (upstream_key u c.name truth) truth)) [
      | inl gone ↦ (λ h. absurd (let g = rw (e, gone) at h in cc), λ h. absurd (no_place e gone h))
      | inr (p, there) ↦ (
        λ h.
            let (h1, h2) = rw (e, there) at h in
            let tier : text_eq p.tier c.tier ≡ true = ground arith in
            inr (p, there, text_eq_sound p.tier c.tier tier, by_fork p h2),
        λ h. rw (e, there) (placed p e there h),
      )
    ]
  ]
    where
      no_place :
          mem_text (upstream_key u c.name truth) untabled ≡ false
          → lookup (upstream_key u c.name truth) truth ≡ none
          → Agrees c
          → ⊥
      no_place e gone (inl h) = cc
      no_place e gone (inr (p, there, tier, rest)) = cc

      by_fork :
          (p : Place)
          → (not (text_eq p.fork (codes "?")) && not (text_eq (owner u p.fork) c.fork)) ≡ false
          → (p.fork ≡ codes "?") ⊎ (owner u p.fork ≡ c.fork)
      by_fork p h = elim (Bool-cases (text_eq p.fork (codes "?"))) [
        | inl q ↦ inl (text_eq_sound p.fork (codes "?") q)
        | inr q ↦ inr (text_eq_sound (owner u p.fork) c.fork (ground arith))
      ]

      placed :
          (p : Place)
          → mem_text (upstream_key u c.name truth) untabled ≡ false
          → lookup (upstream_key u c.name truth) truth ≡ some p
          → Agrees c
          → (not (text_eq p.tier c.tier) ≡ false)
            × ((not (text_eq p.fork (codes "?")) && not (text_eq (owner u p.fork) c.fork)) ≡ false)
      placed p e there (inl h) = cc
      placed p e there (inr (q, there', tier, inl unknown)) =
          let same : q ≡ p = cc in
          (rw (← same, tier, text_eq_refl c.tier) refl, rw (← same, unknown) refl)
      placed p e there (inr (q, there', tier, inr owned)) =
          let same : q ≡ p = cc in
          (
            rw (← same, tier, text_eq_refl c.tier) refl,
            rw (← same, owned, text_eq_refl c.fork) (ground arith),
          )

  Agrees-All :
      (cs : List Ours)
      → All (λ c. tier_drifts (finding u truth c) ≡ false) cs
          × All (λ c. fork_drifts (finding u truth c) ≡ false) cs
        ↔ All Agrees cs
  Agrees-All [] = (λ h. tt, λ h. (tt, tt))
  Agrees-All (c ∷ cs) =
      let (one, back) = Agrees-iff c in
      let (rest, again) = Agrees-All cs in
      (
        λ ((p, ps), (q, qs)). (one (p, q), rest (ps, qs)),
        λ (h, hs). let (p, q) = back h in let (ps, qs) = again hs in ((p, ps), (q, qs)),
      )

  -- The check of a list of constants ends with status 0 exactly when every one of them agrees with
  -- the ground truth.
  pub report_status : (cs : List Ours) → (report u truth cs).status ≡ 0 ↔ All Agrees cs
  unfolding report
  report_status cs =
      let (t, t') = those_none tier_drifts (finding u truth) cs in
      let (f, f') = those_none fork_drifts (finding u truth) cs in
      (
        λ h. (Agrees-All cs).0 (t (ground arith), f (ground arith)),
        λ h. let (p, q) = (Agrees-All cs).1 h in rw (t' p, f' q) refl,
      )
