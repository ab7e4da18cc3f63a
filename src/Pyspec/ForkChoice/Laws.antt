-- ===== src/Pyspec/ForkChoice/Laws.antt =====
-- The fork-choice script names every key that it does not read.
use mathlib.Core.Path.{subst}
use etheorem.Common.{
  ℕ, ◌≡◌, ◌↔◌, inl, inr, refl, sym, false, some, List, [], ◌∷◌, ◌++◌, Text, codes, join, mem_text,
  get_elem?, is_empty, Bool-cases, if◌then◌else◌,
}
use etheorem.Common.Strings.Order.{sort, insert_sorted, text_leb}
use etheorem.Pyspec.ForkChoice.{
  Checks, Head, Votes, Checkpoint, Leaf, words, known_check_keys, head_subkeys, vote_subkeys,
  checkpoint_subkeys, leaf_subkeys, viable_key, unknown_below, unknown_leaves, unknown_in,
  unknown_viable, unknown_keys, unsupported_lines, known_lines, check_lines, filtered,
}
use etheorem.Pyspec.ForkChoice.Members.{
  In, append-In, In-left, In-right, filtered-In, In-filtered, sort-mem_text, set-mem_text,
  flat_map-In, In-flat_map, unknown_in-In, In-unknown_in, unknown_viable-In, In-unknown_viable,
  unknown_below-In, In-unknown_below,
}

-- A mapping one level down: its parent's name, the subkeys that are known there, and all its keys.
pub data Part (c : Checks) : Text → List Text → List Text → Type 0 where
  head : (h : Head) → c.head ≡ some h → Part c (codes "head") head_subkeys h.keys
  timeliness :
      (v : Votes)
      → c.timeliness ≡ some v
      → Part c (codes "payload_timeliness_vote") vote_subkeys v.keys
  availability :
      (v : Votes)
      → c.availability ≡ some v
      → Part c (codes "payload_data_availability_vote") vote_subkeys v.keys
  justified :
      (p : Checkpoint)
      → c.justified ≡ some p
      → Part c (codes "justified_checkpoint") checkpoint_subkeys p.keys
  finalized :
      (p : Checkpoint)
      → c.finalized ≡ some p
      → Part c (codes "finalized_checkpoint") checkpoint_subkeys p.keys
  viable :
      (es : List Leaf) (i : ℕ) (e : Leaf)
      → c.viable ≡ some es
      → get_elem? es i ≡ some e
      → Part c viable_key leaf_subkeys e.keys

-- A key that the emitters do not know: one of the entry, or one of a mapping with its parent's name.
pub data Unknown (c : Checks) : Text → Type 0 where
  top : (k : Text) → In k c.keys → mem_text k known_check_keys ≡ false → Unknown c k
  below :
      (parent : Text) (known keys : List Text) (k : Text)
      → Part c parent known keys
      → In k keys
      → mem_text k known ≡ false
      → Unknown c (parent ++ (codes "." ++ k))

of_part :
    (c : Checks) (parent key : Text) (known keys : List Text)
    → Part c parent known keys
    → In key (unknown_below parent known keys)
    → Unknown c key
of_part c parent key known keys p h =
    let (k, same, there, new) = unknown_below-In parent known key keys h in
    subst (Unknown c) (sym same) (below parent known keys k p there new)

of_leaves :
    (c : Checks) (key : Text) (es : List Leaf)
    → c.viable ≡ some es
    → In key (unknown_leaves es)
    → Unknown c key
unfolding unknown_leaves
of_leaves c key es e h =
    let f = λ (l : Leaf). unknown_below viable_key leaf_subkeys l.keys in
    let (i, l, at, there) = flat_map-In f key es (rw (set-mem_text text_leb key _) at h) in
    of_part c viable_key key leaf_subkeys l.keys (viable es i l e at) there

In-leaves :
    (es : List Leaf) (i : ℕ) (e : Leaf) (key : Text)
    → get_elem? es i ≡ some e
    → In key (unknown_below viable_key leaf_subkeys e.keys)
    → In key (unknown_leaves es)
unfolding unknown_leaves
In-leaves es i e key at h =
    let f = λ (l : Leaf). unknown_below viable_key leaf_subkeys l.keys in
    rw (set-mem_text text_leb key _) (In-flat_map f key es i e at h)

-- The parts of `unknown_keys`, and what follows each of them.
module _ (c : Checks) where
  abbrev from_viable : List Text
  from_viable = unknown_viable c.viable

  abbrev of_finalized : List Text
  of_finalized =
      unknown_in (λ p. p.keys) (codes "finalized_checkpoint") checkpoint_subkeys c.finalized

  abbrev from_finalized : List Text
  from_finalized = of_finalized ++ from_viable

  abbrev of_justified : List Text
  of_justified =
      unknown_in (λ p. p.keys) (codes "justified_checkpoint") checkpoint_subkeys c.justified

  abbrev from_justified : List Text
  from_justified = of_justified ++ from_finalized

  abbrev of_availability : List Text
  of_availability =
      unknown_in (λ v. v.keys) (codes "payload_data_availability_vote") vote_subkeys c.availability

  abbrev from_availability : List Text
  from_availability = of_availability ++ from_justified

  abbrev of_timeliness : List Text
  of_timeliness =
      unknown_in (λ v. v.keys) (codes "payload_timeliness_vote") vote_subkeys c.timeliness

  abbrev from_timeliness : List Text
  from_timeliness = of_timeliness ++ from_availability

  abbrev of_head : List Text
  of_head = unknown_in (λ h. h.keys) (codes "head") head_subkeys c.head

  abbrev from_head : List Text
  from_head = of_head ++ from_timeliness

  abbrev of_entry : List Text
  of_entry = filtered known_check_keys c.keys

  from_viable-Unknown : (key : Text) → In key from_viable → Unknown c key
  from_viable-Unknown key h =
      let (es, e, there) = unknown_viable-In key c.viable h in of_leaves c key es e there

  from_finalized-Unknown : (key : Text) → In key from_finalized → Unknown c key
  from_finalized-Unknown key h = elim (append-In key of_finalized from_viable h) [
    | inl a ↦
        let (x, e, there) =
          unknown_in-In (λ p. p.keys) (codes "finalized_checkpoint") checkpoint_subkeys key
            c.finalized a in
        of_part c _ key _ x.keys (finalized x e) there
    | inr b ↦ from_viable-Unknown key b
  ]

  from_justified-Unknown : (key : Text) → In key from_justified → Unknown c key
  from_justified-Unknown key h = elim (append-In key of_justified from_finalized h) [
    | inl a ↦
        let (x, e, there) =
          unknown_in-In (λ p. p.keys) (codes "justified_checkpoint") checkpoint_subkeys key
            c.justified a in
        of_part c _ key _ x.keys (justified x e) there
    | inr b ↦ from_finalized-Unknown key b
  ]

  from_availability-Unknown : (key : Text) → In key from_availability → Unknown c key
  from_availability-Unknown key h = elim (append-In key of_availability from_justified h) [
    | inl a ↦
        let (x, e, there) =
          unknown_in-In (λ v. v.keys) (codes "payload_data_availability_vote") vote_subkeys key
            c.availability a in
        of_part c _ key _ x.keys (availability x e) there
    | inr b ↦ from_justified-Unknown key b
  ]

  from_timeliness-Unknown : (key : Text) → In key from_timeliness → Unknown c key
  from_timeliness-Unknown key h = elim (append-In key of_timeliness from_availability h) [
    | inl a ↦
        let (x, e, there) =
          unknown_in-In (λ v. v.keys) (codes "payload_timeliness_vote") vote_subkeys key
            c.timeliness a in
        of_part c _ key _ x.keys (timeliness x e) there
    | inr b ↦ from_availability-Unknown key b
  ]

  from_head-Unknown : (key : Text) → In key from_head → Unknown c key
  from_head-Unknown key h = elim (append-In key of_head from_timeliness h) [
    | inl a ↦
        let (x, e, there) = unknown_in-In (λ h. h.keys) (codes "head") head_subkeys key c.head a in
        of_part c _ key _ x.keys (head x e) there
    | inr b ↦ from_timeliness-Unknown key b
  ]

  unknown_keys-Unknown : (key : Text) → In key (unknown_keys c) → Unknown c key
  unfolding unknown_keys
  unknown_keys-Unknown key h = elim (append-In key of_entry from_head h) [
    | inl a ↦ let (there, new) = filtered-In known_check_keys key c.keys a in top key there new
    | inr b ↦ from_head-Unknown key b
  ]

  In-Part :
      (parent key : Text) (known keys : List Text)
      → Part c parent known keys
      → In key (unknown_below parent known keys)
      → In key from_head
  In-Part _ key _ _ (head x e) a =
      In-left key of_head from_timeliness
        (In-unknown_in (λ h. h.keys) (codes "head") head_subkeys key c.head x e a)
  In-Part _ key _ _ (timeliness x e) a = In-right key of_head from_timeliness (
      In-left key of_timeliness from_availability (
        In-unknown_in (λ v. v.keys) (codes "payload_timeliness_vote") vote_subkeys key c.timeliness
          x e a))
  In-Part _ key _ _ (availability x e) a = In-right key of_head from_timeliness (
      In-right key of_timeliness from_availability (
        In-left key of_availability from_justified (
          In-unknown_in (λ v. v.keys) (codes "payload_data_availability_vote") vote_subkeys key
            c.availability x e a)))
  In-Part _ key _ _ (justified x e) a = In-right key of_head from_timeliness (
      In-right key of_timeliness from_availability (
        In-right key of_availability from_justified (
          In-left key of_justified from_finalized (
            In-unknown_in (λ p. p.keys) (codes "justified_checkpoint") checkpoint_subkeys key
              c.justified x e a))))
  In-Part _ key _ _ (finalized x e) a = In-right key of_head from_timeliness (
      In-right key of_timeliness from_availability (
        In-right key of_availability from_justified (
          In-right key of_justified from_finalized (
            In-left key of_finalized from_viable (
              In-unknown_in (λ p. p.keys) (codes "finalized_checkpoint") checkpoint_subkeys key
                c.finalized x e a)))))
  In-Part _ key _ _ (viable es i l e at) a = In-right key of_head from_timeliness (
      In-right key of_timeliness from_availability (
        In-right key of_availability from_justified (
          In-right key of_justified from_finalized (
            In-right key of_finalized from_viable
              (In-unknown_viable key c.viable es e (In-leaves es i l key at a))))))

  Unknown-unknown_keys : (key : Text) → Unknown c key → In key (unknown_keys c)
  unfolding unknown_keys
  Unknown-unknown_keys _ (top k there new) =
      In-left k of_entry from_head (In-filtered known_check_keys k c.keys there new)
  Unknown-unknown_keys _ (below parent known keys k p there new) =
      In-right (parent ++ (codes "." ++ k)) of_entry from_head
        (In-Part parent _ known keys p (In-unknown_below parent known k keys there new))

is_empty-sort : (ks : List Text) → is_empty (sort text_leb ks) ≡ is_empty ks
unfolding sort insert_sorted
is_empty-sort [] = refl
is_empty-sort (k ∷ ks) = inserted k (sort text_leb ks)
  where
    inserted : (k : Text) (ks : List Text) → is_empty (insert_sorted text_leb k ks) ≡ false
    inserted k [] = refl
    inserted k (l ∷ ks) = elim (Bool-cases (text_leb k l)) [
      | inl e ↦ rw (e, insert_sorted) refl
      | inr e ↦ rw (e, insert_sorted) refl
    ]

-- The lines of a checks entry are those of its known keys, and behind them, if there is an unknown key,
-- one line more, which is `unsupported` and then certain texts: those, and only those, that are a key of
-- the entry outside the known ones, or a key of a mapping one level down outside the known subkeys of
-- its parent, with the parent's name.
pub check_lines-unknown_keys :
    (c : Checks)
    → (named : List Text) × ((key : Text) → In key named ↔ Unknown c key)
      × (check_lines c
          ≡ known_lines c
            ++ (if is_empty named
                then []
                else words (codes "unsupported" ∷ join (codes "/") named ∷ []) ∷ []))
unfolding check_lines unsupported_lines
check_lines-unknown_keys c =
    let named = sort text_leb (unknown_keys c) in
    (
      named,
      λ key. (
        λ h. unknown_keys-Unknown c key (rw (sort-mem_text text_leb key (unknown_keys c)) at h),
        λ h. rw (sort-mem_text text_leb key (unknown_keys c)) (Unknown-unknown_keys c key h),
      ),
      rw (check_lines, is_empty-sort (unknown_keys c)) refl,
    )
