-- ===== src/Pyspec/Requests/Laws.antt =====
-- What the request lines of the pyspec harness carry.
use etheorem.Common.{
  ℕ, ◌≡◌, inl, inr, refl, Bool, true, false, Option, none, some, List, [], ◌∷◌, ◌++◌, Text, codes,
  All, is_empty, split_on, join, leb, text_eq, mem_text, length, get_elem?, get_or, map, Bool-cases,
  arith,
}
use etheorem.Common.Strings.{Lacks, split_on-join}
use etheorem.Common.Strings.Digits.{decimal}
use etheorem.Common.Outcome.{Outcome, passed}
use etheorem.Common.Unicode.{Unicode}
use etheorem.Pyspec.Walk.{Case}
use etheorem.Pyspec.Requests.{
  CaseFiles, sorted_blocks, case_fields, build_request, or_default, or_dash, blob_or_dash,
  other_inputs, execution_flag, config_overrides,
}

abbrev by_number : ℕ × Text → ℕ × Text → Bool
by_number p q = leb p.0 q.0

split_on-fields :
    (ws : List Text) → is_empty ws ≡ false → All (Lacks 9) ws → split_on 9 (join (9 ∷ []) ws) ≡ ws
split_on-fields [] h k = cc
split_on-fields (w ∷ ws) h k = split_on-join 9 w ws k

Lacks-append : (c : ℕ) (s t : Text) → Lacks c s → Lacks c t → Lacks c (s ++ t)
Lacks-append c [] t h k = k
Lacks-append c (d ∷ s) t h k = (h.0, Lacks-append c s t h.1 k)

Lacks-join :
    (c : ℕ) (sep : Text) (ws : List Text) → Lacks c sep → All (Lacks c) ws → Lacks c (join sep ws)
unfolding join
Lacks-join c sep [] h k = tt
Lacks-join c sep (w ∷ []) h k = k.0
Lacks-join c sep (w ∷ v ∷ ws) h k =
    Lacks-append c w _ k.0 (Lacks-append c sep _ h (Lacks-join c sep (v ∷ ws) h k.1))

-- What a number of meta.yaml is written as, with a dash for one that is missing.
data IsDashed : Option ℕ → Text → Type 0 where
  dash : IsDashed none (codes "-")
  number : (n : ℕ) → IsDashed (some n) (decimal n)

-- A state of the case: the path of its copy, or a dash where the case has no such blob.
data IsState (blobs : List Text) (tmpdir stem : Text) : Text → Type 0 where
  copied :
      mem_text stem blobs ≡ true
      → IsState blobs tmpdir stem (tmpdir ++ (codes "/" ++ (stem ++ codes ".ssz")))
  absent : mem_text stem blobs ≡ false → IsState blobs tmpdir stem (codes "-")

-- The fields of a request by their places.
pub record Carries (u : Unicode) (c : Case) (files : CaseFiles) (tmpdir : Text)
    (bs : List (ℕ × Text)) (fields : List Text) : Type 0 where
  size : length fields ≡ 12
  runner : get_elem? fields 0 ≡ some c.runner
  handler : get_elem? fields 1 ≡ some c.handler
  pre : IsState files.blobs tmpdir (codes "pre") (get_or fields 2 [])
  post : IsState files.blobs tmpdir (codes "post") (get_or fields 3 [])
  bls_setting : get_elem? fields 4 ≡ some (decimal (or_default 1 files.meta_.bls_setting))
  blocks_count :
      get_elem? fields 5 ≡ some (decimal (or_default (length bs) files.meta_.blocks_count))
  fork_epoch : IsDashed files.meta_.fork_epoch (get_or fields 6 [])
  inputs :
      get_elem? fields 7
      ≡ some (
          join (codes ",") (
            map (λ b. tmpdir ++ (codes "/" ++ (b.1 ++ codes ".ssz"))) bs
            ++ other_inputs c files tmpdir))
  fork_block : IsDashed files.meta_.fork_block (get_or fields 8 [])
  execution_valid : get_elem? fields 9 ≡ some (decimal (execution_flag c files))
  parent_slot : IsDashed files.meta_.parent_slot (get_or fields 10 [])
  overrides : get_elem? fields 11 ≡ some (config_overrides u c.runner files)

or_dash-IsDashed : (o : Option ℕ) → IsDashed o (or_dash o)
or_dash-IsDashed none = dash
or_dash-IsDashed (some n) = number n

blob_or_dash-IsState :
    (files : CaseFiles) (tmpdir stem : Text)
    → IsState files.blobs tmpdir stem (blob_or_dash files tmpdir stem)
blob_or_dash-IsState files tmpdir stem = elim (Bool-cases (mem_text stem files.blobs)) [
  | inl e ↦ rw e (copied e)
  | inr e ↦ rw e (absent e)
]

case_fields-Carries :
    (u : Unicode) (c : Case) (files : CaseFiles) (tmpdir : Text) (bs : List (ℕ × Text))
    → Carries u c files tmpdir bs (case_fields u c files tmpdir bs)
unfolding case_fields
case_fields-Carries u c files tmpdir bs = record {
  size = refl;
  runner = refl;
  handler = refl;
  pre = blob_or_dash-IsState files tmpdir (codes "pre");
  post = blob_or_dash-IsState files tmpdir (codes "post");
  bls_setting = refl;
  blocks_count = refl;
  fork_epoch = or_dash-IsDashed files.meta_.fork_epoch;
  inputs = refl;
  fork_block = or_dash-IsDashed files.meta_.fork_block;
  execution_valid = refl;
  parent_slot = or_dash-IsDashed files.meta_.parent_slot;
  overrides = refl;
}

-- A request that is neither for fork choice nor static, for a case whose blocks are numbered, is one
-- line if no field of it has a tab or a line feed, and splits at the tabs into twelve fields: the runner
-- and the handler, the copies of the states `pre` and `post`, the BLS setting (1 if missing), the number
-- of blocks (those found, if missing), the fork's epoch, the blocks and then the other inputs, the fork's
-- block, the flag of execution, the parent's slot, and the overrides.
pub build_request-fields :
    (u : Unicode) (fork_choice : Case → Text → Outcome Text) (c : Case) (files : CaseFiles)
    (tmpdir : Text) (bs : List (ℕ × Text))
    → text_eq c.runner (codes "fork_choice") ≡ false
    → text_eq c.runner (codes "ssz_static") ≡ false
    → sorted_blocks files.blobs ≡ some bs
    → All (Lacks 9) (case_fields u c files tmpdir bs)
    → All (Lacks 10) (case_fields u c files tmpdir bs)
    → (line : Text) × (build_request u fork_choice c files tmpdir ≡ passed line)
      × Lacks 10 line
      × Carries u c files tmpdir bs (split_on 9 line)
unfolding build_request case_fields
build_request-fields u fork_choice c files tmpdir bs not_choice not_static blocks plain one =
    let fields = case_fields u c files tmpdir bs in
    (
      join (9 ∷ []) fields,
      rw (not_choice, not_static, blocks) refl,
      Lacks-join 10 (9 ∷ []) fields ((λ e. omega arith), tt) one,
      rw (split_on-fields fields (filled u c files tmpdir bs) plain)
          (case_fields-Carries u c files tmpdir bs),
    )
  where
    filled :
        (u : Unicode) (c : Case) (files : CaseFiles) (tmpdir : Text) (bs : List (ℕ × Text))
        → is_empty (case_fields u c files tmpdir bs) ≡ false
    filled u c files tmpdir bs = refl
