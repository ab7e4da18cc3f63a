-- ===== src/Pyspec/ForkChoice.antt =====
-- `_build_fork_choice_request` of packages/EthCLSpecs/PySpecTests/harness.py: the script's lines from
-- the entries of steps.yaml, which a parameter gives as parsed. A step is what its first key that the
-- source asks for makes it. A mapping of the checks is a record of all of its keys, in their order, and
-- of the values of those that the emitters read.
pub mod Laws
pub mod Members
use mathlib.Core.Option
use etheorem.Common.{
  ℕ, zero, suc, ◌+◌, Bool, true, false, not, ◌&&◌, ◌||◌, Option, none, some, List, [], ◌∷◌, ◌++◌,
  map, Text, codes, text_eq, mem_text, join, is_empty, keep, if◌then◌else◌,
}
use mathlib.Core.List.{flat_map}
use etheorem.Common.Strings.Order.{sort, text_leb}
use etheorem.Common.Strings.Digits.{decimal}
use etheorem.Common.Unicode.{Unicode}
use etheorem.Pyspec.Walk.{Case}
use etheorem.Pyspec.Requests.{CaseFiles, decompressed, config_overrides}

-- `checks.head`
pub record Head : Type 0 where
  pub root : Text
  pub slot : ℕ
  pub payload_status : Option ℕ
  pub keys : List Text

-- A vote is yes, no or missing.
pub record Votes : Type 0 where
  pub block_root : Text
  pub votes : List (Option Bool)
  pub keys : List Text

pub record Checkpoint : Type 0 where
  pub epoch : ℕ
  pub root : Text
  pub keys : List Text

pub record Leaf : Type 0 where
  pub root : Text
  pub weight : ℕ
  pub payload_status : Option ℕ
  pub keys : List Text

-- The entry `checks`.
pub record Checks : Type 0 where
  pub proposer_head : Option Text
  pub override_update : Bool
  pub head : Option Head
  pub timeliness : Option Votes
  pub availability : Option Votes
  pub justified : Option Checkpoint
  pub finalized : Option Checkpoint
  pub boost : Option Text
  pub time : Option ℕ
  pub genesis_time : Option ℕ
  pub viable : Option (List Leaf)
  pub keys : List Text

-- A step; the flag is `valid`, which is true by default.
pub data Step : Type 0 where
  tick : ℕ → Step
  block : Text → Bool → List Text → Step
  attestation : Text → Bool → Step
  attester_slashing : Text → Bool → Step
  execution_payload : Text → Bool → Step
  payload_attestation_message : Text → Bool → Step
  checks : Checks → Step
  other_step : List Text → Step

abbrev pub words : List Text → Text
words ws = join (codes " ") ws

abbrev pub flag : Bool → Text
flag b = if b then codes "1" else codes "0"

abbrev pub vote_text : Option Bool → Text
vote_text none = codes "n"
vote_text (some b) = if b then codes "t" else codes "f"

abbrev pub status_text : Option ℕ → Text
status_text none = codes "-"
status_text (some n) = decimal n

-- The lines of a key that a check has.
abbrev pub when_some {ℓ} : {A : Type ℓ} → Option A → (A → List Text) → List Text
when_some none f = []
when_some (some a) f = f a

unfoldable pub head_lines : Head → List Text
unfolding join decimal
head_lines h =
    words (codes "head" ∷ h.root ∷ decimal h.slot ∷ [])
    ∷ when_some h.payload_status (λ n. words (codes "head_payload_status" ∷ decimal n ∷ []) ∷ [])

unfoldable pub vote_line : Text → Votes → Text
unfolding join
vote_line word v = words (word ∷ v.block_root ∷ join (codes ",") (map vote_text v.votes) ∷ [])

unfoldable pub checkpoint_line : Text → Checkpoint → Text
unfolding join decimal
checkpoint_line word c = words (word ∷ decimal c.epoch ∷ c.root ∷ [])

unfoldable pub leaf_token : Leaf → Text
unfolding join decimal
leaf_token e = join (codes ":") (e.root ∷ decimal e.weight ∷ status_text e.payload_status ∷ [])

-- A parent's name in front of its unknown subkeys.
abbrev pub below_key : Text → List Text → List Text
below_key parent keys = map (λ k. parent ++ (codes "." ++ k)) keys

-- The elements of a list, each once: `set`.
unfoldable pub once : List Text → List Text
unfolding mem_text
once [] = []
once (a ∷ rest) = let others = once rest in if mem_text a others then others else a ∷ others

-- `KNOWN_CHECK_KEYS`, and `KNOWN_CHECK_SUBKEYS` by parent.
abbrev pub known_check_keys : List Text
known_check_keys =
    codes "get_proposer_head"
    ∷ codes "should_override_forkchoice_update"
    ∷ codes "head"
    ∷ codes "payload_timeliness_vote"
    ∷ codes "payload_data_availability_vote"
    ∷ codes "justified_checkpoint"
    ∷ codes "finalized_checkpoint"
    ∷ codes "proposer_boost_root"
    ∷ codes "time"
    ∷ codes "genesis_time"
    ∷ codes "viable_for_head_roots_and_weights"
    ∷ []

abbrev pub head_subkeys : List Text
head_subkeys = codes "root" ∷ codes "slot" ∷ codes "payload_status" ∷ []

abbrev pub vote_subkeys : List Text
vote_subkeys = codes "block_root" ∷ codes "votes" ∷ []

abbrev pub checkpoint_subkeys : List Text
checkpoint_subkeys = codes "epoch" ∷ codes "root" ∷ []

abbrev pub leaf_subkeys : List Text
leaf_subkeys = codes "root" ∷ codes "weight" ∷ codes "payload_status" ∷ []

-- `[k for k in keys if k not in known]`
unfoldable pub filtered : List Text → List Text → List Text
unfolding mem_text
filtered known keys = keep (λ k. not (mem_text k known)) keys

-- The unknown subkeys of a mapping, with its parent's name.
unfoldable pub unknown_below : Text → List Text → List Text → List Text
unfolding filtered
unknown_below parent known keys = below_key parent (filtered known keys)

abbrev pub viable_key : Text
viable_key = codes "viable_for_head_roots_and_weights"

-- Those of a list of mappings: a sorted set.
unfoldable pub unknown_leaves : List Leaf → List Text
unfolding sort text_leb once flat_map unknown_below
unknown_leaves es =
    sort text_leb (once (flat_map (λ e. unknown_below viable_key leaf_subkeys e.keys) es))

-- Those of a mapping that the entry may have, and of its list of mappings.
unfoldable pub unknown_in : {A : Type 0} → (A → List Text) → Text → List Text → Option A → List Text
unfolding unknown_below
unknown_in keys_of parent known none = []
unknown_in keys_of parent known (some a) = unknown_below parent known (keys_of a)

unfoldable pub unknown_viable : Option (List Leaf) → List Text
unfolding unknown_leaves
unknown_viable none = []
unknown_viable (some es) = unknown_leaves es

-- The keys that no emitter reads: those of the entry, and one level down.
unfoldable pub unknown_keys : Checks → List Text
unfolding filtered unknown_in unknown_viable
unknown_keys c =
    filtered known_check_keys c.keys
    ++ (unknown_in (λ h. h.keys) (codes "head") head_subkeys c.head
        ++ (unknown_in (λ v. v.keys) (codes "payload_timeliness_vote") vote_subkeys c.timeliness
            ++ (unknown_in (λ v. v.keys) (codes "payload_data_availability_vote") vote_subkeys
                  c.availability
                ++ (unknown_in (λ p. p.keys) (codes "justified_checkpoint") checkpoint_subkeys
                      c.justified
                    ++ (unknown_in (λ p. p.keys) (codes "finalized_checkpoint") checkpoint_subkeys
                          c.finalized
                        ++ unknown_viable c.viable)))))

-- `unsupported <keys>`, or nothing where there is none.
unfoldable pub unsupported_lines : List Text → List Text
unfolding join sort text_leb
unsupported_lines keys =
    if is_empty keys
    then []
    else words (codes "unsupported" ∷ join (codes "/") (sort text_leb keys) ∷ []) ∷ []

-- The lines of the known keys, in the order of the emitter chain.
unfoldable pub known_lines : Checks → List Text
unfolding join decimal head_lines vote_line checkpoint_line leaf_token
known_lines c =
    when_some c.proposer_head (λ r. words (codes "get_proposer_head" ∷ r ∷ []) ∷ [])
    ++ ((if c.override_update
          then codes "unsupported should_override_forkchoice_update" ∷ []
          else [])
        ++ (when_some c.head head_lines
            ++ (when_some c.timeliness (λ v. vote_line (codes "payload_timeliness_vote") v ∷ [])
                ++ (when_some c.availability
                      (λ v. vote_line (codes "payload_data_availability_vote") v ∷ [])
                    ++ (when_some c.justified (λ p. checkpoint_line (codes "justified") p ∷ [])
                        ++ (when_some c.finalized (λ p. checkpoint_line (codes "finalized") p ∷ [])
                            ++ (when_some c.boost (λ r. words (codes "boost" ∷ r ∷ []) ∷ [])
                                ++ (when_some c.time
                                      (λ n. words (codes "time" ∷ decimal n ∷ []) ∷ [])
                                    ++ (when_some c.genesis_time
                                          (λ n. words (codes "genesis_time" ∷ decimal n ∷ []) ∷ [])
                                        ++ when_some c.viable (λ es.
                                          words (
                                            codes "viable_for_head"
                                            ∷ join (codes ",") (map leaf_token es)
                                            ∷ [])
                                          ∷ []))))))))))

unfoldable pub check_lines : Checks → List Text
unfolding known_lines unknown_keys unsupported_lines
check_lines c = known_lines c ++ unsupported_lines (unknown_keys c)

-- A step with one blob and the flag.
unfoldable pub blob_line : Text → Text → Text → Bool → Text
unfolding join
blob_line tmpdir word name valid = words (word ∷ decompressed tmpdir name ∷ flag valid ∷ [])

-- The body of the loop over the steps.
unfoldable pub step_lines : Text → Step → List Text
unfolding join decimal blob_line check_lines sort text_leb text_eq
step_lines tmpdir (tick n) = words (codes "tick" ∷ decimal n ∷ []) ∷ []
step_lines tmpdir (block name valid columns) =
    let cols = join (codes ",") (map (decompressed tmpdir) columns) in
    words (
      codes "block"
      ∷ decompressed tmpdir name
      ∷ flag valid
      ∷ (if is_empty columns then codes "-" else cols)
      ∷ [])
    ∷ []
step_lines tmpdir (attestation name valid) = blob_line tmpdir (codes "attestation") name valid ∷ []
step_lines tmpdir (attester_slashing name valid) =
    blob_line tmpdir (codes "attester_slashing") name valid ∷ []
step_lines tmpdir (execution_payload name valid) =
    blob_line tmpdir (codes "execution_payload") name valid ∷ []
step_lines tmpdir (payload_attestation_message name valid) =
    blob_line tmpdir (codes "payload_attestation_message") name valid ∷ []
step_lines tmpdir (checks c) = check_lines c
step_lines tmpdir (other_step keys) =
    let left = keep (λ k. not (text_eq k (codes "valid") || text_eq k (codes "columns"))) keys in
    let named = join (codes "/") (sort text_leb left) in
    words (codes "unsupported" ∷ (if is_empty named then codes "unknown-step" else named) ∷ []) ∷ []

-- The script that is written.
unfoldable pub script : Text → List Step → Text
unfolding join step_lines flat_map
script tmpdir steps = join (10 ∷ []) (flat_map (step_lines tmpdir) steps)

-- The request line, with the path of the script.
unfoldable pub fork_choice_request : Unicode → Case → CaseFiles → Text → Text
unfolding join config_overrides
fork_choice_request u c files tmpdir = join (9 ∷ []) (
    codes "fork_choice"
    ∷ c.handler
    ∷ decompressed tmpdir (codes "anchor_state")
    ∷ codes "-"
    ∷ codes "1"
    ∷ codes "0"
    ∷ codes "-"
    ∷ (decompressed tmpdir (codes "anchor_block")
        ++ (codes "," ++ (tmpdir ++ codes "/fc_script.txt")))
    ∷ config_overrides u c.runner files
    ∷ [])
