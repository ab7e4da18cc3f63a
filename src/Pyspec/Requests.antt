-- ===== src/Pyspec/Requests.antt =====
-- The request lines of both harnesses. What YAML gives for a case's small files is a parameter: the
-- record of the entries that are read; so are the files of the case, by their names without the
-- `.ssz_snappy`, in any order. A blob that is decompressed is known by the path it is written to. The
-- exception that a missing entry raises is `raised`. The fork-choice script is left to its own builder,
-- a parameter here.
pub mod Laws
use mathlib.Core.Option
use etheorem.Common.{
  ℕ, zero, suc, ◌+◌, ◌-◌, ◌/◌, ◌%◌, Bool, true, false, not, ◌&&◌, ◌||◌, Option, none, some, List,
  [], ◌∷◌, ◌++◌, map, Text, codes, text_eq, mem_text, starts_with, ends_with, split_on, join,
  is_empty, length, get_or, get_elem?, keep, leb, ◌==◌, if◌then◌else◌,
}
use etheorem.Common.Outcome.{Outcome, passed, raised, of_option, ◌>>=◌, ◌>>◌}
use etheorem.Common.Unicode.{Unicode, to_upper}
use etheorem.Common.Assoc.{assign}
use etheorem.Common.Bytes.{to_bytes_big}
use etheorem.Common.Strings.Order.{sort, text_leb}
use etheorem.Common.Strings.Digits.{decimal, read_digits}
use etheorem.Pyspec.Walk.{Case}
use etheorem.Pyspec.Walk.Generic.{GenericCase}

-- The entries of meta.yaml that are read.
pub record Meta : Type 0 where
  pub bls_setting : Option ℕ
  pub blocks_count : Option ℕ
  pub fork_epoch : Option ℕ
  pub fork_block : Option ℕ
  pub parent_slot : Option ℕ
  pub post_fork : Option Text

-- The files of a case: meta.yaml and config.yaml as they are parsed, the blobs, the slot count of
-- slots.yaml, the answer of execution.yaml, and the root of roots.yaml.
pub record CaseFiles : Type 0 where
  pub meta_ : Meta
  pub config : List (Text × ℕ)
  pub blobs : List Text
  pub slots : Option ℕ
  pub execution_valid : Option Bool
  pub root : Option Text

abbrev pub or_default {ℓ} : {A : Type ℓ} → A → Option A → A
or_default a none = a
or_default a (some b) = b

abbrev pub or_dash : Option ℕ → Text
or_dash none = codes "-"
or_dash (some n) = decimal n

-- The fork epochs of config.yaml.
unfoldable pub epochs : List (Text × ℕ) → List (Text × ℕ) → List (Text × ℕ)
unfolding ends_with assign
epochs [] out = out
epochs ((key, value) ∷ items) out =
    epochs items (if ends_with key (codes "_FORK_EPOCH") then assign key value out else out)

-- The override of a transition, from meta.yaml.
unfoldable pub transition_override : Unicode → Text → Meta → List (Text × ℕ) → List (Text × ℕ)
unfolding text_eq to_upper assign
transition_override u runner m out =
    if text_eq runner (codes "transition")
    then elim m.fork_epoch [
      | none ↦ out
      | some epoch ↦ elim m.post_fork [
        | none ↦ out
        | some fork ↦ assign (to_upper u fork ++ codes "_FORK_EPOCH") epoch out
      ]
    ]
    else out

unfoldable pub config_overrides : Unicode → Text → CaseFiles → Text
unfolding epochs transition_override join sort text_leb decimal
config_overrides u runner files =
    let overrides = transition_override u runner files.meta_ (epochs files.config []) in
    if is_empty overrides
    then codes "cfg=-"
    else codes "cfg="
      ++ join (codes ",")
          (map (λ p. p.0 ++ (codes ":" ++ decimal p.1)) (sort (λ p q. text_leb p.0 q.0) overrides))

-- `_decompress_to`: the path of the blob's copy.
abbrev pub decompressed : Text → Text → Text
decompressed tmpdir stem = tmpdir ++ (codes "/" ++ (stem ++ codes ".ssz"))

-- `int(p.stem.split("_")[1].split(".")[0])`, on digits.
unfoldable pub block_number : Text → Option ℕ
unfolding split_on read_digits
block_number stem = elim (get_elem? (split_on b'_' stem) 1) [
  | none ↦ none
  | some part ↦
      let digits = get_or (split_on b'.' part) 0 [] in
      if is_empty digits then none else read_digits 0 digits
]

-- The blocks with their numbers.
unfoldable pub numbered : List Text → Option (List (ℕ × Text))
unfolding block_number
numbered [] = some []
numbered (stem ∷ stems) = elim (block_number stem) [
  | none ↦ none
  | some n ↦ elim (numbered stems) [ none ↦ none | some rest ↦ some ((n, stem) ∷ rest) ]
]

-- `glob("blocks_*.ssz_snappy")`
abbrev pub is_block : Text → Bool
is_block stem = starts_with stem (codes "blocks_")

-- The blocks in the order of their numbers.
unfoldable pub sorted_blocks : List Text → Option (List (ℕ × Text))
unfolding numbered starts_with sort
sorted_blocks blobs = elim (numbered (keep is_block blobs)) [
  | none ↦ none
  | some blocks ↦ some (sort (λ p q. leb p.0 q.0) blocks)
]

-- The operand of an operation: every blob but the states and the blocks, sorted by file name.
unfoldable pub operands : List Text → List Text
unfolding text_eq starts_with sort text_leb
operands blobs =
    sort (λ p q. text_leb (p ++ codes ".ssz_snappy") (q ++ codes ".ssz_snappy"))
      (keep
        (λ stem. not (text_eq stem (codes "pre") || (text_eq stem (codes "post") || is_block stem)))
        blobs)

abbrev pub delta_names : List Text
delta_names =
    codes "source_deltas"
    ∷ codes "target_deltas"
    ∷ codes "head_deltas"
    ∷ codes "inactivity_penalty_deltas"
    ∷ []

-- `n.bit_length()`; fuel `n` is enough, since each round halves.
unfoldable pub bit_length : ℕ → ℕ → ℕ
bit_length zero n = 0
bit_length (suc fuel) n = let rest = bit_length fuel (n / 2) in if n == 0 then 0 else suc rest

-- The bytes of the slot count's file.
unfoldable pub slots_bytes : ℕ → Option (List ℕ)
unfolding bit_length to_bytes_big
slots_bytes n =
    let width = (bit_length n n + 7) / 8 in to_bytes_big (if width == 0 then 1 else width) n

-- The inputs behind the blocks.
unfoldable pub other_inputs : Case → CaseFiles → Text → List Text
unfolding text_eq operands mem_text
other_inputs c files tmpdir =
    (if text_eq c.runner (codes "operations")
      then map (decompressed tmpdir) (operands files.blobs)
      else [])
    ++ ((if text_eq c.runner (codes "sanity") && text_eq c.handler (codes "slots")
          then (elim files.slots [ none ↦ [] | some n ↦ (tmpdir ++ codes "/slots_count.bin") ∷ [] ])
          else [])
        ++ (if text_eq c.runner (codes "rewards")
            then map (decompressed tmpdir) (keep (λ name. mem_text name files.blobs) delta_names)
            else []))

abbrev pub blob_or_dash : CaseFiles → Text → Text → Text
blob_or_dash files tmpdir stem =
    if mem_text stem files.blobs then decompressed tmpdir stem else codes "-"

-- `execution_valid`
unfoldable pub execution_flag : Case → CaseFiles → ℕ
unfolding text_eq
execution_flag c files =
    if text_eq c.runner (codes "operations") && text_eq c.handler (codes "execution_payload")
    then (elim files.execution_valid [ none ↦ 1 | some b ↦ if b then 1 else 0 ])
    else 1

-- The fields of a request that is neither fork choice nor static, for the blocks found.
unfoldable pub case_fields : Unicode → Case → CaseFiles → Text → List (ℕ × Text) → List Text
unfolding mem_text decimal join other_inputs execution_flag config_overrides
case_fields u c files tmpdir blocks =
    let m = files.meta_ in
    let inputs = map (λ b. decompressed tmpdir b.1) blocks ++ other_inputs c files tmpdir in
    c.runner
    ∷ c.handler
    ∷ blob_or_dash files tmpdir (codes "pre")
    ∷ blob_or_dash files tmpdir (codes "post")
    ∷ decimal (or_default 1 m.bls_setting)
    ∷ decimal (or_default (length blocks) m.blocks_count)
    ∷ or_dash m.fork_epoch
    ∷ join (codes ",") inputs
    ∷ or_dash m.fork_block
    ∷ decimal (execution_flag c files)
    ∷ or_dash m.parent_slot
    ∷ config_overrides u c.runner files
    ∷ []

-- `_build_ssz_static_request`
unfoldable pub static_fields : Unicode → Case → CaseFiles → Text → Option (List Text)
unfolding config_overrides
static_fields u c files tmpdir = elim files.root [
  | none ↦ none
  | some root ↦ some (
      codes "ssz_static"
      ∷ c.handler
      ∷ decompressed tmpdir (codes "serialized")
      ∷ root
      ∷ config_overrides u c.runner files
      ∷ [])
]

abbrev pub tabbed : Option (List Text) → Outcome Text
tabbed none = raised
tabbed (some fields) = passed (join (9 ∷ []) fields)

-- `build_request` of packages/EthCLSpecs/PySpecTests/harness.py.
unfoldable pub build_request :
    Unicode → (Case → Text → Outcome Text) → Case → CaseFiles → Text → Outcome Text
unfolding text_eq join static_fields sorted_blocks case_fields
build_request u fork_choice c files tmpdir =
    if text_eq c.runner (codes "fork_choice")
    then fork_choice c tmpdir
    else if text_eq c.runner (codes "ssz_static")
    then tabbed (static_fields u c files tmpdir)
    else tabbed (Option.map (case_fields u c files tmpdir) (sorted_blocks files.blobs))

-- `build_request` of packages/SizzLean/PySpecTests/harness.py, with the root of meta.yaml if it has one.
unfoldable pub generic_request : GenericCase → Option Text → Text → Outcome Text
unfolding text_eq join
generic_request c root tmpdir = elim c.shape [
  | none ↦ raised
  | some shape ↦
      let serialized = decompressed tmpdir (codes "serialized") in
      if text_eq c.kind (codes "valid")
      then tabbed
          (elim root [ none ↦ none | some r ↦ some (codes "check" ∷ shape ∷ serialized ∷ r ∷ []) ])
      else passed (join (9 ∷ []) (codes "invalid" ∷ shape ∷ serialized ∷ []))
]
