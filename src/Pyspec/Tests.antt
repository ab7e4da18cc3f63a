-- ===== src/Pyspec/Tests.antt =====
-- The pyspec harnesses on small cases.
use etheorem.Common.{
  ℕ, zero, suc, ◌≡◌, ◌↔◌, ◌⊎◌, inr, refl, is_empty, Bool, true, false, not, none, some, List, [],
  ◌∷◌, ◌++◌, Text, codes, text_eq, take, split_on, All, all, ◌==◌, join, if◌then◌else◌, arith,
}
use mathlib.Core.List.{flat_map}
use etheorem.Pyspec.ForkChoice.{
  Checks, tick, block, checks, other_step, words, known_lines, check_lines, script,
}
use etheorem.Pyspec.ForkChoice.Laws.{Unknown, check_lines-unknown_keys}
use etheorem.Pyspec.ForkChoice.Members.{In}
use etheorem.Common.Strings.{Lacks}
use etheorem.Common.Outcome.{passed, raised}
use etheorem.Common.Unicode.{ascii_only}
use etheorem.Common.Action.{◌>>=◌}
use etheorem.Pyspec.Archive.{
  Cache, State, ensure_archive, on_cache, fill, extract_dir, fetch_if_missing, fetch,
  ensure_archive_again,
}
use etheorem.Pyspec.Client.{
  Result, parse_line, bug, Machine, Client, failed, returned, spawn, attempt, submit,
}
use etheorem.Pyspec.Client.Laws.{quits, Replies, Said, submit-Replies, submit-bug, submit-Said}
use etheorem.Pyspec.Client.Lines.{fields, parse_line-fields}
use etheorem.Pyspec.Walk.{Dirs, Case, runner_key, candidates, walk_cases}
use etheorem.Pyspec.Walk.Shapes.{shape_spec_for_generic}
use etheorem.Pyspec.Walk.Generic.{GenericCase, kind_key, emit}
use etheorem.Pyspec.Walk.Laws.{having, walk_cases-having, dedup, emit-dedup}
use etheorem.Pyspec.Walk.{capped}
use etheorem.Pyspec.Requests.{
  CaseFiles, config_overrides, sorted_blocks, case_fields, build_request, slots_bytes,
}
use etheorem.Pyspec.Requests.Laws.{Carries, build_request-fields}

-- A process is the lines that it still sends; one with no line left closes its output. The first
-- process that is started says nothing, and the second one answers behind a line of noise.
abbrev good_line : Text
good_line = codes "pass\tok\tfine\n"

abbrev machine : Machine (List Text)
machine = record {
  exited = λ p. false;
  write = λ p request. some p;
  read = λ p. elim p [ [] ↦ none | line ∷ lines ↦ some (line, lines) ];
  popen = λ n. elim n [ zero ↦ some [] | suc k ↦ some (codes "trace: x\n" ∷ good_line ∷ []) ];
}

abbrev good : Result
good = record { passed = true; bucket = codes "ok"; detail = codes "fine" }

abbrev fresh : Client (List Text)
fresh = record { proc = some []; spawned = 1 }

abbrev second : Client (List Text)
second = record { proc = some (codes "trace: x\n" ∷ good_line ∷ []); spawned = 2 }

second_answers :
    submit machine 5 (codes "check") fresh ≡ returned good (record { proc = some []; spawned = 2 })
unfolding submit parse_line
second_answers = refl

submit-Replies_example :
    (Replies machine 1 (codes "check") fresh good []
      → submit machine 5 (codes "check") fresh
        ≡ returned good (record { proc = some []; spawned = 1 }))
    × ((d e : Client (List Text))
        → attempt machine 5 (codes "check") fresh ≡ failed d
        → spawn machine d ≡ (true, e)
        → Replies machine 1 (codes "check") e good []
        → submit machine 5 (codes "check") fresh
          ≡ returned good (record { proc = some []; spawned = e.spawned }))
submit-Replies_example = submit-Replies machine 1 5 (codes "check") fresh good [] (omega arith)

-- A machine whose processes all close their output at once.
abbrev mute : Machine (List Text)
mute = record {
  exited = λ p. false;
  write = λ p request. some p;
  read = λ p. none;
  popen = λ n. some [];
}

submit-bug_example :
    submit mute 5 (codes "check") fresh ≡ returned bug (record { proc = some []; spawned = 3 })
submit-bug_example =
    submit-bug mute 5 (codes "check") fresh (λ p h. inr (inr (p, refl, quits refl)))
      (λ k. ([], refl, refl, inr ([], refl, quits refl)))

submit-Said_example :
    (good ≡ bug) ⊎ Said machine (codes "check") good (record { proc = some []; spawned = 2 })
unfolding submit parse_line
submit-Said_example =
    submit-Said machine 5 (codes "check") fresh good (record { proc = some []; spawned = 2 }) refl

parse_line-fields_example : parse_line (join (9 ∷ []) (fields good) ++ 10 ∷ []) ≡ some good
parse_line-fields_example =
    parse_line-fields good
      ((λ e. omega arith, (λ e. omega arith, tt)), (λ e. omega arith, (λ e. omega arith, tt)))
      (
        (λ e. omega arith, (λ e. omega arith, (λ e. omega arith, (λ e. omega arith, tt)))),
        (λ e. omega arith, (λ e. omega arith, (λ e. omega arith, (λ e. omega arith, tt)))),
      )

shapes :
    (shape_spec_for_generic ascii_only (codes "uints") (codes "uint_64_max")
      ≡ some (codes "uint_64"))
    × (shape_spec_for_generic ascii_only (codes "basic_vector") (codes "vec_uint8_4_nil")
        ≡ some (codes "vec_uint8_4"))
    × (shape_spec_for_generic ascii_only (codes "bitlist") (codes "bitlist_no_delimiter_x")
        ≡ some (codes "bitlist_256"))
    × (shape_spec_for_generic ascii_only (codes "containers") (codes "CompatibleUnionA") ≡ none)
unfolding shape_spec_for_generic
shapes = (refl, refl, refl, refl)

-- A tree with one runner in scope, one handler, one suite and three cases.
abbrev tree : Dirs
tree p =
    if text_eq p (codes "r/tests/minimal/fulu")
    then some (codes "kzg" ∷ codes "sanity" ∷ codes "fork" ∷ [])
    else if text_eq p (codes "r/tests/minimal/fulu/sanity")
    then some (codes "slots" ∷ [])
    else if text_eq p (codes "r/tests/minimal/fulu/sanity/slots")
    then some (codes "s" ∷ [])
    else if text_eq p (codes "r/tests/minimal/fulu/sanity/slots/s")
    then some (codes "b" ∷ codes "c" ∷ codes "a" ∷ [])
    else none

abbrev small_case : Text → Case
small_case name = record {
  preset = codes "minimal";
  fork = codes "fulu";
  runner = codes "sanity";
  handler = codes "slots";
  suite = codes "s";
  name = name;
  path = codes "r/tests/minimal/fulu/sanity/slots/s/" ++ name;
}

walked :
    walk_cases tree (codes "minimal") (codes "fulu") (codes "r") (some 2)
    ≡ small_case (codes "a") ∷ small_case (codes "b") ∷ []
unfolding walk_cases
walked = refl

walk_cases-having_example :
    (walk_cases tree (codes "minimal") (codes "fulu") (codes "r") none
      ≡ candidates tree (codes "minimal") (codes "fulu") (codes "r"))
    × (having runner_key
          (codes "sanity", codes "slots")
          (walk_cases tree (codes "minimal") (codes "fulu") (codes "r") (some 2))
        ≡ take 2 (
            having runner_key
              (codes "sanity", codes "slots")
              (candidates tree (codes "minimal") (codes "fulu") (codes "r"))))
walk_cases-having_example =
    walk_cases-having tree (codes "minimal") (codes "fulu") (codes "r") 2
      (codes "sanity", codes "slots")

abbrev generic_case : Text → Text → GenericCase
generic_case fork name = record {
  fork = fork;
  handler = codes "uints";
  kind = codes "valid";
  case_name = name;
  shape = none;
  path = name;
}

abbrev doubled : List GenericCase
doubled =
    generic_case (codes "altair") (codes "x")
    ∷ generic_case (codes "phase0") (codes "x")
    ∷ generic_case (codes "phase0") (codes "y")
    ∷ []

emit-dedup_example : emit (some 1) [] [] doubled ≡ capped kind_key (some 1) [] (dedup [] doubled)
emit-dedup_example = emit-dedup (some 1) [] [] doubled

emitted_once :
    emit none [] [] doubled
    ≡ generic_case (codes "altair") (codes "x") ∷ generic_case (codes "phase0") (codes "y") ∷ []
unfolding emit
emitted_once = refl

abbrev block_files : CaseFiles
block_files = record {
  meta_ = record {
    bls_setting = none;
    blocks_count = none;
    fork_epoch = some 2;
    fork_block = none;
    parent_slot = none;
    post_fork = some (codes "gloas");
  };
  config = (codes "FULU_FORK_EPOCH", 0) ∷ (codes "SLOT_MS", 12) ∷ [];
  blobs = codes "pre" ∷ codes "blocks_10" ∷ codes "blocks_9" ∷ [];
  slots = none;
  execution_valid = none;
  root = none;
}

overrides :
    config_overrides ascii_only (codes "transition") block_files
    ≡ codes "cfg=FULU_FORK_EPOCH:0,GLOAS_FORK_EPOCH:2"
unfolding config_overrides
overrides = refl

abbrev in_order : List (ℕ × Text)
in_order = (9, codes "blocks_9") ∷ (10, codes "blocks_10") ∷ []

request :
    build_request ascii_only (λ c t. raised) (small_case (codes "a")) block_files (codes "/t")
    ≡ passed (
        codes
          "sanity\tslots\t/t/pre.ssz\t-\t1\t2\t2\t/t/blocks_9.ssz,/t/blocks_10.ssz\t-\t1\t-\tcfg=FULU_FORK_EPOCH:0")
unfolding build_request
request = refl

slot_bytes : slots_bytes 300 ≡ some (1 ∷ 44 ∷ [])
unfolding slots_bytes
slot_bytes = refl

Lacks-sound : (b : ℕ) (s : Text) → all (λ c. not (c == b)) s ≡ true → Lacks b s
Lacks-sound b [] h = tt
Lacks-sound b (c ∷ s) h =
    let here : not (c == b) ≡ true = ground arith in
    let there : all (λ x. not (x == b)) s ≡ true = ground arith in
    (ground arith, Lacks-sound b s there)

all_lack :
    (b : ℕ) (ws : List Text) → all (λ w. all (λ c. not (c == b)) w) ws ≡ true → All (Lacks b) ws
all_lack b [] h = tt
all_lack b (w ∷ ws) h =
    let here : all (λ c. not (c == b)) w ≡ true = ground arith in
    let there : all (λ v. all (λ c. not (c == b)) v) ws ≡ true = ground arith in
    (Lacks-sound b w here, all_lack b ws there)

build_request-fields_example :
    (line : Text) × (build_request ascii_only
        (λ c t. raised)
        (small_case (codes "a"))
        block_files
        (codes "/t")
      ≡ passed line)
    × Lacks 10 line
    × Carries ascii_only
        (small_case (codes "a"))
        block_files
        (codes "/t")
        in_order
        (split_on 9 line)
unfolding sorted_blocks case_fields text_eq
build_request-fields_example =
    build_request-fields ascii_only (λ c t. raised) (small_case (codes "a")) block_files
      (codes "/t") in_order refl refl refl
      (all_lack 9
        (case_fields ascii_only (small_case (codes "a")) block_files (codes "/t") in_order) refl)
      (all_lack 10
        (case_fields ascii_only (small_case (codes "a")) block_files (codes "/t") in_order) refl)

abbrev some_checks : Checks
some_checks = record {
  proposer_head = none;
  override_update = true;
  head = some (record {
    root = codes "0x1";
    slot = 7;
    payload_status = none;
    keys = codes "root" ∷ codes "slot" ∷ codes "extra" ∷ [];
  });
  timeliness = some (record {
    block_root = codes "0x2";
    votes = some true ∷ none ∷ some false ∷ [];
    keys = codes "votes" ∷ codes "block_root" ∷ [];
  });
  availability = none;
  justified = none;
  finalized = none;
  boost = none;
  time = some 12;
  genesis_time = none;
  viable = none;
  keys =
      codes "should_override_forkchoice_update"
      ∷ codes "head"
      ∷ codes "new_key"
      ∷ codes "payload_timeliness_vote"
      ∷ codes "time"
      ∷ [];
}

scripted :
    script (codes "/t") (
      tick 6
      ∷ block (codes "b") true []
      ∷ checks some_checks
      ∷ other_step (codes "valid" ∷ codes "z" ∷ codes "a" ∷ [])
      ∷ [])
    ≡ codes
        "tick 6\nblock /t/b.ssz 1 -\nunsupported should_override_forkchoice_update\nhead 0x1 7\npayload_timeliness_vote 0x2 t,n,f\ntime 12\nunsupported head.extra/new_key\nunsupported a/z"
unfolding script flat_map
scripted = refl

check_lines-unknown_keys_example :
    (named : List Text) × ((key : Text) → In key named ↔ Unknown some_checks key)
    × (check_lines some_checks
        ≡ known_lines some_checks
          ++ (if is_empty named
              then []
              else words (codes "unsupported" ∷ join (codes "/") named ∷ []) ∷ []))
check_lines-unknown_keys_example = check_lines-unknown_keys some_checks

-- A cache that knows only whether the archive has been unpacked.
abbrev cache : Cache Bool
cache = record {
  root = codes "cache";
  is_dir = λ path b. b;
  exists = λ path b. false;
  mkdir = λ path b. some b;
  download = λ url path b. some b;
  extract = λ tarball path b. some true;
}

abbrev empty_cache : State Bool
empty_cache = record { cache = false; downloads = [] }

abbrev filled : State Bool
filled = (ensure_archive cache (codes "v1") (codes "minimal") empty_cache).1

first_call :
    ensure_archive cache (codes "v1") (codes "minimal") empty_cache
    ≡ (passed (codes "cache/v1-minimal"), filled)
unfolding ensure_archive ◌>>=◌ on_cache fill fetch_if_missing fetch extract_dir
first_call = refl

ensure_archive_again_example :
    ensure_archive cache (codes "v1") (codes "minimal") filled
    ≡ (passed (codes "cache/v1-minimal"), record { cache = true; downloads = filled.downloads })
unfolding ensure_archive ◌>>=◌ on_cache fill fetch_if_missing fetch
ensure_archive_again_example =
    ensure_archive_again cache (codes "v1") (codes "minimal") empty_cache filled
      (codes "cache/v1-minimal") true (λ x y e. unpacked y e) refl (λ e. refl) first_call
  where
    unpacked : (y : Bool) → some true ≡ some y → y ≡ true
    unpacked y e = cc
