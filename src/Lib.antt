-- ===== src/Lib.antt =====
-- The Python programs of the etheorem repository: the generators of test vectors and of Lean sources,
-- the checks that gate the build, and the harnesses that run a Lean server on test cases. The Lean
-- packages that they serve are not part of this library.
--
-- The scripts share no code; each is modelled by one module. What they have in common is Python: texts
-- as lists of code points, `str` methods, `sorted`, dicts, big integers, bytes and the parts of `re` that
-- they use. That is Common: Tests and Lists, Strings (with Lines, Digits, Order and Scan), Bits,
-- Bytes, Assoc for dicts, Unicode for the interpreter's tables past ASCII, Monad and Outcome for steps
-- that fail, exit or raise, and Action for steps that do so on a state.
--
-- Blake: packages/hazmat/LeanHazmatBlake2f/scripts/gen_vectors.py. Blake.antt has `rotr`, `g` and `f`;
--   Encoding has `eip152_input`, `words_out` and `hex_le_words`; Vectors has the tables and `main`.
--   Python's integers do not wrap, so each mask is written out as a remainder.
-- Citations: scripts/check_citations.py. Patterns has the regular expressions as scanners and
--   `is_boundary`, and Patterns/Names what the pattern of a name asks of a line; Span has `actual_span`; Collect has the two collectors; Main has `main`, the verdict on
--   each citation and `--fix`. The repository is a record that gives the text of a path.
-- Tiers: scripts/check_constant_tiers.py. Scan and Refresh build the ground truth from what a
--   download returns; Ours reads Constants.lean; Check is `check`.
-- Pyspec: packages/EthCLSpecs/PySpecTests/harness.py and packages/SizzLean/PySpecTests/harness.py.
--   Archive is `ensure_archive`; Client is `ServerClient`, whose `submit` is the same in both, over a process that is a parameter;
--   Walk and Walk/Generic are the two `walk_cases`, Walk/Shapes is `shape_spec_for_generic`, and Requests
--   has the request lines, and ForkChoice the script of a fork-choice case.
-- Bench: scripts/comparative_benchmark.py. Bench.antt has the rows that the harnesses print and the two
--   checks; Host has the machine and the pins, Build the build steps, and Driver the measurement and
--   `main`, for which the report is an argument; Table has the tables of the report over floating-point
--   numbers that are a parameter, and Render the report, with its fixed lines in Render/Words.
-- Poseidon: packages/LeanPoseidon/scripts/gen_poseidon_params.py, the flattening and the emission; Main has
--   the texts round the instances and `main`.
-- Cavp: packages/LeanSha256/scripts/gen_sha256_cavp.py and its sibling
--   packages/hazmat/LeanHazmatSha256/scripts/gen_cavp.py.
-- Bump: packages/LeanSha256/scripts/bump_patch.py. Version has `VERSION_RE`; Bump.antt has `git`, the
--   guards and `main`, as steps on a repository with a log of the commands that git was given.
-- Bn254: packages/hazmat/LeanHazmatBn254/scripts/gen_vectors.py, the anchors and their check. py_ecc is a
--   record of points, fields and functions.
-- SszHarness: scripts/compbench/ssz_specs_harness.py. Writes has the scenarios' writes on a state of which
--   the touched fields are kept; SszHarness.antt has `run_once` and `main`; the lines are Bench's rows, and
--   SszHarness/Checks is about both components.
-- Profile: scripts/prepare_profile_vector.py, whole.
--
-- Fuel. `skip_modifiers` has the length of the line, and each of its rounds takes a word off it. `decimal`
-- and `bit_length` have the number itself, which each round divides. The reading loop of the pyspec client
-- has no bound in the source, since a server may send noise for ever; there fuel that runs out is an
-- ending of its own, and an answer behind `n` lines of noise is found with any fuel above `n`. The loop over
-- the blocks of a profile vector has fuel of the same kind; one round more than there are blocks is enough.
--
-- Parameters. The Unicode tables past ASCII, the file system, the download, the server's process, JSON,
-- YAML, Snappy, git, py_ecc, the ssz library, the clock, floating-point numbers and the mean are arguments
-- of the definitions that use them. What is printed is kept as the lists that the messages are made from.
--
-- Not modelled: the container declarations of the ssz-specs harness.
pub mod Common
pub mod Blake
pub mod Citations
pub mod Tiers
pub mod Pyspec
pub mod Bench
pub mod Poseidon
pub mod Cavp
pub mod Bump
pub mod SszHarness
pub mod Profile
pub mod Bn254
