-- ===== src/Bench/Render/Words.antt =====
-- The fixed parts of the report that `render` of scripts/comparative_benchmark.py makes, as lists of lines.
use etheorem.Common.{Text, codes, List, [], ◌∷◌}

abbrev pub update1_title : Text
update1_title = codes "Scenario 1: one write"

abbrev pub update1000_title : Text
update1000_title = codes "Scenario 2: a thousand writes"

abbrev pub update1_blurb : Text
update1_blurb = codes "Bump `slot` by one, then root again."

abbrev pub update1000_blurb : Text
update1000_blurb =
    codes
      "Write 1000 fields, then root again. The writes are spread over four shapes: 250 validator records, 250 packed balances, 250 `block_roots` entries, and 250 `randao_mixes` entries. Spreading them matters, because a thousand writes into one list would share most of their Merkle path. One asymmetry: the Rust and the Python harnesses write the 250 balances one element at a time, while SizzLean applies them to the array and stores the list in one `sszUpdate` clause, so its cached row rebuilds that subtree once rather than rehashing 250 paths."

abbrev pub libssz_repo : Text
libssz_repo = codes "https://github.com/lambdaclass/libssz"

-- How each side is built.
abbrev pub build_lines : List Text
build_lines =
    codes "## How each side is built"
    ∷ []
    ∷ codes
        "Every row is an optimised native binary, or CPython for the row that is a Python library. No harness runs through an interpreter that its library would not use in production."
    ∷ []
    ∷ codes "| Row | Build |"
    ∷ codes "|---|---|"
    ∷ codes
        "| SizzLean, both | `lake build ssz_compbench`. Lake compiles every module through C with `clang -O3 -DNDEBUG -march=native`, and the package adds `-march=native` on top of Lake's default. `SizzLeanBench` sets `precompileModules`, so the scenario code is native rather than bytecode the interpreter walks. The exe links Lean's runtime statically. |"
    ∷ codes
        "| libssz | `cargo build --release --locked` with `lto = \"thin\"`, the flag libssz's own README reports its numbers under, plus `codegen-units = 1`. |"
    ∷ codes
        "| ssz-specs | CPython, no build step. The library is pure Python and ships no compiled extension. |"
    ∷ []
    ∷ codes
        "One asymmetry is worth naming: Rust does cross-crate inlining under thin LTO, and Lake has no cross-module equivalent. It is small. Rebuilding the libssz harness without LTO moves its first root from 9.5 ms to 9.7 ms, inside the run's noise, so it explains none of the gap between the compiled rows."
    ∷ []
    ∷ []

-- Behind the tables.
abbrev pub split_lines : List Text
split_lines =
    codes
      "Splitting the decode out answers a question the first-root column alone would hide. An implementation is free to hash while it decodes, and one that did would show a heavy **Deserialize** and a cheap **First root**. **Bytes to first root** prices the whole path, so it holds wherever each library chooses to do the work."
    ∷ []
    ∷ codes
        "**Second root** is where a Merkle cache shows up. A library that keeps no tree pays the first root's price again; one that keeps a tree rehashes only the paths the writes changed. Read it with **Writes** beside it: a cache that makes the second root cheap has to earn back whatever its writes cost."
    ∷ []
    ∷ []

abbrev pub reading_lines : List Text
reading_lines =
    codes "## Reading the numbers"
    ∷ []
    ∷ codes
        "Two totals carry the report. **Bytes to first root** is what a cold start costs, from a buffer on disk to a root. **Writes + second root** is what a slot costs once the value is resident, which is the number a consensus client reads most often. The phase columns say where each total comes from."
    ∷ []
    ∷ codes
        "The SizzLean pair differs in the constructor, `SSZ.FastBox` against `SSZ.PureBox`, and in one consequence of it. Both pin the FFI SHA-256, but the uncached walk hands each Merkle level to `Hasher.batchCombine`, the multi-buffer primitive, while the cached walk still hashes one node at a time through `Hasher.combine`. So the Pure row's roots carry a cheaper hasher than the Fast row's, and the gap between them understates what the cache saves. Batching the cached walk is tracked as etheorem#3."
    ∷ []
    ∷ codes
        "libssz has no Merkle cache, so its second root costs what its first one did. That is its design, and the number should be read as the price of recomputation rather than as a shortfall."
    ∷ []
    ∷ codes
        "ssz-specs is the specification, written to say what the format is. It does carry a root memo, so an unchanged subtree is not rehashed."
    ∷ []
    ∷ codes
        "Reproduce with `just sizzlean-comp-benchmark`. `scripts/compbench/README.md` states the method in full."
    ∷ []
    ∷ []
