-- ===== src/Poseidon/Main.antt =====
-- `main` of packages/LeanPoseidon/scripts/gen_poseidon_params.py, with the texts in front of the instances
-- and behind them. The data files are a parameter: what `load_data` makes of a name, where the file can
-- be read. What is written is returned.
use etheorem.Common.{Option, some, List, [], ◌∷◌, ◌++◌, Text, codes, join}
use mathlib.Core.List.{flatten}
use etheorem.Common.Monad.{◌>>=◌}
use etheorem.Poseidon.{PoseidonData, emit_instance}

-- The name and the field of an instance, and its data file.
abbrev pub instances : List (Text × Text × Text)
instances =
    (codes "bn254Params", codes "Bn254Fr", codes "poseidon2_bn256.json")
    ∷ (codes "bls12Params", codes "Bls12Fr", codes "poseidon2_bls12.json")
    ∷ []

abbrev pub header_lines : List Text
header_lines =
    codes "import LeanPoseidon.Field"
    ∷ codes ""
    ∷ codes "/-!"
    ∷ codes "# `LeanPoseidon.Poseidon2.Params` — instance data + the pinned constants"
    ∷ codes ""
    ∷ codes "**This file is generated** by `scripts/gen_poseidon_params.py` from the"
    ∷ codes "pinned `scripts/poseidon2_*.json` data files (HorizenLabs `zkhash` v0.2.0);"
    ∷ codes "do not edit by hand. Run `just poseidon-gen-params` to regenerate. The"
    ∷ codes "generator header documents the sources and the flattening layout."
    ∷ codes ""
    ∷ codes "## What a Poseidon2 instance is (for the Lean-fluent reader)"
    ∷ codes ""
    ∷ codes "A Poseidon2 *permutation* mixes a *state* of `t` field elements through a"
    ∷ codes "sequence of rounds. A *full round* applies the non-linear S-box `x ↦ xᵈ` to"
    ∷ codes "all `t` elements; a *partial round* applies it to one element only (cheaper"
    ∷ codes "— most rounds are partial). *Round constants* (ARK = \"add round key\") are"
    ∷ codes "added before each S-box layer; between S-box layers a *linear layer* (a"
    ∷ codes "matrix multiply — see `Poseidon2/LinearLayers.lean`) diffuses the state."
    ∷ codes "Capturing all of this as *data* (rather than hardcoding) follows CLAUDE.md's"
    ∷ codes "\"configure, don't integrate\" and makes a new instance — even over a new"
    ∷ codes "*field* — new data, not new code (Open/Closed)."
    ∷ codes "-/"
    ∷ codes ""
    ∷ codes "set_option autoImplicit false"
    ∷ codes ""
    ∷ codes "namespace LeanPoseidon.Poseidon2"
    ∷ codes ""
    ∷ codes "/-- A Poseidon2 instance captured as data, generic over the coefficient type"
    ∷ codes "`R`. The shipped layers/permutation specialise the *width* to `t = 3`"
    ∷ codes "(`Vector R 3`); the *field* is whatever `R` the instance is built over (the"
    ∷ codes "field abstraction, ARCHITECTURE.md §3). -/"
    ∷ codes "structure Params (R : Type) where"
    ∷ codes "  /-- State width (number of field elements). -/"
    ∷ codes "  t : Nat"
    ∷ codes "  /-- `R_f`: total full rounds, split half before / half after the partial"
    ∷ codes "  rounds. -/"
    ∷ codes "  fullRounds : Nat"
    ∷ codes "  /-- `R_p`: partial rounds (S-box on element 0 only). -/"
    ∷ codes "  partialRounds : Nat"
    ∷ codes "  /-- S-box exponent `d` (= 5 for the shipped instances). -/"
    ∷ codes "  sboxDegree : Nat"
    ∷ codes "  /-- Flattened ARK (\"add round key\") constants: beginning full rounds (all"
    ∷ codes "  `t` entries each), partial rounds (entry 0 only), end full rounds (all `t`"
    ∷ codes "  entries). For `t = 3` that is `8·3 + 56 = 80`. `Poseidon2/Permutation.lean`"
    ∷ codes "  indexes it with exactly this layout. -/"
    ∷ codes "  roundConstants : Array R"
    ∷ codes "  /-- The internal linear layer's matrix diagonal, length `t`. For the t=3"
    ∷ codes "  instances it is `[2,2,3]`; the dense internal matrix is"
    ∷ codes "  `J + diag(intDiagᵢ − 1)`. See `Poseidon2/LinearLayers.lean`. -/"
    ∷ codes "  intDiag : Array R"
    ∷ codes ""
    ∷ codes ""
    ∷ []

-- `HEADER`
unfoldable pub header : Text
unfolding join
header = join (codes "\n") header_lines

-- `FOOTER`
unfoldable pub footer : Text
footer = codes "end LeanPoseidon.Poseidon2\n"

-- The texts of the instances, in order; the first that fails ends the run.
unfoldable pub emit_all :
    (Text → Option PoseidonData) → List (Text × Text × Text) → Option (List Text)
emit_all load_data [] = some []
emit_all load_data ((name, field, file) ∷ rest) = do
  data_ ← load_data file
  text ← emit_instance name field data_
  texts ← emit_all load_data rest
  some (text ∷ texts)

-- The text that `main` writes, and nothing where it raises before the write.
unfoldable pub main : (Text → Option PoseidonData) → Option Text
unfolding header footer flatten
main load_data = do texts ← emit_all load_data instances; some (header ++ (flatten texts ++ footer))
