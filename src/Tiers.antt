-- ===== src/Tiers.antt =====
-- scripts/check_constant_tiers.py: the ground truth from the pinned specs, and the check of every
-- constant's tier and owning fork against it.
pub mod Scan
pub mod Refresh
pub mod Ours
pub mod Check
pub mod Tests
use etheorem.Common.{ℕ, Bool, List, [], ◌∷◌, Text, codes}

abbrev pub forks : List Text
forks =
    codes "phase0"
    ∷ codes "altair"
    ∷ codes "bellatrix"
    ∷ codes "capella"
    ∷ codes "deneb"
    ∷ codes "electra"
    ∷ codes "fulu"
    ∷ codes "gloas"
    ∷ codes "heze"
    ∷ []

-- The forks up to and with `fulu`.
abbrev pub accumulated : List Text
accumulated =
    codes "phase0"
    ∷ codes "altair"
    ∷ codes "bellatrix"
    ∷ codes "capella"
    ∷ codes "deneb"
    ∷ codes "electra"
    ∷ codes "fulu"
    ∷ []

abbrev pub our_forks : List Text
our_forks = codes "Fulu" ∷ codes "Gloas" ∷ codes "Heze" ∷ []

abbrev pub tiers : List (Text × Text)
tiers =
    (codes "constant", codes "flat")
    ∷ (codes "constants", codes "flat")
    ∷ (codes "preset", codes "Preset")
    ∷ (codes "presets", codes "Preset")
    ∷ (codes "configuration", codes "Config")
    ∷ (codes "configs", codes "Config")
    ∷ []

abbrev pub docs : List Text
docs = codes "beacon-chain" ∷ codes "fork-choice" ∷ codes "das-core" ∷ codes "deposit-contract" ∷ []

-- The keys of `UNTABLED`.
abbrev pub untabled : List Text
untabled = codes "G2_POINT_AT_INFINITY" ∷ codes "MAX_RANDOM_VALUE" ∷ []

-- An entry of the ground truth: `[fork, tier, source]`.
pub record Place : Type 0 where
  pub fork : Text
  pub tier : Text
  pub source : Text

abbrev pub Truth : Type 0
Truth = List (Text × Place)
