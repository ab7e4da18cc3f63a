-- ===== src/Tiers/Tests.antt =====
-- scripts/check_constant_tiers.py on small documents.
use etheorem.Common.{
  ◌≡◌, ◌↔◌, refl, Option, none, some, List, [], ◌∷◌, Text, codes, text_eq, All, if◌then◌else◌,
}
use etheorem.Common.Outcome.{passed}
use etheorem.Common.Unicode.{ascii_only}
use etheorem.Common.Assoc.{lookup}
use etheorem.Tiers.{forks, Place, Truth}
use etheorem.Tiers.Refresh.{read_specs, read_presets, gather, refresh, pinned_version}
use etheorem.Tiers.Refresh.Laws.{gather-Keeps}
use etheorem.Tiers.Ours.{snake, our_constants}
use etheorem.Tiers.Check.{Ours, report}
use etheorem.Tiers.Check.Laws.{Agrees, report_status}

pin :
    pinned_version (codes "h.py") (codes "import re\nPINNED_VERSION = \"v1.7.0\"\n")
    ≡ passed (codes "v1.7.0")
unfolding pinned_version
pin = refl

names :
    (snake ascii_only (codes "maxEffectiveBalanceG") ≡ codes "MAX_EFFECTIVE_BALANCE_G")
    × (snake ascii_only (codes "Slots") ≡ codes "SLOTS")
unfolding snake
names = (refl, refl)

abbrev lean_source : Text
lean_source =
    codes
      "x\nnamespace Const\nforkabbrev maxSlots : Nat := Preset.maxSlots\nforkabbrev oneG : Gwei :=\n  1\nforkabbrev oneGPos : 0 < oneG := by decide\nend Const\nforkabbrev z : Nat := 2\n"

constants :
    our_constants lean_source
    ≡ passed ((codes "maxSlots", codes "Preset") ∷ (codes "oneG", codes "flat") ∷ [])
unfolding our_constants
constants = refl

abbrev download : Text → Option Text
download p =
    if text_eq p (codes "specs/gloas/fork-choice.md")
    then some (codes "# Doc\n### Constant\n| `ONE` | 1 |\n### Other\n| `TWO` | 2 |\n")
    else if text_eq p (codes "presets/minimal/altair.yaml")
    then some (codes "# c\nONE: 3\nMAX_SLOTS: 8 # eight\n")
    else if text_eq p (codes "configs/mainnet.yaml")
    then some (codes "# Gloas\nA_B: 1\n# topic\nB_C: 2\n# ---\nC_D: 3\n")
    else none

abbrev one_place : Place
one_place = record {
  fork = codes "gloas";
  tier = codes "flat";
  source = codes "gloas/fork-choice.md";
}

abbrev slots_place : Place
slots_place = record {
  fork = codes "altair";
  tier = codes "Preset";
  source = codes "presets/altair.yaml";
}

abbrev config_place : Text → Place
config_place fork = record {
  fork = fork;
  tier = codes "Config";
  source = codes "configs/mainnet.yaml";
}

refreshed :
    refresh ascii_only download
    ≡ (codes "A_B", config_place (codes "gloas"))
      ∷ (codes "B_C", config_place (codes "gloas"))
      ∷ (codes "C_D", config_place (codes "?"))
      ∷ (codes "MAX_SLOTS", slots_place)
      ∷ (codes "ONE", one_place)
      ∷ []
unfolding refresh
refreshed = refl

abbrev good_constants : List Ours
good_constants =
    record { fork = codes "Fulu"; name = codes "maxSlots"; tier = codes "Preset" }
    ∷ record { fork = codes "Gloas"; name = codes "oneG"; tier = codes "flat" }
    ∷ []

abbrev small_truth : Truth
small_truth = (codes "MAX_SLOTS", slots_place) ∷ (codes "ONE", one_place) ∷ []

reported :
    ((report ascii_only small_truth good_constants).status ≡ 0)
    × ((report ascii_only ((codes "ONE", one_place) ∷ []) good_constants).status ≡ 1)
unfolding report
reported = (refl, refl)

report_status_example :
    (report ascii_only small_truth good_constants).status ≡ 0
    ↔ All (Agrees ascii_only small_truth) good_constants
report_status_example = report_status ascii_only small_truth good_constants

gather-Keeps_example :
    (lookup (codes "ONE") (read_specs ascii_only download forks []) ≡ some one_place
      → lookup (codes "ONE") (gather ascii_only download) ≡ some one_place)
    × (lookup
            (codes "ONE")
            (read_presets ascii_only download forks (read_specs ascii_only download forks []))
          ≡ some one_place
        → lookup (codes "ONE") (gather ascii_only download) ≡ some one_place)
gather-Keeps_example = gather-Keeps ascii_only download (codes "ONE") one_place forks [] refl
