-- ===== src/Tiers/Check.antt =====
-- `check` of scripts/check_constant_tiers.py. The printed lists are kept as the lists of what they
-- name.
pub mod Laws
use mathlib.Core.Option
use etheorem.Common.{
  ℕ, zero, suc, ◌+◌, Bool, true, false, not, ◌&&◌, ◌||◌, Option, none, some, List, [], ◌∷◌, ◌++◌,
  Text, codes, text_eq, mem_text, is_empty, length, if◌then◌else◌,
}
use etheorem.Common.Outcome.{Outcome, passed, exits, raised, ◌>>=◌}
use etheorem.Common.Unicode.{Unicode, capitalize}
use etheorem.Common.Assoc.{lookup}
use etheorem.Common.Strings.Order.{sort, text_leb}
use etheorem.Tiers.{accumulated, our_forks, untabled, Place, Truth}
use etheorem.Tiers.Ours.{upstream_key, our_constants}

-- One constant of ours: the fork that declares it, its name, and the tier of its body.
pub record Ours : Type 0 where
  pub fork : Text
  pub name : Text
  pub tier : Text

-- What the body of the loop finds out about one constant. The last case has the place upstream, and
-- whether its tier and its fork are right.
pub data Finding : Type 0 where
  is_untabled : Finding
  no_upstream : Finding
  compared : Bool → Bool → Bool → Finding

-- The fork of ours that owns what a fork introduces.
unfoldable pub owner : Unicode → Text → Text
unfolding mem_text capitalize
owner u fork = if mem_text fork accumulated then codes "Fulu" else capitalize u fork

-- `compared`: the tier agrees, the fork is known, the owner agrees.
unfoldable pub finding : Unicode → Truth → Ours → Finding
unfolding upstream_key mem_text lookup text_eq owner
finding u truth c =
    let key = upstream_key u c.name truth in
    if mem_text key untabled then is_untabled else elim (lookup key truth) [
      | none ↦ no_upstream
      | some p ↦
          compared (text_eq p.tier c.tier) (not (text_eq p.fork (codes "?")))
            (text_eq (owner u p.fork) c.fork)
    ]

abbrev pub tier_drifts : Finding → Bool
tier_drifts is_untabled = false
tier_drifts no_upstream = true
tier_drifts (compared tier known owned) = not tier

abbrev pub fork_drifts : Finding → Bool
fork_drifts is_untabled = false
fork_drifts no_upstream = false
fork_drifts (compared tier known owned) = known && not owned

abbrev pub stands_untabled : Finding → Bool
stands_untabled is_untabled = true
stands_untabled no_upstream = false
stands_untabled (compared tier known owned) = false

abbrev pub has_no_fork : Finding → Bool
has_no_fork is_untabled = false
has_no_fork no_upstream = false
has_no_fork (compared tier known owned) = not known

-- The constants with a finding of a kind, in order.
unfoldable pub those : (Finding → Bool) → (Ours → Finding) → List Ours → List Ours
those kind find [] = []
those kind find (c ∷ cs) = let rest = those kind find cs in if kind (find c) then c ∷ rest else rest

-- The constants of a fork, sorted by name.
unfoldable pub tagged : Text → List (Text × Text) → List Ours
tagged fork [] = []
tagged fork ((name, tier) ∷ rest) =
    record { fork = fork; name = name; tier = tier } ∷ tagged fork rest

-- `for fork in OUR_FORKS: for name, ours in sorted(…)`; the argument gives a fork's Constants.lean.
unfoldable pub collect : (Text → Outcome Text) → List Text → Outcome (List Ours)
unfolding our_constants sort text_leb tagged
collect constants [] = passed []
collect constants (fork ∷ forks) = do
  src ← constants fork
  items ← our_constants src
  rest ← collect constants forks
  passed (tagged fork (sort (λ p q. text_leb p.0 q.0) items) ++ rest)

pub record Report : Type 0 where
  pub total : ℕ
  pub tier_drift : List Ours
  pub fork_drift : List Ours
  pub untabled_list : List Ours
  pub unattributed : ℕ
  pub status : ℕ

unfoldable pub report : Unicode → Truth → List Ours → Report
unfolding those finding
report u truth cs =
    let tier_drift = those tier_drifts (finding u truth) cs in
    let fork_drift = those fork_drifts (finding u truth) cs in
    record {
      total = length cs;
      tier_drift = tier_drift;
      fork_drift = fork_drift;
      untabled_list = those stands_untabled (finding u truth) cs;
      unattributed = length (those has_no_fork (finding u truth) cs);
      status = if not (is_empty tier_drift) || not (is_empty fork_drift) then 1 else 0;
    }

-- The ground truth may be missing.
unfoldable pub check : Unicode → Option Truth → (Text → Outcome Text) → Outcome Report
unfolding collect report
check u none constants = exits (codes "scripts/constant_tiers.json is missing; run with --refresh")
check u (some truth) constants = do cs ← collect constants our_forks; passed (report u truth cs)
