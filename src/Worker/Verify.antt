-- ===== src/Worker/Verify.antt =====
-- app/worker/remediate.py: the loop of `verify_job`, on the readings that it takes one after another;
-- app/remediation/verify.py: `check_for`. Ratios and milliseconds are numbers of one fixed unit each
-- (1/10000, and 1 ms).
use sre_blackboard.Common.{
  ℕ, suc, String, Bool, true, false, Option, none, some, List, [], ◌∷◌, ltb, leb, if◌then◌else◌,
}
use sre_blackboard.Remediation.Plan.{lookup}

pub record SliCheck : Type 0 where
  pub name : String
  pub healthy_below : ℕ
  pub unit : String

abbrev pub slo_checks : List (String × SliCheck)
slo_checks =
    ("availability", record { name = "error ratio over 1m"; healthy_below = 600; unit = "ratio" })
    ∷ ("latency", record { name = "p95 over 1m"; healthy_below = 1000; unit = "ms" })
    ∷ []

-- labels.get("slo", "")
abbrev pub slo_of : Option String → String
slo_of none = ""
slo_of (some s) = s

unfoldable pub check_for : List (String × String) → Option SliCheck
unfolding lookup
check_for labels = lookup (slo_of (lookup "slo" labels)) slo_checks

-- A reading, `none` where there is no data or the query failed, and the time after it.
pub record Sample : Type 0 where
  pub value : Option ℕ
  pub at : ℕ

abbrev pub is_healthy : SliCheck → Sample → Bool
is_healthy c s = elim s.value [ none ↦ false | some v ↦ ltb v c.healthy_below ]

-- The loop: whether the repair is verified; `none` while the readings so far do not decide it.
unfoldable pub watch : SliCheck → ℕ → ℕ → ℕ → List Sample → Option Bool
watch c enough deadline streak [] = none
watch c enough deadline streak (s ∷ rest) =
    let now = if is_healthy c s then suc streak else 0 in
    let later = watch c enough deadline now rest in
    if leb enough now then some true else if leb deadline s.at then some false else later
