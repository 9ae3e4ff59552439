-- ===== src/Remediation/Policy/Checks.antt =====
-- app/remediation/policy.py: the checks of one action.
use sre_blackboard.Common.{
  ℕ, String, Bool, true, false, not, ◌&&◌, none, some, List, [], ◌∷◌, ltb, str_eq, if◌then◌else◌,
  any, keep, length,
}
use sre_blackboard.Remediation.Plan.{
  Risk, risk_rank, kind, catalogue, lookup, Alternative, RemediationPlan,
}
use sre_blackboard.Remediation.Policy.Types.{
  PolicyContext, Detail, no_root_cause, out_of_scope, in_scope, not_top, low_confidence, is_top,
  unknown_evidence, needs_evidence, cites, lower_options, no_lower_option, Check,
}

abbrev pub check : String → Bool → Detail → ℕ → Check
check name ok detail i = record {
  name = name;
  ok = ok;
  detail = detail;
  blocking = true;
  action = some i;
}

abbrev pub mem : String → List String → Bool
mem k = any (λ x. str_eq k x)

unfoldable pub scope : String → PolicyContext → ℕ → Check
scope deployment ctx i =
    if mem deployment ctx.allowed_targets
    then check "scope" true (in_scope ctx.namespace deployment) i
    else check "scope" false (out_of_scope deployment) i

abbrev pub problem_host_of : String → PolicyContext → ℕ → List (String × ℕ) → Check
problem_host_of deployment ctx i [] = check "problem_host" false no_root_cause i
problem_host_of deployment ctx i ((top, confidence) ∷ rest) =
    if not (str_eq deployment top)
    then check "problem_host" false
        (not_top deployment (str_eq deployment ctx.incident_service) top) i
    else if ltb confidence ctx.min_confidence
    then check "problem_host" false (low_confidence top confidence ctx.min_confidence) i
    else check "problem_host" true (is_top deployment confidence) i

unfoldable pub problem_host : String → PolicyContext → ℕ → Check
problem_host deployment ctx i = problem_host_of deployment ctx i ctx.root_causes

abbrev pub is_known : PolicyContext → String → Bool
is_known ctx ev = elim (lookup ev ctx.evidence) [ none ↦ false | some r ↦ true ]

-- ctx.evidence[ev].tool in tools and ctx.evidence[ev].args.get("deployment") == deployment
abbrev pub is_about : PolicyContext → List String → String → String → Bool
is_about ctx tools deployment ev = elim (lookup ev ctx.evidence) [
  | none ↦ false
  | some r ↦
      mem r.tool tools
      && elim (lookup "deployment" r.args) [ none ↦ false | some d ↦ str_eq d deployment ]
]

abbrev pub is_empty {ℓ} : {A : Type ℓ} → List A → Bool
is_empty [] = true
is_empty (x ∷ xs) = false

unfoldable pub evidence : String → String → List String → List String → PolicyContext → ℕ → Check
evidence kind deployment ids tools ctx i =
    let unknown = keep (λ ev. not (is_known ctx ev)) ids in
    if not (is_empty unknown)
    then check "evidence" false (unknown_evidence unknown) i
    else if not (is_empty tools) && is_empty (keep (is_about ctx tools deployment) ids)
    then check "evidence" false (needs_evidence kind tools deployment) i
    else check "evidence" true (cites (length ids)) i

-- a.action in CATALOGUE and risk_rank(CATALOGUE[a.action].risk) < risk_rank(risk)
abbrev pub is_lower : Risk → Alternative → Bool
is_lower risk a = elim (lookup a.action catalogue) [
  | none ↦ false
  | some info ↦ ltb (risk_rank info.risk) (risk_rank risk)
]

abbrev pub names : List Alternative → List String
names [] = []
names (a ∷ rest) = a.action ∷ names rest

unfoldable pub alternative : RemediationPlan → Risk → ℕ → Check
alternative plan risk i =
    let lower = names (keep (is_lower risk) plan.alternatives) in
    if is_empty lower
    then record {
      name = "alternative";
      ok = false;
      detail = no_lower_option risk;
      blocking = false;
      action = some i;
    }
    else record {
      name = "alternative";
      ok = true;
      detail = lower_options lower;
      blocking = false;
      action = some i;
    }
