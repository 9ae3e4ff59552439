-- ===== src/Remediation/Prose.antt =====
-- app/remediation/policy.py: the policy reads no prose.
use sre_blackboard.Common.{
  ℕ, suc, ◌≡◌, refl, none, List, [], ◌∷◌, map, keep, Bool-cases, inl, inr, arith,
}
use sre_blackboard.Remediation.Plan.{
  Risk, Target, Action, rollout_undo, restart_deployment, scale_deployment, kind, catalogue, lookup,
  Alternative, RemediationPlan,
}
use sre_blackboard.Remediation.Policy.{
  PolicyContext, is_lower, names, alternative, is_empty, checks_with, checks_of, action_checks,
  action_risks, try_evaluate, evaluate,
}

abbrev pub bare_target : Target → Target
bare_target t = record t { reason = "" }

abbrev pub bare_action : Action → Action
bare_action (rollout_undo t r) = rollout_undo (bare_target t) r
bare_action (restart_deployment t) = restart_deployment (bare_target t)
bare_action (scale_deployment t n) = scale_deployment (bare_target t) n

abbrev pub bare_alternative : Alternative → Alternative
bare_alternative a = record a { why_not = "" }

-- The plan with all that the model wrote in prose taken out.
abbrev pub bare : RemediationPlan → RemediationPlan
bare p = record {
  summary = "";
  actions = map bare_action p.actions;
  alternatives = map bare_alternative p.alternatives;
  no_action_reason = none;
}

names-bare :
    (risk : Risk) (as' : List Alternative)
    → names (keep (is_lower risk) (map bare_alternative as')) ≡ names (keep (is_lower risk) as')
names-bare risk [] = refl
names-bare risk (a ∷ rest) = elim (Bool-cases (is_lower risk a)) [
  | inl t ↦ rw (t, names-bare risk rest)
  | inr f ↦ rw (f, names-bare risk rest)
]

alternative-bare :
    (plan : RemediationPlan) (risk : Risk) (i : ℕ)
    → alternative (bare plan) risk i ≡ alternative plan risk i
unfolding alternative
alternative-bare plan risk i = rw (names-bare risk plan.alternatives)

checks_of-bare :
    (plan : RemediationPlan) (ctx : PolicyContext) (i : ℕ) (a : Action)
    → checks_of (bare plan) ctx i (bare_action a) (lookup (kind (bare_action a)) catalogue)
      ≡ checks_of plan ctx i a (lookup (kind a) catalogue)
unfolding checks_with lookup
checks_of-bare plan ctx i (rollout_undo t r) = rw (alternative-bare plan)
checks_of-bare plan ctx i (restart_deployment t) = refl
checks_of-bare plan ctx i (scale_deployment t n) = refl

action_checks-bare :
    (plan : RemediationPlan) (ctx : PolicyContext) (i : ℕ) (as' : List Action)
    → action_checks (bare plan) ctx i (map bare_action as') ≡ action_checks plan ctx i as'
unfolding action_checks
action_checks-bare plan ctx i [] = refl
action_checks-bare plan ctx i (a ∷ rest) =
    rw (checks_of-bare plan ctx i a, action_checks-bare plan ctx (suc i) rest)

action_risks-bare : (as' : List Action) → action_risks (map bare_action as') ≡ action_risks as'
unfolding action_risks
action_risks-bare [] = refl
action_risks-bare (rollout_undo t r ∷ rest) = rw (action_risks-bare rest)
action_risks-bare (restart_deployment t ∷ rest) = rw (action_risks-bare rest)
action_risks-bare (scale_deployment t n ∷ rest) = rw (action_risks-bare rest)

is_empty-bare : (as' : List Action) → is_empty (map bare_action as') ≡ is_empty as'
is_empty-bare [] = refl
is_empty-bare (a ∷ rest) = refl

-- The whole decision (verdict, risk and every check) stays the same when the summary, the reasons
-- and all other prose of the plan are taken out.
pub evaluate-bare :
    (plan : RemediationPlan) (ctx : PolicyContext) → evaluate (bare plan) ctx ≡ evaluate plan ctx
unfolding evaluate try_evaluate
evaluate-bare plan ctx = ground (
  arith,
  is_empty-bare plan.actions,
  action_checks-bare plan ctx 0 plan.actions,
  action_risks-bare plan.actions,
)
