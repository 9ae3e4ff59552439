-- ===== src/Remediation/Policy.antt =====
-- app/remediation/policy.py: may this plan run, and does a human have to approve it?
mod Types
mod Checks
mod Window
unfoldable pub use Types.*
unfoldable pub use Checks.*
unfoldable pub use Window.*
use sre_blackboard.Common.{
  ℕ, zero, suc, ◌+◌, ◌*◌, ◌/◌, ◌%◌, String, Bool, true, false, not, ◌&&◌, ◌||◌, Option, none, some,
  List, [], ◌∷◌, ◌++◌, ltb, leb, ◌==◌, str_eq, if◌then◌else◌, any, all, keep, partition, strip, int,
  or_else, length,
}
use sre_blackboard.Remediation.Plan.{
  Risk, r0, r1, r2, r3, r4, risk_rank, Action, Target, target, kind, ActionInfo, catalogue, lookup,
  Alternative, RemediationPlan,
}
use Types.{
  Verdict, allow, require_approval, deny, EvidenceRef, PolicyContext, Detail, no_actions,
  policy_error, no_root_cause, not_in_catalogue, has_risk, out_of_scope, in_scope, not_top,
  low_confidence, is_top, unknown_evidence, needs_evidence, cites, undo, lower_options,
  no_lower_option, window, Check, Decision,
}
use Checks.{check, scope, problem_host, evidence, alternative, is_empty}
use Window.{change_window}

abbrev pub is_r4 : Risk → Bool
is_r4 r4 = true
is_r4 _ = false

abbrev pub is_r3 : Risk → Bool
is_r3 r3 = true
is_r3 _ = false

-- The checks of one action, once its catalogue entry is known.
unfoldable pub checks_with : RemediationPlan → PolicyContext → ℕ → Action → ActionInfo → List Check
unfolding scope problem_host evidence alternative
checks_with plan ctx i a info =
    check "catalogue" (not (is_r4 info.risk)) (has_risk (kind a) info.risk) i
    ∷ scope (target a).deployment ctx i
    ∷ problem_host (target a).deployment ctx i
    ∷ evidence (kind a) (target a).deployment (target a).evidence_ids info.evidence_tools ctx i
    ∷ check "rollback_plan" (not (str_eq info.inverse "")) (undo info.inverse) i
    ∷ (if is_r3 info.risk then alternative plan info.risk i ∷ [] else [])

-- The body of the loop over the actions: the checks and the risk that one action adds.
abbrev pub checks_of : RemediationPlan → PolicyContext → ℕ → Action → Option ActionInfo → List Check
checks_of plan ctx i a none = check "catalogue" false (not_in_catalogue (kind a)) i ∷ []
checks_of plan ctx i a (some info) = checks_with plan ctx i a info

abbrev pub risk_of : Option ActionInfo → List Risk
risk_of none = []
risk_of (some info) = info.risk ∷ []

unfoldable pub action_checks : RemediationPlan → PolicyContext → ℕ → List Action → List Check
action_checks plan ctx i [] = []
action_checks plan ctx i (a ∷ rest) =
    checks_of plan ctx i a (lookup (kind a) catalogue) ++ action_checks plan ctx (suc i) rest

unfoldable pub action_risks : List Action → List Risk
action_risks [] = []
action_risks (a ∷ rest) = risk_of (lookup (kind a) catalogue) ++ action_risks rest

-- The loop that keeps the highest risk.
unfoldable pub highest : Option Risk → List Risk → Option Risk
highest best [] = best
highest none (r ∷ rest) = highest (some r) rest
highest (some b) (r ∷ rest) = highest (some (if ltb (risk_rank b) (risk_rank r) then r else b)) rest

-- not c.ok and c.blocking
abbrev pub blocks : Check → Bool
blocks c = not c.ok && c.blocking

abbrev pub decide : PolicyContext → List Check → Option Risk → Decision
decide ctx checks none = record { verdict = deny; risk = none; checks = checks }
decide ctx checks (some risk) =
    if any blocks checks
    then record { verdict = deny; risk = some risk; checks = checks }
    else if leb (risk_rank risk) (risk_rank ctx.auto_max_risk)
    then record { verdict = allow; risk = some risk; checks = checks }
    else record { verdict = require_approval; risk = some risk; checks = checks }

abbrev pub one_check : String → Detail → Decision
one_check name detail = record {
  verdict = deny;
  risk = none;
  checks = record { name = name; ok = false; detail = detail; blocking = true; action = none } ∷ [];
}

abbrev pub evaluate_checked : RemediationPlan → PolicyContext → Option Check → Option Decision
evaluate_checked plan ctx none = none
evaluate_checked plan ctx (some w) = some (
    decide ctx (action_checks plan ctx 0 plan.actions ++ w ∷ [])
      (highest none (action_risks plan.actions)))

-- `_evaluate`; `none` is an exception.
unfoldable pub try_evaluate : RemediationPlan → PolicyContext → Option Decision
try_evaluate plan ctx =
    if is_empty plan.actions
    then some (one_check "actions" no_actions)
    else evaluate_checked plan ctx (change_window ctx)

-- Fails closed.
unfoldable pub evaluate : RemediationPlan → PolicyContext → Decision
evaluate plan ctx = elim (try_evaluate plan ctx) [
  | none ↦ one_check "policy_error" policy_error
  | some d ↦ d
]

-- Decision.failed
abbrev pub failed : Decision → List Check
failed d = keep (λ c. not c.ok) d.checks

abbrev pub details : List Check → List Detail
details [] = []
details (c ∷ rest) = c.detail ∷ details rest

-- Decision.reasons: the details that are joined; none: "all checks passed".
abbrev pub reasons : Decision → List Detail
reasons d =
    let bad = keep (λ c. c.blocking) (failed d) in details (if is_empty bad then failed d else bad)
