-- ===== src/Remediation/Plan.antt =====
-- app/remediation/actions.py and app/remediation/plans.py: the action catalogue and the plan.
use sre_blackboard.Common.{ℕ, String, Option, none, some, List, [], ◌∷◌, str_eq, if◌then◌else◌}
use mathlib.Core.List.{flat_map}

pub data Risk : Type 0 where
  r0 r1 r2 r3 r4 : Risk

-- RISKS.index(risk)
abbrev pub risk_rank : Risk → ℕ
risk_rank r0 = 0
risk_rank r1 = 1
risk_rank r2 = 2
risk_rank r3 = 3
risk_rank r4 = 4

-- The fields of `_Action`, then what each subclass adds.
pub record Target : Type 0 where
  pub deployment : String
  pub evidence_ids : List String
  pub reason : String

pub data Action : Type 0 where
  rollout_undo : Target → Option ℕ → Action
  restart_deployment : Target → Action
  scale_deployment : Target → ℕ → Action

abbrev pub target : Action → Target
target (rollout_undo t r) = t
target (restart_deployment t) = t
target (scale_deployment t n) = t

-- The `action` literal.
abbrev pub kind : Action → String
kind (rollout_undo t r) = "rollout_undo"
kind (restart_deployment t) = "restart_deployment"
kind (scale_deployment t n) = "scale_deployment"

pub record ActionInfo : Type 0 where
  pub risk : Risk
  pub inverse : String
  pub evidence_tools : List String

abbrev pub catalogue : List (String × ActionInfo)
catalogue =
    (
      "rollout_undo",
      record {
        risk = r3;
        inverse = "roll the Deployment back to the revision it was on before";
        evidence_tools = "rollout_history" ∷ "deploy_diff" ∷ [];
      },
    )
    ∷ (
      "restart_deployment",
      record {
        risk = r2;
        inverse = "none needed: a rolling restart of a stateless service";
        evidence_tools = [];
      },
    )
    ∷ (
      "scale_deployment",
      record {
        risk = r2;
        inverse = "scale back to the replica count it had before";
        evidence_tools = [];
      },
    )
    ∷ []

-- d.get(k)
unfoldable pub lookup {ℓ} : {V : Type ℓ} → String → List (String × V) → Option V
lookup k [] = none
lookup k ((j, v) ∷ m) = if str_eq j k then some v else lookup k m

pub record Alternative : Type 0 where
  pub action : String  -- a kind of the catalogue, or "none"
  pub why_not : String

pub record RemediationPlan : Type 0 where
  pub summary : String
  pub actions : List Action
  pub alternatives : List Alternative
  pub no_action_reason : Option String

abbrev pub cited : RemediationPlan → List String
cited p = flat_map (λ a. (target a).evidence_ids) p.actions
