-- ===== src/Audit/Payload.antt =====
-- What the callers of `audit.append` put in a payload, and the reasons they give for a move of an
-- incident: the data that the source formats into text (which it cuts at 500 characters).
use sre_blackboard.Common.{ℕ, String, Option, List}
use sre_blackboard.Incident.State.{State}
use sre_blackboard.Remediation.Plan.{Risk, Action, RemediationPlan}
use sre_blackboard.Remediation.Policy.{Verdict, Detail, Check}

-- Why the executor refuses a plan: the answers of `_refusal`, and "no plan".
pub data Refusal : Type 0 where
  there_is_no_plan verdict_was_deny needs_approval other_plan_approved own_approval : Refusal
  other_plan : Option ℕ → ℕ → Refusal
  denied_now : List Detail → Refusal

pub data Reason : Type 0 where
  plain : String → Reason
  proposed : RemediationPlan → Reason
  reviewed : Verdict → List Detail → Reason
  no_safe_repair : Option String → List Detail → Reason
  waits : Option Risk → String → Option ℕ → Reason
  allowed : Option Risk → String → Reason
  approved : String → Reason
  rejected : String → String → Reason
  timed_out : String → ℕ → Reason
  no_repair_plan : String → Reason
  execution_refused : Refusal → Reason
  action_failed : Action → String → List Action → Reason
  executed : String → Reason
  verified : String → List Action → Reason

pub data Payload : Type 0 where
  empty : Payload
  transition_payload : State → State → ℕ → Reason → Payload
  plan_payload :
      ℕ → ℕ → String → String → List Action → Verdict → Option Risk → List Check → Payload
  decision_payload : ℕ → String → String → Payload
  action_payload : ℕ → ℕ → String → Payload
  verification_payload : Reason → Payload
  created_payload : String → String → String → ℕ → Payload
