-- ===== src/Remediation/Flow/Submit.antt =====
-- app/remediation/flow.py: `submit`.
use sre_blackboard.Common.{ℕ, suc, ◌+◌, String, Option, none, some, ◌∷◌, str_eq, if◌then◌else◌}
use sre_blackboard.Incident.State.{
  State, planned, safety_reviewed, awaiting_approval, executing, escalated,
}
use sre_blackboard.Incident.Table.{Incident}
use sre_blackboard.Audit.Payload.{proposed, reviewed, no_safe_repair, waits, allowed, plan_payload}
use sre_blackboard.Remediation.Plan.{RemediationPlan}
use sre_blackboard.Remediation.Policy.{
  Verdict, allow, require_approval, deny, Decision, reasons, is_empty,
}
use sre_blackboard.Database.{PlanRow, World, done, Tx, pure, ◌>>=◌, ◌>>◌, audit, transition}
use sre_blackboard.Remediation.Flow.Review.{review, max_seq, enqueue_for}

abbrev pub expiry : World → Verdict → Option ℕ
expiry w require_approval = some (w.now + w.settings.remediation_approval_ttl)
expiry w _ = none

abbrev pub plan_row : World → Incident → RemediationPlan → String → Decision → ℕ → ℕ → PlanRow
plan_row w incident plan proposed_by d id seq = record {
  id = id;
  tenant_id = incident.tenant_id;
  incident_id = incident.id;
  seq = seq;
  proposed_by = proposed_by;
  plan = plan;
  plan_hash = w.plan_hash incident.id seq plan;
  verdict = d.verdict;
  risk = d.risk;
  checks = d.checks;
  expires_at = expiry w d.verdict;
  created_at = w.now;
}

-- INSERT INTO remediation_plans … RETURNING *
unfoldable pub save_plan : World → Incident → RemediationPlan → String → Decision → Tx PlanRow
unfolding max_seq
save_plan w incident plan proposed_by d db =
    let row =
      plan_row w incident plan proposed_by d db.next_plan (1 + max_seq incident.id db.plans) in
    done row (record db { plans = row ∷ db.plans; next_plan = suc db.next_plan })

-- plan.no_action_reason, where the plan has no actions and gives one.
abbrev pub told_reason : RemediationPlan → Option String
told_reason plan =
    if is_empty plan.actions
    then elim (plan.no_action_reason) [
      | some why ↦ if str_eq why "" then none else some why
      | none ↦ none
    ]
    else none

-- The last move of `submit`, by the verdict.
unfoldable pub settle : World → Incident → PlanRow → Decision → ℕ → Verdict → Tx State
unfolding transition enqueue_for
settle w incident saved d version deny = do
  _ ←
      transition w incident.id safety_reviewed escalated version "policy"
        (no_safe_repair (told_reason saved.plan) (reasons d))
  pure escalated
settle w incident saved d version require_approval = do
  _ ←
      transition w incident.id safety_reviewed awaiting_approval version "policy"
        (waits d.risk saved.plan_hash saved.expires_at)
  enqueue_for w incident "approval_timeout" saved.id w.settings.remediation_approval_ttl
  pure awaiting_approval
settle w incident saved d version allow = do
  _ ←
      transition w incident.id safety_reviewed executing version "policy"
        (allowed d.risk saved.plan_hash)
  enqueue_for w incident "execute" saved.id 0
  pure executing

-- The moves of `submit` after SAFETY_REVIEWED, and what it returns.
unfoldable pub reviewed_plan : World → Incident → PlanRow → Decision → ℕ → Tx (PlanRow × State)
unfolding settle
reviewed_plan w incident saved d version = do
  state ← settle w incident saved d version d.verdict
  pure (saved, state)

-- The moves to PLANNED and to SAFETY_REVIEWED, and what follows.
unfoldable pub advance : World → Incident → PlanRow → Decision → String → Tx (PlanRow × State)
unfolding transition reviewed_plan
advance w incident saved d actor = do
  version ←
      transition w incident.id incident.state planned incident.version actor (proposed saved.plan)
  version ←
      transition w incident.id planned safety_reviewed version "policy"
        (reviewed d.verdict (reasons d))
  reviewed_plan w incident saved d version

-- The audit entry of a submission, and what follows.
unfoldable pub record_plan : World → Incident → Decision → String → PlanRow → Tx (PlanRow × State)
unfolding audit advance
record_plan w incident d actor saved = do
  audit w actor "remediation.plan" incident.id incident.tenant_id (
      plan_payload saved.id saved.seq saved.plan_hash saved.proposed_by saved.plan.actions d.verdict
        d.risk d.checks)
  advance w incident saved d actor

unfoldable pub submit : World → Incident → RemediationPlan → String → String → Tx (PlanRow × State)
unfolding save_plan record_plan review
submit w incident plan proposed_by actor db =
    (save_plan w incident plan proposed_by (review w incident plan db)
        >>= record_plan w incident (review w incident plan db) actor)
      db
