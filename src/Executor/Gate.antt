-- ===== src/Executor/Gate.antt =====
-- app/executor/job.py: `_refusal`. `none` is its answer "".
use sre_blackboard.Common.{
  ℕ, Bool, true, false, not, ◌||◌, Option, none, some, ◌==◌, str_eq, if◌then◌else◌,
}
use sre_blackboard.Incident.Table.{Incident}
use sre_blackboard.Audit.Payload.{
  Refusal, there_is_no_plan, verdict_was_deny, needs_approval, other_plan_approved, own_approval,
  other_plan, denied_now,
}
use sre_blackboard.Queue.{Job}
use sre_blackboard.Remediation.Policy.{Verdict, deny, reasons}
use sre_blackboard.Remediation.Flow.{review, approval, waits_for_approval}
use sre_blackboard.Database.{PlanRow, Approval, Db, World}

abbrev pub is_deny : Verdict → Bool
is_deny deny = true
is_deny _ = false

-- ctx.job.payload.get("plan_id") == plan.id
abbrev pub for_plan : Option ℕ → ℕ → Bool
for_plan none id = false
for_plan (some n) id = n == id

abbrev pub approval_refusal : PlanRow → Option Approval → Option Refusal
approval_refusal plan none = some needs_approval
approval_refusal plan (some decided) =
    if not (str_eq decided.decision "approve")
    then some needs_approval
    else if not (str_eq decided.plan_hash plan.plan_hash)
    then some other_plan_approved
    else if str_eq decided.approver plan.proposed_by
    then some own_approval
    else none

unfoldable pub refusal : World → Job → Incident → Option PlanRow → Db → Option Refusal
unfolding review approval
refusal w job incident none db = some there_is_no_plan
refusal w job incident (some plan) db =
    let now = review w incident plan.plan db in
    if not (for_plan job.plan_id plan.id)
    then some (other_plan job.plan_id plan.id)
    else if is_deny plan.verdict
    then some verdict_was_deny
    else if is_deny now.verdict
    then some (denied_now (reasons now))
    else if waits_for_approval plan.verdict || waits_for_approval now.verdict
    then approval_refusal plan (approval plan.id db)
    else none
