-- ===== src/Remediation/Flow/Decide.antt =====
-- app/remediation/flow.py: `decide`.
use sre_blackboard.Common.{
  ℕ, suc, String, Bool, true, false, not, ◌&&◌, Option, none, some, ◌∷◌, ◌==◌, leb, str_eq,
  if◌then◌else◌, any,
}
use sre_blackboard.Incident.State.{State, awaiting_approval, executing, escalated, same_state}
use sre_blackboard.Incident.Table.{Incident}
use sre_blackboard.Audit.Payload.{approved, rejected, decision_payload}
use sre_blackboard.Remediation.Policy.{Verdict, require_approval}
use sre_blackboard.Database.{
  PlanRow, Approval, World, Refused, not_waiting, no_plan_waiting, plan_changed, window_closed,
  own_plan, already_decided, approval_refused, done, raised, Tx, pure, raise, ◌>>=◌, ◌>>◌, audit,
  transition,
}
use sre_blackboard.Remediation.Flow.Review.{current_plan, enqueue_for}

-- The guards of `decide`, in order; the plan that waits, or the refusal.
abbrev pub late : ℕ → Option ℕ → Bool
late now none = false
late now (some expires) = leb expires now

abbrev pub waits_for_approval : Verdict → Bool
waits_for_approval require_approval = true
waits_for_approval _ = false

abbrev pub refusal_of : World → String → String → String → Option PlanRow → Option (ℕ × Refused)
refusal_of w approver decision hash_seen none = some (409, no_plan_waiting)
refusal_of w approver decision hash_seen (some plan) =
    if not (waits_for_approval plan.verdict)
    then some (409, no_plan_waiting)
    else if not (str_eq hash_seen plan.plan_hash)
    then some (409, plan_changed)
    else if late w.now plan.expires_at
    then some (409, window_closed)
    else if str_eq decision "approve" && str_eq approver plan.proposed_by
    then some (403, own_plan)
    else none

abbrev pub approval_row : World → Incident → PlanRow → String → String → String → ℕ → Approval
approval_row w incident plan approver decision comment id = record {
  id = id;
  tenant_id = incident.tenant_id;
  incident_id = incident.id;
  plan_id = plan.id;
  plan_hash = plan.plan_hash;
  approver = approver;
  decision = decision;
  comment = comment;
  created_at = w.now;
}

-- INSERT INTO approvals … ON CONFLICT (plan_id) DO NOTHING RETURNING id
unfoldable pub save_approval : World → Incident → PlanRow → String → String → String → Tx (Option ℕ)
save_approval w incident plan approver decision comment db =
    if any (λ a. a.plan_id == plan.id) db.approvals
    then done none db
    else done (some db.next_approval) (record db {
      approvals =
          approval_row w incident plan approver decision comment db.next_approval ∷ db.approvals;
      next_approval = suc db.next_approval;
    })

unfoldable pub approve_plan : World → Incident → PlanRow → String → Tx State
unfolding transition enqueue_for
approve_plan w incident plan approver = do
  _ ←
      transition w incident.id awaiting_approval executing incident.version approver
        (approved plan.plan_hash)
  enqueue_for w incident "execute" plan.id 0
  pure executing

unfoldable pub reject_plan : World → Incident → PlanRow → String → String → Tx State
unfolding transition
reject_plan w incident plan approver comment = do
  _ ←
      transition w incident.id awaiting_approval escalated incident.version approver
        (rejected plan.plan_hash comment)
  pure escalated

-- What follows the approval's row.
unfoldable pub carry_out :
    World → Incident → PlanRow → String → String → String → Option ℕ → Tx State
unfolding audit approve_plan reject_plan
carry_out w incident plan approver decision comment none =
    raise (approval_refused 409 already_decided)
carry_out w incident plan approver decision comment (some _) = do
  audit w approver
      (if str_eq decision "approve" then "remediation.approved" else "remediation.rejected")
      incident.id incident.tenant_id (decision_payload plan.id plan.plan_hash comment)
  if str_eq decision "approve"
      then approve_plan w incident plan approver
      else reject_plan w incident plan approver comment

abbrev pub decide_on :
    World → Incident → String → String → String → Option PlanRow → Option (ℕ × Refused) → Tx State
decide_on w incident approver decision comment plan (some (status, why)) =
    raise (approval_refused status why)
decide_on w incident approver decision comment none none =
    raise (approval_refused 409 no_plan_waiting)
decide_on w incident approver decision comment (some plan) none = do
  id ← save_approval w incident plan approver decision comment
  carry_out w incident plan approver decision comment id

unfoldable pub decide : World → Incident → String → String → String → String → Tx State
unfolding current_plan save_approval carry_out
decide w incident approver decision hash_seen comment db =
    let plan = current_plan incident.id db in
    let go =
      decide_on w incident approver decision comment plan
        (refusal_of w approver decision hash_seen plan) db in
    if not (same_state incident.state awaiting_approval)
    then raised (approval_refused 409 (not_waiting incident.state))
    else go
