-- ===== src/Worker/Moves.antt =====
-- app/worker/remediate.py: `approval_timeout` and `_verified`; app/executor/job.py: `_escalate` and the
-- end of `execute_job`. Each reads the incident and moves it in one transaction.
use sre_blackboard.Common.{
  ℕ, String, Bool, true, false, not, ◌||◌, Option, none, some, List, [], if◌then◌else◌,
}
use sre_blackboard.Incident.State.{
  State, awaiting_approval, executing, verifying, resolved, escalated, same_state, is_terminal,
}
use sre_blackboard.Incident.Table.{Incident}
use sre_blackboard.Audit.Payload.{Reason, timed_out, executed, verified, verification_payload}
use sre_blackboard.Queue.{Job}
use sre_blackboard.Remediation.Plan.{Action}
use sre_blackboard.Remediation.Flow.{current_plan, approval, enqueue_for}
use sre_blackboard.Executor.Gate.{for_plan}
use sre_blackboard.Database.{
  PlanRow, Db, World, permanent_error, done, raise, Tx, pure, ◌>>=◌, ◌>>◌, transaction, audit,
  transition, get,
}

-- The move of an incident as it was just read.
unfoldable pub move_read : World → Incident → State → String → Reason → Tx (Unit {0})
unfolding transition
move_read w r to actor reason = do _ ← transition w r.id r.state to r.version actor reason; pure tt

abbrev pub is_some {ℓ} : {A : Type ℓ} → Option A → Bool
is_some none = false
is_some (some a) = true

-- The plan, if it is still the one that waits: not revised or decided since.
abbrev pub still_waits : Job → Option PlanRow → Db → Option PlanRow
still_waits job none db = none
still_waits job (some plan) db =
    if not (for_plan job.plan_id plan.id) || is_some (approval plan.id db) then none else some plan

abbrev pub time_out : World → Incident → Option PlanRow → Tx (Unit {0})
time_out w r none = pure tt
time_out w r (some plan) =
    move_read w r escalated "policy" (timed_out plan.plan_hash w.settings.remediation_approval_ttl)

abbrev pub timeout_of : World → Job → Option Incident → Tx (Unit {0})
timeout_of w job none db = done tt db
timeout_of w job (some r) db =
    let go = time_out w r (still_waits job (current_plan r.id db) db) db in
    if same_state r.state awaiting_approval then go else done tt db

abbrev pub timeout_for : World → Job → Option ℕ → Tx (Unit {0})
timeout_for w job none = raise permanent_error
timeout_for w job (some id) = transaction job (λ db. timeout_of w job (get id db) db)

unfoldable pub approval_timeout : World → Job → Tx (Unit {0})
unfolding move_read current_plan approval get transaction
approval_timeout w job = timeout_for w job job.incident_id

-- The actions that the message of a failed verification says how to undo.
abbrev pub undone : Bool → Option PlanRow → List Action
undone true o = []
undone false none = []
undone false (some plan) = plan.plan.actions

abbrev pub verified_of : World → Bool → Reason → Option Incident → Tx (Unit {0})
verified_of w ok reason none db = done tt db
verified_of w ok reason (some r) db =
    let go =
      (audit w "verifier" (if ok then "verification.passed" else "verification.failed") r.id
            r.tenant_id (verification_payload reason)
          >> move_read w r (if ok then resolved else escalated) "verifier" reason)
        db in
    if same_state r.state verifying then go else done tt db

-- `_verified`
unfoldable pub record_verified : World → Job → ℕ → Bool → String → Option PlanRow → Tx (Unit {0})
unfolding audit move_read get transaction
record_verified w job id ok reason plan =
    transaction job (λ db. verified_of w ok (verified reason (undone ok plan)) (get id db) db)

abbrev pub escalate_of : World → String → Reason → Option Incident → Tx (Unit {0})
escalate_of w actor reason none db = done tt db
escalate_of w actor reason (some r) db =
    let go = move_read w r escalated actor reason db in
    if is_terminal r.state then done tt db else go

-- `_escalate`; the hints how to undo the plan's actions are part of the reason.
unfoldable pub escalate : World → Job → ℕ → String → Reason → Tx (Unit {0})
unfolding move_read get transaction
escalate w job id actor reason = transaction job (λ db. escalate_of w actor reason (get id db) db)

abbrev pub hand_over_of : World → String → PlanRow → Option Incident → Tx (Unit {0})
hand_over_of w me plan none db = done tt db
hand_over_of w me plan (some r) db =
    let go =
      (move_read w r verifying me (executed plan.plan_hash)
          >> enqueue_for w r "verify" plan.id w.settings.verify_settle)
        db in
    if same_state r.state executing then go else done tt db

-- The last transaction of `execute_job`.
unfoldable pub hand_over : World → Job → String → ℕ → PlanRow → Tx (Unit {0})
unfolding move_read get enqueue_for transaction
hand_over w job me id plan = transaction job (λ db. hand_over_of w me plan (get id db) db)
