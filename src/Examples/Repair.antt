-- ===== src/Examples/Repair.antt =====
-- What the theorems say of the restart.
use sre_blackboard.Common.{◌≡◌, refl, true, ltb, ◌%◌, none, some, arith, ◌↔◌, Fresh}
use sre_blackboard.Incident.State.{
  diagnosed, planned, escalated, awaiting_approval, executing, check_transition,
}
use sre_blackboard.Incident.Table.{Incident}
use sre_blackboard.Audit.Payload.{plain}
use sre_blackboard.Remediation.Policy.{evaluate, day, Check, change_window}
use sre_blackboard.Remediation.Verdict.{Judged, evaluate-Judged}
use sre_blackboard.Remediation.Prose.{bare, evaluate-bare}
use sre_blackboard.Remediation.Hours.{change_window-all_day}
use sre_blackboard.Remediation.Submitted.{Submitted, submit-Submitted}
use sre_blackboard.Remediation.Decided.{Decided, decide-Decided}
use sre_blackboard.Executor.Gate.{refusal}
use sre_blackboard.Executor.Cleared.{Cleared, refusal-Cleared}
use sre_blackboard.Database.{PlanRow, stale_version, raised, transition}
use sre_blackboard.Database.Lock.{transition_once}
use sre_blackboard.Examples.Checkout.{
  restart, world, incident_at, diagnosed_db, ctx, submitted_db, saved_plan, approved_db,
  execute_job, submits, decides, moved_db, moves,
}

evaluate-Judged_example : Judged restart ctx
evaluate-Judged_example = evaluate-Judged restart ctx

evaluate-bare_example : evaluate (bare restart) ctx ≡ evaluate restart ctx
evaluate-bare_example = evaluate-bare restart ctx

change_window-all_day_example :
    (c : Check) × (change_window ctx ≡ some c)
    × (c.ok ≡ ltb (1000 % day) 86399999999)
    × (c.blocking ≡ true)
change_window-all_day_example = change_window-all_day ctx refl

submit-Submitted_example :
    Submitted world
      (incident_at diagnosed 5)
      restart
      "agent:planner"
      diagnosed_db
      saved_plan
      awaiting_approval
      submitted_db
submit-Submitted_example =
    submit-Submitted world (incident_at diagnosed 5) restart "agent:planner" "agent:planner"
      diagnosed_db saved_plan awaiting_approval submitted_db submits

decide-Decided_example :
    Decided world
      (incident_at awaiting_approval 8)
      "user:ana"
      "approve"
      "plan-hash"
      "ok"
      submitted_db
      executing
      approved_db
decide-Decided_example =
    decide-Decided world (incident_at awaiting_approval 8) "user:ana" "approve" "plan-hash" "ok"
      submitted_db executing approved_db decides

refusal-Cleared_example :
    (refusal world execute_job (incident_at executing 9) (some saved_plan) approved_db ≡ none) ↔ (
      (plan : PlanRow) × (some saved_plan ≡ some plan)
      × Cleared world execute_job (incident_at executing 9) plan approved_db)
refusal-Cleared_example =
    refusal-Cleared world execute_job (incident_at executing 9) (some saved_plan) approved_db

one_incident-Fresh : Fresh (λ (r : Incident). r.id) 8 diagnosed_db.incidents.rows
one_incident-Fresh = (omega arith, tt)

may_escalate : check_transition diagnosed escalated ≡ none
unfolding check_transition
may_escalate = refl

transition_once_example :
    transition world 7 diagnosed escalated 5 "policy" (plain "late") moved_db
    ≡ raised (stale_version 7)
transition_once_example =
    transition_once world 7 diagnosed planned 5 "agent:planner" (plain "restart") diagnosed_db 6
      moved_db one_incident-Fresh moves world diagnosed escalated "policy" (plain "late")
      may_escalate
