-- ===== src/Examples/Checkout.antt =====
-- A restart of one service: the plan, its submission, an approval, and the executor's check.
use sre_blackboard.Common.{
  ℕ, ◌≡◌, refl, Option, none, some, [], ◌∷◌, update_where, find_where, partition, int, strip,
  lstrip, rstrip, int_signed, int_digits,
}
use sre_blackboard.Incident.State.{
  State, diagnosed, planned, awaiting_approval, executing, check_transition,
}
use sre_blackboard.Incident.Table.{Incident}
use sre_blackboard.Audit.Payload.{plain}
use sre_blackboard.Audit.Log.{append}
use sre_blackboard.Queue.{Job, enqueue}
use sre_blackboard.Remediation.Plan.{r1, restart_deployment, RemediationPlan, lookup}
use sre_blackboard.Remediation.Policy.{
  require_approval, PolicyContext, evaluate, change_window, try_evaluate, action_checks,
  checks_with, scope, problem_host, evidence, alternative, action_risks, highest, clock,
}
use sre_blackboard.Remediation.Flow.{
  submit, save_plan, record_plan, advance, reviewed_plan, settle, max_seq, review, diagnosis,
  policy_context, enqueue_for, current_plan, approval, decide, save_approval, carry_out,
  approve_plan,
}
use sre_blackboard.Executor.Gate.{refusal}
use sre_blackboard.Database.{
  PlanRow, Db, World, Settings, Outcome, done, raised, transition, update_at, audit,
}

abbrev pub restart : RemediationPlan
restart = record {
  summary = "Restart checkout";
  actions =
      restart_deployment (record { deployment = "checkout"; evidence_ids = []; reason = "leak" })
      ∷ [];
  alternatives = [];
  no_action_reason = none;
}

abbrev pub settings : Settings
settings = record {
  k8s_namespace = "prod";
  remediation_targets = "checkout" ∷ [];
  remediation_min_confidence = 5000;
  remediation_auto_max_risk = r1;
  remediation_change_window = "00:00-24:00";
  remediation_approval_ttl = 1800;
  queue_max_attempts = 5;
  queue_aging_step = 60;
  verify_settle = 30;
}

abbrev pub world : World
world = record {
  now = 1000;
  settings = settings;
  digest = λ p e. "digest";
  plan_hash = λ i s p. "plan-hash";
}

abbrev pub incident_at : State → ℕ → Incident
incident_at s v = record {
  id = 7;
  tenant_id = "acme";
  fingerprint = "fp";
  title = "checkout is slow";
  service = "checkout";
  environment = "prod";
  priority = 1;
  state = s;
  version = v;
  alert_count = 1;
  labels = [];
  created_at = 500;
  updated_at = 900;
  closed_at = none;
}

abbrev pub database : Incident → Db
database i = record {
  incidents = record { rows = i ∷ []; next_id = 8 };
  log = record { rows = []; next_seq = 1 };
  queue = record { rows = []; next_id = 1 };
  diagnoses = record { incident_id = 7; root_causes = ("checkout", 9000) ∷ [] } ∷ [];
  evidence = [];
  plans = [];
  next_plan = 4;
  approvals = [];
  next_approval = 1;
  alerts = [];
}

abbrev pub diagnosed_db : Db
diagnosed_db = database (incident_at diagnosed 5)

abbrev pub ctx : PolicyContext
ctx = record {
  incident_service = "checkout";
  root_causes = ("checkout", 9000) ∷ [];
  evidence = [];
  namespace = "prod";
  allowed_targets = "checkout" ∷ [];
  min_confidence = 5000;
  auto_max_risk = r1;
  change_window = "00:00-24:00";
  now = 1000;
}

abbrev pub or_db : {A : Type 0} → Outcome A → Db
or_db (done a db) = db
or_db (raised f) = diagnosed_db

abbrev pub or_plan : Option PlanRow → Db → PlanRow
or_plan (some p) db = p
or_plan none db = record {
  id = 0;
  tenant_id = "";
  incident_id = 0;
  seq = 0;
  proposed_by = "";
  plan = restart;
  plan_hash = "";
  verdict = require_approval;
  risk = none;
  checks = [];
  expires_at = none;
  created_at = 0;
}

abbrev pub submitted_db : Db
submitted_db =
    or_db
      (submit world (incident_at diagnosed 5) restart "agent:planner" "agent:planner" diagnosed_db)

abbrev pub saved_plan : PlanRow
saved_plan = or_plan (current_plan 7 submitted_db) submitted_db

abbrev pub approved_db : Db
approved_db = or_db (
    decide world (incident_at awaiting_approval 8) "user:ana" "approve" "plan-hash" "ok"
      submitted_db)

abbrev pub execute_job : Job
execute_job = record {
  id = 2;
  tenant_id = "acme";
  incident_id = some 7;
  kind = "execute";
  plan_id = some 4;
  priority = 1;
  attempts = 1;
  max_attempts = 5;
  fence = 1;
  lease_owner = "executor-1";
  waited = 0;
}

pub submits :
    submit world (incident_at diagnosed 5) restart "agent:planner" "agent:planner" diagnosed_db
    ≡ done (saved_plan, awaiting_approval) submitted_db
unfolding submit save_plan record_plan advance reviewed_plan settle max_seq review enqueue_for
    transition update_at audit append check_transition evaluate try_evaluate action_checks
    checks_with scope problem_host evidence alternative action_risks highest change_window clock
    partition int strip lstrip rstrip int_signed int_digits lookup update_where find_where diagnosis
    policy_context current_plan enqueue
submits = refl

pub decides :
    decide world
      (incident_at awaiting_approval 8)
      "user:ana"
      "approve"
      "plan-hash"
      "ok"
      submitted_db
    ≡ done executing approved_db
unfolding decide save_approval carry_out approve_plan submit save_plan record_plan advance
    reviewed_plan settle max_seq review enqueue_for transition update_at audit append
    check_transition evaluate try_evaluate action_checks checks_with scope problem_host evidence
    alternative action_risks highest change_window clock partition int strip lstrip rstrip
    int_signed int_digits lookup update_where find_where diagnosis policy_context current_plan
    enqueue approval
decides = refl

pub clears :
    refusal world execute_job (incident_at executing 9) (some saved_plan) approved_db ≡ none
unfolding refusal decide save_approval carry_out approve_plan submit save_plan record_plan advance
    reviewed_plan settle max_seq review enqueue_for transition update_at audit append
    check_transition evaluate try_evaluate action_checks checks_with scope problem_host evidence
    alternative action_risks highest change_window clock partition int strip lstrip rstrip
    int_signed int_digits lookup update_where find_where diagnosis policy_context current_plan
    enqueue approval
clears = refl

abbrev pub moved_db : Db
moved_db =
    or_db (transition world 7 diagnosed planned 5 "agent:planner" (plain "restart") diagnosed_db)

pub moves :
    transition world 7 diagnosed planned 5 "agent:planner" (plain "restart") diagnosed_db
    ≡ done 6 moved_db
unfolding transition update_at audit append check_transition update_where find_where
moves = refl
