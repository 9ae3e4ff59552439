-- ===== src/Remediation/Flow/Review.antt =====
-- app/remediation/flow.py: what the flow reads, the policy's review of a plan, and `_enqueue`.
use sre_blackboard.Common.{
  ℕ, max, String, Option, none, some, List, [], ◌∷◌, map, ◌==◌, if◌then◌else◌, ltb, keep,
  find_where,
}
use sre_blackboard.Incident.Table.{Incident}
use sre_blackboard.Queue.{NewJob, plan_key, enqueue}
use sre_blackboard.Remediation.Plan.{RemediationPlan}
use sre_blackboard.Remediation.Policy.{PolicyContext, Decision, evaluate}
use sre_blackboard.Database.{PlanRow, Approval, DiagnosisRow, Db, World, done, Tx}

-- The newest diagnosis: the table has its rows newest first.
unfoldable pub diagnosis : ℕ → Db → Option DiagnosisRow
unfolding find_where
diagnosis id db = find_where (λ d. d.incident_id == id) db.diagnoses

abbrev pub causes_of : Option DiagnosisRow → List (String × ℕ)
causes_of none = []
causes_of (some d) = d.root_causes

unfoldable pub policy_context : World → Incident → Option DiagnosisRow → Db → PolicyContext
policy_context w incident dx db = record {
  incident_service = incident.service;
  root_causes = causes_of dx;
  evidence = map (λ e. (e.id, e.ref)) (keep (λ e. e.incident_id == incident.id) db.evidence);
  namespace = w.settings.k8s_namespace;
  allowed_targets = w.settings.remediation_targets;
  min_confidence = w.settings.remediation_min_confidence;
  auto_max_risk = w.settings.remediation_auto_max_risk;
  change_window = w.settings.remediation_change_window;
  now = w.now;
}

-- The policy's verdict on a plan for this incident, now.
unfoldable pub review : World → Incident → RemediationPlan → Db → Decision
unfolding evaluate policy_context diagnosis
review w incident plan db = evaluate plan (policy_context w incident (diagnosis incident.id db) db)

abbrev pub later_plan : PlanRow → Option PlanRow → PlanRow
later_plan p none = p
later_plan p (some q) = if ltb p.seq q.seq then q else p

-- ORDER BY seq DESC LIMIT 1; an incident's plans have different numbers.
unfoldable pub latest_of : ℕ → List PlanRow → Option PlanRow
latest_of id [] = none
latest_of id (p ∷ ps) =
    let rest = latest_of id ps in if p.incident_id == id then some (later_plan p rest) else rest

unfoldable pub current_plan : ℕ → Db → Option PlanRow
unfolding latest_of
current_plan id db = latest_of id db.plans

unfoldable pub approval : ℕ → Db → Option Approval
unfolding find_where
approval plan db = find_where (λ a. a.plan_id == plan) db.approvals

-- COALESCE(MAX(seq), 0)
unfoldable pub max_seq : ℕ → List PlanRow → ℕ
max_seq id [] = 0
max_seq id (p ∷ ps) =
    let rest = max_seq id ps in if p.incident_id == id then max p.seq rest else rest

unfoldable pub enqueue_for : World → Incident → String → ℕ → ℕ → Tx (Unit {0})
unfolding enqueue
enqueue_for w incident job_kind plan delay db =
    done tt (record db { queue = (enqueue w.now job db.queue).1 })
  where
    job : NewJob
    job = record {
      tenant_id = incident.tenant_id;
      incident_id = some incident.id;
      kind = job_kind;
      plan_id = some plan;
      idempotency_key = some (plan_key plan job_kind);
      priority = incident.priority;
      max_attempts = w.settings.queue_max_attempts;
      aging_step = w.settings.queue_aging_step;
      delay = delay;
    }
