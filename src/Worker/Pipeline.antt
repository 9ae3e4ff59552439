-- ===== src/Worker/Pipeline.antt =====
-- app/worker/handlers.py: `triage`; app/worker/investigate.py: the two transactions of the investigate
-- job; app/worker/remediate.py: the last transaction of the plan job. What the agents, or the planner,
-- find in between is an argument. Messages come as texts.
pub mod Resumed
use Prim.Native.String.{◌++◌ as str_append}
use sre_blackboard.Common.{
  ℕ, String, Bool, true, false, not, ◌||◌, Option, none, some, leb, if◌then◌else◌,
}
use sre_blackboard.Incident.State.{
  State, received, triaged, investigating, diagnosed, escalated, same_state,
}
use sre_blackboard.Incident.Table.{Incident}
use sre_blackboard.Audit.Payload.{Reason, plain, no_repair_plan}
use sre_blackboard.Queue.{Job, NewJob, incident_key, enqueue, clip}
use sre_blackboard.Remediation.Plan.{RemediationPlan}
use sre_blackboard.Remediation.Flow.{submit}
use sre_blackboard.Database.{
  World, permanent_error, done, raise, raised, Tx, pure, ◌>>=◌, ◌>>◌, transaction, transition, get,
}

-- The settings auto_investigate and auto_remediate.
pub record Auto : Type 0 where
  pub investigate : Bool
  pub remediate : Bool

-- The call of `jobs.enqueue` for an incident's next job.
unfoldable pub enqueue_next : World → Incident → String → Tx (Unit {0})
unfolding enqueue
enqueue_next w r kind db = done tt (record db { queue = (enqueue w.now job db.queue).1 })
  where
    job : NewJob
    job = record {
      tenant_id = r.tenant_id;
      incident_id = some r.id;
      kind = kind;
      plan_id = none;
      idempotency_key = some (incident_key r.id kind);
      priority = r.priority;
      max_attempts = w.settings.queue_max_attempts;
      aging_step = w.settings.queue_aging_step;
      delay = 0;
    }

abbrev pub enqueue_if : Bool → World → Incident → String → Tx (Unit {0})
enqueue_if true w r kind = enqueue_next w r kind
enqueue_if false w r kind = pure tt

abbrev pub triage_of : World → Auto → String → Option Incident → Tx (Unit {0})
triage_of w auto me none db = raised permanent_error
triage_of w auto me (some r) db =
    let go =
      (transition w r.id received triaged r.version me (plain "accepted for investigation")
          >> enqueue_if auto.investigate w r "investigate")
        db in
    if same_state r.state received then go else done tt db

abbrev pub triage_for : World → Auto → String → Job → Option ℕ → Tx (Unit {0})
triage_for w auto me job none = raise permanent_error
triage_for w auto me job (some id) = transaction job (λ db. triage_of w auto me (get id db) db)

unfoldable pub triage : World → Auto → String → Job → Tx (Unit {0})
unfolding transition enqueue_next get transaction
triage w auto me job = triage_for w auto me job job.incident_id

-- The incident that is to be investigated, and the version that its row then has.
abbrev pub begin_of : World → String → Option Incident → Tx (Option (Incident × ℕ))
begin_of w me none db = raised permanent_error
begin_of w me (some r) db =
    let go =
      (transition w r.id triaged investigating r.version me (plain "investigation started")
          >>= λ version. pure (some (r, version)))
        db in
    if same_state r.state triaged
    then go
    else if same_state r.state investigating
    then done (some (r, r.version)) db
    else done none db

abbrev pub begin_for : World → String → Job → Option ℕ → Tx (Option (Incident × ℕ))
begin_for w me job none = raise permanent_error
begin_for w me job (some id) = transaction job (λ db. begin_of w me (get id db) db)

-- The first transaction of `investigate_job`.
unfoldable pub begin_investigation : World → String → Job → Tx (Option (Incident × ℕ))
unfolding transition get transaction
begin_investigation w me job = begin_for w me job job.incident_id

-- The `Outcome` of an investigation: what is said of the first root cause of its diagnosis, if any,
-- and why it goes to a human, if so; how each agent fared is only logged.
pub record Outcome : Type 0 where
  pub diagnosis : Option String
  pub escalate : Option String

-- The handler's `except LLMError`; none: the error goes on, and the queue retries the job.
unfoldable pub after_llm_error : Job → Bool → String → Option Outcome
after_llm_error job retryable text =
    if not retryable || leb job.max_attempts job.attempts
    then some (record {
      diagnosis = none;
      escalate = some (str_append "the model was unavailable: " text);
    })
    else none

-- outcome.escalate or "no diagnosis"
abbrev pub escalate_reason : Option String → String
escalate_reason none = "no diagnosis"
escalate_reason (some String.[]) = "no diagnosis"
escalate_reason (some (String.◌∷◌ c s)) = String.◌∷◌ c s

abbrev pub conclude_as :
    World → Auto → String → Incident → ℕ → Option String → Option String → Tx (Unit {0})
conclude_as w auto me r version none (some cause) =
    transition w r.id investigating diagnosed version me (plain (clip 500 cause))
    >> enqueue_if auto.remediate w r "plan"
conclude_as w auto me r version none none =
    transition w r.id investigating escalated version me (plain (clip 500 (escalate_reason none)))
    >> pure tt
conclude_as w auto me r version (some why) cause =
    transition w r.id investigating escalated version me
      (plain (clip 500 (escalate_reason (some why))))
    >> pure tt

-- The last transaction of `investigate_job`; `r` is the incident as the first one read it.
unfoldable pub conclude_investigation :
    World → Auto → String → Job → Incident → ℕ → Outcome → Tx (Unit {0})
unfolding transition enqueue_next transaction
conclude_investigation w auto me job r version o =
    transaction job (conclude_as w auto me r version o.escalate o.diagnosis)

-- A `Proposal` of the planner: a plan, or why there is none.
pub record Proposal : Type 0 where
  pub plan : Option RemediationPlan
  pub error : String

abbrev pub propose_of : World → Proposal → Incident → Option RemediationPlan → Tx (Unit {0})
propose_of w p r none =
    transition w r.id diagnosed escalated r.version "agent:planner" (no_repair_plan p.error)
    >> pure tt
propose_of w p r (some plan) = submit w r plan "agent:planner" "agent:planner" >> pure tt

abbrev pub propose_for : World → Proposal → Option Incident → Tx (Unit {0})
propose_for w p none db = done tt db
propose_for w p (some r) db =
    let go = propose_of w p r p.plan db in if same_state r.state diagnosed then go else done tt db

-- The last transaction of `plan_job`.
unfoldable pub submit_proposal : World → Job → ℕ → Proposal → Tx (Unit {0})
unfolding transition submit get transaction
submit_proposal w job id p = transaction job (λ db. propose_for w p (get id db) db)
