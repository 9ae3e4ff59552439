-- ===== src/Remediation/CarriedOut.antt =====
-- app/remediation/flow.py: what happens to the incident once a decision's row is there.
use sre_blackboard.Common.{
  ℕ, ◌≡◌, ap, ◌∙◌, String, some, str_eq, if◌then◌else◌, Bool-cases, inl, inr, arith,
}
use sre_blackboard.Incident.State.{State, awaiting_approval, executing, escalated}
use sre_blackboard.Incident.Table.{Incident}
use sre_blackboard.Audit.Payload.{Payload, decision_payload, Reason, approved, rejected}
use sre_blackboard.Remediation.Flow.{approve_plan, reject_plan, carry_out, enqueue_for}
use sre_blackboard.Database.{PlanRow, Db, World, done, ◌>>◌, pure, audit, transition}
use sre_blackboard.Database.Done.{bind-done}
use sre_blackboard.Database.Lock.{Moved, transition-Moved}

-- The state that a decision moves the incident to.
abbrev pub decided_state : String → State
decided_state decision = if str_eq decision "approve" then executing else escalated

-- The reason that its move gives.
abbrev pub decided_reason : PlanRow → String → String → Reason
decided_reason plan decision comment =
    if str_eq decision "approve" then approved plan.plan_hash else rejected plan.plan_hash comment

-- The parts of the database that a decision does not touch after its approval's row is there.
abbrev pub SameRows : Db → Db → Type 0
SameRows db db' =
    (db'.approvals ≡ db.approvals) × (db'.plans ≡ db.plans) × (db'.incidents ≡ db.incidents)

-- After the approval's row: the incident moved from AWAITING_APPROVAL at the version that the
-- request had read, and the approvals and plans stayed.
pub record CarriedOut (w : World) (incident : Incident) (plan : PlanRow)
    (approver decision comment : String) (db : Db) (s : State) (db' : Db) : Type 0 where
  pub state : s ≡ decided_state decision
  pub approvals : db'.approvals ≡ db.approvals
  pub plans : db'.plans ≡ db.plans
  pub before : Db
  pub same_incidents : before.incidents ≡ db.incidents
  pub version : ℕ
  pub after : Db
  pub moved :
      Moved w incident.id awaiting_approval
        (decided_state decision)
        incident.version
        approver
        (decided_reason plan decision comment)
        before
        version
        after
  pub stays : db'.incidents ≡ after.incidents

approve_plan-done :
    (w : World) (incident : Incident) (plan : PlanRow) (approver : String) (db : Db) (s : State)
    (db' : Db)
    → approve_plan w incident plan approver db ≡ done s db'
    → (s ≡ executing)
      × (version : ℕ) × (after : Db) × (transition w incident.id awaiting_approval executing
            incident.version approver
            (approved plan.plan_hash)
            db
          ≡ done version after)
      × (db' ≡ record after { queue = db'.queue })
unfolding approve_plan enqueue_for
approve_plan-done w incident plan approver db s db' h =
    let (version, after, t, rest) =
      bind-done
        (transition w incident.id awaiting_approval executing incident.version approver
          (approved plan.plan_hash))
        (λ _. enqueue_for w incident "execute" plan.id 0 >> pure executing) db s db' h in
    (ground arith, version, after, t, ground arith)

reject_plan-done :
    (w : World) (incident : Incident) (plan : PlanRow) (approver comment : String) (db : Db)
    (s : State) (db' : Db)
    → reject_plan w incident plan approver comment db ≡ done s db'
    → (s ≡ escalated)
      × (version : ℕ) × (after : Db) × (transition w incident.id awaiting_approval escalated
            incident.version approver
            (rejected plan.plan_hash comment)
            db
          ≡ done version after)
      × (db' ≡ after)
unfolding reject_plan
reject_plan-done w incident plan approver comment db s db' h =
    let (version, after, t, rest) =
      bind-done
        (transition w incident.id awaiting_approval escalated incident.version approver
          (rejected plan.plan_hash comment))
        (λ _. pure escalated) db s db' h in
    (ground arith, version, after, t, ground arith)

audit-SameRows :
    (w : World) (actor event : String) (id : ℕ) (tenant : String) (payload : Payload) (db mid : Db)
    → audit w actor event id tenant payload db ≡ done tt mid
    → SameRows db mid
unfolding audit
audit-SameRows w actor event id tenant payload db mid h = (ground arith, ground arith, ground arith)

branch :
    (w : World) (incident : Incident) (plan : PlanRow) (approver decision comment : String)
    (db before : Db) (s : State) (db' : Db)
    → SameRows db before
    → (if str_eq decision "approve"
          then approve_plan w incident plan approver
          else reject_plan w incident plan approver comment)
        before
      ≡ done s db'
    → CarriedOut w incident plan approver decision comment db s db'
branch w incident plan approver decision comment db before s db' (a, p, i) h =
    elim (Bool-cases (str_eq decision "approve")) [
      | inl e ↦
          let run : approve_plan w incident plan approver before ≡ done s db' = rw e at h in
          let (state, version, after, t, same) =
            approve_plan-done w incident plan approver before s db' run in
          let m =
            transition-Moved w incident.id awaiting_approval executing incident.version approver
              (approved plan.plan_hash) before version after t in
          record {
            state = rw e state;
            approvals = ap (λ d. d.approvals) same ∙ ap (λ d. d.approvals) m.result ∙ a;
            plans = ap (λ d. d.plans) same ∙ ap (λ d. d.plans) m.result ∙ p;
            before = before;
            same_incidents = i;
            version = version;
            after = after;
            moved = rw e m;
            stays = ap (λ d. d.incidents) same;
          }
      | inr e ↦
          let run : reject_plan w incident plan approver comment before ≡ done s db' = rw e at h in
          let (state, version, after, t, same) =
            reject_plan-done w incident plan approver comment before s db' run in
          let m =
            transition-Moved w incident.id awaiting_approval escalated incident.version approver
              (rejected plan.plan_hash comment) before version after t in
          record {
            state = rw e state;
            approvals = ap (λ d. d.approvals) same ∙ ap (λ d. d.approvals) m.result ∙ a;
            plans = ap (λ d. d.plans) same ∙ ap (λ d. d.plans) m.result ∙ p;
            before = before;
            same_incidents = i;
            version = version;
            after = after;
            moved = rw e m;
            stays = ap (λ d. d.incidents) same;
          }
    ]

pub carry_out-CarriedOut :
    (w : World) (incident : Incident) (plan : PlanRow) (approver decision comment : String) (k : ℕ)
    (db : Db) (s : State) (db' : Db)
    → carry_out w incident plan approver decision comment (some k) db ≡ done s db'
    → CarriedOut w incident plan approver decision comment db s db'
unfolding carry_out
carry_out-CarriedOut w incident plan approver decision comment k db s db' h =
    let event =
      if str_eq decision "approve" then "remediation.approved" else "remediation.rejected" in
    let payload = decision_payload plan.id plan.plan_hash comment in
    let (_, before, a, rest) =
      bind-done (audit w approver event incident.id incident.tenant_id payload)
        (λ _.
          if str_eq decision "approve"
          then approve_plan w incident plan approver
          else reject_plan w incident plan approver comment)
        db s db' h in
    branch w incident plan approver decision comment db before s db'
      (audit-SameRows w approver event incident.id incident.tenant_id payload db before a) rest
