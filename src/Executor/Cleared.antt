-- ===== src/Executor/Cleared.antt =====
-- What it means that the executor does not refuse a plan.
use sre_blackboard.Common.{
  ◌⊎◌, ℕ, Bool, true, not, ◌||◌, Option, none, some, ==_iff, eq_iff, if◌then◌else◌, ◌≡◌, ◌≢◌, refl,
  arith, ◌↔◌, inl, inr, subst,
}
use sre_blackboard.Incident.Table.{Incident}
use sre_blackboard.Audit.Payload.{Refusal, other_plan, verdict_was_deny, denied_now}
use sre_blackboard.Queue.{Job}
use sre_blackboard.Remediation.Plan.{risk_rank}
use sre_blackboard.Remediation.Policy.{PolicyContext, Verdict, allow, deny, evaluate, reasons}
use sre_blackboard.Remediation.Safety.{PlanPermitted}
use sre_blackboard.Remediation.Verdict.{Within, evaluate-Judged}
use sre_blackboard.Remediation.Flow.{
  review, approval, policy_context, diagnosis, waits_for_approval,
}
use sre_blackboard.Database.{PlanRow, Approval, Db, World}
use sre_blackboard.Executor.Gate.{is_deny, for_plan, approval_refusal, refusal}

-- The approval of exactly this plan, by someone other than its author.
pub record ApprovedBy (plan : PlanRow) (a : Approval) : Type 0 where
  pub approves : a.decision ≡ "approve"
  pub same_hash : a.plan_hash ≡ plan.plan_hash
  pub by_another : a.approver ≢ plan.proposed_by

-- The context in which the policy judges the plan again, now.
abbrev pub context : World → Incident → Db → PolicyContext
context w incident db = policy_context w incident (diagnosis incident.id db) db

pub record Cleared (w : World) (job : Job) (incident : Incident) (plan : PlanRow) (db : Db)
    : Type 0 where
  pub asked_for : job.plan_id ≡ some plan.id
  pub was_permitted : plan.verdict ≢ deny
  pub permitted : PlanPermitted plan.plan (context w incident db)
  pub approved :
      ((plan.verdict ≡ allow)
        × Within (risk_rank w.settings.remediation_auto_max_risk) plan.plan.actions)
      ⊎ ((a : Approval) × (approval plan.id db ≡ some a) × ApprovedBy plan a)

for_plan_iff : (p : Option ℕ) (id : ℕ) → (for_plan p id ≡ true) ↔ (p ≡ some id)
for_plan_iff none id = ground arith
for_plan_iff (some n) id = ground (arith, ==_iff n id)

approval_refusal-none :
    (plan : PlanRow) (o : Option Approval)
    → (approval_refusal plan o ≡ none) ↔ ((a : Approval) × (o ≡ some a) × ApprovedBy plan a)
approval_refusal-none plan none = ((λ h. absurd (ground arith)), (λ h. absurd (ground arith)))
approval_refusal-none plan (some a) =
    let d = eq_iff a.decision "approve" in
    let h = eq_iff a.plan_hash plan.plan_hash in
    let p = eq_iff a.approver plan.proposed_by in
    (
      (λ e. (
        a,
        refl,
        record {
          approves = ground (arith, d, h, p);
          same_hash = ground (arith, d, h, p);
          by_another = (λ z. ground (arith, d, h, p));
        },
      )),
      (λ z. let (b, same, y) = z in ground (arith, d, h, p, y.approves, y.same_hash, y.by_another)),
    )

-- The tests of `refusal` in order, for any answers.
asked :
    (job_fits : Bool) (before now : Verdict) (r s t : Refusal) (rest : Option Refusal)
    → ((if not job_fits
          then some r
          else if is_deny before
          then some s
          else if is_deny now
          then some t
          else if waits_for_approval before || waits_for_approval now
          then rest
          else none)
        ≡ none)
      ↔ ((job_fits ≡ true)
          × (before ≢ deny)
          × (now ≢ deny)
          × (((before ≡ allow) × (now ≡ allow)) ⊎ (rest ≡ none)))
asked job_fits before now r s t rest = ground arith

-- The executor goes on exactly if the current plan is the one that its job is for, the policy did
-- not deny it and permits it again now, and either the policy allowed it then and now without an
-- approval, or there is an approval of this plan's hash by someone other than its author.
pub refusal-Cleared :
    (w : World) (job : Job) (incident : Incident) (o : Option PlanRow) (db : Db)
    → (refusal w job incident o db ≡ none)
      ↔ ((plan : PlanRow) × (o ≡ some plan) × Cleared w job incident plan db)
unfolding refusal review
refusal-Cleared w job incident none db =
    ((λ h. absurd (ground arith)), (λ h. absurd (ground arith)))
refusal-Cleared w job incident (some plan) db =
    let now = evaluate plan.plan (context w incident db) in
    let j = evaluate-Judged plan.plan (context w incident db) in
    let a =
      asked (for_plan job.plan_id plan.id) plan.verdict now.verdict (other_plan job.plan_id plan.id)
        verdict_was_deny (denied_now (reasons now)) (approval_refusal plan (approval plan.id db)) in
    let f = for_plan_iff job.plan_id plan.id in
    let p = approval_refusal-none plan (approval plan.id db) in
    (
      (λ h.
          let (x, y, z, v) = a.0 h in
          (
            plan,
            refl,
            record {
              asked_for = f.0 x;
              was_permitted = y;
              permitted = j.passes.0 z;
              approved = elim v [ inl q ↦ inl (q.0, (j.automatic.0 q.1).1) | inr q ↦ inr (p.0 q) ];
            },
          )),
      (λ h.
          let (q, same, cq) = h in
          let e : q ≡ plan = cc in
          let c : Cleared w job incident plan db = subst (λ z. Cleared w job incident z db) e cq in
          a.1 (
            f.1 c.asked_for,
            c.was_permitted,
            j.passes.1 c.permitted,
            elim (c.approved) [
              | inl v ↦ inl (v.0, j.automatic.1 (c.permitted, v.1))
              | inr v ↦ inr (p.1 v)
            ],
          )),
    )
