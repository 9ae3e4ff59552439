-- ===== src/Remediation/Decided.antt =====
-- app/remediation/flow.py: what a decision that `decide` accepts was, and what it did.
use sre_blackboard.Common.{
  ℕ, ◌≡◌, ◌≢◌, refl, String, true, false, Option, none, some, List, [], ◌∷◌, any, ◌==◌, ==_refl,
  eq_iff, find_where, Bool-cases, Option-cases, inl, inr, arith,
}
use sre_blackboard.Incident.State.{State, awaiting_approval, same_state}
use sre_blackboard.Incident.Table.{Incident}
use sre_blackboard.Remediation.Policy.{Verdict, require_approval, allow, deny}
use sre_blackboard.Remediation.Flow.{
  current_plan, approval, late, waits_for_approval, refusal_of, approval_row, save_approval,
  carry_out, decide_on, decide,
}
use sre_blackboard.Remediation.CarriedOut.{CarriedOut, carry_out-CarriedOut}
use sre_blackboard.Database.{PlanRow, Approval, Db, World, Refused, done}
use sre_blackboard.Database.Done.{bind-done}

-- A plan that may be decided on so.
pub record Decidable (w : World) (approver decision hash_seen : String) (plan : PlanRow)
    : Type 0 where
  pub needs_one : plan.verdict ≡ require_approval
  pub as_seen : hash_seen ≡ plan.plan_hash
  pub in_time : late w.now plan.expires_at ≡ false
  pub by_another : decision ≡ "approve" → approver ≢ plan.proposed_by

waits-eq : (v : Verdict) → waits_for_approval v ≡ true → v ≡ require_approval
waits-eq require_approval h = refl
waits-eq allow h = absurd (ground arith)
waits-eq deny h = absurd (ground arith)

refusal_of-Decidable :
    (w : World) (approver decision hash_seen : String) (plan : PlanRow)
    → refusal_of w approver decision hash_seen (some plan) ≡ none
    → Decidable w approver decision hash_seen plan
refusal_of-Decidable w approver decision hash_seen plan h = record {
  needs_one = waits-eq plan.verdict (ground arith);
  as_seen = ground (arith, eq_iff hash_seen plan.plan_hash);
  in_time = ground arith;
  by_another = (λ d e. ground (arith, eq_iff decision "approve", eq_iff approver plan.proposed_by));
}

undecided :
    (k : ℕ) (rows : List Approval)
    → any (λ a. a.plan_id == k) rows ≡ false
    → find_where (λ a. a.plan_id == k) rows ≡ none
unfolding find_where
undecided k [] h = refl
undecided k (a ∷ rows) h = ground (arith, undecided k rows)

-- A decision that was accepted, on which plan, and what it changed.
pub record Decided (w : World) (incident : Incident) (approver decision hash_seen comment : String)
    (db : Db) (s : State) (db' : Db) : Type 0 where
  pub waiting : same_state incident.state awaiting_approval ≡ true
  pub plan : PlanRow
  pub current : current_plan incident.id db ≡ some plan
  pub decidable : Decidable w approver decision hash_seen plan
  pub undecided_before : approval plan.id db ≡ none
  pub recorded : Approval
  pub found : approval plan.id db' ≡ some recorded
  pub recorded_hash : recorded.plan_hash ≡ plan.plan_hash
  pub recorded_approver : recorded.approver ≡ approver
  pub recorded_decision : recorded.decision ≡ decision
  pub saved : Db
  pub same_incidents : saved.incidents ≡ db.incidents
  pub effect : CarriedOut w incident plan approver decision comment saved s db'

-- The approval's row that was saved, and the rest of the decision on it.
abbrev Saved : World → Incident → PlanRow → String → String → String → Db → State → Db → Type 0
Saved w incident plan approver decision comment db s db' =
    (any (λ a. a.plan_id == plan.id) db.approvals ≡ false)
    × (k : ℕ) × (row : Approval) × (mid : Db) × (carry_out w incident plan approver decision comment
          (some k) mid
        ≡ done s db')
    × (mid.approvals ≡ row ∷ db.approvals)
    × (mid.incidents ≡ db.incidents)
    × (row.plan_id ≡ plan.id)
    × (row.plan_hash ≡ plan.plan_hash)
    × (row.approver ≡ approver)
    × (row.decision ≡ decision)

decide_on-Saved :
    (w : World) (incident : Incident) (plan : PlanRow) (approver decision comment : String)
    (db : Db) (s : State) (db' : Db)
    → decide_on w incident approver decision comment (some plan) none db ≡ done s db'
    → Saved w incident plan approver decision comment db s db'
unfolding save_approval carry_out
decide_on-Saved w incident plan approver decision comment db s db' h =
    let (o, mid, save, rest) =
      bind-done (save_approval w incident plan approver decision comment)
        (carry_out w incident plan approver decision comment) db s db' h in
    elim (Bool-cases (any (λ a. a.plan_id == plan.id) db.approvals)) [
      | inl e ↦
          let none_saved : o ≡ none = ground arith in absurd (conflict mid (rw none_saved at rest))
      | inr e ↦
          let id : o ≡ some db.next_approval = ground arith in
          let rows : mid.approvals
              ≡ approval_row w incident plan approver decision comment db.next_approval
                ∷ db.approvals =
            ground arith in
          (
            e,
            db.next_approval,
            approval_row w incident plan approver decision comment db.next_approval,
            mid,
            rw id at rest,
            rows,
            ground arith,
            refl,
            refl,
            refl,
            refl,
          )
    ]
  where
    conflict :
        (mid : Db) → carry_out w incident plan approver decision comment none mid ≡ done s db' → ⊥
    conflict mid r = ground arith

accepted_on :
    (w : World) (incident : Incident) (approver decision hash_seen comment : String) (db : Db)
    (s : State) (db' : Db) (o : Option PlanRow)
    → same_state incident.state awaiting_approval ≡ true
    → current_plan incident.id db ≡ o
    → decide_on w incident approver decision comment o
        (refusal_of w approver decision hash_seen o)
        db
      ≡ done s db'
    → Decided w incident approver decision hash_seen comment db s db'
unfolding approval find_where
accepted_on w incident approver decision hash_seen comment db s db' none wait c h =
    absurd (ground arith)
accepted_on w incident approver decision hash_seen comment db s db' (some plan) wait c h =
    elim (Option-cases (refusal_of w approver decision hash_seen (some plan))) [
      | inr (r, e) ↦ absurd (refused r (rw e at h))
      | inl e ↦
          let (clear, k, row, mid, run, rows, incidents, p, hash, by, d) =
            decide_on-Saved w incident plan approver decision comment db s db' (rw e at h) in
          let effect =
            carry_out-CarriedOut w incident plan approver decision comment k mid s db' run in
          record {
            waiting = wait;
            plan = plan;
            current = c;
            decidable = refusal_of-Decidable w approver decision hash_seen plan e;
            undecided_before = undecided plan.id db.approvals clear;
            recorded = row;
            found = rw (effect.approvals, rows, p, ==_refl plan.id) refl;
            recorded_hash = hash;
            recorded_approver = by;
            recorded_decision = d;
            saved = mid;
            same_incidents = incidents;
            effect = effect;
          }
    ]
  where
    refused :
        (r : ℕ × Refused)
        → decide_on w incident approver decision comment (some plan) (some r) db ≡ done s db'
        → ⊥
    refused r g = ground arith

-- A decision that is accepted was on the current plan of an incident at AWAITING_APPROVAL: the plan
-- needs an approval and has no decision yet, its hash is the one the approver saw, its window has
-- not closed, and whoever approves it did not propose it. The decision is then on record with that
-- hash, and the incident is moved, from the version that the request had read, to EXECUTING for an
-- approval and to ESCALATED for anything else.
pub decide-Decided :
    (w : World) (incident : Incident) (approver decision hash_seen comment : String) (db : Db)
    (s : State) (db' : Db)
    → decide w incident approver decision hash_seen comment db ≡ done s db'
    → Decided w incident approver decision hash_seen comment db s db'
unfolding decide
decide-Decided w incident approver decision hash_seen comment db s db' h =
    elim (Bool-cases (same_state incident.state awaiting_approval)) [
      | inl e ↦
          accepted_on w incident approver decision hash_seen comment db s db'
            (current_plan incident.id db) e refl (rw (e, decide) at h)
      | inr e ↦ absurd (ground arith)
    ]
