-- ===== src/Remediation/Submitted.antt =====
-- app/remediation/flow.py: what a submission that commits did.
use sre_blackboard.Common.{
  suc, ◌≤◌, Bool-cases, Option-cases, inl, inr, false, List, [], ltb, ◌==◌, ℕ, ◌+◌, ◌≡◌, ◌≢◌, ◌↔◌,
  refl, sym, ap, ◌∙◌, subst, String, true, none, some, ◌∷◌, ==_refl, arith, Among,
}
use sre_blackboard.Incident.State.{
  State, planned, safety_reviewed, executing, escalated, check_transition, same_state,
}
use sre_blackboard.Incident.Table.{Incident}
use sre_blackboard.Audit.Payload.{proposed, reviewed, plan_payload}
use sre_blackboard.Remediation.Plan.{RemediationPlan, risk_rank}
use sre_blackboard.Remediation.Policy.{PolicyContext, Verdict, allow, deny, Decision, reasons}
use sre_blackboard.Remediation.Safety.{PlanPermitted}
use sre_blackboard.Remediation.Verdict.{Within, evaluate-Judged}
use sre_blackboard.Remediation.Flow.{
  review, policy_context, diagnosis, current_plan, max_seq, latest_of, plan_row, save_plan, settle,
  reviewed_plan, advance, record_plan, submit,
}
use sre_blackboard.Remediation.Placed.{state_of, Placed, Moves, transition-Moves, settle-Moves}
use sre_blackboard.Database.{PlanRow, Db, World, done, ◌>>=◌, pure, audit, transition}
use sre_blackboard.Database.Done.{bind-done}
use sre_blackboard.Database.Lock.{transition-Moved}

-- What `advance` does with the plan that was saved.
abbrev Advanced : World → Incident → PlanRow → Decision → Db → PlanRow × State → Db → Type 0
Advanced w incident saved d db out db' =
    (out.0 ≡ saved)
    × (out.1 ≡ state_of d.verdict)
    × Moves incident.id (state_of d.verdict) (incident.version + 3) db db'
    × (check_transition incident.state planned ≡ none)
    × ((r : Incident) × Among r db.incidents.rows
        × (r.id ≡ incident.id)
        × (same_state r.state incident.state ≡ true)
        × (r.version ≡ incident.version))

advance-Advanced :
    (w : World) (incident : Incident) (saved : PlanRow) (d : Decision) (actor : String) (db : Db)
    (out : PlanRow × State) (db' : Db)
    → advance w incident saved d actor db ≡ done out db'
    → Advanced w incident saved d db out db'
unfolding advance reviewed_plan
advance-Advanced w incident saved d actor db out db' h =
    let (v1, db1, t1, h1) =
      bind-done
        (transition w incident.id incident.state planned incident.version actor
          (proposed saved.plan))
        (λ version.
          transition w incident.id planned safety_reviewed version "policy"
            (reviewed d.verdict (reasons d))
          >>= reviewed_plan w incident saved d)
        db out db' h in
    let (v2, db2, t2, h2) =
      bind-done
        (transition w incident.id planned safety_reviewed v1 "policy"
          (reviewed d.verdict (reasons d)))
        (reviewed_plan w incident saved d) db1 out db' h1 in
    let (s, db3, t3, h3) =
      bind-done (settle w incident saved d v2 d.verdict) (λ state. pure (saved, state)) db2 out db'
        h2 in
    let m =
      transition-Moved w incident.id incident.state planned incident.version actor
        (proposed saved.plan) db v1 db1 t1 in
    let (state, (p3, placed)) = settle-Moves w incident saved d v2 d.verdict db2 s db3 t3 in
    let (n2, (p2, _)) =
      transition-Moves w incident.id planned safety_reviewed v1 "policy" _ db1 v2 db2 t2 in
    let (n1, (p1, _)) =
      transition-Moves w incident.id incident.state planned incident.version actor _ db v1 db1 t1 in
    let same : (out ≡ (saved, s)) × (db3 ≡ db') = ground arith in
    let at : suc v2 ≡ incident.version + 3 = omega (arith, n1, n2) in
    let moves : Moves incident.id (state_of d.verdict) (incident.version + 3) db db3 =
      (p3 ∙ (p2 ∙ p1), subst (λ n. Placed incident.id (state_of d.verdict) n db3) at placed) in
    (
      ap (λ x. x.0) same.0,
      ap (λ x. x.1) same.0 ∙ state,
      subst (Moves incident.id (state_of d.verdict) (incident.version + 3) db) same.1 moves,
      m.legal,
      (m.incident, m.present, m.the_id, m.was_at, m.at_version),
    )

-- The context in which the plan is judged when it is submitted.
abbrev pub context_at : World → Incident → Db → PolicyContext
context_at w incident db = policy_context w incident (diagnosis incident.id db) db

-- A submission that committed: which plan it saved, and where it took the incident.
pub record Submitted (w : World) (incident : Incident) (plan : RemediationPlan)
    (proposed_by : String) (db : Db) (saved : PlanRow) (s : State) (db' : Db) : Type 0 where
  pub from_state : check_transition incident.state planned ≡ none
  pub was_there :
      (r : Incident) × Among r db.incidents.rows
      × (r.id ≡ incident.id)
      × (same_state r.state incident.state ≡ true)
      × (r.version ≡ incident.version)
  pub row :
      saved
      ≡ plan_row w incident plan proposed_by
          (review w incident plan db)
          db.next_plan
          (1 + max_seq incident.id db.plans)
  pub plans : db'.plans ≡ saved ∷ db.plans
  pub by_verdict : s ≡ state_of (review w incident plan db).verdict
  pub placed : Placed incident.id s (incident.version + 3) db'
  pub is_current : current_plan incident.id db' ≡ some saved
  pub runs : (s ≡ executing) ↔ (
      PlanPermitted plan (context_at w incident db)
      × Within (risk_rank w.settings.remediation_auto_max_risk) plan.actions)
  pub gives_up : (s ≡ escalated) ↔ (PlanPermitted plan (context_at w incident db) → ⊥)

latest-max :
    (id : ℕ) (ps : List PlanRow) (q : PlanRow) → latest_of id ps ≡ some q → q.seq ≤ max_seq id ps
unfolding latest_of max_seq
latest-max id [] q h = absurd (ground arith)
latest-max id (p ∷ ps) q h = elim (Bool-cases (p.incident_id == id)) [
  | inr e ↦ let below = latest-max id ps q (rw e at h) in rw e below
  | inl e ↦ elim (Option-cases (latest_of id ps)) [
    | inl n ↦ let same : p ≡ q = ground arith in rw (e, ← same) (omega arith)
    | inr (x, f) ↦
        let below = latest-max id ps x f in
        elim (Bool-cases (ltb p.seq x.seq)) [
          | inl t ↦ let same : x ≡ q = ground arith in rw (e, ← same) (omega (arith, below))
          | inr t ↦ let same : p ≡ q = ground arith in rw (e, ← same) (omega (arith, below))
        ]
  ]
]

-- A plan with the next number is the latest.
latest-new :
    (id : ℕ) (p : PlanRow) (ps : List PlanRow)
    → p.incident_id ≡ id
    → p.seq ≡ 1 + max_seq id ps
    → latest_of id (p ∷ ps) ≡ some p
unfolding latest_of
latest-new id p ps own number = elim (Option-cases (latest_of id ps)) [
  | inl n ↦ rw (n, own, ==_refl id) refl
  | inr (x, f) ↦
      let below = latest-max id ps x f in
      let last : ltb p.seq x.seq ≡ false = ground (arith, below, number) in
      let mine : (p.incident_id == id) ≡ true = rw own (==_refl id) in rw (f, mine, last) refl
]

state_of-executing : (v : Verdict) → (state_of v ≡ executing) ↔ (v ≡ allow)
state_of-executing v = ground arith

state_of-escalated : (v : Verdict) → (state_of v ≡ escalated) ↔ (v ≡ deny)
state_of-escalated v = ground arith

deny_iff : {A : Type 0} (v : Verdict) → (v ≢ deny) ↔ A → (v ≡ deny) ↔ (A → ⊥)
deny_iff v i = ground arith

-- A submission that commits saves the plan as the incident's current one, with the next sequence
-- number, its hash and the policy's verdict of now, for an incident that may be planned and was at
-- the version that the caller had read. The incident's row is then three versions on, in the state that
-- is returned: AWAITING_APPROVAL, EXECUTING or ESCALATED by the verdict; EXECUTING exactly if the plan is
-- permitted and all its risks are within the limit, and ESCALATED exactly if it is not permitted.
pub submit-Submitted :
    (w : World) (incident : Incident) (plan : RemediationPlan) (proposed_by actor : String)
    (db : Db) (saved : PlanRow) (s : State) (db' : Db)
    → submit w incident plan proposed_by actor db ≡ done (saved, s) db'
    → Submitted w incident plan proposed_by db saved s db'
unfolding submit save_plan record_plan audit current_plan review
submit-Submitted w incident plan proposed_by actor db saved s db' h =
    let d = review w incident plan db in
    let row =
      plan_row w incident plan proposed_by d db.next_plan (1 + max_seq incident.id db.plans) in
    let (first_row, mid, save, h1) =
      bind-done (save_plan w incident plan proposed_by d) (record_plan w incident d actor) db
        (saved, s) db' h in
    let is_row : first_row ≡ row = ground arith in
    let (_, audited, logged, h2) =
      bind-done
        (audit w actor "remediation.plan" incident.id incident.tenant_id (
          plan_payload first_row.id first_row.seq first_row.plan_hash first_row.proposed_by
            first_row.plan.actions d.verdict d.risk d.checks))
        (λ _. advance w incident first_row d actor) mid (saved, s) db' h1 in
    let (out, state, (plans, placed), legal, (r, present, i, at, v)) =
      advance-Advanced w incident first_row d actor audited (saved, s) db' h2 in
    let j = evaluate-Judged plan (context_at w incident db) in
    let is_saved : saved ≡ row = out ∙ is_row in
    let same_plans : audited.plans ≡ row ∷ db.plans = ground arith in
    let same_incidents : audited.incidents ≡ db.incidents = ground arith in
    let all_plans : db'.plans ≡ saved ∷ db.plans =
      plans ∙ same_plans ∙ ap (λ x. x ∷ db.plans) (sym is_saved) in
    let at_hand : Among r db.incidents.rows = subst (λ t. Among r t.rows) same_incidents present in
    record {
      from_state = legal;
      was_there = (r, at_hand, i, at, v);
      row = is_saved;
      plans = all_plans;
      by_verdict = state;
      placed = subst (λ x. Placed incident.id x (incident.version + 3) db') (sym state) placed;
      is_current = rw (all_plans, is_saved) (latest-new incident.id row db.plans refl refl);
      runs = rw state (
        (λ e. j.automatic.0 ((state_of-executing d.verdict).0 e)),
        (λ p. (state_of-executing d.verdict).1 (j.automatic.1 p)),
      );
      gives_up = rw state (
        (λ e. (deny_iff d.verdict j.passes).0 ((state_of-escalated d.verdict).0 e)),
        (λ p. (state_of-escalated d.verdict).1 ((deny_iff d.verdict j.passes).1 p)),
      );
    }
