-- ===== src/Remediation/Placed.antt =====
-- app/remediation/flow.py: where the moves of a submission leave the incident.
use sre_blackboard.Common.{
  ℕ, suc, ◌≡◌, refl, sym, subst, ap, ◌∙◌, String, true, ==_refl, arith, Among, Among-update_where,
}
use sre_blackboard.Incident.State.{State, safety_reviewed, awaiting_approval, executing, escalated}
use sre_blackboard.Incident.Table.{Incident}
use sre_blackboard.Audit.Payload.{Reason, no_safe_repair, waits, allowed}
use sre_blackboard.Remediation.Policy.{Verdict, allow, require_approval, deny, Decision, reasons}
use sre_blackboard.Remediation.Flow.{enqueue_for, told_reason, settle}
use sre_blackboard.Database.{PlanRow, Db, World, done, ◌>>◌, pure, is_at, moved, transition}
use sre_blackboard.Database.Done.{bind-done}
use sre_blackboard.Database.Lock.{transition-Moved}

-- The state that a verdict leads to.
abbrev pub state_of : Verdict → State
state_of allow = executing
state_of require_approval = awaiting_approval
state_of deny = escalated

-- The incident's row is in this state, at this version.
abbrev pub Placed : ℕ → State → ℕ → Db → Type 0
Placed id s version db =
    (r : Incident) × Among r db.incidents.rows × (r.id ≡ id) × (r.state ≡ s) × (r.version ≡ version)

-- What a move does to the plans and to the incident.
abbrev pub Moves : ℕ → State → ℕ → Db → Db → Type 0
Moves id s version db db' = (db'.plans ≡ db.plans) × Placed id s version db'

pub transition-Moves :
    (w : World) (id : ℕ) (from to : State) (expected : ℕ) (actor : String) (reason : Reason)
    (db : Db) (version : ℕ) (db' : Db)
    → transition w id from to expected actor reason db ≡ done version db'
    → (version ≡ suc expected) × Moves id to (suc expected) db db'
transition-Moves w id from to expected actor reason db version db' h =
    let m = transition-Moved w id from to expected actor reason db version db' h in
    let r = m.incident in
    let hit : is_at r.id from r.version r ≡ true =
      ground (arith, m.was_at, ==_refl r.id, ==_refl r.version) in
    let there : Among (moved w.now to r) db'.incidents.rows =
      subst (λ (d : Db). Among (moved w.now to r) d.incidents.rows) (sym m.result)
        (Among-update_where (is_at r.id from r.version) (moved w.now to) db.incidents.rows r
          m.present hit) in
    (
      m.next_version,
      (
        ap (λ d. d.plans) m.result,
        (moved w.now to r, there, m.the_id, refl, ap (λ n. suc n) m.at_version),
      ),
    )

pub settle-Moves :
    (w : World) (incident : Incident) (saved : PlanRow) (d : Decision) (version : ℕ) (v : Verdict)
    (db : Db) (s : State) (db' : Db)
    → settle w incident saved d version v db ≡ done s db'
    → (s ≡ state_of v) × Moves incident.id (state_of v) (suc version) db db'
unfolding settle enqueue_for
settle-Moves w incident saved d version deny db s db' h =
    let (n, mid, t, rest) =
      bind-done
        (transition w incident.id safety_reviewed escalated version "policy"
          (no_safe_repair (told_reason saved.plan) (reasons d)))
        (λ _. pure escalated) db s db' h in
    let (_, p) =
      transition-Moves w incident.id safety_reviewed escalated version "policy" _ db n mid t in
    let same : mid ≡ db' = ground arith in
    (ground arith, subst (Moves incident.id escalated (suc version) db) same p)
settle-Moves w incident saved d version require_approval db s db' h =
    let (n, mid, t, rest) =
      bind-done
        (transition w incident.id safety_reviewed awaiting_approval version "policy"
          (waits d.risk saved.plan_hash saved.expires_at))
        (λ _.
          enqueue_for w incident "approval_timeout" saved.id w.settings.remediation_approval_ttl
          >> pure awaiting_approval)
        db s db' h in
    let (_, (p, (r, there, i, st, v))) =
      transition-Moves w incident.id safety_reviewed awaiting_approval version "policy" _ db n mid
        t in
    let same : (db'.plans ≡ mid.plans) × (mid.incidents ≡ db'.incidents) = ground arith in
    (ground arith, (same.0 ∙ p, (r, subst (λ t. Among r t.rows) same.1 there, i, st, v)))
settle-Moves w incident saved d version allow db s db' h =
    let (n, mid, t, rest) =
      bind-done
        (transition w incident.id safety_reviewed executing version "policy"
          (allowed d.risk saved.plan_hash))
        (λ _. enqueue_for w incident "execute" saved.id 0 >> pure executing) db s db' h in
    let (_, (p, (r, there, i, st, v))) =
      transition-Moves w incident.id safety_reviewed executing version "policy" _ db n mid t in
    let same : (db'.plans ≡ mid.plans) × (mid.incidents ≡ db'.incidents) = ground arith in
    (ground arith, (same.0 ∙ p, (r, subst (λ t. Among r t.rows) same.1 there, i, st, v)))
