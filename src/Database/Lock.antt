-- ===== src/Database/Lock.antt =====
-- app/db/incidents.py: what a `transition` that succeeds did, and its optimistic lock.
use sre_blackboard.Common.{
  ℕ, suc, ◌≡◌, refl, sym, ap, subst, String, true, false, none, some, List, [], ◌∷◌, ◌==◌, ==_iff,
  update_where, find_where, find_where-Among, find_where-none, update_where-where, All, Among,
  Fresh, Fresh-unique, Bool-cases, Option-cases, inl, inr, arith,
}
use sre_blackboard.Incident.State.{State, same_state, check_transition}
use sre_blackboard.Incident.Table.{Incident}
use sre_blackboard.Audit.Payload.{Reason, transition_payload}
use sre_blackboard.Audit.Log.{Entry, append}
use sre_blackboard.Database.{
  Db, World, stale_version, done, raised, audit, is_at, moved, update_at, transition,
}

-- The audit entry of a move.
abbrev pub move_entry : World → Incident → State → State → String → Reason → Entry
move_entry w r from to actor reason = record {
  ts = w.now;
  tenant_id = some r.tenant_id;
  actor = actor;
  event = "incident.transition";
  subject = r.id;
  payload = transition_payload from to (suc r.version) reason;
}

-- The database after a move of the incident `r`: its row, and one more audit entry.
abbrev pub after_move : World → Incident → State → State → String → Reason → Db → Db
after_move w r from to actor reason db = record db {
  incidents = record db.incidents {
    rows = update_where (is_at r.id from r.version) (moved w.now to) db.incidents.rows;
  };
  log = (append w.digest (move_entry w r from to actor reason) db.log).1;
}

-- A move that was legal, of an incident that was where its caller thought.
pub record Moved (w : World) (id : ℕ) (from to : State) (expected : ℕ) (actor : String)
    (reason : Reason) (db : Db) (version : ℕ) (db' : Db) : Type 0 where
  pub incident : Incident
  pub present : Among incident db.incidents.rows
  pub the_id : incident.id ≡ id
  pub was_at : same_state incident.state from ≡ true
  pub at_version : incident.version ≡ expected
  pub legal : check_transition from to ≡ none
  pub next_version : version ≡ suc expected
  pub result : db' ≡ after_move w incident from to actor reason db

-- A transition that succeeds was legal, found the incident in the state and at the version that
-- its caller had read, and did this and nothing else: it moved that row, with the next version, to
-- its new state, closed if the state is terminal, and appended one audit entry of the move.
pub transition-Moved :
    (w : World) (id : ℕ) (from to : State) (expected : ℕ) (actor : String) (reason : Reason)
    (db : Db) (version : ℕ) (db' : Db)
    → transition w id from to expected actor reason db ≡ done version db'
    → Moved w id from to expected actor reason db version db'
unfolding transition update_at audit
transition-Moved w id from to expected actor reason db version db' h =
    elim (Option-cases (check_transition from to)) [
      | inr (e, f) ↦ absurd (ground arith)
      | inl legal ↦ elim (Option-cases (find_where (is_at id from expected) db.incidents.rows)) [
        | inl e ↦ absurd (ground arith)
        | inr (r, e) ↦
            let (m, hit) = find_where-Among (is_at id from expected) db.incidents.rows e in
            let i : r.id ≡ id = ground arith in
            let v : r.version ≡ expected = ground arith in
            record {
              incident = r;
              present = m;
              the_id = i;
              was_at = ground arith;
              at_version = v;
              legal = legal;
              next_version = ground arith;
              result = rw (i, v) cc;
            }
      ]
    ]

-- No other row has the id of the row that moved.
others_elsewhere :
    (id : ℕ) (from from' : State) (expected : ℕ) (r : Incident) (rows : List Incident)
    → r.id ≡ id
    → is_at id from expected r ≡ true
    → All (λ x. x.id ≡ r.id → x ≡ r) rows
    → All (λ x. is_at id from expected x ≡ false → is_at id from' expected x ≡ false) rows
others_elsewhere id from from' expected r [] i hit h = tt
others_elsewhere id from from' expected r (x ∷ rows) i hit (unique, h) = (
  (λ miss. elim (Bool-cases (x.id == id)) [
    | inl same ↦
        let e : x ≡ r = unique (ground (arith, ==_iff x.id id)) in
        absurd (cc (subst (λ z. is_at id from expected z ≡ false) e miss))
    | inr other ↦ rw other refl
  ]),
  others_elsewhere id from from' expected r rows i hit h,
)

moved_away :
    (id : ℕ) (from from' to : State) (expected now : ℕ) (x : Incident)
    → is_at id from expected x ≡ true
    → is_at id from' expected (moved now to x) ≡ false
moved_away id from from' to expected now x hit = ground arith

-- Of two callers that read the same version of an incident, one moves it: after the first move
-- every other move from that version, to whatever state, raises StaleVersion and changes nothing.
pub transition_once :
    (w : World) (id : ℕ) (from to : State) (expected : ℕ) (actor : String) (reason : Reason)
    (db : Db) (version : ℕ) (db' : Db)
    → Fresh (λ r. r.id) db.incidents.next_id db.incidents.rows
    → transition w id from to expected actor reason db ≡ done version db'
    → (w' : World) (from' to' : State) (actor' : String) (reason' : Reason)
    → check_transition from' to' ≡ none
    → transition w' id from' to' expected actor' reason' db' ≡ raised (stale_version id)
unfolding transition update_at
transition_once w id from to expected actor reason db version db' fresh h w' from' to' actor'
      reason' ok =
    let m = transition-Moved w id from to expected actor reason db version db' h in
    let r = m.incident in
    let i = m.the_id in
    let v = m.at_version in
    let at : is_at id from expected r ≡ true = ground (arith, m.was_at) in
    let unique = Fresh-unique (λ x. x.id) db.incidents.next_id db.incidents.rows fresh m.present in
    let gone : All (λ x. is_at id from' expected x ≡ false)
        (update_where (is_at r.id from r.version) (moved w.now to) db.incidents.rows) =
      update_where-where (is_at r.id from r.version) (is_at id from' expected) (moved w.now to)
        (λ x hit. rw (sym i, sym v) (moved_away r.id from from' to r.version w.now x hit))
        db.incidents.rows
        (rw (i, v) (others_elsewhere id from from' expected r db.incidents.rows i at unique)) in
    let rows : db'.incidents.rows
        ≡ update_where (is_at r.id from r.version) (moved w.now to) db.incidents.rows =
      ap (λ d. d.incidents.rows) m.result in
    let absent : find_where (is_at id from' expected) db'.incidents.rows ≡ none =
      rw rows (find_where-none (is_at id from' expected) _ gone) in
    rw (transition, update_at, ok, absent) refl
