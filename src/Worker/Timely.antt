-- ===== src/Worker/Timely.antt =====
-- The moves of the worker's and the executor's jobs hit the row that they read, so they do not fail.
use sre_blackboard.Common.{
  ℕ, suc, ◌≡◌, refl, sym, ap, subst, String, Bool, true, false, none, some, List, [], ◌∷◌, ◌==◌,
  ==_iff, ==_refl, find_where, find_where-Among, update_where, arith, Bool-cases, Option-cases, inl,
  inr,
}
use sre_blackboard.Incident.State.{State, escalated, same_state_refl, is_terminal, check_transition}
use sre_blackboard.Incident.Table.{Incident}
use sre_blackboard.Audit.Payload.{Reason}
use sre_blackboard.Queue.{Job, ok, assert_fence}
use sre_blackboard.Database.{
  Db, World, done, ◌>>=◌, transaction, audit, is_at, moved, update_at, transition, get,
}
use sre_blackboard.Database.Lock.{after_move}
use sre_blackboard.Incident.Walk.{transitions-Open}
use sre_blackboard.Worker.Moves.{move_read, escalate}

-- A stricter test that the first row passes finds the same row.
find_stricter :
    (p q : Incident → Bool) (rows : List Incident) (r : Incident)
    → ((x : Incident) → q x ≡ true → p x ≡ true)
    → find_where p rows ≡ some r
    → q r ≡ true
    → find_where q rows ≡ some r
unfolding find_where
find_stricter p q [] r weaker h k = absurd (ground arith)
find_stricter p q (x ∷ rows) r weaker h k = elim (Bool-cases (p x)) [
  | inl e ↦
      let same : x ≡ r = ground arith in
      let hit : q x ≡ true = subst (λ z. q z ≡ true) (sym same) k in rw hit (ap (λ z. some z) same)
  | inr e ↦
      let miss : q x ≡ false = ground (arith, weaker x) in
      rw miss (find_stricter p q rows r weaker (rw e at h) k)
]

-- The row that an update hits is found by its id afterwards, as updated.
find_moved :
    (now id : ℕ) (from to : State) (version : ℕ) (rows : List Incident) (r : Incident)
    → find_where (λ x. x.id == id) rows ≡ some r
    → is_at id from version r ≡ true
    → find_where (λ x. x.id == id) (update_where (is_at id from version) (moved now to) rows)
      ≡ some (moved now to r)
unfolding find_where update_where
find_moved now id from to version [] r h k = absurd (ground arith)
find_moved now id from to version (x ∷ rows) r h k = elim (Bool-cases (x.id == id)) [
  | inl e ↦
      let same : x ≡ r = ground arith in
      let hit : is_at id from version x ≡ true =
        subst (λ z. is_at id from version z ≡ true) (sym same) k in
      rw (hit, e) (ap (λ z. some (moved now to z)) same)
  | inr e ↦ rw (e, e) (find_moved now id from to version rows r (rw e at h) k)
]

transition_hits :
    (w : World) (r : Incident) (to : State) (actor : String) (reason : Reason) (db : Db)
    → check_transition r.state to ≡ none
    → find_where (is_at r.id r.state r.version) db.incidents.rows ≡ some r
    → transition w r.id r.state to r.version actor reason db
      ≡ done (suc r.version) (after_move w r r.state to actor reason db)
unfolding transition update_at audit
transition_hits w r to actor reason db legal found = rw (transition, update_at, legal, found) refl

-- A legal move of an incident that was just read succeeds, and its row is then the one moved.
pub transition_moves :
    (w : World) (r : Incident) (to : State) (actor : String) (reason : Reason) (db : Db)
    → get r.id db ≡ some r
    → check_transition r.state to ≡ none
    → (transition w r.id r.state to r.version actor reason db
        ≡ done (suc r.version) (after_move w r r.state to actor reason db))
      × (get r.id (after_move w r r.state to actor reason db) ≡ some (moved w.now to r))
unfolding get
transition_moves w r to actor reason db g legal =
    let at : is_at r.id r.state r.version r ≡ true =
      ground (arith, ==_refl r.id, same_state_refl r.state, ==_refl r.version) in
    let found : find_where (is_at r.id r.state r.version) db.incidents.rows ≡ some r =
      find_stricter (λ x. x.id == r.id) (is_at r.id r.state r.version) db.incidents.rows r
        (λ x h. ground arith) g at in
    (
      transition_hits w r to actor reason db legal found,
      find_moved w.now r.id r.state to r.version db.incidents.rows r g at,
    )

pub move_read_moves :
    (w : World) (r : Incident) (to : State) (actor : String) (reason : Reason) (db : Db)
    → get r.id db ≡ some r
    → check_transition r.state to ≡ none
    → (db' : Db) × (move_read w r to actor reason db ≡ done tt db')
      × (get r.id db' ≡ some (moved w.now to r))
unfolding move_read
move_read_moves w r to actor reason db g legal =
    let (run, after) = transition_moves w r to actor reason db g legal in
    (after_move w r r.state to actor reason db, rw (run, move_read, ◌>>=◌) refl, after)

pub get_id : (id : ℕ) (db : Db) (r : Incident) → get id db ≡ some r → r.id ≡ id
unfolding get
get_id id db r g =
    let (_, hit) = find_where-Among (λ x. x.id == id) db.incidents.rows g in (==_iff r.id id).0 hit

-- An escalation by a worker that owns its job never fails, whatever state the incident is in by then: an incident that exists is
-- closed afterwards, by this escalation or since before it.
pub escalate_closes :
    (w : World) (job : Job) (id : ℕ) (actor : String) (reason : Reason) (db : Db)
    → assert_fence job db.queue ≡ ok tt
    → (db' : Db) × (escalate w job id actor reason db ≡ done tt db')
      × ((r : Incident)
          → get id db ≡ some r
          → (after : Incident) × (get id db' ≡ some after) × (is_terminal after.state ≡ true))
unfolding escalate
escalate_closes w job id actor reason db held = elim (Option-cases (get id db)) [
  | inl e ↦ (db, rw (held, e, escalate, transaction) refl, (λ r g. absurd (cc)))
  | inr (r, e) ↦ elim (Bool-cases (is_terminal r.state)) [
    | inl t ↦ (db, rw (held, e, t, escalate, transaction) refl, (λ r' g. (r, e, t)))
    | inr t ↦
        let same : get r.id db ≡ some r =
          subst (λ k. get k db ≡ some r) (sym (get_id id db r e)) e in
        let legal = (transitions-Open r.state).1 t in
        let (db', run, after) = move_read_moves w r escalated actor reason db same legal in
        (
          db',
          rw (held, e, t, escalate, transaction) run,
          (λ r' g. (
            moved w.now escalated r,
            subst (λ k. get k db' ≡ some (moved w.now escalated r)) (get_id id db r e) after,
            refl,
          )),
        )
  ]
]
