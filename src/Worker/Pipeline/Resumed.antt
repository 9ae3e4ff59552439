-- ===== src/Worker/Pipeline/Resumed.antt =====
-- The jobs of an incident hand it on, and a rerun of each is a resume or does nothing.
use sre_blackboard.Common.{
  ℕ, suc, ◌≡◌, refl, sym, subst, ap, ◌∙◌, String, Bool, true, false, Option, none, some, any, arith,
  ==_refl, eq_refl, Bool-cases, inl, inr,
}
use sre_blackboard.Incident.State.{
  State, received, triaged, investigating, diagnosed, escalated, check_transition, same_state,
}
use sre_blackboard.Incident.Table.{Incident}
use sre_blackboard.Audit.Payload.{Reason, plain}
use sre_blackboard.Queue.{
  Queue, Job, Owned, ok, assert_fence, incident_key, key_conflict, enqueue, clip,
}
use sre_blackboard.Database.{
  Db, World, Failure, done, raised, Tx, transaction, pure, ◌>>=◌, ◌>>◌, transition, get, moved,
}
use sre_blackboard.Database.Lock.{after_move}
use sre_blackboard.Worker.Timely.{transition_moves, get_id}
use sre_blackboard.Worker.Pipeline as Jobs
use sre_blackboard.Worker.Pipeline.{
  Auto, enqueue_next, enqueue_if, triage_of, triage_for, triage, begin_of, begin_for,
  begin_investigation, conclude_as, conclude_investigation, escalate_reason,
}

-- If it is wanted, the incident's job of this kind is in the queue, whatever has become of it.
abbrev pub Queued : Bool → ℕ → String → Queue → Type 0
Queued false id kind q = Unit
Queued true id kind q =
    any (λ r. key_conflict (some (incident_key id kind)) r.idempotency_key) q.rows ≡ true

-- The job is about the incident, and its worker owns it.
abbrev pub Holds : Job → ℕ → Queue → Type 0
Holds job id q = (job.incident_id ≡ some id) × (assert_fence job q ≡ ok tt)

-- The database once others have changed the jobs table to this one.
abbrev pub with_jobs : Queue → Db → Db
with_jobs q db = record db { queue = q }

transaction-owned :
    {A : Type 0} (job : Job) (m : Tx A) (db : Db)
    → assert_fence job db.queue ≡ ok tt
    → transaction job m db ≡ m db
unfolding transaction
transaction-owned job m db held = rw (held, transaction) refl

transaction-lost :
    {A : Type 0} (job : Job) (m : Tx A) (db : Db)
    → assert_fence job db.queue ≡ Owned.lease_lost
    → transaction job m db ≡ raised Failure.lease_lost
unfolding transaction
transaction-lost job m db gone = rw (gone, transaction) refl

triage-owned :
    (w : World) (auto : Auto) (me : String) (job : Job) (id : ℕ) (db : Db)
    → Holds job id db.queue
    → triage w auto me job db ≡ triage_of w auto me (get id db) db
unfolding triage
triage-owned w auto me job id db (ji, held) =
    ap (λ o. triage_for w auto me job o db) ji ∙ transaction-owned job _ db held

begin-owned :
    (w : World) (me : String) (job : Job) (id : ℕ) (db : Db)
    → Holds job id db.queue
    → begin_investigation w me job db ≡ begin_of w me (get id db) db
unfolding begin_investigation
begin-owned w me job id db (ji, held) =
    ap (λ o. begin_for w me job o db) ji ∙ transaction-owned job _ db held

-- An incident is found, in this state.
abbrev pub In : State → ℕ → Db → Type 0
In s id db = (r : Incident) × (get id db ≡ some r) × (r.state ≡ s)

enqueue_next-Queued :
    (w : World) (r : Incident) (kind : String) (db : Db)
    → (db' : Db) × (enqueue_next w r kind db ≡ done tt db')
      × (db'.incidents ≡ db.incidents)
      × Queued true r.id kind db'.queue
unfolding enqueue_next enqueue
enqueue_next-Queued w r kind db =
    elim (Bool-cases
      (any (λ x. key_conflict (some (incident_key r.id kind)) x.idempotency_key) db.queue.rows)) [
        | inl e ↦ (_, refl, refl, rw (e, enqueue) e)
        | inr e ↦ (_, refl, refl, rw (e, enqueue) (ground (arith, ==_refl r.id, eq_refl kind)))
      ]

-- A move, and then the next job, for the incident as it was seen.
move_and_queue :
    (w : World) (r seen : Incident) (to : State) (me : String) (reason : Reason) (wanted : Bool)
    (kind : String) (db : Db)
    → get r.id db ≡ some r
    → check_transition r.state to ≡ none
    → (db' : Db) × ((transition w r.id r.state to r.version me reason
            >> enqueue_if wanted w seen kind)
          db
        ≡ done tt db')
      × (get r.id db' ≡ some (moved w.now to r))
      × Queued wanted seen.id kind db'.queue
unfolding get
move_and_queue w r seen to me reason false kind db g legal =
    let (run, after) = transition_moves w r to me reason db g legal in
    (after_move w r r.state to me reason db, rw (run, ◌>>=◌) refl, after, tt)
move_and_queue w r seen to me reason true kind db g legal =
    let (run, after) = transition_moves w r to me reason db g legal in
    let (db', then', same, queued) =
      enqueue_next-Queued w seen kind (after_move w r r.state to me reason db) in
    (db', rw (run, ◌>>=◌) then', rw same after, queued)

move_from :
    (w : World) (r : Incident) (from to : State) (me : String) (reason : Reason) (db : Db)
    → get r.id db ≡ some r
    → r.state ≡ from
    → check_transition from to ≡ none
    → (db' : Db) × (transition w r.id from to r.version me reason db ≡ done (suc r.version) db')
      × (get r.id db' ≡ some (moved w.now to r))
move_from w r from to me reason db g s legal =
    let (run, after) = transition_moves w r to me reason db g (rw s legal) in
    let db' = after_move w r r.state to me reason db in
    (
      db',
      subst (λ f. transition w r.id f to r.version me reason db ≡ done (suc r.version) db') s run,
      after,
    )

-- By its id, as a job names it.
by_id :
    (id : ℕ) (db db' : Db) (r r' : Incident)
    → get id db ≡ some r
    → get r.id db' ≡ some r'
    → get id db' ≡ some r'
by_id id db db' r r' g h = subst (λ k. get k db' ≡ some r') (get_id id db r g) h

-- Triage of a received incident by a worker that owns the job succeeds: the incident is triaged, and,
-- if incidents are investigated automatically, its investigate job is in the queue. Whatever then
-- happens to the jobs table: a rerun that owns the job succeeds and changes nothing, and an attempt
-- that lost its lease is refused.
pub triage-Queued :
    (w w' : World) (auto : Auto) (me me' : String) (job rerun lost : Job) (id : ℕ) (r : Incident)
    (db : Db) (q : Queue)
    → Holds job id db.queue
    → Holds rerun id q
    → lost.incident_id ≡ some id
    → assert_fence lost q ≡ Owned.lease_lost
    → get id db ≡ some r
    → r.state ≡ received
    → (db' : Db) × (triage w auto me job db ≡ done tt db')
      × In triaged id db'
      × Queued auto.investigate id "investigate" db'.queue
      × (triage w' auto me' rerun (with_jobs q db') ≡ done tt (with_jobs q db'))
      × (triage w' auto me' lost (with_jobs q db') ≡ raised Failure.lease_lost)
unfolding triage get
triage-Queued w w' auto me me' job rerun lost id r db q held again li gone g s =
    let is : r.id ≡ id = get_id id db r g in
    let found : get r.id db ≡ some r = subst (λ k. get k db ≡ some r) (sym is) g in
    let (db', run, after, queued) =
      move_and_queue w r r triaged me (plain "accepted for investigation") auto.investigate
        "investigate" db found (rw s refl) in
    let after' = by_id id db db' r (moved w.now triaged r) g after in
    (
      db',
      triage-owned w auto me job id db held ∙ rw (g, s) (rw s at run),
      (moved w.now triaged r, after', refl),
      subst (λ k. Queued auto.investigate k "investigate" db'.queue) is queued,
      triage-owned w' auto me' rerun id (with_jobs q db') again ∙ rw after' refl,
      ap (λ o. triage_for w' auto me' lost o (with_jobs q db')) li
          ∙ transaction-lost lost _ (with_jobs q db') gone,
    )

-- How an investigation leaves its incident.
abbrev pub Concluded : Auto → Jobs.Outcome → ℕ → Db → Type 0
Concluded auto o id db = elim o.escalate [
  | some why ↦ In escalated id db
  | none ↦ elim o.diagnosis [
    | none ↦ In escalated id db
    | some cause ↦ In diagnosed id db × Queued auto.remediate id "plan" db.queue
  ]
]

-- The first transaction of the investigate job, on a triaged incident.
begin-started :
    (w : World) (me : String) (job : Job) (id : ℕ) (r : Incident) (db : Db)
    → Holds job id db.queue
    → get id db ≡ some r
    → r.state ≡ triaged
    → (db' : Db) × (begin_investigation w me job db ≡ done (some (r, suc r.version)) db')
      × (get id db' ≡ some (moved w.now investigating r))
unfolding check_transition
begin-started w me job id r db held g s =
    let is : r.id ≡ id = get_id id db r g in
    let found : get r.id db ≡ some r = subst (λ k. get k db ≡ some r) (sym is) g in
    let (db', run, after) =
      move_from w r triaged investigating me (plain "investigation started") db found s refl in
    (
      db',
      begin-owned w me job id db held ∙ rw (g, s) (rw (run, ◌>>=◌) refl),
      by_id id db db' r (moved w.now investigating r) g after,
    )

-- The same on an incident that is being investigated.
begin-resumed :
    (w : World) (me : String) (job : Job) (id : ℕ) (r : Incident) (db : Db)
    → Holds job id db.queue
    → get id db ≡ some r
    → r.state ≡ investigating
    → begin_investigation w me job db ≡ done (some (r, r.version)) db
begin-resumed w me job id r db held g s = begin-owned w me job id db held ∙ rw (g, s) refl

-- The last transaction of the investigate job, on an incident that is as the job left it.
conclude-Concluded :
    (w : World) (auto : Auto) (me : String) (job : Job) (r : Incident) (now : ℕ) (o : Jobs.Outcome)
    (db : Db)
    → assert_fence job db.queue ≡ ok tt
    → get r.id db ≡ some (moved now investigating r)
    → (db' : Db) × (conclude_investigation w auto me job
          (moved now investigating r)
          (suc r.version)
          o
          db
        ≡ done tt db')
      × Concluded auto o r.id db'
unfolding conclude_investigation transaction
conclude-Concluded w auto me job r now o db held g =
    let (db', run, left) = by_outcome o.escalate o.diagnosis in
    (db', rw (held, conclude_investigation, transaction) run, left)
  where
    y : Incident
    y = moved now investigating r

    escalates :
        (why : String)
        → (db' : Db) × ((transition w y.id investigating escalated y.version me
                  (plain (clip 500 why))
                >> pure tt)
              db
            ≡ done tt db')
          × In escalated r.id db'
    escalates why =
        let (db', run, after) =
          move_from w y investigating escalated me (plain (clip 500 why)) db g refl refl in
        (db', rw (run, ◌>>=◌) refl, (moved w.now escalated y, after, refl))

    by_outcome :
        (escalate diagnosis : Option String)
        → (db' : Db) × (conclude_as w auto me y (suc r.version) escalate diagnosis db ≡ done tt db')
          × Concluded auto (record { diagnosis = diagnosis; escalate = escalate }) r.id db'
    by_outcome (some why) diagnosis = escalates (escalate_reason (some why))
    by_outcome none none = escalates (escalate_reason none)
    by_outcome none (some cause) =
        let (db', run, after, queued) =
          move_and_queue w y y diagnosed me (plain (clip 500 cause)) auto.remediate "plan" db g
            refl in
        (db', run, ((moved w.now diagnosed y, after, refl), queued))

-- Past the investigation there is nothing to begin.
past-begin :
    (w : World) (me : String) (job : Job) (id : ℕ) (db : Db) (to : State)
    → Holds job id db.queue
    → same_state to triaged ≡ false
    → same_state to investigating ≡ false
    → In to id db
    → begin_investigation w me job db ≡ done none db
past-begin w me job id db to held a b (r, g, s) =
    begin-owned w me job id db held ∙ rw (g, s, a, b) refl

Concluded-begin :
    (w : World) (auto : Auto) (me : String) (job : Job) (id : ℕ) (o : Jobs.Outcome) (q : Queue)
    (db : Db)
    → Holds job id q
    → Concluded auto o id db
    → begin_investigation w me job (with_jobs q db) ≡ done none (with_jobs q db)
unfolding get
Concluded-begin w auto me job id o q db held c = by_outcome o.escalate o.diagnosis c
  where
    by_outcome :
        (escalate diagnosis : Option String)
        → Concluded auto (record { diagnosis = diagnosis; escalate = escalate }) id db
        → begin_investigation w me job (with_jobs q db) ≡ done none (with_jobs q db)
    by_outcome (some why) diagnosis c =
        past-begin w me job id (with_jobs q db) escalated held refl refl c
    by_outcome none none c = past-begin w me job id (with_jobs q db) escalated held refl refl c
    by_outcome none (some cause) c =
        past-begin w me job id (with_jobs q db) diagnosed held refl refl c.0

-- An investigation of a triaged incident survives a crash of its job, or the loss of its lease, between
-- its transactions, whatever happens to the jobs table in between. The first transaction succeeds for
-- a worker that owns the job. Once another attempt owns it, that attempt finds the same incident at the
-- same version and changes nothing, while the first attempt can no longer conclude. The new attempt's
-- last transaction succeeds, whatever the agents found; the incident is then diagnosed, with its plan
-- job queued if repairs are automatic, or escalated, as the outcome says; and an attempt that owns the
-- job after that has nothing to do.
pub investigation_resumes :
    (w w' w'' : World) (auto : Auto) (me me' me'' : String) (job job' job'' : Job) (id : ℕ)
    (r : Incident) (o : Jobs.Outcome) (db : Db) (q' q'' : Queue)
    → Holds job id db.queue
    → Holds job' id q'
    → assert_fence job q' ≡ Owned.lease_lost
    → Holds job'' id q''
    → get id db ≡ some r
    → r.state ≡ triaged
    → (mid : Db) × (begin_investigation w me job db ≡ done (some (r, suc r.version)) mid)
      × (begin_investigation w' me' job' (with_jobs q' mid)
          ≡ done (some (moved w.now investigating r, suc r.version)) (with_jobs q' mid))
      × (conclude_investigation w' auto me job r (suc r.version) o (with_jobs q' mid)
          ≡ raised Failure.lease_lost)
      × (db' : Db) × (conclude_investigation w' auto me' job'
            (moved w.now investigating r)
            (suc r.version)
            o
            (with_jobs q' mid)
          ≡ done tt db')
      × Concluded auto o id db'
      × (begin_investigation w'' me'' job'' (with_jobs q'' db') ≡ done none (with_jobs q'' db'))
unfolding get conclude_investigation transaction
investigation_resumes w w' w'' auto me me' me'' job job' job'' id r o db q' q'' held held' gone
      held'' g s =
    let (mid, run, at) = begin-started w me job id r db held g s in
    let is : r.id ≡ id = get_id id db r g in
    let found : get r.id mid ≡ some (moved w.now investigating r) =
      subst (λ k. get k mid ≡ some (moved w.now investigating r)) (sym is) at in
    let (db', ends, left) =
      conclude-Concluded w' auto me' job' r w.now o (with_jobs q' mid) held'.1 found in
    let left' : Concluded auto o id db' = subst (λ k. Concluded auto o k db') is left in
    (
      mid,
      run,
      begin-resumed w' me' job' id (moved w.now investigating r) (with_jobs q' mid) held' at refl,
      rw (gone, conclude_investigation, transaction) refl,
      db',
      ends,
      left',
      Concluded-begin w'' auto me'' job'' id o q'' db' held'' left',
    )
