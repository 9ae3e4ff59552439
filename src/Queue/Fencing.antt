-- ===== src/Queue/Fencing.antt =====
-- Fencing: what a worker that lost its lease can still write, and how a job's row may change.
use sre_blackboard.Common.{
  ℕ, ◌+◌, ◌≤◌, ◌<◌, ◌≡◌, refl, ap, inl, inr, String, Bool, true, Option, none, some, List, ◌∷◌,
  arith, any, Fresh, Among, find_by, Among-All, Fresh-unique, find_by_key, Among-find_by,
  Among-key-lt, find_by-update_where, update_where, apply_if, Bool-cases, Option-cases, ◌==◌,
}
use sre_blackboard.Queue.{
  Queue, JobRow, Job, NewJob, Status, key_conflict, fail_row, backoff_delay, queued, running, done,
  dead, ok, enqueue, claim, next_job, lease, heartbeat, complete, fail, release, reap, expired,
  update_owned, owns,
}
use sre_blackboard.Queue.Line.{next_job-Among, runnable-queued}
use sre_blackboard.Queue.Owner.{owns-running, update_owned-eq}
use sre_blackboard.Queue.Step.{
  Step, Reach, enqueues, claims, heartbeats, completes, fails, releases, reaps, here, next,
}
use sre_blackboard.Queue.Invariant.{IsValid, Reach-IsValid}

-- How a row may have changed later.
pub record RowLater (a b : JobRow) : Type 0 where
  pub fence : a.fence ≤ b.fence
  pub place : b.sort_key ≡ a.sort_key
  pub urgency : b.priority ≡ a.priority
  pub once : b.fence ≡ a.fence → b.status ≡ running → a.status ≡ running
  pub done_stays : a.status ≡ done → b.status ≡ done
  pub dead_stays : a.status ≡ dead → b.status ≡ dead

abbrev pub LaterIn : Option JobRow → Option JobRow → Type 0
LaterIn none o = Unit
LaterIn (some a) none = ⊥
LaterIn (some a) (some b) = RowLater a b

abbrev pub row : Queue → ℕ → Option JobRow
row q k = find_by (λ (r : JobRow). r.id) k q.rows

-- No row is lost, and each has changed only as `RowLater` allows.
pub record Later (q r : Queue) : Type 0 where
  pub at : (k : ℕ) → LaterIn (row q k) (row r k)

RowLater-refl : (a : JobRow) → RowLater a a
RowLater-refl a = ground arith

RowLater-trans : (a b c : JobRow) → RowLater a b → RowLater b c → RowLater a c
RowLater-trans a b c h k = ground arith

LaterIn-refl : (o : Option JobRow) → LaterIn o o
LaterIn-refl none = tt
LaterIn-refl (some a) = RowLater-refl a

LaterIn-trans : (o p s : Option JobRow) → LaterIn o p → LaterIn p s → LaterIn o s
LaterIn-trans none p s h k = tt
LaterIn-trans (some a) none s h k = absurd h
LaterIn-trans (some a) (some b) none h k = absurd k
LaterIn-trans (some a) (some b) (some c) h k = RowLater-trans a b c h k

module _ (p : JobRow → Bool) (f : JobRow → JobRow) (same_id : (r : JobRow) → (f r).id ≡ r.id) where
  apply_if-LaterIn :
      (o : Option JobRow)
      → ((x : JobRow) → o ≡ some x → p x ≡ true → RowLater x (f x))
      → LaterIn o (apply_if p f o)
  apply_if-LaterIn none step = tt
  apply_if-LaterIn (some x) step = elim (Bool-cases (p x)) [
    | inl e ↦ rw e (step x refl e)
    | inr e ↦ rw e (RowLater-refl x)
  ]

  update-Later :
      (q : Queue)
      → ((x : JobRow) → Among x q.rows → p x ≡ true → RowLater x (f x))
      → Later q (record q { rows = update_where p f q.rows })
  update-Later q step = record {
    at = λ k.
        rw (find_by-update_where (λ (r : JobRow). r.id) p f k same_id q.rows)
          (apply_if-LaterIn (row q k) (λ x e t. step x (Among-find_by _ k q.rows e) t));
  }

-- A new row takes an id that no row has.
insert-LaterIn :
    (q : Queue) (new : JobRow) (k : ℕ)
    → Fresh (λ (r : JobRow). r.id) q.next_id q.rows
    → new.id ≡ q.next_id
    → LaterIn (row q k) (find_by (λ (r : JobRow). r.id) k (new ∷ q.rows))
unfolding find_by
insert-LaterIn q new k fr e = elim (Bool-cases (new.id == k)) [
  | inr miss ↦ rw miss (LaterIn-refl (row q k))
  | inl hit ↦ elim (Option-cases (row q k)) [
    | inl none' ↦ rw none' tt
    | inr (x, found) ↦
        let at_k : x.id ≡ k = find_by_key (λ (r : JobRow). r.id) k q.rows found in
        let below : x.id < q.next_id =
          Among-key-lt (λ (r : JobRow). r.id) q.next_id q.rows fr
            (Among-find_by _ k q.rows found) in
        absurd (ground arith)
  ]
]

enqueue-Later :
    (aging now : ℕ) (j : NewJob) (q : Queue) → IsValid aging q → Later q (enqueue now j q).1
unfolding enqueue
enqueue-Later aging now j q v =
    elim (Bool-cases (any (λ r. key_conflict j.idempotency_key r.idempotency_key) q.rows)) [
      | inl e ↦ rw (e, enqueue) (record { at = λ k. LaterIn-refl (row q k) })
      | inr e ↦ rw (e, enqueue) (record { at = λ k. insert-LaterIn q _ k v.fresh refl })
    ]

leased-Later :
    (aging now : ℕ) (owner : String) (ttl : ℕ) (q : Queue) (r : JobRow)
    → Among r q.rows
    → r.status ≡ queued
    → IsValid aging q
    → Later q (record q { rows = update_where (λ x. x.id == r.id) (lease owner now ttl) q.rows })
leased-Later aging now owner ttl q r m h v =
    update-Later (λ x. x.id == r.id) (lease owner now ttl) (λ x. refl) q
      (λ x m' e.
        let ids : x.id ≡ r.id = ground arith in
        let same : x ≡ r =
          Among-All (λ (y : JobRow). y.id ≡ r.id → y ≡ r) m'
            (Fresh-unique (λ (y : JobRow). y.id) q.next_id q.rows v.fresh m) ids in
        let waiting : x.status ≡ r.status = ap (λ (y : JobRow). y.status) same in ground arith)

claim-Later :
    (aging now : ℕ) (owner : String) (ttl max_priority : ℕ) (kinds : Option (List String))
    (held : ℕ → Bool) (q : Queue)
    → IsValid aging q
    → Later q (claim now owner ttl max_priority kinds held q).1
unfolding claim
claim-Later aging now owner ttl max_priority kinds held q v =
    elim (Option-cases (next_job now max_priority kinds held q)) [
      | inl e ↦ rw (e, claim) (record { at = λ k. LaterIn-refl (row q k) })
      | inr (r, e) ↦
          let (m, fits, _) = next_job-Among now max_priority kinds held q e in
          rw (e, claim)
            (leased-Later aging now owner ttl q r m (runnable-queued now max_priority kinds r fits)
              v)
    ]

owned-Later :
    (j : Job) (f : JobRow → JobRow) (q q' : Queue)
    → ((r : JobRow) → (f r).id ≡ r.id)
    → ((r : JobRow) → r.status ≡ running → RowLater r (f r))
    → update_owned j f q ≡ ok q'
    → Later q q'
owned-Later j f q q' ids step e =
    rw (update_owned-eq j f q q' e)
      (update-Later (owns j) f ids q (λ r m o. step r (owns-running j r o)))

heartbeat-Later : (now ttl : ℕ) (j : Job) (q : Queue) → Later q (heartbeat now ttl j q).1
unfolding heartbeat update_owned
heartbeat-Later now ttl j q = elim (Bool-cases (any (owns j) q.rows)) [
  | inl e ↦
      rw (e, heartbeat, update_owned)
        (update-Later (owns j) (λ r. record r { lease_until = some (now + ttl); updated_at = now })
          (λ r. refl) q (λ r m o. ground arith))
  | inr e ↦ rw (e, heartbeat, update_owned) (record { at = λ k. LaterIn-refl (row q k) })
]

fail-Later :
    (now : ℕ) (draw : ℕ → ℕ) (base max_delay : ℕ) (j : Job) (error : String) (retryable : Bool)
    (q q' : Queue) (s : Status)
    → fail now draw base max_delay j error retryable q ≡ ok (s, q')
    → Later q q'
unfolding fail update_owned
fail-Later now draw base max_delay j error retryable q q' s e =
    owned-Later j (fail_row now retryable (backoff_delay draw base max_delay j.attempts) error) q q'
      (λ r. refl) (λ r h. ground arith) (ground arith)

Step-Later : {aging : ℕ} {q r : Queue} → Step aging q r → IsValid aging q → Later q r
unfolding complete release reap expired
Step-Later {aging} {q} (enqueues now j pos same) v = enqueue-Later aging now j q v
Step-Later {aging} {q} (claims now owner ttl max_priority kinds held) v =
    claim-Later aging now owner ttl max_priority kinds held q v
Step-Later {aging} {q} (heartbeats now ttl j) v = heartbeat-Later now ttl j q
Step-Later {aging} {q} (completes now j q' e) v =
    owned-Later j _ q q' (λ r. refl) (λ r h. ground arith) e
Step-Later {aging} {q} (fails now draw base max_delay j error retryable s q' e) v =
    fail-Later now draw base max_delay j error retryable q q' s e
Step-Later {aging} {q} (releases now j q' e) v =
    owned-Later j _ q q' (λ r. refl) (λ r h. ground arith) e
Step-Later {aging} {q} (reaps now held) v = update-Later _ _ (λ r. refl) q (λ x m e. ground arith)

-- From a valid table, whatever the processes do, no job is lost; its priority and its place in line
-- never change, its fence never falls, and done and dead jobs stay so.
pub Reach-Later : {aging : ℕ} {q r : Queue} → IsValid aging q → Reach aging q r → Later q r
Reach-Later {aging} {q} v here = record { at = λ k. LaterIn-refl (row q k) }
Reach-Later {aging} {q} v (next {r} {s} rs st) = record {
  at = λ k.
      LaterIn-trans (row q k) (row r k) (row s k) ((Reach-Later v rs).at k)
        ((Step-Later st (Reach-IsValid v rs)).at k);
}
