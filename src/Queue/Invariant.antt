-- ===== src/Queue/Invariant.antt =====
-- What holds of the jobs table between any two statements.
use sre_blackboard.Common.{
  ℕ, ◌+◌, ◌*◌, ◌≤◌, ◌<◌, ◌≡◌, refl, ap, inl, inr, String, Bool, true, false, Option, none, some,
  List, [], ◌∷◌, arith, All, Fresh, any, update_where, update_where-All, update_where-Fresh,
  Bool-cases, Option-cases, subst, sym, Among, Fresh-unique, update_where-All_with, ◌==◌,
}
use sre_blackboard.Queue.{
  Queue, JobRow, Job, JobKey, NewJob, Status, queued, running, ok, is_running, enqueue, claim,
  next_job, heartbeat, complete, fail, fail_row, release, reap, reap_row, expired, update_owned,
  owns, lease, key_conflict, backoff_delay,
}
use sre_blackboard.Queue.Line.{next_job-Among, runnable-queued}
use sre_blackboard.Queue.Owner.{owns-running, update_owned-eq}
use sre_blackboard.Queue.Step.{
  Step, Reach, enqueues, claims, heartbeats, completes, fails, releases, reaps, here, next,
}

abbrev pub leased : JobRow → Bool
leased r = elim r.lease_owner [
  | none ↦ false
  | some o ↦ elim r.lease_until [ none ↦ false | some t ↦ true ]
]

pub record RowIsValid (aging : ℕ) (r : JobRow) : Type 0 where
  pub within : r.attempts ≤ r.max_attempts
  pub waits : r.status ≡ queued → r.attempts < r.max_attempts
  pub started : r.status ≡ running → 0 < r.attempts
  pub counted : r.attempts ≤ r.fence
  pub leased_iff : leased r ≡ is_running r.status
  pub in_line : r.sort_key ≡ r.enqueued_at + r.priority * aging

-- No row has the idempotency key of a row behind it.
abbrev pub KeysDistinct : List JobRow → Type 0
KeysDistinct [] = Unit
KeysDistinct (r ∷ rs) =
    (any (λ x. key_conflict r.idempotency_key x.idempotency_key) rs ≡ false) × KeysDistinct rs

pub record IsValid (aging : ℕ) (q : Queue) : Type 0 where
  pub fresh : Fresh (λ r. r.id) q.next_id q.rows
  pub each : All (RowIsValid aging) q.rows
  pub keys : KeysDistinct q.rows

-- An update that keeps ids and keys, and each row's validity where it applies.
module _ (aging : ℕ) (p : JobRow → Bool) (f : JobRow → JobRow)
    (same_id : (r : JobRow) → (f r).id ≡ r.id)
    (same_key : (r : JobRow) → (f r).idempotency_key ≡ r.idempotency_key) where
  any_conflict-update_where :
      (k : Option JobKey) (rs : List JobRow)
      → any (λ x. key_conflict k x.idempotency_key) (update_where p f rs)
        ≡ any (λ x. key_conflict k x.idempotency_key) rs
  unfolding update_where
  any_conflict-update_where k [] = refl
  any_conflict-update_where k (x ∷ xs) = elim (Bool-cases (p x)) [
    | inl e ↦ rw (e, same_key x, any_conflict-update_where k xs)
    | inr e ↦ rw (e, any_conflict-update_where k xs)
  ]

  keys_update : (rs : List JobRow) → KeysDistinct rs → KeysDistinct (update_where p f rs)
  unfolding update_where
  keys_update [] h = tt
  keys_update (r ∷ rs) h = elim (Bool-cases (p r)) [
    | inl e ↦
        rw (e, same_key r, any_conflict-update_where r.idempotency_key rs) (h.0, keys_update rs h.1)
    | inr e ↦ rw (e, any_conflict-update_where r.idempotency_key rs) (h.0, keys_update rs h.1)
  ]

  pub update-IsValid :
      (q : Queue)
      → ((r : JobRow) → p r ≡ true → RowIsValid aging r → RowIsValid aging (f r))
      → IsValid aging q
      → IsValid aging (record q { rows = update_where p f q.rows })
  update-IsValid q step v = record {
    fresh = update_where-Fresh (λ r. r.id) p f same_id q.next_id q.rows v.fresh;
    each = update_where-All (RowIsValid aging) p f step q.rows v.each;
    keys = keys_update q.rows v.keys;
  }

enqueue-IsValid :
    (aging now : ℕ) (j : NewJob) (q : Queue)
    → 0 < j.max_attempts
    → j.aging_step ≡ aging
    → IsValid aging q
    → IsValid aging (enqueue now j q).1
unfolding enqueue
enqueue-IsValid aging now j q h e v = ground arith

leased-IsValid :
    (aging now : ℕ) (owner : String) (ttl : ℕ) (q : Queue) (r : JobRow)
    → Among r q.rows
    → r.status ≡ queued
    → IsValid aging q
    → IsValid aging
        (record q { rows = update_where (λ x. x.id == r.id) (lease owner now ttl) q.rows })
leased-IsValid aging now owner ttl q r m h v = record {
  fresh = update_where-Fresh (λ x. x.id) _ _ (λ x. refl) q.next_id q.rows v.fresh;
  each =
      update_where-All_with (RowIsValid aging) (λ x. x.id ≡ r.id → x ≡ r) _ (lease owner now ttl)
        (λ x e same w.
          let waiting : x.status ≡ r.status = ap (λ (y : JobRow). y.status) (same (ground arith)) in
          ground arith)
        q.rows (Fresh-unique (λ x. x.id) q.next_id q.rows v.fresh m) v.each;
  keys =
      keys_update aging (λ x. x.id == r.id) (lease owner now ttl) (λ x. refl) (λ x. refl) q.rows
        v.keys;
}

claim-IsValid :
    (aging now : ℕ) (owner : String) (ttl max_priority : ℕ) (kinds : Option (List String))
    (held : ℕ → Bool) (q : Queue)
    → IsValid aging q
    → IsValid aging (claim now owner ttl max_priority kinds held q).1
unfolding claim
claim-IsValid aging now owner ttl max_priority kinds held q v =
    elim (Option-cases (next_job now max_priority kinds held q)) [
      | inl e ↦ rw (e, claim) v
      | inr (r, e) ↦
          let (m, fits, _) = next_job-Among now max_priority kinds held q e in
          rw (e, claim)
            (leased-IsValid aging now owner ttl q r m
              (runnable-queued now max_priority kinds r fits) v)
    ]

owned-IsValid :
    (aging : ℕ) (j : Job) (f : JobRow → JobRow) (q q' : Queue)
    → ((r : JobRow) → (f r).id ≡ r.id)
    → ((r : JobRow) → (f r).idempotency_key ≡ r.idempotency_key)
    → ((r : JobRow) → r.status ≡ running → RowIsValid aging r → RowIsValid aging (f r))
    → update_owned j f q ≡ ok q'
    → IsValid aging q
    → IsValid aging q'
owned-IsValid aging j f q q' ids ks step e v =
    subst (IsValid aging) (sym (update_owned-eq j f q q' e))
      (update-IsValid aging (owns j) f ids ks q (λ r o w. step r (owns-running j r o) w) v)

complete-IsValid :
    (aging now : ℕ) (j : Job) (q q' : Queue)
    → complete now j q ≡ ok q'
    → IsValid aging q
    → IsValid aging q'
unfolding complete
complete-IsValid aging now j q q' e v =
    owned-IsValid aging j _ q q' (λ r. refl) (λ r. refl) (λ r h w. ground arith) e v

release-IsValid :
    (aging now : ℕ) (j : Job) (q q' : Queue)
    → release now j q ≡ ok q'
    → IsValid aging q
    → IsValid aging q'
unfolding release
release-IsValid aging now j q q' e v =
    owned-IsValid aging j _ q q' (λ r. refl) (λ r. refl) (λ r h w. ground arith) e v

heartbeat-IsValid :
    (aging now ttl : ℕ) (j : Job) (q : Queue)
    → IsValid aging q
    → IsValid aging (heartbeat now ttl j q).1
unfolding heartbeat update_owned
heartbeat-IsValid aging now ttl j q v = elim (Bool-cases (any (owns j) q.rows)) [
  | inl e ↦
      rw (e, heartbeat, update_owned)
        (update-IsValid aging (owns j)
          (λ r. record r { lease_until = some (now + ttl); updated_at = now }) (λ r. refl)
          (λ r. refl) q (λ r o w. let run = owns-running j r o in ground arith) v)
  | inr e ↦ rw (e, heartbeat, update_owned) v
]

fail-IsValid :
    (aging now : ℕ) (draw : ℕ → ℕ) (base max_delay : ℕ) (j : Job) (error : String)
    (retryable : Bool) (q q' : Queue) (s : Status)
    → fail now draw base max_delay j error retryable q ≡ ok (s, q')
    → IsValid aging q
    → IsValid aging q'
unfolding fail update_owned
fail-IsValid aging now draw base max_delay j error retryable q q' s e v =
    let f : JobRow → JobRow =
      fail_row now retryable (backoff_delay draw base max_delay j.attempts) error in
    owned-IsValid aging j f q q' (λ r. refl) (λ r. refl) (λ r h w. ground arith) (ground arith) v

reap-IsValid :
    (aging now : ℕ) (held : ℕ → Bool) (q : Queue)
    → IsValid aging q
    → IsValid aging (reap now held q).1
unfolding reap expired
reap-IsValid aging now held q v =
    update-IsValid aging _ (reap_row now) (λ r. refl) (λ r. refl) q (λ r e w. ground arith) v

pub Step-IsValid : {aging : ℕ} {q r : Queue} → Step aging q r → IsValid aging q → IsValid aging r
Step-IsValid {aging} {q} (enqueues now j pos same) v = enqueue-IsValid aging now j q pos same v
Step-IsValid {aging} {q} (claims now owner ttl max_priority kinds held) v =
    claim-IsValid aging now owner ttl max_priority kinds held q v
Step-IsValid {aging} {q} (heartbeats now ttl j) v = heartbeat-IsValid aging now ttl j q v
Step-IsValid {aging} {q} (completes now j q' e) v = complete-IsValid aging now j q q' e v
Step-IsValid {aging} {q} (fails now draw base max_delay j error retryable s q' e) v =
    fail-IsValid aging now draw base max_delay j error retryable q q' s e v
Step-IsValid {aging} {q} (releases now j q' e) v = release-IsValid aging now j q q' e v
Step-IsValid {aging} {q} (reaps now held) v = reap-IsValid aging now held q v

-- Whatever the processes do, the jobs table stays valid: ids and idempotency keys are unique; a
-- queued job has attempts left, and no job more attempts than it may; a job has a lease exactly
-- while it runs, and its place in line is its enqueue time plus its priority times the aging step.
pub Reach-IsValid : {aging : ℕ} {q r : Queue} → IsValid aging q → Reach aging q r → IsValid aging r
Reach-IsValid v here = v
Reach-IsValid v (next r st) = Step-IsValid st (Reach-IsValid v r)
