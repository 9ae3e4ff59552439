-- ===== src/Queue/Retry.antt =====
-- Failed runs: retried after a backoff until the attempts are used up, then dead.
use sre_blackboard.Common.{
  ℕ, ◌+◌, ◌/◌, ◌≤◌, ◌≡◌, refl, sym, ◌∙◌, inl, inr, String, Bool, true, ◌&&◌, none, some, List, [],
  ◌∷◌, arith, ltb, if◌then◌else◌, Among, any-Among, find_by-Among, find_by-update_where,
  update_where, Fresh, Bool-cases, Among-key-lt, first, later,
}
use sre_blackboard.Queue.{
  Queue, JobRow, Job, Status, queued, dead, ok, fail, fail_row, after_failure, status_of_owned,
  backoff_cap, backoff_delay, update_owned, owns,
}
use sre_blackboard.Queue.Invariant.{IsValid}
use sre_blackboard.Queue.Fencing.{row}
use sre_blackboard.Queue.Exclusive.{owns-id, owns-fence}

cap_le : (base max_delay attempt : ℕ) → backoff_cap base max_delay attempt ≤ max_delay
unfolding backoff_cap
cap_le base max_delay attempt = omega arith

-- The backoff lies between half the cap and the cap, if the draw is within its range.
pub backoff_delay_bounds :
    (draw : ℕ → ℕ) (base max_delay attempt : ℕ)
    → ((n : ℕ) → draw n ≤ n)
    → (backoff_cap base max_delay attempt / 2 ≤ backoff_delay draw base max_delay attempt)
      × (backoff_delay draw base max_delay attempt ≤ backoff_cap base max_delay attempt)
      × (backoff_cap base max_delay attempt ≤ max_delay)
unfolding backoff_delay
backoff_delay_bounds draw base max_delay attempt h =
    let cap : ℕ = backoff_cap base max_delay attempt in
    (omega arith, omega (arith, h (cap / 2)), cap_le base max_delay attempt)

status_of_owned-row :
    (j : Job) (retryable : Bool) (n : ℕ) (rs : List JobRow) (a : JobRow)
    → Fresh (λ (r : JobRow). r.id) n rs
    → Among a rs
    → owns j a ≡ true
    → status_of_owned j retryable rs ≡ after_failure retryable a
status_of_owned-row j retryable n [] a fr m o = elim m [ ]
status_of_owned-row j retryable n (x ∷ xs) a fr (first e) o = rw (e, o)
status_of_owned-row j retryable n (x ∷ xs) a fr (later m) o = elim (Bool-cases (owns j x)) [
  | inl t ↦ absurd (
      omega
        (arith, Among-key-lt (λ (r : JobRow). r.id) x.id xs fr.1 m, owns-id j x t, owns-id j a o))
  | inr f ↦ rw f (status_of_owned-row j retryable x.id xs a fr.1 m o)
]

-- What a recorded failure does to the job's row, `a` before and `b` after.
pub record Failed (now delay : ℕ) (retryable : Bool) (s : Status) (a b : JobRow) : Type 0 where
  pub status : b.status ≡ s
  pub decided : s ≡ (if retryable && ltb a.attempts a.max_attempts then queued else dead)
  pub later : b.run_after ≡ now + delay
  pub counted : b.attempts ≡ a.attempts
  pub fence : b.fence ≡ a.fence
  pub place : b.sort_key ≡ a.sort_key
  pub freed : (b.lease_owner ≡ none) × (b.lease_until ≡ none)

-- A recorded failure puts the job back in the queue exactly if the error is retryable and attempts
-- are left, and else dead-letters it; the status returned is the row's. The job keeps its place in
-- line and waits for the backoff.
pub fail-Failed :
    {aging : ℕ} (now : ℕ) (draw : ℕ → ℕ) (base max_delay : ℕ) (j : Job) (error : String)
    (retryable : Bool) (q q' : Queue) (s : Status)
    → IsValid aging q
    → fail now draw base max_delay j error retryable q ≡ ok (s, q')
    → (a : JobRow) × (row q j.id ≡ some a)
      × (a.fence ≡ j.fence)
      × (b : JobRow) × (row q' j.id ≡ some b)
      × Failed now (backoff_delay draw base max_delay j.attempts) retryable s a b
unfolding fail update_owned
fail-Failed now draw base max_delay j error retryable q q' s v e =
    let delay : ℕ = backoff_delay draw base max_delay j.attempts in
    let f : JobRow → JobRow = fail_row now retryable delay error in
    let (a, m, o) = any-Among (owns j) q.rows (ground arith) in
    let found : row q a.id ≡ some a = find_by-Among _ q.next_id q.rows v.fresh m in
    let left : q'.rows ≡ update_where (owns j) f q.rows = ground arith in
    let after : row q' a.id ≡ some (f a) =
      rw left (find_by-update_where _ (owns j) f a.id (λ r. refl) q.rows ∙ rw (found, o)) in
    let status : s ≡ after_failure retryable a =
      rw (← status_of_owned-row j retryable q.next_id q.rows a v.fresh m o) (ground arith) in
    (
      a,
      rw (← owns-id j a o) found,
      owns-fence j a o,
      f a,
      rw (← owns-id j a o) after,
      record {
        status = sym status;
        decided = status;
        later = refl;
        counted = refl;
        fence = refl;
        place = refl;
        freed = (refl, refl);
      },
    )
