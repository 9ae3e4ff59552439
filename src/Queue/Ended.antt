-- ===== src/Queue/Ended.antt =====
-- A run ends once: what completing, failing or releasing a job leaves to its owner.
use sre_blackboard.Common.{
  ℕ, ◌≡◌, refl, String, Bool, some, arith, find_by-Among, find_by-update_where, update_where,
  any-Among, ◌∙◌, ap,
}
use sre_blackboard.Queue.{
  Queue, JobRow, Job, Status, running, ok, complete, fail, fail_row, backoff_delay, release,
  update_owned, owns,
}
use sre_blackboard.Queue.Owner.{update_owned-eq}
use sre_blackboard.Queue.Step.{Step, Reach, completes, fails, releases}
use sre_blackboard.Queue.Invariant.{IsValid, Step-IsValid}
use sre_blackboard.Queue.Fencing.{row}
use sre_blackboard.Queue.Exclusive.{Passed, LockedOut, Reach-LockedOut, owns-id, owns-fence}

-- The owner's row, after an update that ends the run and keeps the fence.
owned-Passed :
    {aging : ℕ} (j : Job) (f : JobRow → JobRow) {q q' : Queue}
    → ((r : JobRow) → (f r).id ≡ r.id)
    → ((r : JobRow) → (f r).fence ≡ r.fence)
    → ((r : JobRow) → (f r).status ≡ running → ⊥)
    → IsValid aging q
    → update_owned j f q ≡ ok q'
    → Passed j (row q' j.id)
unfolding update_owned
owned-Passed j f {q} {q'} ids fences ends v e =
    let (a, m, o) = any-Among (owns j) q.rows (ground arith) in
    let found : row q a.id ≡ some a = find_by-Among _ q.next_id q.rows v.fresh m in
    let left : q'.rows ≡ update_where (owns j) f q.rows =
      ap (λ (r : Queue). r.rows) (update_owned-eq j f q q' e) in
    let after : row q' a.id ≡ some (f a) =
      rw left (find_by-update_where _ (owns j) f a.id ids q.rows ∙ rw (found, o)) in
    rw (← owns-id j a o, after) (omega (arith, fences a, owns-fence j a o), λ _ run. ends a run)

complete-Passed :
    {aging : ℕ} (now : ℕ) (j : Job) {q q' : Queue}
    → IsValid aging q
    → complete now j q ≡ ok q'
    → Passed j (row q' j.id)
unfolding complete
complete-Passed now j v e = owned-Passed j _ (λ r. refl) (λ r. refl) (λ r h. cc) v e

release-Passed :
    {aging : ℕ} (now : ℕ) (j : Job) {q q' : Queue}
    → IsValid aging q
    → release now j q ≡ ok q'
    → Passed j (row q' j.id)
unfolding release
release-Passed now j v e = owned-Passed j _ (λ r. refl) (λ r. refl) (λ r h. cc) v e

fail-Passed :
    {aging : ℕ} (now : ℕ) (draw : ℕ → ℕ) (base max_delay : ℕ) (j : Job) (error : String)
    (retryable : Bool) {q q' : Queue} {s : Status}
    → IsValid aging q
    → fail now draw base max_delay j error retryable q ≡ ok (s, q')
    → Passed j (row q' j.id)
unfolding fail update_owned
fail-Passed now draw base max_delay j error retryable {q} {q'} v e =
    owned-Passed j (fail_row now retryable (backoff_delay draw base max_delay j.attempts) error)
      {q = q} {q' = q'} (λ r. refl) (λ r. refl) (λ r h. ground arith) v (ground arith)

-- One way in which a run ends: completed, failed or given back.
pub data Ended (q : Queue) (j : Job) (q' : Queue) : Type 0 where
  completed : (now : ℕ) → complete now j q ≡ ok q' → Ended q j q'
  released : (now : ℕ) → release now j q ≡ ok q' → Ended q j q'
  failed :
      (now : ℕ) (draw : ℕ → ℕ) (base max_delay : ℕ) (error : String) (retryable : Bool) (s : Status)
      → fail now draw base max_delay j error retryable q ≡ ok (s, q')
      → Ended q j q'

Ended-Passed :
    {aging : ℕ} {q q' : Queue} {j : Job} → IsValid aging q → Ended q j q' → Passed j (row q' j.id)
Ended-Passed {j = j} v (completed now e) = complete-Passed now j v e
Ended-Passed {j = j} v (released now e) = release-Passed now j v e
Ended-Passed {j = j} v (failed now draw base max_delay error retryable s e) =
    fail-Passed now draw base max_delay j error retryable v e

Ended-Step : {aging : ℕ} {q q' : Queue} {j : Job} → Ended q j q' → Step aging q q'
Ended-Step {q' = q'} {j = j} (completed now e) = completes now j q' e
Ended-Step {q' = q'} {j = j} (released now e) = releases now j q' e
Ended-Step {q' = q'} {j = j} (failed now draw base max_delay error retryable s e) =
    fails now draw base max_delay j error retryable s q' e

-- A run ends once: after a completion, a failure or a release was accepted, every further statement
-- with the same fence is refused, whatever happens in between.
pub Ended-LockedOut :
    {aging : ℕ} {q q' r : Queue} (j : Job)
    → IsValid aging q
    → Ended q j q'
    → Reach aging q' r
    → LockedOut j r
Ended-LockedOut j v e rs = Reach-LockedOut j (Step-IsValid (Ended-Step e) v) (Ended-Passed v e) rs
