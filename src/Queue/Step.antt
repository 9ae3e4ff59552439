-- ===== src/Queue/Step.antt =====
-- Every statement of app/queue/jobs.py as a step on the table, by any process, at any time.
use sre_blackboard.Common.{ℕ, ◌<◌, ◌≡◌, String, Bool, Option, List}
use sre_blackboard.Queue.{
  Queue, Job, NewJob, Status, ok, enqueue, claim, heartbeat, complete, fail, release, reap,
}

-- `aging` is the setting queue_aging_step_s, which every caller of `enqueue` passes.
pub data Step (aging : ℕ) (q : Queue) : Queue → Type 0 where
  enqueues :
      (now : ℕ) (j : NewJob)
      → 0 < j.max_attempts
      → j.aging_step ≡ aging
      → Step aging q (enqueue now j q).1
  claims :
      (now : ℕ) (owner : String) (ttl max_priority : ℕ) (kinds : Option (List String))
      (held : ℕ → Bool)
      → Step aging q (claim now owner ttl max_priority kinds held q).1
  heartbeats : (now ttl : ℕ) (j : Job) → Step aging q (heartbeat now ttl j q).1
  completes : (now : ℕ) (j : Job) (q' : Queue) → complete now j q ≡ ok q' → Step aging q q'
  fails :
      (now : ℕ) (draw : ℕ → ℕ) (base max_delay : ℕ) (j : Job) (error : String) (retryable : Bool)
      (s : Status) (q' : Queue)
      → fail now draw base max_delay j error retryable q ≡ ok (s, q')
      → Step aging q q'
  releases : (now : ℕ) (j : Job) (q' : Queue) → release now j q ≡ ok q' → Step aging q q'
  reaps : (now : ℕ) (held : ℕ → Bool) → Step aging q (reap now held q).1

pub data Reach (aging : ℕ) (q : Queue) : Queue → Type 0 where
  here : Reach aging q q
  next : {r s : Queue} → Reach aging q r → Step aging r s → Reach aging q s

pub Reach-append : {aging : ℕ} {q r s : Queue} → Reach aging q r → Reach aging r s → Reach aging q s
Reach-append rs here = rs
Reach-append rs (next ss st) = next (Reach-append rs ss) st
