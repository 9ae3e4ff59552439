-- ===== src/Examples/Workers.antt =====
-- Small runs of a worker: one job takes its only slot that is not reserved, and ends.
use sre_blackboard.Common.{
  ℕ, ◌≡◌, refl, true, none, some, List, [], ◌∷◌, Among, first, arith, update_where,
}
use sre_blackboard.Queue.{
  Job, JobRow, Queue, queued, ok, eligible, runnable, claim, next_job, first_in_line, comes_before,
  enqueue, assert_fence, reap, expired, owns,
}
use sre_blackboard.Queue.Step.{here}
use sre_blackboard.Queue.Fencing.{row}
use sre_blackboard.Queue.Exclusive.{LockedOut}
use sre_blackboard.Worker.Runner.{Worker, Handler, Ending, Link, claim_next, poll, execute}
use sre_blackboard.Worker.Runner.Slots.{Turns, polls, p0_claimed}
use sre_blackboard.Worker.Runner.Crew.{Crew, claims, started, Bounded, Crew-Bounded}
use sre_blackboard.Worker.Runner.Settled.{Fenced, Says, Entries, execute-LockedOut}
use sre_blackboard.Examples.QueueRun.{
  plan_job, no_jobs, free, one_job, leased_job, reaped_job, first_claim, second_claim,
  one_job-IsValid, claims_it,
}

abbrev all_reached : Link
all_reached = record { completes = none; releases = true; fails = true }

abbrev no_draw : ℕ → ℕ
no_draw n = 0

-- A handler that fails without a write.
abbrev failing : Handler
failing j q = (Ending.failed "TimeoutError: ", q)

abbrev idle_worker : Worker
idle_worker = record {
  settings = record {
    worker_concurrency = 2;
    worker_reserved_p0_slots = 1;
    queue_lease_ttl = 30;
    queue_backoff_base = 2;
    queue_backoff_max = 300;
  };
  worker_id = "worker-1";
  handlers = ("execute", failing) ∷ [];
  in_flight = [];
}

abbrev busy_worker : Worker
busy_worker = (poll 200 true free idle_worker one_job).0

to_busy : Turns idle_worker busy_worker
to_busy = Turns.next Turns.here (polls 200 true free one_job)

abbrev busy_with : List Job
busy_with = started (claim_next 200 true free idle_worker one_job).0 []

to_busy_with : Crew idle_worker busy_worker busy_with
unfolding claim_next claim next_job first_in_line comes_before runnable enqueue
to_busy_with = claims 200 true free one_job Crew.idle tt

Crew-Bounded_example : Bounded busy_worker busy_with
Crew-Bounded_example = Crew-Bounded refl to_busy_with

abbrev urgent_jobs : Queue
urgent_jobs = (enqueue 150 (record plan_job { priority = 0 }) no_jobs).1

abbrev urgent_row : JobRow
urgent_row = record {
  id = 1;
  tenant_id = "acme";
  incident_id = some 7;
  kind = "execute";
  plan_id = some 4;
  idempotency_key = plan_job.idempotency_key;
  priority = 0;
  status = queued;
  attempts = 0;
  max_attempts = 3;
  sort_key = 150;
  run_after = 150;
  lease_owner = none;
  lease_until = none;
  fence = 0;
  last_error = none;
  enqueued_at = 150;
  updated_at = 150;
}

waits : Among urgent_row urgent_jobs.rows
unfolding enqueue
waits = first refl

may_run : eligible 210 0 (some ("execute" ∷ [])) free urgent_row ≡ true
unfolding runnable
may_run = refl

p0_claimed_example : (j : Job) × ((claim_next 210 true free busy_worker urgent_jobs).0 ≡ some j)
unfolding poll claim_next claim next_job first_in_line comes_before runnable enqueue
p0_claimed_example =
    p0_claimed 210 free urgent_jobs urgent_row refl to_busy (omega arith) (omega arith) waits
      may_run

failing-Fenced : Fenced 60 failing
failing-Fenced = record { moves = λ j q. here; honest = λ j q e. absurd (ground arith) }

-- The lease of the first attempt ran out, and the same worker claims the job again: when the first
-- attempt ends, it takes the second one's entry out of the slots, while the second runs on.
abbrev roomy_worker : Worker
roomy_worker = record idle_worker {
  settings = record idle_worker.settings { worker_concurrency = 4 };
}

abbrev twice_claimed : Worker × Queue
twice_claimed = poll 310 true free (record roomy_worker { in_flight = first_claim ∷ [] }) reaped_job

still_owned : assert_fence second_claim twice_claimed.1 ≡ ok tt
unfolding poll claim_next claim next_job first_in_line comes_before runnable enqueue reap expired
    update_where assert_fence owns
still_owned = refl

not_in_a_slot :
    (execute 320 no_draw all_reached first_claim twice_claimed.0 twice_claimed.1).0.in_flight ≡ []
unfolding poll claim_next claim next_job first_in_line comes_before runnable enqueue reap expired
    update_where execute
not_in_a_slot = refl

execute-LockedOut_example :
    LockedOut first_claim
      (execute 220 no_draw all_reached first_claim idle_worker leased_job).1.queue
    × Says
        (execute 220 no_draw all_reached first_claim idle_worker leased_job).1.outcome
        (row (execute 220 no_draw all_reached first_claim idle_worker leased_job).1.queue 1)
    × Entries
        (execute 220 no_draw all_reached first_claim idle_worker leased_job).1.outcome
        first_claim
        (execute 220 no_draw all_reached first_claim idle_worker leased_job).1.audited
execute-LockedOut_example =
    execute-LockedOut 220 no_draw all_reached first_claim idle_worker one_job-IsValid claims_it here
      (failing-Fenced, tt) refl refl here
