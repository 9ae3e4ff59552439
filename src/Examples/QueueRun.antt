-- ===== src/Examples/QueueRun.antt =====
-- A run of the jobs table: one job is enqueued, claimed, its lease expires, and it is claimed again.
use sre_blackboard.Common.{
  ℕ, ◌+◌, ◌*◌, ◌/◌, ◌≤◌, ◌<◌, ◌≡◌, refl, Bool, true, false, none, some, [], arith, Among, first,
  update_where,
}
use sre_blackboard.Queue.{
  Queue, JobRow, Job, NewJob, plan_key, Status, queued, ok, lease_lost, enqueue, claim, next_job,
  first_in_line, comes_before, runnable, eligible, reap, expired, complete, update_owned, owns,
  fail,
}
use sre_blackboard.Queue.Step.{Reach, enqueues, claims, reaps, here, next}
use sre_blackboard.Queue.Invariant.{IsValid, Reach-IsValid}
use sre_blackboard.Queue.Fencing.{Later, Reach-Later}
use sre_blackboard.Queue.Exclusive.{LockedOut, Claimed, claimed, claim_twice-LockedOut}
use sre_blackboard.Queue.Ended.{Ended, completed, Ended-LockedOut}
use sre_blackboard.Queue.Fairness.{claim_no_starvation}

abbrev pub plan_job : NewJob
plan_job = record {
  tenant_id = "acme";
  incident_id = some 7;
  kind = "execute";
  plan_id = some 4;
  idempotency_key = some (plan_key 4 "execute");
  priority = 1;
  max_attempts = 3;
  aging_step = 60;
  delay = 0;
}

abbrev pub no_jobs : Queue
no_jobs = record { rows = []; next_id = 1 }

abbrev pub free : ℕ → Bool
free k = false

abbrev pub one_job : Queue
one_job = (enqueue 100 plan_job no_jobs).1

abbrev run : Queue → ℕ → Queue
run q now = (claim now "worker-1" 30 3 none free q).1

abbrev pub leased_job : Queue
leased_job = run one_job 200

abbrev pub reaped_job : Queue
reaped_job = (reap 300 free leased_job).1

abbrev again : Queue
again = run reaped_job 310

abbrev job_with : ℕ → ℕ → ℕ → Job
job_with attempts fence waited = record {
  id = 1;
  tenant_id = "acme";
  incident_id = some 7;
  kind = "execute";
  plan_id = some 4;
  priority = 1;
  attempts = attempts;
  max_attempts = 3;
  fence = fence;
  lease_owner = "worker-1";
  waited = waited;
}

abbrev pub first_claim : Job
first_claim = job_with 1 1 100

abbrev pub second_claim : Job
second_claim = job_with 2 2 210

no_jobs-IsValid : IsValid 60 no_jobs
no_jobs-IsValid = record { fresh = tt; each = tt; keys = tt }

to_one_job : Reach 60 no_jobs one_job
to_one_job = next here (enqueues 100 plan_job (omega arith) refl)

to_leased : Reach 60 no_jobs leased_job
to_leased = next to_one_job (claims 200 "worker-1" 30 3 none free)

pub one_job-IsValid : IsValid 60 one_job
one_job-IsValid = Reach-IsValid no_jobs-IsValid to_one_job

leased_job-IsValid : IsValid 60 leased_job
leased_job-IsValid = Reach-IsValid no_jobs-IsValid to_leased

pub claims_it : Claimed one_job first_claim leased_job
unfolding claim next_job first_in_line comes_before runnable enqueue update_where
claims_it = claimed 200 "worker-1" 30 3 none free refl

claims_again : Claimed reaped_job second_claim again
unfolding claim next_job first_in_line comes_before runnable enqueue update_where reap expired
claims_again = claimed 310 "worker-1" 30 3 none free refl

Reach-IsValid_example : IsValid 60 leased_job
Reach-IsValid_example = Reach-IsValid no_jobs-IsValid to_leased

Reach-Later_example : Later one_job leased_job
Reach-Later_example = Reach-Later one_job-IsValid (next here (claims 200 "worker-1" 30 3 none free))

claim_twice-LockedOut_example : (1 < 2) × LockedOut first_claim again
claim_twice-LockedOut_example =
    claim_twice-LockedOut first_claim second_claim one_job-IsValid claims_it
      (next here (reaps 300 free)) claims_again refl here

abbrev finished : Queue
finished = record leased_job {
  rows =
      update_where (owns first_claim)
        (λ r. record r {
          status = Status.done;
          last_error = none;
          lease_owner = none;
          lease_until = none;
          updated_at = 220;
        })
        leased_job.rows;
}

ends_it : Ended leased_job first_claim finished
unfolding claim next_job first_in_line comes_before runnable enqueue update_where complete
    update_owned owns
ends_it = completed 220 refl

Ended-LockedOut_example : LockedOut first_claim finished
Ended-LockedOut_example = Ended-LockedOut first_claim leased_job-IsValid ends_it here

claims_first : (claim 200 "worker-1" 30 3 none free one_job).0 ≡ some first_claim
unfolding claim next_job first_in_line comes_before runnable enqueue update_where
claims_first = refl

claims_nothing : (claim 200 "worker-1" 30 3 none free no_jobs).0 ≡ none
unfolding claim next_job first_in_line
claims_nothing = refl

abbrev waiting_row : JobRow
waiting_row = record {
  id = 1;
  tenant_id = "acme";
  incident_id = some 7;
  kind = "execute";
  plan_id = some 4;
  idempotency_key = some (plan_key 4 "execute");
  priority = 1;
  status = queued;
  attempts = 0;
  max_attempts = 3;
  sort_key = 160;
  run_after = 100;
  lease_owner = none;
  lease_until = none;
  fence = 0;
  last_error = none;
  enqueued_at = 100;
  updated_at = 100;
}

waits_first : Among waiting_row one_job.rows
unfolding enqueue
waits_first = first refl

may_run : eligible 200 3 none free waiting_row ≡ true
unfolding runnable
may_run = refl

claim_no_starvation_example :
    (a : JobRow) × Among a one_job.rows
    × (a.id ≡ first_claim.id)
    × (a.enqueued_at + a.priority * 60 ≤ waiting_row.enqueued_at + waiting_row.priority * 60)
claim_no_starvation_example =
    claim_no_starvation 60 200 "worker-1" 30 3 none free one_job first_claim waiting_row
      one_job-IsValid waits_first may_run claims_first

abbrev half : ℕ → ℕ
half n = n / 2

abbrev after_fail : Queue
after_fail = elim (fail 210 half 2 300 first_claim "timeout" true leased_job) [
  | ok p ↦ p.1
  | lease_lost ↦ leased_job
]

fails_it : fail 210 half 2 300 first_claim "timeout" true leased_job ≡ ok (queued, after_fail)
unfolding claim next_job first_in_line comes_before runnable enqueue update_where fail update_owned
    owns
fails_it = refl
