-- ===== src/Examples/Pipeline.antt =====
-- Small runs of an incident's jobs.
use sre_blackboard.Common.{ℕ, ◌≡◌, refl, true, none, some, [], ◌∷◌, find_where}
use sre_blackboard.Incident.State.{received, triaged, investigating}
use sre_blackboard.Incident.Table.{Incident}
use sre_blackboard.Queue.{Job, JobRow, Queue, running, assert_fence, owns}
use sre_blackboard.Database.{Db, Failure, done, raised, get, moved}
use sre_blackboard.Worker.Pipeline as Jobs
use sre_blackboard.Worker.Pipeline.{Auto, triage, begin_investigation, conclude_investigation}
use sre_blackboard.Worker.Pipeline.Resumed.{
  Queued, In, Concluded, triage-Queued, investigation_resumes,
}
use sre_blackboard.Examples.Checkout.{world, incident_at, database, execute_job}

abbrev automatic : Auto
automatic = record { investigate = true; remediate = true }

abbrev triage_job : Job
triage_job = record execute_job { kind = "triage"; plan_id = none }

abbrev found_cause : Jobs.Outcome
found_cause = record { diagnosis = some "checkout: out of memory"; escalate = none }

-- The first attempt's lease ran out, and the second attempt holds the job; then the third.
abbrev job_at : ℕ → Job
job_at fence = record triage_job { id = 1; fence = fence }

abbrev held_at : ℕ → Queue
held_at fence = record { rows = row ∷ []; next_id = 2 }
  where
    row : JobRow
    row = record {
      id = 1;
      tenant_id = "acme";
      incident_id = some 7;
      kind = "triage";
      plan_id = none;
      idempotency_key = none;
      priority = 1;
      status = running;
      attempts = 1;
      max_attempts = 5;
      sort_key = 0;
      run_after = 0;
      lease_owner = some "worker";
      lease_until = some 9000;
      fence = fence;
      last_error = none;
      enqueued_at = 0;
      updated_at = 0;
    }

abbrev with_queue : Queue → Db → Db
with_queue q db = record db { queue = q }

abbrev received_db : Db
received_db = with_queue (held_at 1) (database (incident_at received 1))

abbrev triaged_db : Db
triaged_db = with_queue (held_at 1) (database (incident_at triaged 2))

triage-Queued_example :
    (db' : Db) × (triage world automatic "worker:a" (job_at 1) received_db ≡ done tt db')
    × In triaged 7 db'
    × Queued true 7 "investigate" db'.queue
    × (triage world automatic "worker:b" (job_at 2) (with_queue (held_at 2) db')
        ≡ done tt (with_queue (held_at 2) db'))
    × (triage world automatic "worker:b" (job_at 1) (with_queue (held_at 2) db')
        ≡ raised Failure.lease_lost)
unfolding get find_where assert_fence owns
triage-Queued_example =
    triage-Queued world world automatic "worker:a" "worker:b" (job_at 1) (job_at 2) (job_at 1) 7
      (incident_at received 1) received_db (held_at 2) (refl, refl) (refl, refl) refl refl refl refl

abbrev resumed : Incident
resumed = moved 1000 investigating (incident_at triaged 2)

investigation_resumes_example :
    (mid : Db) × (begin_investigation world "worker:a" (job_at 1) triaged_db
      ≡ done (some (incident_at triaged 2, 3)) mid)
    × (begin_investigation world "worker:b" (job_at 2) (with_queue (held_at 2) mid)
        ≡ done (some (resumed, 3)) (with_queue (held_at 2) mid))
    × (conclude_investigation world automatic "worker:a"
          (job_at 1)
          (incident_at triaged 2)
          3
          found_cause
          (with_queue (held_at 2) mid)
        ≡ raised Failure.lease_lost)
    × (db' : Db) × (conclude_investigation world automatic "worker:b"
          (job_at 2)
          resumed
          3
          found_cause
          (with_queue (held_at 2) mid)
        ≡ done tt db')
    × Concluded automatic found_cause 7 db'
    × (begin_investigation world "worker:c" (job_at 3) (with_queue (held_at 3) db')
        ≡ done none (with_queue (held_at 3) db'))
unfolding get find_where assert_fence owns
investigation_resumes_example =
    investigation_resumes world world world automatic "worker:a" "worker:b" "worker:c" (job_at 1)
      (job_at 2) (job_at 3) 7 (incident_at triaged 2) found_cause triaged_db (held_at 2) (held_at 3)
      (refl, refl) (refl, refl) refl (refl, refl) refl refl
