-- ===== src/Worker/Runner.antt =====
-- app/worker/runner.py: a worker process over the jobs table: the slots it fills, how it ends a job
-- that ran, and what it gives back when it stops. The handlers are arguments, as they are in the
-- source; a handler's run is its ending and the table it leaves. `heartbeat` and `reap` themselves
-- are in the jobs table's module.
pub mod Settled
pub mod Slots
pub mod Crew
use sre_blackboard.Common.{
  ℕ, ◌-◌, String, Bool, true, false, not, ◌&&◌, Option, none, some, List, [], ◌∷◌, map, length,
  keep, ltb, ◌==◌, str_eq, if◌then◌else◌,
}
use sre_blackboard.Queue.{Status, Job, Queue, Owned, ok, claim, complete, release, fail, reap, clip}

pub record WorkerSettings : Type 0 where
  pub worker_concurrency : ℕ
  pub worker_reserved_p0_slots : ℕ
  pub queue_lease_ttl : ℕ
  pub queue_backoff_base : ℕ
  pub queue_backoff_max : ℕ

-- How a handler's run under the time limit ends: `fence_lost` is the exception LeaseLost, `cancelled`
-- says whether the heartbeat had found the lease gone, and the errors carry their text (of the missing
-- handler's, the name of the kind is left out). An ending comes before the end of the job is written.
pub data Ending : Type 0 where
  returned fence_lost : Ending
  cancelled : Bool → Ending
  permanent failed : String → Ending

abbrev pub Handler : Type 0
Handler = Job → Queue → Ending × Queue

pub record Worker : Type 0 where
  pub settings : WorkerSettings
  pub worker_id : String
  pub handlers : List (String × Handler)
  pub in_flight : List Job  -- _running, by the job that each entry was made for; the newest first

-- Whether each transaction of `_execute` reaches the database; the first gives the error's text.
pub record Link : Type 0 where
  pub completes : Option String
  pub releases : Bool
  pub fails : Bool

pub data Result : Type 0 where
  done lease_lost released retry dead error : Result

-- The audit entry job.dead.
pub record DeadJob : Type 0 where
  pub job_id : ℕ
  pub tenant_id : String
  pub kind : String
  pub attempts : ℕ
  pub error : String

-- How an attempt ended, the table, and what was written to the audit log.
pub record Report : Type 0 where
  pub outcome : Result
  pub queue : Queue
  pub audited : List DeadJob

abbrev pub free_slots : Worker → ℕ
free_slots w = w.settings.worker_concurrency - length w.in_flight

abbrev pub max_priority : Worker → ℕ
max_priority w = if ltb w.settings.worker_reserved_p0_slots (free_slots w) then 3 else 0

abbrev pub job_kinds : Worker → List String
job_kinds w = map (λ h. h.0) w.handlers

-- `_claim`; an exception of the database is logged, and counts as nothing claimed.
unfoldable pub claim_next : ℕ → Bool → (ℕ → Bool) → Worker → Queue → Option Job × Queue
claim_next now reachable held w q =
    if not (free_slots w == 0) && reachable
    then claim now w.worker_id w.settings.queue_lease_ttl (max_priority w) (some (job_kinds w)) held
        q
    else (none, q)

-- self._running.pop(job.id, None)
abbrev pub pop : ℕ → List Job → List Job
pop id jobs = keep (λ (j : Job). not (j.id == id)) jobs

-- self._running[job.id] = …
abbrev pub register : Job → Worker → Worker
register j w = record w { in_flight = j ∷ pop j.id w.in_flight }

abbrev pub start : Worker → Option Job × Queue → Worker × Queue
start w (none, q) = (w, q)
start w (some j, q) = (register j w, q)

-- A turn of the loop in `run`.
unfoldable pub poll : ℕ → Bool → (ℕ → Bool) → Worker → Queue → Worker × Queue
unfolding claim_next
poll now reachable held w q = start w (claim_next now reachable held w q)

abbrev pub find_handler : String → List (String × Handler) → Option Handler
find_handler kind [] = none
find_handler kind ((k, h) ∷ hs) = if str_eq k kind then some h else find_handler kind hs

abbrev pub run_handler : Option Handler → Job → Queue → Ending × Queue
run_handler none j q = (permanent "PermanentJobError: no handler for job kind", q)
run_handler (some h) j q = h j q

abbrev pub unchanged : Result → Queue → Report
unchanged r q = record { outcome = r; queue = q; audited = [] }

-- `_audit_dead`
abbrev pub dead_job : Job → String → DeadJob
dead_job j text = record {
  job_id = j.id;
  tenant_id = j.tenant_id;
  kind = j.kind;
  attempts = j.attempts;
  error = clip 500 text;
}

abbrev pub failed_as : Job → String → Queue → Owned (Status × Queue) → Report
failed_as j text q Owned.lease_lost = unchanged lease_lost q
failed_as j text q (ok (Status.dead, q')) = record {
  outcome = dead;
  queue = q';
  audited = dead_job j text ∷ [];
}
failed_as j text q (ok (_, q')) = unchanged retry q'

-- `_fail`; an exception of the database leaves the table and goes on to the caller.
unfoldable pub record_failure :
    ℕ → (ℕ → ℕ) → Link → WorkerSettings → Job → String → Bool → Queue → Report
record_failure now draw link s j text retryable q =
    if link.fails
    then failed_as j text q
        (fail now draw s.queue_backoff_base s.queue_backoff_max j text retryable q)
    else unchanged error q

-- `_release`; neither a lost lease nor an exception of the database goes on to the caller.
unfoldable pub give_back : ℕ → Link → Job → Queue → Queue
give_back now link j q =
    if link.releases then elim (release now j q) [ ok q' ↦ q' | Owned.lease_lost ↦ q ] else q

abbrev pub completed_as : Queue → Owned Queue → Report
completed_as q Owned.lease_lost = unchanged lease_lost q
completed_as q (ok q') = unchanged done q'

-- The `try` of `_execute`, from the handler's ending on.
unfoldable pub settle : ℕ → (ℕ → ℕ) → Link → WorkerSettings → Job → Ending → Queue → Report
unfolding record_failure give_back
settle now draw link s j returned q = elim link.completes [
  | none ↦ completed_as q (complete now j q)
  | some text ↦ record_failure now draw link s j text true q
]
settle now draw link s j fence_lost q = unchanged lease_lost q
settle now draw link s j (cancelled true) q = unchanged lease_lost q
settle now draw link s j (cancelled false) q = unchanged released (give_back now link j q)
settle now draw link s j (permanent text) q = record_failure now draw link s j text false q
settle now draw link s j (failed text) q = record_failure now draw link s j text true q

-- `_execute`: the worker without the job in its slots, and how the attempt ended. `now` is the time
-- at which the handler ended.
unfoldable pub execute : ℕ → (ℕ → ℕ) → Link → Job → Worker → Queue → Worker × Report
unfolding settle
execute now draw link j w q =
    let (ending, q') = run_handler (find_handler j.kind w.handlers) j q in
    (record w { in_flight = pop j.id w.in_flight }, settle now draw link w.settings j ending q')

-- A turn of `_reap_loop`: the expired jobs that are dead are audited, by their ids.
abbrev pub dead_ids : List (ℕ × Status) → List ℕ
dead_ids [] = []
dead_ids ((id, Status.dead) ∷ rest) = id ∷ dead_ids rest
dead_ids ((id, _) ∷ rest) = dead_ids rest

unfoldable pub reap_turn : ℕ → (ℕ → Bool) → Queue → List ℕ × Queue
reap_turn now held q = let (reaped, q') = reap now held q in (dead_ids reaped, q')

-- The end of `_drain`: after the grace time, the jobs that still run are cancelled.
unfoldable pub cancel_all : ℕ → Link → List Job → Queue → Queue
unfolding give_back
cancel_all now link [] q = q
cancel_all now link (j ∷ js) q = cancel_all now link js (give_back now link j q)
