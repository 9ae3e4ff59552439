-- ===== src/Queue/Table.antt =====
-- app/queue/jobs.py, app/db/schema.py: the `jobs` table, the dataclass `Job`, and `enqueue`.
use sre_blackboard.Common.{
  ℕ, suc, ◌+◌, ◌*◌, String, Bool, true, false, ◌&&◌, Option, none, some, List, ◌∷◌, ◌==◌, str_eq,
  if◌then◌else◌, any,
}

pub data Status : Type 0 where
  queued running done dead : Status

-- The keys that the callers pass: f"{incident_id}:{kind}" and f"plan:{plan_id}:{kind}", by parts.
pub data JobKey : Type 0 where
  incident_key : ℕ → String → JobKey
  plan_key : ℕ → String → JobKey

pub record JobRow : Type 0 where
  pub id : ℕ
  pub tenant_id : String
  pub incident_id : Option ℕ
  pub kind : String
  pub plan_id : Option ℕ  -- payload["plan_id"], the only entry that a payload has
  pub idempotency_key : Option JobKey
  pub priority : ℕ
  pub status : Status
  pub attempts : ℕ
  pub max_attempts : ℕ
  pub sort_key : ℕ
  pub run_after : ℕ
  pub lease_owner : Option String
  pub lease_until : Option ℕ
  pub fence : ℕ
  pub last_error : Option String
  pub enqueued_at : ℕ
  pub updated_at : ℕ

pub record Queue : Type 0 where
  pub rows : List JobRow
  pub next_id : ℕ

-- The dataclass `Job`: what a claim hands to the worker.
pub record Job : Type 0 where
  pub id : ℕ
  pub tenant_id : String
  pub incident_id : Option ℕ
  pub kind : String
  pub plan_id : Option ℕ
  pub priority : ℕ
  pub attempts : ℕ
  pub max_attempts : ℕ
  pub fence : ℕ
  pub lease_owner : String
  pub waited : ℕ

pub record NewJob : Type 0 where
  pub tenant_id : String
  pub incident_id : Option ℕ
  pub kind : String
  pub plan_id : Option ℕ
  pub idempotency_key : Option JobKey
  pub priority : ℕ
  pub max_attempts : ℕ
  pub aging_step : ℕ
  pub delay : ℕ

-- Raised, or returned, by the statements that carry a fence.
pub data Owned {ℓ} (A : Type ℓ) : Type ℓ where
  ok : A → Owned A
  lease_lost : Owned A

abbrev pub is_queued : Status → Bool
is_queued queued = true
is_queued _ = false

abbrev pub is_running : Status → Bool
is_running running = true
is_running _ = false

abbrev pub same_key : JobKey → JobKey → Bool
same_key (incident_key i k) (incident_key j l) = i == j && str_eq k l
same_key (plan_key i k) (plan_key j l) = i == j && str_eq k l
same_key _ _ = false

-- Two NULLs do not conflict.
abbrev pub key_conflict : Option JobKey → Option JobKey → Bool
key_conflict (some k) (some l) = same_key k l
key_conflict (some k) none = false
key_conflict none l = false

-- INSERT … ON CONFLICT (idempotency_key) DO NOTHING RETURNING id
unfoldable pub enqueue : ℕ → NewJob → Queue → Option ℕ × Queue
enqueue now j q =
    if any (λ r. key_conflict j.idempotency_key r.idempotency_key) q.rows
    then (none, q)
    else (some q.next_id, record { rows = row ∷ q.rows; next_id = suc q.next_id })
  where
    row : JobRow
    row = record {
      id = q.next_id;
      tenant_id = j.tenant_id;
      incident_id = j.incident_id;
      kind = j.kind;
      plan_id = j.plan_id;
      idempotency_key = j.idempotency_key;
      priority = j.priority;
      status = queued;
      attempts = 0;
      max_attempts = j.max_attempts;
      sort_key = now + j.priority * j.aging_step;
      run_after = now + j.delay;
      lease_owner = none;
      lease_until = none;
      fence = 0;
      last_error = none;
      enqueued_at = now;
      updated_at = now;
    }
