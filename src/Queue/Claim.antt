-- ===== src/Queue/Claim.antt =====
-- app/queue/jobs.py: `claim`.
use sre_blackboard.Common.{
  ℕ, ◌+◌, ◌-◌, String, Bool, true, not, ◌&&◌, ◌||◌, Option, none, some, List, [], ◌∷◌, ltb, leb,
  ◌==◌, str_eq, if◌then◌else◌, any, keep, update_where,
}
use sre_blackboard.Queue.Table.{running, JobRow, Queue, Job, is_queued}

-- `list(kinds) if kinds else None`, and the test `kind = ANY(kinds)`
abbrev pub kind_allowed : Option (List String) → String → Bool
kind_allowed none k = true
kind_allowed (some []) k = true
kind_allowed (some (x ∷ xs)) k = any (λ y. str_eq k y) (x ∷ xs)

-- The WHERE clause of a claim.
unfoldable pub runnable : ℕ → ℕ → Option (List String) → JobRow → Bool
runnable now max_priority kinds r =
    is_queued r.status
    && leb r.run_after now
    && leb r.priority max_priority
    && kind_allowed kinds r.kind

-- ORDER BY sort_key, id
unfoldable pub comes_before : JobRow → JobRow → Bool
comes_before a b = ltb a.sort_key b.sort_key || (a.sort_key == b.sort_key && ltb a.id b.id)

abbrev pub earlier_of : JobRow → Option JobRow → JobRow
earlier_of r none = r
earlier_of r (some b) = if comes_before b r then b else r

-- LIMIT 1
unfoldable pub first_in_line : List JobRow → Option JobRow
first_in_line [] = none
first_in_line (r ∷ rs) = some (earlier_of r (first_in_line rs))

-- A row that the claim may take: it meets the WHERE clause, and no one else has locked it.
abbrev pub eligible : ℕ → ℕ → Option (List String) → (ℕ → Bool) → JobRow → Bool
eligible now max_priority kinds held r = runnable now max_priority kinds r && not (held r.id)

-- SELECT id … FOR UPDATE SKIP LOCKED
unfoldable pub next_job : ℕ → ℕ → Option (List String) → (ℕ → Bool) → Queue → Option JobRow
next_job now max_priority kinds held q =
    first_in_line (keep (eligible now max_priority kinds held) q.rows)

abbrev pub lease : String → ℕ → ℕ → JobRow → JobRow
lease owner now ttl r = record r {
  status = running;
  lease_owner = some owner;
  lease_until = some (now + ttl);
  fence = r.fence + 1;
  attempts = r.attempts + 1;
  updated_at = now;
}

-- `Job.from_row` on the row as leased
abbrev pub job_of : String → ℕ → JobRow → Job
job_of owner now r = record {
  id = r.id;
  tenant_id = r.tenant_id;
  incident_id = r.incident_id;
  kind = r.kind;
  plan_id = r.plan_id;
  priority = r.priority;
  attempts = r.attempts + 1;
  max_attempts = r.max_attempts;
  fence = r.fence + 1;
  lease_owner = owner;
  waited = now - r.run_after;
}

abbrev pub lease_next : String → ℕ → ℕ → Queue → Option JobRow → Option Job × Queue
lease_next owner now ttl q none = (none, q)
lease_next owner now ttl q (some r) = (
  some (job_of owner now r),
  record q { rows = update_where (λ x. x.id == r.id) (lease owner now ttl) q.rows },
)

unfoldable pub claim :
    ℕ → String → ℕ → ℕ → Option (List String) → (ℕ → Bool) → Queue → Option Job × Queue
claim now owner ttl max_priority kinds held q =
    lease_next owner now ttl q (next_job now max_priority kinds held q)
