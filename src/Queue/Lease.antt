-- ===== src/Queue/Lease.antt =====
-- app/queue/jobs.py: the statements of a lease's owner, the backoff, and `reap`.
use sre_blackboard.Common.{
  ℕ, zero, suc, ◌+◌, ◌-◌, ◌*◌, ◌/◌, ◌^◌, min, String, Bool, true, false, not, ◌&&◌, Option, none,
  some, List, [], ◌∷◌, map, ltb, leb, ◌==◌, if◌then◌else◌, any, keep, update_where,
}
use sre_blackboard.Queue.Table.{
  Status, queued, done, dead, JobRow, Queue, Job, Owned, ok, lease_lost, is_running,
}

-- WHERE id = :id AND fence = :fence AND status = 'running'
unfoldable pub owns : Job → JobRow → Bool
owns j r = r.id == j.id && r.fence == j.fence && is_running r.status

unfoldable pub assert_fence : Job → Queue → Owned (Unit {0})
assert_fence j q = if any (owns j) q.rows then ok tt else lease_lost

-- An UPDATE on the caller's row; `lease_lost` when no row matched.
unfoldable pub update_owned : Job → (JobRow → JobRow) → Queue → Owned Queue
update_owned j f q =
    if any (owns j) q.rows
    then ok (record q { rows = update_where (owns j) f q.rows })
    else lease_lost

unfoldable pub heartbeat : ℕ → ℕ → Job → Queue → Bool × Queue
heartbeat now ttl j q =
    elim (update_owned j (λ r. record r { lease_until = some (now + ttl); updated_at = now }) q) [
      | ok q' ↦ (true, q')
      | lease_lost ↦ (false, q)
    ]

unfoldable pub complete : ℕ → Job → Queue → Owned Queue
complete now j = update_owned j λ r. record r {
  status = done;
  last_error = none;
  lease_owner = none;
  lease_until = none;
  updated_at = now;
}

unfoldable pub release : ℕ → Job → Queue → Owned Queue
release now j = update_owned j λ r. record r {
  status = queued;
  attempts = r.attempts - 1;
  run_after = now;
  lease_owner = none;
  lease_until = none;
  updated_at = now;
}

-- base * 2^(attempt-1), at most `max_delay`; `max(attempt - 1, 0)` is the truncated `-`
unfoldable pub backoff_cap : ℕ → ℕ → ℕ → ℕ
backoff_cap base max_delay attempt = min max_delay (base * 2 ^ (attempt - 1))

-- `draw n` stands for `random.uniform(0, n)`.
unfoldable pub backoff_delay : (ℕ → ℕ) → ℕ → ℕ → ℕ → ℕ
unfolding backoff_cap
backoff_delay draw base max_delay attempt =
    backoff_cap base max_delay attempt / 2 + draw (backoff_cap base max_delay attempt / 2)

-- text[:n]
unfoldable pub clip : ℕ → String → String
clip zero s = String.[]
clip (suc n) String.[] = String.[]
clip (suc n) (String.◌∷◌ c s) = String.◌∷◌ c (clip n s)

-- CASE WHEN retryable AND attempts < max_attempts THEN 'queued' ELSE 'dead'
abbrev pub after_failure : Bool → JobRow → Status
after_failure retryable r = if retryable && ltb r.attempts r.max_attempts then queued else dead

abbrev pub fail_row : ℕ → Bool → ℕ → String → JobRow → JobRow
fail_row now retryable delay error r = record r {
  status = after_failure retryable r;
  run_after = now + delay;
  lease_owner = none;
  lease_until = none;
  last_error = some (clip 2000 error);
  updated_at = now;
}

abbrev pub status_of_owned : Job → Bool → List JobRow → Status
status_of_owned j retryable [] = dead
status_of_owned j retryable (r ∷ rs) =
    if owns j r then after_failure retryable r else status_of_owned j retryable rs

-- Returns the row's new status.
unfoldable pub fail : ℕ → (ℕ → ℕ) → ℕ → ℕ → Job → String → Bool → Queue → Owned (Status × Queue)
fail now draw base max_delay j error retryable q =
    elim (update_owned j
      (fail_row now retryable (backoff_delay draw base max_delay j.attempts) error) q) [
        | ok q' ↦ ok (status_of_owned j retryable q.rows, q')
        | lease_lost ↦ lease_lost
      ]

abbrev pub lease_ended : ℕ → Option ℕ → Bool
lease_ended now none = false
lease_ended now (some t) = ltb t now

unfoldable pub expired : ℕ → (ℕ → Bool) → JobRow → Bool
expired now held r = is_running r.status && lease_ended now r.lease_until && not (held r.id)

abbrev pub after_expiry : JobRow → Status
after_expiry r = if leb r.max_attempts r.attempts then dead else queued

abbrev pub reap_row : ℕ → JobRow → JobRow
reap_row now r = record r {
  status = after_expiry r;
  lease_owner = none;
  lease_until = none;
  last_error = some "lease expired";
  updated_at = now;
}

unfoldable pub reap : ℕ → (ℕ → Bool) → Queue → List (ℕ × Status) × Queue
reap now held q = (
  map (λ r. (r.id, after_expiry r)) (keep (expired now held) q.rows),
  record q { rows = update_where (expired now held) (reap_row now) q.rows },
)
