-- ===== src/Executor/Job.antt =====
-- app/executor/job.py: the loop of `execute_job` over a plan's actions, as the list of what it commits
-- and sends in order, so that a run may stop after any of it; and the ends of the job. The cluster's
-- answers are parameters; the JSON columns (dry_run, before, after) and the audit entries of single
-- actions are left out.
use sre_blackboard.Common.{
  ℕ, suc, ◌-◌, String, Bool, true, false, ◌&&◌, Option, none, some, List, [], ◌∷◌, ◌++◌, ltb, ◌==◌,
  if◌then◌else◌, length, take, find_where, update_where,
}
use sre_blackboard.Remediation.Plan.{Action}

pub data ExecStatus : Type 0 where
  started succeeded failed unknown : ExecStatus

-- A row of `executions`; the plan and the index are its idempotency key.
pub record Execution : Type 0 where
  pub plan_id : ℕ
  pub action_index : ℕ
  pub action : Action
  pub status : ExecStatus
  pub executor : String

-- What a run commits, and the one thing that it sends: the patch that is not a dry run.
pub data Event : Type 0 where
  insert_row : Execution → Event
  set_status : ℕ → ℕ → ExecStatus → Event
  send_patch : ℕ → ℕ → Event

-- The table `executions`, newest row first, and the patches that were sent to the cluster.
pub record Cluster : Type 0 where
  pub rows : List Execution
  pub sent : List (ℕ × ℕ)

-- ExecError.applied: whether the change is in the cluster; None where nobody knows.
pub data Applied : Type 0 where
  applied : Applied
  exec_error : Option Bool → Applied

-- The answers of `writer` for an action: to `prepare` and the dry run, an error or whether there is
-- nothing to change; then to the patch.
pub record Writer : Type 0 where
  pub prepare : ℕ → Action → Option Bool
  pub patch : ℕ → Action → Applied

abbrev pub is_key : ℕ → ℕ → Execution → Bool
is_key plan i r = r.plan_id == plan && r.action_index == i

-- SELECT status FROM executions WHERE idempotency_key = :k
unfoldable pub row_of : ℕ → ℕ → Cluster → Option Execution
unfolding find_where
row_of plan i c = find_where (is_key plan i) c.rows

-- status = "unknown" if e.applied is None else "failed"
abbrev pub after_error : Option Bool → ExecStatus
after_error none = unknown
after_error (some b) = failed

-- Why the loop stops before its end.
pub data Stop : Type 0 where
  interrupted : Action → Stop
  failed_before_change : Action → Stop
  failed_after : Action → ExecStatus → Stop

abbrev pub base_row : ℕ → ℕ → Action → String → ExecStatus → Execution
base_row plan i a me status = record {
  plan_id = plan;
  action_index = i;
  action = a;
  status = status;
  executor = me;
}

-- `_apply`: a change that has nothing to do is not sent.
abbrev pub sends : ℕ → ℕ → Bool → List Event
sends plan i true = []
sends plan i false = send_patch plan i ∷ []

abbrev pub answer : Writer → ℕ → Action → Bool → Applied
answer w i a true = applied
answer w i a false = w.patch i a

-- The end of one action: its status is committed, and the loop goes on or stops.
abbrev pub finish : ℕ → ℕ → Action → Applied → List Event × Option Stop
finish plan i a applied = (set_status plan i succeeded ∷ [], none)
finish plan i a (exec_error e) =
    (set_status plan i (after_error e) ∷ [], some (failed_after a (after_error e)))

-- An action without a row, after `prepare`.
abbrev pub change : Writer → String → ℕ → ℕ → Action → Option Bool → List Event × Option Stop
change w me plan i a none =
    (insert_row (base_row plan i a me failed) ∷ [], some (failed_before_change a))
change w me plan i a (some noop) =
    let (last, stop) = finish plan i a (answer w i a noop) in
    (insert_row (base_row plan i a me started) ∷ sends plan i noop ++ last, stop)

-- An action that has a row of an earlier attempt.
abbrev pub resume : ℕ → ℕ → Action → ExecStatus → List Event × Option Stop
resume plan i a succeeded = ([], none)
resume plan i a started = (set_status plan i unknown ∷ [], some (interrupted a))
resume plan i a failed = ([], some (interrupted a))
resume plan i a unknown = ([], some (interrupted a))

-- The body of the loop.
abbrev pub act : Writer → String → ℕ → ℕ → Action → Option Execution → List Event × Option Stop
act w me plan i a none = change w me plan i a (w.prepare i a)
act w me plan i a (some r) = resume plan i a r.status

unfoldable pub apply : Event → Cluster → Cluster
unfolding update_where
apply (insert_row r) c = record c { rows = r ∷ c.rows }
apply (set_status plan i s) c = record c {
  rows = update_where (is_key plan i) (λ r. record r { status = s }) c.rows;
}
apply (send_patch plan i) c = record c { sent = (plan, i) ∷ c.sent }

unfoldable pub apply_all : List Event → Cluster → Cluster
unfolding apply
apply_all [] c = c
apply_all (e ∷ es) c = apply_all es (apply e c)

pub data Ending : Type 0 where
  all_done crashed : Ending
  stopped : Stop → Ending

-- The loop; a run that is allowed `budget` events crashes when it would take one more.
unfoldable pub run_actions : Writer → String → ℕ → ℕ → List Action → ℕ → Cluster → Ending × Cluster
unfolding apply_all row_of
run_actions w me plan budget [] i c = (all_done, c)
run_actions w me plan budget (a ∷ rest) i c =
    let (events, stop) = act w me plan i a (row_of plan i c) in
    let next = run_actions w me plan (budget - length events) rest (suc i) (apply_all events c) in
    if ltb budget (length events)
    then (crashed, apply_all (take budget events) c)
    else elim stop [ none ↦ next | some why ↦ (stopped why, apply_all events c) ]
