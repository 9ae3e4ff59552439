-- ===== src/Executor/Complete.antt =====
-- A run that is not interrupted, on a cluster that takes every change, executes the whole plan.
use sre_blackboard.Common.{
  ℕ, suc, ◌+◌, ◌-◌, ◌*◌, ◌≤◌, ◌<◌, ◌≡◌, refl, ap, ◌∙◌, String, Bool, false, Option, none, some,
  List, [], ◌∷◌, ltb, ◌==◌, ==_refl, if◌then◌else◌, length, take, find_where, update_where, arith,
  Bool-cases, inl, inr,
}
use sre_blackboard.Remediation.Plan.{Action}
use sre_blackboard.Executor.Job.{
  started, succeeded, Execution, Event, insert_row, set_status, send_patch, Cluster, Writer, is_key,
  row_of, act, applied, base_row, apply, apply_all, Ending, all_done, crashed, stopped, Stop,
  run_actions,
}
use sre_blackboard.Executor.Once.{times_sent}

-- A cluster in which every change can be prepared and is taken.
pub record Takes (w : Writer) : Type 0 where
  pub prepares : (i : ℕ) (a : Action) → w.prepare i a ≡ some false
  pub patches : (i : ℕ) (a : Action) → w.patch i a ≡ applied

-- The three events of an action that is executed, and what they leave.
abbrev executed : ℕ → ℕ → Action → String → List Event
executed p k a me =
    insert_row (base_row p k a me started) ∷ send_patch p k ∷ set_status p k succeeded ∷ []

act-executed :
    (w : Writer) (me : String) (p k : ℕ) (a : Action) (c : Cluster)
    → Takes w
    → row_of p k c ≡ none
    → act w me p k a (row_of p k c) ≡ (executed p k a me, none)
act-executed w me p k a c t fresh = rw (fresh, t.prepares k a, t.patches k a) refl

none_updated :
    (p q : Execution → Bool) (f : Execution → Execution)
    → ((r : Execution) → p (f r) ≡ p r)
    → (rows : List Execution) → find_where p rows ≡ none
    → find_where p (update_where q f rows) ≡ none
unfolding find_where update_where
none_updated p q f same [] h = refl
none_updated p q f same (r ∷ rows) h = ground (arith, same r, none_updated p q f same rows)

other_key :
    (p k j : ℕ) (a : Action) (me : String) (c : Cluster)
    → k < j
    → row_of p j c ≡ none
    → find_where (is_key p j) (base_row p k a me started ∷ c.rows) ≡ none
unfolding find_where row_of
other_key p k j a me c l h = ground arith

executed_others :
    (p k j : ℕ) (a : Action) (me : String) (c : Cluster)
    → k < j
    → row_of p j c ≡ none
    → row_of p j (apply_all (executed p k a me) c) ≡ none
unfolding apply_all apply row_of
executed_others p k j a me c l h =
    none_updated (is_key p j) (is_key p k) (λ r. record r { status = succeeded }) (λ r. refl)
      (base_row p k a me started ∷ c.rows) (other_key p k j a me c l h)

executed_sent :
    (p k j : ℕ) (a : Action) (me : String) (c : Cluster)
    → times_sent p j (apply_all (executed p k a me) c).sent
      ≡ (if k == j then suc (times_sent p j c.sent) else times_sent p j c.sent)
unfolding apply_all apply times_sent
executed_sent p k j a me c = ground (arith, ==_refl p)

-- What a run from action `k` on has to do: it ends, having sent each of its actions once, and none of
-- the actions before it.
abbrev pub Completes : ℕ → List Action → ℕ → Cluster → Ending × Cluster → Type 0
Completes p as' k c out =
    (out.0 ≡ all_done)
    × ((j : ℕ)
        → k ≤ j
        → j < k + length as'
        → times_sent p j out.1.sent ≡ suc (times_sent p j c.sent))
    × ((j : ℕ) → j < k → times_sent p j out.1.sent ≡ times_sent p j c.sent)

-- A run, after what one action commits and sends.
abbrev continued :
    Writer
    → String
    → ℕ
    → ℕ
    → List Action
    → ℕ
    → Cluster
    → List Event × Option Stop
    → Ending × Cluster
continued w me p budget rest k c (es, stop) =
    if ltb budget (length es) then (crashed, apply_all (take budget es) c) else elim stop [
      | none ↦ run_actions w me p (budget - length es) rest (suc k) (apply_all es c)
      | some why ↦ (stopped why, apply_all es c)
    ]

run_actions_step :
    (w : Writer) (me : String) (p budget : ℕ) (a : Action) (rest : List Action) (k : ℕ)
    (c : Cluster) (o : List Event × Option Stop)
    → act w me p k a (row_of p k c) ≡ o
    → run_actions w me p budget (a ∷ rest) k c ≡ continued w me p budget rest k c o
unfolding run_actions
run_actions_step w me p budget a rest k c o e = ap (continued w me p budget rest k c) e

-- An attempt that may take three events for each action, at a plan none of whose actions has a row
-- yet, on a cluster that takes every change, ends with all done, having sent each action once.
pub run_actions-Completes :
    (w : Writer) (me : String) (p budget : ℕ) (as' : List Action) (k : ℕ) (c : Cluster)
    → Takes w
    → ((j : ℕ) → k ≤ j → row_of p j c ≡ none)
    → 3 * length as' ≤ budget
    → Completes p as' k c (run_actions w me p budget as' k c)
unfolding run_actions
run_actions-Completes w me p budget [] k c t fresh b =
    (refl, (λ j l h. absurd (omega arith)), (λ j h. refl))
run_actions-Completes w me p budget (a ∷ rest) k c t fresh b =
    let c' = apply_all (executed p k a me) c in
    let step = act-executed w me p k a c t (fresh k (omega arith)) in
    let enough : ltb budget 3 ≡ false = ground arith in
    let (done, mine, before) =
      run_actions-Completes w me p (budget - 3) rest (suc k) c' t
        (λ j l. executed_others p k j a me c (omega arith) (fresh j (omega arith))) (omega arith) in
    let run : run_actions w me p budget (a ∷ rest) k c
        ≡ run_actions w me p (budget - 3) rest (suc k) c' =
      run_actions_step w me p budget a rest k c _ step ∙ rw enough refl in
    rw run (
      done,
      (λ j l h. elim (Bool-cases (k == j)) [
        | inl e ↦ before j (ground arith) ∙ ground (arith, executed_sent p k j a me c)
        | inr e ↦ mine j (ground arith) (omega arith) ∙ ground (arith, executed_sent p k j a me c)
      ]),
      (λ j h. before j (omega arith) ∙ ground (arith, executed_sent p k j a me c)),
    )
