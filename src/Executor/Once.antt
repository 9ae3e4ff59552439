-- ===== src/Executor/Once.antt =====
-- Each action is sent to the cluster at most once, whatever crashes and reruns happen.
use sre_blackboard.Common.{
  ℕ, zero, suc, ◌-◌, ◌≤◌, ◌≡◌, refl, ap, subst, String, Bool, true, false, ◌&&◌, Option, none, some,
  List, [], ◌∷◌, ltb, ◌==◌, ==_iff, ==_refl, if◌then◌else◌, length, take, find_where, update_where,
  arith, Bool-cases, Option-cases, inl, inr,
}
use sre_blackboard.Remediation.Plan.{Action}
use sre_blackboard.Executor.Job.{
  ExecStatus, started, succeeded, failed, unknown, Execution, Event, insert_row, set_status,
  send_patch, Cluster, Writer, is_key, row_of, act, change, finish, resume, Applied, applied,
  exec_error, after_error, base_row, apply, apply_all, run_actions,
}

-- How often the patch of an action was sent.
unfoldable pub times_sent : ℕ → ℕ → List (ℕ × ℕ) → ℕ
times_sent plan i [] = 0
times_sent plan i ((p, k) ∷ rest) =
    let n = times_sent plan i rest in if p == plan && k == i then suc n else n

-- An action without a row was never sent, and none was sent twice.
abbrev pub SentOnce : ℕ → ℕ → Cluster → Type 0
SentOnce plan i c =
    (row_of plan i c ≡ none → times_sent plan i c.sent ≡ 0) × (times_sent plan i c.sent ≤ 1)

-- One attempt at the job of a plan: the cluster's answers, and how far it comes before it crashes.
pub record Attempt : Type 0 where
  pub writer : Writer
  pub executor : String
  pub plan_id : ℕ
  pub actions : List Action
  pub budget : ℕ

abbrev pub attempt : Attempt → Cluster → Cluster
attempt t c = (run_actions t.writer t.executor t.plan_id t.budget t.actions 0 c).1

-- Attempts after one another, of any plans.
abbrev pub attempt_all : List Attempt → Cluster → Cluster
attempt_all [] c = c
attempt_all (t ∷ rest) c = attempt_all rest (attempt t c)

abbrev pub untouched : Cluster
untouched = record { rows = []; sent = [] }

find_updated :
    (p q : Execution → Bool) (f : Execution → Execution)
    → ((r : Execution) → p (f r) ≡ p r)
    → (rows : List Execution) → find_where p (update_where q f rows) ≡ none
    → find_where p rows ≡ none
unfolding find_where update_where
find_updated p q f same [] h = refl
find_updated p q f same (r ∷ rows) h = ground (arith, same r, find_updated p q f same rows)

set_status-SentOnce :
    (plan i p k : ℕ) (s : ExecStatus) (c : Cluster)
    → SentOnce plan i c
    → SentOnce plan i (apply (set_status p k s) c)
unfolding apply row_of
set_status-SentOnce plan i p k s c (h, l) = (
  (λ e. h (
      find_updated (is_key plan i) (is_key p k) (λ r. record r { status = s }) (λ r. refl) c.rows
        e)),
  l,
)

insert-SentOnce :
    (plan i : ℕ) (r : Execution) (c : Cluster)
    → SentOnce plan i c
    → SentOnce plan i (apply (insert_row r) c)
unfolding apply row_of find_where
insert-SentOnce plan i r c (h, l) = ((λ e. h (ground arith)), l)

-- A row for the action stands in the table, and the action was not sent.
send-SentOnce :
    (plan i p k : ℕ) (r : Execution) (c : Cluster)
    → is_key p k r ≡ true
    → row_of p k c ≡ none
    → SentOnce plan i c
    → SentOnce plan i (apply (send_patch p k) (apply (insert_row r) c))
unfolding apply row_of find_where times_sent
send-SentOnce plan i p k r c at fresh (h, l) = ground (arith, ==_iff p plan, ==_iff k i)

-- A list of events after any part of which the action is still sent once at most.
abbrev Safe : ℕ → ℕ → List Event → Cluster → Type 0
Safe plan i es c = (n : ℕ) → SentOnce plan i (apply_all (take n es) c)

nothing-Safe : (plan i : ℕ) (c : Cluster) → SentOnce plan i c → Safe plan i [] c
unfolding apply_all
nothing-Safe plan i c h zero = h
nothing-Safe plan i c h (suc n) = h

more-Safe :
    (plan i : ℕ) (e : Event) (es : List Event) (c : Cluster)
    → SentOnce plan i c
    → Safe plan i es (apply e c)
    → Safe plan i (e ∷ es) c
unfolding apply_all
more-Safe plan i e es c h s zero = h
more-Safe plan i e es c h s (suc n) = s n

status-Safe :
    (plan i p k : ℕ) (s : ExecStatus) (c : Cluster)
    → SentOnce plan i c
    → Safe plan i (set_status p k s ∷ []) c
status-Safe plan i p k s c h =
    more-Safe plan i (set_status p k s) [] c h
      (nothing-Safe plan i _ (set_status-SentOnce plan i p k s c h))

finish-Safe :
    (plan i p k : ℕ) (a : Action) (x : Applied) (c : Cluster)
    → SentOnce plan i c
    → Safe plan i (finish p k a x).0 c
finish-Safe plan i p k a applied c h = status-Safe plan i p k succeeded c h
finish-Safe plan i p k a (exec_error e) c h = status-Safe plan i p k (after_error e) c h

base_key :
    (p k : ℕ) (a : Action) (me : String) (s : ExecStatus) → is_key p k (base_row p k a me s) ≡ true
base_key p k a me s = ground (arith, ==_refl p, ==_refl k)

change-Safe :
    (w : Writer) (me : String) (plan i p k : ℕ) (a : Action) (o : Option Bool) (c : Cluster)
    → row_of p k c ≡ none
    → SentOnce plan i c
    → Safe plan i (change w me p k a o).0 c
change-Safe w me plan i p k a none c fresh h =
    let row = base_row p k a me failed in
    more-Safe plan i (insert_row row) [] c h
      (nothing-Safe plan i _ (insert-SentOnce plan i row c h))
change-Safe w me plan i p k a (some true) c fresh h =
    let row = base_row p k a me started in
    let h' = insert-SentOnce plan i row c h in
    more-Safe plan i (insert_row row) _ c h (finish-Safe plan i p k a applied _ h')
change-Safe w me plan i p k a (some false) c fresh h =
    let row = base_row p k a me started in
    let h' = insert-SentOnce plan i row c h in
    let h'' = send-SentOnce plan i p k row c (base_key p k a me started) fresh h in
    more-Safe plan i (insert_row row) _ c h
      (more-Safe plan i (send_patch p k) _ _ h' (finish-Safe plan i p k a (w.patch k a) _ h''))

resume-Safe :
    (plan i p k : ℕ) (a : Action) (s : ExecStatus) (c : Cluster)
    → SentOnce plan i c
    → Safe plan i (resume p k a s).0 c
resume-Safe plan i p k a succeeded c h = nothing-Safe plan i c h
resume-Safe plan i p k a started c h = status-Safe plan i p k unknown c h
resume-Safe plan i p k a failed c h = nothing-Safe plan i c h
resume-Safe plan i p k a unknown c h = nothing-Safe plan i c h

act-Safe :
    (w : Writer) (me : String) (plan i p k : ℕ) (a : Action) (o : Option Execution) (c : Cluster)
    → row_of p k c ≡ o
    → SentOnce plan i c
    → Safe plan i (act w me p k a o).0 c
act-Safe w me plan i p k a none c e h = change-Safe w me plan i p k a (w.prepare k a) c e h
act-Safe w me plan i p k a (some r) c e h = resume-Safe plan i p k a r.status c h

take_all : (es : List Event) → take (length es) es ≡ es
take_all [] = refl
take_all (e ∷ es) = ap (λ xs. e ∷ xs) (take_all es)

run_actions-SentOnce :
    (w : Writer) (me : String) (plan i p budget : ℕ) (as' : List Action) (k : ℕ) (c : Cluster)
    → SentOnce plan i c
    → SentOnce plan i (run_actions w me p budget as' k c).1
unfolding run_actions
run_actions-SentOnce w me plan i p budget [] k c h = h
run_actions-SentOnce w me plan i p budget (a ∷ rest) k c h =
    let out = act w me p k a (row_of p k c) in
    let safe = act-Safe w me plan i p k a (row_of p k c) c refl h in
    let full : SentOnce plan i (apply_all out.0 c) =
      subst (λ es. SentOnce plan i (apply_all es c)) (take_all out.0) (safe (length out.0)) in
    let next =
      run_actions-SentOnce w me plan i p (budget - length out.0) rest (suc k) (apply_all out.0 c)
        full in
    elim (Bool-cases (ltb budget (length out.0))) [
      | inl e ↦ rw (e, run_actions) (safe budget)
      | inr e ↦ elim (Option-cases out.1) [
        | inl f ↦ rw (e, f, run_actions) next
        | inr (why, f) ↦ rw (e, f, run_actions) full
      ]
    ]

attempt_all-SentOnce :
    (plan i : ℕ) (ts : List Attempt) (c : Cluster)
    → SentOnce plan i c
    → SentOnce plan i (attempt_all ts c)
attempt_all-SentOnce plan i [] c h = h
attempt_all-SentOnce plan i (t ∷ rest) c h =
    attempt_all-SentOnce plan i rest (attempt t c)
      (run_actions-SentOnce t.writer t.executor plan i t.plan_id t.budget t.actions 0 c h)

-- However many attempts at whatever plans run one after another, wherever each of them crashes, and
-- whatever the cluster answers: the patch of each action of each plan is sent at most once.
pub sent_at_most_once :
    (ts : List Attempt) (plan i : ℕ) → times_sent plan i (attempt_all ts untouched).sent ≤ 1
unfolding times_sent
sent_at_most_once ts plan i =
    (attempt_all-SentOnce plan i ts untouched ((λ _. refl), omega arith)).1
