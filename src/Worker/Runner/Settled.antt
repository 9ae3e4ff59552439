-- ===== src/Worker/Runner/Settled.antt =====
-- How `_execute` leaves a job: the worker can write nothing for it any more, and the outcome that it
-- reports is what the table says.
use sre_blackboard.Common.{
  ℕ, ◌≡◌, refl, subst, ◌&&◌, ◌⊎◌, ltb, inl, inr, String, Bool, true, false, Option, none, some,
  List, [], ◌∷◌, arith, Bool-cases, Option-cases, str_eq,
}
use sre_blackboard.Queue.{
  Status, running, queued, Job, JobRow, Queue, Owned, ok, complete, release, fail, assert_fence,
}
use sre_blackboard.Queue.Step.{Reach, Reach-append}
use sre_blackboard.Queue.Invariant.{IsValid, Reach-IsValid}
use sre_blackboard.Queue.Fencing.{row}
use sre_blackboard.Queue.Exclusive.{LockedOut, Claimed, Claimed-IsValid}
use sre_blackboard.Queue.Ended.{completed, released, failed, Ended-LockedOut}
use sre_blackboard.Queue.Retry.{fail-Failed}
use sre_blackboard.Queue.Refused.{
  complete_row, unfenced-LockedOut, not_completed-LockedOut, not_released-LockedOut,
  not_failed-LockedOut,
}
use sre_blackboard.Worker.Runner.{
  WorkerSettings, Handler, Worker, Ending, returned, fence_lost, cancelled, permanent, Link, Result,
  done, retry, dead, Report, DeadJob, dead_job, failed_as, record_failure, completed_as, give_back,
  settle, find_handler, run_handler, execute,
}

-- The ending says that the fence is gone.
abbrev pub says_lost : Ending → Bool
says_lost fence_lost = true
says_lost (cancelled b) = b
says_lost _ = false

-- A handler changes the table only by the statements of the jobs table, by whomever and in any order,
-- and says that the fence is gone only after a statement found it gone.
pub record Fenced (aging : ℕ) (h : Handler) : Type 0 where
  pub moves : (j : Job) (q : Queue) → Reach aging q (h j q).1
  pub honest :
      (j : Job) (q : Queue)
      → says_lost (h j q).0 ≡ true
      → assert_fence j (h j q).1 ≡ Owned.lease_lost

abbrev pub AllFenced : ℕ → List (String × Handler) → Type 0
AllFenced aging [] = Unit
AllFenced aging (h ∷ hs) = Fenced aging h.1 × AllFenced aging hs

-- What each outcome says of the job's row.
abbrev pub Says : Result → Option JobRow → Type 0
Says done none = ⊥
Says done (some a) = a.status ≡ Status.done
Says retry none = ⊥
Says retry (some a) = a.status ≡ queued
Says dead none = ⊥
Says dead (some a) = a.status ≡ Status.dead
Says _ o = Unit

-- The audit entries that go with an outcome.
abbrev pub Entries : Result → Job → List DeadJob → Type 0
Entries dead j es = (text : String) × (es ≡ dead_job j text ∷ [])
Entries _ j es = es ≡ []

pub record Settled (aging : ℕ) (j : Job) (r : Report) : Type 0 where
  pub shut : {q' : Queue} → Reach aging r.queue q' → LockedOut j q'
  pub told : Says r.outcome (row r.queue j.id)
  pub audited : Entries r.outcome j r.audited

module _ {aging : ℕ} {q₀ q₁ q : Queue} (j : Job) (v : IsValid aging q₀) (c : Claimed q₀ j q₁)
    (rs : Reach aging q₁ q) where
  valid : IsValid aging q
  valid = Reach-IsValid (Claimed-IsValid v c) rs

  completed_as-Settled :
      (now : ℕ) (o : Owned Queue) → complete now j q ≡ o → Settled aging j (completed_as q o)
  completed_as-Settled now Owned.lease_lost e = record {
    shut = λ more. not_completed-LockedOut j v c rs now e more;
    told = tt;
    audited = refl;
  }
  completed_as-Settled now (ok q') e = record {
    shut = λ more. Ended-LockedOut j valid (completed now e) more;
    told = let (a, after, same) = complete_row now j valid e in rw after same;
    audited = refl;
  }

  -- What a recorded failure leaves, by the status that `fail` returns.
  failed_as-Settled :
      (now : ℕ) (draw : ℕ → ℕ) (base max_delay : ℕ) (text : String) (retryable : Bool)
      (o : Owned (Status × Queue))
      → fail now draw base max_delay j text retryable q ≡ o
      → Settled aging j (failed_as j text q o)
  failed_as-Settled now draw base max_delay text retryable Owned.lease_lost e = record {
    shut = λ more. not_failed-LockedOut j v c rs now draw base max_delay text retryable e more;
    told = tt;
    audited = refl;
  }
  failed_as-Settled now draw base max_delay text retryable (ok (s, q')) e =
      let (a, _, _, b, after, f) =
        fail-Failed now draw base max_delay j text retryable q q' s valid e in
      noted s q' b after f.status
        (elim (Bool-cases (retryable && ltb a.attempts a.max_attempts)) [
          | inl t ↦ inl (ground (arith, f.decided))
          | inr t ↦ inr (ground (arith, f.decided))
        ])
        (λ r more. Ended-LockedOut j valid (failed now draw base max_delay text retryable s e) more)
    where
      noted :
          (s : Status) (q' : Queue) (b : JobRow)
          → row q' j.id ≡ some b
          → b.status ≡ s
          → (s ≡ queued) ⊎ (s ≡ Status.dead)
          → ((r : Queue) → Reach aging q' r → LockedOut j r)
          → Settled aging j (failed_as j text q (ok (s, q')))
      noted queued q' b after is which out = record {
        shut = λ more. out _ more;
        told = rw after is;
        audited = refl;
      }
      noted Status.dead q' b after is which out = record {
        shut = λ more. out _ more;
        told = rw after is;
        audited = (text, refl);
      }
      noted running q' b after is which out = absurd (ground arith)
      noted Status.done q' b after is which out = absurd (ground arith)

  record_failure-Settled :
      (now : ℕ) (draw : ℕ → ℕ) (link : Link) (s : WorkerSettings) (text : String) (retryable : Bool)
      → link.fails ≡ true
      → Settled aging j (record_failure now draw link s j text retryable q)
  unfolding record_failure
  record_failure-Settled now draw link s text retryable up =
      rw (up, record_failure)
        (failed_as-Settled now draw s.queue_backoff_base s.queue_backoff_max text retryable _ refl)

  give_back-LockedOut :
      (now : ℕ) (link : Link) (o : Owned Queue)
      → release now j q ≡ o
      → {r : Queue} → Reach aging (elim o [ ok q' ↦ q' | Owned.lease_lost ↦ q ]) r
      → LockedOut j r
  give_back-LockedOut now link Owned.lease_lost e more = not_released-LockedOut j v c rs now e more
  give_back-LockedOut now link (ok q') e more = Ended-LockedOut j valid (released now e) more

  settle-Settled :
      (now : ℕ) (draw : ℕ → ℕ) (link : Link) (s : WorkerSettings) (ending : Ending)
      → link.releases ≡ true
      → link.fails ≡ true
      → (says_lost ending ≡ true → assert_fence j q ≡ Owned.lease_lost)
      → Settled aging j (settle now draw link s j ending q)
  unfolding settle give_back
  settle-Settled now draw link s returned up up' honest = elim (Option-cases link.completes) [
    | inl e ↦ rw (e, settle) (completed_as-Settled now _ refl)
    | inr (text, e) ↦ rw (e, settle) (record_failure-Settled now draw link s text true up')
  ]
  settle-Settled now draw link s fence_lost up up' honest = record {
    shut = λ more. unfenced-LockedOut j v c rs (honest refl) more;
    told = tt;
    audited = refl;
  }
  settle-Settled now draw link s (cancelled true) up up' honest = record {
    shut = λ more. unfenced-LockedOut j v c rs (honest refl) more;
    told = tt;
    audited = refl;
  }
  settle-Settled now draw link s (cancelled false) up up' honest = record {
    shut = λ more. give_back-LockedOut now link (release now j q) refl (rw up at more);
    told = tt;
    audited = refl;
  }
  settle-Settled now draw link s (permanent text) up up' honest =
      record_failure-Settled now draw link s text false up'
  settle-Settled now draw link s (Ending.failed text) up up' honest =
      record_failure-Settled now draw link s text true up'

found-Fenced :
    (aging : ℕ) (kind : String) (hs : List (String × Handler)) (h : Handler)
    → AllFenced aging hs
    → find_handler kind hs ≡ some h
    → Fenced aging h
found-Fenced aging kind [] h all e = absurd (ground arith)
found-Fenced aging kind ((k, g) ∷ hs) h all e = elim (Bool-cases (str_eq k kind)) [
  | inl t ↦ let same : g ≡ h = ground arith in subst (Fenced aging) same all.0
  | inr t ↦ found-Fenced aging kind hs h all.1 (rw t at e)
]

execute-Settled :
    {aging : ℕ} {q₀ q₁ q : Queue} (now : ℕ) (draw : ℕ → ℕ) (link : Link) (j : Job) (w : Worker)
    → IsValid aging q₀
    → Claimed q₀ j q₁
    → Reach aging q₁ q
    → AllFenced aging w.handlers
    → link.releases ≡ true
    → link.fails ≡ true
    → Settled aging j (execute now draw link j w q).1
unfolding execute
execute-Settled {aging} {q = q} now draw link j w v c rs fenced up up' =
    elim (Option-cases (find_handler j.kind w.handlers)) [
      | inl e ↦
          rw (e, execute)
            (settle-Settled j v c rs now draw link w.settings (run_handler none j q).0 up up'
              (λ x. absurd (ground arith)))
      | inr (h, e) ↦
          let f : Fenced aging h = found-Fenced aging j.kind w.handlers h fenced e in
          rw (e, execute)
            (settle-Settled j v c (Reach-append rs (f.moves j q)) now draw link w.settings (h j q).0
              up up' (f.honest j q))
    ]

-- `_execute` on a job that was claimed, with handlers that write only by the statements of the jobs
-- table and raise LeaseLost only when they lost it: however the attempt ends, the worker is shut out
-- of the job from then on, whatever happens to the table; the job is done, queued again or dead if
-- the outcome says so; and a dead job, and no other, is written to the audit log, once. The
-- transactions that record a failure or release the job reach the database; completing it may fail.
pub execute-LockedOut :
    {aging : ℕ} {q₀ q₁ q r : Queue} (now : ℕ) (draw : ℕ → ℕ) (link : Link) (j : Job) (w : Worker)
    → IsValid aging q₀
    → Claimed q₀ j q₁
    → Reach aging q₁ q
    → AllFenced aging w.handlers
    → link.releases ≡ true
    → link.fails ≡ true
    → Reach aging (execute now draw link j w q).1.queue r
    → LockedOut j r
      × Says
          (execute now draw link j w q).1.outcome
          (row (execute now draw link j w q).1.queue j.id)
      × Entries (execute now draw link j w q).1.outcome j (execute now draw link j w q).1.audited
execute-LockedOut now draw link j w v c rs fenced up up' more =
    let s = execute-Settled now draw link j w v c rs fenced up up' in
    (s.shut more, s.told, s.audited)
