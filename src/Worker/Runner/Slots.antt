-- ===== src/Worker/Runner/Slots.antt =====
-- The slots of a worker: the last ones are kept for P0, so that a P0 never waits for a busy worker.
use sre_blackboard.Common.{
  ℕ, ◌+◌, ◌-◌, ◌≤◌, ◌<◌, ◌≡◌, refl, inl, inr, String, Bool, true, not, ◌&&◌, Option, none, some,
  List, [], ◌∷◌, length, keep, ◌==◌, arith, Among, Among-All, Bool-cases, Option-cases,
}
use sre_blackboard.Queue.{Job, JobRow, Queue, claim, next_job, eligible, runnable}
use sre_blackboard.Queue.Line.{next_job-Among}
use sre_blackboard.Queue.Fairness.{claim_empty}
use sre_blackboard.Worker.Runner.{
  Worker, Link, free_slots, max_priority, job_kinds, claim_next, register, start, poll, execute,
}

module _ {ℓ} {A : Type ℓ} (p : A → Bool) where
  length-keep : (xs : List A) → length (keep p xs) ≤ length xs
  length-keep [] = omega arith
  length-keep (x ∷ xs) = let rest = length-keep xs in ground arith

  length-keep-keep : (q : A → Bool) (xs : List A) → length (keep p (keep q xs)) ≤ length (keep p xs)
  length-keep-keep q [] = omega arith
  length-keep-keep q (x ∷ xs) =
      let rest = length-keep-keep q xs in
      elim (Bool-cases (q x)) [ inl e ↦ rw e (ground arith) | inr e ↦ rw e (ground arith) ]

abbrev pub is_p0 : Job → Bool
is_p0 j = j.priority == 0

abbrev pub p0_jobs : Worker → ℕ
p0_jobs w = length (keep is_p0 w.in_flight)

abbrev pub other_jobs : Worker → ℕ
other_jobs w = length (keep (λ j. not (is_p0 j)) w.in_flight)

pub record Reserved (w : Worker) : Type 0 where
  pub staffed : length w.in_flight ≤ w.settings.worker_concurrency
  pub spared : other_jobs w ≤ w.settings.worker_concurrency - w.settings.worker_reserved_p0_slots

-- What a worker does between two awaits; anything may happen to the table in between.
pub data Turn (w : Worker) : Worker → Type 0 where
  polls :
      (now : ℕ) (reachable : Bool) (held : ℕ → Bool) (q : Queue)
      → Turn w (poll now reachable held w q).0
  ends :
      (now : ℕ) (draw : ℕ → ℕ) (link : Link) (j : Job) (q : Queue)
      → Turn w (execute now draw link j w q).0

pub data Turns (w : Worker) : Worker → Type 0 where
  here : Turns w w
  next : {v u : Worker} → Turns w v → Turn v u → Turns w u

split_p0 :
    (js : List Job) → length (keep is_p0 js) + length (keep (λ j. not (is_p0 j)) js) ≡ length js
split_p0 [] = refl
split_p0 (j ∷ js) = let rest = split_p0 js in ground arith

claim_priority :
    (now : ℕ) (owner : String) (ttl limit : ℕ) (kinds : Option (List String)) (held : ℕ → Bool)
    (q q' : Queue) (j : Job)
    → claim now owner ttl limit kinds held q ≡ (some j, q')
    → j.priority ≤ limit
unfolding claim runnable
claim_priority now owner ttl limit kinds held q q' j h =
    elim (Option-cases (next_job now limit kinds held q)) [
      | inl e ↦ absurd (ground arith)
      | inr (a, e) ↦
          let (_, fits, _) = next_job-Among now limit kinds held q e in
          let same : j.priority ≡ a.priority = ground arith in
          let within : a.priority ≤ limit = ground arith in omega arith
    ]

-- A job that a worker with the reserve takes leaves it the reserve.
register-Reserved :
    (w : Worker) (j : Job)
    → Reserved w
    → 0 < free_slots w
    → j.priority ≤ max_priority w
    → Reserved (register j w)
register-Reserved w j v free within =
    let fewer = length-keep (λ (x : Job). not (x.id == j.id)) w.in_flight in
    let fewer_others =
      length-keep-keep (λ x. not (is_p0 x)) (λ (x : Job). not (x.id == j.id)) w.in_flight in
    let others = length-keep (λ x. not (is_p0 x)) w.in_flight in
    let a = v.staffed in let b = v.spared in record { staffed = omega arith; spared = ground arith }

start-Reserved :
    (w : Worker) (c : Option Job × Queue)
    → Reserved w
    → ((j : Job) (q' : Queue)
        → c ≡ (some j, q')
        → (0 < free_slots w) × (j.priority ≤ max_priority w))
    → Reserved (start w c).0
start-Reserved w (none, q) v may = v
start-Reserved w (some j, q) v may =
    let (free, within) = may j q refl in register-Reserved w j v free within

poll-Reserved :
    (now : ℕ) (reachable : Bool) (held : ℕ → Bool) (w : Worker) (q : Queue)
    → Reserved w
    → Reserved (poll now reachable held w q).0
unfolding poll claim_next
poll-Reserved now reachable held w q v =
    start-Reserved w (claim_next now reachable held w q) v λ j q' e.
      elim (Bool-cases (not (free_slots w == 0) && reachable)) [
        | inr f ↦ absurd (ground arith)
        | inl f ↦ (
          ground arith,
          claim_priority now w.worker_id w.settings.queue_lease_ttl (max_priority w)
              (some (job_kinds w)) held q q' j (rw (f, claim_next) at e),
        )
      ]

execute-Reserved :
    (now : ℕ) (draw : ℕ → ℕ) (link : Link) (j : Job) (w : Worker) (q : Queue)
    → Reserved w
    → Reserved (execute now draw link j w q).0
unfolding execute
execute-Reserved now draw link j w q v =
    let fewer = length-keep (λ (x : Job). not (x.id == j.id)) w.in_flight in
    let fewer_others =
      length-keep-keep (λ x. not (is_p0 x)) (λ (x : Job). not (x.id == j.id)) w.in_flight in
    let a = v.staffed in let b = v.spared in record { staffed = omega arith; spared = omega arith }

Turn-Reserved : {w u : Worker} → Turn w u → Reserved w → Reserved u
Turn-Reserved {w} (polls now reachable held q) v = poll-Reserved now reachable held w q v
Turn-Reserved {w} (ends now draw link j q) v = execute-Reserved now draw link j w q v

Turns-Reserved : {w u : Worker} → Turns w u → Reserved w → Reserved u
Turns-Reserved here v = v
Turns-Reserved (next ts t) v = Turn-Reserved t (Turns-Reserved ts v)

eligible_above :
    (now limit : ℕ) (kinds : Option (List String)) (held : ℕ → Bool) (a : JobRow)
    → eligible now 0 kinds held a ≡ true
    → eligible now limit kinds held a ≡ true
unfolding runnable
eligible_above now limit kinds held a h = ground arith

-- The entries of the slots of a worker that starts with none, through all its turns.
pub Turns-Staffed : {w u : Worker} → w.in_flight ≡ [] → Turns w u → Reserved u
Turns-Staffed empty ts =
    Turns-Reserved ts (record { staffed = rw empty (omega arith); spared = rw empty (omega arith) })

-- A P0 never waits for a busy worker: a worker that started with no job in its slots, where fewer P0
-- run than slots are reserved, has a slot left for it, so that a claim which reaches the database
-- finds a job if a P0 of its kinds may be taken.
pub p0_claimed :
    {w u : Worker} (now : ℕ) (held : ℕ → Bool) (q : Queue) (a : JobRow)
    → w.in_flight ≡ []
    → Turns w u
    → p0_jobs u < u.settings.worker_reserved_p0_slots
    → u.settings.worker_reserved_p0_slots ≤ u.settings.worker_concurrency
    → Among a q.rows
    → eligible now 0 (some (job_kinds u)) held a ≡ true
    → (j : Job) × ((claim_next now true held u q).0 ≡ some j)
unfolding claim_next
p0_claimed {w} {u} now held q a empty ts few fits m may =
    let v : Reserved u = Turns-Staffed empty ts in
    let total = split_p0 u.in_flight in
    let spare = v.spared in
    let free : 0 < free_slots u = omega arith in
    let asks : not (free_slots u == 0) && true ≡ true = ground arith in
    elim (Option-cases (claim_next now true held u q).0) [
      | inr (j, e) ↦ (j, e)
      | inl e ↦
          let (_, none_left) =
            claim_empty now u.worker_id u.settings.queue_lease_ttl (max_priority u)
              (some (job_kinds u)) held q (rw (asks, claim_next) at e) in
          absurd (
            Among-All _ m none_left
              (eligible_above now (max_priority u) (some (job_kinds u)) held a may))
    ]
