-- ===== src/Worker/Runner/Crew.antt =====
-- The attempts that run in a worker, whether or not they have an entry in its slots.
use sre_blackboard.Common.{
  ℕ, ◌-◌, ◌≤◌, ◌≡◌, refl, sym, ap, ◌∙◌, subst, Bool, false, not, ◌&&◌, Option, none, some, List, [],
  ◌∷◌, length, keep, ◌==◌, ==_refl, arith, All, Among, first, later, Among-All, Bool-cases, inl,
  inr,
}
use sre_blackboard.Queue.{Job, Queue}
use sre_blackboard.Worker.Runner.{Worker, Link, claim_next, pop, start, poll, execute}
use sre_blackboard.Worker.Runner.Slots.{
  Reserved, Turns, here, next, polls, ends, Turns-Staffed, is_p0,
}

-- This attempt, which the job's fence tells apart from the other attempts at the job.
abbrev pub is_attempt : Job → Job → Bool
is_attempt j x = x.id == j.id && x.fence == j.fence

abbrev pub finish : Job → List Job → List Job
finish j alive = keep (λ x. not (is_attempt j x)) alive

-- The attempts that run after a claim.
abbrev pub started : Option Job → List Job → List Job
started none alive = alive
started (some j) alive = j ∷ alive

abbrev pub IsOther : Job → List Job → Type 0
IsOther j alive = All (λ x. (x.id == j.id) ≡ false) alive

-- No attempt at the claimed job still runs here.
abbrev pub IsNew : Option Job → List Job → Type 0
IsNew none alive = Unit
IsNew (some j) alive = IsOther j alive

-- The turns of a worker, with the attempts that run in it, whatever happens to the table in between.
-- A claim is of a job of which no attempt still runs in the worker; an attempt that runs ends.
pub data Crew (w : Worker) : Worker → List Job → Type 0 where
  idle : Crew w w []
  claims :
      {v : Worker} {alive : List Job} (now : ℕ) (reachable : Bool) (held : ℕ → Bool) (q : Queue)
      → Crew w v alive
      → IsNew (claim_next now reachable held v q).0 alive
      → Crew w (poll now reachable held v q).0 (started (claim_next now reachable held v q).0 alive)
  finishes :
      {v : Worker} {alive : List Job} (now : ℕ) (draw : ℕ → ℕ) (link : Link) (j : Job) (q : Queue)
      → Crew w v alive
      → Among j alive
      → Crew w (execute now draw link j v q).0 (finish j alive)

abbrev Apart : List Job → Type 0
Apart [] = Unit
Apart (x ∷ xs) = IsOther x xs × Apart xs

All-keep : (P : Job → Type 0) (p : Job → Bool) (xs : List Job) → All P xs → All P (keep p xs)
All-keep P p [] h = tt
All-keep P p (x ∷ xs) (a, h) =
    let rest = All-keep P p xs h in
    elim (Bool-cases (p x)) [ inl e ↦ rw e (a, rest) | inr e ↦ rw e rest ]

Apart-keep : (p : Job → Bool) (xs : List Job) → Apart xs → Apart (keep p xs)
Apart-keep p [] h = tt
Apart-keep p (x ∷ xs) (a, h) =
    let rest = Apart-keep p xs h in
    elim (Bool-cases (p x)) [ inl e ↦ rw e (All-keep _ p xs a, rest) | inr e ↦ rw e rest ]

pop-Other : (j : Job) (xs : List Job) → IsOther j xs → pop j.id xs ≡ xs
pop-Other j [] h = refl
pop-Other j (x ∷ xs) (e, h) = rw e (ap (λ r. x ∷ r) (pop-Other j xs h))

finish-Other : (j : Job) (xs : List Job) → IsOther j xs → finish j xs ≡ xs
finish-Other j [] h = refl
finish-Other j (x ∷ xs) (e, h) = rw e (ap (λ r. x ∷ r) (finish-Other j xs h))

-- The entry by its job is the entry of the attempt.
pop-finish : (j : Job) (xs : List Job) → Apart xs → Among j xs → pop j.id xs ≡ finish j xs
pop-finish j [] h m = elim m [ ]
pop-finish j (x ∷ xs) (a, h) (first e) =
    let a' : IsOther j xs = subst (λ y. IsOther y xs) e a in
    rw (e, ==_refl j.id, ==_refl j.fence) (pop-Other j xs a' ∙ sym (finish-Other j xs a'))
pop-finish j (x ∷ xs) (a, h) (later m) =
    let other : (j.id == x.id) ≡ false = Among-All _ m a in
    let other' : (x.id == j.id) ≡ false = ground arith in
    rw other' (ap (λ r. x ∷ r) (pop-finish j xs h m))

-- Every attempt that runs has its entry, and no two are at one job.
record Seen (v : Worker) (alive : List Job) : Type 0 where
  listed : v.in_flight ≡ alive
  apart : Apart alive

start-Seen :
    (v : Worker) (alive : List Job) (c : Option Job × Queue)
    → Seen v alive
    → IsNew c.0 alive
    → Seen (start v c).0 (started c.0 alive)
start-Seen v alive (none, q) s new = s
start-Seen v alive (some j, q) s new = record {
  listed = ap (λ r. j ∷ r) (ap (pop j.id) s.listed ∙ pop-Other j alive new);
  apart = (new, s.apart);
}

Crew-Seen : {w v : Worker} {alive : List Job} → w.in_flight ≡ [] → Crew w v alive → Seen v alive
unfolding poll execute
Crew-Seen empty idle = record { listed = empty; apart = tt }
Crew-Seen empty (claims {v} {alive} now reachable held q c new) =
    start-Seen v alive (claim_next now reachable held v q) (Crew-Seen empty c) new
Crew-Seen empty (finishes {v} {alive} now draw link j q c m) =
    let s = Crew-Seen empty c in
    record {
      listed = ap (pop j.id) s.listed ∙ pop-finish j alive s.apart m;
      apart = Apart-keep _ alive s.apart;
    }

Crew-Turns : {w v : Worker} {alive : List Job} → Crew w v alive → Turns w v
Crew-Turns idle = here
Crew-Turns (claims now reachable held q c new) = next (Crew-Turns c) (polls now reachable held q)
Crew-Turns (finishes now draw link j q c m) = next (Crew-Turns c) (ends now draw link j q)

pub record Bounded (v : Worker) (alive : List Job) : Type 0 where
  pub staffed : length alive ≤ v.settings.worker_concurrency
  pub spared :
      length (keep (λ j. not (is_p0 j)) alive)
      ≤ v.settings.worker_concurrency - v.settings.worker_reserved_p0_slots
  pub listed : v.in_flight ≡ alive

-- A worker that started with no job in its slots, and that never claimed a job while an attempt at
-- that job still ran in it, has an entry for exactly the attempts that run in it, runs at most as
-- many as it has slots, and of those at most the slots that are not reserved on jobs that are not
-- P0.
pub Crew-Bounded :
    {w v : Worker} {alive : List Job} → w.in_flight ≡ [] → Crew w v alive → Bounded v alive
Crew-Bounded {v = v} {alive} empty c =
    let s = Crew-Seen empty c in
    let r : Reserved v = Turns-Staffed empty (Crew-Turns c) in
    record {
      staffed = subst (λ js. length js ≤ v.settings.worker_concurrency) s.listed r.staffed;
      spared =
          subst
            (λ js.
              length (keep (λ j. not (is_p0 j)) js)
              ≤ v.settings.worker_concurrency - v.settings.worker_reserved_p0_slots)
            s.listed r.spared;
      listed = s.listed;
    }
