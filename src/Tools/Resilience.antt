-- ===== src/Tools/Resilience.antt =====
-- What the breaker remembers, and how often a fetch calls its backend.
use sre_blackboard.Common.{
  ◌⊎◌, Option, ℕ, zero, suc, ◌-◌, ◌≤◌, ◌<◌, ◌≡◌, Bool, true, false, none, some, List, [], ◌∷◌,
  arith, Option-cases, inl, inr,
}
use sre_blackboard.Tools.Breaker.{
  Breaker, check, record_call, Answer, circuit_open, after_error, tries, fetch,
}

-- What the fetches of a backend do to its breaker, each at some time: a check, or the record of a call.
pub data Event : Type 0 where
  checked : ℕ → Event
  recorded : ℕ → Bool → Event

abbrev pub time_of : Event → ℕ
time_of (checked t) = t
time_of (recorded t ok) = t

-- A check that fails leaves the breaker as it is.
abbrev pub after_event : Event → Breaker → Breaker
after_event (checked t) b = elim (check t b) [ none ↦ b | some c ↦ c ]
after_event (recorded t ok) b = record_call t ok b

-- A history, newest first: the fetches run at once, so that checks and records come in any order.
unfoldable pub after_all : List Event → Breaker → Breaker
unfolding check record_call
after_all [] b = b
after_all (e ∷ before) b = after_event e (after_all before b)

-- The failures since the last success, and the time of the last failure.
abbrev pub trailing : List Event → ℕ
trailing [] = 0
trailing (checked t ∷ before) = trailing before
trailing (recorded t true ∷ before) = 0
trailing (recorded t false ∷ before) = suc (trailing before)

abbrev pub last_failure : List Event → ℕ
last_failure [] = 0
last_failure (recorded t false ∷ before) = t
last_failure (e ∷ before) = last_failure before

-- The clock does not go back, and shows `now`.
abbrev pub Timed : ℕ → List Event → Type 0
Timed now [] = Unit
Timed now (e ∷ before) = (time_of e ≤ now) × Timed (time_of e) before

abbrev pub new_breaker : ℕ → ℕ → Breaker
new_breaker threshold cooldown = record {
  threshold = threshold;
  cooldown = cooldown;
  failures = 0;
  opened_at = none;
}

-- An open breaker is open since the last failure, and only past the threshold; a closed one is below
-- the threshold, or the cooldown has passed since the last failure.
abbrev pub Stands : ℕ → ℕ → ℕ → List Event → Option ℕ → Type 0
Stands threshold cooldown now h none = (trailing h < threshold) ⊎ (cooldown ≤ now - last_failure h)
Stands threshold cooldown now h (some t) = (t ≡ last_failure h) × (threshold ≤ trailing h)

record Remembers (threshold cooldown now : ℕ) (h : List Event) (b : Breaker) : Type 0 where
  counts : b.failures ≡ trailing h
  threshold_eq : b.threshold ≡ threshold
  cooldown_eq : b.cooldown ≡ cooldown
  stands : Stands threshold cooldown now h b.opened_at

tries_bounds :
    (answers : ℕ → Answer) (clock : ℕ → ℕ) (left n : ℕ) (b : Breaker)
    → (tries answers clock left n b).1 ≤ suc left
unfolding tries
tries_bounds answers clock zero n b = ground arith
tries_bounds answers clock (suc k) n b = elim (Option-cases (check (clock n) b)) [
  | inl e ↦ rw (e, tries) (omega arith)
  | inr (c, e) ↦
      let rest = tries_bounds answers clock k (suc n) (after_error (clock n) true c) in
      rw (e, tries) (ground arith)
]

refused :
    (answers : ℕ → Answer) (clock : ℕ → ℕ) (left n : ℕ) (b : Breaker) (t : ℕ)
    → b.opened_at ≡ some t
    → clock n - t < b.cooldown
    → tries answers clock left n b ≡ (circuit_open, 0, b)
unfolding tries check
refused answers clock zero n b t e l = ground arith
refused answers clock (suc k) n b t e l = ground arith

-- A fetch calls its backend once more than its retries at most, and not at all while the breaker is
-- open and its cooldown has not passed; it then leaves the breaker as it was.
pub fetch_bounds :
    (answers : ℕ → Answer) (clock : ℕ → ℕ) (retries : ℕ) (b : Breaker)
    → ((fetch answers clock retries b).1 ≤ suc retries)
      × ((t : ℕ)
          → b.opened_at ≡ some t
          → clock 1 - t < b.cooldown
          → fetch answers clock retries b ≡ (circuit_open, 0, b))
unfolding fetch
fetch_bounds answers clock retries b =
    (tries_bounds answers clock retries 1 b, (λ t e l. refused answers clock retries 1 b t e l))
