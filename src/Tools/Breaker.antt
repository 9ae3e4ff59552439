-- ===== src/Tools/Breaker.antt =====
-- app/tools/sources.py: `Breaker`, and the loop of `LiveSource.fetch`. The clock's reading at a call is
-- an argument; `answers n` is what the backend answers to attempt `n`; the wait between two attempts
-- is not modelled.
use sre_blackboard.Common.{
  ℕ, zero, suc, ◌+◌, ◌-◌, String, Bool, true, false, Option, none, some, ltb, leb, if◌then◌else◌,
}

pub record Breaker : Type 0 where
  pub threshold : ℕ
  pub cooldown : ℕ
  pub failures : ℕ
  pub opened_at : Option ℕ

-- opened_at and the test of `check`, which fails while the breaker is open.
abbrev pub check_at : ℕ → Breaker → Option ℕ → Option Breaker
check_at now b none = some b
check_at now b (some t) =
    if ltb (now - t) b.cooldown then none else some (record b { opened_at = none })

-- `none`: the ToolError "circuit_open".
unfoldable pub check : ℕ → Breaker → Option Breaker
check now b = check_at now b b.opened_at

unfoldable pub record_call : ℕ → Bool → Breaker → Breaker
record_call now true b = record b { failures = 0; opened_at = none }
record_call now false b =
    let n = b.failures + 1 in
    record b { failures = n; opened_at = if leb b.threshold n then some now else b.opened_at }

-- A backend's answer: the result, or a ToolError that may be retryable, as a timeout is.
pub data Answer : Type 0 where
  raw : String → Answer
  tool_error : Bool → Answer

pub data Fetched : Type 0 where
  fetched : String → ℕ → Fetched
  failed : Bool → ℕ → Fetched
  circuit_open : Fetched

-- What one attempt's answer means for the breaker.
abbrev pub after_error : ℕ → Bool → Breaker → Breaker
after_error now true b = record_call now false b
after_error now false b = b

abbrev pub counted : Fetched × ℕ × Breaker → Fetched × ℕ × Breaker
counted (out, calls, b) = (out, suc calls, b)

-- The loop of `fetch`: the outcome, the number of calls of the backend, and the breaker. The third
-- argument is how many retries are left after attempt `n`.
unfoldable pub tries : (ℕ → Answer) → (ℕ → ℕ) → ℕ → ℕ → Breaker → Fetched × ℕ × Breaker
unfolding check record_call
tries answers clock zero n b = elim (check (clock n) b) [
  | none ↦ (circuit_open, 0, b)
  | some c ↦ elim (answers n) [
    | raw r ↦ (fetched r n, 1, record_call (clock n) true c)
    | tool_error retryable ↦ (failed retryable n, 1, after_error (clock n) retryable c)
  ]
]
tries answers clock (suc k) n b = elim (check (clock n) b) [
  | none ↦ (circuit_open, 0, b)
  | some c ↦ elim (answers n) [
    | raw r ↦ (fetched r n, 1, record_call (clock n) true c)
    | tool_error retryable ↦ elim retryable [
      | true ↦ counted (tries answers clock k (suc n) (after_error (clock n) true c))
      | false ↦ (failed false n, 1, after_error (clock n) false c)
    ]
  ]
]

unfoldable pub fetch : (ℕ → Answer) → (ℕ → ℕ) → ℕ → Breaker → Fetched × ℕ × Breaker
unfolding tries
fetch answers clock retries b = tries answers clock retries 1 b
