-- ===== src/Llm/Retry.antt =====
-- app/llm/retry.py: `RetryingBackend.step`. Waits are milliseconds; `inner n` is what the backend
-- answers to attempt `n`, and `jitter n`, in thousandths, what random() draws after it.
pub mod Bounded
use sre_blackboard.Common.{
  ℕ, zero, suc, ◌+◌, ◌-◌, ◌*◌, ◌/◌, ◌^◌, Bool, true, false, Option, none, some, List, [], ◌∷◌, ltb,
  if◌then◌else◌, min, max,
}
use sre_blackboard.Llm.Types.{StepResult, ok, llm_error, LlmResult, LlmError}

pub record Retrying : Type 0 where
  pub retries : ℕ
  pub base : ℕ
  pub max_wait : ℕ

-- What a step answers, how many calls of the inner backend it took, and the waits between them.
pub record Answered : Type 0 where
  pub answer : StepResult
  pub calls : ℕ
  pub sleeps : List ℕ

-- The result or the error, with the number of its attempt.
abbrev pub numbered : ℕ → StepResult → StepResult
numbered n (ok r) = ok (if ltb 1 n then record r { attempts = n } else r)
numbered n (llm_error e) = llm_error (record e { attempts = n })

-- base_s * 2 ** (attempt - 1) * (1 + random.random() / 2)
abbrev pub backoff : Retrying → (ℕ → ℕ) → ℕ → ℕ
backoff r jitter n = r.base * 2 ^ (n - 1) * (2000 + jitter n) / 2000

-- The wait before the next attempt; `none` where the service asks for a longer one than the cap.
abbrev pub wait_after : Retrying → (ℕ → ℕ) → ℕ → Option ℕ → Option ℕ
wait_after r jitter n none = some (min (backoff r jitter n) r.max_wait)
wait_after r jitter n (some after) =
    if ltb r.max_wait after then none else some (min (max (backoff r jitter n) after) r.max_wait)

abbrev pub last_call : ℕ → StepResult → Answered
last_call n a = record { answer = numbered n a; calls = n; sleeps = [] }

abbrev pub after_wait : ℕ → Answered → Answered
after_wait s a = record a { sleeps = s ∷ a.sleeps }

-- The loop at attempt `n`, with as many retries left as the first argument says.
unfoldable pub attempt : ℕ → Retrying → (ℕ → StepResult) → (ℕ → ℕ) → ℕ → Answered
attempt zero r inner jitter n = last_call n (inner n)
attempt (suc left) r inner jitter n = elim (inner n) [
  | ok result ↦ last_call n (ok result)
  | llm_error e ↦ elim (e.retryable) [
    | false ↦ last_call n (llm_error e)
    | true ↦ elim (wait_after r jitter n e.retry_after_s) [
      | none ↦ last_call n (llm_error e)
      | some s ↦ after_wait s (attempt left r inner jitter (suc n))
    ]
  ]
]

-- `attempt > self.retries` fails first at attempt retries + 1.
unfoldable pub step : Retrying → (ℕ → StepResult) → (ℕ → ℕ) → Answered
unfolding attempt
step r inner jitter = attempt r.retries r inner jitter 1
