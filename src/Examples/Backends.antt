-- ===== src/Examples/Backends.antt =====
-- A step with retries, and a recorded run of two agents that is replayed.
use sre_blackboard.Common.{
  ℕ, suc, ◌≡◌, refl, String, Bool, true, false, Option, none, some, List, [], ◌∷◌, ◌≤◌,
}
use sre_blackboard.Llm.Json.{null, boolean, number, array, end, item, Fields, done, field}
use sre_blackboard.Tools.Compress.{bound, marked, weight, weight_fields, clip_fields}
use sre_blackboard.Tools.Compress.Fits.{Fits, bound-Fits}
use sre_blackboard.Llm.Types.{StepResult, llm_error, overloaded, auth, LlmCode}
use sre_blackboard.Llm.Retry.{Retrying, step}
use sre_blackboard.Llm.Retry.Bounded.{Bounded, step-Bounded}
use sre_blackboard.Tools.Replay.{
  Answer, raw, Call, new_replay, record_all, fetch, fetch_all, key_eq,
}
use sre_blackboard.Tools.Replay.Order.{count_by, live_answers, nth_or_last}
use sre_blackboard.Tools.Replay.RoundTrip.{fetch-record_all}

abbrev failed : LlmCode → Bool → Option ℕ → StepResult
failed code retryable after = llm_error (record {
  code = code;
  message = "";
  retryable = retryable;
  retry_after_s = after;
  attempts = 1;
})

abbrev retrying : Retrying
retrying = record { retries = 3; base = 2000; max_wait = 120000 }

-- Overloaded twice, then refused for good.
abbrev answers : ℕ → StepResult
answers (suc (suc (suc n))) = failed auth false none
answers n = failed overloaded true (some 3000)

step_lem :
    ((step retrying answers (λ n. 0)).calls ≡ 3)
    × ((step retrying answers (λ n. 0)).sleeps ≡ 3000 ∷ (4000 ∷ []))
unfolding step
step_lem = (refl, refl)

step-Bounded_example : Bounded 4 retrying answers 1 (step retrying answers (λ n. 0))
step-Bounded_example = step-Bounded retrying answers (λ n. 0)

abbrev call_by : String → Call
call_by agent = record { tool = "prom_query"; args = "up"; agent = some agent }

-- The agents a and b send the same query, a twice.
abbrev live : List (Call × Answer)
live =
    (call_by "a", raw (number "1") 10)
    ∷ ((call_by "b", raw (number "2") 11) ∷ ((call_by "a", raw (number "3") 12) ∷ []))

-- The replay runs a first: its third call gets its second answer again.
fetch-record_all_example :
    (fetch (call_by "a") (
      fetch_all
        (call_by "a" ∷ (call_by "b" ∷ (call_by "a" ∷ [])))
        (new_replay (record_all live [])))).0
    ≡ some (raw (number "3") 12)
unfolding count_by live_answers nth_or_last key_eq
fetch-record_all_example =
    fetch-record_all "a" "prom_query" "up" live (call_by "a" ∷ (call_by "b" ∷ (call_by "a" ∷ [])))
      (call_by "a") (raw (number "3") 12) refl refl

-- A summary of four rows for a limit of two, where each row counts one.
abbrev rows : Fields
rows = field "rows" (array (item null (item null (item null (item null end))))) done

bound_lem : bound weight 2 rows ≡ (
  field "rows" (array (item null (item null end))) (field "truncated" (boolean true) done),
  true,
)
unfolding bound
bound_lem = refl

bound-Fits_example :
    (out : Fields) × (truncated : Bool) × (bound weight 2 rows ≡ marked (out, truncated))
    × Fits weight 2 out
    × (weight_fields out ≤ weight_fields (clip_fields rows))
    × (truncated ≡ false → out ≡ clip_fields rows)
bound-Fits_example = bound-Fits weight 2 rows
