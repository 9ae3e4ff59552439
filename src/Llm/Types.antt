-- ===== src/Llm/Types.antt =====
-- app/llm/types.py: requests, results and errors of a model backend. The price of a call, a float that
-- nothing tests, is left out.
use sre_blackboard.Common.{ℕ, ◌+◌, String, Bool, Option, List}
use sre_blackboard.Llm.Json.{Json, Fields}
use sre_blackboard.Tools.Registry.{Content}

pub record Usage : Type 0 where
  pub input_tokens : ℕ
  pub output_tokens : ℕ
  pub cache_read_tokens : ℕ
  pub cache_creation_tokens : ℕ

abbrev pub no_usage : Usage
no_usage = record {
  input_tokens = 0;
  output_tokens = 0;
  cache_read_tokens = 0;
  cache_creation_tokens = 0;
}

abbrev pub prompt_tokens : Usage → ℕ
prompt_tokens u = u.input_tokens + u.cache_read_tokens + u.cache_creation_tokens

abbrev pub total : Usage → ℕ
total u = prompt_tokens u + u.output_tokens

pub record Action : Type 0 where
  pub tool : String
  pub args : Fields

-- {"reasoning", "actions", "final"}
pub record Step : Type 0 where
  pub reasoning : String
  pub actions : List Action
  pub final : Option Json

-- The user turns that the loop writes, as the data of their text.
pub data Note : Type 0 where
  task : String → Note
  not_accepted : List String → Note
  last_step : Note

-- The id of an action, f"c{step}_{i}", as its two numbers.
abbrev pub ActionId : Type 0
ActionId = ℕ × ℕ

pub data Turn : Type 0 where
  user : Note → Turn
  step : String → List (ActionId × Action) → Option Json → Turn
  results : List (ActionId × String × Content) → Turn

pub record LlmRequest : Type 0 where
  pub agent : String
  pub model : String
  pub prompt_version : String
  pub system : String
  pub turns : List Turn
  pub tools : List Json
  pub final_schema : Json
  pub max_actions : ℕ
  pub force_final : Bool

pub record LlmResult : Type 0 where
  pub answer : Step
  pub usage : Usage
  pub latency_ms : ℕ
  pub model : String
  pub backend : String
  pub request_hash : String
  pub attempts : ℕ

pub data LlmCode : Type 0 where
  rate_limited overloaded timeout auth bad_request invalid_output replay_miss unavailable : LlmCode

pub record LlmError : Type 0 where
  pub code : LlmCode
  pub message : String
  pub retryable : Bool
  pub retry_after_s : Option ℕ
  pub attempts : ℕ

pub data StepResult : Type 0 where
  ok : LlmResult → StepResult
  llm_error : LlmError → StepResult
