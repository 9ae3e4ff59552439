-- ===== src/Llm/Replay.antt =====
-- app/llm/replay.py: recording a backend's steps, and replaying them. A cassette is its entries, oldest
-- first; its file is JSON lines, and its header is left out. `hash` is LLMRequest.hash.
pub mod Recorded
use Prim.Native.String.{◌++◌ as str_append}
use sre_blackboard.Common.{
  String, Bool, true, false, not, ◌&&◌, Option, none, some, List, [], ◌∷◌, ◌++◌, str_eq,
  if◌then◌else◌,
}
use sre_blackboard.Llm.Types.{
  Usage, Step, LlmRequest, LlmResult, LlmError, StepResult, ok, llm_error, replay_miss,
}

pub record RecordedStep : Type 0 where
  pub agent : String
  pub prompt_version : String
  pub request_hash : String
  pub model : String
  pub answer : Step
  pub usage : Usage

-- f"{agent}|{prompt_version}|{request_hash}"
abbrev pub replay_key : String → String → String → String
replay_key agent prompt_version request_hash =
    str_append agent (str_append "|" (str_append prompt_version (str_append "|" request_hash)))

-- `LLMCassette.add`
abbrev pub entry_of : LlmRequest → LlmResult → RecordedStep
entry_of request result = record {
  agent = request.agent;
  prompt_version = request.prompt_version;
  request_hash = result.request_hash;
  model = result.model;
  answer = result.answer;
  usage = result.usage;
}

-- `RecordingBackend.step`: an error of the live backend goes on, and nothing is recorded.
abbrev pub record_step : LlmRequest → StepResult → List RecordedStep → List RecordedStep
record_step request (ok r) entries = entries ++ (entry_of request r ∷ [])
record_step request (llm_error e) entries = entries

-- The steps of a run, each with what the live backend answered.
unfoldable pub record_steps : List (LlmRequest × StepResult) → List RecordedStep → List RecordedStep
record_steps [] entries = entries
record_steps ((request, a) ∷ rest) entries = record_steps rest (record_step request a entries)

abbrev pub key_of : RecordedStep → String
key_of e = replay_key e.agent e.prompt_version e.request_hash

-- The dictionary of `ReplayBackend.__init__`: a later entry stands before those that it replaces.
unfoldable pub load : List RecordedStep → List RecordedStep → List RecordedStep
load [] entries = entries
load (e ∷ rest) entries = load rest (e ∷ entries)

unfoldable pub get_entry : String → List RecordedStep → Option RecordedStep
get_entry k [] = none
get_entry k (e ∷ rest) =
    let below = get_entry k rest in if str_eq (key_of e) k then some e else below

abbrev pub request_key : (LlmRequest → String) → LlmRequest → String
request_key hash request = replay_key request.agent request.prompt_version (hash request)

-- Of the error's message, the start.
abbrev pub replayed : String → Option RecordedStep → StepResult
replayed h none = llm_error (record {
  code = replay_miss;
  message = "no recorded step";
  retryable = false;
  retry_after_s = none;
  attempts = 1;
})
replayed h (some e) = ok (record {
  answer = e.answer;
  usage = e.usage;
  latency_ms = 0;
  model = e.model;
  backend = "replay";
  request_hash = h;
  attempts = 1;
})

-- `ReplayBackend.step`, on a cassette.
unfoldable pub replay_step : (LlmRequest → String) → List RecordedStep → LlmRequest → StepResult
unfolding load get_entry
replay_step hash cassette request =
    replayed (hash request) (get_entry (request_key hash request) (load cassette []))
