-- ===== src/Examples/Recording.antt =====
-- One step, recorded and replayed.
use sre_blackboard.Common.{◌≡◌, refl, String, false, none, [], ◌∷◌, ◌++◌}
use sre_blackboard.Llm.Json.{null}
use sre_blackboard.Llm.Types.{LlmRequest, LlmResult, ok, no_usage}
use sre_blackboard.Llm.Replay.{record_steps, replay_step}
use sre_blackboard.Llm.Replay.Recorded.{replay_step-record_steps}

abbrev triage_request : LlmRequest
triage_request = record {
  agent = "coordinator";
  model = "m1";
  prompt_version = "p1";
  system = "You coordinate.";
  turns = [];
  tools = [];
  final_schema = null;
  max_actions = 5;
  force_final = false;
}

abbrev by_agent : LlmRequest → String
by_agent r = r.agent

abbrev live_result : LlmResult
live_result = record {
  answer = record { reasoning = "look at the logs"; actions = []; final = none };
  usage = no_usage;
  latency_ms = 900;
  model = "m1";
  backend = "cli";
  request_hash = "coordinator";
  attempts = 2;
}

-- An answer that an interrupted run got before.
abbrev older_result : LlmResult
older_result = record live_result { model = "m0" }

abbrev other_request : LlmRequest
other_request = record triage_request { agent = "synthesizer" }

replay_step-record_steps_example :
    replay_step by_agent
      (record_steps
        (((triage_request, ok older_result) ∷ [])
          ++ ((triage_request, ok live_result)
              ∷ (other_request, ok (record live_result { request_hash = "synthesizer" }))
              ∷ []))
        [])
      triage_request
    ≡ ok (record live_result {
      latency_ms = 0;
      backend = "replay";
      request_hash = "coordinator";
      attempts = 1;
    })
replay_step-record_steps_example =
    replay_step-record_steps by_agent ((triage_request, ok older_result) ∷ [])
      ((other_request, ok (record live_result { request_hash = "synthesizer" })) ∷ [])
      triage_request live_result refl refl
