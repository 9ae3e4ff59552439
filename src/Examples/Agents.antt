-- ===== src/Examples/Agents.antt =====
-- A small run of an agent: a tool call, a rejected answer and its rewrite, within a token budget.
use sre_blackboard.Common.{
  Among, first as at_first, later, ap, subst, ℕ, zero, suc, ◌≡◌, refl, sym, ◌∙◌, String, true, ◌⊎◌,
  Option, none, some, List, [], ◌∷◌, inl, inr, arith,
}
use sre_blackboard.Remediation.Plan.{lookup}
use sre_blackboard.Llm.Json.{Json, null, text, Fields, done}
use sre_blackboard.Llm.Types.{StepResult, ok, llm_error, unavailable, Action, LlmRequest}
use sre_blackboard.Tools.Registry.{
  Tool, ToolCallRecord, Codec, ToolError, Fetched, tool_error, timeout, said,
}
use sre_blackboard.Agents.Citations.{Finding, fact, metrics, Problem, Checked, check_report}
use sre_blackboard.Agents.Store.{Store, Entry, finding, entries_of, evidence_tools}
use sre_blackboard.Agents.Loop.{Ended, AgentSpec, AgentRun, Deps, returned, context, new_run}
use sre_blackboard.Agents.Loop.Run.{Outcome, run_agent}
use sre_blackboard.Agents.Once.{OnceResult, reused, finished, once_now}
use sre_blackboard.Agents.Once.Checkpoint.{Signed, LeftBy, once_now-Left}
use sre_blackboard.Agents.Once.Again.{once_now-once_now}
use sre_blackboard.Agents.Loop.Bounds.{Within, run_agent-Within}
use sre_blackboard.Agents.Loop.Booked.{Booked, run_agent-Booked}
use sre_blackboard.Agents.Loop.Shown.{Logged, Distinct, Owned}
use sre_blackboard.Agents.Loop.Judged.{Ends, run_agent-Ends}

abbrev empty_store : Store
empty_store = record { evidence = []; tool_calls = []; calls = []; run_rows = []; board = [] }

-- All digests are alike.
abbrev codec : Codec
codec = record {
  chars = λ v. 10;
  bytes = λ v. 10;
  sha256 = λ v. "h";
  sha256_of = λ scope tool args hash. "0123456789abcdef0123456789abcdef";
  uuid_text = λ n. "i";
}

abbrev query : Tool
query = record {
  name = "prom_query";
  backend = "prometheus";
  max_result_bytes = 100;
  validate = λ args. inr args;
  summarize = λ v args. some args;
}

abbrev finding_of : List String → Finding
finding_of ids = record {
  statement = "errors";
  kind = fact;
  signal = metrics;
  service = none;
  evidence_ids = ids;
  confidence = 1;
}

-- A null answer has no shape; any other reports one finding.
abbrev investigator : AgentSpec (List Finding)
investigator = record {
  name = "investigator.metrics";
  prompt_version = "1";
  prompt_text = "look";
  tools = "prom_query" ∷ [];
  final_schema = null;
  validate = λ v. elim v [
    | null ↦ inl ("(root): not a report" ∷ [])
    | text s ↦ inr (finding_of (s ∷ []) ∷ [])
    | _ ↦ inr []
  ];
  max_steps = 3;
  max_rewrites = 1;
}

abbrev answer_of : List Action → Option Json → StepResult
answer_of actions final = ok (record {
  answer = record { reasoning = ""; actions = actions; final = final };
  usage = record {
    input_tokens = 10;
    output_tokens = 5;
    cache_read_tokens = 0;
    cache_creation_tokens = 0;
  };
  latency_ms = 1;
  model = "m";
  backend = "api";
  request_hash = "r";
  attempts = 1;
})

-- It asks for data, then answers out of shape, then cites what it was shown.
abbrev model_answers : ℕ → StepResult
model_answers zero = answer_of (record { tool = "prom_query"; args = done } ∷ []) none
model_answers (suc zero) = answer_of [] (some null)
model_answers (suc (suc n)) = answer_of [] (some (text "ev_0123456789abcdef"))

abbrev deps : Deps
deps = record {
  backend_name = "api";
  backend = λ n r. model_answers n;
  request_hash = λ r. "r";
  codec = codec;
  registry = query ∷ [];
  tool_spec = λ t. text t.name;
  max_summary_chars = 6000;
  fetch =
      λ n agent t args. inr (record { raw = null; fetched_at = 5; attempts = 1; source = "live" });
  tenant_id = "t";
  incident_id = 7;
  token_budget = 100;
}

abbrev ids_of : List (String × String) → List String
ids_of [] = []
ids_of ((id, tool) ∷ rest) = id ∷ ids_of rest

abbrev check : List Finding → List (String × String) → Store → Checked (List Finding)
check findings shown store =
    check_report findings (evidence_tools store 7 ("ev_0123456789abcdef" ∷ [])) (ids_of shown)

abbrev wording : Problem → String
wording p = "problem"

abbrev run : Outcome (List Finding)
run = run_agent investigator deps "haiku" check wording 5 "why?" empty_store

-- The run takes a data step, a rewrite and a final step.
run_lem :
    (run.ended ≡ returned)
    × (run.state.run.final ≡ some (finding_of ("ev_0123456789abcdef" ∷ []) ∷ []))
    × (run.state.run.steps ≡ 3)
    × (run.state.run.rewrites ≡ 1)
    × (run.state.run.shown ≡ ("ev_0123456789abcdef", "prom_query") ∷ [])
unfolding run_agent check_report evidence_tools
run_lem = (refl, refl, refl, refl, refl)

run_agent-Within_example : Within investigator run
run_agent-Within_example =
    run_agent-Within investigator deps "haiku" check wording 5 "why?" empty_store (inl refl)
      (omega arith)

run_agent-Booked_example :
    Booked deps (record { run = new_run "why?"; store = empty_store }) run.ended run.state
run_agent-Booked_example =
    run_agent-Booked investigator deps "haiku" check wording 5 "why?" empty_store

-- The run records one call, which answers.
abbrev query_call : ToolCallRecord
query_call = record {
  tenant_id = "t";
  incident_id = some 7;
  agent = some investigator.name;
  tool = "prom_query";
  args = done;
  error = none;
  attempts = 1;
  evidence_id = some "ev_0123456789abcdef";
}

recorded_calls : run.state.store.tool_calls ≡ query_call ∷ []
unfolding run_agent check_report evidence_tools
recorded_calls = refl

is_query :
    (id t : String)
    → Logged (context investigator deps "haiku") run.state.store.tool_calls id t
    → t ≡ "prom_query"
is_query id t (r, there, i, named, e) =
    let among : Among r (query_call ∷ []) = subst (Among r) recorded_calls there in
    elim among [ at_first same ↦ sym named ∙ ap (λ c. c.tool) (sym same) | later m ↦ elim m [ ] ]

calls-Distinct : Distinct (context investigator deps "haiku") run.state.store.tool_calls
calls-Distinct id t u a b = is_query id t a ∙ sym (is_query id u b)

empty-Owned : Owned (context investigator deps "haiku") run.state.store.tool_calls []
unfolding lookup
empty-Owned id t tool i h e = absurd (ground arith)

run_agent-Ends_example : Ends investigator deps "haiku" check wording run.ended run.state
run_agent-Ends_example =
    run_agent-Ends investigator deps "haiku" check wording 5 "why?" empty_store calls-Distinct
      empty-Owned

-- One entry for the report.
abbrev report_entries : List Finding → AgentRun (List Finding) → List Entry × Fields
report_entries findings r = (
  record {
    kind = finding;
    author = "investigator.metrics";
    body = null;
    evidence_ids = "ev_0123456789abcdef" ∷ [];
  }
      ∷ [],
  done,
)

abbrev summary : AgentRun (List Finding) → Fields
summary r = done

abbrev error_text : Ended → String
error_text e = "failed"

abbrev first : OnceResult × Store
first =
    once_now investigator deps "haiku" check wording report_entries summary error_text "why?"
      empty_store

first_lem : first.0 ≡ finished (report_entries [] (new_run "why?")).0
unfolding once_now check_report evidence_tools
first_lem = refl

report-Signed : Signed investigator deps "haiku" check wording report_entries summary error_text
report-Signed v r = (refl, tt)

once_now-Left_example :
    LeftBy investigator deps "haiku" check wording report_entries summary error_text empty_store
      first
once_now-Left_example =
    once_now-Left investigator deps "haiku" check wording report_entries summary error_text "why?"
      empty_store (inl refl) report-Signed

-- A backend that is down.
abbrev down : ℕ → LlmRequest → StepResult
down n r = llm_error (record {
  code = unavailable;
  message = "";
  retryable = true;
  retry_after_s = none;
  attempts = 1;
})

abbrev no_source : ℕ → Option String → Tool → Fields → ToolError ⊎ Fetched
no_source n agent t args = inl (tool_error timeout (said "down"))

once_now-once_now_example :
    once_now investigator
      (record deps { backend = down; fetch = no_source })
      "haiku"
      check
      wording
      report_entries
      summary
      error_text
      "again"
      first.1
    ≡ (reused (report_entries [] (new_run "why?")).0, first.1)
unfolding entries_of
once_now-once_now_example =
    once_now-once_now investigator deps "haiku" check wording report_entries summary error_text
      "why?" "again" empty_store (report_entries [] (new_run "why?")).0 down no_source (inl refl)
      report-Signed refl first_lem
