-- ===== src/Agents/Loop.antt =====
-- app/agents/loop.py: the agent loop. The tool calls that a step gathers run one after the other here.
-- The span, the metrics and the price are left out.
pub mod Run
pub mod Steps
pub mod Bounds
pub mod Ledger
pub mod Booked
pub mod Shown
pub mod Noted
pub mod Calls
pub mod Judged
pub mod Stable
use sre_blackboard.Common.{
  ℕ, zero, suc, ◌+◌, String, Bool, true, false, not, ◌&&◌, Option, none, some, List, [], ◌∷◌, ◌++◌,
  ◌⊎◌, inl, inr, ltb, leb, if◌then◌else◌, map, take, length,
}
use sre_blackboard.Remediation.Policy.{is_empty, mem}
use sre_blackboard.Llm.Json.{Json, Fields}
use sre_blackboard.Llm.Types.{
  Usage, no_usage, Action, Step, Turn, user, step, results, task, not_accepted, last_step, ActionId,
  LlmRequest, LlmResult, StepResult, ok, llm_error, LlmError,
}
use sre_blackboard.Tools.Registry.{
  Tool, ToolContext, ToolOutcome, ToolError, tool_error, unknown_tool, not_yours, Fetched, Codec,
  failed, is_ok, for_model, try_call, call_record, find_tool, Content,
}
use sre_blackboard.Agents.Citations.{Problem, Checked}
use sre_blackboard.Agents.Store.{Store, LlmCallRecord, tokens_used, record_llm_call, save}

abbrev pub max_actions : ℕ
max_actions = 3

-- `validate` is model_validate of the answer's pydantic model, which fails with its problems.
pub record AgentSpec (V : Type 0) : Type 0 where
  pub name : String
  pub prompt_version : String
  pub prompt_text : String
  pub tools : List String
  pub final_schema : Json
  pub validate : Json → List String ⊎ V
  pub max_steps : ℕ
  pub max_rewrites : ℕ

pub record AgentRun (V : Type 0) : Type 0 where
  pub final : Option V
  pub steps : ℕ
  pub tool_calls : ℕ
  pub tool_errors : ℕ
  pub rewrites : ℕ
  pub dropped : ℕ
  pub problems : List Problem
  pub turns : List Turn
  pub shown : List (String × String)
  pub usage : Usage

-- The backend and the registry's source answer to a call that has so many calls of theirs recorded
-- before it. `tool_spec` is `Tool.spec`, `request_hash` is `LLMRequest.hash`.
pub record Deps : Type 0 where
  pub backend_name : String
  pub backend : ℕ → LlmRequest → StepResult
  pub request_hash : LlmRequest → String
  pub codec : Codec
  pub registry : List Tool
  pub tool_spec : Tool → Json
  pub max_summary_chars : ℕ
  pub fetch : ℕ → Option String → Tool → Fields → ToolError ⊎ Fetched
  pub tenant_id : String
  pub incident_id : ℕ
  pub token_budget : ℕ

pub record State (V : Type 0) : Type 0 where
  pub run : AgentRun V
  pub store : Store

-- How a run ends: it returns, raises BudgetExceeded with the tokens used, AgentFailed in two places,
-- the backend's LLMError, or the KeyError of a tool that the registry does not have.
pub data Ended : Type 0 where
  returned : Ended
  budget_exceeded : ℕ → Ended
  no_final : Ended
  bad_final : List String → Ended
  llm_failed : LlmError → Ended
  missing_tool : Ended
  out_of_fuel : Ended

abbrev pub new_run : {V : Type 0} → String → AgentRun V
new_run text = record {
  final = none;
  steps = 0;
  tool_calls = 0;
  tool_errors = 0;
  rewrites = 0;
  dropped = 0;
  problems = [];
  turns = user (task text) ∷ [];
  shown = [];
  usage = no_usage;
}

abbrev pub add_turn : {V : Type 0} → Turn → AgentRun V → AgentRun V
add_turn t run = record run { turns = run.turns ++ (t ∷ []) }

abbrev pub add_usage : Usage → Usage → Usage
add_usage u v = record {
  input_tokens = u.input_tokens + v.input_tokens;
  output_tokens = u.output_tokens + v.output_tokens;
  cache_read_tokens = u.cache_read_tokens + v.cache_read_tokens;
  cache_creation_tokens = u.cache_creation_tokens + v.cache_creation_tokens;
}

-- registry.specs(names)
unfoldable pub specs : (Tool → Json) → List Tool → List String → Option (List Json)
unfolding find_tool
specs spec tools [] = some []
specs spec tools (n ∷ ns) = elim (find_tool n tools) [
  | none ↦ none
  | some t ↦ elim (specs spec tools ns) [ none ↦ none | some js ↦ some (spec t ∷ js) ]
]

abbrev pub feedback : {V : Type 0} → List String → AgentRun V → AgentRun V
feedback problems run =
    add_turn (user (not_accepted problems)) (record run { rewrites = run.rewrites + 1 })

module _ {V : Type 0} (spec : AgentSpec V) (deps : Deps) (model : String) where
  abbrev pub context : ToolContext
  context = record {
    tenant_id = deps.tenant_id;
    incident_id = some deps.incident_id;
    agent = some spec.name;
    scope = none;
  }

  abbrev pub request_of : List Json → AgentRun V → LlmRequest
  request_of tool_specs run = record {
    agent = spec.name;
    model = model;
    prompt_version = spec.prompt_version;
    system = spec.prompt_text;
    turns = run.turns;
    tools = tool_specs;
    final_schema = spec.final_schema;
    max_actions = max_actions;
    force_final = not (is_empty tool_specs) && leb spec.max_steps run.steps;
  }

  abbrev pub call_of : LlmRequest → ℕ → LlmCallRecord
  call_of request step_no = record {
    tenant_id = deps.tenant_id;
    incident_id = some deps.incident_id;
    agent = spec.name;
    step_no = step_no;
    backend = deps.backend_name;
    model = request.model;
    prompt_version = request.prompt_version;
    request_hash = deps.request_hash request;
    usage = no_usage;
    attempts = 1;
    step = none;
    error = none;
  }

  abbrev pub ok_call : LlmCallRecord → LlmResult → LlmCallRecord
  ok_call call r = record call {
    backend = r.backend;
    model = r.model;
    usage = r.usage;
    attempts = r.attempts;
    step = some r.answer;
  }

  -- `_step`
  unfoldable pub ask : LlmRequest → State V → (LlmError ⊎ Step) × State V
  unfolding record_llm_call
  ask request st =
      let call = call_of request st.run.steps in
      elim (deps.backend (length st.store.calls) request) [
        | llm_error e ↦ (
          inl e,
          record st {
            store =
                record_llm_call (record call { error = some e; attempts = e.attempts }) st.store;
          },
        )
        | ok r ↦ (
          inr r.answer,
          record {
            run = record st.run { usage = add_usage st.run.usage r.usage };
            store = record_llm_call (ok_call call r) st.store;
          },
        )
      ]

  -- `_call`
  unfoldable pub call_tool : Action → Store → ToolOutcome × Store
  unfolding try_call save
  call_tool a store =
      let called =
        try_call deps.codec deps.max_summary_chars deps.registry
          (deps.fetch (length store.tool_calls) (some spec.name)) context a.tool a.args in
      if mem a.tool spec.tools
      then (called.outcome, save called.evidence (call_record context a.tool called.outcome) store)
      else (
        failed a.tool a.args none (tool_error unknown_tool (not_yours a.tool spec.tools)),
        store,
      )

  unfoldable pub call_tools : List Action → Store → List ToolOutcome × Store
  unfolding call_tool
  call_tools [] store = ([], store)
  call_tools (a ∷ as') store =
      let (o, after) = call_tool a store in let (os, last) = call_tools as' after in (o ∷ os, last)

-- The evidence id of an outcome that is shown to the agent.
abbrev pub shown_id : ToolOutcome → Option String
shown_id o = if is_ok o then o.evidence_id else none

-- An outcome's part in the run's counts and in `shown`, whose latest entry of an id counts.
unfoldable pub note_outcome : {V : Type 0} → ToolOutcome → AgentRun V → AgentRun V
note_outcome o run = elim (shown_id o) [
  | none ↦ record run { tool_calls = run.tool_calls + 1; tool_errors = run.tool_errors + 1 }
  | some id ↦ record run { tool_calls = run.tool_calls + 1; shown = (id, o.tool) ∷ run.shown }
]

unfoldable pub note_outcomes : {V : Type 0} → List ToolOutcome → AgentRun V → AgentRun V
unfolding note_outcome
note_outcomes [] run = run
note_outcomes (o ∷ os) run = note_outcomes os (note_outcome o run)

-- {"id": f"c{run.steps}_{i}", **a} for i from `i`
abbrev pub with_ids : ℕ → ℕ → List Action → List (ActionId × Action)
with_ids step_no i [] = []
with_ids step_no i (a ∷ as') = ((step_no, i), a) ∷ with_ids step_no (suc i) as'

unfoldable pub results_turn :
    List (ActionId × Action) → List ToolOutcome → List (ActionId × String × Content)
unfolding for_model
results_turn ((id, a) ∷ as') (o ∷ os) = (id, a.tool, for_model o) ∷ results_turn as' os
results_turn _ _ = []
