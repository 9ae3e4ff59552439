-- ===== src/Agents/Loop/Stable.antt =====
-- What tool calls and model calls leave as it was, a run of an agent leaves as it was.
use sre_blackboard.Common.{
  ℕ, zero, suc, ◌≡◌, refl, String, not, ◌&&◌, Option, List, [], ◌∷◌, ◌⊎◌, inl, inr, Bool-cases,
  Option-cases, leb, ltb, length, take,
}
use sre_blackboard.Remediation.Policy.{is_empty, mem}
use sre_blackboard.Llm.Json.{Json}
use sre_blackboard.Llm.Types.{Action, LlmRequest, LlmError, Step, StepResult, ok, llm_error}
use sre_blackboard.Tools.Registry.{EvidenceRecord, ToolCallRecord}
use sre_blackboard.Agents.Citations.{Problem, Checked}
use sre_blackboard.Agents.Store.{Store, LlmCallRecord, save, record_llm_call, tokens_used}
use sre_blackboard.Agents.Loop.{
  AgentSpec, Deps, State, ask, call_tool, call_tools, request_of, specs, new_run,
}
use sre_blackboard.Agents.Loop.Run.{
  Progress, next, over, begin, asked, collect, data_turn, judged, final_turn, after_answer, turn,
  run_loop, run_agent,
}
use sre_blackboard.Agents.Loop.Steps.{After}

-- A property of stores that a tool call and a model call keep.
pub record Stable (P : Store → Type 0) : Type 0 where
  pub saved : (e : Option EvidenceRecord) (c : ToolCallRecord) (s : Store) → P s → P (save e c s)
  pub booked : (r : LlmCallRecord) (s : Store) → P s → P (record_llm_call r s)

module _ {V : Type 0} (spec : AgentSpec V) (deps : Deps) (model : String)
    (check : V → List (String × String) → Store → Checked V) (wording : Problem → String)
    (P : Store → Type 0) (stable : Stable P) where
  call_tool_stable : (a : Action) (s : Store) → P s → P (call_tool spec deps model a s).1
  unfolding call_tool
  call_tool_stable a s h = elim (Bool-cases (mem a.tool spec.tools)) [
    | inl e ↦ rw (e, call_tool) (stable.saved _ _ s h)
    | inr e ↦ rw (e, call_tool) h
  ]

  call_tools_stable : (as' : List Action) (s : Store) → P s → P (call_tools spec deps model as' s).1
  unfolding call_tools
  call_tools_stable [] s h = h
  call_tools_stable (a ∷ as') s h =
      call_tools_stable as' (call_tool spec deps model a s).1 (call_tool_stable a s h)

  ask_stable :
      (request : LlmRequest) (st : State V) (r : StepResult)
      → deps.backend (length st.store.calls) request ≡ r
      → P st.store
      → P (ask spec deps model request st).1.store
  unfolding ask
  ask_stable request st (ok result) e h = rw (e, ask) (stable.booked _ st.store h)
  ask_stable request st (llm_error x) e h = rw (e, ask) (stable.booked _ st.store h)

  abbrev Holds : Progress V → Type 0
  Holds p = After (λ s. P s.store) (λ e s. P s.store) p

  judged_stable :
      (c : Checked V) (st : State V)
      → P st.store
      → Holds (judged spec deps model check wording c st)
  unfolding judged
  judged_stable c st h =
      elim (Bool-cases (not (is_empty c.problems) && ltb st.run.rewrites spec.max_rewrites)) [
        | inl e ↦ rw e h
        | inr e ↦ rw e h
      ]

  final_turn_stable :
      (answer : Step) (final : Json) (st : State V) (v : List String ⊎ V)
      → spec.validate final ≡ v
      → P st.store
      → Holds (final_turn spec deps model check wording answer final st)
  unfolding final_turn
  final_turn_stable answer final st (inr parsed) e h =
      rw (e, final_turn)
        (judged_stable (check parsed st.run.shown st.store)
          (asked spec deps model check wording answer st) h)
  final_turn_stable answer final st (inl problems) e h =
      elim (Bool-cases (ltb st.run.rewrites spec.max_rewrites)) [
        | inl b ↦ rw (e, b, final_turn) h
        | inr b ↦ rw (e, b, final_turn) h
      ]

  collect_stable :
      (answer : Step) (st : State V)
      → P st.store
      → P (collect spec deps model check wording answer st).store
  unfolding collect
  collect_stable answer st h = call_tools_stable (take 3 answer.actions) st.store h

  data_turn_stable :
      (request : LlmRequest) (answer : Step) (st : State V)
      → P st.store
      → Holds (data_turn spec deps model check wording request answer st)
  unfolding data_turn
  data_turn_stable request answer st h = elim (Bool-cases request.force_final) [
    | inl e ↦ rw e h
    | inr e ↦ rw e (collect_stable answer st h)
  ]

  after_answer_stable :
      (request : LlmRequest) (a : LlmError ⊎ Step) (st : State V)
      → P st.store
      → Holds (after_answer spec deps model check wording request (a, st))
  unfolding after_answer
  after_answer_stable request (inl e) st h = h
  after_answer_stable request (inr answer) st h = elim (Option-cases answer.final) [
    | inl e ↦ rw e (data_turn_stable request answer st h)
    | inr (final, e) ↦ rw e (final_turn_stable answer final st (spec.validate final) refl h)
  ]

  turn_stable :
      (tool_specs : List Json) (st : State V)
      → P st.store
      → Holds (turn spec deps model check wording tool_specs st)
  unfolding turn
  turn_stable tool_specs st h =
      let started = begin spec deps model check wording st in
      let request = request_of spec deps model tool_specs started.run in
      let asked = ask spec deps model request started in
      elim (Bool-cases (leb deps.token_budget (tokens_used deps.incident_id st.store))) [
        | inl e ↦ rw e h
        | inr e ↦ rw e (
            after_answer_stable request asked.0 asked.1
              (ask_stable request started (deps.backend (length st.store.calls) request) refl h))
      ]

  run_loop_step :
      (fuel : ℕ) (tool_specs : List Json) (st : State V) (p : Progress V)
      → turn spec deps model check wording tool_specs st ≡ p
      → Holds p
      → ((s : State V)
          → P s.store
          → P (run_loop spec deps model check wording fuel tool_specs s).state.store)
      → P (run_loop spec deps model check wording (suc fuel) tool_specs st).state.store
  unfolding run_loop
  run_loop_step fuel tool_specs st (next s) e h ih = rw (e, run_loop) (ih s h)
  run_loop_step fuel tool_specs st (over x s) e h ih = rw (e, run_loop) h

  run_loop_stable :
      (fuel : ℕ) (tool_specs : List Json) (st : State V)
      → P st.store
      → P (run_loop spec deps model check wording fuel tool_specs st).state.store
  unfolding run_loop
  run_loop_stable zero tool_specs st h = h
  run_loop_stable (suc k) tool_specs st h =
      run_loop_step k tool_specs st (turn spec deps model check wording tool_specs st) refl
        (turn_stable tool_specs st h) (run_loop_stable k tool_specs)

  pub run_agent_stable :
      (fuel : ℕ) (text : String) (store : Store)
      → P store
      → P (run_agent spec deps model check wording fuel text store).state.store
  unfolding run_agent
  run_agent_stable fuel text store h =
      elim (Option-cases (specs deps.tool_spec deps.registry spec.tools)) [
        | inl e ↦ rw (e, run_agent) h
        | inr (js, e) ↦
            rw (e, run_agent)
              (run_loop_stable fuel js (record { run = new_run text; store = store }) h)
      ]
