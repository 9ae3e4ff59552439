-- ===== src/Agents/Loop/Calls.antt =====
-- The table of tool calls through a run of an agent: it keeps what it has.
use sre_blackboard.Common.{
  ℕ, zero, suc, ◌≡◌, refl, sym, subst, String, not, ◌&&◌, List, ◌⊎◌, inl, inr, Bool-cases,
  Option-cases, leb, ltb, length, take, Among,
}
use sre_blackboard.Remediation.Policy.{is_empty}
use sre_blackboard.Llm.Json.{Json}
use sre_blackboard.Llm.Types.{LlmRequest, LlmError, Step, StepResult, ok, llm_error}
use sre_blackboard.Agents.Citations.{Problem, Checked}
use sre_blackboard.Agents.Store.{Store, tokens_used}
use sre_blackboard.Agents.Loop.{AgentSpec, Deps, State, ask, request_of}
use sre_blackboard.Agents.Loop.Run.{
  Progress, next, over, begin, asked, collect, data_turn, judged, final_turn, after_answer, turn,
  run_loop,
}
use sre_blackboard.Agents.Loop.Shown.{Extends}
use sre_blackboard.Agents.Loop.Noted.{call_tools-Extends}

-- The state that a turn leaves.
abbrev pub left : {V : Type 0} → Progress V → State V
left (next st) = st
left (over e st) = st

module _ {V : Type 0} (spec : AgentSpec V) (deps : Deps) (model : String)
    (check : V → List (String × String) → Store → Checked V) (wording : Problem → String) where
  collect-Extends :
      (answer : Step) (st : State V)
      → Extends st.store.tool_calls
          (collect spec deps model check wording answer st).store.tool_calls
  unfolding collect
  collect-Extends answer st = call_tools-Extends spec deps model (take 3 answer.actions) st.store

  judged-Extends :
      (c : Checked V) (st : State V)
      → Extends st.store.tool_calls
          (left (judged spec deps model check wording c st)).store.tool_calls
  unfolding judged
  judged-Extends c st =
      elim (Bool-cases (not (is_empty c.problems) && ltb st.run.rewrites spec.max_rewrites)) [
        | inl e ↦ rw e (λ r m. m)
        | inr e ↦ rw e (λ r m. m)
      ]

  final_turn-Extends :
      (answer : Step) (final : Json) (st : State V) (v : List String ⊎ V)
      → spec.validate final ≡ v
      → Extends st.store.tool_calls
          (left (final_turn spec deps model check wording answer final st)).store.tool_calls
  unfolding final_turn
  final_turn-Extends answer final st (inr parsed) h =
      rw (h, final_turn)
        (judged-Extends (check parsed st.run.shown st.store)
          (asked spec deps model check wording answer st))
  final_turn-Extends answer final st (inl problems) h =
      elim (Bool-cases (ltb st.run.rewrites spec.max_rewrites)) [
        | inl e ↦ rw (h, e, final_turn) (λ r m. m)
        | inr e ↦ rw (h, e, final_turn) (λ r m. m)
      ]

  after_answer-Extends :
      (request : LlmRequest) (a : LlmError ⊎ Step) (st : State V)
      → Extends st.store.tool_calls
          (left (after_answer spec deps model check wording request (a, st))).store.tool_calls
  unfolding after_answer data_turn
  after_answer-Extends request (inl e) st = λ r m. m
  after_answer-Extends request (inr answer) st = elim (Option-cases answer.final) [
    | inr (final, e) ↦ rw e (final_turn-Extends answer final st (spec.validate final) refl)
    | inl e ↦ elim (Bool-cases request.force_final) [
      | inl f ↦ rw (e, f) (λ r m. m)
      | inr f ↦ rw (e, f) (collect-Extends answer st)
    ]
  ]

  ask-calls :
      (request : LlmRequest) (st : State V) (r : StepResult)
      → deps.backend (length st.store.calls) request ≡ r
      → (ask spec deps model request st).1.store.tool_calls ≡ st.store.tool_calls
  unfolding ask
  ask-calls request st (ok result) e = rw (e, ask) refl
  ask-calls request st (llm_error x) e = rw (e, ask) refl

  turn-Extends :
      (tool_specs : List Json) (st : State V)
      → Extends st.store.tool_calls
          (left (turn spec deps model check wording tool_specs st)).store.tool_calls
  unfolding turn
  turn-Extends tool_specs st =
      let started = begin spec deps model check wording st in
      let request = request_of spec deps model tool_specs started.run in
      let asked = ask spec deps model request started in
      let same = ask-calls request started (deps.backend (length st.store.calls) request) refl in
      elim (Bool-cases (leb deps.token_budget (tokens_used deps.incident_id st.store))) [
        | inl h ↦ rw h (λ r m. m)
        | inr h ↦
            rw h
              (λ r m. after_answer-Extends request asked.0 asked.1 r (subst (Among r) (sym same) m))
      ]

  run_loop-step :
      (fuel : ℕ) (tool_specs : List Json) (st : State V) (p : Progress V)
      → turn spec deps model check wording tool_specs st ≡ p
      → Extends st.store.tool_calls (left p).store.tool_calls
      → ((s : State V)
          → Extends s.store.tool_calls
              (run_loop spec deps model check wording fuel tool_specs s).state.store.tool_calls)
      → Extends st.store.tool_calls
          (run_loop spec deps model check wording (suc fuel) tool_specs st).state.store.tool_calls
  unfolding run_loop
  run_loop-step fuel tool_specs st (next s) e h ih = rw (e, run_loop) (λ r m. ih s r (h r m))
  run_loop-step fuel tool_specs st (over x s) e h ih = rw (e, run_loop) h

  pub run_loop-Extends :
      (fuel : ℕ) (tool_specs : List Json) (st : State V)
      → Extends st.store.tool_calls
          (run_loop spec deps model check wording fuel tool_specs st).state.store.tool_calls
  unfolding run_loop
  run_loop-Extends zero tool_specs st = λ r m. m
  run_loop-Extends (suc k) tool_specs st =
      run_loop-step k tool_specs st (turn spec deps model check wording tool_specs st) refl
        (turn-Extends tool_specs st) (λ s. run_loop-Extends k tool_specs s)
