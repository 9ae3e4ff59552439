-- ===== src/Agents/Loop/Run.antt =====
-- app/agents/loop.py: the turns of `_run`, and `run_agent`. `check` is the citation check that the caller
-- passes, which reads the store, and `wording` writes out a problem that it finds.
use sre_blackboard.Common.{
  ℕ, zero, suc, ◌+◌, String, not, ◌&&◌, none, some, List, ◌⊎◌, inl, inr, ltb, leb, if◌then◌else◌,
  map, take,
}
use sre_blackboard.Remediation.Policy.{is_empty}
use sre_blackboard.Llm.Json.{Json}
use sre_blackboard.Llm.Types.{Step, user, step, results, last_step, LlmRequest, LlmError}
use sre_blackboard.Agents.Citations.{Problem, Checked}
use sre_blackboard.Agents.Store.{Store, tokens_used}
use sre_blackboard.Agents.Loop.{
  AgentSpec, AgentRun, Deps, State, Ended, returned, budget_exceeded, no_final, bad_final,
  llm_failed, missing_tool, out_of_fuel, new_run, add_turn, feedback, specs, request_of, ask,
  call_tools, note_outcomes, with_ids, results_turn, max_actions,
}

-- How a run ended, and what it left behind.
pub record Outcome (V : Type 0) : Type 0 where
  pub ended : Ended
  pub state : State V

-- One turn of the loop goes on or ends the run.
pub data Progress (V : Type 0) : Type 0 where
  next : State V → Progress V
  over : Ended → State V → Progress V

module _ {V : Type 0} (spec : AgentSpec V) (deps : Deps) (model : String)
    (check : V → List (String × String) → Store → Checked V) (wording : Problem → String) where
  -- run.steps += 1
  abbrev pub begin : State V → State V
  begin st = record st { run = record st.run { steps = st.run.steps + 1 } }

  abbrev pub last_step_note : AgentRun V → AgentRun V
  last_step_note run =
      if leb spec.max_steps (run.steps + 1) then add_turn (user last_step) run else run

  -- The step in the transcript.
  abbrev pub asked : Step → State V → State V
  asked answer st = record st {
    run =
        add_turn
          (step answer.reasoning (with_ids st.run.steps 1 (take max_actions answer.actions))
            answer.final)
          st.run;
  }

  -- The actions are called, at most three of them, and their results told.
  unfoldable pub collect : Step → State V → State V
  unfolding call_tools note_outcomes results_turn
  collect answer st =
      let actions = take max_actions answer.actions in
      let called = call_tools spec deps model actions st.store in
      let told = results (results_turn (with_ids st.run.steps 1 actions) called.0) in
      record {
        run = last_step_note (add_turn told (note_outcomes called.0 (asked answer st).run));
        store = called.1;
      }

  -- A step with no final answer.
  unfoldable pub data_turn : LlmRequest → Step → State V → Progress V
  unfolding collect
  data_turn request answer st =
      if request.force_final then over no_final (asked answer st) else next (collect answer st)

  -- The answer of a final step after the schema: the check, and a rewrite where one is left.
  unfoldable pub judged : Checked V → State V → Progress V
  judged c st =
      let run = record st.run { problems = c.problems } in
      if not (is_empty c.problems) && ltb run.rewrites spec.max_rewrites
      then next (record st { run = feedback (map wording c.problems) run })
      else over returned
          (record st { run = record run { final = some c.value; dropped = c.dropped } })

  unfoldable pub final_turn : Step → Json → State V → Progress V
  unfolding judged
  final_turn answer final st = elim (spec.validate final) [
    | inl problems ↦
        if ltb st.run.rewrites spec.max_rewrites
        then next (record st { run = feedback (take 8 problems) (asked answer st).run })
        else over (bad_final (take 8 problems)) (asked answer st)
    | inr parsed ↦ judged (check parsed st.run.shown st.store) (asked answer st)
  ]

  unfoldable pub after_answer : LlmRequest → (LlmError ⊎ Step) × State V → Progress V
  unfolding data_turn final_turn
  after_answer request (inl e, st) = over (llm_failed e) st
  after_answer request (inr answer, st) = elim (answer.final) [
    | none ↦ data_turn request answer st
    | some final ↦ final_turn answer final st
  ]

  unfoldable pub turn : List Json → State V → Progress V
  unfolding tokens_used ask after_answer
  turn tool_specs st =
      let started = begin st in
      let used = tokens_used deps.incident_id started.store in
      let request = request_of spec deps model tool_specs started.run in
      if leb deps.token_budget used
      then over (budget_exceeded used) started
      else after_answer request (ask spec deps model request started)

  unfoldable pub run_loop : ℕ → List Json → State V → Outcome V
  unfolding turn
  run_loop zero tool_specs st = record { ended = out_of_fuel; state = st }
  run_loop (suc fuel) tool_specs st = elim (turn tool_specs st) [
    | over e last ↦ record { ended = e; state = last }
    | next after ↦ run_loop fuel tool_specs after
  ]

  -- `run_agent`, for so many turns at most.
  unfoldable pub run_agent : ℕ → String → Store → Outcome V
  unfolding run_loop specs
  run_agent fuel text store =
      let st : State V = record { run = new_run text; store = store } in
      elim (specs deps.tool_spec deps.registry spec.tools) [
        | none ↦ record { ended = missing_tool; state = st }
        | some tool_specs ↦ run_loop fuel tool_specs st
      ]
