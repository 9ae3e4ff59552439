-- ===== src/Agents/Loop/Judged.antt =====
-- A returned answer has been checked, against evidence that the agent was shown and that is stored.
use sre_blackboard.Common.{
  ℕ, zero, suc, ◌+◌, ◌≤◌, ◌≡◌, refl, sym, subst, String, false, not, ◌&&◌, some, List, [], ◌∷◌, ◌⊎◌,
  inl, inr, arith, Bool-cases, Option-cases, leb, ltb, length, take,
}
use sre_blackboard.Remediation.Policy.{is_empty}
use sre_blackboard.Llm.Json.{Json}
use sre_blackboard.Llm.Types.{LlmRequest, LlmError, Step, StepResult, ok, llm_error, results}
use sre_blackboard.Agents.Citations.{Problem, Checked}
use sre_blackboard.Agents.Store.{Store, tokens_used}
use sre_blackboard.Agents.Loop.{
  AgentSpec, AgentRun, Deps, State, Ended, returned, ask, request_of, specs, new_run, context,
  call_tools, note_outcomes, add_turn, results_turn, with_ids,
}
use sre_blackboard.Agents.Loop.Run.{
  Outcome, Progress, next, over, begin, asked, collect, last_step_note, data_turn, judged,
  final_turn, after_answer, turn, run_loop, run_agent,
}
use sre_blackboard.Agents.Loop.Steps.{After}
use sre_blackboard.Tools.Registry.{ToolCallRecord}
use sre_blackboard.Agents.Loop.Shown.{Distinct, Owned, Extends}
use sre_blackboard.Agents.Loop.Noted.{AllReal, AllReal-Grows, call_tools-Shows, note_outcomes-Real}
use sre_blackboard.Agents.Loop.Calls.{left, run_loop-Extends}

module _ {V : Type 0} (spec : AgentSpec V) (deps : Deps) (model : String)
    (check : V → List (String × String) → Store → Checked V) (wording : Problem → String) where
  -- The agent was shown stored evidence only.
  pub record Sound (calls : List ToolCallRecord) (st : State V) : Type 0 where
    pub owned : Owned (context spec deps model) calls st.store.evidence
    pub shown : AllReal spec deps model st.store.evidence st.run.shown

  -- The final answer is what the check left of an answer of the right shape: it found no problem with
  -- it, or no rewrite was left.
  pub record Judgement (st : State V) : Type 0 where
    pub answer : Json
    pub parsed : V
    pub shaped : spec.validate answer ≡ inr parsed
    pub final : st.run.final ≡ some ((check parsed st.run.shown st.store).value)
    pub dropped : st.run.dropped ≡ (check parsed st.run.shown st.store).dropped
    pub passed :
        ((check parsed st.run.shown st.store).problems ≡ []) ⊎ (spec.max_rewrites ≤ st.run.rewrites)

  abbrev pub Ends : Ended → State V → Type 0
  Ends e st = Sound st.store.tool_calls st × (e ≡ returned → Judgement st)

  abbrev EndsIn : List ToolCallRecord → Ended → State V → Type 0
  EndsIn calls e st = Sound calls st × (e ≡ returned → Judgement st)

  -- A turn whose calls are among those of the run.
  abbrev Safe : List ToolCallRecord → Progress V → Type 0
  Safe calls p = Extends (left p).store.tool_calls calls → After (Sound calls) (EndsIn calls) p

  last_step_note-shown :
      (run : AgentRun V) → (last_step_note spec deps model check wording run).shown ≡ run.shown
  last_step_note-shown run = elim (Bool-cases (leb spec.max_steps (run.steps + 1))) [
    | inl e ↦ rw e refl
    | inr e ↦ rw e refl
  ]

  collect-Sound :
      (calls : List ToolCallRecord) (answer : Step) (st : State V)
      → Distinct (context spec deps model) calls
      → Sound calls st
      → Extends (collect spec deps model check wording answer st).store.tool_calls calls
      → Sound calls (collect spec deps model check wording answer st)
  unfolding collect
  collect-Sound calls answer st d s all =
      let actions = take 3 answer.actions in
      let called = call_tools spec deps model actions st.store in
      let run = (asked spec deps model check wording answer st).run in
      let told = results (results_turn (with_ids st.run.steps 1 actions) called.0) in
      let (g, h) = call_tools-Shows spec deps model calls actions st.store d s.owned all in
      record {
        owned = g.owned;
        shown =
            subst (AllReal spec deps model called.1.evidence)
              (sym (last_step_note-shown (add_turn told (note_outcomes called.0 run))))
              (note_outcomes-Real spec deps model called.1.evidence called.0 run h (
                AllReal-Grows spec deps model calls st.store.evidence called.1.evidence st.run.shown
                  g s.shown));
      }

  same-Sound :
      (calls : List ToolCallRecord) (st s : State V)
      → Sound calls st
      → s.store.evidence ≡ st.store.evidence
      → s.run.shown ≡ st.run.shown
      → Sound calls s
  same-Sound calls st s h e f = record {
    owned = subst (Owned (context spec deps model) calls) (sym e) h.owned;
    shown =
        subst (λ r. AllReal spec deps model r s.run.shown) (sym e)
          (subst (AllReal spec deps model st.store.evidence) (sym f) h.shown);
  }

  none_left :
      (ps : List Problem) (a b : ℕ) → (not (is_empty ps) && ltb a b) ≡ false → (ps ≡ []) ⊎ (b ≤ a)
  none_left [] a b h = inl refl
  none_left (p ∷ ps) a b h = inr (ground arith)

  judged-Safe :
      (calls : List ToolCallRecord) (answer : Json) (parsed : V) (st : State V)
      → spec.validate answer ≡ inr parsed
      → Sound calls st
      → Safe calls (judged spec deps model check wording (check parsed st.run.shown st.store) st)
  unfolding judged
  judged-Safe calls answer parsed st v h =
      let c = check parsed st.run.shown st.store in
      elim (Bool-cases (not (is_empty c.problems) && ltb st.run.rewrites spec.max_rewrites)) [
        | inl e ↦ rw e (λ all. same-Sound calls st _ h refl refl)
        | inr e ↦ rw e (λ all. (
          same-Sound calls st _ h refl refl,
          λ x. record {
            answer = answer;
            parsed = parsed;
            shaped = v;
            final = refl;
            dropped = refl;
            passed = none_left c.problems st.run.rewrites spec.max_rewrites e;
          },
        ))
      ]

  final_turn-Safe :
      (calls : List ToolCallRecord) (answer : Step) (final : Json) (st : State V)
      (v : List String ⊎ V)
      → spec.validate final ≡ v
      → Sound calls st
      → Safe calls (final_turn spec deps model check wording answer final st)
  unfolding final_turn
  final_turn-Safe calls answer final st (inr parsed) h s =
      rw (h, final_turn)
        (judged-Safe calls final parsed (asked spec deps model check wording answer st) h
          (same-Sound calls st _ s refl refl))
  final_turn-Safe calls answer final st (inl problems) h s =
      elim (Bool-cases (ltb st.run.rewrites spec.max_rewrites)) [
        | inl e ↦ rw (h, e, final_turn) (λ all. same-Sound calls st _ s refl refl)
        | inr e ↦ rw (h, e, final_turn) (λ all. (same-Sound calls st _ s refl refl, λ x. cc))
      ]

  data_turn-Safe :
      (calls : List ToolCallRecord) (request : LlmRequest) (answer : Step) (st : State V)
      → Distinct (context spec deps model) calls
      → Sound calls st
      → Safe calls (data_turn spec deps model check wording request answer st)
  unfolding data_turn
  data_turn-Safe calls request answer st d s = elim (Bool-cases request.force_final) [
    | inl e ↦ rw e (λ all. (same-Sound calls st _ s refl refl, λ x. cc))
    | inr e ↦ rw e (collect-Sound calls answer st d s)
  ]

  after_answer-Safe :
      (calls : List ToolCallRecord) (request : LlmRequest) (a : LlmError ⊎ Step) (st : State V)
      → Distinct (context spec deps model) calls
      → Sound calls st
      → Safe calls (after_answer spec deps model check wording request (a, st))
  unfolding after_answer
  after_answer-Safe calls request (inl e) st d s = λ all. (s, λ x. cc)
  after_answer-Safe calls request (inr answer) st d s = elim (Option-cases answer.final) [
    | inl e ↦ rw e (data_turn-Safe calls request answer st d s)
    | inr (final, e) ↦ rw e (final_turn-Safe calls answer final st (spec.validate final) refl s)
  ]

  ask-Sound :
      (calls : List ToolCallRecord) (request : LlmRequest) (st : State V) (r : StepResult)
      → deps.backend (length st.store.calls) request ≡ r
      → Sound calls st
      → Sound calls (ask spec deps model request st).1
  unfolding ask
  ask-Sound calls request st (ok result) e s = rw (e, ask) (same-Sound calls st _ s refl refl)
  ask-Sound calls request st (llm_error x) e s = rw (e, ask) (same-Sound calls st _ s refl refl)

  turn-Safe :
      (calls : List ToolCallRecord) (tool_specs : List Json) (st : State V)
      → Distinct (context spec deps model) calls
      → Sound calls st
      → Safe calls (turn spec deps model check wording tool_specs st)
  unfolding turn
  turn-Safe calls tool_specs st d s =
      let started = begin spec deps model check wording st in
      let request = request_of spec deps model tool_specs started.run in
      let asked = ask spec deps model request started in
      let sound = same-Sound calls st started s refl refl in
      elim (Bool-cases (leb deps.token_budget (tokens_used deps.incident_id st.store))) [
        | inl h ↦ rw h (λ all. (sound, λ x. cc))
        | inr h ↦ rw h (
            after_answer-Safe calls request asked.0 asked.1 d (
              ask-Sound calls request started (deps.backend (length st.store.calls) request) refl
                sound))
      ]

  -- A run whose calls are among `calls`.
  abbrev Endings : List ToolCallRecord → Outcome V → Type 0
  Endings calls o = Extends o.state.store.tool_calls calls → EndsIn calls o.ended o.state

  run_loop-step :
      (calls : List ToolCallRecord) (fuel : ℕ) (tool_specs : List Json) (st : State V)
      (p : Progress V)
      → turn spec deps model check wording tool_specs st ≡ p
      → Safe calls p
      → ((s : State V)
          → Sound calls s
          → Endings calls (run_loop spec deps model check wording fuel tool_specs s))
      → Endings calls (run_loop spec deps model check wording (suc fuel) tool_specs st)
  unfolding run_loop
  run_loop-step calls fuel tool_specs st (next s) e h ih =
      rw (e, run_loop)
        (λ all.
          ih s
            (h
              (λ r m. all r (run_loop-Extends spec deps model check wording fuel tool_specs s r m)))
            all)
  run_loop-step calls fuel tool_specs st (over x s) e h ih = rw (e, run_loop) h

  run_loop-Ends :
      (calls : List ToolCallRecord) (fuel : ℕ) (tool_specs : List Json) (st : State V)
      → Distinct (context spec deps model) calls
      → Sound calls st
      → Endings calls (run_loop spec deps model check wording fuel tool_specs st)
  unfolding run_loop
  run_loop-Ends calls zero tool_specs st d s = λ all. (s, λ x. cc)
  run_loop-Ends calls (suc k) tool_specs st d s =
      run_loop-step calls k tool_specs st (turn spec deps model check wording tool_specs st) refl
        (turn-Safe calls tool_specs st d s) (λ t. run_loop-Ends calls k tool_specs t d)

  -- Where no two tools' calls for the incident, of those recorded when the run ends, have evidence with
  -- the same id, and the rows that were there under the ids of those calls are of this incident and of
  -- the call's tool: however a run of an agent ends, all that it was shown is stored evidence of its
  -- incident, from its own tools. If it returns, its final answer is what the check left of an answer of
  -- the right shape, against what the agent was shown; the check found no problem in that answer, or no
  -- rewrite was left.
  pub run_agent-Ends :
      (fuel : ℕ) (text : String) (store : Store)
      → let o = run_agent spec deps model check wording fuel text store in
        Distinct (context spec deps model) o.state.store.tool_calls
        → Owned (context spec deps model) o.state.store.tool_calls store.evidence
        → Ends o.ended o.state
  unfolding run_agent
  run_agent-Ends fuel text store =
      let st : State V = record { run = new_run text; store = store } in
      elim (Option-cases (specs deps.tool_spec deps.registry spec.tools)) [
        | inl e ↦ rw (e, run_agent) (λ d own. (record { owned = own; shown = tt }, λ x. cc))
        | inr (js, e) ↦
            rw (e, run_agent)
              (λ d own.
                run_loop-Ends
                  (run_loop spec deps model check wording fuel js st).state.store.tool_calls fuel js
                  st d (record { owned = own; shown = tt }) (λ r m. m))
      ]
