-- ===== src/Agents/Loop/Bounds.antt =====
-- An agent's run ends: the bounds on its turns and on its tool calls.
use sre_blackboard.Common.{
  ℕ, zero, suc, ◌+◌, ◌-◌, ◌*◌, ◌≤◌, ◌<◌, ◌≡◌, ◌≢◌, refl, String, Bool, true, false, not, ◌&&◌, none,
  some, List, [], ◌∷◌, inl, inr, ◌⊎◌, arith, Bool-cases, Option-cases, leb, ◌∙◌, length,
}
use sre_blackboard.Remediation.Policy.{is_empty}
use sre_blackboard.Llm.Json.{Json}
use sre_blackboard.Llm.Types.{LlmRequest, LlmResult, ok, llm_error, StepResult}
use sre_blackboard.Agents.Citations.{Problem, Checked}
use sre_blackboard.Agents.Store.{Store, tokens_used}
use sre_blackboard.Agents.Loop.{
  returned, AgentSpec, Deps, State, out_of_fuel, ask, request_of, specs, new_run,
}
use sre_blackboard.Agents.Loop.Run.{
  Progress, next, over, Outcome, begin, after_answer, turn, run_loop, run_agent,
}
use sre_blackboard.Agents.Loop.Steps.{
  After, After-imp, Same, Collected, Rewritten, Ends, IsData, after_answer_counts,
}

-- A backend that answers a request without tools by a final answer.
abbrev pub AnswersFinal : Deps → Type 0
AnswersFinal deps =
    (n : ℕ) (r : LlmRequest) (result : LlmResult)
    → is_empty r.tools ≡ true
    → deps.backend n r ≡ ok result
    → result.answer.final ≢ none

module _ {V : Type 0} (spec : AgentSpec V) (deps : Deps) (model : String)
    (check : V → List (String × String) → Store → Checked V) (wording : Problem → String) where
  ask_counts :
      (request : LlmRequest) (st : State V) (r : StepResult)
      → deps.backend (length st.store.calls) request ≡ r
      → Same spec deps model check wording st (ask spec deps model request st).1
  unfolding ask
  ask_counts request st (ok result) e = rw (e, ask) (refl, refl, refl)
  ask_counts request st (llm_error x) e = rw (e, ask) (refl, refl, refl)

  ask-final :
      (request : LlmRequest) (st : State V) (r : StepResult)
      → AnswersFinal deps
      → is_empty request.tools ≡ true
      → deps.backend (length st.store.calls) request ≡ r
      → IsData spec deps model check wording (ask spec deps model request st).0
      → ⊥
  unfolding ask
  ask-final request st (ok result) f t e h =
      let none' : result.answer.final ≡ none = rw (e, ask) at h in
      f (length st.store.calls) request result t e none'
  ask-final request st (llm_error x) f t e h = rw (e, ask) at h

  -- What becomes of the counts in a turn that goes on.
  abbrev Advance : State V → State V → Type 0
  Advance st s =
      (s.run.steps ≡ suc st.run.steps)
      × (((s.run.steps < spec.max_steps)
            × (s.run.rewrites ≡ st.run.rewrites)
            × (s.run.tool_calls ≤ st.run.tool_calls + 3))
          ⊎ ((st.run.rewrites < spec.max_rewrites)
              × (s.run.rewrites ≡ suc st.run.rewrites)
              × (s.run.tool_calls ≡ st.run.tool_calls)))

  -- The two ways to go on, after the answer that left the state `mid`.
  advance :
      (tool_specs : List Json) (st : State V)
      → (is_empty tool_specs ≡ false) ⊎ AnswersFinal deps
      → {D : Type 0} (mid : State V)
      → Same spec deps model check wording (begin spec deps model check wording st) mid
      → (AnswersFinal deps → is_empty tool_specs ≡ true → D → ⊥)
      → (s : State V)
      → (D
          × Collected spec deps model check wording
              (not (is_empty tool_specs) && leb spec.max_steps (st.run.steps + 1))
              mid
              s)
        ⊎ Rewritten spec deps model check wording mid s
      → Advance st s
  advance tool_specs st h mid same final s (inr w) = ground arith
  advance tool_specs st h mid same final s (inl (d, c)) = elim (Bool-cases (is_empty tool_specs)) [
    | inr e ↦ ground arith
    | inl e ↦ elim h [ inl n ↦ cc | inr f ↦ absurd (final f e d) ]
  ]

  turn_counts :
      (tool_specs : List Json) (st : State V)
      → (is_empty tool_specs ≡ false) ⊎ AnswersFinal deps
      → After
          (Advance st)
          (Ends spec deps model check wording (begin spec deps model check wording st))
          (turn spec deps model check wording tool_specs st)
  unfolding turn
  turn_counts tool_specs st h =
      let started = begin spec deps model check wording st in
      let request = request_of spec deps model tool_specs started.run in
      let asked = ask spec deps model request started in
      let reply = deps.backend (length st.store.calls) request in
      elim (Bool-cases (leb deps.token_budget (tokens_used deps.incident_id st.store))) [
        | inl e ↦ rw e ((λ x. cc), (λ x k. cc), (refl, refl, refl))
        | inr e ↦ rw e (
            After-imp _ _ (Ends spec deps model check wording asked.1) _
              (advance tool_specs st h asked.1 (ask_counts request started reply refl)
                (λ f t d. ask-final request started reply f t refl d))
              (λ x s g.
                let same = ask_counts request started reply refl in
                (g.0, g.1, (g.2.0 ∙ same.0, g.2.1 ∙ same.1, g.2.2 ∙ same.2)))
              (after_answer spec deps model check wording request asked)
              (after_answer_counts spec deps model check wording request asked.0 asked.1))
      ]

  record Counted (st : State V) : Type 0 where
    steps : st.run.steps ≤ (spec.max_steps - 1) + st.run.rewrites
    rewrites : st.run.rewrites ≤ spec.max_rewrites
    calls : st.run.tool_calls + 3 * st.run.rewrites ≤ 3 * st.run.steps

  abbrev measure : State V → ℕ
  measure st = (spec.max_steps - st.run.steps) + (spec.max_rewrites - st.run.rewrites)

  Advance-Counted :
      (st s : State V) → Counted st → Advance st s → Counted s × (measure s < measure st)
  Advance-Counted st s c (e, inl (a, b, d)) = (
    record {
      steps = omega arith;
      rewrites = omega (arith, c.rewrites);
      calls = omega (arith, c.calls);
    },
    omega arith,
  )
  Advance-Counted st s c (e, inr (a, b, d)) = (
    record {
      steps = omega (arith, c.steps);
      rewrites = omega arith;
      calls = omega (arith, c.calls);
    },
    omega arith,
  )

-- A run that has ended within its bounds.
pub record Within {V : Type 0} (spec : AgentSpec V) (o : Outcome V) : Type 0 where
  pub ends : o.ended ≢ out_of_fuel
  pub answers : o.ended ≡ returned → o.state.run.final ≢ none
  pub steps : o.state.run.steps ≤ (spec.max_steps - 1) + 1 + spec.max_rewrites
  pub rewrites : o.state.run.rewrites ≤ spec.max_rewrites
  pub calls : o.state.run.tool_calls ≤ 3 * (spec.max_steps - 1)

module _ {V : Type 0} (spec : AgentSpec V) (deps : Deps) (model : String)
    (check : V → List (String × String) → Store → Checked V) (wording : Problem → String) where
  abbrev Bounded : ℕ → List Json → Type 0
  Bounded fuel tool_specs =
      (st : State V)
      → Counted spec deps model check wording st
      → measure spec deps model check wording st < fuel
      → Within spec (run_loop spec deps model check wording fuel tool_specs st)

  run_loop-step :
      (fuel : ℕ) (tool_specs : List Json) (st : State V) (p : Progress V)
      → turn spec deps model check wording tool_specs st ≡ p
      → After
          (Advance spec deps model check wording st)
          (Ends spec deps model check wording (begin spec deps model check wording st))
          p
      → Counted spec deps model check wording st
      → measure spec deps model check wording st < suc fuel
      → Bounded fuel tool_specs
      → Within spec (run_loop spec deps model check wording (suc fuel) tool_specs st)
  unfolding run_loop
  run_loop-step fuel tool_specs st (next s) e h c m ih =
      let (d, l) = Advance-Counted spec deps model check wording st s c h in
      rw (e, run_loop) (ih s d (omega arith))
  run_loop-step fuel tool_specs st (over x s) e (n, f, (a, b, d)) c m ih =
      rw (e, run_loop)
        (record {
          ends = n;
          answers = f;
          steps = omega (arith, c.steps, c.rewrites);
          rewrites = omega (arith, c.rewrites);
          calls = omega (arith, c.calls, c.steps);
        })

  run_loop-Within :
      (fuel : ℕ) (tool_specs : List Json)
      → (is_empty tool_specs ≡ false) ⊎ AnswersFinal deps
      → Bounded fuel tool_specs
  run_loop-Within zero tool_specs h st c m = absurd (omega arith)
  run_loop-Within (suc k) tool_specs h st c m =
      run_loop-step k tool_specs st (turn spec deps model check wording tool_specs st) refl
        (turn_counts spec deps model check wording tool_specs st h) c m
        (run_loop-Within k tool_specs h)

  specs-is_empty :
      (names : List String) (js : List Json)
      → specs deps.tool_spec deps.registry names ≡ some js
      → is_empty js ≡ is_empty names
  unfolding specs
  specs-is_empty [] js e = ground arith
  specs-is_empty (n ∷ ns) js e = ground arith

  -- An agent that has tools, or whose backend gives a final answer where there are none, ends its run
  -- within max_steps + max_rewrites turns, whatever the model, the tools and the check answer: it
  -- returns with a final answer or raises one of its errors, after at most max_steps - 1 turns of three tool calls each and
  -- max_rewrites rewrites.
  pub run_agent-Within :
      (fuel : ℕ) (text : String) (store : Store)
      → (is_empty spec.tools ≡ false) ⊎ AnswersFinal deps
      → spec.max_steps + spec.max_rewrites < fuel
      → Within spec (run_agent spec deps model check wording fuel text store)
  unfolding run_agent
  run_agent-Within fuel text store h m =
      elim (Option-cases (specs deps.tool_spec deps.registry spec.tools)) [
        | inl e ↦
            rw (e, run_agent)
              (record {
                ends = λ x. cc;
                answers = λ x k. cc;
                steps = omega arith;
                rewrites = omega arith;
                calls = omega arith;
              })
        | inr (js, e) ↦
            rw (e, run_agent)
              (run_loop-Within fuel js (tools_or_final h (specs-is_empty spec.tools js e))
                (record { run = new_run text; store = store })
                (record { steps = omega arith; rewrites = omega arith; calls = omega arith })
                (omega arith))
      ]
    where
      tools_or_final :
          {b c : Bool} → (b ≡ false) ⊎ AnswersFinal deps → c ≡ b → (c ≡ false) ⊎ AnswersFinal deps
      tools_or_final (inl p) q = inl (q ∙ p)
      tools_or_final (inr p) q = inr p
