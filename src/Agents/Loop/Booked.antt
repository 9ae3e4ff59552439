-- ===== src/Agents/Loop/Booked.antt =====
-- An agent's run is booked in full and held to the incident's token budget.
use sre_blackboard.Common.{
  ℕ, zero, suc, ◌≤◌, ◌<◌, ◌≡◌, ◌≢◌, refl, ap, sym, subst, ◌∙◌, String, false, List, ◌∷◌, inl, inr,
  arith, Bool-cases, Option-cases, leb, length,
}
use sre_blackboard.Llm.Json.{Json}
use sre_blackboard.Llm.Types.{total}
use sre_blackboard.Agents.Citations.{Problem, Checked}
use sre_blackboard.Agents.Store.{Store, LlmCallRecord, tokens_used, sum_tokens}
use sre_blackboard.Agents.Loop.{
  AgentSpec, Deps, State, Ended, budget_exceeded, ask, request_of, specs, new_run, missing_tool,
  out_of_fuel,
}
use sre_blackboard.Agents.Loop.Run.{
  Progress, next, over, begin, after_answer, turn, run_loop, run_agent,
}
use sre_blackboard.Agents.Loop.Steps.{After, After-imp}
use sre_blackboard.Agents.Loop.Ledger.{Paid, start, Cost, Keeps, ask_books, after_answer-Kept}

-- What a run from a state has booked.
pub record Booked {V : Type 0} (deps : Deps) (from : State V) (ended : Ended) (st : State V)
    : Type 0 where
  pub spent : Cost deps from st
  pub paid : Paid deps.token_budget deps.incident_id from.store.calls st.store.calls
  pub stopped :
      (n : ℕ)
      → ended ≡ budget_exceeded n
      → (n ≡ tokens_used deps.incident_id st.store) × (deps.token_budget ≤ n)

Paid-trans :
    (budget incident : ℕ) {as' bs cs : List LlmCallRecord}
    → Paid budget incident as' bs
    → Paid budget incident bs cs
    → Paid budget incident as' cs
Paid-trans budget incident p start = p
Paid-trans budget incident p (Paid.paid h q) = Paid.paid h (Paid-trans budget incident p q)

module _ {V : Type 0} (spec : AgentSpec V) (deps : Deps) (model : String)
    (check : V → List (String × String) → Store → Checked V) (wording : Problem → String) where
  -- A turn that goes on has booked one call.
  abbrev Step : State V → State V → Type 0
  Step st s = Cost deps st s × Paid deps.token_budget deps.incident_id st.store.calls s.store.calls

  kept-Step :
      (st mid s : State V) (c : LlmCallRecord)
      → mid.store.calls ≡ c ∷ st.store.calls
      → Cost deps st mid
      → tokens_used deps.incident_id st.store < deps.token_budget
      → Keeps spec deps model check wording mid s
      → Step st s
  unfolding tokens_used
  kept-Step st mid s c e cost h k = (
    omega (arith, cost, ap total k.0, ap (sum_tokens deps.incident_id) k.1),
    subst (Paid deps.token_budget deps.incident_id st.store.calls) (sym (k.1 ∙ e))
        (Paid.paid h start),
  )

  turn_books :
      (tool_specs : List Json) (st : State V)
      → After (Step st) (Booked deps st) (turn spec deps model check wording tool_specs st)
  unfolding turn
  turn_books tool_specs st =
      let started = begin spec deps model check wording st in
      let request = request_of spec deps model tool_specs started.run in
      let asked = ask spec deps model request started in
      let (c, e, cost) =
        ask_books spec deps model check wording request started
          (deps.backend (length st.store.calls) request) refl in
      let under =
        λ (h : leb deps.token_budget (tokens_used deps.incident_id st.store) ≡ false) (s : State V)
            (k : Keeps spec deps model check wording asked.1 s).
          kept-Step st asked.1 s c e cost (ground arith) k in
      elim (Bool-cases (leb deps.token_budget (tokens_used deps.incident_id st.store))) [
        | inl h ↦
            rw h
              (record { spent = refl; paid = start; stopped = λ n x. (ground arith, ground arith) })
        | inr h ↦ rw h (
            After-imp _ _ _ (Booked deps st) (under h)
              (λ x s k.
                let step = under h s k.0 in
                record { spent = step.0; paid = step.1; stopped = λ n y. absurd (k.1 n y) })
              (after_answer spec deps model check wording request asked)
              (after_answer-Kept spec deps model check wording request asked.0 asked.1))
      ]

  Step-Booked :
      (st s : State V) (ended : Ended) (last : State V)
      → Step st s
      → Booked deps s ended last
      → Booked deps st ended last
  Step-Booked st s ended last (cost, p) b = record {
    spent = omega (arith, b.spent);
    paid = Paid-trans deps.token_budget deps.incident_id p b.paid;
    stopped = b.stopped;
  }

  run_loop-step :
      (fuel : ℕ) (tool_specs : List Json) (st : State V) (p : Progress V)
      → turn spec deps model check wording tool_specs st ≡ p
      → After (Step st) (Booked deps st) p
      → ((s : State V)
          → let o = run_loop spec deps model check wording fuel tool_specs s in
            Booked deps s o.ended o.state)
      → let o = run_loop spec deps model check wording (suc fuel) tool_specs st in
        Booked deps st o.ended o.state
  unfolding run_loop
  run_loop-step fuel tool_specs st (next s) e h ih =
      let o = run_loop spec deps model check wording fuel tool_specs s in
      rw (e, run_loop) (Step-Booked st s o.ended o.state h (ih s))
  run_loop-step fuel tool_specs st (over x s) e h ih = rw (e, run_loop) h

  nothing :
      (st : State V) (ended : Ended)
      → ((n : ℕ) → ended ≢ budget_exceeded n)
      → Booked deps st ended st
  nothing st ended h = record { spent = refl; paid = start; stopped = λ n x. absurd (h n x) }

  run_loop-Booked :
      (fuel : ℕ) (tool_specs : List Json) (st : State V)
      → let o = run_loop spec deps model check wording fuel tool_specs st in
        Booked deps st o.ended o.state
  unfolding run_loop
  run_loop-Booked zero tool_specs st = nothing st out_of_fuel (λ n x. cc)
  run_loop-Booked (suc k) tool_specs st =
      run_loop-step k tool_specs st (turn spec deps model check wording tool_specs st) refl
        (turn_books tool_specs st) (run_loop-Booked k tool_specs)

  -- However a run of an agent ends, all tokens that it counts are in the ledger of model calls, and the
  -- ledger has grown by calls only that were made while the incident's tokens were under the budget.
  -- If it ends with BudgetExceeded, the budget is used up by the tokens that the error names.
  pub run_agent-Booked :
      (fuel : ℕ) (text : String) (store : Store)
      → let o = run_agent spec deps model check wording fuel text store in
        Booked deps (record { run = new_run text; store = store }) o.ended o.state
  unfolding run_agent
  run_agent-Booked fuel text store =
      let st : State V = record { run = new_run text; store = store } in
      elim (Option-cases (specs deps.tool_spec deps.registry spec.tools)) [
        | inl e ↦ rw (e, run_agent) (nothing st missing_tool (λ n x. cc))
        | inr (js, e) ↦ rw (e, run_agent) (run_loop-Booked fuel js st)
      ]
