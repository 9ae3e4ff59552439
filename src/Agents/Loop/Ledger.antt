-- ===== src/Agents/Loop/Ledger.antt =====
-- What a run of an agent books: the tokens of every model call, and the budget they are held to.
use sre_blackboard.Common.{
  ℕ, ◌+◌, ◌<◌, ◌≡◌, ◌≢◌, refl, ◌∙◌, String, not, ◌&&◌, Option, none, some, List, [], ◌∷◌, inl, inr,
  ◌⊎◌, arith, Bool-cases, Option-cases, leb, ltb, length, ==_refl, take,
}
use sre_blackboard.Remediation.Policy.{is_empty, mem}
use sre_blackboard.Llm.Json.{Json}
use sre_blackboard.Llm.Types.{
  total, Action, LlmRequest, LlmError, Step, ok, llm_error, StepResult, results,
}
use sre_blackboard.Tools.Registry.{ToolOutcome, EvidenceRecord, ToolCallRecord}
use sre_blackboard.Agents.Citations.{Problem, Checked}
use sre_blackboard.Agents.Store.{
  Store, LlmCallRecord, tokens_used, sum_tokens, record_llm_call, save,
}
use sre_blackboard.Agents.Loop.{
  AgentSpec, AgentRun, Deps, State, budget_exceeded, ask, call_tool, call_tools, note_outcome,
  note_outcomes, shown_id, add_turn, results_turn, with_ids, call_of, ok_call,
}
use sre_blackboard.Agents.Loop.Run.{
  Progress, asked, collect, last_step_note, data_turn, judged, final_turn, after_answer,
}
use sre_blackboard.Agents.Loop.Steps.{After}

-- The ledger after some model calls, each made while the incident's tokens were under the budget.
pub data Paid (budget incident : ℕ) (base : List LlmCallRecord) : List LlmCallRecord → Type 0 where
  start : Paid budget incident base base
  paid :
      {c : LlmCallRecord} {cs : List LlmCallRecord}
      → sum_tokens incident cs < budget
      → Paid budget incident base cs
      → Paid budget incident base (c ∷ cs)

note_outcomes-usage :
    {V : Type 0} (os : List ToolOutcome) (run : AgentRun V)
    → (note_outcomes os run).usage ≡ run.usage
unfolding note_outcomes note_outcome
note_outcomes-usage [] run = refl
note_outcomes-usage (o ∷ os) run =
    let e = note_outcomes-usage os (note_outcome o run) in
    elim (Option-cases (shown_id o)) [
      | inl h ↦ e ∙ rw (h, note_outcome) refl
      | inr (i, h) ↦ e ∙ rw (h, note_outcome) refl
    ]

save-calls :
    (e : Option EvidenceRecord) (c : ToolCallRecord) (s : Store) → (save e c s).calls ≡ s.calls
unfolding save
save-calls none c s = refl
save-calls (some e) c s = refl

module _ {V : Type 0} (spec : AgentSpec V) (deps : Deps) (model : String) where
  call_tool-calls :
      (a : Action) (store : Store) → (call_tool spec deps model a store).1.calls ≡ store.calls
  unfolding call_tool
  call_tool-calls a store = elim (Bool-cases (mem a.tool spec.tools)) [
    | inl e ↦ rw (e, call_tool) (save-calls _ _ store)
    | inr e ↦ rw (e, call_tool) refl
  ]

  call_tools-calls :
      (as' : List Action) (store : Store)
      → (call_tools spec deps model as' store).1.calls ≡ store.calls
  unfolding call_tools
  call_tools-calls [] store = refl
  call_tools-calls (a ∷ as') store =
      call_tools-calls as' (call_tool spec deps model a store).1 ∙ call_tool-calls a store

-- The last call of an answer is booked, with the usage that the run counts.
abbrev pub Cost : {V : Type 0} → Deps → State V → State V → Type 0
Cost deps st s =
    total s.run.usage + tokens_used deps.incident_id st.store
    ≡ total st.run.usage + tokens_used deps.incident_id s.store

module _ {V : Type 0} (spec : AgentSpec V) (deps : Deps) (model : String)
    (check : V → List (String × String) → Store → Checked V) (wording : Problem → String) where
  abbrev pub Keeps : State V → State V → Type 0
  Keeps st s = (s.run.usage ≡ st.run.usage) × (s.store.calls ≡ st.store.calls)

  pub ask_books :
      (request : LlmRequest) (st : State V) (r : StepResult)
      → deps.backend (length st.store.calls) request ≡ r
      → (c : LlmCallRecord) × ((ask spec deps model request st).1.store.calls ≡ c ∷ st.store.calls)
        × Cost deps st (ask spec deps model request st).1
  unfolding ask tokens_used record_llm_call
  ask_books request st (ok result) e = (
    ok_call spec deps model (call_of spec deps model request st.run.steps) result,
    rw (e, ask) refl,
    rw (e, ask) (rw (==_refl deps.incident_id) (omega arith)),
  )
  ask_books request st (llm_error x) e = (
    record (call_of spec deps model request st.run.steps) { error = some x; attempts = x.attempts },
    rw (e, ask) refl,
    rw (e, ask) (rw (==_refl deps.incident_id) (omega arith)),
  )

  last_step_note-usage :
      (run : AgentRun V) → (last_step_note spec deps model check wording run).usage ≡ run.usage
  last_step_note-usage run = elim (Bool-cases (leb spec.max_steps (run.steps + 1))) [
    | inl e ↦ rw e refl
    | inr e ↦ rw e refl
  ]

  collect-Keeps :
      (answer : Step) (st : State V) → Keeps st (collect spec deps model check wording answer st)
  unfolding collect
  collect-Keeps answer st =
      let actions = take 3 answer.actions in
      let called = call_tools spec deps model actions st.store in
      let run = (asked spec deps model check wording answer st).run in
      let told = results (results_turn (with_ids st.run.steps 1 actions) called.0) in
      (
        last_step_note-usage (add_turn told (note_outcomes called.0 run))
            ∙ note_outcomes-usage called.0 run,
        call_tools-calls spec deps model actions st.store,
      )

  -- A turn goes on from, or ends in, a state that keeps what `st` booked.
  abbrev pub Kept : State V → Progress V → Type 0
  Kept st p = After (Keeps st) (λ e s. Keeps st s × ((n : ℕ) → e ≢ budget_exceeded n)) p

  judged-Kept : (c : Checked V) (st : State V) → Kept st (judged spec deps model check wording c st)
  unfolding judged
  judged-Kept c st =
      elim (Bool-cases (not (is_empty c.problems) && ltb st.run.rewrites spec.max_rewrites)) [
        | inl e ↦ rw e (refl, refl)
        | inr e ↦ rw e ((refl, refl), (λ n h. cc))
      ]

  final_turn-Kept :
      (answer : Step) (final : Json) (st : State V) (v : List String ⊎ V)
      → spec.validate final ≡ v
      → Kept st (final_turn spec deps model check wording answer final st)
  unfolding final_turn
  final_turn-Kept answer final st (inr parsed) h =
      rw (h, final_turn)
        (judged-Kept (check parsed st.run.shown st.store)
          (asked spec deps model check wording answer st))
  final_turn-Kept answer final st (inl problems) h =
      elim (Bool-cases (ltb st.run.rewrites spec.max_rewrites)) [
        | inl e ↦ rw (h, e, final_turn) (refl, refl)
        | inr e ↦ rw (h, e, final_turn) ((refl, refl), (λ n h. cc))
      ]

  data_turn-Kept :
      (request : LlmRequest) (answer : Step) (st : State V)
      → Kept st (data_turn spec deps model check wording request answer st)
  unfolding data_turn
  data_turn-Kept request answer st = elim (Bool-cases request.force_final) [
    | inl e ↦ rw e ((refl, refl), (λ n h. cc))
    | inr e ↦ rw e (collect-Keeps answer st)
  ]

  pub after_answer-Kept :
      (request : LlmRequest) (a : LlmError ⊎ Step) (st : State V)
      → Kept st (after_answer spec deps model check wording request (a, st))
  unfolding after_answer
  after_answer-Kept request (inl e) st = ((refl, refl), (λ n h. cc))
  after_answer-Kept request (inr answer) st = elim (Option-cases answer.final) [
    | inl e ↦ rw e (data_turn-Kept request answer st)
    | inr (final, e) ↦ rw e (final_turn-Kept answer final st (spec.validate final) refl)
  ]
