-- ===== src/Agents/Loop/Steps.antt =====
-- How many turns, rewrites and tool calls a run of an agent takes.
use sre_blackboard.Common.{
  suc, ◌+◌, ◌≤◌, ◌<◌, ◌≡◌, ◌≢◌, refl, String, Bool, false, not, ◌&&◌, none, List, [], ◌∷◌, inl, inr,
  ◌⊎◌, arith, ap, Bool-cases, Option-cases, length, take, leb, ◌∙◌, ltb,
}
use sre_blackboard.Remediation.Policy.{is_empty}
use sre_blackboard.Llm.Json.{Json}
use sre_blackboard.Llm.Types.{Action, Step, LlmRequest, LlmError, results}
use sre_blackboard.Tools.Registry.{ToolOutcome}
use sre_blackboard.Agents.Citations.{Problem, Checked}
use sre_blackboard.Agents.Store.{Store}
use sre_blackboard.Agents.Loop.{
  AgentSpec, AgentRun, Deps, State, Ended, returned, out_of_fuel, note_outcome, note_outcomes,
  call_tools, call_tool, results_turn, with_ids, add_turn, shown_id,
}
use sre_blackboard.Agents.Loop.Run.{
  Progress, next, over, last_step_note, asked, collect, data_turn, judged, final_turn, after_answer,
}

-- What a turn leaves: a state to go on from, or the end of the run.
abbrev pub After :
    {V : Type 0} → (State V → Type 0) → (Ended → State V → Type 0) → Progress V → Type 0
After P Q (next st) = P st
After P Q (over e st) = Q e st

pub After-imp :
    {V : Type 0} (P Q : State V → Type 0) (R T : Ended → State V → Type 0)
    → ((s : State V) → P s → Q s)
    → ((e : Ended) (s : State V) → R e s → T e s)
    → (p : Progress V) → After P R p
    → After Q T p
After-imp P Q R T f g (next s) h = f s h
After-imp P Q R T f g (over e s) h = g e s h

note_outcomes-counts :
    {V : Type 0} (os : List ToolOutcome) (run : AgentRun V)
    → ((note_outcomes os run).steps ≡ run.steps)
      × ((note_outcomes os run).rewrites ≡ run.rewrites)
      × ((note_outcomes os run).tool_calls ≡ run.tool_calls + length os)
unfolding note_outcomes note_outcome
note_outcomes-counts [] run = (refl, refl, omega arith)
note_outcomes-counts (o ∷ os) run =
    let (a, b, c) = note_outcomes-counts os (note_outcome o run) in
    elim (Option-cases (shown_id o)) [ inl e ↦ ground arith | inr (i, e) ↦ ground arith ]

module _ {V : Type 0} (spec : AgentSpec V) (deps : Deps) (model : String) where
  call_tools-length :
      (as' : List Action) (store : Store)
      → length (call_tools spec deps model as' store).0 ≡ length as'
  unfolding call_tools
  call_tools-length [] store = refl
  call_tools-length (a ∷ as') store =
      ap suc (call_tools-length as' (call_tool spec deps model a store).1)

take-length : (xs : List Action) → length (take 3 xs) ≤ 3
take-length [] = omega arith
take-length (a ∷ []) = omega arith
take-length (a ∷ (b ∷ [])) = omega arith
take-length (a ∷ (b ∷ (c ∷ xs))) = omega arith

module _ {V : Type 0} (spec : AgentSpec V) (deps : Deps) (model : String)
    (check : V → List (String × String) → Store → Checked V) (wording : Problem → String) where
  -- The counts of two states are the same.
  abbrev pub Same : State V → State V → Type 0
  Same st s =
      (s.run.steps ≡ st.run.steps)
      × (s.run.rewrites ≡ st.run.rewrites)
      × (s.run.tool_calls ≡ st.run.tool_calls)

  abbrev pub Collected : Bool → State V → State V → Type 0
  Collected forced st s =
      (forced ≡ false)
      × (s.run.steps ≡ st.run.steps)
      × (s.run.rewrites ≡ st.run.rewrites)
      × (s.run.tool_calls ≤ st.run.tool_calls + 3)

  abbrev pub Rewritten : State V → State V → Type 0
  Rewritten st s =
      (st.run.rewrites < spec.max_rewrites)
      × (s.run.steps ≡ st.run.steps)
      × (s.run.rewrites ≡ suc st.run.rewrites)
      × (s.run.tool_calls ≡ st.run.tool_calls)

  abbrev pub Ends : State V → Ended → State V → Type 0
  Ends st e s = (e ≢ out_of_fuel) × (e ≡ returned → s.run.final ≢ none) × Same st s

  last_step_note-Same :
      (run : AgentRun V)
      → ((last_step_note spec deps model check wording run).steps ≡ run.steps)
        × ((last_step_note spec deps model check wording run).rewrites ≡ run.rewrites)
        × ((last_step_note spec deps model check wording run).tool_calls ≡ run.tool_calls)
  last_step_note-Same run = elim (Bool-cases (leb spec.max_steps (run.steps + 1))) [
    | inl e ↦ rw e (refl, refl, refl)
    | inr e ↦ rw e (refl, refl, refl)
  ]

  collect_counts :
      (answer : Step) (st : State V)
      → Collected false st (collect spec deps model check wording answer st)
  unfolding collect
  collect_counts answer st =
      let actions = take 3 answer.actions in
      let called = call_tools spec deps model actions st.store in
      let run = (asked spec deps model check wording answer st).run in
      let told = results (results_turn (with_ids st.run.steps 1 actions) called.0) in
      let (a, b, c) = last_step_note-Same (add_turn told (note_outcomes called.0 run)) in
      let (d, e, f) = note_outcomes-counts called.0 run in
      (
        refl,
        a ∙ d,
        b ∙ e,
        omega (
          arith,
          c,
          f,
          call_tools-length spec deps model actions st.store,
          take-length answer.actions,
        ),
      )

  data_turn_counts :
      (request : LlmRequest) (answer : Step) (st : State V)
      → After
          (Collected request.force_final st)
          (Ends st)
          (data_turn spec deps model check wording request answer st)
  unfolding data_turn
  data_turn_counts request answer st = elim (Bool-cases request.force_final) [
    | inl e ↦ rw e ((λ h. cc), (λ h k. cc), (refl, refl, refl))
    | inr e ↦ rw e (collect_counts answer st)
  ]

  judged_counts :
      (c : Checked V) (st : State V)
      → After (Rewritten st) (Ends st) (judged spec deps model check wording c st)
  unfolding judged
  judged_counts c st =
      elim (Bool-cases (not (is_empty c.problems) && ltb st.run.rewrites spec.max_rewrites)) [
        | inl e ↦ rw e (ground arith, refl, ground arith, refl)
        | inr e ↦ rw e ((λ h. cc), (λ h k. cc), (refl, refl, refl))
      ]

  final_turn_counts :
      (answer : Step) (final : Json) (st : State V) (v : List String ⊎ V)
      → spec.validate final ≡ v
      → After (Rewritten st) (Ends st) (final_turn spec deps model check wording answer final st)
  unfolding final_turn
  final_turn_counts answer final st (inr parsed) h =
      rw (h, final_turn)
        (judged_counts (check parsed st.run.shown st.store)
          (asked spec deps model check wording answer st))
  final_turn_counts answer final st (inl problems) h =
      elim (Bool-cases (ltb st.run.rewrites spec.max_rewrites)) [
        | inl e ↦ rw (h, e, final_turn) (ground arith, refl, ground arith, refl)
        | inr e ↦ rw (h, e, final_turn) ((λ h. cc), (λ h k. cc), (refl, refl, refl))
      ]

  -- The answer is a step with no final answer.
  abbrev pub IsData : LlmError ⊎ Step → Type 0
  IsData (inl e) = ⊥
  IsData (inr answer) = answer.final ≡ none

  pub after_answer_counts :
      (request : LlmRequest) (a : LlmError ⊎ Step) (st : State V)
      → After
          (λ s. (IsData a × Collected request.force_final st s) ⊎ Rewritten st s)
          (Ends st)
          (after_answer spec deps model check wording request (a, st))
  unfolding after_answer
  after_answer_counts request (inl e) st = ((λ h. cc), (λ h k. cc), (refl, refl, refl))
  after_answer_counts request (inr answer) st = elim (Option-cases answer.final) [
    | inl e ↦ rw e (
        After-imp _ _ (Ends st) _ (λ s h. inl (refl, h)) (λ e s h. h)
          (data_turn spec deps model check wording request answer st)
          (data_turn_counts request answer st))
    | inr (final, e) ↦ rw e (
        After-imp _ _ (Ends st) _ (λ s h. inr h) (λ e s h. h)
          (final_turn spec deps model check wording answer final st)
          (final_turn_counts answer final st (spec.validate final) refl))
  ]
