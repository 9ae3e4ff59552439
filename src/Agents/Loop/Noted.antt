-- ===== src/Agents/Loop/Noted.antt =====
-- All that a step shows an agent is stored evidence.
use sre_blackboard.Common.{◌≡◌, String, some, List, [], ◌∷◌, inl, inr, Option-cases, All}
use sre_blackboard.Llm.Types.{Action}
use sre_blackboard.Tools.Registry.{ToolOutcome, ToolCallRecord}
use sre_blackboard.Agents.Store.{Store}
use sre_blackboard.Agents.Loop.{
  AgentSpec, AgentRun, Deps, context, call_tool, call_tools, note_outcome, note_outcomes, shown_id,
}
use sre_blackboard.Agents.Loop.Shown.{
  Rows, Distinct, Owned, Extends, Real, Grows, call_tool-Extends, call_tool-Shows,
}

module _ {V : Type 0} (spec : AgentSpec V) (deps : Deps) (model : String) where
  abbrev pub AllReal : Rows → List (String × String) → Type 0
  AllReal rows shown = All (Real spec deps model rows) shown

  pub AllReal-Grows :
      (calls : List ToolCallRecord) (rows after : Rows) (shown : List (String × String))
      → Grows spec deps model calls rows after
      → AllReal rows shown
      → AllReal after shown
  AllReal-Grows calls rows after [] g h = tt
  AllReal-Grows calls rows after ((id, tool) ∷ rest) g ((t, m), h) =
      ((g.keeps id tool t, m), AllReal-Grows calls rows after rest g h)

  abbrev pub AllShown : Rows → List ToolOutcome → Type 0
  AllShown rows os =
      All (λ o. (id : String) → shown_id o ≡ some id → Real spec deps model rows (id, o.tool)) os

  pub call_tools-Extends :
      (as' : List Action) (store : Store)
      → Extends store.tool_calls (call_tools spec deps model as' store).1.tool_calls
  unfolding call_tools
  call_tools-Extends [] store = λ r m. m
  call_tools-Extends (a ∷ as') store = λ r m.
      call_tools-Extends as' (call_tool spec deps model a store).1 r
        (call_tool-Extends spec deps model a store r m)

  pub call_tools-Shows :
      (calls : List ToolCallRecord) (as' : List Action) (store : Store)
      → Distinct (context spec deps model) calls
      → Owned (context spec deps model) calls store.evidence
      → let r = call_tools spec deps model as' store in
        Extends r.1.tool_calls calls
        → Grows spec deps model calls store.evidence r.1.evidence × AllShown r.1.evidence r.0
  unfolding call_tools
  call_tools-Shows calls [] store d o all = (record { owned = o; keeps = λ id tool h. h }, tt)
  call_tools-Shows calls (a ∷ as') store d o all =
      let after = (call_tool spec deps model a store).1 in
      let (g, s) =
        call_tool-Shows spec deps model calls a store d o
          (λ r m. all r (call_tools-Extends as' after r m)) in
      let (h, t) = call_tools-Shows calls as' after d g.owned all in
      (
        record { owned = h.owned; keeps = λ id tool k. h.keeps id tool (g.keeps id tool k) },
        (
          (λ id e.
              let (k, m) = s id e in (h.keeps id (call_tool spec deps model a store).0.tool k, m)),
          t,
        ),
      )

  pub note_outcomes-Real :
      (rows : Rows) (os : List ToolOutcome) (run : AgentRun V)
      → AllShown rows os
      → AllReal rows run.shown
      → AllReal rows (note_outcomes os run).shown
  unfolding note_outcomes note_outcome
  note_outcomes-Real rows [] run h k = k
  note_outcomes-Real rows (o ∷ os) run (s, h) k =
      note_outcomes-Real rows os (note_outcome o run) h (elim (Option-cases (shown_id o)) [
        | inl e ↦ rw (e, note_outcome) k
        | inr (id, e) ↦ rw (e, note_outcome) (s id e, k)
      ])
