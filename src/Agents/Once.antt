-- ===== src/Agents/Once.antt =====
-- app/agents/investigation.py: `once`, which runs an agent unless a checkpoint says that it has
-- finished. `wording_of` is the text of the error with which a run ended.
pub mod Checkpoint
pub mod Again
use sre_blackboard.Common.{
  ℕ, suc, ◌+◌, String, Bool, true, false, not, ◌&&◌, Option, none, some, List, [], ◌∷◌, keep,
  str_eq, if◌then◌else◌,
}
use sre_blackboard.Llm.Json.{Fields, done as no_fields, field}
use sre_blackboard.Llm.Types.{LlmError, LlmCode, invalid_output}
use sre_blackboard.Tools.Compress.{put_field}
use sre_blackboard.Agents.Citations.{Problem, Checked}
use sre_blackboard.Agents.Store.{
  Store, Entry, RunRecord, find_run, is_done, start_run, finish_run, fail_run, entries_of,
}
use sre_blackboard.Agents.Loop.{
  AgentSpec, AgentRun, Deps, Ended, returned, budget_exceeded, no_final, bad_final, llm_failed,
  missing_tool, out_of_fuel,
}
use sre_blackboard.Agents.Loop.Run.{Outcome, run_agent}

-- What `once` raises, and what it returns. `stuck`: the run of the agent has no end and no answer,
-- which cannot be.
pub data Raised : Type 0 where
  over_budget : ℕ → Raised
  llm_raised : LlmError → Raised
  key_error : Raised
  stuck : Raised

pub data OnceResult : Type 0 where
  reused : List Entry → OnceResult
  finished : List Entry → OnceResult
  failed : OnceResult
  raised : Raised → OnceResult

-- {**a, **b}
unfoldable pub updated : Fields → Fields → Fields
unfolding put_field
updated a no_fields = a
updated a (field k v rest) = updated (put_field k v a) rest

abbrev pub by_author : String → List Entry → List Entry
by_author name = keep (λ e. str_eq e.author name)

abbrev pub is_invalid : LlmCode → Bool
is_invalid invalid_output = true
is_invalid _ = false

abbrev pub is_finished : Option RunRecord → Bool
is_finished none = false
is_finished (some r) = is_done r.status

module _ {V : Type 0} (spec : AgentSpec V) (deps : Deps) (model : String)
    (check : V → List (String × String) → Store → Checked V) (wording : Problem → String)
    (to_entries : V → AgentRun V → List Entry × Fields) (summary : AgentRun V → Fields)
    (wording_of : Ended → String) where
  abbrev pub gone : Ended → Store → Store
  gone e = fail_run deps.incident_id spec.name 0 (wording_of e)

  -- The answer becomes entries, which are written with the checkpoint.
  unfoldable pub finish : Option V → AgentRun V → Store → OnceResult × Store
  unfolding finish_run updated
  finish none run s = (raised stuck, s)
  finish (some v) run s =
      let (entries, extra) = to_entries v run in
      (
        finished entries,
        finish_run deps.incident_id spec.name run.steps (updated (summary run) extra) entries s,
      )

  -- What a run that has ended comes to.
  unfoldable pub concluded : Outcome V → OnceResult × Store
  unfolding finish fail_run
  concluded o = elim (o.ended) [
    | returned ↦ finish o.state.run.final o.state.run o.state.store
    | budget_exceeded n ↦ (raised (over_budget n), gone (budget_exceeded n) o.state.store)
    | llm_failed e ↦ (
      (if e.retryable && not (is_invalid e.code) then raised (llm_raised e) else failed),
      gone (llm_failed e) o.state.store,
    )
    | no_final ↦ (failed, gone no_final o.state.store)
    | bad_final problems ↦ (failed, gone (bad_final problems) o.state.store)
    | missing_tool ↦ (raised key_error, o.state.store)
    | out_of_fuel ↦ (raised stuck, o.state.store)
  ]

  -- Turns enough for every run that ends within its steps and rewrites.
  abbrev pub enough : ℕ
  enough = suc (spec.max_steps + spec.max_rewrites)

  -- `runs` and `board` are what `investigate` has read of the incident.
  unfoldable pub once : String → Option RunRecord → List Entry → Store → OnceResult × Store
  unfolding concluded start_run run_agent
  once text run board s =
      if is_finished run
      then (reused (by_author spec.name board), s)
      else concluded (
          run_agent spec deps model check wording enough text
            (start_run deps.incident_id spec.name model spec.prompt_version s))

  -- `once` on what the store holds.
  unfoldable pub once_now : String → Store → OnceResult × Store
  unfolding once find_run entries_of
  once_now text s =
      once text (find_run deps.incident_id spec.name s.run_rows)
        (entries_of deps.incident_id s.board) s
