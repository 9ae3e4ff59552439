-- ===== src/Agents/Once/Checkpoint.antt =====
-- The checkpoint of an agent: its output is written with it, at once, and read back after it.
use sre_blackboard.Common.{
  ℕ, suc, ◌+◌, ◌⊎◌, ◌≡◌, ◌≢◌, refl, ap, ◌∙◌, String, Bool, true, false, not, ◌&&◌, Option, none,
  some, List, [], ◌∷◌, ◌++◌, map, inl, inr, arith, Bool-cases, str_eq, eq_refl, ==_refl, ◌==◌, All,
}
use sre_blackboard.Remediation.Policy.{is_empty}
use sre_blackboard.Llm.Json.{Fields}
use sre_blackboard.Tools.Registry.{EvidenceRecord, ToolCallRecord}
use sre_blackboard.Agents.Citations.{Problem, Checked}
use sre_blackboard.Agents.Store.{
  Store, Entry, RunRecord, find_run, put_run, is_done, start_run, finish_run, fail_run, save,
  record_llm_call,
}
use sre_blackboard.Agents.Loop.{
  AgentSpec, AgentRun, Deps, Ended, returned, budget_exceeded, no_final, bad_final, llm_failed,
  missing_tool, out_of_fuel,
}
use sre_blackboard.Agents.Loop.Run.{Outcome, run_agent}
use sre_blackboard.Agents.Loop.Bounds.{Within, AnswersFinal, run_agent-Within}
use sre_blackboard.Agents.Loop.Stable.{Stable, run_agent_stable}
use sre_blackboard.Agents.Once.{
  stuck, OnceResult, reused, finished, failed, raised, is_finished, finish, concluded, updated,
  is_invalid, once, once_now,
}

find_run-put_run :
    (i : ℕ) (a : String) (r : RunRecord) (rows : List ((ℕ × String) × RunRecord))
    → find_run i a (put_run i a r rows) ≡ some r
unfolding find_run put_run
find_run-put_run i a r [] = rw (==_refl i, eq_refl a) refl
find_run-put_run i a r (((j, b), x) ∷ rows) = elim (Bool-cases (j == i && str_eq b a)) [
  | inl e ↦ rw e (rw (==_refl i, eq_refl a) refl)
  | inr e ↦ rw e (rw e (find_run-put_run i a r rows))
]

-- An agent has a run that is not done, or is done.
abbrev pub HasRun : ℕ → String → Bool → Store → Type 0
HasRun i a b s = (r : RunRecord) × (find_run i a s.run_rows ≡ some r) × (is_done r.status ≡ b)

start_run_lem :
    (i : ℕ) (a model version : String) (s : Store) (run : Option RunRecord)
    → find_run i a s.run_rows ≡ run
    → is_finished run ≡ false
    → HasRun i a false (start_run i a model version s)
      × ((start_run i a model version s).board ≡ s.board)
unfolding start_run
start_run_lem i a model version s none e h =
    rw (e, start_run) ((_, find_run-put_run i a _ s.run_rows, refl), refl)
start_run_lem i a model version s (some r) e h =
    rw (e, start_run) (rw (h, start_run) ((_, find_run-put_run i a _ s.run_rows, refl), refl))

finish_run_lem :
    (i : ℕ) (a : String) (steps : ℕ) (result : Fields) (es : List Entry) (s : Store)
    → HasRun i a false s
    → HasRun i a true (finish_run i a steps result es s)
      × ((finish_run i a steps result es s).board ≡ s.board ++ map (λ e. (i, e)) es)
unfolding finish_run
finish_run_lem i a steps result es s (r, e, h) =
    rw (e, finish_run) (rw (h, finish_run) ((_, find_run-put_run i a _ s.run_rows, refl), refl))

fail_run_lem :
    (i : ℕ) (a : String) (steps : ℕ) (error : String) (s : Store)
    → HasRun i a false s
    → HasRun i a false (fail_run i a steps error s) × ((fail_run i a steps error s).board ≡ s.board)
unfolding fail_run
fail_run_lem i a steps error s (r, e, h) =
    rw (e, fail_run) (rw (h, fail_run) ((_, find_run-put_run i a _ s.run_rows, refl), refl))

-- The runs and the board are what they were.
abbrev SameRuns : Store → Store → Type 0
SameRuns s t = (t.run_rows ≡ s.run_rows) × (t.board ≡ s.board)

SameRuns-Stable : (s : Store) → Stable (SameRuns s)
unfolding save record_llm_call
SameRuns-Stable s = record { saved = saved; booked = λ r t h. h }
  where
    saved :
        (e : Option EvidenceRecord) (c : ToolCallRecord) (t : Store)
        → SameRuns s t
        → SameRuns s (save e c t)
    saved none c t h = h
    saved (some e) c t h = h

abbrev pub tagged : ℕ → List Entry → List (ℕ × Entry)
tagged i es = map (λ e. (i, e)) es

abbrev pub WrittenBy : String → List Entry → Type 0
WrittenBy name es = All (λ e. e.author ≡ name) es

-- What `once` leaves of an agent's run and of the board: a checkpoint with the agent's entries, or no
-- checkpoint and no entry.
abbrev pub Left : ℕ → String → Store → OnceResult → Store → Type 0
Left i name before (reused es) after = after ≡ before
Left i name before (finished es) after =
    HasRun i name true after × (after.board ≡ before.board ++ tagged i es) × WrittenBy name es
Left i name before failed after = HasRun i name false after × (after.board ≡ before.board)
Left i name before (raised x) after =
    (x ≢ stuck) × (HasRun i name false after × (after.board ≡ before.board))

module _ {V : Type 0} (spec : AgentSpec V) (deps : Deps) (model : String)
    (check : V → List (String × String) → Store → Checked V) (wording : Problem → String)
    (to_entries : V → AgentRun V → List Entry × Fields) (summary : AgentRun V → Fields)
    (wording_of : Ended → String) where
  abbrev pub LeftBy : Store → OnceResult × Store → Type 0
  LeftBy before r = Left deps.incident_id spec.name before r.0 r.1

  abbrev pub Signed : Type 0
  Signed = (v : V) (run : AgentRun V) → WrittenBy spec.name (to_entries v run).0

  finish-Left :
      (before : Store) (final : Option V) (run : AgentRun V) (s : Store)
      → final ≢ none
      → Signed
      → HasRun deps.incident_id spec.name false s
      → s.board ≡ before.board
      → LeftBy before
          (finish spec deps model check wording to_entries summary wording_of final run s)
  unfolding finish
  finish-Left before none run s n w h b = absurd (n refl)
  finish-Left before (some v) run s n w h b =
      let (entries, extra) = to_entries v run in
      let (a, c) =
        finish_run_lem deps.incident_id spec.name run.steps (updated (summary run) extra) entries s
          h in
      (a, c ∙ ap (λ (l : List (ℕ × Entry)). l ++ tagged deps.incident_id entries) b, w v run)

  gone_lem :
      (before : Store) (text : String) (s : Store)
      → HasRun deps.incident_id spec.name false s
      → s.board ≡ before.board
      → let after = fail_run deps.incident_id spec.name 0 text s in
        HasRun deps.incident_id spec.name false after × (after.board ≡ before.board)
  gone_lem before text s h b =
      let (a, c) = fail_run_lem deps.incident_id spec.name 0 text s h in (a, c ∙ b)

  concluded-Left :
      (before : Store) (o : Outcome V) (e : Ended)
      → Within spec o
      → Signed
      → o.ended ≡ e
      → HasRun deps.incident_id spec.name false o.state.store
      → o.state.store.board ≡ before.board
      → LeftBy before (concluded spec deps model check wording to_entries summary wording_of o)
  unfolding concluded
  concluded-Left before o returned b w e h g =
      rw (e, concluded)
        (finish-Left before o.state.run.final o.state.run o.state.store (b.answers e) w h g)
  concluded-Left before o (budget_exceeded n) b w e h g =
      rw (e, concluded)
        ((λ k. cc), gone_lem before (wording_of (budget_exceeded n)) o.state.store h g)
  concluded-Left before o (llm_failed x) b w e h g =
      let left = gone_lem before (wording_of (llm_failed x)) o.state.store h g in
      elim (Bool-cases (x.retryable && not (is_invalid x.code))) [
        | inl c ↦ rw (e, concluded) (rw c ((λ k. cc), left))
        | inr c ↦ rw (e, concluded) (rw c left)
      ]
  concluded-Left before o no_final b w e h g =
      rw (e, concluded) (gone_lem before (wording_of no_final) o.state.store h g)
  concluded-Left before o (bad_final ps) b w e h g =
      rw (e, concluded) (gone_lem before (wording_of (bad_final ps)) o.state.store h g)
  concluded-Left before o missing_tool b w e h g = rw (e, concluded) ((λ k. cc), (h, g))
  concluded-Left before o out_of_fuel b w e h g = absurd (b.ends e)

  -- Of an agent that has tools, or whose backend gives a final answer where there are none: `once` returns
  -- or raises what its agent's run raises, and either the agent has a checkpoint and all of its entries, which it has signed, stand on the board, or it has none and the board is as it was; a finished agent's run, the board
  -- and all else is left alone.
  pub once_now-Left :
      (text : String) (s : Store)
      → (is_empty spec.tools ≡ false) ⊎ AnswersFinal deps
      → Signed
      → LeftBy s (once_now spec deps model check wording to_entries summary wording_of text s)
  unfolding once_now once
  once_now-Left text s t w =
      let run = find_run deps.incident_id spec.name s.run_rows in
      let begun = start_run deps.incident_id spec.name model spec.prompt_version s in
      elim (Bool-cases (is_finished run)) [
        | inl e ↦ rw e refl
        | inr e ↦
            let (h, b) =
              start_run_lem deps.incident_id spec.name model spec.prompt_version s run refl e in
            let fuel = suc (spec.max_steps + spec.max_rewrites) in
            let o = run_agent spec deps model check wording fuel text begun in
            let same =
              run_agent_stable spec deps model check wording (SameRuns begun)
                (SameRuns-Stable begun) fuel text begun (refl, refl) in
            rw e (
              concluded-Left s o o.ended
                (run_agent-Within spec deps model check wording fuel text begun t (omega arith)) w
                refl
                (let (r, f, d) = h in (r, ap (find_run deps.incident_id spec.name) same.0 ∙ f, d))
                (same.1 ∙ b))
      ]
