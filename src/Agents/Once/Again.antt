-- ===== src/Agents/Once/Again.antt =====
-- A finished agent is not asked again.
use sre_blackboard.Common.{
  ℕ, ◌≡◌, refl, ap, sym, subst, ◌∙◌, String, true, false, Option, List, [], ◌∷◌, ◌++◌, inl, inr,
  Bool-cases, str_eq, eq_refl, ==_refl, ◌==◌, ◌⊎◌,
}
use sre_blackboard.Llm.Json.{Fields}
use sre_blackboard.Llm.Types.{LlmRequest, StepResult}
use sre_blackboard.Tools.Registry.{Tool, ToolError, Fetched}
use sre_blackboard.Agents.Citations.{Problem, Checked}
use sre_blackboard.Agents.Store.{Store, Entry, entries_of}
use sre_blackboard.Agents.Loop.{AgentSpec, AgentRun, Deps, Ended}
use sre_blackboard.Remediation.Policy.{is_empty}
use sre_blackboard.Agents.Loop.Bounds.{AnswersFinal}
use sre_blackboard.Agents.Once.{OnceResult, reused, finished, by_author, once, once_now}
use sre_blackboard.Agents.Once.Checkpoint.{tagged, WrittenBy, Left, Signed, once_now-Left}

entries_of-append :
    (i : ℕ) (b : List (ℕ × Entry)) (es : List Entry)
    → entries_of i (b ++ tagged i es) ≡ entries_of i b ++ es
unfolding entries_of
entries_of-append i [] [] = refl
entries_of-append i [] (e ∷ es) =
    rw (==_refl i) (ap (λ (l : List Entry). e ∷ l) (entries_of-append i [] es))
entries_of-append i ((j, e) ∷ b) es = elim (Bool-cases (j == i)) [
  | inl h ↦ rw h (ap (λ (l : List Entry). e ∷ l) (entries_of-append i b es))
  | inr h ↦ rw h (entries_of-append i b es)
]

by_author-append :
    (name : String) (xs ys : List Entry)
    → by_author name (xs ++ ys) ≡ by_author name xs ++ by_author name ys
by_author-append name [] ys = refl
by_author-append name (x ∷ xs) ys = elim (Bool-cases (str_eq x.author name)) [
  | inl h ↦ rw h (ap (λ (l : List Entry). x ∷ l) (by_author-append name xs ys))
  | inr h ↦ rw h (by_author-append name xs ys)
]

by_author-own : (name : String) (es : List Entry) → WrittenBy name es → by_author name es ≡ es
by_author-own name [] w = refl
by_author-own name (e ∷ es) (a, w) =
    let own : str_eq e.author name ≡ true =
      subst (λ (n : String). str_eq n name ≡ true) (sym a) (eq_refl name) in
    rw own (ap (λ (l : List Entry). e ∷ l) (by_author-own name es w))

module _ {V : Type 0} (spec : AgentSpec V) (deps : Deps) (model : String)
    (check : V → List (String × String) → Store → Checked V) (wording : Problem → String)
    (to_entries : V → AgentRun V → List Entry × Fields) (summary : AgentRun V → Fields)
    (wording_of : Ended → String) where
  again :
      (text : String) (s after : Store) (es : List Entry)
      → by_author spec.name (entries_of deps.incident_id s.board) ≡ []
      → Left deps.incident_id spec.name s (finished es) after
      → once_now spec deps model check wording to_entries summary wording_of text after
        ≡ (reused es, after)
  unfolding once_now once
  again text s after es fresh ((r, f, d), b, w) =
      let i = deps.incident_id in
      let name = spec.name in
      let read : by_author name (entries_of i after.board) ≡ es =
        ap (λ (l : List (ℕ × Entry)). by_author name (entries_of i l)) b
        ∙ (ap (by_author name) (entries_of-append i s.board es)
            ∙ (by_author-append name (entries_of i s.board) es
                ∙ (ap (λ (l : List Entry). l ++ by_author name es) fresh
                    ∙ by_author-own name es w))) in
      rw (f, once_now) (rw (d, once) (ap (λ (l : List Entry). (reused l, after)) read))

module _ {V : Type 0} (spec : AgentSpec V) (deps : Deps) (model : String)
    (check : V → List (String × String) → Store → Checked V) (wording : Problem → String)
    (to_entries : V → AgentRun V → List Entry × Fields) (summary : AgentRun V → Fields)
    (wording_of : Ended → String) where
  -- When an agent that has no entry on the board finishes, then `once` on what that leaves asks no
  -- model and no tool, whatever these would answer: it gives back the same entries, read from the
  -- board, and leaves the store alone.
  pub once_now-once_now :
      (text other : String) (s : Store) (es : List Entry) (backend : ℕ → LlmRequest → StepResult)
      (fetch : ℕ → Option String → Tool → Fields → ToolError ⊎ Fetched)
      → (is_empty spec.tools ≡ false) ⊎ AnswersFinal deps
      → Signed spec deps model check wording to_entries summary wording_of
      → by_author spec.name (entries_of deps.incident_id s.board) ≡ []
      → (once_now spec deps model check wording to_entries summary wording_of text s).0
        ≡ finished es
      → let after =
          (once_now spec deps model check wording to_entries summary wording_of text s).1 in
        once_now spec
          (record deps { backend = backend; fetch = fetch })
          model
          check
          wording
          to_entries
          summary
          wording_of
          other
          after
        ≡ (reused es, after)
  once_now-once_now text other s es backend fetch tools signed fresh e =
      let r = once_now spec deps model check wording to_entries summary wording_of text s in
      again spec (record deps { backend = backend; fetch = fetch }) model check wording to_entries
        summary wording_of other s r.1 es fresh
        (subst (λ (x : OnceResult). Left deps.incident_id spec.name s x r.1) e
          (once_now-Left spec deps model check wording to_entries summary wording_of text s tools
            signed))
