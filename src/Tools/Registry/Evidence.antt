-- ===== src/Tools/Registry/Evidence.antt =====
-- A tool call has an evidence id exactly where it hands evidence to the sink.
use sre_blackboard.Common.{
  ℕ, ◌≡◌, refl, String, true, false, Option, none, some, List, [], ◌∷◌, ◌⊎◌, inl, inr, arith,
  Bool-cases, Option-cases, ltb, eq_iff, subst,
}
use sre_blackboard.Llm.Json.{Fields}
use sre_blackboard.Tools.Registry.{
  ToolError, Tool, ToolContext, ToolOutcome, EvidenceRecord, Fetched, without_nul, Codec,
  evidence_scope, evidence_id, evidence_of, find_tool, run_tool, try_call, is_ok,
}

-- Evidence of a call of the named tool.
pub record IsFor (c : Codec) (ctx : ToolContext) (name : String) (e : EvidenceRecord) : Type 0 where
  pub tool : e.tool ≡ name
  pub incident : e.incident_id ≡ ctx.incident_id
  pub args : Fields
  pub hash : String
  pub id : e.id ≡ evidence_id c (evidence_scope c ctx) name args hash

-- The evidence of a call against its outcome.
abbrev pub Backs : Codec → ToolContext → String → Option EvidenceRecord → ToolOutcome → Type 0
Backs c ctx name none o = (is_ok o ≡ false) × (o.tool ≡ name)
Backs c ctx name (some e) o =
    (is_ok o ≡ true) × (o.evidence_id ≡ some e.id) × (o.tool ≡ name) × IsFor c ctx name e

abbrev OfTool : Codec → ToolContext → Tool → ToolError ⊎ EvidenceRecord → Type 0
OfTool c ctx tool (inl x) = Unit
OfTool c ctx tool (inr e) = IsFor c ctx tool.name e

evidence_of-OfTool :
    (c : Codec) (max_chars : ℕ) (ctx : ToolContext) (tool : Tool) (args : Fields) (got : Fetched)
    → OfTool c ctx tool (evidence_of c max_chars ctx tool args got)
unfolding evidence_of
evidence_of-OfTool c max_chars ctx tool args got =
    let raw = without_nul got.raw in
    elim (Bool-cases (ltb tool.max_result_bytes (c.bytes raw))) [
      | inl h ↦ rw h tt
      | inr h ↦ elim (Option-cases (tool.summarize raw args)) [
        | inl e ↦ rw (h, e) tt
        | inr (s, e) ↦
            rw (h, e)
              (record { tool = refl; incident = refl; args = args; hash = c.sha256 raw; id = refl })
      ]
    ]

run_tool-Backs :
    (c : Codec) (max_chars : ℕ) (ctx : ToolContext) (tool : Tool) (args : Fields)
    (answer : ToolError ⊎ Fetched)
    → let r = run_tool c max_chars ctx tool.name tool args answer in
      Backs c ctx tool.name r.evidence r.outcome
unfolding run_tool
run_tool-Backs c max_chars ctx tool args (inl x) = (refl, refl)
run_tool-Backs c max_chars ctx tool args (inr got) =
    go (evidence_of c max_chars ctx tool args got) refl
      (evidence_of-OfTool c max_chars ctx tool args got)
  where
    go :
        (r : ToolError ⊎ EvidenceRecord)
        → evidence_of c max_chars ctx tool args got ≡ r
        → OfTool c ctx tool r
        → let r = run_tool c max_chars ctx tool.name tool args (inr got) in
          Backs c ctx tool.name r.evidence r.outcome
    go (inl x) e h = rw (e, run_tool) (refl, refl)
    go (inr v) e h = rw (e, run_tool) (refl, refl, refl, h)

find_tool-name :
    (name : String) (ts : List Tool) (t : Tool) → find_tool name ts ≡ some t → t.name ≡ name
unfolding find_tool
find_tool-name name [] t e = absurd (ground arith)
find_tool-name name (u ∷ ts) t e = ground (arith, find_tool-name name ts t, eq_iff u.name name)

-- An outcome without an error names the evidence that its call hands to the sink, which is evidence of
-- the called tool for the context's incident; one with an error comes with no evidence.
pub try_call-Backs :
    (c : Codec) (max_chars : ℕ) (tools : List Tool) (fetch : Tool → Fields → ToolError ⊎ Fetched)
    (ctx : ToolContext) (name : String) (args : Fields)
    → let r = try_call c max_chars tools fetch ctx name args in
      Backs c ctx name r.evidence r.outcome
unfolding try_call
try_call-Backs c max_chars tools fetch ctx name args = elim (Option-cases (find_tool name tools)) [
  | inl e ↦ rw (e, try_call) (refl, refl)
  | inr (t, e) ↦ valid t e (t.validate args) refl
]
  where
    valid :
        (t : Tool)
        → find_tool name tools ≡ some t
        → (v : List String ⊎ Fields) → t.validate args ≡ v
        → let r = try_call c max_chars tools fetch ctx name args in
          Backs c ctx name r.evidence r.outcome
    valid t e (inl wrong) h = rw (e, h, try_call) (refl, refl)
    valid t e (inr good) h =
        let same = find_tool-name name tools t e in
        rw (e, h, try_call)
          (subst
            (λ n.
              let r = run_tool c max_chars ctx n t good (fetch t good) in
              Backs c ctx n r.evidence r.outcome)
            same (run_tool-Backs c max_chars ctx t good (fetch t good)))
