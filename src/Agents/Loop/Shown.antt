-- ===== src/Agents/Loop/Shown.antt =====
-- What an agent is shown is stored: evidence rows through the tool calls of a step.
use sre_blackboard.Common.{
  length, ℕ, ◌≡◌, refl, ap, sym, subst, ◌∙◌, String, Bool, true, false, Option, none, some, List,
  inl, inr, arith, Bool-cases, Option-cases, ==_refl, str_eq, eq_iff, eq_refl, if◌then◌else◌, Among,
  first, later,
}
use sre_blackboard.Remediation.Plan.{lookup}
use sre_blackboard.Remediation.Policy.{mem}
use sre_blackboard.Llm.Types.{Action}
use sre_blackboard.Tools.Registry.{
  ToolOutcome, EvidenceRecord, ToolCallRecord, ToolContext, call_record,
}
use sre_blackboard.Tools.Registry.Evidence.{Backs, try_call-Backs}
use sre_blackboard.Agents.Store.{Store, save, add_evidence, evidence_tool, is_of}
use sre_blackboard.Agents.Loop.{AgentSpec, Deps, context, call_tool, shown_id}

abbrev pub Rows : Type 0
Rows = List (String × (Option ℕ × String))

-- A recorded call of the named tool for the incident, whose evidence has this id.
abbrev pub Logged : ToolContext → List ToolCallRecord → String → String → Type 0
Logged ctx calls id t =
    (r : ToolCallRecord) × Among r calls
    × (r.incident_id ≡ ctx.incident_id)
    × (r.tool ≡ t)
    × (r.evidence_id ≡ some id)

-- No recorded calls of two tools, for the incident, have evidence with the same id.
abbrev pub Distinct : ToolContext → List ToolCallRecord → Type 0
Distinct ctx calls = (id t u : String) → Logged ctx calls id t → Logged ctx calls id u → t ≡ u

-- The rows that are there under the ids of recorded calls are of the incident and of the call's tool.
abbrev pub Owned : ToolContext → List ToolCallRecord → Rows → Type 0
Owned ctx calls rows =
    (id t tool : String) (i : Option ℕ)
    → Logged ctx calls id t
    → lookup id rows ≡ some (i, tool)
    → (i ≡ ctx.incident_id) × (tool ≡ t)

-- The table of calls keeps what it has.
abbrev pub Extends : List ToolCallRecord → List ToolCallRecord → Type 0
Extends calls after = (r : ToolCallRecord) → Among r calls → Among r after

lookup-add_evidence :
    (e : EvidenceRecord) (rows : Rows) (k : String)
    → lookup k (add_evidence e rows) ≡ (elim (lookup k rows) [
      | some row ↦ some row
      | none ↦ if str_eq e.id k then some (e.incident_id, e.tool) else none
    ])
unfolding lookup
lookup-add_evidence e rows k = ground (arith, eq_iff e.id k)

new_row :
    (e : EvidenceRecord) (b : Bool) (i : Option ℕ) (tool : String)
    → if◌then◌else◌ {A = Option (Option ℕ × String)} b (some (e.incident_id, e.tool)) none
      ≡ some (i, tool)
    → (b ≡ true) × (e.incident_id ≡ i) × (e.tool ≡ tool)
new_row e true i tool h = (refl, ground arith, ground arith)
new_row e false i tool h = absurd (ground arith)

add_evidence-Owned :
    (ctx : ToolContext) (calls : List ToolCallRecord) (name : String) (e : EvidenceRecord)
    (rows : Rows)
    → Distinct ctx calls
    → Logged ctx calls e.id name
    → e.tool ≡ name
    → e.incident_id ≡ ctx.incident_id
    → Owned ctx calls rows
    → Owned ctx calls (add_evidence e rows)
add_evidence-Owned ctx calls name e rows d made named of o = λ id t tool i h l.
    let found = sym (lookup-add_evidence e rows id) ∙ l in
    elim (Option-cases (lookup id rows)) [
      | inr (row, r) ↦ o id t tool i h (r ∙ (rw r at found))
      | inl miss ↦
          let new : if◌then◌else◌ {A = Option (Option ℕ × String)} (str_eq e.id id)
                (some (e.incident_id, e.tool)) none
              ≡ some (i, tool) =
            rw miss at found in
          let (b, j, u) = new_row e (str_eq e.id id) i tool new in
          let same : e.id ≡ id = ground (arith, eq_iff e.id id) in
          let own : t ≡ name = d id t name h (subst (λ k. Logged ctx calls k name) same made) in
          (sym j ∙ of, sym u ∙ (named ∙ sym own))
    ]

is_of-some : (incident : ℕ) (i : Option ℕ) → i ≡ some incident → is_of incident i ≡ true
is_of-some incident i h = subst (λ x. is_of incident x ≡ true) (sym h) (==_refl incident)

-- What `evidence_tool` reads of rows.
abbrev pub ToolIn : ℕ → Rows → String → String → Type 0
ToolIn incident rows id tool =
    (i : Option ℕ) × (lookup id rows ≡ some (i, tool)) × (is_of incident i ≡ true)

add_evidence_keeps :
    (incident : ℕ) (e : EvidenceRecord) (rows : Rows) (id tool : String)
    → ToolIn incident rows id tool
    → ToolIn incident (add_evidence e rows) id tool
add_evidence_keeps incident e rows id tool (i, l, b) =
    (i, lookup-add_evidence e rows id ∙ rw l refl, b)

-- The evidence of a call can be read back: its id was not there, or had a row of its own tool.
add_evidence_reads :
    (incident : ℕ) (ctx : ToolContext) (calls : List ToolCallRecord) (name : String)
    (e : EvidenceRecord) (rows : Rows)
    → ctx.incident_id ≡ some incident
    → Logged ctx calls e.id name
    → e.tool ≡ name
    → e.incident_id ≡ ctx.incident_id
    → Owned ctx calls rows
    → ToolIn incident (add_evidence e rows) e.id name
add_evidence_reads incident ctx calls name e rows own made named of o =
    elim (Option-cases (lookup e.id rows)) [
      | inl miss ↦ (
        e.incident_id,
        lookup-add_evidence e rows e.id
            ∙ rw (miss, eq_refl e.id) (ap (λ (t : String). some (e.incident_id, t)) named),
        is_of-some incident e.incident_id (of ∙ own),
      )
      | inr ((i, tool), r) ↦
          let (a, b) = o e.id name tool i made r in
          add_evidence_keeps incident e rows e.id name
            (i, r ∙ ap (λ (t : String). some (i, t)) b, is_of-some incident i (a ∙ own))
    ]

ToolIn-evidence_tool :
    (s : Store) (incident : ℕ) (id tool : String)
    → ToolIn incident s.evidence id tool
    → evidence_tool s incident id ≡ some tool
unfolding evidence_tool
ToolIn-evidence_tool s incident id tool (i, l, b) = rw (l, b, evidence_tool) refl

module _ {V : Type 0} (spec : AgentSpec V) (deps : Deps) (model : String) where
  -- The agent was shown evidence of the incident, from one of its tools.
  abbrev pub Real : Rows → String × String → Type 0
  Real rows (id, tool) = ToolIn deps.incident_id rows id tool × (mem tool spec.tools ≡ true)

  -- What a step of the loop does to the evidence; `calls` are all calls of the run and before.
  pub record Grows (calls : List ToolCallRecord) (rows after : Rows) : Type 0 where
    pub owned : Owned (context spec deps model) calls after
    pub keeps :
        (id tool : String)
        → ToolIn deps.incident_id rows id tool
        → ToolIn deps.incident_id after id tool

  -- What a call adds to the evidence, and that it is what the agent is shown.
  abbrev pub Shows : List ToolCallRecord → Rows → Rows → ToolOutcome → Type 0
  Shows calls rows after o =
      Grows calls rows after × ((id : String) → shown_id o ≡ some id → Real after (id, o.tool))

  save-Extends :
      (e : Option EvidenceRecord) (call : ToolCallRecord) (s : Store)
      → Extends s.tool_calls (save e call s).tool_calls × Among call (save e call s).tool_calls
  unfolding save
  save-Extends none call s = ((λ r m. later m), first refl)
  save-Extends (some e) call s = ((λ r m. later m), first refl)

  save-Shows :
      (calls : List ToolCallRecord) (e : Option EvidenceRecord) (o : ToolOutcome) (name : String)
      (s : Store)
      → Distinct (context spec deps model) calls
      → Owned (context spec deps model) calls s.evidence
      → mem name spec.tools ≡ true
      → Backs deps.codec (context spec deps model) name e o
      → Among (call_record (context spec deps model) name o) calls
      → Shows calls s.evidence (save e (call_record (context spec deps model) name o) s).evidence o
  unfolding save
  save-Shows calls none o name s d own m (bad, _) there =
      (record { owned = own; keeps = λ id tool h. h }, λ id h. absurd (ground arith))
  save-Shows calls (some e) o name s d own m (fine, named, called, f) there =
      let made : Logged (context spec deps model) calls e.id name =
        (call_record (context spec deps model) name o, there, refl, refl, named) in
      (
        record {
          owned =
              add_evidence-Owned (context spec deps model) calls name e s.evidence d made f.tool
                f.incident own;
          keeps = add_evidence_keeps deps.incident_id e s.evidence;
        },
        λ id h.
            let same : e.id ≡ id = ground arith in
            let back =
              add_evidence_reads deps.incident_id (context spec deps model) calls name e s.evidence
                refl made f.tool f.incident own in
            subst (λ t. Real (add_evidence e s.evidence) (id, t)) (sym called)
              (subst (λ k. Real (add_evidence e s.evidence) (k, name)) same (back, m)),
      )

  pub call_tool-Extends :
      (a : Action) (store : Store)
      → Extends store.tool_calls (call_tool spec deps model a store).1.tool_calls
  unfolding call_tool
  call_tool-Extends a store = elim (Bool-cases (mem a.tool spec.tools)) [
    | inl m ↦ rw (m, call_tool) ((save-Extends _ _ store).0)
    | inr m ↦ rw (m, call_tool) (λ r h. h)
  ]

  pub call_tool-Shows :
      (calls : List ToolCallRecord) (a : Action) (store : Store)
      → Distinct (context spec deps model) calls
      → Owned (context spec deps model) calls store.evidence
      → let r = call_tool spec deps model a store in
        Extends r.1.tool_calls calls → Shows calls store.evidence r.1.evidence r.0
  unfolding call_tool
  call_tool-Shows calls a store d o = elim (Bool-cases (mem a.tool spec.tools)) [
    | inl m ↦
        rw (m, call_tool)
          (λ all.
            save-Shows calls _ _ a.tool store d o m
              (try_call-Backs deps.codec deps.max_summary_chars deps.registry
                (deps.fetch (length store.tool_calls) (some spec.name)) (context spec deps model)
                a.tool a.args)
              (all _ (save-Extends _ _ store).1))
    | inr m ↦ rw (m, call_tool) (λ all. (record { owned = o; keeps = λ id tool h. h }, λ id h. cc))
  ]
