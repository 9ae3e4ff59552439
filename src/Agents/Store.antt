-- ===== src/Agents/Store.antt =====
-- app/agents/store.py: `PgAgentStore`, with the rows of `PgEvidenceStore` (app/tools/evidence.py). The
-- tables of calls have the newest row first, the board the oldest. The fence of `_write` is that of
-- Queue/Lease; prices and times are left out.
use sre_blackboard.Common.{
  ℕ, ◌+◌, String, Bool, true, false, ◌&&◌, Option, none, some, List, [], ◌∷◌, ◌++◌, ◌==◌, str_eq,
  if◌then◌else◌, map,
}
use sre_blackboard.Llm.Json.{Json, Fields, done as no_fields}
use sre_blackboard.Llm.Types.{Usage, total, Step, LlmError}
use sre_blackboard.Remediation.Plan.{lookup}
use sre_blackboard.Tools.Compress.{take_chars}
use sre_blackboard.Tools.Registry.{EvidenceRecord, ToolCallRecord}

pub record LlmCallRecord : Type 0 where
  pub tenant_id : String
  pub incident_id : Option ℕ
  pub agent : String
  pub step_no : ℕ
  pub backend : String
  pub model : String
  pub prompt_version : String
  pub request_hash : String
  pub usage : Usage
  pub attempts : ℕ
  pub step : Option Step
  pub error : Option LlmError

pub data EntryKind : Type 0 where
  plan finding diagnosis : EntryKind

pub record Entry : Type 0 where
  pub kind : EntryKind
  pub author : String
  pub body : Json
  pub evidence_ids : List String

pub data RunStatus : Type 0 where
  running done failed : RunStatus

pub record RunRecord : Type 0 where
  pub agent : String
  pub status : RunStatus
  pub model : String
  pub prompt_version : String
  pub steps : ℕ
  pub result : Fields
  pub error : Option String

pub record Store : Type 0 where
  pub evidence : List (String × (Option ℕ × String))
  pub tool_calls : List ToolCallRecord
  pub calls : List LlmCallRecord
  pub run_rows : List ((ℕ × String) × RunRecord)
  pub board : List (ℕ × Entry)

abbrev pub is_of : ℕ → Option ℕ → Bool
is_of incident none = false
is_of incident (some i) = i == incident

-- setdefault: a known id keeps its row.
abbrev pub add_evidence :
    EvidenceRecord → List (String × (Option ℕ × String)) → List (String × (Option ℕ × String))
add_evidence e rows = elim (lookup e.id rows) [
  | none ↦ (e.id, (e.incident_id, e.tool)) ∷ rows
  | some row ↦ rows
]

unfoldable pub save : Option EvidenceRecord → ToolCallRecord → Store → Store
unfolding lookup
save none call s = record s { tool_calls = call ∷ s.tool_calls }
save (some e) call s = record s {
  evidence = add_evidence e s.evidence;
  tool_calls = call ∷ s.tool_calls;
}

unfoldable pub record_llm_call : LlmCallRecord → Store → Store
record_llm_call r s = record s { calls = r ∷ s.calls }

unfoldable pub sum_tokens : ℕ → List LlmCallRecord → ℕ
sum_tokens incident [] = 0
sum_tokens incident (c ∷ cs) =
    (if is_of incident c.incident_id then total c.usage else 0) + sum_tokens incident cs

unfoldable pub tokens_used : ℕ → Store → ℕ
unfolding sum_tokens
tokens_used incident s = sum_tokens incident s.calls

-- self.evidence[i][1] where the id is known and of the incident
unfoldable pub evidence_tool : Store → ℕ → String → Option String
unfolding lookup
evidence_tool s incident id = elim (lookup id s.evidence) [
  | none ↦ none
  | some (i, tool) ↦ if is_of incident i then some tool else none
]

unfoldable pub evidence_tools : Store → ℕ → List String → List (String × String)
unfolding evidence_tool
evidence_tools s incident [] = []
evidence_tools s incident (id ∷ ids) =
    let rest = evidence_tools s incident ids in
    elim (evidence_tool s incident id) [ none ↦ rest | some tool ↦ (id, tool) ∷ rest ]

-- Runs, by incident and agent.
abbrev pub is_run : ℕ → String → (ℕ × String) × RunRecord → Bool
is_run incident agent ((i, a), r) = i == incident && str_eq a agent

unfoldable pub find_run : ℕ → String → List ((ℕ × String) × RunRecord) → Option RunRecord
find_run incident agent [] = none
find_run incident agent (row ∷ rows) =
    let rest = find_run incident agent rows in
    if is_run incident agent row then some row.1 else rest

unfoldable pub put_run :
    ℕ → String → RunRecord → List ((ℕ × String) × RunRecord) → List ((ℕ × String) × RunRecord)
put_run incident agent r [] = ((incident, agent), r) ∷ []
put_run incident agent r (row ∷ rows) =
    let rest = put_run incident agent r rows in
    if is_run incident agent row then ((incident, agent), r) ∷ rows else row ∷ rest

abbrev pub is_done : RunStatus → Bool
is_done done = true
is_done _ = false

-- INSERT ... ON CONFLICT DO UPDATE ... WHERE status <> 'done'
unfoldable pub start_run : ℕ → String → String → String → Store → Store
unfolding find_run put_run
start_run incident agent model version s =
    let started : Store = record s {
      run_rows =
          put_run incident agent
            (record {
              agent = agent;
              status = running;
              model = model;
              prompt_version = version;
              steps = 0;
              result = no_fields;
              error = none;
            })
            s.run_rows;
    } in
    elim (find_run incident agent s.run_rows) [
      | none ↦ started
      | some r ↦ if is_done r.status then s else started
    ]

-- UPDATE ... WHERE status <> 'done': `none` where no row is updated.
abbrev pub unfinished : ℕ → String → Store → Option RunRecord
unfinished incident agent s = elim (find_run incident agent s.run_rows) [
  | none ↦ none
  | some r ↦ if is_done r.status then none else some r
]

unfoldable pub finish_run : ℕ → String → ℕ → Fields → List Entry → Store → Store
unfolding find_run put_run
finish_run incident agent steps result entries s = elim (unfinished incident agent s) [
  | none ↦ s
  | some r ↦ record s {
    run_rows =
        put_run incident agent (record r { status = done; steps = steps; result = result })
          s.run_rows;
    board = s.board ++ map (λ e. (incident, e)) entries;
  }
]

unfoldable pub fail_run : ℕ → String → ℕ → String → Store → Store
unfolding find_run put_run take_chars
fail_run incident agent steps error s = elim (unfinished incident agent s) [
  | none ↦ s
  | some r ↦ record s {
    run_rows =
        put_run incident agent
          (record r { status = failed; steps = steps; error = some (take_chars 2000 error) })
          s.run_rows;
  }
]

-- entries(incident_id)
unfoldable pub entries_of : ℕ → List (ℕ × Entry) → List Entry
entries_of incident [] = []
entries_of incident ((i, e) ∷ rows) =
    let rest = entries_of incident rows in if i == incident then e ∷ rest else rest
