-- ===== src/Tools/Registry.antt =====
-- app/tools/registry.py with app/tools/base.py and evidence.py: a tool call from its arguments to its
-- outcome. The messages of errors are kept as data. `latency_ms`, which nothing tests, is left out, and
-- so are the span and the metrics.
pub mod Evidence
use Prim.Native.String.{◌++◌ as str_append}
use Prim.Native.Char.{code}
use sre_blackboard.Common.{
  ℕ, ◌/◌, String, Bool, true, false, Option, none, some, List, [], ◌∷◌, ◌⊎◌, inl, inr, ltb, ◌==◌,
  str_eq, if◌then◌else◌, map,
}
use sre_blackboard.Llm.Json.{
  Json, null, boolean, number, text, array, object, Items, end, item, Fields, done, field,
}
use sre_blackboard.Tools.Compress.{take_chars, put_field, bound}

pub data ToolCode : Type 0 where
  invalid_args bad_query not_found forbidden timeout unavailable backend_error : ToolCode
  too_large circuit_open replay_miss unknown_tool : ToolCode

pub data Message : Type 0 where
  said : String → Message
  no_tool_named : String → Message
  problems : String → List String → Message
  over_limit : ℕ → ℕ → Message
  unexpected_shape : String → Message
  not_yours : String → List String → Message

pub record ToolError : Type 0 where
  pub code : ToolCode
  pub message : Message
  pub retryable : Bool
  pub attempts : ℕ

abbrev pub tool_error : ToolCode → Message → ToolError
tool_error code message = record { code = code; message = message; retryable = false; attempts = 1 }

-- `validate` is model_validate and model_dump of the tool's pydantic model; `summarize` answers `none`
-- where it raises one of the four exceptions that `_run` catches.
pub record Tool : Type 0 where
  pub name : String
  pub backend : String
  pub max_result_bytes : ℕ
  pub validate : Fields → List String ⊎ Fields
  pub summarize : Json → Fields → Option Fields

pub record ToolContext : Type 0 where
  pub tenant_id : String
  pub incident_id : Option ℕ
  pub agent : Option String
  pub scope : Option String

pub record ToolOutcome : Type 0 where
  pub tool : String
  pub args : Fields
  pub evidence_id : Option String
  pub summary : Option Fields
  pub error : Option ToolError
  pub attempts : ℕ
  pub fetched_at : Option ℕ

abbrev pub is_ok : ToolOutcome → Bool
is_ok o = elim (o.error) [ none ↦ true | some e ↦ false ]

-- What `for_model` writes.
pub data Content : Type 0 where
  error_body : String → ToolError → Content
  summary_body : String → Option String → Option Fields → Content

unfoldable pub for_model : ToolOutcome → Content
for_model o = elim (o.error) [
  | some e ↦ error_body o.tool e
  | none ↦ summary_body o.tool o.evidence_id o.summary
]

pub record EvidenceRecord : Type 0 where
  pub id : String
  pub tenant_id : String
  pub incident_id : Option ℕ
  pub tool : String
  pub args : Fields
  pub result : Json
  pub result_hash : String
  pub result_bytes : ℕ
  pub summary : Fields
  pub truncated : Bool
  pub source : String
  pub fetched_at : ℕ

pub record ToolCallRecord : Type 0 where
  pub tenant_id : String
  pub incident_id : Option ℕ
  pub agent : Option String
  pub tool : String
  pub args : Fields
  pub error : Option ToolError
  pub attempts : ℕ
  pub evidence_id : Option String

pub record Fetched : Type 0 where
  pub raw : Json
  pub fetched_at : ℕ
  pub attempts : ℕ
  pub source : String

-- value.replace("\x00", "\ufffd")
unfoldable pub replace_nul : String → String
replace_nul String.[] = String.[]
replace_nul (String.◌∷◌ c s) =
    let rest = replace_nul s in if code c == 0 then str_append "�" rest else String.◌∷◌ c rest

unfoldable mutual
  unfolding replace_nul put_field

  pub without_nul : Json → Json
  without_nul (text s) = text (replace_nul s)
  without_nul (array xs) = array (items_without_nul xs)
  without_nul (object fs) = object (fields_without_nul done fs)
  without_nul value = value

  pub items_without_nul : Items → Items
  items_without_nul end = end
  items_without_nul (item x xs) = item (without_nul x) (items_without_nul xs)

  pub fields_without_nul : Fields → Fields → Fields
  fields_without_nul out done = out
  fields_without_nul out (field k v fs) =
      fields_without_nul (put_field (replace_nul k) (without_nul v) out) fs

-- The standard library's share: the length of a value's canonical JSON in characters and in bytes,
-- its SHA-256 in hexadecimal, and the SHA-256 of the canonical JSON of a list of four.
pub record Codec : Type 0 where
  pub chars : Json → ℕ
  pub bytes : Json → ℕ
  pub sha256 : Json → String
  pub sha256_of : String → String → Fields → String → String
  pub uuid_text : ℕ → String

unfoldable pub evidence_scope : Codec → ToolContext → String
evidence_scope c ctx =
    let default =
      str_append ctx.tenant_id
        (str_append "/" (elim (ctx.incident_id) [ none ↦ "adhoc" | some i ↦ c.uuid_text i ])) in
    elim (ctx.scope) [ none ↦ default | some s ↦ if str_eq s "" then default else s ]

abbrev pub evidence_id : Codec → String → String → Fields → String → String
evidence_id c scope tool args hash =
    str_append "ev_" (take_chars 16 (c.sha256_of scope tool args hash))

-- What `_run` and `_validate` end with: a ToolError, or the outcome's fields and the evidence.
unfoldable pub evidence_of :
    Codec → ℕ → ToolContext → Tool → Fields → Fetched → ToolError ⊎ EvidenceRecord
unfolding bound without_nul evidence_scope
evidence_of c max_chars ctx tool args got =
    let raw = without_nul got.raw in
    if ltb tool.max_result_bytes (c.bytes raw)
    then inl (tool_error too_large (over_limit (c.bytes raw / 1024) (tool.max_result_bytes / 1024)))
    else elim (tool.summarize raw args) [
      | none ↦ inl (tool_error backend_error (unexpected_shape tool.backend))
      | some summary ↦
          let (bounded, truncated) = bound c.chars max_chars summary in
          inr (record {
            id = evidence_id c (evidence_scope c ctx) tool.name args (c.sha256 raw);
            tenant_id = ctx.tenant_id;
            incident_id = ctx.incident_id;
            tool = tool.name;
            args = args;
            result = raw;
            result_hash = c.sha256 raw;
            result_bytes = c.bytes raw;
            summary = bounded;
            truncated = truncated;
            source = got.source;
            fetched_at = got.fetched_at;
          })
    ]

-- self.tools.get(name): of two tools with one name the dictionary keeps the later.
unfoldable pub find_tool : String → List Tool → Option Tool
find_tool name [] = none
find_tool name (t ∷ ts) = elim (find_tool name ts) [
  | some u ↦ some u
  | none ↦ if str_eq t.name name then some t else none
]

abbrev pub failed : String → Fields → Option ℕ → ToolError → ToolOutcome
failed name args fetched_at e = record {
  tool = name;
  args = args;
  evidence_id = none;
  summary = none;
  error = some e;
  attempts = e.attempts;
  fetched_at = fetched_at;
}

abbrev pub succeeded : String → Fields → Fetched → EvidenceRecord → ToolOutcome
succeeded name args got evidence = record {
  tool = name;
  args = args;
  evidence_id = some evidence.id;
  summary = some evidence.summary;
  error = none;
  attempts = got.attempts;
  fetched_at = some got.fetched_at;
}

-- What a call hands to the sink, beside its outcome.
pub record Called : Type 0 where
  pub outcome : ToolOutcome
  pub evidence : Option EvidenceRecord

abbrev pub refused : ToolOutcome → Called
refused o = record { outcome = o; evidence = none }

unfoldable pub run_tool :
    Codec → ℕ → ToolContext → String → Tool → Fields → ToolError ⊎ Fetched → Called
unfolding evidence_of
run_tool c max_chars ctx name tool args (inl e) = refused (failed name args none e)
run_tool c max_chars ctx name tool args (inr got) =
    elim (evidence_of c max_chars ctx tool args got) [
      | inl e ↦ refused (failed name args (some got.fetched_at) e)
      | inr evidence ↦ record {
        outcome = succeeded name args got evidence;
        evidence = some evidence;
      }
    ]

-- `fetch` is what the source answers to this call.
unfoldable pub try_call :
    Codec
    → ℕ
    → List Tool
    → (Tool → Fields → ToolError ⊎ Fetched)
    → ToolContext
    → String
    → Fields
    → Called
unfolding find_tool run_tool
try_call c max_chars tools fetch ctx name raw_args = elim (find_tool name tools) [
  | none ↦ refused (failed name raw_args none (tool_error unknown_tool (no_tool_named name)))
  | some tool ↦ elim (tool.validate raw_args) [
    | inl wrong ↦
        refused (failed name raw_args none (tool_error invalid_args (problems tool.name wrong)))
    | inr args ↦ run_tool c max_chars ctx name tool args (fetch tool args)
  ]
]

abbrev pub call_record : ToolContext → String → ToolOutcome → ToolCallRecord
call_record ctx name o = record {
  tenant_id = ctx.tenant_id;
  incident_id = ctx.incident_id;
  agent = ctx.agent;
  tool = name;
  args = o.args;
  error = o.error;
  attempts = o.attempts;
  evidence_id = o.evidence_id;
}
