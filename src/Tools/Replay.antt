-- ===== src/Tools/Replay.antt =====
-- app/tools/sources.py: `RecordingSource` and `ReplaySource`. A key, the canonical JSON of a list of
-- texts and arguments, is the list itself, with the arguments' canonical JSON as a text.
pub mod Order
pub mod RoundTrip
use sre_blackboard.Common.{
  ℕ, String, Bool, true, false, ◌&&◌, Option, none, some, List, [], ◌∷◌, ◌++◌, ◌⊎◌, inl, inr,
  str_eq, if◌then◌else◌,
}
use sre_blackboard.Llm.Json.{Json}
use sre_blackboard.Tools.Registry.{ToolCode, Message}

pub data Key : Type 0 where
  by_tool : String → String → Key
  by_agent : String → String → String → Key

unfoldable pub key_eq : Key → Key → Bool
key_eq (by_tool t x) (by_tool u y) = str_eq t u && str_eq x y
key_eq (by_agent a t x) (by_agent b u y) = str_eq a b && (str_eq t u && str_eq x y)
key_eq (by_tool t x) (by_agent b u y) = false
key_eq (by_agent a t x) (by_tool u y) = false

-- What the source answers: the raw data and when it was read, or an error's code and message.
pub data Answer : Type 0 where
  raw : Json → ℕ → Answer
  error : ToolCode → Message → Answer

pub record Call : Type 0 where
  pub tool : String
  pub args : String
  pub agent : Option String

pub record Entry : Type 0 where
  pub call : Call
  pub answer : Answer

abbrev pub tool_key : Call → Key
tool_key c = by_tool c.tool c.args

abbrev pub agent_key : Call → Option Key
agent_key c = elim (c.agent) [ none ↦ none | some a ↦ some (by_agent a c.tool c.args) ]

-- RecordingSource.fetch: what the live source answers is also appended, errors included.
unfoldable pub record_call : Call → Answer → List Entry → List Entry
record_call c live cassette = cassette ++ (record { call = c; answer = live } ∷ [])

-- A live run, recorded call by call.
unfoldable pub record_all : List (Call × Answer) → List Entry → List Entry
unfolding record_call
record_all [] cassette = cassette
record_all ((c, live) ∷ rest) cassette = record_all rest (record_call c live cassette)

-- The dictionaries of a ReplaySource. A key without a queue reads as one with an empty queue, which
-- `_take` treats alike.
pub record Replay : Type 0 where
  pub queues : Key → List Entry
  pub last : Key → Option Entry

abbrev pub set {ℓ} : {A : Type ℓ} → (Key → A) → Key → A → Key → A
set f k v j = if key_eq k j then v else f j

abbrev pub push : Key → Entry → (Key → List Entry) → Key → List Entry
push k e queues = set queues k (queues k ++ (e ∷ []))

abbrev pub push_agent : Option Key → Entry → (Key → List Entry) → Key → List Entry
push_agent none e queues = queues
push_agent (some k) e queues = push k e queues

-- __post_init__
unfoldable pub fill : List Entry → (Key → List Entry) → Key → List Entry
fill [] queues = queues
fill (e ∷ es) queues = fill es (push_agent (agent_key e.call) e (push (tool_key e.call) e queues))

unfoldable pub new_replay : List Entry → Replay
unfolding fill
new_replay cassette = record { queues = fill cassette (λ k. []); last = λ k. none }

-- _take
unfoldable pub take : Key → Replay → Option Entry × Replay
take k r = elim (r.queues k) [
  | [] ↦ (r.last k, r)
  | e ∷ rest ↦ (some e, record { queues = set r.queues k rest; last = set r.last k (some e) })
]

abbrev pub or_take : Key → Option Entry × Replay → Option Entry × Replay
or_take k (some e, r) = (some e, r)
or_take k (none, r) = take k r

abbrev pub take_agent : Option Key → Replay → Option Entry × Replay
take_agent none r = (none, r)
take_agent (some k) r = take k r

-- ReplaySource.fetch: `none` is the ToolError "replay_miss". An entry with an error raises it.
unfoldable pub fetch : Call → Replay → Option Answer × Replay
unfolding take
fetch c r =
    let (found, after) = or_take (tool_key c) (take_agent (agent_key c) r) in
    ((elim found [ none ↦ none | some e ↦ some e.answer ]), after)

unfoldable pub fetch_all : List Call → Replay → Replay
unfolding fetch
fetch_all [] r = r
fetch_all (c ∷ cs) r = fetch_all cs (fetch c r).1
