-- ===== src/Llm/Step.antt =====
-- app/llm/types.py: `normalize_step`, which brings a backend's answer into the shape of a step.
use sre_blackboard.Common.{
  String, Bool, true, false, Option, none, some, List, [], ◌∷◌, str_eq, if◌then◌else◌, not, ◌||◌,
}
use sre_blackboard.Llm.Json.{
  Json, null, boolean, number, text, array, object, Items, end, item, Fields, done, field,
  get_field,
}
use sre_blackboard.Llm.Types.{Action, Step}

-- bool(value) of a parsed JSON value: zero is written in three ways.
unfoldable pub is_truthy : Json → Bool
is_truthy null = false
is_truthy (boolean b) = b
is_truthy (number n) = not (str_eq n "0" || str_eq n "0.0" || str_eq n "-0.0")
is_truthy (text s) = not (str_eq s "")
is_truthy (array end) = false
is_truthy (array (item x xs)) = true
is_truthy (object done) = false
is_truthy (object (field k v rest)) = true

-- Whether `key in raw`.
unfoldable pub has_field : String → Fields → Bool
has_field k done = false
has_field k (field j v rest) = str_eq j k || has_field k rest

-- One element of "actions": an object with a text "tool" and, unless it is missing, an object "args".
unfoldable pub action_of : Json → Option Action
unfolding get_field has_field
action_of (object fs) = elim (get_field "tool" fs) [
  | text t ↦
      if has_field "args" fs
      then (elim (get_field "args" fs) [
        | object args ↦ some (record { tool = t; args = args })
        | _ ↦ none
      ])
      else some (record { tool = t; args = done })
  | _ ↦ none
]
action_of _ = none

unfoldable pub actions_of : Items → Option (List Action)
unfolding action_of
actions_of end = some []
actions_of (item x xs) = elim (action_of x) [
  | none ↦ none
  | some a ↦ elim (actions_of xs) [ none ↦ none | some as' ↦ some (a ∷ as') ]
]

-- raw.get("actions") or [], as actions; `none` where they are no list of actions.
unfoldable pub listed : Json → Option (List Action)
unfolding is_truthy actions_of
listed (array xs) = actions_of xs
listed value = if is_truthy value then none else some []

unfoldable pub text_or_empty : Json → String
text_or_empty (text s) = s
text_or_empty _ = ""

-- `None` is JSON's null.
unfoldable pub final_of : Json → Option Json
final_of null = none
final_of value = some value

-- What becomes of the actions and the final answer: the LLMError is "invalid_output", retryable.
pub data Invalid : Type 0 where
  not_an_object bad_actions nothing_to_do : Invalid

pub data Normalized : Type 0 where
  step_of : Step → Normalized
  invalid_output : Invalid → Normalized

unfoldable pub one_of : String → List Action → Option Json → Normalized
one_of reasoning [] none = invalid_output nothing_to_do
one_of reasoning [] (some f) =
    step_of (record { reasoning = reasoning; actions = []; final = some f })
one_of reasoning (a ∷ as') final =
    step_of (record { reasoning = reasoning; actions = a ∷ as'; final = none })

unfoldable pub normalize_step : Json → Normalized
unfolding get_field listed text_or_empty final_of one_of
normalize_step (object raw) = elim (listed (get_field "actions" raw)) [
  | none ↦ invalid_output bad_actions
  | some actions ↦
      one_of (text_or_empty (get_field "reasoning" raw)) actions (final_of (get_field "final" raw))
]
normalize_step _ = invalid_output not_an_object
