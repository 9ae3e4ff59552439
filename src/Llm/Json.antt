-- ===== src/Llm/Json.antt =====
-- JSON values, as json.loads gives them to app/llm and app/tools.
use sre_blackboard.Common.{String, Bool, str_eq, if◌then◌else◌}

-- A number is its literal, as json.dumps writes it.
mutual
  pub data Json : Type 0 where
    null : Json
    boolean : Bool → Json
    number : String → Json
    text : String → Json
    array : Items → Json
    object : Fields → Json

  pub data Items : Type 0 where
    end : Items
    item : Json → Items → Items

  pub data Fields : Type 0 where
    done : Fields
    field : String → Json → Fields → Fields

-- raw.get(key): a missing key reads as null.
unfoldable pub get_field : String → Fields → Json
get_field k done = null
get_field k (field j v rest) = let below = get_field k rest in if str_eq j k then v else below
