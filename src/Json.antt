-- ===== src/Json.antt =====
-- The values that `json.loads` gives (JSONValue of src/pipeline/field_walker.py), and the reading and
-- writing of a dict's field.
use local_first_llm_privacy.Common.{Bool, Option, none, some, if◌then◌else◌, text_eq}
use local_first_llm_privacy.Common.Chars.{Text}

-- A decoded value; a number stays the text that stands for it.
mutual
  pub data Json : Type 0 where
    null_value : Json
    bool_value : Bool → Json
    number_value : Text → Json
    string_value : Text → Json
    array_value : JsonList → Json
    object_value : JsonObject → Json

  pub data JsonList : Type 0 where
    no_item : JsonList
    item : Json → JsonList → JsonList

  pub data JsonObject : Type 0 where
    no_field : JsonObject
    field : Text → Json → JsonObject → JsonObject

unfoldable pub get_field : Text → JsonObject → Option Json
get_field k no_field = none
get_field k (field k' v o) = let rest = get_field k o in if text_eq k k' then some v else rest

-- `o[k] = v`.
unfoldable pub set_field : Text → Json → JsonObject → JsonObject
set_field k v no_field = field k v no_field
set_field k v (field k' v' o) =
    let rest = set_field k v o in if text_eq k k' then field k' v o else field k' v' rest
