-- ===== src/FieldWalker/Shape.antt =====
-- A decoded body without its texts (src/pipeline/field_walker.py): what is left of it when each text that
-- the walk finds is blanked. Encoded arguments are decoded as the walk does it.
use local_first_llm_privacy.Common.{ℕ, zero, suc, [], ◌∷◌, ◌++◌, Result, ok, raise, some, none}
use local_first_llm_privacy.Common.Chars.{Text}
use local_first_llm_privacy.Json.{
  Json, null_value, bool_value, number_value, string_value, array_value, object_value, JsonList,
  no_item, item, JsonObject, no_field, field,
}
use local_first_llm_privacy.FieldWalker.{key, index, FieldPath, unwrapped}

-- A dict is its entries in order, a list its elements in order.
pub data Shape : Type 0 where
  blank : Shape
  encoded : Shape → Shape
  constant : Json → Shape
  empty_dict : Shape
  entry : Text → Shape → Shape → Shape
  empty_list : Shape
  element : Shape → Shape → Shape

module _ (loads : Text → Result Json) where
  -- `nested` is the shape of what a string decodes to.
  module _ (nested : Json → FieldPath → Shape) where
    unfoldable pub shape_text : Text → FieldPath → Shape
    shape_text value path = elim (unwrapped loads path value) [
      | ok (some parsed) ↦ encoded (nested parsed path)
      | ok none ↦ blank
      | raise e ↦ blank
    ]

    unfoldable mutual
      pub shape_value : Json → FieldPath → Shape
      shape_value (object_value fields) path = shape_object fields path
      shape_value (array_value items) path = shape_list items 0 path
      shape_value (string_value value) path = shape_text value path
      shape_value null_value path = constant null_value
      shape_value (bool_value b) path = constant (bool_value b)
      shape_value (number_value n) path = constant (number_value n)

      pub shape_object : JsonObject → FieldPath → Shape
      shape_object no_field path = empty_dict
      shape_object (field k child fields) path =
          entry k (shape_value child (path ++ (key k ∷ []))) (shape_object fields path)

      pub shape_list : JsonList → ℕ → FieldPath → Shape
      shape_list no_item i path = empty_list
      shape_list (item child items) i path =
          element (shape_value child (path ++ (index i ∷ []))) (shape_list items (suc i) path)

  unfoldable pub shape_nested : ℕ → Json → FieldPath → Shape
  shape_nested zero value path = blank
  shape_nested (suc limit) value path = shape_value (shape_nested limit) value path

  unfoldable pub shape : ℕ → Json → Shape
  shape limit body = shape_nested limit body []
