-- ===== src/FieldWalker.antt =====
-- The text-bearing fields of a decoded body, and the body with new texts (src/pipeline/field_walker.py).
-- `json.loads` and `json.dumps` are arguments. A string under the key "arguments" is decoded and walked
-- in its turn; `limit` bounds how deep such strings may lie in one another, with the interpreter's
-- RecursionError beyond it.
pub mod Depth
pub mod Paths
pub mod Shape
pub mod Leaves
pub mod Rebuilding
use local_first_llm_privacy.Common.{
  ℕ, zero, suc, ◌+◌, ◌==◌, ltb, if◌then◌else◌, Bool, true, false, ◌&&◌, ◌||◌, List, [], ◌∷◌, ◌++◌,
  length, take, Option, none, some, is_some, Result, ok, raise, ◌>>=◌, caught, recursion_error,
  text_eq,
}
use local_first_llm_privacy.Common.Chars.{Text}
use local_first_llm_privacy.Json.{
  Json, null_value, bool_value, number_value, string_value, array_value, object_value, JsonList,
  no_item, item, JsonObject, no_field, field,
}

-- A dict's key or a list's index, from the root on.
pub data Segment : Type 0 where
  key : Text → Segment
  index : ℕ → Segment

abbrev pub FieldPath : Type 0
FieldPath = List Segment

pub record TextRegion : Type 0 where
  pub path : FieldPath
  pub text : Text

unfoldable pub segment_eq : Segment → Segment → Bool
segment_eq (key k) (key k') = text_eq k k'
segment_eq (index i) (index j) = i == j
segment_eq (key k) (index j) = false
segment_eq (index i) (key k') = false

unfoldable pub path_eq : FieldPath → FieldPath → Bool
path_eq [] [] = true
path_eq [] (s ∷ q) = false
path_eq (s ∷ p) [] = false
path_eq (s ∷ p) (s' ∷ q) = segment_eq s s' && path_eq p q

abbrev pub arguments_key : Text
arguments_key = b'a' ∷ b'r' ∷ b'g' ∷ b'u' ∷ b'm' ∷ b'e' ∷ b'n' ∷ b't' ∷ b's' ∷ []

-- `path and path[-1] == "arguments"`.
unfoldable pub ends_in_arguments : FieldPath → Bool
ends_in_arguments [] = false
ends_in_arguments (s ∷ []) = segment_eq s (key arguments_key)
ends_in_arguments (s ∷ s' ∷ path) = ends_in_arguments (s' ∷ path)

-- A dict from paths to texts: its entries in order.
abbrev pub Substitutions : Type 0
Substitutions = List (FieldPath × Text)

unfoldable pub substitution : FieldPath → Substitutions → Option Text
substitution path [] = none
substitution path (entry ∷ entries) =
    let rest = substitution path entries in if path_eq path entry.0 then some entry.1 else rest

-- `len(candidate) > len(path) and candidate[: len(path)] == path`.
unfoldable pub is_beneath : FieldPath → FieldPath → Bool
is_beneath path candidate =
    ltb (length path) (length candidate) && path_eq (take (length path) candidate) path

unfoldable pub has_substitution_beneath : FieldPath → Substitutions → Bool
has_substitution_beneath path [] = false
has_substitution_beneath path (entry ∷ entries) =
    is_beneath path entry.0 || has_substitution_beneath path entries

unfoldable pub as_container : Json → Option Json
as_container (array_value items) = some (array_value items)
as_container (object_value fields) = some (object_value fields)
as_container _ = none

module _ (loads : Text → Result Json) where
  unfoldable pub try_parse_json_container : Text → Result (Option Json)
  try_parse_json_container value = caught (loads value) >>= λ decoded. elim decoded [
    | none ↦ ok none
    | some parsed ↦ ok (as_container parsed)
  ]

  -- What `_walk` decodes before it goes on: nothing for a text that it takes as it is.
  unfoldable pub unwrapped : FieldPath → Text → Result (Option Json)
  unwrapped path value = if ends_in_arguments path then try_parse_json_container value else ok none

  -- `nested` walks what a string decodes to.
  module _ (nested : Json → FieldPath → Result (List TextRegion)) where
    -- The branch for a string.
    unfoldable pub walk_text : Text → FieldPath → Result (List TextRegion)
    walk_text value path = unwrapped path value >>= λ decoded. elim decoded [
      | some parsed ↦ nested parsed path
      | none ↦ ok (record { path = path; text = value } ∷ [])
    ]

    unfoldable mutual
      pub walk_value : Json → FieldPath → Result (List TextRegion)
      walk_value (object_value fields) path = walk_object fields path
      walk_value (array_value items) path = walk_list items 0 path
      walk_value (string_value value) path = walk_text value path
      walk_value null_value path = ok []
      walk_value (bool_value b) path = ok []
      walk_value (number_value n) path = ok []

      pub walk_object : JsonObject → FieldPath → Result (List TextRegion)
      walk_object no_field path = ok []
      walk_object (field k child fields) path =
          walk_value child (path ++ (key k ∷ [])) >>= λ regions.
          walk_object fields path >>= λ rest. ok (regions ++ rest)

      pub walk_list : JsonList → ℕ → FieldPath → Result (List TextRegion)
      walk_list no_item i path = ok []
      walk_list (item child items) i path = walk_value child (path ++ (index i ∷ [])) >>= λ regions.
          walk_list items (suc i) path >>= λ rest. ok (regions ++ rest)

  unfoldable pub walk_nested : ℕ → Json → FieldPath → Result (List TextRegion)
  walk_nested zero value path = raise recursion_error
  walk_nested (suc limit) value path = walk_value (walk_nested limit) value path

  unfoldable pub walk : ℕ → Json → Result (List TextRegion)
  walk limit body = walk_nested limit body []

  -- The new body, and the paths that `applied.add` receives, in order.
  module _ (dumps : Json → Text) (substitutions : Substitutions) where
    module _ (nested : Json → FieldPath → Result (Json × List FieldPath)) where
      -- The branch for a string.
      unfoldable pub rebuild_text : Text → FieldPath → Result (Json × List FieldPath)
      rebuild_text value path = elim (substitution path substitutions) [
        | some text ↦ ok (string_value text, path ∷ [])
        | none ↦ unwrapped path value >>= λ decoded. elim decoded [
          | none ↦ ok (string_value value, [])
          | some parsed ↦
              if has_substitution_beneath path substitutions
              then (nested parsed path >>= λ rebuilt.
                  ok (string_value (dumps rebuilt.0), rebuilt.1))
              else ok (string_value value, [])
        ]
      ]

      unfoldable mutual
        pub rebuild_value : Json → FieldPath → Result (Json × List FieldPath)
        rebuild_value (object_value fields) path =
            rebuild_object fields path >>= λ r. ok (object_value r.0, r.1)
        rebuild_value (array_value items) path =
            rebuild_list items 0 path >>= λ r. ok (array_value r.0, r.1)
        rebuild_value (string_value value) path = rebuild_text value path
        rebuild_value null_value path = ok (null_value, [])
        rebuild_value (bool_value b) path = ok (bool_value b, [])
        rebuild_value (number_value n) path = ok (number_value n, [])

        pub rebuild_object : JsonObject → FieldPath → Result (JsonObject × List FieldPath)
        rebuild_object no_field path = ok (no_field, [])
        rebuild_object (field k child fields) path =
            rebuild_value child (path ++ (key k ∷ [])) >>= λ r.
            rebuild_object fields path >>= λ rest. ok (field k r.0 rest.0, r.1 ++ rest.1)

        pub rebuild_list : JsonList → ℕ → FieldPath → Result (JsonList × List FieldPath)
        rebuild_list no_item i path = ok (no_item, [])
        rebuild_list (item child items) i path =
            rebuild_value child (path ++ (index i ∷ [])) >>= λ r.
            rebuild_list items (suc i) path >>= λ rest. ok (item r.0 rest.0, r.1 ++ rest.1)

    unfoldable pub rebuild_nested : ℕ → Json → FieldPath → Result (Json × List FieldPath)
    rebuild_nested zero value path = raise recursion_error
    rebuild_nested (suc limit) value path = rebuild_value (rebuild_nested limit) value path

    unfoldable pub rebuild : ℕ → Json → Result (Json × List FieldPath)
    rebuild limit body = rebuild_nested limit body []
