-- ===== src/Examples/Fields.antt =====
-- The theorems about a body's fields at a concrete body.
use local_first_llm_privacy.Common.{
  ℕ, zero, suc, ◌==◌, if◌then◌else◌, false, List, [], ◌∷◌, ◌++◌, map, none, some, Result, ok,
  >>=-eq-ok, ok-injective, Bool-cases, Option-cases, inl, inr, ◌≡◌, refl, sym, ap, ◌∙◌, subst,
  text_eq, length, raise, json_decode_error, caught,
}
use local_first_llm_privacy.Common.Chars.{Text}
use local_first_llm_privacy.Json.{Json, string_value, object_value, JsonObject, no_field, field}
use local_first_llm_privacy.FieldWalker.{
  key, FieldPath, TextRegion, segment_eq, arguments_key, path_eq, ends_in_arguments, Substitutions,
  substitution, is_beneath, has_substitution_beneath, as_container, try_parse_json_container,
  unwrapped, walk_text, walk_value, walk_nested, walk, rebuild_text, rebuild_value, rebuild_object,
  rebuild_nested, rebuild,
}
use local_first_llm_privacy.FieldWalker.Shape.{shape}
use local_first_llm_privacy.FieldWalker.Paths.{replace, hits, path_eq_sound}
use local_first_llm_privacy.FieldWalker.Leaves.{SparesArguments, ReadsBack}
use local_first_llm_privacy.FieldWalker.Rebuilding.{walk-rebuild}

-- The key "a".
abbrev pub a_key : Text
a_key = b'a' ∷ []

-- The object with one text under "a", which is written as "{" and the text.
unfoldable pub boxed : Text → Json
boxed text = object_value (field a_key (string_value text) no_field)

unfoldable pub load_box : Text → Result Json
load_box [] = raise json_decode_error
load_box (c ∷ text) = if c == b'{' then ok (boxed text) else raise json_decode_error

unfoldable pub dump_box : Json → Text
dump_box (object_value (field k (string_value text) fields)) = b'{' ∷ text
dump_box _ = []

load_box-some :
    (text : Text) (parsed : Json)
    → load_box text ≡ ok parsed
    → (t : Text) × (parsed ≡ boxed t) × (length text ≡ suc (length t))
unfolding load_box
load_box-some [] parsed h = cc
load_box-some (c ∷ text) parsed h = elim (Bool-cases (c == b'{')) [
  | inl e ↦
      let same : ok (boxed text) ≡ ok parsed = rw e at h in (text, ok-injective (sym same), refl)
  | inr e ↦ let bad : raise json_decode_error ≡ ok parsed = rw e at h in cc
]

last_a : (path : FieldPath) → ends_in_arguments (path ++ (key a_key ∷ [])) ≡ false
unfolding ends_in_arguments segment_eq text_eq
last_a [] = refl
last_a (s ∷ []) = refl
last_a (s ∷ s' ∷ path) = last_a (s' ∷ path)

module _ (subs : Substitutions) (nested : Json → FieldPath → Result (Json × List FieldPath)) where
  rebuild_text-text :
      (t : Text) (path : FieldPath) (r : Json × List FieldPath)
      → rebuild_text load_box dump_box subs nested t (path ++ (key a_key ∷ [])) ≡ ok r
      → (x : Text) × (r.0 ≡ string_value x)
  unfolding rebuild_text unwrapped
  rebuild_text-text t path r h =
      elim (Option-cases (substitution (path ++ (key a_key ∷ [])) subs)) [
        | inr (new, e) ↦
            let out : ok (string_value new, (path ++ (key a_key ∷ [])) ∷ []) ≡ ok r =
              rw (rebuild_text, e) at h in
            (new, ap (λ (x : Json × List FieldPath). x.0) (sym (ok-injective out)))
        | inl e ↦
            let out : ok (string_value t, []) ≡ ok r =
              rw (rebuild_text, e, unwrapped, last_a path) at h in
            (t, ap (λ (x : Json × List FieldPath). x.0) (sym (ok-injective out)))
      ]

pub box-ReadsBack :
    (subs : Substitutions) (depth : ℕ)
    → ReadsBack load_box dump_box subs (rebuild_nested load_box dump_box subs depth)
unfolding rebuild_nested rebuild_value boxed load_box dump_box
box-ReadsBack subs zero text parsed path rebuilt loaded built = cc
box-ReadsBack subs (suc depth) text parsed path rebuilt loaded built =
    let (t, same, size) = load_box-some text parsed loaded in
    let nested = rebuild_nested load_box dump_box subs depth in
    let built' = ap (λ j. rebuild_value load_box dump_box subs nested j path) (sym same) ∙ built in
    let (o, step, out) =
      >>=-eq-ok
        (rebuild_object load_box dump_box subs nested (field a_key (string_value t) no_field) path)
        _ built' in
    let (r, first, rest) =
      >>=-eq-ok (rebuild_text load_box dump_box subs nested t (path ++ (key a_key ∷ []))) _ step in
    let (x, e) = rebuild_text-text subs nested t path r first in
    let object : o.0 ≡ field a_key (string_value x) no_field =
      ap (λ (y : JsonObject × List FieldPath). y.0) (sym (ok-injective rest))
      ∙ ap (λ j. field a_key j no_field) e in
    let whole : rebuilt.0 ≡ boxed x =
      ap (λ (y : Json × List FieldPath). y.0) (sym (ok-injective out)) ∙ ap object_value object in
    subst (λ j. load_box (dump_box j) ≡ ok j) (sym whole) refl

abbrev pub hi_text : Text
hi_text = b'h' ∷ b'i' ∷ []

abbrev pub xo_text : Text
xo_text = b'x' ∷ b'o' ∷ []

-- {"a": "hi", "arguments": "{xo"}, whose arguments decode to {"a": "xo"}.
abbrev pub call_body : Json
call_body = object_value (
    field a_key (string_value hi_text)
      (field arguments_key (string_value (b'{' ∷ xo_text)) no_field))

abbrev pub call_regions : List TextRegion
call_regions =
    record { path = key a_key ∷ []; text = hi_text }
    ∷ record { path = key arguments_key ∷ key a_key ∷ []; text = xo_text }
    ∷ []

-- A new text inside the arguments.
abbrev new_text : Substitutions
new_text = (key arguments_key ∷ key a_key ∷ [], b'y' ∷ []) ∷ []

abbrev new_call_body : Json
new_call_body = object_value (
    field a_key (string_value hi_text)
      (field arguments_key (string_value (b'{' ∷ b'y' ∷ [])) no_field))

new_text-SparesArguments : SparesArguments new_text
unfolding substitution ends_in_arguments segment_eq text_eq
new_text-SparesArguments path text h =
    elim (Bool-cases (path_eq path (key arguments_key ∷ key a_key ∷ []))) [
      | inl e ↦ ap ends_in_arguments (path_eq_sound path (key arguments_key ∷ key a_key ∷ []) e)
      | inr e ↦ let bad : none ≡ some text = rw (substitution, e) at h in cc
    ]

pub call_body-walked : walk load_box 2 call_body ≡ ok call_regions
unfolding walk walk_nested walk_value walk_text unwrapped try_parse_json_container as_container
    load_box boxed ends_in_arguments segment_eq text_eq caught
call_body-walked = refl

call_body-rebuilt :
    rebuild load_box dump_box new_text 2 call_body
    ≡ ok (new_call_body, (key arguments_key ∷ key a_key ∷ []) ∷ [])
unfolding rebuild rebuild_nested rebuild_value rebuild_text substitution path_eq
    has_substitution_beneath is_beneath unwrapped try_parse_json_container as_container load_box
    boxed ends_in_arguments segment_eq text_eq dump_box caught
call_body-rebuilt = refl

walk-rebuild_example :
    (walk load_box 2 new_call_body ≡ ok (map (replace new_text) call_regions))
    × (((key arguments_key ∷ key a_key ∷ []) ∷ []) ≡ hits new_text call_regions)
    × (shape load_box 2 new_call_body ≡ shape load_box 2 call_body)
walk-rebuild_example =
    walk-rebuild load_box dump_box new_text 2 call_body new_call_body call_regions
      ((key arguments_key ∷ key a_key ∷ []) ∷ []) new_text-SparesArguments (box-ReadsBack new_text)
      call_body-walked call_body-rebuilt
