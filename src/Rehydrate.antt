-- ===== src/Rehydrate.antt =====
-- The response path's surrogates turned back (src/pipeline/rehydrate.py). The pattern is an alternation of
-- escaped literals, so that a match of `re` is the first alternative that the text begins with; the
-- log lines are left out.
pub mod Matching
pub mod Pieces
pub mod Inverse
use local_first_llm_privacy.Common.{
  ℕ, zero, suc, ◌==◌, leb, if◌then◌else◌, Bool, true, false, ◌&&◌, List, [], ◌∷◌, ◌++◌, map, length,
  drop, is_nil, Option, none, some, Result, ok, raise, ◌>>=◌, rehydration_error, key_error, get,
}
use local_first_llm_privacy.Common.Chars.{Text}
use local_first_llm_privacy.Common.Bytes.{Bytes}
use local_first_llm_privacy.Common.Sorting.{sort}
use local_first_llm_privacy.Sessions.{
  EntityType, KnownSurrogate, Session, known_surrogate_snapshot, lookup_real_name,
}
use local_first_llm_privacy.Sanitize.{is_name_type, Registry, engine_decrypt}

abbrev pub Known : Type 0
Known = List (Text × KnownSurrogate)

-- `sorted(known, key=len, reverse=True)`.
unfoldable pub pattern_for : Known → List Text
pattern_for known = sort (λ a b. leb (length b) (length a)) (map (λ entry. entry.0) known)

unfoldable pub begins_with : Text → Text → Bool
begins_with [] text = true
begins_with (c ∷ s) [] = false
begins_with (c ∷ s) (d ∷ text) = (c == d) && begins_with s text

-- The match at the head of a text.
unfoldable pub match_at : List Text → Text → Option Text
match_at [] text = none
match_at (alternative ∷ alternatives) text =
    let rest = match_at alternatives text in
    if begins_with alternative text then some alternative else rest

unfoldable pub after_match : Text → ℕ
after_match [] = 0
after_match (c ∷ s) = length s

-- `pattern.sub(replace, text)`: `skip` characters still belong to the last match. An empty match leaves
-- the character behind it as it is.
module _ (pattern : List Text) (replace : Text → Result Text) where
  unfoldable pub sub : ℕ → Text → Result Text
  sub skip [] = elim (match_at pattern []) [ none ↦ ok [] | some surrogate ↦ replace surrogate ]
  sub (suc skip) (c ∷ text) = sub skip text
  sub zero (c ∷ text) = elim (match_at pattern (c ∷ text)) [
    | none ↦ sub 0 text >>= λ rest. ok (c ∷ rest)
    | some surrogate ↦ replace surrogate >>= λ real. sub (after_match surrogate) text >>= λ rest.
        ok (real ++ (if is_nil surrogate then c ∷ rest else rest))
  ]

module _ (domains : Registry) (key : Bytes) where
  unfoldable pub resolve_real_value : Text → EntityType → Session → Result Text
  resolve_real_value surrogate kind session = elim (is_name_type kind) [
    | true ↦ elim (lookup_real_name session surrogate) [
      | some real ↦ ok real
      | none ↦ raise rehydration_error
    ]
    | false ↦ engine_decrypt domains kind surrogate key
  ]

  -- `known[surrogate]` and the value for it.
  unfoldable pub real_value : Known → Session → Text → Result Text
  real_value known session surrogate = elim (get surrogate known) [
    | none ↦ raise key_error
    | some record_of ↦ resolve_real_value surrogate record_of.entity_type session
  ]

  unfoldable pub rehydrate : Text → Session → Result Text
  rehydrate text session =
      let known = known_surrogate_snapshot session in
      if is_nil known then ok text else sub (pattern_for known) (real_value known session) 0 text
