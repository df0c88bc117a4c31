-- ===== src/Rehydrate/Pieces.antt =====
-- A text with surrogates in it, rehydrated (src/pipeline/rehydrate.py).
use local_first_llm_privacy.Common.{
  leb, Bool, true, false, ◌&&◌, ◌||◌, not, List, [], ◌∷◌, ◌++◌, map, length, all, is_nil, none,
  some, Result, ok, ◌≡◌, refl, sym, ap, ◌∙◌, subst, arith, text_eq,
}
use local_first_llm_privacy.Common.Chars.{Text}
use local_first_llm_privacy.Common.Bytes.{Bytes}
use local_first_llm_privacy.Common.Sorting.{sort, all-sort}
use local_first_llm_privacy.Sessions.{Session, known_surrogate_snapshot}
use local_first_llm_privacy.Sanitize.{Registry}
use local_first_llm_privacy.Rehydrate.{
  Known, pattern_for, begins_with, match_at, after_match, sub, real_value, rehydrate,
}
use local_first_llm_privacy.Rehydrate.Matching.{
  longer_first, is_among, begins_with-append, match_at-none, match_at-sorted,
}

-- A text in parts: what stays as it is, and the surrogates with the values that they stand for.
pub data Piece : Type 0 where
  literal : Text → Piece
  stand_in : Text → Text → Piece

unfoldable pub with_surrogates : List Piece → Text
with_surrogates [] = []
with_surrogates (literal s ∷ pieces) = s ++ with_surrogates pieces
with_surrogates (stand_in s value ∷ pieces) = s ++ with_surrogates pieces

unfoldable pub with_values : List Piece → Text
with_values [] = []
with_values (literal s ∷ pieces) = s ++ with_values pieces
with_values (stand_in s value ∷ pieces) = value ++ with_values pieces

-- No name begins inside the first text, read with the second one behind it.
unfoldable pub is_clear : List Text → Text → Text → Bool
is_clear names [] rest = true
is_clear names (c ∷ s) rest =
    all (λ t. not (begins_with t (c ∷ (s ++ rest)))) names && is_clear names s rest

-- No known surrogate begins where the text stays as it is, and each surrogate is known and overtaken
-- by no longer one.
unfoldable pub is_readable : List Text → List Piece → Bool
is_readable names [] = true
is_readable names (literal s ∷ pieces) =
    is_clear names s (with_surrogates pieces) && is_readable names pieces
is_readable names (stand_in s value ∷ pieces) =
    (is_among s names
      && all (λ t. not (begins_with t (s ++ with_surrogates pieces)) || leb (length t) (length s))
          names)
    && is_readable names pieces

abbrev pub known_names : Session → List Text
known_names session = map (λ entry. entry.0) (known_surrogate_snapshot session)

-- Every surrogate gives its value.
unfoldable pub Resolve : (Text → Result Text) → List Piece → Type 0
Resolve resolve [] = Unit {0}
Resolve resolve (literal s ∷ pieces) = Resolve resolve pieces
Resolve resolve (stand_in s value ∷ pieces) = (resolve s ≡ ok value) × Resolve resolve pieces

module _ (names : List Text) (resolve : Text → Result Text) where
  abbrev pattern : List Text
  pattern = sort longer_first names

  literal_passed :
      (s rest out : Text)
      → is_clear names s rest ≡ true
      → sub pattern resolve 0 rest ≡ ok out
      → sub pattern resolve 0 (s ++ rest) ≡ ok (s ++ out)
  unfolding sub is_clear
  literal_passed [] rest out clear h = h
  literal_passed (c ∷ s) rest out clear h =
      let open_here : match_at pattern (c ∷ (s ++ rest)) ≡ none =
        match_at-none pattern (c ∷ (s ++ rest)) (
          all-sort longer_first (λ t. not (begins_with t (c ∷ (s ++ rest)))) names
          ∙ ground (arith, clear)) in
      rw (sub, open_here, literal_passed s rest out (ground (arith, clear)) h) refl

  skipped :
      (s rest : Text) → sub pattern resolve (length s) (s ++ rest) ≡ sub pattern resolve 0 rest
  unfolding sub
  skipped [] rest = refl
  skipped (c ∷ s) rest = skipped s rest

  surrogate_passed :
      (s value rest out : Text)
      → is_nil s ≡ false
      → match_at pattern (s ++ rest) ≡ some s
      → resolve s ≡ ok value
      → sub pattern resolve 0 rest ≡ ok out
      → sub pattern resolve 0 (s ++ rest) ≡ ok (value ++ out)
  unfolding sub after_match
  surrogate_passed [] value rest out full found e h = absurd (ground (arith, full))
  surrogate_passed (c ∷ s) value rest out full found e h =
      rw (sub, found, e, skipped s rest, h) refl

  no_empty_name : all (λ t. not (is_nil t)) names ≡ true → match_at pattern [] ≡ none
  unfolding begins_with
  no_empty_name full =
      match_at-none pattern []
        (all-sort longer_first (λ t. not (begins_with t [])) names ∙ same names full)
    where
      one : (t : Text) → not (begins_with t []) ≡ not (is_nil t)
      one [] = refl
      one (c ∷ t) = refl

      same :
          (texts : List Text)
          → all (λ t. not (is_nil t)) texts ≡ true
          → all (λ t. not (begins_with t [])) texts ≡ true
      same [] h = refl
      same (t ∷ texts) h = ground (arith, one t, same texts (ground (arith, h)))

  named_full :
      (s : Text) (texts : List Text)
      → all (λ t. not (is_nil t)) texts ≡ true
      → is_among s texts ≡ true
      → is_nil s ≡ false
  unfolding text_eq
  named_full (c ∷ s) texts full here = refl
  named_full [] [] full here = absurd (ground (arith, here))
  named_full [] ([] ∷ texts) full here = absurd (ground (arith, full))
  named_full [] ((c ∷ t) ∷ texts) full here =
      named_full [] texts (ground (arith, full)) (ground (arith, here))

  sub-pieces :
      (pieces : List Piece)
      → all (λ t. not (is_nil t)) names ≡ true
      → is_readable names pieces ≡ true
      → Resolve resolve pieces
      → sub pattern resolve 0 (with_surrogates pieces) ≡ ok (with_values pieces)
  unfolding sub with_surrogates with_values is_readable Resolve
  sub-pieces [] full readable resolved = rw (sub, no_empty_name full) refl
  sub-pieces (literal s ∷ pieces) full readable resolved =
      literal_passed s (with_surrogates pieces) (with_values pieces) (ground (arith, readable))
        (sub-pieces pieces full (ground (arith, readable)) resolved)
  sub-pieces (stand_in s value ∷ pieces) full readable (e, resolved) =
      let here : is_among s names ≡ true = ground (arith, readable) in
      surrogate_passed s value (with_surrogates pieces) (with_values pieces)
        (named_full s names full here)
        (match_at-sorted names s (s ++ with_surrogates pieces) here
          (begins_with-append s (with_surrogates pieces)) (ground (arith, readable)))
        e (sub-pieces pieces full (ground (arith, readable)) resolved)

-- Without names every readable text is its own.
no_surrogates :
    (pieces : List Piece)
    → is_readable [] pieces ≡ true
    → with_surrogates pieces ≡ with_values pieces
unfolding with_surrogates with_values is_readable
no_surrogates [] h = refl
no_surrogates (literal s ∷ pieces) h = ap (λ r. s ++ r) (no_surrogates pieces (ground (arith, h)))
no_surrogates (stand_in s value ∷ pieces) h = absurd (ground (arith, h))

-- A text in which known surrogates stand, whatever is around them, comes back with their values and is
-- otherwise unchanged, when no known surrogate begins in the rest of the text, none is empty, none is
-- overtaken by a longer one where it stands, and each has a value. A text without surrogates is the
-- case of a single literal part.
pub rehydrate-pieces :
    (domains : Registry) (key : Bytes) (session : Session) (pieces : List Piece)
    → all (λ t. not (is_nil t)) (known_names session) ≡ true
    → is_readable (known_names session) pieces ≡ true
    → Resolve (real_value domains key (known_surrogate_snapshot session) session) pieces
    → rehydrate domains key (with_surrogates pieces) session ≡ ok (with_values pieces)
unfolding rehydrate pattern_for
rehydrate-pieces domains key session pieces full readable resolved =
    by_known (known_surrogate_snapshot session) refl
  where
    by_known :
        (known : Known)
        → known_surrogate_snapshot session ≡ known
        → rehydrate domains key (with_surrogates pieces) session ≡ ok (with_values pieces)
    by_known [] e =
        rw (rehydrate, e)
          (ap ok (
            no_surrogates pieces
              (ap (λ k. is_readable (map (λ entry. entry.0) k) pieces) (sym e) ∙ readable)))
    by_known (entry ∷ known) e =
        let all_known =
          sub-pieces (known_names session)
            (real_value domains key (known_surrogate_snapshot session) session) pieces full readable
            resolved in
        rw (rehydrate, e)
          (subst
            (λ k.
              sub (sort longer_first (map (λ x. x.0) k)) (real_value domains key k session) 0
                (with_surrogates pieces)
              ≡ ok (with_values pieces))
            e all_known)
