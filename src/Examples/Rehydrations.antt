-- ===== src/Examples/Rehydrations.antt =====
-- The theorems about rehydration and whole bodies at concrete inputs.
use local_first_llm_privacy.Common.{
  ℕ, ◌+◌, false, List, [], ◌∷◌, drop, ok, ok-injective, ◌≡◌, refl, sym, ap, subst, arith, text_eq,
  put, get,
}
use local_first_llm_privacy.Common.Chars.{Text}
use local_first_llm_privacy.Common.Sorting.{sort, insert}
use local_first_llm_privacy.Sessions.{
  Session, pan, new_session, Shuffler, record_surrogate, known_surrogate_snapshot,
}
use local_first_llm_privacy.Cascade.{ResolvedSpan, span_text}
use local_first_llm_privacy.Sanitize.{
  Registry, SurrogateDomain, Pools, is_name_type, get_surrogate_domain, engine_encrypt,
  engine_decrypt, surrogate_for, sanitize_region, sanitize_loop, splice, last_first,
}
use local_first_llm_privacy.Sanitize.Replacement.{
  IsDescending, IsMinted, next_minted, all_minted, fresh_spans,
}
use local_first_llm_privacy.Rehydrate.{begins_with, real_value, resolve_real_value, rehydrate}
use local_first_llm_privacy.Rehydrate.Pieces.{
  Piece, literal, stand_in, with_surrogates, with_values, is_clear, is_readable, Resolve,
  rehydrate-pieces,
}
use local_first_llm_privacy.Rehydrate.Inverse.{pieces_of, IsReversible, rehydrate-sanitize_region}

unfoldable pub counter : Shuffler ℕ
counter = record { shuffle = λ rng candidates. (candidates, rng + 1) }

-- A domain whose surrogate is the value behind a mark.
unfoldable pub tag : ℕ → SurrogateDomain
tag c = record {
  encrypt = λ value key. ok (c ∷ value);
  decrypt = λ surrogate key. ok (drop 1 surrogate);
}

unfoldable pub tags : Registry
tags = record {
  aadhaar_domain = tag 1;
  pan_domain = tag 2;
  card_domain = tag 3;
  ifsc_domain = tag 4;
  phone_domain = tag 5;
  vehicle_domain = tag 6;
}

unfoldable pub no_names : Pools
no_names = record { names = []; org_names = []; addresses = [] }

abbrev ab : Text
ab = b'a' ∷ b'b' ∷ []

-- A session that has minted a surrogate for "ab".
talk : Session
talk = record_surrogate (new_session [] 5) (2 ∷ ab) pan 7

-- "x", the surrogate, and "y".
abbrev parts : List Piece
parts = literal (b'x' ∷ []) ∷ stand_in (2 ∷ ab) ab ∷ literal (b'y' ∷ []) ∷ []

rehydrate-pieces_example :
    rehydrate tags [] (b'x' ∷ 2 ∷ b'a' ∷ b'b' ∷ b'y' ∷ []) talk
    ≡ ok (b'x' ∷ b'a' ∷ b'b' ∷ b'y' ∷ [])
unfolding talk tags tag record_surrogate new_session known_surrogate_snapshot put get is_readable
    is_clear begins_with with_surrogates with_values Resolve real_value resolve_real_value
    is_name_type engine_decrypt get_surrogate_domain text_eq
rehydrate-pieces_example = rehydrate-pieces tags [] talk parts refl refl (refl, tt)

abbrev xaby : Text
xaby = b'x' ∷ b'a' ∷ b'b' ∷ b'y' ∷ []

seen : ResolvedSpan
seen = record {
  span = record { start = 1; end = 3; entity_type = pan; tier = 1 };
  is_ingress_surrogate = false;
}

one_surrogate :
    (surrogates : List Text)
    → IsMinted counter no_names tags [] xaby 7 (new_session [] 5) 0 (seen.span ∷ []) surrogates
    → surrogates ≡ (2 ∷ ab) ∷ []
unfolding seen surrogate_for is_name_type engine_encrypt get_surrogate_domain tags tag span_text
one_surrogate [] minted = elim minted [ ]
one_surrogate (s ∷ t ∷ others) (next_minted m minted) = elim minted [ ]
one_surrogate (s ∷ []) (next_minted m all_minted) =
    let same : ok (2 ∷ ab) ≡ ok s = ap (λ x. x.0) m in ap (λ t. t ∷ []) (sym (ok-injective same))

read_back : IsReversible counter no_names tags [] xaby (seen.span ∷ []) ((2 ∷ ab) ∷ []) talk
unfolding seen talk tags tag record_surrogate new_session known_surrogate_snapshot put get
    is_readable is_clear begins_with with_surrogates with_values Resolve real_value
    resolve_real_value is_name_type engine_decrypt get_surrogate_domain text_eq pieces_of span_text
read_back = record { full = refl; readable = refl; resolved = (refl, tt) }

seen-fresh : fresh_spans (last_first (seen ∷ [])) ≡ seen.span ∷ []
unfolding seen fresh_spans last_first sort insert
seen-fresh = refl

rehydrate-sanitize_region_example :
    rehydrate tags [] (b'x' ∷ 2 ∷ b'a' ∷ b'b' ∷ b'y' ∷ []) talk ≡ ok xaby
unfolding seen IsDescending fresh_spans last_first sort insert sanitize_region sanitize_loop splice
    span_text surrogate_for is_name_type engine_encrypt get_surrogate_domain tags tag
rehydrate-sanitize_region_example =
    rehydrate-sanitize_region counter no_names tags [] (λ text session. ok (seen ∷ [])) xaby 7
      (seen ∷ []) (new_session [] 5) talk 0 (b'x' ∷ 2 ∷ b'a' ∷ b'b' ∷ b'y' ∷ []) refl
      (omega arith, omega arith, tt) refl
      (λ surrogates m.
        subst (λ ss. IsReversible counter no_names tags [] xaby (seen.span ∷ []) ss talk)
          (sym (one_surrogate surrogates m)) read_back)
