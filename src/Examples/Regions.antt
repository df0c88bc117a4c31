-- ===== src/Examples/Regions.antt =====
-- The theorems about the sanitizing of a region at concrete inputs.
use local_first_llm_privacy.Common.{
  ℕ, ◌+◌, [], ◌∷◌, arith, true, false, List, length, is_some, ok, ◌≡◌, refl,
}
use local_first_llm_privacy.Common.Chars.{Text}
use local_first_llm_privacy.Common.Sorting.{sort, insert}
use local_first_llm_privacy.Sessions.{Session, pan, new_session, Shuffler, lookup_surrogate}
use local_first_llm_privacy.Sessions.Names.{IsConsistent}
use local_first_llm_privacy.Sessions.Allocation.{same, reachable-IsConsistent}
use local_first_llm_privacy.Cascade.{ResolvedSpan, span_text}
use local_first_llm_privacy.Sanitize.{
  Registry, SurrogateDomain, Pools, is_name_type, get_surrogate_domain, engine_encrypt,
  surrogate_for, sanitize_region, sanitize_loop, splice, last_first,
}
use local_first_llm_privacy.Sanitize.Replacement.{
  IsDescending, IsMinted, fresh_spans, replaced, sanitize_region-replaced,
}
use local_first_llm_privacy.Sanitize.Splice.{surrogate_for-known}

-- A generator that leaves the candidates in their order.
counting : Shuffler ℕ
counting = record { shuffle = λ rng candidates. (candidates, rng + 1) }

marker : ℕ → SurrogateDomain
marker c = record { encrypt = λ value key. ok (c ∷ value); decrypt = λ surrogate key. ok surrogate }

domains : Registry
domains = record {
  aadhaar_domain = marker 1;
  pan_domain = marker 2;
  card_domain = marker 3;
  ifsc_domain = marker 4;
  phone_domain = marker 5;
  vehicle_domain = marker 6;
}

pools : Pools
pools = record { names = (b'A' ∷ []) ∷ []; org_names = []; addresses = [] }

empty_session : Session
empty_session = new_session [] 5

empty_session-IsConsistent : IsConsistent empty_session
unfolding empty_session
empty_session-IsConsistent = reachable-IsConsistent counting [] 5 (new_session [] 5) same

minted : ResolvedSpan
minted = record {
  span = record { start = 0; end = 2; entity_type = pan; tier = 1 };
  is_ingress_surrogate = true;
}

surrogate_for-known_example :
    let session' = (surrogate_for counting pools domains [] empty_session 0 7 pan (b'x' ∷ [])).1 in
    (is_some (lookup_surrogate session' (2 ∷ b'x' ∷ [])) ≡ true) × IsConsistent session'
unfolding surrogate_for is_name_type engine_encrypt get_surrogate_domain domains marker
surrogate_for-known_example =
    surrogate_for-known counting pools domains [] empty_session 0 7 pan (b'x' ∷ []) (2 ∷ b'x' ∷ [])
      empty_session-IsConsistent refl

-- "xaby", with a value at the offsets 1 and 2.
abbrev line : Text
line = b'x' ∷ b'a' ∷ b'b' ∷ b'y' ∷ []

found : ResolvedSpan
found = record {
  span = record { start = 1; end = 3; entity_type = pan; tier = 1 };
  is_ingress_surrogate = false;
}

abbrev line_out : Text
line_out = b'x' ∷ 2 ∷ b'a' ∷ b'b' ∷ b'y' ∷ []

sanitize_region-replaced_example :
    (surrogates : List Text) × IsMinted counting pools domains [] line 7 empty_session 0
      (fresh_spans (last_first (found ∷ [])))
      surrogates
    × (line_out ≡ replaced line (length line) (fresh_spans (last_first (found ∷ []))) surrogates [])
unfolding found IsDescending fresh_spans last_first sort insert sanitize_region sanitize_loop splice
    span_text surrogate_for is_name_type engine_encrypt get_surrogate_domain domains marker
sanitize_region-replaced_example =
    sanitize_region-replaced counting pools domains [] (λ text session. ok (found ∷ [])) line 7
      (found ∷ []) empty_session 0 line_out refl (omega arith, omega arith, tt) refl
