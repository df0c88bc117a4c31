-- ===== src/Examples/Placement.antt =====
-- The theorem about the spans of the cascade at a concrete model.
use local_first_llm_privacy.Common.{
  List, [], ◌∷◌, length, Result, ok, pos, ◌≡◌, refl, true, false, all, text_eq,
}
use local_first_llm_privacy.Common.Chars.{Text}
use local_first_llm_privacy.Sessions.{pan, person, org, new_session}
use local_first_llm_privacy.Cascade.{ResolvedSpan, closed_mode, detect}
use local_first_llm_privacy.Sanitize.{last_first}
use local_first_llm_privacy.Sanitize.Replacement.{IsDescending, fresh_spans}
use local_first_llm_privacy.Sanitize.Placement.{lies_in}
use local_first_llm_privacy.Tier2.{
  ModelEntityMatch, same_type, is_within, kept_spans, tier2_detect, get_tier2_detectors,
}
use local_first_llm_privacy.Tier2.Offsets.{detect-IsDescending}
use local_first_llm_privacy.Precedence.{new_span}
use local_first_llm_privacy.Examples.Fields.{hi_text}
use local_first_llm_privacy.Examples.Opened.{request_path}
use local_first_llm_privacy.Examples.Requests.{find_hi}

-- A model that finds a name and a longer company in "hi", where tier 1 finds a number.
model : Text → Result (List ModelEntityMatch)
model text = ok (
    record { start = pos 0; end = pos 1; entity_type = person }
    ∷ record { start = pos 0; end = pos 2; entity_type = org }
    ∷ [])

both : List ResolvedSpan
both =
    record {
      span = record { start = 0; end = 2; entity_type = pan; tier = 1 };
      is_ingress_surrogate = false;
    }
    ∷ []

both-found :
    detect (find_hi ∷ []) (get_tier2_detectors model) hi_text (new_session [] 5) closed_mode
    ≡ ok both
unfolding request_path find_hi model both get_tier2_detectors tier2_detect kept_spans is_within
    same_type new_span
both-found = refl

detect-IsDescending_example :
    IsDescending (length hi_text) (fresh_spans (last_first both))
    × (all (lies_in (length hi_text)) (fresh_spans (last_first both)) ≡ true)
unfolding find_hi text_eq
detect-IsDescending_example =
    detect-IsDescending model hi_text (find_hi ∷ []) (new_session [] 5) closed_mode both refl
      both-found
