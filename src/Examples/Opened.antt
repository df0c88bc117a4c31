-- ===== src/Examples/Opened.antt =====
-- One name under which the tests see through the functions that they run.
use local_first_llm_privacy.Common.Chars.{
  is_digit, is_digit_char, decimal_value, int_of_char, is_decimal, is_decimal_char, str,
}
use local_first_llm_privacy.Checksum.{
  d_at, p_at, inv_at, verhoeff_is_valid, verhoeff_generate_check_digit, luhn_weight, luhn_is_valid,
  luhn_generate_check_digit,
}
use local_first_llm_privacy.Common.{caught, text_eq, get, has, put}
use local_first_llm_privacy.Common.Sorting.{insert, sort}
use local_first_llm_privacy.Sessions.{
  new_session, record_surrogate, lookup_surrogate, known_surrogate_snapshot, lookup_real_name,
}
use local_first_llm_privacy.Precedence.{accept, indexed, priority_le, resolve, spans_overlap}
use local_first_llm_privacy.Cascade.{detect, detect_all, guarded, mark, resolve_failure, span_text}
use local_first_llm_privacy.Sanitize.{
  engine_encrypt, engine_decrypt, get_candidates, get_surrogate_domain, is_name_type, last_first,
  sanitize_loop, sanitize_region, splice, surrogate_for,
}
use local_first_llm_privacy.Rehydrate.{
  rehydrate, after_match, begins_with, match_at, pattern_for, real_value, resolve_real_value, sub,
}
use local_first_llm_privacy.FieldWalker.{
  segment_eq, path_eq, ends_in_arguments, substitution, is_beneath, has_substitution_beneath,
  as_container, try_parse_json_container, unwrapped, walk_text, walk_value, walk_nested, walk,
  rebuild_text, rebuild_value, rebuild_nested, rebuild,
}
use local_first_llm_privacy.ProtocolFields.{
  protocol_enum_fields, segment_matches, all_match, matches, is_protocol_enum_value,
}
use local_first_llm_privacy.Bodies.{
  put_substitution, sanitize_regions, region_step, sanitize, rehydrate_regions, rehydrate_body,
}

unfoldable pub checksums : Unit {0}
unfolding is_digit is_digit_char decimal_value int_of_char is_decimal is_decimal_char str d_at p_at
    inv_at verhoeff_is_valid verhoeff_generate_check_digit luhn_weight luhn_is_valid
    luhn_generate_check_digit
checksums = tt

unfoldable pub field_walk : Unit {0}
unfolding caught walk walk_nested walk_value walk_text unwrapped try_parse_json_container
    as_container ends_in_arguments segment_eq path_eq text_eq
field_walk = tt

unfoldable pub field_rebuild : Unit {0}
unfolding field_walk rebuild rebuild_nested rebuild_value rebuild_text substitution
    has_substitution_beneath is_beneath
field_rebuild = tt

unfoldable pub request_path : Unit {0}
unfolding field_rebuild sanitize sanitize_regions is_protocol_enum_value protocol_enum_fields
    matches all_match segment_matches region_step put_substitution detect detect_all guarded mark
    resolve_failure span_text get has put insert sort accept indexed priority_le resolve
    spans_overlap engine_encrypt get_candidates get_surrogate_domain is_name_type last_first
    sanitize_loop sanitize_region splice surrogate_for lookup_surrogate new_session record_surrogate
request_path = tt

unfoldable pub response_path : Unit {0}
unfolding request_path rehydrate_body rehydrate_regions rehydrate known_surrogate_snapshot
    after_match begins_with match_at pattern_for real_value resolve_real_value sub engine_decrypt
    lookup_real_name
response_path = tt
