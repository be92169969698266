-- ===== src/Tests/Compilers.antt =====
-- A document with one profile, validated and compiled (src/config/config_editing_service.cpp,
-- src/config/runtime_compiler.cpp).
use cc_switch_trans.Common.{
  ◌≡◌, ◌≢◌, refl, true, false, Option, none, some, List, [], ◌∷◌, codes, text_eq, find_key, put_key,
  pos,
}
use cc_switch_trans.Config.Document.{ProfileDefinition, ConfigDocument}
use cc_switch_trans.Config.Settings.{ApplicationSettings, default_settings}
use cc_switch_trans.Protocols.{
  ProtocolHandler, responses_descriptor, messages_descriptor, empty_registry,
  supports_specialized_rule, local_rules_error, find_handler, register_known, register_handler,
  is_known_specialized_rule, is_protocol, handler_validate_profile, unsupported_rule_of,
  validate_profile,
}
use cc_switch_trans.Protocols.Registry.{IsSound, register_all, register_handler-IsSound}
use cc_switch_trans.Config.RuntimeCompiler.{
  RuntimeCompiler, RuntimeSnapshot, ok, none_enabled, request_route, runtime_profile, compile,
  usage_route, add_request, add_usage, add_profile, compile_known, compile_profile,
  compile_selected, enabled_profiles, select, finish, compile_checked,
}
use cc_switch_trans.Config.RuntimeCompiler.Compiled.{IsCompiled, compile-IsCompiled}
use cc_switch_trans.Config.EditingService.{validate_config_candidate, runtime_compile_failed}
use cc_switch_trans.Config.EditingService.Validation.{validate_config_candidate-never_late}
use cc_switch_trans.Config.Document.Profiles.{
  is_valid_protocol_id, validate_route_path, validate_base_url, check_field, invalid_protocol_id,
  complete_profile, count_routes, wrapped, check_options, check_rules, validate_profile_definition,
  check_profiles, validate_config_document,
}
use cc_switch_trans.Config.Document.Options.{
  contains_control, and_count, check_elements, check_members, check_json, validate_rule_json,
}
use cc_switch_trans.Config.Document.Application.{
  out_of_range, not_positive, minimum_total_size, validate_application_settings,
}
use cc_switch_trans.Rules.Registry.{
  valid_descriptor_key, options_error, validate_descriptor, find, check_built, compile_definition,
  compile_definitions, compile_pipeline,
}
use cc_switch_trans.Rules.Factories.{
  unsupported_options, missing_options, validate_options, require_json_protocol, text_option,
  with_pointer, build_set_field, build_remove_field, checked_options, compile_set_field,
  compile_remove_field,
}
use cc_switch_trans.Core.Url.{
  to_lower, lower_copy, is_hex, hex_value, upper_hex, is_unreserved, decoded_round, escape_round,
  path_round, path_loop, has_double_slash, split_on, is_dot_segment, ends_with, pop_back,
  finish_path, canonicalize_http_path,
}
use cc_switch_trans.Core.UpstreamUrl.{
  find_byte, rfind_byte, is_prefix, find_text, digits_value, parse_port, strip_dots, finish_url,
  bracket_authority, plain_authority, parse_authority, parse_http_url,
}
use cc_switch_trans.Routing.{
  valid_method, text_lt, insert_sorted, sort, is_reserved, place, add_checked, add, lookup,
}
use cc_switch_trans.Rules.Pointer.{
  bounded_trace_target, decode_pointer_token, decode_tokens, parse_json_pointer, digits_loop,
  parse_array_index,
}
use cc_switch_trans.Config.Profile.{
  valid_stable_id, is_valid_profile_id, is_valid_rule_id, is_valid_rule_type,
  valid_rule_option_name, is_valid_rule_option_name,
}
use cc_switch_trans.Core.HeaderFilter.{is_space}
use cc_switch_trans.Rules.Factories.Kinds.{builtin}
use cc_switch_trans.Tests.Values.{Value, values}
use cc_switch_trans.Tests.Documents.{config_values, chat_handler, two_rules, compiled_rules}

abbrev handlers : List (Option ProtocolHandler)
handlers =
    some (record { address = 1; descriptor = responses_descriptor })
    ∷ none
    ∷ some chat_handler
    ∷ some (record { address = 3; descriptor = messages_descriptor })
    ∷ []

register_handler-IsSound_example : IsSound (register_all empty_registry handlers)
register_handler-IsSound_example = register_handler-IsSound handlers

abbrev profile : ProfileDefinition Value
profile = record {
  enabled = true;
  protocol = some (codes "chat");
  local = record { request_path = some (codes "/v1/chat"); usage_path = none };
  upstream = record {
    base_url = some (codes "https://a");
    request_path = some (codes "/b");
    usage_path = none;
  };
  rules = two_rules;
  storage_key = pos 1;
  storage_position = none;
}

abbrev document : ConfigDocument Value
document = record { application = default_settings; profiles = (codes "p", profile) ∷ [] }

abbrev compiler : RuntimeCompiler config_values Value
compiler = record {
  absolute_root = true;
  protocols = some (register_all empty_registry (some chat_handler ∷ []));
  rules = some (builtin config_values values (λ (j : Value). j));
  log_path_error = λ s. false;
  resolve_log_path = λ (s : ApplicationSettings). some s.logging.path;
}

validate_config_candidate-never_late_example :
    validate_config_candidate config_values Value compiler
      (register_all empty_registry handlers)
      (builtin config_values values (λ (j : Value). j))
      document
    ≢ some (runtime_compile_failed none_enabled)
validate_config_candidate-never_late_example =
    validate_config_candidate-never_late config_values Value (register_all empty_registry handlers)
      (builtin config_values values (λ (j : Value). j)) compiler document none_enabled
      register_handler-IsSound_example refl

abbrev snapshot : RuntimeSnapshot config_values Value
snapshot =
    let served = runtime_profile config_values Value (codes "p") chat_handler true compiled_rules in
    record {
      application = default_settings;
      log_path = default_settings.logging.path;
      protocols = record {
        handlers = (codes "chat", chat_handler) ∷ [];
        specialized_rule_types = codes "remove_tool" ∷ [];
      };
      rules = builtin config_values values (λ (j : Value). j);
      profiles = (codes "p", served) ∷ [];
      routes = record {
        routes_by_path =
            (
              codes "/v1/chat",
              record {
                by_method =
                    (
                      codes "POST",
                      request_route config_values Value served chat_handler (codes "/v1/chat")
                          (codes "https://a") (codes "/b"),
                    )
                    ∷ [];
                allowed_methods = codes "POST" ∷ [];
              },
            )
            ∷ [];
        size = 1;
      };
    }

document-compiled : compile config_values Value compiler document none ≡ ok snapshot
unfolding text_eq find_key put_key register_all is_valid_protocol_id validate_route_path
    validate_base_url check_field invalid_protocol_id complete_profile count_routes wrapped
    check_options check_rules validate_profile_definition check_profiles validate_config_document
    contains_control and_count check_elements check_members check_json validate_rule_json
    out_of_range not_positive minimum_total_size validate_application_settings request_route
    usage_route add_request add_usage runtime_profile add_profile compile_known compile_profile
    compile_selected enabled_profiles select finish compile_checked compile
    supports_specialized_rule local_rules_error find_handler register_known register_handler
    is_known_specialized_rule is_protocol handler_validate_profile unsupported_rule_of
    validate_profile valid_descriptor_key options_error validate_descriptor find check_built
    compile_definition compile_definitions compile_pipeline unsupported_options missing_options
    validate_options require_json_protocol text_option with_pointer build_set_field
    build_remove_field checked_options compile_set_field compile_remove_field to_lower lower_copy
    is_hex hex_value upper_hex is_unreserved decoded_round escape_round path_round path_loop
    has_double_slash split_on is_dot_segment ends_with pop_back finish_path canonicalize_http_path
    find_byte rfind_byte is_prefix find_text digits_value parse_port strip_dots finish_url
    bracket_authority plain_authority parse_authority parse_http_url valid_method text_lt
    insert_sorted sort is_reserved place add_checked add lookup bounded_trace_target
    decode_pointer_token decode_tokens parse_json_pointer digits_loop parse_array_index
    valid_stable_id is_valid_profile_id is_valid_rule_id is_valid_rule_type valid_rule_option_name
    is_valid_rule_option_name is_space
document-compiled = refl

compile-IsCompiled_example : IsCompiled config_values Value compiler document none snapshot
compile-IsCompiled_example =
    compile-IsCompiled config_values Value compiler document none snapshot document-compiled
