-- ===== src/Tests/Documents.antt =====
-- A document with one profile, over the JSON values of Values.antt, and what its rules compile to.
use cc_switch_trans.Common.{
  ◌≡◌, ◌↔◌, refl, true, false, Option, none, some, List, [], ◌∷◌, Text, codes, text_eq, find_key,
  pos,
}
use cc_switch_trans.Config.Document.{ConfigJson, RuleDefinition}
use cc_switch_trans.Config.Profile.{is_valid_rule_id, is_valid_rule_type, valid_stable_id}
use cc_switch_trans.Protocols.{ProtocolHandler, chat_descriptor}
use cc_switch_trans.Rules.Pipeline.{CompiledRule}
use cc_switch_trans.Rules.Registry.{
  compiled, find, compile_pipeline, compile_definitions, compile_definition, check_built,
}
use cc_switch_trans.Rules.Registry.Compile.{IsWellFormed, Builds, compile_pipeline_iff}
use cc_switch_trans.Rules.Factories.{
  remove_field_rule, compile_remove_field, checked_options, validate_options, unsupported_options,
  missing_options, require_json_protocol, text_option, with_pointer, build_remove_field,
}
use cc_switch_trans.Rules.Factories.Kinds.{
  builtin, builtin_registered, EachKind, compile_pipeline-EachKind,
}
use cc_switch_trans.Rules.Pointer.{
  parse_json_pointer, decode_tokens, decode_pointer_token, bounded_trace_target,
}
use cc_switch_trans.Core.Url.{split_on}
use cc_switch_trans.Tests.Values.{
  Value, Fields, end, field, text, object, elements, text_of, values,
}

abbrev fields_of : Fields → List (Text × Value)
fields_of end = []
fields_of (field k v fs) = (k, v) ∷ fields_of fs

abbrev members : Value → Option (List (Text × Value))
members (object fs) = some (fields_of fs)
members _ = none

abbrev pub config_values : ConfigJson
config_values = record {
  Json = Value;
  is_binary = λ j. false;
  is_discarded = λ j. false;
  is_infinite = λ j. false;
  elements = elements;
  members = members;
  text_of = text_of;
}

abbrev pub chat_handler : ProtocolHandler
chat_handler = record { address = 2; descriptor = chat_descriptor }

abbrev drop_model : RuleDefinition Value
drop_model = record {
  id = codes "r1";
  enabled = true;
  type = codes "remove_field";
  options = (codes "path", text (codes "/model")) ∷ [];
  storage_key = pos 1;
}

abbrev idle_rule : RuleDefinition Value
idle_rule = record drop_model { id = codes "r2"; enabled = false }

abbrev pub compiled_rules : List (CompiledRule Value)
compiled_rules =
    remove_field_rule config_values values (λ (j : Value). j) (codes "r1")
      (record { trace_target = codes "/model"; tokens = codes "model" ∷ [] })
    ∷ []

abbrev pub two_rules : List (RuleDefinition Value)
two_rules = drop_model ∷ idle_rule ∷ []

compile_pipeline_iff_example :
    (compile_pipeline
        (builtin config_values values (λ (j : Value). j))
        two_rules
        (some chat_handler)
      ≡ compiled compiled_rules)
    ↔ (IsWellFormed (builtin config_values values (λ (j : Value). j)) chat_handler two_rules
        × Builds
            (builtin config_values values (λ (j : Value). j))
            chat_handler
            two_rules
            compiled_rules)
compile_pipeline_iff_example =
    compile_pipeline_iff (builtin config_values values (λ (j : Value). j)) chat_handler two_rules
      compiled_rules

two_rules-compiled :
    compile_pipeline (builtin config_values values (λ (j : Value). j)) two_rules (some chat_handler)
    ≡ compiled compiled_rules
unfolding compile_pipeline compile_definitions compile_definition check_built find find_key text_eq
    is_valid_rule_id is_valid_rule_type valid_stable_id compile_remove_field checked_options
    validate_options unsupported_options missing_options require_json_protocol text_option
    with_pointer build_remove_field parse_json_pointer decode_tokens decode_pointer_token
    bounded_trace_target split_on
two_rules-compiled = refl

compile_pipeline-EachKind_example :
    EachKind config_values values (λ (j : Value). j) chat_handler two_rules compiled_rules
compile_pipeline-EachKind_example =
    compile_pipeline-EachKind config_values values (λ (j : Value). j) chat_handler
      (builtin config_values values (λ (j : Value). j)) two_rules compiled_rules
      (builtin_registered config_values values (λ (j : Value). j)) two_rules-compiled
