-- ===== src/Rules/Factories.antt =====
-- The factories of the three rules: `compile` of src/rules/generic_json_rules.cpp and of
-- src/rules/remove_tool_rule.cpp. A rule that they build runs as its `apply` does; allocations are
-- taken to succeed inside it. The set of the options that a rule requires is a list, whose order shows
-- only in which of two missing options an error names.
pub mod Descriptors
pub mod Kinds
use cc_switch_trans.Common.{
  Bool, true, false, not, ◌||◌, Option, none, some, List, [], ◌∷◌, Text, codes, text_eq, find_key,
  length, empty?, any, ltb, ◌==◌, if◌then◌else◌,
}
use cc_switch_trans.Config.Document.{ConfigJson, RuleDefinition}
use cc_switch_trans.Protocols.{ProtocolHandler, supports_specialized_rule, remove_tool_type}
use cc_switch_trans.Rules.Json.{JsonLibrary}
use cc_switch_trans.Rules.Pointer.{ParsedJsonPointer, pointer, rejected, parse_json_pointer}
use cc_switch_trans.Rules.Fields.{set_field_apply, remove_field_apply}
use cc_switch_trans.Rules.Tools.{
  ToolLayout, responses, chat, messages, contains_control, max_tool_name_bytes, remove_tool_apply,
}
use cc_switch_trans.Rules.Pipeline.{finished, CompiledRule}
use cc_switch_trans.Rules.Registry.{
  string, json_value, json_pointer, RuleDescriptor, FactoryError, not_json_protocol, not_supported,
  not_a_string, removes_root, bad_tool_name, no_layout, unsupported_option, missing_option,
  bad_pointer, FactoryResult, built, not_built, RuleFactory, FactoryRegistered, registered,
  rejected, register_factory,
}
use cc_switch_trans.Rules.Factories.Descriptors.{
  set_field_type, remove_field_type, set_field_descriptor, remove_field_descriptor,
  remove_tool_descriptor,
}

unfoldable pub unsupported_options :
    {Json : Type 0} → List Text → List (Text × Json) → Option FactoryError
unsupported_options required [] = none
unsupported_options required ((key, value) ∷ more) =
    let rest = unsupported_options required more in
    if any (text_eq key) required then rest else some (unsupported_option key)

unfoldable pub missing_options :
    {Json : Type 0} → List Text → List (Text × Json) → Option FactoryError
missing_options [] options = none
missing_options (key ∷ more) options =
    let rest = missing_options more options in
    elim (find_key key options) [ none ↦ some (missing_option key) | some value ↦ rest ]

unfoldable pub validate_options :
    {Json : Type 0} → List Text → List (Text × Json) → Option FactoryError
validate_options required options = elim (unsupported_options required options) [
  | some e ↦ some e
  | none ↦ missing_options required options
]

-- require_json_protocol
unfoldable pub require_json_protocol : ProtocolHandler → Option FactoryError
require_json_protocol protocol =
    if protocol.descriptor.request_body_is_json then none else some not_json_protocol

-- The layout that the id of a protocol stands for.
unfoldable pub layout_of : Text → Option ToolLayout
layout_of id =
    if text_eq id (codes "responses")
    then some responses
    else if text_eq id (codes "chat")
    then some chat
    else if text_eq id (codes "messages")
    then some messages
    else none

unfoldable pub bad_tool : Text → Bool
bad_tool name = empty? name || ltb max_tool_name_bytes (length name) || contains_control name

-- `to_body` is the library's conversion of a document's value to a request body's.
module _ (config : ConfigJson) (lib : JsonLibrary) (to_body : config.Json → lib.Json) where
  abbrev pub set_field_rule : Text → ParsedJsonPointer → config.Json → CompiledRule lib.Json
  set_field_rule id p value = record {
    id = id;
    type = set_field_type;
    apply = λ body. finished (set_field_apply lib p (to_body value) body);
  }

  abbrev pub remove_field_rule : Text → ParsedJsonPointer → CompiledRule lib.Json
  remove_field_rule id p = record {
    id = id;
    type = remove_field_type;
    apply = λ body. finished (remove_field_apply lib p body);
  }

  abbrev pub remove_tool_rule : Text → ToolLayout → Text → CompiledRule lib.Json
  remove_tool_rule id layout name = record {
    id = id;
    type = remove_tool_type;
    apply = λ body. finished (remove_tool_apply lib layout name body);
  }

  -- `options.at(key)`, which the check of the options found, as a text.
  unfoldable pub text_option : RuleDefinition config.Json → Text → Option Text
  text_option d key = elim (find_key key d.options) [
    | none ↦ none
    | some value ↦ config.text_of value
  ]

  -- What both rules on fields do with their option `path`.
  unfoldable pub with_pointer :
      RuleDefinition config.Json
      → (ParsedJsonPointer → FactoryResult lib.Json)
      → FactoryResult lib.Json
  with_pointer d f = elim (text_option d (codes "path")) [
    | none ↦ not_built not_a_string
    | some path ↦ elim (parse_json_pointer path) [
      | rejected e ↦ not_built (bad_pointer e)
      | pointer p ↦ f p
    ]
  ]

  unfoldable pub build_set_field :
      RuleDefinition config.Json → ParsedJsonPointer → FactoryResult lib.Json
  build_set_field d p = elim (find_key (codes "value") d.options) [
    | none ↦ not_built (missing_option (codes "value"))
    | some value ↦ built (some (set_field_rule d.id p value))
  ]

  unfoldable pub build_remove_field :
      RuleDefinition config.Json → ParsedJsonPointer → FactoryResult lib.Json
  build_remove_field d p =
      if empty? p.tokens then not_built removes_root else built (some (remove_field_rule d.id p))

  unfoldable pub checked_options :
      List Text
      → RuleDefinition config.Json
      → ProtocolHandler
      → FactoryResult lib.Json
      → FactoryResult lib.Json
  checked_options required d protocol result = elim (require_json_protocol protocol) [
    | some e ↦ not_built e
    | none ↦ elim (validate_options required d.options) [ some e ↦ not_built e | none ↦ result ]
  ]

  unfoldable pub compile_set_field :
      RuleDefinition config.Json → ProtocolHandler → FactoryResult lib.Json
  compile_set_field d protocol =
      checked_options (codes "path" ∷ codes "value" ∷ []) d protocol
        (with_pointer d (build_set_field d))

  unfoldable pub compile_remove_field :
      RuleDefinition config.Json → ProtocolHandler → FactoryResult lib.Json
  compile_remove_field d protocol =
      checked_options (codes "path" ∷ []) d protocol (with_pointer d (build_remove_field d))

  unfoldable pub build_remove_tool :
      RuleDefinition config.Json → ProtocolHandler → Text → FactoryResult lib.Json
  build_remove_tool d protocol name =
      if bad_tool name then not_built bad_tool_name else elim (layout_of protocol.descriptor.id) [
        | none ↦ not_built no_layout
        | some layout ↦ built (some (remove_tool_rule d.id layout name))
      ]

  -- With a wrong number of options the first one that is not `tool` is named, if there is one.
  unfoldable pub tool_options_error : List (Text × config.Json) → Option FactoryError
  tool_options_error options = elim (find_key (codes "tool") options) [
    | some value ↦
        if length options == 1
        then none
        else elim (unsupported_options (codes "tool" ∷ []) options) [
          | some e ↦ some e
          | none ↦ some (missing_option (codes "tool"))
        ]
    | none ↦ elim (unsupported_options (codes "tool" ∷ []) options) [
      | some e ↦ some e
      | none ↦ some (missing_option (codes "tool"))
    ]
  ]

  unfoldable pub compile_remove_tool :
      RuleDefinition config.Json → ProtocolHandler → FactoryResult lib.Json
  compile_remove_tool d protocol =
      if not protocol.descriptor.request_body_is_json
      then not_built not_json_protocol
      else if not (supports_specialized_rule protocol remove_tool_type)
      then not_built not_supported
      else elim (tool_options_error d.options) [
        | some e ↦ not_built e
        | none ↦ elim (text_option d (codes "tool")) [
          | none ↦ not_built not_a_string
          | some name ↦ build_remove_tool d protocol name
        ]
      ]

  abbrev pub set_field_factory : RuleFactory config.Json lib.Json
  set_field_factory = record {
    type = set_field_type;
    descriptor = set_field_descriptor;
    compile = compile_set_field;
  }

  abbrev pub remove_field_factory : RuleFactory config.Json lib.Json
  remove_field_factory = record {
    type = remove_field_type;
    descriptor = remove_field_descriptor;
    compile = compile_remove_field;
  }

  abbrev pub remove_tool_factory : RuleFactory config.Json lib.Json
  remove_tool_factory = record {
    type = remove_tool_type;
    descriptor = remove_tool_descriptor;
    compile = compile_remove_tool;
  }

  abbrev pub then_register :
      FactoryRegistered config.Json lib.Json
      → RuleFactory config.Json lib.Json
      → FactoryRegistered config.Json lib.Json
  then_register (registered r) factory = register_factory r (some factory)
  then_register (rejected e) factory = rejected e

  -- `builtin_rule_registry`; a refusal is its exception.
  unfoldable pub builtin_rule_registry : FactoryRegistered config.Json lib.Json
  builtin_rule_registry =
      then_register
        (then_register (register_factory (record { factories = [] }) (some set_field_factory))
          remove_field_factory)
        remove_tool_factory
