-- ===== src/Rules/Registry.antt =====
-- The registry of rule factories and the compilation of a profile's rules, src/rules/rule_registry.cpp.
-- Compiled rules and factories are records; `Config` is the type of the JSON values in a document,
-- `Body` that of a request body. A null pointer is `none`.
pub mod Compile
use cc_switch_trans.Common.{
  ℕ, suc, ◌+◌, Bool, true, false, not, ◌&&◌, ◌||◌, Option, none, some, List, [], ◌∷◌, map, Text,
  text_eq, find_key, length, empty?, any, all, ltb, leb, ◌==◌, if◌then◌else◌,
}
use cc_switch_trans.Routing.{sort, text_lt}
use cc_switch_trans.Config.Profile.{is_valid_rule_id, is_valid_rule_type}
use cc_switch_trans.Config.Editor.{max_rules_per_profile}
use cc_switch_trans.Config.Document.{RuleDefinition}
use cc_switch_trans.Protocols.{ProtocolHandler}
use cc_switch_trans.Rules.Pointer.{PointerError}
use cc_switch_trans.Rules.Pipeline.{CompiledRule}

pub data RuleOptionValueType : Type 0 where
  string json_value json_pointer : RuleOptionValueType

pub record RuleOptionDescriptor : Type 0 where
  pub name : Text
  pub display_name_key : Text
  pub value_type : RuleOptionValueType
  pub required : Bool
  pub order : ℕ

pub record RuleDescriptor : Type 0 where
  pub type : Text
  pub display_name_key : Text
  pub protocol_specialized : Bool
  pub options : List RuleOptionDescriptor

-- The texts of `error` that the factories of the program set.
pub data FactoryError : Type 0 where
  not_json_protocol not_supported not_a_string removes_root bad_tool_name no_layout : FactoryError
  unsupported_option missing_option : Text → FactoryError
  bad_pointer : PointerError → FactoryError

-- What `compile` of a factory leaves.
pub data FactoryResult (Body : Type 0) : Type 0 where
  built : Option (CompiledRule Body) → FactoryResult Body
  not_built : FactoryError → FactoryResult Body

pub record RuleFactory (Config Body : Type 0) : Type 0 where
  pub type : Text
  pub descriptor : RuleDescriptor
  pub compile : RuleDefinition Config → ProtocolHandler → FactoryResult Body

abbrev key_byte : ℕ → Bool
key_byte ch =
    (leb b'a' ch && leb ch b'z')
    || (leb b'0' ch && leb ch b'9')
    || (ch == b'_')
    || (ch == b'-')
    || (ch == b'.')

-- `islower` and `isdigit` as in the "C" locale.
unfoldable pub valid_descriptor_key : Text → ℕ → Bool
valid_descriptor_key value maximum =
    if empty? value || ltb maximum (length value) then false else all key_byte value

pub data RegistryError : Type 0 where
  null_factory invalid_type type_mismatch invalid_display_name invalid_option_name : RegistryError
  invalid_option_display order_not_contiguous duplicate_option already_registered : RegistryError

-- The loop over the options, from `index` on, with the names before. The check of the value's type
-- accepts each of the three enumerators.
unfoldable pub options_error : ℕ → List Text → List RuleOptionDescriptor → Option RegistryError
options_error index option_names [] = none
options_error index option_names (option ∷ more) =
    let rest = options_error (suc index) (option.name ∷ option_names) more in
    if not (valid_descriptor_key option.name 64)
    then some invalid_option_name
    else if not (valid_descriptor_key option.display_name_key 128)
    then some invalid_option_display
    else if not (option.order == index)
    then some order_not_contiguous
    else if any (text_eq option.name) option_names
    then some duplicate_option
    else rest

unfoldable pub validate_descriptor : RuleDescriptor → Text → Option RegistryError
validate_descriptor d factory_type =
    if not (text_eq d.type factory_type)
    then some type_mismatch
    else if not (valid_descriptor_key d.display_name_key 128)
    then some invalid_display_name
    else options_error 0 [] d.options

pub data PipelineError : Type 0 where
  no_protocol too_many_rules : PipelineError
  invalid_rule_id invalid_rule_type duplicate_rule_id invalid_compiled : Text → PipelineError
  unknown_rule_type : Text → Text → PipelineError
  factory_failed : Text → Text → FactoryError → PipelineError

pub data PipelineResult (Body : Type 0) : Type 0 where
  compiled : List (CompiledRule Body) → PipelineResult Body
  refused : PipelineError → PipelineResult Body

-- A rule before those that the rest of the loop adds.
abbrev pub put_rule :
    {Body : Type 0} → CompiledRule Body → PipelineResult Body → PipelineResult Body
put_rule rule (compiled rules) = compiled (rule ∷ rules)
put_rule rule (refused e) = refused e

module _ (Config Body : Type 0) where
  pub record RuleRegistry : Type 0 where
    pub factories : List (Text × RuleFactory Config Body)

  pub data FactoryRegistered : Type 0 where
    registered : RuleRegistry → FactoryRegistered
    rejected : RegistryError → FactoryRegistered

module _ {Config Body : Type 0} where
  unfoldable pub find : RuleRegistry Config Body → Text → Option (RuleFactory Config Body)
  find r rule_type = find_key rule_type r.factories

  unfoldable pub register_known :
      RuleRegistry Config Body → RuleFactory Config Body → FactoryRegistered Config Body
  register_known r factory =
      if not (is_valid_rule_type factory.type)
      then rejected invalid_type
      else elim (validate_descriptor factory.descriptor factory.type) [
        | some e ↦ rejected e
        | none ↦ elim (find r factory.type) [
          | some other ↦ rejected already_registered
          | none ↦ registered (record { factories = (factory.type, factory) ∷ r.factories })
        ]
      ]

  unfoldable pub register_factory :
      RuleRegistry Config Body → Option (RuleFactory Config Body) → FactoryRegistered Config Body
  register_factory r none = rejected null_factory
  register_factory r (some factory) = register_known r factory

  unfoldable pub find_descriptor : RuleRegistry Config Body → Text → Option RuleDescriptor
  find_descriptor r rule_type = elim (find r rule_type) [
    | none ↦ none
    | some factory ↦ some factory.descriptor
  ]

  unfoldable pub rule_types : RuleRegistry Config Body → List Text
  rule_types r = sort (map (λ (e : Text × RuleFactory Config Body). e.0) r.factories)

  -- The check of what a factory returned.
  unfoldable pub check_built :
      RuleDefinition Config → FactoryResult Body → PipelineResult Body → PipelineResult Body
  check_built d (not_built e) rest = refused (factory_failed d.id d.type e)
  check_built d (built none) rest = refused (invalid_compiled d.id)
  check_built d (built (some rule)) rest =
      if not (text_eq rule.id d.id) || not (text_eq rule.type d.type)
      then refused (invalid_compiled d.id)
      else put_rule rule rest

  -- The rest of a round of the loop, once the ids and types were checked; `rest` is what the rounds
  -- behind it come to.
  unfoldable pub compile_definition :
      RuleRegistry Config Body
      → ProtocolHandler
      → RuleDefinition Config
      → PipelineResult Body
      → PipelineResult Body
  compile_definition r protocol d rest = if not d.enabled then rest else elim (find r d.type) [
    | none ↦ refused (unknown_rule_type d.id d.type)
    | some factory ↦ check_built d (factory.compile d protocol) rest
  ]

  -- The loop over the definitions; `ids` are those before.
  unfoldable pub compile_definitions :
      RuleRegistry Config Body
      → ProtocolHandler
      → List Text
      → List (RuleDefinition Config)
      → PipelineResult Body
  compile_definitions r protocol ids [] = compiled []
  compile_definitions r protocol ids (d ∷ more) =
      let rest = compile_definitions r protocol (d.id ∷ ids) more in
      if not (is_valid_rule_id d.id)
      then refused (invalid_rule_id d.id)
      else if not (is_valid_rule_type d.type)
      then refused (invalid_rule_type d.id)
      else if any (text_eq d.id) ids
      then refused (duplicate_rule_id d.id)
      else compile_definition r protocol d rest

  unfoldable pub compile_pipeline :
      RuleRegistry Config Body
      → List (RuleDefinition Config)
      → Option ProtocolHandler
      → PipelineResult Body
  compile_pipeline r definitions none = refused no_protocol
  compile_pipeline r definitions (some protocol) =
      let result = compile_definitions r protocol [] definitions in
      if ltb max_rules_per_profile (length definitions) then refused too_many_rules else result
