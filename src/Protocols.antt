-- ===== src/Protocols.antt =====
-- The protocols of src/protocols: descriptors, handlers and their registry. A handler is its
-- descriptor with an address, by which `shared_ptr`s are compared. `local_error`, which builds the JSON
-- text of an error response, is left out.
pub mod Registry
use cc_switch_trans.Common.{
  ℕ, Bool, true, false, not, ◌&&◌, ◌||◌, Option, none, some, List, [], ◌∷◌, ◌++◌, map, Text, codes,
  text_eq, find_key, any, ◌==◌, if◌then◌else◌,
}
use cc_switch_trans.Routing.{valid_method, sort}
use cc_switch_trans.Config.Profile.{is_valid_rule_type}
use cc_switch_trans.Config.Document.{ConfigJson, RuleDefinition, ProfileDefinition, Failure}
use cc_switch_trans.Config.Document.Profiles.{
  ProfileError, is_valid_protocol_id, is_some, validate_profile_definition,
}

pub data ProtocolErrorEnvelope : Type 0 where
  openai anthropic : ProtocolErrorEnvelope

pub record ProtocolDescriptor : Type 0 where
  pub id : Text
  pub request_method : Text
  pub usage_method : Text
  pub supports_usage : Bool
  pub supports_sse : Bool
  pub request_body_is_json : Bool
  pub error_envelope : ProtocolErrorEnvelope
  pub specialized_rule_types : List Text

pub record ProtocolHandler : Type 0 where
  pub address : ℕ
  pub descriptor : ProtocolDescriptor

abbrev pub remove_tool_type : Text
remove_tool_type = codes "remove_tool"

-- The three handlers, ResponsesHandler, ChatHandler and MessagesHandler.
abbrev pub responses_descriptor : ProtocolDescriptor
responses_descriptor = record {
  id = codes "responses";
  request_method = codes "POST";
  usage_method = codes "GET";
  supports_usage = true;
  supports_sse = true;
  request_body_is_json = true;
  error_envelope = openai;
  specialized_rule_types = remove_tool_type ∷ [];
}

abbrev pub chat_descriptor : ProtocolDescriptor
chat_descriptor = record {
  id = codes "chat";
  request_method = codes "POST";
  usage_method = codes "GET";
  supports_usage = true;
  supports_sse = true;
  request_body_is_json = true;
  error_envelope = openai;
  specialized_rule_types = remove_tool_type ∷ [];
}

abbrev pub messages_descriptor : ProtocolDescriptor
messages_descriptor = record {
  id = codes "messages";
  request_method = codes "POST";
  usage_method = codes "GET";
  supports_usage = true;
  supports_sse = true;
  request_body_is_json = true;
  error_envelope = anthropic;
  specialized_rule_types = remove_tool_type ∷ [];
}

unfoldable pub supports_specialized_rule : ProtocolHandler → Text → Bool
supports_specialized_rule h rule_type = any (text_eq rule_type) h.descriptor.specialized_rule_types

pub record ProtocolRegistry : Type 0 where
  pub handlers : List (Text × ProtocolHandler)
  pub specialized_rule_types : List Text

abbrev pub empty_registry : ProtocolRegistry
empty_registry = record { handlers = []; specialized_rule_types = [] }

pub data RegisterError : Type 0 where
  null_handler invalid_protocol_id invalid_request_method invalid_usage_method : RegisterError
  invalid_rule_type duplicate_rule_type already_registered : Text → RegisterError

-- The loop over the rule types that a handler declares; `local_rules` are those before.
unfoldable pub local_rules_error : List Text → List Text → Option RegisterError
local_rules_error local_rules [] = none
local_rules_error local_rules (rule_type ∷ more) =
    let rest = local_rules_error (rule_type ∷ local_rules) more in
    if not (is_valid_rule_type rule_type)
    then some (invalid_rule_type rule_type)
    else if any (text_eq rule_type) local_rules
    then some (duplicate_rule_type rule_type)
    else rest

pub data Registered : Type 0 where
  registered : ProtocolRegistry → Registered
  refused : RegisterError → Registered

unfoldable pub find_handler : ProtocolRegistry → Text → Option ProtocolHandler
find_handler r id = find_key id r.handlers

unfoldable pub register_known : ProtocolRegistry → ProtocolHandler → Registered
register_known r h =
    let d = h.descriptor in
    if not (is_valid_protocol_id d.id)
    then refused invalid_protocol_id
    else if not (valid_method d.request_method)
    then refused invalid_request_method
    else if d.supports_usage && not (valid_method d.usage_method)
    then refused invalid_usage_method
    else elim (local_rules_error [] d.specialized_rule_types) [
      | some e ↦ refused e
      | none ↦ elim (find_handler r d.id) [
        | some other ↦ refused (already_registered d.id)
        | none ↦ registered (record {
          handlers = (d.id, h) ∷ r.handlers;
          specialized_rule_types = d.specialized_rule_types ++ r.specialized_rule_types;
        })
      ]
    ]

unfoldable pub register_handler : ProtocolRegistry → Option ProtocolHandler → Registered
register_handler r none = refused null_handler
register_handler r (some h) = register_known r h

unfoldable pub is_known_specialized_rule : ProtocolRegistry → Text → Bool
is_known_specialized_rule r rule_type = any (text_eq rule_type) r.specialized_rule_types

unfoldable pub protocol_ids : ProtocolRegistry → List Text
protocol_ids r = sort (map (λ (e : Text × ProtocolHandler). e.0) r.handlers)

abbrev pub then_register : Registered → ProtocolHandler → Registered
then_register (registered r) h = register_handler r (some h)
then_register (refused e) h = refused e

-- `builtin_protocol_registry`, with the addresses of the three handlers; a refusal is its exception.
unfoldable pub builtin_protocol_registry : ℕ → ℕ → ℕ → Registered
builtin_protocol_registry a b c =
    then_register
      (then_register
        (register_handler empty_registry
          (some (record { address = a; descriptor = responses_descriptor })))
        (record { address = b; descriptor = chat_descriptor }))
      (record { address = c; descriptor = messages_descriptor })

-- The texts of `error` of the two `validate_profile`.
pub data ProfileIssue : Type 0 where
  not_valid : Failure ProfileError → ProfileIssue
  protocol_mismatch usage_unsupported no_handler unregistered : ProfileIssue
  unsupported_rule : Text → ProfileIssue

-- profile.protocol && profile.protocol->value == id
unfoldable pub is_protocol : Text → Option Text → Bool
is_protocol id none = false
is_protocol id (some protocol) = text_eq protocol id

-- The same handler, not one that is equal.
abbrev same_handler : Option ProtocolHandler → ProtocolHandler → Bool
same_handler none h = false
same_handler (some found) h = found.address == h.address

module _ (lib : ConfigJson) where
  -- ProtocolHandler::validate_profile
  unfoldable pub handler_validate_profile :
      ProtocolHandler → Text → ProfileDefinition lib.Json → Option ProfileIssue
  handler_validate_profile h profile_id p =
      elim (validate_profile_definition lib profile_id p true) [
        | some e ↦ some (not_valid e)
        | none ↦
            if not (is_protocol h.descriptor.id p.protocol)
            then some protocol_mismatch
            else if is_some p.local.usage_path && not h.descriptor.supports_usage
            then some usage_unsupported
            else none
      ]

  unfoldable pub unsupported_rule_of :
      ProtocolRegistry → ProtocolHandler → List (RuleDefinition lib.Json) → Option ProfileIssue
  unsupported_rule_of r h [] = none
  unsupported_rule_of r h (rule ∷ more) =
      let rest = unsupported_rule_of r h more in
      if not rule.enabled || not (is_known_specialized_rule r rule.type)
      then rest
      else if not (supports_specialized_rule h rule.type)
      then some (unsupported_rule rule.id)
      else rest

  -- ProtocolRegistry::validate_profile
  unfoldable pub validate_profile :
      ProtocolRegistry
      → Option ProtocolHandler
      → Text
      → ProfileDefinition lib.Json
      → Option ProfileIssue
  validate_profile r none profile_id p = some no_handler
  validate_profile r (some h) profile_id p =
      if not (same_handler (find_handler r h.descriptor.id) h)
      then some unregistered
      else elim (handler_validate_profile h profile_id p) [
        | some e ↦ some e
        | none ↦ unsupported_rule_of r h p.rules
      ]
