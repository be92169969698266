-- ===== src/Config/EditingService.antt =====
-- `validate_config_candidate` and `ConfigEditingService` of src/config/config_editing_service.cpp.
-- The two built-in registries and the compiler that they are given to are an argument; the repository
-- is what its `document` and `save` come to.
pub mod Agreement
pub mod Compiles
pub mod Loop
pub mod Failures
pub mod Validation
use cc_switch_trans.Common.{
  ℕ, Bool, true, false, not, ◌&&◌, ◌||◌, Option, none, some, List, [], ◌∷◌, ◌++◌, String, Text,
  find_key, any, if◌then◌else◌,
}
use cc_switch_trans.Core.Url.{PathError, canonical, rejected, canonicalize_http_path}
use cc_switch_trans.Config.Document.{ConfigJson, RuleDefinition, ProfileDefinition, ConfigDocument}
use cc_switch_trans.Config.Document.Profiles.{DocumentError, validate_config_document}
use cc_switch_trans.Protocols.{
  ProtocolHandler, ProtocolRegistry, ProfileIssue, find_handler, validate_profile,
}
use cc_switch_trans.Rules.Registry.{
  RuleRegistry, PipelineError, compiled, refused, compile_pipeline,
}
use cc_switch_trans.Config.RuntimeCompiler.{CompileError, RuntimeCompiler, ok, failed, compile}

-- ConfigValidationFailure, by its code: what `detail` is about, the profile and the field. An empty
-- `std::optional` that is read is undefined behaviour, `empty_optional`.
pub data ConfigValidationFailure : Type 0 where
  invalid_document : DocumentError → ConfigValidationFailure
  protocol_missing : Text → ConfigValidationFailure
  unknown_protocol : Text → Text → ConfigValidationFailure
  invalid_profile : Text → ProfileIssue → ConfigValidationFailure
  invalid_rules : Text → PipelineError → ConfigValidationFailure
  invalid_route : Text → String → PathError → ConfigValidationFailure
  route_collision : Text → String → Text → ConfigValidationFailure
  invalid_log_path empty_optional : ConfigValidationFailure
  runtime_compile_failed : CompileError → ConfigValidationFailure

pub record CandidateRoute : Type 0 where
  pub profile_id : Text
  pub field : String

-- method, a zero byte, canonical path
unfoldable pub route_key : Text → Text → Text
route_key method path = method ++ 0 ∷ path

abbrev pub Routes : Type 0
Routes = List (Text × CandidateRoute)

-- The routes that a step leaves, or `failure`.
pub data Checked : Type 0 where
  passed : Routes → Checked
  stopped : ConfigValidationFailure → Checked

abbrev pub and_then : Checked → (Routes → Checked) → Checked
and_then (passed r) f = f r
and_then (stopped e) f = stopped e

unfoldable pub add_candidate_route : Routes → Text → Text → Text → String → Checked
add_candidate_route routes method path profile_id field = elim (canonicalize_http_path path) [
  | rejected e ↦ stopped (invalid_route profile_id field e)
  | canonical c ↦ elim (find_key (route_key method c) routes) [
    | some existing ↦ stopped (route_collision profile_id field existing.profile_id)
    | none ↦
        passed ((route_key method c, record { profile_id = profile_id; field = field }) ∷ routes)
  ]
]

-- What follows in the loop for a profile that is enabled.
unfoldable pub add_routes :
    {Json : Type 0} → Routes → Text → ProfileDefinition Json → ProtocolHandler → Checked
add_routes routes id p h = elim p.local.request_path [
  | none ↦ stopped empty_optional
  | some path ↦
      and_then (add_candidate_route routes h.descriptor.request_method path id "local.request-path")
        (λ routes'. elim p.local.usage_path [
          | none ↦ passed routes'
          | some usage_path ↦
              add_candidate_route routes' h.descriptor.usage_method usage_path id "local.usage-path"
        ])
]

abbrev pub has_enabled_rules : {Json : Type 0} → ProfileDefinition Json → Bool
has_enabled_rules {Json} p = any (λ (rule : RuleDefinition Json). rule.enabled) p.rules

module _ (config : ConfigJson) (Body : Type 0) where
  -- protocols->validate_profile, which is called for an enabled profile only.
  unfoldable pub profile_issue :
      ProtocolRegistry
      → ProtocolHandler
      → Text
      → ProfileDefinition config.Json
      → Option ProfileIssue
  profile_issue protocols h id p =
      let issue = validate_profile config protocols (some h) id p in
      if p.enabled then issue else none

  unfoldable pub check_known :
      ProtocolRegistry
      → RuleRegistry config.Json Body
      → Routes
      → Text
      → ProfileDefinition config.Json
      → ProtocolHandler
      → Checked
  check_known protocols rules routes id p h = elim (profile_issue protocols h id p) [
    | some e ↦ stopped (invalid_profile id e)
    | none ↦ elim (compile_pipeline rules p.rules (some h)) [
      | refused e ↦ stopped (invalid_rules id e)
      | compiled pipeline ↦ if p.enabled then add_routes routes id p h else passed routes
    ]
  ]

  -- A round of the loop.
  unfoldable pub check_profile :
      ProtocolRegistry
      → RuleRegistry config.Json Body
      → Routes
      → Text
      → ProfileDefinition config.Json
      → Checked
  check_profile protocols rules routes id p =
      if not p.enabled && not (has_enabled_rules p) then passed routes else elim p.protocol [
        | none ↦ stopped (protocol_missing id)
        | some protocol ↦ elim (find_handler protocols protocol) [
          | none ↦ stopped (unknown_protocol id protocol)
          | some h ↦ check_known protocols rules routes id p h
        ]
      ]

  unfoldable pub check_candidates :
      ProtocolRegistry
      → RuleRegistry config.Json Body
      → Routes
      → List (Text × ProfileDefinition config.Json)
      → Checked
  check_candidates protocols rules routes [] = passed routes
  check_candidates protocols rules routes ((id, p) ∷ more) =
      and_then (check_profile protocols rules routes id p)
        (λ routes'. check_candidates protocols rules routes' more)

  abbrev pub any_enabled : List (Text × ProfileDefinition config.Json) → Bool
  any_enabled [] = false
  any_enabled ((id, p) ∷ more) = p.enabled || any_enabled more

  -- The end of the function; the compiler is made with the same registries.
  unfoldable pub check_runtime :
      RuntimeCompiler config Body → ConfigDocument config.Json → Option ConfigValidationFailure
  check_runtime x document = elim (x.resolve_log_path document.application) [
    | none ↦ some invalid_log_path
    | some path ↦
        if any_enabled document.profiles
        then (elim (compile config Body x document none) [
          | ok snapshot ↦ none
          | failed e ↦ some (runtime_compile_failed e)
        ])
        else none
  ]

  -- `none` for a candidate that is valid.
  unfoldable pub validate_config_candidate :
      RuntimeCompiler config Body
      → ProtocolRegistry
      → RuleRegistry config.Json Body
      → ConfigDocument config.Json
      → Option ConfigValidationFailure
  validate_config_candidate x protocols rules document =
      elim (validate_config_document config x.log_path_error document) [
        | some e ↦ some (invalid_document e)
        | none ↦ elim (check_candidates protocols rules [] document.profiles) [
          | stopped e ↦ some e
          | passed routes ↦
              check_runtime (record x { protocols = some protocols; rules = some rules }) document
        ]
      ]

-- The service, with the repository's answers as arguments.
pub record ConfigEditingService (Json : Type 0) : Type 0 where
  pub draft : ConfigDocument Json
  pub active : Bool

-- `save_failed` is an error of `repository_.save`.
pub data ServiceError : Type 0 where
  already_active not_loaded no_active_draft save_failed : ServiceError
  invalid_candidate : ConfigValidationFailure → ServiceError

pub record Returned (Json : Type 0) : Type 0 where
  pub service : ConfigEditingService Json
  pub error : Option ServiceError

module _ {Json : Type 0} where
  unfoldable pub begin : ConfigEditingService Json → Bool → ConfigDocument Json → Returned Json
  begin s loaded document =
      if s.active
      then record { service = s; error = some already_active }
      else if not loaded
      then record { service = s; error = some not_loaded }
      else record { service = record { draft = document; active = true }; error = none }

  -- The last argument is `validate_config_candidate` of the draft.
  unfoldable pub validate :
      ConfigEditingService Json
      → (ConfigDocument Json → Option ConfigValidationFailure)
      → Option ServiceError
  validate s check =
      if not s.active
      then some no_active_draft
      else elim (check s.draft) [ none ↦ none | some e ↦ some (invalid_candidate e) ]

  unfoldable pub commit :
      ConfigEditingService Json
      → (ConfigDocument Json → Option ConfigValidationFailure)
      → (ConfigDocument Json → Bool)
      → Returned Json
  commit s check save = elim (validate s check) [
    | some e ↦ record { service = s; error = some e }
    | none ↦
        if not (save s.draft)
        then record { service = s; error = some save_failed }
        else record { service = record s { active = false }; error = none }
  ]

  unfoldable pub discard : ConfigEditingService Json → ConfigEditingService Json
  discard s = record s { active = false }
