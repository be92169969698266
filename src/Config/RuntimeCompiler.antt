-- ===== src/Config/RuntimeCompiler.antt =====
-- `RuntimeCompiler` of src/config/runtime_compiler.cpp, with the snapshot of
-- src/runtime/runtime_snapshot.hpp. What the standard library does with the path of the log file
-- comes as two functions, the check of its name and its resolution (`none` for an error); the
-- conversion of a `ConfigurationSnapshot` to a document is left out.
pub mod Runnable
pub mod Succeeds
pub mod Snapshots
pub mod Live
pub mod Compiled
use cc_switch_trans.Common.{
  ℕ, Bool, true, false, not, Option, none, some, List, [], ◌∷◌, ◌++◌, Text, find_key, empty?,
  if◌then◌else◌,
}
use cc_switch_trans.Routing.{
  RuntimeProfile, UpstreamTarget, RouteKind, request, usage, RouteEntry, AddError, RouteTable,
  AddResult, added, refused, empty_table, add,
}
use cc_switch_trans.Config.Settings.{ApplicationSettings}
use cc_switch_trans.Config.Document.{ConfigJson, ProfileDefinition, ConfigDocument, Failure}
use cc_switch_trans.Config.Document.Profiles.{
  ProfileError, DocumentError, validate_profile_definition, validate_config_document,
}
use cc_switch_trans.Protocols.{
  ProtocolHandler, ProtocolRegistry, ProfileIssue, find_handler, validate_profile,
}
use cc_switch_trans.Rules.Pipeline.{CompiledRule}
use cc_switch_trans.Rules.Registry.{
  RuleRegistry, PipelineError, compiled, refused, compile_pipeline,
}

-- The texts of `error`. `empty_optional` is no error of the program: it stands for the undefined
-- behaviour of reading an empty `std::optional`.
pub data CompileError : Type 0 where
  relative_root no_protocol_registry no_rule_registry none_enabled : CompileError
  bad_log_path empty_optional : CompileError
  invalid_document : DocumentError → CompileError
  no_such_profile : Text → CompileError
  not_runnable : Failure ProfileError → CompileError
  unknown_protocol : Text → Text → CompileError
  profile_refused : Text → ProfileIssue → CompileError
  rules_refused : Text → PipelineError → CompileError
  route_refused : AddError → CompileError

pub data Outcome (A : Type 0) : Type 0 where
  ok : A → Outcome A
  failed : CompileError → Outcome A

abbrev pub and_then : {A B : Type 0} → Outcome A → (A → Outcome B) → Outcome B
and_then (ok a) f = f a
and_then (failed e) f = failed e

-- *optional
abbrev pub with_value : {A : Type 0} → Option Text → (Text → Outcome A) → Outcome A
with_value none f = failed empty_optional
with_value (some x) f = f x

module _ (config : ConfigJson) (Body : Type 0) where
  abbrev pub Profile : Type 0
  Profile = RuntimeProfile ProtocolHandler (List (CompiledRule Body))

  abbrev pub Table : Type 0
  Table = RouteTable ProtocolHandler (List (CompiledRule Body))

  abbrev pub Definition : Type 0
  Definition = ProfileDefinition config.Json

  -- What the loop over the selected profiles fills.
  pub record Candidate : Type 0 where
    pub profiles : List (Text × Profile)
    pub routes : Table

  pub record RuntimeSnapshot : Type 0 where
    pub application : ApplicationSettings
    pub log_path : Text
    pub protocols : ProtocolRegistry
    pub rules : RuleRegistry config.Json Body
    pub profiles : List (Text × Profile)
    pub routes : Table

  -- The compiler with what it asks of the standard library.
  pub record RuntimeCompiler : Type 0 where
    pub absolute_root : Bool
    pub protocols : Option ProtocolRegistry
    pub rules : Option (RuleRegistry config.Json Body)
    pub log_path_error : Text → Bool
    pub resolve_log_path : ApplicationSettings → Option Text

  abbrev pub routes_added : AddResult ProtocolHandler (List (CompiledRule Body)) → Outcome Table
  routes_added (added t) = ok t
  routes_added (refused e) = failed (route_refused e)

  unfoldable pub request_route :
      Profile
      → ProtocolHandler
      → Text
      → Text
      → Text
      → RouteEntry ProtocolHandler (List (CompiledRule Body))
  request_route profile h path base target = record {
    profile = some profile;
    kind = request;
    method = h.descriptor.request_method;
    local_path = path;
    upstream = record { base_url = base; path = target };
  }

  unfoldable pub usage_route :
      Profile
      → ProtocolHandler
      → Text
      → Text
      → Text
      → RouteEntry ProtocolHandler (List (CompiledRule Body))
  usage_route profile h path base target = record {
    profile = some profile;
    kind = usage;
    method = h.descriptor.usage_method;
    local_path = path;
    upstream = record { base_url = base; path = target };
  }

  unfoldable pub add_request : Profile → ProtocolHandler → Definition → Table → Outcome Table
  add_request profile h p t = with_value p.local.request_path (λ path.
      with_value p.upstream.base_url (λ base.
        with_value p.upstream.request_path
          (λ target. routes_added (add t (request_route profile h path base target)))))

  unfoldable pub add_usage : Profile → ProtocolHandler → Definition → Table → Outcome Table
  add_usage profile h p t = elim p.local.usage_path [
    | none ↦ ok t
    | some path ↦ with_value p.upstream.base_url (λ base.
        with_value p.upstream.usage_path
          (λ target. routes_added (add t (usage_route profile h path base target))))
  ]

  unfoldable pub runtime_profile :
      Text → ProtocolHandler → Bool → List (CompiledRule Body) → Profile
  runtime_profile id h enabled rules = record {
    id = id;
    handler = some h;
    source_enabled = enabled;
    request_pipeline = some rules;
  }

  -- The end of a round of the loop. The ids differ, and come in the order of the map that the
  -- profile is put into.
  unfoldable pub add_profile :
      Text
      → Definition
      → ProtocolHandler
      → List (CompiledRule Body)
      → Candidate
      → Outcome (Candidate)
  add_profile id p h rules c =
      let profile = runtime_profile id h p.enabled rules in
      and_then (add_request profile h p c.routes) (λ t.
        and_then (add_usage profile h p t)
          (λ t'. ok (record { profiles = c.profiles ++ (id, profile) ∷ []; routes = t' })))

  unfoldable pub compile_known :
      ProtocolRegistry
      → RuleRegistry config.Json Body
      → Text
      → Definition
      → ProtocolHandler
      → Candidate
      → Outcome (Candidate)
  compile_known protocols rules id p h c = elim (validate_profile config protocols (some h) id p) [
    | some e ↦ failed (profile_refused id e)
    | none ↦ elim (compile_pipeline rules p.rules (some h)) [
      | refused e ↦ failed (rules_refused id e)
      | compiled pipeline ↦ add_profile id p h pipeline c
    ]
  ]

  unfoldable pub compile_profile :
      ProtocolRegistry
      → RuleRegistry config.Json Body
      → Text
      → Definition
      → Candidate
      → Outcome (Candidate)
  compile_profile protocols rules id p c = with_value p.protocol (λ protocol.
      elim (find_handler protocols protocol) [
        | none ↦ failed (unknown_protocol id protocol)
        | some h ↦ compile_known protocols rules id p h c
      ])

  unfoldable pub compile_selected :
      ProtocolRegistry
      → RuleRegistry config.Json Body
      → List (Text × Definition)
      → Candidate
      → Outcome (Candidate)
  compile_selected protocols rules [] c = ok c
  compile_selected protocols rules ((id, p) ∷ more) c =
      and_then (compile_profile protocols rules id p c) (compile_selected protocols rules more)

  unfoldable pub enabled_profiles : List (Text × Definition) → List (Text × Definition)
  enabled_profiles [] = []
  enabled_profiles ((id, p) ∷ more) =
      let rest = enabled_profiles more in if p.enabled then (id, p) ∷ rest else rest

  -- `options.selected_profile` is the first argument.
  unfoldable pub select :
      Option Text → List (Text × Definition) → Outcome (List (Text × Definition))
  select none profiles = ok (enabled_profiles profiles)
  select (some id) profiles = elim (find_key id profiles) [
    | none ↦ failed (no_such_profile id)
    | some p ↦ elim (validate_profile_definition config id p true) [
      | some e ↦ failed (not_runnable e)
      | none ↦ ok ((id, p) ∷ [])
    ]
  ]

  abbrev pub empty_candidate : Candidate
  empty_candidate = record { profiles = []; routes = empty_table }

  unfoldable pub finish :
      RuntimeCompiler
      → ApplicationSettings
      → ProtocolRegistry
      → RuleRegistry config.Json Body
      → List (Text × Definition)
      → Outcome (RuntimeSnapshot)
  finish x application protocols rules selected =
      if empty? selected then failed none_enabled else elim (x.resolve_log_path application) [
        | none ↦ failed bad_log_path
        | some path ↦ and_then (compile_selected protocols rules selected empty_candidate) (λ c.
            ok (record {
              application = application;
              log_path = path;
              protocols = protocols;
              rules = rules;
              profiles = c.profiles;
              routes = c.routes;
            }))
      ]

  unfoldable pub compile_checked :
      RuntimeCompiler
      → ConfigDocument config.Json
      → Option Text
      → ProtocolRegistry
      → RuleRegistry config.Json Body
      → Outcome (RuntimeSnapshot)
  compile_checked x document selected protocols rules =
      elim (validate_config_document config x.log_path_error document) [
        | some e ↦ failed (invalid_document e)
        | none ↦
            and_then (select selected document.profiles)
              (finish x document.application protocols rules)
      ]

  unfoldable pub compile :
      RuntimeCompiler → ConfigDocument config.Json → Option Text → Outcome (RuntimeSnapshot)
  compile x document selected =
      if not x.absolute_root then failed relative_root else elim x.protocols [
        | none ↦ failed no_protocol_registry
        | some protocols ↦ elim x.rules [
          | none ↦ failed no_rule_registry
          | some rules ↦ compile_checked x document selected protocols rules
        ]
      ]
