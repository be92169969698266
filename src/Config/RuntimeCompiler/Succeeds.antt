-- ===== src/Config/RuntimeCompiler/Succeeds.antt =====
-- A round of the compiler's loop in src/config/runtime_compiler.cpp, once the profile is known to be
-- runnable.
use cc_switch_trans.Common.{
  ◌≡◌, refl, inl, inr, true, none, some, List, [], ◌∷◌, ◌++◌, Text, arith, Option-cases,
}
use cc_switch_trans.Routing.{RouteEntry, add, added}
use cc_switch_trans.Config.Document.{ConfigJson, ProfileDefinition}
use cc_switch_trans.Config.Document.Profiles.{is_some, validate_profile_definition}
use cc_switch_trans.Protocols.{
  ProtocolHandler, ProtocolRegistry, handler_validate_profile, validate_profile, find_handler,
}
use cc_switch_trans.Rules.Pipeline.{CompiledRule}
use cc_switch_trans.Rules.Registry.{RuleRegistry, compile_pipeline, compiled}
use cc_switch_trans.Config.RuntimeCompiler.{
  Profile, Table, Candidate, ok, and_then, request_route, usage_route, add_request, add_usage,
  runtime_profile, add_profile, compile_known, compile_profile, with_value,
}
use cc_switch_trans.Config.RuntimeCompiler.Runnable.{
  IsRunnable, validate_profile_definition-IsRunnable,
}

-- What a profile has that the protocol registry accepts for a handler.
pub record IsAccepted {Json : Type 0} (h : ProtocolHandler) (p : ProfileDefinition Json)
    : Type 0 where
  pub runnable : IsRunnable p
  pub usage_supported : is_some p.local.usage_path ≡ true → h.descriptor.supports_usage ≡ true

module _ (config : ConfigJson) where
  handler_validate-IsAccepted :
      (h : ProtocolHandler) (id : Text) (p : ProfileDefinition config.Json)
      → handler_validate_profile config h id p ≡ none
      → IsAccepted h p
  unfolding handler_validate_profile
  handler_validate-IsAccepted h id p e =
      elim (Option-cases (validate_profile_definition config id p true)) [
        | inr (x, q) ↦ absurd (ground arith)
        | inl q ↦ record {
          runnable = validate_profile_definition-IsRunnable config id p q;
          usage_supported = λ u. ground (arith, u);
        }
      ]

  pub validate_profile-IsAccepted :
      (r : ProtocolRegistry) (h : ProtocolHandler) (id : Text) (p : ProfileDefinition config.Json)
      → validate_profile config r (some h) id p ≡ none
      → IsAccepted h p
  unfolding validate_profile
  validate_profile-IsAccepted r h id p e =
      elim (Option-cases (handler_validate_profile config h id p)) [
        | inr (x, q) ↦ absurd (ground arith)
        | inl q ↦ handler_validate-IsAccepted h id p q
      ]

  module _ (Body : Type 0) where
    -- The route entries of a runnable profile.
    abbrev pub request_entry :
        {p : ProfileDefinition config.Json}
        → Profile config Body
        → ProtocolHandler
        → IsRunnable p
        → RouteEntry ProtocolHandler (List (CompiledRule Body))
    request_entry profile h r =
        request_route config Body profile h r.request.text r.base.text r.target.text

    pub add_request-added :
        (profile : Profile config Body) (h : ProtocolHandler) (p : ProfileDefinition config.Json)
        (t t' : Table config Body) (r : IsRunnable p)
        → add t (request_entry profile h r) ≡ added t'
        → add_request config Body profile h p t ≡ ok t'
    unfolding add_request
    add_request-added profile h p t t' r e =
        rw (r.request.there, r.base.there, r.target.there, e) refl

    pub add_usage-none :
        (profile : Profile config Body) (h : ProtocolHandler) (p : ProfileDefinition config.Json)
        (t : Table config Body)
        → p.local.usage_path ≡ none
        → add_usage config Body profile h p t ≡ ok t
    unfolding add_usage
    add_usage-none profile h p t e = rw e refl

    pub add_usage-added :
        (profile : Profile config Body) (h : ProtocolHandler) (p : ProfileDefinition config.Json)
        (t t' : Table config Body) {path base target : Text}
        → p.local.usage_path ≡ some path
        → p.upstream.base_url ≡ some base
        → p.upstream.usage_path ≡ some target
        → add t (usage_route config Body profile h path base target) ≡ added t'
        → add_usage config Body profile h p t ≡ ok t'
    unfolding add_usage
    add_usage-added profile h p t t' a b c e = rw (a, b, c, e) refl

    -- A round that goes through, from its parts.
    pub compile_profile-ok :
        (protocols : ProtocolRegistry) (rules : RuleRegistry config.Json Body) (id : Text)
        (p : ProfileDefinition config.Json) (c : Candidate config Body) {protocol : Text}
        {h : ProtocolHandler} {pipeline : List (CompiledRule Body)} {t t' : Table config Body}
        → p.protocol ≡ some protocol
        → find_handler protocols protocol ≡ some h
        → validate_profile config protocols (some h) id p ≡ none
        → compile_pipeline rules p.rules (some h) ≡ compiled pipeline
        → add_request config Body (runtime_profile config Body id h p.enabled pipeline) h p c.routes
          ≡ ok t
        → add_usage config Body (runtime_profile config Body id h p.enabled pipeline) h p t ≡ ok t'
        → compile_profile config Body protocols rules id p c
          ≡ ok (record {
            profiles = c.profiles ++ (id, runtime_profile config Body id h p.enabled pipeline) ∷ [];
            routes = t';
          })
    unfolding compile_profile compile_known add_profile
    compile_profile-ok protocols rules id p c a f v k x y =
        rw (a, with_value, f, compile_known, v, k, add_profile, x, and_then, y) refl
