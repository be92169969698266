-- ===== src/Config/RuntimeCompiler/Live.antt =====
-- The profiles of a snapshot of src/config/runtime_compiler.cpp, round by round of the loop.

use cc_switch_trans.Common.{◌+◌, ◌≡◌, refl, subst, none, some, List, [], ◌∷◌, ◌++◌, Text, arith}
use cc_switch_trans.Config.Document.{ConfigJson}
use cc_switch_trans.Config.Document.Profiles.{is_some, one_if}
use cc_switch_trans.Protocols.{ProtocolHandler, ProtocolRegistry, validate_profile, find_handler}
use cc_switch_trans.Rules.Pipeline.{CompiledRule}
use cc_switch_trans.Rules.Registry.{RuleRegistry, compile_pipeline, compiled}
use cc_switch_trans.Config.RuntimeCompiler.{
  Profile, Table, Definition, Candidate, ok, add_request, add_usage, runtime_profile, add_profile,
}
use cc_switch_trans.Config.RuntimeCompiler.Snapshots.{
  Extends, Extends-trans, IsServed-Extends, and_then-ok, ServesRequest, ServesUsage, no_usage,
  serves_usage, add_request-ServesRequest, add_usage-ServesUsage,
}

module _ (config : ConfigJson) (Body : Type 0) (protocols : ProtocolRegistry)
    (rules : RuleRegistry config.Json Body) where
  -- A profile of a snapshot: the handler of its protocol, which accepts it, its compiled rules, and its
  -- routes in the table.
  pub record IsLive (id : Text) (p : Definition config Body) (t : Table config Body) : Type 0 where
    pub protocol : Text
    pub protocol_set : p.protocol ≡ some protocol
    pub handler : ProtocolHandler
    pub handler_found : find_handler protocols protocol ≡ some handler
    pub accepted : validate_profile config protocols (some handler) id p ≡ none
    pub pipeline : List (CompiledRule Body)
    pub built : compile_pipeline rules p.rules (some handler) ≡ compiled pipeline
    pub serves_request :
        ServesRequest config Body
          (runtime_profile config Body id handler p.enabled pipeline)
          handler
          p
          t
    pub serves_usage :
        ServesUsage config Body
          (runtime_profile config Body id handler p.enabled pipeline)
          handler
          p
          t

  -- All of them, in the order of the snapshot's profiles.
  pub data AllLive (t : Table config Body)
      : List (Text × Definition config Body) → List (Text × Profile config Body) → Type 0 where
    nil : AllLive t [] []
    cons :
        {id : Text} {p : Definition config Body} {profile : Profile config Body}
        {ps : List (Text × Definition config Body)} {profiles : List (Text × Profile config Body)}
        (live : IsLive id p t)
        → profile ≡ runtime_profile config Body id live.handler p.enabled live.pipeline
        → AllLive t ps profiles
        → AllLive t ((id, p) ∷ ps) ((id, profile) ∷ profiles)

  ServesUsage-Extends :
      {profile : Profile config Body} {h : ProtocolHandler} {p : Definition config Body}
      {t t' : Table config Body}
      → Extends t t'
      → ServesUsage config Body profile h p t
      → ServesUsage config Body profile h p t'
  ServesUsage-Extends x (no_usage n) = no_usage n
  ServesUsage-Extends x (serves_usage path base target a b c s) =
      serves_usage path base target a b c (IsServed-Extends x s)

  ServesRequest-Extends :
      {profile : Profile config Body} {h : ProtocolHandler} {p : Definition config Body}
      {t t' : Table config Body}
      → Extends t t'
      → ServesRequest config Body profile h p t
      → ServesRequest config Body profile h p t'
  ServesRequest-Extends x r = record {
    path = r.path;
    base = r.base;
    target = r.target;
    path_set = r.path_set;
    base_set = r.base_set;
    target_set = r.target_set;
    served = IsServed-Extends x r.served;
  }

  IsLive-Extends :
      {id : Text} {p : Definition config Body} {t t' : Table config Body}
      → Extends t t'
      → IsLive id p t
      → IsLive id p t'
  IsLive-Extends x l = record {
    protocol = l.protocol;
    protocol_set = l.protocol_set;
    handler = l.handler;
    handler_found = l.handler_found;
    accepted = l.accepted;
    pipeline = l.pipeline;
    built = l.built;
    serves_request = ServesRequest-Extends x l.serves_request;
    serves_usage = ServesUsage-Extends x l.serves_usage;
  }

  -- A profile that was live before the others were added, in front of them.
  pub AllLive-cons :
      {id : Text} {p : Definition config Body} {t t' : Table config Body}
      {ps : List (Text × Definition config Body)} {profiles : List (Text × Profile config Body)}
      (live : IsLive id p t)
      → Extends t t'
      → AllLive t' ps profiles
      → AllLive t'
          ((id, p) ∷ ps)
          ((id, runtime_profile config Body id live.handler p.enabled live.pipeline) ∷ profiles)
  unfolding IsLive-Extends
  AllLive-cons live x all = cons (IsLive-Extends x live) refl all

  -- What a round of the loop leaves.
  pub record Round (id : Text) (p : Definition config Body) (c c' : Candidate config Body)
      : Type 0 where
    pub live : IsLive id p c'.routes
    pub profiles :
        c'.profiles
        ≡ c.profiles
          ++ (id, runtime_profile config Body id live.handler p.enabled live.pipeline) ∷ []
    pub extends : Extends c.routes c'.routes
    pub counted :
        c'.routes.size
        ≡ c.routes.size
          + (one_if (is_some p.local.request_path) + one_if (is_some p.local.usage_path))

  pub known-Round :
      (id protocol : Text) (p : Definition config Body) (h : ProtocolHandler)
      (pipeline : List (CompiledRule Body)) (c c' : Candidate config Body)
      → p.protocol ≡ some protocol
      → find_handler protocols protocol ≡ some h
      → validate_profile config protocols (some h) id p ≡ none
      → compile_pipeline rules p.rules (some h) ≡ compiled pipeline
      → add_profile config Body id p h pipeline c ≡ ok c'
      → Round id p c c'
  unfolding add_profile
  known-Round id protocol p h pipeline c c' a f v k e =
      let profile = runtime_profile config Body id h p.enabled pipeline in
      let (t, one, e1) = and_then-ok (add_request config Body profile h p c.routes) _ c' e in
      let (t', two, e2) = and_then-ok (add_usage config Body profile h p t) _ c' e1 in
      let (r, x, m) = add_request-ServesRequest config Body profile h p c.routes t one in
      let (u, y, n) = add_usage-ServesUsage config Body profile h p t t' two in
      let end : record { profiles = c.profiles ++ (id, profile) ∷ []; routes = t' } ≡ c' = cc e2 in
      subst (Round id p c) end (record {
        live = record {
          protocol = protocol;
          protocol_set = a;
          handler = h;
          handler_found = f;
          accepted = v;
          pipeline = pipeline;
          built = k;
          serves_request = ServesRequest-Extends y r;
          serves_usage = u;
        };
        profiles = refl;
        extends = Extends-trans x y;
        counted = omega (arith, m, n);
      })
