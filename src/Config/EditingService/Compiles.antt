-- ===== src/Config/EditingService/Compiles.antt =====
-- A candidate that passed the checks of src/config/config_editing_service.cpp compiles.
use cc_switch_trans.Common.{◌≡◌, refl, ◌⊎◌, inl, inr, true, false, none, some, List, Text, subst}
use cc_switch_trans.Config.Document.{ConfigJson, ProfileDefinition}
use cc_switch_trans.Config.Document.Profiles.{is_some, validate_route_path}
use cc_switch_trans.Protocols.{ProtocolHandler}
use cc_switch_trans.Protocols.Registry.{IsRegistered}
use cc_switch_trans.Rules.Pipeline.{CompiledRule}
use cc_switch_trans.Rules.Registry.{PipelineResult, PipelineError, compiled, refused}
use cc_switch_trans.Config.RuntimeCompiler.{
  Profile, Table, ok, request_route, usage_route, add_request, add_usage,
}
use cc_switch_trans.Config.RuntimeCompiler.Runnable.{
  Passes, neither, both, IsRunnable, validate_route_path-canonical, validate_route_path-nonempty,
  validate_base_url-nonempty,
}
use cc_switch_trans.Config.RuntimeCompiler.Succeeds.{
  IsAccepted, request_entry, add_request-added, add_usage-none, add_usage-added,
}
use cc_switch_trans.Config.EditingService.{
  Routes, Checked, passed, stopped, add_candidate_route, add_routes, profile_issue, check_known,
  check_profile, check_candidates, any_enabled, check_runtime, validate_config_candidate,
  has_enabled_rules, ConfigValidationFailure, runtime_compile_failed,
}
use cc_switch_trans.Config.EditingService
use cc_switch_trans.Config.EditingService.Agreement.{
  Agrees, IsReady, Taken, add_candidate_route-Taken, Taken-Agrees,
}

pub and_then-passed :
    (x : Checked) (f : Routes → Checked) (r : Routes)
    → EditingService.and_then x f ≡ passed r
    → (r' : Routes) × (x ≡ passed r') × (f r' ≡ passed r)
and_then-passed (passed r') f r h = (r', refl, h)
and_then-passed (stopped e) f r h = cc h

pub PipelineResult-cases :
    {Body : Type 0} (x : PipelineResult Body)
    → ((rules : List (CompiledRule Body)) × (x ≡ compiled rules))
      ⊎ ((e : PipelineError) × (x ≡ refused e))
PipelineResult-cases (compiled rules) = inl (rules, refl)
PipelineResult-cases (refused e) = inr (e, refl)

module _ (config : ConfigJson) (Body : Type 0) where
  request-IsReady :
      (profile : Profile config Body) (h : ProtocolHandler) (p : ProfileDefinition config.Json)
      (r : IsRunnable p) (id : Text)
      → profile.handler ≡ some h
      → IsRegistered id h
      → IsReady (request_entry config Body profile h r)
  unfolding request_route
  request-IsReady profile h p r id e reg =
      let (path, resolved, open_path) =
        validate_route_path-canonical r.request.text r.request.fine in
      record {
        profile_set = (profile, h, refl, e);
        method_ok = reg.request_ok;
        path = path;
        resolved = resolved;
        open_path = open_path;
        base = validate_base_url-nonempty r.base.text r.base.fine;
        target = validate_route_path-nonempty r.target.text r.target.fine;
      }

  usage-IsReady :
      (profile : Profile config Body) (h : ProtocolHandler) (p : ProfileDefinition config.Json)
      (r : IsRunnable p) (id : Text) (u : Passes (validate_route_path true) p.local.usage_path)
      (w : Passes (validate_route_path false) p.upstream.usage_path)
      → profile.handler ≡ some h
      → IsRegistered id h
      → h.descriptor.supports_usage ≡ true
      → IsReady (usage_route config Body profile h u.text r.base.text w.text)
  unfolding usage_route
  usage-IsReady profile h p r id u w e reg s =
      let (path, resolved, open_path) = validate_route_path-canonical u.text u.fine in
      record {
        profile_set = (profile, h, refl, e);
        method_ok = reg.usage_ok s;
        path = path;
        resolved = resolved;
        open_path = open_path;
        base = validate_base_url-nonempty r.base.text r.base.fine;
        target = validate_route_path-nonempty w.text w.fine;
      }

  -- The usage route, if any, after the request route.
  usage-Agrees :
      (profile : Profile config Body) (h : ProtocolHandler) (p : ProfileDefinition config.Json)
      (r : IsRunnable p) (id : Text) (routes routes' : Routes) (t : Table config Body)
      → profile.handler ≡ some h
      → IsRegistered id h
      → (is_some p.local.usage_path ≡ true → h.descriptor.supports_usage ≡ true)
      → Agrees routes t
      → ((u : Text)
          → p.local.usage_path ≡ some u
          → Taken routes routes' h.descriptor.usage_method u)
      → (p.local.usage_path ≡ none → routes ≡ routes')
      → (t' : Table config Body) × (add_usage config Body profile h p t ≡ ok t') × Agrees routes' t'
  unfolding usage_route
  usage-Agrees profile h p r id routes routes' t e reg s agrees took kept = elim r.usage [
    | neither a b ↦ (
      t,
      add_usage-none config Body profile h p t a,
      subst (λ (x : Routes). Agrees x t) (kept a) agrees,
    )
    | both u w ↦
        let supported = s (rw u.there refl) in
        let (t', done, agrees') =
          Taken-Agrees routes routes' t
            (usage_route config Body profile h u.text r.base.text w.text)
            (usage-IsReady profile h p r id u w e reg supported) agrees (took u.text u.there) in
        (
          t',
          add_usage-added config Body profile h p t t' u.there r.base.there w.there done,
          agrees',
        )
  ]

  -- The two routes of an enabled profile.
  pub record RoutesAgree (profile : Profile config Body) (h : ProtocolHandler)
      (p : ProfileDefinition config.Json) (routes' : Routes) (t : Table config Body) : Type 0 where
    pub between : Table config Body
    pub end : Table config Body
    pub requested : add_request config Body profile h p t ≡ ok between
    pub used : add_usage config Body profile h p between ≡ ok end
    pub agrees : Agrees routes' end

  pub add_routes-RoutesAgree :
      (profile : Profile config Body) (h : ProtocolHandler) (p : ProfileDefinition config.Json)
      (a : IsAccepted h p) (id own : Text) (routes routes' : Routes) (t : Table config Body)
      → profile.handler ≡ some h
      → IsRegistered id h
      → Agrees routes t
      → add_routes routes own p h ≡ passed routes'
      → RoutesAgree profile h p routes' t
  unfolding add_routes request_route
  add_routes-RoutesAgree profile h p a id own routes routes' t e reg agrees taken =
      let r = a.runnable in
      let first =
        add_candidate_route routes h.descriptor.request_method r.request.text own
          "local.request-path" in
      let then_usage : Routes → Checked = λ (x : Routes). elim p.local.usage_path [
        | none ↦ passed x
        | some u ↦ add_candidate_route x h.descriptor.usage_method u own "local.usage-path"
      ] in
      let both_taken : EditingService.and_then first then_usage ≡ passed routes' =
        rw r.request.there at taken in
      let (middle, one, two) = and_then-passed first then_usage routes' both_taken in
      let (between, done, agrees') =
        Taken-Agrees routes middle t (request_entry config Body profile h r)
          (request-IsReady profile h p r id e reg) agrees
          (add_candidate_route-Taken routes middle h.descriptor.request_method r.request.text own
            "local.request-path" one) in
      let (end, used, agrees'') =
        usage-Agrees profile h p r id middle routes' between e reg a.usage_supported agrees'
          (λ u s.
            add_candidate_route-Taken middle routes' h.descriptor.usage_method u own
              "local.usage-path" (rw s at two))
          (λ n. let q : passed middle ≡ passed routes' = rw n at two in cc q) in
      record {
        between = between;
        end = end;
        requested = add_request-added config Body profile h p t between r done;
        used = used;
        agrees = agrees'';
      }
