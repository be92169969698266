-- ===== src/Config/EditingService/Loop.antt =====
-- The loop of the checks of src/config/config_editing_service.cpp beside that of the compiler.
use cc_switch_trans.Common.{
  ◌≡◌, refl, ◌∙◌, inl, inr, true, false, some, List, [], ◌∷◌, ◌++◌, Text, find_key, arith,
  Bool-cases, Option-cases, subst,
}
use cc_switch_trans.Config.Document.{ConfigJson, ProfileDefinition}
use cc_switch_trans.Protocols.{ProtocolHandler, ProtocolRegistry, find_handler, validate_profile}
use cc_switch_trans.Protocols.Registry.{IsRegistered, IsSound}
use cc_switch_trans.Rules.Registry.{RuleRegistry, compile_pipeline}
use cc_switch_trans.Config.RuntimeCompiler.{
  Candidate, ok, runtime_profile, compile_profile, compile_selected, enabled_profiles,
  empty_candidate,
}
use cc_switch_trans.Config.RuntimeCompiler.Succeeds.{
  validate_profile-IsAccepted, compile_profile-ok,
}
use cc_switch_trans.Config.EditingService.{
  Routes, passed, profile_issue, check_known, check_profile, check_candidates,
}
use cc_switch_trans.Config.EditingService.Compiles.{
  and_then-passed, PipelineResult-cases, add_routes-RoutesAgree,
}
use cc_switch_trans.Config.EditingService.Agreement.{Agrees}

module _ (config : ConfigJson) (Body : Type 0) (protocols : ProtocolRegistry)
    (rules : RuleRegistry config.Json Body) where
  -- A round of the compiler that goes through and keeps to the routes of the checks.
  record Compiles (id : Text) (p : ProfileDefinition config.Json) (c : Candidate config Body)
      (routes' : Routes) : Type 0 where
    next : Candidate config Body
    done : compile_profile config Body protocols rules id p c ≡ ok next
    agrees : Agrees routes' next.routes

  known-Compiles :
      (id protocol : Text) (p : ProfileDefinition config.Json) (h : ProtocolHandler)
      (c : Candidate config Body) (routes routes' : Routes) (key : Text)
      → p.enabled ≡ true
      → p.protocol ≡ some protocol
      → find_handler protocols protocol ≡ some h
      → IsRegistered key h
      → Agrees routes c.routes
      → check_known config Body protocols rules routes id p h ≡ passed routes'
      → Compiles id p c routes'
  unfolding check_known profile_issue runtime_profile
  known-Compiles id protocol p h c routes routes' key on a f reg agrees taken =
      elim (Option-cases (validate_profile config protocols (some h) id p)) [
        | inr (e, q) ↦ absurd (ground arith)
        | inl q ↦ elim (PipelineResult-cases (compile_pipeline rules p.rules (some h))) [
          | inr (e, k) ↦ absurd (ground arith)
          | inl (pipeline, k) ↦
              let profile = runtime_profile config Body id h p.enabled pipeline in
              let two =
                add_routes-RoutesAgree config Body profile h p
                  (validate_profile-IsAccepted config protocols h id p q) key id routes routes'
                  c.routes refl reg agrees (ground arith) in
              record {
                next = record { profiles = c.profiles ++ (id, profile) ∷ []; routes = two.end };
                done =
                    compile_profile-ok config Body protocols rules id p c a f q k two.requested
                      two.used;
                agrees = two.agrees;
              }
        ]
      ]

  profile-Compiles :
      (id : Text) (p : ProfileDefinition config.Json) (c : Candidate config Body)
      (routes routes' : Routes)
      → IsSound protocols
      → p.enabled ≡ true
      → Agrees routes c.routes
      → check_profile config Body protocols rules routes id p ≡ passed routes'
      → Compiles id p c routes'
  unfolding check_profile
  profile-Compiles id p c routes routes' v on agrees taken = elim (Option-cases p.protocol) [
    | inl n ↦ absurd (ground arith)
    | inr (protocol, a) ↦ elim (Option-cases (find_handler protocols protocol)) [
      | inl n ↦ absurd (ground arith)
      | inr (h, f) ↦
          known-Compiles id protocol p h c routes routes' protocol on a f (v.each protocol h f)
            agrees (ground arith)
    ]
  ]

  -- A profile that is not enabled adds no route.
  disabled_same :
      (id : Text) (p : ProfileDefinition config.Json) (routes routes' : Routes)
      → p.enabled ≡ false
      → check_profile config Body protocols rules routes id p ≡ passed routes'
      → routes ≡ routes'
  unfolding check_profile check_known profile_issue
  disabled_same id p routes routes' off taken = ground arith

  select_on :
      (id : Text) (p : ProfileDefinition config.Json)
      (ps : List (Text × ProfileDefinition config.Json))
      → p.enabled ≡ true
      → enabled_profiles config Body ((id, p) ∷ ps) ≡ (id, p) ∷ enabled_profiles config Body ps
  unfolding enabled_profiles
  select_on id p ps on = ground arith

  select_off :
      (id : Text) (p : ProfileDefinition config.Json)
      (ps : List (Text × ProfileDefinition config.Json))
      → p.enabled ≡ false
      → enabled_profiles config Body ((id, p) ∷ ps) ≡ enabled_profiles config Body ps
  unfolding enabled_profiles
  select_off id p ps off = ground arith

  compile_next :
      (id : Text) (p : ProfileDefinition config.Json)
      (ps : List (Text × ProfileDefinition config.Json)) (c next : Candidate config Body)
      → compile_profile config Body protocols rules id p c ≡ ok next
      → compile_selected config Body protocols rules ((id, p) ∷ ps) c
        ≡ compile_selected config Body protocols rules ps next
  unfolding compile_selected
  compile_next id p ps c next e = rw e refl

  -- The compiler's loop goes through the enabled profiles.
  pub check_candidates-compiles :
      (ps : List (Text × ProfileDefinition config.Json)) (c : Candidate config Body)
      (routes final : Routes)
      → IsSound protocols
      → Agrees routes c.routes
      → check_candidates config Body protocols rules routes ps ≡ passed final
      → (c' : Candidate config Body) × (compile_selected config Body protocols rules
            (enabled_profiles config Body ps)
            c
          ≡ ok c')
  unfolding check_candidates compile_selected enabled_profiles
  check_candidates-compiles [] c routes final v agrees h = (c, refl)
  check_candidates-compiles ((id, p) ∷ ps) c routes final v agrees h =
      let (middle, one, two) =
        and_then-passed (check_profile config Body protocols rules routes id p)
          (λ r. check_candidates config Body protocols rules r ps) final h in
      elim (Bool-cases p.enabled) [
        | inl on ↦
            let now = profile-Compiles id p c routes middle v on agrees one in
            let (c', e) = check_candidates-compiles ps now.next middle final v now.agrees two in
            (
              c',
              rw (select_on id p ps on)
                  (compile_next id p (enabled_profiles config Body ps) c now.next now.done ∙ e),
            )
        | inr off ↦
            let same = disabled_same id p routes middle off one in
            let (c', e) =
              check_candidates-compiles ps c middle final v
                (subst (λ (x : Routes). Agrees x c.routes) same agrees) two in
            (c', rw (select_off id p ps off) e)
      ]

  pub empty-Agrees : Agrees [] (empty_candidate config Body).routes
  unfolding find_key
  empty-Agrees = record { same = λ m p v. refl }
