-- ===== src/Config/EditingService/Failures.antt =====
-- The failures that the loop of the checks of src/config/config_editing_service.cpp ends in.
use cc_switch_trans.Common.{
  ◌≡◌, refl, inl, inr, Bool, true, false, Option, none, some, List, [], ◌∷◌, Text, String, arith,
  Option-cases,
}
use cc_switch_trans.Config.Document.{ConfigJson, ProfileDefinition}
use cc_switch_trans.Protocols.{ProtocolHandler, ProtocolRegistry, find_handler}
use cc_switch_trans.Rules.Registry.{RuleRegistry}
use cc_switch_trans.Config.EditingService.{
  Routes, Checked, passed, stopped, add_candidate_route, add_routes, profile_issue, check_known,
  check_profile, check_candidates, any_enabled, check_runtime, validate_config_candidate,
  has_enabled_rules, ConfigValidationFailure, runtime_compile_failed,
}
use cc_switch_trans.Config.EditingService

-- The loop of the checks has failures of its own.
abbrev own_failure : Checked → Bool
own_failure (stopped (runtime_compile_failed e)) = false
own_failure (stopped e) = true
own_failure (passed routes) = true

add_candidate_route-own :
    (routes : Routes) (method path id : Text) (field : String)
    → own_failure (add_candidate_route routes method path id field) ≡ true
unfolding add_candidate_route
add_candidate_route-own routes method path id field = ground arith

and_then-own :
    (x : Checked) (f : Routes → Checked)
    → own_failure x ≡ true
    → ((r : Routes) → own_failure (f r) ≡ true)
    → own_failure (EditingService.and_then x f) ≡ true
and_then-own (passed r) f h k = k r
and_then-own (stopped e) f h k = h

add_routes-own :
    {Json : Type 0} (routes : Routes) (id : Text) (p : ProfileDefinition Json) (h : ProtocolHandler)
    → own_failure (add_routes routes id p h) ≡ true
unfolding add_routes
add_routes-own routes id p h = elim (Option-cases p.local.request_path) [
  | inl n ↦ rw n refl
  | inr (path, a) ↦ rw a (
      and_then-own
        (add_candidate_route routes h.descriptor.request_method path id "local.request-path") _
        (add_candidate_route-own routes h.descriptor.request_method path id "local.request-path")
        (λ r. elim (Option-cases p.local.usage_path) [
          | inl n ↦ rw n refl
          | inr (u, b) ↦
              rw b (add_candidate_route-own r h.descriptor.usage_method u id "local.usage-path")
        ]))
]

module _ (config : ConfigJson) (Body : Type 0) (protocols : ProtocolRegistry)
    (rules : RuleRegistry config.Json Body) where
  check_known-own :
      (routes : Routes) (id : Text) (p : ProfileDefinition config.Json) (h : ProtocolHandler)
      → own_failure (check_known config Body protocols rules routes id p h) ≡ true
  unfolding check_known profile_issue
  check_known-own routes id p h = ground (arith, add_routes-own routes id p h)

  found-own :
      (routes : Routes) (id protocol : Text) (p : ProfileDefinition config.Json)
      (o : Option ProtocolHandler)
      → find_handler protocols protocol ≡ o
      → p.protocol ≡ some protocol
      → own_failure (check_profile config Body protocols rules routes id p) ≡ true
  unfolding check_profile
  found-own routes id protocol p none f a = ground arith
  found-own routes id protocol p (some h) f a = ground (arith, check_known-own routes id p h)

  check_profile-own :
      (routes : Routes) (id : Text) (p : ProfileDefinition config.Json)
      → own_failure (check_profile config Body protocols rules routes id p) ≡ true
  unfolding check_profile
  check_profile-own routes id p = elim (Option-cases p.protocol) [
    | inl n ↦ ground arith
    | inr (protocol, a) ↦ found-own routes id protocol p (find_handler protocols protocol) refl a
  ]

  pub check_candidates-own :
      (ps : List (Text × ProfileDefinition config.Json)) (routes : Routes)
      → own_failure (check_candidates config Body protocols rules routes ps) ≡ true
  unfolding check_candidates
  check_candidates-own [] routes = refl
  check_candidates-own ((id, p) ∷ ps) routes =
      and_then-own (check_profile config Body protocols rules routes id p) _
        (check_profile-own routes id p) (λ r. check_candidates-own ps r)
