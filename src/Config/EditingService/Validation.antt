-- ===== src/Config/EditingService/Validation.antt =====
-- The end of `validate_config_candidate` in src/config/config_editing_service.cpp: its compiler.
use cc_switch_trans.Common.{
  ◌≡◌, refl, sym, ◌∙◌, ◌≢◌, ◌⊎◌, inl, inr, true, false, none, some, List, [], ◌∷◌, Text, empty?,
  arith, Option-cases,
}
use cc_switch_trans.Config.Document.{ConfigJson, ProfileDefinition, ConfigDocument}
use cc_switch_trans.Config.Document.Profiles.{validate_config_document}
use cc_switch_trans.Protocols.{ProtocolRegistry}
use cc_switch_trans.Protocols.Registry.{IsSound}
use cc_switch_trans.Rules.Registry.{RuleRegistry}
use cc_switch_trans.Config.RuntimeCompiler.{
  CompileError, RuntimeCompiler, RuntimeSnapshot, ok, failed, enabled_profiles, select,
  empty_candidate, finish, compile_checked, compile,
}
use cc_switch_trans.Config.EditingService.{
  Routes, Checked, passed, stopped, check_candidates, any_enabled, check_runtime,
  validate_config_candidate, ConfigValidationFailure, runtime_compile_failed,
}
use cc_switch_trans.Config.EditingService.Failures.{check_candidates-own}
use cc_switch_trans.Config.EditingService.Loop.{check_candidates-compiles, empty-Agrees}

Checked-cases :
    (r : Checked)
    → ((routes : Routes) × (r ≡ passed routes)) ⊎ ((e : ConfigValidationFailure) × (r ≡ stopped e))
Checked-cases (passed routes) = inl (routes, refl)
Checked-cases (stopped e) = inr (e, refl)

module _ (config : ConfigJson) (Body : Type 0) (protocols : ProtocolRegistry)
    (rules : RuleRegistry config.Json Body) where
  some_selected :
      (ps : List (Text × ProfileDefinition config.Json))
      → any_enabled config Body ps ≡ true
      → empty? (enabled_profiles config Body ps) ≡ false
  unfolding enabled_profiles
  some_selected [] h = cc h
  some_selected ((id, p) ∷ ps) h = ground (arith, some_selected ps)

  module _ (x : RuntimeCompiler config Body) (document : ConfigDocument config.Json) where
    abbrev compiler : RuntimeCompiler config Body
    compiler = record x { protocols = some protocols; rules = some rules }

    -- What the checks before the compiler's run come to.
    record IsChecked : Type 0 where
      document_ok : validate_config_document config x.log_path_error document ≡ none
      routes : Routes
      routes_ok : check_candidates config Body protocols rules [] document.profiles ≡ passed routes
      path : Text
      path_ok : x.resolve_log_path document.application ≡ some path
      some_enabled : any_enabled config Body document.profiles ≡ true

    checked_compiles :
        IsSound protocols
        → x.absolute_root ≡ true
        → IsChecked
        → (snapshot : RuntimeSnapshot config Body) × (compile config Body compiler document none
            ≡ ok snapshot)
    unfolding compile compile_checked select finish
    checked_compiles v root k =
        let (c, e) =
          check_candidates-compiles config Body protocols rules document.profiles
            (empty_candidate config Body) [] k.routes v (empty-Agrees config Body protocols rules)
            k.routes_ok in
        let full = some_selected document.profiles k.some_enabled in
        (
          record {
            application = document.application;
            log_path = k.path;
            protocols = protocols;
            rules = rules;
            profiles = c.profiles;
            routes = c.routes;
          },
          ground (arith, root, k.document_ok, full, k.path_ok, e),
        )

    candidate-IsChecked :
        (e : CompileError)
        → validate_config_candidate config Body x protocols rules document
          ≡ some (runtime_compile_failed e)
        → IsChecked × (compile config Body compiler document none ≡ failed e)
    unfolding validate_config_candidate check_runtime
    candidate-IsChecked e h =
        elim (Option-cases (validate_config_document config x.log_path_error document)) [
          | inr (y, q) ↦ absurd (ground arith)
          | inl q ↦
              elim (Checked-cases
                (check_candidates config Body protocols rules [] document.profiles)) [
                  | inr (y, k) ↦ absurd (
                      ground (
                        arith,
                        check_candidates-own config Body protocols rules document.profiles [],
                      ))
                  | inl (routes, k) ↦
                      elim (Option-cases (x.resolve_log_path document.application)) [
                        | inl n ↦ absurd (ground arith)
                        | inr (path, f) ↦ (
                          record {
                            document_ok = q;
                            routes = routes;
                            routes_ok = k;
                            path = path;
                            path_ok = f;
                            some_enabled = ground arith;
                          },
                          ground arith,
                        )
                      ]
                ]
        ]

    -- With sound protocols and an absolute root, validating a candidate never ends in the failure
    -- `RuntimeCompileFailed`: whatever passes the checks before it, compiles.
    pub validate_config_candidate-never_late :
        (e : CompileError)
        → IsSound protocols
        → x.absolute_root ≡ true
        → validate_config_candidate config Body x protocols rules document
          ≢ some (runtime_compile_failed e)
    validate_config_candidate-never_late e v root h =
        let (k, bad) = candidate-IsChecked e h in
        let (snapshot, good) = checked_compiles v root k in
        let clash : ok snapshot ≡ failed e = sym good ∙ bad in cc clash
