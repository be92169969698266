-- ===== src/Config/RuntimeCompiler/Compiled.antt =====
-- The whole compilation of src/config/runtime_compiler.cpp: what a snapshot holds.
use mathlib.Core.List.{append_assoc, append-nil}
use cc_switch_trans.Common.{
  ◌+◌, ◌≡◌, refl, ap, sym, ◌∙◌, subst, ◌⊎◌, inl, inr, false, Option, none, some, List, [], ◌∷◌,
  ◌++◌, Text, empty?, arith, Bool-cases, Option-cases,
}
use cc_switch_trans.Routing.{refused}
use cc_switch_trans.Config.Document.{ConfigJson, ConfigDocument}
use cc_switch_trans.Config.Document.Profiles.{count_routes, validate_config_document}
use cc_switch_trans.Protocols.{ProtocolHandler, ProtocolRegistry, validate_profile, find_handler}
use cc_switch_trans.Rules.Pipeline.{CompiledRule}
use cc_switch_trans.Rules.Registry.{
  RuleRegistry, compile_pipeline, PipelineResult, PipelineError, compiled, refused,
}
use cc_switch_trans.Config.RuntimeCompiler.{
  Profile, Definition, Candidate, RuntimeSnapshot, RuntimeCompiler, ok, and_then, runtime_profile,
  compile_known, compile_profile, compile_selected, select, empty_candidate, finish,
  compile_checked, compile,
}
use cc_switch_trans.Config.RuntimeCompiler.Live.{AllLive, nil, AllLive-cons, Round, known-Round}
use cc_switch_trans.Config.RuntimeCompiler.Snapshots.{
  Extends, Extends-trans, Extends-refl, and_then-ok, with_value-ok,
}

PipelineResult-cases :
    {Body : Type 0} (x : PipelineResult Body)
    → ((rules : List (CompiledRule Body)) × (x ≡ compiled rules))
      ⊎ ((e : PipelineError) × (x ≡ refused e))
PipelineResult-cases (compiled rules) = inl (rules, refl)
PipelineResult-cases (refused e) = inr (e, refl)

module _ (config : ConfigJson) (Body : Type 0) (protocols : ProtocolRegistry)
    (rules : RuleRegistry config.Json Body) where
  compile_known-Round :
      (id protocol : Text) (p : Definition config Body) (h : ProtocolHandler)
      (c c' : Candidate config Body)
      → p.protocol ≡ some protocol
      → find_handler protocols protocol ≡ some h
      → compile_known config Body protocols rules id p h c ≡ ok c'
      → Round config Body protocols rules id p c c'
  unfolding compile_known
  compile_known-Round id protocol p h c c' a f e =
      elim (Option-cases (validate_profile config protocols (some h) id p)) [
        | inr (x, v) ↦ absurd (ground arith)
        | inl v ↦ elim (PipelineResult-cases (compile_pipeline rules p.rules (some h))) [
          | inr (x, k) ↦ absurd (ground arith)
          | inl (pipeline, k) ↦
              known-Round config Body protocols rules id protocol p h pipeline c c' a f v k
                (ground arith)
        ]
      ]

  compile_profile-Round :
      (id : Text) (p : Definition config Body) (c c' : Candidate config Body)
      → compile_profile config Body protocols rules id p c ≡ ok c'
      → Round config Body protocols rules id p c c'
  unfolding compile_profile
  compile_profile-Round id p c c' e =
      let (protocol, a, e1) = with_value-ok p.protocol _ c' e in
      elim (Option-cases (find_handler protocols protocol)) [
        | inl n ↦ absurd (ground arith)
        | inr (h, f) ↦ compile_known-Round id protocol p h c c' a f (ground arith)
      ]

  -- What the loop leaves.
  pub record Went (ps : List (Text × Definition config Body)) (c c' : Candidate config Body)
      : Type 0 where
    pub profiles : List (Text × Profile config Body)
    pub appended : c'.profiles ≡ c.profiles ++ profiles
    pub live : AllLive config Body protocols rules c'.routes ps profiles
    pub extends : Extends c.routes c'.routes
    pub counted : c'.routes.size ≡ c.routes.size + count_routes ps

  pub compile_selected-Went :
      (ps : List (Text × Definition config Body)) (c c' : Candidate config Body)
      → compile_selected config Body protocols rules ps c ≡ ok c'
      → Went ps c c'
  unfolding compile_selected count_routes
  compile_selected-Went [] c c' e =
      let same : c ≡ c' = cc e in
      subst (Went [] c) same (record {
        profiles = [];
        appended = sym (append-nil c.profiles);
        live = nil;
        extends = Extends-refl c.routes;
        counted = omega arith;
      })
  compile_selected-Went ((id, p) ∷ ps) c c' e =
      let (middle, one, two) =
        and_then-ok (compile_profile config Body protocols rules id p c)
          (compile_selected config Body protocols rules ps) c' e in
      let r = compile_profile-Round id p c middle one in
      let w = compile_selected-Went ps middle c' two in
      let profile = runtime_profile config Body id r.live.handler p.enabled r.live.pipeline in
      record {
        profiles = (id, profile) ∷ w.profiles;
        appended =
            w.appended
            ∙ ap (λ (x : List (Text × Profile config Body)). x ++ w.profiles) r.profiles
            ∙ append_assoc c.profiles ((id, profile) ∷ []) w.profiles;
        live = AllLive-cons config Body protocols rules r.live w.extends w.live;
        extends = Extends-trans r.extends w.extends;
        counted = omega (arith, r.counted, w.counted);
      }

module _ (config : ConfigJson) (Body : Type 0) where
  -- What a snapshot was compiled from, and what it holds.
  pub record IsCompiled (x : RuntimeCompiler config Body) (document : ConfigDocument config.Json)
      (selected : Option Text) (s : RuntimeSnapshot config Body) : Type 0 where
    pub valid : validate_config_document config x.log_path_error document ≡ none
    pub chosen : List (Text × Definition config Body)
    pub chosen_ok : select config Body selected document.profiles ≡ ok chosen
    pub some_chosen : empty? chosen ≡ false
    pub log_path_ok : x.resolve_log_path document.application ≡ some s.log_path
    pub live : AllLive config Body s.protocols s.rules s.routes chosen s.profiles
    pub counted : s.routes.size ≡ count_routes chosen

  finish-IsCompiled :
      (x : RuntimeCompiler config Body) (document : ConfigDocument config.Json)
      (selected : Option Text) (s : RuntimeSnapshot config Body) (protocols : ProtocolRegistry)
      (rules : RuleRegistry config.Json Body) (chosen : List (Text × Definition config Body))
      → validate_config_document config x.log_path_error document ≡ none
      → select config Body selected document.profiles ≡ ok chosen
      → finish config Body x document.application protocols rules chosen ≡ ok s
      → IsCompiled x document selected s
  unfolding finish
  finish-IsCompiled x document selected s protocols rules chosen v k e =
      elim (Bool-cases (empty? chosen)) [
        | inl y ↦ absurd (ground arith)
        | inr n ↦ elim (Option-cases (x.resolve_log_path document.application)) [
          | inl m ↦ absurd (ground arith)
          | inr (path, f) ↦
              let e1 : and_then
                    (compile_selected config Body protocols rules chosen
                      (empty_candidate config Body))
                    (λ (c : Candidate config Body). ok (record {
                      application = document.application;
                      log_path = path;
                      protocols = protocols;
                      rules = rules;
                      profiles = c.profiles;
                      routes = c.routes;
                    }))
                  ≡ ok s =
                ground arith in
              let (c, one, two) =
                and_then-ok
                  (compile_selected config Body protocols rules chosen
                    (empty_candidate config Body))
                  _ s e1 in
              let w =
                compile_selected-Went config Body protocols rules chosen
                  (empty_candidate config Body) c one in
              let end : record {
                application = document.application;
                log_path = path;
                protocols = protocols;
                rules = rules;
                profiles = c.profiles;
                routes = c.routes;
              }
                  ≡ s =
                cc two in
              subst (IsCompiled x document selected) end (record {
                valid = v;
                chosen = chosen;
                chosen_ok = k;
                some_chosen = n;
                log_path_ok = f;
                live =
                    subst (AllLive config Body protocols rules c.routes chosen) (sym w.appended)
                      w.live;
                counted = omega (arith, w.counted);
              })
        ]
      ]

  -- A compiled snapshot comes from a valid document, and its profiles are exactly those that were
  -- selected, or else the enabled ones, at least one and in their order. Each has the handler of its
  -- protocol, which accepts it, and the rules that its definitions compile to; its request path, and
  -- its usage path if it has one, lead to its own upstream; and the
  -- table has as many routes as these.
  pub compile-IsCompiled :
      (x : RuntimeCompiler config Body) (document : ConfigDocument config.Json)
      (selected : Option Text) (s : RuntimeSnapshot config Body)
      → compile config Body x document selected ≡ ok s
      → IsCompiled x document selected s
  unfolding compile compile_checked
  compile-IsCompiled x document selected s e = elim (Option-cases x.protocols) [
    | inl n ↦ absurd (ground arith)
    | inr (protocols, a) ↦ elim (Option-cases x.rules) [
      | inl n ↦ absurd (ground arith)
      | inr (rules, b) ↦
          elim (Option-cases (validate_config_document config x.log_path_error document)) [
            | inr (y, v) ↦ absurd (ground arith)
            | inl v ↦
                let e1 : and_then (select config Body selected document.profiles)
                      (finish config Body x document.application protocols rules)
                    ≡ ok s =
                  ground arith in
                let (chosen, k, e2) =
                  and_then-ok (select config Body selected document.profiles)
                    (finish config Body x document.application protocols rules) s e1 in
                finish-IsCompiled x document selected s protocols rules chosen v k e2
          ]
    ]
  ]
