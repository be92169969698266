-- ===== src/Rules/Factories/Kinds.antt =====
-- The rules that the built-in factories make (src/rules/generic_json_rules.cpp,
-- src/rules/remove_tool_rule.cpp, src/rules/rule_registry.cpp).
use cc_switch_trans.Common.{
  ◌≡◌, refl, sym, subst, ◌∙◌, ◌⊎◌, inl, inr, true, false, none, some, List, [], ◌∷◌, Text, codes,
  text_eq, find_key, empty?, arith, Bool-cases, Option-cases,
}
use cc_switch_trans.Config.Document.{ConfigJson, RuleDefinition}
use cc_switch_trans.Protocols.{ProtocolHandler, supports_specialized_rule, remove_tool_type}
use cc_switch_trans.Rules.Json.{JsonLibrary}
use cc_switch_trans.Rules.Pointer.{
  ParsedJsonPointer, PointerError, PointerResult, pointer, rejected, parse_json_pointer,
}
use cc_switch_trans.Rules.Tools.{ToolLayout}
use cc_switch_trans.Rules.Pipeline.{CompiledRule}
use cc_switch_trans.Rules.Registry.{
  FactoryResult, built, RuleFactory, RuleRegistry, registered, find, compiled, compile_pipeline,
  register_factory, register_known, valid_descriptor_key, validate_descriptor, options_error,
}
use cc_switch_trans.Rules.Registry.Compile.{IsBuilt, Builds, compile_pipeline_iff}
use cc_switch_trans.Rules.Factories.Descriptors.{set_field_type, remove_field_type}
use cc_switch_trans.Rules.Factories.{
  layout_of, bad_tool, set_field_rule, remove_field_rule, remove_tool_rule, text_option,
  with_pointer, build_set_field, build_remove_field, checked_options, compile_set_field,
  compile_remove_field, build_remove_tool, compile_remove_tool, set_field_factory,
  remove_field_factory, remove_tool_factory, builtin_rule_registry,
}
use cc_switch_trans.Config.Profile.{is_valid_rule_type, valid_stable_id}

PointerResult-cases :
    (r : PointerResult)
    → ((p : ParsedJsonPointer) × (r ≡ pointer p)) ⊎ ((e : PointerError) × (r ≡ rejected e))
PointerResult-cases (pointer p) = inl (p, refl)
PointerResult-cases (rejected e) = inr (e, refl)

module _ (config : ConfigJson) (lib : JsonLibrary) (to_body : config.Json → lib.Json) where
  -- The three rules, with what was checked of their options.
  pub data Kind (h : ProtocolHandler) (d : RuleDefinition config.Json)
      (rule : CompiledRule lib.Json) : Type 0 where
    sets :
        (path : Text) (p : ParsedJsonPointer) (value : config.Json)
        → text_option config lib to_body d (codes "path") ≡ some path
        → parse_json_pointer path ≡ pointer p
        → find_key (codes "value") d.options ≡ some value
        → rule ≡ set_field_rule config lib to_body d.id p value
        → Kind h d rule
    removes :
        (path : Text) (p : ParsedJsonPointer)
        → text_option config lib to_body d (codes "path") ≡ some path
        → parse_json_pointer path ≡ pointer p
        → empty? p.tokens ≡ false
        → rule ≡ remove_field_rule config lib to_body d.id p
        → Kind h d rule
    removes_tool :
        (name : Text) (layout : ToolLayout)
        → text_option config lib to_body d (codes "tool") ≡ some name
        → bad_tool name ≡ false
        → layout_of h.descriptor.id ≡ some layout
        → supports_specialized_rule h remove_tool_type ≡ true
        → rule ≡ remove_tool_rule config lib to_body d.id layout name
        → Kind h d rule

  checked_options-result :
      (required : List Text) (d : RuleDefinition config.Json) (h : ProtocolHandler)
      (result : FactoryResult lib.Json) (rule : CompiledRule lib.Json)
      → checked_options config lib to_body required d h result ≡ built (some rule)
      → result ≡ built (some rule)
  unfolding checked_options
  checked_options-result required d h result rule e = ground arith

  with_pointer-result :
      (d : RuleDefinition config.Json) (f : ParsedJsonPointer → FactoryResult lib.Json)
      (rule : CompiledRule lib.Json)
      → with_pointer config lib to_body d f ≡ built (some rule)
      → (path : Text) × (p : ParsedJsonPointer) × (text_option config lib to_body d (codes "path")
          ≡ some path)
        × (parse_json_pointer path ≡ pointer p)
        × (f p ≡ built (some rule))
  unfolding with_pointer
  with_pointer-result d f rule e =
      elim (Option-cases (text_option config lib to_body d (codes "path"))) [
        | inl n ↦ absurd (ground arith)
        | inr (path, a) ↦ elim (PointerResult-cases (parse_json_pointer path)) [
          | inr (x, b) ↦ absurd (ground arith)
          | inl (p, b) ↦ (path, p, a, b, ground arith)
        ]
      ]

  compile_set_field-Kind :
      (d : RuleDefinition config.Json) (h : ProtocolHandler) (rule : CompiledRule lib.Json)
      → compile_set_field config lib to_body d h ≡ built (some rule)
      → Kind h d rule
  unfolding compile_set_field build_set_field
  compile_set_field-Kind d h rule e =
      let (path, p, a, b, c) =
        with_pointer-result d (build_set_field config lib to_body d) rule
          (checked_options-result (codes "path" ∷ codes "value" ∷ []) d h _ rule e) in
      elim (Option-cases (find_key (codes "value") d.options)) [
        | inl n ↦ absurd (ground arith)
        | inr (value, v) ↦ sets path p value a b v (ground arith)
      ]

  compile_remove_field-Kind :
      (d : RuleDefinition config.Json) (h : ProtocolHandler) (rule : CompiledRule lib.Json)
      → compile_remove_field config lib to_body d h ≡ built (some rule)
      → Kind h d rule
  unfolding compile_remove_field build_remove_field
  compile_remove_field-Kind d h rule e =
      let (path, p, a, b, c) =
        with_pointer-result d (build_remove_field config lib to_body d) rule
          (checked_options-result (codes "path" ∷ []) d h _ rule e) in
      removes path p a b (ground arith) (ground arith)

  compile_remove_tool-Kind :
      (d : RuleDefinition config.Json) (h : ProtocolHandler) (rule : CompiledRule lib.Json)
      → compile_remove_tool config lib to_body d h ≡ built (some rule)
      → Kind h d rule
  unfolding compile_remove_tool build_remove_tool
  compile_remove_tool-Kind d h rule e =
      elim (Option-cases (text_option config lib to_body d (codes "tool"))) [
        | inl n ↦ absurd (ground arith)
        | inr (name, a) ↦ elim (Option-cases (layout_of h.descriptor.id)) [
          | inl n ↦ absurd (ground arith)
          | inr (layout, l) ↦
              removes_tool name layout a (ground arith) l (ground arith) (ground arith)
        ]
      ]

  abbrev pub builtin : RuleRegistry config.Json lib.Json
  builtin = record {
    factories =
        (remove_tool_type, remove_tool_factory config lib to_body)
        ∷ (remove_field_type, remove_field_factory config lib to_body)
        ∷ (set_field_type, set_field_factory config lib to_body)
        ∷ [];
  }

  pub builtin_registered : builtin_rule_registry config lib to_body ≡ registered builtin
  unfolding builtin_rule_registry register_factory register_known find find_key validate_descriptor
      options_error valid_descriptor_key is_valid_rule_type valid_stable_id text_eq
  builtin_registered = refl

  factory-made :
      (h : ProtocolHandler) (d : RuleDefinition config.Json) (rule : CompiledRule lib.Json)
      (b : IsBuilt builtin h d rule) (factory : RuleFactory config.Json lib.Json)
      → find builtin d.type ≡ some factory
      → factory.compile d h ≡ built (some rule)
  factory-made h d rule b factory f =
      let same : b.factory ≡ factory = cc (b.found, f) in
      subst (λ (g : RuleFactory config.Json lib.Json). g.compile d h ≡ built (some rule)) same
        b.made

  IsBuilt-Kind :
      (h : ProtocolHandler) (d : RuleDefinition config.Json) (rule : CompiledRule lib.Json)
      → IsBuilt builtin h d rule
      → Kind h d rule
  unfolding find find_key
  IsBuilt-Kind h d rule b = elim (Bool-cases (text_eq remove_tool_type d.type)) [
    | inl y ↦
        compile_remove_tool-Kind d h rule
          (factory-made h d rule b (remove_tool_factory config lib to_body) (rw y refl))
    | inr n ↦ elim (Bool-cases (text_eq remove_field_type d.type)) [
      | inl y ↦
          compile_remove_field-Kind d h rule
            (factory-made h d rule b (remove_field_factory config lib to_body) (rw (n, y) refl))
      | inr m ↦ elim (Bool-cases (text_eq set_field_type d.type)) [
        | inl y ↦
            compile_set_field-Kind d h rule
              (factory-made h d rule b (set_field_factory config lib to_body) (rw (n, m, y) refl))
        | inr k ↦
            let nothing : find builtin d.type ≡ none = rw (n, m, k) refl in
            let clash : none ≡ some b.factory = sym nothing ∙ b.found in cc clash
      ]
    ]
  ]

  -- The rules of the enabled definitions, each of one of the three kinds.
  pub data EachKind (h : ProtocolHandler)
      : List (RuleDefinition config.Json) → List (CompiledRule lib.Json) → Type 0 where
    done : EachKind h [] []
    skip :
        {d : RuleDefinition config.Json} {ds : List (RuleDefinition config.Json)}
        {rules : List (CompiledRule lib.Json)}
        → d.enabled ≡ false
        → EachKind h ds rules
        → EachKind h (d ∷ ds) rules
    made :
        {d : RuleDefinition config.Json} {ds : List (RuleDefinition config.Json)}
        {rule : CompiledRule lib.Json} {rules : List (CompiledRule lib.Json)}
        → d.enabled ≡ true
        → Kind h d rule
        → EachKind h ds rules
        → EachKind h (d ∷ ds) (rule ∷ rules)

  Builds-EachKind :
      (h : ProtocolHandler) {ds : List (RuleDefinition config.Json)}
      {rules : List (CompiledRule lib.Json)}
      → Builds builtin h ds rules
      → EachKind h ds rules
  Builds-EachKind h Builds.done = EachKind.done
  Builds-EachKind h (Builds.skip off b) = EachKind.skip off (Builds-EachKind h b)
  Builds-EachKind h (Builds.build {d} {rule} on x b) =
      made on (IsBuilt-Kind h d rule x) (Builds-EachKind h b)

  -- A pipeline that the built-in registry compiles has a rule for each enabled definition, in order:
  -- `set_field` with a pointer that was parsed and its value, `remove_field` with a pointer that has a
  -- token, or `remove_tool` with a sound name and the layout of the handler's protocol, which supports
  -- it.
  pub compile_pipeline-EachKind :
      (h : ProtocolHandler) (r : RuleRegistry config.Json lib.Json)
      (ds : List (RuleDefinition config.Json)) (rules : List (CompiledRule lib.Json))
      → builtin_rule_registry config lib to_body ≡ registered r
      → compile_pipeline r ds (some h) ≡ compiled rules
      → EachKind h ds rules
  compile_pipeline-EachKind h r ds rules e c =
      let twice : registered builtin ≡ registered r = sym builtin_registered ∙ e in
      let same : r ≡ builtin = cc twice in
      let c' : compile_pipeline builtin ds (some h) ≡ compiled rules =
        subst
          (λ (x : RuleRegistry config.Json lib.Json).
            compile_pipeline x ds (some h) ≡ compiled rules)
          same c in
      Builds-EachKind h ((compile_pipeline_iff builtin h ds rules).0 c').1
