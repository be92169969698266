-- ===== src/Rules/Registry/Compile.antt =====
-- What `RuleRegistry::compile_pipeline` of src/rules/rule_registry.cpp accepts, and what it builds.
use cc_switch_trans.Common.{
  ◌≡◌, refl, ◌↔◌, ◌≤◌, inl, inr, Bool, true, false, ◌||◌, none, some, List, [], ◌∷◌, Text, text_eq,
  text_eq_iff, length, any, ltb, arith, Bool-cases, Option-cases, subst,
}
use cc_switch_trans.Config.Profile.{is_valid_rule_id, is_valid_rule_type}
use cc_switch_trans.Config.Document.{RuleDefinition}
use cc_switch_trans.Protocols.{ProtocolHandler}
use cc_switch_trans.Rules.Pipeline.{CompiledRule}
use cc_switch_trans.Rules.Registry.{
  FactoryResult, built, not_built, RuleFactory, PipelineResult, compiled, refused, RuleRegistry,
  find, check_built, compile_definition, compile_definitions, compile_pipeline,
}

module _ {Config : Type 0} where
  abbrev pub AllValid : List (RuleDefinition Config) → Type 0
  AllValid [] = Unit {0}
  AllValid (d ∷ ds) =
      (is_valid_rule_id d.id ≡ true) × (is_valid_rule_type d.type ≡ true) × AllValid ds

  -- Whether a definition has this id.
  abbrev pub named : Text → List (RuleDefinition Config) → Bool
  named id [] = false
  named id (d ∷ ds) = text_eq d.id id || named id ds

  -- No two definitions have one id.
  abbrev pub Apart : List (RuleDefinition Config) → Type 0
  Apart [] = Unit {0}
  Apart (d ∷ ds) = (named d.id ds ≡ false) × Apart ds

  abbrev Fresh : List Text → List (RuleDefinition Config) → Type 0
  Fresh ids [] = Unit {0}
  Fresh ids (d ∷ ds) = (any (text_eq d.id) ids ≡ false) × Fresh ids ds

  Fresh_none : (ds : List (RuleDefinition Config)) → Fresh [] ds
  Fresh_none [] = tt
  Fresh_none (d ∷ ds) = (refl, Fresh_none ds)

  Fresh_more :
      (id : Text) (ids : List Text) (ds : List (RuleDefinition Config))
      → named id ds ≡ false
      → Fresh ids ds
      → Fresh (id ∷ ids) ds
  Fresh_more id ids [] n f = tt
  Fresh_more id ids (d ∷ ds) n f = (ground (arith, f.0), Fresh_more id ids ds (ground arith) f.1)

  Fresh_less :
      (id : Text) (ids : List Text) (ds : List (RuleDefinition Config))
      → Fresh (id ∷ ids) ds
      → (named id ds ≡ false) × Fresh ids ds
  Fresh_less id ids [] f = (refl, tt)
  Fresh_less id ids (d ∷ ds) f =
      let (n, g) = Fresh_less id ids ds f.1 in (ground (arith, f.0), (ground (arith, f.0), g))

module _ {Config Body : Type 0} (r : RuleRegistry Config Body) (protocol : ProtocolHandler) where
  -- What the factory that is registered for a definition's type makes of it.
  pub record IsBuilt (d : RuleDefinition Config) (rule : CompiledRule Body) : Type 0 where
    pub factory : RuleFactory Config Body
    pub found : find r d.type ≡ some factory
    pub made : factory.compile d protocol ≡ built (some rule)
    pub same_id : rule.id ≡ d.id
    pub same_type : rule.type ≡ d.type

  -- The rules of the enabled definitions, in their order; the others are passed over.
  pub data Builds : List (RuleDefinition Config) → List (CompiledRule Body) → Type 0 where
    done : Builds [] []
    skip :
        {d : RuleDefinition Config} {ds : List (RuleDefinition Config)}
        {rules : List (CompiledRule Body)}
        → d.enabled ≡ false
        → Builds ds rules
        → Builds (d ∷ ds) rules
    build :
        {d : RuleDefinition Config} {ds : List (RuleDefinition Config)} {rule : CompiledRule Body}
        {rules : List (CompiledRule Body)}
        → d.enabled ≡ true
        → IsBuilt d rule
        → Builds ds rules
        → Builds (d ∷ ds) (rule ∷ rules)

  -- What is asked of the definitions themselves.
  pub record IsWellFormed (ds : List (RuleDefinition Config)) : Type 0 where
    pub valid : AllValid ds
    pub apart : Apart ds
    pub few : length ds ≤ 64

  definitions_compile :
      (ids : List Text) {ds : List (RuleDefinition Config)} {rules : List (CompiledRule Body)}
      → Builds ds rules
      → AllValid ds
      → Apart ds
      → Fresh ids ds
      → compile_definitions r protocol ids ds ≡ compiled rules
  unfolding compile_definitions compile_definition check_built
  definitions_compile ids done v a f = refl
  definitions_compile ids {ds = d ∷ ds} (skip off b) v a f =
      let rest = definitions_compile (d.id ∷ ids) b v.2 a.1 (Fresh_more d.id ids ds a.0 f.1) in
      rw (v.0, v.1, f.0, off) rest
  definitions_compile ids {ds = d ∷ ds} (build {rule} on x b) v a f =
      let rest = definitions_compile (d.id ∷ ids) b v.2 a.1 (Fresh_more d.id ids ds a.0 f.1) in
      ground (
        arith,
        v.0,
        v.1,
        f.0,
        rest,
        x.found,
        x.made,
        text_eq_iff rule.id d.id,
        text_eq_iff rule.type d.type,
      )

  -- What a round that succeeds has behind it.
  record RoundDone (d : RuleDefinition Config) (rest : PipelineResult Body)
      (rules : List (CompiledRule Body)) : Type 0 where
    behind : List (CompiledRule Body)
    rest_done : rest ≡ compiled behind
    both : (ds : List (RuleDefinition Config)) → Builds ds behind → Builds (d ∷ ds) rules

  check_built-RoundDone :
      (d : RuleDefinition Config) (factory : RuleFactory Config Body) (result : FactoryResult Body)
      (rest : PipelineResult Body) (rules : List (CompiledRule Body))
      → d.enabled ≡ true
      → find r d.type ≡ some factory
      → factory.compile d protocol ≡ result
      → check_built d result rest ≡ compiled rules
      → RoundDone d rest rules
  unfolding check_built
  check_built-RoundDone d factory (not_built e) rest rules on f c h = cc h
  check_built-RoundDone d factory (built none) rest rules on f c h = cc h
  check_built-RoundDone d factory (built (some rule)) (refused e) rules on f c h =
      absurd (ground arith)
  check_built-RoundDone d factory (built (some rule)) (compiled behind) rules on f c h =
      let e : rule ∷ behind ≡ rules = ground arith in
      record {
        behind = behind;
        rest_done = refl;
        both = λ ds b. subst (Builds (d ∷ ds)) e (
            build on
              (record {
                factory = factory;
                found = f;
                made = c;
                same_id = ground (arith, text_eq_iff rule.id d.id);
                same_type = ground (arith, text_eq_iff rule.type d.type);
              })
              b);
      }

  compile_definition-RoundDone :
      (d : RuleDefinition Config) (rest : PipelineResult Body) (rules : List (CompiledRule Body))
      → compile_definition r protocol d rest ≡ compiled rules
      → RoundDone d rest rules
  unfolding compile_definition
  compile_definition-RoundDone d rest rules h = elim (Bool-cases d.enabled) [
    | inl on ↦ elim (Option-cases (find r d.type)) [
      | inl n ↦ absurd (ground arith)
      | inr (factory, f) ↦
          check_built-RoundDone d factory (factory.compile d protocol) rest rules on f refl
            (ground arith)
    ]
    | inr off ↦ record { behind = rules; rest_done = ground arith; both = λ ds b. skip off b }
  ]

  -- What holds of the definitions that the loop went through.
  record LoopDone (ids : List Text) (ds : List (RuleDefinition Config))
      (rules : List (CompiledRule Body)) : Type 0 where
    valid : AllValid ds
    apart : Apart ds
    fresh : Fresh ids ds
    builds : Builds ds rules

  compile_definitions-LoopDone :
      (ids : List Text) (ds : List (RuleDefinition Config)) (rules : List (CompiledRule Body))
      → compile_definitions r protocol ids ds ≡ compiled rules
      → LoopDone ids ds rules
  unfolding compile_definitions
  compile_definitions-LoopDone ids [] rules h = record {
    valid = tt;
    apart = tt;
    fresh = tt;
    builds = (let e : [] ≡ rules = ground arith in subst (Builds []) e done);
  }
  compile_definitions-LoopDone ids (d ∷ ds) rules h =
      let rest = compile_definitions r protocol (d.id ∷ ids) ds in
      let round = compile_definition-RoundDone d rest rules (ground arith) in
      let more = compile_definitions-LoopDone (d.id ∷ ids) ds round.behind round.rest_done in
      let (n, f) = Fresh_less d.id ids ds more.fresh in
      record {
        valid = (ground arith, ground arith, more.valid);
        apart = (n, more.apart);
        fresh = (ground arith, f);
        builds = round.both ds more.builds;
      }

  -- A pipeline compiles exactly if the definitions are well-formed, 64 at most with valid ids and
  -- types and no id twice, and the factories build a rule with its own id and type for each enabled
  -- one. The compiled rules are those, in the order of the definitions.
  pub compile_pipeline_iff :
      (ds : List (RuleDefinition Config)) (rules : List (CompiledRule Body))
      → (compile_pipeline r ds (some protocol) ≡ compiled rules)
        ↔ (IsWellFormed ds × Builds ds rules)
  unfolding compile_pipeline
  compile_pipeline_iff ds rules = (
    λ h.
        (let l = compile_definitions-LoopDone [] ds rules (ground arith) in
          (record { valid = l.valid; apart = l.apart; few = ground arith }, l.builds)),
    λ h.
        (let e = definitions_compile [] h.1 h.0.valid h.0.apart (Fresh_none ds) in
          let k : ltb 64 (length ds) ≡ false = ground (arith, h.0.few) in rw k e),
  )
