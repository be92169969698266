-- ===== src/Rules/Pipeline/Runs.antt =====
-- A pipeline rewrites the body as a whole or not at all (src/rules/rule.cpp).
use cc_switch_trans.Common.{
  ℕ, ◌≡◌, refl, ap, ◌∙◌, Bool, true, false, ◌||◌, Option, none, some, List, [], ◌∷◌, Text, length,
  arith,
}
use cc_switch_trans.Core.Budget.{RuntimeMetrics, Lease}
use cc_switch_trans.Rules.Fields.{RuleApplyResult, applied, failed}
use cc_switch_trans.Rules.Pipeline.{
  Ran, finished, rule_exceeded, rule_threw, CompiledRule, RuleTrace, RulePipelineError,
  RulePipelineResult, fail_with, make_trace, traced, Looped, returned, went_through, rule_failed,
  run_rules,
}

-- A result that carries no rewritten body.
pub record IsPlain (body : Text) (r : RulePipelineResult) : Type 0 where
  pub unmodified : r.modified ≡ false
  pub no_memory : r.rewritten_body_memory ≡ none
  pub no_body : r.rewritten_body ≡ none
  pub original : r.original_body_size ≡ length body
  pub output : r.output_body_size ≡ length body

pub record IsFailed (body : Text) (r : RulePipelineResult) : Type 0 where
  pub plain : IsPlain body r
  pub not_ok : r.ok ≡ false
  pub e : RulePipelineError
  pub reported : r.error ≡ some e

pub record IsFine (body : Text) (r : RulePipelineResult) : Type 0 where
  pub plain : IsPlain body r
  pub is_ok : r.ok ≡ true
  pub no_error : r.error ≡ none

pub record IsRewritten (body text : Text) (memory : Option Lease) (r : RulePipelineResult)
    : Type 0 where
  pub is_ok : r.ok ≡ true
  pub no_error : r.error ≡ none
  pub modified : r.modified ≡ true
  pub has_body : r.rewritten_body ≡ some text
  pub has_memory : r.rewritten_body_memory ≡ memory
  pub original : r.original_body_size ≡ length body
  pub output : r.output_body_size ≡ length text

pub fail_with-IsFailed :
    (body : Text) (r : RulePipelineResult) (e : RulePipelineError)
    → IsPlain body r
    → IsFailed body (fail_with r e)
unfolding fail_with
fail_with-IsFailed body r e p = record {
  plain = record {
    unmodified = refl;
    no_memory = p.no_memory;
    no_body = p.no_body;
    original = p.original;
    output = p.output;
  };
  not_ok = refl;
  e = e;
  reported = refl;
}

traced-IsFine :
    (body : Text) (r : RulePipelineResult) (t : RuleTrace)
    → IsFine body r
    → IsFine body (traced r t)
unfolding traced
traced-IsFine body r t f = record {
  plain = record {
    unmodified = f.plain.unmodified;
    no_memory = f.plain.no_memory;
    no_body = f.plain.no_body;
    original = f.plain.original;
    output = f.plain.output;
  };
  is_ok = f.is_ok;
  no_error = f.no_error;
}

traced-IsFailed :
    (body : Text) (r : RulePipelineResult) (t : RuleTrace)
    → IsFailed body r
    → IsFailed body (traced r t)
unfolding traced
traced-IsFailed body r t f = record {
  plain = record {
    unmodified = f.plain.unmodified;
    no_memory = f.plain.no_memory;
    no_body = f.plain.no_body;
    original = f.plain.original;
    output = f.plain.output;
  };
  not_ok = f.not_ok;
  e = f.e;
  reported = f.reported;
}

module _ {Json : Type 0} where
  abbrev and_then_run : Bool → Option (Json × Bool) → Option (Json × Bool)
  and_then_run m none = none
  and_then_run m (some (j, rest)) = some (j, m || rest)

  -- The rules one after the other, with whether one of them modified; `none` if one fails.
  unfoldable pub all_run : List (Option (CompiledRule Json)) → Json → Option (Json × Bool)
  all_run [] j = some (j, false)
  all_run (none ∷ rules) j = none
  all_run (some rule ∷ rules) j = elim (rule.apply j) [
    | finished (applied r next) ↦ and_then_run r.modified (all_run rules next)
    | _ ↦ none
  ]

  -- What the loop leaves, given what the rules come to.
  unfoldable pub Runs : Text → Option (Json × Bool) → Bool → Looped Json → Type 0
  Runs body o m (returned r) = IsFailed body r
  Runs body o m (went_through r j' m') =
      IsFine body r × (n : Bool) × (o ≡ some (j', n)) × (m' ≡ (m || n))

  Runs-and_then :
      (body : Text) (o : Option (Json × Bool)) (m n : Bool) (l : Looped Json)
      → Runs body o (m || n) l
      → Runs body (and_then_run n o) m l
  unfolding Runs
  Runs-and_then body o m n (returned r) h = h
  Runs-and_then body o m n (went_through r j' m') (f, k, e, q) =
      (f, n || k, ap (and_then_run n) e, q ∙ or_assoc m n)
    where
      or_assoc : (a b : Bool) → ((a || b) || k) ≡ (a || (b || k))
      or_assoc true b = refl
      or_assoc false b = refl

  pub run_rules-Runs :
      (body : Text) (result : RulePipelineResult) (rules : List (Option (CompiledRule Json)))
      (j : Json) (m : Bool)
      → IsFine body result
      → Runs body (all_run rules j) m (run_rules result rules j m)
  unfolding Runs run_rules all_run
  run_rules-Runs body result [] j m f = (f, false, refl, ground arith)
  run_rules-Runs body result (none ∷ rules) j m f = fail_with-IsFailed body result _ f.plain
  run_rules-Runs body result (some rule ∷ rules) j m f =
      round
        (λ next r.
          run_rules-Runs body (traced result (make_trace rule r)) rules next (m || r.modified)
            (traced-IsFine body result (make_trace rule r) f))
        (rule.apply j) refl
    where
      failing : (e : RulePipelineError) → IsFailed body (rule_failed result rule e)
      failing e = traced-IsFailed body _ _ (fail_with-IsFailed body result e f.plain)

      round :
          ((next : Json) (r : RuleApplyResult)
            → Runs body
                (all_run rules next)
                (m || r.modified)
                (run_rules (traced result (make_trace rule r)) rules next (m || r.modified)))
          → (x : Ran Json) → rule.apply j ≡ x
          → Runs body (all_run (some rule ∷ rules) j) m (run_rules result (some rule ∷ rules) j m)
      round behind (finished (applied r next)) h =
          rw (h, run_rules, all_run)
            (Runs-and_then body (all_run rules next) m r.modified
              (run_rules (traced result (make_trace rule r)) rules next (m || r.modified))
              (behind next r))
      round behind (finished (failed e)) h = rw (h, run_rules, all_run) (failing _)
      round behind rule_exceeded h = rw (h, run_rules, all_run) (failing _)
      round behind rule_threw h = rw (h, run_rules, all_run) (failing _)

abbrev pub in_use : Option RuntimeMetrics → ℕ
in_use none = 0
in_use (some m) = m.current_inflight_bytes
