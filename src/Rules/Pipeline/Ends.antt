-- ===== src/Rules/Pipeline/Ends.antt =====
-- How a run of a pipeline ends: the body is rewritten as a whole or not at all (src/rules/rule.cpp).
use cc_switch_trans.Common.{
  ℕ, ◌≡◌, refl, sym, ap, ◌∙◌, ◌⊎◌, inl, inr, Bool, true, false, Option, none, some, List, [], ◌∷◌,
  Text, length, arith,
}
use cc_switch_trans.Core.Budget.{RuntimeMetrics, Lease, try_acquire, try_acquire_inflight}
use cc_switch_trans.Rules.Pipeline.{
  CompiledRule, Parsed, parsed, parse_exceeded, parse_error, other_json_exception, parse_threw,
  Dumped, dumped, dump_exceeded, dump_threw, RulePipelineResult, fresh_result, Looped, returned,
  went_through, run_rules, rewrite, accounted, account, after_dump, serialize, run_parsed,
  apply_pipeline,
}
use cc_switch_trans.Rules.Pipeline.Runs.{
  IsFailed, IsFine, IsRewritten, all_run, fail_with-IsFailed, Runs, run_rules-Runs, in_use,
}

rewrite-IsRewritten :
    (body text : Text) (memory : Option Lease) (r : RulePipelineResult)
    → IsFine body r
    → IsRewritten body text memory (rewrite r text memory)
unfolding rewrite
rewrite-IsRewritten body text memory r f = record {
  is_ok = f.is_ok;
  no_error = f.no_error;
  modified = refl;
  has_body = refl;
  has_memory = refl;
  original = f.plain.original;
  output = refl;
}

rejected-in_use :
    (m m' : RuntimeMetrics) (n : ℕ)
    → try_acquire m n ≡ (m', none)
    → m'.current_inflight_bytes ≡ m.current_inflight_bytes
unfolding try_acquire try_acquire_inflight
rejected-in_use m m' n h = ground (arith, h)

fresh-IsFine : (body : Text) → IsFine body (fresh_result body)
unfolding fresh_result
fresh-IsFine body = record {
  plain = record {
    unmodified = refl;
    no_memory = refl;
    no_body = refl;
    original = refl;
    output = refl;
  };
  is_ok = refl;
  no_error = refl;
}

started-IsFine : (body : Text) → IsFine body (record (fresh_result body) { parse_count = 1 })
unfolding fresh_result
started-IsFine body = record {
  plain = record {
    unmodified = refl;
    no_memory = refl;
    no_body = refl;
    original = refl;
    output = refl;
  };
  is_ok = refl;
  no_error = refl;
}

module _ {Json : Type 0} where
  -- The ways a run can end: it failed and holds no more memory; it left the body as it is, with no
  -- rules or with none that modified; or it has the rewritten body, the text of what the rules make
  -- of the body, with the memory for it if there is a budget.
  pub Ends :
      List (Option (CompiledRule Json))
      → (Text → Parsed Json)
      → (Json → Dumped)
      → Option RuntimeMetrics
      → Text
      → RulePipelineResult × Option RuntimeMetrics
      → Type 0
  Ends rules parse dump budget body (r, after) =
      (IsFailed body r × (in_use after ≡ in_use budget))
      ⊎ (IsFine body r
          × (after ≡ budget)
          × ((rules ≡ [])
              ⊎ ((j j' : Json) × (parse body ≡ parsed j) × (all_run rules j ≡ some (j', false)))))
      ⊎ ((j j' : Json) × (text : Text) × (memory : Option Lease) × (parse body ≡ parsed j)
          × (all_run rules j ≡ some (j', true))
          × (dump j' ≡ dumped text)
          × IsRewritten body text memory r
          × (((budget ≡ none) × (memory ≡ none) × (after ≡ none))
              ⊎ ((m m' : RuntimeMetrics) × (l : Lease) × (budget ≡ some m)
                  × (try_acquire m (length text) ≡ (m', some l))
                  × (memory ≡ some l)
                  × (after ≡ some m'))))

  after_dump-Ends :
      (rules : List (Option (CompiledRule Json))) (parse : Text → Parsed Json)
      (dump : Json → Dumped) (budget : Option RuntimeMetrics) (body : Text) (j j' : Json)
      (r : RulePipelineResult) (d : Dumped)
      → parse body ≡ parsed j
      → all_run rules j ≡ some (j', true)
      → IsFine body r
      → dump j' ≡ d
      → Ends rules parse dump budget body (after_dump r budget d)
  unfolding Ends account
  after_dump-Ends rules parse dump budget body j j' r dump_exceeded q a f h =
      inl (fail_with-IsFailed body r _ f.plain, refl)
  after_dump-Ends rules parse dump budget body j j' r dump_threw q a f h =
      inl (fail_with-IsFailed body r _ f.plain, refl)
  after_dump-Ends rules parse dump none body j j' r (dumped text) q a f h = inr (
      inr (
        j,
        j',
        text,
        none,
        q,
        a,
        h,
        rewrite-IsRewritten body text none r f,
        inl (refl, refl, refl),
      ))
  after_dump-Ends rules parse dump (some m) body j j' r (dumped text) q a f h =
      taken (try_acquire m (length text)) refl
    where
      taken :
          (t : RuntimeMetrics × Option Lease)
          → try_acquire m (length text) ≡ t
          → Ends rules parse dump (some m) body (accounted r text t)
      taken (m', none) k =
          inl (fail_with-IsFailed body r _ f.plain, rejected-in_use m m' (length text) k)
      taken (m', some l) k = inr (
          inr (
            j,
            j',
            text,
            some l,
            q,
            a,
            h,
            rewrite-IsRewritten body text (some l) r f,
            inr (m, m', l, refl, k, refl, refl),
          ))

  serialize-Ends :
      (rules : List (Option (CompiledRule Json))) (parse : Text → Parsed Json)
      (dump : Json → Dumped) (budget : Option RuntimeMetrics) (body : Text) (j : Json)
      (l : Looped Json)
      → parse body ≡ parsed j
      → Runs body (all_run rules j) false l
      → Ends rules parse dump budget body (serialize dump budget l)
  unfolding Runs serialize Ends
  serialize-Ends rules parse dump budget body j (returned r) q h = inl (h, refl)
  serialize-Ends rules parse dump budget body j (went_through r j' false) q (f, n, e, k) =
      inr (inl (f, refl, inr (j, j', q, e ∙ ap (λ (b : Bool). some (j', b)) (sym k))))
  serialize-Ends rules parse dump budget body j (went_through r j' true) q (f, n, e, k) =
      after_dump-Ends rules parse dump budget body j j' (record r { serialize_count = 1 }) (dump j')
        q (e ∙ ap (λ (b : Bool). some (j', b)) (sym k)) (counted f) refl
    where
      counted : IsFine body r → IsFine body (record r { serialize_count = 1 })
      counted f = record {
        plain = record {
          unmodified = f.plain.unmodified;
          no_memory = f.plain.no_memory;
          no_body = f.plain.no_body;
          original = f.plain.original;
          output = f.plain.output;
        };
        is_ok = f.is_ok;
        no_error = f.no_error;
      }

  run_parsed-Ends :
      (rules : List (Option (CompiledRule Json))) (parse : Text → Parsed Json)
      (dump : Json → Dumped) (budget : Option RuntimeMetrics) (body : Text) (x : Parsed Json)
      → parse body ≡ x
      → Ends rules parse dump budget body
          (run_parsed rules dump budget (record (fresh_result body) { parse_count = 1 }) x)
  unfolding Ends run_parsed
  run_parsed-Ends rules parse dump budget body (parsed j) q =
      serialize-Ends rules parse dump budget body j
        (run_rules (record (fresh_result body) { parse_count = 1 }) rules j false) q
        (run_rules-Runs body (record (fresh_result body) { parse_count = 1 }) rules j false
          (started-IsFine body))
  run_parsed-Ends rules parse dump budget body parse_exceeded q =
      inl (fail_with-IsFailed body _ _ (started-IsFine body).plain, refl)
  run_parsed-Ends rules parse dump budget body parse_error q =
      inl (fail_with-IsFailed body _ _ (started-IsFine body).plain, refl)
  run_parsed-Ends rules parse dump budget body other_json_exception q =
      inl (fail_with-IsFailed body _ _ (started-IsFine body).plain, refl)
  run_parsed-Ends rules parse dump budget body parse_threw q =
      inl (fail_with-IsFailed body _ _ (started-IsFine body).plain, refl)

  -- However a run ends, it has failed and carries an error, the size of the body as it came, and no
  -- rewritten body; or every rule ran, in order, and the rewritten body is there exactly if some
  -- rule modified: it is the text of what the last rule left, its size is reported, and its memory
  -- was taken from the budget. A run that fails leaves the bytes in use as they are.
  pub apply_pipeline-Ends :
      (rules : List (Option (CompiledRule Json))) (parse : Text → Parsed Json)
      (dump : Json → Dumped) (budget : Option RuntimeMetrics) (body : Text)
      → Ends rules parse dump budget body (apply_pipeline rules parse dump budget body)
  unfolding apply_pipeline Ends
  apply_pipeline-Ends [] parse dump budget body = inr (inl (fresh-IsFine body, refl, inl refl))
  apply_pipeline-Ends (rule ∷ rules) parse dump budget body =
      run_parsed-Ends (rule ∷ rules) parse dump budget body (parse body) refl
