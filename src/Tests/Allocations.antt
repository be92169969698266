-- ===== src/Tests/Allocations.antt =====
-- Three allocations of a rule's run, one without memory, and one block freed, while others hold
-- 60 of a budget of 100 bytes (src/rules/rule_json.hpp).
use cc_switch_trans.Common.{List, [], ◌∷◌, true, false, arith}
use cc_switch_trans.Core.Budget.{RuntimeMetrics, new_metrics}
use cc_switch_trans.Rules.Allocations.{new_context, Request, allocates, deallocates, run}
use cc_switch_trans.Rules.Allocations.Balance.{IsBalanced, fresh_arena, run-IsBalanced}

abbrev shared : RuntimeMetrics
shared = record new_metrics {
  inflight_budget_bytes = 100;
  current_inflight_bytes = 60;
  peak_inflight_bytes = 80;
}

abbrev requests : List Request
requests =
    allocates 1 30 true
    ∷ allocates 8 1 false
    ∷ allocates 1 11 true
    ∷ allocates 4 2 true
    ∷ deallocates 1
    ∷ []

run-IsBalanced_example : IsBalanced 100 60 (run (fresh_arena (new_context shared)) requests)
run-IsBalanced_example = run-IsBalanced shared requests (record {
  bounded = omega arith;
  peak_reached = omega arith;
  peak_bounded = omega arith;
  word = omega arith;
})
