-- ===== src/Tests/Budget.antt =====
-- A budget of 100 bytes and three parts that share it (src/core/inflight_memory_budget.cpp).
use cc_switch_trans.Common.{refl, List, [], ◌∷◌, arith}
use cc_switch_trans.Core.Budget.{
  RuntimeMetrics, new_metrics, Call, acquires, grows, shrinks, assigns, resets, run, new_budget,
  configure_inflight_budget,
}
use cc_switch_trans.Core.Budget.Accounts.{Accounts, start, run-Accounts}

abbrev metrics : RuntimeMetrics
metrics = record new_metrics { inflight_budget_bytes = 100 }

abbrev calls : List Call
calls = acquires 60 ∷ acquires 30 ∷ grows 0 20 ∷ shrinks 0 10 ∷ assigns 0 1 ∷ resets 0 ∷ []

run-Accounts_example : Accounts 100 (run (start metrics) calls)
unfolding new_budget configure_inflight_budget
run-Accounts_example = run-Accounts metrics 100 calls (omega arith) refl
