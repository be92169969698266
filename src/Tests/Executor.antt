-- ===== src/Tests/Executor.antt =====
-- An executor of two places with a client that posts, stops and a worker (src/app/control_executor.cpp).
use cc_switch_trans.Common.{◌≡◌, refl, ◌∷◌, ◌++◌, [], List, none, some, true, false, codes, arith}
use cc_switch_trans.App.ControlExecutor.{ControlExecutor, new_executor}
use cc_switch_trans.App.ControlExecutor.Keys.{
  Call, posts, posts_coalesced, stops, works, run, IsSound, outstanding,
}
use cc_switch_trans.App.ControlExecutor.Runs.{run-IsSound}
use cc_switch_trans.App.ControlExecutor.Order.{
  all_finished, all_admitted, run_order, rounds, finished_in, RunsOut, rounds-RunsOut,
}

abbrev idle : ControlExecutor
idle = record {
  capacity = 2;
  metrics = some (record {
    current_control_tasks = 0;
    peak_control_tasks = 0;
    control_tasks_rejected = 0;
    control_tasks_coalesced = 0;
  });
  tasks = [];
  coalescing_keys = [];
  peak_pending = 0;
  rejected = 0;
  coalesced = 0;
  running = none;
  stopping = false;
  returned = false;
}

abbrev calls : List Call
calls =
    posts_coalesced (codes "reload") (some 1)
    ∷ posts_coalesced (codes "reload") (some 2)
    ∷ works
    ∷ posts (some 3)
    ∷ works
    ∷ posts_coalesced (codes "reload") (some 4)
    ∷ stops
    ∷ posts (some 5)
    ∷ []

run-IsSound_example : IsSound (run idle calls)
unfolding new_executor
run-IsSound_example = run-IsSound 2 idle.metrics idle calls refl

run_order_example :
    all_finished idle calls ++ outstanding (run idle calls) ≡ [] ++ all_admitted idle calls
run_order_example = run_order idle calls

abbrev stopped : ControlExecutor
stopped = record idle { tasks = record { callback = 3; coalescing_key = [] } ∷ []; stopping = true }

rounds-RunsOut_example :
    RunsOut
      (record { callback = 3; coalescing_key = [] } ∷ [])
      (finished_in 4 stopped)
      (rounds 4 stopped)
rounds-RunsOut_example = rounds-RunsOut 4 stopped (omega arith) refl refl
