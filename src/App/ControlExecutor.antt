-- ===== src/App/ControlExecutor.antt =====
-- src/app/control_executor.cpp, with its counters of src/core/runtime_metrics.cpp: a bounded queue of
-- control tasks and the worker that runs them. A critical section is one step. A callback stands by
-- a number; what it does is not modelled, and a callback that throws ends like any other.
pub mod Keys
pub mod Runs
pub mod Order
use Prim.Native.Nat.{max}
use cc_switch_trans.Common.{
  ℕ, ◌+◌, Bool, true, false, not, ◌&&◌, Option, none, some, List, [], ◌∷◌, ◌++◌, Text, text_eq,
  length, empty?, any, leb, ◌==◌, if◌then◌else◌,
}

pub record Task : Type 0 where
  pub callback : ℕ
  pub coalescing_key : Text

pub record ControlMetrics : Type 0 where
  pub current_control_tasks : ℕ
  pub peak_control_tasks : ℕ
  pub control_tasks_rejected : ℕ
  pub control_tasks_coalesced : ℕ

-- `running` is the worker's task between its two critical sections, and `running_task_` is whether
-- there is one; `returned` says that the worker's loop has ended. The set of keys is a list.
pub record ControlExecutor : Type 0 where
  pub capacity : ℕ
  pub metrics : Option ControlMetrics
  pub tasks : List Task
  pub coalescing_keys : List Text
  pub peak_pending : ℕ
  pub rejected : ℕ
  pub coalesced : ℕ
  pub running : Option Task
  pub stopping : Bool
  pub returned : Bool

-- The constructor; `none` where `require_capacity` throws.
unfoldable pub new_executor : ℕ → Option ControlMetrics → Option ControlExecutor
new_executor capacity metrics =
    if capacity == 0
    then none
    else some (record {
      capacity = capacity;
      metrics = metrics;
      tasks = [];
      coalescing_keys = [];
      peak_pending = 0;
      rejected = 0;
      coalesced = 0;
      running = none;
      stopping = false;
      returned = false;
    })

-- A call of a counter where `metrics_` is not null.
abbrev count : (ControlMetrics → ControlMetrics) → Option ControlMetrics → Option ControlMetrics
count f none = none
count f (some m) = some (f m)

control_task_queued : ℕ → ControlMetrics → ControlMetrics
control_task_queued current m = record m {
  current_control_tasks = current;
  peak_control_tasks = max m.peak_control_tasks current;
}

control_task_finished : ℕ → ControlMetrics → ControlMetrics
control_task_finished current m = record m { current_control_tasks = current }

control_task_rejected : ControlMetrics → ControlMetrics
control_task_rejected m = record m { control_tasks_rejected = m.control_tasks_rejected + 1 }

control_task_coalesced : ControlMetrics → ControlMetrics
control_task_coalesced m = record m { control_tasks_coalesced = m.control_tasks_coalesced + 1 }

-- coalescing_keys_.count(key) != 0
pub contains : Text → List Text → Bool
contains key = any (text_eq key)

-- coalescing_keys_.erase(key)
pub erase : Text → List Text → List Text
erase key [] = []
erase key (k ∷ ks) = let rest = erase key ks in if text_eq key k then rest else k ∷ rest

reject : ControlExecutor → ControlExecutor × Bool
reject x =
    (record x { rejected = x.rejected + 1; metrics = count control_task_rejected x.metrics }, false)

abbrev in_progress : Option Task → ℕ
in_progress none = 0
in_progress (some task) = 1

-- The end of `post_impl`; a key that is inserted is not in the set.
pub enqueue : ControlExecutor → Task → ControlExecutor
enqueue x task =
    let tasks = x.tasks ++ task ∷ [] in
    record x {
      tasks = tasks;
      coalescing_keys =
          if empty? task.coalescing_key
          then x.coalescing_keys
          else x.coalescing_keys ++ task.coalescing_key ∷ [];
      peak_pending = max x.peak_pending (length tasks);
      metrics = count (control_task_queued (length tasks + in_progress x.running)) x.metrics;
    }

-- `none` is a null function.
pub post_impl : ControlExecutor → Text → Option ℕ → ControlExecutor × Bool
post_impl x key none = (x, false)
post_impl x key (some callback) =
    if x.stopping
    then reject x
    else if not (empty? key) && contains key x.coalescing_keys
    then (
      record x { coalesced = x.coalesced + 1; metrics = count control_task_coalesced x.metrics },
      true,
    )
    else if leb x.capacity (length x.tasks)
    then reject x
    else (enqueue x (record { callback = callback; coalescing_key = key }), true)

pub post : ControlExecutor → Option ℕ → ControlExecutor × Bool
post x task = post_impl x [] task

pub post_coalesced : ControlExecutor → Text → Option ℕ → ControlExecutor × Bool
post_coalesced x key task = if empty? key then (x, false) else post_impl x key task

-- The worker is not joined here: that is the worker's `returned`.
pub stop : ControlExecutor → ControlExecutor
stop x = record x { stopping = true }

-- The first critical section of a round of `run`, once its wait has ended.
pub take_task : ControlExecutor → ControlExecutor
take_task x = elim x.tasks [
  | [] ↦ if x.stopping then record x { returned = true } else x
  | task ∷ tasks ↦ record x {
    tasks = tasks;
    running = some task;
    metrics = count (control_task_queued (length tasks + 1)) x.metrics;
  }
]

-- The second, behind the callback.
pub finish_task : ControlExecutor → Task → ControlExecutor
finish_task x task = record x {
  coalescing_keys =
      if empty? task.coalescing_key
      then x.coalescing_keys
      else erase task.coalescing_key x.coalescing_keys;
  running = none;
  metrics = count (control_task_finished (length x.tasks)) x.metrics;
}

-- The worker's next critical section, by the task that it is at.
pub work_on : ControlExecutor → Option Task → ControlExecutor
work_on x (some task) = finish_task x task
work_on x none = if x.returned then x else take_task x

pub work : ControlExecutor → ControlExecutor
work x = work_on x x.running
