-- ===== src/App/ControlExecutor/Order.antt =====
-- The order in which the worker of src/app/control_executor.cpp takes tasks, and that it drains them
-- after a stop.
use mathlib.Core.List.{append-nil, append_assoc}
use cc_switch_trans.Common.{
  ℕ, zero, suc, ◌+◌, ◌*◌, ◌≤◌, ◌≡◌, refl, sym, ap, ◌∙◌, inl, inr, true, false, not, ◌&&◌, ◌||◌,
  Option, none, some, List, [], ◌∷◌, ◌++◌, Text, length, empty?, leb, if◌then◌else◌, arith,
  Option-cases,
}
use cc_switch_trans.App.ControlExecutor.{
  Task, ControlExecutor, contains, reject, enqueue, post_impl, post, post_coalesced, stop,
  take_task, finish_task, work_on, work,
}
use cc_switch_trans.App.ControlExecutor.Keys.{
  Call, posts, posts_coalesced, stops, works, step, run, running_list, outstanding,
}

-- The task that a post brings in: none if the executor is stopping, has a task under the key, or is
-- full.
unfoldable pub admitted : ControlExecutor → Text → Option ℕ → List Task
admitted x key none = []
admitted x key (some callback) =
    if x.stopping
      || (not (empty? key) && contains key x.coalescing_keys)
      || leb x.capacity (length x.tasks)
    then []
    else record { callback = callback; coalescing_key = key } ∷ []

unfoldable pub admits : ControlExecutor → Call → List Task
admits x (posts task) = admitted x [] task
admits x (posts_coalesced key task) = if empty? key then [] else admitted x key task
admits x stops = []
admits x works = []

-- The task whose callback the worker runs before this call: it is at it, and finishes it.
abbrev pub finished : ControlExecutor → Call → List Task
finished x works = running_list x.running
finished x (posts task) = []
finished x (posts_coalesced key task) = []
finished x stops = []

unfoldable pub all_admitted : ControlExecutor → List Call → List Task
all_admitted x [] = []
all_admitted x (c ∷ cs) = admits x c ++ all_admitted (step x c) cs

-- The tasks that the worker has run to their end, in order.
unfoldable pub all_finished : ControlExecutor → List Call → List Task
all_finished x [] = []
all_finished x (c ∷ cs) = finished x c ++ all_finished (step x c) cs

post_impl_order :
    (x : ControlExecutor) (key : Text) (task : Option ℕ)
    → outstanding (post_impl x key task).0 ≡ outstanding x ++ admitted x key task
unfolding post_impl admitted reject enqueue
post_impl_order x key none = sym (append-nil (outstanding x))
post_impl_order x key (some callback) = ground (
  arith,
  append-nil (outstanding x),
  append_assoc (running_list x.running) x.tasks
      (record { callback = callback; coalescing_key = key } ∷ []),
)

post_coalesced_order :
    (x : ControlExecutor) (key : Text) (task : Option ℕ)
    → outstanding (post_coalesced x key task).0
      ≡ outstanding x ++ (if empty? key then [] else admitted x key task)
unfolding post_coalesced
post_coalesced_order x key task =
    ground (arith, append-nil (outstanding x), post_impl_order x key task)

-- A critical section of the worker takes the first task, which it is at from then on, or it is done
-- with the task that it was at.
work_order : (x : ControlExecutor) → finished x works ++ outstanding (work x) ≡ outstanding x
unfolding work work_on take_task finish_task
work_order x = ground arith

step_order :
    (x : ControlExecutor) (c : Call)
    → finished x c ++ outstanding (step x c) ≡ outstanding x ++ admits x c
unfolding step admits post stop
step_order x (posts task) = post_impl_order x [] task
step_order x (posts_coalesced key task) = post_coalesced_order x key task
step_order x stops = sym (append-nil (outstanding x))
step_order x works = work_order x ∙ sym (append-nil (outstanding x))

-- Through any calls, the tasks that the worker has run to their end, followed by the one that it is
-- at and those that still wait, are the one that it was at and those that waited at first, followed
-- by those that were admitted: each once, and in that order.
pub run_order :
    (x : ControlExecutor) (cs : List Call)
    → all_finished x cs ++ outstanding (run x cs) ≡ outstanding x ++ all_admitted x cs
unfolding all_finished all_admitted run
run_order x [] = sym (append-nil (outstanding x))
run_order x (c ∷ cs) =
    append_assoc (finished x c) (all_finished (step x c) cs) (outstanding (run (step x c) cs))
    ∙ ap (λ (ts : List Task). finished x c ++ ts) (run_order (step x c) cs)
    ∙ sym (append_assoc (finished x c) (outstanding (step x c)) (all_admitted (step x c) cs))
    ∙ ap (λ (ts : List Task). ts ++ all_admitted (step x c) cs) (step_order x c)
    ∙ append_assoc (outstanding x) (admits x c) (all_admitted (step x c) cs)

-- The worker's next `n` critical sections.
unfoldable pub rounds : ℕ → ControlExecutor → ControlExecutor
rounds zero x = x
rounds (suc n) x = rounds n (work x)

-- The tasks that the worker runs to their end in these.
unfoldable pub finished_in : ℕ → ControlExecutor → List Task
finished_in zero x = []
finished_in (suc n) x = finished x works ++ finished_in n (work x)

rounds_order :
    (n : ℕ) (x : ControlExecutor) → finished_in n x ++ outstanding (rounds n x) ≡ outstanding x
unfolding rounds finished_in
rounds_order zero x = refl
rounds_order (suc n) x =
    append_assoc (finished x works) (finished_in n (work x)) (outstanding (rounds n (work x)))
    ∙ ap (λ (ts : List Task). finished x works ++ ts) (rounds_order n (work x))
    ∙ work_order x

-- What a worker that ran `done` and its state `x` come to, if `owed` is what was to be run.
pub record RunsOut (owed done : List Task) (x : ControlExecutor) : Type 0 where
  pub returned : x.returned ≡ true
  pub no_tasks : x.tasks ≡ []
  pub idle : x.running ≡ none
  pub all_run : done ≡ owed

record IsDrained (x : ControlExecutor) : Type 0 where
  pub returned : x.returned ≡ true
  pub no_tasks : x.tasks ≡ []
  pub idle : x.running ≡ none

IsDrained-work : (x : ControlExecutor) → IsDrained x → IsDrained (work x)
unfolding work work_on
IsDrained-work x d = record {
  returned = ground (arith, d.returned, d.idle);
  no_tasks = ground (arith, d.returned, d.idle, d.no_tasks);
  idle = ground (arith, d.returned, d.idle);
}

IsDrained-rounds : (n : ℕ) (x : ControlExecutor) → IsDrained x → IsDrained (rounds n x)
unfolding rounds
IsDrained-rounds zero x d = d
IsDrained-rounds (suc n) x d = IsDrained-rounds n (work x) (IsDrained-work x d)

-- The end of the loop: nothing waits.
work-returns :
    (x : ControlExecutor)
    → x.tasks ≡ []
    → x.running ≡ none
    → x.stopping ≡ true
    → x.returned ≡ false
    → IsDrained (work x)
unfolding work work_on take_task
work-returns x e r s n = record {
  returned = ground (arith, e, r, s, n);
  no_tasks = ground (arith, e, r, s, n);
  idle = ground (arith, e, r, s, n);
}

-- A critical section that takes a task, and one that finishes it.
record Took (x : ControlExecutor) (t : Task) (ts : List Task) : Type 0 where
  tasks : (work x).tasks ≡ ts
  running : (work x).running ≡ some t
  stopping : (work x).stopping ≡ x.stopping
  returned : (work x).returned ≡ false

work-Took :
    (x : ControlExecutor) (t : Task) (ts : List Task)
    → x.tasks ≡ t ∷ ts
    → x.running ≡ none
    → x.returned ≡ false
    → Took x t ts
unfolding work work_on take_task
work-Took x t ts e r n = record {
  tasks = ground (arith, e, r, n);
  running = ground (arith, e, r, n);
  stopping = ground (arith, e, r, n);
  returned = ground (arith, e, r, n);
}

record Finished (x : ControlExecutor) : Type 0 where
  tasks : (work x).tasks ≡ x.tasks
  running : (work x).running ≡ none
  stopping : (work x).stopping ≡ x.stopping
  returned : (work x).returned ≡ x.returned

work-Finished : (x : ControlExecutor) (t : Task) → x.running ≡ some t → Finished x
unfolding work work_on finish_task
work-Finished x t r = record {
  tasks = ground (arith, r);
  running = ground (arith, r);
  stopping = ground (arith, r);
  returned = ground (arith, r);
}

drain_idle :
    (n : ℕ) (ts : List Task) (x : ControlExecutor)
    → 2 * length ts + 1 ≤ n
    → x.tasks ≡ ts
    → x.running ≡ none
    → x.stopping ≡ true
    → x.returned ≡ false
    → IsDrained (rounds n x)
unfolding rounds
drain_idle zero ts x f e r s n = absurd (omega arith)
drain_idle (suc m) [] x f e r s n = IsDrained-rounds m (work x) (work-returns x e r s n)
drain_idle (suc zero) (t ∷ ts) x f e r s n = absurd (omega arith)
drain_idle (suc (suc m)) (t ∷ ts) x f e r s n =
    let a = work-Took x t ts e r n in
    let b = work-Finished (work x) t a.running in
    drain_idle m ts (work (work x)) (omega arith) (b.tasks ∙ a.tasks) b.running
      (b.stopping ∙ a.stopping ∙ s) (b.returned ∙ a.returned)

rounds-IsDrained :
    (n : ℕ) (x : ControlExecutor)
    → 2 * length x.tasks + 2 ≤ n
    → x.stopping ≡ true
    → x.returned ≡ false
    → IsDrained (rounds n x)
unfolding rounds
rounds-IsDrained zero x f s r = absurd (omega arith)
rounds-IsDrained (suc n) x f s r = elim (Option-cases x.running) [
  | inl e ↦ drain_idle (suc n) x.tasks x (omega arith) refl e s r
  | inr (t, e) ↦
      (let b = work-Finished x t e in
        drain_idle n x.tasks (work x) (omega arith) b.tasks b.running (b.stopping ∙ s)
          (b.returned ∙ r))
]

-- An executor that was stopped, with no further calls by clients and callbacks that return, runs out
-- of work: in two critical sections of the worker for each task that waits and two more, the worker
-- has run the task that it was at and then every task that waited, each once and in their order, its
-- loop has returned, no task waits and none runs.
pub rounds-RunsOut :
    (n : ℕ) (x : ControlExecutor)
    → 2 * length x.tasks + 2 ≤ n
    → x.stopping ≡ true
    → x.returned ≡ false
    → RunsOut (running_list x.running ++ x.tasks) (finished_in n x) (rounds n x)
rounds-RunsOut n x f s r =
    let d = rounds-IsDrained n x f s r in
    let nothing : outstanding (rounds n x) ≡ [] = ground (arith, d.idle, d.no_tasks) in
    record {
      returned = d.returned;
      no_tasks = d.no_tasks;
      idle = d.idle;
      all_run =
          sym (append-nil (finished_in n x))
          ∙ ap (λ (ts : List Task). finished_in n x ++ ts) (sym nothing)
          ∙ rounds_order n x;
    }
