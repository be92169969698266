-- ===== src/App/ControlExecutor/Runs.antt =====
-- Sequences of calls on src/app/control_executor.cpp.
use cc_switch_trans.Common.{
  ℕ, ◌<◌, ◌≡◌, refl, ap, ◌⊎◌, inl, inr, true, false, not, ◌&&◌, Option, none, some, List, [], ◌∷◌,
  Text, length, empty?, leb, if◌then◌else◌, arith, Bool-cases, Option-cases,
}
use cc_switch_trans.App.ControlExecutor.{
  Task, ControlMetrics, ControlExecutor, new_executor, contains, reject, enqueue, post_impl, post,
  post_coalesced, stop, take_task, finish_task, work_on, work,
}
use cc_switch_trans.App.ControlExecutor.Keys.{
  Call, posts, posts_coalesced, stops, works, step, run, IsSound, Alike, Alike-IsSound,
  enqueue-IsSound, take_task-IsSound, finish_task-IsSound,
}

-- What a post leads to, whatever must hold of each case.
post_impl-cases :
    (P : ControlExecutor → Type 0) (x : ControlExecutor) (key : Text) (callback : ℕ)
    → ((y : ControlExecutor) → Alike x y → P y)
    → (length x.tasks < x.capacity
        → (empty? key ≡ true) ⊎ (contains key x.coalescing_keys ≡ false)
        → P (enqueue x (record { callback = callback; coalescing_key = key })))
    → P (post_impl x key (some callback)).0
unfolding post_impl reject
post_impl-cases P x key callback same new = elim (Bool-cases x.stopping) [
  | inl s ↦
      simp s (
        same _ (record { tasks = refl; keys = refl; running = refl; peak = refl; capacity = refl }))
  | inr s ↦ elim (Bool-cases (not (empty? key) && contains key x.coalescing_keys)) [
    | inl c ↦
        simp (s, c)
          (same _
            (record { tasks = refl; keys = refl; running = refl; peak = refl; capacity = refl }))
    | inr c ↦ elim (Bool-cases (leb x.capacity (length x.tasks))) [
      | inl f ↦
          simp (s, c, f)
            (same _
              (record { tasks = refl; keys = refl; running = refl; peak = refl; capacity = refl }))
      | inr f ↦ simp (s, c, f) (new (ground (arith, f)) (ground (arith, c)))
    ]
  ]
]

post_impl-IsSound :
    (x : ControlExecutor) (key : Text) (task : Option ℕ)
    → IsSound x
    → IsSound (post_impl x key task).0
unfolding post_impl
post_impl-IsSound x key none v = v
post_impl-IsSound x key (some callback) v =
    post_impl-cases IsSound x key callback (λ y a. Alike-IsSound x y a v)
      (λ room free.
        enqueue-IsSound x (record { callback = callback; coalescing_key = key }) v room free)

post_coalesced-IsSound :
    (x : ControlExecutor) (key : Text) (task : Option ℕ)
    → IsSound x
    → IsSound (post_coalesced x key task).0
unfolding post_coalesced
post_coalesced-IsSound x key task v = elim (Bool-cases (empty? key)) [
  | inl e ↦ rw e v
  | inr n ↦ rw n (post_impl-IsSound x key task v)
]

work_idle :
    (x : ControlExecutor) → x.running ≡ none → work x ≡ (if x.returned then x else take_task x)
unfolding work work_on
work_idle x e = ap (work_on x) e

work_busy :
    (x : ControlExecutor) (task : Task) → x.running ≡ some task → work x ≡ finish_task x task
unfolding work work_on
work_busy x task e = ap (work_on x) e

work-IsSound : (x : ControlExecutor) → IsSound x → IsSound (work x)
work-IsSound x v = elim (Option-cases x.running) [
  | inl n ↦ rw (work_idle x n) (elim (Bool-cases x.returned) [
    | inl r ↦ simp r v
    | inr r ↦ simp r (take_task-IsSound x x.tasks refl n v)
  ])
  | inr (task, e) ↦ rw (work_busy x task e) (finish_task-IsSound x task e v)
]

step-IsSound : (x : ControlExecutor) (c : Call) → IsSound x → IsSound (step x c)
unfolding step post stop
step-IsSound x (posts task) v = post_impl-IsSound x [] task v
step-IsSound x (posts_coalesced key task) v = post_coalesced-IsSound x key task v
step-IsSound x stops v =
    Alike-IsSound x (stop x)
      (record { tasks = refl; keys = refl; running = refl; peak = refl; capacity = refl }) v
step-IsSound x works v = work-IsSound x v

steps-IsSound : (x : ControlExecutor) (cs : List Call) → IsSound x → IsSound (run x cs)
unfolding run
steps-IsSound x [] v = v
steps-IsSound x (c ∷ cs) v = steps-IsSound (step x c) cs (step-IsSound x c v)

new_executor-IsSound :
    (capacity : ℕ) (metrics : Option ControlMetrics) (x : ControlExecutor)
    → new_executor capacity metrics ≡ some x
    → IsSound x
unfolding new_executor
new_executor-IsSound capacity metrics x h = record {
  keys = ground (arith, h);
  distinct = ground (arith, h);
  bounded = ground (arith, h);
  peak = ground (arith, h);
  peak_bounded = ground (arith, h);
}

-- Whatever calls clients and the worker make on a new executor: the set of coalescing keys is, in
-- order, that of the tasks that run or wait, without the empty keys and without a repetition, so that
-- no key stands at two tasks; and no more tasks wait than the capacity, with the peak between the two.
pub run-IsSound :
    (capacity : ℕ) (metrics : Option ControlMetrics) (x : ControlExecutor) (cs : List Call)
    → new_executor capacity metrics ≡ some x
    → IsSound (run x cs)
run-IsSound capacity metrics x cs h = steps-IsSound x cs (new_executor-IsSound capacity metrics x h)
