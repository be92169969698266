-- ===== src/App/ControlExecutor/Keys.antt =====
-- The coalescing keys of src/app/control_executor.cpp: they are those of the tasks that wait or run.

use cc_switch_trans.Common.{
  ℕ, suc, ◌≤◌, ◌<◌, ◌≡◌, refl, sym, ap, ◌∙◌, subst, ◌⊎◌, inl, inr, true, false, ◌||◌, Option, none,
  some, List, [], ◌∷◌, ◌++◌, Text, text_eq, text_eq_iff, length, empty?, if◌then◌else◌, arith,
  length-append, Bool-cases,
}
use mathlib.Core.List.{append-nil, append_assoc}
use cc_switch_trans.App.ControlExecutor.{
  Task, ControlExecutor, contains, erase, enqueue, post, post_coalesced, stop, take_task,
  finish_task, work,
}

-- The calls that clients and the worker make.
pub data Call : Type 0 where
  posts : Option ℕ → Call
  posts_coalesced : Text → Option ℕ → Call
  stops works : Call

unfoldable pub step : ControlExecutor → Call → ControlExecutor
step x (posts task) = (post x task).0
step x (posts_coalesced key task) = (post_coalesced x key task).0
step x stops = stop x
step x works = work x

unfoldable pub run : ControlExecutor → List Call → ControlExecutor
run x [] = x
run x (c ∷ cs) = run (step x c) cs

abbrev pub running_list : Option Task → List Task
running_list none = []
running_list (some task) = task ∷ []

-- The tasks that are not finished, the running one first.
abbrev pub outstanding : ControlExecutor → List Task
outstanding x = running_list x.running ++ x.tasks

-- The keys that are not empty.
abbrev pub named : List Task → List Text
named [] = []
named (task ∷ tasks) =
    let rest = named tasks in
    if empty? task.coalescing_key then rest else task.coalescing_key ∷ rest

abbrev pub Distinct : List Text → Type 0
Distinct [] = Unit {0}
Distinct (k ∷ ks) = (contains k ks ≡ false) × Distinct ks

pub record IsSound (x : ControlExecutor) : Type 0 where
  pub keys : x.coalescing_keys ≡ named (outstanding x)
  pub distinct : Distinct x.coalescing_keys
  pub bounded : length x.tasks ≤ x.capacity
  pub peak : length x.tasks ≤ x.peak_pending
  pub peak_bounded : x.peak_pending ≤ x.capacity

named-append : (is js : List Task) → named (is ++ js) ≡ named is ++ named js
named-append [] js = refl
named-append (i ∷ is) js = ground (arith, named-append is js)

contains-append :
    (k j : Text) (ks : List Text) → contains k (ks ++ j ∷ []) ≡ (contains k ks || text_eq k j)
unfolding contains
contains-append k j [] = ground arith
contains-append k j (i ∷ ks) = ground (arith, contains-append k j ks)

text_eq_sym : (a b : Text) → text_eq a b ≡ text_eq b a
text_eq_sym a b = ground (arith, text_eq_iff a b, text_eq_iff b a)

Distinct-append :
    (ks : List Text) (j : Text) → Distinct ks → contains j ks ≡ false → Distinct (ks ++ j ∷ [])
unfolding contains
Distinct-append [] j d n = (refl, tt)
Distinct-append (k ∷ ks) j (h, d) n = (
  contains-append k j ks ∙ ground (arith, h, n, text_eq_sym k j),
  Distinct-append ks j d (ground (arith, n)),
)

erase-absent : (k : Text) (ks : List Text) → contains k ks ≡ false → erase k ks ≡ ks
unfolding contains erase
erase-absent k [] n = refl
erase-absent k (j ∷ ks) n = ground (arith, n, erase-absent k ks)

erase-head : (k : Text) (ks : List Text) → contains k ks ≡ false → erase k (k ∷ ks) ≡ ks
unfolding erase
erase-head k ks n = ground (arith, erase-absent k ks n, text_eq_iff k k)

-- Only these fields matter to the invariant.
pub record Alike (x y : ControlExecutor) : Type 0 where
  pub tasks : y.tasks ≡ x.tasks
  pub keys : y.coalescing_keys ≡ x.coalescing_keys
  pub running : y.running ≡ x.running
  pub peak : y.peak_pending ≡ x.peak_pending
  pub capacity : y.capacity ≡ x.capacity

pub Alike-IsSound : (x y : ControlExecutor) → Alike x y → IsSound x → IsSound y
Alike-IsSound x y a v = record {
  keys = a.keys ∙ v.keys ∙ ap named (sym (outstanding_alike));
  distinct = subst Distinct (sym a.keys) v.distinct;
  bounded = rw (a.tasks, a.capacity) v.bounded;
  peak = rw (a.tasks, a.peak) v.peak;
  peak_bounded = rw (a.peak, a.capacity) v.peak_bounded;
}
  where
    outstanding_alike : outstanding y ≡ outstanding x
    outstanding_alike = rw (a.tasks, a.running) refl

pub enqueue-IsSound :
    (x : ControlExecutor) (task : Task)
    → IsSound x
    → length x.tasks < x.capacity
    → (empty? task.coalescing_key ≡ true) ⊎ (contains task.coalescing_key x.coalescing_keys ≡ false)
    → IsSound (enqueue x task)
unfolding enqueue
enqueue-IsSound x task v room free = record {
  keys = keys;
  distinct = distinct;
  bounded = omega (arith, room, length-append x.tasks (task ∷ []));
  peak = omega (arith, length-append x.tasks (task ∷ []));
  peak_bounded = omega (arith, room, v.peak_bounded, length-append x.tasks (task ∷ []));
}
  where
    keys : (enqueue x task).coalescing_keys ≡ named (outstanding (enqueue x task))
    keys =
        rw
          (
            ← append_assoc (running_list x.running) x.tasks (task ∷ []),
            named-append (outstanding x) (task ∷ []),
          )
          (elim (Bool-cases (empty? task.coalescing_key)) [
            | inl b ↦ rw (b, append-nil) v.keys
            | inr b ↦ rw b (ap (λ (ks : List Text). ks ++ task.coalescing_key ∷ []) v.keys)
          ])

    distinct : Distinct (enqueue x task).coalescing_keys
    distinct = elim (Bool-cases (empty? task.coalescing_key)) [
      | inl b ↦ rw b v.distinct
      | inr b ↦ rw b (
          Distinct-append x.coalescing_keys task.coalescing_key v.distinct
            (ground (arith, free, b)))
    ]

pub take_task-IsSound :
    (x : ControlExecutor) (ts : List Task)
    → x.tasks ≡ ts
    → x.running ≡ none
    → IsSound x
    → IsSound (take_task x)
unfolding take_task
take_task-IsSound x [] e r v = Alike-IsSound x (take_task x) (ground (arith, e)) v
take_task-IsSound x (t ∷ ts) e r v =
    let out : outstanding x ≡ t ∷ ts = rw (r, e) refl in
    let size : length x.tasks ≡ suc (length ts) = rw e refl in
    rw (e, take_task)
      (record {
        keys = v.keys ∙ ap named out;
        distinct = v.distinct;
        bounded = omega (arith, v.bounded, size);
        peak = omega (arith, v.peak, size);
        peak_bounded = v.peak_bounded;
      })

pub finish_task-IsSound :
    (x : ControlExecutor) (task : Task)
    → x.running ≡ some task
    → IsSound x
    → IsSound (finish_task x task)
unfolding finish_task
finish_task-IsSound x task r v =
    let out : outstanding x ≡ task ∷ x.tasks = rw r refl in
    let all = v.keys ∙ ap named out in
    elim (Bool-cases (empty? task.coalescing_key)) [
      | inl b ↦ record {
        keys = ground (arith, all, b);
        distinct = ground (arith, v.distinct, b);
        bounded = v.bounded;
        peak = v.peak;
        peak_bounded = v.peak_bounded;
      }
      | inr b ↦
          (let head : x.coalescing_keys ≡ task.coalescing_key ∷ named x.tasks =
              ground (arith, all, b) in
            let apart : Distinct (task.coalescing_key ∷ named x.tasks) =
              subst Distinct head v.distinct in
            let erased : erase task.coalescing_key x.coalescing_keys ≡ named x.tasks =
              rw head (erase-head task.coalescing_key (named x.tasks) apart.0) in
            record {
              keys = rw b erased;
              distinct = rw b (subst Distinct (sym erased) apart.1);
              bounded = v.bounded;
              peak = v.peak;
              peak_bounded = v.peak_bounded;
            })
    ]
