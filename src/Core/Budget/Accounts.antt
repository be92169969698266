-- ===== src/Core/Budget/Accounts.antt =====
-- The accounting of src/core/inflight_memory_budget.cpp: the counter is what the leases hold, and
-- never more than the budget.

use cc_switch_trans.Common.{
  ℕ, ◌+◌, ◌≤◌, ◌<◌, ◌≡◌, ◌≢◌, ◌↔◌, refl, sym, ◌∙◌, inl, inr, true, false, Option, none, some, List,
  [], ◌∷◌, get_elem?, set, get_elem?-set_other, ◌==◌, arith, Option-cases, Bool-cases,
}
use cc_switch_trans.Core.Budget.Leases.{
  held, InBudget, IsValid, Moves, try_grow-Moves, shrink-Moves, reset-Moves, reset-empty, held-set,
  held_within, held-append, set-IsClean, get_elem?-IsClean, append-IsClean,
}
use cc_switch_trans.Core.Budget.{
  u64_mod, RuntimeMetrics, new_metrics, Lease, empty_lease, try_acquire_inflight, try_grow, shrink,
  reset, new_budget, configure_inflight_budget, try_acquire, Process, Call, acquires, grows,
  shrinks, assigns, resets, on_lease, keep_lease, assign, step, run,
}

-- A move of one lease among the others keeps the accounts.
on_lease-IsValid :
    (p : Process) (i : ℕ) (f : Lease → RuntimeMetrics × Lease)
    → IsValid p
    → ((l : Lease)
        → l.bytes ≤ p.metrics.current_inflight_bytes
        → (l.attached ≡ false → l.bytes ≡ 0)
        → Moves p.metrics l (f l))
    → IsValid (on_lease p i f)
      × ((on_lease p i f).metrics.inflight_budget_bytes ≡ p.metrics.inflight_budget_bytes)
unfolding on_lease
on_lease-IsValid p i f v move = elim (Option-cases (get_elem? p.leases i)) [
  | inl e ↦ rw (e, on_lease) (v, refl)
  | inr (l, e) ↦
      (let own = held_within p.leases i l e in
        let moved = move l (omega (arith, v.balanced)) (get_elem?-IsClean p.leases i l v.clean e) in
        rw (e, on_lease)
          (
            record {
              in_budget = moved.in_budget;
              balanced = omega (arith, held-set p.leases i l (f l).1 e, v.balanced, moved.balance);
              clean = set-IsClean p.leases i (f l).1 v.clean moved.clean;
            },
            moved.budget,
          ))
]

assign-IsValid :
    (p : Process) (i j : ℕ)
    → IsValid p
    → IsValid (assign p i j)
      × ((assign p i j).metrics.inflight_budget_bytes ≡ p.metrics.inflight_budget_bytes)
unfolding assign
assign-IsValid p i j v = elim (Option-cases (get_elem? p.leases i)) [
  | inl e ↦ rw (e, assign) (v, refl)
  | inr (l, e) ↦ elim (Option-cases (get_elem? p.leases j)) [
    | inl e' ↦ rw (e, e', assign) (v, refl)
    | inr (other, e') ↦ elim (Bool-cases (i == j)) [
      | inl same ↦ rw (e, e', same, assign) (v, refl)
      | inr differ ↦
          rw (e, e', differ, assign)
            (let own = held_within p.leases i l e in
              let moved =
                reset-Moves p.metrics l v.in_budget (omega (arith, v.balanced))
                  (get_elem?-IsClean p.leases i l v.clean e) in
              let e'' = get_elem?-set_other p.leases i j other (ground (arith, differ)) ∙ e' in
              let emptied : (reset p.metrics l).1.bytes ≡ 0 = reset-empty p.metrics l in
              (
                record {
                  in_budget = moved.in_budget;
                  balanced = omega (
                    arith,
                    held-set p.leases i l other e,
                    held-set (set p.leases i other) j other empty_lease e'',
                    v.balanced,
                    moved.balance,
                    emptied,
                  );
                  clean =
                      set-IsClean (set p.leases i other) j empty_lease
                        (set-IsClean p.leases i other v.clean
                          (get_elem?-IsClean p.leases j other v.clean e'))
                        (λ _. refl);
                },
                moved.budget,
              ))
    ]
  ]
]

-- What an acquisition does to the counter.
record Acquires (m : RuntimeMetrics) (r : RuntimeMetrics × Option Lease) : Type 0 where
  in_budget : InBudget r.0
  budget : r.0.inflight_budget_bytes ≡ m.inflight_budget_bytes
  refused : r.1 ≡ none → r.0.current_inflight_bytes ≡ m.current_inflight_bytes
  counted :
      (l : Lease)
      → r.1 ≡ some l
      → (l.attached ≡ true) × (r.0.current_inflight_bytes ≡ m.current_inflight_bytes + l.bytes)

try_acquire-Acquires : (m : RuntimeMetrics) (n : ℕ) → InBudget m → Acquires m (try_acquire m n)
unfolding try_acquire try_acquire_inflight
try_acquire-Acquires m n v = ground arith

keep_lease-IsValid :
    (p : Process) (r : RuntimeMetrics × Option Lease)
    → IsValid p
    → Acquires p.metrics r
    → IsValid (keep_lease p r)
      × ((keep_lease p r).metrics.inflight_budget_bytes ≡ p.metrics.inflight_budget_bytes)
unfolding keep_lease
keep_lease-IsValid p (m, none) v a = (
  record { in_budget = a.in_budget; balanced = v.balanced ∙ sym (a.refused refl); clean = v.clean },
  a.budget,
)
keep_lease-IsValid p (m, some l) v a =
    let (on, counted) = a.counted l refl in
    (
      record {
        in_budget = a.in_budget;
        balanced = omega (arith, held-append p.leases (l ∷ []), v.balanced, counted);
        clean =
            append-IsClean p.leases (l ∷ []) v.clean ((λ h. absurd (ground (arith, on, h))), tt);
      },
      a.budget,
    )

-- Every call keeps the accounts and the budget.
step-IsValid :
    (p : Process) (c : Call)
    → IsValid p
    → IsValid (step p c)
      × ((step p c).metrics.inflight_budget_bytes ≡ p.metrics.inflight_budget_bytes)
unfolding step
step-IsValid p (acquires n) v =
    keep_lease-IsValid p (try_acquire p.metrics n) v (try_acquire-Acquires p.metrics n v.in_budget)
step-IsValid p (grows i n) v =
    on_lease-IsValid p i (λ l. ((try_grow p.metrics l n).0, ((try_grow p.metrics l n).1).0)) v
      (λ l own c. try_grow-Moves p.metrics l v.in_budget own c n)
step-IsValid p (shrinks i n) v =
    on_lease-IsValid p i (λ l. shrink p.metrics l n) v
      (λ l own c. shrink-Moves p.metrics l v.in_budget own c n)
step-IsValid p (resets i) v =
    on_lease-IsValid p i (reset p.metrics) v (λ l own c. reset-Moves p.metrics l v.in_budget own c)
step-IsValid p (assigns i j) v = assign-IsValid p i j v

run-IsValid :
    (p : Process) (cs : List Call)
    → IsValid p
    → IsValid (run p cs)
      × ((run p cs).metrics.inflight_budget_bytes ≡ p.metrics.inflight_budget_bytes)
unfolding run
run-IsValid p [] v = (v, refl)
run-IsValid p (c ∷ cs) v =
    let (v', e) = step-IsValid p c v in
    let (v'', e') = run-IsValid (step p c) cs v' in (v'', e' ∙ e)

-- The process that a budget starts.
abbrev pub start : RuntimeMetrics → Process
start m = record { metrics = m; leases = [] }

-- What the budget promises of a process: the bytes of its leases are the counter's.
pub record Accounts (capacity : ℕ) (p : Process) : Type 0 where
  pub counted : held p.leases ≡ p.metrics.current_inflight_bytes
  pub within : held p.leases ≤ capacity
  pub peak : held p.leases ≤ p.metrics.peak_inflight_bytes
  pub peak_within : p.metrics.peak_inflight_bytes ≤ capacity

new_budget-IsValid :
    (m : RuntimeMetrics) (capacity : ℕ)
    → capacity < u64_mod
    → new_budget new_metrics capacity ≡ some m
    → IsValid (start m) × (m.inflight_budget_bytes ≡ capacity)
unfolding new_budget configure_inflight_budget
new_budget-IsValid m capacity w h = ground (arith, h)

-- After any sequence of calls on a budget of `capacity` bytes, below 2^64, that was constructed on
-- fresh counters, whatever leases the calls take, grow, shrink, reset, move and drop by
-- reassignment: the counter of bytes in flight is the sum of what the leases hold, this is at most
-- the capacity and at most the peak counter, and the peak counter is at most the capacity.
pub run-Accounts :
    (m : RuntimeMetrics) (capacity : ℕ) (cs : List Call)
    → capacity < u64_mod
    → new_budget new_metrics capacity ≡ some m
    → Accounts capacity (run (start m) cs)
run-Accounts m capacity cs w h =
    let (v, e) = new_budget-IsValid m capacity w h in
    let (v', e') = run-IsValid (start m) cs v in
    record {
      counted = v'.balanced;
      within = omega (arith, v'.balanced, v'.in_budget.bounded, e', e);
      peak = omega (arith, v'.balanced, v'.in_budget.peak_reached);
      peak_within = omega (arith, v'.in_budget.peak_bounded, e', e);
    }

-- A part that asks for `n` bytes of counters within a configured budget gets a lease exactly when
-- `n` more bytes stay within the budget.
try_acquire_iff :
    (m : RuntimeMetrics) (n : ℕ)
    → InBudget m
    → 0 < m.inflight_budget_bytes
    → ((try_acquire m n).1 ≢ none) ↔ (m.current_inflight_bytes + n ≤ m.inflight_budget_bytes)
unfolding try_acquire try_acquire_inflight
try_acquire_iff m n v c = ground arith
