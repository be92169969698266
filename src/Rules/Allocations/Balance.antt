-- ===== src/Rules/Allocations/Balance.antt =====
-- The balance of a context's lease and the blocks that are allocated (src/rules/rule_json.hpp).
use cc_switch_trans.Common.{
  ℕ, zero, suc, ◌+◌, ◌-◌, ◌*◌, ◌/◌, ◌^◌, ◌≡◌, refl, subst, inl, inr, Bool, true, false, Option,
  some, List, [], ◌∷◌, get_elem?, ltb, arith, Bool-cases, Option-cases,
}
use cc_switch_trans.Core.Budget.{
  RuntimeMetrics, Lease, try_acquire_inflight, release_inflight, try_acquire, try_grow, shrink,
}
use cc_switch_trans.Core.Budget.Leases.{InBudget}
use cc_switch_trans.Rules.Fields.{remove_at}
use cc_switch_trans.Rules.Allocations.{
  RuleJsonAllocationContext, new_context, try_acquire_bytes, release_bytes, Arena, grown, acquired,
  allocate, deallocate, Request, allocates, deallocates, step, run,
}

-- The bytes of the blocks.
abbrev pub total : List ℕ → ℕ
total [] = 0
total (b ∷ bs) = b + total bs

total-remove_at :
    (bs : List ℕ) (i b : ℕ) → get_elem? bs i ≡ some b → total bs ≡ b + total (remove_at i bs)
unfolding remove_at
total-remove_at [] i b h = cc h
total-remove_at (x ∷ bs) zero b h = ground arith
total-remove_at (x ∷ bs) (suc i) b h = omega (arith, total-remove_at bs i b h)

-- A lease of `bytes` bytes on counters of which others hold `others`.
record Holds (capacity others bytes : ℕ) (m : RuntimeMetrics) (l : Lease) : Type 0 where
  in_budget : InBudget m
  budget : m.inflight_budget_bytes ≡ capacity
  attached : l.attached ≡ true
  held : l.bytes ≡ bytes
  current : m.current_inflight_bytes ≡ others + bytes

-- An attempt to grow by `n`: by all of it, or not at all.
record Grows (capacity others bytes n : ℕ) (r : RuntimeMetrics × (Lease × Bool)) : Type 0 where
  more : (r.1).1 ≡ true → Holds capacity others (n + bytes) r.0 (r.1).0
  same : (r.1).1 ≡ false → Holds capacity others bytes r.0 (r.1).0

try_grow-Grows :
    (capacity others bytes n : ℕ) (m : RuntimeMetrics) (l : Lease)
    → Holds capacity others bytes m l
    → Grows capacity others bytes n (try_grow m l n)
unfolding try_grow try_acquire_inflight
try_grow-Grows capacity others bytes n m l v = record {
  more = λ h. ground (arith, h);
  same = λ h. ground (arith, h);
}

shrink-Holds :
    (capacity others bytes n : ℕ) (m : RuntimeMetrics) (l : Lease)
    → Holds capacity others (n + bytes) m l
    → Holds capacity others bytes (shrink m l n).0 (shrink m l n).1
unfolding shrink release_inflight
shrink-Holds capacity others bytes n m l v = ground arith

-- The arena's context holds what its blocks have, and the counters say so.
pub record IsBalanced (capacity others : ℕ) (a : Arena) : Type 0 where
  pub lease : Lease
  pub context : a.context ≡ some (record { memory = some lease })
  pub in_budget : InBudget a.metrics
  pub budget : a.metrics.inflight_budget_bytes ≡ capacity
  pub attached : lease.attached ≡ true
  pub held : lease.bytes ≡ total a.blocks
  pub current : a.metrics.current_inflight_bytes ≡ others + total a.blocks

Holds-IsBalanced :
    (capacity others : ℕ) (m : RuntimeMetrics) (l : Lease) (blocks : List ℕ)
    → Holds capacity others (total blocks) m l
    → IsBalanced capacity others
        (record { metrics = m; context = some (record { memory = some l }); blocks = blocks })
Holds-IsBalanced capacity others m l blocks v = record {
  lease = l;
  context = refl;
  in_budget = v.in_budget;
  budget = v.budget;
  attached = v.attached;
  held = v.held;
  current = v.current;
}

acquired-IsBalanced :
    (capacity others n : ℕ) (a : Arena) (r : RuntimeMetrics × (Lease × Bool)) (succeeds : Bool)
    → Grows capacity others (total a.blocks) n r
    → IsBalanced capacity others (acquired a n (grown r) succeeds).0
unfolding release_bytes
acquired-IsBalanced capacity others n a (m, (l, false)) succeeds g =
    Holds-IsBalanced capacity others m l a.blocks (g.same refl)
acquired-IsBalanced capacity others n a (m, (l, true)) true g =
    Holds-IsBalanced capacity others m l (n ∷ a.blocks) (g.more refl)
acquired-IsBalanced capacity others n a (m, (l, true)) false g =
    Holds-IsBalanced capacity others (shrink m l n).0 (shrink m l n).1 a.blocks
      (shrink-Holds capacity others (total a.blocks) n m l (g.more refl))

IsBalanced-Holds :
    (capacity others : ℕ) (a : Arena) (v : IsBalanced capacity others a)
    → Holds capacity others (total a.blocks) a.metrics v.lease
IsBalanced-Holds capacity others a v = record {
  in_budget = v.in_budget;
  budget = v.budget;
  attached = v.attached;
  held = v.held;
  current = v.current;
}

allocate-IsBalanced :
    (capacity others : ℕ) (a : Arena) (size count : ℕ) (succeeds : Bool)
    → IsBalanced capacity others a
    → IsBalanced capacity others (allocate a size count succeeds).0
unfolding allocate try_acquire_bytes
allocate-IsBalanced capacity others a size count succeeds v =
    elim (Bool-cases (ltb ((2 ^ 64 - 1) / size) count)) [
      | inl y ↦ rw y v
      | inr n ↦
          rw (n, v.context)
            (acquired-IsBalanced capacity others (count * size) a
              (try_grow a.metrics v.lease (count * size)) succeeds
              (try_grow-Grows capacity others (total a.blocks) (count * size) a.metrics v.lease
                (IsBalanced-Holds capacity others a v)))
    ]

deallocate-IsBalanced :
    (capacity others : ℕ) (a : Arena) (i : ℕ)
    → IsBalanced capacity others a
    → IsBalanced capacity others (deallocate a i)
unfolding deallocate release_bytes
deallocate-IsBalanced capacity others a i v = elim (Option-cases (get_elem? a.blocks i)) [
  | inl n ↦ rw (deallocate, n) v
  | inr (b, e) ↦
      let split = total-remove_at a.blocks i b e in
      let h = IsBalanced-Holds capacity others a v in
      let held : Holds capacity others (b + total (remove_at i a.blocks)) a.metrics v.lease =
        subst (λ (n : ℕ). Holds capacity others n a.metrics v.lease) split h in
      rw (deallocate, e, v.context)
        (Holds-IsBalanced capacity others (shrink a.metrics v.lease b).0
          (shrink a.metrics v.lease b).1 (remove_at i a.blocks)
          (shrink-Holds capacity others (total (remove_at i a.blocks)) b a.metrics v.lease held))
]

run-keeps :
    (capacity others : ℕ) (a : Arena) (rs : List Request)
    → IsBalanced capacity others a
    → IsBalanced capacity others (run a rs)
unfolding run step
run-keeps capacity others a [] v = v
run-keeps capacity others a (allocates size count succeeds ∷ rs) v =
    run-keeps capacity others (allocate a size count succeeds).0 rs
      (allocate-IsBalanced capacity others a size count succeeds v)
run-keeps capacity others a (deallocates i ∷ rs) v =
    run-keeps capacity others (deallocate a i) rs (deallocate-IsBalanced capacity others a i v)

-- The arena that a rule's run starts with.
abbrev pub fresh_arena : RuntimeMetrics × Option RuleJsonAllocationContext → Arena
fresh_arena (m, c) = record { metrics = m; context = c; blocks = [] }

new_context-IsBalanced :
    (m : RuntimeMetrics)
    → InBudget m
    → IsBalanced m.inflight_budget_bytes m.current_inflight_bytes (fresh_arena (new_context m))
unfolding new_context try_acquire try_acquire_inflight
new_context-IsBalanced m v = record {
  lease = record { attached = true; bytes = 0 };
  context = refl;
  in_budget = v;
  budget = refl;
  attached = refl;
  held = refl;
  current = omega arith;
}

-- Whatever the JSON library allocates and frees, on a new context over counters within a budget,
-- whether the system has the memory or not: the context's lease holds exactly the bytes of the blocks
-- that are allocated, the counter of bytes in flight is these and what it was before, and it is
-- within the budget, which has not changed.
pub run-IsBalanced :
    (m : RuntimeMetrics) (rs : List Request)
    → InBudget m
    → IsBalanced m.inflight_budget_bytes m.current_inflight_bytes
        (run (fresh_arena (new_context m)) rs)
run-IsBalanced m rs v =
    run-keeps m.inflight_budget_bytes m.current_inflight_bytes (fresh_arena (new_context m)) rs
      (new_context-IsBalanced m v)
