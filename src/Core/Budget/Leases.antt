-- ===== src/Core/Budget/Leases.antt =====
-- What one lease of src/core/inflight_memory_budget.cpp does to the counter, and the sum that a list
-- of leases holds.

use cc_switch_trans.Common.{
  ℕ, zero, suc, ◌+◌, ◌≤◌, ◌<◌, ◌≡◌, false, some, List, [], ◌∷◌, ◌++◌, get_elem?, set, arith,
}
use cc_switch_trans.Core.Budget.{
  u64_mod, RuntimeMetrics, Lease, try_acquire_inflight, release_inflight, try_grow, shrink, reset,
  Process,
}

-- The bytes that are held.
abbrev pub held : List Lease → ℕ
held [] = 0
held (l ∷ ls) = l.bytes + held ls

-- A lease that is not attached holds nothing.
abbrev IsClean : List Lease → Type 0
IsClean [] = Unit {0}
IsClean (l ∷ ls) = (l.attached ≡ false → l.bytes ≡ 0) × IsClean ls

pub record InBudget (m : RuntimeMetrics) : Type 0 where
  pub bounded : m.current_inflight_bytes ≤ m.inflight_budget_bytes
  pub peak_reached : m.current_inflight_bytes ≤ m.peak_inflight_bytes
  pub peak_bounded : m.peak_inflight_bytes ≤ m.inflight_budget_bytes
  pub word : m.inflight_budget_bytes < u64_mod

pub record IsValid (p : Process) : Type 0 where
  pub in_budget : InBudget p.metrics
  pub balanced : held p.leases ≡ p.metrics.current_inflight_bytes
  pub clean : IsClean p.leases

-- One lease changes, and the counter with it.
pub record Moves (m : RuntimeMetrics) (l : Lease) (r : RuntimeMetrics × Lease) : Type 0 where
  pub in_budget : InBudget r.0
  pub balance : r.0.current_inflight_bytes + l.bytes ≡ m.current_inflight_bytes + r.1.bytes
  pub clean : r.1.attached ≡ false → r.1.bytes ≡ 0
  pub budget : r.0.inflight_budget_bytes ≡ m.inflight_budget_bytes

module _ (m : RuntimeMetrics) (l : Lease) (v : InBudget m)
    (own : l.bytes ≤ m.current_inflight_bytes) (clean : l.attached ≡ false → l.bytes ≡ 0) where
  pub try_grow-Moves : (n : ℕ) → Moves m l ((try_grow m l n).0, ((try_grow m l n).1).0)
  unfolding try_grow try_acquire_inflight
  try_grow-Moves n = ground (arith, clean)

  pub shrink-Moves : (n : ℕ) → Moves m l (shrink m l n)
  unfolding shrink release_inflight
  shrink-Moves n = ground (arith, clean)

  pub reset-Moves : Moves m l (reset m l)
  unfolding reset release_inflight
  reset-Moves = ground (arith, clean)

pub reset-empty : (m : RuntimeMetrics) (l : Lease) → (reset m l).1.bytes ≡ 0
unfolding reset
reset-empty m l = ground arith

pub held-set :
    (ls : List Lease) (i : ℕ) (l l' : Lease)
    → get_elem? ls i ≡ some l
    → held (set ls i l') + l.bytes ≡ held ls + l'.bytes
held-set [] i l l' h = absurd (ground (arith, h))
held-set (x ∷ ls) zero l l' h = ground (arith, h)
held-set (x ∷ ls) (suc i) l l' h = omega (arith, held-set ls i l l' h)

pub held_within :
    (ls : List Lease) (i : ℕ) (l : Lease) → get_elem? ls i ≡ some l → l.bytes ≤ held ls
held_within [] i l h = absurd (ground (arith, h))
held_within (x ∷ ls) zero l h = ground (arith, h)
held_within (x ∷ ls) (suc i) l h = omega (arith, held_within ls i l h)

pub held-append : (ls ls' : List Lease) → held (ls ++ ls') ≡ held ls + held ls'
held-append [] ls' = omega arith
held-append (x ∷ ls) ls' = omega (arith, held-append ls ls')

pub set-IsClean :
    (ls : List Lease) (i : ℕ) (l : Lease)
    → IsClean ls
    → (l.attached ≡ false → l.bytes ≡ 0)
    → IsClean (set ls i l)
set-IsClean [] i l cs c = cs
set-IsClean (x ∷ ls) zero l (_, cs) c = (c, cs)
set-IsClean (x ∷ ls) (suc i) l (c', cs) c = (c', set-IsClean ls i l cs c)

pub get_elem?-IsClean :
    (ls : List Lease) (i : ℕ) (l : Lease)
    → IsClean ls
    → get_elem? ls i ≡ some l
    → l.attached ≡ false
    → l.bytes ≡ 0
get_elem?-IsClean [] i l cs h = absurd (ground (arith, h))
get_elem?-IsClean (x ∷ ls) zero l (c, _) h = ground (arith, h, c)
get_elem?-IsClean (x ∷ ls) (suc i) l (_, cs) h = get_elem?-IsClean ls i l cs h

pub append-IsClean : (ls ls' : List Lease) → IsClean ls → IsClean ls' → IsClean (ls ++ ls')
append-IsClean [] ls' cs cs' = cs'
append-IsClean (x ∷ ls) ls' (c, cs) cs' = (c, append-IsClean ls ls' cs cs')
