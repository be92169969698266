-- ===== src/Rules/Allocations.antt =====
-- How the memory that the JSON library allocates for a rule's run is accounted for:
-- src/rules/rule_json.hpp and rule_json.cpp. `std::allocator` succeeds or throws as the caller says.
-- The thread's current context, which scopes set and restore (Allocations/Scopes.antt), is passed in.
pub mod Balance
pub mod Scopes
use cc_switch_trans.Common.{
  ℕ, ◌+◌, ◌-◌, ◌*◌, ◌/◌, ◌^◌, Bool, true, false, not, Option, none, some, List, [], ◌∷◌, get_elem?,
  ltb, if◌then◌else◌,
}
use cc_switch_trans.Core.Budget.{RuntimeMetrics, Lease, try_acquire, try_grow, shrink}
use cc_switch_trans.Rules.Fields.{remove_at}

-- `memory_`; `none` without a budget.
pub record RuleJsonAllocationContext : Type 0 where
  pub memory : Option Lease

abbrev context_of :
    RuntimeMetrics × Option Lease → RuntimeMetrics × Option RuleJsonAllocationContext
context_of (m, none) = (m, none)
context_of (m, some l) = (m, some (record { memory = some l }))

-- The constructor with a budget; `none` where it throws `InflightBudgetExceeded`.
unfoldable pub new_context : RuntimeMetrics → RuntimeMetrics × Option RuleJsonAllocationContext
new_context m = context_of (try_acquire m 0)

abbrev grown : RuntimeMetrics × (Lease × Bool) → RuntimeMetrics × (RuleJsonAllocationContext × Bool)
grown (m, (l, acquired)) = (m, (record { memory = some l }, acquired))

abbrev shrunk : RuntimeMetrics × Lease → RuntimeMetrics × RuleJsonAllocationContext
shrunk (m, l) = (m, record { memory = some l })

unfoldable pub try_acquire_bytes :
    RuntimeMetrics
    → RuleJsonAllocationContext
    → ℕ
    → RuntimeMetrics × (RuleJsonAllocationContext × Bool)
try_acquire_bytes m c bytes = elim c.memory [
  | none ↦ (m, (c, true))
  | some l ↦ grown (try_grow m l bytes)
]

unfoldable pub release_bytes :
    RuntimeMetrics → RuleJsonAllocationContext → ℕ → RuntimeMetrics × RuleJsonAllocationContext
release_bytes m c bytes = elim c.memory [ none ↦ (m, c) | some l ↦ shrunk (shrink m l bytes) ]

-- The counters, the allocator's context and the sizes of the blocks that are allocated.
pub record Arena : Type 0 where
  pub metrics : RuntimeMetrics
  pub context : Option RuleJsonAllocationContext
  pub blocks : List ℕ

-- How an allocation ends; the last three are exceptions.
pub data Allocated : Type 0 where
  allocated bad_array_new_length budget_exceeded bad_alloc : Allocated

unfoldable pub plain_allocate : Arena → ℕ → Bool → Arena × Allocated
plain_allocate a bytes true = (record a { blocks = bytes ∷ a.blocks }, allocated)
plain_allocate a bytes false = (a, bad_alloc)

abbrev pub released : Arena → RuntimeMetrics × RuleJsonAllocationContext → Arena
released a (m, c) = record a { metrics = m; context = some c }

-- What is left once the context was asked; the last argument says whether std::allocator succeeds.
abbrev pub acquired :
    Arena → ℕ → RuntimeMetrics × (RuleJsonAllocationContext × Bool) → Bool → Arena × Allocated
acquired a bytes (m, (c, false)) succeeds =
    (record a { metrics = m; context = some c }, budget_exceeded)
acquired a bytes (m, (c, true)) true =
    (record { metrics = m; context = some c; blocks = bytes ∷ a.blocks }, allocated)
acquired a bytes (m, (c, true)) false = (released a (release_bytes m c bytes), bad_alloc)

-- RuleJsonAllocator<T>::allocate, with sizeof(T).
unfoldable pub allocate : Arena → ℕ → ℕ → Bool → Arena × Allocated
allocate a size count succeeds =
    if ltb ((2 ^ 64 - 1) / size) count then (a, bad_array_new_length) else elim a.context [
      | none ↦ plain_allocate a (count * size) succeeds
      | some c ↦ acquired a (count * size) (try_acquire_bytes a.metrics c (count * size)) succeeds
    ]

-- RuleJsonAllocator<T>::deallocate of the block at an index.
unfoldable pub deallocate : Arena → ℕ → Arena
deallocate a i = elim (get_elem? a.blocks i) [
  | none ↦ a
  | some bytes ↦
      let freed : Arena = record a { blocks = remove_at i a.blocks } in
      elim a.context [ none ↦ freed | some c ↦ released freed (release_bytes a.metrics c bytes) ]
]

-- What the library asks for while a rule runs.
pub data Request : Type 0 where
  allocates : ℕ → ℕ → Bool → Request
  deallocates : ℕ → Request

unfoldable pub step : Arena → Request → Arena
step a (allocates size count succeeds) = (allocate a size count succeeds).0
step a (deallocates i) = deallocate a i

unfoldable pub run : Arena → List Request → Arena
run a [] = a
run a (r ∷ rs) = run (step a r) rs
