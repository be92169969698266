-- ===== src/Core/Budget.antt =====
-- src/core/inflight_memory_budget.cpp with the counters of src/core/runtime_metrics.cpp: the memory
-- that requests in flight may hold. A loop around `compare_exchange_weak` takes effect in the one
-- round whose exchange succeeds, so a call is one step. Numbers are `std::uint64_t`.
pub mod Accounts
pub mod Leases
use Prim.Native.Nat.{min, max}
use cc_switch_trans.Common.{
  ℕ, zero, suc, ◌+◌, ◌-◌, ◌%◌, ◌^◌, Bool, true, false, not, Option, none, some, List, [], ◌∷◌, ◌++◌,
  length, get_elem?, set, ltb, leb, ◌==◌, if◌then◌else◌,
}

abbrev pub u64_mod : ℕ
u64_mod = 2 ^ 64

pub record RuntimeMetrics : Type 0 where
  pub inflight_budget_bytes : ℕ
  pub current_inflight_bytes : ℕ
  pub peak_inflight_bytes : ℕ
  pub inflight_budget_rejections : ℕ

abbrev pub new_metrics : RuntimeMetrics
new_metrics = record {
  inflight_budget_bytes = 0;
  current_inflight_bytes = 0;
  peak_inflight_bytes = 0;
  inflight_budget_rejections = 0;
}

unfoldable pub configure_inflight_budget : RuntimeMetrics → ℕ → RuntimeMetrics × Bool
configure_inflight_budget m bytes =
    if bytes == 0
    then (m, false)
    else if m.inflight_budget_bytes == 0
    then (record m { inflight_budget_bytes = bytes }, true)
    else (m, m.inflight_budget_bytes == bytes)

update_peak : ℕ → ℕ → ℕ
update_peak peak value = if ltb peak value then value else peak

reject : RuntimeMetrics → RuntimeMetrics × Bool
reject m =
    (record m { inflight_budget_rejections = (m.inflight_budget_rejections + 1) % u64_mod }, false)

unfoldable pub try_acquire_inflight : RuntimeMetrics → ℕ → RuntimeMetrics × Bool
unfolding update_peak reject
try_acquire_inflight m bytes =
    let capacity = m.inflight_budget_bytes in
    let next = (m.current_inflight_bytes + bytes) % u64_mod in
    if bytes == 0
    then (m, true)
    else if capacity == 0
    then reject m
    else if leb bytes (capacity - min capacity m.current_inflight_bytes)
    then (
      record m {
        current_inflight_bytes = next;
        peak_inflight_bytes = update_peak m.peak_inflight_bytes next;
      },
      true,
    )
    else reject m

-- With fewer bytes in use than are released, the assertion at the end fails; a release build leaves
-- the counter as it is.
unfoldable pub release_inflight : RuntimeMetrics → ℕ → RuntimeMetrics
release_inflight m bytes =
    if bytes == 0
    then m
    else if leb bytes m.current_inflight_bytes
    then record m { current_inflight_bytes = m.current_inflight_bytes - bytes }
    else m

-- `attached` says that `metrics_` is not null.
pub record Lease : Type 0 where
  pub attached : Bool
  pub bytes : ℕ

abbrev pub empty_lease : Lease
empty_lease = record { attached = false; bytes = 0 }

unfoldable pub try_grow : RuntimeMetrics → Lease → ℕ → RuntimeMetrics × (Lease × Bool)
try_grow m l additional =
    let (m', acquired) = try_acquire_inflight m additional in
    if not l.attached
    then (m, (l, false))
    else if additional == 0
    then (m, (l, true))
    else if not acquired
    then (m', (l, false))
    else (m', (record l { bytes = (l.bytes + additional) % u64_mod }, true))

unfoldable pub shrink : RuntimeMetrics → Lease → ℕ → RuntimeMetrics × Lease
shrink m l bytes =
    let released = min bytes l.bytes in
    let l' : Lease = record l { bytes = l.bytes - released } in
    if l.attached then (release_inflight m released, l') else (m, l')

unfoldable pub reset : RuntimeMetrics → Lease → RuntimeMetrics × Lease
reset m l = if l.attached then (release_inflight m l.bytes, empty_lease) else (m, empty_lease)

-- The constructor of `InflightMemoryBudget`; `none` where it throws.
unfoldable pub new_budget : RuntimeMetrics → ℕ → Option RuntimeMetrics
new_budget m capacity =
    if capacity == 0
    then none
    else (let (m', configured) = configure_inflight_budget m capacity in
        if configured then some m' else none)

unfoldable pub try_acquire : RuntimeMetrics → ℕ → RuntimeMetrics × Option Lease
try_acquire m bytes =
    let (m', acquired) = try_acquire_inflight m bytes in
    if acquired then (m', some (record { attached = true; bytes = bytes })) else (m', none)

-- A process: the counters and the leases that its parts hold, by number.
pub record Process : Type 0 where
  pub metrics : RuntimeMetrics
  pub leases : List Lease

-- The calls that a part can make. `assigns i j` is `leases[i] = std::move(leases[j])`.
pub data Call : Type 0 where
  acquires : ℕ → Call
  grows shrinks assigns : ℕ → ℕ → Call
  resets : ℕ → Call

on_lease : Process → ℕ → (Lease → RuntimeMetrics × Lease) → Process
on_lease p i f = elim (get_elem? p.leases i) [
  | none ↦ p
  | some l ↦ (let (m, l') = f l in record { metrics = m; leases = set p.leases i l' })
]

-- Lease::operator=(Lease&&)
pub assign : Process → ℕ → ℕ → Process
assign p i j = elim (get_elem? p.leases i) [
  | none ↦ p
  | some l ↦ elim (get_elem? p.leases j) [
    | none ↦ p
    | some other ↦ if i == j then p else record {
      metrics = (reset p.metrics l).0;
      leases = set (set p.leases i other) j empty_lease;
    }
  ]
]

keep_lease : Process → RuntimeMetrics × Option Lease → Process
keep_lease p (m, none) = record p { metrics = m }
keep_lease p (m, some l) = record { metrics = m; leases = p.leases ++ l ∷ [] }

pub step : Process → Call → Process
unfolding on_lease keep_lease
step p (acquires n) = keep_lease p (try_acquire p.metrics n)
step p (grows i n) =
    on_lease p i (λ l. ((try_grow p.metrics l n).0, ((try_grow p.metrics l n).1).0))
step p (shrinks i n) = on_lease p i (λ l. shrink p.metrics l n)
step p (resets i) = on_lease p i (reset p.metrics)
step p (assigns i j) = assign p i j

pub run : Process → List Call → Process
run p [] = p
run p (c ∷ cs) = run (step p c) cs
