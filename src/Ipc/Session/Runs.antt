-- ===== src/Ipc/Session/Runs.antt =====
-- Sequences of calls on the outbound queue of src/gui_ipc/session.cpp.
use cc_switch_trans.Common.{
  ℕ, suc, ◌≤◌, ◌≡◌, refl, subst, sym, ap, some, List, [], ◌∷◌, Text, length, arith,
}
use Prim.Native.Nat.{max}
use cc_switch_trans.Ipc.Messages.{Envelope}
use cc_switch_trans.Ipc.Session.{
  OutboundQueue, OutboundItem, new_queue, push, push_back, ready, wait_pop, close, reset,
}
use cc_switch_trans.Ipc.Session.Queue.{
  Distinct, IsValid, push-IsValid, push_cases, replace_last-keys, length-keys,
}

pub data Call : Type 0 where
  pushes : Envelope → Text → Call
  pops closes resets : Call

unfoldable pub step : OutboundQueue → Call → OutboundQueue
step q (pushes e key) = (push q e key).0
step q pops = (wait_pop q).0
step q closes = close q
step q resets = reset q

unfoldable pub run : OutboundQueue → List Call → OutboundQueue
run q [] = q
run q (c ∷ cs) = run (step q c) cs

pop-IsValid :
    (q : OutboundQueue) (is : List OutboundItem) → q.items ≡ is → IsValid q → IsValid (wait_pop q).0
unfolding wait_pop ready
pop-IsValid q [] h v = ground (arith, v.bounded, v.peak, v.peak_bounded, v.distinct)
pop-IsValid q (i ∷ is) h v =
    let d : Distinct (i ∷ is) = subst Distinct h v.distinct in
    let l : length q.items ≡ suc (length is) = ap length h in
    let e : (wait_pop q).0 ≡ record q { items = is } = ground arith in
    subst IsValid (sym e) (record {
      bounded = omega (arith, v.bounded);
      peak = omega (arith, v.peak);
      peak_bounded = v.peak_bounded;
      distinct = d.1;
    })

step-IsValid : (q : OutboundQueue) (c : Call) → IsValid q → IsValid (step q c)
unfolding step close reset
step-IsValid q (pushes e key) v = push-IsValid q e key v
step-IsValid q pops v = pop-IsValid q q.items refl v
step-IsValid q closes v = record {
  bounded = v.bounded;
  peak = v.peak;
  peak_bounded = v.peak_bounded;
  distinct = v.distinct;
}
step-IsValid q resets v = record {
  bounded = omega arith;
  peak = omega arith;
  peak_bounded = v.peak_bounded;
  distinct = tt;
}

run_lem : (q : OutboundQueue) (cs : List Call) → IsValid q → IsValid (run q cs)
unfolding run
run_lem q [] v = v
run_lem q (c ∷ cs) v = run_lem (step q c) cs (step-IsValid q c v)

new-IsValid : (capacity : ℕ) (q : OutboundQueue) → new_queue capacity ≡ some q → IsValid q
unfolding new_queue
new-IsValid capacity q h = record {
  bounded = ground arith;
  peak = ground arith;
  peak_bounded = ground arith;
  distinct = fresh q h;
}
  where
    fresh : (p : OutboundQueue) → new_queue capacity ≡ some p → Distinct p.items
    fresh p e = let z : [] ≡ p.items = ground arith in subst Distinct z tt

-- The greatest number of items at any time from here on, this one included.
unfoldable pub most_items : OutboundQueue → List Call → ℕ
most_items q [] = length q.items
most_items q (c ∷ cs) = max (length q.items) (most_items (step q c) cs)

push_peak :
    (q : OutboundQueue) (e : Envelope) (key : Text)
    → length q.items ≤ q.peak_pending
    → (push q e key).0.peak_pending ≡ max q.peak_pending (length (push q e key).0.items)
push_peak q e key b =
    push_cases (λ r. r.0.peak_pending ≡ max q.peak_pending (length r.0.items)) q e key
      (λ c. omega (arith, b)) (λ c f. unfold push_back in ground (arith, b))
      (λ js c n h. omega (arith, b, length-keys q.items js (replace_last-keys key e q.items js h)))

-- The front item is taken at most.
record Pops (q : OutboundQueue) : Type 0 where
  same : (wait_pop q).0.peak_pending ≡ q.peak_pending
  fewer : length (wait_pop q).0.items ≤ length q.items

pop_shrinks : (q : OutboundQueue) → Pops q
unfolding wait_pop ready
pop_shrinks q = record { same = ground arith; fewer = ground arith }

step_peak :
    (q : OutboundQueue) (c : Call)
    → length q.items ≤ q.peak_pending
    → (step q c).peak_pending ≡ max q.peak_pending (length (step q c).items)
unfolding step close reset
step_peak q (pushes e key) b = push_peak q e key b
step_peak q pops b = let p = pop_shrinks q in omega (arith, b, p.same, p.fewer)
step_peak q closes b = omega (arith, b)
step_peak q resets b = omega (arith, b)

items-most_items : (q : OutboundQueue) (cs : List Call) → length q.items ≤ most_items q cs
unfolding most_items
items-most_items q [] = omega arith
items-most_items q (c ∷ cs) = omega arith

run_peak :
    (q : OutboundQueue) (cs : List Call)
    → length q.items ≤ q.peak_pending
    → (run q cs).peak_pending ≡ max q.peak_pending (most_items q cs)
unfolding run most_items
run_peak q [] b = omega (arith, b)
run_peak q (c ∷ cs) b =
    let s = step_peak q c b in
    let r = run_peak (step q c) cs (omega (arith, s)) in
    let l = items-most_items (step q c) cs in omega (arith, b, s, r, l)

-- Whatever calls are made on a new queue, it holds no more items than its capacity, no two items
-- share a coalescing key that is not empty, and its peak is the greatest number of items that it has
-- held.
pub run-IsValid :
    (capacity : ℕ) (q : OutboundQueue) (cs : List Call)
    → new_queue capacity ≡ some q
    → IsValid (run q cs) × ((run q cs).peak_pending ≡ most_items q cs)
unfolding new_queue
run-IsValid capacity q cs h =
    let v = new-IsValid capacity q h in
    let new : q.peak_pending ≡ 0 = ground (arith, h) in
    (run_lem q cs v, omega (arith, run_peak q cs v.peak, new))
