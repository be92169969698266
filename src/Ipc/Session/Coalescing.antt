-- ===== src/Ipc/Session/Coalescing.antt =====
-- What one `push` does to the outbound queue of src/gui_ipc/session.cpp.
use Prim.Native.Nat.{max}
use cc_switch_trans.Common.{
  ◌+◌, ◌≤◌, ◌<◌, ◌≡◌, refl, sym, ◌≢◌, ap, ◌⊎◌, inl, inr, Bool, true, false, some, List, [], ◌∷◌,
  ◌++◌, Text, text_eq_iff, length, length-append, leb, arith, Option-cases, Bool-cases,
}
use cc_switch_trans.Ipc.Messages.{Envelope}
use cc_switch_trans.Ipc.Session.{OutboundQueue, OutboundItem, replace_last, push_back, push}
use cc_switch_trans.Ipc.Session.Queue.{Free, push_cases, replace_last-none}

-- The last item with the key has the envelope now, at its place and under its key.
pub record Replaced (key : Text) (e : Envelope) (is js : List OutboundItem) : Type 0 where
  pub before : List OutboundItem
  pub item : OutboundItem
  pub behind : List OutboundItem
  pub was : is ≡ before ++ item ∷ behind
  pub own_key : item.coalescing_key ≡ key
  pub is_last : Free key behind
  pub now : js ≡ before ++ record { envelope = e; coalescing_key = key } ∷ behind

Replaced-cons :
    (key : Text) (e : Envelope) (i : OutboundItem) (is js : List OutboundItem)
    → Replaced key e is js
    → Replaced key e (i ∷ is) (i ∷ js)
Replaced-cons key e i is js r = record {
  before = i ∷ r.before;
  item = r.item;
  behind = r.behind;
  was = ap (λ (xs : List OutboundItem). i ∷ xs) r.was;
  own_key = r.own_key;
  is_last = r.is_last;
  now = ap (λ (xs : List OutboundItem). i ∷ xs) r.now;
}

replace_last-Replaced :
    (key : Text) (e : Envelope) (is js : List OutboundItem)
    → replace_last key e is ≡ some js
    → Replaced key e is js
unfolding replace_last
replace_last-Replaced key e [] js h = cc h
replace_last-Replaced key e (i ∷ is) js h = elim (Option-cases (replace_last key e is)) [
  | inl n ↦
      let own : i.coalescing_key ≡ key = ground (arith, h, n, text_eq_iff i.coalescing_key key) in
      record {
        before = [];
        item = i;
        behind = is;
        was = refl;
        own_key = own;
        is_last = replace_last-none key e is n;
        now = ground (arith, h, n, own);
      }
  | inr (ks, r) ↦
      let same : i ∷ ks ≡ js = ground (arith, h, r) in
      rw (sym same) (Replaced-cons key e i is ks (replace_last-Replaced key e is ks r))
]

-- No item is replaced by a push under the key.
abbrev pub Unmatched : Text → List OutboundItem → Type 0
Unmatched key is = (key ≡ []) ⊎ Free key is

-- A new item at the end of a queue that has a place for it.
pub record Appended (q : OutboundQueue) (e : Envelope) (key : Text) (q' : OutboundQueue)
    : Type 0 where
  pub unmatched : Unmatched key q.items
  pub has_place : length q.items < q.capacity
  pub result : q' ≡ record q {
    items = q.items ++ record { envelope = e; coalescing_key = key } ∷ [];
    peak_pending = max q.peak_pending (length q.items + 1);
  }

-- The envelope in the place of the one that waited under its key.
pub record Coalesced (q : OutboundQueue) (e : Envelope) (key : Text) (q' : OutboundQueue)
    : Type 0 where
  pub keyed : key ≢ []
  pub replaced : Replaced key e q.items q'.items
  pub result : q' ≡ record q { items = q'.items; coalesced = q.coalesced + 1 }

-- What a push leads to.
pub record Outcome (q : OutboundQueue) (e : Envelope) (key : Text) (r : OutboundQueue × Bool)
    : Type 0 where
  pub refused :
      r.1 ≡ false
      → (r.0 ≡ record q { rejected = q.rejected + 1 })
        × ((q.closed ≡ true) ⊎ ((q.capacity ≤ length q.items) × Unmatched key q.items))
  pub taken : r.1 ≡ true → (q.closed ≡ false) × (Appended q e key r.0 ⊎ Coalesced q e key r.0)

push_back-Outcome :
    (q : OutboundQueue) (e : Envelope) (key : Text)
    → q.closed ≡ false
    → Unmatched key q.items
    → Outcome q e key (push_back q e key)
unfolding push_back
push_back-Outcome q e key c f = elim (Bool-cases (leb q.capacity (length q.items))) [
  | inl y ↦ rw y (record { refused = λ _. (refl, inr (ground (arith, y), f)); taken = λ h. cc h })
  | inr n ↦
      let more = length-append q.items (record { envelope = e; coalescing_key = key } ∷ []) in
      rw n (record {
        refused = λ h. cc h;
        taken = λ _. (
          c,
          inl (record {
            unmatched = f;
            has_place = ground (arith, n);
            result = ground (arith, more);
          }),
        );
      })
]

-- A push that returns false leaves the queue as it was but for one more rejection, and the queue is
-- then closed, or full without an item under the key. A push that returns true finds it open. Either
-- its key is empty or no item has it, and the envelope is a new item at the end of a queue that had
-- a place for it, which the peak takes in; or the envelope replaces that of the last item under the
-- key, which is counted. In both cases nothing else has changed.
pub push-Outcome : (q : OutboundQueue) (e : Envelope) (key : Text) → Outcome q e key (push q e key)
push-Outcome q e key =
    push_cases (Outcome q e key) q e key
      (λ c. record { refused = λ _. (refl, inl c); taken = λ h. cc h })
      (λ c f. push_back-Outcome q e key c f)
      (λ js c n h. record {
        refused = λ z. cc z;
        taken = λ _. (
          c,
          inr (record {
            keyed = n;
            replaced = replace_last-Replaced key e q.items js h;
            result = refl;
          }),
        );
      })
