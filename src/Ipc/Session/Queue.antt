-- ===== src/Ipc/Session/Queue.antt =====
-- The outbound queue of src/gui_ipc/session.cpp: its bounds, its order, and coalescing.

use cc_switch_trans.Common.{
  suc, ◌+◌, ◌≤◌, ◌≡◌, refl, ◌≢◌, ◌∙◌, subst, sym, ap, ◌⊎◌, inl, inr, Bool, true, false, none, some,
  List, [], ◌∷◌, ◌++◌, map, Text, text_eq_iff, length, length-append, arith, Option-cases,
  Bool-cases,
}
use cc_switch_trans.Ipc.Messages.{Envelope}
use cc_switch_trans.Ipc.Session.{OutboundQueue, OutboundItem, replace_last, push_back, push}

abbrev pub keys : List OutboundItem → List Text
keys = map (λ i. i.coalescing_key)

-- No item of the list has the key.
abbrev pub Free : Text → List OutboundItem → Type 0
Free key [] = Unit {0}
Free key (i ∷ is) = (i.coalescing_key ≢ key) × Free key is

-- A key that is not empty stands at one item at most.
abbrev pub Distinct : List OutboundItem → Type 0
Distinct [] = Unit {0}
Distinct (i ∷ is) = ((i.coalescing_key ≡ []) ⊎ Free i.coalescing_key is) × Distinct is

pub record IsValid (q : OutboundQueue) : Type 0 where
  pub bounded : length q.items ≤ q.capacity
  pub peak : length q.items ≤ q.peak_pending
  pub peak_bounded : q.peak_pending ≤ q.capacity
  pub distinct : Distinct q.items

pub replace_last-keys :
    (key : Text) (e : Envelope) (is js : List OutboundItem)
    → replace_last key e is ≡ some js
    → keys js ≡ keys is
unfolding replace_last
replace_last-keys key e [] js h = cc
replace_last-keys key e (i ∷ is) js h = elim (Option-cases (replace_last key e is)) [
  | inl n ↦ ground arith
  | inr (ks, q) ↦ ground (arith, replace_last-keys key e is ks q)
]

Free-keys : (key : Text) (is js : List OutboundItem) → keys js ≡ keys is → Free key is → Free key js
Free-keys key [] [] h f = tt
Free-keys key [] (j ∷ js) h f = cc
Free-keys key (i ∷ is) [] h f = cc
Free-keys key (i ∷ is) (j ∷ js) h f = (ground arith, Free-keys key is js (ground arith) f.1)

Distinct-keys : (is js : List OutboundItem) → keys js ≡ keys is → Distinct is → Distinct js
Distinct-keys [] [] h d = tt
Distinct-keys [] (j ∷ js) h d = cc
Distinct-keys (i ∷ is) [] h d = cc
Distinct-keys (i ∷ is) (j ∷ js) h d = (
  elim d.0 [
    | inl e ↦ inl (ground arith)
    | inr f ↦ inr (
        subst (λ (k : Text). Free k js)
          (let e : i.coalescing_key ≡ j.coalescing_key = ground arith in e)
          (Free-keys i.coalescing_key is js (ground arith) f))
  ],
  Distinct-keys is js (ground arith) d.1,
)

pub length-keys : (is js : List OutboundItem) → keys js ≡ keys is → length js ≡ length is
length-keys [] [] h = refl
length-keys [] (j ∷ js) h = cc
length-keys (i ∷ is) [] h = cc
length-keys (i ∷ is) (j ∷ js) h = ap suc (length-keys is js (ground arith))

pub replace_last-none :
    (key : Text) (e : Envelope) (is : List OutboundItem)
    → replace_last key e is ≡ none
    → Free key is
unfolding replace_last
replace_last-none key e [] h = tt
replace_last-none key e (i ∷ is) h = elim (Option-cases (replace_last key e is)) [
  | inl n ↦ (ground (arith, text_eq_iff i.coalescing_key key), replace_last-none key e is n)
  | inr (ks, q) ↦ ground arith
]

Free-append :
    (key : Text) (is : List OutboundItem) (j : OutboundItem)
    → Free key is
    → j.coalescing_key ≢ key
    → Free key (is ++ j ∷ [])
Free-append key [] j f n = (n, tt)
Free-append key (i ∷ is) j f n = (f.0, Free-append key is j f.1 n)

nil-cases : (k : Text) → (k ≡ []) ⊎ (k ≢ [])
nil-cases [] = inl refl
nil-cases (x ∷ k) = inr (λ h. cc)

Distinct_head :
    (i : OutboundItem) (is : List OutboundItem) (j : OutboundItem)
    → (i.coalescing_key ≡ []) ⊎ Free i.coalescing_key is
    → (j.coalescing_key ≡ []) ⊎ Free j.coalescing_key (i ∷ is)
    → (i.coalescing_key ≡ []) ⊎ Free i.coalescing_key (is ++ j ∷ [])
Distinct_head i is j (inl e) f = inl e
Distinct_head i is j (inr g) (inl e) = elim (nil-cases i.coalescing_key) [
  | inl n ↦ inl n
  | inr n ↦ inr (Free-append i.coalescing_key is j g (λ h. n (sym h ∙ e)))
]
Distinct_head i is j (inr g) (inr f) = inr (Free-append i.coalescing_key is j g (λ h. f.0 (sym h)))

Distinct-append :
    (is : List OutboundItem) (j : OutboundItem)
    → Distinct is
    → (j.coalescing_key ≡ []) ⊎ Free j.coalescing_key is
    → Distinct (is ++ j ∷ [])
Distinct-append [] j d f = (inr tt, tt)
Distinct-append (i ∷ is) j d f = (Distinct_head i is j d.0 f, Distinct-append is j d.1 (rest f))
  where
    rest :
        (j.coalescing_key ≡ []) ⊎ Free j.coalescing_key (i ∷ is)
        → (j.coalescing_key ≡ []) ⊎ Free j.coalescing_key is
    rest (inl e) = inl e
    rest (inr g) = inr g.1

pub replace_last-Free :
    (key : Text) (e : Envelope) (is : List OutboundItem)
    → Free key is
    → replace_last key e is ≡ none
unfolding replace_last
replace_last-Free key e [] f = refl
replace_last-Free key e (i ∷ is) f =
    ground (arith, replace_last-Free key e is f.1, text_eq_iff i.coalescing_key key, f.0)

push_back-IsValid :
    (q : OutboundQueue) (e : Envelope) (key : Text)
    → IsValid q
    → (key ≡ []) ⊎ Free key q.items
    → IsValid (push_back q e key).0
unfolding push_back
push_back-IsValid q e key v f =
    let item : OutboundItem = record { envelope = e; coalescing_key = key } in
    let more = length-append q.items (item ∷ []) in
    record {
      bounded = ground (arith, more, v.bounded);
      peak = ground (arith, more, v.peak);
      peak_bounded = ground (arith, more, v.peak_bounded);
      distinct = ground (arith, v.distinct, Distinct-append q.items item v.distinct f);
    }

push_closed :
    (q : OutboundQueue) (e : Envelope) (key : Text)
    → q.closed ≡ true
    → push q e key ≡ (record q { rejected = q.rejected + 1 }, false)
unfolding push
push_closed q e key h = ground arith

push_miss :
    (q : OutboundQueue) (e : Envelope) (key : Text)
    → q.closed ≡ false
    → (key ≡ []) ⊎ (replace_last key e q.items ≡ none)
    → push q e key ≡ push_back q e key
unfolding push
push_miss q e key h m = ground arith

push_hit :
    (q : OutboundQueue) (e : Envelope) (key : Text) (js : List OutboundItem)
    → q.closed ≡ false
    → key ≢ []
    → replace_last key e q.items ≡ some js
    → push q e key ≡ (record q { items = js; coalesced = q.coalesced + 1 }, true)
unfolding push
push_hit q e [] js h n r = absurd (n refl)
push_hit q e (x ∷ key) js h n r = ground arith

-- The three ways of a push.
pub push_cases {ℓ} :
    (P : OutboundQueue × Bool → Type ℓ) (q : OutboundQueue) (e : Envelope) (key : Text)
    → (q.closed ≡ true → P (record q { rejected = q.rejected + 1 }, false))
    → (q.closed ≡ false → (key ≡ []) ⊎ Free key q.items → P (push_back q e key))
    → ((js : List OutboundItem)
        → q.closed ≡ false
        → key ≢ []
        → replace_last key e q.items ≡ some js
        → P (record q { items = js; coalesced = q.coalesced + 1 }, true))
    → P (push q e key)
push_cases P q e key closed back hit = elim (Bool-cases q.closed) [
  | inl c ↦ subst P (sym (push_closed q e key c)) (closed c)
  | inr c ↦ elim (nil-cases key) [
    | inl n ↦ subst P (sym (push_miss q e key c (inl n))) (back c (inl n))
    | inr n ↦ elim (Option-cases (replace_last key e q.items)) [
      | inl h ↦
          subst P (sym (push_miss q e key c (inr h)))
            (back c (inr (replace_last-none key e q.items h)))
      | inr (js, h) ↦ subst P (sym (push_hit q e key js c n h)) (hit js c n h)
    ]
  ]
]

pub push-IsValid :
    (q : OutboundQueue) (e : Envelope) (key : Text) → IsValid q → IsValid (push q e key).0
push-IsValid q e key v =
    push_cases (λ r. IsValid r.0) q e key
      (λ c. record {
        bounded = v.bounded;
        peak = v.peak;
        peak_bounded = v.peak_bounded;
        distinct = v.distinct;
      })
      (λ c f. push_back-IsValid q e key v f)
      (λ js c n h.
        let k = replace_last-keys key e q.items js h in
        let l = length-keys q.items js k in
        record {
          bounded = omega (arith, v.bounded);
          peak = omega (arith, v.peak);
          peak_bounded = v.peak_bounded;
          distinct = Distinct-keys q.items js k v.distinct;
        })
