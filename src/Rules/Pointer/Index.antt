-- ===== src/Rules/Pointer/Index.antt =====
-- The array indices of a JSON Pointer: exactly the decimal numbers without a leading zero
-- (src/rules/generic_json_rules.cpp).
use cc_switch_trans.Common.{
  ℕ, zero, suc, ◌+◌, ◌-◌, ◌*◌, ◌/◌, ◌%◌, ◌≤◌, ◌<◌, ◌≡◌, ◌≢◌, ◌↔◌, refl, sym, ap, subst, ◌∙◌, ◌⊎◌,
  inl, inr, [], ◌∷◌, ◌++◌, Text, codes, text_eq, text_eq_iff, ltb, arith, Bool-cases, decimal,
  digits, decimal_digit, decimal-append,
}
use mathlib.Core.List.{append-nil, append_assoc}
use cc_switch_trans.Rules.Pointer.{index, size_max, digits_loop, within, parse_array_index}

-- A round of the loop that goes on.
digits_loop-digit :
    (v c : ℕ) (s : Text) (i : ℕ)
    → digits_loop v (c ∷ s) ≡ index i
    → (b'0' ≤ c) × (c ≤ b'9') × (digits_loop (v * 10 + (c - b'0')) s ≡ index i)
unfolding digits_loop
digits_loop-digit v c s i h = ground (arith, h)

decimal-digits :
    (v : ℕ) (s : Text) (i : ℕ) → 0 < v → digits_loop v s ≡ index i → decimal i ≡ decimal v ++ s
decimal-digits v [] i p h =
    unfold digits_loop in
    (let e : v ≡ i = cc h in ap decimal (sym e) ∙ sym (append-nil (decimal v)))
decimal-digits v (c ∷ s) i p h =
    let (lo, hi, k) = digits_loop-digit v c s i h in
    let e : b'0' + (c - b'0') ≡ c = omega arith in
    decimal-digits (v * 10 + (c - b'0')) s i (omega arith) k
    ∙ ap (λ (t : Text). t ++ s) (decimal-append v (c - b'0') p (omega arith))
    ∙ append_assoc (decimal v) ((b'0' + (c - b'0')) ∷ []) s
    ∙ ap (λ (x : ℕ). decimal v ++ x ∷ s) e

digits_loop-step :
    (v c : ℕ) (s t : Text) (w : ℕ)
    → digits_loop v (c ∷ s) ≡ index w
    → digits_loop v (c ∷ t) ≡ digits_loop (v * 10 + (c - b'0')) t
unfolding digits_loop
digits_loop-step v c s t w h = ground (arith, h)

-- The loop over one text and then another.
digits_loop-append :
    (v : ℕ) (s t : Text) (w : ℕ)
    → digits_loop v s ≡ index w
    → digits_loop v (s ++ t) ≡ digits_loop w t
digits_loop-append v [] t w h =
    unfold digits_loop in (let e : v ≡ w = cc h in ap (λ (x : ℕ). digits_loop x t) e)
digits_loop-append v (c ∷ s) t w h =
    let (lo, hi, k) = digits_loop-digit v c s w h in
    digits_loop-step v c s (s ++ t) w h ∙ digits_loop-append (v * 10 + (c - b'0')) s t w k

digits_loop-one :
    (v d : ℕ)
    → d < 10
    → v * 10 + d ≤ size_max
    → digits_loop v ((b'0' + d) ∷ []) ≡ index (v * 10 + d)
unfolding digits_loop
digits_loop-one v d h k = ground arith

digits_loop-decimal : (f i : ℕ) → i < f → i ≤ size_max → digits_loop 0 (digits f i) ≡ index i
unfolding digits
digits_loop-decimal zero i h k = absurd (omega arith)
digits_loop-decimal (suc f) i h k = elim (Bool-cases (ltb i 10)) [
  | inl y ↦
      rw y (digits_loop-one 0 i (ground (arith, y)) (omega (arith, k)) ∙ ap index (omega arith))
  | inr n ↦ rw n (
      digits_loop-append 0 (digits f (i / 10)) ((b'0' + i % 10) ∷ []) (i / 10)
        (digits_loop-decimal f (i / 10) (ground (arith, n)) (omega (arith, k)))
      ∙ digits_loop-one (i / 10) (i % 10) (omega arith) (omega (arith, k))
      ∙ ap index (omega arith))
]

-- A number that is not 0 has a first digit that is not 0.
FirstDigit : Text → Type 0
FirstDigit s = (c : ℕ) × (t : Text) × (s ≡ c ∷ t) × (b'0' < c) × (c ≤ b'9')

FirstDigit-digits : (f i : ℕ) → i < f → 0 < i → FirstDigit (digits f i)
unfolding digits FirstDigit
FirstDigit-digits zero i h p = absurd (omega arith)
FirstDigit-digits (suc f) i h p = elim (Bool-cases (ltb i 10)) [
  | inl y ↦ rw y (b'0' + i, [], refl, omega arith, ground (arith, y))
  | inr n ↦
      (let (c, t, e, lo, hi) =
          FirstDigit-digits f (i / 10) (ground (arith, n)) (ground (arith, n)) in
        rw n (c, t ++ (b'0' + i % 10) ∷ [], ap (λ (s : Text). s ++ (b'0' + i % 10) ∷ []) e, lo, hi))
]

-- The checks before the loop, for a text with a first digit other than 0 and for "0".
parse-FirstDigit :
    (s : Text) (size : ℕ) → FirstDigit s → parse_array_index s size ≡ within size (digits_loop 0 s)
unfolding FirstDigit parse_array_index
parse-FirstDigit s size (c, t, e, lo, hi) = ground (arith, e, text_eq_iff s (codes "-"))

decimal-parse :
    (i size : ℕ) → i < size → size ≤ size_max → parse_array_index (decimal i) size ≡ index i
unfolding decimal digits parse_array_index digits_loop text_eq
decimal-parse zero size h k = ground (arith, h)
decimal-parse (suc i) size h k =
    parse-FirstDigit (digits (suc (suc i)) (suc i)) size
      (FirstDigit-digits (suc (suc i)) (suc i) (omega arith) (omega arith))
    ∙ ap (within size) (digits_loop-decimal (suc (suc i)) (suc i) (omega arith) (omega arith))
    ∙ ground (arith, h)

-- What passed the checks.
parse-checks :
    (c : ℕ) (t : Text) (i size : ℕ)
    → parse_array_index (c ∷ t) size ≡ index i
    → (digits_loop 0 (c ∷ t) ≡ index i) × (i < size) × ((c ≢ b'0') ⊎ (t ≡ []))
unfolding parse_array_index
parse-checks c [] i size h = ground (arith, h)
parse-checks c (d ∷ t) i size h = ground (arith, h)

pub parse-decimal :
    (s : Text) (i size : ℕ) → parse_array_index s size ≡ index i → (i < size) × (s ≡ decimal i)
parse-decimal [] i size h = unfold parse_array_index in ground (arith, h)
parse-decimal (c ∷ t) i size h =
    let (l, f, lead) = parse-checks c t i size h in
    let (lo, hi, k) = digits_loop-digit 0 c t i l in
    (f, spelled (c - b'0') (omega (arith, lo)) k lead)
  where
    empty_loop : digits_loop 0 [] ≡ index i → 0 ≡ i
    empty_loop q = unfold digits_loop in cc q

    below_ten : (v : ℕ) → b'0' + v ≡ c → v < 10
    below_ten v e =
        let (l, _, _) = parse-checks c t i size h in
        let (_, hi, _) = digits_loop-digit 0 c t i l in omega (arith, hi, e)

    spelled :
        (v : ℕ)
        → b'0' + v ≡ c
        → digits_loop (0 * 10 + (c - b'0')) t ≡ index i
        → (c ≢ b'0') ⊎ (t ≡ [])
        → c ∷ t ≡ decimal i
    spelled zero e k (inl n) = absurd (n (omega (arith, e)))
    spelled zero e k (inr n) =
        (let k0 : digits_loop 0 [] ≡ index i =
            subst (λ (u : Text). digits_loop 0 u ≡ index i) n
              (subst (λ (x : ℕ). digits_loop x t ≡ index i) (omega (arith, e)) k) in
          let z : 0 ≡ i = empty_loop k0 in
          ap (λ (u : Text). c ∷ u) n
          ∙ ap (λ (x : ℕ). x ∷ []) (sym e)
          ∙ sym (decimal_digit 0 (omega arith))
          ∙ ap decimal z)
    spelled (suc v) e k lead =
        (let k1 : digits_loop (suc v) t ≡ index i =
            subst (λ (x : ℕ). digits_loop x t ≡ index i) (omega (arith, e)) k in
          let q : decimal i ≡ decimal (suc v) ++ t = decimal-digits (suc v) t i (omega arith) k1 in
          sym (
            q
            ∙ ap (λ (u : Text). u ++ t) (decimal_digit (suc v) (below_ten (suc v) e))
            ∙ ap (λ (x : ℕ). x ∷ t) e))

-- For an array of `size` elements, a token is the index `i` exactly if `i` is below `size` and the
-- token is `i` in decimal: no sign, no leading zero, no "-", and the loop never overflows.
parse_array_index_iff :
    (token : Text) (size i : ℕ)
    → size ≤ size_max
    → (parse_array_index token size ≡ index i) ↔ ((i < size) × (token ≡ decimal i))
parse_array_index_iff token size i k = (
  λ h. parse-decimal token i size h,
  λ (h, e). ap (λ (s : Text). parse_array_index s size) e ∙ decimal-parse i size h k,
)
