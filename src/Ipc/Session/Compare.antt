-- ===== src/Ipc/Session/Compare.antt =====
-- `constant_time_equal` of src/gui_ipc/session.cpp walks both texts to their ends and decides
-- equality.
use Prim.Native.Nat.{bit_or, bit_xor, max, digits, differ, bit_or-bitwise, bit_xor-bitwise}
use mathlib.Core.Path.{ap₂}
use cc_switch_trans.Common.{
  ℕ, zero, suc, ◌/◌, ◌%◌, ◌≤◌, ◌≡◌, refl, ◌↔◌, sym, ◌∙◌, true, [], ◌∷◌, Text, length, ==_iff, arith,
}
use cc_switch_trans.Ipc.Session.{difference_of, constant_time_equal}

-- Both results are zero in no other cases.
differ_zero : (a b : ℕ) → differ a b ≡ 0 → a ≡ b
differ_zero zero b h = omega arith
differ_zero (suc a) zero h = absurd (omega arith)
differ_zero (suc a) (suc b) h = omega (arith, differ_zero a b h)

differ_self : (a : ℕ) → differ a a ≡ 0
differ_self zero = refl
differ_self (suc a) = differ_self a

xor_digits_zero : (n a b : ℕ) → a ≤ n → digits (λ b. b) differ n a b ≡ 0 → a ≡ b
xor_digits_zero zero zero b l h = omega arith
xor_digits_zero zero (suc a) b l h = absurd (omega arith)
xor_digits_zero (suc n) zero b l h = omega arith
xor_digits_zero (suc n) (suc a) b l h =
    let high = xor_digits_zero n (suc a / 2) (b / 2) (omega arith) (omega arith) in
    let low = differ_zero (suc a % 2) (b % 2) (omega arith) in omega arith

xor_digits_self : (n a : ℕ) → a ≤ n → digits (λ b. b) differ n a a ≡ 0
xor_digits_self zero zero l = refl
xor_digits_self zero (suc a) l = absurd (omega arith)
xor_digits_self (suc n) zero l = refl
xor_digits_self (suc n) (suc a) l =
    omega (arith, xor_digits_self n (suc a / 2) (omega arith), differ_self (suc a % 2))

bit_xor_zero : (a b : ℕ) → (bit_xor a b ≡ 0) ↔ (a ≡ b)
bit_xor_zero a b = (
  λ h. xor_digits_zero a a b (omega arith) (sym (bit_xor-bitwise a b) ∙ h),
  λ h. rw (← h) (bit_xor-bitwise a a ∙ xor_digits_self a a (omega arith)),
)

or_digits_zero : (n a b : ℕ) → a ≤ n → digits (λ b. b) max n a b ≡ 0 → (a ≡ 0) × (b ≡ 0)
or_digits_zero zero zero b l h = (refl, h)
or_digits_zero zero (suc a) b l h = absurd (omega arith)
or_digits_zero (suc n) zero b l h = (refl, h)
or_digits_zero (suc n) (suc a) b l h =
    let high = or_digits_zero n (suc a / 2) (b / 2) (omega arith) (omega arith) in omega arith

bit_or_zero : (a b : ℕ) → (bit_or a b ≡ 0) ↔ ((a ≡ 0) × (b ≡ 0))
bit_or_zero a b = (
  λ h. or_digits_zero a a b (omega arith) (sym (bit_or-bitwise a b) ∙ h),
  λ h. rw (h.0, h.1) refl,
)

difference_kept : (d : ℕ) (l r : Text) → difference_of d l r ≡ 0 → d ≡ 0
unfolding difference_of
difference_kept d [] [] h = h
difference_kept d (x ∷ l) [] h =
    ((bit_or_zero d (bit_xor x 0)).0 (difference_kept (bit_or d (bit_xor x 0)) l [] h)).0
difference_kept d [] (y ∷ r) h =
    ((bit_or_zero d (bit_xor 0 y)).0 (difference_kept (bit_or d (bit_xor 0 y)) [] r h)).0
difference_kept d (x ∷ l) (y ∷ r) h =
    ((bit_or_zero d (bit_xor x y)).0 (difference_kept (bit_or d (bit_xor x y)) l r h)).0

difference_zero : (d : ℕ) (l r : Text) → length l ≡ length r → difference_of d l r ≡ 0 → l ≡ r
unfolding difference_of
difference_zero d [] [] e h = refl
difference_zero d (x ∷ l) [] e h = absurd (omega arith)
difference_zero d [] (y ∷ r) e h = absurd (omega arith)
difference_zero d (x ∷ l) (y ∷ r) e h =
    let both = (bit_or_zero d (bit_xor x y)).0 (difference_kept (bit_or d (bit_xor x y)) l r h) in
    ap₂ ◌∷◌ ((bit_xor_zero x y).0 both.1)
      (difference_zero (bit_or d (bit_xor x y)) l r (omega arith) h)

difference_self : (d : ℕ) (l : Text) → d ≡ 0 → difference_of d l l ≡ 0
unfolding difference_of
difference_self d [] h = h
difference_self d (x ∷ l) h =
    difference_self (bit_or d (bit_xor x x)) l
      ((bit_or_zero d (bit_xor x x)).1 (h, (bit_xor_zero x x).1 refl))

-- The comparison returns true exactly for equal texts, of whatever lengths.
pub constant_time_equal_iff : (l r : Text) → (constant_time_equal l r ≡ true) ↔ (l ≡ r)
unfolding constant_time_equal
constant_time_equal_iff l r = (
  λ h.
      let z = (==_iff _ 0).0 h in
      difference_zero _ l r ((bit_xor_zero (length l) (length r)).0 (difference_kept _ l r z)) z,
  λ h. (==_iff _ 0).1 (rw h (difference_self _ r ((bit_xor_zero (length r) (length r)).1 refl))),
)
