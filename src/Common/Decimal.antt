-- ===== src/Common/Decimal.antt =====
-- std::to_string of a number: its decimal digits.
use Prim.Native.Nat.{ℕ, zero, suc, ◌+◌, ◌*◌, ◌/◌, ◌%◌, ◌<◌}
use mathlib.Core.Path.{◌≡◌, refl, ap}
use mathlib.Core.Logic.{inl, inr}
use mathlib.Core.Bool.{false}
use mathlib.Core.List.{[], ◌∷◌, ◌++◌}
use native.Mathlib.Omega.{arith}
use cc_switch_trans.Common.Tests.{ltb, if◌then◌else◌, Bool-cases}
use cc_switch_trans.Common.Bytes.{Text}

-- Each round drops a digit, so the number itself is enough fuel.
unfoldable pub digits : ℕ → ℕ → Text
digits zero n = []
digits (suc fuel) n =
    let rest = digits fuel (n / 10) in
    if ltb n 10 then (b'0' + n) ∷ [] else rest ++ (b'0' + n % 10) ∷ []

unfoldable pub decimal : ℕ → Text
unfolding digits
decimal n = digits (suc n) n

digits_fuel : (f g n : ℕ) → n < f → n < g → digits f n ≡ digits g n
unfolding digits
digits_fuel zero g n h k = absurd (omega arith)
digits_fuel (suc f) zero n h k = absurd (omega arith)
digits_fuel (suc f) (suc g) n h k = elim (Bool-cases (ltb n 10)) [
  | inl y ↦ rw y refl
  | inr y ↦ rw y (
      ap (λ (s : Text). s ++ (b'0' + n % 10) ∷ [])
        (digits_fuel f g (n / 10) (ground (arith, y)) (ground (arith, y))))
]

pub decimal_digit : (d : ℕ) → d < 10 → decimal d ≡ (b'0' + d) ∷ []
unfolding decimal digits
decimal_digit d h = ground arith

-- One more digit behind a number that is not 0.
pub decimal-append :
    (v d : ℕ) → 0 < v → d < 10 → decimal (v * 10 + d) ≡ decimal v ++ (b'0' + d) ∷ []
unfolding decimal digits
decimal-append v d p h =
    let q : (v * 10 + d) / 10 ≡ v = omega arith in
    let r : (v * 10 + d) % 10 ≡ d = omega arith in
    let big : ltb (v * 10 + d) 10 ≡ false = ground arith in
    rw (big, q, r)
      (ap (λ (s : Text). s ++ (b'0' + d) ∷ [])
        (digits_fuel (v * 10 + d) (suc v) v (omega arith) (omega arith)))
