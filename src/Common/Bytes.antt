-- ===== src/Common/Bytes.antt =====
-- Texts that the program walks byte by byte: `std::string` and `std::string_view` as lists of
-- bytes.
use Prim.Native.Nat.{ℕ}
use Prim.Native.Char.{code}
use Prim.Native.String.{String}
use mathlib.Core.Path.{◌≡◌, refl}
use mathlib.Core.Logic.{◌↔◌}
use mathlib.Core.Bool.{Bool, true, false, ◌&&◌}
use mathlib.Core.Option.{Option, none, some}
use mathlib.Core.List.{List, [], ◌∷◌}
use native.Mathlib.Omega.{arith}
use cc_switch_trans.Common.Tests.{◌==◌, if◌then◌else◌}

abbrev pub Text : Type 0
Text = List ℕ

-- The bytes of an ASCII literal.
abbrev pub codes : String → Text
codes String.[] = []
codes (String.◌∷◌ c s) = code c ∷ codes s

-- operator== of std::string
unfoldable pub text_eq : Text → Text → Bool
text_eq [] [] = true
text_eq [] (y ∷ ys) = false
text_eq (x ∷ xs) [] = false
text_eq (x ∷ xs) (y ∷ ys) = (x == y) && text_eq xs ys

pub text_eq_iff : (a b : Text) → (text_eq a b ≡ true) ↔ (a ≡ b)
unfolding text_eq
text_eq_iff [] [] = ground arith
text_eq_iff [] (y ∷ ys) = ground arith
text_eq_iff (x ∷ xs) [] = ground arith
text_eq_iff (x ∷ xs) (y ∷ ys) = ground (arith, text_eq_iff xs ys)

pub text_eq_refl : (a : Text) → text_eq a a ≡ true
text_eq_refl a = (text_eq_iff a a).1 refl

-- An entry of a table keyed by text, as std::map and std::unordered_map find it.
unfoldable pub find_key {ℓ} : {V : Type ℓ} → Text → List (Text × V) → Option V
find_key k [] = none
find_key k ((j, v) ∷ m) = if text_eq j k then some v else find_key k m

-- map[k] = v, at the place of the old entry if there is one.
unfoldable pub put_key {ℓ} : {V : Type ℓ} → Text → V → List (Text × V) → List (Text × V)
put_key k v [] = (k, v) ∷ []
put_key k v ((j, w) ∷ m) = if text_eq j k then (k, v) ∷ m else (j, w) ∷ put_key k v m

pub find_key-put_key {ℓ} :
    {V : Type ℓ} (k j : Text) (v : V) (m : List (Text × V))
    → find_key j (put_key k v m) ≡ (if text_eq k j then some v else find_key j m)
unfolding find_key put_key
find_key-put_key k j v [] = refl
find_key-put_key k j v ((i, w) ∷ m) =
    ground (arith, text_eq_iff i k, text_eq_iff i j, text_eq_iff k j, find_key-put_key k j v m)
