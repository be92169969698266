-- ===== src/Rules/Pointer/Pieces.antt =====
-- Texts cut at a separator and put together again.
use cc_switch_trans.Common.{
  ℕ, ◌≡◌, ◌≢◌, refl, sym, ap, ◌∙◌, inl, inr, true, List, [], ◌∷◌, ◌++◌, Text, ◌==◌, arith, ==_iff,
  Bool-cases,
}
use cc_switch_trans.Core.Url.{split_on}

-- The pieces with the separator before each.
abbrev pub rejoin : ℕ → List Text → Text
rejoin c [] = []
rejoin c (p ∷ ps) = c ∷ (p ++ rejoin c ps)

-- The byte does not occur.
abbrev pub Free : ℕ → Text → Type 0
Free c [] = Unit {0}
Free c (x ∷ s) = (x ≢ c) × Free c s

abbrev pub AllFree : ℕ → List Text → Type 0
AllFree c [] = Unit {0}
AllFree c (p ∷ ps) = Free c p × AllFree c ps

-- A byte put before the first piece.
abbrev extend : ℕ → List Text → List Text
extend x [] = (x ∷ []) ∷ []
extend x (p ∷ ps) = (x ∷ p) ∷ ps

split_on-other : (c x : ℕ) (s : Text) → x ≢ c → split_on c (x ∷ s) ≡ extend x (split_on c s)
unfolding split_on
split_on-other c x s h = ground (arith, h)

split_on-same : (c x : ℕ) (s : Text) → (x == c) ≡ true → split_on c (x ∷ s) ≡ [] ∷ split_on c s
unfolding split_on
split_on-same c x s h = ground (arith, h)

rejoin-extend :
    (c x : ℕ) (s : Text) (ps : List Text) → rejoin c ps ≡ c ∷ s → rejoin c (extend x ps) ≡ c ∷ x ∷ s
rejoin-extend c x s [] h = absurd (cc h)
rejoin-extend c x s (p ∷ ps) h =
    let t : p ++ rejoin c ps ≡ s = cc h in ap (λ (r : Text). c ∷ x ∷ r) t

-- Cutting loses nothing.
pub rejoin-split_on : (c : ℕ) (s : Text) → rejoin c (split_on c s) ≡ c ∷ s
rejoin-split_on c [] = unfold split_on in refl
rejoin-split_on c (x ∷ s) = elim (Bool-cases (x == c)) [
  | inl y ↦ rw (split_on-same c x s y) (
      ap (λ (r : Text). c ∷ r)
        (rejoin-split_on c s ∙ ap (λ (d : ℕ). d ∷ s) (sym ((==_iff x c).0 y))))
  | inr n ↦
      rw (split_on-other c x s (ground (arith, n)))
        (rejoin-extend c x s (split_on c s) (rejoin-split_on c s))
]

extend-AllFree : (c x : ℕ) (ps : List Text) → x ≢ c → AllFree c ps → AllFree c (extend x ps)
extend-AllFree c x [] h f = ((h, tt), tt)
extend-AllFree c x (p ∷ ps) h (f, fs) = ((h, f), fs)

pub split_on-AllFree : (c : ℕ) (s : Text) → AllFree c (split_on c s)
split_on-AllFree c [] = unfold split_on in (tt, tt)
split_on-AllFree c (x ∷ s) = elim (Bool-cases (x == c)) [
  | inl y ↦ rw (split_on-same c x s y) (tt, split_on-AllFree c s)
  | inr n ↦
      (let d : x ≢ c = ground (arith, n) in
        rw (split_on-other c x s d) (extend-AllFree c x (split_on c s) d (split_on-AllFree c s)))
]

-- Pieces without the separator are found again.
pub split_on-rejoin :
    (c : ℕ) (p : Text) (ps : List Text)
    → Free c p
    → AllFree c ps
    → split_on c (p ++ rejoin c ps) ≡ p ∷ ps
unfolding split_on
split_on-rejoin c [] [] f fs = refl
split_on-rejoin c [] (q ∷ qs) f (g, gs) =
    split_on-same c c (q ++ rejoin c qs) ((==_iff c c).1 refl)
    ∙ ap (λ (r : List Text). [] ∷ r) (split_on-rejoin c q qs g gs)
split_on-rejoin c (x ∷ p) ps (n, f) fs =
    split_on-other c x (p ++ rejoin c ps) n ∙ ap (extend x) (split_on-rejoin c p ps f fs)
