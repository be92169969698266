-- ===== src/Core/HeaderFilter/Pieces.antt =====
-- The pieces into which `find(',', start)` loops cut a text (src/transport/header_filter.cpp).

use cc_switch_trans.Common.{
  ℕ, ◌≡◌, refl, ◌⊎◌, inl, inr, Bool, true, not, List, [], ◌∷◌, ◌++◌, Text, any, all, drop, ◌==◌,
  arith,
}
use cc_switch_trans.Core.Url.{split_on, ends_with, begins_with}

-- A piece between two separators is one of the pieces.
abbrev pub Starts : ℕ → Text → Type 0
Starts c p = (p ≡ []) ⊎ (ends_with c p ≡ true)

abbrev pub Stops : ℕ → Text → Type 0
Stops c q = (q ≡ []) ⊎ (begins_with c q ≡ true)

split_on-piece :
    (c : ℕ) (m q : Text)
    → all (λ x. not (x == c)) m ≡ true
    → Stops c q
    → (more : List Text) × (split_on c (m ++ q) ≡ m ∷ more)
unfolding split_on
split_on-piece c [] [] h s = ([], refl)
split_on-piece c [] (x ∷ q) h s = (split_on c q, ground (arith, s))
split_on-piece c (x ∷ m) q h s =
    let (more, e) = split_on-piece c m q (ground arith) s in (more, ground (arith, e, h))

any-drop_one : (f : Text → Bool) (xs : List Text) → any f (drop 1 xs) ≡ true → any f xs ≡ true
any-drop_one f [] h = h
any-drop_one f (x ∷ xs) h = ground arith

split_on-later :
    (c : ℕ) (f : Text → Bool) (p s : Text)
    → ends_with c p ≡ true
    → any f (split_on c s) ≡ true
    → any f (drop 1 (split_on c (p ++ s))) ≡ true
unfolding ends_with split_on
split_on-later c f [] s e h = cc
split_on-later c f (a ∷ []) s e h = ground arith
split_on-later c f (a ∷ b ∷ p) s e h =
    ground (arith, split_on-later c f (b ∷ p) s e h, any-drop_one f (split_on c ((b ∷ p) ++ s)))

pub any-split_on :
    (c : ℕ) (f : Text → Bool) (p m q : Text)
    → Starts c p
    → all (λ x. not (x == c)) m ≡ true
    → Stops c q
    → f m ≡ true
    → any f (split_on c (p ++ (m ++ q))) ≡ true
any-split_on c f p m q (inl e) h s t =
    let (more, k) = split_on-piece c m q h s in rw (e, k) (ground (arith, t))
any-split_on c f p m q (inr e) h s t =
    let (more, k) = split_on-piece c m q h s in
    let here : any f (split_on c (m ++ q)) ≡ true = rw k (ground (arith, t)) in
    any-drop_one f (split_on c (p ++ (m ++ q))) (split_on-later c f p (m ++ q) e here)
