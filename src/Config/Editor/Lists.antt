-- ===== src/Config/Editor/Lists.antt =====
-- Searches and edits of lists by the first element that a test holds of, as the standard library's
-- `find_if`, `erase` and `insert` make them for src/config/configuration_editor.cpp.
use cc_switch_trans.Common.{
  ℕ, zero, suc, ◌+◌, ◌≤◌, ◌≡◌, refl, ap, Bool, true, false, Option, none, some, List, [], ◌∷◌, ◌++◌,
  length, get_elem?, take, drop, if◌then◌else◌, arith,
}

-- The count of an element that a test does or does not hold of.
abbrev pub one_if : Bool → ℕ
one_if true = 1
one_if false = 0

module _ {ℓ} {A : Type ℓ} where
  unfoldable pub find_first : (A → Bool) → List A → Option A
  find_first p [] = none
  find_first p (x ∷ xs) = if p x then some x else find_first p xs

  -- What is done to `*found`.
  unfoldable pub modify_first : (A → Bool) → (A → A) → List A → List A
  modify_first p f [] = []
  modify_first p f (x ∷ xs) = if p x then f x ∷ xs else x ∷ modify_first p f xs

  unfoldable pub erase_first : (A → Bool) → List A → List A
  erase_first p [] = []
  erase_first p (x ∷ xs) = if p x then xs else x ∷ erase_first p xs

  unfoldable pub insert_at : ℕ → A → List A → List A
  insert_at zero v xs = v ∷ xs
  insert_at (suc n) v [] = v ∷ []
  insert_at (suc n) v (x ∷ xs) = x ∷ insert_at n v xs

  -- How many elements a test holds of.
  unfoldable pub count : (A → Bool) → List A → ℕ
  count p [] = 0
  count p (x ∷ xs) = if p x then suc (count p xs) else count p xs

  pub count-append : (p : A → Bool) (xs ys : List A) → count p (xs ++ ys) ≡ count p xs + count p ys
  unfolding count
  count-append p [] ys = omega arith
  count-append p (x ∷ xs) ys = ground (arith, count-append p xs ys)

  pub count-insert_at :
      (p : A → Bool) (n : ℕ) (v : A) (xs : List A)
      → count p (insert_at n v xs) ≡ one_if (p v) + count p xs
  unfolding count insert_at
  count-insert_at p zero v xs = ground arith
  count-insert_at p (suc n) v [] = ground arith
  count-insert_at p (suc n) v (x ∷ xs) = ground (arith, count-insert_at p n v xs)

  pub count-erase_first :
      (p q : A → Bool) (v : A) (xs : List A)
      → find_first q xs ≡ some v
      → count p xs ≡ one_if (p v) + count p (erase_first q xs)
  unfolding count erase_first find_first
  count-erase_first p q v [] h = cc h
  count-erase_first p q v (x ∷ xs) h = ground (arith, h, count-erase_first p q v xs)

  pub count-modify_first :
      (p q : A → Bool) (v w : A) (xs : List A)
      → find_first q xs ≡ some v
      → count p (modify_first q (λ old. w) xs) + one_if (p v) ≡ count p xs + one_if (p w)
  unfolding count modify_first find_first
  count-modify_first p q v w [] h = cc h
  count-modify_first p q v w (x ∷ xs) h = ground (arith, h, count-modify_first p q v w xs)

  pub count-find_none : (p : A → Bool) (xs : List A) → find_first p xs ≡ none → count p xs ≡ 0
  unfolding count find_first
  count-find_none p [] h = refl
  count-find_none p (x ∷ xs) h = ground (arith, h, count-find_none p xs)

  pub found : (p : A → Bool) (v : A) (xs : List A) → find_first p xs ≡ some v → p v ≡ true
  unfolding find_first
  found p v [] h = cc h
  found p v (x ∷ xs) h = ground (arith, h, found p v xs)

  -- What a test holds of is found by that test, if it holds of one element at most.
  found_once :
      (p q : A → Bool) (v w : A) (xs : List A)
      → find_first q xs ≡ some w
      → p w ≡ true
      → 1 ≤ count p xs
  unfolding count find_first
  found_once p q v w [] h k = cc h
  found_once p q v w (x ∷ xs) h k = ground (arith, h, k, found_once p q v w xs)

  pub found_same :
      (p q : A → Bool) (v w : A) (xs : List A)
      → count p xs ≤ 1
      → find_first p xs ≡ some v
      → find_first q xs ≡ some w
      → p w ≡ true
      → w ≡ v
  unfolding count find_first
  found_same p q v w [] c h k t = cc h
  found_same p q v w (x ∷ xs) c h k t =
      ground (arith, c, h, k, t, found_once p q v w xs, found_same p q v w xs)

  pub length-erase_first :
      (q : A → Bool) (v : A) (xs : List A)
      → find_first q xs ≡ some v
      → length xs ≡ suc (length (erase_first q xs))
  unfolding erase_first find_first
  length-erase_first q v [] h = cc h
  length-erase_first q v (x ∷ xs) h = ground (arith, h, length-erase_first q v xs)

  pub length-insert_at : (n : ℕ) (v : A) (xs : List A) → length (insert_at n v xs) ≡ suc (length xs)
  unfolding insert_at
  length-insert_at zero v xs = refl
  length-insert_at (suc n) v [] = refl
  length-insert_at (suc n) v (x ∷ xs) = ap suc (length-insert_at n v xs)

  pub length-modify_first :
      (q : A → Bool) (w : A) (xs : List A) → length (modify_first q (λ old. w) xs) ≡ length xs
  unfolding modify_first
  length-modify_first q w [] = refl
  length-modify_first q w (x ∷ xs) = ground (arith, length-modify_first q w xs)

  -- An element inserted at a place of the list is there, and without it the list is as before.
  pub get_elem?-insert_at :
      (n : ℕ) (v : A) (xs : List A)
      → n ≤ length xs
      → (get_elem? (insert_at n v xs) n ≡ some v)
        × (take n (insert_at n v xs) ++ drop (suc n) (insert_at n v xs) ≡ xs)
  unfolding insert_at
  get_elem?-insert_at zero v xs h = (refl, refl)
  get_elem?-insert_at (suc n) v [] h = absurd (omega (arith, h))
  get_elem?-insert_at (suc n) v (x ∷ xs) h =
      (let (a, b) = get_elem?-insert_at n v xs (omega (arith, h)) in (a, ap (◌∷◌ x) b))
