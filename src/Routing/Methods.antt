-- ===== src/Routing/Methods.antt =====
-- The sorted methods of a path (src/routing/route_table.cpp).
use cc_switch_trans.Common.{
  ◌≡◌, refl, inl, inr, Bool, true, false, ◌||◌, List, [], ◌∷◌, ◌++◌, Text, text_eq, text_eq_iff,
  any, arith, Bool-cases,
}
use cc_switch_trans.Routing.{text_lt, insert_sorted, sort}

-- Whether the text is in the list.
abbrev pub has_method : Text → List Text → Bool
has_method m = any (text_eq m)

-- Each method is less than all that follow it, so none stands twice.
abbrev pub IsAscending : List Text → Type 0
IsAscending [] = Unit {0}
IsAscending (m ∷ ms) = ((n : Text) → has_method n ms ≡ true → text_lt m n ≡ true) × IsAscending ms

text_lt_irrefl : (a : Text) → text_lt a a ≡ false
unfolding text_lt
text_lt_irrefl [] = refl
text_lt_irrefl (x ∷ a) = ground (arith, text_lt_irrefl a)

text_lt_trans : (a b c : Text) → text_lt a b ≡ true → text_lt b c ≡ true → text_lt a c ≡ true
unfolding text_lt
text_lt_trans [] [] c h k = ground (arith, h)
text_lt_trans [] (y ∷ b) [] h k = ground (arith, k)
text_lt_trans [] (y ∷ b) (z ∷ c) h k = refl
text_lt_trans (x ∷ a) [] c h k = ground (arith, h)
text_lt_trans (x ∷ a) (y ∷ b) [] h k = ground (arith, k)
text_lt_trans (x ∷ a) (y ∷ b) (z ∷ c) h k = ground (arith, h, k, text_lt_trans a b c)

-- Two texts of which neither is less are the same.
text_lt_total : (a b : Text) → text_lt a b ≡ false → text_lt b a ≡ false → text_eq a b ≡ true
unfolding text_lt text_eq
text_lt_total [] [] h k = refl
text_lt_total [] (y ∷ b) h k = ground (arith, h)
text_lt_total (x ∷ a) [] h k = ground (arith, k)
text_lt_total (x ∷ a) (y ∷ b) h k = ground (arith, h, k, text_lt_total a b)

has_method-insert_sorted :
    (k m : Text) (ms : List Text)
    → has_method k (insert_sorted m ms) ≡ (text_eq k m || has_method k ms)
unfolding insert_sorted
has_method-insert_sorted k m [] = refl
has_method-insert_sorted k m (n ∷ ns) = ground (arith, has_method-insert_sorted k m ns)

has_method-append :
    (k : Text) (ms ns : List Text) → has_method k (ms ++ ns) ≡ (has_method k ms || has_method k ns)
has_method-append k [] ns = refl
has_method-append k (m ∷ ms) ns = ground (arith, has_method-append k ms ns)

has_method-sort : (k : Text) (ms : List Text) → has_method k (sort ms) ≡ has_method k ms
unfolding sort
has_method-sort k [] = refl
has_method-sort k (m ∷ ms) =
    ground (arith, has_method-insert_sorted k m (sort ms), has_method-sort k ms)

insert_sorted-IsAscending :
    (m : Text) (ms : List Text)
    → has_method m ms ≡ false
    → IsAscending ms
    → IsAscending (insert_sorted m ms)
unfolding insert_sorted
insert_sorted-IsAscending m [] f v = (λ n h. ground (arith, h), tt)
insert_sorted-IsAscending m (n ∷ ns) f v = elim (Bool-cases (text_lt n m)) [
  | inl y ↦ rw y (
    λ k h. ground (arith, y, h, v.0 k, has_method-insert_sorted k m ns, text_eq_iff k m),
    insert_sorted-IsAscending m ns (ground (arith, f)) v.1,
  )
  | inr z ↦
      let less : text_lt m n ≡ true = ground (arith, f, z, text_lt_total m n) in
      rw z (λ k h. ground (arith, less, h, v.0 k, text_eq_iff k n, text_lt_trans m n k), v)
]

-- The methods with one more, as `add` sorts them.
abbrev pub with_method : List Text → Text → List Text
with_method ms m = sort (ms ++ m ∷ [])

pub has_method-with_method :
    (k m : Text) (ms : List Text)
    → has_method k (with_method ms m) ≡ (text_eq k m || has_method k ms)
has_method-with_method k m ms =
    ground (arith, has_method-sort k (ms ++ m ∷ []), has_method-append k ms (m ∷ []))

pub with_method-IsAscending :
    (m : Text) (ms : List Text)
    → has_method m ms ≡ false
    → IsAscending ms
    → IsAscending (with_method ms m)
unfolding sort
with_method-IsAscending m [] f v = insert_sorted-IsAscending m [] refl tt
with_method-IsAscending m (n ∷ ns) f v =
    insert_sorted-IsAscending n (with_method ns m)
      (ground (
        arith,
        f,
        has_method-with_method n m ns,
        v.0 n,
        text_lt_irrefl n,
        text_eq_iff n m,
        text_eq_iff m n,
      ))
      (with_method-IsAscending m ns (ground (arith, f)) v.1)
