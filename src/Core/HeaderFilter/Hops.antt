-- ===== src/Core/HeaderFilter/Hops.antt =====
-- What the header filter of src/transport/header_filter.cpp removes, and that one pass is enough.

use cc_switch_trans.Common.{
  ℕ, ◌≡◌, ◌≢◌, refl, inl, inr, Bool, true, false, not, ◌&&◌, [], ◌∷◌, ◌++◌, Text, codes, text_eq,
  text_eq_iff, text_eq_refl, any, all, ◌==◌, arith, Bool-cases,
}
use cc_switch_trans.Core.Url.{lower_copy, split_on, to_lower}
use cc_switch_trans.Core.HeaderFilter.{
  Headers, is_standard_hop_by_hop_name, is_space, trim_start, trim_end, names, connection_nominates,
  passes, filter_loop, filter_headers,
}
use cc_switch_trans.Core.HeaderFilter.Pieces.{Starts, Stops, any-split_on}

abbrev is_connection : Text → Bool
is_connection name = text_eq (lower_copy name) (codes "connection")

connection_skipped :
    (name : Text) (request : Bool)
    → is_connection name ≡ true
    → is_standard_hop_by_hop_name (lower_copy name) request ≡ true
unfolding is_standard_hop_by_hop_name
connection_skipped name request h =
    ground
      (arith, text_eq_refl (codes "connection"), text_eq_iff (lower_copy name) (codes "connection"))

-- A list without a Connection header nominates nothing.
abbrev Quiet : Headers → Type 0
Quiet [] = Unit {0}
Quiet ((name, value) ∷ headers) = (is_connection name ≡ false) × Quiet headers

Quiet-nominates :
    (headers : Headers) (n : Text) → Quiet headers → connection_nominates headers n ≡ false
unfolding connection_nominates
Quiet-nominates [] n q = refl
Quiet-nominates ((name, value) ∷ headers) n q = ground (arith, q.0, Quiet-nominates headers n q.1)

filter_loop-Quiet :
    (all headers : Headers) (request : Bool) → Quiet (filter_loop all request headers)
unfolding filter_loop passes
filter_loop-Quiet all [] request = tt
filter_loop-Quiet all ((name, value) ∷ headers) request =
    elim (Bool-cases (passes all request (lower_copy name))) [
      | inl p ↦ ground (
        arith,
        p,
        connection_skipped name request,
        filter_loop-Quiet all headers request,
        Bool-cases (is_connection name),
      )
      | inr n ↦ ground (arith, n, filter_loop-Quiet all headers request)
    ]

refilter :
    (out all headers : Headers) (request : Bool)
    → Quiet out
    → filter_loop out request (filter_loop all request headers) ≡ filter_loop all request headers
unfolding filter_loop passes
refilter out all [] request q = refl
refilter out all ((name, value) ∷ headers) request q =
    ground (arith, refilter out all headers request q, Quiet-nominates out (lower_copy name) q)

-- Filtering what was filtered changes nothing: the first pass removes every Connection header, so
-- nothing is nominated any more.
filter_headers_idem :
    (headers : Headers) (request : Bool)
    → filter_headers (filter_headers headers request) request ≡ filter_headers headers request
unfolding filter_headers
filter_headers_idem headers request =
    refilter (filter_loop headers request headers) headers headers request
      (filter_loop-Quiet headers headers request)

abbrev IsSpaces : Text → Type 0
IsSpaces w = all is_space w ≡ true

abbrev IsToken : Text → Type 0
IsToken t = (all (λ x. not (is_space x) && not (x == b',')) t ≡ true) × (t ≢ [])

trim_start-spaces : (w s : Text) → IsSpaces w → trim_start (w ++ s) ≡ trim_start s
unfolding trim_start
trim_start-spaces [] s h = refl
trim_start-spaces (c ∷ w) s h = ground (arith, trim_start-spaces w s)

trim_end-spaces : (w : Text) → IsSpaces w → trim_end w ≡ []
unfolding trim_end
trim_end-spaces [] h = refl
trim_end-spaces (c ∷ w) h = ground (arith, trim_end-spaces w)

trim_end-token :
    (t w : Text)
    → all (λ x. not (is_space x) && not (x == b',')) t ≡ true
    → IsSpaces w
    → trim_end (t ++ w) ≡ t
unfolding trim_end
trim_end-token [] w h s = trim_end-spaces w s
trim_end-token (c ∷ []) w h s = ground (arith, h, trim_end-spaces w s)
trim_end-token (c ∷ d ∷ t) w h s = ground (arith, h, trim_end-token (d ∷ t) w (ground arith) s)

trim_start-token : (c : ℕ) (s : Text) → is_space c ≡ false → trim_start (c ∷ s) ≡ c ∷ s
unfolding trim_start
trim_start-token c s h = ground arith

trimmed :
    (w t w' : Text)
    → IsSpaces w
    → IsToken t
    → IsSpaces w'
    → trim_end (trim_start (w ++ (t ++ w'))) ≡ t
trimmed w [] w' a b c = absurd (b.1 refl)
trimmed w (x ∷ t) w' a b c =
    rw (trim_start-spaces w ((x ∷ t) ++ w') a, trim_start-token x (t ++ w') (ground arith))
      (trim_end-token (x ∷ t) w' b.0 c)

all-append :
    (f : ℕ → Bool) (xs ys : Text) → all f xs ≡ true → all f ys ≡ true → all f (xs ++ ys) ≡ true
all-append f [] ys a b = b
all-append f (x ∷ xs) ys a b = ground (arith, all-append f xs ys)

token_comma :
    (t : Text)
    → all (λ x. not (is_space x) && not (x == b',')) t ≡ true
    → all (λ x. not (x == b',')) t ≡ true
token_comma [] h = refl
token_comma (x ∷ t) h = ground (arith, token_comma t)

comma_no_space : (y : ℕ) → is_space y ≡ true → not (y == b',') ≡ true
unfolding is_space
comma_no_space y k = ground arith

spaces_comma : (w : Text) → IsSpaces w → all (λ x. not (x == b',')) w ≡ true
spaces_comma [] h = refl
spaces_comma (x ∷ w) h = ground (arith, spaces_comma w, comma_no_space x)

lower_copy_idem : (s : Text) → lower_copy (lower_copy s) ≡ lower_copy s
unfolding lower_copy to_lower
lower_copy_idem [] = refl
lower_copy_idem (c ∷ s) = ground (arith, lower_copy_idem s)

nominates_at :
    (before after : Headers) (name value n : Text)
    → is_connection name ≡ true
    → any (names n) (split_on b',' value) ≡ true
    → connection_nominates (before ++ (name, value) ∷ after) n ≡ true
unfolding connection_nominates
nominates_at [] after name value n h k = ground arith
nominates_at ((m, v) ∷ before) after name value n h k =
    ground (arith, nominates_at before after name value n h k)

filter_loop-all :
    (all_headers headers : Headers) (request : Bool) (n : Text)
    → connection_nominates all_headers n ≡ true
    → all (λ h. not (text_eq (lower_copy h.0) n)) (filter_loop all_headers request headers) ≡ true
unfolding filter_loop passes
filter_loop-all all_headers [] request n h = refl
filter_loop-all all_headers ((name, value) ∷ headers) request n h =
    ground (arith, filter_loop-all all_headers headers request n h, text_eq_iff (lower_copy name) n)

-- A token that a Connection header lists, in any position, between any white space and in any
-- case, takes every header of that name out of the message, also in any case.
pub nominated_removed :
    (before after : Headers) (name p w t w' q : Text) (request : Bool)
    → is_connection name ≡ true
    → Starts b',' p
    → IsSpaces w
    → IsToken t
    → IsSpaces w'
    → Stops b',' q
    → all
        (λ h. not (text_eq (lower_copy h.0) (lower_copy t)))
        (filter_headers (before ++ (name, p ++ ((w ++ (t ++ w')) ++ q)) ∷ after) request)
      ≡ true
unfolding filter_headers
nominated_removed before after name p w t w' q request c s a b d e =
    let value = p ++ ((w ++ (t ++ w')) ++ q) in
    let named : names (lower_copy t) (w ++ (t ++ w')) ≡ true =
      unfold names in rw (trimmed w t w' a b d, lower_copy_idem t) (text_eq_refl (lower_copy t)) in
    let no_comma =
      all-append (λ x. not (x == b',')) w (t ++ w') (spaces_comma w a)
        (all-append (λ x. not (x == b',')) t w' (token_comma t b.0) (spaces_comma w' d)) in
    filter_loop-all _ _ request (lower_copy t) (
      nominates_at before after name value (lower_copy t) c
        (any-split_on b',' (names (lower_copy t)) p (w ++ (t ++ w')) q s no_comma e named))
