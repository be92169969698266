-- ===== src/Core/Url/Safety.antt =====
-- What cannot stand in a canonical path of src/core/url.cpp, said of its bytes.
use mathlib.Core.List.{append_assoc}
use cc_switch_trans.Common.{
  ℕ, ◌≤◌, ◌≡◌, ◌≢◌, refl, sym, ap, ◌∙◌, ◌⊎◌, inl, inr, Bool, true, not, ◌&&◌, List, [], ◌∷◌, ◌++◌,
  Text, length, drop, any, all, ◌==◌, arith, codes, text_eq,
}
use cc_switch_trans.Core.Url.{
  canonical, is_control, path_round, plain, escape, escape_round, is_hex, has_double_slash,
  split_on, is_dot_segment, ends_with, begins_with, canonicalize_http_path,
}
use cc_switch_trans.Core.Url.Units.{Units, done, keep, keep_escape}
use cc_switch_trans.Core.Url.Canonical.{Passed, canonicalize-IsCanonical}

-- Bytes that a request line cannot carry in a path: controls, a query, a fragment, a backslash.
abbrev is_clean : ℕ → Bool
is_clean ch = not (is_control ch) && not (ch == b'?') && not (ch == b'#') && not (ch == 0x5c)

plain_clean : (ch : ℕ) (s : Text) → path_round ch s ≡ plain → is_clean ch ≡ true
unfolding path_round
plain_clean ch s h = ground arith

hex_clean :
    (h l : ℕ) (s : Text)
    → path_round b'%' (h ∷ l ∷ s) ≡ escape (b'%' ∷ h ∷ l ∷ [])
    → (is_clean h ≡ true) × (is_clean l ≡ true)
unfolding path_round escape_round is_hex
hex_clean h l s e = ground arith

Units-clean : {s : Text} → Units s → all is_clean s ≡ true
Units-clean done = refl
Units-clean (keep ch p u) = ground (arith, plain_clean ch _ p, Units-clean u)
Units-clean (keep_escape h l p u) = ground (arith, hex_clean h l _ p, Units-clean u)

double_slash-found : (p q : Text) → has_double_slash (p ++ b'/' ∷ b'/' ∷ q) ≡ true
unfolding has_double_slash
double_slash-found [] q = refl
double_slash-found (a ∷ []) q = ground arith
double_slash-found (a ∷ b ∷ p) q = ground (arith, double_slash-found (b ∷ p) q)

-- A segment that starts the text.
first_segment :
    (q : Text)
    → (q ≡ []) ⊎ (begins_with b'/' q ≡ true)
    → any is_dot_segment (split_on b'/' (codes ".." ++ q)) ≡ true
unfolding split_on is_dot_segment text_eq
first_segment [] h = refl
first_segment (c ∷ q) h = ground arith

first_dot :
    (q : Text)
    → (q ≡ []) ⊎ (begins_with b'/' q ≡ true)
    → any is_dot_segment (split_on b'/' (codes "." ++ q)) ≡ true
unfolding split_on is_dot_segment text_eq
first_dot [] h = refl
first_dot (c ∷ q) h = ground arith

any-drop_one :
    (xs : List Text) → any is_dot_segment (drop 1 xs) ≡ true → any is_dot_segment xs ≡ true
any-drop_one [] h = h
any-drop_one (x ∷ xs) h = ground arith

-- A segment that stands behind a slash.
later_segment :
    (p s : Text)
    → ends_with b'/' p ≡ true
    → any is_dot_segment (split_on b'/' s) ≡ true
    → any is_dot_segment (drop 1 (split_on b'/' (p ++ s))) ≡ true
unfolding ends_with split_on
later_segment [] s e h = cc
later_segment (a ∷ []) s e h = ground arith
later_segment (a ∷ b ∷ p) s e h =
    ground (arith, later_segment (b ∷ p) s e h, any-drop_one (split_on b'/' ((b ∷ p) ++ s)))

abbrev IsDots : Text → Type 0
IsDots d = (d ≡ codes ".") ⊎ (d ≡ codes "..")

dots_found :
    (d q : Text)
    → IsDots d
    → (q ≡ []) ⊎ (begins_with b'/' q ≡ true)
    → any is_dot_segment (split_on b'/' (d ++ q)) ≡ true
dots_found d q (inl e) h = rw e (first_dot q h)
dots_found d q (inr e) h = rw e (first_segment q h)

ends_slash : (p : Text) → ends_with b'/' (p ++ b'/' ∷ []) ≡ true
unfolding ends_with
ends_slash [] = refl
ends_slash (a ∷ []) = refl
ends_slash (a ∷ b ∷ p) = ends_slash (b ∷ p)

-- What keeps a path from climbing out of the route that it names.
pub record IsSafe (c : Text) : Type 0 where
  pub rooted : begins_with b'/' c ≡ true
  pub short : length c ≤ 2048
  pub clean : all is_clean c ≡ true
  pub no_empty : (p q : Text) → c ≢ p ++ b'/' ∷ b'/' ∷ q
  pub no_dots :
      (p d q : Text)
      → IsDots d
      → (q ≡ []) ⊎ (begins_with b'/' q ≡ true)
      → c ≢ p ++ (b'/' ∷ (d ++ q))

dots_absent :
    (c p d q : Text)
    → Passed c
    → IsDots d
    → (q ≡ []) ⊎ (begins_with b'/' q ≡ true)
    → c ≢ p ++ (b'/' ∷ (d ++ q))
dots_absent c [] d q v h k e = cc (
  dots_found d q h k,
  ap (λ (x : Text). any is_dot_segment (split_on b'/' (drop 1 x))) e,
  v.no_dots,
)
dots_absent c (a ∷ p) d q v h k e = cc (
  ap (λ (x : Text). any is_dot_segment (split_on b'/' (drop 1 x)))
      (e ∙ sym (append_assoc (a ∷ p) (b'/' ∷ []) (d ++ q))),
  any-drop_one (split_on b'/' ((p ++ b'/' ∷ []) ++ (d ++ q)))
      (later_segment (p ++ b'/' ∷ []) (d ++ q) (ends_slash p) (dots_found d q h k)),
  v.no_dots,
)

-- A path that canonicalisation returns starts with a slash, has at most 2048 bytes, holds no control
-- character, query, fragment or backslash, no two slashes in a row and no segment "." or "..".
pub canonicalize-IsSafe : (raw c : Text) → canonicalize_http_path raw ≡ canonical c → IsSafe c
canonicalize-IsSafe raw c h =
    let v = canonicalize-IsCanonical raw c h in
    record {
      rooted = v.rooted;
      short = v.short;
      clean = Units-clean v.units;
      no_empty = λ p q e. cc (double_slash-found p q, ap has_double_slash e, (v.passed).single);
      no_dots = λ p d q g k. dots_absent c p d q v.passed g k;
    }
