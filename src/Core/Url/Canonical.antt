-- ===== src/Core/Url/Canonical.antt =====
-- The canonical paths of src/core/url.cpp: a canonical path is a fixed point, and has nothing in it
-- by which a route could be escaped.

use cc_switch_trans.Common.{
  ℕ, ◌≤◌, ◌<◌, ◌≡◌, ◌≢◌, refl, sym, ap, ◌∙◌, ◌⊎◌, inl, inr, Bool, true, false, ◌&&◌, List, [], ◌∷◌,
  ◌++◌, Text, length, length-append, drop, any, ltb, ◌==◌, arith, subst, Bool-cases,
}
use cc_switch_trans.Core.Url.{
  is_hex, PathResult, canonical, rejected, path_loop, path_round, escape, escape_round,
  has_double_slash, split_on, is_dot_segment, ends_with, begins_with, pop_back, finish_path,
  and_then, canonicalize_http_path,
}
use cc_switch_trans.Core.Url.Units.{
  plain_rest, Units, done, keep, keep_escape, path_loop-Units, Units-path_loop, path_loop-length,
  path_loop-slash,
}

pub pop_back-append : (c : ℕ) (s : Text) → ends_with c s ≡ true → s ≡ pop_back s ++ c ∷ []
unfolding ends_with pop_back
pop_back-append c [] h = cc
pop_back-append c (a ∷ []) h = ground arith
pop_back-append c (a ∷ b ∷ s) h = ap (◌∷◌ a) (pop_back-append c (b ∷ s) h)

double_slash-append :
    (y : Text)
    → has_double_slash (y ++ b'/' ∷ []) ≡ false
    → (has_double_slash y ≡ false) × (ends_with b'/' y ≡ false)
unfolding has_double_slash ends_with
double_slash-append [] h = (refl, refl)
double_slash-append (a ∷ []) h = ground arith
double_slash-append (a ∷ b ∷ s) h = ground (arith, double_slash-append (b ∷ s))

split_on-append : (y : Text) → split_on b'/' (y ++ b'/' ∷ []) ≡ split_on b'/' y ++ [] ∷ []
unfolding split_on
split_on-append [] = refl
split_on-append (a ∷ y) = ground (arith, split_on-append y, split_on-ne y)
  where
    split_on-ne : (s : Text) → split_on b'/' s ≢ []
    split_on-ne [] = λ h. cc
    split_on-ne (x ∷ s) = ground arith

any-append : (p : Text → Bool) (xs ys : List Text) → any p (xs ++ ys) ≡ false → any p xs ≡ false
any-append p [] ys h = refl
any-append p (x ∷ xs) ys h = ground (arith, any-append p xs ys)

escape_any :
    (h l : ℕ) (s t : Text)
    → path_round b'%' (h ∷ l ∷ s) ≡ escape (b'%' ∷ h ∷ l ∷ [])
    → path_round b'%' (h ∷ l ∷ t) ≡ escape (b'%' ∷ h ∷ l ∷ [])
unfolding path_round escape_round
escape_any h l s t p = p

-- A kept escape does not end in a slash.
no_slash :
    (h l : ℕ) (s : Text)
    → path_round b'%' (h ∷ l ∷ s) ≡ escape (b'%' ∷ h ∷ l ∷ [])
    → (l == b'/') ≡ true
    → ⊥
unfolding path_round escape_round is_hex
no_slash h l s p e = ground arith

pop_back-Units : {s : Text} → Units s → ends_with b'/' s ≡ true → Units (pop_back s)
unfolding ends_with pop_back
pop_back-Units done e = cc
pop_back-Units (keep ch p done) e = done
pop_back-Units (keep ch p (keep d q u)) e =
    keep ch (plain_rest ch _ _ p) (pop_back-Units (keep d q u) e)
pop_back-Units (keep ch p (keep_escape h l q u)) e =
    keep ch (plain_rest ch _ _ p) (pop_back-Units (keep_escape h l q u) e)
pop_back-Units (keep_escape h l p done) e = absurd (no_slash h l _ p e)
pop_back-Units (keep_escape h l p (keep d q u)) e =
    keep_escape h l (escape_any h l _ _ p) (pop_back-Units (keep d q u) e)
pop_back-Units (keep_escape h l p (keep_escape h' l' q u)) e =
    keep_escape h l (escape_any h l _ _ p) (pop_back-Units (keep_escape h' l' q u) e)

-- The two ways in which a path is finished.
data Finished (x c : Text) : Type 0 where
  whole : c ≡ x → ends_with b'/' x ≡ false ⊎ length x ≤ 1 → Finished x c
  cut : x ≡ c ++ b'/' ∷ [] → 1 < length x → c ≡ pop_back x → ends_with b'/' x ≡ true → Finished x c

pub record Passed (x : Text) : Type 0 where
  pub single : has_double_slash x ≡ false
  pub no_dots : any is_dot_segment (split_on b'/' (drop 1 x)) ≡ false

finish_path-Passed : (x c : Text) → finish_path x ≡ canonical c → Passed x
unfolding finish_path
finish_path-Passed x c h = ground arith

finish_path-Finished : (x c : Text) → finish_path x ≡ canonical c → Finished x c
unfolding finish_path
finish_path-Finished x c h = elim (Bool-cases (ltb 1 (length x) && ends_with b'/' x)) [
  | inl t ↦
      let e : ends_with b'/' x ≡ true = ground arith in
      let q : c ≡ pop_back x = ground arith in
      cut (pop_back-append b'/' x e ∙ ap (λ (k : Text). k ++ b'/' ∷ []) (sym q)) (ground arith) q e
  | inr f ↦ whole (ground arith) (ground arith)
]

drop_one-append : (c t : Text) → begins_with b'/' c ≡ true → drop 1 (c ++ t) ≡ drop 1 c ++ t
drop_one-append [] t h = cc
drop_one-append (a ∷ c) t h = refl

rooted_prefix :
    (c : Text) → begins_with b'/' (c ++ b'/' ∷ []) ≡ true → 0 < length c → begins_with b'/' c ≡ true
rooted_prefix [] h l = absurd (omega arith)
rooted_prefix (a ∷ c) h l = h

-- A path that cannot be canonicalised further.
pub record IsCanonical (c : Text) : Type 0 where
  pub rooted : begins_with b'/' c ≡ true
  pub short : length c ≤ 2048
  pub passed : Passed c
  pub open_end : (ends_with b'/' c ≡ false) ⊎ (length c ≤ 1)
  pub units : Units c

finished-IsCanonical :
    (x c : Text)
    → begins_with b'/' x ≡ true
    → length x ≤ 2048
    → Units x
    → Passed x
    → Finished x c
    → IsCanonical c
finished-IsCanonical x c r b u v (whole e o) =
    subst IsCanonical (sym e)
      (record { rooted = r; short = b; passed = v; open_end = o; units = u })
finished-IsCanonical x c r b u v (cut e l q t) =
    let rooted : begins_with b'/' c ≡ true =
      rooted_prefix c (subst (λ (k : Text). begins_with b'/' k ≡ true) e r)
        (omega (arith, ap length e, length-append c (b'/' ∷ []))) in
    let slashes = double_slash-append c (ap has_double_slash (sym e) ∙ v.single) in
    let dots =
      ap (λ (k : Text). any is_dot_segment (split_on b'/' (drop 1 k))) (sym e) ∙ v.no_dots in
    record {
      rooted = rooted;
      short = omega (arith, ap length e, length-append c (b'/' ∷ []));
      passed = record {
        single = slashes.0;
        no_dots = any-append is_dot_segment (split_on b'/' (drop 1 c)) ([] ∷ []) (
            ap (any is_dot_segment) (sym (split_on-append (drop 1 c)))
            ∙ ap (λ (k : Text). any is_dot_segment (split_on b'/' k))
                (sym (drop_one-append c (b'/' ∷ []) rooted))
            ∙ dots);
      };
      open_end = inl slashes.1;
      units = subst Units (sym q) (pop_back-Units u t);
    }

and_then_canonical :
    (r : PathResult) (f : Text → PathResult) (c : Text)
    → and_then r f ≡ canonical c
    → (x : Text) × (r ≡ canonical x) × (f x ≡ canonical c)
and_then_canonical (canonical x) f c h = (x, refl, h)
and_then_canonical (rejected e) f c h = cc

raw_facts :
    (raw c : Text)
    → canonicalize_http_path raw ≡ canonical c
    → (begins_with b'/' raw ≡ true)
      × (length raw ≤ 2048)
      × (and_then (path_loop (length raw) raw) finish_path ≡ canonical c)
unfolding canonicalize_http_path
raw_facts [] c h = cc
raw_facts (a ∷ raw) c h = ground arith

begins_slash : (s : Text) → begins_with b'/' s ≡ true → s ≡ b'/' ∷ drop 1 s
begins_slash [] h = cc
begins_slash (a ∷ s) h = ground arith

loop_rooted :
    (f : ℕ) (raw x : Text)
    → begins_with b'/' raw ≡ true
    → path_loop f raw ≡ canonical x
    → begins_with b'/' x ≡ true
loop_rooted f raw x h e =
    let (out, q) =
      path_loop-slash f (drop 1 raw) x (ap (path_loop f) (sym (begins_slash raw h)) ∙ e) in
    ap (begins_with b'/') q

pub canonicalize-IsCanonical :
    (raw c : Text) → canonicalize_http_path raw ≡ canonical c → IsCanonical c
canonicalize-IsCanonical raw c h =
    let (r, b, e) = raw_facts raw c h in
    let (x, l, f) = and_then_canonical (path_loop (length raw) raw) finish_path c e in
    finished-IsCanonical x c (loop_rooted (length raw) raw x r l)
      (omega (arith, path_loop-length (length raw) raw x l)) (path_loop-Units (length raw) raw x l)
      (finish_path-Passed x c f) (finish_path-Finished x c f)

finish_fixed :
    (c : Text)
    → Passed c
    → (ends_with b'/' c ≡ false) ⊎ (length c ≤ 1)
    → finish_path c ≡ canonical c
unfolding finish_path
finish_fixed c v o = ground arith

canonicalize_fixed : (c : Text) → IsCanonical c → canonicalize_http_path c ≡ canonical c
unfolding canonicalize_http_path
canonicalize_fixed [] v = cc (v.rooted)
canonicalize_fixed (a ∷ c) v = ground (
  arith,
  v.rooted,
  v.short,
  Units-path_loop (length (a ∷ c)) v.units (omega arith),
  finish_fixed (a ∷ c) v.passed v.open_end,
)

-- What is canonicalised is canonical: doing it again changes nothing.
pub canonicalize_idempotent :
    (raw c : Text)
    → canonicalize_http_path raw ≡ canonical c
    → canonicalize_http_path c ≡ canonical c
canonicalize_idempotent raw c h = canonicalize_fixed c (canonicalize-IsCanonical raw c h)
