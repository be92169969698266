-- ===== src/Core/Sha256/Stream.antt =====
-- The blocks that src/core/sha256.cpp takes from a content, however it arrives.
use Prim.Native.Nat.{min}
use mathlib.Core.List.{append-nil, append_assoc, flatten}
use cc_switch_trans.Common.{
  ℕ, zero, suc, ◌+◌, ◌-◌, ◌%◌, ◌^◌, ◌≤◌, ◌<◌, ◌≡◌, refl, sym, ap, ◌∙◌, subst, inl, inr, some, List,
  [], ◌∷◌, ◌++◌, Text, length, take, drop, empty?, leb, ◌==◌, if◌then◌else◌, arith, length-append,
  length-take, length-drop, take-append-drop, take-append, drop-append, Bool-cases, nil_of_length,
}
use cc_switch_trans.Core.Sha256.{
  transform, Sha256, update_loop, fill_buffer, update, update_counted, copied, initial_hash,
  file_loop,
}

-- Compressing the blocks of `s` from the chaining value `h` on gives `h'`, with `t` left over.
pub data Absorbs : List ℕ → Text → List ℕ → Text → Type 0 where
  rest : {h : List ℕ} {s : Text} → length s < 64 → Absorbs h s h s
  block :
      {h h' : List ℕ} {s t : Text}
      → 64 ≤ length s
      → Absorbs (transform h (take 64 s)) (drop 64 s) h' t
      → Absorbs h s h' t

pub Absorbs-left :
    {h h' : List ℕ} {s t : Text} → Absorbs h s h' t → (length t < 64) × (length s % 64 ≡ length t)
Absorbs-left (rest l) = (l, omega arith)
Absorbs-left (block {s = s} b a) =
    let (l, e) = Absorbs-left a in (l, omega (arith, e, l, length-drop 64 s))

-- What is left over of one piece is completed by the next.
pub Absorbs-append :
    {h h' h'' : List ℕ} {s t u : Text} (c : Text)
    → Absorbs h s h' t
    → Absorbs h' (t ++ c) h'' u
    → Absorbs h (s ++ c) h'' u
Absorbs-append c (rest l) a' = a'
Absorbs-append c (block {h = h} {s = s} b a) a' =
    block (omega (arith, length-append s c))
      (rw (take-append 64 s c b, drop-append 64 s c b) (Absorbs-append c a a'))

-- What `r` has taken of the bytes `c` from the state `s` on.
pub record Took (s : Sha256) (c : Text) (r : Sha256) : Type 0 where
  pub absorbed : Absorbs s.hash c r.hash r.buffer
  pub total : r.total_bytes ≡ s.total_bytes

keep_rest :
    (s : Sha256) (r : Text)
    → s.buffer ≡ []
    → length r < 64
    → Took s r (if empty? r then s else record s { buffer = r })
keep_rest s [] e l = record { absorbed = rw e (rest l); total = refl }
keep_rest s (b ∷ r) e l = record { absorbed = rest l; total = refl }

update_loop-Took :
    (fuel : ℕ) (s : Sha256) (r : Text)
    → s.buffer ≡ []
    → length r < fuel
    → Took s r (update_loop fuel s r)
unfolding update_loop
update_loop-Took zero s r e l = absurd (omega arith)
update_loop-Took (suc fuel) s r e l = elim (Bool-cases (leb 64 (length r))) [
  | inl y ↦
      (let shorter : length (drop 64 r) < fuel = ground (arith, y, length-drop 64 r) in
        let next =
          update_loop-Took fuel (record s { hash = transform s.hash (take 64 r) }) (drop 64 r) e
            shorter in
        rw y (record { absorbed = block (ground (arith, y)) next.absorbed; total = next.total }))
  | inr n ↦ rw n (keep_rest s r e (ground (arith, n)))
]

take_all : (n : ℕ) (s : Text) → length s ≤ n → take n s ≡ s
take_all zero [] h = refl
take_all zero (b ∷ s) h = elim h [ ]
take_all (suc n) [] h = refl
take_all (suc n) (b ∷ s) h = ap (◌∷◌ b) (take_all n s (omega arith))

-- A block that is just full is compressed and leaves nothing.
pub whole_block : (h : List ℕ) (b : Text) → length b ≡ 64 → Absorbs h b (transform h b) []
whole_block h b e = block (omega (arith, e)) (
    rw
      (
        take_all 64 b (omega (arith, e)),
        nil_of_length (drop 64 b) (omega (arith, e, length-drop 64 b)),
      )
      (rest (omega arith)))

-- The bytes that are copied and those that are not.
split_content : (s : Sha256) (c : Text) (n : ℕ) → (s.buffer ++ take n c) ++ drop n c ≡ s.buffer ++ c
split_content s c n =
    append_assoc s.buffer (take n c) (drop n c)
    ∙ ap (λ (t : Text). s.buffer ++ t) (take-append-drop n c)

update_loop-nil : (fuel : ℕ) (s : Sha256) → update_loop (suc fuel) s [] ≡ s
unfolding update_loop
update_loop-nil fuel s = refl

fill-Took :
    (s : Sha256) (c : Text) (n : ℕ)
    → length s.buffer < 64
    → n ≡ min (length c) (64 - length s.buffer)
    → Absorbs s.hash
        (s.buffer ++ c)
        (update_loop (suc (length c)) (fill_buffer s (take n c)) (drop n c)).hash
        (update_loop (suc (length c)) (fill_buffer s (take n c)) (drop n c)).buffer
      × ((update_loop (suc (length c)) (fill_buffer s (take n c)) (drop n c)).total_bytes
          ≡ s.total_bytes)
unfolding fill_buffer
fill-Took s c n l e = elim (Bool-cases (length (s.buffer ++ take n c) == 64)) [
  | inl y ↦
      (let full : length (s.buffer ++ take n c) ≡ 64 = ground (arith, y) in
        let next =
          update_loop-Took (suc (length c))
            (record s { hash = transform s.hash (s.buffer ++ take n c); buffer = [] }) (drop n c)
            refl (omega (arith, length-drop n c)) in
        rw y (
          rw (← split_content s c n) (
              Absorbs-append (drop n c) (whole_block s.hash (s.buffer ++ take n c) full)
                next.absorbed),
          next.total,
        ))
  | inr m ↦
      (let short : length (s.buffer ++ take n c) < 64 =
          ground (arith, m, length-append s.buffer (take n c), length-take n c) in
        let all_in : length c ≤ n =
          omega (arith, short, length-append s.buffer (take n c), length-take n c) in
        let none_left : drop n c ≡ [] = nil_of_length (drop n c) (omega (arith, length-drop n c)) in
        rw (m, none_left, update_loop-nil, take_all n c all_in)
          (
            rest (subst (λ (t : Text). length (s.buffer ++ t) < 64) (take_all n c all_in) short),
            refl,
          ))
]

update_counted-Took :
    (s : Sha256) (c : Text)
    → length s.buffer < 64
    → Absorbs s.hash (s.buffer ++ c) (update_counted s c).hash (update_counted s c).buffer
      × ((update_counted s c).total_bytes ≡ s.total_bytes)
unfolding update_counted copied
update_counted-Took s c l = elim (Bool-cases (empty? s.buffer)) [
  | inl y ↦
      (let e : s.buffer ≡ [] = ground (arith, y) in
        let t = update_loop-Took (suc (length c)) s c e (omega arith) in
        rw y (
          subst
              (λ (b : Text).
                Absorbs s.hash (b ++ c) (update_loop (suc (length c)) s c).hash
                  (update_loop (suc (length c)) s c).buffer)
              (sym e) t.absorbed,
          t.total,
        ))
  | inr n ↦ rw n (fill-Took s c (min (length c) (64 - length s.buffer)) l refl)
]

-- The state holds the content `m`.
pub record Holds (s : Sha256) (m : Text) : Type 0 where
  pub absorbed : Absorbs initial_hash m s.hash s.buffer
  pub counted : s.total_bytes ≡ length m
  pub fits : length m < 2 ^ 64

update_fits :
    (s : Sha256) (m c : Text)
    → s.total_bytes ≡ length m
    → length m + length c < 2 ^ 64
    → update s c ≡ some (update_counted (record s { total_bytes = s.total_bytes + length c }) c)
unfolding update
update_fits s m c e f = ground (arith, e, f)

-- An update holds what was held and the content behind it, as long as the size fits.
pub update-Holds :
    (s : Sha256) (m c : Text)
    → Holds s m
    → length (m ++ c) < 2 ^ 64
    → (s' : Sha256) × (update s c ≡ some s') × Holds s' (m ++ c)
update-Holds s m c v f =
    let (l, _) = Absorbs-left v.absorbed in
    let (taken, counted) =
      update_counted-Took (record s { total_bytes = s.total_bytes + length c }) c l in
    (
      update_counted (record s { total_bytes = s.total_bytes + length c }) c,
      update_fits s m c v.counted (omega (arith, f, length-append m c)),
      record {
        absorbed = Absorbs-append c v.absorbed taken;
        counted = omega (arith, counted, v.counted, length-append m c);
        fits = f;
      },
    )

-- The pieces of a file are held one behind the other.
pub file_loop-Holds :
    (s : Sha256) (m : Text) (ps : List Text)
    → Holds s m
    → length (m ++ flatten ps) < 2 ^ 64
    → (s' : Sha256) × (file_loop s ps ≡ some s') × Holds s' (m ++ flatten ps)
unfolding file_loop flatten
file_loop-Holds s m [] v f = (s, refl, rw append-nil v)
file_loop-Holds s m ([] ∷ ps) v f = file_loop-Holds s m ps v f
file_loop-Holds s m ((b ∷ p) ∷ ps) v f =
    let f' : length ((m ++ b ∷ p) ++ flatten ps) < 2 ^ 64 =
      rw (append_assoc m (b ∷ p) (flatten ps)) f in
    let (s', e, v') =
      update-Holds s m (b ∷ p) v (omega (arith, f', length-append (m ++ b ∷ p) (flatten ps))) in
    let (s'', e', v'') = file_loop-Holds s' (m ++ b ∷ p) ps v' f' in
    (s'', rw (e, e') refl, rw (← append_assoc m (b ∷ p) (flatten ps)) v'')

-- Compression is determined by the content.
pub Absorbs-unique :
    {h h' k : List ℕ} {s t u : Text} → Absorbs h s h' t → Absorbs h s k u → (h' ≡ k) × (t ≡ u)
Absorbs-unique (rest l) (rest l') = (refl, refl)
Absorbs-unique (rest l) (block b a) = absurd (omega arith)
Absorbs-unique (block b a) (rest l) = absurd (omega arith)
Absorbs-unique (block b a) (block b' a') = Absorbs-unique a a'
