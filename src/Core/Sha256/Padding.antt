-- ===== src/Core/Sha256/Padding.antt =====
-- The digests of src/core/sha256.cpp against the definition of SHA-256: the content is padded to whole
-- blocks, and the blocks are compressed one after the other.
use mathlib.Core.List.{append_assoc, flatten}
use cc_switch_trans.Common.{
  ℕ, zero, suc, ◌+◌, ◌-◌, ◌*◌, ◌%◌, ◌^◌, ◌<◌, ◌≡◌, refl, sym, ap, ◌∙◌, subst, inl, inr, some, List,
  [], ◌∷◌, ◌++◌, Text, length, ltb, arith, length-append, Bool-cases,
}
use cc_switch_trans.Core.Sha256.{
  transform, Sha256, initial_hash, new_sha256, zeros, length_field, finish_hash, finish, hex_text,
  sha256_hex, sha256_file_hex, update, file_loop,
}
use cc_switch_trans.Core.Sha256.Stream.{
  Absorbs, rest, Absorbs-left, Absorbs-append, whole_block, Holds, update-Holds, file_loop-Holds,
  Absorbs-unique,
}

-- The content, a one bit, the fewest zero bits that leave 64 bits to a whole block, and the number of
-- the content's bits in these.
abbrev pub padded : Text → Text
padded m =
    m ++ ((0x80 ∷ zeros ((119 - length m % 64) % 64)) ++ length_field (length m * 8 % 2 ^ 64))

length-zeros : (n : ℕ) → length (zeros n) ≡ n
unfolding zeros
length-zeros zero = refl
length-zeros (suc n) = ap suc (length-zeros n)

zeros_add : (n m : ℕ) → zeros (n + m) ≡ zeros n ++ zeros m
unfolding zeros
zeros_add zero m = let e : zero + m ≡ m = omega arith in rw e refl
zeros_add (suc n) m =
    let e : suc n + m ≡ suc (n + m) = omega arith in rw e (ap (◌∷◌ 0) (zeros_add n m))

length-length_field : (n : ℕ) → length (length_field n) ≡ 8
unfolding length_field
length-length_field n = refl

mark_assoc : (b z f : Text) → ((b ++ 0x80 ∷ []) ++ z) ++ f ≡ b ++ ((0x80 ∷ z) ++ f)
mark_assoc b z f = append_assoc (b ++ 0x80 ∷ []) z f ∙ append_assoc b (0x80 ∷ []) (z ++ f)

one_block :
    (s : Sha256) (z : ℕ) (f : Text)
    → length f ≡ 8
    → length s.buffer + 1 + z ≡ 56
    → Absorbs s.hash
        (s.buffer ++ ((0x80 ∷ zeros z) ++ f))
        (transform s.hash (((s.buffer ++ 0x80 ∷ []) ++ zeros z) ++ f))
        []
one_block s z f e l = rw (← mark_assoc s.buffer (zeros z) f) (
    whole_block s.hash (((s.buffer ++ 0x80 ∷ []) ++ zeros z) ++ f) (
      omega (
        arith,
        e,
        l,
        length-append ((s.buffer ++ 0x80 ∷ []) ++ zeros z) f,
        length-append (s.buffer ++ 0x80 ∷ []) (zeros z),
        length-append s.buffer (0x80 ∷ []),
        length-zeros z,
      )))

two_blocks :
    (s : Sha256) (z : ℕ) (f : Text)
    → length f ≡ 8
    → length s.buffer + 1 + z ≡ 64
    → Absorbs s.hash
        (s.buffer ++ ((0x80 ∷ zeros (z + 56)) ++ f))
        (transform (transform s.hash ((s.buffer ++ 0x80 ∷ []) ++ zeros z)) (zeros 56 ++ f))
        []
two_blocks s z f e l =
    rw
      (
        zeros_add z 56,
        append_assoc (0x80 ∷ zeros z) (zeros 56) f,
        ← mark_assoc s.buffer (zeros z) (zeros 56 ++ f),
      )
      (Absorbs-append (zeros 56 ++ f)
        (whole_block s.hash ((s.buffer ++ 0x80 ∷ []) ++ zeros z) (
          omega (
            arith,
            l,
            length-append (s.buffer ++ 0x80 ∷ []) (zeros z),
            length-append s.buffer (0x80 ∷ []),
            length-zeros z,
          )))
        (whole_block (transform s.hash ((s.buffer ++ 0x80 ∷ []) ++ zeros z)) (zeros 56 ++ f)
          (omega (arith, e, length-append (zeros 56) f, length-zeros 56))))

-- The last one or two blocks.
finish_hash-Absorbs :
    (s : Sha256)
    → length s.buffer < 64
    → s.total_bytes % 64 ≡ length s.buffer
    → Absorbs s.hash
        (s.buffer
          ++ ((0x80 ∷ zeros ((119 - s.total_bytes % 64) % 64))
              ++ length_field (s.total_bytes * 8 % 2 ^ 64)))
        (finish_hash s)
        []
unfolding finish_hash
finish_hash-Absorbs s l e = elim (Bool-cases (ltb 56 (length (s.buffer ++ 0x80 ∷ [])))) [
  | inl y ↦
      (let marked = length-append s.buffer (0x80 ∷ []) in
        let z : (119 - s.total_bytes % 64) % 64 ≡ (64 - length (s.buffer ++ 0x80 ∷ [])) + 56 =
          ground (arith, y, e, l, marked) in
        rw (y, z)
          (two_blocks s (64 - length (s.buffer ++ 0x80 ∷ []))
            (length_field (s.total_bytes * 8 % 2 ^ 64)) (length-length_field _)
            (omega (arith, l, marked))))
  | inr m ↦
      (let marked = length-append s.buffer (0x80 ∷ []) in
        let z : (119 - s.total_bytes % 64) % 64 ≡ 56 - length (s.buffer ++ 0x80 ∷ []) =
          ground (arith, m, e, l, marked) in
        rw (m, z)
          (one_block s (56 - length (s.buffer ++ 0x80 ∷ []))
            (length_field (s.total_bytes * 8 % 2 ^ 64)) (length-length_field _)
            (ground (arith, m, l, marked))))
]

-- What `finish` makes of a held content.
finish-Absorbs :
    (s : Sha256) (m : Text) → Holds s m → Absorbs initial_hash (padded m) (finish_hash s) []
finish-Absorbs s m v =
    let (l, e) = Absorbs-left v.absorbed in
    Absorbs-append
      ((0x80 ∷ zeros ((119 - length m % 64) % 64)) ++ length_field (length m * 8 % 2 ^ 64))
      v.absorbed
      (subst
        (λ (n : ℕ).
          Absorbs s.hash
            (s.buffer ++ ((0x80 ∷ zeros ((119 - n % 64) % 64)) ++ length_field (n * 8 % 2 ^ 64)))
            (finish_hash s) [])
        v.counted (finish_hash-Absorbs s l (omega (arith, e, v.counted))))

new-Holds : Holds new_sha256 []
new-Holds = record { absorbed = rest (omega arith); counted = refl; fits = omega arith }

sha256_hex_of :
    (m : Text) (s : Sha256) → update new_sha256 m ≡ some s → sha256_hex m ≡ hex_text (finish_hash s)
unfolding sha256_hex finish
sha256_hex_of m s e = rw (e, sha256_hex) refl

sha256_file_hex_of :
    (ps : List Text) (s : Sha256)
    → file_loop new_sha256 ps ≡ some s
    → sha256_file_hex ps ≡ some (hex_text (finish_hash s))
unfolding sha256_file_hex finish
sha256_file_hex_of ps s e = rw (e, sha256_file_hex) refl

-- `sha256_hex` of a content below 2^64 bytes is the text of the hash that compressing the blocks of
-- the padded content gives, with nothing left over.
pub sha256_hex-Absorbs :
    (m : Text)
    → length m < 2 ^ 64
    → (h : List ℕ) × Absorbs initial_hash (padded m) h [] × (sha256_hex m ≡ hex_text h)
sha256_hex-Absorbs m f =
    let (s, e, v) = update-Holds new_sha256 [] m new-Holds f in
    (finish_hash s, finish-Absorbs s m v, sha256_hex_of m s e)

-- The digest of a file does not depend on the pieces in which it is read, empty ones included: if
-- they are below 2^64 bytes together, it is that of the whole content at once.
pub sha256_file_hex-flatten :
    (ps : List Text)
    → length (flatten ps) < 2 ^ 64
    → sha256_file_hex ps ≡ some (sha256_hex (flatten ps))
sha256_file_hex-flatten ps f =
    let (s, e, v) = file_loop-Holds new_sha256 [] ps new-Holds f in
    let (s', e', v') = update-Holds new_sha256 [] (flatten ps) new-Holds f in
    let (same, _) =
      Absorbs-unique (finish-Absorbs s (flatten ps) v) (finish-Absorbs s' (flatten ps) v') in
    sha256_file_hex_of ps s e
    ∙ ap (λ (h : List ℕ). some (hex_text h)) same
    ∙ ap some (sym (sha256_hex_of (flatten ps) s' e'))
