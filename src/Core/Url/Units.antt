-- ===== src/Core/Url/Units.antt =====
-- The loop of `canonicalize_http_path` (src/core/url.cpp): what it writes, it leaves alone when it
-- reads it again.
use cc_switch_trans.Common.{
  ℕ, zero, suc, ◌+◌, ◌*◌, ◌/◌, ◌%◌, ◌≤◌, ◌<◌, ◌≡◌, refl, ap, ◌∙◌, ◌⊎◌, inl, inr, true, false, [],
  ◌∷◌, ◌++◌, Text, length, drop, ◌==◌, arith, length-append, subst, length-drop,
}
use cc_switch_trans.Core.Url.{
  is_hex, hex_value, upper_hex, is_unreserved, PathError, PathResult, canonical, rejected, Round,
  plain, escape, refuse, decoded_round, escape_round, path_round, prepend, path_loop,
}

-- Texts of which every byte is taken over and every escape is written as it stands.
pub data Units : Text → Type 0 where
  done : Units []
  keep : (ch : ℕ) {rest : Text} → path_round ch rest ≡ plain → Units rest → Units (ch ∷ rest)
  keep_escape :
      (h l : ℕ) {rest : Text}
      → path_round b'%' (h ∷ l ∷ rest) ≡ escape (b'%' ∷ h ∷ l ∷ [])
      → Units rest
      → Units (b'%' ∷ h ∷ l ∷ rest)

pub plain_rest : (ch : ℕ) (s t : Text) → path_round ch s ≡ plain → path_round ch t ≡ plain
unfolding path_round escape_round decoded_round
plain_rest ch (h ∷ l ∷ s) t p = ground arith
plain_rest ch [] t p = ground arith
plain_rest ch (h ∷ []) t p = ground arith

hex_value-upper_hex :
    (v : ℕ) → v < 16 → (hex_value (upper_hex v) ≡ v) × (is_hex (upper_hex v) ≡ true)
unfolding hex_value upper_hex is_hex
hex_value-upper_hex v h = ground arith

hex_value-lt : (c : ℕ) → is_hex c ≡ true → hex_value c < 16
unfolding hex_value is_hex
hex_value-lt c h = ground arith

unreserved_plain :
    (d : ℕ) (t : Text) → is_unreserved d ≡ true → (d == b'.') ≡ false → path_round d t ≡ plain
unfolding path_round is_unreserved
unreserved_plain d t h e = ground arith

-- What an escape adds is one unit.
decoded_cases :
    (d : ℕ) (added : Text)
    → decoded_round d ≡ escape added
    → ((added ≡ d ∷ []) × (is_unreserved d ≡ true) × ((d == b'.') ≡ false))
      ⊎ (added ≡ b'%' ∷ upper_hex (d / 16) ∷ upper_hex (d % 16) ∷ [])
unfolding decoded_round
decoded_cases d added h = ground arith

escape_decoded :
    (h l : ℕ) (s added : Text)
    → escape_round (h ∷ l ∷ s) ≡ escape added
    → (is_hex h ≡ true)
      × (is_hex l ≡ true)
      × (decoded_round (hex_value h * 16 + hex_value l) ≡ escape added)
unfolding escape_round
escape_decoded h l s added e = ground arith

round_escape :
    (ch : ℕ) (rest added : Text)
    → path_round ch rest ≡ escape added
    → escape_round rest ≡ escape added
unfolding path_round
round_escape ch rest added e = ground arith

percent_round : (rest : Text) → path_round b'%' rest ≡ escape_round rest
unfolding path_round
percent_round rest = refl

rewritten :
    (d : ℕ) (t : Text)
    → d < 256
    → decoded_round d ≡ escape (b'%' ∷ upper_hex (d / 16) ∷ upper_hex (d % 16) ∷ [])
    → path_round b'%' (upper_hex (d / 16) ∷ upper_hex (d % 16) ∷ t)
      ≡ escape (b'%' ∷ upper_hex (d / 16) ∷ upper_hex (d % 16) ∷ [])
unfolding escape_round
rewritten d t b e =
    let hi = hex_value-upper_hex (d / 16) (omega arith) in
    let lo = hex_value-upper_hex (d % 16) (omega arith) in
    let v : hex_value (upper_hex (d / 16)) * 16 + hex_value (upper_hex (d % 16)) ≡ d =
      omega arith in
    percent_round _ ∙ rw (hi.1, lo.1, v) e

short_escape : (s added : Text) → escape_round s ≡ escape added → length s < 2 → ⊥
unfolding escape_round
short_escape [] added e h = cc
short_escape (a ∷ []) added e h = cc
short_escape (a ∷ b ∷ s) added e h = omega arith

escape_unit :
    (ch : ℕ) (rest added : Text) {out : Text}
    → path_round ch rest ≡ escape added
    → Units out
    → Units (added ++ out)
escape_unit ch [] added e u =
    absurd (short_escape [] added (round_escape ch [] added e) (omega arith))
escape_unit ch (h ∷ []) added e u =
    absurd (short_escape (h ∷ []) added (round_escape ch (h ∷ []) added e) (omega arith))
escape_unit ch (h ∷ l ∷ s) added {out = out} e u =
    let (p, q, r) = escape_decoded h l s added (round_escape ch (h ∷ l ∷ s) added e) in
    let d = hex_value h * 16 + hex_value l in
    elim (decoded_cases d added r) [
      | inl (a, un, dot) ↦ rw a (keep d (unreserved_plain d out un dot) u)
      | inr a ↦ rw a (
          keep_escape (upper_hex (d / 16)) (upper_hex (d % 16))
            (rewritten d out (omega (arith, hex_value-lt h p, hex_value-lt l q)) (r ∙ ap escape a))
            u)
    ]

Round-cases :
    (r : Round)
    → (r ≡ plain) ⊎ ((added : Text) × (r ≡ escape added)) ⊎ ((e : PathError) × (r ≡ refuse e))
Round-cases plain = inl refl
Round-cases (escape added) = inr (inl (added, refl))
Round-cases (refuse e) = inr (inr (e, refl))

prepend_canonical :
    (added : Text) (r : PathResult) (c : Text)
    → prepend added r ≡ canonical c
    → (out : Text) × (r ≡ canonical out) × (c ≡ added ++ out)
prepend_canonical added (canonical out) c h = (out, refl, ground arith)
prepend_canonical added (rejected e) c h = cc

-- The output of the loop is made of units.
pub path_loop-Units : (f : ℕ) (s c : Text) → path_loop f s ≡ canonical c → Units c
unfolding path_loop
path_loop-Units f [] c h = let e : [] ≡ c = ground arith in subst Units e done
path_loop-Units zero (ch ∷ rest) c h = cc
path_loop-Units (suc f) (ch ∷ rest) c h = elim (Round-cases (path_round ch rest)) [
  | inl p ↦
      let (out, e, q) = prepend_canonical (ch ∷ []) (path_loop f rest) c (ground arith) in
      rw q (keep ch (plain_rest ch rest out p) (path_loop-Units f rest out e))
  | inr (inl (added, p)) ↦
      let (out, e, q) = prepend_canonical added (path_loop f (drop 2 rest)) c (ground arith) in
      rw q (escape_unit ch rest added p (path_loop-Units f (drop 2 rest) out e))
  | inr (inr (e, p)) ↦ ground arith
]

-- And the loop copies units.
pub Units-path_loop : (f : ℕ) {c : Text} → Units c → length c ≤ f → path_loop f c ≡ canonical c
unfolding path_loop
Units-path_loop f done b = refl
Units-path_loop zero (keep ch p u) b = absurd (omega arith)
Units-path_loop (suc f) (keep ch p u) b = ground (arith, Units-path_loop f u (omega arith))
Units-path_loop zero (keep_escape h l p u) b = absurd (omega arith)
Units-path_loop (suc f) (keep_escape h l p u) b = ground (arith, Units-path_loop f u (omega arith))

added_length :
    (ch : ℕ) (rest added : Text)
    → path_round ch rest ≡ escape added
    → (length added ≤ 3) × (2 ≤ length rest)
added_length ch [] added e =
    absurd (short_escape [] added (round_escape ch [] added e) (omega arith))
added_length ch (h ∷ []) added e =
    absurd (short_escape (h ∷ []) added (round_escape ch (h ∷ []) added e) (omega arith))
added_length ch (h ∷ l ∷ s) added e =
    let (p, q, r) = escape_decoded h l s added (round_escape ch (h ∷ l ∷ s) added e) in
    elim (decoded_cases (hex_value h * 16 + hex_value l) added r) [
      | inl (a, _, _) ↦ (rw a (omega arith), omega arith)
      | inr a ↦ (rw a (omega arith), omega arith)
    ]

-- The path does not grow.
pub path_loop-length : (f : ℕ) (s c : Text) → path_loop f s ≡ canonical c → length c ≤ length s
unfolding path_loop
path_loop-length f [] c h = let e : [] ≡ c = ground arith in rw (← e) (omega arith)
path_loop-length zero (ch ∷ rest) c h = cc
path_loop-length (suc f) (ch ∷ rest) c h = elim (Round-cases (path_round ch rest)) [
  | inl p ↦
      let (out, e, q) = prepend_canonical (ch ∷ []) (path_loop f rest) c (ground arith) in
      rw q (omega (arith, path_loop-length f rest out e))
  | inr (inl (added, p)) ↦
      let (out, e, q) = prepend_canonical added (path_loop f (drop 2 rest)) c (ground arith) in
      let (small, room) = added_length ch rest added p in
      rw q (
        omega (
          arith,
          length-append added out,
          length-drop 2 rest,
          path_loop-length f (drop 2 rest) out e,
        ))
  | inr (inr (e, p)) ↦ ground arith
]

slash_plain : (rest : Text) → path_round b'/' rest ≡ plain
unfolding path_round
slash_plain rest = refl

-- A leading slash stays.
pub path_loop-slash :
    (f : ℕ) (s c : Text) → path_loop f (b'/' ∷ s) ≡ canonical c → (out : Text) × (c ≡ b'/' ∷ out)
unfolding path_loop
path_loop-slash zero s c h = cc
path_loop-slash (suc f) s c h =
    let (out, _, q) =
      prepend_canonical (b'/' ∷ []) (path_loop f s) c (ground (arith, slash_plain s)) in
    (out, q)
