-- ===== src/Ipc/Frame/Roundtrip.antt =====
-- Frames that a sender encoded, at a receiver (src/gui_ipc/frame_codec.cpp).
use mathlib.Core.Path.{ap₂}
use mathlib.Core.List.{append_assoc, flatten}
use cc_switch_trans.Common.{
  ℕ, ◌+◌, ◌^◌, ◌≤◌, ◌<◌, ◌≡◌, refl, ap, ◌∙◌, ◌↔◌, Option, none, some, List, [], ◌∷◌, ◌++◌, true,
  Text, length, take, drop, arith, length-append, take-append_self, nil_of_length, drop-append_self,
  length-drop, subst,
}
use cc_switch_trans.Ipc.Frame.{
  no_error, FrameDecoder, encoded, refused, fresh, maximum_frame_bytes, encode_frame, length_bytes,
  read_little_endian_length, finish, valid_utf8,
}
use cc_switch_trans.Ipc.Frame.Parser.{more, frame, next_frame, Parses, wait, step}
use cc_switch_trans.Ipc.Frame.Stream.{pending, Settled}
use cc_switch_trans.Ipc.Frame.Consume.{fresh-Settled}
use cc_switch_trans.Ipc.Frame.Delivery.{feed, feed-Implements, Parses-unique, Parses-cast}

-- The sender: one frame after the other; `none` where a payload is refused.
unfoldable pub encode_all : List Text → Option Text
encode_all [] = some []
encode_all (p ∷ ps) = elim (encode_frame p) [
  | encoded bytes ↦ elim (encode_all ps) [ some rest ↦ some (bytes ++ rest) | none ↦ none ]
  | refused e ↦ none
]

encode_inversion :
    (p : Text) (ps : List Text) (s : Text)
    → encode_all (p ∷ ps) ≡ some s
    → (b : Text) × (rest : Text) × (encode_frame p ≡ encoded b)
      × (encode_all ps ≡ some rest)
      × (s ≡ b ++ rest)
unfolding encode_all
encode_inversion p ps s h = ground arith

encode_facts :
    (p b : Text)
    → encode_frame p ≡ encoded b
    → (b ≡ length_bytes (length p) ++ p)
      × (0 < length p)
      × (length p ≤ maximum_frame_bytes)
      × (valid_utf8 p ≡ true)
unfolding encode_frame
encode_facts [] b h = cc
encode_facts (x ∷ p) b h = ground arith

read-length_bytes :
    (n : ℕ) (q : Text) → n < 2 ^ 32 → read_little_endian_length (length_bytes n ++ q) ≡ n
unfolding read_little_endian_length length_bytes
read-length_bytes n q h = omega arith

drop-length_bytes : (n : ℕ) (q : Text) → drop 4 (length_bytes n ++ q) ≡ q
unfolding length_bytes
drop-length_bytes n q = refl

length-length_bytes : (n : ℕ) (q : Text) → length (length_bytes n ++ q) ≡ 4 + length q
unfolding length_bytes
length-length_bytes n q = omega arith

next_frame-bytes :
    (n : ℕ) (q : Text)
    → 0 < n
    → n ≤ maximum_frame_bytes
    → n ≤ length q
    → valid_utf8 (take n q) ≡ true
    → next_frame (length_bytes n ++ q) ≡ frame (take n q) (drop n q)
unfolding next_frame
next_frame-bytes n q h k l v =
    ground (arith, read-length_bytes n q, drop-length_bytes n q, length-length_bytes n q)

head-encoded : (p b s : Text) → encode_frame p ≡ encoded b → next_frame (b ++ s) ≡ frame p s
head-encoded p b s h =
    let (e, pos, bound, valid) = encode_facts p b h in
    let t = take-append_self p s in
    rw (e, append_assoc (length_bytes (length p)) p s)
      (next_frame-bytes (length p) (p ++ s) pos bound (omega (arith, length-append p s))
          (rw t valid)
        ∙ ap₂ frame t (drop-append_self p s))

encode_all-Parses :
    (ps : List Text) (s u : Text)
    → encode_all ps ≡ some s
    → next_frame u ≡ more
    → Parses (s ++ u) ps u no_error
unfolding encode_all
encode_all-Parses [] s u h w = let e : [] ≡ s = ground arith in rw (← e) (wait w)
encode_all-Parses (p ∷ ps) s u h w =
    let (b, rest, e, q, cut) = encode_inversion p ps s h in
    rw (cut, append_assoc b rest u)
      (step p (rest ++ u) (head-encoded p b (rest ++ u) e) (encode_all-Parses ps rest u q w))

finish-pending : (d : FrameDecoder) → Settled d → (finish d ≡ no_error) ↔ (pending d ≡ [])
unfolding finish
finish-pending d s = (
  λ h. nil_of_length (pending d) (ground (arith, length-drop d.offset d.buffer, s.within, s.live)),
  λ h. ground (arith, ap length h, length-drop d.offset d.buffer, s.within, s.live),
)

-- Frames that were encoded one after the other and arrive in any chunks, with an unfinished frame
-- behind them, are delivered whole and in order; the unfinished one stays pending, there is no
-- error, and `finish` complains exactly if something is pending.
pub feed-encode_all :
    (ps cs : List Text) (s u : Text)
    → encode_all ps ≡ some s
    → next_frame u ≡ more
    → flatten cs ≡ s ++ u
    → ((feed fresh cs []).frames ≡ ps)
      × ((feed fresh cs []).error ≡ no_error)
      × (pending (feed fresh cs []).decoder ≡ u)
      × ((finish (feed fresh cs []).decoder ≡ no_error) ↔ (u ≡ []))
feed-encode_all ps cs s u h w c =
    let r = feed fresh cs [] in
    let i = feed-Implements fresh cs [] fresh-Settled in
    let same = Parses-unique (s ++ u) (Parses-cast c i.parsed) (encode_all-Parses ps s u h w) in
    let (settled, rest) = i.settled same.error in
    let at_end : pending r.decoder ≡ u = rest ∙ same.rest in
    (
      i.delivered ∙ same.frames,
      same.error,
      at_end,
      subst (λ (w : Text). (finish r.decoder ≡ no_error) ↔ (w ≡ [])) at_end
          (finish-pending r.decoder settled),
    )
