-- ===== src/Ipc/Frame/Consume.antt =====
-- `consume` of src/gui_ipc/frame_codec.cpp against the parser: what it delivers depends on the bytes
-- that arrived, and not on the rounds in which it takes them.
use mathlib.Core.List.{append-nil, append_assoc}
use cc_switch_trans.Common.{
  subst, take-append-drop, ◌∙◌, ℕ, zero, suc, ◌≤◌, ◌<◌, ◌≡◌, refl, ap, ◌≢◌, inl, inr, false, List,
  [], ◌∷◌, ◌++◌, Text, length, take, drop, arith, length-drop,
}
use cc_switch_trans.Ipc.Frame.{
  fresh, no_error, FrameDecoder, Consumed, decode_available, erase_read, take_count, consume_loop,
  consume,
}
use cc_switch_trans.Ipc.Frame.Parser.{more, next_frame, Parses, Parses-append, Parses-append_bad}
use cc_switch_trans.Ipc.Frame.Stream.{
  FrameError-cases, Implements, Settled, decode_loop-Implements, exit-Implements, more_short,
  pending,
}

-- What a round of `consume` hands to `decode_available`.
abbrev received : FrameDecoder → Text → FrameDecoder
received d bytes = record (erase_read d) {
  buffer = (erase_read d).buffer ++ take (take_count (erase_read d) bytes) bytes;
}

abbrev unread : FrameDecoder → Text → Text
unread d bytes = drop (take_count (erase_read d) bytes) bytes

take_count_pos :
    (d : FrameDecoder) (b : ℕ) (bytes : Text)
    → next_frame (pending d) ≡ more
    → 0 < take_count (erase_read d) (b ∷ bytes)
unfolding take_count erase_read
take_count_pos d b bytes h = omega (arith, more_short (pending d) h)

round_ok :
    (f : ℕ) (d : FrameDecoder) (b : ℕ) (bytes : Text) (frames : List Text)
    → next_frame (pending d) ≡ more
    → (decode_available (received d (b ∷ bytes)) frames).error ≡ no_error
    → consume_loop (suc f) d (b ∷ bytes) frames
      ≡ consume_loop f
          (decode_available (received d (b ∷ bytes)) frames).decoder
          (unread d (b ∷ bytes))
          (decode_available (received d (b ∷ bytes)) frames).frames
unfolding consume_loop erase_read
round_ok f d b bytes frames h e =
    ground (arith, more_short (pending d) h, take_count_pos d b bytes h)

round_bad :
    (f : ℕ) (d : FrameDecoder) (b : ℕ) (bytes : Text) (frames : List Text)
    → next_frame (pending d) ≡ more
    → (decode_available (received d (b ∷ bytes)) frames).error ≢ no_error
    → consume_loop (suc f) d (b ∷ bytes) frames ≡ decode_available (received d (b ∷ bytes)) frames
unfolding consume_loop erase_read
round_bad f d b bytes frames h e = ground (arith, more_short (pending d) h)

pub Implements-trans :
    (s u : Text) {before : List Text} {r r' : Consumed} (i : Implements s before r)
    → r.error ≡ no_error
    → Implements (i.rest ++ u) r.frames r'
    → Implements (s ++ u) before r'
Implements-trans s u {before} {r} {r'} i e j = record {
  fs = i.fs ++ j.fs;
  rest = j.rest;
  parsed = Parses-append u (subst (Parses s i.fs i.rest) e i.parsed) j.parsed;
  delivered =
      j.delivered ∙ ap (λ (k : List Text). k ++ j.fs) i.delivered ∙ append_assoc before i.fs j.fs;
  settled = j.settled;
  broken = j.broken;
}

pub Implements-append_bad :
    {s : Text} (u : Text) {before : List Text} {r : Consumed}
    → Implements s before r
    → r.error ≢ no_error
    → Implements (s ++ u) before r
Implements-append_bad u i ne = record {
  fs = i.fs;
  rest = i.rest ++ u;
  parsed = Parses-append_bad u i.parsed ne;
  delivered = i.delivered;
  settled = λ e. absurd (ne e);
  broken = i.broken;
}

received-Implements :
    (d : FrameDecoder) (bytes : Text) (frames : List Text)
    → d.failed ≡ false
    → Implements
        (pending d ++ take (take_count (erase_read d) bytes) bytes)
        frames
        (decode_available (received d bytes) frames)
unfolding decode_available erase_read
received-Implements d bytes frames l =
    decode_loop-Implements _ (received d bytes) frames (omega arith) (omega arith) l

cut :
    (d : FrameDecoder) (bytes : Text)
    → (pending d ++ take (take_count (erase_read d) bytes) bytes) ++ unread d bytes
      ≡ pending d ++ bytes
cut d bytes = append_assoc (pending d) _ _ ∙ ap (◌++◌ (pending d)) (take-append-drop _ bytes)

consume_loop-Implements :
    (f : ℕ) (d : FrameDecoder) (bytes : Text) (frames : List Text)
    → length bytes ≤ f
    → Settled d
    → Implements (pending d ++ bytes) frames (consume_loop f d bytes frames)
unfolding consume_loop
consume_loop-Implements f d [] frames h s =
    rw append-nil (exit-Implements d frames s.within s.live s.waiting)
consume_loop-Implements zero d (b ∷ bytes) frames h s = absurd (omega arith)
consume_loop-Implements (suc f) d (b ∷ bytes) frames h s =
    let r = decode_available (received d (b ∷ bytes)) frames in
    let i = received-Implements d (b ∷ bytes) frames s.live in
    elim (FrameError-cases r.error) [
      | inl e ↦
          let (s', q) = i.settled e in
          rw (round_ok f d b bytes frames s.waiting e) (
            rw (← cut d (b ∷ bytes)) (
              Implements-trans _ (unread d (b ∷ bytes)) i e (
                rw (← q) (
                  consume_loop-Implements f r.decoder (unread d (b ∷ bytes)) r.frames
                    (omega (
                      arith,
                      length-drop (take_count (erase_read d) (b ∷ bytes)) (b ∷ bytes),
                      take_count_pos d b bytes s.waiting,
                    ))
                    s'))))
      | inr ne ↦
          rw (round_bad f d b bytes frames s.waiting ne)
            (rw (← cut d (b ∷ bytes)) (Implements-append_bad (unread d (b ∷ bytes)) i ne))
    ]

-- One call of `consume`, whatever the size of its chunk.
pub consume-Implements :
    (d : FrameDecoder) (bytes : Text) (frames : List Text)
    → Settled d
    → Implements (pending d ++ bytes) frames (consume d bytes frames)
unfolding consume
consume-Implements d bytes frames s =
    simp s.live (consume_loop-Implements (length bytes) d bytes frames (omega arith) s)

pub fresh-Settled : Settled fresh
unfolding next_frame
fresh-Settled = record { within = omega arith; waiting = refl; live = refl }
