-- ===== src/Ipc/Frame/Stream.antt =====
-- The loop of `decode_available` (src/gui_ipc/frame_codec.cpp) against a parser of the whole byte
-- stream.
use mathlib.Core.List.{append-nil, append_assoc}
use native.Mathlib.Decide.{dec_lt}
use cc_switch_trans.Common.{
  sym, ◌∙◌, ℕ, zero, suc, ◌+◌, ◌-◌, ◌≤◌, ◌<◌, ◌≡◌, refl, ◌≢◌, ◌⊎◌, inl, inr, true, false, List, [],
  ◌∷◌, ◌++◌, Text, length, drop, arith, length-drop, drop-drop, drop-all,
}
use cc_switch_trans.Ipc.Frame.{
  FrameError, incomplete, decoder_failed, no_error, empty_payload, too_large, invalid_utf8,
  FrameDecoder, Consumed, maximum_frame_bytes, read_little_endian_length, fail, compact,
  decode_loop,
}
use cc_switch_trans.Ipc.Frame.Parser.{
  Head, more, bad, frame, next_frame, Parses, wait, stop, step, frame_facts,
}

-- The bytes that the decoder holds and has not delivered.
abbrev pub pending : FrameDecoder → Text
pending d = drop d.offset d.buffer

-- Between two calls of `consume`: no whole frame is held back.
pub record Settled (d : FrameDecoder) : Type 0 where
  pub within : d.offset ≤ length d.buffer
  pub waiting : next_frame (pending d) ≡ more
  pub live : d.failed ≡ false

-- The outcome `r` of decoding the stream `s` behind the frames delivered before.
pub record Implements (s : Text) (before : List Text) (r : Consumed) : Type 0 where
  pub fs : List Text
  pub rest : Text
  pub parsed : Parses s fs rest r.error
  pub delivered : r.frames ≡ before ++ fs
  pub settled : r.error ≡ no_error → Settled r.decoder × (pending r.decoder ≡ rest)
  pub broken : r.error ≢ no_error → r.decoder.failed ≡ true

next_frame-short : (s : Text) → length s < 4 → next_frame s ≡ more
unfolding next_frame
next_frame-short s h = ground arith

compact-pending : (d : FrameDecoder) → d.offset ≤ length d.buffer → pending (compact d) ≡ pending d
unfolding compact
compact-pending d h = ground (arith, drop-all d.buffer)

compact-within :
    (d : FrameDecoder) → d.offset ≤ length d.buffer → (compact d).offset ≤ length (compact d).buffer
unfolding compact
compact-within d h = ground arith

compact-failed : (d : FrameDecoder) → (compact d).failed ≡ d.failed
unfolding compact
compact-failed d = ground arith

loop_short :
    (f : ℕ) (d : FrameDecoder) (frames : List Text)
    → length (pending d) < 4
    → decode_loop f d frames ≡ record { decoder = compact d; frames = frames; error = no_error }
unfolding decode_loop
loop_short zero d frames h = refl
loop_short (suc f) d frames h = ground (arith, length-drop d.offset d.buffer)

loop_more :
    (f : ℕ) (d : FrameDecoder) (frames : List Text)
    → next_frame (pending d) ≡ more
    → 4 ≤ length (pending d)
    → decode_loop (suc f) d frames ≡ record { decoder = d; frames = frames; error = no_error }
unfolding decode_loop next_frame
loop_more f d frames h l =
    ground (arith, length-drop d.offset d.buffer, drop-drop d.offset 4 d.buffer)

loop_bad :
    (f : ℕ) (d : FrameDecoder) (frames : List Text) (e : FrameError)
    → next_frame (pending d) ≡ bad e
    → decode_loop (suc f) d frames ≡ fail d frames e
unfolding decode_loop next_frame
loop_bad f d frames e h =
    ground (arith, length-drop d.offset d.buffer, drop-drop d.offset 4 d.buffer)

loop_frame :
    (f : ℕ) (d : FrameDecoder) (frames : List Text) (p r : Text)
    → next_frame (pending d) ≡ frame p r
    → decode_loop (suc f) d frames
      ≡ decode_loop f
          (record d { offset = d.offset + (4 + read_little_endian_length (pending d)) })
          (frames ++ p ∷ [])
unfolding decode_loop next_frame
loop_frame f d frames p r h =
    ground (arith, length-drop d.offset d.buffer, drop-drop d.offset 4 d.buffer)

Head-cases :
    (h : Head)
    → (h ≡ more) ⊎ ((e : FrameError) × (h ≡ bad e)) ⊎ ((p : Text) × (r : Text) × (h ≡ frame p r))
Head-cases more = inl refl
Head-cases (bad e) = inr (inl (e, refl))
Head-cases (frame p r) = inr (inr (p, r, refl))

bad-ne : (s : Text) (e : FrameError) → next_frame s ≡ bad e → e ≢ no_error
unfolding next_frame
bad-ne s e h = ground arith

-- Rounds that end the loop.
pub exit-Implements :
    (d : FrameDecoder) (frames : List Text)
    → d.offset ≤ length d.buffer
    → d.failed ≡ false
    → next_frame (pending d) ≡ more
    → Implements (pending d) frames (record { decoder = d; frames = frames; error = no_error })
exit-Implements d frames w l h = record {
  fs = [];
  rest = pending d;
  parsed = wait h;
  delivered = sym (append-nil frames);
  settled = λ _. (record { within = w; waiting = h; live = l }, refl);
  broken = λ ne. absurd (ne refl);
}

compact-Implements :
    (d : FrameDecoder) (frames : List Text)
    → d.offset ≤ length d.buffer
    → d.failed ≡ false
    → next_frame (pending d) ≡ more
    → Implements
        (pending d)
        frames
        (record { decoder = compact d; frames = frames; error = no_error })
compact-Implements d frames w l h =
    let e = compact-pending d w in
    rw (← e)
      (exit-Implements (compact d) frames (compact-within d w) (compact-failed d ∙ l) (rw e h))

fail-Implements :
    (d : FrameDecoder) (frames : List Text) (e : FrameError)
    → next_frame (pending d) ≡ bad e
    → Implements (pending d) frames (fail d frames e)
unfolding fail
fail-Implements d frames e h = record {
  fs = [];
  rest = pending d;
  parsed = stop e h;
  delivered = sym (append-nil frames);
  settled = λ z. absurd (bad-ne (pending d) e h z);
  broken = λ _. refl;
}

step-Implements :
    (s p t : Text) (frames : List Text) (r : Consumed)
    → next_frame s ≡ frame p t
    → Implements t (frames ++ p ∷ []) r
    → Implements s frames r
step-Implements s p t frames r h i = record {
  fs = p ∷ i.fs;
  rest = i.rest;
  parsed = step p t h i.parsed;
  delivered = i.delivered ∙ append_assoc frames (p ∷ []) i.fs;
  settled = i.settled;
  broken = i.broken;
}

-- Each frame shortens the stream, so as many rounds as there are bytes are enough.
pub decode_loop-Implements :
    (f : ℕ) (d : FrameDecoder) (frames : List Text)
    → length d.buffer - d.offset ≤ f
    → d.offset ≤ length d.buffer
    → d.failed ≡ false
    → Implements (pending d) frames (decode_loop f d frames)
decode_loop-Implements zero d frames h w l =
    let short : length (pending d) < 4 = omega (arith, length-drop d.offset d.buffer) in
    rw (loop_short zero d frames short)
      (compact-Implements d frames w l (next_frame-short (pending d) short))
decode_loop-Implements (suc f) d frames h w l = elim (Head-cases (next_frame (pending d))) [
  | inl e ↦ elim (dec_lt (length (pending d)) 4) [
    | yes s ↦ rw (loop_short (suc f) d frames s) (compact-Implements d frames w l e)
    | no s ↦ rw (loop_more f d frames e (omega arith)) (exit-Implements d frames w l e)
  ]
  | inr (inl (e, q)) ↦ rw (loop_bad f d frames e q) (fail-Implements d frames e q)
  | inr (inr (p, r, q)) ↦
      let facts = frame_facts (pending d) p r q in
      let size = read_little_endian_length (pending d) in
      let d' : FrameDecoder = record d { offset = d.offset + (4 + size) } in
      let left = length-drop d.offset d.buffer in
      let e : pending d' ≡ r =
        sym (drop-drop d.offset (4 + size) d.buffer)
        ∙ sym (drop-drop 4 size (pending d))
        ∙ sym facts.2 in
      rw (loop_frame f d frames p r q) (
        step-Implements (pending d) p r frames _ q
          (rw (← e) (decode_loop-Implements f d' (frames ++ p ∷ []) (omega arith) (omega arith) l)))
]

pub more_short : (s : Text) → next_frame s ≡ more → length s < maximum_frame_bytes + 4
unfolding next_frame
more_short s h = ground arith

pub FrameError-cases : (e : FrameError) → (e ≡ no_error) ⊎ (e ≢ no_error)
FrameError-cases no_error = inl refl
FrameError-cases empty_payload = inr (λ h. cc)
FrameError-cases too_large = inr (λ h. cc)
FrameError-cases invalid_utf8 = inr (λ h. cc)
FrameError-cases incomplete = inr (λ h. cc)
FrameError-cases decoder_failed = inr (λ h. cc)
