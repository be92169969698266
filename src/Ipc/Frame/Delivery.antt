-- ===== src/Ipc/Frame/Delivery.antt =====
-- What a receiver of frames gets: every chunking of the same bytes delivers the same frames
-- (src/gui_ipc/frame_codec.cpp).

use mathlib.Core.List.{append-nil, append_assoc, flatten}
use cc_switch_trans.Common.{
  ◌+◌, ◌<◌, ◌≡◌, refl, sym, ap, ◌∙◌, ◌≢◌, inl, inr, List, [], ◌∷◌, ◌++◌, true, Text, arith,
  length-drop, subst,
}
use cc_switch_trans.Ipc.Frame.{
  FrameError, no_error, decoder_failed, FrameDecoder, Consumed, fresh, maximum_frame_bytes, consume,
  reset, buffered_bytes,
}
use cc_switch_trans.Ipc.Frame.Parser.{Parses, wait, stop, step}
use cc_switch_trans.Ipc.Frame.Stream.{pending, Settled, Implements, FrameError-cases, more_short}
use cc_switch_trans.Ipc.Frame.Consume.{consume-Implements, Implements-trans, Implements-append_bad}

-- A reader that hands over chunk after chunk, and stops when `consume` returns false.
unfoldable pub feed : FrameDecoder → List Text → List Text → Consumed
feed d [] frames = record { decoder = d; frames = frames; error = no_error }
feed d (c ∷ cs) frames =
    let r = consume d c frames in elim r.error [ no_error ↦ feed r.decoder cs r.frames | _ ↦ r ]

feed_ok :
    (d : FrameDecoder) (c : Text) (cs frames : List Text)
    → (consume d c frames).error ≡ no_error
    → feed d (c ∷ cs) frames ≡ feed (consume d c frames).decoder cs (consume d c frames).frames
unfolding feed
feed_ok d c cs frames e = ground arith

feed_bad :
    (d : FrameDecoder) (c : Text) (cs frames : List Text)
    → (consume d c frames).error ≢ no_error
    → feed d (c ∷ cs) frames ≡ consume d c frames
unfolding feed
feed_bad d c cs frames e = ground arith

nothing-Implements :
    (d : FrameDecoder) (frames : List Text)
    → Settled d
    → Implements
        (pending d ++ [])
        frames
        (record { decoder = d; frames = frames; error = no_error })
nothing-Implements d frames s = rw append-nil (record {
  fs = [];
  rest = pending d;
  parsed = wait s.waiting;
  delivered = sym (append-nil frames);
  settled = λ _. (s, refl);
  broken = λ ne. absurd (ne refl);
})

pub feed-Implements :
    (d : FrameDecoder) (cs frames : List Text)
    → Settled d
    → Implements (pending d ++ flatten cs) frames (feed d cs frames)
unfolding feed flatten
feed-Implements d [] frames s = nothing-Implements d frames s
feed-Implements d (c ∷ cs) frames s =
    let r = consume d c frames in
    let i = consume-Implements d c frames s in
    rw (← append_assoc (pending d) c (flatten cs)) (elim (FrameError-cases r.error) [
      | inl e ↦
          let (s', q) = i.settled e in
          rw (feed_ok d c cs frames e) (
            Implements-trans _ (flatten cs) i e
              (rw (← q) (feed-Implements r.decoder cs r.frames s')))
      | inr ne ↦ rw (feed_bad d c cs frames ne) (Implements-append_bad (flatten cs) i ne)
    ])

pub Parses-cast :
    {s r : Text} {fs : List Text} {t : Text} {e : FrameError}
    → s ≡ r
    → Parses s fs t e
    → Parses r fs t e
Parses-cast {fs = fs} {t = t} {e = e} q x = subst (λ (w : Text). Parses w fs t e) q x

-- The parse of a stream is unique.
pub record Same (fs gs : List Text) (t u : Text) (e e' : FrameError) : Type 0 where
  pub frames : fs ≡ gs
  pub rest : t ≡ u
  pub error : e ≡ e'

pub Parses-unique :
    (s : Text) {fs gs : List Text} {t u : Text} {e e' : FrameError}
    → Parses s fs t e
    → Parses s gs u e'
    → Same fs gs t u e e'
Parses-unique s (wait h) (wait k) = record { frames = refl; rest = refl; error = refl }
Parses-unique s (wait h) (stop e k) = cc
Parses-unique s (wait h) (step p r k x) = cc
Parses-unique s (stop e h) (wait k) = cc
Parses-unique s (stop e h) (stop e' k) = record { frames = refl; rest = refl; error = cc }
Parses-unique s (stop e h) (step p r k x) = cc
Parses-unique s (step p r h x) (wait k) = cc
Parses-unique s (step p r h x) (stop e k) = cc
Parses-unique s (step p r h x) (step p' r' k y) =
    let e : r ≡ r' = ground arith in
    let q : p ≡ p' = ground arith in
    let same = Parses-unique r' (Parses-cast e x) y in
    record { frames = cc (q, same.frames); rest = same.rest; error = same.error }

-- Two deliveries of the same bytes, cut differently, to a decoder that waits between two calls,
-- deliver the same frames and end in the same error; if there is none, they also hold back the same
-- bytes.
pub chunking_irrelevant :
    (d : FrameDecoder) (cs cs' frames : List Text)
    → Settled d
    → flatten cs ≡ flatten cs'
    → ((feed d cs frames).frames ≡ (feed d cs' frames).frames)
      × ((feed d cs frames).error ≡ (feed d cs' frames).error)
      × ((feed d cs frames).error ≡ no_error
          → pending (feed d cs frames).decoder ≡ pending (feed d cs' frames).decoder)
chunking_irrelevant d cs cs' frames s h =
    let i = feed-Implements d cs frames s in
    let j = feed-Implements d cs' frames s in
    let same =
      Parses-unique (pending d ++ flatten cs') (Parses-cast (ap (◌++◌ (pending d)) h) i.parsed)
        j.parsed in
    (
      i.delivered ∙ ap (◌++◌ frames) same.frames ∙ sym j.delivered,
      same.error,
      λ e. (i.settled e).1 ∙ same.rest ∙ sym (j.settled (sym same.error ∙ e)).1,
    )

held : (d : FrameDecoder) → Settled d → buffered_bytes d < maximum_frame_bytes + 4
unfolding buffered_bytes
held d s = omega (arith, more_short (pending d) s.waiting, length-drop d.offset d.buffer)

refused_after :
    (d : FrameDecoder) (later : Text) (frames : List Text)
    → d.failed ≡ true
    → consume d later frames ≡ record { decoder = d; frames = frames; error = decoder_failed }
unfolding consume
refused_after d later frames h = simp h

after_reset :
    (d : FrameDecoder) (frames : List Text)
    → consume (reset d) [] frames ≡ record { decoder = fresh; frames = frames; error = no_error }
unfolding consume reset
after_reset d frames = refl

-- After a call that succeeds on a decoder that waits between two calls, it holds back less than a
-- frame of the maximal size with its header. After a call that fails, every later call is refused,
-- delivers nothing and changes nothing, until `reset`.
pub consume_bounds :
    (d : FrameDecoder) (bytes later : Text) (frames : List Text)
    → Settled d
    → ((consume d bytes frames).error ≡ no_error
        → buffered_bytes (consume d bytes frames).decoder < maximum_frame_bytes + 4)
      × ((consume d bytes frames).error ≢ no_error
          → (consume (consume d bytes frames).decoder later frames ≡ record {
            decoder = (consume d bytes frames).decoder;
            frames = frames;
            error = decoder_failed;
          })
            × (consume (reset (consume d bytes frames).decoder) [] frames
                ≡ record { decoder = fresh; frames = frames; error = no_error }))
consume_bounds d bytes later frames s =
    let r = consume d bytes frames in
    let i = consume-Implements d bytes frames s in
    (
      λ e. held (r.decoder) (i.settled e).0,
      λ ne. (refused_after r.decoder later frames (i.broken ne), after_reset r.decoder frames),
    )
