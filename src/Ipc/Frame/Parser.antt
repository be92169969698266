-- ===== src/Ipc/Frame/Parser.antt =====
-- The byte stream of the frame protocol as a whole: its frames, what is left, and the error that
-- ends it (the format of src/gui_ipc/frame_codec.cpp).

use cc_switch_trans.Common.{
  ◌+◌, ◌-◌, ◌≤◌, ◌≡◌, refl, ◌≢◌, not, List, [], ◌∷◌, ◌++◌, Text, length, take, drop, ltb, ◌==◌,
  if◌then◌else◌, arith, length-append, length-drop, drop-append, take-append,
}
use cc_switch_trans.Ipc.Frame.{
  FrameError, no_error, empty_payload, too_large, invalid_utf8, maximum_frame_bytes, valid_utf8,
  read_little_endian_length,
}

-- What stands at the head of a byte stream.
pub data Head : Type 0 where
  more : Head
  bad : FrameError → Head
  frame : Text → Text → Head

unfoldable pub next_frame : Text → Head
next_frame s =
    let size = read_little_endian_length s in
    let payload = take size (drop 4 s) in
    if ltb (length s) 4
    then more
    else if size == 0
    then bad empty_payload
    else if ltb maximum_frame_bytes size
    then bad too_large
    else if ltb (length s - 4) size
    then more
    else if not (valid_utf8 payload)
    then bad invalid_utf8
    else frame payload (drop size (drop 4 s))

-- The frames of a whole stream, what is left of it, and the error that ended it, if any.
pub data Parses : Text → List Text → Text → FrameError → Type 0 where
  wait : {s : Text} → next_frame s ≡ more → Parses s [] s no_error
  stop : {s : Text} (e : FrameError) → next_frame s ≡ bad e → Parses s [] s e
  step :
      {s : Text} (p r : Text) {fs : List Text} {t : Text} {e : FrameError}
      → next_frame s ≡ frame p r
      → Parses r fs t e
      → Parses s (p ∷ fs) t e

read_length-append :
    (s u : Text) → 4 ≤ length s → read_little_endian_length (s ++ u) ≡ read_little_endian_length s
unfolding read_little_endian_length
read_length-append (a ∷ b ∷ c ∷ d ∷ s) u h = refl
read_length-append [] u h = absurd (omega arith)
read_length-append (a ∷ []) u h = absurd (omega arith)
read_length-append (a ∷ b ∷ []) u h = absurd (omega arith)
read_length-append (a ∷ b ∷ c ∷ []) u h = absurd (omega arith)

pub frame_facts :
    (s p r : Text)
    → next_frame s ≡ frame p r
    → (read_little_endian_length s + 4 ≤ length s)
      × (p ≡ take (read_little_endian_length s) (drop 4 s))
      × (r ≡ drop (read_little_endian_length s) (drop 4 s))
unfolding next_frame
frame_facts s p r h = ground arith

bad-append : (s u : Text) (e : FrameError) → next_frame s ≡ bad e → next_frame (s ++ u) ≡ bad e
unfolding next_frame
bad-append s u e h = ground (
  arith,
  read_length-append s u,
  length-append s u,
  length-drop 4 s,
  drop-append 4 s u,
  take-append (read_little_endian_length s) (drop 4 s) u,
)

frame-append : (s u p r : Text) → next_frame s ≡ frame p r → next_frame (s ++ u) ≡ frame p (r ++ u)
unfolding next_frame
frame-append s u p r h = ground (
  arith,
  read_length-append s u,
  length-append s u,
  length-drop 4 s,
  drop-append 4 s u,
  take-append (read_little_endian_length s) (drop 4 s) u,
  drop-append (read_little_endian_length s) (drop 4 s) u,
)

-- More bytes behind a stream: the parse goes on from what was left.
pub Parses-append :
    {s t : Text} {fs : List Text} (u : Text) {gs : List Text} {v : Text} {e : FrameError}
    → Parses s fs t no_error
    → Parses (t ++ u) gs v e
    → Parses (s ++ u) (fs ++ gs) v e
Parses-append u (wait h) q = q
Parses-append u (stop e h) q = q
Parses-append u (step p r h k) q = step p (r ++ u) (frame-append _ u p r h) (Parses-append u k q)

-- An error stays, whatever arrives behind it.
pub Parses-append_bad :
    {s t : Text} {fs : List Text} {e : FrameError} (u : Text)
    → Parses s fs t e
    → e ≢ no_error
    → Parses (s ++ u) fs (t ++ u) e
Parses-append_bad u (wait h) ne = absurd (ne refl)
Parses-append_bad u (stop e h) ne = stop e (bad-append _ u e h)
Parses-append_bad u (step p r h k) ne =
    step p (r ++ u) (frame-append _ u p r h) (Parses-append_bad u k ne)
