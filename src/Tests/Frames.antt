-- ===== src/Tests/Frames.antt =====
-- Two frames and the start of a third, in one chunk and in many (src/gui_ipc/frame_codec.cpp).
use mathlib.Core.List.{flatten}
use cc_switch_trans.Common.{◌≡◌, ◌≢◌, ◌↔◌, ◌<◌, ◌+◌, refl, List, [], ◌∷◌, ◌++◌, some, Text, codes}
use cc_switch_trans.Ipc.Frame.{
  no_error, decoder_failed, fresh, consume, finish, reset, buffered_bytes, encode_frame,
  length_bytes, valid_utf8, maximum_frame_bytes,
}
use cc_switch_trans.Ipc.Frame.Parser.{next_frame}
use cc_switch_trans.Ipc.Frame.Stream.{pending}
use cc_switch_trans.Ipc.Frame.Consume.{fresh-Settled}
use cc_switch_trans.Ipc.Frame.Roundtrip.{encode_all, feed-encode_all}
use cc_switch_trans.Ipc.Frame.Delivery.{feed, chunking_irrelevant, consume_bounds}

abbrev two_frames : Text
two_frames = 2 ∷ 0 ∷ 0 ∷ 0 ∷ 0x7b ∷ 0x7d ∷ 1 ∷ 0 ∷ 0 ∷ 0 ∷ 0x30 ∷ []

abbrev started : Text
started = 9 ∷ 0 ∷ 0 ∷ []

abbrev whole : List Text
whole = (two_frames ++ started) ∷ []

abbrev pieces : List Text
pieces =
    (2 ∷ 0 ∷ [])
    ∷ (0 ∷ 0 ∷ 0x7b ∷ [])
    ∷ []
    ∷ (0x7d ∷ 1 ∷ 0 ∷ 0 ∷ 0 ∷ 0x30 ∷ 9 ∷ [])
    ∷ (0 ∷ 0 ∷ [])
    ∷ []

chunking_irrelevant_example :
    ((feed fresh whole []).frames ≡ (feed fresh pieces []).frames)
    × ((feed fresh whole []).error ≡ (feed fresh pieces []).error)
    × ((feed fresh whole []).error ≡ no_error
        → pending (feed fresh whole []).decoder ≡ pending (feed fresh pieces []).decoder)
unfolding flatten
chunking_irrelevant_example = chunking_irrelevant fresh whole pieces [] fresh-Settled refl

abbrev payloads : List Text
payloads = codes "{}" ∷ codes "0" ∷ []

encoded_payloads : encode_all payloads ≡ some two_frames
unfolding encode_all encode_frame valid_utf8 length_bytes
encoded_payloads = refl

feed-encode_all_example :
    ((feed fresh pieces []).frames ≡ payloads)
    × ((feed fresh pieces []).error ≡ no_error)
    × (pending (feed fresh pieces []).decoder ≡ started)
    × ((finish (feed fresh pieces []).decoder ≡ no_error) ↔ (started ≡ []))
unfolding next_frame flatten
feed-encode_all_example =
    feed-encode_all payloads pieces two_frames started encoded_payloads refl refl

consume_bounds_example :
    ((consume fresh started []).error ≡ no_error
      → buffered_bytes (consume fresh started []).decoder < maximum_frame_bytes + 4)
    × ((consume fresh started []).error ≢ no_error
        → (consume (consume fresh started []).decoder two_frames [] ≡ record {
          decoder = (consume fresh started []).decoder;
          frames = [];
          error = decoder_failed;
        })
          × (consume (reset (consume fresh started []).decoder) [] []
              ≡ record { decoder = fresh; frames = []; error = no_error }))
consume_bounds_example = consume_bounds fresh started two_frames [] fresh-Settled
