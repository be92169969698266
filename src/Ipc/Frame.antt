-- ===== src/Ipc/Frame.antt =====
-- src/gui_ipc/frame_codec.cpp: UTF-8 validation, the length-prefixed frame encoder and the
-- incremental `FrameDecoder`. A byte is a number below 256. The out parameter `error` and the
-- returned `bool` are one value here: the functions return false exactly where they set an error
-- other than `None`.
pub mod Parser
pub mod Stream
pub mod Consume
pub mod Delivery
pub mod Roundtrip
use Prim.Native.Nat.{bit_and, min}
use cc_switch_trans.Common.{
  ℕ, zero, suc, ◌+◌, ◌-◌, ◌*◌, ◌/◌, ◌%◌, ◌^◌, Bool, true, false, not, ◌&&◌, ◌||◌, Option, none,
  some, List, [], ◌∷◌, ◌++◌, Text, length, take, drop, empty?, ltb, leb, ◌==◌, if◌then◌else◌,
}

-- kMaximumFrameBytes of protocol_types.hpp
abbrev pub maximum_frame_bytes : ℕ
maximum_frame_bytes = 16 * 1024 * 1024

pub data FrameError : Type 0 where
  no_error empty_payload too_large invalid_utf8 incomplete decoder_failed : FrameError

continuation : ℕ → Bool
continuation byte = bit_and byte 0xc0 == 0x80

-- The second, third and fourth bytes of a longer sequence, by the length that the first announces.
utf8_two : Text → Option ℕ
unfolding continuation
utf8_two (second ∷ _) = if continuation second then some 2 else none
utf8_two _ = none

utf8_three : ℕ → Text → Option ℕ
unfolding continuation
utf8_three first (second ∷ third ∷ _) =
    if not (continuation second) || not (continuation third)
    then none
    else if (first == 0xe0 && ltb second 0xa0) || (first == 0xed && leb 0xa0 second)
    then none
    else some 3
utf8_three _ _ = none

utf8_four : ℕ → Text → Option ℕ
unfolding continuation
utf8_four first (second ∷ third ∷ fourth ∷ _) =
    if not (continuation second) || not (continuation third) || not (continuation fourth)
    then none
    else if (first == 0xf0 && ltb second 0x90) || (first == 0xf4 && leb 0x90 second)
    then none
    else some 4
utf8_four _ _ = none

-- One round of the loop of `valid_utf8` at the bytes from `index` on: by how much `index` grows,
-- or `none` for `return false`.
utf8_step : ℕ → Text → Option ℕ
unfolding utf8_two utf8_three utf8_four
utf8_step first rest =
    if leb first 0x7f
    then some 1
    else if leb 0xc2 first && leb first 0xdf
    then utf8_two rest
    else if leb 0xe0 first && leb first 0xef
    then utf8_three first rest
    else if leb 0xf0 first && leb first 0xf4
    then utf8_four first rest
    else none

-- `while (index < content.size())`; each round takes a byte at least, so the size is enough fuel.
utf8_loop : ℕ → Text → Bool
unfolding utf8_step
utf8_loop fuel [] = true
utf8_loop zero (first ∷ rest) = false
utf8_loop (suc fuel) (first ∷ rest) = elim (utf8_step first rest) [
  | none ↦ false
  | some n ↦ utf8_loop fuel (drop n (first ∷ rest))
]

unfoldable pub valid_utf8 : Text → Bool
unfolding utf8_loop
valid_utf8 content = utf8_loop (length content) content

pub data Encoded : Type 0 where
  encoded : Text → Encoded
  refused : FrameError → Encoded

-- The four bytes of a `uint32_t`, lowest first.
unfoldable pub length_bytes : ℕ → Text
length_bytes n = n % 2 ^ 8 ∷ n / 2 ^ 8 % 2 ^ 8 ∷ n / 2 ^ 16 % 2 ^ 8 ∷ n / 2 ^ 24 % 2 ^ 8 ∷ []

unfoldable pub encode_frame : Text → Encoded
encode_frame payload =
    if empty? payload
    then refused empty_payload
    else if ltb maximum_frame_bytes (length payload) || ltb (2 ^ 32 - 1) (length payload)
    then refused too_large
    else if not (valid_utf8 payload)
    then refused invalid_utf8
    else encoded (length_bytes (length payload) ++ payload)

pub record FrameDecoder : Type 0 where
  pub buffer : Text
  pub offset : ℕ
  pub failed : Bool

-- What `consume` and `decode_available` leave: the decoder, the frames delivered so far, and the
-- error, with which they return false unless it is `no_error`.
pub record Consumed : Type 0 where
  pub decoder : FrameDecoder
  pub frames : List Text
  pub error : FrameError

abbrev pub fresh : FrameDecoder
fresh = record { buffer = []; offset = 0; failed = false }

-- Four bytes joined by `|` at the shifts 0, 8, 16 and 24, which for bytes is their sum.
pub read_little_endian_length : Text → ℕ
read_little_endian_length (b0 ∷ b1 ∷ b2 ∷ b3 ∷ _) = b0 + b1 * 2 ^ 8 + b2 * 2 ^ 16 + b3 * 2 ^ 24
read_little_endian_length _ = 0

fail : FrameDecoder → List Text → FrameError → Consumed
fail d frames e = record { decoder = record d { failed = true }; frames = frames; error = e }

-- The end of `decode_available`, behind its loop.
compact : FrameDecoder → FrameDecoder
compact d =
    if d.offset == length d.buffer
    then record d { buffer = []; offset = 0 }
    else if ltb (64 * 1024) d.offset
    then record d { buffer = drop d.offset d.buffer; offset = 0 }
    else d

-- The loop of `decode_available`. Each round moves `offset` on by 5 bytes at least, so the
-- number of buffered bytes is enough fuel.
pub decode_loop : ℕ → FrameDecoder → List Text → Consumed
unfolding fail compact read_little_endian_length
decode_loop zero d frames = record { decoder = compact d; frames = frames; error = no_error }
decode_loop (suc fuel) d frames =
    let size = read_little_endian_length (drop d.offset d.buffer) in
    let view = take size (drop (d.offset + 4) d.buffer) in
    let next =
      decode_loop fuel (record d { offset = d.offset + (4 + size) }) (frames ++ view ∷ []) in
    if ltb (length d.buffer - d.offset) 4
    then record { decoder = compact d; frames = frames; error = no_error }
    else if size == 0
    then fail d frames empty_payload
    else if ltb maximum_frame_bytes size
    then fail d frames too_large
    else if ltb (length d.buffer - d.offset - 4) size
    then record { decoder = d; frames = frames; error = no_error }
    else if not (valid_utf8 view)
    then fail d frames invalid_utf8
    else next

pub decode_available : FrameDecoder → List Text → Consumed
unfolding decode_loop
decode_available d frames = decode_loop (length d.buffer - d.offset) d frames

-- The start of a round of the loop of `consume`: the bytes before `offset` are erased.
pub erase_read : FrameDecoder → FrameDecoder
erase_read d = record d { buffer = drop d.offset d.buffer; offset = 0 }

-- How many of the bytes a round of `consume` takes into the buffer.
pub take_count : FrameDecoder → Text → ℕ
take_count d bytes = min (maximum_frame_bytes + 4 - length d.buffer) (length bytes)

-- The loop of `consume`; every round but a failing one takes a byte at least, so the number of
-- bytes is enough fuel.
pub consume_loop : ℕ → FrameDecoder → Text → List Text → Consumed
unfolding decode_available erase_read take_count fail
consume_loop fuel d [] frames = record { decoder = d; frames = frames; error = no_error }
consume_loop zero d (b ∷ bytes) frames = fail d frames too_large
consume_loop (suc fuel) d (b ∷ bytes) frames =
    let e = erase_read d in
    let count = take_count e (b ∷ bytes) in
    let rest = drop count (b ∷ bytes) in
    let r = decode_available (record e { buffer = e.buffer ++ take count (b ∷ bytes) }) frames in
    let next = consume_loop fuel r.decoder rest r.frames in
    if ltb (maximum_frame_bytes + 4) (length e.buffer)
    then fail e frames too_large
    else elim r.error [
      | no_error ↦
          if (count == 0) && not (empty? rest) then fail r.decoder r.frames too_large else next
      | _ ↦ r
    ]

unfoldable pub consume : FrameDecoder → Text → List Text → Consumed
unfolding consume_loop
consume d bytes frames =
    if d.failed
    then record { decoder = d; frames = frames; error = decoder_failed }
    else consume_loop (length bytes) d bytes frames

unfoldable pub finish : FrameDecoder → FrameError
finish d =
    if d.failed
    then decoder_failed
    else if length d.buffer == d.offset
    then no_error
    else incomplete

unfoldable pub reset : FrameDecoder → FrameDecoder
reset d = fresh

unfoldable pub buffered_bytes : FrameDecoder → ℕ
buffered_bytes d = length d.buffer - d.offset
