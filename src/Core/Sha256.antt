-- ===== src/Core/Sha256.antt =====
-- src/core/sha256.cpp: SHA-256 over a content that arrives in pieces. A byte is a number below 256,
-- a word a number below 2^32. Of the array `buffer_` the model holds the first `buffer_size_` bytes;
-- the others are written before they are read.
pub mod Stream
pub mod Padding
mod Vectors
use Prim.Native.Nat.{bit_and, bit_or, bit_xor, min}
use cc_switch_trans.Common.{
  ℕ, zero, suc, ◌+◌, ◌-◌, ◌*◌, ◌/◌, ◌%◌, ◌^◌, Bool, true, false, Option, none, some, List, [], ◌∷◌,
  ◌++◌, Text, length, take, drop, get_elem?, empty?, ltb, leb, ◌==◌, if◌then◌else◌,
}

abbrev round_constants : List ℕ
round_constants =
    0x428a2f98 ∷ 0x71374491 ∷ 0xb5c0fbcf ∷ 0xe9b5dba5 ∷ 0x3956c25b ∷ 0x59f111f1 ∷ 0x923f82a4
    ∷ 0xab1c5ed5 ∷ 0xd807aa98 ∷ 0x12835b01 ∷ 0x243185be ∷ 0x550c7dc3 ∷ 0x72be5d74 ∷ 0x80deb1fe
    ∷ 0x9bdc06a7 ∷ 0xc19bf174 ∷ 0xe49b69c1 ∷ 0xefbe4786 ∷ 0x0fc19dc6 ∷ 0x240ca1cc ∷ 0x2de92c6f
    ∷ 0x4a7484aa ∷ 0x5cb0a9dc ∷ 0x76f988da ∷ 0x983e5152 ∷ 0xa831c66d ∷ 0xb00327c8 ∷ 0xbf597fc7
    ∷ 0xc6e00bf3 ∷ 0xd5a79147 ∷ 0x06ca6351 ∷ 0x14292967 ∷ 0x27b70a85 ∷ 0x2e1b2138 ∷ 0x4d2c6dfc
    ∷ 0x53380d13 ∷ 0x650a7354 ∷ 0x766a0abb ∷ 0x81c2c92e ∷ 0x92722c85 ∷ 0xa2bfe8a1 ∷ 0xa81a664b
    ∷ 0xc24b8b70 ∷ 0xc76c51a3 ∷ 0xd192e819 ∷ 0xd6990624 ∷ 0xf40e3585 ∷ 0x106aa070 ∷ 0x19a4c116
    ∷ 0x1e376c08 ∷ 0x2748774c ∷ 0x34b0bcb5 ∷ 0x391c0cb3 ∷ 0x4ed8aa4a ∷ 0x5b9cca4f ∷ 0x682e6ff3
    ∷ 0x748f82ee ∷ 0x78a5636f ∷ 0x84c87814 ∷ 0x8cc70208 ∷ 0x90befffa ∷ 0xa4506ceb ∷ 0xbef9a3f7
    ∷ 0xc67178f2 ∷ []

abbrev pub initial_hash : List ℕ
initial_hash =
    0x6a09e667 ∷ 0xbb67ae85 ∷ 0x3c6ef372 ∷ 0xa54ff53a ∷ 0x510e527f ∷ 0x9b05688c ∷ 0x1f83d9ab
    ∷ 0x5be0cd19 ∷ []

abbrev word_mod : ℕ
word_mod = 2 ^ 32

rotate_right : ℕ → ℕ → ℕ
rotate_right value count = bit_or (value / 2 ^ count) (value * 2 ^ (32 - count) % word_mod)

-- ~word
complement : ℕ → ℕ
complement word = word_mod - 1 - word

-- The first loop of `transform`: four bytes to a word, the highest first.
block_words : Text → List ℕ
block_words (b0 ∷ b1 ∷ b2 ∷ b3 ∷ rest) =
    bit_or (bit_or (bit_or (b0 * 2 ^ 24) (b1 * 2 ^ 16)) (b2 * 2 ^ 8)) b3 ∷ block_words rest
block_words _ = []

-- words[index]
at : List ℕ → ℕ → ℕ
at words index = elim (get_elem? words index) [ some word ↦ word | none ↦ 0 ]

-- The second loop, by the rounds that are left.
expand : ℕ → ℕ → List ℕ → List ℕ
unfolding at rotate_right
expand zero index words = words
expand (suc rounds) index words =
    let w15 = at words (index - 15) in
    let w2 = at words (index - 2) in
    let sigma0 = bit_xor (bit_xor (rotate_right w15 7) (rotate_right w15 18)) (w15 / 2 ^ 3) in
    let sigma1 = bit_xor (bit_xor (rotate_right w2 17) (rotate_right w2 19)) (w2 / 2 ^ 10) in
    let word = (at words (index - 16) + sigma0 + at words (index - 7) + sigma1) % word_mod in
    expand rounds (index + 1) (words ++ word ∷ [])

-- The local variables of the third loop.
record Working : Type 0 where
  a : ℕ
  b : ℕ
  c : ℕ
  d : ℕ
  e : ℕ
  f : ℕ
  g : ℕ
  h : ℕ

-- The third loop, over the constants and the words.
mix : List ℕ → List ℕ → Working → Working
unfolding rotate_right complement
mix (constant ∷ constants) (word ∷ words) v =
    let sum1 = bit_xor (bit_xor (rotate_right v.e 6) (rotate_right v.e 11)) (rotate_right v.e 25) in
    let choice = bit_xor (bit_and v.e v.f) (bit_and (complement v.e) v.g) in
    let temporary1 = (v.h + sum1 + choice + constant + word) % word_mod in
    let sum0 = bit_xor (bit_xor (rotate_right v.a 2) (rotate_right v.a 13)) (rotate_right v.a 22) in
    let majority = bit_xor (bit_xor (bit_and v.a v.b) (bit_and v.a v.c)) (bit_and v.b v.c) in
    let temporary2 = (sum0 + majority) % word_mod in
    mix constants words (record {
      a = (temporary1 + temporary2) % word_mod;
      b = v.a;
      c = v.b;
      d = v.c;
      e = (v.d + temporary1) % word_mod;
      f = v.e;
      g = v.f;
      h = v.g;
    })
mix _ _ v = v

pub transform : List ℕ → Text → List ℕ
unfolding expand mix at block_words
transform hash block =
    let v = mix round_constants (expand 48 16 (block_words block)) (record {
      a = at hash 0;
      b = at hash 1;
      c = at hash 2;
      d = at hash 3;
      e = at hash 4;
      f = at hash 5;
      g = at hash 6;
      h = at hash 7;
    }) in
    (at hash 0 + v.a) % word_mod
    ∷ (at hash 1 + v.b) % word_mod
    ∷ (at hash 2 + v.c) % word_mod
    ∷ (at hash 3 + v.d) % word_mod
    ∷ (at hash 4 + v.e) % word_mod
    ∷ (at hash 5 + v.f) % word_mod
    ∷ (at hash 6 + v.g) % word_mod
    ∷ (at hash 7 + v.h) % word_mod
    ∷ []

pub record Sha256 : Type 0 where
  pub hash : List ℕ
  pub buffer : Text
  pub total_bytes : ℕ

abbrev pub new_sha256 : Sha256
new_sha256 = record { hash = initial_hash; buffer = []; total_bytes = 0 }

-- The loop of `update` over the whole blocks, from the bytes at `offset` on; each round takes 64 of
-- them, so their number is enough fuel. Behind it the bytes that are left go into the buffer.
pub update_loop : ℕ → Sha256 → Text → Sha256
update_loop zero s rest = s
update_loop (suc fuel) s rest =
    let next =
      update_loop fuel (record s { hash = transform s.hash (take 64 rest) }) (drop 64 rest) in
    if leb 64 (length rest) then next else if empty? rest then s else record s { buffer = rest }

-- The part of `update` that fills a buffer which is not empty.
pub fill_buffer : Sha256 → Text → Sha256
fill_buffer s bytes =
    let buffer = s.buffer ++ bytes in
    if length buffer == 64
    then record s { hash = transform s.hash buffer; buffer = [] }
    else record s { buffer = buffer }

-- How many bytes of the content `update` copies into the buffer.
pub copied : Sha256 → Text → ℕ
copied s content = min (length content) (64 - length s.buffer)

-- `update` behind its check and the sum.
pub update_counted : Sha256 → Text → Sha256
update_counted s content =
    if empty? s.buffer
    then update_loop (suc (length content)) s content
    else update_loop (suc (length content)) (fill_buffer s (take (copied s content) content))
        (drop (copied s content) content)

-- `none` for `return false`
pub update : Sha256 → Text → Option Sha256
update s content =
    if ltb (2 ^ 64 - 1 - s.total_bytes) (length content)
    then none
    else some (update_counted (record s { total_bytes = s.total_bytes + length content }) content)

-- std::fill with zeros
pub zeros : ℕ → Text
zeros zero = []
zeros (suc n) = 0 ∷ zeros n

-- `bit_length` in eight bytes, the highest first.
pub length_field : ℕ → Text
length_field n =
    n / 2 ^ 56 % 2 ^ 8
    ∷ n / 2 ^ 48 % 2 ^ 8
    ∷ n / 2 ^ 40 % 2 ^ 8
    ∷ n / 2 ^ 32 % 2 ^ 8
    ∷ n / 2 ^ 24 % 2 ^ 8
    ∷ n / 2 ^ 16 % 2 ^ 8
    ∷ n / 2 ^ 8 % 2 ^ 8
    ∷ n % 2 ^ 8
    ∷ []

-- `finish` up to the last `transform`.
pub finish_hash : Sha256 → List ℕ
finish_hash s =
    let bit_length = s.total_bytes * 8 % 2 ^ 64 in
    let marked = s.buffer ++ 0x80 ∷ [] in
    if ltb 56 (length marked)
    then transform (transform s.hash (marked ++ zeros (64 - length marked)))
        (zeros 56 ++ length_field bit_length)
    else transform s.hash ((marked ++ zeros (56 - length marked)) ++ length_field bit_length)

hex_digit : ℕ → ℕ
hex_digit n = if ltb n 10 then b'0' + n else b'a' + (n - 10)

-- std::hex with std::setw(8)
hex_word : ℕ → Text
unfolding hex_digit
hex_word n =
    hex_digit (n / 2 ^ 28 % 16)
    ∷ hex_digit (n / 2 ^ 24 % 16)
    ∷ hex_digit (n / 2 ^ 20 % 16)
    ∷ hex_digit (n / 2 ^ 16 % 16)
    ∷ hex_digit (n / 2 ^ 12 % 16)
    ∷ hex_digit (n / 2 ^ 8 % 16)
    ∷ hex_digit (n / 2 ^ 4 % 16)
    ∷ hex_digit (n % 16)
    ∷ []

pub hex_text : List ℕ → Text
unfolding hex_word
hex_text [] = []
hex_text (word ∷ words) = hex_word word ++ hex_text words

pub finish : Sha256 → Text
unfolding finish_hash hex_text
finish s = hex_text (finish_hash s)

-- The result of `update` is dropped; where it is false, the state is the new one.
pub sha256_hex : Text → Text
sha256_hex content = elim (update new_sha256 content) [
  | some s ↦ finish s
  | none ↦ finish new_sha256
]

-- The loop of `sha256_file_hex` over the pieces that the reads deliver; `none` for "file is too
-- large".
pub file_loop : Sha256 → List Text → Option Sha256
file_loop s [] = some s
file_loop s (piece ∷ pieces) =
    let rest = file_loop s pieces in
    if empty? piece
    then rest
    else elim (update s piece) [ some s' ↦ file_loop s' pieces | none ↦ none ]

-- `sha256_file_hex` of a file that is opened and read to its end.
pub sha256_file_hex : List Text → Option Text
sha256_file_hex pieces = elim (file_loop new_sha256 pieces) [
  | some s ↦ some (finish s)
  | none ↦ none
]
