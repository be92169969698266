-- ===== src/Core/Sha256/Vectors.antt =====
-- A published test vector of SHA-256, run through src/core/sha256.cpp.
use cc_switch_trans.Common.{◌≡◌, refl, codes}
use cc_switch_trans.Core.Sha256.{
  sha256_hex, update, update_counted, update_loop, finish, finish_hash, hex_text, hex_word,
  hex_digit, transform, expand, mix, at, block_words, rotate_right, complement, zeros, length_field,
}

digest_of_abc :
    sha256_hex (codes "abc")
    ≡ codes "ba7816bf8f01cfea414140de5dae2223b00361a396177a9cb410ff61f20015ad"
unfolding sha256_hex update update_counted update_loop finish finish_hash hex_text hex_word
    hex_digit transform expand mix at block_words rotate_right complement zeros length_field
digest_of_abc = refl
