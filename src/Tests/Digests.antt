-- ===== src/Tests/Digests.antt =====
-- A content and a file in three pieces (src/core/sha256.cpp).
use mathlib.Core.List.{flatten}
use cc_switch_trans.Common.{ℕ, ◌≡◌, List, [], ◌∷◌, some, Text, codes, arith}
use cc_switch_trans.Core.Sha256.{initial_hash, sha256_hex, sha256_file_hex, hex_text}
use cc_switch_trans.Core.Sha256.Stream.{Absorbs}
use cc_switch_trans.Core.Sha256.Padding.{padded, sha256_hex-Absorbs, sha256_file_hex-flatten}

sha256_hex-Absorbs_example :
    (h : List ℕ) × Absorbs initial_hash (padded (codes "abc")) h []
    × (sha256_hex (codes "abc") ≡ hex_text h)
sha256_hex-Absorbs_example = sha256_hex-Absorbs (codes "abc") (omega arith)

abbrev pieces : List Text
pieces = codes "a" ∷ [] ∷ codes "bc" ∷ []

sha256_file_hex-flatten_example : sha256_file_hex pieces ≡ some (sha256_hex (flatten pieces))
unfolding flatten
sha256_file_hex-flatten_example = sha256_file_hex-flatten pieces (omega arith)
