-- ===== src/Core/Url.antt =====
-- src/core/url.cpp: upstream URLs, canonical local paths, and the joining of both. The functions
-- that set `error` or throw return it as a value.
pub mod Units
pub mod Canonical
pub mod Safety
use cc_switch_trans.Common.{
  ℕ, zero, suc, ◌+◌, ◌-◌, ◌*◌, ◌/◌, ◌%◌, ◌^◌, Bool, true, false, not, ◌&&◌, ◌||◌, Option, none,
  some, List, [], ◌∷◌, ◌++◌, map, Text, codes, text_eq, length, drop, empty?, any, ltb, leb, ◌==◌,
  if◌then◌else◌,
}

-- std::tolower in the "C" locale
unfoldable pub to_lower : ℕ → ℕ
to_lower ch = if leb b'A' ch && leb ch b'Z' then ch + 32 else ch

unfoldable pub lower_copy : Text → Text
lower_copy = map to_lower

unfoldable pub is_hex : ℕ → Bool
is_hex ch =
    (leb b'0' ch && leb ch b'9') || (leb b'a' ch && leb ch b'f') || (leb b'A' ch && leb ch b'F')

unfoldable pub hex_value : ℕ → ℕ
hex_value ch =
    if leb b'0' ch && leb ch b'9'
    then ch - b'0'
    else if leb b'a' ch && leb ch b'f'
    then ch - b'a' + 10
    else ch - b'A' + 10

unfoldable pub upper_hex : ℕ → ℕ
upper_hex value = if ltb value 10 then b'0' + value else b'A' + value - 10

unfoldable pub is_unreserved : ℕ → Bool
is_unreserved ch =
    (leb b'a' ch && leb ch b'z')
    || (leb b'A' ch && leb ch b'Z')
    || (leb b'0' ch && leb ch b'9')
    || (ch == b'-')
    || (ch == b'.')
    || (ch == b'_')
    || (ch == b'~')

-- The texts of `error`.
pub data PathError : Type 0 where
  must_start_with_slash too_long forbidden_character invalid_escape encodes_control
        encodes_separator duplicate_separators dot_segment :
      PathError

pub data PathResult : Type 0 where
  canonical : Text → PathResult
  rejected : PathError → PathResult

abbrev pub is_control : ℕ → Bool
is_control ch = ltb ch 0x20 || (ch == 0x7f)

-- One round of the loop of `canonicalize_http_path`: the byte is taken over, or it starts an escape
-- of three bytes that adds `added`, or the path is refused.
pub data Round : Type 0 where
  plain : Round
  escape : Text → Round
  refuse : PathError → Round

unfoldable pub decoded_round : ℕ → Round
decoded_round decoded =
    if is_control decoded
    then refuse encodes_control
    else if (decoded == b'.') || (decoded == b'/') || (decoded == 0x5c)
    then refuse encodes_separator
    else if is_unreserved decoded
    then escape (decoded ∷ [])
    else escape (b'%' ∷ upper_hex (decoded / 16) ∷ upper_hex (decoded % 16) ∷ [])

-- `(hex_value(a) << 4) | hex_value(b)`, the two halves having no bit in common
unfoldable pub escape_round : Text → Round
escape_round (high ∷ low ∷ _) =
    if not (is_hex high) || not (is_hex low)
    then refuse invalid_escape
    else decoded_round (hex_value high * 16 + hex_value low)
escape_round _ = refuse invalid_escape

unfoldable pub path_round : ℕ → Text → Round
path_round ch rest =
    if is_control ch || (ch == b'?') || (ch == b'#') || (ch == 0x5c)
    then refuse forbidden_character
    else if not (ch == b'%')
    then plain
    else escape_round rest

abbrev pub prepend : Text → PathResult → PathResult
prepend added (canonical out) = canonical (added ++ out)
prepend added (rejected e) = rejected e

-- The loop; each round takes a byte at least, so the size is enough fuel.
unfoldable pub path_loop : ℕ → Text → PathResult
path_loop fuel [] = canonical []
path_loop zero (ch ∷ rest) = rejected too_long
path_loop (suc fuel) (ch ∷ rest) = elim (path_round ch rest) [
  | plain ↦ prepend (ch ∷ []) (path_loop fuel rest)
  | escape added ↦ prepend added (path_loop fuel (drop 2 rest))
  | refuse e ↦ rejected e
]

-- candidate.find("//") != npos
unfoldable pub has_double_slash : Text → Bool
has_double_slash [] = false
has_double_slash (a ∷ []) = false
has_double_slash (a ∷ b ∷ s) = ((a == b'/') && (b == b'/')) || has_double_slash (b ∷ s)

-- The segments that the loop over `find('/', start)` visits.
unfoldable pub split_on : ℕ → Text → List Text
split_on c [] = [] ∷ []
split_on c (x ∷ s) =
    let rest = split_on c s in
    if x == c
    then [] ∷ rest
    else elim rest [ [] ↦ (x ∷ []) ∷ [] | segment ∷ more ↦ (x ∷ segment) ∷ more ]

unfoldable pub is_dot_segment : Text → Bool
is_dot_segment segment = text_eq segment (codes ".") || text_eq segment (codes "..")

-- back() == c
unfoldable pub ends_with : ℕ → Text → Bool
ends_with c [] = false
ends_with c (a ∷ []) = a == c
ends_with c (a ∷ b ∷ s) = ends_with c (b ∷ s)

-- front() == c
abbrev pub begins_with : ℕ → Text → Bool
begins_with c [] = false
begins_with c (a ∷ s) = a == c

unfoldable pub pop_back : Text → Text
pop_back [] = []
pop_back (a ∷ []) = []
pop_back (a ∷ b ∷ s) = a ∷ pop_back (b ∷ s)

unfoldable pub finish_path : Text → PathResult
finish_path candidate =
    if has_double_slash candidate
    then rejected duplicate_separators
    else if any is_dot_segment (split_on b'/' (drop 1 candidate))
    then rejected dot_segment
    else if ltb 1 (length candidate) && ends_with b'/' candidate
    then canonical (pop_back candidate)
    else canonical candidate

abbrev pub and_then : PathResult → (Text → PathResult) → PathResult
and_then (canonical c) f = f c
and_then (rejected e) f = rejected e

unfoldable pub canonicalize_http_path : Text → PathResult
canonicalize_http_path raw =
    if empty? raw || not (begins_with b'/' raw)
    then rejected must_start_with_slash
    else if ltb 2048 (length raw)
    then rejected too_long
    else and_then (path_loop (length raw) raw) finish_path

unfoldable pub join_url_path : Text → Text → Text → Text
join_url_path base_path route_path query =
    let path = if empty? base_path then codes "/" else base_path in
    let joined =
      if ends_with b'/' path && begins_with b'/' route_path
      then pop_back path
      else if not (ends_with b'/' path) && not (begins_with b'/' route_path)
      then path ++ b'/' ∷ []
      else path in
    let full = joined ++ route_path in if empty? query then full else full ++ b'?' ∷ query
