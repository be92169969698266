-- ===== src/Core/HeaderFilter.antt =====
-- src/transport/header_filter.cpp: which headers a proxy passes on. Texts are bytes; `tolower` and
-- `isspace` are those of the "C" locale.
pub mod Pieces
pub mod Hops
use cc_switch_trans.Common.{
  ℕ, Bool, true, false, not, ◌&&◌, ◌||◌, List, [], ◌∷◌, Text, codes, text_eq, any, leb, ◌==◌,
  if◌then◌else◌,
}
use cc_switch_trans.Core.Url.{lower_copy, split_on, ends_with, pop_back}

abbrev pub Headers : Type 0
Headers = List (Text × Text)

abbrev skipped : List Text
skipped =
    codes "content-length"
    ∷ codes "connection"
    ∷ codes "keep-alive"
    ∷ codes "proxy-authenticate"
    ∷ codes "proxy-authorization"
    ∷ codes "proxy-connection"
    ∷ codes "te"
    ∷ codes "trailer"
    ∷ codes "transfer-encoding"
    ∷ codes "upgrade"
    ∷ []

unfoldable pub is_standard_hop_by_hop_name : Text → Bool → Bool
is_standard_hop_by_hop_name name request =
    (request && text_eq name (codes "host")) || any (text_eq name) skipped

unfoldable pub is_space : ℕ → Bool
is_space ch = (leb 9 ch && leb ch 13) || (ch == 32)

-- The two loops that move `token_start` and `token_end`.
pub trim_start : Text → Text
trim_start [] = []
trim_start (c ∷ s) = let rest = trim_start s in if is_space c then rest else c ∷ s

pub trim_end : Text → Text
trim_end [] = []
trim_end (c ∷ s) = elim (trim_end s) [
  | [] ↦ if is_space c then [] else c ∷ []
  | d ∷ rest ↦ c ∷ d ∷ rest
]

-- The sizes are equal, and so are the bytes once both are in lower case.
pub names : Text → Text → Bool
names normalized_name token =
    text_eq (lower_copy (trim_end (trim_start token))) (lower_copy normalized_name)

-- The loop over `value.find(',', start)` visits the pieces between the commas.
pub connection_nominates : Headers → Text → Bool
connection_nominates [] normalized_name = false
connection_nominates ((name, value) ∷ headers) normalized_name =
    (text_eq (lower_copy name) (codes "connection")
      && any (names normalized_name) (split_on b',' value))
    || connection_nominates headers normalized_name

pub passes : Headers → Bool → Text → Bool
passes headers request normalized_name =
    not (is_standard_hop_by_hop_name normalized_name request)
    && not (connection_nominates headers normalized_name)

pub filter_loop : Headers → Bool → Headers → Headers
filter_loop all request [] = []
filter_loop all request ((name, value) ∷ headers) =
    let rest = filter_loop all request headers in
    if passes all request (lower_copy name) then (name, value) ∷ rest else rest

unfoldable pub filter_headers : Headers → Bool → Headers
filter_headers headers request = filter_loop headers request headers

unfoldable pub filter_request_headers : Headers → Headers
unfolding filter_headers
filter_request_headers headers = filter_headers headers true

unfoldable pub filter_response_headers : Headers → Headers
unfolding filter_headers
filter_response_headers headers = filter_headers headers false
