-- ===== src/Tests/Paths.antt =====
-- Paths, upstream URLs and headers (src/core/url.cpp, src/transport/header_filter.cpp).
use cc_switch_trans.Common.{
  ◌≡◌, refl, ◌∷◌, [], ◌++◌, inr, true, not, all, Text, codes, text_eq, arith,
}
use cc_switch_trans.Core.Url.{
  path_loop, path_round, escape_round, decoded_round, finish_path, has_double_slash, is_dot_segment,
  canonicalize_http_path, canonical, lower_copy, to_lower, ends_with, is_hex, hex_value, upper_hex,
  is_unreserved, split_on, pop_back,
}
use cc_switch_trans.Core.Url.Canonical.{canonicalize_idempotent}
use cc_switch_trans.Core.Url.Safety.{IsSafe, canonicalize-IsSafe}
use cc_switch_trans.Core.UpstreamUrl.{ParsedUrl}
use cc_switch_trans.Core.UpstreamUrl.Upstream.{IsUpstream, parse_full, parse_http_url-IsUpstream}
use cc_switch_trans.Core.HeaderFilter.{is_space, Headers, filter_headers}
use cc_switch_trans.Core.HeaderFilter.Hops.{nominated_removed}

abbrev raw_path : Text
raw_path = codes "/v1/%7euser/%e4/"

abbrev canonical_path : Text
canonical_path = codes "/v1/~user/%E4"

raw_path-canonical : canonicalize_http_path raw_path ≡ canonical canonical_path
unfolding canonicalize_http_path path_loop path_round escape_round decoded_round finish_path
    has_double_slash is_dot_segment split_on is_hex hex_value upper_hex is_unreserved ends_with
    pop_back text_eq
raw_path-canonical = refl

canonicalize_idempotent_example : canonicalize_http_path canonical_path ≡ canonical canonical_path
canonicalize_idempotent_example = canonicalize_idempotent raw_path canonical_path raw_path-canonical

canonicalize-IsSafe_example : IsSafe canonical_path
canonicalize-IsSafe_example = canonicalize-IsSafe raw_path canonical_path raw_path-canonical

abbrev api_url : ParsedUrl
api_url = record {
  secure = true;
  host = codes "api.example.com";
  port = 8443;
  base_path = codes "/v1";
}

parse_http_url-IsUpstream_example : IsUpstream api_url
parse_http_url-IsUpstream_example =
    parse_http_url-IsUpstream (codes "HTTPS://Api.Example.com.:8443/v1") api_url parse_full

abbrev tail_headers : Headers
tail_headers = (codes "X-Hop", codes "1") ∷ (codes "Accept", codes "text/plain") ∷ []

nominated_removed_example :
    all
      (λ h. not (text_eq (lower_copy h.0) (lower_copy (codes "x-hop"))))
      (filter_headers
        ([]
          ++ (
            codes "Connection",
            codes "close," ++ ((codes " " ++ (codes "x-hop" ++ [])) ++ codes ",te"),
          )
            ∷ tail_headers)
        true)
    ≡ true
unfolding ends_with lower_copy to_lower text_eq is_space
nominated_removed_example =
    nominated_removed [] tail_headers (codes "Connection") (codes "close,") (codes " ")
      (codes "x-hop") [] (codes ",te") true refl (inr refl) refl
      (refl, λ h. absurd (ground (arith, h))) refl (inr refl)
