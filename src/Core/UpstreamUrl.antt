-- ===== src/Core/UpstreamUrl.antt =====
-- `parse_http_url` of src/core/url.cpp. An exception is the result `invalid`.
pub mod Join
pub mod Upstream
use mathlib.Core.List.{append_assoc}
use cc_switch_trans.Common.{
  ℕ, zero, suc, ◌+◌, ◌-◌, ◌*◌, ◌≤◌, ◌<◌, ◌≡◌, ◌∙◌, ap, sym, refl, Bool, true, false, not, ◌&&◌,
  ◌||◌, Option, none, some, List, [], ◌∷◌, ◌++◌, map, Text, codes, text_eq, length, take, drop,
  empty?, all, ltb, leb, ◌==◌, if◌then◌else◌, arith, Bool-cases, subst,
}
use cc_switch_trans.Core.Url.{lower_copy, to_lower, ends_with, pop_back, begins_with, join_url_path}
use cc_switch_trans.Core.Url.Canonical.{pop_back-append}

pub record ParsedUrl : Type 0 where
  pub secure : Bool
  pub host : Text
  pub port : ℕ
  pub base_path : Text

pub data UrlError : Type 0 where
  unknown_scheme invalid_authority invalid_ipv6_host brackets_required invalid_port empty_host :
      UrlError

pub data UrlResult : Type 0 where
  parsed : ParsedUrl → UrlResult
  invalid : UrlError → UrlResult

abbrev after : Option ℕ → Option ℕ
after none = none
after (some i) = some (suc i)

-- find(c); `none` is npos
unfoldable pub find_byte : ℕ → Text → Option ℕ
find_byte c [] = none
find_byte c (x ∷ s) = if x == c then some 0 else after (find_byte c s)

-- rfind(c)
unfoldable pub rfind_byte : ℕ → Text → Option ℕ
rfind_byte c [] = none
rfind_byte c (x ∷ s) = elim (rfind_byte c s) [
  | some i ↦ some (suc i)
  | none ↦ if x == c then some 0 else none
]

unfoldable pub is_prefix : Text → Text → Bool
is_prefix [] s = true
is_prefix (p ∷ ps) [] = false
is_prefix (p ∷ ps) (x ∷ s) = (p == x) && is_prefix ps s

-- find(text)
unfoldable pub find_text : Text → Text → Option ℕ
find_text p [] = none
find_text p (x ∷ s) = if is_prefix p (x ∷ s) then some 0 else after (find_text p s)

-- std::from_chars over the whole text; `none` where it stops early or finds no digit
unfoldable pub digits_value : ℕ → Text → Option ℕ
digits_value value [] = some value
digits_value value (c ∷ s) =
    let rest = digits_value (value * 10 + (c - b'0')) s in
    if leb b'0' c && leb c b'9' then rest else none

-- A value that `unsigned int` cannot hold is refused too, as above 65535.
unfoldable pub parse_port : Text → Option ℕ
unfolding digits_value
parse_port text = if empty? text then none else elim (digits_value 0 text) [
  | none ↦ none
  | some value ↦ if (value == 0) || ltb 65535 value then none else some value
]

unfoldable pub strip_dots : ℕ → Text → Text
strip_dots zero host = host
strip_dots (suc fuel) host =
    let rest = strip_dots fuel (pop_back host) in if ends_with b'.' host then rest else host

-- The end of the function, from the host as the authority gives it; each round of the loop takes
-- a byte off the host, so its size is enough fuel.
unfoldable pub finish_url : Bool → Text → Text → ℕ → UrlResult
unfolding strip_dots
finish_url secure base_path host port =
    let stripped = strip_dots (length (lower_copy host)) (lower_copy host) in
    if empty? stripped
    then invalid empty_host
    else parsed (record {
      secure = secure;
      host = stripped;
      port = port;
      base_path = (if empty? base_path then codes "/" else base_path);
    })

abbrev with_port : Option ℕ → (ℕ → UrlResult) → UrlResult
with_port none f = invalid invalid_port
with_port (some port) f = f port

unfoldable pub bracket_authority : Bool → ℕ → Text → Text → UrlResult
bracket_authority secure port base_path authority = elim (find_byte b']' authority) [
  | none ↦ invalid invalid_ipv6_host
  | some closing ↦
      let host = take (closing - 1) (drop 1 authority) in
      if ltb (closing + 1) (length authority)
      then (if begins_with b':' (drop (closing + 1) authority)
          then with_port (parse_port (drop (closing + 2) authority))
              (finish_url secure base_path host)
          else invalid invalid_authority)
      else finish_url secure base_path host port
]

-- first_colon != npos && first_colon != last_colon
abbrev several : Option ℕ → Option ℕ → Bool
several none last = false
several (some i) none = true
several (some i) (some j) = not (i == j)

unfoldable pub plain_authority : Bool → ℕ → Text → Text → UrlResult
plain_authority secure port base_path authority =
    if several (find_byte b':' authority) (rfind_byte b':' authority)
    then invalid brackets_required
    else elim (rfind_byte b':' authority) [
      | none ↦ finish_url secure base_path authority port
      | some colon ↦
          with_port (parse_port (drop (colon + 1) authority))
            (finish_url secure base_path (take colon authority))
    ]

abbrev found : Option ℕ → Bool
found none = false
found (some i) = true

abbrev pub authority_of : Option ℕ → Text → Text
authority_of none rest = rest
authority_of (some slash) rest = take slash rest

abbrev pub path_of : Option ℕ → Text → Text
path_of none rest = codes "/"
path_of (some slash) rest = drop slash rest

unfoldable pub parse_authority : Bool → ℕ → Text → UrlResult
parse_authority secure port rest =
    let authority = authority_of (find_byte b'/' rest) rest in
    let base_path = path_of (find_byte b'/' rest) rest in
    if empty? authority || found (find_byte b'@' authority)
    then invalid invalid_authority
    else if begins_with b'[' authority
    then bracket_authority secure port base_path authority
    else plain_authority secure port base_path authority

unfoldable pub parse_http_url : Text → UrlResult
parse_http_url raw = elim (find_text (codes "://") raw) [
  | none ↦ invalid unknown_scheme
  | some scheme_end ↦
      let scheme = lower_copy (take scheme_end raw) in
      let rest = drop (scheme_end + 3) raw in
      if text_eq scheme (codes "http")
      then parse_authority false 80 rest
      else if text_eq scheme (codes "https")
      then parse_authority true 443 rest
      else invalid unknown_scheme
]
