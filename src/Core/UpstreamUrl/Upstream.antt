-- ===== src/Core/UpstreamUrl/Upstream.antt =====
-- What `parse_http_url` of src/core/url.cpp promises to the transport.

use cc_switch_trans.Common.{
  Option-cases, ℕ, zero, suc, ◌+◌, ◌-◌, ◌≤◌, ◌<◌, ◌≡◌, ◌∙◌, ap, sym, refl, inl, inr, Bool, true,
  false, not, ◌&&◌, ◌||◌, Option, some, [], ◌∷◌, Text, codes, text_eq, length, take, drop, empty?,
  all, ltb, leb, arith, Bool-cases,
}
use cc_switch_trans.Core.Url.{lower_copy, to_lower, ends_with, pop_back, begins_with}
use cc_switch_trans.Core.UpstreamUrl.{
  ParsedUrl, UrlResult, parsed, find_byte, rfind_byte, find_text, is_prefix, parse_port, strip_dots,
  finish_url, with_port, bracket_authority, plain_authority, found, authority_of, path_of,
  parse_authority, parse_http_url,
}

pub parse_full :
    parse_http_url (codes "HTTPS://Api.Example.com.:8443/v1")
    ≡ parsed (record {
      secure = true;
      host = codes "api.example.com";
      port = 8443;
      base_path = codes "/v1";
    })
unfolding parse_http_url parse_authority plain_authority bracket_authority find_text find_byte
    rfind_byte is_prefix parse_port finish_url lower_copy to_lower text_eq ends_with pop_back
parse_full = refl

-- What is asked of an upstream URL.
pub record IsUpstream (u : ParsedUrl) : Type 0 where
  pub port_pos : 0 < u.port
  pub port_max : u.port ≤ 65535
  pub host_given : empty? u.host ≡ false
  pub host_lower : all (λ ch. not (leb b'A' ch && leb ch b'Z')) u.host ≡ true
  pub host_no_dot : ends_with b'.' u.host ≡ false
  pub path_rooted : begins_with b'/' u.base_path ≡ true

abbrev IsLower : Text → Type 0
IsLower s = all (λ ch. not (leb b'A' ch && leb ch b'Z')) s ≡ true

lower_copy-IsLower : (s : Text) → IsLower (lower_copy s)
unfolding lower_copy to_lower
lower_copy-IsLower [] = refl
lower_copy-IsLower (a ∷ s) = ground (arith, lower_copy-IsLower s)

pop_back-IsLower : (s : Text) → IsLower s → IsLower (pop_back s)
unfolding pop_back
pop_back-IsLower [] h = h
pop_back-IsLower (a ∷ []) h = refl
pop_back-IsLower (a ∷ b ∷ s) h = ground (arith, pop_back-IsLower (b ∷ s))

length-pop_back : (s : Text) → length (pop_back s) ≡ length s - 1
unfolding pop_back
length-pop_back [] = omega arith
length-pop_back (a ∷ []) = omega arith
length-pop_back (a ∷ b ∷ s) = omega (arith, length-pop_back (b ∷ s))

strip_dots-IsLower : (f : ℕ) (s : Text) → IsLower s → IsLower (strip_dots f s)
unfolding strip_dots
strip_dots-IsLower zero s h = h
strip_dots-IsLower (suc f) s h =
    ground (arith, h, strip_dots-IsLower f (pop_back s) (pop_back-IsLower s h))

no_dot_short : (s : Text) → length s ≤ 0 → ends_with b'.' s ≡ false
unfolding ends_with
no_dot_short [] h = refl
no_dot_short (a ∷ s) h = absurd (omega arith)

strip_dots-done : (f : ℕ) (s : Text) → length s ≤ f → ends_with b'.' (strip_dots f s) ≡ false
unfolding strip_dots
strip_dots-done zero s h = no_dot_short s h
strip_dots-done (suc f) s h =
    ground (arith, strip_dots-done f (pop_back s) (omega (arith, length-pop_back s)))

abbrev Upstream : UrlResult → Type 0
Upstream r = (u : ParsedUrl) → r ≡ parsed u → IsUpstream u

finish_url-Upstream :
    (secure : Bool) (path host : Text) (port : ℕ)
    → 0 < port
    → port ≤ 65535
    → begins_with b'/' path ≡ true
    → Upstream (finish_url secure path host port)
unfolding finish_url
finish_url-Upstream secure path host port p q r u h =
    let n = length (lower_copy host) in
    let low = strip_dots-IsLower n (lower_copy host) (lower_copy-IsLower host) in
    let nodot = strip_dots-done n (lower_copy host) (omega arith) in
    record {
      port_pos = ground arith;
      port_max = ground arith;
      host_given = ground arith;
      host_lower = ground (arith, low);
      host_no_dot = ground (arith, nodot);
      path_rooted = ground (arith, r);
    }

parse_port_bounds : (s : Text) (p : ℕ) → parse_port s ≡ some p → (0 < p) × (p ≤ 65535)
unfolding parse_port
parse_port_bounds s p h = ground arith

with_port-Upstream :
    (s : Text) (secure : Bool) (path host : Text)
    → begins_with b'/' path ≡ true
    → Upstream (with_port (parse_port s) (finish_url secure path host))
with_port-Upstream s secure path host r u h = elim (Option-cases (parse_port s)) [
  | inl n ↦ ground arith
  | inr (p, e) ↦
      let (low, high) = parse_port_bounds s p e in
      finish_url-Upstream secure path host p low high r u
        (ap (λ (k : Option ℕ). with_port k (finish_url secure path host)) (sym e) ∙ h)
]

bracket-Upstream :
    (secure : Bool) (port : ℕ) (path authority : Text)
    → 0 < port
    → port ≤ 65535
    → begins_with b'/' path ≡ true
    → Upstream (bracket_authority secure port path authority)
unfolding bracket_authority
bracket-Upstream secure port path authority p q r u h =
    elim (Option-cases (find_byte b']' authority)) [
      | inl n ↦ ground arith
      | inr (closing, e) ↦
          let host = take (closing - 1) (drop 1 authority) in
          elim (Bool-cases (ltb (closing + 1) (length authority))) [
            | inl more ↦ elim (Bool-cases (begins_with b':' (drop (closing + 1) authority))) [
              | inl colon ↦
                  with_port-Upstream (drop (closing + 2) authority) secure path host r u
                    (ground arith)
              | inr other ↦ ground arith
            ]
            | inr done ↦ finish_url-Upstream secure path host port p q r u (ground arith)
          ]
    ]

plain-Upstream :
    (secure : Bool) (port : ℕ) (path authority : Text)
    → 0 < port
    → port ≤ 65535
    → begins_with b'/' path ≡ true
    → Upstream (plain_authority secure port path authority)
unfolding plain_authority
plain-Upstream secure port path authority p q r u h =
    elim (Option-cases (rfind_byte b':' authority)) [
      | inl n ↦ finish_url-Upstream secure path authority port p q r u (ground arith)
      | inr (colon, e) ↦
          with_port-Upstream (drop (colon + 1) authority) secure path (take colon authority) r u
            (ground arith)
    ]

find_byte-begins :
    (c : ℕ) (s : Text) (i : ℕ) → find_byte c s ≡ some i → begins_with c (drop i s) ≡ true
unfolding find_byte
find_byte-begins c [] i h = cc
find_byte-begins c (x ∷ s) zero h = ground arith
find_byte-begins c (x ∷ s) (suc i) h = find_byte-begins c s i (ground arith)

path_of-rooted : (s : Text) → begins_with b'/' (path_of (find_byte b'/' s) s) ≡ true
path_of-rooted s = elim (Option-cases (find_byte b'/' s)) [
  | inl n ↦ rw n refl
  | inr (i, e) ↦ rw e (find_byte-begins b'/' s i e)
]

authority-Upstream :
    (secure : Bool) (port : ℕ) (rest : Text)
    → 0 < port
    → port ≤ 65535
    → Upstream (parse_authority secure port rest)
unfolding parse_authority
authority-Upstream secure port rest p q u h =
    let authority = authority_of (find_byte b'/' rest) rest in
    let path = path_of (find_byte b'/' rest) rest in
    let r = path_of-rooted rest in
    elim (Bool-cases (empty? authority || found (find_byte b'@' authority))) [
      | inl bad ↦ ground arith
      | inr good ↦ elim (Bool-cases (begins_with b'[' authority)) [
        | inl b ↦ bracket-Upstream secure port path authority p q r u (ground arith)
        | inr b ↦ plain-Upstream secure port path authority p q r u (ground arith)
      ]
    ]

-- A URL that is parsed has a port from 1 to 65535, a host that is not empty, is in lower case and
-- does not end in a dot, and a base path that starts with a slash.
pub parse_http_url-IsUpstream :
    (raw : Text) (u : ParsedUrl) → parse_http_url raw ≡ parsed u → IsUpstream u
unfolding parse_http_url
parse_http_url-IsUpstream raw u h = elim (Option-cases (find_text (codes "://") raw)) [
  | inl n ↦ ground arith
  | inr (i, e) ↦ elim (Bool-cases (text_eq (lower_copy (take i raw)) (codes "http"))) [
    | inl a ↦
        authority-Upstream false 80 (drop (i + 3) raw) (omega arith) (omega arith) u (ground arith)
    | inr a ↦
        authority-Upstream true 443 (drop (i + 3) raw) (omega arith) (omega arith) u (ground arith)
  ]
]
