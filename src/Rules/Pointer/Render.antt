-- ===== src/Rules/Pointer/Render.antt =====
-- JSON Pointers as RFC 6901 writes them, against the parser of src/rules/generic_json_rules.cpp.
use cc_switch_trans.Common.{
  ℕ, ◌≤◌, ◌≡◌, ◌≢◌, ◌↔◌, refl, sym, ap, subst, ◌∙◌, ◌⊎◌, inl, inr, Option, none, some, List, [],
  ◌∷◌, ◌++◌, map, Text, length, ◌==◌, if◌then◌else◌, arith, Bool-cases, ==_iff, Option-cases,
}
use cc_switch_trans.Core.Url.{split_on}
use cc_switch_trans.Rules.Pointer.{
  PointerResult, pointer, rejected, decode_pointer_token, put_before, decode_tokens, with_target,
  parse_json_pointer,
}
use cc_switch_trans.Rules.Pointer.Pieces.{
  rejoin, Free, AllFree, rejoin-split_on, split_on-AllFree, split_on-rejoin,
}

-- "~" and "/" are written "~0" and "~1".
abbrev encode_token : Text → Text
encode_token [] = []
encode_token (ch ∷ rest) =
    let behind = encode_token rest in
    if ch == b'~'
    then b'~' ∷ b'0' ∷ behind
    else if ch == b'/'
    then b'~' ∷ b'1' ∷ behind
    else ch ∷ behind

-- Each token behind a slash.
abbrev pub render : List Text → Text
render [] = []
render (t ∷ ts) = b'/' ∷ (encode_token t ++ render ts)

-- What the parser finds, if it accepts.
abbrev pub tokens_of : PointerResult → Option (List Text)
tokens_of (pointer p) = some p.tokens
tokens_of (rejected e) = none

decode_plain :
    (ch : ℕ) (s : Text)
    → ch ≢ b'~'
    → decode_pointer_token (ch ∷ s) ≡ put_before ch (decode_pointer_token s)
unfolding decode_pointer_token
decode_plain ch [] h = ground (arith, h)
decode_plain ch (d ∷ s) h = ground (arith, h)

decode_escape :
    (d : ℕ) (s : Text)
    → decode_pointer_token (b'~' ∷ d ∷ s) ≡ (
        if d == b'0'
        then put_before b'~' (decode_pointer_token s)
        else if d == b'1'
        then put_before b'/' (decode_pointer_token s)
        else none)
unfolding decode_pointer_token
decode_escape d s = ground arith

decode-encode : (t : Text) → decode_pointer_token (encode_token t) ≡ some t
decode-encode [] = unfold decode_pointer_token in refl
decode-encode (ch ∷ rest) = ground (
  arith,
  decode-encode rest,
  decode_plain ch (encode_token rest),
  decode_escape b'0' (encode_token rest),
  decode_escape b'1' (encode_token rest),
)

encode-Free : (t : Text) → Free b'/' (encode_token t)
encode-Free [] = tt
encode-Free (ch ∷ rest) = ground (arith, encode-Free rest)

put_before-cases :
    (ch : ℕ) (o : Option Text) (t : Text)
    → put_before ch o ≡ some t
    → (s : Text) × (o ≡ some s) × (t ≡ ch ∷ s)
put_before-cases ch none t h = absurd (cc h)
put_before-cases ch (some s) t h = (s, refl, cc h)

escape-cases :
    (d : ℕ) (s t : Text)
    → decode_pointer_token (b'~' ∷ d ∷ s) ≡ some t
    → (u : Text) × (decode_pointer_token s ≡ some u)
      × (((d ≡ b'0') × (t ≡ b'~' ∷ u)) ⊎ ((d ≡ b'1') × (t ≡ b'/' ∷ u)))
escape-cases d s t h = elim (Option-cases (decode_pointer_token s)) [
  | inl n ↦ absurd (ground (arith, decode_escape d s, h, n))
  | inr (u, o) ↦ (u, o, ground (arith, decode_escape d s, h, o))
]

-- What is decoded was written that way.
encode-decode : (e t : Text) → Free b'/' e → decode_pointer_token e ≡ some t → e ≡ encode_token t
encode-decode [] t f h = unfold decode_pointer_token in ground (arith, h)
encode-decode (c ∷ []) t f h = unfold decode_pointer_token in ground (arith, h, f)
encode-decode (c ∷ d ∷ e) t f h = elim (Bool-cases (c == b'~')) [
  | inl y ↦
      (let e0 : c ≡ b'~' = ground (arith, y) in
        let (u, o, k) =
          escape-cases d e t (subst (λ (x : ℕ). decode_pointer_token (x ∷ d ∷ e) ≡ some t) e0 h) in
        let rest = encode-decode e u f.1.1 o in
        elim k [
          | inl (q, r) ↦ ground (arith, e0, q, r, rest)
          | inr (q, r) ↦ ground (arith, e0, q, r, rest)
        ])
  | inr n ↦
      (let (s, o, q) =
          put_before-cases c (decode_pointer_token (d ∷ e)) t
            (sym (decode_plain c (d ∷ e) (ground (arith, n))) ∙ h) in
        let rest = encode-decode (d ∷ e) s f.1 o in ground (arith, n, q, rest, f))
]

-- All tokens of a pointer.
decode_tokens-encode : (ts : List Text) → decode_tokens (map encode_token ts) ≡ some ts
unfolding decode_tokens
decode_tokens-encode [] = refl
decode_tokens-encode (t ∷ ts) = ground (arith, decode-encode t, decode_tokens-encode ts)

rejoin-encode : (ts : List Text) → rejoin b'/' (map encode_token ts) ≡ render ts
rejoin-encode [] = refl
rejoin-encode (t ∷ ts) = ap (λ (r : Text). b'/' ∷ (encode_token t ++ r)) (rejoin-encode ts)

encode-AllFree : (ts : List Text) → AllFree b'/' (map encode_token ts)
encode-AllFree [] = tt
encode-AllFree (t ∷ ts) = (encode-Free t, encode-AllFree ts)

encode-decode_tokens :
    (ps ts : List Text) → AllFree b'/' ps → decode_tokens ps ≡ some ts → ps ≡ map encode_token ts
unfolding decode_tokens
encode-decode_tokens [] ts f h = ground (arith, h)
encode-decode_tokens (p ∷ ps) ts (f, fs) h = elim (Option-cases (decode_pointer_token p)) [
  | inl n ↦ absurd (ground (arith, h, n))
  | inr (t, o) ↦ elim (Option-cases (decode_tokens ps)) [
    | inl n ↦ absurd (ground (arith, h, n, o))
    | inr (us, q) ↦ ground (arith, h, o, q, encode-decode p t f o, encode-decode_tokens ps us fs q)
  ]
]

tokens-with_target : (source : Text) (o : Option (List Text)) → tokens_of (with_target source o) ≡ o
tokens-with_target source none = refl
tokens-with_target source (some ts) = refl

parse-slash :
    (rest : Text) (ts : List Text)
    → (tokens_of (parse_json_pointer (b'/' ∷ rest)) ≡ some ts)
      ↔ ((decode_tokens (split_on b'/' rest) ≡ some ts) × (length (b'/' ∷ rest) ≤ 4096))
unfolding parse_json_pointer
parse-slash rest ts =
    ground (arith, tokens-with_target (b'/' ∷ rest) (decode_tokens (split_on b'/' rest)))

parse-other : (c : ℕ) (rest ts : Text) → c ≢ b'/' → tokens_of (parse_json_pointer (c ∷ rest)) ≡ none
unfolding parse_json_pointer
parse-other c rest ts h = ground (arith, h)

decode_split_iff :
    (rest : Text) (ts : List Text)
    → (decode_tokens (split_on b'/' rest) ≡ some ts) ↔ (b'/' ∷ rest ≡ render ts)
decode_split_iff rest ts = (there ts, back ts)
  where
    there :
        (ts : List Text) → decode_tokens (split_on b'/' rest) ≡ some ts → b'/' ∷ rest ≡ render ts
    there ts h =
        sym (rejoin-split_on b'/' rest)
        ∙ ap (rejoin b'/')
            (encode-decode_tokens (split_on b'/' rest) ts (split_on-AllFree b'/' rest) h)
        ∙ rejoin-encode ts

    back : (ts : List Text) → b'/' ∷ rest ≡ render ts → decode_tokens (split_on b'/' rest) ≡ some ts
    back [] h = absurd (cc h)
    back (t ∷ us) h =
        let e : rest ≡ encode_token t ++ rejoin b'/' (map encode_token us) =
          (let k : rest ≡ encode_token t ++ render us = cc h in
            k ∙ ap (λ (r : Text). encode_token t ++ r) (sym (rejoin-encode us))) in
        ap decode_tokens (
          ap (split_on b'/') e
          ∙ split_on-rejoin b'/' (encode_token t) (map encode_token us) (encode-Free t)
              (encode-AllFree us))
        ∙ decode_tokens-encode (t ∷ us)

-- A pointer has the tokens `ts` exactly if it is `ts` as RFC 6901 writes them and has at most 4096
-- bytes; every other text is refused. So two texts never name the same tokens.
pub parse_json_pointer_iff :
    (source : Text) (ts : List Text)
    → (tokens_of (parse_json_pointer source) ≡ some ts)
      ↔ ((source ≡ render ts) × (length source ≤ 4096))
parse_json_pointer_iff [] [] = unfold parse_json_pointer in ground arith
parse_json_pointer_iff [] (t ∷ ts) = unfold parse_json_pointer in ground arith
parse_json_pointer_iff (c ∷ rest) ts = elim (Bool-cases (c == b'/')) [
  | inl y ↦
      subst
        (λ (x : ℕ).
          (tokens_of (parse_json_pointer (x ∷ rest)) ≡ some ts)
          ↔ ((x ∷ rest ≡ render ts) × (length (x ∷ rest) ≤ 4096)))
        (sym ((==_iff c b'/').0 y)) (both (parse-slash rest ts) (decode_split_iff rest ts))
  | inr n ↦ (
    λ h. absurd (cc (h, parse-other c rest [] (ground (arith, n)))),
    λ (e, _). absurd (other ts (ground (arith, n)) e),
  )
]
  where
    both : {A B C D : Type 0} → A ↔ (B × C) → B ↔ D → A ↔ (D × C)
    both f g = (λ a. (g.0 (f.0 a).0, (f.0 a).1), λ (d, c). f.1 (g.1 d, c))

    other : (us : List Text) → c ≢ b'/' → c ∷ rest ≡ render us → ⊥
    other [] n h = cc h
    other (u ∷ us) n h = n (cc h)
