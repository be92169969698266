-- ===== src/Protocols/Registry.antt =====
-- What the protocol registry of src/protocols/protocol_registry.cpp holds, however it was filled.
use cc_switch_trans.Common.{
  ◌≡◌, refl, inl, inr, true, Option, none, some, List, [], ◌∷◌, Text, text_eq, text_eq_iff,
  find_key, if◌then◌else◌, arith, Bool-cases, Option-cases,
}
use cc_switch_trans.Routing.{valid_method}
use cc_switch_trans.Protocols.{
  ProtocolHandler, ProtocolRegistry, Registered, registered, refused, empty_registry,
  local_rules_error, find_handler, register_known, register_handler,
}
use cc_switch_trans.Config.Document.Profiles.{is_valid_protocol_id}

-- What is known of a handler that is found by an id.
pub record IsRegistered (id : Text) (h : ProtocolHandler) : Type 0 where
  pub own_id : h.descriptor.id ≡ id
  pub valid_id : is_valid_protocol_id id ≡ true
  pub request_ok : valid_method h.descriptor.request_method ≡ true
  pub usage_ok : h.descriptor.supports_usage ≡ true → valid_method h.descriptor.usage_method ≡ true

pub record IsSound (r : ProtocolRegistry) : Type 0 where
  pub each : (id : Text) (h : ProtocolHandler) → find_handler r id ≡ some h → IsRegistered id h

-- What a registration that succeeds has checked, and what it changes.
record Registers (r r' : ProtocolRegistry) (h : ProtocolHandler) : Type 0 where
  is_registered : IsRegistered h.descriptor.id h
  placed :
      (id : Text)
      → find_handler r' id ≡ (if text_eq h.descriptor.id id then some h else find_handler r id)

register_known-Registers :
    (r r' : ProtocolRegistry) (h : ProtocolHandler)
    → register_known r h ≡ registered r'
    → Registers r r' h
unfolding register_known find_handler find_key
register_known-Registers r r' h e =
    elim (Option-cases (local_rules_error [] h.descriptor.specialized_rule_types)) [
      | inr (x, a) ↦ absurd (ground arith)
      | inl a ↦ elim (Option-cases (find_key h.descriptor.id r.handlers)) [
        | inr (x, b) ↦ absurd (ground arith)
        | inl b ↦ record {
          is_registered = record {
            own_id = refl;
            valid_id = ground arith;
            request_ok = ground arith;
            usage_ok = λ s. ground (arith, s);
          };
          placed = λ id. ground arith;
        }
      ]
    ]

Registers-IsSound :
    (r r' : ProtocolRegistry) (h : ProtocolHandler) → Registers r r' h → IsSound r → IsSound r'
Registers-IsSound r r' h g v = record {
  each = λ id k f. elim (Bool-cases (text_eq h.descriptor.id id)) [
    | inl y ↦
        let same : h.descriptor.id ≡ id = (text_eq_iff h.descriptor.id id).0 y in
        let own : h ≡ k = ground (arith, g.placed id) in
        record {
          own_id = ground (arith, own);
          valid_id = ground (arith, same, g.is_registered.valid_id);
          request_ok = ground (arith, own, g.is_registered.request_ok);
          usage_ok = λ s. ground (arith, own, s, g.is_registered.usage_ok);
        }
    | inr n ↦ v.each id k (ground (arith, g.placed id))
  ];
}

abbrev after : ProtocolRegistry → Registered → ProtocolRegistry
after r (registered r') = r'
after r (refused e) = r

-- The registry once all of these were offered to it; a refused one changes nothing.
unfoldable pub register_all : ProtocolRegistry → List (Option ProtocolHandler) → ProtocolRegistry
register_all r [] = r
register_all r (h ∷ hs) = register_all (after r (register_handler r h)) hs

after-IsSound :
    (r : ProtocolRegistry) (h : Option ProtocolHandler) (result : Registered)
    → register_handler r h ≡ result
    → IsSound r
    → IsSound (after r result)
unfolding register_handler
after-IsSound r none (registered r') e v = cc e
after-IsSound r (some h) (registered r') e v =
    Registers-IsSound r r' h (register_known-Registers r r' h e) v
after-IsSound r h (refused x) e v = v

register_all-IsSound :
    (r : ProtocolRegistry) (hs : List (Option ProtocolHandler))
    → IsSound r
    → IsSound (register_all r hs)
unfolding register_all
register_all-IsSound r [] v = v
register_all-IsSound r (h ∷ hs) v =
    register_all-IsSound (after r (register_handler r h)) hs
      (after-IsSound r h (register_handler r h) refl v)

empty-IsSound : IsSound empty_registry
unfolding find_handler find_key
empty-IsSound = record { each = λ id h e. cc e }

-- Whatever handlers are offered to a new registry, null ones included: a handler that it finds by an
-- id has this id, a valid one, and a valid request method, and a valid usage method if it supports
-- usage.
pub register_handler-IsSound :
    (hs : List (Option ProtocolHandler)) → IsSound (register_all empty_registry hs)
register_handler-IsSound hs = register_all-IsSound empty_registry hs empty-IsSound
