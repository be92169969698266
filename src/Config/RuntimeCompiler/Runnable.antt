-- ===== src/Config/RuntimeCompiler/Runnable.antt =====
-- What a complete profile that passed `validate_profile_definition` has (src/config/config_document.cpp):
-- the values that src/config/runtime_compiler.cpp reads without a test.
use cc_switch_trans.Common.{
  ◌≡◌, refl, ◌⊎◌, inl, inr, true, false, Option, none, some, [], ◌∷◌, Text, empty?, arith,
  Option-cases, String,
}
use cc_switch_trans.Core.Url.{PathError, PathResult, canonical, rejected, canonicalize_http_path}
use cc_switch_trans.Routing.{is_reserved}
use cc_switch_trans.Config.Document.{ConfigJson, ProfileDefinition}
use cc_switch_trans.Config.Document.Application.{◌>>◌}
use cc_switch_trans.Config.Document.Profiles.{
  ProfileError, validate_route_path, validate_base_url, check_field, is_some, complete_profile,
  validate_profile_definition,
}

-- A text that is there and passes a check.
pub record Passes (check : Text → Option ProfileError) (value : Option Text) : Type 0 where
  pub text : Text
  pub there : value ≡ some text
  pub fine : check text ≡ none

-- Neither of the two texts, or both with their checks passed.
pub data Paired (check check' : Text → Option ProfileError) (a b : Option Text) : Type 0 where
  neither : a ≡ none → b ≡ none → Paired check check' a b
  both : Passes check a → Passes check' b → Paired check check' a b

pub record IsRunnable {Json : Type 0} (p : ProfileDefinition Json) : Type 0 where
  pub protocol : Text
  pub protocol_set : p.protocol ≡ some protocol
  pub request : Passes (validate_route_path true) p.local.request_path
  pub base : Passes validate_base_url p.upstream.base_url
  pub target : Passes (validate_route_path false) p.upstream.request_path
  pub usage :
      Paired
        (validate_route_path true)
        (validate_route_path false)
        p.local.usage_path
        p.upstream.usage_path

>>-none : {E : Type 0} (a b : Option E) → (a >> b) ≡ none → (a ≡ none) × (b ≡ none)
>>-none none b h = (refl, h)
>>-none (some e) b h = cc h

check_field-Passes :
    (field : String) (check : Text → Option ProfileError) (value : Option Text)
    → check_field field check value ≡ none
    → is_some value ≡ true
    → Passes check value
unfolding check_field
check_field-Passes field check none h s = cc s
check_field-Passes field check (some text) h s = elim (Option-cases (check text)) [
  | inl n ↦ record { text = text; there = refl; fine = n }
  | inr (e, b) ↦ absurd (ground arith)
]

-- The values that `complete_profile` asks for.
record IsComplete {Json : Type 0} (p : ProfileDefinition Json) : Type 0 where
  protocol : is_some p.protocol ≡ true
  request : is_some p.local.request_path ≡ true
  base : is_some p.upstream.base_url ≡ true
  target : is_some p.upstream.request_path ≡ true
  paired : is_some p.local.usage_path ≡ is_some p.upstream.usage_path

complete_profile-IsComplete :
    {Json : Type 0} (p : ProfileDefinition Json) → complete_profile p ≡ none → IsComplete p
unfolding complete_profile
complete_profile-IsComplete p h = record {
  protocol = ground arith;
  request = ground arith;
  base = ground arith;
  target = ground arith;
  paired = ground arith;
}

is_some-value : (o : Option Text) → is_some o ≡ true → (x : Text) × (o ≡ some x)
is_some-value none h = cc h
is_some-value (some x) h = (x, refl)

-- The checks of the fields of a profile that was accepted.
record FieldsPass {Json : Type 0} (p : ProfileDefinition Json) : Type 0 where
  request : check_field "local.request-path" (validate_route_path true) p.local.request_path ≡ none
  local_usage : check_field "local.usage-path" (validate_route_path true) p.local.usage_path ≡ none
  base : check_field "upstream.base-url" validate_base_url p.upstream.base_url ≡ none
  target :
      check_field "upstream.request-path" (validate_route_path false) p.upstream.request_path ≡ none
  usage : check_field "upstream.usage-path" (validate_route_path false) p.upstream.usage_path ≡ none
  complete : complete_profile p ≡ none

validate-FieldsPass :
    (config : ConfigJson) (id : Text) (p : ProfileDefinition config.Json)
    → validate_profile_definition config id p true ≡ none
    → FieldsPass p
unfolding validate_profile_definition
validate-FieldsPass config id p h =
    let a = >>-none _ _ h in
    let b = >>-none _ _ a.1 in
    let c = >>-none _ _ b.1 in
    let d = >>-none _ _ c.1 in
    let e = >>-none _ _ d.1 in
    let f = >>-none _ _ e.1 in
    let g = >>-none _ _ f.1 in
    let i = >>-none _ _ g.1 in
    let j = >>-none _ _ i.1 in
    record {
      request = c.0;
      local_usage = d.0;
      base = e.0;
      target = f.0;
      usage = g.0;
      complete = j.1;
    }

usage-Paired :
    (a b : Option Text)
    → check_field "local.usage-path" (validate_route_path true) a ≡ none
    → check_field "upstream.usage-path" (validate_route_path false) b ≡ none
    → is_some a ≡ is_some b
    → Paired (validate_route_path true) (validate_route_path false) a b
usage-Paired none none h k e = neither refl refl
usage-Paired none (some y) h k e = cc e
usage-Paired (some x) none h k e = cc e
usage-Paired (some x) (some y) h k e =
    both (check_field-Passes "local.usage-path" (validate_route_path true) (some x) h refl)
      (check_field-Passes "upstream.usage-path" (validate_route_path false) (some y) k refl)

pub validate_profile_definition-IsRunnable :
    (config : ConfigJson) (id : Text) (p : ProfileDefinition config.Json)
    → validate_profile_definition config id p true ≡ none
    → IsRunnable p
validate_profile_definition-IsRunnable config id p h =
    let f = validate-FieldsPass config id p h in
    let c = complete_profile-IsComplete p f.complete in
    let (protocol, there) = is_some-value p.protocol c.protocol in
    record {
      protocol = protocol;
      protocol_set = there;
      request =
          check_field-Passes "local.request-path" (validate_route_path true) p.local.request_path
            f.request c.request;
      base =
          check_field-Passes "upstream.base-url" validate_base_url p.upstream.base_url f.base
            c.base;
      target =
          check_field-Passes "upstream.request-path" (validate_route_path false)
            p.upstream.request_path f.target c.target;
      usage = usage-Paired p.local.usage_path p.upstream.usage_path f.local_usage f.usage c.paired;
    }

pub canonical_or_rejected :
    (r : PathResult) → ((c : Text) × (r ≡ canonical c)) ⊎ ((e : PathError) × (r ≡ rejected e))
canonical_or_rejected (canonical c) = inl (c, refl)
canonical_or_rejected (rejected e) = inr (e, refl)

pub validate_route_path-canonical :
    (x : Text)
    → validate_route_path true x ≡ none
    → (c : Text) × (canonicalize_http_path x ≡ canonical c) × (is_reserved c ≡ false)
unfolding validate_route_path
validate_route_path-canonical x h = elim (canonical_or_rejected (canonicalize_http_path x)) [
  | inl (c, e) ↦ (c, e, ground arith)
  | inr (y, e) ↦ absurd (ground arith)
]

pub validate_route_path-nonempty :
    (x : Text) → validate_route_path false x ≡ none → empty? x ≡ false
unfolding validate_route_path canonicalize_http_path
validate_route_path-nonempty [] h = cc h
validate_route_path-nonempty (ch ∷ x) h = refl

pub validate_base_url-nonempty : (x : Text) → validate_base_url x ≡ none → empty? x ≡ false
unfolding validate_base_url
validate_base_url-nonempty [] h = cc h
validate_base_url-nonempty (ch ∷ x) h = refl
