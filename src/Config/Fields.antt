-- ===== src/Config/Fields.antt =====
-- The fields of a configuration (src/config/field_descriptor.cpp): the check of a value
-- and the fields of a profile.
mod Descriptors
pub mod Access
unfoldable pub use Descriptors.*
use cc_switch_trans.Common.{
  ℕ, ◌*◌, ◌-◌, ◌^◌, Bool, true, false, not, ◌&&◌, ◌||◌, Option, none, some, List, [], ◌∷◌, String,
  Text, codes, text_eq, ltb, any, empty?, if◌then◌else◌,
}
use cc_switch_trans.Core.UpstreamUrl.{digits_value}
use cc_switch_trans.Config.Profile.{StoredProfile, is_valid_profile_id}

-- std::variant<std::string, std::uint64_t, bool>
pub data FieldValue : Type 0 where
  string : Text → FieldValue
  number : ℕ → FieldValue
  truth : Bool → FieldValue

-- The texts of `error`; `bad_variant_access` is the exception of std::get.
pub data FieldError : Type 0 where
  wrong_scope requires_unsigned below_minimum above_maximum requires_boolean : FieldError
  requires_text unsupported_value invalid_profile_id unsupported_field : FieldError
  field_not_set id_cannot_be_unset bad_variant_access not_an_integer not_a_truth : FieldError

pub data Checked (A : Type 0) : Type 0 where
  fine : A → Checked A
  wrong : FieldError → Checked A

-- Whether a descriptor has this scope.
abbrev pub scope_eq : FieldScope → FieldScope → Bool
scope_eq application application = true
scope_eq profile profile = true
scope_eq application profile = false
scope_eq profile application = false

-- A limit that a descriptor has, `number < *minimum` and `number > *maximum`.
abbrev under_minimum : Option ℕ → ℕ → Bool
under_minimum none n = false
under_minimum (some m) n = ltb n m

abbrev over_maximum : Option ℕ → ℕ → Bool
over_maximum none n = false
over_maximum (some m) n = ltb m n

-- `none` when the value is valid.
unfoldable pub number_error : FieldDescriptor → FieldValue → Option FieldError
number_error d (number n) =
    if under_minimum d.minimum n
    then some below_minimum
    else if over_maximum d.maximum n
    then some above_maximum
    else none
number_error d _ = some requires_unsigned

unfoldable pub boolean_error : FieldValue → Option FieldError
boolean_error (truth b) = none
boolean_error _ = some requires_boolean

unfoldable pub text_error : FieldValue → Option FieldError
text_error (string t) = none
text_error _ = some requires_text

unfoldable pub enumeration_error : FieldDescriptor → FieldValue → Option FieldError
enumeration_error d (string t) =
    if any (λ (v : Text). text_eq v t) d.enum_values then none else some unsupported_value
enumeration_error d _ = some requires_text

unfoldable pub validate_typed_value : FieldDescriptor → FieldValue → Option FieldError
validate_typed_value d value = elim d.input_kind [
  | unsigned_integer ↦ number_error d value
  | boolean ↦ boolean_error value
  | enumeration ↦ enumeration_error d value
  | _ ↦ text_error value
]

-- std::get<std::string>(value), and what is done with it.
abbrev with_text : FieldValue → (Text → Checked StoredProfile) → Checked StoredProfile
with_text (string t) f = f t
with_text _ f = wrong bad_variant_access

abbrev with_truth : FieldValue → (Bool → Checked StoredProfile) → Checked StoredProfile
with_truth (truth b) f = f b
with_truth _ f = wrong bad_variant_access

unfoldable pub write_profile_field : StoredProfile → Text → FieldValue → Checked StoredProfile
write_profile_field p key value =
    if text_eq key (codes "id")
    then with_text value (λ id.
      if not (is_valid_profile_id id)
      then wrong invalid_profile_id
      else fine (record p { profile_id = id }))
    else if text_eq key (codes "enabled")
    then with_truth value (λ b. fine (record p { enabled = b }))
    else if text_eq key (codes "protocol")
    then with_text value (λ t. fine (record p { protocol = some t }))
    else if text_eq key (codes "local.request-path")
    then with_text value (λ t. fine (record p { local_request_path = some t }))
    else if text_eq key (codes "local.usage-path")
    then with_text value (λ t. fine (record p { local_usage_path = some t }))
    else if text_eq key (codes "upstream.base-url")
    then with_text value (λ t. fine (record p { upstream_base_url = some t }))
    else if text_eq key (codes "upstream.request-path")
    then with_text value (λ t. fine (record p { upstream_request_path = some t }))
    else if text_eq key (codes "upstream.usage-path")
    then with_text value (λ t. fine (record p { upstream_usage_path = some t }))
    else wrong unsupported_field

unfoldable pub apply_profile_field :
    StoredProfile → FieldDescriptor → FieldValue → Checked StoredProfile
apply_profile_field p d value =
    if not (scope_eq d.scope profile)
    then wrong wrong_scope
    else elim (validate_typed_value d value) [
      | some e ↦ wrong e
      | none ↦ write_profile_field p d.key value
    ]

abbrev pub is_set : Option Text → Bool
is_set none = false
is_set (some t) = true

unfoldable pub clear_profile_field : StoredProfile → Text → Checked StoredProfile
clear_profile_field p key =
    if text_eq key (codes "enabled")
    then fine (record p { enabled = false })
    else if text_eq key (codes "protocol") && is_set p.protocol
    then fine (record p { protocol = none })
    else if text_eq key (codes "local.request-path") && is_set p.local_request_path
    then fine (record p { local_request_path = none })
    else if text_eq key (codes "local.usage-path") && is_set p.local_usage_path
    then fine (record p { local_usage_path = none })
    else if text_eq key (codes "upstream.base-url") && is_set p.upstream_base_url
    then fine (record p { upstream_base_url = none })
    else if text_eq key (codes "upstream.request-path") && is_set p.upstream_request_path
    then fine (record p { upstream_request_path = none })
    else if text_eq key (codes "upstream.usage-path") && is_set p.upstream_usage_path
    then fine (record p { upstream_usage_path = none })
    else if not (text_eq key (codes "id"))
    then wrong field_not_set
    else wrong id_cannot_be_unset

unfoldable pub reset_profile_field : StoredProfile → FieldDescriptor → Checked StoredProfile
reset_profile_field p d =
    if not (scope_eq d.scope profile) then wrong wrong_scope else clear_profile_field p d.key

abbrev optional_text : Option Text → Option FieldValue
optional_text none = none
optional_text (some t) = some (string t)

-- What `read_profile_field` puts into `value`, by the key.
unfoldable pub profile_value : StoredProfile → Text → Checked (Option FieldValue)
profile_value p key =
    if text_eq key (codes "id")
    then fine (some (string p.profile_id))
    else if text_eq key (codes "enabled")
    then fine (some (truth p.enabled))
    else if text_eq key (codes "protocol")
    then fine (optional_text p.protocol)
    else if text_eq key (codes "local.request-path")
    then fine (optional_text p.local_request_path)
    else if text_eq key (codes "local.usage-path")
    then fine (optional_text p.local_usage_path)
    else if text_eq key (codes "upstream.base-url")
    then fine (optional_text p.upstream_base_url)
    else if text_eq key (codes "upstream.request-path")
    then fine (optional_text p.upstream_request_path)
    else if text_eq key (codes "upstream.usage-path")
    then fine (optional_text p.upstream_usage_path)
    else wrong unsupported_field

unfoldable pub read_profile_field : StoredProfile → FieldDescriptor → Checked (Option FieldValue)
read_profile_field p d =
    if not (scope_eq d.scope profile) then wrong wrong_scope else profile_value p d.key

-- std::from_chars over the whole text, into a 64-bit number; `none` where it fails or stops early.
unfoldable pub unsigned_value : Text → Option ℕ
unsigned_value raw = if empty? raw then none else elim (digits_value 0 raw) [
  | none ↦ none
  | some n ↦ if ltb (2 ^ 64 - 1) n then none else some n
]

unfoldable pub raw_value : FieldDescriptor → Text → Checked FieldValue
raw_value d raw = elim d.input_kind [
  | unsigned_integer ↦ elim (unsigned_value raw) [
    | none ↦ wrong not_an_integer
    | some n ↦ fine (number n)
  ]
  | boolean ↦
      if text_eq raw (codes "true")
      then fine (truth true)
      else if text_eq raw (codes "false")
      then fine (truth false)
      else wrong not_a_truth
  | _ ↦ fine (string raw)
]

abbrev pub validated : FieldDescriptor → Checked FieldValue → Checked FieldValue
validated d (wrong e) = wrong e
validated d (fine value) = elim (validate_typed_value d value) [
  | some e ↦ wrong e
  | none ↦ fine value
]

unfoldable pub parse_configuration_field_value : FieldDescriptor → Text → Checked FieldValue
parse_configuration_field_value d raw = validated d (raw_value d raw)
