-- ===== src/Config/Settings/Parsed.antt =====
-- A text that parses as the value of a field is accepted for it (src/config/field_descriptor.cpp).
use cc_switch_trans.Common.{
  ◌≡◌, subst, inl, inr, Bool, true, false, none, some, List, [], ◌∷◌, Text, codes, text_eq,
  text_eq_iff, arith, Bool-cases,
}
use cc_switch_trans.Config.Profile.{StoredProfile}
use cc_switch_trans.Config.Fields.{
  FieldDescriptor, FieldScope, application, profile, FieldValue, Checked, fine, wrong,
  validate_typed_value, number_error, boolean_error, text_error, enumeration_error, find_descriptor,
  write_profile_field, application_descriptors, profile_descriptors,
  find_configuration_field_descriptor, apply_profile_field, parse_configuration_field_value,
}
use cc_switch_trans.Config.Settings.{
  ApplicationSettings, write_application_field, apply_application_field,
}

abbrev accepted : {A : Type 0} → Checked A → Bool
accepted (fine a) = true
accepted (wrong e) = false

-- A valid value of the descriptor is accepted by the settings.
record Accepts (d : FieldDescriptor) : Type 0 where
  accepts :
      (s : ApplicationSettings) (value : FieldValue)
      → validate_typed_value d value ≡ none
      → accepted (apply_application_field s d value) ≡ true

record ProfileAccepts (d : FieldDescriptor) : Type 0 where
  accepts :
      text_eq d.key (codes "id") ≡ false
      → (p : StoredProfile) (value : FieldValue) → validate_typed_value d value ≡ none
      → accepted (apply_profile_field p d value) ≡ true

infixr 5 ◌also◌
data Each (P : FieldDescriptor → Type 0) : List FieldDescriptor → Type 0 where
  no_more : Each P []
  ◌also◌ : {d : FieldDescriptor} {ds : List FieldDescriptor} → P d → Each P ds → Each P (d ∷ ds)

-- One entry for each descriptor, in order.
application_descriptors-Accepts : Each Accepts application_descriptors
unfolding apply_application_field write_application_field validate_typed_value number_error
    boolean_error text_error enumeration_error text_eq
application_descriptors-Accepts =
    record { accepts = λ s v h. ground (arith, h) }
    also record { accepts = λ s v h. ground (arith, h) }
    also record { accepts = λ s v h. ground (arith, h) }
    also record { accepts = λ s v h. ground (arith, h) }
    also record { accepts = λ s v h. ground (arith, h) }
    also record { accepts = λ s v h. ground (arith, h) }
    also record { accepts = λ s v h. ground (arith, h) }
    also record { accepts = λ s v h. ground (arith, h) }
    also record { accepts = λ s v h. ground (arith, h) }
    also record { accepts = λ s v h. ground (arith, h) }
    also record { accepts = λ s v h. ground (arith, h) }
    also record { accepts = λ s v h. ground (arith, h) }
    also record { accepts = λ s v h. ground (arith, h) }
    also record { accepts = λ s v h. ground (arith, h) }
    also record { accepts = λ s v h. ground (arith, h) }
    also record { accepts = λ s v h. ground (arith, h) }
    also record { accepts = λ s v h. ground (arith, h) }
    also record { accepts = λ s v h. ground (arith, h) }
    also record { accepts = λ s v h. ground (arith, h) }
    also record { accepts = λ s v h. ground (arith, h) }
    also record { accepts = λ s v h. ground (arith, h) }
    also record { accepts = λ s v h. ground (arith, h) }
    also no_more

profile_descriptors-Accepts : Each ProfileAccepts profile_descriptors
unfolding apply_profile_field write_profile_field validate_typed_value number_error boolean_error
    text_error enumeration_error text_eq
profile_descriptors-Accepts =
    record { accepts = λ id p v h. ground (arith, id, h) }
    also record { accepts = λ id p v h. ground (arith, id, h) }
    also record { accepts = λ id p v h. ground (arith, id, h) }
    also record { accepts = λ id p v h. ground (arith, id, h) }
    also record { accepts = λ id p v h. ground (arith, id, h) }
    also record { accepts = λ id p v h. ground (arith, id, h) }
    also record { accepts = λ id p v h. ground (arith, id, h) }
    also record { accepts = λ id p v h. ground (arith, id, h) }
    also no_more

record Found (P : FieldDescriptor → Type 0) (key : Text) (d : FieldDescriptor) : Type 0 where
  holds : P d
  named : d.key ≡ key

find_descriptor-Found :
    (P : FieldDescriptor → Type 0) (ds : List FieldDescriptor) (key : Text) (d : FieldDescriptor)
    → Each P ds
    → find_descriptor key ds ≡ some d
    → Found P key d
unfolding find_descriptor
find_descriptor-Found P [] key d each h = cc h
find_descriptor-Found P (x ∷ ds) key d (here also there) h = elim (Bool-cases (text_eq x.key key)) [
  | inl y ↦
      let same : x ≡ d = ground (arith, h, y) in
      subst (Found P key) same (record { holds = here; named = (text_eq_iff x.key key).0 y })
  | inr n ↦ find_descriptor-Found P ds key d there (ground (arith, h, n))
]

parse-validates :
    (d : FieldDescriptor) (raw : Text) (value : FieldValue)
    → parse_configuration_field_value d raw ≡ fine value
    → validate_typed_value d value ≡ none
unfolding parse_configuration_field_value
parse-validates d raw value h = ground (arith, h)

-- Whether the value is accepted for the field, by the part of the configuration that has it.
abbrev pub applied :
    FieldScope → ApplicationSettings → StoredProfile → FieldDescriptor → FieldValue → Bool
applied application s p d value = accepted (apply_application_field s d value)
applied profile s p d value = accepted (apply_profile_field p d value)

-- A text that parses as the value of a field, of the settings or of a profile, is accepted for that
-- field, whatever is written already: neither is the value refused, nor has it another type than the
-- field. The `id` of a profile, which has a check of its own, is excepted.
pub parse-applied :
    (scope : FieldScope) (key raw : Text) (d : FieldDescriptor) (value : FieldValue)
    (s : ApplicationSettings) (p : StoredProfile)
    → text_eq key (codes "id") ≡ false
    → find_configuration_field_descriptor scope key ≡ some d
    → parse_configuration_field_value d raw ≡ fine value
    → applied scope s p d value ≡ true
unfolding find_configuration_field_descriptor
parse-applied application key raw d value s p id f h =
    let found =
      find_descriptor-Found Accepts application_descriptors key d application_descriptors-Accepts
        f in
    found.holds.accepts s value (parse-validates d raw value h)
parse-applied profile key raw d value s p id f h =
    let found =
      find_descriptor-Found ProfileAccepts profile_descriptors key d profile_descriptors-Accepts
        f in
    found.holds.accepts (rw found.named id) p value (parse-validates d raw value h)
