-- ===== src/Config/Settings/Access.antt =====
-- What is written to an application setting is read again (src/config/field_descriptor.cpp).
use cc_switch_trans.Common.{
  ◌≡◌, subst, inl, inr, false, some, List, [], ◌∷◌, Text, codes, text_eq, arith, Bool-cases,
}
use cc_switch_trans.Config.Fields.{
  FieldDescriptor, logging_level, application, FieldValue, fine, validate_typed_value, number_error,
  boolean_error, text_error, enumeration_error, find_descriptor, application_descriptors,
  find_configuration_field_descriptor,
}
use cc_switch_trans.Config.Settings.{
  ApplicationSettings, write_application_field, apply_application_field, field_value,
  read_application_field,
}

record Reads (d : FieldDescriptor) : Type 0 where
  pub reads :
      (s s' : ApplicationSettings) (value : FieldValue)
      → apply_application_field s d value ≡ fine s'
      → (read_application_field s' d ≡ fine value)
        × ((key : Text) → text_eq key d.key ≡ false → field_value s' key ≡ field_value s key)

infixr 5 ◌also◌
data AllRead : List FieldDescriptor → Type 0 where
  all_read : AllRead []
  ◌also◌ :
      {d : FieldDescriptor} {ds : List FieldDescriptor} → Reads d → AllRead ds → AllRead (d ∷ ds)

-- What was accepted was written.
written :
    (s s' : ApplicationSettings) (d : FieldDescriptor) (value : FieldValue)
    → apply_application_field s d value ≡ fine s'
    → write_application_field s d.key value ≡ fine s'
unfolding apply_application_field
written s s' d value h = ground (arith, h)

level_read :
    (s s' : ApplicationSettings) (value : FieldValue)
    → write_application_field s (codes "logging.level") value ≡ fine s'
    → (field_value s' (codes "logging.level") ≡ fine value)
      × ((key : Text)
          → text_eq key (codes "logging.level") ≡ false
          → field_value s' key ≡ field_value s key)
unfolding write_application_field field_value text_eq
level_read s s' value h = (ground (arith, h), λ key e. ground (arith, h, e))

-- One entry for each descriptor, in order.
application_descriptors-AllRead : AllRead application_descriptors
unfolding apply_application_field read_application_field write_application_field field_value
    validate_typed_value number_error boolean_error text_error enumeration_error text_eq
application_descriptors-AllRead =
    record { reads = λ s s' v h. (ground (arith, h), λ key e. ground (arith, h, e)) }
    also record { reads = λ s s' v h. (ground (arith, h), λ key e. ground (arith, h, e)) }
    also record { reads = λ s s' v h. (ground (arith, h), λ key e. ground (arith, h, e)) }
    also record { reads = λ s s' v h. (ground (arith, h), λ key e. ground (arith, h, e)) }
    also record { reads = λ s s' v h. (ground (arith, h), λ key e. ground (arith, h, e)) }
    also record { reads = λ s s' v h. (ground (arith, h), λ key e. ground (arith, h, e)) }
    also record { reads = λ s s' v h. (ground (arith, h), λ key e. ground (arith, h, e)) }
    also record { reads = λ s s' v h. (ground (arith, h), λ key e. ground (arith, h, e)) }
    also record { reads = λ s s' v h. (ground (arith, h), λ key e. ground (arith, h, e)) }
    also record { reads = λ s s' v h. (ground (arith, h), λ key e. ground (arith, h, e)) }
    also record { reads = λ s s' v h. (ground (arith, h), λ key e. ground (arith, h, e)) }
    also record { reads = λ s s' v h. (ground (arith, h), λ key e. ground (arith, h, e)) }
    also record { reads = λ s s' v h. (ground (arith, h), λ key e. ground (arith, h, e)) }
    also record { reads = λ s s' v h. (ground (arith, h), λ key e. ground (arith, h, e)) }
    also record { reads = λ s s' v h. (ground (arith, h), λ key e. ground (arith, h, e)) }
    also record { reads = λ s s' v h. level_read s s' v (written s s' logging_level v h) }
    also record { reads = λ s s' v h. (ground (arith, h), λ key e. ground (arith, h, e)) }
    also record { reads = λ s s' v h. (ground (arith, h), λ key e. ground (arith, h, e)) }
    also record { reads = λ s s' v h. (ground (arith, h), λ key e. ground (arith, h, e)) }
    also record { reads = λ s s' v h. (ground (arith, h), λ key e. ground (arith, h, e)) }
    also record { reads = λ s s' v h. (ground (arith, h), λ key e. ground (arith, h, e)) }
    also record { reads = λ s s' v h. (ground (arith, h), λ key e. ground (arith, h, e)) }
    also all_read

find_descriptor-Reads :
    (ds : List FieldDescriptor) (key : Text) (d : FieldDescriptor)
    → AllRead ds
    → find_descriptor key ds ≡ some d
    → Reads d
unfolding find_descriptor
find_descriptor-Reads [] key d all_read h = cc h
find_descriptor-Reads (x ∷ ds) key d (here also there) h = elim (Bool-cases (text_eq x.key key)) [
  | inl y ↦ subst Reads (ground (arith, h, y)) here
  | inr n ↦ find_descriptor-Reads ds key d there (ground (arith, h, n))
]

-- For every application field: when a value is accepted for it, reading the field gives the value
-- back, so no conversion to the type of the setting loses anything, and every other field reads as
-- before.
pub apply_application_field-read :
    (key : Text) (d : FieldDescriptor) (s s' : ApplicationSettings) (value : FieldValue)
    → find_configuration_field_descriptor application key ≡ some d
    → apply_application_field s d value ≡ fine s'
    → (read_application_field s' d ≡ fine value)
      × ((other : Text) → text_eq other d.key ≡ false → field_value s' other ≡ field_value s other)
unfolding find_configuration_field_descriptor
apply_application_field-read key d s s' value f h =
    let found =
      find_descriptor-Reads application_descriptors key d application_descriptors-AllRead f in
    found.reads s s' value h
