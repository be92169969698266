-- ===== src/Config/Fields/Access.antt =====
-- What is written to a field of a profile is read again (src/config/field_descriptor.cpp).
use cc_switch_trans.Common.{
  ◌≡◌, refl, sym, subst, inl, inr, true, false, some, Text, codes, text_eq, text_eq_iff, arith,
  Bool-cases,
}
use cc_switch_trans.Config.Profile.{StoredProfile}
use cc_switch_trans.Config.Fields.{
  FieldDescriptor, profile, FieldValue, scope_eq, fine, write_profile_field, apply_profile_field,
  profile_value, read_profile_field,
}

-- An applied field has the scope of a profile and was written.
record WrittenField (p p' : StoredProfile) (d : FieldDescriptor) (value : FieldValue) : Type 0 where
  scope : scope_eq d.scope profile ≡ true
  written : write_profile_field p d.key value ≡ fine p'

apply-WrittenField :
    (p p' : StoredProfile) (d : FieldDescriptor) (value : FieldValue)
    → apply_profile_field p d value ≡ fine p'
    → WrittenField p p' d value
unfolding apply_profile_field
apply-WrittenField p p' d value h = record {
  scope = ground (arith, h);
  written = ground (arith, h);
}

own_value :
    (p p' : StoredProfile) (key : Text) (value : FieldValue)
    → write_profile_field p key value ≡ fine p'
    → profile_value p' key ≡ fine (some value)
unfolding write_profile_field profile_value
own_value p p' key value h = ground (arith, h)

-- Writing the field of a key leaves the values of the others.
abbrev KeepsOthers : Text → Type 0
KeepsOthers key =
    (p p' : StoredProfile) (value : FieldValue) (other : Text)
    → write_profile_field p key value ≡ fine p'
    → text_eq other key ≡ false
    → profile_value p' other ≡ profile_value p other

by_name :
    (key name : Text)
    → KeepsOthers name
    → (text_eq key name ≡ false → KeepsOthers key)
    → KeepsOthers key
by_name key name kept rest = elim (Bool-cases (text_eq key name)) [
  | inl y ↦ subst KeepsOthers (sym ((text_eq_iff key name).0 y)) kept
  | inr n ↦ rest n
]

id_kept : KeepsOthers (codes "id")
unfolding write_profile_field profile_value text_eq
id_kept p p' value other h e = ground (arith, h, e)

enabled_kept : KeepsOthers (codes "enabled")
unfolding write_profile_field profile_value text_eq
enabled_kept p p' value other h e = ground (arith, h, e)

protocol_kept : KeepsOthers (codes "protocol")
unfolding write_profile_field profile_value text_eq
protocol_kept p p' value other h e = ground (arith, h, e)

local_request_path_kept : KeepsOthers (codes "local.request-path")
unfolding write_profile_field profile_value text_eq
local_request_path_kept p p' value other h e = ground (arith, h, e)

local_usage_path_kept : KeepsOthers (codes "local.usage-path")
unfolding write_profile_field profile_value text_eq
local_usage_path_kept p p' value other h e = ground (arith, h, e)

upstream_base_url_kept : KeepsOthers (codes "upstream.base-url")
unfolding write_profile_field profile_value text_eq
upstream_base_url_kept p p' value other h e = ground (arith, h, e)

upstream_request_path_kept : KeepsOthers (codes "upstream.request-path")
unfolding write_profile_field profile_value text_eq
upstream_request_path_kept p p' value other h e = ground (arith, h, e)

upstream_usage_path_kept : KeepsOthers (codes "upstream.usage-path")
unfolding write_profile_field profile_value text_eq
upstream_usage_path_kept p p' value other h e = ground (arith, h, e)

write-KeepsOthers : (key : Text) → KeepsOthers key
unfolding write_profile_field
write-KeepsOthers key = by_name key (codes "id") id_kept (λ n0.
    by_name key (codes "enabled") enabled_kept (λ n1.
      by_name key (codes "protocol") protocol_kept (λ n2.
        by_name key (codes "local.request-path") local_request_path_kept (λ n3.
          by_name key (codes "local.usage-path") local_usage_path_kept (λ n4.
            by_name key (codes "upstream.base-url") upstream_base_url_kept (λ n5.
              by_name key (codes "upstream.request-path") upstream_request_path_kept (λ n6.
                by_name key (codes "upstream.usage-path") upstream_usage_path_kept (λ n7.
                  λ p p' value other h e.
                    absurd (ground (arith, h, n0, n1, n2, n3, n4, n5, n6, n7))))))))))

-- When a value is accepted for a field of a profile, reading the field gives that value back, and
-- every field of another key reads as before.
pub read-apply_profile_field :
    (p p' : StoredProfile) (d : FieldDescriptor) (value : FieldValue)
    → apply_profile_field p d value ≡ fine p'
    → (read_profile_field p' d ≡ fine (some value))
      × ((other : FieldDescriptor)
          → text_eq other.key d.key ≡ false
          → read_profile_field p' other ≡ read_profile_field p other)
unfolding read_profile_field
read-apply_profile_field p p' d value h =
    let a = apply-WrittenField p p' d value h in
    (
      rw a.scope (own_value p p' d.key value a.written),
      λ other e.
          let same = write-KeepsOthers d.key p p' value other.key a.written e in rw same refl,
    )
