-- ===== src/Config/Profile.antt =====
-- The stored profiles of src/config/profile_model.hpp and the identifiers of
-- src/config/config_document.cpp, with `isalnum` as in the "C" locale.
use cc_switch_trans.Common.{
  ℕ, Bool, true, false, not, ◌&&◌, ◌||◌, Option, List, [], ◌∷◌, Text, codes, text_eq, ℤ, ltb, leb,
  ◌==◌, length, all, any, if◌then◌else◌,
}

-- Keys are `std::int64_t`; that they do not run out is taken for granted.
pub record StoredRule : Type 0 where
  pub key : ℤ
  pub rule_id : Text
  pub enabled : Bool
  pub type : Text
  pub options_json : Text

pub record StoredProfile : Type 0 where
  pub key : ℤ
  pub profile_id : Text
  pub enabled : Bool
  pub protocol : Option Text
  pub local_request_path : Option Text
  pub local_usage_path : Option Text
  pub upstream_base_url : Option Text
  pub upstream_request_path : Option Text
  pub upstream_usage_path : Option Text
  pub rules : List StoredRule

is_lower : ℕ → Bool
is_lower ch = leb b'a' ch && leb ch b'z'

is_digit : ℕ → Bool
is_digit ch = leb b'0' ch && leb ch b'9'

is_alnum : ℕ → Bool
unfolding is_lower is_digit
is_alnum ch = is_lower ch || is_digit ch || (leb b'A' ch && leb ch b'Z')

is_stable_byte : Bool → Bool → ℕ → Bool
unfolding is_lower is_digit is_alnum
is_stable_byte lower_case_only allow_dot ch =
    if lower_case_only
    then is_lower ch || is_digit ch || (ch == b'-') || (ch == b'_')
    else is_alnum ch || (ch == b'-') || (ch == b'_') || (allow_dot && (ch == b'.'))

unfoldable pub valid_stable_id : Text → Bool → Bool → Bool
unfolding is_lower is_digit is_alnum is_stable_byte
valid_stable_id [] lower_case_only allow_dot = false
valid_stable_id (first ∷ rest) lower_case_only allow_dot =
    if ltb 64 (length (first ∷ rest))
    then false
    else if not (if lower_case_only then is_lower first else is_alnum first)
    then false
    else all (is_stable_byte lower_case_only allow_dot) (first ∷ rest)

unfoldable pub is_valid_profile_id : Text → Bool
is_valid_profile_id value = valid_stable_id value false true

unfoldable pub is_valid_rule_id : Text → Bool
is_valid_rule_id value = valid_stable_id value false true

unfoldable pub is_valid_rule_type : Text → Bool
is_valid_rule_type value =
    valid_stable_id value true false && not (any (λ (ch : ℕ). ch == b'-') value)

-- valid_rule_option_name_impl
unfoldable pub valid_rule_option_name : Text → Bool
unfolding is_lower is_digit
valid_rule_option_name [] = false
valid_rule_option_name (first ∷ rest) =
    if ltb 64 (length (first ∷ rest)) || not (is_lower first)
    then false
    else all (λ (ch : ℕ). is_lower ch || is_digit ch || (ch == b'_')) (first ∷ rest)

unfoldable pub is_valid_rule_option_name : Text → Bool
is_valid_rule_option_name value =
    not (text_eq value (codes "id"))
    && not (text_eq value (codes "enabled"))
    && not (text_eq value (codes "type"))
    && valid_rule_option_name value
