-- ===== src/Config/Document/Profiles.antt =====
-- The checks of profiles and whole documents in src/config/config_document.cpp. An error says what
-- the text of `error` is about.
use cc_switch_trans.Common.{
  ℕ, ◌+◌, Bool, true, false, not, ◌&&◌, ◌||◌, Option, none, some, List, [], ◌∷◌, String, Text,
  text_eq, length, empty?, any, ltb, ◌==◌, if◌then◌else◌,
}
use cc_switch_trans.Core.Url.{PathError, canonical, rejected, canonicalize_http_path}
use cc_switch_trans.Core.UpstreamUrl.{UrlError, parsed, invalid, parse_http_url}
use cc_switch_trans.Core.HeaderFilter.{is_space}
use cc_switch_trans.Routing.{is_reserved}
use cc_switch_trans.Config.Profile.{
  valid_stable_id, is_valid_profile_id, is_valid_rule_id, is_valid_rule_type,
  is_valid_rule_option_name,
}
use cc_switch_trans.Config.Editor.{max_rules_per_profile}
use cc_switch_trans.Config.Document.{
  ConfigJson, RuleDefinition, ProfileDefinition, ConfigDocument, Failure,
}
use cc_switch_trans.Config.Document.Options.{
  OptionError, counted, bad_value, contains_control, validate_rule_json,
}
use cc_switch_trans.Config.Document.Application.{
  SettingError, ◌>>◌, reject_if, validate_application_settings,
}

-- kMaxConfigProfiles, kMaxConfigRoutes, kMaxUrlBytes
abbrev max_config_profiles : ℕ
max_config_profiles = 128

abbrev max_config_routes : ℕ
max_config_routes = 256

abbrev max_url_bytes : ℕ
max_url_bytes = 8192

pub data ProfileError : Type 0 where
  invalid_id invalid_protocol bad_url_bytes url_query url_host : ProfileError
  bad_path : PathError → ProfileError
  reserved_path : ProfileError
  bad_url : UrlError → ProfileError
  too_many_rules : ProfileError
  invalid_rule_id duplicate_rule_id invalid_rule_type : Text → ProfileError
  invalid_option_name : Text → Text → ProfileError
  bad_option : Text → Text → OptionError → ProfileError
  incomplete unpaired_usage : ProfileError

unfoldable pub is_valid_protocol_id : Text → Bool
is_valid_protocol_id value = valid_stable_id value true false

-- `none` when the path is valid.
unfoldable pub validate_route_path : Bool → Text → Option ProfileError
validate_route_path local value = elim (canonicalize_http_path value) [
  | rejected e ↦ some (bad_path e)
  | canonical path ↦ if local && is_reserved path then some reserved_path else none
]

unfoldable pub validate_base_url : Text → Option ProfileError
validate_base_url value =
    if empty? value || ltb max_url_bytes (length value) || contains_control value
    then some bad_url_bytes
    else if any (λ (ch : ℕ). (ch == b'?') || (ch == b'#')) value
    then some url_query
    else elim (parse_http_url value) [
      | invalid e ↦ some (bad_url e)
      | parsed url ↦
          if any is_space url.host then some url_host else validate_route_path false url.base_path
    ]

abbrev pub is_some : Option Text → Bool
is_some none = false
is_some (some x) = true

-- The check of a value that may be missing, with the field that it is reported at.
unfoldable pub check_field :
    String → (Text → Option ProfileError) → Option Text → Option (Failure ProfileError)
check_field field check none = none
check_field field check (some value) = elim (check value) [
  | none ↦ none
  | some e ↦ some (record { field = field; reason = e })
]

unfoldable pub invalid_protocol_id : Text → Option ProfileError
invalid_protocol_id value = if is_valid_protocol_id value then none else some invalid_protocol

unfoldable pub complete_profile :
    {Json : Type 0} → ProfileDefinition Json → Option (Failure ProfileError)
complete_profile p = do
  reject_if (not (is_some p.protocol)) "protocol" incomplete
  reject_if (not (is_some p.local.request_path)) "local.request-path" incomplete
  reject_if (not (is_some p.upstream.base_url)) "upstream.base-url" incomplete
  reject_if (not (is_some p.upstream.request_path)) "upstream.request-path" incomplete
  reject_if (is_some p.local.usage_path && not (is_some p.upstream.usage_path))
      "upstream.usage-path" unpaired_usage
  reject_if (not (is_some p.local.usage_path) && is_some p.upstream.usage_path) "local.usage-path"
      unpaired_usage

-- What `validate_config_document` refuses; the profile is named where there is one.
pub data DocumentError : Type 0 where
  bad_setting : Failure SettingError → DocumentError
  bad_profile : Text → Failure ProfileError → DocumentError
  too_many_profiles too_many_routes : DocumentError

abbrev pub one_if : Bool → ℕ
one_if true = 1
one_if false = 0

-- route_count
unfoldable pub count_routes : {Json : Type 0} → List (Text × ProfileDefinition Json) → ℕ
count_routes [] = 0
count_routes ((id, p) ∷ more) =
    one_if (is_some p.local.request_path) + one_if (is_some p.local.usage_path) + count_routes more

unfoldable pub wrapped :
    {Reason : Type 0}
    → (Failure Reason → DocumentError)
    → Option (Failure Reason)
    → Option DocumentError
wrapped f none = none
wrapped f (some e) = some (f e)

module _ (lib : ConfigJson) where
  unfoldable pub check_options : Text → List (Text × lib.Json) → Option (Failure ProfileError)
  check_options id [] = none
  check_options id ((key, value) ∷ more) = do
    reject_if (not (is_valid_rule_option_name key)) "rules" (invalid_option_name id key)
    elim (validate_rule_json lib value) [
      | counted n ↦ none
      | bad_value e ↦ some (record { field = "rules"; reason = bad_option id key e })
    ]
    check_options id more

  -- The loop over the rules; `rule_ids` are those before.
  unfoldable pub check_rules :
      List Text → List (RuleDefinition lib.Json) → Option (Failure ProfileError)
  check_rules rule_ids [] = none
  check_rules rule_ids (rule ∷ more) = do
    reject_if (not (is_valid_rule_id rule.id)) "rules" (invalid_rule_id rule.id)
    reject_if (any (text_eq rule.id) rule_ids) "rules" (duplicate_rule_id rule.id)
    reject_if (not (is_valid_rule_type rule.type)) "rules" (invalid_rule_type rule.id)
    check_options rule.id rule.options
    check_rules (rule.id ∷ rule_ids) more

  unfoldable pub validate_profile_definition :
      Text → ProfileDefinition lib.Json → Bool → Option (Failure ProfileError)
  validate_profile_definition id p require_complete = do
    reject_if (not (is_valid_profile_id id)) "id" invalid_id
    check_field "protocol" invalid_protocol_id p.protocol
    check_field "local.request-path" (validate_route_path true) p.local.request_path
    check_field "local.usage-path" (validate_route_path true) p.local.usage_path
    check_field "upstream.base-url" validate_base_url p.upstream.base_url
    check_field "upstream.request-path" (validate_route_path false) p.upstream.request_path
    check_field "upstream.usage-path" (validate_route_path false) p.upstream.usage_path
    reject_if (ltb max_rules_per_profile (length p.rules)) "rules" too_many_rules
    check_rules [] p.rules
    if require_complete then complete_profile p else none

  unfoldable pub check_profiles : List (Text × ProfileDefinition lib.Json) → Option DocumentError
  check_profiles [] = none
  check_profiles ((id, p) ∷ more) = do
    wrapped (bad_profile id) (validate_profile_definition id p p.enabled)
    check_profiles more

  -- `validate_config_document`; the first argument is the check of the file name of the log.
  unfoldable pub validate_config_document :
      (Text → Bool) → ConfigDocument lib.Json → Option DocumentError
  validate_config_document log_path_error document = do
    wrapped bad_setting (validate_application_settings log_path_error document.application)
    if ltb max_config_profiles (length document.profiles) then some too_many_profiles else none
    check_profiles document.profiles
    if ltb max_config_routes (count_routes document.profiles) then some too_many_routes else none
