-- ===== src/Tests/Settings.antt =====
-- An application field at its upper bound and the path of a profile (src/config/field_descriptor.cpp).
use cc_switch_trans.Common.{◌≡◌, refl, true, false, [], some, Text, codes, text_eq, pos, none}
use cc_switch_trans.Config.Fields.{
  FieldDescriptor, raw_value, unsigned_value, parse_configuration_field_value, application, profile,
  path, runtime_reload, string, text_error, write_profile_field, apply_profile_field,
  read_profile_field, unsigned_integer, service_restart, number, fine,
  find_configuration_field_descriptor, find_descriptor, validate_typed_value, number_error,
}
use cc_switch_trans.Config.Profile.{StoredProfile}
use cc_switch_trans.Config.Editor.Draft.{new_profile}
use cc_switch_trans.Config.Settings.{
  ApplicationSettings, default_settings, apply_application_field, write_application_field,
  field_value, read_application_field,
}
use cc_switch_trans.Config.Settings.Parsed.{applied, parse-applied}
use cc_switch_trans.Core.UpstreamUrl.{digits_value}
use cc_switch_trans.Config.Settings.Access.{apply_application_field-read}
use cc_switch_trans.Config.Fields.Access.{read-apply_profile_field}

abbrev port : FieldDescriptor
port = record {
  key = codes "listener.port";
  scope = application;
  input_kind = unsigned_integer;
  required = true;
  minimum = some 1;
  maximum = some 65535;
  enum_values = [];
  display_name_key = codes "field.listener.port";
  apply_impact = service_restart;
}

abbrev last_port : ApplicationSettings
last_port = record default_settings { listener = record default_settings.listener { port = 65535 } }

port-found : find_configuration_field_descriptor application (codes "listener.port") ≡ some port
unfolding find_configuration_field_descriptor find_descriptor text_eq
port-found = refl

port-applied : apply_application_field default_settings port (number 65535) ≡ fine last_port
unfolding apply_application_field write_application_field validate_typed_value number_error text_eq
port-applied = refl

apply_application_field-read_example :
    (read_application_field last_port port ≡ fine (number 65535))
    × ((other : Text)
        → text_eq other port.key ≡ false
        → field_value last_port other ≡ field_value default_settings other)
apply_application_field-read_example =
    apply_application_field-read (codes "listener.port") port default_settings last_port
      (number 65535) port-found port-applied

abbrev usage_path : FieldDescriptor
usage_path = record {
  key = codes "local.usage-path";
  scope = profile;
  input_kind = path;
  required = false;
  minimum = none;
  maximum = none;
  enum_values = [];
  display_name_key = codes "field.profile.local_usage_path";
  apply_impact = runtime_reload;
}

abbrev main : StoredProfile
main = new_profile (pos 1) (codes "main")

abbrev main_with_usage : StoredProfile
main_with_usage = record main { local_usage_path = some (codes "/v1/usage") }

usage_path-applied :
    apply_profile_field main usage_path (string (codes "/v1/usage")) ≡ fine main_with_usage
unfolding apply_profile_field write_profile_field validate_typed_value text_error text_eq
usage_path-applied = refl

read-apply_profile_field_example :
    (read_profile_field main_with_usage usage_path ≡ fine (some (string (codes "/v1/usage"))))
    × ((other : FieldDescriptor)
        → text_eq other.key usage_path.key ≡ false
        → read_profile_field main_with_usage other ≡ read_profile_field main other)
read-apply_profile_field_example =
    read-apply_profile_field main main_with_usage usage_path (string (codes "/v1/usage"))
      usage_path-applied

port-parsed : parse_configuration_field_value port (codes "65535") ≡ fine (number 65535)
unfolding parse_configuration_field_value raw_value unsigned_value digits_value validate_typed_value
    number_error text_eq
port-parsed = refl

parse-applied_example : applied application default_settings main port (number 65535) ≡ true
unfolding text_eq
parse-applied_example =
    parse-applied application (codes "listener.port") (codes "65535") port (number 65535)
      default_settings main refl port-found port-parsed
