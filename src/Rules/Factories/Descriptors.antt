-- ===== src/Rules/Factories/Descriptors.antt =====
-- The types and descriptors of the three rules (src/rules/generic_json_rules.cpp,
-- src/rules/remove_tool_rule.cpp).
use cc_switch_trans.Common.{true, false, [], ◌∷◌, Text, codes}
use cc_switch_trans.Protocols.{remove_tool_type}
use cc_switch_trans.Rules.Registry.{string, json_value, json_pointer, RuleDescriptor}

abbrev pub set_field_type : Text
set_field_type = codes "set_field"

abbrev pub remove_field_type : Text
remove_field_type = codes "remove_field"

abbrev pub set_field_descriptor : RuleDescriptor
set_field_descriptor = record {
  type = set_field_type;
  display_name_key = codes "rule.set_field";
  protocol_specialized = false;
  options =
      record {
        name = codes "path";
        display_name_key = codes "rule.option.path";
        value_type = json_pointer;
        required = true;
        order = 0;
      }
      ∷ record {
        name = codes "value";
        display_name_key = codes "rule.option.value";
        value_type = json_value;
        required = true;
        order = 1;
      }
      ∷ [];
}

abbrev pub remove_field_descriptor : RuleDescriptor
remove_field_descriptor = record {
  type = remove_field_type;
  display_name_key = codes "rule.remove_field";
  protocol_specialized = false;
  options =
      record {
        name = codes "path";
        display_name_key = codes "rule.option.path";
        value_type = json_pointer;
        required = true;
        order = 0;
      }
      ∷ [];
}

abbrev pub remove_tool_descriptor : RuleDescriptor
remove_tool_descriptor = record {
  type = remove_tool_type;
  display_name_key = codes "rule.remove_tool";
  protocol_specialized = true;
  options =
      record {
        name = codes "tool";
        display_name_key = codes "rule.option.tool";
        value_type = string;
        required = true;
        order = 0;
      }
      ∷ [];
}
