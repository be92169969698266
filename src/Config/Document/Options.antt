-- ===== src/Config/Document/Options.antt =====
-- `validate_rule_json` of src/config/config_document.cpp, the limits on the values of rule options.
use cc_switch_trans.Common.{
  ℕ, zero, suc, ◌+◌, Bool, ◌||◌, none, some, List, [], ◌∷◌, Text, length, any, ltb, if◌then◌else◌,
}
use cc_switch_trans.Core.Url.{is_control}
use cc_switch_trans.Config.Document.{ConfigJson}

-- kMaxRuleOptionDepth, kMaxRuleOptionNodes
abbrev max_rule_option_depth : ℕ
max_rule_option_depth = 32

abbrev max_rule_option_nodes : ℕ
max_rule_option_nodes = 4096

pub data OptionError : Type 0 where
  too_many_nodes too_deep not_lossless invalid_key : OptionError

-- The count of nodes that a check leaves, or its `error`.
pub data NodeCheck : Type 0 where
  counted : ℕ → NodeCheck
  bad_value : OptionError → NodeCheck

unfoldable pub contains_control : Text → Bool
contains_control value = any is_control value

unfoldable pub and_count : NodeCheck → (ℕ → NodeCheck) → NodeCheck
and_count (counted n) f = f n
and_count (bad_value e) f = bad_value e

-- The loops over an array and over an object, with the check of a child.
unfoldable pub check_elements : {Json : Type 0} → (Json → ℕ → NodeCheck) → List Json → ℕ → NodeCheck
check_elements check [] nodes = counted nodes
check_elements check (x ∷ xs) nodes = and_count (check x nodes) (check_elements check xs)

unfoldable pub check_members :
    {Json : Type 0} → (Json → ℕ → NodeCheck) → List (Text × Json) → ℕ → NodeCheck
check_members check [] nodes = counted nodes
check_members check ((key, x) ∷ xs) nodes =
    if ltb 256 (length key) || contains_control key
    then bad_value invalid_key
    else and_count (check x nodes) (check_members check xs)

module _ (lib : ConfigJson) where
  -- The recursion, by the levels that the depth leaves.
  unfoldable pub check_json : ℕ → lib.Json → ℕ → NodeCheck
  check_json zero value nodes =
      if ltb max_rule_option_nodes (nodes + 1) then bad_value too_many_nodes else bad_value too_deep
  check_json (suc levels) value nodes =
      if ltb max_rule_option_nodes (nodes + 1)
      then bad_value too_many_nodes
      else if lib.is_binary value || lib.is_discarded value || lib.is_infinite value
      then bad_value not_lossless
      else elim (lib.elements value) [
        | some xs ↦ check_elements (check_json levels) xs (nodes + 1)
        | none ↦ elim (lib.members value) [
          | some xs ↦ check_members (check_json levels) xs (nodes + 1)
          | none ↦ counted (nodes + 1)
        ]
      ]

  unfoldable pub validate_rule_json : lib.Json → NodeCheck
  validate_rule_json value = check_json (max_rule_option_depth + 1) value 0
