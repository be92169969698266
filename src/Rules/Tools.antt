-- ===== src/Rules/Tools.antt =====
-- The rule `remove_tool` of src/rules/remove_tool_rule.cpp. The layouts are those of the protocols'
-- requests. `std::remove_if` moves what stays to the front and calls its predicate, which counts,
-- once for each element; what is behind is erased.
pub mod Laws
use cc_switch_trans.Common.{
  ℕ, suc, Bool, true, false, ◌||◌, Option, none, some, List, [], ◌∷◌, String, Text, codes, text_eq,
  ltb, leb, any, ◌==◌, if◌then◌else◌,
}
use cc_switch_trans.Rules.Json.{JsonLibrary}
use cc_switch_trans.Rules.Fields.{RuleApplyResult, Applied, applied, failed, invalid_root_type}

-- kMaxToolNameBytes
abbrev pub max_tool_name_bytes : ℕ
max_tool_name_bytes = 256

pub data ToolLayout : Type 0 where
  responses chat messages : ToolLayout

unfoldable pub contains_control : Text → Bool
contains_control value = any (λ (ch : ℕ). ltb ch 32 || (ch == 127)) value

abbrev pub tools_key : Text
tools_key = codes "tools"

-- A result with the trace target of the rule.
abbrev pub tools_result : Bool → String → ℕ → RuleApplyResult
tools_result done text removed = record {
  matched = done;
  modified = done;
  reason = text;
  summary = record { target = codes "/tools"; affected_count = removed };
}

module _ (lib : JsonLibrary) where
  unfoldable pub string_field_equals : lib.Json → Text → Text → Bool
  string_field_equals value name expected = elim (lib.find value name) [
    | none ↦ false
    | some field ↦ elim (lib.text_of field) [ none ↦ false | some actual ↦ text_eq actual expected ]
  ]

  matches_in : ToolLayout → lib.Json → Text → Bool
  unfolding string_field_equals
  matches_in responses candidate tool_name =
      string_field_equals candidate (codes "name") tool_name
      || string_field_equals candidate (codes "namespace") tool_name
  matches_in chat candidate tool_name = elim (lib.find candidate (codes "function")) [
    | none ↦ false
    | some function ↦
        if lib.is_object function
        then string_field_equals function (codes "name") tool_name
        else false
  ]
  matches_in messages candidate tool_name = string_field_equals candidate (codes "name") tool_name

  unfoldable pub matches_tool : lib.Json → ToolLayout → Text → Bool
  unfolding matches_in
  matches_tool candidate layout tool_name =
      if lib.is_object candidate then matches_in layout candidate tool_name else false

  -- remove_if with its count: what stays, and how many go.
  unfoldable pub remove_if : (lib.Json → Bool) → List lib.Json → List lib.Json × ℕ
  remove_if p [] = ([], 0)
  remove_if p (x ∷ xs) =
      let (retained, removed) = remove_if p xs in
      if p x then (retained, suc removed) else (x ∷ retained, removed)

  unfoldable pub erase_tools : lib.Json → lib.Json → List lib.Json × ℕ → Applied lib.Json
  erase_tools body tools (retained, removed) =
      if removed == 0
      then applied (tools_result false "tool_not_found" 0) body
      else applied (tools_result true "tool_removed" removed)
          (lib.with_member body tools_key (lib.with_elements tools retained))

  unfoldable pub remove_tool_apply : ToolLayout → Text → lib.Json → Applied lib.Json
  remove_tool_apply layout tool_name body =
      if lib.is_object body
      then (elim (lib.find body tools_key) [
        | none ↦ applied (tools_result false "tools_absent" 0) body
        | some tools ↦ elim (lib.elements tools) [
          | none ↦ applied (tools_result false "tools_not_array" 0) body
          | some xs ↦
              erase_tools body tools
                (remove_if (λ (x : lib.Json). matches_tool x layout tool_name) xs)
        ]
      ])
      else failed invalid_root_type
