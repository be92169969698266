-- ===== src/Tests/Rules.antt =====
-- Rules at a request with two tools (src/rules).
use cc_switch_trans.Common.{
  ◌+◌, ◌≤◌, ◌≡◌, ◌≢◌, ◌↔◌, refl, true, some, List, [], ◌∷◌, Text, codes, length, text_eq,
}
use cc_switch_trans.Core.Budget.{RuntimeMetrics}
use cc_switch_trans.Rules.Pointer.{
  ParsedJsonPointer, parse_json_pointer, parse_array_index, digits_loop,
}
use cc_switch_trans.Rules.Pointer.Render.{tokens_of, render, parse_json_pointer_iff}
use cc_switch_trans.Rules.Fields.{
  RuleApplyResult, applied, set_field_apply, remove_field_apply, field_result, resolve_child,
  resolve_element, child_at, remove_below, remove_child, write_child, remove_at,
}
use cc_switch_trans.Rules.Fields.Lookup.{diverge, resolve_at}
use cc_switch_trans.Rules.Fields.SetField.{Sets, set_field_apply-Sets}
use cc_switch_trans.Rules.Fields.RemoveField.{Removes, remove_field_apply-Removes}
use cc_switch_trans.Rules.Tools.{
  messages, tools_key, remove_tool_apply, tools_result, erase_tools, remove_if, matches_tool,
  string_field_equals,
}
use cc_switch_trans.Rules.Tools.Laws.{without_tool, remove_tool_apply-removes}
use cc_switch_trans.Rules.Pipeline.{
  CompiledRule, finished, Parsed, parsed, Dumped, dumped, apply_pipeline,
}
use cc_switch_trans.Rules.Pipeline.Ends.{Ends, apply_pipeline-Ends}
use cc_switch_trans.Tests.Values.{
  find, elements, is_object, Value, text, array, object, Items, nil, cons, end, field, values,
  values-JsonLaws,
}

abbrev tool : Text → Value
tool name = object (field (codes "name") (text name) end)

abbrev body_with : Items → Value
body_with tools =
    object (field (codes "model") (text (codes "m")) (field (codes "tools") (array tools) end))

abbrev request : Value
request = body_with (cons (tool (codes "a")) (cons (tool (codes "b")) nil))

abbrev request_without_b : Value
request_without_b = body_with (cons (tool (codes "a")) nil)

abbrev second_name : ParsedJsonPointer
second_name = record {
  trace_target = codes "/tools/1/name";
  tokens = codes "tools" ∷ codes "1" ∷ codes "name" ∷ [];
}

abbrev second_tool : ParsedJsonPointer
second_tool = record { trace_target = codes "/tools/1"; tokens = codes "tools" ∷ codes "1" ∷ [] }

parse_json_pointer_iff_example :
    (tokens_of (parse_json_pointer (codes "/a~1b/0")) ≡ some (codes "a/b" ∷ codes "0" ∷ [])) ↔ (
      (codes "/a~1b/0" ≡ render (codes "a/b" ∷ codes "0" ∷ [])) × (length (codes "/a~1b/0") ≤ 4096))
parse_json_pointer_iff_example =
    parse_json_pointer_iff (codes "/a~1b/0") (codes "a/b" ∷ codes "0" ∷ [])

request-second_name : resolve_at values second_name.tokens request ≡ some (text (codes "b"))
unfolding resolve_at resolve_child resolve_element child_at parse_array_index digits_loop text_eq
request-second_name = refl

set_field_apply-Sets_example :
    (r : RuleApplyResult) × (after : Value) × (set_field_apply values second_name
        (text (codes "c"))
        request
      ≡ applied r after)
    × Sets values second_name.tokens (text (codes "c")) request (text (codes "b")) r after
set_field_apply-Sets_example =
    set_field_apply-Sets values values-JsonLaws second_name (text (codes "c")) request
      (text (codes "b")) request-second_name

request-second_tool :
    remove_field_apply values second_tool request
    ≡ applied (field_result values (codes "/tools/1") true "field_removed") request_without_b
unfolding remove_field_apply remove_below remove_child write_child remove_at resolve_child
    resolve_element child_at parse_array_index digits_loop text_eq
request-second_tool = refl

remove_field_apply-Removes_example :
    (parent new : Value) × ((field_result values (codes "/tools/1") true "field_removed").modified
      ≡ true)
    × (resolve_at values (codes "tools" ∷ []) request ≡ some parent)
    × (resolve_at values (codes "tools" ∷ []) request_without_b ≡ some new)
    × Removes values (codes "1") parent new
    × ((us : List Text)
        → diverge (codes "tools" ∷ []) us ≡ true
        → resolve_at values us request_without_b ≡ resolve_at values us request)
remove_field_apply-Removes_example =
    remove_field_apply-Removes values values-JsonLaws second_tool (codes "tools" ∷ []) (codes "1")
      request request_without_b (field_result values (codes "/tools/1") true "field_removed") refl
      request-second_tool

request-tool_b :
    remove_tool_apply values messages (codes "b") request
    ≡ applied (tools_result true "tool_removed" 1) request_without_b
unfolding remove_tool_apply erase_tools remove_if matches_tool string_field_equals text_eq
request-tool_b = refl

remove_tool_apply-removes_example :
    (tools new : Value) × (before : List Value) × (find request tools_key ≡ some tools)
    × (elements tools ≡ some before)
    × (find request_without_b tools_key ≡ some new)
    × (elements new ≡ some (without_tool values messages (codes "b") before))
    × (length before ≡ length (without_tool values messages (codes "b") before) + 1)
    × (is_object request_without_b ≡ true)
    × ((k : Text) → tools_key ≢ k → find request_without_b k ≡ find request k)
remove_tool_apply-removes_example =
    remove_tool_apply-removes values messages (codes "b") values-JsonLaws request request_without_b
      (tools_result true "tool_removed" 1) request-tool_b refl

abbrev drop_b : CompiledRule Value
drop_b = record {
  id = codes "drop-b";
  type = codes "remove_tool";
  apply = λ body. finished (remove_tool_apply values messages (codes "b") body);
}

abbrev metrics : RuntimeMetrics
metrics = record {
  inflight_budget_bytes = 64;
  current_inflight_bytes = 8;
  peak_inflight_bytes = 8;
  inflight_budget_rejections = 0;
}

abbrev parses : Text → Parsed Value
parses body = parsed request

abbrev dumps : Value → Dumped
dumps j = dumped (codes "{}")

apply_pipeline-Ends_example :
    Ends
      (some drop_b ∷ [])
      parses
      dumps
      (some metrics)
      (codes "{...}")
      (apply_pipeline (some drop_b ∷ []) parses dumps (some metrics) (codes "{...}"))
apply_pipeline-Ends_example =
    apply_pipeline-Ends (some drop_b ∷ []) parses dumps (some metrics) (codes "{...}")
