-- ===== src/Rules/Pipeline.antt =====
-- The run of a compiled pipeline over a request body (src/rules/rule.cpp). What the JSON library
-- does for one run (`RuleJson::parse`, `dump`, allocations inside a rule included) comes as its
-- outcome. The durations are left out, and the copy of the serialized text is taken to succeed.
pub mod Runs
pub mod Ends
use cc_switch_trans.Common.{
  ℕ, Bool, true, false, ◌||◌, Option, none, some, List, [], ◌∷◌, ◌++◌, String, Text, length, empty?,
  if◌then◌else◌,
}
use cc_switch_trans.Core.Budget.{RuntimeMetrics, Lease, try_acquire}
use cc_switch_trans.Rules.Fields.{
  RuleRuntimeError, bad_array_index, target_missing, traverse_scalar, parent_scalar,
  invalid_root_type, RuleApplyResult, RuleChangeSummary, Applied, applied, failed, reason,
}
use cc_switch_trans.Rules.Pointer.{
  invalid_array_index, array_index_too_large, array_index_out_of_bounds,
}

-- what() of the exceptions
unfoldable pub message : RuleRuntimeError → String
message (bad_array_index invalid_array_index) = "JSON Pointer contains an invalid array index"
message (bad_array_index array_index_too_large) = "JSON Pointer array index is too large"
message (bad_array_index array_index_out_of_bounds) = "JSON Pointer array index is out of bounds"
message target_missing = "JSON Pointer target does not exist"
message traverse_scalar = "JSON Pointer cannot traverse a scalar value"
message parent_scalar = "JSON Pointer target parent is a scalar value"
message invalid_root_type = "request body must be a JSON object for remove_tool"

-- A call of a rule: it comes to its own end, or it is cut short by `InflightBudgetExceeded` or by
-- any other exception.
pub data Ran (Json : Type 0) : Type 0 where
  finished : Applied Json → Ran Json
  rule_exceeded rule_threw : Ran Json

pub record CompiledRule (Json : Type 0) : Type 0 where
  pub id : Text
  pub type : Text
  pub apply : Json → Ran Json

pub data Parsed (Json : Type 0) : Type 0 where
  parsed : Json → Parsed Json
  parse_exceeded parse_error other_json_exception parse_threw : Parsed Json

pub data Dumped : Type 0 where
  dumped : Text → Dumped
  dump_exceeded dump_threw : Dumped

pub record RuleTrace : Type 0 where
  pub rule_id : Text
  pub rule_type : Text
  pub matched : Bool
  pub modified : Bool
  pub reason : String
  pub summary : RuleChangeSummary

pub record RulePipelineError : Type 0 where
  pub status_code : ℕ
  pub type : String
  pub message : String
  pub rule_id : Text
  pub rule_type : Text
  pub reason : String

pub record RulePipelineResult : Type 0 where
  pub ok : Bool
  pub modified : Bool
  pub parse_count : ℕ
  pub serialize_count : ℕ
  pub original_body_size : ℕ
  pub output_body_size : ℕ
  pub rewritten_body_memory : Option Lease
  pub rewritten_body : Option Text
  pub traces : List RuleTrace
  pub error : Option RulePipelineError

-- What a result starts with.
unfoldable pub fresh_result : Text → RulePipelineResult
fresh_result body = record {
  ok = true;
  modified = false;
  parse_count = 0;
  serialize_count = 0;
  original_body_size = length body;
  output_body_size = length body;
  rewritten_body_memory = none;
  rewritten_body = none;
  traces = [];
  error = none;
}

abbrev budget_exhausted : Text → Text → RulePipelineError
budget_exhausted id type = record {
  status_code = 503;
  type = "server_error";
  message = "inflight memory budget exhausted";
  rule_id = id;
  rule_type = type;
  reason = "inflight_budget_exhausted";
}

abbrev invalid_request : String → Text → Text → String → RulePipelineError
invalid_request text id type why = record {
  status_code = 400;
  type = "invalid_request_error";
  message = text;
  rule_id = id;
  rule_type = type;
  reason = why;
}

abbrev server_error : String → Text → Text → String → RulePipelineError
server_error text id type why = record {
  status_code = 500;
  type = "server_error";
  message = text;
  rule_id = id;
  rule_type = type;
  reason = why;
}

unfoldable pub fail_with : RulePipelineResult → RulePipelineError → RulePipelineResult
fail_with result e = record result { ok = false; modified = false; error = some e }

unfoldable pub make_trace : {Json : Type 0} → CompiledRule Json → RuleApplyResult → RuleTrace
make_trace rule result = record {
  rule_id = rule.id;
  rule_type = rule.type;
  matched = result.matched;
  modified = result.modified;
  reason = result.reason;
  summary = result.summary;
}

-- The trace of a rule that threw, which has an empty summary.
abbrev failure_trace : {Json : Type 0} → CompiledRule Json → String → RuleTrace
failure_trace rule why = record {
  rule_id = rule.id;
  rule_type = rule.type;
  matched = false;
  modified = false;
  reason = why;
  summary = record { target = []; affected_count = 0 };
}

unfoldable pub traced : RulePipelineResult → RuleTrace → RulePipelineResult
traced result t = record result { traces = result.traces ++ t ∷ [] }

-- The loop over the rules returned, or it went through all of them with this candidate.
pub data Looped (Json : Type 0) : Type 0 where
  returned : RulePipelineResult → Looped Json
  went_through : RulePipelineResult → Json → Bool → Looped Json

-- The handlers of an exception that a rule threw.
abbrev pub rule_failed :
    {Json : Type 0}
    → RulePipelineResult
    → CompiledRule Json
    → RulePipelineError
    → RulePipelineResult
rule_failed result rule e = traced (fail_with result e) (failure_trace rule e.reason)

unfoldable pub run_rules :
    {Json : Type 0}
    → RulePipelineResult
    → List (Option (CompiledRule Json))
    → Json
    → Bool
    → Looped Json
run_rules result [] candidate modified = went_through result candidate modified
run_rules result (none ∷ rules) candidate modified = returned (
    fail_with result
      (server_error "compiled rule pipeline contains a null rule" [] [] "null_compiled_rule"))
run_rules result (some rule ∷ rules) candidate modified = elim (rule.apply candidate) [
  | finished (applied r next) ↦
      run_rules (traced result (make_trace rule r)) rules next (modified || r.modified)
  | finished (failed e) ↦
      returned (rule_failed result rule (invalid_request (message e) rule.id rule.type (reason e)))
  | rule_exceeded ↦ returned (rule_failed result rule (budget_exhausted rule.id rule.type))
  | rule_threw ↦ returned (
      rule_failed result rule
        (server_error "rule execution failed" rule.id rule.type "unexpected_rule_error"))
]

unfoldable pub rewrite : RulePipelineResult → Text → Option Lease → RulePipelineResult
rewrite result text memory = record result {
  modified = true;
  output_body_size = length text;
  rewritten_body_memory = memory;
  rewritten_body = some text;
}

abbrev pub accounted :
    RulePipelineResult
    → Text
    → RuntimeMetrics × Option Lease
    → RulePipelineResult × Option RuntimeMetrics
accounted result text (m, none) = (fail_with result (budget_exhausted [] []), some m)
accounted result text (m, some memory) = (rewrite result text (some memory), some m)

-- The serialized body with the memory that it takes; the counters are those after it.
unfoldable pub account :
    RulePipelineResult → Text → Option RuntimeMetrics → RulePipelineResult × Option RuntimeMetrics
account result text none = (rewrite result text none, none)
account result text (some m) = accounted result text (try_acquire m (length text))

abbrev pub after_dump :
    RulePipelineResult → Option RuntimeMetrics → Dumped → RulePipelineResult × Option RuntimeMetrics
after_dump result budget (dumped text) = account result text budget
after_dump result budget dump_exceeded = (fail_with result (budget_exhausted [] []), budget)
after_dump result budget dump_threw = (
  fail_with result
      (server_error "failed to serialize rewritten request body" [] [] "json_serialize_failed"),
  budget,
)

unfoldable pub serialize :
    {Json : Type 0}
    → (Json → Dumped)
    → Option RuntimeMetrics
    → Looped Json
    → RulePipelineResult × Option RuntimeMetrics
serialize dump budget (returned result) = (result, budget)
serialize dump budget (went_through result candidate false) = (result, budget)
serialize dump budget (went_through result candidate true) =
    after_dump (record result { serialize_count = 1 }) budget (dump candidate)

-- What is left once the body was parsed; `result` has the count of the parse.
unfoldable pub run_parsed :
    {Json : Type 0}
    → List (Option (CompiledRule Json))
    → (Json → Dumped)
    → Option RuntimeMetrics
    → RulePipelineResult
    → Parsed Json
    → RulePipelineResult × Option RuntimeMetrics
run_parsed rules dump budget result (parsed candidate) =
    serialize dump budget (run_rules result rules candidate false)
run_parsed rules dump budget result parse_exceeded =
    (fail_with result (budget_exhausted [] []), budget)
run_parsed rules dump budget result parse_error = (
  fail_with result (invalid_request "request body is not valid JSON" [] [] "invalid_json"),
  budget,
)
run_parsed rules dump budget result other_json_exception = (
  fail_with result
      (invalid_request "request body could not be parsed as JSON" [] [] "json_parse_failed"),
  budget,
)
run_parsed rules dump budget result parse_threw = (
  fail_with result (server_error "failed to parse request JSON" [] [] "json_parse_internal_error"),
  budget,
)

-- CompiledPipeline::apply. `budget` has the counters at the moment when the rewritten body is
-- accounted for; it is `none` without a budget.
unfoldable pub apply_pipeline :
    {Json : Type 0}
    → List (Option (CompiledRule Json))
    → (Text → Parsed Json)
    → (Json → Dumped)
    → Option RuntimeMetrics
    → Text
    → RulePipelineResult × Option RuntimeMetrics
apply_pipeline rules parse dump budget body =
    if empty? rules
    then (fresh_result body, budget)
    else run_parsed rules dump budget (record (fresh_result body) { parse_count = 1 }) (parse body)
