-- ===== src/Rules/Fields.antt =====
-- The rules `set_field` and `remove_field` of src/rules/generic_json_rules.cpp. A write through the
-- reference to a nested value becomes the new whole value. Allocations are taken to succeed here.
pub mod Lookup
pub mod Edits
pub mod SetField
pub mod RemoveField
use cc_switch_trans.Common.{
  ℕ, zero, suc, ◌+◌, Bool, true, false, not, Option, none, some, List, [], ◌∷◌, ◌++◌, String, Text,
  length, get_elem?, set, if◌then◌else◌,
}
use cc_switch_trans.Rules.Json.{JsonLibrary}
use cc_switch_trans.Rules.Pointer.{
  ParsedJsonPointer, IndexError, IndexResult, index, bad_index, invalid_array_index,
  array_index_too_large, array_index_out_of_bounds, parse_array_index,
}

-- The `RuleRuntimeError`s, by their messages.
pub data RuleRuntimeError : Type 0 where
  bad_array_index : IndexError → RuleRuntimeError
  target_missing traverse_scalar parent_scalar invalid_root_type : RuleRuntimeError

unfoldable pub reason : RuleRuntimeError → String
reason (bad_array_index invalid_array_index) = "invalid_array_index"
reason (bad_array_index array_index_too_large) = "invalid_array_index"
reason (bad_array_index array_index_out_of_bounds) = "array_index_out_of_bounds"
reason target_missing = "target_missing"
reason traverse_scalar = "type_conflict"
reason parent_scalar = "type_conflict"
reason invalid_root_type = "invalid_root_type"

pub record RuleChangeSummary : Type 0 where
  pub target : Text
  pub affected_count : ℕ

pub record RuleApplyResult : Type 0 where
  pub matched : Bool
  pub modified : Bool
  pub reason : String
  pub summary : RuleChangeSummary

-- What a call of `apply` leaves: its result with the body, or what it throws.
pub data Applied (Json : Type 0) : Type 0 where
  applied : RuleApplyResult → Json → Applied Json
  failed : RuleRuntimeError → Applied Json

-- Which member or element of its parent a child is.
pub data Place : Type 0 where
  member : Text → Place
  element : ℕ → Place

pub data Resolved (Json : Type 0) : Type 0 where
  resolved : Place → Json → Resolved Json
  unresolved : RuleRuntimeError → Resolved Json

-- What is done to the target, and back up through its parents.
pub data Edited (Json : Type 0) : Type 0 where
  unchanged : Edited Json
  changed : Json → Edited Json
  refused : RuleRuntimeError → Edited Json

-- tool_array.erase(begin() + i)
unfoldable pub remove_at {ℓ} : {A : Type ℓ} → ℕ → List A → List A
remove_at i [] = []
remove_at zero (x ∷ xs) = xs
remove_at (suc i) (x ∷ xs) = x ∷ remove_at i xs

module _ (lib : JsonLibrary) where
  -- `at` of an index that was checked.
  unfoldable pub child_at : List lib.Json → ℕ → Resolved lib.Json
  child_at xs i = elim (get_elem? xs i) [
    | some child ↦ resolved (element i) child
    | none ↦ unresolved (bad_array_index array_index_out_of_bounds)
  ]

  unfoldable pub resolve_element : Text → List lib.Json → Resolved lib.Json
  resolve_element token xs = elim (parse_array_index token (length xs)) [
    | index i ↦ child_at xs i
    | bad_index e ↦ unresolved (bad_array_index e)
  ]

  unfoldable pub resolve_child : lib.Json → Text → Resolved lib.Json
  resolve_child parent token =
      if lib.is_object parent
      then (elim (lib.find parent token) [
        | some child ↦ resolved (member token) child
        | none ↦ unresolved target_missing
      ])
      else elim (lib.elements parent) [
        | some xs ↦ resolve_element token xs
        | none ↦ unresolved traverse_scalar
      ]

  -- The parent once its child is `new`.
  unfoldable pub write_child : lib.Json → Place → lib.Json → lib.Json
  write_child parent (member key) new = lib.with_member parent key new
  write_child parent (element i) new = elim (lib.elements parent) [
    | some xs ↦ lib.with_elements parent (set xs i new)
    | none ↦ parent
  ]

  abbrev pub write_back : lib.Json → Place → Edited lib.Json → Edited lib.Json
  write_back parent place unchanged = unchanged
  write_back parent place (changed new) = changed (write_child parent place new)
  write_back parent place (refused e) = refused e

  -- The loop over the tokens of `SetFieldRule::apply` and what it does at the target.
  unfoldable pub set_at : List Text → lib.Json → lib.Json → Edited lib.Json
  set_at [] value target = if lib.equal target value then unchanged else changed value
  set_at (token ∷ tokens) value target = elim (resolve_child target token) [
    | unresolved e ↦ refused e
    | resolved place child ↦ write_back target place (set_at tokens value child)
  ]

  unfoldable pub remove_child : lib.Json → Text → Edited lib.Json
  remove_child parent token =
      if lib.is_object parent
      then (elim (lib.find parent token) [
        | some child ↦ changed (lib.without_member parent token)
        | none ↦ refused target_missing
      ])
      else elim (lib.elements parent) [
        | none ↦ refused parent_scalar
        | some xs ↦ elim (parse_array_index token (length xs)) [
          | index i ↦ changed (lib.with_elements parent (remove_at i xs))
          | bad_index e ↦ refused (bad_array_index e)
        ]
      ]

  -- The same of `RemoveFieldRule::apply`, whose pointer has a token; the last one names the target.
  unfoldable pub remove_below : Text → List Text → lib.Json → Edited lib.Json
  remove_below token [] parent = remove_child parent token
  remove_below token (next ∷ tokens) parent = elim (resolve_child parent token) [
    | unresolved e ↦ refused e
    | resolved place child ↦ write_back parent place (remove_below next tokens child)
  ]

  abbrev pub field_result : Text → Bool → String → RuleApplyResult
  field_result target modified text = record {
    matched = true;
    modified = modified;
    reason = text;
    summary = record { target = target; affected_count = (if modified then 1 else 0) };
  }

  -- What `apply` returns or throws, from what was done at the target.
  abbrev pub field_outcome : Text → String → lib.Json → Edited lib.Json → Applied lib.Json
  field_outcome target done body unchanged =
      applied (field_result target false "value_unchanged") body
  field_outcome target done body (changed new) = applied (field_result target true done) new
  field_outcome target done body (refused e) = failed e

  unfoldable pub set_field_apply : ParsedJsonPointer → lib.Json → lib.Json → Applied lib.Json
  set_field_apply p value body =
      field_outcome p.trace_target "field_set" body (set_at p.tokens value body)

  -- A pointer without tokens, whose last token `back()` would read, is refused when the rule is
  -- compiled.
  unfoldable pub remove_field_apply : ParsedJsonPointer → lib.Json → Applied lib.Json
  remove_field_apply p body = elim p.tokens [
    | [] ↦ failed target_missing
    | token ∷ tokens ↦
        field_outcome p.trace_target "field_removed" body (remove_below token tokens body)
  ]
