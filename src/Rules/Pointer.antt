-- ===== src/Rules/Pointer.antt =====
-- The JSON Pointers of src/rules/generic_json_rules.cpp (RFC 6901) and the array indices in them.
pub mod Pieces
pub mod Render
pub mod Index
use cc_switch_trans.Common.{
  ℕ, zero, suc, ◌+◌, ◌-◌, ◌*◌, ◌/◌, ◌^◌, Bool, true, false, not, ◌&&◌, ◌||◌, Option, none, some,
  List, [], ◌∷◌, ◌++◌, Text, codes, text_eq, length, drop, empty?, ltb, leb, ◌==◌, if◌then◌else◌,
  decimal,
}
use cc_switch_trans.Core.Url.{split_on, begins_with}

-- kMaxJsonPointerBytes, kMaxTraceTargetBytes
abbrev max_json_pointer_bytes : ℕ
max_json_pointer_bytes = 4096

abbrev max_trace_target_bytes : ℕ
max_trace_target_bytes = 256

pub record ParsedJsonPointer : Type 0 where
  pub trace_target : Text
  pub tokens : List Text

-- The texts of `error`.
pub data PointerError : Type 0 where
  pointer_too_long not_a_pointer invalid_escape : PointerError

pub data PointerResult : Type 0 where
  pointer : ParsedJsonPointer → PointerResult
  rejected : PointerError → PointerResult

unfoldable pub bounded_trace_target : Text → Text
bounded_trace_target source =
    if leb (length source) max_trace_target_bytes
    then source
    else codes "<json-pointer:" ++ (decimal (length source) ++ codes "-bytes>")

-- A character of the decoded token before those of the rest.
abbrev put_before : ℕ → Option Text → Option Text
put_before ch none = none
put_before ch (some decoded) = some (ch ∷ decoded)

-- `none` for the error about an escape
unfoldable pub decode_pointer_token : Text → Option Text
decode_pointer_token [] = some []
decode_pointer_token (ch ∷ []) = if ch == b'~' then none else some (ch ∷ [])
decode_pointer_token (ch ∷ next ∷ rest) =
    let behind = decode_pointer_token (next ∷ rest) in
    let behind_escape = decode_pointer_token rest in
    if not (ch == b'~')
    then put_before ch behind
    else if not (next == b'0') && not (next == b'1')
    then none
    else put_before (if next == b'0' then b'~' else b'/') behind_escape

-- The loop over the pieces between slashes.
unfoldable pub decode_tokens : List Text → Option (List Text)
decode_tokens [] = some []
decode_tokens (encoded ∷ more) = elim (decode_pointer_token encoded) [
  | none ↦ none
  | some decoded ↦ elim (decode_tokens more) [ none ↦ none | some tokens ↦ some (decoded ∷ tokens) ]
]

abbrev pub with_target : Text → Option (List Text) → PointerResult
with_target source none = rejected invalid_escape
with_target source (some tokens) =
    pointer (record { trace_target = bounded_trace_target source; tokens = tokens })

unfoldable pub parse_json_pointer : Text → PointerResult
parse_json_pointer source =
    if ltb max_json_pointer_bytes (length source)
    then rejected pointer_too_long
    else if not (empty? source) && not (begins_with b'/' source)
    then rejected not_a_pointer
    else if empty? source
    then with_target source (some [])
    else with_target source (decode_tokens (split_on b'/' (drop 1 source)))

-- What `parse_array_index` throws; the reason of the first two is "invalid_array_index".
pub data IndexError : Type 0 where
  invalid_array_index array_index_too_large array_index_out_of_bounds : IndexError

pub data IndexResult : Type 0 where
  index : ℕ → IndexResult
  bad_index : IndexError → IndexResult

-- std::numeric_limits<std::size_t>::max()
abbrev pub size_max : ℕ
size_max = 2 ^ 64 - 1

unfoldable pub digits_loop : ℕ → Text → IndexResult
digits_loop value [] = index value
digits_loop value (ch ∷ rest) =
    let behind = digits_loop (value * 10 + (ch - b'0')) rest in
    if ltb ch b'0' || ltb b'9' ch
    then bad_index invalid_array_index
    else if ltb ((size_max - (ch - b'0')) / 10) value
    then bad_index array_index_too_large
    else behind

abbrev pub within : ℕ → IndexResult → IndexResult
within size (index value) =
    if leb size value then bad_index array_index_out_of_bounds else index value
within size (bad_index e) = bad_index e

unfoldable pub parse_array_index : Text → ℕ → IndexResult
parse_array_index token size =
    if empty? token || text_eq token (codes "-") || (ltb 1 (length token) && begins_with b'0' token)
    then bad_index invalid_array_index
    else within size (digits_loop 0 token)
