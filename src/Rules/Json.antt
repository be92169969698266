-- ===== src/Rules/Json.antt =====
-- What the rules use of the JSON library (nlohmann::basic_json, a third-party library): values, their
-- tests, and the writes through the references that it returns, as functions to the new value.
use cc_switch_trans.Common.{◌≡◌, Bool, true, Option, none, some, List, Text, text_eq, if◌then◌else◌}

pub record JsonLibrary : Type 1 where
  pub Json : Type 0
  pub is_object : Json → Bool
  -- The elements of an array (`is_array`, `at`, `get_ref<array_t>`); `none` for other values.
  pub elements : Json → Option (List Json)
  -- `is_string` and `get_ref<RuleString>`
  pub text_of : Json → Option Text
  -- `find` of an object; `none` for `end()`.
  pub find : Json → Text → Option Json
  -- A write through the reference to a member that is there, and its removal.
  pub with_member : Json → Text → Json → Json
  pub without_member : Json → Text → Json
  -- Writes and removals inside an array.
  pub with_elements : Json → List Json → Json
  -- operator==
  pub equal : Json → Json → Bool

-- What the library documents of them.
pub record JsonLaws (lib : JsonLibrary) : Type 0 where
  -- A value has one type.
  pub object_apart : (j : lib.Json) → lib.is_object j ≡ true → lib.elements j ≡ none
  pub with_member_object :
      (j v : lib.Json) (k : Text) → lib.is_object (lib.with_member j k v) ≡ lib.is_object j
  pub without_member_object :
      (j : lib.Json) (k : Text) → lib.is_object (lib.without_member j k) ≡ lib.is_object j
  -- A member that is written is found, and the others stay.
  pub find_with :
      (j v old : lib.Json) (k l : Text)
      → lib.is_object j ≡ true
      → lib.find j k ≡ some old
      → lib.find (lib.with_member j k v) l ≡ (if text_eq k l then some v else lib.find j l)
  pub find_without :
      (j : lib.Json) (k l : Text)
      → lib.is_object j ≡ true
      → lib.find (lib.without_member j k) l ≡ (if text_eq k l then none else lib.find j l)
  pub with_elements_elements :
      (j : lib.Json) (xs ys : List lib.Json)
      → lib.elements j ≡ some xs
      → lib.elements (lib.with_elements j ys) ≡ some ys
