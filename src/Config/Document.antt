-- ===== src/Config/Document.antt =====
-- The configuration documents of src/config/config_document.hpp. A `std::map` is the list of its
-- entries in the order of their keys. What the program asks of the JSON values in a document
-- (nlohmann::json, a third-party library) is the record `ConfigJson`.
pub mod Options
pub mod Application
pub mod Profiles
use cc_switch_trans.Common.{ℕ, Bool, Option, List, String, Text, ℤ}
use cc_switch_trans.Config.Settings.{ApplicationSettings}

pub record ConfigJson : Type 1 where
  pub Json : Type 0
  pub is_binary : Json → Bool
  pub is_discarded : Json → Bool
  -- is_number_float() && !std::isfinite(get<double>())
  pub is_infinite : Json → Bool
  -- What the loops over an array and over an object visit; `none` for other values.
  pub elements : Json → Option (List Json)
  pub members : Json → Option (List (Text × Json))
  -- is_string() and get_ref<const std::string&>()
  pub text_of : Json → Option Text

pub record LocalRoutes : Type 0 where
  pub request_path : Option Text
  pub usage_path : Option Text

pub record UpstreamDefinition : Type 0 where
  pub base_url : Option Text
  pub request_path : Option Text
  pub usage_path : Option Text

pub record RuleDefinition (Json : Type 0) : Type 0 where
  pub id : Text
  pub enabled : Bool
  pub type : Text
  pub options : List (Text × Json)
  pub storage_key : ℤ

pub record ProfileDefinition (Json : Type 0) : Type 0 where
  pub enabled : Bool
  pub protocol : Option Text
  pub local : LocalRoutes
  pub upstream : UpstreamDefinition
  pub rules : List (RuleDefinition Json)
  pub storage_key : ℤ
  pub storage_position : Option ℕ

pub record ConfigDocument (Json : Type 0) : Type 0 where
  pub application : ApplicationSettings
  pub profiles : List (Text × ProfileDefinition Json)

-- The field that a check refuses, and the check's `error`.
pub record Failure (Reason : Type 0) : Type 0 where
  pub field : String
  pub reason : Reason
