-- ===== src/Config/Fields/Descriptors.antt =====
-- The descriptors of the fields of a configuration, with their tables (src/config/field_descriptor.cpp,
-- src/config/field_descriptor.hpp).
use cc_switch_trans.Common.{
  ℕ, ◌*◌, ◌-◌, ◌^◌, Bool, true, false, Option, none, some, List, [], ◌∷◌, String, Text, codes,
  text_eq, if◌then◌else◌,
}

pub data FieldScope : Type 0 where
  application profile : FieldScope

pub data InputKind : Type 0 where
  text unsigned_integer boolean enumeration path url : InputKind

pub data ApplyImpact : Type 0 where
  runtime_reload service_restart : ApplyImpact

pub record FieldDescriptor : Type 0 where
  pub key : Text
  pub scope : FieldScope
  pub input_kind : InputKind
  pub required : Bool
  pub minimum : Option ℕ
  pub maximum : Option ℕ
  pub enum_values : List Text
  pub display_name_key : Text
  pub apply_impact : ApplyImpact

-- kKiB, kMiB, kGiB, kTiB, and std::numeric_limits<int>::max()
abbrev kib : ℕ
kib = 1024

abbrev pub mib : ℕ
mib = 1024 * kib

abbrev pub gib : ℕ
gib = 1024 * mib

abbrev tib : ℕ
tib = 1024 * gib

abbrev int_max : ℕ
int_max = 2 ^ 31 - 1

abbrev descriptor :
    FieldScope
    → String
    → InputKind
    → Bool
    → Option ℕ
    → Option ℕ
    → List Text
    → String
    → ApplyImpact
    → FieldDescriptor
descriptor scope key input_kind required minimum maximum enum_values display_name impact = record {
  key = codes key;
  scope = scope;
  input_kind = input_kind;
  required = required;
  minimum = minimum;
  maximum = maximum;
  enum_values = enum_values;
  display_name_key = codes display_name;
  apply_impact = impact;
}

abbrev pub logging_level : FieldDescriptor
logging_level =
    descriptor application "logging.level" enumeration true none none
      (codes "trace" ∷ codes "debug" ∷ codes "info" ∷ codes "warn" ∷ codes "error" ∷ [])
      "field.logging.level" runtime_reload

abbrev pub application_descriptors : List FieldDescriptor
application_descriptors =
    descriptor application "listener.host" text true none none [] "field.listener.host"
      service_restart
    ∷ descriptor application "listener.port" unsigned_integer true (some 1) (some 65535) []
        "field.listener.port" service_restart
    ∷ descriptor application "runtime.worker-threads" unsigned_integer true (some 1) (some 1024) []
        "field.runtime.worker_threads" service_restart
    ∷ descriptor application "runtime.max-connections" unsigned_integer true (some 1) (some 65535)
        [] "field.runtime.max_connections" runtime_reload
    ∷ descriptor application "runtime.max-request-body-size" unsigned_integer true (some 1)
        (some gib) [] "field.runtime.max_request_body_size" runtime_reload
    ∷ descriptor application "runtime.max-response-body-size" unsigned_integer true (some 1)
        (some gib) [] "field.runtime.max_response_body_size" runtime_reload
    ∷ descriptor application "runtime.max-inflight-bytes" unsigned_integer true (some mib)
        (some (64 * gib)) [] "field.runtime.max_inflight_bytes" service_restart
    ∷ descriptor application "runtime.metrics-interval-ms" unsigned_integer true (some 0)
        (some int_max) [] "field.runtime.metrics_interval_ms" service_restart
    ∷ descriptor application "timeouts.resolve-ms" unsigned_integer true (some 1) (some int_max) []
        "field.timeouts.resolve_ms" runtime_reload
    ∷ descriptor application "timeouts.connect-ms" unsigned_integer true (some 1) (some int_max) []
        "field.timeouts.connect_ms" runtime_reload
    ∷ descriptor application "timeouts.send-ms" unsigned_integer true (some 1) (some int_max) []
        "field.timeouts.send_ms" runtime_reload
    ∷ descriptor application "timeouts.response-header-ms" unsigned_integer true (some 1)
        (some int_max) [] "field.timeouts.response_header_ms" runtime_reload
    ∷ descriptor application "timeouts.stream-idle-ms" unsigned_integer true (some 1) (some int_max)
        [] "field.timeouts.stream_idle_ms" runtime_reload
    ∷ descriptor application "timeouts.total-ms" unsigned_integer true (some 0) (some int_max) []
        "field.timeouts.total_ms" runtime_reload
    ∷ descriptor application "logging.path" path true none none [] "field.logging.path"
        runtime_reload
    ∷ logging_level
    ∷ descriptor application "logging.body" boolean true none none [] "field.logging.body"
        runtime_reload
    ∷ descriptor application "logging.redact-sensitive" boolean true none none []
        "field.logging.redact_sensitive" runtime_reload
    ∷ descriptor application "logging.body-limit" unsigned_integer true (some 1) (some gib) []
        "field.logging.body_limit" runtime_reload
    ∷ descriptor application "logging.queue-capacity" unsigned_integer true (some 1) (some gib) []
        "field.logging.queue_capacity" service_restart
    ∷ descriptor application "logging.max-total-size" unsigned_integer true (some 1) (some tib) []
        "field.logging.max_total_size" service_restart
    ∷ descriptor application "logging.flush-interval-ms" unsigned_integer true (some 1) (some 60000)
        [] "field.logging.flush_interval_ms" service_restart
    ∷ []

abbrev pub profile_descriptors : List FieldDescriptor
profile_descriptors =
    descriptor profile "id" text true none none [] "field.profile.id" runtime_reload
    ∷ descriptor profile "enabled" boolean true none none [] "field.profile.enabled" runtime_reload
    ∷ descriptor profile "protocol" enumeration false none none
        (codes "chat" ∷ codes "messages" ∷ codes "responses" ∷ []) "field.profile.protocol"
        runtime_reload
    ∷ descriptor profile "local.request-path" path false none none []
        "field.profile.local_request_path" runtime_reload
    ∷ descriptor profile "local.usage-path" path false none none [] "field.profile.local_usage_path"
        runtime_reload
    ∷ descriptor profile "upstream.base-url" url false none none []
        "field.profile.upstream_base_url" runtime_reload
    ∷ descriptor profile "upstream.request-path" path false none none []
        "field.profile.upstream_request_path" runtime_reload
    ∷ descriptor profile "upstream.usage-path" path false none none []
        "field.profile.upstream_usage_path" runtime_reload
    ∷ []

unfoldable pub find_descriptor : Text → List FieldDescriptor → Option FieldDescriptor
find_descriptor key [] = none
find_descriptor key (d ∷ ds) = if text_eq d.key key then some d else find_descriptor key ds

unfoldable pub find_configuration_field_descriptor : FieldScope → Text → Option FieldDescriptor
find_configuration_field_descriptor application key = find_descriptor key application_descriptors
find_configuration_field_descriptor profile key = find_descriptor key profile_descriptors
