-- ===== src/Config/Settings.antt =====
-- The application settings (src/config/application_settings.hpp, src/core/timeouts.hpp) and their
-- fields by key (src/config/field_descriptor.cpp). `int` is a 32-bit integer.
pub mod Access
pub mod Parsed
use cc_switch_trans.Common.{
  ℕ, ◌+◌, ◌-◌, ◌*◌, ◌%◌, ◌^◌, Bool, true, false, not, Option, none, some, List, [], ◌∷◌, Text,
  codes, text_eq, ltb, ℤ, pos, negsuc, if◌then◌else◌,
}
use cc_switch_trans.Config.Fields.{
  FieldDescriptor, FieldScope, application, scope_eq, FieldValue, string, number, truth, FieldError,
  wrong_scope, unsupported_field, bad_variant_access, Checked, fine, wrong, validate_typed_value,
  mib, gib,
}

pub record ListenerSettings : Type 0 where
  pub host : Text
  pub port : ℕ

pub record RuntimeSettings : Type 0 where
  pub worker_threads : ℕ
  pub max_connections : ℕ
  pub max_request_body_size : ℕ
  pub max_response_body_size : ℕ
  pub max_inflight_bytes : ℕ
  pub metrics_interval_ms : ℕ

pub record TimeoutConfig : Type 0 where
  pub resolve_ms : ℤ
  pub connect_ms : ℤ
  pub send_ms : ℤ
  pub response_header_ms : ℤ
  pub stream_idle_ms : ℤ
  pub total_ms : ℤ

pub record LoggingSettings : Type 0 where
  pub path : Text
  pub level : Text
  pub body : Bool
  pub redact_sensitive : Bool
  pub body_limit : ℕ
  pub queue_capacity : ℕ
  pub max_total_size : ℕ
  pub flush_interval_ms : ℕ

pub record ApplicationSettings : Type 0 where
  pub listener : ListenerSettings
  pub runtime : RuntimeSettings
  pub timeouts : TimeoutConfig
  pub logging : LoggingSettings

-- What the members are initialised with.
abbrev pub default_settings : ApplicationSettings
default_settings = record {
  listener = record { host = codes "127.0.0.1"; port = 15723 };
  runtime = record {
    worker_threads = 32;
    max_connections = 64;
    max_request_body_size = 100 * mib;
    max_response_body_size = 100 * mib;
    max_inflight_bytes = 512 * mib;
    metrics_interval_ms = 0;
  };
  timeouts = record {
    resolve_ms = pos 300000;
    connect_ms = pos 300000;
    send_ms = pos 300000;
    response_header_ms = pos 300000;
    stream_idle_ms = pos 300000;
    total_ms = pos 0;
  };
  logging = record {
    path = codes "logs/ccs-trans.log";
    level = codes "info";
    body = true;
    redact_sensitive = false;
    body_limit = mib;
    queue_capacity = 16 * mib;
    max_total_size = 2 * gib;
    flush_interval_ms = 100;
  };
}

-- static_cast<int>(n), and static_cast<std::uint64_t>(i)
abbrev to_int : ℕ → ℤ
to_int n = if ltb (n % 2 ^ 32) (2 ^ 31) then pos (n % 2 ^ 32) else negsuc (2 ^ 32 - 1 - n % 2 ^ 32)

abbrev to_u64 : ℤ → ℕ
to_u64 (pos n) = n
to_u64 (negsuc n) = 2 ^ 64 - 1 - n

-- std::get, and what is done with its result.
abbrev as_text : FieldValue → (Text → ApplicationSettings) → Checked ApplicationSettings
as_text (string t) f = fine (f t)
as_text _ f = wrong bad_variant_access

abbrev as_number : FieldValue → (ℕ → ApplicationSettings) → Checked ApplicationSettings
as_number (number n) f = fine (f n)
as_number _ f = wrong bad_variant_access

abbrev as_truth : FieldValue → (Bool → ApplicationSettings) → Checked ApplicationSettings
as_truth (truth b) f = fine (f b)
as_truth _ f = wrong bad_variant_access

unfoldable pub write_application_field :
    ApplicationSettings → Text → FieldValue → Checked ApplicationSettings
write_application_field s key value =
    if text_eq key (codes "listener.host")
    then as_text value (λ x. record s { listener = record s.listener { host = x } })
    else if text_eq key (codes "listener.port")
    then as_number value (λ x. record s { listener = record s.listener { port = x % 2 ^ 16 } })
    else if text_eq key (codes "runtime.worker-threads")
    then as_number value
        (λ x. record s { runtime = record s.runtime { worker_threads = x % 2 ^ 32 } })
    else if text_eq key (codes "runtime.max-connections")
    then as_number value
        (λ x. record s { runtime = record s.runtime { max_connections = x % 2 ^ 32 } })
    else if text_eq key (codes "runtime.max-request-body-size")
    then as_number value
        (λ x. record s { runtime = record s.runtime { max_request_body_size = x } })
    else if text_eq key (codes "runtime.max-response-body-size")
    then as_number value
        (λ x. record s { runtime = record s.runtime { max_response_body_size = x } })
    else if text_eq key (codes "runtime.max-inflight-bytes")
    then as_number value (λ x. record s { runtime = record s.runtime { max_inflight_bytes = x } })
    else if text_eq key (codes "runtime.metrics-interval-ms")
    then as_number value
        (λ x. record s { runtime = record s.runtime { metrics_interval_ms = x % 2 ^ 32 } })
    else if text_eq key (codes "timeouts.resolve-ms")
    then as_number value (λ x. record s { timeouts = record s.timeouts { resolve_ms = to_int x } })
    else if text_eq key (codes "timeouts.connect-ms")
    then as_number value (λ x. record s { timeouts = record s.timeouts { connect_ms = to_int x } })
    else if text_eq key (codes "timeouts.send-ms")
    then as_number value (λ x. record s { timeouts = record s.timeouts { send_ms = to_int x } })
    else if text_eq key (codes "timeouts.response-header-ms")
    then as_number value
        (λ x. record s { timeouts = record s.timeouts { response_header_ms = to_int x } })
    else if text_eq key (codes "timeouts.stream-idle-ms")
    then as_number value
        (λ x. record s { timeouts = record s.timeouts { stream_idle_ms = to_int x } })
    else if text_eq key (codes "timeouts.total-ms")
    then as_number value (λ x. record s { timeouts = record s.timeouts { total_ms = to_int x } })
    else if text_eq key (codes "logging.path")
    then as_text value (λ x. record s { logging = record s.logging { path = x } })
    else if text_eq key (codes "logging.level")
    then as_text value (λ x. record s { logging = record s.logging { level = x } })
    else if text_eq key (codes "logging.body")
    then as_truth value (λ x. record s { logging = record s.logging { body = x } })
    else if text_eq key (codes "logging.redact-sensitive")
    then as_truth value (λ x. record s { logging = record s.logging { redact_sensitive = x } })
    else if text_eq key (codes "logging.body-limit")
    then as_number value (λ x. record s { logging = record s.logging { body_limit = x } })
    else if text_eq key (codes "logging.queue-capacity")
    then as_number value (λ x. record s { logging = record s.logging { queue_capacity = x } })
    else if text_eq key (codes "logging.max-total-size")
    then as_number value (λ x. record s { logging = record s.logging { max_total_size = x } })
    else if text_eq key (codes "logging.flush-interval-ms")
    then as_number value
        (λ x. record s { logging = record s.logging { flush_interval_ms = x % 2 ^ 32 } })
    else wrong unsupported_field

unfoldable pub apply_application_field :
    ApplicationSettings → FieldDescriptor → FieldValue → Checked ApplicationSettings
apply_application_field s d value =
    if not (scope_eq d.scope application)
    then wrong wrong_scope
    else elim (validate_typed_value d value) [
      | some e ↦ wrong e
      | none ↦ write_application_field s d.key value
    ]

unfoldable pub field_value : ApplicationSettings → Text → Checked FieldValue
field_value s key =
    if text_eq key (codes "listener.host")
    then fine (string s.listener.host)
    else if text_eq key (codes "listener.port")
    then fine (number s.listener.port)
    else if text_eq key (codes "runtime.worker-threads")
    then fine (number s.runtime.worker_threads)
    else if text_eq key (codes "runtime.max-connections")
    then fine (number s.runtime.max_connections)
    else if text_eq key (codes "runtime.max-request-body-size")
    then fine (number s.runtime.max_request_body_size)
    else if text_eq key (codes "runtime.max-response-body-size")
    then fine (number s.runtime.max_response_body_size)
    else if text_eq key (codes "runtime.max-inflight-bytes")
    then fine (number s.runtime.max_inflight_bytes)
    else if text_eq key (codes "runtime.metrics-interval-ms")
    then fine (number s.runtime.metrics_interval_ms)
    else if text_eq key (codes "timeouts.resolve-ms")
    then fine (number (to_u64 s.timeouts.resolve_ms))
    else if text_eq key (codes "timeouts.connect-ms")
    then fine (number (to_u64 s.timeouts.connect_ms))
    else if text_eq key (codes "timeouts.send-ms")
    then fine (number (to_u64 s.timeouts.send_ms))
    else if text_eq key (codes "timeouts.response-header-ms")
    then fine (number (to_u64 s.timeouts.response_header_ms))
    else if text_eq key (codes "timeouts.stream-idle-ms")
    then fine (number (to_u64 s.timeouts.stream_idle_ms))
    else if text_eq key (codes "timeouts.total-ms")
    then fine (number (to_u64 s.timeouts.total_ms))
    else if text_eq key (codes "logging.path")
    then fine (string s.logging.path)
    else if text_eq key (codes "logging.level")
    then fine (string s.logging.level)
    else if text_eq key (codes "logging.body")
    then fine (truth s.logging.body)
    else if text_eq key (codes "logging.redact-sensitive")
    then fine (truth s.logging.redact_sensitive)
    else if text_eq key (codes "logging.body-limit")
    then fine (number s.logging.body_limit)
    else if text_eq key (codes "logging.queue-capacity")
    then fine (number s.logging.queue_capacity)
    else if text_eq key (codes "logging.max-total-size")
    then fine (number s.logging.max_total_size)
    else if text_eq key (codes "logging.flush-interval-ms")
    then fine (number s.logging.flush_interval_ms)
    else wrong unsupported_field

unfoldable pub read_application_field : ApplicationSettings → FieldDescriptor → Checked FieldValue
read_application_field s d =
    if not (scope_eq d.scope application) then wrong wrong_scope else field_value s d.key

unfoldable pub reset_application_field :
    ApplicationSettings → FieldDescriptor → Checked ApplicationSettings
reset_application_field s d = elim (field_value default_settings d.key) [
  | wrong e ↦ wrong e
  | fine value ↦ apply_application_field s d value
]
