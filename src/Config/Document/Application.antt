-- ===== src/Config/Document/Application.antt =====
-- `validate_application_settings_impl` of src/config/config_document.cpp. What the standard library
-- says of `logging.path` as a file name is a function into Bool, true where it is refused.
use cc_switch_trans.Common.{
  ℕ, ◌+◌, ◌*◌, Bool, true, not, ◌||◌, Option, none, some, List, [], ◌∷◌, String, Text, codes,
  text_eq, length, empty?, any, ltb, ◌==◌, ℤ, pos, negsuc, is_negative, if◌then◌else◌,
}
use cc_switch_trans.Core.HeaderFilter.{is_space}
use cc_switch_trans.Config.Settings.{ApplicationSettings}
use cc_switch_trans.Config.Fields.{mib, gib}
use cc_switch_trans.Config.Document.{Failure}
use cc_switch_trans.Config.Document.Options.{contains_control}

pub data SettingError : Type 0 where
  bad_host bad_port bad_worker_threads bad_max_connections bad_body_size : SettingError
  bad_inflight_bytes bad_metrics_interval bad_timeout bad_level bad_log_path : SettingError
  bad_log_size bad_total_size total_size_too_small : SettingError

-- The first check that refuses.
infixr 5 ◌>>◌
abbrev pub ◌>>◌ {ℓ} : {E : Type ℓ} → Option E → Option E → Option E
none >> b = b
some e >> b = some e

-- reject_field
abbrev pub reject_if : {Reason : Type 0} → Bool → String → Reason → Option (Failure Reason)
reject_if bad field reason = if bad then some (record { field = field; reason = reason }) else none

-- A number outside 1 … maximum.
unfoldable pub out_of_range : ℕ → ℕ → Bool
out_of_range maximum n = (n == 0) || ltb maximum n

-- i <= 0
unfoldable pub not_positive : ℤ → Bool
not_positive (pos n) = n == 0
not_positive (negsuc n) = true

abbrev pub levels : List Text
levels = codes "trace" ∷ codes "debug" ∷ codes "info" ∷ codes "warn" ∷ codes "error" ∷ []

-- std::max; the product and the sum of 64-bit numbers are below 2^64 for a body limit that passed.
unfoldable pub minimum_total_size : ApplicationSettings → ℕ
minimum_total_size s =
    let buffered = s.logging.body_limit * 6 + mib in
    if ltb s.logging.queue_capacity buffered then buffered else s.logging.queue_capacity

module _ (log_path_error : Text → Bool) where
  unfoldable pub validate_application_settings : ApplicationSettings → Option (Failure SettingError)
  validate_application_settings s = do
    reject_if
        (empty? s.listener.host
          || ltb 255 (length s.listener.host)
          || contains_control s.listener.host
          || any is_space s.listener.host)
        "listener.host" bad_host
    reject_if (s.listener.port == 0) "listener.port" bad_port
    reject_if (out_of_range 1024 s.runtime.worker_threads) "runtime.worker-threads"
        bad_worker_threads
    reject_if
        (ltb s.runtime.max_connections s.runtime.worker_threads
          || ltb 65535 s.runtime.max_connections)
        "runtime.max-connections" bad_max_connections
    reject_if (out_of_range gib s.runtime.max_request_body_size) "runtime.max-request-body-size"
        bad_body_size
    reject_if (out_of_range gib s.runtime.max_response_body_size) "runtime.max-response-body-size"
        bad_body_size
    reject_if (ltb s.runtime.max_inflight_bytes mib || ltb (64 * gib) s.runtime.max_inflight_bytes)
        "runtime.max-inflight-bytes" bad_inflight_bytes
    reject_if (ltb 2147483647 s.runtime.metrics_interval_ms) "runtime.metrics-interval-ms"
        bad_metrics_interval
    reject_if (not_positive s.timeouts.resolve_ms) "timeouts.resolve-ms" bad_timeout
    reject_if (not_positive s.timeouts.connect_ms) "timeouts.connect-ms" bad_timeout
    reject_if (not_positive s.timeouts.send_ms) "timeouts.send-ms" bad_timeout
    reject_if (not_positive s.timeouts.response_header_ms) "timeouts.response-header-ms" bad_timeout
    reject_if (not_positive s.timeouts.stream_idle_ms) "timeouts.stream-idle-ms" bad_timeout
    reject_if (is_negative s.timeouts.total_ms) "timeouts.total-ms" bad_timeout
    reject_if (not (any (text_eq s.logging.level) levels)) "logging.level" bad_level
    reject_if
        (empty? s.logging.path
          || ltb 32768 (length s.logging.path)
          || contains_control s.logging.path)
        "logging.path" bad_log_path
    reject_if (log_path_error s.logging.path) "logging.path" bad_log_path
    reject_if (out_of_range gib s.logging.body_limit) "logging.body-limit" bad_log_size
    reject_if (out_of_range gib s.logging.queue_capacity) "logging.queue-capacity" bad_log_size
    reject_if (out_of_range 60000 s.logging.flush_interval_ms) "logging.flush-interval-ms"
        bad_log_size
    reject_if (out_of_range (1024 * gib) s.logging.max_total_size) "logging.max-total-size"
        bad_total_size
    reject_if (ltb s.logging.max_total_size (minimum_total_size s)) "logging.max-total-size"
        total_size_too_small
