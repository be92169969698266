-- ===== src/Ipc/Messages.antt =====
-- src/gui_ipc/protocol_types.hpp and protocol_types.cpp: the messages of the GUI IPC as records,
-- and the checks that every envelope passes.
use cc_switch_trans.Common.{
  ℕ, Bool, true, false, not, ◌&&◌, ◌||◌, Option, none, some, List, Text, ℤ, codes, text_eq, empty?,
  ◌==◌, if◌then◌else◌,
}
use cc_switch_trans.Ipc.Enums.{MessageKind, ResultCode, ErrorCode, kind_is}

-- FieldValue, a std::variant
pub data FieldValue : Type 0 where
  text : Text → FieldValue
  number : ℕ → FieldValue
  flag : Bool → FieldValue

pub record Envelope : Type 0 where
  pub protocol : Text
  pub kind : MessageKind
  pub request_id : Text
  pub session_id : Text
  pub sequence : ℕ
  pub base_revision : Text
  pub source_commit : Text
  pub result : Option ResultCode
  pub error_code : Option ErrorCode
  pub payload_json : Text

pub record Hello : Type 0 where
  pub version : Text
  pub source_commit : Text
  pub instance_identity : Text
  pub handshake_token : Text
  pub process_id : ℕ

-- The texts that `validate_envelope` leaves in `error`.
pub data EnvelopeError : Type 0 where
  unsupported_ipc_protocol empty_request_id empty_payload_json hello_claims_session empty_session_id
        zero_sequence missing_result :
      EnvelopeError

-- The texts of the `detail` of a session's answers.
pub data SessionDetail : Type 0 where
  no_detail first_message_must_be_hello handshake_already_consumed versions_do_not_match
        source_commits_do_not_match instance_does_not_match token_is_invalid process_does_not_match
        hello_not_completed unsupported_gui_ipc_protocol source_commit_changed
        session_id_does_not_match sequence_is_stale sequence_has_gap :
      SessionDetail
  envelope_detail : EnvelopeError → SessionDetail

pub record HelloResult : Type 0 where
  pub accepted : Bool
  pub version : Text
  pub source_commit : Text
  pub session_id : Text
  pub state_revision : ℕ
  pub error : ErrorCode
  pub detail : SessionDetail

pub record ApplicationStatus : Type 0 where
  pub state : Text
  pub listener_host : Text
  pub listener_port : ℕ
  pub last_error : Text
  pub last_exit_code : ℤ

pub record StorageStatus : Type 0 where
  pub state : Text
  pub database_exists : Bool
  pub detail : Text
  pub database_path : Text
  pub backup_directory : Text

pub record FieldState : Type 0 where
  pub key : Text
  pub scope : Text
  pub input_kind : Text
  pub required : Bool
  pub minimum : Option ℕ
  pub maximum : Option ℕ
  pub enum_values : List Text
  pub display_name_key : Text
  pub apply_impact : Text
  pub value : Option FieldValue

pub record ProfileSummary : Type 0 where
  pub key : ℤ
  pub id : Text
  pub enabled : Bool
  pub protocol : Option Text
  pub readiness : Text
  pub status_detail : Text
  pub rule_count : ℕ
  pub enabled_rule_count : ℕ

pub record ProfileEditor : Type 0 where
  pub key : ℤ
  pub profile_id : Text
  pub fields : List FieldState

pub record RulesDiagnostic : Type 0 where
  pub message : Text
  pub line : ℕ
  pub column : ℕ
  pub rule_id : Text
  pub rule_type : Text
  pub option : Text

pub record RulesEditor : Type 0 where
  pub profile_key : ℤ
  pub profile_id : Text
  pub text : Text
  pub diagnostic : Option RulesDiagnostic

pub record DraftStatus : Type 0 where
  pub phase : Text
  pub runtime_apply_pending : Bool
  pub revision : ℕ
  pub base_revision : Text

pub record CommandStatus : Type 0 where
  pub sequence : ℕ
  pub command : Text
  pub outcome : ResultCode
  pub error : ErrorCode
  pub profile_id : Text
  pub field : Text
  pub detail : Text
  pub recovery_command : Option Text

pub record Selection : Type 0 where
  pub profile_id : Option Text
  pub profile_key : Option ℤ

pub record Snapshot : Type 0 where
  pub revision : ℕ
  pub application : ApplicationStatus
  pub profiles : List ProfileSummary
  pub application_fields : List FieldState
  pub selection : Selection
  pub profile_editor : Option ProfileEditor
  pub rules_editor : Option RulesEditor
  pub draft : DraftStatus
  pub last_command : Option CommandStatus
  pub storage : StorageStatus
  pub lightweight_mode : Bool
  pub command_pending : Bool

pub record StateDelta : Type 0 where
  pub from_revision : ℕ
  pub revision : ℕ
  pub application : Option ApplicationStatus
  pub profiles : Option (List ProfileSummary)
  pub application_fields : Option (List FieldState)
  pub selection : Option Selection
  pub profile_editor_changed : Bool
  pub profile_editor : Option ProfileEditor
  pub rules_editor_changed : Bool
  pub rules_editor : Option RulesEditor
  pub draft : Option DraftStatus
  pub last_command_changed : Bool
  pub last_command : Option CommandStatus
  pub storage : Option StorageStatus
  pub lightweight_mode : Option Bool
  pub command_pending : Option Bool

abbrev pub has_value {ℓ} : {A : Type ℓ} → Option A → Bool
has_value none = false
has_value (some a) = true

-- kProtocol and kMaintenanceProtocol
abbrev pub protocol_v1 : Text
protocol_v1 = codes "ccs-trans.gui-ipc/v1"

abbrev maintenance_protocol_v1 : Text
maintenance_protocol_v1 = codes "ccs-trans.maintenance-ipc/v1"

-- `none` for `return true`
unfoldable pub validate_envelope : Envelope → Option EnvelopeError
unfolding kind_is
validate_envelope e =
    let maintenance =
      kind_is e.kind MessageKind.maintenance_request
      || kind_is e.kind MessageKind.maintenance_result in
    let expected = if maintenance then maintenance_protocol_v1 else protocol_v1 in
    if not (text_eq e.protocol expected)
    then some unsupported_ipc_protocol
    else if empty? e.request_id
    then some empty_request_id
    else if empty? e.payload_json
    then some empty_payload_json
    else if kind_is e.kind MessageKind.hello
    then (if not (empty? e.session_id) || not (e.sequence == 0)
        then some hello_claims_session
        else none)
    else if empty? e.session_id
    then some empty_session_id
    else if not (kind_is e.kind MessageKind.hello_result) && (e.sequence == 0)
    then some zero_sequence
    else if (kind_is e.kind MessageKind.hello_result
          || kind_is e.kind MessageKind.command_status
          || kind_is e.kind MessageKind.maintenance_result)
        && not (has_value e.result)
    then some missing_result
    else none

-- StateDelta::empty
unfoldable pub is_empty : StateDelta → Bool
is_empty d =
    not (has_value d.application)
    && not (has_value d.profiles)
    && not (has_value d.application_fields)
    && not (has_value d.selection)
    && not d.profile_editor_changed
    && not d.rules_editor_changed
    && not (has_value d.draft)
    && not d.last_command_changed
    && not (has_value d.storage)
    && not (has_value d.lightweight_mode)
    && not (has_value d.command_pending)
