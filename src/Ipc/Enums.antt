-- ===== src/Ipc/Enums.antt =====
-- src/gui_ipc/protocol_types.hpp and protocol_types.cpp: the enumerations of the GUI IPC, with the
-- tables that give them names on the wire.
pub mod Names
use Prim.Native.String.{String}
use mathlib.Core.Logic.{ite}
use text.Mathlib.Text.{◌==◌ as str_eq}
use cc_switch_trans.Common.{
  arith, ◌≡◌, ◌↔◌, Bool, true, false, Option, none, some, List, [], ◌∷◌, if◌then◌else◌,
}

-- `enum_name` and `parse_enum` walk a table of values and names.
module _ {A : Type 0} where
  abbrev pub enum_name : Discrete A → A → List (A × String) → String
  enum_name d value [] = "unknown"
  enum_name d value ((candidate, name) ∷ values) =
      ite (d candidate value) name (enum_name d value values)

  abbrev pub parse_enum : String → List (A × String) → Option A
  parse_enum value [] = none
  parse_enum value ((candidate, name) ∷ values) =
      if str_eq value name then some candidate else parse_enum value values

pub data MessageKind : Type 0 where
  hello hello_result activate shutdown ping pong snapshot_request snapshot state_changed command
        command_status maintenance_request maintenance_result :
      MessageKind

pub data ResultCode : Type 0 where
  accepted succeeded rejected failed cancelled saved_pending_runtime_apply : ResultCode

pub data ErrorCode : Type 0 where
  no_error malformed_frame malformed_message unsupported_protocol version_mismatch source_mismatch
        authentication_failed session_mismatch sequence_rejected revision_stale busy
        invalid_argument profile_not_found profile_already_exists validation_failed route_collision
        repository_stale draft_stale persistence_failed runtime_apply_failed service_unavailable
        unsaved_changes_decision_required migration_required replacement_confirmation_required
        ipc_backpressure disconnected internal :
      ErrorCode

pub data GuiCommand : Type 0 where
  refresh start_service stop_service reload_service quit_application apply_draft discard_draft
        reload_draft select_profile create_profile remove_profile save_profile set_profile_enabled
        move_profile replace_rules_text format_rules_text update_application_fields
        set_lightweight_mode storage_status migrate_storage add_rule remove_rule set_rule_enabled
        move_rule update_rule_options preview_rules :
      GuiCommand

pub data UnsavedDecision : Type 0 where
  apply discard cancel : UnsavedDecision

pub data MaintenanceCommand : Type 0 where
  query_version request_shutdown wait_for_release : MaintenanceCommand

MessageKind-discrete : Discrete MessageKind
MessageKind-discrete = hlevel

abbrev pub message_kinds : List (MessageKind × String)
message_kinds =
    (MessageKind.hello, "hello")
    ∷ (MessageKind.hello_result, "hello_result")
    ∷ (MessageKind.activate, "activate")
    ∷ (MessageKind.shutdown, "shutdown")
    ∷ (MessageKind.ping, "ping")
    ∷ (MessageKind.pong, "pong")
    ∷ (MessageKind.snapshot_request, "snapshot_request")
    ∷ (MessageKind.snapshot, "snapshot")
    ∷ (MessageKind.state_changed, "state_changed")
    ∷ (MessageKind.command, "command")
    ∷ (MessageKind.command_status, "command_status")
    ∷ (MessageKind.maintenance_request, "maintenance_request")
    ∷ (MessageKind.maintenance_result, "maintenance_result")
    ∷ []

unfoldable pub message_kind_name : MessageKind → String
unfolding MessageKind-discrete
message_kind_name value = enum_name MessageKind-discrete value message_kinds

unfoldable pub parse_message_kind : String → Option MessageKind
parse_message_kind value = parse_enum value message_kinds

ResultCode-discrete : Discrete ResultCode
ResultCode-discrete = hlevel

abbrev pub result_codes : List (ResultCode × String)
result_codes =
    (ResultCode.accepted, "accepted")
    ∷ (ResultCode.succeeded, "succeeded")
    ∷ (ResultCode.rejected, "rejected")
    ∷ (ResultCode.failed, "failed")
    ∷ (ResultCode.cancelled, "cancelled")
    ∷ (ResultCode.saved_pending_runtime_apply, "saved_pending_runtime_apply")
    ∷ []

unfoldable pub result_code_name : ResultCode → String
unfolding ResultCode-discrete
result_code_name value = enum_name ResultCode-discrete value result_codes

unfoldable pub parse_result_code : String → Option ResultCode
parse_result_code value = parse_enum value result_codes

ErrorCode-discrete : Discrete ErrorCode
ErrorCode-discrete = hlevel

abbrev pub error_codes : List (ErrorCode × String)
error_codes =
    (ErrorCode.no_error, "none")
    ∷ (ErrorCode.malformed_frame, "malformed_frame")
    ∷ (ErrorCode.malformed_message, "malformed_message")
    ∷ (ErrorCode.unsupported_protocol, "unsupported_protocol")
    ∷ (ErrorCode.version_mismatch, "version_mismatch")
    ∷ (ErrorCode.source_mismatch, "source_mismatch")
    ∷ (ErrorCode.authentication_failed, "authentication_failed")
    ∷ (ErrorCode.session_mismatch, "session_mismatch")
    ∷ (ErrorCode.sequence_rejected, "sequence_rejected")
    ∷ (ErrorCode.revision_stale, "revision_stale")
    ∷ (ErrorCode.busy, "busy")
    ∷ (ErrorCode.invalid_argument, "invalid_argument")
    ∷ (ErrorCode.profile_not_found, "profile_not_found")
    ∷ (ErrorCode.profile_already_exists, "profile_already_exists")
    ∷ (ErrorCode.validation_failed, "validation_failed")
    ∷ (ErrorCode.route_collision, "route_collision")
    ∷ (ErrorCode.repository_stale, "repository_stale")
    ∷ (ErrorCode.draft_stale, "draft_stale")
    ∷ (ErrorCode.persistence_failed, "persistence_failed")
    ∷ (ErrorCode.runtime_apply_failed, "runtime_apply_failed")
    ∷ (ErrorCode.service_unavailable, "service_unavailable")
    ∷ (ErrorCode.unsaved_changes_decision_required, "unsaved_changes_decision_required")
    ∷ (ErrorCode.migration_required, "migration_required")
    ∷ (ErrorCode.replacement_confirmation_required, "replacement_confirmation_required")
    ∷ (ErrorCode.ipc_backpressure, "ipc_backpressure")
    ∷ (ErrorCode.disconnected, "disconnected")
    ∷ (ErrorCode.internal, "internal")
    ∷ []

unfoldable pub error_code_name : ErrorCode → String
unfolding ErrorCode-discrete
error_code_name value = enum_name ErrorCode-discrete value error_codes

unfoldable pub parse_error_code : String → Option ErrorCode
parse_error_code value = parse_enum value error_codes

GuiCommand-discrete : Discrete GuiCommand
GuiCommand-discrete = hlevel

abbrev pub gui_commands : List (GuiCommand × String)
gui_commands =
    (GuiCommand.refresh, "refresh")
    ∷ (GuiCommand.start_service, "start")
    ∷ (GuiCommand.stop_service, "stop")
    ∷ (GuiCommand.reload_service, "reload")
    ∷ (GuiCommand.quit_application, "quit_application")
    ∷ (GuiCommand.apply_draft, "apply")
    ∷ (GuiCommand.discard_draft, "discard")
    ∷ (GuiCommand.reload_draft, "reload_draft")
    ∷ (GuiCommand.select_profile, "select")
    ∷ (GuiCommand.create_profile, "create")
    ∷ (GuiCommand.remove_profile, "remove")
    ∷ (GuiCommand.save_profile, "save")
    ∷ (GuiCommand.set_profile_enabled, "set_enabled")
    ∷ (GuiCommand.move_profile, "move")
    ∷ (GuiCommand.replace_rules_text, "replace_text")
    ∷ (GuiCommand.format_rules_text, "format_text")
    ∷ (GuiCommand.update_application_fields, "update_application_fields")
    ∷ (GuiCommand.set_lightweight_mode, "set_lightweight_mode")
    ∷ (GuiCommand.storage_status, "storage_status")
    ∷ (GuiCommand.migrate_storage, "migrate")
    ∷ (GuiCommand.add_rule, "add_rule")
    ∷ (GuiCommand.remove_rule, "remove_rule")
    ∷ (GuiCommand.set_rule_enabled, "set_rule_enabled")
    ∷ (GuiCommand.move_rule, "move_rule")
    ∷ (GuiCommand.update_rule_options, "update_rule_options")
    ∷ (GuiCommand.preview_rules, "preview_rules")
    ∷ []

unfoldable pub gui_command_name : GuiCommand → String
unfolding GuiCommand-discrete
gui_command_name value = enum_name GuiCommand-discrete value gui_commands

unfoldable pub parse_gui_command : String → Option GuiCommand
parse_gui_command value = parse_enum value gui_commands

UnsavedDecision-discrete : Discrete UnsavedDecision
UnsavedDecision-discrete = hlevel

abbrev pub unsaved_decisions : List (UnsavedDecision × String)
unsaved_decisions =
    (UnsavedDecision.apply, "apply")
    ∷ (UnsavedDecision.discard, "discard")
    ∷ (UnsavedDecision.cancel, "cancel")
    ∷ []

unfoldable pub unsaved_decision_name : UnsavedDecision → String
unfolding UnsavedDecision-discrete
unsaved_decision_name value = enum_name UnsavedDecision-discrete value unsaved_decisions

unfoldable pub parse_unsaved_decision : String → Option UnsavedDecision
parse_unsaved_decision value = parse_enum value unsaved_decisions

MaintenanceCommand-discrete : Discrete MaintenanceCommand
MaintenanceCommand-discrete = hlevel

abbrev pub maintenance_commands : List (MaintenanceCommand × String)
maintenance_commands =
    (MaintenanceCommand.query_version, "query_version")
    ∷ (MaintenanceCommand.request_shutdown, "request_shutdown")
    ∷ (MaintenanceCommand.wait_for_release, "wait_for_release")
    ∷ []

unfoldable pub maintenance_command_name : MaintenanceCommand → String
unfolding MaintenanceCommand-discrete
maintenance_command_name value = enum_name MaintenanceCommand-discrete value maintenance_commands

unfoldable pub parse_maintenance_command : String → Option MaintenanceCommand
parse_maintenance_command value = parse_enum value maintenance_commands

-- kind == MessageKind::…
unfoldable pub kind_is : MessageKind → MessageKind → Bool
unfolding MessageKind-discrete
kind_is a b = elim (MessageKind-discrete a b) [ yes _ ↦ true | no _ ↦ false ]

pub kind_is_iff : (a b : MessageKind) → (kind_is a b ≡ true) ↔ (a ≡ b)
unfolding kind_is
kind_is_iff a b = elim (MessageKind-discrete a b) [
  | yes h ↦ (λ _. h, λ _. ground arith)
  | no h ↦ ground arith
]
