-- ===== src/Ipc/Enums/Names.antt =====
-- The wire names of src/gui_ipc/protocol_types.cpp: each table is a bijection between its
-- enumeration and its names.
use Prim.Native.String.{String}
use text.Mathlib.Text.{◌==◌ as str_eq}
use text.Mathlib.TextEquality.{eq_iff}
use cc_switch_trans.Common.{◌≡◌, refl, ◌↔◌, Bool, true, some, List, [], ◌∷◌, all, arith, subst}
use cc_switch_trans.Ipc.Enums.{
  parse_enum, MessageKind, ResultCode, ErrorCode, GuiCommand, UnsavedDecision, MaintenanceCommand,
  message_kind_name, result_code_name, error_code_name, gui_command_name, unsaved_decision_name,
  maintenance_command_name, parse_message_kind, parse_result_code, parse_error_code,
  parse_gui_command, parse_unsaved_decision, parse_maintenance_command, message_kinds, result_codes,
  error_codes, gui_commands, unsaved_decisions, maintenance_commands,
}

-- Every row of the table is the first one of its value.
abbrev consistent : {A : Type 0} → (A → String) → List (A × String) → Bool
consistent name = all (λ row. str_eq (name row.0) row.1)

parse_enum-name :
    {A : Type 0} (name : A → String) (rows : List (A × String)) (s : String) (v : A)
    → consistent name rows ≡ true
    → parse_enum s rows ≡ some v
    → name v ≡ s
parse_enum-name name [] s v c h = cc
parse_enum-name name ((w, n) ∷ rows) s v c h =
    ground (arith, eq_iff s n, eq_iff (name w) n, parse_enum-name name rows s v)

parse-message_kind_name : (v : MessageKind) → parse_message_kind (message_kind_name v) ≡ some v
unfolding parse_message_kind message_kind_name
parse-message_kind_name MessageKind.hello = refl
parse-message_kind_name MessageKind.hello_result = refl
parse-message_kind_name MessageKind.activate = refl
parse-message_kind_name MessageKind.shutdown = refl
parse-message_kind_name MessageKind.ping = refl
parse-message_kind_name MessageKind.pong = refl
parse-message_kind_name MessageKind.snapshot_request = refl
parse-message_kind_name MessageKind.snapshot = refl
parse-message_kind_name MessageKind.state_changed = refl
parse-message_kind_name MessageKind.command = refl
parse-message_kind_name MessageKind.command_status = refl
parse-message_kind_name MessageKind.maintenance_request = refl
parse-message_kind_name MessageKind.maintenance_result = refl

message_kind_wire :
    (s : String) (v : MessageKind) → (parse_message_kind s ≡ some v) ↔ (message_kind_name v ≡ s)
unfolding parse_message_kind
message_kind_wire s v = (
  parse_enum-name message_kind_name message_kinds s v (unfold message_kind_name in refl),
  λ h. subst (λ (t : String). parse_message_kind t ≡ some v) h (parse-message_kind_name v),
)

parse-result_code_name : (v : ResultCode) → parse_result_code (result_code_name v) ≡ some v
unfolding parse_result_code result_code_name
parse-result_code_name ResultCode.accepted = refl
parse-result_code_name ResultCode.succeeded = refl
parse-result_code_name ResultCode.rejected = refl
parse-result_code_name ResultCode.failed = refl
parse-result_code_name ResultCode.cancelled = refl
parse-result_code_name ResultCode.saved_pending_runtime_apply = refl

result_code_wire :
    (s : String) (v : ResultCode) → (parse_result_code s ≡ some v) ↔ (result_code_name v ≡ s)
unfolding parse_result_code
result_code_wire s v = (
  parse_enum-name result_code_name result_codes s v (unfold result_code_name in refl),
  λ h. subst (λ (t : String). parse_result_code t ≡ some v) h (parse-result_code_name v),
)

parse-error_code_name : (v : ErrorCode) → parse_error_code (error_code_name v) ≡ some v
unfolding parse_error_code error_code_name
parse-error_code_name ErrorCode.no_error = refl
parse-error_code_name ErrorCode.malformed_frame = refl
parse-error_code_name ErrorCode.malformed_message = refl
parse-error_code_name ErrorCode.unsupported_protocol = refl
parse-error_code_name ErrorCode.version_mismatch = refl
parse-error_code_name ErrorCode.source_mismatch = refl
parse-error_code_name ErrorCode.authentication_failed = refl
parse-error_code_name ErrorCode.session_mismatch = refl
parse-error_code_name ErrorCode.sequence_rejected = refl
parse-error_code_name ErrorCode.revision_stale = refl
parse-error_code_name ErrorCode.busy = refl
parse-error_code_name ErrorCode.invalid_argument = refl
parse-error_code_name ErrorCode.profile_not_found = refl
parse-error_code_name ErrorCode.profile_already_exists = refl
parse-error_code_name ErrorCode.validation_failed = refl
parse-error_code_name ErrorCode.route_collision = refl
parse-error_code_name ErrorCode.repository_stale = refl
parse-error_code_name ErrorCode.draft_stale = refl
parse-error_code_name ErrorCode.persistence_failed = refl
parse-error_code_name ErrorCode.runtime_apply_failed = refl
parse-error_code_name ErrorCode.service_unavailable = refl
parse-error_code_name ErrorCode.unsaved_changes_decision_required = refl
parse-error_code_name ErrorCode.migration_required = refl
parse-error_code_name ErrorCode.replacement_confirmation_required = refl
parse-error_code_name ErrorCode.ipc_backpressure = refl
parse-error_code_name ErrorCode.disconnected = refl
parse-error_code_name ErrorCode.internal = refl

error_code_wire :
    (s : String) (v : ErrorCode) → (parse_error_code s ≡ some v) ↔ (error_code_name v ≡ s)
unfolding parse_error_code
error_code_wire s v = (
  parse_enum-name error_code_name error_codes s v (unfold error_code_name in refl),
  λ h. subst (λ (t : String). parse_error_code t ≡ some v) h (parse-error_code_name v),
)

parse-gui_command_name : (v : GuiCommand) → parse_gui_command (gui_command_name v) ≡ some v
unfolding parse_gui_command gui_command_name
parse-gui_command_name GuiCommand.refresh = refl
parse-gui_command_name GuiCommand.start_service = refl
parse-gui_command_name GuiCommand.stop_service = refl
parse-gui_command_name GuiCommand.reload_service = refl
parse-gui_command_name GuiCommand.quit_application = refl
parse-gui_command_name GuiCommand.apply_draft = refl
parse-gui_command_name GuiCommand.discard_draft = refl
parse-gui_command_name GuiCommand.reload_draft = refl
parse-gui_command_name GuiCommand.select_profile = refl
parse-gui_command_name GuiCommand.create_profile = refl
parse-gui_command_name GuiCommand.remove_profile = refl
parse-gui_command_name GuiCommand.save_profile = refl
parse-gui_command_name GuiCommand.set_profile_enabled = refl
parse-gui_command_name GuiCommand.move_profile = refl
parse-gui_command_name GuiCommand.replace_rules_text = refl
parse-gui_command_name GuiCommand.format_rules_text = refl
parse-gui_command_name GuiCommand.update_application_fields = refl
parse-gui_command_name GuiCommand.set_lightweight_mode = refl
parse-gui_command_name GuiCommand.storage_status = refl
parse-gui_command_name GuiCommand.migrate_storage = refl
parse-gui_command_name GuiCommand.add_rule = refl
parse-gui_command_name GuiCommand.remove_rule = refl
parse-gui_command_name GuiCommand.set_rule_enabled = refl
parse-gui_command_name GuiCommand.move_rule = refl
parse-gui_command_name GuiCommand.update_rule_options = refl
parse-gui_command_name GuiCommand.preview_rules = refl

gui_command_wire :
    (s : String) (v : GuiCommand) → (parse_gui_command s ≡ some v) ↔ (gui_command_name v ≡ s)
unfolding parse_gui_command
gui_command_wire s v = (
  parse_enum-name gui_command_name gui_commands s v (unfold gui_command_name in refl),
  λ h. subst (λ (t : String). parse_gui_command t ≡ some v) h (parse-gui_command_name v),
)

parse-unsaved_decision_name :
    (v : UnsavedDecision) → parse_unsaved_decision (unsaved_decision_name v) ≡ some v
unfolding parse_unsaved_decision unsaved_decision_name
parse-unsaved_decision_name UnsavedDecision.apply = refl
parse-unsaved_decision_name UnsavedDecision.discard = refl
parse-unsaved_decision_name UnsavedDecision.cancel = refl

unsaved_decision_wire :
    (s : String) (v : UnsavedDecision)
    → (parse_unsaved_decision s ≡ some v) ↔ (unsaved_decision_name v ≡ s)
unfolding parse_unsaved_decision
unsaved_decision_wire s v = (
  parse_enum-name unsaved_decision_name unsaved_decisions s v
      (unfold unsaved_decision_name in refl),
  λ h. subst (λ (t : String). parse_unsaved_decision t ≡ some v) h (parse-unsaved_decision_name v),
)

parse-maintenance_command_name :
    (v : MaintenanceCommand) → parse_maintenance_command (maintenance_command_name v) ≡ some v
unfolding parse_maintenance_command maintenance_command_name
parse-maintenance_command_name MaintenanceCommand.query_version = refl
parse-maintenance_command_name MaintenanceCommand.request_shutdown = refl
parse-maintenance_command_name MaintenanceCommand.wait_for_release = refl

maintenance_command_wire :
    (s : String) (v : MaintenanceCommand)
    → (parse_maintenance_command s ≡ some v) ↔ (maintenance_command_name v ≡ s)
unfolding parse_maintenance_command
maintenance_command_wire s v = (
  parse_enum-name maintenance_command_name maintenance_commands s v
      (unfold maintenance_command_name in refl),
  λ h.
      subst (λ (t : String). parse_maintenance_command t ≡ some v) h
        (parse-maintenance_command_name v),
)

-- For each of the six enumerations a text parses to a value exactly if it is the name of that value.
-- So parsing inverts naming, no two values share a name, and any other text is refused.
pub wire_names :
    (s : String) (k : MessageKind) (r : ResultCode) (e : ErrorCode) (g : GuiCommand)
    (u : UnsavedDecision) (m : MaintenanceCommand)
    → ((parse_message_kind s ≡ some k) ↔ (message_kind_name k ≡ s))
      × ((parse_result_code s ≡ some r) ↔ (result_code_name r ≡ s))
      × ((parse_error_code s ≡ some e) ↔ (error_code_name e ≡ s))
      × ((parse_gui_command s ≡ some g) ↔ (gui_command_name g ≡ s))
      × ((parse_unsaved_decision s ≡ some u) ↔ (unsaved_decision_name u ≡ s))
      × ((parse_maintenance_command s ≡ some m) ↔ (maintenance_command_name m ≡ s))
wire_names s k r e g u m = (
  message_kind_wire s k,
  result_code_wire s r,
  error_code_wire s e,
  gui_command_wire s g,
  unsaved_decision_wire s u,
  maintenance_command_wire s m,
)
