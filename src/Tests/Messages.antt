-- ===== src/Tests/Messages.antt =====
-- Names, tokens and messages of the protocol (src/gui_ipc/protocol_types.cpp, src/gui_ipc/session.cpp).
use cc_switch_trans.Common.{◌≡◌, ◌↔◌, refl, false, List, [], ◌∷◌, none, some, Text, codes}
use cc_switch_trans.Ipc.Enums.{
  MessageKind, ResultCode, ErrorCode, GuiCommand, UnsavedDecision, MaintenanceCommand,
  message_kind_name, parse_message_kind, result_code_name, parse_result_code, error_code_name,
  parse_error_code, gui_command_name, parse_gui_command, unsaved_decision_name,
  parse_unsaved_decision, maintenance_command_name, parse_maintenance_command,
}
use cc_switch_trans.Ipc.Enums.Names.{wire_names}
use cc_switch_trans.Ipc.Messages.{Envelope, protocol_v1}
use cc_switch_trans.Ipc.Session.{OutboundQueue, new_queue, push}
use cc_switch_trans.Ipc.Session.Queue.{IsValid}
use cc_switch_trans.Ipc.Session.Runs.{
  Call, pushes, pops, closes, resets, run, most_items, run-IsValid,
}
use cc_switch_trans.Ipc.Session.Coalescing.{Outcome, push-Outcome}

wire_names_example :
    ((parse_message_kind "hello" ≡ some MessageKind.hello)
      ↔ (message_kind_name MessageKind.hello ≡ "hello"))
    × ((parse_result_code "hello" ≡ some ResultCode.accepted)
        ↔ (result_code_name ResultCode.accepted ≡ "hello"))
    × ((parse_error_code "hello" ≡ some ErrorCode.no_error)
        ↔ (error_code_name ErrorCode.no_error ≡ "hello"))
    × ((parse_gui_command "hello" ≡ some GuiCommand.apply_draft)
        ↔ (gui_command_name GuiCommand.apply_draft ≡ "hello"))
    × ((parse_unsaved_decision "hello" ≡ some UnsavedDecision.discard)
        ↔ (unsaved_decision_name UnsavedDecision.discard ≡ "hello"))
    × ((parse_maintenance_command "hello" ≡ some MaintenanceCommand.query_version)
        ↔ (maintenance_command_name MaintenanceCommand.query_version ≡ "hello"))
wire_names_example =
    wire_names "hello" MessageKind.hello ResultCode.accepted ErrorCode.no_error
      GuiCommand.apply_draft UnsavedDecision.discard MaintenanceCommand.query_version

abbrev status_event : Text → Envelope
status_event id = record {
  protocol = protocol_v1;
  kind = MessageKind.command;
  request_id = id;
  session_id = codes "s";
  sequence = 1;
  base_revision = [];
  source_commit = codes "c";
  result = none;
  error_code = none;
  payload_json = codes "{}";
}

abbrev empty_queue : OutboundQueue
empty_queue = record {
  capacity = 2;
  items = [];
  peak_pending = 0;
  rejected = 0;
  coalesced = 0;
  closed = false;
}

abbrev queue_calls : List Call
queue_calls =
    pushes (status_event (codes "1")) (codes "state")
    ∷ pushes (status_event (codes "2")) (codes "state")
    ∷ pushes (status_event (codes "3")) []
    ∷ pushes (status_event (codes "4")) []
    ∷ pops
    ∷ closes
    ∷ resets
    ∷ []

run-IsValid_example :
    IsValid (run empty_queue queue_calls)
    × ((run empty_queue queue_calls).peak_pending ≡ most_items empty_queue queue_calls)
unfolding new_queue
run-IsValid_example = run-IsValid 2 empty_queue queue_calls refl

abbrev full_queue : OutboundQueue
full_queue = record {
  capacity = 1;
  items = record { envelope = status_event (codes "1"); coalescing_key = codes "state" } ∷ [];
  peak_pending = 1;
  rejected = 0;
  coalesced = 0;
  closed = false;
}

push-Outcome_example :
    Outcome full_queue
      (status_event (codes "2"))
      (codes "state")
      (push full_queue (status_event (codes "2")) (codes "state"))
push-Outcome_example = push-Outcome full_queue (status_event (codes "2")) (codes "state")
