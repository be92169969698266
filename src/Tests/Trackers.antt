-- ===== src/Tests/Trackers.antt =====
-- A tracker that takes a snapshot, a delta and a delta across a gap (src/gui_ipc/session.cpp).
use cc_switch_trans.Common.{ℕ, ◌+◌, pos, ◌≡◌, [], ◌∷◌, List, none, some, true, false, codes}
use cc_switch_trans.Ipc.Messages.{Snapshot, StateDelta}
use cc_switch_trans.Ipc.Session.Tracker.{
  Event, snapshot_received, delta_received, disconnected, new_tracker, run, synced, follow_all,
  synced-run,
}

abbrev state : Snapshot
state = record {
  revision = 3;
  application = record {
    state = codes "running";
    listener_host = codes "127.0.0.1";
    listener_port = 8080;
    last_error = [];
    last_exit_code = pos 0;
  };
  profiles = [];
  application_fields = [];
  selection = record { profile_id = none; profile_key = none };
  profile_editor = none;
  rules_editor = none;
  draft = record {
    phase = codes "clean";
    runtime_apply_pending = false;
    revision = 0;
    base_revision = [];
  };
  last_command = none;
  storage = record {
    state = codes "ready";
    database_exists = true;
    detail = [];
    database_path = [];
    backup_directory = [];
  };
  lightweight_mode = false;
  command_pending = false;
}

abbrev delta : ℕ → StateDelta
delta from = record {
  from_revision = from;
  revision = from + 1;
  application = none;
  profiles = none;
  application_fields = none;
  selection = none;
  profile_editor_changed = false;
  profile_editor = none;
  rules_editor_changed = false;
  rules_editor = none;
  draft = none;
  last_command_changed = false;
  last_command = none;
  storage = none;
  lightweight_mode = some true;
  command_pending = none;
}

abbrev events : List Event
events =
    snapshot_received state
    ∷ delta_received (delta 3)
    ∷ delta_received (delta 7)
    ∷ disconnected
    ∷ []

synced-run_example : synced (run new_tracker events) ≡ follow_all (synced new_tracker) events
synced-run_example = synced-run new_tracker events
