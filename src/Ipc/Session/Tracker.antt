-- ===== src/Ipc/Session/Tracker.antt =====
-- `ClientStateTracker` of src/gui_ipc/session.cpp: the client's view of the state, built from a
-- snapshot and the deltas behind it.
use cc_switch_trans.Common.{
  ◌<◌, ◌≡◌, refl, ◌≢◌, ◌∙◌, ap, ◌&&◌, Bool, true, false, not, ◌||◌, Option, none, some, List, [],
  ◌∷◌, ltb, leb, ◌==◌, if◌then◌else◌, arith,
}
use cc_switch_trans.Ipc.Messages.{Snapshot, StateDelta, is_empty}

pub record ClientStateTracker : Type 0 where
  pub snapshot : Option Snapshot
  pub connected : Bool
  pub snapshot_required : Bool

pub data TrackerError : Type 0 where
  revision_must_be_positive snapshot_is_required revision_gap : TrackerError

abbrev pub new_tracker : ClientStateTracker
new_tracker = record { snapshot = none; connected = false; snapshot_required = true }

-- The new tracker, and `none` for `return true`.
unfoldable pub accept_snapshot :
    ClientStateTracker → Snapshot → ClientStateTracker × Option TrackerError
accept_snapshot t s =
    if s.revision == 0
    then (record t { snapshot_required = true }, some revision_must_be_positive)
    else (record { snapshot = some s; connected = true; snapshot_required = false }, none)

-- if (field) updated.field = *field;
abbrev pub or_keep {ℓ} : {A : Type ℓ} → Option A → A → A
or_keep none old = old
or_keep (some new) old = new

unfoldable pub updated : Snapshot → StateDelta → Snapshot
updated s d = record {
  revision = d.revision;
  application = or_keep d.application s.application;
  profiles = or_keep d.profiles s.profiles;
  application_fields = or_keep d.application_fields s.application_fields;
  selection = or_keep d.selection s.selection;
  profile_editor = (if d.profile_editor_changed then d.profile_editor else s.profile_editor);
  rules_editor = (if d.rules_editor_changed then d.rules_editor else s.rules_editor);
  draft = or_keep d.draft s.draft;
  last_command = (if d.last_command_changed then d.last_command else s.last_command);
  storage = or_keep d.storage s.storage;
  lightweight_mode = or_keep d.lightweight_mode s.lightweight_mode;
  command_pending = or_keep d.command_pending s.command_pending;
}

unfoldable pub apply_delta :
    ClientStateTracker → StateDelta → ClientStateTracker × Option TrackerError
apply_delta t d = elim t.snapshot [
  | none ↦ (record t { snapshot_required = true }, some snapshot_is_required)
  | some s ↦
      if t.snapshot_required
      then (record t { snapshot_required = true }, some snapshot_is_required)
      else if not (d.from_revision == s.revision) || leb d.revision d.from_revision || is_empty d
      then (record t { snapshot_required = true }, some revision_gap)
      else (record t { snapshot = some (updated s d) }, none)
]

unfoldable pub disconnect : ClientStateTracker → ClientStateTracker
disconnect t = record t { connected = false; snapshot_required = true }

pub data Event : Type 0 where
  snapshot_received : Snapshot → Event
  delta_received : StateDelta → Event
  disconnected : Event

unfoldable pub handle : ClientStateTracker → Event → ClientStateTracker
handle t (snapshot_received s) = (accept_snapshot t s).0
handle t (delta_received d) = (apply_delta t d).0
handle t disconnected = disconnect t

unfoldable pub run : ClientStateTracker → List Event → ClientStateTracker
run t [] = t
run t (e ∷ es) = run (handle t e) es

-- What the tracker has accepted since its last whole snapshot, kept independently of it: the state
-- that the server had, or `none` while a snapshot is missing.
unfoldable pub synced : ClientStateTracker → Option Snapshot
synced t = if t.snapshot_required then none else t.snapshot

-- The specification: a snapshot replaces what is known, a delta that continues it updates it, and
-- everything else loses it.
unfoldable pub follow : Option Snapshot → Event → Option Snapshot
follow known (snapshot_received s) = if s.revision == 0 then none else some s
follow none (delta_received d) = none
follow (some s) (delta_received d) =
    if (d.from_revision == s.revision) && ltb d.from_revision d.revision && not (is_empty d)
    then some (updated s d)
    else none
follow known disconnected = none

unfoldable pub follow_all : Option Snapshot → List Event → Option Snapshot
follow_all known [] = known
follow_all known (e ∷ es) = follow_all (follow known e) es

synced-handle : (t : ClientStateTracker) (e : Event) → synced (handle t e) ≡ follow (synced t) e
unfolding synced handle follow accept_snapshot apply_delta disconnect
synced-handle t (snapshot_received s) = ground arith
synced-handle t (delta_received d) = ground arith
synced-handle t disconnected = refl

-- After any events, what the tracker shows as synchronised is what the specification follows: no
-- delta is applied across a gap, a disconnect or a refused snapshot.
pub synced-run :
    (t : ClientStateTracker) (es : List Event) → synced (run t es) ≡ follow_all (synced t) es
unfolding run follow_all
synced-run t [] = refl
synced-run t (e ∷ es) =
    synced-run (handle t e) es ∙ ap (λ (k : Option Snapshot). follow_all k es) (synced-handle t e)

-- A tracker that shows a state as synchronised is connected and the state has a positive revision.
pub record IsTracking (t : ClientStateTracker) : Type 0 where
  pub positive : (s : Snapshot) → t.snapshot ≡ some s → 0 < s.revision
  pub present : t.snapshot_required ≡ false → t.snapshot ≢ none
  pub online : t.snapshot_required ≡ false → t.connected ≡ true

handle-IsTracking : (t : ClientStateTracker) (e : Event) → IsTracking t → IsTracking (handle t e)
unfolding handle accept_snapshot apply_delta disconnect updated
handle-IsTracking t (snapshot_received s) v = record {
  positive = λ s' h. ground (arith, v.positive s');
  present = ground (arith, v.present);
  online = ground (arith, v.online);
}
handle-IsTracking t (delta_received d) v = record {
  positive = λ s' h. ground (arith, v.positive s');
  present = ground (arith, v.present);
  online = ground (arith, v.online);
}
handle-IsTracking t disconnected v = record {
  positive = v.positive;
  present = ground arith;
  online = ground arith;
}

-- Any events keep the tracker consistent: while it needs no snapshot it has one and is connected,
-- and every snapshot that it has has a positive revision.
run-IsTracking : (t : ClientStateTracker) (es : List Event) → IsTracking t → IsTracking (run t es)
unfolding run
run-IsTracking t [] v = v
run-IsTracking t (e ∷ es) v = run-IsTracking (handle t e) es (handle-IsTracking t e v)
