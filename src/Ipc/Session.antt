-- ===== src/Ipc/Session.antt =====
-- src/gui_ipc/session.hpp and session.cpp: the outbound queue, the server's side of a session and
-- the client's view of the state. Each method is a function from the state to the new state and its
-- result; the mutex makes a call one step. Counters of `std::size_t` do not wrap.
pub mod Tracker
pub mod Compare
pub mod Handshake
pub mod Queue
pub mod Runs
pub mod Coalescing
use Prim.Native.Nat.{bit_or, bit_xor, max}
use cc_switch_trans.Common.{
  ℕ, ◌+◌, ◌%◌, ◌^◌, Bool, true, false, not, ◌&&◌, ◌||◌, Option, none, some, List, [], ◌∷◌, ◌++◌,
  Text, text_eq, length, empty?, ltb, leb, ◌==◌, if◌then◌else◌,
}
use cc_switch_trans.Ipc.Enums.{MessageKind, ErrorCode, kind_is}
use cc_switch_trans.Ipc.Messages.{
  Envelope, Hello, HelloResult, SessionDetail, no_detail, first_message_must_be_hello,
  handshake_already_consumed, versions_do_not_match, source_commits_do_not_match,
  instance_does_not_match, token_is_invalid, process_does_not_match, hello_not_completed,
  unsupported_gui_ipc_protocol, source_commit_changed, session_id_does_not_match, sequence_is_stale,
  sequence_has_gap, envelope_detail, Snapshot, StateDelta, validate_envelope, protocol_v1, is_empty,
}

pub record OutboundItem : Type 0 where
  pub envelope : Envelope
  pub coalescing_key : Text

pub record OutboundQueue : Type 0 where
  pub capacity : ℕ
  pub items : List OutboundItem
  pub peak_pending : ℕ
  pub rejected : ℕ
  pub coalesced : ℕ
  pub closed : Bool

-- The constructor; `none` where `require_capacity` throws.
unfoldable pub new_queue : ℕ → Option OutboundQueue
new_queue capacity =
    if capacity == 0
    then none
    else some (record {
      capacity = capacity;
      items = [];
      peak_pending = 0;
      rejected = 0;
      coalesced = 0;
      closed = false;
    })

-- The last item with the key gets the envelope; `none` if there is no such item.
unfoldable pub replace_last : Text → Envelope → List OutboundItem → Option (List OutboundItem)
replace_last key envelope [] = none
replace_last key envelope (item ∷ items) = elim (replace_last key envelope items) [
  | some replaced ↦ some (item ∷ replaced)
  | none ↦
      if text_eq item.coalescing_key key
      then some (record item { envelope = envelope } ∷ items)
      else none
]

unfoldable pub push_back : OutboundQueue → Envelope → Text → OutboundQueue × Bool
push_back q envelope key =
    let items = q.items ++ record { envelope = envelope; coalescing_key = key } ∷ [] in
    if leb q.capacity (length q.items)
    then (record q { rejected = q.rejected + 1 }, false)
    else (record q { items = items; peak_pending = max q.peak_pending (length items) }, true)

unfoldable pub push : OutboundQueue → Envelope → Text → OutboundQueue × Bool
push q envelope key =
    if q.closed
    then (record q { rejected = q.rejected + 1 }, false)
    else if empty? key
    then push_back q envelope key
    else elim (replace_last key envelope q.items) [
      | some items ↦ (record q { items = items; coalesced = q.coalesced + 1 }, true)
      | none ↦ push_back q envelope key
    ]

-- `wait_pop` from the moment at which its wait ends, by its predicate or by the timeout; `none` for
-- `return false`. It ends by the predicate only if `ready`.
unfoldable pub ready : OutboundQueue → Bool
ready q = q.closed || not (empty? q.items)

unfoldable pub wait_pop : OutboundQueue → OutboundQueue × Option OutboundItem
wait_pop q =
    if ready q
    then (elim q.items [ [] ↦ (q, none) | item ∷ items ↦ (record q { items = items }, some item) ])
    else (q, none)

unfoldable pub close : OutboundQueue → OutboundQueue
close q = record q { closed = true }

unfoldable pub reset : OutboundQueue → OutboundQueue
reset q = record q { items = []; closed = false }

-- The loop of `constant_time_equal` over both texts, a missing byte counting as 0.
pub difference_of : ℕ → Text → Text → ℕ
difference_of difference [] [] = difference
difference_of difference (l ∷ left) [] = difference_of (bit_or difference (bit_xor l 0)) left []
difference_of difference [] (r ∷ right) = difference_of (bit_or difference (bit_xor 0 r)) [] right
difference_of difference (l ∷ left) (r ∷ right) =
    difference_of (bit_or difference (bit_xor l r)) left right

pub constant_time_equal : Text → Text → Bool
constant_time_equal left right =
    difference_of (bit_xor (length left) (length right)) left right == 0

pub record ServerSessionPolicy : Type 0 where
  pub version : Text
  pub source_commit : Text
  pub instance_identity : Text
  pub handshake_token : Text
  pub session_id : Text
  pub expected_process_id : Option ℕ

pub record SessionValidation : Type 0 where
  pub accepted : Bool
  pub error : ErrorCode
  pub detail : SessionDetail

pub record ServerSession : Type 0 where
  pub policy : ServerSessionPolicy
  pub last_client_sequence : ℕ
  pub next_sequence : ℕ
  pub authenticated : Bool
  pub token_consumed : Bool

abbrev pub new_session : ServerSessionPolicy → ServerSession
new_session policy = record {
  policy = policy;
  last_client_sequence = 0;
  next_sequence = 1;
  authenticated = false;
  token_consumed = false;
}

pub refuse : ErrorCode → SessionDetail → SessionValidation
refuse error detail = record { accepted = false; error = error; detail = detail }

abbrev pub accept : SessionValidation
accept = record { accepted = true; error = ErrorCode.no_error; detail = no_detail }

-- *policy_.expected_process_id != actual_process_id, where one is expected
abbrev pub unexpected_process : Option ℕ → ℕ → Bool
unexpected_process none actual = false
unexpected_process (some expected) actual = not (expected == actual)

-- The checks of `accept_hello`, in their order; `none` where all pass.
pub check_hello : ServerSession → Envelope → Hello → ℕ → Option (ErrorCode × SessionDetail)
check_hello s envelope hello actual = elim (validate_envelope envelope) [
  | some e ↦ some (ErrorCode.malformed_message, envelope_detail e)
  | none ↦
      if not (kind_is envelope.kind MessageKind.hello)
      then some (ErrorCode.malformed_message, first_message_must_be_hello)
      else if s.authenticated || s.token_consumed
      then some (ErrorCode.authentication_failed, handshake_already_consumed)
      else if not (text_eq hello.version s.policy.version)
      then some (ErrorCode.version_mismatch, versions_do_not_match)
      else if not (text_eq hello.source_commit s.policy.source_commit)
          || not (text_eq envelope.source_commit s.policy.source_commit)
      then some (ErrorCode.source_mismatch, source_commits_do_not_match)
      else if not (text_eq hello.instance_identity s.policy.instance_identity)
      then some (ErrorCode.authentication_failed, instance_does_not_match)
      else if not (constant_time_equal hello.handshake_token s.policy.handshake_token)
      then some (ErrorCode.authentication_failed, token_is_invalid)
      else if not (hello.process_id == actual)
          || unexpected_process s.policy.expected_process_id actual
      then some (ErrorCode.authentication_failed, process_does_not_match)
      else none
]

-- What `accept_hello` leaves: the session, the validation that it returns and its `result`.
pub record HelloOutcome : Type 0 where
  pub session : ServerSession
  pub validation : SessionValidation
  pub result : HelloResult

hello_result : ServerSession → ℕ → HelloResult
hello_result s state_revision = record {
  accepted = false;
  version = s.policy.version;
  source_commit = s.policy.source_commit;
  session_id = s.policy.session_id;
  state_revision = state_revision;
  error = ErrorCode.no_error;
  detail = no_detail;
}

unfoldable pub accept_hello : ServerSession → Envelope → Hello → ℕ → ℕ → HelloOutcome
unfolding hello_result refuse
accept_hello s envelope hello actual state_revision = elim (check_hello s envelope hello actual) [
  | some (error, detail) ↦ record {
    session = s;
    validation = refuse error detail;
    result = record (hello_result s state_revision) { error = error; detail = detail };
  }
  | none ↦ record {
    session = record {
      policy = record (s.policy) { handshake_token = [] };
      last_client_sequence = 0;
      next_sequence = 1;
      authenticated = true;
      token_consumed = true;
    };
    validation = accept;
    result = record (hello_result s state_revision) { accepted = true };
  }
]

-- The checks of `accept_message`, in their order; `none` where all pass.
pub check_message : ServerSession → Envelope → Option (ErrorCode × SessionDetail)
check_message s envelope =
    if not s.authenticated
    then some (ErrorCode.authentication_failed, hello_not_completed)
    else elim (validate_envelope envelope) [
      | some e ↦ some (ErrorCode.malformed_message, envelope_detail e)
      | none ↦
          if not (text_eq envelope.protocol protocol_v1)
          then some (ErrorCode.unsupported_protocol, unsupported_gui_ipc_protocol)
          else if not (text_eq envelope.source_commit s.policy.source_commit)
          then some (ErrorCode.source_mismatch, source_commit_changed)
          else if not (text_eq envelope.session_id s.policy.session_id)
          then some (ErrorCode.session_mismatch, session_id_does_not_match)
          else if not (envelope.sequence == (s.last_client_sequence + 1) % 2 ^ 64)
          then some (
            ErrorCode.sequence_rejected,
            (if leb envelope.sequence s.last_client_sequence
                then sequence_is_stale
                else sequence_has_gap),
          )
          else none
    ]

unfoldable pub accept_message : ServerSession → Envelope → ServerSession × SessionValidation
unfolding refuse
accept_message s envelope = elim (check_message s envelope) [
  | some (error, detail) ↦ (s, refuse error detail)
  | none ↦ (record s { last_client_sequence = envelope.sequence }, accept)
]

unfoldable pub next_server_sequence : ServerSession → ServerSession × ℕ
next_server_sequence s =
    (record s { next_sequence = (s.next_sequence + 1) % 2 ^ 64 }, s.next_sequence)

unfoldable pub disconnect : ServerSession → ServerSession
disconnect s = record s { authenticated = false; last_client_sequence = 0; next_sequence = 1 }
