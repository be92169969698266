-- ===== src/Tests/Sessions.antt =====
-- One handshake and the messages behind it (src/gui_ipc/session.cpp).
use cc_switch_trans.Common.{
  ℕ, ◌≡◌, refl, ◌∷◌, [], List, length, true, false, some, none, Text, codes, text_eq, arith,
}
use cc_switch_trans.Ipc.Enums.{MessageKind, kind_is}
use cc_switch_trans.Ipc.Messages.{Envelope, Hello, protocol_v1, validate_envelope}
use cc_switch_trans.Ipc.Session.{ServerSession, ServerSessionPolicy, new_session, accept_hello}
use cc_switch_trans.Ipc.Session.Handshake.{
  Proves, Answer, disconnects, sends, run, accepted_sequences, count_from, accept_hello-Answer,
  hello_once, accepted_in_order,
}

abbrev policy : ServerSessionPolicy
policy = record {
  version = codes "1";
  source_commit = codes "c";
  instance_identity = codes "i";
  handshake_token = codes "tok";
  session_id = codes "s";
  expected_process_id = some 7;
}

abbrev session : ServerSession
session = new_session policy

abbrev message : MessageKind → Text → ℕ → Envelope
message kind session_id sequence = record {
  protocol = protocol_v1;
  kind = kind;
  request_id = codes "r";
  session_id = session_id;
  sequence = sequence;
  base_revision = [];
  source_commit = codes "c";
  result = none;
  error_code = none;
  payload_json = codes "{}";
}

abbrev hello_envelope : Envelope
hello_envelope = message MessageKind.hello [] 0

abbrev hello : Hello
hello = record {
  version = codes "1";
  source_commit = codes "c";
  instance_identity = codes "i";
  handshake_token = codes "tok";
  process_id = 7;
}

accept_hello-Answer_example :
    Answer session hello_envelope hello 7 (accept_hello session hello_envelope hello 7 1)
accept_hello-Answer_example = accept_hello-Answer session hello_envelope hello 7 1

hello-Proves : Proves session hello_envelope hello 7
unfolding validate_envelope kind_is text_eq
hello-Proves = record {
  well_formed = refl;
  kind = refl;
  not_authenticated = refl;
  token_unused = refl;
  version = refl;
  source_commit = refl;
  envelope_commit = refl;
  identity = refl;
  token = refl;
  process = refl;
  expected = refl;
}

hello-accepted : (accept_hello session hello_envelope hello 7 1).validation.accepted ≡ true
hello-accepted = (accept_hello-Answer session hello_envelope hello 7 1).exact.1 hello-Proves

hello_once_example :
    (accept_hello
      (run
        (accept_hello session hello_envelope hello 7 1).session
        (sends (message MessageKind.command (codes "s") 1) ∷ disconnects ∷ []))
      hello_envelope
      hello
      7
      2).validation.accepted
    ≡ false
hello_once_example =
    hello_once session hello_envelope hello_envelope hello hello 7 7 1 2
      (sends (message MessageKind.command (codes "s") 1) ∷ disconnects ∷ []) hello-accepted

abbrev opened : ServerSession
opened = record session { authenticated = true; token_consumed = true }

abbrev messages : List Envelope
messages =
    message MessageKind.command (codes "s") 1
    ∷ message MessageKind.ping (codes "s") 3
    ∷ message MessageKind.ping (codes "s") 2
    ∷ []

accepted_in_order_example :
    accepted_sequences opened messages ≡ count_from 0 (length (accepted_sequences opened messages))
accepted_in_order_example = accepted_in_order opened messages (omega arith)
