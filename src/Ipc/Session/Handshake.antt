-- ===== src/Ipc/Session/Handshake.antt =====
-- The server's side of a session (src/gui_ipc/session.cpp): who may say hello, how often, and which
-- messages follow.
use mathlib.Core.Path.{ap₂}
use cc_switch_trans.Common.{
  ℕ, zero, suc, ◌+◌, ◌%◌, ◌^◌, ◌<◌, ◌≡◌, refl, ◌≢◌, ◌∙◌, ap, ◌↔◌, ◌⊎◌, inl, inr, true, false, none,
  some, List, [], ◌∷◌, text_eq_iff, length, arith, if◌then◌else◌, Option-cases, Bool-cases,
}
use cc_switch_trans.Ipc.Enums.{MessageKind, ErrorCode, kind_is_iff}
use cc_switch_trans.Ipc.Messages.{Envelope, Hello, SessionDetail, validate_envelope}
use cc_switch_trans.Ipc.Session.{
  ServerSession, HelloOutcome, unexpected_process, check_hello, accept_hello, check_message,
  accept_message, next_server_sequence, disconnect, accept,
}
use cc_switch_trans.Ipc.Session.Compare.{constant_time_equal_iff}

-- What a hello has to prove.
pub record Proves (s : ServerSession) (envelope : Envelope) (hello : Hello) (actual : ℕ)
    : Type 0 where
  pub well_formed : validate_envelope envelope ≡ none
  pub kind : envelope.kind ≡ MessageKind.hello
  pub not_authenticated : s.authenticated ≡ false
  pub token_unused : s.token_consumed ≡ false
  pub version : hello.version ≡ s.policy.version
  pub source_commit : hello.source_commit ≡ s.policy.source_commit
  pub envelope_commit : envelope.source_commit ≡ s.policy.source_commit
  pub identity : hello.instance_identity ≡ s.policy.instance_identity
  pub token : hello.handshake_token ≡ s.policy.handshake_token
  pub process : hello.process_id ≡ actual
  pub expected : unexpected_process s.policy.expected_process_id actual ≡ false

check_hello-Proves :
    (s : ServerSession) (envelope : Envelope) (hello : Hello) (actual : ℕ)
    → check_hello s envelope hello actual ≡ none
    → Proves s envelope hello actual
unfolding check_hello
check_hello-Proves s envelope hello actual h = record {
  well_formed = ground arith;
  kind = ground (arith, kind_is_iff envelope.kind MessageKind.hello);
  not_authenticated = ground arith;
  token_unused = ground arith;
  version = ground (arith, text_eq_iff hello.version s.policy.version);
  source_commit = ground (arith, text_eq_iff hello.source_commit s.policy.source_commit);
  envelope_commit = ground (arith, text_eq_iff envelope.source_commit s.policy.source_commit);
  identity = ground (arith, text_eq_iff hello.instance_identity s.policy.instance_identity);
  token = ground (arith, constant_time_equal_iff hello.handshake_token s.policy.handshake_token);
  process = ground arith;
  expected = ground arith;
}

Proves-check_hello :
    (s : ServerSession) (envelope : Envelope) (hello : Hello) (actual : ℕ)
    → Proves s envelope hello actual
    → check_hello s envelope hello actual ≡ none
unfolding check_hello
Proves-check_hello s envelope hello actual p = ground (
  arith,
  p.well_formed,
  p.kind,
  p.not_authenticated,
  p.token_unused,
  p.version,
  p.source_commit,
  p.envelope_commit,
  p.identity,
  p.token,
  p.process,
  p.expected,
  kind_is_iff envelope.kind MessageKind.hello,
  text_eq_iff hello.version s.policy.version,
  text_eq_iff hello.source_commit s.policy.source_commit,
  text_eq_iff envelope.source_commit s.policy.source_commit,
  text_eq_iff hello.instance_identity s.policy.instance_identity,
  constant_time_equal_iff hello.handshake_token s.policy.handshake_token,
)

check_hello-error :
    (s : ServerSession) (envelope : Envelope) (hello : Hello) (actual : ℕ) (e : ErrorCode)
    (d : SessionDetail)
    → check_hello s envelope hello actual ≡ some (e, d)
    → e ≢ ErrorCode.no_error
unfolding check_hello
check_hello-error s envelope hello actual e d h = ground arith

-- What a hello leads to.
pub record Answer (s : ServerSession) (envelope : Envelope) (hello : Hello) (actual : ℕ)
    (o : HelloOutcome) : Type 0 where
  pub exact : (o.validation.accepted ≡ true) ↔ Proves s envelope hello actual
  pub same_answer :
      (o.result.accepted ≡ o.validation.accepted) × (o.result.error ≡ o.validation.error)
  pub refused :
      o.validation.accepted ≡ false → (o.session ≡ s) × (o.validation.error ≢ ErrorCode.no_error)
  pub opened :
      o.validation.accepted ≡ true
      → (o.session.authenticated ≡ true)
        × (o.session.token_consumed ≡ true)
        × (o.session.last_client_sequence ≡ 0)
        × (o.session.next_sequence ≡ 1)
        × (o.session.policy.handshake_token ≡ [])

-- A well-formed hello is accepted, and nothing else is, exactly if it proves its version, commit,
-- instance, token and process to a session that is not open and has used no token yet. An accepted one opens the session and clears the token, a
-- refused one leaves the session as it was and names an error; the answer that is sent agrees.
pub accept_hello-Answer :
    (s : ServerSession) (envelope : Envelope) (hello : Hello) (actual revision : ℕ)
    → Answer s envelope hello actual (accept_hello s envelope hello actual revision)
unfolding accept_hello
accept_hello-Answer s envelope hello actual revision =
    elim (Option-cases (check_hello s envelope hello actual)) [
      | inl n ↦
          rw (n, accept_hello)
            (record {
              exact = (λ _. check_hello-Proves s envelope hello actual n, λ _. refl);
              same_answer = (refl, refl);
              refused = λ z. cc;
              opened = λ _. (refl, refl, refl, refl, refl);
            })
      | inr ((e, d), h) ↦
          rw (h, accept_hello)
            (record {
              exact = (λ z. cc, λ p. cc (Proves-check_hello s envelope hello actual p));
              same_answer = (refl, refl);
              refused = λ _. (refl, check_hello-error s envelope hello actual e d h);
              opened = λ z. cc;
            })
    ]

-- A message takes the session on by one, or leaves it as it was.
accept_message-cases :
    (s : ServerSession) (e : Envelope)
    → ((check_message s e ≡ none)
        × (accept_message s e ≡ (record s { last_client_sequence = e.sequence }, accept)))
      ⊎ (((accept_message s e).0 ≡ s) × ((accept_message s e).1.accepted ≡ false))
unfolding accept_message
accept_message-cases s e = ground arith

pub data Call : Type 0 where
  says_hello : Envelope → Hello → ℕ → ℕ → Call
  sends : Envelope → Call
  numbers disconnects : Call

unfoldable pub step : ServerSession → Call → ServerSession
step s (says_hello e h actual revision) = (accept_hello s e h actual revision).session
step s (sends e) = (accept_message s e).0
step s numbers = (next_server_sequence s).0
step s disconnects = disconnect s

unfoldable pub run : ServerSession → List Call → ServerSession
run s [] = s
run s (c ∷ cs) = run (step s c) cs

hello-consumed :
    (s : ServerSession) (e : Envelope) (h : Hello) (actual revision : ℕ)
    → s.token_consumed ≡ true
    → (accept_hello s e h actual revision).session ≡ s
hello-consumed s e h actual revision t =
    let a = accept_hello-Answer s e h actual revision in
    elim (Bool-cases (accept_hello s e h actual revision).validation.accepted) [
      | inl y ↦ cc (t, (a.exact.0 y).token_unused)
      | inr n ↦ (a.refused n).0
    ]

step-consumed :
    (s : ServerSession) (c : Call) → s.token_consumed ≡ true → (step s c).token_consumed ≡ true
unfolding step next_server_sequence disconnect
step-consumed s (says_hello e h actual revision) t =
    ap (λ (r : ServerSession). r.token_consumed) (hello-consumed s e h actual revision t) ∙ t
step-consumed s (sends e) t = ground (arith, accept_message-cases s e, t)
step-consumed s numbers t = t
step-consumed s disconnects t = t

run-consumed :
    (s : ServerSession) (cs : List Call)
    → s.token_consumed ≡ true
    → (run s cs).token_consumed ≡ true
unfolding run
run-consumed s [] t = t
run-consumed s (c ∷ cs) t = run-consumed (step s c) cs (step-consumed s c t)

-- The handshake is good for one session: once a hello was accepted, no later hello is, whatever
-- calls came in between, a disconnect included.
pub hello_once :
    (s : ServerSession) (e e' : Envelope) (h h' : Hello) (actual actual' revision revision' : ℕ)
    (cs : List Call)
    → (accept_hello s e h actual revision).validation.accepted ≡ true
    → (accept_hello
        (run (accept_hello s e h actual revision).session cs)
        e'
        h'
        actual'
        revision').validation.accepted
      ≡ false
hello_once s e e' h h' actual actual' revision revision' cs y =
    let o = accept_hello s e h actual revision in
    let used = run-consumed o.session cs ((accept_hello-Answer s e h actual revision).opened y).1 in
    let a = accept_hello-Answer (run o.session cs) e' h' actual' revision' in
    elim (Bool-cases
      (accept_hello (run o.session cs) e' h' actual' revision').validation.accepted) [
        | inl z ↦ cc (used, (a.exact.0 z).token_unused)
        | inr n ↦ n
      ]

-- The sequence numbers of the messages that are accepted, in order.
unfoldable pub accepted_sequences : ServerSession → List Envelope → List ℕ
accepted_sequences s [] = []
accepted_sequences s (e ∷ es) =
    let rest = accepted_sequences (accept_message s e).0 es in
    if (accept_message s e).1.accepted then e.sequence ∷ rest else rest

abbrev pub count_from : ℕ → ℕ → List ℕ
count_from n zero = []
count_from n (suc k) = (n + 1) ∷ count_from (n + 1) k

next_of_check :
    (s : ServerSession) (e : Envelope)
    → check_message s e ≡ none
    → e.sequence ≡ (s.last_client_sequence + 1) % 2 ^ 64
unfolding check_message
next_of_check s e h = ground arith

-- Whatever messages arrive, the accepted ones are numbered last + 1, last + 2, … without a gap or a
-- repetition, as long as the 64-bit number does not run over.
pub accepted_in_order :
    (s : ServerSession) (es : List Envelope)
    → s.last_client_sequence + length es < 2 ^ 64
    → accepted_sequences s es ≡ count_from s.last_client_sequence (length (accepted_sequences s es))
unfolding accepted_sequences
accepted_in_order s [] h = refl
accepted_in_order s (e ∷ es) h = elim (accept_message-cases s e) [
  | inl (c, q) ↦
      let n : e.sequence ≡ s.last_client_sequence + 1 = omega (arith, next_of_check s e c) in
      let s' : ServerSession = record s { last_client_sequence = e.sequence } in
      rw q (
        ap₂ ◌∷◌ n (
          accepted_in_order s' es (omega arith)
          ∙ ap (λ (k : ℕ). count_from k (length (accepted_sequences s' es))) n))
  | inr (q, r) ↦ rw (r, q) (accepted_in_order s es (omega arith))
]
