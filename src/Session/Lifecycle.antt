-- ===== src/Session/Lifecycle.antt =====
-- The operations of src/session.cpp on the state of a session.
pub mod Goes
pub mod Laws
pub mod Frame
use moqtopus.Common.{
  ℕ, ◌+◌, ◌-◌, ◌^◌, ltb, ◌==◌, ◌&&◌, ◌||◌, Bool, true, false, not, List, [], ◌∷◌, ◌++◌, Option,
  none, some, if◌then◌else◌, is_empty, Result, ok, err, overflow_error,
}
use moqtopus.Types.{ByteBuffer}
use moqtopus.Session.{
  SessionPhase, Reason, local_close, handshake_incomplete, session_closed, session_closing,
  closed_before_setup, Session, State, Derived, is_silent, is_closing, is_ready,
}

-- One outcome for every promise that waits.
pub settle_all : Option Reason → List ℕ → List (ℕ × Option Reason) → List (ℕ × Option Reason)
settle_all outcome [] settled = settled
settle_all outcome (waiter ∷ waiters) settled =
    settle_all outcome waiters ((waiter, outcome) ∷ settled)

unfoldable pub settle_waiters : Option Reason → Session → Session
settle_waiters outcome s = record s {
  ready_waiters = [];
  settled = settle_all outcome s.ready_waiters s.settled;
}

-- `Session::fail_ready_waiters`
unfoldable pub fail_ready_waiters : Reason → Session → Session
fail_ready_waiters reason s = settle_waiters (some reason) s

-- `reason.empty() ? "MOQT session closing" : reason`
pub waiters_reason : Reason → Reason
waiters_reason reason = if is_silent reason then session_closing else reason

-- What a new promise gets, by the phase.
pub answer : SessionPhase → ℕ → Session → Session
answer SessionPhase.ready promise s = record s { settled = (promise, none) ∷ s.settled }
answer SessionPhase.closing promise s = record s {
  settled = (promise, some closed_before_setup) ∷ s.settled;
}
answer SessionPhase.closed promise s = record s {
  settled = (promise, some closed_before_setup) ∷ s.settled;
}
answer SessionPhase.init promise s = record s { ready_waiters = s.ready_waiters ++ (promise ∷ []) }
answer SessionPhase.setup_in_progress promise s = record s {
  ready_waiters = s.ready_waiters ++ (promise ∷ []);
}

-- `Session::ready`
pub ready : ℕ → Session → Session
ready promise s = answer s.phase promise s

-- `Session::allocate_request_id`
unfoldable pub allocate_request_id : Session → Result (ℕ × Session)
allocate_request_id s =
    if ltb (2 ^ 64 - 1 - 2) s.next_request_id
    then err (overflow_error "MOQT Request ID space exhausted")
    else ok (s.next_request_id, record s { next_request_id = s.next_request_id + 2 })

-- What `maybe_ready` and `begin_close` do to the session's own members.
pub become_ready : Session → Session
become_ready s = settle_waiters none (record s { phase = SessionPhase.ready; has_version = true })

unfoldable pub start_closing : ℕ → Reason → Session → Session
start_closing code reason s =
    fail_ready_waiters (waiters_reason reason)
      (record s { phase = SessionPhase.closing; close_reason = some (code, reason) })

pub finish_closing : Bool → Session → Session
finish_closing handshake_completed s =
    let reason : Option (ℕ × Reason) = elim s.close_reason [
      | some known ↦ some known
      | none ↦ if handshake_completed then none else some (0x1, handshake_incomplete)
    ] in
    fail_ready_waiters session_closed
      (record s { phase = SessionPhase.closed; close_reason = reason })

module _ {W : Type 0} (derived : Derived W) where
  open derived use {on_ready, terminate_subscriptions, shutdown, send_setup}

  abbrev pub on_session : (Session → Session) → State W → State W
  on_session f s = record s { session = f s.session }

  -- `Session::maybe_ready`
  pub maybe_ready : State W → State W
  maybe_ready s =
      if not s.session.local_setup_sent
        || (not s.session.peer_setup_received || is_ready s.session.phase)
      then s
      else on_ready (on_session become_ready s)

  -- `if (transport_) transport_->shutdown(code);`
  pub shut_transport : Bool → ℕ → State W → State W
  shut_transport true code s = shutdown code s
  shut_transport false code s = s

  -- `Session::begin_close`
  unfoldable pub begin_close : ℕ → Reason → State W → State W
  begin_close code reason s =
      if is_closing s.session.phase
      then s
      else (let ended : State W =
            terminate_subscriptions reason (on_session (start_closing code reason) s) in
          shut_transport ended.session.has_transport code ended)

  -- `Session::protocol_violation`
  unfoldable pub protocol_violation : Reason → State W → State W
  protocol_violation reason s = begin_close 0x3 reason s

  -- `Session::close`
  pub close : ℕ → State W → State W
  close error s = begin_close error local_close s

  -- `Session::close_and_wait`; the transport is gone behind it.
  pub close_and_wait : State W → State W
  close_and_wait s =
      on_session (λ x. record x { has_transport = false }) (begin_close 0x0 local_close s)

  -- `Session::handle_peer_setup`
  pub handle_peer_setup : State W → State W
  handle_peer_setup s = maybe_ready (on_session (λ x. record x { peer_setup_received = true }) s)

  -- The end of `connected`, by what came of sending SETUP.
  pub setup_sent : Option Reason → State W → State W
  setup_sent (some error) s = begin_close 0x1 error s
  setup_sent none s = maybe_ready (on_session (λ x. record x { local_setup_sent = true }) s)

  pub connect : SessionPhase → State W → State W
  connect SessionPhase.init s =
      let sent : Option Reason × State W =
        send_setup (on_session (λ x. record x { phase = SessionPhase.setup_in_progress }) s) in
      setup_sent sent.0 sent.1
  connect SessionPhase.setup_in_progress s = s
  connect SessionPhase.ready s = s
  connect SessionPhase.closing s = s
  connect SessionPhase.closed s = s

  -- The callback `connected`.
  pub connected : State W → State W
  connected s = connect s.session.phase s

  -- The callback `transport_error`.
  pub transport_error : Reason → State W → State W
  transport_error error s = begin_close 0x1 error s

  -- The callback `shutdown_complete`.
  pub shutdown_complete : Bool → State W → State W
  shutdown_complete handshake_completed s = on_session (finish_closing handshake_completed) s
