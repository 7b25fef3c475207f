-- ===== src/Session.antt =====
-- The session that the subscriber and the publisher share: include/moq/session.h and src/session.cpp.
-- What the derived classes and the transport do is a `Derived`, which may change the world and, through
-- the session's operations, the session.
pub mod Lifecycle
pub mod Gate
pub mod Setup
use moqtopus.Common.{
  Exception, [], ℕ, ltb, leb, Bool, true, false, List, Option, none, some, if◌then◌else◌,
}
use moqtopus.Types.{ByteBuffer}
use moqtopus.Receive.{Fault}

pub data SessionPhase : Type 0 where
  init setup_in_progress ready closing closed : SessionPhase

-- The texts of the session itself and of the two classes that derive from it, with the numbers that they
-- quote; what the peer wrote; what an exception or a decoder says; and what the receiving plane reports.
pub data Reason : Type 0 where
  local_close handshake_incomplete session_closed session_closing closed_before_setup : Reason
  setup_send_failed : Reason
  text : ByteBuffer → Reason
  raised : Exception → Reason
  plane_fault : Fault → Reason
  handler_missing session_not_ready subscribe_unsent update_unsent update_too_early : Reason
  stream_cut stream_shut_down subscription_terminated terminated_before_update : Reason
  invalid_first_response duplicate_subscribe_ok error_unrequested ok_unrequested : Reason
  ok_with_properties duplicate_track_alias early_peer_request subscribe_ok_unsent : Reason
  publisher_reset invalid_response unknown_peer_request unexpected_message : ℕ → Reason
  client_parity duplicate_peer_id : ℕ → Reason

-- `reason.empty()`
unfoldable pub is_silent : Reason → Bool
is_silent (text []) = true
is_silent reason = false

-- A `std::promise` is a number. `settled` is what became of the promises, the last one first: `none` is
-- the value, and a reason an exception.
pub record Session : Type 0 where
  pub phase : SessionPhase
  pub local_setup_sent : Bool
  pub peer_setup_received : Bool
  pub has_version : Bool
  pub close_reason : Option (ℕ × Reason)
  pub next_request_id : ℕ
  pub ready_waiters : List ℕ
  pub settled : List (ℕ × Option Reason)
  pub has_transport : Bool

pub record State (W : Type 0) : Type 0 where
  pub session : Session
  pub world : W

-- `send_setup` opens the control stream and sends SETUP; what it answers is the exception's text.
pub record Derived (W : Type 0) : Type 0 where
  pub on_ready : State W → State W
  pub terminate_subscriptions : Reason → State W → State W
  pub shutdown : ℕ → State W → State W
  pub send_setup : State W → Option Reason × State W

-- The order of the enumeration, which the code compares phases by.
unfoldable pub rank : SessionPhase → ℕ
rank SessionPhase.init = 0
rank SessionPhase.setup_in_progress = 1
rank SessionPhase.ready = 2
rank SessionPhase.closing = 3
rank SessionPhase.closed = 4

abbrev pub is_closing : SessionPhase → Bool
is_closing phase = leb 3 (rank phase)

abbrev pub is_ready : SessionPhase → Bool
is_ready phase = leb 2 (rank phase)

-- `phase == SessionPhase::Ready`
abbrev pub at_phase_ready : SessionPhase → Bool
at_phase_ready SessionPhase.ready = true
at_phase_ready _ = false
