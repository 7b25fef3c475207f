-- ===== src/Session/Lifecycle/Laws.antt =====
-- What every run of the operations of src/session.cpp keeps.
use moqtopus.Common.{ℕ, Bool, List, [], ◌∷◌}
use moqtopus.Session.{Reason, Session, State, Derived}
use moqtopus.Session.Lifecycle.{
  ready, on_session, protocol_violation, close, close_and_wait, handle_peer_setup, connected,
  transport_error, shutdown_complete,
}
use moqtopus.Session.Lifecycle.Goes.{Goes, allocated}

-- What happens to a session.
pub data Event : Type 0 where
  asked_ready : ℕ → Event
  asked_id peer_setup connects waits : Event
  closes : ℕ → Event
  violated failed : Reason → Event
  shut_down : Bool → Event

module _ {W : Type 0} (derived : Derived W) where
  open derived use {on_ready, terminate_subscriptions, shutdown, send_setup}

  unfoldable pub step : Event → State W → State W
  step (Event.asked_ready promise) s = on_session derived (ready promise) s
  step Event.asked_id s = on_session derived allocated s
  step Event.peer_setup s = handle_peer_setup derived s
  step Event.connects s = connected derived s
  step Event.waits s = close_and_wait derived s
  step (Event.closes error) s = close derived error s
  step (Event.violated reason) s = protocol_violation derived reason s
  step (Event.failed reason) s = transport_error derived reason s
  step (Event.shut_down completed) s = shutdown_complete derived completed s

  unfoldable pub run : List Event → State W → State W
  run [] s = s
  run (event ∷ events) s = run events (step event s)
