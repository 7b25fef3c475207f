-- ===== src/Session/Lifecycle/Frame.antt =====
-- What src/session.cpp leaves to others: whatever the session does, the program changes by new members of
-- the session and by the calls of its derived class and of the transport only.
use moqtopus.Common.{
  ℕ, ◌≤◌, arith, Bool, true, false, not, ◌||◌, Option, none, some, inl, inr, Bool-cases,
}
use moqtopus.Session.{
  SessionPhase, Reason, Session, State, Derived, is_closing, is_ready, local_close,
}
use moqtopus.Session.Lifecycle.{
  settle_waiters, fail_ready_waiters, answer, ready, allocate_request_id, become_ready,
  start_closing, finish_closing, maybe_ready, shut_transport, begin_close, protocol_violation,
  close, close_and_wait, handle_peer_setup, setup_sent, connect, connected, transport_error,
  shutdown_complete,
}
use moqtopus.Session.Lifecycle.Goes.{allocated}
use moqtopus.Session.Lifecycle.Laws.{Event, step}

allocated_ids : (x : Session) → x.next_request_id ≤ (allocated x).next_request_id
unfolding allocated allocate_request_id
allocated_ids x = ground arith

ready_ids :
    (phase : SessionPhase) (promise : ℕ) (x : Session)
    → x.next_request_id ≤ (answer phase promise x).next_request_id
unfolding answer
ready_ids SessionPhase.init promise x = omega arith
ready_ids SessionPhase.setup_in_progress promise x = omega arith
ready_ids SessionPhase.ready promise x = omega arith
ready_ids SessionPhase.closing promise x = omega arith
ready_ids SessionPhase.closed promise x = omega arith

-- A relation of states that the changes of the session's members and the calls keep.
module _ {W : Type 0} (derived : Derived W) (R : State W → State W → Type 0)
    (same : (t : State W) → R t t) (chain : (t u v : State W) → R t u → R u v → R t v)
    (member : (t : State W) (x : Session)
      → t.session.next_request_id ≤ x.next_request_id
      → R t (record t { session = x }))
    (terminated : (reason : Reason) (t : State W) → R t (derived.terminate_subscriptions reason t))
    (shut : (code : ℕ) (t : State W) → R t (derived.shutdown code t)) where
  pub shut_transport-Keeps :
      (there : Bool) (code : ℕ) (t : State W) → R t (shut_transport derived there code t)
  unfolding shut_transport
  shut_transport-Keeps true code t = shut code t
  shut_transport-Keeps false code t = same t

  pub begin_close-Keeps :
      (code : ℕ) (reason : Reason) (t : State W) → R t (begin_close derived code reason t)
  unfolding begin_close start_closing fail_ready_waiters settle_waiters
  begin_close-Keeps code reason t = elim (Bool-cases (is_closing t.session.phase)) [
    | inl late ↦ rw late (same t)
    | inr early ↦ rw early (
        chain _ _ _ (member t (start_closing code reason t.session) (omega arith))
          (chain _ _ _ (terminated reason _) (shut_transport-Keeps _ code _)))
  ]

  module _ (begun : (t : State W) → R t (derived.on_ready t))
      (set_up : (t : State W) → R t (derived.send_setup t).1) where
    maybe_ready-Keeps : (t : State W) → R t (maybe_ready derived t)
    unfolding maybe_ready become_ready settle_waiters
    maybe_ready-Keeps t =
        elim (Bool-cases (
          not t.session.local_setup_sent
          || (not t.session.peer_setup_received || is_ready t.session.phase))) [
            | inl not_yet ↦ rw not_yet (same t)
            | inr now ↦
                rw now (chain _ _ _ (member t (become_ready t.session) (omega arith)) (begun _))
          ]

    setup_sent-Keeps : (outcome : Option Reason) (t : State W) → R t (setup_sent derived outcome t)
    unfolding setup_sent
    setup_sent-Keeps (some error) t = begin_close-Keeps 0x1 error t
    setup_sent-Keeps none t = chain _ _ _ (member t _ (omega arith)) (maybe_ready-Keeps _)

    connect-Keeps : (phase : SessionPhase) (t : State W) → R t (connect derived phase t)
    unfolding connect
    connect-Keeps SessionPhase.init t =
        chain _ _ _ (member t _ (omega arith)) (chain _ _ _ (set_up _) (setup_sent-Keeps _ _))
    connect-Keeps SessionPhase.setup_in_progress t = same t
    connect-Keeps SessionPhase.ready t = same t
    connect-Keeps SessionPhase.closing t = same t
    connect-Keeps SessionPhase.closed t = same t

    pub step-Keeps : (event : Event) (t : State W) → R t (step derived event t)
    unfolding step ready handle_peer_setup close_and_wait close protocol_violation transport_error
        shutdown_complete connected finish_closing fail_ready_waiters settle_waiters
    step-Keeps (Event.asked_ready promise) t =
        member t _ (ready_ids t.session.phase promise t.session)
    step-Keeps Event.asked_id t = member t _ (allocated_ids t.session)
    step-Keeps Event.peer_setup t = chain _ _ _ (member t _ (omega arith)) (maybe_ready-Keeps _)
    step-Keeps Event.connects t = connect-Keeps t.session.phase t
    step-Keeps Event.waits t =
        chain _ _ _ (begin_close-Keeps 0x0 local_close t) (member _ _ (omega arith))
    step-Keeps (Event.closes error) t = begin_close-Keeps error local_close t
    step-Keeps (Event.violated reason) t = begin_close-Keeps 0x3 reason t
    step-Keeps (Event.failed reason) t = begin_close-Keeps 0x1 reason t
    step-Keeps (Event.shut_down completed) t = member t _ (omega arith)
