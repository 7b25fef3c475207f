-- ===== src/Publisher/Laws.antt =====
-- Every run of a publisher, for src/publisher_session.cpp together with src/session.cpp and
-- src/send_data_plane.cpp.
use moqtopus.Common.{ℕ, Bool, List, [], ◌∷◌}
use moqtopus.Types.{ByteBuffer, TrackName, TrackNamespace}
use moqtopus.Codec.Framing.{ControlMessage}
use moqtopus.Send.{PublishedTrack, PublishedObject}
use moqtopus.Session.Lifecycle.Laws
use moqtopus.Session.Setup.{send_setup-Keeps}
use moqtopus.Session.Lifecycle.Frame.{step-Keeps}
use moqtopus.Publisher.{State, App, enter_session, leave_session}
use moqtopus.Publisher.Request.{
  derived, on_receive, on_peer_send_aborted, on_peer_receive_aborted, on_stream_closed,
}
use moqtopus.Publisher.Accept.{handle_peer_request}
use moqtopus.Publisher.Calls.{
  register_track, publish, end_track, unregister_track, handle_data_stream,
}
use moqtopus.Publisher.Goes.{IsSound, Later, Goes, Goes-refl, Goes-trans}
use moqtopus.Publisher.Goes.Ends.{
  AppGoes, session-Goes, SessionGoes, cancel-Goes, terminate_subscriptions-Goes,
}
use moqtopus.Publisher.Goes.Updates.{on_receive-Goes}
use moqtopus.Publisher.Goes.Accepts.{handle_peer_request-Goes}
use moqtopus.Publisher.Goes.Calls.{
  on_ready-Goes, register_track-Goes, publish-Goes, end_track-Goes, unregister_track-Goes,
}

-- What happens to a publisher: the application's calls, the events of its session, those of a SUBSCRIBE
-- stream, which is named by the place of its request, and what the peer opens.
pub data Event : Type 0 where
  registers : PublishedTrack → Event
  unregisters : TrackNamespace → TrackName → Event
  publishes : PublishedObject → Event
  ends : TrackNamespace → TrackName → ℕ → ByteBuffer → Event
  session_event : Laws.Event → Event
  request_bytes : ℕ → List ByteBuffer → Bool → Event
  request_reset : ℕ → ℕ → Event
  request_stopped : ℕ → ℕ → Event
  request_closed : ℕ → Event
  peer_request : ControlMessage → ℕ → ByteBuffer → Bool → Event
  data_stream : ℕ → ℕ → ByteBuffer → Bool → Event

module _ {W : Type 0} (app : App W) where
  unfoldable pub step : Event → State W → State W
  step (registers track) s = register_track app track s
  step (unregisters namespace name) s = (unregister_track app namespace name s).1
  step (publishes object) s = publish app object s
  step (ends namespace name status reason) s = (end_track app namespace name status reason s).1
  step (session_event event) s = leave_session (Laws.step (derived app) event (enter_session s))
  step (request_bytes ref chunks fin) s = on_receive app ref chunks fin s
  step (request_reset ref error_code) s = on_peer_send_aborted app ref error_code s
  step (request_stopped ref error_code) s = on_peer_receive_aborted app ref error_code s
  step (request_closed ref) s = on_stream_closed app ref s
  step (peer_request message stream leftover fin) s =
      handle_peer_request app message stream leftover fin s
  step (data_stream type stream prefix fin) s = handle_data_stream app type stream prefix fin s

  unfoldable pub run : List Event → State W → State W
  run [] s = s
  run (event ∷ events) s = run events (step event s)

  module _ (app_goes : AppGoes app) where
    step-Goes : (event : Event) (s : State W) → Goes s (step event s)
    unfolding step on_peer_send_aborted on_peer_receive_aborted on_stream_closed handle_data_stream
    step-Goes (registers track) s = register_track-Goes app app_goes track s
    step-Goes (unregisters namespace name) s = unregister_track-Goes app app_goes namespace name s
    step-Goes (publishes object) s = publish-Goes app app_goes object s
    step-Goes (ends namespace name status reason) s =
        end_track-Goes app app_goes namespace name status reason s
    step-Goes (session_event event) s =
        step-Keeps (derived app) SessionGoes (λ t. Goes-refl (leave_session t))
          (λ t u v. Goes-trans (leave_session t) (leave_session u) (leave_session v))
          (λ t x ids. session-Goes (leave_session t) x)
          (λ why t. terminate_subscriptions-Goes app app_goes (leave_session t))
          (λ code t. app_goes.shutdown code (leave_session t))
          (λ t. on_ready-Goes app app_goes (leave_session t))
          (λ t.
            send_setup-Keeps app.open_stream app.send Goes Goes-refl Goes-trans app_goes.open_stream
              app_goes.send app.config (leave_session t))
          event (enter_session s)
    step-Goes (request_bytes ref chunks fin) s = on_receive-Goes app app_goes ref chunks fin s
    step-Goes (request_reset ref error_code) s = cancel-Goes app app_goes ref _ s
    step-Goes (request_stopped ref error_code) s = cancel-Goes app app_goes ref _ s
    step-Goes (request_closed ref) s = cancel-Goes app app_goes ref _ s
    step-Goes (peer_request message stream leftover fin) s =
        handle_peer_request-Goes app app_goes message stream leftover fin s
    step-Goes (data_stream type stream prefix fin) s = app_goes.abort_receive stream _ s

    -- Whatever happens to a sound publisher, in any order, leaves it sound: its table has the
    -- requests that are not over and no other, each under its own Request ID, which the peer has
    -- used, there are no more of them than max_subscriptions, and the Request IDs of the peer are
    -- odd. And no request goes away, changes its Request ID or is live again when it was over, a
    -- Request ID that the peer has used stays used, and an entry of the table is an old one or has
    -- a Request ID that was not used before. This is for a transport and streams whose own calls
    -- do the same, and for `set_sink` that leaves the requests, their table and the used Request
    -- IDs as they are.
    pub publisher_run-IsSound :
        (events : List Event) (s : State W)
        → IsSound s
        → IsSound (run events s) × Later s (run events s)
    unfolding run
    publisher_run-IsSound [] s = Goes-refl s
    publisher_run-IsSound (event ∷ events) s =
        Goes-trans s _ _ (step-Goes event s) (publisher_run-IsSound events _)
