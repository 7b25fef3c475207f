-- ===== src/Subscriber/Laws.antt =====
-- Every run of a subscriber, for src/subscriber_session.cpp together with src/session.cpp and
-- src/data_plane.cpp.
use moqtopus.Common.{ℕ, Bool, true, false, List, [], ◌∷◌, Option}
use moqtopus.Types.{ByteBuffer, Parameter, SubscribeRequest}
use moqtopus.Codec.Framing.{ControlMessage}
use moqtopus.Receive.Subgroup
use moqtopus.Receive.Establish
use moqtopus.Session.Lifecycle.Laws
use moqtopus.Session.Setup.{send_setup-Keeps}
use moqtopus.Session.Lifecycle.Frame.{step-Keeps}
use moqtopus.Subscriber.{State, App, enter_session, leave_session, enter_plane, leave_plane}
use moqtopus.Subscriber.Request.{derived, owner, stop_subscription}
use moqtopus.Subscriber.Response.{on_receive, on_peer_send_aborted, on_stream_closed}
use moqtopus.Subscriber.Calls.{
  subscribe, request_update, handle_data_stream, on_datagram, handle_peer_request,
}
use moqtopus.Subscriber.Goes.{Aside-Goes, IsSound, Later, Goes, Goes-refl, Goes-trans, loosen}
use moqtopus.Subscriber.Goes.Closing.{
  SessionGoes, terminate_subscriptions-Goes, AppGoes, session-Goes, stop_subscription_now-Goes,
  plane_receive-Goes, plane_aborted-Goes,
}
use moqtopus.Subscriber.Goes.Responses.{
  on_receive-Goes, on_peer_send_aborted-Goes, on_stream_closed-Goes,
}
use moqtopus.Subscriber.Goes.Subscribes.{subscribe-Goes}
use moqtopus.Subscriber.Goes.Calls.{
  request_update-Goes, handle_data_stream-Goes, on_datagram-Goes, handle_peer_request-Goes,
}

-- What happens to a subscriber: the application's calls, the events of its session, those of a SUBSCRIBE
-- stream and of a subgroup stream, which are named by the places of their sinks, and what the peer sends
-- otherwise.
pub data Event : Type 0 where
  subscribes : SubscribeRequest → Option ℕ → Event
  updates : ℕ → List Parameter → Event
  stops : ℕ → Event
  session_event : Laws.Event → Event
  response : ℕ → List ByteBuffer → Bool → Event
  response_reset : ℕ → ℕ → Event
  response_closed : ℕ → Event
  data_stream : ℕ → ℕ → ByteBuffer → Bool → Event
  subgroup_bytes : ℕ → List ByteBuffer → Bool → Event
  subgroup_reset : ℕ → Event
  datagram : ByteBuffer → Event
  peer_request : ControlMessage → ℕ → Event

module _ {W : Type 0} (app : App W) where
  unfoldable pub step : Event → State W → State W
  step (subscribes request handler) s = (subscribe app request handler s).1
  step (updates request_id update) s = (request_update app request_id update s).1
  step (stops request_id) s = stop_subscription app request_id s
  step (session_event event) s = leave_session (Laws.step (derived app) event (enter_session s))
  step (response ref chunks fin) s = on_receive app ref chunks fin s
  step (response_reset ref error_code) s = on_peer_send_aborted app ref error_code s
  step (response_closed ref) s = on_stream_closed app ref s
  step (data_stream type stream prefix fin) s = handle_data_stream app type stream prefix fin s
  step (subgroup_bytes ref chunks fin) s =
      leave_plane (Subgroup.on_receive (owner app) ref chunks fin (enter_plane s))
  step (subgroup_reset ref) s =
      leave_plane (Establish.on_peer_send_aborted (owner app) ref (enter_plane s))
  step (datagram bytes) s = on_datagram app bytes s
  step (peer_request message stream) s = handle_peer_request app message stream s

  unfoldable pub run : List Event → State W → State W
  run [] s = s
  run (event ∷ events) s = run events (step event s)

  module _ (app_goes : AppGoes true app) where
    session_step-Goes :
        (event : Laws.Event) (s : State W)
        → Goes true s (leave_session (Laws.step (derived app) event (enter_session s)))
    session_step-Goes event s =
        step-Keeps (derived app) (SessionGoes true) (λ t. Goes-refl true (leave_session t))
          (λ t u v. Goes-trans true (leave_session t) (leave_session u) (leave_session v))
          (λ t x ids. session-Goes true (leave_session t) x ids)
          (λ why t. terminate_subscriptions-Goes true app app_goes why (leave_session t))
          (λ code t. app_goes.shutdown code (leave_session t))
          (λ t. Goes-refl true (leave_session t))
          (λ t.
            send_setup-Keeps app.open_stream app.send (Goes true) (Goes-refl true) (Goes-trans true)
              app_goes.open_stream
              (λ stream bytes fin s. Aside-Goes true _ _ (app_goes.send stream bytes fin s))
              app.config (leave_session t))
          event (enter_session s)

    step-Goes : (event : Event) (s : State W) → Goes false s (step event s)
    unfolding step stop_subscription
    step-Goes (subscribes request handler) s =
        loosen _ _ (subscribe-Goes app app_goes request handler s)
    step-Goes (updates id update) s = loosen _ _ (request_update-Goes app app_goes id update s)
    step-Goes (stops id) s = loosen _ _ (stop_subscription_now-Goes true app app_goes id _ _ s)
    step-Goes (session_event event) s = loosen _ _ (session_step-Goes event s)
    step-Goes (response ref chunks fin) s = on_receive-Goes app app_goes ref chunks fin s
    step-Goes (response_reset ref code) s = on_peer_send_aborted-Goes app app_goes ref code s
    step-Goes (response_closed ref) s = on_stream_closed-Goes app app_goes ref s
    step-Goes (data_stream type stream prefix fin) s =
        loosen _ _ (handle_data_stream-Goes app app_goes type stream prefix fin s)
    step-Goes (subgroup_bytes ref chunks fin) s =
        loosen _ _ (plane_receive-Goes true app app_goes ref chunks fin s)
    step-Goes (subgroup_reset ref) s = loosen _ _ (plane_aborted-Goes true app app_goes ref s)
    step-Goes (datagram bytes) s = loosen _ _ (on_datagram-Goes app app_goes bytes s)
    step-Goes (peer_request message stream) s =
        loosen _ _ (handle_peer_request-Goes app app_goes message stream s)

    -- Whatever happens to a sound subscriber, in any order, leaves it sound: its table has the
    -- requests that are not terminated and no other, each under its own Request ID, which was
    -- given out; a pending request holds the promise of its SUBSCRIBE and no other, an established
    -- one has an alias and holds promises of updates only, and behind that a request holds none.
    -- And no request goes away, goes back in its phases or changes its Request ID, an entry of the
    -- table is an old one or has a new Request ID, a promise that a request held is settled or
    -- still held by it, and what a promise is settled with stays. This is for an application and
    -- streams whose own calls keep the subscriber sound and do no more than end requests and open
    -- new ones, and for `set_sink` and `send` that leave the requests and their table as they are.
    pub run-IsSound :
        (events : List Event) (s : State W)
        → IsSound s
        → IsSound (run events s) × Later false s (run events s)
    unfolding run
    run-IsSound [] s = Goes-refl false s
    run-IsSound (event ∷ events) s =
        Goes-trans false _ _ _ (step-Goes event s) (run-IsSound events _)
