-- ===== src/Subscriber/Goes/Closing.antt =====
-- What stops requests in src/subscriber_session.cpp, up to the session and the plane that do so.
use moqtopus.Common.{ℕ, ◌≤◌, refl, arith, Bool, List, [], ◌∷◌, inl, inr, Option-cases, find}
use moqtopus.Types.{ByteBuffer, Object, PublishDone}
use moqtopus.Receive
use moqtopus.Receive.{Fault}
use moqtopus.Receive.Datagram
use moqtopus.Receive.Subgroup
use moqtopus.Receive.Establish
use moqtopus.Receive.Establish.{install_route, start_subgroup_stream}
use moqtopus.Receive.Frame.{
  on_receive-Keeps, on_peer_send_aborted-Keeps, install_route-Keeps, start_subgroup_stream-Keeps,
  on_datagram-Keeps,
}
use moqtopus.Session
use moqtopus.Session.{Session, Reason, plane_fault, is_closing}
use moqtopus.Session.Lifecycle
use moqtopus.Session.Lifecycle.Frame.{shut_transport-Keeps, begin_close-Keeps}
use moqtopus.Session.Lifecycle.{start_closing, fail_ready_waiters, settle_waiters, shut_transport}
use moqtopus.Subscriber.{
  State, App, request_at, enter_session, leave_session, enter_plane, leave_plane,
}
use moqtopus.Subscriber.Request.{
  terminate, stop_subscription_now, terminate_all, terminate_subscriptions, derived, begin_close,
  protocol_violation, owner,
}
use moqtopus.Subscriber.Goes.{Aside, Aside-Goes, Goes, Goes-refl, Goes-trans}
use moqtopus.Subscriber.Goes.Ends.{terminate-Goes}

-- What the streams and the application's handler do to the subscriber is what its operations do: they
-- lead from a sound state to a sound one, and on. `set_sink` and `send` leave the requests alone: the one sets a
-- member of the stream, and the other hands bytes to MsQuic, which answers later.
pub record AppGoes {W : Type 0} (calm : Bool) (app : App W) : Type 0 where
  pub open_stream : (way : Bool) (s : State W) → Goes calm s (app.open_stream way s).1
  pub set_sink : (stream ref : ℕ) (s : State W) → Aside s (app.set_sink stream ref s)
  pub send :
      (stream : ℕ) (bytes : ByteBuffer) (fin : Bool) (s : State W)
      → Aside s (app.send stream bytes fin s).1
  pub abort_send : (stream code : ℕ) (s : State W) → Goes calm s (app.abort_send stream code s)
  pub abort_receive :
      (stream code : ℕ) (s : State W) → Goes calm s (app.abort_receive stream code s)
  pub shutdown : (code : ℕ) (s : State W) → Goes calm s (app.shutdown code s)
  pub on_object :
      (handler : ℕ) (object : Object) (s : State W) → Goes calm s (app.on_object handler object s)
  pub on_publish_done :
      (handler : ℕ) (end : PublishDone) (s : State W)
      → Goes calm s (app.on_publish_done handler end s)
  pub on_error :
      (handler : ℕ) (reason : Reason) (s : State W) → Goes calm s (app.on_error handler reason s)

module _ {W : Type 0} (calm : Bool) where
  -- The plane and the session are put back.
  pub leave_plane-Goes : (t : Receive.State (State W)) → Goes calm t.world (leave_plane t)
  leave_plane-Goes t =
      Aside-Goes calm _ _
        (record { requests = refl; subscriptions = refl; ids = omega arith; settled = λ p o e. e })

  pub session-Goes :
      (s : State W) (x : Session)
      → s.session.next_request_id ≤ x.next_request_id
      → Goes calm s (record s { session = x })
  session-Goes s x ids =
      Aside-Goes calm _ _
        (record { requests = refl; subscriptions = refl; ids = ids; settled = λ p o e. e })

  -- A change of the session's state, as one of the subscriber.
  abbrev pub SessionGoes : Session.State (State W) → Session.State (State W) → Type 0
  SessionGoes t u = Goes calm (leave_session t) (leave_session u)

module _ {W : Type 0} (calm : Bool) (app : App W) (app_goes : AppGoes calm app) where
  pub end-Goes :
      (ref : ℕ) (reason : Reason) (s : State W) → Goes calm s (terminate app ref reason s)
  end-Goes = terminate-Goes calm app app_goes.on_error

  pub stop_subscription_now-Goes :
      (id : ℕ) (reason : Reason) (code : ℕ) (s : State W)
      → Goes calm s (stop_subscription_now app id reason code s)
  unfolding stop_subscription_now
  stop_subscription_now-Goes id reason code s = elim (Option-cases (find id s.subscriptions)) [
    | inl unknown ↦ rw (unknown, stop_subscription_now) (Goes-refl calm s)
    | inr (ref, known) ↦ elim (Option-cases (request_at ref s)) [
      | inl gone ↦ rw (known, stop_subscription_now, gone) (Goes-refl calm s)
      | inr (r, there) ↦
          rw (known, stop_subscription_now, there)
            (Goes-trans calm _ _ _ (end-Goes ref reason s) (
              Goes-trans calm _ _ _ (app_goes.abort_send r.stream code _)
                (app_goes.abort_receive r.stream code _)))
    ]
  ]

  pub terminate_all-Goes :
      (active : List (ℕ × ℕ)) (reason : Reason) (s : State W)
      → Goes calm s (terminate_all app active reason s)
  unfolding terminate_all
  terminate_all-Goes [] reason s = Goes-refl calm s
  terminate_all-Goes ((id, ref) ∷ active) reason s =
      Goes-trans calm _ _ _ (end-Goes ref reason s) (terminate_all-Goes active reason _)

  pub terminate_subscriptions-Goes :
      (reason : Reason) (s : State W) → Goes calm s (terminate_subscriptions app reason s)
  unfolding terminate_subscriptions
  terminate_subscriptions-Goes reason s = terminate_all-Goes s.subscriptions reason s

  pub shut_transport-Goes :
      (there : Bool) (code : ℕ) (t : Session.State (State W))
      → Goes calm (leave_session t) (leave_session (shut_transport (derived app) there code t))
  shut_transport-Goes =
      shut_transport-Keeps (derived app) (SessionGoes calm) (λ t. Goes-refl calm (leave_session t))
        (λ t u v. Goes-trans calm (leave_session t) (leave_session u) (leave_session v))
        (λ t x ids. session-Goes calm (leave_session t) x ids)
        (λ why t. terminate_subscriptions-Goes why (leave_session t))
        (λ code t. app_goes.shutdown code (leave_session t))

  pub begin_close-Goes :
      (code : ℕ) (reason : Reason) (s : State W) → Goes calm s (begin_close app code reason s)
  unfolding begin_close
  begin_close-Goes code reason s =
      begin_close-Keeps (derived app) (SessionGoes calm) (λ t. Goes-refl calm (leave_session t))
        (λ t u v. Goes-trans calm (leave_session t) (leave_session u) (leave_session v))
        (λ t x ids. session-Goes calm (leave_session t) x ids)
        (λ why t. terminate_subscriptions-Goes why (leave_session t))
        (λ code t. app_goes.shutdown code (leave_session t)) code reason (enter_session s)

  pub protocol_violation-Goes :
      (reason : Reason) (s : State W) → Goes calm s (protocol_violation app reason s)
  unfolding protocol_violation Lifecycle.protocol_violation begin_close
  protocol_violation-Goes reason s = begin_close-Goes 0x3 reason s

  -- The calls of the plane.
  protocol_error-Goes :
      (fault : Fault) (t : Receive.State (State W))
      → Goes calm t.world ((owner app).protocol_error fault t).world
  protocol_error-Goes fault t =
      Goes-trans calm _ _ _ (leave_plane-Goes calm t)
        (protocol_violation-Goes (plane_fault fault) (leave_plane t))

  track_error-Goes :
      (id : ℕ) (fault : Fault) (t : Receive.State (State W))
      → Goes calm t.world ((owner app).track_error id fault t).world
  track_error-Goes id fault t =
      Goes-trans calm _ _ _ (leave_plane-Goes calm t)
        (stop_subscription_now-Goes id (plane_fault fault) _ (leave_plane t))

  on_object-Goes :
      (handler : ℕ) (object : Object) (t : Receive.State (State W))
      → Goes calm t.world ((owner app).on_object handler object t).world
  on_object-Goes handler object t =
      Goes-trans calm _ _ _ (leave_plane-Goes calm t)
        (app_goes.on_object handler object (leave_plane t))

  abort_receive-Goes :
      (stream code : ℕ) (t : Receive.State (State W))
      → Goes calm t.world ((owner app).abort_receive stream code t).world
  abort_receive-Goes stream code t =
      Goes-trans calm _ _ _ (leave_plane-Goes calm t)
        (app_goes.abort_receive stream code (leave_plane t))

  pub install_route-Goes :
      (alias route : ℕ) (s : State W)
      → Goes calm s (leave_plane (install_route (owner app) alias route (enter_plane s)).1)
  install_route-Goes alias route s =
      Goes-trans calm _ _ _
        (install_route-Keeps (owner app) (Goes calm) (Goes-refl calm) (Goes-trans calm)
          protocol_error-Goes track_error-Goes on_object-Goes abort_receive-Goes alias route
          (enter_plane s))
        (leave_plane-Goes calm _)

  pub start_subgroup_stream-Goes :
      (stream : ℕ) (prefix : ByteBuffer) (fin : Bool) (s : State W)
      → Goes calm s
          (leave_plane (start_subgroup_stream (owner app) stream prefix fin (enter_plane s)))
  start_subgroup_stream-Goes stream prefix fin s =
      Goes-trans calm _ _ _
        (start_subgroup_stream-Keeps (owner app) (Goes calm) (Goes-refl calm) (Goes-trans calm)
          protocol_error-Goes track_error-Goes on_object-Goes abort_receive-Goes stream prefix fin
          (enter_plane s))
        (leave_plane-Goes calm _)

  pub plane_receive-Goes :
      (ref : ℕ) (chunks : List ByteBuffer) (fin : Bool) (s : State W)
      → Goes calm s (leave_plane (Subgroup.on_receive (owner app) ref chunks fin (enter_plane s)))
  plane_receive-Goes ref chunks fin s =
      Goes-trans calm _ _ _
        (on_receive-Keeps (owner app) (Goes calm) (Goes-refl calm) (Goes-trans calm)
          protocol_error-Goes track_error-Goes on_object-Goes abort_receive-Goes ref chunks fin
          (enter_plane s))
        (leave_plane-Goes calm _)

  pub plane_aborted-Goes :
      (ref : ℕ) (s : State W)
      → Goes calm s (leave_plane (Establish.on_peer_send_aborted (owner app) ref (enter_plane s)))
  plane_aborted-Goes ref s =
      Goes-trans calm _ _ _
        (on_peer_send_aborted-Keeps (owner app) (Goes calm) (Goes-refl calm) (Goes-trans calm)
          protocol_error-Goes track_error-Goes on_object-Goes abort_receive-Goes ref
          (enter_plane s))
        (leave_plane-Goes calm _)

  pub plane_datagram-Goes :
      (bytes : ByteBuffer) (s : State W)
      → Goes calm s (leave_plane (Datagram.on_datagram (owner app) bytes (enter_plane s)))
  plane_datagram-Goes bytes s =
      Goes-trans calm _ _ _
        (on_datagram-Keeps (owner app) (Goes calm) (Goes-refl calm) (Goes-trans calm)
          protocol_error-Goes track_error-Goes on_object-Goes abort_receive-Goes bytes
          (enter_plane s))
        (leave_plane-Goes calm _)
