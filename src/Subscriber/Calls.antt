-- ===== src/Subscriber/Calls.antt =====
-- The calls of the application and of the session on a Subscriber, in src/subscriber_session.cpp.
use moqtopus.Common.{
  ℕ, ◌+◌, length, ◌==◌, Bool, true, false, not, List, [], ◌∷◌, ◌++◌, Option, none, some,
  if◌then◌else◌, find, insert, ok, err,
}
use moqtopus.Common.Text.{ascii}
use moqtopus.Types.{not_supported, uninterested, ByteBuffer, Parameter, SubscribeRequest}
use moqtopus.Codec.Framing.{ControlMessage}
use moqtopus.Codec.Messages.{
  message_publish, encode_subscribe, encode_request_update, encode_request_error,
}
use moqtopus.Codec.Objects.{is_some}
use moqtopus.Receive.Datagram
use moqtopus.Receive.Establish.{start_subgroup_stream}
use moqtopus.Session.{
  at_phase_ready, raised, handler_missing, session_not_ready, subscribe_unsent, update_unsent,
  update_too_early, unknown_peer_request,
}
use moqtopus.Session.Gate.{fetch_stream_type, known_peer_request_type}
use moqtopus.Session.Lifecycle.{allocate_request_id}
use moqtopus.Subscriber.{
  SubscriptionPhase, SubscriptionRequest, broken, State, App, is_established, request_at, change,
  enter_plane, leave_plane, fail,
}
use moqtopus.Subscriber.Request.{owner, stop_subscription_now, protocol_violation}

-- `SubscriptionRequest::SubscriptionRequest`
abbrev pub new_request : ℕ → ℕ → ℕ → ℕ → SubscriptionRequest
new_request request_id handler stream promise = record {
  request_id = request_id;
  phase = SubscriptionPhase.pending;
  track_alias = none;
  stream = stream;
  response_buffer = [];
  handler = handler;
  updates = [];
  result = some promise;
}

-- `SubscriptionStateSnapshot`
pub record SubscriptionStateSnapshot : Type 0 where
  pub phase : SubscriptionPhase
  pub request_id : ℕ
  pub track_alias : Option ℕ
  pub inflight_updates : ℕ

module _ {W : Type 0} where
  -- `Subscriber::subscription_state`
  subscription_state : ℕ → State W → SubscriptionStateSnapshot
  subscription_state request_id s =
      let unknown : SubscriptionStateSnapshot = record {
        phase = SubscriptionPhase.terminated;
        request_id = request_id;
        track_alias = none;
        inflight_updates = 0;
      } in
      elim (find request_id s.subscriptions) [
        | none ↦ unknown
        | some ref ↦ elim (request_at ref s) [
          | none ↦ unknown
          | some r ↦ record {
            phase = r.phase;
            request_id = request_id;
            track_alias = r.track_alias;
            inflight_updates = length r.updates;
          }
        ]
      ]

  -- `Subscriber::active_subscriptions`
  pub active_subscriptions : State W → ℕ
  active_subscriptions s = length s.subscriptions

  -- A new promise, and the rest of the call.
  abbrev pub with_promise : (ℕ → State W → State W) → State W → ℕ × State W
  with_promise rest s =
      (s.next_promise, rest s.next_promise (record s { next_promise = s.next_promise + 1 }))

  -- The new request on the heap, and its entry in the map; an entry that is there stays.
  unfoldable pub add_request : SubscriptionRequest → State W → State W
  add_request r s = record s { requests = s.requests ++ (r ∷ []) }

  unfoldable pub emplace : ℕ → ℕ → State W → State W
  emplace id ref s =
      if is_some (find id s.subscriptions)
      then s
      else record s { subscriptions = insert id ref s.subscriptions }

module _ {W : Type 0} (app : App W) where
  open app use {open_stream, set_sink, send, abort_receive}

  -- SUBSCRIBE on its stream; what is thrown here is caught by `subscribe`.
  unfoldable pub send_subscribe : ℕ → ℕ → ℕ → SubscribeRequest → State W → State W
  send_subscribe promise request_id stream request s = elim (encode_subscribe request_id request) [
    | err error ↦ fail promise (broken (raised error)) s
    | ok bytes ↦
        let (sent, s1) = send stream bytes false s in
        if sent
        then s1
        else fail promise (broken subscribe_unsent)
            (stop_subscription_now app request_id subscribe_unsent 0x0 s1)
  ]

  -- The request on a stream that is open.
  unfoldable pub start_request : ℕ → ℕ → ℕ → ℕ → SubscribeRequest → State W → State W
  start_request promise request_id handler stream request s =
      let ref : ℕ = length s.requests in
      let made : State W = add_request (new_request request_id handler stream promise) s in
      send_subscribe promise request_id stream request
        (emplace request_id ref (set_sink stream ref made))

  -- The `try` block of `subscribe`.
  unfoldable pub try_subscribe : ℕ → ℕ → SubscribeRequest → State W → State W
  try_subscribe promise handler request s = elim (allocate_request_id s.session) [
    | err error ↦ fail promise (broken (raised error)) s
    | ok (request_id, session) ↦
        let (opened, s1) = open_stream false (record s { session = session }) in
        elim opened [
          | err error ↦ fail promise (broken (raised error)) s1
          | ok stream ↦ start_request promise request_id handler stream request s1
        ]
  ]

  -- `Subscriber::subscribe`, with the promise that its future waits for.
  unfoldable pub subscribe : SubscribeRequest → Option ℕ → State W → ℕ × State W
  subscribe request handler s =
      with_promise
        (λ promise s1. elim handler [
          | none ↦ fail promise (broken handler_missing) s1
          | some h ↦
              if at_phase_ready s1.session.phase
              then try_subscribe promise h request s1
              else fail promise (broken session_not_ready) s1
        ])
        s

  -- `send_request_update`, whose exceptions `request_update` catches.
  unfoldable pub send_request_update : ℕ → ℕ → ℕ → ℕ → List Parameter → State W → State W
  send_request_update promise request_id ref stream update s =
      elim (encode_request_update request_id update) [
        | err error ↦ fail promise (broken (raised error)) s
        | ok bytes ↦
            let (sent, s1) = send stream bytes false s in
            if sent
            then change ref (λ r. record r { updates = r.updates ++ (promise ∷ []) }) s1
            else fail promise (broken update_unsent) s1
      ]

  -- The `try` block of `request_update`.
  unfoldable pub try_update : ℕ → ℕ → ℕ → List Parameter → State W → State W
  try_update promise ref stream update s = elim (allocate_request_id s.session) [
    | err error ↦ fail promise (broken (raised error)) s
    | ok (request_id, session) ↦
        send_request_update promise request_id ref stream update (record s { session = session })
  ]

  unfoldable pub update_established : ℕ → ℕ → List Parameter → State W → State W
  update_established promise ref update s = elim (request_at ref s) [
    | none ↦ s
    | some r ↦
        if is_established r.phase
        then try_update promise ref r.stream update s
        else fail promise (broken update_too_early) s
  ]

  -- `Subscriber::request_update`, with the promise that its future waits for.
  unfoldable pub request_update : ℕ → List Parameter → State W → ℕ × State W
  request_update existing_request_id update s =
      with_promise
        (λ promise s1. elim (find existing_request_id s1.subscriptions) [
          | none ↦ fail promise (broken update_too_early) s1
          | some ref ↦ update_established promise ref update s1
        ])
        s

  -- `Subscriber::handle_data_stream`
  unfoldable pub handle_data_stream : ℕ → ℕ → ByteBuffer → Bool → State W → State W
  handle_data_stream type stream prefix fin s =
      if type == fetch_stream_type
      then abort_receive stream 0 s
      else leave_plane (start_subgroup_stream (owner app) stream prefix fin (enter_plane s))

  -- `Subscriber::on_datagram`
  unfoldable pub on_datagram : ByteBuffer → State W → State W
  on_datagram bytes s = leave_plane (Datagram.on_datagram (owner app) bytes (enter_plane s))

  -- The answer to a request of the peer. The texts are short, so nothing is thrown.
  unfoldable pub refuse : ℕ → ℕ → ByteBuffer → State W → State W
  refuse stream code reason s = elim (encode_request_error code reason 0) [
    | err error ↦ s
    | ok bytes ↦ let (sent, s1) = send stream bytes true s in abort_receive stream 0 s1
  ]

  -- `Subscriber::handle_peer_request`
  unfoldable pub handle_peer_request : ControlMessage → ℕ → State W → State W
  handle_peer_request message stream s =
      if not (known_peer_request_type message.type)
      then protocol_violation app (unknown_peer_request message.type) s
      else if message.type == message_publish
      then refuse stream uninterested (ascii "subscriber is not accepting PUBLISH") s
      else refuse stream not_supported (ascii "subscriber-only implementation") s
