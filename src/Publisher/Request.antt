-- ===== src/Publisher/Request.antt =====
-- `Publisher::SubscriptionRequest` of src/publisher_session.cpp, with what it calls of its publisher.
-- `ref` is the request's place on the heap.
use moqtopus.Common.{
  ℕ, zero, suc, ◌%◌, length, ◌==◌, Bool, true, false, not, ◌||◌, ◌&&◌, List, [], ◌∷◌, ◌++◌, Option,
  none, some, if◌then◌else◌, is_empty, find, erase, ok, err,
}
use moqtopus.Common.Text.{ascii}
use moqtopus.Types.{
  ByteBuffer, Location, Parameter, protocol_violation_code, invalid_request_id, update_failed_code,
  cancelled, session_closed,
}
use moqtopus.Codec.Parameters.{location}
use moqtopus.Codec.Framing.{next_message}
use moqtopus.Codec.Messages.{
  RequestUpdateMessage, message_request_update, encode_publish_done, encode_request_error,
  encode_request_ok,
}
use moqtopus.Codec.Decoders.{decode_request_update}
use moqtopus.Codec.Decoders.Options.{
  SubscriptionOptions, no_options, parameter_largest_object, decode_subscription_options,
}
use moqtopus.Receive.Subgroup.{concat}
use moqtopus.Send.{TrackEntry}
use moqtopus.Send.Subscriptions.{
  Refusal, code, find_track, update_subscription, detach_subscription,
}
use moqtopus.Session.{
  Reason, raised, stream_cut, unexpected_message, client_parity, duplicate_peer_id, Derived,
}
use moqtopus.Session.Lifecycle
use moqtopus.Session.Setup
use moqtopus.Publisher.{
  SubscriptionRequest, State, App, Act, ◌>>=◌, ◌>>◌, throwing, modify, request_at, put_request,
  change, enter_session, leave_session, enter_plane, leave_plane, escape,
}
use moqtopus.Publisher.Namespaces

-- The texts of the refusals of the plane.
pub refusal_text : Refusal → ByteBuffer
refusal_text Refusal.timeouts_unsupported = ascii "delivery timeouts are not supported"
refusal_text Refusal.track_not_registered = ascii "track is not registered"
refusal_text Refusal.not_established = ascii "subscription is not established"
refusal_text Refusal.already_published = ascii "requested range was already published"

-- `peer_request_ids_.insert(...).second`, turned round.
unfoldable pub is_member : ℕ → List ℕ → Bool
is_member id [] = false
is_member id (x ∷ xs) = x == id || is_member id xs

-- LARGEST_OBJECT of a track that has one.
pub largest_of : Option Location → List Parameter
largest_of none = []
largest_of (some largest) = location parameter_largest_object largest ∷ []

pub largest_parameters : Option TrackEntry → List Parameter
largest_parameters none = []
largest_parameters (some entry) = largest_of entry.largest

module _ {W : Type 0} where
  -- `Publisher::consume_peer_request_id`: the error, if it is refused.
  unfoldable pub consume_peer_request_id : ℕ → State W → Option Reason × State W
  consume_peer_request_id request_id s =
      if request_id % 2 == 0
      then (some (client_parity request_id), s)
      else if is_member request_id s.peer_request_ids
      then (some (duplicate_peer_id request_id), s)
      else (none, record s { peer_request_ids = request_id ∷ s.peer_request_ids })

module _ {W : Type 0} (app : App W) where
  open app use {send, finish_send, abort_send, abort_receive, shutdown}

  -- `owner_.send_plane_->detach_subscription(...)`
  unfoldable pub detach : ℕ → Option ℕ → State W → ℕ × State W
  detach request_id reset_error s =
      let (count, t) =
        detach_subscription
          (λ stream error t. enter_plane (abort_send stream error (leave_plane t)))
          (λ stream t. enter_plane (finish_send stream (leave_plane t))) request_id reset_error
          (enter_plane s) in
      (count, leave_plane t)

  -- The end of `finish` and of `cancel`.
  unfoldable pub end_request : ℕ → SubscriptionRequest → ℕ → State W → State W
  end_request ref r error s =
      let over : State W =
        change ref (λ now. record now { is_over = true }) (abort_receive r.stream error s) in
      record over { subscriptions = erase r.request_id over.subscriptions }

  -- PUBLISH_DONE with FIN, behind the closing of the data streams; whether it is sent is only logged.
  unfoldable pub send_done : ℕ → SubscriptionRequest → ℕ → ByteBuffer → ℕ → Act W (Unit {0})
  send_done ref r status reason count s = elim (encode_publish_done status count reason) [
    | err error ↦ (err error, s)
    | ok bytes ↦ (ok tt, end_request ref r cancelled (send r.stream bytes true s).1)
  ]

  -- `SubscriptionRequest::finish`
  unfoldable pub finish : ℕ → ℕ → ByteBuffer → Act W (Unit {0})
  finish ref status reason s = elim (request_at ref s) [
    | none ↦ (ok tt, s)
    | some r ↦ elim r.is_over [
      | true ↦ (ok tt, s)
      | false ↦
          let (count, s1) = detach r.request_id none s in send_done ref r status reason count s1
    ]
  ]

  -- `SubscriptionRequest::cancel`
  unfoldable pub cancel : ℕ → ℕ → State W → State W
  cancel ref error s = elim (request_at ref s) [
    | none ↦ s
    | some r ↦ elim r.is_over [
      | true ↦ s
      | false ↦
          end_request ref r error (abort_send r.stream error (detach r.request_id (some error) s).1)
    ]
  ]

  -- `Publisher::terminate_subscriptions`, on a copy of the map.
  unfoldable pub cancel_all : List (ℕ × ℕ) → State W → State W
  cancel_all [] s = s
  cancel_all ((id, ref) ∷ active) s = cancel_all active (cancel ref session_closed s)

  unfoldable pub terminate_subscriptions : State W → State W
  terminate_subscriptions s = cancel_all s.subscriptions s

  -- What the publisher is to its session.
  abbrev pub derived : Derived (State W)
  derived = record {
    on_ready = λ t. enter_session (Namespaces.on_ready app (leave_session t));
    terminate_subscriptions = λ reason t. enter_session (terminate_subscriptions (leave_session t));
    shutdown = λ error t. enter_session (shutdown error (leave_session t));
    send_setup = λ t.
        let (error, s) = Setup.send_setup app.open_stream app.send app.config (leave_session t) in
        (error, enter_session s);
  }

  unfoldable pub begin_close : ℕ → Reason → State W → State W
  begin_close error reason s =
      leave_session (Lifecycle.begin_close derived error reason (enter_session s))

  unfoldable pub protocol_violation : Reason → State W → State W
  protocol_violation reason s = begin_close protocol_violation_code reason s

  -- `Publisher::complete_subscription`
  unfoldable pub complete_subscription : ℕ → ℕ → ByteBuffer → Act W (Unit {0})
  complete_subscription request_id status reason s = elim (find request_id s.subscriptions) [
    | none ↦ (ok tt, s)
    | some ref ↦ finish ref status reason s
  ]

  -- A rejected update ends the subscription.
  unfoldable pub refuse_update : ℕ → SubscriptionRequest → Refusal → Act W (Unit {0})
  refuse_update ref r refusal = do
    bytes ← throwing (encode_request_error (code refusal) (refusal_text refusal) 0)
    modify (λ s. (send r.stream bytes false s).1)
    finish ref update_failed_code (refusal_text refusal)

  unfoldable pub confirm_update : SubscriptionRequest → Option TrackEntry → Act W (Unit {0})
  confirm_update r track = do
    bytes ← throwing (encode_request_ok (largest_parameters track))
    modify (λ s. (send r.stream bytes false s).1)

  unfoldable pub answer_update : ℕ → SubscriptionRequest → Option Refusal → Act W (Unit {0})
  answer_update ref r none s =
      confirm_update r (find_track r.track_namespace r.track_name s.plane) s
  answer_update ref r (some refusal) s = refuse_update ref r refusal s

  -- The update of the plane, for options that were decoded.
  unfoldable pub apply_update : ℕ → SubscriptionRequest → SubscriptionOptions → Act W (Unit {0})
  apply_update ref r options s =
      let (refused, plane) = update_subscription r.request_id options s.plane in
      answer_update ref r refused (record s { plane = plane })

  -- The update behind the check of its Request ID.
  unfoldable pub decode_and_apply : ℕ → SubscriptionRequest → List Parameter → Act W (Unit {0})
  decode_and_apply ref r parameters s = elim (decode_subscription_options parameters no_options) [
    | err error ↦ (ok tt, protocol_violation (raised error) s)
    | ok options ↦ apply_update ref r options s
  ]

  unfoldable pub take_update : ℕ → SubscriptionRequest → RequestUpdateMessage → Act W (Unit {0})
  take_update ref r update s =
      let (refused, s1) = consume_peer_request_id update.request_id s in
      elim refused [
        | some reason ↦ (ok tt, begin_close invalid_request_id reason s1)
        | none ↦ decode_and_apply ref r update.parameters s1
      ]

  -- `SubscriptionRequest::handle_request_update`
  unfoldable pub handle_request_update : ℕ → SubscriptionRequest → ByteBuffer → Act W (Unit {0})
  handle_request_update ref r payload s = elim (decode_request_update payload) [
    | err error ↦ (ok tt, protocol_violation (raised error) s)
    | ok update ↦ take_update ref r update s
  ]

  -- `SubscriptionRequest::process_buffer`. Each message takes a byte of the buffer at least.
  unfoldable pub process_buffer : ℕ → ℕ → Bool → Act W (Unit {0})
  process_buffer zero ref fin s = (ok tt, s)
  process_buffer (suc fuel) ref fin s = elim (request_at ref s) [
    | none ↦ (ok tt, s)
    | some r ↦ elim r.is_over [
      | true ↦ (ok tt, s)
      | false ↦ elim (next_message r.buffer) [
        | none ↦
            (ok tt, if fin && not (is_empty r.buffer) then protocol_violation stream_cut s else s)
        | some (message, rest) ↦
            let s1 : State W = put_request ref (record r { buffer = rest }) s in
            elim (message.type == message_request_update) [
              | true ↦
                  (handle_request_update ref r message.payload >> process_buffer fuel ref fin) s1
              | false ↦ (ok tt, protocol_violation (unexpected_message message.type) s1)
            ]
      ]
    ]
  ]

  -- `SubscriptionRequest::on_receive`, which may throw.
  unfoldable pub receive_bytes : ℕ → ByteBuffer → Bool → Act W (Unit {0})
  receive_bytes ref bytes fin s = elim (request_at ref s) [
    | none ↦ (ok tt, s)
    | some r ↦ elim r.is_over [
      | true ↦ (ok tt, s)
      | false ↦
          let buffer : ByteBuffer = r.buffer ++ bytes in
          process_buffer (suc (length buffer)) ref fin
            (put_request ref (record r { buffer = buffer }) s)
    ]
  ]

  -- The callbacks of the transport.
  unfoldable pub on_receive : ℕ → List ByteBuffer → Bool → State W → State W
  on_receive ref chunks fin s = escape (receive_bytes ref (concat chunks) fin) s

  unfoldable pub on_peer_send_aborted : ℕ → ℕ → State W → State W
  on_peer_send_aborted ref error_code s = cancel ref cancelled s

  unfoldable pub on_peer_receive_aborted : ℕ → ℕ → State W → State W
  on_peer_receive_aborted ref error_code s = cancel ref cancelled s

  unfoldable pub on_stream_closed : ℕ → State W → State W
  on_stream_closed ref s = cancel ref cancelled s
