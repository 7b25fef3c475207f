-- ===== src/Subscriber/Response.antt =====
-- The responses on a SUBSCRIBE stream, in src/subscriber_session.cpp. `ref` is the request's place on
-- the heap.
use moqtopus.Common.{
  ℕ, zero, suc, length, ◌==◌, Bool, true, false, not, ◌&&◌, List, [], ◌∷◌, ◌++◌, Option, none, some,
  if◌then◌else◌, is_empty, ok, err,
}
use moqtopus.Types.{duplicate_track_alias_code, ByteBuffer, RequestOk}
use moqtopus.Codec.Framing.{ControlMessage, next_message}
use moqtopus.Codec.Messages.{
  message_goaway, message_subscribe_ok, message_request_error, message_request_ok,
  message_publish_done,
}
use moqtopus.Codec.Decoders.{
  decode_subscribe_ok, decode_request_error, decode_request_ok, decode_publish_done,
}
use moqtopus.Receive.{ReceiveRoute}
use moqtopus.Receive.Subgroup.{concat}
use moqtopus.Receive.Establish.{install_route}
use moqtopus.Session.{
  text, raised, stream_cut, stream_shut_down, invalid_first_response, duplicate_subscribe_ok,
  error_unrequested, ok_unrequested, ok_with_properties, duplicate_track_alias, publisher_reset,
  invalid_response,
}
use moqtopus.Subscriber.{
  SubscriptionPhase, SubscriptionRequest, Outcome, subscribed, updated, rejected, State, App,
  is_terminated, is_pending, request_at, put_request, enter_plane, leave_plane, set_value, fail_all,
}
use moqtopus.Subscriber.Request.{no_reason, fail_result, retire, terminate, begin_close, owner}

-- `std::make_shared<ReceiveRoute>()`, for a request.
abbrev pub new_route : SubscriptionRequest → ReceiveRoute
new_route r = record {
  request_id = r.request_id;
  active = true;
  handler = r.handler;
  final_object_in_group = [];
  final_object_in_track = none;
}

module _ {W : Type 0} where
  -- `result_->set_value(...)`; without a promise there is nothing to set, and the program ends.
  unfoldable pub settle_result : Option ℕ → Outcome → State W → State W
  settle_result none outcome s = record s { crashed = true }
  settle_result (some promise) outcome s = set_value promise outcome s

  -- The end of SUBSCRIBE_OK, behind the objects that waited for the alias.
  unfoldable pub become_established : ℕ → ℕ → State W → State W
  become_established ref alias s = elim (request_at ref s) [
    | none ↦ s
    | some r ↦
        if is_terminated r.phase
        then retire (some alias) s
        else settle_result r.result (subscribed r.request_id alias) (
            put_request ref
              (record r {
                track_alias = some alias;
                phase = SubscriptionPhase.established;
                result = none;
              })
              s)
  ]

  -- `updates_.front().set_value(*ok); updates_.pop_front();`
  unfoldable pub settle_front : ℕ → SubscriptionRequest → List ℕ → RequestOk → State W → State W
  settle_front ref r [] answer s = s
  settle_front ref r (promise ∷ promises) answer s =
      set_value promise (updated answer) (put_request ref (record r { updates = promises }) s)

module _ {W : Type 0} (app : App W) where
  open app use {on_error, on_publish_done}

  -- The new route goes on the plane's heap before it is installed.
  unfoldable pub install : ℕ → ReceiveRoute → State W → Bool × State W
  install alias route s =
      let place : ℕ = length s.plane.routes in
      let made : State W = record s {
        plane = record s.plane { routes = s.plane.routes ++ (route ∷ []) };
      } in
      let (installed, t) = install_route (owner app) alias place (enter_plane made) in
      (installed, leave_plane t)

  unfoldable pub on_subscribe_ok : ℕ → SubscriptionRequest → ByteBuffer → State W → State W
  on_subscribe_ok ref r payload s =
      if not (is_pending r.phase)
      then terminate app ref duplicate_subscribe_ok s
      else elim (decode_subscribe_ok payload) [
        | err error ↦ terminate app ref (raised error) s
        | ok message ↦
            let (installed, s1) = install message.track_alias (new_route r) s in
            if installed
            then become_established ref message.track_alias s1
            else begin_close app duplicate_track_alias_code duplicate_track_alias s1
      ]

  unfoldable pub on_request_error : ℕ → SubscriptionRequest → ByteBuffer → State W → State W
  on_request_error ref r payload s = elim (decode_request_error payload) [
    | err error ↦ terminate app ref (raised error) s
    | ok e ↦
        let refusal : Outcome = rejected e.code e.retry_interval (text e.reason) in
        if is_pending r.phase
        then terminate app ref no_reason
            (put_request ref (record r { result = none }) (fail_result r.result refusal s))
        else if is_empty r.updates
        then terminate app ref error_unrequested s
        else put_request ref (record r { updates = []; phase = SubscriptionPhase.update_failed })
            (fail_all r.updates refusal s)
  ]

  unfoldable pub on_request_ok : ℕ → SubscriptionRequest → ByteBuffer → State W → State W
  on_request_ok ref r payload s =
      if is_empty r.updates
      then terminate app ref ok_unrequested s
      else elim (decode_request_ok payload) [
        | err error ↦ terminate app ref (raised error) s
        | ok answer ↦
            if not (is_empty answer.track_properties)
            then terminate app ref ok_with_properties s
            else settle_front ref r r.updates answer s
      ]

  unfoldable pub publish_ended : ℕ → SubscriptionRequest → ByteBuffer → State W → State W
  publish_ended ref r payload s = elim (decode_publish_done payload) [
    | err error ↦ terminate app ref (raised error) s
    | ok end ↦ terminate app ref no_reason (on_publish_done r.handler end s)
  ]

  -- The `switch` of `handle_control_message`.
  unfoldable pub by_message_type : ℕ → SubscriptionRequest → ControlMessage → State W → State W
  by_message_type ref r message s =
      if message.type == message_subscribe_ok
      then on_subscribe_ok ref r message.payload s
      else if message.type == message_request_error
      then on_request_error ref r message.payload s
      else if message.type == message_request_ok
      then on_request_ok ref r message.payload s
      else if message.type == message_publish_done
      then publish_ended ref r message.payload s
      else if message.type == message_goaway
      then s
      else on_error r.handler (invalid_response message.type) s

  -- `handle_control_message`
  unfoldable pub handle_control_message : ℕ → ControlMessage → State W → State W
  handle_control_message ref message s = elim (request_at ref s) [
    | none ↦ s
    | some r ↦
        if is_pending r.phase
          && (not (message.type == message_subscribe_ok)
              && not (message.type == message_request_error))
        then terminate app ref invalid_first_response s
        else by_message_type ref r message s
  ]

  -- The loop of `on_receive`. Each message takes a byte of the buffer at least.
  unfoldable pub response_loop : ℕ → ℕ → Bool → State W → State W
  response_loop zero ref fin s = s
  response_loop (suc fuel) ref fin s = elim (request_at ref s) [
    | none ↦ s
    | some r ↦ elim (is_terminated r.phase) [
      | true ↦ s
      | false ↦ elim (next_message r.response_buffer) [
        | none ↦
            if fin && not (is_empty r.response_buffer) then terminate app ref stream_cut s else s
        | some (message, rest) ↦ response_loop fuel ref fin (
            handle_control_message ref message
              (put_request ref (record r { response_buffer = rest }) s))
      ]
    ]
  ]

  -- `on_receive`
  unfoldable pub on_receive : ℕ → List ByteBuffer → Bool → State W → State W
  on_receive ref chunks fin s = elim (request_at ref s) [
    | none ↦ s
    | some r ↦
        let buffer : ByteBuffer = r.response_buffer ++ concat chunks in
        response_loop (suc (length buffer)) ref fin
          (put_request ref (record r { response_buffer = buffer }) s)
  ]

  -- `on_peer_send_aborted`
  unfoldable pub on_peer_send_aborted : ℕ → ℕ → State W → State W
  on_peer_send_aborted ref error_code s = terminate app ref (publisher_reset error_code) s

  -- `on_stream_closed`
  unfoldable pub on_stream_closed : ℕ → State W → State W
  on_stream_closed ref s = terminate app ref stream_shut_down s
