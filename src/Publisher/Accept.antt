-- ===== src/Publisher/Accept.antt =====
-- The requests of the peer, in src/publisher_session.cpp.
use moqtopus.Common.{
  ℕ, ◌+◌, ◌%◌, ◌^◌, length, ◌==◌, leb, Bool, true, false, not, [], ◌∷◌, ◌++◌, none, some,
  if◌then◌else◌, find, insert, ok, err,
}
use moqtopus.Common.Text.{ascii}
use moqtopus.Types.{
  ByteBuffer, internal_error, protocol_violation_code, invalid_request_id, not_supported,
  excessive_load, does_not_exist, uninterested, cancelled,
}
use moqtopus.Codec.Framing.{ControlMessage}
use moqtopus.Codec.Messages.{
  Subscribe, message_subscribe, message_publish, encode_subscribe_ok, encode_request_error,
}
use moqtopus.Codec.Decoders.{decode_subscribe}
use moqtopus.Codec.Decoders.Options.{SubscriptionOptions, no_options, decode_subscription_options}
use moqtopus.Codec.Objects.{is_some}
use moqtopus.Send.{TrackEntry}
use moqtopus.Send.Subscriptions.{code, find_track, attach_subscription}
use moqtopus.Session.{
  raised, early_peer_request, unknown_peer_request, subscribe_ok_unsent, is_closing, at_phase_ready,
}
use moqtopus.Session.Gate.{known_peer_request_type}
use moqtopus.Publisher.{
  SubscriptionRequest, State, App, request, Act, ◌>>=◌, ◌>>◌, throwing, modify, catch,
}
use moqtopus.Publisher.Namespaces.{reserved_namespace}
use moqtopus.Publisher.Request.{
  consume_peer_request_id, refusal_text, largest_of, begin_close, receive_bytes,
}

-- `SubscriptionRequest::SubscriptionRequest`
abbrev pub new_request : Subscribe → ℕ → SubscriptionRequest
new_request subscribe stream = record {
  request_id = subscribe.request_id;
  track_namespace = subscribe.track_namespace;
  track_name = subscribe.track_name;
  stream = stream;
  buffer = [];
  is_over = false;
}

module _ {W : Type 0} where
  -- The new request on the heap, and its entry in the map; an entry that is there stays.
  unfoldable pub add_request : SubscriptionRequest → State W → State W
  add_request r s = record s { requests = s.requests ++ (r ∷ []) }

  unfoldable pub emplace : ℕ → ℕ → State W → State W
  emplace id ref s =
      if is_some (find id s.subscriptions)
      then s
      else record s { subscriptions = insert id ref s.subscriptions }

module _ {W : Type 0} (app : App W) where
  open app use {set_sink, send, abort_receive}

  -- REQUEST_ERROR with FIN, and no more of the request.
  unfoldable pub reject : ℕ → ℕ → ByteBuffer → Act W (Unit {0})
  reject stream error reason = do
    bytes ← throwing (encode_request_error error reason 0)
    modify (λ s. (send stream bytes true s).1)
    modify (abort_receive stream cancelled)

  -- Whether SUBSCRIBE_OK was sent, and the bytes behind SUBSCRIBE.
  unfoldable pub after_ok : ℕ → ByteBuffer → Bool → Bool → Act W (Unit {0})
  after_ok ref leftover fin true s = receive_bytes app ref leftover fin s
  after_ok ref leftover fin false s = (ok tt, begin_close app internal_error subscribe_ok_unsent s)

  -- SUBSCRIBE_OK, for the track's entry as attaching left it.
  unfoldable pub send_ok : ℕ → ℕ → ℕ → TrackEntry → ByteBuffer → Bool → Act W (Unit {0})
  send_ok ref stream alias entry leftover fin = do
    bytes ←
        throwing (encode_subscribe_ok alias (largest_of entry.largest) entry.track.track_properties)
    sent ← λ s. let (sent, s1) = send stream bytes false s in (ok sent, s1)
    after_ok ref leftover fin sent

  -- The request that the plane has attached.
  unfoldable pub establish : ℕ → Subscribe → ℕ → TrackEntry → ByteBuffer → Bool → Act W (Unit {0})
  establish stream subscribe alias entry leftover fin s =
      let ref : ℕ = length s.requests in
      let made : State W = add_request (new_request subscribe stream) s in
      send_ok ref stream alias entry leftover fin
        (emplace subscribe.request_id ref (set_sink stream (request ref) made))

  -- The new alias, and the subscription of the plane.
  unfoldable pub attach :
      ℕ → Subscribe → SubscriptionOptions → TrackEntry → ByteBuffer → Bool → Act W (Unit {0})
  attach stream subscribe options entry leftover fin s =
      let alias : ℕ = s.next_track_alias in
      let (refused, plane) =
        attach_subscription subscribe.request_id alias subscribe.track_namespace
          subscribe.track_name options s.plane in
      let s1 : State W = record s { next_track_alias = (alias + 1) % 2 ^ 64; plane = plane } in
      elim refused [
        | some refusal ↦ reject stream (code refusal) (refusal_text refusal) s1
        | none ↦ establish stream subscribe alias entry leftover fin s1
      ]

  -- The checks on a SUBSCRIBE that was decoded.
  unfoldable pub admit : ℕ → Subscribe → SubscriptionOptions → ByteBuffer → Bool → Act W (Unit {0})
  admit stream subscribe options leftover fin s =
      if reserved_namespace subscribe.track_namespace
      then reject stream does_not_exist (ascii "reserved track namespace") s
      else if leb s.max_subscriptions (length s.subscriptions)
      then reject stream excessive_load (ascii "subscription limit reached") s
      else elim (find_track subscribe.track_namespace subscribe.track_name s.plane) [
        | none ↦ reject stream does_not_exist (ascii "track is not published here") s
        | some entry ↦ attach stream subscribe options entry leftover fin s
      ]

  unfoldable pub with_options : ℕ → Subscribe → ByteBuffer → Bool → Act W (Unit {0})
  with_options stream subscribe leftover fin s =
      elim (decode_subscription_options subscribe.parameters no_options) [
        | err error ↦ (ok tt, begin_close app protocol_violation_code (raised error) s)
        | ok options ↦ admit stream subscribe options leftover fin s
      ]

  unfoldable pub with_subscribe : ℕ → Subscribe → ByteBuffer → Bool → Act W (Unit {0})
  with_subscribe stream subscribe leftover fin s =
      let (refused, s1) = consume_peer_request_id subscribe.request_id s in
      elim refused [
        | some reason ↦ (ok tt, begin_close app invalid_request_id reason s1)
        | none ↦ with_options stream subscribe leftover fin s1
      ]

  -- `Publisher::accept_subscribe`
  unfoldable pub accept_subscribe : ByteBuffer → ℕ → ByteBuffer → Bool → Act W (Unit {0})
  accept_subscribe payload stream leftover fin s = elim (decode_subscribe payload) [
    | err error ↦ (ok tt, begin_close app protocol_violation_code (raised error) s)
    | ok subscribe ↦ with_subscribe stream subscribe leftover fin s
  ]

  -- The `try` block of `handle_peer_request`.
  unfoldable pub try_peer_request : ControlMessage → ℕ → ByteBuffer → Bool → Act W (Unit {0})
  try_peer_request message stream leftover fin s =
      if message.type == message_subscribe
      then accept_subscribe message.payload stream leftover fin s
      else if not (known_peer_request_type message.type)
      then (ok tt, begin_close app protocol_violation_code (unknown_peer_request message.type) s)
      else if message.type == message_publish
      then reject stream uninterested (ascii "publisher is not accepting PUBLISH") s
      else reject stream not_supported (ascii "publisher-only implementation") s

  -- `Publisher::handle_peer_request`
  unfoldable pub handle_peer_request : ControlMessage → ℕ → ByteBuffer → Bool → State W → State W
  handle_peer_request message stream leftover fin s =
      if is_closing s.session.phase
      then s
      else if not (at_phase_ready s.session.phase)
      then begin_close app protocol_violation_code early_peer_request s
      else catch (try_peer_request message stream leftover fin) (begin_close app internal_error) s
