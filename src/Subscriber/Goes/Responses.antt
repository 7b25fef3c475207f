-- ===== src/Subscriber/Goes/Responses.antt =====
-- The responses on a SUBSCRIBE stream, in src/subscriber_session.cpp, whatever they are.
use moqtopus.Common.{
  ℕ, zero, suc, ◌==◌, ◌≡◌, Bool, true, false, not, ◌&&◌, List, some, inl, inr, Bool-cases,
  Option-cases, is_empty,
}
use moqtopus.Types.{ByteBuffer}
use moqtopus.Codec.Framing.{ControlMessage, next_message}
use moqtopus.Codec.Messages.{
  message_subscribe_ok, message_request_error, message_request_ok, message_publish_done,
}
use moqtopus.Codec.Messages.{message_goaway}
use moqtopus.Session.{stream_cut, publisher_reset, stream_shut_down, invalid_first_response}
use moqtopus.Subscriber.{
  SubscriptionRequest, State, App, is_terminated, is_pending, request_at, put_request,
}
use moqtopus.Subscriber.Response.{
  by_message_type, handle_control_message, response_loop, on_receive, on_peer_send_aborted,
  on_stream_closed,
}
use moqtopus.Subscriber.Goes.{loosen, Goes, Goes-refl, Goes-trans}
use moqtopus.Subscriber.Goes.Closing.{AppGoes}
use moqtopus.Subscriber.Goes.Established.{buffered-Goes, ends, on_subscribe_ok-Goes}
use moqtopus.Subscriber.Goes.Answers.{on_request_error-Goes, on_request_ok-Goes, publish_ended-Goes}

module _ {W : Type 0} (app : App W) (app_goes : AppGoes true app) where
  by_message_type-Goes :
      (ref : ℕ) (r : SubscriptionRequest) (message : ControlMessage) (s : State W)
      → request_at ref s ≡ some r
      → Goes false s (by_message_type app ref r message s)
  unfolding by_message_type
  by_message_type-Goes ref r message s there =
      elim (Bool-cases (message.type == message_subscribe_ok)) [
        | inl a ↦ rw a (on_subscribe_ok-Goes app app_goes ref r message.payload s there)
        | inr a ↦ elim (Bool-cases (message.type == message_request_error)) [
          | inl b ↦ rw (a, b) (on_request_error-Goes app app_goes ref r message.payload s there)
          | inr b ↦ elim (Bool-cases (message.type == message_request_ok)) [
            | inl c ↦ rw (a, b, c) (on_request_ok-Goes app app_goes ref r message.payload s there)
            | inr c ↦ elim (Bool-cases (message.type == message_publish_done)) [
              | inl d ↦ rw (a, b, c, d) (publish_ended-Goes app app_goes ref r message.payload s)
              | inr d ↦ elim (Bool-cases (message.type == message_goaway)) [
                | inl e ↦ rw (a, b, c, d, e) (Goes-refl false s)
                | inr e ↦ rw (a, b, c, d, e) (loosen _ _ (app_goes.on_error r.handler _ s))
              ]
            ]
          ]
        ]
      ]

  handle_control_message-Goes :
      (ref : ℕ) (message : ControlMessage) (s : State W)
      → Goes false s (handle_control_message app ref message s)
  unfolding handle_control_message
  handle_control_message-Goes ref message s = elim (Option-cases (request_at ref s)) [
    | inl gone ↦ rw (gone, handle_control_message) (Goes-refl false s)
    | inr (r, there) ↦
        rw (there, handle_control_message)
          (elim (Bool-cases (
            is_pending r.phase
            && (not (message.type == message_subscribe_ok)
                && not (message.type == message_request_error)))) [
                  | inl wrong ↦ rw wrong (ends app app_goes ref invalid_first_response s)
                  | inr right ↦ rw right (by_message_type-Goes ref r message s there)
                ])
  ]

  response_loop-Goes :
      (n ref : ℕ) (fin : Bool) (s : State W) → Goes false s (response_loop app n ref fin s)
  unfolding response_loop
  response_loop-Goes zero ref fin s = Goes-refl false s
  response_loop-Goes (suc n) ref fin s = elim (Option-cases (request_at ref s)) [
    | inl gone ↦ rw (gone, response_loop) (Goes-refl false s)
    | inr (r, there) ↦ elim (Bool-cases (is_terminated r.phase)) [
      | inl over ↦ rw (there, response_loop, over) (Goes-refl false s)
      | inr live ↦ elim (Option-cases (next_message r.response_buffer)) [
        | inl waits ↦ elim (Bool-cases (fin && not (is_empty r.response_buffer))) [
          | inl cut ↦
              rw (there, response_loop, live, waits, cut) (ends app app_goes ref stream_cut s)
          | inr more ↦ rw (there, response_loop, live, waits, more) (Goes-refl false s)
        ]
        | inr ((message, rest), read) ↦
            let left : State W = put_request ref (record r { response_buffer = rest }) s in
            rw (there, response_loop, live, read)
              (Goes-trans false _ _ _ (buffered-Goes s ref r rest there) (
                Goes-trans false _ _ _ (handle_control_message-Goes ref message left)
                  (response_loop-Goes n ref fin _)))
      ]
    ]
  ]

  pub on_receive-Goes :
      (ref : ℕ) (chunks : List ByteBuffer) (fin : Bool) (s : State W)
      → Goes false s (on_receive app ref chunks fin s)
  unfolding on_receive
  on_receive-Goes ref chunks fin s = elim (Option-cases (request_at ref s)) [
    | inl gone ↦ rw (gone, on_receive) (Goes-refl false s)
    | inr (r, there) ↦
        rw (there, on_receive)
          (Goes-trans false _ _ _ (buffered-Goes s ref r _ there) (response_loop-Goes _ ref fin _))
  ]

  pub on_peer_send_aborted-Goes :
      (ref code : ℕ) (s : State W) → Goes false s (on_peer_send_aborted app ref code s)
  unfolding on_peer_send_aborted
  on_peer_send_aborted-Goes ref code s = ends app app_goes ref (publisher_reset code) s

  pub on_stream_closed-Goes : (ref : ℕ) (s : State W) → Goes false s (on_stream_closed app ref s)
  unfolding on_stream_closed
  on_stream_closed-Goes ref s = ends app app_goes ref stream_shut_down s
