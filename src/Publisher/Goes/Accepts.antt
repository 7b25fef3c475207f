-- ===== src/Publisher/Goes/Accepts.antt =====
-- The requests of the peer, in src/publisher_session.cpp.
use moqtopus.Common.{ℕ, ◌==◌, refl, Bool, ◌∷◌, inl, inr, Bool-cases, ==_self}
use moqtopus.Types.{ByteBuffer, internal_error, protocol_violation_code}
use moqtopus.Codec.Framing.{ControlMessage}
use moqtopus.Codec.Messages.{Subscribe, message_subscribe, message_publish}
use moqtopus.Codec.Decoders.{decode_subscribe}
use moqtopus.Codec.Decoders.Options.{no_options, decode_subscription_options}
use moqtopus.Session.{raised, early_peer_request, unknown_peer_request, is_closing, at_phase_ready}
use moqtopus.Session.Gate.{known_peer_request_type}
use moqtopus.Publisher.{State, App}
use moqtopus.Publisher.Request.{is_member, begin_close}
use moqtopus.Publisher.Accept.{
  with_options, with_subscribe, accept_subscribe, try_peer_request, handle_peer_request,
}
use moqtopus.Publisher.Goes.{Goes, Goes-refl, ActGoes, catch-Goes, outcome_cases}
use moqtopus.Publisher.Goes.Ends.{AppGoes, begin_close-Goes}
use moqtopus.Publisher.Goes.Updates.{consume_cases, Consumed-Goes}
use moqtopus.Publisher.Goes.Establish.{
  Taken, Reached, Reached, reach, unlisted, reject-Goes, admit-Reaches,
}

module _ {W : Type 0} (app : App W) (app_goes : AppGoes app) where
  with_options-Reaches :
      (stream : ℕ) (subscribe : Subscribe) (leftover : ByteBuffer) (fin : Bool) (u s : State W)
      → Taken u s subscribe.request_id
      → Reached u (with_options app stream subscribe leftover fin s).1
  unfolding with_options
  with_options-Reaches stream subscribe leftover fin u s k =
      elim (outcome_cases (decode_subscription_options subscribe.parameters no_options)) [
        | inl (options, e) ↦
            rw (with_options, e)
              (admit-Reaches app app_goes stream subscribe options leftover fin u s k)
        | inr (error, e) ↦
            rw (with_options, e)
              (reach u s _ _ k
                (begin_close-Goes app app_goes protocol_violation_code (raised error) s))
      ]

  with_subscribe-Goes :
      (stream : ℕ) (subscribe : Subscribe) (leftover : ByteBuffer) (fin : Bool)
      → ActGoes (with_subscribe app stream subscribe leftover fin)
  unfolding with_subscribe is_member
  with_subscribe-Goes stream subscribe leftover fin s h =
      elim (consume_cases subscribe.request_id s) [
        | inl c ↦
            rw (with_subscribe, c.answer, c.state) (begin_close-Goes app app_goes _ c.reason s h)
        | inr c ↦
            let id : ℕ = subscribe.request_id in
            let s1 : State W = record s { peer_request_ids = id ∷ s.peer_request_ids } in
            let (h1, l1) = Consumed-Goes id s c h in
            rw (with_subscribe, c.answer, c.state)
              (with_options-Reaches stream subscribe leftover fin s s1 (record {
                sound = h1;
                later = l1;
                unused = c.unused;
                known = rw (is_member, ==_self id) refl;
                new = unlisted s id h c.unused;
              }))
      ]

  accept_subscribe-Goes :
      (payload : ByteBuffer) (stream : ℕ) (leftover : ByteBuffer) (fin : Bool)
      → ActGoes (accept_subscribe app payload stream leftover fin)
  unfolding accept_subscribe
  accept_subscribe-Goes payload stream leftover fin s =
      elim (outcome_cases (decode_subscribe payload)) [
        | inl (subscribe, e) ↦
            rw (accept_subscribe, e) (with_subscribe-Goes stream subscribe leftover fin s)
        | inr (error, e) ↦
            rw (accept_subscribe, e) (begin_close-Goes app app_goes _ (raised error) s)
      ]

  try_peer_request-Goes :
      (message : ControlMessage) (stream : ℕ) (leftover : ByteBuffer) (fin : Bool)
      → ActGoes (try_peer_request app message stream leftover fin)
  unfolding try_peer_request
  try_peer_request-Goes message stream leftover fin s =
      elim (Bool-cases (message.type == message_subscribe)) [
        | inl subscribes ↦
            rw (try_peer_request, subscribes)
              (accept_subscribe-Goes message.payload stream leftover fin s)
        | inr other ↦ elim (Bool-cases (known_peer_request_type message.type)) [
          | inr unknown ↦
              rw (try_peer_request, other, unknown)
                (begin_close-Goes app app_goes _ (unknown_peer_request message.type) s)
          | inl known ↦ elim (Bool-cases (message.type == message_publish)) [
            | inl publishes ↦
                rw (try_peer_request, other, known, publishes)
                  (reject-Goes app app_goes stream _ _ s)
            | inr neither ↦
                rw (try_peer_request, other, known, neither) (reject-Goes app app_goes stream _ _ s)
          ]
        ]
      ]

  pub handle_peer_request-Goes :
      (message : ControlMessage) (stream : ℕ) (leftover : ByteBuffer) (fin : Bool) (s : State W)
      → Goes s (handle_peer_request app message stream leftover fin s)
  unfolding handle_peer_request
  handle_peer_request-Goes message stream leftover fin s =
      elim (Bool-cases (is_closing s.session.phase)) [
        | inl closing ↦ rw (handle_peer_request, closing) (Goes-refl s)
        | inr open_still ↦ elim (Bool-cases (at_phase_ready s.session.phase)) [
          | inr early ↦
              rw (handle_peer_request, open_still, early)
                (begin_close-Goes app app_goes _ early_peer_request s)
          | inl ready ↦
              rw (handle_peer_request, open_still, ready)
                (catch-Goes (try_peer_request app message stream leftover fin)
                  (begin_close app internal_error)
                  (try_peer_request-Goes message stream leftover fin)
                  (begin_close-Goes app app_goes internal_error) s)
        ]
      ]
