-- ===== src/Publisher/Goes/Updates.antt =====
-- The bytes of a SUBSCRIBE stream behind its first message, in src/publisher_session.cpp.
use moqtopus.Common.{
  ℕ, zero, suc, ◌%◌, ◌==◌, ◌≡◌, ◌⊎◌, refl, arith, Bool, true, false, List, ◌∷◌, Option, none, some,
  inl, inr, Bool-cases, Option-cases, if◌then◌else◌, ==→eq,
}
use moqtopus.Types.{ByteBuffer, Parameter, update_failed_code}
use moqtopus.Codec.Framing.{next_message}
use moqtopus.Codec.Messages.{
  RequestUpdateMessage, message_request_update, encode_request_error, encode_request_ok,
}
use moqtopus.Codec.Decoders.{decode_request_update}
use moqtopus.Codec.Decoders.Options.{SubscriptionOptions, no_options, decode_subscription_options}
use moqtopus.Receive.Subgroup.{concat}
use moqtopus.Send.{TrackEntry, SendDataPlane}
use moqtopus.Send.Subscriptions.{Refusal, code}
use moqtopus.Session.{Reason, raised, stream_cut, client_parity, duplicate_peer_id}
use moqtopus.Publisher.{SubscriptionRequest, State, App, put_request, request_at, escape}
use moqtopus.Publisher.Request.{
  protocol_violation, is_member, refusal_text, largest_parameters, consume_peer_request_id,
  refuse_update, confirm_update, answer_update, apply_update, decode_and_apply, take_update,
  handle_request_update, process_buffer, receive_bytes, on_receive,
}
use moqtopus.Publisher.Goes.{
  Goes, Goes-refl, Goes-trans, Aside-Goes, ActGoes, bind-Goes, catch-Goes, outcome_cases,
}
use moqtopus.Publisher.Goes.Requests.{changed-Goes}
use moqtopus.Publisher.Goes.Ends.{AppGoes, finish-Goes, begin_close-Goes, protocol_violation-Goes}

module _ {W : Type 0} where
  -- What becomes of a Request ID of the peer: it is refused, or it is odd and new, and is used from now on.
  pub record Consumed (id : ℕ) (s : State W) : Type 0 where
    pub odd : id % 2 ≡ 1
    pub unused : is_member id s.peer_request_ids ≡ false
    pub answer : (consume_peer_request_id id s).0 ≡ none
    pub state :
        (consume_peer_request_id id s).1 ≡ record s { peer_request_ids = id ∷ s.peer_request_ids }

  pub record Refused (id : ℕ) (s : State W) : Type 0 where
    pub reason : Reason
    pub answer : (consume_peer_request_id id s).0 ≡ some reason
    pub state : (consume_peer_request_id id s).1 ≡ s

  pub consume_cases : (id : ℕ) (s : State W) → Refused id s ⊎ Consumed id s
  unfolding consume_peer_request_id
  consume_cases id s = elim (Bool-cases (id % 2 == 0)) [
    | inl even ↦ inl (record {
      reason = client_parity id;
      answer = rw (consume_peer_request_id, even) refl;
      state = rw (consume_peer_request_id, even) refl;
    })
    | inr odd ↦ elim (Bool-cases (is_member id s.peer_request_ids)) [
      | inl used ↦ inl (record {
        reason = duplicate_peer_id id;
        answer = rw (consume_peer_request_id, odd, used) refl;
        state = rw (consume_peer_request_id, odd, used) refl;
      })
      | inr unused ↦ inr (record {
        odd = ground (arith, odd);
        unused = unused;
        answer = rw (consume_peer_request_id, odd, unused) refl;
        state = rw (consume_peer_request_id, odd, unused) refl;
      })
    ]
  ]

  -- The state with a Request ID that is odd and new.
  pub Consumed-Goes :
      (id : ℕ) (s : State W)
      → Consumed id s
      → Goes s (record s { peer_request_ids = id ∷ s.peer_request_ids })
  unfolding is_member
  Consumed-Goes id s c h = (
    record {
      listed = h.listed;
      entries = λ other ref e.
          let x = h.entries other ref e in
          record {
            request = x.request;
            there = x.there;
            named = x.named;
            live = x.live;
            known = later_member other x.known;
          };
      odd = λ other e. elim (Bool-cases (id == other)) [
        | inl same ↦ rw (← ==→eq id other same) c.odd
        | inr differs ↦ h.odd other (rw differs at e)
      ];
      limited = h.limited;
    },
    record {
      became = λ ref r e. record { request = r; there = e; named = refl; over = λ o. o };
      used = later_member;
      fresh = λ other ref e. inl e;
      limit = refl;
    },
  )
    where
      later_member :
          (other : ℕ)
          → is_member other s.peer_request_ids ≡ true
          → is_member other (id ∷ s.peer_request_ids) ≡ true
      later_member other e = ground (arith, e)

  pub plane-Goes : (s : State W) (p : SendDataPlane) → Goes s (record s { plane = p })
  plane-Goes s p =
      Aside-Goes _ _
        (record { requests = refl; subscriptions = refl; peer_request_ids = refl; limit = refl })

  -- The bytes of a request that are kept.
  pub buffered-Goes :
      (ref : ℕ) (r : SubscriptionRequest) (bytes : ByteBuffer) (s : State W)
      → request_at ref s ≡ some r
      → Goes s (put_request ref (record r { buffer = bytes }) s)
  buffered-Goes ref r bytes s there =
      changed-Goes s _ ref r (record r { buffer = bytes })
        (record {
          before = there;
          requests = refl;
          named = refl;
          over = λ e. e;
          peer_request_ids = refl;
          limit = refl;
        })
        refl refl

module _ {W : Type 0} (app : App W) (app_goes : AppGoes app) where
  refuse_update-Goes :
      (ref : ℕ) (r : SubscriptionRequest) (refusal : Refusal)
      → ActGoes (refuse_update app ref r refusal)
  unfolding refuse_update
  refuse_update-Goes ref r refusal s =
      elim (outcome_cases (encode_request_error (code refusal) (refusal_text refusal) 0)) [
        | inl (bytes, e) ↦
            rw (refuse_update, e)
              (Goes-trans s _ _ (app_goes.send r.stream bytes false s)
                (finish-Goes app app_goes ref update_failed_code (refusal_text refusal) _))
        | inr (error, e) ↦ rw (refuse_update, e) (Goes-refl s)
      ]

  confirm_update-Goes :
      (r : SubscriptionRequest) (track : Option TrackEntry) → ActGoes (confirm_update app r track)
  unfolding confirm_update
  confirm_update-Goes r track s =
      elim (outcome_cases (encode_request_ok (largest_parameters track))) [
        | inl (bytes, e) ↦ rw (confirm_update, e) (app_goes.send r.stream bytes false s)
        | inr (error, e) ↦ rw (confirm_update, e) (Goes-refl s)
      ]

  answer_update-Goes :
      (ref : ℕ) (r : SubscriptionRequest) (refused : Option Refusal)
      → ActGoes (answer_update app ref r refused)
  unfolding answer_update
  answer_update-Goes ref r none s = confirm_update-Goes r _ s
  answer_update-Goes ref r (some refusal) s = refuse_update-Goes ref r refusal s

  apply_update-Goes :
      (ref : ℕ) (r : SubscriptionRequest) (options : SubscriptionOptions)
      → ActGoes (apply_update app ref r options)
  unfolding apply_update
  apply_update-Goes ref r options s =
      Goes-trans s _ _ (plane-Goes s _) (answer_update-Goes ref r _ _)

  decode_and_apply-Goes :
      (ref : ℕ) (r : SubscriptionRequest) (parameters : List Parameter)
      → ActGoes (decode_and_apply app ref r parameters)
  unfolding decode_and_apply
  decode_and_apply-Goes ref r parameters s =
      elim (outcome_cases (decode_subscription_options parameters no_options)) [
        | inl (options, e) ↦ rw (decode_and_apply, e) (apply_update-Goes ref r options s)
        | inr (error, e) ↦
            rw (decode_and_apply, e) (protocol_violation-Goes app app_goes (raised error) s)
      ]

  take_update-Goes :
      (ref : ℕ) (r : SubscriptionRequest) (update : RequestUpdateMessage)
      → ActGoes (take_update app ref r update)
  unfolding take_update
  take_update-Goes ref r update s = elim (consume_cases update.request_id s) [
    | inl c ↦ rw (take_update, c.answer, c.state) (begin_close-Goes app app_goes _ c.reason s)
    | inr c ↦
        rw (take_update, c.answer, c.state)
          (Goes-trans s _ _ (Consumed-Goes update.request_id s c)
            (decode_and_apply-Goes ref r update.parameters _))
  ]

  handle_request_update-Goes :
      (ref : ℕ) (r : SubscriptionRequest) (payload : ByteBuffer)
      → ActGoes (handle_request_update app ref r payload)
  unfolding handle_request_update
  handle_request_update-Goes ref r payload s =
      elim (outcome_cases (decode_request_update payload)) [
        | inl (update, e) ↦ rw (handle_request_update, e) (take_update-Goes ref r update s)
        | inr (error, e) ↦
            rw (handle_request_update, e) (protocol_violation-Goes app app_goes (raised error) s)
      ]

  cut-Goes :
      (cut : Bool) (s : State W) → Goes s (if cut then protocol_violation app stream_cut s else s)
  cut-Goes true s = protocol_violation-Goes app app_goes stream_cut s
  cut-Goes false s = Goes-refl s

  process_buffer-Goes : (fuel ref : ℕ) (fin : Bool) → ActGoes (process_buffer app fuel ref fin)
  unfolding process_buffer
  process_buffer-Goes zero ref fin s = Goes-refl s
  process_buffer-Goes (suc fuel) ref fin s = elim (Option-cases (request_at ref s)) [
    | inl gone ↦ rw (process_buffer, gone) (Goes-refl s)
    | inr (r, there) ↦ elim (Bool-cases r.is_over) [
      | inl over ↦ rw (process_buffer, there, over) (Goes-refl s)
      | inr live ↦ elim (Option-cases (next_message r.buffer)) [
        | inl short ↦ rw (process_buffer, there, live, short) (cut-Goes _ s)
        | inr ((message, rest), got) ↦ elim (Bool-cases (message.type == message_request_update)) [
          | inl update ↦
              rw (process_buffer, there, live, got, update)
                (Goes-trans s _ _ (buffered-Goes ref r rest s there) (
                  bind-Goes (handle_request_update app ref r message.payload)
                    (λ u. process_buffer app fuel ref fin)
                    (handle_request_update-Goes ref r message.payload)
                    (λ u. process_buffer-Goes fuel ref fin) _))
          | inr other ↦
              rw (process_buffer, there, live, got, other)
                (Goes-trans s _ _ (buffered-Goes ref r rest s there)
                  (protocol_violation-Goes app app_goes _ _))
        ]
      ]
    ]
  ]

  pub receive_bytes-Goes :
      (ref : ℕ) (bytes : ByteBuffer) (fin : Bool) → ActGoes (receive_bytes app ref bytes fin)
  unfolding receive_bytes
  receive_bytes-Goes ref bytes fin s = elim (Option-cases (request_at ref s)) [
    | inl gone ↦ rw (receive_bytes, gone) (Goes-refl s)
    | inr (r, there) ↦ elim (Bool-cases r.is_over) [
      | inl over ↦ rw (receive_bytes, there, over) (Goes-refl s)
      | inr live ↦
          rw (receive_bytes, there, live)
            (Goes-trans s _ _ (buffered-Goes ref r _ s there) (process_buffer-Goes _ ref fin _))
    ]
  ]

  pub on_receive-Goes :
      (ref : ℕ) (chunks : List ByteBuffer) (fin : Bool) (s : State W)
      → Goes s (on_receive app ref chunks fin s)
  unfolding on_receive escape
  on_receive-Goes ref chunks fin s =
      catch-Goes (receive_bytes app ref (concat chunks) fin)
        (λ reason t. record t { crashed = true }) (receive_bytes-Goes ref (concat chunks) fin)
        (λ reason t.
          Aside-Goes t (record t { crashed = true })
            (record {
              requests = refl;
              subscriptions = refl;
              peer_request_ids = refl;
              limit = refl;
            }))
        s
