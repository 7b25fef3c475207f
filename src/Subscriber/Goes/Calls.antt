-- ===== src/Subscriber/Goes/Calls.antt =====
-- The other calls of the application and of the session, in src/subscriber_session.cpp.
use moqtopus.Common.{
  ℕ, ◌==◌, ◌≡◌, refl, arith, Bool, true, false, List, [], ◌∷◌, ◌++◌, Option, none, some, inl, inr,
  Bool-cases, Option-cases, if◌then◌else◌, find, ok, err, Result,
}
use moqtopus.Types.{ByteBuffer, Parameter}
use moqtopus.Codec.Framing.{ControlMessage}
use moqtopus.Codec.Messages.{message_publish, encode_request_update, encode_request_error}
use moqtopus.Session.{Session, raised, update_unsent, update_too_early}
use moqtopus.Session.Gate.{fetch_stream_type, known_peer_request_type}
use moqtopus.Session.Lifecycle.{allocate_request_id}
use moqtopus.Subscriber.{
  SubscriptionPhase, SubscriptionRequest, broken, State, App, is_established, request_at,
  put_request, change, fail,
}
use moqtopus.Subscriber.Calls.{
  send_request_update, try_update, update_established, request_update, handle_data_stream,
  on_datagram, refuse, handle_peer_request,
}
use moqtopus.Subscriber.Goes.{
  Moves-refl, Tidy, holds, Aside, Aside-Goes, Goes, Goes-refl, Goes-trans,
}
use moqtopus.Subscriber.Goes.Requests.{changed-Goes}
use moqtopus.Subscriber.Goes.Closing.{
  AppGoes, session-Goes, protocol_violation-Goes, start_subgroup_stream-Goes, plane_datagram-Goes,
}
use moqtopus.Subscriber.Goes.Subscribes.{
  allocated_id, is_in-append, at_established, broken-Goes, with_promise-Goes,
}

module _ {W : Type 0} (app : App W) (app_goes : AppGoes true app) where
  -- A promise is put behind those of the updates of an established request.
  pub queued-Goes :
      (s : State W) (ref promise : ℕ) (r : SubscriptionRequest)
      → request_at ref s ≡ some r
      → r.phase ≡ SubscriptionPhase.established
      → Goes true s (put_request ref (record r { updates = r.updates ++ (promise ∷ []) }) s)
  unfolding holds
  queued-Goes s ref promise r there phase h =
      let tidy : Tidy SubscriptionPhase.established r = rw phase at (h.tidy ref r there) in
      changed-Goes true s (put_request ref (record r { updates = r.updates ++ (promise ∷ []) }) s)
        ref r (record r { updates = r.updates ++ (promise ∷ []) })
        (record {
          before = there;
          requests = refl;
          named = refl;
          forward = Moves-refl true r.phase;
          tidy = rw phase (tidy.0, tidy.1);
          promises = λ p held. inl (held_still p held);
          ids = omega arith;
          settled = λ p o e. e;
        })
        refl refl h
    where
      held_still :
          (p : ℕ)
          → holds p r ≡ true
          → holds p (record r { updates = r.updates ++ (promise ∷ []) }) ≡ true
      held_still p held = ground (arith, held, is_in-append p r.updates (promise ∷ []))

  send_request_update-Goes :
      (promise id ref stream : ℕ) (update : List Parameter) (r : SubscriptionRequest) (s : State W)
      → request_at ref s ≡ some r
      → r.phase ≡ SubscriptionPhase.established
      → Goes true s (send_request_update app promise id ref stream update s)
  unfolding send_request_update
  send_request_update-Goes promise id ref stream update r s there phase =
      by_bytes (encode_request_update id update)
    where
      by_sent :
          (x : Bool × State W)
          → Aside s x.1
          → Goes true s (
              if x.0
              then change ref (λ y. record y { updates = y.updates ++ (promise ∷ []) }) x.1
              else fail promise (broken update_unsent) x.1)
      by_sent (true, s1) a =
          let now : request_at ref s1 ≡ some r = rw a.requests there in
          rw (now, change)
            (Goes-trans true s s1 _ (Aside-Goes true s s1 a)
              (queued-Goes s1 ref promise r now phase))
      by_sent (false, s1) a =
          Goes-trans true s s1 _ (Aside-Goes true s s1 a) (broken-Goes promise _ s1)

      by_bytes :
          (x : Result ByteBuffer)
          → Goes true s (elim x [
            | err error ↦ fail promise (broken (raised error)) s
            | ok bytes ↦
                let (sent, s1) = app.send stream bytes false s in
                if sent
                then change ref (λ y. record y { updates = y.updates ++ (promise ∷ []) }) s1
                else fail promise (broken update_unsent) s1
          ])
      by_bytes (err error) = broken-Goes promise _ s
      by_bytes (ok bytes) =
          by_sent (app.send stream bytes false s) (app_goes.send stream bytes false s)

  try_update-Goes :
      (promise ref stream : ℕ) (update : List Parameter) (r : SubscriptionRequest) (s : State W)
      → request_at ref s ≡ some r
      → r.phase ≡ SubscriptionPhase.established
      → Goes true s (try_update app promise ref stream update s)
  unfolding try_update
  try_update-Goes promise ref stream update r s there phase =
      by_id (allocate_request_id s.session) refl
    where
      by_id :
          (x : Result (ℕ × Session))
          → allocate_request_id s.session ≡ x
          → Goes true s (elim x [
            | err error ↦ fail promise (broken (raised error)) s
            | ok (request_id, session) ↦
                send_request_update app promise request_id ref stream update
                  (record s { session = session })
          ])
      by_id (err error) e = broken-Goes promise _ s
      by_id (ok (id, y)) e =
          let (at, next) = allocated_id s.session y id e in
          Goes-trans true s (record s { session = y }) _
            (session-Goes true s y (omega (arith, next)))
            (send_request_update-Goes promise id ref stream update r (record s { session = y })
              there phase)

  update_established-Goes :
      (promise ref : ℕ) (update : List Parameter) (s : State W)
      → Goes true s (update_established app promise ref update s)
  unfolding update_established
  update_established-Goes promise ref update s = elim (Option-cases (request_at ref s)) [
    | inl gone ↦ rw (gone, update_established) (Goes-refl true s)
    | inr (r, there) ↦ elim (Bool-cases (is_established r.phase)) [
      | inl now ↦
          rw (there, update_established, now)
            (try_update-Goes promise ref r.stream update r s there (at_established r.phase now))
      | inr early ↦ rw (there, update_established, early) (broken-Goes promise _ s)
    ]
  ]

  pub request_update-Goes :
      (id : ℕ) (update : List Parameter) (s : State W)
      → Goes true s (request_update app id update s).1
  unfolding request_update
  request_update-Goes id update s =
      with_promise-Goes _ s (λ promise t. by_entry promise t (find id t.subscriptions))
    where
      by_entry :
          (promise : ℕ) (t : State W) (x : Option ℕ)
          → Goes true t (elim x [
            | none ↦ fail promise (broken update_too_early) t
            | some ref ↦ update_established app promise ref update t
          ])
      by_entry promise t none = broken-Goes promise _ t
      by_entry promise t (some ref) = update_established-Goes promise ref update t

  pub handle_data_stream-Goes :
      (type stream : ℕ) (prefix : ByteBuffer) (fin : Bool) (s : State W)
      → Goes true s (handle_data_stream app type stream prefix fin s)
  unfolding handle_data_stream
  handle_data_stream-Goes type stream prefix fin s = elim (Bool-cases (type == fetch_stream_type)) [
    | inl fetch ↦ rw fetch (app_goes.abort_receive stream 0 s)
    | inr data_stream ↦
        rw data_stream (start_subgroup_stream-Goes true app app_goes stream prefix fin s)
  ]

  pub on_datagram-Goes : (bytes : ByteBuffer) (s : State W) → Goes true s (on_datagram app bytes s)
  unfolding on_datagram
  on_datagram-Goes bytes s = plane_datagram-Goes true app app_goes bytes s

  refuse-Goes :
      (stream code : ℕ) (reason : ByteBuffer) (s : State W)
      → Goes true s (refuse app stream code reason s)
  unfolding refuse
  refuse-Goes stream code reason s = by_bytes (encode_request_error code reason 0)
    where
      by_bytes :
          (x : Result ByteBuffer)
          → Goes true s (elim x [
            | err error ↦ s
            | ok bytes ↦
                let (sent, s1) = app.send stream bytes true s in app.abort_receive stream 0 s1
          ])
      by_bytes (err error) = Goes-refl true s
      by_bytes (ok bytes) =
          Goes-trans true _ _ _ (Aside-Goes true s _ (app_goes.send stream bytes true s))
            (app_goes.abort_receive stream 0 _)

  pub handle_peer_request-Goes :
      (message : ControlMessage) (stream : ℕ) (s : State W)
      → Goes true s (handle_peer_request app message stream s)
  unfolding handle_peer_request
  handle_peer_request-Goes message stream s =
      elim (Bool-cases (known_peer_request_type message.type)) [
        | inr unknown ↦ rw unknown (protocol_violation-Goes true app app_goes _ s)
        | inl known ↦ elim (Bool-cases (message.type == message_publish)) [
          | inl publish ↦ rw (known, publish) (refuse-Goes stream _ _ s)
          | inr other ↦ rw (known, other) (refuse-Goes stream _ _ s)
        ]
      ]
