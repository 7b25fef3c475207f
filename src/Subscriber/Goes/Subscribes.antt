-- ===== src/Subscriber/Goes/Subscribes.antt =====
-- A SUBSCRIBE of the application, in src/subscriber_session.cpp.
use moqtopus.Common.{
  ℕ, ◌+◌, ◌^◌, ◌-◌, ◌≤◌, ◌<◌, ltb, ◌≡◌, refl, ap, arith, length, Bool, true, false, List, [], ◌∷◌,
  ◌++◌, Option, none, some, inl, inr, Bool-cases, Option-cases, if◌then◌else◌, find, insert, ok,
  err, Result,
}
use moqtopus.Types.{ByteBuffer, SubscribeRequest}
use moqtopus.Codec.Messages.{encode_subscribe}
use moqtopus.Session.{
  at_phase_ready, Session, raised, subscribe_unsent, session_not_ready, handler_missing,
}
use moqtopus.Session.Lifecycle.{allocate_request_id}
use moqtopus.Subscriber.{
  SubscriptionPhase, SubscriptionRequest, Outcome, broken, State, App, is_established, fail,
}
use moqtopus.Subscriber.Request.{stop_subscription_now}
use moqtopus.Subscriber.Calls.{
  new_request, with_promise, add_request, emplace, send_subscribe, start_request, try_subscribe,
  subscribe,
}
use moqtopus.Subscriber.Goes.{IsSound, Later, Later-trans, is_in, Aside-Goes, Goes, Goes-trans}
use moqtopus.Subscriber.Goes.Added.{Added, added-IsSound, added-Later}
use moqtopus.Subscriber.Goes.Promises.{fail-Aside}
use moqtopus.Subscriber.Goes.Closing.{AppGoes, session-Goes, stop_subscription_now-Goes}

-- What `allocate_request_id` returns.
pub allocated_id :
    (x y : Session) (id : ℕ)
    → allocate_request_id x ≡ ok (id, y)
    → (id ≡ x.next_request_id) × (y.next_request_id ≡ x.next_request_id + 2)
unfolding allocate_request_id
allocated_id x y id e = elim (Bool-cases (ltb (2 ^ 64 - 1 - 2) x.next_request_id)) [
  | inl out ↦ absurd (ground (arith, e, out))
  | inr left ↦ ground (arith, e, left)
]

pub is_in-append : (p : ℕ) (xs ys : List ℕ) → is_in p xs ≡ true → is_in p (xs ++ ys) ≡ true
unfolding is_in
is_in-append p [] ys e = cc
is_in-append p (x ∷ xs) ys e = ground (arith, e, is_in-append p xs ys)

pub at_established :
    (phase : SubscriptionPhase)
    → is_established phase ≡ true
    → phase ≡ SubscriptionPhase.established
at_established SubscriptionPhase.established e = refl
at_established SubscriptionPhase.pending e = cc
at_established SubscriptionPhase.update_failed e = cc
at_established SubscriptionPhase.terminated e = cc

module _ {W : Type 0} where
  pub broken-Goes :
      (promise : ℕ) (outcome : Outcome) (s : State W) → Goes true s (fail promise outcome s)
  broken-Goes promise outcome s = Aside-Goes true s _ (fail-Aside promise outcome s)

  -- A new promise is not yet settled or held.
  pub with_promise-Goes :
      (rest : ℕ → State W → State W) (s : State W)
      → ((promise : ℕ) (t : State W) → Goes true t (rest promise t))
      → Goes true s (with_promise rest s).1
  with_promise-Goes rest s goes =
      Goes-trans true s (record s { next_promise = s.next_promise + 1 }) _
        (Aside-Goes true _ _ (record {
          requests = refl;
          subscriptions = refl;
          ids = omega arith;
          settled = λ p o e. e;
        }))
        (goes s.next_promise _)

module _ {W : Type 0} (app : App W) (app_goes : AppGoes true app) where
  pub send_subscribe-Goes :
      (promise id stream : ℕ) (request : SubscribeRequest) (s : State W)
      → Goes true s (send_subscribe app promise id stream request s)
  unfolding send_subscribe
  send_subscribe-Goes promise id stream request s = by_bytes (encode_subscribe id request)
    where
      by_sent :
          (x : Bool × State W)
          → Goes true s x.1
          → Goes true s (
              if x.0
              then x.1
              else fail promise
                  (broken subscribe_unsent)
                  (stop_subscription_now app id subscribe_unsent 0x0 x.1))
      by_sent (true, s1) g = g
      by_sent (false, s1) g = Goes-trans true _ _ _ g (
          Goes-trans true _ _ _
            (stop_subscription_now-Goes true app app_goes id subscribe_unsent 0x0 s1)
            (broken-Goes promise _ _))

      by_bytes :
          (x : Result ByteBuffer)
          → Goes true s (elim x [
            | err error ↦ fail promise (broken (raised error)) s
            | ok bytes ↦
                let (sent, s1) = app.send stream bytes false s in
                if sent
                then s1
                else fail promise
                    (broken subscribe_unsent)
                    (stop_subscription_now app id subscribe_unsent 0x0 s1)
          ])
      by_bytes (err error) = broken-Goes promise _ s
      by_bytes (ok bytes) =
          by_sent (app.send stream bytes false s)
            (Aside-Goes true s _ (app_goes.send stream bytes false s))

  -- From the state before the Request ID was given out, `u`.
  pub start_request-Goes :
      (promise id handler stream : ℕ) (request : SubscribeRequest) (u s : State W)
      → u.session.next_request_id ≤ id
      → id < s.session.next_request_id
      → (IsSound s → find id s.subscriptions ≡ none)
      → Goes true u s
      → Goes true u (start_request app promise id handler stream request s)
  unfolding start_request add_request emplace
  start_request-Goes promise id handler stream request u s given below unknown g h =
      let (hs, l) = g h in
      let new = unknown hs in
      let r : SubscriptionRequest = new_request id handler stream promise in
      let made : State W = add_request r s in
      let sunk : State W = app.set_sink stream (length s.requests) made in
      let a = app_goes.set_sink stream (length s.requests) made in
      let missing : find id sunk.subscriptions ≡ none = rw a.subscriptions new in
      let c : Added s (emplace id (length s.requests) sunk) r =
        rw (missing, emplace)
          (record {
            requests = a.requests;
            subscriptions =
                ap (λ (m : List (ℕ × ℕ)). insert id (length s.requests) m) a.subscriptions;
            tidy = (refl, refl, refl);
            live = refl;
            new = new;
            below = omega (arith, below, a.ids);
            ids = a.ids;
            settled = a.settled;
          }) in
      let (ht, sent) =
        send_subscribe-Goes promise id stream request (emplace id (length s.requests) sunk)
          (added-IsSound true s _ r c hs) in
      (ht, Later-trans true u _ _ (added-Later true s _ r c u l given) sent)

  -- A Request ID that was just given out stands in no entry, also behind other calls.
  pub unknown_id :
      (s t : State W) (x : Session)
      → IsSound s
      → x.next_request_id ≡ s.session.next_request_id + 2
      → Later true (record s { session = x }) t
      → find s.session.next_request_id t.subscriptions ≡ none
  unknown_id s t x h next l = elim (Option-cases (find s.session.next_request_id t.subscriptions)) [
    | inl unknown ↦ unknown
    | inr (ref, known) ↦ elim (l.fresh s.session.next_request_id ref known) [
      | inl old ↦
          let e = h.entries s.session.next_request_id ref old in absurd (omega (arith, e.below))
      | inr new ↦ absurd (omega (arith, new, next))
    ]
  ]

  pub try_subscribe-Goes :
      (promise handler : ℕ) (request : SubscribeRequest) (s : State W)
      → Goes true s (try_subscribe app promise handler request s)
  unfolding try_subscribe
  try_subscribe-Goes promise handler request s = by_id (allocate_request_id s.session) refl
    where
      opened :
          (id : ℕ) (y : Session)
          → id ≡ s.session.next_request_id
          → y.next_request_id ≡ s.session.next_request_id + 2
          → (x : Result ℕ × State W) → Goes true (record s { session = y }) x.1
          → Goes true s (elim x.0 [
            | err error ↦ fail promise (broken (raised error)) x.1
            | ok stream ↦ start_request app promise id handler stream request x.1
          ])
      opened id y at next (err error, s1) g h =
          Goes-trans true _ _ _ (session-Goes true s y (omega (arith, next)))
            (Goes-trans true _ _ _ g (broken-Goes promise _ s1)) h
      opened id y at next (ok stream, s1) g h =
          let given = Goes-trans true s _ s1 (session-Goes true s y (omega (arith, next))) g in
          let later = (g (session-Goes true s y (omega (arith, next)) h).0).1 in
          start_request-Goes promise id handler stream request s s1 (omega (arith, at))
            (omega (arith, at, next, later.ids)) (λ hs. rw at (unknown_id s s1 y h next later))
            given h

      by_id :
          (x : Result (ℕ × Session))
          → allocate_request_id s.session ≡ x
          → Goes true s (elim x [
            | err error ↦ fail promise (broken (raised error)) s
            | ok (request_id, session) ↦
                let (opened, s1) = app.open_stream false (record s { session = session }) in
                elim opened [
                  | err error ↦ fail promise (broken (raised error)) s1
                  | ok stream ↦ start_request app promise request_id handler stream request s1
                ]
          ])
      by_id (err error) e = broken-Goes promise _ s
      by_id (ok (id, y)) e =
          let (at, next) = allocated_id s.session y id e in
          opened id y at next (app.open_stream false (record s { session = y }))
            (app_goes.open_stream false (record s { session = y }))

  pub subscribe-Goes :
      (request : SubscribeRequest) (handler : Option ℕ) (s : State W)
      → Goes true s (subscribe app request handler s).1
  unfolding subscribe
  subscribe-Goes request none s =
      with_promise-Goes _ s (λ promise t. broken-Goes promise (broken handler_missing) t)
  subscribe-Goes request (some handler) s =
      with_promise-Goes _ s (λ promise t. by_phase promise t (at_phase_ready t.session.phase))
    where
      by_phase :
          (promise : ℕ) (t : State W) (b : Bool)
          → Goes true t (
              if b
              then try_subscribe app promise handler request t
              else fail promise (broken session_not_ready) t)
      by_phase promise t true = try_subscribe-Goes promise handler request t
      by_phase promise t false = broken-Goes promise _ t
