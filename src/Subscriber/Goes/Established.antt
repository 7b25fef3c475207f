-- ===== src/Subscriber/Goes/Established.antt =====
-- SUBSCRIBE_OK, in src/subscriber_session.cpp.
use moqtopus.Common.{
  ℕ, ◌≡◌, refl, arith, Bool, true, false, [], ◌∷◌, ◌++◌, Option, none, some, inl, inr, Bool-cases,
  if◌then◌else◌, is_empty, ok, err, Result, ==→eq,
}
use moqtopus.Types.{ByteBuffer}
use moqtopus.Codec.Decoders.{decode_subscribe_ok}
use moqtopus.Codec.Objects.{is_some}
use moqtopus.Codec.Messages.{SubscribeOk}
use moqtopus.Receive.{ReceiveRoute}
use moqtopus.Types.{duplicate_track_alias_code}
use moqtopus.Session.{Reason, raised, duplicate_subscribe_ok, duplicate_track_alias}
use moqtopus.Subscriber.{
  SubscriptionPhase, SubscriptionRequest, Outcome, State, App, is_pending, request_at, put_request,
}
use moqtopus.Subscriber.Request.{terminate, begin_close}
use moqtopus.Subscriber.Response.{
  new_route, install, settle_result, become_established, on_subscribe_ok,
}
use moqtopus.Subscriber.Goes.{
  Moves, Moves-refl, loosen, Later-trans, Tidy, rank, is_in, is_result, holds, is_settled, Aside,
  Aside-Goes, Goes, Goes-trans,
}
use moqtopus.Subscriber.Goes.Requests.{changed-Goes}
use moqtopus.Subscriber.Goes.Promises.{retire-Aside, set_value-Aside, set_value_settles}
use moqtopus.Subscriber.Goes.Closing.{AppGoes, end-Goes, begin_close-Goes, install_route-Goes}

pub rebuffered :
    (phase : SubscriptionPhase) (r : SubscriptionRequest) (bytes : ByteBuffer)
    → Tidy phase r
    → Tidy phase (record r { response_buffer = bytes })
rebuffered SubscriptionPhase.pending r bytes h = h
rebuffered SubscriptionPhase.established r bytes h = h
rebuffered SubscriptionPhase.update_failed r bytes h = h
rebuffered SubscriptionPhase.terminated r bytes h = h

-- A request without updates holds at most the promise of its SUBSCRIBE.
pub only_result :
    (p : ℕ) (r : SubscriptionRequest)
    → r.updates ≡ []
    → holds p r ≡ true
    → is_result p r.result ≡ true
unfolding holds is_in
only_result p r e held = ground (arith, e, held)

-- Only an established request has updates.
pub with_updates :
    (phase : SubscriptionPhase) (r : SubscriptionRequest)
    → Tidy phase r
    → is_empty r.updates ≡ false
    → phase ≡ SubscriptionPhase.established
with_updates SubscriptionPhase.pending r h e = absurd (ground (arith, h, e))
with_updates SubscriptionPhase.established r h e = refl
with_updates SubscriptionPhase.update_failed r h e = absurd (ground (arith, h, e))
with_updates SubscriptionPhase.terminated r h e = absurd (ground (arith, h, e))

pub at_pending :
    (phase : SubscriptionPhase) → is_pending phase ≡ true → phase ≡ SubscriptionPhase.pending
at_pending SubscriptionPhase.pending e = refl
at_pending SubscriptionPhase.established e = cc
at_pending SubscriptionPhase.update_failed e = cc
at_pending SubscriptionPhase.terminated e = cc

module _ {W : Type 0} where
  -- Only the bytes that wait to be read change.
  pub buffered-Goes :
      (s : State W) (ref : ℕ) (r : SubscriptionRequest) (bytes : ByteBuffer)
      → request_at ref s ≡ some r
      → Goes false s (put_request ref (record r { response_buffer = bytes }) s)
  unfolding holds
  buffered-Goes s ref r bytes there h =
      changed-Goes false s _ ref r (record r { response_buffer = bytes })
        (record {
          before = there;
          requests = refl;
          named = refl;
          forward = Moves-refl false _;
          tidy = rebuffered r.phase r bytes (h.tidy ref r there);
          promises = λ p held. inl held;
          ids = omega arith;
          settled = λ p o e. e;
        })
        refl refl h

  pub settle_result-Aside :
      (result : Option ℕ) (outcome : Outcome) (s : State W)
      → is_some result ≡ true
      → Aside s (settle_result result outcome s)
  unfolding settle_result
  settle_result-Aside none outcome s e = absurd (ground (arith, e))
  settle_result-Aside (some promise) outcome s e = set_value-Aside promise outcome s

  pub settle_result_settles :
      (p : ℕ) (result : Option ℕ) (outcome : Outcome) (s : State W)
      → is_result p result ≡ true
      → is_settled p (settle_result result outcome s) ≡ true
  unfolding settle_result is_result
  settle_result_settles p none outcome s e = cc
  settle_result_settles p (some x) outcome s e = rw (← ==→eq x p e) (set_value_settles x outcome s)

  -- A request that is pending becomes established.
  pub pending_established-Goes :
      (ref alias : ℕ) (r : SubscriptionRequest) (outcome : Outcome) (s : State W)
      → request_at ref s ≡ some r
      → r.phase ≡ SubscriptionPhase.pending
      → Goes false s (
          settle_result r.result outcome (
            put_request ref
              (record r {
                track_alias = some alias;
                phase = SubscriptionPhase.established;
                result = none;
              })
              s))
  unfolding rank holds
  pending_established-Goes ref alias r outcome s there pending h =
      let tidy : Tidy SubscriptionPhase.pending r = rw pending at (h.tidy ref r there) in
      let put : State W =
        put_request ref
          (record r {
            track_alias = some alias;
            phase = SubscriptionPhase.established;
            result = none;
          })
          s in
      let a = settle_result-Aside r.result outcome put tidy.2 in
      changed-Goes false s _ ref r
        (record r {
          track_alias = some alias;
          phase = SubscriptionPhase.established;
          result = none;
        })
        (record {
          before = there;
          requests = a.requests;
          named = refl;
          forward = rw pending (omega arith);
          tidy = (refl, refl);
          promises = λ p held.
              inr (settle_result_settles p r.result outcome put (only_result p r tidy.0 held));
          ids = a.ids;
          settled = a.settled;
        })
        (rw pending refl) a.subscriptions h

module _ {W : Type 0} (app : App W) (app_goes : AppGoes true app) where
  pub ends : (ref : ℕ) (reason : Reason) (s : State W) → Goes false s (terminate app ref reason s)
  ends ref reason s = loosen _ _ (end-Goes true app app_goes ref reason s)

  pub install-Goes :
      (alias : ℕ) (route : ReceiveRoute) (s : State W) → Goes true s (install app alias route s).1
  unfolding install
  install-Goes alias route s =
      Goes-trans true _ _ _
        (Aside-Goes true s
          (record s { plane = record s.plane { routes = s.plane.routes ++ (route ∷ []) } })
          (record {
            requests = refl;
            subscriptions = refl;
            ids = omega arith;
            settled = λ p o e. e;
          }))
        (install_route-Goes true app app_goes alias _ _)

  -- Behind the objects that waited: the request is still pending, or the application has ended it.
  pub become_established-Goes :
      (ref alias : ℕ) (r : SubscriptionRequest) (s : State W)
      → request_at ref s ≡ some r
      → Moves true SubscriptionPhase.pending r.phase
      → Goes false s (become_established ref alias s)
  unfolding become_established
  become_established-Goes ref alias r s there (inl pending) =
      rw (there, become_established, pending)
        (pending_established-Goes ref alias r _ s there pending)
  become_established-Goes ref alias r s there (inr over) =
      rw (there, become_established, over) (Aside-Goes false s _ (retire-Aside (some alias) s))

  pub answered-Goes :
      (ref alias : ℕ) (r : SubscriptionRequest) (s : State W) (outcome : Bool × State W)
      → request_at ref s ≡ some r
      → r.phase ≡ SubscriptionPhase.pending
      → Goes true s outcome.1
      → Goes false s (
          if outcome.0
          then become_established ref alias outcome.1
          else begin_close app duplicate_track_alias_code duplicate_track_alias outcome.1)
  answered-Goes ref alias r s (false, s1) there pending g h =
      Goes-trans false s s1 _ (loosen s s1 g)
        (loosen s1 _ (begin_close-Goes true app app_goes _ duplicate_track_alias s1)) h
  answered-Goes ref alias r s (true, s1) there pending g h =
      let (h1, l) = g h in
      let b = l.became ref r there in
      let moved : Moves true SubscriptionPhase.pending b.request.phase = rw pending at b.forward in
      let (h2, l2) = become_established-Goes ref alias b.request s1 b.there moved h1 in
      (h2, Later-trans false s s1 _ (loosen s s1 g h).1 l2)

  pub on_subscribe_ok-Goes :
      (ref : ℕ) (r : SubscriptionRequest) (payload : ByteBuffer) (s : State W)
      → request_at ref s ≡ some r
      → Goes false s (on_subscribe_ok app ref r payload s)
  unfolding on_subscribe_ok
  on_subscribe_ok-Goes ref r payload s there = elim (Bool-cases (is_pending r.phase)) [
    | inr late ↦ rw late (ends ref duplicate_subscribe_ok s)
    | inl early ↦ rw early (by_message (decode_subscribe_ok payload) (at_pending r.phase early))
  ]
    where
      by_message :
          (x : Result SubscribeOk)
          → r.phase ≡ SubscriptionPhase.pending
          → Goes false s (elim x [
            | err error ↦ terminate app ref (raised error) s
            | ok message ↦
                let (installed, s1) = install app message.track_alias (new_route r) s in
                if installed
                then become_established ref message.track_alias s1
                else begin_close app duplicate_track_alias_code duplicate_track_alias s1
          ])
      by_message (err error) e = ends ref (raised error) s
      by_message (ok message) e =
          answered-Goes ref message.track_alias r s
            (install app message.track_alias (new_route r) s) there e
            (install-Goes message.track_alias (new_route r) s)
