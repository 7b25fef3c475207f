-- ===== src/Subscriber/Goes/Answers.antt =====
-- REQUEST_ERROR, REQUEST_OK and PUBLISH_DONE, in src/subscriber_session.cpp.
use moqtopus.Common.{
  ℕ, ◌==◌, ◌≡◌, refl, ◌∙◌, ap, arith, true, false, not, List, [], ◌∷◌, none, some, inl, inr,
  Bool-cases, if◌then◌else◌, set, set-set, get_elem?-set, is_empty, ok, err, Result, ==→eq,
}
use moqtopus.Types.{ByteBuffer, RequestOk, RequestError, PublishDone}
use moqtopus.Codec.Decoders.{decode_request_error, decode_request_ok, decode_publish_done}
use moqtopus.Session.{
  is_silent, text, raised, ok_with_properties, error_unrequested, ok_unrequested,
}
use moqtopus.Subscriber.{
  SubscriptionPhase, SubscriptionRequest, Outcome, updated, rejected, State, App, is_terminated,
  is_pending, request_at, put_request, set_value, fail_all,
}
use moqtopus.Subscriber.Request.{no_reason, fail_result, report, terminate}
use moqtopus.Subscriber.Response.{on_request_error, settle_front, on_request_ok, publish_ended}
use moqtopus.Subscriber.Goes.{
  Moves-refl, loosen, Tidy, rank, is_in, is_result, holds, Aside, Goes, Goes-refl, Goes-trans,
}
use moqtopus.Subscriber.Goes.Requests.{changed-Goes}
use moqtopus.Subscriber.Goes.Promises.{
  fail_all-Aside, fail_result-Aside, set_value-Aside, set_value_settles, fail_all_settles,
  fail_result_settles,
}
use moqtopus.Subscriber.Goes.Ends.{end_request-Goes}
use moqtopus.Subscriber.Goes.Closing.{AppGoes}
use moqtopus.Subscriber.Goes.Established.{with_updates, at_pending, ends}

module _ {W : Type 0} (app : App W) (app_goes : AppGoes true app) where
  -- REQUEST_ERROR for the SUBSCRIBE.
  pub refused-Goes :
      (ref : ℕ) (r : SubscriptionRequest) (refusal : Outcome) (s : State W)
      → request_at ref s ≡ some r
      → r.phase ≡ SubscriptionPhase.pending
      → Goes false s (
          terminate app ref no_reason
            (put_request ref (record r { result = none }) (fail_result r.result refusal s)))
  unfolding terminate report is_silent holds
  refused-Goes ref r refusal s there pending =
      rw (now, terminate, live)
        (end_request-Goes false s left ref r (record r { result = none }) no_reason there live
          (λ v.
            ap
              (λ (l : List SubscriptionRequest). set (set l ref (record r { result = none })) ref v)
              a.requests
            ∙ set-set s.requests ref (record r { result = none }) v)
          a.subscriptions a.ids a.settled refl
          (λ p held. elim (Bool-cases (is_result p r.result)) [
            | inl result ↦ inr (fail_result_settles p r.result refusal s result)
            | inr no_result ↦ inl (ground (arith, held, no_result))
          ]))
    where
      live : is_terminated r.phase ≡ false
      live = rw pending refl

      failed : State W
      failed = fail_result r.result refusal s

      a : Aside s failed
      a = fail_result-Aside r.result refusal s

      left : State W
      left = put_request ref (record r { result = none }) failed

      now : request_at ref left ≡ some (record r { result = none })
      now = get_elem?-set failed.requests ref r _ (rw a.requests there)

  -- REQUEST_ERROR for the updates.
  pub updates_refused-Goes :
      (ref : ℕ) (r : SubscriptionRequest) (refusal : Outcome) (s : State W)
      → request_at ref s ≡ some r
      → is_empty r.updates ≡ false
      → Goes false s (
          put_request ref
            (record r { updates = []; phase = SubscriptionPhase.update_failed })
            (fail_all r.updates refusal s))
  unfolding holds is_result rank
  updates_refused-Goes ref r refusal s there some_left h =
      changed-Goes false s (put_request ref ended failed) ref r ended
        (record {
          before = there;
          requests = ap (λ (l : List SubscriptionRequest). set l ref ended) a.requests;
          named = refl;
          forward = rw phase (omega arith);
          tidy = (tidy.0, tidy.1, refl);
          promises =
              λ p held. inr (fail_all_settles p r.updates refusal s (ground (arith, held, tidy.0)));
          ids = a.ids;
          settled = a.settled;
        })
        (rw phase refl) a.subscriptions h
    where
      failed : State W
      failed = fail_all r.updates refusal s

      ended : SubscriptionRequest
      ended = record r { updates = []; phase = SubscriptionPhase.update_failed }

      a : Aside s failed
      a = fail_all-Aside r.updates refusal s

      phase : r.phase ≡ SubscriptionPhase.established
      phase = with_updates r.phase r (h.tidy ref r there) some_left

      tidy : Tidy SubscriptionPhase.established r
      tidy = rw phase at (h.tidy ref r there)

  pub on_request_error-Goes :
      (ref : ℕ) (r : SubscriptionRequest) (payload : ByteBuffer) (s : State W)
      → request_at ref s ≡ some r
      → Goes false s (on_request_error app ref r payload s)
  unfolding on_request_error
  on_request_error-Goes ref r payload s there = by_message (decode_request_error payload)
    where
      by_error :
          (e : RequestError)
          → Goes false s (
              if is_pending r.phase
              then terminate app ref no_reason (
                  put_request ref
                    (record r { result = none })
                    (fail_result r.result (rejected e.code e.retry_interval (text e.reason)) s))
              else if is_empty r.updates
              then terminate app ref error_unrequested s
              else put_request ref
                  (record r { updates = []; phase = SubscriptionPhase.update_failed })
                  (fail_all r.updates (rejected e.code e.retry_interval (text e.reason)) s))
      by_error e = elim (Bool-cases (is_pending r.phase)) [
        | inl early ↦ rw early (refused-Goes ref r _ s there (at_pending r.phase early))
        | inr late ↦ elim (Bool-cases (is_empty r.updates)) [
          | inl none_left ↦ rw (late, none_left) (ends app app_goes ref error_unrequested s)
          | inr some_left ↦ rw (late, some_left) (updates_refused-Goes ref r _ s there some_left)
        ]
      ]

      by_message :
          (x : Result RequestError)
          → Goes false s (elim x [
            | err error ↦ terminate app ref (raised error) s
            | ok e ↦
                let refusal : Outcome = rejected e.code e.retry_interval (text e.reason) in
                if is_pending r.phase
                then terminate app ref no_reason
                    (put_request ref (record r { result = none }) (fail_result r.result refusal s))
                else if is_empty r.updates
                then terminate app ref error_unrequested s
                else put_request ref
                    (record r { updates = []; phase = SubscriptionPhase.update_failed })
                    (fail_all r.updates refusal s)
          ])
      by_message (err error) = ends app app_goes ref (raised error) s
      by_message (ok e) = by_error e

  pub settle_front-Goes :
      (ref : ℕ) (r : SubscriptionRequest) (updates : List ℕ) (answer : RequestOk) (s : State W)
      → request_at ref s ≡ some r
      → r.updates ≡ updates
      → Goes false s (settle_front ref r updates answer s)
  unfolding settle_front holds is_in
  settle_front-Goes ref r [] answer s there e h = Goes-refl false s h
  settle_front-Goes ref r (promise ∷ promises) answer s there e h =
      changed-Goes false s (settle_front ref r (promise ∷ promises) answer s) ref r
        (record r { updates = promises })
        (record {
          before = there;
          requests = a.requests;
          named = refl;
          forward = Moves-refl false r.phase;
          tidy = rw phase (tidy.0, tidy.1);
          promises = λ p held. elim (Bool-cases (promise == p)) [
            | inl same ↦
                inr (rw (← ==→eq promise p same) (set_value_settles promise (updated answer) put))
            | inr other ↦ inl (ground (arith, held, other, e, tidy.0))
          ];
          ids = a.ids;
          settled = a.settled;
        })
        refl a.subscriptions h
    where
      put : State W
      put = put_request ref (record r { updates = promises }) s

      a : Aside put (set_value promise (updated answer) put)
      a = set_value-Aside promise (updated answer) put

      phase : r.phase ≡ SubscriptionPhase.established
      phase = with_updates r.phase r (h.tidy ref r there) (rw e refl)

      tidy : Tidy SubscriptionPhase.established r
      tidy = rw phase at (h.tidy ref r there)

  pub on_request_ok-Goes :
      (ref : ℕ) (r : SubscriptionRequest) (payload : ByteBuffer) (s : State W)
      → request_at ref s ≡ some r
      → Goes false s (on_request_ok app ref r payload s)
  unfolding on_request_ok
  on_request_ok-Goes ref r payload s there = elim (Bool-cases (is_empty r.updates)) [
    | inl none_left ↦ rw none_left (ends app app_goes ref ok_unrequested s)
    | inr some_left ↦ rw some_left (by_message (decode_request_ok payload))
  ]
    where
      by_properties :
          (answer : RequestOk)
          → Goes false s (
              if not (is_empty answer.track_properties)
              then terminate app ref ok_with_properties s
              else settle_front ref r r.updates answer s)
      by_properties answer = elim (Bool-cases (is_empty answer.track_properties)) [
        | inl plain ↦ rw plain (settle_front-Goes ref r r.updates answer s there refl)
        | inr properties ↦ rw properties (ends app app_goes ref ok_with_properties s)
      ]

      by_message :
          (x : Result RequestOk)
          → Goes false s (elim x [
            | err error ↦ terminate app ref (raised error) s
            | ok answer ↦
                if not (is_empty answer.track_properties)
                then terminate app ref ok_with_properties s
                else settle_front ref r r.updates answer s
          ])
      by_message (err error) = ends app app_goes ref (raised error) s
      by_message (ok answer) = by_properties answer

  pub publish_ended-Goes :
      (ref : ℕ) (r : SubscriptionRequest) (payload : ByteBuffer) (s : State W)
      → Goes false s (publish_ended app ref r payload s)
  unfolding publish_ended
  publish_ended-Goes ref r payload s = by_message (decode_publish_done payload)
    where
      by_message :
          (x : Result PublishDone)
          → Goes false s (elim x [
            | err error ↦ terminate app ref (raised error) s
            | ok end ↦ terminate app ref no_reason (app.on_publish_done r.handler end s)
          ])
      by_message (err error) = ends app app_goes ref (raised error) s
      by_message (ok end) =
          Goes-trans false _ _ _ (loosen _ _ (app_goes.on_publish_done r.handler end s))
            (ends app app_goes ref no_reason _)
