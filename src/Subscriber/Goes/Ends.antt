-- ===== src/Subscriber/Goes/Ends.antt =====
-- The end of a request, in src/subscriber_session.cpp.
use moqtopus.Common.{
  ℕ, ◌≤◌, ◌≡◌, ◌⊎◌, refl, ◌∙◌, ap, arith, Bool, true, false, List, [], none, some, inl, inr,
  Bool-cases, Option-cases, find, erase, set,
}
use moqtopus.Session.{is_silent, Reason, subscription_terminated, terminated_before_update}
use moqtopus.Subscriber.{
  SubscriptionPhase, SubscriptionRequest, Outcome, rejected, broken, State, App, is_terminated,
  request_at, put_request, fail_all,
}
use moqtopus.Subscriber.Request.{or_default, fail_result, retire, report, end_request, terminate}
use moqtopus.Subscriber.Goes.{
  Moves_last, is_result, holds, is_settled, settled_on, Aside, Goes, Goes-refl, Goes-trans,
}
use moqtopus.Subscriber.Goes.Requests.{Replaced, ended-Goes}
use moqtopus.Subscriber.Goes.Promises.{
  ended_request, Aside-trans, fail_all-Aside, fail_result-Aside, retire-Aside, stays_settled,
  fail_all_settles, fail_result_settles,
}

module _ {W : Type 0} where
  pub end_request_heap :
      (ref : ℕ) (r : SubscriptionRequest) (reason : Reason) (s : State W)
      → (end_request ref r reason s).requests ≡ set s.requests ref (ended_request r)
  unfolding end_request
  end_request_heap ref r reason s =
      let first : State W =
        fail_result r.result (rejected 0x0 0 (or_default subscription_terminated reason)) s in
      let second : State W =
        fail_all r.updates (broken (or_default terminated_before_update reason)) first in
      (retire-Aside r.track_alias (put_request ref (ended_request r) second)).requests
      ∙ ap (λ (l : List SubscriptionRequest). set l ref (ended_request r))
          ((fail_all-Aside r.updates (broken (or_default terminated_before_update reason))
              first).requests
            ∙ (fail_result-Aside r.result
                (rejected 0x0 0 (or_default subscription_terminated reason)) s).requests)

  -- The request at `ref`, which was `r0` in `s0`, ends.
  pub end_request-Goes :
      (calm : Bool) (s0 s1 : State W) (ref : ℕ) (r0 r1 : SubscriptionRequest) (reason : Reason)
      → request_at ref s0 ≡ some r0
      → is_terminated r0.phase ≡ false
      → ((v : SubscriptionRequest) → set s1.requests ref v ≡ set s0.requests ref v)
      → s1.subscriptions ≡ s0.subscriptions
      → s0.session.next_request_id ≤ s1.session.next_request_id
      → ((p : ℕ) (o : Outcome) → find p s0.settled ≡ some o → find p s1.settled ≡ some o)
      → r1.request_id ≡ r0.request_id
      → ((p : ℕ) → holds p r0 ≡ true → (holds p r1 ≡ true) ⊎ (is_settled p s1 ≡ true))
      → Goes calm s0 (end_request ref r1 reason s1)
  unfolding end_request holds
  end_request-Goes calm s0 s1 ref r0 r1 reason there live heap table ids kept named promises =
      ended-Goes calm s0 (end_request ref r1 reason s1) ref r0 ended c live refl final_table
    where
      ended : SubscriptionRequest
      ended = record r1 { phase = SubscriptionPhase.terminated; updates = []; result = none }

      result_failed : State W
      result_failed =
          fail_result r1.result (rejected 0x0 0 (or_default subscription_terminated reason)) s1

      failed : State W
      failed =
          fail_all r1.updates (broken (or_default terminated_before_update reason)) result_failed

      first : Aside s1 result_failed
      first = fail_result-Aside r1.result _ s1

      second : Aside result_failed failed
      second = fail_all-Aside r1.updates _ result_failed

      put : State W
      put = put_request ref ended failed

      third : Aside put (retire r1.track_alias put)
      third = retire-Aside r1.track_alias put

      both : Aside s1 failed
      both = Aside-trans s1 result_failed failed first second

      final_table :
          (end_request ref r1 reason s1).subscriptions ≡ erase r0.request_id s0.subscriptions
      final_table = rw (third.subscriptions, both.subscriptions, table, named) refl

      settled_behind :
          (p : ℕ) (o : Outcome)
          → find p s1.settled ≡ some o
          → find p (end_request ref r1 reason s1).settled ≡ some o
      settled_behind p o e = third.settled p o (both.settled p o e)

      done :
          (p : ℕ) → is_settled p failed ≡ true → is_settled p (end_request ref r1 reason s1) ≡ true
      done p e = settled_on failed (end_request ref r1 reason s1) third.settled p e

      let_go : (p : ℕ) → holds p r1 ≡ true → is_settled p failed ≡ true
      let_go p held = elim (Bool-cases (is_result p r1.result)) [
        | inl result ↦
            stays_settled result_failed failed second p
              (fail_result_settles p r1.result _ s1 result)
        | inr no_result ↦
            fail_all_settles p r1.updates _ result_failed (ground (arith, held, no_result))
      ]

      c : Replaced calm s0 (end_request ref r1 reason s1) ref r0 ended
      c = record {
        before = there;
        requests = end_request_heap ref r1 reason s1 ∙ heap ended;
        named = named;
        forward = Moves_last calm r0.phase;
        tidy = (refl, refl);
        promises = λ p held. inr (elim (promises p held) [
          | inl still ↦ done p (let_go p still)
          | inr before ↦ done p (stays_settled s1 failed both p before)
        ]);
        ids = omega (arith, ids, both.ids, third.ids);
        settled = λ p o e. settled_behind p o (kept p o e);
      }

  module _ (calm : Bool) (app : App W)
      (error_goes : (handler : ℕ) (reason : Reason) (s : State W)
        → Goes calm s (app.on_error handler reason s)) where
    pub report-Goes :
        (handler : ℕ) (reason : Reason) (s : State W) → Goes calm s (report app handler reason s)
    unfolding report
    report-Goes handler reason s = elim (Bool-cases (is_silent reason)) [
      | inl silent ↦ rw silent (Goes-refl calm s)
      | inr spoken ↦ rw spoken (error_goes handler reason s)
    ]

    pub terminate-Goes :
        (ref : ℕ) (reason : Reason) (s : State W) → Goes calm s (terminate app ref reason s)
    unfolding terminate
    terminate-Goes ref reason s = elim (Option-cases (request_at ref s)) [
      | inl gone ↦ rw (gone, terminate) (Goes-refl calm s)
      | inr (r, there) ↦ elim (Bool-cases (is_terminated r.phase)) [
        | inl over ↦ rw (there, terminate, over) (Goes-refl calm s)
        | inr live ↦
            let ends =
              end_request-Goes calm s s ref r r reason there live (λ v. refl) refl (omega arith)
                (λ p o e. e) refl (λ p held. inl held) in
            rw (there, terminate, live)
              (Goes-trans calm _ _ _ ends
                (report-Goes r.handler reason (end_request ref r reason s)))
      ]
    ]
