-- ===== src/Subscriber/Closing.antt =====
-- The end of all requests when the session closes, in src/subscriber_session.cpp and src/session.cpp.
use mathlib.Core.Path.{subst}
use moqtopus.Common.{
  ℕ, ◌==◌, ◌≡◌, refl, sym, ◌∙◌, arith, true, false, List, [], ◌∷◌, some, inl, inr, Bool-cases, find,
  get_elem?-set,
}
use moqtopus.Session.{Reason, is_closing}
use moqtopus.Session.Lifecycle
use moqtopus.Session.Lifecycle.{start_closing, shut_transport}
use moqtopus.Subscriber.{
  SubscriptionPhase, SubscriptionRequest, State, App, is_terminated, request_at, enter_session,
  leave_session,
}
use moqtopus.Subscriber.Request.{
  end_request, terminate, terminate_all, terminate_subscriptions, begin_close, derived,
}
use moqtopus.Subscriber.Goes.{
  Tidy, is_in, is_result, holds, is_settled, IsSound, Later, Later-trans,
}
use moqtopus.Subscriber.Goes.Promises.{ended_request}
use moqtopus.Subscriber.Goes.Ends.{end_request_heap, end_request-Goes, report-Goes}
use moqtopus.Subscriber.Goes.Closing.{
  AppGoes, session-Goes, end-Goes, terminate_all-Goes, terminate_subscriptions-Goes,
  shut_transport-Goes,
}

is_terminated_phase :
    (phase : SubscriptionPhase) → is_terminated phase ≡ true → phase ≡ SubscriptionPhase.terminated
is_terminated_phase SubscriptionPhase.terminated e = refl
is_terminated_phase SubscriptionPhase.pending e = cc
is_terminated_phase SubscriptionPhase.established e = cc
is_terminated_phase SubscriptionPhase.update_failed e = cc

module _ {W : Type 0} where
  -- The request has ended.
  pub record Ended (t : State W) (ref : ℕ) : Type 0 where
    pub request : SubscriptionRequest
    pub there : request_at ref t ≡ some request
    pub phase : request.phase ≡ SubscriptionPhase.terminated

  -- What has ended stays so.
  Ended-Later : (s t : State W) (ref : ℕ) → Later true s t → Ended s ref → Ended t ref
  Ended-Later s t ref l e =
      let b = l.became ref e.request e.there in
      record {
        request = b.request;
        there = b.there;
        phase = elim b.forward [ inl same ↦ same ∙ e.phase | inr over ↦ over ];
      }

  -- `end_request` ends the request at `ref`.
  end_request_ends :
      (ref : ℕ) (r : SubscriptionRequest) (reason : Reason) (s : State W)
      → request_at ref s ≡ some r
      → Ended (end_request ref r reason s) ref
  end_request_ends ref r reason s there = record {
    request = ended_request r;
    there =
        rw (end_request_heap ref r reason s)
          (get_elem?-set s.requests ref r (ended_request r) there);
    phase = refl;
  }

  -- A request that has ended holds no promise, so those that it held before are settled.
  settled_by_end :
      (s t : State W) (ref : ℕ) (r : SubscriptionRequest)
      → request_at ref s ≡ some r
      → IsSound t
      → Later true s t
      → Ended t ref
      → (p : ℕ) → holds p r ≡ true
      → is_settled p t ≡ true
  unfolding holds is_in is_result
  settled_by_end s t ref r there h l e p held =
      let b = l.became ref r there in
      let both : some b.request ≡ some e.request = sym b.there ∙ e.there in
      let same : b.request ≡ e.request = cc in
      let tidy : Tidy SubscriptionPhase.terminated e.request =
        rw e.phase at (h.tidy ref e.request e.there) in
      elim (b.promises p held) [
        | inl still ↦
            let now : holds p e.request ≡ true = rw same at still in
            absurd (ground (arith, now, tidy.0, tidy.1))
        | inr done ↦ done
      ]

module _ {W : Type 0} (app : App W) (app_goes : AppGoes true app) where
  terminate_ends :
      (ref : ℕ) (r : SubscriptionRequest) (reason : Reason) (s : State W)
      → IsSound s
      → request_at ref s ≡ some r
      → Ended (terminate app ref reason s) ref
  unfolding terminate
  terminate_ends ref r reason s h there = elim (Bool-cases (is_terminated r.phase)) [
    | inl over ↦
        rw (there, terminate, over)
          (record { request = r; there = there; phase = is_terminated_phase r.phase over })
    | inr live ↦
        let t : State W = end_request ref r reason s in
        let (ht, l) =
          end_request-Goes true s s ref r r reason there live (λ v. refl) refl (omega arith)
            (λ p o e. e) refl (λ p held. inl held) h in
        rw (there, terminate, live)
          (Ended-Later t _ ref (report-Goes true app app_goes.on_error r.handler reason t ht).1
            (end_request_ends ref r reason s there))
  ]

  -- Each request of the copied table ends.
  terminate_all_ends :
      (active : List (ℕ × ℕ)) (id ref : ℕ) (r : SubscriptionRequest) (reason : Reason) (s : State W)
      → IsSound s
      → find id active ≡ some ref
      → request_at ref s ≡ some r
      → Ended (terminate_all app active reason s) ref
  unfolding terminate_all
  terminate_all_ends [] id ref r reason s h e there = absurd (cc)
  terminate_all_ends ((id', ref') ∷ active) id ref r reason s h e there =
      let t : State W = terminate app ref' reason s in
      let (ht, l) = end-Goes true app app_goes ref' reason s h in
      elim (Bool-cases (id' == id)) [
        | inl same ↦
            let at : some ref' ≡ some ref = rw same at e in
            let eq : ref' ≡ ref = cc in
            let ended : Ended t ref' = terminate_ends ref' r reason s h (rw eq there) in
            Ended-Later t _ ref (terminate_all-Goes true app app_goes active reason t ht).1
              (subst (λ (x : ℕ). Ended t x) eq ended)
        | inr other ↦
            let b = l.became ref r there in
            terminate_all_ends active id ref b.request reason t ht (rw other at e) b.there
      ]

  terminate_subscriptions_ends :
      (ref : ℕ) (r : SubscriptionRequest) (reason : Reason) (s : State W)
      → IsSound s
      → request_at ref s ≡ some r
      → Ended (terminate_subscriptions app reason s) ref
  unfolding terminate_subscriptions
  terminate_subscriptions_ends ref r reason s h there = elim (Bool-cases (is_terminated r.phase)) [
    | inl over ↦
        Ended-Later s _ ref (terminate_all-Goes true app app_goes s.subscriptions reason s h).1
          (record { request = r; there = there; phase = is_terminated_phase r.phase over })
    | inr live ↦
        terminate_all_ends s.subscriptions r.request_id ref r reason s h (h.listed ref r there live)
          there
  ]

  -- Closing a sound subscriber that is not closing yet terminates every request that it has, and
  -- settles every promise that the request held; for an application and streams whose own calls
  -- keep the subscriber sound.
  pub begin_close_ends :
      (code ref : ℕ) (r : SubscriptionRequest) (reason : Reason) (s : State W)
      → IsSound s
      → is_closing s.session.phase ≡ false
      → request_at ref s ≡ some r
      → Ended (begin_close app code reason s) ref
        × ((p : ℕ) → holds p r ≡ true → is_settled p (begin_close app code reason s) ≡ true)
  unfolding begin_close Lifecycle.begin_close start_closing Lifecycle.fail_ready_waiters
      Lifecycle.settle_waiters
  begin_close_ends code ref r reason s h early there =
      let closing : State W = record s { session = start_closing code reason s.session } in
      let ended : State W = terminate_subscriptions app reason closing in
      let final : State W =
        leave_session
          (shut_transport (derived app) ended.session.has_transport code (enter_session ended)) in
      let (h1, l1) = session-Goes true s (start_closing code reason s.session) (omega arith) h in
      let (h2, l2) = terminate_subscriptions-Goes true app app_goes reason closing h1 in
      let (h3, l3) =
        shut_transport-Goes true app app_goes ended.session.has_transport code (enter_session ended)
          h2 in
      let over : Ended final ref =
        Ended-Later ended final ref l3
          (terminate_subscriptions_ends ref r reason closing h1 there) in
      let all = Later-trans true s closing final l1 (Later-trans true closing ended final l2 l3) in
      rw early (over, settled_by_end s final ref r there h3 all over)
