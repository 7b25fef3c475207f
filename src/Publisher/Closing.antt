-- ===== src/Publisher/Closing.antt =====
-- The closing of a publisher, in src/publisher_session.cpp and src/session.cpp.
use mathlib.Core.Path.{subst}
use moqtopus.Common.{
  ℕ, ◌==◌, ◌≡◌, refl, sym, ◌∙◌, true, false, List, [], ◌∷◌, some, inl, inr, Bool-cases, find, ap,
  get_elem?-set, ◌≢◌,
}
use moqtopus.Types.{session_closed}
use moqtopus.Session.{Reason, is_closing}
use moqtopus.Session.Lifecycle
use moqtopus.Session.Lifecycle.{start_closing, fail_ready_waiters, settle_waiters, shut_transport}
use moqtopus.Session.Lifecycle.Frame.{shut_transport-Keeps}
use moqtopus.Publisher.{
  SubscriptionRequest, State, App, change, request_at, enter_session, leave_session,
}
use moqtopus.Publisher.Request.{
  end_request, cancel, cancel_all, terminate_subscriptions, derived, begin_close,
}
use moqtopus.Publisher.Goes.{IsSound, Later, Goes, Goes-refl, Goes-trans}
use moqtopus.Publisher.Goes.Ends.{
  AppGoes, SessionGoes, session-Goes, detach-Goes, cancel-Goes, cancel_all-Goes,
  terminate_subscriptions-Goes, marked,
}

module _ {W : Type 0} where
  -- A request that is over.
  pub record Over (s : State W) (ref : ℕ) : Type 0 where
    pub request : SubscriptionRequest
    pub there : request_at ref s ≡ some request
    pub over : request.is_over ≡ true

  -- It stays over.
  Over-Later : (s t : State W) (ref : ℕ) → Later s t → Over s ref → Over t ref
  Over-Later s t ref l o =
      let b = l.became ref o.request o.there in
      record { request = b.request; there = b.there; over = b.over o.over }

  marked-Over :
      (u : State W) (ref id : ℕ) (now : SubscriptionRequest)
      → request_at ref u ≡ some now
      → Over (marked ref id u) ref
  marked-Over u ref id now there = record {
    request = record now { is_over = true };
    there = rw (marked, change, there) (get_elem?-set u.requests ref now _ there);
    over = refl;
  }

  -- A sound table has no entry for a request that is over.
  unlisted-Over :
      (s : State W) (ref id : ℕ) → IsSound s → Over s ref → find id s.subscriptions ≢ some ref
  unlisted-Over s ref id h o e =
      let x = h.entries id ref e in
      let both : some x.request ≡ some o.request = sym x.there ∙ o.there in
      let same : x.request ≡ o.request = cc in
      let differs : false ≡ true =
        sym x.live ∙ (ap (λ (r : SubscriptionRequest). r.is_over) same ∙ o.over) in
      absurd (cc)

module _ {W : Type 0} (app : App W) (app_goes : AppGoes app) where
  -- The end of a request that was live in a sound state, and is there still.
  end_request_ends :
      (ref error : ℕ) (r : SubscriptionRequest) (s t : State W)
      → IsSound s
      → request_at ref s ≡ some r
      → Goes s t
      → Over (end_request app ref r error t) ref
  unfolding end_request
  end_request_ends ref error r s t h there g =
      let u = app.abort_receive r.stream error t in
      let (hu, l) = Goes-trans s t u g (app_goes.abort_receive r.stream error t) h in
      let b = l.became ref r there in marked-Over u ref r.request_id b.request b.there

  cancel_ends :
      (ref error : ℕ) (r : SubscriptionRequest) (s : State W)
      → IsSound s
      → request_at ref s ≡ some r
      → Over (cancel app ref error s) ref
  unfolding cancel
  cancel_ends ref error r s h there = elim (Bool-cases r.is_over) [
    | inl over ↦ rw (cancel, there, over) (record { request = r; there = there; over = over })
    | inr live ↦
        rw (cancel, there, live)
          (end_request_ends ref error r s _ h there (
            Goes-trans s _ _ (detach-Goes app app_goes r.request_id (some error) s)
              (app_goes.abort_send r.stream error _)))
  ]

  cancel_all_ends :
      (active : List (ℕ × ℕ)) (id ref : ℕ) (r : SubscriptionRequest) (s : State W)
      → IsSound s
      → find id active ≡ some ref
      → request_at ref s ≡ some r
      → Over (cancel_all app active s) ref
  unfolding cancel_all
  cancel_all_ends [] id ref r s h e there = absurd (cc)
  cancel_all_ends ((id', ref') ∷ active) id ref r s h e there =
      let t = cancel app ref' session_closed s in
      let (ht, l) = cancel-Goes app app_goes ref' session_closed s h in
      elim (Bool-cases (id' == id)) [
        | inl same ↦
            let at : some ref' ≡ some ref = rw same at e in
            let eq : ref' ≡ ref = cc in
            let ended : Over t ref' = cancel_ends ref' session_closed r s h (rw eq there) in
            Over-Later t _ ref (cancel_all-Goes app app_goes active t ht).1
              (subst (λ (x : ℕ). Over t x) eq ended)
        | inr other ↦
            let b = l.became ref r there in
            cancel_all_ends active id ref b.request t ht (rw other at e) b.there
      ]

  terminate_subscriptions_ends :
      (ref : ℕ) (r : SubscriptionRequest) (s : State W)
      → IsSound s
      → request_at ref s ≡ some r
      → Over (terminate_subscriptions app s) ref
  unfolding terminate_subscriptions
  terminate_subscriptions_ends ref r s h there = elim (Bool-cases r.is_over) [
    | inl over ↦
        Over-Later s _ ref (cancel_all-Goes app app_goes s.subscriptions s h).1
          (record { request = r; there = there; over = over })
    | inr live ↦
        cancel_all_ends s.subscriptions r.request_id ref r s h (h.listed ref r there live) there
  ]

  -- Closing a sound publisher that is not closing yet ends every request that it has, and leaves
  -- no entry of the table for it; for a transport and streams whose own calls keep the publisher
  -- sound.
  pub begin_close_cancels :
      (error ref : ℕ) (r : SubscriptionRequest) (reason : Reason) (s : State W)
      → IsSound s
      → is_closing s.session.phase ≡ false
      → request_at ref s ≡ some r
      → Over (begin_close app error reason s) ref
        × ((id : ℕ) → find id (begin_close app error reason s).subscriptions ≢ some ref)
  unfolding begin_close Lifecycle.begin_close start_closing fail_ready_waiters settle_waiters
  begin_close_cancels error ref r reason s h early there =
      let closing : State W = record s { session = start_closing error reason s.session } in
      let ended : State W = terminate_subscriptions app closing in
      let final : State W =
        leave_session
          (shut_transport (derived app) ended.session.has_transport error (enter_session ended)) in
      let (h1, l1) = session-Goes s (start_closing error reason s.session) h in
      let (h2, l2) = terminate_subscriptions-Goes app app_goes closing h1 in
      let (h3, l3) =
        shut_transport-Keeps (derived app) SessionGoes (λ t. Goes-refl (leave_session t))
          (λ t u v. Goes-trans (leave_session t) (leave_session u) (leave_session v))
          (λ t x ids. session-Goes (leave_session t) x)
          (λ why t. terminate_subscriptions-Goes app app_goes (leave_session t))
          (λ code t. app_goes.shutdown code (leave_session t)) ended.session.has_transport error
          (enter_session ended) h2 in
      let over : Over final ref =
        Over-Later ended final ref l3 (terminate_subscriptions_ends ref r closing h1 there) in
      rw early (over, λ id. unlisted-Over final ref id h3 over)
