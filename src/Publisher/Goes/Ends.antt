-- ===== src/Publisher/Goes/Ends.antt =====
-- What ends requests in src/publisher_session.cpp, up to the session that does so.
use moqtopus.Common.{
  ℕ, ◌≡◌, refl, sym, ◌∙◌, Bool, true, false, List, [], ◌∷◌, Option, none, some, inl, inr,
  Bool-cases, Option-cases, find, erase,
}
use moqtopus.Types.{ByteBuffer, cancelled, session_closed}
use moqtopus.Codec.Messages.{encode_publish_done}
use moqtopus.Send
use moqtopus.Send.Frame.{detach_subscription-Keeps}
use moqtopus.Session
use moqtopus.Session.{Session, Reason}
use moqtopus.Session.Lifecycle.Frame.{begin_close-Keeps}
use moqtopus.Publisher.{
  SubscriptionRequest, State, App, Sink, change, request_at, enter_session, leave_session,
  enter_plane, leave_plane,
}
use moqtopus.Publisher.Request.{
  detach, end_request, send_done, finish, cancel, cancel_all, terminate_subscriptions, derived,
  begin_close, protocol_violation, complete_subscription,
}
use moqtopus.Publisher.Goes.{
  IsSound, Later, Later-trans, Goes, Goes-refl, Goes-trans, Aside, Aside-Goes, ActGoes,
  outcome_cases,
}
use moqtopus.Publisher.Goes.Requests.{ended-Goes}

-- What the transport and its streams do to the publisher is what its operations do: they lead from a
-- sound state to a sound one, and on. `set_sink`, which sets a member of the stream, leaves the requests
-- alone.
pub record AppGoes {W : Type 0} (app : App W) : Type 0 where
  pub open_stream : (way : Bool) (s : State W) → Goes s (app.open_stream way s).1
  pub send_datagram : (bytes : ByteBuffer) (s : State W) → Goes s (app.send_datagram bytes s).1
  pub set_sink : (stream : ℕ) (sink : Sink) (s : State W) → Aside s (app.set_sink stream sink s)
  pub send :
      (stream : ℕ) (bytes : ByteBuffer) (fin : Bool) (s : State W)
      → Goes s (app.send stream bytes fin s).1
  pub finish_send : (stream : ℕ) (s : State W) → Goes s (app.finish_send stream s)
  pub abort_send : (stream error : ℕ) (s : State W) → Goes s (app.abort_send stream error s)
  pub abort_receive : (stream error : ℕ) (s : State W) → Goes s (app.abort_receive stream error s)
  pub shutdown : (error : ℕ) (s : State W) → Goes s (app.shutdown error s)

module _ {W : Type 0} where
  -- The plane and the session are put back.
  pub leave_plane-Goes : (t : Send.State (State W)) → Goes t.world (leave_plane t)
  leave_plane-Goes t =
      Aside-Goes _ _
        (record { requests = refl; subscriptions = refl; peer_request_ids = refl; limit = refl })

  pub session-Goes : (s : State W) (x : Session) → Goes s (record s { session = x })
  session-Goes s x =
      Aside-Goes _ _
        (record { requests = refl; subscriptions = refl; peer_request_ids = refl; limit = refl })

  -- A change of the session's state, as one of the publisher.
  abbrev pub SessionGoes : Session.State (State W) → Session.State (State W) → Type 0
  SessionGoes t u = Goes (leave_session t) (leave_session u)

  -- Behind a live request's state, its Request ID names no other request.
  alone :
      (s t : State W) (ref other : ℕ) (r : SubscriptionRequest)
      → IsSound s
      → request_at ref s ≡ some r
      → r.is_over ≡ false
      → Later s t
      → find r.request_id t.subscriptions ≡ some other
      → ref ≡ other
  alone s t ref other r h there live l e =
      let listed = h.listed ref r there live in
      elim (l.fresh r.request_id other e) [
        | inl old ↦ let both : some ref ≡ some other = sym listed ∙ old in cc
        | inr unused ↦
            let known = (h.entries r.request_id ref listed).known in
            let both : true ≡ false = sym known ∙ unused in absurd (cc)
      ]

  -- What `end_request` does behind the calls of the stream.
  abbrev pub marked : ℕ → ℕ → State W → State W
  marked ref id u =
      let over : State W = change ref (λ now. record now { is_over = true }) u in
      record over { subscriptions = erase id over.subscriptions }

  marked-Goes :
      (u : State W) (ref id : ℕ) (now : SubscriptionRequest)
      → request_at ref u ≡ some now
      → now.request_id ≡ id
      → ((other : ℕ) → find id u.subscriptions ≡ some other → ref ≡ other)
      → Goes u (marked ref id u)
  marked-Goes u ref id now there named only =
      ended-Goes u (marked ref id u) ref now (record now { is_over = true })
        (record {
          before = there;
          requests = rw (marked, change, there) refl;
          named = refl;
          over = λ e. refl;
          peer_request_ids = rw (marked, change, there) refl;
          limit = rw (marked, change, there) refl;
        })
        refl (rw (marked, change, there, named) refl) (λ other e. only other (rw named at e))

module _ {W : Type 0} (app : App W) (app_goes : AppGoes app) where
  pub detach-Goes : (id : ℕ) (reset : Option ℕ) (s : State W) → Goes s (detach app id reset s).1
  unfolding detach
  detach-Goes id reset s =
      Goes-trans s _ _
        (detach_subscription-Keeps Goes Goes-refl Goes-trans _ _
          (λ stream error t.
            Goes-trans _ _ _ (leave_plane-Goes t) (app_goes.abort_send stream error _))
          (λ stream t. Goes-trans _ _ _ (leave_plane-Goes t) (app_goes.finish_send stream _)) id
          reset (enter_plane s))
        (leave_plane-Goes _)

  end_request-Goes :
      (ref error : ℕ) (r : SubscriptionRequest) (s t : State W)
      → IsSound s
      → request_at ref s ≡ some r
      → r.is_over ≡ false
      → Goes s t
      → IsSound (end_request app ref r error t) × Later s (end_request app ref r error t)
  unfolding end_request
  end_request-Goes ref error r s t h there live g =
      let u = app.abort_receive r.stream error t in
      let (hu, l) = Goes-trans s t u g (app_goes.abort_receive r.stream error t) h in
      let b = l.became ref r there in
      let (hv, lv) =
        marked-Goes u ref r.request_id b.request b.there b.named
          (λ other e. alone s u ref other r h there live l e) hu in
      (hv, Later-trans s u _ l lv)

  send_done-Goes :
      (ref status : ℕ) (r : SubscriptionRequest) (reason : ByteBuffer) (count : ℕ) (s t : State W)
      → IsSound s
      → request_at ref s ≡ some r
      → r.is_over ≡ false
      → Goes s t
      → IsSound (send_done app ref r status reason count t).1
        × Later s (send_done app ref r status reason count t).1
  unfolding send_done
  send_done-Goes ref status r reason count s t h there live g =
      elim (outcome_cases (encode_publish_done status count reason)) [
        | inl (bytes, e) ↦
            rw (send_done, e)
              (end_request-Goes ref cancelled r s _ h there live
                (Goes-trans s t _ g (app_goes.send r.stream bytes true t)))
        | inr (error, e) ↦ rw (send_done, e) (g h)
      ]

  pub finish-Goes : (ref status : ℕ) (reason : ByteBuffer) → ActGoes (finish app ref status reason)
  unfolding finish
  finish-Goes ref status reason s h = elim (Option-cases (request_at ref s)) [
    | inl gone ↦ rw (finish, gone) (Goes-refl s h)
    | inr (r, there) ↦ elim (Bool-cases r.is_over) [
      | inl over ↦ rw (finish, there, over) (Goes-refl s h)
      | inr live ↦
          rw (finish, there, live)
            (send_done-Goes ref status r reason _ s _ h there live
              (detach-Goes r.request_id none s))
    ]
  ]

  pub cancel-Goes : (ref error : ℕ) (s : State W) → Goes s (cancel app ref error s)
  unfolding cancel
  cancel-Goes ref error s h = elim (Option-cases (request_at ref s)) [
    | inl gone ↦ rw (cancel, gone) (Goes-refl s h)
    | inr (r, there) ↦ elim (Bool-cases r.is_over) [
      | inl over ↦ rw (cancel, there, over) (Goes-refl s h)
      | inr live ↦
          rw (cancel, there, live)
            (end_request-Goes ref error r s _ h there live (
              Goes-trans s _ _ (detach-Goes r.request_id (some error) s)
                (app_goes.abort_send r.stream error _)))
    ]
  ]

  pub cancel_all-Goes : (active : List (ℕ × ℕ)) (s : State W) → Goes s (cancel_all app active s)
  unfolding cancel_all
  cancel_all-Goes [] s = Goes-refl s
  cancel_all-Goes ((id, ref) ∷ active) s =
      Goes-trans s _ _ (cancel-Goes ref session_closed s) (cancel_all-Goes active _)

  pub terminate_subscriptions-Goes : (s : State W) → Goes s (terminate_subscriptions app s)
  unfolding terminate_subscriptions
  terminate_subscriptions-Goes s = cancel_all-Goes s.subscriptions s

  pub begin_close-Goes :
      (error : ℕ) (reason : Reason) (s : State W) → Goes s (begin_close app error reason s)
  unfolding begin_close
  begin_close-Goes error reason s =
      begin_close-Keeps (derived app) SessionGoes (λ t. Goes-refl (leave_session t))
        (λ t u v. Goes-trans (leave_session t) (leave_session u) (leave_session v))
        (λ t x ids. session-Goes (leave_session t) x)
        (λ why t. terminate_subscriptions-Goes (leave_session t))
        (λ code t. app_goes.shutdown code (leave_session t)) error reason (enter_session s)

  pub protocol_violation-Goes :
      (reason : Reason) (s : State W) → Goes s (protocol_violation app reason s)
  unfolding protocol_violation
  protocol_violation-Goes reason s = begin_close-Goes _ reason s

  pub complete_subscription-Goes :
      (id status : ℕ) (reason : ByteBuffer) → ActGoes (complete_subscription app id status reason)
  unfolding complete_subscription
  complete_subscription-Goes id status reason s = elim (Option-cases (find id s.subscriptions)) [
    | inl unknown ↦ rw (complete_subscription, unknown) (Goes-refl s)
    | inr (ref, known) ↦ rw (complete_subscription, known) (finish-Goes ref status reason s)
  ]
