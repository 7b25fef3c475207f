-- ===== src/Publisher/Unfinished.antt =====
-- A PUBLISH_DONE that cannot be encoded, in src/publisher_session.cpp.
use moqtopus.Common.{
  ℕ, ◌<◌, ltb, ◌≡◌, refl, arith, length, length-append, true, false, ◌++◌, Option, none, some, inl,
  inr, Option-cases, find, find-erase, ==_self, err, Exception, length_error,
}
use moqtopus.Types.{ByteBuffer}
use moqtopus.Codec.Varint.{write_varint}
use moqtopus.Codec.Framing.{encode_control_message}
use moqtopus.Codec.Messages.{encode_publish_done, write_string}
use moqtopus.Send.Subscriptions.{detach_subscription, forget}
use moqtopus.Send
use moqtopus.Send.Frame.{detach_subscription-Keeps}
use moqtopus.Publisher.{SubscriptionRequest, State, App, request_at, enter_plane, leave_plane}
use moqtopus.Publisher.Request.{detach, send_done, finish, complete_subscription}
use moqtopus.Publisher.Goes.{Aside, Aside-refl, Aside-trans}

-- The exception of `encode_control_message`.
abbrev pub too_long : Exception
too_long = length_error "MOQT control message payload exceeds 65535 bytes"

publish_done_too_long :
    (status count : ℕ) (reason : ByteBuffer)
    → 65535 < length reason
    → encode_publish_done status count reason ≡ err too_long
unfolding encode_publish_done encode_control_message write_string
publish_done_too_long status count reason long =
    let longer : ltb 65535 (
          length (
            write_varint status
            ++ (write_varint count ++ (write_varint (length reason) ++ reason))))
        ≡ true =
      rw
        (
          length-append (write_varint status)
              (write_varint count ++ (write_varint (length reason) ++ reason)),
          length-append (write_varint count) (write_varint (length reason) ++ reason),
          length-append (write_varint (length reason)) reason,
        )
        (ground (arith, long)) in
    rw longer refl

module _ {W : Type 0} (app : App W)
    (aborted : (stream error : ℕ) (s : State W) → Aside s (app.abort_send stream error s))
    (finished : (stream : ℕ) (s : State W) → Aside s (app.finish_send stream s)) where
  leave_plane-Aside : (t : Send.State (State W)) → Aside t.world (leave_plane t)
  leave_plane-Aside t = record {
    requests = refl;
    subscriptions = refl;
    peer_request_ids = refl;
    limit = refl;
  }

  detach-Aside : (id : ℕ) (reset : Option ℕ) (s : State W) → Aside s (detach app id reset s).1
  unfolding detach
  detach-Aside id reset s =
      Aside-trans s _ _
        (detach_subscription-Keeps Aside Aside-refl Aside-trans _ _
          (λ stream error t. Aside-trans _ _ _ (leave_plane-Aside t) (aborted stream error _))
          (λ stream t. Aside-trans _ _ _ (leave_plane-Aside t) (finished stream _)) id reset
          (enter_plane s))
        (leave_plane-Aside _)

  -- The plane forgets the subscription.
  detach_forgets :
      (id : ℕ) (reset : Option ℕ) (s : State W)
      → find id (detach app id reset s).1.plane.subscriptions ≡ none
  unfolding detach detach_subscription forget
  detach_forgets id reset s = elim (Option-cases (find id s.plane.subscriptions)) [
    | inl gone ↦ rw (detach, detach_subscription, gone) gone
    | inr (sub, there) ↦
        rw (detach, detach_subscription, there, forget, find-erase id id _, ==_self id) refl
  ]

  -- Completing a live request with a reason of more than 65535 bytes throws, and leaves the
  -- request live and in the table, while the sending plane has no subscription for it any more;
  -- for streams whose ending leaves the requests and their table as they are.
  pub complete_unencodable :
      (id ref status : ℕ) (r : SubscriptionRequest) (reason : ByteBuffer) (s : State W)
      → find id s.subscriptions ≡ some ref
      → request_at ref s ≡ some r
      → r.request_id ≡ id
      → r.is_over ≡ false
      → 65535 < length reason
      → let t = complete_subscription app id status reason s in
        (t.0 ≡ err too_long)
        × (find id t.1.subscriptions ≡ some ref)
        × (request_at ref t.1 ≡ some r)
        × (find id t.1.plane.subscriptions ≡ none)
  unfolding complete_subscription finish send_done
  complete_unencodable id ref status r reason s listed there named live long =
      let a = detach-Aside r.request_id none s in
      let error = publish_done_too_long status (detach app r.request_id none s).0 reason long in
      let thrown : complete_subscription app id status reason s
          ≡ (err too_long, (detach app r.request_id none s).1) =
        rw (complete_subscription, listed, finish, there, live, send_done, error) refl in
      rw thrown (
        refl,
        rw a.subscriptions listed,
        rw a.requests there,
        rw (← named) (detach_forgets r.request_id none s),
      )
