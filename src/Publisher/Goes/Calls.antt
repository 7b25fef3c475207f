-- ===== src/Publisher/Goes/Calls.antt =====
-- The announcements, and the calls of the application and of the plane, in src/publisher_session.cpp.
use moqtopus.Common.{
  ℕ, refl, arith, Bool, true, false, not, ◌&&◌, List, [], ◌∷◌, inl, inr, Bool-cases, Option-cases,
  ok,
}
use moqtopus.Common.Text.{ascii}
use moqtopus.Types.{ByteBuffer, TrackName, TrackNamespace, track_ended, internal_error}
use moqtopus.Codec.Messages.{encode_publish_namespace}
use moqtopus.Codec.Objects.{is_some}
use moqtopus.Send
use moqtopus.Send.{PublishedTrack, PublishedObject, Completion}
use moqtopus.Send.Frame.{publish-Keeps}
use moqtopus.Send.Subscriptions
use moqtopus.Send.Subscriptions.{find_track, has_track_in_namespace}
use moqtopus.Session.{raised, at_phase_ready}
use moqtopus.Session.Lifecycle.{allocate_request_id}
use moqtopus.Publisher.{◌>>◌, ◌>>=◌, State, App, announcement, enter_plane, leave_plane}
use moqtopus.Publisher.Namespaces.{
  reserved_namespace, namespace_text, announced_as, allocate, emplace_announced, conclude,
  try_announce, announce_namespace, announce_all, on_ready, withdraw_namespace, without_namespace,
}
use moqtopus.Publisher.Request.{complete_subscription}
use moqtopus.Publisher.Calls.{
  open_data_stream, datagram_by, outlet, done_code, done_text, register_track, publish,
  complete_all, end_track, remove_track, unregister_track,
}
use moqtopus.Publisher.Goes.{
  Goes, Goes-refl, Goes-trans, Aside-Goes, ActGoes, bind-Goes, catch-Goes, outcome_cases,
}
use moqtopus.Publisher.Goes.Ends.{
  AppGoes, leave_plane-Goes, begin_close-Goes, complete_subscription-Goes,
}
use moqtopus.Publisher.Goes.Updates.{plane-Goes}

module _ {W : Type 0} where
  allocate-Goes : ActGoes {W = W} allocate
  unfolding allocate
  allocate-Goes s = elim (outcome_cases (allocate_request_id s.session)) [
    | inl ((id, x), e) ↦
        rw (allocate, e)
          (Aside-Goes s (record s { session = x })
            (record {
              requests = refl;
              subscriptions = refl;
              peer_request_ids = refl;
              limit = refl;
            }))
    | inr (error, e) ↦ rw (allocate, e) (Goes-refl s)
  ]

  emplace_announced-Goes :
      (name : ByteBuffer) (stream : ℕ) (s : State W) → Goes s (emplace_announced name stream s)
  unfolding emplace_announced
  emplace_announced-Goes name stream s = Aside-Goes s _ (record {
    requests = ground arith;
    subscriptions = ground arith;
    peer_request_ids = ground arith;
    limit = ground arith;
  })

module _ {W : Type 0} (app : App W) (app_goes : AppGoes app) where
  conclude-Goes :
      (name : ByteBuffer) (stream : ℕ) (sent : Bool) → ActGoes (conclude app name stream sent)
  unfolding conclude
  conclude-Goes name stream true s = emplace_announced-Goes name stream s
  conclude-Goes name stream false s = Goes-refl s

  try_announce-Goes : (name : ByteBuffer) (ns : TrackNamespace) → ActGoes (try_announce app name ns)
  unfolding try_announce
  try_announce-Goes name ns s = elim (outcome_cases (app.open_stream false s).0) [
    | inr (error, e) ↦ rw (try_announce, ◌>>◌, ◌>>=◌, e) (app_goes.open_stream false s)
    | inl (stream, e) ↦
        let s1 = (app.open_stream false s).1 in
        let s2 = app.set_sink stream (announcement name) s1 in
        let to_s2 : Goes s s2 =
          Goes-trans s s1 s2 (app_goes.open_stream false s)
            (Aside-Goes s1 s2 (app_goes.set_sink stream (announcement name) s1)) in
        elim (outcome_cases (allocate s2).0) [
          | inr (error, e2) ↦
              rw (try_announce, ◌>>◌, ◌>>=◌, e, e2) (Goes-trans s s2 _ to_s2 (allocate-Goes s2))
          | inl (id, e2) ↦
              let s3 = (allocate s2).1 in
              let to_s3 : Goes s s3 = Goes-trans s s2 s3 to_s2 (allocate-Goes s2) in
              elim (outcome_cases (encode_publish_namespace id ns)) [
                | inr (error, e3) ↦ rw (try_announce, ◌>>◌, ◌>>=◌, e, e2, e3) to_s3
                | inl (bytes, e3) ↦
                    let s4 = (app.send stream bytes false s3).1 in
                    let to_s4 : Goes s s4 =
                      Goes-trans s s3 s4 to_s3 (app_goes.send stream bytes false s3) in
                    rw (try_announce, ◌>>◌, ◌>>=◌, e, e2, e3)
                      (Goes-trans s s4 _ to_s4 (conclude-Goes name stream _ s4))
              ]
        ]
  ]

  announce_namespace-Goes :
      (ns : TrackNamespace) (s : State W) → Goes s (announce_namespace app ns s)
  unfolding announce_namespace
  announce_namespace-Goes ns s = elim (Bool-cases (is_some (announced_as (namespace_text ns) s))) [
    | inl known ↦ rw (announce_namespace, known) (Goes-refl s)
    | inr new ↦
        rw (announce_namespace, new)
          (catch-Goes (try_announce app (namespace_text ns) ns) (λ reason t. t)
            (try_announce-Goes (namespace_text ns) ns) (λ reason t. Goes-refl t) s)
  ]

  announce_all-Goes :
      (namespaces : List TrackNamespace) (s : State W) → Goes s (announce_all app namespaces s)
  unfolding announce_all
  announce_all-Goes [] s = Goes-refl s
  announce_all-Goes (ns ∷ namespaces) s =
      Goes-trans s _ _ (announce_namespace-Goes ns s) (announce_all-Goes namespaces _)

  pub on_ready-Goes : (s : State W) → Goes s (on_ready app s)
  unfolding on_ready
  on_ready-Goes s = Goes-trans s _ _ (announce_all-Goes s.pending_announcements s) (
      Aside-Goes _ _
        (record { requests = refl; subscriptions = refl; peer_request_ids = refl; limit = refl }))

  withdraw_namespace-Goes :
      (ns : TrackNamespace) (s : State W) → Goes s (withdraw_namespace app ns s)
  unfolding withdraw_namespace
  withdraw_namespace-Goes ns s =
      let waiting : State W = record s {
        pending_announcements = without_namespace ns s.pending_announcements;
      } in
      let start : Goes s waiting =
        Aside-Goes s waiting (record {
          requests = refl;
          subscriptions = refl;
          peer_request_ids = refl;
          limit = refl;
        }) in
      elim (Option-cases (announced_as (namespace_text ns) waiting)) [
        | inl unknown ↦ rw (withdraw_namespace, unknown) start
        | inr (stream, known) ↦
            rw (withdraw_namespace, known)
              (Goes-trans s _ _ start (
                Goes-trans waiting _ _ (app_goes.abort_send stream _ waiting) (
                  Goes-trans _ _ _ (app_goes.abort_receive stream _ _) (
                    Aside-Goes _ _ (record {
                      requests = refl;
                      subscriptions = refl;
                      peer_request_ids = refl;
                      limit = refl;
                    })))))
      ]

  pub register_track-Goes :
      (track : PublishedTrack) (s : State W) → Goes s (register_track app track s)
  unfolding register_track
  register_track-Goes track s =
      let tried = Subscriptions.register_track track s.plane in
      let s1 : State W = record s { plane = tried.1 } in
      elim (Bool-cases (reserved_namespace track.track_namespace)) [
        | inl reserved ↦ rw (register_track, reserved) (Goes-refl s)
        | inr usual ↦ elim (Bool-cases tried.0) [
          | inr known ↦ rw (register_track, usual, known) (plane-Goes s tried.1)
          | inl fresh ↦ elim (Bool-cases (at_phase_ready s.session.phase)) [
            | inl ready ↦
                rw (register_track, usual, fresh, ready)
                  (Goes-trans s s1 _ (plane-Goes s tried.1)
                    (announce_namespace-Goes track.track_namespace s1))
            | inr early ↦
                rw (register_track, usual, fresh, early)
                  (Goes-trans s s1 _ (plane-Goes s tried.1) (
                    Aside-Goes _ _ (record {
                      requests = refl;
                      subscriptions = refl;
                      peer_request_ids = refl;
                      limit = refl;
                    })))
          ]
        ]
      ]

  open_data_stream-Goes : (s : State W) → Goes s (open_data_stream app s).1
  unfolding open_data_stream
  open_data_stream-Goes s = elim (outcome_cases (app.open_stream true s).0) [
    | inl (stream, e) ↦ rw (open_data_stream, e) (app_goes.open_stream true s)
    | inr (error, e) ↦
        rw (open_data_stream, e)
          (Goes-trans s _ _ (app_goes.open_stream true s)
            (begin_close-Goes app app_goes internal_error (raised error) _))
  ]

  -- With a transport or without one.
  datagram-Goes :
      (there : Bool) (bytes : ByteBuffer) (t : Send.State (State W))
      → Goes t.world (datagram_by app there bytes t).1.world
  unfolding datagram_by
  datagram-Goes true bytes t =
      Goes-trans t.world _ _ (leave_plane-Goes t) (app_goes.send_datagram bytes (leave_plane t))
  datagram-Goes false bytes t = Goes-refl t.world

  pub publish-Goes : (object : PublishedObject) (s : State W) → Goes s (publish app object s)
  unfolding publish
  publish-Goes object s = elim (Bool-cases (at_phase_ready s.session.phase)) [
    | inr early ↦ rw (publish, early) (Goes-refl s)
    | inl ready ↦
        rw (publish, ready)
          (Goes-trans s _ _
            (publish-Keeps Goes Goes-refl Goes-trans (outlet app)
              (λ t. Goes-trans _ _ _ (leave_plane-Goes t) (open_data_stream-Goes (leave_plane t)))
              (λ bytes t. datagram-Goes t.world.session.has_transport bytes t)
              (λ id why t. Goes-trans _ _ _ (leave_plane-Goes t) (
                complete_subscription-Goes app app_goes id (done_code why) (done_text why)
                  (leave_plane t)))
              (λ stream bytes fin t.
                Goes-trans _ _ _ (leave_plane-Goes t)
                  (app_goes.send stream bytes fin (leave_plane t)))
              (λ stream error t.
                Goes-trans _ _ _ (leave_plane-Goes t)
                  (app_goes.abort_send stream error (leave_plane t)))
              object (enter_plane s))
            (leave_plane-Goes _))
  ]

  complete_all-Goes :
      (ids : List ℕ) (status : ℕ) (reason : ByteBuffer)
      → ActGoes (complete_all app ids status reason)
  unfolding complete_all
  complete_all-Goes [] status reason s = Goes-refl s
  complete_all-Goes (id ∷ ids) status reason s =
      bind-Goes (complete_subscription app id status reason)
        (λ u. complete_all app ids status reason)
        (complete_subscription-Goes app app_goes id status reason)
        (λ u. complete_all-Goes ids status reason) s

  pub end_track-Goes :
      (ns : TrackNamespace) (name : TrackName) (status : ℕ) (reason : ByteBuffer)
      → ActGoes (end_track app ns name status reason)
  unfolding end_track
  end_track-Goes ns name status reason s = elim (Option-cases (find_track ns name s.plane)) [
    | inl unknown ↦ rw (end_track, unknown) (Goes-refl s)
    | inr (entry, known) ↦
        rw (end_track, known) (complete_all-Goes entry.subscriptions status reason s)
  ]

  remove_track-Goes :
      (ns : TrackNamespace) (name : TrackName) (s : State W) → Goes s (remove_track app ns name s)
  unfolding remove_track
  remove_track-Goes ns name s =
      let tried = Subscriptions.unregister_track ns name s.plane in
      elim (Bool-cases (tried.0 && not (has_track_in_namespace ns tried.1))) [
        | inl last ↦
            rw (remove_track, last)
              (Goes-trans s _ _ (plane-Goes s tried.1) (withdraw_namespace-Goes ns _))
        | inr more ↦ rw (remove_track, more) (plane-Goes s tried.1)
      ]

  pub unregister_track-Goes :
      (ns : TrackNamespace) (name : TrackName) → ActGoes (unregister_track app ns name)
  unfolding unregister_track
  unregister_track-Goes ns name =
      bind-Goes (end_track app ns name track_ended (ascii "track unregistered"))
        (λ u s. (ok tt, remove_track app ns name s))
        (end_track-Goes ns name track_ended (ascii "track unregistered"))
        (λ u s. remove_track-Goes ns name s)
