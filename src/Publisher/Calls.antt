-- ===== src/Publisher/Calls.antt =====
-- The calls of the application, of the session and of the plane on a Publisher, in
-- src/publisher_session.cpp.
use moqtopus.Common.{
  ℕ, length, Bool, true, false, not, ◌&&◌, List, [], ◌∷◌, ◌++◌, Option, none, some, if◌then◌else◌,
  ok, err,
}
use moqtopus.Common.Text.{ascii}
use moqtopus.Types.{
  ByteBuffer, TrackName, TrackNamespace, internal_error, track_ended, subscription_ended, cancelled,
}
use moqtopus.Send
use moqtopus.Send.{PublishedTrack, PublishedObject, Outlet, Completion}
use moqtopus.Send.Subscriptions
use moqtopus.Send.Subscriptions.{find_track, has_track_in_namespace}
use moqtopus.Send.Publish
use moqtopus.Session.{raised, at_phase_ready}
use moqtopus.Publisher.{State, App, Act, ◌>>◌, modify, enter_plane, leave_plane}
use moqtopus.Publisher.Namespaces.{reserved_namespace, announce_namespace, withdraw_namespace}
use moqtopus.Publisher.Request.{begin_close, complete_subscription}

-- The status and the text of PUBLISH_DONE.
pub done_code : Completion → ℕ
done_code Completion.end_of_track = track_ended
done_code Completion.end_of_range = subscription_ended

pub done_text : Completion → ByteBuffer
done_text Completion.end_of_track = ascii "end of track"
done_text Completion.end_of_range = ascii "end of subscription range"

module _ {W : Type 0} where
  -- `Publisher::active_subscriptions`
  pub active_subscriptions : State W → ℕ
  active_subscriptions s = length s.subscriptions

module _ {W : Type 0} (app : App W) where
  open app use {open_stream, send_datagram, send, finish_send, abort_send, abort_receive}

  -- `Publisher::open_data_stream`
  unfoldable pub open_data_stream : State W → Option ℕ × State W
  open_data_stream s =
      let (opened, s1) = open_stream true s in
      elim opened [
        | err error ↦ (none, begin_close app internal_error (raised error) s1)
        | ok stream ↦ (some stream, s1)
      ]

  -- `transport_ && transport_->send_datagram(...)`
  unfoldable pub datagram_by :
      Bool → ByteBuffer → Send.State (State W) → Bool × Send.State (State W)
  datagram_by true bytes t =
      let (sent, s) = send_datagram bytes (leave_plane t) in (sent, enter_plane s)
  datagram_by false bytes t = (false, t)

  -- What the publisher is to its plane. The texts of a completion are short, so it does not throw.
  abbrev pub outlet : Outlet (State W)
  outlet = record {
    open_data_stream =
        λ t. let (opened, s) = open_data_stream (leave_plane t) in (opened, enter_plane s);
    send_datagram = λ bytes t. datagram_by t.world.session.has_transport bytes t;
    subscription_complete = λ request_id why t.
        enter_plane
          (complete_subscription app request_id (done_code why) (done_text why) (leave_plane t)).1;
    send = λ stream bytes fin t.
        let (sent, s) = send stream bytes fin (leave_plane t) in (sent, enter_plane s);
    abort_send = λ stream error t. enter_plane (abort_send stream error (leave_plane t));
    finish_send = λ stream t. enter_plane (finish_send stream (leave_plane t));
  }

  -- `Publisher::register_track`
  unfoldable pub register_track : PublishedTrack → State W → State W
  register_track track s =
      let (fresh, plane) = Subscriptions.register_track track s.plane in
      let s1 : State W = record s { plane = plane } in
      if reserved_namespace track.track_namespace
      then s
      else if not fresh
      then s1
      else if at_phase_ready s.session.phase
      then announce_namespace app track.track_namespace s1
      else record s1 {
        pending_announcements = s1.pending_announcements ++ (track.track_namespace ∷ []);
      }

  -- `Publisher::publish`
  unfoldable pub publish : PublishedObject → State W → State W
  publish object s =
      if at_phase_ready s.session.phase
      then leave_plane (Publish.publish outlet object (enter_plane s))
      else s

  -- The loop of `end_track`, on a copy of the set.
  unfoldable pub complete_all : List ℕ → ℕ → ByteBuffer → Act W (Unit {0})
  complete_all [] status reason s = (ok tt, s)
  complete_all (id ∷ ids) status reason s =
      (complete_subscription app id status reason >> complete_all ids status reason) s

  -- `Publisher::end_track`
  unfoldable pub end_track : TrackNamespace → TrackName → ℕ → ByteBuffer → Act W (Unit {0})
  end_track namespace name status reason s = elim (find_track namespace name s.plane) [
    | none ↦ (ok tt, s)
    | some entry ↦ complete_all entry.subscriptions status reason s
  ]

  -- The rest of `unregister_track`.
  unfoldable pub remove_track : TrackNamespace → TrackName → State W → State W
  remove_track namespace name s =
      let (gone, plane) = Subscriptions.unregister_track namespace name s.plane in
      let s1 : State W = record s { plane = plane } in
      if gone && not (has_track_in_namespace namespace plane)
      then withdraw_namespace app namespace s1
      else s1

  -- `Publisher::unregister_track`
  unfoldable pub unregister_track : TrackNamespace → TrackName → Act W (Unit {0})
  unregister_track namespace name = do
    end_track namespace name track_ended (ascii "track unregistered")
    modify (remove_track namespace name)

  -- `Publisher::handle_data_stream`
  unfoldable pub handle_data_stream : ℕ → ℕ → ByteBuffer → Bool → State W → State W
  handle_data_stream type stream prefix fin s = abort_receive stream cancelled s
