-- ===== src/Tests/Publisher.antt =====
-- Concrete publishers, for src/publisher_session.cpp.
use moqtopus.Common.{
  ℕ, zero, suc, ◌==◌, ==→eq, ◌++◌, ◌≡◌, ◌≢◌, refl, arith, true, false, List, [], ◌∷◌, none, some,
  inl, inr, Bool-cases, find, ok,
}
use moqtopus.Common.Text.{ascii}
use moqtopus.Common.{map, length, ap, err}
use moqtopus.Common.Keyed.{find_by}
use moqtopus.Types.{ByteBuffer, bytes_eq}
use moqtopus.Codec.Varint.{write_varint, write_length, write_tail, write_head}
use moqtopus.Codec.Framing.{encode_control_message}
use moqtopus.Codec.Framing.Stream.{Encodes, one_more, no_more}
use moqtopus.Codec.Messages.{message_request_ok}
use moqtopus.Receive.Subgroup.{concat}
use moqtopus.Publisher.Namespaces.{
  note_of, announced_as, append_text, namespace_text, announce_namespace, withdraw_namespace,
}
use moqtopus.Publisher.Request.{complete_subscription}
use moqtopus.Publisher.Announcements.{receive_all, all_bytes, announcement_receives}
use moqtopus.Publisher.Collision.{with_slash, announce_collides}
use moqtopus.Publisher.Unfinished.{too_long, complete_unencodable}
use moqtopus.Codec.Framing.{ControlMessage}
use moqtopus.Codec.Messages.{message_subscribe}
use moqtopus.Send.{PublishedTrack, SendDataPlane}
use moqtopus.Session.{SessionPhase, Session, local_close, rank}
use moqtopus.Session.Lifecycle.Laws
use moqtopus.Publisher.{SubscriptionRequest, State, App, request_at}
use moqtopus.Publisher.Request.{is_member, begin_close}
use moqtopus.Publisher.Goes.{IsSound, Later, Goes-refl, Aside-refl}
use moqtopus.Publisher.Goes.Ends.{AppGoes}
use moqtopus.Publisher.Laws.{Event, run, publisher_run-IsSound}
use moqtopus.Publisher.Closing.{Over, begin_close_cancels}

-- Streams that take everything.
abbrev silent : App (Unit {0})
silent = record {
  open_stream = λ way s. (ok 7, s);
  send_datagram = λ bytes s. (true, s);
  set_sink = λ stream sink s. s;
  send = λ stream bytes fin s. (true, s);
  finish_send = λ stream s. s;
  abort_send = λ stream error s. s;
  abort_receive = λ stream error s. s;
  shutdown = λ error s. s;
  config = record { host = 97 ∷ []; port = 4433; authority = []; path = 47 ∷ [] };
}

silent_goes : AppGoes silent
silent_goes = record {
  open_stream = λ way s. Goes-refl s;
  send_datagram = λ bytes s. Goes-refl s;
  set_sink = λ stream sink s. Aside-refl s;
  send = λ stream bytes fin s. Goes-refl s;
  finish_send = λ stream s. Goes-refl s;
  abort_send = λ stream error s. Goes-refl s;
  abort_receive = λ stream error s. Goes-refl s;
  shutdown = λ error s. Goes-refl s;
}

abbrev ready_session : Session
ready_session = record {
  phase = SessionPhase.ready;
  local_setup_sent = true;
  peer_setup_received = true;
  has_version = true;
  close_reason = none;
  next_request_id = 0;
  ready_waiters = [];
  settled = [];
  has_transport = true;
}

abbrev accepted : SubscriptionRequest
accepted = record {
  request_id = 3;
  track_namespace = ascii "live" ∷ [];
  track_name = ascii "video";
  stream = 5;
  buffer = [];
  is_over = false;
}

abbrev video : PublishedTrack
video = record {
  track_namespace = ascii "live" ∷ [];
  track_name = ascii "video";
  track_properties = [];
}

abbrev sending : SendDataPlane
sending = record {
  tracks =
      (
        (ascii "live" ∷ [], ascii "video"),
        record { track = video; largest = none; subscriptions = 3 ∷ [] },
      )
      ∷ [];
  subscriptions =
      (
        3,
        record {
          request_id = 3;
          track_alias = 0;
          track_key = (ascii "live" ∷ [], ascii "video");
          forward = true;
          start = record { group = 0; object = 0 };
          end_group = none;
          stream_count = 1;
          streams = ((0, 0), record { stream = 9; last_object_id = some 0 }) ∷ [];
        },
      )
      ∷ [];
}

-- A publisher that is ready, with one request.
abbrev publishing : State (Unit {0})
publishing = record {
  session = ready_session;
  plane = sending;
  max_subscriptions = 2;
  next_track_alias = 1;
  peer_request_ids = 3 ∷ [];
  subscriptions = (3, 0) ∷ [];
  requests = accepted ∷ [];
  pending_announcements = [];
  announced_namespaces = [];
  crashed = false;
  world = tt;
}

only_accepted :
    (ref : ℕ) (r : SubscriptionRequest)
    → request_at ref publishing ≡ some r
    → (accepted ≡ r) × (0 ≡ ref)
only_accepted zero r e = (cc, refl)
only_accepted (suc ref) r e = absurd (cc)

publishing-IsSound : IsSound publishing
unfolding is_member
publishing-IsSound = record {
  listed = λ ref r e live. let (same, place) = only_accepted ref r e in rw (← same, ← place) refl;
  entries = λ id ref e. elim (Bool-cases (3 == id)) [
    | inl same ↦
        let at : some 0 ≡ some ref = rw same at e in
        let place : 0 ≡ ref = cc in
        rw (← ==→eq 3 id same, ← place)
          (record { request = accepted; there = refl; named = refl; live = refl; known = refl })
    | inr other ↦ absurd (ground (arith, e, other))
  ];
  odd = λ id e. elim (Bool-cases (3 == id)) [
    | inl same ↦ rw (← ==→eq 3 id same) refl
    | inr other ↦ absurd (ground (arith, e, other))
  ];
  limited = omega arith;
}

-- A SUBSCRIBE for the track, with Request ID 5, and what may follow it.
abbrev subscribing : ControlMessage
subscribing = record {
  type = message_subscribe;
  payload = 5 ∷ 1 ∷ 4 ∷ (ascii "live" ++ (5 ∷ (ascii "video" ++ (0 ∷ []))));
}

abbrev season : List Event
season =
    Event.registers video
    ∷ Event.peer_request subscribing 11 [] false
    ∷ Event.request_bytes 0 ((2 ∷ 0 ∷ []) ∷ []) false
    ∷ Event.ends (ascii "live" ∷ []) (ascii "video") 2 []
    ∷ Event.session_event (Laws.Event.closes 0)
    ∷ []

publisher_run-IsSound_example :
    IsSound (run silent season publishing) × Later publishing (run silent season publishing)
publisher_run-IsSound_example =
    publisher_run-IsSound silent silent_goes season publishing publishing-IsSound

begin_close_cancels_example :
    Over (begin_close silent 0 local_close publishing) 0
    × ((id : ℕ) → find id (begin_close silent 0 local_close publishing).subscriptions ≢ some 0)
unfolding rank
begin_close_cancels_example =
    begin_close_cancels silent silent_goes 0 0 accepted local_close publishing publishing-IsSound
      refl refl

-- REQUEST_OK without parameters, in two receive events.
abbrev confirmed : ControlMessage
confirmed = record { type = message_request_ok; payload = 0 ∷ [] }

abbrev two_events : List (List ByteBuffer)
two_events = ((7 ∷ 0 ∷ []) ∷ []) ∷ ((1 ∷ []) ∷ (0 ∷ []) ∷ []) ∷ []

confirmed-Encodes : Encodes (confirmed ∷ []) (all_bytes two_events)
unfolding encode_control_message write_varint write_length write_tail write_head all_bytes concat
confirmed-Encodes = one_more confirmed [] (7 ∷ 0 ∷ 1 ∷ 0 ∷ []) [] (omega arith) refl no_more

announcement_receives_example : receive_all [] two_events ≡ ([], map note_of (confirmed ∷ []))
announcement_receives_example = announcement_receives two_events (confirmed ∷ []) confirmed-Encodes

-- A publisher that has announced the namespace of the one field "a/b".
abbrev announcing : State (Unit {0})
announcing = record publishing { announced_namespaces = (ascii "a/b", 9) ∷ [] }

announce_collides_example :
    (announce_namespace silent (ascii "a" ∷ ascii "b" ∷ []) announcing ≡ announcing)
    × (announced_as
          (namespace_text (with_slash (ascii "a") (ascii "b") []))
          (withdraw_namespace silent (ascii "a" ∷ ascii "b" ∷ []) announcing)
        ≡ none)
unfolding namespace_text append_text bytes_eq find_by ascii
announce_collides_example = announce_collides silent 97 9 [] (ascii "b") [] announcing refl

abbrev dots : ℕ → ByteBuffer
dots zero = []
dots (suc n) = b'.' ∷ dots n

length-dots : (n : ℕ) → length (dots n) ≡ n
length-dots zero = refl
length-dots (suc n) = ap suc (length-dots n)

complete_unencodable_example :
    let t = complete_subscription silent 3 2 (dots 65536) publishing in
    (t.0 ≡ err too_long)
    × (find 3 t.1.subscriptions ≡ some 0)
    × (request_at 0 t.1 ≡ some accepted)
    × (find 3 t.1.plane.subscriptions ≡ none)
complete_unencodable_example =
    complete_unencodable silent (λ stream error s. Aside-refl s) (λ stream s. Aside-refl s) 3 0 2
      accepted (dots 65536) publishing refl refl refl refl (rw (length-dots 65536) (omega arith))
