-- ===== src/Tests/Subscriber.antt =====
-- Concrete subscribers, for src/subscriber_session.cpp.
use moqtopus.Common.{
  suc, zero, ℕ, ◌==◌, ◌≡◌, refl, arith, true, false, List, [], ◌∷◌, none, some, inl, inr,
  Bool-cases, ok, find, ==→eq, invalid_argument,
}
use moqtopus.Types.{SubscribeRequest}
use moqtopus.Codec.Namespace.{write_track_namespace, write_fields}
use moqtopus.Codec.Messages.{encode_subscribe}
use moqtopus.Session.{rank, SessionPhase, Session, local_close}
use moqtopus.Session.Lifecycle.{allocate_request_id}
use moqtopus.Session.Lifecycle.Laws
use moqtopus.Subscriber.{SubscriptionPhase, SubscriptionRequest, State, App, request_at}
use moqtopus.Subscriber.Request.{begin_close}
use moqtopus.Subscriber.Calls.{new_request, try_subscribe}
use moqtopus.Subscriber.Goes.{IsSound, Later, Goes-refl, holds, is_settled}
use moqtopus.Subscriber.Goes.Promises.{Aside-refl}
use moqtopus.Subscriber.Goes.Closing.{AppGoes}
use moqtopus.Subscriber.Laws.{Event, run, run-IsSound}
use moqtopus.Subscriber.Closing.{Ended, begin_close_ends}
use moqtopus.Subscriber.Unsent.{try_subscribe_unencodable}
use moqtopus.Tests.Receive.{plane}

-- Streams that take everything, and an application that does nothing.
abbrev quiet : App (Unit {0})
quiet = record {
  open_stream = λ way s. (ok 7, s);
  set_sink = λ stream ref s. s;
  send = λ stream bytes fin s. (true, s);
  abort_send = λ stream code s. s;
  abort_receive = λ stream code s. s;
  shutdown = λ code s. s;
  config = record { host = 97 ∷ []; port = 4433; authority = []; path = 47 ∷ [] };
  on_object = λ handler object s. s;
  on_publish_done = λ handler end s. s;
  on_error = λ handler reason s. s;
}

quiet_goes : AppGoes true quiet
quiet_goes = record {
  open_stream = λ way s. Goes-refl true s;
  set_sink = λ stream ref s. Aside-refl s;
  send = λ stream bytes fin s. Aside-refl s;
  abort_send = λ stream code s. Goes-refl true s;
  abort_receive = λ stream code s. Goes-refl true s;
  shutdown = λ code s. Goes-refl true s;
  on_object = λ handler object s. Goes-refl true s;
  on_publish_done = λ handler end s. Goes-refl true s;
  on_error = λ handler reason s. Goes-refl true s;
}

-- An established request with two updates in flight.
abbrev established : SubscriptionRequest
established = record {
  request_id = 0;
  phase = SubscriptionPhase.established;
  track_alias = some 7;
  stream = 4;
  response_buffer = [];
  handler = 1;
  updates = 3 ∷ 5 ∷ [];
  result = none;
}

abbrev subscriber : State (Unit {0})
subscriber = record {
  session = record {
    phase = SessionPhase.ready;
    local_setup_sent = true;
    peer_setup_received = true;
    has_version = true;
    close_reason = none;
    next_request_id = 6;
    ready_waiters = [];
    settled = [];
    has_transport = true;
  };
  plane = plane;
  subscriptions = (0, 0) ∷ [];
  requests = established ∷ [];
  settled = [];
  next_promise = 6;
  crashed = false;
  world = tt;
}

only_request :
    (ref : ℕ) (r : SubscriptionRequest) → request_at ref subscriber ≡ some r → established ≡ r
only_request zero r e = cc
only_request (suc ref) r e = absurd (cc)

only_entry :
    (ref : ℕ) (r : SubscriptionRequest)
    → request_at ref subscriber ≡ some r
    → find r.request_id subscriber.subscriptions ≡ some ref
only_entry zero r e = rw (← only_request zero r e) refl
only_entry (suc ref) r e = absurd (cc)

subscriber-IsSound : IsSound subscriber
subscriber-IsSound = record {
  tidy = λ ref r e. rw (← only_request ref r e) (refl, refl);
  listed = λ ref r e live. only_entry ref r e;
  entries = λ id ref e. elim (Bool-cases (0 == id)) [
    | inl same ↦
        let at : some 0 ≡ some ref = rw same at e in
        let place : 0 ≡ ref = cc in
        rw (← ==→eq 0 id same, ← place)
          (record {
            request = established;
            there = refl;
            named = refl;
            live = refl;
            below = omega arith;
          })
    | inr other ↦ absurd (ground (arith, e, other))
  ];
}

abbrev request : SubscribeRequest
request = record { track_namespace = (1 ∷ []) ∷ []; track_name = 2 ∷ []; parameters = [] }

abbrev life : List Event
life =
    Event.subscribes request (some 1)
    ∷ Event.updates 0 []
    ∷ Event.response 0 ((7 ∷ 0 ∷ []) ∷ []) false
    ∷ Event.stops 6
    ∷ Event.session_event (Laws.Event.closes 0)
    ∷ []

run-IsSound_example :
    IsSound (run quiet life subscriber) × Later false subscriber (run quiet life subscriber)
run-IsSound_example = run-IsSound quiet quiet_goes life subscriber subscriber-IsSound

begin_close_ends_example :
    Ended (begin_close quiet 0 local_close subscriber) 0
    × ((p : ℕ)
        → holds p established ≡ true
        → is_settled p (begin_close quiet 0 local_close subscriber) ≡ true)
unfolding rank
begin_close_ends_example =
    begin_close_ends quiet quiet_goes 0 0 established local_close subscriber subscriber-IsSound refl
      refl

-- A namespace with an empty field.
abbrev unfit : SubscribeRequest
unfit = record { track_namespace = [] ∷ []; track_name = 2 ∷ []; parameters = [] }

-- The session behind a Request ID.
abbrev given : Session
given = record subscriber.session { next_request_id = 8 }

try_subscribe_unencodable_example :
    let t = try_subscribe quiet 6 1 unfit subscriber in
    (find 6 t.subscriptions ≡ some 1)
    × (request_at 1 t ≡ some (new_request 6 1 7 6))
    × (is_settled 6 t ≡ true)
unfolding allocate_request_id encode_subscribe write_track_namespace write_fields
try_subscribe_unencodable_example =
    try_subscribe_unencodable quiet quiet_goes 6 1 6 7 unfit
      (invalid_argument "invalid MOQT track namespace field") given subscriber refl refl refl refl
