-- ===== src/Publisher.antt =====
-- The publisher: include/moq/publisher_session.h and src/publisher_session.cpp. A SubscriptionRequest is a
-- shared object, so it stands on a heap and is named by its place. What the publisher calls is an `App`:
-- the transport and its streams, which may change the world and, through the publisher's operations,
-- the publisher. What throws answers with a `Result`, and keeps the state that it has changed.
pub mod Namespaces
pub mod Request
pub mod Accept
pub mod Calls
pub mod Goes
pub mod Laws
pub mod Closing
pub mod Collision
pub mod Announcements
pub mod Unfinished
use moqtopus.Common.{
  ℕ, Bool, true, false, List, [], ◌∷◌, Option, none, some, find, get_elem?, set, Result, ok, err,
}
use moqtopus.Types.{ByteBuffer, TrackName, TrackNamespace}
use moqtopus.Send
use moqtopus.Send.{SendDataPlane}
use moqtopus.Session
use moqtopus.Session.{Session, Reason}
use moqtopus.Session.Setup.{MsQuicClientConfig}

-- The members of `Publisher::SubscriptionRequest`.
pub record SubscriptionRequest : Type 0 where
  pub request_id : ℕ
  pub track_namespace : TrackNamespace
  pub track_name : TrackName
  pub stream : ℕ
  pub buffer : ByteBuffer
  pub is_over : Bool

-- The members of Publisher and the heap of its requests. `crashed` says that an exception left a callback
-- of the transport, which ends the program; what the model does behind it has no counterpart.
pub record State (W : Type 0) : Type 0 where
  pub session : Session
  pub plane : SendDataPlane
  pub max_subscriptions : ℕ
  pub next_track_alias : ℕ
  pub peer_request_ids : List ℕ
  pub subscriptions : List (ℕ × ℕ)
  pub requests : List SubscriptionRequest
  pub pending_announcements : List TrackNamespace
  pub announced_namespaces : List (ByteBuffer × ℕ)
  pub crashed : Bool
  pub world : W

-- What a stream hands its bytes to: a NamespaceAnnouncementFSM with its name, or a request.
pub data Sink : Type 0 where
  announcement : ByteBuffer → Sink
  request : ℕ → Sink

-- `MsQuicTransportAdapter::open_stream` and `send_datagram`, the operations of StreamContext, and what the
-- session asks of the transport.
pub record App (W : Type 0) : Type 0 where
  pub open_stream : Bool → State W → Result ℕ × State W
  pub send_datagram : ByteBuffer → State W → Bool × State W
  pub set_sink : ℕ → Sink → State W → State W
  pub send : ℕ → ByteBuffer → Bool → State W → Bool × State W
  pub finish_send : ℕ → State W → State W
  pub abort_send : ℕ → ℕ → State W → State W
  pub abort_receive : ℕ → ℕ → State W → State W
  pub shutdown : ℕ → State W → State W
  pub config : MsQuicClientConfig

-- A call that may throw.
abbrev pub Act : Type 0 → Type 0 → Type 0
Act W A = State W → Result A × State W

infixl 5 ◌>>=◌ ◌>>◌
abbrev pub ◌>>=◌ : {W A B : Type 0} → Act W A → (A → Act W B) → Act W B
◌>>=◌ call rest s =
    let (outcome, s1) = call s in elim outcome [ err error ↦ (err error, s1) | ok a ↦ rest a s1 ]

abbrev pub ◌>>◌ : {W B : Type 0} → Act W (Unit {0}) → Act W B → Act W B
call >> rest = call >>= λ _. rest

abbrev pub pure : {W A : Type 0} → A → Act W A
pure a s = (ok a, s)

-- A call that only returns or throws, and one that only changes the state.
abbrev pub throwing : {W A : Type 0} → Result A → Act W A
throwing outcome s = (outcome, s)

abbrev pub modify : {W : Type 0} → (State W → State W) → Act W (Unit {0})
modify f s = (ok tt, f s)

-- `try { ... } catch`, which goes on with the exception.
abbrev pub catch :
    {W : Type 0} → Act W (Unit {0}) → (Reason → State W → State W) → State W → State W
catch call handler s =
    let (outcome, s1) = call s in
    elim outcome [ err error ↦ handler (Reason.raised error) s1 | ok u ↦ s1 ]

module _ {W : Type 0} where
  abbrev pub request_at : ℕ → State W → Option SubscriptionRequest
  request_at ref s = get_elem? s.requests ref

  abbrev pub put_request : ℕ → SubscriptionRequest → State W → State W
  put_request ref r s = record s { requests = set s.requests ref r }

  -- A change of a request that is on the heap.
  abbrev pub change : ℕ → (SubscriptionRequest → SubscriptionRequest) → State W → State W
  change ref f s = elim (request_at ref s) [ none ↦ s | some r ↦ put_request ref (f r) s ]

  -- The publisher as the owner of its session and of its plane: the rest of the program is the publisher,
  -- whose own copy of the part is put back behind the call.
  abbrev pub enter_session : State W → Session.State (State W)
  enter_session s = record { session = s.session; world = s }

  abbrev pub leave_session : Session.State (State W) → State W
  leave_session t = record t.world { session = t.session }

  abbrev pub enter_plane : State W → Send.State (State W)
  enter_plane s = record { plane = s.plane; world = s }

  abbrev pub leave_plane : Send.State (State W) → State W
  leave_plane t = record t.world { plane = t.plane }

  -- An exception that leaves a callback of the transport.
  pub escape : Act W (Unit {0}) → State W → State W
  escape call = catch call (λ reason s. record s { crashed = true })
