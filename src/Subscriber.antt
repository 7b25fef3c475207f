-- ===== src/Subscriber.antt =====
-- The subscriber: include/moq/subscriber_session.h and src/subscriber_session.cpp. A SubscriptionRequest
-- is a shared object, so it stands on a heap and is named by its place, as a promise is by its number.
-- What the subscriber calls is an `App`: the streams of the transport and the application's handler,
-- which may change the world and, through the subscriber's operations, the subscriber.
pub mod Request
pub mod Response
pub mod Calls
pub mod Goes
pub mod Laws
pub mod Closing
pub mod Unsent
use moqtopus.Common.{
  ℕ, ◌+◌, Bool, true, false, List, [], ◌∷◌, Option, none, some, find, insert, get_elem?, set,
  Result,
}
use moqtopus.Types.{ByteBuffer, Object, RequestOk, PublishDone}
use moqtopus.Codec.Objects.{is_some}
use moqtopus.Receive
use moqtopus.Receive.{DataPlane}
use moqtopus.Session
use moqtopus.Session.{Session, Reason}
use moqtopus.Session.Setup.{MsQuicClientConfig}

pub data SubscriptionPhase : Type 0 where
  pending established update_failed terminated : SubscriptionPhase

-- The members of `Subscriber::SubscriptionRequest`. `result` and `updates` are promises.
pub record SubscriptionRequest : Type 0 where
  pub request_id : ℕ
  pub phase : SubscriptionPhase
  pub track_alias : Option ℕ
  pub stream : ℕ
  pub response_buffer : ByteBuffer
  pub handler : ℕ
  pub updates : List ℕ
  pub result : Option ℕ

-- What a promise is settled with: a Subscription, a RequestOk, RequestRejected, or another exception.
pub data Outcome : Type 0 where
  subscribed : ℕ → ℕ → Outcome
  updated : RequestOk → Outcome
  rejected : ℕ → ℕ → Reason → Outcome
  broken : Reason → Outcome

-- The members of Subscriber, the heap of its requests, and the promises. `settled` has the promises that
-- are settled, and `next_promise` is the next new one. `crashed` says that an exception, such as that of
-- a promise that is settled twice, left a callback of the transport, which ends the program; what the
-- model does behind it has no counterpart.
pub record State (W : Type 0) : Type 0 where
  pub session : Session
  pub plane : DataPlane
  pub subscriptions : List (ℕ × ℕ)
  pub requests : List SubscriptionRequest
  pub settled : List (ℕ × Outcome)
  pub next_promise : ℕ
  pub crashed : Bool
  pub world : W

-- `MsQuicTransportAdapter::open_stream`, the operations of StreamContext, what the session asks of the
-- transport, and ObjectHandler.
pub record App (W : Type 0) : Type 0 where
  pub open_stream : Bool → State W → Result ℕ × State W
  pub set_sink : ℕ → ℕ → State W → State W
  pub send : ℕ → ByteBuffer → Bool → State W → Bool × State W
  pub abort_send : ℕ → ℕ → State W → State W
  pub abort_receive : ℕ → ℕ → State W → State W
  pub shutdown : ℕ → State W → State W
  pub config : MsQuicClientConfig
  pub on_object : ℕ → Object → State W → State W
  pub on_publish_done : ℕ → PublishDone → State W → State W
  pub on_error : ℕ → Reason → State W → State W

abbrev pub is_terminated : SubscriptionPhase → Bool
is_terminated SubscriptionPhase.terminated = true
is_terminated _ = false

abbrev pub is_pending : SubscriptionPhase → Bool
is_pending SubscriptionPhase.pending = true
is_pending _ = false

abbrev pub is_established : SubscriptionPhase → Bool
is_established SubscriptionPhase.established = true
is_established _ = false

module _ {W : Type 0} where
  abbrev pub request_at : ℕ → State W → Option SubscriptionRequest
  request_at ref s = get_elem? s.requests ref

  abbrev pub put_request : ℕ → SubscriptionRequest → State W → State W
  put_request ref r s = record s { requests = set s.requests ref r }

  -- A change of a request that is on the heap.
  abbrev pub change : ℕ → (SubscriptionRequest → SubscriptionRequest) → State W → State W
  change ref f s = elim (request_at ref s) [ none ↦ s | some r ↦ put_request ref (f r) s ]

  -- The subscriber as the owner of its session and of its plane: the rest of the program is the
  -- subscriber, whose own copy of the part is put back behind the call.
  abbrev pub enter_session : State W → Session.State (State W)
  enter_session s = record { session = s.session; world = s }

  abbrev pub leave_session : Session.State (State W) → State W
  leave_session t = record t.world { session = t.session }

  abbrev pub enter_plane : State W → Receive.State (State W)
  enter_plane s = record { plane = s.plane; world = s }

  abbrev pub leave_plane : Receive.State (State W) → State W
  leave_plane t = record t.world { plane = t.plane }

  -- `Session::fail`: a promise that is settled stays as it is.
  unfoldable pub fail : ℕ → Outcome → State W → State W
  fail promise outcome s = elim (find promise s.settled) [
    | some known ↦ s
    | none ↦ record s { settled = insert promise outcome s.settled }
  ]

  -- `std::promise::set_value`, which throws for a promise that is settled.
  pub set_value : ℕ → Outcome → State W → State W
  set_value promise outcome s = elim (find promise s.settled) [
    | some known ↦ record s { crashed = true }
    | none ↦ record s { settled = insert promise outcome s.settled }
  ]

  -- `fail_updates`: the promises in their order.
  pub fail_all : List ℕ → Outcome → State W → State W
  fail_all [] outcome s = s
  fail_all (promise ∷ promises) outcome s = fail_all promises outcome (fail promise outcome s)
