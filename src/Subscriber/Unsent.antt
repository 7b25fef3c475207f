-- ===== src/Subscriber/Unsent.antt =====
-- A SUBSCRIBE that cannot be encoded, in `subscribe` of src/subscriber_session.cpp.
use moqtopus.Common.{
  ℕ, ◌≡◌, refl, ap, length, true, false, List, none, some, ok, err, Exception, find, insert,
  find-insert, ==_self, get_elem?-append_new,
}
use moqtopus.Types.{SubscribeRequest}
use moqtopus.Codec.Messages.{encode_subscribe}
use moqtopus.Session.{Session, raised}
use moqtopus.Session.Lifecycle.{allocate_request_id}
use moqtopus.Subscriber.{SubscriptionRequest, broken, State, App, request_at, fail}
use moqtopus.Subscriber.Calls.{
  new_request, add_request, emplace, send_subscribe, start_request, try_subscribe,
}
use moqtopus.Subscriber.Goes.{Aside, is_settled}
use moqtopus.Subscriber.Goes.Promises.{fail-Aside, fail_settles}
use moqtopus.Subscriber.Goes.Closing.{AppGoes}

module _ {W : Type 0} (app : App W) (app_goes : AppGoes true app) where
  -- The state behind `open_stream`, with the session that gave a Request ID out.
  abbrev pub with_stream : Session → State W → State W
  with_stream y s = (app.open_stream false (record s { session = y })).1

  -- A SUBSCRIBE that cannot be encoded, on a stream that was opened and for a Request ID that is
  -- new in the table, has its promise settled, but its request stays in the table, pending and
  -- with its promise.
  pub try_subscribe_unencodable :
      (promise handler id stream : ℕ) (request : SubscribeRequest) (error : Exception) (y : Session)
      (s : State W)
      → allocate_request_id s.session ≡ ok (id, y)
      → (app.open_stream false (record s { session = y })).0 ≡ ok stream
      → encode_subscribe id request ≡ err error
      → find id (with_stream y s).subscriptions ≡ none
      → let s1 = with_stream y s in
        let t = try_subscribe app promise handler request s in
        (find id t.subscriptions ≡ some (length s1.requests))
        × (request_at (length s1.requests) t ≡ some (new_request id handler stream promise))
        × (is_settled promise t ≡ true)
  unfolding try_subscribe start_request send_subscribe add_request emplace
  try_subscribe_unencodable promise handler id stream request error y s given opened unfit new =
      rw (given, try_subscribe, opened, unfit, send_subscribe)
        (
          rw (fa.subscriptions)
              (rw (table, find-insert id id ref s1.subscriptions, ==_self id) refl),
          rw (fa.requests, heap, a.requests) (get_elem?-append_new s1.requests r),
          fail_settles promise (broken (raised error)) placed,
        )
    where
      s1 : State W
      s1 = with_stream y s

      ref : ℕ
      ref = length s1.requests

      r : SubscriptionRequest
      r = new_request id handler stream promise

      made : State W
      made = add_request r s1

      a : Aside made (app.set_sink stream ref made)
      a = app_goes.set_sink stream ref made

      placed : State W
      placed = emplace id ref (app.set_sink stream ref made)

      missing : find id (app.set_sink stream ref made).subscriptions ≡ none
      missing = rw a.subscriptions new

      table : placed.subscriptions ≡ insert id ref s1.subscriptions
      table = rw (missing, emplace) (ap (λ (m : List (ℕ × ℕ)). insert id ref m) a.subscriptions)

      heap : placed.requests ≡ (app.set_sink stream ref made).requests
      heap = rw (missing, emplace) refl

      fa : Aside placed (fail promise (broken (raised error)) placed)
      fa = fail-Aside promise (broken (raised error)) placed
