-- ===== src/Subscriber/Request.antt =====
-- `Subscriber::SubscriptionRequest` of src/subscriber_session.cpp, up to the messages that it handles.
use moqtopus.Types.{cancelled, malformed_track}
use moqtopus.Common.{ℕ, List, [], ◌∷◌, Option, none, some, if◌then◌else◌, find, erase}
use moqtopus.Receive
use moqtopus.Receive.{Fault}
use moqtopus.Receive.Routes.{retire_route}
use moqtopus.Session.{
  Reason, text, plane_fault, subscription_terminated, terminated_before_update, is_silent, Derived,
}
use moqtopus.Session.Lifecycle
use moqtopus.Session.Setup
use moqtopus.Subscriber.{
  SubscriptionPhase, SubscriptionRequest, Outcome, rejected, broken, State, App, is_terminated,
  request_at, put_request, enter_session, leave_session, enter_plane, leave_plane, fail, fail_all,
}

abbrev pub no_reason : Reason
no_reason = text []

-- `reason.empty() ? default : reason`
abbrev pub or_default : Reason → Reason → Reason
or_default default reason = if is_silent reason then default else reason

module _ {W : Type 0} where
  -- `if (result_) { fail(*result_, ...); result_.reset(); }`
  unfoldable pub fail_result : Option ℕ → Outcome → State W → State W
  fail_result none outcome s = s
  fail_result (some promise) outcome s = fail promise outcome s

  -- `if (track_alias_) owner_.data_plane_->retire_route(*track_alias_);`
  unfoldable pub retire : Option ℕ → State W → State W
  retire none s = s
  retire (some alias) s = leave_plane (retire_route alias (enter_plane s))

  -- `terminate` of a request that is not terminated, up to the report.
  unfoldable pub end_request : ℕ → SubscriptionRequest → Reason → State W → State W
  end_request ref r reason s =
      let failed : State W =
        fail_all r.updates (broken (or_default terminated_before_update reason))
          (fail_result r.result (rejected 0x0 0 (or_default subscription_terminated reason)) s) in
      let ended : State W =
        put_request ref
          (record r { phase = SubscriptionPhase.terminated; updates = []; result = none }) failed in
      let retired : State W = retire r.track_alias ended in
      record retired { subscriptions = erase r.request_id retired.subscriptions }

module _ {W : Type 0} (app : App W) where
  open app use {abort_send, abort_receive, shutdown, on_object, on_error}

  -- `if (!reason.empty()) handler_->on_error(...);`
  unfoldable pub report : ℕ → Reason → State W → State W
  report handler reason s = if is_silent reason then s else on_error handler reason s

  -- `SubscriptionRequest::terminate`
  unfoldable pub terminate : ℕ → Reason → State W → State W
  terminate ref reason s = elim (request_at ref s) [
    | none ↦ s
    | some r ↦
        if is_terminated r.phase then s else report r.handler reason (end_request ref r reason s)
  ]

  -- `Subscriber::stop_subscription_now`
  unfoldable pub stop_subscription_now : ℕ → Reason → ℕ → State W → State W
  stop_subscription_now request_id reason stream_error_code s =
      elim (find request_id s.subscriptions) [
        | none ↦ s
        | some ref ↦ elim (request_at ref s) [
          | none ↦ s
          | some r ↦
              abort_receive r.stream stream_error_code
                (abort_send r.stream stream_error_code (terminate ref reason s))
        ]
      ]

  -- `Subscriber::stop_subscription`
  unfoldable pub stop_subscription : ℕ → State W → State W
  stop_subscription request_id s = stop_subscription_now request_id no_reason cancelled s

  -- `Subscriber::terminate_subscriptions`, on a copy of the map.
  unfoldable pub terminate_all : List (ℕ × ℕ) → Reason → State W → State W
  terminate_all [] reason s = s
  terminate_all ((id, ref) ∷ active) reason s = terminate_all active reason (terminate ref reason s)

  unfoldable pub terminate_subscriptions : Reason → State W → State W
  terminate_subscriptions reason s = terminate_all s.subscriptions reason s

  -- What the subscriber is to its session.
  abbrev pub derived : Derived (State W)
  derived = record {
    on_ready = λ t. t;
    terminate_subscriptions =
        λ reason t. enter_session (terminate_subscriptions reason (leave_session t));
    shutdown = λ code t. enter_session (shutdown code (leave_session t));
    send_setup = λ t.
        let (error, s) = Setup.send_setup app.open_stream app.send app.config (leave_session t) in
        (error, enter_session s);
  }

  unfoldable pub begin_close : ℕ → Reason → State W → State W
  begin_close code reason s =
      leave_session (Lifecycle.begin_close derived code reason (enter_session s))

  unfoldable pub protocol_violation : Reason → State W → State W
  protocol_violation reason s =
      leave_session (Lifecycle.protocol_violation derived reason (enter_session s))

  -- What the subscriber is to its plane.
  abbrev pub owner : Receive.Owner (State W)
  owner = record {
    protocol_error =
        λ fault t. enter_plane (protocol_violation (plane_fault fault) (leave_plane t));
    track_error = λ request_id fault t.
        enter_plane
          (stop_subscription_now request_id (plane_fault fault) malformed_track (leave_plane t));
    on_object = λ handler object t. enter_plane (on_object handler object (leave_plane t));
    abort_receive = λ stream code t. enter_plane (abort_receive stream code (leave_plane t));
  }
