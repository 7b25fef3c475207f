-- ===== src/Stream.antt =====
-- One QUIC stream: src/stream_context.h and src/stream_context.cpp. The sinks, the API of MsQuic and the
-- adapter are parameters, which may change the world and, through the operations, the stream.
pub mod Closed
pub mod Pending
use moqtopus.Common.{
  ℕ, ◌+◌, ◌==◌, Bool, true, false, List, [], ◌∷◌, Option, none, some, if◌then◌else◌,
}
use moqtopus.Types.{ByteBuffer}

-- The members of StreamContext. The handle is the one of MsQuic, and a sink is named by a number.
pub record StreamContext : Type 0 where
  pub handle : Option ℕ
  pub unidirectional : Bool
  pub id : ℕ
  pub sink : Option ℕ

-- The stream, and the PendingSend objects that are allocated, each by its number. `double_freed` says that
-- one was deleted that was not allocated.
pub record State (W : Type 0) : Type 0 where
  pub context : StreamContext
  pub pending : List ℕ
  pub next_pending : ℕ
  pub double_freed : Bool
  pub world : W

-- QUIC_STREAM_SHUTDOWN_FLAGS
pub data Shutdown : Type 0 where
  aborting_receive graceful aborting_send : Shutdown

-- The calls of MsQuic, which answer whether they succeeded, and of the adapter.
pub record Api (W : Type 0) : Type 0 where
  pub stream_send : ℕ → ℕ → ByteBuffer → Bool → State W → Bool × State W
  pub stream_shutdown : ℕ → Shutdown → ℕ → State W → Bool × State W
  pub stream_close : ℕ → State W → State W
  pub transport_error : ℕ → State W → State W
  pub remove_stream : State W → State W

-- StreamSink
pub record StreamSink (W : Type 0) : Type 0 where
  pub on_receive : ℕ → List ByteBuffer → Bool → State W → State W
  pub on_peer_send_aborted : ℕ → ℕ → State W → State W
  pub on_peer_receive_aborted : ℕ → ℕ → State W → State W
  pub on_stream_closed : ℕ → State W → State W

-- QUIC_STREAM_EVENT, with a failed start as its status.
pub data StreamEvent : Type 0 where
  start_complete : ℕ → Option ℕ → StreamEvent
  receive : List ByteBuffer → Bool → StreamEvent
  peer_send_shutdown : StreamEvent
  send_complete : ℕ → StreamEvent
  peer_send_aborted : ℕ → StreamEvent
  peer_receive_aborted : ℕ → StreamEvent
  shutdown_complete : StreamEvent
  unknown : StreamEvent

pub remove_token : ℕ → List ℕ → Option (List ℕ)
remove_token token [] = none
remove_token token (x ∷ xs) =
    let rest = remove_token token xs in
    if x == token then some xs else elim rest [ none ↦ none | some ys ↦ some (x ∷ ys) ]

module _ {W : Type 0} where
  -- `new PendingSend(...)` and `delete`
  unfoldable pub allocate : State W → ℕ × State W
  allocate s = (
    s.next_pending,
    record s { pending = s.next_pending ∷ s.pending; next_pending = s.next_pending + 1 },
  )

  pub free : ℕ → State W → State W
  free token s = elim (remove_token token s.pending) [
    | none ↦ record s { double_freed = true }
    | some pending ↦ record s { pending = pending }
  ]

  -- `StreamContext::set_sink`
  pub set_sink : Option ℕ → State W → State W
  set_sink sink s = record s { context = record s.context { sink = sink } }

  abbrev pub set_handle : Option ℕ → State W → State W
  set_handle handle s = record s { context = record s.context { handle = handle } }

module _ {W : Type 0} (api : Api W) where
  open api use {stream_send, stream_shutdown}

  -- `StreamContext::send`
  pub send : ByteBuffer → Bool → State W → Bool × State W
  send bytes fin s = elim s.context.handle [
    | none ↦ (false, s)
    | some handle ↦
        let (token, s1) = allocate s in
        let (sent, s2) = stream_send handle token bytes fin s1 in
        if sent then (true, s2) else (false, free token s2)
  ]

  -- `StreamContext::abort_receive`
  pub abort_receive : ℕ → State W → State W
  abort_receive error_code s = elim s.context.handle [
    | none ↦ s
    | some handle ↦ (stream_shutdown handle Shutdown.aborting_receive error_code s).1
  ]

  -- `StreamContext::finish_send`
  pub finish_send : State W → Bool × State W
  finish_send s = elim s.context.handle [
    | none ↦ (false, s)
    | some handle ↦ stream_shutdown handle Shutdown.graceful 0 s
  ]

  -- `StreamContext::abort_send`
  pub abort_send : ℕ → State W → State W
  abort_send error_code s = elim s.context.handle [
    | none ↦ s
    | some handle ↦ (stream_shutdown handle Shutdown.aborting_send error_code s).1
  ]

module _ {W : Type 0} (api : Api W) (sinks : StreamSink W) where
  open api use {stream_close, transport_error, remove_stream}
  open sinks use {on_receive, on_peer_send_aborted, on_peer_receive_aborted, on_stream_closed}

  -- A call of the sink, where there is one.
  pub with_sink : Option ℕ → (ℕ → State W → State W) → State W → State W
  with_sink none call s = s
  with_sink (some sink) call s = call sink s

  pub report_start : Option ℕ → State W → State W
  report_start none s = s
  report_start (some status) s = transport_error status s

  -- `api_->StreamClose(stream)`, once.
  pub close_handle : State W → State W
  close_handle s = elim s.context.handle [
    | none ↦ s
    | some handle ↦ set_handle none (stream_close handle s)
  ]

  -- `StreamContext::stream_callback`, with a copy of the sink.
  pub stream_callback : StreamEvent → State W → State W
  stream_callback (start_complete id status) s =
      report_start status (record s { context = record s.context { id = id } })
  stream_callback (receive chunks fin) s =
      with_sink s.context.sink (λ sink. on_receive sink chunks fin) s
  stream_callback peer_send_shutdown s =
      with_sink s.context.sink (λ sink. on_receive sink [] true) s
  stream_callback (send_complete token) s = free token s
  stream_callback (peer_send_aborted error_code) s =
      with_sink s.context.sink (λ sink. on_peer_send_aborted sink error_code) s
  stream_callback (peer_receive_aborted error_code) s =
      with_sink s.context.sink (λ sink. on_peer_receive_aborted sink error_code) s
  stream_callback shutdown_complete s =
      remove_stream (with_sink s.context.sink on_stream_closed (set_sink none (close_handle s)))
  stream_callback unknown s = s
