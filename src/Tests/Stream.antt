-- ===== src/Tests/Stream.antt =====
-- A concrete stream, for src/stream_context.cpp.
use moqtopus.Common.{ℕ, suc, ◌≡◌, refl, All, Bool, true, false, List, [], ◌∷◌, some}
use moqtopus.Types.{ByteBuffer}
use moqtopus.Stream.{State, Api, StreamSink, StreamEvent, send, stream_callback}
use moqtopus.Stream.Closed.{Operation, run, Refused, shutdown_complete_ends}
use moqtopus.Stream.Pending.{SamePending, send_frees}

-- The world counts the calls of MsQuic, which takes what is not empty.
abbrev counted : State ℕ → State ℕ
counted s = record s { world = suc s.world }

abbrev accepts : ByteBuffer → Bool
accepts [] = false
accepts (b ∷ bytes) = true

abbrev quic : Api ℕ
quic = record {
  stream_send = λ handle token bytes fin s. (accepts bytes, counted s);
  stream_shutdown = λ handle how code s. (true, counted s);
  stream_close = λ handle s. counted s;
  transport_error = λ status s. s;
  remove_stream = λ s. s;
}

abbrev deaf : StreamSink ℕ
deaf = record {
  on_receive = λ sink chunks fin s. s;
  on_peer_send_aborted = λ sink code s. s;
  on_peer_receive_aborted = λ sink code s. s;
  on_stream_closed = λ sink s. s;
}

abbrev open_stream : State ℕ
open_stream = record {
  context = record { handle = some 5; unidirectional = false; id = 4; sink = some 1 };
  pending = 2 ∷ [];
  next_pending = 3;
  double_freed = false;
  world = 0;
}

abbrev late : List Operation
late =
    Operation.sends (7 ∷ []) true
    ∷ Operation.sets_sink (some 2)
    ∷ Operation.aborts_send 1
    ∷ Operation.finishes
    ∷ []

shutdown_complete_ends_example :
    let t = stream_callback quic deaf StreamEvent.shutdown_complete open_stream in
    let (answers, u) = run quic late t in
    All (Refused quic) answers × (u.world ≡ t.world) × (u.pending ≡ t.pending)
shutdown_complete_ends_example =
    shutdown_complete_ends quic deaf (λ sink s closed. closed) (λ s closed. closed) late open_stream

send_frees_example :
    let (sent, t) = send quic (7 ∷ []) true open_stream in
    (sent ≡ false → SamePending open_stream t)
    × (sent ≡ true
        → SamePending open_stream (stream_callback quic deaf (StreamEvent.send_complete 3) t))
send_frees_example =
    send_frees quic deaf
      (λ handle token bytes fin s. record { pending = refl; double_freed = refl }) (7 ∷ []) true
      open_stream
