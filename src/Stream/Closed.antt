-- ===== src/Stream/Closed.antt =====
-- A stream behind its end, in src/stream_context.cpp.
use moqtopus.Common.{
  All, ℕ, ◌≡◌, refl, Bool, false, List, [], ◌∷◌, Option, none, some, inl, inr, Option-cases,
}
use moqtopus.Types.{ByteBuffer}
use moqtopus.Stream.{
  State, Api, StreamSink, StreamEvent, set_sink, send, abort_receive, finish_send, abort_send,
  with_sink, close_handle, stream_callback,
}

-- What the program calls of a stream.
pub data Operation : Type 0 where
  sends : ByteBuffer → Bool → Operation
  finishes : Operation
  aborts_send : ℕ → Operation
  aborts_receive : ℕ → Operation
  sets_sink : Option ℕ → Operation

module _ {W : Type 0} (api : Api W) where
  -- The answers of the operations, one behind the other, and the state.
  unfoldable pub run : List Operation → State W → List Bool × State W
  run [] s = ([], s)
  run (sends bytes fin ∷ operations) s =
      let (sent, s1) = send api bytes fin s in
      let (answers, t) = run operations s1 in (sent ∷ answers, t)
  run (finishes ∷ operations) s =
      let (done, s1) = finish_send api s in
      let (answers, t) = run operations s1 in (done ∷ answers, t)
  run (aborts_send error_code ∷ operations) s = run operations (abort_send api error_code s)
  run (aborts_receive error_code ∷ operations) s = run operations (abort_receive api error_code s)
  run (sets_sink sink ∷ operations) s = run operations (set_sink sink s)

  abbrev pub IsClosed : State W → Type 0
  IsClosed s = s.context.handle ≡ none

  abbrev pub Refused : Bool → Type 0
  Refused answer = answer ≡ false

  -- Operations on a closed stream do nothing but set a sink.
  record Untouched (s t : State W) (answers : List Bool) : Type 0 where
    pub refused : All Refused answers
    pub closed : IsClosed t
    pub world : t.world ≡ s.world
    pub pending : t.pending ≡ s.pending

  send_closed :
      (bytes : ByteBuffer) (fin : Bool) (s : State W)
      → IsClosed s
      → send api bytes fin s ≡ (false, s)
  unfolding send
  send_closed bytes fin s closed = simp (send, closed)

  finish_closed : (s : State W) → IsClosed s → finish_send api s ≡ (false, s)
  unfolding finish_send
  finish_closed s closed = simp (finish_send, closed)

  abort_send_closed : (error_code : ℕ) (s : State W) → IsClosed s → abort_send api error_code s ≡ s
  unfolding abort_send
  abort_send_closed error_code s closed = simp (abort_send, closed)

  abort_receive_closed :
      (error_code : ℕ) (s : State W) → IsClosed s → abort_receive api error_code s ≡ s
  unfolding abort_receive
  abort_receive_closed error_code s closed = simp (abort_receive, closed)

  refused_first :
      (s t : State W) (answers : List Bool)
      → Untouched s t answers
      → Untouched s t (false ∷ answers)
  refused_first s t answers u = record {
    refused = (refl, u.refused);
    closed = u.closed;
    world = u.world;
    pending = u.pending;
  }

  closed_run :
      (operations : List Operation) (s : State W)
      → IsClosed s
      → Untouched s (run operations s).1 (run operations s).0
  unfolding run set_sink
  closed_run [] s closed = record { refused = tt; closed = closed; world = refl; pending = refl }
  closed_run (sends bytes fin ∷ operations) s closed =
      rw (run, send_closed bytes fin s closed)
        (refused_first s _ _ (closed_run operations s closed))
  closed_run (finishes ∷ operations) s closed =
      rw (run, finish_closed s closed) (refused_first s _ _ (closed_run operations s closed))
  closed_run (aborts_send error_code ∷ operations) s closed =
      rw (run, abort_send_closed error_code s closed) (closed_run operations s closed)
  closed_run (aborts_receive error_code ∷ operations) s closed =
      rw (run, abort_receive_closed error_code s closed) (closed_run operations s closed)
  closed_run (sets_sink sink ∷ operations) s closed =
      let u = closed_run operations (set_sink sink s) closed in
      record { refused = u.refused; closed = u.closed; world = u.world; pending = u.pending }

module _ {W : Type 0} (api : Api W) (sinks : StreamSink W)
    (told : (sink : ℕ) (s : State W)
      → IsClosed api s
      → IsClosed api (sinks.on_stream_closed sink s))
    (removed : (s : State W) → IsClosed api s → IsClosed api (api.remove_stream s)) where
  handle-IsClosed : (s : State W) → IsClosed api (close_handle api sinks s)
  unfolding close_handle
  handle-IsClosed s = elim (Option-cases s.context.handle) [
    | inl none_there ↦ rw (close_handle, none_there) none_there
    | inr (handle, there) ↦ rw (close_handle, there) refl
  ]

  sink_told :
      (sink : Option ℕ) (s : State W)
      → IsClosed api s
      → IsClosed api (with_sink api sinks sink sinks.on_stream_closed s)
  unfolding with_sink
  sink_told none s closed = closed
  sink_told (some sink) s closed = told sink s closed

  -- Behind the shutdown event of a stream, whatever the program does with the stream reaches
  -- MsQuic no more: each send and each finish is refused, and neither the world nor the allocated
  -- sends change; for a sink and an adapter that, told of the close of a stream, leave it closed.
  pub shutdown_complete_ends :
      (operations : List Operation) (s : State W)
      → let t = stream_callback api sinks StreamEvent.shutdown_complete s in
        let (answers, u) = run api operations t in
        All (Refused api) answers × (u.world ≡ t.world) × (u.pending ≡ t.pending)
  unfolding stream_callback set_sink
  shutdown_complete_ends operations s =
      let closed = removed _ (sink_told s.context.sink _ (handle-IsClosed s)) in
      let u =
        closed_run api operations (stream_callback api sinks StreamEvent.shutdown_complete s)
          closed in
      (u.refused, u.world, u.pending)
