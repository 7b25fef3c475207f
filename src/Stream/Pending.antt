-- ===== src/Stream/Pending.antt =====
-- The PendingSend objects of src/stream_context.cpp, which MsQuic holds until a send is complete.
use moqtopus.Common.{
  ℕ, ◌≡◌, refl, Bool, true, false, ◌∷◌, some, inl, inr, Bool-cases, Option-cases, ==_self,
}
use moqtopus.Types.{ByteBuffer}
use moqtopus.Stream.{
  State, Api, StreamSink, StreamEvent, remove_token, allocate, free, send, stream_callback,
}

module _ {W : Type 0} where
  -- The allocated objects are those of `s`, and nothing more was freed.
  pub record SamePending (s t : State W) : Type 0 where
    pub pending : t.pending ≡ s.pending
    pub double_freed : t.double_freed ≡ s.double_freed

  -- Freeing the object that was allocated last.
  free_last :
      (token : ℕ) (s t : State W)
      → t.pending ≡ token ∷ s.pending
      → t.double_freed ≡ s.double_freed
      → SamePending s (free token t)
  unfolding free remove_token
  free_last token s t held alike =
      let found : remove_token token t.pending ≡ some s.pending =
        rw (held, remove_token, ==_self token) refl in
      record { pending = simp (free, found); double_freed = simp (free, found, alike) }

module _ {W : Type 0} (api : Api W) (sinks : StreamSink W)
    (left_alone : (handle token : ℕ) (bytes : ByteBuffer) (fin : Bool) (s : State W)
      → SamePending s (api.stream_send handle token bytes fin s).1) where
  -- A send that fails leaves no PendingSend behind, and one that succeeds leaves one, which the
  -- event of its completion frees: either way the allocated objects are those of before, and none
  -- is freed twice; for a StreamSend that leaves these objects alone.
  pub send_frees :
      (bytes : ByteBuffer) (fin : Bool) (s : State W)
      → let (sent, t) = send api bytes fin s in
        (sent ≡ false → SamePending s t)
        × (sent ≡ true
            → SamePending s
                (stream_callback api sinks (StreamEvent.send_complete s.next_pending) t))
  unfolding send allocate stream_callback
  send_frees bytes fin s = elim (Option-cases s.context.handle) [
    | inl closed ↦
        simp (send, closed)
          ((λ refused. record { pending = refl; double_freed = refl }), (λ sent. absurd (cc)))
    | inr (handle, open_still) ↦
        let token : ℕ = s.next_pending in
        let given : State W = (allocate s).1 in
        let x = api.stream_send handle token bytes fin given in
        let kept = left_alone handle token bytes fin given in
        let freed : SamePending s (free token x.1) =
          free_last token s x.1 kept.pending kept.double_freed in
        elim (Bool-cases x.0) [
          | inl accepted ↦
              simp (send, open_still, allocate, accepted) ((λ e. absurd (cc)), (λ e. freed))
          | inr failed ↦
              simp (send, open_still, allocate, failed) ((λ e. freed), (λ e. absurd (cc)))
        ]
  ]
