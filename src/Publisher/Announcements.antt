-- ===== src/Publisher/Announcements.antt =====
-- What a NamespaceAnnouncementFSM makes of its stream, in src/publisher_session.cpp.
use moqtopus.Common.{
  ℕ, zero, suc, ◌<◌, ◌≡◌, refl, arith, length, List, [], ◌∷◌, ◌++◌, map, map-append, append_assoc,
  append-nil, none,
}
use moqtopus.Types.{ByteBuffer}
use moqtopus.Codec.Framing.{ControlMessage, next_message}
use moqtopus.Codec.Framing.Stream.{
  Reads, stop, more, next_message_shrinks, Reads-left, Reads-append, Encodes, Encodes-Reads,
  Reads-unique, reading, next_message_empty,
}
use moqtopus.Receive.Subgroup.{concat}
use moqtopus.Publisher.Namespaces.{Note, note_of, announcement_loop, announcement_receive}

-- The loop ends of itself: with more fuel than bytes, it notes the messages of the buffer and leaves the
-- rest of it.
announcement_loop-Reads :
    (fuel : ℕ) (c : ByteBuffer) (ms : List ControlMessage) (rest : ByteBuffer)
    → length c < fuel
    → Reads c ms rest
    → announcement_loop fuel c ≡ (rest, map note_of ms)
unfolding announcement_loop
announcement_loop-Reads zero c ms rest enough reads = absurd (omega (arith, enough))
announcement_loop-Reads (suc fuel) c [] rest enough (stop _ e) = rw (announcement_loop, e) refl
announcement_loop-Reads (suc fuel) c (m ∷ ms) rest enough (more _ _ r _ _ e reads) =
    let shorter = next_message_shrinks c m r e in
    let loop = announcement_loop-Reads fuel r ms rest (omega (arith, enough, shorter)) reads in
    rw (announcement_loop, e, loop) refl

receive-Reads :
    (buffer : ByteBuffer) (chunks : List ByteBuffer) (ms : List ControlMessage) (rest : ByteBuffer)
    → Reads (buffer ++ concat chunks) ms rest
    → announcement_receive buffer chunks ≡ (rest, map note_of ms)
unfolding announcement_receive
receive-Reads buffer chunks ms rest reads =
    announcement_loop-Reads _ (buffer ++ concat chunks) ms rest (omega arith) reads

-- The receive events of a stream, one behind the other.
pub receive_all : ByteBuffer → List (List ByteBuffer) → ByteBuffer × List Note
receive_all buffer [] = (buffer, [])
receive_all buffer (chunks ∷ events) =
    let (left, notes) = announcement_receive buffer chunks in
    let (end, later) = receive_all left events in (end, notes ++ later)

-- The bytes of the events.
unfoldable pub all_bytes : List (List ByteBuffer) → ByteBuffer
all_bytes [] = []
all_bytes (chunks ∷ events) = concat chunks ++ all_bytes events

-- From a buffer with no whole message on.
receive_all-Reads :
    (events : List (List ByteBuffer)) (buffer : ByteBuffer) (ms : List ControlMessage)
    (rest : ByteBuffer)
    → next_message buffer ≡ none
    → Reads (buffer ++ all_bytes events) ms rest
    → receive_all buffer events ≡ (rest, map note_of ms)
unfolding receive_all all_bytes
receive_all-Reads [] buffer ms rest clean reads =
    let (none_read, whole) =
      Reads-unique buffer ms [] rest buffer (rw (append-nil buffer) at reads) (stop buffer clean) in
    rw (none_read, whole) refl
receive_all-Reads (chunks ∷ events) buffer ms rest clean reads =
    let now : ByteBuffer = buffer ++ concat chunks in
    let (ns, left, first) = reading (suc (length now)) now (omega arith) in
    let (later, end, second) =
      reading (suc (length (left ++ all_bytes events))) (left ++ all_bytes events) (omega arith) in
    let together = Reads-append now (all_bytes events) ns later left end first second in
    let (same, ends) =
      Reads-unique (now ++ all_bytes events) ms (ns ++ later) rest end
        (rw (← append_assoc buffer (concat chunks) (all_bytes events)) at reads) together in
    let behind = receive_all-Reads events left later end (Reads-left now ns left first) second in
    rw (receive_all, receive-Reads buffer chunks ns left first, behind, same, ends, map-append) refl

-- However the bytes of control messages are cut into receive events, and these into chunks, an
-- announcement takes them as the messages, each once and in their order, and keeps no byte of
-- them; for messages with 64-bit types.
pub announcement_receives :
    (events : List (List ByteBuffer)) (ms : List ControlMessage)
    → Encodes ms (all_bytes events)
    → receive_all [] events ≡ ([], map note_of ms)
announcement_receives events ms encodes =
    receive_all-Reads events [] ms [] next_message_empty
      (Encodes-Reads ms (all_bytes events) encodes)
