-- ===== src/Codec/Framing/Stream.antt =====
-- What a control stream is: the messages that a buffer holds, as src/codec/codec.cpp reads them one by one.
use moqtopus.Common.{
  ℕ, zero, suc, ◌<◌, ◌≡◌, refl, sym, ◌∙◌, arith, length, length-append, List, [], ◌∷◌, ◌++◌,
  append_assoc, none, some, inl, inr, Option-cases, ok,
}
use moqtopus.Types.{ByteBuffer}
use moqtopus.Codec.Varint.{IsU64, read_varint}
use moqtopus.Codec.Framing.{
  ControlMessage, encode_control_message, read_control_message, next_message,
}
use moqtopus.Codec.Framing.Laws.{next_message-encode, next_message-Takes}

-- The messages of a buffer, and the bytes behind them that are no whole message.
pub data Reads : ByteBuffer → List ControlMessage → ByteBuffer → Type 0 where
  stop : (c : ByteBuffer) → next_message c ≡ none → Reads c [] c
  more :
      (c : ByteBuffer) (m : ControlMessage) (r : ByteBuffer) (ms : List ControlMessage)
      (rest : ByteBuffer)
      → next_message c ≡ some (m, r)
      → Reads r ms rest
      → Reads c (m ∷ ms) rest

-- No bytes hold no message.
pub next_message_empty : next_message [] ≡ none
unfolding next_message read_control_message read_varint
next_message_empty = refl

-- A message takes a byte at least.
pub next_message_shrinks :
    (c : ByteBuffer) (m : ControlMessage) (r : ByteBuffer)
    → next_message c ≡ some (m, r)
    → length r < length c
next_message_shrinks c m r e =
    let t = next_message-Takes c m r e in some_used t.used t.split (t.again [])
  where
    some_used :
        (used : ByteBuffer)
        → c ≡ used ++ r
        → next_message (used ++ []) ≡ some (m, [])
        → length r < length c
    some_used [] split again = absurd (ground (arith, again, next_message_empty))
    some_used (x ∷ used) split again = rw (split, length-append used r) (omega arith)

-- What is left of a buffer holds no whole message.
pub Reads-left :
    (c : ByteBuffer) (ms : List ControlMessage) (rest : ByteBuffer)
    → Reads c ms rest
    → next_message rest ≡ none
Reads-left c [] rest (stop _ e) = e
Reads-left c (m ∷ ms) rest (more _ _ r _ _ e reads) = Reads-left r ms rest reads

-- Bytes that arrive later are read behind what was left.
pub Reads-append :
    (c d : ByteBuffer) (ms ns : List ControlMessage) (rest end : ByteBuffer)
    → Reads c ms rest
    → Reads (rest ++ d) ns end
    → Reads (c ++ d) (ms ++ ns) end
Reads-append c d [] ns rest end (stop _ e) later = later
Reads-append c d (m ∷ ms) ns rest end (more _ _ r _ _ e reads) later =
    let t = next_message-Takes c m r e in
    let moved : next_message (c ++ d) ≡ some (m, r ++ d) =
      rw (t.split, append_assoc t.used r d) (t.again (r ++ d)) in
    more (c ++ d) m (r ++ d) (ms ++ ns) end moved (Reads-append r d ms ns rest end reads later)

-- The bytes of messages.
pub data Encodes : List ControlMessage → ByteBuffer → Type 0 where
  no_more : Encodes [] []
  one_more :
      (m : ControlMessage) (ms : List ControlMessage) (bytes rest : ByteBuffer)
      → IsU64 m.type
      → encode_control_message m.type m.payload ≡ ok bytes
      → Encodes ms rest
      → Encodes (m ∷ ms) (bytes ++ rest)

pub Encodes-Reads :
    (ms : List ControlMessage) (bytes : ByteBuffer) → Encodes ms bytes → Reads bytes ms []
Encodes-Reads [] [] no_more = stop [] next_message_empty
Encodes-Reads [] (b ∷ bytes) e = elim e [ ]
Encodes-Reads (m ∷ ms) c (one_more _ _ bytes rest u e encodes) =
    more (bytes ++ rest) m rest ms [] (next_message-encode m.type m.payload bytes rest u e)
      (Encodes-Reads ms rest encodes)

-- A buffer holds the messages of one reading only.
pub Reads-unique :
    (c : ByteBuffer) (ms ns : List ControlMessage) (rest end : ByteBuffer)
    → Reads c ms rest
    → Reads c ns end
    → (ms ≡ ns) × (rest ≡ end)
Reads-unique c [] [] rest end (stop _ e) (stop _ e') = (refl, refl)
Reads-unique c [] (n ∷ ns) rest end (stop _ e) (more _ _ r _ _ e' reads) =
    absurd (ground (arith, e, e'))
Reads-unique c (m ∷ ms) [] rest end (more _ _ r _ _ e reads) (stop _ e') =
    absurd (ground (arith, e, e'))
Reads-unique c (m ∷ ms) (n ∷ ns) rest end (more _ _ r _ _ e reads) (more _ _ r' _ _ e' reads') =
    let both : some (m, r) ≡ some (n, r') = sym e ∙ e' in
    let same : m ≡ n = cc in
    let left : r ≡ r' = cc in
    let (later, ends) = Reads-unique r ms ns rest end reads (rw left reads') in
    (cc (same, later), ends)

-- Every buffer holds some messages, perhaps none.
pub reading :
    (fuel : ℕ) (c : ByteBuffer)
    → length c < fuel
    → (ms : List ControlMessage) × (rest : ByteBuffer) × Reads c ms rest
reading zero c enough = absurd (omega (arith, enough))
reading (suc fuel) c enough = elim (Option-cases (next_message c)) [
  | inl short ↦ ([], c, stop c short)
  | inr ((m, r), e) ↦
      let (ms, rest, reads) =
        reading fuel r (omega (arith, enough, next_message_shrinks c m r e)) in
      (m ∷ ms, rest, more c m r ms rest e reads)
]
