-- ===== src/Codec/Framing/Laws.antt =====
-- A control stream is a sequence of frames: reading after writing, and reading a buffer that grows.
use moqtopus.Common.{
  ℕ, ◌+◌, ◌*◌, ◌/◌, ◌%◌, ◌^◌, ◌≤◌, bit_or, ◌≡◌, refl, sym, ap, ◌∙◌, arith, length, ltb, List, [],
  ◌∷◌, ◌++◌, take, drop, ok, Option, some, none, append_assoc, drop-add, Bool-cases, inl, inr,
  false,
}
use moqtopus.Common.Bits.{or_byte}
use moqtopus.Codec.Varint.{VarintResult, IsU64, IsByte, DecodeStatus, write_varint}
use moqtopus.Codec.Varint
use moqtopus.Codec.Cursor.{
  accept, read_varint, read_view, Takes, read_varint-write, read_view-append, read_varint-Takes,
  read_view-Takes, read_varint_lem, read_view_lem,
}
use moqtopus.Codec.Framing.{
  ControlMessage, after_type, encode_control_message, read_frame, read_control_message,
  next_message,
}

abbrev frame_of : ℕ → Option (List ℕ × List ℕ) → Option (ControlMessage × List ℕ)
frame_of type none = none
frame_of type (some (payload, r)) = some (record { type = type; payload = payload }, r)

-- The frame as three reads of a cursor.
parse_payload : ℕ → List ℕ → Option (ControlMessage × List ℕ)
parse_payload type (high ∷ low ∷ c) =
    frame_of type (read_view (bit_or (high * 2 ^ 8) low % 2 ^ 16) c)
parse_payload type _ = none

abbrev message_of : Option (ℕ × List ℕ) → Option (ControlMessage × List ℕ)
message_of none = none
message_of (some (type, r)) = parse_payload type r

parse_message : List ℕ → Option (ControlMessage × List ℕ)
parse_message c = message_of (read_varint c)

enough_frame :
    (type size n : ℕ) (c s : List ℕ)
    → drop size c ≡ s
    → ltb (length (drop 2 s)) n ≡ false
    → some (record { type = type; payload = take n (drop 2 s) }, drop (size + 2 + n) c)
      ≡ frame_of type (read_view n (drop 2 s))
enough_frame type size n c s e f =
    let rest : drop (size + 2 + n) c ≡ drop n (drop 2 s) =
      drop-add (size + 2) n c ∙ ap (drop n) (drop-add size 2 c ∙ ap (drop 2) e) in
    rw (read_view_lem, f, rest) refl

frame_at :
    (type size : ℕ) (c s : List ℕ)
    → drop size c ≡ s
    → let r = read_frame type size s in
      accept r.status (r.message, drop r.bytes c) ≡ parse_payload type s
unfolding read_frame parse_payload
frame_at type size c [] e = refl
frame_at type size c (h ∷ []) e = refl
frame_at type size c (h ∷ l ∷ s) e =
    let n : ℕ = bit_or (h * 2 ^ 8) l % 2 ^ 16 in
    elim (Bool-cases (ltb (length s) n)) [
      | inl short ↦ rw (short, read_view_lem, short) refl
      | inr enough ↦ rw enough (enough_frame type size n c (h ∷ l ∷ s) e enough)
    ]

-- `read_control_message` and the `erase` behind it are the reads of a type, a length and a view.
next_message-eq-parse : (c : List ℕ) → next_message c ≡ parse_message c
unfolding next_message parse_message read_control_message
next_message-eq-parse c = rw read_varint_lem (go (Varint.read_varint c).status refl)
  where
    v : VarintResult
    v = Varint.read_varint c

    go :
        (status : DecodeStatus)
        → v.status ≡ status
        → let r = after_type status (read_frame v.value v.bytes (drop v.bytes c)) in
          accept r.status (r.message, drop r.bytes c)
          ≡ message_of (accept status (v.value, drop v.bytes c))
    go DecodeStatus.done e = frame_at v.value v.bytes c (drop v.bytes c) refl
    go DecodeStatus.need_more_data e = refl
    go DecodeStatus.error e = refl

length_field : (n : ℕ) → n ≤ 65535 → bit_or ((n / 2 ^ 8 % 256) * 2 ^ 8) (n % 256) % 2 ^ 16 ≡ n
length_field n h = ground (arith, or_byte (n / 256 % 256) (n % 256))

-- A control message that encode_control_message wrote, with a 64-bit type, is read back with its
-- type and payload, and the bytes behind it are left.
pub next_message-encode :
    (type : ℕ) (payload bytes rest : List ℕ)
    → IsU64 type
    → encode_control_message type payload ≡ ok bytes
    → next_message (bytes ++ rest) ≡ some (record { type = type; payload = payload }, rest)
unfolding encode_control_message parse_message parse_payload
next_message-encode type payload bytes rest u e = elim (Bool-cases (ltb 65535 (length payload))) [
  | inl big ↦ absurd (ground arith)
  | inr small ↦
      let n : ℕ = length payload in
      let body : List ℕ = (n / 2 ^ 8 % 256) ∷ (n % 256) ∷ payload in
      let written : write_varint type ++ body ≡ bytes = ground arith in
      rw (next_message-eq-parse (bytes ++ rest), ← written, append_assoc, parse_message)
        (rw (read_varint-write type (body ++ rest) u, message_of, parse_payload)
          (rw (length_field n (ground arith), read_view-append payload rest) refl))
]

payload-Takes :
    (type : ℕ) (s : List ℕ) (m : ControlMessage) (r : List ℕ)
    → parse_payload type s ≡ some (m, r)
    → Takes (parse_payload type) s m r
unfolding parse_payload
payload-Takes type [] m r e = cc
payload-Takes type (h ∷ []) m r e = cc
payload-Takes type (h ∷ l ∷ s) m r e = go (read_view n s) refl
  where
    n : ℕ
    n = bit_or (h * 2 ^ 8) l % 2 ^ 16

    go :
        (o : Option (List ℕ × List ℕ))
        → read_view n s ≡ o
        → Takes (parse_payload type) (h ∷ l ∷ s) m r
    go none p =
        let bad : ◌≡◌ {A = Option (ControlMessage × List ℕ)} none (some (m, r)) = rw p at e in cc
    go (some (v, q)) p =
        let found : some (record { type = type; payload = v }, q) ≡ some (m, r) = rw p at e in
        let t = read_view-Takes n s v q p in
        let rest : q ≡ r = ground (arith, found) in
        record {
          used = h ∷ l ∷ t.used;
          split = ap (λ (x : List ℕ). h ∷ l ∷ x) (t.split ∙ ap (◌++◌ t.used) rest);
          again = λ more. rw (t.again more) (ground (arith, found));
        }

parse_message-Takes :
    (c : List ℕ) (m : ControlMessage) (r : List ℕ)
    → parse_message c ≡ some (m, r)
    → Takes parse_message c m r
unfolding parse_message
parse_message-Takes c m r e = go (read_varint c) refl
  where
    go : (o : Option (ℕ × List ℕ)) → read_varint c ≡ o → Takes parse_message c m r
    go none p =
        let bad : ◌≡◌ {A = Option (ControlMessage × List ℕ)} none (some (m, r)) = rw p at e in cc
    go (some (type, s)) p =
        let x = read_varint-Takes c type s p in
        let y = payload-Takes type s m r (rw p at e) in
        record {
          used = x.used ++ y.used;
          split = x.split ∙ ap (◌++◌ x.used) y.split ∙ sym (append_assoc x.used y.used r);
          again =
              λ more. rw (append_assoc x.used y.used more, x.again (y.used ++ more)) (y.again more);
        }

-- Reading a control message takes a prefix of the buffer, and the same message is read from that
-- prefix in front of any other bytes.
pub next_message-Takes :
    (c : List ℕ) (m : ControlMessage) (r : List ℕ)
    → next_message c ≡ some (m, r)
    → Takes next_message c m r
next_message-Takes c m r e =
    let t = parse_message-Takes c m r (sym (next_message-eq-parse c) ∙ e) in
    record {
      used = t.used;
      split = t.split;
      again = λ more. next_message-eq-parse (t.used ++ more) ∙ t.again more;
    }
