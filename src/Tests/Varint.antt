-- ===== src/Tests/Varint.antt =====
-- Concrete varints and control messages, for src/codec/codec.cpp.
use moqtopus.Common.{◌≡◌, refl, arith, length, [], ◌∷◌, ◌++◌, some}
use moqtopus.Codec.Varint.{
  DecodeStatus, no_varint, write_length, write_tail, write_head, write_varint, read_varint,
}
use moqtopus.Codec.Varint.RoundTrip.{read_varint-write_varint}
use moqtopus.Codec.Varint.Prefix.{read_varint_truncated}
use moqtopus.Codec.Framing.{encode_control_message, next_message}
use moqtopus.Codec.Framing.Laws.{next_message-encode}

read_varint-write_varint_example :
    read_varint (write_varint 300 ++ (7 ∷ []))
    ≡ record { status = DecodeStatus.done; value = 300; bytes = length (write_varint 300) }
read_varint-write_varint_example = read_varint-write_varint 300 (7 ∷ []) (omega arith)

read_varint_truncated_example : read_varint (0x81 ∷ []) ≡ no_varint
unfolding write_varint write_length write_head write_tail
read_varint_truncated_example = read_varint_truncated 300 0x2c (0x81 ∷ []) [] (omega arith) refl

next_message-encode_example :
    next_message ((3 ∷ 0 ∷ 2 ∷ 5 ∷ 6 ∷ []) ++ (9 ∷ []))
    ≡ some (record { type = 3; payload = 5 ∷ 6 ∷ [] }, 9 ∷ [])
unfolding encode_control_message write_varint write_length write_head write_tail
next_message-encode_example =
    next_message-encode 3 (5 ∷ 6 ∷ []) (3 ∷ 0 ∷ 2 ∷ 5 ∷ 6 ∷ []) (9 ∷ []) (omega arith) refl
