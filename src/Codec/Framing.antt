-- ===== src/Codec/Framing.antt =====
-- `encode_control_message` and `read_control_message` of src/codec/codec.cpp. The buffer of
-- `read_control_message` starts at its `offset`.
pub mod Laws
pub mod Stream
use moqtopus.Common.{
  ℕ, ◌+◌, ◌*◌, ◌/◌, ◌%◌, ◌^◌, bit_or, length, ltb, List, [], ◌∷◌, ◌++◌, take, drop, if◌then◌else◌,
  Result, ok, err, length_error, Option,
}
use moqtopus.Types.{ByteBuffer}
use moqtopus.Codec.Cursor.{accept}
use moqtopus.Codec.Varint.{DecodeStatus, write_varint, read_varint}

pub record ControlMessage : Type 0 where
  pub type : ℕ
  pub payload : ByteBuffer

pub record ControlMessageResult : Type 0 where
  pub status : DecodeStatus
  pub message : ControlMessage
  pub bytes : ℕ

-- `return {};`
abbrev no_message : ControlMessageResult
no_message = record {
  status = DecodeStatus.need_more_data;
  message = record { type = 0; payload = [] };
  bytes = 0;
}

unfoldable pub encode_control_message : ℕ → ByteBuffer → Result ByteBuffer
encode_control_message type payload =
    if ltb 65535 (length payload)
    then err (length_error "MOQT control message payload exceeds 65535 bytes")
    else ok
        (write_varint type ++ ((length payload / 2 ^ 8 % 256) ∷ (length payload % 256) ∷ payload))

-- Behind the message type: two bytes of length, and the payload.
pub read_frame : ℕ → ℕ → List ℕ → ControlMessageResult
read_frame type size (high ∷ low ∷ rest) =
    let count = bit_or (high * 2 ^ 8) low % 2 ^ 16 in
    if ltb (length rest) count then no_message else record {
      status = DecodeStatus.done;
      message = record { type = type; payload = take count rest };
      bytes = size + 2 + count;
    }
read_frame type size _ = no_message

-- `if (type.status != DecodeStatus::Done) return {};`
abbrev pub after_type : DecodeStatus → ControlMessageResult → ControlMessageResult
after_type DecodeStatus.done r = r
after_type DecodeStatus.need_more_data r = no_message
after_type DecodeStatus.error r = no_message

pub read_control_message : List ℕ → ControlMessageResult
read_control_message c =
    let type = read_varint c in
    after_type type.status (read_frame type.value type.bytes (drop type.bytes c))

-- The message at the front of a receive buffer and the buffer without it: the read and the `erase`
-- that every sink of a control stream makes.
pub next_message : List ℕ → Option (ControlMessage × List ℕ)
next_message c = let r = read_control_message c in accept r.status (r.message, drop r.bytes c)
