-- ===== src/Session/Gate.antt =====
-- `PeerStreamGate` of src/session.cpp, which finds out what a stream of the peer is for.
pub mod Laws
use moqtopus.Common.{
  ℕ, ◌==◌, ◌&&◌, ◌||◌, Bool, true, false, not, List, [], ◌∷◌, ◌++◌, drop, Option, none, some,
  if◌then◌else◌, Result, ok, err,
}
use moqtopus.Types.{ByteBuffer}
use moqtopus.Codec.Varint.{DecodeStatus, VarintResult, read_varint}
use moqtopus.Codec.Framing.{ControlMessage, ControlMessageResult, read_control_message}
use moqtopus.Codec.Messages.{message_subscribe, message_publish_namespace}
use moqtopus.Codec.Objects.{is_subgroup_stream_type}
use moqtopus.Codec.Decoders.Setup.{decode_setup}
use moqtopus.Receive.Datagram.{all_zero}
use moqtopus.Receive.Subgroup.{concat}

pub data Mode : Type 0 where
  classify done padding : Mode

pub record Gate : Type 0 where
  pub mode : Mode
  pub bytes : ByteBuffer

-- What the gate tells the session, if anything.
pub data Verdict : Type 0 where
  nothing : Verdict
  padding_not_zero ended_before_type ended_before_message malformed_setup : Verdict
  unknown_stream_type : ℕ → Verdict
  data_stream : ℕ → ByteBuffer → Bool → Verdict
  peer_setup : Verdict
  peer_request : ControlMessage → ByteBuffer → Bool → Verdict

abbrev pub setup_stream_type : ℕ
setup_stream_type = 0x2f00

abbrev pub fetch_stream_type : ℕ
fetch_stream_type = 0x05

abbrev pub padding_stream_type : ℕ
padding_stream_type = 0x132b3e28

-- `Session::known_peer_request_type`
pub known_peer_request_type : ℕ → Bool
known_peer_request_type type =
    type == message_subscribe
    || (type == 0x1d
        || (type == message_publish_namespace
            || (type == 0x0d || (type == 0x16 || (type == 0x50 || type == 0x51)))))

-- SETUP on the stream of its type.
pub first_setup : ByteBuffer → ByteBuffer → Gate × Verdict
first_setup payload bytes = elim (decode_setup payload) [
  | ok u ↦ (record { mode = Mode.done; bytes = [] }, peer_setup)
  | err e ↦ (record { mode = Mode.done; bytes = bytes }, malformed_setup)
]

-- The first message of the stream.
pub first_message : Bool → Bool → ByteBuffer → Gate × Verdict
first_message unidirectional fin bytes =
    let frame = read_control_message bytes in
    elim frame.status [
      | DecodeStatus.done ↦ if unidirectional then first_setup frame.message.payload bytes else (
        record { mode = Mode.done; bytes = [] },
        peer_request frame.message (drop frame.bytes bytes) fin,
      )
      | _ ↦ (
        record { mode = Mode.classify; bytes = bytes },
        if fin then ended_before_message else nothing,
      )
    ]

-- The type of a unidirectional stream, which stands in `size` bytes.
pub by_type : ℕ → ℕ → Bool → ByteBuffer → Gate × Verdict
by_type type size fin bytes =
    if type == padding_stream_type
    then (if all_zero (drop size bytes)
        then (record { mode = Mode.padding; bytes = [] }, nothing)
        else (record { mode = Mode.padding; bytes = bytes }, padding_not_zero))
    else if type == setup_stream_type
    then first_message true fin bytes
    else if type == fetch_stream_type || is_subgroup_stream_type type
    then (record { mode = Mode.done; bytes = [] }, data_stream type bytes fin)
    else (record { mode = Mode.done; bytes = bytes }, unknown_stream_type type)

unfoldable pub classify_bytes : Bool → Bool → ByteBuffer → Gate × Verdict
classify_bytes false fin bytes = first_message false fin bytes
classify_bytes true fin bytes =
    let type = read_varint bytes in
    elim type.status [
      | DecodeStatus.done ↦ by_type type.value type.bytes fin bytes
      | _ ↦ (
        record { mode = Mode.classify; bytes = bytes },
        if fin then ended_before_type else nothing,
      )
    ]

-- `PeerStreamGate::on_receive`, on a stream that is still there.
unfoldable pub on_receive : Bool → Gate → List ByteBuffer → Bool → Gate × Verdict
on_receive unidirectional gate chunks fin = elim gate.mode [
  | Mode.done ↦ (gate, nothing)
  | Mode.padding ↦ (gate, if all_zero (concat chunks) then nothing else padding_not_zero)
  | Mode.classify ↦ classify_bytes unidirectional fin (gate.bytes ++ concat chunks)
]
