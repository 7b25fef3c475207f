-- ===== src/Codec/Decoders.antt =====
-- The message decoders of src/codec/control.cpp.
pub mod RoundTrip
pub mod Setup
pub mod Options
use moqtopus.Common.{ℕ, ◌==◌, if◌then◌else◌, List, Result}
use moqtopus.Types.{ByteBuffer, RequestOk, RequestError, PublishDone}
use moqtopus.Codec.Reader.{
  Reader, ◌>>=◌, ◌>>◌, pure, varint, string, remaining_view, track_namespace, parameters, discard,
  decode,
}
use moqtopus.Codec.Messages.{Subscribe, SubscribeOk, RequestUpdateMessage}

pub decode_subscribe : ByteBuffer → Result Subscribe
decode_subscribe = decode do
  id ← varint
  namespace ← track_namespace
  name ← string 4096
  params ← parameters
  pure (record {
    request_id = id;
    track_namespace = namespace;
    track_name = name;
    parameters = params;
  })

pub decode_subscribe_ok : ByteBuffer → Result SubscribeOk
decode_subscribe_ok = decode do
  alias ← varint
  params ← parameters
  properties ← remaining_view
  pure (record { track_alias = alias; parameters = params; track_properties = properties })

pub decode_request_update : ByteBuffer → Result RequestUpdateMessage
decode_request_update =
    decode
      do id ← varint; params ← parameters; pure (record { request_id = id; parameters = params })

pub decode_request_ok : ByteBuffer → Result RequestOk
decode_request_ok = decode do
  params ← parameters
  properties ← remaining_view
  pure (record { parameters = params; track_properties = properties })

-- `RequestErrorCode::Redirect`
abbrev pub code_redirect : ℕ
code_redirect = 0x34

-- The fields of a redirect are passed over.
pub decode_request_error : ByteBuffer → Result RequestError
decode_request_error = decode do
  code ← varint
  retry ← varint
  reason ← string 1024
  if code == code_redirect then discard remaining_view else pure tt
  pure (record { code = code; retry_interval = retry; reason = reason })

pub decode_publish_done : ByteBuffer → Result PublishDone
decode_publish_done = decode do
  status ← varint
  count ← varint
  reason ← string 1024
  pure (record { status_code = status; stream_count = count; reason = reason })
