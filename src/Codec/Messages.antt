-- ===== src/Codec/Messages.antt =====
-- The writers of the control messages in src/codec/control.cpp, with the types of
-- include/moq/codec.h.
use moqtopus.Common.{ℕ, length, List, ◌++◌, Result, ◌>>=◌}
use moqtopus.Types.{ByteBuffer, TrackNamespace, TrackName, Parameter, SubscribeRequest}
use moqtopus.Codec.Varint.{write_varint}
use moqtopus.Codec.Framing.{encode_control_message}
use moqtopus.Codec.Namespace.{write_track_namespace}
use moqtopus.Codec.Parameters.{encode_parameters}
use moqtopus.Codec.Reader.{parameters}

abbrev pub message_request_update : ℕ
message_request_update = 0x02

abbrev pub message_subscribe : ℕ
message_subscribe = 0x03

abbrev pub message_subscribe_ok : ℕ
message_subscribe_ok = 0x04

abbrev pub message_request_error : ℕ
message_request_error = 0x05

abbrev pub message_publish_namespace : ℕ
message_publish_namespace = 0x06

abbrev pub message_request_ok : ℕ
message_request_ok = 0x07

abbrev pub message_publish_done : ℕ
message_publish_done = 0x0b

abbrev pub message_goaway : ℕ
message_goaway = 0x10

abbrev pub message_publish : ℕ
message_publish = 0x1d

abbrev pub message_setup : ℕ
message_setup = 0x2f00

pub record Subscribe : Type 0 where
  pub request_id : ℕ
  pub track_namespace : TrackNamespace
  pub track_name : TrackName
  pub parameters : List Parameter

pub record SubscribeOk : Type 0 where
  pub track_alias : ℕ
  pub parameters : List Parameter
  pub track_properties : ByteBuffer

pub record RequestUpdateMessage : Type 0 where
  pub request_id : ℕ
  pub parameters : List Parameter

-- A length and the bytes.
unfoldable pub write_string : ByteBuffer → ByteBuffer
write_string s = write_varint (length s) ++ s

unfoldable pub encode_subscribe : ℕ → SubscribeRequest → Result ByteBuffer
encode_subscribe request_id request = do
  namespace ← write_track_namespace request.track_namespace
  parameters ← encode_parameters request.parameters
  encode_control_message message_subscribe
      (write_varint request_id ++ (namespace ++ (write_string request.track_name ++ parameters)))

unfoldable pub encode_subscribe_ok : ℕ → List Parameter → ByteBuffer → Result ByteBuffer
encode_subscribe_ok track_alias parameters track_properties = do
  bytes ← encode_parameters parameters
  encode_control_message message_subscribe_ok
      (write_varint track_alias ++ (bytes ++ track_properties))

-- `update` is its parameters.
unfoldable pub encode_request_update : ℕ → List Parameter → Result ByteBuffer
encode_request_update request_id parameters = do
  bytes ← encode_parameters parameters
  encode_control_message message_request_update (write_varint request_id ++ bytes)

unfoldable pub encode_request_ok : List Parameter → Result ByteBuffer
encode_request_ok parameters = do
  bytes ← encode_parameters parameters
  encode_control_message message_request_ok bytes

unfoldable pub encode_request_error : ℕ → ByteBuffer → ℕ → Result ByteBuffer
encode_request_error code reason retry_interval =
    encode_control_message message_request_error
      (write_varint code ++ (write_varint retry_interval ++ write_string reason))

unfoldable pub encode_publish_done : ℕ → ℕ → ByteBuffer → Result ByteBuffer
encode_publish_done status_code stream_count reason =
    encode_control_message message_publish_done
      (write_varint status_code ++ (write_varint stream_count ++ write_string reason))

pub encode_publish_namespace : ℕ → TrackNamespace → Result ByteBuffer
encode_publish_namespace request_id name_space = do
  namespace ← write_track_namespace name_space
  encode_control_message message_publish_namespace
      (write_varint request_id ++ (namespace ++ write_varint 0))
