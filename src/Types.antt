-- ===== src/Types.antt =====
-- The data of include/moq/types.h and include/moq/errors.h. A `std::string` is the list of its bytes,
-- as a `ByteBuffer` is; a view is the list of the bytes that it shows; the unsigned integers are
-- numbers, and the operations that can wrap say where they do.
use moqtopus.Common.{ℕ, Bool, true, false, List, [], ◌∷◌, Option, ◌==◌, ◌&&◌}

abbrev pub ByteBuffer : Type 0
ByteBuffer = List ℕ

abbrev pub TrackName : Type 0
TrackName = List ℕ

abbrev pub TrackNamespace : Type 0
TrackNamespace = List (List ℕ)

pub record Location : Type 0 where
  pub group : ℕ
  pub object : ℕ

pub record Parameter : Type 0 where
  pub type : ℕ
  pub encoded_value : ByteBuffer

-- How a parameter's value is laid out (src/codec/codec_internal.h).
pub data ParameterEncoding : Type 0 where
  uint8 varint location length_prefixed track_namespace : ParameterEncoding

pub record SubscribeRequest : Type 0 where
  pub track_namespace : TrackNamespace
  pub track_name : TrackName
  pub parameters : List Parameter

pub record RequestOk : Type 0 where
  pub parameters : List Parameter
  pub track_properties : ByteBuffer

-- A code stays the number that the wire carries, as `static_cast` leaves it.
pub record RequestError : Type 0 where
  pub code : ℕ
  pub retry_interval : ℕ
  pub reason : ByteBuffer

pub record PublishDone : Type 0 where
  pub status_code : ℕ
  pub stream_count : ℕ
  pub reason : ByteBuffer

pub data DeliveryKind : Type 0 where
  subgroup_stream datagram fetch_stream : DeliveryKind

pub record Object : Type 0 where
  pub request_id : ℕ
  pub track_alias : ℕ
  pub group_id : ℕ
  pub subgroup_id : Option ℕ
  pub object_id : ℕ
  pub publisher_priority : ℕ
  pub status : Option ℕ
  pub properties : ByteBuffer
  pub payload : ByteBuffer
  pub delivery_kind : DeliveryKind
  pub stream_id : ℕ

-- Equality of byte strings and of lists of them.
unfoldable pub bytes_eq : List ℕ → List ℕ → Bool
bytes_eq [] [] = true
bytes_eq (x ∷ xs) (y ∷ ys) = x == y && bytes_eq xs ys
bytes_eq _ _ = false

unfoldable pub namespace_eq : TrackNamespace → TrackNamespace → Bool
namespace_eq [] [] = true
namespace_eq (x ∷ xs) (y ∷ ys) = bytes_eq x y && namespace_eq xs ys
namespace_eq _ _ = false

-- The codes of include/moq/errors.h that the sessions use: SessionCloseErrorCode,
abbrev pub internal_error : ℕ
internal_error = 0x1

abbrev pub protocol_violation_code : ℕ
protocol_violation_code = 0x3

abbrev pub invalid_request_id : ℕ
invalid_request_id = 0x4

abbrev pub duplicate_track_alias_code : ℕ
duplicate_track_alias_code = 0x5

-- RequestErrorCode,
abbrev pub not_supported : ℕ
not_supported = 0x3

abbrev pub excessive_load : ℕ
excessive_load = 0x9

abbrev pub does_not_exist : ℕ
does_not_exist = 0x10

abbrev pub uninterested : ℕ
uninterested = 0x20

-- PublishDoneCode,
abbrev pub track_ended : ℕ
track_ended = 0x2

abbrev pub subscription_ended : ℕ
subscription_ended = 0x3

abbrev pub update_failed_code : ℕ
update_failed_code = 0x8

-- and StreamResetCode.
abbrev pub cancelled : ℕ
cancelled = 0x1

abbrev pub session_closed : ℕ
session_closed = 0x3

abbrev pub malformed_track : ℕ
malformed_track = 0x12
