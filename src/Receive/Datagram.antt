-- ===== src/Receive/Datagram.antt =====
-- `DataPlane::deliver_datagram`, `on_datagram` and `buffer_unknown_datagram` of src/data_plane.cpp.
pub mod Flags
pub mod RoundTrip
pub mod Bounds
use moqtopus.Common.{
  ℕ, length, bit_and, ltb, leb, ◌==◌, ◌&&◌, ◌||◌, Bool, true, false, not, List, [], ◌∷◌, ◌++◌,
  Option, none, some, if◌then◌else◌, insert, is_empty,
}
use moqtopus.Types.{ByteBuffer, DeliveryKind, Object}
use moqtopus.Codec.Cursor
use moqtopus.Receive.{
  UnknownAliasPolicy, DataPlane, ReceiveRoute, State, Owner, Fault, datagram_type_malformed,
  padding_not_zero, datagram_type_invalid, datagram_header_truncated, datagram_object_id_truncated,
  datagram_priority_truncated, datagram_properties_invalid, datagram_status_invalid,
  datagram_alias_unknown, is_valid_object_status, route_at, put_route,
}
use moqtopus.Receive.Routes.{add_size, entries, find_route}
use moqtopus.Receive.Deliver.{deliver}
use moqtopus.Receive.Parse.{
  Parse, done, need_more_data, failed, Parser, ◌>>=◌, ◌>>◌, pure, check, varint, byte,
  read_properties,
}

-- A datagram is whole: what is cut short is an error as what is malformed is.
pub or_fail {ℓ} : {A : Type ℓ} → Fault → Parser A → Parser A
or_fail fault m c = elim (m c) [
  | done p ↦ done p
  | need_more_data ↦ failed fault
  | failed e ↦ failed fault
]

abbrev pub padding_datagram_type : ℕ
padding_datagram_type = 0x132b3e29

unfoldable pub all_zero : List ℕ → Bool
all_zero [] = true
all_zero (b ∷ bs) = b == 0 && all_zero bs

pub is_object_datagram_type : ℕ → Bool
is_object_datagram_type type = not (
    ltb 0x0f type && (ltb type 0x20 || ltb 0x2f type)
    || not (bit_and type 0x20 == 0) && not (bit_and type 0x02 == 0))

-- What comes before the route is looked up.
pub record DatagramIds : Type 0 where
  pub alias : ℕ
  pub group_id : ℕ
  pub object_id : ℕ

pub datagram_object_id : ℕ → Parser ℕ
datagram_object_id type =
    if bit_and type 0x04 == 0 then or_fail datagram_object_id_truncated varint else pure 0

pub datagram_ids : ℕ → Parser DatagramIds
datagram_ids type = do
  check (is_object_datagram_type type) datagram_type_invalid
  alias ← or_fail datagram_header_truncated varint
  group ← or_fail datagram_header_truncated varint
  object ← datagram_object_id type
  pure (record { alias = alias; group_id = group; object_id = object })

-- What comes behind.
pub record DatagramBody : Type 0 where
  pub publisher_priority : ℕ
  pub properties : ByteBuffer
  pub status : Option ℕ
  pub payload : ByteBuffer

pub datagram_priority : ℕ → Parser ℕ
datagram_priority type =
    if bit_and type 0x08 == 0 then or_fail datagram_priority_truncated byte else pure 128

pub datagram_properties : ℕ → Parser ByteBuffer
datagram_properties type =
    if not (bit_and type 0x01 == 0)
    then or_fail datagram_properties_invalid (read_properties datagram_properties_invalid true)
    else pure []

pub at_end : Parser Bool
at_end c = done (is_empty c, c)

pub datagram_status : ByteBuffer → Parser ℕ
datagram_status properties = do
  code ← or_fail datagram_status_invalid varint
  ended ← at_end
  check (is_valid_object_status code && ((code == 0x0 || is_empty properties) && ended))
      datagram_status_invalid
  pure code

pub everything : Parser ByteBuffer
everything c = done (c, [])

pub datagram_end : ℕ → ℕ → ByteBuffer → Parser DatagramBody
datagram_end type priority properties =
    if not (bit_and type 0x20 == 0)
    then (do
      code ← datagram_status properties
      pure (record {
        publisher_priority = priority;
        properties = properties;
        status = some code;
        payload = [];
      }))
    else (do
      payload ← everything
      pure (record {
        publisher_priority = priority;
        properties = properties;
        status = none;
        payload = payload;
      }))

pub datagram_body : ℕ → Parser DatagramBody
datagram_body type = do
  priority ← datagram_priority type
  properties ← datagram_properties type
  datagram_end type priority properties

pub datagram_object : ℕ → DatagramIds → DatagramBody → Object
datagram_object request_id ids body = record {
  request_id = request_id;
  track_alias = ids.alias;
  group_id = ids.group_id;
  subgroup_id = none;
  object_id = ids.object_id;
  publisher_priority = body.publisher_priority;
  status = body.status;
  properties = body.properties;
  payload = body.payload;
  delivery_kind = DeliveryKind.datagram;
  stream_id = 0;
}

-- The part of `buffer_unknown_datagram` behind the policy.
pub keep_datagram : ℕ → ByteBuffer → DataPlane → DataPlane
keep_datagram alias bytes p =
    let datagrams = entries alias p.unknown_datagrams in
    if ltb p.config.max_buffered_datagram_bytes (length bytes)
      || ltb p.config.max_buffered_datagram_bytes
          (add_size p.buffered_datagram_bytes (length bytes))
    then p
    else if leb p.config.max_buffered_datagrams_per_alias (length datagrams)
    then record p { unknown_datagrams = insert alias datagrams p.unknown_datagrams }
    else record p {
      buffered_datagram_bytes = add_size p.buffered_datagram_bytes (length bytes);
      unknown_datagrams = insert alias (datagrams ++ (bytes ∷ [])) p.unknown_datagrams;
    }

module _ {W : Type 0} (owner : Owner W) where
  open owner use {protocol_error}

  unfoldable pub buffer_unknown_datagram : ℕ → ByteBuffer → State W → State W
  buffer_unknown_datagram alias bytes s = elim s.plane.config.unknown_alias_policy [
    | UnknownAliasPolicy.drop ↦ s
    | UnknownAliasPolicy.error ↦ protocol_error (datagram_alias_unknown alias) s
    | UnknownAliasPolicy.buffer ↦ record s { plane = keep_datagram alias bytes s.plane }
  ]

  -- Type 0x02 names the last object of a group, before the object is delivered.
  unfoldable pub end_group_of : ℕ → ℕ → DatagramIds → ReceiveRoute → State W → State W
  end_group_of type ref ids route s =
      if not (bit_and type 0x02 == 0)
      then put_route ref
          (record route {
            final_object_in_group = insert ids.group_id ids.object_id route.final_object_in_group;
          })
          s
      else s

  unfoldable pub deliver_to : ℕ → ℕ → DatagramIds → List ℕ → State W → State W
  deliver_to type ref ids c s = elim (datagram_body type c) [
    | failed fault ↦ protocol_error fault s
    | need_more_data ↦ s
    | done (body, rest) ↦ elim (route_at ref s) [
      | none ↦ s
      | some route ↦
          deliver owner ref (datagram_object route.request_id ids body)
            (end_group_of type ref ids route s)
    ]
  ]

  -- Behind the type; `bytes` is the whole datagram.
  unfoldable pub deliver_object : ℕ → List ℕ → ByteBuffer → Bool → State W → State W
  deliver_object type c bytes allow_buffer s = elim (datagram_ids type c) [
    | failed fault ↦ protocol_error fault s
    | need_more_data ↦ s
    | done (ids, rest) ↦ elim (find_route ids.alias s.plane) [
      | none ↦ if allow_buffer then buffer_unknown_datagram ids.alias bytes s else s
      | some ref ↦ deliver_to type ref ids rest s
    ]
  ]

  unfoldable pub deliver_datagram : ByteBuffer → Bool → State W → State W
  deliver_datagram bytes allow_buffer s = elim (Cursor.read_varint bytes) [
    | none ↦ protocol_error datagram_type_malformed s
    | some (type, c) ↦
        if type == padding_datagram_type
        then (if all_zero c then s else protocol_error padding_not_zero s)
        else deliver_object type c bytes allow_buffer s
  ]

  unfoldable pub on_datagram : ByteBuffer → State W → State W
  on_datagram datagram s = deliver_datagram datagram true s
