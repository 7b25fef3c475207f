-- ===== src/Send/Streams.antt =====
-- `send_on_subgroup_stream` and `send_datagram_object` of src/send_data_plane.cpp.
pub mod RoundTrip
pub mod Delivery
use moqtopus.Common.{
  ℕ, ◌+◌, ◌-◌, ◌%◌, ◌^◌, leb, ◌==◌, ◌&&◌, ◌||◌, Bool, true, false, not, List, [], ◌++◌, Option,
  none, some, if◌then◌else◌, is_empty,
}
use moqtopus.Common.Keyed.{find_by, erase_by}
use moqtopus.Types.{ByteBuffer}
use moqtopus.Codec.Objects.{
  object_status_normal, object_status_end_of_group, is_some, encode_object_datagram,
  encode_subgroup_header, encode_subgroup_object,
}
use moqtopus.Send.{
  PublishedObject, same_subgroup, insert_stream, OpenSubgroupStream, SubscriptionSend, State,
  Outlet, subscription_at, change,
}

-- `object.status && *object.status != kObjectStatusNormal`
unfoldable pub is_final_status : Option ℕ → Bool
is_final_status none = false
is_final_status (some status) = not (status == object_status_normal)

-- The properties that are sent: a status other than Normal has none.
pub sent_properties : Option ℕ → ByteBuffer → ByteBuffer
sent_properties status properties = if is_final_status status then [] else properties

-- The distance of an Object ID from the last one of the stream.
pub object_delta : Option ℕ → ℕ → ℕ
object_delta none object_id = object_id
object_delta (some last) object_id = (object_id + 2 ^ 64 + 2 ^ 64 - last - 1) % 2 ^ 64

-- The Object ID does not follow the last one of the stream.
unfoldable pub out_of_order : Option ℕ → ℕ → Bool
out_of_order none object_id = false
out_of_order (some last) object_id = leb object_id last

-- An explicit EndOfGroup marker follows the object.
unfoldable pub marks_end_of_group : PublishedObject → Bool
marks_end_of_group object = object.end_of_group && not (is_final_status object.status)

pub closes_stream : PublishedObject → Bool
closes_stream object =
    (object.end_of_subgroup || (object.end_of_group || is_final_status object.status))
    || marks_end_of_group object

-- What is sent for an object behind the stream's header.
pub object_bytes : Option ℕ → PublishedObject → ByteBuffer
object_bytes last object =
    encode_subgroup_object (object_delta last object.object_id)
      (sent_properties object.status object.properties) object.status object.payload
    ++ (if marks_end_of_group object
        then encode_subgroup_object 0 [] (some object_status_end_of_group) []
        else [])

abbrev subgroup_key : PublishedObject → ℕ × ℕ
subgroup_key object = (object.group_id, object.subgroup_id)

abbrev stream_of : PublishedObject → SubscriptionSend → Option OpenSubgroupStream
stream_of object sub = find_by same_subgroup (subgroup_key object) sub.streams

abbrev with_stream : PublishedObject → OpenSubgroupStream → SubscriptionSend → SubscriptionSend
with_stream object open_stream sub = record sub {
  streams = insert_stream (subgroup_key object) open_stream sub.streams;
}

abbrev without_stream : PublishedObject → SubscriptionSend → SubscriptionSend
without_stream object sub = record sub {
  streams = erase_by same_subgroup (subgroup_key object) sub.streams;
}

module _ {W : Type 0} (outlet : Outlet W) where
  open outlet use {open_data_stream, send_datagram, send, abort_send}

  -- A stream that the object cannot be appended to is reset and forgotten.
  unfoldable pub reset_stale : ℕ → PublishedObject → State W → State W
  reset_stale id object s = elim (subscription_at id s) [
    | none ↦ s
    | some sub ↦ elim (stream_of object sub) [
      | none ↦ s
      | some open_stream ↦
          if out_of_order open_stream.last_object_id object.object_id
          then change id (without_stream object) (abort_send open_stream.stream 0x0 s)
          else s
    ]
  ]

  -- The object on a stream that is open, behind the bytes that stand before it.
  unfoldable pub append_object :
      ℕ → PublishedObject → OpenSubgroupStream → ByteBuffer → State W → State W
  append_object id object open_stream bytes s =
      let s1 =
        change id
          (with_stream object (record open_stream { last_object_id = some object.object_id })) s in
      let (sent, s2) =
        send open_stream.stream (bytes ++ object_bytes open_stream.last_object_id object)
          (closes_stream object) s1 in
      if closes_stream object then change id (without_stream object) s2 else s2

  -- The subgroup's header on a new stream, and the object behind it.
  unfoldable pub open_and_append : ℕ → PublishedObject → State W → State W
  open_and_append id object s =
      let (opened, s1) = open_data_stream s in
      elim opened [
        | none ↦ s1
        | some stream ↦ elim (subscription_at id s1) [
          | none ↦ s1
          | some sub ↦
              append_object id object (record { stream = stream; last_object_id = none })
                (encode_subgroup_header sub.track_alias object.group_id object.subgroup_id
                  object.publisher_priority)
                (change id (λ x. record x { stream_count = x.stream_count + 1 }) s1)
        ]
      ]

  -- `SendDataPlane::send_on_subgroup_stream`
  unfoldable pub send_on_subgroup_stream : ℕ → PublishedObject → State W → State W
  send_on_subgroup_stream id object s =
      let s1 : State W = reset_stale id object s in
      elim (subscription_at id s1) [
        | none ↦ s1
        | some sub ↦ elim (stream_of object sub) [
          | some open_stream ↦ append_object id object open_stream [] s1
          | none ↦ open_and_append id object s1
        ]
      ]

  -- The status of a datagram: an empty payload is a Normal object.
  unfoldable pub datagram_status : PublishedObject → Option ℕ
  datagram_status object =
      if not (is_some object.status) && is_empty object.payload
      then some object_status_normal
      else object.status

  -- `SendDataPlane::send_datagram_object`
  unfoldable pub send_datagram_object : SubscriptionSend → PublishedObject → State W → State W
  send_datagram_object sub object s =
      let status : Option ℕ = datagram_status object in
      let (sent, s1) =
        send_datagram
          (encode_object_datagram sub.track_alias object.group_id object.object_id
            object.publisher_priority (sent_properties status object.properties) status
            object.payload object.end_of_group)
          s in
      s1
