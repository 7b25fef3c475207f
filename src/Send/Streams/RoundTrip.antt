-- ===== src/Send/Streams/RoundTrip.antt =====
-- What src/send_data_plane.cpp puts on a subgroup stream is what the receiver of src/data_plane.cpp
-- takes from it.
use moqtopus.Common.{
  ℕ, ◌+◌, ◌-◌, ◌%◌, ◌^◌, ◌≤◌, ◌<◌, ◌≡◌, refl, arith, length, true, false, List, [], ◌++◌,
  append_assoc, Option, none, some, if◌then◌else◌, inl, inr, Bool-cases,
}
use moqtopus.Types.{ByteBuffer}
use moqtopus.Codec.Varint.{IsU64}
use moqtopus.Codec.Objects.{encode_subgroup_object, object_status_end_of_group}
use moqtopus.Receive.{is_valid_object_status}
use moqtopus.Receive.Parse.{done, parse_object_fields, next_object_id}
use moqtopus.Receive.Parse.RoundTrip.{
  can_be_sent, carried_status, carried_payload, object_fields, parse_object_fields-encode,
}
use moqtopus.Send.{PublishedObject}
use moqtopus.Send.Filter.{valid_publish_status}
use moqtopus.Send.Streams.{
  is_final_status, sent_properties, object_delta, out_of_order, marks_end_of_group, object_bytes,
}

-- The last Object ID of a stream, if there is one, fits 64 bits.
abbrev pub AllU64 : Option ℕ → Type 0
AllU64 none = Unit
AllU64 (some v) = IsU64 v

-- The receiver adds the delta that the sender subtracted: for an Object ID that follows the last one of
-- the stream, both of 64 bits, the next Object ID from the delta is that Object ID.
next_object_id-object_delta :
    (last : Option ℕ) (id : ℕ)
    → AllU64 last
    → IsU64 id
    → out_of_order last id ≡ false
    → next_object_id last (object_delta last id) ≡ some id
unfolding next_object_id object_delta out_of_order
next_object_id-object_delta none id ul ui order = refl
next_object_id-object_delta (some last) id ul ui order =
    let follows : last < id = ground (arith, order) in
    let delta : (id + 2 ^ 64 + 2 ^ 64 - last - 1) % 2 ^ 64 ≡ id - last - 1 = omega arith in
    let sum : (last + (id - last - 1) + 1) % 2 ^ 64 ≡ id = omega arith in
    rw (delta, sum) (ground arith)

object_delta-IsU64 : (last : Option ℕ) (id : ℕ) → IsU64 id → IsU64 (object_delta last id)
unfolding object_delta
object_delta-IsU64 none id ui = ui
object_delta-IsU64 (some last) id ui = omega arith

sent_properties-can_be_sent :
    (object : PublishedObject)
    → valid_publish_status object ≡ true
    → can_be_sent object.status (sent_properties object.status object.properties) ≡ true
unfolding valid_publish_status can_be_sent sent_properties is_final_status is_valid_object_status
sent_properties-can_be_sent object valid = go object.status refl
  where
    go :
        (o : Option ℕ)
        → object.status ≡ o
        → can_be_sent o (sent_properties o object.properties) ≡ true
    go none e = refl
    go (some status) e = let v = rw (e, valid_publish_status) at valid in ground (arith, v)

length-sent_properties :
    (status : Option ℕ) (properties : ByteBuffer)
    → length properties ≤ 65535
    → length (sent_properties status properties) ≤ 65535
unfolding sent_properties
length-sent_properties status properties short = elim (Bool-cases (is_final_status status)) [
  | inl final ↦ rw final (omega arith)
  | inr plain ↦ rw plain short
]

-- The bytes of the explicit EndOfGroup marker, if the object has one behind it.
unfoldable pub marker : PublishedObject → ByteBuffer
marker object =
    if marks_end_of_group object
    then encode_subgroup_object 0 [] (some object_status_end_of_group) []
    else []

-- The bytes that the sender puts on a subgroup stream for a published object are parsed by the
-- receiver into its properties (none if its status is not Normal), its status and payload as a
-- stream carries them, and a delta that leads from the last Object ID of the stream to the Object
-- ID of the object, and leave its EndOfGroup marker, if it has one, and what follows; for a valid
-- status, an Object ID behind the last one, 64-bit numbers and at most 65535 bytes of properties.
pub parse_object_fields-object_bytes :
    (stream : ℕ) (last : Option ℕ) (object : PublishedObject) (rest : List ℕ)
    → AllU64 last
    → IsU64 object.object_id
    → out_of_order last object.object_id ≡ false
    → valid_publish_status object ≡ true
    → length object.properties ≤ 65535
    → IsU64 (length object.payload)
    → (parse_object_fields stream true (object_bytes last object ++ rest)
        ≡ done (
          object_fields
              (object_delta last object.object_id)
              (sent_properties object.status object.properties)
              (carried_status object.status object.payload)
              (carried_payload object.status object.payload),
          marker object ++ rest,
        ))
      × (next_object_id last (object_delta last object.object_id) ≡ some object.object_id)
unfolding object_bytes marker
parse_object_fields-object_bytes stream last object rest ul ui order valid short up = (
  rw (append_assoc) (
      parse_object_fields-encode stream (object_delta last object.object_id) _ object.status
        object.payload _ (object_delta-IsU64 last object.object_id ui)
        (length-sent_properties object.status object.properties short) up
        (sent_properties-can_be_sent object valid)),
  next_object_id-object_delta last object.object_id ul ui order,
)

-- The EndOfGroup marker that follows an object on a subgroup stream is parsed as an empty object
-- of status EndOfGroup with the next Object ID, for an Object ID below 2^64 - 1.
parse_object_fields-marker :
    (stream : ℕ) (object : PublishedObject) (rest : List ℕ)
    → marks_end_of_group object ≡ true
    → object.object_id < 2 ^ 64 - 1
    → (parse_object_fields stream true (marker object ++ rest)
        ≡ done (object_fields 0 [] (some 0x3) [], rest))
      × (next_object_id (some object.object_id) 0 ≡ some (object.object_id + 1))
unfolding marker next_object_id can_be_sent is_valid_object_status carried_status carried_payload
parse_object_fields-marker stream object rest marks small = (
  rw marks (
      parse_object_fields-encode stream 0 [] (some object_status_end_of_group) [] rest (omega arith)
        (omega arith) (omega arith) refl),
  ground arith,
)
