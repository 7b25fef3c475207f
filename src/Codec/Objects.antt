-- ===== src/Codec/Objects.antt =====
-- The writers of the data plane and `is_subgroup_stream_type`, of src/codec/codec.cpp.
use moqtopus.Common.{
  ℕ, ◌*◌, ◌/◌, bit_and, bit_or, length, ltb, ◌==◌, Bool, true, false, not, ◌||◌, [], ◌∷◌, ◌++◌,
  Option, some, none, if◌then◌else◌, is_empty,
}
use moqtopus.Types.{ByteBuffer}
use moqtopus.Codec.Varint.{write_varint}

abbrev pub object_status_normal : ℕ
object_status_normal = 0x0

abbrev pub object_status_end_of_group : ℕ
object_status_end_of_group = 0x3

abbrev pub object_status_end_of_track : ℕ
object_status_end_of_track = 0x4

unfoldable pub is_subgroup_stream_type : ℕ → Bool
is_subgroup_stream_type type =
    if bit_and type 0x10 == 0 || ltb 0x7f type then false else not (bit_and type 0x06 / 2 == 0x03)

-- The type of an object datagram, flag by flag.
unfoldable pub datagram_type : ByteBuffer → Option ℕ → Bool → ℕ → ℕ
datagram_type properties status end_of_group object_id =
    let with_properties : ℕ = if is_empty properties then 0 else bit_or 0 0x01 in
    let with_status : ℕ = elim status [
      | some code ↦ bit_or with_properties 0x20
      | none ↦ if end_of_group then bit_or with_properties 0x02 else with_properties
    ] in
    if object_id == 0 then bit_or with_status 0x04 else with_status

-- The Object ID, absent when it is 0.
unfoldable pub write_object_id : ℕ → ByteBuffer
write_object_id object_id = if object_id == 0 then [] else write_varint object_id

-- A length and the properties, absent when there are none.
unfoldable pub write_properties : ByteBuffer → ByteBuffer
write_properties properties =
    if is_empty properties then [] else write_varint (length properties) ++ properties

unfoldable pub write_status_or : Option ℕ → ByteBuffer → ByteBuffer
write_status_or (some code) payload = write_varint code
write_status_or none payload = payload

unfoldable pub encode_object_datagram :
    ℕ → ℕ → ℕ → ℕ → ByteBuffer → Option ℕ → ByteBuffer → Bool → ByteBuffer
encode_object_datagram alias group object_id priority properties status payload end_of_group =
    write_varint (datagram_type properties status end_of_group object_id)
    ++ (write_varint alias
        ++ (write_varint group
            ++ (write_object_id object_id
                ++ (priority ∷ (write_properties properties ++ write_status_or status payload)))))

unfoldable pub encode_subgroup_header : ℕ → ℕ → ℕ → ℕ → ByteBuffer
encode_subgroup_header alias group subgroup_id priority =
    let mode = if subgroup_id == 0 then 0x0 else 0x2 in
    let type = bit_or (bit_or 0x10 0x01) (mode * 2) in
    write_varint type
    ++ (write_varint alias
        ++ (write_varint group
            ++ ((if subgroup_id == 0 then [] else write_varint subgroup_id) ++ (priority ∷ []))))

-- `status.value_or(kObjectStatusNormal)`
abbrev pub value_or : Option ℕ → ℕ → ℕ
value_or none d = d
value_or (some v) d = v

abbrev pub is_some {ℓ} : {A : Type ℓ} → Option A → Bool
is_some none = false
is_some (some a) = true

unfoldable pub encode_subgroup_object : ℕ → ByteBuffer → Option ℕ → ByteBuffer → ByteBuffer
encode_subgroup_object delta properties status payload =
    write_varint delta
    ++ (write_varint (length properties)
        ++ (properties
            ++ (if is_some status || is_empty payload
                then write_varint 0 ++ write_varint (value_or status object_status_normal)
                else write_varint (length payload) ++ payload)))
