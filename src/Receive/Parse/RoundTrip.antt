-- ===== src/Receive/Parse/RoundTrip.antt =====
-- What encode_subgroup_header and encode_subgroup_object of src/codec/codec.cpp write is what the
-- receiver of src/data_plane.cpp parses.
use moqtopus.Common.{
  bit_and, ℕ, zero, suc, ◌≤◌, ◌≡◌, refl, arith, length, ◌==◌, ◌&&◌, ◌||◌, Bool, true, false, List,
  [], ◌∷◌, ◌++◌, append_assoc, Option, none, some, if◌then◌else◌, is_empty,
}
use moqtopus.Types.{ByteBuffer}
use moqtopus.Codec.Varint.{IsU64, write_varint}
use moqtopus.Codec.Objects.{encode_subgroup_header, encode_subgroup_object, is_subgroup_stream_type}
use moqtopus.Receive.{is_valid_object_status}
use moqtopus.Receive.Parse.{
  done, Header, parse_header_fields, ObjectFields, parse_object_fields, read_subgroup_id,
  read_priority, object_properties, object_body, object_status, subgroup_mode,
}
use moqtopus.Receive.Parse.Steps.{
  step, pure_lem, check-true, varint-write, byte-cons, view-append, read_properties-write,
}

abbrev pub header_of : ℕ → ℕ → ℕ → Option ℕ → ℕ → Header
header_of type alias group subgroup priority = record {
  type = type;
  alias = alias;
  group_id = group;
  subgroup_id = subgroup;
  publisher_priority = priority;
}

read_priority-plain :
    (type b : ℕ) (rest : List ℕ)
    → bit_and type 0x20 ≡ 0
    → read_priority type (b ∷ rest) ≡ done (b, rest)
unfolding read_priority
read_priority-plain type b rest e = rw e (byte-cons b rest)

read_subgroup_id_zero :
    (type : ℕ) (c : List ℕ) → subgroup_mode type ≡ 0x00 → read_subgroup_id type c ≡ done (some 0, c)
unfolding read_subgroup_id
read_subgroup_id_zero type c e = rw e (pure_lem (some 0) c)

read_subgroup_id_explicit :
    (type id : ℕ) (c : List ℕ)
    → IsU64 id
    → subgroup_mode type ≡ 0x02
    → read_subgroup_id type (write_varint id ++ c) ≡ done (some id, c)
unfolding read_subgroup_id
read_subgroup_id_explicit type id c u e =
    rw e (step _ _ _ _ _ _ (varint-write id c u) (pure_lem (some id) c))

-- The fields of a header with a type that says where the Subgroup ID stands.
header_fields :
    (type alias group priority : ℕ) (c rest : List ℕ) (subgroup : Option ℕ)
    → IsU64 type
    → IsU64 alias
    → IsU64 group
    → is_subgroup_stream_type type ≡ true
    → bit_and type 0x20 ≡ 0
    → read_subgroup_id type c ≡ done (subgroup, priority ∷ rest)
    → parse_header_fields (write_varint type ++ (write_varint alias ++ (write_varint group ++ c)))
      ≡ done (header_of type alias group subgroup priority, rest)
unfolding parse_header_fields
header_fields type alias group priority c rest subgroup ut ua ug valid plain q =
    step _ _ _ _ _ _ (varint-write type _ ut) (
      step _ _ _ _ _ _ (check-true _ _ _ valid) (
        step _ _ _ _ _ _ (varint-write alias _ ua) (
          step _ _ _ _ _ _ (varint-write group _ ug) (
            step _ _ _ _ _ _ q
              (step _ _ _ _ _ _ (read_priority-plain type priority rest plain) (pure_lem _ _))))))

-- The type of a header that encode_subgroup_header writes.
pub written_type : ℕ → ℕ
written_type subgroup_id = if subgroup_id == 0 then 0x11 else 0x15

-- A receiver parses a header that encode_subgroup_header wrote into the alias, the group, the
-- Subgroup ID and the priority that it was written from, and leaves the bytes behind it; for
-- 64-bit numbers.
pub parse_header_fields-encode :
    (alias group subgroup_id priority : ℕ) (rest : List ℕ)
    → IsU64 alias
    → IsU64 group
    → IsU64 subgroup_id
    → parse_header_fields (encode_subgroup_header alias group subgroup_id priority ++ rest)
      ≡ done (header_of (written_type subgroup_id) alias group (some subgroup_id) priority, rest)
unfolding encode_subgroup_header written_type is_subgroup_stream_type
parse_header_fields-encode alias group zero priority rest ua ug us =
    rw (append_assoc, append_assoc, append_assoc)
      (header_fields 0x11 alias group priority (priority ∷ rest) rest (some 0) (omega arith) ua ug
        refl refl (read_subgroup_id_zero 0x11 (priority ∷ rest) refl))
parse_header_fields-encode alias group (suc n) priority rest ua ug us =
    let given : (suc n == 0) ≡ false = ground arith in
    rw (given, append_assoc, append_assoc, append_assoc, append_assoc)
      (header_fields 0x15 alias group priority (write_varint (suc n) ++ (priority ∷ rest)) rest
        (some (suc n)) (omega arith) ua ug refl refl
        (read_subgroup_id_explicit 0x15 (suc n) (priority ∷ rest) us refl))

-- What a subgroup stream carries of a status and a payload: a status goes without the payload, and an
-- empty payload is sent as the status Normal.
unfoldable pub carried_status : Option ℕ → ByteBuffer → Option ℕ
carried_status (some code) payload = some code
carried_status none [] = some 0
carried_status none (b ∷ bs) = none

unfoldable pub carried_payload : Option ℕ → ByteBuffer → ByteBuffer
carried_payload (some code) payload = []
carried_payload none payload = payload

-- The status is one that the receiver takes next to the properties.
unfoldable pub can_be_sent : Option ℕ → ByteBuffer → Bool
can_be_sent none properties = true
can_be_sent (some code) properties =
    is_valid_object_status code && (code == 0x0 || is_empty properties)

pub sent_status-IsU64 :
    (code : ℕ) (properties : ByteBuffer) → can_be_sent (some code) properties ≡ true → IsU64 code
unfolding can_be_sent is_valid_object_status
sent_status-IsU64 code properties e = ground arith

object_status-write :
    (stream code : ℕ) (properties : ByteBuffer) (rest : List ℕ)
    → IsU64 code
    → can_be_sent (some code) properties ≡ true
    → object_status stream properties (write_varint code ++ rest) ≡ done (code, rest)
unfolding object_status can_be_sent
object_status-write stream code properties rest u sent =
    step _ _ _ _ _ _ (varint-write code rest u)
      (step _ _ _ _ _ _ (check-true _ _ _ sent) (pure_lem code rest))

abbrev pub object_fields : ℕ → ByteBuffer → Option ℕ → ByteBuffer → ObjectFields
object_fields delta properties status payload = record {
  delta = delta;
  properties = properties;
  status = status;
  payload = payload;
}

body-status :
    (stream delta code : ℕ) (properties : ByteBuffer) (rest : List ℕ)
    → IsU64 code
    → can_be_sent (some code) properties ≡ true
    → object_body stream delta properties 0 (write_varint code ++ rest)
      ≡ done (object_fields delta properties (some code) [], rest)
unfolding object_body
body-status stream delta code properties rest u sent =
    step _ _ _ _ _ _ (object_status-write stream code properties rest u sent) (pure_lem _ _)

body-payload :
    (stream delta b : ℕ) (properties bs : ByteBuffer) (rest : List ℕ)
    → object_body stream delta properties (length (b ∷ bs)) ((b ∷ bs) ++ rest)
      ≡ done (object_fields delta properties none (b ∷ bs), rest)
unfolding object_body
body-payload stream delta b properties bs rest =
    let some_bytes : (length (b ∷ bs) == 0) ≡ false = ground arith in
    rw some_bytes (step _ _ _ _ _ _ (view-append (b ∷ bs) rest) (pure_lem _ _))

fields-step :
    (stream delta size : ℕ) (properties : ByteBuffer) (c rest : List ℕ) (f : ObjectFields)
    → IsU64 delta
    → length properties ≤ 65535
    → IsU64 size
    → object_body stream delta properties size c ≡ done (f, rest)
    → parse_object_fields stream true (
        write_varint delta
        ++ (write_varint (length properties) ++ (properties ++ (write_varint size ++ c))))
      ≡ done (f, rest)
unfolding parse_object_fields object_properties
fields-step stream delta size properties c rest f ud short us body =
    step _ _ _ _ _ _ (varint-write delta _ ud) (
      step _ _ _ _ _ _ (read_properties-write _ properties _ short)
        (step _ _ _ _ _ _ (varint-write size _ us) body))

-- A receiver parses an object that encode_subgroup_object wrote into the delta, the properties,
-- and the status and the payload as a stream carries them (a status without the payload, and
-- Normal for an empty payload), and leaves the bytes behind it; for 64-bit numbers, at most 65535
-- bytes of properties, and a status that is valid and is Normal unless the properties are empty.
pub parse_object_fields-encode :
    (stream delta : ℕ) (properties : ByteBuffer) (status : Option ℕ) (payload : ByteBuffer)
    (rest : List ℕ)
    → IsU64 delta
    → length properties ≤ 65535
    → IsU64 (length payload)
    → can_be_sent status properties ≡ true
    → parse_object_fields stream true
        (encode_subgroup_object delta properties status payload ++ rest)
      ≡ done (
        object_fields delta properties
            (carried_status status payload)
            (carried_payload status payload),
        rest,
      )
unfolding encode_subgroup_object carried_status carried_payload can_be_sent is_valid_object_status
parse_object_fields-encode stream delta properties none [] rest ud short up sent =
    rw (append_assoc, append_assoc, append_assoc, append_assoc)
      (fields-step stream delta 0 properties (write_varint 0 ++ rest) rest _ ud short (omega arith)
        (body-status stream delta 0 properties rest (omega arith) refl))
parse_object_fields-encode stream delta properties none (b ∷ bs) rest ud short up sent =
    rw (append_assoc, append_assoc, append_assoc, append_assoc)
      (fields-step stream delta (length (b ∷ bs)) properties ((b ∷ bs) ++ rest) rest _ ud short up
        (body-payload stream delta b properties bs rest))
parse_object_fields-encode stream delta properties (some code) payload rest ud short up sent =
    rw (append_assoc, append_assoc, append_assoc, append_assoc)
      (fields-step stream delta 0 properties (write_varint code ++ rest) rest _ ud short
        (omega arith)
        (body-status stream delta code properties rest (sent_status-IsU64 code properties sent)
          sent))
