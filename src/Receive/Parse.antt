-- ===== src/Receive/Parse.antt =====
-- The parsers of src/data_plane.cpp: they may run out of bytes, which is no error on a stream that is
-- still open.
pub mod Steps
pub mod RoundTrip
pub mod Streaming
use moqtopus.Common.{
  ℕ, suc, ◌+◌, ◌-◌, ◌*◌, ◌/◌, ◌%◌, ◌^◌, bit_and, length, ltb, leb, ◌==◌, Bool, true, false, not,
  ◌&&◌, ◌||◌, List, [], ◌∷◌, Option, none, some, if◌then◌else◌, is_empty,
}
use moqtopus.Types.{ByteBuffer}
use moqtopus.Codec.Cursor
use moqtopus.Codec.Objects.{is_subgroup_stream_type}
use moqtopus.Receive.{
  Fault, stream_type_invalid, object_properties_invalid, object_status_invalid,
  is_valid_object_status,
}

pub data Parse {ℓ} (A : Type ℓ) : Type ℓ where
  done : A → Parse A
  need_more_data : Parse A
  failed : Fault → Parse A

abbrev pub Parser {ℓ} : Type ℓ → Type ℓ
Parser A = List ℕ → Parse (A × List ℕ)

infixl 5 ◌>>=◌ ◌>>◌
unfoldable pub ◌>>=◌ {ℓ κ} : {A : Type ℓ} {B : Type κ} → Parser A → (A → Parser B) → Parser B
◌>>=◌ m f c = elim (m c) [
  | done (a, r) ↦ f a r
  | need_more_data ↦ need_more_data
  | failed e ↦ failed e
]

abbrev pub ◌>>◌ {ℓ} : {B : Type ℓ} → Parser (Unit {0}) → Parser B → Parser B
m >> k = m >>= λ _. k

unfoldable pub pure {ℓ} : {A : Type ℓ} → A → Parser A
pure a c = done (a, c)

-- A read that fails for want of bytes.
unfoldable pub want {ℓ} : {A : Type ℓ} → (List ℕ → Option (A × List ℕ)) → Parser A
want f c = elim (f c) [ some p ↦ done p | none ↦ need_more_data ]

-- `if (!valid) return fail(fault);`
pub check : Bool → Fault → Parser (Unit {0})
check true fault c = done (tt, c)
check false fault c = failed fault

unfoldable pub varint : Parser ℕ
varint = want Cursor.read_varint

unfoldable pub byte : Parser ℕ
byte = want Cursor.read_byte

unfoldable pub view : ℕ → Parser ByteBuffer
view size = want (Cursor.read_view size)

-- `read_properties`, with the fault that its caller reports on `Parse::Error`.
pub read_properties : Fault → Bool → Parser ByteBuffer
read_properties fault require_non_empty = do
  size ← varint
  check (not (require_non_empty && size == 0 || ltb 65535 size)) fault
  view size

pub record Header : Type 0 where
  pub type : ℕ
  pub alias : ℕ
  pub group_id : ℕ
  pub subgroup_id : Option ℕ
  pub publisher_priority : ℕ

abbrev pub subgroup_mode : ℕ → ℕ
subgroup_mode type = bit_and type 0x06 / 2

pub read_subgroup_id : ℕ → Parser (Option ℕ)
read_subgroup_id type =
    if subgroup_mode type == 0x02
    then (do id ← varint; pure (some id))
    else if subgroup_mode type == 0x00
    then pure (some 0)
    else pure none

pub read_priority : ℕ → Parser ℕ
read_priority type = if not (bit_and type 0x20 == 0) then pure 128 else byte

-- The bytes of `SubgroupReceiver::parse_header`. A member that it writes before it runs out of bytes is
-- written again when more have come.
pub parse_header_fields : Parser Header
parse_header_fields = do
  type ← varint
  check (is_subgroup_stream_type type) stream_type_invalid
  alias ← varint
  group ← varint
  subgroup ← read_subgroup_id type
  priority ← read_priority type
  pure (record {
    type = type;
    alias = alias;
    group_id = group;
    subgroup_id = subgroup;
    publisher_priority = priority;
  })

pub record ObjectFields : Type 0 where
  pub delta : ℕ
  pub properties : ByteBuffer
  pub status : Option ℕ
  pub payload : ByteBuffer

pub object_properties : Bool → Parser ByteBuffer
object_properties per_object =
    if per_object then read_properties object_properties_invalid false else pure []

-- A status in place of an empty payload.
pub object_status : ℕ → ByteBuffer → Parser ℕ
object_status stream_id properties = do
  code ← varint
  check (is_valid_object_status code && (code == 0x0 || is_empty properties))
      (object_status_invalid code stream_id)
  pure code

pub object_body : ℕ → ℕ → ByteBuffer → ℕ → Parser ObjectFields
object_body stream_id delta properties size =
    if size == 0
    then (do
      code ← object_status stream_id properties
      pure (record { delta = delta; properties = properties; status = some code; payload = [] }))
    else (do
      payload ← view size
      pure (record { delta = delta; properties = properties; status = none; payload = payload }))

-- The bytes of `SubgroupReceiver::parse_object`.
unfoldable pub parse_object_fields : ℕ → Bool → Parser ObjectFields
parse_object_fields stream_id per_object = do
  delta ← varint
  properties ← object_properties per_object
  size ← varint
  object_body stream_id delta properties size

-- The Object ID from the one before; `none` is the overflow.
unfoldable pub next_object_id : Option ℕ → ℕ → Option ℕ
next_object_id none delta = some delta
next_object_id (some last) delta =
    if last == 2 ^ 64 - 1 || ltb (2 ^ 64 - 1 - (last + 1)) delta
    then none
    else some ((last + delta + 1) % 2 ^ 64)
