-- ===== src/Codec/Reader.antt =====
-- `Reader`, `parameter_encoding` and `decode` of src/codec/codec_internal.h. A reader maps the unread
-- bytes to its value and what it leaves, or throws.
pub mod Streaming
pub mod Steps
pub mod Errors
pub mod Bytes
use Prim.Native.String.{String}
use moqtopus.Common.{
  ℕ, zero, suc, ◌+◌, ◌-◌, ◌%◌, ◌^◌, length, ltb, leb, ◌==◌, Bool, true, false, not, ◌&&◌, ◌||◌,
  List, [], ◌∷◌, take, Option, none, some, if◌then◌else◌, is_empty,
}
use moqtopus.Common.{Result, ok, err, Exception, invalid_argument}
use moqtopus.Types.{TrackNamespace, Parameter, ParameterEncoding, ByteBuffer}
use moqtopus.Codec.Cursor

abbrev pub Reader {ℓ} : Type ℓ → Type ℓ
Reader A = List ℕ → Result (A × List ℕ)

infixl 5 ◌>>=◌ ◌>>◌
unfoldable pub ◌>>=◌ {ℓ κ} : {A : Type ℓ} {B : Type κ} → Reader A → (A → Reader B) → Reader B
◌>>=◌ m f c = elim (m c) [ ok (a, r) ↦ f a r | err e ↦ err e ]

abbrev pub ◌>>◌ {ℓ} : {B : Type ℓ} → Reader (Unit {0}) → Reader B → Reader B
m >> k = m >>= λ _. k

unfoldable pub pure {ℓ} : {A : Type ℓ} → A → Reader A
pure a c = ok (a, c)

pub throws {ℓ} : {A : Type ℓ} → String → Reader A
throws message c = err (invalid_argument message)

-- `require(valid, message)`
unfoldable pub require : Bool → String → Reader (Unit {0})
require true message c = ok (tt, c)
require false message c = err (invalid_argument message)

-- `require(read(value), message); return value;`
unfoldable pub or_throw {ℓ} : {A : Type ℓ} → (List ℕ → Option (A × List ℕ)) → String → Reader A
or_throw f message c = elim (f c) [ some p ↦ ok p | none ↦ err (invalid_argument message) ]

unfoldable pub varint : Reader ℕ
varint = or_throw Cursor.read_varint "truncated varint"

unfoldable pub byte : Reader ℕ
byte = or_throw Cursor.read_byte "truncated byte"

unfoldable pub view : ℕ → Reader ByteBuffer
view size = or_throw (Cursor.read_view size) "truncated bytes"

-- `reader.view(reader.remaining())`
pub remaining_view : Reader ByteBuffer
remaining_view c = view (length c) c

pub string : ℕ → Reader ByteBuffer
string limit = do
  size ← varint
  require (leb size limit) "string exceeds length limit"
  or_throw (Cursor.read_view size) "truncated string"

-- The loop of `track_namespace`: the fields left, and the bytes of those before.
unfoldable pub namespace_fields : ℕ → ℕ → Reader TrackNamespace
namespace_fields zero total = pure []
namespace_fields (suc n) total = do
  field ← string 4096
  let total' = total + length field
  require (not (is_empty field) && leb total' 4096) "invalid namespace field"
  fields ← namespace_fields n total'
  pure (field ∷ fields)

unfoldable pub track_namespace : Reader TrackNamespace
track_namespace = do
  count ← varint
  require (leb count 32) "too many namespace fields"
  namespace_fields count 0

unfoldable pub parameter_encoding : ℕ → Option ParameterEncoding
parameter_encoding type =
    if type == 0x02
      || (type == 0x04 || (type == 0x06 || (type == 0x08 || (type == 0x0a || type == 0x32))))
    then some ParameterEncoding.varint
    else if type == 0x03 || type == 0x21
    then some ParameterEncoding.length_prefixed
    else if type == 0x09
    then some ParameterEncoding.location
    else if type == 0x10 || (type == 0x20 || type == 0x22)
    then some ParameterEncoding.uint8
    else if type == 0x34
    then some ParameterEncoding.track_namespace
    else none

-- A read whose value is not kept.
abbrev pub discard {ℓ} : {A : Type ℓ} → Reader A → Reader (Unit {0})
discard m = m >>= λ _. pure tt

-- The `switch` on the encoding: read over one value.
unfoldable pub skip_value : ParameterEncoding → Reader (Unit {0})
skip_value ParameterEncoding.uint8 = discard byte
skip_value ParameterEncoding.varint = discard varint
skip_value ParameterEncoding.location = do discard varint; discard varint
skip_value ParameterEncoding.length_prefixed = do
  size ← varint
  require (leb size 65535) "message parameter exceeds length limit"
  discard (view size)
skip_value ParameterEncoding.track_namespace = discard track_namespace

-- The bytes that a read went over, from `start` to `offset`.
pub captured {ℓ} : {A : Type ℓ} → Reader A → Reader ByteBuffer
captured m c = elim (m c) [ ok (a, r) ↦ ok (take (length c - length r) c, r) | err e ↦ err e ]

-- `require(encoding.has_value(), ...)`
unfoldable pub known_encoding : ℕ → Reader ParameterEncoding
known_encoding type c = elim (parameter_encoding type) [
  | some encoding ↦ ok (encoding, c)
  | none ↦ err (invalid_argument "unknown message parameter")
]

abbrev pub u64_max : ℕ
u64_max = 2 ^ 64 - 1

-- The loop of `parameters`: the rounds left, whether `i == 0`, and the type before.
unfoldable pub parameter_loop : ℕ → Bool → ℕ → Reader (List Parameter)
parameter_loop zero first type = pure []
parameter_loop (suc n) first type = do
  delta ← varint
  require (leb delta (u64_max - type) && (first || not (delta == 0)))
      "invalid message parameter type delta"
  let type' = (type + delta) % 2 ^ 64
  encoding ← known_encoding type'
  value ← captured (skip_value encoding)
  rest ← parameter_loop n false type'
  pure (record { type = type'; encoded_value = value } ∷ rest)

unfoldable pub parameters : Reader (List Parameter)
parameters = do count ← varint; parameter_loop count true 0

-- `decode`: the parse, and nothing may be left.
unfoldable pub decode {ℓ} : {A : Type ℓ} → Reader A → ByteBuffer → Result A
decode parse payload = elim (parse payload) [
  | ok (value, rest) ↦
      if is_empty rest then ok value else err (invalid_argument "trailing control message bytes")
  | err e ↦ err e
]
