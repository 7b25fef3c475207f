-- ===== src/Codec/Decoders/Setup.antt =====
-- SETUP: `encode_setup` and `decode_setup` of src/codec/control.cpp. `decode_setup` reads options for
-- as long as bytes are left; its fuel is the size of the payload, and every option takes a byte.
pub mod Laws
use moqtopus.Common.{
  ℕ, zero, suc, ◌+◌, ◌-◌, ◌%◌, ◌^◌, ◌≤◌, ◌<◌, ◌≡◌, ◌≢◌, refl, arith, bit_and, length, leb, ◌==◌,
  Bool, true, false, List, [], ◌∷◌, ◌++◌, if◌then◌else◌, is_empty, Result, ok, err, Exception,
  runtime_error,
}
use moqtopus.Types.{ByteBuffer}
use moqtopus.Codec.Varint.{write_varint, IsU64}
use moqtopus.Codec.Framing.{encode_control_message}
use moqtopus.Codec.Messages.{message_setup}
use moqtopus.Codec.Reader.{
  Reader, ◌>>=◌, ◌>>◌, pure, require, varint, string, discard, decode, u64_max,
}

-- The bytes of "kota-moqtopus".
abbrev implementation_name : ByteBuffer
implementation_name =
    0x6b ∷ 0x6f ∷ 0x74 ∷ 0x61 ∷ 0x2d ∷ 0x6d ∷ 0x6f ∷ 0x71 ∷ 0x74 ∷ 0x6f ∷ 0x70 ∷ 0x75 ∷ 0x73 ∷ []

-- The loop over the options: those with an empty value are passed over.
unfoldable pub write_options : ℕ → List (ℕ × ByteBuffer) → ByteBuffer
write_options previous [] = []
write_options previous ((type, value) ∷ options) = elim (is_empty value) [
  | true ↦ write_options previous options
  | false ↦
      write_varint (type - previous)
      ++ (write_varint (length value) ++ (value ++ write_options type options))
]

-- `SetupOption::Path`, `Authority` and `MoqtImplementation`, in this order.
abbrev pub setup_options : ByteBuffer → ByteBuffer → List (ℕ × ByteBuffer)
setup_options authority path = (0x01, path) ∷ (0x05, authority) ∷ (0x07, implementation_name) ∷ []

unfoldable pub encode_setup : ByteBuffer → ByteBuffer → Result ByteBuffer
encode_setup authority path =
    encode_control_message message_setup (write_options 0 (setup_options authority path))

-- One option of the peer: the type, from the one before, and a value that is not kept.
pub read_option : ℕ → Reader ℕ
read_option type = do
  delta ← varint
  require (leb delta (u64_max - type)) "SETUP option type overflow"
  let type' = (type + delta) % 2 ^ 64
  if bit_and type' 1 == 0 then discard varint else discard (string 65535)
  pure type'

pub read_options : ℕ → ℕ → Reader (Unit {0})
read_options fuel type [] = ok (tt, [])
read_options zero type (b ∷ c) = err (runtime_error "out of fuel")
read_options (suc fuel) type (b ∷ c) =
    (do type' ← read_option type; read_options fuel type') (b ∷ c)

pub decode_setup : ByteBuffer → Result (Unit {0})
decode_setup payload = decode (read_options (length payload) 0) payload
