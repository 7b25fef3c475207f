-- ===== src/Codec/Varint.antt =====
-- `write_varint` and `read_varint` of src/codec/codec.cpp. A buffer is a list of bytes; a position
-- in a buffer is the list of the bytes from there on.
pub mod Write
pub mod RoundTrip
pub mod Prefix
use moqtopus.Common.{
  ℕ, zero, suc, ◌+◌, ◌-◌, ◌*◌, ◌/◌, ◌%◌, ◌^◌, ◌<◌, bit_and, bit_or, Bool, true, false, List, [],
  ◌∷◌, ◌++◌, ltb, ◌==◌, if◌then◌else◌, length, take,
}

abbrev pub IsByte : ℕ → Type 0
IsByte b = b < 256

abbrev pub IsU64 : ℕ → Type 0
IsU64 v = v < 2 ^ 64

pub data DecodeStatus : Type 0 where
  done need_more_data error : DecodeStatus

pub record VarintResult : Type 0 where
  pub status : DecodeStatus
  pub value : ℕ
  pub bytes : ℕ

-- `return {};`
abbrev pub no_varint : VarintResult
no_varint = record { status = DecodeStatus.need_more_data; value = 0; bytes = 0 }

-- The loop on `length` and `max`, with `rounds = 9 - length`.
unfoldable pub write_length : ℕ → ℕ → ℕ → ℕ → ℕ
write_length zero length max value = length
write_length (suc rounds) length max value = elim (ltb max value) [
  | true ↦ write_length rounds (length + 1) (bit_or (max * 2 ^ 7 % 2 ^ 64) 0x7f) value
  | false ↦ length
]

-- `out.push_back(value >> shift)` for `shift = 8 * (n - 1)` down to 0.
unfoldable pub write_tail : ℕ → ℕ → List ℕ
write_tail zero value = []
write_tail (suc n) value = (value / 2 ^ (8 * n) % 256) ∷ write_tail n value

-- The first byte: a unary prefix over the top bits of the value.
unfoldable pub write_head : ℕ → ℕ → ℕ
write_head length value =
    let prefix = 0xff * 2 ^ (9 - length) % 256 in
    if length == 9 then 0xff else bit_or prefix (value / 2 ^ ((length - 1) * 8)) % 256

-- What `write_varint` appends.
unfoldable pub write_varint : ℕ → List ℕ
write_varint value =
    let length = write_length 8 1 0x7f value in
    write_head length value ∷ write_tail (length - 1) value

-- The loop on `length`, with `rounds = 9 - length`.
unfoldable pub read_length : ℕ → ℕ → ℕ → ℕ
read_length zero length first = length
read_length (suc rounds) length first = elim (bit_and first (0x100 / 2 ^ length) == 0) [
  | true ↦ length
  | false ↦ read_length rounds (length + 1) first
]

-- `value = (value << 8) | data[offset + index]` over the bytes behind the first.
unfoldable pub read_tail : ℕ → List ℕ → ℕ
read_tail value [] = value
read_tail value (byte ∷ rest) = read_tail (bit_or (value * 2 ^ 8 % 2 ^ 64) byte) rest

-- The argument is the buffer from `offset` on.
unfoldable pub read_varint : List ℕ → VarintResult
read_varint [] = no_varint
read_varint (first ∷ rest) =
    let size = read_length 8 1 first in
    if ltb (length rest + 1) size then no_varint else record {
      status = DecodeStatus.done;
      value =
          read_tail (if size == 9 then 0 else bit_and first (0xff / 2 ^ size))
            (take (size - 1) rest);
      bytes = size;
    }
