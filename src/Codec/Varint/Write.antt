-- ===== src/Codec/Varint/Write.antt =====
-- What `write_varint` writes: how long it is, and that it is made of bytes.
use moqtopus.Common.{ℕ, zero, suc, ◌-◌, ◌*◌, ◌^◌, ◌≤◌, ◌<◌, ◌≡◌, refl, ap, arith, length, All}
use moqtopus.Codec.Varint.{IsByte, write_length, write_tail, write_head, write_varint}

-- The loop stops at the least length that holds the value.
pub write_length_bounds :
    (v : ℕ)
    → (1 ≤ write_length 8 1 0x7f v)
      × (write_length 8 1 0x7f v ≤ 9)
      × (write_length 8 1 0x7f v < 9 → v < 2 ^ (7 * write_length 8 1 0x7f v))
      × (1 < write_length 8 1 0x7f v → 2 ^ (7 * (write_length 8 1 0x7f v - 1)) ≤ v)
unfolding write_length
write_length_bounds v = ground arith

pub length-write_tail : (n v : ℕ) → length (write_tail n v) ≡ n
unfolding write_tail
length-write_tail zero v = refl
length-write_tail (suc n) v = ap suc (length-write_tail n v)

write_tail-IsByte : (n v : ℕ) → All IsByte (write_tail n v)
unfolding write_tail
write_tail-IsByte zero v = tt
write_tail-IsByte (suc n) v = (omega arith, write_tail-IsByte n v)

write_head-IsByte : (n v : ℕ) → IsByte (write_head n v)
unfolding write_head
write_head-IsByte n v = ground arith

pub length-write_varint : (v : ℕ) → length (write_varint v) ≡ write_length 8 1 0x7f v
unfolding write_varint
length-write_varint v =
    omega (arith, length-write_tail (write_length 8 1 0x7f v - 1) v, write_length_bounds v)

-- write_varint writes bytes only, at least one and at most nine: fewer than nine of them, say n,
-- only for a value below 2^(7 n), and more than one only for a value that does not fit 7 (n - 1)
-- bits.
pub write_varint_shape :
    (v : ℕ)
    → let n = length (write_varint v) in
      All IsByte (write_varint v)
      × (1 ≤ n)
      × (n ≤ 9)
      × (n < 9 → v < 2 ^ (7 * n))
      × (1 < n → 2 ^ (7 * (n - 1)) ≤ v)
unfolding write_varint
write_varint_shape v =
    let b = write_length_bounds v in
    rw (length-write_varint v) ((write_head-IsByte _ v, write_tail-IsByte _ v), b.0, b.1, b.2, b.3)
