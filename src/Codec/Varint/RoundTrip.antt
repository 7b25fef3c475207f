-- ===== src/Codec/Varint/RoundTrip.antt =====
-- `read_varint` after `write_varint`.
use moqtopus.Common.{
  Bool-cases, inl, inr, not_ltb, if◌then◌else◌, ℕ, zero, suc, ◌+◌, ◌-◌, ◌*◌, ◌/◌, ◌%◌, ◌^◌, ◌≤◌,
  ◌<◌, ◌≡◌, refl, sym, ap, ◌∙◌, arith, length, ltb, ◌==◌, List, ◌∷◌, bit_and, bit_or, ◌&&◌, Bool,
  true, false, ◌++◌, length-append, take-append_self,
}
use native.Mathlib.Nat.{div-div-eq-div-mul, div-le_self}
use native.Mathlib.Numerals.{towards_suc}
use moqtopus.Common.Bits.{passes_from, all_below, all_below_sound, or_byte}
use moqtopus.Codec.Varint.{
  IsU64, write_length, write_tail, write_head, write_varint, read_length, read_tail, read_varint,
  DecodeStatus,
}
use moqtopus.Codec.Varint.Write.{write_length_bounds, length-write_tail, length-write_varint}

-- A first byte of a short encoding gives back its length and its bits of the value: `n` is the
-- number of bytes that follow, `x` those bits.
head_test : ℕ → ℕ → Bool
head_test n x =
    let first = bit_or (0xff * 2 ^ (8 - n) % 256) x % 256 in
    (read_length 8 1 first == suc n) && (bit_and first (0xff / 2 ^ suc n) == x)

head_table : all_below 8 (λ n. all_below (2 ^ (7 - n)) (head_test n)) ≡ true
unfolding all_below passes_from head_test read_length
head_table = refl

test_head : (n x : ℕ) → n < 8 → x < 2 ^ (7 - n) → head_test n x ≡ true
test_head n x h k =
    all_below_sound (2 ^ (7 - n)) (head_test n) x
      (all_below_sound 8 (λ j. all_below (2 ^ (7 - j)) (head_test j)) n head_table h) k

both_eq : (a b c d : ℕ) → ((a == b) && (c == d)) ≡ true → (a ≡ b) × (c ≡ d)
both_eq a b c d h = ground arith

pow_byte : (n : ℕ) → 2 ^ (8 * suc n) ≡ 2 ^ (8 * n) * 256
pow_byte n =
    let shift : 8 * suc n ≡ 8 * n + 8 = omega arith in rw shift (simp towards_suc (omega arith))

div_byte : (v n : ℕ) → v / 2 ^ (8 * suc n) ≡ v / 2 ^ (8 * n) / 256
div_byte v n = ap (λ (d : ℕ). v / d) (pow_byte n) ∙ sym (div-div-eq-div-mul v (2 ^ (8 * n)) 256)

-- Reading on from the high bits gives the whole value.
read_tail-write_tail : (n v : ℕ) → IsU64 v → read_tail (v / 2 ^ (8 * n)) (write_tail n v) ≡ v
unfolding read_tail write_tail
read_tail-write_tail zero v h = omega arith
read_tail-write_tail (suc n) v h =
    ap (λ (acc : ℕ). read_tail acc (write_tail n v)) step ∙ read_tail-write_tail n v h
  where
    q : ℕ
    q = v / 2 ^ (8 * n)

    small : q ≤ v
    small = div-le_self v _

    step : bit_or (v / 2 ^ (8 * suc n) * 2 ^ 8 % 2 ^ 64) (q % 256) ≡ q
    step = rw (div_byte v n) (ground (arith, or_byte (q / 256) (q % 256), small))

-- The bits of the value that go into the first byte.
top_bits-lt : (n v : ℕ) → n < 8 → v < 2 ^ (7 * suc n) → v / 2 ^ (8 * n) < 2 ^ (7 - n)
top_bits-lt zero v h k = omega arith
top_bits-lt (suc zero) v h k = omega arith
top_bits-lt (suc (suc zero)) v h k = omega arith
top_bits-lt (suc (suc (suc zero))) v h k = omega arith
top_bits-lt (suc (suc (suc (suc zero)))) v h k = omega arith
top_bits-lt (suc (suc (suc (suc (suc zero))))) v h k = omega arith
top_bits-lt (suc (suc (suc (suc (suc (suc zero)))))) v h k = omega arith
top_bits-lt (suc (suc (suc (suc (suc (suc (suc zero))))))) v h k = omega arith
top_bits-lt (suc (suc (suc (suc (suc (suc (suc (suc n)))))))) v h k = absurd (omega arith)

abbrev Reads : ℕ → ℕ → ℕ → Type 0
Reads n x first =
    (read_length 8 1 first ≡ suc n)
    × ((if suc n == 9 then 0 else bit_and first (0xff / 2 ^ suc n)) ≡ x)

short_head :
    (n x : ℕ)
    → n < 8
    → x < 2 ^ (7 - n)
    → let first = bit_or (0xff * 2 ^ (8 - n) % 256) x % 256 in
      (read_length 8 1 first ≡ suc n) × (bit_and first (0xff / 2 ^ suc n) ≡ x)
unfolding head_test
short_head n x h k = both_eq _ _ _ _ (test_head n x h k)

head-Reads :
    (n v : ℕ)
    → n ≤ 8
    → IsU64 v
    → (n < 8 → v < 2 ^ (7 * suc n))
    → Reads n (v / 2 ^ (8 * n)) (write_head (suc n) v)
unfolding write_head
head-Reads n v h u k = elim (Bool-cases (suc n == 9)) [
  | inl e ↦ let e' : n ≡ 8 = ground arith in rw e' (unfold read_length in (refl, omega arith))
  | inr e ↦
      let shift : 9 - suc n ≡ 8 - n = omega arith in
      let low : (suc n - 1) * 8 ≡ 8 * n = omega arith in
      let lt : n < 8 = ground arith in
      rw (e, shift, low) (short_head n _ lt (top_bits-lt n v lt (k lt)))
]

encoding_reads :
    (n v : ℕ) (rest : List ℕ)
    → n ≤ 8
    → IsU64 v
    → (n < 8 → v < 2 ^ (7 * suc n))
    → read_varint (write_head (suc n) v ∷ (write_tail n v ++ rest))
      ≡ record { status = DecodeStatus.done; value = v; bytes = suc n }
unfolding read_varint
encoding_reads n v rest h u k =
    let (size, top) = head-Reads n v h u k in
    let len = length-append (write_tail n v) rest in
    let tail_len = length-write_tail n v in
    let enough : ltb (length (write_tail n v ++ rest) + 1) (suc n) ≡ false =
      not_ltb _ _ (omega arith) in
    let count : suc n - 1 ≡ length (write_tail n v) = omega arith in
    rw (size, enough, top, count, take-append_self, read_tail-write_tail n v u) refl

written_reads :
    (n v : ℕ) (rest : List ℕ)
    → 1 ≤ n
    → n ≤ 9
    → IsU64 v
    → (n < 9 → v < 2 ^ (7 * n))
    → read_varint (write_head n v ∷ (write_tail (n - 1) v ++ rest))
      ≡ record { status = DecodeStatus.done; value = v; bytes = n }
written_reads zero v rest p h u k = absurd (omega arith)
written_reads (suc n) v rest p h u k =
    let e : suc n - 1 ≡ n = omega arith in
    rw e (encoding_reads n v rest (omega arith) u (λ q. k (omega arith)))

-- read_varint gives back every 64-bit value that write_varint wrote, whatever bytes follow, with
-- the status Done and the number of bytes that were written.
pub read_varint-write_varint :
    (v : ℕ) (rest : List ℕ)
    → IsU64 v
    → read_varint (write_varint v ++ rest)
      ≡ record { status = DecodeStatus.done; value = v; bytes = length (write_varint v) }
unfolding write_varint
read_varint-write_varint v rest u =
    let (least, most, fits, _) = write_length_bounds v in
    rw (length-write_varint v) (written_reads (write_length 8 1 0x7f v) v rest least most u fits)
