-- ===== src/Codec/Varint/Prefix.antt =====
-- `read_varint` on any buffer: what it takes, and how it answers on a buffer that is still growing.
use moqtopus.Common.{
  ◌==◌, ◌*◌, if◌then◌else◌, ◌^◌, ◌%◌, ◌<◌, ◌/◌, All, false, append-nil, ℕ, zero, suc, ◌+◌, ◌-◌, ◌≤◌,
  ◌≡◌, ◌⊎◌, inl, inr, refl, sym, ap, ◌∙◌, arith, length, ltb, List, [], ◌∷◌, ◌++◌, take,
  length-append, take-append_le, length-take, take-append_exact, Bool-cases, not_ltb,
}
use moqtopus.Common.{bit_and, ltb→lt, All-take, true}
use moqtopus.Common.Bits.{passes_from, or_byte, all_below, all_below_sound}
use moqtopus.Codec.Varint.{
  IsByte, read_tail, IsU64, read_length, read_varint, write_varint, VarintResult, DecodeStatus,
  no_varint,
}
use moqtopus.Codec.Varint.RoundTrip.{read_varint-write_varint}

read_length_bounds : (n k first : ℕ) → (k ≤ read_length n k first) × (read_length n k first ≤ k + n)
unfolding read_length
read_length_bounds zero k first = omega arith
read_length_bounds (suc n) k first = ground (arith, read_length_bounds n (k + 1) first)

-- `read_varint` answers Done or NeedMoreData; when Done it took one to nine bytes, all of them there.
pub read_varint_cases :
    (c : List ℕ)
    → (read_varint c ≡ no_varint)
      ⊎ (((read_varint c).status ≡ DecodeStatus.done)
          × (1 ≤ (read_varint c).bytes)
          × ((read_varint c).bytes ≤ 9)
          × ((read_varint c).bytes ≤ length c))
unfolding read_varint
read_varint_cases [] = inl refl
read_varint_cases (b ∷ c) = ground (arith, read_length_bounds 8 1 b)

-- More bytes do not change a Done answer.
pub read_varint-append :
    (c more : List ℕ)
    → (read_varint c).status ≡ DecodeStatus.done
    → read_varint (c ++ more) ≡ read_varint c
unfolding read_varint
read_varint-append [] more h = cc
read_varint-append (b ∷ c) more h = elim (Bool-cases (ltb (length c + 1) (read_length 8 1 b))) [
  | inl e ↦ absurd (ground arith)
  | inr e ↦
      let lo = read_length_bounds 8 1 b in
      let long : ltb (length (c ++ more) + 1) (read_length 8 1 b) ≡ false =
        not_ltb _ _ (ground (arith, length-append c more)) in
      rw (e, long, take-append_le (read_length 8 1 b - 1) c more (ground arith)) refl
]

-- A Done answer rests on the bytes that it took, and on nothing behind them.
pub read_varint-take :
    (c more : List ℕ)
    → (read_varint c).status ≡ DecodeStatus.done
    → read_varint (take (read_varint c).bytes c ++ more) ≡ read_varint c
unfolding read_varint
read_varint-take [] more h = cc
read_varint-take (b ∷ c) more h = elim (Bool-cases (ltb (length c + 1) (read_length 8 1 b))) [
  | inl e ↦ absurd (ground arith)
  | inr e ↦
      let k : ℕ = read_length 8 1 b - 1 in
      let lo = read_length_bounds 8 1 b in
      let size : read_length 8 1 b ≡ suc k = omega arith in
      let len : length (take k c) ≡ k = length-take k c (ground arith) in
      let long : ltb (length (take k c ++ more) + 1) (read_length 8 1 b) ≡ false =
        not_ltb _ _ (ground (arith, length-append (take k c) more)) in
      rw (e, read_head size, long, take-append_exact k (take k c) more len) refl
]
  where
    read_head : {n k : ℕ} → n ≡ suc k → take n (b ∷ c) ≡ b ∷ take k c
    read_head p = rw p refl

-- On a proper prefix of what write_varint wrote for a 64-bit value, read_varint asks for more
-- data.
pub read_varint_truncated :
    (v x : ℕ) (front back : List ℕ)
    → IsU64 v
    → write_varint v ≡ front ++ (x ∷ back)
    → read_varint front ≡ no_varint
read_varint_truncated v x front back u e = elim (read_varint_cases front) [
  | inl none ↦ none
  | inr (status, least, most, within) ↦
      let whole = read_varint-append front (x ∷ back) status in
      let back_again = read_varint-write_varint v [] u in
      let same : write_varint v ++ [] ≡ front ++ (x ∷ back) = append-nil (write_varint v) ∙ e in
      let read = sym whole ∙ ap read_varint (sym same) ∙ back_again in
      absurd (
        omega (
          arith,
          ap (λ (r : VarintResult). r.bytes) read,
          ap (λ (l : List ℕ). length l) e,
          length-append front (x ∷ back),
        ))
]

read_tail-IsU64 :
    (bytes : List ℕ) (acc : ℕ) → IsU64 acc → All IsByte bytes → IsU64 (read_tail acc bytes)
unfolding read_tail
read_tail-IsU64 [] acc u h = u
read_tail-IsU64 (b ∷ bytes) acc u (hb, h) =
    let low = or_byte (acc % 2 ^ 56) b hb in
    let same : acc * 2 ^ 8 % 2 ^ 64 ≡ acc % 2 ^ 56 * 256 = omega arith in
    rw same (read_tail-IsU64 bytes _ (omega arith) h)

masked_table : all_below 256 (λ b. all_below 10 (λ n. ltb (bit_and b (0xff / 2 ^ n)) 256)) ≡ true
unfolding all_below passes_from
masked_table = refl

masked : (b n : ℕ) → IsByte b → n < 10 → bit_and b (0xff / 2 ^ n) < 256
masked b n h k = ltb→lt _ _ (all_below_sound 10 _ n (all_below_sound 256 _ b masked_table h) k)

-- The value that read_varint makes of bytes fits 64 bits.
pub read_varint-IsU64 : (c : List ℕ) → All IsByte c → IsU64 (read_varint c).value
unfolding read_varint
read_varint-IsU64 [] h = omega arith
read_varint-IsU64 (b ∷ c) (hb, h) = elim (Bool-cases (ltb (length c + 1) (read_length 8 1 b))) [
  | inl e ↦ rw e (omega arith)
  | inr e ↦ rw e (read_tail-IsU64 _ _ first (All-take IsByte _ c h))
]
  where
    size : ℕ
    size = read_length 8 1 b

    first : IsU64 (if size == 9 then 0 else bit_and b (0xff / 2 ^ size))
    first = ground (arith, read_length_bounds 8 1 b, masked b size)
