-- ===== src/Codec/Decoders/Setup/Laws.antt =====
-- `decode_setup` ends on every payload, and accepts what `encode_setup` writes.
use Prim.Native.String.{String}
use moqtopus.Common.{
  ℕ, zero, suc, ◌+◌, ◌-◌, ◌%◌, ◌^◌, ◌≤◌, ◌≡◌, refl, ◌∙◌, arith, bit_and, length, ◌==◌, false, List,
  [], ◌∷◌, ◌++◌, ok, length-append,
}
use moqtopus.Types.{ByteBuffer}
use moqtopus.Codec.Varint.{write_varint, IsU64}
use moqtopus.Codec.Varint.Write.{write_varint_shape}
use moqtopus.Codec.Reader.Steps.{
  step, pure_lem, require-true, varint-write, string-write, decode_done,
}
use moqtopus.Codec.Messages.{message_setup}
use moqtopus.Codec.Decoders.RoundTrip.{Carries, carried}
use moqtopus.Codec.Decoders.Setup.{
  write_options, setup_options, encode_setup, read_option, read_options, decode_setup,
}

-- Options that `decode_setup` takes: odd types that rise from `previous` on, values of a legal size.
abbrev Legal : ℕ → List (ℕ × ByteBuffer) → Type 0
Legal previous [] = Unit
Legal previous ((type, value) ∷ options) =
    (previous ≤ type)
    × IsU64 type
    × ((bit_and type 1 == 0) ≡ false)
    × (length value ≤ 65535)
    × Legal type options

Legal-below :
    (low previous : ℕ) (options : List (ℕ × ByteBuffer))
    → low ≤ previous
    → Legal previous options
    → Legal low options
Legal-below low previous [] h l = tt
Legal-below low previous ((type, value) ∷ options) h (a, b, c, d, l) = (omega arith, b, c, d, l)

read_option-write :
    (previous type : ℕ) (value rest : ByteBuffer)
    → previous ≤ type
    → IsU64 type
    → (bit_and type 1 == 0) ≡ false
    → length value ≤ 65535
    → read_option previous
        (write_varint (type - previous) ++ (write_varint (length value) ++ (value ++ rest)))
      ≡ ok (type, rest)
unfolding read_option
read_option-write previous type value rest a u odd h =
    let next : (previous + (type - previous)) % 2 ^ 64 ≡ type = omega arith in
    step _ _ _ _ _ _ (varint-write (type - previous) _ (omega arith)) (
      step _ _ _ _ _ _ (require-true _ _ _ (ground arith)) (
        rw (next, odd)
          (step _ _ _ _ _ _
            (step _ _ _ _ _ _ (string-write 65535 value rest (omega arith) h) (pure_lem _ _))
            (pure_lem _ _))))

read_options_step :
    (fuel type : ℕ) (c : List ℕ) (next : ℕ) (r : List ℕ)
    → read_option type c ≡ ok (next, r)
    → 1 ≤ length c
    → 1 ≤ fuel
    → read_options fuel type c ≡ read_options (fuel - 1) next r
unfolding read_options
read_options_step fuel type [] next r e h k = absurd (omega arith)
read_options_step zero type (b ∷ c) next r e h k = absurd (omega arith)
read_options_step (suc fuel) type (b ∷ c) next r e h k =
    let less : suc fuel - 1 ≡ fuel = omega arith in rw less (step _ _ _ _ _ _ e refl)

read_options-write :
    (options : List (ℕ × ByteBuffer)) (fuel previous : ℕ)
    → Legal previous options
    → length (write_options previous options) ≤ fuel
    → read_options fuel previous (write_options previous options) ≡ ok (tt, [])
unfolding write_options
read_options-write [] fuel previous l h = unfold read_options in refl
read_options-write ((type, []) ∷ options) fuel previous (a, u, odd, size, l) h =
    read_options-write options fuel previous (Legal-below previous type options a l) h
read_options-write ((type, x ∷ v) ∷ options) fuel previous (a, u, odd, size, l) h =
    let value : ByteBuffer = x ∷ v in
    let rest : ByteBuffer = write_options type options in
    let tail : ByteBuffer = write_varint (length value) ++ (value ++ rest) in
    let here = write_varint_shape (type - previous) in
    let len = length-append (write_varint (type - previous)) tail in
    let len2 = length-append (write_varint (length value)) (value ++ rest) in
    let len3 = length-append value rest in
    let some_left : 1 ≤ fuel = omega (arith, here.1) in
    read_options_step fuel previous _ type rest
      (read_option-write previous type value rest a u odd size) (omega (arith, here.1)) some_left
    ∙ read_options-write options (fuel - 1) type l (omega (arith, here.1))

-- A SETUP that encode_setup wrote is framed, read and accepted by decode_setup; for an authority
-- and a path of at most 65535 bytes each.
pub setup_Carries :
    (authority path bytes : ByteBuffer)
    → length authority ≤ 65535
    → length path ≤ 65535
    → encode_setup authority path ≡ ok bytes
    → Carries bytes message_setup decode_setup tt
unfolding encode_setup decode_setup
setup_Carries authority path bytes ha hp e =
    let options : List (ℕ × ByteBuffer) = setup_options authority path in
    carried message_setup _ bytes decode_setup tt (omega arith) e (
      decode_done _ _ _ (
        read_options-write options _ 0
          (
            omega arith,
            omega arith,
            refl,
            hp,
            (omega arith, omega arith, refl, ha, (omega arith, omega arith, refl, omega arith, tt)),
          )
          (omega arith)))
