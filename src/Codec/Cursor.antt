-- ===== src/Codec/Cursor.antt =====
-- `Cursor` of src/codec/codec_internal.h: the bytes that are still to be read. What a read takes is
-- taken off the front; a read that fails leaves the cursor where it was.
use moqtopus.Common.{
  All, ap, length-drop, ◌<◌, ℕ, ◌≡◌, refl, arith, length, ltb, List, [], ◌∷◌, ◌++◌, take, drop,
  Option, none, some, if◌then◌else◌, take-append_self, drop-append_self, not_ltb, inl, inr,
  Bool-cases, sym, take-append-drop, drop-append_exact, take-append_exact, length-take,
  length-append, false,
}
use moqtopus.Codec.Varint.{IsByte, DecodeStatus, IsU64, write_varint, VarintResult, no_varint}
use moqtopus.Codec.Varint
use moqtopus.Codec.Varint.RoundTrip.{read_varint-write_varint}
use moqtopus.Codec.Varint.Prefix.{read_varint_cases, read_varint-take}

unfoldable pub read_byte : List ℕ → Option (ℕ × List ℕ)
read_byte [] = none
read_byte (b ∷ c) = some (b, c)

-- `if (parsed.status != DecodeStatus::Done) return false;`
abbrev pub accept {ℓ} : {A : Type ℓ} → DecodeStatus → A → Option A
accept DecodeStatus.done a = some a
accept DecodeStatus.need_more_data a = none
accept DecodeStatus.error a = none

unfoldable pub read_varint : List ℕ → Option (ℕ × List ℕ)
read_varint c =
    let parsed = Varint.read_varint c in accept parsed.status (parsed.value, drop parsed.bytes c)

-- `read_string` is the same read, into a string.
pub read_view : ℕ → List ℕ → Option (List ℕ × List ℕ)
read_view size c = if ltb (length c) size then none else some (take size c, drop size c)

-- What the two reads return, as equations.
pub read_varint_lem :
    (c : List ℕ)
    → read_varint c
      ≡ accept
          (Varint.read_varint c).status
          ((Varint.read_varint c).value, drop (Varint.read_varint c).bytes c)
unfolding read_varint
read_varint_lem c = refl

pub read_view_lem :
    (n : ℕ) (c : List ℕ)
    → read_view n c ≡ (if ltb (length c) n then none else some (take n c, drop n c))
unfolding read_view
read_view_lem n c = refl

pub read_varint-write :
    (v : ℕ) (rest : List ℕ) → IsU64 v → read_varint (write_varint v ++ rest) ≡ some (v, rest)
unfolding read_varint
read_varint-write v rest u =
    rw (read_varint-write_varint v rest u, read_varint) (rw drop-append_self refl)

pub read_view-append : (xs rest : List ℕ) → read_view (length xs) (xs ++ rest) ≡ some (xs, rest)
unfolding read_view
read_view-append xs rest =
    let enough : ltb (length (xs ++ rest)) (length xs) ≡ false =
      not_ltb _ _ (omega (arith, length-append xs rest)) in
    rw (enough, take-append_self, drop-append_self) refl

-- The read takes a prefix of the buffer, and would answer the same whatever stood behind it.
pub record Takes {ℓ} {A : Type ℓ} (f : List ℕ → Option (A × List ℕ)) (c : List ℕ) (a : A)
    (r : List ℕ) : Type ℓ where
  pub used : List ℕ
  pub split : c ≡ used ++ r
  pub again : (more : List ℕ) → f (used ++ more) ≡ some (a, more)

pub read_byte-Takes :
    (c : List ℕ) (b : ℕ) (r : List ℕ) → read_byte c ≡ some (b, r) → Takes read_byte c b r
unfolding read_byte
read_byte-Takes [] b r e = cc
read_byte-Takes (x ∷ c) b r e = record { used = b ∷ []; split = cc; again = λ more. refl }

pub read_varint-Takes :
    (c : List ℕ) (v : ℕ) (r : List ℕ) → read_varint c ≡ some (v, r) → Takes read_varint c v r
unfolding read_varint
read_varint-Takes c v r e = elim (read_varint_cases c) [
  | inl stuck ↦
      let bad : ◌≡◌ {A = Option (ℕ × List ℕ)} none (some (v, r)) = rw (stuck, read_varint) at e in
      cc
  | inr (status, least, most, within) ↦
      let n : ℕ = (Varint.read_varint c).bytes in
      let found : some ((Varint.read_varint c).value, drop n c) ≡ some (v, r) =
        rw (status, read_varint) at e in
      let val : (Varint.read_varint c).value ≡ v = ground (arith, found) in
      let rest : drop n c ≡ r = ground (arith, found) in
      record {
        used = take n c;
        split = sym (rw (← rest) (take-append-drop n c));
        again = λ more.
            rw (read_varint-take c more status, status, read_varint)
              (rw (val, drop-append_exact n (take n c) more (length-take n c within)) refl);
      }
]

pub read_view-Takes :
    (n : ℕ) (c v r : List ℕ) → read_view n c ≡ some (v, r) → Takes (read_view n) c v r
unfolding read_view
read_view-Takes n c v r e = elim (Bool-cases (ltb (length c) n)) [
  | inl short ↦
      let bad : ◌≡◌ {A = Option (List ℕ × List ℕ)} none (some (v, r)) = rw short at e in cc
  | inr enough ↦
      let found : ◌≡◌ {A = Option (List ℕ × List ℕ)} (some (take n c, drop n c)) (some (v, r)) =
        rw enough at e in
      let val : take n c ≡ v = ground (arith, found) in
      let rest : drop n c ≡ r = ground (arith, found) in
      let len : length (take n c) ≡ n = length-take n c (ground arith) in
      record {
        used = take n c;
        split = sym (rw (← rest) (take-append-drop n c));
        again = λ more.
            let long : ltb (length (take n c ++ more)) n ≡ false =
              not_ltb _ _ (omega (arith, length-append (take n c) more)) in
            rw
              (
                long,
                drop-append_exact n (take n c) more len,
                take-append_exact n (take n c) more len,
              )
              (rw val refl);
      }
]

pub read_varint_shrinks :
    (c : List ℕ) (v : ℕ) (r : List ℕ) → read_varint c ≡ some (v, r) → length r < length c
unfolding read_varint
read_varint_shrinks c v r e = elim (read_varint_cases c) [
  | inl stuck ↦
      let bad : ◌≡◌ {A = Option (ℕ × List ℕ)} none (some (v, r)) = rw (stuck, read_varint) at e in
      cc
  | inr (status, least, most, within) ↦
      let n : ℕ = (Varint.read_varint c).bytes in
      let found : some ((Varint.read_varint c).value, drop n c) ≡ some (v, r) =
        rw (status, read_varint) at e in
      let rest : drop n c ≡ r = ground (arith, found) in
      omega (arith, ap (λ (l : List ℕ). length l) rest, length-drop n c)
]

pub read_varint-IsU64 :
    (c : List ℕ) (v : ℕ) (r : List ℕ) → All IsByte c → read_varint c ≡ some (v, r) → IsU64 v
unfolding read_varint
read_varint-IsU64 c v r b e = elim (read_varint_cases c) [
  | inl stuck ↦
      let bad : ◌≡◌ {A = Option (ℕ × List ℕ)} none (some (v, r)) = rw (stuck, read_varint) at e in
      cc
  | inr (status, least, most, within) ↦
      let found : some ((Varint.read_varint c).value, drop (Varint.read_varint c).bytes c)
          ≡ some (v, r) =
        rw (status, read_varint) at e in
      let val : (Varint.read_varint c).value ≡ v = ground (arith, found) in
      rw (← val) (Varint.Prefix.read_varint-IsU64 c b)
]
