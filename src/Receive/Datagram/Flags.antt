-- ===== src/Receive/Datagram/Flags.antt =====
-- The types that encode_object_datagram of src/codec/codec.cpp writes, as deliver_datagram of
-- src/data_plane.cpp reads them.
use moqtopus.Common.{
  ℕ, zero, suc, ◌≡◌, refl, arith, ◌==◌, ◌&&◌, Bool, true, false, not, [], ◌∷◌, Option, none, some,
  if◌then◌else◌, is_empty, bit_and, bit_or,
}
use moqtopus.Types.{ByteBuffer}
use moqtopus.Codec.Varint.{IsU64}
use moqtopus.Codec.Objects.{datagram_type, is_some}
use moqtopus.Receive.Datagram.{padding_datagram_type, is_object_datagram_type}

-- The type from what its flags say: there are properties, there is a status, the object ends its
-- group, and its Object ID is 0.
pub flags : Bool → Bool → Bool → Bool → ℕ
flags p true e z = bit_or (bit_or (if p then 1 else 0) 0x20) (if z then 4 else 0)
flags p false e z = bit_or (bit_or (if p then 1 else 0) (if e then 2 else 0)) (if z then 4 else 0)

pub datagram_type_lem :
    (properties : ByteBuffer) (status : Option ℕ) (e : Bool) (id : ℕ)
    → datagram_type properties status e id
      ≡ flags (not (is_empty properties)) (is_some status) e (id == 0)
unfolding datagram_type flags
datagram_type_lem [] none true zero = refl
datagram_type_lem [] none true (suc n) = ground arith
datagram_type_lem [] none false zero = refl
datagram_type_lem [] none false (suc n) = ground arith
datagram_type_lem [] (some c) e zero = refl
datagram_type_lem [] (some c) e (suc n) = ground arith
datagram_type_lem (x ∷ xs) none true zero = refl
datagram_type_lem (x ∷ xs) none true (suc n) = ground arith
datagram_type_lem (x ∷ xs) none false zero = refl
datagram_type_lem (x ∷ xs) none false (suc n) = ground arith
datagram_type_lem (x ∷ xs) (some c) e zero = refl
datagram_type_lem (x ∷ xs) (some c) e (suc n) = ground arith

-- What the receiver asks of a type.
pub record Flags (p s e z : Bool) (type : ℕ) : Type 0 where
  pub small : IsU64 type
  pub padding : (type == padding_datagram_type) ≡ false
  pub valid : is_object_datagram_type type ≡ true
  pub priority : (bit_and type 0x08 == 0) ≡ true
  pub properties : not (bit_and type 0x01 == 0) ≡ p
  pub status : not (bit_and type 0x20 == 0) ≡ s
  pub ends : not (bit_and type 0x02 == 0) ≡ (e && not s)
  pub object_id : (bit_and type 0x04 == 0) ≡ not z

by_computing :
    {p s e z : Bool} {type : ℕ}
    → IsU64 type
    → (type == padding_datagram_type) ≡ false
    → is_object_datagram_type type ≡ true
    → (bit_and type 0x08 == 0) ≡ true
    → not (bit_and type 0x01 == 0) ≡ p
    → not (bit_and type 0x20 == 0) ≡ s
    → not (bit_and type 0x02 == 0) ≡ (e && not s)
    → (bit_and type 0x04 == 0) ≡ not z
    → Flags p s e z type
by_computing a b c d x y w v = record {
  small = a;
  padding = b;
  valid = c;
  priority = d;
  properties = x;
  status = y;
  ends = w;
  object_id = v;
}

pub flags-Flags : (p s e z : Bool) → Flags p s e z (flags p s e z)
unfolding flags is_object_datagram_type
flags-Flags true true true true = by_computing (omega arith) refl refl refl refl refl refl refl
flags-Flags true true true false = by_computing (omega arith) refl refl refl refl refl refl refl
flags-Flags true true false true = by_computing (omega arith) refl refl refl refl refl refl refl
flags-Flags true true false false = by_computing (omega arith) refl refl refl refl refl refl refl
flags-Flags true false true true = by_computing (omega arith) refl refl refl refl refl refl refl
flags-Flags true false true false = by_computing (omega arith) refl refl refl refl refl refl refl
flags-Flags true false false true = by_computing (omega arith) refl refl refl refl refl refl refl
flags-Flags true false false false = by_computing (omega arith) refl refl refl refl refl refl refl
flags-Flags false true true true = by_computing (omega arith) refl refl refl refl refl refl refl
flags-Flags false true true false = by_computing (omega arith) refl refl refl refl refl refl refl
flags-Flags false true false true = by_computing (omega arith) refl refl refl refl refl refl refl
flags-Flags false true false false = by_computing (omega arith) refl refl refl refl refl refl refl
flags-Flags false false true true = by_computing (omega arith) refl refl refl refl refl refl refl
flags-Flags false false true false = by_computing (omega arith) refl refl refl refl refl refl refl
flags-Flags false false false true = by_computing (omega arith) refl refl refl refl refl refl refl
flags-Flags false false false false = by_computing (omega arith) refl refl refl refl refl refl refl
