-- ===== src/Receive/Parse/Steps.antt =====
-- One step of a parser of src/data_plane.cpp in front of the bytes that a writer put there.
use moqtopus.Common.{
  ℕ, ◌≤◌, ◌≡◌, refl, arith, length, Bool, true, false, List, ◌∷◌, ◌++◌, Option, some,
}
use moqtopus.Types.{ByteBuffer}
use moqtopus.Codec.Varint.{IsU64, write_varint}
use moqtopus.Codec.Cursor.{read_byte, read_varint-write, read_view-append}
use moqtopus.Receive.{Fault}
use moqtopus.Receive.Parse.{
  Parse, Parser, done, ◌>>=◌, pure, want, check, varint, byte, view, read_properties,
}

unfoldable pub step {ℓ κ} :
    {A : Type ℓ} {B : Type κ} (m : Parser A) (f : A → Parser B) (c s : List ℕ) (a : A)
    (b : Parse (B × List ℕ))
    → m c ≡ done (a, s)
    → f a s ≡ b
    → (m >>= f) c ≡ b
unfolding ◌>>=◌
step m f c s a b p q = rw (p, ◌>>=◌) q

pub pure_lem {ℓ} : {A : Type ℓ} (a : A) (c : List ℕ) → pure a c ≡ done (a, c)
unfolding pure
pure_lem a c = refl

pub check-true : (b : Bool) (fault : Fault) (c : List ℕ) → b ≡ true → check b fault c ≡ done (tt, c)
unfolding check
check-true b fault c e = rw (e, check) refl

pub want-some {ℓ} :
    {A : Type ℓ} (f : List ℕ → Option (A × List ℕ)) (c : List ℕ) {p : A × List ℕ}
    → f c ≡ some p
    → want f c ≡ done p
unfolding want
want-some f c e = rw (e, want) refl

pub varint-write :
    (v : ℕ) (rest : List ℕ) → IsU64 v → varint (write_varint v ++ rest) ≡ done (v, rest)
unfolding varint
varint-write v rest u = want-some _ _ (read_varint-write v rest u)

pub byte-cons : (b : ℕ) (rest : List ℕ) → byte (b ∷ rest) ≡ done (b, rest)
unfolding byte want read_byte
byte-cons b rest = refl

pub view-append : (xs rest : List ℕ) → view (length xs) (xs ++ rest) ≡ done (xs, rest)
unfolding view
view-append xs rest = want-some _ _ (read_view-append xs rest)

-- Properties behind their length.
pub read_properties-write :
    (fault : Fault) (properties : ByteBuffer) (rest : List ℕ)
    → length properties ≤ 65535
    → read_properties fault false (write_varint (length properties) ++ (properties ++ rest))
      ≡ done (properties, rest)
unfolding read_properties
read_properties-write fault properties rest short =
    step _ _ _ _ _ _ (varint-write (length properties) _ (omega arith))
      (step _ _ _ _ _ _ (check-true _ _ _ (ground arith)) (view-append properties rest))

pub read_properties-write_some :
    (fault : Fault) (b : ℕ) (bs : ByteBuffer) (rest : List ℕ)
    → length (b ∷ bs) ≤ 65535
    → read_properties fault true (write_varint (length (b ∷ bs)) ++ ((b ∷ bs) ++ rest))
      ≡ done (b ∷ bs, rest)
unfolding read_properties
read_properties-write_some fault b bs rest short =
    step _ _ _ _ _ _ (varint-write (length (b ∷ bs)) _ (omega arith))
      (step _ _ _ _ _ _ (check-true _ _ _ (ground arith)) (view-append (b ∷ bs) rest))
