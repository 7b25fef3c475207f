-- ===== src/Codec/Reader/Steps.antt =====
-- One step of a reader in front of the bytes that a writer put there.
use Prim.Native.String.{String}
use moqtopus.Common.{
  err, ◌∷◌, ℕ, ◌≤◌, ◌≡◌, refl, ap, sym, append-nil, Option, some, ◌∙◌, arith, length, Bool, true,
  List, ◌++◌, Result, ok, [],
}
use moqtopus.Codec.Varint.{IsU64, write_varint}
use moqtopus.Codec.Cursor.{read_varint-write, read_view-append}
use moqtopus.Codec.Reader.{
  Reader, ◌>>=◌, pure, require, or_throw, varint, view, string, remaining_view, decode,
}
use moqtopus.Codec.Reader.Streaming.{>>=_ok}
use moqtopus.Types.{ByteBuffer}

-- A bind goes on where its first reader stops.
unfoldable pub step {ℓ κ} :
    {A : Type ℓ} {B : Type κ} (m : Reader A) (f : A → Reader B) (c s : List ℕ) (a : A)
    (b : Result (B × List ℕ))
    → m c ≡ ok (a, s)
    → f a s ≡ b
    → (m >>= f) c ≡ b
step m f c s a b p q = >>=_ok m f c s a p ∙ q

pub pure_lem {ℓ} : {A : Type ℓ} (a : A) (c : List ℕ) → pure a c ≡ ok (a, c)
unfolding pure
pure_lem a c = refl

pub require-true :
    (b : Bool) (message : String) (c : List ℕ) → b ≡ true → require b message c ≡ ok (tt, c)
unfolding require
require-true b message c e = rw (e, require) refl

pub or_throw-some {ℓ} :
    {A : Type ℓ} (f : List ℕ → Option (A × List ℕ)) (message : String) (c : List ℕ) {p : A × List ℕ}
    → f c ≡ some p
    → or_throw f message c ≡ ok p
unfolding or_throw
or_throw-some f message c e = rw (e, or_throw) refl

pub varint-write :
    (v : ℕ) (rest : List ℕ) → IsU64 v → varint (write_varint v ++ rest) ≡ ok (v, rest)
unfolding varint
varint-write v rest u = or_throw-some _ _ _ (read_varint-write v rest u)

pub view-append : (xs rest : List ℕ) → view (length xs) (xs ++ rest) ≡ ok (xs, rest)
unfolding view
view-append xs rest = or_throw-some _ _ _ (read_view-append xs rest)

pub remaining_view_lem : (xs : List ℕ) → remaining_view xs ≡ ok (xs, [])
unfolding remaining_view
remaining_view_lem xs = ap (view (length xs)) (sym (append-nil xs)) ∙ view-append xs []

pub string-write :
    (limit : ℕ) (xs rest : List ℕ)
    → IsU64 limit
    → length xs ≤ limit
    → string limit (write_varint (length xs) ++ (xs ++ rest)) ≡ ok (xs, rest)
unfolding string
string-write limit xs rest u h =
    step _ _ _ _ _ _ (varint-write (length xs) (xs ++ rest) (omega arith)) (
      step _ _ _ _ _ _ (require-true _ _ _ (ground arith))
        (or_throw-some _ _ _ (read_view-append xs rest)))

-- A last string, with nothing behind it.
pub string-write_last :
    (limit : ℕ) (xs : List ℕ)
    → IsU64 limit
    → length xs ≤ limit
    → string limit (write_varint (length xs) ++ xs) ≡ ok (xs, [])
string-write_last limit xs u h =
    ap (λ (x : List ℕ). string limit (write_varint (length xs) ++ x)) (sym (append-nil xs))
    ∙ string-write limit xs [] u h

-- `decode` returns what its parse read, if nothing is left.
pub decode_done {ℓ} :
    {A : Type ℓ} (parse : Reader A) (payload : ByteBuffer) (value : A)
    → parse payload ≡ ok (value, [])
    → decode parse payload ≡ ok value
unfolding decode
decode_done parse payload value e = rw (e, decode) refl

pub decode-eq_ok {ℓ} :
    {A : Type ℓ} (parse : Reader A) (payload : ByteBuffer) (value : A)
    → decode parse payload ≡ ok value
    → parse payload ≡ ok (value, [])
unfolding decode
decode-eq_ok {A} parse payload value e = go (parse payload) refl
  where
    go : (o : Result (A × List ℕ)) → parse payload ≡ o → parse payload ≡ ok (value, [])
    go (ok (a, [])) p =
        let found : ◌≡◌ {A = Result A} (ok a) (ok value) = rw (p, decode) at e in
        p ∙ ap (λ (v : A). ok (v, [])) (ground (arith, found))
    go (ok (a, b ∷ r)) p =
        let bad : ◌≡◌ {A = Result A} (err _) (ok value) = rw (p, decode) at e in cc
    go (err y) p = let bad : ◌≡◌ {A = Result A} (err y) (ok value) = rw (p, decode) at e in cc
