-- ===== src/Codec/Reader/Errors.antt =====
-- Readers throw `std::invalid_argument` only, and a varint takes at least one byte.
use Prim.Native.String.{String}
use moqtopus.Common.{
  ℕ, ◌≤◌, ◌<◌, ◌≡◌, ◌≢◌, ◌⊎◌, inl, inr, refl, ap, ◌∙◌, arith, length, Bool, true, false, List, [],
  ◌∷◌, Option, Result, ok, err, Exception, runtime_error, length-append, if◌then◌else◌,
}
use moqtopus.Codec.Cursor.{read_varint_shrinks}
use moqtopus.Codec.Reader.{Reader, ◌>>=◌, pure, require, or_throw, varint, string, decode}
use moqtopus.Codec.Reader.Streaming.{IsStreaming, >>=-eq_ok}

-- The reader throws no `std::runtime_error`.
pub record IsQuiet {ℓ} {A : Type ℓ} (m : Reader A) : Type ℓ where
  pub quiet : (c : List ℕ) (message : String) → m c ≢ err (runtime_error message)

module _ {ℓ} {A : Type ℓ} where
  pub IsQuiet-pure : (a : A) → IsQuiet (pure a)
  unfolding pure
  IsQuiet-pure a = record { quiet = λ c s e. cc }

  IsQuiet-or_throw : (f : List ℕ → Option (A × List ℕ)) (m : String) → IsQuiet (or_throw f m)
  unfolding or_throw
  IsQuiet-or_throw f m = record { quiet = λ c s e. ground arith }

  pub IsQuiet-if :
      (b : Bool) (m n : Reader A) → IsQuiet m → IsQuiet n → IsQuiet (if b then m else n)
  IsQuiet-if true m n p q = p
  IsQuiet-if false m n p q = q

pub IsQuiet-require : (b : Bool) (m : String) → IsQuiet (require b m)
unfolding require
IsQuiet-require true m = record { quiet = λ c s e. cc }
IsQuiet-require false m = record { quiet = λ c s e. ground arith }

module _ {ℓ κ} {A : Type ℓ} {B : Type κ} where
  pub IsQuiet->>= :
      (m : Reader A) (f : A → Reader B) → IsQuiet m → ((a : A) → IsQuiet (f a)) → IsQuiet (m >>= f)
  unfolding ◌>>=◌
  IsQuiet->>= m f p q = record { quiet = λ c s e. go c s (m c) refl e }
    where
      go :
          (c : List ℕ) (s : String) (o : Result (A × List ℕ))
          → m c ≡ o
          → (m >>= f) c ≡ err (runtime_error s)
          → ⊥
      go c s (ok (a, r)) h e = (q a).quiet r s (rw (h, ◌>>=◌) at e)
      go c s (err x) h e =
          let thrown : ◌≡◌ {A = Result (B × List ℕ)} (err x) (err (runtime_error s)) =
            rw (h, ◌>>=◌) at e in
          let same : x ≡ runtime_error s = ground (arith, thrown) in p.quiet c s (h ∙ ap err same)

pub IsQuiet-varint : IsQuiet varint
unfolding varint
IsQuiet-varint = IsQuiet-or_throw _ _

pub IsQuiet-string : (limit : ℕ) → IsQuiet (string limit)
unfolding string
IsQuiet-string limit = search (IsQuiet->>=, IsQuiet-varint, IsQuiet-require, IsQuiet-or_throw)

pub IsStreaming-shrinks {ℓ} :
    {A : Type ℓ} (m : Reader A) (c r : List ℕ) (a : A)
    → IsStreaming m
    → m c ≡ ok (a, r)
    → length r ≤ length c
IsStreaming-shrinks m c r a h e =
    let x = h.reads c a r e in
    omega (arith, ap (λ (l : List ℕ). length l) x.split, length-append x.used r)

pub varint_shrinks : (c r : List ℕ) (v : ℕ) → varint c ≡ ok (v, r) → length r < length c
unfolding varint or_throw
varint_shrinks c r v e = read_varint_shrinks c v r (ground arith)

-- So does a reader that begins with one.
pub varint_first_shrinks {ℓ} :
    {B : Type ℓ} (f : ℕ → Reader B) (c r : List ℕ) (b : B)
    → ((a : ℕ) → IsStreaming (f a))
    → (varint >>= f) c ≡ ok (b, r)
    → length r < length c
varint_first_shrinks f c r b h e =
    let (v, s, p, q) = >>=-eq_ok varint f c b r e in
    omega (arith, varint_shrinks c s v p, IsStreaming-shrinks (f v) s r b (h v) q)

pub >>=-eq_err {ℓ κ} :
    {A : Type ℓ} {B : Type κ} (m : Reader A) (f : A → Reader B) (c : List ℕ) (x : Exception)
    → (m >>= f) c ≡ err x
    → (m c ≡ err x) ⊎ ((a : A) × (s : List ℕ) × (m c ≡ ok (a, s)) × (f a s ≡ err x))
unfolding ◌>>=◌
>>=-eq_err {A} {B} m f c x e = go (m c) refl
  where
    go :
        (o : Result (A × List ℕ))
        → m c ≡ o
        → (m c ≡ err x) ⊎ ((a : A) × (s : List ℕ) × (m c ≡ ok (a, s)) × (f a s ≡ err x))
    go (ok (a, s)) p = inr (a, s, p, rw (p, ◌>>=◌) at e)
    go (err y) p =
        let thrown : ◌≡◌ {A = Result (B × List ℕ)} (err y) (err x) = rw (p, ◌>>=◌) at e in
        inl (p ∙ ap err (ground (arith, thrown)))

-- A `std::runtime_error` of `decode` is one of its parse.
pub decode-eq_runtime {ℓ} :
    {A : Type ℓ} (parse : Reader A) (payload : List ℕ) (message : String)
    → decode parse payload ≡ err (runtime_error message)
    → parse payload ≡ err (runtime_error message)
unfolding decode
decode-eq_runtime {A} parse payload message e = go (parse payload) refl
  where
    go : (o : Result (A × List ℕ)) → parse payload ≡ o → parse payload ≡ err (runtime_error message)
    go (ok (a, [])) p =
        let bad : ◌≡◌ {A = Result A} (ok a) (err (runtime_error message)) = rw (p, decode) at e in
        cc
    go (ok (a, b ∷ r)) p =
        let bad : ◌≡◌ {A = Result A} (err _) (err (runtime_error message)) = rw (p, decode) at e in
        cc
    go (err y) p =
        let thrown : ◌≡◌ {A = Result A} (err y) (err (runtime_error message)) =
          rw (p, decode) at e in
        p ∙ ap err (ground (arith, thrown))
