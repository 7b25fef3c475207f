-- ===== src/Codec/Reader/Streaming.antt =====
-- Every reader of a message takes a prefix of the bytes and would read the same value from that
-- prefix in front of any other bytes. `IsStreaming` says so, with a rule for each way to build one.
use moqtopus.Common.{
  if◌then◌else◌, ℕ, zero, suc, ◌-◌, ◌≡◌, refl, sym, ap, ◌∙◌, arith, length, Bool, true, false, List,
  [], ◌++◌, take, Option, some, append_assoc, length-append, take-append_exact,
}
use moqtopus.Common.{Result, ok, err}
use moqtopus.Types.{ParameterEncoding, ByteBuffer}
use moqtopus.Codec.Cursor.{Takes, read_byte-Takes, read_varint-Takes, read_view-Takes}
use Prim.Native.String.{String}
use moqtopus.Codec.Reader.{
  Reader, parameter_encoding, ◌>>=◌, pure, require, or_throw, varint, byte, view, string,
  namespace_fields, track_namespace, skip_value, captured, known_encoding, parameter_loop,
  parameters,
}

pub record Reads {ℓ} {A : Type ℓ} (m : Reader A) (c : List ℕ) (a : A) (r : List ℕ) : Type ℓ where
  pub used : List ℕ
  pub split : c ≡ used ++ r
  pub again : (more : List ℕ) → m (used ++ more) ≡ ok (a, more)

pub record IsStreaming {ℓ} {A : Type ℓ} (m : Reader A) : Type ℓ where
  pub reads : (c : List ℕ) (a : A) (r : List ℕ) → m c ≡ ok (a, r) → Reads m c a r

module _ {ℓ} {A : Type ℓ} where
  pub IsStreaming-pure : (a : A) → IsStreaming (pure a)
  unfolding pure
  IsStreaming-pure a = record {
    reads = λ c b r e. record { used = []; split = cc; again = λ more. cc };
  }

  IsStreaming-or_throw :
      (f : List ℕ → Option (A × List ℕ)) (s : String)
      → ((c : List ℕ) (a : A) (r : List ℕ) → f c ≡ some (a, r) → Takes f c a r)
      → IsStreaming (or_throw f s)
  unfolding or_throw
  IsStreaming-or_throw f s h = record {
    reads = λ c a r e.
        let t = h c a r (ground arith) in
        record { used = t.used; split = t.split; again = λ more. rw (t.again more, or_throw) refl };
  }

pub IsStreaming-require : (b : Bool) (s : String) → IsStreaming (require b s)
unfolding require
IsStreaming-require true s = record {
  reads = λ c b r e. record { used = []; split = cc; again = λ more. cc };
}
IsStreaming-require false s = record { reads = λ c b r e. absurd (cc) }

pub require-eq_ok :
    (b : Bool) (s : String) (c r : List ℕ) (u : Unit {0})
    → require b s c ≡ ok (u, r)
    → (b ≡ true) × (c ≡ r)
unfolding require
require-eq_ok true s c r u e = (refl, ground arith)
require-eq_ok false s c r u e = absurd (cc)

pub pure-eq_ok {ℓ} :
    {A : Type ℓ} (a b : A) (c r : List ℕ) → pure a c ≡ ok (b, r) → (a ≡ b) × (c ≡ r)
unfolding pure
pure-eq_ok a b c r e = (ground arith, ground arith)

module _ {ℓ κ} {A : Type ℓ} {B : Type κ} where
  pub >>=-eq_ok :
      (m : Reader A) (f : A → Reader B) (c : List ℕ) (b : B) (r : List ℕ)
      → (m >>= f) c ≡ ok (b, r)
      → (a : A) × (s : List ℕ) × (m c ≡ ok (a, s)) × (f a s ≡ ok (b, r))
  unfolding ◌>>=◌
  >>=-eq_ok m f c b r e = go (m c) refl
    where
      go :
          (o : Result (A × List ℕ))
          → m c ≡ o
          → (a : A) × (s : List ℕ) × (m c ≡ ok (a, s)) × (f a s ≡ ok (b, r))
      go (ok (a, s)) p = (a, s, p, rw (p, ◌>>=◌) at e)
      go (err x) p =
          let bad : ◌≡◌ {A = Result (B × List ℕ)} (err x) (ok (b, r)) = rw (p, ◌>>=◌) at e in cc

  pub >>=_ok :
      (m : Reader A) (f : A → Reader B) (c s : List ℕ) (a : A)
      → m c ≡ ok (a, s)
      → (m >>= f) c ≡ f a s
  unfolding ◌>>=◌
  >>=_ok m f c s a e = rw (e, ◌>>=◌) refl

  pub IsStreaming->>= :
      (m : Reader A) (f : A → Reader B)
      → IsStreaming m
      → ((a : A) → IsStreaming (f a))
      → IsStreaming (m >>= f)
  IsStreaming->>= m f hm hf = record {
    reads = λ c b r e.
        let (a, s, p, q) = >>=-eq_ok m f c b r e in
        let x = hm.reads c a s p in
        let y = (hf a).reads s b r q in
        record {
          used = x.used ++ y.used;
          split = x.split ∙ ap (◌++◌ x.used) y.split ∙ sym (append_assoc x.used y.used r);
          again = λ more.
              rw (append_assoc x.used y.used more)
                (>>=_ok m f _ _ a (x.again (y.used ++ more)) ∙ y.again more);
        };
  }

module _ {ℓ} {A : Type ℓ} (m : Reader A) where
  captured-eq_ok :
      (c v r : List ℕ)
      → captured m c ≡ ok (v, r)
      → (a : A) × (m c ≡ ok (a, r)) × (v ≡ take (length c - length r) c)
  unfolding captured
  captured-eq_ok c v r e = go (m c) refl
    where
      go :
          (o : Result (A × List ℕ))
          → m c ≡ o
          → (a : A) × (m c ≡ ok (a, r)) × (v ≡ take (length c - length r) c)
      go (ok (a, s)) p =
          let found : ok (take (length c - length s) c, s) ≡ ok (v, r) = rw (p, captured) at e in
          let same : s ≡ r = ground (arith, found) in (a, rw (← same) p, ground (arith, found))
      go (err x) p =
          let bad : ◌≡◌ {A = Result (ByteBuffer × List ℕ)} (err x) (ok (v, r)) =
            rw (p, captured) at e in
          cc

  -- What `captured` gives for a streaming reader is what that reader took.
  pub captured-used :
      (used more : List ℕ) (a : A)
      → m (used ++ more) ≡ ok (a, more)
      → captured m (used ++ more) ≡ ok (used, more)
  unfolding captured
  captured-used used more a e =
      let size : length (used ++ more) - length more ≡ length used =
        omega (arith, length-append used more) in
      rw (e, captured) (rw (size, take-append_exact (length used) used more refl) refl)

  IsStreaming-captured : IsStreaming m → IsStreaming (captured m)
  IsStreaming-captured h = record {
    reads = λ c v r e.
        let (a, p, q) = captured-eq_ok c v r e in
        let x = h.reads c a r p in
        let here : captured m (x.used ++ r) ≡ ok (x.used, r) =
          captured-used x.used r a (x.again r) in
        let same : v ≡ x.used = ground (arith, e, rw (← x.split) at here) in
        record {
          used = x.used;
          split = x.split;
          again = λ more. rw same (captured-used x.used more a (x.again more));
        };
  }

IsStreaming-known_encoding : (type : ℕ) → IsStreaming (known_encoding type)
unfolding known_encoding
IsStreaming-known_encoding type = record {
  reads = λ c v r e. record { used = []; split = ground arith; again = λ more. ground arith };
}

pub known_encoding-eq_ok :
    (type : ℕ) (c r : List ℕ) (e : ParameterEncoding)
    → known_encoding type c ≡ ok (e, r)
    → (parameter_encoding type ≡ some e) × (c ≡ r)
unfolding known_encoding
known_encoding-eq_ok type c r e h = (ground arith, ground arith)

pub IsStreaming-if {ℓ} :
    {A : Type ℓ} (b : Bool) (m n : Reader A)
    → IsStreaming m
    → IsStreaming n
    → IsStreaming (if b then m else n)
IsStreaming-if true m n p q = p
IsStreaming-if false m n p q = q

ruleset streaming_rules = (
  IsStreaming-pure, IsStreaming-require, IsStreaming->>=, IsStreaming-captured,
  IsStreaming-known_encoding,
)

pub IsStreaming-varint : IsStreaming varint
unfolding varint
IsStreaming-varint = IsStreaming-or_throw _ _ read_varint-Takes

IsStreaming-byte : IsStreaming byte
unfolding byte
IsStreaming-byte = IsStreaming-or_throw _ _ read_byte-Takes

IsStreaming-view : (n : ℕ) → IsStreaming (view n)
unfolding view
IsStreaming-view n = IsStreaming-or_throw _ _ (read_view-Takes n)

pub IsStreaming-string : (limit : ℕ) → IsStreaming (string limit)
unfolding string
IsStreaming-string limit =
    search (streaming_rules, IsStreaming-varint, IsStreaming-or_throw, read_view-Takes)

IsStreaming-namespace_fields : (n total : ℕ) → IsStreaming (namespace_fields n total)
unfolding namespace_fields
IsStreaming-namespace_fields zero total = IsStreaming-pure []
IsStreaming-namespace_fields (suc n) total =
    search (streaming_rules, IsStreaming-string, λ (t : ℕ). IsStreaming-namespace_fields n t) depth
      8

IsStreaming-track_namespace : IsStreaming track_namespace
unfolding track_namespace
IsStreaming-track_namespace =
    search (streaming_rules, IsStreaming-varint, IsStreaming-namespace_fields) depth 8

IsStreaming-skip_value : (e : ParameterEncoding) → IsStreaming (skip_value e)
unfolding skip_value
IsStreaming-skip_value ParameterEncoding.uint8 = search (streaming_rules, IsStreaming-byte)
IsStreaming-skip_value ParameterEncoding.varint = search (streaming_rules, IsStreaming-varint)
IsStreaming-skip_value ParameterEncoding.location = search (streaming_rules, IsStreaming-varint)
IsStreaming-skip_value ParameterEncoding.length_prefixed =
    search (streaming_rules, IsStreaming-varint, IsStreaming-view)
IsStreaming-skip_value ParameterEncoding.track_namespace =
    search (streaming_rules, IsStreaming-track_namespace)

IsStreaming-parameter_loop :
    (n : ℕ) (first : Bool) (type : ℕ) → IsStreaming (parameter_loop n first type)
unfolding parameter_loop
IsStreaming-parameter_loop zero first type = IsStreaming-pure []
IsStreaming-parameter_loop (suc n) first type =
    search
      (
        streaming_rules,
        IsStreaming-varint,
        IsStreaming-skip_value,
        λ (b : Bool) (t : ℕ). IsStreaming-parameter_loop n b t,
      )
      depth 10

IsStreaming-parameters : IsStreaming parameters
unfolding parameters
IsStreaming-parameters = search (streaming_rules, IsStreaming-varint, IsStreaming-parameter_loop)
