-- ===== src/Receive/Parse/Streaming.antt =====
-- The parsers of src/data_plane.cpp on a stream: what one answers for some bytes it answers with any
-- bytes behind them, and what is left over is never more than there was.
use moqtopus.Common.{
  ℕ, ◌≤◌, ◌<◌, ◌≡◌, refl, ap, ◌∙◌, arith, length, length-append, append_assoc, ◌==◌, Bool, true,
  false, List, [], ◌++◌, Option, none, some, if◌then◌else◌,
}
use moqtopus.Types.{ByteBuffer}
use moqtopus.Codec.Cursor
use moqtopus.Codec.Cursor.{
  Takes, read_byte-Takes, read_varint-Takes, read_view-Takes, read_varint_shrinks,
}
use moqtopus.Receive.{Fault}
use moqtopus.Receive.Parse.{
  Parse, Parser, done, need_more_data, failed, ◌>>=◌, pure, want, check, varint, byte, view,
  read_properties, ObjectFields, object_properties, object_status, object_body, parse_object_fields,
  read_subgroup_id, read_priority, parse_header_fields,
}

pub record IsSteady {ℓ} {A : Type ℓ} (m : Parser A) : Type ℓ where
  pub onward :
      (c more : List ℕ) (a : A) (r : List ℕ)
      → m c ≡ done (a, r)
      → m (c ++ more) ≡ done (a, r ++ more)
  pub errs : (c more : List ℕ) (e : Fault) → m c ≡ failed e → m (c ++ more) ≡ failed e
  pub shrinks : (c : List ℕ) (a : A) (r : List ℕ) → m c ≡ done (a, r) → length r ≤ length c

module _ {ℓ} {A : Type ℓ} where
  IsSteady-pure : (a : A) → IsSteady (pure a)
  unfolding pure
  IsSteady-pure a = record {
    onward = λ c more b r e. ground arith;
    errs = λ c more x e. ground arith;
    shrinks = λ c b r e. ground arith;
  }

  want-eq_done :
      (f : List ℕ → Option (A × List ℕ)) (c : List ℕ) (a : A) (r : List ℕ)
      → want f c ≡ done (a, r)
      → f c ≡ some (a, r)
  unfolding want
  want-eq_done f c a r e = ground arith

  IsSteady-want :
      (f : List ℕ → Option (A × List ℕ))
      → ((c : List ℕ) (a : A) (r : List ℕ) → f c ≡ some (a, r) → Takes f c a r)
      → IsSteady (want f)
  unfolding want
  IsSteady-want f h = record {
    onward = λ c more a r e.
        let t = h c a r (want-eq_done f c a r e) in
        let again : f (c ++ more) ≡ some (a, r ++ more) =
          rw (t.split, append_assoc t.used r more) (t.again (r ++ more)) in
        rw (again, want) refl;
    errs = λ c more x e. ground arith;
    shrinks = λ c a r e.
        let t = h c a r (want-eq_done f c a r e) in
        omega (arith, ap (λ (l : List ℕ). length l) t.split, length-append t.used r);
  }

IsSteady-check : (b : Bool) (fault : Fault) → IsSteady (check b fault)
unfolding check
IsSteady-check true fault = record {
  onward = λ c more b r e. ground arith;
  errs = λ c more x e. ground arith;
  shrinks = λ c b r e. ground arith;
}
IsSteady-check false fault = record {
  onward = λ c more b r e. ground arith;
  errs = λ c more x e. ground arith;
  shrinks = λ c b r e. ground arith;
}

pub IsSteady-if {ℓ} :
    {A : Type ℓ} (b : Bool) (m n : Parser A)
    → IsSteady m
    → IsSteady n
    → IsSteady (if b then m else n)
IsSteady-if true m n p q = p
IsSteady-if false m n p q = q

module _ {ℓ κ} {A : Type ℓ} {B : Type κ} (m : Parser A) (f : A → Parser B) where
  >>=_done : (c s : List ℕ) (a : A) → m c ≡ done (a, s) → (m >>= f) c ≡ f a s
  unfolding ◌>>=◌
  >>=_done c s a e = rw (e, ◌>>=◌) refl

  >>=_failed : (c : List ℕ) (x : Fault) → m c ≡ failed x → (m >>= f) c ≡ failed x
  unfolding ◌>>=◌
  >>=_failed c x e = rw (e, ◌>>=◌) refl

  >>=-eq_done :
      (c : List ℕ) (b : B) (r : List ℕ)
      → (m >>= f) c ≡ done (b, r)
      → (a : A) × (s : List ℕ) × (m c ≡ done (a, s)) × (f a s ≡ done (b, r))
  unfolding ◌>>=◌
  >>=-eq_done c b r e = go (m c) refl
    where
      go :
          (o : Parse (A × List ℕ))
          → m c ≡ o
          → (a : A) × (s : List ℕ) × (m c ≡ done (a, s)) × (f a s ≡ done (b, r))
      go (done (a, s)) p = (a, s, p, rw (p, ◌>>=◌) at e)
      go need_more_data p =
          let bad : ◌≡◌ {A = Parse (B × List ℕ)} need_more_data (done (b, r)) =
            rw (p, ◌>>=◌) at e in
          cc
      go (failed x) p =
          let bad : ◌≡◌ {A = Parse (B × List ℕ)} (failed x) (done (b, r)) = rw (p, ◌>>=◌) at e in cc

  IsSteady->>= : IsSteady m → ((a : A) → IsSteady (f a)) → IsSteady (m >>= f)
  unfolding ◌>>=◌
  IsSteady->>= hm hf = record {
    onward = λ c more b r e.
        let (a, s, p, q) = >>=-eq_done c b r e in
        >>=_done _ _ a (hm.onward c more a s p) ∙ (hf a).onward s more b r q;
    errs = errs;
    shrinks = λ c b r e.
        let (a, s, p, q) = >>=-eq_done c b r e in
        omega (arith, hm.shrinks c a s p, (hf a).shrinks s b r q);
  }
    where
      errs :
          (c more : List ℕ) (x : Fault) → (m >>= f) c ≡ failed x → (m >>= f) (c ++ more) ≡ failed x
      errs c more x e = go (m c) refl
        where
          go : (o : Parse (A × List ℕ)) → m c ≡ o → (m >>= f) (c ++ more) ≡ failed x
          go (done (a, s)) p =
              >>=_done _ _ a (hm.onward c more a s p) ∙ (hf a).errs s more x (rw (p, ◌>>=◌) at e)
          go need_more_data p =
              let bad : ◌≡◌ {A = Parse (B × List ℕ)} need_more_data (failed x) =
                rw (p, ◌>>=◌) at e in
              cc
          go (failed y) p =
              let same : ◌≡◌ {A = Parse (B × List ℕ)} (failed y) (failed x) = rw (p, ◌>>=◌) at e in
              >>=_failed _ x (hm.errs c more x (ground (arith, p, same)))

ruleset steady_rules = (IsSteady-pure, IsSteady-check, IsSteady->>=)

IsSteady-varint : IsSteady varint
unfolding varint
IsSteady-varint = IsSteady-want _ read_varint-Takes

IsSteady-byte : IsSteady byte
unfolding byte
IsSteady-byte = IsSteady-want _ read_byte-Takes

IsSteady-view : (n : ℕ) → IsSteady (view n)
unfolding view
IsSteady-view n = IsSteady-want _ (read_view-Takes n)

IsSteady-read_properties : (fault : Fault) (b : Bool) → IsSteady (read_properties fault b)
unfolding read_properties
IsSteady-read_properties fault b = search (steady_rules, IsSteady-varint, IsSteady-view) depth 8

IsSteady-object_properties : (b : Bool) → IsSteady (object_properties b)
unfolding object_properties
IsSteady-object_properties b =
    IsSteady-if b _ _ (IsSteady-read_properties _ false) (IsSteady-pure [])

IsSteady-object_status : (stream : ℕ) (p : ByteBuffer) → IsSteady (object_status stream p)
unfolding object_status
IsSteady-object_status stream p = search (steady_rules, IsSteady-varint) depth 8

IsSteady-object_body :
    (stream delta : ℕ) (p : ByteBuffer) (size : ℕ) → IsSteady (object_body stream delta p size)
unfolding object_body
IsSteady-object_body stream delta p size =
    IsSteady-if (size == 0) _ _ (search (steady_rules, IsSteady-object_status) depth 8)
      (search (steady_rules, IsSteady-view) depth 8)

pub IsSteady-parse_object_fields :
    (stream : ℕ) (per_object : Bool) → IsSteady (parse_object_fields stream per_object)
unfolding parse_object_fields
IsSteady-parse_object_fields stream per_object =
    search (steady_rules, IsSteady-varint, IsSteady-object_properties, IsSteady-object_body) depth
      10

IsSteady-explicit_id : IsSteady (varint >>= λ id. pure (some id))
IsSteady-explicit_id = search (steady_rules, IsSteady-varint) depth 8

IsSteady-read_subgroup_id : (type : ℕ) → IsSteady (read_subgroup_id type)
unfolding read_subgroup_id
IsSteady-read_subgroup_id type =
    IsSteady-if _ _ _ IsSteady-explicit_id
      (IsSteady-if _ _ _ (IsSteady-pure (some 0)) (IsSteady-pure none))

IsSteady-read_priority : (type : ℕ) → IsSteady (read_priority type)
unfolding read_priority
IsSteady-read_priority type = IsSteady-if _ _ _ (IsSteady-pure 128) IsSteady-byte

IsSteady-parse_header_fields : IsSteady parse_header_fields
unfolding parse_header_fields
IsSteady-parse_header_fields =
    search (steady_rules, IsSteady-varint, IsSteady-read_subgroup_id, IsSteady-read_priority) depth
      14

varint_shrinks : (c : List ℕ) (v : ℕ) (r : List ℕ) → varint c ≡ done (v, r) → length r < length c
unfolding varint
varint_shrinks c v r e = read_varint_shrinks c v r (want-eq_done Cursor.read_varint c v r e)

-- A parsed object takes a byte at least.
pub parse_object_fields_shrinks :
    (stream : ℕ) (per_object : Bool) (c : List ℕ) (f : ObjectFields) (r : List ℕ)
    → parse_object_fields stream per_object c ≡ done (f, r)
    → length r < length c
unfolding parse_object_fields
parse_object_fields_shrinks stream per_object c f r e =
    let (delta, s, p, q) = >>=-eq_done varint _ c f r e in
    let rest : IsSteady (λ (s : List ℕ).
      ((object_properties per_object >>= λ properties.
      varint >>= λ size. object_body stream delta properties size)
        s)) =
      search (steady_rules, IsSteady-varint, IsSteady-object_properties, IsSteady-object_body) depth
        10 in
    omega (arith, varint_shrinks c delta s p, rest.shrinks s f r q)
