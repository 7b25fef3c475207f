-- ===== src/Codec/Namespace.antt =====
-- `write_track_namespace` of src/codec/codec.cpp, and `Reader::track_namespace` after it.
use moqtopus.Common.{
  ℕ, zero, suc, ◌+◌, ◌≤◌, ◌≡◌, refl, arith, length, ltb, leb, true, false, not, ◌&&◌, ◌||◌, List,
  [], ◌∷◌, ◌++◌, All, if◌then◌else◌, is_empty, Result, ok, err, invalid_argument, append_assoc,
  Bool-cases, inl, inr,
}
use moqtopus.Common.{◌>>=◌, >>=-eq-ok}
use moqtopus.Types.{ByteBuffer, TrackNamespace}
use moqtopus.Codec.Varint.{write_varint}
use moqtopus.Codec.Reader.{string, namespace_fields, track_namespace, pure, require, varint}
use moqtopus.Codec.Reader.Steps.{step, pure_lem, require-true, varint-write, string-write}
use moqtopus.Codec.Reader.Streaming.{>>=-eq_ok, require-eq_ok, pure-eq_ok}

-- The loop: `total` is `total_size`.
unfoldable pub write_fields : ℕ → TrackNamespace → Result ByteBuffer
write_fields total [] = ok []
write_fields total (field ∷ fields) =
    let rest = write_fields (total + length field) fields in
    if is_empty field || ltb 4096 (total + length field)
    then err (invalid_argument "invalid MOQT track namespace field")
    else (do bytes ← rest; ok (write_varint (length field) ++ (field ++ bytes)))

-- What `write_track_namespace` appends.
unfoldable pub write_track_namespace : TrackNamespace → Result ByteBuffer
write_track_namespace ns =
    if ltb 32 (length ns)
    then err (invalid_argument "MOQT track namespace has more than 32 fields")
    else (do bytes ← write_fields 0 ns; ok (write_varint (length ns) ++ bytes))

-- What a written list of fields is made of.
write_fields-cons :
    (total : ℕ) (f : List ℕ) (fs : TrackNamespace) (bytes : List ℕ)
    → write_fields total (f ∷ fs) ≡ ok bytes
    → (is_empty f ≡ false)
      × (total + length f ≤ 4096)
      × (more : List ℕ) × (write_fields (total + length f) fs ≡ ok more)
      × (bytes ≡ write_varint (length f) ++ (f ++ more))
unfolding write_fields
write_fields-cons total f fs bytes e =
    elim (Bool-cases (is_empty f || ltb 4096 (total + length f))) [
      | inl bad ↦ absurd (ground arith)
      | inr good ↦
          let (more, p, q) = >>=-eq-ok (write_fields (total + length f) fs) _ (rw good at e) in
          (ground arith, ground arith, more, p, ground arith)
    ]

namespace_fields-write :
    (ns : TrackNamespace) (total : ℕ) (bytes rest : List ℕ)
    → write_fields total ns ≡ ok bytes
    → namespace_fields (length ns) total (bytes ++ rest) ≡ ok (ns, rest)
unfolding namespace_fields
namespace_fields-write [] total bytes rest e = unfold pure write_fields in ground arith
namespace_fields-write (f ∷ fs) total bytes rest e =
    let (filled, fits, more, p, q) = write_fields-cons total f fs bytes e in
    let valid : (not (is_empty f) && leb (total + length f) 4096) ≡ true = ground arith in
    let split : bytes ++ rest ≡ write_varint (length f) ++ (f ++ (more ++ rest)) =
      rw (q, append_assoc, append_assoc) refl in
    rw split (
      step _ _ _ _ _ _ (string-write 4096 f (more ++ rest) (omega arith) (omega arith)) (
        step _ _ _ _ _ _ (require-true _ _ _ valid) (
          step _ _ _ _ _ _ (namespace_fields-write fs (total + length f) more rest p)
            (pure_lem _ _))))

-- Reader::track_namespace reads back every namespace that write_track_namespace accepts, and
-- leaves the bytes behind it.
pub track_namespace-write :
    (ns : TrackNamespace) (bytes rest : List ℕ)
    → write_track_namespace ns ≡ ok bytes
    → track_namespace (bytes ++ rest) ≡ ok (ns, rest)
unfolding write_track_namespace track_namespace
track_namespace-write ns bytes rest e = elim (Bool-cases (ltb 32 (length ns))) [
  | inl bad ↦ absurd (ground arith)
  | inr good ↦
      let (body, p, q) = >>=-eq-ok (write_fields 0 ns) _ (rw good at e) in
      let written : write_varint (length ns) ++ body ≡ bytes = ground arith in
      rw (← written, append_assoc)
        (step _ _ _ _ _ _ (varint-write (length ns) (body ++ rest) (ground arith)) (
          step _ _ _ _ _ _ (require-true _ _ _ (ground arith))
            (namespace_fields-write ns 0 body rest p)))
]

-- The bytes of all fields.
abbrev pub total_size : TrackNamespace → ℕ
total_size [] = 0
total_size (f ∷ fs) = length f + total_size fs

namespace_fields_bounds :
    (n total : ℕ) (c : List ℕ) (ns : TrackNamespace) (r : List ℕ)
    → total ≤ 4096
    → namespace_fields n total c ≡ ok (ns, r)
    → (length ns ≡ n) × All (λ f. 1 ≤ length f) ns × (total + total_size ns ≤ 4096)
unfolding namespace_fields
namespace_fields_bounds zero total c ns r t e =
    let (same, _) = pure-eq_ok [] ns c r e in rw (← same) (refl, tt, omega arith)
namespace_fields_bounds (suc n) total c ns r t e =
    let (f, s1, p1, q1) = >>=-eq_ok (string 4096) _ c ns r e in
    let (u, s2, p2, q2) = >>=-eq_ok (require _ _) _ s1 ns r q1 in
    let (fs, s3, p3, q3) = >>=-eq_ok (namespace_fields n _) _ s2 ns r q2 in
    let (valid, _) = require-eq_ok _ _ s1 s2 u p2 in
    let (same, _) = pure-eq_ok (f ∷ fs) ns s3 r q3 in
    let (count, filled, size) =
      namespace_fields_bounds n (total + length f) s2 fs s3 (ground arith) p3 in
    rw (← same) (omega arith, (first f (ground arith), filled), omega arith)
  where
    first : (f : List ℕ) → is_empty f ≡ false → 1 ≤ length f
    first [] h = absurd (cc)
    first (x ∷ f) h = omega arith

-- Reader::track_namespace accepts at most 32 fields, none of them empty, with at most 4096 bytes
-- together.
pub track_namespace_bounds :
    (c : List ℕ) (ns : TrackNamespace) (r : List ℕ)
    → track_namespace c ≡ ok (ns, r)
    → (length ns ≤ 32) × All (λ f. 1 ≤ length f) ns × (total_size ns ≤ 4096)
unfolding track_namespace
track_namespace_bounds c ns r e =
    let (count, s1, p1, q1) = >>=-eq_ok varint _ c ns r e in
    let (u, s2, p2, q2) = >>=-eq_ok (require _ _) _ s1 ns r q1 in
    let (valid, _) = require-eq_ok _ _ s1 s2 u p2 in
    let (n, filled, size) = namespace_fields_bounds count 0 s2 ns r (omega arith) q2 in
    (ground arith, filled, omega arith)
