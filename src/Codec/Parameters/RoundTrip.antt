-- ===== src/Codec/Parameters/RoundTrip.antt =====
-- `Reader::parameters` after `encode_parameters`.
use moqtopus.Common.{
  ℕ, zero, suc, ◌+◌, ◌-◌, ◌<◌, ◌%◌, ◌^◌, ◌≡◌, ◌⊎◌, inl, inr, refl, arith, length, leb, ◌==◌, Bool,
  true, false, not, ◌&&◌, ◌||◌, List, [], ◌∷◌, ◌++◌, All, some, ok, >>=-eq-ok, append_assoc,
  Bool-cases,
}
use moqtopus.Types.{Parameter, ParameterEncoding}
use moqtopus.Codec.Varint.{write_varint, IsU64}
use moqtopus.Codec.Reader.{
  parameter_encoding, skip_value, known_encoding, parameter_loop, parameters, pure, u64_max,
}
use moqtopus.Codec.Reader.Steps.{step, pure_lem, require-true, varint-write}
use moqtopus.Codec.Reader.Streaming.{captured-used}
use moqtopus.Codec.Parameters.{insert_sorted, stable_sort, is_none, encode_loop, encode_parameters}

-- A parameter that the protocol can carry: its type is a known uint64_t, and a reader of that type's
-- encoding goes over its value exactly.
pub record IsWellFormed (p : Parameter) : Type 0 where
  pub fits : IsU64 p.type
  pub encoding : ParameterEncoding
  pub known : parameter_encoding p.type ≡ some encoding
  pub exact : (more : List ℕ) → skip_value encoding (p.encoded_value ++ more) ≡ ok (tt, more)

known_encoding-some :
    (type : ℕ) (e : ParameterEncoding) (c : List ℕ)
    → parameter_encoding type ≡ some e
    → known_encoding type c ≡ ok (e, c)
unfolding known_encoding
known_encoding-some type e c h = rw (h, known_encoding) refl

known-pos : (type : ℕ) (e : ParameterEncoding) → parameter_encoding type ≡ some e → 0 < type
unfolding parameter_encoding
known-pos zero e h = cc
known-pos (suc type) e h = omega arith

-- What `encode_loop` writes for its first parameter, and what it has checked.
encode_loop-cons :
    (previous : ℕ) (p : Parameter) (ps : List Parameter) (bytes : List ℕ)
    → encode_loop previous (p ∷ ps) ≡ ok bytes
    → ((previous ≡ 0) ⊎ (previous < p.type))
      × (more : List ℕ) × (encode_loop p.type ps ≡ ok more)
      × (bytes ≡ write_varint ((p.type + 2 ^ 64 - previous) % 2 ^ 64) ++ (p.encoded_value ++ more))
unfolding encode_loop
encode_loop-cons previous p ps bytes e =
    elim (Bool-cases
      (not (previous == 0) && leb p.type previous || is_none (parameter_encoding p.type))) [
        | inl bad ↦ absurd (ground arith)
        | inr good ↦
            let (more, q, w) = >>=-eq-ok (encode_loop p.type ps) _ (rw good at e) in
            (ground arith, more, q, ground arith)
      ]

-- Where the loop of the reader stands: before the first parameter, or behind one of a known type.
abbrev Stands : Bool → ℕ → Type 0
Stands first type = ((first ≡ true) × (type ≡ 0)) ⊎ (0 < type)

parameter_loop-write :
    (ps : List Parameter) (first : Bool) (type : ℕ) (bytes rest : List ℕ)
    → Stands first type
    → IsU64 type
    → All IsWellFormed ps
    → encode_loop type ps ≡ ok bytes
    → parameter_loop (length ps) first type (bytes ++ rest) ≡ ok (ps, rest)
unfolding parameter_loop
parameter_loop-write [] first type bytes rest s u w e = unfold pure encode_loop in ground arith
parameter_loop-write (p ∷ ps) first type bytes rest s u (w, ws) e =
    let (ordered, more, q, written) = encode_loop-cons type p ps bytes e in
    let delta : ℕ = (p.type + 2 ^ 64 - type) % 2 ^ 64 in
    let pos = known-pos p.type w.encoding w.known in
    let fits = w.fits in
    let small : IsU64 delta = omega arith in
    let next : (type + delta) % 2 ^ 64 ≡ p.type = omega arith in
    let valid : (leb delta (u64_max - type) && (first || not (delta == 0))) ≡ true = ground arith in
    let split : bytes ++ rest ≡ write_varint delta ++ (p.encoded_value ++ (more ++ rest)) =
      rw (written, append_assoc, append_assoc) refl in
    rw split (
      step _ _ _ _ _ _ (varint-write delta (p.encoded_value ++ (more ++ rest)) small) (
        step _ _ _ _ _ _ (require-true _ _ _ valid) (
          rw next (
            step _ _ _ _ _ _ (known_encoding-some p.type w.encoding _ w.known) (
              step _ _ _ _ _ _ (captured-used _ p.encoded_value (more ++ rest) tt (w.exact _)) (
                step _ _ _ _ _ _
                  (parameter_loop-write ps false p.type more rest (inr pos) fits ws q)
                  (pure_lem _ _)))))))

All-insert {κ} :
    (P : Parameter → Type κ) (p : Parameter) (ps : List Parameter)
    → P p
    → All P ps
    → All P (insert_sorted p ps)
unfolding insert_sorted
All-insert P p [] h k = (h, tt)
All-insert P p (q ∷ qs) h (hq, k) = elim (Bool-cases (leb p.type q.type)) [
  | inl e ↦ rw e (h, (hq, k))
  | inr e ↦ rw e (hq, All-insert P p qs h k)
]

All-stable_sort {κ} :
    (P : Parameter → Type κ) (ps : List Parameter) → All P ps → All P (stable_sort ps)
unfolding stable_sort
All-stable_sort P [] h = tt
All-stable_sort P (p ∷ ps) (h, k) = All-insert P p (stable_sort ps) h (All-stable_sort P ps k)

length-insert_sorted :
    (p : Parameter) (ps : List Parameter) → length (insert_sorted p ps) ≡ suc (length ps)
unfolding insert_sorted
length-insert_sorted p [] = refl
length-insert_sorted p (q ∷ qs) = ground (arith, length-insert_sorted p qs)

length-stable_sort : (ps : List Parameter) → length (stable_sort ps) ≡ length ps
unfolding stable_sort
length-stable_sort [] = refl
length-stable_sort (p ∷ ps) =
    omega (arith, length-insert_sorted p (stable_sort ps), length-stable_sort ps)

-- Reader::parameters reads back well-formed parameters, fewer than 2^64 of them, that
-- encode_parameters wrote, ordered by their types, and leaves the bytes behind them.
pub parameters-encode :
    (ps : List Parameter) (bytes rest : List ℕ)
    → IsU64 (length ps)
    → All IsWellFormed ps
    → encode_parameters ps ≡ ok bytes
    → parameters (bytes ++ rest) ≡ ok (stable_sort ps, rest)
unfolding encode_parameters parameters
parameters-encode ps bytes rest u w e =
    let (body, p, q) = >>=-eq-ok (encode_loop 0 (stable_sort ps)) _ e in
    let written : write_varint (length ps) ++ body ≡ bytes = ground arith in
    rw (← written, append_assoc)
      (step _ _ _ _ _ _ (varint-write (length ps) (body ++ rest) u) (
        rw (← length-stable_sort ps) (
          parameter_loop-write (stable_sort ps) true 0 body rest (inl (refl, refl)) (omega arith)
            (All-stable_sort IsWellFormed ps w) p)))
