-- ===== src/Codec/Parameters/Order.antt =====
-- What `Reader::parameters` accepts, and which lists `encode_parameters` refuses.
use moqtopus.Common.{
  ℕ, zero, suc, ◌+◌, ◌-◌, ◌<◌, ◌%◌, ◌^◌, ◌≡◌, ◌⊎◌, refl, ap, arith, length, leb, ◌==◌, Bool, true,
  false, not, ◌&&◌, ◌||◌, List, [], ◌∷◌, ok,
}
use moqtopus.Types.{Parameter}
use moqtopus.Codec.Varint.{IsU64}
use moqtopus.Codec.Reader.{
  parameter_encoding, captured, known_encoding, u64_max, parameter_loop, parameters, varint,
  require,
}
use moqtopus.Codec.Reader.Streaming.{>>=-eq_ok, require-eq_ok, pure-eq_ok, known_encoding-eq_ok}
use moqtopus.Codec.Parameters.{is_none}

-- The types rise from `type` on, strictly behind the first one, and all of them are known.
abbrev pub Ascending : Bool → ℕ → List Parameter → Type 0
Ascending first type [] = Unit
Ascending first type (p ∷ ps) =
    ((first ≡ true) ⊎ (type < p.type))
    × IsU64 p.type
    × (is_none (parameter_encoding p.type) ≡ false)
    × Ascending false p.type ps

parameter_loop-Ascending :
    (n : ℕ) (first : Bool) (type : ℕ) (c r : List ℕ) (ps : List Parameter)
    → IsU64 type
    → parameter_loop n first type c ≡ ok (ps, r)
    → (length ps ≡ n) × Ascending first type ps
unfolding parameter_loop
parameter_loop-Ascending zero first type c r ps u e =
    let (same, _) = pure-eq_ok [] ps c r e in rw (← same) (refl, tt)
parameter_loop-Ascending (suc n) first type c r ps u e =
    let (delta, s1, p1, q1) = >>=-eq_ok varint _ c ps r e in
    let (v, s2, p2, q2) = >>=-eq_ok (require _ _) _ s1 ps r q1 in
    let (enc, s3, p3, q3) = >>=-eq_ok (known_encoding _) _ s2 ps r q2 in
    let (val, s4, p4, q4) = >>=-eq_ok (captured _) _ s3 ps r q3 in
    let (rest, s5, p5, q5) = >>=-eq_ok (parameter_loop n false _) _ s4 ps r q4 in
    let (valid, _) = require-eq_ok _ _ s1 s2 v p2 in
    let (same, _) = pure-eq_ok _ ps s5 r q5 in
    let (known, _) = known_encoding-eq_ok _ s2 s3 enc p3 in
    let (count, more) =
      parameter_loop-Ascending n false ((type + delta) % 2 ^ 64) s4 s5 rest (omega arith) p5 in
    let (rises, fits) = next_type first type delta u valid in
    rw (← same) (ap suc count, (rises, fits, rw known refl, more))
  where
    next_type :
        (first : Bool) (type delta : ℕ)
        → IsU64 type
        → (leb delta (u64_max - type) && (first || not (delta == 0))) ≡ true
        → ((first ≡ true) ⊎ (type < (type + delta) % 2 ^ 64)) × IsU64 ((type + delta) % 2 ^ 64)
    next_type first type delta u h = (ground arith, omega arith)

-- Reader::parameters returns parameters of known 64-bit types only, each strictly above the one
-- before.
pub parameters-Ascending :
    (c r : List ℕ) (ps : List Parameter) → parameters c ≡ ok (ps, r) → Ascending true 0 ps
unfolding parameters
parameters-Ascending c r ps e =
    let (n, s, p, q) = >>=-eq_ok varint _ c ps r e in
    (parameter_loop-Ascending n true 0 s r ps (omega arith) q).1
