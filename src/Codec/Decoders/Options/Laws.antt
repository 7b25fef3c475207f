-- ===== src/Codec/Decoders/Options/Laws.antt =====
-- What a subscription may ask for, once `decode_subscription_options` has accepted it.
use moqtopus.Common.{
  leb→le, All, ℕ, ◌+◌, ◌-◌, ◌≤◌, ◌<◌, ◌^◌, ◌≡◌, ◌∙◌, arith, leb, ◌==◌, ◌&&◌, true, List, [], ◌∷◌,
  Option, some, none, ok, >>=-eq-ok, Bool-cases, inl, inr,
}
use moqtopus.Types.{Location, Parameter}
use moqtopus.Codec.Varint.{IsU64, IsByte}
use moqtopus.Codec.Reader.{discard, remaining_view, require, varint, byte, decode, u64_max}
use moqtopus.Codec.Reader.Streaming.{
  IsStreaming, IsStreaming-if, IsStreaming->>=, IsStreaming-varint, IsStreaming-pure, >>=-eq_ok,
  require-eq_ok, pure-eq_ok,
}
use moqtopus.Codec.Reader.Bytes.{left-IsByte, varint-IsU64}
use moqtopus.Codec.Reader.Steps.{decode-eq_ok}
use moqtopus.Codec.Decoders.Options.{
  read_start, read_delta, read_timeout, parameter_forward, parameter_group_order,
  parameter_subscription_filter, parameter_subgroup_delivery_timeout,
  parameter_object_delivery_timeout, SubscriptionFilter, SubscriptionOptions, remaining,
  read_location, read_filter, read_forward, read_group_order, read_parameter,
  decode_subscription_options, filter_next_group_start, filter_absolute_range,
  filter_absolute_start,
}

-- A known filter type, and an end group that is a uint64_t.
pub record IsValidFilter (f : SubscriptionFilter) : Type 0 where
  pub known : (1 ≤ f.filter_type) × (f.filter_type ≤ 4)
  pub fits : f.start.group + f.end_group_delta < 2 ^ 64

abbrev pub Each {ℓ κ} : {A : Type ℓ} → (A → Type κ) → Option A → Type κ
Each P none = Unit
Each P (some a) = P a

-- FORWARD is 0 or 1, and a filter is valid.
pub record IsValidOptions (o : SubscriptionOptions) : Type 0 where
  pub forward : Each (λ v. v ≤ 1) o.forward
  pub filter : Each IsValidFilter o.filter

read_start-IsStreaming : (type : ℕ) → IsStreaming (read_start type)
unfolding read_start read_location
read_start-IsStreaming type =
    search (IsStreaming-if, IsStreaming->>=, IsStreaming-varint, IsStreaming-pure) depth 8

read_start-IsU64 :
    (type : ℕ) (c r : List ℕ) (l : Location)
    → All IsByte c
    → read_start type c ≡ ok (l, r)
    → IsU64 l.group
unfolding read_start read_location
read_start-IsU64 type c r l b e = elim (Bool-cases (leb filter_absolute_start type)) [
  | inl long ↦
      let (group, s, p, q) = >>=-eq_ok varint _ c l r (rw long at e) in
      let (object, s2, p2, q2) = >>=-eq_ok varint _ s l r q in
      let (same, _) = pure-eq_ok _ l s2 r q2 in rw (← same) (varint-IsU64 c s group b p)
  | inr short ↦ let (same, _) = pure-eq_ok _ l c r (rw short at e) in rw (← same) (omega arith)
]

remaining-eq_ok : (c r : List ℕ) (n : ℕ) → remaining c ≡ ok (n, r) → c ≡ r
unfolding remaining
remaining-eq_ok c r n e = (pure-eq_ok _ n c r e).1

read_filter-IsValid :
    (c r : List ℕ) (f : SubscriptionFilter)
    → All IsByte c
    → read_filter c ≡ ok (f, r)
    → IsValidFilter f
unfolding read_filter
read_filter-IsValid c r f b e =
    let (size, s1, p1, q1) = >>=-eq_ok varint _ c f r e in
    let (left, s2, p2, q2) = >>=-eq_ok remaining _ s1 f r q1 in
    let (u3, s3, p3, q3) = >>=-eq_ok (require _ _) _ s2 f r q2 in
    let (type, s4, p4, q4) = >>=-eq_ok varint _ s3 f r q3 in
    let (u5, s5, p5, q5) = >>=-eq_ok (require _ _) _ s4 f r q4 in
    let (start, s6, p6, q6) = >>=-eq_ok (read_start type) _ s5 f r q5 in
    let (delta, s7, p7, q7) = >>=-eq_ok (read_delta type) _ s6 f r q6 in
    let (u8, s8, p8, q8) = >>=-eq_ok (require _ _) _ s7 f r q7 in
    let (_, same3) = require-eq_ok _ _ s2 s3 u3 p3 in
    let (known, same5) = require-eq_ok _ _ s4 s5 u5 p5 in
    let (fits, _) = require-eq_ok _ _ s7 s8 u8 p8 in
    let (same, _) = pure-eq_ok _ f s8 r q8 in
    let b1 = left-IsByte varint c s1 size IsStreaming-varint b p1 in
    let b3 : All IsByte s3 = rw (remaining-eq_ok s1 s2 left p2 ∙ same3) at b1 in
    let b4 = left-IsByte varint s3 s4 type IsStreaming-varint b3 p4 in
    let group = read_start-IsU64 type s5 s6 start (rw same5 at b4) p6 in
    rw (← same) (valid type start delta known fits group)
  where
    valid :
        (type : ℕ) (start : Location) (delta : ℕ)
        → (leb filter_next_group_start type && leb type filter_absolute_range) ≡ true
        → leb delta (u64_max - start.group) ≡ true
        → IsU64 start.group
        → IsValidFilter (record { filter_type = type; start = start; end_group_delta = delta })
    valid type start delta h k u = record {
      known = (ground arith, ground arith);
      fits = ground arith;
    }

read_forward_bounds : (c r : List ℕ) (v : ℕ) → read_forward c ≡ ok (v, r) → v ≤ 1
unfolding read_forward
read_forward_bounds c r v e =
    let (x, s, p, q) = >>=-eq_ok byte _ c v r e in
    let (u, s2, p2, q2) = >>=-eq_ok (require _ _) _ s v r q in
    let (small, _) = require-eq_ok _ _ s s2 u p2 in
    let (same, _) = pure-eq_ok x v s2 r q2 in rw (← same) (leb→le x 1 small)

read_timeout-IsValid :
    (o after : SubscriptionOptions) (type : ℕ) (c r : List ℕ)
    → IsValidOptions o
    → read_timeout o type c ≡ ok (after, r)
    → IsValidOptions after
unfolding read_timeout
read_timeout-IsValid o after type c r v e =
    elim (Bool-cases (type == parameter_subgroup_delivery_timeout)) [
      | inl t ↦
          let (x, s, p, q) = >>=-eq_ok varint _ c after r (rw t at e) in
          rw (← (pure-eq_ok _ after s r q).0) (record { forward = v.forward; filter = v.filter })
      | inr f ↦ elim (Bool-cases (type == parameter_object_delivery_timeout)) [
        | inl t ↦
            let (x, s, p, q) = >>=-eq_ok varint _ c after r (rw (f, t) at e) in
            rw (← (pure-eq_ok _ after s r q).0) (record { forward = v.forward; filter = v.filter })
        | inr g ↦
            let (x, s, p, q) = >>=-eq_ok (discard remaining_view) _ c after r (rw (f, g) at e) in
            rw (← (pure-eq_ok _ after s r q).0) v
      ]
    ]

-- One parameter keeps the options valid.
read_parameter-IsValid :
    (o after : SubscriptionOptions) (type : ℕ) (c r : List ℕ)
    → All IsByte c
    → IsValidOptions o
    → read_parameter o type c ≡ ok (after, r)
    → IsValidOptions after
unfolding read_parameter
read_parameter-IsValid o after type c r b v e = elim (Bool-cases (type == parameter_forward)) [
  | inl t ↦
      let (x, s, p, q) = >>=-eq_ok read_forward _ c after r (rw t at e) in
      rw (← (pure-eq_ok _ after s r q).0)
        (record { forward = read_forward_bounds c s x p; filter = v.filter })
  | inr f ↦ elim (Bool-cases (type == parameter_group_order)) [
    | inl t ↦
        let (x, s, p, q) = >>=-eq_ok read_group_order _ c after r (rw (f, t) at e) in
        rw (← (pure-eq_ok _ after s r q).0) v
    | inr g ↦ elim (Bool-cases (type == parameter_subscription_filter)) [
      | inl t ↦
          let (x, s, p, q) = >>=-eq_ok read_filter _ c after r (rw (f, g, t) at e) in
          rw (← (pure-eq_ok _ after s r q).0)
            (record { forward = v.forward; filter = read_filter-IsValid c s x b p })
      | inr h ↦ read_timeout-IsValid o after type c r v (rw (f, g, h) at e)
    ]
  ]
]

-- Options that decode_subscription_options accepts from parameters made of bytes are valid, if
-- those that it began with are: a FORWARD of 0 or 1, a known filter type, and an end group that
-- fits 64 bits.
pub decode_subscription_options-IsValid :
    (ps : List Parameter) (before after : SubscriptionOptions)
    → All (λ p. All IsByte p.encoded_value) ps
    → IsValidOptions before
    → decode_subscription_options ps before ≡ ok after
    → IsValidOptions after
unfolding decode_subscription_options
decode_subscription_options-IsValid [] before after b v e =
    let same : before ≡ after = ground arith in rw (← same) v
decode_subscription_options-IsValid (p ∷ ps) before after (b, bs) v e =
    let (next, d, q) = >>=-eq-ok (decode (read_parameter before p.type) p.encoded_value) _ e in
    decode_subscription_options-IsValid ps next after bs
      (read_parameter-IsValid before next p.type p.encoded_value [] b v (decode-eq_ok _ _ next d)) q
