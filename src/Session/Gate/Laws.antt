-- ===== src/Session/Gate/Laws.antt =====
-- The receive events that the first bytes of a peer's stream are split into, in src/session.cpp.
use moqtopus.Common.{
  length, drop-append_le, ◌≤◌, ◌⊎◌, ◌≢◌, ℕ, ◌≡◌, refl, sym, arith, Bool, true, false, ◌&&◌, ◌||◌,
  ◌==◌, List, [], ◌∷◌, ◌++◌, append_assoc, drop, if◌then◌else◌, inl, inr, Bool-cases, Result, ok,
  err,
}
use moqtopus.Types.{ByteBuffer}
use moqtopus.Codec.Varint.{DecodeStatus, read_varint}
use moqtopus.Codec.Varint.Prefix.{read_varint-append, read_varint_cases}
use moqtopus.Codec.Framing.{read_control_message}
use moqtopus.Codec.Decoders.Setup.{decode_setup}
use moqtopus.Codec.Objects.{is_subgroup_stream_type}
use moqtopus.Receive.Datagram.{all_zero}
use moqtopus.Receive.Subgroup.{concat}
use moqtopus.Session.Gate.{
  unknown_stream_type, data_stream, padding_not_zero, malformed_setup, peer_request, peer_setup,
  Mode, Gate, Verdict, nothing, setup_stream_type, fetch_stream_type, padding_stream_type,
  first_setup, first_message, by_type, classify_bytes, on_receive,
}

concat-append : (cs ds : List ByteBuffer) → concat (cs ++ ds) ≡ concat cs ++ concat ds
unfolding concat
concat-append [] ds = refl
concat-append (c ∷ cs) ds = rw (concat-append cs ds) (sym (append_assoc c (concat cs) (concat ds)))

all_zero-append : (xs ys : List ℕ) → all_zero (xs ++ ys) ≡ (all_zero xs && all_zero ys)
unfolding all_zero
all_zero-append [] ys = refl
all_zero-append (x ∷ xs) ys = elim (Bool-cases (x == 0)) [
  | inl zero_first ↦ rw (zero_first, all_zero-append xs ys) refl
  | inr other ↦ rw other refl
]

speaks_first_setup : (payload bytes : ByteBuffer) → (first_setup payload bytes).1 ≢ nothing
unfolding first_setup
speaks_first_setup payload bytes e = by_answer (decode_setup payload) refl
  where
    by_answer : (o : Result (Unit {0})) → decode_setup payload ≡ o → ⊥
    by_answer (ok u) p =
        let bad : ◌≡◌ {A = Verdict} peer_setup nothing = rw (p, first_setup) at e in cc
    by_answer (err x) p =
        let bad : ◌≡◌ {A = Verdict} malformed_setup nothing = rw (p, first_setup) at e in cc

-- A gate that has told the session nothing about its first message still holds all of the bytes.
first_message_waits :
    (unidirectional : Bool) (bytes : ByteBuffer)
    → (first_message unidirectional false bytes).1 ≡ nothing
    → (first_message unidirectional false bytes).0 ≡ record { mode = Mode.classify; bytes = bytes }
unfolding first_message
first_message_waits unidirectional bytes e = by_status (read_control_message bytes).status refl
  where
    speaks :
        (u : Bool)
        → (read_control_message bytes).status ≡ DecodeStatus.done
        → (first_message u false bytes).1 ≢ nothing
    speaks true p q =
        speaks_first_setup (read_control_message bytes).message.payload bytes
          (rw (p, first_message) at q)
    speaks false p q =
        let bad : ◌≡◌ {A = Verdict}
            (peer_request (read_control_message bytes).message
              (drop (read_control_message bytes).bytes bytes) false)
            nothing =
          rw (p, first_message) at q in
        cc

    by_status :
        (status : DecodeStatus)
        → (read_control_message bytes).status ≡ status
        → (first_message unidirectional false bytes).0
          ≡ record { mode = Mode.classify; bytes = bytes }
    by_status DecodeStatus.done p = absurd (speaks unidirectional p e)
    by_status DecodeStatus.need_more_data p = rw (p, first_message) refl
    by_status DecodeStatus.error p = rw (p, first_message) refl

-- Or it has found that the stream is padding.
abbrev Padded : ℕ → ℕ → ByteBuffer → Gate → Type 0
Padded type size bytes gate =
    ((type == padding_stream_type) ≡ true)
    × (all_zero (drop size bytes) ≡ true)
    × (gate ≡ record { mode = Mode.padding; bytes = [] })

by_type_waits :
    (type size : ℕ) (bytes : ByteBuffer)
    → (by_type type size false bytes).1 ≡ nothing
    → ((by_type type size false bytes).0 ≡ record { mode = Mode.classify; bytes = bytes })
      ⊎ Padded type size bytes (by_type type size false bytes).0
unfolding by_type
by_type_waits type size bytes e = elim (Bool-cases (type == padding_stream_type)) [
  | inl padded ↦ elim (Bool-cases (all_zero (drop size bytes))) [
    | inl clean ↦ inr (padded, clean, rw (padded, clean) refl)
    | inr dirty ↦
        let bad : ◌≡◌ {A = Verdict} padding_not_zero nothing = rw (padded, dirty, by_type) at e in
        absurd (cc)
  ]
  | inr other ↦ elim (Bool-cases (type == setup_stream_type)) [
    | inl setup ↦
        inl (rw (other, setup) (first_message_waits true bytes (rw (other, setup, by_type) at e)))
    | inr unset ↦ elim (Bool-cases (type == fetch_stream_type || is_subgroup_stream_type type)) [
      | inl carries ↦
          let bad : ◌≡◌ {A = Verdict} (data_stream type bytes false) nothing =
            rw (other, unset, carries, by_type) at e in
          absurd (cc)
      | inr unknown ↦
          let bad : ◌≡◌ {A = Verdict} (unknown_stream_type type) nothing =
            rw (other, unset, unknown, by_type) at e in
          absurd (cc)
    ]
  ]
]

bytes-within : (c : List ℕ) → (read_varint c).bytes ≤ length c
bytes-within c = elim (read_varint_cases c) [
  | inl stuck ↦ rw stuck (omega arith)
  | inr (status, least, most, within) ↦ within
]

padded_later :
    (fin : Bool) (bytes more : ByteBuffer)
    → (read_varint bytes).status ≡ DecodeStatus.done
    → ((read_varint bytes).value == padding_stream_type) ≡ true
    → all_zero (drop (read_varint bytes).bytes bytes) ≡ true
    → (classify_bytes true fin (bytes ++ more)).1
      ≡ (if all_zero more then nothing else padding_not_zero)
unfolding classify_bytes by_type
padded_later fin bytes more p padded clean =
    rw (read_varint-append bytes more p, p, classify_bytes)
      (rw (read_varint-append bytes more p, padded, by_type)
        (rw
          (
            drop-append_le (read_varint bytes).bytes bytes more (bytes-within bytes),
            all_zero-append (drop (read_varint bytes).bytes bytes) more,
            clean,
          )
          (elim (Bool-cases (all_zero more)) [ inl z ↦ rw z refl | inr z ↦ rw z refl ])))

-- The verdict on more bytes does not depend on where the gate waited for them.
classify_split :
    (unidirectional fin : Bool) (bytes more : ByteBuffer)
    → (classify_bytes unidirectional false bytes).1 ≡ nothing
    → ((classify_bytes unidirectional false bytes).0
        ≡ record { mode = Mode.classify; bytes = bytes })
      ⊎ (((classify_bytes unidirectional false bytes).0
            ≡ record { mode = Mode.padding; bytes = [] })
          × ((classify_bytes unidirectional fin (bytes ++ more)).1
              ≡ (if all_zero more then nothing else padding_not_zero)))
unfolding classify_bytes
classify_split false fin bytes more e = inl (first_message_waits false bytes e)
classify_split true fin bytes more e = by_status (read_varint bytes).status refl
  where
    Answer : Type 0
    Answer =
        ((classify_bytes true false bytes).0 ≡ record { mode = Mode.classify; bytes = bytes })
        ⊎ (((classify_bytes true false bytes).0 ≡ record { mode = Mode.padding; bytes = [] })
            × ((classify_bytes true fin (bytes ++ more)).1
                ≡ (if all_zero more then nothing else padding_not_zero)))

    by_status : (status : DecodeStatus) → (read_varint bytes).status ≡ status → Answer
    by_status DecodeStatus.need_more_data p = inl (rw (p, classify_bytes) refl)
    by_status DecodeStatus.error p = inl (rw (p, classify_bytes) refl)
    by_status DecodeStatus.done p =
        elim (by_type_waits (read_varint bytes).value (read_varint bytes).bytes bytes
          (rw (p, classify_bytes) at e)) [
            | inl waits ↦ inl (rw (p, classify_bytes) waits)
            | inr (padded, clean, gate) ↦
                inr (rw (p, classify_bytes) gate, padded_later fin bytes more p padded clean)
          ]

abbrev gate_at : Mode → ByteBuffer → Gate
gate_at mode bytes = record { mode = mode; bytes = bytes }

split_at :
    (unidirectional fin : Bool) (mode : Mode) (bytes : ByteBuffer) (cs ds : List ByteBuffer)
    → (on_receive unidirectional (gate_at mode bytes) cs false).1 ≡ nothing
    → (on_receive unidirectional
        (on_receive unidirectional (gate_at mode bytes) cs false).0
        ds
        fin).1
      ≡ (on_receive unidirectional (gate_at mode bytes) (cs ++ ds) fin).1
unfolding on_receive
split_at unidirectional fin Mode.done bytes cs ds quiet = refl
split_at unidirectional fin Mode.padding bytes cs ds quiet =
    elim (Bool-cases (all_zero (concat cs))) [
      | inl clean ↦ rw (concat-append cs ds, all_zero-append (concat cs) (concat ds), clean) refl
      | inr dirty ↦
          let bad : ◌≡◌ {A = Verdict} padding_not_zero nothing = rw dirty at quiet in absurd (cc)
    ]
split_at unidirectional fin Mode.classify bytes cs ds quiet =
    elim (classify_split unidirectional fin (bytes ++ concat cs) (concat ds) quiet) [
      | inl waits ↦ rw (concat-append cs ds, waits, append_assoc bytes (concat cs) (concat ds)) refl
      | inr (padded, later) ↦
          rw (concat-append cs ds, padded, ← append_assoc bytes (concat cs) (concat ds)) (sym later)
    ]

-- After a receive event that told the session nothing about a stream of the peer, and was not the
-- last, the next event tells it what the bytes of both events would have told it at once.
pub on_receive-split :
    (unidirectional fin : Bool) (gate : Gate) (cs ds : List ByteBuffer)
    → (on_receive unidirectional gate cs false).1 ≡ nothing
    → (on_receive unidirectional (on_receive unidirectional gate cs false).0 ds fin).1
      ≡ (on_receive unidirectional gate (cs ++ ds) fin).1
on_receive-split unidirectional fin gate cs ds quiet =
    split_at unidirectional fin gate.mode gate.bytes cs ds quiet
