-- ===== src/Tests/Readers.antt =====
-- Concrete payloads of the peer, for src/codec/codec_internal.h and src/codec/control.cpp.
use moqtopus.Common.{true, ◌≤◌, ◌≡◌, refl, arith, length, All, [], ◌∷◌, ◌++◌, some, ok}
use moqtopus.Types.{Parameter, TrackNamespace, ParameterEncoding}
use moqtopus.Codec.Varint.{write_length, write_tail, write_head, write_varint}
use moqtopus.Codec.Cursor.{read_byte}
use moqtopus.Codec.Namespace.{
  total_size, write_fields, write_track_namespace, track_namespace-write, track_namespace_bounds,
}
use moqtopus.Codec.Reader.{
  ◌>>=◌ as bind, pure, require, or_throw, byte, track_namespace, parameter_encoding, skip_value,
  parameters, decode,
}
use moqtopus.Codec.Reader.Steps.{step, varint-write, pure_lem}
use moqtopus.Codec.Parameters.{insert_sorted, stable_sort, encode_loop, encode_parameters}
use moqtopus.Codec.Parameters.RoundTrip.{IsWellFormed, parameters-encode}
use moqtopus.Codec.Parameters.Order.{Ascending, parameters-Ascending}
use moqtopus.Codec.Decoders.Options.{
  no_options, SubscriptionOptions, decode_subscription_options, read_parameter, read_forward,
}
use moqtopus.Codec.Decoders.Options.Laws.{IsValidOptions, decode_subscription_options-IsValid}

track_namespace-write_example :
    track_namespace ((1 ∷ 2 ∷ 97 ∷ 98 ∷ []) ++ (7 ∷ [])) ≡ ok ((97 ∷ 98 ∷ []) ∷ [], 7 ∷ [])
unfolding write_track_namespace write_fields write_varint write_length write_head write_tail
track_namespace-write_example =
    track_namespace-write ((97 ∷ 98 ∷ []) ∷ []) (1 ∷ 2 ∷ 97 ∷ 98 ∷ []) (7 ∷ []) refl

abbrev example_namespace : TrackNamespace
example_namespace = (97 ∷ 98 ∷ []) ∷ []

track_namespace_bounds_example :
    (length example_namespace ≤ 32)
    × All (λ f. 1 ≤ length f) example_namespace
    × (total_size example_namespace ≤ 4096)
track_namespace_bounds_example =
    track_namespace_bounds ((1 ∷ 2 ∷ 97 ∷ 98 ∷ []) ++ (7 ∷ [])) example_namespace (7 ∷ [])
      track_namespace-write_example

-- FORWARD with the value 1, and OBJECT_DELIVERY_TIMEOUT with the value 9.
abbrev forward : Parameter
forward = record { type = 0x10; encoded_value = 1 ∷ [] }

abbrev timeout : Parameter
timeout = record { type = 0x02; encoded_value = 9 ∷ [] }

forward-IsWellFormed : IsWellFormed forward
unfolding parameter_encoding skip_value bind byte or_throw pure read_byte
forward-IsWellFormed = record {
  fits = omega arith;
  encoding = ParameterEncoding.uint8;
  known = refl;
  exact = λ more. refl;
}

timeout-IsWellFormed : IsWellFormed timeout
unfolding parameter_encoding skip_value write_varint write_length write_head write_tail
timeout-IsWellFormed = record {
  fits = omega arith;
  encoding = ParameterEncoding.varint;
  known = refl;
  exact = λ more. step _ _ _ _ _ _ (varint-write 9 more (omega arith)) (pure_lem tt more);
}

parameters-encode_example :
    parameters ((2 ∷ 2 ∷ 9 ∷ 14 ∷ 1 ∷ []) ++ (7 ∷ []))
    ≡ ok (stable_sort (forward ∷ timeout ∷ []), 7 ∷ [])
unfolding encode_parameters encode_loop stable_sort insert_sorted parameter_encoding write_varint
    write_length write_head write_tail
parameters-encode_example =
    parameters-encode (forward ∷ timeout ∷ []) (2 ∷ 2 ∷ 9 ∷ 14 ∷ 1 ∷ []) (7 ∷ []) (omega arith)
      (forward-IsWellFormed, (timeout-IsWellFormed, tt)) refl

parameters-Ascending_example : Ascending true 0 (stable_sort (forward ∷ timeout ∷ []))
parameters-Ascending_example =
    parameters-Ascending ((2 ∷ 2 ∷ 9 ∷ 14 ∷ 1 ∷ []) ++ (7 ∷ [])) (7 ∷ [])
      (stable_sort (forward ∷ timeout ∷ [])) parameters-encode_example

abbrev with_forward : SubscriptionOptions
with_forward = record no_options { forward = some 1 }

no_options-IsValid : IsValidOptions no_options
no_options-IsValid = record { forward = tt; filter = tt }

decode_subscription_options-IsValid_example : IsValidOptions with_forward
unfolding decode_subscription_options read_parameter read_forward bind byte or_throw pure require
    read_byte decode
decode_subscription_options-IsValid_example =
    decode_subscription_options-IsValid (forward ∷ []) no_options with_forward
      ((omega arith, tt), tt) no_options-IsValid refl
