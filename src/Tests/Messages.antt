-- ===== src/Tests/Messages.antt =====
-- Concrete control messages, for src/codec/control.cpp.
use moqtopus.Common.{refl, arith, List, [], ◌∷◌}
use moqtopus.Types.{ByteBuffer, Parameter, ParameterEncoding}
use moqtopus.Codec.Varint.{write_length, write_tail, write_head, write_varint}
use moqtopus.Codec.Framing.{encode_control_message}
use moqtopus.Codec.Namespace.{write_fields, write_track_namespace}
use moqtopus.Codec.Reader.{parameter_encoding, skip_value, ◌>>=◌ as bind, or_throw, pure, byte}
use moqtopus.Codec.Cursor.{read_byte}
use moqtopus.Codec.Parameters.{insert_sorted, stable_sort, encode_loop, encode_parameters}
use moqtopus.Codec.Parameters.RoundTrip.{IsWellFormed}
use moqtopus.Codec.Messages.{
  write_string, encode_subscribe, encode_subscribe_ok, encode_request_update, encode_request_error,
  encode_publish_done, message_subscribe, message_subscribe_ok, message_request_update,
  message_request_error, message_publish_done, message_setup,
}
use moqtopus.Codec.Decoders.{
  decode_subscribe, decode_subscribe_ok, decode_request_update, decode_request_error,
  decode_publish_done,
}
use moqtopus.Codec.Decoders.RoundTrip.{
  Carries, publish_done_Carries, request_error_Carries, subscribe_Carries, subscribe_ok_Carries,
  request_update_Carries,
}
use moqtopus.Codec.Decoders.Setup.{write_options, encode_setup, decode_setup}
use moqtopus.Codec.Decoders.Setup.Laws.{setup_Carries}

-- FORWARD, with the value 1.
abbrev forward : Parameter
forward = record { type = 0x10; encoded_value = 1 ∷ [] }

forward-IsWellFormed : IsWellFormed forward
unfolding parameter_encoding skip_value bind byte or_throw pure read_byte
forward-IsWellFormed = record {
  fits = omega arith;
  encoding = ParameterEncoding.uint8;
  known = refl;
  exact = λ more. refl;
}

abbrev parameters : List Parameter
parameters = forward ∷ []

publish_done_Carries_example :
    Carries
      (0x0b ∷ 0 ∷ 5 ∷ 2 ∷ 1 ∷ 2 ∷ 104 ∷ 105 ∷ [])
      message_publish_done
      decode_publish_done
      (record { status_code = 2; stream_count = 1; reason = 104 ∷ 105 ∷ [] })
unfolding encode_publish_done write_string encode_control_message write_varint write_length
    write_head write_tail
publish_done_Carries_example =
    publish_done_Carries 2 1 (104 ∷ 105 ∷ []) (0x0b ∷ 0 ∷ 5 ∷ 2 ∷ 1 ∷ 2 ∷ 104 ∷ 105 ∷ [])
      (omega arith) (omega arith) (omega arith) refl

request_error_Carries_example :
    Carries
      (5 ∷ 0 ∷ 4 ∷ 2 ∷ 9 ∷ 1 ∷ 33 ∷ [])
      message_request_error
      decode_request_error
      (record { code = 2; retry_interval = 9; reason = 33 ∷ [] })
unfolding encode_request_error write_string encode_control_message write_varint write_length
    write_head write_tail
request_error_Carries_example =
    request_error_Carries 2 9 (33 ∷ []) (5 ∷ 0 ∷ 4 ∷ 2 ∷ 9 ∷ 1 ∷ 33 ∷ []) (omega arith)
      (omega arith) (omega arith) refl

subscribe_Carries_example :
    Carries
      (3 ∷ 0 ∷ 9 ∷ 4 ∷ 1 ∷ 1 ∷ 97 ∷ 1 ∷ 98 ∷ 1 ∷ 0x10 ∷ 1 ∷ [])
      message_subscribe
      decode_subscribe
      (record {
        request_id = 4;
        track_namespace = (97 ∷ []) ∷ [];
        track_name = 98 ∷ [];
        parameters = stable_sort parameters;
      })
unfolding encode_subscribe write_track_namespace write_fields encode_parameters encode_loop
    stable_sort insert_sorted write_string encode_control_message write_varint write_length
    write_head write_tail parameter_encoding
subscribe_Carries_example =
    subscribe_Carries parameters (omega arith) (forward-IsWellFormed, tt) 4 ((97 ∷ []) ∷ [])
      (98 ∷ []) (3 ∷ 0 ∷ 9 ∷ 4 ∷ 1 ∷ 1 ∷ 97 ∷ 1 ∷ 98 ∷ 1 ∷ 0x10 ∷ 1 ∷ []) (omega arith)
      (omega arith) refl

subscribe_ok_Carries_example :
    Carries
      (4 ∷ 0 ∷ 5 ∷ 7 ∷ 1 ∷ 0x10 ∷ 1 ∷ 8 ∷ [])
      message_subscribe_ok
      decode_subscribe_ok
      (record { track_alias = 7; parameters = stable_sort parameters; track_properties = 8 ∷ [] })
unfolding encode_subscribe_ok encode_parameters encode_loop stable_sort insert_sorted
    encode_control_message write_varint write_length write_head write_tail parameter_encoding
subscribe_ok_Carries_example =
    subscribe_ok_Carries parameters (omega arith) (forward-IsWellFormed, tt) 7 (8 ∷ [])
      (4 ∷ 0 ∷ 5 ∷ 7 ∷ 1 ∷ 0x10 ∷ 1 ∷ 8 ∷ []) (omega arith) refl

request_update_Carries_example :
    Carries
      (2 ∷ 0 ∷ 4 ∷ 6 ∷ 1 ∷ 0x10 ∷ 1 ∷ [])
      message_request_update
      decode_request_update
      (record { request_id = 6; parameters = stable_sort parameters })
unfolding encode_request_update encode_parameters encode_loop stable_sort insert_sorted
    encode_control_message write_varint write_length write_head write_tail parameter_encoding
request_update_Carries_example =
    request_update_Carries parameters (omega arith) (forward-IsWellFormed, tt) 6
      (2 ∷ 0 ∷ 4 ∷ 6 ∷ 1 ∷ 0x10 ∷ 1 ∷ []) (omega arith) refl

-- The SETUP for the authority "a" and the path "/".
abbrev example_setup : ByteBuffer
example_setup =
    175 ∷ 0 ∷ 0 ∷ 21 ∷ 1 ∷ 1 ∷ 47 ∷ 4 ∷ 1 ∷ 97 ∷ 2 ∷ 13 ∷ 107 ∷ 111 ∷ 116 ∷ 97 ∷ 45 ∷ 109 ∷ 111
    ∷ 113 ∷ 116 ∷ 111 ∷ 112 ∷ 117 ∷ 115 ∷ []

setup_Carries_example : Carries example_setup message_setup decode_setup tt
unfolding encode_setup write_options encode_control_message write_varint write_length write_head
    write_tail
setup_Carries_example =
    setup_Carries (97 ∷ []) (47 ∷ []) example_setup (omega arith) (omega arith) refl
