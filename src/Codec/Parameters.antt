-- ===== src/Codec/Parameters.antt =====
-- Message parameters: the constructors of `Parameter` in src/codec/codec.cpp and `encode_parameters`
-- of src/codec/codec_internal.h.
pub mod RoundTrip
pub mod Order
use moqtopus.Common.{
  ℕ, ◌+◌, ◌-◌, ◌%◌, ◌^◌, length, ltb, leb, ◌==◌, Bool, true, false, not, ◌&&◌, ◌||◌, List, [], ◌∷◌,
  ◌++◌, if◌then◌else◌, Option, some, none, Result, ok, err, invalid_argument, ◌>>=◌,
}
use moqtopus.Types.{ByteBuffer, TrackNamespace, Location, Parameter, ParameterEncoding}
use moqtopus.Codec.Varint.{write_varint}
use moqtopus.Codec.Reader.{parameter_encoding}
use moqtopus.Codec.Namespace.{write_track_namespace}

pub uint8 : ℕ → ℕ → Parameter
uint8 type value = record { type = type; encoded_value = value ∷ [] }

unfoldable pub varint : ℕ → ℕ → Parameter
varint type value = record { type = type; encoded_value = write_varint value }

pub location : ℕ → Location → Parameter
location type value = record {
  type = type;
  encoded_value = write_varint value.group ++ write_varint value.object;
}

pub length_prefixed : ℕ → ByteBuffer → Parameter
length_prefixed type value = record {
  type = type;
  encoded_value = write_varint (length value) ++ value;
}

unfoldable pub track_namespace : ℕ → TrackNamespace → Result Parameter
track_namespace type value = do
  bytes ← write_track_namespace value
  ok (record { type = type; encoded_value = bytes })

-- `std::stable_sort` by type: an element goes before the first one that is not smaller.
unfoldable pub insert_sorted : Parameter → List Parameter → List Parameter
insert_sorted p [] = p ∷ []
insert_sorted p (q ∷ qs) = if leb p.type q.type then p ∷ q ∷ qs else q ∷ insert_sorted p qs

unfoldable pub stable_sort : List Parameter → List Parameter
stable_sort [] = []
stable_sort (p ∷ ps) = insert_sorted p (stable_sort ps)

abbrev pub is_none {ℓ} : {A : Type ℓ} → Option A → Bool
is_none none = true
is_none (some a) = false

-- The loop on the sorted parameters; `parameter.type - previous` is a uint64_t.
unfoldable pub encode_loop : ℕ → List Parameter → Result ByteBuffer
encode_loop previous [] = ok []
encode_loop previous (p ∷ ps) =
    let rest = encode_loop p.type ps in
    if not (previous == 0) && leb p.type previous || is_none (parameter_encoding p.type)
    then err (invalid_argument "unsupported or duplicate message parameter")
    else (do
      bytes ← rest
      ok (write_varint ((p.type + 2 ^ 64 - previous) % 2 ^ 64) ++ (p.encoded_value ++ bytes)))

-- What `encode_parameters` appends.
unfoldable pub encode_parameters : List Parameter → Result ByteBuffer
encode_parameters parameters = do
  bytes ← encode_loop 0 (stable_sort parameters)
  ok (write_varint (length parameters) ++ bytes)
