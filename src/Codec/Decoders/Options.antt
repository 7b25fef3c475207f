-- ===== src/Codec/Decoders/Options.antt =====
-- `decode_subscription_options` of src/codec/control.cpp, with the parameter and filter numbers of
-- include/moq/codec.h.
pub mod Laws
use moqtopus.Common.{
  ℕ, ◌-◌, ◌^◌, length, leb, ◌==◌, ◌||◌, ◌&&◌, Bool, true, false, List, [], ◌∷◌, if◌then◌else◌,
  Option, some, none, Result, ok,
}
use moqtopus.Common.{◌>>=◌ as bind}
use moqtopus.Types.{ByteBuffer, Location, Parameter}
use moqtopus.Codec.Reader.{
  Reader, ◌>>=◌, ◌>>◌, pure, require, varint, byte, remaining_view, discard, decode, u64_max,
}

abbrev pub parameter_object_delivery_timeout : ℕ
parameter_object_delivery_timeout = 0x02

abbrev pub parameter_subgroup_delivery_timeout : ℕ
parameter_subgroup_delivery_timeout = 0x06

abbrev pub parameter_largest_object : ℕ
parameter_largest_object = 0x09

abbrev pub parameter_forward : ℕ
parameter_forward = 0x10

abbrev pub parameter_subscription_filter : ℕ
parameter_subscription_filter = 0x21

abbrev pub parameter_group_order : ℕ
parameter_group_order = 0x22

abbrev pub filter_next_group_start : ℕ
filter_next_group_start = 0x1

abbrev pub filter_largest_object : ℕ
filter_largest_object = 0x2

abbrev pub filter_absolute_start : ℕ
filter_absolute_start = 0x3

abbrev pub filter_absolute_range : ℕ
filter_absolute_range = 0x4

pub record SubscriptionFilter : Type 0 where
  pub filter_type : ℕ
  pub start : Location
  pub end_group_delta : ℕ

pub record SubscriptionOptions : Type 0 where
  pub forward : Option ℕ
  pub filter : Option SubscriptionFilter
  pub subgroup_delivery_timeout : Option ℕ
  pub object_delivery_timeout : Option ℕ

-- `SubscriptionOptions options;`
abbrev pub no_options : SubscriptionOptions
no_options = record {
  forward = none;
  filter = none;
  subgroup_delivery_timeout = none;
  object_delivery_timeout = none;
}

-- `reader.remaining()`
pub remaining : Reader ℕ
remaining c = pure (length c) c

pub read_location : Reader Location
read_location = do group ← varint; object ← varint; pure (record { group = group; object = object })

-- The start of AbsoluteStart and AbsoluteRange.
pub read_start : ℕ → Reader Location
read_start type =
    if leb filter_absolute_start type
    then read_location
    else pure (record { group = 0; object = 0 })

-- The end of AbsoluteRange.
pub read_delta : ℕ → Reader ℕ
read_delta type = if type == filter_absolute_range then varint else pure 0

pub read_filter : Reader SubscriptionFilter
read_filter = do
  size ← varint
  left ← remaining
  require (size == left) "invalid SUBSCRIPTION_FILTER length"
  type ← varint
  require (leb filter_next_group_start type && leb type filter_absolute_range)
      "unknown subscription filter type"
  start ← read_start type
  delta ← read_delta type
  require (leb delta (u64_max - start.group)) "SUBSCRIPTION_FILTER End Group overflows"
  pure (record { filter_type = type; start = start; end_group_delta = delta })

unfoldable pub read_forward : Reader ℕ
read_forward = do value ← byte; require (leb value 1) "invalid FORWARD parameter"; pure value

pub read_group_order : Reader (Unit {0})
read_group_order = do
  order ← byte
  require (order == 1 || order == 2) "invalid GROUP_ORDER parameter"

-- The `switch` on the parameter's type: the timeouts, and the rest of it.
pub read_timeout : SubscriptionOptions → ℕ → Reader SubscriptionOptions
read_timeout options type =
    if type == parameter_subgroup_delivery_timeout
    then (do value ← varint; pure (record options { subgroup_delivery_timeout = some value }))
    else if type == parameter_object_delivery_timeout
    then (do value ← varint; pure (record options { object_delivery_timeout = some value }))
    else (do discard remaining_view; pure options)

unfoldable pub read_parameter : SubscriptionOptions → ℕ → Reader SubscriptionOptions
read_parameter options type =
    if type == parameter_forward
    then (do value ← read_forward; pure (record options { forward = some value }))
    else if type == parameter_group_order
    then (do read_group_order; pure options)
    else if type == parameter_subscription_filter
    then (do filter ← read_filter; pure (record options { filter = some filter }))
    else read_timeout options type

-- The loop: `options` is what the parameters before gave.
unfoldable pub decode_subscription_options :
    List Parameter → SubscriptionOptions → Result SubscriptionOptions
decode_subscription_options [] options = ok options
decode_subscription_options (p ∷ ps) options =
    bind (decode (read_parameter options p.type) p.encoded_value) (decode_subscription_options ps)
