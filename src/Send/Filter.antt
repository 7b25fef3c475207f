-- ===== src/Send/Filter.antt =====
-- Filters and locations of src/send_data_plane.cpp. A uint64_t wraps.
pub mod Laws
use moqtopus.Common.{
  ℕ, ◌+◌, ◌%◌, ◌^◌, ltb, leb, ◌==◌, ◌&&◌, ◌||◌, Bool, true, false, not, Option, none, some,
  if◌then◌else◌, is_empty,
}
use moqtopus.Types.{Location}
use moqtopus.Codec.Decoders.Options.{SubscriptionFilter}
use moqtopus.Codec.Decoders.Options.{
  filter_largest_object, filter_next_group_start, filter_absolute_start, filter_absolute_range,
}
use moqtopus.Codec.Objects.{
  object_status_normal, object_status_end_of_group, object_status_end_of_track,
}
use moqtopus.Send.{PublishedObject, SubscriptionSend}

pub location_less : Location → Location → Bool
location_less left right =
    ltb left.group right.group || left.group == right.group && ltb left.object right.object

unfoldable pub valid_publish_status : PublishedObject → Bool
valid_publish_status object = elim object.status [
  | none ↦ true
  | some status ↦
      if not (status == object_status_normal)
        && (not (status == object_status_end_of_group)
            && not (status == object_status_end_of_track))
      then false
      else status == object_status_normal || is_empty object.payload
]

unfoldable pub nonzero : Option ℕ → Bool
nonzero none = false
nonzero (some value) = not (value == 0)

abbrev pub origin : Location
origin = record { group = 0; object = 0 }

pub largest_start : Option Location → Location
largest_start none = origin
largest_start (some l) = record { group = l.group; object = (l.object + 1) % 2 ^ 64 }

pub next_group_start : Option Location → Location
next_group_start none = origin
next_group_start (some l) = record { group = (l.group + 1) % 2 ^ 64; object = 0 }

-- `SendDataPlane::resolve_filter`: the start and the end group.
unfoldable pub resolve_filter : SubscriptionFilter → Option Location → Location × Option ℕ
resolve_filter filter largest =
    if filter.filter_type == filter_largest_object
    then (largest_start largest, none)
    else if filter.filter_type == filter_next_group_start
    then (next_group_start largest, none)
    else if filter.filter_type == filter_absolute_start
    then (filter.start, none)
    else if filter.filter_type == filter_absolute_range
    then (filter.start, some ((filter.start.group + filter.end_group_delta) % 2 ^ 64))
    else (origin, none)

-- `subscription.end_group` holds and lies before the group.
pub past_end : Option ℕ → ℕ → Bool
past_end none group = false
past_end (some last) group = ltb last group

-- `SendDataPlane::passes_filter`
pub passes_filter : SubscriptionSend → ℕ → ℕ → Bool
passes_filter subscription group_id object_id =
    if location_less (record { group = group_id; object = object_id }) subscription.start
    then false
    else elim subscription.end_group [ none ↦ true | some last ↦ leb group_id last ]
