-- ===== src/Send/Publish.antt =====
-- `SendDataPlane::publish` of src/send_data_plane.cpp.
use moqtopus.Common.{
  ℕ, ◌==◌, ◌&&◌, ◌||◌, Bool, true, false, not, List, [], ◌∷◌, Option, none, some, if◌then◌else◌,
}
use moqtopus.Types.{Location, DeliveryKind}
use moqtopus.Codec.Objects.{object_status_end_of_group, object_status_end_of_track}
use moqtopus.Send.{
  PublishedObject, TrackKey, TrackEntry, SubscriptionSend, State, Outlet, Completion,
  subscription_at,
}
use moqtopus.Send.Filter.{location_less, valid_publish_status, past_end, passes_filter}
use moqtopus.Send.Subscriptions.{track_at, put_track, remove_from_set}
use moqtopus.Send.Streams.{send_on_subgroup_stream, send_datagram_object}

-- `if (!entry.largest || location_less(*entry.largest, location)) entry.largest = location;`
pub later : Option Location → Location → Location
later none location = location
later (some largest) location = if location_less largest location then location else largest

pub has_status : Option ℕ → ℕ → Bool
has_status none code = false
has_status (some status) code = status == code

is_last_group : Option ℕ → ℕ → Bool
is_last_group none group = false
is_last_group (some last) group = group == last

-- Why the object completes a subscription that it is not past the end of.
pub completion_of : Option ℕ → PublishedObject → Option Completion
completion_of end_group object =
    if has_status object.status object_status_end_of_track
    then some Completion.end_of_track
    else if is_last_group end_group object.group_id
        && (object.end_of_group || has_status object.status object_status_end_of_group)
    then some Completion.end_of_range
    else none

pub is_fetch : DeliveryKind → Bool
is_fetch DeliveryKind.fetch_stream = true
is_fetch DeliveryKind.subgroup_stream = false
is_fetch DeliveryKind.datagram = false

abbrev key_of : PublishedObject → TrackKey
key_of object = (object.track_namespace, object.track_name)

module _ {W : Type 0} (outlet : Outlet W) where
  open outlet use {subscription_complete}

  unfoldable pub complete : ℕ → Option Completion → State W → State W
  complete id none s = s
  complete id (some reason) s = subscription_complete id reason s

  unfoldable pub send_by_kind :
      DeliveryKind → ℕ → SubscriptionSend → PublishedObject → State W → State W
  send_by_kind DeliveryKind.datagram id sub object s = send_datagram_object outlet sub object s
  send_by_kind DeliveryKind.subgroup_stream id sub object s =
      send_on_subgroup_stream outlet id object s
  send_by_kind DeliveryKind.fetch_stream id sub object s =
      send_on_subgroup_stream outlet id object s

  unfoldable pub forward_object : ℕ → SubscriptionSend → PublishedObject → State W → State W
  forward_object id sub object s =
      if sub.forward && passes_filter sub object.group_id object.object_id
      then send_by_kind object.delivery_kind id sub object s
      else s

  -- The object for one subscription. The members that are read behind the sending do not change in it.
  unfoldable pub publish_to : ℕ → SubscriptionSend → PublishedObject → State W → State W
  publish_to id sub object s =
      if past_end sub.end_group object.group_id
      then complete sub.request_id (some Completion.end_of_range) s
      else complete sub.request_id (completion_of sub.end_group object)
          (forward_object id sub object s)

  -- `entry.subscriptions.erase(request_id)`
  unfoldable pub drop_subscriber : ℕ → TrackKey → State W → State W
  drop_subscriber id key s = elim (track_at key s.plane) [
    | none ↦ s
    | some entry ↦ record s {
      plane =
          put_track key (record entry { subscriptions = remove_from_set id entry.subscriptions })
            s.plane;
    }
  ]

  unfoldable pub publish_all : List ℕ → PublishedObject → State W → State W
  publish_all [] object s = s
  publish_all (id ∷ ids) object s = publish_all ids object (elim (subscription_at id s) [
    | none ↦ drop_subscriber id (key_of object) s
    | some sub ↦ publish_to id sub object s
  ])

  unfoldable pub publish_on : TrackEntry → PublishedObject → State W → State W
  publish_on entry object s =
      let location : Location = record { group = object.group_id; object = object.object_id } in
      publish_all entry.subscriptions object (record s {
        plane =
            put_track (key_of object)
              (record entry { largest = some (later entry.largest location) }) s.plane;
      })

  -- `SendDataPlane::publish`
  unfoldable pub publish : PublishedObject → State W → State W
  publish object s = elim (track_at (key_of object) s.plane) [
    | none ↦ s
    | some entry ↦
        if not (valid_publish_status object) || is_fetch object.delivery_kind
        then s
        else publish_on entry object s
  ]
