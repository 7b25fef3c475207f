-- ===== src/Receive/Deliver.antt =====
-- `DataPlane::deliver` of src/data_plane.cpp: the objects behind the final one are a track error, and
-- the status of an object may make it the final one.
pub mod Laws
use moqtopus.Common.{
  ℕ, ltb, ◌==◌, ◌&&◌, ◌||◌, Bool, true, false, not, List, Option, none, some, if◌then◌else◌, find,
  insert,
}
use moqtopus.Types.{Location, Object}
use moqtopus.Receive.{
  ReceiveRoute, State, Owner, Fault, after_final_in_group, after_final_in_track, route_at,
  put_route,
}

-- The object lies behind the final object of its group.
pub follows_group_end : ReceiveRoute → Object → Bool
follows_group_end route object = elim (find object.group_id route.final_object_in_group) [
  | none ↦ false
  | some last ↦ ltb last object.object_id
]

-- The object lies behind the final object of the track.
pub follows_track_end : ReceiveRoute → Object → Bool
follows_track_end route object = elim route.final_object_in_track [
  | none ↦ false
  | some last ↦
      ltb last.group object.group_id
      || object.group_id == last.group && ltb last.object object.object_id
]

abbrev has_status : Object → ℕ → Bool
has_status object status = elim object.status [ none ↦ false | some code ↦ code == status ]

-- `EndOfGroup` marks the last object of a group.
abbrev mark_group : Object → ReceiveRoute → ReceiveRoute
mark_group object route =
    if has_status object 0x3
    then record route {
      final_object_in_group = insert object.group_id object.object_id route.final_object_in_group;
    }
    else route

-- `EndOfTrack` marks the last object of the track.
abbrev mark_track : Object → ReceiveRoute → ReceiveRoute
mark_track object route =
    if has_status object 0x4
    then record route {
      final_object_in_track = some (record { group = object.group_id; object = object.object_id });
    }
    else route

pub marked : Object → ReceiveRoute → ReceiveRoute
marked object route = mark_track object (mark_group object route)

module _ {W : Type 0} (owner : Owner W) where
  open owner use {track_error, on_object}

  -- A route that is not on the heap is never referred to; the case has no counterpart.
  unfoldable pub deliver : ℕ → Object → State W → State W
  deliver ref object s = elim (route_at ref s) [
    | none ↦ s
    | some route ↦
        if not route.active
        then s
        else if follows_group_end route object
        then track_error route.request_id after_final_in_group s
        else if follows_track_end route object
        then track_error route.request_id after_final_in_track s
        else on_object route.handler object (put_route ref (marked object route) s)
  ]
