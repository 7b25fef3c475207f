-- ===== src/Receive/Deliver/Laws.antt =====
-- What becomes of the objects behind the last one of a group or of a track, in src/data_plane.cpp.
use moqtopus.Common.{
  ℕ, ◌<◌, ◌≡◌, refl, arith, lt→ltb, ==_self, true, false, some, insert, find-insert, get_elem?-set,
  inl, inr, ◌⊎◌, Bool-cases,
}
use moqtopus.Types.{Object}
use moqtopus.Receive.{
  ReceiveRoute, State, Owner, after_final_in_group, after_final_in_track, route_at, put_route,
}
use moqtopus.Receive.Deliver.{
  follows_group_end, follows_track_end, has_status, mark_group, mark_track, marked, deliver,
}

-- An object is behind another in the order of the track.
abbrev pub Behind : Object → Object → Type 0
Behind last object =
    (last.group_id < object.group_id)
    ⊎ ((object.group_id ≡ last.group_id) × (last.object_id < object.object_id))

marked_group :
    (last : Object) (route : ReceiveRoute)
    → last.status ≡ some 0x3
    → marked last route ≡ record route {
      final_object_in_group = insert last.group_id last.object_id route.final_object_in_group;
    }
unfolding marked
marked_group last route e = rw (e, marked, mark_track, mark_group, has_status) refl

marked_track :
    (last : Object) (route : ReceiveRoute)
    → last.status ≡ some 0x4
    → marked last route ≡ record route {
      final_object_in_track = some (record { group = last.group_id; object = last.object_id });
    }
unfolding marked
marked_track last route e = rw (e, marked, mark_track, mark_group, has_status) refl

module _ {W : Type 0} (owner : Owner W) (ref : ℕ) (t : State W) (r : ReceiveRoute) (object : Object)
    (there : route_at ref t ≡ some r) (active : r.active ≡ true) where
  refused_group :
      follows_group_end r object ≡ true
      → deliver owner ref object t ≡ owner.track_error r.request_id after_final_in_group t
  unfolding deliver
  refused_group e = rw (there, e, active, deliver) refl

  refused_track :
      follows_track_end r object ≡ true
      → (deliver owner ref object t ≡ owner.track_error r.request_id after_final_in_track t)
        ⊎ (deliver owner ref object t ≡ owner.track_error r.request_id after_final_in_group t)
  unfolding deliver
  refused_track e = elim (Bool-cases (follows_group_end r object)) [
    | inl first ↦ inr (refused_group first)
    | inr within ↦ inl (second within)
  ]
    where
      second :
          follows_group_end r object ≡ false
          → deliver owner ref object t ≡ owner.track_error r.request_id after_final_in_track t
      second within = rw (there, within, e, active, deliver) refl

module _ {W : Type 0} (owner : Owner W) (ref : ℕ) (s : State W) (route : ReceiveRoute)
    (last object : Object) (there : route_at ref s ≡ some route)
    (active : route.active ≡ true) where
  -- The state with the marks of `last`, which the handler is called in.
  abbrev pub after_last : State W
  after_last = put_route ref (marked last route) s

  -- On an active route on which an object of status EndOfGroup was marked, delivering an object of
  -- the same group with a greater Object ID reports a track error and does not call the handler.
  pub deliver_after_end_of_group :
      last.status ≡ some 0x3
      → object.group_id ≡ last.group_id
      → last.object_id < object.object_id
      → deliver owner ref object after_last
        ≡ owner.track_error route.request_id after_final_in_group after_last
  unfolding follows_group_end
  deliver_after_end_of_group status group later = rw (marked_group last route status) (
      refused_group owner ref _ _ object (get_elem?-set s.plane.routes ref route _ there) active
        behind)
    where
      behind :
          follows_group_end
            (record route {
              final_object_in_group =
                  insert last.group_id last.object_id route.final_object_in_group;
            })
            object
          ≡ true
      behind =
          rw
            (
              follows_group_end,
              find-insert last.group_id object.group_id last.object_id route.final_object_in_group,
              group,
              ==_self last.group_id,
            )
            (lt→ltb _ _ later)

  -- On an active route on which an object of status EndOfTrack was marked, delivering an object
  -- behind it in the order of the track reports a track error and does not call the handler.
  pub deliver_after_end_of_track :
      last.status ≡ some 0x4
      → Behind last object
      → (deliver owner ref object after_last
          ≡ owner.track_error route.request_id after_final_in_track after_last)
        ⊎ (deliver owner ref object after_last
            ≡ owner.track_error route.request_id after_final_in_group after_last)
  unfolding follows_track_end
  deliver_after_end_of_track status behind = rw (marked_track last route status) (
      refused_track owner ref _ _ object (get_elem?-set s.plane.routes ref route _ there) active
        (elim behind [
          | inl group ↦ rw (follows_track_end, lt→ltb _ _ group) refl
          | inr (group, later) ↦
              rw (follows_track_end, group, ==_self last.group_id, lt→ltb _ _ later) (ground arith)
        ]))
