-- ===== src/Receive/Routes.antt =====
-- The route table and the parked subgroup streams of src/data_plane.cpp. A `size_t` wraps.
pub mod Pending
use moqtopus.Common.{
  ℕ, suc, ◌+◌, ◌-◌, ◌%◌, ◌^◌, length, leb, ◌==◌, Bool, true, false, List, [], ◌∷◌, ◌++◌, Option,
  none, some, if◌then◌else◌, find, insert, erase, is_empty,
}
use moqtopus.Receive.{DataPlane, ReceiveRoute, State, route_at, put_route}

abbrev pub sub_size : ℕ → ℕ → ℕ
sub_size a b = (a + 2 ^ 64 - b) % 2 ^ 64

abbrev pub add_size : ℕ → ℕ → ℕ
add_size a b = (a + b) % 2 ^ 64

-- The entry of a map whose values are vectors; `operator[]` makes an empty one.
abbrev pub entries {ℓ} : {A : Type ℓ} → ℕ → List (ℕ × List A) → List A
entries k m = elim (find k m) [ none ↦ [] | some xs ↦ xs ]

-- What `std::remove_if` leaves: the elements other than `x`.
pub without : ℕ → List ℕ → List ℕ
without x [] = []
without x (y ∷ ys) = if y == x then without x ys else y ∷ without x ys

-- `find_or_park_subgroup` found a route, parked the stream, or had no room for it.
pub data Parking : Type 0 where
  established : ℕ → Parking
  parked full : Parking

-- `DataPlane::find_or_park_subgroup`
pub find_or_park_subgroup : ℕ → ℕ → DataPlane → Parking × DataPlane
find_or_park_subgroup alias stream p = elim (find alias p.routes_by_alias) [
  | some ref ↦ (established ref, p)
  | none ↦
      if leb p.config.max_pending_subgroup_streams p.pending_subgroup_stream_count
      then (full, p)
      else (
        parked,
        record p {
          pending_subgroups_by_alias =
              insert alias (entries alias p.pending_subgroups_by_alias ++ (stream ∷ []))
                p.pending_subgroups_by_alias;
          pending_subgroup_stream_count = add_size p.pending_subgroup_stream_count 1;
        },
      )
]

-- `DataPlane::discard_pending_subgroup`
pub discard_pending_subgroup : ℕ → ℕ → DataPlane → DataPlane
discard_pending_subgroup alias stream p = elim (find alias p.pending_subgroups_by_alias) [
  | none ↦ p
  | some streams ↦
      let left = without stream streams in
      record p {
        pending_subgroup_stream_count =
            sub_size p.pending_subgroup_stream_count (length streams - length left);
        pending_subgroups_by_alias =
            if is_empty left
            then erase alias p.pending_subgroups_by_alias
            else insert alias left p.pending_subgroups_by_alias;
      }
]

-- `DataPlane::find_route`
unfoldable pub find_route : ℕ → DataPlane → Option ℕ
find_route alias p = find alias p.routes_by_alias

module _ {W : Type 0} where
  -- Later deliveries on the route are dropped.
  unfoldable pub deactivate : ℕ → State W → State W
  deactivate ref s = elim (route_at ref s) [
    | none ↦ s
    | some route ↦ put_route ref (record route { active = false }) s
  ]

  -- `DataPlane::retire_route`
  unfoldable pub retire_route : ℕ → State W → State W
  retire_route alias s = elim (find_route alias s.plane) [
    | none ↦ s
    | some ref ↦
        let s' = deactivate ref s in
        record s' {
          plane = record s'.plane { routes_by_alias = erase alias s'.plane.routes_by_alias };
        }
  ]
