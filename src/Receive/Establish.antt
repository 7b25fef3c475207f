-- ===== src/Receive/Establish.antt =====
-- A new route, and the streams and datagrams that waited for it: `DataPlane::install_route`,
-- `start_subgroup_stream`, and the rest of `SubgroupReceiver`, of src/data_plane.cpp.
use moqtopus.Common.{
  ℕ, length, Bool, true, false, not, ◌||◌, List, [], ◌∷◌, ◌++◌, none, some, if◌then◌else◌, find,
  insert, erase,
}
use moqtopus.Types.{ByteBuffer}
use moqtopus.Receive.{DataPlane, SubgroupReceiver, State, Owner, receiver_at, put_receiver}
use moqtopus.Receive.Routes.{sub_size, entries, discard_pending_subgroup}
use moqtopus.Receive.Datagram.{deliver_datagram}
use moqtopus.Receive.Subgroup.{is_closed, update, run, on_receive}

-- `SubgroupReceiver::SubgroupReceiver`
pub new_receiver : ℕ → ByteBuffer → SubgroupReceiver
new_receiver stream_id prefix = record {
  stream_id = stream_id;
  stash = prefix;
  route = none;
  header_done = false;
  closed = false;
  waiting_for_route = false;
  fin_while_pending = false;
  properties_per_object = false;
  end_of_group_on_fin = false;
  subgroup_id_mode = 0;
  alias = 0;
  group_id = 0;
  subgroup_id = none;
  publisher_priority = 128;
  last_object_id = none;
}

-- The streams that wait for `alias` leave the table.
pub take_pending : ℕ → DataPlane → List ℕ × DataPlane
take_pending alias p = elim (find alias p.pending_subgroups_by_alias) [
  | none ↦ ([], p)
  | some streams ↦ (
    streams,
    record p {
      pending_subgroup_stream_count = sub_size p.pending_subgroup_stream_count (length streams);
      pending_subgroups_by_alias = erase alias p.pending_subgroups_by_alias;
    },
  )
]

module _ {W : Type 0} (owner : Owner W) where
  unfoldable pub on_peer_send_aborted : ℕ → State W → State W
  on_peer_send_aborted ref s = elim (receiver_at ref s) [
    | none ↦ s
    | some r ↦
        let s1 : State W =
          if r.waiting_for_route
          then record s { plane = discard_pending_subgroup r.alias ref s.plane }
          else s in
        put_receiver ref (record r { closed = true; waiting_for_route = false; stash = [] }) s1
  ]

  abbrev keep_unread : ℕ → List ℕ × State W → State W
  keep_unread ref (c, s) =
      update owner ref (λ r. record r { stash = if is_closed owner ref s then [] else c }) s

  -- `SubgroupReceiver::establish`
  unfoldable pub establish : ℕ → ℕ → State W → State W
  establish route ref s = elim (receiver_at ref s) [
    | none ↦ s
    | some r ↦
        if r.closed || not r.waiting_for_route
        then s
        else keep_unread ref (
            run owner ref r.fin_while_pending r.stash
              (put_receiver ref (record r { route = some route; waiting_for_route = false }) s))
  ]

  unfoldable pub establish_all : ℕ → List ℕ → State W → State W
  establish_all route [] s = s
  establish_all route (ref ∷ refs) s = establish_all route refs (establish route ref s)

  -- Each datagram leaves the count of bytes before it is delivered.
  unfoldable pub replay : List ByteBuffer → State W → State W
  replay [] s = s
  replay (datagram ∷ datagrams) s = replay datagrams (
      deliver_datagram owner datagram false (record s {
        plane = record s.plane {
          buffered_datagram_bytes = sub_size s.plane.buffered_datagram_bytes (length datagram);
        };
      }))

  -- `route` is a route on the heap; `false` is an alias that is already routed.
  unfoldable pub install_route : ℕ → ℕ → State W → Bool × State W
  install_route alias route s = elim (find alias s.plane.routes_by_alias) [
    | some established ↦ (false, s)
    | none ↦
        let routed : DataPlane = record s.plane {
          routes_by_alias = insert alias route s.plane.routes_by_alias;
        } in
        let (pending, plane) = take_pending alias routed in
        let datagrams : List ByteBuffer = entries alias plane.unknown_datagrams in
        let forgotten : DataPlane = record plane {
          unknown_datagrams = erase alias plane.unknown_datagrams;
        } in
        (true, establish_all route pending (replay datagrams (record s { plane = forgotten })))
  ]

  -- `DataPlane::start_subgroup_stream`; the receiver is a new object on the heap.
  unfoldable pub start_subgroup_stream : ℕ → ByteBuffer → Bool → State W → State W
  start_subgroup_stream stream prefix fin s =
      on_receive owner (length s.plane.receivers) [] fin (record s {
        plane = record s.plane {
          receivers = s.plane.receivers ++ (new_receiver stream prefix ∷ []);
        };
      })
