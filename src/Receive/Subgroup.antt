-- ===== src/Receive/Subgroup.antt =====
-- `SubgroupReceiver` of src/data_plane.cpp. `ref` is the receiver's place on the heap.
pub mod Stream
use moqtopus.Common.{
  ℕ, zero, suc, ◌+◌, bit_and, length, ltb, ◌==◌, Bool, true, false, not, ◌&&◌, ◌||◌, List, [], ◌∷◌,
  ◌++◌, Option, none, some, if◌then◌else◌, is_empty, insert,
}
use moqtopus.Types.{ByteBuffer, Object, DeliveryKind}
use moqtopus.Receive.{
  UnknownAliasPolicy, DataPlane, ReceiveRoute, SubgroupReceiver, State, Owner, Fault, route_at,
  put_route, receiver_at, put_receiver, header_cut_short, object_cut_short, object_id_overflow,
  stream_alias_unknown,
}
use moqtopus.Receive.Deliver.{deliver}
use moqtopus.Receive.Routes.{
  Parking, established, parked, full, find_route, find_or_park_subgroup, discard_pending_subgroup,
}
use moqtopus.Receive.Parse.{
  Parse, done, need_more_data, failed, Header, subgroup_mode, parse_header_fields, ObjectFields,
  parse_object_fields, next_object_id,
}

-- What `concat` makes of the chunks of a receive event.
unfoldable pub concat : List ByteBuffer → ByteBuffer
concat [] = []
concat (chunk ∷ chunks) = chunk ++ concat chunks

module _ {W : Type 0} (owner : Owner W) where
  open owner use {protocol_error, abort_receive}

  -- `closed_`, of a receiver that is on the heap.
  abbrev pub is_closed : ℕ → State W → Bool
  is_closed ref s = elim (receiver_at ref s) [ none ↦ true | some r ↦ r.closed ]

  -- A change of the receiver's members.
  abbrev pub update : ℕ → (SubgroupReceiver → SubgroupReceiver) → State W → State W
  update ref f s = elim (receiver_at ref s) [ none ↦ s | some r ↦ put_receiver ref (f r) s ]

  unfoldable pub fail : ℕ → Fault → State W → State W
  fail ref fault s = protocol_error fault (update ref (λ r. record r { closed = true }) s)

  unfoldable pub abandon : ℕ → State W → State W
  abandon ref s = elim (receiver_at ref s) [
    | none ↦ s
    | some r ↦
        let s1 =
          if r.waiting_for_route
          then record s { plane = discard_pending_subgroup r.alias ref s.plane }
          else s in
        update ref (λ r'. record r' { closed = true; waiting_for_route = false; stash = [] })
          (abort_receive r.stream_id 0 s1)
  ]

  unfoldable pub enforce_pending_buffer_limit : ℕ → State W → State W
  enforce_pending_buffer_limit ref s = elim (receiver_at ref s) [
    | none ↦ s
    | some r ↦
        if r.waiting_for_route
          && ltb s.plane.config.max_buffered_subgroup_bytes_per_stream (length r.stash)
        then abandon ref s
        else s
  ]

  -- The members that a whole header sets.
  abbrev with_header : Header → SubgroupReceiver → SubgroupReceiver
  with_header h r = record r {
    properties_per_object = not (bit_and h.type 0x01 == 0);
    end_of_group_on_fin = not (bit_and h.type 0x08 == 0);
    subgroup_id_mode = subgroup_mode h.type;
    alias = h.alias;
    group_id = h.group_id;
    subgroup_id = h.subgroup_id;
    publisher_priority = h.publisher_priority;
  }

  -- `header_done_ = true`, with the route or without.
  abbrev header_ends : ℕ → Option ℕ → State W → State W
  header_ends ref (some route) s =
      update ref (λ r. record r { route = some route; header_done = true }) s
  header_ends ref none s =
      update ref (λ r. record r { waiting_for_route = true; header_done = true }) s

  -- The end of `parse_header`: the route by the policy for unknown aliases.
  unfoldable pub resolve_route : ℕ → ℕ → State W → State W
  resolve_route ref alias s = elim s.plane.config.unknown_alias_policy [
    | UnknownAliasPolicy.error ↦ elim (find_route alias s.plane) [
      | none ↦ fail ref (stream_alias_unknown alias) s
      | some route ↦ header_ends ref (some route) s
    ]
    | UnknownAliasPolicy.drop ↦ elim (find_route alias s.plane) [
      | none ↦ abandon ref s
      | some route ↦ header_ends ref (some route) s
    ]
    | UnknownAliasPolicy.buffer ↦
        let (place, plane) = find_or_park_subgroup alias ref s.plane in
        let s' : State W = record s { plane = plane } in
        elim place [
          | established route ↦ header_ends ref (some route) s'
          | parked ↦ header_ends ref none s'
          | full ↦ abandon ref s'
        ]
  ]

  -- The object of a parsed record of bytes, and the members that it changes.
  abbrev pub object_of : SubgroupReceiver → ℕ → Option ℕ → ObjectFields → ℕ → Object
  object_of r request_id subgroup_id f id = record {
    request_id = request_id;
    track_alias = r.alias;
    group_id = r.group_id;
    subgroup_id = some (elim subgroup_id [ none ↦ 0 | some x ↦ x ]);
    object_id = id;
    publisher_priority = r.publisher_priority;
    status = f.status;
    properties = f.properties;
    payload = f.payload;
    delivery_kind = DeliveryKind.subgroup_stream;
    stream_id = r.stream_id;
  }

  -- `if (subgroup_id_mode_ == 0x01 && !subgroup_id_) subgroup_id_ = object_id;`
  abbrev subgroup_after : SubgroupReceiver → ℕ → Option ℕ
  subgroup_after r id = elim r.subgroup_id [
    | none ↦ if r.subgroup_id_mode == 0x01 then some id else none
    | some x ↦ some x
  ]

  -- The end of `parse_object`: the Object ID, and the delivery on the route.
  unfoldable pub accept_object : ℕ → SubgroupReceiver → ObjectFields → State W → State W
  accept_object ref r f s = elim (next_object_id r.last_object_id f.delta) [
    | none ↦ fail ref object_id_overflow s
    | some id ↦
        let subgroup = subgroup_after r id in
        let s1 =
          put_receiver ref (record r { subgroup_id = subgroup; last_object_id = some id }) s in
        elim r.route [
          | none ↦ s1
          | some route_ref ↦ elim (route_at route_ref s1) [
            | none ↦ s1
            | some route ↦ deliver owner route_ref (object_of r route.request_id subgroup f id) s1
          ]
        ]
  ]

  -- The loop of `run`, with what is left of the cursor. Each object takes a byte at least.
  unfoldable pub object_loop : ℕ → ℕ → Bool → List ℕ → State W → List ℕ × State W
  object_loop zero ref fin c s = (c, s)
  object_loop (suc fuel) ref fin c s = elim (receiver_at ref s) [
    | none ↦ (c, s)
    | some r ↦ elim r.closed [
      | true ↦ (c, s)
      | false ↦ elim (parse_object_fields r.stream_id r.properties_per_object c) [
        | failed fault ↦ (c, fail ref fault s)
        | need_more_data ↦
            if fin && not (is_empty c) then (c, fail ref object_cut_short s) else (c, s)
        | done (f, rest) ↦ object_loop fuel ref fin rest (accept_object ref r f s)
      ]
    ]
  ]

  -- `if (fin && !closed_)`
  unfoldable pub finish : ℕ → Bool → State W → State W
  finish ref fin s = elim (receiver_at ref s) [
    | none ↦ s
    | some r ↦
        if fin && not r.closed
        then (let s1 = put_receiver ref (record r { closed = true }) s in
            elim r.route [
              | none ↦ s1
              | some route_ref ↦ elim (route_at route_ref s1) [
                | none ↦ s1
                | some route ↦ elim r.last_object_id [
                  | none ↦ s1
                  | some last ↦
                      if r.end_of_group_on_fin
                      then put_route route_ref
                          (record route {
                            final_object_in_group =
                                insert r.group_id last route.final_object_in_group;
                          })
                          s1
                      else s1
                ]
              ]
            ])
        else s
  ]

  -- `run` behind the header.
  unfoldable pub run_objects : ℕ → Bool → List ℕ → State W → List ℕ × State W
  run_objects ref fin c s = elim (receiver_at ref s) [
    | none ↦ (c, s)
    | some r ↦
        if r.waiting_for_route
        then (c, put_receiver ref (record r { fin_while_pending = r.fin_while_pending || fin }) s)
        else (let (c', s') = object_loop (suc (length c)) ref fin c s in (c', finish ref fin s'))
  ]

  -- `run`
  unfoldable pub run : ℕ → Bool → List ℕ → State W → List ℕ × State W
  run ref fin c s = elim (receiver_at ref s) [
    | none ↦ (c, s)
    | some r ↦ if r.header_done then run_objects ref fin c s else elim (parse_header_fields c) [
      | failed fault ↦ (c, fail ref fault s)
      | need_more_data ↦ if fin then (c, fail ref header_cut_short s) else (c, s)
      | done (h, rest) ↦
          let s1 = resolve_route ref h.alias (update ref (with_header h) s) in
          if is_closed ref s1 then (rest, s1) else run_objects ref fin rest s1
    ]
  ]

  -- What `on_receive` keeps of the bytes.
  abbrev keep_rest : ℕ → List ℕ × State W → State W
  keep_rest ref (c, s) =
      if is_closed ref s
      then update ref (λ r. record r { stash = [] }) s
      else enforce_pending_buffer_limit ref (update ref (λ r. record r { stash = c }) s)

  -- `on_receive`. With one chunk and nothing stashed the bytes are read in place; a receiver that
  -- closes there has no stash to clear.
  unfoldable pub on_receive : ℕ → List ByteBuffer → Bool → State W → State W
  on_receive ref chunks fin s = elim (receiver_at ref s) [
    | none ↦ s
    | some r ↦ if r.closed then s else keep_rest ref (run ref fin (r.stash ++ concat chunks) s)
  ]
