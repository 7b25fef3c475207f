-- ===== src/Tests/Receive.antt =====
-- Concrete streams and datagrams, for src/data_plane.cpp.
use moqtopus.Common.{
  ℕ, suc, ◌≡◌, refl, arith, length, List, [], ◌∷◌, ◌++◌, true, false, Option, none, some, ◌⊎◌, inr,
}
use moqtopus.Types.{Object, DeliveryKind}
use moqtopus.Codec.Objects.{encode_object_datagram, encode_subgroup_header, encode_subgroup_object}
use moqtopus.Receive.{
  UnknownAliasPolicy, SubscriberConfig, ReceiveRoute, SubgroupReceiver, DataPlane, State, Owner,
}
use moqtopus.Receive.Deliver.{deliver}
use moqtopus.Receive.Deliver.Laws.{
  after_last, deliver_after_end_of_group, deliver_after_end_of_track,
}
use moqtopus.Receive.Routes.{find_route, find_or_park_subgroup}
use moqtopus.Receive.Routes.Pending.{IsCounted, find_or_park_subgroup-IsCounted}
use moqtopus.Receive.Parse.{done, parse_header_fields, parse_object_fields}
use moqtopus.Receive.Parse.RoundTrip.{
  header_of, written_type, parse_header_fields-encode, object_fields, can_be_sent, carried_status,
  carried_payload, parse_object_fields-encode,
}
use moqtopus.Receive.Datagram.{keep_datagram, deliver_datagram}
use moqtopus.Receive.Datagram.RoundTrip.{sent_object, announced, deliver_datagram-encode}
use moqtopus.Receive.Datagram.Bounds.{IsAccounted, keep_datagram-IsAccounted}
use moqtopus.Receive.Subgroup.{object_loop}
use moqtopus.Receive.Subgroup.Stream.{object_loop_enough_fuel, object_loop_split}

-- An owner that keeps a log.
abbrev log : ℕ → State (List ℕ) → State (List ℕ)
log n s = record s { world = n ∷ s.world }

abbrev pub logging : Owner (List ℕ)
logging = record {
  protocol_error = λ fault s. log 1 s;
  track_error = λ request fault s. log 2 s;
  on_object = λ handler object s. log 3 s;
  abort_receive = λ stream code s. log 4 s;
}

abbrev config : SubscriberConfig
config = record {
  unknown_alias_policy = UnknownAliasPolicy.buffer;
  max_buffered_datagrams_per_alias = 2;
  max_buffered_datagram_bytes = 100;
  max_pending_subgroup_streams = 2;
  max_buffered_subgroup_bytes_per_stream = 100;
}

abbrev route : ReceiveRoute
route = record {
  request_id = 4;
  active = true;
  handler = 0;
  final_object_in_group = [];
  final_object_in_track = none;
}

abbrev pub receiver : SubgroupReceiver
receiver = record {
  stream_id = 3;
  stash = [];
  route = some 0;
  header_done = true;
  closed = false;
  waiting_for_route = false;
  fin_while_pending = false;
  properties_per_object = true;
  end_of_group_on_fin = false;
  subgroup_id_mode = 0;
  alias = 7;
  group_id = 5;
  subgroup_id = some 0;
  publisher_priority = 128;
  last_object_id = none;
}

-- The alias 7 is routed; a stream waits for the alias 9.
abbrev pub plane : DataPlane
plane = record {
  config = config;
  routes = route ∷ [];
  receivers = receiver ∷ [];
  routes_by_alias = (7, 0) ∷ [];
  pending_subgroups_by_alias = (9, 1 ∷ []) ∷ [];
  pending_subgroup_stream_count = 1;
  unknown_datagrams = [];
  buffered_datagram_bytes = 0;
}

abbrev pub start : State (List ℕ)
start = record { plane = plane; world = [] }

plane-IsCounted : IsCounted plane
plane-IsCounted = record {
  keyed = (refl, tt);
  counted = refl;
  bounded = omega arith;
  config = omega arith;
}

plane-IsAccounted : IsAccounted plane
plane-IsAccounted = record {
  keyed = tt;
  accounted = refl;
  bounded = omega arith;
  few = λ alias. omega arith;
}

abbrev object : ℕ → Option ℕ → Object
object id status = record {
  request_id = 4;
  track_alias = 7;
  group_id = 5;
  subgroup_id = none;
  object_id = id;
  publisher_priority = 128;
  status = status;
  properties = [];
  payload = [];
  delivery_kind = DeliveryKind.datagram;
  stream_id = 0;
}

parse_header_fields-encode_example :
    parse_header_fields (encode_subgroup_header 7 5 300 128 ++ (1 ∷ []))
    ≡ done (header_of (written_type 300) 7 5 (some 300) 128, 1 ∷ [])
parse_header_fields-encode_example =
    parse_header_fields-encode 7 5 300 128 (1 ∷ []) (omega arith) (omega arith) (omega arith)

parse_object_fields-encode_example :
    parse_object_fields 3 true (encode_subgroup_object 2 (9 ∷ []) none (65 ∷ 66 ∷ []) ++ (1 ∷ []))
    ≡ done (
      object_fields 2
          (9 ∷ [])
          (carried_status none (65 ∷ 66 ∷ []))
          (carried_payload none (65 ∷ 66 ∷ [])),
      1 ∷ [],
    )
unfolding can_be_sent
parse_object_fields-encode_example =
    parse_object_fields-encode 3 2 (9 ∷ []) none (65 ∷ 66 ∷ []) (1 ∷ []) (omega arith) (omega arith)
      (omega arith) refl

routed : find_route 7 start.plane ≡ some 0
unfolding find_route
routed = refl

plain : can_be_sent none (9 ∷ []) ≡ true
unfolding can_be_sent
plain = refl

deliver_datagram-encode_example :
    deliver_datagram logging
      (encode_object_datagram 7 5 6 128 (9 ∷ []) none (65 ∷ []) true)
      true
      start
    ≡ deliver logging 0
        (sent_object logging 0 7 5 6 128
          (9 ∷ [])
          none
          (65 ∷ [])
          true
          start
          route
          routed
          refl
          (omega arith)
          plain)
        (announced logging 0 7 5 6 128
          (9 ∷ [])
          none
          (65 ∷ [])
          true
          start
          route
          routed
          refl
          (omega arith)
          plain)
deliver_datagram-encode_example =
    deliver_datagram-encode logging 0 7 5 6 128 (9 ∷ []) none (65 ∷ []) true start route routed refl
      (omega arith) plain true (omega arith) (omega arith) (omega arith)

keep_datagram-IsAccounted_example : IsAccounted (keep_datagram 9 (0 ∷ 9 ∷ 5 ∷ []) plane)
keep_datagram-IsAccounted_example =
    keep_datagram-IsAccounted 9 (0 ∷ 9 ∷ 5 ∷ []) plane (omega arith) plane-IsAccounted

object_loop_enough_fuel_example :
    object_loop logging 5 0 false (0 ∷ 0 ∷ 1 ∷ 65 ∷ []) start
    ≡ object_loop logging 9 0 false (0 ∷ 0 ∷ 1 ∷ 65 ∷ []) start
object_loop_enough_fuel_example =
    object_loop_enough_fuel logging 0 5 9 false (0 ∷ 0 ∷ 1 ∷ 65 ∷ []) start (omega arith)
      (omega arith)

object_loop_split_example :
    let first = object_loop logging 7 0 false (0 ∷ 0 ∷ 1 ∷ 65 ∷ 0 ∷ 0 ∷ []) start in
    object_loop logging 9 0 true ((0 ∷ 0 ∷ 1 ∷ 65 ∷ 0 ∷ 0 ∷ []) ++ (1 ∷ 66 ∷ [])) start
    ≡ object_loop logging
        (suc (length (first.0 ++ (1 ∷ 66 ∷ []))))
        0
        true
        (first.0 ++ (1 ∷ 66 ∷ []))
        first.1
object_loop_split_example =
    object_loop_split logging 0 (λ x t closed. closed) true (0 ∷ 0 ∷ 1 ∷ 65 ∷ 0 ∷ 0 ∷ [])
      (1 ∷ 66 ∷ []) start

find_or_park_subgroup-IsCounted_example : IsCounted (find_or_park_subgroup 9 2 plane).1
find_or_park_subgroup-IsCounted_example = find_or_park_subgroup-IsCounted 9 2 plane plane-IsCounted

deliver_after_end_of_group_example :
    deliver logging 0
      (object 6 none)
      (after_last logging 0 start route (object 5 (some 3)) (object 6 none) refl refl)
    ≡ log 2 (after_last logging 0 start route (object 5 (some 3)) (object 6 none) refl refl)
deliver_after_end_of_group_example =
    deliver_after_end_of_group logging 0 start route (object 5 (some 3)) (object 6 none) refl refl
      refl refl (omega arith)

deliver_after_end_of_track_example :
    (deliver logging 0
        (object 6 none)
        (after_last logging 0 start route (object 5 (some 4)) (object 6 none) refl refl)
      ≡ log 2 (after_last logging 0 start route (object 5 (some 4)) (object 6 none) refl refl))
    ⊎ (deliver logging 0
          (object 6 none)
          (after_last logging 0 start route (object 5 (some 4)) (object 6 none) refl refl)
        ≡ log 2 (after_last logging 0 start route (object 5 (some 4)) (object 6 none) refl refl))
deliver_after_end_of_track_example =
    deliver_after_end_of_track logging 0 start route (object 5 (some 4)) (object 6 none) refl refl
      refl (inr (refl, omega arith))
