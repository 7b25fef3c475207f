-- ===== src/Receive.antt =====
-- The receiving data plane: src/data_plane.h and src/data_plane.cpp. Routes and subgroup receivers are
-- shared objects, so they stand on a heap and are named by their positions. What the plane calls back
-- is an `Owner`, which may change the world and, through the plane's public operations, the plane.
pub mod Deliver
pub mod Routes
pub mod Parse
pub mod Datagram
pub mod Subgroup
pub mod Establish
pub mod Frame
use moqtopus.Common.{ℕ, ◌==◌, ◌||◌, Bool, true, false, List, [], Option, none, get_elem?, set}
use moqtopus.Types.{ByteBuffer, Location, Object}

pub data UnknownAliasPolicy : Type 0 where
  drop buffer error : UnknownAliasPolicy

pub record SubscriberConfig : Type 0 where
  pub unknown_alias_policy : UnknownAliasPolicy
  pub max_buffered_datagrams_per_alias : ℕ
  pub max_buffered_datagram_bytes : ℕ
  pub max_pending_subgroup_streams : ℕ
  pub max_buffered_subgroup_bytes_per_stream : ℕ

-- `handler` names the application's ObjectHandler.
pub record ReceiveRoute : Type 0 where
  pub request_id : ℕ
  pub active : Bool
  pub handler : ℕ
  pub final_object_in_group : List (ℕ × ℕ)
  pub final_object_in_track : Option Location

pub record SubgroupReceiver : Type 0 where
  pub stream_id : ℕ
  pub stash : ByteBuffer
  pub route : Option ℕ
  pub header_done : Bool
  pub closed : Bool
  pub waiting_for_route : Bool
  pub fin_while_pending : Bool
  pub properties_per_object : Bool
  pub end_of_group_on_fin : Bool
  pub subgroup_id_mode : ℕ
  pub alias : ℕ
  pub group_id : ℕ
  pub subgroup_id : Option ℕ
  pub publisher_priority : ℕ
  pub last_object_id : Option ℕ

-- The members of DataPlane, and the two heaps.
pub record DataPlane : Type 0 where
  pub config : SubscriberConfig
  pub routes : List ReceiveRoute
  pub receivers : List SubgroupReceiver
  pub routes_by_alias : List (ℕ × ℕ)
  pub pending_subgroups_by_alias : List (ℕ × List ℕ)
  pub pending_subgroup_stream_count : ℕ
  pub unknown_datagrams : List (ℕ × List ByteBuffer)
  pub buffered_datagram_bytes : ℕ

-- The texts of the errors that the plane reports, with the numbers that they quote.
pub data Fault : Type 0 where
  datagram_type_malformed padding_not_zero datagram_type_invalid datagram_header_truncated : Fault
  datagram_object_id_truncated datagram_priority_truncated datagram_properties_invalid : Fault
  datagram_status_invalid header_cut_short stream_type_invalid object_cut_short : Fault
  object_properties_invalid object_id_overflow : Fault
  datagram_alias_unknown stream_alias_unknown : ℕ → Fault
  object_status_invalid : ℕ → ℕ → Fault
  after_final_in_group after_final_in_track : Fault

-- The plane together with the rest of the program.
pub record State (W : Type 0) : Type 0 where
  pub plane : DataPlane
  pub world : W

-- `protocol_error`, `track_error`, the handler's `on_object` and `StreamContext::abort_receive`.
pub record Owner (W : Type 0) : Type 0 where
  pub protocol_error : Fault → State W → State W
  pub track_error : ℕ → Fault → State W → State W
  pub on_object : ℕ → Object → State W → State W
  pub abort_receive : ℕ → ℕ → State W → State W

-- `is_valid_object_status`
unfoldable pub is_valid_object_status : ℕ → Bool
is_valid_object_status status = status == 0x0 || (status == 0x3 || status == 0x4)

module _ {W : Type 0} where
  abbrev pub route_at : ℕ → State W → Option ReceiveRoute
  route_at ref s = get_elem? s.plane.routes ref

  abbrev pub put_route : ℕ → ReceiveRoute → State W → State W
  put_route ref r s = record s { plane = record s.plane { routes = set s.plane.routes ref r } }

  abbrev pub receiver_at : ℕ → State W → Option SubgroupReceiver
  receiver_at ref s = get_elem? s.plane.receivers ref

  abbrev pub put_receiver : ℕ → SubgroupReceiver → State W → State W
  put_receiver ref r s = record s {
    plane = record s.plane { receivers = set s.plane.receivers ref r };
  }
