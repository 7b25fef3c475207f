-- ===== src/Send.antt =====
-- The sending data plane: src/send_data_plane.h and src/send_data_plane.cpp. The session that owns the
-- plane is an `Outlet`, which may change the world and, through the plane's operations, the plane. A
-- reference to a subscription is its Request ID, and what it refers to is looked up when it is used.
pub mod Filter
pub mod Subscriptions
pub mod Streams
pub mod Publish
pub mod Frame
use moqtopus.Common.{
  [], ◌∷◌, if◌then◌else◌, ◌||◌, ◌∷◌, ltb, ℕ, ◌==◌, ◌&&◌, Bool, true, false, List, Option, none,
  some, find, insert,
}
use moqtopus.Types.{
  ByteBuffer, TrackName, TrackNamespace, Location, DeliveryKind, bytes_eq, namespace_eq,
}

pub record PublishedTrack : Type 0 where
  pub track_namespace : TrackNamespace
  pub track_name : TrackName
  pub track_properties : ByteBuffer

pub record PublishedObject : Type 0 where
  pub track_namespace : TrackNamespace
  pub track_name : TrackName
  pub group_id : ℕ
  pub subgroup_id : ℕ
  pub object_id : ℕ
  pub publisher_priority : ℕ
  pub properties : ByteBuffer
  pub payload : ByteBuffer
  pub status : Option ℕ
  pub delivery_kind : DeliveryKind
  pub end_of_subgroup : Bool
  pub end_of_group : Bool

abbrev pub TrackKey : Type 0
TrackKey = TrackNamespace × TrackName

unfoldable pub same_track : TrackKey → TrackKey → Bool
same_track (namespace, name) (namespace', name') =
    namespace_eq namespace namespace' && bytes_eq name name'

pub same_subgroup : ℕ × ℕ → ℕ × ℕ → Bool
same_subgroup (group, subgroup) (group', subgroup') = group == group' && subgroup == subgroup'

-- The order of a `std::map` whose keys are pairs.
subgroup_before : ℕ × ℕ → ℕ × ℕ → Bool
subgroup_before (group, subgroup) (group', subgroup') =
    ltb group group' || group == group' && ltb subgroup subgroup'

-- The unordered set of subscriptions is a list: it is walked in the list's order.
pub record TrackEntry : Type 0 where
  pub track : PublishedTrack
  pub largest : Option Location
  pub subscriptions : List ℕ

-- `stream` names the StreamContext.
pub record OpenSubgroupStream : Type 0 where
  pub stream : ℕ
  pub last_object_id : Option ℕ

-- `streams[key] = stream`, in the order of the keys.
pub insert_stream :
    ℕ × ℕ
    → OpenSubgroupStream
    → List ((ℕ × ℕ) × OpenSubgroupStream)
    → List ((ℕ × ℕ) × OpenSubgroupStream)
insert_stream key stream [] = (key, stream) ∷ []
insert_stream key stream ((key', stream') ∷ streams) =
    if same_subgroup key' key
    then (key', stream) ∷ streams
    else if subgroup_before key key'
    then (key, stream) ∷ (key', stream') ∷ streams
    else (key', stream') ∷ insert_stream key stream streams

pub record SubscriptionSend : Type 0 where
  pub request_id : ℕ
  pub track_alias : ℕ
  pub track_key : TrackKey
  pub forward : Bool
  pub start : Location
  pub end_group : Option ℕ
  pub stream_count : ℕ
  pub streams : List ((ℕ × ℕ) × OpenSubgroupStream)

pub record SendDataPlane : Type 0 where
  pub tracks : List (TrackKey × TrackEntry)
  pub subscriptions : List (ℕ × SubscriptionSend)

pub record State (W : Type 0) : Type 0 where
  pub plane : SendDataPlane
  pub world : W

-- Why a subscription is complete.
pub data Completion : Type 0 where
  end_of_track end_of_range : Completion

-- `Callbacks`, and the operations of StreamContext that the plane calls.
pub record Outlet (W : Type 0) : Type 0 where
  pub open_data_stream : State W → Option ℕ × State W
  pub send_datagram : ByteBuffer → State W → Bool × State W
  pub subscription_complete : ℕ → Completion → State W → State W
  pub send : ℕ → ByteBuffer → Bool → State W → Bool × State W
  pub abort_send : ℕ → ℕ → State W → State W
  pub finish_send : ℕ → State W → State W

module _ {W : Type 0} where
  abbrev pub subscription_at : ℕ → State W → Option SubscriptionSend
  subscription_at id s = find id s.plane.subscriptions

  abbrev put_subscription : ℕ → SubscriptionSend → State W → State W
  put_subscription id sub s = record s {
    plane = record s.plane { subscriptions = insert id sub s.plane.subscriptions };
  }

  -- A change of a subscription that is there.
  pub change : ℕ → (SubscriptionSend → SubscriptionSend) → State W → State W
  change id f s = elim (subscription_at id s) [
    | none ↦ s
    | some sub ↦ put_subscription id (f sub) s
  ]
