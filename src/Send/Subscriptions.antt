-- ===== src/Send/Subscriptions.antt =====
-- The tracks and the subscriptions of src/send_data_plane.cpp.
pub mod Laws
use moqtopus.Common.{
  ℕ, ◌==◌, ◌||◌, Bool, true, false, not, List, [], ◌∷◌, Option, none, some, if◌then◌else◌, find,
  insert, erase,
}
use moqtopus.Common.Keyed.{find_by, insert_by, erase_by}
use moqtopus.Types.{TrackName, TrackNamespace, Location, namespace_eq}
use moqtopus.Codec.Decoders.Options.{SubscriptionFilter, SubscriptionOptions}
use moqtopus.Codec.Objects.{value_or, is_some}
use moqtopus.Send.{
  PublishedTrack, TrackKey, same_track, TrackEntry, OpenSubgroupStream, SubscriptionSend,
  SendDataPlane, State, subscription_at,
}
use moqtopus.Send.Filter.{nonzero, origin, resolve_filter, past_end}

abbrev pub track_at : TrackKey → SendDataPlane → Option TrackEntry
track_at key p = find_by same_track key p.tracks

abbrev pub put_track : TrackKey → TrackEntry → SendDataPlane → SendDataPlane
put_track key entry p = record p { tracks = insert_by same_track key entry p.tracks }

-- `SendDataPlane::register_track`
unfoldable pub register_track : PublishedTrack → SendDataPlane → Bool × SendDataPlane
register_track track p =
    let key : TrackKey = (track.track_namespace, track.track_name) in
    elim (track_at key p) [
      | some entry ↦ (false, p)
      | none ↦
          (true, put_track key (record { track = track; largest = none; subscriptions = [] }) p)
    ]

-- `SendDataPlane::unregister_track`
unfoldable pub unregister_track : TrackNamespace → TrackName → SendDataPlane → Bool × SendDataPlane
unregister_track namespace name p = (
  is_some (track_at (namespace, name) p),
  record p { tracks = erase_by same_track (namespace, name) p.tracks },
)

-- `SendDataPlane::find_track`
unfoldable pub find_track : TrackNamespace → TrackName → SendDataPlane → Option TrackEntry
find_track namespace name p = track_at (namespace, name) p

any_in_namespace : TrackNamespace → List (TrackKey × TrackEntry) → Bool
any_in_namespace namespace [] = false
any_in_namespace namespace ((key, entry) ∷ tracks) =
    namespace_eq entry.track.track_namespace namespace || any_in_namespace namespace tracks

-- `SendDataPlane::has_track_in_namespace`
pub has_track_in_namespace : TrackNamespace → SendDataPlane → Bool
has_track_in_namespace namespace p = any_in_namespace namespace p.tracks

-- The reasons to refuse a subscription, each with the RequestErrorCode that it is sent as.
pub data Refusal : Type 0 where
  timeouts_unsupported track_not_registered not_established already_published : Refusal

pub code : Refusal → ℕ
code Refusal.timeouts_unsupported = 0x3
code Refusal.track_not_registered = 0x10
code Refusal.not_established = 0x10
code Refusal.already_published = 0x11

abbrev pub wants_timeout : SubscriptionOptions → Bool
wants_timeout options =
    nonzero options.subgroup_delivery_timeout || nonzero options.object_delivery_timeout

-- The range that the filter asks for; `none` is a range that was already published.
unfoldable pub requested_range :
    Option SubscriptionFilter → Option Location → Location × Option ℕ → Option (Location × Option ℕ)
requested_range none largest old = some old
requested_range (some filter) largest old =
    let (start, end_group) = resolve_filter filter largest in
    elim largest [
      | none ↦ some (start, end_group)
      | some l ↦ if past_end end_group l.group then none else some (start, end_group)
    ]

-- `insert` of an unordered set
pub add_to_set : ℕ → List ℕ → List ℕ
add_to_set id [] = id ∷ []
add_to_set id (x ∷ xs) = if x == id then x ∷ xs else x ∷ add_to_set id xs

pub remove_from_set : ℕ → List ℕ → List ℕ
remove_from_set id [] = []
remove_from_set id (x ∷ xs) = if x == id then xs else x ∷ remove_from_set id xs

abbrev new_subscription : ℕ → ℕ → TrackKey → SubscriptionOptions → SubscriptionSend
new_subscription request_id track_alias key options = record {
  request_id = request_id;
  track_alias = track_alias;
  track_key = key;
  forward = not (value_or options.forward 1 == 0);
  start = origin;
  end_group = none;
  stream_count = 0;
  streams = [];
}

-- `subscriptions_.emplace`: an entry that is there stays.
abbrev pub emplace :
    ℕ → SubscriptionSend → List (ℕ × SubscriptionSend) → List (ℕ × SubscriptionSend)
emplace id sub m = if is_some (find id m) then m else insert id sub m

-- `SendDataPlane::attach_subscription`
unfoldable pub attach_subscription :
    ℕ
    → ℕ
    → TrackNamespace
    → TrackName
    → SubscriptionOptions
    → SendDataPlane
    → Option Refusal × SendDataPlane
attach_subscription request_id track_alias namespace name options p =
    let key : TrackKey = (namespace, name) in
    if wants_timeout options
    then (some Refusal.timeouts_unsupported, p)
    else elim (track_at key p) [
      | none ↦ (some Refusal.track_not_registered, p)
      | some entry ↦ elim (requested_range options.filter entry.largest (origin, none)) [
        | none ↦ (some Refusal.already_published, p)
        | some (start, end_group) ↦
            let sub : SubscriptionSend =
              record (new_subscription request_id track_alias key options) {
                start = start;
                end_group = end_group;
              } in
            (
              none,
              record (put_track key
                  (record entry { subscriptions = add_to_set request_id entry.subscriptions }) p) {
                    subscriptions = emplace request_id sub p.subscriptions;
                  },
            )
      ]
    ]

-- `SendDataPlane::update_subscription`
pub update_subscription : ℕ → SubscriptionOptions → SendDataPlane → Option Refusal × SendDataPlane
update_subscription request_id options p = elim (find request_id p.subscriptions) [
  | none ↦ (some Refusal.not_established, p)
  | some sub ↦
      let largest : Option Location = elim (track_at sub.track_key p) [
        | none ↦ none
        | some entry ↦ entry.largest
      ] in
      if wants_timeout options
      then (some Refusal.timeouts_unsupported, p)
      else elim (requested_range options.filter largest (sub.start, sub.end_group)) [
        | none ↦ (some Refusal.already_published, p)
        | some (start, end_group) ↦ (
          none,
          record p {
            subscriptions =
                insert request_id
                  (record sub {
                    start = start;
                    end_group = end_group;
                    forward = elim options.forward [ none ↦ sub.forward | some f ↦ not (f == 0) ];
                  })
                  p.subscriptions;
          },
        )
      ]
]

-- The end of `detach_subscription`.
unfoldable pub forget : ℕ → TrackKey → SendDataPlane → SendDataPlane
forget request_id key p =
    let tracks : List (TrackKey × TrackEntry) = elim (track_at key p) [
      | none ↦ p.tracks
      | some entry ↦
          insert_by same_track key
            (record entry { subscriptions = remove_from_set request_id entry.subscriptions })
            p.tracks
    ] in
    record p { tracks = tracks; subscriptions = erase request_id p.subscriptions }

module _ {W : Type 0} (abort_send : ℕ → ℕ → State W → State W)
    (finish_send : ℕ → State W → State W) where
  -- FIN on completion, RESET on cancellation.
  unfoldable pub end_streams : Option ℕ → List ((ℕ × ℕ) × OpenSubgroupStream) → State W → State W
  end_streams reset_error [] s = s
  end_streams reset_error ((key, open_stream) ∷ streams) s =
      end_streams reset_error streams (elim reset_error [
        | none ↦ finish_send open_stream.stream s
        | some error ↦ abort_send open_stream.stream error s
      ])

  -- `SendDataPlane::detach_subscription`: the number of streams that were opened.
  unfoldable pub detach_subscription : ℕ → Option ℕ → State W → ℕ × State W
  detach_subscription request_id reset_error s = elim (subscription_at request_id s) [
    | none ↦ (0, s)
    | some sub ↦
        let ended : State W = end_streams reset_error sub.streams s in
        (sub.stream_count, record ended { plane = forget request_id sub.track_key ended.plane })
  ]
