-- ===== src/Tests/Send.antt =====
-- Concrete subscriptions and objects, for src/send_data_plane.cpp.
use moqtopus.Common.{
  length, suc, List, ℕ, ◌≡◌, refl, arith, [], ◌∷◌, ◌++◌, true, false, Option, none, some,
}
use moqtopus.Types.{Location, DeliveryKind, namespace_eq, bytes_eq}
use moqtopus.Common.Keyed.{find_by}
use moqtopus.Codec.Decoders.Options.{SubscriptionFilter}
use moqtopus.Receive.Parse.{done, parse_object_fields, next_object_id}
use moqtopus.Receive.Parse.RoundTrip.{object_fields, carried_status, carried_payload}
use moqtopus.Send.{PublishedObject, SubscriptionSend}
use moqtopus.Send.{TrackEntry, SendDataPlane, State, same_track}
use moqtopus.Send.Subscriptions.{
  find_track, attach_subscription, detach_subscription, requested_range,
}
use moqtopus.Send.Subscriptions.Laws.{is_in, detach_subscription-attach_subscription}
use moqtopus.Codec.Decoders.Options.{SubscriptionOptions}
use moqtopus.Send.Filter.{nonzero, valid_publish_status}
use moqtopus.Send.Streams.{
  is_final_status, sent_properties, object_delta, out_of_order, marks_end_of_group, object_bytes,
}
use moqtopus.Receive.Subgroup.{object_loop}
use moqtopus.Send.Streams.Delivery.{stream_bytes, hand_over_all, object_loop-stream_bytes}
use moqtopus.Tests.Receive.{logging, receiver, start}
use moqtopus.Send.Streams.RoundTrip.{marker, parse_object_fields-object_bytes}

abbrev place : ℕ → ℕ → Location
place group object = record { group = group; object = object }

-- A subscription to the alias 7 with a range.
abbrev subscription : Location → Option ℕ → SubscriptionSend
subscription from to = record {
  request_id = 4;
  track_alias = 7;
  track_key = ([], 116 ∷ []);
  forward = true;
  start = from;
  end_group = to;
  stream_count = 0;
  streams = [];
}

abbrev filter_of : ℕ → SubscriptionFilter
filter_of type = record { filter_type = type; start = place 2 1; end_group_delta = 3 }

abbrev published : PublishedObject
published = record {
  track_namespace = [];
  track_name = 116 ∷ [];
  group_id = 5;
  subgroup_id = 0;
  object_id = 6;
  publisher_priority = 128;
  properties = 9 ∷ [];
  payload = 65 ∷ [];
  status = none;
  delivery_kind = DeliveryKind.subgroup_stream;
  end_of_subgroup = false;
  end_of_group = true;
}

parse_object_fields-object_bytes_example :
    (parse_object_fields 3 true (object_bytes (some 3) published ++ (1 ∷ []))
      ≡ done (
        object_fields
            (object_delta (some 3) 6)
            (sent_properties none (9 ∷ []))
            (carried_status none (65 ∷ []))
            (carried_payload none (65 ∷ [])),
        marker published ++ (1 ∷ []),
      ))
    × (next_object_id (some 3) (object_delta (some 3) 6) ≡ some 6)
unfolding out_of_order valid_publish_status
parse_object_fields-object_bytes_example =
    parse_object_fields-object_bytes 3 (some 3) published (1 ∷ []) (omega arith) (omega arith) refl
      refl (omega arith) (omega arith)

-- Two objects of one stream.
abbrev two_objects : List PublishedObject
two_objects =
    record published { end_of_group = false }
    ∷ record published { object_id = 9; payload = []; end_of_group = false; end_of_subgroup = true }
    ∷ []

object_loop-stream_bytes_example :
    object_loop logging
      (suc (length (stream_bytes none two_objects)))
      0
      true
      (stream_bytes none two_objects)
      start
    ≡ ([], hand_over_all logging 0 0 0 receiver none two_objects start)
unfolding out_of_order valid_publish_status marks_end_of_group is_final_status
object_loop-stream_bytes_example =
    object_loop-stream_bytes logging 0 0 0 receiver (λ h o t. refl) (λ id x t. refl)
      (suc (length (stream_bytes none two_objects))) true none two_objects start refl tt
      (
        refl,
        refl,
        refl,
        omega arith,
        omega arith,
        omega arith,
        (refl, refl, refl, omega arith, omega arith, omega arith, tt),
      )
      (omega arith)

-- Streams that do nothing.
abbrev aborted : ℕ → ℕ → State ℕ → State ℕ
aborted stream code s = s

abbrev finished : ℕ → State ℕ → State ℕ
finished stream s = s

abbrev plain_options : SubscriptionOptions
plain_options = record {
  object_delivery_timeout = none;
  subgroup_delivery_timeout = none;
  filter = none;
  forward = some 1;
}

-- A track with one subscription.
abbrev entry : TrackEntry
entry = record {
  track = record { track_namespace = []; track_name = 116 ∷ []; track_properties = [] };
  largest = some (place 5 6);
  subscriptions = 4 ∷ [];
}

abbrev tracks : SendDataPlane
tracks = record {
  tracks = (([], 116 ∷ []), entry) ∷ [];
  subscriptions = (4, subscription (place 0 0) none) ∷ [];
}

detach_subscription-attach_subscription_example :
    detach_subscription aborted finished 6
      (some 0)
      (record { plane = (attach_subscription 6 8 [] (116 ∷ []) plain_options tracks).1; world = 0 })
    ≡ (0, record { plane = tracks; world = 0 })
unfolding is_in find_track find_by same_track namespace_eq bytes_eq attach_subscription
    requested_range nonzero
detach_subscription-attach_subscription_example =
    detach_subscription-attach_subscription aborted finished 6 8 [] (116 ∷ []) plain_options
      (some 0) tracks 0 entry refl refl refl refl
