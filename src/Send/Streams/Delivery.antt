-- ===== src/Send/Streams/Delivery.antt =====
-- A whole subgroup stream, from src/send_data_plane.cpp to the handler behind src/data_plane.cpp.
use moqtopus.Common.{
  ℕ, zero, suc, ◌<◌, ◌≤◌, ◌≡◌, refl, ◌∙◌, arith, length, Bool, true, false, not, ◌&&◌, List, [],
  ◌∷◌, ◌++◌, Option, none, some, if◌then◌else◌, inl, inr, Bool-cases, get_elem?-set, is_empty, ap,
}
use moqtopus.Types.{Object}
use moqtopus.Codec.Cursor
use moqtopus.Codec.Varint
use moqtopus.Codec.Varint.{IsU64}
use moqtopus.Receive.{
  object_cut_short, ReceiveRoute, SubgroupReceiver, State, Owner, Fault, route_at, receiver_at,
  put_receiver,
}
use moqtopus.Receive.Deliver.{follows_group_end, follows_track_end, deliver}
use moqtopus.Receive.Parse.{
  done, need_more_data, ObjectFields, parse_object_fields, next_object_id, ◌>>=◌, varint, want,
}
use moqtopus.Receive.Parse.RoundTrip.{carried_status, carried_payload, object_fields}
use moqtopus.Receive.Parse.Streaming.{parse_object_fields_shrinks}
use moqtopus.Receive.Subgroup.{object_of, accept_object, object_loop, fail}
use moqtopus.Receive.Subgroup.Stream.{loop_done, loop_ends}
use moqtopus.Send.{PublishedObject}
use moqtopus.Send.Filter.{valid_publish_status}
use moqtopus.Send.Streams.{
  sent_properties, object_delta, out_of_order, marks_end_of_group, object_bytes,
}
use moqtopus.Send.Streams.RoundTrip.{AllU64, marker, parse_object_fields-object_bytes}

-- The bytes of the objects on one stream, behind its header.
pub stream_bytes : Option ℕ → List PublishedObject → List ℕ
stream_bytes last [] = []
stream_bytes last (o ∷ os) = object_bytes last o ++ stream_bytes (some o.object_id) os

-- What the sender asks of the objects that it appends: each follows the one before and is valid, and
-- none of them ends its group.
abbrev AreSendable : Option ℕ → List PublishedObject → Type 0
AreSendable last [] = Unit
AreSendable last (o ∷ os) =
    (out_of_order last o.object_id ≡ false)
    × (valid_publish_status o ≡ true)
    × (marks_end_of_group o ≡ false)
    × IsU64 o.object_id
    × (length o.properties ≤ 65535)
    × IsU64 (length o.payload)
    × AreSendable (some o.object_id) os

-- The fields that the receiver is to find.
abbrev fields_of : Option ℕ → PublishedObject → ObjectFields
fields_of last o =
    object_fields (object_delta last o.object_id) (sent_properties o.status o.properties)
      (carried_status o.status o.payload) (carried_payload o.status o.payload)

nothing_left : (stream : ℕ) → parse_object_fields stream true [] ≡ need_more_data
unfolding parse_object_fields ◌>>=◌ varint want Cursor.read_varint Varint.read_varint
nothing_left stream = refl

no_marker :
    (o : PublishedObject) (rest : List ℕ) → marks_end_of_group o ≡ false → marker o ++ rest ≡ rest
unfolding marker
no_marker o rest e = rw e refl

module _ {W : Type 0} (owner : Owner W) (ref route_ref subgroup : ℕ) (base : SubgroupReceiver) where
  -- An established receiver of a stream whose header encode_subgroup_header wrote.
  abbrev listening : Option ℕ → SubgroupReceiver
  listening last = record base {
    route = some route_ref;
    closed = false;
    properties_per_object = true;
    subgroup_id = some subgroup;
    last_object_id = last;
  }

  -- The object is handed to the route, by `deliver`.
  hand_over : Option ℕ → PublishedObject → State W → State W
  hand_over last o s =
      let noted = put_receiver ref (listening (some o.object_id)) s in
      elim (route_at route_ref noted) [
        | none ↦ noted
        | some route ↦
            deliver owner route_ref
              (object_of owner (listening last) route.request_id (some subgroup) (fields_of last o)
                o.object_id)
              noted
      ]

  pub hand_over_all : Option ℕ → List PublishedObject → State W → State W
  hand_over_all last [] s = s
  hand_over_all last (o ∷ os) s = hand_over_all (some o.object_id) os (hand_over last o s)

  accept-hand_over :
      (last : Option ℕ) (o : PublishedObject) (s : State W)
      → next_object_id last (object_delta last o.object_id) ≡ some o.object_id
      → accept_object owner ref (listening last) (fields_of last o) s ≡ hand_over last o s
  unfolding accept_object hand_over
  accept-hand_over last o s e = rw (e, accept_object) refl

  module _
      (object_keeps : (h : ℕ) (o : Object) (t : State W)
        → receiver_at ref (owner.on_object h o t) ≡ receiver_at ref t)
      (error_keeps : (id : ℕ) (x : Fault) (t : State W)
        → receiver_at ref (owner.track_error id x t) ≡ receiver_at ref t) where
    deliver-keeps :
        (o : Object) (t : State W)
        → receiver_at ref (deliver owner route_ref o t) ≡ receiver_at ref t
    unfolding deliver
    deliver-keeps o t = by_route (route_at route_ref t) refl
      where
        by_route :
            (r : Option ReceiveRoute)
            → route_at route_ref t ≡ r
            → receiver_at ref (deliver owner route_ref o t) ≡ receiver_at ref t
        by_route none e = rw (e, deliver) refl
        by_route (some r) e = elim (Bool-cases r.active) [
          | inr retired ↦ simp (e, retired, deliver) refl
          | inl active ↦ elim (Bool-cases (follows_group_end r o)) [
            | inl late ↦ simp (e, active, late, deliver) (error_keeps _ _ t)
            | inr in_group ↦ elim (Bool-cases (follows_track_end r o)) [
              | inl late ↦ simp (e, active, in_group, late, deliver) (error_keeps _ _ t)
              | inr in_track ↦ simp (e, active, in_group, in_track, deliver) (object_keeps _ _ _)
            ]
          ]
        ]

    hand_over-listening :
        (last : Option ℕ) (r : SubgroupReceiver) (o : PublishedObject) (s : State W)
        → receiver_at ref s ≡ some r
        → receiver_at ref (hand_over last o s) ≡ some (listening (some o.object_id))
    unfolding hand_over
    hand_over-listening last r o s there = by_route (route_at route_ref noted) refl
      where
        noted : State W
        noted = put_receiver ref (listening (some o.object_id)) s

        now : receiver_at ref noted ≡ some (listening (some o.object_id))
        now = get_elem?-set s.plane.receivers ref r _ there

        by_route :
            (x : Option ReceiveRoute)
            → route_at route_ref noted ≡ x
            → receiver_at ref (hand_over last o s) ≡ some (listening (some o.object_id))
        by_route none e = rw (e, hand_over) now
        by_route (some route) e = rw (e, hand_over) (deliver-keeps _ noted ∙ now)

    -- The object loop of an established receiver takes the bytes of a list of objects from the
    -- sender whole, and passes each object to `deliver` on its route, in their order, with the
    -- Object ID, the status, the properties and the payload that it was sent with (an empty
    -- payload as status Normal, and no properties unless the status is Normal). This is for Object
    -- IDs that rise, valid objects that are not followed by an EndOfGroup marker, 64-bit numbers,
    -- at most 65535 bytes of properties, more fuel than bytes, and an owner whose callbacks on an
    -- object and on a track error leave this receiver as it is.
    pub object_loop-stream_bytes :
        (n : ℕ) (fin : Bool) (last : Option ℕ) (os : List PublishedObject) (s : State W)
        → receiver_at ref s ≡ some (listening last)
        → AllU64 last
        → AreSendable last os
        → length (stream_bytes last os) < n
        → object_loop owner n ref fin (stream_bytes last os) s ≡ ([], hand_over_all last os s)
    unfolding stream_bytes hand_over_all
    object_loop-stream_bytes zero fin last os s there ul sendable enough = ground arith
    object_loop-stream_bytes (suc n) fin last [] s there ul sendable enough =
        loop_ends owner ref (listening last) s there refl n fin [] (nothing_left _) ∙ by_fin fin
      where
        by_fin :
            (b : Bool)
            → Path
                (List ℕ × State W)
                (if b && not (is_empty {A = ℕ} [])
                  then ([], fail owner ref object_cut_short s)
                  else ([], s))
                ([], s)
        by_fin true = refl
        by_fin false = refl
    object_loop-stream_bytes (suc n) fin last (o ∷ os) s there ul
          (order, valid, plain, uo, short, up, more) enough =
        let rest : List ℕ = stream_bytes (some o.object_id) os in
        let (parsed, next) =
          parse_object_fields-object_bytes base.stream_id last o rest ul uo order valid short up in
        let whole = parsed ∙ ap (λ m. done (fields_of last o, m)) (no_marker o rest plain) in
        let shorter = parse_object_fields_shrinks base.stream_id true _ _ _ whole in
        loop_done owner ref (listening last) s there refl n fin _ rest (fields_of last o) whole
        ∙ (ap (object_loop owner n ref fin rest) (accept-hand_over last o s next)
            ∙ object_loop-stream_bytes n fin (some o.object_id) os (hand_over last o s)
                (hand_over-listening last _ o s there) uo more (omega arith))
