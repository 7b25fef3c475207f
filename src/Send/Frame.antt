-- ===== src/Send/Frame.antt =====
-- What src/send_data_plane.cpp leaves to others: whatever the plane does, the rest of the program changes
-- by the plane's calls of its session and of its streams only.
use moqtopus.Common.{ℕ, arith, Bool, List, [], ◌∷◌, Option, none, some}
use moqtopus.Types.{ByteBuffer, DeliveryKind}
use moqtopus.Send.{
  PublishedObject, TrackKey, OpenSubgroupStream, SubscriptionSend, State, Outlet, Completion,
  change,
}
use moqtopus.Send.Subscriptions.{end_streams, detach_subscription}
use moqtopus.Send.Streams.{
  reset_stale, append_object, open_and_append, send_on_subgroup_stream, send_datagram_object,
}
use moqtopus.Send.Publish.{
  complete, send_by_kind, forward_object, publish_to, drop_subscriber, publish_all, publish_on,
  publish,
}

module _ {W : Type 0} (R : W → W → Type 0) (same : (w : W) → R w w)
    (chain : (u v w : W) → R u v → R v w → R u w) where
  -- A change of the state that keeps the relation.
  abbrev pub Keeps : (State W → State W) → Type 0
  Keeps f = (s : State W) → R s.world (f s).world

  module _ (abort_send : ℕ → ℕ → State W → State W) (finish_send : ℕ → State W → State W)
      (aborted : (stream error : ℕ) → Keeps (abort_send stream error))
      (finished : (stream : ℕ) → Keeps (finish_send stream)) where
    end_streams-Keeps :
        (reset : Option ℕ) (streams : List ((ℕ × ℕ) × OpenSubgroupStream))
        → Keeps (end_streams abort_send finish_send reset streams)
    unfolding end_streams
    end_streams-Keeps reset [] s = same s.world
    end_streams-Keeps none ((key, stream) ∷ streams) s =
        chain _ _ _ (finished stream.stream s) (end_streams-Keeps none streams _)
    end_streams-Keeps (some error) ((key, stream) ∷ streams) s =
        chain _ _ _ (aborted stream.stream error s) (end_streams-Keeps (some error) streams _)

    pub detach_subscription-Keeps :
        (id : ℕ) (reset : Option ℕ)
        → Keeps (λ s. (detach_subscription abort_send finish_send id reset s).1)
    unfolding detach_subscription
    detach_subscription-Keeps id reset s = grind (arith, same, end_streams-Keeps)

  module _ (outlet : Outlet W) (opened : Keeps (λ s. (outlet.open_data_stream s).1))
      (datagram : (bytes : ByteBuffer) → Keeps (λ s. (outlet.send_datagram bytes s).1))
      (completed : (id : ℕ) (why : Completion) → Keeps (outlet.subscription_complete id why))
      (sent : (stream : ℕ) (bytes : ByteBuffer) (fin : Bool)
        → Keeps (λ s. (outlet.send stream bytes fin s).1))
      (aborted : (stream error : ℕ) → Keeps (outlet.abort_send stream error)) where
    change-Keeps : (id : ℕ) (f : SubscriptionSend → SubscriptionSend) → Keeps (change id f)
    unfolding change
    change-Keeps id f s = grind (arith, same)

    reset_stale-Keeps : (id : ℕ) (object : PublishedObject) → Keeps (reset_stale outlet id object)
    unfolding reset_stale
    reset_stale-Keeps id object s = grind (arith, same, chain, aborted, change-Keeps)

    append_object-Keeps :
        (id : ℕ) (object : PublishedObject) (stream : OpenSubgroupStream) (bytes : ByteBuffer)
        → Keeps (append_object outlet id object stream bytes)
    unfolding append_object
    append_object-Keeps id object stream bytes s = grind (arith, same, chain, sent, change-Keeps)

    open_and_append-Keeps :
        (id : ℕ) (object : PublishedObject) → Keeps (open_and_append outlet id object)
    unfolding open_and_append
    open_and_append-Keeps id object s =
        grind (arith, same, chain, opened, change-Keeps, append_object-Keeps)

    send_on_subgroup_stream-Keeps :
        (id : ℕ) (object : PublishedObject) → Keeps (send_on_subgroup_stream outlet id object)
    unfolding send_on_subgroup_stream
    send_on_subgroup_stream-Keeps id object s =
        grind (arith, same, chain, reset_stale-Keeps, append_object-Keeps, open_and_append-Keeps)

    send_datagram_object-Keeps :
        (sub : SubscriptionSend) (object : PublishedObject)
        → Keeps (send_datagram_object outlet sub object)
    unfolding send_datagram_object
    send_datagram_object-Keeps sub object s = datagram _ s

    send_by_kind-Keeps :
        (kind : DeliveryKind) (id : ℕ) (sub : SubscriptionSend) (object : PublishedObject)
        → Keeps (send_by_kind outlet kind id sub object)
    unfolding send_by_kind
    send_by_kind-Keeps DeliveryKind.datagram id sub object s =
        send_datagram_object-Keeps sub object s
    send_by_kind-Keeps DeliveryKind.subgroup_stream id sub object s =
        send_on_subgroup_stream-Keeps id object s
    send_by_kind-Keeps DeliveryKind.fetch_stream id sub object s =
        send_on_subgroup_stream-Keeps id object s

    forward_object-Keeps :
        (id : ℕ) (sub : SubscriptionSend) (object : PublishedObject)
        → Keeps (forward_object outlet id sub object)
    unfolding forward_object
    forward_object-Keeps id sub object s = grind (arith, same, send_by_kind-Keeps)

    complete-Keeps : (id : ℕ) (why : Option Completion) → Keeps (complete outlet id why)
    unfolding complete
    complete-Keeps id none s = same s.world
    complete-Keeps id (some why) s = completed id why s

    publish_to-Keeps :
        (id : ℕ) (sub : SubscriptionSend) (object : PublishedObject)
        → Keeps (publish_to outlet id sub object)
    unfolding publish_to
    publish_to-Keeps id sub object s = grind (arith, chain, complete-Keeps, forward_object-Keeps)

    drop_subscriber-Keeps : (id : ℕ) (key : TrackKey) → Keeps (drop_subscriber outlet id key)
    unfolding drop_subscriber
    drop_subscriber-Keeps id key s = grind (arith, same)

    publish_all-Keeps :
        (ids : List ℕ) (object : PublishedObject) → Keeps (publish_all outlet ids object)
    unfolding publish_all
    publish_all-Keeps [] object s = same s.world
    publish_all-Keeps (id ∷ ids) object s =
        grind (arith, chain, drop_subscriber-Keeps, publish_to-Keeps, publish_all-Keeps ids)

    pub publish-Keeps : (object : PublishedObject) → Keeps (publish outlet object)
    unfolding publish publish_on
    publish-Keeps object s = grind (arith, same, publish_all-Keeps)
