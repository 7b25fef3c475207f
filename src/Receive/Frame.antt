-- ===== src/Receive/Frame.antt =====
-- What src/data_plane.cpp leaves to others: whatever the plane does, the rest of the program changes by
-- the plane's calls of its owner only.
use moqtopus.Common.{ℕ, zero, suc, arith, Bool, true, false, List, [], ◌∷◌}
use moqtopus.Types.{ByteBuffer, Object}
use moqtopus.Receive.{SubgroupReceiver, State, Owner, Fault, ReceiveRoute}
use moqtopus.Receive.Deliver.{deliver}
use moqtopus.Receive.Parse.{ObjectFields}
use moqtopus.Receive.Datagram.{
  DatagramIds, buffer_unknown_datagram, end_group_of, deliver_to, deliver_object, deliver_datagram,
  on_datagram,
}
use moqtopus.Receive.Subgroup.{
  fail, abandon, enforce_pending_buffer_limit, resolve_route, accept_object, object_loop, finish,
  run_objects, run, on_receive,
}
use moqtopus.Receive.Establish.{
  on_peer_send_aborted, establish, establish_all, replay, install_route, start_subgroup_stream,
}

module _ {W : Type 0} (owner : Owner W) (R : W → W → Type 0) (same : (w : W) → R w w)
    (chain : (u v w : W) → R u v → R v w → R u w) where
  -- A change of the state that keeps the relation.
  abbrev pub Keeps : (State W → State W) → Type 0
  Keeps f = (s : State W) → R s.world (f s).world

  module _ (protocol_error : (fault : Fault) → Keeps (owner.protocol_error fault))
      (track_error : (id : ℕ) (fault : Fault) → Keeps (owner.track_error id fault))
      (on_object : (handler : ℕ) (object : Object) → Keeps (owner.on_object handler object))
      (abort_receive : (stream code : ℕ) → Keeps (owner.abort_receive stream code)) where
    deliver-Keeps : (ref : ℕ) (object : Object) → Keeps (deliver owner ref object)
    unfolding deliver
    deliver-Keeps ref object s = grind (arith, same, track_error, on_object)

    buffer_unknown_datagram-Keeps :
        (alias : ℕ) (bytes : ByteBuffer) → Keeps (buffer_unknown_datagram owner alias bytes)
    unfolding buffer_unknown_datagram
    buffer_unknown_datagram-Keeps alias bytes s = grind (arith, same, protocol_error)

    end_group_of-Keeps :
        (type ref : ℕ) (ids : DatagramIds) (route : ReceiveRoute)
        → Keeps (end_group_of owner type ref ids route)
    unfolding end_group_of
    end_group_of-Keeps type ref ids route s = grind (arith, same)

    deliver_to-Keeps :
        (type ref : ℕ) (ids : DatagramIds) (c : List ℕ) → Keeps (deliver_to owner type ref ids c)
    unfolding deliver_to
    deliver_to-Keeps type ref ids c s =
        grind (arith, same, protocol_error, chain, end_group_of-Keeps, deliver-Keeps)

    deliver_object-Keeps :
        (type : ℕ) (c : List ℕ) (bytes : ByteBuffer) (allow_buffer : Bool)
        → Keeps (deliver_object owner type c bytes allow_buffer)
    unfolding deliver_object
    deliver_object-Keeps type c bytes allow_buffer s =
        grind (arith, same, protocol_error, buffer_unknown_datagram-Keeps, deliver_to-Keeps)

    deliver_datagram-Keeps :
        (bytes : ByteBuffer) (allow_buffer : Bool)
        → Keeps (deliver_datagram owner bytes allow_buffer)
    unfolding deliver_datagram
    deliver_datagram-Keeps bytes allow_buffer s =
        grind (arith, same, protocol_error, deliver_object-Keeps)

    fail-Keeps : (ref : ℕ) (fault : Fault) → Keeps (fail owner ref fault)
    unfolding fail
    fail-Keeps ref fault s = grind (arith, same, protocol_error, chain)

    abandon-Keeps : (ref : ℕ) → Keeps (abandon owner ref)
    unfolding abandon
    abandon-Keeps ref s = grind (arith, same, abort_receive, chain)

    enforce_pending_buffer_limit-Keeps : (ref : ℕ) → Keeps (enforce_pending_buffer_limit owner ref)
    unfolding enforce_pending_buffer_limit
    enforce_pending_buffer_limit-Keeps ref s = grind (arith, same, abandon-Keeps)

    resolve_route-Keeps : (ref alias : ℕ) → Keeps (resolve_route owner ref alias)
    unfolding resolve_route
    resolve_route-Keeps ref alias s = grind (arith, same, abandon-Keeps, fail-Keeps)

    accept_object-Keeps :
        (ref : ℕ) (r : SubgroupReceiver) (f : ObjectFields) → Keeps (accept_object owner ref r f)
    unfolding accept_object
    accept_object-Keeps ref r f s = grind (arith, same, fail-Keeps, deliver-Keeps)

    object_loop-Keeps :
        (n ref : ℕ) (fin : Bool) (c : List ℕ) (s : State W)
        → R s.world (object_loop owner n ref fin c s).1.world
    unfolding object_loop
    object_loop-Keeps zero ref fin c s = same s.world
    object_loop-Keeps (suc n) ref fin c s =
        grind (arith, same, fail-Keeps, chain, accept_object-Keeps, object_loop-Keeps n)

    finish-Keeps : (ref : ℕ) (fin : Bool) → Keeps (finish owner ref fin)
    unfolding finish
    finish-Keeps ref fin s = grind (arith, same)

    run_objects-Keeps :
        (ref : ℕ) (fin : Bool) (c : List ℕ) (s : State W)
        → R s.world (run_objects owner ref fin c s).1.world
    unfolding run_objects
    run_objects-Keeps ref fin c s = grind (arith, same, chain, object_loop-Keeps, finish-Keeps)

    run-Keeps :
        (ref : ℕ) (fin : Bool) (c : List ℕ) (s : State W)
        → R s.world (run owner ref fin c s).1.world
    unfolding run
    run-Keeps ref fin c s =
        grind (arith, same, chain, fail-Keeps, resolve_route-Keeps, run_objects-Keeps)

    pub on_receive-Keeps :
        (ref : ℕ) (chunks : List ByteBuffer) (fin : Bool) → Keeps (on_receive owner ref chunks fin)
    unfolding on_receive
    on_receive-Keeps ref chunks fin s =
        grind (arith, same, chain, run-Keeps, enforce_pending_buffer_limit-Keeps)

    pub on_peer_send_aborted-Keeps : (ref : ℕ) → Keeps (on_peer_send_aborted owner ref)
    unfolding on_peer_send_aborted
    on_peer_send_aborted-Keeps ref s = grind (arith, same)

    establish-Keeps : (route ref : ℕ) → Keeps (establish owner route ref)
    unfolding establish
    establish-Keeps route ref s = grind (arith, same, chain, run-Keeps)

    establish_all-Keeps : (route : ℕ) (refs : List ℕ) → Keeps (establish_all owner route refs)
    unfolding establish_all
    establish_all-Keeps route [] s = same s.world
    establish_all-Keeps route (ref ∷ refs) s =
        chain _ _ _ (establish-Keeps route ref s) (establish_all-Keeps route refs _)

    replay-Keeps : (datagrams : List ByteBuffer) → Keeps (replay owner datagrams)
    unfolding replay
    replay-Keeps [] s = same s.world
    replay-Keeps (datagram ∷ datagrams) s =
        chain _ _ _ (deliver_datagram-Keeps datagram false _) (replay-Keeps datagrams _)

    pub install_route-Keeps :
        (alias route : ℕ) (s : State W) → R s.world (install_route owner alias route s).1.world
    unfolding install_route
    install_route-Keeps alias route s =
        grind (arith, same, chain, replay-Keeps, establish_all-Keeps)

    pub start_subgroup_stream-Keeps :
        (stream : ℕ) (prefix : ByteBuffer) (fin : Bool)
        → Keeps (start_subgroup_stream owner stream prefix fin)
    unfolding start_subgroup_stream
    start_subgroup_stream-Keeps stream prefix fin s = on_receive-Keeps _ [] fin _

    pub on_datagram-Keeps : (bytes : ByteBuffer) → Keeps (on_datagram owner bytes)
    unfolding on_datagram
    on_datagram-Keeps bytes s = deliver_datagram-Keeps bytes true s
