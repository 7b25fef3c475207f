-- ===== src/Receive/Datagram/RoundTrip.antt =====
-- What encode_object_datagram of src/codec/codec.cpp writes is what deliver_datagram of
-- src/data_plane.cpp delivers.
use moqtopus.Common.{
  append_assoc, ℕ, zero, suc, ◌≤◌, ◌≡◌, refl, arith, length, ◌==◌, ◌&&◌, Bool, true, false, not,
  List, [], ◌∷◌, ◌++◌, Option, none, some, if◌then◌else◌, is_empty, insert, bit_and, append-nil,
}
use moqtopus.Types.{ByteBuffer, Object}
use moqtopus.Codec.Varint.{IsU64, write_varint}
use moqtopus.Codec.Cursor.{read_varint-write}
use moqtopus.Codec.Objects.{
  datagram_type, write_object_id, write_properties, write_status_or, encode_object_datagram,
  is_some,
}
use moqtopus.Receive.{Fault, ReceiveRoute, State, Owner, route_at, put_route}
use moqtopus.Receive.Routes.{find_route}
use moqtopus.Receive.Deliver.{deliver}
use moqtopus.Receive.Parse.{Parser, done}
use moqtopus.Receive.Parse.Steps.{
  step, pure_lem, check-true, varint-write, byte-cons, read_properties-write_some,
}
use moqtopus.Receive.Parse.RoundTrip.{can_be_sent, carried_payload, sent_status-IsU64}
use moqtopus.Receive.Datagram.{
  varint, or_fail, is_object_datagram_type, datagram_object_id, datagram_ids, DatagramBody,
  datagram_priority, datagram_properties, at_end, datagram_status, everything, datagram_end,
  datagram_body, datagram_object, end_group_of, deliver_to, deliver_object, deliver_datagram,
}
use moqtopus.Receive.Datagram.Flags.{Flags, datagram_type_lem, flags-Flags}

or_fail_done {ℓ} :
    {A : Type ℓ} (fault : Fault) (m : Parser A) (c : List ℕ) {p : A × List ℕ}
    → m c ≡ done p
    → or_fail fault m c ≡ done p
unfolding or_fail
or_fail_done fault m c e = rw (e, or_fail) refl

object_id-write :
    (type id : ℕ) (c : List ℕ)
    → IsU64 id
    → (bit_and type 0x04 == 0) ≡ not (id == 0)
    → datagram_object_id type (write_object_id id ++ c) ≡ done (id, c)
unfolding datagram_object_id write_object_id
object_id-write type zero c u e = rw e (pure_lem 0 c)
object_id-write type (suc n) c u e =
    let some_id : (suc n == 0) ≡ false = ground arith in
    rw (e, some_id) (or_fail_done _ _ _ (varint-write (suc n) c u))

ids-write :
    (type alias group id : ℕ) (c : List ℕ)
    → IsU64 alias
    → IsU64 group
    → IsU64 id
    → is_object_datagram_type type ≡ true
    → (bit_and type 0x04 == 0) ≡ not (id == 0)
    → datagram_ids type (write_varint alias ++ (write_varint group ++ (write_object_id id ++ c)))
      ≡ done (record { alias = alias; group_id = group; object_id = id }, c)
unfolding datagram_ids
ids-write type alias group id c ua ug ui valid flag = step _ _ _ _ _ _ (check-true _ _ _ valid) (
    step _ _ _ _ _ _ (or_fail_done _ _ _ (varint-write alias _ ua)) (
      step _ _ _ _ _ _ (or_fail_done _ _ _ (varint-write group _ ug))
        (step _ _ _ _ _ _ (object_id-write type id c ui flag) (pure_lem _ _))))

properties-write :
    (type : ℕ) (properties : ByteBuffer) (c : List ℕ)
    → length properties ≤ 65535
    → not (bit_and type 0x01 == 0) ≡ not (is_empty properties)
    → datagram_properties type (write_properties properties ++ c) ≡ done (properties, c)
unfolding datagram_properties write_properties
properties-write type [] c short flag = rw flag (pure_lem [] c)
properties-write type (b ∷ bs) c short flag =
    rw (flag, append_assoc) (or_fail_done _ _ _ (read_properties-write_some _ b bs c short))

priority-write :
    (type priority : ℕ) (c : List ℕ)
    → (bit_and type 0x08 == 0) ≡ true
    → datagram_priority type (priority ∷ c) ≡ done (priority, c)
unfolding datagram_priority
priority-write type priority c flag = rw flag (or_fail_done _ _ _ (byte-cons priority c))

at_end_lem : at_end [] ≡ done (true, [])
unfolding at_end
at_end_lem = refl

status-write :
    (code : ℕ) (properties : ByteBuffer)
    → can_be_sent (some code) properties ≡ true
    → datagram_status properties (write_varint code) ≡ done (code, [])
unfolding datagram_status can_be_sent
status-write code properties sent = step _ _ _ _ _ _ (or_fail_done _ _ _ last) (
    step _ _ _ _ _ _ at_end_lem
      (step _ _ _ _ _ _ (check-true _ _ _ (ground arith)) (pure_lem code [])))
  where
    last : varint (write_varint code) ≡ done (code, [])
    last =
        let alone = varint-write code [] (sent_status-IsU64 code properties sent) in
        rw (append-nil) at alone

abbrev body_of : ℕ → ByteBuffer → Option ℕ → ByteBuffer → DatagramBody
body_of priority properties status payload = record {
  publisher_priority = priority;
  properties = properties;
  status = status;
  payload = payload;
}

end-write :
    (type priority : ℕ) (properties : ByteBuffer) (status : Option ℕ) (payload : ByteBuffer)
    → can_be_sent status properties ≡ true
    → not (bit_and type 0x20 == 0) ≡ is_some status
    → datagram_end type priority properties (write_status_or status payload)
      ≡ done (body_of priority properties status (carried_payload status payload), [])
unfolding datagram_end write_status_or carried_payload everything
end-write type priority properties none payload sent flag =
    rw flag (step _ _ _ _ _ _ refl (pure_lem _ _))
end-write type priority properties (some code) payload sent flag =
    rw flag (step _ _ _ _ _ _ (status-write code properties sent) (pure_lem _ _))

body-write :
    (type priority : ℕ) (properties : ByteBuffer) (status : Option ℕ) (payload : ByteBuffer)
    (e z : Bool)
    → Flags (not (is_empty properties)) (is_some status) e z type
    → length properties ≤ 65535
    → can_be_sent status properties ≡ true
    → datagram_body type
        (priority ∷ (write_properties properties ++ write_status_or status payload))
      ≡ done (body_of priority properties status (carried_payload status payload), [])
unfolding datagram_body
body-write type priority properties status payload e z f short sent =
    step _ _ _ _ _ _ (priority-write type priority _ f.priority) (
      step _ _ _ _ _ _ (properties-write type properties _ short f.properties)
        (end-write type priority properties status payload sent f.status))

module _ {W : Type 0} (owner : Owner W) (ref alias group id priority : ℕ) (properties : ByteBuffer)
    (status : Option ℕ) (payload : ByteBuffer) (end_of_group : Bool) (s : State W)
    (route : ReceiveRoute) (routed : find_route alias s.plane ≡ some ref)
    (there : route_at ref s ≡ some route) (short : length properties ≤ 65535)
    (sent : can_be_sent status properties ≡ true) where
  -- The object that the route's handler is to be given.
  abbrev pub sent_object : Object
  sent_object =
      datagram_object route.request_id (record { alias = alias; group_id = group; object_id = id })
        (body_of priority properties status (carried_payload status payload))

  -- The route's record of the last object of the group, which the type of the datagram may give.
  abbrev pub announced : State W
  announced =
      if end_of_group && not (is_some status)
      then put_route ref
          (record route { final_object_in_group = insert group id route.final_object_in_group }) s
      else s

  delivered :
      (type : ℕ) (z : Bool)
      → Flags (not (is_empty properties)) (is_some status) end_of_group z type
      → deliver_to owner type ref
          (record { alias = alias; group_id = group; object_id = id })
          (priority ∷ (write_properties properties ++ write_status_or status payload))
          s
        ≡ deliver owner ref sent_object announced
  unfolding deliver_to end_group_of
  delivered type z f =
      rw
        (
          body-write type priority properties status payload end_of_group z f short sent,
          there,
          f.ends,
          deliver_to,
        )
        refl

  -- A datagram that encode_object_datagram wrote for the alias of an installed route is delivered
  -- on that route as an object with the fields that it was written from, without the payload if it
  -- has a status, behind the record of the last object of its group if it was written as the last
  -- and has no status; for 64-bit numbers, at most 65535 bytes of properties, and a status that is
  -- valid and is Normal unless the properties are empty.
  pub deliver_datagram-encode :
      (allow_buffer : Bool)
      → IsU64 alias
      → IsU64 group
      → IsU64 id
      → deliver_datagram owner
          (encode_object_datagram alias group id priority properties status payload end_of_group)
          allow_buffer
          s
        ≡ deliver owner ref sent_object announced
  unfolding deliver_datagram deliver_object encode_object_datagram
  deliver_datagram-encode allow_buffer ua ug ui =
      let f : Flags (not (is_empty properties)) (is_some status) end_of_group (id == 0)
          (datagram_type properties status end_of_group id) =
        rw (datagram_type_lem properties status end_of_group id) (flags-Flags _ _ _ _) in
      rw
        (
          read_varint-write _ _ f.small,
          f.padding,
          ids-write _ alias group id _ ua ug ui f.valid f.object_id,
          routed,
          deliver_datagram,
          deliver_object,
          encode_object_datagram,
        )
        (delivered _ _ f)
