-- ===== src/Publisher/Namespaces.antt =====
-- The announcements of namespaces, in src/publisher_session.cpp.
use moqtopus.Common.{
  ℕ, zero, suc, length, ◌==◌, Bool, true, false, List, [], ◌∷◌, ◌++◌, Option, none, some,
  if◌then◌else◌, is_empty, ok, err, runtime_error,
}
use moqtopus.Common.Keyed.{find_by, insert_by, erase_by}
use moqtopus.Types.{cancelled, cancelled, ByteBuffer, TrackNamespace, bytes_eq, namespace_eq}
use moqtopus.Codec.Framing.{ControlMessage, next_message}
use moqtopus.Codec.Messages.{encode_publish_namespace, message_request_ok, message_request_error}
use moqtopus.Codec.Decoders.{decode_request_error}
use moqtopus.Codec.Objects.{is_some}
use moqtopus.Receive.Subgroup.{concat}
use moqtopus.Session.{Reason, text, raised}
use moqtopus.Session.Lifecycle.{allocate_request_id}
use moqtopus.Publisher.{State, announcement, App, Act, ◌>>=◌, ◌>>◌, throwing, modify, catch}

-- `reserved_namespace`: the first field is ".".
pub reserved_namespace : TrackNamespace → Bool
reserved_namespace [] = false
reserved_namespace (field ∷ fields) = bytes_eq field (b'.' ∷ [])

-- `namespace_text`
unfoldable pub append_text : ByteBuffer → TrackNamespace → ByteBuffer
append_text written [] = written
append_text written (field ∷ fields) =
    append_text (if is_empty written then field else written ++ (b'/' ∷ field)) fields

unfoldable pub namespace_text : TrackNamespace → ByteBuffer
namespace_text track_namespace = append_text [] track_namespace

-- What a NamespaceAnnouncementFSM logs of a message.
pub data Note : Type 0 where
  announced : Note
  refused : Reason → Note
  ignored : ℕ → Note

pub note_of : ControlMessage → Note
note_of message =
    if message.type == message_request_ok
    then announced
    else if message.type == message_request_error
    then (elim (decode_request_error message.payload) [
      | err error ↦ refused (raised error)
      | ok e ↦ refused (text e.reason)
    ])
    else ignored message.type

-- `NamespaceAnnouncementFSM::on_receive`: the buffer and the notes. Each message takes a byte at least.
unfoldable pub announcement_loop : ℕ → ByteBuffer → ByteBuffer × List Note
announcement_loop zero buffer = (buffer, [])
announcement_loop (suc fuel) buffer = elim (next_message buffer) [
  | none ↦ (buffer, [])
  | some (message, rest) ↦
      let (left, notes) = announcement_loop fuel rest in (left, note_of message ∷ notes)
]

unfoldable pub announcement_receive : ByteBuffer → List ByteBuffer → ByteBuffer × List Note
announcement_receive buffer chunks =
    let bytes : ByteBuffer = buffer ++ concat chunks in announcement_loop (suc (length bytes)) bytes

-- What `std::remove` leaves.
pub without_namespace : TrackNamespace → List TrackNamespace → List TrackNamespace
without_namespace ns [] = []
without_namespace ns (x ∷ xs) =
    if namespace_eq x ns then without_namespace ns xs else x ∷ without_namespace ns xs

module _ {W : Type 0} where
  abbrev pub announced_as : ByteBuffer → State W → Option ℕ
  announced_as name s = find_by bytes_eq name s.announced_namespaces

  -- `allocate_request_id`, of the session.
  unfoldable pub allocate : Act W ℕ
  allocate s = elim (allocate_request_id s.session) [
    | err error ↦ (err error, s)
    | ok (request_id, session) ↦ (ok request_id, record s { session = session })
  ]

  -- `announced_namespaces_.emplace`
  unfoldable pub emplace_announced : ByteBuffer → ℕ → State W → State W
  emplace_announced name stream s =
      if is_some (announced_as name s)
      then s
      else record s { announced_namespaces = insert_by bytes_eq name stream s.announced_namespaces }

module _ {W : Type 0} (app : App W) where
  open app use {open_stream, set_sink, send, abort_send, abort_receive}

  -- The end of the `try` block, by whether PUBLISH_NAMESPACE was sent.
  unfoldable pub conclude : ByteBuffer → ℕ → Bool → Act W (Unit {0})
  conclude name stream true = modify (emplace_announced name stream)
  conclude name stream false =
      throwing (err (runtime_error "StreamSend failed for PUBLISH_NAMESPACE"))

  -- The `try` block of `announce_namespace`.
  unfoldable pub try_announce : ByteBuffer → TrackNamespace → Act W (Unit {0})
  try_announce name track_namespace = do
    stream ← open_stream false
    modify (set_sink stream (announcement name))
    request_id ← allocate
    bytes ← throwing (encode_publish_namespace request_id track_namespace)
    sent ← λ s. let (sent, s1) = send stream bytes false s in (ok sent, s1)
    conclude name stream sent

  -- `Publisher::announce_namespace`; what is caught is only logged.
  unfoldable pub announce_namespace : TrackNamespace → State W → State W
  announce_namespace track_namespace s =
      let name : ByteBuffer = namespace_text track_namespace in
      if is_some (announced_as name s)
      then s
      else catch (try_announce name track_namespace) (λ reason s1. s1) s

  unfoldable pub announce_all : List TrackNamespace → State W → State W
  announce_all [] s = s
  announce_all (ns ∷ namespaces) s = announce_all namespaces (announce_namespace ns s)

  -- `Publisher::on_ready`
  unfoldable pub on_ready : State W → State W
  on_ready s = record (announce_all s.pending_announcements s) { pending_announcements = [] }

  -- `Publisher::withdraw_namespace`
  unfoldable pub withdraw_namespace : TrackNamespace → State W → State W
  withdraw_namespace track_namespace s =
      let name : ByteBuffer = namespace_text track_namespace in
      let waiting : State W = record s {
        pending_announcements = without_namespace track_namespace s.pending_announcements;
      } in
      elim (announced_as name waiting) [
        | none ↦ waiting
        | some stream ↦
            let ended : State W =
              abort_receive stream cancelled (abort_send stream cancelled waiting) in
            record ended {
              announced_namespaces = erase_by bytes_eq name ended.announced_namespaces;
            }
      ]
