-- ===== src/Lib.antt =====
-- Moqtopus is a client for Media over QUIC Transport: a subscriber and a publisher, each a session over
-- one QUIC connection. This library models its codec, its two data planes and its two sessions.
--
-- The program's parts, and the files that model them:
--   * Types: the data of include/moq/types.h, and the byte strings that everything is made of.
--   * Codec: src/codec/codec.cpp, src/codec/control.cpp and src/codec/codec_internal.h. Codec/Varint has
--     write_varint and read_varint; Codec/Cursor the reads of Cursor, which take bytes off the front of a
--     list; Codec/Reader the reads of Reader, which throw, as a monad of results; Codec/Framing
--     encode_control_message and read_control_message; Codec/Namespace and Codec/Parameters the values
--     that messages share; Codec/Messages the encoders and Codec/Decoders the decoders of
--     src/codec/control.cpp, with SETUP and the options of a subscription in modules of their own;
--     Codec/Objects the writers of the data planes.
--   * Receive: src/data_plane.cpp, with the members of DataPlane and of SubgroupReceiver in a state.
--     Receive/Deliver has deliver, Receive/Routes the route table and the parked streams, Receive/Parse
--     the parsers of a subgroup stream, Receive/Datagram deliver_datagram and on_datagram,
--     Receive/Subgroup on_receive and run, Receive/Establish install_route, start_subgroup_stream,
--     establish and on_peer_send_aborted; Receive/Frame says what an operation of the plane may change of
--     the rest of the program.
--   * Send: src/send_data_plane.cpp. Send/Filter has the locations and the filters, Send/Subscriptions
--     the tracks and the subscriptions, Send/Streams the streams and the datagrams, Send/Publish publish.
--     Send/Streams/Delivery takes a stream from there to the route that Receive hands it to.
--   * Session: include/moq/session.h and src/session.cpp. Session/Lifecycle has the phases, the
--     handshake, the closing and the Request IDs, with a session's state and one function for each
--     operation and each callback of the transport; Session/Setup has the sending of SETUP; Session/Gate
--     has PeerStreamGate, which tells the session what a stream of the peer is for.
--   * Stream: src/stream_context.h and src/stream_context.cpp, one QUIC stream between MsQuic and a sink.
--     Stream/Closed is about a stream behind its end, Stream/Pending about the sends that MsQuic holds.
--   * Subscriber: include/moq/subscriber_session.h and src/subscriber_session.cpp. Subscriber/Request has
--     the end of a request and the closing, Subscriber/Response the messages on a SUBSCRIBE stream,
--     Subscriber/Calls the calls of the application and of the session. Subscriber/Goes says what a change
--     of a subscriber keeps, with one module below it for each of these files, and Subscriber/Laws takes
--     any sequence of events.
--   * Publisher: include/moq/publisher_session.h and src/publisher_session.cpp. Publisher/Namespaces has the
--     announcements, Publisher/Request the state machine of an accepted SUBSCRIBE, Publisher/Accept
--     accept_subscribe and the other requests of the peer, Publisher/Calls the calls of the application and
--     of the sending plane.
--   * Common: tests on numbers, lists, results and maps. Tests: concrete runs.
--
-- The sessions own the data planes. They read control messages by the codec, install and retire the
-- routes of the receiving plane, and attach and detach the subscriptions of the sending one. A plane
-- calls its session, the application and its streams back; these are the records Owner, Outlet and, for
-- a session, Derived, whose fields are any functions on the plane's state together with the rest of the
-- program.
--
-- The two sessions do so as well. A state of a Subscriber or a Publisher has its Session and its plane as
-- fields; an operation of such a part runs on the part with the whole as the rest of the program, which
-- gets the part back behind it (enter_session, leave_session, enter_plane, leave_plane). The transport, its
-- streams and the application are a record App of functions on the state, so that they may call back.
-- What a theorem needs of them, such as that they keep a subscriber sound, is a hypothesis about App. A
-- request is a record on a heap, a promise a number, and what it is settled with stands in a table.
-- `crashed` is set where an exception leaves a callback of the transport, which ends the program.
--
-- Conventions. A byte is a number, and a buffer or a string a list of them; what must be a byte or a
-- uint64_t is so by a hypothesis. A sum, a difference or a shift that can wrap around in the source has
-- its remainder written out. Shared routes and receivers stand on a heap and are named by their places;
-- the heap only grows, so a place that a table names is on it. A lock makes an operation one step, and
-- the model takes it as one. A map or an unordered set is a list, walked in its order. Logging is left
-- out.
--
-- Fuel. decode_setup has the length of the payload, as every option takes a byte; the loop over the
-- objects of a subgroup stream has one more than the number of bytes, as every object takes a byte. So
-- have the loops over the messages of a request stream and of an announcement, as every message does.
-- The loops of write_varint and read_varint have at most eight rounds, and the other loops are
-- structural.
--
-- Not modelled: src/msquic_transport_adapter.cpp, which sets a connection of MsQuic up and passes its
-- events on; the example programs and the tools. The constructors and destructors of the sessions are the
-- states that a run begins with, and close_and_wait. Where C++ leaves the order of a map or a set open,
-- the model's is one of those that are possible; the streams of a subscription are in the order of
-- their keys.
pub mod Common
pub mod Types
pub mod Codec
pub mod Receive
pub mod Send
pub mod Session
pub mod Stream
pub mod Subscriber
pub mod Publisher
pub mod Tests
