-- ===== src/Lib.antt =====
-- A verification library for the minimq workspace: the MQTT 5 client minimq and the protocol
-- crates that build on it.
--
-- The client keeps one `Session` over two caller-owned buffers. Bytes from the transport go
-- through the packet reader, which cuts the stream into packets; a packet changes the session
-- state, which queues acknowledgements; the outbound part keeps unacknowledged packets in one
-- arena and says which bytes to write next.
--
-- - Prelude: shared names, lists over the native numbers, bit operations, Rust's Result.
-- - Varint: minimq/src/varint.rs. `write_mqtt_u32_varint` and `encoded_len` recur on the
--   accessibility of the value, `read_mqtt_u32_varint` on its four rounds; neither needs fuel.
-- - Reason, Errors: minimq/src/reason_codes.rs and the error types of minimq/src/lib.rs.
-- - Transport: the interface `Io` of minimq/src/mqtt_client/mod.rs, a parameter.
-- - Reader: minimq/src/de/packet_reader.rs; Reader/Fill is `fill_packet_reader` of
--   minimq/src/mqtt_client/session/drive.rs. The loop has fuel; as many rounds as the packet has
--   bytes and one more are enough, since each read takes a byte at least.
-- - Wire: minimq/src/wire.rs, the fixed header and its flags.
-- - Ser: minimq/src/ser/mod.rs. A packet's fields are functions on the serializer's state;
--   Ser/Layout and Ser/Packet say what they leave in the buffer, Ser/Sized that it keeps its size.
--   Ser/Publish takes the payload of
--   minimq/src/publication.rs as a parameter.
-- - Control: the acknowledgements and PINGREQ of minimq/src/packets.rs, with the encoding and the
--   size checks at the end of minimq/src/mqtt_client/outbound.rs.
-- - De: minimq/src/de/deserializer.rs, a cursor over the packet's bytes that keeps its place when a
--   read fails; De/Fields has the serde methods, De/Reads and De/Strings what they read from a field
--   wherever it stands, De/Progress that none goes back.
-- - Properties: minimq/src/properties.rs; Properties/Write and Properties/Read are the two directions
--   of one property, Properties/Collection the collections and their iterator. The iterator's calls
--   are rounds of fuel, as many as the block has bytes.
-- - Packets: the fields of the packets that the client sends, from minimq/src/packets.rs,
--   minimq/src/types.rs and minimq/src/will.rs.
-- - Received: the packets that it receives, from minimq/src/packets.rs, and their parser,
--   minimq/src/de/received_packet.rs. `handled` is the part that the session's handler looks at.
-- - Outbound: the rest of minimq/src/mqtt_client/outbound.rs. Outbound/Queues has the operations
--   on the queues, which take the crate heapless's vector operations as a parameter (`VecOps`);
--   Outbound/Send has the encoding into the buffer, the choice of the next write and the replay;
--   Outbound/Send/Publish is `encode_publish`; Outbound/View the abstract view: the held packets in
--   order, each with its bytes. Not modelled of that file: `write_all`.
-- - Session: minimq/src/mqtt_client/session/state.rs; a `Client` is the pair of the two states, and
--   times are milliseconds. Session/PacketId is `next_packet_id`, with fuel: 17 rounds are enough.
--   Session/Inbound is `handle_packet` of minimq/src/mqtt_client/session/inbound.rs, on what it
--   reads of a packet; its children count the deliveries under an identifier (ExactlyOnce) and
--   bound the send quota (Quota).
-- - Connection: a live connection, from minimq/src/mqtt_client/session/mod.rs and drive.rs. A state of
--   it is a `ConnectionState`. Connection/Write is one service call, Connection/Receive the packet in
--   the reader and its publication (session/inbound.rs), Connection/Status the states of operations.
-- - Handshake: the answer to CONNECT, from minimq/src/mqtt_client/session/handshake.rs: the second
--   half of `connect_handshake`, from the packet that the reader holds to the event.
-- - Staging: mqtt-staging/src/lib.rs, a service that receives an object in chunks for a storage.
--   Staging/Rules has the tests of manifests and chunks, Staging/Inbound the handler of a
--   publication, Staging/Drive the queued MQTT operations over an interface `Mqtt` of the client.
--   Staging/Object joins them to a world with the storage, whose events are any inbound
--   publications, reports, aborts, connections and steps; its children keep an invariant of it.
--   The JSON of the crate serde_json_core is a parameter. Its logging is left out.
--
-- Not modelled: the loops around a service call, the write of CONNECT, the requests of the application,
-- the configuration, and the crate mqtt-rpc.
--
-- A method takes the state and gives the state that follows beside its result. Words of the
-- machine are numbers; where a range matters it is a hypothesis or the arithmetic is written out.
-- Awaiting and cancellation are not modelled: an operation runs to its end. Log output is left out.
pub mod Prelude
pub mod Varint
pub mod Reason
pub mod Errors
pub mod Transport
pub mod Reader
pub mod Wire
pub mod Ser
pub mod Connection
pub mod Control
pub mod Handshake
pub mod De
pub mod Properties
pub mod Packets
pub mod Received
pub mod Outbound
pub mod Session
pub mod Staging
