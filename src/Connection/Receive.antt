-- ===== src/Connection/Receive.antt =====
-- minimq/src/mqtt_client/session/inbound.rs: the packet that the reader holds, given to the session;
-- and the publication that it was, parsed again from the reader's buffer.
use minimq.Connection.{ConnectionState, handle_disconnect, with_client}
use minimq.Errors.{
  Error, ProtocolError, ResourceError, disconnected, from_protocol, invalid_packet, invalid_request,
  not_ready, peer, resource, transport, unexpected_packet, write_zero,
}
use minimq.Outbound.{VecOps}
use minimq.Prelude.{
  Bool, List, Option, Result, err, false, if◌then◌else◌, leb, length, none, ok, some, take, true, ℕ,
  ◌>>=◌,
}
use minimq.Properties.Collection.{Properties}
use minimq.Reader.{PacketReader, packet_available, take_packet}
use minimq.Received.{Publish, ReceivedPacket, handled}
use minimq.Received.Parse.{from_buffer}
use minimq.Session.Inbound.{Handled, handle_packet}
use minimq.Transport.{Io}
use minimq.Wire.{QoS, Retain}

-- minimq/src/mqtt_client/mod.rs.
pub record InboundPublish : Type 0 where
  pub topic : List ℕ
  pub payload : List ℕ
  pub properties : Properties
  pub retain : Retain
  pub qos : QoS

unfoldable pub inbound_of : Publish → InboundPublish
inbound_of p = record {
  topic = p.topic;
  payload = p.payload;
  properties = p.properties;
  retain = p.retain;
  qos = p.qos;
}

unfoldable pub publish_only : ReceivedPacket → Result ProtocolError InboundPublish
unfolding inbound_of
publish_only (ReceivedPacket.publish p) = ok (inbound_of p)
publish_only p = err unexpected_packet

-- `decode_inbound_publish`, on the reader.
unfoldable pub decode_inbound_publish : PacketReader → ℕ → Result ProtocolError InboundPublish
unfolding publish_only from_buffer
decode_inbound_publish r packet_length =
    if leb packet_length (length r.buffer)
    then from_buffer (take packet_length r.buffer) >>= publish_only
    else err ProtocolError.malformed_packet

-- Error types differ: the handler has no transport.
unfoldable pub lift_error : {E : Type 0} → Error ⊥ → Error E
lift_error not_ready = not_ready
lift_error disconnected = disconnected
lift_error invalid_request = invalid_request
lift_error write_zero = write_zero
lift_error (peer e) = peer e
lift_error (resource e) = resource e
lift_error (transport e) = absurd e

-- The errors after which the connection is given up.
unfoldable pub gives_up : Error ⊥ → Bool
gives_up disconnected = true
gives_up (peer invalid_packet) = true
gives_up (resource ResourceError.packet_too_large) = true
gives_up e = false

module _ {io : Io} where
  unfoldable pub packet_handled :
      ConnectionState io → ℕ → Handled → ConnectionState io × Result (Error io.IoError) (Option ℕ)
  unfolding handle_disconnect with_client gives_up lift_error
  packet_handled c len (client, ok true) = (with_client c client, ok (some len))
  packet_handled c len (client, ok false) = (with_client c client, ok none)
  packet_handled c len (client, err e) =
      let c' = with_client c client in
      (if gives_up e then handle_disconnect c' else c', err (lift_error e))

module _ (v : VecOps) {io : Io} where
  unfoldable pub packet_taken :
      ConnectionState io
      → PacketReader × Result ProtocolError (ℕ × ReceivedPacket)
      → ConnectionState io × Result (Error io.IoError) (Option ℕ)
  unfolding handle_disconnect packet_handled handle_packet handled from_protocol
  packet_taken c (r, err e) = (handle_disconnect (record c { reader = r }), err (from_protocol e))
  packet_taken c (r, ok (len, packet)) =
      packet_handled (record c { reader = r }) len (handle_packet v c.client (handled packet))

  unfoldable pub process_received_packet :
      ConnectionState io → ConnectionState io × Result (Error io.IoError) (Option ℕ)
  unfolding packet_taken from_buffer
  process_received_packet c =
      let taken = packet_taken c (take_packet from_buffer c.reader) in
      if packet_available c.reader then taken else (c, ok none)
