-- ===== src/Received/Parse.antt =====
-- minimq/src/de/received_packet.rs: the parser of a whole packet. The visitor's tuple of five
-- elements is never used up: a PUBLISH takes five, any other packet three.
use minimq.De.{
  Deserialize, MqttDeserializer, deserialize_varint, new_deserializer, pop, read_as, read_then,
  read_u16, refuse, remaining_bytes,
}
use minimq.De.Fields.{deserialize_bool, deserialize_option, deserialize_str}
use minimq.Errors.{DeError, ProtocolError, de_custom, deserialization}
use minimq.Prelude.{List, Option, Result, [], err, if◌then◌else◌, none, ok, some, ℕ, ◌∷◌}
use minimq.Properties.Collection.{deserialize_properties}
use minimq.Reason.{ReasonCode, from_u8}
use minimq.Received.{Ack, Codes, ConnAck, Disconnect, Publish, ReasonData, ReceivedPacket}
use minimq.Wire.{
  MessageType, QoS, at_least_once, at_most_once, exactly_once, flags_valid, message_type,
  publish_duplicate, publish_qos, publish_retain,
}

unfoldable pub read_reason_code : Deserialize ReasonCode
unfolding read_as pop from_u8
read_reason_code = read_as from_u8 pop

-- A reason code and a property block, each of which may be missing at the end.
unfoldable pub read_reason_data : Deserialize ReasonData
unfolding read_then read_as read_reason_code deserialize_option deserialize_properties
read_reason_data = read_then read_reason_code (λ c.
    read_as (λ ps. record { code = c; properties = ps })
      (deserialize_option deserialize_properties))

unfoldable pub read_ack : Deserialize Ack
unfolding read_then read_as read_u16 deserialize_option read_reason_data
read_ack = read_then read_u16 (λ id.
    read_as (λ r. record { packet_id = id; reason = r }) (deserialize_option read_reason_data))

unfoldable pub read_codes : Deserialize Codes
unfolding read_then read_as read_u16 deserialize_properties
read_codes = read_then read_u16 (λ id.
    read_as (λ ps. record { packet_id = id; properties = ps; codes = [] }) deserialize_properties)

unfoldable pub read_conn_ack : Deserialize ConnAck
unfolding read_then read_as deserialize_bool read_reason_code deserialize_properties
read_conn_ack = read_then deserialize_bool (λ present. read_then read_reason_code (λ c.
    read_as (λ ps. record { session_present = present; reason_code = c; properties = ps })
      deserialize_properties))

unfoldable pub read_disconnect : Deserialize Disconnect
unfolding read_then read_as deserialize_option read_reason_code deserialize_properties
read_disconnect = read_then (deserialize_option read_reason_code) (λ c.
    read_as (λ ps. record { reason_code = c; properties = ps })
      (deserialize_option deserialize_properties))

-- `qos > QoS::AtMostOnce`.
unfoldable pub read_publish_id : QoS → Deserialize (Option ℕ)
unfolding read_as read_u16
read_publish_id at_most_once d = (d, ok none)
read_publish_id at_least_once d = read_as some read_u16 d
read_publish_id exactly_once d = read_as some read_u16 d

unfoldable pub read_publish : ℕ → Option QoS → Deserialize Publish
unfolding read_then read_as deserialize_str read_publish_id deserialize_properties publish_retain
    publish_duplicate
read_publish header none = refuse de_custom
read_publish header (some qos) = read_then deserialize_str (λ t.
    read_then (read_publish_id qos) (λ id.
      read_as
        (λ ps. record {
          topic = t;
          packet_id = id;
          properties = ps;
          payload = [];
          retain = publish_retain header;
          qos = qos;
          dup = publish_duplicate header;
        })
        deserialize_properties))

unfoldable pub read_typed : ℕ → MessageType → Deserialize ReceivedPacket
unfolding read_as read_ack read_codes read_conn_ack read_disconnect read_publish publish_qos
read_typed header MessageType.conn_ack d = read_as ReceivedPacket.conn_ack read_conn_ack d
read_typed header MessageType.publish d =
    read_as ReceivedPacket.publish (read_publish header (publish_qos header)) d
read_typed header MessageType.pub_ack d = read_as ReceivedPacket.pub_ack read_ack d
read_typed header MessageType.sub_ack d = read_as ReceivedPacket.sub_ack read_codes d
read_typed header MessageType.unsub_ack d = read_as ReceivedPacket.unsub_ack read_codes d
read_typed header MessageType.ping_resp d = (d, ok ReceivedPacket.ping_resp)
read_typed header MessageType.pub_rec d = read_as ReceivedPacket.pub_rec read_ack d
read_typed header MessageType.pub_rel d = read_as ReceivedPacket.pub_rel read_ack d
read_typed header MessageType.pub_comp d = read_as ReceivedPacket.pub_comp read_ack d
read_typed header MessageType.disconnect d = read_as ReceivedPacket.disconnect read_disconnect d
read_typed header t d = (d, err de_custom)

unfoldable pub read_content : ℕ → Option MessageType → Deserialize ReceivedPacket
unfolding read_typed flags_valid
read_content header none d = (d, err de_custom)
read_content header (some t) d =
    let packet = read_typed header t d in if flags_valid header then packet else (d, err de_custom)

-- `ControlPacketVisitor`: the remaining length is read and not used.
unfoldable pub deserialize_packet : Deserialize ReceivedPacket
unfolding read_then pop deserialize_varint read_content message_type
deserialize_packet = read_then pop (λ header.
    read_then deserialize_varint (λ length_read. read_content header (message_type header)))

-- What is left of the buffer is a payload or a list of codes.
unfoldable pub attach : List ℕ → ReceivedPacket → Result ProtocolError ReceivedPacket
attach [] p = ok p
attach (b ∷ bs) (ReceivedPacket.publish p) =
    ok (ReceivedPacket.publish (record p { payload = b ∷ bs }))
attach (b ∷ bs) (ReceivedPacket.sub_ack p) =
    ok (ReceivedPacket.sub_ack (record p { codes = b ∷ bs }))
attach (b ∷ bs) (ReceivedPacket.unsub_ack p) =
    ok (ReceivedPacket.unsub_ack (record p { codes = b ∷ bs }))
attach (b ∷ bs) p = err ProtocolError.malformed_packet

unfoldable pub received :
    MqttDeserializer × Result DeError ReceivedPacket → Result ProtocolError ReceivedPacket
unfolding attach remaining_bytes
received (d, ok p) = attach (remaining_bytes d) p
received (d, err e) = err (deserialization e)

unfoldable pub from_buffer : List ℕ → Result ProtocolError ReceivedPacket
unfolding received deserialize_packet new_deserializer
from_buffer buf = received (deserialize_packet (new_deserializer buf))
