-- ===== src/Received/Acks.antt =====
-- The acknowledgements that the client sends, read as packets.
use minimq.Control.{ControlAction, encode_control_packet}
use minimq.Control.Size.{control_bytes, encode-control_bytes}
use minimq.Errors.{ProtocolError, de_custom, deserialization}
use minimq.Prelude.{
  List, Result, arith, err, length, none, ok, refl, some, ℕ, ◌%◌, ◌*◌, ◌+◌, ◌/◌, ◌≡◌, ◌≤◌,
}
use minimq.Reason.Codes.{from_u8-to_u8}
use minimq.Received.{ReceivedPacket}
use minimq.Received.Parse.{deserialize_packet, from_buffer, received}

-- What a peer reads from a control action: a PINGREQ is for brokers only.
unfoldable pub answer : ControlAction → Result ProtocolError ReceivedPacket
answer (ControlAction.pub_ack id reason) = ok (
    ReceivedPacket.pub_ack
      (record { packet_id = id; reason = some (record { code = reason; properties = none }) }))
answer (ControlAction.pub_rec id reason) = ok (
    ReceivedPacket.pub_rec
      (record { packet_id = id; reason = some (record { code = reason; properties = none }) }))
answer (ControlAction.pub_comp id reason) = ok (
    ReceivedPacket.pub_comp
      (record { packet_id = id; reason = some (record { code = reason; properties = none }) }))
answer ControlAction.ping_req = err (deserialization de_custom)

same_id : (id : ℕ) → (0 * 256 + id / 256) * 256 + id % 256 ≡ id
same_id id = omega arith

from_buffer-answer : (action : ControlAction) → from_buffer (control_bytes action) ≡ answer action
unfolding from_buffer received deserialize_packet answer control_bytes
from_buffer-answer (ControlAction.pub_ack id reason) = λ i. ok (
    ReceivedPacket.pub_ack (record {
      packet_id = same_id id i;
      reason = some (record { code = from_u8-to_u8 reason i; properties = none });
    }))
from_buffer-answer (ControlAction.pub_rec id reason) = λ i. ok (
    ReceivedPacket.pub_rec (record {
      packet_id = same_id id i;
      reason = some (record { code = from_u8-to_u8 reason i; properties = none });
    }))
from_buffer-answer (ControlAction.pub_comp id reason) = λ i. ok (
    ReceivedPacket.pub_comp (record {
      packet_id = same_id id i;
      reason = some (record { code = from_u8-to_u8 reason i; properties = none });
    }))
from_buffer-answer ControlAction.ping_req = refl

-- In a buffer of at least nine bytes each control action is encoded, and a peer that parses the
-- bytes as this client parses its own input reads the packet that was meant: the acknowledgement
-- with its identifier and reason, or, for PINGREQ, a packet that is not for a client.
pub encode-from_buffer :
    (b : List ℕ) (action : ControlAction)
    → 9 ≤ length b
    → (bytes : List ℕ) × (encode_control_packet b action ≡ ok bytes)
      × (from_buffer bytes ≡ answer action)
encode-from_buffer b action h =
    (control_bytes action, encode-control_bytes b action h, from_buffer-answer action)
