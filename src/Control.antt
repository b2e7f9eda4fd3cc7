-- ===== src/Control.antt =====
-- The short packets that the client answers with. minimq/src/packets.rs: PUBACK, PUBREC, PUBREL,
-- PUBCOMP with a reason, and PINGREQ. minimq/src/mqtt_client/outbound.rs: the encoding of a queued
-- control action and the check of its size.
pub mod Size
mod Examples
use minimq.Errors.{packet_too_large}
use minimq.Errors.{Error, ProtocolError, encode, from_protocol, resource, response_too_large}
use minimq.Prelude.{
  Bool, List, Option, Result, err, fail_if, false, if◌then◌else◌, length, ltb, map_err, none, ok,
  replicate, some, ℕ, ◌+◌, ◌>>=◌, ◌>>◌,
}
use minimq.Reason.{ReasonCode, to_u8}
use minimq.Ser.{
  Serialize, and_then, encode_packet_bytes, max_fixed_header_size, push_u8, serialize_u16,
}
use minimq.Wire.{MessageType, control_fixed_header, pub_rel}

pub data ControlAction : Type 0 where
  pub_ack pub_rec pub_comp : ℕ → ReasonCode → ControlAction
  ping_req : ControlAction

-- A fixed header and a four-byte acknowledgement body.
abbrev pub control_packet_workspace : ℕ
control_packet_workspace = max_fixed_header_size + 4

-- The fields of PUBACK, PUBREC, PUBREL and PUBCOMP, with `reason.into()`: the packet identifier and
-- the reason code; the properties are `None` and write nothing.
unfoldable pub ack_fields : ℕ → ReasonCode → Serialize
unfolding and_then serialize_u16 push_u8 to_u8
ack_fields packet_id reason = and_then (serialize_u16 packet_id) (push_u8 (to_u8 reason))

-- PINGREQ is a unit struct.
unfoldable pub no_fields : Serialize
no_fields s = (s, ok tt)

unfoldable pub encode_control_packet : List ℕ → ControlAction → Result ProtocolError (List ℕ)
unfolding encode_packet_bytes control_fixed_header ack_fields no_fields
encode_control_packet buffer (pub_ack packet_id reason) = map_err encode (
    encode_packet_bytes (control_fixed_header MessageType.pub_ack) (ack_fields packet_id reason)
      buffer)
encode_control_packet buffer (pub_rec packet_id reason) = map_err encode (
    encode_packet_bytes (control_fixed_header MessageType.pub_rec) (ack_fields packet_id reason)
      buffer)
encode_control_packet buffer (pub_comp packet_id reason) = map_err encode (
    encode_packet_bytes (control_fixed_header MessageType.pub_comp) (ack_fields packet_id reason)
      buffer)
encode_control_packet buffer ping_req =
    map_err encode
      (encode_packet_bytes (control_fixed_header MessageType.ping_req) no_fields buffer)

unfoldable pub encode_pubrel : List ℕ → ℕ → ReasonCode → Result ProtocolError (List ℕ)
unfolding encode_packet_bytes control_fixed_header ack_fields
encode_pubrel buffer packet_id reason = map_err encode (
    encode_packet_bytes (control_fixed_header MessageType.pub_rel) (ack_fields packet_id reason)
      buffer)

-- `maximum_packet_size.is_some_and(|max| len > max)`.
unfoldable pub exceeds : Option ℕ → ℕ → Bool
exceeds none len = false
exceeds (some max) len = ltb max len

unfoldable pub require_packet_size : Option ℕ → ℕ → Result ProtocolError (Unit {0})
unfolding exceeds
require_packet_size maximum len = fail_if (exceeds maximum len) response_too_large

-- The zeroed scratch buffer.
unfoldable pub workspace : List ℕ
workspace = replicate control_packet_workspace 0

unfoldable pub check_control_packet_size :
    Option ℕ → ControlAction → Result ProtocolError (Unit {0})
unfolding encode_control_packet require_packet_size workspace
check_control_packet_size maximum action = do
  bytes ← encode_control_packet workspace action
  require_packet_size maximum (length bytes)

unfoldable pub check_pubrel_size : Option ℕ → ℕ → ReasonCode → Result ProtocolError (Unit {0})
unfolding encode_pubrel require_packet_size workspace
check_pubrel_size maximum packet_id reason = do
  bytes ← encode_pubrel workspace packet_id reason
  require_packet_size maximum (length bytes)

module _ {ℓ} {E : Type ℓ} where
  unfoldable pub too_large_for : Option ℕ → List ℕ → Result (Error E) (List ℕ)
  unfolding exceeds
  too_large_for maximum bytes =
      if exceeds maximum (length bytes) then err (resource packet_too_large) else ok bytes

  unfoldable pub serialize_control_packet :
      List ℕ → ControlAction → Option ℕ → Result (Error E) (List ℕ)
  unfolding encode_control_packet from_protocol too_large_for
  serialize_control_packet buffer action maximum = do
    bytes ← map_err from_protocol (encode_control_packet buffer action)
    too_large_for maximum bytes

  unfoldable pub serialize_pubrel : List ℕ → ℕ → ReasonCode → Option ℕ → Result (Error E) (List ℕ)
  unfolding encode_pubrel from_protocol too_large_for
  serialize_pubrel buffer packet_id reason maximum = do
    bytes ← map_err from_protocol (encode_pubrel buffer packet_id reason)
    too_large_for maximum bytes
