-- ===== src/Control/Size.antt =====
-- The control packets' bytes, and when the size check passes.
-- The packets as MQTT 5 lays them out: type and flags, length, packet identifier, reason.
use minimq.Control.{
  ControlAction, ack_fields, check_control_packet_size, encode_control_packet, exceeds, no_fields,
  ping_req, pub_ack, pub_comp, pub_rec, require_packet_size, workspace,
}
use minimq.Errors.{encode, response_too_large}
use minimq.Prelude.{
  List, [], ap, arith, err, length, map_err, none, ok, refl, some, ℕ, ◌%◌, ◌/◌, ◌<◌, ◌↔◌, ◌∙◌, ◌∷◌,
  ◌≡◌, ◌≤◌,
}
use minimq.Reason.{ReasonCode, to_u8}
use minimq.Ser.{encode_packet_bytes, push_u8, serialize_u16}
use minimq.Ser.Layout.{and_then-ok, filled, new-filled, push_bytes-filled, push_u8-push_bytes}
use minimq.Ser.Packet.{Emits, encode_packet_bytes-control_packet}
use minimq.Varint.Encode.{canonical}
use minimq.Wire.{control_fixed_header, fixed_header, required_flags, type_to_u8}

unfoldable pub control_bytes : ControlAction → List ℕ
unfolding to_u8
control_bytes (pub_ack packet_id reason) =
    64 ∷ 3 ∷ packet_id / 256 ∷ packet_id % 256 ∷ to_u8 reason ∷ []
control_bytes (pub_rec packet_id reason) =
    80 ∷ 3 ∷ packet_id / 256 ∷ packet_id % 256 ∷ to_u8 reason ∷ []
control_bytes (pub_comp packet_id reason) =
    112 ∷ 3 ∷ packet_id / 256 ∷ packet_id % 256 ∷ to_u8 reason ∷ []
control_bytes ping_req = 192 ∷ 0 ∷ []

ack_fields-Emits :
    (packet_id : ℕ) (reason : ReasonCode) (b : List ℕ)
    → 9 ≤ length b
    → Emits (ack_fields packet_id reason) (packet_id / 256 ∷ packet_id % 256 ∷ to_u8 reason ∷ []) b
unfolding ack_fields serialize_u16
ack_fields-Emits packet_id reason b h = rw (new-filled b) (
    and_then-ok (serialize_u16 packet_id) (push_u8 (to_u8 reason)) (filled b []) (filled b id)
      (push_bytes-filled b [] id (omega arith))
    ∙ push_u8-push_bytes (to_u8 reason) (filled b id)
    ∙ push_bytes-filled b id (to_u8 reason ∷ []) (omega arith))
  where
    id : List ℕ
    id = packet_id / 256 ∷ packet_id % 256 ∷ []

no_fields-Emits : (b : List ℕ) → Emits no_fields [] b
unfolding no_fields
no_fields-Emits b = ap (λ s. (s, ok tt)) (new-filled b)

encode-ack :
    (header packet_id : ℕ) (reason : ReasonCode) (b : List ℕ)
    → 9 ≤ length b
    → map_err encode (encode_packet_bytes header (ack_fields packet_id reason) b)
      ≡ ok (header ∷ 3 ∷ packet_id / 256 ∷ packet_id % 256 ∷ to_u8 reason ∷ [])
unfolding canonical
encode-ack header packet_id reason b h = ap (map_err encode) (
    encode_packet_bytes-control_packet header (ack_fields packet_id reason)
      (packet_id / 256 ∷ packet_id % 256 ∷ to_u8 reason ∷ []) b
      (ack_fields-Emits packet_id reason b h) (omega arith) (omega arith))

-- In a buffer of at least nine bytes each control action is encoded, as the bytes that MQTT lays
-- out for it.
pub encode-control_bytes :
    (b : List ℕ) (action : ControlAction)
    → 9 ≤ length b
    → encode_control_packet b action ≡ ok (control_bytes action)
unfolding encode_control_packet control_bytes control_fixed_header fixed_header type_to_u8
    required_flags canonical
encode-control_bytes b (pub_ack packet_id reason) h = encode-ack 64 packet_id reason b h
encode-control_bytes b (pub_rec packet_id reason) h = encode-ack 80 packet_id reason b h
encode-control_bytes b (pub_comp packet_id reason) h = encode-ack 112 packet_id reason b h
encode-control_bytes b ping_req h = ap (map_err encode) (
    encode_packet_bytes-control_packet 192 no_fields [] b (no_fields-Emits b) (omega arith)
      (omega arith))

require_packet_size-limit :
    (max len : ℕ)
    → ((require_packet_size (some max) len ≡ ok tt) ↔ (len ≤ max))
      × (max < len → require_packet_size (some max) len ≡ err response_too_large)
unfolding require_packet_size exceeds
require_packet_size-limit max len = ground arith

-- A control action is let through exactly when its packet is within the peer's maximum, else it is
-- refused with `response_too_large`; without a maximum it is let through.
pub check-control_bytes :
    (max : ℕ) (action : ControlAction)
    → ((check_control_packet_size (some max) action ≡ ok tt)
        ↔ (length (control_bytes action) ≤ max))
      × (max < length (control_bytes action)
          → check_control_packet_size (some max) action ≡ err response_too_large)
      × (check_control_packet_size none action ≡ ok tt)
unfolding check_control_packet_size
check-control_bytes max action =
    rw (encode-control_bytes workspace action (unfold workspace in omega arith)) (
      let (iff, over) = require_packet_size-limit max (length (control_bytes action)) in
      (iff, over, unfold require_packet_size exceeds in refl))
