-- ===== src/Outbound/View/Examples.antt =====
-- Runs of the theorems on the transmit buffer, with vectors over lists.
use native.Mathlib.Decide.{dec_lt}
use minimq.Control.{ack_fields}
use minimq.Errors.{encode, insufficient_memory}
use minimq.Outbound.{
  Outbound, OutboundStep, RetainedPacket, SendState, any, holds_op, new_outbound,
  publish_at_least_once, publish_exactly_once, retained_bytes, retained_capacity, scratch_space,
  sent, subscribe_op, write,
}
use minimq.Outbound.ListVec.{list_vec}
use minimq.Outbound.Queues.{ack_packet, queue_control, retain_packet}
use minimq.Outbound.Send.{arm_replay, encode_packet, next_step}
use minimq.Outbound.Send.Order.{Offers, busy, next_step-Offers}
use minimq.Outbound.Send.Publish.{encode_publish}
use minimq.Outbound.View.{IsValid, packets}
use minimq.Outbound.View.Ack.{ack_packet-packets, remove_first}
use minimq.Outbound.View.Encode.{encode_packet-packets, retain-encode_packet}
use minimq.Outbound.View.Replay.{arm_replay-resent, resent}
use minimq.Outbound.View.Valid.{
  Reaches, Reaches-IsValid, control_queued, further, here, packet_encoded, packet_retained,
  publication_retained, replay_armed,
}
use minimq.Prelude.{
  List, Result, [], arith, err, false, map, none, ok, refl, replicate, some, true, ℕ, ◌++◌, ◌||◌,
  ◌∷◌, ◌≡◌,
}
use minimq.Prelude.Order.{lt_wf}
use minimq.Reason.{success, to_u8}
use minimq.Ser.{
  Serialize, and_then, new_serializer, push_bytes, push_u8, serialize_u16, then_serialize,
}
use minimq.Ser.Layout.{filled}
use minimq.Ser.Packet.{Emits, control_packet}
use minimq.Ser.Sized.{KeepsSize-bytes, PayloadKeepsSize}
use minimq.Varint.{as_slice, group_byte, new, push, write_loop, write_mqtt_u32_varint}
use minimq.Varint.Encode.{canonical}
use minimq.Control.{ping_req}

abbrev small_packet : ℕ → SendState → RetainedPacket
small_packet id state = record {
  kind = publish_at_least_once;
  packet_id = id;
  len = 3;
  state = state;
}

abbrev two_held : Outbound
two_held = record {
  buf = 50 ∷ 1 ∷ 65 ∷ 50 ∷ 1 ∷ 66 ∷ replicate 20 0;
  connect_workspace = 4;
  pending_control = [];
  retained = small_packet 1 sent ∷ small_packet 2 (write 1) ∷ [];
  pending_release = [];
}

two_held-IsValid : IsValid two_held
two_held-IsValid = record {
  inside = omega arith;
  non_empty = (omega arith, (omega arith, tt));
  retained_bound = omega arith;
  control_bound = omega arith;
  release_bound = omega arith;
}

ack_packet-packets_example :
    (packets (ack_packet list_vec publish_at_least_once 1 two_held).0
      ≡ remove_first (λ s. holds_op publish_at_least_once 1 s.0) (packets two_held))
    × ((ack_packet list_vec publish_at_least_once 1 two_held).1
        ≡ any (holds_op publish_at_least_once 1) two_held.retained)
ack_packet-packets_example =
    ack_packet-packets list_vec publish_at_least_once 1 two_held two_held-IsValid

arm_replay-resent_example : packets (arm_replay two_held) ≡ map resent (packets two_held)
arm_replay-resent_example = arm_replay-resent two_held two_held-IsValid

encode_packet-packets_example :
    packets (encode_packet 64 (ack_fields 258 success) two_held).0 ≡ packets two_held
encode_packet-packets_example =
    encode_packet-packets 64 (ack_fields 258 success) two_held two_held-IsValid

ack_emits : Emits (ack_fields 258 success) (1 ∷ 2 ∷ 0 ∷ []) (scratch_space two_held)
unfolding ack_fields and_then then_serialize serialize_u16 push_bytes push_u8 new_serializer
    scratch_space retained_bytes filled to_u8
ack_emits = refl

retain-encode_packet_example :
    (len : ℕ) × ((encode_packet 64 (ack_fields 258 success) two_held).1 ≡ ok len)
    × (packets
          (retain_packet list_vec publish_exactly_once 3 len
            (encode_packet 64 (ack_fields 258 success) two_held).0).0
        ≡ packets two_held
          ++ ((
            record { kind = publish_exactly_once; packet_id = 3; len = len; state = write 0 },
            control_packet 64 (1 ∷ 2 ∷ 0 ∷ []),
          )
              ∷ []))
unfolding scratch_space retained_bytes retained_capacity canonical
retain-encode_packet_example =
    retain-encode_packet 64 (ack_fields 258 success) (1 ∷ 2 ∷ 0 ∷ []) two_held two_held-IsValid
      ack_emits (omega arith) (omega arith) (omega arith) list_vec publish_exactly_once 3
      (omega arith)

-- A session that queues a PINGREQ, retains a packet and a publication, fails to encode a packet that is
-- too long, and replays.
abbrev start_buffer : Outbound
start_buffer = new_outbound (replicate 24 0)

abbrev two_fields : Serialize
two_fields = push_bytes (7 ∷ 9 ∷ [])

abbrev many_fields : Serialize
many_fields = push_bytes (replicate 30 1)

abbrev letter : List ℕ → List ℕ × Result ℕ ℕ
letter [] = ([], err 3)
letter (x ∷ b) = (65 ∷ b, ok 1)

letter_keeps : PayloadKeepsSize letter
letter_keeps [] = refl
letter_keeps (x ∷ b) = refl

abbrev with_ping : Outbound
with_ping = (queue_control list_vec ping_req start_buffer).0

abbrev with_packet : Outbound
with_packet = (retain_packet list_vec subscribe_op 1 4 (encode_packet 130 two_fields with_ping).0).0

abbrev with_publication : Outbound
with_publication =
    (retain_packet list_vec publish_at_least_once 2 5
      (encode_publish {P = ℕ} {E = ℕ} 50 two_fields letter with_packet).0).0

abbrev after_failure : Outbound
after_failure = (encode_packet 130 many_fields with_publication).0

packet_fits : (encode_packet 130 two_fields with_ping).1 ≡ ok 4
unfolding encode_packet push_bytes new_outbound queue_control write_mqtt_u32_varint write_loop push
    group_byte as_slice new minimq.Prelude.Order.lt_wf native.Mathlib.Decide.dec_lt
packet_fits = refl

publication_fits : (encode_publish {P = ℕ} {E = ℕ} 50 two_fields letter with_packet).1 ≡ ok 5
unfolding encode_packet encode_publish push_bytes new_outbound queue_control retain_packet
    write_mqtt_u32_varint write_loop push group_byte as_slice new minimq.Prelude.Order.lt_wf
    native.Mathlib.Decide.dec_lt
publication_fits = refl

packet_refused :
    (encode_packet 130 many_fields with_publication).1 ≡ err (encode insufficient_memory)
unfolding encode_packet encode_publish push_bytes new_outbound queue_control retain_packet
    write_mqtt_u32_varint write_loop push group_byte as_slice new minimq.Prelude.Order.lt_wf
    native.Mathlib.Decide.dec_lt
packet_refused = refl

replayed_session : Reaches list_vec ℕ ℕ start_buffer (arm_replay after_failure)
replayed_session =
    further
      (further
        (further
          (further (further here (control_queued ping_req)) (
            packet_retained subscribe_op 1 130 two_fields 4 (KeepsSize-bytes (7 ∷ 9 ∷ []))
              packet_fits))
          (publication_retained publish_at_least_once 2 50 two_fields letter 5
            (KeepsSize-bytes (7 ∷ 9 ∷ [])) letter_keeps publication_fits))
        (packet_encoded 130 many_fields (KeepsSize-bytes (replicate 30 1))))
      replay_armed

Reaches-IsValid_example : IsValid (arm_replay after_failure)
Reaches-IsValid_example =
    Reaches-IsValid list_vec ℕ ℕ (replicate 24 0) (arm_replay after_failure) replayed_session

next_step-Offers_example :
    ((busy true two_held || busy false two_held) ≡ false → next_step two_held ≡ none)
    × (busy true two_held ≡ true
        → (step : OutboundStep) × (next_step two_held ≡ some step) × Offers true two_held step)
    × (busy true two_held ≡ false
        → busy false two_held ≡ true
        → (step : OutboundStep) × (next_step two_held ≡ some step) × Offers false two_held step)
next_step-Offers_example = next_step-Offers two_held
