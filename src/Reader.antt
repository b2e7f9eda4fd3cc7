-- ===== src/Reader.antt =====
-- minimq/src/de/packet_reader.rs: the reader that cuts the byte stream into MQTT packets.
-- A method returns the reader that it leaves behind beside its result. The window that
-- `receive_buffer` lends out is a pair of positions; `commit` follows the write into it.
pub mod Fill
pub mod Framing
use minimq.Errors.{ProtocolError, malformed_packet}
use minimq.Prelude.{
  Bool, List, Option, Result, drop, err, false, if◌then◌else◌, leb, length, none, ok, some, take, ℕ,
  ◌+◌, ◌-◌, ◌>>=◌,
}
use minimq.Varint.{probe_mqtt_u32_varint}

pub record PacketReader : Type 0 where
  pub buffer : List ℕ
  pub read_bytes : ℕ
  pub packet_length : Option ℕ

pub new_reader : List ℕ → PacketReader
new_reader buffer = record { buffer = buffer; read_bytes = 0; packet_length = none }

pub capacity : PacketReader → ℕ
capacity r = length r.buffer

-- `&self.buffer[1..self.read_bytes]`.
unfoldable pub header_bytes : PacketReader → List ℕ
header_bytes r = take (r.read_bytes - 1) (drop 1 r.buffer)

set_length :
    PacketReader
    → Result (Unit {0}) (Option (ℕ × ℕ))
    → PacketReader × Result ProtocolError (Unit {0})
set_length r (err e) = (r, err malformed_packet)
set_length r (ok none) = (r, ok tt)
set_length r (ok (some (packet_length, length_size_bytes))) =
    (record r { packet_length = some (1 + length_size_bytes + packet_length) }, ok tt)

pub probe_fixed_header : PacketReader → PacketReader × Result ProtocolError (Unit {0})
unfolding header_bytes set_length
probe_fixed_header r =
    if leb r.read_bytes 1
    then (r, ok tt)
    else set_length (record r { packet_length = none }) (probe_mqtt_u32_varint (header_bytes r))

-- The end of the window: the packet's end where it is known, else one byte more.
target_end : PacketReader → ℕ
target_end r = elim r.packet_length [ none ↦ r.read_bytes + 1 | some packet_length ↦ packet_length ]

pub window : PacketReader → PacketReader × Result ProtocolError (ℕ × ℕ)
unfolding target_end
window r =
    if leb (target_end r) (length r.buffer)
    then (r, ok (r.read_bytes, target_end r))
    else (r, err malformed_packet)

probe_if_unknown : PacketReader → Option ℕ → PacketReader × Result ProtocolError (Unit {0})
probe_if_unknown r none = probe_fixed_header r
probe_if_unknown r (some packet_length) = (r, ok tt)

window_after :
    PacketReader × Result ProtocolError (Unit {0}) → PacketReader × Result ProtocolError (ℕ × ℕ)
unfolding window
window_after (r, ok u) = window r
window_after (r, err e) = (r, err e)

pub receive_buffer : PacketReader → PacketReader × Result ProtocolError (ℕ × ℕ)
unfolding probe_if_unknown window_after
receive_buffer r = window_after (probe_if_unknown r r.packet_length)

pub commit : PacketReader → ℕ → PacketReader
commit r count = record r { read_bytes = r.read_bytes + count }

unfoldable pub packet_available : PacketReader → Bool
packet_available r = elim r.packet_length [ none ↦ false | some len ↦ leb len r.read_bytes ]

unfoldable pub reset : PacketReader → PacketReader
reset r = record r { read_bytes = 0; packet_length = none }

-- The parser of a whole packet, `ReceivedPacket::from_buffer`, is an argument here.
module _ {ℓ} {P : Type ℓ} (from_buffer : List ℕ → Result ProtocolError P) where
  unfoldable pub take_packet : PacketReader → PacketReader × Result ProtocolError (ℕ × P)
  unfolding reset
  take_packet r = elim r.packet_length [
    | none ↦ (r, err malformed_packet)
    | some len ↦ (reset r, do packet ← from_buffer (take len r.buffer); ok (len, packet))
  ]
