-- ===== src/Ser.antt =====
-- minimq/src/ser/mod.rs: the packet serializer. It writes fields behind room for the largest fixed
-- header, and `finalize` puts the fixed header in front of them.
pub mod Layout
pub mod Packet
pub mod Fields
pub mod Publish
pub mod Sized
mod Examples
use minimq.Errors.{SerError, insufficient_memory}
use minimq.Prelude.{
  List, Result, [], drop, err, if◌then◌else◌, length, ltb, min, ok, set, take, write_at, ℕ, ◌%◌,
  ◌+◌, ◌-◌, ◌/◌, ◌^◌, ◌∷◌,
}
use minimq.Varint.{VarintBuffer, as_slice, new, write_mqtt_u32_varint}

abbrev pub max_fixed_header_size : ℕ
max_fixed_header_size = 5

pub record MqttSerializer : Type 0 where
  pub buf : List ℕ
  pub index : ℕ

-- An operation on the serializer; the buffer keeps what was written before an error.
abbrev pub Serialize : Type 0
Serialize = MqttSerializer → MqttSerializer × Result SerError (Unit {0})

unfoldable pub then_serialize :
    Serialize
    → MqttSerializer × Result SerError (Unit {0})
    → MqttSerializer × Result SerError (Unit {0})
then_serialize k (s, ok u) = k s
then_serialize k (s, err e) = (s, err e)

-- One field after another.
unfoldable pub and_then : Serialize → Serialize → Serialize
unfolding then_serialize
and_then m k s = then_serialize k (m s)

unfoldable pub new_serializer : List ℕ → MqttSerializer
new_serializer buf = record { buf = buf; index = max_fixed_header_size }

unfoldable pub push_bytes : List ℕ → Serialize
push_bytes bytes s =
    if ltb (length s.buf - s.index) (length bytes)
    then (s, err insufficient_memory)
    else (record { buf = write_at s.index bytes s.buf; index = s.index + length bytes }, ok tt)

unfoldable pub push_u8 : ℕ → Serialize
push_u8 byte s =
    if ltb (length s.buf - s.index) 1
    then (s, err insufficient_memory)
    else (record { buf = set s.buf s.index byte; index = s.index + 1 }, ok tt)

-- The part of the buffer that a payload may be written into.
unfoldable pub remainder : MqttSerializer → List ℕ
remainder s = drop (min s.index (length s.buf)) s.buf

unfoldable pub commit_bytes : ℕ → Serialize
commit_bytes len s =
    if ltb (length s.buf - s.index) len
    then (s, err insufficient_memory)
    else (record s { index = s.index + len }, ok tt)

-- `to_be_bytes`.
unfoldable pub serialize_u16 : ℕ → Serialize
unfolding push_bytes
serialize_u16 v = push_bytes (v / 256 ∷ v % 256 ∷ [])

unfoldable pub serialize_u32 : ℕ → Serialize
unfolding push_bytes
serialize_u32 v = push_bytes (v / 16777216 ∷ v / 65536 % 256 ∷ v / 256 % 256 ∷ v % 256 ∷ [])

-- A packet in a buffer: where it starts and how long it is.
pub record Encoded : Type 0 where
  pub offset : ℕ
  pub len : ℕ

-- The fixed header in front of the `index` bytes; `remaining_len` is the encoded length.
put_header : ℕ → List ℕ → MqttSerializer → List ℕ × Result SerError Encoded
put_header header remaining_len s =
    if ltb (length s.buf) max_fixed_header_size
    then (s.buf, err insufficient_memory)
    else let start = max_fixed_header_size - length remaining_len in
      (
        set (write_at start remaining_len s.buf) (start - 1) header,
        ok (record { offset = start - 1; len = s.index - (start - 1) }),
      )

finalize_with :
    ℕ → MqttSerializer → Result (Unit {0}) VarintBuffer → List ℕ × Result SerError Encoded
unfolding put_header
finalize_with header s (err u) = (s.buf, err insufficient_memory)
finalize_with header s (ok b) = put_header header (as_slice b) s

-- `checked_sub`, then the length as a `u32`.
unfoldable pub finalize : ℕ → MqttSerializer → List ℕ × Result SerError Encoded
unfolding finalize_with
finalize header s =
    if ltb s.index max_fixed_header_size
    then (s.buf, err insufficient_memory)
    else finalize_with header s
        (write_mqtt_u32_varint ((s.index - max_fixed_header_size) % 2 ^ 32) new)

unfoldable finalize_after :
    ℕ → MqttSerializer × Result SerError (Unit {0}) → List ℕ × Result SerError Encoded
unfolding finalize
finalize_after header (s, ok u) = finalize header s
finalize_after header (s, err e) = (s.buf, err e)

-- Encode the packet with this fixed header and these fields; the buffer that follows comes first.
unfoldable pub encode_with_offset : ℕ → Serialize → List ℕ → List ℕ × Result SerError Encoded
unfolding finalize_after new_serializer
encode_with_offset header fields buf = finalize_after header (fields (new_serializer buf))

unfoldable slice_of : List ℕ × Result SerError Encoded → Result SerError (List ℕ)
slice_of (buf, ok e) = ok (take e.len (drop e.offset buf))
slice_of (buf, err x) = err x

-- `encode`: the packet's bytes.
unfoldable pub encode_packet_bytes : ℕ → Serialize → List ℕ → Result SerError (List ℕ)
unfolding encode_with_offset slice_of
encode_packet_bytes header fields buf = slice_of (encode_with_offset header fields buf)
