-- ===== src/Received/RoundTrip.antt =====
-- A publication from its encoder to the parser.
use minimq.Packets.{PublishHeader, publish_fields, publish_header_byte}
use minimq.Packets.PublishFields.{field_bytes, publish_fields-Appends}
use minimq.Prelude.{
  All, List, Result, [], ap, arith, drop, length, length-append, map, map_err, ok, take, ℕ, ◌++◌,
  ◌+◌, ◌∙◌, ◌≡◌, ◌≤◌,
}
use minimq.Properties.Block.{block_bytes, iter-block_bytes}
use minimq.Properties.Collection.{encoded_block, iter, slice}
use minimq.Properties.Layout.{IsText, Writable}
use minimq.Properties.Value.{Property}
use minimq.Received.{ReceivedPacket}
use minimq.Received.Parse.{from_buffer}
use minimq.Received.Publication.{
  Identified, from_buffer-publication, length-field_bytes, publication_of,
}
use minimq.Ser.{Encoded, and_then, new_serializer, push_bytes}
use minimq.Ser.Layout.{and_then-ok, filled, new-filled, push_bytes-filled}
use minimq.Ser.Packet.{Emits, encode-control_packet}
use minimq.Ser.Publish.{
  Writes, encode_publish-encode_with_offset, encode_publish_with_offset, encoding,
}
use minimq.Varint.{mqtt_varint_max}

module _ {P : Type 0} where
  -- A publication whose topic is text, whose identifier stands where its quality of service asks
  -- for one and whose properties can be written, with a payload that writes some bytes: in a buffer
  -- with room it is encoded as a packet, and the parser of received packets reads from that packet
  -- the same topic, identifier, flags and payload, with properties whose iterator yields those that
  -- were written.
  pub publication-round_trip :
      (p : PublishHeader) (ps : List Property) (payload : List ℕ → List ℕ × Result P ℕ)
      (bytes b : List ℕ)
      → p.properties ≡ slice ps
      → IsText p.topic
      → Identified p.qos p.packet_id
      → All Writable ps
      → Writes payload bytes (drop (5 + length (field_bytes p.topic p.packet_id ps)) b)
      → 5 + length (field_bytes p.topic p.packet_id ps ++ bytes) ≤ length b
      → length (field_bytes p.topic p.packet_id ps ++ bytes) ≤ mqtt_varint_max
      → (b' : List ℕ) × (e : Encoded) × (encode_publish_with_offset
            (publish_header_byte p)
            (publish_fields p)
            payload
            b
          ≡ (b', ok e))
        × (from_buffer (take e.len (drop e.offset b'))
            ≡ ok (ReceivedPacket.publish (publication_of p ps bytes)))
        × (iter (encoded_block (block_bytes ps)) ≡ map ok ps)
  publication-round_trip p ps payload bytes b e text identified writable writes fits small =
      let fields = field_bytes p.topic p.packet_id ps in
      let sum = length-append fields bytes in
      let block_small : length (block_bytes ps) ≤ mqtt_varint_max =
        omega (arith, small, length-field_bytes p.topic p.packet_id ps bytes) in
      let emits : Emits (publish_fields p) fields b =
        ap (publish_fields p) (new-filled b)
        ∙ publish_fields-Appends p ps e text writable block_small b [] (omega (arith, sum, fits)) in
      let all_emitted : Emits (and_then (publish_fields p) (push_bytes bytes)) (fields ++ bytes) b =
        and_then-ok (publish_fields p) (push_bytes bytes) (new_serializer b) (filled b fields) emits
        ∙ push_bytes-filled b fields bytes (omega (arith, sum, fits)) in
      let (b', enc, encoded, cut, len_is, ends, size_kept) =
        encode-control_packet (publish_header_byte p)
          (and_then (publish_fields p) (push_bytes bytes)) (fields ++ bytes) b all_emitted fits
          small in
      (
        b',
        enc,
        encode_publish-encode_with_offset (publish_header_byte p) (publish_fields p) payload fields
              bytes b emits writes (omega (arith, sum, fits))
            ∙ ap (λ r. (r.0, map_err encoding r.1)) encoded,
        ap from_buffer cut ∙ from_buffer-publication p ps bytes text identified small,
        iter-block_bytes ps writable,
      )
