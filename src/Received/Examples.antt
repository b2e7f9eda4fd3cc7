-- ===== src/Received/Examples.antt =====
-- A publication with two properties, an acknowledgement and a malformed block.
use minimq.Control.{ControlAction, encode_control_packet}
use minimq.De.{remaining_bytes}
use minimq.De.Fields.{is_utf8}
use minimq.De.Reads.{at}
use minimq.Packets.{PublishHeader, publish_fields, publish_header_byte}
use minimq.Packets.PublishFields.{field_bytes, id_bytes}
use minimq.Prelude.{
  All, List, Result, [], arith, drop, false, length, map, ok, refl, replicate, some, take, ℕ, ◌++◌,
  ◌+◌, ◌∷◌, ◌≡◌,
}
use minimq.Properties.{id_to_u32}
use minimq.Properties.Appends.{Appends}
use minimq.Properties.Block.{block_bytes, collection-round_trip, collection_bytes}
use minimq.Properties.Collection.{
  deserialize_properties, encoded_block, iter, iter_encoded, serialize_collection, slice,
}
use minimq.Properties.Layout.{Writable, property_bytes, property_size-length, value_bytes}
use minimq.Properties.Progress.{iter_encoded_enough}
use minimq.Properties.Value.{Property, identifier, property_size}
use minimq.Reason.{receive_max_exceeded}
use minimq.Received.{ReceivedPacket}
use minimq.Received.Acks.{answer, encode-from_buffer}
use minimq.Received.Parse.{from_buffer}
use minimq.Received.Publication.{publication_of}
use minimq.Received.RoundTrip.{publication-round_trip}
use minimq.Ser.{Encoded}
use minimq.Ser.Publish.{encode_publish_with_offset}
use minimq.Varint.Encode.{canonical}
use minimq.Wire.{at_least_once, retained_message}

abbrev two_properties : List Property
two_properties = Property.receive_maximum 2 ∷ Property.content_type (97 ∷ 98 ∷ []) ∷ []

two_properties-Writable : All Writable two_properties
unfolding is_utf8
two_properties-Writable = (tt, ((refl, omega arith), tt))

collection-round_trip_example :
    Appends (serialize_collection (slice two_properties)) (collection_bytes two_properties)
    × ((deserialize_properties (at (7 ∷ []) (collection_bytes two_properties ++ (9 ∷ [])))).1
        ≡ ok (encoded_block (block_bytes two_properties)))
    × (remaining_bytes
          (deserialize_properties (at (7 ∷ []) (collection_bytes two_properties ++ (9 ∷ [])))).0
        ≡ 9 ∷ [])
    × (iter (encoded_block (block_bytes two_properties)) ≡ map ok two_properties)
unfolding block_bytes property_bytes value_bytes canonical identifier id_to_u32
collection-round_trip_example =
    collection-round_trip two_properties (7 ∷ []) (9 ∷ []) two_properties-Writable (omega arith)

property_size-length_example :
    length (property_bytes (Property.user_property (97 ∷ []) (98 ∷ 99 ∷ [])))
    ≡ property_size (Property.user_property (97 ∷ []) (98 ∷ 99 ∷ []))
unfolding is_utf8
property_size-length_example =
    property_size-length (Property.user_property (97 ∷ []) (98 ∷ 99 ∷ []))
      ((refl, omega arith), (refl, omega arith))

-- An identifier that is none, and an unfinished number.
iter_encoded_enough_example :
    iter_encoded (3 + 4) (5 ∷ 128 ∷ 1 ∷ []) ≡ iter_encoded 3 (5 ∷ 128 ∷ 1 ∷ [])
iter_encoded_enough_example = iter_encoded_enough 3 4 (5 ∷ 128 ∷ 1 ∷ []) (omega arith)

encode-from_buffer_example :
    (bytes : List ℕ) × (encode_control_packet
        (replicate 9 0)
        (ControlAction.pub_rec 258 receive_max_exceeded)
      ≡ ok bytes)
    × (from_buffer bytes ≡ answer (ControlAction.pub_rec 258 receive_max_exceeded))
encode-from_buffer_example =
    encode-from_buffer (replicate 9 0) (ControlAction.pub_rec 258 receive_max_exceeded)
      (omega arith)

abbrev greeting : PublishHeader
greeting = record {
  topic = 97 ∷ [];
  packet_id = some 5;
  properties = slice two_properties;
  retain = retained_message;
  qos = at_least_once;
  dup = false;
}

abbrev hello : List ℕ → List ℕ × Result (Unit {0}) ℕ
hello buf = ((104 ∷ 105 ∷ []) ++ drop 2 buf, ok 2)

publication-round_trip_example :
    (b' : List ℕ) × (e : Encoded) × (encode_publish_with_offset
        (publish_header_byte greeting)
        (publish_fields greeting)
        hello
        (replicate 30 0)
      ≡ (b', ok e))
    × (from_buffer (take e.len (drop e.offset b'))
        ≡ ok (ReceivedPacket.publish (publication_of greeting two_properties (104 ∷ 105 ∷ []))))
    × (iter (encoded_block (block_bytes two_properties)) ≡ map ok two_properties)
unfolding field_bytes block_bytes property_bytes value_bytes id_bytes canonical is_utf8 identifier
    id_to_u32
publication-round_trip_example =
    publication-round_trip greeting two_properties hello (104 ∷ 105 ∷ []) (replicate 30 0) refl
      (refl, omega arith) (5, refl) two_properties-Writable refl (omega arith) (omega arith)
