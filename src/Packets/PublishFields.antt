-- ===== src/Packets/PublishFields.antt =====
-- The fields of a PUBLISH as bytes.
use mathlib.Core.Path.{subst}
use minimq.De.Strings.{prefixed}
use minimq.Packets.{PublishHeader, publish_fields, serialize_option}
use minimq.Prelude.{
  All, List, Option, [], length, none, some, sym, ℕ, ◌%◌, ◌++◌, ◌/◌, ◌∷◌, ◌≡◌, ◌≤◌,
}
use minimq.Properties.Appends.{
  Appends, Appends-nothing, Appends-prefixed, Appends-then, Appends-u16,
}
use minimq.Properties.Block.{block_bytes, collection_bytes, serialize_collection-Appends}
use minimq.Properties.Collection.{serialize_collection, slice}
use minimq.Properties.Layout.{IsText, Writable}
use minimq.Properties.Value.{Property}
use minimq.Ser.{and_then, serialize_u16}
use minimq.Ser.Fields.{serialize_none, serialize_prefixed}
use minimq.Varint.{mqtt_varint_max}

unfoldable pub id_bytes : Option ℕ → List ℕ
id_bytes none = []
id_bytes (some id) = id / 256 ∷ id % 256 ∷ []

unfoldable pub field_bytes : List ℕ → Option ℕ → List Property → List ℕ
unfolding id_bytes
field_bytes topic_text packet_id ps =
    prefixed topic_text ++ (id_bytes packet_id ++ collection_bytes ps)

serialize_id-Appends : (id : Option ℕ) → Appends (serialize_option serialize_u16 id) (id_bytes id)
unfolding serialize_option id_bytes serialize_none
serialize_id-Appends none = Appends-nothing
serialize_id-Appends (some id) = Appends-u16 id

-- A header whose topic is text and whose properties can be written is written as the topic, the
-- identifier and the properties, where there is room.
pub publish_fields-Appends :
    (p : PublishHeader) (ps : List Property)
    → p.properties ≡ slice ps
    → IsText p.topic
    → All Writable ps
    → length (block_bytes ps) ≤ mqtt_varint_max
    → Appends (publish_fields p) (field_bytes p.topic p.packet_id ps)
unfolding publish_fields field_bytes
publish_fields-Appends p ps e text writable small =
    subst
      (λ x.
        Appends
          (and_then (serialize_prefixed p.topic)
            (and_then (serialize_option serialize_u16 p.packet_id) (serialize_collection x)))
          (prefixed p.topic ++ (id_bytes p.packet_id ++ collection_bytes ps)))
      (sym e)
      (Appends-then (serialize_prefixed p.topic)
        (and_then (serialize_option serialize_u16 p.packet_id) (serialize_collection (slice ps)))
        (prefixed p.topic) (id_bytes p.packet_id ++ collection_bytes ps)
        (Appends-prefixed p.topic text.1)
        (Appends-then (serialize_option serialize_u16 p.packet_id) (serialize_collection (slice ps))
          (id_bytes p.packet_id) (collection_bytes ps) (serialize_id-Appends p.packet_id)
          (serialize_collection-Appends ps writable small)))
