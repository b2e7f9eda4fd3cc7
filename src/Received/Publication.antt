-- ===== src/Received/Publication.antt =====
-- A PUBLISH that the client writes, read as a packet.
use mathlib.Core.List.{append-nil}
use minimq.De.{
  deserialize_varint, new_deserializer, read_as, read_then, read_u16, remaining_bytes,
  then_deserialize,
}
use minimq.De.Fields.{deserialize_str}
use minimq.De.Reads.{Parses, Parses-as, Parses-next, Parses-pop, Parses-u16, Parses-varint, at}
use minimq.De.Strings.{Parses-str, prefixed}
use minimq.Errors.{de_custom}
use minimq.Packets.{PublishHeader, publish_header_byte}
use minimq.Packets.PublishFields.{field_bytes, id_bytes}
use minimq.Prelude.{
  Bool, List, Option, [], ap, arith, drop-append_left, err, false, if◌then◌else◌, length,
  length-append, none, ok, refl, some, sym, true, ℕ, ◌%◌, ◌++◌, ◌/◌, ◌∙◌, ◌∷◌, ◌≡◌, ◌≤◌,
}
use minimq.Properties.Block.{
  block_bytes, collection_bytes, deserialize_properties-read, left_length,
}
use minimq.Properties.Collection.{Properties, deserialize_properties, encoded_block}
use minimq.Properties.Layout.{IsText}
use minimq.Properties.Value.{Property}
use minimq.Received.{Publish, ReceivedPacket}
use minimq.Received.Parse.{
  attach, deserialize_packet, from_buffer, read_content, read_publish, read_publish_id, read_typed,
  received,
}
use minimq.Ser.Packet.{control_packet}
use minimq.Varint.{mqtt_varint_max}
use minimq.Varint.Encode.{canonical}
use minimq.Wire.{
  MessageType, QoS, Retain, at_least_once, at_most_once, exactly_once, fixed_header, flags_valid,
  message_type, not_retained, publish_duplicate, publish_fixed_header, publish_qos, publish_retain,
  retained_message,
}

-- The header byte gives back what it was made of.
publish_header_fields :
    (qos : QoS) (retain : Retain) (dup : Bool)
    → let h = publish_fixed_header qos retain dup in
      (message_type h ≡ some MessageType.publish)
      × (flags_valid h ≡ true)
      × (publish_qos h ≡ some qos)
      × (publish_retain h ≡ retain)
      × (publish_duplicate h ≡ dup)
unfolding publish_fixed_header fixed_header message_type flags_valid publish_qos publish_retain
    publish_duplicate
publish_header_fields at_most_once not_retained false = (refl, refl, refl, refl, refl)
publish_header_fields at_most_once not_retained true = (refl, refl, refl, refl, refl)
publish_header_fields at_most_once retained_message false = (refl, refl, refl, refl, refl)
publish_header_fields at_most_once retained_message true = (refl, refl, refl, refl, refl)
publish_header_fields at_least_once not_retained false = (refl, refl, refl, refl, refl)
publish_header_fields at_least_once not_retained true = (refl, refl, refl, refl, refl)
publish_header_fields at_least_once retained_message false = (refl, refl, refl, refl, refl)
publish_header_fields at_least_once retained_message true = (refl, refl, refl, refl, refl)
publish_header_fields exactly_once not_retained false = (refl, refl, refl, refl, refl)
publish_header_fields exactly_once not_retained true = (refl, refl, refl, refl, refl)
publish_header_fields exactly_once retained_message false = (refl, refl, refl, refl, refl)
publish_header_fields exactly_once retained_message true = (refl, refl, refl, refl, refl)

-- A packet identifier stands where the quality of service asks for one.
abbrev pub Identified : QoS → Option ℕ → Type 0
Identified at_most_once id = id ≡ none
Identified at_least_once id = (n : ℕ) × (id ≡ some n)
Identified exactly_once id = (n : ℕ) × (id ≡ some n)

some_id-Parses : (id : ℕ) → Parses (read_as some read_u16) (id_bytes (some id)) (some id)
unfolding id_bytes
some_id-Parses id = Parses-as some read_u16 (id / 256 ∷ id % 256 ∷ []) id (Parses-u16 id)

publish_id-Parses :
    (qos : QoS) (id : Option ℕ) → Identified qos id → Parses (read_publish_id qos) (id_bytes id) id
unfolding read_publish_id id_bytes
publish_id-Parses at_most_once none e front rest =
    ap (λ l. (at l rest, ok none)) (sym (append-nil front))
publish_id-Parses at_most_once (some n) e front rest = absurd (cc)
publish_id-Parses at_least_once (some n) e front rest = some_id-Parses n front rest
publish_id-Parses at_least_once none (n, e) front rest = absurd (cc)
publish_id-Parses exactly_once (some n) e front rest = some_id-Parses n front rest
publish_id-Parses exactly_once none (n, e) front rest = absurd (cc)

-- The header byte and the length come first.
deserialize_packet-read :
    (header n : ℕ) (body : List ℕ)
    → n ≤ mqtt_varint_max
    → deserialize_packet (at [] (header ∷ (canonical 3 n ++ body)))
      ≡ read_content header (message_type header) (at (header ∷ canonical 3 n) body)
unfolding deserialize_packet deserialize_varint read_then then_deserialize
deserialize_packet-read header n body small =
    ap (then_deserialize (λ h. read_then deserialize_varint (λ x. read_content h (message_type h))))
      (Parses-pop header [] (canonical 3 n ++ body))
    ∙ ap (then_deserialize (λ x. read_content header (message_type header)))
        (Parses-varint de_custom n small (header ∷ []) body)

abbrev pub publication_of : PublishHeader → List Property → List ℕ → Publish
publication_of p ps payload = record {
  topic = p.topic;
  packet_id = p.packet_id;
  properties = encoded_block (block_bytes ps);
  payload = payload;
  retain = p.retain;
  qos = p.qos;
  dup = p.dup;
}

abbrev built : ℕ → QoS → List ℕ → Option ℕ → Properties → Publish
built header qos topic_text id ps = record {
  topic = topic_text;
  packet_id = id;
  properties = ps;
  payload = [];
  retain = publish_retain header;
  qos = qos;
  dup = publish_duplicate header;
}

read_publish-read :
    (header : ℕ) (p : PublishHeader) (ps : List Property) (front payload : List ℕ)
    → IsText p.topic
    → Identified p.qos p.packet_id
    → length (block_bytes ps) ≤ mqtt_varint_max
    → read_publish header (some p.qos) (at front (field_bytes p.topic p.packet_id ps ++ payload))
      ≡ (
        record (at
            (((front ++ prefixed p.topic) ++ id_bytes p.packet_id) ++ collection_bytes ps)
            payload) { next_bytes_len = left_length (length (block_bytes ps)) },
        ok (record (publication_of p ps []) {
          retain = publish_retain header;
          dup = publish_duplicate header;
        }),
      )
unfolding read_publish field_bytes read_as read_then
read_publish-read header p ps front payload text identified small =
    Parses-next deserialize_str
      (λ t.
        read_then (read_publish_id p.qos)
          (λ id. read_as (built header p.qos t id) deserialize_properties))
      (prefixed p.topic) (id_bytes p.packet_id ++ collection_bytes ps) p.topic
      (Parses-str p.topic text.0) front payload
    ∙ Parses-next (read_publish_id p.qos)
        (λ id. read_as (built header p.qos p.topic id) deserialize_properties)
        (id_bytes p.packet_id) (collection_bytes ps) p.packet_id
        (publish_id-Parses p.qos p.packet_id identified) (front ++ prefixed p.topic) payload
    ∙ ap (then_deserialize (λ x d. (d, ok (built header p.qos p.topic p.packet_id x)))) (
        deserialize_properties-read ps ((front ++ prefixed p.topic) ++ id_bytes p.packet_id) payload
          small)

pub length-field_bytes :
    (t : List ℕ) (id : Option ℕ) (ps : List Property) (payload : List ℕ)
    → length (block_bytes ps) ≤ length (field_bytes t id ps ++ payload)
unfolding field_bytes
length-field_bytes t id ps payload = omega (
  arith,
  length-append (prefixed t ++ (id_bytes id ++ collection_bytes ps)) payload,
  length-append (prefixed t) (id_bytes id ++ collection_bytes ps),
  length-append (id_bytes id) (collection_bytes ps),
  length-append (canonical 3 (length (block_bytes ps))) (block_bytes ps),
)

attach-publish :
    (payload : List ℕ) (m : Publish)
    → m.payload ≡ []
    → attach payload (ReceivedPacket.publish m)
      ≡ ok (ReceivedPacket.publish (record m { payload = payload }))
unfolding attach
attach-publish [] m e = λ i. ok (ReceivedPacket.publish (record m { payload = e i }))
attach-publish (b ∷ bs) m e = refl

received-publish :
    (front payload : List ℕ) (len : Option ℕ) (m : Publish)
    → m.payload ≡ []
    → received (record (at front payload) { next_bytes_len = len }, ok (ReceivedPacket.publish m))
      ≡ ok (ReceivedPacket.publish (record m { payload = payload }))
unfolding received remaining_bytes
received-publish front payload len m e =
    ap (λ l. attach l (ReceivedPacket.publish m)) (drop-append_left front payload)
    ∙ attach-publish payload m e

-- The packet's bytes: header, length, fields, payload.
abbrev pub publication_bytes : PublishHeader → List Property → List ℕ → List ℕ
publication_bytes p ps payload =
    control_packet (publish_header_byte p) (field_bytes p.topic p.packet_id ps ++ payload)

pub from_buffer-publication :
    (p : PublishHeader) (ps : List Property) (payload : List ℕ)
    → IsText p.topic
    → Identified p.qos p.packet_id
    → length (field_bytes p.topic p.packet_id ps ++ payload) ≤ mqtt_varint_max
    → from_buffer (publication_bytes p ps payload)
      ≡ ok (ReceivedPacket.publish (publication_of p ps payload))
unfolding from_buffer new_deserializer publish_header_byte read_content read_typed read_as read_then
from_buffer-publication p ps payload text identified small =
    let header = publish_fixed_header p.qos p.retain p.dup in
    let (typed, valid, asked, kept, repeat) = publish_header_fields p.qos p.retain p.dup in
    let content = field_bytes p.topic p.packet_id ps ++ payload in
    let front = header ∷ canonical 3 (length content) in
    ap received (
      deserialize_packet-read header (length content) content small
      ∙ ap (λ o. read_content header o (at front content)) typed
      ∙ ap
          (λ b.
            if b
            then read_typed header MessageType.publish (at front content)
            else (at front content, err de_custom))
          valid
      ∙ ap (λ q. read_as ReceivedPacket.publish (read_publish header q) (at front content)) asked
      ∙ ap (then_deserialize (λ m d. (d, ok (ReceivedPacket.publish m)))) (
          read_publish-read header p ps front payload text identified
            (omega (arith, small, length-field_bytes p.topic p.packet_id ps payload))))
    ∙ received-publish
        (((front ++ prefixed p.topic) ++ id_bytes p.packet_id) ++ collection_bytes ps) payload
        (left_length (length (block_bytes ps)))
        (record (publication_of p ps []) {
          retain = publish_retain header;
          dup = publish_duplicate header;
        })
        refl
    ∙ (λ i. ok (
        ReceivedPacket.publish
          (record (publication_of p ps payload) { retain = kept i; dup = repeat i })))
