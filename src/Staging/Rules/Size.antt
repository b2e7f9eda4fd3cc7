-- ===== src/Staging/Rules/Size.antt =====
-- The size that a chunk's packet is taken to need, against the packet as it is encoded.
use mathlib.Core.WellFounded.{Acc}
use minimq.De.Strings.{prefixed}
use minimq.Packets.{PublishHeader}
use minimq.Packets.PublishFields.{field_bytes, id_bytes}
use minimq.Prelude.{
  List, Option, [], arith, length, length-append, none, some, suc, zero, ℕ, ◌%◌, ◌++◌, ◌+◌, ◌/◌,
  ◌<◌, ◌^◌, ◌∷◌, ◌≡◌, ◌≤◌,
}
use minimq.Prelude.Order.{lt_wf}
use minimq.Properties.{id_to_u32}
use minimq.Properties.Block.{block_bytes, collection_bytes}
use minimq.Properties.Layout.{property_bytes, value_bytes}
use minimq.Properties.Value.{Property, identifier}
use minimq.Received.Publication.{publication_bytes}
use minimq.Staging.{Bytes}
use minimq.Staging.Rules.{mqtt_varint_len, offset_key, required_rx_bytes, varint_len_loop}
use minimq.Varint.{mqtt_varint_max}
use minimq.Varint.Encode.{canonical, length-canonical}

varint_len_loop-canonical :
    (k value : ℕ) (w : Acc ◌<◌ value)
    → value < 128 ^ suc k
    → varint_len_loop value w ≡ length (canonical k value)
unfolding varint_len_loop canonical
varint_len_loop-canonical zero value (Acc.intro _ below) h = ground arith
varint_len_loop-canonical (suc k) value (Acc.intro _ below) h = grind (
  arith,
  λ (w : Acc ◌<◌ (value / 128)). varint_len_loop-canonical k (value / 128) w (omega arith),
)

pub mqtt_varint_len-canonical :
    (value : ℕ) → value ≤ mqtt_varint_max → mqtt_varint_len value ≡ length (canonical 3 value)
unfolding mqtt_varint_len
mqtt_varint_len-canonical value h =
    varint_len_loop-canonical 3 value (lt_wf.apply value) (omega arith)

length-canonical_le : (k a b : ℕ) → a ≤ b → length (canonical k a) ≤ length (canonical k b)
unfolding canonical
length-canonical_le zero a b h = omega arith
length-canonical_le (suc k) a b h = ground (
  arith,
  length-canonical_le k (a / 128) (b / 128) (omega (arith, h)),
  (length-canonical k (b / 128)).1,
)

-- The properties of a chunk: the format of its payload, the transfer's id, and the offset in decimal.
abbrev pub chunk_property_list : Bytes → Bytes → List Property
chunk_property_list id digit_text =
    Property.payload_format_indicator 0
    ∷ Property.correlation_data id
    ∷ Property.user_property offset_key digit_text
    ∷ []

chunk_block_length :
    (id digit_text : Bytes)
    → length (block_bytes (chunk_property_list id digit_text)) ≡ length id + length digit_text + 16
unfolding block_bytes property_bytes value_bytes canonical identifier id_to_u32
chunk_block_length id digit_text = omega (
  arith,
  length-append id (
      38
      ∷ 0
      ∷ 6
      ∷ 111
      ∷ 102
      ∷ 102
      ∷ 115
      ∷ 101
      ∷ 116
      ∷ length digit_text / 256
      ∷ length digit_text % 256
      ∷ (digit_text ++ [])),
  length-append digit_text [],
)

id_bytes_le : (o : Option ℕ) → length (id_bytes o) ≤ 2
unfolding id_bytes
id_bytes_le none = omega arith
id_bytes_le (some n) = omega arith

content_length :
    (t : List ℕ) (o : Option ℕ) (ps : List Property) (payload : Bytes)
    → length (field_bytes t o ps ++ payload)
      ≤ 2
        + length t
        + 2
        + length (canonical 3 (length (block_bytes ps)))
        + length (block_bytes ps)
        + length payload
unfolding field_bytes
content_length t o ps payload = omega (
  arith,
  length-append (prefixed t ++ (id_bytes o ++ collection_bytes ps)) payload,
  length-append (prefixed t) (id_bytes o ++ collection_bytes ps),
  length-append (id_bytes o) (collection_bytes ps),
  length-append (canonical 3 (length (block_bytes ps))) (block_bytes ps),
  id_bytes_le o,
)

-- A chunk's PUBLISH with its payload format, its id, an offset of at most ten digits and a payload of
-- at most the agreed size, where that is at most 2^27, on a topic of at most 128 bytes and with an id
-- of at most 48, is no longer than the size for which a manifest is refused when the receive buffer
-- is smaller.
pub publication_bytes-le :
    (p : PublishHeader) (id digit_text payload : Bytes) (payload_size : ℕ)
    → length p.topic ≤ 128
    → length id ≤ 48
    → length digit_text ≤ 10
    → length payload ≤ payload_size
    → payload_size ≤ 2 ^ 27
    → length (publication_bytes p (chunk_property_list id digit_text) payload)
      ≤ required_rx_bytes p.topic id payload_size
unfolding required_rx_bytes
publication_bytes-le p id digit_text payload payload_size topic_small id_small digits_small
      payload_small agreed =
    omega (
      arith,
      length-append (canonical 3 (length content)) content,
      length-canonical_le 3 (length content) remaining fits,
      mqtt_varint_len-canonical remaining (omega (arith, most, id_small, topic_small, agreed)),
      fits,
    )
  where
    ps : List Property
    ps = chunk_property_list id digit_text

    content : List ℕ
    content = field_bytes p.topic p.packet_id ps ++ payload

    properties : ℕ
    properties = 2 + 1 + 2 + length id + 1 + 2 + length offset_key + 2 + 10

    remaining : ℕ
    remaining = 2 + length p.topic + 2 + mqtt_varint_len properties + properties + payload_size

    announced : mqtt_varint_len properties ≡ length (canonical 3 properties)
    announced = mqtt_varint_len-canonical properties (omega (arith, id_small))

    most : mqtt_varint_len properties ≤ 4
    most = omega (arith, announced, (length-canonical 3 properties).0)

    fits : length content ≤ remaining
    fits = omega (
      arith,
      content_length p.topic p.packet_id ps payload,
      chunk_block_length id digit_text,
      length-canonical_le 3 (length (block_bytes ps)) properties
          (omega (arith, chunk_block_length id digit_text, digits_small)),
      announced,
      digits_small,
      payload_small,
    )
