-- ===== src/Properties/Collection.antt =====
-- minimq/src/properties.rs: a property collection, borrowed or still encoded, and its iterator.
use minimq.De.{Deserialize, deserialized_bytes, new_deserializer, read_as}
use minimq.De.Fields.{deserialize_block}
use minimq.Errors.{DeError, PeerError, invalid_packet}
use minimq.Prelude.{
  Bool, List, Option, Result, [], drop, err, false, length, map, none, ok, some, suc, true, zero, ℕ,
  ◌%◌, ◌&&◌, ◌++◌, ◌+◌, ◌^◌, ◌∷◌,
}
use minimq.Properties.Context.{PropertyContext, is_valid_for}
use minimq.Properties.Read.{deserialize_property}
use minimq.Properties.Value.{Property, property_size}
use minimq.Properties.Write.{push_each, serialize_properties, serialize_property, serialize_varint}
use minimq.Ser.{Serialize, and_then}

pub data Properties : Type 0 where
  slice : List Property → Properties
  encoded_block : List ℕ → Properties
  with_correlated : Property → List Property → Properties

unfoldable pub sizes : List Property → ℕ
sizes [] = 0
sizes (p ∷ ps) = property_size p + sizes ps

-- `size`.
unfoldable pub properties_size : Properties → ℕ
unfolding sizes
properties_size (slice ps) = sizes ps
properties_size (with_correlated p ps) = sizes (ps ++ (p ∷ []))
properties_size (encoded_block block) = length block

as_item : Result DeError Property → Result PeerError Property
as_item (ok p) = ok p
as_item (err e) = err invalid_packet

-- One call of the iterator on an encoded block that has bytes left, and the bytes it used.
unfoldable pub next_encoded : List ℕ → Result PeerError Property × ℕ
unfolding deserialize_property new_deserializer as_item deserialized_bytes
next_encoded rest =
    let (d, p) = deserialize_property (new_deserializer rest) in (as_item p, deserialized_bytes d)

-- The iterator's calls until it ends; each uses a byte at least, so that as many rounds as the
-- block has bytes are enough.
unfoldable pub iter_encoded : ℕ → List ℕ → List (Result PeerError Property)
unfolding next_encoded
iter_encoded zero rest = []
iter_encoded (suc rounds) [] = []
iter_encoded (suc rounds) (b ∷ bs) =
    let (p, used) = next_encoded (b ∷ bs) in p ∷ iter_encoded rounds (drop used (b ∷ bs))

unfoldable pub iter : Properties → List (Result PeerError Property)
unfolding iter_encoded
iter (slice ps) = map ok ps
iter (with_correlated p ps) = ok p ∷ map ok ps
iter (encoded_block block) = iter_encoded (length block) block

first_response_topic : List (Result PeerError Property) → Option (List ℕ)
first_response_topic [] = none
first_response_topic (ok (Property.response_topic text) ∷ ps) = some text
first_response_topic (p ∷ ps) = first_response_topic ps

unfoldable pub response_topic_of : Properties → Option (List ℕ)
unfolding first_response_topic iter
response_topic_of ps = first_response_topic (iter ps)

first_correlation : List (Result PeerError Property) → Option (List ℕ)
first_correlation [] = none
first_correlation (ok (Property.correlation_data bytes) ∷ ps) = some bytes
first_correlation (p ∷ ps) = first_correlation ps

unfoldable pub correlation_of : Properties → Option (List ℕ)
unfolding first_correlation iter
correlation_of ps = first_correlation (iter ps)

unfoldable pub with_properties : List Property → Properties → Properties
with_properties ps (with_correlated p old) = with_correlated p ps
with_properties ps (slice old) = slice ps
with_properties ps (encoded_block block) = slice ps

unfoldable pub with_correlation : List ℕ → Properties → Properties
with_correlation bytes (slice ps) = with_correlated (Property.correlation_data bytes) ps
with_correlation bytes (with_correlated p ps) = with_correlated (Property.correlation_data bytes) ps
with_correlation bytes (encoded_block block) = with_correlated (Property.correlation_data bytes) []

all_valid : PropertyContext → List (Result PeerError Property) → Bool
unfolding is_valid_for
all_valid context [] = true
all_valid context (ok p ∷ ps) = is_valid_for context p && all_valid context ps
all_valid context (err e ∷ ps) = false

unfoldable pub valid_for : PropertyContext → Properties → Bool
unfolding all_valid iter
valid_for context ps = all_valid context (iter ps)

unfoldable pub serialize_block : Properties → Serialize
unfolding serialize_properties and_then serialize_property push_each
serialize_block (slice ps) = serialize_properties ps
serialize_block (with_correlated p ps) = and_then (serialize_property p) (serialize_properties ps)
serialize_block (encoded_block block) = push_each block

-- `Properties::serialize`: the size as a `u32`, then the properties.
unfoldable pub serialize_collection : Properties → Serialize
unfolding serialize_block and_then serialize_varint properties_size
serialize_collection ps =
    and_then (serialize_varint (properties_size ps % 2 ^ 32)) (serialize_block ps)

-- `Properties::deserialize`.
unfoldable pub deserialize_properties : Deserialize Properties
unfolding read_as deserialize_block
deserialize_properties = read_as encoded_block deserialize_block
