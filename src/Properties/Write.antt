-- ===== src/Properties/Write.antt =====
-- minimq/src/properties.rs: what a property writes, its identifier first. minimq/src/varint.rs: the
-- serialization of a variable byte integer, byte by byte.
use minimq.Prelude.{List, Result, [], err, if◌then◌else◌, length, ltb, ok, ℕ, ◌∷◌}
use minimq.Properties.{id_to_u32}
use minimq.Properties.Value.{Property, identifier}
use minimq.Ser.{Serialize, and_then, push_u8, serialize_u16, serialize_u32}
use minimq.Ser.Fields.{serialize_prefixed, serialize_u8, unsupported}
use minimq.Varint.{VarintBuffer, as_slice, new, write_mqtt_u32_varint}

unfoldable pub push_each : List ℕ → Serialize
unfolding and_then push_u8
push_each [] s = (s, ok tt)
push_each (b ∷ bs) s = and_then (push_u8 b) (push_each bs) s

-- `BinaryData` of minimq/src/wire.rs: the length as a `u16`, then byte by byte.
unfoldable pub serialize_binary : List ℕ → Serialize
unfolding and_then serialize_u16 push_each unsupported
serialize_binary v =
    if ltb 65535 (length v) then unsupported else and_then (serialize_u16 (length v)) (push_each v)

unfoldable pub push_encoded : Result (Unit {0}) VarintBuffer → Serialize
unfolding push_each unsupported
push_encoded (ok b) = push_each (as_slice b)
push_encoded (err u) = unsupported

unfoldable pub serialize_varint : ℕ → Serialize
unfolding push_encoded
serialize_varint value = push_encoded (write_mqtt_u32_varint value new)

unfoldable pub serialize_value : Property → Serialize
unfolding serialize_u8 serialize_u16 serialize_u32 serialize_prefixed serialize_binary
    serialize_varint and_then
serialize_value (Property.payload_format_indicator value) = serialize_u8 value
serialize_value (Property.message_expiry_interval value) = serialize_u32 value
serialize_value (Property.content_type text) = serialize_prefixed text
serialize_value (Property.response_topic text) = serialize_prefixed text
serialize_value (Property.correlation_data bytes) = serialize_binary bytes
serialize_value (Property.subscription_identifier value) = serialize_varint value
serialize_value (Property.session_expiry_interval value) = serialize_u32 value
serialize_value (Property.assigned_client_identifier text) = serialize_prefixed text
serialize_value (Property.server_keep_alive value) = serialize_u16 value
serialize_value (Property.authentication_method text) = serialize_prefixed text
serialize_value (Property.authentication_data bytes) = serialize_binary bytes
serialize_value (Property.request_problem_information value) = serialize_u8 value
serialize_value (Property.will_delay_interval value) = serialize_u32 value
serialize_value (Property.request_response_information value) = serialize_u8 value
serialize_value (Property.response_information text) = serialize_prefixed text
serialize_value (Property.server_reference text) = serialize_prefixed text
serialize_value (Property.reason_string text) = serialize_prefixed text
serialize_value (Property.receive_maximum value) = serialize_u16 value
serialize_value (Property.topic_alias_maximum value) = serialize_u16 value
serialize_value (Property.topic_alias value) = serialize_u16 value
serialize_value (Property.maximum_qos value) = serialize_u8 value
serialize_value (Property.retain_available value) = serialize_u8 value
serialize_value (Property.user_property key text) =
    and_then (serialize_prefixed key) (serialize_prefixed text)
serialize_value (Property.maximum_packet_size value) = serialize_u32 value
serialize_value (Property.wildcard_subscription_available value) = serialize_u8 value
serialize_value (Property.subscription_identifier_available value) = serialize_u8 value
serialize_value (Property.shared_subscription_available value) = serialize_u8 value

unfoldable pub serialize_property : Property → Serialize
unfolding and_then serialize_varint serialize_value identifier id_to_u32
serialize_property p = and_then (serialize_varint (id_to_u32 (identifier p))) (serialize_value p)

unfoldable pub serialize_properties : List Property → Serialize
unfolding and_then serialize_property
serialize_properties [] s = (s, ok tt)
serialize_properties (p ∷ ps) s = and_then (serialize_property p) (serialize_properties ps) s
