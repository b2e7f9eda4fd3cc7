-- ===== src/Properties/Read.antt =====
-- minimq/src/properties.rs: the reading of one property.
use minimq.De.{
  Deserialize, deserialize_u32, deserialize_varint, pop, read_as, read_then, read_u16, read_varint,
  refuse,
}
use minimq.De.Fields.{deserialize_bytes, deserialize_str}
use minimq.Errors.{de_custom}
use minimq.Prelude.{Option, none, some}
use minimq.Properties.{PropertyIdentifier, id_from_u32, invalid_identifier}
use minimq.Properties.Value.{Property}

unfoldable pub read_value : PropertyIdentifier → Deserialize Property
unfolding read_as read_then pop read_u16 deserialize_u32 deserialize_str deserialize_bytes
    deserialize_varint
read_value invalid_identifier = refuse de_custom
read_value PropertyIdentifier.payload_format_indicator =
    read_as Property.payload_format_indicator pop
read_value PropertyIdentifier.message_expiry_interval =
    read_as Property.message_expiry_interval deserialize_u32
read_value PropertyIdentifier.content_type = read_as Property.content_type deserialize_str
read_value PropertyIdentifier.response_topic = read_as Property.response_topic deserialize_str
read_value PropertyIdentifier.correlation_data = read_as Property.correlation_data deserialize_bytes
read_value PropertyIdentifier.subscription_identifier =
    read_as Property.subscription_identifier deserialize_varint
read_value PropertyIdentifier.session_expiry_interval =
    read_as Property.session_expiry_interval deserialize_u32
read_value PropertyIdentifier.assigned_client_identifier =
    read_as Property.assigned_client_identifier deserialize_str
read_value PropertyIdentifier.server_keep_alive = read_as Property.server_keep_alive read_u16
read_value PropertyIdentifier.authentication_method =
    read_as Property.authentication_method deserialize_str
read_value PropertyIdentifier.authentication_data =
    read_as Property.authentication_data deserialize_bytes
read_value PropertyIdentifier.request_problem_information =
    read_as Property.request_problem_information pop
read_value PropertyIdentifier.will_delay_interval =
    read_as Property.will_delay_interval deserialize_u32
read_value PropertyIdentifier.request_response_information =
    read_as Property.request_response_information pop
read_value PropertyIdentifier.response_information =
    read_as Property.response_information deserialize_str
read_value PropertyIdentifier.server_reference = read_as Property.server_reference deserialize_str
read_value PropertyIdentifier.reason_string = read_as Property.reason_string deserialize_str
read_value PropertyIdentifier.receive_maximum = read_as Property.receive_maximum read_u16
read_value PropertyIdentifier.topic_alias_maximum = read_as Property.topic_alias_maximum read_u16
read_value PropertyIdentifier.topic_alias = read_as Property.topic_alias read_u16
read_value PropertyIdentifier.maximum_qos = read_as Property.maximum_qos pop
read_value PropertyIdentifier.retain_available = read_as Property.retain_available pop
read_value PropertyIdentifier.user_property =
    read_then deserialize_str (λ key. read_as (Property.user_property key) deserialize_str)
read_value PropertyIdentifier.maximum_packet_size =
    read_as Property.maximum_packet_size deserialize_u32
read_value PropertyIdentifier.wildcard_subscription_available =
    read_as Property.wildcard_subscription_available pop
read_value PropertyIdentifier.subscription_identifier_available =
    read_as Property.subscription_identifier_available pop
read_value PropertyIdentifier.shared_subscription_available =
    read_as Property.shared_subscription_available pop

unfoldable pub read_identified : Option PropertyIdentifier → Deserialize Property
unfolding read_value
read_identified none = refuse de_custom
read_identified (some i) = read_value i

-- The identifier, read as an enum's variant, and the value.
unfoldable pub deserialize_property : Deserialize Property
unfolding read_then read_varint read_identified id_from_u32
deserialize_property = read_then read_varint (λ value. read_identified (id_from_u32 value))
