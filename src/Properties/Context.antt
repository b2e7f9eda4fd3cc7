-- ===== src/Properties/Context.antt =====
-- minimq/src/properties.rs: the values that a property may have, and the packets that may carry it.
use minimq.Prelude.{Bool, false, leb, true, ◌&&◌}
use minimq.Properties.{PropertyIdentifier}
use minimq.Properties.Value.{Property, identifier}
use minimq.Varint.{mqtt_varint_max}

pub data PropertyContext : Type 0 where
  publish_context subscribe_context unsubscribe_context : PropertyContext
  disconnect_context will_context : PropertyContext

unfoldable pub has_valid_value : Property → Bool
has_valid_value (Property.payload_format_indicator value) = leb value 1
has_valid_value (Property.request_problem_information value) = leb value 1
has_valid_value (Property.request_response_information value) = leb value 1
has_valid_value (Property.retain_available value) = leb value 1
has_valid_value (Property.wildcard_subscription_available value) = leb value 1
has_valid_value (Property.subscription_identifier_available value) = leb value 1
has_valid_value (Property.shared_subscription_available value) = leb value 1
has_valid_value (Property.maximum_qos value) = leb value 2
has_valid_value (Property.subscription_identifier value) = leb 1 value && leb value mqtt_varint_max
has_valid_value p = true

-- The properties of a message: those of PUBLISH and of a will.
message_property : PropertyIdentifier → Bool
message_property PropertyIdentifier.payload_format_indicator = true
message_property PropertyIdentifier.message_expiry_interval = true
message_property PropertyIdentifier.content_type = true
message_property PropertyIdentifier.response_topic = true
message_property PropertyIdentifier.correlation_data = true
message_property PropertyIdentifier.user_property = true
message_property i = false

unfoldable pub allowed : PropertyContext → PropertyIdentifier → Bool
unfolding message_property
allowed publish_context PropertyIdentifier.topic_alias = true
allowed publish_context i = message_property i
allowed will_context i = message_property i
allowed subscribe_context PropertyIdentifier.subscription_identifier = true
allowed subscribe_context PropertyIdentifier.user_property = true
allowed subscribe_context i = false
allowed unsubscribe_context PropertyIdentifier.user_property = true
allowed unsubscribe_context i = false
allowed disconnect_context PropertyIdentifier.session_expiry_interval = true
allowed disconnect_context PropertyIdentifier.reason_string = true
allowed disconnect_context PropertyIdentifier.user_property = true
allowed disconnect_context PropertyIdentifier.server_reference = true
allowed disconnect_context i = false

unfoldable pub is_valid_for : PropertyContext → Property → Bool
unfolding has_valid_value allowed identifier
is_valid_for context p = has_valid_value p && allowed context (identifier p)
