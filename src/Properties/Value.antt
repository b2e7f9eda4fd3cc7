-- ===== src/Properties/Value.antt =====
-- minimq/src/properties.rs: a property, its identifier and its encoded size.
use minimq.Prelude.{List, length, ℕ, ◌+◌}
use minimq.Properties.{PropertyIdentifier, id_to_u32}
use minimq.Varint.{encoded_len}

-- Text and binary data are bytes.
pub data Property : Type 0 where
  payload_format_indicator message_expiry_interval subscription_identifier : ℕ → Property
  session_expiry_interval server_keep_alive request_problem_information : ℕ → Property
  will_delay_interval request_response_information receive_maximum : ℕ → Property
  topic_alias_maximum topic_alias maximum_qos : ℕ → Property
  retain_available maximum_packet_size wildcard_subscription_available : ℕ → Property
  subscription_identifier_available shared_subscription_available : ℕ → Property
  content_type response_topic correlation_data : List ℕ → Property
  assigned_client_identifier authentication_method authentication_data : List ℕ → Property
  response_information server_reference reason_string : List ℕ → Property
  user_property : List ℕ → List ℕ → Property

-- `From<&Property>`.
unfoldable pub identifier : Property → PropertyIdentifier
identifier (payload_format_indicator value) = PropertyIdentifier.payload_format_indicator
identifier (message_expiry_interval value) = PropertyIdentifier.message_expiry_interval
identifier (content_type text) = PropertyIdentifier.content_type
identifier (response_topic text) = PropertyIdentifier.response_topic
identifier (correlation_data bytes) = PropertyIdentifier.correlation_data
identifier (subscription_identifier value) = PropertyIdentifier.subscription_identifier
identifier (session_expiry_interval value) = PropertyIdentifier.session_expiry_interval
identifier (assigned_client_identifier text) = PropertyIdentifier.assigned_client_identifier
identifier (server_keep_alive value) = PropertyIdentifier.server_keep_alive
identifier (authentication_method text) = PropertyIdentifier.authentication_method
identifier (authentication_data bytes) = PropertyIdentifier.authentication_data
identifier (request_problem_information value) = PropertyIdentifier.request_problem_information
identifier (will_delay_interval value) = PropertyIdentifier.will_delay_interval
identifier (request_response_information value) = PropertyIdentifier.request_response_information
identifier (response_information text) = PropertyIdentifier.response_information
identifier (server_reference text) = PropertyIdentifier.server_reference
identifier (reason_string text) = PropertyIdentifier.reason_string
identifier (receive_maximum value) = PropertyIdentifier.receive_maximum
identifier (topic_alias_maximum value) = PropertyIdentifier.topic_alias_maximum
identifier (topic_alias value) = PropertyIdentifier.topic_alias
identifier (maximum_qos value) = PropertyIdentifier.maximum_qos
identifier (retain_available value) = PropertyIdentifier.retain_available
identifier (user_property key text) = PropertyIdentifier.user_property
identifier (maximum_packet_size value) = PropertyIdentifier.maximum_packet_size
identifier (wildcard_subscription_available value) =
    PropertyIdentifier.wildcard_subscription_available
identifier (subscription_identifier_available value) =
    PropertyIdentifier.subscription_identifier_available
identifier (shared_subscription_available value) = PropertyIdentifier.shared_subscription_available

unfoldable pub id_len : Property → ℕ
unfolding identifier id_to_u32
id_len p = encoded_len (id_to_u32 (identifier p))

unfoldable pub property_size : Property → ℕ
unfolding id_len
property_size (payload_format_indicator value) = 1 + id_len (payload_format_indicator value)
property_size (message_expiry_interval value) = 4 + id_len (message_expiry_interval value)
property_size (content_type text) = length text + 2 + id_len (content_type text)
property_size (response_topic text) = length text + 2 + id_len (response_topic text)
property_size (correlation_data bytes) = length bytes + 2 + id_len (correlation_data bytes)
property_size (subscription_identifier value) =
    encoded_len value + id_len (subscription_identifier value)
property_size (session_expiry_interval value) = 4 + id_len (session_expiry_interval value)
property_size (assigned_client_identifier text) =
    length text + 2 + id_len (assigned_client_identifier text)
property_size (server_keep_alive value) = 2 + id_len (server_keep_alive value)
property_size (authentication_method text) = length text + 2 + id_len (authentication_method text)
property_size (authentication_data bytes) = length bytes + 2 + id_len (authentication_data bytes)
property_size (request_problem_information value) = 1 + id_len (request_problem_information value)
property_size (will_delay_interval value) = 4 + id_len (will_delay_interval value)
property_size (request_response_information value) = 1 + id_len (request_response_information value)
property_size (response_information text) = length text + 2 + id_len (response_information text)
property_size (server_reference text) = length text + 2 + id_len (server_reference text)
property_size (reason_string text) = length text + 2 + id_len (reason_string text)
property_size (receive_maximum value) = 2 + id_len (receive_maximum value)
property_size (topic_alias_maximum value) = 2 + id_len (topic_alias_maximum value)
property_size (topic_alias value) = 2 + id_len (topic_alias value)
property_size (maximum_qos value) = 1 + id_len (maximum_qos value)
property_size (retain_available value) = 1 + id_len (retain_available value)
property_size (user_property key text) =
    (length text + 2) + (length key + 2) + id_len (user_property key text)
property_size (maximum_packet_size value) = 4 + id_len (maximum_packet_size value)
property_size (wildcard_subscription_available value) =
    1 + id_len (wildcard_subscription_available value)
property_size (subscription_identifier_available value) =
    1 + id_len (subscription_identifier_available value)
property_size (shared_subscription_available value) =
    1 + id_len (shared_subscription_available value)
