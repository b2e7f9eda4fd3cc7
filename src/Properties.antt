-- ===== src/Properties.antt =====
-- minimq/src/properties.rs: the MQTT properties. This module has their identifiers on the wire.
pub mod Value
pub mod Context
pub mod Write
pub mod Appends
pub mod Layout
pub mod Read
pub mod Collection
pub mod RoundTrip
pub mod Block
pub mod Progress
use minimq.Prelude.{List, Option, [], if◌then◌else◌, none, refl, some, ℕ, ◌==◌, ◌∷◌, ◌≡◌}

pub data PropertyIdentifier : Type 0 where
  -- `u32::MAX`, which no variable byte integer reaches
  invalid_identifier : PropertyIdentifier
  payload_format_indicator message_expiry_interval content_type : PropertyIdentifier
  response_topic correlation_data subscription_identifier : PropertyIdentifier
  session_expiry_interval assigned_client_identifier server_keep_alive : PropertyIdentifier
  authentication_method authentication_data request_problem_information : PropertyIdentifier
  will_delay_interval request_response_information response_information : PropertyIdentifier
  server_reference reason_string receive_maximum : PropertyIdentifier
  topic_alias_maximum topic_alias maximum_qos : PropertyIdentifier
  retain_available user_property maximum_packet_size : PropertyIdentifier
  wildcard_subscription_available subscription_identifier_available shared_subscription_available :
      PropertyIdentifier

unfoldable pub id_to_u32 : PropertyIdentifier → ℕ
id_to_u32 invalid_identifier = 4294967295
id_to_u32 payload_format_indicator = 1
id_to_u32 message_expiry_interval = 2
id_to_u32 content_type = 3
id_to_u32 response_topic = 8
id_to_u32 correlation_data = 9
id_to_u32 subscription_identifier = 11
id_to_u32 session_expiry_interval = 17
id_to_u32 assigned_client_identifier = 18
id_to_u32 server_keep_alive = 19
id_to_u32 authentication_method = 21
id_to_u32 authentication_data = 22
id_to_u32 request_problem_information = 23
id_to_u32 will_delay_interval = 24
id_to_u32 request_response_information = 25
id_to_u32 response_information = 26
id_to_u32 server_reference = 28
id_to_u32 reason_string = 31
id_to_u32 receive_maximum = 33
id_to_u32 topic_alias_maximum = 34
id_to_u32 topic_alias = 35
id_to_u32 maximum_qos = 36
id_to_u32 retain_available = 37
id_to_u32 user_property = 38
id_to_u32 maximum_packet_size = 39
id_to_u32 wildcard_subscription_available = 40
id_to_u32 subscription_identifier_available = 41
id_to_u32 shared_subscription_available = 42

property_ids : List PropertyIdentifier
property_ids =
    payload_format_indicator ∷ message_expiry_interval ∷ content_type ∷ response_topic
    ∷ correlation_data ∷ subscription_identifier ∷ session_expiry_interval
    ∷ assigned_client_identifier ∷ server_keep_alive ∷ authentication_method ∷ authentication_data
    ∷ request_problem_information ∷ will_delay_interval ∷ request_response_information
    ∷ response_information ∷ server_reference ∷ reason_string ∷ receive_maximum
    ∷ topic_alias_maximum ∷ topic_alias ∷ maximum_qos ∷ retain_available ∷ user_property
    ∷ maximum_packet_size ∷ wildcard_subscription_available ∷ subscription_identifier_available
    ∷ shared_subscription_available ∷ invalid_identifier ∷ []

find_id : List PropertyIdentifier → ℕ → Option PropertyIdentifier
find_id [] value = none
find_id (i ∷ is) value = if value == id_to_u32 i then some i else find_id is value

-- `TryFromPrimitive`.
unfoldable pub id_from_u32 : ℕ → Option PropertyIdentifier
unfolding find_id property_ids id_to_u32
id_from_u32 value = find_id property_ids value

-- Every identifier is found under its number.
pub id_from-id_to : (i : PropertyIdentifier) → id_from_u32 (id_to_u32 i) ≡ some i
unfolding id_from_u32 id_to_u32
id_from-id_to invalid_identifier = refl
id_from-id_to payload_format_indicator = refl
id_from-id_to message_expiry_interval = refl
id_from-id_to content_type = refl
id_from-id_to response_topic = refl
id_from-id_to correlation_data = refl
id_from-id_to subscription_identifier = refl
id_from-id_to session_expiry_interval = refl
id_from-id_to assigned_client_identifier = refl
id_from-id_to server_keep_alive = refl
id_from-id_to authentication_method = refl
id_from-id_to authentication_data = refl
id_from-id_to request_problem_information = refl
id_from-id_to will_delay_interval = refl
id_from-id_to request_response_information = refl
id_from-id_to response_information = refl
id_from-id_to server_reference = refl
id_from-id_to reason_string = refl
id_from-id_to receive_maximum = refl
id_from-id_to topic_alias_maximum = refl
id_from-id_to topic_alias = refl
id_from-id_to maximum_qos = refl
id_from-id_to retain_available = refl
id_from-id_to user_property = refl
id_from-id_to maximum_packet_size = refl
id_from-id_to wildcard_subscription_available = refl
id_from-id_to subscription_identifier_available = refl
id_from-id_to shared_subscription_available = refl
