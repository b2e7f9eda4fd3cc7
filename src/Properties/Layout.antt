-- ===== src/Properties/Layout.antt =====
-- The bytes of a property on the wire, for a property that can be written.
use minimq.De.Fields.{is_utf8}
use minimq.De.Reads.{be_u32}
use minimq.De.Strings.{prefixed}
use minimq.Prelude.{
  List, [], arith, length, length-append, refl, sym, true, ℕ, ◌%◌, ◌++◌, ◌+◌, ◌/◌, ◌<◌, ◌∷◌, ◌≡◌,
  ◌≤◌,
}
use minimq.Properties.{id_to_u32}
use minimq.Properties.Value.{Property, id_len, identifier, property_size}
use minimq.Varint.{encoded_len, mqtt_varint_max}
use minimq.Varint.Encode.{canonical, encoded_len-canonical}

-- UTF-8 of a length that two bytes hold.
abbrev pub IsText : List ℕ → Type 0
IsText text = (is_utf8 text ≡ true) × (length text ≤ 65535)

abbrev pub Writable : Property → Type 0
Writable (Property.content_type text) = IsText text
Writable (Property.response_topic text) = IsText text
Writable (Property.correlation_data bytes) = length bytes ≤ 65535
Writable (Property.subscription_identifier value) = value ≤ mqtt_varint_max
Writable (Property.assigned_client_identifier text) = IsText text
Writable (Property.authentication_method text) = IsText text
Writable (Property.authentication_data bytes) = length bytes ≤ 65535
Writable (Property.response_information text) = IsText text
Writable (Property.server_reference text) = IsText text
Writable (Property.reason_string text) = IsText text
Writable (Property.user_property key text) = IsText key × IsText text
Writable p = Unit {0}

unfoldable pub value_bytes : Property → List ℕ
unfolding canonical
value_bytes (Property.payload_format_indicator value) = value ∷ []
value_bytes (Property.message_expiry_interval value) = be_u32 value
value_bytes (Property.content_type text) = prefixed text
value_bytes (Property.response_topic text) = prefixed text
value_bytes (Property.correlation_data bytes) = prefixed bytes
value_bytes (Property.subscription_identifier value) = canonical 3 value
value_bytes (Property.session_expiry_interval value) = be_u32 value
value_bytes (Property.assigned_client_identifier text) = prefixed text
value_bytes (Property.server_keep_alive value) = value / 256 ∷ value % 256 ∷ []
value_bytes (Property.authentication_method text) = prefixed text
value_bytes (Property.authentication_data bytes) = prefixed bytes
value_bytes (Property.request_problem_information value) = value ∷ []
value_bytes (Property.will_delay_interval value) = be_u32 value
value_bytes (Property.request_response_information value) = value ∷ []
value_bytes (Property.response_information text) = prefixed text
value_bytes (Property.server_reference text) = prefixed text
value_bytes (Property.reason_string text) = prefixed text
value_bytes (Property.receive_maximum value) = value / 256 ∷ value % 256 ∷ []
value_bytes (Property.topic_alias_maximum value) = value / 256 ∷ value % 256 ∷ []
value_bytes (Property.topic_alias value) = value / 256 ∷ value % 256 ∷ []
value_bytes (Property.maximum_qos value) = value ∷ []
value_bytes (Property.retain_available value) = value ∷ []
value_bytes (Property.user_property key text) = prefixed key ++ prefixed text
value_bytes (Property.maximum_packet_size value) = be_u32 value
value_bytes (Property.wildcard_subscription_available value) = value ∷ []
value_bytes (Property.subscription_identifier_available value) = value ∷ []
value_bytes (Property.shared_subscription_available value) = value ∷ []

-- The identifier, then the value.
unfoldable pub property_bytes : Property → List ℕ
unfolding canonical value_bytes identifier id_to_u32
property_bytes p = canonical 3 (id_to_u32 (identifier p)) ++ value_bytes p

id_small : (p : Property) → id_to_u32 (identifier p) < 128
unfolding identifier id_to_u32
id_small (Property.payload_format_indicator value) = omega arith
id_small (Property.message_expiry_interval value) = omega arith
id_small (Property.content_type text) = omega arith
id_small (Property.response_topic text) = omega arith
id_small (Property.correlation_data bytes) = omega arith
id_small (Property.subscription_identifier value) = omega arith
id_small (Property.session_expiry_interval value) = omega arith
id_small (Property.assigned_client_identifier text) = omega arith
id_small (Property.server_keep_alive value) = omega arith
id_small (Property.authentication_method text) = omega arith
id_small (Property.authentication_data bytes) = omega arith
id_small (Property.request_problem_information value) = omega arith
id_small (Property.will_delay_interval value) = omega arith
id_small (Property.request_response_information value) = omega arith
id_small (Property.response_information text) = omega arith
id_small (Property.server_reference text) = omega arith
id_small (Property.reason_string text) = omega arith
id_small (Property.receive_maximum value) = omega arith
id_small (Property.topic_alias_maximum value) = omega arith
id_small (Property.topic_alias value) = omega arith
id_small (Property.maximum_qos value) = omega arith
id_small (Property.retain_available value) = omega arith
id_small (Property.user_property key text) = omega arith
id_small (Property.maximum_packet_size value) = omega arith
id_small (Property.wildcard_subscription_available value) = omega arith
id_small (Property.subscription_identifier_available value) = omega arith
id_small (Property.shared_subscription_available value) = omega arith

pub id_bounded : (p : Property) → id_to_u32 (identifier p) ≤ mqtt_varint_max
id_bounded p = omega (arith, id_small p)

pub id_len-canonical : (p : Property) → id_len p ≡ length (canonical 3 (id_to_u32 (identifier p)))
unfolding id_len
id_len-canonical p = encoded_len-canonical (id_to_u32 (identifier p)) (id_bounded p)

size_from :
    (p : Property) (n : ℕ) → length (value_bytes p) ≡ n → length (property_bytes p) ≡ n + id_len p
unfolding property_bytes
size_from p n e = omega (
  arith,
  e,
  id_len-canonical p,
  length-append (canonical 3 (id_to_u32 (identifier p))) (value_bytes p),
)

-- The size that a property announces is the number of its bytes.
pub property_size-length : (p : Property) → Writable p → length (property_bytes p) ≡ property_size p
unfolding property_size value_bytes
property_size-length (Property.payload_format_indicator value) h =
    size_from (Property.payload_format_indicator value) 1 refl
property_size-length (Property.message_expiry_interval value) h =
    size_from (Property.message_expiry_interval value) 4 refl
property_size-length (Property.content_type text) h =
    size_from (Property.content_type text) (length text + 2) (omega arith)
property_size-length (Property.response_topic text) h =
    size_from (Property.response_topic text) (length text + 2) (omega arith)
property_size-length (Property.correlation_data bytes) h =
    size_from (Property.correlation_data bytes) (length bytes + 2) (omega arith)
property_size-length (Property.subscription_identifier value) h =
    size_from (Property.subscription_identifier value) (encoded_len value)
      (sym (encoded_len-canonical value h))
property_size-length (Property.session_expiry_interval value) h =
    size_from (Property.session_expiry_interval value) 4 refl
property_size-length (Property.assigned_client_identifier text) h =
    size_from (Property.assigned_client_identifier text) (length text + 2) (omega arith)
property_size-length (Property.server_keep_alive value) h =
    size_from (Property.server_keep_alive value) 2 refl
property_size-length (Property.authentication_method text) h =
    size_from (Property.authentication_method text) (length text + 2) (omega arith)
property_size-length (Property.authentication_data bytes) h =
    size_from (Property.authentication_data bytes) (length bytes + 2) (omega arith)
property_size-length (Property.request_problem_information value) h =
    size_from (Property.request_problem_information value) 1 refl
property_size-length (Property.will_delay_interval value) h =
    size_from (Property.will_delay_interval value) 4 refl
property_size-length (Property.request_response_information value) h =
    size_from (Property.request_response_information value) 1 refl
property_size-length (Property.response_information text) h =
    size_from (Property.response_information text) (length text + 2) (omega arith)
property_size-length (Property.server_reference text) h =
    size_from (Property.server_reference text) (length text + 2) (omega arith)
property_size-length (Property.reason_string text) h =
    size_from (Property.reason_string text) (length text + 2) (omega arith)
property_size-length (Property.receive_maximum value) h =
    size_from (Property.receive_maximum value) 2 refl
property_size-length (Property.topic_alias_maximum value) h =
    size_from (Property.topic_alias_maximum value) 2 refl
property_size-length (Property.topic_alias value) h = size_from (Property.topic_alias value) 2 refl
property_size-length (Property.maximum_qos value) h = size_from (Property.maximum_qos value) 1 refl
property_size-length (Property.retain_available value) h =
    size_from (Property.retain_available value) 1 refl
property_size-length (Property.user_property key text) h =
    size_from (Property.user_property key text) ((length text + 2) + (length key + 2))
      (omega (arith, length-append (prefixed key) (prefixed text)))
property_size-length (Property.maximum_packet_size value) h =
    size_from (Property.maximum_packet_size value) 4 refl
property_size-length (Property.wildcard_subscription_available value) h =
    size_from (Property.wildcard_subscription_available value) 1 refl
property_size-length (Property.subscription_identifier_available value) h =
    size_from (Property.subscription_identifier_available value) 1 refl
property_size-length (Property.shared_subscription_available value) h =
    size_from (Property.shared_subscription_available value) 1 refl
