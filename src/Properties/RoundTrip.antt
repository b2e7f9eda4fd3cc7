-- ===== src/Properties/RoundTrip.antt =====
-- Properties are read back as they were written.
use mathlib.Core.Path.{subst}
use minimq.De.{deserialize_u32, deserialize_varint, pop, read_as, read_u16, read_varint}
use minimq.De.Fields.{deserialize_bytes, deserialize_str}
use minimq.De.Reads.{
  Parses, Parses-as, Parses-pop, Parses-then, Parses-u16, Parses-u32, Parses-varint, be_u32,
}
use minimq.De.Strings.{Parses-bytes, Parses-str, prefixed}
use minimq.Errors.{bad_varint, de_custom}
use minimq.Prelude.{[], sym, ◌%◌, ◌/◌, ◌∷◌}
use minimq.Properties.{id_from-id_to, id_from_u32, id_to_u32}
use minimq.Properties.Appends.{
  Appends, Appends-binary, Appends-prefixed, Appends-then, Appends-u16, Appends-u32, Appends-u8,
  Appends-varint,
}
use minimq.Properties.Layout.{Writable, id_bounded, property_bytes, value_bytes}
use minimq.Properties.Read.{deserialize_property, read_identified, read_value}
use minimq.Properties.Value.{Property, identifier}
use minimq.Properties.Write.{serialize_property, serialize_value, serialize_varint}
use minimq.Ser.Fields.{serialize_prefixed}
use minimq.Varint.Encode.{canonical}

value-Appends : (p : Property) → Writable p → Appends (serialize_value p) (value_bytes p)
unfolding serialize_value value_bytes
value-Appends (Property.payload_format_indicator value) h = Appends-u8 value
value-Appends (Property.message_expiry_interval value) h = Appends-u32 value
value-Appends (Property.content_type text) h = Appends-prefixed text h.1
value-Appends (Property.response_topic text) h = Appends-prefixed text h.1
value-Appends (Property.correlation_data bytes) h = Appends-binary bytes h
value-Appends (Property.subscription_identifier value) h = Appends-varint value h
value-Appends (Property.session_expiry_interval value) h = Appends-u32 value
value-Appends (Property.assigned_client_identifier text) h = Appends-prefixed text h.1
value-Appends (Property.server_keep_alive value) h = Appends-u16 value
value-Appends (Property.authentication_method text) h = Appends-prefixed text h.1
value-Appends (Property.authentication_data bytes) h = Appends-binary bytes h
value-Appends (Property.request_problem_information value) h = Appends-u8 value
value-Appends (Property.will_delay_interval value) h = Appends-u32 value
value-Appends (Property.request_response_information value) h = Appends-u8 value
value-Appends (Property.response_information text) h = Appends-prefixed text h.1
value-Appends (Property.server_reference text) h = Appends-prefixed text h.1
value-Appends (Property.reason_string text) h = Appends-prefixed text h.1
value-Appends (Property.receive_maximum value) h = Appends-u16 value
value-Appends (Property.topic_alias_maximum value) h = Appends-u16 value
value-Appends (Property.topic_alias value) h = Appends-u16 value
value-Appends (Property.maximum_qos value) h = Appends-u8 value
value-Appends (Property.retain_available value) h = Appends-u8 value
value-Appends (Property.user_property key text) h =
    Appends-then (serialize_prefixed key) (serialize_prefixed text) (prefixed key) (prefixed text)
      (Appends-prefixed key h.0.1) (Appends-prefixed text h.1.1)
value-Appends (Property.maximum_packet_size value) h = Appends-u32 value
value-Appends (Property.wildcard_subscription_available value) h = Appends-u8 value
value-Appends (Property.subscription_identifier_available value) h = Appends-u8 value
value-Appends (Property.shared_subscription_available value) h = Appends-u8 value

-- A property that can be written is written as its identifier and its value, where there is room.
pub serialize_property-Appends :
    (p : Property) → Writable p → Appends (serialize_property p) (property_bytes p)
unfolding serialize_property property_bytes
serialize_property-Appends p h =
    Appends-then (serialize_varint (id_to_u32 (identifier p))) (serialize_value p)
      (canonical 3 (id_to_u32 (identifier p))) (value_bytes p)
      (Appends-varint (id_to_u32 (identifier p)) (id_bounded p)) (value-Appends p h)

value-Parses : (p : Property) → Writable p → Parses (read_value (identifier p)) (value_bytes p) p
unfolding read_value identifier value_bytes deserialize_varint
value-Parses (Property.payload_format_indicator value) h =
    Parses-as Property.payload_format_indicator pop (value ∷ []) value (Parses-pop value)
value-Parses (Property.message_expiry_interval value) h =
    Parses-as Property.message_expiry_interval deserialize_u32 (be_u32 value) value
      (Parses-u32 value)
value-Parses (Property.content_type text) h =
    Parses-as Property.content_type deserialize_str (prefixed text) text (Parses-str text h.0)
value-Parses (Property.response_topic text) h =
    Parses-as Property.response_topic deserialize_str (prefixed text) text (Parses-str text h.0)
value-Parses (Property.correlation_data bytes) h =
    Parses-as Property.correlation_data deserialize_bytes (prefixed bytes) bytes
      (Parses-bytes bytes)
value-Parses (Property.subscription_identifier value) h =
    Parses-as Property.subscription_identifier deserialize_varint (canonical 3 value) value
      (Parses-varint de_custom value h)
value-Parses (Property.session_expiry_interval value) h =
    Parses-as Property.session_expiry_interval deserialize_u32 (be_u32 value) value
      (Parses-u32 value)
value-Parses (Property.assigned_client_identifier text) h =
    Parses-as Property.assigned_client_identifier deserialize_str (prefixed text) text
      (Parses-str text h.0)
value-Parses (Property.server_keep_alive value) h =
    Parses-as Property.server_keep_alive read_u16 (value / 256 ∷ value % 256 ∷ []) value
      (Parses-u16 value)
value-Parses (Property.authentication_method text) h =
    Parses-as Property.authentication_method deserialize_str (prefixed text) text
      (Parses-str text h.0)
value-Parses (Property.authentication_data bytes) h =
    Parses-as Property.authentication_data deserialize_bytes (prefixed bytes) bytes
      (Parses-bytes bytes)
value-Parses (Property.request_problem_information value) h =
    Parses-as Property.request_problem_information pop (value ∷ []) value (Parses-pop value)
value-Parses (Property.will_delay_interval value) h =
    Parses-as Property.will_delay_interval deserialize_u32 (be_u32 value) value (Parses-u32 value)
value-Parses (Property.request_response_information value) h =
    Parses-as Property.request_response_information pop (value ∷ []) value (Parses-pop value)
value-Parses (Property.response_information text) h =
    Parses-as Property.response_information deserialize_str (prefixed text) text
      (Parses-str text h.0)
value-Parses (Property.server_reference text) h =
    Parses-as Property.server_reference deserialize_str (prefixed text) text (Parses-str text h.0)
value-Parses (Property.reason_string text) h =
    Parses-as Property.reason_string deserialize_str (prefixed text) text (Parses-str text h.0)
value-Parses (Property.receive_maximum value) h =
    Parses-as Property.receive_maximum read_u16 (value / 256 ∷ value % 256 ∷ []) value
      (Parses-u16 value)
value-Parses (Property.topic_alias_maximum value) h =
    Parses-as Property.topic_alias_maximum read_u16 (value / 256 ∷ value % 256 ∷ []) value
      (Parses-u16 value)
value-Parses (Property.topic_alias value) h =
    Parses-as Property.topic_alias read_u16 (value / 256 ∷ value % 256 ∷ []) value
      (Parses-u16 value)
value-Parses (Property.maximum_qos value) h =
    Parses-as Property.maximum_qos pop (value ∷ []) value (Parses-pop value)
value-Parses (Property.retain_available value) h =
    Parses-as Property.retain_available pop (value ∷ []) value (Parses-pop value)
value-Parses (Property.user_property key text) h =
    Parses-then deserialize_str (λ k. read_as (Property.user_property k) deserialize_str)
      (prefixed key) (prefixed text) key (Property.user_property key text) (Parses-str key h.0.0)
      (Parses-as (Property.user_property key) deserialize_str (prefixed text) text
        (Parses-str text h.1.0))
value-Parses (Property.maximum_packet_size value) h =
    Parses-as Property.maximum_packet_size deserialize_u32 (be_u32 value) value (Parses-u32 value)
value-Parses (Property.wildcard_subscription_available value) h =
    Parses-as Property.wildcard_subscription_available pop (value ∷ []) value (Parses-pop value)
value-Parses (Property.subscription_identifier_available value) h =
    Parses-as Property.subscription_identifier_available pop (value ∷ []) value (Parses-pop value)
value-Parses (Property.shared_subscription_available value) h =
    Parses-as Property.shared_subscription_available pop (value ∷ []) value (Parses-pop value)

-- The bytes of a property are read as that property, wherever they stand and whatever follows.
pub deserialize_property-Parses :
    (p : Property) → Writable p → Parses deserialize_property (property_bytes p) p
unfolding deserialize_property property_bytes read_identified read_varint
deserialize_property-Parses p h =
    Parses-then read_varint (λ value. read_identified (id_from_u32 value))
      (canonical 3 (id_to_u32 (identifier p))) (value_bytes p) (id_to_u32 (identifier p)) p
      (Parses-varint bad_varint (id_to_u32 (identifier p)) (id_bounded p)) of_identifier
  where
    of_identifier :
        Parses (read_identified (id_from_u32 (id_to_u32 (identifier p)))) (value_bytes p) p
    of_identifier =
        subst (λ o. Parses (read_identified o) (value_bytes p) p)
          (sym (id_from-id_to (identifier p))) (value-Parses p h)
