-- ===== src/Properties/Progress.antt =====
-- The iterator over an encoded block ends: each call uses a byte at least, whatever the bytes are.
use minimq.De.{
  MqttDeserializer, deserialize_u32, deserialize_varint, deserialized_bytes, new_deserializer, pop,
  read_as, read_then, read_u16, read_varint, then_deserialize,
}
use minimq.De.Fields.{deserialize_bytes, deserialize_str}
use minimq.De.Progress.{
  Forward, Forward-as, Forward-bytes, Forward-pop, Forward-refuse, Forward-str, Forward-then,
  Forward-u16, Forward-u32, Forward-varint, varint-advances,
}
use minimq.Errors.{DeError, bad_varint, de_custom}
use minimq.Prelude.{
  List, Option, Result, [], ap, arith, drop, err, length, length-drop, none, ok, refl, some, suc,
  sym, zero, ℕ, ◌+◌, ◌<◌, ◌∙◌, ◌∷◌, ◌≡◌, ◌≤◌,
}
use minimq.Properties.{PropertyIdentifier, id_from_u32, invalid_identifier}
use minimq.Properties.Collection.{iter_encoded, next_encoded}
use minimq.Properties.Read.{deserialize_property, read_identified, read_value}
use minimq.Properties.Value.{Property}
use minimq.Varint.{mqtt_varint_max_bytes}

value-Forward : (i : PropertyIdentifier) → Forward (read_value i)
unfolding read_value deserialize_varint
value-Forward invalid_identifier = Forward-refuse Property de_custom
value-Forward PropertyIdentifier.payload_format_indicator =
    Forward-as Property.payload_format_indicator pop Forward-pop
value-Forward PropertyIdentifier.message_expiry_interval =
    Forward-as Property.message_expiry_interval deserialize_u32 Forward-u32
value-Forward PropertyIdentifier.content_type =
    Forward-as Property.content_type deserialize_str Forward-str
value-Forward PropertyIdentifier.response_topic =
    Forward-as Property.response_topic deserialize_str Forward-str
value-Forward PropertyIdentifier.correlation_data =
    Forward-as Property.correlation_data deserialize_bytes Forward-bytes
value-Forward PropertyIdentifier.subscription_identifier =
    Forward-as Property.subscription_identifier deserialize_varint
      (Forward-varint de_custom mqtt_varint_max_bytes 0 0)
value-Forward PropertyIdentifier.session_expiry_interval =
    Forward-as Property.session_expiry_interval deserialize_u32 Forward-u32
value-Forward PropertyIdentifier.assigned_client_identifier =
    Forward-as Property.assigned_client_identifier deserialize_str Forward-str
value-Forward PropertyIdentifier.server_keep_alive =
    Forward-as Property.server_keep_alive read_u16 Forward-u16
value-Forward PropertyIdentifier.authentication_method =
    Forward-as Property.authentication_method deserialize_str Forward-str
value-Forward PropertyIdentifier.authentication_data =
    Forward-as Property.authentication_data deserialize_bytes Forward-bytes
value-Forward PropertyIdentifier.request_problem_information =
    Forward-as Property.request_problem_information pop Forward-pop
value-Forward PropertyIdentifier.will_delay_interval =
    Forward-as Property.will_delay_interval deserialize_u32 Forward-u32
value-Forward PropertyIdentifier.request_response_information =
    Forward-as Property.request_response_information pop Forward-pop
value-Forward PropertyIdentifier.response_information =
    Forward-as Property.response_information deserialize_str Forward-str
value-Forward PropertyIdentifier.server_reference =
    Forward-as Property.server_reference deserialize_str Forward-str
value-Forward PropertyIdentifier.reason_string =
    Forward-as Property.reason_string deserialize_str Forward-str
value-Forward PropertyIdentifier.receive_maximum =
    Forward-as Property.receive_maximum read_u16 Forward-u16
value-Forward PropertyIdentifier.topic_alias_maximum =
    Forward-as Property.topic_alias_maximum read_u16 Forward-u16
value-Forward PropertyIdentifier.topic_alias = Forward-as Property.topic_alias read_u16 Forward-u16
value-Forward PropertyIdentifier.maximum_qos = Forward-as Property.maximum_qos pop Forward-pop
value-Forward PropertyIdentifier.retain_available =
    Forward-as Property.retain_available pop Forward-pop
value-Forward PropertyIdentifier.user_property =
    Forward-then deserialize_str (λ key. read_as (Property.user_property key) deserialize_str)
      Forward-str (λ key. Forward-as (Property.user_property key) deserialize_str Forward-str)
value-Forward PropertyIdentifier.maximum_packet_size =
    Forward-as Property.maximum_packet_size deserialize_u32 Forward-u32
value-Forward PropertyIdentifier.wildcard_subscription_available =
    Forward-as Property.wildcard_subscription_available pop Forward-pop
value-Forward PropertyIdentifier.subscription_identifier_available =
    Forward-as Property.subscription_identifier_available pop Forward-pop
value-Forward PropertyIdentifier.shared_subscription_available =
    Forward-as Property.shared_subscription_available pop Forward-pop

identified-Forward : (o : Option PropertyIdentifier) → Forward (read_identified o)
unfolding read_identified
identified-Forward none = Forward-refuse Property de_custom
identified-Forward (some i) = value-Forward i

next_encoded_used : (b : ℕ) (bs : List ℕ) → 0 < (next_encoded (b ∷ bs)).1
unfolding next_encoded deserialized_bytes deserialize_property read_varint read_then
    then_deserialize
next_encoded_used b bs =
    through (read_varint (new_deserializer (b ∷ bs))) (varint-advances bad_varint 3 0 0 b bs)
  where
    through :
        (r : MqttDeserializer × Result DeError ℕ)
        → 0 < r.0.index
        → 0 < (then_deserialize (λ value. read_identified (id_from_u32 value)) r).0.index
    through (d, ok value) h = omega (arith, h, identified-Forward (id_from_u32 value) d)
    through (d, err e) h = h

iter_encoded_empty : (rounds : ℕ) → iter_encoded rounds [] ≡ []
unfolding iter_encoded
iter_encoded_empty zero = refl
iter_encoded_empty (suc rounds) = refl

-- Whatever bytes a block has, the iterator ends within as many calls as there are bytes: more
-- rounds yield nothing more.
pub iter_encoded_enough :
    (rounds more : ℕ) (bytes : List ℕ)
    → length bytes ≤ rounds
    → iter_encoded (rounds + more) bytes ≡ iter_encoded rounds bytes
unfolding iter_encoded
iter_encoded_enough rounds more [] h =
    iter_encoded_empty (rounds + more) ∙ sym (iter_encoded_empty rounds)
iter_encoded_enough zero more (b ∷ bs) h = absurd (omega arith)
iter_encoded_enough (suc rounds) more (b ∷ bs) h =
    let next_round : suc rounds + more ≡ suc (rounds + more) = omega arith in
    ap (λ n. iter_encoded n (b ∷ bs)) next_round
    ∙ ap (λ l. (next_encoded (b ∷ bs)).0 ∷ l)
        (iter_encoded_enough rounds more (drop (next_encoded (b ∷ bs)).1 (b ∷ bs)) (
          omega (arith, h, next_encoded_used b bs, length-drop (next_encoded (b ∷ bs)).1 (b ∷ bs))))
