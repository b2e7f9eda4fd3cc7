-- ===== src/Packets/Connect.antt =====
-- minimq/src/packets.rs: CONNECT. minimq/src/types.rs: the login. minimq/src/will.rs: the will.
-- minimq/src/wire.rs: the flags of CONNECT.
use minimq.Packets.{serialize_option}
use minimq.Prelude.{
  Bool, List, Option, Result, [], bit_or, fail_if, if◌then◌else◌, length, ltb, none, not, ok, some,
  true, ℕ, ◌&&◌, ◌*◌, ◌>>◌, ◌∷◌,
}
use minimq.Properties.Collection.{Properties, serialize_collection, slice}
use minimq.Properties.Context.{is_valid_for, will_context}
use minimq.Properties.Value.{Property}
use minimq.Properties.Write.{serialize_binary}
use minimq.Ser.{Serialize, and_then, serialize_u16}
use minimq.Ser.Fields.{serialize_prefixed, serialize_u8}
use minimq.Wire.{QoS, Retain, at_most_once, not_retained, qos_to_u8, retained_message}

pub record Auth : Type 0 where
  pub user_name : List ℕ
  pub password : List ℕ

pub record Will : Type 0 where
  pub topic : List ℕ
  pub data_bytes : List ℕ
  pub qos : QoS
  pub retained : Retain
  pub properties : List Property

pub record Connect : Type 0 where
  pub keepalive : ℕ
  pub properties : Properties
  pub client_id : List ℕ
  pub auth : Option Auth
  pub will : Option Will
  pub clean_start : Bool

pub data ConfigError : Type 0 where
  invalid_config topic_too_long : ConfigError

will_properties_valid : List Property → Bool
unfolding is_valid_for
will_properties_valid [] = true
will_properties_valid (p ∷ ps) = is_valid_for will_context p && will_properties_valid ps

-- `Will::new`; the topic is a string of capacity 128.
unfoldable pub new_will : List ℕ → List ℕ → List Property → Result ConfigError Will
unfolding will_properties_valid
new_will topic_text payload properties = do
  fail_if (not (will_properties_valid properties)) invalid_config
  fail_if (ltb 128 (length topic_text)) topic_too_long
  ok (record {
    topic = topic_text;
    data_bytes = payload;
    qos = at_most_once;
    retained = not_retained;
    properties = properties;
  })

unfoldable pub serialize_will : Will → Serialize
unfolding and_then serialize_collection serialize_prefixed serialize_binary
serialize_will w =
    and_then (serialize_collection (slice w.properties))
      (and_then (serialize_prefixed w.topic) (serialize_binary w.data_bytes))

retain_bit : Retain → ℕ → ℕ
retain_bit not_retained flags = flags
retain_bit retained_message flags = bit_or flags 32

will_flags : Option Will → ℕ → ℕ
unfolding retain_bit qos_to_u8
will_flags none flags = flags
will_flags (some w) flags = retain_bit w.retained (bit_or flags (bit_or 4 (qos_to_u8 w.qos * 8)))

auth_flags : Option Auth → ℕ → ℕ
auth_flags none flags = flags
auth_flags (some a) flags = bit_or flags (bit_or 128 64)

unfoldable pub connect_flags : Connect → ℕ
unfolding auth_flags will_flags
connect_flags c = auth_flags c.auth (will_flags c.will (if c.clean_start then bit_or 0 2 else 0))

unfoldable pub serialize_auth : Auth → Serialize
unfolding and_then serialize_prefixed serialize_binary
serialize_auth a = and_then (serialize_prefixed a.user_name) (serialize_binary a.password)

-- "MQTT"
abbrev pub protocol_name : List ℕ
protocol_name = 77 ∷ 81 ∷ 84 ∷ 84 ∷ []

unfoldable pub connect_fields : Connect → Serialize
unfolding and_then serialize_prefixed serialize_u8 connect_flags serialize_u16 serialize_collection
    serialize_option serialize_will serialize_auth
connect_fields c = and_then (serialize_prefixed protocol_name) (
    and_then (serialize_u8 5) (
      and_then (serialize_u8 (connect_flags c)) (
        and_then (serialize_u16 c.keepalive) (
          and_then (serialize_collection c.properties) (
            and_then (serialize_prefixed c.client_id) (
              and_then (serialize_option serialize_will c.will)
                (serialize_option serialize_auth c.auth)))))))
