-- ===== src/Packets.antt =====
-- minimq/src/packets.rs, minimq/src/types.rs, minimq/src/will.rs: the fields of the packets that the
-- client sends. minimq/src/wire.rs: the flags of CONNECT.
pub mod Connect
pub mod PublishFields
use minimq.Prelude.{
  Bool, List, Option, [], bit_or, false, if◌then◌else◌, none, ok, some, ℕ, ◌%◌, ◌*◌, ◌∷◌,
}
use minimq.Properties.Collection.{Properties, serialize_collection}
use minimq.Reason.{ReasonCode, to_u8}
use minimq.Ser.{Serialize, and_then, serialize_u16}
use minimq.Ser.Fields.{serialize_none, serialize_prefixed, serialize_u8}
use minimq.Staging.{topic}
use minimq.Wire.{QoS, Retain, at_most_once, publish_fixed_header, qos_to_u8}

unfoldable pub serialize_option : {A : Type 0} → (A → Serialize) → Option A → Serialize
unfolding serialize_none
serialize_option m none = serialize_none
serialize_option m (some a) = m a

-- A sequence writes its elements.
unfoldable pub serialize_seq : {A : Type 0} → (A → Serialize) → List A → Serialize
unfolding and_then
serialize_seq m [] s = (s, ok tt)
serialize_seq m (x ∷ xs) s = and_then (m x) (serialize_seq m xs) s

-- `PublishHeader`; its quality of service, retain and duplicate flags are in the fixed header.
pub record PublishHeader : Type 0 where
  pub topic : List ℕ
  pub packet_id : Option ℕ
  pub properties : Properties
  pub retain : Retain
  pub qos : QoS
  pub dup : Bool

unfoldable pub publish_fields : PublishHeader → Serialize
unfolding and_then serialize_prefixed serialize_option serialize_u16 serialize_collection
publish_fields p =
    and_then (serialize_prefixed p.topic)
      (and_then (serialize_option serialize_u16 p.packet_id) (serialize_collection p.properties))

unfoldable pub publish_header_byte : PublishHeader → ℕ
unfolding publish_fixed_header
publish_header_byte p = publish_fixed_header p.qos p.retain p.dup

pub data RetainHandling : Type 0 where
  immediately if_subscription_does_not_exist never : RetainHandling

unfoldable pub retain_handling_to_u8 : RetainHandling → ℕ
retain_handling_to_u8 immediately = 0
retain_handling_to_u8 if_subscription_does_not_exist = 1
retain_handling_to_u8 never = 2

pub record SubscriptionOptions : Type 0 where
  pub maximum_qos : QoS
  pub no_local : Bool
  pub retain_as_published : Bool
  pub retain_behavior : RetainHandling

unfoldable pub default_options : SubscriptionOptions
default_options = record {
  maximum_qos = at_most_once;
  no_local = false;
  retain_as_published = false;
  retain_behavior = immediately;
}

unfoldable pub options_byte : SubscriptionOptions → ℕ
unfolding qos_to_u8 retain_handling_to_u8
options_byte o =
    let value = qos_to_u8 o.maximum_qos in
    let value' = if o.no_local then bit_or value 4 else value in
    let value'' = if o.retain_as_published then bit_or value' 8 else value' in
    bit_or value'' (retain_handling_to_u8 o.retain_behavior * 16 % 256)

pub record TopicFilter : Type 0 where
  pub topic : List ℕ
  pub options : SubscriptionOptions

unfoldable pub serialize_topic_filter : TopicFilter → Serialize
unfolding and_then serialize_prefixed serialize_u8 options_byte
serialize_topic_filter t =
    and_then (serialize_prefixed t.topic) (serialize_u8 (options_byte t.options))

unfoldable pub subscribe_fields : ℕ → Properties → List TopicFilter → Serialize
unfolding and_then serialize_u16 serialize_collection serialize_seq serialize_topic_filter
subscribe_fields packet_id properties topics =
    and_then (serialize_u16 packet_id)
      (and_then (serialize_collection properties) (serialize_seq serialize_topic_filter topics))

unfoldable pub unsubscribe_fields : ℕ → Properties → List (List ℕ) → Serialize
unfolding and_then serialize_u16 serialize_collection serialize_seq serialize_prefixed
unsubscribe_fields packet_id properties topics =
    and_then (serialize_u16 packet_id)
      (and_then (serialize_collection properties) (serialize_seq serialize_prefixed topics))

unfoldable pub disconnect_fields : Option ReasonCode → Option Properties → Serialize
unfolding and_then serialize_option serialize_u8 to_u8 serialize_collection
disconnect_fields code properties =
    and_then (serialize_option (λ c. serialize_u8 (to_u8 c)) code)
      (serialize_option serialize_collection properties)
