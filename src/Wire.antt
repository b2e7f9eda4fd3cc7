-- ===== src/Wire.antt =====
-- minimq/src/wire.rs: the fixed header, and the message types with the flags that they require.
-- minimq/src/lib.rs: `QoS` and `Retain`.
use minimq.Prelude.{
  Bool, List, Option, [], bit_and, bit_or, false, if◌then◌else◌, none, not, some, true, ℕ, ◌%◌, ◌*◌,
  ◌/◌, ◌==◌, ◌∷◌,
}

pub data QoS : Type 0 where
  at_most_once at_least_once exactly_once : QoS

unfoldable pub qos_to_u8 : QoS → ℕ
qos_to_u8 at_most_once = 0
qos_to_u8 at_least_once = 1
qos_to_u8 exactly_once = 2

-- `TryFromPrimitive`.
unfoldable pub qos_from_u8 : ℕ → Option QoS
qos_from_u8 value =
    if value == 0
    then some at_most_once
    else if value == 1
    then some at_least_once
    else if value == 2
    then some exactly_once
    else none

pub data Retain : Type 0 where
  not_retained retained_message : Retain

pub data MessageType : Type 0 where
  connect conn_ack publish pub_ack pub_rec pub_rel pub_comp subscribe : MessageType
  sub_ack unsubscribe unsub_ack ping_req ping_resp disconnect auth : MessageType

unfoldable pub type_to_u8 : MessageType → ℕ
type_to_u8 connect = 1
type_to_u8 conn_ack = 2
type_to_u8 publish = 3
type_to_u8 pub_ack = 4
type_to_u8 pub_rec = 5
type_to_u8 pub_rel = 6
type_to_u8 pub_comp = 7
type_to_u8 subscribe = 8
type_to_u8 sub_ack = 9
type_to_u8 unsubscribe = 10
type_to_u8 unsub_ack = 11
type_to_u8 ping_req = 12
type_to_u8 ping_resp = 13
type_to_u8 disconnect = 14
type_to_u8 auth = 15

message_types : List MessageType
message_types =
    connect ∷ conn_ack ∷ publish ∷ pub_ack ∷ pub_rec ∷ pub_rel ∷ pub_comp ∷ subscribe ∷ sub_ack
    ∷ unsubscribe ∷ unsub_ack ∷ ping_req ∷ ping_resp ∷ disconnect ∷ auth ∷ []

find_type : List MessageType → ℕ → Option MessageType
find_type [] value = none
find_type (t ∷ ts) value = if value == type_to_u8 t then some t else find_type ts value

-- `TryFromPrimitive`.
unfoldable pub type_from_u8 : ℕ → Option MessageType
unfolding find_type message_types type_to_u8
type_from_u8 value = find_type message_types value

unfoldable pub required_flags : MessageType → ℕ
required_flags pub_rel = 2
required_flags subscribe = 2
required_flags unsubscribe = 2
required_flags t = 0

unfoldable pub type_flags_valid : MessageType → ℕ → Bool
unfolding required_flags
type_flags_valid publish flags = true
type_flags_valid t flags = flags == required_flags t

-- `FixedHeader`: one byte. `new` joins the type and the flags.
unfoldable pub fixed_header : MessageType → ℕ → ℕ
unfolding type_to_u8
fixed_header message_type flags = bit_or (type_to_u8 message_type * 16 % 256) flags

unfoldable pub message_type : ℕ → Option MessageType
unfolding type_from_u8
message_type byte = type_from_u8 (byte / 16)

unfoldable pub header_flags : ℕ → ℕ
header_flags byte = bit_and byte 15

unfoldable pub flags_valid : ℕ → Bool
unfolding message_type header_flags type_flags_valid
flags_valid byte = elim (message_type byte) [
  | none ↦ false
  | some t ↦ type_flags_valid t (header_flags byte)
]

unfoldable pub publish_qos : ℕ → Option QoS
unfolding header_flags qos_from_u8
publish_qos byte = qos_from_u8 (bit_and (header_flags byte) 6 / 2)

unfoldable pub publish_retain : ℕ → Retain
unfolding header_flags
publish_retain byte = if bit_and (header_flags byte) 1 == 0 then not_retained else retained_message

unfoldable pub publish_duplicate : ℕ → Bool
unfolding header_flags
publish_duplicate byte = not (bit_and (header_flags byte) 8 == 0)

unfoldable pub with_publish_duplicate : ℕ → ℕ
with_publish_duplicate byte = bit_or byte 8

-- `mark_publish_duplicate`, on the value of the header byte.
unfoldable pub mark_publish_duplicate : ℕ → ℕ
unfolding with_publish_duplicate
mark_publish_duplicate byte = with_publish_duplicate byte

retain_flag : Retain → ℕ → ℕ
retain_flag not_retained flags = flags
retain_flag retained_message flags = bit_or flags 1

-- `PublishHeader::fixed_header`.
unfoldable pub publish_fixed_header : QoS → Retain → Bool → ℕ
unfolding fixed_header qos_to_u8 retain_flag
publish_fixed_header qos retain dup =
    let flags = qos_to_u8 qos * 2 in
    let flags' = retain_flag retain flags in
    fixed_header publish (if dup then bit_or flags' 8 else flags')

-- `ControlPacket::fixed_header`.
unfoldable pub control_fixed_header : MessageType → ℕ
unfolding fixed_header required_flags
control_fixed_header t = fixed_header t (required_flags t)
