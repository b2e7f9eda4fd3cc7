-- ===== src/De.antt =====
-- minimq/src/de/deserializer.rs: the deserializer of packet fields. A read gives the state that
-- follows also when it fails, since a reader of properties goes on from there.
pub mod Fields
pub mod Reads
pub mod Strings
pub mod Progress
use minimq.Errors.{DeError, bad_varint, de_custom, insufficient_data}
use minimq.Prelude.{
  List, Option, Result, [], bit_and, bit_or, drop, err, get_elem?, if◌then◌else◌, length, ltb, none,
  not, ok, some, suc, take, zero, ℕ, ◌&&◌, ◌*◌, ◌+◌, ◌-◌, ◌==◌, ◌^◌, ◌∷◌,
}
use minimq.Varint.{
  mqtt_varint_continuation, mqtt_varint_data_mask, mqtt_varint_max, mqtt_varint_max_bytes,
}

pub record MqttDeserializer : Type 0 where
  pub buf : List ℕ
  pub index : ℕ
  pub next_bytes_len : Option ℕ

abbrev pub Deserialize : Type 0 → Type 0
Deserialize A = MqttDeserializer → MqttDeserializer × Result DeError A

unfoldable pub then_deserialize :
    {A B : Type 0}
    → (A → Deserialize B)
    → MqttDeserializer × Result DeError A
    → MqttDeserializer × Result DeError B
then_deserialize k (d, ok a) = k a d
then_deserialize k (d, err e) = (d, err e)

-- `?`.
unfoldable pub read_then : {A B : Type 0} → Deserialize A → (A → Deserialize B) → Deserialize B
unfolding then_deserialize
read_then m k d = then_deserialize k (m d)

unfoldable pub read_as : {A B : Type 0} → (A → B) → Deserialize A → Deserialize B
unfolding read_then
read_as f m = read_then m (λ a d. (d, ok (f a)))

unfoldable pub refuse : {A : Type 0} → DeError → Deserialize A
refuse e d = (d, err e)

unfoldable pub new_deserializer : List ℕ → MqttDeserializer
new_deserializer buf = record { buf = buf; index = 0; next_bytes_len = none }

unfoldable pub set_next_bytes_len : ℕ → MqttDeserializer → MqttDeserializer
set_next_bytes_len len d = record d { next_bytes_len = some len }

-- `len`.
unfoldable pub bytes_left : MqttDeserializer → ℕ
bytes_left d = length d.buf - d.index

unfoldable pub try_take_n : ℕ → Deserialize (List ℕ)
unfolding bytes_left
try_take_n n d =
    if ltb (bytes_left d) n
    then (d, err insufficient_data)
    else (record d { index = d.index + n }, ok (take n (drop d.index d.buf)))

-- `first_chunk` of what is left.
unfoldable pub try_take_array : ℕ → Deserialize (List ℕ)
try_take_array n d =
    let rest = drop d.index d.buf in
    if ltb (length rest) n
    then (d, err insufficient_data)
    else (record d { index = d.index + n }, ok (take n rest))

unfoldable pub popped : MqttDeserializer → Option ℕ → MqttDeserializer × Result DeError ℕ
popped d none = (d, err insufficient_data)
popped d (some byte) = (record d { index = d.index + 1 }, ok byte)

-- No byte is left when the index is at the end.
unfoldable pub pop : Deserialize ℕ
unfolding popped
pop d = popped d (get_elem? d.buf d.index)

unfoldable pub from_be_bytes : ℕ → List ℕ → ℕ
from_be_bytes value [] = value
from_be_bytes value (b ∷ bs) = from_be_bytes (value * 256 + b) bs

unfoldable pub read_u16 : Deserialize ℕ
unfolding read_as try_take_array from_be_bytes
read_u16 = read_as (from_be_bytes 0) (try_take_array 2)

unfoldable pub deserialize_u32 : Deserialize ℕ
unfolding read_as try_take_array from_be_bytes
deserialize_u32 = read_as (from_be_bytes 0) (try_take_array 4)

-- `read_mqtt_u32_varint` of minimq/src/varint.rs, with the state that its closure `pop` leaves.
unfoldable pub varint_group : DeError → ℕ → ℕ → (ℕ → Deserialize ℕ) → ℕ → Deserialize ℕ
varint_group bad shift value more byte d =
    let part = bit_and byte mqtt_varint_data_mask in
    let value' = bit_or value (part * 2 ^ shift) in
    let rest = more value' d in
    if ltb mqtt_varint_max value'
    then (d, err bad)
    else if bit_and byte mqtt_varint_continuation == 0
    then (if not (shift == 0) && (part == 0) then (d, err bad) else (d, ok value'))
    else rest

unfoldable pub varint_rounds : DeError → ℕ → ℕ → ℕ → Deserialize ℕ
unfolding varint_group read_then pop
varint_rounds bad zero shift value = refuse bad
varint_rounds bad (suc rounds) shift value =
    read_then pop (varint_group bad shift value (varint_rounds bad rounds (shift + 7)))

unfoldable pub read_varint : Deserialize ℕ
unfolding varint_rounds
read_varint = varint_rounds bad_varint mqtt_varint_max_bytes 0 0

-- `Varint::deserialize`: a tuple of at most four bytes.
unfoldable pub deserialize_varint : Deserialize ℕ
unfolding varint_rounds
deserialize_varint = varint_rounds de_custom mqtt_varint_max_bytes 0 0

unfoldable pub deserialized_bytes : MqttDeserializer → ℕ
deserialized_bytes d = d.index

unfoldable pub remaining_bytes : MqttDeserializer → List ℕ
remaining_bytes d = drop d.index d.buf
