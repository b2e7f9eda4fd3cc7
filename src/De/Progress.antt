-- ===== src/De/Progress.antt =====
-- A read never goes back, also when it fails; one that begins with a byte goes on.
use minimq.De.{
  Deserialize, MqttDeserializer, bytes_left, deserialize_u32, from_be_bytes, new_deserializer, pop,
  popped, read_as, read_then, read_u16, refuse, then_deserialize, try_take_array, try_take_n,
  varint_group, varint_rounds,
}
use minimq.De.Fields.{bytes_of_len, checked_str, deserialize_bytes, deserialize_str}
use minimq.Errors.{DeError}
use minimq.Prelude.{
  List, Option, Result, arith, bit_and, bit_or, err, get_elem?, none, ok, some, suc, zero, ℕ, ◌*◌,
  ◌+◌, ◌<◌, ◌^◌, ◌∷◌, ◌≤◌,
}
use minimq.Varint.{mqtt_varint_data_mask}

abbrev pub Forward : {A : Type 0} → Deserialize A → Type 0
Forward m = (d : MqttDeserializer) → d.index ≤ (m d).0.index

pub Forward-then :
    {A B : Type 0} (m : Deserialize A) (k : A → Deserialize B)
    → Forward m
    → ((a : A) → Forward (k a))
    → Forward (read_then m k)
unfolding read_then then_deserialize
Forward-then {A} {B} m k hm hk d = through (m d) (hm d)
  where
    through :
        (r : MqttDeserializer × Result DeError A)
        → d.index ≤ r.0.index
        → d.index ≤ (then_deserialize k r).0.index
    through (d', ok a) h = omega (arith, h, hk a d')
    through (d', err e) h = h

pub Forward-as : {A B : Type 0} (f : A → B) (m : Deserialize A) → Forward m → Forward (read_as f m)
unfolding read_as
Forward-as f m h = Forward-then m (λ a d. (d, ok (f a))) h (λ a d. omega arith)

pub Forward-refuse : (A : Type 0) (e : DeError) → Forward (refuse {A = A} e)
unfolding refuse
Forward-refuse A e d = omega arith

pub Forward-try_take_n : (n : ℕ) → Forward (try_take_n n)
unfolding try_take_n bytes_left
Forward-try_take_n n d = ground arith

Forward-try_take_array : (n : ℕ) → Forward (try_take_array n)
unfolding try_take_array
Forward-try_take_array n d = ground arith

pub Forward-pop : Forward pop
unfolding pop popped
Forward-pop d = through (get_elem? d.buf d.index)
  where
    through : (o : Option ℕ) → d.index ≤ (popped d o).0.index
    through none = omega arith
    through (some byte) = omega arith

pub Forward-u16 : Forward read_u16
unfolding read_u16
Forward-u16 = Forward-as (from_be_bytes 0) (try_take_array 2) (Forward-try_take_array 2)

pub Forward-u32 : Forward deserialize_u32
unfolding deserialize_u32
Forward-u32 = Forward-as (from_be_bytes 0) (try_take_array 4) (Forward-try_take_array 4)

varint_group-Forward :
    (bad : DeError) (shift value : ℕ) (more : ℕ → Deserialize ℕ)
    → ((x : ℕ) → Forward (more x))
    → (byte : ℕ) → Forward (varint_group bad shift value more byte)
unfolding varint_group
varint_group-Forward bad shift value more h byte d =
    ground (arith, h (bit_or value (bit_and byte mqtt_varint_data_mask * 2 ^ shift)) d)

pub Forward-varint :
    (bad : DeError) (rounds shift value : ℕ) → Forward (varint_rounds bad rounds shift value)
unfolding varint_rounds refuse
Forward-varint bad zero shift value d = omega arith
Forward-varint bad (suc rounds) shift value d =
    Forward-then pop (varint_group bad shift value (varint_rounds bad rounds (shift + 7)))
      Forward-pop
      (varint_group-Forward bad shift value (varint_rounds bad rounds (shift + 7))
        (λ x. Forward-varint bad rounds (shift + 7) x))
      d

pub Forward-str : Forward deserialize_str
unfolding deserialize_str checked_str
Forward-str =
    Forward-then read_u16 (λ len. read_then (try_take_n len) checked_str) Forward-u16
      (λ len.
        Forward-then (try_take_n len) checked_str (Forward-try_take_n len) (λ bytes d. omega arith))

pub Forward-bytes : Forward deserialize_bytes
unfolding deserialize_bytes bytes_of_len
Forward-bytes d = through d.next_bytes_len
  where
    through : (o : Option ℕ) → d.index ≤ (bytes_of_len o d).0.index
    through none = Forward-then read_u16 try_take_n Forward-u16 Forward-try_take_n d
    through (some len) = Forward-try_take_n len (record d { next_bytes_len = none })

-- A number takes a byte at least where there is one.
pub varint-advances :
    (bad : DeError) (rounds shift value b : ℕ) (bs : List ℕ)
    → 0 < (varint_rounds bad (suc rounds) shift value (new_deserializer (b ∷ bs))).0.index
unfolding varint_rounds read_then then_deserialize pop popped new_deserializer
varint-advances bad rounds shift value b bs =
    varint_group-Forward bad shift value (varint_rounds bad rounds (shift + 7))
      (λ x. Forward-varint bad rounds (shift + 7) x) b
      (record { buf = b ∷ bs; index = 1; next_bytes_len = none })
