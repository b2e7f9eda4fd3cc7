-- ===== src/Ser/Fields.antt =====
-- minimq/src/ser/mod.rs: the serde serializer's methods for single values. A signed number is given
-- by its two's complement. A struct, a sequence, a tuple, a newtype and `Some` add nothing to the
-- values in them.
use mathlib.Core.List.{append_assoc}
use minimq.Errors.{custom}
use minimq.Prelude.{
  Bool, List, [], ap, arith, err, false, if◌then◌else◌, length, length-append, ltb, ok, refl, true,
  ℕ, ◌%◌, ◌++◌, ◌+◌, ◌/◌, ◌<◌, ◌^◌, ◌∙◌, ◌∷◌, ◌≡◌, ◌≤◌,
}
use minimq.Ser.{MqttSerializer, Serialize, and_then, push_bytes, push_u8, serialize_u16}
use minimq.Ser.Layout.{and_then-ok, filled, push_bytes-filled}

unfoldable pub serialize_bool : Bool → Serialize
unfolding push_u8
serialize_bool v = push_u8 (if v then 1 else 0)

unfoldable pub serialize_u8 : ℕ → Serialize
unfolding push_u8
serialize_u8 v = push_u8 v

unfoldable pub serialize_u64 : ℕ → Serialize
unfolding push_bytes
serialize_u64 v = push_bytes (
    v / 2 ^ 56 % 256
    ∷ v / 2 ^ 48 % 256
    ∷ v / 2 ^ 40 % 256
    ∷ v / 2 ^ 32 % 256
    ∷ v / 2 ^ 24 % 256
    ∷ v / 2 ^ 16 % 256
    ∷ v / 2 ^ 8 % 256
    ∷ v % 256
    ∷ [])

unfoldable pub serialize_bytes : List ℕ → Serialize
unfolding push_bytes
serialize_bytes v = push_bytes v

unfoldable pub serialize_str : List ℕ → Serialize
unfolding serialize_bytes
serialize_str v = serialize_bytes v

unfoldable pub serialize_none : Serialize
serialize_none s = (s, ok tt)

-- Characters, units, variants, maps, tuple structs and floating-point numbers have no encoding.
unfoldable pub unsupported : Serialize
unsupported s = (s, err custom)

-- `Utf8String` of minimq/src/wire.rs: a length as `u16`, then the bytes of the text.
unfoldable pub serialize_prefixed : List ℕ → Serialize
unfolding and_then serialize_u16 serialize_bytes unsupported
serialize_prefixed v =
    if ltb 65535 (length v)
    then unsupported
    else and_then (serialize_u16 (length v)) (serialize_bytes v)

-- A string with room is its length in two bytes and then its bytes.
pub serialize_prefixed-filled :
    (b xs v : List ℕ)
    → 5 + length xs + 2 + length v ≤ length b
    → length v ≤ 65535
    → serialize_prefixed v (filled b xs)
      ≡ (filled b (xs ++ (length v / 256 ∷ length v % 256 ∷ v)), ok tt)
unfolding serialize_prefixed serialize_u16 serialize_bytes
serialize_prefixed-filled b xs v h le =
    let small : ltb 65535 (length v) ≡ false = ground arith in
    rw small (
      and_then-ok (push_bytes size) (push_bytes v) (filled b xs) (filled b (xs ++ size))
        (push_bytes-filled b xs size (omega arith))
      ∙ push_bytes-filled b (xs ++ size) v (omega (arith, length-append xs size))
      ∙ ap (λ l. (filled b l, ok tt)) (append_assoc xs size v))
  where
    size : List ℕ
    size = length v / 256 ∷ length v % 256 ∷ []

-- One of more than 65,535 bytes is refused and nothing is written.
pub serialize_prefixed_long :
    (v : List ℕ) (s : MqttSerializer) → 65535 < length v → serialize_prefixed v s ≡ (s, err custom)
unfolding serialize_prefixed unsupported
serialize_prefixed_long v s gt = let big : ltb 65535 (length v) ≡ true = ground arith in rw big refl
