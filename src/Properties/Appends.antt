-- ===== src/Properties/Appends.antt =====
-- Fields that write the same bytes wherever they stand in a packet.
use mathlib.Core.List.{append-nil, append_assoc}
use minimq.De.Reads.{be_u32}
use minimq.De.Strings.{prefixed}
use minimq.Errors.{custom}
use minimq.Prelude.{
  List, [], ap, arith, err, false, length, length-append, ltb, ok, refl, sym, true, ℕ, ◌%◌, ◌++◌,
  ◌+◌, ◌/◌, ◌<◌, ◌∙◌, ◌∷◌, ◌≡◌, ◌≤◌,
}
use minimq.Properties.Write.{push_each, push_encoded, serialize_binary, serialize_varint}
use minimq.Ser.{
  MqttSerializer, Serialize, and_then, push_bytes, push_u8, serialize_u16, serialize_u32,
}
use minimq.Ser.Fields.{
  serialize_prefixed, serialize_prefixed-filled, serialize_prefixed_long, serialize_u8, unsupported,
}
use minimq.Ser.Layout.{and_then-ok, filled, push_bytes-filled, push_u8-push_bytes}
use minimq.Varint.{mqtt_varint_max}
use minimq.Varint.Encode.{canonical, write-canonical}

-- Where there is room, `m` appends `ys` to the fields.
abbrev pub Appends : Serialize → List ℕ → Type 0
Appends m ys =
    (b xs : List ℕ)
    → 5 + length xs + length ys ≤ length b
    → m (filled b xs) ≡ (filled b (xs ++ ys), ok tt)

pub Appends-nothing : Appends (λ s. (s, ok tt)) []
Appends-nothing b xs h = ap (λ l. (filled b l, ok tt)) (sym (append-nil xs))

pub Appends-then :
    (m k : Serialize) (ys zs : List ℕ)
    → Appends m ys
    → Appends k zs
    → Appends (and_then m k) (ys ++ zs)
Appends-then m k ys zs hm hk b xs h =
    and_then-ok m k (filled b xs) (filled b (xs ++ ys))
      (hm b xs (omega (arith, length-append ys zs)))
    ∙ hk b (xs ++ ys) (omega (arith, length-append xs ys, length-append ys zs))
    ∙ ap (λ l. (filled b l, ok tt)) (append_assoc xs ys zs)

pub Appends-bytes : (ys : List ℕ) → Appends (push_bytes ys) ys
Appends-bytes ys b xs h = push_bytes-filled b xs ys h

pub Appends-u8 : (v : ℕ) → Appends (serialize_u8 v) (v ∷ [])
unfolding serialize_u8
Appends-u8 v b xs h = push_u8-push_bytes v (filled b xs) ∙ push_bytes-filled b xs (v ∷ []) h

pub Appends-u16 : (v : ℕ) → Appends (serialize_u16 v) (v / 256 ∷ v % 256 ∷ [])
unfolding serialize_u16
Appends-u16 v = Appends-bytes (v / 256 ∷ v % 256 ∷ [])

pub Appends-u32 : (v : ℕ) → Appends (serialize_u32 v) (be_u32 v)
unfolding serialize_u32
Appends-u32 v = Appends-bytes (be_u32 v)

pub Appends-prefixed : (v : List ℕ) → length v ≤ 65535 → Appends (serialize_prefixed v) (prefixed v)
Appends-prefixed v small b xs h = serialize_prefixed-filled b xs v (omega (arith, h)) small

pub Appends-each : (ys : List ℕ) → Appends (push_each ys) ys
unfolding push_each
Appends-each [] b xs h = Appends-nothing b xs h
Appends-each (y ∷ ys) b xs h =
    Appends-then (push_u8 y) (push_each ys) (y ∷ []) ys
      (λ b' xs' h'. push_u8-push_bytes y (filled b' xs') ∙ push_bytes-filled b' xs' (y ∷ []) h')
      (Appends-each ys) b xs h

pub Appends-binary : (v : List ℕ) → length v ≤ 65535 → Appends (serialize_binary v) (prefixed v)
unfolding serialize_binary
Appends-binary v small b xs h =
    let fits : ltb 65535 (length v) ≡ false = ground arith in
    rw fits (
      Appends-then (serialize_u16 (length v)) (push_each v) (length v / 256 ∷ length v % 256 ∷ []) v
        (Appends-u16 (length v)) (Appends-each v) b xs h)

pub Appends-varint : (v : ℕ) → v ≤ mqtt_varint_max → Appends (serialize_varint v) (canonical 3 v)
unfolding serialize_varint push_encoded
Appends-varint v small b xs h =
    let (buffer, w, s) = write-canonical v small in
    rw w (ap (λ l. push_each l (filled b xs)) s ∙ Appends-each (canonical 3 v) b xs h)

serialize_binary_long :
    (v : List ℕ) (s : MqttSerializer) → 65535 < length v → serialize_binary v s ≡ (s, err custom)
unfolding serialize_binary unsupported
serialize_binary_long v s gt = let big : ltb 65535 (length v) ≡ true = ground arith in rw big refl

-- A string and a binary field are both the length in two bytes and then the bytes, where they have
-- room and at most 65,535 bytes; longer ones are refused, with room or without, and nothing is
-- written.
pub fields-prefixed :
    (b xs v : List ℕ) (s : MqttSerializer)
    → (length v ≤ 65535
        → 5 + length xs + (2 + length v) ≤ length b
        → (serialize_prefixed v (filled b xs)
            ≡ (filled b (xs ++ (length v / 256 ∷ length v % 256 ∷ v)), ok tt))
          × (serialize_binary v (filled b xs)
              ≡ (filled b (xs ++ (length v / 256 ∷ length v % 256 ∷ v)), ok tt)))
      × (65535 < length v
          → (serialize_prefixed v s ≡ (s, err custom)) × (serialize_binary v s ≡ (s, err custom)))
fields-prefixed b xs v s = (
  λ small room. (
    Appends-prefixed v small b xs (omega (arith, room)),
    Appends-binary v small b xs (omega (arith, room)),
  ),
  λ long. (serialize_prefixed_long v s long, serialize_binary_long v s long),
)
