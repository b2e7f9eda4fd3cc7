-- ===== src/Staging/Rules.antt =====
-- mqtt-staging/src/lib.rs: the tests of a manifest and of a chunk, and what the service reads of an
-- MQTT publication.
pub mod Chunk
pub mod Size
use mathlib.Core.Logic.{dite}
use mathlib.Core.WellFounded.{Acc}
use native.Mathlib.Decide.{dec_lt}
use minimq.Errors.{PeerError}
use minimq.Prelude.{
  Bool, List, Option, Result, [], arith, drop, err, false, if◌then◌else◌, leb, length, ltb, none,
  not, ok, some, suc, true, ℕ, ◌%◌, ◌&&◌, ◌*◌, ◌+◌, ◌-◌, ◌/◌, ◌<◌, ◌==◌, ◌^◌, ◌||◌, ◌∷◌,
}
use minimq.Prelude.Order.{lt_wf}
use minimq.Properties.Collection.{Properties, correlation_of, iter}
use minimq.Properties.Value.{Property}
use minimq.Staging.{
  Bytes, StatusCode, Transfer, duplicate, max_transfer_id_bytes, mtu, multiple_of, offset, oversize,
  unaligned,
}

abbrev pub eq_bytes : Bytes → Bytes → Bool
eq_bytes [] [] = true
eq_bytes [] (y ∷ ys) = false
eq_bytes (x ∷ xs) [] = false
eq_bytes (x ∷ xs) (y ∷ ys) = x == y && eq_bytes xs ys

abbrev pub all {ℓ} : {A : Type ℓ} → (A → Bool) → List A → Bool
all p [] = true
all p (x ∷ xs) = p x && all p xs

-- `strip_prefix`.
unfoldable pub strip_prefix : Bytes → Bytes → Option Bytes
strip_prefix [] text = some text
strip_prefix (x ∷ xs) [] = none
strip_prefix (x ∷ xs) (y ∷ ys) = let rest = strip_prefix xs ys in if x == y then rest else none

pub data ChunkError : Type 0 where
  queue_code fail_code : StatusCode → ChunkError

-- The bytes of a payload behind the end of the object.
unfoldable pub payload_padding : Bytes → ℕ → Option Bytes
payload_padding payload object_bytes =
    if ltb object_bytes (length payload) then some (drop object_bytes payload) else none

unfoldable pub erased : Option Bytes → ℕ → Result ChunkError ℕ
erased none size = err (fail_code oversize)
erased (some padding) size =
    if all (λ byte. byte == 255) padding then ok size else err (fail_code oversize)

unfoldable pub chunk_end : Transfer → ℕ → Bytes → ℕ → ℕ → Result ChunkError ℕ
unfolding erased payload_padding
chunk_end transfer start payload capacity end =
    if leb (2 ^ 32) end
    then err (fail_code oversize)
    else if ltb capacity end
    then err (fail_code oversize)
    else if leb end transfer.size
    then ok end
    else erased (payload_padding payload (transfer.size - start)) transfer.size

unfoldable pub validate_chunk : Transfer → ℕ → Bytes → ℕ → ℕ → ℕ → Result ChunkError ℕ
unfolding chunk_end multiple_of
validate_chunk transfer start payload capacity max_chunk_size write_size =
    if ltb start transfer.next_offset
    then err (queue_code duplicate)
    else if not (start == transfer.next_offset)
    then err (queue_code StatusCode.offset)
    else if length payload == 0 || ltb max_chunk_size (length payload)
    then err (fail_code mtu)
    else if not (multiple_of (length payload) write_size)
    then err (fail_code unaligned)
    else chunk_end transfer start payload capacity (start + length payload % 2 ^ 32)

unfoldable pub is_alphanumeric : ℕ → Bool
is_alphanumeric b = (leb 48 b && leb b 57) || ((leb 65 b && leb b 90) || (leb 97 b && leb b 122))

-- Letters, digits and `-._`.
unfoldable pub valid_id : Bytes → Bool
unfolding is_alphanumeric
valid_id id =
    not (length id == 0)
    && (leb (length id) max_transfer_id_bytes
        && all (λ b. is_alphanumeric b || (b == 45 || (b == 46 || b == 95))) id)

-- Space, tab, line feed, form feed and carriage return.
unfoldable pub is_whitespace : ℕ → Bool
is_whitespace b = b == 32 || (b == 9 || (b == 10 || (b == 12 || b == 13)))

pub record Manifest : Type 0 where
  pub id : Bytes
  pub size : ℕ
  pub fnv1a64 : ℕ

-- What the crate serde_json_core reads from the front of the payload, and how many bytes it used.
abbrev pub ManifestReader : Type 0
ManifestReader = Bytes → Option (Manifest × ℕ)

unfoldable pub parsed : Bytes → Option (Manifest × ℕ) → Option Transfer
unfolding valid_id is_whitespace
parsed payload none = none
parsed payload (some (m, used)) =
    if not (valid_id m.id) || not (all is_whitespace (drop used payload))
    then none
    else some (record { id = m.id; size = m.size; next_offset = 0; fnv1a64 = m.fnv1a64 })

unfoldable pub parse_manifest : ManifestReader → Bytes → Option Transfer
unfolding parsed
parse_manifest reader payload = parsed payload (reader payload)

-- `str::parse::<u32>`: an optional plus sign, then digits, without overflow.
digits : ℕ → Bytes → Option ℕ
digits value [] = some value
digits value (b ∷ bs) =
    let next = value * 10 + (b - 48) in
    let rest = digits next bs in if leb 48 b && (leb b 57 && ltb next (2 ^ 32)) then rest else none

unsigned : Bytes → Option ℕ
unfolding digits
unsigned [] = none
unsigned (b ∷ bs) = digits 0 (b ∷ bs)

unfoldable pub parse_u32 : Bytes → Option ℕ
unfolding unsigned
parse_u32 [] = none
parse_u32 (b ∷ bs) = if b == 43 then unsigned bs else unsigned (b ∷ bs)

-- "offset"
abbrev pub offset_key : Bytes
offset_key = 111 ∷ 102 ∷ 102 ∷ 115 ∷ 101 ∷ 116 ∷ []

-- The last "offset" counts.
unfoldable pub offset_property : Option ℕ → List (Result PeerError Property) → Option ℕ
unfolding parse_u32
offset_property latest [] = latest
offset_property latest (ok (Property.user_property key value) ∷ ps) =
    offset_property (if eq_bytes key offset_key then parse_u32 value else latest) ps
offset_property latest (p ∷ ps) = offset_property latest ps

both : Option Bytes → Option ℕ → Option (Bytes × ℕ)
both (some id) (some start) = some (id, start)
both (some id) none = none
both none start = none

unfoldable pub chunk_properties : Properties → Option (Bytes × ℕ)
unfolding correlation_of offset_property both iter
chunk_properties properties =
    both (correlation_of properties) (offset_property none (iter properties))

varint_len_loop : (value : ℕ) → Acc ◌<◌ value → ℕ
varint_len_loop value (Acc.intro _ below) =
    dite (dec_lt value 128) (λ _. 1)
      (λ big. suc (varint_len_loop (value / 128) (below (value / 128) (omega arith))))

unfoldable pub mqtt_varint_len : ℕ → ℕ
unfolding varint_len_loop
mqtt_varint_len value = varint_len_loop value (lt_wf.apply value)

-- The largest packet in which a chunk of this size can arrive.
unfoldable pub required_rx_bytes : Bytes → Bytes → ℕ → ℕ
unfolding mqtt_varint_len
required_rx_bytes topic_bytes id payload_size =
    let properties = 2 + 1 + 2 + length id + 1 + 2 + length offset_key + 2 + 10 in
    let remaining =
      2 + length topic_bytes + 2 + mqtt_varint_len properties + properties + payload_size in
    1 + mqtt_varint_len remaining + remaining
