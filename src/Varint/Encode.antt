-- ===== src/Varint/Encode.antt =====
-- What `write_mqtt_u32_varint` leaves in the buffer, and the length that `encoded_len` foretells.
use mathlib.Core.List.{append_assoc}
use mathlib.Core.WellFounded.{Acc}
use minimq.Prelude.{
  All, List, [], arith, err, if◌then◌else◌, length, length-append, ltb, ok, replicate, set-append,
  suc, take-append_left, zero, ℕ, ◌%◌, ◌++◌, ◌+◌, ◌/◌, ◌<◌, ◌^◌, ◌∷◌, ◌≡◌, ◌≤◌,
}
use minimq.Prelude.Bits.{low_seven, set_top_bit}
use minimq.Prelude.Order.{lt_wf}
use minimq.Varint.{
  VarintBuffer, as_slice, encoded_len, encoded_len_loop, group_byte, mqtt_varint_max, new, push,
  write_loop, write_mqtt_u32_varint,
}

abbrev pub IsByte : ℕ → Type 0
IsByte b = b < 256

-- The canonical encoding of a value below 128 ^ (k + 1).
unfoldable pub canonical : ℕ → ℕ → List ℕ
canonical zero v = v ∷ []
canonical (suc k) v =
    let rest = canonical k (v / 128) in if ltb v 128 then v ∷ [] else (v % 128 + 128) ∷ rest

pub length-canonical : (k v : ℕ) → (length (canonical k v) ≤ suc k) × (0 < length (canonical k v))
unfolding canonical
length-canonical zero v = omega arith
length-canonical (suc k) v = ground (arith, length-canonical k (v / 128))

pub canonical-IsByte : (k v : ℕ) → v < 128 ^ suc k → All IsByte (canonical k v)
unfolding canonical
canonical-IsByte zero v h = (omega arith, tt)
canonical-IsByte (suc k) v h =
    let inner = canonical-IsByte k (v / 128) (omega arith) in ground (arith, inner)

group_byte_last : (v : ℕ) → v < 128 → group_byte v ≡ v
unfolding group_byte
group_byte_last v h = ground (arith, low_seven v)

group_byte_inner : (v : ℕ) → 128 ≤ v → group_byte v ≡ v % 128 + 128
unfolding group_byte
group_byte_inner v h = ground (arith, low_seven v, set_top_bit (v % 128))

abbrev buffer : List ℕ → List ℕ → VarintBuffer
buffer xs ys = record { bytes = xs ++ ys; len = length xs }

push_lem :
    (xs ys : List ℕ) (y v : ℕ) → push (buffer xs (y ∷ ys)) v ≡ ok (buffer (xs ++ (v ∷ [])) ys)
unfolding push
push_lem xs ys y v = ground (
  arith,
  length-append xs (y ∷ ys),
  set-append xs ys y v,
  length-append xs (v ∷ []),
  append_assoc xs (v ∷ []) ys,
)

as_slice-buffer : (xs ys : List ℕ) → as_slice (buffer xs ys) ≡ xs
unfolding as_slice
as_slice-buffer xs ys = take-append_left xs ys

-- The slots that the encoding leaves as they were.
unused : ℕ → ℕ → List ℕ
unused zero v = []
unused (suc k) v = let rest = unused k (v / 128) in if ltb v 128 then replicate (suc k) 0 else rest

-- With room for `k + 1` more bytes the loop appends the encoding.
write_loop-canonical :
    (k : ℕ) (xs : List ℕ) (v : ℕ) (w : Acc ◌<◌ v)
    → v < 128 ^ suc k
    → write_loop v (buffer xs (replicate (suc k) 0)) w
      ≡ ok (buffer (xs ++ canonical k v) (unused k v))
unfolding write_loop canonical unused
write_loop-canonical zero xs v (Acc.intro _ smaller) h =
    ground (arith, push_lem xs [] 0 (group_byte v), group_byte_last v)
write_loop-canonical (suc k) xs v (Acc.intro _ smaller) h =
    let byte = v % 128 + 128 in
    grind (
      arith,
      push_lem xs (0 ∷ replicate k 0) 0 (group_byte v),
      group_byte_last v,
      group_byte_inner v,
      λ (w : Acc ◌<◌ (v / 128)).
          write_loop-canonical k (xs ++ (byte ∷ [])) (v / 128) w (omega arith),
      append_assoc xs (byte ∷ []) (canonical k (v / 128)),
    )

-- A value of at most 28 bits is written as its canonical encoding of one to four bytes.
pub write-canonical :
    (v : ℕ)
    → v ≤ mqtt_varint_max
    → (b : VarintBuffer) × (write_mqtt_u32_varint v new ≡ ok b) × (as_slice b ≡ canonical 3 v)
unfolding write_mqtt_u32_varint new
write-canonical v h = (
  buffer (canonical 3 v) (unused 3 v),
  ground (arith, write_loop-canonical 3 [] v (lt_wf.apply v)),
  as_slice-buffer (canonical 3 v) (unused 3 v),
)

-- Any other value is refused.
pub write_too_large :
    (v : ℕ) (b : VarintBuffer) → mqtt_varint_max < v → write_mqtt_u32_varint v b ≡ err tt
unfolding write_mqtt_u32_varint
write_too_large v b h = ground arith

encoded_len_loop-canonical :
    (k len v : ℕ) (w : Acc ◌<◌ v)
    → v < 128 ^ suc k
    → encoded_len_loop v len w + 1 ≡ len + length (canonical k v)
unfolding encoded_len_loop canonical
encoded_len_loop-canonical zero len v (Acc.intro _ smaller) h = ground arith
encoded_len_loop-canonical (suc k) len v (Acc.intro _ smaller) h = grind (
  arith,
  λ (w : Acc ◌<◌ (v / 128)). encoded_len_loop-canonical k (len + 1) (v / 128) w (omega arith),
)

pub encoded_len-canonical : (v : ℕ) → v ≤ mqtt_varint_max → encoded_len v ≡ length (canonical 3 v)
unfolding encoded_len
encoded_len-canonical v h =
    omega (arith, encoded_len_loop-canonical 3 1 v (lt_wf.apply v) (omega arith))
