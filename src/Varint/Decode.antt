-- ===== src/Varint/Decode.antt =====
-- `read_mqtt_u32_varint` through the probe's cursor, on any bytes.
use mathlib.Core.List.{append-nil, append_assoc}
use native.Mathlib.Nat.{div-add-mod, mod-eq_of_lt}
use native.Mathlib.Numerals.{towards_suc}
use minimq.Prelude.{
  All, Bool-cases, List, [], ap, arith, bit_and, bit_or, err, get_elem?, if◌then◌else◌, inl, inr,
  length, length-append, ltb, ltb→lt, none, ok, refl, some, suc, zero, ℕ, ◌%◌, ◌*◌, ◌++◌, ◌+◌, ◌/◌,
  ◌<◌, ◌^◌, ◌∙◌, ◌∷◌, ◌≡◌, ◌≢◌, ◌≤◌, ◌⊎◌,
}
use minimq.Prelude.Bits.{bit_or-fields, low_seven, top_bit}
use minimq.Varint.{incomplete, invalid, mqtt_varint_max, probe_byte, read_loop}
use minimq.Varint.Encode.{IsByte, canonical}

-- The cursor stands behind `pre`.
pub get_elem?-append :
    {A : Type 0} (pre : List A) (b : A) (bs : List A)
    → get_elem? (pre ++ (b ∷ bs)) (length pre) ≡ some b
get_elem?-append [] b bs = refl
get_elem?-append (x ∷ pre) b bs = get_elem?-append pre b bs

get_elem?_end : {A : Type 0} (pre : List A) → get_elem? pre (length pre) ≡ none
get_elem?_end [] = refl
get_elem?_end (x ∷ pre) = get_elem?_end pre

pub probe_byte_next :
    (pre bs : List ℕ) (b : ℕ)
    → probe_byte (pre ++ (b ∷ bs)) (length pre) ≡ ok (b, length (pre ++ (b ∷ [])))
unfolding probe_byte
probe_byte_next pre bs b = ground (arith, get_elem?-append pre b bs, length-append pre (b ∷ []))

pub probe_byte_end : (pre : List ℕ) → probe_byte pre (length pre) ≡ err incomplete
unfolding probe_byte
probe_byte_end pre = rw (get_elem?_end pre)

pub shift_seven : (s : ℕ) → 2 ^ (s + 7) ≡ 128 * 2 ^ s
shift_seven s = simp towards_suc (omega arith)

-- The value that one more byte gives: `value |= part << shift`.
pub add_group :
    (value byte s : ℕ)
    → value < 2 ^ s
    → bit_or value (bit_and byte 127 * 2 ^ s) ≡ value + byte % 128 * 2 ^ s
add_group value byte s h = rw (low_seven byte) (bit_or-fields s value (byte % 128) h)

pub add_group_fits : (value byte s : ℕ) → value < 2 ^ s → value + byte % 128 * 2 ^ s < 2 ^ (s + 7)
add_group_fits value byte s h = rw shift_seven (grind arith)

-- One round of the loop in arithmetic.
pub round :
    (rounds s value b : ℕ) (pre bs : List ℕ)
    → value < 2 ^ s
    → IsByte b
    → let value' = value + b % 128 * 2 ^ s in
      read_loop (probe_byte (pre ++ (b ∷ bs))) invalid (suc rounds) s value (length pre) ≡ (
        if ltb mqtt_varint_max value'
        then err invalid
        else if ltb b 128
        then (if ltb 0 s
            then (if ltb 0 b then ok (value', length (pre ++ (b ∷ []))) else err invalid)
            else ok (value', length (pre ++ (b ∷ []))))
        else read_loop
            (probe_byte (pre ++ (b ∷ bs)))
            invalid
            rounds
            (s + 7)
            value'
            (length (pre ++ (b ∷ []))))
unfolding read_loop
round rounds s value b pre bs h hb =
    rw (probe_byte_next pre bs b, add_group value b s h) (ground (arith, low_seven b, top_bit b))

-- The lowest group of `v` and the rest, both shifted by `s`.
pub split_group : (v s : ℕ) → v * 2 ^ s ≡ v % 128 * 2 ^ s + v / 128 * 2 ^ (s + 7)
split_group v s = omega (
  arith,
  ap (λ (t : ℕ). t * 2 ^ s) (div-add-mod v 128),
  ap (λ (t : ℕ). v / 128 * t) (shift_seven s),
)

-- The last byte of a number, and a byte with more to come.
read_last :
    (k s value v : ℕ) (pre rest : List ℕ)
    → v < 128
    → value < 2 ^ s
    → value + v * 2 ^ s ≤ mqtt_varint_max
    → (s ≡ 0) ⊎ (0 < v)
    → read_loop (probe_byte (pre ++ (v ∷ rest))) invalid (suc k) s value (length pre)
      ≡ ok (value + v * 2 ^ s, length pre + 1)
read_last k s value v pre rest hv h fits first =
    round k s value v pre rest h (omega arith)
    ∙ ground (arith, mod-eq_of_lt hv, length-append pre (v ∷ []))

read_more :
    (k s value g : ℕ) (pre rest : List ℕ)
    → g < 128
    → value < 2 ^ s
    → value + g * 2 ^ s ≤ mqtt_varint_max
    → read_loop (probe_byte (pre ++ ((g + 128) ∷ rest))) invalid (suc k) s value (length pre)
      ≡ read_loop
          (probe_byte ((pre ++ ((g + 128) ∷ [])) ++ rest))
          invalid
          k
          (s + 7)
          (value + g * 2 ^ s)
          (length (pre ++ ((g + 128) ∷ [])))
read_more k s value g pre rest hg h fits =
    let e : (g + 128) % 128 ≡ g = omega arith in
    round k s value (g + 128) pre rest h (omega arith)
    ∙ rw (e, append_assoc pre ((g + 128) ∷ []) rest) (ground arith)

-- A canonical encoding is read back, from any shift and whatever follows it.
pub read-canonical :
    (k s value v : ℕ) (pre rest : List ℕ)
    → v < 128 ^ suc k
    → value < 2 ^ s
    → value + v * 2 ^ s ≤ mqtt_varint_max
    → (s ≡ 0) ⊎ (0 < v)
    → read_loop (probe_byte (pre ++ (canonical k v ++ rest))) invalid (suc k) s value (length pre)
      ≡ ok (value + v * 2 ^ s, length pre + length (canonical k v))
unfolding canonical
read-canonical zero s value v pre rest hv h fits first =
    read_last zero s value v pre rest hv h fits first
read-canonical (suc k) s value v pre rest hv h fits first = elim (Bool-cases (ltb v 128)) [
  | inl small ↦ rw small (read_last (suc k) s value v pre rest (ltb→lt _ _ small) h fits first)
  | inr big ↦ rw big (
      read_more (suc k) s value (v % 128) pre (canonical k (v / 128) ++ rest) (omega arith) h
        (omega (arith, split_group v s))
      ∙ read-canonical k (s + 7) (value + v % 128 * 2 ^ s) (v / 128) (pre ++ ((v % 128 + 128) ∷ []))
          rest (omega arith) (add_group_fits value v s h) (omega (arith, split_group v s))
          (inr (ground arith))
      ∙ ground (arith, split_group v s, length-append pre ((v % 128 + 128) ∷ [])))
]

-- The bytes are used up before the number ends.
pub read_end :
    (rounds s value : ℕ) (pre : List ℕ)
    → read_loop (probe_byte pre) invalid (suc rounds) s value (length pre) ≡ err incomplete
unfolding read_loop
read_end rounds s value pre = rw (probe_byte_end pre)

-- More bytes behind the number change neither a value nor an error.
pub read-append :
    (rounds s value : ℕ) (pre bs more : List ℕ)
    → All IsByte bs
    → value < 2 ^ s
    → read_loop (probe_byte (pre ++ bs)) invalid rounds s value (length pre) ≢ err incomplete
    → read_loop (probe_byte (pre ++ (bs ++ more))) invalid rounds s value (length pre)
      ≡ read_loop (probe_byte (pre ++ bs)) invalid rounds s value (length pre)
read-append zero s value pre bs more hb h ne = unfold read_loop in refl
read-append (suc rounds) s value pre [] more hb h ne =
    absurd (ne (rw append-nil (read_end rounds s value pre)))
read-append (suc rounds) s value pre (b ∷ bs) more (hb, hbs) h ne = ground (
  arith,
  round rounds s value b pre bs,
  round rounds s value b pre (bs ++ more),
  add_group_fits value b s,
  append_assoc pre (b ∷ []) bs,
  append_assoc pre (b ∷ []) (bs ++ more),
  read-append rounds (s + 7) (value + b % 128 * 2 ^ s) (pre ++ (b ∷ [])) bs more hbs,
)
