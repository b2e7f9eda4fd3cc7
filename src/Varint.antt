-- ===== src/Varint.antt =====
-- minimq/src/varint.rs: the MQTT variable byte integer, seven bits a byte, lowest group first,
-- at most four bytes. A `u32` and a `u8` are numbers, their ranges stand in the theorems.
pub mod Encode
pub mod Decode
pub mod Canonical
pub mod RoundTrip
mod Examples
use mathlib.Core.Logic.{dite}
use mathlib.Core.WellFounded.{Acc}
use native.Mathlib.Decide.{dec_lt}
use minimq.Prelude.{
  ℕ, zero, suc, ◌+◌, ◌*◌, ◌/◌, ◌^◌, ◌<◌, bit_and, bit_or, ◌≡◌, refl, arith, ltb, ◌==◌, not, ◌&&◌,
  if◌then◌else◌, List, [], ◌∷◌, length, set, take, replicate, get_elem?, Option, none, some, Result,
  ok, err, ◌>>=◌, ◌>>◌, ok_or, fail_if,
}
use minimq.Prelude.Order.{lt_wf}

abbrev pub mqtt_varint_data_bits : ℕ
mqtt_varint_data_bits = 7

abbrev pub mqtt_varint_max_bytes : ℕ
mqtt_varint_max_bytes = 4

abbrev pub mqtt_varint_data_mask : ℕ
mqtt_varint_data_mask = 127

abbrev pub mqtt_varint_continuation : ℕ
mqtt_varint_continuation = 128

abbrev pub mqtt_varint_base : ℕ
mqtt_varint_base = 128

-- 2 ^ 28 - 1.
abbrev pub mqtt_varint_max : ℕ
mqtt_varint_max = 268435455

pub shift_shrinks : (v : ℕ) → 127 < v → v / 128 < v
shift_shrinks v h = omega arith

-- `while value >= 128 { value /= 128; len += 1 }`.
pub encoded_len_loop : (value : ℕ) → ℕ → Acc ◌<◌ value → ℕ
encoded_len_loop value len (Acc.intro _ smaller) =
    dite (dec_lt 127 value)
      (λ h. encoded_len_loop (value / 128) (len + 1) (smaller _ (shift_shrinks value h))) (λ _. len)

pub encoded_len : ℕ → ℕ
unfolding encoded_len_loop lt_wf dec_lt
encoded_len value = encoded_len_loop value 1 (lt_wf.apply value)

-- The scratch buffer: `data` has four slots, `len` of them are used.
pub record VarintBuffer : Type 0 where
  pub bytes : List ℕ
  pub len : ℕ

unfoldable pub new : VarintBuffer
new = record { bytes = replicate mqtt_varint_max_bytes 0; len = 0 }

unfoldable pub as_slice : VarintBuffer → List ℕ
as_slice b = take b.len b.bytes

-- `get_mut(index).ok_or(())?`; the write is to an existing slot.
unfoldable pub push : VarintBuffer → ℕ → Result (Unit {0}) VarintBuffer
push b byte =
    if ltb b.len (length b.bytes)
    then ok (record { bytes = set b.bytes b.len byte; len = b.len + 1 })
    else err tt

pub next_shrinks : (v : ℕ) → 0 < v / 128 → v / 128 < v
next_shrinks v h = omega arith

-- One round of `write_mqtt_u32_varint`: the byte that is pushed for `value`.
unfoldable pub group_byte : ℕ → ℕ
group_byte value =
    let byte = bit_and value mqtt_varint_data_mask in
    if value / 128 == 0 then byte else bit_or byte mqtt_varint_continuation

unfoldable pub write_loop :
    (value : ℕ) → VarintBuffer → Acc ◌<◌ value → Result (Unit {0}) VarintBuffer
write_loop value out (Acc.intro _ smaller) = do
  out' ← push out (group_byte value)
  dite (dec_lt 0 (value / 128))
      (λ h. write_loop (value / 128) out' (smaller _ (next_shrinks value h))) (λ _. ok out')

-- `write_mqtt_u32_varint`. A caller that gets `Err` drops the buffer.
unfoldable pub write_mqtt_u32_varint : ℕ → VarintBuffer → Result (Unit {0}) VarintBuffer
write_mqtt_u32_varint value out =
    if ltb mqtt_varint_max value then err tt else write_loop value out (lt_wf.apply value)

module _ {ℓ κ} {S : Type ℓ} {E : Type κ} (read : S → Result E (ℕ × S)) (invalid : E) where
  -- The `for` loop of `read_mqtt_u32_varint` with `rounds` rounds left, from shift 7 * index.
  unfoldable pub read_loop : ℕ → ℕ → ℕ → S → Result E (ℕ × S)
  read_loop zero shift value s = err invalid
  read_loop (suc rounds) shift value s = do
    (byte, s') ← read s
    let part = bit_and byte mqtt_varint_data_mask
    let value' = bit_or value (part * 2 ^ shift)
    let more = read_loop rounds (shift + 7) value' s'
    fail_if (ltb mqtt_varint_max value') invalid
    if bit_and byte mqtt_varint_continuation == 0
        then if not (shift == 0) && (part == 0) then err invalid else ok (value', s')
        else more

  -- `read` and `invalid` are the closures; `S` is what `read` captures.
  unfoldable pub read_mqtt_u32_varint : S → Result E (ℕ × S)
  unfolding read_loop
  read_mqtt_u32_varint s = read_loop mqtt_varint_max_bytes 0 0 s

pub data ProbeError : Type 0 where
  incomplete invalid : ProbeError

-- The read closure of the probe: `len` is the captured index.
unfoldable pub probe_byte : List ℕ → ℕ → Result ProbeError (ℕ × ℕ)
probe_byte bytes len = do byte ← ok_or (get_elem? bytes len) incomplete; ok (byte, len + 1)

pub probe_result : Result ProbeError (ℕ × ℕ) → Result (Unit {0}) (Option (ℕ × ℕ))
probe_result (ok r) = ok (some r)
probe_result (err incomplete) = ok none
probe_result (err invalid) = err tt

unfoldable pub probe_mqtt_u32_varint : List ℕ → Result (Unit {0}) (Option (ℕ × ℕ))
unfolding probe_byte probe_result
probe_mqtt_u32_varint bytes = probe_result (read_mqtt_u32_varint (probe_byte bytes) invalid 0)
