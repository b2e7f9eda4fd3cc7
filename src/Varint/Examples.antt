-- ===== src/Varint/Examples.antt =====
-- Runs of the varint codec, and its theorems at concrete inputs.
use native.Mathlib.Decide.{dec_lt}
use minimq.Prelude.{[], arith, err, length, none, ok, refl, some, ◌++◌, ◌∷◌, ◌≡◌, ◌≤◌}
use minimq.Prelude.Order.{lt_wf}
use minimq.Varint.{
  VarintBuffer, as_slice, encoded_len, group_byte, mqtt_varint_max, new, probe_mqtt_u32_varint,
  push, read_mqtt_u32_varint, write_loop, write_mqtt_u32_varint,
}
use minimq.Varint.Encode.{write_too_large}
use minimq.Varint.RoundTrip.{probe-append, probe-write, probe_truncated, write-probe}

abbrev two_bytes : VarintBuffer
two_bytes = record { bytes = 172 ∷ 2 ∷ 0 ∷ 0 ∷ []; len = 2 }

write_300 : write_mqtt_u32_varint 300 new ≡ ok two_bytes
unfolding write_mqtt_u32_varint write_loop push group_byte lt_wf dec_lt new
write_300 = refl

write_max :
    write_mqtt_u32_varint mqtt_varint_max new
    ≡ ok (record { bytes = 255 ∷ 255 ∷ 255 ∷ 127 ∷ []; len = 4 })
unfolding write_mqtt_u32_varint write_loop push group_byte lt_wf dec_lt new
write_max = refl

probe_overlong : probe_mqtt_u32_varint (128 ∷ 0 ∷ []) ≡ err tt
unfolding probe_mqtt_u32_varint read_mqtt_u32_varint
probe_overlong = refl

probe_overflow : probe_mqtt_u32_varint (255 ∷ 255 ∷ 255 ∷ 255 ∷ []) ≡ err tt
unfolding probe_mqtt_u32_varint read_mqtt_u32_varint
probe_overflow = refl

probe_300 : probe_mqtt_u32_varint (172 ∷ 2 ∷ 9 ∷ []) ≡ ok (some (300, 2))
unfolding probe_mqtt_u32_varint read_mqtt_u32_varint
probe_300 = refl

probe-write_example :
    (b : VarintBuffer) × (write_mqtt_u32_varint 300 new ≡ ok b)
    × (length (as_slice b) ≡ encoded_len 300)
    × (encoded_len 300 ≤ 4)
    × (probe_mqtt_u32_varint (as_slice b ++ (9 ∷ [])) ≡ ok (some (300, encoded_len 300)))
probe-write_example = probe-write 300 (9 ∷ []) (omega arith)

write-probe_example :
    (300 ≤ mqtt_varint_max)
    × (2 ≤ 3)
    × ((b : VarintBuffer) × (write_mqtt_u32_varint 300 new ≡ ok b) × (as_slice b ≡ 172 ∷ 2 ∷ []))
write-probe_example = write-probe (172 ∷ 2 ∷ 9 ∷ []) 300 2 (omega arith) probe_300

probe-append_example :
    probe_mqtt_u32_varint (172 ∷ 2 ∷ 9 ∷ 7 ∷ []) ≡ probe_mqtt_u32_varint (172 ∷ 2 ∷ 9 ∷ [])
probe-append_example = probe-append (172 ∷ 2 ∷ 9 ∷ []) (7 ∷ []) (omega arith) (λ e. cc probe_300)

probe_truncated_example : probe_mqtt_u32_varint (172 ∷ []) ≡ ok none
unfolding as_slice
probe_truncated_example = probe_truncated 300 2 (172 ∷ []) [] two_bytes (omega arith) write_300 refl

write_too_large_example : write_mqtt_u32_varint 268435456 new ≡ err tt
write_too_large_example = write_too_large 268435456 new (omega arith)
