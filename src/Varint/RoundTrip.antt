-- ===== src/Varint/RoundTrip.antt =====
-- The varint codec as a whole: writing then probing, probing then writing, and input cut short.
use mathlib.Core.List.{append-nil}
use mathlib.Core.Path.{subst}
use minimq.Prelude.{
  All, All-append_left, List, Option, Result, [], ap, arith, err, inl, length, length-append, none,
  ok, refl, some, sym, take, take-append_left, ℕ, ◌*◌, ◌++◌, ◌^◌, ◌∙◌, ◌∷◌, ◌≡◌, ◌≢◌, ◌≤◌,
}
use minimq.Varint.{
  ProbeError, VarintBuffer, as_slice, encoded_len, incomplete, invalid, mqtt_varint_max, new,
  probe_mqtt_u32_varint, probe_result, read_mqtt_u32_varint, write_mqtt_u32_varint,
}
use minimq.Varint.Canonical.{Reads, read-Reads}
use minimq.Varint.Decode.{read-append, read-canonical}
use minimq.Varint.Encode.{
  IsByte, encoded_len-canonical, canonical, canonical-IsByte, length-canonical, write-canonical,
}

pub probe-canonical :
    (v : ℕ) (rest : List ℕ)
    → v ≤ mqtt_varint_max
    → probe_mqtt_u32_varint (canonical 3 v ++ rest) ≡ ok (some (v, length (canonical 3 v)))
unfolding probe_mqtt_u32_varint read_mqtt_u32_varint
probe-canonical v rest h =
    let e : v * 2 ^ 0 ≡ v = omega arith in
    ground
      (arith, read-canonical 3 0 0 v [] rest (omega arith) (omega arith) (omega arith) (inl refl))

-- A value of at most 28 bits is written in one to four bytes, as many as `encoded_len` says, and
-- the probe reads the value and that length back from them, whatever bytes follow.
pub probe-write :
    (v : ℕ) (rest : List ℕ)
    → v ≤ mqtt_varint_max
    → (b : VarintBuffer) × (write_mqtt_u32_varint v new ≡ ok b)
      × (length (as_slice b) ≡ encoded_len v)
      × (encoded_len v ≤ 4)
      × (probe_mqtt_u32_varint (as_slice b ++ rest) ≡ ok (some (v, encoded_len v)))
probe-write v rest h =
    let (b, w, e) = write-canonical v h in
    let len : encoded_len v ≡ length (canonical 3 v) = encoded_len-canonical v h in
    (
      b,
      w,
      rw (e, len),
      omega (arith, len, length-canonical 3 v),
      rw (e, len) (probe-canonical v rest h),
    )

probe_result-some :
    (r : Result ProbeError (ℕ × ℕ)) (p : ℕ × ℕ) → probe_result r ≡ ok (some p) → r ≡ ok p
unfolding probe_result
probe_result-some (ok r) p e = cc
probe_result-some (err incomplete) p e = cc
probe_result-some (err invalid) p e = cc

probe_result-none : (r : Result ProbeError (ℕ × ℕ)) → probe_result r ≢ ok none → r ≢ err incomplete
unfolding probe_result
probe_result-none r h e = h (rw e)

probe-Reads :
    (bytes : List ℕ) (v n : ℕ)
    → All IsByte bytes
    → probe_mqtt_u32_varint bytes ≡ ok (some (v, n))
    → Reads 3 0 0 0 bytes v n
unfolding probe_mqtt_u32_varint read_mqtt_u32_varint
probe-Reads bytes v n hb e =
    read-Reads 3 0 0 v n [] bytes hb (omega arith) (probe_result-some _ (v, n) e)

-- Where the probe answers with a value and a length, the value fits 28 bits, and writing it gives
-- back exactly the bytes that were read: no other spelling of a value is accepted.
pub write-probe :
    (bytes : List ℕ) (v n : ℕ)
    → All IsByte bytes
    → probe_mqtt_u32_varint bytes ≡ ok (some (v, n))
    → (v ≤ mqtt_varint_max)
      × (n ≤ length bytes)
      × ((b : VarintBuffer) × (write_mqtt_u32_varint v new ≡ ok b) × (as_slice b ≡ take n bytes))
write-probe bytes v n hb e = (
  omega (arith, same, r.bounded),
  omega (arith, used, length-append (canonical 3 r.number) r.rest, ap length r.front),
  (
    b,
    w,
    s
        ∙ rw (same, used)
            (sym (
              ap (take (length (canonical 3 r.number))) r.front
              ∙ take-append_left (canonical 3 r.number) r.rest)),
  ),
)
  where
    r : Reads 3 0 0 0 bytes v n
    r = probe-Reads bytes v n hb e

    same : v ≡ r.number
    same = omega (arith, r.result)

    used : n ≡ length (canonical 3 r.number)
    used = omega (arith, r.used)

    written :
        (b : VarintBuffer) × (write_mqtt_u32_varint v new ≡ ok b) × (as_slice b ≡ canonical 3 v)
    written = write-canonical v r.bounded

    b : VarintBuffer
    b = written.0

    w : write_mqtt_u32_varint v new ≡ ok b
    w = written.1

    s : as_slice b ≡ canonical 3 v
    s = written.2

-- An answer other than "incomplete" stands when more bytes arrive behind the ones probed.
pub probe-append :
    (bytes more : List ℕ)
    → All IsByte bytes
    → probe_mqtt_u32_varint bytes ≢ ok none
    → probe_mqtt_u32_varint (bytes ++ more) ≡ probe_mqtt_u32_varint bytes
unfolding probe_mqtt_u32_varint read_mqtt_u32_varint
probe-append bytes more hb h =
    ap probe_result (read-append 4 0 0 [] bytes more hb (omega arith) (probe_result-none _ h))

-- The only answer that is not final.
none_if_not_final : (r : Result (Unit {0}) (Option (ℕ × ℕ))) → ((r ≢ ok none) → ⊥) → r ≡ ok none
none_if_not_final (ok none) h = refl
none_if_not_final (ok (some p)) h = absurd (h (λ e. cc))
none_if_not_final (err e) h = absurd (h (λ e. cc))

pub probe_cut :
    (v x : ℕ) (front back : List ℕ)
    → v ≤ mqtt_varint_max
    → canonical 3 v ≡ front ++ (x ∷ back)
    → probe_mqtt_u32_varint front ≡ ok none
probe_cut v x front back h whole = none_if_not_final _ too_short
  where
    bytes : All IsByte front
    bytes =
        All-append_left IsByte front (x ∷ back)
          (subst (All IsByte) whole (canonical-IsByte 3 v (omega arith)))

    whole_read : probe_mqtt_u32_varint (canonical 3 v ++ []) ≡ ok (some (v, length (canonical 3 v)))
    whole_read = probe-canonical v [] h

    final : probe_mqtt_u32_varint (front ++ (x ∷ back)) ≡ ok (some (v, length (canonical 3 v)))
    final = ap probe_mqtt_u32_varint (sym whole ∙ sym (append-nil (canonical 3 v))) ∙ whole_read

    too_short : (probe_mqtt_u32_varint front ≢ ok none) → ⊥
    too_short ne =
        let e = sym (probe-append front (x ∷ back) bytes ne) ∙ final in
        omega (
          arith,
          (write-probe front v (length (canonical 3 v)) bytes e).1,
          ap length whole,
          length-append front (x ∷ back),
        )

-- On every proper prefix of what is written for a value the probe asks for more bytes.
pub probe_truncated :
    (v x : ℕ) (front back : List ℕ) (b : VarintBuffer)
    → v ≤ mqtt_varint_max
    → write_mqtt_u32_varint v new ≡ ok b
    → as_slice b ≡ front ++ (x ∷ back)
    → probe_mqtt_u32_varint front ≡ ok none
probe_truncated v x front back b h w cut =
    let (b', w', e) = write-canonical v h in probe_cut v x front back h (cc)
