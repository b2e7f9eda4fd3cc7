-- ===== src/Ser/Sized.antt =====
-- minimq/src/ser/mod.rs: a serializer keeps the size of its buffer, as a slice cannot grow or shrink,
-- and a finished packet is not empty.
-- What a field of a packet, or a payload, does to the buffer that it is given.
use mathlib.Core.Path.{subst}
use minimq.Errors.{SerError}
use minimq.Prelude.{
  Bool-cases, List, Result, [], ap, arith, err, false, inl, inr, leb, leb→le, length, length-append,
  length-drop, length-set, length-take_le, length-write_at, ltb, map_err, min, ok, refl, sym, take,
  take-append-drop, write_at, ℕ, ◌%◌, ◌+◌, ◌-◌, ◌<◌, ◌^◌, ◌∙◌, ◌∷◌, ◌≡◌, ◌≤◌,
}
use minimq.Ser.{
  Encoded, MqttSerializer, Serialize, and_then, commit_bytes, encode_with_offset, finalize,
  finalize_after, finalize_with, new_serializer, push_bytes, put_header, remainder, then_serialize,
}
use minimq.Ser.Publish.{
  PublishError, commit_payload, encode_publish_with_offset, encoding, finalize_publish,
  payload_after, put_remainder,
}
use minimq.Varint.{VarintBuffer, as_slice, mqtt_varint_max, new, write_mqtt_u32_varint}
use minimq.Varint.Encode.{length-canonical, write-canonical, write_too_large}

abbrev pub KeepsSize : Serialize → Type 0
KeepsSize fields = (s : MqttSerializer) → length (fields s).0.buf ≡ length s.buf

abbrev pub PayloadKeepsSize : {P : Type 0} → (List ℕ → List ℕ × Result P ℕ) → Type 0
PayloadKeepsSize payload = (b : List ℕ) → length (payload b).0 ≡ length b

abbrev pub Fitted : {E : Type 0} → ℕ → List ℕ × Result E Encoded → Type 0
Fitted size (b, ok e) = (length b ≡ size) × (0 < e.len)
Fitted size (b, err x) = length b ≡ size

write_inside :
    (i : ℕ) (bytes buf : List ℕ)
    → length bytes ≤ length buf - i
    → length (write_at i bytes buf) ≡ length buf
write_inside i [] buf h =
    let here : i + 0 ≡ i = omega arith in rw here (ap length (take-append-drop i buf))
write_inside i (x ∷ bytes) buf h = length-write_at i (x ∷ bytes) buf (omega arith)

pub KeepsSize-bytes : (bytes : List ℕ) → KeepsSize (push_bytes bytes)
unfolding push_bytes
KeepsSize-bytes bytes s = elim (Bool-cases (ltb (length s.buf - s.index) (length bytes))) [
  | inl full ↦ rw full refl
  | inr room ↦ rw room (kept room)
]
  where
    kept :
        ltb (length s.buf - s.index) (length bytes) ≡ false
        → length (write_at s.index bytes s.buf) ≡ length s.buf
    kept room = write_inside s.index bytes s.buf (ground (arith, room))

pub KeepsSize-then : (m k : Serialize) → KeepsSize m → KeepsSize k → KeepsSize (and_then m k)
unfolding and_then then_serialize
KeepsSize-then m k hm hk s = next (m s) (hm s)
  where
    next :
        (r : MqttSerializer × Result SerError (Unit {0}))
        → length r.0.buf ≡ length s.buf
        → length (then_serialize k r).0.buf ≡ length s.buf
    next (q, ok u) h = hk q ∙ h
    next (q, err e) h = h

short_slice :
    (value : ℕ) (b : VarintBuffer)
    → write_mqtt_u32_varint value new ≡ ok b
    → length (as_slice b) ≤ 4
short_slice value b h = elim (Bool-cases (leb value mqtt_varint_max)) [
  | inl small ↦
      let (c, w, s) = write-canonical value (leb→le _ _ small) in
      let same : c ≡ b = varint_same c b (sym w ∙ h) in
      omega (arith, ap (λ x. length (as_slice x)) same, ap length s, (length-canonical 3 value).0)
  | inr big ↦ absurd (refused (sym (write_too_large value new (ground arith)) ∙ h))
]
  where
    varint_same :
        (c d : VarintBuffer) → ◌≡◌ {A = Result (Unit {0}) VarintBuffer} (ok c) (ok d) → c ≡ d
    varint_same c d e = cc

    refused : ◌≡◌ {A = Result (Unit {0}) VarintBuffer} (err tt) (ok b) → ⊥
    refused e = absurd (cc)

put_header-Fitted :
    (header : ℕ) (rl : List ℕ) (s : MqttSerializer)
    → length rl ≤ 4
    → 5 ≤ s.index
    → Fitted (length s.buf) (put_header header rl s)
unfolding put_header
put_header-Fitted header rl s short index = elim (Bool-cases (ltb (length s.buf) 5)) [
  | inl small ↦ rw small refl
  | inr room ↦ rw room (
    length-set (write_at (5 - length rl) rl s.buf) (5 - length rl - 1) header
        ∙ length-write_at (5 - length rl) rl s.buf (ground (arith, room)),
    omega arith,
  )
]

finalize-Fitted : (header : ℕ) (s : MqttSerializer) → Fitted (length s.buf) (finalize header s)
unfolding finalize
finalize-Fitted header s = elim (Bool-cases (ltb s.index 5)) [
  | inl small ↦ rw small refl
  | inr enough ↦ rw enough (with_length (ground (arith, enough)) _ refl)
]
  where
    with_length :
        5 ≤ s.index
        → (r : Result (Unit {0}) VarintBuffer)
        → write_mqtt_u32_varint ((s.index - 5) % 2 ^ 32) new ≡ r
        → Fitted (length s.buf) (finalize_with header s r)
    with_length index (err u) e = unfold finalize_with in refl
    with_length index (ok b) e =
        unfold finalize_with in put_header-Fitted header (as_slice b) s (short_slice _ b e) index

finalize_after-Fitted :
    (header : ℕ) (r : MqttSerializer × Result SerError (Unit {0})) (size : ℕ)
    → length r.0.buf ≡ size
    → Fitted size (finalize_after header r)
unfolding finalize_after
finalize_after-Fitted header (s, ok u) size same =
    subst (λ n. Fitted n (finalize header s)) same (finalize-Fitted header s)
finalize_after-Fitted header (s, err e) size same = same

pub encode-Fitted :
    (header : ℕ) (fields : Serialize) (b : List ℕ)
    → KeepsSize fields
    → Fitted (length b) (encode_with_offset header fields b)
unfolding encode_with_offset
encode-Fitted header fields b keeps =
    finalize_after-Fitted header (fields (new_serializer b)) (length b) (keeps (new_serializer b))

put_remainder-length :
    (s : MqttSerializer) (written : List ℕ)
    → length written ≡ length (remainder s)
    → length (put_remainder s written).buf ≡ length s.buf
unfolding put_remainder remainder
put_remainder-length s written same = omega (
  arith,
  same,
  length-append (take (min s.index (length s.buf)) s.buf) written,
  length-take_le (min s.index (length s.buf)) s.buf (omega arith),
  length-drop (min s.index (length s.buf)) s.buf,
)

finalize_publish-Fitted :
    (P : Type 0) (header : ℕ) (r : MqttSerializer × Result SerError (Unit {0})) (size : ℕ)
    → length r.0.buf ≡ size
    → Fitted size (finalize_publish {P = P} header r)
unfolding finalize_publish
finalize_publish-Fitted P header (s, err e) size same = same
finalize_publish-Fitted P header (s, ok u) size same =
    lifted (finalize header s)
      (subst (λ n. Fitted n (finalize header s)) same (finalize-Fitted header s))
  where
    lifted :
        (r : List ℕ × Result SerError Encoded)
        → Fitted size r
        → Fitted {E = PublishError P} size (r.0, map_err encoding r.1)
    lifted (b, ok e) h = h
    lifted (b, err x) h = h

module _ {P : Type 0} where
  commit_payload-Fitted :
      (header : ℕ) (s : MqttSerializer) (r : List ℕ × Result P ℕ) (size : ℕ)
      → length r.0 ≡ length (remainder s)
      → length s.buf ≡ size
      → Fitted size (commit_payload header s r)
  unfolding commit_payload
  commit_payload-Fitted header s (written, err e) size rest same =
      put_remainder-length s written rest ∙ same
  commit_payload-Fitted header s (written, ok len) size rest same =
      finalize_publish-Fitted P header (commit_bytes len (put_remainder s written)) size
        (kept len (put_remainder s written) ∙ put_remainder-length s written rest ∙ same)
    where
      kept : (n : ℕ) (q : MqttSerializer) → length (commit_bytes n q).0.buf ≡ length q.buf
      kept n q = unfold commit_bytes in ground arith

  payload_after-Fitted :
      (header : ℕ) (payload : List ℕ → List ℕ × Result P ℕ)
      (r : MqttSerializer × Result SerError (Unit {0})) (size : ℕ)
      → PayloadKeepsSize payload
      → length r.0.buf ≡ size
      → Fitted size (payload_after header payload r)
  unfolding payload_after
  payload_after-Fitted header payload (s, err e) size keeps same = same
  payload_after-Fitted header payload (s, ok u) size keeps same =
      commit_payload-Fitted header s (payload (remainder s)) size (keeps (remainder s)) same

  pub encode_publish-Fitted :
      (header : ℕ) (fields : Serialize) (payload : List ℕ → List ℕ × Result P ℕ) (b : List ℕ)
      → KeepsSize fields
      → PayloadKeepsSize payload
      → Fitted (length b) (encode_publish_with_offset header fields payload b)
  unfolding encode_publish_with_offset
  encode_publish-Fitted header fields payload b keeps payload_keeps =
      payload_after-Fitted header payload (fields (new_serializer b)) (length b) payload_keeps
        (keeps (new_serializer b))
