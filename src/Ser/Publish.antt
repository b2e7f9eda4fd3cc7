-- ===== src/Ser/Publish.antt =====
-- minimq/src/ser/mod.rs: a publication, whose payload writes itself behind the header fields.
-- minimq/src/publication.rs: `ToPayload`, a parameter. It is given a buffer and gives the buffer that
-- follows and how many bytes it has written.
-- `ser::PubError`.
use mathlib.Core.List.{append_assoc}
use minimq.Errors.{SerError}
use minimq.Prelude.{
  List, Result, ap, arith, drop, drop-append_left, drop-drop, err, false, length, length-append,
  length-take_le, ltb, map_err, min, ok, sym, take, take-append_left, ℕ, ◌++◌, ◌+◌, ◌-◌, ◌∙◌, ◌≡◌,
  ◌≤◌,
}
use minimq.Ser.{
  Encoded, MqttSerializer, Serialize, and_then, commit_bytes, encode_with_offset, finalize,
  finalize_after, new_serializer, push_bytes, remainder,
}
use minimq.Ser.Layout.{and_then-ok, filled, length-filled, push_bytes-filled}
use minimq.Ser.Packet.{Emits, control_packet, encode-control_packet}
use minimq.Varint.{mqtt_varint_max}

pub data PublishError {ℓ} (P : Type ℓ) : Type ℓ where
  encoding : SerError → PublishError P
  payload_failed : P → PublishError P

-- The buffer with the remainder that the payload has written.
unfoldable pub put_remainder : MqttSerializer → List ℕ → MqttSerializer
put_remainder s written = record s { buf = take (min s.index (length s.buf)) s.buf ++ written }

abbrev front : List ℕ → List ℕ → List ℕ
front b xs = take 5 b ++ xs

module _ (b xs : List ℕ) (fits : 5 + length xs ≤ length b) where
  front_split : (filled b xs).buf ≡ front b xs ++ drop (5 + length xs) b
  front_split = unfold filled in sym (append_assoc (take 5 b) xs (drop (5 + length xs) b))

  front_length : length (front b xs) ≡ 5 + length xs
  front_length = omega (arith, length-append (take 5 b) xs, length-take_le 5 b (omega arith))

  front_end : min (5 + length xs) (length (filled b xs).buf) ≡ length (front b xs)
  front_end = omega (arith, length-filled b xs fits, front_length)

  remainder-filled : remainder (filled b xs) ≡ drop (5 + length xs) b
  unfolding remainder filled
  remainder-filled =
      ap (λ k. drop k (filled b xs).buf) front_end
      ∙ ap (drop (length (front b xs))) front_split
      ∙ drop-append_left (front b xs) (drop (5 + length xs) b)

  put_remainder-front :
      (written : List ℕ) → (put_remainder (filled b xs) written).buf ≡ front b xs ++ written
  unfolding put_remainder filled
  put_remainder-front written =
      ap (λ l. l ++ written)
        (ap (λ k. take k (filled b xs).buf) front_end
          ∙ ap (take (length (front b xs))) front_split
          ∙ take-append_left (front b xs) (drop (5 + length xs) b))

-- The payload's bytes are the last field.
payload-filled :
    (b xs bytes : List ℕ)
    → 5 + length xs + length bytes ≤ length b
    → commit_bytes
        (length bytes)
        (put_remainder (filled b xs) (bytes ++ drop (length bytes) (drop (5 + length xs) b)))
      ≡ (filled b (xs ++ bytes), ok tt)
unfolding commit_bytes put_remainder filled
payload-filled b xs bytes h = rw room (λ i. (record { buf = same i; index = next i }, ok tt))
  where
    written : List ℕ
    written = bytes ++ drop (length bytes) (drop (5 + length xs) b)

    next : (filled b xs).index + length bytes ≡ (filled b (xs ++ bytes)).index
    next = omega (arith, length-append xs bytes)

    same : (put_remainder (filled b xs) written).buf ≡ (filled b (xs ++ bytes)).buf
    same =
        put_remainder-front b xs (omega arith) written
        ∙ append_assoc (take 5 b) xs written
        ∙ ap (λ l. take 5 b ++ l)
            (sym (append_assoc xs bytes (drop (length bytes) (drop (5 + length xs) b)))
              ∙ ap (λ l. (xs ++ bytes) ++ l) (drop-drop (5 + length xs) (length bytes) b)
              ∙ ap (λ n. (xs ++ bytes) ++ drop n b) next)

    room :
        ltb (length (put_remainder (filled b xs) written).buf - (filled b xs).index) (length bytes)
        ≡ false
    room = ground (
      arith,
      ap length same,
      length-filled b (xs ++ bytes) (omega (arith, length-append xs bytes)),
      length-append xs bytes,
    )

module _ {P : Type 0} where
  unfoldable pub finalize_publish :
      ℕ → MqttSerializer × Result SerError (Unit {0}) → List ℕ × Result (PublishError P) Encoded
  unfolding finalize
  finalize_publish header (s, err e) = (s.buf, err (encoding e))
  finalize_publish header (s, ok u) = let r = finalize header s in (r.0, map_err encoding r.1)

  unfoldable pub commit_payload :
      ℕ → MqttSerializer → List ℕ × Result P ℕ → List ℕ × Result (PublishError P) Encoded
  unfolding put_remainder finalize_publish commit_bytes
  commit_payload header s (written, err e) = ((put_remainder s written).buf, err (payload_failed e))
  commit_payload header s (written, ok len) =
      finalize_publish header (commit_bytes len (put_remainder s written))

  unfoldable pub payload_after :
      ℕ
      → (List ℕ → List ℕ × Result P ℕ)
      → MqttSerializer × Result SerError (Unit {0})
      → List ℕ × Result (PublishError P) Encoded
  unfolding commit_payload remainder
  payload_after header payload (s, err e) = (s.buf, err (encoding e))
  payload_after header payload (s, ok u) = commit_payload header s (payload (remainder s))

  unfoldable pub encode_publish_with_offset :
      ℕ
      → Serialize
      → (List ℕ → List ℕ × Result P ℕ)
      → List ℕ
      → List ℕ × Result (PublishError P) Encoded
  unfolding payload_after new_serializer
  encode_publish_with_offset header fields payload buf =
      payload_after header payload (fields (new_serializer buf))

  -- A payload that writes these bytes at the front of what it is given, and no others.
  abbrev pub Writes : (List ℕ → List ℕ × Result P ℕ) → List ℕ → List ℕ → Type 0
  Writes payload bytes b = payload b ≡ (bytes ++ drop (length bytes) b, ok (length bytes))

  -- The payload counts as a last field.
  pub encode_publish-encode_with_offset :
      (header : ℕ) (fields : Serialize) (payload : List ℕ → List ℕ × Result P ℕ)
      (xs bytes b : List ℕ)
      → Emits fields xs b
      → Writes payload bytes (drop (5 + length xs) b)
      → 5 + length xs + length bytes ≤ length b
      → encode_publish_with_offset header fields payload b ≡ (
          let r = encode_with_offset header (and_then fields (push_bytes bytes)) b in
          (r.0, map_err encoding r.1))
  unfolding encode_publish_with_offset encode_with_offset payload_after commit_payload
      finalize_after finalize_publish
  encode_publish-encode_with_offset header fields payload xs bytes b emits writes h =
      ap (payload_after header payload) emits
      ∙ ap (λ l. commit_payload header (filled b xs) (payload l))
          (remainder-filled b xs (omega arith))
      ∙ ap (commit_payload header (filled b xs)) writes
      ∙ ap (finalize_publish header) (payload-filled b xs bytes h)
      ∙ sym (
          ap both (
            and_then-ok fields (push_bytes bytes) (new_serializer b) (filled b xs) emits
            ∙ push_bytes-filled b xs bytes h))
    where
      both : MqttSerializer × Result SerError (Unit {0}) → List ℕ × Result (PublishError P) Encoded
      both q = let r = finalize_after header q in (r.0, map_err encoding r.1)

  -- A publication whose fields and payload fit the buffer behind the room for the header, and are
  -- shorter than 2^28 bytes together, is the header byte, the length of both in its canonical
  -- encoding, the fields and the payload; it ends where the payload ends, and the buffer keeps its
  -- size.
  pub encode_publish-control_packet :
      (header : ℕ) (fields : Serialize) (payload : List ℕ → List ℕ × Result P ℕ)
      (xs bytes b : List ℕ)
      → Emits fields xs b
      → Writes payload bytes (drop (5 + length xs) b)
      → 5 + length xs + length bytes ≤ length b
      → length xs + length bytes ≤ mqtt_varint_max
      → (b' : List ℕ) × (e : Encoded) × (encode_publish_with_offset header fields payload b
          ≡ (b', ok e))
        × (take e.len (drop e.offset b') ≡ control_packet header (xs ++ bytes))
        × (e.offset + e.len ≡ 5 + length xs + length bytes)
        × (length b' ≡ length b)
  encode_publish-control_packet header fields payload xs bytes b emits writes h small =
      let size = length-append xs bytes in
      let (b', e, eq, shown, whole, end, same) =
        encode-control_packet header (and_then fields (push_bytes bytes)) (xs ++ bytes) b
          (and_then-ok fields (push_bytes bytes) (new_serializer b) (filled b xs) emits
            ∙ push_bytes-filled b xs bytes h)
          (omega (arith, size)) (omega (arith, size)) in
      (
        b',
        e,
        encode_publish-encode_with_offset header fields payload xs bytes b emits writes h
            ∙ ap (λ r. (r.0, map_err encoding r.1)) eq,
        shown,
        omega (arith, end, size),
        same,
      )
