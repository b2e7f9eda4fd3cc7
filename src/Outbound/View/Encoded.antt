-- ===== src/Outbound/View/Encoded.antt =====
-- The invariant under the two encoders of the transmit buffer, and under retaining what they encode.
-- Room behind the retained packets: a valid buffer, in which a packet of this length can be retained.
use minimq.Errors.{ResourceError, SerError}
use minimq.Outbound.{
  OpKind, Outbound, VecOps, copy_within, retained_bytes, retained_capacity, scratch_space, total,
}
use minimq.Outbound.Queues.{retain_packet}
use minimq.Outbound.Send.{encode_packet, pack_encoded, pack_result, packed, put_scratch}
use minimq.Outbound.Send.Publish.{
  encode_publish, publish_packed, publish_result, publish_space, put_publish_space,
}
use minimq.Outbound.View.{IsValid}
use minimq.Outbound.View.Bounds.{length-copy_within}
use minimq.Outbound.View.Encode.{length-put_scratch, length-scratch_space}
use minimq.Outbound.View.Preserved.{buffer-IsValid, retain-IsValid}
use minimq.Prelude.{
  Bool-cases, List, Result, arith, drop, err, false, inl, inr, length, length-append, length-drop,
  length-take_le, ltb, ok, take, ℕ, ◌++◌, ◌+◌, ◌-◌, ◌<◌, ◌∙◌, ◌≡◌, ◌≤◌,
}
use minimq.Ser.{Encoded, Serialize, encode_with_offset}
use minimq.Ser.Publish.{PublishError, encode_publish_with_offset}
use minimq.Ser.Sized.{Fitted, KeepsSize, PayloadKeepsSize, encode-Fitted, encode_publish-Fitted}

Placed : ℕ → Outbound × Result ResourceError (Unit {0}) → Type 0
Placed len (p, ok u) = IsValid p × (total p.retained + len + p.connect_workspace ≤ length p.buf)
Placed len (p, err e) = IsValid p

-- What an encoder's result leaves: a valid buffer, in which an encoded packet has room.
abbrev pub Packed : {E : Type 0} → Outbound × Result E ℕ → Type 0
Packed (p, ok len) =
    IsValid p × (0 < len) × (total p.retained + len + p.connect_workspace ≤ length p.buf)
Packed (p, err e) = IsValid p

pack_encoded-Placed :
    (offset len : ℕ) (o : Outbound) → IsValid o → Placed len (pack_encoded offset len o)
unfolding pack_encoded retained_bytes retained_capacity Placed
pack_encoded-Placed offset len o valid =
    elim (Bool-cases (ltb (length o.buf - o.connect_workspace - total o.retained) len)) [
      | inl c ↦ rw c valid
      | inr c ↦ rw c (
        buffer-IsValid o
            (copy_within (total o.retained + offset) (total o.retained + offset + len)
              (total o.retained) o.buf)
            valid (whole c),
        omega (arith, whole c, room c, valid.inside),
      )
    ]
  where
    room :
        ltb (length o.buf - o.connect_workspace - total o.retained) len ≡ false
        → len ≤ length o.buf - o.connect_workspace - total o.retained
    room c = ground arith

    whole :
        ltb (length o.buf - o.connect_workspace - total o.retained) len ≡ false
        → length (
            copy_within
              (total o.retained + offset)
              (total o.retained + offset + len)
              (total o.retained)
              o.buf)
          ≡ length o.buf
    whole c =
        length-copy_within (total o.retained + offset) (total o.retained + offset + len)
          (total o.retained) o.buf (omega (arith, room c, valid.inside))

put_scratch-IsValid :
    (o : Outbound) (scratch : List ℕ)
    → IsValid o
    → length scratch ≡ length (scratch_space o)
    → IsValid (put_scratch o scratch)
unfolding put_scratch retained_bytes
put_scratch-IsValid o scratch valid same =
    buffer-IsValid o (take (total o.retained) o.buf ++ scratch) valid
      (length-put_scratch o scratch inside ∙ omega (arith, inside, same, length-scratch_space o))
  where
    inside : total o.retained ≤ length o.buf
    inside = omega (arith, valid.inside)

packed-Packed :
    (len : ℕ) (r : Outbound × Result ResourceError (Unit {0}))
    → 0 < len
    → Placed len r
    → Packed (packed len r)
unfolding packed Placed
packed-Packed len (p, ok u) pos (valid, room) = (valid, pos, room)
packed-Packed len (p, err e) pos valid = valid

pack_result-Packed :
    (o : Outbound) (r : List ℕ × Result SerError Encoded)
    → IsValid o
    → Fitted (length (scratch_space o)) r
    → Packed (pack_result o r)
unfolding pack_result
pack_result-Packed o (scratch, err e) valid same = put_scratch-IsValid o scratch valid same
pack_result-Packed o (scratch, ok e) valid (same, pos) =
    packed-Packed e.len (pack_encoded e.offset e.len (put_scratch o scratch)) pos (
      pack_encoded-Placed e.offset e.len (put_scratch o scratch)
        (put_scratch-IsValid o scratch valid same))

pub encode_packet-Packed :
    (header : ℕ) (fields : Serialize) (o : Outbound)
    → KeepsSize fields
    → IsValid o
    → Packed (encode_packet header fields o)
unfolding encode_packet
encode_packet-Packed header fields o keeps valid =
    pack_result-Packed o (encode_with_offset header fields (scratch_space o)) valid
      (encode-Fitted header fields (scratch_space o) keeps)

put_publish_space-IsValid :
    (o : Outbound) (written : List ℕ)
    → IsValid o
    → length written ≡ length (publish_space o)
    → IsValid (put_publish_space o written)
unfolding put_publish_space publish_space retained_bytes retained_capacity
put_publish_space-IsValid o written valid same =
    buffer-IsValid o
      (take (total o.retained) o.buf
        ++ (written ++ drop (length o.buf - o.connect_workspace) o.buf))
      valid
      (omega (
        arith,
        same,
        valid.inside,
        length-append (take (total o.retained) o.buf)
            (written ++ drop (length o.buf - o.connect_workspace) o.buf),
        length-append written (drop (length o.buf - o.connect_workspace) o.buf),
        length-take_le (total o.retained) o.buf (omega (arith, valid.inside)),
        length-drop (length o.buf - o.connect_workspace) o.buf,
        length-take_le (length o.buf - o.connect_workspace - total o.retained)
            (drop (total o.retained) o.buf)
            (omega (arith, valid.inside, length-drop (total o.retained) o.buf)),
        length-drop (total o.retained) o.buf,
      ))

module _ (P E : Type 0) where
  publish_packed-Packed :
      (len : ℕ) (r : Outbound × Result ResourceError (Unit {0}))
      → 0 < len
      → Placed len r
      → Packed (publish_packed {P = P} {E = E} len r)
  unfolding publish_packed Placed
  publish_packed-Packed len (p, ok u) pos (valid, room) = (valid, pos, room)
  publish_packed-Packed len (p, err e) pos valid = valid

  publish_result-Packed :
      (o : Outbound) (r : List ℕ × Result (PublishError P) Encoded)
      → IsValid o
      → Fitted (length (publish_space o)) r
      → Packed (publish_result {P = P} {E = E} o r)
  unfolding publish_result
  publish_result-Packed o (written, err e) valid same =
      put_publish_space-IsValid o written valid same
  publish_result-Packed o (written, ok e) valid (same, pos) =
      publish_packed-Packed e.len (pack_encoded e.offset e.len (put_publish_space o written)) pos (
        pack_encoded-Placed e.offset e.len (put_publish_space o written)
          (put_publish_space-IsValid o written valid same))

  pub encode_publish-Packed :
      (header : ℕ) (fields : Serialize) (payload : List ℕ → List ℕ × Result P ℕ) (o : Outbound)
      → KeepsSize fields
      → PayloadKeepsSize payload
      → IsValid o
      → Packed (encode_publish {P = P} {E = E} header fields payload o)
  unfolding encode_publish
  encode_publish-Packed header fields payload o keeps payload_keeps valid =
      publish_result-Packed o (encode_publish_with_offset header fields payload (publish_space o))
        valid (encode_publish-Fitted header fields payload (publish_space o) keeps payload_keeps)

pub Packed-IsValid : {E : Type 0} (r : Outbound × Result E ℕ) → Packed r → IsValid r.0
Packed-IsValid (p, ok len) (valid, pos, room) = valid
Packed-IsValid (p, err e) valid = valid

-- What has been encoded can be retained.
pub Packed-retained :
    {E : Type 0} (v : VecOps) (kind : OpKind) (packet_id len : ℕ) (r : Outbound × Result E ℕ)
    → r.1 ≡ ok len
    → Packed r
    → IsValid (retain_packet v kind packet_id len r.0).0
Packed-retained v kind packet_id len (p, ok n) e (valid, pos, room) =
    let same : n ≡ len = cc in
    retain-IsValid v kind packet_id len p valid (omega (arith, pos, same))
      (omega (arith, room, same))
Packed-retained v kind packet_id len (p, err x) e valid = absurd (cc)
