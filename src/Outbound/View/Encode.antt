-- ===== src/Outbound/View/Encode.antt =====
-- A packet is encoded behind the retained ones and joins them when it is retained; the retained
-- packets keep their bytes whatever the encoding does.
use mathlib.Core.Path.{ap₂}
use minimq.Errors.{ResourceError, SerError}
use minimq.Outbound.{
  OpKind, Outbound, RetainedPacket, VecOps, copy_within, max_retained, retained_bytes,
  retained_capacity, scratch_space, total, write,
}
use minimq.Outbound.Queues.{retain_packet, retained_pushed}
use minimq.Outbound.Send.{encode_packet, pack_encoded, pack_result, packed, put_scratch}
use minimq.Outbound.View.{IsValid, packets, segments, segments-append, segments_same}
use minimq.Prelude.{
  Bool-cases, List, Result, [], ap, arith, drop, drop-append, drop-append_left, err, false, inl,
  inr, length, length-append, length-drop, length-take_le, ltb, ok, refl, sym, take,
  take-append_left, ℕ, ◌++◌, ◌+◌, ◌-◌, ◌<◌, ◌∙◌, ◌∷◌, ◌≡◌, ◌≤◌,
}
use minimq.Ser.{Encoded, Serialize, encode_with_offset}
use minimq.Ser.Packet.{Emits, control_packet, encode-control_packet}
use minimq.Varint.{mqtt_varint_max}

pub length-scratch_space :
    (o : Outbound) → length (scratch_space o) ≡ length o.buf - total o.retained
unfolding scratch_space retained_bytes
length-scratch_space o = length-drop (total o.retained) o.buf

-- A buffer that differs behind the retained packets only.
packets_behind :
    (es : List RetainedPacket) (b rest : List ℕ)
    → total es ≤ length b
    → segments es (take (total es) b ++ rest) ≡ segments es b
packets_behind es b rest h = segments_same es (take (total es) b ++ rest) b (
    ap (λ n. take n (take (total es) b ++ rest)) (sym (length-take_le (total es) b h))
    ∙ take-append_left (take (total es) b) rest)

pack_encoded-packets :
    (offset len : ℕ) (o : Outbound)
    → total o.retained ≤ length o.buf
    → packets (pack_encoded offset len o).0 ≡ packets o
unfolding pack_encoded packets retained_bytes
pack_encoded-packets offset len o h =
    elim (Bool-cases (ltb (retained_capacity o - total o.retained) len)) [
      | inl e ↦ rw e refl
      | inr e ↦ rw e (
          packets_behind o.retained o.buf (moved ++ drop (total o.retained + length moved) o.buf) h)
    ]
  where
    moved : List ℕ
    moved =
        take (total o.retained + offset + len - (total o.retained + offset))
          (drop (total o.retained + offset) o.buf)

packed-state : (len : ℕ) (r : Outbound × Result ResourceError (Unit {0})) → (packed len r).0 ≡ r.0
unfolding packed
packed-state len (o, ok u) = refl
packed-state len (o, err e) = refl

pub length-put_scratch :
    (o : Outbound) (scratch : List ℕ)
    → total o.retained ≤ length o.buf
    → length (put_scratch o scratch).buf ≡ total o.retained + length scratch
unfolding put_scratch retained_bytes
length-put_scratch o scratch h = omega (
  arith,
  length-append (take (total o.retained) o.buf) scratch,
  length-take_le (total o.retained) o.buf h,
)

pack_result-packets :
    (o : Outbound) (r : List ℕ × Result SerError Encoded)
    → total o.retained ≤ length o.buf
    → packets (pack_result o r).0 ≡ packets o
unfolding pack_result put_scratch packets retained_bytes
pack_result-packets o (scratch, err e) h = packets_behind o.retained o.buf scratch h
pack_result-packets o (scratch, ok e) h =
    ap packets (packed-state e.len (pack_encoded e.offset e.len (put_scratch o scratch)))
    ∙ pack_encoded-packets e.offset e.len (put_scratch o scratch)
        (omega (arith, length-put_scratch o scratch h))
    ∙ packets_behind o.retained o.buf scratch h

-- Encoding keeps every retained packet, also where it fails.
pub encode_packet-packets :
    (header : ℕ) (fields : Serialize) (o : Outbound)
    → IsValid o
    → packets (encode_packet header fields o).0 ≡ packets o
unfolding encode_packet
encode_packet-packets header fields o valid =
    pack_result-packets o (encode_with_offset header fields (scratch_space o))
      (omega (arith, valid.inside))

move-encoded :
    (a b : List ℕ) (n offset len : ℕ)
    → n ≡ length a
    → (tail : List ℕ) × (copy_within (n + offset) (n + offset + len) n (a ++ b)
        ≡ a ++ (take len (drop offset b) ++ tail))
move-encoded a b n offset len e = (
  drop (n + length piece) (a ++ b),
  ap₂ (λ x y. x ++ (y ++ drop (n + length piece) (a ++ b)))
      (ap (λ k. take k (a ++ b)) e ∙ take-append_left a b)
      (ap₂ take width (ap (λ k. drop (k + offset) (a ++ b)) e ∙ drop-append a b offset)),
)
  where
    piece : List ℕ
    piece = take (n + offset + len - (n + offset)) (drop (n + offset) (a ++ b))

    width : n + offset + len - (n + offset) ≡ len
    width = omega arith

pack_encoded-room :
    (offset len : ℕ) (o : Outbound)
    → len ≤ retained_capacity o - total o.retained
    → pack_encoded offset len o ≡ (
      record o {
        buf =
            copy_within
              (total o.retained + offset)
              (total o.retained + offset + len)
              (total o.retained)
              o.buf;
      },
      ok tt,
    )
unfolding pack_encoded retained_bytes
pack_encoded-room offset len o h = rw room refl
  where
    room : ltb (retained_capacity o - total o.retained) len ≡ false
    room = ground arith

room-put_scratch :
    (o : Outbound) (scratch : List ℕ)
    → total o.retained ≤ length o.buf
    → length scratch ≡ length (scratch_space o)
    → retained_capacity (put_scratch o scratch) - total (put_scratch o scratch).retained
      ≡ retained_capacity o - total o.retained
unfolding retained_capacity put_scratch retained_bytes
room-put_scratch o scratch h same =
    ap (λ n. n - o.connect_workspace - total o.retained)
      (length-put_scratch o scratch h ∙ omega (arith, h, same, length-scratch_space o))

-- A packet pushed behind the others, with its bytes behind theirs.
retained_behind :
    (es : List RetainedPacket) (e : RetainedPacket) (b bytes tail : List ℕ)
    → total es ≤ length b
    → e.len ≡ length bytes
    → segments (es ++ (e ∷ [])) (take (total es) b ++ (bytes ++ tail))
      ≡ segments es b ++ ((e, bytes) ∷ [])
unfolding segments
retained_behind es e b bytes tail h size =
    segments-append es (e ∷ []) (take (total es) b ++ (bytes ++ tail))
    ∙ ap₂ ◌++◌ (packets_behind es b (bytes ++ tail) h) (
        ap (λ x. (e, x) ∷ [])
          (ap (λ n. take e.len (drop n (take (total es) b ++ (bytes ++ tail))))
              (sym (length-take_le (total es) b h))
            ∙ ap (take e.len) (drop-append_left (take (total es) b) (bytes ++ tail))
            ∙ ap (λ n. take n (bytes ++ tail)) size
            ∙ take-append_left bytes tail))

module _ (header : ℕ) (fields : Serialize) (content : List ℕ) (o : Outbound) (valid : IsValid o)
    (emits : Emits fields content (scratch_space o))
    (fits : 5 + length content ≤ length (scratch_space o))
    (small : length content ≤ mqtt_varint_max)
    (room : length (control_packet header content) ≤ retained_capacity o - total o.retained) where
  pub encode_packet-packed :
      (tail : List ℕ) × (encode_packet header fields o ≡ (
        record o { buf = take (total o.retained) o.buf ++ (control_packet header content ++ tail) },
        ok (length (control_packet header content)),
      ))
  unfolding encode_packet
  encode_packet-packed =
      let (b', e, eq, bytes, size, end, whole) =
        encode-control_packet header fields content (scratch_space o) emits fits small in
      let (tail, moved) =
        move-encoded (take (total o.retained) o.buf) b' (total o.retained) e.offset e.len
          (sym (length-take_le (total o.retained) o.buf inside)) in
      let fit : e.len ≤ retained_capacity (put_scratch o b') - total (put_scratch o b').retained =
        omega (arith, room-put_scratch o b' inside whole, size, room) in
      (
        tail,
        ap (pack_result o) eq
            ∙ ap (packed e.len) (pack_encoded-room e.offset e.len (put_scratch o b') fit)
            ∙ (λ i. (
              record o {
                buf = (moved ∙ ap (λ l. take (total o.retained) o.buf ++ (l ++ tail)) bytes) i;
              },
              ok (size i),
            )),
      )
    where
      inside : total o.retained ≤ length o.buf
      inside = omega (arith, valid.inside)

  -- A packet that fits behind the retained ones and is then retained joins them with the bytes of
  -- the packet, to be written from its start; the others keep theirs.
  pub retain-encode_packet :
      (v : VecOps) (kind : OpKind) (packet_id : ℕ)
      → length o.retained < max_retained
      → (len : ℕ) × ((encode_packet header fields o).1 ≡ ok len)
        × (packets (retain_packet v kind packet_id len (encode_packet header fields o).0).0
            ≡ packets o
              ++ ((
                record { kind = kind; packet_id = packet_id; len = len; state = write 0 },
                control_packet header content,
              )
                  ∷ []))
  unfolding retain_packet retained_pushed packets
  retain-encode_packet v kind packet_id free =
      let (tail, eq) = encode_packet-packed in
      (
        length (control_packet header content),
        ap (λ r. r.1) eq,
        ap
              (λ r.
                packets
                  (retain_packet v kind packet_id (length (control_packet header content)) r.0).0)
              eq
            ∙ ap (λ q. packets (retained_pushed (after tail) q).0)
                (v.vec_push_room max_retained entry o.retained free)
            ∙ retained_behind o.retained entry o.buf (control_packet header content) tail
                (omega (arith, valid.inside)) refl,
      )
    where
      after : List ℕ → Outbound
      after tail = record o {
        buf = take (total o.retained) o.buf ++ (control_packet header content ++ tail);
      }

      entry : RetainedPacket
      entry = record {
        kind = kind;
        packet_id = packet_id;
        len = length (control_packet header content);
        state = write 0;
      }
