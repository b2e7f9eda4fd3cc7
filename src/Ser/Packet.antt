-- ===== src/Ser/Packet.antt =====
-- The finished packet: the fixed header, the length of the fields, and the fields.
-- The bytes of a control packet with this first byte and these fields.
use mathlib.Core.List.{append_assoc}
use mathlib.Core.Path.{ap₂}
use minimq.Prelude.{
  List, [], ap, arith, drop, drop-append_left, false, length, length-append, length-drop,
  length-take_le, ltb, ok, set, set-append, split_at, sym, take, take-append_left, take-take,
  write_at, write_at_middle, ℕ, ◌%◌, ◌++◌, ◌+◌, ◌-◌, ◌<◌, ◌^◌, ◌∙◌, ◌∷◌, ◌≡◌, ◌≤◌,
}
use minimq.Ser.{
  Encoded, Serialize, encode_packet_bytes, encode_with_offset, finalize, finalize_after,
  new_serializer, put_header, slice_of,
}
use minimq.Ser.Layout.{filled, length-filled}
use minimq.Varint.{mqtt_varint_max}
use minimq.Varint.Encode.{canonical, length-canonical, write-canonical}

abbrev pub control_packet : ℕ → List ℕ → List ℕ
control_packet header content = header ∷ (canonical 3 (length content) ++ content)

-- The buffer in which the packet is finished: the packet ends where the fields end.
finished : ℕ → List ℕ → List ℕ → List ℕ → List ℕ
finished header b remaining_len content =
    take (4 - length remaining_len) b
    ++ (header ∷ (remaining_len ++ (content ++ drop (5 + length content) b)))

put_header-finished :
    (header : ℕ) (b rl content : List ℕ)
    → 5 ≤ length b
    → 0 < length rl
    → length rl ≤ 4
    → set (write_at (5 - length rl) rl (filled b content).buf) (5 - length rl - 1) header
      ≡ finished header b rl content
unfolding filled finished
put_header-finished header b rl content h pos le =
    ap (λ l. set l (5 - length rl - 1) header)
      (ap (write_at (5 - length rl) rl) cut
        ∙ write_at_middle (front ++ (x ∷ [])) old rl rest (5 - length rl) at same
        ∙ append_assoc front (x ∷ []) (rl ++ rest))
    ∙ ap (λ n. set (front ++ (x ∷ (rl ++ rest))) n header) last
    ∙ set-append front (rl ++ rest) x header
  where
    front : List ℕ
    front = take (4 - length rl) b

    rest : List ℕ
    rest = content ++ drop (5 + length content) b

    five : length (take 5 b) ≡ 5
    five = length-take_le 5 b h

    parts : (x : ℕ) × (old : List ℕ) × (take 5 b ≡ take (4 - length rl) (take 5 b) ++ (x ∷ old))
    parts = split_at (4 - length rl) (take 5 b) (omega (arith, five))

    x : ℕ
    x = parts.0

    old : List ℕ
    old = parts.1

    whole : take 5 b ≡ front ++ (x ∷ old)
    whole = parts.2 ∙ ap (λ l. l ++ (x ∷ old)) (take-take (4 - length rl) 5 b (omega arith))

    front_size : length front ≡ 4 - length rl
    front_size = length-take_le (4 - length rl) b (omega arith)

    same : length rl ≡ length old
    same = omega (arith, ap length whole, length-append front (x ∷ old), front_size, five)

    at : 5 - length rl ≡ length (front ++ (x ∷ []))
    at = omega (arith, length-append front (x ∷ []), front_size)

    last : 5 - length rl - 1 ≡ length front
    last = omega (arith, front_size)

    cut : take 5 b ++ rest ≡ (front ++ (x ∷ [])) ++ (old ++ rest)
    cut =
        ap (λ l. l ++ rest) whole
        ∙ append_assoc front (x ∷ old) rest
        ∙ sym (append_assoc front (x ∷ []) (old ++ rest))

finished_slice :
    (header : ℕ) (b rl content : List ℕ)
    → 5 ≤ length b
    → length rl ≤ 4
    → take (1 + length rl + length content) (drop (4 - length rl) (finished header b rl content))
      ≡ header ∷ (rl ++ content)
unfolding finished
finished_slice header b rl content h le =
    ap (λ n. take (1 + length rl + length content) (drop n (front ++ body))) (sym front_size)
    ∙ ap (take (1 + length rl + length content)) (drop-append_left front body)
    ∙ ap₂ take size (ap (◌∷◌ header) (sym (append_assoc rl content tail)))
    ∙ take-append_left (header ∷ (rl ++ content)) tail
  where
    front : List ℕ
    front = take (4 - length rl) b

    tail : List ℕ
    tail = drop (5 + length content) b

    body : List ℕ
    body = header ∷ (rl ++ (content ++ tail))

    front_size : length front ≡ 4 - length rl
    front_size = length-take_le (4 - length rl) b (omega arith)

    size : 1 + length rl + length content ≡ length (header ∷ (rl ++ content))
    size = omega (arith, length-append rl content)

length-finished :
    (header : ℕ) (b rl content : List ℕ)
    → 5 + length content ≤ length b
    → 0 < length rl
    → length rl ≤ 4
    → length (finished header b rl content) ≡ length b
unfolding finished
length-finished header b rl content h pos le = omega (
  arith,
  length-append (take (4 - length rl) b)
      (header ∷ (rl ++ (content ++ drop (5 + length content) b))),
  length-append rl (content ++ drop (5 + length content) b),
  length-append content (drop (5 + length content) b),
  length-take_le (4 - length rl) b (omega arith),
  length-drop (5 + length content) b,
)

-- The start and the length of the finished packet.
place : List ℕ → List ℕ → Encoded
place rl content = record { offset = 4 - length rl; len = 1 + length rl + length content }

put_header-filled :
    (header : ℕ) (b rl content : List ℕ)
    → 5 + length content ≤ length b
    → 0 < length rl
    → length rl ≤ 4
    → put_header header rl (filled b content)
      ≡ (finished header b rl content, ok (place rl content))
unfolding put_header place
put_header-filled header b rl content h pos le =
    rw (room, put_header-finished header b rl content (omega arith) pos le)
      (λ i. (finished header b rl content, ok (record { offset = start i; len = size i })))
  where
    room : ltb (length (filled b content).buf) 5 ≡ false
    room = ground (arith, length-filled b content h)

    start : 5 - length rl - 1 ≡ 4 - length rl
    start = omega arith

    size : (filled b content).index - (5 - length rl - 1) ≡ 1 + length rl + length content
    size = unfold filled in omega arith

finalize-filled :
    (header : ℕ) (b content : List ℕ)
    → 5 + length content ≤ length b
    → length content ≤ mqtt_varint_max
    → finalize header (filled b content) ≡ (
      finished header b (canonical 3 (length content)) content,
      ok (place (canonical 3 (length content)) content),
    )
unfolding finalize
finalize-filled header b content h small =
    let (buffer, w, s) = write-canonical (length content) small in
    let (most, least) = length-canonical 3 (length content) in
    rw (long, remaining, w, s)
      (put_header-filled header b (canonical 3 (length content)) content h least most)
  where
    long : ltb (filled b content).index 5 ≡ false
    long = unfold filled in ground arith

    remaining : ((filled b content).index - 5) % 2 ^ 32 ≡ length content
    remaining = unfold filled in omega arith

-- The fields are written as `content`.
abbrev pub Emits : Serialize → List ℕ → List ℕ → Type 0
Emits fields content b = fields (new_serializer b) ≡ (filled b content, ok tt)

-- Fields that are shorter than 2^28 bytes and fit the buffer behind the room for the header give a
-- packet that is the header byte, the length of the fields in its canonical encoding and the fields;
-- it ends where the fields end, and the buffer keeps its size.
pub encode-control_packet :
    (header : ℕ) (fields : Serialize) (content b : List ℕ)
    → Emits fields content b
    → 5 + length content ≤ length b
    → length content ≤ mqtt_varint_max
    → (b' : List ℕ) × (e : Encoded) × (encode_with_offset header fields b ≡ (b', ok e))
      × (take e.len (drop e.offset b') ≡ control_packet header content)
      × (e.len ≡ length (control_packet header content))
      × (e.offset + e.len ≡ 5 + length content)
      × (length b' ≡ length b)
unfolding encode_with_offset place
encode-control_packet header fields content b emits fits small =
    let rl = canonical 3 (length content) in
    let (most, least) = length-canonical 3 (length content) in
    (
      finished header b rl content,
      place rl content,
      ap (finalize_after header) emits ∙ finalize-filled header b content fits small,
      finished_slice header b rl content (omega arith) most,
      omega (arith, length-append rl content),
      omega arith,
      length-finished header b rl content fits least most,
    )

pub encode_packet_bytes-control_packet :
    (header : ℕ) (fields : Serialize) (content b : List ℕ)
    → Emits fields content b
    → 5 + length content ≤ length b
    → length content ≤ mqtt_varint_max
    → encode_packet_bytes header fields b ≡ ok (control_packet header content)
unfolding encode_packet_bytes slice_of
encode_packet_bytes-control_packet header fields content b emits fits small =
    let (b', e, eq, bytes, size, end, whole) =
      encode-control_packet header fields content b emits fits small in
    ap slice_of eq ∙ ap ok bytes
