-- ===== src/Properties/Block.antt =====
-- A property collection is read back as it was written.
use mathlib.Core.List.{append-nil, append_assoc}
use minimq.De.{
  bytes_left, deserialized_bytes, new_deserializer, read_as, read_then, read_varint,
  remaining_bytes, set_next_bytes_len, then_deserialize, try_take_n,
}
use minimq.De.Fields.{block_of, bytes_of_len, deserialize_block, deserialize_bytes, element_read}
use minimq.De.Reads.{Parses-try_take_n, Parses-varint, at}
use minimq.Errors.{bad_varint}
use minimq.Prelude.{
  All, List, Option, [], ap, arith, drop, drop-append_left, false, if◌then◌else◌, length,
  length-append, ltb, map, none, ok, refl, some, suc, sym, true, zero, ℕ, ◌%◌, ◌++◌, ◌-◌, ◌<◌, ◌^◌,
  ◌∙◌, ◌∷◌, ◌≡◌, ◌≤◌,
}
use minimq.Properties.{id_to_u32}
use minimq.Properties.Appends.{Appends, Appends-nothing, Appends-then, Appends-varint}
use minimq.Properties.Collection.{
  deserialize_properties, encoded_block, iter, iter_encoded, next_encoded, properties_size,
  serialize_block, serialize_collection, sizes, slice,
}
use minimq.Properties.Layout.{Writable, property_bytes, property_size-length, value_bytes}
use minimq.Properties.RoundTrip.{deserialize_property-Parses, serialize_property-Appends}
use minimq.Properties.Value.{Property, identifier}
use minimq.Properties.Write.{serialize_properties, serialize_property, serialize_varint}
use minimq.Ser.{and_then}
use minimq.Ser.Layout.{filled}
use minimq.Varint.{mqtt_varint_max}
use minimq.Varint.Encode.{canonical, length-canonical}

unfoldable pub block_bytes : List Property → List ℕ
unfolding property_bytes
block_bytes [] = []
block_bytes (p ∷ ps) = property_bytes p ++ block_bytes ps

pub length-block_bytes : (ps : List Property) → All Writable ps → length (block_bytes ps) ≡ sizes ps
unfolding block_bytes sizes
length-block_bytes [] h = refl
length-block_bytes (p ∷ ps) (h, hs) = omega (
  arith,
  length-append (property_bytes p) (block_bytes ps),
  property_size-length p h,
  length-block_bytes ps hs,
)

serialize_properties-Appends :
    (ps : List Property) → All Writable ps → Appends (serialize_properties ps) (block_bytes ps)
unfolding serialize_properties block_bytes
serialize_properties-Appends [] h b xs fits = Appends-nothing b xs fits
serialize_properties-Appends (p ∷ ps) (h, hs) b xs fits =
    Appends-then (serialize_property p) (serialize_properties ps) (property_bytes p)
      (block_bytes ps) (serialize_property-Appends p h) (serialize_properties-Appends ps hs) b xs
      fits

next_encoded-property :
    (p : Property) (rest : List ℕ)
    → Writable p
    → next_encoded (property_bytes p ++ rest) ≡ (ok p, length (property_bytes p))
unfolding next_encoded new_deserializer deserialized_bytes
next_encoded-property p rest h = rw (deserialize_property-Parses p h [] rest) refl

property_bytes_nonempty : (p : Property) → 0 < length (property_bytes p)
unfolding property_bytes
property_bytes_nonempty p = omega (
  arith,
  length-append (canonical 3 (id_to_u32 (identifier p))) (value_bytes p),
  length-canonical 3 (id_to_u32 (identifier p)),
)

iter_encoded-next :
    (rounds : ℕ) (bytes : List ℕ)
    → 0 < length bytes
    → iter_encoded (suc rounds) bytes
      ≡ (next_encoded bytes).0 ∷ iter_encoded rounds (drop (next_encoded bytes).1 bytes)
unfolding iter_encoded
iter_encoded-next rounds [] h = absurd (omega arith)
iter_encoded-next rounds (b ∷ bs) h = refl

iter_encoded-block :
    (rounds : ℕ) (ps : List Property)
    → All Writable ps
    → length (block_bytes ps) ≤ rounds
    → iter_encoded rounds (block_bytes ps) ≡ map ok ps
unfolding block_bytes
iter_encoded-block zero [] h enough = unfold iter_encoded in refl
iter_encoded-block (suc rounds) [] h enough = unfold iter_encoded in refl
iter_encoded-block zero (p ∷ ps) h enough =
    absurd
      (omega (arith, property_bytes_nonempty p, length-append (property_bytes p) (block_bytes ps)))
iter_encoded-block (suc rounds) (p ∷ ps) (h, hs) enough =
    let sum = length-append (property_bytes p) (block_bytes ps) in
    let some_bytes = property_bytes_nonempty p in
    iter_encoded-next rounds (property_bytes p ++ block_bytes ps) (omega (arith, sum, some_bytes))
    ∙ ap (λ r. r.0 ∷ iter_encoded rounds (drop r.1 (property_bytes p ++ block_bytes ps)))
        (next_encoded-property p (block_bytes ps) h)
    ∙ ap (λ l. ok p ∷ iter_encoded rounds l) (drop-append_left (property_bytes p) (block_bytes ps))
    ∙ ap (λ l. ok p ∷ l) (iter_encoded-block rounds ps hs (omega (arith, sum, some_bytes)))

-- The iterator over an encoded block yields exactly the properties that were written into it.
pub iter-block_bytes :
    (ps : List Property) → All Writable ps → iter (encoded_block (block_bytes ps)) ≡ map ok ps
unfolding iter
iter-block_bytes ps h = iter_encoded-block (length (block_bytes ps)) ps h (omega arith)

-- The size of the block, then the block.
abbrev pub collection_bytes : List Property → List ℕ
collection_bytes ps = canonical 3 (length (block_bytes ps)) ++ block_bytes ps

pub serialize_collection-Appends :
    (ps : List Property)
    → All Writable ps
    → length (block_bytes ps) ≤ mqtt_varint_max
    → Appends (serialize_collection (slice ps)) (collection_bytes ps)
unfolding serialize_collection serialize_block properties_size
serialize_collection-Appends ps h small b xs fits =
    ap (λ n. and_then (serialize_varint n) (serialize_properties ps) (filled b xs)) announced
    ∙ Appends-then (serialize_varint (length (block_bytes ps))) (serialize_properties ps)
        (canonical 3 (length (block_bytes ps))) (block_bytes ps)
        (Appends-varint (length (block_bytes ps)) small) (serialize_properties-Appends ps h) b xs
        fits
  where
    announced : sizes ps % 2 ^ 32 ≡ length (block_bytes ps)
    announced = omega (arith, length-block_bytes ps h, small)

-- An empty block leaves its length to the next binary field.
abbrev pub left_length : ℕ → Option ℕ
left_length n = if ltb 0 n then none else some 0

block_of-read :
    (front block rest : List ℕ)
    → block_of (length block) (at front (block ++ rest)) ≡ (
      record (at (front ++ block) rest) { next_bytes_len = left_length (length block) },
      ok block,
    )
unfolding block_of set_next_bytes_len element_read deserialize_bytes bytes_of_len read_then
    then_deserialize bytes_left
block_of-read front [] rest = λ i. (
  record {
    buf = sym (append_assoc front [] rest) i;
    index = sym (ap length (append-nil front)) i;
    next_bytes_len = some 0;
  },
  ok [],
)
block_of-read front (b ∷ bs) rest =
    let block = b ∷ bs in
    let before = length (front ++ (block ++ rest)) - length front in
    let longer : ltb 0 (length block) ≡ true = ground arith in
    let started : block_of (length block) (at front (block ++ rest))
        ≡ then_deserialize (element_read (length block) before)
            (try_take_n (length block) (at front (block ++ rest))) =
      rw longer refl in
    started
    ∙ ap (then_deserialize (element_read (length block) before))
        (Parses-try_take_n (length block) block refl front rest)
    ∙ rw (used before refl, longer) refl
  where
    used :
        (before : ℕ)
        → before ≡ length (front ++ ((b ∷ bs) ++ rest)) - length front
        → ltb
            (length (b ∷ bs))
            (before - (length ((front ++ (b ∷ bs)) ++ rest) - length (front ++ (b ∷ bs))))
          ≡ false
    used before e = ground (
      arith,
      e,
      length-append front ((b ∷ bs) ++ rest),
      length-append bs rest,
      length-append (front ++ (b ∷ bs)) rest,
      length-append front (b ∷ bs),
    )

deserialize_block-read :
    (front block rest : List ℕ)
    → length block ≤ mqtt_varint_max
    → deserialize_block (at front ((canonical 3 (length block) ++ block) ++ rest)) ≡ (
      record (at (front ++ (canonical 3 (length block) ++ block)) rest) {
        next_bytes_len = left_length (length block);
      },
      ok block,
    )
unfolding deserialize_block read_varint read_then then_deserialize
deserialize_block-read front block rest small =
    let size = canonical 3 (length block) in
    ap (λ l. then_deserialize block_of (read_varint (at front l))) (append_assoc size block rest)
    ∙ ap (then_deserialize block_of)
        (Parses-varint bad_varint (length block) small front (block ++ rest))
    ∙ block_of-read (front ++ size) block rest
    ∙ ap (λ l. (record (at l rest) { next_bytes_len = left_length (length block) }, ok block))
        (append_assoc front size block)

pub deserialize_properties-read :
    (ps : List Property) (front rest : List ℕ)
    → length (block_bytes ps) ≤ mqtt_varint_max
    → deserialize_properties (at front (collection_bytes ps ++ rest)) ≡ (
      record (at (front ++ collection_bytes ps) rest) {
        next_bytes_len = left_length (length (block_bytes ps));
      },
      ok (encoded_block (block_bytes ps)),
    )
unfolding deserialize_properties read_as read_then then_deserialize
deserialize_properties-read ps front rest small =
    ap (then_deserialize (λ x d. (d, ok (encoded_block x))))
      (deserialize_block-read front (block_bytes ps) rest small)

-- Properties that can be written, in a block of at most 28 bits of length: where there is room,
-- their collection is written as the size of the block and the block; from those bytes, wherever
-- they stand and whatever follows, a collection is read that holds the block and whose iterator
-- yields the properties, and what follows is left to be read.
pub collection-round_trip :
    (ps : List Property) (front rest : List ℕ)
    → All Writable ps
    → length (block_bytes ps) ≤ mqtt_varint_max
    → Appends (serialize_collection (slice ps)) (collection_bytes ps)
      × ((deserialize_properties (at front (collection_bytes ps ++ rest))).1
          ≡ ok (encoded_block (block_bytes ps)))
      × (remaining_bytes (deserialize_properties (at front (collection_bytes ps ++ rest))).0 ≡ rest)
      × (iter (encoded_block (block_bytes ps)) ≡ map ok ps)
unfolding remaining_bytes
collection-round_trip ps front rest h small =
    let read = deserialize_properties-read ps front rest small in
    (
      serialize_collection-Appends ps h small,
      ap (λ r. r.1) read,
      ap (λ r. remaining_bytes r.0) read ∙ drop-append_left (front ++ collection_bytes ps) rest,
      iter-block_bytes ps h,
    )
