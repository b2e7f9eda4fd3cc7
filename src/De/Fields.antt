-- ===== src/De/Fields.antt =====
-- minimq/src/de/deserializer.rs: the serde methods that the packets use. minimq/src/wire.rs: strings
-- and binary data.
use minimq.De.{
  Deserialize, bytes_left, pop, read_as, read_then, read_u16, read_varint, set_next_bytes_len,
  try_take_n,
}
use minimq.Errors.{bad_bool, bad_string, insufficient_data}
use minimq.Prelude.{
  Bool, List, Option, [], err, false, if◌then◌else◌, leb, ltb, none, ok, some, true, ℕ, ◌&&◌, ◌-◌,
  ◌==◌, ◌∷◌,
}

abbrev tail_range : ℕ × ℕ
tail_range = (128, 191)

-- The bytes that may follow a lead byte of UTF-8, each with its range.
lead_ranges : ℕ → Option (List (ℕ × ℕ))
lead_ranges b =
    if ltb b 128
    then some []
    else if ltb b 194
    then none
    else if ltb b 224
    then some (tail_range ∷ [])
    else if b == 224
    then some ((160, 191) ∷ tail_range ∷ [])
    else if b == 237
    then some ((128, 159) ∷ tail_range ∷ [])
    else if ltb b 240
    then some (tail_range ∷ tail_range ∷ [])
    else if b == 240
    then some ((144, 191) ∷ tail_range ∷ tail_range ∷ [])
    else if ltb b 244
    then some (tail_range ∷ tail_range ∷ tail_range ∷ [])
    else if b == 244
    then some ((128, 143) ∷ tail_range ∷ tail_range ∷ [])
    else none

-- `core::str::from_utf8` succeeds, with the ranges that are still due.
utf8_from : List (ℕ × ℕ) → List ℕ → Bool
unfolding lead_ranges
utf8_from [] [] = true
utf8_from (r ∷ rs) [] = false
utf8_from [] (b ∷ bs) = elim (lead_ranges b) [ none ↦ false | some rs ↦ utf8_from rs bs ]
utf8_from ((low, high) ∷ rs) (b ∷ bs) = leb low b && (leb b high && utf8_from rs bs)

unfoldable pub is_utf8 : List ℕ → Bool
unfolding utf8_from
is_utf8 bytes = utf8_from [] bytes

unfoldable pub checked_str : List ℕ → Deserialize (List ℕ)
unfolding is_utf8
checked_str bytes d = (d, if is_utf8 bytes then ok bytes else err bad_string)

-- `Utf8String`.
unfoldable pub deserialize_str : Deserialize (List ℕ)
unfolding read_then read_u16 try_take_n checked_str
deserialize_str = read_then read_u16 (λ len. read_then (try_take_n len) checked_str)

unfoldable pub bytes_of_len : Option ℕ → Deserialize (List ℕ)
unfolding read_then read_u16 try_take_n
bytes_of_len (some len) d = try_take_n len (record d { next_bytes_len = none })
bytes_of_len none d = read_then read_u16 try_take_n d

-- `BinaryData`, and the block of a property collection.
unfoldable pub deserialize_bytes : Deserialize (List ℕ)
unfolding bytes_of_len
deserialize_bytes d = bytes_of_len d.next_bytes_len d

unfoldable pub as_bool : ℕ → Deserialize Bool
as_bool value d = (d, if value == 0 then ok false else if value == 1 then ok true else err bad_bool)

unfoldable pub deserialize_bool : Deserialize Bool
unfolding read_then pop as_bool
deserialize_bool = read_then pop as_bool

-- Nothing left is `None`.
unfoldable pub deserialize_option : {A : Type 0} → Deserialize A → Deserialize (Option A)
unfolding read_as bytes_left
deserialize_option m d = if bytes_left d == 0 then (d, ok none) else read_as some m d

-- What is left of a sequence of `len` bytes after an element; its binary length is forgotten.
unfoldable pub element_read : ℕ → ℕ → List ℕ → Deserialize (List ℕ)
unfolding bytes_left
element_read len before block d =
    if ltb len (before - bytes_left d)
    then (d, err insufficient_data)
    else (record d { next_bytes_len = none }, ok block)

unfoldable pub block_of : ℕ → Deserialize (List ℕ)
unfolding set_next_bytes_len read_then deserialize_bytes element_read bytes_left
block_of len d =
    let d' = set_next_bytes_len len d in
    if ltb 0 len
    then read_then deserialize_bytes (element_read len (bytes_left d')) d'
    else (d', ok [])

-- `Properties::deserialize`: one element of a sequence, the encoded block; none is an empty block.
unfoldable pub deserialize_block : Deserialize (List ℕ)
unfolding read_then read_varint block_of
deserialize_block = read_then read_varint block_of
