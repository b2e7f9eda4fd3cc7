-- ===== src/De/Strings.antt =====
-- Text, binary data and property blocks, read wherever they stand.
use minimq.De.{read_then, read_u16, then_deserialize, try_take_n}
use minimq.De.Fields.{bytes_of_len, checked_str, deserialize_bytes, deserialize_str, is_utf8}
use minimq.De.Reads.{Parses, Parses-then, Parses-try_take_n, Parses-u16}
use minimq.Prelude.{List, [], ap, length, refl, true, ℕ, ◌%◌, ◌/◌, ◌∙◌, ◌∷◌, ◌≡◌}

-- A length in two bytes, then the bytes.
abbrev pub prefixed : List ℕ → List ℕ
prefixed v = length v / 256 ∷ length v % 256 ∷ v

-- Text in UTF-8.
pub Parses-str : (text : List ℕ) → is_utf8 text ≡ true → Parses deserialize_str (prefixed text) text
unfolding deserialize_str read_then then_deserialize checked_str
Parses-str text valid front rest =
    Parses-then read_u16 (λ len. read_then (try_take_n len) checked_str)
      (length text / 256 ∷ length text % 256 ∷ []) text (length text) text
      (Parses-u16 (length text)) checked front rest
  where
    checked : Parses (read_then (try_take_n (length text)) checked_str) text text
    checked front' rest' =
        ap (then_deserialize checked_str) (Parses-try_take_n (length text) text refl front' rest')
        ∙ rw valid refl

pub Parses-bytes : (bytes : List ℕ) → Parses deserialize_bytes (prefixed bytes) bytes
unfolding deserialize_bytes bytes_of_len
Parses-bytes bytes front rest =
    Parses-then read_u16 try_take_n (length bytes / 256 ∷ length bytes % 256 ∷ []) bytes
      (length bytes) bytes (Parses-u16 (length bytes)) (Parses-try_take_n (length bytes) bytes refl)
      front rest
