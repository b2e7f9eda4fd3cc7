-- ===== src/Ser/Examples.antt =====
-- Runs of the theorem on the serializer.
use minimq.Errors.{custom}
use minimq.Prelude.{
  List, Result, [], arith, drop, err, length, ok, refl, replicate, take, ℕ, ◌++◌, ◌+◌, ◌<◌, ◌∷◌,
  ◌≡◌, ◌≤◌,
}
use minimq.Properties.Appends.{fields-prefixed}
use minimq.Properties.Write.{serialize_binary}
use minimq.Ser.{Encoded, encode_with_offset, new_serializer, push_bytes}
use minimq.Ser.Fields.{serialize_prefixed}
use minimq.Ser.Layout.{filled}
use minimq.Ser.Packet.{Emits, control_packet, encode-control_packet}
use minimq.Ser.Publish.{encode_publish-control_packet, encode_publish_with_offset}

abbrev fields_buffer : List ℕ
fields_buffer = replicate 10 0

two_bytes : Emits (push_bytes (7 ∷ 9 ∷ [])) (7 ∷ 9 ∷ []) fields_buffer
unfolding push_bytes new_serializer filled
two_bytes = refl

encode-control_packet_example :
    (b' : List ℕ) × (e : Encoded) × (encode_with_offset 64 (push_bytes (7 ∷ 9 ∷ [])) fields_buffer
      ≡ (b', ok e))
    × (take e.len (drop e.offset b') ≡ control_packet 64 (7 ∷ 9 ∷ []))
    × (e.len ≡ length (control_packet 64 (7 ∷ 9 ∷ [])))
    × (e.offset + e.len ≡ 7)
    × (length b' ≡ length fields_buffer)
encode-control_packet_example =
    encode-control_packet 64 (push_bytes (7 ∷ 9 ∷ [])) (7 ∷ 9 ∷ []) fields_buffer two_bytes
      (omega arith) (omega arith)

-- A payload of one byte behind a field of two.
abbrev one_byte : List ℕ → List ℕ × Result ℕ ℕ
one_byte b = ((5 ∷ []) ++ drop 1 b, ok 1)

encode_publish-control_packet_example :
    (b' : List ℕ) × (e : Encoded) × (encode_publish_with_offset 48
        (push_bytes (7 ∷ 9 ∷ []))
        one_byte
        fields_buffer
      ≡ (b', ok e))
    × (take e.len (drop e.offset b') ≡ control_packet 48 (7 ∷ 9 ∷ 5 ∷ []))
    × (e.offset + e.len ≡ 8)
    × (length b' ≡ length fields_buffer)
encode_publish-control_packet_example =
    encode_publish-control_packet 48 (push_bytes (7 ∷ 9 ∷ [])) one_byte (7 ∷ 9 ∷ []) (5 ∷ [])
      fields_buffer two_bytes refl (omega arith) (omega arith)

fields-prefixed_example :
    (2 ≤ 65535
      → 5 + 1 + (2 + 2) ≤ 10
      → (serialize_prefixed (65 ∷ 66 ∷ []) (filled fields_buffer (1 ∷ []))
          ≡ (filled fields_buffer ((1 ∷ []) ++ (0 ∷ 2 ∷ 65 ∷ 66 ∷ [])), ok tt))
        × (serialize_binary (65 ∷ 66 ∷ []) (filled fields_buffer (1 ∷ []))
            ≡ (filled fields_buffer ((1 ∷ []) ++ (0 ∷ 2 ∷ 65 ∷ 66 ∷ [])), ok tt)))
    × (65535 < 2
        → (serialize_prefixed (65 ∷ 66 ∷ []) (new_serializer []) ≡ (new_serializer [], err custom))
          × (serialize_binary (65 ∷ 66 ∷ []) (new_serializer []) ≡ (new_serializer [], err custom)))
fields-prefixed_example = fields-prefixed fields_buffer (1 ∷ []) (65 ∷ 66 ∷ []) (new_serializer [])
