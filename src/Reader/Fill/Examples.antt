-- ===== src/Reader/Fill/Examples.antt =====
-- Runs of the packet reader, and its theorem at a concrete transport.
-- A transport that holds the bytes to come and gives at most two of them at a time.
use minimq.Errors.{ProtocolError}
use minimq.Prelude.{
  List, Result, [], arith, drop, err, length, min, none, ok, refl, replicate, some, suc, take,
  take-append-drop, zero, ℕ, ◌++◌, ◌∷◌, ◌≡◌, ◌≤◌,
}
use minimq.Reader.{
  PacketReader, commit, new_reader, packet_available, probe_fixed_header, receive_buffer, reset,
}
use minimq.Reader.Fill.{Filled, deposit, fill_packet_reader, fill_round}
use minimq.Reader.Fill.Delivery.{Delivered, fill-Delivered}
use minimq.Transport.{Io, IsStream}
use minimq.Varint.{probe_mqtt_u32_varint, read_mqtt_u32_varint}
use minimq.Varint.Encode.{canonical}
use minimq.Errors.{malformed_packet}

stingy_read : List ℕ → ℕ → List ℕ × Result ℕ (List ℕ)
stingy_read bytes n = (drop (min n 2) bytes, ok (take (min n 2) bytes))

length-take-le : (n : ℕ) (xs : List ℕ) → length (take n xs) ≤ n
length-take-le zero xs = omega arith
length-take-le (suc n) [] = omega arith
length-take-le (suc n) (x ∷ xs) = omega (arith, length-take-le n xs)

stingy_read-le :
    (t t' : List ℕ) (n : ℕ) (bs : List ℕ) → stingy_read t n ≡ (t', ok bs) → length bs ≤ n
unfolding stingy_read
stingy_read-le t t' n bs e = ground (arith, length-take-le (min n 2) t)

stingy_write-le :
    (t t' bs : List ℕ) (n : ℕ)
    → Path (List ℕ × Result ℕ ℕ) (t, ok (length bs)) (t', ok n)
    → n ≤ length bs
stingy_write-le t t' bs n e = ground arith

abbrev stingy : Io
stingy = record {
  Transport = List ℕ;
  IoError = ℕ;
  read = stingy_read;
  write = λ t bs. (t, ok (length bs));
  flush = λ t. (t, ok tt);
  read-le = stingy_read-le;
  write-le = stingy_write-le;
}

stingy_read-incoming :
    (t t' : List ℕ) (n : ℕ) (bs : List ℕ) → stingy_read t n ≡ (t', ok bs) → t ≡ bs ++ t'
unfolding stingy_read
stingy_read-incoming t t' n bs e = ground (arith, take-append-drop (min n 2) t)

abbrev stingy_stream : IsStream stingy
stingy_stream = record { incoming = λ t. t; read-incoming = stingy_read-incoming }

abbrev small_reader : PacketReader
small_reader = new_reader (replicate 8 0)

-- A parser that keeps the bytes.
abbrev keep : List ℕ → Result ProtocolError (List ℕ)
keep bytes = ok bytes

abbrev suback : List ℕ
suback = 144 ∷ 3 ∷ 0 ∷ 7 ∷ 1 ∷ []

fill_suback :
    fill_packet_reader stingy 6 (small_reader, suback ++ (208 ∷ 0 ∷ []))
    ≡ some (
      record {
        buffer = 144 ∷ 3 ∷ 0 ∷ 7 ∷ 1 ∷ 0 ∷ 0 ∷ 0 ∷ [];
        read_bytes = 5;
        packet_length = some 5;
      },
      208 ∷ 0 ∷ [],
      ok tt,
    )
unfolding fill_packet_reader fill_round receive_buffer probe_fixed_header packet_available commit
    deposit stingy_read probe_mqtt_u32_varint read_mqtt_u32_varint new_reader
fill_suback = refl

-- A length that the buffer cannot hold is refused.
test_bad_data :
    (receive_buffer
      (record { buffer = 32 ∷ 153 ∷ 0 ∷ 0 ∷ []; read_bytes = 4; packet_length = none })).1
    ≡ err malformed_packet
unfolding receive_buffer probe_fixed_header probe_mqtt_u32_varint read_mqtt_u32_varint
test_bad_data = refl

fill-Delivered_example :
    (f : Filled stingy) × (fill_packet_reader stingy 6
        (reset small_reader, suback ++ (208 ∷ 0 ∷ []))
      ≡ some f)
    × Delivered stingy stingy_stream keep suback (208 ∷ 0 ∷ []) f
unfolding new_reader canonical
fill-Delivered_example =
    fill-Delivered stingy stingy_stream keep 144 (0 ∷ 7 ∷ 1 ∷ []) (208 ∷ 0 ∷ []) small_reader
      (suback ++ (208 ∷ 0 ∷ [])) (omega arith) (omega arith) refl
