-- ===== src/Connection/Decoded.antt =====
-- What is announced to the application can be decoded again.
use mathlib.Core.Path.{subst}
use minimq.Connection.{ConnectionState, with_client}
use minimq.Connection.Announced.{Silent, announced}
use minimq.Connection.Receive.{
  decode_inbound_publish, inbound_of, packet_handled, packet_taken, process_received_packet,
  publish_only,
}
use minimq.Errors.{ProtocolError}
use minimq.Outbound.{VecOps}
use minimq.Prelude.{
  Bool, Bool-cases, Option, Result, ap, arith, err, false, if◌then◌else◌, inl, inr, leb, leb→le,
  length, none, ok, refl, some, sym, take, true, ℕ, ◌>>=◌, ◌∙◌, ◌≡◌, ◌≤◌,
}
use minimq.Reader.{PacketReader, packet_available, reset, take_packet}
use minimq.Received.{Publish, ReceivedPacket, handled}
use minimq.Received.Parse.{from_buffer}
use minimq.Session.Inbound.{Handled, handle_packet}
use minimq.Staging.Rules.{parsed}
use minimq.Transport.{Io}

available :
    (r : PacketReader)
    → packet_available r ≡ true
    → (len : ℕ) × (r.packet_length ≡ some len) × (len ≤ r.read_bytes)
unfolding packet_available
available r = through r.packet_length
  where
    through :
        (o : Option ℕ)
        → elim o [ none ↦ false | some len ↦ leb len r.read_bytes ] ≡ true
        → (len : ℕ) × (o ≡ some len) × (len ≤ r.read_bytes)
    through none e = absurd (ground arith)
    through (some len) e = (len, refl, leb→le len r.read_bytes e)

take_packet-known :
    (r : PacketReader) (len : ℕ)
    → r.packet_length ≡ some len
    → take_packet from_buffer r
      ≡ (reset r, do packet ← from_buffer (take len r.buffer); ok (len, packet))
unfolding take_packet
take_packet-known r len e =
    ap
      (λ o. elim o [
        | none ↦ (r, err ProtocolError.malformed_packet)
        | some n ↦ (reset r, do packet ← from_buffer (take n r.buffer); ok (n, packet))
      ])
      e

not-Silent : (h : Handled) → h.1 ≡ ok true → Silent h.1 → ⊥
not-Silent (client, ok true) e s = s
not-Silent (client, ok false) e s = cc
not-Silent (client, err x) e s = cc

module _ (v : VecOps) {io : Io} where
  handled_announces :
      (c : ConnectionState io) (len' len : ℕ) (h : Handled)
      → (packet_handled c len' h).1 ≡ ok (some len)
      → (len' ≡ len) × (h.1 ≡ ok true) × ((packet_handled c len' h).0.reader ≡ c.reader)
  unfolding packet_handled with_client
  handled_announces c len' len (client, ok true) e = (cc, refl, refl)
  handled_announces c len' len (client, ok false) e = absurd (cc)
  handled_announces c len' len (client, err x) e = absurd (cc)

  taken_announces :
      (c : ConnectionState io) (r : PacketReader) (len' len : ℕ)
      (x : Result ProtocolError ReceivedPacket)
      → (packet_taken v c (r, do packet ← x; ok (len', packet))).1 ≡ ok (some len)
      → (m : Publish) × (x ≡ ok (ReceivedPacket.publish m))
        × (len' ≡ len)
        × ((packet_taken v c (r, do packet ← x; ok (len', packet))).0.reader ≡ r)
  unfolding packet_taken
  taken_announces c r len' len (err x) e = absurd (cc)
  taken_announces c r len' len (ok p) e =
      let (same, yes_true, kept) =
        handled_announces (record c { reader = r }) len' len (handle_packet v c.client (handled p))
          e in
      elim (announced v c.client p) [
        | inl s ↦ absurd (not-Silent (handle_packet v c.client (handled p)) yes_true s)
        | inr (m, is) ↦ (m, ap ok is, same, kept)
      ]

decoded :
    (r : PacketReader) (len : ℕ) (m : Publish)
    → len ≤ length r.buffer
    → from_buffer (take len r.buffer) ≡ ok (ReceivedPacket.publish m)
    → decode_inbound_publish (reset r) len ≡ ok (inbound_of m)
unfolding decode_inbound_publish reset publish_only
decoded r len m fits parsed =
    ap
      (λ b.
        if b
        then from_buffer (take len r.buffer) >>= publish_only
        else err ProtocolError.malformed_packet)
      within
    ∙ ap (λ x. x >>= publish_only) parsed
  where
    within : leb len (length r.buffer) ≡ true
    within = ground arith

-- When processing the packet in the reader announces a publication of some length, the bytes of
-- that length in the reader are a PUBLISH, they are still there afterwards, and decoding them gives
-- its topic, payload, properties and flags: the second parse never fails.
pub process-decode :
    (v : VecOps) (io : Io) (c : ConnectionState io) (len : ℕ)
    → c.reader.read_bytes ≤ length c.reader.buffer
    → (process_received_packet v c).1 ≡ ok (some len)
    → (m : Publish) × (from_buffer (take len c.reader.buffer) ≡ ok (ReceivedPacket.publish m))
      × (decode_inbound_publish (process_received_packet v c).0.reader len ≡ ok (inbound_of m))
process-decode v io c len inside e = elim (Bool-cases (packet_available c.reader)) [
  | inr missing ↦ absurd (nothing missing)
  | inl held ↦
      let (len', known, le) = available c.reader held in
      let taken =
        process_as true held ∙ ap (packet_taken v c) (take_packet-known c.reader len' known) in
      let (m, parsed, same, kept) =
        taken_announces v c (reset c.reader) len' len (from_buffer (take len' c.reader.buffer))
          (sym (ap (λ r. r.1) taken) ∙ e) in
      let parsed_len : from_buffer (take len c.reader.buffer) ≡ ok (ReceivedPacket.publish m) =
        subst (λ n. from_buffer (take n c.reader.buffer) ≡ ok (ReceivedPacket.publish m)) same
          parsed in
      (
        m,
        parsed_len,
        ap (λ r. decode_inbound_publish r.0.reader len) taken
            ∙ ap (λ r. decode_inbound_publish r len) kept
            ∙ decoded c.reader len m (omega (arith, same, le, inside)) parsed_len,
      )
]
  where
    process_as :
        (b : Bool)
        → packet_available c.reader ≡ b
        → process_received_packet v c
          ≡ (if b then packet_taken v c (take_packet from_buffer c.reader) else (c, ok none))
    process_as b e =
        unfold process_received_packet in
        ap (λ a. if a then packet_taken v c (take_packet from_buffer c.reader) else (c, ok none)) e

    nothing : packet_available c.reader ≡ false → ⊥
    nothing none_there =
        let silent : (process_received_packet v c).1 ≡ ok none =
          ap (λ r. r.1) (process_as false none_there) in
        cc
