-- ===== src/Reader/Fill/Delivery.antt =====
-- From a reset reader to the parsed packet: `fill_packet_reader`, then `take_packet`.
use minimq.Errors.{
  ProtocolError, disconnected, invalid_request, not_ready, peer, resource, transport, write_zero,
}
use minimq.Prelude.{
  List, Result, [], ap, arith, err, inl, length, ok, refl, some, suc, take, ℕ, ◌++◌, ◌>>=◌, ◌≡◌,
  ◌≤◌,
}
use minimq.Reader.{PacketReader, reset, take_packet}
use minimq.Reader.Fill.{Filled, fill_packet_reader}
use minimq.Reader.Fill.Stream.{Cut, Framed, Receives, fill-Framed}
use minimq.Reader.Framing.{packet_bytes}
use minimq.Transport.{Io, IsStream}
use minimq.Varint.{mqtt_varint_max}

module _ (io : Io) (s : IsStream io) {P : Type 0}
    (from_buffer : List ℕ → Result ProtocolError P) where
  open io use {Transport}

  -- The outcome of the fill loop, followed by `take_packet` where it succeeds: the parser is given
  -- the whole packet and nothing else, the reader is reset, and the rest of the stream is unread. It
  -- ends otherwise only with what the transport answered to a read inside the packet.
  abbrev pub Delivered : List ℕ → List ℕ → Filled io → Type 0
  Delivered packet rest (r, t, ok u) =
      (take_packet from_buffer r
        ≡ (reset r, (from_buffer packet >>= λ parsed. ok (length packet, parsed))))
      × (s.incoming t ≡ rest)
  Delivered packet rest (r, t, err (transport e)) = Cut io s packet rest r t (err e)
  Delivered packet rest (r, t, err disconnected) = Cut io s packet rest r t (ok [])
  Delivered packet rest (r, t, err e) = ⊥

  Framed-Delivered :
      (header : ℕ) (body rest : List ℕ) (f : Filled io)
      → Framed io s header body rest f
      → Delivered (packet_bytes header body) rest f
  unfolding take_packet
  Framed-Delivered header body rest (r, t, ok u) (front, known, n, tail) =
      (ground (arith, ap (λ k. take k r.buffer) n), tail)
  Framed-Delivered header body rest (r, t, err (transport e)) d = d
  Framed-Delivered header body rest (r, t, err disconnected) d = d
  Framed-Delivered header body rest (r, t, err not_ready) d = elim d [ ]
  Framed-Delivered header body rest (r, t, err invalid_request) d = elim d [ ]
  Framed-Delivered header body rest (r, t, err write_zero) d = elim d [ ]
  Framed-Delivered header body rest (r, t, err (peer e)) d = elim d [ ]
  Framed-Delivered header body rest (r, t, err (resource e)) d = elim d [ ]

  -- A reset reader with room for the packet at the front of the stream reads that packet and no
  -- byte behind it, however the transport cuts the stream into reads: the loop ends within as many
  -- rounds as the packet has bytes and one more, and `take_packet` then parses exactly the packet's
  -- bytes. The loop reports a failure of the transport, or that it is disconnected, only when a read
  -- of at least one byte inside the packet has failed, or has given no byte; nothing read is lost.
  pub fill-Delivered :
      (header : ℕ) (body rest : List ℕ) (r : PacketReader) (t : Transport)
      → length body ≤ mqtt_varint_max
      → length (packet_bytes header body) ≤ length r.buffer
      → s.incoming t ≡ packet_bytes header body ++ rest
      → (f : Filled io) × (fill_packet_reader io
            (suc (length (packet_bytes header body)))
            (reset r, t)
          ≡ some f)
        × Delivered (packet_bytes header body) rest f
  unfolding reset
  fill-Delivered header body rest r t fits room stream =
      let (f, e, framed) =
        fill-Framed io s header body rest fits (suc (length (packet_bytes header body))) (reset r) t
          start (omega arith) in
      (f, e, Framed-Delivered header body rest f framed)
    where
      start : Receives header body rest (reset r) (s.incoming t)
      start = record {
        holds = record { front = refl; bound = omega arith; room = room; known = inl refl };
        stream = stream;
      }
