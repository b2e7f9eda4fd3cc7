-- ===== src/Reader/Fill/Stream.antt =====
-- The fill loop over a reliable stream: it hands over the packet at the front and nothing more.
-- The bytes that are read so far and those to come are the packet and what follows it.
use mathlib.Core.List.{append_assoc}
use mathlib.Core.Path.{subst}
use minimq.De.Reads.{at}
use minimq.Errors.{ProtocolError, disconnected, transport}
use minimq.Prelude.{
  Bool-cases, List, Result, [], ap, arith, drop, err, false, inl, inr, leb, leb→le, length,
  length-append, length-drop, length-take_le, ok, refl, some, suc, sym, take, take-append_le,
  take-append_left, take_all, true, zero, ℕ, ◌++◌, ◌+◌, ◌-◌, ◌<◌, ◌==◌, ◌∙◌, ◌∷◌, ◌≡◌, ◌≤◌,
}
use minimq.Reader.{PacketReader, commit, packet_available, receive_buffer}
use minimq.Reader.Fill.{
  Filled, Filling, Turn, again, deposit, fill_packet_reader, fill_read, fill_round, fill_window,
  stop,
}
use minimq.Reader.Framing.{Holds, Windowed, packet_bytes, receive_buffer-Windowed}
use minimq.Received.Acks.{answer}
use minimq.Transport.{Io, IsStream}
use minimq.Varint.{mqtt_varint_max}

pub record Receives (header : ℕ) (body rest : List ℕ) (r : PacketReader) (to_come : List ℕ)
    : Type 0 where
  pub holds : Holds header body r
  pub stream : take r.read_bytes r.buffer ++ to_come ≡ packet_bytes header body ++ rest

-- A front part of a concatenation that is no longer than its first half.
front_of :
    (xs ys ps qs : List ℕ) → xs ++ ys ≡ ps ++ qs → length xs ≤ length ps → xs ≡ take (length xs) ps
front_of xs ys ps qs e h =
    sym (take-append_left xs ys) ∙ ap (take (length xs)) e ∙ take-append_le (length xs) ps qs h

-- What stands in the buffer up to the new end of the bytes read.
deposit_front :
    (r : PacketReader) (bs : List ℕ)
    → r.read_bytes ≤ length r.buffer
    → take (r.read_bytes + length bs) (deposit r bs).buffer ≡ take r.read_bytes r.buffer ++ bs
unfolding deposit
deposit_front r bs h =
    let n = length-take_le r.read_bytes r.buffer h in
    let m : length (take r.read_bytes r.buffer ++ bs) ≡ r.read_bytes + length bs =
      omega (arith, length-append (take r.read_bytes r.buffer) bs, n) in
    ap
      (λ k. take k (take r.read_bytes r.buffer ++ (bs ++ drop (r.read_bytes + length bs) r.buffer)))
      (sym m)
    ∙ ap (take (length (take r.read_bytes r.buffer ++ bs))) (
        sym
          (append_assoc (take r.read_bytes r.buffer) bs (drop (r.read_bytes + length bs) r.buffer)))
    ∙ take-append_left (take r.read_bytes r.buffer ++ bs) _

deposit-length :
    (r : PacketReader) (bs : List ℕ)
    → r.read_bytes + length bs ≤ length r.buffer
    → length (deposit r bs).buffer ≡ length r.buffer
unfolding deposit
deposit-length r bs h = omega (
  arith,
  length-append (take r.read_bytes r.buffer) (bs ++ drop (r.read_bytes + length bs) r.buffer),
  length-append bs (drop (r.read_bytes + length bs) r.buffer),
  length-take_le r.read_bytes r.buffer (omega arith),
  length-drop (r.read_bytes + length bs) r.buffer,
)

-- A read into the window keeps the relation.
Receives-deposit :
    (header : ℕ) (body rest : List ℕ) (r : PacketReader) (bs to_come : List ℕ)
    → Receives header body rest r (bs ++ to_come)
    → r.read_bytes + length bs ≤ length (packet_bytes header body)
    → Receives header body rest (commit (deposit r bs) (length bs)) to_come
unfolding commit deposit
Receives-deposit header body rest r bs to_come v le = record {
  holds = record {
    front = shown ∙ front ∙ ap (λ n. take n (packet_bytes header body)) size;
    bound = le;
    room = omega (arith, v.holds.room, deposit-length r bs (omega (arith, v.holds.room)));
    known = v.holds.known;
  };
  stream = ap (λ l. l ++ to_come) shown ∙ joined;
}
  where
    shown : take (r.read_bytes + length bs) (deposit r bs).buffer ≡ take r.read_bytes r.buffer ++ bs
    shown = deposit_front r bs (omega (arith, v.holds.room))

    joined : (take r.read_bytes r.buffer ++ bs) ++ to_come ≡ packet_bytes header body ++ rest
    joined = append_assoc (take r.read_bytes r.buffer) bs to_come ∙ v.stream

    size : length (take r.read_bytes r.buffer ++ bs) ≡ r.read_bytes + length bs
    size = omega (
      arith,
      length-append (take r.read_bytes r.buffer) bs,
      length-take_le r.read_bytes r.buffer (omega (arith, v.holds.room)),
    )

    front :
        take r.read_bytes r.buffer ++ bs
        ≡ take (length (take r.read_bytes r.buffer ++ bs)) (packet_bytes header body)
    front =
        front_of (take r.read_bytes r.buffer ++ bs) to_come (packet_bytes header body) rest joined
          (omega (arith, size, le))

-- The loop has ended with what the transport answered to a read of at least one byte, inside the
-- packet: the bytes that are read so far are those in front of what was still to come.
abbrev pub Cut :
    (io : Io) (s : IsStream io)
    → List ℕ
    → List ℕ
    → PacketReader
    → io.Transport
    → Result io.IoError (List ℕ)
    → Type 0
Cut io s packet rest r t answer =
    (before : io.Transport) × (n : ℕ) × (0 < n)
    × (io.read before n ≡ (t, answer))
    × (r.read_bytes < length packet)
    × (take r.read_bytes r.buffer ++ s.incoming before ≡ packet ++ rest)

module _ (io : Io) (s : IsStream io) (header : ℕ) (body rest : List ℕ) where
  open io use {Transport, IoError, read}

  -- How the loop may end: with the packet at the front of the buffer and the rest of the stream
  -- unread, or inside the packet with what a read has given: an error, or the end of the stream.
  abbrev pub Framed : Filled io → Type 0
  Framed (r, t, ok u) =
      (take r.read_bytes r.buffer ≡ packet_bytes header body)
      × (r.packet_length ≡ some (length (packet_bytes header body)))
      × (r.read_bytes ≡ length (packet_bytes header body))
      × (s.incoming t ≡ rest)
  Framed (r, t, err (transport e)) = Cut io s (packet_bytes header body) rest r t (err e)
  Framed (r, t, err disconnected) = Cut io s (packet_bytes header body) rest r t (ok [])
  Framed (r, t, err e) = ⊥

  abbrev Going : ℕ → Turn (Filling io) (Filled io) → Type 0
  Going n (stop f) = Framed f
  Going n (again (r, t)) = Receives header body rest r (s.incoming t) × (n < r.read_bytes)

  append_cancel : (xs ys zs : List ℕ) → xs ++ ys ≡ xs ++ zs → ys ≡ zs
  append_cancel [] ys zs e = e
  append_cancel (x ∷ xs) ys zs e = append_cancel xs ys zs (ap (drop 1) e)

  whole-Framed :
      (r : PacketReader) (t : Transport)
      → Receives header body rest r (s.incoming t)
      → r.read_bytes ≡ length (packet_bytes header body)
      → r.packet_length ≡ some (length (packet_bytes header body))
      → Framed (r, t, ok tt)
  whole-Framed r t v e k = (
    full,
    k,
    e,
    append_cancel (packet_bytes header body) (s.incoming t) rest
        (ap (λ l. l ++ s.incoming t) (sym full) ∙ v.stream),
  )
    where
      full : take r.read_bytes r.buffer ≡ packet_bytes header body
      full =
          v.holds.front
          ∙ ap (λ n. take n (packet_bytes header body)) e
          ∙ take_all (packet_bytes header body)

  available_whole :
      (r : PacketReader) {to_come : List ℕ}
      → Receives header body rest r to_come
      → packet_available r ≡ true
      → (r.read_bytes ≡ length (packet_bytes header body))
        × (r.packet_length ≡ some (length (packet_bytes header body)))
  unfolding packet_available
  available_whole r v h = ground (arith, v.holds.known, v.holds.bound)

  -- The outcome of one read of at most `n` bytes into a window that ends inside the packet.
  fill_read-Going :
      (r : PacketReader) (t : Transport) (n : ℕ) (q : Transport × Result IoError (List ℕ))
      → Receives header body rest r (s.incoming t)
      → r.read_bytes + n ≤ length (packet_bytes header body)
      → 0 < n
      → read t n ≡ q
      → Going r.read_bytes (fill_read io r q)
  unfolding fill_read commit deposit
  fill_read-Going r t n (t', err e) v h some_room q = (t, n, some_room, q, omega arith, v.stream)
  fill_read-Going r t n (t', ok []) v h some_room q = (t, n, some_room, q, omega arith, v.stream)
  fill_read-Going r t n (t', ok (b ∷ bs)) v h some_room q =
      let more : (suc (length bs) == 0) ≡ false = ground arith in
      rw more (
        Receives-deposit header body rest r (b ∷ bs) (s.incoming t')
            (subst (Receives header body rest r) (s.read-incoming t t' n (b ∷ bs) q) v)
            (omega (arith, io.read-le t t' n (b ∷ bs) q)),
        omega arith,
      )

  module _ (fits : length body ≤ mqtt_varint_max) where
    fill_window-Going :
        (r : PacketReader) (t : Transport) (p : PacketReader × Result ProtocolError (ℕ × ℕ))
        → Receives header body rest r (s.incoming t)
        → Windowed header body fits r.read_bytes r.buffer p
        → Going r.read_bytes (fill_window io t p)
    unfolding fill_window
    fill_window-Going r t (r', err e) v w = elim w [ ]
    fill_window-Going r t (r', ok (start, end)) v (held, at, n, b, le, whole) =
        elim (Bool-cases (leb end start)) [
          | inl empty ↦
              rw empty (let (e, k) = whole (leb→le _ _ empty) in whole-Framed r' t same (n ∙ e) k)
          | inr space ↦ rw space (
              subst (λ m. Going m (fill_read io r' (read t (end - start)))) n
                (fill_read-Going r' t (end - start) (read t (end - start)) same (ground arith)
                  (ground arith) refl))
        ]
      where
        same : Receives header body rest r' (s.incoming t)
        same = record {
          holds = held;
          stream =
              ap (λ m. take m r'.buffer ++ s.incoming t) n
              ∙ ap (λ l. take r.read_bytes l ++ s.incoming t) b
              ∙ v.stream;
        }

    fill_round-Going :
        (r : PacketReader) (t : Transport)
        → Receives header body rest r (s.incoming t)
        → Going r.read_bytes (fill_round io (r, t))
    unfolding fill_round
    fill_round-Going r t v = elim (Bool-cases (packet_available r)) [
      | inl whole ↦ rw whole (let (e, k) = available_whole r v whole in whole-Framed r t v e k)
      | inr missing ↦ rw missing (
          fill_window-Going r t (receive_buffer r) v
            (receive_buffer-Windowed header body fits r v.holds))
    ]

    -- From a reader with room for the packet at the front of the stream, the loop ends within as
    -- many rounds as the packet has bytes, and one more.
    pub fill-Framed :
        (fuel : ℕ) (r : PacketReader) (t : Transport)
        → Receives header body rest r (s.incoming t)
        → length (packet_bytes header body) < r.read_bytes + fuel
        → (f : Filled io) × (fill_packet_reader io fuel (r, t) ≡ some f) × Framed f
    unfolding fill_packet_reader
    fill-Framed zero r t v h = absurd (omega (arith, v.holds.bound))
    fill-Framed (suc fuel) r t v h =
        go (fill_round io (r, t)) refl (fill_round-Going r t v)
          (λ r' t' v' h'. fill-Framed fuel r' t' v' h')
      where
        Ends : ℕ → Filling io → Type 0
        Ends n q = (f : Filled io) × (fill_packet_reader io n q ≡ some f) × Framed f

        go :
            (o : Turn (Filling io) (Filled io))
            → fill_round io (r, t) ≡ o
            → Going r.read_bytes o
            → ((r' : PacketReader) (t' : Transport)
                → Receives header body rest r' (s.incoming t')
                → length (packet_bytes header body) < r'.read_bytes + fuel
                → Ends fuel (r', t'))
            → Ends (suc fuel) (r, t)
        go (stop f) e g ih = (f, rw (e, fill_packet_reader), g)
        go (again (r', t')) e (v', more) ih =
            let (f, e', g) = ih r' t' v' (omega arith) in (f, rw (e, fill_packet_reader) e', g)
