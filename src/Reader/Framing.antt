-- ===== src/Reader/Framing.antt =====
-- Framing: however the transport cuts the stream into reads, the reader stops exactly at the end of
-- the packet at its front.
-- The packet with this first byte and this remainder: the fixed header carries its length.
use mathlib.Core.Path.{subst}
use minimq.Errors.{ProtocolError}
use minimq.Prelude.{
  Bool-cases, List, Option, Result, ap, arith, drop, drop-take, err, inl, inr, leb, leb→le, length,
  length-append, ltb, ltb→lt, none, ok, refl, some, split_at, sym, take, take-append_ge,
  take-append_le, true, ℕ, ◌++◌, ◌+◌, ◌-◌, ◌<◌, ◌∙◌, ◌∷◌, ◌≡◌, ◌≤◌, ◌⊎◌,
}
use minimq.Reader.{
  PacketReader, header_bytes, probe_fixed_header, probe_if_unknown, receive_buffer, set_length,
  target_end, window, window_after,
}
use minimq.Varint.{mqtt_varint_max, probe_mqtt_u32_varint}
use minimq.Varint.Encode.{canonical, length-canonical}
use minimq.Varint.RoundTrip.{probe-canonical, probe_cut}

abbrev pub packet_bytes : ℕ → List ℕ → List ℕ
packet_bytes header body = header ∷ (canonical 3 (length body) ++ body)

-- The reader holds a front part of the packet and knows its length or does not.
pub record Holds (header : ℕ) (body : List ℕ) (r : PacketReader) : Type 0 where
  pub front : take r.read_bytes r.buffer ≡ take r.read_bytes (packet_bytes header body)
  pub bound : r.read_bytes ≤ length (packet_bytes header body)
  pub room : length (packet_bytes header body) ≤ length r.buffer
  pub known :
      (r.packet_length ≡ none) ⊎ (r.packet_length ≡ some (length (packet_bytes header body)))

probe_fixed_header_lem :
    (r : PacketReader)
    → 1 < r.read_bytes
    → probe_fixed_header r
      ≡ set_length (record r { packet_length = none }) (probe_mqtt_u32_varint (header_bytes r))
unfolding probe_fixed_header
probe_fixed_header_lem r h = ground arith

module _ (header : ℕ) (body : List ℕ) (fits : length body ≤ mqtt_varint_max) where
  -- The probe of a front part of the packet behind its first byte.
  probe_short :
      (n : ℕ)
      → n < length (canonical 3 (length body))
      → probe_mqtt_u32_varint (take n (canonical 3 (length body) ++ body)) ≡ ok none
  probe_short n h =
      let (x, back, e) = split_at n (canonical 3 (length body)) h in
      rw (take-append_le n (canonical 3 (length body)) body (omega arith))
        (probe_cut (length body) x (take n (canonical 3 (length body))) back fits e)

  probe_long :
      (n : ℕ)
      → length (canonical 3 (length body)) ≤ n
      → probe_mqtt_u32_varint (take n (canonical 3 (length body) ++ body))
        ≡ ok (some (length body, length (canonical 3 (length body))))
  probe_long n h =
      rw (take-append_ge n (canonical 3 (length body)) body h)
        (probe-canonical (length body) (take (n - length (canonical 3 (length body))) body) fits)

  header_bytes_lem :
      (r : PacketReader)
      → Holds header body r
      → 1 < r.read_bytes
      → header_bytes r ≡ take (r.read_bytes - 1) (canonical 3 (length body) ++ body)
  unfolding header_bytes
  header_bytes_lem r v h =
      let e : 1 + (r.read_bytes - 1) ≡ r.read_bytes = omega arith in
      sym (drop-take 1 (r.read_bytes - 1) r.buffer)
      ∙ ap (drop 1) (
          ap (λ n. take n r.buffer) e
          ∙ v.front
          ∙ sym (ap (λ n. take n (packet_bytes header body)) e))
      ∙ drop-take 1 (r.read_bytes - 1) (packet_bytes header body)

  -- After the probe: the same bytes are held, and while the length is unknown bytes are missing.
  abbrev Probed : PacketReader → PacketReader × Result ProtocolError (Unit {0}) → Type 0
  Probed r (r', ok u) =
      Holds header body r'
      × (r'.read_bytes ≡ r.read_bytes)
      × (r'.buffer ≡ r.buffer)
      × ((r'.packet_length ≡ none) → r.read_bytes < length (packet_bytes header body))
  Probed r (r', err e) = ⊥

  length-packet :
      length (packet_bytes header body) ≡ 1 + length (canonical 3 (length body)) + length body
  length-packet = omega (arith, length-append (canonical 3 (length body)) body)

  unknown-Holds :
      (r : PacketReader)
      → Holds header body r
      → Holds header body (record r { packet_length = none })
  unknown-Holds r v = record { front = v.front; bound = v.bound; room = v.room; known = inl refl }

  probe-Probed : (r : PacketReader) → Holds header body r → Probed r (probe_fixed_header r)
  probe-Probed r v = elim (Bool-cases (leb r.read_bytes 1)) [
    | inl early ↦
        unfold probe_fixed_header in
        rw early (
          v,
          refl,
          refl,
          λ _. omega (arith, leb→le _ _ early, length-packet, length-canonical 3 (length body)),
        )
    | inr late ↦
        rw (probe_fixed_header_lem r (ground arith), header_bytes_lem r v (ground arith))
          (elim (Bool-cases (ltb (r.read_bytes - 1) (length (canonical 3 (length body))))) [
            | inl short ↦ rw (probe_short (r.read_bytes - 1) (ltb→lt _ _ short)) (
                unfold set_length in
                (
                  unknown-Holds r v,
                  refl,
                  refl,
                  λ _. omega (arith, ltb→lt _ _ short, length-packet),
                ))
            | inr long ↦ rw (probe_long (r.read_bytes - 1) (ground arith)) (
                unfold set_length in
                (
                  record {
                    front = v.front;
                    bound = v.bound;
                    room = v.room;
                    known = inr (ap some (sym length-packet));
                  },
                  refl,
                  refl,
                  λ e. cc,
                ))
          ])
  ]

  -- What `receive_buffer` gives: a window that ends at the packet's end at the latest, and that is
  -- empty only where the packet is whole.
  abbrev pub Windowed : ℕ → List ℕ → PacketReader × Result ProtocolError (ℕ × ℕ) → Type 0
  Windowed n buffer (r', ok (start, end)) =
      Holds header body r'
      × (start ≡ n)
      × (r'.read_bytes ≡ n)
      × (r'.buffer ≡ buffer)
      × (end ≤ length (packet_bytes header body))
      × (end ≤ start
          → (n ≡ length (packet_bytes header body))
            × (r'.packet_length ≡ some (length (packet_bytes header body))))
  Windowed n buffer (r', err e) = ⊥

  target_lem :
      (r : PacketReader)
      → Holds header body r
      → ((r.packet_length ≡ none) → r.read_bytes < length (packet_bytes header body))
      → (target_end r ≤ length (packet_bytes header body))
        × (target_end r ≤ r.read_bytes
            → (r.read_bytes ≡ length (packet_bytes header body))
              × (r.packet_length ≡ some (length (packet_bytes header body))))
  unfolding target_end
  target_lem r v h = elim v.known [
    | inl e ↦ rw e (omega (arith, h e), λ le. absurd (omega arith))
    | inr e ↦ rw e (omega arith, λ le. (omega (arith, v.bound), refl))
  ]

  window-Windowed :
      (r : PacketReader)
      → Holds header body r
      → ((r.packet_length ≡ none) → r.read_bytes < length (packet_bytes header body))
      → Windowed r.read_bytes r.buffer (window r)
  unfolding window
  window-Windowed r v h =
      let (le, whole) = target_lem r v h in
      let fit : leb (target_end r) (length r.buffer) ≡ true = ground (arith, v.room) in
      rw fit (v, refl, refl, refl, le, whole)

  window_after-Windowed :
      (r : PacketReader) (p : PacketReader × Result ProtocolError (Unit {0}))
      → Probed r p
      → Windowed r.read_bytes r.buffer (window_after p)
  unfolding window_after
  window_after-Windowed r (r', ok u) (v, e, b, h) =
      let w = window-Windowed r' v (λ n. rw e (h n)) in
      subst (λ n. Windowed n r.buffer (window r')) e
        (subst (λ l. Windowed r'.read_bytes l (window r')) b w)
  window_after-Windowed r (r', err x) h = elim h [ ]

  probe_if_unknown-Probed :
      (r : PacketReader) (o : Option ℕ)
      → Holds header body r
      → r.packet_length ≡ o
      → Probed r (probe_if_unknown r o)
  unfolding probe_if_unknown
  probe_if_unknown-Probed r none v e = probe-Probed r v
  probe_if_unknown-Probed r (some n) v e = (v, refl, refl, λ missing. cc)

  pub receive_buffer-Windowed :
      (r : PacketReader) → Holds header body r → Windowed r.read_bytes r.buffer (receive_buffer r)
  unfolding receive_buffer
  receive_buffer-Windowed r v =
      window_after-Windowed r (probe_if_unknown r r.packet_length)
        (probe_if_unknown-Probed r r.packet_length v refl)
